-- ===== src/Boot/Memory.antt =====
-- `init_memory` as a whole: the page allocator and the page tables that it leaves.
use os_course_term.Common.{
  ℕ, ◌+◌, ◌-◌, ◌*◌, ◌%◌, ◌^◌, ◌≤◌, ◌≡◌, false, ◌==◌, List, [], ◌∷◌, ◌++◌, length, land64,
}
use os_course_term.Buddy.Init.{InitOperation}
use os_course_term.Boot.{
  MmapEntry, MultibootInfo, reserve_segment, sizeof_multiboot_info, max_init_ops,
}
use os_course_term.Boot.Scan.{segments_ops, memory_end, LaysOut}

-- What `init_memory` gives to `buddy_init`: the available segments, and the kernel and the first MiB,
-- which are reserved.
abbrev pub memory_ops : List MmapEntry → (text_phys_begin bss_phys_end : ℕ) → List InitOperation
memory_ops es text_phys_begin bss_phys_end =
    (segments_ops es
      ++ (record { operation = reserve_segment; start = text_phys_begin; end = bss_phys_end } ∷ []))
    ++ (record { operation = reserve_segment; start = 0; end = 1024 * 1024 } ∷ [])

-- What the boot loader must have left: a memory map of entries whose sizes do not wrap around, of
-- which at most 62 are available, below 1 MiB, and whole pages of memory.
pub record IsBootable (segments : ℕ → MmapEntry) (mboot_info : MultibootInfo) (mboot_addr : ℕ)
    (es : List MmapEntry) : Type 0 where
  pub has_map : (land64 mboot_info.flags (2 ^ 6) == 0) ≡ false
  pub laid_out : LaysOut segments mboot_info 0 es
  pub few : length (segments_ops es) + 2 ≤ max_init_ops
  pub info_low : mboot_addr + sizeof_multiboot_info ≤ 1024 * 1024
  pub map_low : (mboot_info.mmap_addr + mboot_info.mmap_length) % 2 ^ 32 ≤ 1024 * 1024
  pub some : 1 ≤ memory_end 0 es
  pub whole : memory_end 0 es % 4096 ≡ 0
  pub fits : memory_end 0 es ≤ 2 ^ 47 - 2 ^ 39
