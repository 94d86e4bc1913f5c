-- ===== src/Boot.antt =====
-- `init_memory` of memory.c up to its call of `init_paging`: the memory map of the boot loader gives
-- the segments for `buddy_init`, and where the memory ends. What is printed is left out.
pub mod Scan
pub mod Memory
mod Tests
use os_course_term.Common.{
  ℕ, zero, suc, ◌+◌, ◌*◌, ◌%◌, ◌^◌, Bool, not, ltb, ◌==◌, if◌then◌else◌, List, [], ◌∷◌, ◌++◌,
  length, fault, Cmd, pure, ◌>>=◌, ◌>>◌, within, assert, add64, land64,
}
use os_course_term.Buddy.Init.{InitOperation, make_segment_available, buddy_init}
use os_course_term.Memory.{PhysState, PhysCmd, on_buddy}
use os_course_term.Paging.Map.{PageState, PageCmd, init_paging}

-- The parts that are read of `struct multiboot_mmap_entry` and `struct multiboot_info`, in the layout
-- of the Multiboot specification.
pub record MmapEntry : Type 0 where
  pub size : ℕ
  pub addr : ℕ
  pub len : ℕ
  pub kind : ℕ

pub record MultibootInfo : Type 0 where
  pub flags : ℕ
  pub mmap_length : ℕ
  pub mmap_addr : ℕ

abbrev pub sizeof_multiboot_info : ℕ
sizeof_multiboot_info = 88

abbrev pub reserve_segment : ℕ
reserve_segment = 1

abbrev pub max_init_ops : ℕ
max_init_ops = 64

-- `ops[init_ops++]`
pub add_op :
    {S : Type 0} → (operation start end : ℕ) → List InitOperation → Cmd S (List InitOperation)
add_op operation start end ops = do
  assert (ltb (length ops) max_init_ops)
  pure (ops ++ (record { operation = operation; start = start; end = end } ∷ []))

abbrev pub segment_end : MmapEntry → ℕ
segment_end segm = add64 segm.addr segm.len

abbrev pub add_segment : {S : Type 0} → MmapEntry → List InitOperation → Cmd S (List InitOperation)
add_segment segm ops =
    if segm.kind == 1
    then add_op make_segment_available segm.addr (segment_end segm) ops
    else pure ops

abbrev pub larger : ℕ → ℕ → ℕ
larger end phys_mem_end = if ltb phys_mem_end end then end else phys_mem_end

-- `segments` is what the boot loader left at each address.
module _ (segments : ℕ → MmapEntry) (mboot_info : MultibootInfo) where
  -- The loop over the memory map, with the operations so far and `phys_mem_end`.
  pub scan_segments :
      {S : Type 0}
      → (fuel pos : ℕ) → List InitOperation
      → (phys_mem_end : ℕ) → Cmd S (List InitOperation × ℕ)
  scan_segments zero pos ops phys_mem_end =
      if ltb pos mboot_info.mmap_length then (λ s. fault) else pure (ops, phys_mem_end)
  scan_segments (suc fuel) pos ops phys_mem_end =
      let segm : MmapEntry = segments ((mboot_info.mmap_addr + pos) % 2 ^ 32) in
      let next : ℕ = (pos + (segm.size + 4) % 2 ^ 32) % 2 ^ 32 in
      if ltb pos mboot_info.mmap_length
      then (add_segment segm ops >>= λ ops'.
          scan_segments fuel next ops' (larger (segment_end segm) phys_mem_end))
      else pure (ops, phys_mem_end)

  -- `mboot_addr` is the pointer `mboot_info`. An entry takes at least 4 bytes of the map, so its
  -- length is fuel enough, unless the sizes in it wrap around. `alloc` is the allocation of a page
  -- table in `init_paging`. The result is `phys_mem_end`, and what `init_paging` gives to `store_pml4`.
  pub init_memory :
      (alloc : Cmd PhysState ℕ) (mboot_addr text_phys_begin bss_phys_end : ℕ)
      → PageCmd PhysState (ℕ × ℕ)
  init_memory alloc mboot_addr text_phys_begin bss_phys_end = do
    assert (not (land64 mboot_info.flags (2 ^ 6) == 0))
    (segments_ops, phys_mem_end) ← scan_segments mboot_info.mmap_length 0 [] 0
    assert (not (ltb (1024 * 1024) (add64 mboot_addr sizeof_multiboot_info)))
    assert (not (ltb (1024 * 1024) ((mboot_info.mmap_addr + mboot_info.mmap_length) % 2 ^ 32)))
    kernel_ops ← add_op reserve_segment text_phys_begin bss_phys_end segments_ops
    ops ← add_op reserve_segment 0 (1024 * 1024) kernel_ops
    λ s. within (λ p. record s { phys = p }) (on_buddy (buddy_init 0 ops) s.phys)
    pml4 ← init_paging alloc phys_mem_end
    pure (phys_mem_end, pml4)
