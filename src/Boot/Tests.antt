-- ===== src/Boot/Tests.antt =====
-- A machine with 640 KiB and 127 MiB of memory, and a segment that is not available.
use os_course_term.Common.{ℕ, ◌*◌, ◌^◌, true, if◌then◌else◌, ◌==◌, List, [], ◌∷◌}
use os_course_term.Buddy.Init.Tests.{blank_memory}
use os_course_term.Memory.{PhysState}
use os_course_term.Paging.Map.{PageState}
use os_course_term.Boot.{MmapEntry, MultibootInfo}

abbrev low_memory : MmapEntry
low_memory = record { size = 20; addr = 0; len = 655360; kind = 1 }

abbrev rom : MmapEntry
rom = record { size = 20; addr = 655360; len = 393216; kind = 2 }

abbrev high_memory : MmapEntry
high_memory = record { size = 20; addr = 2 ^ 20; len = 127 * 2 ^ 20; kind = 1 }

abbrev entries : List MmapEntry
entries = low_memory ∷ rom ∷ high_memory ∷ []

abbrev segments_at : ℕ → MmapEntry
segments_at p = if p == 4096 then low_memory else if p == 4120 then rom else high_memory

abbrev sample_info : MultibootInfo
sample_info = record { flags = 64; mmap_length = 72; mmap_addr = 4096 }

abbrev at_start : PageState PhysState
at_start = record {
  phys = record {
    first_buddy = blank_memory;
    phys_alloc_lock = record { locked = 0; owner = 0 };
    valloc_lock = record { locked = 0; owner = 0 };
    current_thread = 0;
    interrupts = true;
  };
  tables = λ u j. 0;
}
