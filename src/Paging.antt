-- ===== src/Paging.antt =====
-- The page table entries and the parts of a virtual address: paging_util.h.
pub mod Addresses
pub mod Map
mod Tests
use os_course_term.Common.{ℕ, ◌+◌, ◌-◌, ◌*◌, ◌/◌, ◌%◌, ◌^◌, Bool, not, ◌==◌, if◌then◌else◌, land64}

abbrev pub pte_present : ℕ → Bool
pte_present pte = not (land64 pte 1 == 0)

abbrev pub pte_write : ℕ → Bool
pte_write pte = not (land64 pte 2 == 0)

abbrev pub pte_user : ℕ → Bool
pte_user pte = not (land64 pte 4 == 0)

abbrev pub pte_large : ℕ → Bool
pte_large pte = not (land64 pte 128 == 0)

-- A shift is a division by a power of two, and a mask of low bits a remainder.
abbrev pub pte_phys : ℕ → ℕ
pte_phys pte = pte / 2 ^ 12 % 2 ^ 36 * 2 ^ 12

abbrev pub pml4_i : ℕ → ℕ
pml4_i addr = addr / 2 ^ 39 % 512

abbrev pub pml3_i : ℕ → ℕ
pml3_i addr = addr / 2 ^ 30 % 512

abbrev pub pml2_i : ℕ → ℕ
pml2_i addr = addr / 2 ^ 21 % 512

abbrev pub pml1_i : ℕ → ℕ
pml1_i addr = addr / 2 ^ 12 % 512

abbrev pub page_off : ℕ → ℕ
page_off addr = addr % 2 ^ 12

-- The upper 16 bits are those of 0xffff000000000000 when bit 47 is set.
abbrev pub canonical : ℕ → ℕ
canonical addr = if addr / 2 ^ 47 % 2 == 0 then addr else 65535 * 2 ^ 48 + addr % 2 ^ 48

abbrev pub linear : ℕ → ℕ
linear addr = addr % 2 ^ 48
