-- ===== src/Paging/Addresses.antt =====
-- A virtual address and its parts determine each other.
use os_course_term.Common.{
  ℕ, ◌+◌, ◌*◌, ◌/◌, ◌%◌, ◌^◌, ◌<◌, ◌≤◌, ◌≡◌, arith, ◌==◌, Bool-cases, inl, inr, ◌⊎◌,
}
use os_course_term.Paging.{pml4_i, pml3_i, pml2_i, pml1_i, page_off, canonical, linear}

-- The four indices and the offset make up the lower 48 bits, which `canonical` keeps.
pub indices_linear :
    (addr : ℕ)
    → (((pml4_i addr * 512 + pml3_i addr) * 512 + pml2_i addr) * 512 + pml1_i addr) * 2 ^ 12
        + page_off addr
      ≡ linear addr
indices_linear addr = omega arith

-- On 48-bit addresses `linear` undoes `canonical`, whose result is in the lower or the upper half.
pub linear-canonical :
    (addr : ℕ)
    → addr < 2 ^ 48
    → (linear (canonical addr) ≡ addr)
      × ((canonical addr < 2 ^ 47) ⊎ (2 ^ 64 ≤ canonical addr + 2 ^ 47))
      × (canonical addr < 2 ^ 64)
linear-canonical addr h = elim (Bool-cases (addr / 2 ^ 47 % 2 == 0)) [
  | inl low ↦ rw low (omega arith, inl (ground arith), omega arith)
  | inr high ↦ rw high (omega arith, inr (ground arith), omega arith)
]
