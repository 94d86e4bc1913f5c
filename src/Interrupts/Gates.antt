-- ===== src/Interrupts/Gates.antt =====
-- The descriptors that `init_idt` stores lead back to the entry points.
use os_course_term.Common.{
  ℕ, zero, suc, ◌+◌, ◌*◌, ◌/◌, ◌%◌, ◌^◌, ◌≤◌, ◌<◌, ◌≡◌, refl, arith, Bool, not, ◌==◌, lt→ltb,
  if◌then◌else◌, Bool-cases, inl, inr, update, Returns, returns, Returns-bind, Returns-mono, ==_iff,
}
use os_course_term.Interrupts.{
  Gate, Idt, ints_count, kernel_code, gate_of, set_int_descriptor, fill_idt, init_idt,
}

-- The entry point that the processor reads from a descriptor, and its flag `present`.
abbrev pub entry_point : Gate → ℕ
entry_point g = g.word0 % 2 ^ 16 + g.word1 / 2 ^ 16 % 2 ^ 16 * 2 ^ 16 + g.word2 * 2 ^ 32

abbrev pub is_present : Gate → Bool
is_present g = g.word1 / 2 ^ 15 % 2 == 1

-- A descriptor that was stored for an entry point leads to it in the code segment of the kernel, as
-- an interrupt gate of the highest privilege without a stack of its own, and is present; where the
-- entry point is 0, it is the empty descriptor.
pub record LeadsTo (g : Gate) (offset : ℕ) : Type 0 where
  pub offset_lem : entry_point g ≡ offset
  pub present : is_present g ≡ not (offset == 0)
  pub selector : g.word0 / 2 ^ 16 ≡ (if offset == 0 then 0 else kernel_code)
  pub kind : g.word1 % 2 ^ 15 ≡ (if offset == 0 then 0 else 14 * 2 ^ 8)
  pub reserved : g.word3 ≡ 0

gate_of-LeadsTo : (offset : ℕ) → offset < 2 ^ 64 → LeadsTo (gate_of offset) offset
gate_of-LeadsTo offset h = elim (Bool-cases (offset == 0)) [
  | inl zero_offset ↦
      let e = (==_iff offset 0).0 zero_offset in
      rw e (record {
        offset_lem = refl;
        present = refl;
        selector = refl;
        kind = refl;
        reserved = refl;
      })
  | inr offset_given ↦ rw offset_given (record {
    offset_lem = omega arith;
    present = ground arith;
    selector = rw offset_given (omega arith);
    kind = rw offset_given (omega arith);
    reserved = refl;
  })
]

fill_idt-LeadsTo :
    (asm : ℕ → ℕ) (rounds i : ℕ) (s : Idt)
    → ((j : ℕ) → asm j < 2 ^ 64)
    → i + rounds ≤ ints_count
    → ((j : ℕ) → j < i → LeadsTo (s.int_descriptors j) (asm j))
    → Returns
        (λ _ s'.
          ((j : ℕ) → j < i + rounds → LeadsTo (s'.int_descriptors j) (asm j))
          × ((j : ℕ) → s'.handlers j ≡ s.handlers j))
        (fill_idt asm rounds i s)
unfolding fill_idt set_int_descriptor
fill_idt-LeadsTo asm zero i s w h old = returns ((λ j g. old j (omega arith)), (λ j. refl))
fill_idt-LeadsTo asm (suc rounds) i s w h old =
    let stored : Idt = record s {
      int_descriptors = update s.int_descriptors i (gate_of (asm i));
    } in
    rw (lt→ltb i ints_count (omega arith)) (
      Returns-mono
        (fill_idt-LeadsTo asm rounds (i + 1) stored w (omega arith) λ j g.
          elim (Bool-cases (j == i)) [
            | inl here ↦ let e = (==_iff j i).0 here in rw (here, e) (gate_of-LeadsTo (asm i) (w i))
            | inr there ↦ rw there (old j (ground arith))
          ])
        λ _ s' (all, same). ((λ j g. all j (omega arith)), same))

-- For entry points of 64 bits, after `init_idt` each of the 256 descriptors leads to its entry
-- point, the table is loaded from the given address with the size of all descriptors, and the
-- handlers are as before.
pub init_idt-LeadsTo :
    (asm : ℕ → ℕ) (address : ℕ) (s : Idt)
    → ((j : ℕ) → asm j < 2 ^ 64)
    → Returns
        (λ _ s'.
          ((j : ℕ) → j < ints_count → LeadsTo (s'.int_descriptors j) (asm j))
          × ((j : ℕ) → s'.handlers j ≡ s.handlers j)
          × (s'.base ≡ address)
          × (s'.size ≡ 4095))
        (init_idt asm address s)
unfolding init_idt
init_idt-LeadsTo asm address s w =
    Returns-bind (fill_idt-LeadsTo asm ints_count 0 s w (omega arith) λ j h. absurd (omega arith))
      λ _ s' (all, same). returns ((λ j h. all j (omega arith)), same, refl, refl)
