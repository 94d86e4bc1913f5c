-- ===== src/Interrupts/Tests.antt =====
-- The descriptors for entry points of eight bytes each.
use os_course_term.Common.{ℕ, ◌+◌, ◌*◌, ◌<◌, ◌≡◌, arith, if◌then◌else◌, ltb, Returns}
use os_course_term.Interrupts.{Idt, ints_count, init_idt}
use os_course_term.Interrupts.Gates.{LeadsTo, init_idt-LeadsTo}

abbrev entries : ℕ → ℕ
entries j = if ltb j 32 then 18446744071562067968 + j * 8 else 0

abbrev empty_idt : Idt
empty_idt = record {
  int_descriptors = λ j. record { word0 = 0; word1 = 0; word2 = 0; word3 = 0 };
  handlers = λ j. 0;
  base = 0;
  size = 0;
}

init_idt-LeadsTo_example :
    Returns
      (λ _ s'.
        ((j : ℕ) → j < ints_count → LeadsTo (s'.int_descriptors j) (entries j))
        × ((j : ℕ) → s'.handlers j ≡ 0)
        × (s'.base ≡ 4096)
        × (s'.size ≡ 4095))
      (init_idt entries 4096 empty_idt)
init_idt-LeadsTo_example = init_idt-LeadsTo entries 4096 empty_idt (λ j. ground arith)
