-- ===== src/Buddy/Init/Tests.antt =====
-- The marking of pages, on a memory in which no page is free.
use os_course_term.Common.{
  ℕ, ◌≡◌, ◌+◌, ◌*◌, ◌^◌, refl, arith, false, List, [], ◌∷◌, Returns, minus_one,
}
use os_course_term.Buddy.{BuddyAllocator, buddy_levels}
use os_course_term.Buddy.FreeLists.{Pool}
use os_course_term.Buddy.GetLevel.{levels}
use os_course_term.Buddy.Valid.{IsValid}
use os_course_term.Buddy.Init.Done.{buddy_init-IsValid}
use os_course_term.Buddy.Init.{buddy_init, InitOperation, make_segment_available}
use os_course_term.Buddy.Init.Pages.{IsInitial}

abbrev pub blank_memory : BuddyAllocator
blank_memory = record {
  start = 0;
  buddies = λ i. record {
    prev_free = minus_one;
    next_free = minus_one;
    is_free = false;
    allocated_level = buddy_levels;
  };
  firsts = λ lev. minus_one;
}

abbrev no_pages : Pool
no_pages lev = []

blank-IsInitial : IsInitial blank_memory no_pages
blank-IsInitial = record {
  linked = record {
    chain = λ lev h. refl;
    distinct = λ lev h. tt;
    placed = λ lev i h m. absurd (cc);
    flagged = λ lev i h o. refl;
    loose = λ i h. (refl, refl);
  };
  unused = λ c. refl;
  pages = λ l h. refl;
  small = omega arith;
}

-- Memory from 1 MiB on, of which the kernel occupies the first 2 MiB.
abbrev segments : List InitOperation
segments =
    record { operation = make_segment_available; start = 2 ^ 20; end = 2 ^ 27 }
    ∷ record { operation = 1; start = 2 ^ 20; end = 3 * 2 ^ 20 + 17 }
    ∷ []

-- Memory from 1 MiB to 1 GiB, of which the kernel occupies the first 2 MiB.
buddy_init-IsValid_example :
    Returns
      (λ _ a'.
        (pool : Pool) × IsValid a' pool × (a'.start ≡ 0) × ((c : ℕ) → levels a' c ≡ buddy_levels))
      (buddy_init 0 segments blank_memory)
buddy_init-IsValid_example =
    buddy_init-IsValid blank_memory 0 segments (λ j h. refl) (omega arith) (omega arith)
