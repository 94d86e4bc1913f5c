-- ===== src/Threads/WaitTests.antt =====
-- A thread that has ended, in a memory of which one half is its slab and the other its stack.
use os_course_term.Common.{
  ℕ, ◌+◌, ◌*◌, ◌^◌, ◌<◌, ◌≡◌, ◌⊎◌, refl, arith, false, ◌==◌, if◌then◌else◌, inl, inr, [], minus_one,
  Returns,
}
use os_course_term.Buddy.{BuddyAllocator, buddy_levels, last_lev_start}
use os_course_term.Buddy.FreeLists.{Pool}
use os_course_term.Buddy.Tree.{up, Unrelated-siblings, Unrelated-sym}
use os_course_term.Buddy.GetLevel.{levels}
use os_course_term.Buddy.Pool.{IsApart}
use os_course_term.Buddy.Valid.{IsValid}
use os_course_term.Memory.{va}
use os_course_term.Slab.Free.{item_at}
use os_course_term.Slab.Heap.Invariant.{IsHeap}
use os_course_term.Slab.Heap.Places.{IsItem}
use os_course_term.Threads.{ThreadsState, heap_of, wait}
use os_course_term.Threads.Tests.{three, one_left-IsSlab, three-IsSound, two_threads, two_view}
use os_course_term.Threads.Wait.{Reaped, wait-Reaped}

-- The first leaf of the second half.
abbrev second_half : ℕ
second_half = 3 * 2 ^ 17

-- Both halves of the memory are blocks in use.
abbrev both_used : BuddyAllocator
both_used = record {
  start = 2 ^ 30;
  buddies = λ i. record {
    prev_free = minus_one;
    next_free = minus_one;
    is_free = false;
    allocated_level =
        if i == last_lev_start then 1 else if i == second_half then 1 else buddy_levels;
  };
  firsts = λ lev. minus_one;
}

abbrev no_pool : Pool
no_pool lev = []

half_of : (c : ℕ) → levels both_used c < buddy_levels → (c ≡ last_lev_start) ⊎ (c ≡ second_half)
half_of c h = ground arith

both_used-IsApart : IsApart no_pool (levels both_used)
unfolding up
both_used-IsApart = record {
  free_free = λ l m i j hl hm hi hj ne. absurd (cc);
  used_free = λ c m j hc hm hj. absurd (cc);
  used_used = λ c d hc hd ne. elim (half_of c hc) [
    | inl e ↦ elim (half_of d hd) [
      | inl e' ↦ absurd (omega (arith, e, e', ne))
      | inr e' ↦ rw (e, e') (Unrelated-siblings 1 (omega arith))
    ]
    | inr e ↦ elim (half_of d hd) [
      | inl e' ↦ rw (e, e') (Unrelated-sym 2 3 (Unrelated-siblings 1 (omega arith)))
      | inr e' ↦ absurd (omega (arith, e, e', ne))
    ]
  ];
}

both_used-IsValid : IsValid both_used no_pool
unfolding up
both_used-IsValid = record {
  linked = record {
    chain = λ lev h. refl;
    distinct = λ lev h. tt;
    placed = λ lev i h m. absurd (cc);
    flagged = λ lev i h o. refl;
    loose = λ i h. (refl, refl);
  };
  apart = both_used-IsApart;
  marks = record {
    capped = λ c. ground arith;
    leaf = λ c h. ground arith;
    aligned = λ c h. elim (half_of c h) [ inl e ↦ rw e refl | inr e ↦ rw e refl ];
  };
  small = omega arith;
}

-- The second item is a thread that has ended, with the second half as its stack.
abbrev ended_thread : ThreadsState
ended_thread = record two_threads {
  threads_alloc = record two_threads.threads_alloc {
    phys = record two_threads.threads_alloc.phys { first_buddy = both_used };
  };
  scheduler = record two_threads.scheduler {
    threads = λ t. record { stack_start = va (2 ^ 30 + 2 ^ 29); rsp = t + 512; state = 4 };
  };
}

ended_thread-IsHeap : IsHeap (heap_of ended_thread) two_view
ended_thread-IsHeap = record {
  store = record {
    linked = (refl, refl, refl);
    distinct = (refl, (refl, tt));
    fulls = tt;
    apart = λ p g. refl;
    slab = λ p g. one_left-IsSlab;
    block = λ p g.
        let at : p ≡ va (2 ^ 30) = ground arith in
        rw at (
          record { leaf = last_lev_start; used = omega arith; at = refl; wide = omega arith },
          refl,
        );
    counted = refl;
    sound = three-IsSound;
    ready = record {
      pool = no_pool;
      valid = both_used-IsValid;
      aligned = refl;
      small = omega arith;
      mine = refl;
    };
    low = omega arith;
  };
  tidy = record { partial = λ p g. (omega arith, omega arith); full = λ p g. absurd (cc) };
  mine = refl;
}

abbrev ended_item : IsItem (heap_of ended_thread) two_view (item_at three (va (2 ^ 30)) 1)
ended_item = record { slab = va (2 ^ 30); item = 1; used = refl; at = refl }

wait-Reaped_example :
    Returns
      (λ _ s'. Reaped ended_thread two_view (item_at three (va (2 ^ 30)) 1) ended_item s')
      (wait (item_at three (va (2 ^ 30)) 1) ended_thread)
wait-Reaped_example =
    wait-Reaped ended_thread two_view (item_at three (va (2 ^ 30)) 1) ended_item refl
      ended_thread-IsHeap refl
      (record { leaf = second_half; used = omega arith; at = refl; wide = omega arith })
      λ p g. let at : p ≡ va (2 ^ 30) = ground arith in rw at (λ e. absurd (omega (arith, e)))
