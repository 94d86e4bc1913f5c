-- ===== src/Paging/Map/Supply.antt =====
-- `alloc_big_phys_aligned` of memory.c as the source of page tables.
use os_course_term.Common.{
  ℕ, ◌≡◌, arith, died, Refusal, halts, waits, Draws, drawn, halted, Ends-cases, inl, inr,
}
use os_course_term.Buddy.{BuddyAllocator, buddy_alloc}
use os_course_term.Buddy.Taken.{IsTaken, Takes}
use os_course_term.Memory.{PhysState, alloc_big_phys_aligned}
use os_course_term.Memory.Calls.{
  IsReady, unlocked_memory, unlocked-IsReady, alloc_big_phys_aligned-Takes,
}
use os_course_term.Paging.Map.{table_size}
use os_course_term.Paging.Map.Mapped.{IsFresh, TableSupply}

abbrev pub IsTakenPage : PhysState → ℕ → Type 0
IsTakenPage h t = IsTaken h.first_buddy t

-- The memory after the allocation of a page, of which the lock is free again.
after :
    (h : PhysState) (v : IsReady h) (t : ℕ) (a : BuddyAllocator)
    → Takes h.first_buddy table_size t a
    → IsFresh IsReady IsTakenPage h t (unlocked_memory h a)
after h v t a r =
    let (c, x, u, page) = r.page in
    record {
      ready = unlocked-IsReady h v a r.pool r.valid r.start;
      aligned = omega (arith, page, r.start, v.aligned);
      small = omega (arith, r.fresh.below, v.small);
      free = λ (c, x, u, e). elim (r.fresh.apart c x u) [
        | inl p ↦ omega (arith, e)
        | inr p ↦ omega (arith, e)
      ];
      taken = r.page;
      kept = r.kept;
    }

-- A ready allocator in which `buddy_alloc` finds no page; it never waits.
abbrev pub NoPage : Refusal → Type 0
NoPage halts = (m : PhysState) × IsReady m × (buddy_alloc table_size m.first_buddy ≡ died)
NoPage waits = ◌≡◌ {A = ℕ} 0 1

pub alloc_big_phys_aligned-IsFresh :
    (h : PhysState)
    → IsReady h
    → Draws NoPage (IsFresh IsReady IsTakenPage h) (alloc_big_phys_aligned table_size h)
alloc_big_phys_aligned-IsFresh h v =
    elim (Ends-cases (alloc_big_phys_aligned-Takes h table_size v (omega arith) (omega arith))) [
      | inl (e, none_left) ↦ rw e (halted (h, v, none_left))
      | inr (t, m, e, (a, takes, same)) ↦ rw e (drawn (rw same (after h v t a takes)))
    ]

-- The supply that `init_memory` has. A failed allocation halts the machine.
abbrev pub phys_supply : TableSupply PhysState NoPage
phys_supply = record {
  alloc = alloc_big_phys_aligned table_size;
  Ready = IsReady;
  Taken = IsTakenPage;
  alloc-Fresh = alloc_big_phys_aligned-IsFresh;
}
