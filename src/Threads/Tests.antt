-- ===== src/Threads/Tests.antt =====
-- Threads that are items of a slab, in a memory half of which is free.
use os_course_term.Common.{
  ℕ, zero, suc, ◌+◌, ◌^◌, ◌<◌, ◌≡◌, refl, arith, true, ◌==◌, ==_iff, if◌then◌else◌, Bool-cases, inl,
  inr, [], ◌∷◌, has, pos, minus_one, pow2-suc, pow2_pos, Ends,
}
use os_course_term.Buddy.{BuddyAllocator, buddy_levels, last_lev_start}
use os_course_term.Buddy.FreeLists.{Pool, OnLevel, IsLinked}
use os_course_term.Buddy.Chains.{Chain}
use os_course_term.Buddy.Tree.{up, Unrelated-siblings}
use os_course_term.Buddy.GetLevel.{levels}
use os_course_term.Buddy.Pool.{IsApart}
use os_course_term.Buddy.Valid.{IsValid}
use os_course_term.Memory.{va}
use os_course_term.Slab.{Slab, SlabLayout}
use os_course_term.Slab.Nodes.{IsSlab}
use os_course_term.Slab.Free.{item_at}
use os_course_term.Slab.Heap.Invariant.{HeapView, IsHeap, IsSound}
use os_course_term.Threads.{ThreadsState, heap_of, create_thread}
use os_course_term.Threads.Kernel.{IsKernel, NoMemory}
use os_course_term.Threads.Spawn.{IsSpawned, create_thread-IsKernel}

-- The first half of the memory is a block in use, and the second a free one.
abbrev half_used : BuddyAllocator
half_used = record {
  start = 2 ^ 30;
  buddies = λ i. record {
    prev_free = minus_one;
    next_free = minus_one;
    is_free = i == 3;
    allocated_level = if i == last_lev_start then 1 else buddy_levels;
  };
  firsts = λ lev. if lev == 1 then pos 3 else minus_one;
}

abbrev half_used_pool : Pool
half_used_pool lev = if lev == 1 then 3 ∷ [] else []

half_used-IsLinked : IsLinked half_used half_used_pool
half_used-IsLinked = record {
  chain = chain;
  distinct = λ lev h. ground arith;
  placed = placed;
  flagged = flagged;
  loose = λ i h. (refl, refl);
}
  where
    chain :
        (lev : ℕ)
        → lev < buddy_levels
        → Chain half_used.buddies minus_one (half_used.firsts lev) (half_used_pool lev)
    chain zero h = refl
    chain (suc zero) h = (refl, refl, refl)
    chain (suc (suc lev)) h = ground arith

    placed : (lev i : ℕ) → lev < buddy_levels → has i (half_used_pool lev) ≡ true → OnLevel lev i
    placed zero i h m = absurd (cc)
    placed (suc zero) i h m = ground arith
    placed (suc (suc lev)) i h m = ground arith

    flagged :
        (lev i : ℕ)
        → lev < buddy_levels
        → OnLevel lev i
        → (half_used.buddies i).is_free ≡ has i (half_used_pool lev)
    flagged zero i h o = ground (arith, o)
    flagged (suc zero) i h o = ground (arith, o)
    flagged (suc (suc lev)) i h o =
        ground (arith, o, pow2-suc (suc lev), pow2-suc lev, pow2_pos lev)

half_used-IsApart : IsApart half_used_pool (levels half_used)
unfolding up
half_used-IsApart = record {
  free_free = λ l m i j hl hm hi hj ne. absurd (ground arith);
  used_free = λ c m j hc hm hj. elim (Bool-cases (c == last_lev_start)) [
    | inl e ↦
        let here : c ≡ last_lev_start = (==_iff c last_lev_start).0 e in
        let there : j ≡ 3 = ground arith in rw (here, there) (Unrelated-siblings 1 (omega arith))
    | inr e ↦ absurd (ground arith)
  ];
  used_used = λ c d hc hd ne. absurd (ground arith);
}

half_used-IsValid : IsValid half_used half_used_pool
unfolding up
half_used-IsValid = record {
  linked = half_used-IsLinked;
  apart = half_used-IsApart;
  marks = record {
    capped = λ c. ground arith;
    leaf = λ c h. ground arith;
    aligned = λ c h. elim (Bool-cases (c == last_lev_start)) [
      | inl e ↦ rw ((==_iff c last_lev_start).0 e) refl
      | inr e ↦ absurd (ground arith)
    ];
  };
  small = omega arith;
}

-- The slab in the first half has three items, of which the last is free.
abbrev pub three : SlabLayout
three = record { item_size = 40; slab_nodes_start = 64; slab_alloc_mem = 4096; slab_nodes = 3 }

abbrev pub one_left : Slab
one_left = record {
  prev_slab = 0;
  next_slab = 0;
  first_free = pos 2;
  allocated = 2;
  nodes = λ i. if i == 0 then pos 0 else if i == 1 then pos 1 else minus_one;
}

pub three-IsSound : IsSound three
three-IsSound = record {
  some = omega arith;
  few = omega arith;
  sized = omega arith;
  room = omega arith;
  block = (omega arith, omega arith);
}

pub one_left-IsSlab : IsSlab three one_left (2 ∷ [])
one_left-IsSlab = record {
  chain = (refl, refl);
  distinct = (refl, tt);
  inside = λ i h. ground arith;
  taken = λ i h out. ground arith;
  counted = refl;
}

-- The first item is the current thread, and the second waits in the queue at 8.
abbrev pub two_threads : ThreadsState
two_threads = record {
  threads_alloc = record {
    slabs = λ p. one_left;
    layout = three;
    partials = va (2 ^ 30);
    fulls_cnt = pos 0;
    lock = record { locked = 0; owner = 0 };
    phys = record {
      first_buddy = half_used;
      phys_alloc_lock = record { locked = 0; owner = 0 };
      valloc_lock = record { locked = 0; owner = 0 };
      current_thread = item_at three (va (2 ^ 30)) 0;
      interrupts = true;
    };
  };
  scheduler = record {
    threads = λ t. record { stack_start = 4096; rsp = t + 512; state = 1 };
    heads = record {
      next = λ p. if p == 8 then item_at three (va (2 ^ 30)) 1 + 16 else 8;
      prev = λ p. if p == 8 then item_at three (va (2 ^ 30)) 1 + 16 else 8;
    };
    running_threads = 8;
    sleeping_threads = 64;
    current_thread = item_at three (va (2 ^ 30)) 0;
    threads_mgmt_lock = record { locked = 0; owner = 0 };
    interrupts = true;
  };
  words = λ p. 0;
}

abbrev pub two_view : HeapView
two_view = record { partial = va (2 ^ 30) ∷ []; full = []; free = λ p. 2 ∷ [] }

two_threads-IsHeap : IsHeap (heap_of two_threads) two_view
two_threads-IsHeap = record {
  store = record {
    linked = (refl, refl, refl);
    distinct = (refl, (refl, tt));
    fulls = tt;
    apart = λ p g. refl;
    slab = λ p g. one_left-IsSlab;
    block = λ p g.
        let at : p ≡ va (2 ^ 30) = ground arith in
        rw at (
          record { leaf = last_lev_start; used = omega arith; at = refl; wide = omega arith },
          refl,
        );
    counted = refl;
    sound = three-IsSound;
    ready = record {
      pool = half_used_pool;
      valid = half_used-IsValid;
      aligned = refl;
      small = omega arith;
      mine = refl;
    };
    low = omega arith;
  };
  tidy = record { partial = λ p g. (omega arith, omega arith); full = λ p g. absurd (cc) };
  mine = refl;
}

two_threads-IsKernel : IsKernel two_threads two_view (item_at three (va (2 ^ 30)) 1 ∷ [])
two_threads-IsKernel = record {
  scheduled = record {
    ring = record { links = (refl, refl, (refl, refl)); distinct = (refl, (refl, tt)) };
    apart = refl;
    running = (refl, omega arith, (refl, omega arith, tt));
  };
  heap = two_threads-IsHeap;
  items = (
    record { slab = va (2 ^ 30); item = 0; used = refl; at = refl },
    (record { slab = va (2 ^ 30); item = 1; used = refl; at = refl }, tt),
  );
  room = omega arith;
  queue = inl (omega arith);
  low = omega arith;
  mgmt = refl;
  valloc = refl;
}

create_thread-IsKernel_example :
    Ends
      (NoMemory two_threads two_view)
      (λ t s'. (v' : HeapView) × IsSpawned (item_at three (va (2 ^ 30)) 1 ∷ []) 77 2 4242 7 t v' s')
      (create_thread 77 2 4242 7 two_threads)
create_thread-IsKernel_example =
    create_thread-IsKernel two_threads two_view (item_at three (va (2 ^ 30)) 1 ∷ []) 77 2 4242 7
      two_threads-IsKernel
