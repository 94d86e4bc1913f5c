-- ===== src/Slab/Tests.antt =====
-- A layout and a slab, runs of slab.c on them, and the theorems at them.
use os_course_term.Common.{
  ◌-◌, ◌≡◌, refl, true, [], ◌∷◌, arith, ok, Returns, pos, minus_one, ◌==◌, if◌then◌else◌, land64,
  land,
}
use os_course_term.Buddy.{BuddyAllocator}
use os_course_term.Memory.{PhysState}
use os_course_term.Threading.{spin_lock, spin_unlock}
use os_course_term.Slab.Allocator.{SlabHeap, some_partial, move_to_fulls, slab_allocator_alloc}
use os_course_term.Slab.{
  take_node, node, set_node, Slab, SlabLayout, grow, lay_out, calculate_slab, slab_alloc,
}
use os_course_term.Slab.Layout.{IsLayout, calculate_slab-IsLayout}
use os_course_term.Slab.Nodes.{IsSlab}
use os_course_term.Slab.Free.{Fits}

-- Threads are allocated from slabs of items of 48 bytes.
layout_48 :
    calculate_slab 48 1 tt
    ≡ ok
        (record { item_size = 48; slab_nodes_start = 336; slab_alloc_mem = 4096; slab_nodes = 78 })
        tt
unfolding calculate_slab grow lay_out land
layout_48 = refl

-- Two items of 8 bytes, the second of which is free.
abbrev pub two : SlabLayout
two = record { item_size = 8; slab_nodes_start = 32; slab_alloc_mem = 4096; slab_nodes = 2 }

abbrev pub half_free : Slab
half_free = record {
  prev_slab = 0;
  next_slab = 0;
  first_free = pos 1;
  allocated = 1;
  nodes = λ i. if i == 0 then pos 0 else minus_one;
}

abbrev all_taken : Slab
all_taken = record {
  prev_slab = 0;
  next_slab = 0;
  first_free = minus_one;
  allocated = 2;
  nodes = pos;
}

pub half_free-IsSlab : IsSlab two half_free (1 ∷ [])
half_free-IsSlab = record {
  chain = (refl, refl);
  distinct = (refl, tt);
  inside = λ i h. ground arith;
  taken = λ i h out. ground arith;
  counted = refl;
}

two-Fits : Fits two 8192
two-Fits = record { sized = omega arith; few = omega arith; ends = omega arith }

disjoint : land64 1024 (1024 - 1) ≡ 0
unfolding land
disjoint = refl

calculate_slab-IsLayout_example :
    Returns (λ a _. IsLayout 1024 1024 a) (calculate_slab 1024 1024 tt)
calculate_slab-IsLayout_example =
    calculate_slab-IsLayout 1024 1024 (omega arith) (omega arith) (omega arith) (omega arith)
      disjoint refl

-- The page allocator, while thread 2000 runs.
abbrev pub memory_of : BuddyAllocator → PhysState
memory_of a = record {
  first_buddy = a;
  phys_alloc_lock = record { locked = 0; owner = 0 };
  valloc_lock = record { locked = 0; owner = 0 };
  current_thread = 2000;
  interrupts = true;
}

-- A slab of items of 40 bytes at 4096, of which the first is allocated.
abbrev pub thread_slabs : BuddyAllocator → SlabHeap
thread_slabs a = record {
  slabs = λ p. record {
    prev_slab = 0;
    next_slab = 0;
    first_free = pos 1;
    allocated = 1;
    nodes = λ i. if i == 0 then pos 0 else if i == 1 then pos 2 else minus_one;
  };
  layout = record { item_size = 40; slab_nodes_start = 64; slab_alloc_mem = 4096; slab_nodes = 3 };
  partials = 4096;
  fulls_cnt = pos 0;
  lock = record { locked = 0; owner = 0 };
  phys = memory_of a;
}

pub second_thread :
    (a : BuddyAllocator)
    → (h : SlabHeap) × (slab_allocator_alloc (thread_slabs a) ≡ ok 4200 h) × (h.phys ≡ memory_of a)
unfolding slab_allocator_alloc some_partial slab_alloc take_node node set_node move_to_fulls
    spin_lock spin_unlock
second_thread a = (_, refl, refl)
