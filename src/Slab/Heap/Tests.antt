-- ===== src/Slab/Heap/Tests.antt =====
-- A heap of one slab, runs of slab.c on it, and the theorems at it.
use os_course_term.Common.{
  ◌-◌, ◌^◌, ◌≡◌, ◌≤◌, ℕ, ◌⊎◌, refl, arith, false, [], ◌∷◌, ok, died, pos, Returns, Ends, land64,
  land,
}
use os_course_term.Buddy.Tests.{all_used, all_used_pool, all_used-IsValid}
use os_course_term.Buddy.{last_lev_start}
use os_course_term.Memory.{va}
use os_course_term.Memory.Calls.{IsReady}
use os_course_term.Slab.Tests.{two, half_free, half_free-IsSlab, memory_of}
use os_course_term.Slab.{align_by}
use os_course_term.Slab.Free.{item_at}
use os_course_term.Slab.Layout.{IsLayout}
use os_course_term.Slab.Allocator.{
  SlabHeap, slab_allocator_alloc, slab_allocator_free, slab_allocator_init, slab_allocator_deinit,
}
use os_course_term.Slab.Heap.Invariant.{HeapView, is_used, IsHeap}
use os_course_term.Slab.Heap.Alloc.{Allocates, Stays, slab_allocator_alloc-IsHeap}
use os_course_term.Slab.Heap.Free.{Released, slab_allocator_free-IsHeap, slab_allocator_free-twice}
use os_course_term.Slab.Heap.Partial.{OutOfMemory}
use os_course_term.Slab.Heap.Setup.{
  empty_view, SomeUsed, slab_allocator_init-IsHeap, slab_allocator_deinit-used,
}

-- The slab is the block at 2^30, which is all of the memory.
abbrev one_slab : SlabHeap
one_slab = record {
  slabs = λ p. half_free;
  layout = two;
  partials = va (2 ^ 30);
  fulls_cnt = pos 0;
  lock = record { locked = 0; owner = 0 };
  phys = memory_of all_used;
}

abbrev one_view : HeapView
one_view = record { partial = va (2 ^ 30) ∷ []; full = []; free = λ p. 1 ∷ [] }

used-IsReady : IsReady (memory_of all_used)
used-IsReady = record {
  pool = all_used_pool;
  valid = all_used-IsValid;
  aligned = refl;
  small = omega arith;
  mine = refl;
}

one_slab-IsHeap : IsHeap one_slab one_view
one_slab-IsHeap = record {
  store = record {
    linked = (refl, refl, refl);
    distinct = (refl, (refl, tt));
    fulls = tt;
    apart = λ p g. refl;
    slab = λ p g. half_free-IsSlab;
    block = λ p g.
        let at : p ≡ va (2 ^ 30) = ground arith in
        rw at (
          record { leaf = last_lev_start; used = omega arith; at = refl; wide = omega arith },
          refl,
        );
    counted = refl;
    sound = record {
      some = omega arith;
      few = omega arith;
      sized = omega arith;
      room = omega arith;
      block = (omega arith, omega arith);
    };
    ready = used-IsReady;
    low = omega arith;
  };
  tidy = record { partial = λ p g. (omega arith, omega arith); full = λ p g. absurd (cc) };
  mine = refl;
}

slab_allocator_alloc-IsHeap_example :
    Ends
      (OutOfMemory one_slab one_view)
      (λ ptr h'.
        (v' : HeapView) × IsHeap h' v' × Allocates one_slab one_view ptr v' × Stays one_slab h')
      (slab_allocator_alloc one_slab)
slab_allocator_alloc-IsHeap_example = slab_allocator_alloc-IsHeap one_slab one_view one_slab-IsHeap

slab_allocator_free-IsHeap_example :
    Returns
      (λ _ h'. Released one_slab one_view (va (2 ^ 30)) 0 h')
      (slab_allocator_free (item_at two (va (2 ^ 30)) 0) one_slab)
slab_allocator_free-IsHeap_example =
    slab_allocator_free-IsHeap one_slab one_view (va (2 ^ 30)) 0 one_slab-IsHeap refl

slab_allocator_free-twice_example :
    slab_allocator_free (item_at two (va (2 ^ 30)) 1) one_slab ≡ died
slab_allocator_free-twice_example =
    slab_allocator_free-twice one_slab one_view (va (2 ^ 30)) 1 one_slab-IsHeap refl refl

eight : land64 8 (8 - 1) ≡ 0
unfolding land
eight = refl

slab_allocator_init-IsHeap_example :
    Returns
      (λ _ h'.
        IsHeap h' empty_view × IsLayout (align_by 44 8) 8 h'.layout × (44 ≤ h'.layout.item_size))
      (slab_allocator_init 44 8 one_slab)
slab_allocator_init-IsHeap_example =
    slab_allocator_init-IsHeap one_slab 44 8 (omega arith) (omega arith) (omega arith) (omega arith)
      eight used-IsReady (omega arith)

slab_allocator_deinit-used_example :
    ((slab_allocator_deinit one_slab ≡ ok tt one_slab)
      × ((p id : ℕ) → is_used 2 one_view p id ≡ false))
    ⊎ ((slab_allocator_deinit one_slab ≡ died) × SomeUsed one_slab one_view)
slab_allocator_deinit-used_example = slab_allocator_deinit-used one_slab one_view one_slab-IsHeap
