-- ===== src/Threads/Wait.antt =====
-- `wait` of threading.c, once the thread has ended: its memory goes back to where it came from.
use os_course_term.Common.{ℕ, ◌≡◌, ◌≢◌, refl, true, false, Returns, Returns-bind, Returns-within}
use os_course_term.Buddy.Taken.{IsBlock}
use os_course_term.Memory.{PhysState, pa}
use os_course_term.Memory.Stacks.{TakesBack, vfree-TakesBack}
use os_course_term.Threading.{is_held}
use os_course_term.Threading.Switch.{thread_terminated}
use os_course_term.Slab.Allocator.{SlabHeap}
use os_course_term.Slab.Heap.Invariant.{HeapView, is_slab, IsHeap, IsStore-phys}
use os_course_term.Slab.Heap.Free.{Released, slab_allocator_free-IsHeap}
use os_course_term.Slab.Heap.Places.{IsItem}
use os_course_term.Threads.{ThreadsState, heap_of, with_heap, thread_stack_size, wait}
use os_course_term.Threads.Kernel.{IsHeap-cpu}

-- The heap once a block that is no slab's is given back to the page allocator under it.
TakesBack-IsHeap :
    (h : SlabHeap) (v : HeapView) (t : ℕ) (m : PhysState)
    → IsHeap h v
    → ((p : ℕ) → is_slab v p ≡ true → pa p ≢ t)
    → TakesBack h.phys t m
    → IsHeap (record h { phys = m }) v
TakesBack-IsHeap h v t m w apart b = record {
  store =
      IsStore-phys h v m w.store b.ready b.start
        (λ p g c. b.blocks h.layout.slab_alloc_mem (pa p) c (apart p g));
  tidy = w.tidy;
  mine = rw b.thread w.mine;
}

-- The item is no longer handed out, on a heap that satisfies the invariant, and the stack is no block
-- in use.
pub record Reaped (s : ThreadsState) (v : HeapView) (t : ℕ) (r : IsItem (heap_of s) v t)
    (s' : ThreadsState) : Type 0 where
  pub item : Released (heap_of s) v r.slab r.item s'.threads_alloc
  pub stack :
      (n : ℕ)
      → ¬ IsBlock s'.threads_alloc.phys.first_buddy n (pa (s.scheduler.threads t).stack_start)

-- `wait` for a thread that has ended, an item of a heap that satisfies the invariant and on a stack
-- that is a block in use and no slab, with `valloc_lock` not held by another thread, returns: the
-- item is no longer handed out, all others still are, the block of the stack is no longer in use, and
-- the invariant of the heap holds again.
pub wait-Reaped :
    (s : ThreadsState) (v : HeapView) (t : ℕ) (r : IsItem (heap_of s) v t)
    → (s.scheduler.threads t).state ≡ thread_terminated
    → IsHeap (heap_of s) v
    → is_held s.scheduler.current_thread s.threads_alloc.phys.valloc_lock ≡ false
    → IsBlock s.threads_alloc.phys.first_buddy thread_stack_size
        (pa (s.scheduler.threads t).stack_start)
    → ((p : ℕ) → is_slab v p ≡ true → pa p ≢ pa (s.scheduler.threads t).stack_start)
    → Returns (λ _ s'. Reaped s v t r s') (wait t s)
unfolding wait
wait-Reaped s v t r ended w mine b apart =
    let h : SlabHeap = heap_of s in
    let stack : ℕ = (s.scheduler.threads t).stack_start in
    rw ended (
      Returns-bind
        {P = λ _ s'.
          (m : PhysState) × TakesBack h.phys (pa stack) m
          × (s' ≡ with_heap s (record h { phys = m }))}
        (Returns-within
          {P = λ _ k. (m : PhysState) × TakesBack h.phys (pa stack) m × (k ≡ record h { phys = m })}
          (with_heap s)
          (Returns-within (λ m. record h { phys = m })
            (vfree-TakesBack h.phys thread_stack_size stack w.store.ready mine b)
            λ _ m back. (m, back, refl))
          λ _ k (m, back, e). (m, back, rw e refl))
        λ _ s' (m, back, e).
          let g : SlabHeap = heap_of (with_heap s (record h { phys = m })) in
          let there : IsHeap g v =
            IsHeap-cpu (record h { phys = m }) v s.scheduler.current_thread m.interrupts
              (TakesBack-IsHeap h v (pa stack) m w apart back) back.thread in
          rw (e, r.at)
            (Returns-within (with_heap (with_heap s (record h { phys = m })))
              (slab_allocator_free-IsHeap g v r.slab r.item there r.used)
              λ _ k q. record {
                item = record {
                  view = q.view;
                  heap = q.heap;
                  used = q.used;
                  fewer = λ n p c. (back.only n p (q.fewer n p c)).0;
                  released = q.released;
                };
                stack = λ n c. (back.only n (pa stack) (q.fewer n (pa stack) c)).1 refl;
              }))
