-- ===== src/Threads/Spawn.antt =====
-- `create_thread` of threading.c keeps the threads in order, with the memory that it takes.
use os_course_term.Common.{
  ℕ, ◌+◌, ◌^◌, ◌≤◌, ◌<◌, ◌≡◌, refl, sym, ap, ◌∙◌, subst, arith, true, false, ◌≢◌, List, [], ◌∷◌,
  ◌++◌, has, inl, inr, ok, died, Ends, dies, Ends-cases, Returns-Ends, Returns-mono,
}
use os_course_term.Buddy.{max_page_size}
use os_course_term.Buddy.Taken.{IsBlock, block_inside}
use os_course_term.Memory.{PhysState, high_base, pa}
use os_course_term.Memory.Stacks.{Gives, valloc-Gives}
use os_course_term.Threading.{is_held}
use os_course_term.Threading.Switch.{list_of}
use os_course_term.Threading.Fair.{lists_of}
use os_course_term.Slab.Allocator.{SlabHeap, slab_allocator_alloc}
use os_course_term.Slab.Heap.Invariant.{HeapView, is_slab, IsHeap, IsStore-phys}
use os_course_term.Slab.Heap.Partial.{OutOfMemory}
use os_course_term.Slab.Heap.Alloc.{Allocates, Stays, slab_allocator_alloc-IsHeap}
use os_course_term.Slab.Heap.Places.{IsItem, item_inside}
use os_course_term.Threads.{
  ThreadsState, heap_of, with_heap, create_thread, thread_stack_size, sizeof_thread,
}
use os_course_term.Threads.Create.{IsFrame, IsCreated, IsLeft, create_thread-IsCreated}
use os_course_term.Threads.Kernel.{
  IsKernel, NoMemory, IsHeap-cpu, AllItems-kept, AllItems-append, still_used, new-IsItem,
  new-outside,
}

-- The heap once a stack is taken from the page allocator under it.
Gives-IsHeap :
    (h : SlabHeap) (v : HeapView) (size p : ℕ) (m : PhysState)
    → IsHeap h v
    → Gives h.phys size p m
    → IsHeap (record h { phys = m }) v
Gives-IsHeap h v size p m w g = record {
  store =
      IsStore-phys h v m w.store g.ready g.takes.start
        (λ q i b. (g.takes.blocks h.layout.slab_alloc_mem _ b).0);
  tidy = w.tidy;
  mine = rw g.thread w.mine;
}

-- The new thread. Its stack is a block in use of the page allocator and no slab's, and its frame is at
-- the end of the stack.
pub record IsSpawned (ts : List ℕ) (thread_entry rflags entry arg t : ℕ) (v : HeapView)
    (s' : ThreadsState) : Type 0 where
  pub kernel : IsKernel s' v (ts ++ t ∷ [])
  pub frame : IsFrame s'.words (s'.scheduler.threads t).rsp thread_entry rflags entry arg
  pub top :
      (s'.scheduler.threads t).rsp + 64 ≡ (s'.scheduler.threads t).stack_start + thread_stack_size
  pub stack :
      IsBlock s'.threads_alloc.phys.first_buddy thread_stack_size
        (pa (s'.scheduler.threads t).stack_start)
  pub apart : (q : ℕ) → is_slab v q ≡ true → pa q ≢ pa (s'.scheduler.threads t).stack_start

module _ (s : ThreadsState) (v : HeapView) (ts : List ℕ) (k : IsKernel s v ts) (t : ℕ)
    (h : SlabHeap) (v' : HeapView) (w : IsHeap h v') (al : Allocates (heap_of s) v t v')
    (st : Stays (heap_of s) h) where
  -- The heap as the next call sees it.
  abbrev seen : SlabHeap
  seen = heap_of (with_heap s h)

  seen-IsHeap : IsHeap seen v'
  seen-IsHeap = IsHeap-cpu h v' s.scheduler.current_thread h.phys.interrupts w st.thread

  place_of :
      (high_base + s.threads_alloc.phys.first_buddy.start ≤ t)
      × (t + sizeof_thread ≤ high_base + s.threads_alloc.phys.first_buddy.start + max_page_size)
  place_of =
      let (from, to) = item_inside h v' w.store t (new-IsItem (heap_of s) h v v' t w al st) in
      let size : sizeof_thread ≤ h.layout.item_size = rw st.layout k.room in
      (omega (arith, from, st.start), omega (arith, to, st.start, size))

  apart :
      has
        (list_of t)
        (list_of s.scheduler.current_thread ∷ s.scheduler.running_threads ∷ lists_of ts)
      ≡ false
  apart =
      let (from, to) = place_of in
      let out =
        new-outside (heap_of s) h v v' t w al st (s.scheduler.current_thread ∷ ts) k.items in
      elim k.queue [
        | inl before ↦ ground (arith, out, from, before)
        | inr behind ↦ ground (arith, out, to, behind)
      ]

  small : t + 16 < 2 ^ 64
  small = let (from, to) = place_of in omega (arith, to, k.low)

  module _ (p : ℕ) (m : PhysState) (g : Gives seen.phys thread_stack_size p m) where
    stack_room : p + thread_stack_size < 2 ^ 64
    stack_room =
        let (from, to) =
          block_inside m.first_buddy g.ready.pool thread_stack_size g.block g.ready.valid
            g.takes.block in
        omega (arith, g.at, to, g.takes.start, st.start, k.low)

    stack_block : pa p ≡ g.block
    stack_block =
        let (from, to) =
          block_inside m.first_buddy g.ready.pool thread_stack_size g.block g.ready.valid
            g.takes.block in
        omega (arith, g.at, to, g.takes.start, st.start, k.low)

    spawned :
        (thread_entry rflags entry arg : ℕ) (s' : ThreadsState)
        → IsCreated ts thread_entry rflags entry arg t p s'
        → IsLeft s (record seen { phys = m }) s'
        → IsSpawned ts thread_entry rflags entry arg t v' s'
    spawned thread_entry rflags entry arg s' c left =
        let f : SlabHeap = record seen { phys = m } in
        let cpu : f.phys.current_thread ≡ s'.scheduler.current_thread =
          g.thread ∙ sym left.current in
        let layout : s'.threads_alloc.layout ≡ h.layout =
          ap (λ (x : SlabHeap). x.layout) left.heap in
        let start : s'.threads_alloc.phys.first_buddy.start
            ≡ s.threads_alloc.phys.first_buddy.start =
          ap (λ (x : SlabHeap). x.phys.first_buddy.start) left.heap ∙ g.takes.start ∙ st.start in
        let new = new-IsItem (heap_of s) h v v' t w al st in
        let old =
          AllItems-kept (heap_of s) (heap_of s') v v' (s.scheduler.current_thread ∷ ts)
            (layout ∙ st.layout) (still_used (heap_of s) h v v' t w al st) k.items in
        record {
          kernel = record {
            scheduled = c.scheduled;
            heap =
                subst
                  (λ (x : SlabHeap).
                    IsHeap
                      (record x {
                        phys = record x.phys {
                          current_thread = s'.scheduler.current_thread;
                          interrupts = s'.scheduler.interrupts;
                        };
                      })
                      v')
                  (sym left.heap)
                  (IsHeap-cpu f v' s'.scheduler.current_thread s'.scheduler.interrupts
                    (Gives-IsHeap seen v' thread_stack_size p m seen-IsHeap g) cpu);
            items = (
              subst (IsItem (heap_of s') v') (sym left.current) old.0,
              AllItems-append (heap_of s') v' ts (t ∷ []) old.1 (
                record {
                  slab = new.slab;
                  item = new.item;
                  used = rw layout new.used;
                  at = rw layout new.at;
                },
                tt,
              ),
            );
            room = rw left.heap (rw st.layout k.room);
            queue = rw (left.queue, start) k.queue;
            low = rw start k.low;
            mgmt = left.mine;
            valloc =
                rw (left.current, left.heap)
                  (subst (λ (c : ℕ). is_held c m.valloc_lock ≡ false) g.thread g.mine);
          };
          frame = c.frame;
          top = omega (arith, c.top, c.stack);
          stack = rw (c.stack, left.heap, stack_block) g.takes.block;
          apart = λ q i.
              rw (c.stack, stack_block)
                (g.takes.blocks h.layout.slab_alloc_mem _ (seen-IsHeap.store.block q i).0).1;
        }

-- The calls of `create_thread` from `valloc` on.
after_alloc :
    (s : ThreadsState) (v : HeapView) (ts : List ℕ) (thread_entry rflags entry arg t : ℕ)
    (h : SlabHeap)
    → IsKernel s v ts
    → slab_allocator_alloc (heap_of s) ≡ ok t h
    → (v' : HeapView) × IsHeap h v' × Allocates (heap_of s) v t v' × Stays (heap_of s) h
    → Ends
        (NoMemory s v)
        (λ r s'. (v' : HeapView) × IsSpawned ts thread_entry rflags entry arg r v' s')
        (create_thread thread_entry rflags entry arg s)
unfolding create_thread
after_alloc s v ts thread_entry rflags entry arg t h k a (v', w, al, st) =
    let g : SlabHeap = seen s v ts k t h v' w al st in
    let there : IsHeap g v' = seen-IsHeap s v ts k t h v' w al st in
    let run =
      valloc-Gives g.phys thread_stack_size there.store.ready (rw st.valloc k.valloc) (omega arith)
        (omega arith) in
    elim (Ends-cases run) [
      | inl (e, none) ↦ rw (a, e) (dies (inr (t, h, refl, none)))
      | inr (p, m, e, gives) ↦ Returns-Ends (
          Returns-mono
            (create_thread-IsCreated thread_entry rflags entry arg t p s ts h
              (record g { phys = m }) k.scheduled a (rw e refl)
              (stack_room s v ts k t h v' w al st p m gives) (small s v ts k t h v' w al st)
              (apart s v ts k t h v' w al st) k.mgmt)
            λ r s' (same, created, left). rw same (
              v',
              spawned s v ts k t h v' w al st p m gives thread_entry rflags entry arg s' created
                  left,
            ))
    ]

-- Where the threads and their heap are in order, `create_thread` halts the machine only if there is
-- no memory for the thread or for its stack. Otherwise the new thread, an item of its own, is the
-- last one of the queue, its stack is a block in use of the page allocator and no slab's, at its end
-- is what the switch pops, and the threads and their heap are in order again.
pub create_thread-IsKernel :
    (s : ThreadsState) (v : HeapView) (ts : List ℕ) (thread_entry rflags entry arg : ℕ)
    → IsKernel s v ts
    → Ends
        (NoMemory s v)
        (λ t s'. (v' : HeapView) × IsSpawned ts thread_entry rflags entry arg t v' s')
        (create_thread thread_entry rflags entry arg s)
unfolding create_thread
create_thread-IsKernel s v ts thread_entry rflags entry arg k =
    elim (Ends-cases (slab_allocator_alloc-IsHeap (heap_of s) v k.heap)) [
      | inl (e, none) ↦ no_item e none
      | inr (t, h, a, r) ↦ after_alloc s v ts thread_entry rflags entry arg t h k a r
    ]
  where
    no_item :
        slab_allocator_alloc (heap_of s) ≡ died
        → OutOfMemory (heap_of s) v
        → Ends
            (NoMemory s v)
            (λ t s'. (v' : HeapView) × IsSpawned ts thread_entry rflags entry arg t v' s')
            (create_thread thread_entry rflags entry arg s)
    no_item e none = rw e (dies (inl none))
