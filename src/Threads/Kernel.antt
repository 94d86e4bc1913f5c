-- ===== src/Threads/Kernel.antt =====
-- The threads of threading.c as items of their slab allocator.
use os_course_term.Common.{
  ℕ, ◌+◌, ◌^◌, ◌≤◌, ◌<◌, ◌≡◌, ◌≢◌, ◌⊎◌, refl, sym, ◌∙◌, arith, Bool, true, false, List, [], ◌∷◌,
  ◌++◌, has, ok, died,
}
use os_course_term.Buddy.{buddy_alloc, max_page_size}
use os_course_term.Memory.{high_base}
use os_course_term.Threading.{is_held}
use os_course_term.Threading.Switch.{list_of}
use os_course_term.Threading.Fair.{lists_of, IsScheduled}
use os_course_term.Slab.Allocator.{SlabHeap, slab_allocator_alloc}
use os_course_term.Slab.Heap.Invariant.{HeapView, is_used, IsHeap, IsStore-phys}
use os_course_term.Slab.Heap.Partial.{OutOfMemory}
use os_course_term.Slab.Heap.Alloc.{Allocates, Stays}
use os_course_term.Slab.Heap.Places.{IsItem, item_at_unique}
use os_course_term.Threads.{ThreadsState, heap_of, sizeof_thread, thread_stack_size}

abbrev pub AllItems : SlabHeap → HeapView → List ℕ → Type 0
AllItems h v [] = Unit {0}
AllItems h v (t ∷ ts) = IsItem h v t × AllItems h v ts

-- The current thread and those of the queue are scheduled, and are items of a heap in order; the head
-- of the queue is not in the memory of the heap, and no other thread holds a lock.
pub record IsKernel (s : ThreadsState) (v : HeapView) (ts : List ℕ) : Type 0 where
  pub scheduled : IsScheduled s.scheduler ts
  pub heap : IsHeap (heap_of s) v
  pub items : AllItems (heap_of s) v (s.scheduler.current_thread ∷ ts)
  pub room : sizeof_thread ≤ s.threads_alloc.layout.item_size
  pub queue :
      (s.scheduler.running_threads < high_base + s.threads_alloc.phys.first_buddy.start)
      ⊎ (high_base + s.threads_alloc.phys.first_buddy.start + max_page_size
          ≤ s.scheduler.running_threads)
  pub low : s.threads_alloc.phys.first_buddy.start + max_page_size < 2 ^ 47
  pub mgmt : is_held s.scheduler.current_thread s.scheduler.threads_mgmt_lock ≡ false
  pub valloc : is_held s.scheduler.current_thread s.threads_alloc.phys.valloc_lock ≡ false

-- There is no memory for a thread, or none for its stack.
abbrev pub NoMemory : ThreadsState → HeapView → Type 0
NoMemory s v =
    OutOfMemory (heap_of s) v
    ⊎ ((t : ℕ) × (h : SlabHeap) × (slab_allocator_alloc (heap_of s) ≡ ok t h)
        × (buddy_alloc thread_stack_size h.phys.first_buddy ≡ died))

-- The invariant does not depend on the interrupt flag.
pub IsHeap-cpu :
    (h : SlabHeap) (v : HeapView) (me : ℕ) (interrupts : Bool)
    → IsHeap h v
    → h.phys.current_thread ≡ me
    → IsHeap (record h { phys = record h.phys { current_thread = me; interrupts = interrupts } }) v
IsHeap-cpu h v me interrupts w e = record {
  store =
      IsStore-phys h v (record h.phys { current_thread = me; interrupts = interrupts }) w.store
        (record {
          pool = w.store.ready.pool;
          valid = w.store.ready.valid;
          aligned = w.store.ready.aligned;
          small = w.store.ready.small;
          mine = rw (sym e) w.store.ready.mine;
        })
        refl (λ p g b. b);
  tidy = w.tidy;
  mine = rw (sym e) w.mine;
}

-- What is handed out stays handed out.
pub AllItems-kept :
    (h h' : SlabHeap) (v v' : HeapView) (ts : List ℕ)
    → h'.layout ≡ h.layout
    → ((p id : ℕ)
        → is_used h.layout.slab_nodes v p id ≡ true
        → is_used h.layout.slab_nodes v' p id ≡ true)
    → AllItems h v ts
    → AllItems h' v' ts
AllItems-kept h h' v v' [] e kept a = tt
AllItems-kept h h' v v' (t ∷ ts) e kept (r, a) = (
  record { slab = r.slab; item = r.item; used = rw e (kept r.slab r.item r.used); at = rw e r.at },
  AllItems-kept h h' v v' ts e kept a,
)

pub AllItems-append :
    (h : SlabHeap) (v : HeapView) (ts us : List ℕ)
    → AllItems h v ts
    → AllItems h v us
    → AllItems h v (ts ++ us)
AllItems-append h v [] us a b = b
AllItems-append h v (t ∷ ts) us (r, a) b = (r, AllItems-append h v ts us a b)

module _ (h h' : SlabHeap) (v v' : HeapView) (t : ℕ) (w : IsHeap h' v') (al : Allocates h v t v')
    (st : Stays h h') where
  pub still_used :
      (p id : ℕ)
      → is_used h.layout.slab_nodes v p id ≡ true
      → is_used h.layout.slab_nodes v' p id ≡ true
  still_used p id u = al.used p id ∙ ground (arith, u)

  new_used : is_used h'.layout.slab_nodes v' al.slab al.item ≡ true
  new_used = rw st.layout (al.used al.slab al.item ∙ ground arith)

  pub new-IsItem : IsItem h' v' t
  new-IsItem = record { slab = al.slab; item = al.item; used = new_used; at = rw st.layout al.at }

  -- A new item is none of the old ones.
  new-other : (u : ℕ) → IsItem h v u → t ≢ u
  new-other u r e =
      let old : is_used h'.layout.slab_nodes v' r.slab r.item ≡ true =
        rw st.layout (still_used r.slab r.item r.used) in
      let (p, i) =
        item_at_unique h' v' w.store al.slab al.item r.slab r.item new_used old
          (rw st.layout (sym al.at ∙ e ∙ r.at)) in
      absurd (ground (arith, rw (p, i) at al.was_free, r.used))

  pub new-outside : (us : List ℕ) → AllItems h v us → has (list_of t) (lists_of us) ≡ false
  new-outside [] a = refl
  new-outside (u ∷ us) (r, a) = let other = new-other u r in ground (arith, new-outside us a)
