-- ===== src/Slab/Heap/Alloc.antt =====
-- `slab_allocator_alloc` of slab.c on a heap.
use os_course_term.Common.{
  ℕ, ◌<◌, ◌≡◌, refl, sym, ap, update_self, pure, ◌>>=◌, ◌>>◌, subst, ◌∙◌, arith, false, ◌&&◌, ◌||◌,
  not, ltb, List, [], ◌∷◌, length, has, ◌==◌, update, Bool-cases, inl, inr, when, Returns, returns,
  Returns-bind, Ends, Ends-bind, Returns-Ends, ==_refl,
}
use os_course_term.Slab.{SlabLayout, slab_alloc}
use os_course_term.Slab.Nodes.{IsSlab}
use os_course_term.Slab.Free.{item_at}
use os_course_term.Threading.{spin_unlock}
use os_course_term.Slab.Allocator.{
  SlabHeap, on_lock, on_slab, get, slab_at, move_to_fulls, slab_allocator_alloc,
}
use os_course_term.Slab.Heap.Invariant.{HeapView, is_slab, is_used, IsTidy, IsHeap}
use os_course_term.Slab.Heap.Partial.{OutOfMemory, HasPartial, some_partial-HasPartial}
use os_course_term.Slab.Heap.Take.{take-Took, Settled, settle-Settled}
use os_course_term.Slab.Heap.Lock.{
  locked_heap, free_lock, heap_lock_taken, heap_lock_given, free_lock-mine, IsStore-lock,
  Keeps-trans,
}

-- The address is that of an item that was free; it is handed out from now on, and all other items are
-- as they were.
pub record Allocates (h : SlabHeap) (v : HeapView) (ptr : ℕ) (v' : HeapView) : Type 0 where
  pub slab : ℕ
  pub item : ℕ
  pub at : ptr ≡ item_at h.layout slab item
  pub was_free : is_used h.layout.slab_nodes v slab item ≡ false
  pub used :
      (p id : ℕ)
      → is_used h.layout.slab_nodes v' p id
        ≡ ((p == slab && id == item) || is_used h.layout.slab_nodes v p id)

module _ (h : SlabHeap) (v : HeapView) (g : SlabHeap) (s : ℕ) (p : HasPartial h v s g) (x : ℕ)
    (xs : List ℕ) (e : p.free s ≡ x ∷ xs) where
  abbrev after : ℕ → List ℕ
  after = update p.free s xs

  -- The first free item is one of a slab of the heap.
  old : IsSlab g.layout (g.slabs s) (x ∷ xs)
  old =
      subst (λ (f : List ℕ). IsSlab g.layout (g.slabs s) f) e (p.store.slab s (rw (==_refl s) refl))

  bound : x < h.layout.slab_nodes
  bound = rw (sym p.keeps.layout) (old.inside x (rw (==_refl x) refl))

  fewer : length xs < h.layout.slab_nodes
  fewer = omega (arith, ap (λ (a : SlabLayout). a.slab_nodes) p.keeps.layout, old.counted)

  handed_out :
      (id : ℕ)
      → (ltb id h.layout.slab_nodes && not (has id xs))
        ≡ ((id == x) || (ltb id h.layout.slab_nodes && not (has id (x ∷ xs))))
  handed_out id = ground (arith, bound, old.distinct)

  module _ (k m : SlabHeap) (r : Settled k s p.rest v.full after m) where
    abbrev after_view : HeapView
    after_view = record { partial = r.partial; full = r.full'; free = after }

    same_slabs : (q : ℕ) → is_slab after_view q ≡ (((q == s) || has q p.rest) || has q v.full)
    same_slabs q = elim r.cases [
      | inl (ep, ef, some) ↦ rw (ep, ef) refl
      | inr (ep, ef, none) ↦ rw (ep, ef) (ground arith)
    ]

    after-IsTidy : IsTidy h.layout.slab_nodes after_view
    after-IsTidy = elim r.cases [
      | inl (ep, ef, some) ↦
          rw (ep, ef)
            (record {
              partial = λ q c. elim (Bool-cases (q == s)) [
                | inl here ↦ rw here (omega (arith, rw (==_refl s) at some), fewer)
                | inr there ↦ rw there (p.partial q (rw there at c))
              ];
              full = λ q c.
                  let other : (q == s) ≡ false = ground (arith, p.store.apart q) in
                  rw other (p.full q c);
            })
      | inr (ep, ef, none) ↦
          rw (ep, ef)
            (record {
              partial = λ q c.
                  let other : (q == s) ≡ false = ground (arith, p.store.distinct) in
                  rw other (p.partial q c);
              full = λ q c. elim (Bool-cases (q == s)) [
                | inl here ↦ rw here (rw (==_refl s) at none)
                | inr there ↦ rw there (p.full q (rw there at c))
              ];
            })
    ]

    after-Allocates : Allocates h v (item_at h.layout s x) after_view
    after-Allocates = record {
      slab = s;
      item = x;
      at = refl;
      was_free = sym (p.used s x) ∙ rw e (ground arith);
      used = λ q id.
          rw (same_slabs q, sym (p.used q id))
            (elim (Bool-cases (q == s)) [
              | inl here ↦
                  let same : q ≡ s = ground arith in rw (same, ==_refl s, e) (handed_out id)
              | inr there ↦ rw there refl
            ]);
    }

-- What a whole call does not change.
pub record Stays (h h' : SlabHeap) : Type 0 where
  pub layout : h'.layout ≡ h.layout
  pub thread : h'.phys.current_thread ≡ h.phys.current_thread
  pub valloc : h'.phys.valloc_lock ≡ h.phys.valloc_lock
  pub start : h'.phys.first_buddy.start ≡ h.phys.first_buddy.start

-- `slab_allocator_alloc` keeps the invariant and hands out an item that was free.
abbrev pub Served : SlabHeap → HeapView → ℕ → SlabHeap → Type 0
Served h v ptr h' = (v' : HeapView) × IsHeap h' v' × Allocates h v ptr v' × Stays h h'

-- The steps once the slab is known.
after_slab :
    (h : SlabHeap) (v : HeapView) (s : ℕ) (g : SlabHeap) (free : List ℕ)
    (p : HasPartial (locked_heap h) v s g)
    → p.free s ≡ free
    → Returns (Served h v) (
        (do
          result ← on_slab s (λ a. slab_alloc a s)
          x ← slab_at s
          nodes ← get (λ h. h.layout.slab_nodes)
          when (x.allocated == nodes) (move_to_fulls s)
          on_lock spin_unlock
          pure result)
          g)
after_slab h v s g [] p e = absurd (omega (arith, p.some, ap length e))
after_slab h v s g (x ∷ xs) p e =
    Returns-bind (take-Took g s p.rest v.full p.free x xs p.store e) λ ptr k (at, took).
      Returns-bind
        (settle-Settled k s p.rest v.full (update p.free s xs) xs took.store
          (update_self p.free s xs))
        λ _ m r.
          let keeps = Keeps-trans p.keeps (Keeps-trans took.keeps r.keeps) in
          rw (heap_lock_given h m keeps) (
            returns (
              after_view (locked_heap h) v g s p x xs e k m r,
              record {
                store = IsStore-lock m _ (free_lock h) r.store;
                tidy = rw keeps.layout (after-IsTidy (locked_heap h) v g s p x xs e k m r);
                mine = free_lock-mine h m keeps;
              },
              rw (at, p.keeps.layout)
                  (relock (after-Allocates (locked_heap h) v g s p x xs e k m r)),
              record {
                layout = keeps.layout;
                thread = keeps.thread;
                valloc = keeps.valloc;
                start = keeps.start;
              },
            ))
  where
    relock : {ptr : ℕ} {v' : HeapView} → Allocates (locked_heap h) v ptr v' → Allocates h v ptr v'
    relock r = record {
      slab = r.slab;
      item = r.item;
      at = r.at;
      was_free = r.was_free;
      used = r.used;
    }

-- On a heap that satisfies the invariant, `slab_allocator_alloc` halts the machine only if there is no
-- partial slab and the page allocator has no block for one. Otherwise it returns the address of an
-- item that was free: the invariant holds again, the items handed out are that one and those that
-- were before, and the layout, the current thread, `valloc_lock` and the place of the memory stay.
pub slab_allocator_alloc-IsHeap :
    (h : SlabHeap) (v : HeapView)
    → IsHeap h v
    → Ends
        (OutOfMemory h v)
        (λ ptr h'. (v' : HeapView) × IsHeap h' v' × Allocates h v ptr v' × Stays h h')
        (slab_allocator_alloc h)
unfolding slab_allocator_alloc
slab_allocator_alloc-IsHeap h v w = rw (heap_lock_taken h w.mine) (
    Ends-bind
      (some_partial-HasPartial (locked_heap h) v (IsStore-lock h v (locked_heap h).lock w.store)
        w.tidy)
      λ s g p. Returns-Ends (after_slab h v s g (p.free s) p refl))
