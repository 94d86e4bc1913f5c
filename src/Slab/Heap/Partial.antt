-- ===== src/Slab/Heap/Partial.antt =====
-- The slab that `slab_allocator_alloc` of slab.c takes an item from: the first partial one, or else a
-- new one.
use os_course_term.Common.{
  ℕ, ◌≤◌, ◌<◌, ◌≡◌, refl, sym, subst, ok, arith, true, false, List, [], ◌∷◌, length, has, ◌==◌,
  update, Ends, ends, Ends-bind, Ends-cause, died, ==_refl,
}
use os_course_term.Buddy.{buddy_alloc}
use os_course_term.Slab.Nodes.{count_up, has-count_up, length-count_up}
use os_course_term.Slab.Allocator.{SlabHeap, some_partial}
use os_course_term.Slab.Heap.Invariant.{HeapView, is_used, IsStore, IsTidy, Keeps}
use os_course_term.Slab.Heap.Create.{new_slab-IsStore}

-- `s` is the first partial slab and has free items; the items that are handed out are as before.
pub record HasPartial (h : SlabHeap) (v : HeapView) (s : ℕ) (g : SlabHeap) : Type 0 where
  pub rest : List ℕ
  pub free : ℕ → List ℕ
  pub store : IsStore g (record { partial = s ∷ rest; full = v.full; free = free })
  pub keeps : Keeps h g
  pub first : g.partials ≡ s
  pub some : 1 ≤ length (free s)
  pub partial :
      (p : ℕ) → has p rest ≡ true → (1 ≤ length (free p)) × (length (free p) < h.layout.slab_nodes)
  pub full : (p : ℕ) → has p v.full ≡ true → free p ≡ []
  pub used :
      (p id : ℕ)
      → is_used h.layout.slab_nodes (record { partial = s ∷ rest; full = v.full; free = free }) p id
        ≡ is_used h.layout.slab_nodes v p id

-- There is no partial slab, and no memory for one.
abbrev pub OutOfMemory : SlabHeap → HeapView → Type 0
OutOfMemory h v = (v.partial ≡ []) × (buddy_alloc h.layout.slab_alloc_mem h.phys.first_buddy ≡ died)

some_partial-cases :
    (h : SlabHeap) (partial full : List ℕ) (free : ℕ → List ℕ)
    → IsStore h (record { partial = partial; full = full; free = free })
    → IsTidy h.layout.slab_nodes (record { partial = partial; full = full; free = free })
    → Ends
        (OutOfMemory h (record { partial = partial; full = full; free = free }))
        (HasPartial h (record { partial = partial; full = full; free = free }))
        (some_partial h)
unfolding some_partial
some_partial-cases h [] full free w t =
    let none : (h.partials == 0) ≡ true = ground (arith, w.linked) in
    rw none (
      Ends-bind (Ends-cause (λ e. (refl, e)) (new_slab-IsStore h full free w))
        λ s g (store, keeps, out). ends (record {
          rest = [];
          free = update free s (count_up h.layout.slab_nodes 0);
          store = store;
          keeps = record {
            lock = keeps.lock;
            layout = keeps.layout;
            thread = keeps.thread;
            valloc = keeps.valloc;
            start = keeps.start;
          };
          first = refl;
          some =
              rw (==_refl s) (omega (arith, length-count_up h.layout.slab_nodes 0, w.sound.some));
          partial = λ p q. absurd (cc);
          full = λ p q. ground (arith, t.full p q);
          used = λ p id. ground (arith, has-count_up h.layout.slab_nodes 0 id);
        }))
some_partial-cases h (s ∷ rest) full free w t =
    let some : (h.partials == 0) ≡ false = ground (arith, w.distinct, w.linked) in
    rw some (
      subst
        (λ (q : ℕ).
          Ends (OutOfMemory h (record { partial = s ∷ rest; full = full; free = free }))
            (HasPartial h (record { partial = s ∷ rest; full = full; free = free })) (ok q h))
        (sym w.linked.0)
        (ends (record {
          rest = rest;
          free = free;
          store = w;
          keeps = record { lock = refl; layout = refl; thread = refl; valloc = refl; start = refl };
          first = w.linked.0;
          some = (t.partial s (ground arith)).0;
          partial = λ p q. t.partial p (ground arith);
          full = t.full;
          used = λ p id. refl;
        })))

pub some_partial-HasPartial :
    (h : SlabHeap) (v : HeapView)
    → IsStore h v
    → IsTidy h.layout.slab_nodes v
    → Ends (OutOfMemory h v) (HasPartial h v) (some_partial h)
some_partial-HasPartial h v = some_partial-cases h v.partial v.full v.free
