-- ===== src/Slab/Heap/Create.antt =====
-- `slab_create` of slab.c with its memory: a block of the page allocator becomes the only partial
-- slab.
use os_course_term.Common.{
  ℕ, ◌+◌, ◌^◌, ◌≤◌, ◌≡◌, ◌≢◌, refl, sym, arith, true, false, ◌||◌, List, [], ◌∷◌, has, ◌==◌, update,
  Bool-cases, inl, inr, Ends, ends, Ends-bind, Ends-within, Returns-Ends, Returns-within, died,
}
use os_course_term.Buddy.{buddy_alloc}
use os_course_term.Buddy.Taken.{IsBlock, block_inside}
use os_course_term.Memory.{va, pa, alloc_big_phys_aligned}
use os_course_term.Memory.Calls.{unlocked_memory, unlocked-IsReady, alloc_big_phys_aligned-Takes}
use os_course_term.Slab.{Slab}
use os_course_term.Slab.Nodes.{IsSlab, count_up, slab_create-IsSlab}
use os_course_term.Slab.Allocator.{SlabHeap, on_phys, new_slab}
use os_course_term.Slab.Heap.Invariant.{HeapView, IsStore, Keeps, IsStore-phys}

module _ (h : SlabHeap) (full : List ℕ) (free : ℕ → List ℕ)
    (w : IsStore h (record { partial = []; full = full; free = free })) where
  -- The view with a new slab at `s`.
  abbrev pub created_view : ℕ → HeapView
  created_view s = record {
    partial = s ∷ [];
    full = full;
    free = update free s (count_up h.layout.slab_nodes 0);
  }

  -- The memory is a block in use that no slab has.
  pub record IsNewBlock (t : ℕ) (g : SlabHeap) : Type 0 where
    pub store : IsStore g (record { partial = []; full = full; free = free })
    pub keeps : Keeps h g
    pub block : IsBlock g.phys.first_buddy g.layout.slab_alloc_mem t
    pub apart : (p : ℕ) → has p full ≡ true → pa p ≢ t
    pub slabs : g.slabs ≡ h.slabs

  -- The page allocator has no block for a slab.
  abbrev pub NoBlock : Type 0
  NoBlock = buddy_alloc h.layout.slab_alloc_mem h.phys.first_buddy ≡ died

  alloc-IsNewBlock :
      Ends NoBlock IsNewBlock (on_phys (alloc_big_phys_aligned h.layout.slab_alloc_mem) h)
  alloc-IsNewBlock =
      Ends-within (λ m. record h { phys = m })
        (alloc_big_phys_aligned-Takes h.phys h.layout.slab_alloc_mem w.ready w.sound.block.0
          w.sound.block.1)
        λ t m (a, r, e). rw e (record {
          store =
              IsStore-phys h (record { partial = []; full = full; free = free })
                (unlocked_memory h.phys a) w
                (unlocked-IsReady h.phys w.ready a r.pool r.valid r.start) r.start
                λ p g b. (r.blocks h.layout.slab_alloc_mem (pa p) b).0;
          keeps = record {
            lock = refl;
            layout = refl;
            thread = refl;
            valloc = refl;
            start = r.start;
          };
          block = r.block;
          apart = λ p g. (r.blocks h.layout.slab_alloc_mem (pa p) (w.block p g).0).1;
          slabs = refl;
        })

  module _ (t : ℕ) (g : SlabHeap) (n : IsNewBlock t g) where
    low : t + 1 ≤ 2 ^ 47
    low =
        let (from, to) =
          block_inside g.phys.first_buddy n.store.ready.pool g.layout.slab_alloc_mem t
            n.store.ready.valid n.block in
        omega (arith, to, n.store.low, n.store.sound.block)

    back : pa (va t) ≡ t
    back = omega (arith, low)

    outside : has (va t) full ≡ false
    outside = elim (Bool-cases (has (va t) full)) [
      | inr out ↦ out
      | inl some ↦ absurd (n.apart (va t) some back)
    ]

    created-IsStore :
        (s : Slab)
        → IsSlab g.layout s (count_up g.layout.slab_nodes 0)
        → (s.prev_slab ≡ 0) × (s.next_slab ≡ 0)
        → IsStore
            (record g { slabs = update g.slabs (va t) s; partials = va t })
            (created_view (va t))
    created-IsStore s new (before, after) = record {
      linked = (refl, ground (arith, before), ground (arith, after));
      distinct = (some, (refl, tt));
      fulls = n.store.fulls;
      apart = λ p q. ground (arith, outside);
      slab = λ p q. elim (Bool-cases (p == va t)) [
        | inl here ↦ rw (here, sym n.keeps.layout) new
        | inr there ↦ rw there (n.store.slab p (rw there at q))
      ];
      block = λ p q. elim (Bool-cases (p == va t)) [
        | inl here ↦ let e : p ≡ va t = ground arith in rw (e, back) (n.block, refl)
        | inr there ↦ n.store.block p (rw there at q)
      ];
      counted = n.store.counted;
      sound = n.store.sound;
      ready = n.store.ready;
      low = n.store.low;
    }
      where
        some : (0 == va t || false) ≡ false
        some = ground (arith, low)

  -- `slab_create` halts the machine where there is no block, or else makes a slab whose items are all free.
  pub new_slab-IsStore :
      Ends NoBlock
        (λ s g.
          IsStore (record g { partials = s }) (created_view s) × Keeps h g × (has s full ≡ false))
        (new_slab h)
  unfolding new_slab
  new_slab-IsStore = Ends-bind alloc-IsNewBlock λ t g n.
      Ends-bind
        {P = λ _ g'.
          IsStore (record g' { partials = va t }) (created_view (va t))
          × Keeps h g'
          × (has (va t) full ≡ false)}
        (Returns-Ends (
          Returns-within (λ s. record g { slabs = update g.slabs (va t) s })
            (slab_create-IsSlab g.layout (g.slabs (va t)) n.store.sound.some)
            λ _ s (new, before, after). (
              created-IsStore t g n s new (before, after),
              record {
                lock = n.keeps.lock;
                layout = n.keeps.layout;
                thread = n.keeps.thread;
                valloc = n.keeps.valloc;
                start = n.keeps.start;
              },
              outside t g n,
            )))
        λ _ g' r. ends r
