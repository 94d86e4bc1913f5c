-- ===== src/Slab/Heap/Given.antt =====
-- The items that are handed out once an item is given back with `slab_allocator_free` of slab.c.
use os_course_term.Common.{
  ℕ, suc, ◌<◌, ◌≡◌, ◌≢◌, refl, sym, ◌∙◌, ◌⊎◌, arith, true, false, ◌&&◌, not, ltb, List, ◌∷◌, length,
  length-Distinct, has, has-remove_self, has-remove_ne, remove, Distinct, ◌==◌, update, Bool-cases,
  inl, inr, ==_refl,
}
use os_course_term.Slab.Allocator.{SlabHeap}
use os_course_term.Slab.Heap.Invariant.{HeapView, is_slab, is_used, IsTidy, IsGone}
use os_course_term.Slab.Heap.Return.{Unfilled, Unfilled-partial, Unfilled-partial, Emptied}

-- A list of all the numbers below `n`.
all_of :
    (n : ℕ) (xs : List ℕ) (j : ℕ)
    → Distinct xs
    → ((i : ℕ) → has i xs ≡ true → i < n)
    → length xs ≡ n
    → j < n
    → has j xs ≡ true
all_of n xs j d inside e lt = elim (Bool-cases (has j xs)) [
  | inl some ↦ some
  | inr out ↦
      absurd (omega (arith, length-Distinct n (j ∷ xs) (out, d) λ i g. ground (arith, inside i)))
]

module _ (nodes : ℕ) (v : HeapView) (s id : ℕ) (t : IsTidy nodes v) (lt : id < nodes)
    (slab : Distinct (id ∷ v.free s) × ((i : ℕ) → has i (id ∷ v.free s) ≡ true → i < nodes))
    (there : is_slab v s ≡ true) where
  abbrev pub given : HeapView
  given = record v { free = update v.free s (id ∷ v.free s) }

  module _ (g m k : SlabHeap) (u : Unfilled g given s m)
      (r : Emptied m (record { partial = u.partial; full = u.full; free = given.free }) s k)
      (layout : m.layout.slab_nodes ≡ nodes) where
    abbrev pub freed_view : HeapView
    freed_view = record { partial = r.partial; full = u.full; free = given.free }

    in_partial : has s u.partial ≡ true
    in_partial = Unfilled-partial u

    out_of_full : has s u.full ≡ false
    out_of_full = u.store.apart s in_partial

    out_of_rest : has s (remove s u.partial) ≡ false
    out_of_rest = has-remove_self s u.partial u.store.distinct.1

    -- The other slabs are where they were.
    others : (q : ℕ) → q ≢ s → (has q r.partial ≡ has q v.partial) × (has q u.full ≡ has q v.full)
    others q ne =
        let other : (q == s) ≡ false = ground (arith, ne) in
        let rest : has q r.partial ≡ has q u.partial = elim r.cases [
          | inl (h, e, g) ↦ rw e (has-remove_ne q s u.partial ne)
          | inr (h, e) ↦ rw e refl
        ] in
        elim u.cases [
          | inl (h, ep, ef) ↦ (rest ∙ rw ep refl, rw ef refl)
          | inr (h, ep, ef) ↦ (rest ∙ rw (ep, other) refl, rw ef (has-remove_ne q s v.full ne))
        ]

    pub freed_view-IsTidy : IsTidy nodes freed_view
    freed_view-IsTidy = record {
      partial = λ q c. elim (Bool-cases (q == s)) [
        | inl here ↦ rw here (elim r.cases [
          | inl (h, e, g) ↦ absurd (ground (arith, out_of_rest, rw e at c))
          | inr (h, e) ↦ (omega arith, omega (arith, rw (==_refl s) at h, layout))
        ])
        | inr other ↦ rw other (t.partial q (sym (others q (λ e. ground arith)).0 ∙ c))
      ];
      full = λ q c. elim (Bool-cases (q == s)) [
        | inl here ↦ absurd (ground (arith, out_of_full))
        | inr other ↦ rw other (t.full q (sym (others q (λ e. ground arith)).1 ∙ c))
      ];
    }

    -- The slab is still one, or its memory is no block in use.
    pub freed_view-released : (is_slab freed_view s ≡ true) ⊎ IsGone k s
    freed_view-released = elim r.cases [
      | inl (h, e, gone) ↦ inr gone
      | inr (h, e) ↦ inl (rw (e, in_partial) refl)
    ]

    none_left :
        (j : ℕ)
        → suc (length (v.free s)) ≡ nodes
        → false ≡ (not (j == id) && (ltb j nodes && not (has j (v.free s))))
    none_left j e = let all = all_of nodes (id ∷ v.free s) j slab.0 slab.1 e in ground (arith, all)

    pub freed_view-used :
        (q j : ℕ) → is_used nodes freed_view q j ≡ (not (q == s && j == id) && is_used nodes v q j)
    freed_view-used q j = elim (Bool-cases (q == s)) [
      | inl here ↦
          let same : q ≡ s = ground arith in
          rw (same, ==_refl s, out_of_full, there)
            (elim r.cases [
              | inl (h, e, g) ↦ rw (e, out_of_rest) (none_left j (rw (==_refl s) at h ∙ layout))
              | inr (h, e) ↦ rw (e, in_partial) (ground arith)
            ])
      | inr other ↦ let (ep, ef) = others q (λ e. ground arith) in rw (other, ep, ef) refl
    ]
