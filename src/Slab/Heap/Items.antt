-- ===== src/Slab/Heap/Items.antt =====
-- `slab_alloc`, `slab_free` and `slab_create` of slab.c as steps on a heap: they leave the slab where
-- it is in the list.
use os_course_term.Common.{ℕ, ◌≡◌, refl, ltb, leb, eq_ℤ, pos, negsuc, Bool-cases, inl, inr, ℤ, IfOk}
use os_course_term.Slab.{
  Slab, SlabLayout, node, set_node, take_node, item_of, slab_alloc, slab_free,
}

-- The slab has the same neighbours in the list.
abbrev pub SameLinks : Slab → Slab → Type 0
SameLinks s s' = (s'.prev_slab ≡ s.prev_slab) × (s'.next_slab ≡ s.next_slab)

-- `slab_alloc` and `slab_free` leave the links as they are.
pub slab_alloc-SameLinks :
    (a : SlabLayout) (slab : ℕ) (s : Slab) → IfOk (λ _ s'. SameLinks s s') (slab_alloc a slab s)
unfolding slab_alloc take_node node set_node
slab_alloc-SameLinks a slab s = at s.first_free
  where
    at : (id : ℤ) → IfOk (λ _ s'. SameLinks s s') (take_node a slab id s)
    at (negsuc n) = tt
    at (pos id) = elim (Bool-cases (ltb id a.slab_nodes)) [
      | inl within ↦ simp (within) (refl, refl)
      | inr out ↦ rw out tt
    ]

pub slab_free-SameLinks :
    (a : SlabLayout) (slab ptr : ℕ) (s : Slab)
    → IfOk (λ _ s'. SameLinks s s') (slab_free a slab ptr s)
unfolding slab_free node set_node
slab_free-SameLinks a slab ptr s = elim (Bool-cases (ltb (item_of a slab ptr) a.slab_nodes)) [
  | inr out ↦ rw out tt
  | inl within ↦
      elim (Bool-cases (eq_ℤ (s.nodes (item_of a slab ptr)) (pos (item_of a slab ptr)))) [
        | inr free ↦ rw (within, free) tt
        | inl taken ↦ elim (Bool-cases (leb 1 s.allocated)) [
          | inl some ↦ rw (within, taken, some) (refl, refl)
          | inr none ↦ rw (within, taken, none) tt
        ]
      ]
]
