-- ===== src/Slab/Heap/Remove.antt =====
-- `remove_slab` and `slab_destroy` of slab.c: an empty slab leaves the list of partial slabs, and its
-- memory goes back to the page allocator.
use os_course_term.Common.{
  ℕ, ◌≡◌, ◌≢◌, refl, sym, ap, ◌∙◌, subst, arith, true, not, ◌==◌, if◌then◌else◌, has, remove,
  has-remove_le, has-remove_self, Distinct-remove, Bool-cases, inl, inr, Returns, Returns-within,
}
use os_course_term.Memory.{pa, va}
use os_course_term.Memory.Calls.{free_big_phys_aligned-Freed}
use os_course_term.Slab.{Slab}
use os_course_term.Slab.Allocator.{SlabHeap, slab_destroy, remove_slab}
use os_course_term.Slab.Heap.Links.{Linked, Linked-remove, prev-first}
use os_course_term.Slab.Heap.Invariant.{
  HeapView, is_slab, IsStore, Keeps, Fewer, IsGone, IsStore-relink, IsStore-phys,
}
use os_course_term.Slab.Heap.Moves.{put_prev, put_next, put_prev_of, join_next_lem}

-- The slabs after `s`, between `p` and `n`, has been taken out.
abbrev joined_slabs : (ℕ → Slab) → (p n : ℕ) → ℕ → Slab
joined_slabs slabs p n = if not (p == 0) then put_next slabs p n else slabs

abbrev rest_slabs : (ℕ → Slab) → (s p n : ℕ) → ℕ → Slab
rest_slabs slabs s p n = put_prev (put_next (put_prev_of (joined_slabs slabs p n) n p) s 0) s 0

abbrev rest_heap : SlabHeap → ℕ → SlabHeap
rest_heap h s = record h {
  slabs = rest_slabs h.slabs s (h.slabs s).prev_slab (h.slabs s).next_slab;
  partials = if not ((h.slabs s).prev_slab == 0) then h.partials else (h.slabs s).next_slab;
}

module _ (h : SlabHeap) (v : HeapView) (s : ℕ) (w : IsStore h v)
    (member : has s v.partial ≡ true) where
  abbrev p : ℕ
  p = (h.slabs s).prev_slab

  abbrev n : ℕ
  n = (h.slabs s).next_slab

  turn : (0 == p) ≡ (h.partials == s)
  turn = prev-first h.slabs 0 h.partials v.partial s w.linked w.distinct member

  unlinked : remove_slab s h ≡ slab_destroy s (rest_heap h s)
  unfolding remove_slab
  unlinked =
      rw (join_next_lem s p n h (λ e. ground (arith, turn)))
        (elim (Bool-cases (n == 0)) [ inl null ↦ rw null refl | inr some ↦ rw some refl ])

  unlinked-IsStore : IsStore (rest_heap h s) (record v { partial = remove s v.partial })
  unlinked-IsStore =
      IsStore-relink h v (rest_slabs h.slabs s p n) (rest_heap h s).partials (remove s v.partial)
        v.full h.fulls_cnt w
        (subst (λ (q : ℕ). Linked (rest_slabs h.slabs s p n) 0 q (remove s v.partial))
          (ground (arith, turn))
          (Linked-remove h.slabs (rest_slabs h.slabs s p n) 0 h.partials v.partial s w.linked
            w.distinct w.distinct.0 member
            λ i g other.
              let some : i ≢ 0 = λ z. absurd (ground (arith, w.distinct)) in
              (ground arith, ground arith)))
        (
          ground (arith, has-remove_le 0 s v.partial, w.distinct),
          Distinct-remove s v.partial w.distinct.1,
        )
        w.fulls (λ i g. w.apart i (has-remove_le i s v.partial g))
        (λ i g. ground (arith, has-remove_le i s v.partial)) w.counted
        (λ i. (ground arith, ground arith, ground arith))

  -- The slabs that are left have other blocks.
  gone : (i : ℕ) → is_slab (record v { partial = remove s v.partial }) i ≡ true → pa i ≢ pa s
  gone i g same =
      let old : is_slab v i ≡ true = ground (arith, has-remove_le i s v.partial) in
      let at : i ≡ va (pa i) = (w.block i old).1 in
      let at' : s ≡ va (pa s) = (w.block s (ground (arith, member))).1 in
      let e : i ≡ s = at ∙ ap va same ∙ sym at' in
      absurd (ground (arith, has-remove_self s v.partial w.distinct.1, w.apart s))

  -- `remove_slab` takes an empty slab out of the list, and its block out of use.
  pub remove_slab-IsStore :
      (h.slabs s).allocated ≡ 0
      → Returns
          (λ _ h'.
            IsStore h' (record v { partial = remove s v.partial })
            × Keeps h h'
            × Fewer h h'
            × IsGone h' s)
          (remove_slab s h)
  unfolding slab_destroy
  remove_slab-IsStore empty =
      let r : SlabHeap = rest_heap h s in
      let count : (r.slabs s).allocated ≡ 0 = ground (arith, empty) in
      let before : (r.slabs s).prev_slab ≡ 0 = ground arith in
      let after : (r.slabs s).next_slab ≡ 0 = ground arith in
      let (b, at) = w.block s (ground (arith, member)) in
      rw unlinked (
        simp (count, before, after)
          (Returns-within (λ m. record r { phys = m })
            (free_big_phys_aligned-Freed h.phys h.layout.slab_alloc_mem (pa s) w.ready b)
            λ _ m (a, e, ready, start, kept, only). (
              IsStore-phys r (record v { partial = remove s v.partial }) m unlinked-IsStore ready
                  (rw e start) (λ i g c. rw e (kept h.layout.slab_alloc_mem (pa i) c (gone i g))),
              record {
                lock = refl;
                layout = refl;
                thread = rw e refl;
                valloc = rw e refl;
                start = rw e start;
              },
              rw e (λ n t c. (only n t c).0),
              rw e (λ n c. (only n (pa s) c).1 refl),
            )))
