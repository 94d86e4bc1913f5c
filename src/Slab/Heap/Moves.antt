-- ===== src/Slab/Heap/Moves.antt =====
-- The moves of a slab between the lists of slab.c: `move_to_fulls`, `move_to_partials`, and the
-- unlinking that `remove_slab` starts with.
use os_course_term.Common.{
  ℕ, ◌≡◌, ◌≢◌, refl, sym, ap, subst, pos, ℤ, ◌∙◌, arith, true, false, not, ◌==◌, if◌then◌else◌,
  List, [], ◌∷◌, length, has, remove, has-remove_le, Distinct-remove, length-remove,
  has-remove_self, Bool-cases, inl, inr, ==_refl, ne→==, suc_ℤ, pred_ℤ, ok, update,
}
use os_course_term.Slab.{Slab}
use os_course_term.Slab.Allocator.{
  SlabHeap, unlink_front, move_to_fulls, move_to_partials, join_next,
}
use os_course_term.Slab.Heap.Links.{Linked, Linked-front}
use os_course_term.Slab.Heap.Invariant.{HeapView, IsStore, IsStore-relink}

-- `slab->prev_slab = v` and `slab->next_slab = v`.
abbrev pub put_prev : (ℕ → Slab) → (slab v : ℕ) → ℕ → Slab
put_prev slabs slab v = update slabs slab (record (slabs slab) { prev_slab = v })

abbrev pub put_next : (ℕ → Slab) → (slab v : ℕ) → ℕ → Slab
put_next slabs slab v = update slabs slab (record (slabs slab) { next_slab = v })

-- The slab `slab`, unless it is NULL, gets `v` before it.
abbrev pub put_prev_of : (ℕ → Slab) → (slab v : ℕ) → ℕ → Slab
put_prev_of slabs slab v = if not (slab == 0) then put_prev slabs slab v else slabs

-- The slabs after the first one, `s`, has left the list.
abbrev fulls_slabs : (ℕ → Slab) → (s : ℕ) → ℕ → Slab
fulls_slabs slabs s = put_next (put_prev (put_prev_of slabs (slabs s).next_slab 0) s 0) s 0

unlink_front_lem :
    (s next : ℕ) (h : SlabHeap)
    → (next ≢ 0 → (h.slabs next).prev_slab ≡ s)
    → unlink_front s next h ≡ ok tt (record h { slabs = put_prev_of h.slabs next 0 })
unfolding unlink_front
unlink_front_lem s next h back = elim (Bool-cases (next == 0)) [
  | inl null ↦ rw null refl
  | inr some ↦
      let e : ((h.slabs next).prev_slab == s) ≡ true = ground (arith, back) in rw (some, e) refl
]

-- The slab after the first one points back to it.
second-back :
    (slabs : ℕ → Slab) (p first s : ℕ) (rest : List ℕ)
    → Linked slabs p first (s ∷ rest)
    → (slabs s).next_slab ≢ 0
    → (slabs (slabs s).next_slab).prev_slab ≡ s
second-back slabs p first s [] (e, b, l) some = absurd (some l)
second-back slabs p first s (x ∷ xs) (e, b, (e', b', l)) some = rw e' b'

-- `move_to_fulls` takes the first partial slab out of the list and counts it.
pub move_to_fulls-IsStore :
    (h : SlabHeap) (s : ℕ) (rest full : List ℕ) (free : ℕ → List ℕ)
    → IsStore h (record { partial = s ∷ rest; full = full; free = free })
    → (slabs : ℕ → Slab) × (first : ℕ) × (cnt : ℤ) × (move_to_fulls s h
        ≡ ok tt (record h { slabs = slabs; partials = first; fulls_cnt = cnt }))
      × IsStore
          (record h { slabs = slabs; partials = first; fulls_cnt = cnt })
          (record { partial = rest; full = s ∷ full; free = free })
unfolding move_to_fulls
move_to_fulls-IsStore h s rest full free w =
    let next : ℕ = (h.slabs s).next_slab in
    let slabs : ℕ → Slab = fulls_slabs h.slabs s in
    let back = second-back h.slabs 0 h.partials s rest w.linked in
    let out = w.apart s (rw (==_refl s) refl) in
    (
      slabs,
      next,
      suc_ℤ h.fulls_cnt,
      rw (unlink_front_lem s next (record h { partials = next }) back) refl,
      IsStore-relink h (record { partial = s ∷ rest; full = full; free = free }) slabs next rest
          (s ∷ full) (suc_ℤ h.fulls_cnt) w
          (Linked-front h.slabs slabs s 0 next rest w.distinct.1.1
            (λ i g. ground (arith, w.distinct)) (λ i g. ground (arith, w.distinct)) w.linked.2)
          (ground (arith, w.distinct)) (out, w.fulls) (λ p g. ground (arith, w.apart p, w.distinct))
          (λ p g. ground arith) (rw w.counted (ap pos (omega arith)))
          (λ i. (ground arith, ground arith, ground arith)),
    )

-- The slabs after `s` has become the first one, before `old`.
abbrev partial_slabs : (ℕ → Slab) → (s old : ℕ) → ℕ → Slab
partial_slabs slabs s old = put_prev_of (put_next (put_prev slabs s 0) s old) old s

-- The first slab has none before it.
first-back :
    (slabs : ℕ → Slab) (p first : ℕ) (xs : List ℕ)
    → Linked slabs p first xs
    → first ≢ 0
    → (slabs first).prev_slab ≡ p
first-back slabs p first [] e some = absurd (some e)
first-back slabs p first (x ∷ xs) (e, b, l) some = rw e b

-- Without a first slab there is none.
no-first :
    (slabs : ℕ → Slab) (p first : ℕ) (xs : List ℕ) (i : ℕ)
    → Linked slabs p first xs
    → has 0 xs ≡ false
    → has i xs ≡ true
    → first ≢ 0
no-first slabs p first [] i l null h = absurd (cc)
no-first slabs p first (x ∷ xs) i (e, b, l) null h = λ z. absurd (ground arith)

move_to_partials_lem :
    (s : ℕ) (h : SlabHeap)
    → h.partials ≢ s
    → (h.partials ≢ 0 → (h.slabs h.partials).prev_slab ≡ 0)
    → move_to_partials s h
      ≡ ok tt (record h {
        slabs = partial_slabs h.slabs s h.partials;
        partials = s;
        fulls_cnt = pred_ℤ h.fulls_cnt;
      })
unfolding move_to_partials
move_to_partials_lem s h other back = elim (Bool-cases (h.partials == 0)) [
  | inl null ↦ rw null refl
  | inr some ↦
      let e : ((h.slabs h.partials).prev_slab == 0) ≡ true = ground (arith, back) in
      simp (some, ne→== h.partials s other, e) refl
]

pred-counted :
    (full : List ℕ) (s : ℕ) (cnt : ℤ)
    → has s full ≡ true
    → cnt ≡ pos (length full)
    → pred_ℤ cnt ≡ pos (length (remove s full))
pred-counted full s cnt h e = rw (e, length-remove s full h) refl

-- `move_to_partials` puts a full slab before the partial ones.
pub move_to_partials-IsStore :
    (h : SlabHeap) (v : HeapView) (s : ℕ)
    → IsStore h v
    → has s v.full ≡ true
    → s ≢ 0
    → (slabs : ℕ → Slab) × (cnt : ℤ) × (move_to_partials s h
        ≡ ok tt (record h { slabs = slabs; partials = s; fulls_cnt = cnt }))
      × IsStore
          (record h { slabs = slabs; partials = s; fulls_cnt = cnt })
          (record v { partial = s ∷ v.partial; full = remove s v.full })
move_to_partials-IsStore h v s w member some =
    let slabs : ℕ → Slab = partial_slabs h.slabs s h.partials in
    let out : has s v.partial ≡ false = ground (arith, w.apart s) in
    let other : h.partials ≢ s = first-out h.slabs 0 h.partials v.partial s w.linked out some in
    (
      slabs,
      pred_ℤ h.fulls_cnt,
      move_to_partials_lem s h other (first-back h.slabs 0 h.partials v.partial w.linked),
      IsStore-relink h v slabs s (s ∷ v.partial) (remove s v.full) (pred_ℤ h.fulls_cnt) w
          (
            refl,
            ground (arith, other),
            subst (λ (n : ℕ). Linked slabs s n v.partial) (ground (arith, other))
                (Linked-front h.slabs slabs 0 s h.partials v.partial w.distinct.1
                  (λ i g. ground (arith, out))
                  (λ i g.
                    let z = no-first h.slabs 0 h.partials v.partial i w.linked w.distinct.0 g in
                    ground (arith, out))
                  w.linked),
          )
          (ground (arith, w.distinct), (out, w.distinct.1)) (Distinct-remove s v.full w.fulls)
          (λ p g. elim (Bool-cases (p == s)) [
            | inl here ↦
                let same : p ≡ s = ground arith in rw same (has-remove_self s v.full w.fulls)
            | inr there ↦ ground (arith, w.apart p, has-remove_le p s v.full)
          ])
          (λ p g. ground (arith, has-remove_le p s v.full))
          (pred-counted v.full s h.fulls_cnt member w.counted)
          (λ i. (ground arith, ground arith, ground arith)),
    )
  where
    first-out :
        (slabs : ℕ → Slab) (p first : ℕ) (xs : List ℕ) (s : ℕ)
        → Linked slabs p first xs
        → has s xs ≡ false
        → s ≢ 0
        → first ≢ s
    first-out slabs p first [] s l out some = λ e. some (sym e ∙ l)
    first-out slabs p first (x ∷ xs) s (e, b, l) out some = λ q. absurd (ground arith)

-- `join_next` links the slab before `s` with `n`, or makes `n` the first one.
pub join_next_lem :
    (s p n : ℕ) (h : SlabHeap)
    → (p ≡ 0 → h.partials ≡ s)
    → join_next s p n h
      ≡ ok tt (record h {
        slabs = if not (p == 0) then put_next h.slabs p n else h.slabs;
        partials = if not (p == 0) then h.partials else n;
      })
unfolding join_next
join_next_lem s p n h first = elim (Bool-cases (p == 0)) [
  | inr some ↦ rw some refl
  | inl null ↦ let e : (h.partials == s) ≡ true = ground (arith, first) in rw (null, e) refl
]
