-- ===== src/Slab/Heap/Links.antt =====
-- The partial slabs of slab.c as a doubly linked list that NULL ends in both directions.
use os_course_term.Common.{
  ℕ, ◌≡◌, ◌≢◌, ◌⊎◌, refl, ◌∙◌, arith, true, false, List, [], ◌∷◌, has, remove, Distinct, ◌==◌,
  if◌then◌else◌, Bool-cases, inl, inr, ==_refl, ne→==,
}
use os_course_term.Slab.{Slab}

-- From `first`, whose `prev_slab` is `p`, the links lead through the slabs `xs` to NULL, and back.
abbrev pub Linked : (ℕ → Slab) → (p first : ℕ) → List ℕ → Type 0
Linked slabs p first [] = first ≡ 0
Linked slabs p first (x ∷ xs) =
    (first ≡ x) × ((slabs x).prev_slab ≡ p) × Linked slabs x (slabs x).next_slab xs

module _ (slabs slabs' : ℕ → Slab) where
  abbrev SameNext : List ℕ → Type 0
  SameNext xs = (i : ℕ) → has i xs ≡ true → (slabs' i).next_slab ≡ (slabs i).next_slab

  pub Linked-frame :
      (p first : ℕ) (xs : List ℕ)
      → SameNext xs
      → ((i : ℕ) → has i xs ≡ true → (slabs' i).prev_slab ≡ (slabs i).prev_slab)
      → Linked slabs p first xs
      → Linked slabs' p first xs
  Linked-frame p first [] nexts prevs l = l
  Linked-frame p first (x ∷ xs) nexts prevs (e, b, l) = (
    e,
    prevs x (ground arith) ∙ b,
    rw (nexts x (ground arith)) (
        Linked-frame x (slabs x).next_slab xs (λ i h. nexts i (ground arith))
          (λ i h. prevs i (ground arith)) l),
  )

  -- Another slab, or NULL, comes to stand before the first one.
  pub Linked-front :
      (p q first : ℕ) (xs : List ℕ)
      → Distinct xs
      → SameNext xs
      → ((i : ℕ)
          → has i xs ≡ true
          → (slabs' i).prev_slab ≡ (if i == first then q else (slabs i).prev_slab))
      → Linked slabs p first xs
      → Linked slabs' q first xs
  Linked-front p q first [] d nexts prevs l = l
  Linked-front p q first (x ∷ xs) d nexts prevs (e, b, l) = (
    e,
    ground (arith, prevs x),
    rw (nexts x (ground arith)) (
        Linked-frame x (slabs x).next_slab xs (λ i h. nexts i (ground arith))
          (λ i h. ground (arith, prevs i)) l),
  )

-- The slab before `s` is in the list, or what stands before the list.
prev-has :
    (slabs : ℕ → Slab) (p first : ℕ) (xs : List ℕ) (s : ℕ)
    → Linked slabs p first xs
    → has s xs ≡ true
    → has (slabs s).prev_slab (p ∷ xs) ≡ true
prev-has slabs p first [] s l h = absurd (cc)
prev-has slabs p first (x ∷ xs) s (e, b, l) h = elim (Bool-cases (s == x)) [
  | inl here ↦ ground arith
  | inr there ↦ ground (arith, prev-has slabs x (slabs x).next_slab xs s l (ground arith))
]

-- The slab after `s` is in the list, if there is one.
next-has :
    (slabs : ℕ → Slab) (p first : ℕ) (xs : List ℕ) (s : ℕ)
    → Linked slabs p first xs
    → has s xs ≡ true
    → ((slabs s).next_slab ≡ 0) ⊎ (has (slabs s).next_slab xs ≡ true)
next-has slabs p first [] s l h = absurd (cc)
next-has slabs p first (x ∷ []) s (e, b, l) h = inl (ground arith)
next-has slabs p first (x ∷ y ∷ ys) s (e, b, l) h = elim (Bool-cases (s == x)) [
  | inl here ↦ inr (ground arith)
  | inr there ↦ elim (next-has slabs x (slabs x).next_slab (y ∷ ys) s l (ground arith)) [
    | inl none ↦ inl none
    | inr more ↦ inr (ground arith)
  ]
]

-- The slab before `s` is the one whose next slab is `s`.
pub prev-first :
    (slabs : ℕ → Slab) (p first : ℕ) (xs : List ℕ) (s : ℕ)
    → Linked slabs p first xs
    → Distinct (p ∷ xs)
    → has s xs ≡ true
    → (p == (slabs s).prev_slab) ≡ (first == s)
prev-first slabs p first [] s l d h = absurd (cc)
prev-first slabs p first (x ∷ xs) s (e, b, l) d h = elim (Bool-cases (s == x)) [
  | inl here ↦ ground arith
  | inr there ↦ ground (arith, prev-has slabs x (slabs x).next_slab xs s l (ground arith))
]

-- `s` is taken out: its neighbours are linked with each other, and nothing else changes.
pub Linked-remove :
    (slabs slabs' : ℕ → Slab) (p first : ℕ) (xs : List ℕ) (s : ℕ)
    → Linked slabs p first xs
    → Distinct (p ∷ xs)
    → has 0 xs ≡ false
    → has s xs ≡ true
    → ((i : ℕ)
        → has i xs ≡ true
        → i ≢ s
        → ((slabs' i).next_slab
            ≡ (if i == (slabs s).prev_slab then (slabs s).next_slab else (slabs i).next_slab))
          × ((slabs' i).prev_slab
              ≡ (if i == (slabs s).next_slab then (slabs s).prev_slab else (slabs i).prev_slab)))
    → Linked slabs' p (if first == s then (slabs s).next_slab else first) (remove s xs)
Linked-remove slabs slabs' p first [] s l d null h links = absurd (cc)
Linked-remove slabs slabs' p first (x ∷ xs) s (e, b, l) d null h links =
    elim (Bool-cases (s == x)) [
      | inl here ↦
          let same : s ≡ x = ground arith in
          rw (e, same, ==_refl x)
            (Linked-front slabs slabs' x p (slabs x).next_slab xs d.1.1
              (λ i g. ground (arith, links i)) (λ i g. ground (arith, links i)) l)
      | inr there ↦
          let rest : has s xs ≡ true = ground arith in
          let other : x ≢ s = λ q. absurd (ground arith) in
          let turn = prev-first slabs x (slabs x).next_slab xs s l d.1 rest in
          let (n, r) = links x (ground arith) other in
          let next : (slabs' x).next_slab
              ≡ (if (slabs x).next_slab == s then (slabs s).next_slab else (slabs x).next_slab) =
            n ∙ rw turn refl in
          rw (e, there, ne→== x s other)
            (
              refl,
              r ∙ ground (arith, next-has slabs x (slabs x).next_slab xs s l rest),
              rw next (
                  Linked-remove slabs slabs' x (slabs x).next_slab xs s l d.1 (ground arith) rest
                    λ i g. links i (ground arith)),
            )
    ]
