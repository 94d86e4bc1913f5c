-- ===== src/Buddy/Chains.antt =====
-- The doubly linked list that starts at an index: what its nodes are, and how the two changes of
-- links act on it.
use os_course_term.Common.{
  ℕ, ◌≡◌, refl, ◌≢◌, ◌⊎◌, inl, inr, sym, subst, ◌∙◌, true, false, ◌==◌, if◌then◌else◌, arith, List,
  [], ◌∷◌, has, remove, Distinct, ℤ, pos, negsuc, minus_one, eq_ℤ, Bool-cases, ==_iff,
}
use os_course_term.Buddy.Links.{Buddies, Apart, relink_add, relink_remove}

-- From `cur`, whose node must point back to `p`, the links lead through `xs` to -1.
abbrev pub Chain : Buddies → (p cur : ℤ) → List ℕ → Type 0
Chain b p cur [] = cur ≡ minus_one
Chain b p cur (x ∷ xs) = (cur ≡ pos x) × ((b x).prev_free ≡ p) × Chain b (pos x) (b x).next_free xs

abbrev pub OutOf : ℤ → List ℕ → Type 0
OutOf (pos q) xs = has q xs ≡ false
OutOf (negsuc _) xs = Unit {0}

abbrev pub SameLinks : (b b' : Buddies) → ℕ → Type 0
SameLinks b b' j = ((b' j).prev_free ≡ (b j).prev_free) × ((b' j).next_free ≡ (b j).next_free)

pub Chain-frame :
    (b b' : Buddies) (p cur : ℤ) (xs : List ℕ)
    → ((j : ℕ) → has j xs ≡ true → SameLinks b b' j)
    → Chain b p cur xs
    → Chain b' p cur xs
Chain-frame b b' p cur [] same c = c
Chain-frame b b' p cur (x ∷ xs) same (e, q, c) =
    let here : SameLinks b b' x = same x (ground arith) in
    (
      e,
      here.0 ∙ q,
      rw here.1 (Chain-frame b b' (pos x) (b x).next_free xs (λ j h. same j (ground arith)) c),
    )

pub Chain-add :
    (b : Buddies) (i : ℕ) (f : ℤ) (xs : List ℕ)
    → Distinct xs
    → has i xs ≡ false
    → Chain b minus_one f xs
    → Chain (relink_add b i f) minus_one (pos i) (i ∷ xs)
unfolding relink_add
Chain-add b i f [] d out c = ground arith
Chain-add b i f (y ∷ ys) d out (e, q, c) =
    let next : (relink_add b i f y).next_free ≡ (b y).next_free = ground arith in
    (
      refl,
      ground arith,
      (
        ground arith,
        ground arith,
        rw next (
            Chain-frame b (relink_add b i f) (pos y) (b y).next_free ys
              (λ j h. (ground arith, ground arith)) c),
      ),
    )

-- What the two links of a member lead to.
pub record Neighbours (b : Buddies) (p cur : ℤ) (i : ℕ) (xs : List ℕ) : Type 0 where
  pub before :
      (((b i).prev_free ≡ p) × (cur ≡ pos i))
      ⊎ ((q : ℕ) × ((b i).prev_free ≡ pos q)
          × (has q xs ≡ true)
          × (q ≢ i)
          × ((b q).next_free ≡ pos i)
          × (cur ≢ pos i))
  pub after :
      ((b i).next_free ≡ minus_one)
      ⊎ ((n : ℕ) × ((b i).next_free ≡ pos n)
          × (has n xs ≡ true)
          × (n ≢ i)
          × ((b n).prev_free ≡ pos i))
  pub apart : Apart (b i).prev_free (b i).next_free

Apart-end : (p : ℤ) → Apart p minus_one
Apart-end (pos r) = tt
Apart-end (negsuc r) = tt

Neighbours-head :
    (b : Buddies) (p cur : ℤ) (i : ℕ) (xs : List ℕ)
    → Distinct (i ∷ xs)
    → OutOf p (i ∷ xs)
    → Chain b p cur (i ∷ xs)
    → Neighbours b p cur i (i ∷ xs)
Neighbours-head b p cur i [] d o (e, q, c) = record {
  before = inl (q, e);
  after = inl c;
  apart = rw c (Apart-end (b i).prev_free);
}
Neighbours-head b p cur i (y ∷ ys) d o (e, q, (e', q', c)) = record {
  before = inl (q, e);
  after = inr (y, e', ground arith, ground arith, q');
  apart = rw (q, e') (Apart-head p o);
}
  where
    Apart-head : (p : ℤ) → OutOf p (i ∷ y ∷ ys) → Apart p (pos y)
    Apart-head (pos r) o = ground arith
    Apart-head (negsuc r) o = tt

Neighbours-tail :
    (b : Buddies) (p cur : ℤ) (i x : ℕ) (xs : List ℕ)
    → Distinct (x ∷ xs)
    → cur ≡ pos x
    → (b x).prev_free ≡ p
    → has i xs ≡ true
    → Neighbours b (pos x) (b x).next_free i xs
    → Neighbours b p cur i (x ∷ xs)
Neighbours-tail b p cur i x xs d e q h w = record {
  before = before w.before;
  after = after w.after;
  apart = w.apart;
}
  where
    before :
        (((b i).prev_free ≡ pos x) × ((b x).next_free ≡ pos i))
          ⊎ ((q : ℕ) × ((b i).prev_free ≡ pos q)
              × (has q xs ≡ true)
              × (q ≢ i)
              × ((b q).next_free ≡ pos i)
              × ((b x).next_free ≢ pos i))
        → (((b i).prev_free ≡ p) × (cur ≡ pos i))
          ⊎ ((q : ℕ) × ((b i).prev_free ≡ pos q)
              × (has q (x ∷ xs) ≡ true)
              × (q ≢ i)
              × ((b q).next_free ≡ pos i)
              × (cur ≢ pos i))
    before (inl (a, c)) = inr (x, a, ground arith, ground arith, c, ground arith)
    before (inr (r, a, m, n, c, o)) = inr (r, a, ground arith, n, c, ground arith)

    after :
        ((b i).next_free ≡ minus_one)
          ⊎ ((n : ℕ) × ((b i).next_free ≡ pos n)
              × (has n xs ≡ true)
              × (n ≢ i)
              × ((b n).prev_free ≡ pos i))
        → ((b i).next_free ≡ minus_one)
          ⊎ ((n : ℕ) × ((b i).next_free ≡ pos n)
              × (has n (x ∷ xs) ≡ true)
              × (n ≢ i)
              × ((b n).prev_free ≡ pos i))
    after (inl a) = inl a
    after (inr (r, a, m, n, c)) = inr (r, a, ground arith, n, c)

pub Chain-Neighbours :
    (b : Buddies) (p cur : ℤ) (i : ℕ) (xs : List ℕ)
    → Distinct xs
    → OutOf p xs
    → has i xs ≡ true
    → Chain b p cur xs
    → Neighbours b p cur i xs
Chain-Neighbours b p cur i [] d o h c = absurd (cc)
Chain-Neighbours b p cur i (x ∷ xs) d o h (e, q, c) = elim (Bool-cases (i == x)) [
  | inl hit ↦
      subst (λ (k : ℕ). Neighbours b p cur k (x ∷ xs)) (sym ((==_iff i x).0 hit))
        (Neighbours-head b p cur x xs d o (e, q, c))
  | inr miss ↦
      Neighbours-tail b p cur i x xs d e q (rw miss at h)
        (Chain-Neighbours b (pos x) (b x).next_free i xs d.1 d.0 (rw miss at h) c)
]

-- The removal of the first node.
Chain-remove_head :
    (b : Buddies) (p cur : ℤ) (i : ℕ) (xs : List ℕ)
    → Distinct (i ∷ xs)
    → OutOf p (i ∷ xs)
    → Chain b p cur (i ∷ xs)
    → Chain (relink_remove b i) p (b i).next_free xs
unfolding relink_remove
Chain-remove_head b p cur i [] d o (e, q, c) = c
Chain-remove_head b (pos r) cur i (y ∷ ys) d o (e, q, (e', q', c)) =
    let next : (relink_remove b i y).next_free ≡ (b y).next_free = ground arith in
    (
      e',
      ground arith,
      rw next (
          Chain-frame b (relink_remove b i) (pos y) (b y).next_free ys
            (λ j h. (ground arith, ground arith)) c),
    )
Chain-remove_head b (negsuc r) cur i (y ∷ ys) d o (e, q, (e', q', c)) =
    let next : (relink_remove b i y).next_free ≡ (b y).next_free = ground arith in
    (
      e',
      ground arith,
      rw next (
          Chain-frame b (relink_remove b i) (pos y) (b y).next_free ys
            (λ j h. (ground arith, ground arith)) c),
    )

-- Where a list starts once node `i` has left it.
abbrev pub start_without : Buddies → ℕ → ℤ → ℤ
start_without b i cur = if eq_ℤ cur (pos i) then (b i).next_free else cur

-- The links of a node in front of the one that leaves.
relink_remove_front :
    (b : Buddies) (p : ℤ) (i x : ℕ) (xs : List ℕ)
    → Distinct (x ∷ xs)
    → (i == x) ≡ false
    → OutOf p (x ∷ xs)
    → has i xs ≡ true
    → (b x).prev_free ≡ p
    → Neighbours b (pos x) (b x).next_free i xs
    → ((relink_remove b i x).prev_free ≡ p)
      × ((relink_remove b i x).next_free ≡ start_without b i (b x).next_free)
unfolding relink_remove
relink_remove_front b p i x xs d ne o h q w = go w.before w.after
  where
    go :
        (((b i).prev_free ≡ pos x) × ((b x).next_free ≡ pos i))
          ⊎ ((q : ℕ) × ((b i).prev_free ≡ pos q)
              × (has q xs ≡ true)
              × (q ≢ i)
              × ((b q).next_free ≡ pos i)
              × ((b x).next_free ≢ pos i))
        → ((b i).next_free ≡ minus_one)
          ⊎ ((n : ℕ) × ((b i).next_free ≡ pos n)
              × (has n xs ≡ true)
              × (n ≢ i)
              × ((b n).prev_free ≡ pos i))
        → ((relink_remove b i x).prev_free ≡ p)
          × ((relink_remove b i x).next_free ≡ start_without b i (b x).next_free)
    go (inl (a, c)) (inl z) = ground arith
    go (inl (a, c)) (inr (n, z, m, t, u)) = ground arith
    go (inr (r, a, m, t, c, f)) (inl z) = ground arith
    go (inr (r, a, m, t, c, f)) (inr (n, z, m', t', u)) = ground arith

pub Chain-remove :
    (b : Buddies) (p cur : ℤ) (i : ℕ) (xs : List ℕ)
    → Distinct xs
    → OutOf p xs
    → has i xs ≡ true
    → Chain b p cur xs
    → Chain (relink_remove b i) p (start_without b i cur) (remove i xs)
Chain-remove b p cur i [] d o h c = absurd (cc)
Chain-remove b p cur i (x ∷ xs) d o h (e, q, c) = elim (Bool-cases (i == x)) [
  | inl hit ↦
      let same : i ≡ x = (==_iff i x).0 hit in
      let begins : (b i).next_free ≡ start_without b i cur = ground arith in
      rw hit (
        subst (λ (k : ℤ). Chain (relink_remove b i) p k xs) begins
          (subst (λ (k : ℕ). Chain (relink_remove b k) p (b k).next_free xs) (sym same)
            (Chain-remove_head b p cur x xs d o (e, q, c))))
  | inr miss ↦
      let member : has i xs ≡ true = ground arith in
      let w = Chain-Neighbours b (pos x) (b x).next_free i xs d.1 d.0 member c in
      let front = relink_remove_front b p i x xs d miss o member q w in
      let begins : start_without b i cur ≡ pos x = ground arith in
      rw miss (
        begins,
        front.0,
        subst (λ (k : ℤ). Chain (relink_remove b i) (pos x) k (remove i xs)) (sym front.1)
            (Chain-remove b (pos x) (b x).next_free i xs d.1 d.0 member c),
      )
]
