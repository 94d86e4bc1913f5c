-- ===== src/Common/Lists.antt =====
-- Lists of numbers: length, membership as a test, and the removal of the first occurrence.
use Prim.Native.Nat.{ℕ, zero, suc, ◌≤◌, ◌<◌}
use mathlib.Core.Path.{◌≡◌, refl}
use mathlib.Core.Logic.{◌≢◌, inl, inr}
use mathlib.Core.Bool.{Bool, true, false, ◌||◌}
use mathlib.Core.List.{List, [], ◌∷◌}
use native.Mathlib.Omega.{arith}
use os_course_term.Common.Tests.{◌==◌, if◌then◌else◌, Bool-cases}

abbrev pub length {ℓ} : {A : Type ℓ} → List A → ℕ
length [] = 0
length (x ∷ xs) = suc (length xs)

abbrev pub has : ℕ → List ℕ → Bool
has a [] = false
has a (x ∷ xs) = (a == x) || has a xs

abbrev pub remove : ℕ → List ℕ → List ℕ
remove a [] = []
remove a (x ∷ xs) = if a == x then xs else x ∷ remove a xs

-- No number twice.
abbrev pub Distinct : List ℕ → Type 0
Distinct [] = Unit {0}
Distinct (x ∷ xs) = (has x xs ≡ false) × Distinct xs

pub has-remove_ne : (a b : ℕ) (xs : List ℕ) → a ≢ b → has a (remove b xs) ≡ has a xs
has-remove_ne a b [] ne = refl
has-remove_ne a b (x ∷ xs) ne = ground (arith, has-remove_ne a b xs ne)

pub has-remove_self : (a : ℕ) (xs : List ℕ) → Distinct xs → has a (remove a xs) ≡ false
has-remove_self a [] d = refl
has-remove_self a (x ∷ xs) d = ground (arith, has-remove_self a xs d.1)

pub has-remove_le : (a b : ℕ) (xs : List ℕ) → has a (remove b xs) ≡ true → has a xs ≡ true
has-remove_le a b [] h = h
has-remove_le a b (x ∷ xs) h = ground (arith, has-remove_le a b xs)

pub Distinct-remove : (a : ℕ) (xs : List ℕ) → Distinct xs → Distinct (remove a xs)
Distinct-remove a [] d = tt
Distinct-remove a (x ∷ xs) d =
    ground (arith, Distinct-remove a xs d.1, has-remove_ne x a xs, has-remove_le x a xs)

pub length-remove : (a : ℕ) (xs : List ℕ) → has a xs ≡ true → length xs ≡ suc (length (remove a xs))
length-remove a [] h = absurd (cc)
length-remove a (x ∷ xs) h = ground (arith, length-remove a xs)

-- A list of different numbers below `n` has at most `n` of them.
pub length-Distinct :
    (n : ℕ) (xs : List ℕ) → Distinct xs → ((i : ℕ) → has i xs ≡ true → i < n) → length xs ≤ n
length-Distinct n [] d h = omega arith
length-Distinct zero (x ∷ xs) d h = absurd (ground (arith, h x))
length-Distinct (suc n) (x ∷ xs) d h = elim (Bool-cases (has n (x ∷ xs))) [
  | inl some ↦
      let rest : length (remove n (x ∷ xs)) ≤ n =
        length-Distinct n (remove n (x ∷ xs)) (Distinct-remove n (x ∷ xs) d) λ i g.
          let lt = h i (has-remove_le i n (x ∷ xs) g) in
          let self = has-remove_self n (x ∷ xs) d in
          elim (Bool-cases (i == n)) [ inl e ↦ absurd (ground arith) | inr e ↦ ground arith ] in
      omega (arith, length-remove n (x ∷ xs) some)
  | inr none ↦
      let below = length-Distinct n (x ∷ xs) d λ i g.
        let lt = h i g in
        elim (Bool-cases (i == n)) [ inl e ↦ absurd (ground arith) | inr e ↦ ground arith ] in
      omega arith
]
