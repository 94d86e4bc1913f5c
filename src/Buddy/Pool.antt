-- ===== src/Buddy/Pool.antt =====
-- The abstract allocator: the free nodes of each level as lists, and what an allocation and a merge
-- do to them. `IsApart` says that no two blocks, free or in use, overlap.
pub mod Get
pub mod Merge
use os_course_term.Common.{
  ℕ, zero, suc, ◌+◌, ◌-◌, ◌*◌, ◌/◌, ◌^◌, ◌≤◌, ◌<◌, ◌≡◌, refl, ◌≢◌, sym, ◌∙◌, ap, subst, arith, true,
  false, ◌&&◌, ◌==◌, if◌then◌else◌, Option, none, some, List, [], ◌∷◌, has, remove, Distinct,
  update, Bool-cases, ==_iff, inl, inr, has-remove_le,
}
use os_course_term.Buddy.{buddy_levels, last_lev, even_buddy}
use os_course_term.Buddy.FreeLists.{Pool, OnLevel}
use os_course_term.Buddy.Tree.{up, Unrelated, Unrelated-sym}

abbrev pub push : ℕ → ℕ → Pool → Pool
push lev i pool = update pool lev (i ∷ pool lev)

abbrev pub take_out : ℕ → ℕ → Pool → Pool
take_out lev i pool = update pool lev (remove i (pool lev))

-- The first node of the list, or else the left half of a block from the level above.
abbrev pub pool_front : ℕ → List ℕ → Pool → Option (ℕ × Pool) → Option (ℕ × Pool)
pool_front lev [] pool otherwise = otherwise
pool_front lev (x ∷ xs) pool otherwise = some (x, update pool lev xs)

abbrev pub pool_split : ℕ → Option (ℕ × Pool) → Option (ℕ × Pool)
pool_split lev none = none
pool_split lev (some (p, pool)) = some (2 * p, push lev (2 * p + 1) pool)

unfoldable pub pool_get : ℕ → Pool → Option (ℕ × Pool)
pool_get zero pool = pool_front 0 (pool 0) pool none
pool_get (suc lev) pool =
    pool_front (suc lev) (pool (suc lev)) pool (pool_split (suc lev) (pool_get lev pool))

-- The node in use from leaf `c` on, where the leaf's `allocated_level` is `level c`.
abbrev pub node_of : (ℕ → ℕ) → ℕ → ℕ
node_of level c = up (last_lev - level c) c

pub record IsApart (pool : Pool) (level : ℕ → ℕ) : Type 0 where
  pub free_free :
      (l m i j : ℕ)
      → l < buddy_levels
      → m < buddy_levels
      → has i (pool l) ≡ true
      → has j (pool m) ≡ true
      → i ≢ j
      → Unrelated i j
  pub used_free :
      (c m j : ℕ)
      → level c < buddy_levels
      → m < buddy_levels
      → has j (pool m) ≡ true
      → Unrelated (node_of level c) j
  pub used_used :
      (c d : ℕ)
      → level c < buddy_levels
      → level d < buddy_levels
      → c ≢ d
      → Unrelated (node_of level c) (node_of level d)

-- No block overlaps that of node `p`.
pub record IsClear (pool : Pool) (level : ℕ → ℕ) (p : ℕ) : Type 0 where
  pub free : (l i : ℕ) → l < buddy_levels → has i (pool l) ≡ true → Unrelated i p
  pub used : (c : ℕ) → level c < buddy_levels → Unrelated (node_of level c) p

-- A pool that is part of another.
abbrev pub Within : Pool → Pool → Type 0
Within pool' pool = (l i : ℕ) → l < buddy_levels → has i (pool' l) ≡ true → has i (pool l) ≡ true

pub IsApart-Within :
    {pool' pool : Pool} {level : ℕ → ℕ}
    → Within pool' pool
    → IsApart pool level
    → IsApart pool' level
IsApart-Within w a = record {
  free_free = λ l m i j hl hm hi hj ne. a.free_free l m i j hl hm (w l i hl hi) (w m j hm hj) ne;
  used_free = λ c m j hc hm hj. a.used_free c m j hc hm (w m j hm hj);
  used_used = a.used_used;
}

pub IsClear-Within :
    {pool' pool : Pool} {level : ℕ → ℕ} (p : ℕ)
    → Within pool' pool
    → IsClear pool level p
    → IsClear pool' level p
IsClear-Within p w a = record { free = λ l i hl hi. a.free l i hl (w l i hl hi); used = a.used }

pub take_out-Within : (lev i : ℕ) (pool : Pool) → Within (take_out lev i pool) pool
take_out-Within lev i pool l j hl h = ground (arith, has-remove_le j i (pool lev))

-- What is on a list to which a node was added.
pub has-push :
    (lev p : ℕ) (pool : Pool) (l i : ℕ)
    → has i (push lev p pool l) ≡ true
    → i ≢ p
    → has i (pool l) ≡ true
has-push lev p pool l i h ne = ground arith

pub IsApart-push :
    {pool : Pool} {level : ℕ → ℕ} (lev p : ℕ)
    → IsApart pool level
    → IsClear pool level p
    → IsApart (push lev p pool) level
IsApart-push {pool} {level} lev p a e = record {
  free_free = λ l m i j hl hm hi hj ne. elim (Bool-cases (i == p)) [
    | inl is ↦
        let q : i ≡ p = (==_iff i p).0 is in
        subst (λ (k : ℕ). Unrelated k j) (sym q)
          (Unrelated-sym j p (e.free m j hm (has-push lev p pool m j hj (λ r. ne (q ∙ sym r)))))
    | inr isn't ↦ elim (Bool-cases (j == p)) [
      | inl js ↦
          let q : j ≡ p = (==_iff j p).0 js in
          subst (λ (k : ℕ). Unrelated i k) (sym q)
            (e.free l i hl (has-push lev p pool l i hi (λ r. ne (r ∙ sym q))))
      | inr jsn't ↦
          a.free_free l m i j hl hm (has-push lev p pool l i hi (λ r. ground arith))
            (has-push lev p pool m j hj (λ r. ground arith)) ne
    ]
  ];
  used_free = λ c m j hc hm hj. elim (Bool-cases (j == p)) [
    | inl js ↦
        subst (λ (k : ℕ). Unrelated (node_of level c) k) (sym ((==_iff j p).0 js)) (e.used c hc)
    | inr jsn't ↦ a.used_free c m j hc hm (has-push lev p pool m j hj (λ r. ground arith))
  ];
  used_used = a.used_used;
}
