-- ===== src/Buddy/Pool/Merge.antt =====
-- A merge of two free buddies on the abstract allocator.
use os_course_term.Common.{
  ℕ, zero, suc, ◌+◌, ◌*◌, ◌/◌, ◌<◌, ◌≡◌, refl, ◌≢◌, ◌∙◌, subst, arith, true, false, ◌&&◌, ◌==◌,
  if◌then◌else◌, Bool, has, Distinct, Bool-cases, inl, inr, has-remove_self, has-remove_ne,
  Distinct-remove, ==_refl,
}
use os_course_term.Buddy.{buddy_levels, even_buddy}
use os_course_term.Buddy.FreeLists.{Pool, OnLevel, OnLevel-unique}
use os_course_term.Buddy.Tree.{up, Unrelated-parent}
use os_course_term.Buddy.Pool.{
  push, take_out, node_of, IsApart, IsClear, IsApart-Within, IsApart-push, Within, take_out-Within,
}

-- Buddies `e` and `e + 1` of level `suc lev` give way to their parent.
abbrev pub pool_pair : (lev e : ℕ) → Pool → Pool
pool_pair lev e pool = push lev (e / 2) (take_out (suc lev) (e + 1) (take_out (suc lev) e pool))

abbrev pub both_free : (lev e : ℕ) → Pool → Bool
both_free lev e pool = has e (pool lev) && has (e + 1) (pool lev)

-- One merge, and whether it took place.
unfoldable pub pool_merge_one : (lev i : ℕ) → Pool → Bool × Pool
pool_merge_one zero i pool = (false, pool)
pool_merge_one (suc lev) i pool =
    if both_free (suc lev) (even_buddy i) pool
    then (true, pool_pair lev (even_buddy i) pool)
    else (false, pool)

-- Merges from node `i` upwards, as long as they take place.
unfoldable pub pool_merge : (lev i : ℕ) → Pool → Pool
pool_merge zero i pool = (pool_merge_one zero i pool).1
pool_merge (suc lev) i pool =
    let once = pool_merge_one (suc lev) i pool in
    let above = pool_merge lev (i / 2) once.1 in if once.0 then above else once.1

pub even_buddy-double : (i : ℕ) → even_buddy i ≡ 2 * (i / 2)
even_buddy-double i = ground arith

module _ (pool : Pool) (distinct : (l : ℕ) → l < buddy_levels → Distinct (pool l))
    (placed : (l i : ℕ) → l < buddy_levels → has i (pool l) ≡ true → OnLevel l i) (lev x : ℕ)
    (hl : lev < buddy_levels) (member : has x (pool lev) ≡ true) where
  -- A node that is taken out is on no list.
  pub take_out-ne : (l i : ℕ) → l < buddy_levels → has i (take_out lev x pool l) ≡ true → i ≢ x
  take_out-ne l i h m e = elim (Bool-cases (l == lev)) [
    | inl here ↦ ground (arith, rw here at m, has-remove_self x (pool lev) (distinct lev hl))
    | inr other ↦
        let m' : has i (pool l) ≡ true = rw other at m in
        let q : OnLevel l x = subst (OnLevel l) e (placed l i h m') in
        ground (arith, OnLevel-unique l lev x q (placed lev x hl member))
  ]

  pub take_out-Distinct : (l : ℕ) → l < buddy_levels → Distinct (take_out lev x pool l)
  take_out-Distinct l h =
      ground (arith, distinct l h, distinct lev hl, Distinct-remove x (pool lev))

module _ (level : ℕ → ℕ) (pool : Pool) (a : IsApart pool level)
    (distinct : (l : ℕ) → l < buddy_levels → Distinct (pool l))
    (placed : (l i : ℕ) → l < buddy_levels → has i (pool l) ≡ true → OnLevel l i) (lev p : ℕ)
    (hl : suc lev < buddy_levels) (left : has (2 * p) (pool (suc lev)) ≡ true)
    (right : has (2 * p + 1) (pool (suc lev)) ≡ true) where
  abbrev pub rest : Pool
  rest = take_out (suc lev) (2 * p + 1) (take_out (suc lev) (2 * p) pool)

  rest-Within : Within rest pool
  rest-Within l i h m =
      take_out-Within (suc lev) (2 * p) pool l i h
        (take_out-Within (suc lev) (2 * p + 1) (take_out (suc lev) (2 * p) pool) l i h m)

  pub right' : has (2 * p + 1) (take_out (suc lev) (2 * p) pool (suc lev)) ≡ true
  right' =
      rw (==_refl (suc lev))
        (has-remove_ne (2 * p + 1) (2 * p) (pool (suc lev)) (λ e. absurd (omega arith)) ∙ right)

  -- Neither buddy is left on any list.
  rest-ne : (l i : ℕ) → l < buddy_levels → has i (rest l) ≡ true → (i ≢ 2 * p) × (i ≢ 2 * p + 1)
  rest-ne l i h m = (
    take_out-ne pool distinct placed (suc lev) (2 * p) hl left l i h
        (take_out-Within (suc lev) (2 * p + 1) (take_out (suc lev) (2 * p) pool) l i h m),
    take_out-ne (take_out (suc lev) (2 * p) pool)
        (take_out-Distinct pool distinct placed (suc lev) (2 * p) hl left)
        (λ k j hk q. placed k j hk (take_out-Within (suc lev) (2 * p) pool k j hk q)) (suc lev)
        (2 * p + 1) hl right' l i h m,
  )

  pub rest-IsClear : IsClear rest level p
  rest-IsClear = record {
    free = λ l i h m.
        let member = rest-Within l i h m in
        let ne = rest-ne l i h m in
        Unrelated-parent i p (a.free_free l (suc lev) i (2 * p) h hl member left ne.0)
          (a.free_free l (suc lev) i (2 * p + 1) h hl member right ne.1);
    used = λ c h.
        Unrelated-parent (node_of level c) p (a.used_free c (suc lev) (2 * p) h hl left)
          (a.used_free c (suc lev) (2 * p + 1) h hl right);
  }

  pub pair-IsApart : IsApart (push lev p rest) level
  pair-IsApart = IsApart-push lev p (IsApart-Within rest-Within a) rest-IsClear

  pub rest-fresh : has p (rest lev) ≡ false
  unfolding up
  rest-fresh = elim (Bool-cases (has p (rest lev))) [
    | inl m ↦ absurd ((rest-IsClear.free lev p (omega arith) m 0).0 refl)
    | inr n ↦ n
  ]
