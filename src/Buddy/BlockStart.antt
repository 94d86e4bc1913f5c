-- ===== src/Buddy/BlockStart.antt =====
-- `buddy_get_block_start` of buddy.c.
pub mod Lookup
use os_course_term.Common.{
  ℕ, zero, suc, ◌+◌, ◌-◌, ◌*◌, ◌/◌, ◌^◌, ◌≤◌, ◌<◌, ◌≡◌, ◌≢◌, arith, sym, subst, refl, true, false,
  ◌∙◌, ap, ◌==◌, Bool-cases, ==_iff, ne→==, inl, inr, lt→ltb, le→leb, lt→leb, dec_lt, dec_le, ok,
  died, add64, mul64, sub64, pow2-suc, pow2_pos, le→ltb, assert, leb, ◌>>◌, fault,
}
use os_course_term.Buddy.{
  BuddyAllocator, buddy_levels, last_lev, last_lev_start, max_page_size, min_page_size, leaf_of,
  in_range, climb, climb_step, info, BuddyCmd, buddy_get_block_start,
}
use os_course_term.Buddy.FreeLists.{Pool, OnLevel, OnLevel-lt}
use os_course_term.Buddy.Tree.{
  up, up-suc, up_lem, up-add, up-shift, up-OnLevel, up-not-Unrelated, Unrelated,
}
use os_course_term.Buddy.GetLevel.{levels}
use os_course_term.Buddy.Merge.{lies_on_level_lem}
use os_course_term.Buddy.Pool.{node_of}
use os_course_term.Buddy.Valid.{IsValid, block-leaf}
use os_course_term.Buddy.Blocks.{InUse, InUse-node}

-- The ancestor on level `lev` of a leaf, and the first leaf below that.
abbrev pub anc : (lev x : ℕ) → ℕ
anc lev x = up (last_lev - lev) x

abbrev pub probe : (lev x : ℕ) → ℕ
probe lev x = anc lev x * 2 ^ (last_lev - lev)

module _ (a : BuddyAllocator) (pool : Pool) (v : IsValid a pool) (x : ℕ)
    (leaf : OnLevel last_lev x) where
  pub anc-OnLevel : (lev : ℕ) → lev < buddy_levels → OnLevel lev (anc lev x)
  anc-OnLevel lev h =
      let e : (last_lev - lev) + lev ≡ last_lev = omega arith in
      up-OnLevel (last_lev - lev) lev x (subst (λ (l : ℕ). OnLevel l x) (sym e) leaf)

  -- An ancestor of the probed leaf that lies no deeper is one of `x`.
  pub up-probe :
      (lev l : ℕ)
      → lev < buddy_levels
      → l ≤ lev
      → up (last_lev - l) (probe lev x) ≡ up (last_lev - l) x
  up-probe lev l h le =
      let e : last_lev - l ≡ (last_lev - lev) + (lev - l) = omega arith in
      rw e (
        up-add (last_lev - lev) (lev - l) (probe lev x)
        ∙ ap (up (lev - l)) (up-shift (last_lev - lev) (anc lev x))
        ∙ sym (up-add (last_lev - lev) (lev - l) x))

  pub anc-half : (lev : ℕ) → suc lev < buddy_levels → anc (suc lev) x / 2 ≡ anc lev x
  anc-half lev h =
      let e : last_lev - lev ≡ suc (last_lev - suc lev) = omega arith in
      sym (ap (λ (k : ℕ). up k x) e ∙ up-suc (last_lev - suc lev) x)

  pub probe-lt : (lev : ℕ) → lev < buddy_levels → probe lev x < 2 ^ 20
  probe-lt lev h =
      OnLevel-lt last_lev (probe lev x) (omega arith)
        (block-leaf lev (anc lev x) h (anc-OnLevel lev h))

  pub missed :
      (lev : ℕ) (next : BuddyCmd ℕ)
      → lev < buddy_levels
      → (levels a (probe lev x) == buddy_levels) ≡ true
      → climb_step lev (anc lev x) next a ≡ next a
  unfolding climb_step info
  missed lev next h blank =
      simp
        (lies_on_level_lem lev (anc lev x) (anc-OnLevel lev h), lt→ltb _ _ (probe-lt lev h), blank)

  -- The assert `i >= 1` holds below the root.
  pub step_up :
      (lev : ℕ)
      → suc lev < buddy_levels
      → (next : BuddyCmd ℕ) → (assert (leb 1 (anc (suc lev) x / 2)) >> next) a ≡ next a
  step_up lev h next =
      let o = anc-OnLevel (suc lev) h in
      rw (le→leb 1 (anc (suc lev) x / 2) (omega (arith, o.from, pow2-suc lev, pow2_pos lev)))

  module _ (c : ℕ) (in_use : InUse (levels a) c x) where
    -- A marked leaf that is met on the way up is the first one of the block.
    probe-eq :
        (lev : ℕ)
        → lev < buddy_levels
        → levels a c ≤ lev
        → levels a (probe lev x) < buddy_levels
        → ¬ (probe lev x ≢ c)
    probe-eq lev h le used ne =
        up-not-Unrelated (probe lev x) (last_lev - levels a (probe lev x)) (last_lev - levels a c) (
          subst (Unrelated (node_of (levels a) (probe lev x)))
            (sym (up-probe lev (levels a c) h le ∙ InUse-node c x v in_use))
            (v.apart.used_used (probe lev x) c used in_use.used ne))

    -- On its own level the block is found.
    probe_self : probe (levels a c) x ≡ c
    probe_self =
        ap (λ (k : ℕ). k * 2 ^ (last_lev - levels a c)) (InUse-node c x v in_use)
        ∙ v.marks.aligned c in_use.used

    abbrev pub block_start : ℕ
    block_start = add64 a.start (mul64 (c - last_lev_start) min_page_size)

    probe_found :
        (lev : ℕ)
        → lev < buddy_levels
        → levels a c ≤ lev
        → (levels a (probe lev x) == buddy_levels) ≡ false
        → probe lev x ≡ c
    probe_found lev h le some = elim (Bool-cases (probe lev x == c)) [
      | inl e ↦ (==_iff (probe lev x) c).0 e
      | inr ne ↦
          absurd
            (probe-eq lev h le (ground (arith, v.marks.capped (probe lev x))) (λ e. ground arith))
    ]

    found :
        (lev : ℕ) (next : BuddyCmd ℕ)
        → lev < buddy_levels
        → levels a c ≤ lev
        → (levels a (probe lev x) == buddy_levels) ≡ false
        → climb_step lev (anc lev x) next a ≡ ok block_start a
    unfolding climb_step info
    found lev next h le some =
        let e : probe lev x ≡ c = probe_found lev h le some in
        let le' : levels a (probe lev x) ≤ lev = subst (λ (k : ℕ). levels a k ≤ lev) (sym e) le in
        simp
          (
            lies_on_level_lem lev (anc lev x) (anc-OnLevel lev h),
            lt→ltb _ _ (probe-lt lev h),
            some,
            le→leb (levels a (probe lev x)) lev le',
          )
          (ap (λ (k : ℕ). ok (add64 a.start (mul64 (k - last_lev_start) min_page_size)) a) e)

    blank-lt :
        (lev : ℕ)
        → levels a c ≤ lev
        → (levels a (probe lev x) == buddy_levels) ≡ true
        → levels a c < lev
    blank-lt lev le blank = elim (dec_lt (levels a c) lev) [
      | yes h ↦ h
      | no h ↦
          let e : lev ≡ levels a c = omega arith in
          absurd (
            omega (
              arith,
              in_use.used,
              (==_iff (levels a (probe lev x)) buddy_levels).0 blank,
              ap (λ (k : ℕ). levels a (probe k x)) e,
              ap (levels a) probe_self,
            ))
    ]

    pub climb-in-use :
        (lev : ℕ)
        → lev < buddy_levels
        → levels a c ≤ lev
        → climb lev (anc lev x) a ≡ ok block_start a
    unfolding climb
    climb-in-use zero h le = elim (Bool-cases (levels a (probe zero x) == buddy_levels)) [
      | inl blank ↦ absurd (omega (arith, blank-lt 0 le blank))
      | inr some ↦ found zero _ h le some
    ]
    climb-in-use (suc lev) h le = elim (Bool-cases (levels a (probe (suc lev) x) == buddy_levels)) [
      | inl blank ↦
          missed (suc lev) _ h blank
          ∙ step_up lev h (climb lev (anc (suc lev) x / 2))
          ∙ ap (λ (k : ℕ). climb lev k a) (anc-half lev h)
          ∙ climb-in-use lev (omega arith) (omega (arith, blank-lt (suc lev) le blank))
      | inr some ↦ found (suc lev) _ h le some
    ]
