-- ===== src/Buddy/Merge.antt =====
-- `try_merge_one` and `try_merge_rec` of buddy.c refine the abstract merges, and no assert of theirs
-- fails.
use os_course_term.Common.{
  ℕ, zero, suc, ◌+◌, ◌-◌, ◌*◌, ◌/◌, ◌^◌, ◌<◌, ◌≡◌, refl, sym, subst, fun_ext, arith, true, false,
  ◌==◌, if◌then◌else◌, Bool, has, Bool-cases, inl, inr, pow2-suc, Returns, returns, Returns-bind,
  Returns-mono, lt→ltb, le→leb, pure, and_then,
}
use os_course_term.Buddy.{
  BuddyAllocator, buddy_levels, lies_on_level, try_merge_one, try_merge_rec, merge_pair, remove_one,
  add_one,
}
use os_course_term.Buddy.FreeLists.{Pool, OnLevel, OnLevel-lt, IsLinked, SameBlocks}
use os_course_term.Buddy.FreeLists.Add.{add_one-IsLinked}
use os_course_term.Buddy.FreeLists.Remove.{remove_one-IsLinked}
use os_course_term.Buddy.GetLevel.{levels, SameBlocks-trans}
use os_course_term.Buddy.Pool.{push, take_out, IsApart}
use os_course_term.Buddy.Pool.Merge.{
  pool_pair, both_free, pool_merge_one, pool_merge, even_buddy-double, pair-IsApart, right',
  rest-fresh,
}

pub lies_on_level_lem : (lev i : ℕ) → OnLevel lev i → lies_on_level lev i ≡ true
lies_on_level_lem lev i o =
    rw (le→leb (2 ^ lev) i o.from, le→leb i (2 * 2 ^ lev) (omega (arith, o.below)))

-- The state is linked as the pool says, no two blocks overlap, and those in use are unchanged.
pub record Merged (a a' : BuddyAllocator) (pool' : Pool) : Type 0 where
  pub linked : IsLinked a' pool'
  pub apart : IsApart pool' (levels a)
  pub same : SameBlocks a a'

module _ (a : BuddyAllocator) (pool : Pool) (v : IsLinked a pool)
    (apart : IsApart pool (levels a)) where
  unchanged : Merged a a pool
  unchanged = record {
    linked = v;
    apart = apart;
    same = record { start = refl; level = λ i. refl };
  }

  module _ (lev p : ℕ) (hl : suc lev < buddy_levels) (on : OnLevel lev p) where
    on_left : OnLevel (suc lev) (2 * p)
    on_left = omega (arith, on.from, on.below, pow2-suc lev)

    on_right : OnLevel (suc lev) (2 * p + 1)
    on_right = omega (arith, on.from, on.below, pow2-suc lev)

    half : 2 * p / 2 ≡ p
    half = omega arith

    pred_suc : suc lev - 1 ≡ lev
    pred_suc = omega arith

    module _ (left : has (2 * p) (pool (suc lev)) ≡ true)
        (right : has (2 * p + 1) (pool (suc lev)) ≡ true) where
      abbrev both_out : Pool
      both_out = take_out (suc lev) (2 * p + 1) (take_out (suc lev) (2 * p) pool)

      merged :
          Returns
            (λ b a'. (b ≡ true) × Merged a a' (push lev p both_out))
            (and_then (remove_one (suc lev) (2 * p) a) λ _ s.
              and_then
                (remove_one (suc lev) (2 * p + 1) s)
                λ _ s'. and_then (add_one lev p s') λ _. pure true)
      merged =
          Returns-bind (remove_one-IsLinked a pool v (suc lev) (2 * p) hl left) λ _ a1 (v1, s1).
            Returns-bind
              (remove_one-IsLinked a1 (take_out (suc lev) (2 * p) pool) v1 (suc lev) (2 * p + 1) hl
                (right' (levels a) pool apart v.distinct v.placed lev p hl left right))
              λ _ a2 (v2, s2).
                Returns-bind
                  (add_one-IsLinked a2 both_out v2 lev p (omega arith) on
                    (rest-fresh (levels a) pool apart v.distinct v.placed lev p hl left right))
                  λ _ a3 (v3, s3). returns (
                    refl,
                    record {
                      linked = v3;
                      apart =
                          pair-IsApart (levels a) pool apart v.distinct v.placed lev p hl left
                            right;
                      same = SameBlocks-trans s1 (SameBlocks-trans s2 s3);
                    },
                  )

    merge_pair-Merged :
        Returns
          (λ b a'.
            (b ≡ both_free (suc lev) (2 * p) pool)
            × Merged a a'
                (if both_free (suc lev) (2 * p) pool then pool_pair lev (2 * p) pool else pool))
          (merge_pair (suc lev) (2 * p) a)
    unfolding merge_pair
    merge_pair-Merged =
        simp
          (
            lt→ltb _ _ (OnLevel-lt (suc lev) (2 * p) hl on_left),
            v.flagged (suc lev) (2 * p) hl on_left,
          )
          (elim (Bool-cases (has (2 * p) (pool (suc lev)))) [
            | inl left ↦
                simp
                  (
                    left,
                    lt→ltb _ _ (OnLevel-lt (suc lev) (2 * p + 1) hl on_right),
                    v.flagged (suc lev) (2 * p + 1) hl on_right,
                  )
                  (elim (Bool-cases (has (2 * p + 1) (pool (suc lev)))) [
                    | inl right ↦ simp (right, half, pred_suc) (merged left right)
                    | inr busy ↦ simp busy (returns (refl, unchanged))
                  ])
            | inr busy ↦ simp busy (returns (refl, unchanged))
          ])

half-OnLevel : (lev i : ℕ) → OnLevel (suc lev) i → OnLevel lev (i / 2)
half-OnLevel lev i o = omega (arith, o.from, o.below, pow2-suc lev)

abbrev once_of : (lev i : ℕ) → Pool → Bool → Bool × Pool
once_of lev i pool b = if b then (true, pool_pair lev (2 * (i / 2)) pool) else (false, pool)

-- `try_merge_one` never fails: it replaces the two buddies by their parent if both are free, says
-- whether it did, and keeps the lists in order and the blocks apart.
pub try_merge_one-Merged :
    (a : BuddyAllocator) (pool : Pool) (lev i : ℕ)
    → IsLinked a pool
    → IsApart pool (levels a)
    → lev < buddy_levels
    → OnLevel lev i
    → Returns
        (λ b a'. (b ≡ (pool_merge_one lev i pool).0) × Merged a a' (pool_merge_one lev i pool).1)
        (try_merge_one lev i a)
unfolding try_merge_one pool_merge_one
try_merge_one-Merged a pool zero i v apart hl on =
    rw (lies_on_level_lem 0 i on) (returns (refl, unchanged a pool v apart))
try_merge_one-Merged a pool (suc lev) i v apart hl on =
    simp (lies_on_level_lem (suc lev) i on, not_root, even_buddy-double i)
      (Returns-mono (merge_pair-Merged a pool v apart lev (i / 2) hl (half-OnLevel lev i on))
        λ b a' (e, m). rw e (by_cases (both_free (suc lev) (2 * (i / 2)) pool) a' m))
  where
    not_root : (suc lev == 0) ≡ false
    not_root = ground arith

    by_cases :
        (b : Bool) (a' : BuddyAllocator)
        → Merged a a' (if b then pool_pair lev (2 * (i / 2)) pool else pool)
        → (b ≡ (once_of lev i pool b).0) × Merged a a' (once_of lev i pool b).1
    by_cases true a' m = (refl, m)
    by_cases false a' m = (refl, m)

pub IsApart-after :
    {a a' : BuddyAllocator} {pool : Pool} → Merged a a' pool → IsApart pool (levels a')
IsApart-after {a} {a'} {pool} m = subst (IsApart pool) (sym (fun_ext m.same.level)) m.apart

pub Merged-trans :
    {a b c : BuddyAllocator} {pool pool' : Pool}
    → Merged a b pool
    → Merged b c pool'
    → Merged a c pool'
Merged-trans {a} {b} {c} {pool} {pool'} m n = record {
  linked = n.linked;
  apart = subst (IsApart pool') (fun_ext m.same.level) n.apart;
  same = SameBlocks-trans m.same n.same;
}

-- `try_merge_rec` merges upwards as long as both buddies are free, and never fails.
pub try_merge_rec-Merged :
    (lev i : ℕ) (a : BuddyAllocator) (pool : Pool)
    → IsLinked a pool
    → IsApart pool (levels a)
    → lev < buddy_levels
    → OnLevel lev i
    → Returns (λ _ a'. Merged a a' (pool_merge lev i pool)) (try_merge_rec lev i a)
unfolding try_merge_rec pool_merge
try_merge_rec-Merged zero i a pool v apart hl on =
    Returns-bind (try_merge_one-Merged a pool zero i v apart hl on) λ b a' (e, m). returns m
try_merge_rec-Merged (suc lev) i a pool v apart hl on =
    Returns-bind (try_merge_one-Merged a pool (suc lev) i v apart hl on) λ b a' (e, m).
      elim (Bool-cases (pool_merge_one (suc lev) i pool).0) [
        | inl more ↦
            rw (e, more)
              (Returns-mono
                (try_merge_rec-Merged lev (i / 2) a' (pool_merge_one (suc lev) i pool).1 m.linked
                  (IsApart-after m) (omega arith) (half-OnLevel lev i on))
                λ _ a'' n. Merged-trans m n)
        | inr done ↦ rw (e, done) (returns m)
      ]
