-- ===== src/Buddy/FreeLists.antt =====
-- The free lists of `struct buddy_allocator`: which node is linked where, and that `add_one` and
-- `remove_one` keep the links in order.
pub mod Add
pub mod Remove
use os_course_term.Common.{
  ℕ, zero, suc, ◌+◌, ◌*◌, ◌^◌, ◌≤◌, ◌<◌, ◌≡◌, refl, ◌≢◌, ◌⊎◌, inl, inr, sym, subst, subst₂, ◌∙◌,
  true, false, ◌==◌, if◌then◌else◌, arith, List, [], ◌∷◌, has, remove, Distinct, Distinct-remove,
  has-remove_ne, has-remove_self, ℤ, pos, negsuc, minus_one, eq_ℤ, Bool, Bool-cases, ==_iff, update,
  ok, pow2-suc, pow2_mono, pow2_pos, Returns, returns, dec_lt, update_self, update_ne,
}
use os_course_term.Buddy.{BuddyInfo, BuddyAllocator, buddies_cnt, buddy_levels, add_one, remove_one}
use os_course_term.Buddy.Links.{
  Buddies, Link, PrevLink, NextLink, Apart, relink_add, relink_remove, relink_first,
  add_one-relinks, remove_one-relinks,
}
use os_course_term.Buddy.Chains.{
  Chain, SameLinks, Chain-frame, Chain-add, Chain-remove, Neighbours, Chain-Neighbours,
  start_without,
}

-- The free nodes of each level, in the order of the list.
abbrev pub Pool : Type 0
Pool = ℕ → List ℕ

pub record OnLevel (lev i : ℕ) : Type 0 where
  pub from : 2 ^ lev ≤ i
  pub below : i < 2 * 2 ^ lev

pub OnLevel-lt : (lev i : ℕ) → lev < buddy_levels → OnLevel lev i → i < buddies_cnt
OnLevel-lt lev i h o = omega (arith, o.below, pow2_mono lev 18 (omega arith))

OnLevel-not-lt : (l m i : ℕ) → OnLevel l i → OnLevel m i → ¬ (l < m)
OnLevel-not-lt l m i o q h =
    absurd (omega (arith, o.below, q.from, pow2-suc l, pow2_mono (suc l) m h))

pub OnLevel-unique : (l m i : ℕ) → OnLevel l i → OnLevel m i → l ≡ m
OnLevel-unique l m i o q = omega (arith, OnLevel-not-lt l m i o q, OnLevel-not-lt m l i q o)

pub record IsLinked (a : BuddyAllocator) (pool : Pool) : Type 0 where
  pub chain : (lev : ℕ) → lev < buddy_levels → Chain a.buddies minus_one (a.firsts lev) (pool lev)
  pub distinct : (lev : ℕ) → lev < buddy_levels → Distinct (pool lev)
  pub placed : (lev i : ℕ) → lev < buddy_levels → has i (pool lev) ≡ true → OnLevel lev i
  pub flagged :
      (lev i : ℕ) → lev < buddy_levels → OnLevel lev i → (a.buddies i).is_free ≡ has i (pool lev)
  pub loose :
      (i : ℕ)
      → (a.buddies i).is_free ≡ false
      → ((a.buddies i).prev_free ≡ minus_one) × ((a.buddies i).next_free ≡ minus_one)

-- Nothing but the free lists has changed.
pub record SameBlocks (a a' : BuddyAllocator) : Type 0 where
  pub start : a'.start ≡ a.start
  pub level : (i : ℕ) → (a'.buddies i).allocated_level ≡ (a.buddies i).allocated_level

-- The links do not depend on the levels of blocks in use.
pub IsLinked-cong :
    {a a' : BuddyAllocator} {pool : Pool}
    → ((lev : ℕ) → a'.firsts lev ≡ a.firsts lev)
    → ((i : ℕ)
        → SameLinks a.buddies a'.buddies i × ((a'.buddies i).is_free ≡ (a.buddies i).is_free))
    → IsLinked a pool
    → IsLinked a' pool
IsLinked-cong {a} {a'} {pool} firsts same v = record {
  chain = λ lev h.
      Chain-frame a.buddies a'.buddies minus_one (a'.firsts lev) (pool lev) (λ j _. (same j).0)
        (rw (firsts lev) (v.chain lev h));
  distinct = v.distinct;
  placed = v.placed;
  flagged = λ lev i h o. (same i).1 ∙ v.flagged lev i h o;
  loose =
      λ i h. let (p, n) = v.loose i (sym (same i).1 ∙ h) in ((same i).0.0 ∙ p, (same i).0.1 ∙ n);
}
