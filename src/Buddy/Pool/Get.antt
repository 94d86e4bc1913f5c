-- ===== src/Buddy/Pool/Get.antt =====
-- An allocation takes a block that overlaps no other.
use os_course_term.Common.{
  ℕ, zero, suc, ◌+◌, ◌*◌, ◌/◌, ◌≤◌, ◌<◌, ◌≡◌, refl, sym, subst, arith, true, false, ◌==◌, Option,
  none, some, List, [], ◌∷◌, has, Distinct, update, Bool-cases, ==_iff, inl, inr, pow2_pos,
  pow2-suc,
}
use os_course_term.Buddy.{buddy_levels}
use os_course_term.Buddy.FreeLists.{Pool, OnLevel, OnLevel-unique}
use os_course_term.Buddy.Tree.{Unrelated, Unrelated-sym, Unrelated-child, Unrelated-siblings}
use os_course_term.Buddy.Pool.{
  push, pool_front, pool_split, pool_get, node_of, IsApart, IsClear, IsApart-Within, IsApart-push,
  Within, has-push,
}

-- A block has been taken out.
pub record Got (level : ℕ → ℕ) (lev : ℕ) (pool : Pool) (r : ℕ × Pool) : Type 0 where
  pub apart : IsApart r.1 level
  pub clear : IsClear r.1 level r.0
  pub above : (m : ℕ) → lev < m → r.1 m ≡ pool m

-- The postcondition of an allocation that may fail.
abbrev pub GotSome : (ℕ → ℕ) → ℕ → Pool → Option (ℕ × Pool) → Type 0
GotSome level lev pool none = Unit {0}
GotSome level lev pool (some r) = Got level lev pool r × OnLevel lev r.0

module _ (level : ℕ → ℕ) (pool : Pool) (a : IsApart pool level)
    (distinct : (l : ℕ) → l < buddy_levels → Distinct (pool l))
    (placed : (l i : ℕ) → l < buddy_levels → has i (pool l) ≡ true → OnLevel l i) where
  Got-first :
      (lev x : ℕ) (xs : List ℕ)
      → lev < buddy_levels
      → pool lev ≡ x ∷ xs
      → Got level lev pool (x, update pool lev xs)
  Got-first lev x xs hl e = record {
    apart = IsApart-Within within a;
    clear = record {
      free = λ l i h m.
          a.free_free l lev i x h hl (within l i h m) (rw e (ground arith))
            (λ q. ground (arith, fresh, placed l i h, placed lev i hl, OnLevel-unique l lev i));
      used = λ c h. a.used_free c lev x h hl (rw e (ground arith));
    };
    above = λ m h. ground arith;
  }
    where
      fresh : has x xs ≡ false
      fresh = (subst Distinct e (distinct lev hl)).0

      within : Within (update pool lev xs) pool
      within l i h m = elim (Bool-cases (l == lev)) [
        | inl here ↦ rw ((==_iff l lev).0 here, e) (ground arith)
        | inr other ↦ rw other at m
      ]

  Got-split :
      (lev : ℕ) (r : ℕ × Pool)
      → suc lev < buddy_levels
      → 1 ≤ r.0
      → pool (suc lev) ≡ []
      → Got level lev pool r
      → Got level (suc lev) pool (2 * r.0, push (suc lev) (2 * r.0 + 1) r.1)
  Got-split lev (p, pool') hl pos empty g = record {
    apart = IsApart-push (suc lev) (2 * p + 1) g.apart (clear-child (2 * p + 1) (omega arith));
    clear = record {
      free = λ l i h m. elim (Bool-cases (i == 2 * p + 1)) [
        | inl right ↦
            subst (λ (k : ℕ). Unrelated k (2 * p)) (sym ((==_iff i (2 * p + 1)).0 right))
              (Unrelated-sym (2 * p) (2 * p + 1) (Unrelated-siblings p pos))
        | inr other ↦
            left.free l i h (has-push (suc lev) (2 * p + 1) pool' l i m (λ e. ground arith))
      ];
      used = left.used;
    };
    above = λ m h. ground (arith, g.above m);
  }
    where
      clear-child : (q : ℕ) → q / 2 ≡ p → IsClear pool' level q
      clear-child q e = record {
        free = λ l i h m. Unrelated-child i p q e (g.clear.free l i h m);
        used = λ c h. Unrelated-child (node_of level c) p q e (g.clear.used c h);
      }

      left : IsClear pool' level (2 * p)
      left = clear-child (2 * p) (omega arith)

  Got-front :
      (lev : ℕ) (xs : List ℕ) (otherwise : Option (ℕ × Pool))
      → lev < buddy_levels
      → pool lev ≡ xs
      → (xs ≡ [] → GotSome level lev pool otherwise)
      → GotSome level lev pool (pool_front lev xs pool otherwise)
  Got-front lev [] otherwise hl e next = next refl
  Got-front lev (x ∷ xs) otherwise hl e next =
      (Got-first lev x xs hl e, placed lev x hl (rw e (ground arith)))

  GotSome-split :
      (lev : ℕ) (o : Option (ℕ × Pool))
      → suc lev < buddy_levels
      → pool (suc lev) ≡ []
      → GotSome level lev pool o
      → GotSome level (suc lev) pool (pool_split (suc lev) o)
  GotSome-split lev none hl e g = tt
  GotSome-split lev (some (p, pool')) hl e (g, o) = (
    Got-split lev (p, pool') hl (omega (arith, o.from, pow2_pos lev)) e g,
    omega (arith, o.from, o.below, pow2-suc lev),
  )

  -- The node that `pool_get` returns lies on the level that was asked for and overlaps no block that
  -- is free afterwards or in use, and no two of those overlap.
  pub pool_get-Got : (lev : ℕ) → lev < buddy_levels → GotSome level lev pool (pool_get lev pool)
  unfolding pool_get
  pool_get-Got zero hl = Got-front 0 (pool 0) none hl refl (λ _. tt)
  pool_get-Got (suc lev) hl =
      Got-front (suc lev) (pool (suc lev)) (pool_split (suc lev) (pool_get lev pool)) hl refl
        (λ e. GotSome-split lev (pool_get lev pool) hl e (pool_get-Got lev (omega arith)))
