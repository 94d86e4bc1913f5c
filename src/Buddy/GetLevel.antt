-- ===== src/Buddy/GetLevel.antt =====
-- `get_from_level` of buddy.c refines the abstract allocation.
use os_course_term.Common.{
  ℕ, zero, suc, ◌+◌, ◌*◌, ◌<◌, ◌≡◌, refl, ◌∙◌, subst, arith, true, Option, none, some, List, [],
  ◌∷◌, has, update, ==_refl, Outcome, Returns, returns, Returns-bind, died, and_then, lt→ltb,
  minus_one, pure, pow2-suc,
}
use os_course_term.Buddy.{BuddyAllocator, BuddyCmd, buddy_levels, first_or, get_from_level, add_one}
use os_course_term.Buddy.Chains.{Chain}
use os_course_term.Buddy.FreeLists.{Pool, IsLinked, SameBlocks}
use os_course_term.Buddy.FreeLists.Add.{add_one-IsLinked}
use os_course_term.Buddy.FreeLists.Remove.{remove_one-IsLinked}
use os_course_term.Buddy.Pool.{pool_front, pool_split, pool_get, IsApart}
use os_course_term.Buddy.Pool.Get.{GotSome, pool_get-Got}

-- The `allocated_level` of each leaf.
abbrev pub levels : BuddyAllocator → ℕ → ℕ
levels a c = (a.buddies c).allocated_level

-- The code halts the machine where the abstract allocation fails, and otherwise returns its node in
-- a state that is linked as the abstract one.
abbrev pub Refines : BuddyAllocator → Option (ℕ × Pool) → Outcome BuddyAllocator ℕ → Type 0
Refines a none r = r ≡ died
Refines a (some (i, pool')) r = Returns (λ j a'. (j ≡ i) × IsLinked a' pool' × SameBlocks a a') r

pub SameBlocks-trans : {a b c : BuddyAllocator} → SameBlocks a b → SameBlocks b c → SameBlocks a c
SameBlocks-trans p q = record { start = q.start ∙ p.start; level = λ i. q.level i ∙ p.level i }

module _ (a : BuddyAllocator) (pool : Pool) (v : IsLinked a pool) where
  first_or-Refines :
      (lev : ℕ) (xs : List ℕ) (otherwise : BuddyCmd ℕ) (o : Option (ℕ × Pool))
      → lev < buddy_levels
      → pool lev ≡ xs
      → (xs ≡ [] → Refines a o (otherwise a))
      → Refines a (pool_front lev xs pool o) (first_or lev (a.firsts lev) otherwise a)
  unfolding first_or
  first_or-Refines lev [] otherwise o hl e next =
      let none_free : a.firsts lev ≡ minus_one =
        subst (Chain a.buddies minus_one (a.firsts lev)) e (v.chain lev hl) in
      rw none_free (next refl)
  first_or-Refines lev (x ∷ xs) otherwise o hl e next =
      let c : Chain a.buddies minus_one (a.firsts lev) (x ∷ xs) =
        subst (Chain a.buddies minus_one (a.firsts lev)) e (v.chain lev hl) in
      let member : has x (pool lev) ≡ true = rw (e, ==_refl x) refl in
      rw c.0 (
        Returns-bind (remove_one-IsLinked a pool v lev x hl member) λ _ a' (w, same). returns (
          refl,
          subst (λ (ys : List ℕ). IsLinked a' (update pool lev ys)) (rw (e, ==_refl x) refl) w,
          same,
        ))

  split-Refines :
      (lev : ℕ) (o : Option (ℕ × Pool))
      → suc lev < buddy_levels
      → pool (suc lev) ≡ []
      → GotSome (levels a) lev pool o
      → Refines a o (get_from_level lev a)
      → Refines a (pool_split (suc lev) o) (
          and_then
            (get_from_level lev a)
            λ parent s. and_then (add_one (suc lev) (2 * parent + 1) s) λ _. pure (2 * parent))
  split-Refines lev none hl e g r = rw r
  split-Refines lev (some (p, pool')) hl e (g, o) r = Returns-bind r λ parent a' (q, w, same).
      rw q (
        Returns-bind
          (add_one-IsLinked a' pool' w (suc lev) (2 * p + 1) hl
            (omega (arith, o.from, o.below, pow2-suc lev))
            (rw (g.above (suc lev) (omega arith), e)))
          λ _ a'' (w', same'). returns (refl, w', SameBlocks-trans same same'))

  -- On a linked state whose blocks are apart, `get_from_level` returns what the abstract allocation
  -- returns, and halts the machine exactly where that one fails.
  pub get_from_level-Refines :
      (lev : ℕ)
      → lev < buddy_levels
      → IsApart pool (levels a)
      → Refines a (pool_get lev pool) (get_from_level lev a)
  unfolding get_from_level pool_get
  get_from_level-Refines zero hl apart = first_or-Refines 0 (pool 0) _ none hl refl (λ _. refl)
  get_from_level-Refines (suc lev) hl apart = rw (lt→ltb (suc lev) buddy_levels hl) (
      first_or-Refines (suc lev) (pool (suc lev)) _ (pool_split (suc lev) (pool_get lev pool)) hl
        refl
        (λ e.
          split-Refines lev (pool_get lev pool) hl e
            (pool_get-Got (levels a) pool apart v.distinct v.placed lev (omega arith))
            (get_from_level-Refines lev (omega arith) apart)))
