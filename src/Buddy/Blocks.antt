-- ===== src/Buddy/Blocks.antt =====
-- What it means for addresses that blocks are apart.
use os_course_term.Common.{ℕ, ◌+◌, ◌-◌, ◌*◌, ◌^◌, ◌≤◌, ◌<◌, ◌≡◌, ◌≢◌, arith, sym, subst₂, true, has}
use os_course_term.Buddy.{BuddyAllocator, buddy_levels, last_lev}
use os_course_term.Buddy.FreeLists.{Pool}
use os_course_term.Buddy.Tree.{up, up_lem, up-not-Unrelated, Unrelated}
use os_course_term.Buddy.GetLevel.{levels}
use os_course_term.Buddy.Pool.{node_of}
use os_course_term.Buddy.Valid.{IsValid}

-- Leaf `x` lies in the block in use from leaf `c` on.
pub record InUse (level : ℕ → ℕ) (c x : ℕ) : Type 0 where
  pub used : level c < buddy_levels
  pub from : c ≤ x
  pub below : x < c + 2 ^ (last_lev - level c)

pub InUse-node :
    {a : BuddyAllocator} {pool : Pool} (c x : ℕ)
    → IsValid a pool
    → InUse (levels a) c x
    → up (last_lev - levels a c) x ≡ node_of (levels a) c
InUse-node {a} c x v h =
    let aligned = v.marks.aligned c h.used in
    up_lem (last_lev - levels a c) (node_of (levels a) c) x (rw aligned h.from)
      (omega (arith, h.below, aligned))

-- No leaf lies in two blocks in use.
pub InUse-unique :
    {a : BuddyAllocator} {pool : Pool} (c d x : ℕ)
    → IsValid a pool
    → InUse (levels a) c x
    → InUse (levels a) d x
    → ¬ (c ≢ d)
InUse-unique {a} c d x v h g ne =
    up-not-Unrelated x (last_lev - levels a c) (last_lev - levels a d) (
      subst₂ Unrelated (sym (InUse-node c x v h)) (sym (InUse-node d x v g))
        (v.apart.used_used c d h.used g.used ne))

-- No leaf lies in a block in use and in a free one.
pub InUse-not-free :
    {a : BuddyAllocator} {pool : Pool} (c lev i x : ℕ)
    → IsValid a pool
    → InUse (levels a) c x
    → lev < buddy_levels
    → has i (pool lev) ≡ true
    → ¬ ((i * 2 ^ (last_lev - lev) ≤ x) × (x < (i + 1) * 2 ^ (last_lev - lev)))
InUse-not-free {a} c lev i x v h hl free (from, below) =
    up-not-Unrelated x (last_lev - levels a c) (last_lev - lev) (
      subst₂ Unrelated (sym (InUse-node c x v h)) (sym (up_lem (last_lev - lev) i x from below))
        (v.apart.used_free c lev i h.used hl free))
