-- ===== src/Buddy/Valid.antt =====
-- The invariant of the allocator between calls.
use os_course_term.Common.{
  ℕ, ◌+◌, ◌-◌, ◌*◌, ◌^◌, ◌≤◌, ◌<◌, ◌≡◌, subst, sym, ap, ◌∙◌, arith, pow2_add,
}
use os_course_term.Buddy.{BuddyAllocator, buddy_levels, last_lev}
use os_course_term.Buddy.FreeLists.{Pool, OnLevel, IsLinked}
use os_course_term.Buddy.Tree.{leaf-OnLevel}
use os_course_term.Buddy.GetLevel.{levels}
use os_course_term.Buddy.Pool.{node_of, IsApart}

-- `allocated_level` is set at the first leaf of each block in use, and is `buddy_levels` at all
-- other indices.
pub record IsMarked (level : ℕ → ℕ) : Type 0 where
  pub capped : (c : ℕ) → level c ≤ buddy_levels
  pub leaf : (c : ℕ) → level c < buddy_levels → OnLevel last_lev c
  pub aligned : (c : ℕ) → level c < buddy_levels → node_of level c * 2 ^ (last_lev - level c) ≡ c

-- The lists of free nodes are linked as the pool says, no two blocks overlap, and the blocks in use
-- are marked.
pub record IsValid (a : BuddyAllocator) (pool : Pool) : Type 0 where
  pub linked : IsLinked a pool
  pub apart : IsApart pool (levels a)
  pub marks : IsMarked (levels a)
  pub small : a.start < 2 ^ 48

-- The first leaf of a block of level `lev`, and where the block starts.
pub block-leaf :
    (lev i : ℕ) → lev < buddy_levels → OnLevel lev i → OnLevel last_lev (i * 2 ^ (last_lev - lev))
block-leaf lev i h o =
    let e : (last_lev - lev) + lev ≡ last_lev = omega arith in
    subst (λ (l : ℕ). OnLevel l (i * 2 ^ (last_lev - lev))) e
      (leaf-OnLevel (last_lev - lev) lev i o)

pub level_product : (lev : ℕ) → lev < buddy_levels → 2 ^ lev * 2 ^ (last_lev - lev) ≡ 2 ^ last_lev
level_product lev h =
    let e : lev + (last_lev - lev) ≡ last_lev = omega arith in
    sym (pow2_add lev (last_lev - lev)) ∙ ap (λ (k : ℕ). 2 ^ k) e
