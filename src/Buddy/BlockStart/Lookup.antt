-- ===== src/Buddy/BlockStart/Lookup.antt =====
-- What `buddy_get_block_start` answers.
use os_course_term.Common.{
  ℕ, zero, suc, ◌+◌, ◌-◌, ◌*◌, ◌/◌, ◌^◌, ◌≤◌, ◌<◌, ◌≡◌, arith, sym, true, false, ◌∙◌, ap, ◌==◌,
  Bool-cases, inl, inr, lt→ltb, le→leb, lt→leb, dec_le, ok, died, add64, leb, assert, ◌>>◌, fault,
}
use os_course_term.Buddy.{
  BuddyAllocator, BuddyCmd, buddy_levels, last_lev, last_lev_start, max_page_size, min_page_size,
  leaf_of, in_range, climb, climb_step, info, buddy_get_block_start,
}
use os_course_term.Buddy.FreeLists.{Pool, OnLevel}
use os_course_term.Buddy.Tree.{up, up_bounds}
use os_course_term.Buddy.GetLevel.{levels}
use os_course_term.Buddy.Merge.{lies_on_level_lem}
use os_course_term.Buddy.Pool.{node_of}
use os_course_term.Buddy.Valid.{IsValid}
use os_course_term.Buddy.Blocks.{InUse}
use os_course_term.Buddy.BlockStart.{
  anc, probe, anc-OnLevel, probe-lt, up-probe, anc-half, missed, step_up, climb-in-use,
}

module _ (a : BuddyAllocator) (pool : Pool) (v : IsValid a pool) (x : ℕ) (leaf : OnLevel last_lev x)
    (unused : (c : ℕ) → ¬ InUse (levels a) c x) where
  -- A marked leaf that is met on the way up belongs to a deeper block.
  probe-deeper :
      (lev : ℕ)
      → lev < buddy_levels
      → levels a (probe lev x) < buddy_levels
      → lev < levels a (probe lev x)
  probe-deeper lev h used = elim (dec_le (levels a (probe lev x)) lev) [
    | no g ↦ omega arith
    | yes le ↦
        let d : ℕ = levels a (probe lev x) in
        let e : node_of (levels a) (probe lev x) ≡ up (last_lev - d) x =
          up-probe a pool v x leaf lev d h le in
        let start : up (last_lev - d) x * 2 ^ (last_lev - d) ≡ probe lev x =
          ap (λ (k : ℕ). k * 2 ^ (last_lev - d)) (sym e) ∙ v.marks.aligned (probe lev x) used in
        let (from, below) = up_bounds (last_lev - d) x in
        absurd
          (unused (probe lev x) (record { used = used; from = omega arith; below = omega arith }))
  ]

  refused :
      (lev : ℕ) (next : BuddyCmd ℕ)
      → lev < buddy_levels
      → (levels a (probe lev x) == buddy_levels) ≡ false
      → climb_step lev (anc lev x) next a ≡ died
  unfolding climb_step info
  refused lev next h some = simp (
    lies_on_level_lem lev (anc lev x) (anc-OnLevel a pool v x leaf lev h),
    lt→ltb _ _ (probe-lt a pool v x leaf lev h),
    some,
    lt→leb (levels a (probe lev x)) lev
        (probe-deeper lev h (ground (arith, v.marks.capped (probe lev x)))),
  )

  -- Above the root there is nothing: `assert(i >= 1)` fails.
  at_root : ◌>>◌ {B = ℕ} (assert (leb 1 (anc 0 x / 2))) (λ _. fault) a ≡ died
  at_root =
      let o = anc-OnLevel a pool v x leaf 0 (omega arith) in
      rw (lt→leb 1 (anc 0 x / 2) (omega (arith, o.from, o.below)))

  climb-unused : (lev : ℕ) → lev < buddy_levels → climb lev (anc lev x) a ≡ died
  unfolding climb
  climb-unused zero h = elim (Bool-cases (levels a (probe zero x) == buddy_levels)) [
    | inl blank ↦ missed a pool v x leaf 0 _ h blank ∙ at_root
    | inr some ↦ refused zero _ h some
  ]
  climb-unused (suc lev) h = elim (Bool-cases (levels a (probe (suc lev) x) == buddy_levels)) [
    | inl blank ↦
        missed a pool v x leaf (suc lev) _ h blank
        ∙ step_up a pool v x leaf lev h (climb lev (anc (suc lev) x / 2))
        ∙ ap (λ (k : ℕ). climb lev k a) (anc-half a pool v x leaf lev h)
        ∙ climb-unused lev (omega arith)
    | inr some ↦ refused (suc lev) _ h some
  ]

pub in_range_bounds :
    (a : BuddyAllocator) (ptr : ℕ)
    → a.start < 2 ^ 48
    → in_range ptr a ≡ true
    → (a.start ≤ ptr) × (ptr < a.start + max_page_size)
in_range_bounds a ptr small inside = (ground arith, ground arith)

module _ (a : BuddyAllocator) (pool : Pool) (v : IsValid a pool) (ptr : ℕ) (from : a.start ≤ ptr)
    (below : ptr < a.start + max_page_size) where
  pub leaf_of-OnLevel : OnLevel last_lev (leaf_of ptr a)
  leaf_of-OnLevel = omega (arith, v.small, from, below)

  pub in_range_lem : in_range ptr a ≡ true
  in_range_lem =
      let e : add64 a.start max_page_size ≡ a.start + max_page_size = omega (arith, v.small) in
      rw (le→leb a.start ptr from, e, lt→ltb ptr (a.start + max_page_size) below)

  -- `buddy_get_block_start` returns the start of the block in use that the address lies in, and
  -- leaves the allocator as it is.
  pub get_block_start-InUse :
      (c : ℕ)
      → InUse (levels a) c (leaf_of ptr a)
      → buddy_get_block_start ptr a ≡ ok (a.start + (c - last_lev_start) * min_page_size) a
  unfolding buddy_get_block_start up
  get_block_start-InUse c h =
      let leaf = leaf_of-OnLevel in
      rw in_range_lem (
        climb-in-use a pool v (leaf_of ptr a) leaf_of-OnLevel c h last_lev (omega arith)
          (omega (arith, h.used))
        ∙ ap (λ (k : ℕ). ok k a) (omega (arith, v.small, h.from, leaf.from, leaf.below)))

  get_block_start_died :
      ((c : ℕ) → ¬ InUse (levels a) c (leaf_of ptr a)) → buddy_get_block_start ptr a ≡ died
  unfolding buddy_get_block_start up
  get_block_start_died unused =
      rw in_range_lem
        (climb-unused a pool v (leaf_of ptr a) leaf_of-OnLevel unused last_lev (omega arith))

-- On any address `buddy_get_block_start` halts the machine unless the address is in the memory of
-- the allocator and a block in use covers its page.
pub get_block_start-unused :
    (a : BuddyAllocator) (pool : Pool) (ptr : ℕ)
    → IsValid a pool
    → ((c : ℕ)
        → a.start ≤ ptr
        → ptr < a.start + max_page_size
        → ¬ InUse (levels a) c (leaf_of ptr a))
    → buddy_get_block_start ptr a ≡ died
unfolding buddy_get_block_start
get_block_start-unused a pool ptr v unused = elim (Bool-cases (in_range ptr a)) [
  | inl inside ↦
      let (from, below) = in_range_bounds a ptr v.small inside in
      get_block_start_died a pool v ptr from below (λ c. unused c from below)
  | inr outside ↦ simp outside
]
