-- ===== src/Buddy/Init/Done.antt =====
-- The merges at the end of `buddy_init`, and the state that it leaves.
use os_course_term.Common.{
  ℕ, zero, suc, ◌+◌, ◌*◌, ◌/◌, ◌%◌, ◌^◌, ◌≤◌, ◌<◌, ◌≡◌, refl, ◌∙◌, arith, true, false, List, has,
  Returns, returns, Returns-bind, Returns-mono, lt→ltb, ltb, ◌>>◌, ◌⊎◌, inl, inr, Bool-cases,
  dec_lt, died, le→ltb, ne→==, ◌≢◌,
}
use os_course_term.Buddy.{BuddyAllocator, buddy_levels, max_page_size, last_lev}
use os_course_term.Buddy.FreeLists.{Pool}
use os_course_term.Buddy.Tree.{Unrelated-level}
use os_course_term.Buddy.GetLevel.{levels}
use os_course_term.Buddy.Pool.{IsApart}
use os_course_term.Buddy.Pool.Merge.{pool_merge_one}
use os_course_term.Buddy.Merge.{Merged, try_merge_one-Merged, IsApart-after, Merged-trans}
use os_course_term.Buddy.Valid.{IsValid}
use os_course_term.Buddy.Init.{
  InitOperation, apply_ops, merge_pairs, merge_level, merge_levels, buddy_init,
}
use os_course_term.Buddy.Init.Pages.{IsInitial, apply_ops-Marked}
use os_course_term.Buddy.Init.Reset.{IsPadded, reset-IsInitial, no_pages}

-- Only pages are free, and two pages do not overlap.
IsInitial-IsApart : (a : BuddyAllocator) (pool : Pool) → IsInitial a pool → IsApart pool (levels a)
IsInitial-IsApart a pool v = record {
  free_free = λ l m i j hl hm hi hj ne.
      let el = page_level l i hl hi in
      let em = page_level m j hm hj in
      Unrelated-level last_lev i j (rw el at (v.linked.placed l i hl hi))
        (rw em at (v.linked.placed m j hm hj)) ne;
  used_free = λ c m j hc hm hj. absurd (omega (arith, v.unused c));
  used_used = λ c d hc hd ne. absurd (omega (arith, v.unused c));
}
  where
    page_level : (l i : ℕ) → l < buddy_levels → has i (pool l) ≡ true → l ≡ last_lev
    page_level l i hl hi = elim (dec_lt l last_lev) [
      | yes below ↦ let none_free : has i (pool l) ≡ false = rw (v.pages l below) refl in cc
      | no there ↦ omega arith
    ]

abbrev SomeMerged : BuddyAllocator → BuddyAllocator → Type 0
SomeMerged a a' = (pool' : Pool) × Merged a a' pool'

SomeMerged-trans :
    (a b c : BuddyAllocator) (pool : Pool) → Merged a b pool → SomeMerged b c → SomeMerged a c
SomeMerged-trans a b c pool m (pool', n) = (pool', Merged-trans m n)

settled : {a a' : BuddyAllocator} {pool : Pool} → Merged a a' pool → Merged a' a' pool
settled m = record {
  linked = m.linked;
  apart = IsApart-after m;
  same = record { start = refl; level = λ i. refl };
}

unmerged : (a : BuddyAllocator) (pool : Pool) → IsInitial a pool → Merged a a pool
unmerged a pool v = record {
  linked = v.linked;
  apart = IsInitial-IsApart a pool v;
  same = record { start = refl; level = λ i. refl };
}

merge_pairs-Merged :
    (lev rounds i : ℕ) (a : BuddyAllocator) (pool : Pool)
    → Merged a a pool
    → lev < buddy_levels
    → 2 ^ lev ≤ i
    → i + 2 * rounds ≤ 2 * 2 ^ lev + 1
    → Returns (λ _ a'. SomeMerged a a') (merge_pairs lev rounds i a)
unfolding merge_pairs
merge_pairs-Merged lev zero i a pool v hl from to = returns (pool, v)
merge_pairs-Merged lev (suc rounds) i a pool v hl from to =
    Returns-bind
      (try_merge_one-Merged a pool lev i v.linked v.apart hl
        (record { from = from; below = omega arith }))
      λ b a' (e, m).
        Returns-mono
          (merge_pairs-Merged lev rounds (i + 2) a' (pool_merge_one lev i pool).1 (settled m) hl
            (omega arith) (omega arith))
          λ _ a'' n. SomeMerged-trans a a' a'' (pool_merge_one lev i pool).1 m n

merge_level-Merged :
    (lev : ℕ) (a : BuddyAllocator) (pool : Pool)
    → Merged a a pool
    → lev < buddy_levels
    → Returns (λ _ a'. SomeMerged a a') (merge_level lev a)
merge_level-Merged lev a pool v hl =
    merge_pairs-Merged lev ((2 ^ lev + 1) / 2) (2 ^ lev) a pool v hl (omega arith) (omega arith)

merge_levels-Merged :
    (lev : ℕ) (a : BuddyAllocator) (pool : Pool)
    → Merged a a pool
    → lev < buddy_levels
    → Returns (λ _ a'. SomeMerged a a') (merge_levels lev a)
unfolding merge_levels
merge_levels-Merged zero a pool v hl = merge_level-Merged zero a pool v hl
merge_levels-Merged (suc lev) a pool v hl =
    Returns-bind (merge_level-Merged (suc lev) a pool v hl) λ _ a' (pool', m).
      Returns-mono (merge_levels-Merged lev a' pool' (settled m) (omega arith))
        λ _ a'' n. SomeMerged-trans a a' a'' pool' m n

merged-IsValid :
    (a a' : BuddyAllocator) (pool : Pool)
    → IsInitial a pool
    → SomeMerged a a'
    → (pool' : Pool) × IsValid a' pool'
      × (a'.start ≡ a.start)
      × ((c : ℕ) → levels a' c ≡ buddy_levels)
merged-IsValid a a' pool v (pool', m) = (
  pool',
  record {
    linked = m.linked;
    apart = IsApart-after m;
    marks = record {
      capped = λ c. omega (arith, unused c);
      leaf = λ c h. absurd (omega (arith, unused c));
      aligned = λ c h. absurd (omega (arith, unused c));
    };
    small = rw m.same.start v.small;
  },
  m.same.start,
  unused,
)
  where
    unused : (c : ℕ) → levels a' c ≡ buddy_levels
    unused c = m.same.level c ∙ v.unused c

-- For a start of the memory that its asserts accept and any segments, `buddy_init` ends in a state
-- of the invariant with that start and with no block in use.
pub buddy_init-IsValid :
    (a : BuddyAllocator) (start : ℕ) (ops : List InitOperation)
    → IsPadded a
    → start < 2 ^ 48
    → start % max_page_size ≡ 0
    → Returns
        (λ _ a'.
          (pool : Pool) × IsValid a' pool
          × (a'.start ≡ start)
          × ((c : ℕ) → levels a' c ≡ buddy_levels))
        (buddy_init start ops a)
unfolding buddy_init
buddy_init-IsValid a start ops padded small aligned =
    rw (lt→ltb start (2 ^ 48) small, aligned)
      (reset-IsInitial (record a { start = start }) (apply_ops ops >> merge_levels last_lev) padded
        small
        λ b v same. Returns-bind (apply_ops-Marked ops b no_pages v) λ _ c (pool, w, same').
          Returns-mono (merge_levels-Merged last_lev c pool (unmerged c pool w) (omega arith))
            λ _ d m.
              let (pool', valid, kept, unused) = merged-IsValid c d pool w m in
              (pool', valid, kept ∙ same' ∙ same, unused))

-- It halts the machine for any other start.
pub buddy_init-died :
    (a : BuddyAllocator) (start : ℕ) (ops : List InitOperation)
    → (2 ^ 48 ≤ start) ⊎ (start % max_page_size ≢ 0)
    → buddy_init start ops a ≡ died
unfolding buddy_init
buddy_init-died a start ops (inl large) = rw (le→ltb start (2 ^ 48) large) refl
buddy_init-died a start ops (inr unaligned) = elim (Bool-cases (ltb start (2 ^ 48))) [
  | inl small ↦ rw (small, ne→== (start % max_page_size) 0 unaligned) refl
  | inr large ↦ rw large refl
]
