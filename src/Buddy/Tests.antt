-- ===== src/Buddy/Tests.antt =====
-- Two allocators, runs of buddy.c on them, and the theorems at them.
use os_course_term.Common.{
  ℕ, zero, suc, ◌+◌, ◌^◌, ◌<◌, ◌≡◌, ◌⊎◌, arith, refl, true, false, [], ◌∷◌, has, ◌==◌,
  if◌then◌else◌, ok, died, Returns, pos, minus_one, Option, none, some, inl, inr, Bool-cases,
  ==_iff, Outcome, pow2-suc, pow2_pos, fault, blocked, ◌>>=◌,
}
use os_course_term.Buddy.{
  fit_level, alloc_on_level, first_or, unlink_prev, unlink_next, info, set_info, first, set_first,
  BuddyAllocator, buddy_levels, last_lev, last_lev_start, leaf_of, add_one, remove_one,
  get_from_level, try_merge_rec, buddy_alloc, buddy_free, buddy_get_block_start,
}
use os_course_term.Buddy.FreeLists.{Pool, OnLevel, IsLinked}
use os_course_term.Buddy.Chains.{Chain}
use os_course_term.Buddy.Tree.{up}
use os_course_term.Buddy.GetLevel.{levels, Refines, get_from_level-Refines}
use os_course_term.Buddy.Merge.{Merged, try_merge_rec-Merged}
use os_course_term.Buddy.Pool.{push, node_of, pool_get, IsApart}
use os_course_term.Buddy.Pool.Merge.{pool_merge}
use os_course_term.Buddy.Valid.{IsValid}
use os_course_term.Buddy.Alloc.{AllocatesOn}
use os_course_term.Buddy.Fit.{Fits, buddy_alloc-AllocatesOn}
use os_course_term.Buddy.Blocks.{InUse}
use os_course_term.Buddy.BlockStart.Lookup.{get_block_start-InUse, get_block_start-unused}
use os_course_term.Buddy.Free.{Freed, buddy_free-Freed, buddy_free-unused}
use os_course_term.Buddy.Fresh.{IsFresh, buddy_alloc-IsFresh}

-- All of the memory is one free block.
abbrev pub all_free : BuddyAllocator
all_free = record {
  start = 2 ^ 30;
  buddies = λ i. record {
    prev_free = minus_one;
    next_free = minus_one;
    is_free = i == 1;
    allocated_level = buddy_levels;
  };
  firsts = λ lev. if lev == 0 then pos 1 else minus_one;
}

abbrev pub all_free_pool : Pool
all_free_pool lev = if lev == 0 then 1 ∷ [] else []

-- All of the memory is one block in use.
abbrev pub all_used : BuddyAllocator
all_used = record {
  start = 2 ^ 30;
  buddies = λ i. record {
    prev_free = minus_one;
    next_free = minus_one;
    is_free = false;
    allocated_level = if i == last_lev_start then 0 else buddy_levels;
  };
  firsts = λ lev. minus_one;
}

abbrev pub all_used_pool : Pool
all_used_pool lev = []

all_free-IsLinked : IsLinked all_free all_free_pool
all_free-IsLinked = record {
  chain = chain;
  distinct = λ lev h. ground arith;
  placed = placed;
  flagged = flagged;
  loose = λ i h. (refl, refl);
}
  where
    chain :
        (lev : ℕ)
        → lev < buddy_levels
        → Chain all_free.buddies minus_one (all_free.firsts lev) (all_free_pool lev)
    chain zero h = (refl, refl, refl)
    chain (suc lev) h = ground arith

    placed : (lev i : ℕ) → lev < buddy_levels → has i (all_free_pool lev) ≡ true → OnLevel lev i
    placed zero i h m = ground arith
    placed (suc lev) i h m = ground arith

    flagged :
        (lev i : ℕ)
        → lev < buddy_levels
        → OnLevel lev i
        → (all_free.buddies i).is_free ≡ has i (all_free_pool lev)
    flagged zero i h o = ground arith
    flagged (suc lev) i h o = ground (arith, o, pow2-suc lev, pow2_pos lev)

all_free-IsApart : IsApart all_free_pool (levels all_free)
all_free-IsApart = record {
  free_free = λ l m i j hl hm hi hj ne. absurd (ground arith);
  used_free = λ c m j hc hm hj. absurd (omega arith);
  used_used = λ c d hc hd ne. absurd (omega arith);
}

pub all_free-IsValid : IsValid all_free all_free_pool
all_free-IsValid = record {
  linked = all_free-IsLinked;
  apart = all_free-IsApart;
  marks = record {
    capped = λ c. omega arith;
    leaf = λ c h. absurd (omega arith);
    aligned = λ c h. absurd (omega arith);
  };
  small = omega arith;
}

pub all_used-IsValid : IsValid all_used all_used_pool
unfolding up
all_used-IsValid = record {
  linked = record {
    chain = λ lev h. refl;
    distinct = λ lev h. tt;
    placed = λ lev i h m. absurd (cc);
    flagged = λ lev i h o. refl;
    loose = λ i h. (refl, refl);
  };
  apart = record {
    free_free = λ l m i j hl hm hi hj ne. absurd (cc);
    used_free = λ c m j hc hm hj. absurd (cc);
    used_used = λ c d hc hd ne. absurd (ground arith);
  };
  marks = record {
    capped = λ c. ground arith;
    leaf = λ c h. ground arith;
    aligned = λ c h. elim (Bool-cases (c == last_lev_start)) [
      | inl e ↦ rw ((==_iff c last_lev_start).0 e) refl
      | inr e ↦ absurd (ground arith)
    ];
  };
  small = omega arith;
}

abbrev value_of : Outcome BuddyAllocator ℕ → Option ℕ
value_of (ok n a) = some n
value_of died = none
value_of fault = none
value_of blocked = none

-- The first page comes from the left end of the memory, after eighteen splits.
alloc_page : value_of (buddy_alloc 4096 all_free) ≡ some (2 ^ 30)
unfolding buddy_alloc get_from_level add_one remove_one
alloc_page = refl

alloc_two_pages :
    value_of ((buddy_alloc 4096 >>= λ _. buddy_alloc 5000) all_free) ≡ some (2 ^ 30 + 8192)
unfolding buddy_alloc get_from_level add_one remove_one
alloc_two_pages = refl

find_inside : value_of (buddy_get_block_start (2 ^ 30 + 70000) all_used) ≡ some (2 ^ 30)
unfolding buddy_get_block_start
find_inside = refl

root-InUse : InUse (levels all_used) last_lev_start (leaf_of (2 ^ 30 + 70000) all_used)
root-InUse = record { used = omega arith; from = omega arith; below = omega arith }

nothing-InUse : (c : ℕ) → ¬ InUse (levels all_free) c (leaf_of (2 ^ 30 + 70000) all_free)
nothing-InUse c h = absurd (omega (arith, h.used))

get_from_level-Refines_example :
    Refines all_free (pool_get 18 all_free_pool) (get_from_level 18 all_free)
get_from_level-Refines_example =
    get_from_level-Refines all_free all_free_pool all_free-IsLinked 18 (omega arith)
      all_free-IsApart

try_merge_rec-Merged_example :
    Returns (λ _ a'. Merged all_free a' (pool_merge 0 1 all_free_pool)) (try_merge_rec 0 1 all_free)
try_merge_rec-Merged_example =
    try_merge_rec-Merged 0 1 all_free all_free_pool all_free-IsLinked all_free-IsApart (omega arith)
      (omega arith)

buddy_alloc-AllocatesOn_example :
    (lev : ℕ) × Fits last_lev 5000 lev
    × AllocatesOn all_free lev (pool_get lev all_free_pool) (buddy_alloc 5000 all_free)
buddy_alloc-AllocatesOn_example =
    buddy_alloc-AllocatesOn all_free all_free_pool 5000 all_free-IsValid (omega arith) (omega arith)

buddy_alloc-IsFresh_example :
    (buddy_alloc 5000 all_free ≡ died)
    ⊎ Returns (λ ptr _. IsFresh all_free 5000 ptr) (buddy_alloc 5000 all_free)
buddy_alloc-IsFresh_example =
    buddy_alloc-IsFresh all_free all_free_pool 5000 all_free-IsValid (omega arith) (omega arith)

get_block_start-InUse_example :
    buddy_get_block_start (2 ^ 30 + 70000) all_used ≡ ok (2 ^ 30) all_used
get_block_start-InUse_example =
    get_block_start-InUse all_used all_used_pool all_used-IsValid (2 ^ 30 + 70000) (omega arith)
      (omega arith) last_lev_start root-InUse

get_block_start-unused_example :
    (buddy_get_block_start (2 ^ 30 + 70000) all_free ≡ died)
    × (buddy_get_block_start 4096 all_used ≡ died)
get_block_start-unused_example = (
  get_block_start-unused all_free all_free_pool (2 ^ 30 + 70000) all_free-IsValid
      (λ c h g. nothing-InUse c),
  get_block_start-unused all_used all_used_pool 4096 all_used-IsValid
      (λ c h g. absurd (omega arith)),
)

buddy_free-Freed_example :
    Returns
      (λ _ a'.
        Freed all_used a'
          (pool_merge 0
            (node_of (levels all_used) last_lev_start)
            (push 0 (node_of (levels all_used) last_lev_start) all_used_pool))
          last_lev_start)
      (buddy_free (2 ^ 30) all_used)
buddy_free-Freed_example =
    buddy_free-Freed all_used all_used_pool all_used-IsValid last_lev_start (omega arith)

-- Inside a block in use, and outside of the memory.
buddy_free-unused_example :
    (buddy_free (2 ^ 30 + 17) all_used ≡ died) × (buddy_free 4096 all_used ≡ died)
buddy_free-unused_example = (
  buddy_free-unused all_used all_used_pool (2 ^ 30 + 17) all_used-IsValid (λ c h e. ground arith),
  buddy_free-unused all_used all_used_pool 4096 all_used-IsValid (λ c h e. omega (arith, e)),
)

-- The first 8192 bytes are one free block.
abbrev pub one_free : BuddyAllocator
one_free = record {
  start = 0;
  buddies = λ i. record {
    prev_free = minus_one;
    next_free = minus_one;
    is_free = i == 2 ^ 17;
    allocated_level = buddy_levels;
  };
  firsts = λ lev. if lev == 17 then pos (2 ^ 17) else minus_one;
}

pub one_free_taken : (a' : BuddyAllocator) × (buddy_alloc 8192 one_free ≡ ok 0 a')
unfolding buddy_alloc fit_level alloc_on_level get_from_level first_or remove_one unlink_prev
    unlink_next info set_info first set_first
one_free_taken = (_, refl)
