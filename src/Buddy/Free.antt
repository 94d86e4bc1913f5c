-- ===== src/Buddy/Free.antt =====
-- `buddy_free` of buddy.c.
use os_course_term.Common.{
  ℕ, ◌+◌, ◌-◌, ◌*◌, ◌/◌, ◌%◌, ◌^◌, ◌≤◌, ◌<◌, ◌≡◌, ◌≢◌, arith, sym, subst, fun_ext, refl, false, has,
  update, ◌∙◌, ◌==◌, Bool-cases, inl, inr, lt→ltb, ltb, ==_iff, died, sub64, Returns, Returns-bind,
  Returns-mono, pow2_pos, sub_mul_split,
}
use os_course_term.Buddy.{
  BuddyAllocator, buddy_levels, buddy_size, last_lev, last_lev_start, min_page_size, in_range,
  leaf_of, buddy_free, free_on_level, set_level,
}
use os_course_term.Buddy.FreeLists.{Pool, OnLevel, OnLevel-lt, IsLinked, IsLinked-cong, SameBlocks}
use os_course_term.Buddy.FreeLists.Add.{add_one-IsLinked}
use os_course_term.Buddy.Tree.{up, Unrelated-sym, up-OnLevel}
use os_course_term.Buddy.GetLevel.{levels}
use os_course_term.Buddy.Merge.{Merged, lies_on_level_lem, try_merge_rec-Merged, IsApart-after}
use os_course_term.Buddy.Pool.{push, node_of, IsApart, IsClear, IsApart-push}
use os_course_term.Buddy.Pool.Merge.{pool_merge}
use os_course_term.Buddy.Valid.{IsValid, IsMarked, level_product}
use os_course_term.Buddy.BlockStart.Lookup.{in_range_lem, in_range_bounds, leaf_of-OnLevel}

div_exact : (x m : ℕ) → 1 ≤ m → x * m / m ≡ x
div_exact x m h = grind arith

mod_exact : (x m : ℕ) → 1 ≤ m → x * m % m ≡ 0
mod_exact x m h = grind arith

-- Where the block of leaf `c` starts.
abbrev pub leaf_address : BuddyAllocator → ℕ → ℕ
leaf_address a c = a.start + (c - last_lev_start) * min_page_size

-- The levels once the block at leaf `c` is no longer in use.
abbrev pub cleared : (ℕ → ℕ) → ℕ → ℕ → ℕ
cleared level c = update level c buddy_levels

-- The blocks in use are as before, but for the one that is given back.
pub record Freed (a a' : BuddyAllocator) (pool' : Pool) (c : ℕ) : Type 0 where
  pub valid : IsValid a' pool'
  pub start : a'.start ≡ a.start
  pub level : (d : ℕ) → levels a' d ≡ cleared (levels a) c d

module _ (level : ℕ → ℕ) (c : ℕ) where
  -- A block that is still in use was in use before.
  pub kept :
      (d : ℕ)
      → cleared level c d < buddy_levels
      → (d ≢ c) × (level d < buddy_levels) × (cleared level c d ≡ level d)
  kept d h = elim (Bool-cases (d == c)) [
    | inl same ↦ absurd (omega (arith, rw same at h))
    | inr other ↦ (λ e. ground arith, rw other at h, rw other refl)
  ]

  cleared-IsMarked : IsMarked level → IsMarked (cleared level c)
  cleared-IsMarked m = record {
    capped = λ d. ground (arith, m.capped d);
    leaf = λ d h. m.leaf d (kept d h).1;
    aligned = λ d h. rw (kept d h).2 (m.aligned d (kept d h).1);
  }

  cleared-IsApart : {pool : Pool} → IsApart pool level → IsApart pool (cleared level c)
  cleared-IsApart a = record {
    free_free = a.free_free;
    used_free = λ d m j hd hm hj. rw (kept d hd).2 (a.used_free d m j (kept d hd).1 hm hj);
    used_used = λ d e hd he ne.
        rw ((kept d hd).2, (kept e he).2) (a.used_used d e (kept d hd).1 (kept e he).1 ne);
  }

  -- Nothing overlaps the block that was given back.
  cleared-IsClear :
      {pool : Pool}
      → level c < buddy_levels
      → IsApart pool level
      → IsClear pool (cleared level c) (node_of level c)
  cleared-IsClear h a = record {
    free = λ l i hl hi. Unrelated-sym (node_of level c) i (a.used_free c l i h hl hi);
    used = λ d hd. rw (kept d hd).2 (a.used_used d c (kept d hd).1 h (kept d hd).0);
  }

module _ (a : BuddyAllocator) (pool : Pool) (v : IsValid a pool) (c : ℕ)
    (used : levels a c < buddy_levels) where
  abbrev lev : ℕ
  lev = levels a c

  abbrev node : ℕ
  node = node_of (levels a) c

  -- The state once the mark is gone.
  abbrev unmarked : BuddyAllocator
  unmarked = record a { buddies = update a.buddies c (set_level buddy_levels (a.buddies c)) }

  unmarked-level : (d : ℕ) → levels unmarked d ≡ cleared (levels a) c d
  unmarked-level d = ground arith

  unmarked-IsLinked : IsLinked unmarked pool
  unmarked-IsLinked = IsLinked-cong (λ l. refl) (λ j. (ground arith, ground arith)) v.linked

  pub node-OnLevel : OnLevel lev node
  node-OnLevel =
      let e : (last_lev - lev) + lev ≡ last_lev = omega (arith, used) in
      up-OnLevel (last_lev - lev) lev c
        (subst (λ (l : ℕ). OnLevel l c) (sym e) (v.marks.leaf c used))

  node-fresh : has node (pool lev) ≡ false
  unfolding up
  node-fresh = elim (Bool-cases (has node (pool lev))) [
    | inl m ↦ absurd ((v.apart.used_free c lev node used used m 0).0 refl)
    | inr n ↦ n
  ]

  -- The offset of the block is a multiple of its size.
  offset : (c - last_lev_start) * min_page_size ≡ (node - 2 ^ lev) * buddy_size lev
  offset = omega (arith, v.marks.aligned c used, level_product lev used, scaled)
    where
      scaled :
          (node - 2 ^ lev) * 2 ^ (last_lev - lev) + 2 ^ lev * 2 ^ (last_lev - lev)
          ≡ node * 2 ^ (last_lev - lev)
      scaled = let o = node-OnLevel in sub_mul_split node (2 ^ lev) (2 ^ (last_lev - lev)) o.from

  unmarked-IsApart : IsApart pool (levels unmarked)
  unmarked-IsApart =
      subst (IsApart pool) (sym (fun_ext unmarked-level)) (cleared-IsApart (levels a) c v.apart)

  pushed-IsApart : IsApart (push lev node pool) (levels unmarked)
  pushed-IsApart = IsApart-push lev node unmarked-IsApart (
      subst (λ (f : ℕ → ℕ). IsClear pool f node) (sym (fun_ext unmarked-level))
        (cleared-IsClear (levels a) c used v.apart))

  index : 2 ^ lev + (node - 2 ^ lev) ≡ node
  index = let o = node-OnLevel in omega (arith, o.from)

  freed :
      (a1 a2 : BuddyAllocator) {pool' : Pool}
      → SameBlocks unmarked a1
      → Merged a1 a2 pool'
      → Freed a a2 pool' c
  freed a1 a2 s1 m = record {
    valid = record {
      linked = m.linked;
      apart = IsApart-after m;
      marks = subst IsMarked (sym (fun_ext level')) (cleared-IsMarked (levels a) c v.marks);
      small = rw start' v.small;
    };
    start = start';
    level = level';
  }
    where
      level' : (d : ℕ) → levels a2 d ≡ cleared (levels a) c d
      level' d = m.same.level d ∙ s1.level d ∙ unmarked-level d

      start' : a2.start ≡ a.start
      start' = m.same.start ∙ s1.start

  free_on_level-Freed :
      Returns
        (λ _ a'. Freed a a' (pool_merge lev node (push lev node pool)) c)
        (free_on_level lev c ((node - 2 ^ lev) * buddy_size lev) a)
  unfolding free_on_level
  free_on_level-Freed =
      simp
        (
          lt→ltb _ _ (OnLevel-lt last_lev c (omega arith) (v.marks.leaf c used)),
          mod_exact (node - 2 ^ lev) (buddy_size lev) (omega (arith, pow2_pos (last_lev - lev))),
          div_exact (node - 2 ^ lev) (buddy_size lev) (omega (arith, pow2_pos (last_lev - lev))),
          index,
        )
        (Returns-bind
          (add_one-IsLinked unmarked pool unmarked-IsLinked lev node used node-OnLevel node-fresh)
          λ _ a1 (v1, s1).
            Returns-mono
              (try_merge_rec-Merged lev node a1 (push lev node pool) v1
                (subst (IsApart (push lev node pool)) (sym (fun_ext s1.level)) pushed-IsApart) used
                node-OnLevel)
              λ _ a2 m. freed a1 a2 s1 m)

  -- Given the address of a block in use, `buddy_free` returns: the block is no longer in use, its
  -- node is free and merged upwards with its free buddies, and nothing else changes.
  pub buddy_free-Freed :
      Returns
        (λ _ a'. Freed a a' (pool_merge lev node (push lev node pool)) c)
        (buddy_free (leaf_address a c) a)
  unfolding buddy_free
  buddy_free-Freed =
      let leaf = v.marks.leaf c used in
      let raw : sub64 (leaf_address a c) a.start ≡ (c - last_lev_start) * min_page_size =
        omega (arith, v.small, leaf.below, leaf.from) in
      let page : sub64 (leaf_address a c) a.start % min_page_size ≡ 0 =
        omega (arith, v.small, leaf.below, leaf.from) in
      let same : leaf_of (leaf_address a c) a ≡ c = omega (arith, v.small, leaf.below, leaf.from) in
      simp
        (
          in_range_lem a pool v (leaf_address a c) (omega arith)
              (omega (arith, leaf.below, leaf.from)),
          page,
          same,
          lies_on_level_lem last_lev c leaf,
          lt→ltb _ _ (OnLevel-lt last_lev c (omega arith) leaf),
          lt→ltb lev buddy_levels used,
        )
        (rw (raw ∙ offset) free_on_level-Freed)

-- Only the start of a block in use can be given back: on any other address, outside the memory of
-- the allocator or in it, `buddy_free` halts the machine, as for a block that is freed twice.
pub buddy_free-unused :
    (a : BuddyAllocator) (pool : Pool) (ptr : ℕ)
    → IsValid a pool
    → ((c : ℕ) → levels a c < buddy_levels → ptr ≢ leaf_address a c)
    → buddy_free ptr a ≡ died
unfolding buddy_free
buddy_free-unused a pool ptr v other = elim (Bool-cases (in_range ptr a)) [
  | inr outside ↦ simp outside
  | inl inside ↦
      let (from, below) = in_range_bounds a ptr v.small inside in
      let leaf = leaf_of-OnLevel a pool v ptr from below in
      elim (Bool-cases (sub64 ptr a.start % min_page_size == 0)) [
        | inr off ↦ simp (inside, off)
        | inl page ↦
            let start : ptr ≡ leaf_address a (leaf_of ptr a) =
              omega (arith, from, below, v.small, (==_iff _ _).0 page) in
            elim (Bool-cases (ltb (levels a (leaf_of ptr a)) buddy_levels)) [
              | inl used ↦ absurd (other (leaf_of ptr a) (ground arith) start)
              | inr unused ↦ simp (
                inside,
                page,
                lies_on_level_lem last_lev (leaf_of ptr a) leaf,
                lt→ltb _ _ (OnLevel-lt last_lev (leaf_of ptr a) (omega arith) leaf),
                unused,
              )
            ]
      ]
]
