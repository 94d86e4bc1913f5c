-- ===== src/Buddy/Alloc.antt =====
-- `buddy_alloc` of buddy.c.
use os_course_term.Common.{
  ℕ, ◌+◌, ◌-◌, ◌*◌, ◌^◌, ◌≤◌, ◌<◌, ◌≡◌, refl, ◌≢◌, sym, ◌∙◌, subst, ap, ◌⊎◌, fun_ext, arith, ◌==◌,
  Option, none, some, update, Bool-cases, ==_iff, inl, inr, mul_mono_left, Returns, returns,
  Returns-bind, lt→ltb, Outcome, died, add64, mul64,
}
use os_course_term.Buddy.{
  BuddyAllocator, buddy_levels, last_lev, alloc_on_level, get_from_level, buddy_size, set_level,
}
use os_course_term.Buddy.FreeLists.{Pool, OnLevel, OnLevel-lt, IsLinked, IsLinked-cong, SameBlocks}
use os_course_term.Buddy.Tree.{up, Unrelated, Unrelated-sym, up-shift, up-not-Unrelated}
use os_course_term.Buddy.GetLevel.{levels, Refines}
use os_course_term.Buddy.Merge.{lies_on_level_lem}
use os_course_term.Buddy.Pool.{node_of, IsApart, IsClear}
use os_course_term.Buddy.Pool.Get.{GotSome}
use os_course_term.Buddy.Valid.{IsValid, IsMarked, block-leaf, level_product}

-- The first leaf of node `i` of level `lev`.
abbrev pub first_leaf : (lev i : ℕ) → ℕ
first_leaf lev i = i * 2 ^ (last_lev - lev)

-- The block of node `i` is in use from now on; all else about blocks in use is as it was.
pub record Allocated (a a' : BuddyAllocator) (pool' : Pool) (lev i : ℕ) : Type 0 where
  pub valid : IsValid a' pool'
  pub start : a'.start ≡ a.start
  pub was_free : levels a (first_leaf lev i) ≡ buddy_levels
  pub level : (c : ℕ) → levels a' c ≡ update (levels a) (first_leaf lev i) lev c

-- A leaf of a clear node is the first one of no block in use.
clear-level :
    (level : ℕ → ℕ) (pool : Pool) (lev i : ℕ)
    → ((c : ℕ) → level c ≤ buddy_levels)
    → IsClear pool level i
    → level (first_leaf lev i) ≡ buddy_levels
clear-level level pool lev i capped clear =
    omega
      (arith, capped (first_leaf lev i), λ (h : level (first_leaf lev i) < buddy_levels). clash h)
  where
    clash : ¬ (level (first_leaf lev i) < buddy_levels)
    clash h =
        up-not-Unrelated (first_leaf lev i) (last_lev - level (first_leaf lev i)) (last_lev - lev) (
          subst (λ (k : ℕ). Unrelated (node_of level (first_leaf lev i)) k)
            (sym (up-shift (last_lev - lev) i)) (clear.used (first_leaf lev i) h))

module _ (level : ℕ → ℕ) (lev i : ℕ) where
  abbrev marked : ℕ → ℕ
  marked = update level (first_leaf lev i) lev

  -- A block in use is the new one or an old one.
  owner :
      (c : ℕ)
      → marked c < buddy_levels
      → ((c ≡ first_leaf lev i) × (node_of marked c ≡ i))
        ⊎ ((c ≢ first_leaf lev i) × (level c < buddy_levels) × (node_of marked c ≡ node_of level c))
  owner c h = elim (Bool-cases (c == first_leaf lev i)) [
    | inl new ↦
        let e : c ≡ first_leaf lev i = (==_iff c (first_leaf lev i)).0 new in
        inl (e, rw new (ap (up (last_lev - lev)) e ∙ up-shift (last_lev - lev) i))
    | inr old ↦ inr (λ e. ground arith, rw old at h, rw old refl)
  ]

  -- A clear node may be put to use.
  used-IsApart : (pool : Pool) → IsApart pool level → IsClear pool level i → IsApart pool marked
  used-IsApart pool a clear = record {
    free_free = a.free_free;
    used_free = λ c m j hc hm hj. elim (owner c hc) [
      | inl (_, e) ↦ rw e (Unrelated-sym j i (clear.free m j hm hj))
      | inr (_, h, e) ↦ rw e (a.used_free c m j h hm hj)
    ];
    used_used = λ c d hc hd ne. elim (owner c hc) [
      | inl (q, e) ↦ elim (owner d hd) [
        | inl (q', _) ↦ absurd (ne (q ∙ sym q'))
        | inr (_, h, e') ↦ rw (e, e') (Unrelated-sym (node_of level d) i (clear.used d h))
      ]
      | inr (_, h, e) ↦ elim (owner d hd) [
        | inl (_, e') ↦ rw (e, e') (clear.used c h)
        | inr (_, h', e') ↦ rw (e, e') (a.used_used c d h h' ne)
      ]
    ];
  }

  marked-IsMarked : lev < buddy_levels → OnLevel lev i → IsMarked level → IsMarked marked
  marked-IsMarked h o m = record {
    capped = λ c. ground (arith, m.capped c);
    leaf = λ c hc. elim (owner c hc) [
      | inl (e, _) ↦ rw e (block-leaf lev i h o)
      | inr (_, hc', _) ↦ m.leaf c hc'
    ];
    aligned = λ c hc. elim (Bool-cases (c == first_leaf lev i)) [
      | inl new ↦
          let e : c ≡ first_leaf lev i = (==_iff c (first_leaf lev i)).0 new in
          rw (new, e) (ap (λ (k : ℕ). k * 2 ^ (last_lev - lev)) (up-shift (last_lev - lev) i))
      | inr old ↦ rw old (m.aligned c (rw old at hc))
    ];
  }

-- The state in which the block of node `i` is marked.
abbrev mark : BuddyAllocator → (lev i : ℕ) → BuddyAllocator
mark a lev i = record a {
  buddies = update a.buddies (first_leaf lev i) (set_level lev (a.buddies (first_leaf lev i)));
}

marked_Allocated :
    (a a' : BuddyAllocator) (pool pool' : Pool) (lev i : ℕ)
    → IsValid a pool
    → lev < buddy_levels
    → OnLevel lev i
    → IsApart pool' (levels a)
    → IsClear pool' (levels a) i
    → IsLinked a' pool'
    → SameBlocks a a'
    → levels a (first_leaf lev i) ≡ buddy_levels
    → Allocated a (record (mark a' lev i) { start = a.start }) pool' lev i
marked_Allocated a a' pool pool' lev i v h o apart clear w same fresh = record {
  valid = record {
    linked = IsLinked-cong (λ l. refl) (λ j. (ground arith, ground arith)) w;
    apart =
        subst (IsApart pool') (sym (fun_ext level'))
          (used-IsApart (levels a) lev i pool' apart clear);
    marks = subst IsMarked (sym (fun_ext level')) (marked-IsMarked (levels a) lev i h o v.marks);
    small = v.small;
  };
  start = refl;
  was_free = fresh;
  level = level';
}
  where
    level' : (c : ℕ) → levels (mark a' lev i) c ≡ update (levels a) (first_leaf lev i) lev c
    level' c = ground (arith, same.level c)

-- What `alloc_on_level` promises where the abstract allocation succeeds or fails.
abbrev pub AllocatesOn : BuddyAllocator → ℕ → Option (ℕ × Pool) → Outcome BuddyAllocator ℕ → Type 0
AllocatesOn a lev none r = r ≡ died
AllocatesOn a lev (some (i, pool')) r =
    Returns
      (λ ptr a'. (ptr ≡ a.start + (i - 2 ^ lev) * buddy_size lev) × Allocated a a' pool' lev i) r

-- The address that is returned is computed without overflow.
address :
    (start lev i : ℕ)
    → start < 2 ^ 48
    → lev < buddy_levels
    → OnLevel lev i
    → add64 start (mul64 (i - 2 ^ lev) (buddy_size lev)) ≡ start + (i - 2 ^ lev) * buddy_size lev
address start lev i small h o = omega (arith, small, fits)
  where
    fits : (i - 2 ^ lev) * (4096 * 2 ^ (last_lev - lev)) ≤ 4096 * 2 ^ last_lev
    fits = omega (
      arith,
      level_product lev h,
      mul_mono_left (i - 2 ^ lev) (2 ^ lev) (2 ^ (last_lev - lev)) (omega (arith, o.below)),
    )

pub alloc_marks :
    (a : BuddyAllocator) (pool : Pool) (lev : ℕ) (o : Option (ℕ × Pool))
    → IsValid a pool
    → lev < buddy_levels
    → GotSome (levels a) lev pool o
    → Refines a o (get_from_level lev a)
    → AllocatesOn a lev o (alloc_on_level lev a)
unfolding alloc_on_level
alloc_marks a pool lev none v h g r = rw r
alloc_marks a pool lev (some (i, pool')) v h (g, o) r = Returns-bind r λ j a' (e, w, same).
    let leaf = block-leaf lev i h o in
    let fresh : levels a (first_leaf lev i) ≡ buddy_levels =
      clear-level (levels a) pool' lev i v.marks.capped g.clear in
    let level' : levels a' (first_leaf lev i) ≡ buddy_levels =
      same.level (first_leaf lev i) ∙ fresh in
    rw e (
      simp
        (
          lies_on_level_lem lev i o,
          lies_on_level_lem last_lev (first_leaf lev i) leaf,
          lt→ltb _ _ (OnLevel-lt last_lev (first_leaf lev i) (omega arith) leaf),
          level',
          same.start,
        )
        (returns (
          address a.start lev i v.small h o,
          marked_Allocated a a' pool pool' lev i v h o g.apart g.clear w same fresh,
        )))
