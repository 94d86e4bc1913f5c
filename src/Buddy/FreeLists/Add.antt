-- ===== src/Buddy/FreeLists/Add.antt =====
-- `add_one` of buddy.c keeps the free lists in order.
use os_course_term.Common.{
  ℕ, ◌<◌, ◌≡◌, refl, ◌≢◌, inl, inr, sym, subst₂, ◌∙◌, true, false, ◌==◌, arith, List, [], ◌∷◌, has,
  ℤ, pos, negsuc, minus_one, Bool-cases, ==_iff, update, Returns, returns,
}
use os_course_term.Buddy.{BuddyAllocator, buddies_cnt, buddy_levels, add_one}
use os_course_term.Buddy.Links.{Link, relink_add, add_one-relinks}
use os_course_term.Buddy.Chains.{Chain, Chain-frame, Chain-add}
use os_course_term.Buddy.FreeLists.{Pool, OnLevel, OnLevel-lt, OnLevel-unique, IsLinked, SameBlocks}

module _ (a : BuddyAllocator) (pool : Pool) (v : IsLinked a pool) (lev i : ℕ)
    (hl : lev < buddy_levels) (on : OnLevel lev i) where
  abbrev added : BuddyAllocator
  added = record a {
    buddies = relink_add a.buddies i (a.firsts lev);
    firsts = update a.firsts lev (pos i);
  }

  abbrev pool_added : Pool
  pool_added = update pool lev (i ∷ pool lev)

  -- The first node of a list is a member.
  first-mem : (n : ℕ) → a.firsts lev ≡ pos n → has n (pool lev) ≡ true
  first-mem n e = go (pool lev) (v.chain lev hl)
    where
      go : (xs : List ℕ) → Chain a.buddies minus_one (a.firsts lev) xs → has n xs ≡ true
      go [] c = absurd (cc)
      go (x ∷ xs) (q, _, _) = ground arith

  module _ (new : has i (pool lev) ≡ false) where
    add-Chain :
        (m : ℕ) → m < buddy_levels → Chain added.buddies minus_one (added.firsts m) (pool_added m)
    unfolding relink_add
    add-Chain m hm = elim (Bool-cases (m == lev)) [
      | inl here ↦
          rw here (
            Chain-add a.buddies i (a.firsts lev) (pool lev) (v.distinct lev hl) new
              (v.chain lev hl))
      | inr other ↦ rw other (
          Chain-frame a.buddies added.buddies minus_one (a.firsts m) (pool m)
            (λ j h. (
              ground (
                arith,
                v.placed m j hm,
                OnLevel-unique m lev j,
                first-mem j,
                v.placed lev j hl,
                OnLevel-unique m lev i,
              ),
              ground (arith, v.placed m j hm, OnLevel-unique m lev i),
            ))
            (v.chain m hm))
    ]

    add-IsLinked : IsLinked added pool_added
    unfolding relink_add
    add-IsLinked = record {
      chain = add-Chain;
      distinct = λ m hm. ground (arith, v.distinct m hm, v.distinct lev hl);
      placed = λ m j hm h. elim (Bool-cases (m == lev)) [
        | inl here ↦ elim (Bool-cases (j == i)) [
          | inl this ↦ subst₂ OnLevel (sym ((==_iff m lev).0 here)) (sym ((==_iff j i).0 this)) on
          | inr old ↦ v.placed m j hm (ground arith)
        ]
        | inr other ↦ v.placed m j hm (ground arith)
      ];
      flagged = λ m j hm o. ground (arith, v.flagged m j hm o, OnLevel-unique m lev j o);
      loose = λ j h. ground (arith, v.loose j, first-mem j, v.flagged lev j hl, v.placed lev j hl);
    }

    first-Link :
        Link
          (λ n. (n < buddies_cnt) × (n ≢ i) × ((a.buddies n).prev_free ≡ minus_one))
          (a.firsts lev)
    first-Link =
        go (a.firsts lev) (pool lev) (v.chain lev hl)
          (λ n h. (OnLevel-lt lev n hl (v.placed lev n hl h), ground arith))
      where
        go :
            (f : ℤ) (xs : List ℕ)
            → Chain a.buddies minus_one f xs
            → ((n : ℕ) → has n xs ≡ true → (n < buddies_cnt) × (n ≢ i))
            → Link (λ n. (n < buddies_cnt) × (n ≢ i) × ((a.buddies n).prev_free ≡ minus_one)) f
        go (pos n) [] c fits = absurd (cc)
        go (pos n) (x ∷ xs) (e, q, c) fits =
            let (u, w) = fits n (ground arith) in (u, w, ground arith)
        go (negsuc k) [] c fits = ground arith
        go (negsuc k) (x ∷ xs) (e, q, c) fits = absurd (cc)

    -- `add_one` puts a node that is not free in front of the list of its level: no assert fails, the
    -- links stay in order, and nothing else changes.
    pub add_one-IsLinked :
        Returns
          (λ _ a'. IsLinked a' (update pool lev (i ∷ pool lev)) × SameBlocks a a')
          (add_one lev i a)
    unfolding relink_add
    add_one-IsLinked =
        let used : (a.buddies i).is_free ≡ false = v.flagged lev i hl on ∙ new in
        let free = v.loose i used in
        rw
          (add_one-relinks a lev i (a.firsts lev) (OnLevel-lt lev i hl on) hl used free.0 free.1
            refl first-Link)
          (returns (add-IsLinked, record { start = refl; level = λ j. ground arith }))
