-- ===== src/Buddy/FreeLists/Remove.antt =====
-- `remove_one` of buddy.c keeps the free lists in order.
use os_course_term.Common.{
  ℕ, ◌<◌, ◌≡◌, refl, ◌≢◌, ◌⊎◌, inl, inr, sym, subst, ◌∙◌, true, false, ◌==◌, arith, has, remove,
  Distinct-remove, has-remove_ne, has-remove_self, has-remove_le, ℤ, pos, minus_one, Bool-cases,
  update, Returns, returns,
}
use os_course_term.Buddy.{BuddyAllocator, buddy_levels, remove_one}
use os_course_term.Buddy.Links.{PrevLink, NextLink, relink_remove, relink_first, remove_one-relinks}
use os_course_term.Buddy.Chains.{
  Chain, SameLinks, Chain-frame, Chain-remove, Neighbours, Chain-Neighbours, start_without,
}
use os_course_term.Buddy.FreeLists.{Pool, OnLevel, OnLevel-lt, OnLevel-unique, IsLinked, SameBlocks}

module _ (a : BuddyAllocator) (pool : Pool) (v : IsLinked a pool) (lev i : ℕ)
    (hl : lev < buddy_levels) (old : has i (pool lev) ≡ true) where
  abbrev removed : BuddyAllocator
  removed = record a {
    buddies = relink_remove a.buddies i;
    firsts = relink_first a.firsts lev (a.buddies i).prev_free (a.buddies i).next_free;
  }

  abbrev pool_removed : Pool
  pool_removed = update pool lev (remove i (pool lev))

  on : OnLevel lev i
  on = v.placed lev i hl old

  around : Neighbours a.buddies minus_one (a.firsts lev) i (pool lev)
  around =
      Chain-Neighbours a.buddies minus_one (a.firsts lev) i (pool lev) (v.distinct lev hl) tt old
        (v.chain lev hl)

  -- A node that is on no free list, or on another one, is no neighbour.
  not-neighbour :
      (j : ℕ)
      → has j (pool lev) ≡ false
      → ((a.buddies i).prev_free ≢ pos j) × ((a.buddies i).next_free ≢ pos j)
  not-neighbour j h = go around.before around.after
    where
      go :
          (((a.buddies i).prev_free ≡ minus_one) × (a.firsts lev ≡ pos i))
            ⊎ ((q : ℕ) × ((a.buddies i).prev_free ≡ pos q)
                × (has q (pool lev) ≡ true)
                × (q ≢ i)
                × ((a.buddies q).next_free ≡ pos i)
                × (a.firsts lev ≢ pos i))
          → ((a.buddies i).next_free ≡ minus_one)
            ⊎ ((n : ℕ) × ((a.buddies i).next_free ≡ pos n)
                × (has n (pool lev) ≡ true)
                × (n ≢ i)
                × ((a.buddies n).prev_free ≡ pos i))
          → ((a.buddies i).prev_free ≢ pos j) × ((a.buddies i).next_free ≢ pos j)
      go (inl (p, f)) (inl z) = (λ e. ground arith, λ e. ground arith)
      go (inl (p, f)) (inr (n, z, m, _, _)) = (λ e. ground arith, λ e. ground arith)
      go (inr (q, p, m, _, _, _)) (inl z) = (λ e. ground arith, λ e. ground arith)
      go (inr (q, p, m, _, _, _)) (inr (n, z, m', _, _)) = (λ e. ground arith, λ e. ground arith)

  -- A member of another list keeps its links.
  elsewhere :
      (m j : ℕ)
      → m < buddy_levels
      → has j (pool m) ≡ true
      → (m == lev) ≡ false
      → SameLinks a.buddies (relink_remove a.buddies i) j
  unfolding relink_remove
  elsewhere m j hm h other =
      let o : OnLevel m j = v.placed m j hm h in
      let out : has j (pool lev) ≡ false =
        ground (arith, v.placed lev j hl, OnLevel-unique m lev j o) in
      let far = not-neighbour j out in (ground (arith, far), ground (arith, far))

  firsts-removed :
      (m : ℕ) → removed.firsts m ≡ update a.firsts lev (start_without a.buddies i (a.firsts lev)) m
  unfolding relink_first
  firsts-removed m = go around.before
    where
      go :
          (((a.buddies i).prev_free ≡ minus_one) × (a.firsts lev ≡ pos i))
            ⊎ ((q : ℕ) × ((a.buddies i).prev_free ≡ pos q)
                × (has q (pool lev) ≡ true)
                × (q ≢ i)
                × ((a.buddies q).next_free ≡ pos i)
                × (a.firsts lev ≢ pos i))
          → removed.firsts m ≡ update a.firsts lev (start_without a.buddies i (a.firsts lev)) m
      go (inl (p, f)) = ground arith
      go (inr (q, p, h, n, c, f)) = ground arith

  remove-Chain :
      (m : ℕ)
      → m < buddy_levels
      → Chain removed.buddies minus_one (removed.firsts m) (pool_removed m)
  unfolding relink_remove
  remove-Chain m hm =
      subst (λ (k : ℤ). Chain removed.buddies minus_one k (pool_removed m)) (sym (firsts-removed m))
        (elim (Bool-cases (m == lev)) [
          | inl here ↦ rw here (
              Chain-remove a.buddies minus_one (a.firsts lev) i (pool lev) (v.distinct lev hl) tt
                old (v.chain lev hl))
          | inr other ↦ rw other (
              Chain-frame a.buddies removed.buddies minus_one (a.firsts m) (pool m)
                (λ j h. elsewhere m j hm h other) (v.chain m hm))
        ])

  remove-IsLinked : IsLinked removed pool_removed
  unfolding relink_remove
  remove-IsLinked = record {
    chain = remove-Chain;
    distinct =
        λ m hm. ground (arith, v.distinct m hm, v.distinct lev hl, Distinct-remove i (pool lev));
    placed = λ m j hm h. v.placed m j hm (ground (arith, has-remove_le j i (pool lev)));
    flagged = λ m j hm o. ground (
      arith,
      on,
      OnLevel-unique m lev i,
      v.flagged m j hm o,
      OnLevel-unique m lev j o,
      has-remove_ne j i (pool lev),
      has-remove_self i (pool lev),
      v.distinct lev hl,
    );
    loose =
        λ j h. ground (arith, v.loose j, not-neighbour j, v.flagged lev j hl, v.placed lev j hl);
  }

  prev-link : PrevLink a lev i (a.buddies i).prev_free
  prev-link = go around.before
    where
      go :
          (((a.buddies i).prev_free ≡ minus_one) × (a.firsts lev ≡ pos i))
            ⊎ ((q : ℕ) × ((a.buddies i).prev_free ≡ pos q)
                × (has q (pool lev) ≡ true)
                × (q ≢ i)
                × ((a.buddies q).next_free ≡ pos i)
                × (a.firsts lev ≢ pos i))
          → PrevLink a lev i (a.buddies i).prev_free
      go (inl (p, f)) = rw p (refl, f)
      go (inr (q, p, m, n, c, _)) = rw p (OnLevel-lt lev q hl (v.placed lev q hl m), n, c)

  next-link : NextLink a i (a.buddies i).next_free
  next-link = go around.after
    where
      go :
          ((a.buddies i).next_free ≡ minus_one)
            ⊎ ((n : ℕ) × ((a.buddies i).next_free ≡ pos n)
                × (has n (pool lev) ≡ true)
                × (n ≢ i)
                × ((a.buddies n).prev_free ≡ pos i))
          → NextLink a i (a.buddies i).next_free
      go (inl z) = rw z refl
      go (inr (n, z, m, ne, c)) = rw z (OnLevel-lt lev n hl (v.placed lev n hl m), ne, c)

  -- `remove_one` takes a node off the list of its level: no assert fails, the links stay in order,
  -- and nothing else changes.
  pub remove_one-IsLinked :
      Returns
        (λ _ a'. IsLinked a' (update pool lev (remove i (pool lev))) × SameBlocks a a')
        (remove_one lev i a)
  unfolding relink_remove
  remove_one-IsLinked =
      rw
        (remove_one-relinks a lev i (a.buddies i).prev_free (a.buddies i).next_free
          (OnLevel-lt lev i hl on) hl (v.flagged lev i hl on ∙ old) refl refl prev-link next-link
          around.apart)
        (returns (remove-IsLinked, record { start = refl; level = λ j. ground arith }))
