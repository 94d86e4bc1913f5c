-- ===== src/Buddy/Init/Reset.antt =====
-- The loops of `buddy_init` that clear the arrays: nothing is free and nothing in use after them.
use os_course_term.Common.{
  ℕ, zero, suc, ◌+◌, ◌^◌, ◌≤◌, ◌<◌, ◌≡◌, refl, ap, ◌∙◌, arith, false, [], minus_one, Returns,
  returns, Returns-bind, lt→ltb, update, update_self, update_ne, dec_lt, ◌>>◌, ℕ_discrete,
}
use os_course_term.Buddy.{
  BuddyAllocator, BuddyInfo, BuddyCmd, buddy_levels, buddies_cnt, set_info, set_first,
}
use os_course_term.Buddy.FreeLists.{Pool}
use os_course_term.Buddy.Init.{blank, reset_buddies, reset_firsts}
use os_course_term.Buddy.Init.Pages.{IsInitial}

abbrev pub IsBlank : BuddyInfo → Type 0
IsBlank x = x ≡ record {
  prev_free = minus_one;
  next_free = minus_one;
  is_free = false;
  allocated_level = buddy_levels;
}

-- The family has nothing in it beyond the end of the array, which the code does not reach.
abbrev pub IsPadded : BuddyAllocator → Type 0
IsPadded a = (j : ℕ) → buddies_cnt ≤ j → IsBlank (a.buddies j)

reset_buddies-IsBlank :
    (rounds i : ℕ) (a : BuddyAllocator)
    → i + rounds ≡ buddies_cnt
    → IsPadded a
    → ((j : ℕ) → j < i → IsBlank (a.buddies j))
    → Returns
        (λ _ a'. ((j : ℕ) → IsBlank (a'.buddies j)) × (a'.start ≡ a.start))
        (reset_buddies rounds i a)
unfolding reset_buddies set_info blank
reset_buddies-IsBlank zero i a e padded done =
    returns ((λ j. elim (dec_lt j i) [ yes h ↦ done j h | no h ↦ padded j (omega arith) ]), refl)
reset_buddies-IsBlank (suc rounds) i a e padded done =
    let cleared : BuddyInfo = blank (a.buddies i) in
    let next : BuddyAllocator = record a { buddies = update a.buddies i cleared } in
    rw (lt→ltb i buddies_cnt (omega arith)) (
      reset_buddies-IsBlank rounds (i + 1) next (omega arith)
        (λ j h. update_ne a.buddies i cleared j (omega arith) ∙ padded j h)
        (λ j h. elim (ℕ_discrete j i) [
          | yes here ↦ rw (here, update_self a.buddies i cleared) refl
          | no there ↦ update_ne a.buddies i cleared j there ∙ done j (omega arith)
        ]))

reset_firsts-IsBlank :
    (rounds i : ℕ) (a : BuddyAllocator)
    → i + rounds ≡ buddy_levels
    → ((l : ℕ) → l < i → a.firsts l ≡ minus_one)
    → Returns
        (λ _ a'.
          ((l : ℕ) → l < buddy_levels → a'.firsts l ≡ minus_one)
          × (a'.buddies ≡ a.buddies)
          × (a'.start ≡ a.start))
        (reset_firsts rounds i a)
unfolding reset_firsts set_first
reset_firsts-IsBlank zero i a e done = returns ((λ l h. done l (omega arith)), refl, refl)
reset_firsts-IsBlank (suc rounds) i a e done =
    let next : BuddyAllocator = record a { firsts = update a.firsts i minus_one } in
    rw (lt→ltb i buddy_levels (omega arith)) (
      reset_firsts-IsBlank rounds (i + 1) next (omega arith) (λ l h. elim (ℕ_discrete l i) [
        | yes here ↦ rw (here, update_self a.firsts i minus_one) refl
        | no there ↦ update_ne a.firsts i minus_one l there ∙ done l (omega arith)
      ]))

abbrev pub no_pages : Pool
no_pages lev = []

blank-IsInitial :
    (a : BuddyAllocator)
    → ((j : ℕ) → IsBlank (a.buddies j))
    → ((l : ℕ) → l < buddy_levels → a.firsts l ≡ minus_one)
    → a.start < 2 ^ 48
    → IsInitial a no_pages
blank-IsInitial a all firsts small = record {
  linked = record {
    chain = λ lev h. firsts lev h;
    distinct = λ lev h. tt;
    placed = λ lev i h m. absurd (cc);
    flagged = λ lev i h o. rw (all i) refl;
    loose = λ i h. rw (all i) (refl, refl);
  };
  unused = λ c. ap (λ (x : BuddyInfo). x.allocated_level) (all c);
  pages = λ l h. refl;
  small = small;
}

-- After the two loops the state is one in which pages can be marked.
pub reset-IsInitial :
    {Q : Unit {0} → BuddyAllocator → Type 0} (a : BuddyAllocator) (next : BuddyCmd (Unit {0}))
    → IsPadded a
    → a.start < 2 ^ 48
    → ((b : BuddyAllocator) → IsInitial b no_pages → b.start ≡ a.start → Returns Q (next b))
    → Returns Q ((reset_buddies buddies_cnt 0 >> (reset_firsts buddy_levels 0 >> next)) a)
reset-IsInitial a next padded small rest =
    Returns-bind
      (reset_buddies-IsBlank buddies_cnt 0 a (omega arith) padded λ j h. absurd (omega arith))
      λ _ b (all, same).
        Returns-bind
          (reset_firsts-IsBlank buddy_levels 0 b (omega arith) λ l h. absurd (omega arith))
          λ _ c (firsts, kept, same').
            rest c (blank-IsInitial c (rw kept all) firsts (rw (same', same) small)) (same' ∙ same)
