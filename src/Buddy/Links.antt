-- ===== src/Buddy/Links.antt =====
-- What `add_one` and `remove_one` of buddy.c do to the array, when their asserts hold.
use os_course_term.Common.{
  ℕ, ◌<◌, ◌≡◌, sym, ◌≢◌, ap, fun_ext, true, false, ◌==◌, if◌then◌else◌, arith, lt→ltb, ==_refl,
  ne→==, ℤ, pos, negsuc, minus_one, eq_ℤ, ok, update,
}
use os_course_term.Buddy.{BuddyInfo, BuddyAllocator, buddies_cnt, buddy_levels, add_one, remove_one}

abbrev pub Buddies : Type 0
Buddies = ℕ → BuddyInfo

-- Node `i` becomes the first of the list that began with `f`.
unfoldable pub relink_add : Buddies → ℕ → ℤ → Buddies
relink_add b i f j =
    if j == i
    then record (b i) { is_free = true; prev_free = minus_one; next_free = f }
    else record (b j) { prev_free = if eq_ℤ f (pos j) then pos i else (b j).prev_free }

-- Node `i` leaves its list, and its neighbours are joined.
unfoldable pub relink_remove : Buddies → ℕ → Buddies
relink_remove b i j =
    if j == i
    then record (b i) { is_free = false; prev_free = minus_one; next_free = minus_one }
    else record (b j) {
      prev_free = if eq_ℤ (b i).next_free (pos j) then (b i).prev_free else (b j).prev_free;
      next_free = if eq_ℤ (b i).prev_free (pos j) then (b i).next_free else (b j).next_free;
    }

-- An `int` that is -1 or the index of a node with the property.
abbrev pub Link : (ℕ → Type 0) → ℤ → Type 0
Link P (pos n) = P n
Link P (negsuc k) = k ≡ 0

pub add_one-relinks :
    (a : BuddyAllocator) (lev i : ℕ) (f : ℤ)
    → i < buddies_cnt
    → lev < buddy_levels
    → (a.buddies i).is_free ≡ false
    → (a.buddies i).prev_free ≡ minus_one
    → (a.buddies i).next_free ≡ minus_one
    → a.firsts lev ≡ f
    → Link (λ n. (n < buddies_cnt) × (n ≢ i) × ((a.buddies n).prev_free ≡ minus_one)) f
    → add_one lev i a
      ≡ ok tt
          (record a { buddies = relink_add a.buddies i f; firsts = update a.firsts lev (pos i) })
unfolding add_one relink_add
add_one-relinks a lev i (pos n) hi hl free np nn e (hn, ne, pn) =
    simp
      (
        lt→ltb i buddies_cnt hi,
        free,
        ==_refl i,
        np,
        nn,
        lt→ltb lev buddy_levels hl,
        e,
        lt→ltb n buddies_cnt hn,
        lt→ltb i buddies_cnt hi,
        ne→== n i ne,
        pn,
      )
      (ap (λ (b : Buddies). ok tt (record a { buddies = b; firsts = update a.firsts lev (pos i) }))
        (fun_ext λ j. ground arith))
add_one-relinks a lev i (negsuc k) hi hl free np nn e h =
    simp (lt→ltb i buddies_cnt hi, free, ==_refl i, np, nn, lt→ltb lev buddy_levels hl, e)
      (ap (λ (b : Buddies). ok tt (record a { buddies = b; firsts = update a.firsts lev (pos i) }))
        (fun_ext λ j. ground arith))

-- The list of level `lev` begins behind node `i` if `i` was its first.
unfoldable pub relink_first : (ℕ → ℤ) → ℕ → (p n : ℤ) → ℕ → ℤ
relink_first firsts lev (pos _) n = firsts
relink_first firsts lev (negsuc _) n = update firsts lev n

abbrev pub PrevLink : BuddyAllocator → (lev i : ℕ) → ℤ → Type 0
PrevLink a lev i (pos p) = (p < buddies_cnt) × (p ≢ i) × ((a.buddies p).next_free ≡ pos i)
PrevLink a lev i (negsuc k) = (k ≡ 0) × (a.firsts lev ≡ pos i)

abbrev pub NextLink : BuddyAllocator → ℕ → ℤ → Type 0
NextLink a i (pos n) = (n < buddies_cnt) × (n ≢ i) × ((a.buddies n).prev_free ≡ pos i)
NextLink a i (negsuc k) = k ≡ 0

abbrev pub Apart : ℤ → ℤ → Type 0
Apart (pos p) (pos n) = p ≢ n
Apart _ _ = Unit {0}

pub remove_one-relinks :
    (a : BuddyAllocator) (lev i : ℕ) (p n : ℤ)
    → i < buddies_cnt
    → lev < buddy_levels
    → (a.buddies i).is_free ≡ true
    → (a.buddies i).prev_free ≡ p
    → (a.buddies i).next_free ≡ n
    → PrevLink a lev i p
    → NextLink a i n
    → Apart p n
    → remove_one lev i a
      ≡ ok tt
          (record a { buddies = relink_remove a.buddies i; firsts = relink_first a.firsts lev p n })
unfolding remove_one relink_remove relink_first
remove_one-relinks a lev i (pos p) (pos n) hi hl free ep en (hp, pi, np) (hn, ni, pn) pn' =
    simp
      (
        lt→ltb i buddies_cnt hi,
        lt→ltb p buddies_cnt hp,
        lt→ltb n buddies_cnt hn,
        free,
        ==_refl,
        ep,
        en,
        ne→== p i pi,
        ne→== n i ni,
        ne→== n p (λ e. pn' (sym e)),
        np,
        pn,
      )
      (ap (λ (b : Buddies). ok tt (record a { buddies = b })) (fun_ext λ j. ground arith))
remove_one-relinks a lev i (pos p) (negsuc k) hi hl free ep en (hp, pi, np) z pn' =
    simp (lt→ltb i buddies_cnt hi, lt→ltb p buddies_cnt hp, free, ==_refl, ep, en, ne→== p i pi, np)
      (ap (λ (b : Buddies). ok tt (record a { buddies = b })) (fun_ext λ j. ground arith))
remove_one-relinks a lev i (negsuc k) (pos n) hi hl free ep en (z, f) (hn, ni, pn) pn' =
    simp
      (
        lt→ltb i buddies_cnt hi,
        lt→ltb n buddies_cnt hn,
        lt→ltb lev buddy_levels hl,
        free,
        ==_refl,
        ep,
        en,
        ne→== n i ni,
        f,
        pn,
      )
      (ap (λ (b : Buddies). ok tt (record a { buddies = b; firsts = update a.firsts lev (pos n) }))
        (fun_ext λ j. ground arith))
remove_one-relinks a lev i (negsuc k) (negsuc m) hi hl free ep en (z, f) z' pn' =
    simp (lt→ltb i buddies_cnt hi, lt→ltb lev buddy_levels hl, free, ==_refl, ep, en, f)
      (ap
        (λ (b : Buddies). ok tt (record a { buddies = b; firsts = update a.firsts lev (negsuc m) }))
        (fun_ext λ j. ground arith))
