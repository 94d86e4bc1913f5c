-- ===== src/Buddy.antt =====
-- The buddy allocator: buddy.h and buddy.c. The two arrays of `struct buddy_allocator` are families
-- over the numbers, and an access out of their bounds is a `fault`. Node `i` of the tree of blocks
-- has the children `2 * i` and `2 * i + 1`, and level `lev` holds the nodes from `2 ^ lev` on.
pub mod Links
pub mod Chains
pub mod FreeLists
pub mod Tree
pub mod Pool
pub mod GetLevel
pub mod Merge
pub mod Valid
pub mod Alloc
pub mod Fit
pub mod Blocks
pub mod BlockStart
pub mod Free
pub mod Fresh
pub mod Taken
pub mod Init
pub mod Tests
use os_course_term.Common.{
  ℕ, zero, suc, ◌+◌, ◌-◌, ◌*◌, ◌/◌, ◌%◌, ◌^◌, Bool, true, false, ◌&&◌, not, ltb, leb, ◌==◌,
  if◌then◌else◌, ℤ, pos, negsuc, minus_one, eq_ℤ, Outcome, ok, fault, Cmd, pure, die, ◌>>=◌, ◌>>◌,
  assert, when, update, add64, sub64, mul64,
}

abbrev pub buddy_levels : ℕ
buddy_levels = 19

abbrev pub buddies_cnt : ℕ
buddies_cnt = 2 ^ (buddy_levels + 1)

abbrev pub min_page_size : ℕ
min_page_size = 4096

abbrev pub max_page_size : ℕ
max_page_size = min_page_size * 2 ^ (buddy_levels - 1)

abbrev pub last_lev : ℕ
last_lev = buddy_levels - 1

abbrev pub last_lev_start : ℕ
last_lev_start = 2 ^ last_lev

pub record BuddyInfo : Type 0 where
  pub prev_free : ℤ
  pub next_free : ℤ
  pub is_free : Bool
  pub allocated_level : ℕ

pub record BuddyAllocator : Type 0 where
  pub start : ℕ
  pub buddies : ℕ → BuddyInfo
  pub firsts : ℕ → ℤ

abbrev pub BuddyCmd : Type 0 → Type 0
BuddyCmd A = Cmd BuddyAllocator A

-- `a->buddies[i]`, read and written.
pub info : ℕ → BuddyCmd BuddyInfo
info i a = if ltb i buddies_cnt then ok (a.buddies i) a else fault

pub set_info : ℕ → (BuddyInfo → BuddyInfo) → BuddyCmd (Unit {0})
set_info i f a =
    if ltb i buddies_cnt
    then ok tt (record a { buddies = update a.buddies i (f (a.buddies i)) })
    else fault

-- `a->firsts[lev]`, read and written.
pub first : ℕ → BuddyCmd ℤ
first lev a = if ltb lev buddy_levels then ok (a.firsts lev) a else fault

pub set_first : ℕ → ℤ → BuddyCmd (Unit {0})
set_first lev v a =
    if ltb lev buddy_levels then ok tt (record a { firsts = update a.firsts lev v }) else fault

abbrev pub set_free : Bool → BuddyInfo → BuddyInfo
set_free v x = record x { is_free = v }

abbrev pub set_prev : ℤ → BuddyInfo → BuddyInfo
set_prev v x = record x { prev_free = v }

abbrev pub set_next : ℤ → BuddyInfo → BuddyInfo
set_next v x = record x { next_free = v }

abbrev pub set_level : ℕ → BuddyInfo → BuddyInfo
set_level v x = record x { allocated_level = v }

-- The branch `if (n >= 0)` of `add_one`.
link_front : ℕ → ℤ → BuddyCmd (Unit {0})
link_front i (pos n) = do
  set_info i (set_next (pos n))
  y ← info n
  assert (eq_ℤ y.prev_free minus_one)
  set_info n (set_prev (pos i))
link_front i (negsuc _) = pure tt

pub add_one : (lev i : ℕ) → BuddyCmd (Unit {0})
unfolding info set_info first set_first link_front
add_one lev i = do
  x ← info i
  assert (not x.is_free)
  set_info i (set_free true)
  x ← info i
  assert (eq_ℤ x.prev_free minus_one)
  assert (eq_ℤ x.next_free minus_one)
  n ← first lev
  link_front i n
  set_first lev (pos i)

-- `if (p >= 0) … else …` of `remove_one`.
unlink_prev : (lev i : ℕ) → (p n : ℤ) → BuddyCmd (Unit {0})
unlink_prev lev i (pos p) n = do
  y ← info p
  assert (eq_ℤ y.next_free (pos i))
  set_info p (set_next n)
unlink_prev lev i (negsuc _) n = do f ← first lev; assert (eq_ℤ f (pos i)); set_first lev n

-- `if (n >= 0)` of `remove_one`.
unlink_next : ℕ → (p n : ℤ) → BuddyCmd (Unit {0})
unlink_next i p (pos n) = do y ← info n; assert (eq_ℤ y.prev_free (pos i)); set_info n (set_prev p)
unlink_next i p (negsuc _) = pure tt

pub remove_one : (lev i : ℕ) → BuddyCmd (Unit {0})
unfolding info set_info first set_first unlink_prev unlink_next
remove_one lev i = do
  x ← info i
  assert x.is_free
  set_info i (set_free false)
  set_info i (set_next minus_one)
  set_info i (set_prev minus_one)
  unlink_prev lev i x.prev_free x.next_free
  unlink_next i x.prev_free x.next_free

-- The macro compares with `<=` on both sides.
abbrev pub lies_on_level : (lev i : ℕ) → Bool
lies_on_level lev i = leb (2 ^ lev) i && leb i (2 * 2 ^ lev)

abbrev pub buddy_size : ℕ → ℕ
buddy_size lev = min_page_size * 2 ^ (last_lev - lev)

-- `if (i & 1) i ^= 1;`
abbrev pub even_buddy : ℕ → ℕ
even_buddy i = if i % 2 == 1 then i - 1 else i

-- The part of `try_merge_one` below the test `lev == 0`.
pub merge_pair : (lev i : ℕ) → BuddyCmd Bool
unfolding info
merge_pair lev i = do
  x ← info i
  if not x.is_free then pure false else do
    y ← info (i + 1)
    if not y.is_free
        then pure false
        else do remove_one lev i; remove_one lev (i + 1); add_one (lev - 1) (i / 2); pure true

pub try_merge_one : (lev i : ℕ) → BuddyCmd Bool
try_merge_one lev i = do
  assert (lies_on_level lev i)
  if lev == 0 then pure false else merge_pair lev (even_buddy i)

-- On level 0 `try_merge_one` never returns true.
pub try_merge_rec : (lev i : ℕ) → BuddyCmd (Unit {0})
try_merge_rec zero i = do merged ← try_merge_one 0 i; pure tt
try_merge_rec (suc lev) i = do
  merged ← try_merge_one (suc lev) i
  if merged then try_merge_rec lev (i / 2) else pure tt

-- `if (a->firsts[lev] >= 0)` of `get_from_level`; `otherwise` is the code below it.
pub first_or : ℕ → ℤ → BuddyCmd ℕ → BuddyCmd ℕ
first_or lev (pos result) otherwise = do remove_one lev result; pure result
first_or lev (negsuc _) otherwise = otherwise

pub get_from_level : ℕ → BuddyCmd ℕ
unfolding first first_or
get_from_level zero = do f ← first 0; first_or 0 f die
get_from_level (suc lev) = do
  f ← first (suc lev)
  first_or (suc lev) f
      do parent ← get_from_level lev; add_one (suc lev) (2 * parent + 1); pure (2 * parent)

-- The loop `while (buddy_size(lev) < size)` of `buddy_alloc`.
pub fit_level : (lev size : ℕ) → BuddyCmd ℕ
fit_level zero size = if ltb (buddy_size 0) size then die else pure 0
fit_level (suc lev) size =
    let below = fit_level lev size in
    if ltb (buddy_size (suc lev)) size then below else pure (suc lev)

-- `buddy_alloc` from the choice of the level on.
pub alloc_on_level : ℕ → BuddyCmd ℕ
unfolding info set_info
alloc_on_level lev = do
  result ← get_from_level lev
  assert (lies_on_level lev result)
  let child = result * 2 ^ (last_lev - lev)
  assert (lies_on_level last_lev child)
  x ← info child
  assert (x.allocated_level == buddy_levels)
  set_info child (set_level lev)
  λ a. ok (add64 a.start (mul64 (result - 2 ^ lev) (buddy_size lev))) a

pub buddy_alloc : ℕ → BuddyCmd ℕ
unfolding fit_level alloc_on_level
buddy_alloc size = do
  assert (leb 1 size && leb size max_page_size)
  lev ← fit_level last_lev size
  alloc_on_level lev

-- `a->start <= ptr && ptr < a->start + MAX_PAGE_SIZE`
abbrev pub in_range : ℕ → BuddyAllocator → Bool
in_range ptr a = leb a.start ptr && ltb ptr (add64 a.start max_page_size)

abbrev pub leaf_of : ℕ → BuddyAllocator → ℕ
leaf_of ptr a = sub64 ptr a.start / min_page_size + last_lev_start

-- One round of the loop of `buddy_get_block_start`; `next` is the next round.
pub climb_step : (lev i : ℕ) → BuddyCmd ℕ → BuddyCmd ℕ
climb_step lev i next = do
  assert (lies_on_level lev i)
  let child = i * 2 ^ (last_lev - lev)
  x ← info child
  if x.allocated_level == buddy_levels then next else do
    assert (leb x.allocated_level lev)
    λ a. ok (add64 a.start (mul64 (child - last_lev_start) min_page_size)) a

-- Below level 0 the source would shift by a negative number.
pub climb : (lev i : ℕ) → BuddyCmd ℕ
unfolding climb_step info
climb zero i = climb_step 0 i do assert (leb 1 (i / 2)); λ _. fault
climb (suc lev) i = climb_step (suc lev) i do assert (leb 1 (i / 2)); climb lev (i / 2)

pub buddy_get_block_start : ℕ → BuddyCmd ℕ
unfolding climb
buddy_get_block_start ptr a = (do assert (in_range ptr a); climb last_lev (leaf_of ptr a)) a

-- `buddy_free` below its asserts on `ptr` and `lev`.
pub free_on_level : (lev child offset : ℕ) → BuddyCmd (Unit {0})
unfolding set_info
free_on_level lev child offset = do
  set_info child (set_level buddy_levels)
  assert (offset % buddy_size lev == 0)
  let i = 2 ^ lev + offset / buddy_size lev
  add_one lev i
  try_merge_rec lev i

pub buddy_free : ℕ → BuddyCmd (Unit {0})
unfolding info
buddy_free ptr a =
    (do
      assert (in_range ptr a)
      assert (sub64 ptr a.start % min_page_size == 0)
      let child = leaf_of ptr a
      assert (lies_on_level last_lev child)
      x ← info child
      assert (ltb x.allocated_level buddy_levels)
      free_on_level x.allocated_level child (sub64 ptr a.start))
      a
