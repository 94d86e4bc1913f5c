-- ===== src/Buddy/Init.antt =====
-- `buddy_init` of buddy.c. A `for` loop is a recursion on the number of rounds that are left.
pub mod Pages
pub mod Reset
pub mod Done
pub mod Tests
use os_course_term.Common.{
  ℕ, zero, suc, ◌+◌, ◌-◌, ◌*◌, ◌/◌, ◌%◌, ◌^◌, Bool, true, false, ◌&&◌, not, List, [], ◌∷◌, ltb, leb,
  ◌==◌, if◌then◌else◌, minus_one, ok, pure, ◌>>=◌, ◌>>◌, assert, when, add64, sub64,
}
use os_course_term.Buddy.{
  BuddyAllocator, BuddyInfo, BuddyCmd, buddy_levels, buddies_cnt, last_lev, last_lev_start,
  min_page_size, max_page_size, info, set_info, set_first, add_one, remove_one, try_merge_one,
}

abbrev pub make_segment_available : ℕ
make_segment_available = 2

pub record InitOperation : Type 0 where
  pub operation : ℕ
  pub start : ℕ
  pub end : ℕ

-- One round of the loop of `mark_for_init`.
pub mark_page : Bool → ℕ → BuddyCmd (Unit {0})
unfolding info
mark_page available i = do
  x ← info i
  when (x.is_free && not available) (remove_one last_lev i)
  y ← info i
  when (not y.is_free && available) (add_one last_lev i)

pub mark_pages : Bool → (rounds i : ℕ) → BuddyCmd (Unit {0})
mark_pages available zero i = pure tt
mark_pages available (suc rounds) i = do mark_page available i; mark_pages available rounds (i + 1)

-- The part of the segment that lies in the memory.
abbrev pub clamp_start : ℕ → ℕ → ℕ
clamp_start base start = if ltb start base then base else start

abbrev pub clamp_end : ℕ → ℕ → ℕ
clamp_end base end = if ltb (add64 base max_page_size) end then add64 base max_page_size else end

-- The pages of a segment: a reserved one is extended and an available one shrunk to whole pages.
abbrev pub first_page : Bool → (base start : ℕ) → ℕ
first_page false base start = sub64 start base / min_page_size
first_page true base start = add64 (sub64 start base) (min_page_size - 1) / min_page_size

abbrev pub end_page : Bool → (base end : ℕ) → ℕ
end_page false base end = add64 (sub64 end base) (min_page_size - 1) / min_page_size
end_page true base end = sub64 end base / min_page_size

-- `mark_for_init` once the pages are known.
pub mark_range : Bool → (from to : ℕ) → BuddyCmd (Unit {0})
mark_range available from to = if leb to from then pure tt else do
  assert
      (ltb (from + last_lev_start) (to + last_lev_start) && leb (to + last_lev_start) buddies_cnt)
  mark_pages available (to - from) (from + last_lev_start)

pub mark_for_init : (start end : ℕ) → Bool → BuddyCmd (Unit {0})
unfolding mark_range
mark_for_init start end available a =
    let s = clamp_start a.start start in
    let e = clamp_end a.start end in
    let marked =
      mark_range available (first_page available a.start s) (end_page available a.start e) a in
    if leb e s then ok tt a else marked

-- The loops of `buddy_init`, in the order of the source.
blank : BuddyInfo → BuddyInfo
blank x = record {
  prev_free = minus_one;
  next_free = minus_one;
  is_free = false;
  allocated_level = buddy_levels;
}

pub reset_buddies : (rounds i : ℕ) → BuddyCmd (Unit {0})
unfolding set_info blank
reset_buddies zero i = pure tt
reset_buddies (suc rounds) i = do set_info i blank; reset_buddies rounds (i + 1)

pub reset_firsts : (rounds i : ℕ) → BuddyCmd (Unit {0})
unfolding set_first
reset_firsts zero i = pure tt
reset_firsts (suc rounds) i = do set_first i minus_one; reset_firsts rounds (i + 1)

pub apply_ops : List InitOperation → BuddyCmd (Unit {0})
apply_ops [] = pure tt
apply_ops (op ∷ ops) = do
  mark_for_init op.start op.end (op.operation == make_segment_available)
  apply_ops ops

pub merge_pairs : (lev rounds i : ℕ) → BuddyCmd (Unit {0})
merge_pairs lev zero i = pure tt
merge_pairs lev (suc rounds) i = do merged ← try_merge_one lev i; merge_pairs lev rounds (i + 2)

abbrev pub merge_level : ℕ → BuddyCmd (Unit {0})
merge_level lev = merge_pairs lev ((2 ^ lev + 1) / 2) (2 ^ lev)

pub merge_levels : ℕ → BuddyCmd (Unit {0})
merge_levels zero = merge_level 0
merge_levels (suc lev) = do merge_level (suc lev); merge_levels lev

pub buddy_init : ℕ → List InitOperation → BuddyCmd (Unit {0})
buddy_init start ops a =
    (do
      assert (ltb start (2 ^ 48))
      assert (start % max_page_size == 0)
      reset_buddies buddies_cnt 0
      reset_firsts buddy_levels 0
      apply_ops ops
      merge_levels last_lev)
      (record a { start = start })
