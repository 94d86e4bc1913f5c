-- ===== src/Buddy/Init/Pages.antt =====
-- The marking of pages keeps the free lists in order.
use os_course_term.Common.{
  ℕ, zero, suc, ◌+◌, ◌-◌, ◌*◌, ◌^◌, ◌≤◌, ◌<◌, ◌≡◌, refl, ◌∙◌, Bool, true, false, ◌&&◌, List, [],
  ◌∷◌, leb, ◌==◌, arith, Returns, returns, Returns-bind, Returns-mono, Bool-cases, inl, inr, has,
  update, remove, lt→ltb, le→leb,
}
use os_course_term.Buddy.{BuddyAllocator, buddy_levels, buddies_cnt, last_lev, last_lev_start}
use os_course_term.Buddy.FreeLists.{Pool, OnLevel, OnLevel-lt, IsLinked, SameBlocks}
use os_course_term.Buddy.FreeLists.Add.{add_one-IsLinked}
use os_course_term.Buddy.FreeLists.Remove.{remove_one-IsLinked}
use os_course_term.Buddy.GetLevel.{levels}
use os_course_term.Buddy.Init.{
  mark_page, mark_pages, mark_range, mark_for_init, clamp_start, clamp_end, first_page, end_page,
  InitOperation, make_segment_available, apply_ops,
}

-- Nothing is in use, and only pages are free.
pub record IsInitial (a : BuddyAllocator) (pool : Pool) : Type 0 where
  pub linked : IsLinked a pool
  pub unused : (c : ℕ) → levels a c ≡ buddy_levels
  pub pages : (l : ℕ) → l < last_lev → pool l ≡ []
  pub small : a.start < 2 ^ 48

abbrev pub Marked : BuddyAllocator → Unit {0} → BuddyAllocator → Type 0
Marked a _ a' = (pool' : Pool) × IsInitial a' pool' × (a'.start ≡ a.start)

IsInitial-keep :
    {a a' : BuddyAllocator} {pool : Pool} (xs : List ℕ)
    → IsInitial a pool
    → IsLinked a' (update pool last_lev xs)
    → SameBlocks a a'
    → Marked a tt a'
IsInitial-keep {a} {a'} {pool} xs v w same = (
  update pool last_lev xs,
  record {
    linked = w;
    unused = λ c. same.level c ∙ v.unused c;
    pages = λ l h. ground (arith, v.pages l h);
    small = rw same.start v.small;
  },
  same.start,
)

unchanged : {a : BuddyAllocator} {pool : Pool} → IsInitial a pool → Marked a tt a
unchanged {a} {pool} v = (pool, v, refl)

and_false : (b : Bool) → (b && false) ≡ false
and_false true = refl
and_false false = refl

mark_page-Marked :
    (a : BuddyAllocator) (pool : Pool) (available : Bool) (i : ℕ)
    → IsInitial a pool
    → OnLevel last_lev i
    → Returns (Marked a) (mark_page available i a)
unfolding mark_page
mark_page-Marked a pool true i v o =
    let inside = lt→ltb i buddies_cnt (OnLevel-lt last_lev i (omega arith) o) in
    let flag = v.linked.flagged last_lev i (omega arith) o in
    simp (inside, flag)
      (elim (Bool-cases (has i (pool last_lev))) [
        | inl old ↦ simp (old, inside, flag) (returns (unchanged v))
        | inr new ↦
            simp (new, inside, flag)
              (Returns-mono (add_one-IsLinked a pool v.linked last_lev i (omega arith) o new)
                λ _ a' (w, same). IsInitial-keep (i ∷ pool last_lev) v w same)
      ])
mark_page-Marked a pool false i v o =
    let inside = lt→ltb i buddies_cnt (OnLevel-lt last_lev i (omega arith) o) in
    let flag = v.linked.flagged last_lev i (omega arith) o in
    simp (inside, flag)
      (elim (Bool-cases (has i (pool last_lev))) [
        | inl old ↦ simp old (
            Returns-bind (remove_one-IsLinked a pool v.linked last_lev i (omega arith) old)
              λ _ a' (w, same).
                simp (inside, and_false)
                  (returns (IsInitial-keep (remove i (pool last_lev)) v w same)))
        | inr new ↦ simp (new, inside, and_false) (returns (unchanged v))
      ])

Marked-trans : (a b c : BuddyAllocator) → b.start ≡ a.start → Marked b tt c → Marked a tt c
Marked-trans a b c e (pool, v, s) = (pool, v, s ∙ e)

mark_pages-Marked :
    (available : Bool) (rounds i : ℕ) (a : BuddyAllocator) (pool : Pool)
    → IsInitial a pool
    → 2 ^ last_lev ≤ i
    → i + rounds ≤ 2 * 2 ^ last_lev
    → Returns (Marked a) (mark_pages available rounds i a)
unfolding mark_pages
mark_pages-Marked available zero i a pool v h g = returns (unchanged v)
mark_pages-Marked available (suc rounds) i a pool v h g =
    Returns-bind (mark_page-Marked a pool available i v (omega arith)) λ _ a' (pool', w, s).
      Returns-mono
        (mark_pages-Marked available rounds (i + 1) a' pool' w (omega arith) (omega arith))
        λ _ a'' m. Marked-trans a a' a'' s m

-- A segment that lies in the memory covers whole pages of it.
mark_range-Marked :
    (available : Bool) (from to : ℕ) (a : BuddyAllocator) (pool : Pool)
    → IsInitial a pool
    → to ≤ 2 ^ last_lev
    → Returns (Marked a) (mark_range available from to a)
unfolding mark_range
mark_range-Marked available from to a pool v h = elim (Bool-cases (leb to from)) [
  | inl empty ↦ rw empty (returns (unchanged v))
  | inr some ↦
      let lt : from < to = ground arith in
      rw
        (
          some,
          lt→ltb (from + last_lev_start) (to + last_lev_start) (omega arith),
          le→leb (to + last_lev_start) buddies_cnt (omega arith),
        )
        (mark_pages-Marked available (to - from) (from + last_lev_start) a pool v (omega arith)
          (omega arith))
]

end_page-le :
    (available : Bool) (base start end : ℕ)
    → base < 2 ^ 48
    → clamp_start base start < clamp_end base end
    → end_page available base (clamp_end base end) ≤ 2 ^ last_lev
end_page-le true base start end h g = ground arith
end_page-le false base start end h g = ground arith

-- `mark_for_init` never fails on a state in which only pages are free and none is in use, and
-- leaves such a state.
pub mark_for_init-Marked :
    (a : BuddyAllocator) (pool : Pool) (start end : ℕ) (available : Bool)
    → IsInitial a pool
    → Returns (Marked a) (mark_for_init start end available a)
unfolding mark_for_init
mark_for_init-Marked a pool start end available v =
    elim (Bool-cases (leb (clamp_end a.start end) (clamp_start a.start start))) [
      | inl empty ↦ rw empty (returns (unchanged v))
      | inr some ↦ rw some (
          mark_range-Marked available (first_page available a.start (clamp_start a.start start))
            (end_page available a.start (clamp_end a.start end)) a pool v
            (end_page-le available a.start start end v.small (ground arith)))
    ]

pub apply_ops-Marked :
    (ops : List InitOperation) (a : BuddyAllocator) (pool : Pool)
    → IsInitial a pool
    → Returns (Marked a) (apply_ops ops a)
unfolding apply_ops
apply_ops-Marked [] a pool v = returns (unchanged v)
apply_ops-Marked (op ∷ ops) a pool v =
    Returns-bind
      (mark_for_init-Marked a pool op.start op.end (op.operation == make_segment_available) v)
      λ _ a' (pool', w, s).
        Returns-mono (apply_ops-Marked ops a' pool' w) λ _ a'' m. Marked-trans a a' a'' s m
