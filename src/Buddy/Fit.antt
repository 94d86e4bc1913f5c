-- ===== src/Buddy/Fit.antt =====
-- `buddy_alloc` of buddy.c: the choice of the level, and the whole function.
use os_course_term.Common.{
  ℕ, zero, suc, ◌≤◌, ◌<◌, ◌≡◌, arith, le→ltb, lt→ltb, le→leb, lt→leb, dec_lt, inl, inr, ◌⊎◌, ok,
  died,
}
use os_course_term.Buddy.{
  BuddyAllocator, buddy_levels, last_lev, max_page_size, buddy_size, fit_level, alloc_on_level,
  buddy_alloc,
}
use os_course_term.Buddy.FreeLists.{Pool}
use os_course_term.Buddy.GetLevel.{levels, get_from_level-Refines}
use os_course_term.Buddy.Pool.{pool_get}
use os_course_term.Buddy.Pool.Get.{pool_get-Got}
use os_course_term.Buddy.Valid.{IsValid}
use os_course_term.Buddy.Alloc.{AllocatesOn, alloc_marks}

-- The deepest level, down to `top`, whose blocks hold `size` bytes.
pub record Fits (top size lev : ℕ) : Type 0 where
  pub below : lev ≤ top
  pub holds : size ≤ buddy_size lev
  pub tight : lev < top → buddy_size (suc lev) < size

below_tight :
    (top size lev : ℕ)
    → buddy_size (suc top) < size
    → Fits top size lev
    → lev < suc top
    → buddy_size (suc lev) < size
below_tight top size lev small f h = elim (dec_lt lev top) [
  | yes l ↦ f.tight l
  | no l ↦ let e : lev ≡ top = omega arith in rw e small
]

fit_level-Fits :
    (a : BuddyAllocator) (top size : ℕ)
    → size ≤ buddy_size 0
    → (lev : ℕ) × (fit_level top size a ≡ ok lev a) × Fits top size lev
unfolding fit_level
fit_level-Fits a zero size h = (
  0,
  rw (le→ltb (buddy_size 0) size h),
  record { below = omega arith; holds = h; tight = λ e. absurd (omega arith) },
)
fit_level-Fits a (suc top) size h = elim (dec_lt (buddy_size (suc top)) size) [
  | yes small ↦
      let (lev, e, f) = fit_level-Fits a top size h in
      (
        lev,
        rw (lt→ltb (buddy_size (suc top)) size small) e,
        record {
          below = omega (arith, f.below);
          holds = f.holds;
          tight = λ l. below_tight top size lev small f l;
        },
      )
  | no large ↦ (
    suc top,
    rw (le→ltb (buddy_size (suc top)) size (omega arith)),
    record { below = omega arith; holds = omega arith; tight = λ e. absurd (omega arith) },
  )
]

alloc_on_level-AllocatesOn :
    (a : BuddyAllocator) (pool : Pool) (lev : ℕ)
    → IsValid a pool
    → lev < buddy_levels
    → AllocatesOn a lev (pool_get lev pool) (alloc_on_level lev a)
alloc_on_level-AllocatesOn a pool lev v h =
    alloc_marks a pool lev (pool_get lev pool) v h
      (pool_get-Got (levels a) pool v.apart v.linked.distinct v.linked.placed lev h)
      (get_from_level-Refines a pool v.linked lev h v.apart)

-- For a size from 1 to `max_page_size`, `buddy_alloc` takes the deepest level whose blocks hold the
-- size and does there what the abstract allocation does.
pub buddy_alloc-AllocatesOn :
    (a : BuddyAllocator) (pool : Pool) (size : ℕ)
    → IsValid a pool
    → 1 ≤ size
    → size ≤ max_page_size
    → (lev : ℕ) × Fits last_lev size lev
      × AllocatesOn a lev (pool_get lev pool) (buddy_alloc size a)
unfolding buddy_alloc
buddy_alloc-AllocatesOn a pool size v one max =
    let (lev, e, f) = fit_level-Fits a last_lev size max in
    (
      lev,
      f,
      rw (le→leb 1 size one, le→leb size max_page_size max, e)
          (alloc_on_level-AllocatesOn a pool lev v (omega (arith, f.below))),
    )

-- Any other size halts the machine.
pub buddy_alloc-died :
    (a : BuddyAllocator) (size : ℕ)
    → (size ≡ 0) ⊎ (max_page_size < size)
    → buddy_alloc size a ≡ died
unfolding buddy_alloc
buddy_alloc-died a size (inl h) = rw h
buddy_alloc-died a size (inr h) = rw (le→leb 1 size (omega arith), lt→leb size max_page_size h)
