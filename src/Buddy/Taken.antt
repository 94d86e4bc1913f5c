-- ===== src/Buddy/Taken.antt =====
-- The pages in use before and after `buddy_alloc` of buddy.c.
use os_course_term.Common.{
  ℕ, ◌+◌, ◌-◌, ◌*◌, ◌^◌, ◌≤◌, ◌<◌, ◌≡◌, ◌≢◌, ap, ◌∙◌, arith, Option, none, some, update_ne,
  update_self, mul_mono_left, pow2_pos, Outcome, returns, Ends, ends, dies,
}
use os_course_term.Buddy.{
  BuddyAllocator, buddy_levels, buddy_size, last_lev, max_page_size, buddy_alloc,
}
use os_course_term.Buddy.FreeLists.{Pool, OnLevel}
use os_course_term.Buddy.GetLevel.{levels}
use os_course_term.Buddy.Pool.{pool_get, node_of}
use os_course_term.Buddy.Pool.Get.{GotSome, pool_get-Got}
use os_course_term.Buddy.Valid.{IsValid, level_product}
use os_course_term.Buddy.Alloc.{Allocated, AllocatesOn, first_leaf}
use os_course_term.Buddy.Fit.{buddy_alloc-AllocatesOn}
use os_course_term.Buddy.Blocks.{InUse}
use os_course_term.Buddy.Free.{leaf_address, node-OnLevel}
use os_course_term.Buddy.Fresh.{IsFresh, fresh, leaf_offset}

-- The page at `t` lies in a block in use.
abbrev pub IsTaken : BuddyAllocator → ℕ → Type 0
IsTaken a t = (c : ℕ) × (x : ℕ) × InUse (levels a) c x × (t ≡ leaf_address a x)

-- A block in use of at least `size` bytes starts at `t`.
pub record IsBlock (a : BuddyAllocator) (size t : ℕ) : Type 0 where
  pub leaf : ℕ
  pub used : levels a leaf < buddy_levels
  pub at : t ≡ leaf_address a leaf
  pub wide : size ≤ buddy_size (levels a leaf)

-- The page at `ptr` is taken from now on, and those that were taken still are.
pub record Takes (a : BuddyAllocator) (size ptr : ℕ) (a' : BuddyAllocator) : Type 0 where
  pub pool : Pool
  pub valid : IsValid a' pool
  pub start : a'.start ≡ a.start
  pub fresh : IsFresh a size ptr
  pub page : IsTaken a' ptr
  pub kept : (t : ℕ) → IsTaken a t → IsTaken a' t
  pub block : IsBlock a' size ptr
  pub blocks : (n t : ℕ) → IsBlock a n t → IsBlock a' n t × (t ≢ ptr)

-- The leaves of a block in use are leaves.
pub block_ends :
    (a : BuddyAllocator) (pool : Pool) (v : IsValid a pool) (c : ℕ)
    → levels a c < buddy_levels
    → c + 2 ^ (last_lev - levels a c) ≤ 2 * 2 ^ last_lev
block_ends a pool v c used =
    let o = node-OnLevel a pool v c used in
    omega (
      arith,
      level_product (levels a c) used,
      v.marks.aligned c used,
      mul_mono_left (node_of (levels a) c + 1) (2 * 2 ^ levels a c) (2 ^ (last_lev - levels a c))
          (omega (arith, o.below)),
    )

-- A block in use lies in the memory of the allocator.
pub block_inside :
    (a : BuddyAllocator) (pool : Pool) (size t : ℕ)
    → IsValid a pool
    → IsBlock a size t
    → (a.start ≤ t) × (t + size ≤ a.start + max_page_size)
block_inside a pool size t v b =
    let leaf = v.marks.leaf b.leaf b.used in
    let ends = block_ends a pool v b.leaf b.used in
    (omega (arith, b.at), omega (arith, b.at, b.wide, leaf.from, ends))

takes :
    (a : BuddyAllocator) (pool : Pool) (size lev i ptr : ℕ) (a' : BuddyAllocator) (pool' : Pool)
    → IsValid a pool
    → lev < buddy_levels
    → OnLevel lev i
    → size ≤ buddy_size lev
    → ptr ≡ a.start + (i - 2 ^ lev) * buddy_size lev
    → Allocated a a' pool' lev i
    → Takes a size ptr a'
takes a pool size lev i ptr a' pool' v h o hs e r = record {
  pool = pool';
  valid = r.valid;
  start = r.start;
  fresh = fresh a pool v lev i h o size ptr a' pool' hs e r;
  page = (
    first_leaf lev i,
    first_leaf lev i,
    record {
      used = rw new h;
      from = omega arith;
      below = rw new (omega (arith, pow2_pos (last_lev - lev)));
    },
    omega (arith, e, r.start, leaf_offset a pool v lev i h o),
  );
  kept = λ t (c, x, u, et). (
    c,
    x,
    record { used = rw (old c u.used) u.used; from = u.from; below = rw (old c u.used) u.below },
    omega (arith, et, r.start),
  );
  block = record {
    leaf = first_leaf lev i;
    used = rw new h;
    at = omega (arith, e, r.start, leaf_offset a pool v lev i h o);
    wide = rw new hs;
  };
  blocks = λ n t b. (
    record {
      leaf = b.leaf;
      used = rw (old b.leaf b.used) b.used;
      at = omega (arith, b.at, r.start);
      wide = rw (old b.leaf b.used) b.wide;
    },
    λ q.
        let leaf = v.marks.leaf b.leaf b.used in
        let same : b.leaf ≡ first_leaf lev i =
          omega (arith, q, e, b.at, leaf.from, leaf_offset a pool v lev i h o) in
        absurd (omega (arith, b.used, ap (levels a) same, r.was_free)),
  );
}
  where
    new : levels a' (first_leaf lev i) ≡ lev
    new = r.level (first_leaf lev i) ∙ update_self (levels a) (first_leaf lev i) lev

    old : (c : ℕ) → levels a c < buddy_levels → levels a' c ≡ levels a c
    old c used =
        r.level c
        ∙ update_ne (levels a) (first_leaf lev i) lev c
            λ e. omega (arith, used, ap (levels a) e, r.was_free)

Takes-outcome :
    (a : BuddyAllocator) (pool : Pool) (size lev : ℕ) (o : Option (ℕ × Pool))
    (r : Outcome BuddyAllocator ℕ)
    → IsValid a pool
    → lev < buddy_levels
    → size ≤ buddy_size lev
    → GotSome (levels a) lev pool o
    → AllocatesOn a lev o r
    → Ends (Unit {0}) (Takes a size) r
Takes-outcome a pool size lev none r v h hs g n = rw n (dies tt)
Takes-outcome a pool size lev (some (i, pool')) r v h hs (_, o) (returns (e, alloc)) =
    ends (takes a pool size lev i _ _ pool' v h o hs e alloc)

-- On a valid allocator, `buddy_alloc` of a size from 1 to `max_page_size` takes a page, or halts the
-- machine.
pub buddy_alloc-Takes :
    (a : BuddyAllocator) (pool : Pool) (size : ℕ)
    → IsValid a pool
    → 1 ≤ size
    → size ≤ max_page_size
    → Ends (Unit {0}) (Takes a size) (buddy_alloc size a)
buddy_alloc-Takes a pool size v one max =
    let (lev, f, r) = buddy_alloc-AllocatesOn a pool size v one max in
    Takes-outcome a pool size lev (pool_get lev pool) (buddy_alloc size a) v
      (omega (arith, f.below)) f.holds
      (pool_get-Got (levels a) pool v.apart v.linked.distinct v.linked.placed lev
        (omega (arith, f.below)))
      r
