-- ===== src/Buddy/Fresh.antt =====
-- A block that `buddy_alloc` of buddy.c hands out lies in the memory and overlaps no block in use.
use os_course_term.Common.{
  ℕ, ◌+◌, ◌-◌, ◌*◌, ◌^◌, ◌≤◌, ◌<◌, ◌≡◌, ◌≢◌, arith, ap, ◌∙◌, Option, none, some, update_ne,
  update_self, dec_lt, inl, inr, ◌⊎◌, died, Outcome, Returns, Returns-mono, mul_mono_left,
  sub_mul_split,
}
use os_course_term.Buddy.{
  BuddyAllocator, buddy_levels, buddy_size, last_lev, max_page_size, min_page_size, buddy_alloc,
}
use os_course_term.Buddy.FreeLists.{Pool, OnLevel}
use os_course_term.Buddy.GetLevel.{levels}
use os_course_term.Buddy.Pool.{pool_get}
use os_course_term.Buddy.Pool.Get.{GotSome, pool_get-Got}
use os_course_term.Buddy.Valid.{IsValid, level_product}
use os_course_term.Buddy.Alloc.{Allocated, AllocatesOn, first_leaf}
use os_course_term.Buddy.Fit.{buddy_alloc-AllocatesOn}
use os_course_term.Buddy.Blocks.{InUse, InUse-unique}
use os_course_term.Buddy.Free.{leaf_address}

-- The `size` bytes from `ptr` on lie in the memory of the allocator, and in none of the pages that
-- are in use.
pub record IsFresh (a : BuddyAllocator) (size ptr : ℕ) : Type 0 where
  pub from : a.start ≤ ptr
  pub below : ptr + size ≤ a.start + max_page_size
  pub apart :
      (c x : ℕ)
      → InUse (levels a) c x
      → (leaf_address a x + min_page_size ≤ ptr) ⊎ (ptr + size ≤ leaf_address a x)

module _ (a : BuddyAllocator) (pool : Pool) (v : IsValid a pool) (lev i : ℕ)
    (h : lev < buddy_levels) (o : OnLevel lev i) where
  abbrev width : ℕ
  width = 2 ^ (last_lev - lev)

  -- The leaves of the block, counted from its first one.
  pub leaf_offset : (i - 2 ^ lev) * width + 2 ^ last_lev ≡ i * width
  leaf_offset = omega (arith, sub_mul_split i (2 ^ lev) width o.from, level_product lev h)

  last_leaf : i * width + width ≤ 2 * 2 ^ last_lev
  last_leaf = omega (
    arith,
    level_product lev h,
    mul_mono_left (i + 1) (2 * 2 ^ lev) width (omega (arith, o.below)),
  )

  -- A leaf that is in use was not in the new block.
  old-apart :
      (a' : BuddyAllocator) (pool' : Pool)
      → Allocated a a' pool' lev i
      → (c x : ℕ) → InUse (levels a) c x
      → (x < i * width) ⊎ (i * width + width ≤ x)
  old-apart a' pool' r c x u = elim (dec_lt x (i * width)) [
    | yes before ↦ inl before
    | no n ↦ elim (dec_lt x (i * width + width)) [
      | no m ↦ inr (omega arith)
      | yes m ↦ absurd (
          InUse-unique c (first_leaf lev i) x r.valid
            (record { used = rw kept u.used; from = u.from; below = rw kept u.below })
            (record { used = rw new h; from = omega arith; below = rw new m }) other)
    ]
  ]
    where
      other : c ≢ first_leaf lev i
      other e = absurd (omega (arith, u.used, ap (levels a) e, r.was_free))

      kept : levels a' c ≡ levels a c
      kept = r.level c ∙ update_ne (levels a) (first_leaf lev i) lev c other

      new : levels a' (first_leaf lev i) ≡ lev
      new = r.level (first_leaf lev i) ∙ update_self (levels a) (first_leaf lev i) lev

  pub fresh :
      (size ptr : ℕ) (a' : BuddyAllocator) (pool' : Pool)
      → size ≤ buddy_size lev
      → ptr ≡ a.start + (i - 2 ^ lev) * buddy_size lev
      → Allocated a a' pool' lev i
      → IsFresh a size ptr
  fresh size ptr a' pool' hs e r = record {
    from = omega (arith, e);
    below = omega (arith, e, leaf_offset, last_leaf, hs);
    apart = λ c x u.
        let leaf = v.marks.leaf c u.used in
        elim (old-apart a' pool' r c x u) [
          | inl before ↦ inl (omega (arith, e, leaf_offset, u.from, leaf.from))
          | inr behind ↦ inr (omega (arith, e, leaf_offset, u.from, leaf.from, hs))
        ];
  }

IsFresh-outcome :
    (a : BuddyAllocator) (pool : Pool) (size lev : ℕ) (o : Option (ℕ × Pool))
    (r : Outcome BuddyAllocator ℕ)
    → IsValid a pool
    → lev < buddy_levels
    → size ≤ buddy_size lev
    → GotSome (levels a) lev pool o
    → AllocatesOn a lev o r
    → (r ≡ died) ⊎ Returns (λ ptr _. IsFresh a size ptr) r
IsFresh-outcome a pool size lev none r v h hs g n = inl n
IsFresh-outcome a pool size lev (some (i, pool')) r v h hs (g, o) n =
    inr (Returns-mono n λ ptr a' (e, w). fresh a pool v lev i h o size ptr a' pool' hs e w)

-- On a valid allocator, `buddy_alloc` of a size from 1 to `max_page_size` either halts the machine
-- or returns an address from which on `size` bytes lie in the memory and outside every page that was
-- in use before.
pub buddy_alloc-IsFresh :
    (a : BuddyAllocator) (pool : Pool) (size : ℕ)
    → IsValid a pool
    → 1 ≤ size
    → size ≤ max_page_size
    → (buddy_alloc size a ≡ died) ⊎ Returns (λ ptr _. IsFresh a size ptr) (buddy_alloc size a)
buddy_alloc-IsFresh a pool size v one max =
    let (lev, f, r) = buddy_alloc-AllocatesOn a pool size v one max in
    IsFresh-outcome a pool size lev (pool_get lev pool) (buddy_alloc size a) v
      (omega (arith, f.below)) f.holds
      (pool_get-Got (levels a) pool v.apart v.linked.distinct v.linked.placed lev
        (omega (arith, f.below)))
      r
