-- ===== src/Memory/Calls.antt =====
-- The calls of memory.c on a page allocator that is ready: they take `phys_alloc_lock` and give it
-- back.
use os_course_term.Common.{
  ℕ, ◌+◌, ◌-◌, ◌*◌, ◌%◌, ◌^◌, ◌≤◌, ◌<◌, ◌≡◌, ◌≢◌, refl, arith, sym, ◌∙◌, false, ◌==◌, if◌then◌else◌,
  ok, Ends, ends, Ends-bind, Ends-died, died, Ends-within, Returns, returns, Returns-bind,
  Returns-within, update_ne,
}
use os_course_term.Buddy.{
  BuddyAllocator, buddy_levels, last_lev, max_page_size, buddy_alloc, leaf_of,
}
use os_course_term.Buddy.FreeLists.{Pool}
use os_course_term.Buddy.GetLevel.{levels}
use os_course_term.Buddy.Valid.{IsValid}
use os_course_term.Buddy.Free.{Freed, kept, leaf_address, buddy_free-Freed}
use os_course_term.Buddy.Taken.{IsBlock, block_ends, Takes, buddy_alloc-Takes}
use os_course_term.Buddy.BlockStart.Lookup.{get_block_start-InUse}
use os_course_term.Threading.{SpinState, is_held, spin_lock, spin_unlock}
use os_course_term.Threading.Spin.{spin_lock_taken, spin_unlock_given, given_back}
use os_course_term.Memory.{
  PhysState, on_phys_lock, alloc_big_phys_aligned, free_big_phys_aligned,
  get_big_phys_aligned_block_start,
}

-- The allocator is valid, its pages are aligned, and its lock is not held by another thread.
pub record IsReady (h : PhysState) : Type 0 where
  pub pool : Pool
  pub valid : IsValid h.first_buddy pool
  pub aligned : h.first_buddy.start % 4096 ≡ 0
  pub small : h.first_buddy.start + max_page_size ≤ 2 ^ 48
  pub mine : is_held h.current_thread h.phys_alloc_lock ≡ false

-- The memory while the lock is taken, and after it is given back.
abbrev pub locked_memory : PhysState → PhysState
locked_memory h = record h {
  phys_alloc_lock = record { locked = h.phys_alloc_lock.locked + 1; owner = h.current_thread };
}

abbrev pub unlocked_memory : PhysState → BuddyAllocator → PhysState
unlocked_memory h a = record h {
  first_buddy = a;
  phys_alloc_lock = record {
    locked = h.phys_alloc_lock.locked;
    owner = if h.phys_alloc_lock.locked == 0 then 0 else h.current_thread;
  };
}

lock_taken :
    (h : PhysState)
    → is_held h.current_thread h.phys_alloc_lock ≡ false
    → on_phys_lock spin_lock h ≡ ok tt (locked_memory h)
lock_taken h mine =
    rw
      (spin_lock_taken h.current_thread
        (record { lock = h.phys_alloc_lock; interrupts = h.interrupts }) mine)
      refl

lock_given :
    (h : PhysState) (a : BuddyAllocator)
    → on_phys_lock spin_unlock (record (locked_memory h) { first_buddy = a })
      ≡ ok tt (unlocked_memory h a)
lock_given h a =
    let held : SpinState = record {
      lock = (locked_memory h).phys_alloc_lock;
      interrupts = h.interrupts;
    } in
    rw (spin_unlock_given h.current_thread h.phys_alloc_lock.locked held refl) refl

-- The lock is free again, over an allocator in the place of the old one.
pub unlocked-IsReady :
    (h : PhysState) (v : IsReady h) (a : BuddyAllocator) (pool : Pool)
    → IsValid a pool
    → a.start ≡ h.first_buddy.start
    → IsReady (unlocked_memory h a)
unlocked-IsReady h v a pool w e = record {
  pool = pool;
  valid = w;
  aligned = omega (arith, e, v.aligned);
  small = omega (arith, e, v.small);
  mine = given_back h.current_thread h.phys_alloc_lock.locked;
}

-- `alloc_big_phys_aligned` is `buddy_alloc` under the lock, and halts the machine where that does.
pub alloc_big_phys_aligned-Takes :
    (h : PhysState) (size : ℕ)
    → IsReady h
    → 1 ≤ size
    → size ≤ max_page_size
    → Ends
        (buddy_alloc size h.first_buddy ≡ died)
        (λ t h'. (a : BuddyAllocator) × Takes h.first_buddy size t a × (h' ≡ unlocked_memory h a))
        (alloc_big_phys_aligned size h)
unfolding alloc_big_phys_aligned
alloc_big_phys_aligned-Takes h size v one max = rw (lock_taken h v.mine) (
    Ends-bind
      {P = λ t h'.
        (a : BuddyAllocator) × Takes h.first_buddy size t a
        × (h' ≡ record (locked_memory h) { first_buddy = a })}
      (Ends-within (λ s. record (locked_memory h) { first_buddy = s })
        (Ends-died (buddy_alloc-Takes h.first_buddy v.pool size v.valid one max))
        λ t a r. (a, r, refl))
      λ t h' (a, r, e). rw (e, lock_given h a) (ends (a, r, refl)))

-- An address in a block in use leads to the block's start.
pub block_start_lem :
    (h : PhysState) (size t ptr : ℕ)
    → IsReady h
    → IsBlock h.first_buddy size t
    → t ≤ ptr
    → ptr < t + size
    → get_big_phys_aligned_block_start ptr h ≡ ok t (unlocked_memory h h.first_buddy)
unfolding get_big_phys_aligned_block_start
block_start_lem h size t ptr v b from below =
    let a : BuddyAllocator = h.first_buddy in
    let leaf = v.valid.marks.leaf b.leaf b.used in
    let ends : b.leaf + 2 ^ (last_lev - levels a b.leaf) ≤ 2 * 2 ^ last_lev =
      block_ends a v.pool v.valid b.leaf b.used in
    let low : leaf_of ptr a < b.leaf + 2 ^ (last_lev - levels a b.leaf) =
      omega (arith, v.small, b.at, b.wide, leaf.from, from, below, ends) in
    let found =
      get_block_start-InUse a v.pool v.valid ptr (omega (arith, b.at))
        (omega (arith, b.at, b.wide, leaf.from, ends)) b.leaf
        (record {
          used = b.used;
          from = omega (arith, v.small, b.at, b.wide, leaf.from, ends);
          below = low;
        }) in
    rw (lock_taken h v.mine, found, sym b.at, lock_given h a) refl

-- No block starts any more at the one that was freed, and none is new.
only_others :
    (a : BuddyAllocator) (pool : Pool) (v : IsValid a pool) (size t : ℕ) (b : IsBlock a size t)
    (a' : BuddyAllocator) (pool' : Pool)
    → Freed a a' pool' b.leaf
    → (n u : ℕ) → IsBlock a' n u
    → IsBlock a n u × (u ≢ leaf_address a b.leaf)
only_others a pool v size t b a' pool' r n u w =
    let (other, used, same) =
      kept (levels a) b.leaf w.leaf (omega (arith, w.used, r.level w.leaf)) in
    let from = v.marks.leaf b.leaf b.used in
    let from' = v.marks.leaf w.leaf used in
    (
      record {
        leaf = w.leaf;
        used = used;
        at = omega (arith, w.at, r.start);
        wide = rw (← same) (rw (r.level w.leaf) at w.wide);
      },
      λ e. absurd (other (omega (arith, e, w.at, r.start, from, from'))),
    )

-- `free_big_phys_aligned` of a block in use gives it back and keeps all other blocks, and only them.
pub free_big_phys_aligned-Freed :
    (h : PhysState) (size t : ℕ)
    → IsReady h
    → IsBlock h.first_buddy size t
    → Returns
        (λ _ h'.
          (a : BuddyAllocator) × (h' ≡ unlocked_memory h a)
          × IsReady h'
          × (a.start ≡ h.first_buddy.start)
          × ((n u : ℕ) → IsBlock h.first_buddy n u → u ≢ t → IsBlock a n u)
          × ((n u : ℕ) → IsBlock a n u → IsBlock h.first_buddy n u × (u ≢ t)))
        (free_big_phys_aligned t h)
unfolding free_big_phys_aligned
free_big_phys_aligned-Freed h size t v b =
    rw (lock_taken h v.mine, b.at)
      (Returns-bind
        {P = λ _ h'.
          (a : BuddyAllocator) × (pool' : Pool) × Freed h.first_buddy a pool' b.leaf
          × (h' ≡ record (locked_memory h) { first_buddy = a })}
        (Returns-within (λ s. record (locked_memory h) { first_buddy = s })
          (buddy_free-Freed h.first_buddy v.pool v.valid b.leaf b.used) λ _ a r. (a, _, r, refl))
        λ _ h' (a, pool', r, e).
          rw (e, lock_given h a)
            (returns (
              a,
              refl,
              unlocked-IsReady h v a pool' r.valid r.start,
              r.start,
              λ n u w other.
                  let apart : w.leaf ≢ b.leaf = λ q. other (rw (w.at, q, sym b.at) refl) in
                  let same : levels a w.leaf ≡ levels h.first_buddy w.leaf =
                    r.level w.leaf
                    ∙ update_ne (levels h.first_buddy) b.leaf buddy_levels w.leaf apart in
                  record {
                    leaf = w.leaf;
                    used = rw same w.used;
                    at = omega (arith, w.at, r.start);
                    wide = rw same w.wide;
                  },
              only_others h.first_buddy v.pool v.valid size t b a pool' r,
            )))
