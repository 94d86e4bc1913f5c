-- ===== src/Memory/Stacks.antt =====
-- `valloc` and `vfree` of memory.c, which give threads their stacks and take them back.
use os_course_term.Common.{
  ℕ, ◌+◌, ◌≤◌, ◌≡◌, refl, false, ◌==◌, if◌then◌else◌, ok, died, Ends, ends, Ends-bind, Returns,
  returns, Returns-bind, ◌≢◌,
}
use os_course_term.Buddy.{BuddyAllocator, buddy_alloc, max_page_size}
use os_course_term.Buddy.Taken.{Takes, IsBlock}
use os_course_term.Threading.{SpinLock, SpinState, is_held, spin_lock, spin_unlock}
use os_course_term.Threading.Spin.{spin_lock_taken, spin_unlock_given, given_back}
use os_course_term.Memory.{PhysState, on_valloc_lock, va, pa, valloc, vfree}
use os_course_term.Memory.Calls.{
  IsReady, unlocked_memory, unlocked-IsReady, alloc_big_phys_aligned-Takes,
  free_big_phys_aligned-Freed,
}

-- A block of `size` bytes starts at the address, which was not in use before.
pub record Gives (h : PhysState) (size p : ℕ) (m : PhysState) : Type 0 where
  pub block : ℕ
  pub at : p ≡ va block
  pub takes : Takes h.first_buddy size block m.first_buddy
  pub ready : IsReady m
  pub thread : m.current_thread ≡ h.current_thread
  pub mine : is_held m.current_thread m.valloc_lock ≡ false

abbrev held : PhysState → PhysState
held h = record h {
  valloc_lock = record { locked = h.valloc_lock.locked + 1; owner = h.current_thread };
}

abbrev given_lock : PhysState → SpinLock
given_lock h = record {
  locked = h.valloc_lock.locked;
  owner = if h.valloc_lock.locked == 0 then 0 else h.current_thread;
}

held_taken :
    (h : PhysState)
    → is_held h.current_thread h.valloc_lock ≡ false
    → on_valloc_lock spin_lock h ≡ ok tt (held h)
held_taken h mine =
    rw
      (spin_lock_taken h.current_thread (record { lock = h.valloc_lock; interrupts = h.interrupts })
        mine)
      refl

held_given :
    (h : PhysState) (a : BuddyAllocator)
    → on_valloc_lock spin_unlock (unlocked_memory (held h) a)
      ≡ ok tt (record (unlocked_memory h a) { valloc_lock = given_lock h })
held_given h a =
    let cpu : SpinState = record { lock = (held h).valloc_lock; interrupts = h.interrupts } in
    rw (spin_unlock_given h.current_thread h.valloc_lock.locked cpu refl) refl

-- `valloc` halts the machine where `buddy_alloc` does, and otherwise returns a block that was free.
pub valloc-Gives :
    (h : PhysState) (size : ℕ)
    → IsReady h
    → is_held h.current_thread h.valloc_lock ≡ false
    → 1 ≤ size
    → size ≤ max_page_size
    → Ends (buddy_alloc size h.first_buddy ≡ died) (Gives h size) (valloc size h)
unfolding valloc
valloc-Gives h size v mine one max =
    let ready : IsReady (held h) = record {
      pool = v.pool;
      valid = v.valid;
      aligned = v.aligned;
      small = v.small;
      mine = v.mine;
    } in
    rw (held_taken h mine) (
      Ends-bind (alloc_big_phys_aligned-Takes (held h) size ready one max) λ t m (a, r, e).
        rw (e, held_given h a)
          (ends (record {
            block = t;
            at = refl;
            takes = r;
            ready =
                let after = unlocked-IsReady h v a r.pool r.valid r.start in
                record {
                  pool = after.pool;
                  valid = after.valid;
                  aligned = after.aligned;
                  small = after.small;
                  mine = after.mine;
                };
            thread = refl;
            mine = given_back h.current_thread h.valloc_lock.locked;
          })))

-- The block at `t` is not in use any more, and all others are.
pub record TakesBack (h : PhysState) (t : ℕ) (m : PhysState) : Type 0 where
  pub ready : IsReady m
  pub start : m.first_buddy.start ≡ h.first_buddy.start
  pub blocks : (n u : ℕ) → IsBlock h.first_buddy n u → u ≢ t → IsBlock m.first_buddy n u
  pub only : (n u : ℕ) → IsBlock m.first_buddy n u → IsBlock h.first_buddy n u × (u ≢ t)
  pub thread : m.current_thread ≡ h.current_thread

-- `vfree` of a block in use gives it back.
pub vfree-TakesBack :
    (h : PhysState) (size ptr : ℕ)
    → IsReady h
    → is_held h.current_thread h.valloc_lock ≡ false
    → IsBlock h.first_buddy size (pa ptr)
    → Returns (λ _ m. TakesBack h (pa ptr) m) (vfree ptr h)
unfolding vfree
vfree-TakesBack h size ptr v mine b =
    let ready : IsReady (held h) = record {
      pool = v.pool;
      valid = v.valid;
      aligned = v.aligned;
      small = v.small;
      mine = v.mine;
    } in
    rw (held_taken h mine) (
      Returns-bind (free_big_phys_aligned-Freed (held h) size (pa ptr) ready b)
        λ _ m (a, e, after, start, kept, only).
          rw (e, held_given h a)
            (returns (record {
              ready =
                  let w : IsReady (unlocked_memory (held h) a) = rw e at after in
                  record {
                    pool = w.pool;
                    valid = w.valid;
                    aligned = w.aligned;
                    small = w.small;
                    mine = w.mine;
                  };
              start = start;
              blocks = kept;
              only = only;
              thread = refl;
            })))
