-- ===== src/Memory.antt =====
-- The physical memory: memory.h and memory.c. `first_buddy` is used under a lock.
pub mod Calls
pub mod Stacks
use os_course_term.Common.{ℕ, Bool, within, Cmd, pure, ◌>>=◌, ◌>>◌, add64, sub64}
use os_course_term.Buddy.{BuddyAllocator, BuddyCmd, buddy_alloc, buddy_free, buddy_get_block_start}
use os_course_term.Threading.{SpinLock, SpinState, spin_lock, spin_unlock}

-- `VA` and `PA` of memory.h.
abbrev pub high_base : ℕ
high_base = 18446603336221196288

abbrev pub va : ℕ → ℕ
va addr = add64 addr high_base

abbrev pub pa : ℕ → ℕ
pa addr = sub64 addr high_base

pub record PhysState : Type 0 where
  pub first_buddy : BuddyAllocator
  pub phys_alloc_lock : SpinLock
  pub valloc_lock : SpinLock
  pub current_thread : ℕ
  pub interrupts : Bool

abbrev pub PhysCmd : Type 0 → Type 0
PhysCmd A = Cmd PhysState A

abbrev pub on_phys_lock : (ℕ → Cmd SpinState (Unit {0})) → PhysCmd (Unit {0})
on_phys_lock m h =
    within (λ s. record h { phys_alloc_lock = s.lock; interrupts = s.interrupts })
      (m h.current_thread (record { lock = h.phys_alloc_lock; interrupts = h.interrupts }))

abbrev pub on_valloc_lock : (ℕ → Cmd SpinState (Unit {0})) → PhysCmd (Unit {0})
on_valloc_lock m h =
    within (λ s. record h { valloc_lock = s.lock; interrupts = s.interrupts })
      (m h.current_thread (record { lock = h.valloc_lock; interrupts = h.interrupts }))

abbrev pub on_buddy : {A : Type 0} → BuddyCmd A → PhysCmd A
on_buddy m h = within (λ s. record h { first_buddy = s }) (m h.first_buddy)

unfoldable pub alloc_big_phys_aligned : ℕ → PhysCmd ℕ
alloc_big_phys_aligned size = do
  on_phys_lock spin_lock
  result ← on_buddy (buddy_alloc size)
  on_phys_lock spin_unlock
  pure result

pub get_big_phys_aligned_block_start : ℕ → PhysCmd ℕ
get_big_phys_aligned_block_start ptr = do
  on_phys_lock spin_lock
  result ← on_buddy (buddy_get_block_start ptr)
  on_phys_lock spin_unlock
  pure result

pub free_big_phys_aligned : ℕ → PhysCmd (Unit {0})
free_big_phys_aligned ptr = do
  on_phys_lock spin_lock
  on_buddy (buddy_free ptr)
  on_phys_lock spin_unlock

unfoldable pub valloc : ℕ → PhysCmd ℕ
valloc size = do
  on_valloc_lock spin_lock
  result ← alloc_big_phys_aligned size
  on_valloc_lock spin_unlock
  pure (va result)

unfoldable pub vfree : ℕ → PhysCmd (Unit {0})
vfree ptr = do on_valloc_lock spin_lock; free_big_phys_aligned (pa ptr); on_valloc_lock spin_unlock
