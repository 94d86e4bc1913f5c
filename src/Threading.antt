-- ===== src/Threading.antt =====
-- The spin lock of threading.h and threading.c; the children add the threads and the mutex. A thread is the address of its `struct thread`, and NULL
-- is 0. Each call runs with interrupts off, so that no other thread comes in between.
pub mod Spin
pub mod Switch
pub mod Fair
pub mod Mutex
mod Tests
use os_course_term.Common.{
  ℕ, ◌+◌, ◌-◌, Bool, true, false, ◌&&◌, not, ◌==◌, if◌then◌else◌, Outcome, ok, blocked, Cmd, pure,
  ◌>>=◌, ◌>>◌, assert, when,
}

pub record SpinLock : Type 0 where
  pub locked : ℕ
  pub owner : ℕ

-- A lock, and the interrupt flag of the processor.
pub record SpinState : Type 0 where
  pub lock : SpinLock
  pub interrupts : Bool

abbrev pub cli : Cmd SpinState (Unit {0})
cli s = ok tt (record s { interrupts = false })

abbrev pub set_rflags : Bool → Cmd SpinState (Unit {0})
set_rflags flags s = ok tt (record s { interrupts = flags })

-- The condition on which `spin_lock` calls `yield`, again and again.
abbrev pub is_held : (me : ℕ) → SpinLock → Bool
is_held me l = not (l.locked == 0) && not (l.owner == me)

abbrev hold : (me : ℕ) → Cmd SpinState (Unit {0})
hold me s =
    if is_held me s.lock
    then blocked
    else ok tt (record s { lock = record { locked = s.lock.locked + 1; owner = me } })

unfoldable pub spin_lock : (me : ℕ) → Cmd SpinState (Unit {0})
spin_lock me s = (do cli; hold me; set_rflags s.interrupts) s

abbrev release : Cmd SpinState (Unit {0})
release s = ok tt (record s {
  lock = record {
    locked = s.lock.locked - 1;
    owner = if s.lock.locked - 1 == 0 then 0 else s.lock.owner;
  };
})

unfoldable pub spin_unlock : (me : ℕ) → Cmd SpinState (Unit {0})
spin_unlock me s =
    (do
      cli
      assert (not (s.lock.locked == 0))
      assert (s.lock.owner == me)
      release
      set_rflags s.interrupts)
      s
