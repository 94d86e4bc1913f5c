-- ===== src/Threading/Mutex.antt =====
-- `mutex_lock` and `mutex_unlock` of threading.c. A round of `mutex_lock` ends when the thread has the
-- mutex, or where it yields; `log` only prints.
use os_course_term.Common.{
  ℕ, ◌+◌, ◌-◌, Bool, true, false, ◌&&◌, not, ◌==◌, if◌then◌else◌, Outcome, ok, Cmd, ◌≡◌, sym, ap,
  arith, Bool-cases, inl, inr, ==_refl, ==_iff, ◌>>=◌, ◌>>◌, assert,
}
use os_course_term.LinkedList.{list_init, list_empty, list_first}
use os_course_term.Threading.Switch.{Scheduler, thread_of, with_state, enqueue, make_running}

abbrev pub thread_waiting : ℕ
thread_waiting = 3

-- `queue` is the address of the list head.
pub record Mutex : Type 0 where
  pub locked : ℕ
  pub owner : ℕ
  pub queue : ℕ

pub record MutexState : Type 0 where
  pub scheduler : Scheduler
  pub mutex : Mutex

abbrev pub set_interrupts : Bool → MutexState → MutexState
set_interrupts flags m = record m { scheduler = record m.scheduler { interrupts = flags } }

abbrev pub is_taken : MutexState → Bool
is_taken m = not (m.mutex.locked == 0) && not (m.mutex.owner == m.scheduler.current_thread)

-- The body of the loop, up to `yield`.
pub wait_in_queue : MutexState → MutexState
wait_in_queue m =
    let s = enqueue m.mutex.queue m.scheduler.current_thread m.scheduler in
    record m { scheduler = with_state s.current_thread thread_waiting s }

-- A queue whose head has no `next` is initialized.
pub take_mutex : MutexState → MutexState
take_mutex m =
    let s = m.scheduler in
    let q = m.mutex.queue in
    record {
      scheduler = if s.heads.next q == 0 then record s { heads = list_init q s.heads } else s;
      mutex = record m.mutex { locked = m.mutex.locked + 1; owner = s.current_thread };
    }

-- `flags` is what `get_rflags` returned when the thread called `mutex_lock`.
pub mutex_lock_round : (flags : Bool) → Cmd MutexState Bool
mutex_lock_round flags m =
    if is_taken m
    then ok false (wait_in_queue (set_interrupts false m))
    else ok true (set_interrupts flags (take_mutex (set_interrupts false m)))

-- `if (!list_empty(&lock->queue)) …`
pub wake_first : MutexState → MutexState
wake_first m =
    let s = m.scheduler in
    let first = thread_of (list_first m.mutex.queue s.heads) in
    if list_empty m.mutex.queue s.heads then m else record m { scheduler = make_running first s }

-- `if (!--lock->locked) …`
pub give_back : MutexState → MutexState
give_back m =
    let freed = record m { mutex = record m.mutex { locked = m.mutex.locked - 1; owner = 0 } } in
    if m.mutex.locked - 1 == 0
    then wake_first freed
    else record m { mutex = record m.mutex { locked = m.mutex.locked - 1 } }

pub mutex_unlock : Cmd MutexState (Unit {0})
mutex_unlock m =
    (do
      assert (not (m.mutex.locked == 0))
      assert (m.mutex.owner == m.scheduler.current_thread)
      λ s. ok tt (set_interrupts m.scheduler.interrupts (give_back s)))
      (set_interrupts false m)

-- With the mutex in no other thread's hands and nobody in its queue, a lock and an unlock leave it, and
-- the interrupt flag, as they were.
pub mutex_lock_round-mutex_unlock :
    (m : MutexState)
    → is_taken m ≡ false
    → (m.mutex.locked ≡ 0 → m.mutex.owner ≡ 0)
    → (m.scheduler.heads.next m.mutex.queue == 0) ≡ false
    → list_empty m.mutex.queue m.scheduler.heads ≡ true
    → (mutex_lock_round m.scheduler.interrupts >>= λ b. mutex_unlock) m ≡ ok tt m
unfolding mutex_lock_round mutex_unlock take_mutex give_back wake_first
mutex_lock_round-mutex_unlock m free unowned ready empty =
    let taken : (m.mutex.locked + 1 == 0) ≡ false = ground arith in
    let count : m.mutex.locked + 1 - 1 ≡ m.mutex.locked = omega arith in
    let with_owner : ℕ → Outcome MutexState (Unit {0}) =
      λ o. ok tt (record m { mutex = record m.mutex { owner = o } }) in
    elim (Bool-cases (m.mutex.locked == 0)) [
      | inl last ↦
          simp (taken, count, ready, empty, last, ==_refl)
            (ap with_owner (sym (unowned ((==_iff m.mutex.locked 0).0 last))))
      | inr more ↦
          let mine : m.scheduler.current_thread ≡ m.mutex.owner = ground arith in
          let held : (m.mutex.owner == m.scheduler.current_thread) ≡ true = ground arith in
          simp (held, taken, count, ready, empty, more, ==_refl) (ap with_owner mine)
    ]
