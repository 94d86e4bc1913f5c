-- ===== src/Threading/Tests.antt =====
-- The theorems about the locks and the switch, at some calls and states of two threads.
use os_course_term.Common.{
  Returns, ℕ, ◌==◌, if◌then◌else◌, ◌+◌, ◌≡◌, refl, arith, true, [], ◌∷◌, List, ok, blocked, ◌>>◌,
  ◌>>=◌,
}
use os_course_term.Threading.Mutex.{
  MutexState, mutex_lock_round, mutex_unlock, mutex_lock_round-mutex_unlock,
}
use os_course_term.LinkedList.{list_empty}
use os_course_term.Threading.Switch.{
  Scheduler, IsSwitched, switch_thread_switch, switch-IsRoundRobin,
}
use os_course_term.Threading.Fair.{IsScheduled, switches, switches_turn}
use os_course_term.Threading.{SpinState, spin_lock, spin_unlock}
use os_course_term.Threading.Spin.{
  spin_lock-blocked, spin_lock-spin_unlock, System, Call, step, run, run-exclusive,
}

abbrev lock_of : (locked owner : ℕ) → SpinState
lock_of locked owner = record {
  lock = record { locked = locked; owner = owner };
  interrupts = true;
}

spin_lock-blocked_example : spin_lock 8 (lock_of 2 4) ≡ blocked
spin_lock-blocked_example = spin_lock-blocked 8 (lock_of 2 4) (omega arith) (omega arith)

spin_lock-spin_unlock_example : (spin_lock 4 >> spin_unlock 4) (lock_of 2 4) ≡ ok tt (lock_of 2 4)
spin_lock-spin_unlock_example =
    spin_lock-spin_unlock 4 (lock_of 2 4) (record { free = λ e. absurd (omega arith) }) refl

abbrev no_calls : System
no_calls = record { cpu = lock_of 0 0; depth = λ t. 0 }

-- Thread 4 locks twice and unlocks once; thread 8 blocks.
abbrev calls : List Call
calls = Call.lock 4 ∷ Call.lock 8 ∷ Call.lock 4 ∷ Call.unlock 4 ∷ []

calls_depth : ((run no_calls calls).depth 4 ≡ 1) × ((run no_calls calls).depth 8 ≡ 0)
unfolding run step spin_lock spin_unlock
calls_depth = (refl, refl)

run-exclusive_example : ◌≡◌ {A = ℕ} 4 4
run-exclusive_example =
    run-exclusive no_calls calls 4 4
      (record { lock = record { free = λ e. refl }; depth = λ t h. ground arith })
      (omega arith, (omega arith, (omega arith, (omega arith, tt)))) (omega arith) (omega arith)
      (omega (arith, calls_depth.0)) (omega (arith, calls_depth.0))

-- Thread 2000 runs, and thread 1000 waits in the queue at 8.
abbrev two_threads : Scheduler
two_threads = record {
  threads = λ t. record { stack_start = 4096; rsp = t + 512; state = 1 };
  heads = record { next = λ p. if p == 8 then 1016 else 8; prev = λ p. if p == 8 then 1016 else 8 };
  running_threads = 8;
  sleeping_threads = 32;
  current_thread = 2000;
  threads_mgmt_lock = record { locked = 0; owner = 0 };
  interrupts = true;
}

switch-IsRoundRobin_example :
    (s' : Scheduler) × (switch_thread_switch 600 two_threads ≡ ok 1512 s')
    × IsSwitched two_threads 600 1000 [] s'
switch-IsRoundRobin_example =
    switch-IsRoundRobin two_threads 600 1000 []
      (record { links = (refl, refl, (refl, refl)); distinct = (refl, (refl, tt)) }) refl refl
      (omega arith)

-- Thread 2000 runs, and 1000 and 3000 are in the queue.
abbrev three_threads : Scheduler
three_threads = record two_threads {
  heads = record {
    next = λ p. if p == 8 then 1016 else if p == 1016 then 3016 else 8;
    prev = λ p. if p == 8 then 3016 else if p == 3016 then 1016 else 8;
  };
}

-- After two switches it is the turn of thread 3000.
switches_turn_example :
    Returns
      (λ _ s'. (s'.current_thread ≡ 3000) × IsScheduled s' (2000 ∷ 1000 ∷ []))
      (switches (600 ∷ 700 ∷ []) three_threads)
switches_turn_example =
    switches_turn (1000 ∷ []) 3000 [] (600 ∷ 700 ∷ []) three_threads
      (record {
        ring = record {
          links = (refl, refl, (refl, refl, (refl, refl)));
          distinct = (refl, (refl, (refl, tt)));
        };
        apart = refl;
        running = (refl, omega arith, (refl, omega arith, (refl, omega arith, tt)));
      })
      refl

-- A mutex with an empty queue at 64, which thread 2000 has taken once.
abbrev own_mutex : MutexState
own_mutex = record {
  scheduler = record two_threads {
    heads = record { next = λ p. if p == 64 then 64 else 0; prev = λ p. 64 };
  };
  mutex = record { locked = 1; owner = 2000; queue = 64 };
}

own_queue-empty : list_empty 64 own_mutex.scheduler.heads ≡ true
unfolding list_empty
own_queue-empty = refl

mutex_lock_round-mutex_unlock_example :
    (mutex_lock_round true >>= λ b. mutex_unlock) own_mutex ≡ ok tt own_mutex
mutex_lock_round-mutex_unlock_example =
    mutex_lock_round-mutex_unlock own_mutex refl (λ e. absurd (omega arith)) refl own_queue-empty
