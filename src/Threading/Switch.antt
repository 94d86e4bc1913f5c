-- ===== src/Threading/Switch.antt =====
-- The threads of threading.c and their queues: the switch, `wake`, and the steps of `sleep` and
-- `thread_exit` that come before their `yield`. `log` only prints.
use os_course_term.Common.{
  ℕ, ◌+◌, ◌^◌, ◌<◌, ◌≡◌, refl, sym, ap, subst, arith, ℕ_discrete, Bool, false, ◌==◌, if◌then◌else◌,
  List, [], ◌∷◌, ◌++◌, has, update, update_ne, update_self, ok, within, Cmd, ◌>>◌, sub64,
}
use os_course_term.LinkedList.{ListHeads, list_add_tail, list_del, list_first}
use os_course_term.LinkedList.Ring.{IsRing, list_add_tail-IsRing, list_del-IsRing, list_empty_lem}
use os_course_term.Threading.{SpinLock, SpinState, spin_lock, spin_unlock}

abbrev pub thread_running : ℕ
thread_running = 1

abbrev pub thread_sleeping : ℕ
thread_sleeping = 2

abbrev pub thread_terminated : ℕ
thread_terminated = 4

pub record Thread : Type 0 where
  pub stack_start : ℕ
  pub rsp : ℕ
  pub state : ℕ

-- The threads by their addresses, all links, and the global variables; `running_threads` and
-- `sleeping_threads` are the addresses of the list heads.
pub record Scheduler : Type 0 where
  pub threads : ℕ → Thread
  pub heads : ListHeads
  pub running_threads : ℕ
  pub sleeping_threads : ℕ
  pub current_thread : ℕ
  pub threads_mgmt_lock : SpinLock
  pub interrupts : Bool

abbrev pub SchedulerCmd : Type 0 → Type 0
SchedulerCmd A = Cmd Scheduler A

-- `&t->list`, and `UNL` back from it.
abbrev pub list_of : ℕ → ℕ
list_of t = t + 16

abbrev pub thread_of : ℕ → ℕ
thread_of p = sub64 p 16

abbrev pub with_state : (t v : ℕ) → Scheduler → Scheduler
with_state t v s = record s { threads = update s.threads t (record (s.threads t) { state = v }) }

abbrev pub enqueue : (head t : ℕ) → Scheduler → Scheduler
enqueue head t s = record s { heads = list_add_tail (list_of t) head s.heads }

abbrev pub save_rsp : ℕ → Scheduler → Scheduler
save_rsp old s = record s {
  threads = update s.threads s.current_thread (record (s.threads s.current_thread) { rsp = old });
}

-- The two `if`s on the state of the thread that is left.
pub put_back : Scheduler → Scheduler
put_back s =
    let state = (s.threads s.current_thread).state in
    let r = if state == thread_running then enqueue s.running_threads s.current_thread s else s in
    if state == thread_sleeping then enqueue r.sleeping_threads r.current_thread r else r

-- The first running thread becomes the current one and leaves its queue.
pub pick_next : Scheduler → Scheduler
pick_next s =
    let next = thread_of (list_first s.running_threads s.heads) in
    record s { current_thread = next; heads = list_del (list_of next) s.heads }

pub switch_thread_switch : ℕ → SchedulerCmd ℕ
switch_thread_switch old_rsp s =
    let r = pick_next (put_back (save_rsp old_rsp s)) in ok (r.threads r.current_thread).rsp r

abbrev pub on_mgmt : (ℕ → Cmd SpinState (Unit {0})) → SchedulerCmd (Unit {0})
on_mgmt m h =
    within (λ s. record h { threads_mgmt_lock = s.lock; interrupts = s.interrupts })
      (m h.current_thread (record { lock = h.threads_mgmt_lock; interrupts = h.interrupts }))

-- `thread_exit` and `sleep` up to their `yield`.
pub set_current_state : ℕ → SchedulerCmd (Unit {0})
set_current_state v = do
  on_mgmt spin_lock
  λ s. ok tt (with_state s.current_thread v s)
  on_mgmt spin_unlock

pub get_thread_state : ℕ → SchedulerCmd ℕ
get_thread_state t s = ok (s.threads t).state s

-- The body of the `if` in `wake`.
pub make_running : ℕ → Scheduler → Scheduler
make_running t s =
    let r = with_state t thread_running s in
    enqueue r.running_threads t (record r { heads = list_del (list_of t) r.heads })

pub wake : ℕ → SchedulerCmd (Unit {0})
wake t = do
  on_mgmt spin_lock
  λ s. ok tt (if (s.threads t).state == thread_sleeping then make_running t s else s)
  on_mgmt spin_unlock

put_back-running :
    (s : Scheduler)
    → (s.threads s.current_thread).state ≡ thread_running
    → put_back s ≡ enqueue s.running_threads s.current_thread s
unfolding put_back
put_back-running s running = rw running refl

pick_next-first :
    (s : Scheduler) (t : ℕ) (xs : List ℕ)
    → IsRing s.heads s.running_threads (list_of t ∷ xs)
    → t + 16 < 2 ^ 64
    → pick_next s ≡ record s { current_thread = t; heads = list_del (list_of t) s.heads }
unfolding pick_next
pick_next-first s t xs v small =
    let front : list_first s.running_threads s.heads ≡ list_of t =
      (list_empty_lem s.heads s.running_threads (list_of t) xs v).1 in
    let back : thread_of (list_of t) ≡ t = omega arith in rw (front, back) refl

-- What a switch to thread `t` leaves, of a queue of `t` and `xs`.
pub record IsSwitched (s : Scheduler) (old_rsp t : ℕ) (xs : List ℕ) (s' : Scheduler) : Type 0 where
  pub current : s'.current_thread ≡ t
  pub saved : (s'.threads s.current_thread).rsp ≡ old_rsp
  pub queue : s'.running_threads ≡ s.running_threads
  pub ring : IsRing s'.heads s.running_threads (xs ++ list_of s.current_thread ∷ [])
  pub apart : has (list_of t) (s.running_threads ∷ xs ++ list_of s.current_thread ∷ []) ≡ false
  pub states : (u : ℕ) → (s'.threads u).state ≡ (s.threads u).state

-- A thread that is still running goes to the end of the queue, and the first thread of the queue is
-- the current one from now on, and runs from where it left its stack.
pub switch-IsRoundRobin :
    (s : Scheduler) (old_rsp t : ℕ) (xs : List ℕ)
    → IsRing s.heads s.running_threads (list_of t ∷ xs)
    → has (list_of s.current_thread) (s.running_threads ∷ list_of t ∷ xs) ≡ false
    → (s.threads s.current_thread).state ≡ thread_running
    → t + 16 < 2 ^ 64
    → (s' : Scheduler) × (switch_thread_switch old_rsp s ≡ ok (s.threads t).rsp s')
      × IsSwitched s old_rsp t xs s'
unfolding switch_thread_switch
switch-IsRoundRobin s old_rsp t xs v out running small =
    let saved : Scheduler = save_rsp old_rsp s in
    let me : ℕ = s.current_thread in
    let kept = update_self s.threads me (record (s.threads me) { rsp = old_rsp }) in
    let still : (saved.threads me).state ≡ thread_running =
      subst (λ (t : Thread). t.state ≡ thread_running) (sym kept) running in
    let queued : Scheduler = enqueue s.running_threads me saved in
    let ring = list_add_tail-IsRing s.heads (list_of me) s.running_threads (list_of t ∷ xs) v out in
    let other = update_ne s.threads me (record (s.threads me) { rsp = old_rsp }) t (ground arith) in
    let opened = put_back-running saved still in
    let picked = pick_next-first queued t (xs ++ list_of me ∷ []) ring small in
    (
      record queued { current_thread = t; heads = list_del (list_of t) queued.heads },
      rw (opened, picked, other) refl,
      record {
        current = refl;
        saved = rw kept refl;
        queue = refl;
        ring =
            list_del-IsRing queued.heads s.running_threads (list_of t) [] (xs ++ list_of me ∷ [])
              ring;
        apart = ground (arith, ring.distinct);
        states = λ u. elim (ℕ_discrete u me) [
          | yes e ↦ rw (e, kept) refl
          | no ne ↦
              ap (λ (w : Thread). w.state)
                (update_ne s.threads me (record (s.threads me) { rsp = old_rsp }) u ne)
        ];
      },
    )
