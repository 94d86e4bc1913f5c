-- ===== src/Threads/Create.antt =====
-- A new thread is at the end of the queue, on a stack from which the switch goes on at its entry.
use os_course_term.Common.{
  ℕ, ◌+◌, ◌^◌, ◌<◌, ◌≡◌, refl, sym, ap, ◌∙◌, subst, subst₂, arith, false, ◌==◌, if◌then◌else◌, List,
  [], ◌∷◌, ◌++◌, has, update, update_self, update_ne, ℕ_discrete, ok, Returns, returns,
  Returns-mono, pure, ◌>>◌, sub64, add64,
}
use os_course_term.LinkedList.{list_add_tail}
use os_course_term.LinkedList.Ring.{list_add_tail-IsRing}
use os_course_term.LinkedList.Splice.{has-append}
use os_course_term.Memory.{valloc}
use os_course_term.Slab.Allocator.{SlabHeap, on_phys, slab_allocator_alloc}
use os_course_term.Threading.{is_held, SpinState, spin_lock, spin_unlock}
use os_course_term.Threading.Spin.{spin_lock_taken, spin_unlock_given, given_back}
use os_course_term.Threading.Switch.{Thread, Scheduler, list_of, enqueue, on_mgmt, thread_running}
use os_course_term.Threading.Fair.{
  lists_of, lists_of-append, AllRunning, AllRunning-append, AllRunning-kept, apart_same,
  IsScheduled,
}
use os_course_term.Threads.{
  ThreadsState, heap_of, with_heap, on_scheduler, entry_rflags, ThreadsCmd, set_thread, add_running,
  push_all, thread_stack_size, create_thread,
}

-- What the switch reads of the stack of a new thread: the registers, the flags, and where to go on.
pub record IsFrame (words : ℕ → ℕ) (rsp thread_entry rflags entry arg : ℕ) : Type 0 where
  pub r15 : words rsp ≡ 0
  pub r14 : words (rsp + 8) ≡ 0
  pub r13 : words (rsp + 16) ≡ 0
  pub r12 : words (rsp + 24) ≡ 0
  pub rbp : words (rsp + 32) ≡ entry
  pub rbx : words (rsp + 40) ≡ arg
  pub flags : words (rsp + 48) ≡ entry_rflags rflags
  pub return_address : words (rsp + 56) ≡ thread_entry

-- The queue of `s'` is that of `s` and then `t`, with its frame at the end of the stack that begins at
-- `stack_start`.
pub record IsCreated (ts : List ℕ) (thread_entry rflags entry arg t stack_start : ℕ)
    (s' : ThreadsState) : Type 0 where
  pub scheduled : IsScheduled s'.scheduler (ts ++ t ∷ [])
  pub frame : IsFrame s'.words (s'.scheduler.threads t).rsp thread_entry rflags entry arg
  pub stack : (s'.scheduler.threads t).stack_start ≡ stack_start
  pub top : (s'.scheduler.threads t).rsp + 64 ≡ stack_start + thread_stack_size

-- What else `create_thread` leaves: the heap `h`, the current thread, the queue, and a lock that no
-- other thread holds.
pub record IsLeft (s : ThreadsState) (h : SlabHeap) (s' : ThreadsState) : Type 0 where
  pub heap : s'.threads_alloc ≡ h
  pub current : s'.scheduler.current_thread ≡ s.scheduler.current_thread
  pub queue : s'.scheduler.running_threads ≡ s.scheduler.running_threads
  pub mine : is_held s'.scheduler.current_thread s'.scheduler.threads_mgmt_lock ≡ false

abbrev locked_mgmt : ThreadsState → ThreadsState
locked_mgmt s = record s {
  scheduler = record s.scheduler {
    threads_mgmt_lock = record {
      locked = s.scheduler.threads_mgmt_lock.locked + 1;
      owner = s.scheduler.current_thread;
    };
  };
}

mgmt_taken :
    (s : ThreadsState)
    → is_held s.scheduler.current_thread s.scheduler.threads_mgmt_lock ≡ false
    → on_scheduler (on_mgmt spin_lock) s ≡ ok tt (locked_mgmt s)
mgmt_taken s mine =
    let cpu : SpinState = record {
      lock = s.scheduler.threads_mgmt_lock;
      interrupts = s.scheduler.interrupts;
    } in
    rw (spin_lock_taken s.scheduler.current_thread cpu mine) refl

mgmt_given :
    (count : ℕ) (s : ThreadsState)
    → s.scheduler.threads_mgmt_lock
      ≡ record { locked = count + 1; owner = s.scheduler.current_thread }
    → on_scheduler (on_mgmt spin_unlock) s
      ≡ ok tt (record s {
        scheduler = record s.scheduler {
          threads_mgmt_lock = record {
            locked = count;
            owner = if count == 0 then 0 else s.scheduler.current_thread;
          };
        };
      })
mgmt_given count s e =
    let cpu : SpinState = record {
      lock = s.scheduler.threads_mgmt_lock;
      interrupts = s.scheduler.interrupts;
    } in
    rw (spin_unlock_given s.scheduler.current_thread count cpu e) refl

-- The queue once a running thread is added at its end.
enqueue-IsScheduled :
    (s s' : Scheduler) (t : ℕ) (ts : List ℕ)
    → IsScheduled s ts
    → has (list_of t) (list_of s.current_thread ∷ s.running_threads ∷ lists_of ts) ≡ false
    → t + 16 < 2 ^ 64
    → s'.heads ≡ list_add_tail (list_of t) s.running_threads s.heads
    → s'.running_threads ≡ s.running_threads
    → s'.current_thread ≡ s.current_thread
    → (s'.threads t).state ≡ thread_running
    → ((u : ℕ) → (s.threads u).state ≡ thread_running → (s'.threads u).state ≡ thread_running)
    → IsScheduled s' (ts ++ t ∷ [])
enqueue-IsScheduled s s' t ts v out small heads queue current new kept =
    let append = lists_of-append ts (t ∷ []) in
    let out' : has (list_of t) (s.running_threads ∷ lists_of ts) ≡ false = ground (arith, out) in
    let ring =
      list_add_tail-IsRing s.heads (list_of t) s.running_threads (lists_of ts) v.ring out' in
    let after = AllRunning-kept s s' (s.current_thread ∷ ts) kept v.running in
    record {
      ring = rw (heads, queue, append) ring;
      apart = apart_same current queue append (
          ground (
            arith,
            v.apart,
            out,
            has-append (list_of s.current_thread) (lists_of ts) (list_of t ∷ []),
          ));
      running =
          subst (λ (c : ℕ). AllRunning s' (c ∷ ts ++ t ∷ [])) (sym current)
            (after.0, after.1, AllRunning-append s' ts (t ∷ []) after.2 (new, small, tt));
    }

-- The part of `create_thread` under the lock.
start_thread : (t stack : ℕ) → ThreadsCmd ℕ
start_thread t stack = do
  on_scheduler (on_mgmt spin_lock)
  set_thread t (λ x. record x { rsp = stack; state = thread_running })
  add_running t
  on_scheduler (on_mgmt spin_unlock)
  pure t

started_state : (t stack : ℕ) → ThreadsState → ThreadsState
started_state t stack s =
    let locked : Scheduler = (locked_mgmt s).scheduler in
    let started : Thread = record (s.scheduler.threads t) { rsp = stack; state = thread_running } in
    record s {
      scheduler =
          enqueue locked.running_threads t
            (record locked { threads = update s.scheduler.threads t started });
    }

start_thread-IsScheduled :
    (t stack : ℕ) (s : ThreadsState) (ts : List ℕ)
    → IsScheduled s.scheduler ts
    → t + 16 < 2 ^ 64
    → has
        (list_of t)
        (list_of s.scheduler.current_thread ∷ s.scheduler.running_threads ∷ lists_of ts)
      ≡ false
    → is_held s.scheduler.current_thread s.scheduler.threads_mgmt_lock ≡ false
    → Returns
        (λ r s'.
          (r ≡ t)
          × IsScheduled s'.scheduler (ts ++ t ∷ [])
          × ((s'.scheduler.threads t).rsp ≡ stack)
          × ((s'.scheduler.threads t).stack_start ≡ (s.scheduler.threads t).stack_start)
          × (s'.words ≡ s.words)
          × IsLeft s s.threads_alloc s')
        (start_thread t stack s)
unfolding start_thread started_state
start_thread-IsScheduled t stack s ts v small out mine =
    let started : Thread = record (s.scheduler.threads t) { rsp = stack; state = thread_running } in
    let here = update_self s.scheduler.threads t started in
    rw
      (
        mgmt_taken s mine,
        mgmt_given s.scheduler.threads_mgmt_lock.locked (started_state t stack s) refl,
      )
      (returns (
        refl,
        enqueue-IsScheduled s.scheduler _ t ts v out small refl refl refl
            (ap (λ (x : Thread). x.state) here)
            (λ u r. elim (ℕ_discrete u t) [
              | yes e ↦ rw (e, here) refl
              | no ne ↦
                  ap (λ (x : Thread). x.state) (update_ne s.scheduler.threads t started u ne) ∙ r
            ]),
        ap (λ (x : Thread). x.rsp) here,
        ap (λ (x : Thread). x.stack_start) here,
        refl,
        record {
          heap = refl;
          current = refl;
          queue = refl;
          mine = given_back s.scheduler.current_thread s.scheduler.threads_mgmt_lock.locked;
        },
      ))

pushed_words : (words : ℕ → ℕ) → (rsp thread_entry flags entry arg : ℕ) → ℕ → ℕ
pushed_words words rsp thread_entry flags entry arg =
    let called : ℕ → ℕ = update (update words (rsp + 56) thread_entry) (rsp + 48) flags in
    let saved : ℕ → ℕ = update (update called (rsp + 40) arg) (rsp + 32) entry in
    update (update (update (update saved (rsp + 24) 0) (rsp + 16) 0) (rsp + 8) 0) rsp 0

pushed-IsFrame :
    (words : ℕ → ℕ) (rsp thread_entry rflags entry arg : ℕ)
    → IsFrame
        (pushed_words words rsp thread_entry (entry_rflags rflags) entry arg)
        rsp
        thread_entry
        rflags
        entry
        arg
unfolding pushed_words
pushed-IsFrame words rsp thread_entry rflags entry arg = record {
  r15 = ground arith;
  r14 = ground arith;
  r13 = ground arith;
  r12 = ground arith;
  rbp = ground arith;
  rbx = ground arith;
  flags = ground arith;
  return_address = ground arith;
}

-- The words on the stack of `create_thread`, and where it ends.
push_all-frame :
    (stack_start thread_entry flags entry arg : ℕ) (s : ThreadsState)
    → stack_start + thread_stack_size < 2 ^ 64
    → push_all
        (thread_entry ∷ flags ∷ arg ∷ entry ∷ 0 ∷ 0 ∷ 0 ∷ 0 ∷ [])
        (add64 stack_start thread_stack_size)
        s
      ≡ ok (stack_start + 8128) (record s {
        words = pushed_words s.words (stack_start + 8128) thread_entry flags entry arg;
      })
unfolding push_all pushed_words
push_all-frame stack_start thread_entry flags entry arg s room =
    let base : ℕ = stack_start + 8128 in
    let a1 : sub64 (add64 stack_start 8192) 8 ≡ base + 56 = omega (arith, room) in
    let a2 : sub64 (base + 56) 8 ≡ base + 48 = omega (arith, room) in
    let a3 : sub64 (base + 48) 8 ≡ base + 40 = omega (arith, room) in
    let a4 : sub64 (base + 40) 8 ≡ base + 32 = omega (arith, room) in
    let a5 : sub64 (base + 32) 8 ≡ base + 24 = omega (arith, room) in
    let a6 : sub64 (base + 24) 8 ≡ base + 16 = omega (arith, room) in
    let a7 : sub64 (base + 16) 8 ≡ base + 8 = omega (arith, room) in
    let a8 : sub64 (base + 8) 8 ≡ base = omega (arith, room) in
    rw (a1, a2, a3, a4, a5, a6, a7, a8) refl

pub create_thread-IsCreated :
    (thread_entry rflags entry arg t stack_start : ℕ) (s : ThreadsState) (ts : List ℕ)
    (h h' : SlabHeap)
    → IsScheduled s.scheduler ts
    → slab_allocator_alloc (heap_of s) ≡ ok t h
    → on_phys (valloc thread_stack_size) (heap_of (with_heap s h)) ≡ ok stack_start h'
    → stack_start + thread_stack_size < 2 ^ 64
    → t + 16 < 2 ^ 64
    → has
        (list_of t)
        (list_of s.scheduler.current_thread ∷ s.scheduler.running_threads ∷ lists_of ts)
      ≡ false
    → is_held s.scheduler.current_thread s.scheduler.threads_mgmt_lock ≡ false
    → Returns
        (λ r s'.
          (r ≡ t) × IsCreated ts thread_entry rflags entry arg t stack_start s' × IsLeft s h' s')
        (create_thread thread_entry rflags entry arg s)
unfolding create_thread start_thread
create_thread-IsCreated thread_entry rflags entry arg t stack_start s ts h h' v a b room small out
      mine =
    let named : Thread = record (s.scheduler.threads t) { stack_start = stack_start } in
    let kept : (u : ℕ)
        → (s.scheduler.threads u).state ≡ thread_running
        → ((update s.scheduler.threads t named) u).state ≡ thread_running =
      λ u r. elim (ℕ_discrete u t) [
        | yes e ↦ rw (e, update_self s.scheduler.threads t named) (rw (← e) r)
        | no ne ↦ ap (λ (x : Thread). x.state) (update_ne s.scheduler.threads t named u ne) ∙ r
      ] in
    rw (a, b, push_all-frame stack_start thread_entry (entry_rflags rflags) entry arg _ room)
      (Returns-mono
        (start_thread-IsScheduled t _ _ ts
          (record {
            ring = v.ring;
            apart = v.apart;
            running =
                AllRunning-kept s.scheduler
                  (record s.scheduler { threads = update s.scheduler.threads t named })
                  (s.scheduler.current_thread ∷ ts) kept v.running;
          })
          small out mine)
        λ r s' (e, scheduled, rsp, start, words, left). (
          e,
          record {
            scheduled = scheduled;
            frame =
                subst₂ (λ (w : ℕ → ℕ) (sp : ℕ). IsFrame w sp thread_entry rflags entry arg)
                  (sym words) (sym rsp)
                  (pushed-IsFrame s.words (stack_start + 8128) thread_entry rflags entry arg);
            stack =
                start
                ∙ ap (λ (x : Thread). x.stack_start) (update_self s.scheduler.threads t named);
            top = omega (arith, rsp);
          },
          record { heap = left.heap; current = left.current; queue = left.queue; mine = left.mine },
        ))
