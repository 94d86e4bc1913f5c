-- ===== src/Threads.antt =====
-- `create_thread`, `init_threading` and `wait` of threading.c: threads come from a slab allocator, and
-- their stacks from `valloc`.
pub mod Create
pub mod Kernel
pub mod Spawn
pub mod Wait
mod Tests
mod WaitTests
use os_course_term.Common.{
  ℕ, ◌+◌, ◌-◌, ◌*◌, ◌^◌, ◌==◌, not, if◌then◌else◌, List, [], ◌∷◌, update, ok, blocked, Cmd, pure,
  ◌>>=◌, ◌>>◌, within, sub64, add64, land64,
}
use os_course_term.Memory.{valloc, vfree}
use os_course_term.Slab.Allocator.{
  SlabHeap, HeapCmd, on_phys, slab_allocator_init, slab_allocator_alloc, slab_allocator_free,
}
use os_course_term.Threading.{spin_lock, spin_unlock}
use os_course_term.Threading.Switch.{
  Thread, Scheduler, SchedulerCmd, on_mgmt, enqueue, thread_running, thread_terminated,
}

-- `threads_alloc` with its memory, the threads, and the words of the stacks by their addresses.
pub record ThreadsState : Type 0 where
  pub threads_alloc : SlabHeap
  pub scheduler : Scheduler
  pub words : ℕ → ℕ

abbrev pub ThreadsCmd : Type 0 → Type 0
ThreadsCmd A = Cmd ThreadsState A

-- The allocator runs as the current thread, with the interrupt flag of the processor.
abbrev pub heap_of : ThreadsState → SlabHeap
heap_of s = record s.threads_alloc {
  phys = record s.threads_alloc.phys {
    current_thread = s.scheduler.current_thread;
    interrupts = s.scheduler.interrupts;
  };
}

abbrev pub with_heap : ThreadsState → SlabHeap → ThreadsState
with_heap s h = record s {
  threads_alloc = h;
  scheduler = record s.scheduler { interrupts = h.phys.interrupts };
}

abbrev pub on_heap : {A : Type 0} → HeapCmd A → ThreadsCmd A
on_heap m s = within (with_heap s) (m (heap_of s))

abbrev pub on_scheduler : {A : Type 0} → SchedulerCmd A → ThreadsCmd A
on_scheduler m s = within (λ r. record s { scheduler = r }) (m s.scheduler)

abbrev pub set_thread : (t : ℕ) → (Thread → Thread) → ThreadsCmd (Unit {0})
set_thread t f s = ok tt (record s {
  scheduler = record s.scheduler {
    threads = update s.scheduler.threads t (f (s.scheduler.threads t));
  };
})

-- `rflags` without the status bits and DF, and with IF.
pub entry_rflags : ℕ → ℕ
entry_rflags rflags =
    let cleared = land64 (land64 rflags (2 ^ 64 - 1 - 2261)) (2 ^ 64 - 1 - 2 ^ 10) in
    if land64 cleared (2 ^ 9) == 0 then cleared + 2 ^ 9 else cleared

-- `*--stack = w` for each of the words.
pub push_all : List ℕ → (stack : ℕ) → ThreadsCmd ℕ
push_all [] stack s = ok stack s
push_all (w ∷ ws) stack s =
    push_all ws (sub64 stack 8) (record s { words = update s.words (sub64 stack 8) w })

abbrev pub thread_stack_size : ℕ
thread_stack_size = 8192

-- `list_add_tail(&t->list, &running_threads)`
abbrev pub add_running : ℕ → ThreadsCmd (Unit {0})
add_running t s = ok tt (record s { scheduler = enqueue s.scheduler.running_threads t s.scheduler })

-- `thread_entry` is code of threading_asm.S, and `rflags` what `get_rflags` has read.
pub create_thread : (thread_entry rflags entry arg : ℕ) → ThreadsCmd ℕ
create_thread thread_entry rflags entry arg = do
  t ← on_heap slab_allocator_alloc
  stack_start ← on_heap (on_phys (valloc thread_stack_size))
  set_thread t (λ x. record x { stack_start = stack_start })
  stack ←
      push_all (thread_entry ∷ entry_rflags rflags ∷ arg ∷ entry ∷ 0 ∷ 0 ∷ 0 ∷ 0 ∷ [])
        (add64 stack_start thread_stack_size)
  on_scheduler (on_mgmt spin_lock)
  set_thread t (λ x. record x { rsp = stack; state = thread_running })
  add_running t
  on_scheduler (on_mgmt spin_unlock)
  pure t

abbrev pub sizeof_thread : ℕ
sizeof_thread = 40

pub init_threading : (thread_entry rflags idle_thread : ℕ) → ThreadsCmd ℕ
init_threading thread_entry rflags idle_thread = do
  on_heap (slab_allocator_init sizeof_thread 1)
  t ← on_heap slab_allocator_alloc
  λ s. ok tt (record s { scheduler = record s.scheduler { current_thread = t } })
  set_thread t (λ x. record x { stack_start = 0; state = thread_running })
  create_thread thread_entry rflags idle_thread 0

-- A call that would `yield` first is `blocked`.
unfoldable pub wait : ℕ → ThreadsCmd (Unit {0})
wait t s =
    if not ((s.scheduler.threads t).state == thread_terminated)
    then blocked
    else (on_heap (on_phys (vfree (s.scheduler.threads t).stack_start))
          >> on_heap (slab_allocator_free t))
        s
