-- ===== src/Slab/Heap/Lock.antt =====
-- The lock of a slab allocator of slab.c, taken and given back.
use os_course_term.Common.{◌+◌, ◌≡◌, refl, ◌∙◌, false, ◌==◌, if◌then◌else◌, ok}
use os_course_term.Threading.{SpinLock, is_held, spin_lock, spin_unlock}
use os_course_term.Threading.Spin.{spin_lock_taken, spin_unlock_given, given_back}
use os_course_term.Slab.Allocator.{SlabHeap, on_lock}
use os_course_term.Slab.Heap.Invariant.{HeapView, IsStore, Keeps}

abbrev pub locked_heap : SlabHeap → SlabHeap
locked_heap h = record h {
  lock = record { locked = h.lock.locked + 1; owner = h.phys.current_thread };
}

-- The lock as it is after as many calls of `spin_unlock` as of `spin_lock`.
abbrev pub free_lock : SlabHeap → SpinLock
free_lock h = record {
  locked = h.lock.locked;
  owner = if h.lock.locked == 0 then 0 else h.phys.current_thread;
}

pub heap_lock_taken :
    (h : SlabHeap)
    → is_held h.phys.current_thread h.lock ≡ false
    → on_lock spin_lock h ≡ ok tt (locked_heap h)
heap_lock_taken h mine =
    rw
      (spin_lock_taken h.phys.current_thread
        (record { lock = h.lock; interrupts = h.phys.interrupts }) mine)
      refl

pub heap_lock_given :
    (h k : SlabHeap)
    → Keeps (locked_heap h) k
    → on_lock spin_unlock k ≡ ok tt (record k { lock = free_lock h })
heap_lock_given h k r =
    rw
      (
        r.thread,
        spin_unlock_given h.phys.current_thread h.lock.locked
            (record { lock = k.lock; interrupts = k.phys.interrupts }) r.lock,
      )
      refl

pub free_lock-mine :
    (h k : SlabHeap) → Keeps (locked_heap h) k → is_held k.phys.current_thread (free_lock h) ≡ false
free_lock-mine h k r = rw r.thread (given_back h.phys.current_thread h.lock.locked)

pub IsStore-lock :
    (h : SlabHeap) (v : HeapView) (l : SpinLock) → IsStore h v → IsStore (record h { lock = l }) v
IsStore-lock h v l w = record {
  linked = w.linked;
  distinct = w.distinct;
  fulls = w.fulls;
  apart = w.apart;
  slab = w.slab;
  block = w.block;
  counted = w.counted;
  sound = w.sound;
  ready = w.ready;
  low = w.low;
}

pub Keeps-trans : {h g k : SlabHeap} → Keeps h g → Keeps g k → Keeps h k
Keeps-trans r q = record {
  lock = q.lock ∙ r.lock;
  layout = q.layout ∙ r.layout;
  thread = q.thread ∙ r.thread;
  valloc = q.valloc ∙ r.valloc;
  start = q.start ∙ r.start;
}
