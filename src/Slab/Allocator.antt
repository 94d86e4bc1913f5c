-- ===== src/Slab/Allocator.antt =====
-- `slab_allocator_alloc` and `slab_allocator_free` of slab.c, over a heap of slabs and the functions
-- of memory.c that they call.
use os_course_term.Common.{
  ℕ, not, ◌==◌, if◌then◌else◌, ℤ, pos, suc_ℤ, pred_ℤ, eq_ℤ, within, ok, fault, Cmd, pure, ◌>>=◌,
  ◌>>◌, assert, when, update,
}
use os_course_term.Memory.{
  PhysState, PhysCmd, va, pa, alloc_big_phys_aligned, get_big_phys_aligned_block_start,
  free_big_phys_aligned,
}
use os_course_term.Threading.{SpinLock, SpinState, spin_lock, spin_unlock}
use os_course_term.Slab.{
  Slab, SlabLayout, SlabCmd, slab_create, slab_alloc, slab_free, align_by, calculate_slab,
}

-- The slabs by their addresses, the fields of the slab allocator, and the state of memory.c.
pub record SlabHeap : Type 0 where
  pub slabs : ℕ → Slab
  pub layout : SlabLayout
  pub partials : ℕ
  pub fulls_cnt : ℤ
  pub lock : SpinLock
  pub phys : PhysState

abbrev pub HeapCmd : Type 0 → Type 0
HeapCmd A = Cmd SlabHeap A

abbrev pub on_lock : (ℕ → Cmd SpinState (Unit {0})) → HeapCmd (Unit {0})
on_lock m h =
    within (λ s. record h { lock = s.lock; phys = record h.phys { interrupts = s.interrupts } })
      (m h.phys.current_thread (record { lock = h.lock; interrupts = h.phys.interrupts }))

abbrev pub on_phys : {A : Type 0} → PhysCmd A → HeapCmd A
on_phys m h = within (λ s. record h { phys = s }) (m h.phys)

abbrev pub on_slab : {A : Type 0} → (slab : ℕ) → (SlabLayout → SlabCmd A) → HeapCmd A
on_slab slab m h =
    within (λ s. record h { slabs = update h.slabs slab s }) (m h.layout (h.slabs slab))

-- `slab->next_slab = v`, `slab->prev_slab = v`.
abbrev pub set_next_slab : (slab v : ℕ) → HeapCmd (Unit {0})
set_next_slab slab v = on_slab slab (λ a s. ok tt (record s { next_slab = v }))

abbrev pub set_prev_slab : (slab v : ℕ) → HeapCmd (Unit {0})
set_prev_slab slab v = on_slab slab (λ a s. ok tt (record s { prev_slab = v }))

abbrev pub slab_at : ℕ → HeapCmd Slab
slab_at slab h = ok (h.slabs slab) h

abbrev pub set_partials : ℕ → HeapCmd (Unit {0})
set_partials v h = ok tt (record h { partials = v })

abbrev pub get : {A : Type 0} → (SlabHeap → A) → HeapCmd A
get f h = ok (f h) h

-- `slab_create`, its memory included.
unfoldable pub new_slab : HeapCmd ℕ
new_slab = do
  mem ← get (λ h. h.layout.slab_alloc_mem)
  p ← on_phys (alloc_big_phys_aligned mem)
  on_slab (va p) slab_create
  pure (va p)

-- `if (!a->partials) a->partials = slab_create(a);`
unfoldable pub some_partial : HeapCmd ℕ
some_partial = do
  s ← get (λ h. h.partials)
  if not (s == 0) then pure s else do t ← new_slab; set_partials t; pure t

-- `assert(a->partials->prev_slab == s); a->partials->prev_slab = NULL;`
unfoldable pub unlink_front : (s next : ℕ) → HeapCmd (Unit {0})
unlink_front s next =
    when (not (next == 0)) do n ← slab_at next; assert (n.prev_slab == s); set_prev_slab next 0

-- `slab_allocator_alloc` from partials to fulls.
unfoldable pub move_to_fulls : ℕ → HeapCmd (Unit {0})
move_to_fulls s = do
  x ← slab_at s
  set_partials x.next_slab
  unlink_front s x.next_slab
  set_prev_slab s 0
  set_next_slab s 0
  λ h. ok tt (record h { fulls_cnt = suc_ℤ h.fulls_cnt })

unfoldable pub slab_allocator_alloc : HeapCmd ℕ
slab_allocator_alloc = do
  on_lock spin_lock
  s ← some_partial
  result ← on_slab s (λ a. slab_alloc a s)
  x ← slab_at s
  nodes ← get (λ h. h.layout.slab_nodes)
  when (x.allocated == nodes) (move_to_fulls s)
  on_lock spin_unlock
  pure result

unfoldable pub slab_destroy : ℕ → HeapCmd (Unit {0})
slab_destroy slab = do
  s ← slab_at slab
  assert (s.allocated == 0)
  assert (s.prev_slab == 0)
  assert (s.next_slab == 0)
  on_phys (free_big_phys_aligned (pa slab))

-- `slab_allocator_free` from fulls to partials.
unfoldable pub move_to_partials : ℕ → HeapCmd (Unit {0})
move_to_partials s = do
  λ h. ok tt (record h { fulls_cnt = pred_ℤ h.fulls_cnt })
  set_prev_slab s 0
  old ← get (λ h. h.partials)
  set_next_slab s old
  when (not (old == 0)) do n ← slab_at old; assert (n.prev_slab == 0); set_prev_slab old s
  set_partials s

-- `if (p) p->next_slab = n; else …` of `slab_allocator_free`.
unfoldable pub join_next : (s p n : ℕ) → HeapCmd (Unit {0})
join_next s p n =
    if not (p == 0)
    then set_next_slab p n
    else do first ← get (λ h. h.partials); assert (first == s); set_partials n

-- `slab_allocator_free` on a slab that has become empty.
unfoldable pub remove_slab : ℕ → HeapCmd (Unit {0})
remove_slab s = do
  x ← slab_at s
  join_next s x.prev_slab x.next_slab
  when (not (x.next_slab == 0)) (set_prev_slab x.next_slab x.prev_slab)
  set_next_slab s 0
  set_prev_slab s 0
  slab_destroy s

unfoldable pub slab_allocator_free : ℕ → HeapCmd (Unit {0})
slab_allocator_free ptr = do
  on_lock spin_lock
  start ← on_phys (get_big_phys_aligned_block_start (pa ptr))
  let s = va start
  x ← slab_at s
  nodes ← get (λ h. h.layout.slab_nodes)
  on_slab s (λ a. slab_free a s ptr)
  when (x.allocated == nodes) (move_to_partials s)
  y ← slab_at s
  when (y.allocated == 0) (remove_slab s)
  on_lock spin_unlock

-- `slab_allocator_init`; `memset` clears the lock. An alignment of 0 is a division by 0.
unfoldable pub slab_allocator_init : (item_size align : ℕ) → HeapCmd (Unit {0})
slab_allocator_init item_size align = if align == 0 then (λ h. fault) else do
  layout ← λ h. within (λ _. h) (calculate_slab (align_by item_size align) align tt)
  λ h. ok tt (record h {
    layout = layout;
    partials = 0;
    fulls_cnt = pos 0;
    lock = record { locked = 0; owner = 0 };
  })

unfoldable pub slab_allocator_deinit : HeapCmd (Unit {0})
slab_allocator_deinit h = (do assert (eq_ℤ h.fulls_cnt (pos 0)); assert (h.partials == 0)) h
