-- ===== src/Slab.antt =====
-- The slab allocator: slab.h and slab.c. A pointer is an address, and NULL is 0. The flexible array
-- `nodes` is a family over the numbers, and an access out of its bounds is a `fault`.
pub mod Layout
pub mod Nodes
pub mod Free
pub mod Allocator
pub mod Heap
pub mod Tests
use os_course_term.Common.{
  ℕ, zero, suc, ◌+◌, ◌-◌, ◌*◌, ◌/◌, ◌%◌, ◌^◌, Bool, true, false, ◌&&◌, not, ltb, leb, ◌==◌,
  if◌then◌else◌, ℤ, pos, negsuc, minus_one, eq_ℤ, Outcome, ok, died, fault, Cmd, pure, die, ◌>>=◌,
  ◌>>◌, assert, when, update, add64, sub64, mul64, Option, none, some, land64,
}

abbrev pub page_size : ℕ
page_size = 4096

-- `sizeof(struct slab)` and `sizeof(struct slab_node)` on x86-64.
abbrev pub sizeof_slab : ℕ
sizeof_slab = 24

abbrev pub sizeof_node : ℕ
sizeof_node = 4

abbrev pub min_slab_nodes : ℕ
min_slab_nodes = 10

pub record Slab : Type 0 where
  pub prev_slab : ℕ
  pub next_slab : ℕ
  pub first_free : ℤ
  pub allocated : ℕ
  pub nodes : ℕ → ℤ

-- The fields of `struct slab_allocator` that `slab_allocator_init` fixes.
pub record SlabLayout : Type 0 where
  pub item_size : ℕ
  pub slab_nodes_start : ℕ
  pub slab_alloc_mem : ℕ
  pub slab_nodes : ℕ

abbrev pub SlabCmd : Type 0 → Type 0
SlabCmd A = Cmd Slab A

abbrev pub align_by : ℕ → ℕ → ℕ
align_by x align = mul64 (sub64 (add64 x align) 1 / align) align

-- `while (alloc_mem < min_mem) alloc_mem *= 2;`, which 52 rounds end or make 0.
pub grow : (fuel alloc_mem min_mem : ℕ) → Option ℕ
grow zero alloc_mem min_mem = if ltb alloc_mem min_mem then none else some alloc_mem
grow (suc fuel) alloc_mem min_mem =
    let more = grow fuel (mul64 alloc_mem 2) min_mem in
    if ltb alloc_mem min_mem then more else some alloc_mem

-- `calculate_slab` once the size of a slab is chosen.
pub lay_out : (item_size align : ℕ) → Option ℕ → Cmd (Unit {0}) SlabLayout
lay_out item_size align none = λ _. fault
lay_out item_size align (some alloc_mem) = do
  let nodes = (sub64 alloc_mem sizeof_slab / add64 item_size sizeof_node) % 2 ^ 32
  let nodes_start = align_by (add64 sizeof_slab (mul64 nodes sizeof_node)) align
  assert (leb (add64 nodes_start (mul64 nodes item_size)) alloc_mem)
  pure (record {
    item_size = item_size;
    slab_nodes_start = nodes_start;
    slab_alloc_mem = alloc_mem;
    slab_nodes = nodes;
  })

pub calculate_slab : (item_size align : ℕ) → Cmd (Unit {0}) SlabLayout
calculate_slab item_size align = do
  assert (ltb 0 item_size && leb 1 align)
  assert (land64 align (sub64 align 1) == 0)
  assert (item_size % align == 0)
  let min_mem = add64 sizeof_slab (mul64 (add64 item_size sizeof_node) min_slab_nodes)
  lay_out item_size align (grow 52 (if ltb page_size align then align else page_size) min_mem)

-- `slab->nodes[i].next_free`, read and written.
pub node : SlabLayout → ℕ → SlabCmd ℤ
node a i s = if ltb i a.slab_nodes then ok (s.nodes i) s else fault

pub set_node : SlabLayout → ℕ → ℤ → SlabCmd (Unit {0})
set_node a i v s =
    if ltb i a.slab_nodes then ok tt (record s { nodes = update s.nodes i v }) else fault

-- The loop of `slab_create`.
pub link_nodes : SlabLayout → (rounds i : ℕ) → SlabCmd (Unit {0})
unfolding set_node
link_nodes a zero i = pure tt
link_nodes a (suc rounds) i = do
  set_node a i (if ltb (i + 1) a.slab_nodes then pos (i + 1) else minus_one)
  link_nodes a rounds (i + 1)

-- `slab_create` on the memory that it is given.
pub slab_create : SlabLayout → SlabCmd (Unit {0})
unfolding link_nodes
slab_create a s =
    link_nodes a a.slab_nodes 0
      (record s { prev_slab = 0; next_slab = 0; first_free = pos 0; allocated = 0 })

-- `slab_alloc` once `id` is read.
pub take_node : SlabLayout → (slab : ℕ) → ℤ → SlabCmd ℕ
unfolding node set_node
take_node a slab (negsuc _) s = died
take_node a slab (pos id) s =
    (do
      next ← node a id
      λ s. ok tt (record s { first_free = next })
      set_node a id (pos id)
      pure (add64 (add64 slab a.slab_nodes_start) (mul64 a.item_size id)))
      (record s { allocated = s.allocated + 1 })

pub slab_alloc : SlabLayout → (slab : ℕ) → SlabCmd ℕ
unfolding take_node
slab_alloc a slab s = take_node a slab s.first_free s

-- The index of the item at `ptr`; as an `int` it is negative from 2^31 on, which no slab reaches.
abbrev pub item_of : SlabLayout → (slab ptr : ℕ) → ℕ
item_of a slab ptr = (sub64 (sub64 ptr slab) a.slab_nodes_start / a.item_size) % 2 ^ 32

pub slab_free : SlabLayout → (slab ptr : ℕ) → SlabCmd (Unit {0})
unfolding node set_node
slab_free a slab ptr = do
  let id = item_of a slab ptr
  x ← node a id
  assert (eq_ℤ x (pos id))
  λ s. assert (leb 1 s.allocated) s
  λ s. set_node a id s.first_free s
  λ s. ok tt (record s { first_free = pos id; allocated = s.allocated - 1 })
