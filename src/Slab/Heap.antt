-- ===== src/Slab/Heap.antt =====
-- The heap of slabs of slab.c: the list of partial slabs, the invariant between two calls, and what
-- `slab_allocator_alloc` and `slab_allocator_free` do to it.
pub mod Links
pub mod Invariant
pub mod Items
pub mod Moves
pub mod Remove
pub mod Create
pub mod Partial
pub mod Lock
pub mod Take
pub mod Alloc
pub mod Return
pub mod Given
pub mod Free
pub mod Setup
pub mod Tests
pub mod Places
