-- ===== src/Slab/Heap/Places.antt =====
-- Where the items of a heap of slab.c are: no two at one address, and all in the memory of the page
-- allocator.
use os_course_term.Common.{
  ℕ, ◌+◌, ◌≤◌, ◌<◌, ◌≡◌, sym, ap, ◌∙◌, arith, true, Outcome, ok, died, fault, blocked,
}
use os_course_term.Buddy.{max_page_size}
use os_course_term.Buddy.Taken.{block_inside}
use os_course_term.Memory.{va, pa, high_base, get_big_phys_aligned_block_start}
use os_course_term.Slab.{item_of}
use os_course_term.Slab.Free.{item_at, item_at_lem, item_of-item_at}
use os_course_term.Slab.Allocator.{SlabHeap, on_phys}
use os_course_term.Slab.Heap.Invariant.{HeapView, is_slab, is_used, IsStore}
use os_course_term.Slab.Heap.Return.{place, slab-Fits, start_lem}

-- `t` is the address of an item that is handed out.
pub record IsItem (h : SlabHeap) (v : HeapView) (t : ℕ) : Type 0 where
  pub slab : ℕ
  pub item : ℕ
  pub used : is_used h.layout.slab_nodes v slab item ≡ true
  pub at : t ≡ item_at h.layout slab item

abbrev value_of : Outcome SlabHeap ℕ → ℕ
value_of (ok n h) = n
value_of died = 0
value_of fault = 0
value_of blocked = 0

module _ (h : SlabHeap) (v : HeapView) (w : IsStore h v) where
  -- The slab and the index follow from the address.
  pub item_at_unique :
      (p i q j : ℕ)
      → is_used h.layout.slab_nodes v p i ≡ true
      → is_used h.layout.slab_nodes v q j ≡ true
      → item_at h.layout p i ≡ item_at h.layout q j
      → (p ≡ q) × (i ≡ j)
  item_at_unique p i q j up uq e =
      let thep : is_slab v p ≡ true = ground (arith, up) in
      let theq : is_slab v q ≡ true = ground (arith, uq) in
      let ltp : i < h.layout.slab_nodes = ground (arith, up) in
      let ltq : j < h.layout.slab_nodes = ground (arith, uq) in
      let start : pa p ≡ pa q = ap value_of (
        sym (start_lem h v w p thep i ltp)
        ∙ ap (λ (x : ℕ). on_phys (get_big_phys_aligned_block_start (pa x)) h) e
        ∙ start_lem h v w q theq j ltq) in
      let same : p ≡ q = (place h v w p thep).0 ∙ ap va start ∙ sym (place h v w q theq).0 in
      (
        same,
        sym (item_of-item_at h.layout p (slab-Fits h v w p thep) i ltp)
            ∙ ap (λ (x : ℕ). item_of h.layout p x) e
            ∙ rw same (item_of-item_at h.layout q (slab-Fits h v w q theq) j ltq),
      )

  -- All bytes of an item are in the memory.
  pub item_inside :
      (t : ℕ)
      → IsItem h v t
      → (high_base + h.phys.first_buddy.start ≤ t)
        × (t + h.layout.item_size ≤ high_base + h.phys.first_buddy.start + max_page_size)
  item_inside t r =
      let there : is_slab v r.slab ≡ true = ground (arith, r.used) in
      let lt : r.item < h.layout.slab_nodes = ground (arith, r.used) in
      let (at, low) = place h v w r.slab there in
      let (item, below, split) =
        item_at_lem h.layout r.slab (slab-Fits h v w r.slab there) r.item lt in
      let (from, to) =
        block_inside h.phys.first_buddy w.ready.pool h.layout.slab_alloc_mem (pa r.slab)
          w.ready.valid (w.block r.slab there).0 in
      let where_slab : r.slab ≡ high_base + pa r.slab = at ∙ omega (arith, low, w.sound.block) in
      (
        omega (arith, r.at, item, where_slab, from),
        omega (arith, r.at, item, below, split, where_slab, to, w.sound.room),
      )
