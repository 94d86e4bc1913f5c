-- ===== src/Slab/Heap/Return.antt =====
-- The steps of `slab_allocator_free` of slab.c on the slab of the item.
use os_course_term.Common.{
  ℕ, ◌+◌, ◌^◌, ◌≤◌, ◌<◌, ◌≡◌, ◌≢◌, refl, ◌∙◌, ◌⊎◌, arith, true, false, List, ◌∷◌, length, has,
  remove, ◌==◌, update, Bool-cases, inl, inr, ok, when, Returns, returns, Returns-within,
  Returns-mono, Returns-IfOk,
}
use os_course_term.Buddy.Taken.{block_inside}
use os_course_term.Memory.{va, pa, get_big_phys_aligned_block_start}
use os_course_term.Memory.Calls.{unlocked_memory, block_start_lem}
use os_course_term.Slab.{slab_free}
use os_course_term.Slab.Free.{item_at, Fits, item_at_lem, slab_free-IsSlab}
use os_course_term.Slab.Allocator.{SlabHeap, on_phys, on_slab, move_to_partials, remove_slab}
use os_course_term.Slab.Heap.Invariant.{
  HeapView, is_slab, IsStore, Keeps, Fewer, IsGone, IsStore-put,
}
use os_course_term.Slab.Heap.Items.{slab_free-SameLinks}
use os_course_term.Slab.Heap.Moves.{move_to_partials-IsStore}
use os_course_term.Slab.Heap.Remove.{remove_slab-IsStore}

module _ (h : SlabHeap) (v : HeapView) (w : IsStore h v) (s : ℕ) (there : is_slab v s ≡ true) where
  -- The slab is in the memory that the kernel sees from `high_base` on.
  pub place : (s ≡ va (pa s)) × (pa s + h.layout.slab_alloc_mem ≤ 2 ^ 47)
  place =
      let (b, at) = w.block s there in
      let (from, to) =
        block_inside h.phys.first_buddy w.ready.pool h.layout.slab_alloc_mem (pa s) w.ready.valid
          b in
      (at, omega (arith, to, w.low))

  pub slab-Fits : Fits h.layout s
  slab-Fits =
      let (at, low) = place in
      record {
        sized = w.sound.sized;
        few = w.sound.few;
        ends = omega (arith, at, low, w.sound.room);
      }

  -- The address of an item leads to the slab.
  pub start_lem :
      (id : ℕ)
      → id < h.layout.slab_nodes
      → on_phys (get_big_phys_aligned_block_start (pa (item_at h.layout s id))) h
        ≡ ok (pa s) (record h { phys = unlocked_memory h.phys h.phys.first_buddy })
  start_lem id lt =
      let (at, low) = place in
      let (item, below, split) = item_at_lem h.layout s slab-Fits id lt in
      let b = (w.block s there).0 in
      let lower : pa s ≤ pa (item_at h.layout s id) =
        omega (arith, at, low, w.sound.room, w.sound.sized) in
      let upper : pa (item_at h.layout s id) < pa s + h.layout.slab_alloc_mem =
        omega (arith, at, low, w.sound.room, w.sound.sized) in
      rw
        (block_start_lem h.phys h.layout.slab_alloc_mem (pa s) (pa (item_at h.layout s id)) w.ready
          b lower upper)
        refl

  -- The item is free again.
  pub give-IsStore :
      (id : ℕ)
      → id < h.layout.slab_nodes
      → has id (v.free s) ≡ false
      → Returns
          (λ _ g.
            IsStore g (record v { free = update v.free s (id ∷ v.free s) }) × Keeps h g × Fewer h g)
          (on_slab s (λ a. slab_free a s (item_at h.layout s id)) h)
  give-IsStore id lt out =
      Returns-within (λ t. record h { slabs = update h.slabs s t })
        (Returns-IfOk
          (slab_free-IsSlab h.layout s slab-Fits (h.slabs s) (v.free s) id (w.slab s there) lt out)
          (slab_free-SameLinks h.layout s (item_at h.layout s id) (h.slabs s)))
        λ _ t (new, links). (
          IsStore-put h v s t (id ∷ v.free s) w new links,
          record { lock = refl; layout = refl; thread = refl; valloc = refl; start = refl },
          (λ n t b. b),
        )

-- A slab that was full is among the partial ones now.
pub record Unfilled (g : SlabHeap) (v : HeapView) (s : ℕ) (m : SlabHeap) : Type 0 where
  pub partial : List ℕ
  pub full : List ℕ
  pub store : IsStore m (record { partial = partial; full = full; free = v.free })
  pub keeps : Keeps g m
  pub fewer : Fewer g m
  pub cases :
      ((has s v.partial ≡ true) × (partial ≡ v.partial) × (full ≡ v.full))
      ⊎ ((has s v.full ≡ true) × (partial ≡ s ∷ v.partial) × (full ≡ remove s v.full))

pub Unfilled-partial :
    {g m : SlabHeap} {v : HeapView} {s : ℕ} (u : Unfilled g v s m) → has s u.partial ≡ true
Unfilled-partial u = elim u.cases [
  | inl (h, ep, ef) ↦ rw ep h
  | inr (h, ep, ef) ↦ rw ep (ground arith)
]

pub unfill-Unfilled :
    (g : SlabHeap) (v : HeapView) (s count nodes : ℕ)
    → IsStore g v
    → is_slab v s ≡ true
    → s ≢ 0
    → (count == nodes) ≡ has s v.full
    → Returns (λ _ m. Unfilled g v s m) (when (count == nodes) (move_to_partials s) g)
unfill-Unfilled g v s count nodes w there some test = elim (Bool-cases (has s v.full)) [
  | inl full ↦
      let (slabs, cnt, run, w') = move_to_partials-IsStore g v s w full some in
      rw (test ∙ full, run)
        (returns (record {
          partial = s ∷ v.partial;
          full = remove s v.full;
          store = w';
          keeps = record { lock = refl; layout = refl; thread = refl; valloc = refl; start = refl };
          fewer = λ n t b. b;
          cases = inr (full, refl, refl);
        }))
  | inr partial ↦ rw (test ∙ partial) (
      returns (record {
        partial = v.partial;
        full = v.full;
        store = w;
        keeps = record { lock = refl; layout = refl; thread = refl; valloc = refl; start = refl };
        fewer = λ n t b. b;
        cases = inl (ground arith, refl, refl);
      }))
]

-- A slab all of whose items are free is gone, and so is its block.
pub record Emptied (g : SlabHeap) (v : HeapView) (s : ℕ) (k : SlabHeap) : Type 0 where
  pub partial : List ℕ
  pub store : IsStore k (record v { partial = partial })
  pub keeps : Keeps g k
  pub fewer : Fewer g k
  pub cases :
      ((length (v.free s) ≡ g.layout.slab_nodes) × (partial ≡ remove s v.partial) × IsGone k s)
      ⊎ ((length (v.free s) < g.layout.slab_nodes) × (partial ≡ v.partial))

pub empty-Emptied :
    (g : SlabHeap) (v : HeapView) (s : ℕ)
    → IsStore g v
    → has s v.partial ≡ true
    → Returns (λ _ k. Emptied g v s k) (when ((g.slabs s).allocated == 0) (remove_slab s) g)
empty-Emptied g v s w there =
    let count = (w.slab s (ground (arith, there))).counted in
    elim (Bool-cases ((g.slabs s).allocated == 0)) [
      | inl empty ↦ rw empty (
          Returns-mono (remove_slab-IsStore g v s w there (ground arith))
            λ _ k (w', keeps, fewer, gone). record {
              partial = remove s v.partial;
              store = w';
              keeps = keeps;
              fewer = fewer;
              cases = inl (ground (arith, count), refl, gone);
            })
      | inr some ↦ rw some (
          returns (record {
            partial = v.partial;
            store = w;
            keeps = record {
              lock = refl;
              layout = refl;
              thread = refl;
              valloc = refl;
              start = refl;
            };
            fewer = λ n t b. b;
            cases = inr (ground (arith, count), refl);
          }))
    ]
