-- ===== src/Slab/Heap/Take.antt =====
-- The steps of `slab_allocator_alloc` of slab.c on the slab that it takes an item from.
use os_course_term.Common.{
  ℕ, suc, ◌≤◌, ◌≡◌, refl, ap, subst, ◌⊎◌, arith, true, false, List, [], ◌∷◌, length, ◌==◌, update,
  inl, inr, when, Returns, returns, Returns-within, Returns-IfOk, ==_refl,
}
use os_course_term.Slab.{slab_alloc}
use os_course_term.Slab.Nodes.{IsSlab, slab_alloc-IsSlab}
use os_course_term.Slab.Free.{item_at}
use os_course_term.Slab.Allocator.{SlabHeap, on_slab, move_to_fulls}
use os_course_term.Slab.Heap.Invariant.{IsStore, Keeps, IsStore-put}
use os_course_term.Slab.Heap.Items.{slab_alloc-SameLinks}
use os_course_term.Slab.Heap.Moves.{move_to_fulls-IsStore}

-- An item of the first partial slab is handed out.
pub record Took (g : SlabHeap) (s : ℕ) (rest full : List ℕ) (free : ℕ → List ℕ) (x : ℕ)
    (xs : List ℕ) (k : SlabHeap) : Type 0 where
  pub store : IsStore k (record { partial = s ∷ rest; full = full; free = update free s xs })
  pub keeps : Keeps g k

pub take-Took :
    (g : SlabHeap) (s : ℕ) (rest full : List ℕ) (free : ℕ → List ℕ) (x : ℕ) (xs : List ℕ)
    → IsStore g (record { partial = s ∷ rest; full = full; free = free })
    → free s ≡ x ∷ xs
    → Returns
        (λ ptr k. (ptr ≡ item_at g.layout s x) × Took g s rest full free x xs k)
        (on_slab s (λ a. slab_alloc a s) g)
take-Took g s rest full free x xs w e =
    let old : IsSlab g.layout (g.slabs s) (x ∷ xs) =
      subst (λ (f : List ℕ). IsSlab g.layout (g.slabs s) f) e (w.slab s (rw (==_refl s) refl)) in
    Returns-within (λ t. record g { slabs = update g.slabs s t })
      (Returns-IfOk (slab_alloc-IsSlab g.layout s (g.slabs s) x xs old)
        (slab_alloc-SameLinks g.layout s (g.slabs s)))
      λ ptr t ((at, new), links). (
        at,
        record {
          store =
              IsStore-put g (record { partial = s ∷ rest; full = full; free = free }) s t xs w new
                links;
          keeps = record { lock = refl; layout = refl; thread = refl; valloc = refl; start = refl };
        },
      )

-- A slab without free items is moved to the full ones.
pub record Settled (k : SlabHeap) (s : ℕ) (rest full : List ℕ) (free : ℕ → List ℕ) (m : SlabHeap)
    : Type 0 where
  pub partial : List ℕ
  pub full' : List ℕ
  pub store : IsStore m (record { partial = partial; full = full'; free = free })
  pub keeps : Keeps k m
  pub cases :
      ((partial ≡ s ∷ rest) × (full' ≡ full) × (1 ≤ length (free s)))
      ⊎ ((partial ≡ rest) × (full' ≡ s ∷ full) × (free s ≡ []))

pub settle-Settled :
    (k : SlabHeap) (s : ℕ) (rest full : List ℕ) (free : ℕ → List ℕ) (xs : List ℕ)
    → IsStore k (record { partial = s ∷ rest; full = full; free = free })
    → free s ≡ xs
    → Returns
        (λ _ m. Settled k s rest full free m)
        (when ((k.slabs s).allocated == k.layout.slab_nodes) (move_to_fulls s) k)
settle-Settled k s rest full free [] w e =
    let slab = w.slab s (rw (==_refl s) refl) in
    let all : ((k.slabs s).allocated == k.layout.slab_nodes) ≡ true =
      ground (arith, slab.counted, ap length e) in
    let (slabs, first, cnt, run, w') = move_to_fulls-IsStore k s rest full free w in
    rw (all, run)
      (returns (record {
        partial = rest;
        full' = s ∷ full;
        store = w';
        keeps = record { lock = refl; layout = refl; thread = refl; valloc = refl; start = refl };
        cases = inr (refl, refl, e);
      }))
settle-Settled k s rest full free (x ∷ xs) w e =
    let slab = w.slab s (rw (==_refl s) refl) in
    let size : length (free s) ≡ suc (length xs) = ap length e in
    let some : ((k.slabs s).allocated == k.layout.slab_nodes) ≡ false =
      ground (arith, slab.counted, size) in
    rw some (
      returns (record {
        partial = s ∷ rest;
        full' = full;
        store = w;
        keeps = record { lock = refl; layout = refl; thread = refl; valloc = refl; start = refl };
        cases = inl (refl, refl, omega (arith, size));
      }))
