-- ===== src/Slab/Heap/Invariant.antt =====
-- The invariant of a slab allocator between two calls, and what its parts depend on.
use os_course_term.Common.{
  ℕ, ◌+◌, ◌*◌, ◌^◌, ◌≤◌, ◌<◌, ◌≡◌, arith, Bool, true, false, ◌&&◌, ◌||◌, not, ltb, ◌==◌, List, [],
  ◌∷◌, length, has, Distinct, ℤ, pos, update, Bool-cases, inl, inr, pow2_mono, pow2_pos,
}
use os_course_term.Buddy.{max_page_size}
use os_course_term.Buddy.Taken.{IsBlock}
use os_course_term.Memory.{PhysState, va, pa}
use os_course_term.Memory.Calls.{IsReady}
use os_course_term.Threading.{is_held}
use os_course_term.Slab.{Slab, SlabLayout}
use os_course_term.Slab.Allocator.{SlabHeap}
use os_course_term.Slab.Layout.{IsLayout}
use os_course_term.Slab.Nodes.{IsSlab}
use os_course_term.Slab.Heap.Links.{Linked, Linked-frame}

-- What a heap consists of: the slabs with and without free items, and the free items of each.
pub record HeapView : Type 0 where
  pub partial : List ℕ
  pub full : List ℕ
  pub free : ℕ → List ℕ

abbrev pub is_slab : HeapView → ℕ → Bool
is_slab v p = has p v.partial || has p v.full

-- Item `id` of the slab at `p` is handed out; a slab has `nodes` items.
abbrev pub is_used : (nodes : ℕ) → HeapView → (p id : ℕ) → Bool
is_used nodes v p id = is_slab v p && ltb id nodes && not (has id (v.free p))

-- The layout puts at least one item in a slab, and all of them in the slab's memory.
pub record IsSound (a : SlabLayout) : Type 0 where
  pub some : 1 ≤ a.slab_nodes
  pub few : a.slab_nodes < 2 ^ 31
  pub sized : 1 ≤ a.item_size
  pub room : a.slab_nodes_start + a.slab_nodes * a.item_size ≤ a.slab_alloc_mem
  pub block : (1 ≤ a.slab_alloc_mem) × (a.slab_alloc_mem ≤ max_page_size)

-- The partial slabs are linked, each slab has the free items of the view, the full ones are counted,
-- and each slab is a block in use of the page allocator.
pub record IsStore (h : SlabHeap) (v : HeapView) : Type 0 where
  pub linked : Linked h.slabs 0 h.partials v.partial
  pub distinct : Distinct (0 ∷ v.partial)
  pub fulls : Distinct v.full
  pub apart : (p : ℕ) → has p v.partial ≡ true → has p v.full ≡ false
  pub slab : (p : ℕ) → is_slab v p ≡ true → IsSlab h.layout (h.slabs p) (v.free p)
  pub block :
      (p : ℕ)
      → is_slab v p ≡ true
      → IsBlock h.phys.first_buddy h.layout.slab_alloc_mem (pa p) × (p ≡ va (pa p))
  pub counted : h.fulls_cnt ≡ pos (length v.full)
  pub sound : IsSound h.layout
  pub ready : IsReady h.phys
  pub low : h.phys.first_buddy.start + max_page_size ≤ 2 ^ 47

-- The partial slabs have free items and items handed out, the full ones have no free items.
pub record IsTidy (nodes : ℕ) (v : HeapView) : Type 0 where
  pub partial :
      (p : ℕ) → has p v.partial ≡ true → (1 ≤ length (v.free p)) × (length (v.free p) < nodes)
  pub full : (p : ℕ) → has p v.full ≡ true → v.free p ≡ []

-- The invariant; the lock of the allocator is not held by another thread.
pub record IsHeap (h : SlabHeap) (v : HeapView) : Type 0 where
  pub store : IsStore h v
  pub tidy : IsTidy h.layout.slab_nodes v
  pub mine : is_held h.phys.current_thread h.lock ≡ false

-- What no call changes between `spin_lock` and `spin_unlock`.
pub record Keeps (h h' : SlabHeap) : Type 0 where
  pub lock : h'.lock ≡ h.lock
  pub layout : h'.layout ≡ h.layout
  pub thread : h'.phys.current_thread ≡ h.phys.current_thread
  pub valloc : h'.phys.valloc_lock ≡ h.phys.valloc_lock
  pub start : h'.phys.first_buddy.start ≡ h.phys.first_buddy.start

-- No block of the page allocator is in use that was not before.
abbrev pub Fewer : (h h' : SlabHeap) → Type 0
Fewer h h' = (n t : ℕ) → IsBlock h'.phys.first_buddy n t → IsBlock h.phys.first_buddy n t

-- The memory of the slab is no block in use.
abbrev pub IsGone : (h : SlabHeap) (s : ℕ) → Type 0
IsGone h s = (n : ℕ) → ¬ IsBlock h.phys.first_buddy n (pa s)

-- The layout that `calculate_slab` computes is sound.
pub IsLayout-IsSound :
    {item_size align : ℕ} (a : SlabLayout) → 1 ≤ item_size → IsLayout item_size align a → IsSound a
IsLayout-IsSound a h v =
    let (m, e, small) = v.whole in
    let top = pow2_mono m 30 small in
    record {
      some = omega (arith, v.many);
      few = omega (arith, v.header, v.ends, e, top);
      sized = omega (arith, v.item);
      room = rw v.item v.ends;
      block = (omega (arith, e, pow2_pos m), omega (arith, e, top));
    }

-- Two slabs with the same items, wherever they are in the list.
abbrev pub SameItems : Slab → Slab → Type 0
SameItems s s' =
    (s'.first_free ≡ s.first_free) × (s'.allocated ≡ s.allocated) × (s'.nodes ≡ s.nodes)

pub SameItems-IsSlab :
    {a : SlabLayout} {s s' : Slab} {free : List ℕ}
    → SameItems s s'
    → IsSlab a s free
    → IsSlab a s' free
SameItems-IsSlab (first, count, nodes) v = record {
  chain = rw (nodes, first) v.chain;
  distinct = v.distinct;
  inside = v.inside;
  taken = rw nodes v.taken;
  counted = rw count v.counted;
}

-- A slab gets another set of free items, and keeps its place in the list.
pub IsStore-put :
    (h : SlabHeap) (v : HeapView) (p : ℕ) (s : Slab) (free : List ℕ)
    → IsStore h v
    → IsSlab h.layout s free
    → (s.prev_slab ≡ (h.slabs p).prev_slab) × (s.next_slab ≡ (h.slabs p).next_slab)
    → IsStore (record h { slabs = update h.slabs p s }) (record v { free = update v.free p free })
IsStore-put h v p s free w new (e, e') = record {
  linked =
      Linked-frame h.slabs (update h.slabs p s) 0 h.partials v.partial (λ i g. ground arith)
        (λ i g. ground arith) w.linked;
  distinct = w.distinct;
  fulls = w.fulls;
  apart = w.apart;
  slab = λ i g. elim (Bool-cases (i == p)) [
    | inl here ↦ rw here new
    | inr there ↦ rw there (w.slab i g)
  ];
  block = w.block;
  counted = w.counted;
  sound = w.sound;
  ready = w.ready;
  low = w.low;
}

-- Slabs move between the lists, and no items do.
pub IsStore-relink :
    (h : SlabHeap) (v : HeapView) (slabs : ℕ → Slab) (first : ℕ) (partial full : List ℕ) (cnt : ℤ)
    → IsStore h v
    → Linked slabs 0 first partial
    → Distinct (0 ∷ partial)
    → Distinct full
    → ((p : ℕ) → has p partial ≡ true → has p full ≡ false)
    → ((p : ℕ) → (has p partial || has p full) ≡ true → is_slab v p ≡ true)
    → cnt ≡ pos (length full)
    → ((i : ℕ) → SameItems (h.slabs i) (slabs i))
    → IsStore
        (record h { slabs = slabs; partials = first; fulls_cnt = cnt })
        (record v { partial = partial; full = full })
IsStore-relink h v slabs first partial full cnt w linked distinct fulls apart old counted same =
    record {
      linked = linked;
      distinct = distinct;
      fulls = fulls;
      apart = apart;
      slab = λ p g. SameItems-IsSlab (same p) (w.slab p (old p g));
      block = λ p g. w.block p (old p g);
      counted = counted;
      sound = w.sound;
      ready = w.ready;
      low = w.low;
    }

-- The page allocator changes, and the slabs' blocks are still in use.
pub IsStore-phys :
    (h : SlabHeap) (v : HeapView) (m : PhysState)
    → IsStore h v
    → IsReady m
    → m.first_buddy.start ≡ h.phys.first_buddy.start
    → ((p : ℕ)
        → is_slab v p ≡ true
        → IsBlock h.phys.first_buddy h.layout.slab_alloc_mem (pa p)
        → IsBlock m.first_buddy h.layout.slab_alloc_mem (pa p))
    → IsStore (record h { phys = m }) v
IsStore-phys h v m w ready start kept = record {
  linked = w.linked;
  distinct = w.distinct;
  fulls = w.fulls;
  apart = w.apart;
  slab = w.slab;
  block = λ p g. let (b, e) = w.block p g in (kept p g b, e);
  counted = w.counted;
  sound = w.sound;
  ready = ready;
  low = omega (arith, w.low, start);
}
