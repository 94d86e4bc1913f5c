-- ===== src/Slab/Heap/Free.antt =====
-- `slab_allocator_free` of slab.c on a heap.
use os_course_term.Common.{
  ℕ, ◌<◌, ◌≡◌, ◌≢◌, ◌⊎◌, refl, sym, ap, ◌∙◌, arith, true, false, ◌&&◌, not, ◌∷◌, length, has,
  Distinct, ◌==◌, Bool-cases, inl, inr, died, when, ◌>>=◌, ◌>>◌, Returns, returns, Returns-bind,
}
use os_course_term.Memory.{PhysState}
use os_course_term.Memory.Calls.{unlocked_memory, unlocked-IsReady}
use os_course_term.Slab.{SlabLayout, slab_free}
use os_course_term.Slab.Free.{item_at, slab_free-twice}
use os_course_term.Threading.{spin_unlock}
use os_course_term.Slab.Allocator.{
  SlabHeap, on_lock, on_slab, get, slab_at, move_to_partials, remove_slab, slab_allocator_free,
}
use os_course_term.Slab.Heap.Invariant.{
  HeapView, is_slab, is_used, IsStore, IsTidy, IsHeap, Keeps, Fewer, IsGone, IsStore-phys,
}
use os_course_term.Slab.Heap.Return.{
  place, slab-Fits, start_lem, give-IsStore, Unfilled-partial, unfill-Unfilled, empty-Emptied,
}
use os_course_term.Slab.Heap.Lock.{
  locked_heap, free_lock, heap_lock_taken, heap_lock_given, free_lock-mine, IsStore-lock,
  Keeps-trans,
}
use os_course_term.Slab.Heap.Given.{
  given, freed_view, freed_view-IsTidy, freed_view-used, freed_view-released,
}

-- The items handed out are those of `v` without item `id` of the slab at `s`. No block of the page
-- allocator is new, and if the slab is none any more, its block is given back.
pub record Released (h : SlabHeap) (v : HeapView) (s id : ℕ) (h' : SlabHeap) : Type 0 where
  pub view : HeapView
  pub heap : IsHeap h' view
  pub used :
      (q j : ℕ)
      → is_used h.layout.slab_nodes view q j
        ≡ (not (q == s && j == id) && is_used h.layout.slab_nodes v q j)
  pub fewer : Fewer h h'
  pub released : (is_slab view s ≡ true) ⊎ IsGone h' s

module _ (h : SlabHeap) (v : HeapView) (f : SlabHeap) (w : IsStore f v)
    (t : IsTidy f.layout.slab_nodes v) (keeps : Keeps (locked_heap h) f) (fewer : Fewer h f)
    (s id : ℕ) (lt : id < f.layout.slab_nodes) (there : is_slab v s ≡ true)
    (out : has id (v.free s) ≡ false) where
  -- The slab had no free item just when it was a full one.
  was_full : ((f.slabs s).allocated == f.layout.slab_nodes) ≡ has s v.full
  was_full =
      let count = (w.slab s there).counted in
      elim (Bool-cases (has s v.full)) [
        | inl full ↦
            let none : length (v.free s) ≡ 0 = ap length (t.full s full) in ground (arith, count)
        | inr not_full ↦ let some = (t.partial s (ground arith)).0 in ground (arith, count)
      ]

  some_slab : s ≢ 0
  some_slab z =
      let (at, low) = place f v w s there in absurd (omega (arith, at, low, w.sound.block))

  -- The steps once the slab is found.
  after_lookup :
      Returns
        (λ _ h'. Released h v s id h')
        ((do
          x ← slab_at s
          nodes ← get (λ h. h.layout.slab_nodes)
          on_slab s (λ a. slab_free a s (item_at f.layout s id))
          when (x.allocated == nodes) (move_to_partials s)
          y ← slab_at s
          when (y.allocated == 0) (remove_slab s)
          on_lock spin_unlock)
          f)
  after_lookup =
      let slab = w.slab s there in
      let items : Distinct (id ∷ v.free s)
          × ((i : ℕ) → has i (id ∷ v.free s) ≡ true → i < f.layout.slab_nodes) =
        ((out, slab.distinct), λ i g. ground (arith, slab.inside i)) in
      Returns-bind (give-IsStore f v w s there id lt out) λ _ g (wg, kg, fg).
        Returns-bind
          (unfill-Unfilled g (given f.layout.slab_nodes v s id t lt items there) s
            (f.slabs s).allocated f.layout.slab_nodes wg there some_slab was_full)
          λ _ m u. Returns-bind (empty-Emptied m _ s u.store (Unfilled-partial u)) λ _ k r.
            let all = Keeps-trans kg (Keeps-trans u.keeps r.keeps) in
            let same : m.layout.slab_nodes ≡ f.layout.slab_nodes =
              ap (λ (a : SlabLayout). a.slab_nodes) (u.keeps.layout ∙ kg.layout) in
            rw (heap_lock_given h k (Keeps-trans keeps all)) (
              returns (record {
                view = freed_view f.layout.slab_nodes v s id t lt items there g m k u r same;
                heap = record {
                  store = IsStore-lock k _ (free_lock h) r.store;
                  tidy = rw all.layout (
                      freed_view-IsTidy f.layout.slab_nodes v s id t lt items there g m k u r same);
                  mine = free_lock-mine h k (Keeps-trans keeps all);
                };
                used =
                    rw (sym keeps.layout)
                      (freed_view-used f.layout.slab_nodes v s id t lt items there g m k u r same);
                fewer = λ n b c. fewer n b (fg n b (u.fewer n b (r.fewer n b c)));
                released =
                    freed_view-released f.layout.slab_nodes v s id t lt items there g m k u r same;
              }))

-- On a heap that satisfies the invariant, `slab_allocator_free` of an item that is handed out returns:
-- the invariant holds again, the items handed out are the others, and the block of a slab that is
-- empty now is no longer in use.
pub slab_allocator_free-IsHeap :
    (h : SlabHeap) (v : HeapView) (s id : ℕ)
    → IsHeap h v
    → is_used h.layout.slab_nodes v s id ≡ true
    → Returns (λ _ h'. Released h v s id h') (slab_allocator_free (item_at h.layout s id) h)
unfolding slab_allocator_free
slab_allocator_free-IsHeap h v s id w used =
    let l : SlabHeap = locked_heap h in
    let store : IsStore l v = IsStore-lock h v l.lock w.store in
    let there : is_slab v s ≡ true = ground (arith, used) in
    let lt : id < h.layout.slab_nodes = ground (arith, used) in
    let out : has id (v.free s) ≡ false = ground (arith, used) in
    let m : PhysState = unlocked_memory l.phys l.phys.first_buddy in
    let w' : IsStore (record l { phys = m }) v =
      IsStore-phys l v m store
        (unlocked-IsReady l.phys store.ready l.phys.first_buddy store.ready.pool store.ready.valid
          refl)
        refl (λ p g b. b) in
    rw
      (heap_lock_taken h w.mine, start_lem l v store s there id lt, sym (place l v store s there).0)
      (after_lookup h v (record l { phys = m }) w' w.tidy
        (record { lock = refl; layout = refl; thread = refl; valloc = refl; start = refl })
        (λ n t b. b) s id lt there out)

-- On a heap that satisfies the invariant, `slab_allocator_free` of a free item of one of its slabs
-- halts the machine.
pub slab_allocator_free-twice :
    (h : SlabHeap) (v : HeapView) (s id : ℕ)
    → IsHeap h v
    → is_slab v s ≡ true
    → has id (v.free s) ≡ true
    → slab_allocator_free (item_at h.layout s id) h ≡ died
unfolding slab_allocator_free
slab_allocator_free-twice h v s id w there free =
    let l : SlabHeap = locked_heap h in
    let store : IsStore l v = IsStore-lock h v l.lock w.store in
    let slab = w.store.slab s there in
    rw
      (
        heap_lock_taken h w.mine,
        start_lem l v store s there id (slab.inside id free),
        sym (place l v store s there).0,
        slab_free-twice h.layout s (slab-Fits l v store s there) (h.slabs s) (v.free s) id slab
            free,
      )
      refl
