-- ===== src/Slab/Heap/Setup.antt =====
-- `slab_allocator_init` and `slab_allocator_deinit` of slab.c.
use os_course_term.Common.{
  ℕ, zero, suc, ◌+◌, ◌-◌, ◌*◌, ◌/◌, ◌%◌, ◌^◌, ◌≤◌, ◌<◌, ◌≡◌, ◌⊎◌, refl, sym, ap, subst, ==_refl,
  ◌∙◌, arith, true, false, ◌==◌, List, [], ◌∷◌, length, has, remove, has-remove_ne, length-remove,
  pos, eq_ℤ, land64, add64, sub64, Bool-cases, inl, inr, ok, died, Returns, returns, Returns-bind,
  Returns-within,
}
use os_course_term.Buddy.{max_page_size}
use os_course_term.Memory.Calls.{IsReady}
use os_course_term.Slab.{align_by}
use os_course_term.Slab.Layout.{IsLayout, calculate_slab-IsLayout, round_up, le-round_up}
use os_course_term.Slab.Allocator.{SlabHeap, slab_allocator_init, slab_allocator_deinit}
use os_course_term.Slab.Heap.Links.{Linked}
use os_course_term.Slab.Heap.Invariant.{HeapView, is_slab, is_used, IsHeap, IsLayout-IsSound}

-- A heap without slabs.
abbrev pub empty_view : HeapView
empty_view = record { partial = []; full = []; free = λ p. [] }

-- The smallest multiple of `align` that is not below `x`, on sizes for which nothing wraps around.
align_by_lem :
    (x align : ℕ)
    → 1 ≤ x
    → x ≤ 2 ^ 25
    → 1 ≤ align
    → align ≤ 2 ^ 25
    → (align_by x align ≡ round_up x align)
      × (x ≤ round_up x align)
      × (round_up x align ≤ 2 ^ 26)
      × (round_up x align % align ≡ 0)
align_by_lem x align one small some small' =
    let top : (x + align - 1) / align * align ≤ x + align - 1 = div_le (x + align - 1) align in
    let inner : sub64 (add64 x align) 1 ≡ x + align - 1 = omega arith in
    (
      rw inner (omega (arith, top)),
      le-round_up x align some,
      omega (arith, top),
      mod_exact ((x + align - 1) / align) align some,
    )
  where
    div_le : (n m : ℕ) → n / m * m ≤ n
    div_le n m = grind arith

    mod_exact : (q m : ℕ) → 1 ≤ m → q * m % m ≡ 0
    mod_exact q m h = grind arith

-- For an item and an alignment of 1 to 32 MiB, the alignment a power of two, and a ready page
-- allocator below 2^47, `slab_allocator_init` makes a heap without slabs that satisfies the invariant,
-- with a layout for items that are large enough and aligned.
pub slab_allocator_init-IsHeap :
    (h : SlabHeap) (item_size align : ℕ)
    → 1 ≤ item_size
    → item_size ≤ 2 ^ 25
    → 1 ≤ align
    → align ≤ 2 ^ 25
    → land64 align (align - 1) ≡ 0
    → IsReady h.phys
    → h.phys.first_buddy.start + max_page_size ≤ 2 ^ 47
    → Returns
        (λ _ h'.
          IsHeap h' empty_view
          × IsLayout (align_by item_size align) align h'.layout
          × (item_size ≤ h'.layout.item_size))
        (slab_allocator_init item_size align h)
unfolding slab_allocator_init
slab_allocator_init-IsHeap h item_size align one small some small' power ready low =
    let (e, larger, top, multiple) = align_by_lem item_size align one small some small' in
    let test : (align == 0) ≡ false = ground arith in
    rw test (
      Returns-bind {P = λ a h'. IsLayout (align_by item_size align) align a × (h' ≡ h)}
        (Returns-within (λ _. h)
          (calculate_slab-IsLayout (align_by item_size align) align (omega (arith, e, larger))
            (omega (arith, e, top)) some (omega arith) power (rw e multiple))
          λ a _ v. (v, refl))
        λ a h' (v, same). rw same (
          returns (
            record {
              store = record {
                linked = refl;
                distinct = (refl, tt);
                fulls = tt;
                apart = λ p g. refl;
                slab = λ p g. absurd (cc);
                block = λ p g. absurd (cc);
                counted = refl;
                sound = IsLayout-IsSound a (omega (arith, e, larger)) v;
                ready = ready;
                low = low;
              };
              tidy = record { partial = λ p g. absurd (cc); full = λ p g. absurd (cc) };
              mine = refl;
            },
            v,
            omega (arith, v.item, e, larger),
          )))

-- A list of fewer than `n` different numbers misses one below `n`.
missing : (n : ℕ) (xs : List ℕ) → length xs < n → (id : ℕ) × (id < n) × (has id xs ≡ false)
missing zero xs h = absurd (omega arith)
missing (suc n) xs h = elim (Bool-cases (has n xs)) [
  | inr out ↦ (n, omega arith, out)
  | inl some ↦
      let (id, lt, out) = missing n (remove n xs) (omega (arith, length-remove n xs some)) in
      (id, omega arith, sym (has-remove_ne id n xs (λ e. absurd (omega (arith, lt)))) ∙ out)
]

-- Whether an item is handed out.
abbrev pub SomeUsed : SlabHeap → HeapView → Type 0
SomeUsed h v = (p : ℕ) × (id : ℕ) × (is_used h.layout.slab_nodes v p id ≡ true)

-- A slab of a heap has an item that is handed out.
slab-SomeUsed :
    (h : SlabHeap) (v : HeapView) (p : ℕ) → IsHeap h v → is_slab v p ≡ true → SomeUsed h v
slab-SomeUsed h v p w there =
    let few : length (v.free p) < h.layout.slab_nodes = elim (Bool-cases (has p v.partial)) [
      | inl partial ↦ (w.tidy.partial p partial).1
      | inr other ↦
          let none : length (v.free p) ≡ 0 = ap length (w.tidy.full p (ground (arith, there))) in
          omega (arith, none, w.store.sound.some)
    ] in
    let (id, lt, out) = missing h.layout.slab_nodes (v.free p) few in
    (p, id, ground (arith, there, lt, out))

deinit_cases :
    (h : SlabHeap) (v : HeapView) (partial full : List ℕ)
    → IsHeap h v
    → v.partial ≡ partial
    → v.full ≡ full
    → ((slab_allocator_deinit h ≡ ok tt h)
        × ((p id : ℕ) → is_used h.layout.slab_nodes v p id ≡ false))
      ⊎ ((slab_allocator_deinit h ≡ died) × SomeUsed h v)
unfolding slab_allocator_deinit
deinit_cases h v [] [] w ep ef =
    let first : h.partials ≡ 0 =
      subst (λ (xs : List ℕ). Linked h.slabs 0 h.partials xs) ep w.store.linked in
    let cnt : h.fulls_cnt ≡ pos 0 = rw ef at w.store.counted in
    inl (simp (cnt, first) refl, λ p id. rw (ep, ef) refl)
deinit_cases h v (s ∷ rest) [] w ep ef =
    let l = subst (λ (xs : List ℕ). Linked h.slabs 0 h.partials xs) ep w.store.linked in
    let cnt : h.fulls_cnt ≡ pos 0 = rw ef at w.store.counted in
    let there : is_slab v s ≡ true = rw (ep, ==_refl s) refl in
    let some : (h.partials == 0) ≡ false =
      ground (arith, l.0, w.store.distinct, rw ep at w.store.distinct) in
    inr (simp (cnt, some) refl, slab-SomeUsed h v s w there)
deinit_cases h v partial (s ∷ full) w ep ef =
    let cnt : h.fulls_cnt ≡ pos (suc (length full)) = rw ef at w.store.counted in
    let there : is_slab v s ≡ true = rw ef (ground arith) in
    let some : eq_ℤ h.fulls_cnt (pos 0) ≡ false = rw cnt (ground arith) in
    inr (rw some refl, slab-SomeUsed h v s w there)

-- On a heap that satisfies the invariant, either `slab_allocator_deinit` returns and no item is handed
-- out, or it halts the machine and there is one.
pub slab_allocator_deinit-used :
    (h : SlabHeap) (v : HeapView)
    → IsHeap h v
    → ((slab_allocator_deinit h ≡ ok tt h)
        × ((p id : ℕ) → is_used h.layout.slab_nodes v p id ≡ false))
      ⊎ ((slab_allocator_deinit h ≡ died) × SomeUsed h v)
slab_allocator_deinit-used h v w = deinit_cases h v v.partial v.full w refl refl
