-- ===== src/Slab/Layout.antt =====
-- `calculate_slab` of slab.c: a layout is found, and all items lie in the memory of the slab.
use os_course_term.Common.{
  ℕ, zero, suc, ◌+◌, ◌-◌, ◌*◌, ◌/◌, ◌%◌, ◌^◌, ◌≤◌, ◌<◌, ◌≡◌, refl, sym, subst, false, ltb,
  if◌then◌else◌, some, Returns, returns, lt→ltb, le→ltb, ltb→lt, le→leb, arith, Bool-cases, inl,
  inr, add64, sub64, mul64, land64, land-pow2, mul_mono_left, sub_mul_split, dec_le, pow2-suc,
  pow2_add, pow2_pos, pow2_mono,
}
use native.Mathlib.Nat.{
  div-add-mod, div-le_self, le_of_mul-le-mul_right, div-lt_iff_lt-mul, lt-div-mul-add,
  div-mul-le_self, le-div_iff_mul-le,
}
use os_course_term.Slab.{
  SlabLayout, page_size, sizeof_slab, sizeof_node, min_slab_nodes, align_by, grow, lay_out,
  calculate_slab,
}

-- The loop doubles a power of two until it reaches the bound.
pub grow-pow2 :
    (fuel k top min_mem : ℕ)
    → min_mem ≤ 2 ^ top
    → top ≤ k + fuel
    → k ≤ top
    → top ≤ 63
    → (m : ℕ) × (grow fuel (2 ^ k) min_mem ≡ some (2 ^ m)) × (k ≤ m) × (min_mem ≤ 2 ^ m) × (m ≤ top)
unfolding grow
grow-pow2 zero k top min_mem h enough le g =
    let h' : min_mem ≤ 2 ^ k = omega (arith, pow2_mono top k (omega arith)) in
    (k, rw (le→ltb (2 ^ k) min_mem h') refl, omega arith, h', le)
grow-pow2 (suc fuel) k top min_mem h enough le g = elim (Bool-cases (ltb (2 ^ k) min_mem)) [
  | inl small ↦
      let below = ltb→lt (2 ^ k) min_mem small in
      let room = below_top k top min_mem h below in
      let doubled : mul64 (2 ^ k) 2 ≡ 2 ^ suc k =
        omega (arith, pow2-suc k, pow2_mono k 62 (omega arith)) in
      let (m, found, from, reached, to) =
        grow-pow2 fuel (suc k) top min_mem h (omega arith) room g in
      (m, rw (small, doubled) found, omega arith, reached, to)
  | inr big ↦ (k, rw big refl, omega arith, ground arith, le)
]
  where
    below_top : (k top n : ℕ) → n ≤ 2 ^ top → 2 ^ k < n → suc k ≤ top
    below_top k top n h g = elim (dec_le (suc k) top) [
      | yes p ↦ p
      | no np ↦ absurd (omega (arith, pow2_mono top k (omega arith)))
    ]

-- What the layout of a slab promises: the header is followed by aligned items, at least ten of
-- them, which end with the memory, whose size is a power of two.
pub record IsLayout (item_size align : ℕ) (a : SlabLayout) : Type 0 where
  pub item : a.item_size ≡ item_size
  pub header : sizeof_slab + a.slab_nodes * sizeof_node ≤ a.slab_nodes_start
  pub aligned : (t : ℕ) × (a.slab_nodes_start ≡ t * align)
  pub ends : a.slab_nodes_start + a.slab_nodes * item_size ≤ a.slab_alloc_mem
  pub many : min_slab_nodes ≤ a.slab_nodes
  pub whole : (m : ℕ) × (a.slab_alloc_mem ≡ 2 ^ m) × (m ≤ 30)

-- `align_by`, when nothing wraps around.
abbrev pub round_up : (x align : ℕ) → ℕ
round_up x align = (x + align - 1) / align * align

-- Rounding up to a multiple of `align` stays below any multiple above.
pub round_up-le : (x align t : ℕ) → 1 ≤ align → x ≤ t * align → round_up x align ≤ t * align
round_up-le x align t h g =
    let next : suc t * align ≡ t * align + align = grind arith in
    let q : (x + align - 1) / align < suc t =
      (div-lt_iff_lt-mul {k = align} (omega arith)).1 (omega arith) in
    mul_mono_left ((x + align - 1) / align) t align (omega arith)

pub le-round_up : (x align : ℕ) → 1 ≤ align → x ≤ round_up x align
le-round_up x align h =
    let padded : ℕ = x + align - 1 in
    omega (arith, lt-div-mul-add {a = padded} {b = align} (omega arith))

-- The items end with the memory when header and items together are not longer than it.
items_end :
    (mem item align r t nodes : ℕ)
    → 1 ≤ align
    → item ≡ r * align
    → mem ≡ t * align
    → sizeof_slab + nodes * (item + sizeof_node) ≤ mem
    → round_up (sizeof_slab + nodes * sizeof_node) align + nodes * item ≤ mem
items_end mem item align r t nodes h hi hm fits =
    let spread : nodes * (item + sizeof_node) ≡ nodes * item + nodes * sizeof_node = grind arith in
    let items : nodes * item ≡ (nodes * r) * align = rw hi (grind arith) in
    let smaller : nodes * r ≤ t = le_of_mul-le-mul_right {k = align} (omega arith) (omega arith) in
    let split : (t - nodes * r) * align + (nodes * r) * align ≡ t * align =
      sub_mul_split t (nodes * r) align smaller in
    let rounded =
      round_up-le (sizeof_slab + nodes * sizeof_node) align (t - nodes * r) h (omega arith) in
    omega arith

-- The arithmetic of `calculate_slab` does not wrap around on a slab of at most 1 GiB.
nodes_exact :
    (mem item : ℕ)
    → mem ≤ 2 ^ 30
    → item ≤ 2 ^ 26
    → sizeof_slab ≤ mem
    → (sub64 mem sizeof_slab / add64 item sizeof_node) % 2 ^ 32
      ≡ (mem - sizeof_slab) / (item + sizeof_node)
nodes_exact mem item h g le =
    let dividend : sub64 mem sizeof_slab ≡ mem - sizeof_slab = omega arith in
    let divisor : add64 item sizeof_node ≡ item + sizeof_node = omega arith in
    rw (dividend, divisor) (omega (arith, div-le_self (mem - sizeof_slab) (item + sizeof_node)))

start_exact :
    (nodes align : ℕ)
    → nodes ≤ 2 ^ 30
    → align ≤ 2 ^ 26
    → 1 ≤ align
    → align_by (add64 sizeof_slab (mul64 nodes sizeof_node)) align
      ≡ round_up (sizeof_slab + nodes * sizeof_node) align
start_exact nodes align h g le =
    let padded : ℕ = sizeof_slab + nodes * sizeof_node + align - 1 in
    let sum : sub64 (add64 (add64 sizeof_slab (mul64 nodes sizeof_node)) align) 1 ≡ padded =
      omega arith in
    rw sum (omega (arith, div-mul-le_self padded align))

lay_out-IsLayout :
    (item align r t m : ℕ)
    → 1 ≤ item
    → 1 ≤ align
    → item ≤ 2 ^ 26
    → align ≤ 2 ^ 26
    → item ≡ r * align
    → 2 ^ m ≡ t * align
    → m ≤ 30
    → sizeof_slab + (item + sizeof_node) * min_slab_nodes ≤ 2 ^ m
    → Returns (λ a _. IsLayout item align a) (lay_out item align (some (2 ^ m)) tt)
unfolding lay_out
lay_out-IsLayout item align r t m hi ha small small' multiple whole top room =
    let mem : ℕ = 2 ^ m in
    let mem_small = pow2_mono m 30 top in
    let count : ℕ = (mem - sizeof_slab) / (item + sizeof_node) in
    let used : count * (item + sizeof_node) ≤ mem - sizeof_slab =
      div-mul-le_self (mem - sizeof_slab) (item + sizeof_node) in
    let many : min_slab_nodes ≤ count =
      (le-div_iff_mul-le {k = item + sizeof_node} (omega arith)).1 (omega arith) in
    let spread : count * (item + sizeof_node) ≡ count * item + count * sizeof_node = grind arith in
    let nodes : (sub64 mem sizeof_slab / add64 item sizeof_node) % 2 ^ 32 ≡ count =
      nodes_exact mem item mem_small small (omega arith) in
    let fits = items_end mem item align r t count ha multiple whole (omega arith) in
    let start : align_by (add64 sizeof_slab (mul64 count sizeof_node)) align
        ≡ round_up (sizeof_slab + count * sizeof_node) align =
      start_exact count align (omega (arith, div-le_self (mem - sizeof_slab) (item + sizeof_node)))
        small' ha in
    simp
      (
        nodes,
        start,
        le→leb (add64 (round_up (sizeof_slab + count * sizeof_node) align) (mul64 count item)) mem
            (omega (arith, fits)),
      )
      (returns (record {
        item = refl;
        header = le-round_up (sizeof_slab + count * sizeof_node) align ha;
        aligned = ((sizeof_slab + count * sizeof_node + align - 1) / align, refl);
        ends = fits;
        many = many;
        whole = (m, refl, top);
      }))

power_multiple : (k m : ℕ) → k ≤ m → 2 ^ m ≡ 2 ^ (m - k) * 2 ^ k
power_multiple k m h =
    let e : (m - k) + k ≡ m = omega arith in
    subst (λ (j : ℕ). 2 ^ j ≡ 2 ^ (m - k) * 2 ^ k) e (pow2_add (m - k) k)

pow2-le : (k n : ℕ) → 2 ^ k ≤ 2 ^ n → k ≤ n
pow2-le k n h = elim (dec_le k n) [
  | yes p ↦ p
  | no np ↦ absurd (omega (arith, pow2-suc n, pow2_pos n, pow2_mono (suc n) k (omega arith)))
]

-- The loop starts from a power of two that the alignment divides.
first_size :
    (k : ℕ)
    → k ≤ 26
    → (m : ℕ) × ((if ltb page_size (2 ^ k) then 2 ^ k else page_size) ≡ 2 ^ m) × (k ≤ m) × (m ≤ 26)
first_size k h = elim (Bool-cases (ltb page_size (2 ^ k))) [
  | inl large ↦ (k, rw large refl, omega arith, h)
  | inr page ↦
      (12, rw page refl, pow2-le k 12 (omega (arith, leb_of page_size (2 ^ k) page)), omega arith)
]
  where
    leb_of : (m n : ℕ) → ltb m n ≡ false → n ≤ m
    leb_of m n h = ground arith

aligned_at :
    (item k r : ℕ)
    → 1 ≤ item
    → item ≤ 2 ^ 26
    → k ≤ 26
    → item ≡ r * 2 ^ k
    → Returns
        (λ a _. IsLayout item (2 ^ k) a)
        (lay_out item
          (2 ^ k)
          (grow 52
            (if ltb page_size (2 ^ k) then 2 ^ k else page_size)
            (sizeof_slab + (item + sizeof_node) * min_slab_nodes))
          tt)
aligned_at item k r hi small hk multiple =
    let (first, e, above, top) = first_size k hk in
    let need : ℕ = sizeof_slab + (item + sizeof_node) * min_slab_nodes in
    let (m, found, from, reached, to) =
      grow-pow2 52 first 30 need (omega arith) (omega arith) (omega arith) (omega arith) in
    rw (e, found)
      (lay_out-IsLayout item (2 ^ k) r (2 ^ (m - k)) m hi (pow2_pos k) small (pow2_mono k 26 hk)
        multiple (power_multiple k m (omega arith)) to reached)

-- Where its asserts on the item and its alignment hold, `calculate_slab` finds a layout, of at most
-- 1 GiB for items of up to 64 MiB.
pub calculate_slab-IsLayout :
    (item align : ℕ)
    → 1 ≤ item
    → item ≤ 2 ^ 26
    → 1 ≤ align
    → align ≤ 2 ^ 26
    → land64 align (align - 1) ≡ 0
    → item % align ≡ 0
    → Returns (λ a _. IsLayout item align a) (calculate_slab item align tt)
unfolding calculate_slab
calculate_slab-IsLayout item align hi small ha small' power multiple =
    let (k, is_power) = land-pow2 64 align ha (omega arith) power in
    let exact : item ≡ item / align * align = omega (arith, div-add-mod item align) in
    let pred : sub64 align 1 ≡ align - 1 = omega arith in
    let bytes : add64 sizeof_slab (mul64 (add64 item sizeof_node) min_slab_nodes)
        ≡ sizeof_slab + (item + sizeof_node) * min_slab_nodes =
      omega arith in
    simp (lt→ltb 0 item (omega arith), le→leb 1 align ha, pred, power, multiple, bytes)
      (subst
        (λ (d : ℕ).
          Returns (λ a _. IsLayout item d a)
            (lay_out item d
              (grow 52 (if ltb page_size d then d else page_size)
                (sizeof_slab + (item + sizeof_node) * min_slab_nodes))
              tt))
        (sym is_power)
        (aligned_at item k (item / align) hi small (pow2-le k 26 (omega arith))
          (subst (λ (d : ℕ). item ≡ item / align * d) is_power exact)))
