-- ===== src/Slab/Free.antt =====
-- `slab_free` of slab.c: the item at an address, and what freeing it does.
use os_course_term.Common.{
  ℕ, ◌+◌, ◌*◌, ◌/◌, ◌^◌, ◌≤◌, ◌<◌, ◌≡◌, refl, true, false, List, ◌∷◌, has, length-Distinct, died,
  Returns, returns, update, update_self, update_ne, lt→ltb, le→leb, arith, add64, sub64, mul64,
  ==_refl,
}
use os_course_term.Slab.{Slab, SlabLayout, node, set_node, item_of, slab_free}
use os_course_term.Slab.Nodes.{IsSlab, FreeChain-frame, free-unmarked}

-- The address that `slab_alloc` returns for item `id`.
abbrev pub item_at : SlabLayout → (slab id : ℕ) → ℕ
item_at a slab id = add64 (add64 slab a.slab_nodes_start) (mul64 a.item_size id)

-- What `slab_alloc` relies on in the layout and the place of a slab: all items are in the memory.
pub record Fits (a : SlabLayout) (slab : ℕ) : Type 0 where
  pub sized : 1 ≤ a.item_size
  pub few : a.slab_nodes < 2 ^ 31
  pub ends : slab + a.slab_nodes_start + a.slab_nodes * a.item_size ≤ 2 ^ 64

module _ (a : SlabLayout) (slab : ℕ) (fits : Fits a slab) where
  -- The item is in the memory of the slab, and its address is computed without overflow.
  pub item_at_lem :
      (id : ℕ)
      → id < a.slab_nodes
      → (item_at a slab id ≡ slab + a.slab_nodes_start + id * a.item_size)
        × ((id + 1) * a.item_size ≤ a.slab_nodes * a.item_size)
        × ((id + 1) * a.item_size ≡ id * a.item_size + a.item_size)
  item_at_lem id h =
      let size : ℕ = a.item_size in
      let below : (id + 1) * size ≤ a.slab_nodes * size =
        mul_le size (id + 1) a.slab_nodes (omega arith) in
      let comm : size * id ≡ id * size = omega arith in
      let split : (id + 1) * size ≡ id * size + size = grind arith in
      (omega (arith, fits.ends, fits.sized), below, split)
    where
      mul_le : (x m n : ℕ) → m ≤ n → m * x ≤ n * x
      mul_le x m n h = grind arith

  -- The item at the address of item `id` is `id`.
  pub item_of-item_at : (id : ℕ) → id < a.slab_nodes → item_of a slab (item_at a slab id) ≡ id
  item_of-item_at id h =
      let size : ℕ = a.item_size in
      let start : ℕ = a.slab_nodes_start in
      let (at, below, split) = item_at_lem id h in
      let offset : sub64 (sub64 (item_at a slab id) slab) start ≡ id * size =
        omega (arith, fits.ends, fits.sized) in
      let exact : id * size / size ≡ id = div_exact id size fits.sized in
      rw (offset, exact) (omega (arith, fits.few))
    where
      div_exact : (x m : ℕ) → 1 ≤ m → x * m / m ≡ x
      div_exact x m h = grind arith

  -- `slab_free` of an allocated item makes it the first free one.
  pub slab_free-IsSlab :
      (s : Slab) (free : List ℕ) (id : ℕ)
      → IsSlab a s free
      → id < a.slab_nodes
      → has id free ≡ false
      → Returns (λ _ s'. IsSlab a s' (id ∷ free)) (slab_free a slab (item_at a slab id) s)
  unfolding slab_free node set_node
  slab_free-IsSlab s free id v h out =
      simp
        (
          item_of-item_at id h,
          lt→ltb id a.slab_nodes h,
          v.taken id h out,
          ==_refl id,
          le→leb 1 s.allocated some_taken,
        )
        (returns (record {
          chain = (
            refl,
            rw (update_self s.nodes id s.first_free) (
                FreeChain-frame s.nodes (update s.nodes id s.first_free) s.first_free free
                  (λ i g. update_ne s.nodes id s.first_free i (λ e. absurd (ground arith)))
                  v.chain),
          );
          distinct = (out, v.distinct);
          inside = λ i g. ground (arith, v.inside i);
          taken = λ i g o. ground (arith, v.taken i g);
          counted = omega (arith, v.counted, some_taken);
        }))
    where
      some_taken : 1 ≤ s.allocated
      some_taken = omega (
        arith,
        v.counted,
        length-Distinct a.slab_nodes (id ∷ free) (out, v.distinct)
            λ i g. ground (arith, v.inside i),
      )

  -- A second `slab_free` of the same item halts the machine.
  pub slab_free-twice :
      (s : Slab) (free : List ℕ) (id : ℕ)
      → IsSlab a s free
      → has id free ≡ true
      → slab_free a slab (item_at a slab id) s ≡ died
  unfolding slab_free node
  slab_free-twice s free id v h =
      simp
        (
          item_of-item_at id (v.inside id h),
          lt→ltb id a.slab_nodes (v.inside id h),
          free-unmarked s.nodes s.first_free free id v.chain v.distinct h,
        )
        refl
