-- ===== src/Slab/Nodes.antt =====
-- The free items of a slab: the invariant of `struct slab`, and what `slab_create` and `slab_alloc`
-- do.
use os_course_term.Common.{
  ℕ, zero, suc, ◌+◌, ◌≤◌, ◌<◌, ◌≡◌, refl, ◌∙◌, subst, true, false, List, [], ◌∷◌, length, has,
  Distinct, ltb, leb, ◌&&◌, ◌==◌, if◌then◌else◌, ℤ, pos, minus_one, eq_ℤ, died, Returns, returns,
  Returns-mono, update, update_self, update_ne, lt→ltb, le→ltb, arith, Bool-cases, inl, inr, add64,
  mul64,
}
use os_course_term.Slab.{
  Slab, SlabLayout, node, set_node, link_nodes, slab_create, take_node, slab_alloc,
}

-- From `first` the links lead through the items `xs` to -1.
abbrev pub FreeChain : (ℕ → ℤ) → ℤ → List ℕ → Type 0
FreeChain nodes first [] = first ≡ minus_one
FreeChain nodes first (x ∷ xs) = (first ≡ pos x) × FreeChain nodes (nodes x) xs

-- The slab's free items are those of the list; the others are marked as allocated, and counted.
pub record IsSlab (a : SlabLayout) (s : Slab) (free : List ℕ) : Type 0 where
  pub chain : FreeChain s.nodes s.first_free free
  pub distinct : Distinct free
  pub inside : (i : ℕ) → has i free ≡ true → i < a.slab_nodes
  pub taken : (i : ℕ) → i < a.slab_nodes → has i free ≡ false → s.nodes i ≡ pos i
  pub counted : s.allocated + length free ≡ a.slab_nodes

pub FreeChain-frame :
    (nodes nodes' : ℕ → ℤ) (first : ℤ) (xs : List ℕ)
    → ((i : ℕ) → has i xs ≡ true → nodes' i ≡ nodes i)
    → FreeChain nodes first xs
    → FreeChain nodes' first xs
FreeChain-frame nodes nodes' first [] same c = c
FreeChain-frame nodes nodes' first (x ∷ xs) same (e, c) = (
  e,
  rw (same x (ground arith))
      (FreeChain-frame nodes nodes' (nodes x) xs (λ i h. same i (ground arith)) c),
)

-- No free item looks allocated.
pub free-unmarked :
    (nodes : ℕ → ℤ) (first : ℤ) (xs : List ℕ) (i : ℕ)
    → FreeChain nodes first xs
    → Distinct xs
    → has i xs ≡ true
    → eq_ℤ (nodes i) (pos i) ≡ false
free-unmarked nodes first [] i c d h = absurd (cc)
free-unmarked nodes first (x ∷ []) i (e, c) d h = ground arith
free-unmarked nodes first (x ∷ y ∷ ys) i (e, c) (out, d) h = elim (Bool-cases (i == x)) [
  | inl here ↦ ground (arith, c)
  | inr there ↦ free-unmarked nodes (nodes x) (y ∷ ys) i c d (ground arith)
]

-- `slab_alloc` hands out the first free item and marks it.
pub slab_alloc-IsSlab :
    (a : SlabLayout) (slab : ℕ) (s : Slab) (x : ℕ) (xs : List ℕ)
    → IsSlab a s (x ∷ xs)
    → Returns
        (λ p s'. (p ≡ add64 (add64 slab a.slab_nodes_start) (mul64 a.item_size x)) × IsSlab a s' xs)
        (slab_alloc a slab s)
unfolding slab_alloc take_node node set_node
slab_alloc-IsSlab a slab s x xs v =
    simp (v.chain.0, lt→ltb x a.slab_nodes (v.inside x (ground arith)))
      (returns (
        refl,
        record {
          chain =
              FreeChain-frame s.nodes (update s.nodes x (pos x)) (s.nodes x) xs
                (λ i h. update_ne s.nodes x (pos x) i (λ e. absurd (ground (arith, v.distinct))))
                v.chain.1;
          distinct = v.distinct.1;
          inside = λ i h. v.inside i (ground arith);
          taken = λ i h out. elim (Bool-cases (i == x)) [
            | inl here ↦ ground arith
            | inr there ↦ ground (arith, v.taken i h)
          ];
          counted = omega (arith, v.counted);
        },
      ))

-- `slab_alloc` halts the machine on a slab that is full.
pub slab_alloc-full :
    (a : SlabLayout) (slab : ℕ) (s : Slab) → IsSlab a s [] → slab_alloc a slab s ≡ died
unfolding slab_alloc take_node
slab_alloc-full a slab s v = rw v.chain refl

abbrev pub count_up : (rounds i : ℕ) → List ℕ
count_up zero i = []
count_up (suc rounds) i = i ∷ count_up rounds (i + 1)

abbrev start_of : (rounds i : ℕ) → ℤ
start_of zero i = minus_one
start_of (suc rounds) i = pos i

pub has-count_up : (rounds i j : ℕ) → has j (count_up rounds i) ≡ (leb i j && ltb j (i + rounds))
has-count_up zero i j = ground arith
has-count_up (suc rounds) i j = ground (arith, has-count_up rounds (i + 1) j)

count_up-Distinct : (rounds i : ℕ) → Distinct (count_up rounds i)
count_up-Distinct zero i = tt
count_up-Distinct (suc rounds) i =
    (ground (arith, has-count_up rounds (i + 1) i), count_up-Distinct rounds (i + 1))

pub length-count_up : (rounds i : ℕ) → length (count_up rounds i) ≡ rounds
length-count_up zero i = refl
length-count_up (suc rounds) i = omega (arith, length-count_up rounds (i + 1))

-- The loop links the items from `i` on, and changes nothing else.
link_nodes-FreeChain :
    (a : SlabLayout) (rounds i : ℕ) (s : Slab)
    → i + rounds ≡ a.slab_nodes
    → Returns
        (λ _ s'.
          (nodes : ℕ → ℤ) × (s' ≡ record s { nodes = nodes })
          × ((j : ℕ) → j < i → nodes j ≡ s.nodes j)
          × FreeChain nodes (start_of rounds i) (count_up rounds i))
        (link_nodes a rounds i s)
unfolding link_nodes set_node
link_nodes-FreeChain a zero i s e = returns (s.nodes, refl, (λ j h. refl), refl)
link_nodes-FreeChain a (suc rounds) i s e = rw (lt→ltb i a.slab_nodes (omega arith)) (
    Returns-mono
      (link_nodes-FreeChain a rounds (i + 1) (record s { nodes = update s.nodes i next })
        (omega arith))
      λ _ s' (nodes, same, old, chain). (
        nodes,
        same,
        (λ j h. old j (omega arith) ∙ update_ne s.nodes i next j (omega arith)),
        (
          refl,
          rw (old i (omega arith), update_self s.nodes i next, next_start rounds (omega arith))
              chain,
        ),
      ))
  where
    next : ℤ
    next = if ltb (i + 1) a.slab_nodes then pos (i + 1) else minus_one

    next_start : (rounds : ℕ) → i + suc rounds ≡ a.slab_nodes → next ≡ start_of rounds (i + 1)
    next_start zero e = rw (le→ltb (i + 1) a.slab_nodes (omega arith)) refl
    next_start (suc rounds) e = rw (lt→ltb (i + 1) a.slab_nodes (omega arith)) refl

-- `slab_create` makes a slab whose items are all free.
pub slab_create-IsSlab :
    (a : SlabLayout) (s : Slab)
    → 1 ≤ a.slab_nodes
    → Returns
        (λ _ s'. IsSlab a s' (count_up a.slab_nodes 0) × (s'.prev_slab ≡ 0) × (s'.next_slab ≡ 0))
        (slab_create a s)
unfolding slab_create
slab_create-IsSlab a s h =
    Returns-mono (link_nodes-FreeChain a a.slab_nodes 0 fresh (omega arith))
      λ _ s' (nodes, e, old, chain). rw e (
        record {
          chain =
              subst (λ (f : ℤ). FreeChain nodes f (count_up a.slab_nodes 0))
                (some_start a.slab_nodes h) chain;
          distinct = count_up-Distinct a.slab_nodes 0;
          inside = λ i g. ground (arith, has-count_up a.slab_nodes 0 i);
          taken = λ i g out. absurd (ground (arith, has-count_up a.slab_nodes 0 i));
          counted = omega (arith, length-count_up a.slab_nodes 0);
        },
        refl,
        refl,
      )
  where
    fresh : Slab
    fresh = record s { prev_slab = 0; next_slab = 0; first_free = pos 0; allocated = 0 }

    some_start : (rounds : ℕ) → 1 ≤ rounds → start_of rounds 0 ≡ pos 0
    some_start zero h = absurd (omega arith)
    some_start (suc rounds) h = refl
