-- ===== src/Paging/Map/Mapped.antt =====
-- What a part of `map_pages` does: it maps a range of addresses of one table, and leaves all else.
use os_course_term.Common.{
  Refusal, ℕ, suc, ◌+◌, ◌-◌, ◌*◌, ◌/◌, ◌%◌, ◌^◌, ◌≤◌, ◌<◌, ◌≡◌, refl, ap, ◌∙◌, ◌≢◌, ◌⊎◌, inl, inr,
  arith, Bool, true, false, ◌&&◌, ◌||◌, leb, ltb, if◌then◌else◌, Option, some, Cmd, Draws,
  mul_mono_left, dec_lt,
}
use native.Mathlib.Nat.{div-mul-le_self, lt-div-mul-add, le-div_iff_mul-le, div-lt_iff_lt-mul}
use os_course_term.Memory.{va}
use os_course_term.Paging.Map.{PageState}
use os_course_term.Paging.Map.Walk.{step, walk, IsClosed}

-- A table that an allocation hands out is aligned and was not taken before.
pub record IsFresh {P : Type 0} (Ready : P → Type 0) (Taken : P → ℕ → Type 0) (p : P) (t : ℕ)
    (p' : P) : Type 0 where
  pub ready : Ready p'
  pub aligned : t % 4096 ≡ 0
  pub small : t < 2 ^ 48
  pub free : ¬ Taken p t
  pub taken : Taken p' t
  pub kept : (u : ℕ) → Taken p u → Taken p' u

-- Where tables come from: `Ready` is the invariant of the allocator, `Taken` says which pages are in
-- use, and `Empty` that no table is left, for each way in which an allocation may be refused.
pub record TableSupply (P : Type 0) (Empty : Refusal → Type 0) : Type 1 where
  pub alloc : Cmd P ℕ
  pub Ready : P → Type 0
  pub Taken : P → ℕ → Type 0
  pub alloc-Fresh : (p : P) → Ready p → Draws Empty (IsFresh Ready Taken p) (alloc p)

-- The entry of an address, in the table of `b`: that of its index, and of no other.
pub index-bounds :
    (size b lin : ℕ)
    → 1 ≤ size
    → b * (size * 512) ≤ lin
    → lin < b * (size * 512) + size * 512
    → (b * (size * 512) + lin / size % 512 * size ≤ lin)
      × (lin < b * (size * 512) + lin / size % 512 * size + size)
index-bounds size b lin h from below =
    let q : ℕ = lin / size in
    let r : ℕ = q % 512 in
    let product : b * (size * 512) ≡ b * 512 * size = grind arith in
    let next : (b * 512 + 512) * size ≡ b * 512 * size + size * 512 = grind arith in
    let low : b * 512 ≤ q = (le-div_iff_mul-le {k = size} h).1 (omega arith) in
    let high : q < b * 512 + 512 = (div-lt_iff_lt-mul {k = size} h).1 (omega arith) in
    let split : q ≡ b * 512 + r = omega arith in
    let parts : (b * 512 + r) * size ≡ b * 512 * size + r * size = grind arith in
    let whole : q * size ≡ b * 512 * size + r * size = ap (λ (t : ℕ). t * size) split ∙ parts in
    (omega (arith, div-mul-le_self lin size), omega (arith, lt-div-mul-add {a = lin} {b = size} h))

pub index-eq :
    (size b lin i : ℕ)
    → 1 ≤ size
    → i < 512
    → b * (size * 512) + i * size ≤ lin
    → lin < b * (size * 512) + i * size + size
    → lin / size % 512 ≡ i
index-eq size b lin i h hi from below =
    let last : i * size + size ≤ size * 512 =
      omega (arith, mul_mono_left (suc i) 512 size hi, suc_mul i) in
    let (low, high) = index-bounds size b lin h (omega arith) (omega arith) in
    let r : ℕ = lin / size % 512 in
    elim (dec_lt r i) [
      | yes p ↦ absurd (omega (arith, mul_mono_left (suc r) i size p, suc_mul r))
      | no np ↦ elim (dec_lt i r) [
        | yes p ↦ absurd (omega (arith, mul_mono_left (suc i) r size p, suc_mul i))
        | no nq ↦ omega arith
      ]
    ]
  where
    suc_mul : (n : ℕ) → suc n * size ≡ n * size + size
    suc_mul n = grind arith

abbrev pub within_range : (from to lin : ℕ) → Bool
within_range from to lin = leb from lin && ltb lin to

module _ {P : Type 0} {Empty : Refusal → Type 0} (supply : TableSupply P Empty) where
  open supply use {Ready, Taken}

  pub record IsTree (s : PageState P) (rank : ℕ → ℕ) : Type 0 where
    pub ready : Ready s.phys
    pub closed : IsClosed rank s.tables
    pub taken : (q l : ℕ) → rank q ≡ suc l → (t : ℕ) × (q ≡ va t) × (t < 2 ^ 48) × Taken s.phys t

  -- On table `q`, which maps the addresses from `b * (step lev * 512)` on: exactly the addresses of
  -- the range are mapped anew, each to `off` below it, and only the entries from `i` to `n` change.
  pub record Maps (lev q b off i n from to : ℕ) (s : PageState P) (rank : ℕ → ℕ) (s' : PageState P)
      (rank' : ℕ → ℕ) : Type 0 where
    pub tree : IsTree s' rank'
    pub grows : (u l : ℕ) → rank u ≡ suc l → rank' u ≡ suc l
    pub others : (u l j : ℕ) → rank u ≡ suc l → u ≢ q → j < 512 → s'.tables u j ≡ s.tables u j
    pub entries : (j : ℕ) → j < 512 → (j < i) ⊎ (n ≤ j) → s'.tables q j ≡ s.tables q j
    pub mapped :
        (lin : ℕ)
        → b * (step lev * 512) ≤ lin
        → lin < b * (step lev * 512) + step lev * 512
        → walk s'.tables lev q lin
          ≡ (if within_range from to lin then some (lin - off) else walk s.tables lev q lin)

  pub Maps-nothing :
      (lev q b off i from to : ℕ) (s : PageState P) (rank : ℕ → ℕ)
      → IsTree s rank
      → to ≤ from
      → Maps lev q b off i i from to s rank s rank
  Maps-nothing lev q b off i from to s rank v empty = record {
    tree = v;
    grows = λ u l r. r;
    others = λ u l j r ne h. refl;
    entries = λ j h o. refl;
    mapped = λ lin h g. let out : within_range from to lin ≡ false = ground arith in rw out refl;
  }

  -- Two parts, one after the other, whose ranges make up a third.
  pub Maps-trans :
      (lev q b off i m n from mid mid' to from' to' : ℕ) (s s1 s2 : PageState P)
      (rank rank1 rank2 : ℕ → ℕ)
      → i ≤ m
      → m ≤ n
      → ((lin : ℕ)
          → (within_range from mid lin || within_range mid' to lin) ≡ within_range from' to' lin)
      → Maps lev q b off i m from mid s rank s1 rank1
      → Maps lev q b off m n mid' to s1 rank1 s2 rank2
      → Maps lev q b off i n from' to' s rank s2 rank2
  Maps-trans lev q b off i m n from mid mid' to from' to' s s1 s2 rank rank1 rank2 im mn both v w =
      record {
        tree = w.tree;
        grows = λ u l r. w.grows u l (v.grows u l r);
        others = λ u l j r ne h. w.others u l j (v.grows u l r) ne h ∙ v.others u l j r ne h;
        entries = λ j h o. w.entries j h (later j o) ∙ v.entries j h (earlier j o);
        mapped = λ lin h g.
            w.mapped lin h g
            ∙ joined (within_range from mid lin) (within_range mid' to lin)
                (within_range from' to' lin) (both lin) (some (lin - off)) (walk s.tables lev q lin)
                (walk s1.tables lev q lin) (v.mapped lin h g);
      }
    where
      later : (j : ℕ) → (j < i) ⊎ (n ≤ j) → (j < m) ⊎ (n ≤ j)
      later j (inl p) = inl (omega arith)
      later j (inr p) = inr p

      earlier : (j : ℕ) → (j < i) ⊎ (n ≤ j) → (j < i) ⊎ (m ≤ j)
      earlier j (inl p) = inl p
      earlier j (inr p) = inr (omega arith)

      joined :
          (first second both : Bool)
          → (first || second) ≡ both
          → (new old between : Option ℕ) → between ≡ (if first then new else old)
          → (if second then new else between) ≡ (if both then new else old)
      joined true true both e new old between g = rw (← e) refl
      joined true false both e new old between g = rw (← e) g
      joined false true both e new old between g = rw (← e) refl
      joined false false both e new old between g = rw (← e) g

  -- The same for a range that has the same addresses of the table, and for more entries.
  pub Maps-weaken :
      (lev q b off i n i' n' from to from' to' : ℕ) (s s' : PageState P) (rank rank' : ℕ → ℕ)
      → i' ≤ i
      → n ≤ n'
      → ((lin : ℕ)
          → b * (step lev * 512) ≤ lin
          → lin < b * (step lev * 512) + step lev * 512
          → within_range from to lin ≡ within_range from' to' lin)
      → Maps lev q b off i n from to s rank s' rank'
      → Maps lev q b off i' n' from' to' s rank s' rank'
  Maps-weaken lev q b off i n i' n' from to from' to' s s' rank rank' hi hn same v = record {
    tree = v.tree;
    grows = v.grows;
    others = v.others;
    entries = λ j h o. v.entries j h (outside j o);
    mapped = λ lin h g.
        v.mapped lin h g
        ∙ ap (λ (c : Bool). if c then some (lin - off) else walk s.tables lev q lin) (same lin h g);
  }
    where
      outside : (j : ℕ) → (j < i') ⊎ (n' ≤ j) → (j < i) ⊎ (n ≤ j)
      outside j (inl p) = inl (omega arith)
      outside j (inr p) = inr (omega arith)
