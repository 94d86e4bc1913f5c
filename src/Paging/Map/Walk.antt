-- ===== src/Paging/Map/Walk.antt =====
-- How the processor translates an address by the tables, and when two memories of tables translate
-- it alike.
use os_course_term.Common.{
  ℕ, zero, suc, ◌+◌, ◌*◌, ◌/◌, ◌%◌, ◌^◌, ◌≤◌, ◌<◌, ◌≡◌, refl, arith, true, false, ◌==◌,
  if◌then◌else◌, Option, none, some, Bool-cases, inl, inr, land_bit, land64,
}
use os_course_term.Memory.{va}
use os_course_term.Paging.{pte_present, pte_large, pte_phys}
use os_course_term.Paging.Map.{flags_page, flags_large}

-- How many bytes an entry of a table of the level stands for.
abbrev pub step : ℕ → ℕ
step zero = 4096
step (suc lev) = step lev * 512

abbrev pub index : (lev lin : ℕ) → ℕ
index lev lin = lin / step lev % 512

-- A large entry is a page of 2 MiB on level 1, and there is none above.
pub walk : (ℕ → ℕ → ℕ) → (lev table lin : ℕ) → Option ℕ
walk tables zero table lin =
    let e = tables table (index 0 lin) in
    if pte_present e then some (pte_phys e + lin % 4096) else none
walk tables (suc lev) table lin =
    let e = tables table (index (suc lev) lin) in
    let below = walk tables lev (va (pte_phys e)) lin in
    let page = if lev == 0 then some (pte_phys e + lin % 2 ^ 21) else none in
    if pte_present e then (if pte_large e then page else below) else none

pub walk-absent :
    (tables : ℕ → ℕ → ℕ) (lev t lin : ℕ)
    → pte_present (tables t (index lev lin)) ≡ false
    → walk tables lev t lin ≡ none
unfolding walk
walk-absent tables zero t lin h = rw h refl
walk-absent tables (suc lev) t lin h = rw h refl

bit_0 : (a : ℕ) → land64 a 1 ≡ a % 2
bit_0 a = omega (arith, land_bit 64 0 a (omega arith))

bit_7 : (a : ℕ) → land64 a 128 ≡ a / 128 % 2 * 128
bit_7 a = omega (arith, land_bit 64 7 a (omega arith))

pub page-present : (x : ℕ) → x % 4096 ≡ 0 → pte_present (x + flags_page) ≡ true
page-present x h = rw (bit_0 (x + 3)) (ground arith)

pub page-not-large : (x : ℕ) → x % 4096 ≡ 0 → pte_large (x + flags_page) ≡ false
page-not-large x h = rw (bit_7 (x + 3)) (ground arith)

pub large-present : (x : ℕ) → x % 4096 ≡ 0 → pte_present (x + flags_large) ≡ true
large-present x h = rw (bit_0 (x + 131)) (ground arith)

pub large-large : (x : ℕ) → x % 4096 ≡ 0 → pte_large (x + flags_large) ≡ true
large-large x h = rw (bit_7 (x + 131)) (ground arith)

-- An entry for an aligned address holds the address.
pub phys_of_entry :
    (x flags : ℕ) → x % 4096 ≡ 0 → x < 2 ^ 48 → flags < 4096 → pte_phys (x + flags) ≡ x
phys_of_entry x flags h g lt = omega arith

pub walk-page :
    (tables : ℕ → ℕ → ℕ) (t lin x : ℕ)
    → x % 4096 ≡ 0
    → x < 2 ^ 48
    → tables t (index 0 lin) ≡ x + flags_page
    → walk tables 0 t lin ≡ some (x + lin % 4096)
unfolding walk
walk-page tables t lin x h g e = rw (e, page-present x h, phys_of_entry x 3 h g (omega arith)) refl

pub walk-large :
    (tables : ℕ → ℕ → ℕ) (t lin x : ℕ)
    → x % 4096 ≡ 0
    → x < 2 ^ 48
    → tables t (index 1 lin) ≡ x + flags_large
    → walk tables 1 t lin ≡ some (x + lin % 2 ^ 21)
unfolding walk
walk-large tables t lin x h g e =
    rw (e, large-present x h, large-large x h, phys_of_entry x 131 h g (omega arith)) refl

pub walk-table :
    (tables : ℕ → ℕ → ℕ) (lev t lin x : ℕ)
    → x % 4096 ≡ 0
    → x < 2 ^ 48
    → tables t (index (suc lev) lin) ≡ x + flags_page
    → walk tables (suc lev) t lin ≡ walk tables lev (va x) lin
unfolding walk
walk-table tables lev t lin x h g e =
    rw (e, page-present x h, page-not-large x h, phys_of_entry x 3 h g (omega arith)) refl

-- `rank` says which addresses are tables, and of which level: `suc lev` for level `lev`. The tables
-- of an entry that is no page are tables of the level below.
abbrev pub IsClosed : (rank : ℕ → ℕ) → (ℕ → ℕ → ℕ) → Type 0
IsClosed rank tables =
    (lev t i : ℕ)
    → rank t ≡ suc (suc lev)
    → i < 512
    → pte_present (tables t i) ≡ true
    → pte_large (tables t i) ≡ false
    → rank (va (pte_phys (tables t i))) ≡ suc lev

module _ (rank : ℕ → ℕ) (tables tables' : ℕ → ℕ → ℕ) (closed : IsClosed rank tables) where
  -- The tables from level `lev` down are the same.
  abbrev pub SameBelow : ℕ → Type 0
  SameBelow lev = (l t i : ℕ) → l ≤ lev → rank t ≡ suc l → i < 512 → tables' t i ≡ tables t i

  -- Two walks through the same entry go on alike.
  walk-entry :
      (lev t lin : ℕ)
      → rank t ≡ suc (suc lev)
      → tables' t (index (suc lev) lin) ≡ tables t (index (suc lev) lin)
      → ((u : ℕ) → rank u ≡ suc lev → walk tables' lev u lin ≡ walk tables lev u lin)
      → walk tables' (suc lev) t lin ≡ walk tables (suc lev) t lin
  unfolding walk
  walk-entry lev t lin r e below =
      let pte : ℕ = tables t (index (suc lev) lin) in
      elim (Bool-cases (pte_present pte)) [
        | inr absent ↦ rw (e, absent) refl
        | inl present ↦ elim (Bool-cases (pte_large pte)) [
          | inl large ↦ rw (e, present, large) refl
          | inr small ↦
              rw (e, present, small)
                (below (va (pte_phys pte))
                  (closed lev t (index (suc lev) lin) r (omega arith) present small))
        ]
      ]

  walk-page-same :
      (t lin : ℕ)
      → tables' t (index 0 lin) ≡ tables t (index 0 lin)
      → walk tables' 0 t lin ≡ walk tables 0 t lin
  unfolding walk
  walk-page-same t lin e = rw e refl

  walk-same :
      (lev t lin : ℕ)
      → rank t ≡ suc lev
      → SameBelow lev
      → walk tables' lev t lin ≡ walk tables lev t lin
  walk-same zero t lin r same =
      walk-page-same t lin (same 0 t (index 0 lin) (omega arith) r (omega arith))
  walk-same (suc lev) t lin r same =
      walk-entry lev t lin r (same (suc lev) t (index (suc lev) lin) (omega arith) r (omega arith))
        λ u ru. walk-same lev u lin ru λ l v i h rv hi. same l v i (omega arith) rv hi

  -- The translation of an address depends on one entry of its table, and on the tables below.
  pub walk-unchanged :
      (lev t lin : ℕ)
      → rank t ≡ suc lev
      → tables' t (index lev lin) ≡ tables t (index lev lin)
      → ((l u i : ℕ) → l < lev → rank u ≡ suc l → i < 512 → tables' u i ≡ tables u i)
      → walk tables' lev t lin ≡ walk tables lev t lin
  walk-unchanged zero t lin r e same = walk-page-same t lin e
  walk-unchanged (suc lev) t lin r e same =
      walk-entry lev t lin r e
        λ u ru. walk-same lev u lin ru λ l v i h rv hi. same l v i (omega arith) rv hi
