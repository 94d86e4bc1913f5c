-- ===== src/Paging/Map/Range.antt =====
-- The entries that a range meets, as `map_pages` computes them.
use os_course_term.Common.{
  ℕ, suc, ◌+◌, ◌-◌, ◌*◌, ◌/◌, ◌^◌, ◌≤◌, ◌<◌, ◌≡◌, ap, ◌∙◌, ◌⊎◌, inl, inr, arith, mul_mono_left,
  dec_lt,
}
use native.Mathlib.Nat.{div-mul-le_self, lt-div-mul-add, div-lt_iff_lt-mul, mul-div_cancel}
use os_course_term.Paging.Map.Walk.{step}

-- The entries from `i` to `n` of a table are those with an address from `low` to `high`, counted from
-- the beginning of the table.
pub record Spans (size low high i n : ℕ) : Type 0 where
  pub some : i < n
  pub inside : n ≤ 512
  pub begins : i * size ≤ low
  pub first : low < i * size + size
  pub last : n * size < high + size
  pub ends : high ≤ n * size

pub Spans-range :
    (size low high : ℕ)
    → 1 ≤ size
    → low < high
    → high ≤ size * 512
    → Spans size low high (low / size) ((high + size - 1) / size)
Spans-range size low high h lt le =
    let i : ℕ = low / size in
    let padded : ℕ = high + size - 1 in
    let n : ℕ = padded / size in
    let a = div-mul-le_self low size in
    let b = lt-div-mul-add {a = low} {b = size} h in
    let c = div-mul-le_self padded size in
    let d = lt-div-mul-add {a = padded} {b = size} h in
    let top : 513 * size ≡ size * 512 + size = omega arith in
    let below : n < 513 = (div-lt_iff_lt-mul {k = size} h).1 (omega arith) in
    record {
      some = elim (dec_lt i n) [
        | yes p ↦ p
        | no np ↦ absurd (omega (arith, mul_mono_left n i size (omega arith)))
      ];
      inside = omega arith;
      begins = a;
      first = b;
      last = omega arith;
      ends = omega arith;
    }

module _ {size low high i n : ℕ} (v : Spans size low high i n) (j : ℕ) where
  pub Spans-met : i ≤ j → j < n → (low < j * size + size) × (j * size < high)
  Spans-met h g =
      let next : suc j * size ≡ j * size + size = grind arith in
      (
        omega (arith, v.first, mul_mono_left i j size h),
        omega (arith, v.last, mul_mono_left (suc j) n size g),
      )

  pub Spans-apart : (j * size + size ≤ low) ⊎ (high ≤ j * size) → (j < i) ⊎ (n ≤ j)
  Spans-apart (inl p) = elim (dec_lt j i) [
    | yes q ↦ inl q
    | no nq ↦ absurd (omega (arith, v.first, mul_mono_left i j size (omega arith)))
  ]
  Spans-apart (inr p) = elim (dec_lt j n) [
    | no nq ↦ inr (omega arith)
    | yes q ↦
        let next : suc j * size ≡ j * size + size = grind arith in
        absurd (omega (arith, v.last, mul_mono_left (suc j) n size q))
  ]

-- The table of entry `j`: where it begins, what its entries stand for, and that it ends in time.
pub child-bounds :
    (lev l b j start : ℕ)
    → lev ≡ suc l
    → j < 512
    → start ≡ b * (step lev * 512) + j * step lev
    → b * (step lev * 512) + step lev * 512 ≤ 2 ^ 48
    → (start ≡ (b * 512 + j) * (step l * 512))
      × (step lev / 512 ≡ step l)
      × ((b * 512 + j) * (step l * 512) + step l * 512 ≤ 2 ^ 48)
child-bounds lev l b j start e h begins fits =
    let size : step lev ≡ step l * 512 = ap step e in
    let half : step lev / 512 ≡ step l = rw size (mul-div_cancel (step l) (omega arith)) in
    let child : start ≡ (b * 512 + j) * (step l * 512) =
      (rw size at begins) ∙ spread b j (step l) in
    (child, half, omega (arith, mul_mono_left (suc j) 512 (step lev) h, suc_mul j (step lev)))
  where
    spread :
        (b j size : ℕ) → b * (size * 512 * 512) + j * (size * 512) ≡ (b * 512 + j) * (size * 512)
    spread b j size = grind arith

    suc_mul : (j size : ℕ) → suc j * size ≡ j * size + size
    suc_mul j size = grind arith
