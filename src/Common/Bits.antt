-- ===== src/Common/Bits.antt =====
-- `&` on 64-bit words, bit by bit, and the test for powers of two that is made with it.
use Prim.Native.Nat.{ℕ, zero, suc, ◌+◌, ◌-◌, ◌*◌, ◌/◌, ◌%◌, ◌^◌, ◌≤◌, ◌<◌}
use mathlib.Core.Path.{◌≡◌, sym, subst}
use mathlib.Core.Logic.{◌⊎◌, inl, inr}
use native.Mathlib.Omega.{arith}
use native.Mathlib.Nat.{div-div-eq-div-mul}
use os_course_term.Common.Pow.{pow2-suc}

unfoldable pub land : (bits a b : ℕ) → ℕ
land zero a b = 0
land (suc bits) a b = (a % 2) * (b % 2) + 2 * land bits (a / 2) (b / 2)

abbrev pub land64 : ℕ → ℕ → ℕ
land64 = land 64

land_self : (bits a : ℕ) → a < 2 ^ bits → land bits a a ≡ a
unfolding land
land_self zero a h = omega arith
land_self (suc bits) a h =
    let ih = land_self bits (a / 2) (omega (arith, pow2-suc bits)) in
    elim (parity a) [ inl e ↦ rw (e, ih) (omega arith) | inr e ↦ rw (e, ih) (omega arith) ]
  where
    parity : (n : ℕ) → (n % 2 ≡ 0) ⊎ (n % 2 ≡ 1)
    parity n = ground arith

-- A number without a bit in common with its predecessor is a power of two.
pub land-pow2 :
    (bits a : ℕ) → 1 ≤ a → a < 2 ^ bits → land bits a (a - 1) ≡ 0 → (k : ℕ) × (a ≡ 2 ^ k)
unfolding land
land-pow2 zero a h g e = absurd (omega arith)
land-pow2 (suc bits) a h g e = elim (parity a) [
  | inl even ↦
      let half : (a - 1) / 2 ≡ a / 2 - 1 = omega (arith, even) in
      let e' : land bits (a / 2) ((a - 1) / 2) ≡ 0 = omega arith in
      let (k, p) =
        land-pow2 bits (a / 2) (omega arith) (omega (arith, pow2-suc bits)) (rw (sym half) e') in
      (suc k, omega (arith, pow2-suc k))
  | inr odd ↦
      let half : (a - 1) / 2 ≡ a / 2 = omega (arith, odd) in
      let e' : land bits (a / 2) ((a - 1) / 2) ≡ 0 = omega arith in
      let self = land_self bits (a / 2) (omega (arith, pow2-suc bits)) in
      (0, omega (arith, subst (λ (x : ℕ). land bits (a / 2) x ≡ 0) half e'))
]
  where
    parity : (n : ℕ) → (n % 2 ≡ 0) ⊎ (n % 2 ≡ 1)
    parity n = ground arith

land_zero : (bits a : ℕ) → land bits a 0 ≡ 0
unfolding land
land_zero zero a = omega arith
land_zero (suc bits) a = omega (arith, land_zero bits (a / 2))

-- `&` with a single bit.
pub land_bit : (bits k a : ℕ) → k < bits → land bits a (2 ^ k) ≡ a / 2 ^ k % 2 * 2 ^ k
unfolding land
land_bit zero k a h = absurd (omega arith)
land_bit (suc bits) zero a h = omega (arith, land_zero bits (a / 2))
land_bit (suc bits) (suc k) a h =
    let double = pow2-suc k in
    let even : 2 ^ suc k % 2 ≡ 0 = omega arith in
    let half : 2 ^ suc k / 2 ≡ 2 ^ k = omega arith in
    let shifted : a / 2 ^ suc k ≡ a / 2 / 2 ^ k =
      rw double (sym (div-div-eq-div-mul a 2 (2 ^ k))) in
    let rest = land_bit bits k (a / 2) (omega arith) in
    rw (even, half, rest, shifted, double) (grind arith)

pub land_zero_left : (bits b : ℕ) → land bits 0 b ≡ 0
unfolding land
land_zero_left zero b = omega arith
land_zero_left (suc bits) b = omega (arith, land_zero_left bits (b / 2))
