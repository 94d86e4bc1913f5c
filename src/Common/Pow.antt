-- ===== src/Common/Pow.antt =====
-- Powers of two, which are the sizes of levels and blocks.
use Prim.Native.Nat.{ℕ, zero, suc, ◌+◌, ◌-◌, ◌*◌, ◌^◌, ◌≤◌}
use mathlib.Core.Path.{◌≡◌, ap}
use native.Mathlib.Nat.{pow-suc}
use native.Mathlib.Omega.{arith}

pub pow2-suc : (n : ℕ) → 2 ^ suc n ≡ 2 * 2 ^ n
pow2-suc n = omega (arith, pow-suc 2 n)

pub pow2_pos : (n : ℕ) → 1 ≤ 2 ^ n
pow2_pos zero = omega arith
pow2_pos (suc n) = omega (arith, pow2-suc n, pow2_pos n)

pub pow2_mono : (m n : ℕ) → m ≤ n → 2 ^ m ≤ 2 ^ n
pow2_mono zero n h = pow2_pos n
pow2_mono (suc m) zero h = absurd (omega arith)
pow2_mono (suc m) (suc n) h = omega (arith, pow2-suc n, pow2-suc m, pow2_mono m n (omega arith))

pub pow2_add : (m n : ℕ) → 2 ^ (m + n) ≡ 2 ^ m * 2 ^ n
pow2_add zero n = let e : 0 + n ≡ n = omega arith in rw e (omega arith)
pow2_add (suc m) n =
    let e : suc m + n ≡ suc (m + n) = omega arith in
    let doubled : 2 ^ suc m * 2 ^ n ≡ 2 * (2 ^ m * 2 ^ n) = rw (pow2-suc m) (omega arith) in
    rw e (omega (arith, pow2-suc (m + n), pow2_add m n, doubled))

pub mul_mono_left : (x m y : ℕ) → x ≤ m → x * y ≤ m * y
mul_mono_left x m y h = grind arith

pub sub_mul_split : (n l k : ℕ) → l ≤ n → (n - l) * k + l * k ≡ n * k
sub_mul_split n l k h =
    let e : (n - l) + l ≡ n = omega arith in omega (arith, ap (λ (t : ℕ). t * k) e)
