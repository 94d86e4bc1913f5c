-- ===== src/Common/Bitwise.antt =====
-- The single bits of a word, `|`, and what the bitwise operations do to them.
use Prim.Native.Nat.{ℕ, zero, suc, ◌+◌, ◌-◌, ◌*◌, ◌/◌, ◌%◌, ◌^◌, ◌≤◌, ◌<◌}
use mathlib.Core.Path.{◌≡◌, sym, ap, ◌∙◌}
use native.Mathlib.Omega.{arith}
use mathlib.Core.Logic.{◌⊎◌, inl, inr}
use native.Mathlib.Nat.{div-add-mod'}
use os_course_term.Common.Tests.{◌==◌, if◌then◌else◌}
use os_course_term.Common.Pow.{pow2-suc}
use os_course_term.Common.Bits.{land}

-- Bit `j` of a number, as 0 or 1.
abbrev pub bit : (j a : ℕ) → ℕ
bit zero a = a % 2
bit (suc j) a = bit j (a / 2)

unfoldable pub lor : (bits a b : ℕ) → ℕ
lor zero a b = 0
lor (suc bits) a b = (a % 2 + b % 2 - (a % 2) * (b % 2)) + 2 * lor bits (a / 2) (b / 2)

pub bit_le : (j a : ℕ) → bit j a ≤ 1
bit_le zero a = omega arith
bit_le (suc j) a = bit_le j (a / 2)

parity : (n : ℕ) → (n % 2 ≡ 0) ⊎ (n % 2 ≡ 1)
parity n = ground arith

low_le : (a b : ℕ) → (a % 2) * (b % 2) ≤ 1
low_le a b = elim (parity a) [ inl e ↦ rw e (omega arith) | inr e ↦ rw e (omega arith) ]

high_le : (a b : ℕ) → a % 2 + b % 2 - (a % 2) * (b % 2) ≤ 1
high_le a b = elim (parity a) [ inl e ↦ rw e (omega arith) | inr e ↦ rw e (omega arith) ]

pub bit-land : (bits j a b : ℕ) → j < bits → bit j (land bits a b) ≡ bit j a * bit j b
unfolding land
bit-land zero j a b h = absurd (omega arith)
bit-land (suc bits) zero a b h = omega (arith, low_le a b)
bit-land (suc bits) (suc j) a b h =
    let half : land (suc bits) a b / 2 ≡ land bits (a / 2) (b / 2) = omega (arith, low_le a b) in
    rw half (bit-land bits j (a / 2) (b / 2) (omega arith))

pub bit-lor :
    (bits j a b : ℕ) → j < bits → bit j (lor bits a b) ≡ bit j a + bit j b - bit j a * bit j b
unfolding lor
bit-lor zero j a b h = absurd (omega arith)
bit-lor (suc bits) zero a b h = omega (arith, high_le a b)
bit-lor (suc bits) (suc j) a b h =
    let half : lor (suc bits) a b / 2 ≡ lor bits (a / 2) (b / 2) = omega (arith, high_le a b) in
    rw half (bit-lor bits j (a / 2) (b / 2) (omega arith))

bit_zero : (j : ℕ) → bit j 0 ≡ 0
bit_zero zero = omega arith
bit_zero (suc j) = bit_zero j

-- The only bit of a power of two.
pub bit-pow2 : (j k : ℕ) → bit j (2 ^ k) ≡ (if j == k then 1 else 0)
bit-pow2 zero zero = omega arith
bit-pow2 zero (suc k) = ground (arith, pow2-suc k)
bit-pow2 (suc j) zero = ground (arith, bit_zero j)
bit-pow2 (suc j) (suc k) =
    let half : 2 ^ suc k / 2 ≡ 2 ^ k = omega (arith, pow2-suc k) in
    rw half (ground (arith, bit-pow2 j k))

-- The bits of `~x`.
pub bit_flip : (bits j x : ℕ) → j < bits → x < 2 ^ bits → bit j (2 ^ bits - 1 - x) ≡ 1 - bit j x
bit_flip zero j x h lt = absurd (omega arith)
bit_flip (suc bits) zero x h lt = omega (arith, pow2-suc bits)
bit_flip (suc bits) (suc j) x h lt =
    let half : (2 ^ suc bits - 1 - x) / 2 ≡ 2 ^ bits - 1 - x / 2 = omega (arith, pow2-suc bits) in
    rw half (bit_flip bits j (x / 2) (omega arith) (omega (arith, pow2-suc bits)))

doubled : (n q : ℕ) → q * 2 ^ suc n ≡ 2 * (q * 2 ^ n)
doubled n q = rw (pow2-suc n) (grind arith)

bit_add : (bits j q r : ℕ) → j < bits → bit j (q * 2 ^ bits + r) ≡ bit j r
bit_add zero j q r h = absurd (omega arith)
bit_add (suc bits) zero q r h = omega (arith, doubled bits q)
bit_add (suc bits) (suc j) q r h =
    let half : (q * 2 ^ suc bits + r) / 2 ≡ q * 2 ^ bits + r / 2 = omega (arith, doubled bits q) in
    rw half (bit_add bits j q (r / 2) (omega arith))

-- The bits that a cast to a shorter word keeps.
pub bit_cast : (bits j a : ℕ) → j < bits → bit j (a % 2 ^ bits) ≡ bit j a
bit_cast bits j a h =
    sym (bit_add bits j (a / 2 ^ bits) (a % 2 ^ bits) h)
    ∙ ap (bit j) (omega (arith, div-add-mod' a (2 ^ bits)))
