-- ===== src/Printf/Digits.antt =====
-- The digits that printf_impl.c writes: they are enough, they fit the buffer, and they read back.
use os_course_term.Common.{
  ℕ, zero, suc, ◌+◌, ◌-◌, ◌*◌, ◌/◌, ◌%◌, ◌^◌, ◌≤◌, ◌<◌, ◌≡◌, refl, sym, arith, Bool, true, false,
  ◌&&◌, not, ltb, ◌==◌, if◌then◌else◌, List, [], ◌∷◌, ◌++◌, length, some, Bool-cases, inl, inr,
  mul_mono_left,
}
use native.Mathlib.Nat.{div-add-mod, pow-suc, div-mul-le_self}
use os_course_term.Printf.{
  is_negative, magnitude, base_of, hex_of, digit_char, digits, buf_of, repeat, backwards, sign_if,
  pad_number, print_number,
}

-- What a digit stands for, and a number from its lowest digit on.
abbrev pub char_value : (hex c : ℕ) → ℕ
char_value hex c = if ltb c 58 then c - 48 else c - hex + 10

abbrev pub value_of : (hex base : ℕ) → List ℕ → ℕ
value_of hex base [] = 0
value_of hex base (c ∷ cs) = char_value hex c + value_of hex base cs * base

digit_char_lem : (hex d : ℕ) → 65 ≤ hex → char_value hex (digit_char hex d) ≡ d
digit_char_lem hex d h = ground arith

abbrev pub max : (x y : ℕ) → ℕ
max x y = if ltb x y then y else x

-- The loop ends after as many rounds as the bound has octal digits.
digits_value :
    (fuel hex base n : ℕ)
    → 65 ≤ hex
    → 8 ≤ base
    → n < 8 ^ fuel
    → (cs : List ℕ) × (digits fuel hex base n ≡ some cs)
      × (value_of hex base cs ≡ n)
      × (length cs ≤ fuel)
unfolding digits
digits_value zero hex base n h g lt =
    let none_left : n ≡ 0 = omega arith in ([], rw none_left refl, sym none_left, omega arith)
digits_value (suc fuel) hex base n h g lt = elim (Bool-cases (n == 0)) [
  | inl done ↦ ([], rw done refl, ground arith, omega arith)
  | inr more ↦
      let q : ℕ = n / base in
      let below = div-mul-le_self n base in
      let eight = mul_mono_left 8 base q g in
      let comm : q * base ≡ base * q = omega arith in
      let (cs, found, value, fits) =
        digits_value fuel hex base q h g (omega (arith, pow-suc 8 fuel)) in
      let here = digit_char_lem hex (n % base) h in
      (
        digit_char hex (n % base) ∷ cs,
        rw (more, found) refl,
        rw (here, value) (omega (arith, div-add-mod n base)),
        omega arith,
      )
]

-- The digits of any number of 64 bits fit the buffer, and stand for the number.
pub buf_of_value :
    (spec n : ℕ)
    → n < 2 ^ 64
    → (cs : List ℕ) × (buf_of spec n ≡ some cs)
      × (value_of (hex_of spec) (base_of spec) cs ≡ n)
      × (length cs ≤ 30)
unfolding buf_of
buf_of_value spec n h = elim (Bool-cases (n == 0)) [
  | inl none_left ↦ (48 ∷ [], rw none_left refl, ground arith, omega arith)
  | inr some_left ↦
      let (cs, found, value, fits) =
        digits_value 30 (hex_of spec) (base_of spec) n (ground arith) (ground arith)
          (omega arith) in
      (cs, rw (some_left, found) refl, value, fits)
]

length-repeat : (k c : ℕ) → length (repeat k c) ≡ k
unfolding repeat
length-repeat zero c = refl
length-repeat (suc k) c = omega (arith, length-repeat k c)

length-append : (xs ys : List ℕ) → length (xs ++ ys) ≡ length xs + length ys
length-append [] ys = omega arith
length-append (x ∷ xs) ys = omega (arith, length-append xs ys)

length-backwards : (cs out : List ℕ) → length (backwards cs out) ≡ length cs + length out
unfolding backwards
length-backwards [] out = omega arith
length-backwards (c ∷ cs) out = omega (arith, length-backwards cs (c ∷ out))

length-pad_number :
    (negative : Bool) (pad width : ℕ) (buf : List ℕ)
    → length (pad_number negative pad width buf)
      ≡ (width - (length buf + (if negative then 1 else 0)))
        + (length buf + (if negative then 1 else 0))
unfolding pad_number
length-pad_number negative pad width buf =
    let used : ℕ = length buf + (if negative then 1 else 0) in
    rw
      (
        length-append (sign_if (negative && pad == 48)) (
            repeat (width - used) pad
            ++ (sign_if (negative && not (pad == 48)) ++ backwards buf [])),
        length-append (repeat (width - used) pad)
            (sign_if (negative && not (pad == 48)) ++ backwards buf []),
        length-append (sign_if (negative && not (pad == 48))) (backwards buf []),
        length-repeat (width - used) pad,
        length-backwards buf [],
      )
      (signs negative (pad == 48))
  where
    signs :
        (negative zeros : Bool)
        → length (sign_if (negative && zeros))
            + ((width - (length buf + (if negative then 1 else 0)))
                + (length (sign_if (negative && not zeros)) + (length buf + 0)))
          ≡ (width - (length buf + (if negative then 1 else 0)))
            + (length buf + (if negative then 1 else 0))
    signs true true = omega arith
    signs true false = omega arith
    signs false true = omega arith
    signs false false = omega arith

-- The conversion of a number of 64 bits ends: with its digits `cs` and its sign it has at most 31
-- characters, and what is printed is exactly as long as they are or, if that is more, as the field.
pub print_number-Fills :
    (spec pad width n : ℕ)
    → n < 2 ^ 64
    → (cs : List ℕ) × (out : List ℕ) × (buf_of spec (magnitude spec n) ≡ some cs)
      × (print_number spec pad width n ≡ some out)
      × (length cs + (if is_negative spec n then 1 else 0) ≤ 31)
      × (length out ≡ max (length cs + (if is_negative spec n then 1 else 0)) width)
unfolding print_number
print_number-Fills spec pad width n h =
    let (cs, found, value, fits) = buf_of_value spec (magnitude spec n) (magnitude-lt spec n h) in
    let total = length-pad_number (is_negative spec n) pad width cs in
    let sign = sign-le (is_negative spec n) in
    (
      cs,
      pad_number (is_negative spec n) pad width cs,
      found,
      rw found refl,
      omega arith,
      ground (arith, total),
    )
  where
    sign-le : (b : Bool) → (if b then 1 else 0) ≤ 1
    sign-le true = omega arith
    sign-le false = omega arith

    magnitude-lt : (spec n : ℕ) → n < 2 ^ 64 → magnitude spec n < 2 ^ 64
    magnitude-lt spec n h = elim (Bool-cases (is_negative spec n)) [
      | inl neg ↦ rw neg (omega arith)
      | inr plain ↦ rw plain h
    ]
