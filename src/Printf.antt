-- ===== src/Printf.antt =====
-- The conversion of numbers in printf_impl.c, from the data of 64 bits on. A character is its code,
-- and `addchar` appends to the output.
pub mod Digits
pub mod Format
pub mod Output
mod Tests
use os_course_term.Common.{
  ℕ, zero, suc, ◌+◌, ◌-◌, ◌*◌, ◌/◌, ◌%◌, ◌^◌, Bool, true, false, ◌&&◌, ◌||◌, not, ltb, leb, ◌==◌,
  if◌then◌else◌, List, [], ◌∷◌, ◌++◌, length, Option, none, some,
}

-- 'd' is 100, 'i' 105, 'o' 111, 'p' 112, 'x' 120, 'X' 88.
abbrev pub is_signed : ℕ → Bool
is_signed spec = spec == 100 || spec == 105

abbrev pub is_negative : (spec n : ℕ) → Bool
is_negative spec n = is_signed spec && leb (2 ^ 63) n

-- `data = -data` on 64 bits.
abbrev pub magnitude : (spec n : ℕ) → ℕ
magnitude spec n = if is_negative spec n then (2 ^ 64 - n) % 2 ^ 64 else n

abbrev pub base_of : ℕ → ℕ
base_of spec =
    if spec == 120 || spec == 88 || spec == 112 then 16 else if spec == 111 then 8 else 10

-- `base_hex`: 'A' or 'a'.
abbrev pub hex_of : ℕ → ℕ
hex_of spec = if spec == 88 then 65 else 97

abbrev pub digit_char : (hex digit : ℕ) → ℕ
digit_char hex digit = if leb 10 digit then hex + digit - 10 else 48 + digit

-- The loop that fills `buf`, the lowest digit first; `none` is a loop that has not ended.
pub digits : (fuel hex base n : ℕ) → Option (List ℕ)
digits zero hex base n = if n == 0 then some [] else none
digits (suc fuel) hex base n =
    let rest = digits fuel hex base (n / base) in
    if n == 0
    then some []
    else elim rest [ none ↦ none | some cs ↦ some (digit_char hex (n % base) ∷ cs) ]

-- `buf` has room for 30 characters.
pub buf_of : (spec n : ℕ) → Option (List ℕ)
buf_of spec n = if n == 0 then some (48 ∷ []) else digits 30 (hex_of spec) (base_of spec) n

pub repeat : ℕ → ℕ → List ℕ
repeat zero c = []
repeat (suc k) c = c ∷ repeat k c

pub backwards : List ℕ → List ℕ → List ℕ
backwards [] out = out
backwards (c ∷ cs) out = backwards cs (c ∷ out)

-- '-' is 45, '0' 48.
abbrev pub sign_if : Bool → List ℕ
sign_if b = if b then 45 ∷ [] else []

-- The loops that add the sign, the padding and the digits.
pub pad_number : (negative : Bool) → (left_pad width : ℕ) → List ℕ → List ℕ
pad_number negative left_pad width buf =
    let front = sign_if (negative && left_pad == 48) in
    let back = sign_if (negative && not (left_pad == 48)) in
    let used = length buf + (if negative then 1 else 0) in
    front ++ (repeat (width - used) left_pad ++ (back ++ backwards buf []))

abbrev pub pad_result : (List ℕ → List ℕ) → Option (List ℕ) → Option (List ℕ)
pad_result pad none = none
pad_result pad (some buf) = some (pad buf)

pub print_number : (spec left_pad width n : ℕ) → Option (List ℕ)
print_number spec left_pad width n =
    pad_result (pad_number (is_negative spec n) left_pad width) (buf_of spec (magnitude spec n))
