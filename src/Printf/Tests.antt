-- ===== src/Printf/Tests.antt =====
-- Some conversions, and the theorems at them.
use os_course_term.Common.{ℕ, ◌+◌, ◌^◌, ◌-◌, ◌≤◌, ◌≡◌, refl, arith, List, [], ◌∷◌, length, some}
use os_course_term.Printf.{
  digits, buf_of, repeat, backwards, pad_number, print_number, hex_of, base_of, magnitude,
}
use os_course_term.Printf.Digits.{max, value_of, buf_of_value, print_number-Fills}

-- `%06x` of 48879 is "00beef", and `%5d` of -42 is "  -42".
hex_padded : print_number 120 48 6 48879 ≡ some (48 ∷ 48 ∷ 98 ∷ 101 ∷ 101 ∷ 102 ∷ [])
unfolding print_number buf_of digits pad_number repeat backwards
hex_padded = refl

negative_padded : print_number 100 32 5 (2 ^ 64 - 42) ≡ some (32 ∷ 32 ∷ 45 ∷ 52 ∷ 50 ∷ [])
unfolding print_number buf_of digits pad_number repeat backwards
negative_padded = refl

buf_of_value_example :
    (cs : List ℕ) × (buf_of 111 511 ≡ some cs)
    × (value_of (hex_of 111) (base_of 111) cs ≡ 511)
    × (length cs ≤ 30)
buf_of_value_example = buf_of_value 111 511 (omega arith)

print_number-Fills_example :
    (cs : List ℕ) × (out : List ℕ) × (buf_of 100 (magnitude 100 (2 ^ 64 - 42)) ≡ some cs)
    × (print_number 100 32 5 (2 ^ 64 - 42) ≡ some out)
    × (length cs + 1 ≤ 31)
    × (length out ≡ max (length cs + 1) 5)
print_number-Fills_example = print_number-Fills 100 32 5 (2 ^ 64 - 42) (omega arith)
