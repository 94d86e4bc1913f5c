-- ===== src/Printf/Format/Shorter.antt =====
-- A round of the loop over the format takes at least one character, so its length is fuel enough.
use os_course_term.Common.{
  ℕ, ◌+◌, ◌-◌, ◌*◌, ◌^◌, ◌≤◌, arith, true, ltb, ◌==◌, List, [], ◌∷◌, length, Option, none, some,
  Bool-cases, inl, inr,
}
use os_course_term.Printf.{print_number}
use os_course_term.Printf.Format
use os_course_term.Printf.Format.{
  Arg, word, text, Store, Directive, Field, Modifiers, directive, adds, adds_number, is_digit,
  convert_next, after_width, is_number,
}

-- What is left of the format has at most `n` characters.
abbrev LeavesField : ℕ → Option Field → Type 0
LeavesField n none = Unit {0}
LeavesField n (some f) = length f.rest ≤ n

abbrev pub Leaves : ℕ → Option Directive → Type 0
Leaves n none = Unit {0}
Leaves n (some d) = length d.rest ≤ n

read_digits-LeavesField :
    (n : ℕ) (cs : List ℕ) (f : Field) → length cs ≤ n → LeavesField n (Format.read_digits cs f)
unfolding Format.read_digits
read_digits-LeavesField n [] f h = omega arith
read_digits-LeavesField n (c ∷ cs) f h =
    let width : ℕ = f.width * 10 + (c - 48) in
    elim (Bool-cases (is_digit c)) [
      | inr no_digit ↦ rw no_digit h
      | inl digit ↦ elim (Bool-cases (ltb width (2 ^ 31))) [
        | inr large ↦ rw (digit, large) tt
        | inl small ↦
            rw (digit, small)
              (read_digits-LeavesField n cs (record f { width = width; width_specified = true })
                (omega arith))
      ]
    ]

count_letter_le : (c n : ℕ) (cs : List ℕ) → length (Format.count_letter c n cs).1 ≤ length cs
unfolding Format.count_letter
count_letter_le c n [] = omega arith
count_letter_le c n (x ∷ xs) = elim (Bool-cases (x == c)) [
  | inl same ↦ rw same (omega (arith, count_letter_le c (n + 1) xs))
  | inr other ↦ rw other (omega arith)
]

read_width-LeavesField :
    (n : ℕ) (f : Field) → length f.rest ≤ n → LeavesField n (Format.read_width f)
unfolding Format.read_width
read_width-LeavesField n f h = from f.rest f.args h
  where
    taken :
        (cs : List ℕ) (args : List Arg)
        → length cs ≤ n
        → LeavesField n (Format.take_width cs args (record f { args = args }))
    taken cs [] g = tt
    taken cs (word w ∷ args) g = g
    taken cs (text t ∷ args) g = tt

    from :
        (cs : List ℕ) (args : List Arg)
        → length cs ≤ n
        → LeavesField n (Format.width_from cs (record f { args = args }))
    from [] args g = read_digits-LeavesField n [] (record f { args = args }) g
    from (c ∷ cs) args g = elim (Bool-cases (c == 42)) [
      | inr digits ↦ rw digits (read_digits-LeavesField n (c ∷ cs) (record f { args = args }) g)
      | inl star ↦ rw star (taken cs args (omega arith))
    ]

modifiers_le : (cs : List ℕ) → length (Format.read_modifiers cs).1 ≤ length cs
unfolding Format.read_modifiers
modifiers_le cs =
    let after_h : List ℕ = (Format.count_letter 104 0 cs).1 in
    let after_l : List ℕ = (Format.count_letter 108 0 after_h).1 in
    omega (
      arith,
      count_letter_le 104 0 cs,
      count_letter_le 108 0 after_h,
      count_letter_le 122 0 after_l,
    )

module _ (f : Field) (n : ℕ) (rest : List ℕ) (h : length rest ≤ n) where
  print_char-Leaves : (args : List Arg) → Leaves n (Format.print_char f rest args)
  unfolding Format.print_char
  print_char-Leaves [] = tt
  print_char-Leaves (word w ∷ args) = h
  print_char-Leaves (text s ∷ args) = tt

  print_string-Leaves : (args : List Arg) → Leaves n (Format.print_string f rest args)
  unfolding Format.print_string
  print_string-Leaves [] = tt
  print_string-Leaves (word w ∷ args) = tt
  print_string-Leaves (text s ∷ args) = h

  store_printed-Leaves :
      (m : Modifiers) (printed : ℕ) (args : List Arg)
      → Leaves n (Format.store_printed f m printed rest args)
  unfolding Format.store_printed
  store_printed-Leaves m printed [] = tt
  store_printed-Leaves m printed (word w ∷ args) = h
  store_printed-Leaves m printed (text s ∷ args) = tt

  adds_number-Leaves :
      (args : List Arg) (chars : Option (List ℕ)) → Leaves n (adds_number f rest args chars)
  adds_number-Leaves args none = tt
  adds_number-Leaves args (some chars) = h

  print_data-Leaves :
      (m : Modifiers) (spec : ℕ) (args : List Arg) → Leaves n (Format.print_data f m spec rest args)
  unfolding Format.print_data
  print_data-Leaves m spec [] = tt
  print_data-Leaves m spec (word w ∷ args) = adds_number-Leaves args (
      print_number spec (Format.pointer_pad spec f) (Format.pointer_width spec f)
        (Format.data_of m spec w))
  print_data-Leaves m spec (text s ∷ args) = tt

  convert-Leaves :
      (m : Modifiers) (printed spec : ℕ) → Leaves n (Format.convert f m printed spec rest)
  unfolding Format.convert Format.print_percent
  convert-Leaves m printed spec = elim (Bool-cases (spec == 99)) [
    | inl a ↦ rw a (print_char-Leaves f.args)
    | inr a ↦ elim (Bool-cases (spec == 115)) [
      | inl b ↦ rw (a, b) (print_string-Leaves f.args)
      | inr b ↦ elim (Bool-cases (spec == 37)) [
        | inl d ↦ rw (a, b, d) h
        | inr d ↦ elim (Bool-cases (spec == 110)) [
          | inl e ↦ rw (a, b, d, e) (store_printed-Leaves m printed f.args)
          | inr e ↦ elim (Bool-cases (is_number spec)) [
            | inl k ↦ rw (a, b, d, e, k) (print_data-Leaves m spec f.args)
            | inr k ↦ rw (a, b, d, e, k) h
          ]
        ]
      ]
    ]
  ]

convert_next-Leaves :
    (f : Field) (printed n : ℕ) (m : Modifiers) (rest : List ℕ)
    → length rest ≤ n
    → Leaves n (convert_next f printed (m, rest))
convert_next-Leaves f printed n m [] h = tt
convert_next-Leaves f printed n m (spec ∷ rest) h =
    convert-Leaves f n rest (omega arith) m printed spec

after_width-Leaves :
    (printed n : ℕ) (f : Option Field) → LeavesField n f → Leaves n (after_width printed f)
after_width-Leaves printed n none h = tt
after_width-Leaves printed n (some f) h =
    convert_next-Leaves f printed n (Format.read_modifiers f.rest).0
      (Format.read_modifiers f.rest).1 (omega (arith, modifiers_le f.rest))

flag_le : (cs : List ℕ) (args : List Arg) → length (Format.read_flag cs args).rest ≤ length cs
unfolding Format.read_flag
flag_le [] args = omega arith
flag_le (x ∷ xs) args = elim (Bool-cases (x == 48)) [
  | inl flag ↦ rw flag (omega arith)
  | inr other ↦ rw other (omega arith)
]

pub directive-Leaves :
    (printed c : ℕ) (cs : List ℕ) (args : List Arg)
    → Leaves (length cs) (directive printed c cs args)
unfolding directive
directive-Leaves printed c cs args = elim (Bool-cases (c == 37)) [
  | inr plain ↦ rw plain (omega arith)
  | inl percent ↦ rw percent (
      after_width-Leaves printed (length cs) (Format.read_width (Format.read_flag cs args))
        (read_width-LeavesField (length cs) (Format.read_flag cs args) (flag_le cs args)))
]
