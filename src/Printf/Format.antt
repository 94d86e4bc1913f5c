-- ===== src/Printf/Format.antt =====
-- The loop over the format of printf_impl.c, and `vprintf` and `vsnprintf` of printf.c, which give it
-- their `addchar`. A format and a string are the characters before the final 0, which they do not
-- have. What C does not define, as a missing argument or a `%` at the end of the format, is
-- `undefined`.
pub mod Shorter
use os_course_term.Common.{
  ℕ, zero, suc, ◌+◌, ◌-◌, ◌*◌, ◌/◌, ◌%◌, ◌^◌, Bool, true, false, ◌&&◌, ◌||◌, not, ltb, leb, ◌==◌,
  if◌then◌else◌, List, [], ◌∷◌, ◌++◌, length, Option, none, some, update,
}
use os_course_term.Printf.{is_signed, repeat, print_number}

-- An argument: the bits of a number or of a pointer, or a pointer to a string.
pub data Arg : Type 0 where
  word : ℕ → Arg
  text : List ℕ → Arg

-- `*va_arg(args, T*) = printed`, for a `T` of `bytes` bytes.
pub record Store : Type 0 where
  pub bytes : ℕ
  pub ptr : ℕ
  pub value : ℕ

-- The `%`, the flag and the width have been read.
pub record Field : Type 0 where
  pub left_pad : ℕ
  pub left_pad_specified : Bool
  pub width : ℕ
  pub width_specified : Bool
  pub rest : List ℕ
  pub args : List Arg

-- '0' is 48.
unfoldable pub read_flag : List ℕ → List Arg → Field
read_flag [] args = record {
  left_pad = 32;
  left_pad_specified = false;
  width = 0;
  width_specified = false;
  rest = [];
  args = args;
}
read_flag (c ∷ cs) args = record {
  left_pad = if c == 48 then 48 else 32;
  left_pad_specified = c == 48;
  width = 0;
  width_specified = false;
  rest = if c == 48 then cs else c ∷ cs;
  args = args;
}

abbrev pub is_digit : ℕ → Bool
is_digit c = leb 48 c && leb c 57

-- The loop over the digits of the width, which is an `int`: a width of 2^31 is not defined.
unfoldable pub read_digits : List ℕ → Field → Option Field
read_digits [] f = some (record f { rest = [] })
read_digits (c ∷ cs) f =
    let width = f.width * 10 + (c - 48) in
    let more = read_digits cs (record f { width = width; width_specified = true }) in
    if is_digit c
    then if ltb width (2 ^ 31) then more else none
    else some (record f { rest = c ∷ cs })

-- `va_arg(args, int)` as a width. All loops up to a negative width end at once, as for 0.
abbrev pub width_of : ℕ → ℕ
width_of w = if ltb (w % 2 ^ 32) (2 ^ 31) then w % 2 ^ 32 else 0

-- '*' is 42.
abbrev pub take_width : List ℕ → List Arg → Field → Option Field
take_width rest (word w ∷ args) f =
    some (record f { width = width_of w; width_specified = true; rest = rest; args = args })
take_width rest _ f = none

abbrev pub width_from : List ℕ → Field → Option Field
width_from (c ∷ cs) f = if c == 42 then take_width cs f.args f else read_digits (c ∷ cs) f
width_from [] f = read_digits [] f

unfoldable pub read_width : Field → Option Field
read_width f = width_from f.rest f

-- `while (format[i] == c) n++, i++`
unfoldable pub count_letter : (c n : ℕ) → List ℕ → ℕ × List ℕ
count_letter c n [] = (n, [])
count_letter c n (x ∷ xs) =
    let more = count_letter c (n + 1) xs in if x == c then more else (n, x ∷ xs)

pub record Modifiers : Type 0 where
  pub h : ℕ
  pub l : ℕ
  pub z : ℕ

-- 'h' is 104, 'l' 108, 'z' 122.
unfoldable pub read_modifiers : List ℕ → Modifiers × List ℕ
read_modifiers format =
    let (h, after_h) = count_letter 104 0 format in
    let (l, after_l) = count_letter 108 0 after_h in
    let (z, rest) = count_letter 122 0 after_l in (record { h = h; l = l; z = z }, rest)

-- A number of `bits` bits as a signed one, in 64 bits.
abbrev pub sign_extend : (bits n : ℕ) → ℕ
sign_extend bits n =
    let low = n % 2 ^ bits in if ltb low (2 ^ (bits - 1)) then low else low + (2 ^ 64 - 2 ^ bits)

-- How many bits of the argument count.
abbrev pub bits_of : Modifiers → ℕ
bits_of m =
    if leb 2 m.h
    then 8
    else if m.h == 1
    then 16
    else if leb 1 m.l
    then 64
    else if leb 1 m.z
    then 64
    else 32

-- `data`; 'p' is 112.
unfoldable pub data_of : Modifiers → (spec n : ℕ) → ℕ
data_of m spec n =
    if is_signed spec
    then sign_extend (bits_of m) n
    else if spec == 112
    then n % 2 ^ 64
    else n % 2 ^ bits_of m

-- What a directive does: the characters it adds, and the store of `%n`.
pub record Directive : Type 0 where
  pub chars : List ℕ
  pub stores : List Store
  pub rest : List ℕ
  pub args : List Arg

abbrev pub adds : Field → List ℕ → List Arg → List ℕ → Option Directive
adds f rest args chars = some (record { chars = chars; stores = []; rest = rest; args = args })

pub print_char : Field → List ℕ → List Arg → Option Directive
print_char f rest (word w ∷ args) =
    adds f rest args (repeat (f.width - 1) f.left_pad ++ (w % 256 ∷ []))
print_char f rest _ = none

unfoldable pub print_string : Field → List ℕ → List Arg → Option Directive
print_string f rest (text s ∷ args) = adds f rest args (repeat (f.width - length s) f.left_pad ++ s)
print_string f rest _ = none

pub print_percent : Field → List ℕ → List Arg → Option Directive
print_percent f rest args = adds f rest args (repeat (f.width - 1) f.left_pad ++ (37 ∷ []))

pub store_printed : Field → Modifiers → (printed : ℕ) → List ℕ → List Arg → Option Directive
store_printed f m printed rest (word w ∷ args) = some (record {
  chars = [];
  stores = record { bytes = bits_of m / 8; ptr = w; value = printed % 2 ^ bits_of m } ∷ [];
  rest = rest;
  args = args;
})
store_printed f m printed rest _ = none

abbrev pub adds_number : Field → List ℕ → List Arg → Option (List ℕ) → Option Directive
adds_number f rest args none = none
adds_number f rest args (some chars) = adds f rest args chars

-- A pointer has 16 digits unless the format says otherwise.
abbrev pub pointer_width : (spec : ℕ) → Field → ℕ
pointer_width spec f = if spec == 112 && not f.width_specified then 16 else f.width

abbrev pub pointer_pad : (spec : ℕ) → Field → ℕ
pointer_pad spec f = if spec == 112 && not f.left_pad_specified then 48 else f.left_pad

unfoldable pub print_data : Field → Modifiers → (spec : ℕ) → List ℕ → List Arg → Option Directive
print_data f m spec rest (word w ∷ args) =
    adds_number f rest args
      (print_number spec (pointer_pad spec f) (pointer_width spec f) (data_of m spec w))
print_data f m spec rest _ = none

-- 'd' 'i' 'u' 'o' 'x' 'X' 'p'
abbrev pub is_number : ℕ → Bool
is_number spec =
    is_signed spec || (spec == 117 || (spec == 111 || (spec == 120 || (spec == 88 || spec == 112))))

-- The switch: 'c' is 99, 's' 115, '%' 37, 'n' 110. Any other letter does nothing.
unfoldable pub convert : Field → Modifiers → (printed spec : ℕ) → List ℕ → Option Directive
convert f m printed spec rest =
    if spec == 99
    then print_char f rest f.args
    else if spec == 115
    then print_string f rest f.args
    else if spec == 37
    then print_percent f rest f.args
    else if spec == 110
    then store_printed f m printed rest f.args
    else if is_number spec
    then print_data f m spec rest f.args
    else adds f rest f.args []

-- A format that ends here has the 0 for its letter, and the loop goes on behind it.
abbrev pub convert_next : Field → (printed : ℕ) → Modifiers × List ℕ → Option Directive
convert_next f printed (m, []) = none
convert_next f printed (m, spec ∷ rest) = convert f m printed spec rest

abbrev pub after_width : (printed : ℕ) → Option Field → Option Directive
after_width printed none = none
after_width printed (some f) = convert_next f printed (read_modifiers f.rest)

-- One round of the loop, at character `c`; '%' is 37.
unfoldable pub directive : (printed c : ℕ) → List ℕ → List Arg → Option Directive
directive printed c cs args =
    if c == 37
    then after_width printed (read_width (read_flag cs args))
    else some (record { chars = c ∷ []; stores = []; rest = cs; args = args })
