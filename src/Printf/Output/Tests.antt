-- ===== src/Printf/Output/Tests.antt =====
-- Runs of `vprintf`, and the theorems at them.
use os_course_term.Common.{
  ℕ, ◌+◌, ◌≡◌, refl, arith, true, ltb, leb, Bool-cases, inl, inr, List, [], ◌∷◌, ◌++◌, length,
  Returns, ok,
}
use os_course_term.Threading.{spin_lock, spin_unlock}
use os_course_term.Printf.{print_number, buf_of, digits, pad_number, repeat, backwards}
use os_course_term.Printf.Format
use os_course_term.Printf.Format.{Arg, word, text, Store}
use os_course_term.Printf.Output.{
  Step, print_loop, Buffer, put_in_buffer, PrintfState, vprintf, BufferState, vsnprintf,
  putchar_counted, put_chars,
}
use os_course_term.Printf.Output.Chars.{finished, print_loop_enough}
use os_course_term.Printf.Output.Cut.{Cuts, vsnprintf-vprintf}

abbrev idle : PrintfState
idle = record {
  printf_lock = record { locked = 0; owner = 0 };
  current_thread = 1;
  interrupts = true;
  output = [];
  stores = [];
}

-- "%02x %s"
abbrev sample_format : List ℕ
sample_format = 37 ∷ 48 ∷ 50 ∷ 120 ∷ 32 ∷ 37 ∷ 115 ∷ []

abbrev sample_args : List Arg
sample_args = word 10 ∷ text (104 ∷ 105 ∷ []) ∷ []

-- "0a hi"
abbrev sample_output : PrintfState
sample_output = record idle { output = 48 ∷ 97 ∷ 32 ∷ 104 ∷ 105 ∷ [] }

sample_printed : vprintf sample_format sample_args idle ≡ ok 5 sample_output
unfolding vprintf print_loop put_chars putchar_counted spin_lock spin_unlock Format.directive
    Format.read_flag Format.read_width Format.read_digits Format.count_letter Format.read_modifiers
    Format.data_of Format.convert Format.print_data Format.print_string print_number buf_of digits
    pad_number repeat backwards
sample_printed = refl

abbrev sample_buffer : BufferState
sample_buffer = record { outbuf = λ i. 120; stores = [] }

vsnprintf-vprintf_example :
    (cs : List ℕ) × (sample_output.output ≡ [] ++ cs)
    × (5 ≡ length cs)
    × Returns (Cuts 4 cs sample_buffer) (vsnprintf 4 sample_format sample_args sample_buffer)
vsnprintf-vprintf_example =
    vsnprintf-vprintf 4 sample_format sample_args sample_buffer idle sample_output 5 (omega arith)
      refl sample_printed

-- The bytes before the final 0 of a buffer of 4.
abbrev sample_loop : (fuel : ℕ) → Step (Buffer × List Store)
sample_loop fuel =
    print_loop (put_in_buffer 4) (λ o. o.printed) fuel sample_format sample_args
      (record { outbuf = λ i. 120; printed = 0 }) []

finished-put_in_buffer : (c : ℕ) (o : Buffer) → finished (put_in_buffer 4 c o) ≡ true
unfolding put_in_buffer
finished-put_in_buffer c o = elim (Bool-cases (ltb o.printed 4)) [
  | inr out ↦ rw out refl
  | inl inside ↦ elim (Bool-cases (leb 4 (o.printed + 1 + 1))) [
    | inl full ↦ rw (inside, full) refl
    | inr room ↦ rw (inside, room) refl
  ]
]

print_loop_enough_example : (finished (sample_loop 7) ≡ true) × (sample_loop 7 ≡ sample_loop 20)
print_loop_enough_example =
    print_loop_enough (put_in_buffer 4) (λ o. o.printed) finished-put_in_buffer 7 20 sample_format
      sample_args (record { outbuf = λ i. 120; printed = 0 }) [] (omega arith) (omega arith)
