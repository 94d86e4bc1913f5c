-- ===== src/Printf/Output/Chars.antt =====
-- All that a call prints, as one list: what the loop of `vprintf` gives to `putchar`.
use os_course_term.Common.{
  ℕ, zero, suc, ◌+◌, ◌≤◌, ◌≡◌, refl, ◌∙◌, arith, Bool, true, false, List, [], ◌∷◌, ◌++◌, length,
  Option, none, some,
}
use mathlib.Core.List.{append-nil, append_assoc}
use os_course_term.Printf.Format.{Arg, Store, Directive, directive}
use os_course_term.Printf.Format.Shorter.{Leaves, directive-Leaves}
use os_course_term.Printf.Output.{
  Step, next, stop, undefined, unfinished, run_directive, and_put, go_on, put_chars, print_loop,
  Console, putchar_counted,
}

-- The loop is not still running.
abbrev pub finished : {S : Type 0} → Step S → Bool
finished (next o) = true
finished (stop o) = true
finished undefined = true
finished unfinished = false

module _ {O : Type 0} (addchar : ℕ → O → Step O) (count : O → ℕ) where
  -- Two loops that agree on the rests of up to `n` characters agree after a directive that leaves one.
  abbrev pub Loop : Type 0
  Loop = List ℕ → List Arg → O → List Store → Step (O × List Store)

  go_on_same :
      (r r' : O → List Store → Step (O × List Store)) (before after : List Store) (o : Step O)
      → ((o' : O) (s : List Store) → r o' s ≡ r' o' s)
      → go_on addchar count r before after o ≡ go_on addchar count r' before after o
  go_on_same r r' before after (next o') same = same o' after
  go_on_same r r' before after (stop o') same = refl
  go_on_same r r' before after undefined same = refl
  go_on_same r r' before after unfinished same = refl

  run_directive_same :
      (n : ℕ) (r r' : Loop) (d : Option Directive) (o : O) (stores : List Store)
      → Leaves n d
      → ((rest : List ℕ) (args : List Arg) (o' : O) (s : List Store)
          → length rest ≤ n
          → r rest args o' s ≡ r' rest args o' s)
      → run_directive addchar count r d o stores ≡ run_directive addchar count r' d o stores
  run_directive_same n r r' none o stores h same = refl
  run_directive_same n r r' (some d) o stores h same =
      go_on_same (r d.rest d.args) (r' d.rest d.args) stores (stores ++ d.stores)
        (put_chars addchar count d.chars o) λ o' s. same d.rest d.args o' s h

  print_loop_same :
      (fuel more : ℕ) (format : List ℕ) (args : List Arg) (o : O) (stores : List Store)
      → length format ≤ fuel
      → length format ≤ more
      → print_loop addchar count fuel format args o stores
        ≡ print_loop addchar count more format args o stores
  unfolding print_loop
  print_loop_same fuel more [] args o stores h g = refl
  print_loop_same zero more (c ∷ cs) args o stores h g = absurd (omega arith)
  print_loop_same (suc fuel) zero (c ∷ cs) args o stores h g = absurd (omega arith)
  print_loop_same (suc fuel) (suc more) (c ∷ cs) args o stores h g =
      run_directive_same (length cs) (print_loop addchar count fuel) (print_loop addchar count more)
        (directive (count o) c cs args) o stores (directive-Leaves (count o) c cs args)
        λ rest given o' s l. print_loop_same fuel more rest given o' s (omega arith) (omega arith)

  finished-and_put :
      (r : Step O) (k : O → Step O)
      → finished r ≡ true
      → ((o : O) → finished (k o) ≡ true)
      → finished (and_put r k) ≡ true
  finished-and_put (next o) k h g = g o
  finished-and_put (stop o) k h g = refl
  finished-and_put undefined k h g = refl
  finished-and_put unfinished k h g = h

  finished-go_on :
      (rest : O → List Store → Step (O × List Store)) (before after : List Store) (r : Step O)
      → finished r ≡ true
      → ((o : O) → finished (rest o after) ≡ true)
      → finished (go_on addchar count rest before after r) ≡ true
  finished-go_on rest before after (next o) h g = g o
  finished-go_on rest before after (stop o) h g = refl
  finished-go_on rest before after undefined h g = refl
  finished-go_on rest before after unfinished h g = h

  module _ (one : (c : ℕ) (o : O) → finished (addchar c o) ≡ true) where
    finished-put_chars : (cs : List ℕ) (o : O) → finished (put_chars addchar count cs o) ≡ true
    unfolding put_chars
    finished-put_chars [] o = refl
    finished-put_chars (c ∷ cs) o =
        finished-and_put (addchar c o) (put_chars addchar count cs) (one c o)
          (finished-put_chars cs)

    finished-run_directive :
        (n : ℕ) (loop : Loop) (d : Option Directive) (o : O) (stores : List Store)
        → Leaves n d
        → ((rest : List ℕ) (args : List Arg) (o' : O) (s : List Store)
            → length rest ≤ n
            → finished (loop rest args o' s) ≡ true)
        → finished (run_directive addchar count loop d o stores) ≡ true
    finished-run_directive n loop none o stores h g = refl
    finished-run_directive n loop (some d) o stores h g =
        finished-go_on (loop d.rest d.args) stores (stores ++ d.stores)
          (put_chars addchar count d.chars o) (finished-put_chars d.chars o)
          λ o'. g d.rest d.args o' (stores ++ d.stores) h

    finished-print_loop :
        (fuel : ℕ) (format : List ℕ) (args : List Arg) (o : O) (stores : List Store)
        → length format ≤ fuel
        → finished (print_loop addchar count fuel format args o stores) ≡ true
    unfolding print_loop
    finished-print_loop fuel [] args o stores h = refl
    finished-print_loop zero (c ∷ cs) args o stores h = absurd (omega arith)
    finished-print_loop (suc fuel) (c ∷ cs) args o stores h =
        finished-run_directive (length cs) (print_loop addchar count fuel)
          (directive (count o) c cs args) o stores (directive-Leaves (count o) c cs args)
          λ rest given o' s l. finished-print_loop fuel rest given o' s (omega arith)

    -- With an `addchar` that always ends, and fuel for one round for each character of the format,
    -- the loop is never still running when the fuel is used up, and any more fuel makes it end alike.
    pub print_loop_enough :
        (fuel more : ℕ) (format : List ℕ) (args : List Arg) (o : O) (stores : List Store)
        → length format ≤ fuel
        → length format ≤ more
        → (finished (print_loop addchar count fuel format args o stores) ≡ true)
          × (print_loop addchar count fuel format args o stores
              ≡ print_loop addchar count more format args o stores)
    print_loop_enough fuel more format args o stores h g = (
      finished-print_loop fuel format args o stores h,
      print_loop_same fuel more format args o stores h g,
    )

abbrev pub prepend : List ℕ → Option (List ℕ) → Option (List ℕ)
prepend cs none = none
prepend cs (some ds) = some (cs ++ ds)

abbrev pub chars_after :
    (rest : List ℕ → List Arg → ℕ → Option (List ℕ))
    → (printed : ℕ) → Option Directive
    → Option (List ℕ)
chars_after rest printed none = none
chars_after rest printed (some d) = prepend d.chars (rest d.rest d.args (printed + length d.chars))

-- The characters of the whole format, of which `printed` came before.
unfoldable pub chars_of : (fuel : ℕ) → List ℕ → List Arg → (printed : ℕ) → Option (List ℕ)
chars_of fuel [] args printed = some []
chars_of zero (c ∷ cs) args printed = none
chars_of (suc fuel) (c ∷ cs) args printed =
    chars_after (chars_of fuel) printed (directive printed c cs args)

pub length_append : (a b : List ℕ) → length (a ++ b) ≡ length a + length b
length_append [] b = omega arith
length_append (x ∷ a) b = omega (arith, length_append a b)

-- The console once the characters are put out.
abbrev pub put_out : List ℕ → Console → Console
put_out cs o = record { chars = o.chars ++ cs; printed = o.printed + length cs }

put_chars-putchar :
    (cs : List ℕ) (o : Console)
    → put_chars putchar_counted (λ o. o.printed) cs o ≡ next (put_out cs o)
unfolding put_chars putchar_counted
put_chars-putchar [] o =
    let none_more : o.printed + 0 ≡ o.printed = omega arith in
    rw (append-nil o.chars, none_more) refl
put_chars-putchar (c ∷ cs) o =
    let shift : o.printed + 1 + length cs ≡ o.printed + suc (length cs) = omega arith in
    put_chars-putchar cs (record { chars = o.chars ++ (c ∷ []); printed = o.printed + 1 })
    ∙ rw (append_assoc o.chars (c ∷ []) cs, shift) refl

-- The loop with `addchar` of `vprintf` puts out these characters, and is undefined where they are.
abbrev pub PutsOut : Console → Option (List ℕ) → Step (Console × List Store) → Type 0
PutsOut o none r = r ≡ undefined
PutsOut o (some cs) r = (stores : List Store) × (r ≡ next (put_out cs o, stores))

PutsOut-prepend :
    (o : Console) (cs : List ℕ) (rest : Option (List ℕ)) (r : Step (Console × List Store))
    → PutsOut (put_out cs o) rest r
    → PutsOut o (prepend cs rest) r
PutsOut-prepend o cs none r p = p
PutsOut-prepend o cs (some ds) r (stores, p) =
    let total : o.printed + length cs + length ds ≡ o.printed + length (cs ++ ds) =
      omega (arith, length_append cs ds) in
    (stores, p ∙ rw (append_assoc o.chars cs ds, total) refl)

directive-PutsOut :
    (n : ℕ) (chars : List ℕ → List Arg → ℕ → Option (List ℕ))
    (loop : Loop putchar_counted (λ o. o.printed)) (d : Option Directive) (o : Console)
    (stores : List Store)
    → Leaves n d
    → ((rest : List ℕ) (args : List Arg) (o' : Console) (s : List Store)
        → length rest ≤ n
        → PutsOut o' (chars rest args o'.printed) (loop rest args o' s))
    → PutsOut o
        (chars_after chars o.printed d)
        (run_directive putchar_counted (λ p. p.printed) loop d o stores)
directive-PutsOut n chars loop none o stores l ih = refl
directive-PutsOut n chars loop (some d) o stores l ih = rw (put_chars-putchar d.chars o) (
    PutsOut-prepend o d.chars (chars d.rest d.args (o.printed + length d.chars)) _
      (ih d.rest d.args (put_out d.chars o) (stores ++ d.stores) l))

pub print_loop-PutsOut :
    (fuel : ℕ) (format : List ℕ) (args : List Arg) (o : Console) (stores : List Store)
    → length format ≤ fuel
    → PutsOut o
        (chars_of fuel format args o.printed)
        (print_loop putchar_counted (λ o. o.printed) fuel format args o stores)
unfolding print_loop chars_of
print_loop-PutsOut fuel [] args o stores h =
    let none_more : o.printed + 0 ≡ o.printed = omega arith in
    (stores, rw (append-nil o.chars, none_more) refl)
print_loop-PutsOut zero (c ∷ cs) args o stores h = absurd (omega arith)
print_loop-PutsOut (suc fuel) (c ∷ cs) args o stores h =
    directive-PutsOut (length cs) (chars_of fuel) (print_loop putchar_counted (λ p. p.printed) fuel)
      (directive o.printed c cs args) o stores (directive-Leaves o.printed c cs args)
      λ rest given o' s l. print_loop-PutsOut fuel rest given o' s (omega arith)
