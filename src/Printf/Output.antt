-- ===== src/Printf/Output.antt =====
-- The loop of printf_impl.c as a whole, for the `addchar` of `vprintf` and that of `vsnprintf` of
-- printf.c.
pub mod Chars
pub mod Bounded
pub mod Cut
mod Tests
use os_course_term.Common.{
  ℕ, zero, suc, ◌+◌, ◌-◌, Bool, true, false, ltb, leb, ◌==◌, if◌then◌else◌, List, [], ◌∷◌, ◌++◌,
  length, Option, none, some, Outcome, ok, fault, blocked, Cmd, pure, ◌>>=◌, ◌>>◌, within, update,
}
use os_course_term.Threading.{SpinLock, SpinState, spin_lock, spin_unlock}
use os_course_term.Printf.Format.{Arg, Store, Directive, directive}

-- What a part of the loop ends in: it goes on, it has gone to `end`, C does not define it, or the fuel
-- is used up and the loop is still running.
pub data Step (S : Type 0) : Type 0 where
  next : S → Step S
  stop : S → Step S
  undefined : Step S
  unfinished : Step S

abbrev pub and_put : {O : Type 0} → Step O → (O → Step O) → Step O
and_put (next o) k = k o
and_put (stop o) k = stop o
and_put undefined k = undefined
and_put unfinished k = unfinished

module _ {O : Type 0} (addchar : ℕ → O → Step O) (count : O → ℕ) where
  pub put_chars : List ℕ → O → Step O
  put_chars [] o = next o
  put_chars (c ∷ cs) o = and_put (addchar c o) (put_chars cs)

  -- The stores of `%n` come after the characters before them.
  abbrev pub go_on :
      (O → List Store → Step (O × List Store))
      → (before after : List Store) → Step O
      → Step (O × List Store)
  go_on rest before after (next o) = rest o after
  go_on rest before after (stop o) = stop (o, before)
  go_on rest before after undefined = undefined
  go_on rest before after unfinished = unfinished

  abbrev pub run_directive :
      (rest : List ℕ → List Arg → O → List Store → Step (O × List Store))
      → Option Directive
      → O
      → List Store
      → Step (O × List Store)
  run_directive rest none o stores = undefined
  run_directive rest (some d) o stores =
      go_on (rest d.rest d.args) stores (stores ++ d.stores) (put_chars d.chars o)

  -- `for (int i = 0; format[i];)`; a round takes at least one character.
  pub print_loop : (fuel : ℕ) → List ℕ → List Arg → O → List Store → Step (O × List Store)
  print_loop fuel [] args o stores = next (o, stores)
  print_loop zero (c ∷ cs) args o stores = unfinished
  print_loop (suc fuel) (c ∷ cs) args o stores =
      run_directive (print_loop fuel) (directive (count o) c cs args) o stores

-- The characters that went to `putchar`, and how many they are. `printed` is an `int`, taken not to
-- overflow.
pub record Console : Type 0 where
  pub chars : List ℕ
  pub printed : ℕ

pub putchar_counted : ℕ → Console → Step Console
putchar_counted c o = next (record { chars = o.chars ++ (c ∷ []); printed = o.printed + 1 })

pub record PrintfState : Type 0 where
  pub printf_lock : SpinLock
  pub current_thread : ℕ
  pub interrupts : Bool
  pub output : List ℕ
  pub stores : List Store

abbrev pub PrintfCmd : Type 0 → Type 0
PrintfCmd A = Cmd PrintfState A

abbrev pub on_printf_lock : (ℕ → Cmd SpinState (Unit {0})) → PrintfCmd (Unit {0})
on_printf_lock m h =
    within (λ s. record h { printf_lock = s.lock; interrupts = s.interrupts })
      (m h.current_thread (record { lock = h.printf_lock; interrupts = h.interrupts }))

abbrev pub printed_console : PrintfState → Step (Console × List Store) → Outcome PrintfState ℕ
printed_console s (next (o, stores)) = ok o.printed (record s { output = o.chars; stores = stores })
printed_console s (stop (o, stores)) = ok o.printed (record s { output = o.chars; stores = stores })
printed_console s undefined = fault
printed_console s unfinished = blocked

abbrev pub print_format : List ℕ → List Arg → PrintfCmd ℕ
print_format format args s = printed_console s (
    print_loop putchar_counted (λ o. o.printed) (length format) format args
      (record { chars = s.output; printed = 0 }) s.stores)

pub vprintf : List ℕ → List Arg → PrintfCmd ℕ
vprintf format args = do
  on_printf_lock spin_lock
  printed ← print_format format args
  on_printf_lock spin_unlock
  pure printed

-- `outbuf`, and the index of the next character.
pub record Buffer : Type 0 where
  pub outbuf : ℕ → ℕ
  pub printed : ℕ

-- A write behind the buffer is not defined.
pub put_in_buffer : (outbufsize c : ℕ) → Buffer → Step Buffer
put_in_buffer outbufsize c o =
    let o' : Buffer = record { outbuf = update o.outbuf o.printed c; printed = o.printed + 1 } in
    if ltb o.printed outbufsize
    then if leb outbufsize (o.printed + 1 + 1) then stop o' else next o'
    else undefined

pub record BufferState : Type 0 where
  pub outbuf : ℕ → ℕ
  pub stores : List Store

-- `end:`
abbrev pub end_buffer : (outbufsize : ℕ) → Buffer → List Store → Outcome BufferState ℕ
end_buffer outbufsize o stores =
    if ltb o.printed outbufsize
    then ok o.printed (record { outbuf = update o.outbuf o.printed 0; stores = stores })
    else fault

abbrev pub printed_buffer : (outbufsize : ℕ) → Step (Buffer × List Store) → Outcome BufferState ℕ
printed_buffer outbufsize (next (o, stores)) = end_buffer outbufsize o stores
printed_buffer outbufsize (stop (o, stores)) = end_buffer outbufsize o stores
printed_buffer outbufsize undefined = fault
printed_buffer outbufsize unfinished = blocked

pub vsnprintf : (outbufsize : ℕ) → List ℕ → List Arg → Cmd BufferState ℕ
vsnprintf outbufsize format args s =
    if ltb outbufsize 1
    then ok 0 s
    else if outbufsize == 1
    then ok 0 (record s { outbuf = update s.outbuf 0 0 })
    else printed_buffer outbufsize (
        print_loop (put_in_buffer outbufsize) (λ o. o.printed) (length format) format args
          (record { outbuf = s.outbuf; printed = 0 }) s.stores)
