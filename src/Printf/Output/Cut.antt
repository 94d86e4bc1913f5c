-- ===== src/Printf/Output/Cut.antt =====
-- `vsnprintf` against `vprintf`, whole.
use os_course_term.Common.{
  ℕ, ◌+◌, ◌-◌, ◌≤◌, ◌<◌, ◌≡◌, refl, sym, ap, ◌∙◌, subst, arith, Bool, true, false, ltb, ◌==◌,
  if◌then◌else◌, inl, inr, List, [], ◌++◌, length, Option, none, some, Bool-cases, update_self,
  update_ne, Outcome, ok, died, fault, blocked, and_then, pure, ◌>>◌, Returns, returns,
}
use os_course_term.Threading.{SpinState, is_held, spin_lock, spin_unlock}
use os_course_term.Threading.Spin.{spin_lock_taken, spin_unlock_given}
use os_course_term.Printf.Format.{Arg, Store}
use os_course_term.Printf.Output.{
  Step, print_loop, Console, putchar_counted, PrintfState, on_printf_lock, printed_console, vprintf,
  Buffer, put_in_buffer, BufferState, end_buffer, printed_buffer, vsnprintf,
}
use os_course_term.Printf.Output.Chars.{chars_of, PutsOut, print_loop-PutsOut}
use os_course_term.Printf.Output.Bounded.{char_at, smaller, Wrote, FillsAll, print_loop-FillsAll}

abbrev locked_printf : PrintfState → PrintfState
locked_printf s = record s {
  printf_lock = record { locked = s.printf_lock.locked + 1; owner = s.current_thread };
}

abbrev unlocked_printf : PrintfState → PrintfState
unlocked_printf s = record s {
  printf_lock = record {
    locked = s.printf_lock.locked;
    owner = if s.printf_lock.locked == 0 then 0 else s.current_thread;
  };
}

lock_taken :
    (s : PrintfState)
    → is_held s.current_thread s.printf_lock ≡ false
    → on_printf_lock spin_lock s ≡ ok tt (locked_printf s)
lock_taken s mine =
    rw
      (spin_lock_taken s.current_thread (record { lock = s.printf_lock; interrupts = s.interrupts })
        mine)
      refl

lock_given :
    (s : PrintfState) (output : List ℕ) (stores : List Store)
    → on_printf_lock spin_unlock (record (locked_printf s) { output = output; stores = stores })
      ≡ ok tt (record (unlocked_printf s) { output = output; stores = stores })
lock_given s output stores =
    let held : SpinState = record {
      lock = (locked_printf s).printf_lock;
      interrupts = s.interrupts;
    } in
    rw (spin_unlock_given s.current_thread s.printf_lock.locked held refl) refl

-- `vprintf` prints these characters and returns how many they are.
abbrev pub Prints : PrintfState → Option (List ℕ) → Outcome PrintfState ℕ → Type 0
Prints s none r = r ≡ fault
Prints s (some cs) r = (s' : PrintfState) × (s'.output ≡ s.output ++ cs) × (r ≡ ok (length cs) s')

vprintf-Prints :
    (format : List ℕ) (args : List Arg) (s : PrintfState)
    → is_held s.current_thread s.printf_lock ≡ false
    → Prints s (chars_of (length format) format args 0) (vprintf format args s)
unfolding vprintf
vprintf-Prints format args s mine = rw (lock_taken s mine) (
    by_chars (chars_of (length format) format args 0)
      (print_loop putchar_counted (λ o. o.printed) (length format) format args
        (record { chars = s.output; printed = 0 }) s.stores)
      (print_loop-PutsOut (length format) format args (record { chars = s.output; printed = 0 })
        s.stores (omega arith)))
  where
    by_chars :
        (chars : Option (List ℕ)) (r : Step (Console × List Store))
        → PutsOut (record { chars = s.output; printed = 0 }) chars r
        → Prints s chars (
            and_then
              (printed_console (locked_printf s) r)
              λ printed. on_printf_lock spin_unlock >> pure printed)
    by_chars none r e = rw e refl
    by_chars (some cs) r (stores, e) =
        let count : 0 + length cs ≡ length cs = omega arith in
        (
          record (unlocked_printf s) { output = s.output ++ cs; stores = stores },
          refl,
          rw (e, lock_given s (s.output ++ cs) stores, count) refl,
        )

-- A buffer of `size` bytes with the first of the characters, as many as have room before the final 0,
-- and what stands behind that is left as it was.
pub record Cuts (size : ℕ) (cs : List ℕ) (b : BufferState) (m : ℕ) (b' : BufferState) : Type 0 where
  pub returned : m ≡ smaller (length cs) (size - 1)
  pub chars : (j : ℕ) → j < m → b'.outbuf j ≡ char_at cs j
  pub ended : b'.outbuf m ≡ 0
  pub behind : (j : ℕ) → m < j → b'.outbuf j ≡ b.outbuf j

module _ (size : ℕ) (b : BufferState) where
  abbrev empty_buffer : Buffer
  empty_buffer = record { outbuf = b.outbuf; printed = 0 }

  end_buffer-Cuts :
      (cs : List ℕ) (o : Buffer) (stores : List Store)
      → 2 ≤ size
      → Wrote size empty_buffer cs o
      → Returns (Cuts size cs b) (end_buffer size o stores)
  end_buffer-Cuts cs o stores h w =
      let zero_more : 0 + length cs ≡ length cs = omega arith in
      let inside : ltb o.printed size ≡ true = ground (arith, w.count) in
      rw inside (
        returns (record {
          returned = rw (← zero_more) w.count;
          chars = λ (j : ℕ) (g : j < o.printed).
              let from_start : 0 + j ≡ j = omega arith in
              update_ne o.outbuf o.printed 0 j (omega arith)
              ∙ ap o.outbuf (sym from_start)
              ∙ w.chars j (omega arith);
          ended = update_self o.outbuf o.printed 0;
          behind = λ j g.
              update_ne o.outbuf o.printed 0 j (omega arith) ∙ w.others j (inr (omega arith));
        }))

  vsnprintf-Cuts :
      (format : List ℕ) (args : List Arg) (cs : List ℕ)
      → 1 ≤ size
      → chars_of (length format) format args 0 ≡ some cs
      → Returns (Cuts size cs b) (vsnprintf size format args b)
  unfolding vsnprintf
  vsnprintf-Cuts format args cs h e = elim (Bool-cases (size == 1)) [
    | inl one ↦
        let some_room : ltb size 1 ≡ false = ground arith in
        rw (some_room, one)
          (returns (record {
            returned = ground arith;
            chars = λ j g. absurd (omega arith);
            ended = update_self b.outbuf 0 0;
            behind = λ j g. update_ne b.outbuf 0 0 j (omega arith);
          }))
    | inr more ↦
        let run : Step (Buffer × List Store) =
          print_loop (put_in_buffer size) (λ o. o.printed) (length format) format args empty_buffer
            b.stores in
        let some_room : ltb size 1 ≡ false = ground arith in
        rw (some_room, more)
          (filled run
            (subst (λ (o : Option (List ℕ)). FillsAll size empty_buffer o run) e
              (print_loop-FillsAll size (length format) format args empty_buffer b.stores
                (ground arith)))
            (ground arith))
  ]
    where
      filled :
          (r : Step (Buffer × List Store))
          → FillsAll size empty_buffer (some cs) r
          → 2 ≤ size
          → Returns (Cuts size cs b) (printed_buffer size r)
      filled r (o, stores, w, e) g = elim (Bool-cases (ltb (0 + length cs + 1) size)) [
        | inl room ↦ rw (e, room) (end_buffer-Cuts cs o stores g w)
        | inr full ↦ rw (e, full) (end_buffer-Cuts cs o stores g w)
      ]

-- Where `vprintf` returns, it has printed some characters and returns how many; with the same format
-- and arguments, and a buffer of at least one byte, `vsnprintf` returns and leaves in it the first of
-- these characters, as many as have room before the final 0, and all behind that as it was.
pub vsnprintf-vprintf :
    (size : ℕ) (format : List ℕ) (args : List Arg) (b : BufferState) (s s' : PrintfState) (n : ℕ)
    → 1 ≤ size
    → is_held s.current_thread s.printf_lock ≡ false
    → vprintf format args s ≡ ok n s'
    → (cs : List ℕ) × (s'.output ≡ s.output ++ cs)
      × (n ≡ length cs)
      × Returns (Cuts size cs b) (vsnprintf size format args b)
vsnprintf-vprintf size format args b s s' n h mine e =
    printed (chars_of (length format) format args 0) refl (vprintf-Prints format args s mine)
  where
    output_of : Outcome PrintfState ℕ → List ℕ × ℕ
    output_of (ok k t) = (t.output, k)
    output_of died = ([], 0)
    output_of fault = ([], 0)
    output_of blocked = ([], 0)

    is_fault : Outcome PrintfState ℕ → Bool
    is_fault (ok k t) = false
    is_fault died = false
    is_fault fault = true
    is_fault blocked = false

    printed :
        (chars : Option (List ℕ))
        → chars_of (length format) format args 0 ≡ chars
        → Prints s chars (vprintf format args s)
        → (cs : List ℕ) × (s'.output ≡ s.output ++ cs)
          × (n ≡ length cs)
          × Returns (Cuts size cs b) (vsnprintf size format args b)
    printed none c p = let clash : true ≡ false = ap is_fault (sym p ∙ e) in absurd (cc)
    printed (some cs) c (t, o, p) =
        let same : (s'.output, n) ≡ (t.output, length cs) = ap output_of (sym e ∙ p) in
        (
          cs,
          ap (λ (r : List ℕ × ℕ). r.0) same ∙ o,
          ap (λ (r : List ℕ × ℕ). r.1) same,
          vsnprintf-Cuts size b format args cs h c,
        )
