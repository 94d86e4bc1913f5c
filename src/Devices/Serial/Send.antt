-- ===== src/Devices/Serial/Send.antt =====
-- What the functions of serial.c send.
use mathlib.Core.List.{append-nil, append_assoc}
use os_course_term.Common.{
  ℕ, zero, suc, ◌+◌, ◌-◌, ◌%◌, ◌^◌, ◌≤◌, ◌<◌, ◌≡◌, refl, sym, subst, ==_refl, ◌∙◌, arith, false,
  ◌==◌, if◌then◌else◌, Bool-cases, inl, inr, List, [], ◌∷◌, ◌++◌, ok, Returns, returns,
  Returns-bind, Returns-mono, bit, land, lor, land_bit,
}
use os_course_term.Threading.{SpinLock, SpinState, is_held, spin_lock, spin_unlock}
use os_course_term.Threading.Spin.{spin_lock_taken, spin_unlock_given}
use os_course_term.Devices.{Ports}
use os_course_term.Devices.Serial.{
  SerialState, on_serial_lock, lcr_port, data_port, int_port, status_port, init_serial, wait_over,
  putchar, putchars, puts,
}
use os_course_term.Devices.Serial.Uart.{int_written, IsUart}

-- Each character is a byte.
abbrev pub Bytes : List ℕ → Type 0
Bytes [] = Unit {0}
Bytes (c ∷ cs) = (c < 256) × Bytes cs

module _ {D : Type 0} (io : Ports D) (u : IsUart io) where
  control_to :
      (x : ℕ) → x < 256 → (d : D) → u.uart (io.out8 lcr_port x d) ≡ record (u.uart d) { lcr = x }
  control_to x h d = u.control x d h

  -- The write of the low byte of the divisor, in divisor access.
  latched :
      (d : D)
      → u.uart (io.out8 data_port 12 (io.out8 lcr_port 131 d))
        ≡ record (u.uart d) { lcr = 131; latch_low = 12 }
  latched d =
      let access = u.control 131 d (omega arith) in
      u.latch_lem 12 (io.out8 lcr_port 131 d) (omega arith) (rw access refl) ∙ rw access refl

  int_to : (x : ℕ) → x < 256 → (d : D) → u.uart (io.out8 int_port x d) ≡ int_written x (u.uart d)
  int_to x h d = u.int_lem x d h

  -- `init_serial` sets the divisor to 12 and the line to 8 bits without parity, and disables the
  -- interrupts; nothing is sent.
  pub init_serial-Uart :
      (s : SerialState D)
      → Returns
          (λ _ s'. u.uart s'.device ≡ record {
            lcr = 3;
            latch_low = 12;
            latch_high = 0;
            enabled = 0;
            sent = (u.uart s.device).sent;
          })
          (init_serial io s)
  unfolding init_serial lor land
  init_serial-Uart s =
      returns (simp (latched s.device, control_to 3 (omega arith), int_to 0 (omega arith)) refl)

  -- The chip is as before, but for the wait, which is over.
  abbrev Waited : SerialState D → SerialState D → Type 0
  Waited s s' =
      (u.uart s'.device ≡ u.uart s.device)
      × (s' ≡ record s { device = s'.device })
      × (u.wait s'.device ≡ 0)

  waits : (d : D) → bit 5 (io.in8 status_port d).0 ≡ 0 → 1 ≤ u.wait d
  waits d off = elim (Bool-cases (u.wait d == 0)) [
    | inl none ↦ absurd (omega (arith, u.status_over d (ground arith)))
    | inr some ↦ ground arith
  ]

  -- One read of the status more than the transmission takes ends the loop.
  wait_over_enough :
      (fuel : ℕ) (s : SerialState D)
      → u.wait s.device < fuel
      → Returns (λ _ s'. Waited s s') (wait_over io fuel s)
  unfolding wait_over
  wait_over_enough zero s h = absurd (omega arith)
  wait_over_enough (suc fuel) s h =
      let status : ℕ = (io.in8 status_port s.device).0 in
      let d : D = (io.in8 status_port s.device).1 in
      elim (Bool-cases (land 32 status (2 ^ 5) == 0)) [
        | inr over ↦
            let on = land_bit 32 5 status (omega arith) in
            rw over
              (returns (u.status_keeps s.device, refl, u.status_idle s.device (ground (arith, on))))
        | inl waiting ↦
            let off = land_bit 32 5 status (omega arith) in
            let some : 1 ≤ u.wait s.device = omega (arith, waits s.device (ground (arith, off))) in
            let less = u.status_less (u.wait s.device - 1) s.device (omega (arith, some)) in
            rw waiting (
              Returns-mono (wait_over_enough fuel (record s { device = d }) (omega (arith, less)))
                λ _ s' (keeps, e, idle). (keeps ∙ u.status_keeps s.device, e, idle))
      ]

  -- The lock after as many calls of `spin_unlock` as of `spin_lock`.
  abbrev pub given : SerialState D → SpinLock
  given s = record {
    locked = s.serial_lock.locked;
    owner = if s.serial_lock.locked == 0 then 0 else s.current_thread;
  }

  abbrev locked : SerialState D → SerialState D
  locked s = record s {
    serial_lock = record { locked = s.serial_lock.locked + 1; owner = s.current_thread };
  }

  lock_taken :
      (s : SerialState D)
      → is_held s.current_thread s.serial_lock ≡ false
      → on_serial_lock spin_lock s ≡ ok tt (locked s)
  lock_taken s mine =
      rw
        (spin_lock_taken s.current_thread
          (record { lock = s.serial_lock; interrupts = s.interrupts }) mine)
        refl

  lock_given :
      (s : SerialState D) (d : D)
      → on_serial_lock spin_unlock (record (locked s) { device = d })
        ≡ ok tt (record s { device = d; serial_lock = given s })
  lock_given s d =
      let held : SpinState = record { lock = (locked s).serial_lock; interrupts = s.interrupts } in
      rw (spin_unlock_given s.current_thread s.serial_lock.locked held refl) refl

  -- The bytes `cs` are sent, the transmitter is idle again, and the lock is given back.
  pub record Sent (s : SerialState D) (cs : List ℕ) (s' : SerialState D) : Type 0 where
    pub chip : u.uart s'.device ≡ record (u.uart s.device) { sent = (u.uart s.device).sent ++ cs }
    pub rest : s' ≡ record s { device = s'.device; serial_lock = given s }
    pub idle : u.wait s'.device ≡ 0

  -- `putchar` on an idle transmitter sends its byte, and waits until it is idle again.
  pub putchar-Sent :
      (fuel c : ℕ) (s : SerialState D)
      → u.slow < fuel
      → c < 256
      → bit 7 (u.uart s.device).lcr ≡ 0
      → u.wait s.device ≡ 0
      → is_held s.current_thread s.serial_lock ≡ false
      → Returns (λ _ s'. Sent s (c ∷ []) s') (putchar io fuel c s)
  unfolding putchar
  putchar-Sent fuel c s enough byte line ready mine =
      let same : c % 256 ≡ c = omega arith in
      let d : D = io.out8 data_port c s.device in
      rw (lock_taken s mine, same)
        (Returns-bind
          (wait_over_enough fuel (record (locked s) { device = d })
            (omega (arith, u.wait_bound c s.device)))
          λ _ s' (keeps, e, idle).
            rw (e, lock_given s s'.device)
              (returns (record {
                chip = keeps ∙ u.send_lem c s.device byte line ready;
                rest = refl;
                idle = idle;
              })))

  held-mine :
      (s : SerialState D) (count : ℕ)
      → s.serial_lock ≡ record { locked = count + 1; owner = s.current_thread }
      → is_held s.current_thread s.serial_lock ≡ false
  held-mine s count held = rw held (ground (arith, ==_refl s.current_thread))

  given_held :
      (s : SerialState D) (count : ℕ)
      → s.serial_lock ≡ record { locked = count + 1; owner = s.current_thread }
      → given s ≡ s.serial_lock
  given_held s count held =
      let some : (count + 1 == 0) ≡ false = ground arith in rw held (rw some refl)

  -- The loop of `puts`, which holds the lock already.
  putchars_sent :
      (fuel : ℕ) (cs : List ℕ) (s : SerialState D) (count : ℕ)
      → u.slow < fuel
      → Bytes cs
      → bit 7 (u.uart s.device).lcr ≡ 0
      → u.wait s.device ≡ 0
      → s.serial_lock ≡ record { locked = count + 1; owner = s.current_thread }
      → Returns
          (λ _ s'.
            (u.uart s'.device ≡ record (u.uart s.device) { sent = (u.uart s.device).sent ++ cs })
            × (s' ≡ record s { device = s'.device })
            × (u.wait s'.device ≡ 0))
          (putchars io fuel cs s)
  unfolding putchars
  putchars_sent fuel [] s count enough bytes line ready held =
      returns (rw (append-nil (u.uart s.device).sent) refl, refl, ready)
  putchars_sent fuel (c ∷ cs) s count enough (byte, bytes) line ready held =
      Returns-bind (putchar-Sent fuel c s enough byte line ready (held-mine s count held)) λ _ m r.
        let same : m ≡ record s { device = m.device } =
          r.rest ∙ rw (given_held s count held) refl in
        subst
          (λ (k : SerialState D).
            Returns
              (λ _ s'.
                (u.uart s'.device
                  ≡ record (u.uart s.device) { sent = (u.uart s.device).sent ++ (c ∷ cs) })
                × (s' ≡ record s { device = s'.device })
                × (u.wait s'.device ≡ 0))
              (putchars io fuel cs k))
          (sym same)
          (Returns-mono
            (putchars_sent fuel cs (record s { device = m.device }) count enough bytes
              (rw r.chip line) r.idle held)
            λ _ s' (chip, e, idle).
              (chip ∙ rw (r.chip, append_assoc (u.uart s.device).sent (c ∷ []) cs) refl, e, idle))

  -- On an idle transmitter, out of divisor access, and on a lock that no other thread holds, with
  -- more fuel than the slowest transmission takes reads, `puts` of a string of bytes returns: it has
  -- sent the string and a line feed, the transmitter is idle again, and the lock is given back.
  pub puts-Sent :
      (fuel : ℕ) (cs : List ℕ) (s : SerialState D)
      → u.slow < fuel
      → Bytes cs
      → bit 7 (u.uart s.device).lcr ≡ 0
      → u.wait s.device ≡ 0
      → is_held s.current_thread s.serial_lock ≡ false
      → Returns (λ _ s'. Sent s (cs ++ (10 ∷ [])) s') (puts io fuel cs s)
  unfolding puts
  puts-Sent fuel cs s enough bytes line ready mine =
      let l : SerialState D = locked s in
      rw (lock_taken s mine) (
        Returns-bind (putchars_sent fuel cs l s.serial_lock.locked enough bytes line ready refl)
          λ _ m (chip, e, idle).
            let k : SerialState D = record l { device = m.device } in
            rw e (
              Returns-bind
                (putchar-Sent fuel 10 k enough (omega arith) (rw chip line) idle
                  (held-mine l s.serial_lock.locked refl))
                λ _ m' r.
                  let same : m' ≡ record l { device = m'.device } =
                    r.rest ∙ rw (given_held k s.serial_lock.locked refl) refl in
                  rw (same, lock_given s m'.device)
                    (returns (record {
                      chip =
                          r.chip ∙ rw (chip, append_assoc (u.uart s.device).sent cs (10 ∷ [])) refl;
                      rest = refl;
                      idle = r.idle;
                    }))))
