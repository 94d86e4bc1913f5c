-- ===== src/Devices/Serial.antt =====
-- The serial port: serial.h and serial.c.
pub mod Uart
pub mod Send
use os_course_term.Common.{
  ℕ, zero, suc, ◌+◌, ◌/◌, ◌%◌, ◌^◌, Bool, ◌==◌, if◌then◌else◌, List, [], ◌∷◌, within, ok, blocked,
  Cmd, pure, ◌>>=◌, ◌>>◌, land, lor,
}
use os_course_term.Threading.{SpinLock, SpinState, spin_lock, spin_unlock}
use os_course_term.Devices.{Ports}

abbrev pub base_port : ℕ
base_port = 1016

abbrev pub data_port : ℕ
data_port = base_port + 0

abbrev pub int_port : ℕ
int_port = base_port + 1

abbrev pub spd_low_port : ℕ
spd_low_port = base_port + 0

abbrev pub spd_high_port : ℕ
spd_high_port = base_port + 1

abbrev pub lcr_port : ℕ
lcr_port = base_port + 3

abbrev pub status_port : ℕ
status_port = base_port + 5

-- `1 << 7`
abbrev pub dlab : ℕ
dlab = 2 ^ 7

abbrev pub serial_control : ℕ
serial_control = 3

abbrev pub serial_divisor_latch : ℕ
serial_divisor_latch = 12

-- `1 << 5`
abbrev pub transmit_over_bit : ℕ
transmit_over_bit = 2 ^ 5

-- The devices, `serial_lock`, and what `spin_lock` knows of the processor.
pub record SerialState (D : Type 0) : Type 0 where
  pub device : D
  pub serial_lock : SpinLock
  pub current_thread : ℕ
  pub interrupts : Bool

abbrev pub SerialCmd : Type 0 → Type 0 → Type 0
SerialCmd D A = Cmd (SerialState D) A

abbrev pub on_serial_lock : {D : Type 0} → (ℕ → Cmd SpinState (Unit {0})) → SerialCmd D (Unit {0})
on_serial_lock m h =
    within (λ s. record h { serial_lock = s.lock; interrupts = s.interrupts })
      (m h.current_thread (record { lock = h.serial_lock; interrupts = h.interrupts }))

module _ {D : Type 0} (io : Ports D) where
  -- The argument of `out8` is cast to a byte.
  abbrev pub serial_out : (port value : ℕ) → SerialCmd D (Unit {0})
  serial_out port value s = ok tt (record s { device = io.out8 port (value % 256) s.device })

  abbrev pub serial_in : (port : ℕ) → SerialCmd D ℕ
  serial_in port s =
      let (value, device) = io.in8 port s.device in ok value (record s { device = device })

  pub init_serial : SerialCmd D (Unit {0})
  init_serial = do
    serial_out lcr_port (lor 32 dlab serial_control)
    serial_out spd_low_port (land 32 serial_divisor_latch 255)
    serial_out spd_high_port (land 32 (serial_divisor_latch / 2 ^ 8) 255)
    serial_out lcr_port serial_control
    serial_out int_port 0

  -- `while (!(in8(STATUS_PORT) & TRANSMIT_OVER_BIT));`, which without fuel is still waiting.
  pub wait_over : (fuel : ℕ) → SerialCmd D (Unit {0})
  wait_over zero = λ s. blocked
  wait_over (suc fuel) =
      let more = wait_over fuel in
      do
        status ← serial_in status_port
        if land 32 status transmit_over_bit == 0 then more else pure tt

  pub putchar : (fuel c : ℕ) → SerialCmd D (Unit {0})
  putchar fuel c = do
    on_serial_lock spin_lock
    serial_out data_port c
    wait_over fuel
    on_serial_lock spin_unlock

  -- The loop of `puts`; a string is the list of its bytes before the 0.
  pub putchars : (fuel : ℕ) → List ℕ → SerialCmd D (Unit {0})
  putchars fuel [] = pure tt
  putchars fuel (c ∷ cs) = do putchar fuel c; putchars fuel cs

  pub puts : (fuel : ℕ) → List ℕ → SerialCmd D (Unit {0})
  puts fuel s = do
    on_serial_lock spin_lock
    putchars fuel s
    putchar fuel 10
    on_serial_lock spin_unlock
