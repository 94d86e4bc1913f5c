-- ===== src/Devices/Serial/Uart.antt =====
-- What serial.c relies on in the chip behind the ports: the documented behaviour of a 16550.
use os_course_term.Common.{ℕ, suc, ◌≤◌, ◌<◌, ◌≡◌, ◌==◌, if◌then◌else◌, List, [], ◌∷◌, ◌++◌, bit}
use os_course_term.Devices.{Ports}
use os_course_term.Devices.Serial.{data_port, int_port, lcr_port, status_port}

-- The line control register, the divisor of the clock, the enabled interrupts, and the bytes sent.
pub record Uart : Type 0 where
  pub lcr : ℕ
  pub latch_low : ℕ
  pub latch_high : ℕ
  pub enabled : ℕ
  pub sent : List ℕ

-- The first two ports are the divisor as long as bit 7 of the line control register is set.
abbrev pub int_written : (x : ℕ) → Uart → Uart
int_written x u = if bit 7 u.lcr == 1 then record u { latch_high = x } else record u { enabled = x }

-- `wait` bounds the reads of the status until its bit 5 is set: each read comes nearer to the end of
-- the transmission, and after the write of a byte there are at most `slow` of them. A byte is sent if
-- it is written while the transmitter is idle, where `wait` is 0; nothing is known of a byte that is
-- written before. Bit 5 of the status says that the transmitter is idle.
pub record IsUart {D : Type 0} (io : Ports D) : Type 0 where
  pub uart : D → Uart
  pub wait : D → ℕ
  pub slow : ℕ
  pub control :
      (x : ℕ) (d : D) → x < 256 → uart (io.out8 lcr_port x d) ≡ record (uart d) { lcr = x }
  pub latch_lem :
      (x : ℕ) (d : D)
      → x < 256
      → bit 7 (uart d).lcr ≡ 1
      → uart (io.out8 data_port x d) ≡ record (uart d) { latch_low = x }
  pub send_lem :
      (x : ℕ) (d : D)
      → x < 256
      → bit 7 (uart d).lcr ≡ 0
      → wait d ≡ 0
      → uart (io.out8 data_port x d) ≡ record (uart d) { sent = (uart d).sent ++ (x ∷ []) }
  pub int_lem : (x : ℕ) (d : D) → x < 256 → uart (io.out8 int_port x d) ≡ int_written x (uart d)
  pub wait_bound : (x : ℕ) (d : D) → wait (io.out8 data_port x d) ≤ slow
  pub status_keeps : (d : D) → uart (io.in8 status_port d).1 ≡ uart d
  pub status_over : (d : D) → wait d ≡ 0 → bit 5 (io.in8 status_port d).0 ≡ 1
  pub status_idle : (d : D) → bit 5 (io.in8 status_port d).0 ≡ 1 → wait (io.in8 status_port d).1 ≡ 0
  pub status_less : (n : ℕ) (d : D) → wait d ≡ suc n → wait (io.in8 status_port d).1 ≤ n
