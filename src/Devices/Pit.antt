-- ===== src/Devices/Pit.antt =====
-- The interval timer: pit.h and pit.c, and what they rely on in the chip, the documented behaviour of
-- the 8254.
use os_course_term.Common.{
  ℕ, ◌+◌, ◌*◌, ◌/◌, ◌%◌, ◌^◌, ◌<◌, ◌≡◌, refl, ◌∙◌, arith, ok, Cmd, ◌>>◌, Returns, returns,
}
use os_course_term.Devices.{Ports}

abbrev pub control_port : ℕ
control_port = 67

abbrev pub data0_port : ℕ
data0_port = 64

-- Channel 0: its mode, its divisor, and the low byte of a divisor of which the high byte is missing.
pub record Channel : Type 0 where
  pub mode : ℕ
  pub reload : ℕ
  pub low : ℕ
  pub half : ℕ

-- The control word 52 selects channel 0, two bytes, low and high, and mode 2, the rate generator. A
-- divisor of 0 counts as 65536, which `reload` leaves as 0.
pub record IsPit {D : Type 0} (io : Ports D) : Type 0 where
  pub channel : D → Channel
  pub control :
      (d : D) → channel (io.out8 control_port 52 d) ≡ record (channel d) { mode = 2; half = 0 }
  pub first :
      (x : ℕ) (d : D)
      → x < 256
      → (channel d).half ≡ 0
      → channel (io.out8 data0_port x d) ≡ record (channel d) { low = x; half = 1 }
  pub second :
      (x : ℕ) (d : D)
      → x < 256
      → (channel d).half ≡ 1
      → channel (io.out8 data0_port x d)
        ≡ record (channel d) { reload = (channel d).low + 256 * x; half = 0 }

module _ {D : Type 0} (io : Ports D) where
  abbrev pit_out : (port value : ℕ) → Cmd D (Unit {0})
  pit_out port value d = ok tt (io.out8 port (value % 256) d)

  -- `divisor` is a `uint16_t`. The parts of the control word have no bit in common.
  pub init_pit : (divisor : ℕ) → Cmd D (Unit {0})
  init_pit divisor = do
    pit_out control_port (0 * 2 ^ 0 + 2 * 2 ^ 1 + 3 * 2 ^ 4 + 0 * 2 ^ 6)
    pit_out data0_port divisor
    pit_out data0_port (divisor / 2 ^ 8)

  -- `init_pit` sets channel 0 to mode 2 with the divisor that it is given.
  pub init_pit-divides :
      (pit : IsPit io) (divisor : ℕ) (d : D)
      → divisor < 2 ^ 16
      → Returns
          (λ _ d'. (pit.channel d').mode ≡ 2 × ((pit.channel d').reload ≡ divisor))
          (init_pit divisor d)
  unfolding init_pit
  init_pit-divides pit divisor d h =
      let c : D = io.out8 control_port 52 d in
      let e : D = io.out8 data0_port (divisor % 256) c in
      let one : pit.channel e ≡ record (pit.channel d) { mode = 2; half = 1; low = divisor % 256 } =
        pit.first (divisor % 256) c (omega arith) (rw (pit.control d) refl)
        ∙ rw (pit.control d) refl in
      let two : pit.channel (io.out8 data0_port (divisor / 2 ^ 8 % 256) e)
          ≡ record (pit.channel d) {
            mode = 2;
            half = 0;
            low = divisor % 256;
            reload = divisor % 256 + 256 * (divisor / 2 ^ 8 % 256);
          } =
        pit.second (divisor / 2 ^ 8 % 256) e (omega arith) (rw one refl) ∙ rw one refl in
      returns (rw two refl, rw two (omega arith))
