-- ===== src/Devices.antt =====
-- The ports of ioport.h and the devices behind them. The instructions `inb` and `outb` are a parameter
-- of the model: what they read, and what they do to the devices.
pub mod Pic
pub mod Pit
pub mod Serial
pub mod Tests
use os_course_term.Common.{ℕ}

-- `out8` and `in8` on the state of the devices.
pub record Ports (D : Type 0) : Type 0 where
  pub out8 : (port value : ℕ) → D → D
  pub in8 : (port : ℕ) → D → ℕ × D
