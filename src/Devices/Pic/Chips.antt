-- ===== src/Devices/Pic/Chips.antt =====
-- What pic.c relies on in the two chips behind the ports: the documented behaviour of the 8259A.
use os_course_term.Common.{ℕ, ◌<◌, ◌≡◌, List, [], ◌∷◌}
use os_course_term.Devices.{Ports}

-- What a chip takes the next write to its data register for: one of the three initialisation words
-- after the first, or the mask.
pub data Phase : Type 0 where
  wants_vector : Phase
  wants_wiring : Phase
  wants_mode : Phase
  operating : Phase

-- The phase, the words that the chip has got, its masked lines, and the lines in service, the one of
-- the highest priority first.
pub record Chip : Type 0 where
  pub phase : Phase
  pub vector : ℕ
  pub wiring : ℕ
  pub mode : ℕ
  pub mask : ℕ
  pub in_service : List ℕ

-- The first initialisation word, for chips that are connected and get four words.
abbrev pub started : Chip → Chip
started c = record c { phase = wants_vector; mask = 0 }

-- A write to the data register: the next initialisation word, or else the mask.
abbrev pub written : Phase → (x : ℕ) → Chip → Chip
written wants_vector x c = record c { phase = wants_wiring; vector = x }
written wants_wiring x c = record c { phase = wants_mode; wiring = x }
written wants_mode x c = record c { phase = operating; mode = x }
written operating x c = record c { mask = x }

-- The end of an interrupt: the line of the highest priority is no longer in service.
abbrev pub served : Chip → Chip
served c = record c { in_service = rest c.in_service }
  where
    rest : List ℕ → List ℕ
    rest [] = []
    rest (line ∷ lines) = lines

-- The two chips.
pub data Side : Type 0 where
  master : Side
  slave : Side

abbrev pub other : Side → Side
other master = slave
other slave = master

abbrev pub command_reg : Side → ℕ
command_reg master = 32
command_reg slave = 160

abbrev pub data_reg : Side → ℕ
data_reg master = 33
data_reg slave = 161

-- The two chips behind the ports.
pub record IsPicPair {D : Type 0} (io : Ports D) : Type 0 where
  pub chip : Side → D → Chip
  pub start : (b : Side) (d : D) → chip b (io.out8 (command_reg b) 17 d) ≡ started (chip b d)
  pub write :
      (b : Side) (x : ℕ) (d : D)
      → x < 256
      → chip b (io.out8 (data_reg b) x d) ≡ written (chip b d).phase x (chip b d)
  pub serve :
      (b : Side) (d : D)
      → (chip b d).phase ≡ operating
      → chip b (io.out8 (command_reg b) 32 d) ≡ served (chip b d)
  pub read :
      (b : Side) (d : D)
      → (chip b d).phase ≡ operating
      → io.in8 (data_reg b) d ≡ ((chip b d).mask, d)
  pub command_apart :
      (b : Side) (x : ℕ) (d : D) → chip (other b) (io.out8 (command_reg b) x d) ≡ chip (other b) d
  pub data_apart :
      (b : Side) (x : ℕ) (d : D) → chip (other b) (io.out8 (data_reg b) x d) ≡ chip (other b) d
