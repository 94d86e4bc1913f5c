-- ===== src/Devices/Pic.antt =====
-- The interrupt controllers: pic.h and pic.c. `int` is ℤ, and `printf` the `vprintf` of printf.c.
pub mod Chips
pub mod Lines
use os_course_term.Common.{
  ℕ, ◌+◌, ◌-◌, ◌^◌, ◌%◌, Bool, ◌&&◌, ltb, leb, if◌then◌else◌, List, [], ◌∷◌, ℤ, pos, negsuc, within,
  ok, Cmd, pure, ◌>>=◌, ◌>>◌, land, lor,
}
use os_course_term.Printf.Format.{Arg, word}
use os_course_term.Printf.Output.{PrintfState, vprintf}
use os_course_term.Devices.{Ports}

abbrev pub master_command_reg : ℕ
master_command_reg = 32

abbrev pub master_int_mask_reg : ℕ
master_int_mask_reg = 33

abbrev pub master_data_reg : ℕ
master_data_reg = 33

abbrev pub slave_command_reg : ℕ
slave_command_reg = 160

abbrev pub slave_int_mask_reg : ℕ
slave_int_mask_reg = 161

abbrev pub slave_data_reg : ℕ
slave_data_reg = 161

abbrev pub lpic_master_icw : ℕ
lpic_master_icw = 32

abbrev pub lpic_slave_icw : ℕ
lpic_slave_icw = 40

-- `ON_MASTER` and `ON_SLAVE`, for an id that is not negative; the others are on neither.
abbrev pub on_master : ℕ → Bool
on_master id = leb lpic_master_icw id && ltb id (lpic_master_icw + 8)

abbrev pub on_slave : ℕ → Bool
on_slave id = leb lpic_slave_icw id && ltb id (lpic_slave_icw + 8)

-- The devices, and the state of `printf`.
pub record PicState (D : Type 0) : Type 0 where
  pub device : D
  pub printf : PrintfState

abbrev pub PicCmd : Type 0 → Type 0 → Type 0
PicCmd D A = Cmd (PicState D) A

-- The bits of an `int`.
abbrev pub int_bits : ℤ → ℕ
int_bits (pos n) = n % 2 ^ 32
int_bits (negsuc n) = 2 ^ 32 - 1 - n % 2 ^ 32

-- `printf` of one of the three messages about a wrong id.
pub invalid_call : {D : Type 0} → List ℕ → ℤ → PicCmd D (Unit {0})
invalid_call format id = do
  _ ← λ s. within (λ p. record s { printf = p }) (vprintf format (word (int_bits id) ∷ []) s.printf)
  pure tt

-- "Invalid call: pic_mask(%d)"
abbrev mask_format : List ℕ
mask_format =
    73 ∷ 110 ∷ 118 ∷ 97 ∷ 108 ∷ 105 ∷ 100 ∷ 32 ∷ 99 ∷ 97 ∷ 108 ∷ 108 ∷ 58 ∷ 32 ∷ 112 ∷ 105 ∷ 99 ∷ 95
    ∷ 109 ∷ 97 ∷ 115 ∷ 107 ∷ 40 ∷ 37 ∷ 100 ∷ 41 ∷ []

-- "Invalid call: pic_unmask(%d)"
abbrev unmask_format : List ℕ
unmask_format =
    73 ∷ 110 ∷ 118 ∷ 97 ∷ 108 ∷ 105 ∷ 100 ∷ 32 ∷ 99 ∷ 97 ∷ 108 ∷ 108 ∷ 58 ∷ 32 ∷ 112 ∷ 105 ∷ 99 ∷ 95
    ∷ 117 ∷ 110 ∷ 109 ∷ 97 ∷ 115 ∷ 107 ∷ 40 ∷ 37 ∷ 100 ∷ 41 ∷ []

-- "Invalid call: send_eoi(%d)"
abbrev eoi_format : List ℕ
eoi_format =
    73 ∷ 110 ∷ 118 ∷ 97 ∷ 108 ∷ 105 ∷ 100 ∷ 32 ∷ 99 ∷ 97 ∷ 108 ∷ 108 ∷ 58 ∷ 32 ∷ 115 ∷ 101 ∷ 110
    ∷ 100 ∷ 95 ∷ 101 ∷ 111 ∷ 105 ∷ 40 ∷ 37 ∷ 100 ∷ 41 ∷ []

module _ {D : Type 0} (io : Ports D) where
  -- The argument of `out8` is cast to a byte.
  abbrev pub out8 : (port value : ℕ) → PicCmd D (Unit {0})
  out8 port value s = ok tt (record s { device = io.out8 port (value % 256) s.device })

  abbrev pub in8 : (port : ℕ) → PicCmd D ℕ
  in8 port s = let (value, device) = io.in8 port s.device in ok value (record s { device = device })

  pub init_pic : PicCmd D (Unit {0})
  init_pic = do
    out8 master_command_reg 17
    out8 master_data_reg lpic_master_icw
    out8 master_data_reg (2 ^ 2)
    out8 master_data_reg 1
    out8 slave_command_reg 17
    out8 slave_data_reg lpic_slave_icw
    out8 slave_data_reg 2
    out8 slave_data_reg 1
    out8 master_int_mask_reg (2 ^ 32 - 1)
    out8 slave_int_mask_reg (2 ^ 32 - 1)

  -- `in8(reg) | (1 << line)`
  abbrev pub set_line : (reg line : ℕ) → PicCmd D (Unit {0})
  set_line reg line = do mask ← in8 reg; out8 reg (lor 32 mask (2 ^ line))

  -- `in8(reg) & ~(1 << line)`
  abbrev pub clear_line : (reg line : ℕ) → PicCmd D (Unit {0})
  clear_line reg line = do mask ← in8 reg; out8 reg (land 32 mask (2 ^ 32 - 1 - 2 ^ line))

  pub pic_mask : ℤ → PicCmd D (Unit {0})
  pic_mask (negsuc n) = invalid_call mask_format (negsuc n)
  pic_mask (pos id) =
      if on_master id
      then set_line master_int_mask_reg (id - lpic_master_icw)
      else if on_slave id
      then set_line slave_int_mask_reg (id - lpic_slave_icw)
      else invalid_call mask_format (pos id)

  pub pic_unmask : ℤ → PicCmd D (Unit {0})
  pic_unmask (negsuc n) = invalid_call unmask_format (negsuc n)
  pic_unmask (pos id) =
      if on_master id
      then clear_line master_int_mask_reg (id - lpic_master_icw)
      else if on_slave id
      then clear_line slave_int_mask_reg (id - lpic_slave_icw)
      else invalid_call unmask_format (pos id)

  pub send_eoi : ℤ → PicCmd D (Unit {0})
  send_eoi (negsuc n) = invalid_call eoi_format (negsuc n)
  send_eoi (pos id) =
      if on_master id
      then out8 master_command_reg 32
      else if on_slave id
      then (do out8 master_command_reg 32; out8 slave_command_reg 32)
      else invalid_call eoi_format (pos id)
