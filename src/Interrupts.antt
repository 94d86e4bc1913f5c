-- ===== src/Interrupts.antt =====
-- The interrupt descriptors and handlers of interrupt.c. The entry points of int_handler.S and the
-- handlers are addresses, and 0 is no handler.
pub mod Gates
mod Tests
use os_course_term.Common.{
  ℕ, zero, suc, ◌+◌, ◌-◌, ◌*◌, ◌/◌, ◌%◌, ◌^◌, Bool, true, false, ltb, ◌==◌, if◌then◌else◌, Outcome,
  ok, fault, Cmd, pure, ◌>>=◌, ◌>>◌, update, Option, none, some,
}

abbrev pub ints_count : ℕ
ints_count = 256

-- The four words of a descriptor.
pub record Gate : Type 0 where
  pub word0 : ℕ
  pub word1 : ℕ
  pub word2 : ℕ
  pub word3 : ℕ

pub record Idt : Type 0 where
  pub int_descriptors : ℕ → Gate
  pub handlers : ℕ → ℕ
  pub base : ℕ
  pub size : ℕ

abbrev pub kernel_code : ℕ
kernel_code = 24

-- The parts that `|` joins have no bit in common.
abbrev pub gate_of : ℕ → Gate
gate_of offset =
    if offset == 0 then record { word0 = 0; word1 = 0; word2 = 0; word3 = 0 } else record {
      word0 = offset % 2 ^ 16 + kernel_code * 2 ^ 16;
      word1 = offset / 2 ^ 16 % 2 ^ 16 * 2 ^ 16 + 2 ^ 15 + 14 * 2 ^ 8;
      word2 = offset / 2 ^ 32 % 2 ^ 32;
      word3 = 0;
    }

pub set_int_descriptor : (id offset : ℕ) → Cmd Idt (Unit {0})
set_int_descriptor id offset s =
    if ltb id ints_count
    then ok tt (record s { int_descriptors = update s.int_descriptors id (gate_of offset) })
    else fault

pub set_int_handler : (interrupt_id handler : ℕ) → Cmd Idt (Unit {0})
set_int_handler interrupt_id handler s =
    if ltb interrupt_id ints_count
    then ok tt (record s { handlers = update s.handlers interrupt_id handler })
    else fault

-- The handler that `int_handler` calls; without one it prints a message.
pub int_handler : ℕ → Cmd Idt (Option ℕ)
int_handler interrupt_id s =
    if ltb interrupt_id ints_count
    then ok (if s.handlers interrupt_id == 0 then none else some (s.handlers interrupt_id)) s
    else fault

pub fill_idt : (int_handlers_asm : ℕ → ℕ) → (rounds i : ℕ) → Cmd Idt (Unit {0})
fill_idt int_handlers_asm zero i = pure tt
fill_idt int_handlers_asm (suc rounds) i = do
  set_int_descriptor i (int_handlers_asm i)
  fill_idt int_handlers_asm rounds (i + 1)

-- `init_idt` for a table at the address; `set_idt` loads what is stored last.
pub init_idt : (int_handlers_asm : ℕ → ℕ) → (address : ℕ) → Cmd Idt (Unit {0})
init_idt int_handlers_asm address = do
  fill_idt int_handlers_asm ints_count 0
  λ s. ok tt (record s { base = address; size = ints_count * 16 - 1 })
