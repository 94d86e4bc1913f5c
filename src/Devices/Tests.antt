-- ===== src/Devices/Tests.antt =====
-- Devices that behave as documented, and the theorems at them.
use os_course_term.Common.{
  ℕ, ◌+◌, ◌-◌, ◌*◌, ◌<◌, ◌≡◌, refl, arith, true, ◌==◌, if◌then◌else◌, [], ◌∷◌, ◌++◌, bit, pos,
  Returns,
}
use os_course_term.Devices.{Ports}
use os_course_term.Devices.Pic.{PicState, init_pic, pic_mask, pic_unmask, send_eoi}
use os_course_term.Devices.Pic.Chips.{
  Chip, operating, started, written, served, Side, master, slave, other, command_reg, data_reg,
  IsPicPair,
}
use os_course_term.Devices.Pic.Lines.{SetsLine, init_pic-Chips, pic_mask-SetsLine, send_eoi-served}
use os_course_term.Devices.Pit.{Channel, IsPit, init_pit, init_pit-divides}
use os_course_term.Devices.Serial.{SerialState, init_serial, puts}
use os_course_term.Devices.Serial.Uart.{Uart, int_written, IsUart}
use os_course_term.Devices.Serial.Send.{Sent, init_serial-Uart, puts-Sent}

-- The two interrupt controllers.
abbrev pic_command : (x : ℕ) → Chip → Chip
pic_command x c = if x == 17 then started c else if x == 32 then served c else c

abbrev pic_ports : Ports (Side → Chip)
pic_ports = record {
  out8 = λ port x d b.
      if port == command_reg b
      then pic_command x (d b)
      else if port == data_reg b
      then written (d b).phase x (d b)
      else d b;
  in8 = λ port d. (if port == 33 then (d master).mask else (d slave).mask, d);
}

pic_pair : IsPicPair pic_ports
pic_pair = record {
  chip = λ b d. d b;
  start = start;
  write = write;
  serve = serve;
  read = read;
  command_apart = command_apart;
  data_apart = data_apart;
}
  where
    start : (b : Side) (d : Side → Chip) → pic_ports.out8 (command_reg b) 17 d b ≡ started (d b)
    start master d = refl
    start slave d = refl

    write :
        (b : Side) (x : ℕ) (d : Side → Chip)
        → x < 256
        → pic_ports.out8 (data_reg b) x d b ≡ written (d b).phase x (d b)
    write master x d h = refl
    write slave x d h = refl

    serve :
        (b : Side) (d : Side → Chip)
        → (d b).phase ≡ operating
        → pic_ports.out8 (command_reg b) 32 d b ≡ served (d b)
    serve master d h = refl
    serve slave d h = refl

    read :
        (b : Side) (d : Side → Chip)
        → (d b).phase ≡ operating
        → pic_ports.in8 (data_reg b) d ≡ ((d b).mask, d)
    read master d h = refl
    read slave d h = refl

    command_apart :
        (b : Side) (x : ℕ) (d : Side → Chip)
        → pic_ports.out8 (command_reg b) x d (other b) ≡ d (other b)
    command_apart master x d = refl
    command_apart slave x d = refl

    data_apart :
        (b : Side) (x : ℕ) (d : Side → Chip)
        → pic_ports.out8 (data_reg b) x d (other b) ≡ d (other b)
    data_apart master x d = refl
    data_apart slave x d = refl

-- Both chips are in operation, and line 2 of each is in service.
abbrev both_chips : PicState (Side → Chip)
both_chips = record {
  device = λ b. record {
    phase = operating;
    vector = 8;
    wiring = 4;
    mode = 1;
    mask = 251;
    in_service = 2 ∷ [];
  };
  printf = record {
    printf_lock = record { locked = 0; owner = 0 };
    current_thread = 1;
    interrupts = true;
    output = [];
    stores = [];
  };
}

init_pic-Chips_example :
    Returns
      (λ _ s'.
        (s'.device master ≡ record {
          phase = operating;
          vector = 32;
          wiring = 4;
          mode = 1;
          mask = 255;
          in_service = 2 ∷ [];
        })
        × (s'.device slave ≡ record {
          phase = operating;
          vector = 40;
          wiring = 2;
          mode = 1;
          mask = 255;
          in_service = 2 ∷ [];
        }))
      (init_pic pic_ports both_chips)
unfolding pic_pair
init_pic-Chips_example = init_pic-Chips pic_ports pic_pair both_chips

pic_mask-SetsLine_example :
    Returns
      (λ _ s'. SetsLine pic_ports pic_pair slave 2 1 both_chips s')
      (pic_mask pic_ports (pos 42) both_chips)
    × Returns
        (λ _ s'. SetsLine pic_ports pic_pair slave 2 0 both_chips s')
        (pic_unmask pic_ports (pos 42) both_chips)
unfolding pic_pair
pic_mask-SetsLine_example =
    pic_mask-SetsLine pic_ports pic_pair slave 2 (omega arith) both_chips refl

send_eoi-served_example :
    Returns
      (λ _ s'.
        (s'.device master ≡ served (both_chips.device master))
        × (s'.device slave ≡ served (both_chips.device slave)))
      (send_eoi pic_ports (pos 42) both_chips)
unfolding pic_pair
send_eoi-served_example =
    send_eoi-served pic_ports pic_pair slave 2 both_chips (omega arith) (λ c. refl)

-- The timer.
abbrev pit_ports : Ports Channel
pit_ports = record {
  out8 = λ port x c.
      if port == 67
      then record c { mode = 2; half = 0 }
      else if c.half == 0
      then record c { low = x; half = 1 }
      else record c { reload = c.low + 256 * x; half = 0 };
  in8 = λ port c. (0, c);
}

timer : IsPit pit_ports
timer = record {
  channel = λ d. d;
  control = λ d. refl;
  first = λ x d h e. rw e refl;
  second = λ x d h e. rw e refl;
}

-- Every millisecond.
init_pit-divides_example :
    Returns
      (λ _ d'. (d'.mode ≡ 2) × (d'.reload ≡ 1000))
      (init_pit pit_ports 1000 (record { mode = 0; reload = 0; low = 0; half = 0 }))
unfolding timer
init_pit-divides_example =
    init_pit-divides pit_ports timer 1000 (record { mode = 0; reload = 0; low = 0; half = 0 })
      (omega arith)

-- A serial port that takes three reads of the status to send a byte, and loses what is written before.
record Line : Type 0 where
  pub chip : Uart
  pub left : ℕ

abbrev data_written : (x : ℕ) → Line → Uart
data_written x d =
    if bit 7 d.chip.lcr == 1
    then record d.chip { latch_low = x }
    else if d.left == 0
    then record d.chip { sent = d.chip.sent ++ (x ∷ []) }
    else d.chip

abbrev serial_ports : Ports Line
serial_ports = record {
  out8 = λ port x d.
      if port == 1016
      then record { chip = data_written x d; left = 3 }
      else if port == 1017
      then record d { chip = int_written x d.chip }
      else if port == 1019
      then record d { chip = record d.chip { lcr = x } }
      else d;
  in8 = λ port d. (if d.left == 0 then 32 else 0, record d { left = d.left - 1 });
}

serial_uart : IsUart serial_ports
serial_uart = record {
  uart = λ d. d.chip;
  wait = λ d. d.left;
  slow = 3;
  control = λ x d h. refl;
  latch_lem = λ x d h e. rw e refl;
  send_lem = λ x d h line e. rw (line, e) refl;
  int_lem = λ x d h. refl;
  wait_bound = λ x d. omega arith;
  status_keeps = λ d. refl;
  status_over = λ d e. rw e refl;
  status_idle = λ d e. ground (arith, e);
  status_less = λ n d e. omega (arith, e);
}

abbrev quiet_line : SerialState Line
quiet_line = record {
  device = record {
    chip = record { lcr = 3; latch_low = 12; latch_high = 0; enabled = 0; sent = [] };
    left = 0;
  };
  serial_lock = record { locked = 0; owner = 0 };
  current_thread = 1;
  interrupts = true;
}

init_serial-Uart_example :
    Returns
      (λ _ s'.
        s'.device.chip ≡ record { lcr = 3; latch_low = 12; latch_high = 0; enabled = 0; sent = [] })
      (init_serial serial_ports quiet_line)
unfolding serial_uart
init_serial-Uart_example = init_serial-Uart serial_ports serial_uart quiet_line

-- "OK"
puts-Sent_example :
    Returns
      (λ _ s'. Sent serial_ports serial_uart quiet_line (79 ∷ 75 ∷ 10 ∷ []) s')
      (puts serial_ports 4 (79 ∷ 75 ∷ []) quiet_line)
unfolding serial_uart
puts-Sent_example =
    puts-Sent serial_ports serial_uart 4 (79 ∷ 75 ∷ []) quiet_line (omega arith)
      (omega arith, (omega arith, tt)) refl refl refl
