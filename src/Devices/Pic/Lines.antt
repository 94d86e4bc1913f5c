-- ===== src/Devices/Pic/Lines.antt =====
-- What the functions of pic.c do to the two chips.
use os_course_term.Common.{
  ℕ, ◌+◌, ◌-◌, ◌%◌, ◌^◌, ◌<◌, ◌≡◌, refl, ap, ◌∙◌, arith, true, false, ltb, leb, ◌==◌, if◌then◌else◌,
  pos, Returns, returns, bit, bit-lor, bit-land, bit-pow2, bit_flip, bit_cast, bit_le, lor, land,
  pow2_mono,
}
use os_course_term.Devices.{Ports}
use os_course_term.Devices.Pic.{
  PicState, lpic_master_icw, lpic_slave_icw, init_pic, set_line, clear_line, pic_mask, pic_unmask,
  send_eoi,
}
use os_course_term.Devices.Pic.Chips.{
  Chip, written, served, Side, master, slave, operating, other, command_reg, data_reg, IsPicPair,
}

-- The interrupt of a line of a chip.
abbrev pub interrupt_of : Side → ℕ → ℕ
interrupt_of master line = lpic_master_icw + line
interrupt_of slave line = lpic_slave_icw + line

module _ {D : Type 0} (io : Ports D) (pic : IsPicPair io) where
  write_to :
      (b : Side) (x : ℕ)
      → x < 256
      → (d : D)
      → pic.chip b (io.out8 (data_reg b) x d) ≡ written (pic.chip b d).phase x (pic.chip b d)
  write_to b x h d = pic.write b x d h

  -- `init_pic` puts both chips in operation: their interrupts start at 0x20 and 0x28, the slave is
  -- wired to line 2 of the master, and all lines are masked.
  pub init_pic-Chips :
      (s : PicState D)
      → Returns
          (λ _ s'.
            (pic.chip master s'.device ≡ record (pic.chip master s.device) {
              phase = operating;
              vector = lpic_master_icw;
              wiring = 2 ^ 2;
              mode = 1;
              mask = 255;
            })
            × (pic.chip slave s'.device ≡ record (pic.chip slave s.device) {
              phase = operating;
              vector = lpic_slave_icw;
              wiring = 2;
              mode = 1;
              mask = 255;
            }))
          (init_pic io s)
  unfolding init_pic
  init_pic-Chips s = returns (
    simp
        (
          pic.data_apart slave,
          pic.command_apart slave,
          write_to master 255 (omega arith),
          write_to master 1 (omega arith),
          write_to master 4 (omega arith),
          write_to master 32 (omega arith),
          pic.start master,
        )
        refl,
    simp
        (
          pic.data_apart master,
          pic.command_apart master,
          write_to slave 255 (omega arith),
          write_to slave 1 (omega arith),
          write_to slave 2 (omega arith),
          write_to slave 40 (omega arith),
          pic.start slave,
        )
        refl,
  )

  -- Bit `line` of the mask of chip `b` becomes `v`, and nothing else changes.
  pub record SetsLine (b : Side) (line v : ℕ) (s s' : PicState D) : Type 0 where
    pub bits :
        (j : ℕ)
        → j < 8
        → bit j (pic.chip b s'.device).mask
          ≡ (if j == line then v else bit j (pic.chip b s.device).mask)
    pub rest :
        pic.chip b s'.device ≡ record (pic.chip b s.device) { mask = (pic.chip b s'.device).mask }
    pub apart : pic.chip (other b) s'.device ≡ pic.chip (other b) s.device
    pub printf : s'.printf ≡ s.printf

  module _ (b : Side) (line : ℕ) (h : line < 8) (s : PicState D)
      (ready : (pic.chip b s.device).phase ≡ operating) where
    abbrev mask : ℕ
    mask = (pic.chip b s.device).mask

    -- A write of the mask.
    sets :
        (v x : ℕ)
        → ((j : ℕ) → j < 8 → bit j x ≡ (if j == line then v else bit j mask))
        → SetsLine b line v s (record s { device = io.out8 (data_reg b) (x % 256) s.device })
    sets v x e =
        let w = pic.write b (x % 256) s.device (omega arith) in
        let w' : pic.chip b (io.out8 (data_reg b) (x % 256) s.device)
            ≡ record (pic.chip b s.device) { mask = x % 256 } =
          w ∙ rw ready refl in
        record {
          bits = λ j lt. rw w' (bit_cast 8 j x lt ∙ e j lt);
          rest = rw w' refl;
          apart = pic.data_apart b (x % 256) s.device;
          printf = refl;
        }

    set_line-SetsLine : Returns (λ _ s'. SetsLine b line 1 s s') (set_line io (data_reg b) line s)
    set_line-SetsLine = rw (pic.read b s.device ready) (
        returns (
          sets 1 (lor 32 mask (2 ^ line)) λ j lt.
            rw (bit-lor 32 j mask (2 ^ line) (omega arith), bit-pow2 j line)
              (ground (arith, bit_le j mask))))

    clear_line-SetsLine :
        Returns (λ _ s'. SetsLine b line 0 s s') (clear_line io (data_reg b) line s)
    clear_line-SetsLine =
        let small : 2 ^ line < 2 ^ 32 = omega (arith, pow2_mono line 7 (omega arith)) in
        rw (pic.read b s.device ready) (
          returns (
            sets 0 (land 32 mask (2 ^ 32 - 1 - 2 ^ line)) λ j lt.
              rw
                (
                  bit-land 32 j mask (2 ^ 32 - 1 - 2 ^ line) (omega arith),
                  bit_flip 32 j (2 ^ line) (omega arith) small,
                  bit-pow2 j line,
                )
                (ground (arith, bit_le j mask))))

    -- On a chip in operation, `pic_mask` sets the bit of the interrupt's line in the mask of its chip,
    -- `pic_unmask` clears it, and neither changes another bit or the other chip.
    pub pic_mask-SetsLine :
        Returns (λ _ s'. SetsLine b line 1 s s') (pic_mask io (pos (interrupt_of b line)) s)
        × Returns (λ _ s'. SetsLine b line 0 s s') (pic_unmask io (pos (interrupt_of b line)) s)
    unfolding pic_mask pic_unmask
    pic_mask-SetsLine = at b set_line-SetsLine clear_line-SetsLine
      where
        at :
            (c : Side)
            → Returns (λ _ s'. SetsLine b line 1 s s') (set_line io (data_reg c) line s)
            → Returns (λ _ s'. SetsLine b line 0 s s') (clear_line io (data_reg c) line s)
            → Returns (λ _ s'. SetsLine b line 1 s s') (pic_mask io (pos (interrupt_of c line)) s)
              × Returns
                  (λ _ s'. SetsLine b line 0 s s')
                  (pic_unmask io (pos (interrupt_of c line)) s)
        at master p q =
            let below : ltb (32 + line) (32 + 8) ≡ true = ground arith in
            let above : leb 32 (32 + line) ≡ true = ground arith in
            let same : 32 + line - 32 ≡ line = omega arith in
            (simp (below, above, same) p, simp (below, above, same) q)
        at slave p q =
            let outside : ltb (40 + line) (32 + 8) ≡ false = ground arith in
            let below : ltb (40 + line) (40 + 8) ≡ true = ground arith in
            let reaches : leb 32 (40 + line) ≡ true = ground arith in
            let above : leb 40 (40 + line) ≡ true = ground arith in
            let same : 40 + line - 40 ≡ line = omega arith in
            (
              simp (outside, below, reaches, above, same) p,
              simp (outside, below, reaches, above, same) q,
            )

  -- What is served on the slave.
  abbrev pub served_if : Side → Chip → Chip
  served_if master c = c
  served_if slave c = served c

  -- On chips in operation, `send_eoi` of an interrupt of the master ends the interrupt in service there,
  -- and of one of the slave that on both chips.
  pub send_eoi-served :
      (b : Side) (line : ℕ) (s : PicState D)
      → line < 8
      → ((c : Side) → (pic.chip c s.device).phase ≡ operating)
      → Returns
          (λ _ s'.
            (pic.chip master s'.device ≡ served (pic.chip master s.device))
            × (pic.chip slave s'.device ≡ served_if b (pic.chip slave s.device)))
          (send_eoi io (pos (interrupt_of b line)) s)
  unfolding send_eoi
  send_eoi-served master line s h ready =
      let below : ltb (32 + line) (32 + 8) ≡ true = ground arith in
      let above : leb 32 (32 + line) ≡ true = ground arith in
      simp (below, above)
        (returns (pic.serve master s.device (ready master), pic.command_apart master 32 s.device))
  send_eoi-served slave line s h ready =
      let outside : ltb (40 + line) (32 + 8) ≡ false = ground arith in
      let below : ltb (40 + line) (40 + 8) ≡ true = ground arith in
      let reaches : leb 32 (40 + line) ≡ true = ground arith in
      let above : leb 40 (40 + line) ≡ true = ground arith in
      let d : D = io.out8 (command_reg master) 32 s.device in
      let same : pic.chip slave d ≡ pic.chip slave s.device =
        pic.command_apart master 32 s.device in
      simp (outside, below, reaches, above)
        (returns (
          pic.command_apart slave 32 d ∙ pic.serve master s.device (ready master),
          pic.serve slave d (rw same (ready slave)) ∙ ap served same,
        ))
