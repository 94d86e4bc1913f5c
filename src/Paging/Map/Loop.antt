-- ===== src/Paging/Map/Loop.antt =====
-- The loop of `map_pages`, and the recursion.
use os_course_term.Common.{
  Refusal, ℕ, zero, suc, ◌+◌, ◌-◌, ◌*◌, ◌%◌, ◌^◌, ◌≤◌, ◌<◌, ◌≡◌, refl, ap, ◌∙◌, inl, inr, arith,
  false, ◌&&◌, ltb, leb, ◌==◌, if◌then◌else◌, Draws, drawn, Draws-bind, Draws-mono, le→leb, lt→leb,
  Bool-cases, add64, sub64, mul64, mul_mono_left,
}
use os_course_term.Paging.{pte_present}
use os_course_term.Paging.Map.{PageState, PageCmd, map_entry, map_entries}
use os_course_term.Paging.Map.Walk.{step}
use os_course_term.Paging.Map.Mapped.{
  TableSupply, IsTree, Maps, Maps-nothing, Maps-trans, Maps-weaken,
}
use os_course_term.Paging.Map.Entry.{IsEntry}
use os_course_term.Paging.Map.Page.{map_page-Maps}
use os_course_term.Paging.Map.Descend.{Deepens, map_below-Maps}

-- The addresses from `from` to `to`, in whole pages, are to be mapped to `off` below them.
pub record IsRequest (off from to phys : ℕ) : Type 0 where
  pub whole_from : from % 4096 ≡ 0
  pub whole_to : to % 4096 ≡ 0
  pub offset : from ≡ off + phys
  pub whole_off : off % 2 ^ 21 ≡ 0
  pub small : to ≤ 2 ^ 48

-- Where the addresses of the range within an entry begin and end.
abbrev pub later : ℕ → ℕ → ℕ
later a b = if ltb a b then b else a

abbrev pub earlier : ℕ → ℕ → ℕ
earlier a b = if ltb a b then a else b

step_ge : (lev : ℕ) → 4096 ≤ step lev
step_ge zero = omega arith
step_ge (suc lev) = omega (arith, step_ge lev)

-- The bounds of an entry are computed without overflow.
start_exact :
    (base size i start : ℕ)
    → start ≡ base + i * size
    → start < 2 ^ 48
    → add64 base (mul64 i size) ≡ start
start_exact base size i start e h = omega arith

end_exact :
    (base size i start : ℕ)
    → start ≡ base + i * size
    → start + size ≤ 2 ^ 48
    → add64 base (mul64 (i + 1) size) ≡ start + size
end_exact base size i start e h =
    let next : (i + 1) * size ≡ i * size + size = grind arith in omega arith

child_start :
    (b i size start : ℕ)
    → start ≡ b * (size * 512 * 512) + i * (size * 512)
    → start ≡ (b * 512 + i) * (size * 512)
child_start b i size start e = grind arith

module _ {P : Type 0} {Empty : Refusal → Type 0} (supply : TableSupply P Empty) where
  -- One round, for an entry that the range meets and that is not present.
  pub map_entry-Maps :
      (deeper : (ptes base_offset : ℕ) → PageCmd P (Unit {0}))
      (lev q b off i start from to phys : ℕ) (s : PageState P) (rank : ℕ → ℕ)
      → IsTree supply s rank
      → rank q ≡ suc lev
      → IsEntry lev b i start
      → pte_present (s.tables q i) ≡ false
      → IsRequest off from to phys
      → start < to
      → from < start + step lev
      → start + step lev ≤ 2 ^ 48
      → ((l : ℕ)
          → lev ≡ suc l
          → Deepens supply deeper l
              (b * 512 + i)
              off
              start
              (later from start)
              (earlier to (start + step lev)))
      → Draws Empty
          (λ _ s'.
            (rank' : ℕ → ℕ) × Maps supply lev q b off i
              (suc i)
              (later from start)
              (earlier to (start + step lev))
              s
              rank
              s'
              rank')
          (map_entry supply.alloc deeper q (b * (step lev * 512)) (step lev) from to phys i s)
  unfolding map_entry
  map_entry-Maps deeper zero q b off i start from to phys s rank v r here absent req meets meets'
        small spec =
      let cur_start = start_exact (b * (4096 * 512)) 4096 i start here.begins (omega arith) in
      let cur_end = end_exact (b * (4096 * 512)) 4096 i start here.begins small in
      let low : from ≤ start = omega (arith, here.begins, req.whole_from) in
      let high : start + 4096 ≤ to = omega (arith, here.begins, req.whole_to) in
      let page : sub64 (add64 phys start) from ≡ start - off =
        omega (arith, req.offset, req.small) in
      let first : later from start ≡ start = ground arith in
      let last : earlier to (start + 4096) ≡ start + 4096 = ground arith in
      simp
        (
          cur_start,
          cur_end,
          lt→leb to start meets,
          lt→leb (start + 4096) from meets',
          le→leb from start low,
          le→leb (start + 4096) to high,
          page,
          first,
          last,
        )
        (map_page-Maps supply 0 q b off i start s rank (omega arith) v r here absent
          (omega (arith, req.offset)) req.whole_off (omega arith))
  map_entry-Maps deeper (suc zero) q b off i start from to phys s rank v r here absent req meets
        meets' small spec =
      let cur_start = start_exact (b * (2097152 * 512)) 2097152 i start here.begins (omega arith) in
      let cur_end = end_exact (b * (2097152 * 512)) 2097152 i start here.begins small in
      let page : from ≤ start → sub64 (add64 phys start) from ≡ start - off =
        λ low. omega (arith, req.offset, req.small) in
      elim (Bool-cases (leb from start && leb (start + 2097152) to)) [
        | inl full ↦
            let low : from ≤ start = ground arith in
            let high : start + 2097152 ≤ to = ground arith in
            let first : later from start ≡ start = ground arith in
            let last : earlier to (start + 2097152) ≡ start + 2097152 = ground arith in
            simp
              (
                cur_start,
                cur_end,
                lt→leb to start meets,
                lt→leb (start + 2097152) from meets',
                full,
                page low,
                first,
                last,
              )
              (map_page-Maps supply 1 q b off i start s rank (omega arith) v r here absent
                (omega (arith, req.offset)) req.whole_off (omega arith))
        | inr part ↦
            simp
              (
                cur_start,
                cur_end,
                lt→leb to start meets,
                lt→leb (start + 2097152) from meets',
                part,
              )
              (map_below-Maps supply deeper 0 q b off i start (later from start)
                (earlier to (start + 2097152)) s rank v r here absent (ground arith) (ground arith)
                (child_start b i 4096 start here.begins) (spec 0 refl))
      ]
  map_entry-Maps deeper (suc (suc l)) q b off i start from to phys s rank v r here absent req meets
        meets' small spec =
      let size : ℕ = step (suc (suc l)) in
      let cur_start = start_exact (b * (size * 512)) size i start here.begins (omega arith) in
      let cur_end = end_exact (b * (size * 512)) size i start here.begins small in
      let no_page : (size == 4096) ≡ false = ground (arith, step_ge l) in
      let no_large : (size == 2097152) ≡ false = ground (arith, step_ge l) in
      simp
        (
          cur_start,
          cur_end,
          lt→leb to start meets,
          lt→leb (start + size) from meets',
          no_page,
          no_large,
        )
        (map_below-Maps supply deeper (suc l) q b off i start (later from start)
          (earlier to (start + size)) s rank v r here absent (ground arith) (ground arith)
          (child_start b i (step (suc l)) start here.begins) (spec (suc l) refl))

  -- The entries from `i` to `n` are met by the range and not present.
  pub record IsMet (lev q b from to i n : ℕ) (s : PageState P) : Type 0 where
    pub inside : n ≤ 512
    pub fits : b * (step lev * 512) + step lev * 512 ≤ 2 ^ 48
    pub after : (j : ℕ) → i ≤ j → j < n → from < b * (step lev * 512) + j * step lev + step lev
    pub before : (j : ℕ) → i ≤ j → j < n → b * (step lev * 512) + j * step lev < to
    pub absent : (j : ℕ) → i ≤ j → j < n → pte_present (s.tables q j) ≡ false

  -- What the recursive calls of the loop do.
  abbrev pub AllDeepen :
      ((ptes base_offset : ℕ) → PageCmd P (Unit {0})) → (lev b off from to : ℕ) → Type 0
  AllDeepen deeper lev b off from to =
      (l j start : ℕ)
      → lev ≡ suc l
      → j < 512
      → start ≡ b * (step lev * 512) + j * step lev
      → Deepens supply deeper l (b * 512 + j) off start (later from start)
          (earlier to (start + step lev))

  pub map_entries-Maps :
      (deeper : (ptes base_offset : ℕ) → PageCmd P (Unit {0}))
      (lev q b off rounds i n from to phys : ℕ) (s : PageState P) (rank : ℕ → ℕ)
      → i + rounds ≡ n
      → IsTree supply s rank
      → rank q ≡ suc lev
      → IsRequest off from to phys
      → IsMet lev q b from to i n s
      → AllDeepen deeper lev b off from to
      → Draws Empty
          (λ _ s'.
            (rank' : ℕ → ℕ) × Maps supply lev q b off i n
              (later from (b * (step lev * 512) + i * step lev))
              (earlier to (b * (step lev * 512) + n * step lev))
              s
              rank
              s'
              rank')
          (map_entries supply.alloc deeper q
            (b * (step lev * 512))
            (step lev)
            from
            to
            phys
            rounds
            i
            s)
  unfolding map_entries
  map_entries-Maps deeper lev q b off zero i n from to phys s rank e v r req met spec =
      let same : n ≡ i = omega arith in
      let base : ℕ = b * (step lev * 512) in
      drawn (
        rank,
        rw same (
            Maps-nothing supply lev q b off i (later from (base + i * step lev))
              (earlier to (base + i * step lev)) s rank v (ground arith)),
      )
  map_entries-Maps deeper lev q b off (suc rounds) i n from to phys s rank e v r req met spec =
      let size : ℕ = step lev in
      let base : ℕ = b * (size * 512) in
      let start : ℕ = base + i * size in
      let inside = met.inside in
      let fits = met.fits in
      let last : i * size + size ≤ size * 512 = entry_end i size (omega arith) in
      let after = met.after i (omega arith) (omega arith) in
      let before = met.before i (omega arith) (omega arith) in
      let next_start : base + (i + 1) * size ≡ start + size = next_entry base i size in
      Draws-bind
        (map_entry-Maps deeper lev q b off i start from to phys s rank v r
          (record { inside = omega arith; begins = refl })
          (met.absent i (omega arith) (omega arith)) req before after (omega arith)
          λ l el. spec l i start el (omega arith) refl)
        λ _ s1 (rank1, m).
          Draws-mono
            (map_entries-Maps deeper lev q b off rounds (i + 1) n from to phys s1 rank1
              (omega arith) m.tree (m.grows q lev r) req
              (record {
                inside = inside;
                fits = fits;
                after = λ j h g. met.after j (omega arith) g;
                before = λ j h g. met.before j (omega arith) g;
                absent = λ j h g.
                    ap pte_present (m.entries j (omega arith) (inr (omega arith)))
                    ∙ met.absent j (omega arith) g;
              })
              spec)
            λ _ s2 (rank2, w). (
              rank2,
              Maps-trans supply lev q b off i (suc i) n (later from start)
                  (earlier to (start + size)) (later from (base + (i + 1) * size))
                  (earlier to (base + n * size)) (later from start) (earlier to (base + n * size)) s
                  s1 s2 rank rank1 rank2 (omega arith) (omega arith)
                  (λ lin. ground (arith, next_start, mul_mono_left (i + 1) n size (omega arith))) m
                  (Maps-weaken supply lev q b off (i + 1) n (suc i) n
                    (later from (base + (i + 1) * size)) (earlier to (base + n * size))
                    (later from (base + (i + 1) * size)) (earlier to (base + n * size)) s1 s2 rank1
                    rank2 (omega arith) (omega arith) (λ lin h g. refl) w),
            )
    where
      entry_end : (i size : ℕ) → i < 512 → i * size + size ≤ size * 512
      entry_end i size h = omega (arith, mul_mono_left (suc i) 512 size h, suc_mul i size)
        where
          suc_mul : (i size : ℕ) → suc i * size ≡ i * size + size
          suc_mul i size = grind arith

      next_entry : (base i size : ℕ) → base + (i + 1) * size ≡ base + i * size + size
      next_entry base i size = grind arith
