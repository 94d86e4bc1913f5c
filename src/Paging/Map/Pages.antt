-- ===== src/Paging/Map/Pages.antt =====
-- `map_pages`: exactly the addresses of its range are mapped, on a table whose entries for them are
-- not present.
use os_course_term.Common.{
  Refusal, ℕ, zero, suc, ◌+◌, ◌-◌, ◌*◌, ◌/◌, ◌%◌, ◌^◌, ◌≤◌, ◌<◌, ◌≡◌, refl, sym, ap, ◌∙◌, ◌⊎◌, inl,
  inr, arith, false, ltb, leb, if◌then◌else◌, Draws, drawn, Draws-mono, lt→ltb, le→leb, leb→le,
  Bool-cases, add64, sub64, mul64,
}
use native.Mathlib.Nat.{mul-mod_left}
use os_course_term.Paging.{pte_present}
use os_course_term.Paging.Map.{PageState, PageCmd, map_range, map_pages}
use os_course_term.Paging.Map.Walk.{step}
use os_course_term.Paging.Map.Mapped.{
  TableSupply, IsTree, Maps, Maps-nothing, Maps-weaken, within_range,
}
use os_course_term.Paging.Map.Entry.{step_pos}
use os_course_term.Paging.Map.Loop.{IsRequest, later, earlier, AllDeepen, map_entries-Maps}
use os_course_term.Paging.Map.Range.{child-bounds, Spans-range, Spans-met, Spans-apart}

-- The addresses of a table begin and end with whole pages.
step-pages : (lev : ℕ) → (k : ℕ) × (step lev ≡ k * 4096)
step-pages zero = (1, omega arith)
step-pages (suc lev) = let (k, e) = step-pages lev in (k * 512, omega arith)

table_pages : (lev b : ℕ) → (b * (step lev * 512)) % 4096 ≡ 0
table_pages lev b =
    let (k, e) = step-pages lev in
    let m : ℕ = b * (k * 512) in
    let product : b * (step lev * 512) ≡ m * 4096 = rw e (grind arith) in omega (arith, product)

cut-IsRequest :
    (lev b off from to phys shift : ℕ)
    → IsRequest off from to phys
    → shift ≡ later from (b * (step lev * 512)) - from
    → IsRequest off
        (later from (b * (step lev * 512)))
        (earlier to (b * (step lev * 512) + step lev * 512))
        (phys + shift)
cut-IsRequest lev b off from to phys shift req e =
    let start_whole = table_pages lev b in
    let (k, size) = step-pages lev in
    let whole_from = req.whole_from in
    let whole_to = req.whole_to in
    let offset = req.offset in
    let small = req.small in
    record {
      whole_from = ground arith;
      whole_to = ground arith;
      offset = ground arith;
      whole_off = req.whole_off;
      small = ground arith;
    }

-- Within a range, another one may be cut to it.
cut_range :
    (a b c d lin : ℕ)
    → c ≤ lin
    → lin < d
    → within_range a b lin ≡ within_range (later a c) (earlier b d) lin
cut_range a b c d lin h g = ground arith

module _ {P : Type 0} {Empty : Refusal → Type 0} (supply : TableSupply P Empty) where
  -- The entries of the range are not present.
  abbrev pub IsUnmapped : PageState P → (lev q b from to : ℕ) → Type 0
  IsUnmapped s lev q b from to =
      (j : ℕ)
      → j < 512
      → from < b * (step lev * 512) + j * step lev + step lev
      → b * (step lev * 512) + j * step lev < to
      → pte_present (s.tables q j) ≡ false

  -- The range is mapped, and entries that it does not meet are unchanged.
  pub record MapsAll (lev q b off from to : ℕ) (s : PageState P) (rank : ℕ → ℕ) (s' : PageState P)
      (rank' : ℕ → ℕ) : Type 0 where
    pub first : ℕ
    pub last : ℕ
    pub inside : last ≤ 512
    pub apart :
        (j : ℕ)
        → j < 512
        → (b * (step lev * 512) + j * step lev + step lev ≤ from)
          ⊎ (to ≤ b * (step lev * 512) + j * step lev)
        → (j < first) ⊎ (last ≤ j)
    pub maps : Maps supply lev q b off first last from to s rank s' rank'

  map_range-Maps :
      (deeper : (ptes base_offset lin_start lin_end phys_start : ℕ) → PageCmd P (Unit {0}))
      (lev q b off from to phys : ℕ) (s : PageState P) (rank : ℕ → ℕ)
      → IsTree supply s rank
      → rank q ≡ suc lev
      → IsRequest off from to phys
      → b * (step lev * 512) ≤ from
      → to ≤ b * (step lev * 512) + step lev * 512
      → b * (step lev * 512) + step lev * 512 ≤ 2 ^ 48
      → IsUnmapped s lev q b from to
      → (from < to → AllDeepen supply (λ t d. deeper t d from to phys) lev b off from to)
      → Draws Empty
          (λ _ s'. (rank' : ℕ → ℕ) × MapsAll lev q b off from to s rank s' rank')
          (map_range supply.alloc deeper q (b * (step lev * 512)) (step lev) from to phys s)
  unfolding map_range
  map_range-Maps deeper lev q b off from to phys s rank v r req low high fits absent spec =
      let size : ℕ = step lev in
      let base : ℕ = b * (size * 512) in
      elim (Bool-cases (leb to from)) [
        | inl empty ↦
            let none_left : to ≤ from = leb→le to from empty in
            rw empty (
              drawn (
                rank,
                record {
                  first = 0;
                  last = 0;
                  inside = omega arith;
                  apart = λ j h o. inr (omega arith);
                  maps = Maps-nothing supply lev q b off 0 from to s rank v none_left;
                },
              ))
        | inr some ↦
            let lt : from < to = ground arith in
            let first : ℕ = (from - base) / size in
            let last : ℕ = (to - base + size - 1) / size in
            let spans =
              Spans-range size (from - base) (to - base) (step_pos lev) (omega arith)
                (omega arith) in
            let low_exact : sub64 from base ≡ from - base = omega (arith, req.small) in
            let high_exact : sub64 (add64 (sub64 to base) size) 1 ≡ to - base + size - 1 =
              omega (arith, step_pos lev, req.small) in
            simp
              (
                some,
                low_exact,
                high_exact,
                lt→ltb first last spans.some,
                le→leb last 512 spans.inside,
              )
              (Draws-mono
                (map_entries-Maps supply (λ t d. deeper t d from to phys) lev q b off (last - first)
                  first last from to phys s rank (omega (arith, spans.some)) v r req
                  (record {
                    inside = spans.inside;
                    fits = fits;
                    after = λ j h g. let m = Spans-met spans j h g in omega arith;
                    before = λ j h g. let m = Spans-met spans j h g in omega arith;
                    absent = λ j h g.
                        let m = Spans-met spans j h g in
                        absent j (omega (arith, spans.inside)) (omega arith) (omega arith);
                  })
                  (spec lt))
                λ _ s' (rank', m). (
                  rank',
                  record {
                    first = first;
                    last = last;
                    inside = spans.inside;
                    apart = λ j h o. Spans-apart spans j (counted j o);
                    maps =
                        Maps-weaken supply lev q b off first last first last
                          (later from (base + first * size)) (earlier to (base + last * size)) from
                          to s s' rank rank' (omega arith) (omega arith)
                          (λ lin h g. ground (arith, spans.begins, spans.ends)) m;
                  },
                ))
      ]
    where
      counted :
          (j : ℕ)
          → (b * (step lev * 512) + j * step lev + step lev ≤ from)
            ⊎ (to ≤ b * (step lev * 512) + j * step lev)
          → (j * step lev + step lev ≤ from - b * (step lev * 512))
            ⊎ (to - b * (step lev * 512) ≤ j * step lev)
      counted j (inl p) = inl (omega arith)
      counted j (inr p) = inr (omega arith)

  -- On a table of level `lev`, of addresses below 2^48, whose entries for the range are not present,
  -- and for a range that starts and ends with whole pages and an `off` that is a multiple of 2 MiB,
  -- `map_pages` maps exactly the addresses of the range that the table covers, each to `off` below
  -- it, and changes no other translation; or it ends as the source does when it refuses a table.
  pub map_pages-MapsAll :
      (depth lev q b off from to phys : ℕ) (s : PageState P) (rank : ℕ → ℕ)
      → lev < depth
      → IsTree supply s rank
      → rank q ≡ suc lev
      → b * (step lev * 512) + step lev * 512 ≤ 2 ^ 48
      → from < to
      → IsRequest off from to phys
      → IsUnmapped s lev q b from to
      → Draws Empty
          (λ _ s'. (rank' : ℕ → ℕ) × MapsAll lev q b off from to s rank s' rank')
          (map_pages supply.alloc depth q (b * (step lev * 512)) (step lev) from to phys s)
  unfolding map_pages
  map_pages-MapsAll zero lev q b off from to phys s rank h v r fits lt req absent =
      absurd (omega arith)
  map_pages-MapsAll (suc depth) lev q b off from to phys s rank h v r fits lt req absent =
      let size : ℕ = step lev in
      let base : ℕ = b * (size * 512) in
      let end : ℕ = base + size * 512 in
      let small = req.small in
      let offset = req.offset in
      let table_end : add64 base (mul64 512 size) ≡ end = omega arith in
      let shift : ℕ = later from base - from in
      let shift_exact : (if ltb from base then sub64 base from else 0) ≡ shift = ground arith in
      let from_exact : add64 from shift ≡ later from base = ground arith in
      let phys_exact : add64 phys shift ≡ phys + shift = ground arith in
      let product : base ≡ b * 512 * size = grind arith in
      let whole : base % size ≡ 0 =
        ap (λ (n : ℕ). n % size) product ∙ mul-mod_left (b * 512) size in
      let end_exact : (if ltb end to then end else to) ≡ earlier to end = ground arith in
      simp (lt→ltb from to lt, whole, table_end, shift_exact, from_exact, phys_exact, end_exact)
        (Draws-mono
          (map_range-Maps
            (λ t d lin_start lin_end phys_start.
              map_pages supply.alloc depth t d (size / 512) lin_start lin_end phys_start)
            lev q b off (later from base) (earlier to end) (phys + shift) s rank v r
            (cut-IsRequest lev b off from to phys shift req refl) (ground arith) (ground arith) fits
            (λ j hj a c. absent j hj (ground arith) (ground arith))
            λ lt' l j start el hj es s1 rank1 u v1 r1 empty.
              let (begins, half, fits') = child-bounds lev l b j start el hj es fits in
              rw (half, begins)
                (Draws-mono
                  (map_pages-MapsAll depth l u (b * 512 + j) off (later from base) (earlier to end)
                    (phys + shift) s1 rank1 (omega arith) v1 r1 fits' lt'
                    (cut-IsRequest lev b off from to phys shift req refl) λ k hk a c. empty k hk)
                  λ _ s2 (rank2, m). (
                    rank2,
                    Maps-weaken supply l u (b * 512 + j) off m.first m.last 0 512 (later from base)
                        (earlier to end) (later (later from base) ((b * 512 + j) * (step l * 512)))
                        (earlier (earlier to end) ((b * 512 + j) * (step l * 512) + size)) s1 s2
                        rank1 rank2 (omega arith) m.inside
                        (λ lin p g.
                          cut_range (later from base) (earlier to end)
                            ((b * 512 + j) * (step l * 512)) ((b * 512 + j) * (step l * 512) + size)
                            lin p (omega (arith, ap step el)))
                        m.maps,
                  )))
          λ _ s' (rank', m). (
            rank',
            record {
              first = m.first;
              last = m.last;
              inside = m.inside;
              apart = λ j hj o. m.apart j hj (cut_apart (j * size) o);
              maps =
                  Maps-weaken supply lev q b off m.first m.last m.first m.last (later from base)
                    (earlier to end) from to s s' rank rank' (omega arith) (omega arith)
                    (λ lin p g. sym (cut_range from to base end lin p g)) m.maps;
            },
          ))
    where
      cut_apart :
          (x : ℕ)
          → (b * (step lev * 512) + x + step lev ≤ from) ⊎ (to ≤ b * (step lev * 512) + x)
          → (b * (step lev * 512) + x + step lev ≤ later from (b * (step lev * 512)))
            ⊎ (earlier to (b * (step lev * 512) + step lev * 512) ≤ b * (step lev * 512) + x)
      cut_apart x (inl p) = inl (ground arith)
      cut_apart x (inr p) = inr (ground arith)
