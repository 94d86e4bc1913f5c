-- ===== src/Paging/Map/Entry.antt =====
-- One round of the loop of `map_pages`: `map_page` and `map_below`.
use os_course_term.Common.{
  Refusal, ℕ, zero, suc, ◌+◌, ◌-◌, ◌*◌, ◌/◌, ◌%◌, ◌≤◌, ◌<◌, ◌≡◌, refl, sym, ap, ◌∙◌, ◌≢◌, ◌⊎◌, inl,
  inr, arith, true, false, if◌then◌else◌, none, some, ℕ_discrete, update, subst,
}
use os_course_term.Memory.{va}
use os_course_term.Paging.{pte_present, pte_large, pte_phys}
use os_course_term.Paging.Map.{PageState}
use os_course_term.Paging.Map.Walk.{step, index, walk, IsClosed, walk-absent, walk-unchanged}
use os_course_term.Paging.Map.Mapped.{
  TableSupply, index-bounds, index-eq, within_range, IsTree, Maps,
}

pub step_pos : (lev : ℕ) → 1 ≤ step lev
step_pos zero = omega arith
step_pos (suc lev) = omega (arith, step_pos lev)

-- Entry `i` stands for the addresses from `start` on.
pub record IsEntry (lev b i start : ℕ) : Type 0 where
  pub inside : i < 512
  pub begins : start ≡ b * (step lev * 512) + i * step lev

module _ {lev b i start : ℕ} (here : IsEntry lev b i start) (lin : ℕ) where
  pub IsEntry-index : start ≤ lin → lin < start + step lev → index lev lin ≡ i
  IsEntry-index h g =
      index-eq (step lev) b lin i (step_pos lev) here.inside (omega (arith, here.begins))
        (omega (arith, here.begins))

  -- An address of the table that has another entry lies in none of those of the entry.
  pub IsEntry-other :
      b * (step lev * 512) ≤ lin
      → lin < b * (step lev * 512) + step lev * 512
      → index lev lin ≡ i
      → (start ≤ lin) × (lin < start + step lev)
  IsEntry-other h g e =
      let (low, high) = index-bounds (step lev) b lin (step_pos lev) h g in
      let same : lin / step lev % 512 * step lev ≡ i * step lev = ap (λ (t : ℕ). t * step lev) e in
      (omega (arith, here.begins), omega (arith, here.begins))

-- The table that an entry leads to, where the entry is that of a closed memory of tables.
pub closed-at :
    (rank : ℕ → ℕ) (tables : ℕ → ℕ → ℕ)
    → IsClosed rank tables
    → (l t j pte : ℕ) → pte ≡ tables t j
    → rank t ≡ suc (suc l)
    → j < 512
    → pte_present pte ≡ true
    → pte_large pte ≡ false
    → rank (va (pte_phys pte)) ≡ suc l
closed-at rank tables closed l t j pte e rt hj =
    subst (λ (x : ℕ). pte_present x ≡ true → pte_large x ≡ false → rank (va (pte_phys x)) ≡ suc l)
      (sym e) (closed l t j rt hj)

module _ {P : Type 0} {Empty : Refusal → Type 0} (supply : TableSupply P Empty) where
  -- A table and its entry are written.
  abbrev pub put : PageState P → (q i pte : ℕ) → PageState P
  put s q i pte = record s { tables = update s.tables q (update (s.tables q) i pte) }

  pub put_here : (s : PageState P) (q i pte : ℕ) → (put s q i pte).tables q i ≡ pte
  put_here s q i pte = ground arith

  pub put_there :
      (s : PageState P) (q i pte u j : ℕ)
      → (u ≢ q) ⊎ (j ≢ i)
      → (put s q i pte).tables u j ≡ s.tables u j
  put_there s q i pte u j (inl ne) = ground arith
  put_there s q i pte u j (inr ne) = ground arith

  -- After a change of one entry that is not present, the addresses of other entries are translated
  -- as before, and those of the entry were not mapped.
  pub Maps-one :
      (lev q b off i start from to : ℕ) (s s' : PageState P) (rank rank' : ℕ → ℕ)
      → IsTree supply s rank
      → rank q ≡ suc lev
      → IsEntry lev b i start
      → pte_present (s.tables q i) ≡ false
      → start ≤ from
      → to ≤ start + step lev
      → IsTree supply s' rank'
      → ((u l : ℕ) → rank u ≡ suc l → rank' u ≡ suc l)
      → ((u l j : ℕ) → rank u ≡ suc l → u ≢ q → j < 512 → s'.tables u j ≡ s.tables u j)
      → ((j : ℕ) → j < 512 → j ≢ i → s'.tables q j ≡ s.tables q j)
      → ((lin : ℕ)
          → index lev lin ≡ i
          → start ≤ lin
          → lin < start + step lev
          → walk s'.tables lev q lin
            ≡ (if within_range from to lin then some (lin - off) else none))
      → Maps supply lev q b off i (suc i) from to s rank s' rank'
  Maps-one lev q b off i start from to s s' rank rank' v r here absent fs te v' grows others rest
        new =
      record {
        tree = v';
        grows = grows;
        others = others;
        entries = λ j h o. rest j h (λ e. apart j o e);
        mapped = mapped;
      }
    where
      apart : (j : ℕ) → (j < i) ⊎ (suc i ≤ j) → j ≢ i
      apart j (inl p) e = omega arith
      apart j (inr p) e = omega arith

      lower : (l u : ℕ) → l < lev → rank u ≡ suc l → u ≢ q
      lower l u h ru e = absurd (omega (arith, ap rank e))

      mapped :
          (lin : ℕ)
          → b * (step lev * 512) ≤ lin
          → lin < b * (step lev * 512) + step lev * 512
          → walk s'.tables lev q lin
            ≡ (if within_range from to lin then some (lin - off) else walk s.tables lev q lin)
      mapped lin h g = elim (ℕ_discrete (index lev lin) i) [
        | yes e ↦
            let (low, high) = IsEntry-other here lin h g e in
            let none_before : walk s.tables lev q lin ≡ none =
              walk-absent s.tables lev q lin (rw e absent) in
            rw none_before (new lin e low high)
        | no ne ↦
            let out : within_range from to lin ≡ false =
              outside lin (λ (low : start ≤ lin) (high : lin < start + step lev).
                ne (IsEntry-index here lin low high)) in
            rw out (
              walk-unchanged rank s.tables s'.tables v.closed lev q lin r
                (rest (index lev lin) (omega arith) ne)
                λ l u j hl ru hj. others u l j ru (lower l u hl ru) hj)
      ]
        where
          outside :
              (lin : ℕ)
              → (start ≤ lin → ¬ (lin < start + step lev))
              → within_range from to lin ≡ false
          outside lin no_entry = ground (arith, no_entry)

  -- Writing a page into an entry that is not present.
  pub put-Maps :
      (lev q b off i start pte : ℕ) (s : PageState P) (rank : ℕ → ℕ)
      → IsTree supply s rank
      → rank q ≡ suc lev
      → IsEntry lev b i start
      → pte_present (s.tables q i) ≡ false
      → ((l : ℕ) → lev ≡ suc l → pte_large pte ≡ true)
      → ((tables : ℕ → ℕ → ℕ) (lin : ℕ)
          → tables q (index lev lin) ≡ pte
          → start ≤ lin
          → lin < start + step lev
          → walk tables lev q lin ≡ some (lin - off))
      → Maps supply lev q b off i (suc i) start (start + step lev) s rank (put s q i pte) rank
  put-Maps lev q b off i start pte s rank v r here absent large new =
      Maps-one lev q b off i start start (start + step lev) s (put s q i pte) rank rank v r here
        absent (omega arith) (omega arith) tree (λ u l e. e)
        (λ u l j ru ne h. put_there s q i pte u j (inl ne))
        (λ j h ne. put_there s q i pte q j (inr ne))
        λ lin e low high.
          let inside : within_range start (start + step lev) lin ≡ true = ground arith in
          rw inside (new (put s q i pte).tables lin (rw (e, put_here s q i pte) refl) low high)
    where
      tree : IsTree supply (put s q i pte) rank
      tree = record {
        ready = v.ready;
        taken = v.taken;
        closed = λ l t j rt hj present small. elim (ℕ_discrete t q) [
          | yes et ↦ elim (ℕ_discrete j i) [
            | yes ej ↦
                let here' : (put s q i pte).tables t j ≡ pte = rw (et, ej) (put_here s q i pte) in
                let level : lev ≡ suc l = omega (arith, ap rank et) in
                absurd (true-ne-false (sym (large l level) ∙ ap pte_large (sym here') ∙ small))
            | no nj ↦ kept l t j rt hj present small (put_there s q i pte t j (inr nj))
          ]
          | no nt ↦ kept l t j rt hj present small (put_there s q i pte t j (inl nt))
        ];
      }
        where
          true-ne-false : ¬ (true ≡ false)
          true-ne-false e = cc

          kept :
              (l t j : ℕ)
              → rank t ≡ suc (suc l)
              → j < 512
              → pte_present ((put s q i pte).tables t j) ≡ true
              → pte_large ((put s q i pte).tables t j) ≡ false
              → (put s q i pte).tables t j ≡ s.tables t j
              → rank (va (pte_phys ((put s q i pte).tables t j))) ≡ suc l
          kept l t j rt hj present small e =
              closed-at rank s.tables v.closed l t j ((put s q i pte).tables t j) e rt hj present
                small
