-- ===== src/Paging/Map/Page.antt =====
-- `map_page` of `map_pages`: a page of 4 KiB or of 2 MiB.
use os_course_term.Common.{
  Refusal, ℕ, zero, suc, ◌+◌, ◌-◌, ◌%◌, ◌^◌, ◌≤◌, ◌<◌, ◌≡◌, ap, ◌∙◌, arith, false, some, Draws,
  drawn, lt→ltb,
}
use os_course_term.Paging.{pte_present}
use os_course_term.Paging.Map.{PageState, flags_page, flags_large, entry, set_entry, map_page}
use os_course_term.Paging.Map.Walk.{step, walk-page, walk-large, large-large}
use os_course_term.Paging.Map.Mapped.{TableSupply, IsTree, Maps}
use os_course_term.Paging.Map.Entry.{IsEntry, put-Maps}

module _ {P : Type 0} {Empty : Refusal → Type 0} (supply : TableSupply P Empty) where
  -- A page of 4 KiB or 2 MiB, whose level is 0 or 1.
  pub map_page-Maps :
      (lev q b off i start : ℕ) (s : PageState P) (rank : ℕ → ℕ)
      → lev ≤ 1
      → IsTree supply s rank
      → rank q ≡ suc lev
      → IsEntry lev b i start
      → pte_present (s.tables q i) ≡ false
      → off ≤ start
      → off % 2 ^ 21 ≡ 0
      → start < 2 ^ 48
      → Draws Empty
          (λ _ s'.
            (rank' : ℕ → ℕ) × Maps supply lev q b off i
              (suc i)
              start
              (start + step lev)
              s
              rank
              s'
              rank')
          (map_page supply.alloc q (step lev) (start - off) i s)
  unfolding map_page entry set_entry
  map_page-Maps zero q b off i start s rank h v r here absent below aligned small =
      let whole : (start - off) % 4096 ≡ 0 = omega (arith, here.begins) in
      simp (lt→ltb i 512 here.inside, absent, whole)
        (drawn (
          rank,
          put-Maps supply 0 q b off i start (start - off + flags_page) s rank v r here absent
              (λ l e. absurd (omega arith))
              λ tables lin e low high.
                walk-page tables q lin (start - off) whole (omega arith) e
                ∙ ap some (omega (arith, here.begins)),
        ))
  map_page-Maps (suc zero) q b off i start s rank h v r here absent below aligned small =
      let whole : (start - off) % 2097152 ≡ 0 = omega (arith, here.begins) in
      simp (lt→ltb i 512 here.inside, absent, whole)
        (drawn (
          rank,
          put-Maps supply 1 q b off i start (start - off + flags_large) s rank v r here absent
              (λ l e. large-large (start - off) (omega arith))
              λ tables lin e low high.
                walk-large tables q lin (start - off) (omega arith) (omega arith) e
                ∙ ap some (omega (arith, here.begins)),
        ))
  map_page-Maps (suc (suc lev)) q b off i start s rank h v r here absent below aligned small =
      absurd (omega arith)
