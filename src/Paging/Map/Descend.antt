-- ===== src/Paging/Map/Descend.antt =====
-- `map_below` of `map_pages`: the new table is mapped by the recursive call.
use os_course_term.Common.{
  Refusal, ℕ, suc, ◌+◌, ◌-◌, ◌*◌, ◌≤◌, ◌<◌, ◌≡◌, refl, ap, ◌∙◌, inl, inr, arith, false,
  if◌then◌else◌, Option, some, none, Draws, drawn, Draws-bind, Draws-mono, lt→ltb, update_self,
}
use os_course_term.Memory.{va}
use os_course_term.Paging.{pte_present, pte_phys}
use os_course_term.Paging.Map.{PageState, PageCmd, flags_page, entry, set_entry, map_below}
use os_course_term.Paging.Map.Walk.{step, index, walk, walk-absent, walk-table, phys_of_entry}
use os_course_term.Paging.Map.Mapped.{TableSupply, IsFresh, IsTree, Maps, within_range}
use os_course_term.Paging.Map.Entry.{IsEntry, Maps-one}
use os_course_term.Paging.Map.Below.{
  zero-absent, alloc_page_table-IsFresh, linked_state, linked_rank, linked-new, linked-old,
  linked-entry, rank_old, linked-IsTree, fresh-ne,
}

module _ {P : Type 0} {Empty : Refusal → Type 0} (supply : TableSupply P Empty) where
  open supply use {Ready, Taken}

  abbrev pub IsEmpty : PageState P → ℕ → Type 0
  IsEmpty s q = (j : ℕ) → j < 512 → pte_present (s.tables q j) ≡ false

  -- What the recursive call does on an empty table of level `lev` for the addresses from `start` on.
  abbrev pub Deepens :
      ((ptes base_offset : ℕ) → PageCmd P (Unit {0})) → (lev b off start from to : ℕ) → Type 0
  Deepens deeper lev b off start from to =
      (s : PageState P) (rank : ℕ → ℕ) (u : ℕ)
      → IsTree supply s rank
      → rank u ≡ suc lev
      → IsEmpty s u
      → Draws Empty
          (λ _ s'. (rank' : ℕ → ℕ) × Maps supply lev u b off 0 512 from to s rank s' rank')
          (deeper u start s)

  -- The new table's mapping is the entry's.
  descend-Maps :
      (lev q b off i start from to t : ℕ) (s : PageState P) (rank : ℕ → ℕ) (p : P)
      (v : IsTree supply s rank) (r : rank q ≡ suc (suc lev)) (here : IsEntry (suc lev) b i start)
      (f : IsFresh Ready Taken s.phys t p) (s' : PageState P) (rank' : ℕ → ℕ)
      → pte_present (s.tables q i) ≡ false
      → start ≤ from
      → to ≤ start + step (suc lev)
      → start ≡ (b * 512 + i) * (step lev * 512)
      → Maps supply lev
          (va t)
          (b * 512 + i)
          off
          0
          512
          from
          to
          (linked_state supply s rank v lev q i t p r here.inside f)
          (linked_rank supply s rank v lev q i t p r here.inside f)
          s'
          rank'
      → Maps supply (suc lev) q b off i (suc i) from to s rank s' rank'
  descend-Maps lev q b off i start from to t s rank p v r here f s' rank' absent fs te begins m =
      Maps-one supply (suc lev) q b off i start from to s s' rank rank' v r here absent fs te m.tree
        (λ u l ru. m.grows u l (old u l ru))
        (λ u l j ru ne h.
          m.others u l j (old u l ru) (fresh-ne supply s rank v lev q i t p r hi f u l ru) h
          ∙ linked-old supply s rank v lev q i t p r hi f u l j ru (inl ne))
        (λ j h ne.
          m.others q (suc lev) j (old q (suc lev) r)
            (fresh-ne supply s rank v lev q i t p r hi f q (suc lev) r) h
          ∙ linked-old supply s rank v lev q i t p r hi f q (suc lev) j r (inr ne))
        λ lin e low high.
          let entry_here : s'.tables q (index (suc lev) lin) ≡ t + flags_page =
            ap (s'.tables q) e
            ∙ m.others q (suc lev) i (old q (suc lev) r)
                (fresh-ne supply s rank v lev q i t p r hi f q (suc lev) r) hi
            ∙ linked-entry supply s rank v lev q i t p r hi f in
          let none_before : walk linked.tables lev (va t) lin ≡ none =
            walk-absent linked.tables lev (va t) lin (
              ap pte_present (linked-new supply s rank v lev q i t p r hi f (index lev lin))
              ∙ zero-absent) in
          let deep = m.mapped lin (omega arith) (omega arith) in
          walk-table s'.tables lev q lin t f.aligned f.small entry_here
          ∙ deep
          ∙ ap (λ (w : Option ℕ). if within_range from to lin then some (lin - off) else w)
              none_before
    where
      hi : i < 512
      hi = here.inside

      old :
          (u l : ℕ)
          → rank u ≡ suc l
          → linked_rank supply s rank v lev q i t p r here.inside f u ≡ suc l
      old = rank_old supply s rank v lev q i t p r here.inside f

      linked : PageState P
      linked = linked_state supply s rank v lev q i t p r here.inside f

  pub map_below-Maps :
      (deeper : (ptes base_offset : ℕ) → PageCmd P (Unit {0})) (lev q b off i start from to : ℕ)
      (s : PageState P) (rank : ℕ → ℕ)
      → IsTree supply s rank
      → rank q ≡ suc (suc lev)
      → IsEntry (suc lev) b i start
      → pte_present (s.tables q i) ≡ false
      → start ≤ from
      → to ≤ start + step (suc lev)
      → start ≡ (b * 512 + i) * (step lev * 512)
      → Deepens deeper lev (b * 512 + i) off start from to
      → Draws Empty
          (λ _ s'.
            (rank' : ℕ → ℕ) × Maps supply (suc lev) q b off i (suc i) from to s rank s' rank')
          (map_below supply.alloc deeper q start i s)
  unfolding map_below entry set_entry
  map_below-Maps deeper lev q b off i start from to s rank v r here absent fs te begins spec =
      let inside = lt→ltb i 512 here.inside in
      simp (inside, absent)
        (Draws-bind
          {P = λ _ s1.
            (t : ℕ) × (p : P) × (f : IsFresh Ready Taken s.phys t p) × (s1
              ≡ linked_state supply s rank v lev q i t p r here.inside f)}
          (Draws-bind (alloc_page_table-IsFresh supply s v.ready)
            λ t s0 (f, e). rw e (simp inside (drawn (t, s0.phys, f, refl))))
          λ _ s1 (t, p, f, e1).
            let pointer : va (pte_phys (s1.tables q i)) ≡ va t =
              ap (λ (x : PageState P). va (pte_phys (x.tables q i))) e1
              ∙ ap (λ (x : ℕ). va (pte_phys x))
                  (linked-entry supply s rank v lev q i t p r here.inside f)
              ∙ ap va (phys_of_entry t 3 f.aligned f.small (omega arith)) in
            simp (inside, pointer)
              (rw e1 (
                Draws-mono
                  (spec (linked_state supply s rank v lev q i t p r here.inside f)
                    (linked_rank supply s rank v lev q i t p r here.inside f) (va t)
                    (linked-IsTree supply s rank v lev q i t p r here.inside f)
                    (update_self rank (va t) (suc lev))
                    λ j hj.
                      ap pte_present (linked-new supply s rank v lev q i t p r here.inside f j)
                      ∙ zero-absent)
                  λ _ s' (rank', m). (
                    rank',
                    descend-Maps lev q b off i start from to t s rank p v r here f s' rank' absent
                        fs te begins m,
                  ))))
