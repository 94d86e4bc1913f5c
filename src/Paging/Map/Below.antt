-- ===== src/Paging/Map/Below.antt =====
-- `map_below` of `map_pages`: a new table is put into the entry, and mapped from.
use os_course_term.Common.{
  Refusal, ℕ, suc, ◌+◌, ◌^◌, ◌<◌, ◌≡◌, refl, sym, ap, ◌∙◌, ◌≢◌, ◌⊎◌, inl, inr, arith, true, false,
  Draws, drawn, Draws-bind, Draws-within, update, update_self, update_ne, ℕ_discrete,
  land_zero_left,
}
use os_course_term.Memory.{va}
use os_course_term.Paging.{pte_present, pte_large, pte_phys}
use os_course_term.Paging.Map.{PageState, flags_page, alloc_page_table}
use os_course_term.Paging.Map.Walk.{phys_of_entry, IsClosed}
use os_course_term.Paging.Map.Mapped.{TableSupply, IsFresh, IsTree}
use os_course_term.Paging.Map.Entry.{put, put_here, put_there, closed-at}

pub zero-absent : pte_present 0 ≡ false
zero-absent = rw (land_zero_left 64 1) refl

va-injective : (t u : ℕ) → t < 2 ^ 48 → u < 2 ^ 48 → va t ≡ va u → t ≡ u
va-injective t u h g e = omega arith

module _ {P : Type 0} {Empty : Refusal → Type 0} (supply : TableSupply P Empty) where
  open supply use {Ready, Taken}

  -- The state once the table is cleared.
  abbrev pub cleared : PageState P → P → ℕ → PageState P
  cleared s p t = record { phys = p; tables = update s.tables (va t) (λ _. 0) }

  pub alloc_page_table-IsFresh :
      (s : PageState P)
      → Ready s.phys
      → Draws Empty
          (λ t s'. IsFresh Ready Taken s.phys t s'.phys × (s' ≡ cleared s s'.phys t))
          (alloc_page_table supply.alloc s)
  unfolding alloc_page_table
  alloc_page_table-IsFresh s ready =
      Draws-bind
        (Draws-within
          {Q = λ t s'. IsFresh Ready Taken s.phys t s'.phys × (s' ≡ record s { phys = s'.phys })}
          (λ p. record s { phys = p }) (supply.alloc-Fresh s.phys ready) λ t p f. (f, refl))
        λ t s' (f, e). rw (f.aligned, e) (drawn (f, refl))

  module _ (s : PageState P) (rank : ℕ → ℕ) (v : IsTree supply s rank) (lev q i t : ℕ) (p : P)
      (r : rank q ≡ suc (suc lev)) (hi : i < 512) (f : IsFresh Ready Taken s.phys t p) where
    abbrev pub linked_state : PageState P
    linked_state = put supply (cleared s p t) q i (t + flags_page)

    abbrev pub linked_rank : ℕ → ℕ
    linked_rank = update rank (va t) (suc lev)

    pub fresh-ne : (u l : ℕ) → rank u ≡ suc l → u ≢ va t
    fresh-ne u l ru e =
        let (t', eu, small, taken) = v.taken u l ru in
        let same : t' ≡ t = va-injective t' t small f.small (sym eu ∙ e) in
        f.free (rw same at taken)

    pub linked-new : (j : ℕ) → linked_state.tables (va t) j ≡ 0
    linked-new j =
        put_there supply (cleared s p t) q i (t + flags_page) (va t) j
          (inl λ e. fresh-ne q (suc lev) r (sym e))
        ∙ ap (λ (g : ℕ → ℕ). g j) (update_self s.tables (va t) (λ _. 0))

    pub linked-old :
        (u l j : ℕ) → rank u ≡ suc l → (u ≢ q) ⊎ (j ≢ i) → linked_state.tables u j ≡ s.tables u j
    linked-old u l j ru o =
        put_there supply (cleared s p t) q i (t + flags_page) u j o
        ∙ ap (λ (g : ℕ → ℕ). g j) (update_ne s.tables (va t) (λ _. 0) u (fresh-ne u l ru))

    pub linked-entry : linked_state.tables q i ≡ t + flags_page
    linked-entry = put_here supply (cleared s p t) q i (t + flags_page)

    pub rank_old : (u l : ℕ) → rank u ≡ suc l → linked_rank u ≡ suc l
    rank_old u l ru = update_ne rank (va t) (suc lev) u (fresh-ne u l ru) ∙ ru

    linked-IsClosed : IsClosed linked_rank linked_state.tables
    linked-IsClosed l u j ru hj present small = elim (ℕ_discrete u (va t)) [
      | yes new ↦
          let empty : linked_state.tables u j ≡ 0 = rw new (linked-new j) in
          absurd (false-true (sym zero-absent ∙ ap pte_present (sym empty) ∙ present))
      | no old ↦
          let ru' : rank u ≡ suc (suc l) = sym (update_ne rank (va t) (suc lev) u old) ∙ ru in
          elim (ℕ_discrete u q) [
            | no nq ↦ kept l u j ru' hj present small (linked-old u (suc l) j ru' (inl nq))
            | yes eq ↦ elim (ℕ_discrete j i) [
              | no nj ↦ kept l u j ru' hj present small (linked-old u (suc l) j ru' (inr nj))
              | yes ej ↦
                  let here : linked_state.tables u j ≡ t + flags_page = rw (eq, ej) linked-entry in
                  let level : l ≡ lev = omega (arith, ap rank eq) in
                  let target : va (pte_phys (linked_state.tables u j)) ≡ va t =
                    ap (λ (x : ℕ). va (pte_phys x)) here
                    ∙ ap va (phys_of_entry t 3 f.aligned f.small (omega arith)) in
                  ap linked_rank target ∙ update_self rank (va t) (suc lev) ∙ ap suc (sym level)
            ]
          ]
    ]
      where
        false-true : ¬ (false ≡ true)
        false-true e = cc

        kept :
            (l u j : ℕ)
            → rank u ≡ suc (suc l)
            → j < 512
            → pte_present (linked_state.tables u j) ≡ true
            → pte_large (linked_state.tables u j) ≡ false
            → linked_state.tables u j ≡ s.tables u j
            → linked_rank (va (pte_phys (linked_state.tables u j))) ≡ suc l
        kept l u j ru hj present small e =
            rank_old (va (pte_phys (linked_state.tables u j))) l (
              closed-at rank s.tables v.closed l u j (linked_state.tables u j) e ru hj present
                small)

    pub linked-IsTree : IsTree supply linked_state linked_rank
    linked-IsTree = record {
      ready = f.ready;
      closed = linked-IsClosed;
      taken = λ u l ru. elim (ℕ_discrete u (va t)) [
        | yes new ↦ (t, new, f.small, f.taken)
        | no old ↦
            let (t', e, small, taken) =
              v.taken u l (sym (update_ne rank (va t) (suc lev) u old) ∙ ru) in
            (t', e, small, f.kept t' taken)
      ];
    }
