-- ===== src/Paging/Map/Init.antt =====
-- `init_paging` of paging.c: the tables of the kernel translate its memory, and nothing else.
use os_course_term.Common.{
  ℕ, suc, ◌+◌, ◌-◌, ◌%◌, ◌^◌, ◌≤◌, ◌<◌, ◌≡◌, refl, sym, ap, ◌∙◌, inr, arith, true, false,
  if◌then◌else◌, Option, some, none, Refusal, Draws, drawn, Draws-bind, add64, update, update_self,
  update_ne, ℕ_discrete,
}
use os_course_term.Memory.{va, pa}
use os_course_term.Paging.{pte_present}
use os_course_term.Paging.Map.{PageState, init_paging, pml4_step, map_pages}
use os_course_term.Paging.Map.Walk.{index, walk, walk-absent}
use os_course_term.Paging.Map.Mapped.{IsFresh, TableSupply, IsTree, within_range}
use os_course_term.Paging.Map.Below.{cleared, alloc_page_table-IsFresh, zero-absent}
use os_course_term.Paging.Map.Pages.{MapsAll, map_pages-MapsAll}

-- The kernel reads its memory from 2^47 on, and its first 2 GiB in the last 2 GiB as well.
abbrev pub kernel_translation : (phys_mem_end lin : ℕ) → Option ℕ
kernel_translation phys_mem_end lin =
    if within_range (2 ^ 48 - 2 ^ 31) (2 ^ 48) lin
    then some (lin - (2 ^ 48 - 2 ^ 31))
    else if within_range (2 ^ 47) (2 ^ 47 + phys_mem_end) lin
    then some (lin - 2 ^ 47)
    else none

no_rank : ℕ → ℕ
no_rank u = 0

module _ {P : Type 0} {Empty : Refusal → Type 0} (supply : TableSupply P Empty) (s : PageState P)
    (t : ℕ) (p : P) (f : IsFresh supply.Ready supply.Taken s.phys t p) where
  abbrev root_state : PageState P
  root_state = cleared supply s p t

  abbrev root_rank : ℕ → ℕ
  root_rank = update (λ _. 0) (va t) 4

  root_empty : (j : ℕ) → root_state.tables (va t) j ≡ 0
  root_empty j = ap (λ (g : ℕ → ℕ). g j) (update_self s.tables (va t) (λ _. 0))

  root_absent : (j : ℕ) → pte_present (root_state.tables (va t) j) ≡ false
  root_absent j = rw (root_empty j) zero-absent

  only_root : (u l : ℕ) → root_rank u ≡ suc l → u ≡ va t
  only_root u l r = elim (ℕ_discrete u (va t)) [
    | yes e ↦ e
    | no ne ↦ absurd (omega (arith, sym (update_ne (λ _. 0) (va t) 4 u ne) ∙ r))
  ]

  root-IsTree : IsTree supply root_state root_rank
  root-IsTree = record {
    ready = f.ready;
    closed = λ l u j r hj present small. absurd (
        true_ne (
          sym (root_absent j)
          ∙ ap (λ (w : ℕ). pte_present (root_state.tables w j)) (sym (only_root u (suc l) r))
          ∙ present));
    taken = λ u l r. (t, only_root u l r, f.small, f.taken);
  }
    where
      true_ne : ¬ (false ≡ true)
      true_ne e = cc

  -- The two calls of `map_pages`.
  mapped_high :
      (e : ℕ)
      → 1 ≤ e
      → e % 4096 ≡ 0
      → e ≤ 2 ^ 47 - 2 ^ 39
      → Draws Empty
          (λ _ s'.
            (rank' : ℕ → ℕ) × MapsAll supply 3
              (va t)
              0
              (2 ^ 47)
              (2 ^ 47)
              (2 ^ 47 + e)
              root_state
              root_rank
              s'
              rank')
          (map_pages supply.alloc 5 (va t) 0 pml4_step (2 ^ 47) (2 ^ 47 + e) 0 root_state)
  mapped_high e one whole fits =
      map_pages-MapsAll supply 5 3 (va t) 0 (2 ^ 47) (2 ^ 47) (2 ^ 47 + e) 0 root_state root_rank
        (omega arith) root-IsTree (update_self (λ _. 0) (va t) 4) (omega arith) (omega arith)
        (record {
          whole_from = refl;
          whole_to = omega arith;
          offset = refl;
          whole_off = refl;
          small = omega arith;
        })
        λ j h a b. root_absent j

  mapped_kernel :
      (e : ℕ) (s' : PageState P) (rank' : ℕ → ℕ)
      → e ≤ 2 ^ 47 - 2 ^ 39
      → MapsAll supply 3 (va t) 0 (2 ^ 47) (2 ^ 47) (2 ^ 47 + e) root_state root_rank s' rank'
      → Draws Empty
          (λ _ s''.
            (rank'' : ℕ → ℕ) × MapsAll supply 3
              (va t)
              0
              (2 ^ 48 - 2 ^ 31)
              (2 ^ 48 - 2 ^ 31)
              (2 ^ 48)
              s'
              rank'
              s''
              rank'')
          (map_pages supply.alloc 5 (va t) 0 pml4_step (2 ^ 48 - 2 ^ 31) (2 ^ 48) 0 s')
  mapped_kernel e s' rank' fits m =
      map_pages-MapsAll supply 5 3 (va t) 0 (2 ^ 48 - 2 ^ 31) (2 ^ 48 - 2 ^ 31) (2 ^ 48) 0 s' rank'
        (omega arith) m.maps.tree (m.maps.grows (va t) 3 (update_self (λ _. 0) (va t) 4))
        (omega arith) (omega arith)
        (record {
          whole_from = refl;
          whole_to = refl;
          offset = refl;
          whole_off = refl;
          small = omega arith;
        })
        λ j h a b.
          ap pte_present (m.maps.entries j h (m.apart j h (inr (omega arith)))) ∙ root_absent j

  translated :
      (e lin : ℕ) (s' s'' : PageState P) (rank' rank'' : ℕ → ℕ)
      → lin < 2 ^ 48
      → MapsAll supply 3 (va t) 0 (2 ^ 47) (2 ^ 47) (2 ^ 47 + e) root_state root_rank s' rank'
      → MapsAll supply 3 (va t) 0 (2 ^ 48 - 2 ^ 31) (2 ^ 48 - 2 ^ 31) (2 ^ 48) s' rank' s'' rank''
      → walk s''.tables 3 (va t) lin ≡ kernel_translation e lin
  translated e lin s' s'' rank' rank'' h m n =
      n.maps.mapped lin (omega arith) (omega arith)
      ∙ ap
          (λ (o : Option ℕ).
            if within_range (2 ^ 48 - 2 ^ 31) (2 ^ 48) lin
            then some (lin - (2 ^ 48 - 2 ^ 31))
            else o)
          (m.maps.mapped lin (omega arith) (omega arith)
            ∙ ap
                (λ (o : Option ℕ).
                  if within_range (2 ^ 47) (2 ^ 47 + e) lin then some (lin - 2 ^ 47) else o)
                (walk-absent root_state.tables 3 (va t) lin (root_absent (index 3 lin))))

-- The tables from `cr3` on make the processor translate every address as the kernel means it, and
-- fault on all others.
pub record IsPaged {P : Type 0} (phys_mem_end cr3 : ℕ) (s : PageState P) : Type 0 where
  pub aligned : cr3 % 4096 ≡ 0
  pub translates :
      (lin : ℕ) → lin < 2 ^ 48 → walk s.tables 3 (va cr3) lin ≡ kernel_translation phys_mem_end lin

-- With a ready source of tables, whichever way it refuses one, and whole pages of memory, of at most
-- 255 * 512 GiB, `init_paging` builds tables by which the processor translates every address as the
-- kernel means it, and faults on all others, and leaves the source ready; or it ends as the source
-- does when it refuses a table: it halts the machine only if the source may refuse by halting it, and
-- waits only if the source may refuse by waiting.
pub init_paging-translates :
    {P : Type 0} {Empty : Refusal → Type 0} (supply : TableSupply P Empty) (phys_mem_end : ℕ)
    (s : PageState P)
    → supply.Ready s.phys
    → 1 ≤ phys_mem_end
    → phys_mem_end % 4096 ≡ 0
    → phys_mem_end ≤ 2 ^ 47 - 2 ^ 39
    → Draws Empty
        (λ cr3 s'. supply.Ready s'.phys × IsPaged phys_mem_end cr3 s')
        (init_paging supply.alloc phys_mem_end s)
unfolding init_paging
init_paging-translates {P = P} supply e s ready one whole fits =
    Draws-bind (alloc_page_table-IsFresh supply s ready) λ t s1 (f, same).
      let p : P = s1.phys in
      let high : add64 (2 ^ 47) e ≡ 2 ^ 47 + e = omega arith in
      let back : pa (va t) ≡ t = omega (arith, f.small) in
      rw (same, high)
        (Draws-bind (mapped_high supply s t p f e one whole fits) λ _ s2 (rank2, m).
          Draws-bind (mapped_kernel supply s t p f e s2 rank2 fits m) λ _ s3 (rank3, n). drawn (
            n.maps.tree.ready,
            record {
              aligned = omega (arith, back, f.aligned);
              translates =
                  λ lin h. rw back (translated supply s t p f e lin s2 s3 rank2 rank3 h m n);
            },
          ))
