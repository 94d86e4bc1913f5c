-- ===== src/Paging/Map/Tests.antt =====
-- The theorems on page tables, with tables handed out one after the other, and with the page
-- allocator.
use os_course_term.Common.{
  ℕ, ◌+◌, ◌*◌, ◌^◌, ◌<◌, ◌≡◌, refl, sym, ◌∙◌, arith, false, true, if◌then◌else◌, ltb, ok, died, Cmd,
  Refusal, halts, waits, Draws, drawn, halted, waiting, Outcome, fault, blocked, update,
  update_self, update_ne, ℕ_discrete, Bool-cases, inl, inr,
}
use os_course_term.Buddy.Tests.{all_free, all_free_pool, all_free-IsValid}
use os_course_term.Memory.{PhysState, va, alloc_big_phys_aligned}
use os_course_term.Paging.Map.{PageState, table_size, map_pages, init_paging}
use os_course_term.Paging.Map.Walk.{step}
use os_course_term.Paging.Map.Mapped.{IsFresh, IsTree, TableSupply}
use os_course_term.Paging.Map.Below.{zero-absent}
use os_course_term.Paging.Map.Pages.{MapsAll, map_pages-MapsAll}
use os_course_term.Memory.Calls.{IsReady}
use os_course_term.Paging.Map.Supply.{
  NoPage, IsTakenPage, alloc_big_phys_aligned-IsFresh, phys_supply,
}
use os_course_term.Paging.Map.Init.{IsPaged, init_paging-translates}

-- A source that waits when no table is left, and never halts the machine.
abbrev pub OnlyWaits : Type 0 → Refusal → Type 0
OnlyWaits E halts = ◌≡◌ {A = ℕ} 0 1
OnlyWaits E waits = E

next_table : Cmd ℕ ℕ
next_table n = if ltb n (2 ^ 36) then ok (n * 4096) (n + 1) else blocked

next_table-IsFresh :
    (n : ℕ)
    → Unit {0}
    → Draws (OnlyWaits (Unit {0})) (IsFresh (λ _. Unit {0}) (λ m t. t < m * 4096) n) (next_table n)
unfolding next_table
next_table-IsFresh n ready = elim (Bool-cases (ltb n (2 ^ 36))) [
  | inl left ↦ rw left (
      drawn (record {
        ready = tt;
        aligned = omega arith;
        small = ground arith;
        free = λ h. omega arith;
        taken = omega arith;
        kept = λ u h. omega arith;
      }))
  | inr gone ↦ rw gone (waiting tt)
]

abbrev in_order : TableSupply ℕ (OnlyWaits (Unit {0}))
in_order = record {
  alloc = next_table;
  Ready = λ _. Unit {0};
  Taken = λ m t. t < m * 4096;
  alloc-Fresh = next_table-IsFresh;
}

-- The page allocator, but it waits where `alloc_big_phys_aligned` halts the machine.
abbrev pub wait_instead : {S A : Type 0} → Outcome S A → Outcome S A
wait_instead (ok a s) = ok a s
wait_instead died = blocked
wait_instead fault = fault
wait_instead blocked = blocked

wait_instead-Draws :
    {S A : Type 0} {P : A → S → Type 0} {r : Outcome S A}
    → Draws NoPage P r
    → Draws (OnlyWaits (NoPage halts)) P (wait_instead r)
wait_instead-Draws (drawn p) = drawn p
wait_instead-Draws (halted e) = waiting e
wait_instead-Draws (waiting e) = absurd (omega (arith, e))

pub patient_IsFresh :
    (h : PhysState)
    → IsReady h
    → Draws
        (OnlyWaits (NoPage halts))
        (IsFresh IsReady IsTakenPage h)
        (wait_instead (alloc_big_phys_aligned table_size h))
patient_IsFresh h v = wait_instead-Draws (alloc_big_phys_aligned-IsFresh h v)

abbrev pub patient : TableSupply PhysState (OnlyWaits (NoPage halts))
patient = record {
  alloc = λ h. wait_instead (alloc_big_phys_aligned table_size h);
  Ready = IsReady;
  Taken = IsTakenPage;
  alloc-Fresh = patient_IsFresh;
}

-- An empty table of level 3 at the physical address 4096, the second page.
abbrev empty_tables : PageState ℕ
empty_tables = record { phys = 2; tables = λ u j. 0 }

abbrev empty_rank : ℕ → ℕ
empty_rank = update (λ _. 0) (va 4096) 4

empty-IsTree : IsTree in_order empty_tables empty_rank
empty-IsTree = record {
  ready = tt;
  closed = λ l u j r hj present small. absurd (true_ne (sym zero-absent ∙ present));
  taken = λ u l r. elim (ℕ_discrete u (va 4096)) [
    | yes e ↦ (4096, e, omega arith, omega arith)
    | no ne ↦ absurd (omega (arith, sym (update_ne (λ _. 0) (va 4096) 4 u ne) ∙ r))
  ];
}
  where
    true_ne : ¬ (false ≡ true)
    true_ne e = cc

-- 2 MiB and one page more, to where the kernel maps its memory.
map_pages-MapsAll_example :
    Draws
      (OnlyWaits (Unit {0}))
      (λ _ s'.
        (rank' : ℕ → ℕ) × MapsAll in_order 3
          (va 4096)
          0
          (2 ^ 47)
          (2 ^ 47)
          (2 ^ 47 + 2 ^ 21 + 4096)
          empty_tables
          empty_rank
          s'
          rank')
      (map_pages in_order.alloc 5
        (va 4096)
        (0 * (step 3 * 512))
        (step 3)
        (2 ^ 47)
        (2 ^ 47 + 2 ^ 21 + 4096)
        0
        empty_tables)
map_pages-MapsAll_example =
    map_pages-MapsAll in_order 5 3 (va 4096) 0 (2 ^ 47) (2 ^ 47) (2 ^ 47 + 2 ^ 21 + 4096) 0
      empty_tables empty_rank (omega arith) empty-IsTree (update_self (λ _. 0) (va 4096) 4)
      (omega arith) (omega arith)
      (record {
        whole_from = refl;
        whole_to = refl;
        offset = refl;
        whole_off = refl;
        small = omega arith;
      })
      λ j h a b. zero-absent

-- No table yet, and all of the memory free.
abbrev first_state : PageState PhysState
first_state = record {
  phys = record {
    first_buddy = all_free;
    phys_alloc_lock = record { locked = 0; owner = 0 };
    valloc_lock = record { locked = 0; owner = 0 };
    current_thread = 1;
    interrupts = true;
  };
  tables = λ u j. 0;
}

first-IsReady : IsReady first_state.phys
first-IsReady = record {
  pool = all_free_pool;
  valid = all_free-IsValid;
  aligned = refl;
  small = omega arith;
  mine = refl;
}

-- 2 GiB of memory: `init_paging` halts the machine only if it is out of pages, and with a source that
-- waits for pages it does not halt the machine.
init_paging-translates_example :
    Draws NoPage
      (λ cr3 s'. IsReady s'.phys × IsPaged (2 ^ 31) cr3 s')
      (init_paging (alloc_big_phys_aligned table_size) (2 ^ 31) first_state)
    × Draws
        (OnlyWaits (NoPage halts))
        (λ cr3 s'. IsReady s'.phys × IsPaged (2 ^ 31) cr3 s')
        (init_paging patient.alloc (2 ^ 31) first_state)
init_paging-translates_example = (
  init_paging-translates phys_supply (2 ^ 31) first_state first-IsReady (omega arith) refl
      (omega arith),
  init_paging-translates patient (2 ^ 31) first_state first-IsReady (omega arith) refl
      (omega arith),
)
