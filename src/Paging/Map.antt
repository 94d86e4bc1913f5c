-- ===== src/Paging/Map.antt =====
-- `map_pages` and `init_paging` of paging.c, over the memory of page tables. A table is known by its
-- virtual address, and has 512 entries. The allocation of a table is a parameter of `map_pages`
-- and of `init_paging`; `init_memory` gives it `alloc_big_phys_aligned` of memory.c.
pub mod Walk
pub mod Mapped
pub mod Entry
pub mod Page
pub mod Below
pub mod Descend
pub mod Loop
pub mod Range
pub mod Pages
pub mod Supply
pub mod Init
pub mod Tests
use os_course_term.Common.{
  ℕ, zero, suc, ◌+◌, ◌-◌, ◌*◌, ◌/◌, ◌%◌, ◌^◌, Bool, true, false, ◌&&◌, ◌||◌, not, ltb, leb, ◌==◌,
  if◌then◌else◌, Outcome, within, ok, fault, Cmd, pure, die, ◌>>=◌, ◌>>◌, assert, when, update,
  add64, sub64, mul64,
}
use os_course_term.Memory.{PhysState, va, pa, alloc_big_phys_aligned}
use os_course_term.Paging.{pte_present, pte_phys, linear}

abbrev pub entries_per_table : ℕ
entries_per_table = 512

abbrev pub table_size : ℕ
table_size = 8 * entries_per_table

abbrev pub pml4_step : ℕ
pml4_step = 2 ^ 39

abbrev pub kernel_base : ℕ
kernel_base = 18446744071562067968

-- The flags that a new entry has, besides its address, whose lower 12 bits are clear.
abbrev pub flags_page : ℕ
flags_page = 1 + 2

abbrev pub flags_large : ℕ
flags_large = 1 + 2 + 128

-- The state `P` of the allocator, and the tables.
pub record PageState (P : Type 0) : Type 0 where
  pub phys : P
  pub tables : ℕ → ℕ → ℕ

abbrev pub PageCmd : Type 0 → Type 0 → Type 0
PageCmd P A = Cmd (PageState P) A

-- `ptes[i]`, read and written.
pub entry : {P : Type 0} → (ptes i : ℕ) → PageCmd P ℕ
entry ptes i s = if ltb i entries_per_table then ok (s.tables ptes i) s else fault

pub set_entry : {P : Type 0} → (ptes i pte : ℕ) → PageCmd P (Unit {0})
set_entry ptes i pte s =
    if ltb i entries_per_table
    then ok tt (record s { tables = update s.tables ptes (update (s.tables ptes) i pte) })
    else fault

module _ {P : Type 0} (alloc : Cmd P ℕ) where
  pub alloc_page_table : PageCmd P ℕ
  alloc_page_table = do
    table ← λ s. within (λ p. record s { phys = p }) (alloc s.phys)
    assert (table % 4096 == 0)
    λ s. ok tt (record s { tables = update s.tables (va table) (λ _. 0) })
    pure table

  -- `// fully allocate page`
  pub map_page : (ptes base_step cur_phys_start i : ℕ) → PageCmd P (Unit {0})
  map_page ptes base_step cur_phys_start i = do
    x ← entry ptes i
    assert (not (pte_present x))
    assert (cur_phys_start % base_step == 0)
    if base_step == 4096
        then set_entry ptes i (cur_phys_start + flags_page)
        else if base_step == 2 * 1024 * 1024
        then set_entry ptes i (cur_phys_start + flags_large)
        else die

  -- `// go deeper`; `deeper` is the recursive call for a table and its base offset.
  pub map_below :
      (deeper : (ptes base_offset : ℕ) → PageCmd P (Unit {0}))
      → (ptes cur_start i : ℕ) → PageCmd P (Unit {0})
  map_below deeper ptes cur_start i = do
    x ← entry ptes i
    when (not (pte_present x)) do table ← alloc_page_table; set_entry ptes i (table + flags_page)
    y ← entry ptes i
    deeper (va (pte_phys y)) cur_start

  -- One round of the loop of `map_pages`.
  pub map_entry :
      (deeper : (ptes base_offset : ℕ) → PageCmd P (Unit {0}))
      → (ptes base_offset base_step lin_start lin_end phys_start i : ℕ) → PageCmd P (Unit {0})
  map_entry deeper ptes base_offset base_step lin_start lin_end phys_start i =
      let cur_start = add64 base_offset (mul64 i base_step) in
      let cur_end = add64 base_offset (mul64 (i + 1) base_step) in
      let can_fully_allocate = base_step == 4096 || base_step == 2 * 1024 * 1024 in
      do
        assert (not (leb lin_end cur_start || leb cur_end lin_start))
        if can_fully_allocate && (leb lin_start cur_start && leb cur_end lin_end)
            then map_page ptes base_step (sub64 (add64 phys_start cur_start) lin_start) i
            else map_below deeper ptes cur_start i

  pub map_entries :
      (deeper : (ptes base_offset : ℕ) → PageCmd P (Unit {0}))
      → (ptes base_offset base_step lin_start lin_end phys_start : ℕ) → (rounds i : ℕ)
      → PageCmd P (Unit {0})
  map_entries deeper ptes base_offset base_step lin_start lin_end phys_start zero i = pure tt
  map_entries deeper ptes base_offset base_step lin_start lin_end phys_start (suc rounds) i = do
    map_entry deeper ptes base_offset base_step lin_start lin_end phys_start i
    map_entries deeper ptes base_offset base_step lin_start lin_end phys_start rounds (i + 1)

  -- `map_pages` with its range cut to that of the table. Both indices are at most 512, so `int` holds
  -- them.
  pub map_range :
      (deeper : (ptes base_offset lin_start lin_end phys_start : ℕ) → PageCmd P (Unit {0}))
      → (ptes base_offset base_step lin_start lin_end phys_start : ℕ) → PageCmd P (Unit {0})
  map_range deeper ptes base_offset base_step lin_start lin_end phys_start =
      let entry_start = sub64 lin_start base_offset / base_step in
      let entry_end = sub64 (add64 (sub64 lin_end base_offset) base_step) 1 / base_step in
      let here = λ (t b : ℕ). deeper t b lin_start lin_end phys_start in
      if leb lin_end lin_start then pure tt else do
        assert (ltb entry_start entry_end && leb entry_end entries_per_table)
        map_entries here ptes base_offset base_step lin_start lin_end phys_start
            (entry_end - entry_start) entry_start

  -- `base_step` shrinks from 2^39 by 512 at each call, and is 0 at the sixth, where `%` divides by 0.
  pub map_pages :
      (depth ptes base_offset base_step lin_start lin_end phys_start : ℕ) → PageCmd P (Unit {0})
  map_pages zero ptes base_offset base_step lin_start lin_end phys_start = do
    assert (ltb lin_start lin_end)
    λ s. fault
  map_pages (suc depth) ptes base_offset base_step lin_start lin_end phys_start =
      let shift = if ltb lin_start base_offset then sub64 base_offset lin_start else 0 in
      let table_end = add64 base_offset (mul64 entries_per_table base_step) in
      let end = if ltb table_end lin_end then table_end else lin_end in
      do
        assert (ltb lin_start lin_end)
        assert (base_offset % base_step == 0)
        map_range (λ t b. map_pages depth t b (base_step / entries_per_table)) ptes base_offset
            base_step (add64 lin_start shift) end (add64 phys_start shift)

  -- `init_paging` up to `store_pml4`, whose argument is the result.
  pub init_paging : (phys_mem_end : ℕ) → PageCmd P ℕ
  init_paging phys_mem_end = do
    table ← alloc_page_table
    let pml4 = va table
    let high = linear 18446603336221196288
    let kernel = linear kernel_base
    map_pages 5 pml4 0 pml4_step high (add64 high phys_mem_end) 0
    map_pages 5 pml4 0 pml4_step kernel (add64 kernel (2 * 1024 * 1024 * 1024)) 0
    pure (pa pml4)
