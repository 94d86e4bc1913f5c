-- ===== src/LinkedList.antt =====
-- The circular doubly linked lists of list.h and list.c: a list head is an address, and the memory
-- is the two families of their links.
pub mod Ring
pub mod Splice
mod Tests
use os_course_term.Common.{
  ℕ, zero, suc, ◌+◌, Bool, true, false, not, ◌==◌, if◌then◌else◌, Outcome, ok, fault, Cmd, pure,
  ◌>>=◌, ◌>>◌, when, update, add64, Option, none, some,
}

pub record ListHeads : Type 0 where
  pub next : ℕ → ℕ
  pub prev : ℕ → ℕ

abbrev pub ListCmd : Type 0 → Type 0
ListCmd A = Cmd ListHeads A

abbrev pub set_next : (p v : ℕ) → ListHeads → ListHeads
set_next p v m = record m { next = update m.next p v }

abbrev pub set_prev : (p v : ℕ) → ListHeads → ListHeads
set_prev p v m = record m { prev = update m.prev p v }

pub list_init : ℕ → ListHeads → ListHeads
list_init head m = set_next head head (set_prev head head m)

pub list_insert : (new prev next : ℕ) → ListHeads → ListHeads
list_insert new prev next m =
    set_prev next new (set_next prev new (set_next new next (set_prev new prev m)))

pub list_add : (new head : ℕ) → ListHeads → ListHeads
unfolding list_insert
list_add new head m = list_insert new head (m.next head) m

pub list_add_tail : (new head : ℕ) → ListHeads → ListHeads
unfolding list_insert
list_add_tail new head m = list_insert new (m.prev head) head m

pub list_join : (prev next : ℕ) → ListHeads → ListHeads
list_join prev next m = set_prev next prev (set_next prev next m)

pub list_del : ℕ → ListHeads → ListHeads
unfolding list_join
list_del entry m = list_join (m.prev entry) (m.next entry) m

-- `__list_splice`, which reads `first` and `last` before it writes.
pub splice_links : (list prev next : ℕ) → ListHeads → ListHeads
splice_links list prev next m =
    let first = m.next list in
    let last = m.prev list in
    set_prev next last (set_next last next (set_next prev first (set_prev first prev m)))

unfoldable pub list_empty : ℕ → ListHeads → Bool
list_empty head m = m.next head == head

pub list_splice : (list head : ℕ) → ListHeads → ListHeads
unfolding splice_links list_init list_empty
list_splice list head m =
    if not (list_empty list m) then list_init list (splice_links list head (m.next head) m) else m

pub list_first : ℕ → ListHeads → ℕ
list_first head m = m.next head

-- The loop of `list_size`; each round takes one unit of fuel, and `none` is a loop that goes on.
pub size_from : (fuel head pos size : ℕ) → ListHeads → Option ℕ
size_from zero head pos size m = none
size_from (suc fuel) head pos size m =
    let rest = size_from fuel head (m.next pos) (add64 size 1) m in
    if pos == head then some size else rest

pub list_size : (fuel head : ℕ) → ListHeads → Option ℕ
list_size fuel head m = size_from fuel head (m.next head) 0 m
