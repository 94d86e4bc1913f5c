-- ===== src/LinkedList/Tests.antt =====
-- A list of two elements, and the theorems about list.c at it.
use os_course_term.Common.{◌≡◌, refl, arith, false, ◌==◌, if◌then◌else◌, [], ◌∷◌, some}
use os_course_term.LinkedList.{list_splice, ListHeads, list_del, list_empty, list_first, list_size}
use os_course_term.LinkedList.Splice.{list_splice-IsRing}
use os_course_term.LinkedList.Ring.{IsRing, list_del-IsRing, list_empty_lem, list_size_lem}

-- The head is at 8, the elements at 16 and 24.
abbrev heads : ListHeads
heads = record {
  next = λ p. if p == 8 then 16 else if p == 16 then 24 else 8;
  prev = λ p. if p == 8 then 24 else if p == 16 then 8 else 16;
}

heads-IsRing : IsRing heads 8 (16 ∷ 24 ∷ [])
heads-IsRing = record {
  links = (refl, refl, (refl, refl, (refl, refl)));
  distinct = (refl, (refl, (refl, tt)));
}

list_del-IsRing_example : IsRing (list_del 24 heads) 8 (16 ∷ [])
list_del-IsRing_example = list_del-IsRing heads 8 24 (16 ∷ []) [] heads-IsRing

list_empty_lem_example : (list_empty 8 heads ≡ false) × (list_first 8 heads ≡ 16)
list_empty_lem_example = list_empty_lem heads 8 16 (24 ∷ []) heads-IsRing

list_size_lem_example : list_size 3 8 heads ≡ some 2
list_size_lem_example =
    list_size_lem heads 8 (16 ∷ 24 ∷ []) 3 heads-IsRing (omega arith) (omega arith)

-- The list of 4 with 10 and 20, and the list of 8 with 30.
abbrev two_lists : ListHeads
two_lists = record {
  next = λ p.
      if p == 4
      then 10
      else if p == 10
      then 20
      else if p == 20
      then 4
      else if p == 8
      then 30
      else 8;
  prev = λ p.
      if p == 4
      then 20
      else if p == 10
      then 4
      else if p == 20
      then 10
      else if p == 8
      then 30
      else 8;
}

list_splice-IsRing_example :
    IsRing (list_splice 4 8 two_lists) 8 (10 ∷ 20 ∷ 30 ∷ [])
    × IsRing (list_splice 4 8 two_lists) 4 []
list_splice-IsRing_example =
    list_splice-IsRing two_lists 4 8 (10 ∷ 20 ∷ []) (30 ∷ [])
      (record {
        links = (refl, refl, (refl, refl, (refl, refl)));
        distinct = (refl, (refl, (refl, tt)));
      })
      (record { links = (refl, refl, (refl, refl)); distinct = (refl, (refl, tt)) })
      (refl, (refl, (refl, (refl, (refl, tt)))))
