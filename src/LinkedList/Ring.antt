-- ===== src/LinkedList/Ring.antt =====
-- The elements of a list as a sequence, and what the operations of list.c do to it.
use os_course_term.Common.{
  ℕ, zero, suc, ◌+◌, ◌<◌, ◌^◌, ◌≡◌, refl, sym, ◌∙◌, ◌≢◌, arith, true, false, ◌||◌, ◌==◌, List, [],
  ◌∷◌, ◌++◌, length, has, Distinct, some, add64, ==_refl, update_self,
}
use os_course_term.LinkedList.{
  ListHeads, list_init, list_insert, list_add, list_add_tail, list_join, list_del, list_empty,
  list_first, size_from, list_size,
}

-- From `p` the links lead through `xs` to `q`, and back.
abbrev pub Segment : ListHeads → (p : ℕ) → List ℕ → (q : ℕ) → Type 0
Segment m p [] q = (m.next p ≡ q) × (m.prev q ≡ p)
Segment m p (x ∷ xs) q = (m.next p ≡ x) × (m.prev x ≡ p) × Segment m x xs q

-- The list of `head` has the elements `xs`.
pub record IsRing (m : ListHeads) (head : ℕ) (xs : List ℕ) : Type 0 where
  pub links : Segment m head xs head
  pub distinct : Distinct (head ∷ xs)

pub Segment-frame :
    (m m' : ListHeads) (p : ℕ) (xs : List ℕ) (q : ℕ)
    → ((i : ℕ) → has i (p ∷ xs) ≡ true → m'.next i ≡ m.next i)
    → ((i : ℕ) → has i (q ∷ xs) ≡ true → m'.prev i ≡ m.prev i)
    → Segment m p xs q
    → Segment m' p xs q
Segment-frame m m' p [] q same same' (n, r) =
    (same p (ground arith) ∙ n, same' q (ground arith) ∙ r)
Segment-frame m m' p (x ∷ xs) q same same' (n, r, s) = (
  same p (ground arith) ∙ n,
  same' x (ground arith) ∙ r,
  Segment-frame m m' x xs q (λ i h. same i (ground arith)) (λ i h. same' i (ground arith)) s,
)

pub list_init-IsRing : (head : ℕ) (m : ListHeads) → IsRing (list_init head m) head []
unfolding list_init
list_init-IsRing head m = record {
  links = (update_self m.next head head, update_self m.prev head head);
  distinct = (refl, tt);
}

-- `list_add` puts a new element in front.
pub list_add-IsRing :
    (m : ListHeads) (new head : ℕ) (xs : List ℕ)
    → IsRing m head xs
    → has new (head ∷ xs) ≡ false
    → IsRing (list_add new head m) head (new ∷ xs)
unfolding list_add list_insert
list_add-IsRing m new head [] v out = record {
  links = ground (arith, v.links);
  distinct = ground (arith, v.distinct);
}
list_add-IsRing m new head (x ∷ xs) v out = record {
  links = (
    ground (arith, v.links, v.distinct),
    ground (arith, v.links, v.distinct),
    (
      ground (arith, v.links, v.distinct),
      ground (arith, v.links, v.distinct),
      Segment-frame m (list_add new head m) x xs head (λ i h. ground (arith, v.links, v.distinct))
          (λ i h. ground (arith, v.links, v.distinct)) v.links.2,
    ),
  );
  distinct = ground (arith, v.distinct);
}

-- The address of the element before `q`.
last : ℕ → List ℕ → ℕ
last p [] = p
last p (x ∷ xs) = last x xs

has-last : (p : ℕ) (xs : List ℕ) → has (last p xs) (p ∷ xs) ≡ true
unfolding last
has-last p [] = ground arith
has-last p (x ∷ xs) = ground (arith, has-last x xs)

Segment-last :
    (m : ListHeads) (p : ℕ) (xs : List ℕ) (q : ℕ)
    → Segment m p xs q
    → (m.prev q ≡ last p xs) × (m.next (last p xs) ≡ q)
unfolding last
Segment-last m p [] q (n, r) = (r, n)
Segment-last m p (x ∷ xs) q (n, r, s) = Segment-last m x xs q s

insert_last :
    (m : ListHeads) (new p : ℕ) (xs : List ℕ) (q : ℕ)
    → Segment m p xs q
    → has q xs ≡ false
    → Distinct (p ∷ xs)
    → has new (p ∷ q ∷ xs) ≡ false
    → Segment (list_insert new (last p xs) q m) p (xs ++ new ∷ []) q
unfolding list_insert last
insert_last m new p [] q s o d out = ground arith
insert_last m new p (x ∷ xs) q (n, r, s) o d out = (
  ground (arith, has-last x xs),
  ground arith,
  insert_last m new x xs q s (ground arith) d.1 (ground arith),
)

has-append : (i : ℕ) (xs ys : List ℕ) → has i (xs ++ ys) ≡ (has i xs || has i ys)
has-append i [] ys = refl
has-append i (x ∷ xs) ys = ground (arith, has-append i xs ys)

Distinct-append_one :
    (xs : List ℕ) (new : ℕ) → Distinct xs → has new xs ≡ false → Distinct (xs ++ new ∷ [])
Distinct-append_one [] new d out = (refl, tt)
Distinct-append_one (x ∷ xs) new d out =
    (ground (arith, has-append x xs (new ∷ [])), Distinct-append_one xs new d.1 (ground arith))

-- `list_add_tail` puts a new element at the end.
pub list_add_tail-IsRing :
    (m : ListHeads) (new head : ℕ) (xs : List ℕ)
    → IsRing m head xs
    → has new (head ∷ xs) ≡ false
    → IsRing (list_add_tail new head m) head (xs ++ new ∷ [])
unfolding list_add_tail
list_add_tail-IsRing m new head xs v out = record {
  links =
      rw (Segment-last m head xs head v.links).0
        (insert_last m new head xs head v.links v.distinct.0 v.distinct (ground arith));
  distinct = Distinct-append_one (head ∷ xs) new v.distinct out;
}

-- `list_del` on an element whose neighbours are `p` and the first of what follows.
join_around :
    (m : ListHeads) (p x : ℕ) (ys : List ℕ) (q : ℕ)
    → (m.next p ≡ x) × (m.prev x ≡ p) × Segment m x ys q
    → has p ys ≡ false
    → has q ys ≡ false
    → Distinct ys
    → Segment (list_del x m) p ys q
unfolding list_del list_join
join_around m p x [] q (n, r, s) op oq d = ground arith
join_around m p x (y ∷ ys) q (n, r, (n', r', s)) op oq d = (
  ground arith,
  ground arith,
  Segment-frame m (list_del x m) y ys q (λ i h. ground arith) (λ i h. ground arith) s,
)

Segment-split :
    (m : ListHeads) (p x : ℕ) (xs ys : List ℕ) (q : ℕ)
    → Segment m p (xs ++ x ∷ ys) q
    → Segment m p xs x × Segment m x ys q
Segment-split m p x [] ys q (n, r, s) = ((n, r), s)
Segment-split m p x (z ∷ xs) ys q (n, r, s) =
    let (l, t) = Segment-split m z x xs ys q s in ((n, r, l), t)

first_of : List ℕ → ℕ → ℕ
first_of [] q = q
first_of (y ∷ ys) q = y

Segment-first :
    (m : ListHeads) (x : ℕ) (ys : List ℕ) (q : ℕ) → Segment m x ys q → m.next x ≡ first_of ys q
unfolding first_of
Segment-first m x [] q (n, r) = n
Segment-first m x (y ∷ ys) q (n, r, s) = n

pub list_empty_lem :
    (m : ListHeads) (head : ℕ) (x : ℕ) (xs : List ℕ)
    → IsRing m head (x ∷ xs)
    → (list_empty head m ≡ false) × (list_first head m ≡ x)
unfolding list_empty list_first
list_empty_lem m head x xs v = ground (arith, v.links, v.distinct)

size_from-Segment :
    (m : ListHeads) (head p : ℕ) (xs : List ℕ) (fuel size : ℕ)
    → Segment m p xs head
    → has head xs ≡ false
    → length xs < fuel
    → size + length xs < 2 ^ 64
    → size_from fuel head (m.next p) size m ≡ some (size + length xs)
unfolding size_from
size_from-Segment m head p xs zero size s out h g = absurd (omega arith)
size_from-Segment m head p [] (suc fuel) size (n, r) out h g =
    let e : size + 0 ≡ size = omega arith in rw (n, ==_refl head, e) refl
size_from-Segment m head p (x ∷ xs) (suc fuel) size (n, r, s) out h g =
    let next : add64 size 1 ≡ size + 1 = omega arith in
    let e : size + suc (length xs) ≡ size + 1 + length xs = omega arith in
    let other : (x == head) ≡ false = ground arith in
    rw (n, other, next, e)
      (size_from-Segment m head x xs fuel (size + 1) s (ground arith) (omega arith) (omega arith))

-- `list_size` counts the elements.
pub list_size_lem :
    (m : ListHeads) (head : ℕ) (xs : List ℕ) (fuel : ℕ)
    → IsRing m head xs
    → length xs < fuel
    → length xs < 2 ^ 64
    → list_size fuel head m ≡ some (length xs)
unfolding list_size
list_size_lem m head xs fuel v h g =
    let e : 0 + length xs ≡ length xs = omega arith in
    rw (sym e) (size_from-Segment m head head xs fuel 0 v.links v.distinct.0 h (omega arith))

first_of-ne : (z : ℕ) (ys : List ℕ) (q : ℕ) → z ≢ q → has z ys ≡ false → z ≢ first_of ys q
unfolding first_of
first_of-ne z [] q ne out = ne
first_of-ne z (y ∷ ys) q ne out = ground arith

list_del-Segment :
    (m : ListHeads) (p x : ℕ) (xs ys : List ℕ) (q : ℕ)
    → Segment m p (xs ++ x ∷ ys) q
    → Distinct (p ∷ xs ++ x ∷ ys)
    → has q (xs ++ x ∷ ys) ≡ false
    → Segment (list_del x m) p (xs ++ ys) q
unfolding list_del list_join
list_del-Segment m p x [] ys q s d out =
    join_around m p x ys q s (ground arith) (ground arith) d.1.1
list_del-Segment m p x (z ∷ xs) ys q (n, r, s) d out =
    let (before, after) = Segment-split m z x xs ys q s in
    let prev : m.prev x ≡ last z xs = (Segment-last m z xs x before).0 in
    let next : m.next x ≡ first_of ys q = Segment-first m x ys q after in
    let apart = first_of-ne z ys q (ground arith) (ground (arith, has-append z xs (x ∷ ys))) in
    (
      ground (arith, has-last z xs, has-append p xs (x ∷ ys)),
      ground arith,
      list_del-Segment m z x xs ys q s d.1 (ground arith),
    )

Distinct-drop : (xs : List ℕ) (x : ℕ) (ys : List ℕ) → Distinct (xs ++ x ∷ ys) → Distinct (xs ++ ys)
Distinct-drop [] x ys d = d.1
Distinct-drop (z ∷ xs) x ys d =
    (ground (arith, has-append z xs ys, has-append z xs (x ∷ ys)), Distinct-drop xs x ys d.1)

-- `list_del` takes an element out of its list.
pub list_del-IsRing :
    (m : ListHeads) (head x : ℕ) (xs ys : List ℕ)
    → IsRing m head (xs ++ x ∷ ys)
    → IsRing (list_del x m) head (xs ++ ys)
list_del-IsRing m head x xs ys v = record {
  links = list_del-Segment m head x xs ys head v.links v.distinct v.distinct.0;
  distinct = Distinct-drop (head ∷ xs) x ys v.distinct;
}
