-- ===== src/LinkedList/Splice.antt =====
-- `list_splice` of list.c: one list is put in front of another, and is empty afterwards.
use os_course_term.Common.{
  ℕ, ◌≡◌, refl, sym, ap, ◌∙◌, subst, ◌≢◌, arith, true, false, ◌||◌, List, [], ◌∷◌, ◌++◌, has,
  Distinct,
}
use os_course_term.LinkedList.{ListHeads, list_init, splice_links, list_splice, list_empty}
use os_course_term.LinkedList.Ring.{
  IsRing, list_init-IsRing, Segment, Segment-frame, list_empty_lem,
}

pub has-append : (i : ℕ) (xs ys : List ℕ) → has i (xs ++ ys) ≡ (has i xs || has i ys)
has-append i [] ys = refl
has-append i (x ∷ xs) ys = ground (arith, has-append i xs ys)

-- The last element of a segment.
last_of : ℕ → List ℕ → ℕ
last_of x [] = x
last_of x (z ∷ zs) = last_of z zs

Segment-last :
    (m : ListHeads) (x : ℕ) (xs : List ℕ) (q : ℕ) → Segment m x xs q → m.prev q ≡ last_of x xs
unfolding last_of
Segment-last m x [] q (n, r) = r
Segment-last m x (z ∷ zs) q (n, r, s) = Segment-last m z zs q s

has-last_of : (x : ℕ) (xs : List ℕ) → has (last_of x xs) (x ∷ xs) ≡ true
unfolding last_of
has-last_of x [] = ground arith
has-last_of x (z ∷ zs) = ground (arith, has-last_of z zs)

-- What is known of the links after the splice: `nx` was the first of the other list.
record Relinks (m m' : ListHeads) (list head first last nx : ℕ) : Type 0 where
  head_next : m'.next head ≡ first
  first_prev : m'.prev first ≡ head
  last_next : m'.next last ≡ nx
  nx_prev : m'.prev nx ≡ last
  nexts : (i : ℕ) → i ≢ list → i ≢ head → i ≢ last → m'.next i ≡ m.next i
  prevs : (i : ℕ) → i ≢ list → i ≢ first → i ≢ nx → m'.prev i ≡ m.prev i

apart : (a b : ℕ) (xs : List ℕ) → has a xs ≡ true → has b xs ≡ false → b ≢ a
apart a b xs h g e = let clash : true ≡ false = sym h ∙ ap (λ (i : ℕ). has i xs) (sym e) ∙ g in cc

has-next :
    (m : ListHeads) (head : ℕ) (ys : List ℕ)
    → Segment m head ys head
    → has (m.next head) (head ∷ ys) ≡ true
has-next m head [] (n, p) = ground (arith, n)
has-next m head (y ∷ ys) (n, p, t) = ground (arith, n)

module _ (m m' : ListHeads) (list head first nx : ℕ) where
  -- The segment of the list leads on to the other list.
  glue :
      (x : ℕ) (xs ys : List ℕ)
      → Relinks m m' list head first (last_of x xs) nx
      → nx ≡ m.next head
      → Segment m x xs list
      → Segment m head ys head
      → Distinct (list ∷ head ∷ x ∷ xs ++ ys)
      → has first (head ∷ xs ++ ys) ≡ false
      → Segment m' x (xs ++ ys) head
  unfolding last_of
  glue x [] [] r e s (n, p) d f =
      (r.last_next ∙ e ∙ n, subst (λ (i : ℕ). m'.prev i ≡ x) (e ∙ n) r.nx_prev)
  glue x [] (y ∷ ys) r e s (n, p, t) d f = (
    r.last_next ∙ e ∙ n,
    subst (λ (i : ℕ). m'.prev i ≡ x) (e ∙ n) r.nx_prev,
    Segment-frame m m' y ys head
        (λ i h. r.nexts i (ground (arith, d)) (ground (arith, d)) (ground (arith, d)))
        (λ i h. r.prevs i (ground (arith, d)) (ground (arith, d, f)) (ground (arith, d, e, n))) t,
  )
  glue x (z ∷ zs) ys r e (n, p, s) t d f =
      let inside : has (last_of z zs) (z ∷ zs ++ ys) ≡ true =
        has-append (last_of z zs) (z ∷ zs) ys ∙ rw (has-last_of z zs) refl in
      let following : has nx (head ∷ ys) ≡ true =
        subst (λ (i : ℕ). has i (head ∷ ys) ≡ true) (sym e) (has-next m head ys t) in
      let other : has z (head ∷ ys) ≡ false = ground (arith, d, has-append z zs ys) in
      (
        r.nexts x (ground (arith, d)) (ground (arith, d))
              (apart (last_of z zs) x (z ∷ zs ++ ys) inside d.1.1.0)
            ∙ n,
        r.prevs z (ground (arith, d)) (ground (arith, f)) (apart nx z (head ∷ ys) following other)
            ∙ p,
        glue z zs ys r e s t (ground (arith, d), (ground (arith, d), d.1.1.1)) (ground (arith, f)),
      )

module _ (m : ListHeads) (list head : ℕ) where
  abbrev spliced : ListHeads
  spliced = list_init list (splice_links list head (m.next head) m)

  -- The links after the splice, of different nodes.
  spliced-Relinks :
      (first last nx : ℕ)
      → m.next list ≡ first
      → m.prev list ≡ last
      → m.next head ≡ nx
      → head ≢ list
      → first ≢ list
      → last ≢ list
      → nx ≢ list
      → head ≢ last
      → first ≢ nx
      → Relinks m spliced list head first last nx
  unfolding list_init splice_links
  spliced-Relinks first last nx a b c hl fl ll nl hx fx = record {
    head_next = ground (arith, a, b, c);
    first_prev = ground (arith, a, b, c);
    last_next = ground (arith, a, b, c);
    nx_prev = ground (arith, a, b, c);
    nexts = λ i p q r. ground (arith, a, b, c);
    prevs = λ i p q r. ground (arith, a, b, c);
  }

  -- `list_splice` of two lists without a common node puts the first in front of the second, and
  -- leaves the first empty.
  pub list_splice-IsRing :
      (xs ys : List ℕ)
      → IsRing m list xs
      → IsRing m head ys
      → Distinct (list ∷ head ∷ xs ++ ys)
      → IsRing (list_splice list head m) head (xs ++ ys) × IsRing (list_splice list head m) list []
  unfolding list_splice list_empty
  list_splice-IsRing [] ys v w d =
      let empty : list_empty list m ≡ true = ground (arith, v.links) in rw empty (w, v)
  list_splice-IsRing (x ∷ xs) ys v w d =
      let some = (list_empty_lem m list x xs v).0 in
      let last = Segment-last m x xs list v.links.2 in
      let inside : has (last_of x xs) (x ∷ xs ++ ys) ≡ true =
        has-append (last_of x xs) (x ∷ xs) ys ∙ rw (has-last_of x xs) refl in
      let following = has-next m head ys w.links in
      let list_out : has list (head ∷ ys) ≡ false = ground (arith, d.0, has-append list xs ys) in
      let x_out : has x (head ∷ ys) ≡ false = ground (arith, d, has-append x xs ys) in
      let r : Relinks m spliced list head x (last_of x xs) (m.next head) =
        spliced-Relinks x (last_of x xs) (m.next head) v.links.0 last refl (ground (arith, d.0))
          (ground (arith, d.0))
          (λ e. apart (last_of x xs) list (x ∷ xs ++ ys) inside (ground (arith, d.0)) (sym e))
          (λ e. apart (m.next head) list (head ∷ ys) following list_out (sym e))
          (apart (last_of x xs) head (x ∷ xs ++ ys) inside d.1.0)
          (apart (m.next head) x (head ∷ ys) following x_out) in
      let first_out : has x (head ∷ xs ++ ys) ≡ false = ground (arith, d) in
      rw some (
        record {
          links = (
            r.head_next,
            r.first_prev,
            glue m spliced list head x (m.next head) x xs ys r refl v.links.2 w.links d first_out,
          );
          distinct = d.1;
        },
        list_init-IsRing list (splice_links list head (m.next head) m),
      )
