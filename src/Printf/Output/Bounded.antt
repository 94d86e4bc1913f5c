-- ===== src/Printf/Output/Bounded.antt =====
-- `vsnprintf` writes what `vprintf` prints, cut to its buffer.
use os_course_term.Common.{
  ℕ, zero, suc, ◌+◌, ◌-◌, ◌≤◌, ◌<◌, ◌≡◌, refl, sym, ap, ◌∙◌, subst, arith, true, false, ltb, leb,
  if◌then◌else◌, ◌⊎◌, inl, inr, List, [], ◌∷◌, ◌++◌, length, Option, none, some, Bool-cases, update,
  update_self, update_ne, dec_lt,
}
use os_course_term.Printf.Format.{Arg, Store, Directive, directive}
use os_course_term.Printf.Output.{
  Step, next, stop, run_directive, and_put, put_chars, print_loop, Buffer, put_in_buffer,
}
use os_course_term.Printf.Output.Chars.{Loop, chars_of, chars_after, prepend, length_append}

-- The character at an index; the final 0 stands behind the last one.
pub char_at : List ℕ → ℕ → ℕ
char_at [] j = 0
char_at (c ∷ cs) zero = c
char_at (c ∷ cs) (suc j) = char_at cs j

abbrev pub smaller : ℕ → ℕ → ℕ
smaller a b = if ltb a b then a else b

-- The characters were written from `printed` on, as far as all but the last byte of the buffer goes.
pub record Wrote (size : ℕ) (b : Buffer) (cs : List ℕ) (b' : Buffer) : Type 0 where
  pub count : b'.printed ≡ smaller (b.printed + length cs) (size - 1)
  pub chars : (j : ℕ) → b.printed + j < b'.printed → b'.outbuf (b.printed + j) ≡ char_at cs j
  pub others : (j : ℕ) → (j < b.printed) ⊎ (b'.printed ≤ j) → b'.outbuf j ≡ b.outbuf j

char_at-front : (a b : List ℕ) (j : ℕ) → j < length a → char_at (a ++ b) j ≡ char_at a j
unfolding char_at
char_at-front [] b j h = absurd (omega arith)
char_at-front (x ∷ a) b zero h = refl
char_at-front (x ∷ a) b (suc j) h = char_at-front a b j (omega arith)

char_at-back : (a b : List ℕ) (j : ℕ) → char_at (a ++ b) (length a + j) ≡ char_at b j
unfolding char_at
char_at-back [] b j = let same : 0 + j ≡ j = omega arith in rw same refl
char_at-back (x ∷ a) b j =
    let same : suc (length a) + j ≡ suc (length a + j) = omega arith in rw same (char_at-back a b j)

module _ (size : ℕ) where
  Wrote-nothing : (b : Buffer) → b.printed + 1 < size → Wrote size b [] b
  Wrote-nothing b h = record {
    count = ground arith;
    chars = λ j g. absurd (omega arith);
    others = λ j o. refl;
  }

  -- What is written next stands behind.
  Wrote-append :
      (b b1 b2 : Buffer) (cs ds : List ℕ)
      → b.printed + length cs + 1 < size
      → Wrote size b cs b1
      → Wrote size b1 ds b2
      → Wrote size b (cs ++ ds) b2
  Wrote-append b b1 b2 cs ds h v w =
      let here : b1.printed ≡ b.printed + length cs = ground (arith, v.count) in
      record {
        count = ground (arith, here, w.count, length_append cs ds);
        chars = λ j g. elim (dec_lt j (length cs)) [
          | yes p ↦
              w.others (b.printed + j) (inl (omega (arith, here)))
              ∙ v.chars j (omega (arith, here))
              ∙ sym (char_at-front cs ds j p)
          | no np ↦
              let k : ℕ = j - length cs in
              let place : b.printed + j ≡ b1.printed + k = omega (arith, here) in
              let split : j ≡ length cs + k = omega arith in
              ap b2.outbuf place
              ∙ w.chars k (omega (arith, place))
              ∙ sym (char_at-back cs ds k)
              ∙ ap (char_at (cs ++ ds)) (sym split)
        ];
        others = λ j o. outside here j o;
      }
    where
      outside :
          b1.printed ≡ b.printed + length cs
          → (j : ℕ) → (j < b.printed) ⊎ (b2.printed ≤ j)
          → b2.outbuf j ≡ b.outbuf j
      outside here j (inl p) = w.others j (inl (omega (arith, here))) ∙ v.others j (inl p)
      outside here j (inr p) = w.others j (inr p) ∙ v.others j (inr (ground (arith, here, w.count)))

  -- When the buffer is full, nothing more is written.
  Wrote-cut :
      (b b1 : Buffer) (cs ds : List ℕ)
      → size ≤ b.printed + length cs + 1
      → Wrote size b cs b1
      → Wrote size b (cs ++ ds) b1
  Wrote-cut b b1 cs ds h v = record {
    count = ground (arith, v.count, length_append cs ds);
    chars = λ j g. v.chars j g ∙ sym (char_at-front cs ds j (ground (arith, v.count)));
    others = v.others;
  }

  abbrev one_more : ℕ → Buffer → Buffer
  one_more c b = record { outbuf = update b.outbuf b.printed c; printed = b.printed + 1 }

  Wrote-one : (c : ℕ) (b : Buffer) → b.printed + 1 < size → Wrote size b (c ∷ []) (one_more c b)
  unfolding char_at
  Wrote-one c b h = record {
    count = ground arith;
    chars = λ j g.
        let first : j ≡ 0 = omega arith in
        let place : b.printed + j ≡ b.printed = omega arith in
        rw (place, first) (update_self b.outbuf b.printed c);
    others = λ j o. update_ne b.outbuf b.printed c j (elsewhere j o);
  }
    where
      elsewhere : (j : ℕ) → (j < b.printed) ⊎ (b.printed + 1 ≤ j) → ¬ (j ≡ b.printed)
      elsewhere j (inl p) e = omega arith
      elsewhere j (inr p) e = omega arith

  put_full :
      (c : ℕ) (b : Buffer)
      → b.printed + 1 < size
      → leb size (b.printed + 1 + 1) ≡ true
      → put_in_buffer size c b ≡ stop (one_more c b)
  unfolding put_in_buffer
  put_full c b h full =
      let inside : ltb b.printed size ≡ true = ground arith in rw (inside, full) refl

  put_room :
      (c : ℕ) (b : Buffer)
      → b.printed + 1 < size
      → leb size (b.printed + 1 + 1) ≡ false
      → put_in_buffer size c b ≡ next (one_more c b)
  unfolding put_in_buffer
  put_room c b h room =
      let inside : ltb b.printed size ≡ true = ground arith in rw (inside, room) refl

  -- The loop goes on as long as there is room for one more character and the final 0.
  abbrev Fills : Buffer → List ℕ → Step Buffer → Type 0
  Fills b cs r =
      (b' : Buffer) × Wrote size b cs b'
      × (r ≡ (if ltb (b.printed + length cs + 1) size then next b' else stop b'))

  put_chars-Fills :
      (cs : List ℕ) (b : Buffer)
      → b.printed + 1 < size
      → Fills b cs (put_chars (put_in_buffer size) (λ o. o.printed) cs b)
  unfolding put_chars put_in_buffer
  put_chars-Fills [] b h = (
    b,
    Wrote-nothing b h,
    let room : ltb (b.printed + 0 + 1) size ≡ true = ground arith in rw room refl,
  )
  put_chars-Fills (c ∷ cs) b h =
      let one : Wrote size b (c ∷ []) (one_more c b) = Wrote-one c b h in
      elim (Bool-cases (leb size (b.printed + 1 + 1))) [
        | inl full ↦
            let no_room : ltb (b.printed + suc (length cs) + 1) size ≡ false = ground arith in
            (
              one_more c b,
              Wrote-cut b (one_more c b) (c ∷ []) cs (ground arith) one,
              ap
                    (λ (r : Step Buffer).
                      and_put r (put_chars (put_in_buffer size) (λ o. o.printed) cs))
                    (put_full c b h full)
                  ∙ rw no_room refl,
            )
        | inr room ↦
            let (b', w, e) = put_chars-Fills cs (one_more c b) (ground arith) in
            let total : b.printed + 1 + length cs + 1 ≡ b.printed + suc (length cs) + 1 =
              omega arith in
            (
              b',
              Wrote-append b (one_more c b) b' (c ∷ []) cs (ground arith) one w,
              ap
                    (λ (r : Step Buffer).
                      and_put r (put_chars (put_in_buffer size) (λ o. o.printed) cs))
                    (put_room c b h room)
                  ∙ rw (e, total) refl,
            )
      ]

  -- The same for the rest of the format, when its characters are defined.
  abbrev pub FillsAll : Buffer → Option (List ℕ) → Step (Buffer × List Store) → Type 0
  FillsAll b none r = Unit {0}
  FillsAll b (some cs) r =
      (b' : Buffer) × (stores : List Store) × Wrote size b cs b'
      × (r
          ≡ (if ltb (b.printed + length cs + 1) size then next (b', stores) else stop (b', stores)))

  FillsAll-room :
      (b b1 : Buffer) (cs : List ℕ) (rest : Option (List ℕ)) (r : Step (Buffer × List Store))
      → b.printed + length cs + 1 < size
      → Wrote size b cs b1
      → FillsAll b1 rest r
      → FillsAll b (prepend cs rest) r
  FillsAll-room b b1 cs none r h v f = tt
  FillsAll-room b b1 cs (some ds) r h v (b2, stores, w, e) =
      let here : b1.printed ≡ b.printed + length cs = ground (arith, v.count) in
      let total : b.printed + length (cs ++ ds) + 1 ≡ b1.printed + length ds + 1 =
        omega (arith, here, length_append cs ds) in
      (b2, stores, Wrote-append b b1 b2 cs ds h v w, rw total e)

  FillsAll-full :
      (b b1 : Buffer) (cs : List ℕ) (rest : Option (List ℕ)) (stores : List Store)
      → size ≤ b.printed + length cs + 1
      → Wrote size b cs b1
      → FillsAll b (prepend cs rest) (stop (b1, stores))
  FillsAll-full b b1 cs none stores h v = tt
  FillsAll-full b b1 cs (some ds) stores h v =
      let no_room : ltb (b.printed + length (cs ++ ds) + 1) size ≡ false =
        ground (arith, length_append cs ds) in
      (b1, stores, Wrote-cut b b1 cs ds h v, rw no_room refl)

  directive-FillsAll :
      (chars : List ℕ → List Arg → ℕ → Option (List ℕ))
      (loop : Loop (put_in_buffer size) (λ o. o.printed)) (d : Option Directive) (b : Buffer)
      (stores : List Store)
      → b.printed + 1 < size
      → ((rest : List ℕ) (args : List Arg) (b' : Buffer) (s : List Store)
          → b'.printed + 1 < size
          → FillsAll b' (chars rest args b'.printed) (loop rest args b' s))
      → FillsAll b
          (chars_after chars b.printed d)
          (run_directive (put_in_buffer size) (λ o. o.printed) loop d b stores)
  directive-FillsAll chars loop none b stores h ih = tt
  directive-FillsAll chars loop (some d) b stores h ih =
      let (b1, v, e) = put_chars-Fills d.chars b h in
      elim (Bool-cases (ltb (b.printed + length d.chars + 1) size)) [
        | inl room ↦
            let here : b1.printed ≡ b.printed + length d.chars = ground (arith, v.count) in
            let rest : FillsAll b1 (chars d.rest d.args b1.printed)
                (loop d.rest d.args b1 (stores ++ d.stores)) =
              ih d.rest d.args b1 (stores ++ d.stores) (ground (arith, here)) in
            rw (e, room)
              (FillsAll-room b b1 d.chars (chars d.rest d.args (b.printed + length d.chars))
                (loop d.rest d.args b1 (stores ++ d.stores)) (ground arith) v
                (subst
                  (λ (n : ℕ).
                    FillsAll b1 (chars d.rest d.args n)
                      (loop d.rest d.args b1 (stores ++ d.stores)))
                  here rest))
        | inr full ↦
            rw (e, full)
              (FillsAll-full b b1 d.chars (chars d.rest d.args (b.printed + length d.chars)) stores
                (ground arith) v)
      ]

  pub print_loop-FillsAll :
      (fuel : ℕ) (format : List ℕ) (args : List Arg) (b : Buffer) (stores : List Store)
      → b.printed + 1 < size
      → FillsAll b
          (chars_of fuel format args b.printed)
          (print_loop (put_in_buffer size) (λ o. o.printed) fuel format args b stores)
  unfolding print_loop chars_of
  print_loop-FillsAll fuel [] args b stores h = (
    b,
    stores,
    Wrote-nothing b h,
    let room : ltb (b.printed + 0 + 1) size ≡ true = ground arith in rw room refl,
  )
  print_loop-FillsAll zero (c ∷ cs) args b stores h = tt
  print_loop-FillsAll (suc fuel) (c ∷ cs) args b stores h =
      directive-FillsAll (chars_of fuel) (print_loop (put_in_buffer size) (λ o. o.printed) fuel)
        (directive b.printed c cs args) b stores h
        λ rest given b' s g. print_loop-FillsAll fuel rest given b' s g
