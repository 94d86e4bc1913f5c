-- ===== src/Buddy/Tree.antt =====
-- The tree of blocks: ancestors, and nodes of which neither lies in the other's block.
use os_course_term.Common.{
  ℕ, zero, suc, ◌+◌, ◌-◌, ◌*◌, ◌/◌, ◌^◌, ◌≤◌, ◌<◌, ◌≡◌, refl, ◌≢◌, sym, ◌∙◌, ap, arith, pow2-suc,
  pow2_pos, dec_le,
}
use os_course_term.Buddy.FreeLists.{OnLevel}

-- The ancestor `k` levels above.
unfoldable pub up : ℕ → ℕ → ℕ
up zero i = i
up (suc k) i = up k (i / 2)

pub up-suc : (k i : ℕ) → up (suc k) i ≡ up k i / 2
unfolding up
up-suc zero i = refl
up-suc (suc k) i = up-suc k (i / 2)

pub up-le : (k i : ℕ) → up k i ≤ i
unfolding up
up-le zero i = omega arith
up-le (suc k) i = omega (arith, up-le k (i / 2))

-- The nodes of the block of `i`, `k` levels below it, are those from `i * 2 ^ k` on.
pub up_lem : (k i c : ℕ) → i * 2 ^ k ≤ c → c < (i + 1) * 2 ^ k → up k c ≡ i
unfolding up
up_lem zero i c h g = omega arith
up_lem (suc k) i c h g =
    let e : i * 2 ^ suc k ≡ 2 * (i * 2 ^ k) = rw (pow2-suc k) (omega arith) in
    let f : (i + 1) * 2 ^ suc k ≡ 2 * ((i + 1) * 2 ^ k) = rw (pow2-suc k) (omega arith) in
    up_lem k i (c / 2) (omega arith) (omega arith)

pub up_bounds : (k c : ℕ) → (up k c * 2 ^ k ≤ c) × (c < (up k c + 1) * 2 ^ k)
unfolding up
up_bounds zero c = (omega arith, omega arith)
up_bounds (suc k) c =
    let (h, g) = up_bounds k (c / 2) in
    let n : ℕ = up k (c / 2) in
    let e : n * 2 ^ suc k ≡ 2 * (n * 2 ^ k) = rw (pow2-suc k) (omega arith) in
    let f : (n + 1) * 2 ^ suc k ≡ 2 * ((n + 1) * 2 ^ k) = rw (pow2-suc k) (omega arith) in
    (omega arith, omega arith)

pub up-OnLevel : (k lev i : ℕ) → OnLevel (k + lev) i → OnLevel lev (up k i)
unfolding up
up-OnLevel zero lev i o = let e : 0 + lev ≡ lev = omega arith in rw e at o
up-OnLevel (suc k) lev i o =
    up-OnLevel k lev (i / 2) (half-OnLevel (k + lev) i (rw (suc-add k lev) at o))
  where
    suc-add : (k lev : ℕ) → suc k + lev ≡ suc (k + lev)
    suc-add k lev = omega arith

    half-OnLevel : (l i : ℕ) → OnLevel (suc l) i → OnLevel l (i / 2)
    half-OnLevel l i q = omega (arith, q.from, q.below, pow2-suc l)

abbrev pub Unrelated : ℕ → ℕ → Type 0
Unrelated i j = (k : ℕ) → (up k i ≢ j) × (up k j ≢ i)

pub Unrelated-sym : (i j : ℕ) → Unrelated i j → Unrelated j i
Unrelated-sym i j u k = ((u k).1, (u k).0)

-- What is unrelated to a node is unrelated to its children.
pub Unrelated-child : (j p q : ℕ) → q / 2 ≡ p → Unrelated j p → Unrelated j q
unfolding up
Unrelated-child j p q h u k = (λ e. (u (suc k)).0 (up-suc k j ∙ omega (arith, e)), λ e. below k e)
  where
    below : (k : ℕ) → up k q ≢ j
    below zero e = (u 1).0 (omega arith)
    below (suc k) e = (u k).1 (rw h at e)

pub Unrelated-siblings : (p : ℕ) → 1 ≤ p → Unrelated (2 * p) (2 * p + 1)
unfolding up
Unrelated-siblings p h k = (λ e. absurd (omega (arith, up-le k (2 * p))), other k)
  where
    other : (k : ℕ) → up k (2 * p + 1) ≢ 2 * p
    other zero e = absurd (omega arith)
    other (suc k) e = absurd (omega (arith, up-le k ((2 * p + 1) / 2)))

-- What is unrelated to both children of a node is unrelated to the node.
pub Unrelated-parent : (j p : ℕ) → Unrelated j (2 * p) → Unrelated j (2 * p + 1) → Unrelated j p
unfolding up
Unrelated-parent j p u v k = (down k, λ e. (u (suc k)).1 (half ∙ e))
  where
    half : up k (2 * p / 2) ≡ up k p
    half = ap (up k) (omega arith)

    down : (k : ℕ) → up k j ≢ p
    down zero e = (u 1).1 (omega arith)
    down (suc k) e = absurd (omega (arith, up-suc k j, (u k).0, (v k).0))

-- Two nodes of one level are unrelated.
pub Unrelated-level : (lev i j : ℕ) → OnLevel lev i → OnLevel lev j → i ≢ j → Unrelated i j
unfolding up
Unrelated-level lev i j o q ne k = (above k i j o q ne, above k j i q o (λ e. ne (sym e)))
  where
    above : (k i j : ℕ) → OnLevel lev i → OnLevel lev j → i ≢ j → up k i ≢ j
    above zero i j o q ne e = ne e
    above (suc k) i j o q ne e = absurd (omega (arith, up-le k (i / 2), o.from, o.below, q.from))

pub up-add : (m n i : ℕ) → up (m + n) i ≡ up n (up m i)
unfolding up
up-add zero n i = let e : 0 + n ≡ n = omega arith in rw e
up-add (suc m) n i = let e : suc m + n ≡ suc (m + n) = omega arith in rw e (up-add m n (i / 2))

pub up-shift : (k i : ℕ) → up k (i * 2 ^ k) ≡ i
up-shift k i = up_lem k i (i * 2 ^ k) (omega arith) (omega (arith, pow2_pos k))

-- The first leaf below a node.
pub leaf-OnLevel : (k lev i : ℕ) → OnLevel lev i → OnLevel (k + lev) (i * 2 ^ k)
leaf-OnLevel zero lev i o =
    let e : 0 + lev ≡ lev = omega arith in let f : i * 2 ^ 0 ≡ i = omega arith in rw (e, f) o
leaf-OnLevel (suc k) lev i o =
    let e : suc k + lev ≡ suc (k + lev) = omega arith in
    let f : i * 2 ^ suc k ≡ 2 * (i * 2 ^ k) = rw (pow2-suc k) (omega arith) in
    let q : OnLevel (k + lev) (i * 2 ^ k) = leaf-OnLevel k lev i o in
    rw (e, f) (omega (arith, q.from, q.below, pow2-suc (k + lev)))

-- Two ancestors of one node are related.
pub up-not-Unrelated : (c m n : ℕ) → ¬ Unrelated (up m c) (up n c)
up-not-Unrelated c m n u = elim (dec_le m n) [
  | yes h ↦
      let e : n ≡ m + (n - m) = omega arith in
      (u (n - m)).0 (sym (up-add m (n - m) c) ∙ ap (λ (k : ℕ). up k c) (sym e))
  | no h ↦
      let e : m ≡ n + (m - n) = omega arith in
      (u (m - n)).1 (sym (up-add n (m - n) c) ∙ ap (λ (k : ℕ). up k c) (sym e))
]
