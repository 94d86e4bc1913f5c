-- ===== src/Boot/Scan.antt =====
-- The scan of the memory map, against the list of its entries.
use os_course_term.Common.{
  ℕ, zero, suc, ◌+◌, ◌%◌, ◌^◌, ◌≤◌, ◌<◌, ◌≡◌, refl, ◌∙◌, arith, ◌==◌, if◌then◌else◌, inl, inr, List,
  [], ◌∷◌, ◌++◌, length, ok, Bool-cases, lt→ltb, le→ltb,
}
use mathlib.Core.List.{append-nil, append_assoc}
use os_course_term.Buddy.Init.{InitOperation, make_segment_available}
use os_course_term.Boot.{
  MmapEntry, MultibootInfo, add_op, add_segment, segment_end, larger, max_init_ops, scan_segments,
}

-- The operation for an entry, if it is available.
abbrev pub ops_of : MmapEntry → List InitOperation
ops_of e =
    if e.kind == 1
    then record { operation = make_segment_available; start = e.addr; end = segment_end e } ∷ []
    else []

abbrev pub segments_ops : List MmapEntry → List InitOperation
segments_ops [] = []
segments_ops (e ∷ es) = ops_of e ++ segments_ops es

-- Where the last segment ends, or `from` if that is later.
abbrev pub memory_end : (from : ℕ) → List MmapEntry → ℕ
memory_end from [] = from
memory_end from (e ∷ es) = memory_end (larger (segment_end e) from) es

pub length_append : (a b : List InitOperation) → length (a ++ b) ≡ length a + length b
length_append [] b = omega arith
length_append (x ∷ a) b = omega (arith, length_append a b)

pub add_op-ok :
    {S : Type 0} (operation start end : ℕ) (ops : List InitOperation) (s : S)
    → length ops < max_init_ops
    → add_op operation start end ops s
      ≡ ok (ops ++ (record { operation = operation; start = start; end = end } ∷ [])) s
unfolding add_op
add_op-ok operation start end ops s h = rw (lt→ltb (length ops) max_init_ops h) refl

add_segment-ok :
    {S : Type 0} (e : MmapEntry) (ops : List InitOperation) (s : S)
    → length ops + length (ops_of e) ≤ max_init_ops
    → add_segment e ops s ≡ ok (ops ++ ops_of e) s
add_segment-ok e ops s h = elim (Bool-cases (e.kind == 1)) [
  | inr other ↦ rw (other, append-nil ops) refl
  | inl available ↦
      let one : length (ops_of e) ≡ 1 = rw available refl in
      rw available
        (add_op-ok make_segment_available e.addr (segment_end e) ops s (omega (arith, one)))
]

module _ (segments : ℕ → MmapEntry) (mboot_info : MultibootInfo) where
  -- From `pos` on, the memory map consists of the entries, whose sizes do not wrap around.
  abbrev pub LaysOut : (pos : ℕ) → List MmapEntry → Type 0
  LaysOut pos [] = mboot_info.mmap_length ≤ pos
  LaysOut pos (e ∷ es) =
      (segments ((mboot_info.mmap_addr + pos) % 2 ^ 32) ≡ e)
      × (pos < mboot_info.mmap_length)
      × (pos + e.size + 4 < 2 ^ 32)
      × LaysOut (pos + e.size + 4) es

  pub scan_segments-ok :
      {S : Type 0} (fuel pos : ℕ) (es : List MmapEntry) (ops : List InitOperation) (from : ℕ)
      (s : S)
      → LaysOut pos es
      → mboot_info.mmap_length ≤ pos + fuel
      → length ops + length (segments_ops es) ≤ max_init_ops
      → scan_segments segments mboot_info fuel pos ops from s
        ≡ ok (ops ++ segments_ops es, memory_end from es) s
  unfolding scan_segments
  scan_segments-ok zero pos [] ops from s l h g =
      rw (le→ltb pos mboot_info.mmap_length l, append-nil ops) refl
  scan_segments-ok (suc fuel) pos [] ops from s l h g =
      rw (le→ltb pos mboot_info.mmap_length l, append-nil ops) refl
  scan_segments-ok zero pos (e ∷ es) ops from s (here, inside, small, l) h g = absurd (omega arith)
  scan_segments-ok (suc fuel) pos (e ∷ es) ops from s (here, inside, small, l) h g =
      let next : (pos + (e.size + 4) % 2 ^ 32) % 2 ^ 32 ≡ pos + e.size + 4 = omega arith in
      let total = length_append (ops_of e) (segments_ops es) in
      let added = length_append ops (ops_of e) in
      rw
        (lt→ltb pos mboot_info.mmap_length inside, here, add_segment-ok e ops s (omega arith), next)
        (scan_segments-ok fuel (pos + e.size + 4) es (ops ++ ops_of e) (larger (segment_end e) from)
            s l (omega arith) (omega arith)
          ∙ rw (append_assoc ops (ops_of e) (segments_ops es)) refl)
