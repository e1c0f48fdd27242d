-- ===== src/BlobManager/Claim.antt =====
-- `claim_blob` of src/core/blob_manager.cpp: a given range is taken out of the free sections.
use mathlib.Core.Option
use dewfall.Prelude.{
  ℕ, zero, suc, ◌+◌, ◌-◌, ◌*◌, ◌/◌, ◌%◌, ◌^◌, ◌≤◌, ◌<◌, ◌≡◌, Bool, true, false, not, ◌&&◌, ◌||◌,
  Option, none, some, List, [], ◌∷◌, ltb, leb, ◌==◌, if◌then◌else◌, arith, Bool-cases, Option-cases,
  inl, inr, subst,
}
use dewfall.BlobManager.{
  Section, Page, BlobManager, page_size, page_of, add32, add64, sub64, end_of, find,
}
use dewfall.BlobManager.Sections.{cover, Ordered, Ordered-le, append-Ordered}
use dewfall.BlobManager.Unregister.{store_page, unregister_blob}

-- The loop over the sections of a page, for the range from `pos` to `piece_end`.
unfoldable pub carve : ℕ → ℕ → List Section → Option (List Section)
carve pos piece_end [] = none
carve pos piece_end (s ∷ l) =
    let s_end = end_of s in
    if ltb pos s.offset || ltb s_end piece_end
    then Option.map (λ r. s ∷ r) (carve pos piece_end l)
    else if pos == s.offset && piece_end == s_end
    then some l
    else if pos == s.offset
    then some (record { offset = piece_end; size = sub64 s_end piece_end % 2 ^ 32 } ∷ l)
    else if piece_end == s_end
    then some (record s { size = sub64 pos s.offset % 2 ^ 32 } ∷ l)
    else some (
        record s { size = sub64 pos s.offset % 2 ^ 32 }
        ∷ record { offset = piece_end; size = sub64 s_end piece_end % 2 ^ 32 }
        ∷ l)

-- The loop over the pages of the range. Each round ends a page of it, so as many rounds as the range
-- has pages are enough.
unfoldable pub claim_pages : ℕ → ℕ → ℕ → List Page → Bool × List Page
claim_pages zero pos end pages = (true, pages)
claim_pages (suc rounds) pos end pages =
    let page = page_of pos in
    let page_end = add32 page 1 * page_size in
    let piece_end = if ltb end page_end then end else page_end in
    if not (ltb pos end) then (true, pages) else elim (find page pages) [
      | none ↦ (false, pages)
      | some sections ↦ elim (carve pos piece_end sections) [
        | none ↦ (false, pages)
        | some left ↦ claim_pages rounds piece_end end (store_page page left pages)
      ]
    ]

-- The loop that frees the gap between the end of the file and a claim behind it.
unfoldable pub free_gap : ℕ → ℕ → ℕ → BlobManager → Option (BlobManager × Bool)
free_gap zero gap_pos begin m = some (m, true)
free_gap (suc rounds) gap_pos begin m =
    let page_end = (gap_pos / page_size + 1) * page_size in
    let piece_end = if ltb begin page_end then begin else page_end in
    if not (ltb gap_pos begin)
    then some (m, true)
    else elim (unregister_blob m gap_pos (sub64 piece_end gap_pos % 2 ^ 32)) [
      | none ↦ none
      | some (m', false) ↦ some (m', false)
      | some (m', true) ↦ free_gap rounds piece_end begin m'
    ]

-- `none` is a page loop of `unregister_blob` that does not end.
unfoldable pub claim_blob : BlobManager → ℕ → ℕ → Option (BlobManager × Bool)
claim_blob m offset size =
    let end = add64 offset size in
    if size == 0
    then some (m, false)
    else if leb m.next_offset offset
    then free_gap (offset / page_size + 1 - m.next_offset / page_size) m.next_offset offset
        (record m { next_offset = end })
    else if ltb m.next_offset end
    then some (m, false)
    else let (ok, pages) =
        claim_pages (end / page_size + 1 - offset / page_size) offset end m.pages in
      some (record m { pages = pages }, ok)

-- No section holds the whole range.
abbrev pub NoneHolds : ℕ → ℕ → List Section → Type 0
NoneHolds pos piece_end [] = Unit {0}
NoneHolds pos piece_end (s ∷ l) =
    (ltb pos s.offset || ltb (s.offset + s.size) piece_end ≡ true) × NoneHolds pos piece_end l

-- What a claim in one page has to do.
abbrev pub Carved : ℕ → ℕ → ℕ → ℕ → List Section → Option (List Section) → Type 0
Carved lo hi pos piece_end sections none = NoneHolds pos piece_end sections
Carved lo hi pos piece_end sections (some left) =
    Ordered lo hi left
    × ((x : ℕ) → cover left x + (if leb pos x && ltb x piece_end then 1 else 0) ≡ cover sections x)

module _ (hi pos piece_end : ℕ) (some_byte : pos < piece_end) (small : hi < 2 ^ 64) where
  taken :
      (lo : ℕ) (s : Section) (l : List Section)
      → Ordered lo hi (s ∷ l)
      → hi ≤ lo + 2 ^ 31
      → s.offset ≤ pos
      → piece_end ≤ s.offset + s.size
      → Carved lo hi pos piece_end (s ∷ l) (carve pos piece_end (s ∷ l))
  unfolding carve
  taken lo s l o narrow low top =
      let end = Ordered-le (s.offset + s.size) hi l o.2 in
      let s_end : end_of s ≡ s.offset + s.size = omega arith in
      let inside : (ltb pos s.offset || ltb (s.offset + s.size) piece_end) ≡ false = ground arith in
      let head : sub64 pos s.offset % 2 ^ 32 ≡ pos - s.offset = omega (arith, o.0) in
      let tail : sub64 (s.offset + s.size) piece_end % 2 ^ 32 ≡ s.offset + s.size - piece_end =
        omega (arith, o.0) in
      let end' : piece_end + (s.offset + s.size - piece_end) ≡ s.offset + s.size = omega arith in
      rw s_end (
        rw inside (
          rw (head, tail)
            (elim (Bool-cases (pos == s.offset)) [
              | inl e ↦ rw e (elim (Bool-cases (piece_end == s.offset + s.size)) [
                | inl f ↦ rw f (
                  append-Ordered lo (s.offset + s.size) hi [] l (omega (arith, o.0)) o.2,
                  λ x. ground arith,
                )
                | inr f ↦ rw f ((omega (arith, o.0), ground arith, rw end' o.2), λ x. ground arith)
              ])
              | inr e ↦ rw e (elim (Bool-cases (piece_end == s.offset + s.size)) [
                | inl f ↦ rw f (
                  (
                    o.0,
                    ground arith,
                    append-Ordered _ (s.offset + s.size) hi [] l (omega arith) o.2,
                  ),
                  λ x. ground arith,
                )
                | inr f ↦ rw f (
                  (o.0, ground arith, (ground arith, ground arith, rw end' o.2)),
                  λ x. ground arith,
                )
              ])
            ])))

  missed :
      (lo : ℕ) (s : Section) (l : List Section)
      → Ordered lo hi (s ∷ l)
      → hi ≤ lo + 2 ^ 31
      → (ltb pos s.offset || ltb (s.offset + s.size) piece_end) ≡ true
      → Carved (s.offset + s.size) hi pos piece_end l (carve pos piece_end l)
      → Carved lo hi pos piece_end (s ∷ l) (carve pos piece_end (s ∷ l))
  unfolding carve
  missed lo s l o narrow out rest =
      let end = Ordered-le (s.offset + s.size) hi l o.2 in
      let s_end : end_of s ≡ s.offset + s.size = omega arith in
      elim (Option-cases (carve pos piece_end l)) [
        | inl e ↦
            let rest' = subst (Carved (s.offset + s.size) hi pos piece_end l) e rest in
            rw s_end (rw out (rw e (out, rest')))
        | inr (left, e) ↦
            let (ordered, same) = subst (Carved (s.offset + s.size) hi pos piece_end l) e rest in
            rw s_end (rw out (rw e ((o.0, o.1, ordered), λ x. omega (arith, same x))))
      ]

-- A claim of a range of at least one byte in a page [lo, hi), whose free sections are in order,
-- takes exactly the bytes of the range out of the free ones and leaves the rest in order, in all four
-- ways in which the range can lie in a section; it fails only where no section holds the range.
pub carve_lem :
    (lo hi pos piece_end : ℕ) (sections : List Section)
    → Ordered lo hi sections
    → pos < piece_end
    → hi < 2 ^ 64
    → hi ≤ lo + 2 ^ 31
    → Carved lo hi pos piece_end sections (carve pos piece_end sections)
unfolding carve
carve_lem lo hi pos piece_end [] o some_byte small narrow = tt
carve_lem lo hi pos piece_end (s ∷ l) o some_byte small narrow =
    elim (Bool-cases (ltb pos s.offset || ltb (s.offset + s.size) piece_end)) [
      | inl e ↦ missed hi pos piece_end some_byte small lo s l o narrow e (
          carve_lem (s.offset + s.size) hi pos piece_end l o.2 some_byte small (omega (arith, o.0)))
      | inr e ↦ taken hi pos piece_end some_byte small lo s l o narrow (ground arith) (ground arith)
    ]
