-- ===== src/BlobManager/Register.antt =====
-- `register_blob` of src/core/blob_manager.cpp: the first free section that is large enough, with the
-- free end of the page before it, or else the end of the file.
use mathlib.Core.Option
use dewfall.Prelude.{
  ℕ, zero, suc, ◌+◌, ◌-◌, ◌*◌, ◌^◌, ◌≤◌, ◌<◌, ◌≡◌, Bool, true, false, not, ◌&&◌, ◌||◌, Option, none,
  some, List, [], ◌∷◌, ltb, leb, ◌==◌, if◌then◌else◌, length, arith, Bool-cases, Option-cases, inl,
  inr, subst,
}
use dewfall.BlobManager.{
  Section, Page, BlobManager, page_size, add32, sub32, add64, sub64, end_of, find, put_page,
  drop_last, erase_page, back,
}
use dewfall.BlobManager.Sections.{cover, Ordered, Ordered-le, append-Ordered}

-- The loop over the sections of a page: the offset handed out, and what is left of the sections.
unfoldable pub first_fit : ℕ → ℕ → List Section → Option (ℕ × List Section)
first_fit size spill [] = none
first_fit size spill (s ∷ l) =
    if leb size (add32 s.size spill)
    then some (
      sub64 s.offset spill,
      if s.size == sub32 size spill
          then l
          else record {
            offset = add64 s.offset (sub32 size spill);
            size = sub32 s.size (sub32 size spill);
          }
            ∷ l,
    )
    else Option.map (λ r. (r.0, s ∷ r.1)) (first_fit size spill l)

-- The loop that takes the spillover out of the pages before `page`. It walks back by page number.
unfoldable pub consume : ℕ → ℕ → List Page → List Page
consume zero remaining pages = pages
consume (suc previous) remaining pages =
    if remaining == 0 then pages else elim (find previous pages) [
      | none ↦ pages
      | some sections ↦ elim (back sections) [
        | none ↦ pages
        | some last ↦
            if ltb remaining last.size
            then pages
            else consume previous (remaining - last.size) (
                if length sections == 1
                then erase_page previous pages
                else put_page previous (drop_last sections) pages)
      ]
    ]

-- Does a section come first that does not start the page?
unfoldable pub starts_late : ℕ → List Section → Bool
starts_late page_offset [] = false
starts_late page_offset (s ∷ l) = not (s.offset == page_offset)

-- The spillover that a page leaves to the next, and the page that it is from.
unfoldable pub spillover : ℕ → ℕ → ℕ → List Section → ℕ × ℕ
spillover spill spill_page page sections = elim (back sections) [
  | none ↦ (0, spill_page)
  | some last ↦
      if end_of last == add64 (page * page_size) page_size
      then (add32 spill last.size, page)
      else (0, spill_page)
]

-- The loop over the pages that are left; `pages` are all of them.
unfoldable pub scan : ℕ → List Page → List Page → ℕ → ℕ → Option (ℕ × List Page)
scan size pages [] spill spill_page = none
scan size pages ((page, sections) ∷ rest) spill spill_page =
    let kept : ℕ =
      if not (add32 spill_page 1 == page) || starts_late (page * page_size) sections
      then 0
      else spill in
    elim (first_fit size kept sections) [
      | none ↦
          let (spill', spill_page') = spillover kept spill_page page sections in
          scan size pages rest spill' spill_page'
      | some (offset, left) ↦ some (
        offset,
        consume page kept
            (elim left [ [] ↦ erase_page page pages | x ∷ l ↦ put_page page (x ∷ l) pages ]),
      )
    ]

unfoldable pub register_blob : BlobManager → ℕ → BlobManager × ℕ
register_blob m size = elim (scan size m.pages m.pages 0 0) [
  | none ↦ (record m { next_offset = add64 m.next_offset size }, m.next_offset)
  | some (offset, pages) ↦ (record m { pages = pages }, offset)
]

-- Every section is smaller than `size`.
abbrev pub AllSmaller : ℕ → List Section → Type 0
AllSmaller size [] = Unit {0}
AllSmaller size (s ∷ l) = (s.size < size) × AllSmaller size l

-- What a search without a spillover has to find.
abbrev pub Fitted : ℕ → ℕ → ℕ → List Section → Option (ℕ × List Section) → Type 0
Fitted lo hi size sections none = AllSmaller size sections
Fitted lo hi size sections (some (offset, left)) =
    (lo ≤ offset)
    × (offset + size ≤ hi)
    × Ordered lo hi left
    × ((x : ℕ)
        → cover left x + (if leb offset x && ltb x (offset + size) then 1 else 0)
          ≡ cover sections x)

module _ (hi size : ℕ) (small : hi < 2 ^ 64) (word : size < 2 ^ 32) where
  fit :
      (lo : ℕ) (s : Section) (l : List Section)
      → Ordered lo hi (s ∷ l)
      → hi ≤ lo + 2 ^ 31
      → size ≤ s.size
      → Fitted lo hi size (s ∷ l) (first_fit size 0 (s ∷ l))
  unfolding first_fit
  fit lo s l o narrow enough =
      let end = Ordered-le (s.offset + s.size) hi l o.2 in
      let same_size : sub32 size 0 ≡ size = omega arith in
      let same_offset : sub64 s.offset 0 ≡ s.offset = omega arith in
      let hits : leb size (add32 s.size 0) ≡ true = ground arith in
      rw hits (
        rw (same_size, same_offset)
          (elim (Bool-cases (s.size == size)) [
            | inl e ↦ rw e (
              o.0,
              ground arith,
              append-Ordered lo (s.offset + s.size) hi [] l (omega arith) o.2,
              λ x. ground arith,
            )
            | inr e ↦
                let from : add64 s.offset size ≡ s.offset + size = omega arith in
                let less : sub32 s.size size ≡ s.size - size = omega arith in
                let end' : s.offset + size + (s.size - size) ≡ s.offset + s.size = omega arith in
                rw e (
                  rw (from, less)
                    (o.0, omega arith, (omega arith, ground arith, rw end' o.2), λ x. ground arith))
          ]))

  later :
      (lo : ℕ) (s : Section) (l : List Section)
      → Ordered lo hi (s ∷ l)
      → hi ≤ lo + 2 ^ 31
      → s.size < size
      → Fitted (s.offset + s.size) hi size l (first_fit size 0 l)
      → Fitted lo hi size (s ∷ l) (first_fit size 0 (s ∷ l))
  unfolding first_fit
  later lo s l o narrow less rest =
      let end = Ordered-le (s.offset + s.size) hi l o.2 in
      let misses : leb size (add32 s.size 0) ≡ false = ground arith in
      elim (Option-cases (first_fit size 0 l)) [
        | inl e ↦
            let rest' : AllSmaller size l = subst (Fitted (s.offset + s.size) hi size l) e rest in
            rw misses (rw e (less, rest'))
        | inr ((offset, left), e) ↦
            let (low, top, ordered, same) = subst (Fitted (s.offset + s.size) hi size l) e rest in
            rw misses (rw e (omega arith, top, (o.0, o.1, ordered), λ x. omega (arith, same x)))
      ]

-- Without a spillover, the search in the free sections of one page [lo, hi) hands out free bytes of
-- the page: what is left is in order, and has lost just the `size` bytes from the offset. It finds
-- nothing only where every section is smaller.
pub first_fit_lem :
    (lo hi size : ℕ) (sections : List Section)
    → Ordered lo hi sections
    → hi < 2 ^ 64
    → hi ≤ lo + 2 ^ 31
    → size < 2 ^ 32
    → Fitted lo hi size sections (first_fit size 0 sections)
unfolding first_fit
first_fit_lem lo hi size [] o small narrow word = tt
first_fit_lem lo hi size (s ∷ l) o small narrow word = elim (Bool-cases (leb size s.size)) [
  | inl e ↦ fit hi size small word lo s l o narrow (ground arith)
  | inr e ↦
      later hi size small word lo s l o narrow (ground arith)
        (first_fit_lem (s.offset + s.size) hi size l o.2 small (omega (arith, o.0)) word)
]
