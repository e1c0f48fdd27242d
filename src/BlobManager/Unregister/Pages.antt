-- ===== src/BlobManager/Unregister/Pages.antt =====
-- The page loop of `unregister_blob`, over all pages.
use dewfall.Prelude.{
  ℕ, zero, suc, ◌+◌, ◌-◌, ◌*◌, ◌%◌, ◌^◌, ◌≤◌, ◌<◌, ◌≡◌, refl, Bool, true, false, none, some, ◌∙◌,
  ◌&&◌, List, [], ◌∷◌, ltb, leb, ◌==◌, if◌then◌else◌, arith, Bool-cases, Option-cases, inl, inr,
  subst,
}
use dewfall.BlobManager.{Section, Page, page_size, add32, add64, sub64, put_page}
use dewfall.BlobManager.Sections.{cover, Ordered}
use dewfall.BlobManager.Release.{Released, release_in_page_lem}
use dewfall.BlobManager.Unregister.{sections_of, store_page, min, max, release_round, release_pages}

-- How many free sections hold the byte `x`.
abbrev pub free : List Page → ℕ → ℕ
free [] x = 0
free ((p, sections) ∷ l) x = cover sections x + free l x

-- Every page has its free sections in order, inside the page.
abbrev pub AllOrdered : List Page → Type 0
AllOrdered [] = Unit {0}
AllOrdered ((p, sections) ∷ l) =
    (p * page_size + page_size < 2 ^ 64)
    × Ordered (p * page_size) (p * page_size + page_size) sections
    × AllOrdered l

free-put_page :
    (page : ℕ) (sections : List Section) (pages : List Page) (x : ℕ)
    → free (put_page page sections pages) x + cover (sections_of page pages) x
      ≡ free pages x + cover sections x
unfolding put_page sections_of
free-put_page page sections [] x = omega arith
free-put_page page sections ((p, old) ∷ l) x = elim (Bool-cases (p == page)) [
  | inl e ↦ rw e (omega arith)
  | inr e ↦ rw e (omega (arith, free-put_page page sections l x))
]

put_page-AllOrdered :
    (page : ℕ) (sections : List Section) (pages : List Page)
    → page * page_size + page_size < 2 ^ 64
    → Ordered (page * page_size) (page * page_size + page_size) sections
    → AllOrdered pages
    → AllOrdered (put_page page sections pages)
unfolding put_page
put_page-AllOrdered page sections [] k o a = (k, o, tt)
put_page-AllOrdered page sections ((p, old) ∷ l) k o a = elim (Bool-cases (p == page)) [
  | inl e ↦
      let same : page ≡ p = ground arith in
      rw e
        (a.0, subst (λ q. Ordered (q * page_size) (q * page_size + page_size) sections) same o, a.2)
  | inr e ↦ rw e (a.0, a.1, put_page-AllOrdered page sections l k o a.2)
]

sections_of-Ordered :
    (page : ℕ) (pages : List Page)
    → AllOrdered pages
    → Ordered (page * page_size) (page * page_size + page_size) (sections_of page pages)
unfolding sections_of
sections_of-Ordered page [] a = omega arith
sections_of-Ordered page ((p, old) ∷ l) a = elim (Bool-cases (p == page)) [
  | inl e ↦
      let same : p ≡ page = ground arith in
      rw e (subst (λ q. Ordered (q * page_size) (q * page_size + page_size) old) same a.1)
  | inr e ↦ rw e (sections_of-Ordered page l a.2)
]

sections_of-le :
    (page : ℕ) (pages : List Page) (x : ℕ) → cover (sections_of page pages) x ≤ free pages x
unfolding sections_of
sections_of-le page [] x = omega arith
sections_of-le page ((p, old) ∷ l) x = elim (Bool-cases (p == page)) [
  | inl e ↦ rw e (omega arith)
  | inr e ↦ rw e (omega (arith, sections_of-le page l x))
]

-- What the page loop has to do: stop at a byte that is free already, or free the bytes from `from` to
-- `end`, beside what was.
abbrev pub PagesFreed : ℕ → ℕ → List Page → Bool × List Page → Type 0
PagesFreed from end pages (false, out) = (x : ℕ) × (from ≤ x) × (x < end) × (0 < free pages x)
PagesFreed from end pages (true, out) =
    AllOrdered out
    × ((x : ℕ) → free out x ≡ free pages x + (if leb from x && ltb x end then 1 else 0))

stored :
    (page : ℕ) (sections : List Section) (pages : List Page) (x : ℕ)
    → 0 < cover sections x
    → store_page page sections pages ≡ put_page page sections pages
unfolding store_page
stored page [] pages x h = absurd (omega arith)
stored page (s ∷ l) pages x h = refl

-- The rounds after the first, on the pages that it left.
widen :
    (first next end : ℕ) (pages rest : List Page) (r : Bool × List Page)
    → first < min end next
    → ((x : ℕ)
        → free rest x ≡ free pages x + (if leb first x && ltb x (min end next) then 1 else 0))
    → PagesFreed next end rest r
    → PagesFreed first end pages r
widen first next end pages rest (false, out) l same (x, low, top, held) =
    (x, ground arith, top, ground (arith, same x))
widen first next end pages rest (true, out) l same (a, cov) =
    (a, λ x. ground (arith, same x, cov x))

module _ (total_offset end page : ℕ) (pages : List Page) (small : end + page_size < 2 ^ 64)
    (lt : total_offset < end) (near : total_offset < page * page_size + page_size)
    (reached : page * page_size < end) where
  abbrev from : ℕ
  from = max total_offset (page * page_size)

  abbrev size : ℕ
  size = min end (page * page_size + page_size) - from

  round_lem :
      AllOrdered pages
      → Released
          (page * page_size)
          (page * page_size + page_size)
          from
          size
          (sections_of page pages)
          (release_round total_offset end page pages)
  unfolding release_round
  round_lem a =
      let wrap : add64 (page * page_size) page_size ≡ page * page_size + page_size = omega arith in
      let size_lem : sub64 (min end (page * page_size + page_size)) from % 2 ^ 32 ≡ size =
        ground arith in
      rw wrap (
        rw size_lem (
          release_in_page_lem (page * page_size) (page * page_size + page_size) from size
            (sections_of page pages) (sections_of-Ordered page pages a) (ground arith)
            (ground arith) (ground arith) (omega arith) (omega arith)))

-- The three ways of a round.
module _ (o end last fuel page : ℕ) (pages : List Page) where
  loop_over :
      leb page last ≡ false → release_pages o end last (suc fuel) page pages ≡ some (true, pages)
  unfolding release_pages
  loop_over over = rw (over, release_pages) refl

  loop_refused :
      leb page last ≡ true
      → release_round o end page pages ≡ none
      → release_pages o end last (suc fuel) page pages ≡ some (false, pages)
  unfolding release_pages
  loop_refused round e = rw (round, release_pages) (rw e refl)

  loop_next :
      (out : List Section) (rest : List Page)
      → leb page last ≡ true
      → release_round o end page pages ≡ some out
      → store_page page out pages ≡ rest
      → add32 page 1 ≡ page + 1
      → release_pages o end last (suc fuel) page pages
        ≡ release_pages o end last fuel (page + 1) rest
  unfolding release_pages
  loop_next out rest round e put next = rw (round, release_pages) (rw e (rw put (rw next refl)))

-- The loop ends, where its last page is not the last of all.
pub release_pages_lem :
    (total_offset end end_page fuel page : ℕ) (pages : List Page)
    → AllOrdered pages
    → end + page_size < 2 ^ 64
    → total_offset < end
    → total_offset < page * page_size + page_size
    → page ≤ end_page + 1
    → end ≤ (end_page + 1) * page_size
    → (end_page + 1) * page_size < end + page_size
    → end_page + 1 < 2 ^ 32
    → end_page + 1 < page + fuel
    → (r : Bool × List Page) × (release_pages total_offset end end_page fuel page pages ≡ some r)
      × PagesFreed (max total_offset (page * page_size)) end pages r
release_pages_lem o end last zero page pages a small lt near low enough few narrow fuel =
    absurd (omega arith)
release_pages_lem o end last (suc fuel) page pages a small lt near low enough few narrow more =
    elim (Bool-cases (leb page last)) [
      | inr over ↦
          ((true, pages), loop_over o end last fuel page pages over, (a, λ x. ground arith))
      | inl round ↦
          let below : page ≤ last = ground arith in
          let reached : page * page_size < end = omega arith in
          let released = round_lem o end page pages small lt near reached a in
          let start = page * page_size in
          let first = from o end page pages small lt near reached in
          let count = size o end page pages small lt near reached in
          let sections = sections_of page pages in
          let next_page : add32 page 1 ≡ page + 1 = omega arith in
          elim (Option-cases (release_round o end page pages)) [
            | inl e ↦
                let (x, above, under, held) =
                  subst (Released start (start + page_size) first count sections) e released in
                (
                  (false, pages),
                  loop_refused o end last fuel page pages round e,
                  (x, above, ground arith, omega (arith, sections_of-le page pages x)),
                )
            | inr (out, e) ↦
                let (ordered, cov) =
                  subst (Released start (start + page_size) first count sections) e released in
                let put = stored page out pages first (ground (arith, cov first)) in
                let (r, ends, freed) =
                  release_pages_lem o end last fuel (page + 1) (put_page page out pages)
                    (put_page-AllOrdered page out pages (omega arith) ordered a) small lt
                    (omega arith) (omega arith) enough few narrow (omega arith) in
                (
                  r,
                  loop_next o end last fuel page pages out (put_page page out pages) round e put
                        next_page
                      ∙ ends,
                  widen first (max o ((page + 1) * page_size)) end pages (put_page page out pages) r
                      (ground arith) (λ x. ground (arith, cov x, free-put_page page out pages x))
                      freed,
                )
          ]
    ]
