-- ===== src/BlobManager.antt =====
-- src/core/blob_manager.cpp: the allocator of file ranges. Free sections are kept by page of 100 MB,
-- and no section spans two pages. The hash map is the dense vector of its entries: a new page is
-- put at the end, and an erased page is replaced by the last one.
pub mod Sections
pub mod Release
pub mod Register
pub mod Unregister
pub mod Claim
pub mod Serialize
mod Tests
use dewfall.Prelude.{
  ℕ, zero, suc, ◌+◌, ◌-◌, ◌*◌, ◌/◌, ◌%◌, ◌^◌, Bool, true, false, not, ◌&&◌, ◌||◌, Option, none,
  some, List, [], ◌∷◌, ◌++◌, ltb, leb, ◌==◌, if◌then◌else◌, length,
}

-- `FREE_BLOB_MANAGER_PAGE_SIZE`
abbrev pub page_size : ℕ
page_size = 100 * 1024 * 1024

-- `section_t`
pub record Section : Type 0 where
  pub offset : ℕ
  pub size : ℕ

abbrev pub Page : Type 0
Page = ℕ × List Section

pub record BlobManager : Type 0 where
  pub next_offset : ℕ
  pub pages : List Page

-- Unsigned arithmetic wraps.
abbrev pub add32 : ℕ → ℕ → ℕ
add32 a b = (a + b) % 2 ^ 32

abbrev pub sub32 : ℕ → ℕ → ℕ
sub32 a b = (a + 2 ^ 32 - b) % 2 ^ 32

abbrev pub add64 : ℕ → ℕ → ℕ
add64 a b = (a + b) % 2 ^ 64

abbrev pub sub64 : ℕ → ℕ → ℕ
sub64 a b = (a + 2 ^ 64 - b) % 2 ^ 64

-- `offset_t::page`
abbrev pub page_of : ℕ → ℕ
page_of offset = offset / page_size % 2 ^ 32

abbrev pub end_of : Section → ℕ
end_of s = add64 s.offset s.size

-- `_free_sections_by_page.find(page)`
unfoldable pub find : ℕ → List Page → Option (List Section)
find page [] = none
find page ((p, sections) ∷ l) = if p == page then some sections else find page l

-- The sections of a page are given a new value; a missing page is put at the end.
unfoldable pub put_page : ℕ → List Section → List Page → List Page
put_page page sections [] = (page, sections) ∷ []
put_page page sections ((p, old) ∷ l) =
    if p == page then (p, sections) ∷ l else (p, old) ∷ put_page page sections l

unfoldable pub last_page : List Page → Option Page
last_page [] = none
last_page (x ∷ []) = some x
last_page (x ∷ y ∷ l) = last_page (y ∷ l)

unfoldable pub drop_last {ℓ} : {A : Type ℓ} → List A → List A
drop_last [] = []
drop_last (x ∷ []) = []
drop_last (x ∷ y ∷ l) = x ∷ drop_last (y ∷ l)

-- `_free_sections_by_page.erase(page)`: the last entry takes the place.
unfoldable pub erase_page : ℕ → List Page → List Page
unfolding last_page drop_last
erase_page page [] = []
erase_page page ((p, sections) ∷ l) =
    if p == page
    then elim (last_page l) [ none ↦ [] | some x ↦ x ∷ drop_last l ]
    else (p, sections) ∷ erase_page page l

-- `sections.back()`
unfoldable pub back : List Section → Option Section
back [] = none
back (x ∷ []) = some x
back (x ∷ y ∷ l) = back (y ∷ l)

-- `std::lower_bound` of an offset: the sections before the one in front of the position, that one,
-- and those from the position on.
unfoldable pub lower_bound : ℕ → List Section → List Section × Option Section × List Section
lower_bound offset [] = ([], none, [])
lower_bound offset (s ∷ l) =
    let (earlier, prev, after) = lower_bound offset l in
    if ltb s.offset offset
    then elim prev [ none ↦ ([], some s, after) | some p ↦ (s ∷ earlier, some p, after) ]
    else ([], none, s ∷ l)

-- A section, joined with the one behind it if they touch.
unfoldable pub coalesce : Section → List Section → List Section
coalesce s [] = s ∷ []
coalesce s (next ∷ l) =
    if end_of s == next.offset then record s { size = add32 s.size next.size } ∷ l else s ∷ next ∷ l

unfoldable pub touches_next : ℕ → ℕ → List Section → Bool
touches_next offset size [] = false
touches_next offset size (next ∷ l) = ltb next.offset (add64 offset size)

-- The body of the page loop of `unregister_blob`, at the position that `lower_bound` found: `none`
-- where the range meets a free section.
unfoldable pub release_at :
    ℕ → ℕ → List Section × Option Section × List Section → Option (List Section)
release_at offset size (earlier, none, after) =
    if touches_next offset size after
    then none
    else some (coalesce (record { offset = offset; size = size }) after)
release_at offset size (earlier, some p, after) =
    if ltb offset (end_of p)
    then none
    else if touches_next offset size after
    then none
    else if end_of p == offset
    then some (earlier ++ coalesce (record p { size = add32 p.size size }) after)
    else some (earlier ++ p ∷ coalesce (record { offset = offset; size = size }) after)

unfoldable pub release_in_page : ℕ → ℕ → List Section → Option (List Section)
release_in_page offset size sections = release_at offset size (lower_bound offset sections)
