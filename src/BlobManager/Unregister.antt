-- ===== src/BlobManager/Unregister.antt =====
-- `unregister_blob` of src/core/blob_manager.cpp, and the counts and sizes of the free list.
pub mod Pages
pub mod Shrink
pub mod Range
use mathlib.Core.Option
use dewfall.Prelude.{
  ℕ, zero, suc, ◌+◌, ◌-◌, ◌*◌, ◌/◌, ◌%◌, ◌^◌, ◌≡◌, Bool, true, false, not, ◌&&◌, Option, none, some,
  List, [], ◌∷◌, ◌++◌, ltb, leb, ◌==◌, if◌then◌else◌, length, get_elem?,
}
use dewfall.BlobManager.{
  Section, Page, BlobManager, page_size, page_of, add32, add64, sub64, end_of, find, put_page,
  last_page, drop_last, erase_page, back, release_in_page,
}

-- `_free_sections_by_page.find(page)`, where a missing page is given no sections
unfoldable pub sections_of : ℕ → List Page → List Section
sections_of page [] = []
sections_of page ((p, sections) ∷ l) = if p == page then sections else sections_of page l

-- A page that is left without sections is erased.
unfoldable pub store_page : ℕ → List Section → List Page → List Page
store_page page [] pages = erase_page page pages
store_page page (s ∷ l) pages = put_page page (s ∷ l) pages

-- `std::min` and `std::max`
abbrev pub min : ℕ → ℕ → ℕ
min a b = if ltb b a then b else a

abbrev pub max : ℕ → ℕ → ℕ
max a b = if ltb a b then b else a

-- One round of the loop over the pages of the range that ends at `end`.
unfoldable pub release_round : ℕ → ℕ → ℕ → List Page → Option (List Section)
release_round total_offset end page pages =
    let page_start = page * page_size in
    let section_end = min end (add64 page_start page_size) in
    let offset_for_page = max total_offset page_start in
    let size_for_page = sub64 section_end offset_for_page % 2 ^ 32 in
    release_in_page offset_for_page size_for_page (sections_of page pages)

-- The loop, on fuel: `none` where it runs out. The page is a `uint32_t`: where `end_page` is the last
-- one, it wraps and the loop goes on from page 0. The loop stops at a double free, and what the
-- rounds before it freed stays free.
unfoldable pub release_pages : ℕ → ℕ → ℕ → ℕ → ℕ → List Page → Option (Bool × List Page)
release_pages total_offset end end_page zero page pages = none
release_pages total_offset end end_page (suc fuel) page pages = elim (leb page end_page) [
  | false ↦ some (true, pages)
  | true ↦ elim (release_round total_offset end page pages) [
    | none ↦ some (false, pages)
    | some sections ↦
        release_pages total_offset end end_page fuel (add32 page 1) (store_page page sections pages)
  ]
]

-- The loop that gives free sections at the end of the file back to it. Each round but the last drops
-- a page, so the number of pages is fuel enough.
unfoldable pub shrink : ℕ → BlobManager → BlobManager
shrink zero m = m
shrink (suc fuel) m = elim (last_page m.pages) [
  | none ↦ m
  | some (page, sections) ↦ elim (back sections) [
    | none ↦ m
    | some last ↦
        let next_offset = sub64 m.next_offset last.size in
        if not (end_of last == m.next_offset)
        then m
        else if length sections == 1
        then shrink fuel (record { next_offset = next_offset; pages = drop_last m.pages })
        else record {
          next_offset = next_offset;
          pages = drop_last m.pages ++ ((page, drop_last sections) ∷ []);
        }
  ]
]

-- what follows the loop over the pages
unfoldable pub after_release : BlobManager → ℕ → Bool × List Page → BlobManager × Bool
after_release m end (false, pages) = (record m { pages = pages }, false)
after_release m end (true, pages) =
    if end == m.next_offset
    then (shrink (length pages) (record m { pages = pages }), true)
    else (record m { pages = pages }, true)

-- Of the fuel, each round of a loop whose page does not wrap takes one.
unfoldable pub unregister_blob : BlobManager → ℕ → ℕ → Option (BlobManager × Bool)
unregister_blob m total_offset total_size =
    let end = add64 total_offset total_size in
    let start_page = page_of total_offset in
    let end_page = page_of (sub64 end 1) in
    if ltb m.next_offset end
    then some (m, false)
    else Option.map (after_release m end) (
        release_pages total_offset end end_page (suc (end_page + 1 - start_page)) start_page
          m.pages)

unfoldable pub starts_page : Bool → ℕ → List Section → Bool
starts_page joined page [] = false
starts_page joined page (s ∷ l) = joined && s.offset == page * page_size

unfoldable pub ends_page : ℕ → List Section → Bool
ends_page page sections = elim (back sections) [
  | none ↦ false
  | some last ↦ end_of last == add32 page 1 * page_size
]

-- The loop of `get_free_sections_count`: a section that goes on from the page before is not counted.
unfoldable pub count_sections : Bool → List Page → ℕ
count_sections joined [] = 0
count_sections joined ((page, sections) ∷ l) =
    (if starts_page joined page sections then length sections - 1 else length sections)
    + count_sections (ends_page page sections) l

unfoldable pub get_free_sections_count : BlobManager → ℕ
get_free_sections_count m = count_sections false m.pages

unfoldable pub get_pages_count : BlobManager → ℕ
get_pages_count m = length m.pages

-- A missing page is an exception; so is here a section that the page has not.
unfoldable pub get_free_section : BlobManager → ℕ → ℕ → Option Section
get_free_section m page n = elim (find page m.pages) [
  | none ↦ none
  | some sections ↦ get_elem? sections n
]

unfoldable pub get_file_size : BlobManager → ℕ
get_file_size m = m.next_offset

-- A section is 16 bytes, with its padding.
unfoldable pub serialized_pages : List Page → ℕ
serialized_pages [] = 0
serialized_pages ((page, sections) ∷ l) = 4 + 4 + length sections * 16 + serialized_pages l

unfoldable pub calculate_serialized_size : BlobManager → ℕ
calculate_serialized_size m = (8 + 4 + serialized_pages m.pages) % 2 ^ 32
