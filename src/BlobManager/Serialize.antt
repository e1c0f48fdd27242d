-- ===== src/BlobManager/Serialize.antt =====
-- `serialize_payload` and `deserialize` of src/core/blob_manager.cpp. A section is written with its
-- four bytes of padding, whose values are a parameter.
pub mod RoundTrip
use dewfall.Prelude.{
  ℕ, zero, suc, ◌+◌, ◌*◌, Bool, true, false, Option, none, some, List, [], ◌∷◌, ◌++◌, ltb,
  if◌then◌else◌, length, drop,
}
use dewfall.Bytes.{load, le}
use dewfall.BlobManager.{Section, Page, BlobManager, find}

module _ (padding : ℕ) where
  unfoldable pub section_bytes : List Section → List ℕ
  section_bytes [] = []
  section_bytes (s ∷ l) = le 8 s.offset ++ (le 4 s.size ++ (le 4 padding ++ section_bytes l))

  -- the loop of `serialize_payload`
  unfoldable pub page_bytes : List Page → List ℕ
  page_bytes [] = []
  page_bytes ((page_number, sections) ∷ l) =
      le 4 page_number ++ (le 4 (length sections) ++ (section_bytes sections ++ page_bytes l))

  -- the bytes that are written from `data` on
  unfoldable pub serialize_payload : BlobManager → List ℕ
  serialize_payload m = le 8 m.next_offset ++ (le 4 (length m.pages) ++ page_bytes m.pages)

-- `memcpy` into the vector of sections
unfoldable pub read_sections : List ℕ → ℕ → List Section
read_sections ptr zero = []
read_sections ptr (suc n) =
    record { offset = load 8 ptr 0; size = load 4 ptr 8 } ∷ read_sections (drop 16 ptr) n

-- `emplace`: a page that is there is left as it is
unfoldable pub emplace : ℕ → List Section → List Page → List Page
emplace page sections pages = elim (find page pages) [
  | some old ↦ pages
  | none ↦ pages ++ ((page, sections) ∷ [])
]

-- The loop of `deserialize`: false is an error, and the pages that were read stay.
unfoldable pub read_pages : ℕ → List Page → List ℕ → Bool × List Page
read_pages zero pages ptr = (true, pages)
read_pages (suc n) pages ptr =
    let page_number = load 4 ptr 0 in
    let count = load 4 ptr 4 in
    let ptr' = drop 8 ptr in
    let rest =
      read_pages n (emplace page_number (read_sections ptr' count) pages)
        (drop (count * 16) ptr') in
    if ltb (length ptr) 8
    then (false, pages)
    else if ltb (length ptr') (count * 16)
    then (false, pages)
    else rest

unfoldable pub deserialize : BlobManager → List ℕ → Bool × BlobManager
deserialize m data_ptr =
    let page_count = load 4 data_ptr 8 in
    let (ok, pages) = read_pages page_count m.pages (drop 12 data_ptr) in
    if ltb (length data_ptr) 12
    then (false, m)
    else (ok, record m { next_offset = load 8 data_ptr 0; pages = pages })
