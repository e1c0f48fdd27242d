-- ===== src/BlobManager/Serialize/RoundTrip.antt =====
-- What is written is read back.
use dewfall.Prelude.{
  ℕ, suc, ◌+◌, ◌*◌, ◌^◌, ◌≤◌, ◌<◌, ◌≡◌, refl, true, false, none, List, [], ◌∷◌, ◌++◌, ltb, arith,
  ap, sym, subst, ◌∙◌, length, drop, length-append, drop-append,
}
use dewfall.Bytes.{le}
use dewfall.Memory.Laws.{load-le_front, load-append, append_assoc, append_nil}
use dewfall.BlobManager.{Section, Page, BlobManager, find}
use dewfall.BlobManager.Unregister.{serialized_pages, calculate_serialized_size}
use dewfall.BlobManager.Serialize.{
  section_bytes, page_bytes, serialize_payload, read_sections, emplace, read_pages, deserialize,
}

-- Every number fits its field, and no page comes twice, the pages before it included.
abbrev pub SectionsFit : List Section → Type 0
SectionsFit [] = Unit {0}
SectionsFit (s ∷ l) = (s.offset < 2 ^ 64) × (s.size < 2 ^ 32) × SectionsFit l

abbrev pub PagesFit : List Page → List Page → Type 0
PagesFit before [] = Unit {0}
PagesFit before ((page, sections) ∷ l) =
    (page < 2 ^ 32)
    × (length sections < 2 ^ 32)
    × SectionsFit sections
    × (find page before ≡ none)
    × PagesFit (before ++ ((page, sections) ∷ [])) l

-- One round, of a page whose sections are there.
read_page_lem :
    (n : ℕ) (before : List Page) (page count : ℕ) (ptr : List ℕ)
    → page < 2 ^ 32
    → count < 2 ^ 32
    → count * 16 ≤ length ptr
    → read_pages (suc n) before (le 4 page ++ (le 4 count ++ ptr))
      ≡ read_pages n (emplace page (read_sections ptr count) before) (drop (count * 16) ptr)
unfolding read_pages
read_page_lem n before page count ptr small few enough =
    let header : ltb (length (le 4 page ++ (le 4 count ++ ptr))) 8 ≡ false = ground arith in
    let sections : ltb (length ptr) (count * 16) ≡ false = ground arith in
    rw header (
      rw (load-le_front 4 page (le 4 count ++ ptr) small) (
        rw (load-append 4 (le 4 page) (le 4 count ++ ptr) ∙ load-le_front 4 count ptr few)
          (rw sections refl)))

emplace_new :
    (page : ℕ) (sections : List Section) (pages : List Page)
    → find page pages ≡ none
    → emplace page sections pages ≡ pages ++ ((page, sections) ∷ [])
unfolding emplace
emplace_new page sections pages new = rw (new, emplace) refl

module _ (padding : ℕ) where
  length-section_bytes : (l : List Section) → length (section_bytes padding l) ≡ length l * 16
  unfolding section_bytes
  length-section_bytes [] = refl
  length-section_bytes (s ∷ l) = omega (arith, length-section_bytes l)

  length-page_bytes : (l : List Page) → length (page_bytes padding l) ≡ serialized_pages l
  unfolding page_bytes serialized_pages
  length-page_bytes [] = refl
  length-page_bytes ((page, sections) ∷ l) = omega (
    arith,
    length-append (section_bytes padding sections) (page_bytes padding l),
    length-section_bytes sections,
    length-page_bytes l,
  )

  read_sections_lem :
      (l : List Section) (rest : List ℕ)
      → SectionsFit l
      → read_sections (section_bytes padding l ++ rest) (length l) ≡ l
  unfolding read_sections section_bytes
  read_sections_lem [] rest fits = refl
  read_sections_lem (s ∷ l) rest (a, b, fits) =
      let back = le 4 padding ++ (section_bytes padding l ++ rest) in
      rw (load-le_front 8 s.offset (le 4 s.size ++ back) a) (
        rw (load-append 4 (le 8 s.offset) (le 4 s.size ++ back))
          (rw (load-le_front 4 s.size back b) (ap (λ t. s ∷ t) (read_sections_lem l rest fits))))

  read_pages_lem :
      (l before : List Page) (rest : List ℕ)
      → PagesFit before l
      → read_pages (length l) before (page_bytes padding l ++ rest) ≡ (true, before ++ l)
  unfolding read_pages page_bytes
  read_pages_lem [] before rest fits = ap (λ t. (true, t)) (sym (append_nil before))
  read_pages_lem ((page, sections) ∷ l) before rest (small, few, ok, new, fits) =
      let back = page_bytes padding l ++ rest in
      let data_ptr = section_bytes padding sections ++ back in
      let size : length (section_bytes padding sections) ≡ length sections * 16 =
        length-section_bytes sections in
      let enough : length sections * 16 ≤ length data_ptr =
        omega (arith, length-append (section_bytes padding sections) back, size) in
      let left : drop (length sections * 16) data_ptr ≡ back =
        subst (λ k. drop k data_ptr ≡ back) size
          (drop-append (section_bytes padding sections) back) in
      ap (λ t. read_pages (suc (length l)) before (le 4 page ++ (le 4 (length sections) ++ t)))
        (append_assoc (section_bytes padding sections) (page_bytes padding l) rest)
      ∙ (read_page_lem (length l) before page (length sections) data_ptr small few enough
          ∙ rw (read_sections_lem sections back ok) (
              rw (emplace_new page sections before new) (
                rw left (
                  read_pages_lem l (before ++ ((page, sections) ∷ [])) rest fits
                  ∙ ap (λ t. (true, t)) (append_assoc before ((page, sections) ∷ []) l)))))

  -- `serialize_payload` writes as many bytes as `calculate_serialized_size` says, and `deserialize`
  -- reads them into a new allocator, whatever the padding of the sections and whatever follows: the
  -- same end of the file and the same free sections by page, in the same order. Every number fits its
  -- field, the pages differ, and the whole is shorter than 4 GiB.
  pub deserialize-serialize_payload :
      (m : BlobManager) (rest : List ℕ)
      → m.next_offset < 2 ^ 64
      → length m.pages < 2 ^ 32
      → 12 + serialized_pages m.pages < 2 ^ 32
      → PagesFit [] m.pages
      → (length (serialize_payload padding m) ≡ calculate_serialized_size m)
        × (deserialize
              (record { next_offset = 0; pages = [] })
              (serialize_payload padding m ++ rest)
            ≡ (true, m))
  unfolding serialize_payload deserialize calculate_serialized_size
  deserialize-serialize_payload m rest small few short fits =
      let data_ptr = le 4 (length m.pages) ++ (page_bytes padding m.pages ++ rest) in
      let enough : ltb (length (le 8 m.next_offset ++ data_ptr)) 12 ≡ false = ground arith in
      (
        omega (arith, length-page_bytes m.pages),
        rw enough (
            rw (load-le_front 8 m.next_offset data_ptr small) (
              rw
                (load-append 4 (le 8 m.next_offset) data_ptr
                  ∙ load-le_front 4 (length m.pages) (page_bytes padding m.pages ++ rest) few)
                (rw (read_pages_lem m.pages [] rest fits) refl))),
      )
