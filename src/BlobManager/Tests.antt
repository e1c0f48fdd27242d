-- ===== src/BlobManager/Tests.antt =====
-- Runs of src/core/blob_manager.cpp on small inputs.
use mathlib.Core.Option
use dewfall.Prelude.{
  Bool, ◌+◌, ◌-◌, ◌*◌, ◌≡◌, refl, none, some, List, [], ◌∷◌, arith, ◌++◌, length, true,
}
use dewfall.BlobManager.{
  Section, BlobManager, back, page_size, coalesce, lower_bound, release_at, release_in_page,
  touches_next, find, put_page, last_page, drop_last,
}
use dewfall.BlobManager.Release.{Released, release_in_page_lem}
use dewfall.BlobManager.Register.{
  Fitted, first_fit, first_fit_lem, register_blob, scan, spillover, starts_late, consume,
}
use dewfall.BlobManager.Claim.{Carved, carve, carve_lem}
use dewfall.BlobManager.Unregister.{
  unregister_blob, get_file_size, get_free_sections_count, count_sections, starts_page, ends_page,
  after_release, release_pages, release_round, shrink, sections_of, store_page, serialized_pages,
  calculate_serialized_size,
}
use dewfall.BlobManager.Unregister.Pages.{free, AllOrdered}
use dewfall.BlobManager.Unregister.Range.{Unregistered, unregister_blob_lem}
use dewfall.BlobManager.Serialize.{serialize_payload, deserialize}
use dewfall.BlobManager.Serialize.RoundTrip.{deserialize-serialize_payload}

abbrev two_sections : List Section
two_sections = record { offset = 0; size = 10 } ∷ record { offset = 20; size = 5 } ∷ []

bridged : release_in_page 10 10 two_sections ≡ some (record { offset = 0; size = 25 } ∷ [])
unfolding release_in_page release_at lower_bound touches_next coalesce
bridged = refl

refused : release_in_page 9 5 two_sections ≡ none
unfolding release_in_page release_at lower_bound
refused = refl

release_in_page_lem_example :
    Released 0 page_size 10 10 two_sections (release_in_page 10 10 two_sections)
release_in_page_lem_example =
    release_in_page_lem 0 page_size 10 10 two_sections
      (omega arith, omega arith, (omega arith, omega arith, omega arith)) (omega arith)
      (omega arith) (omega arith) (omega arith) (omega arith)

first_fit_lem_example : Fitted 0 page_size 4 two_sections (first_fit 4 0 two_sections)
first_fit_lem_example =
    first_fit_lem 0 page_size 4 two_sections
      (omega arith, omega arith, (omega arith, omega arith, omega arith)) (omega arith)
      (omega arith) (omega arith)

carve_lem_example : Carved 0 page_size 2 5 two_sections (carve 2 5 two_sections)
carve_lem_example =
    carve_lem 0 page_size 2 5 two_sections
      (omega arith, omega arith, (omega arith, omega arith, omega arith)) (omega arith)
      (omega arith) (omega arith)

-- A file of two pages, whose first page ends with a free section.
abbrev two_pages : BlobManager
two_pages = record {
  next_offset = 2 * page_size;
  pages =
      (0, record { offset = page_size - 10; size = 10 } ∷ [])
      ∷ (
        1,
        record { offset = page_size; size = 5 } ∷ record { offset = page_size + 20; size = 8 } ∷ [],
      )
      ∷ [];
}

two_pages-AllOrdered : AllOrdered two_pages.pages
two_pages-AllOrdered = (
  omega arith,
  (omega arith, omega arith, omega arith),
  (omega arith, (omega arith, omega arith, (omega arith, omega arith, omega arith)), tt),
)

-- The last 2 KB of the file are freed, and the file ends before them.
shrinks :
    Option.map (λ r. get_file_size r.0) (unregister_blob two_pages (2 * page_size - 2048) 2048)
    ≡ some (2 * page_size - 2048)
unfolding get_file_size unregister_blob after_release release_pages release_round shrink sections_of
    store_page find put_page last_page drop_last back release_in_page release_at lower_bound
    touches_next coalesce
shrinks = refl

unregister_blob_lem_example :
    (r : BlobManager × Bool) × (unregister_blob two_pages (2 * page_size - 2048) 2048 ≡ some r)
    × Unregistered two_pages (2 * page_size - 2048) (2 * page_size - 2048 + 2048) r
unregister_blob_lem_example =
    unregister_blob_lem two_pages (2 * page_size - 2048) 2048 two_pages-AllOrdered (omega arith)
      (omega arith) (omega arith)

-- The spillover of page 0 is counted at the second section of page 1 too, to which it is not joined:
-- the 10 bytes in front of that section, which are in use, are handed out.
spillover_in_use : (register_blob two_pages 16).1 ≡ page_size + 10
unfolding register_blob scan spillover starts_late consume find put_page back first_fit
spillover_in_use = refl

spillover_not_free : free two_pages.pages (page_size + 10) ≡ 0
spillover_not_free = refl

sections_joined : get_free_sections_count two_pages ≡ 2
unfolding get_free_sections_count count_sections starts_page ends_page back
sections_joined = refl

-- An allocator with one page, of one section, and its payload.
abbrev one_page : BlobManager
one_page = record { next_offset = 5000; pages = (0, record { offset = 4096; size = 10 } ∷ []) ∷ [] }

deserialize-serialize_payload_example :
    (length (serialize_payload 77 one_page) ≡ calculate_serialized_size one_page)
    × (deserialize
          (record { next_offset = 0; pages = [] })
          (serialize_payload 77 one_page ++ (1 ∷ []))
        ≡ (true, one_page))
unfolding serialized_pages find
deserialize-serialize_payload_example =
    deserialize-serialize_payload 77 one_page (1 ∷ []) (omega arith) (omega arith) (omega arith)
      (omega arith, omega arith, (omega arith, omega arith, tt), refl, tt)
