-- ===== src/BlobManager/Unregister/Range.antt =====
-- `unregister_blob` as a whole.
use dewfall.Prelude.{
  ℕ, suc, some, ◌≢◌, refl, ◌+◌, ◌-◌, ◌*◌, ◌/◌, ◌^◌, ◌≤◌, ◌<◌, ◌≡◌, ◌⊎◌, Bool, true, false, ◌&&◌,
  List, ltb, leb, ◌==◌, if◌then◌else◌, arith, Bool-cases, inl, inr, length, subst,
}
use dewfall.BlobManager.{Page, BlobManager, page_size, page_of, add64, sub64}
use dewfall.BlobManager.Unregister.{max, release_pages, after_release, unregister_blob}
use dewfall.BlobManager.Unregister.Pages.{free, AllOrdered, PagesFreed, release_pages_lem}
use dewfall.BlobManager.Unregister.Shrink.{GivenBack, shrink_lem, shrink-GivenBack}

-- What freeing a range has to do.
abbrev pub Unregistered : BlobManager → ℕ → ℕ → BlobManager × Bool → Type 0
Unregistered m offset end (m', false) =
    (m.next_offset < end) ⊎ ((x : ℕ) × (offset ≤ x) × (x < end) × (0 < free m.pages x))
Unregistered m offset end (m', true) =
    (end ≤ m.next_offset)
    × AllOrdered m'.pages
    × (m'.next_offset ≤ m.next_offset)
    × ((x : ℕ)
        → free m'.pages x + (if leb m'.next_offset x && ltb x m.next_offset then 1 else 0)
          ≡ free m.pages x + (if leb offset x && ltb x end then 1 else 0))
    × (end ≢ m.next_offset → m'.next_offset ≡ m.next_offset)
    × (end ≡ m.next_offset → GivenBack m.next_offset m')

after_release_lem :
    (m : BlobManager) (offset end : ℕ) (r : Bool × List Page)
    → end ≤ m.next_offset
    → m.next_offset < 2 ^ 64
    → PagesFreed offset end m.pages r
    → Unregistered m offset end (after_release m end r)
unfolding after_release
after_release_lem m offset end (false, pages) le small freed = inr freed
after_release_lem m offset end (true, pages) le small (a, cov) =
    elim (Bool-cases (end == m.next_offset)) [
      | inl e ↦
          let released = record m { pages = pages } in
          let (a', down, same) = shrink_lem (length pages) released a small in
          rw e (
            le,
            a',
            down,
            λ x. omega (arith, same x, cov x),
            λ ne. absurd (ne (ground arith)),
            λ at_end. shrink-GivenBack (length pages) released a small (omega arith),
          )
      | inr e ↦ rw e (
        le,
        a,
        omega arith,
        λ x. ground (arith, cov x),
        λ ne. refl,
        λ at_end. absurd (ground arith),
      )
    ]

-- The run of `unregister_blob` on a range within the file.
unregister_run :
    (m : BlobManager) (offset size first last : ℕ) (r : Bool × List Page)
    → add64 offset size ≡ offset + size
    → ltb m.next_offset (offset + size) ≡ false
    → page_of offset ≡ first
    → page_of (sub64 (offset + size) 1) ≡ last
    → release_pages offset (offset + size) last (suc (last + 1 - first)) first m.pages ≡ some r
    → unregister_blob m offset size ≡ some (after_release m (offset + size) r)
unfolding unregister_blob
unregister_run m offset size first last r wrap inside start end ends =
    rw wrap (rw inside (rw (start, end) (rw ends refl)))

-- Freeing a range of at least one byte, whose end fits 64 bits, of a file of at most 2 ^ 32 - 1 pages,
-- where every page has its free sections in order, ends. It is refused only where the range reaches
-- behind the end of the file or a byte of it is free already. Otherwise all pages are in order again;
-- each byte of the range is free once more than before, and the bytes that the end of the file has
-- moved down over are free once less; every other byte is as before. The end of the file moves only
-- where the range reaches it, and then, where the last section of the last page in the map still
-- ends at it, it has moved down, to within that page.
pub unregister_blob_lem :
    (m : BlobManager) (offset size : ℕ)
    → AllOrdered m.pages
    → 0 < size
    → offset + size < 2 ^ 64
    → m.next_offset ≤ (2 ^ 32 - 1) * page_size
    → (r : BlobManager × Bool) × (unregister_blob m offset size ≡ some r)
      × Unregistered m offset (offset + size) r
unregister_blob_lem m offset size a some_byte small narrow =
    let wrap : add64 offset size ≡ offset + size = omega arith in
    elim (Bool-cases (ltb m.next_offset (offset + size))) [
      | inl e ↦ ((m, false), unfold unregister_blob in rw wrap (rw e refl), inl (ground arith))
      | inr e ↦
          let le : offset + size ≤ m.next_offset = ground arith in
          let first = offset / page_size in
          let last = (offset + size - 1) / page_size in
          let from : max offset (first * page_size) ≡ offset = ground arith in
          let (r, ends, freed) =
            release_pages_lem offset (offset + size) last (suc (last + 1 - first)) first m.pages a
              (omega arith) (omega arith) (omega arith) (omega arith) (omega arith) (omega arith)
              (omega arith) (omega arith) in
          (
            after_release m (offset + size) r,
            unregister_run m offset size first last r wrap e (omega arith) (omega arith) ends,
            after_release_lem m offset (offset + size) r le (omega arith)
                (subst (λ b. PagesFreed b (offset + size) m.pages r) from freed),
          )
    ]
