-- ===== src/Compressor/Stats/Balance.antt =====
-- What subtracting a source buffer that was accumulated takes back.
use dewfall.Prelude.{
  ℕ, ◌+◌, ◌-◌, ◌%◌, ◌*◌, ◌^◌, ◌<◌, ◌≡◌, refl, Bool, true, List, [], ◌∷◌, ◌==◌, ltb, if◌then◌else◌,
  arith, ap, sym, ◌∙◌, Bool-cases, inl, inr,
}
use dewfall.Compressor.{DewType, PointFormat, size_for_format}
use dewfall.Compressor.Stats.{
  AttributeStats, CompressionStats, Buffer, wrap64, same_name, same_format, type_number, matches,
  add_buffer, new_attribute, accumulate_in, accumulate, subtract_buffer, any_of, update_first,
  subtract_source,
}

-- the attribute with these three counters
abbrev with_counts : ℕ → ℕ → ℕ → AttributeStats → AttributeStats
with_counts buffers uncompressed compressed a = record a {
  buffer_count = buffers;
  uncompressed_bytes = uncompressed;
  compressed_bytes = compressed;
}

with_counts_ap :
    (a : AttributeStats) (n n' u u' c c' : ℕ)
    → n ≡ n'
    → u ≡ u'
    → c ≡ c'
    → with_counts n u c a ≡ with_counts n' u' c' a
with_counts_ap a n n' u u' c c' e1 e2 e3 = rw e1 (rw e2 (rw e3 refl))

same_name_refl : (a : List ℕ) → same_name a a ≡ true
unfolding same_name
same_name_refl [] = refl
same_name_refl (x ∷ a) = ground (arith, same_name_refl a)

same_format_refl : (f : PointFormat) → same_format f f ≡ true
same_format_refl f = ground arith

-- the size, by the number of the type
size_of_number : ℕ → ℕ
size_of_number n =
    if ltb n 2
    then 1
    else if ltb n 4
    then 2
    else if ltb n 8
    then 4
    else if ltb n 12
    then 8
    else if n == 12
    then 16
    else 24

size_by_number : (t : DewType) → size_for_format t ≡ size_of_number (type_number t)
unfolding size_for_format size_of_number
size_by_number DewType.type_u8 = refl
size_by_number DewType.type_i8 = refl
size_by_number DewType.type_u16 = refl
size_by_number DewType.type_i16 = refl
size_by_number DewType.type_u32 = refl
size_by_number DewType.type_i32 = refl
size_by_number DewType.type_m32 = refl
size_by_number DewType.type_r32 = refl
size_by_number DewType.type_u64 = refl
size_by_number DewType.type_i64 = refl
size_by_number DewType.type_m64 = refl
size_by_number DewType.type_r64 = refl
size_by_number DewType.type_m128 = refl
size_by_number DewType.type_m192 = refl

size_same :
    (a b : PointFormat)
    → same_format a b ≡ true
    → size_for_format a.type * a.components ≡ size_for_format b.type * b.components
size_same a b h =
    let number : type_number a.type ≡ type_number b.type = ground (arith, h) in
    let components : a.components ≡ b.components = ground (arith, h) in
    let size : size_for_format a.type ≡ size_for_format b.type =
      size_by_number a.type ∙ (ap size_of_number number ∙ sym (size_by_number b.type)) in
    rw size (rw components refl)

module _ (less : ℕ → ℕ → Bool) (b : Buffer) (point_count extra : ℕ)
    (exact : b.uncompressed
      ≡ point_count * (size_for_format b.format.type * b.format.components) + extra) where
  abbrev taken : AttributeStats → AttributeStats
  taken = subtract_buffer point_count extra b.compressed

  abbrev exactly : AttributeStats → Bool
  exactly = matches b.name b.format

  -- Room for the buffer in the counters of every attribute, and in those of a new one.
  unfoldable pub HasRoom : List AttributeStats → Type 0
  HasRoom [] = (b.uncompressed < 2 ^ 64) × (b.compressed < 2 ^ 64)
  HasRoom (a ∷ l) =
      ((a.buffer_count + 1 < 2 ^ 64)
        × (a.uncompressed_bytes + b.uncompressed < 2 ^ 64)
        × (a.compressed_bytes + b.compressed < 2 ^ 64))
      × HasRoom l

  -- The first attribute of the name and the format, or else a new one at the end, as accumulating
  -- the buffer leaves it, but with the three counters of before.
  unfoldable pub taken_back : List AttributeStats → List AttributeStats
  taken_back [] = with_counts 0 0 0 (new_attribute less b) ∷ []
  taken_back (a ∷ l) =
      if exactly a
      then with_counts a.buffer_count a.uncompressed_bytes a.compressed_bytes (add_buffer less b a)
        ∷ l
      else a ∷ taken_back l

  new_matches : exactly (new_attribute less b) ≡ true
  unfolding new_attribute
  new_matches = ground (arith, same_name_refl b.name, same_format_refl b.format)

  kept_matches : (a : AttributeStats) → exactly (add_buffer less b a) ≡ exactly a
  unfolding add_buffer
  kept_matches a = refl

  found : (l : List AttributeStats) → any_of exactly (accumulate_in less b l) ≡ true
  unfolding any_of accumulate_in
  found [] = ground (arith, new_matches)
  found (a ∷ l) = elim (Bool-cases (exactly a)) [
    | inl here ↦ rw here (ground (arith, kept_matches a, here))
    | inr later ↦ rw later (ground (arith, found l))
  ]

  named_found :
      (l : List AttributeStats)
      → any_of exactly l ≡ true
      → any_of (λ a. same_name a.name b.name) l ≡ true
  unfolding any_of
  named_found [] h = h
  named_found (a ∷ l) h = ground (arith, named_found l)

  -- the bytes that are subtracted at the attribute
  new_bytes :
      b.uncompressed < 2 ^ 64
      → wrap64 (point_count * (size_for_format b.format.type * b.format.components) + extra)
        ≡ b.uncompressed
  new_bytes small = ground (arith, exact)

  kept_bytes :
      (a : AttributeStats)
      → exactly a ≡ true
      → b.uncompressed < 2 ^ 64
      → wrap64 (point_count * (size_for_format a.format.type * a.format.components) + extra)
        ≡ b.uncompressed
  kept_bytes a here small =
      ap (λ e. wrap64 (point_count * e + extra))
        (size_same a.format b.format (ground (arith, here)))
      ∙ new_bytes small

  new_lem :
      b.uncompressed < 2 ^ 64
      → taken (new_attribute less b) ≡ with_counts 0 0 0 (new_attribute less b)
  unfolding subtract_buffer new_attribute
  new_lem small =
      with_counts_ap (new_attribute less b) _ 0 _ 0 _ 0 (omega arith)
        (omega (arith, new_bytes small)) (omega arith)

  add_lem :
      (a : AttributeStats)
      → exactly a ≡ true
      → a.buffer_count + 1 < 2 ^ 64
      → a.uncompressed_bytes + b.uncompressed < 2 ^ 64
      → a.compressed_bytes + b.compressed < 2 ^ 64
      → taken (add_buffer less b a)
        ≡ with_counts a.buffer_count a.uncompressed_bytes a.compressed_bytes (add_buffer less b a)
  unfolding subtract_buffer add_buffer
  add_lem a here counts plain packed =
      with_counts_ap (add_buffer less b a) _ a.buffer_count _ a.uncompressed_bytes _
        a.compressed_bytes (omega arith) (omega (arith, kept_bytes a here (omega arith)))
        (omega arith)

  taken_back_lem :
      (l : List AttributeStats)
      → HasRoom l
      → update_first exactly taken (accumulate_in less b l) ≡ taken_back l
  unfolding update_first accumulate_in taken_back HasRoom
  taken_back_lem [] room = rw new_matches (ap (λ a. a ∷ []) (new_lem room.0))
  taken_back_lem (a ∷ l) ((counts, plain, packed), room) = elim (Bool-cases (exactly a)) [
    | inl here ↦
        rw here
          (rw (kept_matches a ∙ here) (ap (λ a'. a' ∷ l) (add_lem a here counts plain packed)))
    | inr later ↦ rw later (rw later (ap (λ l'. a ∷ l') (taken_back_lem l room)))
  ]

  -- Of a buffer that was accumulated, subtracting it as a source buffer of the same name, format and
  -- sizes gives the total count of buffers of before, and at the first attribute of that name and
  -- format, or at the one that was added for it, the buffer count and the bytes before and after
  -- compression of before, or 0. Everything else, the path counts, the extreme values and the counts
  -- of the LOD buffers among it, stays as accumulating has left it. The conditions: no counter that
  -- is raised wraps, and the bytes before compression are those of the points and `extra`.
  pub subtract_source-accumulate :
      (stats : CompressionStats)
      → stats.total_buffer_count + 1 < 2 ^ 32
      → HasRoom stats.per_attribute
      → subtract_source b.name b.format point_count extra b.compressed (accumulate less b stats)
        ≡ record {
          total_buffer_count = stats.total_buffer_count;
          lod_buffer_count = (accumulate less b stats).lod_buffer_count;
          per_attribute = taken_back stats.per_attribute;
        }
  unfolding subtract_source accumulate
  subtract_source-accumulate stats small room =
      let l = accumulate_in less b stats.per_attribute in
      let exact_found = found stats.per_attribute in
      let total : (stats.total_buffer_count + 1) % 2 ^ 32 - 1 ≡ stats.total_buffer_count =
        omega arith in
      rw (named_found l exact_found)
        (rw exact_found (rw total (rw (taken_back_lem stats.per_attribute room) refl)))
