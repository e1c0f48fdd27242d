-- ===== src/StorageMap/Serialize/RoundTrip.antt =====
-- A map that is written is read back.
use dewfall.Prelude.{
  ℕ, suc, ◌+◌, ◌*◌, ◌^◌, ◌≤◌, ◌<◌, ◌≡◌, refl, true, false, none, List, [], ◌∷◌, ◌++◌, ltb, leb,
  arith, ap, sym, ◌∙◌, Bool-cases, inl, inr, length, length-append,
}
use dewfall.Bytes.{le}
use dewfall.Memory.{Writer, advance, got}
use dewfall.Memory.Laws.{
  Writes, write_memory-Writes, write_vec_type-Writes, nothing-Writes, and_then-Writes,
  read_memory-le, append_assoc, append_nil,
}
use dewfall.StorageMap.{StorageLocation, InputDataId, Value, InputStorageMap, id_eq, find, assign}
use dewfall.StorageMap.Serialize.{
  id_bytes, storage_bytes, entries_size, serialized_size, write_entry, write_entries, serialize,
  read_locations, read_vec_type, read_entry, read_entries, deserialize,
}

-- the bytes of the entries
abbrev entry_bytes : InputDataId × Value → List ℕ
entry_bytes (id, v) =
    id_bytes id
    ++ (le 4 v.attributes_id
        ++ (le 4 v.ref_count ++ (le 4 (length v.storage) ++ storage_bytes v.storage)))

abbrev entries_bytes : List (InputDataId × Value) → List ℕ
entries_bytes [] = []
entries_bytes (e ∷ l) = entry_bytes e ++ entries_bytes l

write_entry-Writes : (e : InputDataId × Value) → Writes (write_entry e) (entry_bytes e)
unfolding write_entry
write_entry-Writes (id, v) =
    and_then-Writes _ _ (id_bytes id) _ (write_memory-Writes (id_bytes id)) (
      and_then-Writes _ _ (le 4 v.attributes_id) _ (write_memory-Writes (le 4 v.attributes_id)) (
        and_then-Writes _ _ (le 4 v.ref_count) _ (write_memory-Writes (le 4 v.ref_count)) (
          and_then-Writes _ _ (le 4 (length v.storage)) _
            (write_memory-Writes (le 4 (length v.storage)))
            (write_vec_type-Writes (storage_bytes v.storage)))))

write_entries-Writes : (l : List (InputDataId × Value)) → Writes (write_entries l) (entries_bytes l)
unfolding write_entries
write_entries-Writes [] = nothing-Writes
write_entries-Writes (e ∷ l) =
    and_then-Writes (write_entry e) (write_entries l) (entry_bytes e) (entries_bytes l)
      (write_entry-Writes e) (write_entries-Writes l)

abbrev map_bytes : InputStorageMap → List ℕ
map_bytes m = le 4 (length m.entries) ++ entries_bytes m.entries

serialize-Writes : (m : InputStorageMap) → Writes (serialize m) (map_bytes m)
unfolding serialize
serialize-Writes m =
    and_then-Writes _ (write_entries m.entries) (le 4 (length m.entries)) (entries_bytes m.entries)
      (write_memory-Writes (le 4 (length m.entries))) (write_entries-Writes m.entries)

length-storage_bytes : (l : List StorageLocation) → length (storage_bytes l) ≡ length l * 16
length-storage_bytes [] = refl
length-storage_bytes (s ∷ l) = omega (arith, length-storage_bytes l)

length-entries_bytes : (l : List (InputDataId × Value)) → length (entries_bytes l) ≡ entries_size l
unfolding entries_size
length-entries_bytes [] = refl
length-entries_bytes ((id, v) ∷ l) = omega (
  arith,
  length-append (storage_bytes v.storage) (entries_bytes l),
  length-storage_bytes v.storage,
  length-entries_bytes l,
)

length-map_bytes :
    (m : InputStorageMap)
    → 4 + entries_size m.entries < 2 ^ 32
    → length (map_bytes m) ≡ serialized_size m
unfolding serialized_size
length-map_bytes m small = omega (arith, length-entries_bytes m.entries)

-- `serialize` succeeds exactly if the buffer has room for `serialized_size` bytes, and then it writes
-- exactly as many: for a map of fewer than 4 GiB.
pub serialize-serialized_size :
    (m : InputStorageMap) (w : Writer)
    → 4 + entries_size m.entries < 2 ^ 32
    → (serialized_size m ≤ w.room
        → (bytes : List ℕ) × (length bytes ≡ serialized_size m)
          × (serialize m w ≡ (true, advance w bytes)))
      × (w.room < serialized_size m → (serialize m w).0 ≡ false)
serialize-serialized_size m w small =
    let size = length-map_bytes m small in
    (
      λ fits. (map_bytes m, size, (serialize-Writes m w).0 (omega (arith, size))),
      λ short. (serialize-Writes m w).1 (omega (arith, size)),
    )

-- Every number fits its field.
abbrev pub LocationsFit : List StorageLocation → Type 0
LocationsFit [] = Unit {0}
LocationsFit (s ∷ l) =
    (s.file_id < 2 ^ 32) × (s.size < 2 ^ 32) × (s.offset < 2 ^ 64) × LocationsFit l

pub record EntryFits (e : InputDataId × Value) : Type 0 where
  pub input : e.0.input < 2 ^ 32
  pub sub : e.0.sub < 2 ^ 32
  pub attributes : e.1.attributes_id < 2 ^ 32
  pub references : e.1.ref_count < 2 ^ 32
  pub locations : length e.1.storage < 2 ^ 32
  pub storage : LocationsFit e.1.storage

-- Every entry fits, and its key is new to the map, into which the entries before it went.
abbrev pub Readable : List (InputDataId × Value) → List (InputDataId × Value) → Type 0
Readable entries [] = Unit {0}
Readable entries (e ∷ l) =
    EntryFits e × (find e.0 entries ≡ none) × Readable (entries ++ (e ∷ [])) l

read_locations_lem :
    (l : List StorageLocation) (rest : List ℕ)
    → LocationsFit l
    → read_locations (length l) (storage_bytes l ++ rest) ≡ got l rest
unfolding read_locations
read_locations_lem [] rest fits = refl
read_locations_lem (s ∷ l) rest (a, b, c, fits) =
    let back = storage_bytes l ++ rest in
    rw (read_memory-le 4 s.file_id (le 4 s.size ++ (le 8 s.offset ++ back)) a, read_locations)
      (rw (read_memory-le 4 s.size (le 8 s.offset ++ back) b, read_locations)
        (rw (read_memory-le 8 s.offset back c, read_locations)
          (rw (read_locations_lem l rest fits, read_locations) refl)))

read_vec_type_lem :
    (l : List StorageLocation) (rest : List ℕ)
    → LocationsFit l
    → read_vec_type (storage_bytes l ++ rest) (length l) ≡ got l rest
unfolding read_vec_type
read_vec_type_lem [] rest fits = refl
read_vec_type_lem (s ∷ l) rest fits =
    let enough : ltb (length (storage_bytes (s ∷ l) ++ rest)) (16 * suc (length l)) ≡ false =
      ground (arith, length-append (storage_bytes (s ∷ l)) rest, length-storage_bytes (s ∷ l)) in
    rw enough (read_locations_lem (s ∷ l) rest fits)

read_entry_lem :
    (e : InputDataId × Value) (rest : List ℕ)
    → EntryFits e
    → read_entry (entry_bytes e ++ rest) ≡ got e rest
unfolding read_entry
read_entry_lem (id, v) rest fits =
    let back5 = storage_bytes v.storage ++ rest in
    let back4 = le 4 (length v.storage) ++ back5 in
    let back3 = le 4 v.ref_count ++ back4 in
    let back2 = le 4 v.attributes_id ++ back3 in
    let enough : ltb (length (le 4 id.input ++ (le 4 id.sub ++ back2))) 8 ≡ false = ground arith in
    rw (enough, read_entry)
      (rw (read_memory-le 4 id.input (le 4 id.sub ++ back2) fits.input, read_entry)
        (rw (read_memory-le 4 id.sub back2 fits.sub, read_entry)
          (rw (read_memory-le 4 v.attributes_id back3 fits.attributes, read_entry)
            (rw (read_memory-le 4 v.ref_count back4 fits.references, read_entry)
              (rw (read_memory-le 4 (length v.storage) back5 fits.locations, read_entry)
                (rw (read_vec_type_lem v.storage rest fits.storage, read_entry) refl))))))

assign_new :
    (id : InputDataId) (v : Value) (l : List (InputDataId × Value))
    → find id l ≡ none
    → assign id v l ≡ l ++ ((id, v) ∷ [])
unfolding find assign
assign_new id v [] h = refl
assign_new id v ((j, u) ∷ l) h = elim (Bool-cases (id_eq j id)) [
  | inl same ↦ absurd (ground (arith, same, h))
  | inr other ↦
      let rest : find id l ≡ none = ground (arith, other, h) in
      rw other (ap (◌∷◌ (j, u)) (assign_new id v l rest))
]

read_entries_lem :
    (l : List (InputDataId × Value)) (m : InputStorageMap) (rest : List ℕ)
    → Readable m.entries l
    → read_entries (length l) m (entries_bytes l ++ rest)
      ≡ (true, record m { entries = m.entries ++ l }, rest)
unfolding read_entries
read_entries_lem [] m rest ok =
    ap (λ es. (true, record m { entries = es }, rest)) (sym (append_nil m.entries))
read_entries_lem ((id, v) ∷ l) m rest (fits, new, ok) =
    let back = entries_bytes l ++ rest in
    let next : InputStorageMap = record m { entries = m.entries ++ ((id, v) ∷ []) } in
    ap (read_entries (suc (length l)) m) (append_assoc (entry_bytes (id, v)) (entries_bytes l) rest)
    ∙ rw (read_entry_lem (id, v) back fits, read_entries)
        (rw (assign_new id v m.entries new) (
          read_entries_lem l next rest ok
          ∙ ap (λ es. (true, record m { entries = es }, rest))
              (append_assoc m.entries ((id, v) ∷ []) l)))

abbrev empty_map : InputStorageMap
empty_map = record { entries = []; discarded = [] }

-- What `serialize` has written is read by `deserialize` into an empty map: the same entries in the
-- same order, with their reference counts, but no discarded blobs; the reader stops behind the map.
-- The map has fewer than 2 ^ 32 entries, whose numbers fit their fields and whose keys differ.
pub deserialize-serialize :
    (m : InputStorageMap) (room : ℕ) (out : Writer) (rest : List ℕ)
    → length m.entries < 2 ^ 32
    → Readable [] m.entries
    → serialize m (record { written = []; room = room }) ≡ (true, out)
    → deserialize (record { entries = []; discarded = [] }) (out.written ++ rest)
      ≡ (true, record { entries = m.entries; discarded = [] }, rest)
unfolding deserialize
deserialize-serialize m room out rest few ok e =
    let start : Writer = record { written = []; room = room } in
    elim (Bool-cases (leb (length (map_bytes m)) room)) [
      | inl fits ↦
          let done = (serialize-Writes m start).0 (ground arith) in
          let same : out.written ≡ map_bytes m = ap (λ p. p.1.written) (sym e ∙ done) in
          rw same (
            rw
              (
                read_memory-le 4 (length m.entries) (entries_bytes m.entries ++ rest) few,
                deserialize,
              )
              (read_entries_lem m.entries empty_map rest ok))
      | inr tight ↦
          let bad = (serialize-Writes m start).1 (ground arith) in absurd (ground (arith, bad, e))
    ]
