-- ===== src/StorageMap/Tests.antt =====
-- A run, and the theorems at inputs that meet their hypotheses.
use dewfall.Prelude.{
  ℕ, ◌+◌, ◌^◌, ◌<◌, ◌≡◌, refl, [], ◌∷◌, if◌then◌else◌, arith, ◌==◌, List, ◌++◌, ◌≤◌, length, true,
  false,
}
use dewfall.StorageMap.{
  StorageLocation, InputDataId, InputStorageMap, id_eq, find, assign, discard, add_storage,
  append_storage, dereference_discard, dereference, add_ref, ref_count, contains, increment,
  decrement,
}
use dewfall.StorageMap.Entries.{weigh}
use dewfall.StorageMap.Conservation.{held, storage_conserved, ref_counts}
use dewfall.Memory.{advance, write_memory, write_vec_type, and_then}
use dewfall.StorageMap.Serialize.{
  entries_size, serialized_size, write_entry, write_entries, serialize, deserialize,
}
use dewfall.StorageMap.Serialize.RoundTrip.{serialize-serialized_size, deserialize-serialize}

abbrev unit : InputDataId
unit = record { input = 3; sub = 1 }

abbrev blob : ℕ → StorageLocation
blob size = record { file_id = 0; size = size; offset = 4096 }

abbrev stored : InputStorageMap
stored = record {
  entries =
      (unit, record { attributes_id = 1; storage = blob 10 ∷ blob 0 ∷ []; ref_count = 1 }) ∷ [];
  discarded = blob 5 ∷ [];
}

-- Describing a unit anew discards the blob that it had, and not the empty one.
replace_runs : add_storage stored unit 2 (blob 7 ∷ []) ≡ record {
  entries = (unit, record { attributes_id = 2; storage = blob 7 ∷ []; ref_count = 1 }) ∷ [];
  discarded = blob 5 ∷ blob 10 ∷ [];
}
unfolding add_storage find assign id_eq discard
replace_runs = refl

bytes_of_empty : (x : StorageLocation) → x.size ≡ 0 → x.size ≡ 0
bytes_of_empty x h = h

one_reference : ref_count stored unit < 2 ^ 32
unfolding ref_count find id_eq
one_reference = omega arith

storage_conserved_example :
    (held (λ x. x.size) (add_storage stored unit 2 (blob 7 ∷ []))
      ≡ held (λ x. x.size) stored + weigh (λ x. x.size) (blob 7 ∷ []))
    × (held (λ x. x.size) (append_storage stored unit 2 (blob 7 ∷ []))
        ≡ held (λ x. x.size) stored
          + (if contains stored unit then weigh (λ x. x.size) (blob 7 ∷ []) else 0))
    × (held (λ x. x.size) (dereference_discard stored unit) ≡ held (λ x. x.size) stored)
    × (held (λ x. x.size) (add_ref stored unit) ≡ held (λ x. x.size) stored)
    × (let (m', attributes, handed) = dereference stored unit in
        held (λ x. x.size) m'
          + (if ref_count stored unit == 1 then weigh (λ x. x.size) handed else 0)
        ≡ held (λ x. x.size) stored)
storage_conserved_example =
    storage_conserved (λ x. x.size) stored unit 2 (blob 7 ∷ []) bytes_of_empty one_reference

ref_counts_example :
    (ref_count (add_storage stored unit 2 (blob 7 ∷ [])) unit ≡ (
      if id_eq unit unit
      then (if contains stored unit then ref_count stored unit else 1)
      else ref_count stored unit))
    × (ref_count (append_storage stored unit 2 (blob 7 ∷ [])) unit ≡ ref_count stored unit)
    × (ref_count (add_ref stored unit) unit
        ≡ (if id_eq unit unit then increment (ref_count stored unit) else ref_count stored unit))
    × (ref_count (dereference_discard stored unit) unit
        ≡ (if id_eq unit unit then decrement (ref_count stored unit) else ref_count stored unit))
    × (ref_count (dereference stored unit).0 unit
        ≡ (if id_eq unit unit then decrement (ref_count stored unit) else ref_count stored unit))
ref_counts_example = ref_counts stored unit unit 2 (blob 7 ∷ []) (tt, tt)

-- Four bytes for the number of entries, 20 for the entry, and 16 for each of its two locations.
stored_size : serialized_size stored ≡ 56
unfolding serialized_size entries_size
stored_size = refl

serialize-serialized_size_example :
    (serialized_size stored ≤ 60
      → (bytes : List ℕ) × (length bytes ≡ serialized_size stored)
        × (serialize stored (record { written = 7 ∷ []; room = 60 })
            ≡ (true, advance (record { written = 7 ∷ []; room = 60 }) bytes)))
    × (60 < serialized_size stored
        → (serialize stored (record { written = 7 ∷ []; room = 60 })).0 ≡ false)
unfolding entries_size
serialize-serialized_size_example =
    serialize-serialized_size stored (record { written = 7 ∷ []; room = 60 }) (omega arith)

-- A short entry and what is written of it.
abbrev short_map : InputStorageMap
short_map = record {
  entries = (unit, record { attributes_id = 1; storage = []; ref_count = 2 }) ∷ [];
  discarded = blob 5 ∷ [];
}

abbrev short_bytes : List ℕ
short_bytes =
    1 ∷ 0 ∷ 0 ∷ 0 ∷ 3 ∷ 0 ∷ 0 ∷ 0 ∷ 1 ∷ 0 ∷ 0 ∷ 0 ∷ 1 ∷ 0 ∷ 0 ∷ 0 ∷ 2 ∷ 0 ∷ 0 ∷ 0 ∷ 0 ∷ 0 ∷ 0 ∷ 0
    ∷ []

short_written :
    serialize short_map (record { written = []; room = 30 })
    ≡ (true, record { written = short_bytes; room = 6 })
unfolding serialize write_entries write_entry write_memory write_vec_type and_then
short_written = refl

deserialize-serialize_example :
    deserialize (record { entries = []; discarded = [] }) (short_bytes ++ (9 ∷ []))
    ≡ (true, record { entries = short_map.entries; discarded = [] }, 9 ∷ [])
unfolding find
deserialize-serialize_example =
    deserialize-serialize short_map 30 (record { written = short_bytes; room = 6 }) (9 ∷ [])
      (omega arith)
      (
        record {
          input = omega arith;
          sub = omega arith;
          attributes = omega arith;
          references = omega arith;
          locations = omega arith;
          storage = tt;
        },
        refl,
        tt,
      )
      short_written
