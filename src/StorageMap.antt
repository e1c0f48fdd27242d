-- ===== src/StorageMap.antt =====
-- src/core/input_storage_map.cpp: which blobs hold the attributes of a unit, how often a unit is
-- referenced, and which blobs are no longer referenced. The hash map is an association list. An
-- assertion is compiled out in a release build, so the code behind it runs on a missing id, with the
-- entry that `operator[]` creates.
pub mod Entries
pub mod Conservation
pub mod Serialize
mod Tests
use dewfall.Prelude.{
  ℕ, zero, suc, ◌+◌, ◌-◌, ◌%◌, ◌^◌, Bool, true, false, not, ◌&&◌, Option, none, some, List, [], ◌∷◌,
  ◌++◌, ◌==◌, if◌then◌else◌, get_elem?,
}

-- `storage_location_t`
pub record StorageLocation : Type 0 where
  pub file_id : ℕ
  pub size : ℕ
  pub offset : ℕ

-- `input_data_id_t`
pub record InputDataId : Type 0 where
  pub input : ℕ
  pub sub : ℕ

-- `operator==` of `input_data_id_t`
unfoldable pub id_eq : InputDataId → InputDataId → Bool
id_eq a b = a.input == b.input && a.sub == b.sub

-- `value_t`
pub record Value : Type 0 where
  pub attributes_id : ℕ
  pub storage : List StorageLocation
  pub ref_count : ℕ

pub record InputStorageMap : Type 0 where
  pub entries : List (InputDataId × Value)
  pub discarded : List StorageLocation

-- the value that `operator[]` creates
abbrev pub fresh_value : Value
fresh_value = record { attributes_id = 0; storage = []; ref_count = 0 }

-- `_map.find(id)`
unfoldable pub find : InputDataId → List (InputDataId × Value) → Option Value
find id [] = none
find id ((j, v) ∷ l) = if id_eq j id then some v else find id l

-- `_map[id] = value`
unfoldable pub assign :
    InputDataId → Value → List (InputDataId × Value) → List (InputDataId × Value)
assign id v [] = (id, v) ∷ []
assign id v ((j, u) ∷ l) = if id_eq j id then (j, v) ∷ l else (j, u) ∷ assign id v l

-- `_map.erase(id)`
unfoldable pub erase : InputDataId → List (InputDataId × Value) → List (InputDataId × Value)
erase id [] = []
erase id ((j, u) ∷ l) = if id_eq j id then l else (j, u) ∷ erase id l

-- `_map[id]`, read
unfoldable pub index : InputDataId → List (InputDataId × Value) → Value
index id l = elim (find id l) [ none ↦ fresh_value | some v ↦ v ]

-- the loop that records the locations of non-empty blobs as discarded
unfoldable pub discard : List StorageLocation → List StorageLocation → List StorageLocation
discard discarded [] = discarded
discard discarded (location ∷ l) =
    discard (if not (location.size == 0) then discarded ++ (location ∷ []) else discarded) l

-- `uint32_t` counters wrap.
abbrev pub increment : ℕ → ℕ
increment n = (n + 1) % 2 ^ 32

abbrev pub decrement : ℕ → ℕ
decrement n = (n + 2 ^ 32 - 1) % 2 ^ 32

unfoldable pub add_storage :
    InputStorageMap → InputDataId → ℕ → List StorageLocation → InputStorageMap
unfolding index
add_storage m id attributes_id storage =
    let old = index id m.entries in
    let replacing : Bool = elim (find id m.entries) [ none ↦ false | some _ ↦ true ] in
    let count = if not replacing then increment old.ref_count else old.ref_count in
    record m {
      entries =
          assign id (record { attributes_id = attributes_id; storage = storage; ref_count = count })
            m.entries;
      discarded = discard m.discarded old.storage;
    }

unfoldable pub append_storage :
    InputStorageMap → InputDataId → ℕ → List StorageLocation → InputStorageMap
append_storage m id attributes_id extra = elim (find id m.entries) [
  | none ↦ m
  | some v ↦ record m {
    entries =
        assign id (record v { attributes_id = attributes_id; storage = v.storage ++ extra })
          m.entries;
  }
]

unfoldable pub dereference_discard : InputStorageMap → InputDataId → InputStorageMap
unfolding index
dereference_discard m id =
    let v = index id m.entries in
    let count = decrement v.ref_count in
    if count == 0
    then record m { entries = erase id m.entries; discarded = discard m.discarded v.storage }
    else record m { entries = assign id (record v { ref_count = count }) m.entries }

-- The new map, and the attributes and locations that the caller is handed.
unfoldable pub dereference :
    InputStorageMap → InputDataId → InputStorageMap × ℕ × List StorageLocation
unfolding index
dereference m id =
    let v = index id m.entries in
    let count = decrement v.ref_count in
    if count == 0
    then (record m { entries = erase id m.entries }, v.attributes_id, v.storage)
    else (
      record m { entries = assign id (record v { ref_count = count }) m.entries },
      v.attributes_id,
      v.storage,
    )

unfoldable pub add_ref : InputStorageMap → InputDataId → InputStorageMap
unfolding index
add_ref m id =
    let v = index id m.entries in
    record m { entries = assign id (record v { ref_count = increment v.ref_count }) m.entries }

-- `at` and the iterator of `find` fail on a missing id: `none`.
unfoldable pub info : InputStorageMap → InputDataId → Option (ℕ × List StorageLocation)
info m id = elim (find id m.entries) [ none ↦ none | some v ↦ some (v.attributes_id, v.storage) ]

unfoldable pub location : InputStorageMap → InputDataId → ℕ → Option StorageLocation
location m id attribute_index = elim (find id m.entries) [
  | none ↦ none
  | some v ↦ get_elem? v.storage attribute_index
]

unfoldable pub attribute_id : InputStorageMap → InputDataId → Option ℕ
attribute_id m id = elim (find id m.entries) [ none ↦ none | some v ↦ some v.attributes_id ]

unfoldable pub ref_count : InputStorageMap → InputDataId → ℕ
ref_count m id = elim (find id m.entries) [ none ↦ 0 | some v ↦ v.ref_count ]

unfoldable pub contains : InputStorageMap → InputDataId → Bool
contains m id = elim (find id m.entries) [ none ↦ false | some _ ↦ true ]

-- the drained locations, and the map without them
unfoldable pub take_discarded : InputStorageMap → InputStorageMap × List StorageLocation
take_discarded m = (record m { discarded = [] }, m.discarded)

unfoldable pub restore_discarded : InputStorageMap → List StorageLocation → InputStorageMap
restore_discarded m l = elim m.discarded [
  | [] ↦ record m { discarded = l }
  | _ ∷ _ ↦ record m { discarded = m.discarded ++ l }
]
