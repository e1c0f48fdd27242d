-- ===== src/StorageMap/Serialize.antt =====
-- `serialized_size`, `serialize` and `deserialize` of src/core/input_storage_map.cpp. The entries are
-- written in the order of the list.
pub mod RoundTrip
use dewfall.Prelude.{
  ℕ, zero, suc, ◌+◌, ◌*◌, ◌%◌, ◌^◌, Bool, true, false, List, [], ◌∷◌, ◌++◌, ltb, if◌then◌else◌,
  length,
}
use dewfall.Bytes.{le}
use dewfall.Memory.{Writer, write_memory, write_vec_type, and_then, Read, stopped, got, read_memory}
use dewfall.StorageMap.{StorageLocation, InputDataId, Value, InputStorageMap, assign}

-- the bytes of the structures, as they lie in memory
abbrev pub location_bytes : StorageLocation → List ℕ
location_bytes s = le 4 s.file_id ++ (le 4 s.size ++ le 8 s.offset)

abbrev pub id_bytes : InputDataId → List ℕ
id_bytes id = le 4 id.input ++ le 4 id.sub

abbrev pub storage_bytes : List StorageLocation → List ℕ
storage_bytes [] = []
storage_bytes (s ∷ l) = location_bytes s ++ storage_bytes l

-- the sum of the loop, in `uint32_t`
unfoldable pub entries_size : List (InputDataId × Value) → ℕ
entries_size [] = 0
entries_size ((id, v) ∷ l) = 8 + 4 + 4 + 4 + length v.storage * 16 + entries_size l

unfoldable pub serialized_size : InputStorageMap → ℕ
serialized_size m = (4 + entries_size m.entries) % 2 ^ 32

-- one round of the loop of `serialize`
unfoldable pub write_entry : InputDataId × Value → Writer → Bool × Writer
write_entry (id, v) w = and_then (write_memory w (id_bytes id)) (λ w1.
    and_then (write_memory w1 (le 4 v.attributes_id)) (λ w2.
      and_then (write_memory w2 (le 4 v.ref_count)) (λ w3.
        and_then (write_memory w3 (le 4 (length v.storage)))
          (λ w4. write_vec_type w4 (storage_bytes v.storage)))))

unfoldable pub write_entries : List (InputDataId × Value) → Writer → Bool × Writer
write_entries [] w = (true, w)
write_entries (e ∷ l) w = and_then (write_entry e w) (write_entries l)

unfoldable pub serialize : InputStorageMap → Writer → Bool × Writer
serialize m w = and_then (write_memory w (le 4 (length m.entries))) (write_entries m.entries)

-- `memcpy` of `storage_location_t`s out of a buffer that holds them
unfoldable pub read_locations : ℕ → List ℕ → Read (List StorageLocation)
read_locations zero ptr = got [] ptr
read_locations (suc n) ptr = elim (read_memory 4 ptr) [
  | stopped p ↦ stopped p
  | got file_id p1 ↦ elim (read_memory 4 p1) [
    | stopped p ↦ stopped p
    | got size p2 ↦ elim (read_memory 8 p2) [
      | stopped p ↦ stopped p
      | got offset p3 ↦ elim (read_locations n p3) [
        | stopped p ↦ stopped p
        | got l p4 ↦ got (record { file_id = file_id; size = size; offset = offset } ∷ l) p4
      ]
    ]
  ]
]

-- `read_vec_type`: the bytes of the whole vector have to be there
unfoldable pub read_vec_type : List ℕ → ℕ → Read (List StorageLocation)
read_vec_type ptr zero = got [] ptr
read_vec_type ptr (suc n) =
    if ltb (length ptr) (16 * suc n) then stopped ptr else read_locations (suc n) ptr

-- one round of the loop of `deserialize`
unfoldable pub read_entry : List ℕ → Read (InputDataId × Value)
read_entry ptr = if ltb (length ptr) 8 then stopped ptr else elim (read_memory 4 ptr) [
  | stopped p ↦ stopped p
  | got input p1 ↦ elim (read_memory 4 p1) [
    | stopped p ↦ stopped p
    | got sub p2 ↦ elim (read_memory 4 p2) [
      | stopped p ↦ stopped p
      | got attributes_id p3 ↦ elim (read_memory 4 p3) [
        | stopped p ↦ stopped p
        | got ref_count p4 ↦ elim (read_memory 4 p4) [
          | stopped p ↦ stopped p
          | got storage_size p5 ↦ elim (read_vec_type p5 storage_size) [
            | stopped p ↦ stopped p
            | got storage p6 ↦
                got
                  (
                    record { input = input; sub = sub },
                    record {
                      attributes_id = attributes_id;
                      storage = storage;
                      ref_count = ref_count;
                    },
                  )
                  p6
          ]
        ]
      ]
    ]
  ]
]

-- The entries that were read before a failure stay in the map.
unfoldable pub read_entries : ℕ → InputStorageMap → List ℕ → Bool × InputStorageMap × List ℕ
read_entries zero m ptr = (true, m, ptr)
read_entries (suc n) m ptr = elim (read_entry ptr) [
  | stopped p ↦ (false, m, p)
  | got (id, v) p ↦ read_entries n (record m { entries = assign id v m.entries }) p
]

unfoldable pub deserialize : InputStorageMap → List ℕ → Bool × InputStorageMap × List ℕ
deserialize m buffer = elim (read_memory 4 buffer) [
  | stopped p ↦ (false, m, p)
  | got map_size p ↦ read_entries map_size m p
]
