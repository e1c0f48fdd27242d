-- ===== src/StorageMap/Conservation.antt =====
-- No blob is forgotten: each is referenced, or waits to be freed, or was handed to the caller.
use dewfall.Prelude.{
  ℕ, ◌+◌, ◌^◌, ◌<◌, ◌≡◌, some, List, ◌++◌, if◌then◌else◌, arith, ap, ◌==◌, Option-cases, inl, inr,
}
use dewfall.StorageMap.{
  StorageLocation, InputDataId, Value, InputStorageMap, id_eq, find, index, add_storage,
  append_storage, dereference_discard, dereference, add_ref, ref_count, contains, increment,
  decrement,
}
use dewfall.StorageMap.Entries.{
  weigh, weigh_entries, weigh-append, weigh-discard, weigh-assign, weigh-erase, find-assign,
  find-erase, AllDistinct, same_id,
}

-- what is referenced and what waits to be freed, by a measure of locations
abbrev pub held : (StorageLocation → ℕ) → InputStorageMap → ℕ
held f m = weigh_entries f m.entries + weigh f m.discarded

module _ (f : StorageLocation → ℕ) (m : InputStorageMap) (id : InputDataId) where
  abbrev old : List StorageLocation
  old = (index id m.entries).storage

  add_part :
      (a : ℕ) (s : List StorageLocation)
      → ((x : StorageLocation) → x.size ≡ 0 → f x ≡ 0)
      → held f (add_storage m id a s) ≡ held f m + weigh f s
  unfolding add_storage
  add_part a s nothing =
      omega (arith, weigh-discard f nothing m.discarded old, weigh-assign f id _ m.entries)

  index_found : (v : Value) → find id m.entries ≡ some v → old ≡ v.storage
  unfolding index
  index_found v e = ground arith

  append_part :
      (a : ℕ) (s : List StorageLocation)
      → held f (append_storage m id a s) ≡ held f m + (if contains m id then weigh f s else 0)
  unfolding append_storage contains
  append_part a s = elim (Option-cases (find id m.entries)) [
    | inl e ↦ ground arith
    | inr (v, e) ↦ ground (
      arith,
      weigh-append f v.storage s,
      ap (weigh f) (index_found v e),
      weigh-assign f id (record v { attributes_id = a; storage = v.storage ++ s }) m.entries,
    )
  ]

  discard_part :
      ((x : StorageLocation) → x.size ≡ 0 → f x ≡ 0) → held f (dereference_discard m id) ≡ held f m
  unfolding dereference_discard
  discard_part nothing = ground (
    arith,
    weigh-discard f nothing m.discarded old,
    weigh-erase f id m.entries,
    weigh-assign f id
        (record (index id m.entries) { ref_count = decrement (index id m.entries).ref_count })
        m.entries,
  )

  add_ref_part : held f (add_ref m id) ≡ held f m
  unfolding add_ref
  add_ref_part = omega (
    arith,
    weigh-assign f id
        (record (index id m.entries) { ref_count = increment (index id m.entries).ref_count })
        m.entries,
  )

  count_read : (index id m.entries).ref_count ≡ ref_count m id
  unfolding index ref_count
  count_read = ground arith

  dereference_part :
      ref_count m id < 2 ^ 32
      → let (m', attributes, handed) = dereference m id in
        held f m' + (if ref_count m id == 1 then weigh f handed else 0) ≡ held f m
  unfolding dereference
  dereference_part small = ground (
    arith,
    weigh-erase f id m.entries,
    count_read,
    weigh-assign f id
        (record (index id m.entries) { ref_count = decrement (index id m.entries).ref_count })
        m.entries,
  )

-- For every measure of locations that gives nothing to empty blobs (such as the count of one
-- location, or the bytes): `add_storage` adds just the new locations to what is referenced or
-- discarded, `append_storage` just the extra ones to a known unit and nothing to an unknown one,
-- `dereference_discard` and `add_ref` change nothing, and a `dereference` keeps all unless it drops
-- the last reference, when exactly the locations handed to the caller leave (for a count that is a
-- `uint32_t`).
pub storage_conserved :
    (f : StorageLocation → ℕ) (m : InputStorageMap) (id : InputDataId) (attributes_id : ℕ)
    (storage : List StorageLocation)
    → ((x : StorageLocation) → x.size ≡ 0 → f x ≡ 0)
    → ref_count m id < 2 ^ 32
    → (held f (add_storage m id attributes_id storage) ≡ held f m + weigh f storage)
      × (held f (append_storage m id attributes_id storage)
          ≡ held f m + (if contains m id then weigh f storage else 0))
      × (held f (dereference_discard m id) ≡ held f m)
      × (held f (add_ref m id) ≡ held f m)
      × (let (m', attributes, handed) = dereference m id in
          held f m' + (if ref_count m id == 1 then weigh f handed else 0) ≡ held f m)
storage_conserved f m id a s nothing small = (
  add_part f m id a s nothing,
  append_part f m id a s,
  discard_part f m id nothing,
  add_ref_part f m id,
  dereference_part f m id small,
)

appended :
    (m : InputStorageMap) (id j : InputDataId) (a : ℕ) (s : List StorageLocation)
    → ref_count (append_storage m id a s) j ≡ ref_count m j
unfolding append_storage ref_count
appended m id j a s = elim (Option-cases (find id m.entries)) [
  | inl e ↦ ground arith
  | inr (v, e) ↦ ground (
    arith,
    same_id id j m.entries,
    find-assign id j (record v { attributes_id = a; storage = v.storage ++ s }) m.entries,
  )
]

-- The reference count of every id, where no id has two entries: a new unit has one reference and a
-- described one keeps its count, `append_storage` changes none, `add_ref` adds one, both ways to drop
-- a reference count one down, an entry that is gone counting 0, and no other unit is touched.
pub ref_counts :
    (m : InputStorageMap) (id j : InputDataId) (attributes_id : ℕ) (storage : List StorageLocation)
    → AllDistinct m.entries
    → (ref_count (add_storage m id attributes_id storage) j
        ≡ (if id_eq id j then (if contains m id then ref_count m id else 1) else ref_count m j))
      × (ref_count (append_storage m id attributes_id storage) j ≡ ref_count m j)
      × (ref_count (add_ref m id) j
          ≡ (if id_eq id j then increment (ref_count m id) else ref_count m j))
      × (ref_count (dereference_discard m id) j
          ≡ (if id_eq id j then decrement (ref_count m id) else ref_count m j))
      × (ref_count (dereference m id).0 j
          ≡ (if id_eq id j then decrement (ref_count m id) else ref_count m j))
unfolding ref_count contains add_storage append_storage add_ref dereference_discard dereference
    index
ref_counts m id j a s d =
    let v = index id m.entries in
    let described = λ (n : ℕ).
      find-assign id j (record { attributes_id = a; storage = s; ref_count = n }) m.entries in
    let counted = λ (n : ℕ). find-assign id j (record v { ref_count = n }) m.entries in
    let erased = find-erase id j m.entries d in
    let down = counted (decrement v.ref_count) in
    (
      ground (arith, described v.ref_count, described (increment v.ref_count)),
      appended m id j a s,
      ground (arith, counted (increment v.ref_count)),
      ground (arith, down, erased),
      ground (arith, down, erased),
    )
