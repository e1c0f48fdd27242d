-- ===== src/Residency.antt =====
-- src/core/blob_residency.cpp: where the bytes of each blob are, in a slab of entries that a map from
-- offsets indexes and a list of recency threads. The map is an association list, and an access
-- outside the slab reads a fresh entry and writes nothing.
pub mod Facts
pub mod Operations
pub mod Durability
mod Tests
use dewfall.Prelude.{
  ℕ, zero, suc, ◌+◌, ◌-◌, ◌/◌, ◌%◌, ◌^◌, Bool, true, false, not, ◌&&◌, ◌||◌, Option, none, some,
  List, [], ◌∷◌, ◌++◌, ltb, leb, ◌==◌, if◌then◌else◌, length, get_or,
}

-- `blob_residency_state_t`
pub data BlobState : Type 0 where
  local_uploaded remote_uploaded local_spilled remote_spilled : BlobState

-- `blob_residency_entry_t`
pub record Entry : Type 0 where
  pub offset : ℕ
  pub size : ℕ
  pub state : BlobState
  pub durable : Bool
  pub inflight_local_reads : ℕ
  pub marked_generation : ℕ
  pub remote_id : ℕ
  pub lru_prev : ℕ
  pub lru_next : ℕ

pub record BlobResidency : Type 0 where
  pub map : List (ℕ × ℕ)
  pub slab : List Entry
  pub free_slots : List ℕ
  pub lru_head : ℕ
  pub lru_tail : ℕ
  pub resident_bytes : ℕ
  pub cap : ℕ
  pub generation : ℕ

abbrev pub k_invalid_index : ℕ
k_invalid_index = 2 ^ 32 - 1

abbrev pub fresh : Entry
fresh = record {
  offset = 0;
  size = 0;
  state = BlobState.local_uploaded;
  durable = false;
  inflight_local_reads = 0;
  marked_generation = 0;
  remote_id = 0;
  lru_prev = k_invalid_index;
  lru_next = k_invalid_index;
}

-- `_slab[i]`, read and written
abbrev pub at : List Entry → ℕ → Entry
at slab i = get_or slab i fresh

abbrev pub modify : ℕ → (Entry → Entry) → List Entry → List Entry
modify i f [] = []
modify zero f (e ∷ l) = f e ∷ l
modify (suc i) f (e ∷ l) = e ∷ modify i f l

-- `_map.find(offset)`
unfoldable pub lookup : ℕ → List (ℕ × ℕ) → Option ℕ
lookup offset [] = none
lookup offset ((o, idx) ∷ l) = if o == offset then some idx else lookup offset l

-- `_map.erase(it)`
unfoldable pub erase : ℕ → List (ℕ × ℕ) → List (ℕ × ℕ)
erase offset [] = []
erase offset ((o, idx) ∷ l) = if o == offset then l else (o, idx) ∷ erase offset l

abbrev pub on_slab : (List Entry → List Entry) → BlobResidency → BlobResidency
on_slab f t = record t { slab = f t.slab }

unfoldable pub account_freed : BlobResidency → ℕ → BlobResidency
account_freed t bytes = record t {
  resident_bytes =
      t.resident_bytes - (if ltb bytes t.resident_bytes then bytes else t.resident_bytes);
}

unfoldable pub account_alloc : BlobResidency → ℕ → BlobResidency
account_alloc t bytes = record t { resident_bytes = (t.resident_bytes + bytes) % 2 ^ 64 }

unfoldable pub has_local_bytes : Entry → Bool
has_local_bytes e = elim e.state [
  | BlobState.local_uploaded ↦ true
  | BlobState.remote_uploaded ↦ false
  | BlobState.local_spilled ↦ true
  | BlobState.remote_spilled ↦ false
]

-- the first half of `lru_unlink`: the entry in front, or the head
unfoldable pub unlink_next : ℕ → BlobResidency → BlobResidency
unlink_next idx t =
    let e = at t.slab idx in
    if not (e.lru_prev == k_invalid_index)
    then on_slab (modify e.lru_prev (λ p. record p { lru_next = e.lru_next })) t
    else if t.lru_head == idx
    then record t { lru_head = e.lru_next }
    else t

-- the second half: the entry behind, or the tail
unfoldable pub unlink_prev : ℕ → BlobResidency → BlobResidency
unlink_prev idx t =
    let e = at t.slab idx in
    if not (e.lru_next == k_invalid_index)
    then on_slab (modify e.lru_next (λ n. record n { lru_prev = e.lru_prev })) t
    else if t.lru_tail == idx
    then record t { lru_tail = e.lru_prev }
    else t

unfoldable pub lru_unlink : BlobResidency → ℕ → BlobResidency
lru_unlink t idx =
    on_slab (modify idx (λ e. record e { lru_prev = k_invalid_index; lru_next = k_invalid_index }))
      (unlink_prev idx (unlink_next idx t))

-- the end of `lru_push_front`: the new head, and the tail of a list that was empty
unfoldable pub set_head : ℕ → BlobResidency → BlobResidency
set_head idx t = record t {
  lru_head = idx;
  lru_tail = if t.lru_tail == k_invalid_index then idx else t.lru_tail;
}

unfoldable pub lru_push_front : BlobResidency → ℕ → BlobResidency
lru_push_front t idx =
    let t' =
      on_slab (modify idx (λ e. record e { lru_prev = k_invalid_index; lru_next = t.lru_head }))
        t in
    set_head idx (
      if not (t'.lru_head == k_invalid_index)
      then on_slab (modify t'.lru_head (λ e. record e { lru_prev = idx })) t'
      else t')

-- `_free_slots.back()` and `_free_slots.pop_back()`
unfoldable pub pop_slot : List ℕ → Option (ℕ × List ℕ)
pop_slot [] = none
pop_slot (i ∷ []) = some (i, [])
pop_slot (i ∷ j ∷ l) = elim (pop_slot (j ∷ l)) [ none ↦ none | some r ↦ some (r.0, i ∷ r.1) ]

unfoldable pub get_or_create : BlobResidency → ℕ → ℕ → BlobResidency × ℕ
get_or_create t offset size = elim (lookup offset t.map) [
  | some idx ↦ (t, idx)
  | none ↦
      let e : Entry = record fresh { offset = offset; size = size } in
      elim (pop_slot t.free_slots) [
        | some (idx, slots) ↦ (
          record t {
            free_slots = slots;
            slab = modify idx (λ _. e) t.slab;
            map = t.map ++ ((offset, idx) ∷ []);
          },
          idx,
        )
        | none ↦ (
          record t { slab = t.slab ++ (e ∷ []); map = t.map ++ ((offset, length t.slab) ∷ []) },
          length t.slab,
        )
      ]
]
