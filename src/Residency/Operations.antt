-- ===== src/Residency/Operations.antt =====
-- The operations of `blob_residency_t`.
use dewfall.Prelude.{
  ℕ, zero, suc, ◌+◌, ◌-◌, ◌/◌, ◌%◌, ◌^◌, Bool, true, false, not, ◌&&◌, ◌||◌, Option, none, some,
  List, [], ◌∷◌, ◌++◌, ltb, leb, ◌==◌, if◌then◌else◌, length,
}
use dewfall.Residency.{
  BlobState, Entry, BlobResidency, k_invalid_index, fresh, at, modify, lookup, erase, on_slab,
  account_freed, has_local_bytes, lru_unlink, lru_push_front, get_or_create,
}

abbrev pub is_local_uploaded : Entry → Bool
is_local_uploaded e = elim e.state [ BlobState.local_uploaded ↦ true | _ ↦ false ]

abbrev pub is_local_spilled : Entry → Bool
is_local_spilled e = elim e.state [ BlobState.local_spilled ↦ true | _ ↦ false ]

-- the switch of `mark_uploaded`: the new state, and the spilled copy that it replaces
unfoldable pub uploaded_state : Entry → BlobState × ℕ
uploaded_state e = elim e.state [
  | BlobState.local_spilled ↦ (BlobState.local_uploaded, e.remote_id)
  | BlobState.remote_spilled ↦ (BlobState.remote_uploaded, e.remote_id)
  | BlobState.local_uploaded ↦ (BlobState.local_uploaded, 0)
  | BlobState.remote_uploaded ↦ (BlobState.remote_uploaded, 0)
]

unfoldable pub mark_uploaded : BlobResidency → ℕ → ℕ → ℕ → BlobResidency × ℕ
mark_uploaded t offset size remote_id =
    let (t1, idx) = get_or_create t offset size in
    let (state, previous_spill_id) = uploaded_state (at t1.slab idx) in
    let t2 =
      on_slab
        (modify idx (λ e. record e {
          state = state;
          remote_id = remote_id;
          durable = false;
          marked_generation = t1.generation;
        }))
        t1 in
    (
      if is_local_uploaded (at t2.slab idx) then lru_push_front (lru_unlink t2 idx) idx else t2,
      previous_spill_id,
    )

-- the end of `mark_spilled` and `mark_spilled_remote`
unfoldable pub mark_state : BlobState → BlobResidency × ℕ → ℕ → BlobResidency
mark_state state (t, idx) remote_id =
    on_slab
      (modify idx (λ e. record e {
        state = state;
        remote_id = remote_id;
        durable = false;
        marked_generation = t.generation;
      }))
      (lru_unlink t idx)

unfoldable pub mark_spilled : BlobResidency → ℕ → ℕ → ℕ → BlobResidency
mark_spilled t offset size remote_id =
    mark_state BlobState.local_spilled (get_or_create t offset size) remote_id

unfoldable pub mark_spilled_remote : BlobResidency → ℕ → ℕ → ℕ → BlobResidency
mark_spilled_remote t offset size remote_id =
    mark_state BlobState.remote_spilled (get_or_create t offset size) remote_id

-- one round of `commit_durable`
unfoldable pub commit_entry : ℕ → Entry → Entry
commit_entry generation e =
    if not e.durable && leb e.marked_generation generation then record e { durable = true } else e

unfoldable pub commit_slab : ℕ → List (ℕ × ℕ) → List Entry → List Entry
commit_slab generation [] slab = slab
commit_slab generation ((offset, idx) ∷ l) slab =
    commit_slab generation l (modify idx (commit_entry generation) slab)

unfoldable pub commit_durable : BlobResidency → ℕ → BlobResidency
commit_durable t generation_at_serialize = on_slab (commit_slab generation_at_serialize t.map) t

unfoldable pub serialize_generation : BlobResidency → BlobResidency × ℕ
serialize_generation t = (record t { generation = (t.generation + 1) % 2 ^ 32 }, t.generation)

unfoldable pub evict : BlobResidency → ℕ → BlobResidency × Bool
evict t offset = elim (lookup offset t.map) [
  | none ↦ (t, false)
  | some idx ↦
      let e = at t.slab idx in
      if not (is_local_uploaded e) || (not e.durable || not (e.inflight_local_reads == 0))
      then (t, false)
      else (
        account_freed
            (on_slab (modify idx (λ e. record e { state = BlobState.remote_uploaded }))
              (lru_unlink t idx))
            e.size,
        true,
      )
]

unfoldable pub drop_spilled_local : BlobResidency → ℕ → BlobResidency × Bool
drop_spilled_local t offset = elim (lookup offset t.map) [
  | none ↦ (t, false)
  | some idx ↦
      let e = at t.slab idx in
      if not (is_local_spilled e) || (not e.durable || not (e.inflight_local_reads == 0))
      then (t, false)
      else (
        account_freed (on_slab (modify idx (λ e. record e { state = BlobState.remote_spilled })) t)
            e.size,
        true,
      )
]

-- `forgotten_blob_t`
pub record ForgottenBlob : Type 0 where
  pub existed : Bool
  pub punch_local : Bool
  pub spilled : Bool
  pub remote_id : ℕ

unfoldable pub forget : BlobResidency → ℕ → BlobResidency × ForgottenBlob
forget t offset = elim (lookup offset t.map) [
  | none ↦ (t, record { existed = false; punch_local = false; spilled = false; remote_id = 0 })
  | some idx ↦
      let e = at t.slab idx in
      let local = has_local_bytes e in
      let t1 = lru_unlink (if local then account_freed t e.size else t) idx in
      (
        record t1 {
          map = erase offset t1.map;
          slab = modify idx (λ _. fresh) t1.slab;
          free_slots = t1.free_slots ++ (idx ∷ []);
        },
        record {
          existed = true;
          punch_local = local && e.inflight_local_reads == 0;
          spilled = elim e.state [
            | BlobState.local_spilled ↦ true
            | BlobState.remote_spilled ↦ true
            | _ ↦ false
          ];
          remote_id = e.remote_id;
        },
      )
]

unfoldable pub find : BlobResidency → ℕ → Option Entry
find t offset = elim (lookup offset t.map) [ none ↦ none | some idx ↦ some (at t.slab idx) ]

-- `touch`, `begin_local_read` and `end_local_read` of the entry at an index
unfoldable pub touch : BlobResidency → ℕ → BlobResidency
touch t idx =
    if not (is_local_uploaded (at t.slab idx)) then t else lru_push_front (lru_unlink t idx) idx

unfoldable pub begin_local_read : BlobResidency → ℕ → BlobResidency
begin_local_read t idx =
    on_slab
      (modify idx (λ e. record e { inflight_local_reads = (e.inflight_local_reads + 1) % 2 ^ 16 }))
      t

unfoldable pub end_local_read : BlobResidency → ℕ → BlobResidency
end_local_read t idx =
    on_slab (modify idx (λ e. record e { inflight_local_reads = e.inflight_local_reads - 1 })) t

-- The walk of `pick_evict_victim` from the tail: it visits each entry of the slab at most once.
unfoldable pub victim_from : ℕ → List Entry → ℕ → Option ℕ
victim_from zero slab idx = none
victim_from (suc rounds) slab idx =
    let e = at slab idx in
    let rest = victim_from rounds slab e.lru_prev in
    if idx == k_invalid_index
    then none
    else if e.durable && e.inflight_local_reads == 0
    then some idx
    else rest

unfoldable pub pick_evict_victim : BlobResidency → Option ℕ
pick_evict_victim t = victim_from (length t.slab) t.slab t.lru_tail

unfoldable pub over_soft : BlobResidency → Bool
over_soft t = not (t.cap == 0) && ltb (t.cap - t.cap / 8) t.resident_bytes

unfoldable pub over_hard : BlobResidency → ℕ → Bool
over_hard t incoming = not (t.cap == 0) && ltb t.cap ((t.resident_bytes + incoming) % 2 ^ 64)
