-- ===== src/Residency/Tests.antt =====
-- A run, and the theorems at inputs that meet their hypotheses.
use dewfall.Prelude.{◌≡◌, refl, true, false, some, [], ◌∷◌, arith}
use dewfall.Residency.{BlobResidency, fresh, at, lookup}
use dewfall.Residency.Operations.{
  commit_durable, commit_slab, commit_entry, evict, drop_spilled_local,
}
use dewfall.Residency.Durability.{Kept, evict-drop_Kept, Committed, commit_durable_lem}

abbrev one_blob : BlobResidency
one_blob = record {
  map = (4096, 0) ∷ [];
  slab = record fresh { offset = 4096; size = 100; marked_generation = 1; remote_id = 9 } ∷ [];
  free_slots = [];
  lru_head = 0;
  lru_tail = 0;
  resident_bytes = 100;
  cap = 0;
  generation = 2;
}

evict_waits : (evict one_blob 4096).1 ≡ false
unfolding evict lookup
evict_waits = refl

evict_runs : (evict (commit_durable one_blob 1) 4096).1 ≡ true
unfolding evict lookup commit_durable commit_slab commit_entry
evict_runs = refl

evict-drop_Kept_example :
    Kept (at one_blob.slab 0) (at (evict one_blob 4096).0.slab 0)
    × Kept (at one_blob.slab 0) (at (drop_spilled_local one_blob 4096).0.slab 0)
evict-drop_Kept_example = evict-drop_Kept one_blob 4096 0

known : lookup 4096 one_blob.map ≡ some 0
unfolding lookup
known = refl

commit_durable_lem_example :
    Committed 1 (at one_blob.slab 0) (at (commit_durable one_blob 1).slab 0)
    × ((at (commit_durable one_blob 1).slab 0).durable ≡ true)
commit_durable_lem_example =
    commit_durable_lem one_blob 1 4096 0 0 known (omega arith) (omega arith)
