-- ===== src/Residency/Durability.antt =====
-- A blob gives up its local bytes only where a committed checkpoint knows the remote copy.
use dewfall.Prelude.{
  ℕ, zero, suc, ◌≤◌, ◌<◌, ◌≡◌, length, ◌⊎◌, refl, sym, ap, ◌∙◌, Bool, true, false, not, ◌&&◌, ◌||◌,
  some, List, [], ◌∷◌, leb, ◌==◌, Bool-cases, Option-cases, inl, inr, subst, arith,
}
use dewfall.Residency.{
  BlobState, Entry, BlobResidency, fresh, at, modify, lookup, account_freed, has_local_bytes,
  lru_unlink,
}
use dewfall.Residency.Facts.{facts, SameFacts, modify_cases, facts-lru_unlink}
use dewfall.Residency.Operations.{
  is_local_uploaded, is_local_spilled, evict, drop_spilled_local, commit_entry, commit_slab,
  commit_durable,
}

-- the state of the same copy, without local bytes
abbrev pub remote_of : BlobState → BlobState
remote_of BlobState.local_uploaded = BlobState.remote_uploaded
remote_of BlobState.remote_uploaded = BlobState.remote_uploaded
remote_of BlobState.local_spilled = BlobState.remote_spilled
remote_of BlobState.remote_spilled = BlobState.remote_spilled

-- An entry is as it was, or has given up its local bytes while its remote copy is durable and nobody
-- reads them.
abbrev pub Kept : Entry → Entry → Type 0
Kept e e' =
    (facts e' ≡ facts e)
    ⊎ ((has_local_bytes e ≡ true)
        × (e.durable ≡ true)
        × (e.inflight_local_reads ≡ 0)
        × (facts e' ≡ facts (record e { state = remote_of e.state })))

abbrev Ready : BlobState → BlobState → Bool → ℕ → Type 0
Ready s target d n =
    (has_local_bytes (record fresh { state = s }) ≡ true)
    × (d ≡ true)
    × (n ≡ 0)
    × (target ≡ remote_of s)

guard : (d : Bool) (n : ℕ) → (not d || not (n == 0)) ≡ false → (d ≡ true) × (n ≡ 0)
guard true n h = (refl, ground arith)
guard false n h = absurd (ground arith)

uploaded_guard :
    (s : BlobState) (d : Bool) (n : ℕ)
    → (not (is_local_uploaded (record fresh { state = s })) || (not d || not (n == 0))) ≡ false
    → Ready s BlobState.remote_uploaded d n
unfolding has_local_bytes
uploaded_guard BlobState.local_uploaded d n h = let (k, l) = guard d n h in (refl, k, l, refl)
uploaded_guard BlobState.remote_uploaded d n h = absurd (ground arith)
uploaded_guard BlobState.local_spilled d n h = absurd (ground arith)
uploaded_guard BlobState.remote_spilled d n h = absurd (ground arith)

spilled_guard :
    (s : BlobState) (d : Bool) (n : ℕ)
    → (not (is_local_spilled (record fresh { state = s })) || (not d || not (n == 0))) ≡ false
    → Ready s BlobState.remote_spilled d n
unfolding has_local_bytes
spilled_guard BlobState.local_spilled d n h = let (k, l) = guard d n h in (refl, k, l, refl)
spilled_guard BlobState.remote_uploaded d n h = absurd (ground arith)
spilled_guard BlobState.local_uploaded d n h = absurd (ground arith)
spilled_guard BlobState.remote_spilled d n h = absurd (ground arith)

-- An entry that is given the remote state, after changes of links.
given_up :
    (t t' : BlobResidency) (idx j : ℕ) (target : BlobState)
    → SameFacts t t'
    → Ready
        (at t.slab idx).state
        target
        (at t.slab idx).durable
        (at t.slab idx).inflight_local_reads
    → Kept (at t.slab j) (at (modify idx (λ e. record e { state = target }) t'.slab) j)
unfolding has_local_bytes
given_up t t' idx j target same (local, durable, reads, e) =
    elim (modify_cases idx (λ e. record e { state = target }) t'.slab j) [
      | inl f ↦ inl (ap facts f ∙ same j)
      | inr (here, f) ↦
          let on_facts = λ (x : Entry). facts (record x { state = target }) in
          let moved : facts (at (modify idx (λ e. record e { state = target }) t'.slab) j)
              ≡ facts (record (at t.slab j) { state = target }) =
            ap facts f ∙ ap on_facts (same j) in
          let at_j = λ (i : ℕ).
            Ready (at t.slab i).state target (at t.slab i).durable
              (at t.slab i).inflight_local_reads in
          let (local', durable', reads', e') = subst at_j here (local, durable, reads, e) in
          inr (
            local',
            durable',
            reads',
            moved ∙ ap (λ s. facts (record (at t.slab j) { state = s })) e',
          )
    ]

evict-Kept : (t : BlobResidency) (offset j : ℕ) → Kept (at t.slab j) (at (evict t offset).0.slab j)
unfolding evict account_freed
evict-Kept t offset j = elim (Option-cases (lookup offset t.map)) [
  | inl e ↦ rw (e, evict) (inl refl)
  | inr (idx, e) ↦
      let x = at t.slab idx in
      elim (Bool-cases
        (not (is_local_uploaded x) || (not x.durable || not (x.inflight_local_reads == 0)))) [
          | inl g ↦ rw (e, evict) (rw g (inl refl))
          | inr g ↦
              rw (e, evict)
                (rw g (
                  given_up t (lru_unlink t idx) idx j BlobState.remote_uploaded
                    (facts-lru_unlink t idx)
                    (uploaded_guard x.state x.durable x.inflight_local_reads g)))
        ]
]

drop-Kept :
    (t : BlobResidency) (offset j : ℕ)
    → Kept (at t.slab j) (at (drop_spilled_local t offset).0.slab j)
unfolding drop_spilled_local account_freed
drop-Kept t offset j = elim (Option-cases (lookup offset t.map)) [
  | inl e ↦ rw (e, drop_spilled_local) (inl refl)
  | inr (idx, e) ↦
      let x = at t.slab idx in
      elim (Bool-cases
        (not (is_local_spilled x) || (not x.durable || not (x.inflight_local_reads == 0)))) [
          | inl g ↦ rw (e, drop_spilled_local) (rw g (inl refl))
          | inr g ↦
              rw (e, drop_spilled_local)
                (rw g (
                  given_up t t idx j BlobState.remote_spilled (λ i. refl)
                    (spilled_guard x.state x.durable x.inflight_local_reads g)))
        ]
]

-- `evict` and `drop_spilled_local`, of any offset, leave every entry of the slab as it was, links of
-- recency aside, or take away the local bytes of one whose remote copy is durable and that has no
-- read in flight, and which keeps that copy and all its other data.
pub evict-drop_Kept :
    (t : BlobResidency) (offset j : ℕ)
    → Kept (at t.slab j) (at (evict t offset).0.slab j)
      × Kept (at t.slab j) (at (drop_spilled_local t offset).0.slab j)
evict-drop_Kept t offset j = (evict-Kept t offset j, drop-Kept t offset j)

-- An entry is as it was, or its remote copy, marked in a generation of the checkpoint, is durable now.
abbrev pub Committed : ℕ → Entry → Entry → Type 0
Committed generation e e' =
    (e' ≡ e) ⊎ ((e.marked_generation ≤ generation) × (e' ≡ record e { durable = true }))

commit_entry-Committed : (g : ℕ) (e : Entry) → Committed g e (commit_entry g e)
unfolding commit_entry
commit_entry-Committed g e = elim (Bool-cases (not e.durable && leb e.marked_generation g)) [
  | inl h ↦ rw h (inr (ground arith, refl))
  | inr h ↦ rw h (inl refl)
]

trans-Committed : (g : ℕ) (a b c : Entry) → Committed g a b → Committed g b c → Committed g a c
trans-Committed g a b c (inl e) k = subst (λ x. Committed g x c) e k
trans-Committed g a b c (inr h) (inl f) = subst (Committed g a) (sym f) (inr h)
trans-Committed g a b c (inr (l, e)) (inr (k, f)) =
    let to_durable : Entry → Entry = λ x. record x { durable = true } in
    inr (l, f ∙ ap to_durable e)

modify-Committed :
    (g idx : ℕ) (slab : List Entry) (j : ℕ)
    → Committed g (at slab j) (at (modify idx (commit_entry g) slab) j)
modify-Committed g idx slab j = elim (modify_cases idx (commit_entry g) slab j) [
  | inl e ↦ inl e
  | inr (here, e) ↦ subst (Committed g (at slab j)) (sym e) (commit_entry-Committed g (at slab j))
]

commit_slab-Committed :
    (g : ℕ) (l : List (ℕ × ℕ)) (slab : List Entry) (j : ℕ)
    → Committed g (at slab j) (at (commit_slab g l slab) j)
unfolding commit_slab
commit_slab-Committed g [] slab j = inl refl
commit_slab-Committed g ((o, idx) ∷ l) slab j =
    trans-Committed g (at slab j) (at (modify idx (commit_entry g) slab) j) _
      (modify-Committed g idx slab j)
      (commit_slab-Committed g l (modify idx (commit_entry g) slab) j)

durable_kept : (g : ℕ) (a b : Entry) → Committed g a b → a.durable ≡ true → b.durable ≡ true
durable_kept g a b (inl e) h = ap (λ (x : Entry). x.durable) e ∙ h
durable_kept g a b (inr (l, e)) h = ap (λ (x : Entry). x.durable) e

marked_kept : (g : ℕ) (a b : Entry) → Committed g a b → b.marked_generation ≡ a.marked_generation
marked_kept g a b (inl e) = ap (λ (x : Entry). x.marked_generation) e
marked_kept g a b (inr (l, e)) = ap (λ (x : Entry). x.marked_generation) e

length-modify : (i : ℕ) (f : Entry → Entry) (l : List Entry) → length (modify i f l) ≡ length l
length-modify i f [] = refl
length-modify zero f (e ∷ l) = refl
length-modify (suc i) f (e ∷ l) = ap suc (length-modify i f l)

at-modify :
    (i : ℕ) (f : Entry → Entry) (l : List Entry) → i < length l → at (modify i f l) i ≡ f (at l i)
at-modify i f [] h = absurd (omega arith)
at-modify zero f (e ∷ l) h = refl
at-modify (suc i) f (e ∷ l) h = at-modify i f l (omega arith)

commit_entry_durable :
    (g : ℕ) (e : Entry) → e.marked_generation ≤ g → (commit_entry g e).durable ≡ true
unfolding commit_entry
commit_entry_durable g e h = ground arith

commit_slab_durable :
    (g : ℕ) (l : List (ℕ × ℕ)) (slab : List Entry) (offset idx : ℕ)
    → lookup offset l ≡ some idx
    → idx < length slab
    → (at slab idx).marked_generation ≤ g
    → (at (commit_slab g l slab) idx).durable ≡ true
unfolding commit_slab lookup
commit_slab_durable g [] slab offset idx e h k = absurd (cc)
commit_slab_durable g ((o, i) ∷ l) slab offset idx e h k =
    let slab' = modify i (commit_entry g) slab in
    elim (Bool-cases (o == offset)) [
      | inl f ↦
          let here : i ≡ idx = ground arith in
          let now : (at slab' idx).durable ≡ true =
            ap (λ n. (at (modify n (commit_entry g) slab) idx).durable) here
            ∙ (ap (λ (x : Entry). x.durable) (at-modify idx (commit_entry g) slab h)
                ∙ commit_entry_durable g (at slab idx) k) in
          durable_kept g (at slab' idx) _ (commit_slab-Committed g l slab' idx) now
      | inr f ↦
          let later : lookup offset l ≡ some idx = ground arith in
          commit_slab_durable g l slab' offset idx later
            (omega (arith, length-modify i (commit_entry g) slab))
            (omega
              (arith, marked_kept g (at slab idx) (at slab' idx) (modify-Committed g i slab idx)))
    ]

-- `commit_durable` changes an entry of the slab in nothing but that a remote copy marked up to the
-- generation of the checkpoint is durable; and that copy of every blob in the map, whose index lies
-- in the slab, is durable then.
pub commit_durable_lem :
    (t : BlobResidency) (generation offset idx j : ℕ)
    → lookup offset t.map ≡ some idx
    → idx < length t.slab
    → (at t.slab idx).marked_generation ≤ generation
    → Committed generation (at t.slab j) (at (commit_durable t generation).slab j)
      × ((at (commit_durable t generation).slab idx).durable ≡ true)
unfolding commit_durable
commit_durable_lem t g offset idx j e h k =
    (commit_slab-Committed g t.map t.slab j, commit_slab_durable g t.map t.slab offset idx e h k)
