-- ===== src/Residency/Facts.antt =====
-- The list of recency changes links only.
use dewfall.Prelude.{
  ℕ, zero, suc, ◌≡◌, ◌⊎◌, refl, ap, ◌∙◌, List, [], ◌∷◌, ◌==◌, Bool-cases, inl, inr,
}
use dewfall.Residency.{
  Entry, BlobResidency, at, modify, k_invalid_index, unlink_next, unlink_prev, lru_unlink,
}

-- an entry without its links
abbrev pub facts : Entry → Entry
facts e = record e { lru_prev = k_invalid_index; lru_next = k_invalid_index }

abbrev pub SameFacts : BlobResidency → BlobResidency → Type 0
SameFacts t t' = (j : ℕ) → facts (at t'.slab j) ≡ facts (at t.slab j)

facts-modify :
    (i : ℕ) (f : Entry → Entry) (l : List Entry) (j : ℕ)
    → ((e : Entry) → facts (f e) ≡ facts e)
    → facts (at (modify i f l) j) ≡ facts (at l j)
facts-modify i f [] j h = refl
facts-modify zero f (e ∷ l) zero h = h e
facts-modify zero f (e ∷ l) (suc j) h = refl
facts-modify (suc i) f (e ∷ l) zero h = refl
facts-modify (suc i) f (e ∷ l) (suc j) h = facts-modify i f l j h

pub modify_cases :
    (i : ℕ) (f : Entry → Entry) (l : List Entry) (j : ℕ)
    → (at (modify i f l) j ≡ at l j) ⊎ ((i ≡ j) × (at (modify i f l) j ≡ f (at l j)))
modify_cases i f [] j = inl refl
modify_cases zero f (e ∷ l) zero = inr (refl, refl)
modify_cases zero f (e ∷ l) (suc j) = inl refl
modify_cases (suc i) f (e ∷ l) zero = inl refl
modify_cases (suc i) f (e ∷ l) (suc j) = elim (modify_cases i f l j) [
  | inl e' ↦ inl e'
  | inr (same, e') ↦ inr (ap suc same, e')
]

facts-unlink_next : (idx : ℕ) (t : BlobResidency) → SameFacts t (unlink_next idx t)
unfolding unlink_next
facts-unlink_next idx t j = elim (Bool-cases ((at t.slab idx).lru_prev == k_invalid_index)) [
  | inr e ↦ rw e (facts-modify (at t.slab idx).lru_prev _ t.slab j (λ e. refl))
  | inl e ↦ elim (Bool-cases (t.lru_head == idx)) [
    | inl f ↦ rw e (rw f refl)
    | inr f ↦ rw e (rw f refl)
  ]
]

facts-unlink_prev : (idx : ℕ) (t : BlobResidency) → SameFacts t (unlink_prev idx t)
unfolding unlink_prev
facts-unlink_prev idx t j = elim (Bool-cases ((at t.slab idx).lru_next == k_invalid_index)) [
  | inr e ↦ rw e (facts-modify (at t.slab idx).lru_next _ t.slab j (λ e. refl))
  | inl e ↦ elim (Bool-cases (t.lru_tail == idx)) [
    | inl f ↦ rw e (rw f refl)
    | inr f ↦ rw e (rw f refl)
  ]
]

pub facts-lru_unlink : (t : BlobResidency) (idx : ℕ) → SameFacts t (lru_unlink t idx)
unfolding lru_unlink
facts-lru_unlink t idx j =
    let t1 = unlink_next idx t in
    facts-modify idx (λ e. record e { lru_prev = k_invalid_index; lru_next = k_invalid_index })
      (unlink_prev idx t1).slab j (λ e. refl)
    ∙ (facts-unlink_prev idx t1 j ∙ facts-unlink_next idx t j)
