-- ===== src/Prelude/Loops.antt =====
-- Counted loops whose rounds read the state that the earlier rounds left.
use Prim.Native.Nat.{ℕ, zero, suc, ◌+◌, ◌*◌, ◌/◌, ◌≤◌, ◌<◌}
use mathlib.Core.Path.{◌≡◌, refl, ap, ◌∙◌}
use native.Mathlib.Omega.{arith}

module _ {ℓ} {S : Type ℓ} where
  -- for (i = n; i > 0; i--) s = body(i, s)
  unfoldable pub for_down : ℕ → (ℕ → S → S) → S → S
  for_down zero body s = s
  for_down (suc i) body s = for_down i body (body (suc i) s)

  -- for (i = 1; i <= n; i++) s = body(i, s): the round n is the last
  unfoldable pub for_up : ℕ → (ℕ → S → S) → S → S
  for_up zero body s = s
  for_up (suc i) body s = body (suc i) (for_up i body s)

  -- for (i = 0; i < n; i++) s = body(i, s)
  unfoldable pub for_below : ℕ → (ℕ → S → S) → S → S
  for_below zero body s = s
  for_below (suc i) body s = body i (for_below i body s)

module _ {ℓ κ} {S : Type ℓ} (P : S → Type κ) (body : ℕ → S → S) (n : ℕ)
    (keep : (i : ℕ) (s : S) → i ≤ n → P s → P (body i s)) where
  pub for_down_inv : (i : ℕ) (s : S) → i ≤ n → P s → P (for_down i body s)
  unfolding for_down
  for_down_inv zero s h p = p
  for_down_inv (suc i) s h p = for_down_inv i (body (suc i) s) (omega arith) (keep (suc i) s h p)

  pub for_up_inv : (i : ℕ) (s : S) → i ≤ n → P s → P (for_up i body s)
  unfolding for_up
  for_up_inv zero s h p = p
  for_up_inv (suc i) s h p = keep (suc i) _ h (for_up_inv i s (omega arith) p)

-- A loop upwards whose rounds undo those of a loop downwards undoes the loop, and vice versa.
module _ {ℓ κ} {S : Type ℓ} (P : S → Type κ) (enc dec : ℕ → S → S) (n : ℕ) where
  pub for_up-for_down :
      ((i : ℕ) (s : S) → i ≤ n → P s → P (enc i s))
      → ((i : ℕ) (s : S) → suc i ≤ n → P s → dec (suc i) (enc (suc i) s) ≡ s)
      → (i : ℕ) (s : S) → i ≤ n
      → P s
      → for_up i dec (for_down i enc s) ≡ s
  unfolding for_up for_down
  for_up-for_down keep undo zero s h p = refl
  for_up-for_down keep undo (suc i) s h p =
      ap (dec (suc i))
        (for_up-for_down keep undo i (enc (suc i) s) (omega arith) (keep (suc i) s h p))
      ∙ undo i s h p

  pub for_down-for_up :
      ((i : ℕ) (s : S) → i ≤ n → P s → P (dec i s))
      → ((i : ℕ) (s : S) → suc i ≤ n → P s → enc (suc i) (dec (suc i) s) ≡ s)
      → (i : ℕ) (s : S) → i ≤ n
      → P s
      → for_down i enc (for_up i dec s) ≡ s
  unfolding for_up for_down
  for_down-for_up keep undo zero s h p = refl
  for_down-for_up keep undo (suc i) s h p =
      ap (for_down i enc) (undo i (for_up i dec s) h (for_up_inv P dec n keep i s (omega arith) p))
      ∙ for_down-for_up keep undo i s (omega arith) p

-- Two loops upwards, where the second undoes the first round by round and its rounds commute with
-- the other rounds of the first.
module _ {ℓ κ} {S : Type ℓ} (P : S → Type κ) (enc dec : ℕ → S → S) (n : ℕ)
    (keep : (i : ℕ) (s : S) → i < n → P s → P (enc i s))
    (keep' : (i : ℕ) (s : S) → i < n → P s → P (dec i s))
    (undo : (i : ℕ) (s : S) → i < n → P s → dec i (enc i s) ≡ s)
    (comm : (j i : ℕ) (s : S) → j < i → i < n → P s → dec j (enc i s) ≡ enc i (dec j s)) where
  pub for_below_inv : (i : ℕ) (s : S) → i ≤ n → P s → P (for_below i enc s)
  unfolding for_below
  for_below_inv zero s h p = p
  for_below_inv (suc i) s h p = keep i _ h (for_below_inv i s (omega arith) p)

  below_inv' : (i : ℕ) (s : S) → i ≤ n → P s → P (for_below i dec s)
  unfolding for_below
  below_inv' zero s h p = p
  below_inv' (suc i) s h p = keep' i _ h (below_inv' i s (omega arith) p)

  pass :
      (j i : ℕ) (s : S)
      → j ≤ i
      → i < n
      → P s
      → for_below j dec (enc i s) ≡ enc i (for_below j dec s)
  unfolding for_below
  pass zero i s h k p = refl
  pass (suc j) i s h k p =
      ap (dec j) (pass j i s (omega arith) k p) ∙ comm j i _ h k (below_inv' j s (omega arith) p)

  pub for_below-for_below : (i : ℕ) (s : S) → i ≤ n → P s → for_below i dec (for_below i enc s) ≡ s
  unfolding for_below
  for_below-for_below zero s h p = refl
  for_below-for_below (suc i) s h p =
      let t = for_below i enc s in
      let q : P t = for_below_inv i s (omega arith) p in
      ap (dec i) (pass i i t (omega arith) h q)
      ∙ undo i _ h (below_inv' i t (omega arith) q)
      ∙ for_below-for_below i s (omega arith) p

-- The element `i` of a block of `size / w` elements lies inside the block.
pub element_fits : (i size w : ℕ) → i < size / w → i * w + w ≤ size
element_fits i size w h = grind arith

-- Elements do not overlap.
pub element_before : (i j w : ℕ) → i < j → i * w + w ≤ j * w
element_before i j w h = grind arith

-- An invariant that counts the rounds.
pub for_below_ind {ℓ κ} :
    {S : Type ℓ} (P : ℕ → S → Type κ) (body : ℕ → S → S) (n : ℕ)
    → ((i : ℕ) (s : S) → i < n → P i s → P (suc i) (body i s))
    → (k : ℕ) (s : S) → k ≤ n
    → P 0 s
    → P k (for_below k body s)
unfolding for_below
for_below_ind P body n keep zero s h p = p
for_below_ind P body n keep (suc k) s h p =
    keep k (for_below k body s) h (for_below_ind P body n keep k s (omega arith) p)

-- Two loops whose rounds agree on the states that they reach.
pub for_up_agree {ℓ κ} :
    {S : Type ℓ} (P : S → Type κ) (f g : ℕ → S → S)
    → ((i : ℕ) (s : S) → P s → P (g i s))
    → ((i : ℕ) (s : S) → P s → f i s ≡ g i s)
    → (n : ℕ) (s : S) → P s
    → for_up n f s ≡ for_up n g s
unfolding for_up
for_up_agree P f g keep same zero s p = refl
for_up_agree P f g keep same (suc n) s p =
    ap (f (suc n)) (for_up_agree P f g keep same n s p)
    ∙ same (suc n) (for_up n g s) (for_up_inv P g n (λ i t h q. keep i t q) n s (omega arith) p)
