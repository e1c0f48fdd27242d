-- ===== src/Preprocess/Channels/Colour.antt =====
-- An element of three channels as one number of six bytes, and the inverse of the decorrelation.
use dewfall.Prelude.{
  ℕ, ◌+◌, ◌-◌, ◌*◌, ◌/◌, ◌%◌, ◌^◌, ◌≤◌, ◌<◌, ◌≡◌, inl, inr, List, arith, length, for_below,
  for_below-for_below, ap, ◌∙◌, sym,
}
use dewfall.Bytes.{
  AllBytes, load, store, load-lt, load_split, store_split, length-store, store-AllBytes,
  load-store_self, store-store_self, store-load,
}
use dewfall.Preprocess.Differences.{IsBuffer, modify_comm}
use dewfall.Preprocess.Channels.{
  decorrelate_element, correlate_element, decorrelate_u16x3, correlate_u16x3,
}

abbrev word : ℕ → ℕ
word x = x % 2 ^ 16

-- what one round makes of the number
abbrev decorrelated : ℕ → ℕ
decorrelated v =
    let r = word v in
    let g = word (v / 2 ^ 16) in
    let b = v / 2 ^ 32 in g + 2 ^ 16 * word (r + 2 ^ 16 - g) + 2 ^ 32 * word (b + 2 ^ 16 - g)

abbrev correlated : ℕ → ℕ
correlated v =
    let g = word v in
    let dr = word (v / 2 ^ 16) in
    let db = v / 2 ^ 32 in word (dr + g) + 2 ^ 16 * g + 2 ^ 32 * word (db + g)

module _ (buf : List ℕ) (e : ℕ) where
  load_channels :
      load 6 buf e ≡ load 2 buf e + 2 ^ 16 * load 2 buf (e + 2) + 2 ^ 32 * load 2 buf (e + 4)
  load_channels = omega (arith, load_split 4 2 buf e, load_split 2 2 buf e)

  store_channels :
      (x y z v : ℕ)
      → x < 2 ^ 16
      → y < 2 ^ 16
      → x + 2 ^ 16 * y + 2 ^ 32 * z ≡ v
      → store 2 (store 2 (store 2 buf e x) (e + 2) y) (e + 4) z ≡ store 6 buf e v
  store_channels x y z v h h' eq =
      ap (λ s. store 2 s (e + 4) z) (sym (store_split 2 2 buf e x y h))
      ∙ sym (store_split 4 2 buf e (x + 2 ^ 16 * y) z (omega arith))
      ∙ ap (store 6 buf e) eq

  module _ (ok : AllBytes buf) where
    decorrelate_element-decorrelated :
        decorrelate_element buf e ≡ store 6 buf e (decorrelated (load 6 buf e))
    unfolding decorrelate_element
    decorrelate_element-decorrelated =
        store_channels _ _ _ _ (load-lt 2 buf (e + 2) ok) (omega arith) (
          omega (
            arith,
            load_channels,
            load-lt 2 buf e ok,
            load-lt 2 buf (e + 2) ok,
            load-lt 2 buf (e + 4) ok,
          ))

    correlate_element-correlated :
        correlate_element buf e ≡ store 6 buf e (correlated (load 6 buf e))
    unfolding correlate_element
    correlate_element-correlated = store_channels _ _ _ _ (omega arith) (load-lt 2 buf e ok) (
        omega (
          arith,
          load_channels,
          load-lt 2 buf e ok,
          load-lt 2 buf (e + 2) ok,
          load-lt 2 buf (e + 4) ok,
        ))

correlated-decorrelated : (v : ℕ) → v < 2 ^ 48 → correlated (decorrelated v) ≡ v
correlated-decorrelated v h = omega arith

decorrelated-correlated : (v : ℕ) → v < 2 ^ 48 → decorrelated (correlated v) ≡ v
decorrelated-correlated v h = omega arith

decorrelated-lt : (v : ℕ) → v < 2 ^ 48 → decorrelated v < 2 ^ 48
decorrelated-lt v h = omega arith

correlated-lt : (v : ℕ) → v < 2 ^ 48 → correlated v < 2 ^ 48
correlated-lt v h = omega arith

-- A round that changes one element of six bytes by a function of its number.
abbrev put : (ℕ → ℕ) → List ℕ → ℕ → List ℕ
put F s e = store 6 s e (F (load 6 s e))

abbrev IsRound : (List ℕ → ℕ → List ℕ) → (ℕ → ℕ) → Type 0
IsRound f F = (s : List ℕ) (e : ℕ) → AllBytes s → f s e ≡ put F s e

module _ (f g : List ℕ → ℕ → List ℕ) (F G : ℕ → ℕ) (round_f : IsRound f F) (round_g : IsRound g G)
    (fits : (v : ℕ) → v < 2 ^ 48 → F v < 2 ^ 48) (back : (v : ℕ) → v < 2 ^ 48 → G (F v) ≡ v)
    (size : ℕ) where
  keep :
      (h : List ℕ → ℕ → List ℕ) (H : ℕ → ℕ)
      → IsRound h H
      → (i : ℕ) (s : List ℕ) → i < size / 6
      → IsBuffer size s
      → IsBuffer size (h s (i * 6))
  keep h H round i s lt p = rw (round s (i * 6) p.0) (
    store-AllBytes 6 s _ _ p.0,
    omega (arith, p.1, length-store 6 s (i * 6) (H (load 6 s (i * 6)))),
  )

  round_undone : (i : ℕ) (s : List ℕ) → i < size / 6 → IsBuffer size s → g (f s (i * 6)) (i * 6) ≡ s
  round_undone i s lt p =
      let v = load 6 s (i * 6) in
      let low : v < 2 ^ 48 = load-lt 6 s (i * 6) p.0 in
      round_g (f s (i * 6)) (i * 6) (keep f F round_f i s lt p).0
      ∙ rw
          (
            round_f s (i * 6) p.0,
            load-store_self 6 s (i * 6) (F v) (omega (arith, p.1)) (fits v low),
            back v low,
          )
          (store-store_self 6 s (i * 6) _ _ ∙ store-load 6 s (i * 6) p.0)

  rounds_commute :
      (j i : ℕ) (s : List ℕ)
      → j < i
      → i < size / 6
      → IsBuffer size s
      → g (f s (i * 6)) (j * 6) ≡ f (g s (j * 6)) (i * 6)
  rounds_commute j i s lt lt' p =
      let both : put G (put F s (i * 6)) (j * 6) ≡ put F (put G s (j * 6)) (i * 6) =
        modify_comm 6 (λ x _. G x) (λ x _. F x) s (j * 6) (j * 6) (i * 6) (i * 6)
          (inl (omega arith)) (inl (omega arith)) (inr (omega arith)) in
      let one : f (g s (j * 6)) (i * 6) ≡ put F (put G s (j * 6)) (i * 6) =
        round_f (g s (j * 6)) (i * 6) (keep g G round_g j s (omega arith) p).0
        ∙ ap (λ t. put F t (i * 6)) (round_g s (j * 6) p.0) in
      round_g (f s (i * 6)) (j * 6) (keep f F round_f i s lt' p).0
      ∙ ap (λ t. put G t (j * 6)) (round_f s (i * 6) p.0)
      ∙ both
      ∙ sym one

  rounds_undone :
      (buf : List ℕ)
      → IsBuffer size buf
      → for_below (size / 6) (λ i s. g s (i * 6)) (for_below (size / 6) (λ i s. f s (i * 6)) buf)
        ≡ buf
  rounds_undone buf ok =
      for_below-for_below (IsBuffer size) (λ i s. f s (i * 6)) (λ i s. g s (i * 6)) (size / 6)
        (keep f F round_f) (keep g G round_g) round_undone rounds_commute (size / 6) buf
        (omega arith) ok

-- `correlate_u16x3` undoes `decorrelate_u16x3`, and the other way round, on every buffer.
pub correlate_u16x3-decorrelate_u16x3 :
    (buf : List ℕ) (size : ℕ)
    → AllBytes buf
    → size ≤ length buf
    → (correlate_u16x3 (decorrelate_u16x3 buf size) size ≡ buf)
      × (decorrelate_u16x3 (correlate_u16x3 buf size) size ≡ buf)
unfolding correlate_u16x3 decorrelate_u16x3
correlate_u16x3-decorrelate_u16x3 buf size ok fits = (
  rounds_undone decorrelate_element correlate_element decorrelated correlated
      decorrelate_element-decorrelated correlate_element-correlated decorrelated-lt
      correlated-decorrelated size buf (ok, fits),
  rounds_undone correlate_element decorrelate_element correlated decorrelated
      correlate_element-correlated decorrelate_element-decorrelated correlated-lt
      decorrelated-correlated size buf (ok, fits),
)
