-- ===== src/Preprocess/Agree.antt =====
-- The morton delta of elements of 4 or 8 bytes is undone as the delta of single integers is.
use dewfall.Prelude.{
  ℕ, ◌-◌, ◌*◌, ◌/◌, ◌≡◌, refl, inl, inr, true, ◌||◌, some, List, ltb, leb, ◌==◌, arith, ap,
  Bool-cases, for_up, for_up_agree,
}
use dewfall.Bytes.{AllBytes}
use dewfall.Preprocess.Differences.{add_at-AllBytes}
use dewfall.Preprocess.Words.{MortonOps, get_morton_ops}
use dewfall.Preprocess.WordLaws.{get_morton_ops-IsWide}
use dewfall.Preprocess.MortonDelta.{decode_round, delta_decode_morton}
use dewfall.Preprocess.MortonDelta.RoundTrip.{some_element}
use dewfall.Preprocess.Single.{has_case, decode_element, delta_decode_single}

rounds_agree :
    (w n : ℕ) (ops : MortonOps) (buf : List ℕ)
    → get_morton_ops w ≡ some ops
    → AllBytes buf
    → for_up n (decode_round ops w) buf ≡ for_up n (decode_element w) buf
unfolding decode_round
rounds_agree w n ops buf found ok =
    for_up_agree AllBytes (decode_round ops w) (decode_element w)
      (λ i s p. add_at-AllBytes w s (i * w) ((i - 1) * w) p)
      (λ i s p. (get_morton_ops-IsWide w ops found).add_wide s (i * w) ((i - 1) * w) p) n buf ok

-- `delta_decode_morton` and `delta_decode_single` agree on every buffer of bytes, at the element
-- sizes that both know.
pub delta_decode_morton-delta_decode_single :
    (buf : List ℕ) (size w : ℕ) (ops : MortonOps)
    → has_case w ≡ true
    → get_morton_ops w ≡ some ops
    → AllBytes buf
    → delta_decode_morton buf size w ≡ delta_decode_single buf size w
unfolding delta_decode_morton delta_decode_single for_up
delta_decode_morton-delta_decode_single buf size w ops known found ok =
    elim (Bool-cases (w == 0 || ltb size w)) [
      | inl short ↦
          let none_left : leb (size / w) 1 ≡ true = grind arith in rw short (rw none_left refl)
      | inr long ↦ elim (Bool-cases (leb (size / w) 1)) [
        | inl one ↦
            let first : size / w - 1 ≡ 0 = ground (arith, some_element size w long) in
            rw long (rw found (rw one (ap (λ k. for_up k (decode_round ops w) buf) first)))
        | inr many ↦
            rw long (rw found (rw many (rw known (rounds_agree w (size / w - 1) ops buf found ok))))
      ]
    ]
