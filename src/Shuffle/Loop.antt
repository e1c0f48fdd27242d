-- ===== src/Shuffle/Loop.antt =====
-- What the three nested loops leave at an index.
use dewfall.Prelude.{
  ap, ℕ, ◌+◌, ◌*◌, ◌<◌, ◌≡◌, ◌≢◌, refl, List, length, set, length-set, byte_at, byte_at-set, arith,
  for_below, length-for_below, for_below_frame, for_below_hit, ◌==◌, element_before, inl, inr,
  Bool-cases, ltb,
}
use dewfall.Shuffle.{move_bytes}

-- A number has one quotient and one remainder.
pub split_unique :
    (a a' n i i' : ℕ) → i < n → i' < n → a * n + i ≡ a' * n + i' → (a ≡ a') × (i ≡ i')
split_unique a a' n i i' h h' e = elim (Bool-cases (ltb a a')) [
  | inl less ↦ absurd (omega (arith, element_before a a' n (ground arith)))
  | inr not_less ↦ elim (Bool-cases (a == a')) [
    | inl same ↦ let e' : a ≡ a' = ground arith in (e', omega (arith, ap (λ (t : ℕ). t * n) e'))
    | inr other ↦ absurd (omega (arith, element_before a' a n (ground arith)))
  ]
]

module _ (n cc ts : ℕ) (to from : ℕ → ℕ → ℕ → ℕ) (src : List ℕ) where
  inner : ℕ → ℕ → ℕ → List ℕ → List ℕ
  inner i c b buf = set buf (to i c b) (byte_at src (from i c b))

  keep_inner : (i c b : ℕ) (buf : List ℕ) → length (inner i c b buf) ≡ length buf
  unfolding inner
  keep_inner i c b buf = length-set buf (to i c b) _

  keep_middle : (i c : ℕ) (buf : List ℕ) → length (for_below ts (inner i c) buf) ≡ length buf
  keep_middle i c buf = length-for_below ts (inner i c) (keep_inner i c) buf

  keep_outer :
      (i : ℕ) (buf : List ℕ)
      → length (for_below cc (λ c. for_below ts (inner i c)) buf) ≡ length buf
  keep_outer i buf = length-for_below cc (λ c. for_below ts (inner i c)) (keep_middle i) buf

  pub length-move_bytes : (dst : List ℕ) → length (move_bytes n cc ts to from src dst) ≡ length dst
  unfolding move_bytes inner
  length-move_bytes dst =
      length-for_below n (λ i. for_below cc (λ c. for_below ts (inner i c))) keep_outer dst

  module _ (dst : List ℕ) (q : ℕ)
      (fits : (i c b : ℕ) → i < n → c < cc → b < ts → to i c b < length dst) where
    still :
        (i c b : ℕ) (buf : List ℕ)
        → i < n
        → c < cc
        → b < ts
        → to i c b ≢ q
        → length buf ≡ length dst
        → byte_at (inner i c b buf) q ≡ byte_at buf q
    unfolding inner
    still i c b buf hi hc hb ne e =
        ground (arith, byte_at-set buf (to i c b) (byte_at src (from i c b)) q, fits i c b hi hc hb)

    still_middle :
        (i c : ℕ) (buf : List ℕ)
        → i < n
        → c < cc
        → ((b : ℕ) → b < ts → to i c b ≢ q)
        → length buf ≡ length dst
        → byte_at (for_below ts (inner i c) buf) q ≡ byte_at buf q
    still_middle i c buf hi hc ne e =
        for_below_frame (inner i c) (length dst) q (keep_inner i c) ts buf e
          (λ b s hb e'. still i c b s hi hc hb (ne b hb) e')

    still_outer :
        (i : ℕ) (buf : List ℕ)
        → i < n
        → ((c b : ℕ) → c < cc → b < ts → to i c b ≢ q)
        → length buf ≡ length dst
        → byte_at (for_below cc (λ c. for_below ts (inner i c)) buf) q ≡ byte_at buf q
    still_outer i buf hi ne e =
        for_below_frame (λ c. for_below ts (inner i c)) (length dst) q (keep_middle i) cc buf e
          (λ c s hc e'. still_middle i c s hi hc (λ b hb. ne c b hc hb) e')

    -- an index that no round writes
    pub move_bytes_still :
        ((i c b : ℕ) → i < n → c < cc → b < ts → to i c b ≢ q)
        → byte_at (move_bytes n cc ts to from src dst) q ≡ byte_at dst q
    unfolding move_bytes inner
    move_bytes_still ne =
        for_below_frame (λ i. for_below cc (λ c. for_below ts (inner i c))) (length dst) q
          keep_outer n dst refl (λ i s hi e. still_outer i s hi (λ c b hc hb. ne i c b hi hc hb) e)

    -- an index that one round writes
    pub move_bytes_hit :
        (i0 c0 b0 : ℕ)
        → i0 < n
        → c0 < cc
        → b0 < ts
        → to i0 c0 b0 ≡ q
        → ((i c b : ℕ) → i < n → c < cc → b < ts → to i c b ≡ q → (i ≡ i0) × (c ≡ c0) × (b ≡ b0))
        → byte_at (move_bytes n cc ts to from src dst) q ≡ byte_at src (from i0 c0 b0)
    unfolding move_bytes inner
    move_bytes_hit i0 c0 b0 hi hc hb here one =
        let v = byte_at src (from i0 c0 b0) in
        for_below_hit (λ i. for_below cc (λ c. for_below ts (inner i c))) (length dst) q keep_outer
          n i0 v dst refl hi
          (λ s e.
            for_below_hit (λ c. for_below ts (inner i0 c)) (length dst) q (keep_middle i0) cc c0 v s
              e hc
              (λ s' e'.
                for_below_hit (inner i0 c0) (length dst) q (keep_inner i0 c0) ts b0 v s' e' hb
                  (λ s'' e''.
                    ground (arith, byte_at-set s'' (to i0 c0 b0) v q, fits i0 c0 b0 hi hc hb))
                  (λ b s'' k ne e''.
                    still i0 c0 b s'' hi hc k (λ f. ne (one i0 c0 b hi hc k f).2) e''))
              (λ c s' k ne e'.
                still_middle i0 c s' hi k (λ b kb f. ne (one i0 c b hi k kb f).1) e'))
          (λ i s k ne e. still_outer i s k (λ c b kc kb f. ne (one i c b k kc kb f).0) e)
