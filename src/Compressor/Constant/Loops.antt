-- ===== src/Compressor/Constant/Loops.antt =====
-- The two loops over the elements of a constant buffer: they end, and what they leave.
use dewfall.Prelude.{
  ℕ, zero, suc, ◌+◌, ◌-◌, ◌*◌, ◌/◌, ◌%◌, ◌^◌, ◌≤◌, ◌<◌, ◌≡◌, ◌≢◌, ◌⊎◌, some, refl, true, false,
  ◌&&◌, List, [], ◌∷◌, ◌++◌, ltb, leb, ◌==◌, if◌then◌else◌, arith, ap, sym, subst, ◌∙◌, Bool-cases,
  inl, inr, length, byte_at, take, copy, byte_at-copy, length-copy,
}
use dewfall.Shuffle.RoundTrip.{mod_small}
use dewfall.Preprocess.Bands.{zeroed}
use dewfall.Compressor.{same_bytes, all_same, copy_elements}

same_bytes_lem :
    (buf : List ℕ) (a b n : ℕ)
    → same_bytes buf a b n ≡ true
    → (j : ℕ) → j < n
    → byte_at buf (a + j) ≡ byte_at buf (b + j)
unfolding same_bytes
same_bytes_lem buf a b zero h j l = absurd (omega arith)
same_bytes_lem buf a b (suc n) h zero l = ground arith
same_bytes_lem buf a b (suc n) h (suc j) l =
    let next : same_bytes buf (a + 1) (b + 1) n ≡ true = ground arith in
    ap (byte_at buf) (the_next a j)
    ∙ (same_bytes_lem buf (a + 1) (b + 1) n next j (omega arith)
        ∙ ap (byte_at buf) (sym (the_next b j)))
  where
    the_next : (c k : ℕ) → c + suc k ≡ c + 1 + k
    the_next c k = omega arith

zero_add : (j : ℕ) → j ≡ 0 + j
zero_add j = omega arith

-- Bytes that are not the same differ somewhere.
same_bytes_differ :
    (buf : List ℕ) (a b n : ℕ)
    → same_bytes buf a b n ≡ false
    → (j : ℕ) × (j < n) × (byte_at buf (a + j) ≢ byte_at buf (b + j))
unfolding same_bytes
same_bytes_differ buf a b zero h = absurd (ground arith)
same_bytes_differ buf a b (suc n) h = elim (Bool-cases (byte_at buf a == byte_at buf b)) [
  | inl same ↦
      let (j, below, differ) = same_bytes_differ buf (a + 1) (b + 1) n (ground arith) in
      (
        suc j,
        omega arith,
        λ e. differ (ap (byte_at buf) (sym (the_next a j)) ∙ (e ∙ ap (byte_at buf) (the_next b j))),
      )
  | inr other ↦ (
    0,
    omega arith,
    λ e.
        let same : byte_at buf a ≡ byte_at buf b =
          ap (byte_at buf) (add_zero a) ∙ (e ∙ ap (byte_at buf) (sym (add_zero b))) in
        absurd (ground arith),
  )
]
  where
    the_next : (c k : ℕ) → c + suc k ≡ c + 1 + k
    the_next c k = omega arith

    add_zero : (c : ℕ) → c ≡ c + 0
    add_zero c = omega arith

element_whole : (k size es : ℕ) → k < size / es → k * es + es ≤ size
element_whole k size es h = grind arith

element_past : (k size es : ℕ) → 0 < es → k ≡ size / es → size < k * es + es
element_past k size es h e = grind arith

-- Some whole element differs from the first one.
abbrev pub Differs : List ℕ → ℕ → Type 0
Differs buf es =
    (k : ℕ) × (j : ℕ) × (k < length buf / es)
    × (j < es)
    × (byte_at buf j ≢ byte_at buf (k * es + j))

-- the test of the two loops, at the element `k`, where the offset does not wrap
module _ (size es k : ℕ) (some_byte : 0 < es) (room : size + es < 2 ^ 32) where
  goes_on : k < size / es → ltb size ((k * es + es) % 2 ^ 32) ≡ false
  goes_on h =
      let whole = element_whole k size es h in
      let next = mod_small (k * es + es) (2 ^ 32) (omega arith) in rw next (ground arith)

  stops : k ≡ size / es → k * es ≤ size → ltb size ((k * es + es) % 2 ^ 32) ≡ true
  stops e h =
      let past = element_past k size es some_byte e in
      let next = mod_small (k * es + es) (2 ^ 32) (omega arith) in rw next (ground arith)

  next_offset : k < size / es → (k * es + es) % 2 ^ 32 ≡ suc k * es
  next_offset h =
      let whole = element_whole k size es h in
      mod_small (k * es + es) (2 ^ 32) (omega arith) ∙ omega arith

-- The comparing loop ends, after every whole element or at one that differs.
module _ (buf : List ℕ) (es : ℕ) (some_byte : 0 < es) (room : length buf + es < 2 ^ 32) where
  abbrev pub SameFrom : ℕ → Type 0
  SameFrom k =
      (i : ℕ)
      → k ≤ i
      → i < length buf / es
      → (j : ℕ) → j < es
      → byte_at buf j ≡ byte_at buf (i * es + j)

  pub all_same_lem :
      (fuel k offset : ℕ)
      → offset ≡ k * es
      → k * es ≤ length buf
      → k ≤ length buf / es
      → length buf / es < k + fuel
      → ((all_same buf (length buf) es offset fuel ≡ some true) × SameFrom k)
        ⊎ ((all_same buf (length buf) es offset fuel ≡ some false) × Differs buf es)
  unfolding all_same
  all_same_lem zero k offset at inside low enough = absurd (omega arith)
  all_same_lem (suc fuel) k offset at inside low enough =
      rw at (elim (Bool-cases (ltb k (length buf / es))) [
        | inl more ↦
            let below : k < length buf / es = ground arith in
            let on = goes_on (length buf) es k some_byte room below in
            elim (Bool-cases (same_bytes buf 0 (k * es) es)) [
              | inl same ↦
                  elim (all_same_lem fuel (suc k) ((k * es + es) % 2 ^ 32)
                    (next_offset (length buf) es k some_byte room below)
                    (omega (arith, element_whole k (length buf) es below)) (omega arith)
                    (omega arith)) [
                      | inl (ends, others) ↦ inl (
                        rw on (rw same ends),
                        λ i lo hi j l. elim (Bool-cases (k == i)) [
                          | inl here ↦
                              let e : k ≡ i = ground arith in
                              subst (λ m. byte_at buf j ≡ byte_at buf (m * es + j)) e
                                (ap (byte_at buf) (zero_add j)
                                  ∙ same_bytes_lem buf 0 (k * es) es same j l)
                          | inr later ↦ others i (ground arith) hi j l
                        ],
                      )
                      | inr (ends, differ) ↦ inr (rw on (rw same ends), differ)
                    ]
              | inr other ↦
                  let (j, l, differ) = same_bytes_differ buf 0 (k * es) es other in
                  inr (
                    rw on (rw other refl),
                    (k, j, below, l, λ e. differ (ap (byte_at buf) (sym (zero_add j)) ∙ e)),
                  )
            ]
        | inr last ↦
            let end : k ≡ length buf / es = ground arith in
            inl (
              rw (stops (length buf) es k some_byte room end inside) refl,
              λ i lo hi j l. absurd (omega arith),
            )
      ])

pub byte_at-zeroed : (n q : ℕ) → byte_at (zeroed n) q ≡ 0
byte_at-zeroed zero q = refl
byte_at-zeroed (suc n) zero = refl
byte_at-zeroed (suc n) (suc q) = byte_at-zeroed n q

pub byte_at-take : (n : ℕ) (l : List ℕ) (q : ℕ) → q < n → byte_at (take n l) q ≡ byte_at l q
byte_at-take zero l q h = absurd (omega arith)
byte_at-take (suc n) [] q h = refl
byte_at-take (suc n) (x ∷ l) zero h = refl
byte_at-take (suc n) (x ∷ l) (suc q) h = byte_at-take n l q (omega arith)

pub byte_at-append :
    (a b : List ℕ) (q : ℕ)
    → byte_at (a ++ b) q ≡ (if ltb q (length a) then byte_at a q else byte_at b (q - length a))
byte_at-append [] b q = ground arith
byte_at-append (x ∷ a) b zero = ground arith
byte_at-append (x ∷ a) b (suc q) = ground (arith, byte_at-append a b q)

-- The loop copies an element that every whole place of `buf` holds.
module _ (buf src : List ℕ) (es size : ℕ)
    (same : (k : ℕ) → k < size / es → (j : ℕ) → j < es → byte_at src j ≡ byte_at buf (k * es + j))
    (some_byte : 0 < es) (room : size + es < 2 ^ 32) where
  abbrev pub Copied : ℕ → List ℕ → Type 0
  Copied k s =
      (length s ≡ size) × ((q : ℕ) → byte_at s q ≡ (if ltb q (k * es) then byte_at buf q else 0))

  copy-Copied :
      (k : ℕ) (s : List ℕ) → k < size / es → Copied k s → Copied (suc k) (copy es s (k * es) src 0)
  copy-Copied k s h (len, bytes) = (
    length-copy es s (k * es) src 0 ∙ len,
    λ q.
        byte_at-copy es s (k * es) src 0 q (omega (arith, len, element_whole k size es h))
        ∙ elim (Bool-cases (leb (k * es) q && ltb q (k * es + es))) [
          | inl here ↦
              let j = q - k * es in
              let place : k * es + j ≡ q = ground arith in
              let past : ltb q (suc k * es) ≡ true = ground arith in
              rw here (
                rw past (
                  ap (byte_at src) (sym (zero_add j))
                  ∙ (same k h j (ground arith) ∙ ap (byte_at buf) place)))
          | inr other ↦
              let next : ltb q (suc k * es) ≡ ltb q (k * es) = ground arith in
              rw other (rw next (bytes q))
        ],
  )

  -- The copying loop ends, after every whole place.
  pub copied_lem :
      (fuel k offset : ℕ) (s : List ℕ)
      → offset ≡ k * es
      → k * es ≤ size
      → k ≤ size / es
      → size / es < k + fuel
      → Copied k s
      → (s' : List ℕ) × (copy_elements src size es offset s fuel ≡ some s') × Copied (size / es) s'
  unfolding copy_elements
  copied_lem zero k offset s at inside low enough ok = absurd (omega arith)
  copied_lem (suc fuel) k offset s at inside low enough ok =
      rw at (elim (Bool-cases (ltb k (size / es))) [
        | inl more ↦
            let below : k < size / es = ground arith in
            let (s', ends, done) =
              copied_lem fuel (suc k) ((k * es + es) % 2 ^ 32) (copy es s (k * es) src 0)
                (next_offset size es k some_byte room below)
                (omega (arith, element_whole k size es below)) (omega arith) (omega arith)
                (copy-Copied k s below ok) in
            (s', rw (goes_on size es k some_byte room below) ends, done)
        | inr last ↦
            let end : k ≡ size / es = ground arith in
            (s, rw (stops size es k some_byte room end inside) refl, subst (λ m. Copied m s) end ok)
      ])
