-- ===== src/BlobManager/Release.antt =====
-- Freeing a range of one page.
use dewfall.Prelude.{
  ℕ, ◌+◌, ◌^◌, ◌≤◌, ◌<◌, ◌≡◌, ◌⊎◌, refl, true, false, ◌&&◌, Option, none, some, List, [], ◌∷◌, ◌++◌,
  ltb, leb, ◌==◌, if◌then◌else◌, arith, Bool-cases, inl, inr,
}
use dewfall.BlobManager.{
  Section, lower_bound, coalesce, end_of, add32, release_in_page, release_at, touches_next,
}
use dewfall.BlobManager.Sections.{
  holds, cover, Ordered, cover-append, append-Ordered, Ordered-le, coalesce_lem,
}

-- The first section starts at the offset or behind it.
abbrev From : ℕ → List Section → Type 0
From offset [] = Unit {0}
From offset (s ∷ l) = offset ≤ s.offset

-- the sections around the position of an offset
abbrev Around : ℕ → ℕ → ℕ → List Section → Type 0
Around lo hi offset l =
    (earlier : List Section) × (p : Section) × (after : List Section) × (mid : ℕ) × (lower_bound
        offset l
      ≡ (earlier, some p, after))
    × Ordered lo mid earlier
    × (mid ≤ p.offset)
    × (0 < p.size)
    × (p.offset < offset)
    × Ordered (p.offset + p.size) hi after
    × From offset after
    × ((x : ℕ) → cover l x ≡ cover earlier x + (holds p x + cover after x))

lower_bound_lem :
    (lo hi offset : ℕ) (l : List Section)
    → Ordered lo hi l
    → (lower_bound offset l ≡ ([], none, l)) × From offset l ⊎ Around lo hi offset l
unfolding lower_bound
lower_bound_lem lo hi offset [] h = inl (refl, tt)
lower_bound_lem lo hi offset (s ∷ l) h = elim (Bool-cases (ltb s.offset offset)) [
  | inl before ↦ inr (elim (lower_bound_lem (s.offset + s.size) hi offset l h.2) [
    | inl (e, from) ↦ (
      [],
      s,
      l,
      lo,
      ground arith,
      omega arith,
      h.0,
      h.1,
      ground arith,
      h.2,
      from,
      λ x. omega arith,
    )
    | inr (earlier, p, after, mid, e, o, le, pos, lt, o', from, same) ↦ (
      s ∷ earlier,
      p,
      after,
      mid,
      ground arith,
      (h.0, h.1, o),
      le,
      pos,
      lt,
      o',
      from,
      λ x. omega (arith, same x),
    )
  ])
  | inr behind ↦ inl (rw behind, ground arith)
]

-- What a release has to do: a range that meets a free byte is refused, and any other is free
-- afterwards, beside what was.
abbrev pub Released : ℕ → ℕ → ℕ → ℕ → List Section → Option (List Section) → Type 0
Released lo hi offset size sections none =
    (x : ℕ) × (offset ≤ x) × (x < offset + size) × (0 < cover sections x)
Released lo hi offset size sections (some out) =
    Ordered lo hi out
    × ((x : ℕ)
        → cover out x ≡ cover sections x + (if leb offset x && ltb x (offset + size) then 1 else 0))

module _ (lo hi offset size : ℕ) (low : lo ≤ offset) (top : offset + size ≤ hi)
    (some_byte : 0 < size) (small : hi < 2 ^ 64) (narrow : hi ≤ lo + 2 ^ 31) where
  abbrev new : Section
  new = record { offset = offset; size = size }

  -- Where the range does not reach the next section, it can stand in front of it.
  room :
      (from : ℕ) (after : List Section)
      → from ≤ offset
      → Ordered from hi after
      → From offset after
      → touches_next offset size after ≡ false
      → Ordered (offset + size) hi after
  unfolding touches_next
  room from [] f o p t = top
  room from (n ∷ after) f o p t = (ground arith, o.1, o.2)

  reached :
      (from : ℕ) (after : List Section)
      → Ordered from hi after
      → From offset after
      → touches_next offset size after ≡ true
      → (x : ℕ) × (offset ≤ x) × (x < offset + size) × (0 < cover after x)
  unfolding touches_next
  reached from [] o p t = absurd (ground arith)
  reached from (n ∷ after) o p t = (n.offset, p, ground arith, ground arith)

  -- The range in front of the sections behind it, joined with the next if they touch.
  inserted :
      (from : ℕ) (after : List Section)
      → from ≤ offset
      → Ordered from hi after
      → From offset after
      → touches_next offset size after ≡ false
      → lo ≤ from
      → Ordered from hi (coalesce new after)
        × ((x : ℕ) → cover (coalesce new after) x ≡ holds new x + cover after x)
  inserted from after f o p t l =
      coalesce_lem from hi new after (f, some_byte, room from after f o p t) small (omega arith)

  at_start :
      (sections : List Section)
      → Ordered lo hi sections
      → From offset sections
      → Released lo hi offset size sections (release_at offset size ([], none, sections))
  unfolding release_at
  at_start sections o from = elim (Bool-cases (touches_next offset size sections)) [
    | inl t ↦ rw t (reached lo sections o from t)
    | inr t ↦
        let (ordered, same) = inserted lo sections low o from t (omega arith) in
        rw t (ordered, λ x. omega (arith, same x))
  ]

  module _ (sections earlier after : List Section) (p : Section) (mid : ℕ)
      (o : Ordered lo mid earlier) (le : mid ≤ p.offset) (pos : 0 < p.size) (lt : p.offset < offset)
      (o' : Ordered (p.offset + p.size) hi after) (from : From offset after)
      (same : (x : ℕ) → cover sections x ≡ cover earlier x + (holds p x + cover after x)) where
    p_end : end_of p ≡ p.offset + p.size
    p_end = omega (arith, Ordered-le (p.offset + p.size) hi after o')

    low_p : lo ≤ mid
    low_p = Ordered-le lo mid earlier o

    apart :
        p.offset + p.size ≤ offset
        → touches_next offset size after ≡ false
        → Released lo hi offset size sections
            (some (earlier ++ p ∷ coalesce (record { offset = offset; size = size }) after))
    apart f t =
        let (ordered, cov) =
          inserted (p.offset + p.size) after f o' from t (omega (arith, low_p)) in
        (
          append-Ordered lo mid hi earlier (p ∷ coalesce new after) o (le, pos, ordered),
          λ x. omega (arith, same x, cov x, cover-append earlier (p ∷ coalesce new after) x),
        )

    joined :
        p.offset + p.size ≡ offset
        → touches_next offset size after ≡ false
        → Released lo hi offset size sections
            (some (earlier ++ coalesce (record p { size = add32 p.size size }) after))
    joined f t =
        let wide : Section = record p { size = add32 p.size size } in
        let grown : add32 p.size size ≡ p.size + size = omega (arith, low_p) in
        let same_end : p.offset + add32 p.size size ≡ offset + size = omega (arith, grown, f) in
        let (ordered, cov) =
          coalesce_lem mid hi wide after
            (
              le,
              omega (arith, grown),
              rw same_end (room (p.offset + p.size) after (omega arith) o' from t),
            )
            small (omega (arith, low_p)) in
        (
          append-Ordered lo mid hi earlier (coalesce wide after) o ordered,
          λ x.
              ground (arith, grown, f, same x, cov x, cover-append earlier (coalesce wide after) x),
        )

    behind : Released lo hi offset size sections (release_at offset size (earlier, some p, after))
    unfolding release_at
    behind = elim (Bool-cases (ltb offset (end_of p))) [
      | inl inside ↦
          rw inside (offset, omega arith, omega arith, ground (arith, p_end, same offset))
      | inr outside ↦ elim (Bool-cases (touches_next offset size after)) [
        | inl t ↦
            let (x, from_x, to_x, held) = reached (p.offset + p.size) after o' from t in
            rw outside (rw t (x, from_x, to_x, omega (arith, same x)))
        | inr t ↦ elim (Bool-cases (end_of p == offset)) [
          | inl e ↦ rw outside (rw t (rw e (joined (ground (arith, p_end)) t)))
          | inr e ↦ rw outside (rw t (rw e (apart (ground (arith, p_end)) t)))
        ]
      ]
    ]

-- Freeing a range of at least one byte inside one page [lo, hi), whose free sections are in order:
-- it is refused only where a byte of the range is free already, and otherwise the sections are in
-- order again and hold each byte of the range once more than before, and every other byte as before.
pub release_in_page_lem :
    (lo hi offset size : ℕ) (sections : List Section)
    → Ordered lo hi sections
    → lo ≤ offset
    → offset + size ≤ hi
    → 0 < size
    → hi < 2 ^ 64
    → hi ≤ lo + 2 ^ 31
    → Released lo hi offset size sections (release_in_page offset size sections)
unfolding release_in_page
release_in_page_lem lo hi offset size sections o low top some_byte small narrow =
    elim (lower_bound_lem lo hi offset sections o) [
      | inl (e, from) ↦
          rw e (at_start lo hi offset size low top some_byte small narrow sections o from)
      | inr (earlier, p, after, mid, e, o', le, pos, lt, o'', from, same) ↦ rw e (
          behind lo hi offset size low top some_byte small narrow sections earlier after p mid o' le
            pos lt o'' from same)
    ]
