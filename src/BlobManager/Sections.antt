-- ===== src/BlobManager/Sections.antt =====
-- The sections of one page as a set of bytes.
use dewfall.Prelude.{
  ℕ, ◌+◌, ◌^◌, ◌≤◌, ◌<◌, ◌≡◌, refl, ◌&&◌, List, [], ◌∷◌, ◌++◌, ltb, leb, ◌==◌, if◌then◌else◌, arith,
  Bool-cases, inl, inr,
}
use dewfall.BlobManager.{Section, coalesce, end_of, add32}

-- How many of the sections hold the byte `x`.
abbrev pub holds : Section → ℕ → ℕ
holds s x = if leb s.offset x && ltb x (s.offset + s.size) then 1 else 0

abbrev pub cover : List Section → ℕ → ℕ
cover [] x = 0
cover (s ∷ l) x = holds s x + cover l x

-- Sections that lie in [lo, hi), in order, without overlap, and none empty.
abbrev pub Ordered : ℕ → ℕ → List Section → Type 0
Ordered lo hi [] = lo ≤ hi
Ordered lo hi (s ∷ l) = (lo ≤ s.offset) × (0 < s.size) × Ordered (s.offset + s.size) hi l

pub cover-append : (l m : List Section) (x : ℕ) → cover (l ++ m) x ≡ cover l x + cover m x
cover-append [] m x = omega arith
cover-append (s ∷ l) m x = omega (arith, cover-append l m x)

pub append-Ordered :
    (lo mid hi : ℕ) (l m : List Section)
    → Ordered lo mid l
    → Ordered mid hi m
    → Ordered lo hi (l ++ m)
append-Ordered lo mid hi [] [] h k = omega arith
append-Ordered lo mid hi [] (s ∷ m) h k = (omega arith, k.1, k.2)
append-Ordered lo mid hi (s ∷ l) m h k =
    (h.0, h.1, append-Ordered (s.offset + s.size) mid hi l m h.2 k)

pub Ordered-le : (lo hi : ℕ) (l : List Section) → Ordered lo hi l → lo ≤ hi
Ordered-le lo hi [] h = h
Ordered-le lo hi (s ∷ l) h = omega (arith, Ordered-le (s.offset + s.size) hi l h.2)

-- Joining a section with its neighbour keeps the bytes and the order.
pub coalesce_lem :
    (lo hi : ℕ) (s : Section) (after : List Section)
    → Ordered lo hi (s ∷ after)
    → hi < 2 ^ 64
    → hi ≤ lo + 2 ^ 31
    → Ordered lo hi (coalesce s after)
      × ((x : ℕ) → cover (coalesce s after) x ≡ cover (s ∷ after) x)
unfolding coalesce
coalesce_lem lo hi s [] h k l = (h, λ x. refl)
coalesce_lem lo hi s (n ∷ after) h k l = elim (Bool-cases (end_of s == n.offset)) [
  | inl e ↦
      let top = Ordered-le (n.offset + n.size) hi after h.2.2 in
      let touch : s.offset + s.size ≡ n.offset = ground arith in
      let size : add32 s.size n.size ≡ s.size + n.size = omega arith in
      let same : s.offset + (s.size + n.size) ≡ n.offset + n.size = omega arith in
      rw e (rw (size, same) ((h.0, omega arith, h.2.2), λ x. ground arith))
  | inr e ↦ rw e (h, λ x. refl)
]
