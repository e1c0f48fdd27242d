-- ===== src/Morton/Order.antt =====
-- The comparisons are those of the numbers that the codes stand for.
use dewfall.Prelude.{◌+◌, ◌≤◌, ◌≡◌, not, ltb, leb, ◌==◌, arith}
use dewfall.Morton.{
  Kind, Morton, m32, m64, m128, m192, morton_eq, morton_lt, morton_le, morton_gt, morton_ge,
  morton_init_min, morton_init_max, morton_is_null, morton_is_set, value, modulus, Fits,
}

-- The five comparison operators compare two codes of one type as the numbers that they stand for.
pub morton_compares :
    {k : Kind} (a b : Morton k)
    → Fits a
    → Fits b
    → (morton_eq a b ≡ (value a == value b))
      × (morton_lt a b ≡ ltb (value a) (value b))
      × (morton_le a b ≡ leb (value a) (value b))
      × (morton_gt a b ≡ ltb (value b) (value a))
      × (morton_ge a b ≡ leb (value b) (value a))
unfolding morton_eq morton_lt morton_le morton_gt morton_ge
morton_compares (m32 a) (m32 b) h k = ground arith
morton_compares (m64 a) (m64 b) h k = ground arith
morton_compares (m128 a0 a1) (m128 b0 b1) h k = ground arith
morton_compares (m192 a0 a1 a2) (m192 b0 b1 b2) h k = ground arith

-- `morton_init_min` and `morton_init_max` give the least and the greatest code of the type, and
-- `morton_is_null` and `morton_is_set` tell zero from the other numbers.
pub morton_extremes :
    {k : Kind} (a b : Morton k)
    → Fits a
    → (value (morton_init_min b) ≤ value a)
      × (value a ≤ value (morton_init_max b))
      × (value (morton_init_max b) + 1 ≡ modulus k)
      × (morton_is_null a ≡ (value a == 0))
      × (morton_is_set a ≡ not (value a == 0))
unfolding morton_init_min morton_init_max morton_is_null morton_is_set
morton_extremes (m32 a) (m32 b) h = ground arith
morton_extremes (m64 a) (m64 b) h = ground arith
morton_extremes (m128 a0 a1) (m128 b0 b1) h = ground arith
morton_extremes (m192 a0 a1 a2) (m192 b0 b1 b2) h = ground arith
