-- ===== src/Preprocess/WordLaws.antt =====
-- Each multi-word operation is the operation on the one wide number that the words stand for.
use dewfall.Prelude.{
  ℕ, ◌+◌, ◌-◌, ◌*◌, ◌%◌, ◌^◌, ◌<◌, ◌≡◌, refl, ◌⊎◌, inl, inr, List, some, ltb, arith, ap, ◌∙◌, sym,
}
use dewfall.Bytes.{AllBytes, load, store, load-lt, load_split, store_split}
use dewfall.Preprocess.Differences.{sub_at, add_at}
use dewfall.Preprocess.Words.{
  MortonOps, get_morton_ops, ops_u32, ops_u64, ops_u128, ops_u192, less_than_u32, less_than_u64,
  less_than_u128, less_than_u192, sub_u32, sub_u64, sub_u128, sub_u192, add_u32, add_u64, add_u128,
  add_u192,
}

load_u128 :
    (buf : List ℕ) (off : ℕ) → load 16 buf off ≡ load 8 buf off + 2 ^ 64 * load 8 buf (off + 8)
load_u128 buf off = load_split 8 8 buf off

load_u192 :
    (buf : List ℕ) (off : ℕ)
    → load 24 buf off
      ≡ load 8 buf off + 2 ^ 64 * load 8 buf (off + 8) + 2 ^ 128 * load 8 buf (off + 16)
load_u192 buf off = omega (arith, load_split 16 8 buf off, load_u128 buf off)

store_u128 :
    (buf : List ℕ) (off r0 r1 v : ℕ)
    → r0 < 2 ^ 64
    → r0 + 2 ^ 64 * r1 ≡ v
    → store 8 (store 8 buf off r0) (off + 8) r1 ≡ store 16 buf off v
store_u128 buf off r0 r1 v h e = sym (store_split 8 8 buf off r0 r1 h) ∙ ap (store 16 buf off) e

store_u192 :
    (buf : List ℕ) (off r0 r1 r2 v : ℕ)
    → r0 < 2 ^ 64
    → r1 < 2 ^ 64
    → r0 + 2 ^ 64 * r1 + 2 ^ 128 * r2 ≡ v
    → store 8 (store 8 (store 8 buf off r0) (off + 8) r1) (off + 16) r2 ≡ store 24 buf off v
store_u192 buf off r0 r1 r2 v h h' e =
    ap (λ b. store 8 b (off + 16) r2) (store_u128 buf off r0 r1 _ h refl)
    ∙ sym (store_split 16 8 buf off (r0 + 2 ^ 64 * r1) r2 (omega arith))
    ∙ ap (store 24 buf off) e

module _ (buf : List ℕ) (a b : ℕ) (ok : AllBytes buf) where
  pub less_than_u128_lem : less_than_u128 buf a b ≡ ltb (load 16 buf a) (load 16 buf b)
  unfolding less_than_u128
  less_than_u128_lem =
      ground (arith, load_u128 buf a, load_u128 buf b, load-lt 8 buf a ok, load-lt 8 buf b ok)

  -- `less_than_u192` compares the two numbers of 192 bits that the bytes at `a` and `b` hold.
  pub less_than_u192_lem : less_than_u192 buf a b ≡ ltb (load 24 buf a) (load 24 buf b)
  unfolding less_than_u192
  less_than_u192_lem = ground (
    arith,
    load_u192 buf a,
    load_u192 buf b,
    load-lt 8 buf a ok,
    load-lt 8 buf b ok,
    load-lt 8 buf (a + 8) ok,
    load-lt 8 buf (b + 8) ok,
  )

  module _ (dst : ℕ) where
    pub sub_u128_lem :
        sub_u128 buf a b dst
        ≡ store 16 buf dst ((load 16 buf a + 2 ^ 128 - load 16 buf b) % 2 ^ 128)
    unfolding sub_u128
    sub_u128_lem = store_u128 buf dst _ _ _ (omega arith) (
        ground (
          arith,
          load_u128 buf a,
          load_u128 buf b,
          load-lt 8 buf a ok,
          load-lt 8 buf b ok,
          load-lt 8 buf (a + 8) ok,
          load-lt 8 buf (b + 8) ok,
        ))

    pub add_u128_lem :
        add_u128 buf a b dst ≡ store 16 buf dst ((load 16 buf a + load 16 buf b) % 2 ^ 128)
    unfolding add_u128
    add_u128_lem = store_u128 buf dst _ _ _ (omega arith) (
        ground (
          arith,
          load_u128 buf a,
          load_u128 buf b,
          load-lt 8 buf a ok,
          load-lt 8 buf b ok,
          load-lt 8 buf (a + 8) ok,
          load-lt 8 buf (b + 8) ok,
        ))

    -- `sub_u192` writes the difference of the two numbers of 192 bits, modulo 2 ^ 192, and no other
    -- byte: the borrows pass through both words, at the extreme values too.
    pub sub_u192_lem :
        sub_u192 buf a b dst
        ≡ store 24 buf dst ((load 24 buf a + 2 ^ 192 - load 24 buf b) % 2 ^ 192)
    unfolding sub_u192
    sub_u192_lem = store_u192 buf dst _ _ _ _ (omega arith) (omega arith) (
        ground (
          arith,
          load_u192 buf a,
          load_u192 buf b,
          load-lt 8 buf a ok,
          load-lt 8 buf b ok,
          load-lt 8 buf (a + 8) ok,
          load-lt 8 buf (b + 8) ok,
          load-lt 8 buf (a + 16) ok,
          load-lt 8 buf (b + 16) ok,
        ))

    -- `add_u192` writes the sum of the two numbers of 192 bits, modulo 2 ^ 192, and no other byte: the
    -- carries pass through both words, at the extreme values too.
    pub add_u192_lem :
        add_u192 buf a b dst ≡ store 24 buf dst ((load 24 buf a + load 24 buf b) % 2 ^ 192)
    unfolding add_u192
    add_u192_lem = store_u192 buf dst _ _ _ _ (omega arith) (omega arith) (
        ground (
          arith,
          load_u192 buf a,
          load_u192 buf b,
          load-lt 8 buf a ok,
          load-lt 8 buf b ok,
          load-lt 8 buf (a + 8) ok,
          load-lt 8 buf (b + 8) ok,
          load-lt 8 buf (a + 16) ok,
          load-lt 8 buf (b + 16) ok,
        ))

-- What the delta transform needs of the three functions: those of one number of `w` bytes.
pub record IsWide (w : ℕ) (ops : MortonOps) : Type 0 where
  pub less_wide :
      (buf : List ℕ) (a b : ℕ) → AllBytes buf → ops.less buf a b ≡ ltb (load w buf a) (load w buf b)
  pub sub_wide : (buf : List ℕ) (a b : ℕ) → AllBytes buf → ops.sub buf a b a ≡ sub_at w buf a b
  pub add_wide : (buf : List ℕ) (a b : ℕ) → AllBytes buf → ops.add buf a b a ≡ add_at w buf a b

ops_u32-IsWide : IsWide 4 ops_u32
unfolding less_than_u32 sub_u32 add_u32 sub_at add_at
ops_u32-IsWide = record {
  less_wide = λ buf a b ok. refl;
  sub_wide = λ buf a b ok. refl;
  add_wide = λ buf a b ok. refl;
}

ops_u64-IsWide : IsWide 8 ops_u64
unfolding less_than_u64 sub_u64 add_u64 sub_at add_at
ops_u64-IsWide = record {
  less_wide = λ buf a b ok. refl;
  sub_wide = λ buf a b ok. refl;
  add_wide = λ buf a b ok. refl;
}

ops_u128-IsWide : IsWide 16 ops_u128
unfolding sub_at add_at
ops_u128-IsWide = record {
  less_wide = less_than_u128_lem;
  sub_wide = λ buf a b ok. sub_u128_lem buf a b ok a;
  add_wide = λ buf a b ok. add_u128_lem buf a b ok a;
}

ops_u192-IsWide : IsWide 24 ops_u192
unfolding sub_at add_at
ops_u192-IsWide = record {
  less_wide = less_than_u192_lem;
  sub_wide = λ buf a b ok. sub_u192_lem buf a b ok a;
  add_wide = λ buf a b ok. add_u192_lem buf a b ok a;
}

get_morton_ops-cases :
    (w : ℕ) (ops : MortonOps)
    → get_morton_ops w ≡ some ops
    → (w ≡ 4) × (ops ≡ ops_u32)
      ⊎ (w ≡ 8) × (ops ≡ ops_u64)
      ⊎ (w ≡ 16) × (ops ≡ ops_u128)
      ⊎ (w ≡ 24) × (ops ≡ ops_u192)
unfolding get_morton_ops
get_morton_ops-cases w ops h = ground arith

-- Every table that `get_morton_ops` returns computes with whole elements.
pub get_morton_ops-IsWide : (w : ℕ) (ops : MortonOps) → get_morton_ops w ≡ some ops → IsWide w ops
get_morton_ops-IsWide w ops h = elim (get_morton_ops-cases w ops h) [
  | inl (e, f) ↦ rw (e, f) ops_u32-IsWide
  | inr (inl (e, f)) ↦ rw (e, f) ops_u64-IsWide
  | inr (inr (inl (e, f))) ↦ rw (e, f) ops_u128-IsWide
  | inr (inr (inr (e, f))) ↦ rw (e, f) ops_u192-IsWide
]
