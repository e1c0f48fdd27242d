-- ===== src/Preprocess/Words.antt =====
-- The comparison, subtraction and addition of little-endian words of 4, 8, 16 and 24 bytes.
-- A pointer is an offset into the one buffer, and a function that writes returns the buffer.
use dewfall.Prelude.{
  ℕ, ◌+◌, ◌-◌, ◌%◌, ◌^◌, Bool, not, ◌||◌, ◌&&◌, Option, none, some, List, ltb, ◌==◌, if◌then◌else◌,
}
use dewfall.Bytes.{load, store}

-- `uint32_t` and `uint64_t` arithmetic wraps.
abbrev pub u32_sub : ℕ → ℕ → ℕ
u32_sub a b = (a + 2 ^ 32 - b) % 2 ^ 32

abbrev pub u32_add : ℕ → ℕ → ℕ
u32_add a b = (a + b) % 2 ^ 32

abbrev pub u64_sub : ℕ → ℕ → ℕ
u64_sub a b = (a + 2 ^ 64 - b) % 2 ^ 64

abbrev pub u64_add : ℕ → ℕ → ℕ
u64_add a b = (a + b) % 2 ^ 64

unfoldable pub less_than_u32 : List ℕ → ℕ → ℕ → Bool
less_than_u32 buf a b = ltb (load 4 buf a) (load 4 buf b)

unfoldable pub less_than_u64 : List ℕ → ℕ → ℕ → Bool
less_than_u64 buf a b = ltb (load 8 buf a) (load 8 buf b)

unfoldable pub less_than_u128 : List ℕ → ℕ → ℕ → Bool
less_than_u128 buf a b =
    let a0 = load 8 buf a in
    let a1 = load 8 buf (a + 8) in
    let b0 = load 8 buf b in
    let b1 = load 8 buf (b + 8) in if not (a1 == b1) then ltb a1 b1 else ltb a0 b0

unfoldable pub less_than_u192 : List ℕ → ℕ → ℕ → Bool
less_than_u192 buf a b =
    let a0 = load 8 buf a in
    let a1 = load 8 buf (a + 8) in
    let a2 = load 8 buf (a + 16) in
    let b0 = load 8 buf b in
    let b1 = load 8 buf (b + 8) in
    let b2 = load 8 buf (b + 16) in
    if not (a2 == b2) then ltb a2 b2 else if not (a1 == b1) then ltb a1 b1 else ltb a0 b0

unfoldable pub sub_u32 : List ℕ → ℕ → ℕ → ℕ → List ℕ
sub_u32 buf a b dst = store 4 buf dst (u32_sub (load 4 buf a) (load 4 buf b))

unfoldable pub sub_u64 : List ℕ → ℕ → ℕ → ℕ → List ℕ
sub_u64 buf a b dst = store 8 buf dst (u64_sub (load 8 buf a) (load 8 buf b))

unfoldable pub sub_u128 : List ℕ → ℕ → ℕ → ℕ → List ℕ
sub_u128 buf a b dst =
    let a0 = load 8 buf a in
    let a1 = load 8 buf (a + 8) in
    let b0 = load 8 buf b in
    let b1 = load 8 buf (b + 8) in
    let r0 = u64_sub a0 b0 in
    let borrow : ℕ = if ltb a0 b0 then 1 else 0 in
    let r1 = u64_sub (u64_sub a1 b1) borrow in store 8 (store 8 buf dst r0) (dst + 8) r1

unfoldable pub sub_u192 : List ℕ → ℕ → ℕ → ℕ → List ℕ
sub_u192 buf a b dst =
    let a0 = load 8 buf a in
    let a1 = load 8 buf (a + 8) in
    let a2 = load 8 buf (a + 16) in
    let b0 = load 8 buf b in
    let b1 = load 8 buf (b + 8) in
    let b2 = load 8 buf (b + 16) in
    let r0 = u64_sub a0 b0 in
    let borrow : ℕ = if ltb a0 b0 then 1 else 0 in
    let r1 = u64_sub (u64_sub a1 b1) borrow in
    let borrow' : ℕ =
      if ltb a1 (u64_add b1 borrow) || (not (borrow == 0) && (b1 == 2 ^ 64 - 1)) then 1 else 0 in
    let r2 = u64_sub (u64_sub a2 b2) borrow' in
    store 8 (store 8 (store 8 buf dst r0) (dst + 8) r1) (dst + 16) r2

unfoldable pub add_u32 : List ℕ → ℕ → ℕ → ℕ → List ℕ
add_u32 buf a b dst = store 4 buf dst (u32_add (load 4 buf a) (load 4 buf b))

unfoldable pub add_u64 : List ℕ → ℕ → ℕ → ℕ → List ℕ
add_u64 buf a b dst = store 8 buf dst (u64_add (load 8 buf a) (load 8 buf b))

unfoldable pub add_u128 : List ℕ → ℕ → ℕ → ℕ → List ℕ
add_u128 buf a b dst =
    let a0 = load 8 buf a in
    let a1 = load 8 buf (a + 8) in
    let b0 = load 8 buf b in
    let b1 = load 8 buf (b + 8) in
    let r0 = u64_add a0 b0 in
    let carry : ℕ = if ltb r0 a0 then 1 else 0 in
    let r1 = u64_add (u64_add a1 b1) carry in store 8 (store 8 buf dst r0) (dst + 8) r1

unfoldable pub add_u192 : List ℕ → ℕ → ℕ → ℕ → List ℕ
add_u192 buf a b dst =
    let a0 = load 8 buf a in
    let a1 = load 8 buf (a + 8) in
    let a2 = load 8 buf (a + 16) in
    let b0 = load 8 buf b in
    let b1 = load 8 buf (b + 8) in
    let b2 = load 8 buf (b + 16) in
    let r0 = u64_add a0 b0 in
    let carry : ℕ = if ltb r0 a0 then 1 else 0 in
    let r1 = u64_add (u64_add a1 b1) carry in
    let carry' : ℕ = if ltb r1 a1 || (not (carry == 0) && (r1 == a1)) then 1 else 0 in
    let r2 = u64_add (u64_add a2 b2) carry' in
    store 8 (store 8 (store 8 buf dst r0) (dst + 8) r1) (dst + 16) r2

-- `morton_ops_t`: the three functions of one element size.
pub record MortonOps : Type 0 where
  pub less : List ℕ → ℕ → ℕ → Bool
  pub sub : List ℕ → ℕ → ℕ → ℕ → List ℕ
  pub add : List ℕ → ℕ → ℕ → ℕ → List ℕ

abbrev pub ops_u32 : MortonOps
ops_u32 = record { less = less_than_u32; sub = sub_u32; add = add_u32 }

abbrev pub ops_u64 : MortonOps
ops_u64 = record { less = less_than_u64; sub = sub_u64; add = add_u64 }

abbrev pub ops_u128 : MortonOps
ops_u128 = record { less = less_than_u128; sub = sub_u128; add = add_u128 }

abbrev pub ops_u192 : MortonOps
ops_u192 = record { less = less_than_u192; sub = sub_u192; add = add_u192 }

-- The null functions of the default case are `none`.
unfoldable pub get_morton_ops : ℕ → Option MortonOps
get_morton_ops type_size =
    if type_size == 4
    then some ops_u32
    else if type_size == 8
    then some ops_u64
    else if type_size == 16
    then some ops_u128
    else if type_size == 24
    then some ops_u192
    else none
