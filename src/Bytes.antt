-- ===== src/Bytes.antt =====
-- A byte buffer, and the `memcpy` of an unsigned integer out of it and into it, by which
-- src/core/compression_preprocess.cpp reads and writes every element (on a little-endian machine).
use dewfall.Prelude.{
  ℕ, zero, suc, ◌+◌, ◌*◌, ◌/◌, ◌%◌, ◌^◌, ◌≤◌, ◌<◌, ◌≡◌, refl, ◌⊎◌, List, [], ◌∷◌, arith, pow-suc,
  length, get_or, set, length-set, get_or-set_self, get_or-set_ne, set-set_self, set-set_comm,
  set-get_or, ap, ◌∙◌,
}

-- Every element of the buffer is a `uint8_t`.
abbrev pub AllBytes : List ℕ → Type 0
AllBytes [] = Unit {0}
AllBytes (x ∷ xs) = (x < 256) × AllBytes xs

-- `memcpy(&v, data + off, w)`
unfoldable pub load : ℕ → List ℕ → ℕ → ℕ
load zero buf off = 0
load (suc w) buf off = get_or buf off 0 + 256 * load w buf (off + 1)

-- `memcpy(data + off, &v, w)`
unfoldable pub store : ℕ → List ℕ → ℕ → ℕ → List ℕ
store zero buf off v = buf
store (suc w) buf off v = store w (set buf off (v % 256)) (off + 1) (v / 256)

-- the bytes of an unsigned integer, the lowest first
abbrev pub le : ℕ → ℕ → List ℕ
le zero v = []
le (suc w) v = (v % 256) ∷ le w (v / 256)

get_or-lt : (buf : List ℕ) (i : ℕ) → AllBytes buf → get_or buf i 0 < 256
get_or-lt [] i h = omega arith
get_or-lt (x ∷ xs) zero h = h.0
get_or-lt (x ∷ xs) (suc i) h = get_or-lt xs i h.1

set-AllBytes : (buf : List ℕ) (i v : ℕ) → AllBytes buf → v < 256 → AllBytes (set buf i v)
set-AllBytes [] i v h q = tt
set-AllBytes (x ∷ xs) zero v h q = (q, h.1)
set-AllBytes (x ∷ xs) (suc i) v h q = (h.0, set-AllBytes xs i v h.1 q)

pub load-lt : (w : ℕ) (buf : List ℕ) (off : ℕ) → AllBytes buf → load w buf off < 256 ^ w
unfolding load
load-lt zero buf off h = omega arith
load-lt (suc w) buf off h =
    omega (arith, pow-suc 256 w, get_or-lt buf off h, load-lt w buf (off + 1) h)

pub length-store : (w : ℕ) (buf : List ℕ) (off v : ℕ) → length (store w buf off v) ≡ length buf
unfolding store
length-store zero buf off v = refl
length-store (suc w) buf off v = length-store w _ (off + 1) (v / 256) ∙ length-set buf off (v % 256)

pub store-AllBytes :
    (w : ℕ) (buf : List ℕ) (off v : ℕ) → AllBytes buf → AllBytes (store w buf off v)
unfolding store
store-AllBytes zero buf off v h = h
store-AllBytes (suc w) buf off v h =
    store-AllBytes w _ (off + 1) (v / 256) (set-AllBytes buf off (v % 256) h (omega arith))

get_or-store_other :
    (w : ℕ) (buf : List ℕ) (off v i : ℕ)
    → (i < off) ⊎ (off + w ≤ i)
    → get_or (store w buf off v) i 0 ≡ get_or buf i 0
unfolding store
get_or-store_other zero buf off v i h = refl
get_or-store_other (suc w) buf off v i h =
    get_or-store_other w (set buf off (v % 256)) (off + 1) (v / 256) i (omega arith)
    ∙ get_or-set_ne buf off i (v % 256) 0 (omega arith)

-- A write leaves the integers beside it alone.
pub load-store_other :
    (w w' : ℕ) (buf : List ℕ) (off off' v : ℕ)
    → (off' + w' ≤ off) ⊎ (off + w ≤ off')
    → load w' (store w buf off v) off' ≡ load w' buf off'
unfolding load
load-store_other w zero buf off off' v h = refl
load-store_other w (suc w') buf off off' v h = omega (
  arith,
  get_or-store_other w buf off v off' (omega arith),
  load-store_other w w' buf off (off' + 1) v (omega arith),
)

-- What was written is read back.
pub load-store_self :
    (w : ℕ) (buf : List ℕ) (off v : ℕ)
    → off + w ≤ length buf
    → v < 256 ^ w
    → load w (store w buf off v) off ≡ v
unfolding load store
load-store_self zero buf off v h q = omega arith
load-store_self (suc w) buf off v h q =
    let buf' = set buf off (v % 256) in
    omega (
      arith,
      pow-suc 256 w,
      length-set buf off (v % 256),
      get_or-set_self buf off (v % 256) 0 (omega arith),
      get_or-store_other w buf' (off + 1) (v / 256) off (omega arith),
      load-store_self w buf' (off + 1) (v / 256) (omega (arith, length-set buf off (v % 256)))
          (omega (arith, pow-suc 256 w)),
    )

set-store_comm :
    (w : ℕ) (buf : List ℕ) (off v i x : ℕ)
    → i < off
    → set (store w buf off v) i x ≡ store w (set buf i x) off v
unfolding store
set-store_comm zero buf off v i x h = refl
set-store_comm (suc w) buf off v i x h =
    set-store_comm w (set buf off (v % 256)) (off + 1) (v / 256) i x (omega arith)
    ∙ ap (λ b. store w b (off + 1) (v / 256)) (set-set_comm buf off i (v % 256) x (omega arith))

-- The last of two writes to a place remains.
pub store-store_self :
    (w : ℕ) (buf : List ℕ) (off u v : ℕ) → store w (store w buf off u) off v ≡ store w buf off v
unfolding store
store-store_self zero buf off u v = refl
store-store_self (suc w) buf off u v =
    rw
      (
        set-store_comm w (set buf off (u % 256)) (off + 1) (u / 256) off (v % 256) (omega arith),
        set-set_self buf off (u % 256) (v % 256),
      )
      (store-store_self w (set buf off (v % 256)) (off + 1) (u / 256) (v / 256))

-- Writing back what was read changes nothing.
pub store-load :
    (w : ℕ) (buf : List ℕ) (off : ℕ) → AllBytes buf → store w buf off (load w buf off) ≡ buf
unfolding store load
store-load zero buf off h = refl
store-load (suc w) buf off h =
    let b = get_or buf off 0 in
    let r = load w buf (off + 1) in
    let low : (b + 256 * r) % 256 ≡ b = omega (arith, get_or-lt buf off h) in
    let high : (b + 256 * r) / 256 ≡ r = omega (arith, get_or-lt buf off h) in
    rw (low, high, set-get_or buf off 0) (store-load w buf (off + 1) h)

-- A wide read is two narrower ones, the low half first.
pub load_split :
    (w w' : ℕ) (buf : List ℕ) (off : ℕ)
    → load (w + w') buf off ≡ load w buf off + 256 ^ w * load w' buf (off + w)
unfolding load
load_split zero w' buf off =
    let e : zero + w' ≡ w' = omega arith in
    let o : off + zero ≡ off = omega arith in rw (e, o) (omega arith)
load_split (suc w) w' buf off =
    let e : suc w + w' ≡ suc (w + w') = omega arith in
    let o : off + suc w ≡ off + 1 + w = omega arith in
    rw (e, o)
      (omega (
        arith,
        pow-suc 256 w,
        ap (λ (t : ℕ). t * load w' buf (off + 1 + w)) (pow-suc 256 w),
        load_split w w' buf (off + 1),
      ))

-- A wide write is two narrower ones.
pub store_split :
    (w w' : ℕ) (buf : List ℕ) (off lo hi : ℕ)
    → lo < 256 ^ w
    → store (w + w') buf off (lo + 256 ^ w * hi) ≡ store w' (store w buf off lo) (off + w) hi
unfolding store
store_split zero w' buf off lo hi h =
    let e : zero + w' ≡ w' = omega arith in
    let o : off + zero ≡ off = omega arith in
    let v : lo + 256 ^ 0 * hi ≡ hi = omega arith in rw (e, o, v)
store_split (suc w) w' buf off lo hi h =
    let e : suc w + w' ≡ suc (w + w') = omega arith in
    let o : off + suc w ≡ off + 1 + w = omega arith in
    let p : 256 ^ suc w * hi ≡ 256 * (256 ^ w * hi) =
      omega (arith, ap (λ (t : ℕ). t * hi) (pow-suc 256 w)) in
    let low : (lo + 256 ^ suc w * hi) % 256 ≡ lo % 256 = omega arith in
    let high : (lo + 256 ^ suc w * hi) / 256 ≡ lo / 256 + 256 ^ w * hi = omega arith in
    rw (e, o, low, high, store)
      (store_split w w' _ (off + 1) (lo / 256) hi (omega (arith, pow-suc 256 w)))

-- Writes to places that do not overlap can be exchanged.
pub store-store_comm :
    (w w' : ℕ) (buf : List ℕ) (off off' v v' : ℕ)
    → off + w ≤ off'
    → store w (store w' buf off' v') off v ≡ store w' (store w buf off v) off' v'
unfolding store
store-store_comm zero w' buf off off' v v' h = refl
store-store_comm (suc w) w' buf off off' v v' h =
    ap (λ b. store w b (off + 1) (v / 256))
      (set-store_comm w' buf off' v' off (v % 256) (omega arith))
    ∙ store-store_comm w w' (set buf off (v % 256)) (off + 1) off' (v / 256) v' (omega arith)
