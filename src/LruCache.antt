-- ===== src/LruCache.antt =====
-- src/core/lru_cache.hpp: the byte-bounded cache of decoded blobs. `std::list` nodes carry an
-- identity, which is what the iterators in the hash map hold; every method runs under the mutex, so
-- a call is one step. The hash map is a function, and `KeyEqual` a decidable equality.
pub mod Lists
pub mod Nodes
pub mod Invariant
pub mod Insert
pub mod Operations
pub mod Reads
mod Tests
use Prim.Native.Nat.{ℕ, zero, suc, ◌+◌, ◌-◌, ◌%◌, ◌^◌}
use mathlib.Core.Logic.{ite}
use mathlib.Core.Option
use dewfall.Prelude.{
  Bool, true, false, Option, none, some, List, [], ◌∷◌, ◌++◌, ltb, ◌==◌, if◌then◌else◌, length,
}

-- `entry_t`
pub record Entry (K V : Type 0) : Type 0 where
  pub key : K
  pub value : V
  pub size : ℕ

-- A list node: its identity, and the entry in it.
abbrev pub Node : Type 0 → Type 0 → Type 0
Node K V = ℕ × Entry K V

pub record LruCache (K V : Type 0) : Type 0 where
  pub max_bytes : ℕ
  pub current_bytes : ℕ
  pub hit_count : ℕ
  pub miss_count : ℕ
  pub lru_list : List (Node K V)
  pub index : K → Option ℕ
  pub next_node : ℕ

-- `uint64_t` arithmetic wraps.
abbrev pub u64_sub : ℕ → ℕ → ℕ
u64_sub a b = (a + 2 ^ 64 - b) % 2 ^ 64

abbrev pub u64_add : ℕ → ℕ → ℕ
u64_add a b = (a + b) % 2 ^ 64

module _ {K V : Type 0} where
  -- `*it`
  unfoldable pub find_node : ℕ → List (Node K V) → Option (Entry K V)
  find_node i [] = none
  find_node i ((j, e) ∷ l) = if j == i then some e else find_node i l

  -- `_lru_list.erase(it)`
  unfoldable pub erase_node : ℕ → List (Node K V) → List (Node K V)
  erase_node i [] = []
  erase_node i ((j, e) ∷ l) = if j == i then l else (j, e) ∷ erase_node i l

  -- `it->second->value = ...; it->second->size = ...`
  unfoldable pub assign_node : ℕ → V → ℕ → List (Node K V) → List (Node K V)
  assign_node i v s [] = []
  assign_node i v s ((j, e) ∷ l) =
      if j == i then (j, record e { value = v; size = s }) ∷ l else (j, e) ∷ assign_node i v s l

  -- `_lru_list.splice(_lru_list.begin(), _lru_list, it)`
  unfoldable pub splice_front : ℕ → List (Node K V) → List (Node K V)
  splice_front i l = elim (find_node i l) [ none ↦ l | some e ↦ (i, e) ∷ erase_node i l ]

  -- `_lru_list.back()` and `_lru_list.pop_back()`
  unfoldable pub pop_back : List (Node K V) → Option (List (Node K V) × Node K V)
  pop_back [] = none
  pop_back (x ∷ []) = some ([], x)
  pop_back (x ∷ y ∷ l) = Option.map (λ r. (x ∷ r.0, r.1)) (pop_back (y ∷ l))

  unfoldable pub node_size : ℕ → List (Node K V) → ℕ
  node_size i l = elim (find_node i l) [ none ↦ 0 | some e ↦ e.size ]

  -- the constructor
  unfoldable pub create : ℕ → LruCache K V
  create max_bytes = record {
    max_bytes = max_bytes;
    current_bytes = 0;
    hit_count = 0;
    miss_count = 0;
    lru_list = [];
    index = λ _. none;
    next_node = 0;
  }

  unfoldable pub clear : LruCache K V → LruCache K V
  clear c = record c { index = λ _. none; lru_list = []; current_bytes = 0 }

abbrev pub update : {K : Type 0} → Discrete K → (K → Option ℕ) → K → Option ℕ → K → Option ℕ
update dec m k v q = ite (dec k q) v (m q)

module _ {K V : Type 0} (dec : Discrete K) where
  -- A miss is counted; a hit is counted, and moved to the front unless `promote` is false.
  unfoldable pub get : LruCache K V → K → Bool → LruCache K V × Option V
  get c key promote = elim (c.index key) [
    | none ↦ (record c { miss_count = u64_add c.miss_count 1 }, none)
    | some it ↦
        let l = if promote then splice_front it c.lru_list else c.lru_list in
        (
          record c { hit_count = u64_add c.hit_count 1; lru_list = l },
          Option.map (λ e. e.value) (find_node it l),
        )
  ]

  -- one round of `evict`
  unfoldable pub evict_back : LruCache K V → List (Node K V) → Node K V → LruCache K V
  evict_back c rest back = record c {
    current_bytes = u64_sub c.current_bytes back.1.size;
    index = update dec c.index back.1.key none;
    lru_list = rest;
  }

  -- The loop ends when the list is empty, so its length is fuel enough.
  unfoldable pub evict_loop : ℕ → LruCache K V → LruCache K V
  evict_loop zero c = c
  evict_loop (suc fuel) c =
      if ltb c.max_bytes c.current_bytes
      then elim (pop_back c.lru_list) [
        | none ↦ c
        | some (rest, back) ↦ evict_loop fuel (evict_back c rest back)
      ]
      else c

  unfoldable pub evict : LruCache K V → LruCache K V
  evict c = evict_loop (length c.lru_list) c

  -- `put` before its call of `evict`
  unfoldable pub insert : LruCache K V → K → V → ℕ → Bool → LruCache K V
  insert c key value size hot = elim (c.index key) [
    | some it ↦
        let l = assign_node it value size c.lru_list in
        record c {
          current_bytes = u64_add (u64_sub c.current_bytes (node_size it c.lru_list)) size;
          lru_list = if hot then splice_front it l else l;
        }
    | none ↦
        let node : Node K V = (c.next_node, record { key = key; value = value; size = size }) in
        record c {
          lru_list = if hot then node ∷ c.lru_list else c.lru_list ++ (node ∷ []);
          index = update dec c.index key (some c.next_node);
          next_node = c.next_node + 1;
          current_bytes = u64_add c.current_bytes size;
        }
  ]

  unfoldable pub put : LruCache K V → K → V → ℕ → Bool → LruCache K V
  put c key value size hot = evict (insert c key value size hot)

  unfoldable pub erase : LruCache K V → K → LruCache K V
  erase c key = elim (c.index key) [
    | none ↦ c
    | some it ↦ record c {
      current_bytes = u64_sub c.current_bytes (node_size it c.lru_list);
      lru_list = erase_node it c.lru_list;
      index = update dec c.index key none;
    }
  ]

  unfoldable pub set_max_bytes : LruCache K V → ℕ → LruCache K V
  set_max_bytes c max_bytes = evict (record c { max_bytes = max_bytes })
