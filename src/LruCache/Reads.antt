-- ===== src/LruCache/Reads.antt =====
-- What `get` returns and what it does to the entries, by key.
use Prim.Native.Nat.{ℕ, ◌+◌, ◌^◌, ◌≤◌, ◌<◌}
use mathlib.Core.Option
use dewfall.Prelude.{
  Bool, true, none, some, List, [], ◌∷◌, ◌++◌, ◌≡◌, arith, sym, ◌∙◌, inl, inr, Option-cases,
  if◌then◌else◌,
}
use dewfall.LruCache.{
  Entry, Node, LruCache, find_node, erase_node, splice_front, get, put, insert, evict, u64_add,
  assign_node,
}
use dewfall.LruCache.Lists.{
  entries, total, node_of, lookup, remove, find_node-node_of, lookup_of_none, entries-erase_node,
}
use dewfall.LruCache.Nodes.{splice_front_found}
use dewfall.LruCache.Invariant.{IsValid}
use dewfall.LruCache.Insert.{insert-IsValid, put-IsValid}
use dewfall.LruCache.Operations.{evict_lem, insert-max_bytes}

module _ {K V : Type 0} (dec : Discrete K) where
  -- the entries after a `get`
  unfoldable pub after_get : List (Entry K V) → K → Bool → List (Entry K V)
  after_get l key promote = elim (lookup dec key l) [
    | none ↦ l
    | some e ↦ if promote then e ∷ remove dec key l else l
  ]

  found-splice_front :
      (i : ℕ) (l : List (Node K V)) (e : Entry K V)
      → find_node i l ≡ some e
      → find_node i (splice_front i l) ≡ some e
  found-splice_front i l e h = rw (splice_front_found i l e h) (unfold find_node in ground (arith))

  -- `get` returns the value of the key's entry, or nothing where there is none; it moves a found
  -- entry to the front if it is to promote it, changes no entry else, and counts a hit or a miss.
  pub get_lem :
      (c : LruCache K V) (key : K) (promote : Bool)
      → IsValid dec c
      → let (c', result) = get dec c key promote in
        (result ≡ Option.map (λ e. e.value) (lookup dec key (entries c.lru_list)))
        × (entries c'.lru_list ≡ after_get (entries c.lru_list) key promote)
        × (c'.hit_count ≡ elim (lookup dec key (entries c.lru_list)) [
          | none ↦ c.hit_count
          | some _ ↦ u64_add c.hit_count 1
        ])
        × (c'.miss_count ≡ elim (lookup dec key (entries c.lru_list)) [
          | none ↦ u64_add c.miss_count 1
          | some _ ↦ c.miss_count
        ])
  unfolding get after_get
  get_lem c key promote v = elim (Option-cases (c.index key)) [
    | inl e ↦ ground (arith, lookup_of_none dec key c.lru_list (sym (v.indexed key) ∙ e))
    | inr (it, e) ↦
        let here : node_of dec key c.lru_list ≡ some it = sym (v.indexed key) ∙ e in
        let (x, found, key_eq, looked) = find_node-node_of dec key it c.lru_list v.distinct here in
        ground (
          arith,
          splice_front_found it c.lru_list x found,
          found-splice_front it c.lru_list x found,
          entries-erase_node dec key it c.lru_list v.distinct here,
        )
  ]

  find_node-assign_node :
      (i : ℕ) (value : V) (size : ℕ) (l : List (Node K V)) (e : Entry K V)
      → find_node i l ≡ some e
      → find_node i (assign_node i value size l) ≡ some (record e { value = value; size = size })
  unfolding find_node assign_node
  find_node-assign_node i value size [] e h = absurd (ground arith)
  find_node-assign_node i value size ((j, x) ∷ l) e h =
      ground (arith, find_node-assign_node i value size l e)

  -- A hot insertion leaves the new entry at the front.
  insert-front :
      (c : LruCache K V) (key : K) (value : V) (size : ℕ)
      → IsValid dec c
      → (it : ℕ) × (l : List (Node K V)) × ((insert dec c key value size true).lru_list
          ≡ (it, record { key = key; value = value; size = size }) ∷ l)
  insert-front c key value size v = elim (Option-cases (c.index key)) [
    | inl e ↦ (c.next_node, c.lru_list, unfold insert in rw (e, insert))
    | inr (it, e) ↦
        let here : node_of dec key c.lru_list ≡ some it = sym (v.indexed key) ∙ e in
        let (x, found, key_eq, looked) = find_node-node_of dec key it c.lru_list v.distinct here in
        let l = assign_node it value size c.lru_list in
        (
          it,
          erase_node it l,
          unfold insert in
              rw (e, insert)
                (splice_front_found it l _ (find_node-assign_node it value size c.lru_list x found)
                  ∙ rw key_eq),
        )
  ]

  front_kept :
      (max_bytes : ℕ) (n : Node K V) (l kept dropped : List (Node K V))
      → n ∷ l ≡ kept ++ dropped
      → n.1.size ≤ max_bytes
      → ((m : Node K V) (rest : List (Node K V))
          → dropped ≡ m ∷ rest
          → max_bytes < total kept + m.1.size)
      → (l' : List (Node K V)) × (kept ≡ n ∷ l')
  front_kept max_bytes n l [] dropped e h first =
      let bad : max_bytes < 0 + n.1.size = first n l (sym e) in absurd (omega arith)
  front_kept max_bytes n l (m ∷ kept) dropped e h first = (kept, ground arith)

  -- What is put hot and fits the limit is found by the next `get`, whatever was evicted for it.
  pub get-put :
      (c : LruCache K V) (key : K) (value : V) (size : ℕ) (promote : Bool)
      → IsValid dec c
      → total c.lru_list + size < 2 ^ 64
      → size ≤ c.max_bytes
      → (get dec (put dec c key value size true) key promote).1 ≡ some value
  get-put c key value size promote v room fits =
      let c' = insert dec c key value size true in
      let v' = insert-IsValid dec c key value size v room true in
      let (it, l, front) = insert-front c key value size v in
      let (dropped, split, within, same, first) = evict_lem dec c' v' in
      let n : Node K V = (it, record { key = key; value = value; size = size }) in
      let (l', kept) =
        front_kept c'.max_bytes n l (evict dec c').lru_list dropped (sym front ∙ split)
          (omega (arith, insert-max_bytes dec c key value size true)) first in
      (get_lem (put dec c key value size true) key promote
        (put-IsValid dec c key value size v room true)).0
      ∙ unfold put lookup in rw kept (ground arith)
