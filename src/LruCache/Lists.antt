-- ===== src/LruCache/Lists.antt =====
-- The list of nodes read as entries by key: what the abstract view of the cache is.
use Prim.Native.Nat.{ℕ, ◌+◌, ◌<◌}
use mathlib.Core.Logic.{ite}
use dewfall.Prelude.{Option, none, some, List, [], ◌∷◌, ◌≡◌, refl, ◌≢◌, arith}
use dewfall.LruCache.{Entry, Node, find_node, erase_node, assign_node}

module _ {K V : Type 0} where
  abbrev pub entries : List (Node K V) → List (Entry K V)
  entries [] = []
  entries (n ∷ l) = n.1 ∷ entries l

  -- the bytes of all entries
  abbrev pub total : List (Node K V) → ℕ
  total [] = 0
  total (n ∷ l) = n.1.size + total l

  abbrev pub NoKey : K → List (Node K V) → Type 0
  NoKey k [] = Unit
  NoKey k (n ∷ l) = (n.1.key ≢ k) × NoKey k l

  abbrev pub NoNode : ℕ → List (Node K V) → Type 0
  NoNode i [] = Unit
  NoNode i (n ∷ l) = (n.0 ≢ i) × NoNode i l

  -- No two nodes share an identity or a key.
  abbrev pub AllDistinct : List (Node K V) → Type 0
  AllDistinct [] = Unit
  AllDistinct (n ∷ l) = NoKey n.1.key l × NoNode n.0 l × AllDistinct l

  abbrev pub NodesBelow : ℕ → List (Node K V) → Type 0
  NodesBelow b [] = Unit
  NodesBelow b (n ∷ l) = (n.0 < b) × NodesBelow b l

module _ {K V : Type 0} (dec : Discrete K) where
  -- the node that holds a key
  unfoldable pub node_of : K → List (Node K V) → Option ℕ
  node_of k [] = none
  node_of k ((i, e) ∷ l) = ite (dec e.key k) (some i) (node_of k l)

  -- the entry of a key
  unfoldable pub lookup : K → List (Entry K V) → Option (Entry K V)
  lookup k [] = none
  lookup k (e ∷ l) = ite (dec e.key k) (some e) (lookup k l)

  unfoldable pub remove : K → List (Entry K V) → List (Entry K V)
  remove k [] = []
  remove k (e ∷ l) = ite (dec e.key k) l (e ∷ remove k l)

  -- A key that no node holds has no entry.
  pub lookup_of_none :
      (k : K) (l : List (Node K V)) → node_of k l ≡ none → lookup k (entries l) ≡ none
  unfolding node_of lookup
  lookup_of_none k [] h = refl
  lookup_of_none k ((i, e) ∷ l) h = ground (arith, lookup_of_none k l)

  pub NoKey-of_none : (k : K) (l : List (Node K V)) → node_of k l ≡ none → NoKey k l
  unfolding node_of
  NoKey-of_none k [] h = tt
  NoKey-of_none k ((i, e) ∷ l) h = (ground arith, NoKey-of_none k l (ground arith))

  pub none_of_NoKey : (k : K) (l : List (Node K V)) → NoKey k l → node_of k l ≡ none
  unfolding node_of
  none_of_NoKey k [] h = refl
  none_of_NoKey k ((i, e) ∷ l) h = ground (arith, none_of_NoKey k l)

  pub node_of-ne :
      (k : K) (i j : ℕ) (l : List (Node K V)) → NoNode i l → node_of k l ≡ some j → j ≢ i
  unfolding node_of
  node_of-ne k i j [] h e = absurd (ground arith)
  node_of-ne k i j ((n, e) ∷ l) h p = ground (arith, node_of-ne k i j l)

  -- The node of a key in the list holds the key's entry, and stands for it in every change.
  pub find_node-node_of :
      (k : K) (i : ℕ) (l : List (Node K V))
      → AllDistinct l
      → node_of k l ≡ some i
      → (e : Entry K V) × (find_node i l ≡ some e) × (e.key ≡ k) × (lookup k (entries l) ≡ some e)
  unfolding node_of lookup find_node
  find_node-node_of k i [] d h = absurd (ground arith)
  find_node-node_of k i ((j, e) ∷ l) d h = elim (dec e.key k) [
    | yes p ↦ (e, ground arith, p, ground arith)
    | no p ↦
        let tail : node_of k l ≡ some i = ground arith in
        let (e', found, key, looked) = find_node-node_of k i l d.2 tail in
        let far : i ≢ j = node_of-ne k j i l d.1 tail in (e', ground arith, key, ground arith)
  ]

  pub entries-erase_node :
      (k : K) (i : ℕ) (l : List (Node K V))
      → AllDistinct l
      → node_of k l ≡ some i
      → entries (erase_node i l) ≡ remove k (entries l)
  unfolding node_of remove erase_node
  entries-erase_node k i [] d h = absurd (ground arith)
  entries-erase_node k i ((j, e) ∷ l) d h = elim (dec e.key k) [
    | yes p ↦ ground arith
    | no p ↦
        let tail : node_of k l ≡ some i = ground arith in
        let far : i ≢ j = node_of-ne k j i l d.1 tail in ground (arith, entries-erase_node k i l)
  ]

  pub node_of-erase_node :
      (k q : K) (i : ℕ) (l : List (Node K V))
      → AllDistinct l
      → node_of k l ≡ some i
      → node_of q (erase_node i l) ≡ ite (dec k q) none (node_of q l)
  unfolding node_of erase_node
  node_of-erase_node k q i [] d h = absurd (ground arith)
  node_of-erase_node k q i ((j, e) ∷ l) d h = elim (dec e.key k) [
    | yes p ↦ ground (arith, none_of_NoKey k l)
    | no p ↦
        let tail : node_of k l ≡ some i = ground arith in
        let far : i ≢ j = node_of-ne k j i l d.1 tail in ground (arith, node_of-erase_node k q i l)
  ]

  pub node_of-assign_node :
      (q : K) (i : ℕ) (v : V) (s : ℕ) (l : List (Node K V))
      → node_of q (assign_node i v s l) ≡ node_of q l
  unfolding node_of assign_node
  node_of-assign_node q i v s [] = refl
  node_of-assign_node q i v s ((j, e) ∷ l) = ground (arith, node_of-assign_node q i v s l)
