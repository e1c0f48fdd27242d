-- ===== src/LruCache/Nodes.antt =====
-- What each change of the node list keeps: the nodes stay distinct, and the byte total follows.
use Prim.Native.Nat.{ℕ, ◌+◌, ◌≤◌, ◌<◌}
use mathlib.Core.Logic.{ite}
use dewfall.Prelude.{
  none, some, List, [], ◌∷◌, ◌++◌, ◌≡◌, refl, ◌≢◌, arith, ap, sym, Option-cases, inl, inr,
}
use dewfall.LruCache.{
  Entry, Node, find_node, erase_node, assign_node, splice_front, pop_back, node_size,
}
use dewfall.LruCache.Lists.{
  total, NoKey, NoNode, AllDistinct, NodesBelow, node_of, NoKey-of_none, find_node-node_of,
  node_of-erase_node,
}

module _ {K V : Type 0} where
  erase_node-NoKey : (k : K) (i : ℕ) (l : List (Node K V)) → NoKey k l → NoKey k (erase_node i l)
  unfolding erase_node
  erase_node-NoKey k i [] h = tt
  erase_node-NoKey k i ((j, e) ∷ l) h = ground (arith, erase_node-NoKey k i l)

  erase_node-NoNode : (m i : ℕ) (l : List (Node K V)) → NoNode m l → NoNode m (erase_node i l)
  unfolding erase_node
  erase_node-NoNode m i [] h = tt
  erase_node-NoNode m i ((j, e) ∷ l) h = ground (arith, erase_node-NoNode m i l)

  pub erase_node-NodesBelow :
      (b i : ℕ) (l : List (Node K V)) → NodesBelow b l → NodesBelow b (erase_node i l)
  unfolding erase_node
  erase_node-NodesBelow b i [] h = tt
  erase_node-NodesBelow b i ((j, e) ∷ l) h = ground (arith, erase_node-NodesBelow b i l)

  pub erase_node-AllDistinct :
      (i : ℕ) (l : List (Node K V)) → AllDistinct l → AllDistinct (erase_node i l)
  unfolding erase_node
  erase_node-AllDistinct i [] h = tt
  erase_node-AllDistinct i ((j, e) ∷ l) h =
      ground
        (arith, erase_node-AllDistinct i l, erase_node-NoKey e.key i l, erase_node-NoNode j i l)

  erased-NoNode : (i : ℕ) (l : List (Node K V)) → AllDistinct l → NoNode i (erase_node i l)
  unfolding erase_node
  erased-NoNode i [] h = tt
  erased-NoNode i ((j, e) ∷ l) h = ground (arith, erased-NoNode i l)

  pub total-erase_node :
      (i : ℕ) (l : List (Node K V)) → total (erase_node i l) + node_size i l ≡ total l
  unfolding erase_node node_size find_node
  total-erase_node i [] = omega arith
  total-erase_node i ((j, e) ∷ l) = ground (arith, total-erase_node i l)

  assign_node-NoKey :
      (k : K) (i : ℕ) (v : V) (s : ℕ) (l : List (Node K V))
      → NoKey k l
      → NoKey k (assign_node i v s l)
  unfolding assign_node
  assign_node-NoKey k i v s [] h = tt
  assign_node-NoKey k i v s ((j, e) ∷ l) h = ground (arith, assign_node-NoKey k i v s l)

  assign_node-NoNode :
      (m i : ℕ) (v : V) (s : ℕ) (l : List (Node K V)) → NoNode m l → NoNode m (assign_node i v s l)
  unfolding assign_node
  assign_node-NoNode m i v s [] h = tt
  assign_node-NoNode m i v s ((j, e) ∷ l) h = ground (arith, assign_node-NoNode m i v s l)

  pub assign_node-NodesBelow :
      (b i : ℕ) (v : V) (s : ℕ) (l : List (Node K V))
      → NodesBelow b l
      → NodesBelow b (assign_node i v s l)
  unfolding assign_node
  assign_node-NodesBelow b i v s [] h = tt
  assign_node-NodesBelow b i v s ((j, e) ∷ l) h = ground (arith, assign_node-NodesBelow b i v s l)

  pub assign_node-AllDistinct :
      (i : ℕ) (v : V) (s : ℕ) (l : List (Node K V))
      → AllDistinct l
      → AllDistinct (assign_node i v s l)
  unfolding assign_node
  assign_node-AllDistinct i v s [] h = tt
  assign_node-AllDistinct i v s ((j, e) ∷ l) h = ground (
    arith,
    assign_node-AllDistinct i v s l,
    assign_node-NoKey e.key i v s l,
    assign_node-NoNode j i v s l,
  )

  pub total-assign_node :
      (i : ℕ) (v : V) (s : ℕ) (l : List (Node K V)) (e : Entry K V)
      → find_node i l ≡ some e
      → total (assign_node i v s l) + node_size i l ≡ total l + s
  unfolding assign_node node_size find_node
  total-assign_node i v s [] e h = absurd (ground arith)
  total-assign_node i v s ((j, e') ∷ l) e h = ground (arith, total-assign_node i v s l e)

  pub node_size_found :
      (i : ℕ) (l : List (Node K V)) (e : Entry K V)
      → find_node i l ≡ some e
      → node_size i l ≡ e.size
  unfolding node_size
  node_size_found i l e h = rw (h, node_size)

  pub splice_front_found :
      (i : ℕ) (l : List (Node K V)) (e : Entry K V)
      → find_node i l ≡ some e
      → splice_front i l ≡ (i, e) ∷ erase_node i l
  unfolding splice_front
  splice_front_found i l e h = rw (h, splice_front)

  found-below :
      (b i : ℕ) (l : List (Node K V)) (e : Entry K V)
      → find_node i l ≡ some e
      → NodesBelow b l
      → i < b
  unfolding find_node
  found-below b i [] e h p = absurd (ground arith)
  found-below b i ((j, e') ∷ l) e h p = ground (arith, found-below b i l e)

  pub node_size-le : (i : ℕ) (l : List (Node K V)) → node_size i l ≤ total l
  node_size-le i l = omega (arith, total-erase_node i l)

  pub pop_back-append :
      (l rest : List (Node K V)) (b : Node K V) → pop_back l ≡ some (rest, b) → l ≡ rest ++ b ∷ []
  unfolding pop_back
  pop_back-append [] rest b h = absurd (ground arith)
  pop_back-append (x ∷ []) rest b h = ground arith
  pop_back-append (x ∷ y ∷ l) rest b h = elim (Option-cases (pop_back (y ∷ l))) [
    | inl e ↦ absurd (ground arith)
    | inr ((r, b'), e) ↦
        let ih : y ∷ l ≡ r ++ b' ∷ [] = pop_back-append (y ∷ l) r b' e in
        let first : rest ≡ x ∷ r = ground arith in
        let last : b ≡ b' = ground arith in rw (first, last) (ap (◌∷◌ x) ih)
  ]

  pub total-append : (l m : List (Node K V)) → total (l ++ m) ≡ total l + total m
  total-append [] m = omega arith
  total-append (n ∷ l) m = omega (arith, total-append l m)

  pub append-NodesBelow :
      (b : ℕ) (l m : List (Node K V)) → NodesBelow b (l ++ m) → NodesBelow b l × NodesBelow b m
  append-NodesBelow b [] m h = (tt, h)
  append-NodesBelow b (n ∷ l) m h = ground (arith, append-NodesBelow b l m)

  pub push_back-NodesBelow :
      (b : ℕ) (l : List (Node K V)) (n : Node K V)
      → NodesBelow b l
      → n.0 < b
      → NodesBelow b (l ++ n ∷ [])
  push_back-NodesBelow b [] n h k = (k, tt)
  push_back-NodesBelow b (m ∷ l) n h k = (h.0, push_back-NodesBelow b l n h.1 k)

  pub pop_back-none : (l : List (Node K V)) → pop_back l ≡ none → l ≡ []
  unfolding pop_back
  pop_back-none [] h = refl
  pop_back-none (x ∷ []) h = absurd (ground arith)
  pop_back-none (x ∷ y ∷ l) h = elim (Option-cases (pop_back (y ∷ l))) [
    | inl e ↦ absurd (ground (arith, pop_back-none (y ∷ l)))
    | inr (r, e) ↦ absurd (ground arith)
  ]

  push_back-NoKey :
      (k : K) (l : List (Node K V)) (n : Node K V) → NoKey k l → n.1.key ≢ k → NoKey k (l ++ n ∷ [])
  push_back-NoKey k [] n h p = (p, tt)
  push_back-NoKey k (m ∷ l) n h p = (h.0, push_back-NoKey k l n h.1 p)

  push_back-NoNode :
      (i : ℕ) (l : List (Node K V)) (n : Node K V) → NoNode i l → n.0 ≢ i → NoNode i (l ++ n ∷ [])
  push_back-NoNode i [] n h p = (p, tt)
  push_back-NoNode i (m ∷ l) n h p = (h.0, push_back-NoNode i l n h.1 p)

  pub push_back-AllDistinct :
      (l : List (Node K V)) (n : Node K V)
      → AllDistinct l
      → NoKey n.1.key l
      → NoNode n.0 l
      → AllDistinct (l ++ n ∷ [])
  push_back-AllDistinct [] n h p q = (tt, tt, tt)
  push_back-AllDistinct (m ∷ l) n h p q = (
    push_back-NoKey m.1.key l n h.0 (λ e. p.0 (sym e)),
    push_back-NoNode m.0 l n h.1 (λ e. q.0 (sym e)),
    push_back-AllDistinct l n h.2 p.1 q.1,
  )

  popped-NoKey :
      (k : K) (l : List (Node K V)) (n : Node K V)
      → NoKey k (l ++ n ∷ [])
      → NoKey k l × (n.1.key ≢ k)
  popped-NoKey k [] n h = (tt, h.0)
  popped-NoKey k (m ∷ l) n h = let (t, last) = popped-NoKey k l n h.1 in ((h.0, t), last)

  popped-NoNode : (i : ℕ) (l : List (Node K V)) (n : Node K V) → NoNode i (l ++ n ∷ []) → NoNode i l
  popped-NoNode i [] n h = tt
  popped-NoNode i (m ∷ l) n h = (h.0, popped-NoNode i l n h.1)

  pub popped-AllDistinct :
      (l : List (Node K V)) (n : Node K V)
      → AllDistinct (l ++ n ∷ [])
      → AllDistinct l × NoKey n.1.key l
  popped-AllDistinct [] n h = (tt, tt)
  popped-AllDistinct (m ∷ l) n h =
      let (t, none_left) = popped-AllDistinct l n h.2 in
      let (first, ne) = popped-NoKey m.1.key l n h.0 in
      ((first, popped-NoNode m.0 l n h.1, t), (λ e. ne (sym e), none_left))

  pub below-NoNode : (b : ℕ) (l : List (Node K V)) → NodesBelow b l → NoNode b l
  below-NoNode b [] h = tt
  below-NoNode b (n ∷ l) h = (omega arith, below-NoNode b l h.1)

  pub NodesBelow-mono : (b : ℕ) (l : List (Node K V)) → NodesBelow b l → NodesBelow (b + 1) l
  NodesBelow-mono b [] h = tt
  NodesBelow-mono b (n ∷ l) h = (omega arith, NodesBelow-mono b l h.1)

module _ {K V : Type 0} (dec : Discrete K) where
  pub node_of-push_back :
      (q : K) (l : List (Node K V)) (n : Node K V)
      → NoKey n.1.key l
      → node_of dec q (l ++ n ∷ []) ≡ ite (dec n.1.key q) (some n.0) (node_of dec q l)
  unfolding node_of
  node_of-push_back q [] n h = refl
  node_of-push_back q ((j, e) ∷ l) n h = ground (arith, node_of-push_back q l n)

  pub node_of-cons :
      (q : K) (i : ℕ) (e : Entry K V) (l : List (Node K V))
      → node_of dec q ((i, e) ∷ l) ≡ ite (dec e.key q) (some i) (node_of dec q l)
  unfolding node_of
  node_of-cons q i e l = refl

  spliced-node_of :
      (k q : K) (i : ℕ) (l : List (Node K V)) (e : Entry K V)
      → AllDistinct l
      → node_of dec k l ≡ some i
      → e.key ≡ k
      → node_of dec q ((i, e) ∷ erase_node i l) ≡ node_of dec q l
  spliced-node_of k q i l e d h key =
      ground (arith, node_of-cons q i e (erase_node i l), node_of-erase_node dec k q i l d h)

  -- A splice keeps the nodes, and brings the entry of the key to the front.
  pub splice_front_lem :
      (k : K) (i : ℕ) (l : List (Node K V))
      → AllDistinct l
      → node_of dec k l ≡ some i
      → AllDistinct (splice_front i l)
        × (total (splice_front i l) ≡ total l)
        × ((q : K) → node_of dec q (splice_front i l) ≡ node_of dec q l)
        × ((b : ℕ) → NodesBelow b l → NodesBelow b (splice_front i l))
  splice_front_lem k i l d h =
      let (e, found, key, looked) = find_node-node_of dec k i l d h in
      let gone : node_of dec k (erase_node i l) ≡ none =
        ground (arith, node_of-erase_node dec k k i l d h) in
      rw (splice_front_found i l e found) (
        (
          rw key (NoKey-of_none dec k (erase_node i l) gone),
          erased-NoNode i l d,
          erase_node-AllDistinct i l d,
        ),
        omega (arith, total-erase_node i l, node_size_found i l e found),
        λ q. spliced-node_of k q i l e d h key,
        λ b below. (found-below b i l e found below, erase_node-NodesBelow b i l below),
      )
