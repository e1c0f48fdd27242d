-- ===== src/LruCache/Insert.antt =====
-- `put` keeps the invariant while the sizes fit 64 bits.
use Prim.Native.Nat.{ℕ, ◌+◌, ◌^◌, ◌<◌}
use dewfall.Prelude.{
  Bool, true, false, none, some, List, [], ◌∷◌, ◌++◌, ◌≡◌, arith, sym, ◌∙◌, inl, inr, Option-cases,
  if◌then◌else◌,
}
use dewfall.LruCache.{
  Node, LruCache, update, u64_add, u64_sub, assign_node, splice_front, node_size, insert, put,
}
use dewfall.LruCache.Lists.{total, node_of, NoKey-of_none, find_node-node_of, node_of-assign_node}
use dewfall.LruCache.Nodes.{
  assign_node-AllDistinct, assign_node-NodesBelow, total-assign_node, node_size-le, total-append,
  push_back-NodesBelow, push_back-AllDistinct, below-NoNode, NodesBelow-mono, node_of-push_back,
  splice_front_lem, node_of-cons,
}
use dewfall.LruCache.Invariant.{IsValid, evict-IsValid}

module _ {K V : Type 0} (dec : Discrete K) (c : LruCache K V) (key : K) (value : V) (size : ℕ)
    (v : IsValid dec c) (room : total c.lru_list + size < 2 ^ 64) where
  abbrev node : Node K V
  node = (c.next_node, record { key = key; value = value; size = size })

  abbrev pushed : Bool → LruCache K V
  pushed b = record c {
    lru_list = if b then node ∷ c.lru_list else c.lru_list ++ (node ∷ []);
    index = update dec c.index key (some c.next_node);
    next_node = c.next_node + 1;
    current_bytes = u64_add c.current_bytes size;
  }

  pushed-IsValid : node_of dec key c.lru_list ≡ none → (b : Bool) → IsValid dec (pushed b)
  pushed-IsValid absent true = record {
    indexed = λ q. ground (arith, v.indexed q, node_of-cons dec q node.0 node.1 c.lru_list);
    distinct = (
      NoKey-of_none dec key c.lru_list absent,
      below-NoNode c.next_node c.lru_list v.fresh,
      v.distinct,
    );
    fresh = (omega arith, NodesBelow-mono c.next_node c.lru_list v.fresh);
    counted = omega (arith, v.counted);
    small = omega arith;
  }
  pushed-IsValid absent false =
      let gone = NoKey-of_none dec key c.lru_list absent in
      let sum : total (c.lru_list ++ node ∷ []) ≡ total c.lru_list + size =
        omega (arith, total-append c.lru_list (node ∷ [])) in
      record {
        indexed = λ q. ground (arith, v.indexed q, node_of-push_back dec q c.lru_list node gone);
        distinct =
            push_back-AllDistinct c.lru_list node v.distinct gone
              (below-NoNode c.next_node c.lru_list v.fresh);
        fresh =
            push_back-NodesBelow (c.next_node + 1) c.lru_list node
              (NodesBelow-mono c.next_node c.lru_list v.fresh) (omega arith);
        counted = omega (arith, v.counted, sum);
        small = omega (arith, sum);
      }

  abbrev assigned : ℕ → List (Node K V)
  assigned it = assign_node it value size c.lru_list

  abbrev replaced : ℕ → Bool → LruCache K V
  replaced it b = record c {
    current_bytes = u64_add (u64_sub c.current_bytes (node_size it c.lru_list)) size;
    lru_list = if b then splice_front it (assigned it) else assigned it;
  }

  module _ (it : ℕ) (here : node_of dec key c.lru_list ≡ some it) where
    total-assigned : total (assigned it) + node_size it c.lru_list ≡ total c.lru_list + size
    total-assigned =
        let (e, found, key_eq, looked) = find_node-node_of dec key it c.lru_list v.distinct here in
        total-assign_node it value size c.lru_list e found

    assigned-IsValid : IsValid dec (replaced it false)
    assigned-IsValid = record {
      indexed = λ q. v.indexed q ∙ sym (node_of-assign_node dec q it value size c.lru_list);
      distinct = assign_node-AllDistinct it value size c.lru_list v.distinct;
      fresh = assign_node-NodesBelow c.next_node it value size c.lru_list v.fresh;
      counted = omega (arith, v.counted, v.small, total-assigned, node_size-le it c.lru_list);
      small = omega (arith, total-assigned);
    }

    replaced-IsValid : (b : Bool) → IsValid dec (replaced it b)
    replaced-IsValid false = assigned-IsValid
    replaced-IsValid true =
        let a = assigned-IsValid in
        let (distinct, same, nodes, below) =
          splice_front_lem dec key it (assigned it) a.distinct
            (node_of-assign_node dec key it value size c.lru_list ∙ here) in
        record {
          indexed = λ q. a.indexed q ∙ sym (nodes q);
          distinct = distinct;
          fresh = below c.next_node a.fresh;
          counted = a.counted ∙ sym same;
          small = omega (arith, same, a.small);
        }

  pub insert-IsValid : (hot : Bool) → IsValid dec (insert dec c key value size hot)
  insert-IsValid hot = elim (Option-cases (c.index key)) [
    | inl e ↦ unfold insert in rw (e, insert) (pushed-IsValid (sym (v.indexed key) ∙ e) hot)
    | inr (it, e) ↦
        unfold insert in rw (e, insert) (replaced-IsValid it (sym (v.indexed key) ∙ e) hot)
  ]

  pub put-IsValid : (hot : Bool) → IsValid dec (put dec c key value size hot)
  unfolding put
  put-IsValid hot = evict-IsValid dec _ (insert-IsValid hot)
