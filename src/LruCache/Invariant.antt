-- ===== src/LruCache/Invariant.antt =====
-- The representation invariant, and that every method keeps it.
use Prim.Native.Nat.{ℕ, zero, suc, ◌+◌, ◌^◌, ◌<◌}
use dewfall.Prelude.{
  Bool, true, false, some, List, [], ◌∷◌, ◌++◌, ◌≡◌, refl, arith, ap, sym, ◌∙◌, inl, inr,
  Option-cases, Bool-cases, ltb, if◌then◌else◌,
}
use dewfall.LruCache.{
  Node, LruCache, u64_add, splice_front, pop_back, create, clear, get, evict_back, evict_loop,
  evict, erase, set_max_bytes,
}
use dewfall.LruCache.Lists.{
  total, AllDistinct, NodesBelow, node_of, none_of_NoKey, node_of-erase_node,
}
use dewfall.LruCache.Nodes.{
  erase_node-AllDistinct, erase_node-NodesBelow, total-erase_node, pop_back-append, total-append,
  append-NodesBelow, popped-AllDistinct, node_of-push_back, splice_front_lem,
}

module _ {K V : Type 0} (dec : Discrete K) where
  -- The map holds an iterator for exactly the keys of the list, and `_current_bytes` is the sum of
  -- the entries' sizes.
  pub record IsValid (c : LruCache K V) : Type 0 where
    pub indexed : (q : K) → c.index q ≡ node_of dec q c.lru_list
    pub distinct : AllDistinct c.lru_list
    pub fresh : NodesBelow c.next_node c.lru_list
    pub counted : c.current_bytes ≡ total c.lru_list
    pub small : total c.lru_list < 2 ^ 64

  pub create-IsValid : (max_bytes : ℕ) → IsValid (create max_bytes)
  unfolding create node_of
  create-IsValid max_bytes = record {
    indexed = λ q. refl;
    distinct = tt;
    fresh = tt;
    counted = refl;
    small = omega arith;
  }

  pub clear-IsValid : (c : LruCache K V) → IsValid (clear c)
  unfolding clear node_of
  clear-IsValid c = record {
    indexed = λ q. refl;
    distinct = tt;
    fresh = tt;
    counted = refl;
    small = omega arith;
  }

  pub evict_back-IsValid :
      (c : LruCache K V) (rest : List (Node K V)) (back : Node K V)
      → pop_back c.lru_list ≡ some (rest, back)
      → IsValid c
      → IsValid (evict_back dec c rest back)
  unfolding evict_back
  evict_back-IsValid c rest back popped v =
      let e : c.lru_list ≡ rest ++ back ∷ [] = pop_back-append c.lru_list rest back popped in
      let (kept, gone) = popped-AllDistinct rest back (rw e at v.distinct) in
      let sum : total c.lru_list ≡ total rest + back.1.size =
        rw e (omega (arith, total-append rest (back ∷ []))) in
      record {
        indexed = λ q. ground (
          arith,
          v.indexed q,
          ap (node_of dec q) e,
          node_of-push_back dec q rest back gone,
          none_of_NoKey dec back.1.key rest gone,
        );
        distinct = kept;
        fresh = (append-NodesBelow c.next_node rest (back ∷ []) (rw e at v.fresh)).0;
        counted = omega (arith, v.counted, v.small);
        small = omega (arith, v.small);
      }

  pub get-IsValid :
      (c : LruCache K V) (key : K) (promote : Bool) → IsValid c → IsValid (get dec c key promote).0
  get-IsValid c key promote v = elim (Option-cases (c.index key)) [
    | inl e ↦
        unfold get in
        rw (e, get)
          (record {
            indexed = v.indexed;
            distinct = v.distinct;
            fresh = v.fresh;
            counted = v.counted;
            small = v.small;
          })
    | inr (it, e) ↦
        let here : node_of dec key c.lru_list ≡ some it = sym (v.indexed key) ∙ e in
        unfold get in rw (e, get) (hit it here promote)
  ]
    where
      hit :
          (it : ℕ)
          → node_of dec key c.lru_list ≡ some it
          → (b : Bool)
          → IsValid (record c {
            hit_count = u64_add c.hit_count 1;
            lru_list = if b then splice_front it c.lru_list else c.lru_list;
          })
      hit it here false = record {
        indexed = v.indexed;
        distinct = v.distinct;
        fresh = v.fresh;
        counted = v.counted;
        small = v.small;
      }
      hit it here true =
          let (distinct, same, nodes, below) =
            splice_front_lem dec key it c.lru_list v.distinct here in
          record {
            indexed = λ q. v.indexed q ∙ sym (nodes q);
            distinct = distinct;
            fresh = below c.next_node v.fresh;
            counted = v.counted ∙ sym same;
            small = omega (arith, same, v.small);
          }

  evict_loop-IsValid : (fuel : ℕ) (c : LruCache K V) → IsValid c → IsValid (evict_loop dec fuel c)
  unfolding evict_loop
  evict_loop-IsValid zero c v = v
  evict_loop-IsValid (suc fuel) c v = elim (Bool-cases (ltb c.max_bytes c.current_bytes)) [
    | inl over ↦ elim (Option-cases (pop_back c.lru_list)) [
      | inl e ↦ rw (over, e) v
      | inr ((rest, back), e) ↦
          rw (over, e) (evict_loop-IsValid fuel _ (evict_back-IsValid c rest back e v))
    ]
    | inr fits ↦ rw fits v
  ]

  pub evict-IsValid : (c : LruCache K V) → IsValid c → IsValid (evict dec c)
  unfolding evict
  evict-IsValid c v = evict_loop-IsValid _ c v

  pub erase-IsValid : (c : LruCache K V) (key : K) → IsValid c → IsValid (erase dec c key)
  erase-IsValid c key v = elim (Option-cases (c.index key)) [
    | inl e ↦ unfold erase in rw (e, erase) v
    | inr (it, e) ↦
        let here : node_of dec key c.lru_list ≡ some it = sym (v.indexed key) ∙ e in
        unfold erase in
        rw (e, erase)
          (record {
            indexed = λ q.
                ground
                  (arith, v.indexed q, node_of-erase_node dec key q it c.lru_list v.distinct here);
            distinct = erase_node-AllDistinct it c.lru_list v.distinct;
            fresh = erase_node-NodesBelow c.next_node it c.lru_list v.fresh;
            counted = omega (arith, v.counted, v.small, total-erase_node it c.lru_list);
            small = omega (arith, v.small, total-erase_node it c.lru_list);
          })
  ]

  pub set_max_bytes-IsValid :
      (c : LruCache K V) (max_bytes : ℕ) → IsValid c → IsValid (set_max_bytes dec c max_bytes)
  unfolding set_max_bytes
  set_max_bytes-IsValid c max_bytes v = evict-IsValid _ (record {
    indexed = v.indexed;
    distinct = v.distinct;
    fresh = v.fresh;
    counted = v.counted;
    small = v.small;
  })
