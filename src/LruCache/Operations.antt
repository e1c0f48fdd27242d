-- ===== src/LruCache/Operations.antt =====
-- Eviction ends within the byte limit, and so every reachable cache is within it.
use Prim.Native.Nat.{ℕ, zero, suc, ◌+◌, ◌^◌, ◌≤◌, ◌<◌}
use dewfall.Prelude.{
  Bool, true, some, List, [], ◌∷◌, ◌++◌, ◌≡◌, refl, arith, ap, sym, ◌∙◌, length, inl, inr,
  Option-cases, Bool-cases, ltb, length-append,
}
use mathlib.Core.List.{append_assoc, append-nil}
use dewfall.LruCache.{
  Node, LruCache, pop_back, evict_back, evict_loop, evict, create, clear, get, put, erase,
  set_max_bytes, insert,
}
use dewfall.LruCache.Lists.{total}
use dewfall.LruCache.Nodes.{pop_back-append, pop_back-none, total-append, total-erase_node}
use dewfall.LruCache.Invariant.{
  IsValid, create-IsValid, clear-IsValid, get-IsValid, erase-IsValid, evict_back-IsValid,
  set_max_bytes-IsValid,
}
use dewfall.LruCache.Insert.{insert-IsValid, put-IsValid}

-- A call of a method.
pub data Call (K V : Type 0) : Type 0 where
  call_get : K → Bool → Call K V
  call_put : K → V → ℕ → Bool → Call K V
  call_erase : K → Call K V
  call_clear : Call K V
  call_set_max_bytes : ℕ → Call K V

module _ {K V : Type 0} (dec : Discrete K) where
  -- The kept nodes are the front of the list, the dropped ones its back, and one node less dropped
  -- would have been too much.
  abbrev Trimmed : LruCache K V → LruCache K V → Type 0
  Trimmed c c' =
      (dropped : List (Node K V)) × (c.lru_list ≡ c'.lru_list ++ dropped)
      × (c'.current_bytes ≤ c.max_bytes)
      × (c'.max_bytes ≡ c.max_bytes)
      × ((n : Node K V) (rest : List (Node K V))
          → dropped ≡ n ∷ rest
          → c.max_bytes < total c'.lru_list + n.1.size)

  -- One node more was dropped from the back.
  first_dropped :
      (max_bytes : ℕ) (kept dropped rest : List (Node K V)) (back : Node K V)
      → rest ≡ kept ++ dropped
      → max_bytes < total rest + back.1.size
      → ((n : Node K V) (more : List (Node K V))
          → dropped ≡ n ∷ more
          → max_bytes < total kept + n.1.size)
      → (n : Node K V) (more : List (Node K V)) → dropped ++ back ∷ [] ≡ n ∷ more
      → max_bytes < total kept + n.1.size
  first_dropped max_bytes kept [] rest back e over first n more eq =
      let same : back ≡ n = ground arith in
      let whole : rest ≡ kept = e ∙ append-nil kept in
      omega (arith, ap total whole, ap (λ (m : Node K V). m.1.size) same)
  first_dropped max_bytes kept (m ∷ dropped) rest back e over first n more eq =
      let same : m ≡ n = ground arith in
      omega (arith, first m dropped refl, ap (λ (m' : Node K V). m'.1.size) same)

  empty_of_length : (l : List (Node K V)) → length l ≤ 0 → l ≡ []
  empty_of_length [] h = refl
  empty_of_length (n ∷ l) h = absurd (omega arith)

  shorter :
      (c : LruCache K V) (rest : List (Node K V)) (back : Node K V) (fuel : ℕ)
      → pop_back c.lru_list ≡ some (rest, back)
      → length c.lru_list ≤ suc fuel
      → length (evict_back dec c rest back).lru_list ≤ fuel
  unfolding evict_back
  shorter c rest back fuel e h =
      omega
        (arith, ap length (pop_back-append c.lru_list rest back e), length-append rest (back ∷ []))

  round-Trimmed :
      (c : LruCache K V)
      → IsValid dec c
      → ltb c.max_bytes c.current_bytes ≡ true
      → (rest : List (Node K V)) (back : Node K V) → pop_back c.lru_list ≡ some (rest, back)
      → (c' : LruCache K V) → Trimmed (evict_back dec c rest back) c'
      → Trimmed c c'
  unfolding evict_back
  round-Trimmed c v over rest back e c' (dropped, split, within, same, first) =
      let whole : c.lru_list ≡ rest ++ back ∷ [] = pop_back-append c.lru_list rest back e in
      let sum : c.max_bytes < total rest + back.1.size =
        ground (arith, ap total whole, total-append rest (back ∷ []), v.counted) in
      (
        dropped ++ back ∷ [],
        whole ∙ ap (λ l. l ++ back ∷ []) split ∙ append_assoc c'.lru_list dropped (back ∷ []),
        within,
        same,
        first_dropped c.max_bytes c'.lru_list dropped rest back split sum first,
      )

  evict_loop-Trimmed :
      (fuel : ℕ) (c : LruCache K V)
      → IsValid dec c
      → length c.lru_list ≤ fuel
      → Trimmed c (evict_loop dec fuel c)
  unfolding evict_loop
  evict_loop-Trimmed zero c v h =
      let e : c.lru_list ≡ [] = empty_of_length c.lru_list h in
      (
        [],
        sym (append-nil c.lru_list),
        omega (arith, ap total e, v.counted),
        refl,
        λ n rest eq. absurd (ground arith),
      )
  evict_loop-Trimmed (suc fuel) c v h = elim (Bool-cases (ltb c.max_bytes c.current_bytes)) [
    | inl over ↦ elim (Option-cases (pop_back c.lru_list)) [
      | inl e ↦
          let e' : c.lru_list ≡ [] = pop_back-none c.lru_list e in
          absurd (ground (arith, ap total e', v.counted))
      | inr ((rest, back), e) ↦
          rw (over, e)
            (round-Trimmed c v over rest back e (evict_loop dec fuel (evict_back dec c rest back)) (
              evict_loop-Trimmed fuel (evict_back dec c rest back)
                (evict_back-IsValid dec c rest back e v) (shorter c rest back fuel e h)))
    ]
    | inr fits ↦
        rw fits
          ([], sym (append-nil c.lru_list), ground arith, refl, λ n rest eq. absurd (ground arith))
  ]

  -- On a valid cache `evict` drops nodes from the back of the list only, until the rest is within
  -- the limit, and no node more: the rest with the last dropped node would exceed the limit.
  pub evict_lem :
      (c : LruCache K V)
      → IsValid dec c
      → (dropped : List (Node K V)) × (c.lru_list ≡ (evict dec c).lru_list ++ dropped)
        × ((evict dec c).current_bytes ≤ c.max_bytes)
        × ((evict dec c).max_bytes ≡ c.max_bytes)
        × ((n : Node K V) (rest : List (Node K V))
            → dropped ≡ n ∷ rest
            → c.max_bytes < total (evict dec c).lru_list + n.1.size)
  unfolding evict
  evict_lem c v = evict_loop-Trimmed (length c.lru_list) c v (omega arith)

  unfoldable pub step : Call K V → LruCache K V → LruCache K V
  step (call_get key promote) c = (get dec c key promote).0
  step (call_put key value size hot) c = put dec c key value size hot
  step (call_erase key) c = erase dec c key
  step call_clear c = clear c
  step (call_set_max_bytes max_bytes) c = set_max_bytes dec c max_bytes

  -- The cache after calls, in the order in which the mutex lets the callers in.
  unfoldable pub run : List (Call K V) → LruCache K V → LruCache K V
  run [] c = c
  run (call ∷ calls) c = run calls (step call c)

  -- No call puts an entry of more than `largest` bytes, nor sets a limit above `limit`.
  abbrev pub CallWithin : ℕ → ℕ → Call K V → Type 0
  CallWithin limit largest call = elim call [
    | call_put _ _ size _ ↦ size ≤ largest
    | call_set_max_bytes max_bytes ↦ max_bytes ≤ limit
    | _ ↦ 0 ≤ limit
  ]

  unfoldable pub AllWithin : ℕ → ℕ → List (Call K V) → Type 0
  AllWithin limit largest [] = 0 ≤ limit
  AllWithin limit largest (call ∷ calls) =
      CallWithin limit largest call × AllWithin limit largest calls

  abbrev Sound : LruCache K V → Type 0
  Sound c = IsValid dec c × (c.current_bytes ≤ c.max_bytes)

  get-bytes :
      (c : LruCache K V) (key : K) (promote : Bool)
      → ((get dec c key promote).0.current_bytes ≡ c.current_bytes)
        × ((get dec c key promote).0.max_bytes ≡ c.max_bytes)
  unfolding get
  get-bytes c key promote = ground arith

  erase-bytes :
      (c : LruCache K V) (key : K)
      → IsValid dec c
      → ((erase dec c key).current_bytes ≤ c.current_bytes)
        × ((erase dec c key).max_bytes ≡ c.max_bytes)
  erase-bytes c key v = elim (Option-cases (c.index key)) [
    | inl e ↦ unfold erase in rw (e, erase) (omega arith, refl)
    | inr (it, e) ↦
        unfold erase in
        rw (e, erase) (omega (arith, v.counted, v.small, total-erase_node it c.lru_list), refl)
  ]

  pub insert-max_bytes :
      (c : LruCache K V) (key : K) (value : V) (size : ℕ) (hot : Bool)
      → (insert dec c key value size hot).max_bytes ≡ c.max_bytes
  unfolding insert
  insert-max_bytes c key value size hot = ground arith

  -- the invariant, with a bound on the limit
  abbrev SoundWithin : ℕ → LruCache K V → Type 0
  SoundWithin limit c = Sound c × (c.max_bytes ≤ limit)

  module _ (limit largest : ℕ) (room : limit + largest < 2 ^ 64) where
    step-SoundWithin :
        (call : Call K V) (c : LruCache K V)
        → CallWithin limit largest call
        → SoundWithin limit c
        → SoundWithin limit (step call c)
    unfolding step
    step-SoundWithin (call_get key promote) c ok ((v, h), low) =
        let kept = get-bytes c key promote in
        ((get-IsValid dec c key promote v, omega (arith, kept)), omega (arith, kept))
    step-SoundWithin (call_put key value size hot) c ok ((v, h), low) =
        let fits : total c.lru_list + size < 2 ^ 64 = omega (arith, v.counted) in
        let (dropped, split, within, same, first) =
          evict_lem (insert dec c key value size hot)
            (insert-IsValid dec c key value size v fits hot) in
        let limited = insert-max_bytes c key value size hot in
        (
          (put-IsValid dec c key value size v fits hot, unfold put in omega (arith, within, same)),
          unfold put in omega (arith, same, limited),
        )
    step-SoundWithin (call_erase key) c ok ((v, h), low) =
        let kept = erase-bytes c key v in
        ((erase-IsValid dec c key v, omega (arith, kept)), omega (arith, kept))
    step-SoundWithin call_clear c ok ((v, h), low) =
        ((clear-IsValid dec c, unfold clear in omega arith), unfold clear in omega arith)
    step-SoundWithin (call_set_max_bytes max_bytes) c ok ((v, h), low) =
        let limited : IsValid dec (record c { max_bytes = max_bytes }) = record {
          indexed = v.indexed;
          distinct = v.distinct;
          fresh = v.fresh;
          counted = v.counted;
          small = v.small;
        } in
        let (dropped, split, within, same, first) =
          evict_lem (record c { max_bytes = max_bytes }) limited in
        (
          (
            set_max_bytes-IsValid dec c max_bytes v,
            unfold set_max_bytes in omega (arith, within, same),
          ),
          unfold set_max_bytes in omega (arith, same, ok),
        )

    run-SoundWithin :
        (calls : List (Call K V)) (c : LruCache K V)
        → AllWithin limit largest calls
        → SoundWithin limit c
        → SoundWithin limit (run calls c)
    unfolding run AllWithin
    run-SoundWithin [] c ok sound = sound
    run-SoundWithin (call ∷ calls) c (first, others) sound =
        run-SoundWithin calls (step call c) others (step-SoundWithin call c first sound)

  -- After any calls on a new cache, the map holds an iterator for exactly the keys of the list, no
  -- two nodes share a key, `_current_bytes` is the sum of the entries' sizes, and it does not exceed
  -- `_max_bytes`. The condition: the largest limit that the cache is given and the largest entry
  -- together fit the 64 bits of `_current_bytes`.
  pub run-IsValid :
      (limit largest max_bytes : ℕ) (calls : List (Call K V))
      → limit + largest < 2 ^ 64
      → max_bytes ≤ limit
      → AllWithin limit largest calls
      → IsValid dec (run calls (create max_bytes))
        × ((run calls (create max_bytes)).current_bytes ≤ (run calls (create max_bytes)).max_bytes)
  run-IsValid limit largest max_bytes calls room low within =
      (run-SoundWithin limit largest room calls (create max_bytes) within (
        (create-IsValid dec max_bytes, unfold create in omega arith),
        unfold create in omega (arith, low),
      )).0
