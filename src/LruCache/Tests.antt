-- ===== src/LruCache/Tests.antt =====
-- Runs of the cache over numbers, and the theorems at inputs that meet their hypotheses.
use Prim.Native.Nat.{ℕ, ◌+◌, ◌≤◌, ◌<◌}
use native.Mathlib.Decide.{ℕ_discrete}
use mathlib.Core.Option
use dewfall.Prelude.{true, false, none, some, List, [], ◌∷◌, ◌++◌, ◌≡◌, refl, arith, map}
use dewfall.LruCache.{
  Node, LruCache, create, get, put, insert, evict, evict_loop, evict_back, pop_back, u64_add,
}
use dewfall.LruCache.Lists.{total, entries, lookup}
use dewfall.LruCache.Invariant.{IsValid, create-IsValid}
use dewfall.LruCache.Insert.{put-IsValid, insert-IsValid}
use dewfall.LruCache.Operations.{Call, run, AllWithin, evict_lem, run-IsValid}
use dewfall.LruCache.Reads.{after_get, get_lem, get-put}

abbrev empty : LruCache ℕ ℕ
empty = create 10

-- Two entries of six bytes do not fit ten: the colder one goes.
abbrev two : LruCache ℕ ℕ
two = insert ℕ_discrete (put ℕ_discrete empty 1 100 6 true) 2 200 6 true

two_runs : map (λ n. n.1.key) (evict ℕ_discrete two).lru_list ≡ 2 ∷ []
unfolding create put insert evict evict_loop evict_back pop_back ℕ_discrete
two_runs = refl

two-IsValid : IsValid ℕ_discrete two
unfolding create put insert evict evict_loop ℕ_discrete
two-IsValid =
    insert-IsValid ℕ_discrete _ 2 200 6
      (put-IsValid ℕ_discrete empty 1 100 6 (create-IsValid ℕ_discrete 10) (omega arith) true)
      (omega arith) true

evict_lem_example :
    (dropped : List (Node ℕ ℕ)) × (two.lru_list ≡ (evict ℕ_discrete two).lru_list ++ dropped)
    × ((evict ℕ_discrete two).current_bytes ≤ two.max_bytes)
    × ((evict ℕ_discrete two).max_bytes ≡ two.max_bytes)
    × ((n : Node ℕ ℕ) (rest : List (Node ℕ ℕ))
        → dropped ≡ n ∷ rest
        → two.max_bytes < total (evict ℕ_discrete two).lru_list + n.1.size)
evict_lem_example = evict_lem ℕ_discrete two two-IsValid

-- The second entry does not fit beside the first; a smaller limit drops the second one too.
abbrev calls : List (Call ℕ ℕ)
calls =
    Call.call_put 1 100 6 true
    ∷ Call.call_put 2 200 6 true
    ∷ Call.call_get 2 true
    ∷ Call.call_set_max_bytes 5
    ∷ []

run-IsValid_example :
    IsValid ℕ_discrete (run ℕ_discrete calls (create 10))
    × ((run ℕ_discrete calls (create 10)).current_bytes
        ≤ (run ℕ_discrete calls (create 10)).max_bytes)
unfolding AllWithin
run-IsValid_example =
    run-IsValid ℕ_discrete 10 6 10 calls (omega arith) (omega arith)
      (omega arith, (omega arith, (omega arith, (omega arith, omega arith))))

get_lem_example :
    let (c', result) = get ℕ_discrete two 1 true in
    (result ≡ Option.map (λ e. e.value) (lookup ℕ_discrete 1 (entries two.lru_list)))
    × (entries c'.lru_list ≡ after_get ℕ_discrete (entries two.lru_list) 1 true)
    × (c'.hit_count ≡ elim (lookup ℕ_discrete 1 (entries two.lru_list)) [
      | none ↦ two.hit_count
      | some _ ↦ u64_add two.hit_count 1
    ])
    × (c'.miss_count ≡ elim (lookup ℕ_discrete 1 (entries two.lru_list)) [
      | none ↦ u64_add two.miss_count 1
      | some _ ↦ two.miss_count
    ])
get_lem_example = get_lem ℕ_discrete two 1 true two-IsValid

get-put_example : (get ℕ_discrete (put ℕ_discrete empty 1 100 6 true) 1 false).1 ≡ some 100
unfolding create
get-put_example =
    get-put ℕ_discrete empty 1 100 6 false (create-IsValid ℕ_discrete 10) (omega arith)
      (omega arith)
