-- ===== src/StorageMap/Entries.antt =====
-- The association list, by lookup.
use dewfall.Prelude.{
  ℕ, ◌+◌, ◌≡◌, refl, true, false, none, some, List, [], ◌∷◌, ◌++◌, if◌then◌else◌, arith,
}
use dewfall.StorageMap.{
  StorageLocation, InputDataId, Value, id_eq, find, assign, erase, index, discard,
}

pub find-assign_self :
    (id : InputDataId) (v : Value) (l : List (InputDataId × Value))
    → find id (assign id v l) ≡ some v
unfolding find assign id_eq
find-assign_self id v [] = ground arith
find-assign_self id v ((i, u) ∷ l) = ground (arith, find-assign_self id v l)

pub find-assign :
    (id j : InputDataId) (v : Value) (l : List (InputDataId × Value))
    → find j (assign id v l) ≡ (if id_eq id j then some v else find j l)
unfolding find assign id_eq
find-assign id j v [] = refl
find-assign id j v ((i, u) ∷ l) = ground (arith, find-assign id j v l)

-- The id has no entry; no id has two.
abbrev pub NoEntry : InputDataId → List (InputDataId × Value) → Type 0
NoEntry id [] = Unit {0}
NoEntry id ((j, u) ∷ l) = (id_eq j id ≡ false) × NoEntry id l

abbrev pub AllDistinct : List (InputDataId × Value) → Type 0
AllDistinct [] = Unit {0}
AllDistinct ((j, u) ∷ l) = NoEntry j l × AllDistinct l

find_of_NoEntry :
    (i j : InputDataId) (l : List (InputDataId × Value))
    → id_eq i j ≡ true
    → NoEntry i l
    → find j l ≡ none
unfolding find id_eq
find_of_NoEntry i j [] h k = refl
find_of_NoEntry i j ((x, u) ∷ l) h k = ground (arith, find_of_NoEntry i j l)

pub find-erase :
    (id j : InputDataId) (l : List (InputDataId × Value))
    → AllDistinct l
    → find j (erase id l) ≡ (if id_eq id j then none else find j l)
unfolding find erase id_eq
find-erase id j [] h = ground arith
find-erase id j ((i, u) ∷ l) h = ground (arith, find-erase id j l, find_of_NoEntry i j l)

-- the sum of a measure over locations
abbrev pub weigh : (StorageLocation → ℕ) → List StorageLocation → ℕ
weigh f [] = 0
weigh f (x ∷ l) = f x + weigh f l

-- ... over all entries of a map
abbrev pub weigh_entries : (StorageLocation → ℕ) → List (InputDataId × Value) → ℕ
weigh_entries f [] = 0
weigh_entries f ((j, v) ∷ l) = weigh f v.storage + weigh_entries f l

module _ (f : StorageLocation → ℕ) where
  pub weigh-append : (l m : List StorageLocation) → weigh f (l ++ m) ≡ weigh f l + weigh f m
  weigh-append [] m = omega arith
  weigh-append (x ∷ l) m = omega (arith, weigh-append l m)

  pub weigh-discard :
      ((x : StorageLocation) → x.size ≡ 0 → f x ≡ 0)
      → (d l : List StorageLocation) → weigh f (discard d l) ≡ weigh f d + weigh f l
  unfolding discard
  weigh-discard nothing d [] = omega arith
  weigh-discard nothing d (x ∷ l) = ground (
    arith,
    weigh-discard nothing (d ++ x ∷ []) l,
    weigh-discard nothing d l,
    weigh-append d (x ∷ []),
    nothing x,
  )

  pub weigh-assign :
      (id : InputDataId) (v : Value) (l : List (InputDataId × Value))
      → weigh_entries f (assign id v l) + weigh f (index id l).storage
        ≡ weigh_entries f l + weigh f v.storage
  unfolding assign index find
  weigh-assign id v [] = omega arith
  weigh-assign id v ((j, u) ∷ l) = ground (arith, weigh-assign id v l)

  pub weigh-erase :
      (id : InputDataId) (l : List (InputDataId × Value))
      → weigh_entries f (erase id l) + weigh f (index id l).storage ≡ weigh_entries f l
  unfolding erase index find
  weigh-erase id [] = omega arith
  weigh-erase id ((j, u) ∷ l) = ground (arith, weigh-erase id l)

-- An entry may be read by any id that is equal to its own.
pub same_id :
    (id j : InputDataId) (l : List (InputDataId × Value)) → id_eq id j ≡ true → find j l ≡ find id l
unfolding find id_eq
same_id id j [] h = refl
same_id id j ((i, u) ∷ l) h = ground (arith, same_id id j l)
