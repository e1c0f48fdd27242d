-- ===== src/Preprocess/Differences.antt =====
-- Wrapping subtraction and addition of a neighbour at one width, which every delta transform of
-- src/core/compression_preprocess.cpp is made of.
use dewfall.Prelude.{
  ℕ, ◌+◌, ◌-◌, ◌%◌, ◌^◌, ◌≤◌, ◌<◌, ◌≡◌, ◌⊎◌, inl, inr, List, arith, length, ◌∙◌, sym,
}
use dewfall.Bytes.{
  AllBytes, load, store, load-lt, length-store, store-AllBytes, load-store_other, load-store_self,
  store-store_self, store-load, store-store_comm,
}

-- a := a - b and a := a + b, modulo 256 ^ w, in place
unfoldable pub sub_at : ℕ → List ℕ → ℕ → ℕ → List ℕ
sub_at w buf a b = store w buf a ((load w buf a + 256 ^ w - load w buf b) % 256 ^ w)

unfoldable pub add_at : ℕ → List ℕ → ℕ → ℕ → List ℕ
add_at w buf a b = store w buf a ((load w buf a + load w buf b) % 256 ^ w)

-- A buffer of `size` bytes at least.
abbrev pub IsBuffer : ℕ → List ℕ → Type 0
IsBuffer size buf = AllBytes buf × (size ≤ length buf)

wrap_back : (c p m : ℕ) → c < m → p < m → ((c + m - p) % m + p) % m ≡ c
wrap_back c p m h k = grind arith

wrap_forth : (c p m : ℕ) → c < m → p < m → ((c + p) % m + m - p) % m ≡ c
wrap_forth c p m h k = grind arith

wrap-lt : (x m c : ℕ) → c < m → x % m < m
wrap-lt x m c h = grind arith

module _ (w : ℕ) (buf : List ℕ) (a b : ℕ) where
  pub length-sub_at : length (sub_at w buf a b) ≡ length buf
  unfolding sub_at
  length-sub_at = length-store w buf a _

  pub length-add_at : length (add_at w buf a b) ≡ length buf
  unfolding add_at
  length-add_at = length-store w buf a _

  pub sub_at-AllBytes : AllBytes buf → AllBytes (sub_at w buf a b)
  unfolding sub_at
  sub_at-AllBytes h = store-AllBytes w buf a _ h

  pub add_at-AllBytes : AllBytes buf → AllBytes (add_at w buf a b)
  unfolding add_at
  add_at-AllBytes h = store-AllBytes w buf a _ h

  pub sub_at-IsBuffer : (size : ℕ) → IsBuffer size buf → IsBuffer size (sub_at w buf a b)
  sub_at-IsBuffer size h = (sub_at-AllBytes h.0, omega (arith, length-sub_at))

  pub add_at-IsBuffer : (size : ℕ) → IsBuffer size buf → IsBuffer size (add_at w buf a b)
  add_at-IsBuffer size h = (add_at-AllBytes h.0, omega (arith, length-add_at))

  pub load-sub_at_other :
      (c : ℕ) → (c + w ≤ a) ⊎ (a + w ≤ c) → load w (sub_at w buf a b) c ≡ load w buf c
  unfolding sub_at
  load-sub_at_other c h = load-store_other w w buf a c _ h

  pub load-add_at_other :
      (c : ℕ) → (c + w ≤ a) ⊎ (a + w ≤ c) → load w (add_at w buf a b) c ≡ load w buf c
  unfolding add_at
  load-add_at_other c h = load-store_other w w buf a c _ h

  module _ (ok : AllBytes buf) (fits : a + w ≤ length buf) where
    pub load-sub_at_self :
        load w (sub_at w buf a b) a ≡ (load w buf a + 256 ^ w - load w buf b) % 256 ^ w
    unfolding sub_at
    load-sub_at_self = load-store_self w buf a _ fits (wrap-lt _ _ _ (load-lt w buf a ok))

    pub load-add_at_self : load w (add_at w buf a b) a ≡ (load w buf a + load w buf b) % 256 ^ w
    unfolding add_at
    load-add_at_self = load-store_self w buf a _ fits (wrap-lt _ _ _ (load-lt w buf a ok))

    -- Adding the neighbour undoes subtracting it.
    pub add_at-sub_at : (b + w ≤ a) ⊎ (a + w ≤ b) → add_at w (sub_at w buf a b) a b ≡ buf
    unfolding add_at
    add_at-sub_at apart =
        rw (load-sub_at_self, load-sub_at_other b apart)
          (rw (wrap_back _ _ _ (load-lt w buf a ok) (load-lt w buf b ok))
            (unfold sub_at in (store-store_self w buf a _ _ ∙ store-load w buf a ok)))

    pub sub_at-add_at : (b + w ≤ a) ⊎ (a + w ≤ b) → sub_at w (add_at w buf a b) a b ≡ buf
    unfolding sub_at
    sub_at-add_at apart =
        rw (load-add_at_self, load-add_at_other b apart)
          (rw (wrap_forth _ _ _ (load-lt w buf a ok) (load-lt w buf b ok))
            (unfold add_at in (store-store_self w buf a _ _ ∙ store-load w buf a ok)))

module _ (w : ℕ) (f g : ℕ → ℕ → ℕ) where
  -- A place is given a value that is computed from it and one other place.
  abbrev pub modify : List ℕ → ℕ → ℕ → List ℕ
  modify buf a b = store w buf a (f (load w buf a) (load w buf b))

  abbrev modify' : List ℕ → ℕ → ℕ → List ℕ
  modify' buf a b = store w buf a (g (load w buf a) (load w buf b))

  store_comm :
      (buf : List ℕ) (a c v u : ℕ)
      → (a + w ≤ c) ⊎ (c + w ≤ a)
      → store w (store w buf c u) a v ≡ store w (store w buf a v) c u
  store_comm buf a c v u (inl h) = store-store_comm w w buf a c v u h
  store_comm buf a c v u (inr h) = sym (store-store_comm w w buf c a u v h)

  -- Two such changes commute, unless one writes what the other reads.
  pub modify_comm :
      (buf : List ℕ) (a b c d : ℕ)
      → (a + w ≤ c) ⊎ (c + w ≤ a)
      → (a + w ≤ d) ⊎ (d + w ≤ a)
      → (c + w ≤ b) ⊎ (b + w ≤ c)
      → modify (modify' buf c d) a b ≡ modify' (modify buf a b) c d
  modify_comm buf a b c d h k l =
      rw
        (
          load-store_other w w buf c a (g (load w buf c) (load w buf d)) (omega arith),
          load-store_other w w buf c b (g (load w buf c) (load w buf d)) (omega arith),
          load-store_other w w buf a c (f (load w buf a) (load w buf b)) (omega arith),
          load-store_other w w buf a d (f (load w buf a) (load w buf b)) (omega arith),
        )
        (store_comm buf a c _ _ h)
