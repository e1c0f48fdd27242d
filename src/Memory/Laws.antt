-- ===== src/Memory/Laws.antt =====
-- What is written, and that it is read back.
use dewfall.Prelude.{
  ℕ, zero, suc, ◌+◌, ◌-◌, ◌*◌, ◌/◌, ◌%◌, ◌^◌, ◌≤◌, ◌<◌, ◌≡◌, refl, Bool, true, false, List, [], ◌∷◌,
  ◌++◌, ltb, leb, arith, ap, sym, ◌∙◌, Bool-cases, inl, inr, length, drop, get_or, length-append,
  pow-suc,
}
use dewfall.Bytes.{load, le}
use dewfall.Memory.{Writer, advance, write_memory, write_vec_type, and_then, got, read_memory}

-- A step that writes `bytes` where they fit, and fails where they do not.
abbrev pub Writes : (Writer → Bool × Writer) → List ℕ → Type 0
Writes step bytes =
    (w : Writer)
    → (length bytes ≤ w.room → step w ≡ (true, advance w bytes))
      × (w.room < length bytes → (step w).0 ≡ false)

pub write_memory-Writes : (value : List ℕ) → Writes (λ w. write_memory w value) value
unfolding write_memory
write_memory-Writes value w = (
  λ fits. let room : ltb w.room (length value) ≡ false = ground arith in rw room refl,
  λ short. let room : ltb w.room (length value) ≡ true = ground arith in rw room refl,
)

pub append_nil {ℓ} : {A : Type ℓ} (l : List A) → l ++ [] ≡ l
append_nil [] = refl
append_nil (x ∷ l) = ap (◌∷◌ x) (append_nil l)

pub append_assoc {ℓ} : {A : Type ℓ} (a b c : List A) → (a ++ b) ++ c ≡ a ++ (b ++ c)
append_assoc [] b c = refl
append_assoc (x ∷ a) b c = ap (◌∷◌ x) (append_assoc a b c)

advance_nothing : (w : Writer) → advance w [] ≡ w
advance_nothing w =
    let room : w.room - 0 ≡ w.room = omega arith in rw (append_nil w.written) (rw room refl)

pub write_vec_type-Writes : (bytes : List ℕ) → Writes (λ w. write_vec_type w bytes) bytes
unfolding write_vec_type write_memory
write_vec_type-Writes [] w =
    (λ fits. ap (λ v. (true, v)) (sym (advance_nothing w)), λ short. absurd (omega arith))
write_vec_type-Writes (x ∷ l) w = write_memory-Writes (x ∷ l) w

pub nothing-Writes : Writes (λ w. (true, w)) []
nothing-Writes w =
    (λ fits. ap (λ v. (true, v)) (sym (advance_nothing w)), λ short. absurd (omega arith))

advance_twice : (w : Writer) (a b : List ℕ) → advance (advance w a) b ≡ advance w (a ++ b)
advance_twice w a b =
    let room : w.room - length a - length b ≡ w.room - length (a ++ b) =
      omega (arith, length-append a b) in
    rw (append_assoc w.written a b) (rw room refl)

and_then_stops :
    (p : Bool × Writer) (g : Writer → Bool × Writer) → p.0 ≡ false → (and_then p g).0 ≡ false
unfolding and_then
and_then_stops (true, w) g h = absurd (ground arith)
and_then_stops (false, w) g h = refl

pub and_then-Writes :
    (f g : Writer → Bool × Writer) (a b : List ℕ)
    → Writes f a
    → Writes g b
    → Writes (λ w. and_then (f w) g) (a ++ b)
unfolding and_then
and_then-Writes f g a b first second w =
    let parts = length-append a b in
    (
      λ fits. rw ((first w).0 (omega (arith, parts))) (
          (second (advance w a)).0 (omega (arith, parts))
          ∙ ap (λ v. (true, v)) (advance_twice w a b)),
      λ short. elim (Bool-cases (leb (length a) w.room)) [
        | inl room ↦
            rw ((first w).0 (ground arith)) ((second (advance w a)).1 (ground (arith, parts)))
        | inr tight ↦ and_then_stops (f w) g ((first w).1 (ground arith))
      ],
    )

-- Reading.
load_shift : (w : ℕ) (x : ℕ) (l : List ℕ) (off : ℕ) → load w (x ∷ l) (suc off) ≡ load w l off
unfolding load
load_shift zero x l off = refl
load_shift (suc w) x l off =
    let next : suc off + 1 ≡ suc (off + 1) = omega arith in
    ap (λ k. get_or l off 0 + 256 * load w (x ∷ l) k) next
    ∙ ap (λ v. get_or l off 0 + 256 * v) (load_shift w x l (off + 1))

pub load-le_front : (w v : ℕ) (rest : List ℕ) → v < 256 ^ w → load w (le w v ++ rest) 0 ≡ v
unfolding load
load-le_front zero v rest h = omega arith
load-le_front (suc w) v rest h =
    let small : v / 256 < 256 ^ w = omega (arith, pow-suc 256 w) in
    ap (λ u. v % 256 + 256 * u)
      (load_shift w (v % 256) (le w (v / 256) ++ rest) 0 ∙ load-le_front w (v / 256) rest small)
    ∙ omega arith

-- an integer behind some bytes
pub load-append : (w : ℕ) (a b : List ℕ) → load w (a ++ b) (length a) ≡ load w b 0
load-append w [] b = refl
load-append w (x ∷ a) b = load_shift w x (a ++ b) (length a) ∙ load-append w a b

pub length-le : (w v : ℕ) → length (le w v) ≡ w
length-le zero v = refl
length-le (suc w) v = ap suc (length-le w (v / 256))

pub drop-le : (w v : ℕ) (rest : List ℕ) → drop w (le w v ++ rest) ≡ rest
drop-le zero v rest = refl
drop-le (suc w) v rest = drop-le w (v / 256) rest

-- A value that was written is read, and the reader stands behind it.
pub read_memory-le :
    (w v : ℕ) (rest : List ℕ) → v < 256 ^ w → read_memory w (le w v ++ rest) ≡ got v rest
unfolding read_memory
read_memory-le w v rest h =
    let enough : ltb (length (le w v ++ rest)) w ≡ false =
      ground (arith, length-append (le w v) rest, length-le w v) in
    rw enough (rw (load-le_front w v rest h) (rw (drop-le w v rest) refl))
