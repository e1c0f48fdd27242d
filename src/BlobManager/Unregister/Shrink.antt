-- ===== src/BlobManager/Unregister/Shrink.antt =====
-- The end of `unregister_blob`: free sections at the end of the file are given back to it.
use dewfall.Prelude.{
  ℕ, zero, suc, ◌+◌, ◌*◌, ◌^◌, ◌≤◌, ◌<◌, ◌≡◌, refl, ap, true, none, some, ◌&&◌, leb, length-append,
  if◌then◌else◌, List, [], ◌∷◌, ◌++◌, ltb, ◌==◌, arith, Bool-cases, Option-cases, inl, inr, subst,
  length,
}
use dewfall.BlobManager.{
  Section, Page, BlobManager, page_size, sub64, end_of, back, last_page, drop_last,
}
use dewfall.BlobManager.Sections.{holds, cover, Ordered, Ordered-le, cover-append}
use dewfall.BlobManager.Unregister.{shrink}
use dewfall.BlobManager.Unregister.Pages.{free, AllOrdered}

last_page_lem : (l : List Page) (q : Page) → last_page l ≡ some q → l ≡ drop_last l ++ (q ∷ [])
unfolding last_page drop_last
last_page_lem [] q e = absurd (cc)
last_page_lem (x ∷ []) q e = cc
last_page_lem (x ∷ y ∷ l) q e = ap (◌∷◌ x) (last_page_lem (y ∷ l) q e)

back_lem : (l : List Section) (q : Section) → back l ≡ some q → l ≡ drop_last l ++ (q ∷ [])
unfolding back drop_last
back_lem [] q e = absurd (cc)
back_lem (x ∷ []) q e = cc
back_lem (x ∷ y ∷ l) q e = ap (◌∷◌ x) (back_lem (y ∷ l) q e)

free-append : (l m : List Page) (x : ℕ) → free (l ++ m) x ≡ free l x + free m x
free-append [] m x = omega arith
free-append ((p, s) ∷ l) m x = omega (arith, free-append l m x)

append-AllOrdered : (l m : List Page) → AllOrdered l → AllOrdered m → AllOrdered (l ++ m)
append-AllOrdered [] m a b = b
append-AllOrdered ((p, s) ∷ l) m a b = (a.0, a.1, append-AllOrdered l m a.2 b)

split-AllOrdered : (l m : List Page) → AllOrdered (l ++ m) → AllOrdered l × AllOrdered m
split-AllOrdered [] m a = (tt, a)
split-AllOrdered ((p, s) ∷ l) m a = let (b, c) = split-AllOrdered l m a.2 in ((a.0, a.1, b), c)

split-Ordered : (lo hi : ℕ) (l m : List Section) → Ordered lo hi (l ++ m) → Ordered lo hi l
split-Ordered lo hi [] m o = Ordered-le lo hi m o
split-Ordered lo hi (s ∷ l) m o = (o.0, o.1, split-Ordered (s.offset + s.size) hi l m o.2)

last-Ordered :
    (lo hi : ℕ) (l : List Section) (s : Section)
    → Ordered lo hi (l ++ (s ∷ []))
    → (0 < s.size) × (s.offset + s.size ≤ hi)
last-Ordered lo hi [] s o = (o.1, o.2)
last-Ordered lo hi (t ∷ l) s o = last-Ordered (t.offset + t.size) hi l s o.2

single : (l : List Section) (s : Section) → length (l ++ (s ∷ [])) == 1 ≡ true → l ≡ []
single [] s e = refl
single (t ∷ []) s e = absurd (ground arith)
single (t ∷ u ∷ l) s e = absurd (ground arith)

-- The end of the file moves down over free bytes, which are free once less then, and nothing else
-- changes.
abbrev pub Shrunk : BlobManager → BlobManager → Type 0
Shrunk m m' =
    AllOrdered m'.pages
    × (m'.next_offset ≤ m.next_offset)
    × ((x : ℕ)
        → free m.pages x
          ≡ free m'.pages x + (if leb m'.next_offset x && ltb x m.next_offset then 1 else 0))

-- Where the last section of the last page in the map ends at the end of the file, that has moved
-- down from `before`, within that page.
abbrev pub GivenBack : ℕ → BlobManager → Type 0
GivenBack before m' =
    (page : ℕ) (sections : List Section) (last : Section)
    → last_page m'.pages ≡ some (page, sections)
    → back sections ≡ some last
    → end_of last ≡ m'.next_offset
    → (m'.next_offset < before) × (m'.next_offset < page * page_size + page_size)

same-Shrunk : (m : BlobManager) → AllOrdered m.pages → Shrunk m m
same-Shrunk m a = (a, omega arith, λ x. ground arith)

trans-Shrunk : (a b c : BlobManager) → Shrunk a b → Shrunk b c → Shrunk a c
trans-Shrunk a b c (o, le, same) (o', le', same') =
    (o', omega arith, λ x. ground (arith, same x, same' x))

unpad :
    (m : BlobManager) (n page : ℕ) (l : List Page) (s : List Section)
    → s ≡ []
    → Shrunk m (record { next_offset = n; pages = l ++ ((page, s) ∷ []) })
    → Shrunk m (record { next_offset = n; pages = l })
unpad m n page l s e (a, le, same) = (
  (split-AllOrdered l ((page, s) ∷ []) a).0,
  le,
  λ x. omega (arith, same x, free-append l ((page, s) ∷ []) x, ap (λ t. cover t x) e),
)

trim :
    (m : BlobManager) (page : ℕ) (sections : List Section) (last : Section)
    → AllOrdered m.pages
    → m.next_offset < 2 ^ 64
    → last_page m.pages ≡ some (page, sections)
    → back sections ≡ some last
    → end_of last == m.next_offset ≡ true
    → Shrunk m (record {
      next_offset = sub64 m.next_offset last.size;
      pages = drop_last m.pages ++ ((page, drop_last sections) ∷ []);
    })
trim m page sections last a small e f g =
    let split = last_page_lem m.pages (page, sections) e in
    let split' = back_lem sections last f in
    let (before, (bound, o, _)) =
      split-AllOrdered (drop_last m.pages) ((page, sections) ∷ []) (subst AllOrdered split a) in
    let o' = subst (Ordered (page * page_size) (page * page_size + page_size)) split' o in
    let (some_byte, top) =
      last-Ordered (page * page_size) (page * page_size + page_size) (drop_last sections) last o' in
    let meets : last.offset + last.size ≡ m.next_offset = ground arith in
    let moved : sub64 m.next_offset last.size ≡ last.offset = omega arith in
    let parts : (x : ℕ)
        → free m.pages x
          ≡ free (drop_last m.pages) x + (cover (drop_last sections) x + holds last x) =
      λ x. omega (
        arith,
        ap (λ l. free l x) split,
        free-append (drop_last m.pages) ((page, sections) ∷ []) x,
        ap (λ l. cover l x) split',
        cover-append (drop_last sections) (last ∷ []) x,
      ) in
    let kept = λ (x : ℕ). free-append (drop_last m.pages) ((page, drop_last sections) ∷ []) x in
    rw moved (
      append-AllOrdered (drop_last m.pages) ((page, drop_last sections) ∷ []) before
          (bound, split-Ordered _ _ (drop_last sections) (last ∷ []) o', tt),
      omega arith,
      λ x. ground (arith, parts x, kept x),
    )

pub shrink_lem :
    (fuel : ℕ) (m : BlobManager)
    → AllOrdered m.pages
    → m.next_offset < 2 ^ 64
    → Shrunk m (shrink fuel m)
unfolding shrink
shrink_lem zero m a small = same-Shrunk m a
shrink_lem (suc fuel) m a small = elim (Option-cases (last_page m.pages)) [
  | inl e ↦ rw (e, shrink) (same-Shrunk m a)
  | inr ((page, sections), e) ↦ elim (Option-cases (back sections)) [
    | inl f ↦ rw (e, shrink) (rw f (same-Shrunk m a))
    | inr (last, f) ↦ elim (Bool-cases (end_of last == m.next_offset)) [
      | inr g ↦ rw (e, shrink) (rw f (rw g (same-Shrunk m a)))
      | inl g ↦
          let step = trim m page sections last a small e f g in
          elim (Bool-cases (length sections == 1)) [
            | inr h ↦ rw (e, shrink) (rw f (rw g (rw h step)))
            | inl h ↦
                let none_left : drop_last sections ≡ [] =
                  single (drop_last sections) last
                    (subst (λ l. length l == 1 ≡ true) (back_lem sections last f) h) in
                let step' =
                  unpad m _ page (drop_last m.pages) (drop_last sections) none_left step in
                rw (e, shrink)
                  (rw f (
                    rw g (
                      rw h (
                        trans-Shrunk m _ _ step'
                          (shrink_lem fuel _ step'.0 (omega (arith, step'.1)))))))
          ]
    ]
  ]
]

-- The section that was last is behind the new end of the file, in the same page.
within_page :
    (m : BlobManager) (page : ℕ) (sections : List Section) (last : Section)
    → AllOrdered m.pages
    → m.next_offset < 2 ^ 64
    → last_page m.pages ≡ some (page, sections)
    → back sections ≡ some last
    → end_of last == m.next_offset ≡ true
    → (sub64 m.next_offset last.size < m.next_offset)
      × (sub64 m.next_offset last.size < page * page_size + page_size)
within_page m page sections last a small e f g =
    let split = last_page_lem m.pages (page, sections) e in
    let (before, (bound, o, _)) =
      split-AllOrdered (drop_last m.pages) ((page, sections) ∷ []) (subst AllOrdered split a) in
    let o' =
      subst (Ordered (page * page_size) (page * page_size + page_size)) (back_lem sections last f)
        o in
    let (some_byte, top) =
      last-Ordered (page * page_size) (page * page_size + page_size) (drop_last sections) last o' in
    let meets : last.offset + last.size ≡ m.next_offset = ground arith in (omega arith, omega arith)

last_page-append : (l : List Page) (q : Page) → last_page (l ++ (q ∷ [])) ≡ some q
unfolding last_page
last_page-append [] q = refl
last_page-append (x ∷ []) q = refl
last_page-append (x ∷ y ∷ l) q = last_page-append (y ∷ l) q

last_page-none : (l : List Page) → length l ≤ 0 → last_page l ≡ none
unfolding last_page
last_page-none [] h = refl
last_page-none (x ∷ l) h = absurd (omega arith)

-- With a round for every page the loop runs to its end.
pub shrink-GivenBack :
    (fuel : ℕ) (m : BlobManager)
    → AllOrdered m.pages
    → m.next_offset < 2 ^ 64
    → length m.pages ≤ fuel
    → GivenBack m.next_offset (shrink fuel m)
unfolding shrink
shrink-GivenBack zero m a small enough =
    λ p ss s e1 e2 e3. absurd (ground (arith, last_page-none m.pages enough, e1))
shrink-GivenBack (suc fuel) m a small enough = elim (Option-cases (last_page m.pages)) [
  | inl e ↦ rw (e, shrink) (λ p ss s e1 e2 e3. absurd (ground (arith, e, e1)))
  | inr ((page, sections), e) ↦ elim (Option-cases (back sections)) [
    | inl f ↦ rw (e, shrink) (rw f (λ p ss s e1 e2 e3. absurd (ground (arith, e, e1, f, e2))))
    | inr (last, f) ↦ elim (Bool-cases (end_of last == m.next_offset)) [
      | inr g ↦
          rw (e, shrink)
            (rw f (rw g (λ p ss s e1 e2 e3. absurd (ground (arith, e, e1, f, e2, e3, g)))))
      | inl g ↦
          let (down, within) = within_page m page sections last a small e f g in
          elim (Bool-cases (length sections == 1)) [
            | inr h ↦
                rw (e, shrink)
                  (rw f (
                    rw g (
                      rw h (λ p ss s e1 e2 e3.
                        let same : p ≡ page = ground (
                          arith,
                          e1,
                          last_page-append (drop_last m.pages) (page, drop_last sections),
                        ) in
                        (down, omega (arith, within, same))))))
            | inl h ↦
                let none_left : drop_last sections ≡ [] =
                  single (drop_last sections) last
                    (subst (λ l. length l == 1 ≡ true) (back_lem sections last f) h) in
                let step =
                  unpad m _ page (drop_last m.pages) (drop_last sections) none_left
                    (trim m page sections last a small e f g) in
                let fewer : length (drop_last m.pages) ≤ fuel = omega (
                  arith,
                  ap length (last_page_lem m.pages (page, sections) e),
                  length-append (drop_last m.pages) ((page, sections) ∷ []),
                ) in
                rw (e, shrink)
                  (rw f (
                    rw g (
                      rw h (λ p ss s e1 e2 e3.
                        let (less, inside) =
                          shrink-GivenBack fuel _ step.0 (omega (arith, step.1)) fewer p ss s e1 e2
                            e3 in
                        (omega (arith, less, down), inside)))))
          ]
    ]
  ]
]
