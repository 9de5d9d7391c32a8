-- ===== src/Prelude/Sort.antt =====
-- sort.Strings, and sort.Slice by a text: an insertion sort. Go's sort is another algorithm, and where
-- keys are equal its order is not specified; where they differ the result is the only one.

use mathlib.Core.Path.{◌≡◌, refl, sym, ap, ◌∙◌, subst}
use mathlib.Core.Logic.{◌≢◌, inl, inr}
use mathlib.Core.Bool.{Bool, true, false, ◌&&◌, ◌||◌}
use mathlib.Core.List.{List, [], ◌∷◌}
use mathlib.Core.List.Permᴰ
use mathlib.Core.List.{Permᴰ}
use native.Mathlib.Omega.{arith}
use easy_proxy_pool.Prelude.Tests.{ltb, ◌==◌, if◌then◌else◌, Bool-cases}
use easy_proxy_pool.Prelude.Lists.{All}
use easy_proxy_pool.Prelude.Text.{Text}

-- a < b, byte by byte
unfoldable pub text_lt : Text → Text → Bool
text_lt [] [] = false
text_lt [] (y ∷ ys) = true
text_lt (x ∷ xs) [] = false
text_lt (x ∷ xs) (y ∷ ys) = ltb x y || (x == y && text_lt xs ys)

pub text_lt_irrefl : (a : Text) → text_lt a a ≡ false
unfolding text_lt
text_lt_irrefl [] = refl
text_lt_irrefl (x ∷ xs) = ground (arith, text_lt_irrefl xs)

pub text_lt_trans : (a b c : Text) → text_lt a b ≡ true → text_lt b c ≡ true → text_lt a c ≡ true
unfolding text_lt
text_lt_trans [] [] c h k = cc
text_lt_trans [] (y ∷ ys) [] h k = cc
text_lt_trans [] (y ∷ ys) (z ∷ zs) h k = refl
text_lt_trans (x ∷ xs) [] c h k = cc
text_lt_trans (x ∷ xs) (y ∷ ys) [] h k = cc
text_lt_trans (x ∷ xs) (y ∷ ys) (z ∷ zs) h k = ground (arith, text_lt_trans xs ys zs)

pub text_lt_asym : (a b : Text) → text_lt a b ≡ true → text_lt b a ≡ false
unfolding text_lt
text_lt_asym [] [] h = refl
text_lt_asym [] (y ∷ ys) h = refl
text_lt_asym (x ∷ xs) [] h = cc
text_lt_asym (x ∷ xs) (y ∷ ys) h = ground (arith, text_lt_asym xs ys)

pub text_lt_total : (a b : Text) → text_lt a b ≡ false → text_lt b a ≡ false → a ≡ b
unfolding text_lt
text_lt_total [] [] h k = refl
text_lt_total [] (y ∷ ys) h k = cc
text_lt_total (x ∷ xs) [] h k = cc
text_lt_total (x ∷ xs) (y ∷ ys) h k = ground (arith, text_lt_total xs ys)

module _ {ℓ} {A : Type ℓ} where
  unfoldable pub insert_by : (A → Text) → A → List A → List A
  unfolding text_lt
  insert_by key x [] = x ∷ []
  insert_by key x (y ∷ ys) =
      let rest = insert_by key x ys in if text_lt (key y) (key x) then y ∷ rest else x ∷ y ∷ ys

  unfoldable pub sort_by : (A → Text) → List A → List A
  unfolding insert_by
  sort_by key [] = []
  sort_by key (x ∷ xs) = insert_by key x (sort_by key xs)

  pub insert_by-perm : (key : A → Text) (x : A) (xs : List A) → Permᴰ (insert_by key x xs) (x ∷ xs)
  unfolding insert_by
  insert_by-perm key x [] = Permᴰ.refl (x ∷ [])
  insert_by-perm key x (y ∷ ys) = elim (Bool-cases (text_lt (key y) (key x))) [
    | inl later ↦
        rw (later, insert_by)
          (Permᴰ.trans (Permᴰ.cons refl (insert_by-perm key x ys)) (Permᴰ.swap refl refl))
    | inr here ↦ rw (here, insert_by) (Permᴰ.refl (x ∷ y ∷ ys))
  ]

  pub sort_by-perm : (key : A → Text) (xs : List A) → Permᴰ (sort_by key xs) xs
  unfolding sort_by
  sort_by-perm key [] = Permᴰ.nil
  sort_by-perm key (x ∷ xs) =
      Permᴰ.trans (insert_by-perm key x (sort_by key xs)) (Permᴰ.cons refl (sort_by-perm key xs))

  -- Two members of different keys can be inserted in either order.
  pub insert_by_comm :
      (key : A → Text) (x y : A) (zs : List A)
      → key x ≢ key y
      → insert_by key x (insert_by key y zs) ≡ insert_by key y (insert_by key x zs)
  unfolding insert_by
  insert_by_comm key x y [] ne =
      ground (arith, text_lt_asym (key x) (key y), text_lt_total (key x) (key y))
  insert_by_comm key x y (z ∷ zs) ne = ground (
    arith,
    text_lt_asym (key x) (key y),
    text_lt_total (key x) (key y),
    text_lt_trans (key z) (key x) (key y),
    text_lt_trans (key z) (key y) (key x),
    insert_by_comm key x y zs ne,
  )

  -- No two members have the same key.
  abbrev pub Unique : (A → Text) → List A → Type 0
  Unique key [] = Unit {0}
  Unique key (x ∷ xs) = All (λ y. key x ≢ key y) xs × Unique key xs

  pub Permᴰ-All {κ} : (P : A → Type κ) {xs ys : List A} → Permᴰ xs ys → All P xs → All P ys
  Permᴰ-All P Permᴰ.nil h = tt
  Permᴰ-All P (Permᴰ.cons e d) (h, hs) = (subst P e h, Permᴰ-All P d hs)
  Permᴰ-All P (Permᴰ.swap e f) (h, (k, hs)) = (subst P f k, (subst P e h, hs))
  Permᴰ-All P (Permᴰ.trans d e) h = Permᴰ-All P e (Permᴰ-All P d h)

  pub Unique-Permᴰ : (key : A → Text) {xs ys : List A} → Permᴰ xs ys → Unique key xs → Unique key ys
  Unique-Permᴰ key Permᴰ.nil u = tt
  Unique-Permᴰ key (Permᴰ.cons {a} {b} {l₂ = l} e d) (new, u) = (
    subst (λ c. All (λ y. key c ≢ key y) l) e (Permᴰ-All (λ y. key a ≢ key y) d new),
    Unique-Permᴰ key d u,
  )
  Unique-Permᴰ key (Permᴰ.swap {a} {b} {l = l} e f) ((ne, new_a), (new_b, u)) = (
    (
      λ q. ne (ap key e ∙ (sym q ∙ sym (ap key f))),
      subst (λ c. All (λ y. key c ≢ key y) l) f new_b,
    ),
    (subst (λ c. All (λ y. key c ≢ key y) l) e new_a, u),
  )
  Unique-Permᴰ key (Permᴰ.trans d e) u = Unique-Permᴰ key e (Unique-Permᴰ key d u)

  -- Sorting by keys that all differ forgets the order of the list.
  pub sort_by-Permᴰ :
      (key : A → Text) {xs ys : List A}
      → Permᴰ xs ys
      → Unique key xs
      → sort_by key xs ≡ sort_by key ys
  unfolding sort_by
  sort_by-Permᴰ key Permᴰ.nil u = refl
  sort_by-Permᴰ key (Permᴰ.cons e d) (new, u) = cc (e, sort_by-Permᴰ key d u)
  sort_by-Permᴰ key (Permᴰ.swap {a} {b} {a'} {b'} {l = l} e f) ((ne, new_a), u) =
      insert_by_comm key a b (sort_by key l) ne ∙ cc (e, f)
  sort_by-Permᴰ key (Permᴰ.trans d e) u =
      sort_by-Permᴰ key d u ∙ sort_by-Permᴰ key e (Unique-Permᴰ key d u)

  -- Ascending by the key.
  abbrev pub IsSorted : (A → Text) → List A → Type 0
  IsSorted key [] = Unit {0}
  IsSorted key (x ∷ xs) = All (λ y. text_lt (key y) (key x) ≡ false) xs × IsSorted key xs

  insert_by-IsSorted :
      (key : A → Text) (x : A) (xs : List A) → IsSorted key xs → IsSorted key (insert_by key x xs)
  unfolding insert_by
  insert_by-IsSorted key x [] s = (tt, tt)
  insert_by-IsSorted key x (y ∷ ys) (low, s) = elim (Bool-cases (text_lt (key y) (key x))) [
    | inl later ↦
        rw (later, insert_by)
          (
            Permᴰ-All (λ z. text_lt (key z) (key y) ≡ false) (Permᴰ.symm (insert_by-perm key x ys))
                (text_lt_asym (key y) (key x) later, low),
            insert_by-IsSorted key x ys s,
          )
    | inr here ↦ rw (here, insert_by) ((here, above here ys low), (low, s))
  ]
    where
      not_below :
          (z : A)
          → text_lt (key z) (key y) ≡ false
          → text_lt (key y) (key x) ≡ false
          → text_lt (key z) (key x) ≡ false
      not_below z a b = ground (
        arith,
        text_lt_total (key z) (key y),
        text_lt_trans (key y) (key z) (key x),
        text_lt_asym (key y) (key z),
      )

      above :
          text_lt (key y) (key x) ≡ false
          → (zs : List A) → All (λ z. text_lt (key z) (key y) ≡ false) zs
          → All (λ z. text_lt (key z) (key x) ≡ false) zs
      above here [] h = tt
      above here (z ∷ zs) (h, hs) = (not_below z h here, above here zs hs)

  pub sort_by-IsSorted : (key : A → Text) (xs : List A) → IsSorted key (sort_by key xs)
  unfolding sort_by
  sort_by-IsSorted key [] = tt
  sort_by-IsSorted key (x ∷ xs) =
      insert_by-IsSorted key x (sort_by key xs) (sort_by-IsSorted key xs)
