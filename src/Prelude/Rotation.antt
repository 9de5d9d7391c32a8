-- ===== src/Prelude/Rotation.antt =====
-- A list read round its end: for scans that start in the middle, and for the log's ring.
use native.Mathlib.Decide.{dec_lt}
use native.Mathlib.Nat.{mod-eq_of_lt, mod-eq-sub-mod}
use Prim.Native.Nat.{ℕ, ◌+◌, ◌-◌, ◌%◌, ◌<◌}
use mathlib.Core.Path.{◌≡◌, sym, ap, ◌∙◌, subst}
use mathlib.Core.List.{List, ◌++◌}
use native.Mathlib.Omega.{arith}
use easy_proxy_pool.Prelude.Lists.{
  length, get_elem?, take, drop, All, length-append, length-drop, length-take,
  get_elem?-append_left, get_elem?-append_right, get_elem?-drop, get_elem?-take, take-append-drop,
  All-append, All-append_left, All-append_right,
}

module _ {ℓ} {A : Type ℓ} where
  -- The list from position `i` on, and then from its beginning.
  abbrev pub rotate : ℕ → List A → List A
  rotate i es = drop i es ++ take i es

  pub get_elem?-rotate :
      (es : List A) (s j : ℕ)
      → s < length es
      → j < length es
      → get_elem? (rotate s es) j ≡ get_elem? es ((s + j) % length es)
  get_elem?-rotate es s j hs hj = elim (dec_lt (s + j) (length es)) [
    | yes p ↦
        get_elem?-append_left (drop s es) (take s es) j (omega (arith, length-drop s es))
        ∙ (get_elem?-drop s es j ∙ ap (get_elem? es) (sym (mod-eq_of_lt p)))
    | no p ↦
        get_elem?-append_right (drop s es) (take s es) j (omega (arith, length-drop s es))
        ∙ (get_elem?-take s es _ (omega (arith, length-drop s es))
            ∙ ap (get_elem? es) (wrapped p ∙ sym (over p)))
  ]
    where
      over : ¬ (s + j < length es) → (s + j) % length es ≡ s + j - length es
      over p = omega (
        arith,
        mod-eq-sub-mod {n = s + j} {m = length es} (omega arith),
        mod-eq_of_lt {n = s + j - length es} {m = length es} (omega arith),
      )

      wrapped : ¬ (s + j < length es) → j - length (drop s es) ≡ s + j - length es
      wrapped p = omega (arith, length-drop s es)

  pub length-rotate : (es : List A) (s : ℕ) → s < length es → length (rotate s es) ≡ length es
  length-rotate es s h =
      omega (arith, length-append (drop s es) (take s es), length-drop s es, length-take s es)

  pub All-rotate {κ} : (P : A → Type κ) (s : ℕ) (es : List A) → All P (rotate s es) → All P es
  All-rotate P s es h = subst (All P) (take-append-drop s es) (
      All-append P (take s es) (drop s es) (All-append_right P (drop s es) (take s es) h)
        (All-append_left P (drop s es) (take s es) h))

  pub All-unrotate {κ} : (P : A → Type κ) (s : ℕ) (es : List A) → All P es → All P (rotate s es)
  All-unrotate P s es h =
      let whole : All P (take s es ++ drop s es) = subst (All P) (sym (take-append-drop s es)) h in
      All-append P (drop s es) (take s es) (All-append_right P (take s es) (drop s es) whole)
        (All-append_left P (take s es) (drop s es) whole)
