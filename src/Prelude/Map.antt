-- ===== src/Prelude/Map.antt =====
-- A Go map with text keys as an association list: a write changes the key's pair where it stands,
-- or adds one at the end.
use mathlib.Core.Path.{◌≡◌, refl}
use mathlib.Core.List.{List, [], ◌∷◌}
use mathlib.Core.Option.{Option, none, some}
use native.Mathlib.Omega.{arith}
use easy_proxy_pool.Prelude.Tests.{if◌then◌else◌}
use easy_proxy_pool.Prelude.Text.{Text, text_eq, text_eq_iff}

abbrev pub Map {ℓ} : Type ℓ → Type ℓ
Map V = List (Text × V)

module _ {ℓ} {V : Type ℓ} where
  -- v, ok := m[k]
  unfoldable pub lookup : Map V → Text → Option V
  unfolding text_eq
  lookup [] k = none
  lookup ((j, v) ∷ m) k = if text_eq j k then some v else lookup m k

  -- m[k] = v
  unfoldable pub insert : Map V → Text → V → Map V
  unfolding text_eq
  insert [] k v = (k, v) ∷ []
  insert ((j, w) ∷ m) k v = if text_eq j k then (j, v) ∷ m else (j, w) ∷ insert m k v

  pub lookup-insert :
      (m : Map V) (k : Text) (v : V) (j : Text)
      → lookup (insert m k v) j ≡ (if text_eq k j then some v else lookup m j)
  unfolding lookup insert
  lookup-insert [] k v j = refl
  lookup-insert ((i, w) ∷ m) k v j =
      ground (arith, text_eq_iff k j, text_eq_iff i k, text_eq_iff i j, lookup-insert m k v j)

  -- delete(m, k)
  unfoldable pub delete : Map V → Text → Map V
  unfolding text_eq
  delete [] k = []
  delete ((j, v) ∷ m) k = if text_eq j k then delete m k else (j, v) ∷ delete m k

  pub lookup-delete :
      (m : Map V) (k j : Text) → lookup (delete m k) j ≡ (if text_eq k j then none else lookup m j)
  unfolding lookup delete
  lookup-delete [] k j = ground arith
  lookup-delete ((i, w) ∷ m) k j =
      ground (arith, text_eq_iff k j, text_eq_iff i k, text_eq_iff i j, lookup-delete m k j)
