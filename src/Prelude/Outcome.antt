-- ===== src/Prelude/Outcome.antt =====
-- What a call in Go ends with: a value, an error, known by its text, or a panic.

use mathlib.Core.List.{◌++◌}
use easy_proxy_pool.Prelude.Text.{Text}

pub data Outcome {ℓ} (A : Type ℓ) : Type ℓ where
  done : A → Outcome A
  failed : Text → Outcome A
  panicked : Outcome A

-- What follows a call that ends well; an error or a panic is passed on.
abbrev pub and_then {ℓ κ} : {A : Type ℓ} {B : Type κ} → Outcome A → (A → Outcome B) → Outcome B
and_then (done a) f = f a
and_then (failed e) f = failed e
and_then panicked f = panicked

-- An error with a text in front: fmt.Errorf("...: %w", err)
abbrev pub wrap {ℓ} : {A : Type ℓ} → Text → Outcome A → Outcome A
wrap text (done a) = done a
wrap text (failed e) = failed (text ++ e)
wrap text panicked = panicked

-- `P` holds of the value, if there is one.
abbrev pub Ensures {ℓ κ} : {A : Type ℓ} → (A → Type κ) → Outcome A → Type κ
Ensures P (done a) = P a
Ensures P (failed e) = Unit
Ensures P panicked = Unit

pub Ensures-and_then {ℓ κ μ} :
    {A : Type ℓ} {B : Type κ} (P : A → Type μ) (Q : B → Type μ) (x : Outcome A) (f : A → Outcome B)
    → Ensures P x
    → ((a : A) → P a → Ensures Q (f a))
    → Ensures Q (and_then x f)
Ensures-and_then P Q (done a) f h k = k a h
Ensures-and_then P Q (failed e) f h k = tt
Ensures-and_then P Q panicked f h k = tt

pub Ensures-map {ℓ μ} :
    {A : Type ℓ} (P Q : A → Type μ) (x : Outcome A)
    → ((a : A) → P a → Q a)
    → Ensures P x
    → Ensures Q x
Ensures-map P Q (done a) k h = k a h
Ensures-map P Q (failed e) k h = tt
Ensures-map P Q panicked k h = tt

-- The call does not panic, and `P` holds of the value if there is one.
abbrev pub Returns {ℓ} : {A : Type ℓ} → (A → Type 0) → Outcome A → Type 0
Returns P (done a) = P a
Returns P (failed e) = Unit
Returns P panicked = ⊥

pub Returns-and_then {ℓ κ} :
    {A : Type ℓ} {B : Type κ} (P : A → Type 0) (Q : B → Type 0) (x : Outcome A) (f : A → Outcome B)
    → Returns P x
    → ((a : A) → P a → Returns Q (f a))
    → Returns Q (and_then x f)
Returns-and_then P Q (done a) f h k = k a h
Returns-and_then P Q (failed e) f h k = tt
Returns-and_then P Q panicked f h k = absurd h
