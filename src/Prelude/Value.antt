-- ===== src/Prelude/Value.antt =====
-- Go's `any`, as far as decoded documents and the maps that are encoded give it: a map[string]any is
-- `object`, a slice `array`. A float64 is known by its bits. An int is a 64-bit word.
use Prim.Native.Nat.{ℕ}
use mathlib.Core.Bool.{Bool}
use mathlib.Core.Option.{Option, none, some}
use mathlib.Core.List.{List, [], ◌∷◌}
use easy_proxy_pool.Prelude.Tests.{if◌then◌else◌}
use easy_proxy_pool.Prelude.Text.{Text, text_eq}

mutual
  pub data Value : Type 0 where
    null : Value
    boolean : Bool → Value
    int int64 float64 : ℕ → Value
    string : Text → Value
    array : Items → Value
    object : Fields → Value

  pub data Items : Type 0 where
    no_items : Items
    item : Value → Items → Items

  pub data Fields : Type 0 where
    no_fields : Fields
    field : Text → Value → Fields → Fields

-- v, ok := m[k]
unfoldable pub get_field : Fields → Text → Option Value
unfolding text_eq
get_field no_fields k = none
get_field (field j v m) k = let rest = get_field m k in if text_eq j k then some v else rest

-- A slice of texts, and of the values made of each member.
unfoldable pub string_items : List Text → Items
string_items [] = no_items
string_items (t ∷ ts) = item (string t) (string_items ts)

unfoldable pub items_of : List Value → Items
items_of [] = no_items
items_of (v ∷ vs) = item v (items_of vs)

-- A map literal, and a map of texts.
unfoldable pub fields_of : List (Text × Value) → Fields
fields_of [] = no_fields
fields_of ((k, v) ∷ kvs) = field k v (fields_of kvs)

unfoldable pub string_fields : List (Text × Text) → Fields
string_fields [] = no_fields
string_fields ((k, v) ∷ kvs) = field k (string v) (string_fields kvs)
