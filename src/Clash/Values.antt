-- ===== src/Clash/Values.antt =====
-- internal/clash/parser.go: the values of a decoded proxy.
use easy_proxy_pool.Prelude.{
  ℕ, ◌||◌, not, ◌==◌, Bool, true, false, Option, none, some, List, [], ◌∷◌, if◌then◌else◌,
}
use easy_proxy_pool.Prelude.Text.{Text, bytes, trim_space, to_lower, is_blank, text_eq}
use easy_proxy_pool.Prelude.Map.{Map, insert}
use easy_proxy_pool.Prelude.Decimal.{atoi}
use easy_proxy_pool.Prelude.Value.{
  Value, null, boolean, int, int64, float64, string, object, Fields, no_fields, field, get_field,
}
use easy_proxy_pool.Prelude.Outcome.{Outcome}

-- The libraries' functions.
pub record Decoding : Type 0 where
  pub unmarshal : Text → Outcome (List Fields)
  pub sprint : Value → Text
  pub quote : Text → Text
  pub truncate : ℕ → ℕ

unfoldable pub first_non_empty : List Text → Text
unfolding is_blank
first_non_empty [] = []
first_non_empty (v ∷ vs) = if not (is_blank v) then v else first_non_empty vs

module _ (dec : Decoding) where
  -- What fmt.Sprint makes of a value, if that is to be used.
  unfoldable pub printed : Text → Option Text
  unfolding trim_space text_eq
  printed s = if text_eq s [] || text_eq s (bytes "<nil>") then none else some (trim_space s)

  -- The text of a value; for `none` the next key is tried.
  unfoldable pub string_of : Option Value → Option Text
  unfolding trim_space printed
  string_of none = none
  string_of (some null) = none
  string_of (some (string x)) = some (trim_space x)
  string_of (some x) = printed (dec.sprint x)

  unfoldable pub get_string : Fields → List Text → Text
  unfolding get_field string_of
  get_string m [] = []
  get_string m (k ∷ ks) = elim (string_of (get_field m k)) [ none ↦ get_string m ks | some s ↦ s ]

  -- i, _ := strconv.Atoi(...); if i != 0 { return i }
  unfoldable pub non_zero : ℕ → Option ℕ
  non_zero i = if i == 0 then none else some i

  unfoldable pub int_of : Option Value → Option ℕ
  unfolding trim_space atoi non_zero
  int_of none = none
  int_of (some null) = none
  int_of (some (int x)) = some x
  int_of (some (int64 x)) = some x
  int_of (some (float64 x)) = some (dec.truncate x)
  int_of (some (string x)) = non_zero (atoi (trim_space x)).0
  int_of (some x) = non_zero (atoi (trim_space (dec.sprint x))).0

  unfoldable pub get_int : Fields → List Text → ℕ
  unfolding get_field int_of
  get_int m [] = 0
  get_int m (k ∷ ks) = elim (int_of (get_field m k)) [ none ↦ get_int m ks | some i ↦ i ]

  unfoldable pub is_yes : Text → Bool
  unfolding text_eq
  is_yes s =
      text_eq s (bytes "true")
      || (text_eq s (bytes "1") || (text_eq s (bytes "yes") || text_eq s (bytes "y")))

  unfoldable pub bool_of : Option Value → Option Bool
  unfolding trim_space to_lower is_yes
  bool_of (some (boolean x)) = some x
  bool_of (some (string x)) = if is_yes (to_lower (trim_space x)) then some true else none
  bool_of _ = none

  unfoldable pub get_bool : Fields → List Text → Bool
  unfolding get_field bool_of
  get_bool m [] = false
  get_bool m (k ∷ ks) = elim (bool_of (get_field m k)) [ none ↦ get_bool m ks | some b ↦ b ]

  -- The headers that are texts. A nil map and an empty one are not told apart later.
  unfoldable pub string_headers : Map Text → Fields → Map Text
  unfolding insert
  string_headers h no_fields = h
  string_headers h (field k (string s) m) = string_headers (insert h k s) m
  string_headers h (field k _ m) = string_headers h m

  unfoldable pub headers_of : Option Value → Map Text
  unfolding string_headers
  headers_of (some (object m)) = string_headers [] m
  headers_of _ = []

  unfoldable pub ws_opts_of : Option Value → Text × Map Text
  unfolding get_string get_field headers_of
  ws_opts_of (some (object m)) =
      (get_string m (bytes "path" ∷ []), headers_of (get_field m (bytes "headers")))
  ws_opts_of _ = ([], [])

  unfoldable pub parse_ws_opts : Fields → Text × Map Text
  unfolding get_field ws_opts_of
  parse_ws_opts raw = ws_opts_of (get_field raw (bytes "ws-opts"))

  unfoldable pub get_one : Fields → Text → Text
  unfolding get_string
  get_one raw k = get_string raw (k ∷ [])

  unfoldable pub skip_cert_verify_of : Fields → Bool
  unfolding get_bool
  skip_cert_verify_of raw = get_bool raw (bytes "skip-cert-verify" ∷ bytes "skip_cert_verify" ∷ [])
