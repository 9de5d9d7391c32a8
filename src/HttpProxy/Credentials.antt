-- ===== src/HttpProxy/Credentials.antt =====
-- `authorizeHTTP` and `parseBasicAuth` of internal/server/httpproxy/proxy.go, with the decoding of
-- encoding/base64 that they use.
use easy_proxy_pool.Prelude.{
  ℕ, ◌+◌, ◌-◌, ◌*◌, ◌/◌, ◌%◌, ◌++◌, Bool, true, false, ◌&&◌, ◌||◌, not, Option, none, some, [], ◌∷◌,
  if◌then◌else◌, leb, ◌==◌, drop, length, filter,
}
use easy_proxy_pool.Prelude.Text.{Text, bytes, trim_space, to_lower, has_prefix, text_eq, contains}
use easy_proxy_pool.Config.{AuthConfig}
use easy_proxy_pool.HttpProxy.Header.{Header, header_get}

-- The six bits of a letter of the standard alphabet.
unfoldable pub sextet : ℕ → Option ℕ
sextet c =
    if leb b'A' c && leb c b'Z'
    then some (c - 65)
    else if leb b'a' c && leb c b'z'
    then some (c - 71)
    else if leb b'0' c && leb c b'9'
    then some (c + 4)
    else if c == b'+'
    then some 62
    else if c == b'/'
    then some 63
    else none

infixl 5 ◌>>=◌
abbrev ◌>>=◌ {ℓ κ} : {A : Type ℓ} {B : Type κ} → Option A → (A → Option B) → Option B
none >>= f = none
some a >>= f = f a

-- The bytes of the first, the first two and all letters of a group, of the six bits of each.
abbrev byte1 : ℕ → ℕ → ℕ
byte1 x y = x * 4 + y / 16

abbrev byte2 : ℕ → ℕ → ℕ
byte2 y z = y % 16 * 16 + z / 4

abbrev byte3 : ℕ → ℕ → ℕ
byte3 z w = z % 4 * 64 + w

-- A group that ends in `==`, one that ends in `=`, and a full one, before the rest.
unfoldable pub group_of_one : Text → ℕ → ℕ → ℕ → Option Text
group_of_one s x y d = if d == b'=' && length s == 0 then some (byte1 x y ∷ []) else none

unfoldable pub group_of_two : Text → ℕ → ℕ → ℕ → Option Text
group_of_two s x y z = if length s == 0 then some (byte1 x y ∷ byte2 y z ∷ []) else none

unfoldable pub group_of_three : Option Text → ℕ → ℕ → ℕ → ℕ → Option Text
group_of_three rest x y z w = do t ← rest; some (byte1 x y ∷ byte2 y z ∷ byte3 z w ∷ t)

-- Groups of four letters; the last may be filled up with one or two `=`.
unfoldable pub decode_groups : Text → Option Text
unfolding sextet group_of_one group_of_two group_of_three
decode_groups [] = some []
decode_groups (a ∷ []) = none
decode_groups (a ∷ b ∷ []) = none
decode_groups (a ∷ b ∷ c ∷ []) = none
decode_groups (a ∷ b ∷ c ∷ d ∷ s) =
    let rest = decode_groups s in
    sextet a >>= λ x. sextet b >>= λ y.
    if c == b'='
    then group_of_one s x y d
    else (sextet c >>= λ z.
        if d == b'=' then group_of_two s x y z else (sextet d >>= λ w. group_of_three rest x y z w))

-- base64.StdEncoding.DecodeString, which passes over line ends; `none` is an error.
unfoldable pub decode_string : Text → Option Text
unfolding decode_groups
decode_string s = decode_groups (filter (λ c. not (c == 10 || c == 13)) s)

-- strings.SplitN(s, ":", 2), with what was read before the colon; `none` if there is no colon.
unfoldable pub cut_colon : Text → Text → Option (Text × Text)
cut_colon before [] = none
cut_colon before (c ∷ s) = elim (c == b':') [
  | true ↦ some (before, s)
  | false ↦ cut_colon (before ++ (c ∷ [])) s
]

unfoldable pub parse_basic_auth : Text → Option (Text × Text)
unfolding has_prefix trim_space decode_string cut_colon
parse_basic_auth v =
    if has_prefix v (bytes "Basic ")
    then elim (decode_string (trim_space (drop 6 v))) [
      | none ↦ none
      | some decoded ↦ cut_colon [] decoded
    ]
    else none

-- The test of each mode on what the request presents.
unfoldable pub matches_both : AuthConfig → Option (Text × Text) → Bool
unfolding text_eq
matches_both a none = false
matches_both a (some (user, pass)) = text_eq user a.username && text_eq pass a.password

unfoldable pub matches_password : AuthConfig → Option (Text × Text) → Bool
unfolding text_eq
matches_password a none = false
matches_password a (some (user, pass)) = text_eq pass a.password

-- authorizeHTTP: false is a reply 407 with a "Proxy-Authenticate" header.
unfoldable pub authorize_http : AuthConfig → Header → Bool
unfolding contains text_eq header_get parse_basic_auth matches_both matches_password
authorize_http a h =
    let mode = to_lower (trim_space a.mode) in
    let given = parse_basic_auth (header_get h (bytes "Proxy-Authorization")) in
    if contains ([] ∷ bytes "disabled" ∷ []) mode
    then true
    else if text_eq mode (bytes "basic")
    then matches_both a given
    else if text_eq mode (bytes "shared_password")
    then matches_password a given
    else false
