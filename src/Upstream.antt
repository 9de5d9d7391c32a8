-- ===== src/Upstream.antt =====
-- internal/upstream/spec.go: the upstream nodes and their stable IDs.
pub mod Dedup
pub mod Known
pub mod Headers
pub mod Summary
use easy_proxy_pool.Prelude.{
  ℕ, ◌+◌, ◌++◌, ◌/◌, ◌%◌, Bool, true, false, Option, none, some, List, [], ◌∷◌, if◌then◌else◌, map,
  take, ltb,
}
use easy_proxy_pool.Prelude.Text.{Text, bytes, trim_space, to_lower, is_blank, text_eq, contains}
use easy_proxy_pool.Prelude.Map.{Map, lookup}
use easy_proxy_pool.Prelude.Decimal.{itoa}
use easy_proxy_pool.Prelude.Sort.{sort_by}

-- The values of Type; other texts can occur.
abbrev pub type_socks5 : Text
type_socks5 = bytes "socks5"

abbrev pub type_http : Text
type_http = bytes "http"

abbrev pub type_shadowsocks : Text
type_shadowsocks = bytes "shadowsocks"

abbrev pub type_vmess : Text
type_vmess = bytes "vmess"

abbrev pub type_vless : Text
type_vless = bytes "vless"

abbrev pub type_trojan : Text
type_trojan = bytes "trojan"

pub record Socks5Config : Type 0 where
  pub username : Text
  pub password : Text

pub record HttpConfig : Type 0 where
  pub username : Text
  pub password : Text

pub record ShadowsocksConfig : Type 0 where
  pub method : Text
  pub password : Text

-- A nil map of headers is an empty one.
pub record VMessConfig : Type 0 where
  pub uuid : Text
  pub alter_id : ℕ
  pub security : Text
  pub tls : Bool
  pub skip_cert_verify : Bool
  pub server_name : Text
  pub network : Text
  pub ws_path : Text
  pub headers : Map Text

pub record VlessConfig : Type 0 where
  pub uuid : Text
  pub flow : Text
  pub tls : Bool
  pub skip_cert_verify : Bool
  pub server_name : Text
  pub network : Text
  pub ws_path : Text
  pub headers : Map Text

pub record TrojanConfig : Type 0 where
  pub password : Text
  pub tls : Bool
  pub skip_cert_verify : Bool
  pub server_name : Text
  pub network : Text
  pub ws_path : Text
  pub headers : Map Text

-- `none` is a nil pointer.
pub record Spec : Type 0 where
  pub id : Text
  pub name : Text
  pub kind : Text
  pub server : Text
  pub port : ℕ
  pub socks5 : Option Socks5Config
  pub http : Option HttpConfig
  pub shadowsocks : Option ShadowsocksConfig
  pub vmess : Option VMessConfig
  pub vless : Option VlessConfig
  pub trojan : Option TrojanConfig

-- Spec{}
abbrev pub empty_spec : Spec
empty_spec = record {
  id = [];
  name = [];
  kind = [];
  server = [];
  port = 0;
  socks5 = none;
  http = none;
  shadowsocks = none;
  vmess = none;
  vless = none;
  trojan = none;
}

-- strings.Join
unfoldable pub join : Text → List Text → Text
join sep [] = []
join sep (t ∷ []) = t
join sep (t ∷ u ∷ ts) = t ++ (sep ++ join sep (u ∷ ts))

-- h[k], which is "" for a key that is missing.
abbrev pub header_value : Option Text → Text
header_value none = []
header_value (some v) = v

abbrev pub keys : Map Text → List Text
keys h = map (λ (k, v). k) h

unfoldable pub header_part : Map Text → Text → Text
unfolding lookup
header_part h k = k ++ (bytes "=" ++ header_value (lookup h k))

unfoldable pub canonical_headers : Map Text → Text
unfolding sort_by to_lower header_part join
canonical_headers h =
    join (bytes "&") (map (header_part h) (sort_by (λ k. k) (map to_lower (keys h))))

abbrev pub format_bool : Bool → Text
format_bool true = bytes "true"
format_bool false = bytes "false"

unfoldable pub canonical_stream_common : Text → List Text → Text
unfolding join
canonical_stream_common prefix kv = join (bytes ",") (prefix ∷ kv)

-- The cases of `canonicalStream`. The pointer is not nil as an `any` even where it is nil itself, and
-- then reading a field panics: `none`.
unfoldable pub canonical_vmess : Option VMessConfig → Option Text
unfolding canonical_stream_common canonical_headers itoa
canonical_vmess none = none
canonical_vmess (some cfg) = some (
    canonical_stream_common (bytes "vmess") (
      (bytes "uuid=" ++ cfg.uuid)
      ∷ (bytes "aid=" ++ itoa cfg.alter_id)
      ∷ (bytes "sec=" ++ cfg.security)
      ∷ (bytes "tls=" ++ format_bool cfg.tls)
      ∷ (bytes "skip=" ++ format_bool cfg.skip_cert_verify)
      ∷ (bytes "sni=" ++ cfg.server_name)
      ∷ (bytes "net=" ++ cfg.network)
      ∷ (bytes "wspath=" ++ cfg.ws_path)
      ∷ (bytes "hdr=" ++ canonical_headers cfg.headers)
      ∷ []))

unfoldable pub canonical_vless : Option VlessConfig → Option Text
unfolding canonical_stream_common canonical_headers
canonical_vless none = none
canonical_vless (some cfg) = some (
    canonical_stream_common (bytes "vless") (
      (bytes "uuid=" ++ cfg.uuid)
      ∷ (bytes "flow=" ++ cfg.flow)
      ∷ (bytes "tls=" ++ format_bool cfg.tls)
      ∷ (bytes "skip=" ++ format_bool cfg.skip_cert_verify)
      ∷ (bytes "sni=" ++ cfg.server_name)
      ∷ (bytes "net=" ++ cfg.network)
      ∷ (bytes "wspath=" ++ cfg.ws_path)
      ∷ (bytes "hdr=" ++ canonical_headers cfg.headers)
      ∷ []))

unfoldable pub canonical_trojan : Option TrojanConfig → Option Text
unfolding canonical_stream_common canonical_headers
canonical_trojan none = none
canonical_trojan (some cfg) = some (
    canonical_stream_common (bytes "trojan") (
      (bytes "pass=" ++ cfg.password)
      ∷ (bytes "tls=" ++ format_bool cfg.tls)
      ∷ (bytes "skip=" ++ format_bool cfg.skip_cert_verify)
      ∷ (bytes "sni=" ++ cfg.server_name)
      ∷ (bytes "net=" ++ cfg.network)
      ∷ (bytes "wspath=" ++ cfg.ws_path)
      ∷ (bytes "hdr=" ++ canonical_headers cfg.headers)
      ∷ []))

abbrev pub login_parts : Text → Text → List Text
login_parts username password = (bytes "user=" ++ username) ∷ (bytes "pass=" ++ password) ∷ []

abbrev pub socks5_parts : Option Socks5Config → List Text
socks5_parts none = []
socks5_parts (some cfg) = login_parts cfg.username cfg.password

abbrev pub http_parts : Option HttpConfig → List Text
http_parts none = []
http_parts (some cfg) = login_parts cfg.username cfg.password

unfoldable pub shadowsocks_parts : Option ShadowsocksConfig → List Text
unfolding to_lower trim_space
shadowsocks_parts none = []
shadowsocks_parts (some cfg) =
    (bytes "method=" ++ to_lower (trim_space cfg.method)) ∷ (bytes "pass=" ++ cfg.password) ∷ []

abbrev pub one_part : Option Text → Option (List Text)
one_part none = none
one_part (some t) = some (t ∷ [])

-- The switch on the type: the parts it adds.
unfoldable pub kind_parts : Spec → Option (List Text)
unfolding text_eq shadowsocks_parts canonical_vmess canonical_vless canonical_trojan
kind_parts s =
    if text_eq s.kind type_socks5
    then some (socks5_parts s.socks5)
    else if text_eq s.kind type_http
    then some (http_parts s.http)
    else if text_eq s.kind type_shadowsocks
    then some (shadowsocks_parts s.shadowsocks)
    else if text_eq s.kind type_vmess
    then one_part (canonical_vmess s.vmess)
    else if text_eq s.kind type_vless
    then one_part (canonical_vless s.vless)
    else if text_eq s.kind type_trojan
    then one_part (canonical_trojan s.trojan)
    else some []

unfoldable pub common_parts : Spec → List Text
unfolding trim_space to_lower itoa
common_parts s =
    (bytes "type=" ++ s.kind)
    ∷ (bytes "server=" ++ trim_space (to_lower s.server))
    ∷ (bytes "port=" ++ itoa s.port)
    ∷ []

-- `none` is a panic.
unfoldable pub canonical_string : Spec → Option Text
unfolding kind_parts common_parts join
canonical_string s = elim (kind_parts s) [
  | none ↦ none
  | some parts ↦ some (join (bytes "|") (common_parts s ++ parts))
]

abbrev pub hex_digit : ℕ → ℕ
hex_digit n = if ltb n 10 then b'0' + n else 87 + n

-- hex.EncodeToString
unfoldable pub encode_to_string : Text → Text
encode_to_string [] = []
encode_to_string (b ∷ s) = hex_digit (b / 16) ∷ hex_digit (b % 16) ∷ encode_to_string s

abbrev pub and_spec : Spec → Option (List Spec) → Option (List Spec)
and_spec s none = none
and_spec s (some out) = some (s ∷ out)

-- The IDs, with sha256.Sum256 as `sum256`.
module _ (sum256 : Text → Text) where
  unfoldable pub stable_node_id : Spec → Option Text
  unfolding canonical_string encode_to_string
  stable_node_id s = elim (canonical_string s) [
    | none ↦ none
    | some text ↦ some (bytes "n-" ++ take 12 (encode_to_string (sum256 text)))
  ]

  unfoldable pub normalize : Spec → Option Spec
  unfolding stable_node_id
  normalize s = elim (stable_node_id s) [ none ↦ none | some id ↦ some (record s { id = id }) ]

  -- The spec with an ID: its own, or the stable one if it has none.
  unfoldable pub with_id : Spec → Option Spec
  unfolding is_blank normalize
  with_id s = if is_blank s.id then normalize s else some s

  -- The loop of `Deduplicate`, with the keys of `seen`; `none` is a panic.
  unfoldable pub dedup_loop : List Text → List Spec → Option (List Spec)
  unfolding with_id contains
  dedup_loop seen [] = some []
  dedup_loop seen (s ∷ rest) = elim (with_id s) [
    | none ↦ none
    | some named ↦ elim (contains seen named.id) [
      | true ↦ dedup_loop seen rest
      | false ↦ and_spec named (dedup_loop (named.id ∷ seen) rest)
    ]
  ]

  unfoldable pub deduplicate : List Spec → Option (List Spec)
  unfolding dedup_loop
  deduplicate specs = dedup_loop [] specs
