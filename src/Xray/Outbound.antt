-- ===== src/Xray/Outbound.antt =====
-- internal/xray/config.go: the outbound of a node, as the map that is encoded.
use easy_proxy_pool.Prelude.{
  Bool, true, ◌&&◌, ◌||◌, not, Option, none, some, List, [], ◌∷◌, ◌++◌, if◌then◌else◌, length, ltb,
}
use easy_proxy_pool.Prelude.Text.{Text, bytes, trim_space, to_lower, is_blank, text_eq}
use easy_proxy_pool.Prelude.Map.{Map}
use easy_proxy_pool.Prelude.Value.{
  Value, boolean, int, string, array, object, items_of, fields_of, string_fields,
}
use easy_proxy_pool.Upstream.{
  Spec, Socks5Config, HttpConfig, ShadowsocksConfig, VMessConfig, VlessConfig, TrojanConfig,
  type_socks5, type_http, type_shadowsocks, type_vmess, type_vless, type_trojan,
}

-- The values of Mode.
abbrev pub mode_strict : Text
mode_strict = bytes "strict"

abbrev pub mode_relaxed : Text
mode_relaxed = bytes "relaxed"

abbrev pub Pairs : Type 0
Pairs = List (Text × Value)

abbrev pub map_value : Pairs → Value
map_value kvs = object (fields_of kvs)

abbrev pub one_item : Value → Value
one_item v = array (items_of (v ∷ []))

unfoldable pub network_of : Text → Text
unfolding trim_space to_lower text_eq
network_of network =
    let n = to_lower (trim_space network) in if text_eq n [] then bytes "tcp" else n

unfoldable pub ws_settings : Text → Map Text → Value
unfolding fields_of string_fields
ws_settings ws_path headers = map_value (
    (bytes "path", string ws_path)
    ∷ (if ltb 0 (length headers)
        then (bytes "headers", object (string_fields headers)) ∷ []
        else []))

unfoldable pub tls_settings : Bool → Text → Text → Value
unfolding fields_of text_eq is_blank
tls_settings skip_cert_verify server_name mode = map_value (
    (bytes "allowInsecure", boolean (skip_cert_verify || text_eq mode mode_relaxed))
    ∷ (if not (is_blank server_name) then (bytes "serverName", string server_name) ∷ [] else []))

unfoldable pub build_stream_settings : Bool → Bool → Text → Text → Text → Map Text → Text → Value
unfolding fields_of text_eq network_of ws_settings tls_settings
build_stream_settings tls_enabled skip_cert_verify server_name network ws_path headers mode =
    map_value (
      (bytes "network", string (network_of network))
      ∷ ((if text_eq (network_of network) (bytes "ws")
            then (bytes "wsSettings", ws_settings ws_path headers) ∷ []
            else [])
          ++ (if tls_enabled
              then (bytes "security", string (bytes "tls"))
                ∷ (bytes "tlsSettings", tls_settings skip_cert_verify server_name mode)
                ∷ []
              else [])))

-- A server with a login, if one of its parts is not blank.
unfoldable pub login_server : Spec → Text → Text → Value
unfolding fields_of items_of is_blank
login_server s username password = map_value (
    (bytes "address", string s.server)
    ∷ (bytes "port", int s.port)
    ∷ (if not (is_blank username && is_blank password)
        then (
          bytes "users",
          one_item
              (map_value ((bytes "user", string username) ∷ (bytes "pass", string password) ∷ [])),
        )
          ∷ []
        else []))

unfoldable pub outbound : Spec → Text → Pairs → Pairs → Value
unfolding fields_of
outbound s protocol settings stream = map_value (
    (bytes "tag", string s.id)
    ∷ (bytes "protocol", string protocol)
    ∷ (bytes "settings", map_value settings)
    ∷ stream)

unfoldable pub server_outbound : Spec → Text → Value → Pairs → Value
unfolding outbound items_of
server_outbound s protocol server stream =
    outbound s protocol ((bytes "servers", one_item server) ∷ []) stream

unfoldable pub user_outbound : Spec → Text → Pairs → Pairs → Value
unfolding outbound items_of fields_of
user_outbound s protocol user stream =
    outbound s protocol
      ((
        bytes "vnext",
        one_item (
            map_value (
              (bytes "address", string s.server)
              ∷ (bytes "port", int s.port)
              ∷ (bytes "users", one_item (map_value user))
              ∷ [])),
      )
        ∷ [])
      stream

-- A nil configuration stands for an empty login.
unfoldable pub socks5_outbound : Spec → Option Socks5Config → Value
unfolding server_outbound login_server
socks5_outbound s none = server_outbound s (bytes "socks") (login_server s [] []) []
socks5_outbound s (some c) =
    server_outbound s (bytes "socks") (login_server s c.username c.password) []

unfoldable pub http_outbound : Spec → Option HttpConfig → Value
unfolding server_outbound login_server
http_outbound s none = server_outbound s (bytes "http") (login_server s [] []) []
http_outbound s (some c) =
    server_outbound s (bytes "http") (login_server s c.username c.password) []

unfoldable pub shadowsocks_outbound : Spec → Option ShadowsocksConfig → Option Value
unfolding server_outbound fields_of
shadowsocks_outbound s none = none
shadowsocks_outbound s (some c) = some (
    server_outbound s (bytes "shadowsocks")
      (map_value (
        (bytes "address", string s.server)
        ∷ (bytes "port", int s.port)
        ∷ (bytes "method", string c.method)
        ∷ (bytes "password", string c.password)
        ∷ []))
      [])

unfoldable pub trojan_outbound : Spec → Option TrojanConfig → Text → Option Value
unfolding server_outbound fields_of build_stream_settings
trojan_outbound s none mode = none
trojan_outbound s (some c) mode = some (
    server_outbound s (bytes "trojan")
      (map_value (
        (bytes "address", string s.server)
        ∷ (bytes "port", int s.port)
        ∷ (bytes "password", string c.password)
        ∷ []))
      ((
        bytes "streamSettings",
        build_stream_settings true c.skip_cert_verify c.server_name c.network c.ws_path c.headers
            mode,
      )
        ∷ []))

unfoldable pub vmess_outbound : Spec → Option VMessConfig → Text → Option Value
unfolding user_outbound build_stream_settings
vmess_outbound s none mode = none
vmess_outbound s (some c) mode = some (
    user_outbound s (bytes "vmess")
      ((bytes "id", string c.uuid)
        ∷ (bytes "alterId", int c.alter_id)
        ∷ (bytes "security", string c.security)
        ∷ [])
      ((
        bytes "streamSettings",
        build_stream_settings c.tls c.skip_cert_verify c.server_name c.network c.ws_path c.headers
            mode,
      )
        ∷ []))

unfoldable pub vless_outbound : Spec → Option VlessConfig → Text → Option Value
unfolding user_outbound build_stream_settings is_blank
vless_outbound s none mode = none
vless_outbound s (some c) mode = some (
    user_outbound s (bytes "vless")
      ((bytes "id", string c.uuid)
        ∷ (bytes "encryption", string (bytes "none"))
        ∷ (if not (is_blank c.flow) then (bytes "flow", string c.flow) ∷ [] else []))
      ((
        bytes "streamSettings",
        build_stream_settings c.tls c.skip_cert_verify c.server_name c.network c.ws_path c.headers
            mode,
      )
        ∷ []))

-- `none` is a node of a type that is not supported.
unfoldable pub build_outbound : Spec → Text → Option Value
unfolding text_eq socks5_outbound http_outbound shadowsocks_outbound trojan_outbound vmess_outbound
    vless_outbound
build_outbound s mode =
    if text_eq s.kind type_socks5
    then some (socks5_outbound s s.socks5)
    else if text_eq s.kind type_http
    then some (http_outbound s s.http)
    else if text_eq s.kind type_shadowsocks
    then shadowsocks_outbound s s.shadowsocks
    else if text_eq s.kind type_trojan
    then trojan_outbound s s.trojan mode
    else if text_eq s.kind type_vmess
    then vmess_outbound s s.vmess mode
    else if text_eq s.kind type_vless
    then vless_outbound s s.vless mode
    else none
