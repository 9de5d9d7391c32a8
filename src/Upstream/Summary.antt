-- ===== src/Upstream/Summary.antt =====
-- `SafeSummary` of spec.go: what may be shown of a node.
use easy_proxy_pool.Prelude.{◌≡◌, refl, Bool, not, Option, none, some, [], if◌then◌else◌}
use easy_proxy_pool.Prelude.Text.{Text, bytes, is_blank, text_eq}
use easy_proxy_pool.Prelude.Value.{Value, boolean, int, string, Fields, no_fields, field}
use easy_proxy_pool.Upstream.{
  Spec, Socks5Config, HttpConfig, ShadowsocksConfig, VMessConfig, VlessConfig, TrojanConfig,
  type_socks5, type_http, type_shadowsocks, type_vmess, type_vless, type_trojan,
}

-- if b { out[k] = v }
abbrev pub field_if : Bool → Text → Value → Fields → Fields
field_if b k v m = if b then field k v m else m

-- A field for a text that is not empty.
unfoldable pub field_given : Text → Text → Fields → Fields
unfolding text_eq
field_given k v m = field_if (not (text_eq v [])) k (string v) m

abbrev pub stream_fields : Text → Bool → Bool → Fields → Fields
stream_fields network tls skip m =
    field (bytes "network") (string network)
      (field (bytes "tls") (boolean tls) (field (bytes "skip_cert_verify") (boolean skip) m))

unfoldable pub login_summary : Text → Fields
unfolding is_blank
login_summary username =
    field_if (not (is_blank username)) (bytes "username") (string username) no_fields

unfoldable pub socks5_summary : Option Socks5Config → Fields
unfolding login_summary
socks5_summary none = no_fields
socks5_summary (some c) = login_summary c.username

unfoldable pub http_summary : Option HttpConfig → Fields
unfolding login_summary
http_summary none = no_fields
http_summary (some c) = login_summary c.username

unfoldable pub shadowsocks_summary : Option ShadowsocksConfig → Fields
shadowsocks_summary none = no_fields
shadowsocks_summary (some c) = field (bytes "method") (string c.method) no_fields

unfoldable pub vmess_summary : Option VMessConfig → Fields
unfolding field_given
vmess_summary none = no_fields
vmess_summary (some c) =
    stream_fields c.network c.tls c.skip_cert_verify
      (field_given (bytes "sni") c.server_name no_fields)

unfoldable pub vless_summary : Option VlessConfig → Fields
unfolding field_given
vless_summary none = no_fields
vless_summary (some c) =
    stream_fields c.network c.tls c.skip_cert_verify
      (field_given (bytes "sni") c.server_name (field_given (bytes "flow") c.flow no_fields))

unfoldable pub trojan_summary : Option TrojanConfig → Fields
unfolding field_given
trojan_summary none = no_fields
trojan_summary (some c) =
    stream_fields c.network c.tls c.skip_cert_verify
      (field_given (bytes "sni") c.server_name no_fields)

-- The switch on the type.
unfoldable pub kind_summary : Spec → Fields
unfolding text_eq socks5_summary http_summary shadowsocks_summary vmess_summary vless_summary
    trojan_summary
kind_summary s =
    if text_eq s.kind type_socks5
    then socks5_summary s.socks5
    else if text_eq s.kind type_http
    then http_summary s.http
    else if text_eq s.kind type_shadowsocks
    then shadowsocks_summary s.shadowsocks
    else if text_eq s.kind type_vmess
    then vmess_summary s.vmess
    else if text_eq s.kind type_vless
    then vless_summary s.vless
    else if text_eq s.kind type_trojan
    then trojan_summary s.trojan
    else no_fields

unfoldable pub safe_summary : Spec → Fields
unfolding kind_summary
safe_summary s = field (bytes "id") (string s.id) (
    field (bytes "name") (string s.name) (
      field (bytes "type") (string s.kind) (
        field (bytes "server") (string s.server)
          (field (bytes "port") (int s.port) (kind_summary s)))))

abbrev pub hide {ℓ} : {A : Type ℓ} → (A → A) → Option A → Option A
hide f none = none
hide f (some a) = some (f a)

-- The node without its passwords, user IDs, headers and paths.
pub redact : Spec → Spec
redact s = record s {
  socks5 = hide (λ c. record c { password = [] }) s.socks5;
  http = hide (λ c. record c { password = [] }) s.http;
  shadowsocks = hide (λ c. record c { password = [] }) s.shadowsocks;
  vmess = hide (λ c. record c { uuid = []; ws_path = []; headers = [] }) s.vmess;
  vless = hide (λ c. record c { uuid = []; ws_path = []; headers = [] }) s.vless;
  trojan = hide (λ c. record c { password = []; ws_path = []; headers = [] }) s.trojan;
}

kind_summary-redact : (s : Spec) → kind_summary (redact s) ≡ kind_summary s
unfolding kind_summary redact
kind_summary-redact s = cc (
  socks5_same s.socks5,
  http_same s.http,
  shadowsocks_same s.shadowsocks,
  vmess_same s.vmess,
  vless_same s.vless,
  trojan_same s.trojan,
)
  where
    socks5_same :
        (c : Option Socks5Config)
        → socks5_summary (hide (λ c. record c { password = [] }) c) ≡ socks5_summary c
    socks5_same none = refl
    socks5_same (some c) = unfold socks5_summary in refl

    http_same :
        (c : Option HttpConfig)
        → http_summary (hide (λ c. record c { password = [] }) c) ≡ http_summary c
    http_same none = refl
    http_same (some c) = unfold http_summary in refl

    shadowsocks_same :
        (c : Option ShadowsocksConfig)
        → shadowsocks_summary (hide (λ c. record c { password = [] }) c) ≡ shadowsocks_summary c
    shadowsocks_same none = refl
    shadowsocks_same (some c) = unfold shadowsocks_summary in refl

    vmess_same :
        (c : Option VMessConfig)
        → vmess_summary (hide (λ c. record c { uuid = []; ws_path = []; headers = [] }) c)
          ≡ vmess_summary c
    vmess_same none = refl
    vmess_same (some c) = unfold vmess_summary in refl

    vless_same :
        (c : Option VlessConfig)
        → vless_summary (hide (λ c. record c { uuid = []; ws_path = []; headers = [] }) c)
          ≡ vless_summary c
    vless_same none = refl
    vless_same (some c) = unfold vless_summary in refl

    trojan_same :
        (c : Option TrojanConfig)
        → trojan_summary (hide (λ c. record c { password = []; ws_path = []; headers = [] }) c)
          ≡ trojan_summary c
    trojan_same none = refl
    trojan_same (some c) = unfold trojan_summary in refl

-- The summary of a node does not depend on its passwords, user IDs, headers and paths.
pub safe_summary-redact : (s : Spec) → safe_summary (redact s) ≡ safe_summary s
unfolding safe_summary redact
safe_summary-redact s = rw (kind_summary-redact s) refl
