-- ===== src/Clash/Made.antt =====
-- `parseProxy` of parser.go: what a spec that is made from a proxy has of it.
use easy_proxy_pool.Prelude.{◌≡◌, true, false, some, [], ◌∷◌}
use easy_proxy_pool.Prelude.Text.{Text, bytes, text_eq}
use easy_proxy_pool.Prelude.Word.{positive}
use easy_proxy_pool.Prelude.Value.{Fields}
use easy_proxy_pool.Upstream.{
  Spec, VMessConfig, VlessConfig, TrojanConfig, type_socks5, type_http, type_shadowsocks,
  type_vmess, type_vless, type_trojan,
}
use easy_proxy_pool.Upstream.Known.{
  IsKnown, socks5_known, http_known, shadowsocks_known, vmess_known, vless_known, trojan_known,
}
use easy_proxy_pool.Clash.Values.{Decoding, get_one, get_int}

module _ (dec : Decoding) where
  -- The configuration for a proxy's type: its credentials are those of the proxy, and not empty where the
  -- type needs them.
  pub data IsConfigured (raw : Fields) (typ : Text) (s : Spec) : Type 0 where
    socks5_configured :
        typ ≡ bytes "socks5"
        → s.kind ≡ type_socks5
        → s.socks5
          ≡ some (record {
            username = get_one dec raw (bytes "username");
            password = get_one dec raw (bytes "password");
          })
        → IsConfigured raw typ s
    http_configured :
        typ ≡ bytes "http"
        → s.kind ≡ type_http
        → s.http
          ≡ some (record {
            username = get_one dec raw (bytes "username");
            password = get_one dec raw (bytes "password");
          })
        → IsConfigured raw typ s
    shadowsocks_configured :
        typ ≡ bytes "ss"
        → s.kind ≡ type_shadowsocks
        → s.shadowsocks
          ≡ some (record {
            method = get_one dec raw (bytes "cipher");
            password = get_one dec raw (bytes "password");
          })
        → text_eq (get_one dec raw (bytes "cipher")) [] ≡ false
        → text_eq (get_one dec raw (bytes "password")) [] ≡ false
        → IsConfigured raw typ s
    vmess_configured :
        (c : VMessConfig)
        → typ ≡ bytes "vmess"
        → s.kind ≡ type_vmess
        → s.vmess ≡ some c
        → c.uuid ≡ get_one dec raw (bytes "uuid")
        → text_eq (get_one dec raw (bytes "uuid")) [] ≡ false
        → IsConfigured raw typ s
    vless_configured :
        (c : VlessConfig)
        → typ ≡ bytes "vless"
        → s.kind ≡ type_vless
        → s.vless ≡ some c
        → c.uuid ≡ get_one dec raw (bytes "uuid")
        → text_eq (get_one dec raw (bytes "uuid")) [] ≡ false
        → IsConfigured raw typ s
    trojan_configured :
        (c : TrojanConfig)
        → typ ≡ bytes "trojan"
        → s.kind ≡ type_trojan
        → s.trojan ≡ some c
        → c.password ≡ get_one dec raw (bytes "password")
        → text_eq (get_one dec raw (bytes "password")) [] ≡ false
        → IsConfigured raw typ s

  pub configured-IsKnown :
      (raw : Fields) (typ : Text) (s : Spec) → IsConfigured raw typ s → IsKnown s
  configured-IsKnown raw typ s (socks5_configured t k e) = socks5_known k
  configured-IsKnown raw typ s (http_configured t k e) = http_known k
  configured-IsKnown raw typ s (shadowsocks_configured t k e f g) = shadowsocks_known _ k e
  configured-IsKnown raw typ s (vmess_configured c t k e f g) = vmess_known c k e
  configured-IsKnown raw typ s (vless_configured c t k e f g) = vless_known c k e
  configured-IsKnown raw typ s (trojan_configured c t k e f g) = trojan_known c k e

  IsConfigured-changed :
      (raw : Fields) (typ : Text) (s : Spec) (id : Text)
      → IsConfigured raw typ s
      → IsConfigured raw typ (record s { id = id })
  IsConfigured-changed raw typ s id (socks5_configured t k e) = socks5_configured t k e
  IsConfigured-changed raw typ s id (http_configured t k e) = http_configured t k e
  IsConfigured-changed raw typ s id (shadowsocks_configured t k e f g) =
      shadowsocks_configured t k e f g
  IsConfigured-changed raw typ s id (vmess_configured c t k e f g) = vmess_configured c t k e f g
  IsConfigured-changed raw typ s id (vless_configured c t k e f g) = vless_configured c t k e f g
  IsConfigured-changed raw typ s id (trojan_configured c t k e f g) = trojan_configured c t k e f g

  -- A spec with a proxy's name, server, positive port and configuration.
  pub record IsMade (raw : Fields) (name typ : Text) (s : Spec) : Type 0 where
    pub configured : IsConfigured raw typ s
    pub same_name : s.name ≡ name
    pub same_server : s.server ≡ get_one dec raw (bytes "server")
    pub same_port : s.port ≡ get_int dec raw (bytes "port" ∷ [])
    pub has_server : text_eq s.server [] ≡ false
    pub has_port : positive s.port ≡ true

  pub IsMade-changed :
      (raw : Fields) (name typ : Text) (s : Spec) (id : Text)
      → IsMade raw name typ s
      → IsMade raw name typ (record s { id = id })
  IsMade-changed raw name typ s id m = record {
    configured = IsConfigured-changed raw typ s id m.configured;
    same_name = m.same_name;
    same_server = m.same_server;
    same_port = m.same_port;
    has_server = m.has_server;
    has_port = m.has_port;
  }
