-- ===== src/Clash/Cases.antt =====
-- The cases of `parseProxy` of parser.go.
use easy_proxy_pool.Prelude.{
  ◌≡◌, refl, ap, ◌∙◌, Bool, true, false, ◌||◌, not, List, [], ◌∷◌, ◌++◌, if◌then◌else◌, arith, inl,
  inr, Bool-cases,
}
use easy_proxy_pool.Prelude.Text.{Text, bytes, text_eq, text_eq_iff}
use easy_proxy_pool.Prelude.Word.{positive}
use easy_proxy_pool.Prelude.Value.{Fields}
use easy_proxy_pool.Upstream.{
  Spec, type_socks5, type_http, type_shadowsocks, type_vmess, type_vless, type_trojan,
}
use easy_proxy_pool.Clash.{
  Proxy, spec, missing, unknown, is_any_empty, parse_case, parse_proxy, server_of, port_of,
  parse_socks5, parse_http, parse_shadowsocks, parse_vmess, parse_vless, parse_trojan, base_spec,
  socks5_spec, http_spec, shadowsocks_spec, vmess_spec, vless_spec, trojan_spec,
}
use easy_proxy_pool.Clash.Values.{Decoding, get_one}
use easy_proxy_pool.Clash.Made.{
  IsConfigured, socks5_configured, http_configured, shadowsocks_configured, vmess_configured,
  vless_configured, trojan_configured, IsMade,
}

module _ (dec : Decoding) where
  -- What a proxy is made into.
  unfoldable pub IsParsed : Fields → Text → Text → Proxy dec → Type 0
  IsParsed raw name typ (spec s) = IsMade dec raw name typ s
  IsParsed raw name typ (missing problem) = Unit
  IsParsed raw name typ unknown = Unit

  parse_case-IsParsed :
      (raw : Fields) (name typ : Text) (required : List Text) (what : Text) (s : Spec)
      → s.name ≡ name
      → s.server ≡ server_of dec raw
      → s.port ≡ port_of dec raw
      → (is_any_empty dec required ≡ false → IsConfigured dec raw typ s)
      → IsParsed raw name typ
          (parse_case dec name typ (server_of dec raw) (port_of dec raw) required what s)
  unfolding parse_case is_any_empty server_of port_of
  parse_case-IsParsed raw name typ required what s n e f k = by_test _ refl
    where
      by_test :
          (b : Bool)
          → (is_any_empty dec (server_of dec raw ∷ required) || not (positive (port_of dec raw)))
            ≡ b
          → IsParsed raw name typ (
              if b
              then missing (
                  bytes "proxy(name="
                  ++ (dec.quote name ++ (bytes ",type=" ++ (typ ++ (bytes "): missing " ++ what)))))
              else spec s)
      by_test true g = unfold IsParsed in tt
      by_test false g =
          unfold IsParsed in
          record {
            configured = k (ground (arith, g));
            same_name = n;
            same_server = e;
            same_port = f;
            has_server = ap (λ t. text_eq t []) e ∙ ground (arith, g);
            has_port = ap positive f ∙ ground (arith, g);
          }

  parse_socks5-IsParsed :
      (raw : Fields) (name typ : Text)
      → typ ≡ bytes "socks5"
      → IsParsed raw name typ (parse_socks5 dec raw name typ)
  unfolding parse_socks5 socks5_spec
  parse_socks5-IsParsed raw name typ t =
      parse_case-IsParsed raw name typ [] (bytes "server/port")
        (socks5_spec dec raw (base_spec dec name type_socks5 (server_of dec raw) (port_of dec raw)))
        refl refl refl (λ g. socks5_configured t refl refl)

  parse_http-IsParsed :
      (raw : Fields) (name typ : Text)
      → typ ≡ bytes "http"
      → IsParsed raw name typ (parse_http dec raw name typ)
  unfolding parse_http http_spec
  parse_http-IsParsed raw name typ t =
      parse_case-IsParsed raw name typ [] (bytes "server/port")
        (http_spec dec raw (base_spec dec name type_http (server_of dec raw) (port_of dec raw)))
        refl refl refl (λ g. http_configured t refl refl)

  parse_shadowsocks-IsParsed :
      (raw : Fields) (name typ : Text)
      → typ ≡ bytes "ss"
      → IsParsed raw name typ (parse_shadowsocks dec raw name typ)
  unfolding parse_shadowsocks shadowsocks_spec is_any_empty
  parse_shadowsocks-IsParsed raw name typ t =
      parse_case-IsParsed raw name typ
        (get_one dec raw (bytes "cipher") ∷ get_one dec raw (bytes "password") ∷ [])
        (bytes "server/port/cipher/password")
        (shadowsocks_spec dec raw
          (base_spec dec name type_shadowsocks (server_of dec raw) (port_of dec raw)))
        refl refl refl (λ g. shadowsocks_configured t refl refl (ground arith) (ground arith))

  parse_vmess-IsParsed :
      (raw : Fields) (name typ : Text)
      → typ ≡ bytes "vmess"
      → IsParsed raw name typ (parse_vmess dec raw name typ)
  unfolding parse_vmess vmess_spec is_any_empty
  parse_vmess-IsParsed raw name typ t =
      parse_case-IsParsed raw name typ (get_one dec raw (bytes "uuid") ∷ [])
        (bytes "server/port/uuid")
        (vmess_spec dec raw (base_spec dec name type_vmess (server_of dec raw) (port_of dec raw)))
        refl refl refl (λ g. vmess_configured _ t refl refl refl (ground arith))

  parse_vless-IsParsed :
      (raw : Fields) (name typ : Text)
      → typ ≡ bytes "vless"
      → IsParsed raw name typ (parse_vless dec raw name typ)
  unfolding parse_vless vless_spec is_any_empty
  parse_vless-IsParsed raw name typ t =
      parse_case-IsParsed raw name typ (get_one dec raw (bytes "uuid") ∷ [])
        (bytes "server/port/uuid")
        (vless_spec dec raw (base_spec dec name type_vless (server_of dec raw) (port_of dec raw)))
        refl refl refl (λ g. vless_configured _ t refl refl refl (ground arith))

  parse_trojan-IsParsed :
      (raw : Fields) (name typ : Text)
      → typ ≡ bytes "trojan"
      → IsParsed raw name typ (parse_trojan dec raw name typ)
  unfolding parse_trojan trojan_spec is_any_empty
  parse_trojan-IsParsed raw name typ t =
      parse_case-IsParsed raw name typ (get_one dec raw (bytes "password") ∷ [])
        (bytes "server/port/password")
        (trojan_spec dec raw (base_spec dec name type_trojan (server_of dec raw) (port_of dec raw)))
        refl refl refl (λ g. trojan_configured _ t refl refl refl (ground arith))

  -- A test of the type: the first case is taken only for the type that is named.
  type-IsParsed :
      (raw : Fields) (name typ named : Text) (x y : Proxy dec)
      → (typ ≡ named → IsParsed raw name typ x)
      → IsParsed raw name typ y
      → IsParsed raw name typ (if text_eq typ named then x else y)
  type-IsParsed raw name typ named x y h k = elim (Bool-cases (text_eq typ named)) [
    | inl same ↦ rw same (h ((text_eq_iff typ named).0 same))
    | inr other ↦ rw other k
  ]

  unknown-IsParsed : (raw : Fields) (name typ : Text) → IsParsed raw name typ unknown
  unfolding IsParsed
  unknown-IsParsed raw name typ = tt

  pub parse_proxy-IsParsed :
      (raw : Fields) (name typ : Text) → IsParsed raw name typ (parse_proxy dec raw name typ)
  unfolding parse_proxy
  parse_proxy-IsParsed raw name typ =
      type-IsParsed raw name typ (bytes "socks5") _ _ (parse_socks5-IsParsed raw name typ) (
        type-IsParsed raw name typ (bytes "http") _ _ (parse_http-IsParsed raw name typ) (
          type-IsParsed raw name typ (bytes "ss") _ _ (parse_shadowsocks-IsParsed raw name typ) (
            type-IsParsed raw name typ (bytes "vmess") _ _ (parse_vmess-IsParsed raw name typ) (
              type-IsParsed raw name typ (bytes "vless") _ _ (parse_vless-IsParsed raw name typ) (
                type-IsParsed raw name typ (bytes "trojan") _ _ (parse_trojan-IsParsed raw name typ)
                  (unknown-IsParsed raw name typ))))))
