-- ===== src/Clash.antt =====
-- internal/clash/parser.go: the nodes of a Clash document. yaml.Unmarshal, fmt.Sprint, strconv.Quote and
-- the conversion of a float64 to an int are arguments. A decoded document has no map[string]string.
pub mod Values
pub mod Made
pub mod Cases
pub mod Parsed
use easy_proxy_pool.Prelude.{
  ℕ, ◌++◌, ◌||◌, not, ◌==◌, Bool, true, false, Option, none, some, List, [], ◌∷◌, if◌then◌else◌,
  length,
}
use easy_proxy_pool.Prelude.Text.{Text, bytes, trim_space, to_lower, is_blank, text_eq}
use easy_proxy_pool.Prelude.Map.{Map, insert}
use easy_proxy_pool.Prelude.Word.{positive}
use easy_proxy_pool.Prelude.Decimal.{atoi}
use easy_proxy_pool.Prelude.Value.{
  Value, null, boolean, int, int64, float64, string, array, object, Fields, no_fields, field,
  get_field,
}
use easy_proxy_pool.Prelude.Outcome.{Outcome, done, failed, panicked}
use easy_proxy_pool.Upstream.{
  Spec, Socks5Config, HttpConfig, ShadowsocksConfig, VMessConfig, VlessConfig, TrojanConfig,
  empty_spec, type_socks5, type_http, type_shadowsocks, type_vmess, type_vless, type_trojan,
  normalize, deduplicate,
}
use easy_proxy_pool.Sources.{ParseReport}
use easy_proxy_pool.Xray.Generate.{bump}
use easy_proxy_pool.Clash.Values.{
  Decoding, first_non_empty, get_one, get_int, get_bool, skip_cert_verify_of, parse_ws_opts,
}

module _ (dec : Decoding) where
  -- The name, the type, the server and the port of a spec.
  abbrev pub base_spec : Text → Text → Text → ℕ → Spec
  base_spec name kind server port = record empty_spec {
    name = name;
    kind = kind;
    server = server;
    port = port;
  }

  unfoldable pub socks5_spec : Fields → Spec → Spec
  unfolding get_one
  socks5_spec raw s = record s {
    socks5 = some (record {
      username = get_one dec raw (bytes "username");
      password = get_one dec raw (bytes "password");
    });
  }

  unfoldable pub http_spec : Fields → Spec → Spec
  unfolding get_one
  http_spec raw s = record s {
    http = some (record {
      username = get_one dec raw (bytes "username");
      password = get_one dec raw (bytes "password");
    });
  }

  unfoldable pub shadowsocks_spec : Fields → Spec → Spec
  unfolding get_one
  shadowsocks_spec raw s = record s {
    shadowsocks = some (record {
      method = get_one dec raw (bytes "cipher");
      password = get_one dec raw (bytes "password");
    });
  }

  -- if s == "" { s = t }
  unfoldable pub or_else : Text → Text → Text
  or_else [] t = t
  or_else (c ∷ s) t = c ∷ s

  unfoldable pub vmess_spec : Fields → Spec → Spec
  unfolding get_one get_int get_bool skip_cert_verify_of first_non_empty parse_ws_opts or_else
  vmess_spec raw s = record s {
    vmess = some (record {
      uuid = get_one dec raw (bytes "uuid");
      alter_id = get_int dec raw (bytes "alterId" ∷ bytes "alter_id" ∷ bytes "aid" ∷ []);
      security =
          or_else (or_else (get_one dec raw (bytes "cipher")) (get_one dec raw (bytes "security")))
            (bytes "auto");
      tls = get_bool dec raw (bytes "tls" ∷ []);
      skip_cert_verify = skip_cert_verify_of dec raw;
      server_name =
          first_non_empty
            (get_one dec raw (bytes "servername") ∷ get_one dec raw (bytes "sni") ∷ []);
      network = get_one dec raw (bytes "network");
      ws_path = (parse_ws_opts dec raw).0;
      headers = (parse_ws_opts dec raw).1;
    });
  }

  unfoldable pub vless_spec : Fields → Spec → Spec
  unfolding get_one get_bool skip_cert_verify_of first_non_empty parse_ws_opts
  vless_spec raw s = record s {
    vless = some (record {
      uuid = get_one dec raw (bytes "uuid");
      flow = get_one dec raw (bytes "flow");
      tls = get_bool dec raw (bytes "tls" ∷ []);
      skip_cert_verify = skip_cert_verify_of dec raw;
      server_name =
          first_non_empty
            (get_one dec raw (bytes "servername") ∷ get_one dec raw (bytes "sni") ∷ []);
      network = get_one dec raw (bytes "network");
      ws_path = (parse_ws_opts dec raw).0;
      headers = (parse_ws_opts dec raw).1;
    });
  }

  unfoldable pub trojan_spec : Fields → Spec → Spec
  unfolding get_one skip_cert_verify_of first_non_empty parse_ws_opts
  trojan_spec raw s = record s {
    trojan = some (record {
      password = get_one dec raw (bytes "password");
      tls = true;
      skip_cert_verify = skip_cert_verify_of dec raw;
      server_name =
          first_non_empty
            (get_one dec raw (bytes "sni") ∷ get_one dec raw (bytes "servername") ∷ []);
      network = get_one dec raw (bytes "network");
      ws_path = (parse_ws_opts dec raw).0;
      headers = (parse_ws_opts dec raw).1;
    });
  }

  -- A problem where something is missing, or the spec; `none` for a type that is not known.
  pub data Proxy : Type 0 where
    spec : Spec → Proxy
    missing : Text → Proxy
    unknown : Proxy

  unfoldable pub is_any_empty : List Text → Bool
  unfolding text_eq
  is_any_empty [] = false
  is_any_empty (t ∷ ts) = text_eq t [] || is_any_empty ts

  -- A case of `parseProxy`: the texts that must not be empty, what the problem calls them, and the spec.
  unfoldable pub parse_case : Text → Text → Text → ℕ → List Text → Text → Spec → Proxy
  unfolding is_any_empty
  parse_case name typ server port required what s =
      if is_any_empty (server ∷ required) || not (positive port)
      then missing (
          bytes "proxy(name="
          ++ (dec.quote name ++ (bytes ",type=" ++ (typ ++ (bytes "): missing " ++ what)))))
      else spec s

  unfoldable pub server_of : Fields → Text
  unfolding get_one
  server_of raw = get_one dec raw (bytes "server")

  unfoldable pub port_of : Fields → ℕ
  unfolding get_int
  port_of raw = get_int dec raw (bytes "port" ∷ [])

  -- The cases.
  unfoldable pub parse_socks5 : Fields → Text → Text → Proxy
  unfolding get_one server_of port_of parse_case socks5_spec
  parse_socks5 raw name typ =
      parse_case name typ (server_of raw) (port_of raw) [] (bytes "server/port")
        (socks5_spec raw (base_spec name type_socks5 (server_of raw) (port_of raw)))

  unfoldable pub parse_http : Fields → Text → Text → Proxy
  unfolding get_one server_of port_of parse_case http_spec
  parse_http raw name typ =
      parse_case name typ (server_of raw) (port_of raw) [] (bytes "server/port")
        (http_spec raw (base_spec name type_http (server_of raw) (port_of raw)))

  unfoldable pub parse_shadowsocks : Fields → Text → Text → Proxy
  unfolding get_one server_of port_of parse_case shadowsocks_spec
  parse_shadowsocks raw name typ =
      parse_case name typ (server_of raw) (port_of raw)
        (get_one dec raw (bytes "cipher") ∷ get_one dec raw (bytes "password") ∷ [])
        (bytes "server/port/cipher/password")
        (shadowsocks_spec raw (base_spec name type_shadowsocks (server_of raw) (port_of raw)))

  unfoldable pub parse_vmess : Fields → Text → Text → Proxy
  unfolding get_one server_of port_of parse_case vmess_spec
  parse_vmess raw name typ =
      parse_case name typ (server_of raw) (port_of raw) (get_one dec raw (bytes "uuid") ∷ [])
        (bytes "server/port/uuid")
        (vmess_spec raw (base_spec name type_vmess (server_of raw) (port_of raw)))

  unfoldable pub parse_vless : Fields → Text → Text → Proxy
  unfolding get_one server_of port_of parse_case vless_spec
  parse_vless raw name typ =
      parse_case name typ (server_of raw) (port_of raw) (get_one dec raw (bytes "uuid") ∷ [])
        (bytes "server/port/uuid")
        (vless_spec raw (base_spec name type_vless (server_of raw) (port_of raw)))

  unfoldable pub parse_trojan : Fields → Text → Text → Proxy
  unfolding get_one server_of port_of parse_case trojan_spec
  parse_trojan raw name typ =
      parse_case name typ (server_of raw) (port_of raw) (get_one dec raw (bytes "password") ∷ [])
        (bytes "server/port/password")
        (trojan_spec raw (base_spec name type_trojan (server_of raw) (port_of raw)))

  unfoldable pub parse_proxy : Fields → Text → Text → Proxy
  unfolding text_eq parse_socks5 parse_http parse_shadowsocks parse_vmess parse_vless parse_trojan
  parse_proxy raw name typ =
      if text_eq typ (bytes "socks5")
      then parse_socks5 raw name typ
      else if text_eq typ (bytes "http")
      then parse_http raw name typ
      else if text_eq typ (bytes "ss")
      then parse_shadowsocks raw name typ
      else if text_eq typ (bytes "vmess")
      then parse_vmess raw name typ
      else if text_eq typ (bytes "vless")
      then parse_vless raw name typ
      else if text_eq typ (bytes "trojan")
      then parse_trojan raw name typ
      else unknown

  abbrev pub empty_report : ParseReport
  empty_report = record { specs = []; problems = []; skipped_by_type = [] }

  -- What the loop does with a proxy; the spec with its ID, where `none` is a panic of `Normalize`.
  unfoldable pub add_normalized : ParseReport → Option Spec → Option ParseReport
  add_normalized r none = none
  add_normalized r (some s) = some (record r { specs = r.specs ++ (s ∷ []) })

  unfoldable pub add_proxy : (Text → Text) → ParseReport → Text → Proxy → Option ParseReport
  unfolding bump normalize add_normalized
  add_proxy sum256 r typ (spec s) = add_normalized r (normalize sum256 s)
  add_proxy sum256 r typ (missing problem) = some (record r {
    problems = r.problems ++ (problem ∷ []);
    skipped_by_type = bump r.skipped_by_type typ;
  })
  add_proxy sum256 r typ unknown = some (record r { skipped_by_type = bump r.skipped_by_type typ })

  -- One round of the loop of `ParseYAML`.
  unfoldable pub add_raw : (Text → Text) → ParseReport → Fields → Option ParseReport
  unfolding get_one to_lower is_blank parse_proxy add_proxy
  add_raw sum256 r raw =
      let name : Text = get_one dec raw (bytes "name") in
      let typ : Text = to_lower (get_one dec raw (bytes "type")) in
      let added = add_proxy sum256 r typ (parse_proxy raw name typ) in
      if is_blank typ
      then some (record r {
        problems =
            r.problems
            ++ ((bytes "proxy(name=" ++ (dec.quote name ++ bytes "): missing type")) ∷ []);
      })
      else added

  unfoldable pub add_raws : (Text → Text) → ParseReport → List Fields → Option ParseReport
  unfolding add_raw
  add_raws sum256 r [] = some r
  add_raws sum256 r (raw ∷ raws) = elim (add_raw sum256 r raw) [
    | none ↦ none
    | some q ↦ add_raws sum256 q raws
  ]

  abbrev pub with_specs : ParseReport → Option (List Spec) → Outcome ParseReport
  with_specs r none = panicked
  with_specs r (some specs) = done (record r { specs = specs })

  unfoldable pub finish_report : (Text → Text) → Option ParseReport → Outcome ParseReport
  unfolding deduplicate
  finish_report sum256 none = panicked
  finish_report sum256 (some r) = with_specs r (deduplicate sum256 r.specs)

  unfoldable pub parse_document : (Text → Text) → Outcome (List Fields) → Outcome ParseReport
  unfolding add_raws finish_report
  parse_document sum256 panicked = panicked
  parse_document sum256 (failed e) = failed (bytes "parse clash yaml: " ++ e)
  parse_document sum256 (done raws) = finish_report sum256 (add_raws sum256 empty_report raws)

  unfoldable pub parse_yaml : (Text → Text) → Text → Outcome ParseReport
  unfolding parse_document
  parse_yaml sum256 text = parse_document sum256 (dec.unmarshal text)
