-- ===== src/Tests/Nodes.antt =====
-- The theorems on internal/upstream/spec.go, internal/clash/parser.go and internal/sources/loader.go at
-- concrete nodes.
use mathlib.Core.List.{Sublistᴰ}
use easy_proxy_pool.Prelude.{◌≡◌, refl, true, false, none, some, List, [], ◌∷◌}
use easy_proxy_pool.Prelude.Text.{Text, bytes, to_lower, text_eq, text_eq_apart}
use easy_proxy_pool.Prelude.Value.{int, string, Fields, fields_of}
use easy_proxy_pool.Prelude.Sort.{Unique}
use easy_proxy_pool.Prelude.Outcome.{done, failed}
use easy_proxy_pool.Config.{SourceConfig}
use easy_proxy_pool.Upstream.{
  Spec, VMessConfig, empty_spec, type_socks5, type_vmess, with_id, deduplicate, stable_node_id,
}
use easy_proxy_pool.Upstream.Dedup.{find_id, id_of, with_ids, deduplicate_lem}
use easy_proxy_pool.Upstream.Headers.{stable_node_id_headers}
use easy_proxy_pool.Upstream.Summary.{safe_summary, redact, safe_summary-redact}
use easy_proxy_pool.Sources.{World, load}
use easy_proxy_pool.Sources.Loaded.{IsGathered, load-IsGathered}
use easy_proxy_pool.Clash.{parse_yaml}
use easy_proxy_pool.Clash.Values.{Decoding}
use easy_proxy_pool.Clash.Parsed.{IsPromised, parse_yaml-IsPromised}

-- Stands for sha256.Sum256.
abbrev pub sum256 : Text → Text
sum256 t = t

abbrev pub node : Text → Spec
node server = record empty_spec { kind = type_socks5; server = server; port = 1080 }

abbrev vmess : VMessConfig
vmess = record {
  uuid = bytes "u";
  alter_id = 0;
  security = bytes "auto";
  tls = true;
  skip_cert_verify = false;
  server_name = [];
  network = bytes "ws";
  ws_path = bytes "/";
  headers = [];
}

abbrev vmess_node : Spec
vmess_node = record (node (bytes "v")) { kind = type_vmess }

abbrev twice : List Spec
twice = node (bytes "a") ∷ record (node (bytes "a")) { name = bytes "again" } ∷ []

abbrev node_key : Text
node_key = bytes "n-747970653d73"

abbrev named_twice : List Spec
named_twice =
    record (node (bytes "a")) { id = node_key }
    ∷ record (node (bytes "a")) { id = node_key; name = bytes "again" }
    ∷ []

stable_node_id_headers_example :
    stable_node_id sum256 (record vmess_node {
      vmess = some (record vmess { headers = (bytes "Host", bytes "a") ∷ [] });
    })
    ≡ stable_node_id sum256 (record vmess_node {
      vmess = some (record vmess { headers = (bytes "Host", bytes "b") ∷ [] });
    })
unfolding to_lower text_eq
stable_node_id_headers_example =
    stable_node_id_headers sum256 vmess_node vmess ((bytes "Host", bytes "a") ∷ [])
      ((bytes "Host", bytes "b") ∷ []) refl (text_eq_apart _ _ refl, tt)
      (text_eq_apart _ _ refl, tt)

safe_summary-redact_example : safe_summary (redact vmess_node) ≡ safe_summary vmess_node
safe_summary-redact_example = safe_summary-redact vmess_node

-- A document with a node, one without a type and one of another type.
abbrev document : List Fields
document =
    fields_of (
      (bytes "type", string (bytes "socks5"))
      ∷ (bytes "server", string (bytes "a"))
      ∷ (bytes "port", int 1080)
      ∷ [])
    ∷ fields_of ((bytes "name", string (bytes "b")) ∷ [])
    ∷ fields_of ((bytes "type", string (bytes "ssr")) ∷ [])
    ∷ []

abbrev pub decoding : Decoding
decoding = record {
  unmarshal = λ text. done document;
  sprint = λ v. bytes "1";
  quote = λ t. t;
  truncate = λ bits. 0;
}

parse_yaml-IsPromised_example :
    IsPromised sum256 decoding (done document) (parse_yaml decoding sum256 [])
parse_yaml-IsPromised_example = parse_yaml-IsPromised sum256 decoding []

abbrev pub world : World
world = record {
  scan_url = λ url. some (bytes "a:1" ∷ bytes "# none" ∷ []);
  fetch_bytes = λ url. failed (bytes "refused");
  read_file = λ path. done [];
  scan_file = λ path. done (bytes "socks5://a:1" ∷ bytes "b:2" ∷ [], none);
  parse_yaml = λ text. done (record { specs = twice; problems = []; skipped_by_type = [] });
  quote = λ t. t;
}

abbrev pub listed : List SourceConfig
listed =
    record { kind = bytes "raw_list"; url = bytes "u"; path = [] }
    ∷ record { kind = bytes "raw_list"; url = []; path = bytes "p" }
    ∷ record { kind = bytes "clash_yaml"; url = []; path = bytes "c" }
    ∷ []

load-IsGathered_example : IsGathered world listed (load sum256 world listed)
load-IsGathered_example = load-IsGathered sum256 world listed

deduplicate_lem_example :
    (out : List Spec) × (deduplicate sum256 twice ≡ some out)
    × Unique id_of out
    × ((k : Text) → find_id k out ≡ find_id k named_twice)
    × Sublistᴰ out named_twice
unfolding with_ids with_id
deduplicate_lem_example = deduplicate_lem sum256 twice named_twice refl
