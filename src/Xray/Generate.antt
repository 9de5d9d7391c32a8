-- ===== src/Xray/Generate.antt =====
-- `Generate` of internal/xray/config.go: the configuration of xray for a list of nodes.
pub mod Nodes
pub mod Order
pub mod Routes
use easy_proxy_pool.Prelude.{
  ℕ, ◌+◌, ◌-◌, ◌/◌, ◌%◌, ◌++◌, Bool, true, false, not, Option, none, some, List, [], ◌∷◌,
  if◌then◌else◌, length, map, take, ltb, leb, ◌==◌,
}
use easy_proxy_pool.Prelude.Text.{Text, bytes, trim_space, to_lower, is_blank, text_eq, contains}
use easy_proxy_pool.Prelude.Map.{Map, lookup, insert}
use easy_proxy_pool.Prelude.Word.{word_mod, add64, mul64, positive, negative}
use easy_proxy_pool.Prelude.Decimal.{itoa, atoi}
use easy_proxy_pool.Prelude.Sort.{sort_by}
use easy_proxy_pool.Prelude.Value.{
  Value, boolean, int, string, array, object, Items, items_of, string_items, fields_of,
}
use easy_proxy_pool.Config.{ObservatoryConfig}
use easy_proxy_pool.HttpProxy.Header.{split}
use easy_proxy_pool.Upstream.{Spec, with_id, join, encode_to_string}
use easy_proxy_pool.Xray.Outbound.{Pairs, map_value, build_outbound}

pub record GenerateOptions : Type 0 where
  pub mode : Text
  pub socks_listen : Text
  pub metrics_listen : Text
  pub user_password : Text
  pub max_nodes : ℕ
  pub observatory : ObservatoryConfig

-- `problems` is never filled.
pub record Generated : Type 0 where
  pub config_json : Text
  pub hash : Text
  pub included : List Text
  pub skipped : Map ℕ

-- The errors, and the panic of a node without an ID whose type lacks its configuration.
pub data Generation : Type 0 where
  generated : Generated → Generation
  missing_socks_listen missing_metrics_listen missing_user_password : Generation
  too_many_nodes marshal_failed panics : Generation

-- m[k] of a map of counts
abbrev pub count_of : Option ℕ → ℕ
count_of none = 0
count_of (some n) = n

-- m[k]++
unfoldable pub bump : Map ℕ → Text → Map ℕ
unfolding lookup insert
bump m k = insert m k (add64 (count_of (lookup m k)) 1)

-- The nodes that are supported, and the counts of the others by their types.
pub record Filtered : Type 0 where
  pub nodes : List Spec
  pub skipped : Map ℕ

abbrev pub and_node : Spec → Option Filtered → Option Filtered
and_node s none = none
and_node s (some f) = some (record f { nodes = s ∷ f.nodes })

-- The first loop; `none` is a panic.
unfoldable pub filter_nodes : (Text → Text) → Text → Map ℕ → List Spec → Option Filtered
unfolding with_id build_outbound bump
filter_nodes sum256 mode skipped [] = some (record { nodes = []; skipped = skipped })
filter_nodes sum256 mode skipped (s ∷ specs) = elim (with_id sum256 s) [
  | none ↦ none
  | some n ↦ elim (build_outbound n mode) [
    | none ↦ filter_nodes sum256 mode (bump skipped n.kind) specs
    | some out ↦ and_node n (filter_nodes sum256 mode skipped specs)
  ]
]

abbrev pub inbound_tag : Text
inbound_tag = bytes "socks-in"

unfoldable pub account : Text → Spec → Value
unfolding fields_of
account password n = map_value ((bytes "user", string n.id) ∷ (bytes "pass", string password) ∷ [])

unfoldable pub rule : Spec → Value
unfolding fields_of string_items
rule n = map_value (
    (bytes "type", string (bytes "field"))
    ∷ (bytes "inboundTag", array (string_items (inbound_tag ∷ [])))
    ∷ (bytes "user", array (string_items (n.id ∷ [])))
    ∷ (bytes "outboundTag", string n.id)
    ∷ [])

-- The rule and the outbound for users that match no rule.
unfoldable pub direct_rule : Value
unfolding fields_of string_items
direct_rule = map_value (
    (bytes "type", string (bytes "field"))
    ∷ (bytes "inboundTag", array (string_items (inbound_tag ∷ [])))
    ∷ (bytes "outboundTag", string (bytes "direct"))
    ∷ [])

unfoldable pub direct_outbound : Value
unfolding fields_of
direct_outbound =
    map_value
      ((bytes "tag", string (bytes "direct")) ∷ (bytes "protocol", string (bytes "freedom")) ∷ [])

-- A nil map encodes as null; `filter_nodes` lets none through.
unfoldable pub outbound_of : Text → Spec → Value
unfolding build_outbound
outbound_of mode n = elim (build_outbound n mode) [ none ↦ Value.null | some out ↦ out ]

-- The three lists that the second loop fills, with what is added after it.
unfoldable pub rules : List Spec → List Value
unfolding rule direct_rule
rules nodes = map rule nodes ++ (direct_rule ∷ [])

unfoldable pub outbounds : Text → List Spec → List Value
unfolding outbound_of direct_outbound
outbounds mode nodes = map (outbound_of mode) nodes ++ (direct_outbound ∷ [])

-- All but the last, and the last, of the parts of a text.
unfoldable pub all_but_last : List Text → List Text
all_but_last [] = []
all_but_last (p ∷ []) = []
all_but_last (p ∷ q ∷ ps) = p ∷ all_but_last (q ∷ ps)

unfoldable pub last_part : List Text → Text
last_part [] = []
last_part (p ∷ []) = p
last_part (p ∷ q ∷ ps) = last_part (q ∷ ps)

-- Without a colon there is one part.
unfoldable pub host_part : Text → Text
unfolding split all_but_last join
host_part addr =
    let parts = split b':' addr in
    if ltb 1 (length parts) then join (bytes ":") (all_but_last parts) else addr

unfoldable pub port_part : Text → ℕ
unfolding split last_part atoi
port_part addr =
    let parts = split b':' addr in if ltb 1 (length parts) then (atoi (last_part parts)).0 else 0

-- int64(d/time.Second), which rounds towards zero
abbrev pub whole_seconds : ℕ → ℕ
whole_seconds d =
    if negative d then (word_mod - (word_mod - d) / 1000000000) % word_mod else d / 1000000000

unfoldable pub duration_string : ℕ → ℕ → Text
unfolding itoa
duration_string v def = itoa (whole_seconds (mul64 (if positive v then v else def) 1000000000))

unfoldable pub seconds_string : ℕ → ℕ → Value
unfolding duration_string
seconds_string v def = string (duration_string v def ++ bytes "s")

unfoldable pub ping_config : ObservatoryConfig → Pairs
unfolding seconds_string is_blank
ping_config o =
    (bytes "destination", string o.destination)
    ∷ (bytes "interval", seconds_string o.interval_seconds 30)
    ∷ (bytes "sampling", int o.sampling)
    ∷ (bytes "timeout", seconds_string o.timeout_seconds 5)
    ∷ (if not (is_blank o.connectivity)
        then (bytes "connectivity", string o.connectivity) ∷ []
        else [])

-- The entry of the root that the mode of the observatory adds.
unfoldable pub observatory_entry : ObservatoryConfig → Text × Value
unfolding to_lower trim_space text_eq seconds_string ping_config fields_of string_items
observatory_entry o =
    if text_eq (to_lower (trim_space o.mode)) (bytes "observatory")
    then (
      bytes "observatory",
      map_value (
          (bytes "subjectSelector", array (string_items (bytes "n-" ∷ [])))
          ∷ (bytes "probeUrl", string o.destination)
          ∷ (bytes "probeInterval", seconds_string o.interval_seconds 30)
          ∷ []),
    )
    else (
      bytes "burstObservatory",
      map_value (
          (bytes "subjectSelector", array (string_items (bytes "n-" ∷ [])))
          ∷ (bytes "pingConfig", map_value (ping_config o))
          ∷ []),
    )

unfoldable pub inbound : GenerateOptions → List Spec → Value
unfolding fields_of items_of account host_part port_part
inbound opt nodes = map_value (
    (bytes "listen", string (host_part opt.socks_listen))
    ∷ (bytes "port", int (port_part opt.socks_listen))
    ∷ (bytes "protocol", string (bytes "socks"))
    ∷ (bytes "tag", string inbound_tag)
    ∷ (
      bytes "settings",
      map_value (
          (bytes "auth", string (bytes "password"))
          ∷ (bytes "udp", boolean true)
          ∷ (bytes "accounts", array (items_of (map (account opt.user_password) nodes)))
          ∷ []),
    )
    ∷ [])

unfoldable pub root : GenerateOptions → List Spec → Value
unfolding fields_of items_of inbound rules outbounds observatory_entry
root opt nodes = map_value (
    (bytes "log", map_value ((bytes "loglevel", string (bytes "warning")) ∷ []))
    ∷ (bytes "inbounds", array (items_of (inbound opt nodes ∷ [])))
    ∷ (
      bytes "routing",
      map_value (
          (bytes "domainStrategy", string (bytes "AsIs"))
          ∷ (bytes "rules", array (items_of (rules nodes)))
          ∷ []),
    )
    ∷ (bytes "outbounds", array (items_of (outbounds opt.mode nodes)))
    ∷ (
      bytes "metrics",
      map_value (
          (bytes "tag", string (bytes "metrics"))
          ∷ (bytes "listen", string opt.metrics_listen)
          ∷ []),
    )
    ∷ observatory_entry opt.observatory
    ∷ [])

abbrev pub node_limit : ℕ → ℕ
node_limit max_nodes = if positive max_nodes then max_nodes else 2000

abbrev pub node_id : Spec → Text
node_id n = n.id

-- `Generate` from the sorted nodes on; `marshal` is json.MarshalIndent, `none` an error of it.
unfoldable pub encode :
    (Text → Text) → (Value → Option Text) → GenerateOptions → List Spec → Map ℕ → Generation
unfolding root encode_to_string
encode sum256 marshal opt nodes skipped = elim (marshal (root opt nodes)) [
  | none ↦ marshal_failed
  | some raw ↦ generated (record {
    config_json = raw;
    hash = take 12 (encode_to_string (sum256 raw));
    included = map node_id nodes;
    skipped = skipped;
  })
]

unfoldable pub generate_from :
    (Text → Text) → (Value → Option Text) → GenerateOptions → Option Filtered → Generation
unfolding encode sort_by
generate_from sum256 marshal opt none = panics
generate_from sum256 marshal opt (some f) =
    let done = encode sum256 marshal opt (sort_by node_id f.nodes) f.skipped in
    if ltb (node_limit opt.max_nodes) (length f.nodes) then too_many_nodes else done

unfoldable pub generate :
    (Text → Text) → (Value → Option Text) → List Spec → GenerateOptions → Generation
unfolding is_blank filter_nodes generate_from
generate sum256 marshal specs opt =
    let done = generate_from sum256 marshal opt (filter_nodes sum256 opt.mode [] specs) in
    if is_blank opt.socks_listen
    then missing_socks_listen
    else if is_blank opt.metrics_listen
    then missing_metrics_listen
    else if is_blank opt.user_password
    then missing_user_password
    else done
