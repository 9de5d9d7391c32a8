-- ===== src/HttpProxy/Policy.antt =====
-- The request's part in the choice of an upstream: internal/server/httpproxy/sticky.go up to
-- `stickyPolicyFromRequest`.
pub mod Trace
pub mod Override
use easy_proxy_pool.Prelude.{
  ℕ, zero, suc, Bool, true, false, ◌&&◌, ◌||◌, not, Option, none, some, List, [], ◌∷◌,
  if◌then◌else◌, leb, ◌==◌, length,
}
use easy_proxy_pool.Prelude.Text.{Text, bytes, trim_space, to_lower, is_blank, text_eq, contains}
use easy_proxy_pool.Config.{SelectionConfig}
use easy_proxy_pool.HttpProxy.Header.{Header, header_get, split}
use easy_proxy_pool.HttpProxy.Credentials.{parse_basic_auth}

abbrev pub header_sticky : Text
header_sticky = bytes "X-EasyProxyPool-Sticky"

abbrev pub header_failover : Text
header_failover = bytes "X-EasyProxyPool-Failover"

abbrev pub header_upstream : Text
header_upstream = bytes "X-EasyProxyPool-Upstream"

abbrev pub header_session : Text
header_session = bytes "X-EasyProxyPool-Session"

abbrev pub header_traceparent : Text
header_traceparent = bytes "traceparent"

-- The text before the first comma, or the whole.
unfoldable pub before_comma : Text → Text
before_comma [] = []
before_comma (c ∷ s) = if c == b',' then [] else c ∷ before_comma s

unfoldable pub has_comma : Text → Bool
has_comma [] = false
has_comma (c ∷ s) = c == b',' || has_comma s

abbrev pub is_hex : ℕ → Bool
is_hex c = (leb b'0' c && leb c b'9') || ((leb b'a' c && leb c b'f') || (leb b'A' c && leb c b'F'))

-- The loop over the bytes of the id, with `all_zero` so far; `none` is a byte that is no digit.
unfoldable pub all_zero_hex : Bool → Text → Option Bool
all_zero_hex all_zero [] = some all_zero
all_zero_hex all_zero (c ∷ s) =
    let rest = all_zero_hex (if c == b'0' then all_zero else false) s in
    if is_hex c then rest else none

-- The end of `parseTraceIDFromTraceparent`, from the parts on.
unfoldable pub trace_id_of_parts : List Text → Option Text
unfolding trim_space to_lower all_zero_hex
trace_id_of_parts (p ∷ trace ∷ q ∷ r ∷ []) =
    let trace_id = trim_space trace in
    if length trace_id == 32
    then elim (all_zero_hex true trace_id) [
      | none ↦ none
      | some all_zero ↦ if all_zero then none else some (to_lower trace_id)
    ]
    else none
trace_id_of_parts _ = none

unfoldable pub parse_trace_id_from_traceparent : Text → Option Text
unfolding trim_space text_eq has_comma before_comma split trace_id_of_parts
parse_trace_id_from_traceparent t =
    let v = trim_space t in
    if text_eq v []
    then none
    else trace_id_of_parts (split b'-' (if has_comma v then trim_space (before_comma v) else v))

abbrev pub words_on : List Text
words_on =
    bytes "1"
    ∷ bytes "true"
    ∷ bytes "t"
    ∷ bytes "yes"
    ∷ bytes "y"
    ∷ bytes "on"
    ∷ bytes "enable"
    ∷ bytes "enabled"
    ∷ []

abbrev pub words_off : List Text
words_off =
    bytes "0"
    ∷ bytes "false"
    ∷ bytes "f"
    ∷ bytes "no"
    ∷ bytes "n"
    ∷ bytes "off"
    ∷ bytes "disable"
    ∷ bytes "disabled"
    ∷ []

unfoldable pub parse_bool_like : Text → Option Bool
unfolding trim_space to_lower contains
parse_bool_like t =
    let v = trim_space (to_lower t) in
    if contains words_on v then some true else if contains words_off v then some false else none

-- The part of `sessionKeyFromRequest` that no override touches.
unfoldable pub session_key_from_auth : Header → Text
unfolding header_get parse_basic_auth parse_trace_id_from_traceparent is_blank
session_key_from_auth h =
    let traced : Text = elim (parse_trace_id_from_traceparent (header_get h header_traceparent)) [
      | none ↦ []
      | some id ↦ id
    ] in
    elim (parse_basic_auth (header_get h (bytes "Proxy-Authorization"))) [
      | none ↦ traced
      | some (user, pass) ↦ if is_blank user then traced else user
    ]

unfoldable pub session_key_from_request : Bool → Header → Text
unfolding session_key_from_auth trim_space text_eq
session_key_from_request allow_header_override h =
    let v = trim_space (header_get h header_session) in
    if allow_header_override && not (text_eq v []) then v else session_key_from_auth h

pub record RequestStickyPolicy : Type 0 where
  pub session_key : Text
  pub force_sticky : Option Bool
  pub failover : Text
  pub force_key : Text

pub data PolicyResult : Type 0 where
  ok : RequestStickyPolicy → PolicyResult
  invalid_sticky invalid_failover : PolicyResult

-- *sel.Sticky.HeaderOverride, true if it is nil
abbrev pub or_true : Option Bool → Bool
or_true none = true
or_true (some b) = b

-- The three override headers: the forced key, then the switch, then the failover.
unfoldable pub override_failover : RequestStickyPolicy → Header → PolicyResult
unfolding header_get trim_space to_lower text_eq contains
override_failover p h =
    let v = trim_space (header_get h header_failover) in
    if text_eq v []
    then ok p
    else if contains (bytes "soft" ∷ bytes "hard" ∷ []) (to_lower v)
    then ok (record p { failover = to_lower v })
    else invalid_failover

unfoldable pub override_sticky : RequestStickyPolicy → Header → PolicyResult
unfolding override_failover parse_bool_like
override_sticky p h =
    let v = trim_space (header_get h header_sticky) in
    if text_eq v [] then override_failover p h else elim (parse_bool_like v) [
      | none ↦ invalid_sticky
      | some b ↦ override_failover (record p { force_sticky = some b }) h
    ]

unfoldable pub sticky_policy_from_request : SelectionConfig → Header → PolicyResult
unfolding override_sticky session_key_from_request
sticky_policy_from_request sel h =
    let header_override = or_true sel.sticky.header_override in
    let start : RequestStickyPolicy = record {
      session_key = session_key_from_request header_override h;
      force_sticky = none;
      failover = sel.sticky.failover;
      force_key = [];
    } in
    if header_override
    then override_sticky (record start { force_key = trim_space (header_get h header_upstream) }) h
    else ok start
