-- ===== src/HttpProxy/Forward.antt =====
-- `handleForward`, `buildForwardRequest` and `isRetryableRequest` of
-- internal/server/httpproxy/proxy.go.
pub mod Exchanges
pub mod Outgoing
use easy_proxy_pool.Prelude.{
  ℕ, zero, suc, ◌+◌, Bool, true, false, ◌&&◌, not, Option, none, some, List, [], ◌∷◌, if◌then◌else◌,
}
use easy_proxy_pool.Prelude.Text.{Text, bytes, text_eq, contains}
use easy_proxy_pool.Prelude.Word.{ltb64}
use easy_proxy_pool.Config.{SelectionConfig}
use easy_proxy_pool.Pool.{Entry, key, Pool, mark_success}
use easy_proxy_pool.HttpProxy.Header.{Header, header_del, strip_hop_by_hop_headers, copy_header}
use easy_proxy_pool.HttpProxy.Policy.{
  RequestStickyPolicy, PolicyResult, ok, invalid_sticky, invalid_failover,
  sticky_policy_from_request, header_sticky, header_failover, header_upstream, header_session,
}
use easy_proxy_pool.HttpProxy.Attempts.{
  World, Choice, unknown_upstream, no_proxies, chosen, choose, note_attempt, after_failure, rounds,
}

-- The two parts of a URL that the proxy looks at, and the rest of it.
pub record Url : Type 0 where
  pub scheme : Text
  pub host : Text
  pub rest : Text

-- `has_body`: the body is neither nil nor http.NoBody.
pub record Request : Type 0 where
  pub method : Text
  pub url : Option Url
  pub host : Text
  pub header : Header
  pub has_body : Bool

pub record Response : Type 0 where
  pub status : ℕ
  pub header : Header
  pub body : Text

unfoldable pub or_default : Text → Text → Text
unfolding text_eq
or_default s d = if text_eq s [] then d else s

unfoldable pub forward_url : Text → Url → Url
unfolding or_default
forward_url host u = record u {
  scheme = or_default u.scheme (bytes "http");
  host = or_default u.host host;
}

-- `none` is the error "missing url".
unfoldable pub build_forward_request : Request → Option Request
unfolding forward_url
build_forward_request r = elim r.url [
  | none ↦ none
  | some u ↦
      some (record r { url = some (forward_url r.host u); host = (forward_url r.host u).host })
]

unfoldable pub is_retryable_request : Request → Bool → Bool
unfolding contains
is_retryable_request r retry_non_idempotent =
    if retry_non_idempotent
    then not r.has_body
    else if contains (bytes "GET" ∷ bytes "HEAD" ∷ bytes "OPTIONS" ∷ bytes "TRACE" ∷ []) r.method
    then not r.has_body
    else false

-- The header of the outgoing request.
unfoldable pub outgoing_header : Header → Header
unfolding strip_hop_by_hop_headers header_del
outgoing_header h =
    header_del
      (header_del
        (header_del (header_del (strip_hop_by_hop_headers h) header_sticky) header_failover)
        header_upstream)
      header_session

-- What the exchange of an attempt gives: its number, the upstream in the request's context and the
-- request. `none` is an error. The client is that of net/http, over a dial through the upstream.
abbrev pub Client : Type 0
Client = ℕ → Entry → Request → Option Response

-- How `handleForward` ends: an error's status, or the response of the upstream that is passed on.
pub data ForwardReply : Type 0 where
  bad_request unknown no_upstreams request_failed : ForwardReply
  passed_on : Response → ForwardReply

-- The end, the entries tried in order, and the pool.
pub record Forwarded : Type 0 where
  pub reply : ForwardReply
  pub tried : List Entry
  pub pool : Pool

unfoldable pub client_response : Response → Response
unfolding strip_hop_by_hop_headers copy_header
client_response r = record r { header = copy_header [] (strip_hop_by_hop_headers r.header) }

-- One attempt, from the choice on; `failed` is the pool after a failed exchange with an entry, and
-- `retry` the rest of the loop.
unfoldable pub forward_attempt :
    World
    → Client
    → Request
    → Bool
    → ℕ
    → (Entry → Pool)
    → (Entry → Forwarded)
    → Choice
    → Pool
    → Forwarded
unfolding client_response mark_success
forward_attempt w client r again i failed retry unknown_upstream p = record {
  reply = unknown;
  tried = [];
  pool = p;
}
forward_attempt w client r again i failed retry no_proxies p = record {
  reply = no_upstreams;
  tried = [];
  pool = p;
}
forward_attempt w client r again i failed retry (chosen e) p = elim (client i e r) [
  | some response ↦ record {
    reply = passed_on (client_response response);
    tried = e ∷ [];
    pool = mark_success (w.during i p) (key e);
  }
  | none ↦ elim again [
    | true ↦ let rest = retry e in record rest { tried = e ∷ rest.tried }
    | false ↦ record { reply = request_failed; tried = e ∷ []; pool = failed e }
  ]
]

-- The loop, with the rounds left, the number of the attempt and `attempted`.
unfoldable pub forward_loop :
    World
    → Client
    → SelectionConfig
    → RequestStickyPolicy
    → Request
    → Bool
    → ℕ
    → ℕ
    → List Text
    → Pool
    → Forwarded
unfolding choose forward_attempt note_attempt after_failure
forward_loop w client sel policy r retryable zero i attempted p = record {
  reply = request_failed;
  tried = [];
  pool = p;
}
forward_loop w client sel policy r retryable (suc n) i attempted p =
    let (choice, q) = choose w sel policy i attempted (w.before i p) in
    let failed : Entry → Pool = λ e. after_failure sel e (w.now i) (w.during i q) in
    forward_attempt w client r (retryable && ltb64 i sel.retries) i failed
      (λ e.
        forward_loop w client sel policy r retryable n (i + 1) (note_attempt sel policy e attempted)
          (failed e))
      choice q

unfoldable pub handle_forward : World → Client → SelectionConfig → Request → Pool → Forwarded
unfolding build_forward_request sticky_policy_from_request outgoing_header is_retryable_request
    forward_loop rounds
handle_forward w client sel r p = elim (build_forward_request r) [
  | none ↦ record { reply = bad_request; tried = []; pool = p }
  | some out ↦ elim (sticky_policy_from_request sel r.header) [
    | invalid_sticky ↦ record { reply = bad_request; tried = []; pool = p }
    | invalid_failover ↦ record { reply = bad_request; tried = []; pool = p }
    | ok policy ↦
        let sent = record out { header = outgoing_header out.header } in
        forward_loop w client sel policy sent (is_retryable_request sent sel.retry_non_idempotent)
          (rounds sel) 0 [] p
  ]
]
