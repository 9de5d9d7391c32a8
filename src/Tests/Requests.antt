-- ===== src/Tests/Requests.antt =====
-- The theorems on the request loops of both proxies at concrete requests.
use easy_proxy_pool.Prelude.{
  ◌≡◌, refl, inl, inr, subst, Bool-cases, true, false, none, some, [], ◌∷◌, ◌==◌, ◌||◌,
  if◌then◌else◌, map,
}
use easy_proxy_pool.Prelude.Text.{bytes, text_eq, contains, is_blank}
use easy_proxy_pool.Prelude.Map.{lookup}
use easy_proxy_pool.Pool.{Pool, new, update}
use easy_proxy_pool.Pool.Index.{update-IsIndexed}
use easy_proxy_pool.HttpProxy.Header.{Header, canonical_key, hop_by_hop, connection_tokens}
use easy_proxy_pool.HttpProxy.Header.Copy.{IsHeader}
use easy_proxy_pool.HttpProxy.Policy.{RequestStickyPolicy, sticky_policy_from_request}
use easy_proxy_pool.HttpProxy.Attempts.{World, rounds, sticky_enabled}
use easy_proxy_pool.HttpProxy.Connect.{Dials, handle_connect, connect_target}
use easy_proxy_pool.HttpProxy.Connect.Trail.{Trail, handle_connect-Trail}
use easy_proxy_pool.HttpProxy.Connect.Failover.{Fresh, IsSoft, soft_failover-Fresh}
use easy_proxy_pool.HttpProxy.Connect.Forced.{IsOrderly, Keyed, forced-Keyed}
use easy_proxy_pool.HttpProxy.Forward.{
  Client, Request, Response, handle_forward, build_forward_request, is_retryable_request,
  outgoing_header,
}
use easy_proxy_pool.HttpProxy.Forward.Exchanges.{HasHeaders, IsForward, handle_forward-IsForward}
use easy_proxy_pool.HttpProxy.Forward.Outgoing.{control_headers, lookup-outgoing_header}
use easy_proxy_pool.SocksProxy.Dial.{dial, dial-Trail}
use easy_proxy_pool.Tests.Pools.{two}
use easy_proxy_pool.Tests.Sessions.{selection, header}

abbrev alone : World
alone = record {
  now = λ i. 9;
  later = λ i. 10;
  draws = λ i j. j;
  before = λ i p. p;
  during = λ i p. p;
}

-- The second dial succeeds.
abbrev second : Dials
second i addr auth target = i == 1

abbrev pool : Pool
pool = update new two

alone-IsOrderly : IsOrderly alone
alone-IsOrderly = record { before_ok = λ i p v. v; during_ok = λ i p v. v }

handle_connect-Trail_example :
    let r = handle_connect alone second (selection true) true true header (bytes "h") pool in
    Trail second (connect_target (bytes "h")) (rounds (selection true)) 0 r.reply r.tried
handle_connect-Trail_example =
    handle_connect-Trail alone second (selection true) true true header (bytes "h") pool

abbrev session : RequestStickyPolicy
session = record {
  session_key = bytes "u";
  force_sticky = none;
  failover = bytes "soft";
  force_key = [];
}

session-IsSoft : IsSoft (selection false) session
unfolding sticky_enabled text_eq is_blank
session-IsSoft = record { session = refl; soft = refl; free = refl }

soft_failover-Fresh_example :
    Fresh [] (handle_connect alone second (selection false) true true header (bytes "h") pool).tried
unfolding sticky_policy_from_request
soft_failover-Fresh_example =
    soft_failover-Fresh alone second (selection false) true header (bytes "h") pool session refl
      session-IsSoft

abbrev forcing : Header
forcing = (bytes "X-Easyproxypool-Upstream", bytes "b:1" ∷ []) ∷ []

abbrev forced : RequestStickyPolicy
forced = record {
  session_key = [];
  force_sticky = none;
  failover = bytes "soft";
  force_key = bytes "b:1";
}

forced-Keyed_example :
    Keyed
      (bytes "b:1")
      (handle_connect alone second (selection true) true true forcing (bytes "h") pool).tried
unfolding sticky_policy_from_request is_blank
forced-Keyed_example =
    forced-Keyed alone second (selection true) true forcing (bytes "h") pool forced alone-IsOrderly
      (update-IsIndexed new two) refl refl

abbrev request : Request
request = record {
  method = bytes "GET";
  url = some (record { scheme = bytes "http"; host = bytes "h"; rest = bytes "/" });
  host = bytes "h";
  header = header;
  has_body = false;
}

abbrev response : Response
response = record {
  status = 200;
  header = (bytes "Connection", bytes "x-a" ∷ []) ∷ (bytes "X-A", bytes "1" ∷ []) ∷ [];
  body = bytes "b";
}

abbrev client : Client
client i e r = if i == 1 then some response else none

client-HasHeaders : HasHeaders client
unfolding lookup canonical_key
client-HasHeaders i e r s g = elim (Bool-cases (i == 1)) [
  | inl now ↦ subst (λ (x : Response). IsHeader x.header) (unwrap (rw now at g)) response-IsHeader
  | inr later ↦ absurd (never (rw later at g))
]
  where
    unwrap : some response ≡ some s → response ≡ s
    unwrap e = cc

    never : none ≡ some s → ⊥
    never e = cc

    response-IsHeader : IsHeader response.header
    response-IsHeader = (refl, refl, (refl, refl, tt))

handle_forward-IsForward_example :
    let sent = record request { header = outgoing_header header } in
    IsForward client sent
      (is_retryable_request sent false)
      (rounds (selection true))
      0
      (handle_forward alone client (selection true) request pool)
unfolding build_forward_request
handle_forward-IsForward_example =
    handle_forward-IsForward alone client (selection true) request request pool client-HasHeaders
      refl

lookup-outgoing_header_example :
    lookup (outgoing_header header) (bytes "X-Easyproxypool-Failover") ≡ (
      if contains (map canonical_key hop_by_hop) (bytes "X-Easyproxypool-Failover")
        || contains
            (map canonical_key (connection_tokens header))
            (bytes "X-Easyproxypool-Failover")
        || contains (map canonical_key control_headers) (bytes "X-Easyproxypool-Failover")
      then none
      else lookup header (bytes "X-Easyproxypool-Failover"))
lookup-outgoing_header_example = lookup-outgoing_header header (bytes "X-Easyproxypool-Failover")

dial-Trail_example :
    let r = dial alone second (selection true) (bytes "h:80") pool in
    easy_proxy_pool.SocksProxy.Dial.Trail second
      (bytes "h:80")
      (rounds (selection true))
      0
      r.reply
      r.tried
dial-Trail_example = dial-Trail alone second (selection true) (bytes "h:80") pool
