-- ===== src/Tests/Sessions.antt =====
-- The theorems on internal/server/httpproxy/sticky.go, and on the authentication of both proxies, at
-- concrete inputs.
use easy_proxy_pool.Prelude.{◌≡◌, refl, Bool, true, false, none, some, [], ◌∷◌, filter, ◌&&◌}
use easy_proxy_pool.Prelude.Text.{Text, bytes, text_eq, contains, is_blank}
use easy_proxy_pool.Pool.{key}
use easy_proxy_pool.Config.{SelectionConfig, AuthConfig}
use easy_proxy_pool.Config.Validation.{IsAuth}
use easy_proxy_pool.HttpProxy.Header.{Header, header_get}
use easy_proxy_pool.HttpProxy.Credentials.{parse_basic_auth, authorize_http}
use easy_proxy_pool.HttpProxy.Rendezvous.{pick_rendezvous}
use easy_proxy_pool.HttpProxy.Rendezvous.Best.{IsBest, pick-IsBest}
use easy_proxy_pool.HttpProxy.Rendezvous.Stability.{pick-stable}
use easy_proxy_pool.HttpProxy.Policy.{
  parse_trace_id_from_traceparent, sticky_policy_from_request, ok, session_key_from_auth,
}
use easy_proxy_pool.HttpProxy.Policy.Trace.{IsTraceId, traceparent-IsTraceId}
use easy_proxy_pool.HttpProxy.Policy.Override.{policy_no_override}
use easy_proxy_pool.SocksProxy.{admits, credential_store_from_auth}
use easy_proxy_pool.SocksProxy.Access.{authorize-admits}
use easy_proxy_pool.Tests.Pools.{entry, two}

abbrev pub selection : Bool → SelectionConfig
selection override = record {
  strategy = bytes "round_robin";
  retries = 2;
  failure_backoff_seconds = 30;
  max_backoff_seconds = 600;
  retry_non_idempotent = false;
  sticky = record { enabled = true; header_override = some override; failover = bytes "soft" };
}

-- The credentials are "u:p".
abbrev pub header : Header
header =
    (bytes "Connection", bytes "X-Hop" ∷ [])
    ∷ (bytes "X-Hop", bytes "1" ∷ [])
    ∷ (bytes "Proxy-Authorization", bytes "Basic dTpw" ∷ [])
    ∷ (bytes "X-Easyproxypool-Failover", bytes "hard" ∷ [])
    ∷ []

abbrev trace_id : Text
trace_id = bytes "4bf92f3577b34da6a3ce929d0e0e4736"

abbrev traceparent : Text
traceparent = bytes "00-4BF92F3577B34DA6A3CE929D0E0E4736-00f067aa0ba902b7-01"

abbrev basic : AuthConfig
basic = record { mode = bytes "basic"; username = bytes "u"; password = bytes "p" }

abbrev static_valid : Text → Text → Text → Text → Bool
static_valid u p user password = text_eq user u && text_eq password p

pick-IsBest_example : IsBest (bytes "s") none two (entry (bytes "a:1") 0)
unfolding pick_rendezvous key is_blank
pick-IsBest_example = pick-IsBest two (bytes "s") none (entry (bytes "a:1") 0) refl

pick-stable_example :
    pick_rendezvous (filter (λ e. text_eq e.addr (bytes "a:1")) two) (bytes "s") none
    ≡ some (entry (bytes "a:1") 0)
unfolding pick_rendezvous text_eq key is_blank
pick-stable_example =
    pick-stable (λ e. text_eq e.addr (bytes "a:1")) two (bytes "s") none (entry (bytes "a:1") 0)
      refl refl

traceparent-IsTraceId_example : IsTraceId trace_id
unfolding parse_trace_id_from_traceparent
traceparent-IsTraceId_example = traceparent-IsTraceId traceparent trace_id refl

policy_no_override_example :
    (sticky_policy_from_request (selection false) header
      ≡ sticky_policy_from_request (selection false) header)
    × (sticky_policy_from_request (selection false) header
        ≡ ok (record {
          session_key = session_key_from_auth header;
          force_sticky = none;
          failover = bytes "soft";
          force_key = [];
        }))
policy_no_override_example = policy_no_override (selection false) header header refl refl refl

basic-IsAuth : IsAuth basic
unfolding contains text_eq is_blank
basic-IsAuth = record { mode = refl; username = λ m. refl; password = λ m. refl }

authorize-admits_example :
    authorize_http basic header
    ≡ admits static_valid (credential_store_from_auth basic) (bytes "u") (bytes "p")
unfolding parse_basic_auth header_get
authorize-admits_example =
    authorize-admits basic header static_valid (bytes "u") (bytes "p") basic-IsAuth
      (λ u p user password. refl) refl
