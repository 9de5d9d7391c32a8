-- ===== src/HttpProxy/Connect.antt =====
-- `handleConnect` of internal/server/httpproxy/proxy.go, up to the tunnel's first byte.
pub mod Trail
pub mod Failover
pub mod Forced
use easy_proxy_pool.Prelude.{
  ℕ, zero, suc, ◌+◌, ◌++◌, Bool, true, false, Option, none, some, List, [], ◌∷◌, if◌then◌else◌,
  ◌==◌, ◌||◌,
}
use easy_proxy_pool.Prelude.Text.{Text, bytes}
use easy_proxy_pool.Config.{SelectionConfig}
use easy_proxy_pool.Pool.{Entry, key, Pool, mark_success}
use easy_proxy_pool.HttpProxy.Header.{Header}
use easy_proxy_pool.HttpProxy.Policy.{
  RequestStickyPolicy, PolicyResult, ok, invalid_sticky, invalid_failover,
  sticky_policy_from_request,
}
use easy_proxy_pool.HttpProxy.Attempts.{
  World, Choice, unknown_upstream, no_proxies, chosen, choose, note_attempt, after_failure, rounds,
  dial_auth,
}

-- Whether the dial of an attempt gives a connection: its number, the upstream's address, the
-- credentials for it and the target. The dialer is that of golang.org/x/net/proxy.
abbrev pub Dials : Type 0
Dials = ℕ → Text → Option (Text × Text) → Text → Bool

unfoldable pub dial_through_socks5 : Dials → ℕ → Entry → Text → Bool
unfolding dial_auth
dial_through_socks5 dials i e target = dials i e.addr (dial_auth e) target

-- How `handleConnect` ends: the errors it hands to http.Error, or the tunnel through an entry.
pub data ConnectReply : Type 0 where
  no_hijack bad_request hijack_failed unknown no_upstreams connect_failed : ConnectReply
  established : Entry → ConnectReply

-- The end, the entries dialled in order, and the pool.
pub record Connected : Type 0 where
  pub reply : ConnectReply
  pub tried : List Entry
  pub pool : Pool

unfoldable pub contains_colon : Text → Bool
contains_colon [] = false
contains_colon (c ∷ s) = c == b':' || contains_colon s

unfoldable pub connect_target : Text → Text
unfolding contains_colon
connect_target host = if contains_colon host then host else host ++ bytes ":443"

abbrev pub dialled : Entry → Connected → Connected
dialled e c = record c { tried = e ∷ c.tried }

-- One attempt, from the choice on; `retry` is the rest of the loop after a failed dial of an entry.
unfoldable pub connect_attempt :
    World → Dials → Text → ℕ → (Entry → Connected) → Choice → Pool → Connected
unfolding dial_through_socks5 mark_success
connect_attempt w dials target i retry unknown_upstream p = record {
  reply = unknown;
  tried = [];
  pool = p;
}
connect_attempt w dials target i retry no_proxies p = record {
  reply = no_upstreams;
  tried = [];
  pool = p;
}
connect_attempt w dials target i retry (chosen e) p = elim (dial_through_socks5 dials i e target) [
  | true ↦ record {
    reply = established e;
    tried = e ∷ [];
    pool = mark_success (w.during i p) (key e);
  }
  | false ↦ dialled e (retry e)
]

-- The loop, with the rounds left, the number of the attempt and `attempted`.
unfoldable pub connect_loop :
    World
    → Dials
    → SelectionConfig
    → RequestStickyPolicy
    → Text
    → ℕ
    → ℕ
    → List Text
    → Pool
    → Connected
unfolding choose connect_attempt note_attempt after_failure
connect_loop w dials sel policy target zero i attempted p = record {
  reply = connect_failed;
  tried = [];
  pool = p;
}
connect_loop w dials sel policy target (suc n) i attempted p =
    let (choice, q) = choose w sel policy i attempted (w.before i p) in
    connect_attempt w dials target i
      (λ e.
        connect_loop w dials sel policy target n (i + 1) (note_attempt sel policy e attempted)
          (after_failure sel e (w.now i) (w.during i q)))
      choice q

-- `hijacker` says whether the writer can be hijacked and `hijacks` whether that succeeds. What is
-- handed to http.Error after the hijack does not reach the client.
unfoldable pub handle_connect :
    World → Dials → SelectionConfig → Bool → Bool → Header → Text → Pool → Connected
unfolding sticky_policy_from_request connect_loop connect_target rounds
handle_connect w dials sel hijacker hijacks h host p =
    if hijacker
    then elim (sticky_policy_from_request sel h) [
      | invalid_sticky ↦ record { reply = bad_request; tried = []; pool = p }
      | invalid_failover ↦ record { reply = bad_request; tried = []; pool = p }
      | ok policy ↦
          let run = connect_loop w dials sel policy (connect_target host) (rounds sel) 0 [] p in
          (if hijacks then run else record { reply = hijack_failed; tried = []; pool = p })
    ]
    else record { reply = no_hijack; tried = []; pool = p }
