-- ===== src/HttpProxy/Attempts.antt =====
-- What the request loops of internal/server/httpproxy/proxy.go and
-- internal/server/socks5proxy/server.go share: the world a request runs in, the choice of an entry,
-- and what is done after each attempt.
use easy_proxy_pool.Prelude.{
  ℕ, ◌+◌, Bool, ◌&&◌, not, Option, none, some, List, ◌∷◌, if◌then◌else◌, ltb,
}
use easy_proxy_pool.Prelude.Text.{Text, bytes, is_blank, text_eq}
use easy_proxy_pool.Prelude.Word.{sign_bit, mul64}
use easy_proxy_pool.Config.{SelectionConfig}
use easy_proxy_pool.Pool.{Entry, key, Pool, next, get, active, mark_failure}
use easy_proxy_pool.HttpProxy.Rendezvous.{pick_rendezvous}
use easy_proxy_pool.HttpProxy.Policy.{RequestStickyPolicy}

-- What a request meets from outside, by the number of the attempt: the clock before and after the
-- dial, the pool's generator, and what other goroutines do to the pool before the choice and during
-- the dial.
pub record World : Type 0 where
  pub now : ℕ → ℕ
  pub later : ℕ → ℕ
  pub draws : ℕ → ℕ → ℕ
  pub before : ℕ → Pool → Pool
  pub during : ℕ → Pool → Pool

-- for attempt := 0; attempt <= retries; attempt++, with retries an int. (At 2^63 - 1 retries the
-- counter would wrap round and the loop go on.)
unfoldable pub rounds : SelectionConfig → ℕ
rounds sel = if ltb sel.retries sign_bit then sel.retries + 1 else 0

-- time.Duration(s) * time.Second
abbrev pub seconds : ℕ → ℕ
seconds s = mul64 s 1000000000

-- The proxy.Auth that a dial through the entry uses; `none` is nil.
unfoldable pub dial_auth : Entry → Option (Text × Text)
unfolding is_blank
dial_auth e =
    if not (is_blank e.username && is_blank e.password) then some (e.username, e.password) else none

unfoldable pub sticky_enabled : SelectionConfig → RequestStickyPolicy → Bool
unfolding is_blank
sticky_enabled sel policy = elim policy.force_sticky [
  | none ↦ sel.sticky.enabled && not (is_blank policy.session_key)
  | some force ↦ force && not (is_blank policy.session_key)
]

pub data Choice : Type 0 where
  unknown_upstream no_proxies : Choice
  chosen : Entry → Choice

unfoldable pub or_unknown : Option Entry → Choice
or_unknown none = unknown_upstream
or_unknown (some e) = chosen e

unfoldable pub or_no_proxies : Option Entry → Choice
or_no_proxies none = no_proxies
or_no_proxies (some e) = chosen e

-- `exclude`: the keys attempted under soft failover, and nil otherwise.
unfoldable pub exclude : RequestStickyPolicy → List Text → Option (List Text)
unfolding text_eq
exclude policy attempted = if text_eq policy.failover (bytes "soft") then some attempted else none

-- The choice of attempt `i`, with the pool it leaves.
unfoldable pub choose :
    World → SelectionConfig → RequestStickyPolicy → ℕ → List Text → Pool → Choice × Pool
unfolding or_unknown or_no_proxies exclude get active next pick_rendezvous sticky_enabled
choose w sel policy i attempted p =
    if not (is_blank policy.force_key)
    then (or_unknown (get p policy.force_key (w.now i)), p)
    else if sticky_enabled sel policy
    then (
      or_no_proxies
          (pick_rendezvous (active p (w.now i)) policy.session_key (exclude policy attempted)),
      p,
    )
    else (let picked = next p sel.strategy (w.now i) (w.draws i) in
        (or_no_proxies picked.0, picked.1))

-- attempted[entry.Key()] = struct{}{}, under soft failover of a session.
unfoldable pub note_attempt : SelectionConfig → RequestStickyPolicy → Entry → List Text → List Text
unfolding text_eq is_blank sticky_enabled
note_attempt sel policy e attempted =
    if sticky_enabled sel policy
      && (text_eq policy.failover (bytes "soft") && is_blank policy.force_key)
    then key e ∷ attempted
    else attempted

-- The pool after a failed dial that was charged at time `t`, and after one that succeeded.
unfoldable pub after_failure : SelectionConfig → Entry → ℕ → Pool → Pool
unfolding mark_failure
after_failure sel e t p =
    mark_failure p (key e) t (seconds sel.failure_backoff_seconds) (seconds sel.max_backoff_seconds)
