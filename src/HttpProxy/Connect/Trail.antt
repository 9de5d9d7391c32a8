-- ===== src/HttpProxy/Connect/Trail.antt =====
-- The order of a CONNECT request's dials.
use easy_proxy_pool.Prelude.{
  ℕ, zero, suc, ◌+◌, ◌≡◌, refl, ◌⊎◌, inl, inr, Bool, true, false, List, [], ◌∷◌, if◌then◌else◌,
  Bool-cases,
}
use easy_proxy_pool.Prelude.Text.{Text}
use easy_proxy_pool.Config.{SelectionConfig}
use easy_proxy_pool.Pool.{Entry, Pool}
use easy_proxy_pool.HttpProxy.Header.{Header}
use easy_proxy_pool.HttpProxy.Policy.{
  RequestStickyPolicy, PolicyResult, ok, invalid_sticky, invalid_failover,
  sticky_policy_from_request,
}
use easy_proxy_pool.HttpProxy.Attempts.{
  World, Choice, unknown_upstream, no_proxies, chosen, choose, note_attempt, after_failure, rounds,
}
use easy_proxy_pool.HttpProxy.Connect.{
  Dials, dial_through_socks5, ConnectReply, no_hijack, bad_request, hijack_failed, unknown,
  no_upstreams, connect_failed, established, Connected, connect_attempt, connect_loop,
  connect_target, handle_connect,
}

-- What an end without a further dial says, with `n` attempts left: not a tunnel, and "CONNECT failed"
-- only with none left.
Ends : ConnectReply → ℕ → Type 0
Ends (established e) n = ⊥
Ends connect_failed n = n ≡ 0
Ends no_hijack n = Unit
Ends bad_request n = Unit
Ends hijack_failed n = Unit
Ends unknown n = Unit
Ends no_upstreams n = Unit

-- With `n` attempts left from number `i` on, these entries were dialled: all dials failed but the last
-- of a tunnel, which goes through its entry.
pub Trail : Dials → Text → ℕ → ℕ → ConnectReply → List Entry → Type 0
Trail dials target n i reply [] = Ends reply n
Trail dials target zero i reply (e ∷ es) = ⊥
Trail dials target (suc n) i reply (e ∷ es) =
    ((dial_through_socks5 dials i e target ≡ true) × (reply ≡ established e) × (es ≡ []))
    ⊎ ((dial_through_socks5 dials i e target ≡ false) × Trail dials target n (i + 1) reply es)

attempt-Trail :
    (w : World) (dials : Dials) (target : Text) (n i : ℕ) (retry : Entry → Connected) (c : Choice)
    (p : Pool)
    → ((e : Entry) → Trail dials target n (i + 1) (retry e).reply (retry e).tried)
    → let r = connect_attempt w dials target i retry c p in
      Trail dials target (suc n) i r.reply r.tried
unfolding connect_attempt Trail Ends
attempt-Trail w dials target n i retry unknown_upstream p rest = tt
attempt-Trail w dials target n i retry no_proxies p rest = tt
attempt-Trail w dials target n i retry (chosen e) p rest =
    elim (Bool-cases (dial_through_socks5 dials i e target)) [
      | inl good ↦ rw (good, connect_attempt) (inl (good, refl, refl))
      | inr bad ↦ rw (bad, connect_attempt) (inr (bad, rest e))
    ]

loop-Trail :
    (w : World) (dials : Dials) (sel : SelectionConfig) (policy : RequestStickyPolicy)
    (target : Text) (n i : ℕ) (attempted : List Text) (p : Pool)
    → let r = connect_loop w dials sel policy target n i attempted p in
      Trail dials target n i r.reply r.tried
unfolding connect_loop Trail Ends
loop-Trail w dials sel policy target zero i attempted p = refl
loop-Trail w dials sel policy target (suc n) i attempted p =
    let (choice, q) = choose w sel policy i attempted (w.before i p) in
    attempt-Trail w dials target n i
      (λ e.
        connect_loop w dials sel policy target n (i + 1) (note_attempt sel policy e attempted)
          (after_failure sel e (w.now i) (w.during i q)))
      choice q
      (λ e.
        loop-Trail w dials sel policy target n (i + 1) (note_attempt sel policy e attempted)
          (after_failure sel e (w.now i) (w.during i q)))

-- A CONNECT request dials one entry after another, with at most the retries and one dials. It opens a
-- tunnel through the first entry whose dial succeeds and dials no further, and it reports "CONNECT
-- failed" only after the retries and one failed dials, whatever other goroutines do to the pool.
pub handle_connect-Trail :
    (w : World) (dials : Dials) (sel : SelectionConfig) (hijacker hijacks : Bool) (h : Header)
    (host : Text) (p : Pool)
    → let r = handle_connect w dials sel hijacker hijacks h host p in
      Trail dials (connect_target host) (rounds sel) 0 r.reply r.tried
unfolding handle_connect Trail Ends
handle_connect-Trail w dials sel false hijacks h host p = tt
handle_connect-Trail w dials sel true hijacks h host p =
    by_policy (sticky_policy_from_request sel h) hijacks
  where
    by_policy :
        (r : PolicyResult) (hijacks : Bool)
        → let c : Connected = elim r [
          | invalid_sticky ↦ record { reply = bad_request; tried = []; pool = p }
          | invalid_failover ↦ record { reply = bad_request; tried = []; pool = p }
          | ok policy ↦
              let run = connect_loop w dials sel policy (connect_target host) (rounds sel) 0 [] p in
              (if hijacks then run else record { reply = hijack_failed; tried = []; pool = p })
        ] in
          Trail dials (connect_target host) (rounds sel) 0 c.reply c.tried
    by_policy invalid_sticky b = tt
    by_policy invalid_failover b = tt
    by_policy (ok policy) false = tt
    by_policy (ok policy) true =
        loop-Trail w dials sel policy (connect_target host) (rounds sel) 0 [] p
