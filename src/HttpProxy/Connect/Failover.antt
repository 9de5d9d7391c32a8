-- ===== src/HttpProxy/Connect/Failover.antt =====
-- Soft failover of a CONNECT request.
use easy_proxy_pool.Prelude.{
  ℕ, zero, suc, ◌+◌, ◌≡◌, refl, inl, inr, Bool, true, false, Option, none, some, List, [], ◌∷◌,
  Bool-cases,
}
use easy_proxy_pool.Prelude.Text.{Text, bytes, text_eq, contains, is_blank}
use easy_proxy_pool.Config.{SelectionConfig}
use easy_proxy_pool.Pool.{Entry, key, Pool, active}
use easy_proxy_pool.HttpProxy.Header.{Header}
use easy_proxy_pool.HttpProxy.Rendezvous.{pick_rendezvous, excluded}
use easy_proxy_pool.HttpProxy.Rendezvous.Best.{pick-IsBest}
use easy_proxy_pool.HttpProxy.Policy.{RequestStickyPolicy, ok, sticky_policy_from_request}
use easy_proxy_pool.HttpProxy.Attempts.{
  World, Choice, unknown_upstream, no_proxies, chosen, or_no_proxies, choose, note_attempt,
  after_failure, rounds, sticky_enabled, exclude,
}
use easy_proxy_pool.HttpProxy.Connect.{
  Dials, dial_through_socks5, Connected, connect_attempt, connect_loop, connect_target,
  handle_connect,
}

-- No key of the entries stands twice or is among those seen.
pub Fresh : List Text → List Entry → Type 0
Fresh seen [] = Unit
Fresh seen (e ∷ es) = (contains seen (key e) ≡ false) × Fresh (key e ∷ seen) es

-- A session with soft failover and no forced upstream.
pub record IsSoft (sel : SelectionConfig) (policy : RequestStickyPolicy) : Type 0 where
  pub session : sticky_enabled sel policy ≡ true
  pub soft : text_eq policy.failover (bytes "soft") ≡ true
  pub free : is_blank policy.force_key ≡ true

choose-fresh :
    (w : World) (sel : SelectionConfig) (policy : RequestStickyPolicy) (i : ℕ)
    (attempted : List Text) (p : Pool) (e : Entry)
    → IsSoft sel policy
    → (choose w sel policy i attempted p).0 ≡ chosen e
    → contains attempted (key e) ≡ false
unfolding choose
choose-fresh w sel policy i attempted p e s h =
    by_pick (pick_rendezvous (active p (w.now i)) policy.session_key (some attempted)) refl
      (rw (s.free, s.session, s.soft, exclude, choose) at h)
  where
    unwrap : (x : Entry) → chosen x ≡ chosen e → x ≡ e
    unwrap x g = cc

    by_pick :
        (r : Option Entry)
        → pick_rendezvous (active p (w.now i)) policy.session_key (some attempted) ≡ r
        → or_no_proxies r ≡ chosen e
        → contains attempted (key e) ≡ false
    by_pick none q g = unfold or_no_proxies in absurd (cc)
    by_pick (some x) q g =
        let same = unwrap x (unfold or_no_proxies in g) in
        let best = pick-IsBest (active p (w.now i)) policy.session_key (some attempted) x q in
        rw (← same) (unfold excluded in best.allowed)

attempt-Fresh :
    (w : World) (dials : Dials) (target : Text) (i : ℕ) (attempted : List Text)
    (retry : Entry → Connected) (c : Choice) (p : Pool)
    → ((e : Entry) → c ≡ chosen e → contains attempted (key e) ≡ false)
    → ((e : Entry) → Fresh (key e ∷ attempted) (retry e).tried)
    → Fresh attempted (connect_attempt w dials target i retry c p).tried
unfolding connect_attempt Fresh
attempt-Fresh w dials target i attempted retry unknown_upstream p new rest = tt
attempt-Fresh w dials target i attempted retry no_proxies p new rest = tt
attempt-Fresh w dials target i attempted retry (chosen e) p new rest =
    elim (Bool-cases (dial_through_socks5 dials i e target)) [
      | inl good ↦ rw (good, connect_attempt) (new e refl, tt)
      | inr bad ↦ rw (bad, connect_attempt) (new e refl, rest e)
    ]

note-soft :
    (sel : SelectionConfig) (policy : RequestStickyPolicy) (e : Entry) (attempted : List Text)
    → IsSoft sel policy
    → note_attempt sel policy e attempted ≡ key e ∷ attempted
unfolding note_attempt
note-soft sel policy e attempted s = rw (s.session, s.soft, s.free) refl

loop-Fresh :
    (w : World) (dials : Dials) (sel : SelectionConfig) (policy : RequestStickyPolicy)
    (target : Text) (n i : ℕ) (attempted : List Text) (p : Pool)
    → IsSoft sel policy
    → Fresh attempted (connect_loop w dials sel policy target n i attempted p).tried
unfolding connect_loop Fresh
loop-Fresh w dials sel policy target zero i attempted p s = tt
loop-Fresh w dials sel policy target (suc n) i attempted p s =
    attempt-Fresh w dials target i attempted
      (λ e.
        connect_loop w dials sel policy target n (i + 1) (note_attempt sel policy e attempted)
          (after_failure sel e (w.now i) (w.during i q)))
      c q (λ e. choose-fresh w sel policy i attempted (w.before i p) e s)
      (λ e. rw (note-soft sel policy e attempted s) (
        loop-Fresh w dials sel policy target n (i + 1) (key e ∷ attempted)
          (after_failure sel e (w.now i) (w.during i q)) s))
  where
    c : Choice
    c = (choose w sel policy i attempted (w.before i p)).0

    q : Pool
    q = (choose w sel policy i attempted (w.before i p)).1

-- A CONNECT request of a session with soft failover, and without a forced upstream, never dials two
-- entries of one key, whatever other goroutines do to the pool.
pub soft_failover-Fresh :
    (w : World) (dials : Dials) (sel : SelectionConfig) (hijacks : Bool) (h : Header) (host : Text)
    (p : Pool) (policy : RequestStickyPolicy)
    → sticky_policy_from_request sel h ≡ ok policy
    → IsSoft sel policy
    → Fresh [] (handle_connect w dials sel true hijacks h host p).tried
unfolding handle_connect Fresh
soft_failover-Fresh w dials sel false h host p policy e s = rw (e, handle_connect) tt
soft_failover-Fresh w dials sel true h host p policy e s =
    rw (e, handle_connect)
      (loop-Fresh w dials sel policy (connect_target host) (rounds sel) 0 [] p s)
