-- ===== src/HttpProxy/Connect/Forced.antt =====
-- A CONNECT request that forces an upstream.
use easy_proxy_pool.Prelude.{
  ℕ, zero, suc, ◌+◌, ◌≡◌, refl, sym, ap, subst, ◌∙◌, inl, inr, Bool, true, false, Option, none,
  some, List, [], All, Bool-cases, Option-cases,
}
use easy_proxy_pool.Prelude.Text.{Text, is_blank}
use easy_proxy_pool.Prelude.Map.{lookup}
use easy_proxy_pool.Config.{SelectionConfig}
use easy_proxy_pool.Pool.{Entry, key, Pool, get, is_disabled}
use easy_proxy_pool.Pool.Index.{IsIndexed, mark_failure-IsIndexed}
use easy_proxy_pool.HttpProxy.Header.{Header}
use easy_proxy_pool.HttpProxy.Policy.{RequestStickyPolicy, ok, sticky_policy_from_request}
use easy_proxy_pool.HttpProxy.Attempts.{
  World, Choice, unknown_upstream, no_proxies, chosen, or_unknown, choose, note_attempt,
  after_failure, rounds, seconds,
}
use easy_proxy_pool.HttpProxy.Connect.{
  Dials, dial_through_socks5, Connected, connect_attempt, connect_loop, connect_target,
  handle_connect,
}

-- What the other goroutines do keeps the pool's index in order, as all calls of `Index.Call` do.
pub record IsOrderly (w : World) : Type 0 where
  pub before_ok : (i : ℕ) (p : Pool) → IsIndexed p → IsIndexed (w.before i p)
  pub during_ok : (i : ℕ) (p : Pool) → IsIndexed p → IsIndexed (w.during i p)

get-key :
    (p : Pool) (k : Text) (now : ℕ) (e : Entry) → IsIndexed p → get p k now ≡ some e → key e ≡ k
unfolding get
get-key p k now e v h = elim (Option-cases (lookup p.index k)) [
  | inl missing ↦ absurd (nothing (rw (missing, get) at h))
  | inr (j, hit) ↦
      let (x, held, same) = v.sound k j hit in
      elim (Bool-cases (is_disabled now x)) [
        | inl out ↦ absurd (nothing (rw (hit, held, out, get) at h))
        | inr in_use ↦ ap key (sym (unwrap x (rw (hit, held, in_use, get) at h))) ∙ same
      ]
]
  where
    nothing : none ≡ some e → ⊥
    nothing g = cc

    unwrap : (x : Entry) → some x ≡ some e → x ≡ e
    unwrap x g = cc

module _ (w : World) (sel : SelectionConfig) (policy : RequestStickyPolicy)
    (forced : is_blank policy.force_key ≡ false) where
  choose-forced :
      (i : ℕ) (attempted : List Text) (p : Pool)
      → choose w sel policy i attempted p ≡ (or_unknown (get p policy.force_key (w.now i)), p)
  unfolding choose
  choose-forced i attempted p = rw (forced) refl

  choose-key :
      (i : ℕ) (attempted : List Text) (p : Pool) (e : Entry)
      → IsIndexed p
      → (choose w sel policy i attempted p).0 ≡ chosen e
      → key e ≡ policy.force_key
  choose-key i attempted p e v h =
      by_get (get p policy.force_key (w.now i)) refl
        (sym (ap (λ c. c.0) (choose-forced i attempted p)) ∙ h)
    where
      unwrap : (x : Entry) → chosen x ≡ chosen e → x ≡ e
      unwrap x g = cc

      by_get :
          (r : Option Entry)
          → get p policy.force_key (w.now i) ≡ r
          → or_unknown r ≡ chosen e
          → key e ≡ policy.force_key
      by_get none q g = unfold or_unknown in absurd (cc)
      by_get (some x) q g =
          ap key (sym (unwrap x (unfold or_unknown in g)))
          ∙ get-key p policy.force_key (w.now i) x v q

abbrev pub Keyed : Text → List Entry → Type 0
Keyed k es = All (λ e. key e ≡ k) es

attempt-Keyed :
    (w : World) (dials : Dials) (target k : Text) (i : ℕ) (retry : Entry → Connected) (c : Choice)
    (p : Pool)
    → ((e : Entry) → c ≡ chosen e → key e ≡ k)
    → ((e : Entry) → Keyed k (retry e).tried)
    → Keyed k (connect_attempt w dials target i retry c p).tried
unfolding connect_attempt
attempt-Keyed w dials target k i retry unknown_upstream p same rest = tt
attempt-Keyed w dials target k i retry no_proxies p same rest = tt
attempt-Keyed w dials target k i retry (chosen e) p same rest =
    elim (Bool-cases (dial_through_socks5 dials i e target)) [
      | inl good ↦ rw (good, connect_attempt) (same e refl, tt)
      | inr bad ↦ rw (bad, connect_attempt) (same e refl, rest e)
    ]

loop-Keyed :
    (w : World) (dials : Dials) (sel : SelectionConfig) (policy : RequestStickyPolicy)
    (target : Text) (n i : ℕ) (attempted : List Text) (p : Pool)
    → IsOrderly w
    → is_blank policy.force_key ≡ false
    → IsIndexed p
    → Keyed policy.force_key (connect_loop w dials sel policy target n i attempted p).tried
unfolding connect_loop after_failure
loop-Keyed w dials sel policy target zero i attempted p o f v = tt
loop-Keyed w dials sel policy target (suc n) i attempted p o f v =
    attempt-Keyed w dials target policy.force_key i
      (λ e.
        connect_loop w dials sel policy target n (i + 1) (note_attempt sel policy e attempted)
          (after_failure sel e (w.now i) (w.during i q)))
      c q (λ e. choose-key w sel policy f i attempted (w.before i p) e ready)
      (λ e.
        loop-Keyed w dials sel policy target n (i + 1) (note_attempt sel policy e attempted)
          (after_failure sel e (w.now i) (w.during i q)) o f
          (mark_failure-IsIndexed (w.during i q) (key e) (w.now i)
            (seconds sel.failure_backoff_seconds) (seconds sel.max_backoff_seconds)
            (o.during_ok i q chosen_ready)))
  where
    c : Choice
    c = (choose w sel policy i attempted (w.before i p)).0

    q : Pool
    q = (choose w sel policy i attempted (w.before i p)).1

    ready : IsIndexed (w.before i p)
    ready = o.before_ok i p v

    chosen_ready : IsIndexed q
    chosen_ready =
        subst IsIndexed
          (ap (λ r. r.1) (sym (choose-forced w sel policy f i attempted (w.before i p)))) ready

-- A CONNECT request that forces an upstream dials only entries whose key is the forced one, if the pool
-- starts with its index in order and other goroutines keep it so.
pub forced-Keyed :
    (w : World) (dials : Dials) (sel : SelectionConfig) (hijacks : Bool) (h : Header) (host : Text)
    (p : Pool) (policy : RequestStickyPolicy)
    → IsOrderly w
    → IsIndexed p
    → sticky_policy_from_request sel h ≡ ok policy
    → is_blank policy.force_key ≡ false
    → Keyed policy.force_key (handle_connect w dials sel true hijacks h host p).tried
unfolding handle_connect
forced-Keyed w dials sel false h host p policy o v e f = rw (e, handle_connect) tt
forced-Keyed w dials sel true h host p policy o v e f =
    rw (e, handle_connect)
      (loop-Keyed w dials sel policy (connect_target host) (rounds sel) 0 [] p o f v)
