-- ===== src/HttpProxy/Policy/Override.antt =====
-- What the request's headers can change of the sticky policy.
use easy_proxy_pool.Prelude.{
  ◌≡◌, refl, ap, ap₂, inl, inr, Bool, true, false, Option, none, some, List, [], ◌∷◌, if◌then◌else◌,
  Bool-cases, Option-cases,
}
use easy_proxy_pool.Prelude.Text.{Text, bytes, trim_space, is_blank, to_lower, text_eq, contains}
use easy_proxy_pool.Config.{SelectionConfig}
use easy_proxy_pool.HttpProxy.Header.{Header, header_get}
use easy_proxy_pool.HttpProxy.Credentials.{parse_basic_auth}
use easy_proxy_pool.HttpProxy.Policy.{
  RequestStickyPolicy, ok, invalid_sticky, invalid_failover, override_failover, override_sticky,
  sticky_policy_from_request, session_key_from_request, session_key_from_auth, header_traceparent,
  header_failover, header_sticky, header_upstream, parse_bool_like, or_true,
  parse_trace_id_from_traceparent,
}

session_key-agrees :
    (h k : Header)
    → header_get h (bytes "Proxy-Authorization") ≡ header_get k (bytes "Proxy-Authorization")
    → header_get h header_traceparent ≡ header_get k header_traceparent
    → session_key_from_auth h ≡ session_key_from_auth k
unfolding session_key_from_auth
session_key-agrees h k auth trace =
    ap₂ combine (ap (λ v. parse_trace_id_from_traceparent v) trace)
      (ap (λ v. parse_basic_auth v) auth)
  where
    combine : Option Text → Option (Text × Text) → Text
    combine trace_id given =
        let traced : Text = elim trace_id [ none ↦ [] | some id ↦ id ] in
        elim given [ none ↦ traced | some (user, pass) ↦ if is_blank user then traced else user ]

-- With overrides switched off, two requests that agree on "Proxy-Authorization" and "traceparent" get
-- the same policy, which is never an error, forces nothing and has the configured failover.
pub policy_no_override :
    (sel : SelectionConfig) (h k : Header)
    → sel.sticky.header_override ≡ some false
    → header_get h (bytes "Proxy-Authorization") ≡ header_get k (bytes "Proxy-Authorization")
    → header_get h header_traceparent ≡ header_get k header_traceparent
    → (sticky_policy_from_request sel h ≡ sticky_policy_from_request sel k)
      × (sticky_policy_from_request sel h
          ≡ ok (record {
            session_key = session_key_from_auth h;
            force_sticky = none;
            failover = sel.sticky.failover;
            force_key = [];
          }))
unfolding sticky_policy_from_request session_key_from_request
policy_no_override sel h k off auth trace =
    (rw (off) (ap ok (ap base (session_key-agrees h k auth trace))), rw (off) refl)
  where
    base : Text → RequestStickyPolicy
    base t = record {
      session_key = t;
      force_sticky = none;
      failover = sel.sticky.failover;
      force_key = [];
    }

abbrev pub failovers : List Text
failovers = bytes "soft" ∷ bytes "hard" ∷ []

override_failover-known :
    (p q : RequestStickyPolicy) (h : Header)
    → contains failovers p.failover ≡ true
    → override_failover p h ≡ ok q
    → contains failovers q.failover ≡ true
unfolding override_failover
override_failover-known p q h v e =
    elim (Bool-cases (text_eq (trim_space (header_get h header_failover)) [])) [
      | inl none_given ↦ keeps (unwrap p (rw (none_given, override_failover) at e))
      | inr given ↦
          elim (Bool-cases
            (contains failovers (to_lower (trim_space (header_get h header_failover))))) [
              | inl known ↦ changed known (
                  unwrap
                    (record p { failover = to_lower (trim_space (header_get h header_failover)) })
                    (rw (given, known, override_failover) at e))
              | inr unknown ↦ absurd (nothing (rw (given, unknown, override_failover) at e))
            ]
    ]
  where
    unwrap : (r : RequestStickyPolicy) → ok r ≡ ok q → r ≡ q
    unwrap r g = cc

    nothing : invalid_failover ≡ ok q → ⊥
    nothing g = cc

    keeps : p ≡ q → contains failovers q.failover ≡ true
    keeps g = rw (← g) v

    changed :
        contains failovers (to_lower (trim_space (header_get h header_failover))) ≡ true
        → record p { failover = to_lower (trim_space (header_get h header_failover)) } ≡ q
        → contains failovers q.failover ≡ true
    changed known g = rw (← g) known

override_sticky-known :
    (p q : RequestStickyPolicy) (h : Header)
    → contains failovers p.failover ≡ true
    → override_sticky p h ≡ ok q
    → contains failovers q.failover ≡ true
unfolding override_sticky
override_sticky-known p q h v e =
    elim (Bool-cases (text_eq (trim_space (header_get h header_sticky)) [])) [
      | inl none_given ↦ override_failover-known p q h v (rw (none_given, override_sticky) at e)
      | inr given ↦
          elim (Option-cases (parse_bool_like (trim_space (header_get h header_sticky)))) [
            | inl bad ↦ absurd (nothing (rw (given, bad, override_sticky) at e))
            | inr (b, good) ↦
                override_failover-known (record p { force_sticky = some b }) q h v
                  (rw (given, good, override_sticky) at e)
          ]
    ]
  where
    nothing : invalid_sticky ≡ ok q → ⊥
    nothing g = cc

-- A policy that is not an error has a failover of "soft" or "hard", if the configured one is.
pub policy-failover :
    (sel : SelectionConfig) (h : Header) (q : RequestStickyPolicy)
    → contains failovers sel.sticky.failover ≡ true
    → sticky_policy_from_request sel h ≡ ok q
    → contains failovers q.failover ≡ true
unfolding sticky_policy_from_request
policy-failover sel h q v e = by_case (or_true sel.sticky.header_override) e
  where
    start : Bool → RequestStickyPolicy
    start b = record {
      session_key = session_key_from_request b h;
      force_sticky = none;
      failover = sel.sticky.failover;
      force_key = [];
    }

    unwrap : (r : RequestStickyPolicy) → ok r ≡ ok q → r ≡ q
    unwrap r g = cc

    by_start : start false ≡ q → contains failovers q.failover ≡ true
    by_start g = rw (← g) v

    by_case :
        (b : Bool)
        → (if b
            then override_sticky
                (record (start b) { force_key = trim_space (header_get h header_upstream) })
                h
            else ok (start b))
          ≡ ok q
        → contains failovers q.failover ≡ true
    by_case true g =
        override_sticky-known
          (record (start true) { force_key = trim_space (header_get h header_upstream) }) q h v g
    by_case false g = by_start (unwrap (start false) g)
