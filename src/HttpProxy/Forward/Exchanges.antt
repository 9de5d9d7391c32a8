-- ===== src/HttpProxy/Forward/Exchanges.antt =====
-- The order of a forwarded request's exchanges.
use easy_proxy_pool.Prelude.{
  ℕ, zero, suc, ◌+◌, ◌≤◌, ◌≡◌, refl, ◌⊎◌, inl, inr, Bool, true, false, ◌&&◌, ◌||◌, if◌then◌else◌,
  map, none, some, List, [], ◌∷◌, arith, ltb, length, Bool-cases, Option-cases,
}
use easy_proxy_pool.Prelude.Text.{Text, contains}
use easy_proxy_pool.Prelude.Word.{ltb64, sign_bit}
use easy_proxy_pool.Config.{SelectionConfig}
use easy_proxy_pool.Pool.{Entry, Pool}
use easy_proxy_pool.HttpProxy.Policy.{
  RequestStickyPolicy, PolicyResult, ok, invalid_sticky, invalid_failover,
  sticky_policy_from_request,
}
use easy_proxy_pool.HttpProxy.Attempts.{
  World, Choice, unknown_upstream, no_proxies, chosen, choose, note_attempt, after_failure, rounds,
}
use easy_proxy_pool.HttpProxy.Header.{canonical_key, hop_by_hop, connection_tokens}
use easy_proxy_pool.HttpProxy.Header.Copy.{IsHeader, values_at, values_at-copy_stripped}
use easy_proxy_pool.HttpProxy.Forward.{
  Client, Request, Response, ForwardReply, bad_request, request_failed, passed_on, Forwarded,
  client_response, forward_attempt, forward_loop, handle_forward, build_forward_request,
  is_retryable_request, outgoing_header,
}

-- A response `t` that has the status and the body of `s`, and under each key of the header the same
-- values, but none under a hop-by-hop key: one on the fixed list, or named in the first line of the
-- "Connection" header.
pub record IsPassedOn (s t : Response) : Type 0 where
  pub status : t.status ≡ s.status
  pub body : t.body ≡ s.body
  pub header :
      (j : Text)
      → values_at t.header j ≡ (
          if contains (map canonical_key hop_by_hop) j
            || contains (map canonical_key (connection_tokens s.header)) j
          then []
          else values_at s.header j)

client_response-IsPassedOn : (s : Response) → IsHeader s.header → IsPassedOn s (client_response s)
unfolding client_response
client_response-IsPassedOn s v = record {
  status = refl;
  body = refl;
  header = λ j. values_at-copy_stripped s.header j v;
}

-- The headers of the responses are those of messages that net/http has read.
abbrev pub HasHeaders : Client → Type 0
HasHeaders client =
    (i : ℕ) (e : Entry) (r : Request) (s : Response) → client i e r ≡ some s → IsHeader s.header

-- From attempt `i` on these entries were tried: all exchanges failed but the last of a response that is
-- passed on, which is that of its entry without the hop-by-hop headers.
pub Exchanges : Client → Request → ℕ → ForwardReply → List Entry → Type 0
Exchanges client r i reply [] = (s : Response) → reply ≡ passed_on s → ⊥
Exchanges client r i reply (e ∷ es) =
    ((s : Response) × (t : Response) × (client i e r ≡ some s)
      × (reply ≡ passed_on t)
      × IsPassedOn s t
      × (es ≡ []))
    ⊎ ((client i e r ≡ none) × Exchanges client r (i + 1) reply es)

-- The run of a loop with `n` rounds left: it tries no more than `n` entries, and no second one if the
-- request is not retryable. A retryable request fails only after all `n`.
pub record IsForward (client : Client) (r : Request) (retryable : Bool) (n i : ℕ) (f : Forwarded)
    : Type 0 where
  pub exchanges : Exchanges client r i f.reply f.tried
  pub at_most : length f.tried ≤ n
  pub once : retryable ≡ false → length f.tried ≤ 1
  pub persistent : f.reply ≡ request_failed → retryable ≡ true → length f.tried ≡ n

attempt-IsForward :
    (w : World) (client : Client) (r : Request) (retryable more : Bool) (n i : ℕ)
    (failed : Entry → Pool) (retry : Entry → Forwarded) (c : Choice) (p : Pool)
    → (more ≡ false → n ≡ 0)
    → HasHeaders client
    → ((e : Entry) → IsForward client r retryable n (i + 1) (retry e))
    → IsForward client r retryable
        (suc n)
        i
        (forward_attempt w client r (retryable && more) i failed retry c p)
unfolding forward_attempt Exchanges
attempt-IsForward w client r retryable more n i failed retry unknown_upstream p last headers rest =
    record {
      exchanges = λ s g. cc;
      at_most = ground arith;
      once = λ g. ground arith;
      persistent = λ g h. absurd (cc);
    }
attempt-IsForward w client r retryable more n i failed retry no_proxies p last headers rest =
    record {
      exchanges = λ s g. cc;
      at_most = ground arith;
      once = λ g. ground arith;
      persistent = λ g h. absurd (cc);
    }
attempt-IsForward w client r retryable more n i failed retry (chosen e) p last headers rest =
    elim (Option-cases (client i e r)) [
      | inr (s, good) ↦
          rw (good, forward_attempt)
            (record {
              exchanges = inl (
                s,
                client_response s,
                good,
                refl,
                client_response-IsPassedOn s (headers i e r s good),
                refl,
              );
              at_most = ground arith;
              once = λ g. ground arith;
              persistent = λ g h. absurd (cc);
            })
      | inl bad ↦ elim (Bool-cases (retryable && more)) [
        | inl again ↦
            rw (bad, again, forward_attempt)
              (record {
                exchanges = inr (bad, (rest e).exchanges);
                at_most = omega (arith, (rest e).at_most);
                once = λ g. absurd (ground arith);
                persistent = λ g h. omega (arith, (rest e).persistent g h);
              })
        | inr ends ↦
            rw (bad, ends, forward_attempt)
              (record {
                exchanges = inr (bad, λ s g. cc);
                at_most = ground arith;
                once = λ g. ground arith;
                persistent = λ g h. ground (arith, last, h, ends);
              })
      ]
    ]

-- In the last round the test for another one fails, and in no earlier one.
last_round :
    (sel : SelectionConfig) (n i : ℕ) → suc n + i ≡ rounds sel → ltb64 i sel.retries ≡ false → n ≡ 0
unfolding rounds
last_round sel n i h t = elim (Bool-cases (ltb sel.retries sign_bit)) [
  | inl small ↦ ground (arith, h, t, small)
  | inr large ↦ absurd (ground (arith, h, large))
]

loop-IsForward :
    (w : World) (client : Client) (sel : SelectionConfig) (policy : RequestStickyPolicy)
    (r : Request) (retryable : Bool) (n i : ℕ) (attempted : List Text) (p : Pool)
    → n + i ≡ rounds sel
    → HasHeaders client
    → IsForward client r retryable n i
        (forward_loop w client sel policy r retryable n i attempted p)
unfolding forward_loop Exchanges
loop-IsForward w client sel policy r retryable zero i attempted p h headers = record {
  exchanges = λ s g. cc;
  at_most = ground arith;
  once = λ g. ground arith;
  persistent = λ g b. refl;
}
loop-IsForward w client sel policy r retryable (suc n) i attempted p h headers =
    let (choice, q) = choose w sel policy i attempted (w.before i p) in
    attempt-IsForward w client r retryable (ltb64 i sel.retries) n i
      (λ e. after_failure sel e (w.now i) (w.during i q))
      (λ e.
        forward_loop w client sel policy r retryable n (i + 1) (note_attempt sel policy e attempted)
          (after_failure sel e (w.now i) (w.during i q)))
      choice q (last_round sel n i h) headers
      (λ e.
        loop-IsForward w client sel policy r retryable n (i + 1)
          (note_attempt sel policy e attempted) (after_failure sel e (w.now i) (w.during i q))
          (omega (arith, h)) headers)

-- A forwarded request goes to one upstream after another, with the header made for it. What is passed
-- on is the response of the last one tried, and all before it failed: its status, its body and under
-- each key of its header its values, but nothing under a hop-by-hop key, which is one on the fixed list or
-- named in the first line of its "Connection" header (the keys of its header being canonical and
-- distinct). It tries at most the retries and one upstreams, and at most one if it is not retryable; a
-- retryable one is reported as failed only after all of them.
pub handle_forward-IsForward :
    (w : World) (client : Client) (sel : SelectionConfig) (r out : Request) (p : Pool)
    → HasHeaders client
    → build_forward_request r ≡ some out
    → let sent = record out { header = outgoing_header out.header } in
      IsForward client sent
        (is_retryable_request sent sel.retry_non_idempotent)
        (rounds sel)
        0
        (handle_forward w client sel r p)
unfolding handle_forward Exchanges
handle_forward-IsForward w client sel r out p headers e =
    rw (e, handle_forward) (by_policy (sticky_policy_from_request sel r.header))
  where
    sent : Request
    sent = record out { header = outgoing_header out.header }

    retryable : Bool
    retryable = is_retryable_request sent sel.retry_non_idempotent

    refused :
        IsForward client sent retryable
          (rounds sel)
          0
          (record { reply = bad_request; tried = []; pool = p })
    refused = record {
      exchanges = λ s g. cc;
      at_most = ground arith;
      once = λ g. ground arith;
      persistent = λ g h. absurd (cc);
    }

    by_policy :
        (o : PolicyResult)
        → IsForward client sent retryable (rounds sel) 0 (elim o [
          | invalid_sticky ↦ record { reply = bad_request; tried = []; pool = p }
          | invalid_failover ↦ record { reply = bad_request; tried = []; pool = p }
          | ok policy ↦ forward_loop w client sel policy sent retryable (rounds sel) 0 [] p
        ])
    by_policy invalid_sticky = refused
    by_policy invalid_failover = refused
    by_policy (ok policy) =
        loop-IsForward w client sel policy sent retryable (rounds sel) 0 [] p (omega arith) headers
