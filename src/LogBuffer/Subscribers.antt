-- ===== src/LogBuffer/Subscribers.antt =====
-- The subscribers of logbuffer.go and their channels.
use easy_proxy_pool.Prelude.{
  ℕ, ◌+◌, ◌≤◌, ◌<◌, ◌≡◌, ◌≢◌, refl, sym, ap, ◌∙◌, inl, inr, true, false, Option, some, arith,
  Bool-cases, subst,
}
use easy_proxy_pool.Prelude.Word.{add64, word_mod}
use easy_proxy_pool.LogBuffer.{
  LogEvent, Channel, LogBuffer, set_channel, close, remove, contains, deliver, store, numbered,
  append, subscribe, cancel,
}
use easy_proxy_pool.LogBuffer.Delivery.{
  contains-remove, Distinct, remove-Distinct, Delivered, contains-cons, deliver-Delivered,
  store-subscribers,
}

-- The buffer that the loop over the subscribers starts from.
abbrev pub stored : LogBuffer → LogEvent → LogBuffer
stored b e = store (numbered b e) (record b { next_id = (numbered b e).id })

-- Each subscription of the map stands in it once, has an open channel, and a number that was given
-- out.
pub record IsLive (b : LogBuffer) : Type 0 where
  pub distinct : Distinct b.subs
  pub opened : (k : ℕ) → contains b.subs k ≡ true → (b.channels k).closed ≡ false
  pub given : (k : ℕ) → contains b.subs k ≡ true → k ≤ b.next_sub_id

-- `Append` never panics on a buffer whose subscribers' channels are open: it stores the event, and
-- delivers it to every channel that has room; the other channels are closed, and their subscriptions
-- end. No other channel changes.
pub append-Delivered :
    (b : LogBuffer) (e : LogEvent)
    → IsLive b
    → (b' : LogBuffer) × (append b e ≡ some (numbered b e, b'))
      × Delivered (numbered b e) b.subs (stored b e) b'
unfolding append
append-Delivered b e v =
    let (b', done, spec) =
      deliver-Delivered (numbered b e) b.subs (stored b e) v.distinct open_channels in
    let all : deliver (numbered b e) (stored b e).subs (stored b e) ≡ some b' =
      ap (λ ks. deliver (numbered b e) ks (stored b e)) kept.0 ∙ done in
    (b', rw (all, append), spec)
  where
    kept :
        ((stored b e).subs ≡ b.subs)
        × ((stored b e).channels ≡ b.channels)
        × ((stored b e).next_sub_id ≡ b.next_sub_id)
        × ((stored b e).next_id ≡ (numbered b e).id)
        × ((stored b e).capacity ≡ b.capacity)
    kept = store-subscribers (numbered b e) (record b { next_id = (numbered b e).id })

    open_channels : (k : ℕ) → contains b.subs k ≡ true → ((stored b e).channels k).closed ≡ false
    open_channels k h = ap (λ (cs : ℕ → Channel). (cs k).closed) kept.1 ∙ v.opened k h

pub append-IsLive :
    (b : LogBuffer) (e e' : LogEvent) (b' : LogBuffer)
    → IsLive b
    → append b e ≡ some (e', b')
    → IsLive b'
append-IsLive b e e' b' v h =
    let (c, done, spec) = append-Delivered b e v in
    let kept = store-subscribers (numbered b e) (record b { next_id = (numbered b e).id }) in
    subst IsLive (unwrap (sym done ∙ h)) (record {
      distinct = spec.distinct (subst Distinct (sym kept.0) v.distinct);
      opened = λ k m. ground (
        arith,
        spec.channel k,
        spec.member k,
        v.opened k,
        kept,
        ap (λ (cs : ℕ → Channel). cs k) kept.1,
        ap (λ ks. contains ks k) kept.0,
      );
      given = λ k m. ground (
        arith,
        spec.next_sub_id,
        spec.member k,
        v.given k,
        kept,
        ap (λ ks. contains ks k) kept.0,
      );
    })
  where
    unwrap :
        {c : LogBuffer} {x : LogEvent}
        → ◌≡◌ {A = Option (LogEvent × LogBuffer)} (some (x, c)) (some (e', b'))
        → c ≡ b'
    unwrap q = cc

-- A new subscription gets a number that no other has, unless the counter wraps.
pub subscribe-IsLive :
    (b : LogBuffer) (buffer : ℕ)
    → b.next_sub_id + 1 < word_mod
    → IsLive b
    → IsLive (subscribe b buffer).1
unfolding subscribe
subscribe-IsLive b buffer w v = record {
  distinct = (ground (arith, contains-remove id b.subs id), remove-Distinct id b.subs v.distinct);
  opened = λ k m.
      ground
        (arith, contains-cons id (remove id b.subs) k, contains-remove id b.subs k, v.opened k);
  given = λ k m.
      ground (arith, contains-cons id (remove id b.subs) k, contains-remove id b.subs k, v.given k);
}
  where
    id : ℕ
    id = add64 b.next_sub_id 1

-- Cancelling a subscription never panics, also a second time or after `Append` ended it. It removes
-- the subscription if it is there, and keeps every other.
pub cancel_lem :
    (b : LogBuffer) (k : ℕ)
    → IsLive b
    → (b' : LogBuffer) × (cancel b k ≡ some b')
      × IsLive b'
      × (contains b'.subs k ≡ false)
      × ((j : ℕ) → j ≢ k → contains b'.subs j ≡ contains b.subs j)
      × ((j : ℕ) → j ≢ k → b'.channels j ≡ b.channels j)
unfolding cancel close
cancel_lem b k v = elim (Bool-cases (contains b.subs k)) [
  | inl there ↦ (
    ended,
    rw (there, cancel) (ground (arith, v.opened k there)),
    ended-IsLive there,
    ground (arith, contains-remove k b.subs k),
    (λ j ne. ground (arith, contains-remove k b.subs j)),
    (λ j ne. ground arith),
  )
  | inr gone ↦ (b, rw (gone, cancel), v, gone, (λ j ne. refl), (λ j ne. refl))
]
  where
    ended : LogBuffer
    ended = record b {
      subs = remove k b.subs;
      channels = set_channel b.channels k (record (b.channels k) { closed = true });
    }

    ended-IsLive : contains b.subs k ≡ true → IsLive ended
    ended-IsLive there = record {
      distinct = remove-Distinct k b.subs v.distinct;
      opened = λ j m. ground (arith, contains-remove k b.subs j, v.opened j);
      given = λ j m. ground (arith, contains-remove k b.subs j, v.given j);
    }
