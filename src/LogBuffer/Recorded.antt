-- ===== src/LogBuffer/Recorded.antt =====
-- What each call on a buffer of logbuffer.go keeps of its history.
use easy_proxy_pool.Prelude.{
  ℕ, zero, suc, ◌+◌, ◌≤◌, ◌<◌, ◌++◌, ◌≡◌, refl, sym, ap, ◌∙◌, subst, ◌⊎◌, inl, inr, true, some,
  List, [], ◌∷◌, arith, length, replicate, length-append,
}
use easy_proxy_pool.Prelude.Word.{add64, word_mod}
use easy_proxy_pool.LogBuffer.{
  LogEvent, LogBuffer, new_log_buffer, zero_event, numbered, append, subscribe, cancel, contains,
}
use easy_proxy_pool.LogBuffer.Ring.{IsRing, contents, last, store-IsRing}
use easy_proxy_pool.LogBuffer.Store.{contents-store}
use easy_proxy_pool.LogBuffer.Delivery.{Delivered, store-subscribers}
use easy_proxy_pool.LogBuffer.Subscribers.{IsLive, stored, append-IsLive, subscribe-IsLive}
use easy_proxy_pool.LogBuffer.Numbering.{numbered_from, numbered_from-append, drop-nil, last-push}

-- What holds after `calls` calls that appended `es`.
pub record Recorded (calls : ℕ) (es : List LogEvent) (b : LogBuffer) : Type 0 where
  pub ring : IsRing b
  pub live : IsLive b
  pub held : contents b ≡ last b.capacity (numbered_from 1 es)
  pub count : b.next_id ≡ length es
  pub few_events : length es ≤ calls
  pub few_subs : b.next_sub_id ≤ calls

same_contents :
    (b c : LogBuffer)
    → b.start ≡ c.start
    → b.size ≡ c.size
    → b.events ≡ c.events
    → contents b ≡ contents c
same_contents b c p q r = cc

same-IsRing :
    (b c : LogBuffer)
    → b.capacity ≡ c.capacity
    → b.start ≡ c.start
    → b.size ≡ c.size
    → b.events ≡ c.events
    → IsRing c
    → IsRing b
same-IsRing b c o p q r v = record {
  allocated = ground (arith, v.allocated);
  bounded = ground (arith, v.bounded);
  started = ground (arith, v.started);
}

pub append-Recorded :
    (calls : ℕ) (es : List LogEvent) (b b' : LogBuffer) (e : LogEvent)
    → calls + 1 < word_mod
    → Recorded calls es b
    → append b e ≡ some (numbered b e, b')
    → Delivered (numbered b e) b.subs (stored b e) b'
    → Recorded (calls + 1) (es ++ (e ∷ [])) b'
unfolding numbered
append-Recorded calls es b b' e w r done d = record {
  ring = same-IsRing b' (stored b e) d.capacity d.start d.size d.events (store-IsRing _ _ before);
  live = append-IsLive b e _ b' r.live done;
  held =
      same_contents b' (stored b e) d.start d.size d.events
      ∙ (contents-store (numbered b e) (record b { next_id = (numbered b e).id }) before ∙ pushed);
  count = d.next_id ∙ (kept.3 ∙ (number ∙ sym total));
  few_events = omega (arith, total, r.few_events);
  few_subs = omega (arith, d.next_sub_id, kept.2, r.few_subs);
}
  where
    before : IsRing (record b { next_id = (numbered b e).id })
    before = record {
      allocated = r.ring.allocated;
      bounded = r.ring.bounded;
      started = r.ring.started;
    }

    kept :
        ((stored b e).subs ≡ b.subs)
        × ((stored b e).channels ≡ b.channels)
        × ((stored b e).next_sub_id ≡ b.next_sub_id)
        × ((stored b e).next_id ≡ (numbered b e).id)
        × ((stored b e).capacity ≡ b.capacity)
    kept = store-subscribers (numbered b e) (record b { next_id = (numbered b e).id })

    total : length (es ++ (e ∷ [])) ≡ 1 + length es
    total = omega (arith, length-append es (e ∷ []))

    number : (numbered b e).id ≡ 1 + length es
    number = omega (arith, r.count, r.few_events)

    named : numbered b e ≡ record e { id = 1 + length es }
    named = ap (λ n. record e { id = n }) number'
      where
        number' : add64 b.next_id 1 ≡ 1 + length es
        number' = omega (arith, r.count, r.few_events)

    pushed :
        last b.capacity (contents b ++ (numbered b e ∷ []))
        ≡ last b'.capacity (numbered_from 1 (es ++ (e ∷ [])))
    pushed =
        ap (λ zs. last b.capacity (zs ++ (numbered b e ∷ []))) r.held
        ∙ (last-push b.capacity (numbered_from 1 es) (numbered b e)
            ∙ (ap (λ x. last b.capacity (numbered_from 1 es ++ (x ∷ []))) named
                ∙ (ap (last b.capacity) (sym (numbered_from-append 1 es e))
                    ∙ ap (λ n. last n (numbered_from 1 (es ++ (e ∷ []))))
                        (sym (d.capacity ∙ kept.4)))))

pub subscribe-Recorded :
    (calls : ℕ) (es : List LogEvent) (b : LogBuffer) (buffer : ℕ)
    → calls + 1 < word_mod
    → Recorded calls es b
    → Recorded (calls + 1) es (subscribe b buffer).1
subscribe-Recorded calls es b buffer w r = record {
  ring = unfold subscribe in same-IsRing _ b refl refl refl refl r.ring;
  live = subscribe-IsLive b buffer (omega (arith, r.few_subs)) r.live;
  held = unfold subscribe in r.held;
  count = unfold subscribe in r.count;
  few_events = omega (arith, r.few_events);
  few_subs = unfold subscribe in omega (arith, r.few_subs);
}

pub cancel-Recorded :
    (calls : ℕ) (es : List LogEvent) (b b' : LogBuffer) (k : ℕ)
    → cancel b k ≡ some b'
    → IsLive b'
    → Recorded calls es b
    → Recorded (calls + 1) es b'
unfolding cancel
cancel-Recorded calls es b b' k done live r = record {
  ring = same-IsRing b' b keeps.0 keeps.1 keeps.2 keeps.3 r.ring;
  live = live;
  held =
      same_contents b' b keeps.1 keeps.2 keeps.3
      ∙ (r.held ∙ ap (λ n. last n (numbered_from 1 es)) (sym keeps.0));
  count = keeps.4 ∙ r.count;
  few_events = omega (arith, r.few_events);
  few_subs = omega (arith, keeps.5, r.few_subs);
}
  where
    keeps :
        (b'.capacity ≡ b.capacity)
        × (b'.start ≡ b.start)
        × (b'.size ≡ b.size)
        × (b'.events ≡ b.events)
        × (b'.next_id ≡ b.next_id)
        × (b'.next_sub_id ≡ b.next_sub_id)
    keeps = ground arith

length-replicate : (n : ℕ) → length (replicate n zero_event) ≡ n
length-replicate zero = refl
length-replicate (suc n) = ap suc (length-replicate n)

pub capacity-cancel : (b b' : LogBuffer) (k : ℕ) → cancel b k ≡ some b' → b'.capacity ≡ b.capacity
unfolding cancel
capacity-cancel b b' k h = ground arith

pub new-Recorded : (lines : ℕ) → Recorded 0 [] (new_log_buffer lines)
unfolding new_log_buffer
new-Recorded lines = record {
  ring = record { allocated = length-replicate _; bounded = omega arith; started = empty _ };
  live = record {
    distinct = tt;
    opened = λ k m. absurd (none_in k m);
    given = λ k m. absurd (none_in k m);
  };
  held = sym (drop-nil _);
  count = refl;
  few_events = omega arith;
  few_subs = omega arith;
}
  where
    empty : (n : ℕ) → (0 < n) ⊎ (n ≡ 0)
    empty zero = inr refl
    empty (suc n) = inl (omega arith)

    none_in : (k : ℕ) → contains [] k ≡ true → ⊥
    none_in k m = unfold contains in cc

pub Recorded-at :
    (calls calls' : ℕ) (es es' : List LogEvent) (b : LogBuffer)
    → calls ≡ calls'
    → es ≡ es'
    → Recorded calls es b
    → Recorded calls' es' b
Recorded-at calls calls' es es' b p q r =
    subst (λ n. Recorded n es' b) p (subst (λ xs. Recorded calls xs b) q r)

pub capacity-append :
    (b b' : LogBuffer) (e : LogEvent)
    → Delivered (numbered b e) b.subs (stored b e) b'
    → b'.capacity ≡ b.capacity
capacity-append b b' e d =
    d.capacity ∙ (store-subscribers (numbered b e) (record b { next_id = (numbered b e).id })).4
