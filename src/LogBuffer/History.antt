-- ===== src/LogBuffer/History.antt =====
-- logbuffer.go over histories of calls of `Append`, `Subscribe` and the function that ends a
-- subscription.
use easy_proxy_pool.Prelude.{
  ℕ, ◌+◌, ◌<◌, ◌++◌, ◌≡◌, refl, sym, ap, ◌∙◌, Option, none, some, List, [], ◌∷◌, arith, length,
  append-nil, append_assoc,
}
use easy_proxy_pool.Prelude.Word.{word_mod}
use easy_proxy_pool.LogBuffer.{LogEvent, LogBuffer, new_log_buffer, append, subscribe, cancel}
use easy_proxy_pool.LogBuffer.Ring.{IsRing, contents, last}
use easy_proxy_pool.LogBuffer.Subscribers.{IsLive, append-Delivered, cancel_lem}
use easy_proxy_pool.LogBuffer.Numbering.{numbered_from}
use easy_proxy_pool.LogBuffer.Recorded.{
  Recorded, append-Recorded, subscribe-Recorded, cancel-Recorded, capacity-cancel, new-Recorded,
  Recorded-at, capacity-append,
}

pub data Call : Type 0 where
  appends : LogEvent → Call
  subscribes cancels : ℕ → Call

unfoldable pub step : LogBuffer → Call → Option LogBuffer
step b (appends e) = elim (append b e) [ none ↦ none | some (e', b') ↦ some b' ]
step b (subscribes buffer) = some (subscribe b buffer).1
step b (cancels k) = cancel b k

-- A panic ends the history.
unfoldable pub run : LogBuffer → List Call → Option LogBuffer
unfolding step
run b [] = some b
run b (c ∷ cs) = elim (step b c) [ none ↦ none | some b' ↦ run b' cs ]

-- The events that a history appends, in order.
abbrev pub appended : List Call → List LogEvent
appended [] = []
appended (appends e ∷ cs) = e ∷ appended cs
appended (subscribes buffer ∷ cs) = appended cs
appended (cancels k ∷ cs) = appended cs

step-Recorded :
    (c : Call) (calls : ℕ) (es : List LogEvent) (b : LogBuffer)
    → calls + 1 < word_mod
    → Recorded calls es b
    → (b' : LogBuffer) × (step b c ≡ some b')
      × Recorded (calls + 1) (es ++ appended (c ∷ [])) b'
      × (b'.capacity ≡ b.capacity)
unfolding step
step-Recorded (appends e) calls es b w r =
    let (b', done, spec) = append-Delivered b e r.live in
    (
      b',
      rw (done, step),
      append-Recorded calls es b b' e w r done spec,
      capacity-append b b' e spec,
    )
step-Recorded (subscribes buffer) calls es b w r = (
  (subscribe b buffer).1,
  refl,
  Recorded-at _ _ _ _ _ refl (sym (append-nil es)) (subscribe-Recorded calls es b buffer w r),
  unfold subscribe in refl,
)
step-Recorded (cancels k) calls es b w r =
    let (b', done, live, _, _, _) = cancel_lem b k r.live in
    (
      b',
      done,
      Recorded-at _ _ _ _ _ refl (sym (append-nil es))
          (cancel-Recorded calls es b b' k done live r),
      capacity-cancel b b' k done,
    )

appended-cons : (c : Call) (cs : List Call) → appended (c ∷ cs) ≡ appended (c ∷ []) ++ appended cs
appended-cons (appends e) cs = refl
appended-cons (subscribes buffer) cs = refl
appended-cons (cancels k) cs = refl

run-Recorded :
    (cs : List Call) (calls : ℕ) (es : List LogEvent) (b : LogBuffer)
    → calls + length cs < word_mod
    → Recorded calls es b
    → (b' : LogBuffer) × (run b cs ≡ some b')
      × Recorded (calls + length cs) (es ++ appended cs) b'
      × (b'.capacity ≡ b.capacity)
unfolding run
run-Recorded [] calls es b w r =
    (b, refl, Recorded-at _ _ _ _ b (omega arith) (sym (append-nil es)) r, refl)
run-Recorded (c ∷ cs) calls es b w r =
    let (b₁, first, r₁, same₁) = step-Recorded c calls es b (omega arith) r in
    let (b₂, rest, r₂, same₂) =
      run-Recorded cs (calls + 1) (es ++ appended (c ∷ [])) b₁ (omega arith) r₁ in
    (
      b₂,
      rw (first, run) rest,
      Recorded-at _ _ _ _ b₂ (omega arith)
          (append_assoc es (appended (c ∷ [])) (appended cs)
            ∙ ap (◌++◌ es) (sym (appended-cons c cs)))
          r₂,
      same₂ ∙ same₁,
    )

-- Any history of fewer than 2^64 calls on a new buffer runs without a panic, and then the buffer holds
-- the last `capacity` events appended, numbered 1, 2, 3 and so on in the order of their calls; every
-- subscription that is left has an open channel.
pub run-contents :
    (lines : ℕ) (cs : List Call)
    → length cs < word_mod
    → (b : LogBuffer) × (run (new_log_buffer lines) cs ≡ some b)
      × (contents b ≡ last (new_log_buffer lines).capacity (numbered_from 1 (appended cs)))
      × IsRing b
      × IsLive b
run-contents lines cs w =
    let (b, done, r, same) =
      run-Recorded cs 0 [] (new_log_buffer lines) (omega arith) (new-Recorded lines) in
    (b, done, r.held ∙ ap (λ n. last n (numbered_from 1 (appended cs))) same, r.ring, r.live)
