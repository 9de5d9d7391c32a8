-- ===== src/Tests/Logs.antt =====
-- The theorems on internal/logging/logbuffer.go at concrete buffers.
use easy_proxy_pool.Prelude.{ℕ, ◌-◌, ◌≡◌, ◌≢◌, refl, false, some, List, [], ◌∷◌, arith, filter}
use easy_proxy_pool.Prelude.Text.{Text, bytes}
use easy_proxy_pool.LogBuffer.{
  LogEvent, zero_event, LogBuffer, new_log_buffer, numbered, append, passes, snapshot_since,
  contains, cancel,
}
use easy_proxy_pool.LogBuffer.Ring.{IsRing, contents, last}
use easy_proxy_pool.LogBuffer.Snapshot.{snapshot_since-contents}
use easy_proxy_pool.LogBuffer.Delivery.{Delivered}
use easy_proxy_pool.LogBuffer.Subscribers.{IsLive, stored, append-Delivered, cancel_lem}
use easy_proxy_pool.LogBuffer.Numbering.{numbered_from}
use easy_proxy_pool.LogBuffer.History.{
  Call, appends, subscribes, cancels, run, appended, run-contents,
}

abbrev event : Text → LogEvent
event message = record zero_event { message = message }

-- A full buffer of two events, with two readers: one has room and one has not.
abbrev full : LogBuffer
full = record {
  capacity = 2;
  start = 1;
  size = 2;
  events = event (bytes "b") ∷ event (bytes "a") ∷ [];
  next_id = 2;
  subs = 1 ∷ 2 ∷ [];
  channels = λ k. record { room = k - 1; queue = []; closed = false };
  next_sub_id = 2;
}

full-IsRing : IsRing full
full-IsRing = record { allocated = refl; bounded = ground arith; started = ground arith }

full-IsLive : IsLive full
unfolding contains
full-IsLive = record {
  distinct = (refl, (refl, tt));
  opened = λ k m. refl;
  given = λ k m. ground (arith, m);
}

snapshot_since-contents_example :
    snapshot_since full 0 0 ≡ filter (passes 0 0) (event (bytes "a") ∷ event (bytes "b") ∷ [])
snapshot_since-contents_example = snapshot_since-contents full 0 0 full-IsRing

append-Delivered_example :
    (b : LogBuffer) × (append full (event (bytes "c"))
      ≡ some (numbered full (event (bytes "c")), b))
    × Delivered (numbered full (event (bytes "c"))) (1 ∷ 2 ∷ []) (stored full (event (bytes "c"))) b
append-Delivered_example = append-Delivered full (event (bytes "c")) full-IsLive

cancel_lem_example :
    (b : LogBuffer) × (cancel full 2 ≡ some b)
    × IsLive b
    × (contains b.subs 2 ≡ false)
    × ((j : ℕ) → j ≢ 2 → contains b.subs j ≡ contains (1 ∷ 2 ∷ []) j)
    × ((j : ℕ) → j ≢ 2 → b.channels j ≡ full.channels j)
cancel_lem_example = cancel_lem full 2 full-IsLive

abbrev calls : List Call
calls = subscribes 1 ∷ appends (event (bytes "a")) ∷ appends (event (bytes "b")) ∷ cancels 1 ∷ []

run-contents_example :
    (b : LogBuffer) × (run (new_log_buffer 1) calls ≡ some b)
    × (contents b ≡ last (new_log_buffer 1).capacity (numbered_from 1 (appended calls)))
    × IsRing b
    × IsLive b
run-contents_example = run-contents 1 calls (ground arith)
