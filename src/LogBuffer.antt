-- ===== src/LogBuffer.antt =====
-- internal/logging/logbuffer.go: the ring of recent log events and its subscribers. Each method holds
-- the buffer's lock, so it is one step. A channel is known by the number of its subscription; it
-- lives on in the store of channels when the buffer has forgotten it, since the reader still holds it.
pub mod Ring
pub mod Store
pub mod Snapshot
pub mod Delivery
pub mod Numbering
pub mod Recorded
pub mod Subscribers
pub mod History
use easy_proxy_pool.Prelude.{
  ℕ, zero, suc, ◌+◌, ◌-◌, ◌%◌, ◌++◌, Bool, true, false, ◌&&◌, Option, none, some, List, [], ◌∷◌,
  if◌then◌else◌, ltb, leb, ◌==◌, length, get_elem?, set, replicate, not, filter,
}
use easy_proxy_pool.Prelude.Text.{Text}
use easy_proxy_pool.Prelude.Map.{Map}
use easy_proxy_pool.Prelude.Word.{sign_bit, add64, ltb64}

-- The level is an int, the time a time.Time.
pub record LogEvent : Type 0 where
  pub id : ℕ
  pub time : ℕ
  pub level : ℕ
  pub message : Text
  pub attrs : Map Text

-- LogEvent{}
abbrev pub zero_event : LogEvent
zero_event = record { id = 0; time = 0; level = 0; message = []; attrs = [] }

-- A Go channel of events with a buffer.
pub record Channel : Type 0 where
  pub room : ℕ
  pub queue : List LogEvent
  pub closed : Bool

-- `channels k` is the channel of subscription `k`; `subs` are the keys of the map of that name.
pub record LogBuffer : Type 0 where
  pub capacity : ℕ
  pub start : ℕ
  pub size : ℕ
  pub events : List LogEvent
  pub next_id : ℕ
  pub subs : List ℕ
  pub channels : ℕ → Channel
  pub next_sub_id : ℕ

no_channel : Channel
no_channel = record { room = 0; queue = []; closed = true }

-- NewLogBuffer; `lines` is an int.
pub new_log_buffer : ℕ → LogBuffer
unfolding no_channel
new_log_buffer lines = record {
  capacity = capacity;
  start = 0;
  size = 0;
  events = replicate capacity zero_event;
  next_id = 0;
  subs = [];
  channels = λ _. no_channel;
  next_sub_id = 0;
}
  where
    capacity : ℕ
    capacity = if ltb 0 lines && ltb lines sign_bit then lines else 0

abbrev pub set_channel : (ℕ → Channel) → ℕ → Channel → ℕ → Channel
set_channel channels k c j = if j == k then c else channels j

-- close(ch); closing a closed channel panics, and that is `none`.
unfoldable pub close : Channel → Option Channel
close c = if c.closed then none else some (record c { closed = true })

abbrev pub remove : ℕ → List ℕ → List ℕ
remove k = filter (λ j. not (j == k))

-- One round of the loop over the subscribers in `Append`: send without waiting, or else close and
-- forget. Sending to a closed channel panics.
unfoldable pub deliver_one : LogEvent → ℕ → LogBuffer → Option LogBuffer
unfolding close
deliver_one e k b =
    let ch = b.channels k in
    if ch.closed
    then none
    else if ltb (length ch.queue) ch.room
    then some (record b {
      channels = set_channel b.channels k (record ch { queue = ch.queue ++ (e ∷ []) });
    })
    else elim (close ch) [
      | none ↦ none
      | some ch' ↦
          some (record b { subs = remove k b.subs; channels = set_channel b.channels k ch' })
    ]

-- The loop, over the keys that `subs` had when it began.
unfoldable pub deliver : LogEvent → List ℕ → LogBuffer → Option LogBuffer
unfolding deliver_one
deliver e [] b = some b
deliver e (k ∷ ks) b = elim (deliver_one e k b) [ none ↦ none | some b' ↦ deliver e ks b' ]

-- The part of `Append` that stores the event; `start + size` is below twice the capacity.
unfoldable pub store : LogEvent → LogBuffer → LogBuffer
store e b =
    if ltb 0 b.capacity
    then (if ltb b.size b.capacity
        then record b {
          size = b.size + 1;
          events = set b.events ((b.start + b.size) % b.capacity) e;
        }
        else record b {
          start = (b.start + 1) % b.capacity;
          events = set b.events ((b.start + b.size) % b.capacity) e;
        })
    else b

-- The event with its number.
unfoldable pub numbered : LogBuffer → LogEvent → LogEvent
numbered b e = record e { id = add64 b.next_id 1 }

-- Append; `none` is a panic.
unfoldable pub append : LogBuffer → LogEvent → Option (LogEvent × LogBuffer)
unfolding numbered store deliver
append b e =
    let e' = numbered b e in
    let b' = store e' (record b { next_id = e'.id }) in
    elim (deliver e' b'.subs b') [ none ↦ none | some b'' ↦ some (e', b'') ]

-- The test of `SnapshotSince`.
abbrev pub passes : ℕ → ℕ → LogEvent → Bool
passes since min_level e = if leb e.id since then false else not (ltb64 e.level min_level)

-- The loop of `SnapshotSince`, with the rounds left and the number of the next. The index is in range,
-- so that the read does not fail.
unfoldable pub collect : LogBuffer → (LogEvent → Bool) → ℕ → ℕ → List LogEvent
collect b keep zero i = []
collect b keep (suc rounds) i =
    let rest = collect b keep rounds (i + 1) in
    elim (get_elem? b.events ((b.start + i) % b.capacity)) [
      | none ↦ rest
      | some e ↦ if keep e then e ∷ rest else rest
    ]

unfoldable pub snapshot_since : LogBuffer → ℕ → ℕ → List LogEvent
unfolding collect
snapshot_since b since min_level =
    if b.capacity == 0
    then []
    else if b.size == 0
    then []
    else collect b (passes since min_level) b.size 0

-- Subscribe: the number of the new channel, and the buffer. `buffer` is an int, and
-- a channel of that size can be made (Go panics on one too large for the memory).
unfoldable pub subscribe : LogBuffer → ℕ → ℕ × LogBuffer
subscribe b buffer =
    let id = add64 b.next_sub_id 1 in
    let room = if ltb 0 buffer && ltb buffer sign_bit then buffer else 256 in
    (
      id,
      record b {
        next_sub_id = id;
        subs = id ∷ remove id b.subs;
        channels = set_channel b.channels id (record { room = room; queue = []; closed = false });
      },
    )

unfoldable pub contains : List ℕ → ℕ → Bool
contains [] k = false
contains (j ∷ js) k = if j == k then true else contains js k

-- The function that `Subscribe` returns to end subscription `k`; `none` is a panic.
unfoldable pub cancel : LogBuffer → ℕ → Option LogBuffer
unfolding contains close
cancel b k =
    if contains b.subs k
    then elim (close (b.channels k)) [
      | none ↦ none
      | some ch ↦ some (record b { subs = remove k b.subs; channels = set_channel b.channels k ch })
    ]
    else some b
