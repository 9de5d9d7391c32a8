-- ===== src/Pool.antt =====
-- internal/pool/pool.go: the pool of upstream proxies that the two proxy servers share. Each method
-- holds the pool's lock for its whole body, so it is one step from pool to pool. The logger and the
-- pool's name are left out; `time.Now()` is an argument.
pub mod Index
pub mod Next
pub mod Backoff
pub mod Availability
use easy_proxy_pool.Prelude.{
  ℕ, zero, suc, ◌+◌, ◌-◌, ◌%◌, ◌++◌, Bool, true, false, ◌&&◌, ◌||◌, not, Option, none, some, List,
  [], ◌∷◌, if◌then◌else◌, ltb, ◌==◌, length, get_elem?, modify, filter,
}
use easy_proxy_pool.Prelude.Text.{Text, bytes, is_blank, text_eq}
use easy_proxy_pool.Prelude.Map.{Map, lookup, insert}
use easy_proxy_pool.Prelude.Word.{sign_bit, add64, mul64, leb64, add_duration}

pub record Entry : Type 0 where
  pub id : Text
  pub addr : Text
  pub username : Text
  pub password : Text
  pub latency : ℕ
  pub last_checked_at : ℕ
  pub failures : ℕ
  pub disabled_until : ℕ

unfoldable pub key : Entry → Text
key e =
    if not (is_blank e.id)
    then e.id
    else if not (is_blank e.username)
    then e.addr ++ (bytes "|" ++ e.username)
    else e.addr

pub record Pool : Type 0 where
  pub entries : List Entry
  pub index : Map ℕ
  pub rr : ℕ
  pub updating : ℕ

pub new : Pool
new = record { entries = []; index = []; rr = 0; updating = 0 }

-- CompareAndSwapInt32(&p.updating, 0, 1)
unfoldable pub updating_cas : Pool → Bool × Pool
updating_cas p = if p.updating == 0 then (true, record p { updating = 1 }) else (false, p)

unfoldable pub updating_clear : Pool → Pool
updating_clear p = record p { updating = 0 }

-- The loop of `Update` that fills the index, from position `i` on: a later entry takes the key over.
unfoldable pub index_from : ℕ → Map ℕ → List Entry → Map ℕ
unfolding insert
index_from i m [] = m
index_from i m (e ∷ es) = index_from (i + 1) (insert m (key e) i) es

unfoldable pub update : Pool → List Entry → Pool
unfolding index_from
update p entries = record p { entries = entries; index = index_from 0 [] entries; rr = 0 }

-- The test of `Next`: e.disabledUntil.IsZero() || now.After(e.disabledUntil)
unfoldable pub is_ready : ℕ → Entry → Bool
is_ready now e = e.disabled_until == 0 || ltb e.disabled_until now

-- The test of `Get`, `Active` and `Stats`: !e.disabledUntil.IsZero() && now.Before(e.disabledUntil)
unfoldable pub is_disabled : ℕ → Entry → Bool
is_disabled now e = not (e.disabled_until == 0) && ltb now e.disabled_until

-- Both loops of `Next`, with `rounds` rounds left of which the next has number `i` and looks at
-- position `at i`. The positions are in range, so that the read does not fail.
unfoldable pub scan : List Entry → ℕ → (ℕ → ℕ) → ℕ → ℕ → Option Entry
unfolding is_ready
scan es now at zero i = none
scan es now at (suc rounds) i =
    let rest = scan es now at rounds (i + 1) in
    elim (get_elem? es (at i)) [ none ↦ none | some e ↦ if is_ready now e then some e else rest ]

-- `draws i` fixes what the pool's generator returns in round `i`: Intn(n) is some number below n, and
-- here it is `draws i % n`.
unfoldable pub next : Pool → Text → ℕ → (ℕ → ℕ) → Option Entry × Pool
unfolding scan text_eq
next p strategy now draws =
    let n = length p.entries in
    let rr = add64 p.rr 1 in
    if n == 0
    then (none, p)
    else if text_eq strategy (bytes "random")
    then (scan p.entries now (λ i. draws i % n) n 0, p)
    else (scan p.entries now (λ i. (rr % n + i) % n) n 0, record p { rr = rr })

-- An index entry without its entry would be a panic; `Index.IsIndexed` rules it out.
unfoldable pub get : Pool → Text → ℕ → Option Entry
unfolding lookup is_disabled
get p key now = elim (lookup p.index key) [
  | none ↦ none
  | some idx ↦ elim (get_elem? p.entries idx) [
    | none ↦ none
    | some e ↦ if is_disabled now e then none else some e
  ]
]

unfoldable pub active : Pool → ℕ → List Entry
unfolding is_disabled
active p now = filter (λ e. not (is_disabled now e)) p.entries

enabled : Entry → Entry
enabled e = record e { failures = 0; disabled_until = 0 }

unfoldable pub mark_success : Pool → Text → Pool
unfolding lookup enabled
mark_success p addr = elim (lookup p.index addr) [
  | none ↦ p
  | some idx ↦ record p { entries = modify p.entries idx enabled }
]

-- The rounds of `for i := 1; i < failures; i++`, as int64 numbers.
abbrev pub backoff_rounds : ℕ → ℕ
backoff_rounds failures = if ltb failures sign_bit then failures - 1 else 0

-- The loop of `MarkFailure`: doubles, and stops at the cap.
unfoldable pub grow_backoff : ℕ → ℕ → ℕ → ℕ
grow_backoff zero backoff max_backoff = backoff
grow_backoff (suc rounds) backoff max_backoff =
    let rest = grow_backoff rounds (mul64 backoff 2) max_backoff in
    if leb64 max_backoff (mul64 backoff 2) then max_backoff else rest

unfoldable pub fail : ℕ → ℕ → ℕ → Entry → Entry
unfolding grow_backoff
fail now base_backoff max_backoff e = record e {
  failures = failures;
  disabled_until =
      add_duration now (grow_backoff (backoff_rounds failures) base_backoff max_backoff);
}
  where
    failures : ℕ
    failures = add64 e.failures 1

unfoldable pub mark_failure : Pool → Text → ℕ → ℕ → ℕ → Pool
unfolding lookup fail
mark_failure p addr now base_backoff max_backoff = elim (lookup p.index addr) [
  | none ↦ p
  | some idx ↦ record p { entries = modify p.entries idx (fail now base_backoff max_backoff) }
]

pub record Stats : Type 0 where
  pub total : ℕ
  pub disabled : ℕ
  pub last_checked : ℕ
  pub has_any_active : Bool

pub record Tally : Type 0 where
  pub disabled : ℕ
  pub active : ℕ
  pub last : ℕ

-- One round of the loop of `Stats`.
unfoldable pub tally_entry : ℕ → Tally → Entry → Tally
unfolding is_disabled
tally_entry now t e = record {
  disabled = if is_disabled now e then t.disabled + 1 else t.disabled;
  active = if is_disabled now e then t.active else t.active + 1;
  last = if ltb t.last e.last_checked_at then e.last_checked_at else t.last;
}

unfoldable pub tally : ℕ → Tally → List Entry → Tally
unfolding tally_entry
tally now t [] = t
tally now t (e ∷ es) = tally now (tally_entry now t e) es

unfoldable pub stats : Pool → ℕ → Stats
unfolding tally
stats p now =
    let t = tally now (record { disabled = 0; active = 0; last = 0 }) p.entries in
    record {
      total = length p.entries;
      disabled = t.disabled;
      last_checked = t.last;
      has_any_active = ltb 0 t.active;
    }
