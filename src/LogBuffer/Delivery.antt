-- ===== src/LogBuffer/Delivery.antt =====
-- The loop of `Append` of logbuffer.go over the subscribers.
use easy_proxy_pool.Prelude.{
  ℕ, ◌++◌, ◌≡◌, refl, sym, ap, ◌∙◌, inl, inr, Bool, true, false, ◌&&◌, some, List, [], ◌∷◌,
  if◌then◌else◌, ltb, ◌==◌, arith, length, Bool-cases, subst,
}
use easy_proxy_pool.LogBuffer.{
  LogEvent, Channel, LogBuffer, set_channel, close, remove, contains, deliver_one, deliver, store,
}

abbrev has_room : Channel → Bool
has_room ch = ltb (length ch.queue) ch.room

-- What an event makes of an open channel.
abbrev delivered : LogEvent → Channel → Channel
delivered e ch =
    if has_room ch then record ch { queue = ch.queue ++ (e ∷ []) } else record ch { closed = true }

pub contains-remove :
    (k : ℕ) (js : List ℕ) (j : ℕ)
    → contains (remove k js) j ≡ (if j == k then false else contains js j)
unfolding contains
contains-remove k [] j = ground arith
contains-remove k (i ∷ js) j = ground (arith, contains-remove k js j)

-- No number stands twice.
abbrev pub Distinct : List ℕ → Type 0
Distinct [] = Unit {0}
Distinct (k ∷ ks) = (contains ks k ≡ false) × Distinct ks

pub remove-Distinct : (k : ℕ) (js : List ℕ) → Distinct js → Distinct (remove k js)
remove-Distinct k [] d = tt
remove-Distinct k (j ∷ js) d = ground (arith, remove-Distinct k js d.1, contains-remove k js j)

-- The buffer after one round over an open channel.
abbrev round : LogEvent → ℕ → LogBuffer → LogBuffer
round e k b = record b {
  subs = if has_room (b.channels k) then b.subs else remove k b.subs;
  channels = set_channel b.channels k (delivered e (b.channels k));
}

deliver_one-round :
    (e : LogEvent) (k : ℕ) (b : LogBuffer)
    → (b.channels k).closed ≡ false
    → deliver_one e k b ≡ some (round e k b)
unfolding deliver_one close
deliver_one-round e k b h = ground arith

-- What the loop over the distinct numbers `ks` does.
pub record Delivered (e : LogEvent) (ks : List ℕ) (b b' : LogBuffer) : Type 0 where
  pub channel :
      (j : ℕ) → b'.channels j ≡ (if contains ks j then delivered e (b.channels j) else b.channels j)
  pub member :
      (j : ℕ)
      → contains b'.subs j ≡ (
          if contains ks j then contains b.subs j && has_room (b.channels j) else contains b.subs j)
  pub distinct : Distinct b.subs → Distinct b'.subs
  pub capacity : b'.capacity ≡ b.capacity
  pub start : b'.start ≡ b.start
  pub size : b'.size ≡ b.size
  pub events : b'.events ≡ b.events
  pub next_id : b'.next_id ≡ b.next_id
  pub next_sub_id : b'.next_sub_id ≡ b.next_sub_id

pub contains-cons :
    (k : ℕ) (ks : List ℕ) (j : ℕ) → contains (k ∷ ks) j ≡ (if k == j then true else contains ks j)
unfolding contains
contains-cons k ks j = refl

contains_self : (k : ℕ) (ks : List ℕ) → contains (k ∷ ks) k ≡ true
contains_self k ks = ground (arith, contains-cons k ks k)

contains-later : (k : ℕ) (ks : List ℕ) (j : ℕ) → contains ks j ≡ true → contains (k ∷ ks) j ≡ true
contains-later k ks j h = ground (arith, contains-cons k ks j)

round-member :
    (e : LogEvent) (k : ℕ) (b : LogBuffer) (j : ℕ)
    → contains (round e k b).subs j
      ≡ (if k == j then contains b.subs j && has_room (b.channels k) else contains b.subs j)
round-member e k b j = elim (Bool-cases (has_room (b.channels k))) [
  | inl room ↦ rw room (ground arith)
  | inr full ↦ rw full (ground (arith, contains-remove k b.subs j))
]

round-opened :
    (e : LogEvent) (k : ℕ) (ks : List ℕ) (b : LogBuffer)
    → contains ks k ≡ false
    → ((j : ℕ) → contains (k ∷ ks) j ≡ true → (b.channels j).closed ≡ false)
    → (j : ℕ) → contains ks j ≡ true
    → ((round e k b).channels j).closed ≡ false
round-opened e k ks b new o j h = elim (Bool-cases (j == k)) [
  | inl same ↦ let e : j ≡ k = ground arith in absurd (cc (sym (ap (contains ks) e) ∙ h, new))
  | inr other ↦ rw other (o j (contains-later k ks j h))
]

round-Distinct :
    (e : LogEvent) (k : ℕ) (b : LogBuffer) → Distinct b.subs → Distinct (round e k b).subs
round-Distinct e k b d = elim (Bool-cases (has_room (b.channels k))) [
  | inl room ↦ rw room d
  | inr full ↦ rw full (remove-Distinct k b.subs d)
]

Delivered-cons :
    (e : LogEvent) (k : ℕ) (ks : List ℕ) (b b' : LogBuffer)
    → contains ks k ≡ false
    → Delivered e ks (round e k b) b'
    → Delivered e (k ∷ ks) b b'
Delivered-cons e k ks b b' new d = record {
  channel = λ j. elim (Bool-cases (j == k)) [
    | inl same ↦
        subst
          (λ i.
            b'.channels i
            ≡ (if contains (k ∷ ks) i then delivered e (b.channels i) else b.channels i))
          (key j same) (ground (arith, d.channel k, new, contains_self k ks))
    | inr other ↦ ground (arith, d.channel j, contains-cons k ks j)
  ];
  member = λ j. elim (Bool-cases (j == k)) [
    | inl same ↦
        subst
          (λ i. contains b'.subs i ≡ (
            if contains (k ∷ ks) i
            then contains b.subs i && has_room (b.channels i)
            else contains b.subs i))
          (key j same) (ground (arith, d.member k, new, contains_self k ks, round-member e k b k))
    | inr other ↦ ground (arith, d.member j, contains-cons k ks j, round-member e k b j)
  ];
  distinct = λ (h : Distinct b.subs). d.distinct (round-Distinct e k b h);
  capacity = d.capacity;
  start = d.start;
  size = d.size;
  events = d.events;
  next_id = d.next_id;
  next_sub_id = d.next_sub_id;
}
  where
    key : (j : ℕ) → (j == k) ≡ true → k ≡ j
    key j same = ground arith

pub deliver-Delivered :
    (e : LogEvent) (ks : List ℕ) (b : LogBuffer)
    → Distinct ks
    → ((k : ℕ) → contains ks k ≡ true → (b.channels k).closed ≡ false)
    → (b' : LogBuffer) × (deliver e ks b ≡ some b') × Delivered e ks b b'
unfolding deliver
deliver-Delivered e [] b d o = (
  b,
  refl,
  record {
    channel = λ j. unfold contains in refl;
    member = λ j. unfold contains in refl;
    distinct = λ d. d;
    capacity = refl;
    start = refl;
    size = refl;
    events = refl;
    next_id = refl;
    next_sub_id = refl;
  },
)
deliver-Delivered e (k ∷ ks) b d o =
    let (b', done, spec) = deliver-Delivered e ks (round e k b) d.1 (round-opened e k ks b d.0 o) in
    (
      b',
      rw (deliver_one-round e k b (o k (contains_self k ks)), deliver) done,
      Delivered-cons e k ks b b' d.0 spec,
    )

-- `store` leaves the subscribers alone.
pub store-subscribers :
    (e : LogEvent) (b : LogBuffer)
    → ((store e b).subs ≡ b.subs)
      × ((store e b).channels ≡ b.channels)
      × ((store e b).next_sub_id ≡ b.next_sub_id)
      × ((store e b).next_id ≡ b.next_id)
      × ((store e b).capacity ≡ b.capacity)
unfolding store
store-subscribers e b = ground arith
