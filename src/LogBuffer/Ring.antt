-- ===== src/LogBuffer/Ring.antt =====
-- The ring of logbuffer.go against a plain list: the last `capacity` events, oldest first.
use native.Mathlib.Decide.{dec_lt}
use native.Mathlib.Nat.{mod-eq_of_lt, mod-eq-sub-mod, mod-lt}
use easy_proxy_pool.Prelude.{
  ℕ, ◌+◌, ◌-◌, ◌%◌, ◌≤◌, ◌<◌, ◌≡◌, ap, ◌∙◌, ◌⊎◌, inl, inr, List, arith, length, get_elem?, take,
  drop, length-set, length-take, get_elem?-take,
}
use easy_proxy_pool.Prelude.Rotation.{rotate, get_elem?-rotate, length-rotate}
use easy_proxy_pool.LogBuffer.{LogEvent, LogBuffer, store}

-- The part of the invariant that concerns the ring.
pub record IsRing (b : LogBuffer) : Type 0 where
  pub allocated : length b.events ≡ b.capacity
  pub bounded : b.size ≤ b.capacity
  pub started : (b.start < b.capacity) ⊎ (b.capacity ≡ 0)

-- The stored events, oldest first.
abbrev pub contents : LogBuffer → List LogEvent
contents b = take b.size (rotate b.start b.events)

-- The last `n` members.
abbrev pub last : ℕ → List LogEvent → List LogEvent
last n es = drop (length es - n) es

-- A remainder of a sum that is below twice the divisor.
pub mod-near :
    (s i n : ℕ)
    → s < n
    → i ≤ n
    → ((s + i < n) × ((s + i) % n ≡ s + i)) ⊎ ((n ≤ s + i) × ((s + i) % n ≡ s + i - n))
mod-near s i n h k = elim (dec_lt (s + i) n) [
  | yes p ↦ inl (p, mod-eq_of_lt p)
  | no p ↦
      let low : s + i - n < n = omega arith in
      inr (omega arith, mod-eq-sub-mod {n = s + i} {m = n} (omega arith) ∙ mod-eq_of_lt low)
]

pub get_elem?-contents :
    (b : LogBuffer) (i : ℕ)
    → IsRing b
    → i < b.size
    → get_elem? (contents b) i ≡ get_elem? b.events ((b.start + i) % b.capacity)
get_elem?-contents b i r h =
    get_elem?-take b.size (rotate b.start b.events) i h
    ∙ (get_elem?-rotate b.events b.start i (omega (arith, r.allocated, r.bounded, r.started))
          (omega (arith, r.allocated, r.bounded))
        ∙ ap (λ n. get_elem? b.events ((b.start + i) % n)) r.allocated)

length-contents_nonempty : (b : LogBuffer) → IsRing b → 0 < b.size → length (contents b) ≡ b.size
length-contents_nonempty b r h = omega (
  arith,
  length-take b.size (rotate b.start b.events),
  length-rotate b.events b.start (omega (arith, r.allocated, r.bounded, r.started)),
  r.allocated,
  r.bounded,
)

pub length-contents : (b : LogBuffer) → IsRing b → length (contents b) ≡ b.size
length-contents b r = elim (dec_lt 0 b.size) [
  | yes h ↦ length-contents_nonempty b r h
  | no h ↦ omega (arith, length-take b.size (rotate b.start b.events))
]

pub store-IsRing : (e : LogEvent) (b : LogBuffer) → IsRing b → IsRing (store e b)
unfolding store
store-IsRing e b r = ground (
  arith,
  length-set b.events ((b.start + b.size) % b.capacity) e,
  λ (h : 0 < b.capacity). mod-lt (b.start + 1) h,
)
