-- ===== src/LogBuffer/Store.antt =====
-- `Append` of logbuffer.go on the ring, against a plain list of events.
use native.Mathlib.Decide.{dec_lt}
use native.Mathlib.Nat.{mod-lt, mod-add-mod}
use easy_proxy_pool.Prelude.{
  ℕ, zero, suc, ◌+◌, ◌-◌, ◌%◌, ◌≤◌, ◌<◌, ◌++◌, ◌≡◌, ◌≢◌, refl, sym, ap, ◌∙◌, List, [], ◌∷◌, arith,
  length, get_elem?, set, take, drop, List-ext, length-set, get_elem?-set_self, get_elem?-set_ne,
  get_elem?-append_left, get_elem?-append_right, get_elem?-drop, length-append, length-drop,
  get_elem?-none,
}
use easy_proxy_pool.Prelude.Rotation.{rotate}
use easy_proxy_pool.LogBuffer.{LogEvent, LogBuffer, store}
use easy_proxy_pool.LogBuffer.Ring.{
  IsRing, contents, last, mod-near, get_elem?-contents, length-contents,
}

-- The buffer after a store with room, and after one without.
abbrev grown : LogEvent → LogBuffer → LogBuffer
grown e b = record b {
  size = b.size + 1;
  events = set b.events ((b.start + b.size) % b.capacity) e;
}

abbrev turned : LogEvent → LogBuffer → LogBuffer
turned e b = record b {
  start = (b.start + 1) % b.capacity;
  events = set b.events ((b.start + b.size) % b.capacity) e;
}

grown-IsRing : (e : LogEvent) (b : LogBuffer) → IsRing b → b.size < b.capacity → IsRing (grown e b)
grown-IsRing e b r h = omega (
  arith,
  length-set b.events ((b.start + b.size) % b.capacity) e,
  r.allocated,
  r.bounded,
  r.started,
)

turned-IsRing : (e : LogEvent) (b : LogBuffer) → IsRing b → 0 < b.capacity → IsRing (turned e b)
turned-IsRing e b r h = omega (
  arith,
  length-set b.events ((b.start + b.size) % b.capacity) e,
  mod-lt (b.start + 1) h,
  r.allocated,
  r.bounded,
)

get_elem?-grown :
    (e : LogEvent) (b : LogBuffer) (i : ℕ)
    → IsRing b
    → b.size < b.capacity
    → i < b.size + 1
    → get_elem? (contents (grown e b)) i ≡ get_elem? (contents b ++ (e ∷ [])) i
get_elem?-grown e b i r h l = elim (dec_lt i b.size) [
  | yes old ↦
      get_elem?-contents (grown e b) i (grown-IsRing e b r h) l
      ∙ (get_elem?-set_ne b.events _ _ e (apart old)
          ∙ (sym (get_elem?-contents b i r old)
              ∙ sym (
                  get_elem?-append_left (contents b) (e ∷ []) i
                    (omega (arith, length-contents b r)))))
  | no new ↦
      let at_end : i ≡ b.size = omega arith in
      get_elem?-contents (grown e b) i (grown-IsRing e b r h) l
      ∙ (rw at_end (get_elem?-set_self b.events _ e in_range)
          ∙ sym (
              get_elem?-append_right (contents b) (e ∷ []) i (omega (arith, length-contents b r))
              ∙ ap (get_elem? (e ∷ [])) (gap at_end)))
]
  where
    gap : i ≡ b.size → i - length (contents b) ≡ 0
    gap q = omega (arith, length-contents b r)

    in_range : (b.start + b.size) % b.capacity < length b.events
    in_range =
        let pos : 0 < b.capacity = omega arith in
        omega (arith, mod-lt (b.start + b.size) pos, r.allocated)

    apart : i < b.size → (b.start + b.size) % b.capacity ≢ (b.start + i) % b.capacity
    apart old =
        let low : b.start < b.capacity = omega (arith, r.started) in
        omega (
          arith,
          mod-near b.start b.size b.capacity low r.bounded,
          mod-near b.start i b.capacity low (omega arith),
        )

contents-grown :
    (e : LogEvent) (b : LogBuffer)
    → IsRing b
    → b.size < b.capacity
    → contents (grown e b) ≡ contents b ++ (e ∷ [])
contents-grown e b r h = List-ext _ _ λ i. elim (dec_lt i (b.size + 1)) [
  | yes l ↦ get_elem?-grown e b i r h l
  | no g ↦
      get_elem?-none (contents (grown e b)) i
        (omega (arith, length-contents (grown e b) (grown-IsRing e b r h)))
      ∙ sym (
          get_elem?-none (contents b ++ (e ∷ [])) i
            (omega (arith, length-append (contents b) (e ∷ []), length-contents b r)))
]

get_elem?-turned :
    (e : LogEvent) (b : LogBuffer) (i : ℕ)
    → IsRing b
    → b.size ≡ b.capacity
    → i < b.capacity
    → get_elem? (contents (turned e b)) i ≡ get_elem? (contents b ++ (e ∷ [])) (1 + i)
get_elem?-turned e b i r h l =
    get_elem?-contents (turned e b) i (turned-IsRing e b r pos) (omega arith)
    ∙ (ap (get_elem? written) index ∙ elim (dec_lt (1 + i) b.size) [
      | yes old ↦
          get_elem?-set_ne b.events _ _ e (apart old)
          ∙ (sym (get_elem?-contents b (1 + i) r old)
              ∙ sym (
                  get_elem?-append_left (contents b) (e ∷ []) (1 + i)
                    (omega (arith, length-contents b r))))
      | no new ↦
          let at_end : 1 + i ≡ b.size = omega arith in
          rw at_end (
            get_elem?-set_self b.events _ e in_range
            ∙ sym (
                get_elem?-append_right (contents b) (e ∷ []) b.size
                  (omega (arith, length-contents b r))
                ∙ ap (get_elem? (e ∷ [])) (gap at_end)))
    ])
  where
    pos : 0 < b.capacity
    pos = omega arith

    low : b.start < b.capacity
    low = omega (arith, r.started)

    written : List LogEvent
    written = set b.events ((b.start + b.size) % b.capacity) e

    index : ((b.start + 1) % b.capacity + i) % b.capacity ≡ (b.start + (1 + i)) % b.capacity
    index =
        let sum : b.start + 1 + i ≡ b.start + (1 + i) = omega arith in
        mod-add-mod (b.start + 1) b.capacity i ∙ ap (λ k. k % b.capacity) sum

    gap : 1 + i ≡ b.size → b.size - length (contents b) ≡ 0
    gap q = omega (arith, length-contents b r)

    in_range : (b.start + b.size) % b.capacity < length b.events
    in_range = omega (arith, mod-lt (b.start + b.size) pos, r.allocated)

    apart : 1 + i < b.size → (b.start + b.size) % b.capacity ≢ (b.start + (1 + i)) % b.capacity
    apart old = omega (
      arith,
      mod-near b.start b.size b.capacity low r.bounded,
      mod-near b.start (1 + i) b.capacity low (omega arith),
    )

contents-turned :
    (e : LogEvent) (b : LogBuffer)
    → IsRing b
    → b.size ≡ b.capacity
    → 0 < b.capacity
    → contents (turned e b) ≡ drop 1 (contents b ++ (e ∷ []))
contents-turned e b r h pos = List-ext _ _ λ i. elim (dec_lt i b.capacity) [
  | yes l ↦ get_elem?-turned e b i r h l ∙ sym (get_elem?-drop 1 (contents b ++ (e ∷ [])) i)
  | no g ↦
      get_elem?-none (contents (turned e b)) i
        (omega (arith, length-contents (turned e b) (turned-IsRing e b r pos)))
      ∙ sym (
          get_elem?-none (drop 1 (contents b ++ (e ∷ []))) i (
            omega (
              arith,
              length-drop 1 (contents b ++ (e ∷ [])),
              length-append (contents b) (e ∷ []),
              length-contents b r,
            )))
]

drop-all : (n : ℕ) (es : List LogEvent) → length es ≤ n → drop n es ≡ []
drop-all zero [] h = refl
drop-all zero (e ∷ es) h = absurd (omega arith)
drop-all (suc n) [] h = refl
drop-all (suc n) (e ∷ es) h = drop-all n es (omega arith)

store-grown : (e : LogEvent) (b : LogBuffer) → b.size < b.capacity → store e b ≡ grown e b
unfolding store
store-grown e b h = ground arith

store-turned :
    (e : LogEvent) (b : LogBuffer) → b.size ≡ b.capacity → 0 < b.capacity → store e b ≡ turned e b
unfolding store
store-turned e b h pos = ground arith

store-nothing : (e : LogEvent) (b : LogBuffer) → b.capacity ≡ 0 → store e b ≡ b
unfolding store
store-nothing e b h = ground arith

-- Storing an event puts it at the end, and keeps the last `capacity` events.
pub contents-store :
    (e : LogEvent) (b : LogBuffer)
    → IsRing b
    → contents (store e b) ≡ last b.capacity (contents b ++ (e ∷ []))
contents-store e b r = elim (dec_lt b.size b.capacity) [
  | yes room ↦
      let fits : length whole - b.capacity ≡ 0 = omega (arith, total) in
      ap contents (store-grown e b room)
      ∙ (contents-grown e b r room ∙ sym (ap (λ n. drop n whole) fits))
  | no full ↦ elim (dec_lt 0 b.capacity) [
    | yes pos ↦
        let one : length whole - b.capacity ≡ 1 = omega (arith, total, r.bounded) in
        ap contents (store-turned e b (omega (arith, r.bounded)) pos)
        ∙ (contents-turned e b r (omega (arith, r.bounded)) pos ∙ sym (ap (λ n. drop n whole) one))
    | no zero_size ↦
        let nil : b.size ≡ 0 = omega (arith, r.bounded) in
        ap contents (store-nothing e b (omega arith))
        ∙ (ap (λ n. take n (rotate b.start b.events)) nil
            ∙ sym (drop-all (length whole - b.capacity) whole (omega arith)))
  ]
]
  where
    whole : List LogEvent
    whole = contents b ++ (e ∷ [])

    total : length whole ≡ b.size + 1
    total = omega (arith, length-append (contents b) (e ∷ []), length-contents b r)
