-- ===== src/LogBuffer/Snapshot.antt =====
-- `SnapshotSince` of logbuffer.go on the ring, against a plain list of events.
use native.Mathlib.Decide.{dec_lt}
use easy_proxy_pool.Prelude.{
  ℕ, zero, suc, ◌+◌, ◌%◌, ◌<◌, ◌≡◌, refl, sym, ap, ◌∙◌, Bool, List, [], ◌∷◌, arith, length,
  get_elem?, take, filter,
}
use easy_proxy_pool.Prelude.Rotation.{rotate}
use easy_proxy_pool.LogBuffer.{LogEvent, LogBuffer, collect, snapshot_since, passes}
use easy_proxy_pool.LogBuffer.Ring.{IsRing, contents, get_elem?-contents, length-contents}

-- The loop of `SnapshotSince` filters `ys`, if the positions that it visits hold `ys`.
collect-filter :
    (b : LogBuffer) (keep : LogEvent → Bool) (ys : List LogEvent) (n i : ℕ)
    → length ys ≡ n
    → ((j : ℕ) → j < n → get_elem? b.events ((b.start + (i + j)) % b.capacity) ≡ get_elem? ys j)
    → collect b keep n i ≡ filter keep ys
unfolding collect
collect-filter b keep [] zero i e h = refl
collect-filter b keep [] (suc n) i e h = absurd (omega arith)
collect-filter b keep (y ∷ ys) zero i e h = absurd (omega arith)
collect-filter b keep (y ∷ ys) (suc n) i e h =
    let here : i ≡ i + 0 = omega arith in
    let moved : (j : ℕ) → i + 1 + j ≡ i + suc j = λ j. omega arith in
    ground (
      arith,
      ap (λ k. get_elem? b.events ((b.start + k) % b.capacity)) here ∙ h 0 (omega arith),
      collect-filter b keep ys n (i + 1) (omega arith) (λ j hj.
          ap (λ k. get_elem? b.events ((b.start + k) % b.capacity)) (moved j)
          ∙ h (suc j) (omega arith)),
    )

-- `SnapshotSince` returns the stored events, oldest first, whose number is above `since` and whose
-- level is at least the given one.
pub snapshot_since-contents :
    (b : LogBuffer) (since min_level : ℕ)
    → IsRing b
    → snapshot_since b since min_level ≡ filter (passes since min_level) (contents b)
unfolding snapshot_since
snapshot_since-contents b since min_level r = elim (dec_lt 0 b.size) [
  | yes some_left ↦
      let from_zero : (i : ℕ) → 0 + i ≡ i = λ i. omega arith in
      ground (
        arith,
        r.bounded,
        collect-filter b (passes since min_level) (contents b) b.size 0 (length-contents b r)
            (λ i h.
              ap (λ k. get_elem? b.events ((b.start + k) % b.capacity)) (from_zero i)
              ∙ sym (get_elem?-contents b i r h)),
      )
  | no empty ↦
      let nil : b.size ≡ 0 = omega arith in
      ground (
        arith,
        nil,
        ap (λ n. filter (passes since min_level) (take n (rotate b.start b.events))) nil,
      )
]
