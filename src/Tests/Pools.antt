-- ===== src/Tests/Pools.antt =====
-- The theorems on internal/pool/pool.go at concrete pools.
use easy_proxy_pool.Prelude.{
  ℕ, ◌*◌, ◌+◌, ◌^◌, min, ◌≡◌, ◌≢◌, refl, none, some, List, [], ◌∷◌, arith, get_elem?, ltb,
  if◌then◌else◌,
}
use easy_proxy_pool.Prelude.Text.{Text, bytes, text_eq}
use easy_proxy_pool.Prelude.Map.{lookup}
use easy_proxy_pool.Pool.{
  Entry, Pool, key, new, index_from, update, is_ready, is_disabled, next, get, active, mark_success,
  mark_failure, fail, stats,
}
use easy_proxy_pool.Pool.Index.{updates, picks, fails, run, IsIndexed, run-IsIndexed}
use easy_proxy_pool.Pool.Next.{next_round_robin, Ready, next-Ready, next-none, picks-cycle}
use easy_proxy_pool.Pool.Backoff.{
  Held, failed, mark_failure_lem, get-mark_failure, get-mark_failure_above,
}
use easy_proxy_pool.Pool.Availability.{next-active_disagree}

abbrev pub entry : Text → ℕ → Entry
entry addr disabled_until = record {
  id = [];
  addr = addr;
  username = [];
  password = [];
  latency = 5;
  last_checked_at = 7;
  failures = 0;
  disabled_until = disabled_until;
}

abbrev pub two : List Entry
two = entry (bytes "a:1") 0 ∷ entry (bytes "b:1") 0 ∷ []

abbrev pool_of : List Entry → Pool
pool_of es = record {
  entries = es;
  index = (bytes "a:1", 0) ∷ (bytes "b:1", 1) ∷ [];
  rr = 0;
  updating = 0;
}

abbrev waiting : List Entry
waiting = entry (bytes "a:1") 90 ∷ entry (bytes "b:1") 90 ∷ []

abbrev round_robin : Text
round_robin = bytes "round_robin"

abbrev draws : ℕ → ℕ
draws i = i

run-IsIndexed_example :
    IsIndexed (run new (updates two ∷ picks round_robin 9 draws ∷ fails (bytes "a:1") 9 1 2 ∷ []))
run-IsIndexed_example =
    run-IsIndexed (updates two ∷ picks round_robin 9 draws ∷ fails (bytes "a:1") 9 1 2 ∷ [])

next_round_robin_example :
    next (pool_of two) round_robin 9 draws
    ≡ (some (entry (bytes "b:1") 0), record (pool_of two) { rr = 1 })
unfolding text_eq is_ready
next_round_robin_example = next_round_robin (pool_of two) round_robin 9 draws (ground arith) refl

next-Ready_example : Ready two 9 (entry (bytes "b:1") 0)
unfolding text_eq is_ready next
next-Ready_example = next-Ready (pool_of two) round_robin 9 draws (entry (bytes "b:1") 0) refl

picks-cycle_example :
    easy_proxy_pool.Pool.Next.picks round_robin 9 draws 2 (pool_of two)
    ≡ some (entry (bytes "b:1") 0) ∷ some (entry (bytes "a:1") 0) ∷ []
unfolding text_eq is_ready
picks-cycle_example =
    picks-cycle round_robin 9 draws (pool_of two) (ground arith) refl (refl, (refl, tt))
      (ground arith)

abbrev held_a : Held (pool_of two) (bytes "a:1") (entry (bytes "a:1") 0)
unfolding lookup text_eq
held_a = record { position = 0; indexed = refl; member = refl }

get-mark_failure_example :
    get (mark_failure (pool_of two) (bytes "a:1") 100 30 600) (bytes "a:1") 120 ≡ (
      if ltb 120 (100 + min 600 (30 * 2 ^ 0))
      then none
      else some (failed 100 30 600 (entry (bytes "a:1") 0)))
get-mark_failure_example =
    get-mark_failure (pool_of two) (bytes "a:1") 100 30 600 120 (entry (bytes "a:1") 0) held_a
      (ground arith) (ground arith) (ground arith) (ground arith)

mark_failure_lem_example :
    (get_elem? (mark_failure (pool_of two) (bytes "a:1") 100 30 600).entries 0
      ≡ some (failed 100 30 600 (entry (bytes "a:1") 0)))
    × ((j : ℕ)
        → 0 ≢ j
        → get_elem? (mark_failure (pool_of two) (bytes "a:1") 100 30 600).entries j
          ≡ get_elem? two j)
    × ((mark_failure (pool_of two) (bytes "a:1") 100 30 600).index ≡ (pool_of two).index)
    × ((mark_failure (pool_of two) (bytes "a:1") 100 30 600).rr ≡ 0)
unfolding held_a
mark_failure_lem_example =
    mark_failure_lem (pool_of two) (bytes "a:1") 100 30 600 (entry (bytes "a:1") 0) held_a
      (ground arith) (ground arith) (ground arith)

get-mark_failure_above_example :
    get (mark_failure (pool_of two) (bytes "a:1") 100 900 600) (bytes "a:1") 701 ≡ (
      if ltb 701 (100 + 900)
      then none
      else some (record (entry (bytes "a:1") 0) { failures = 1; disabled_until = 1000 }))
unfolding held_a
get-mark_failure_above_example =
    get-mark_failure_above (pool_of two) (bytes "a:1") 100 900 600 701 (entry (bytes "a:1") 0)
      held_a (ground arith) (ground arith) (ground arith) (ground arith)

next-active_disagree_example :
    (active (pool_of waiting) 90 ≡ waiting)
    × ((next (pool_of waiting) round_robin 90 draws).0 ≡ none)
next-active_disagree_example =
    next-active_disagree (pool_of waiting) round_robin 90 draws (ground arith) (refl, (refl, tt))
