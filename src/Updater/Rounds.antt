-- ===== src/Updater/Rounds.antt =====
-- What a round of `runOnce` of updater.go leaves: the pool, and the status.
use mathlib.Core.List.{Permᴰ}
use easy_proxy_pool.Prelude.{
  ℕ, zero, suc, ◌==◌, ◌≡◌, refl, ap, ◌⊎◌, inl, inr, Bool, true, false, Option, none, some, List, [],
  if◌then◌else◌, arith, length,
}
use easy_proxy_pool.Prelude.Text.{Text, bytes}
use easy_proxy_pool.Prelude.Map.{Map}
use easy_proxy_pool.Prelude.Sort.{Permᴰ-All}
use easy_proxy_pool.Prelude.Value.{Value}
use easy_proxy_pool.Prelude.Outcome.{Outcome, done, failed, panicked}
use easy_proxy_pool.Config.{Config}
use easy_proxy_pool.Pool.{Entry, Pool, update, updating_cas, updating_clear}
use easy_proxy_pool.Status.{NodeHealth, UpdateDetails, set_start, set_relaxed_node_health}
use easy_proxy_pool.Upstream.{Spec}
use easy_proxy_pool.Sources.{LoadResult}
use easy_proxy_pool.Xray.Generate.{Generated}
use easy_proxy_pool.Updater.{
  Round, Running, end_run, update_pool, passing, legacy_entries, finish_legacy, run_legacy,
  details_of, load_socks5_upstreams, load_upstream_specs, fallback_enabled,
}
use easy_proxy_pool.Updater.Run.{
  xray_entries, set_health, make_counts, finish_xray, xray_details, merge_skipped, skipped_of,
  xray_failed, after_ensure, after_start, after_generate, make_skipped, after_load, run_xray,
  run_round, run_once, clear_updating,
}
use easy_proxy_pool.Updater.Checked.{
  end_run-kept, update_pool-pool, update_pool-status, end_run-updated, Passes, passing-Passes,
  legacy_entries-IsPassed, xray_entries-IsAlive, IsRefreshed, IsAfter,
}

module _ (cfg : Config) (rd : Round) where
  -- The same of a result; there is none after a panic.
  abbrev pub Leaves : Pool → ℕ → Option Running → Type 0
  Leaves p started none = Unit
  Leaves p started (some s) = IsAfter cfg rd p started s

  -- The results of the health checks arrive in some order.
  abbrev pub ArrivesAll : Type 0
  ArrivesAll = (results : List (Text × ℕ)) → Permᴰ results (rd.arrive results)

  finish_legacy-IsAfter :
      (s : Running) (d : UpdateDetails) (proxies : List Text)
      → ArrivesAll
      → IsAfter cfg rd s.pool s.status.last_update_start (finish_legacy rd s d proxies)
  unfolding finish_legacy
  finish_legacy-IsAfter s d proxies arrives =
      end_run-updated cfg rd s.pool s.status.last_update_start (update_pool s entries)
        (length proxies) entries d (update_pool-pool cfg rd s entries)
        (ap (λ st. st.last_update_start) (update_pool-status cfg rd s entries))
        (inl (
          legacy_entries-IsPassed cfg rd [] (rd.arrive (passing rd.check proxies)) (
            Permᴰ-All (Passes cfg rd) (arrives (passing rd.check proxies))
              (passing-Passes cfg rd proxies))))
    where
      entries : List Entry
      entries = legacy_entries rd.checked_at [] (rd.arrive (passing rd.check proxies))

  module _ (sum256 : Text → Text) (marshal : Value → Option Text) (arrives : ArrivesAll) where
    run_legacy-Leaves :
        (s : Running) (d : UpdateDetails)
        → Leaves s.pool s.status.last_update_start (run_legacy sum256 cfg rd s d)
    unfolding run_legacy
    run_legacy-Leaves s d = by_proxies (load_socks5_upstreams sum256 cfg rd.second)
      where
        by_proxies :
            (x : Outcome (List Text))
            → Leaves s.pool s.status.last_update_start (elim x [
              | panicked ↦ none
              | failed e ↦ some (end_run rd s 0 0 (some e) d)
              | done proxies ↦ some (finish_legacy rd s d proxies)
            ])
        by_proxies panicked = tt
        by_proxies (failed e) = end_run-kept cfg rd s 0 (some e) d
        by_proxies (done proxies) = finish_legacy-IsAfter s d proxies arrives

    xray_failed-Leaves :
        (s : Running) (fetched : ℕ) (e : Text) (fallback own : UpdateDetails)
        → Leaves s.pool s.status.last_update_start
            (xray_failed sum256 marshal cfg rd s fetched e fallback own)
    unfolding xray_failed
    xray_failed-Leaves s fetched e fallback own =
        by_test (fallback_enabled cfg.xray.fallback_to_legacy_on_error)
      where
        by_test :
            (b : Bool)
            → Leaves s.pool s.status.last_update_start (
                if b
                then run_legacy sum256 cfg rd s fallback
                else some (end_run rd s fetched 0 (some e) own))
        by_test true = run_legacy-Leaves s fallback
        by_test false = end_run-kept cfg rd s fetched (some e) own

    finish_xray-IsAfter :
        (s : Running) (specs : List Spec) (res : Option LoadResult) (g : Generated)
        (hr : Map NodeHealth)
        → rd.metrics ≡ done hr
        → IsAfter cfg rd s.pool s.status.last_update_start (finish_xray cfg rd s specs res g hr)
    unfolding finish_xray make_counts set_health set_relaxed_node_health
    finish_xray-IsAfter s specs res g hr e =
        end_run-updated cfg rd s.pool s.status.last_update_start
          (make_counts updated (merge_skipped g.skipped (skipped_of res))) (length specs) entries
          (xray_details specs res g updated.store.counts.next)
          (update_pool-pool cfg rd (set_health rd s hr) entries)
          (ap (λ st. st.last_update_start) (update_pool-status cfg rd (set_health rd s hr) entries))
          (inr (xray_entries-IsAlive cfg rd hr g.included e))
      where
        entries : List Entry
        entries = xray_entries cfg rd.checked_at hr g.included

        updated : Running
        updated = update_pool (set_health rd s hr) entries

    after_ensure-Leaves :
        (s : Running) (specs : List Spec) (res : Option LoadResult) (g : Generated)
        (m : Outcome (Map NodeHealth))
        → rd.metrics ≡ m
        → Leaves s.pool s.status.last_update_start
            (after_ensure sum256 marshal cfg rd s specs res g m)
    unfolding after_ensure
    after_ensure-Leaves s specs res g panicked e = tt
    after_ensure-Leaves s specs res g (failed t) e = search xray_failed-Leaves
    after_ensure-Leaves s specs res g (done hr) e = finish_xray-IsAfter s specs res g hr e

    after_start-Leaves :
        (s : Running) (specs : List Spec) (res : Option LoadResult) (g : Generated)
        (err : Option Text)
        → Leaves s.pool s.status.last_update_start
            (after_start sum256 marshal cfg rd s specs res g err)
    unfolding after_start
    after_start-Leaves s specs res g none = after_ensure-Leaves s specs res g rd.metrics refl
    after_start-Leaves s specs res g (some t) = search xray_failed-Leaves

    after_generate-Leaves :
        (s : Running) (specs : List Spec) (res : Option LoadResult) (x : Outcome Generated)
        → Leaves s.pool s.status.last_update_start
            (after_generate sum256 marshal cfg rd s specs res x)
    unfolding after_generate make_skipped make_counts
    after_generate-Leaves s specs res panicked = tt
    after_generate-Leaves s specs none (failed t) = search xray_failed-Leaves
    after_generate-Leaves s specs (some r) (failed t) = search xray_failed-Leaves
    after_generate-Leaves s specs res (done g) = search after_start-Leaves

    after_load-Leaves :
        (s : Running) (x : Outcome (List Spec × Option LoadResult))
        → Leaves s.pool s.status.last_update_start (after_load sum256 marshal cfg rd s x)
    unfolding after_load
    after_load-Leaves s panicked = tt
    after_load-Leaves s (failed t) = search xray_failed-Leaves
    after_load-Leaves s (done (specs, res)) = after_generate-Leaves s specs res _

    run_round-Leaves :
        (s : Running) → Leaves s.pool rd.started_at (run_round sum256 marshal cfg rd s)
    unfolding run_round run_xray set_start
    run_round-Leaves s =
        by_test cfg.xray.enabled _ _
          (after_load-Leaves begun (load_upstream_specs sum256 cfg rd.first))
          (run_legacy-Leaves begun (details_of (bytes "legacy")))
      where
        begun : Running
        begun = record s { status = set_start s.status rd.started_at }

        by_test :
            (b : Bool) (x y : Option Running)
            → Leaves s.pool rd.started_at x
            → Leaves s.pool rd.started_at y
            → Leaves s.pool rd.started_at (if b then x else y)
        by_test true x y h k = h
        by_test false x y h k = k

    IsAfter-clear :
        (p : Pool) (started : ℕ) (s : Running)
        → IsAfter cfg rd p started s
        → IsAfter cfg rd (updating_clear p) started (record s { pool = updating_clear s.pool })
    unfolding updating_clear update
    IsAfter-clear p started s v = record {
      pool = by_pool v.pool;
      started_at = v.started_at;
      ended_at = v.ended_at;
    }
      where
        t : Running
        t = record s { pool = updating_clear s.pool }

        by_pool :
            ((s.pool ≡ p) × (s.status.last_pool ≡ 0)) ⊎ IsRefreshed cfg rd p s
            → ((t.pool ≡ updating_clear p) × (t.status.last_pool ≡ 0))
              ⊎ IsRefreshed cfg rd (updating_clear p) t
        by_pool (inl (same, none_in)) = inl (ap updating_clear same, none_in)
        by_pool (inr r) = inr (record {
          first = r.first;
          others = r.others;
          pool = ap updating_clear r.pool;
          checked = r.checked;
          size = r.size;
          no_error = r.no_error;
        })

    -- What `run_once` does where it finds the flag clear, and where another round is at work.
    pub IsOnce : ℕ → Running → Option Running → Type 0
    IsOnce zero s none = Unit
    IsOnce zero s (some t) =
        (t.pool.updating ≡ 0) × IsAfter cfg rd (updating_clear s.pool) rd.started_at t
    IsOnce (suc n) s o = o ≡ some s

    clear_updating-IsOnce :
        (s : Running) (o : Option Running)
        → Leaves (record s.pool { updating = 1 }) rd.started_at o
        → IsOnce 0 s (clear_updating sum256 marshal cfg rd o)
    unfolding IsOnce updating_clear
    clear_updating-IsOnce s none h = tt
    clear_updating-IsOnce s (some t) h = (refl, IsAfter-clear _ _ t h)

    run_once_free :
        (s : Running)
        → s.pool.updating ≡ 0
        → run_once sum256 marshal cfg rd s
          ≡ clear_updating sum256 marshal cfg rd
              (run_round sum256 marshal cfg rd (record s { pool = record s.pool { updating = 1 } }))
    unfolding run_once updating_cas
    run_once_free s e = rw (e, run_once, updating_cas) refl

    run_once_busy :
        (s : Running) (n : ℕ) → s.pool.updating ≡ suc n → run_once sum256 marshal cfg rd s ≡ some s
    unfolding run_once updating_cas
    run_once_busy s n e =
        let taken : (s.pool.updating == 0) ≡ false = ground (arith, e) in
        rw (taken, run_once, updating_cas) refl

    -- A round that finds another one at work does nothing. One that does not panic leaves the flag clear
    -- and the times of its start and its end in the status. The pool is as it was, or it has at least one
    -- entry and only entries that this round has checked, as many as the status tells and with no error.
    -- The health checks can end in any order.
    pub run_once-IsOnce :
        (s : Running) → IsOnce s.pool.updating s (run_once sum256 marshal cfg rd s)
    run_once-IsOnce s = by_flag s.pool.updating refl
      where
        by_flag : (n : ℕ) → s.pool.updating ≡ n → IsOnce n s (run_once sum256 marshal cfg rd s)
        by_flag zero e = rw (run_once_free s e) (
            clear_updating-IsOnce s _
              (run_round-Leaves (record s { pool = record s.pool { updating = 1 } })))
        by_flag (suc n) e = unfold IsOnce in run_once_busy s n e
