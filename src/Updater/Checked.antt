-- ===== src/Updater/Checked.antt =====
-- The entries that a round of `runOnce` of updater.go makes, and how it ends.

use easy_proxy_pool.Prelude.{
  ℕ, ◌≡◌, refl, ◌⊎◌, inl, inr, Bool, true, false, Option, none, some, List, [], ◌∷◌, if◌then◌else◌,
  All, length, Bool-cases, Option-cases,
}
use easy_proxy_pool.Prelude.Text.{Text, contains}
use easy_proxy_pool.Prelude.Map.{Map, lookup}
use easy_proxy_pool.Prelude.Outcome.{done}
use easy_proxy_pool.Config.{Config}
use easy_proxy_pool.Pool.{Entry, Pool, update}
use easy_proxy_pool.Status.{NodeHealth, UpdateDetails, set_end}
use easy_proxy_pool.Updater.{Round, Running, end_run, update_pool, passing, legacy_entries}
use easy_proxy_pool.Updater.Run.{xray_entries, alive_entry, node_entry}

module _ (cfg : Config) (rd : Round) where
  -- An entry for an address that passed the health check, with the latency that was measured.
  pub record IsPassed (e : Entry) : Type 0 where
    pub no_id : e.id ≡ []
    pub checked : rd.check e.addr ≡ some e.latency
    pub fresh : (e.last_checked_at ≡ rd.checked_at) × (e.failures ≡ 0) × (e.disabled_until ≡ 0)

  -- An entry for a node that is alive by the metrics of xray, behind xray's own port.
  pub record IsAlive (e : Entry) : Type 0 where
    pub metrics : Map NodeHealth
    pub fetched : rd.metrics ≡ done metrics
    pub health : NodeHealth
    pub found : lookup metrics e.id ≡ some health
    pub alive : health.alive ≡ true
    pub latency : e.latency ≡ health.delay
    pub login :
        (e.addr ≡ cfg.xray.socks_listen_relaxed)
        × (e.username ≡ e.id)
        × (e.password ≡ cfg.xray.user_password)
    pub fresh : (e.last_checked_at ≡ rd.checked_at) × (e.failures ≡ 0) × (e.disabled_until ≡ 0)

  -- What a round does to the pool: it is as before, or has the entries that were checked, and there is one.
  pub record IsRefreshed (p : Pool) (s : Running) : Type 0 where
    pub first : Entry
    pub others : List Entry
    pub pool : s.pool ≡ update p (first ∷ others)
    pub checked : All IsPassed (first ∷ others) ⊎ All IsAlive (first ∷ others)
    pub size : s.status.last_pool ≡ length (first ∷ others)
    pub no_error : s.status.last_update_err ≡ []

  -- What a round leaves behind.
  pub record IsAfter (p : Pool) (started : ℕ) (s : Running) : Type 0 where
    pub pool : ((s.pool ≡ p) × (s.status.last_pool ≡ 0)) ⊎ IsRefreshed p s
    pub started_at : s.status.last_update_start ≡ started
    pub ended_at : s.status.last_update_end ≡ rd.ended_at

  pub end_run-kept :
      (s : Running) (fetched : ℕ) (err : Option Text) (d : UpdateDetails)
      → IsAfter s.pool s.status.last_update_start (end_run rd s fetched 0 err d)
  unfolding end_run
  end_run-kept s fetched err d = record {
    pool = inl (refl, refl);
    started_at = refl;
    ended_at = refl;
  }

  -- The pool that `update_pool` makes.
  abbrev pub new_pool : Pool → List Entry → Pool
  new_pool p [] = p
  new_pool p (x ∷ xs) = update p (x ∷ xs)

  pub update_pool-pool :
      (s : Running) (entries : List Entry) → (update_pool s entries).pool ≡ new_pool s.pool entries
  unfolding update_pool
  update_pool-pool s [] = refl
  update_pool-pool s (x ∷ xs) = refl

  pub update_pool-status :
      (s : Running) (entries : List Entry) → (update_pool s entries).status ≡ s.status
  unfolding update_pool
  update_pool-status s [] = refl
  update_pool-status s (x ∷ xs) = refl

  pub end_run-updated :
      (p : Pool) (started : ℕ) (s : Running) (fetched : ℕ) (entries : List Entry)
      (d : UpdateDetails)
      → s.pool ≡ new_pool p entries
      → s.status.last_update_start ≡ started
      → All IsPassed entries ⊎ All IsAlive entries
      → IsAfter p started (end_run rd s fetched (length entries) none d)
  unfolding end_run set_end
  end_run-updated p started s fetched [] d e f c = record {
    pool = inl (e, refl);
    started_at = f;
    ended_at = refl;
  }
  end_run-updated p started s fetched (x ∷ xs) d e f c = record {
    pool =
        inr
          (record { first = x; others = xs; pool = e; checked = c; size = refl; no_error = refl });
    started_at = f;
    ended_at = refl;
  }

  abbrev pub Passes : Text × ℕ → Type 0
  Passes (addr, latency) = rd.check addr ≡ some latency

  pub passing-Passes : (addrs : List Text) → All Passes (passing rd.check addrs)
  unfolding passing
  passing-Passes [] = tt
  passing-Passes (a ∷ addrs) = elim (Option-cases (rd.check a)) [
    | inl bad ↦ rw (bad, passing) (passing-Passes addrs)
    | inr (latency, good) ↦ rw (good, passing) (good, passing-Passes addrs)
  ]

  pub legacy_entries-IsPassed :
      (seen : List Text) (results : List (Text × ℕ))
      → All Passes results
      → All IsPassed (legacy_entries rd.checked_at seen results)
  unfolding legacy_entries
  legacy_entries-IsPassed seen [] h = tt
  legacy_entries-IsPassed seen ((addr, latency) ∷ results) (good, h) =
      elim (Bool-cases (contains seen addr)) [
        | inl old ↦ rw (old, legacy_entries) (legacy_entries-IsPassed seen results h)
        | inr new ↦
            rw (new, legacy_entries)
              (
                record { no_id = refl; checked = good; fresh = (refl, refl, refl) },
                legacy_entries-IsPassed (addr ∷ seen) results h,
              )
      ]

  pub xray_entries-IsAlive :
      (hr : Map NodeHealth) (ids : List Text)
      → rd.metrics ≡ done hr
      → All IsAlive (xray_entries cfg rd.checked_at hr ids)
  unfolding xray_entries
  xray_entries-IsAlive hr [] e = tt
  xray_entries-IsAlive hr (id ∷ ids) e =
      by_health (lookup hr id) refl (xray_entries cfg rd.checked_at hr ids)
        (xray_entries-IsAlive hr ids e)
    where
      by_alive :
          (h : NodeHealth) (b : Bool) (es : List Entry)
          → lookup hr id ≡ some h
          → h.alive ≡ b
          → All IsAlive es
          → All IsAlive (if b then node_entry cfg rd.checked_at id h ∷ es else es)
      by_alive h false es f a k = k
      by_alive h true es f a k = (
        record {
          metrics = hr;
          fetched = e;
          health = h;
          found = f;
          alive = a;
          latency = refl;
          login = (refl, refl, refl);
          fresh = (refl, refl, refl);
        },
        k,
      )

      by_health :
          (o : Option NodeHealth)
          → lookup hr id ≡ o
          → (es : List Entry) → All IsAlive es
          → All IsAlive (alive_entry cfg rd.checked_at id o es)
      by_health none f es k = k
      by_health (some h) f es k = by_alive h h.alive es f refl k
