-- ===== src/Updater/Run.antt =====
-- internal/orchestrator/updater.go: `runOnceXray` and `runOnce`.
use easy_proxy_pool.Prelude.{ℕ, false, Option, none, some, List, [], ◌∷◌, if◌then◌else◌, length}
use easy_proxy_pool.Prelude.Text.{Text, bytes}
use easy_proxy_pool.Prelude.Map.{Map, lookup}
use easy_proxy_pool.Prelude.Value.{Value}
use easy_proxy_pool.Prelude.Outcome.{Outcome, done, failed, panicked}
use easy_proxy_pool.Config.{Config}
use easy_proxy_pool.Pool.{Entry, updating_cas, updating_clear}
use easy_proxy_pool.Status.{
  NodeHealth, UpdateDetails, Status, Store, make_map, set_start, set_relaxed_node_health,
}
use easy_proxy_pool.Upstream.{Spec}
use easy_proxy_pool.Sources.{LoadResult, add_counts}
use easy_proxy_pool.Xray.Outbound.{mode_relaxed}
use easy_proxy_pool.Xray.Generate.{
  GenerateOptions, Generated, Generation, generated, missing_socks_listen, missing_metrics_listen,
  missing_user_password, too_many_nodes, marshal_failed, panics, generate,
}
use easy_proxy_pool.Xray.Process.{
  Ensured, ready, make_dir_failed, write_failed, start_failed, not_ready, ensure,
}
use easy_proxy_pool.Updater.{
  Round, Running, load_upstream_specs, end_run, update_pool, run_legacy, details_of,
  fallback_details, fallback_enabled,
}

unfoldable pub generated_or : (Generation → Text) → Generation → Outcome Generated
generated_or text (generated g) = done g
generated_or text missing_socks_listen = failed (text missing_socks_listen)
generated_or text missing_metrics_listen = failed (text missing_metrics_listen)
generated_or text missing_user_password = failed (text missing_user_password)
generated_or text too_many_nodes = failed (text too_many_nodes)
generated_or text marshal_failed = failed (text marshal_failed)
generated_or text panics = panicked

unfoldable pub ready_or : (Ensured → Text) → Ensured → Option Text
ready_or text ready = none
ready_or text make_dir_failed = some (text make_dir_failed)
ready_or text write_failed = some (text write_failed)
ready_or text start_failed = some (text start_failed)
ready_or text not_ready = some (text not_ready)

unfoldable pub generate_options : Config → GenerateOptions
generate_options cfg = record {
  mode = mode_relaxed;
  socks_listen = cfg.xray.socks_listen_relaxed;
  metrics_listen = cfg.xray.metrics_listen_relaxed;
  user_password = cfg.xray.user_password;
  max_nodes = cfg.xray.max_nodes;
  observatory = cfg.xray.observatory;
}

abbrev pub problems_count : Option LoadResult → ℕ
problems_count none = 0
problems_count (some r) = length r.problems

abbrev pub skipped_of : Option LoadResult → Map ℕ
skipped_of none = []
skipped_of (some r) = r.skipped

-- A map that is made, and a reference to it.
unfoldable pub make_counts : Running → Map ℕ → Running
unfolding make_map
make_counts s m = record s { store = record s.store { counts = make_map s.store.counts m } }

-- res.Skipped, which is nil in Result{}.
unfoldable pub make_skipped : Running → Option LoadResult → Option ℕ × Running
unfolding make_counts
make_skipped s none = (none, s)
make_skipped s (some r) = (some s.store.counts.next, make_counts s r.skipped)

-- mergeSkipped of two maps
unfoldable pub merge_skipped : Map ℕ → Map ℕ → Map ℕ
unfolding add_counts
merge_skipped a b = add_counts (add_counts [] a) b

abbrev pub node_entry : Config → ℕ → Text → NodeHealth → Entry
node_entry cfg now id h = record {
  id = id;
  addr = cfg.xray.socks_listen_relaxed;
  username = id;
  password = cfg.xray.user_password;
  latency = h.delay;
  last_checked_at = now;
  failures = 0;
  disabled_until = 0;
}

abbrev pub alive_entry : Config → ℕ → Text → Option NodeHealth → List Entry → List Entry
alive_entry cfg now id none entries = entries
alive_entry cfg now id (some h) entries =
    if h.alive then node_entry cfg now id h ∷ entries else entries

unfoldable pub xray_entries : Config → ℕ → Map NodeHealth → List Text → List Entry
unfolding lookup
xray_entries cfg now hr [] = []
xray_entries cfg now hr (id ∷ ids) =
    alive_entry cfg now id (lookup hr id) (xray_entries cfg now hr ids)

unfoldable pub set_health : Round → Running → Map NodeHealth → Running
unfolding make_map set_relaxed_node_health
set_health rd s hr =
    let made : Store = record s.store { health = make_map s.store.health hr } in
    let set : Status × Store =
      set_relaxed_node_health made s.status rd.checked_at (some s.store.health.next) in
    record s { status = set.0; store = set.1 }

-- The details of an update by xray, with the reference of the counts.
abbrev pub xray_details : List Spec → Option LoadResult → Generated → ℕ → UpdateDetails
xray_details specs res g counts = record {
  adapter = bytes "xray";
  nodes_total = length specs;
  nodes_included = length specs;
  problems_count = problems_count res;
  skipped_by_type = some counts;
  xray_relaxed_hash = g.hash;
  fallback_used = false;
  fallback_err = [];
}

-- The end of `runOnceXray`, with the health of the nodes.
unfoldable pub finish_xray :
    Config → Round → Running → List Spec → Option LoadResult → Generated → Map NodeHealth → Running
unfolding xray_entries update_pool set_health make_counts merge_skipped end_run
finish_xray cfg rd s specs res g hr =
    let entries = xray_entries cfg rd.checked_at hr g.included in
    let updated = update_pool (set_health rd s hr) entries in
    end_run rd (make_counts updated (merge_skipped g.skipped (skipped_of res))) (length specs)
      (length entries) none (xray_details specs res g updated.store.counts.next)

module _ (sum256 : Text → Text) (marshal : Value → Option Text) (cfg : Config) (rd : Round) where
  -- What every error of `runOnceXray` ends with, with the details for either case.
  unfoldable pub xray_failed : Running → ℕ → Text → UpdateDetails → UpdateDetails → Option Running
  unfolding run_legacy end_run
  xray_failed s fetched e fallback own =
      let legacy = run_legacy sum256 cfg rd s fallback in
      if fallback_enabled cfg.xray.fallback_to_legacy_on_error
      then legacy
      else some (end_run rd s fetched 0 (some e) own)

  unfoldable pub after_ensure :
      Running
      → List Spec
      → Option LoadResult
      → Generated
      → Outcome (Map NodeHealth)
      → Option Running
  unfolding xray_failed finish_xray
  after_ensure s specs res g panicked = none
  after_ensure s specs res g (failed e) =
      xray_failed s (length specs) e (record (fallback_details e) { xray_relaxed_hash = g.hash })
        (record (details_of (bytes "xray")) { xray_relaxed_hash = g.hash })
  after_ensure s specs res g (done hr) = some (finish_xray cfg rd s specs res g hr)

  unfoldable pub after_start :
      Running → List Spec → Option LoadResult → Generated → Option Text → Option Running
  unfolding xray_failed after_ensure
  after_start s specs res g none = after_ensure s specs res g rd.metrics
  after_start s specs res g (some e) =
      xray_failed s (length specs) e
        (record (fallback_details e) {
          nodes_total = length specs;
          problems_count = problems_count res;
          xray_relaxed_hash = g.hash;
        })
        (record (details_of (bytes "xray")) { xray_relaxed_hash = g.hash })

  unfoldable pub after_generate :
      Running → List Spec → Option LoadResult → Outcome Generated → Option Running
  unfolding xray_failed make_skipped ensure ready_or after_start
  after_generate s specs res panicked = none
  after_generate s specs res (failed e) =
      xray_failed (make_skipped s res).1 (length specs) e
        (record (fallback_details e) {
          nodes_total = length specs;
          problems_count = problems_count res;
          skipped_by_type = (make_skipped s res).0;
        })
        (details_of (bytes "xray"))
  after_generate s specs res (done g) =
      let ensured = ensure rd.attempt g.config_json g.hash s.xray in
      after_start (record s { xray = ensured.1 }) specs res g (ready_or rd.ensure_error ensured.0)

  unfoldable pub after_load : Running → Outcome (List Spec × Option LoadResult) → Option Running
  unfolding xray_failed generated_or generate generate_options after_generate
  after_load s panicked = none
  after_load s (failed e) = xray_failed s 0 e (fallback_details e) (details_of (bytes "xray"))
  after_load s (done (specs, res)) =
      after_generate s specs res
        (generated_or rd.generate_error (generate sum256 marshal specs (generate_options cfg)))

  -- `runOnceXray`; `none` is a panic.
  unfoldable pub run_xray : Running → Option Running
  unfolding load_upstream_specs after_load
  run_xray s = after_load s (load_upstream_specs sum256 cfg rd.first)

  abbrev pub clear_updating : Option Running → Option Running
  clear_updating none = none
  clear_updating (some s) = some (record s { pool = updating_clear s.pool })

  -- `runOnce`, with the flag set.
  unfoldable pub run_round : Running → Option Running
  unfolding set_start run_xray run_legacy
  run_round s =
      let begun : Running = record s { status = set_start s.status rd.started_at } in
      let by_xray = run_xray begun in
      let by_lists = run_legacy sum256 cfg rd begun (details_of (bytes "legacy")) in
      if cfg.xray.enabled then by_xray else by_lists

  -- `runOnce`
  unfoldable pub run_once : Running → Option Running
  unfolding updating_cas updating_clear run_round
  run_once s =
      let round = clear_updating (run_round (record s { pool = (updating_cas s.pool).1 })) in
      if (updating_cas s.pool).0 then round else some s
