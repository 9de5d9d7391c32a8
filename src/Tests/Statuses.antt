-- ===== src/Tests/Statuses.antt =====
-- The theorems on internal/orchestrator/status.go at a concrete status.
use easy_proxy_pool.Prelude.{ℕ, ◌≡◌, false, some, [], ◌∷◌, arith}
use easy_proxy_pool.Prelude.Text.{Text, bytes}
use easy_proxy_pool.Status.{write_map, NodeHealth, UpdateDetails, Status, Store, snapshot}
use easy_proxy_pool.Status.Isolation.{read_map, snapshot-isolated}

-- One map of each kind.
abbrev store : Store
store = record {
  counts = record { next = 1; cells = λ r. (bytes "ssr", 2) ∷ [] };
  health = record { next = 1; cells = λ r. [] };
}

abbrev details : UpdateDetails
details = record {
  adapter = bytes "xray";
  nodes_total = 3;
  nodes_included = 1;
  problems_count = 0;
  skipped_by_type = some 0;
  xray_relaxed_hash = [];
  fallback_used = false;
  fallback_err = [];
}

abbrev status : Status
status = record {
  last_update_start = 0;
  last_update_end = 0;
  last_update_err = [];
  last_fetched = 0;
  last_pool = 0;
  last_details = details;
  last_node_health_relaxed_at = 0;
  last_node_health_relaxed = some 0;
}

snapshot-isolated_example :
    let (snap, st) = snapshot store status in
    (read_map st.counts snap.last_details.skipped_by_type ≡ some ((bytes "ssr", 2) ∷ []))
    × (read_map st.health snap.last_node_health_relaxed ≡ some [])
    × ((r : ℕ) (k : Text) (v : ℕ)
        → snap.last_details.skipped_by_type ≡ some r
        → read_map (write_map st.counts r k v) (some 0) ≡ some ((bytes "ssr", 2) ∷ []))
    × ((r : ℕ) (k : Text) (v : NodeHealth)
        → snap.last_node_health_relaxed ≡ some r
        → read_map (write_map st.health r k v) (some 0) ≡ some [])
snapshot-isolated_example = snapshot-isolated store status (ground arith) (ground arith)
