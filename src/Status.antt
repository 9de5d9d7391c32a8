-- ===== src/Status.antt =====
-- internal/orchestrator/status.go: what the updater tells the admin server. A Go map is shared by all
-- who hold it, so a map is a reference into a heap here; nil is `none`. Each method holds the lock.
pub mod Isolation
use easy_proxy_pool.Prelude.{ℕ, ◌+◌, ◌==◌, Bool, false, Option, none, some, List, [], if◌then◌else◌}
use easy_proxy_pool.Prelude.Text.{Text}
use easy_proxy_pool.Prelude.Map.{Map, insert}

-- The maps made so far: those with references below `next`.
pub record Heap {ℓ} (V : Type ℓ) : Type ℓ where
  pub next : ℕ
  pub cells : ℕ → Map V

module _ {ℓ} {V : Type ℓ} where
  unfoldable pub make_map : Heap V → Map V → Heap V
  make_map h m = record { next = h.next + 1; cells = λ r. if r == h.next then m else h.cells r }

  -- m[k] = v, of the map that `r` refers to.
  unfoldable pub write_map : Heap V → ℕ → Text → V → Heap V
  unfolding insert
  write_map h r k v = record h { cells = λ q. if q == r then insert (h.cells r) k v else h.cells q }

  -- The reference of a clone, and the heap with it.
  unfoldable pub clone_map : Heap V → Option ℕ → Option ℕ × Heap V
  unfolding make_map
  clone_map h none = (none, h)
  clone_map h (some r) = (some h.next, make_map h (h.cells r))

-- xray.NodeHealth
pub record NodeHealth : Type 0 where
  pub alive : Bool
  pub delay : ℕ
  pub last_seen : ℕ
  pub last_try : ℕ
  pub outbound_tag : Text

pub record UpdateDetails : Type 0 where
  pub adapter : Text
  pub nodes_total : ℕ
  pub nodes_included : ℕ
  pub problems_count : ℕ
  pub skipped_by_type : Option ℕ
  pub xray_relaxed_hash : Text
  pub fallback_used : Bool
  pub fallback_err : Text

pub record Status : Type 0 where
  pub last_update_start : ℕ
  pub last_update_end : ℕ
  pub last_update_err : Text
  pub last_fetched : ℕ
  pub last_pool : ℕ
  pub last_details : UpdateDetails
  pub last_node_health_relaxed_at : ℕ
  pub last_node_health_relaxed : Option ℕ

-- The two kinds of maps.
pub record Store : Type 0 where
  pub counts : Heap ℕ
  pub health : Heap NodeHealth

-- s.LastUpdateErr of an error: its text, or none if it is nil.
abbrev pub error_text : Option Text → Text
error_text none = []
error_text (some text) = text

unfoldable pub new_status : Status
new_status = record {
  last_update_start = 0;
  last_update_end = 0;
  last_update_err = [];
  last_fetched = 0;
  last_pool = 0;
  last_details = record {
    adapter = [];
    nodes_total = 0;
    nodes_included = 0;
    problems_count = 0;
    skipped_by_type = none;
    xray_relaxed_hash = [];
    fallback_used = false;
    fallback_err = [];
  };
  last_node_health_relaxed_at = 0;
  last_node_health_relaxed = none;
}

unfoldable pub clone_details : Heap ℕ → UpdateDetails → UpdateDetails × Heap ℕ
unfolding clone_map
clone_details h d = (
  record d { skipped_by_type = (clone_map h d.skipped_by_type).0 },
  (clone_map h d.skipped_by_type).1,
)

unfoldable pub set_start : Status → ℕ → Status
set_start s t = record s { last_update_start = t }

unfoldable pub set_end : Store → Status → ℕ → ℕ → ℕ → Option Text → UpdateDetails → Status × Store
unfolding clone_details
set_end st s t fetched pool_size err details = (
  record s {
    last_update_end = t;
    last_fetched = fetched;
    last_pool = pool_size;
    last_details = (clone_details st.counts details).0;
    last_update_err = error_text err;
  },
  record st { counts = (clone_details st.counts details).1 },
)

unfoldable pub set_relaxed_node_health : Store → Status → ℕ → Option ℕ → Status × Store
unfolding clone_map
set_relaxed_node_health st s t h = (
  record s {
    last_node_health_relaxed_at = t;
    last_node_health_relaxed = (clone_map st.health h).0;
  },
  record st { health = (clone_map st.health h).1 },
)

unfoldable pub snapshot : Store → Status → Status × Store
unfolding clone_details clone_map
snapshot st s = (
  record s {
    last_details = (clone_details st.counts s.last_details).0;
    last_node_health_relaxed = (clone_map st.health s.last_node_health_relaxed).0;
  },
  record {
    counts = (clone_details st.counts s.last_details).1;
    health = (clone_map st.health s.last_node_health_relaxed).1;
  },
)

unfoldable pub relaxed_node_health_snapshot : Store → Status → (Option ℕ × ℕ) × Store
unfolding clone_map
relaxed_node_health_snapshot st s = (
  ((clone_map st.health s.last_node_health_relaxed).0, s.last_node_health_relaxed_at),
  record st { health = (clone_map st.health s.last_node_health_relaxed).1 },
)
