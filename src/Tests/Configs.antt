-- ===== src/Tests/Configs.antt =====
-- The theorems on internal/config/config.go at a concrete configuration.
use easy_proxy_pool.Prelude.{refl, false, Option, none, some, [], ◌∷◌}
use easy_proxy_pool.Prelude.Text.{Text, bytes, is_blank, to_lower}
use easy_proxy_pool.Config.{Config, apply_defaults, validate, unless, load}
use easy_proxy_pool.Config.Validation.{IsLoaded, load-IsLoaded}

-- What an empty file with one URL gives.
abbrev pub bare : Config
bare = record {
  proxy_list_urls = bytes "http://a" ∷ [];
  health_check_concurrency = 0;
  update_interval_minutes = 0;
  sources = [];
  health_check = record {
    total_timeout_seconds = 0;
    tls_handshake_threshold_seconds = 0;
    target_address = [];
    target_server_name = [];
  };
  ports = record { socks5_strict = []; socks5_relaxed = []; http_strict = []; http_relaxed = [] };
  log_level = [];
  auth = record { mode = []; username = []; password = [] };
  admin = record {
    enabled = false;
    addr = [];
    auth = record {
      mode = [];
      username = [];
      password = [];
      token = [];
      allow_unauthenticated_healthz = none;
    };
    ui_enabled = none;
    log_buffer_lines = none;
    sse_max_clients = 0;
    sse_heartbeat_seconds = none;
  };
  selection = record {
    strategy = [];
    retries = 0;
    failure_backoff_seconds = 0;
    max_backoff_seconds = 0;
    retry_non_idempotent = false;
    sticky = record { enabled = false; header_override = none; failover = [] };
  };
  xray = record {
    enabled = false;
    binary_path = [];
    work_dir = [];
    socks_listen_strict = [];
    socks_listen_relaxed = [];
    metrics_listen_strict = [];
    metrics_listen_relaxed = [];
    user_password = [];
    observatory = record {
      mode = [];
      destination = [];
      connectivity = [];
      interval_seconds = 0;
      sampling = 0;
      timeout_seconds = 0;
    };
    max_nodes = 0;
    start_timeout_seconds = 0;
    fallback_to_legacy_on_error = none;
  };
}

abbrev unmarshal : Text → Option Config
unmarshal file = some bare

load-IsLoaded_example : IsLoaded (apply_defaults bare)
unfolding load apply_defaults validate unless is_blank to_lower
load-IsLoaded_example = load-IsLoaded unmarshal (some []) (apply_defaults bare) refl
