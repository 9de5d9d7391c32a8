-- ===== src/Config.antt =====
-- internal/config/config.go: the configuration, its defaults and its validation. An int is a 64-bit
-- word, a pointer to a value an option, and an error of `validate` a constructor of `ConfigError`.
pub mod Defaults
pub mod Validation
use easy_proxy_pool.Prelude.{
  ℕ, zero, suc, Bool, true, false, ◌&&◌, ◌||◌, not, Option, none, some, List, [], ◌∷◌,
  if◌then◌else◌, leb, ◌==◌, length,
}
use easy_proxy_pool.Prelude.Text.{Text, bytes, is_blank, text_eq, trim_space, to_lower, contains}
use easy_proxy_pool.Prelude.Word.{positive, negative}

pub record SourceConfig : Type 0 where
  pub kind : Text
  pub url : Text
  pub path : Text

pub record HealthCheckConfig : Type 0 where
  pub total_timeout_seconds : ℕ
  pub tls_handshake_threshold_seconds : ℕ
  pub target_address : Text
  pub target_server_name : Text

pub record PortsConfig : Type 0 where
  pub socks5_strict : Text
  pub socks5_relaxed : Text
  pub http_strict : Text
  pub http_relaxed : Text

pub record AuthConfig : Type 0 where
  pub mode : Text
  pub username : Text
  pub password : Text

pub record AdminAuthConfig : Type 0 where
  pub mode : Text
  pub username : Text
  pub password : Text
  pub token : Text
  pub allow_unauthenticated_healthz : Option Bool

pub record AdminConfig : Type 0 where
  pub enabled : Bool
  pub addr : Text
  pub auth : AdminAuthConfig
  pub ui_enabled : Option Bool
  pub log_buffer_lines : Option ℕ
  pub sse_max_clients : ℕ
  pub sse_heartbeat_seconds : Option ℕ

pub record StickyConfig : Type 0 where
  pub enabled : Bool
  pub header_override : Option Bool
  pub failover : Text

pub record SelectionConfig : Type 0 where
  pub strategy : Text
  pub retries : ℕ
  pub failure_backoff_seconds : ℕ
  pub max_backoff_seconds : ℕ
  pub retry_non_idempotent : Bool
  pub sticky : StickyConfig

pub record ObservatoryConfig : Type 0 where
  pub mode : Text
  pub destination : Text
  pub connectivity : Text
  pub interval_seconds : ℕ
  pub sampling : ℕ
  pub timeout_seconds : ℕ

pub record XrayConfig : Type 0 where
  pub enabled : Bool
  pub binary_path : Text
  pub work_dir : Text
  pub socks_listen_strict : Text
  pub socks_listen_relaxed : Text
  pub metrics_listen_strict : Text
  pub metrics_listen_relaxed : Text
  pub user_password : Text
  pub observatory : ObservatoryConfig
  pub max_nodes : ℕ
  pub start_timeout_seconds : ℕ
  pub fallback_to_legacy_on_error : Option Bool

pub record Config : Type 0 where
  pub proxy_list_urls : List Text
  pub health_check_concurrency : ℕ
  pub update_interval_minutes : ℕ
  pub sources : List SourceConfig
  pub health_check : HealthCheckConfig
  pub ports : PortsConfig
  pub log_level : Text
  pub auth : AuthConfig
  pub admin : AdminConfig
  pub selection : SelectionConfig
  pub xray : XrayConfig

-- if v <= 0 { v = d }
abbrev pub or_positive : ℕ → ℕ → ℕ
or_positive v d = if positive v then v else d

-- if s == "" { s = d }
unfoldable pub or_text : Text → Text → Text
or_text [] d = d
or_text (c ∷ s) d = c ∷ s

-- if p == nil { p = &d }
unfoldable pub or_value {ℓ} : {A : Type ℓ} → Option A → A → Option A
or_value none d = some d
or_value (some a) d = some a

unfoldable pub health_check_defaults : HealthCheckConfig → HealthCheckConfig
unfolding or_text
health_check_defaults h = record {
  total_timeout_seconds = or_positive h.total_timeout_seconds 8;
  tls_handshake_threshold_seconds = or_positive h.tls_handshake_threshold_seconds 5;
  target_address = or_text h.target_address (bytes "www.google.com:443");
  target_server_name = or_text h.target_server_name (bytes "www.google.com");
}

unfoldable pub ports_defaults : PortsConfig → PortsConfig
unfolding or_text
ports_defaults p = record p {
  socks5_relaxed = or_text p.socks5_relaxed (bytes ":17283");
  http_relaxed = or_text p.http_relaxed (bytes ":17285");
}

unfoldable pub admin_defaults : AdminConfig → AdminConfig
unfolding or_text or_value
admin_defaults a = record a {
  addr = or_text a.addr (bytes "127.0.0.1:17287");
  ui_enabled = or_value a.ui_enabled true;
  log_buffer_lines = or_value a.log_buffer_lines 2000;
  sse_max_clients = or_positive a.sse_max_clients 10;
  sse_heartbeat_seconds = or_value a.sse_heartbeat_seconds 10;
  auth = record (a.auth) {
    mode = or_text a.auth.mode (bytes "disabled");
    allow_unauthenticated_healthz = or_value a.auth.allow_unauthenticated_healthz true;
  };
}

unfoldable pub auth_defaults : AuthConfig → AuthConfig
unfolding or_text
auth_defaults a = record a {
  mode = or_text a.mode (if is_blank a.username then bytes "disabled" else bytes "basic");
}

unfoldable pub selection_defaults : SelectionConfig → SelectionConfig
unfolding or_text or_value
selection_defaults s = record s {
  strategy = or_text s.strategy (bytes "round_robin");
  retries = if negative s.retries then 0 else s.retries;
  failure_backoff_seconds = or_positive s.failure_backoff_seconds 30;
  max_backoff_seconds = or_positive s.max_backoff_seconds 600;
  sticky = record (s.sticky) {
    header_override = or_value s.sticky.header_override true;
    failover = or_text s.sticky.failover (bytes "soft");
  };
}

unfoldable pub xray_defaults : XrayConfig → XrayConfig
unfolding or_text or_value
xray_defaults x = record x {
  work_dir = or_text x.work_dir (bytes ".easyproxypool/xray");
  socks_listen_relaxed = or_text x.socks_listen_relaxed (bytes "127.0.0.1:17383");
  metrics_listen_relaxed = or_text x.metrics_listen_relaxed (bytes "127.0.0.1:17387");
  user_password = or_text x.user_password (bytes "easyproxypool");
  observatory = record (x.observatory) {
    mode = or_text x.observatory.mode (bytes "burst");
    destination = or_text x.observatory.destination (bytes "https://www.gstatic.com/generate_204");
    interval_seconds = or_positive x.observatory.interval_seconds 30;
    sampling = or_positive x.observatory.sampling 5;
    timeout_seconds = or_positive x.observatory.timeout_seconds 5;
  };
  max_nodes = or_positive x.max_nodes 2000;
  start_timeout_seconds = or_positive x.start_timeout_seconds 10;
  fallback_to_legacy_on_error = or_value x.fallback_to_legacy_on_error true;
}

unfoldable pub apply_defaults : Config → Config
unfolding health_check_defaults ports_defaults admin_defaults auth_defaults selection_defaults
    xray_defaults
apply_defaults c = record c {
  health_check_concurrency = or_positive c.health_check_concurrency 200;
  update_interval_minutes = or_positive c.update_interval_minutes 5;
  health_check = health_check_defaults c.health_check;
  ports = ports_defaults c.ports;
  log_level = or_text c.log_level (bytes "info");
  admin = admin_defaults c.admin;
  auth = auth_defaults c.auth;
  selection = selection_defaults c.selection;
  xray = xray_defaults c.xray;
}

-- The errors of `validate`, in the order of their tests, and those of `Load`.
pub data ConfigError : Type 0 where
  no_source bad_concurrency bad_interval bad_auth_mode auth_username auth_password : ConfigError
  bad_admin_mode admin_username admin_password admin_token bad_log_lines bad_sse_clients :
      ConfigError
  bad_heartbeat bad_strategy bad_failover no_binary no_socks_listen no_metrics_listen : ConfigError
  no_user_password bad_observatory no_destination bad_max_nodes read_failed parse_failed :
      ConfigError

-- The result of a check that ends in the next one.
unfoldable pub unless : Bool → ConfigError → Option ConfigError → Option ConfigError
unless bad e rest = if bad then some e else rest

-- A pointer to a number below zero.
unfoldable pub negative_value : Option ℕ → Bool
negative_value none = false
negative_value (some v) = negative v

unfoldable pub validate_auth : AuthConfig → Option ConfigError → Option ConfigError
unfolding contains
validate_auth a rest =
    unless (not (contains (bytes "disabled" ∷ bytes "basic" ∷ bytes "shared_password" ∷ []) a.mode))
      bad_auth_mode
      (unless (text_eq a.mode (bytes "basic") && is_blank a.username) auth_username (
        unless (text_eq a.mode (bytes "shared_password") && is_blank a.password) auth_password
          rest))

unfoldable pub validate_admin : AdminConfig → Option ConfigError → Option ConfigError
unfolding contains negative_value
validate_admin a rest =
    let mode = to_lower (trim_space a.auth.mode) in
    unless (not (contains ([] ∷ bytes "disabled" ∷ bytes "basic" ∷ bytes "shared_token" ∷ []) mode))
      bad_admin_mode
      (unless (text_eq mode (bytes "basic") && is_blank a.auth.username) admin_username (
        unless (text_eq mode (bytes "basic") && is_blank a.auth.password) admin_password (
          unless (text_eq mode (bytes "shared_token") && is_blank a.auth.token) admin_token (
            unless (negative_value a.log_buffer_lines) bad_log_lines (
              unless (not (positive a.sse_max_clients)) bad_sse_clients
                (unless (negative_value a.sse_heartbeat_seconds) bad_heartbeat rest))))))

unfoldable pub validate_xray : XrayConfig → Option ConfigError
unfolding contains
validate_xray x =
    if x.enabled
    then unless (text_eq x.binary_path []) no_binary (
        unless (text_eq x.socks_listen_relaxed []) no_socks_listen (
          unless (text_eq x.metrics_listen_relaxed []) no_metrics_listen (
            unless (text_eq x.user_password []) no_user_password (
              unless (not (contains (bytes "burst" ∷ bytes "observatory" ∷ []) x.observatory.mode))
                bad_observatory
                (unless (text_eq x.observatory.destination []) no_destination
                  (unless (not (positive x.max_nodes)) bad_max_nodes none))))))
    else none

-- validate; `none` is a nil error.
unfoldable pub validate : Config → Option ConfigError
unfolding validate_auth validate_admin validate_xray contains
validate c = unless (length c.proxy_list_urls == 0 && length c.sources == 0) no_source (
    unless (not (positive c.health_check_concurrency)) bad_concurrency (
      unless (not (positive c.update_interval_minutes)) bad_interval (
        validate_auth c.auth (
          validate_admin c.admin (
            unless (not (contains (bytes "round_robin" ∷ bytes "random" ∷ []) c.selection.strategy))
              bad_strategy
              (unless
                (not (contains (bytes "soft" ∷ bytes "hard" ∷ []) c.selection.sticky.failover))
                bad_failover (validate_xray c.xray)))))))

pub data Loaded : Type 0 where
  ok : Config → Loaded
  err : ConfigError → Loaded

-- Load. `file` is what os.ReadFile gives, and `unmarshal` what yaml.Unmarshal makes of it.
unfoldable pub load : (Text → Option Config) → Option Text → Loaded
unfolding apply_defaults validate
load unmarshal none = err read_failed
load unmarshal (some data_read) = elim (unmarshal data_read) [
  | none ↦ err parse_failed
  | some c ↦ elim (validate (apply_defaults c)) [ none ↦ ok (apply_defaults c) | some e ↦ err e ]
]
