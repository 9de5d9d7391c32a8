-- ===== src/Config/Defaults.antt =====
-- `applyDefaults` of config.go: what it leaves in a configuration.
use easy_proxy_pool.Prelude.{
  ℕ, ◌≡◌, refl, inl, inr, Bool, true, false, Option, none, some, [], ◌∷◌, if◌then◌else◌, arith,
  Bool-cases,
}
use easy_proxy_pool.Prelude.Text.{Text, bytes, is_blank, text_eq}
use easy_proxy_pool.Prelude.Word.{positive, negative}
use easy_proxy_pool.Config.{
  HealthCheckConfig, PortsConfig, AdminConfig, AuthConfig, SelectionConfig, XrayConfig, Config,
  or_positive, or_text, or_value, health_check_defaults, ports_defaults, admin_defaults,
  auth_defaults, selection_defaults, xray_defaults, apply_defaults,
}

pub positive-or : (v d : ℕ) → positive d ≡ true → positive (or_positive v d) ≡ true
positive-or v d h = elim (Bool-cases (positive v)) [ inl p ↦ rw p p | inr n ↦ rw n h ]

or_positive-twice :
    (v d : ℕ) → positive d ≡ true → or_positive (or_positive v d) d ≡ or_positive v d
or_positive-twice v d h = rw (positive-or v d h)

or_text-twice : (t d : Text) → or_text (or_text t d) d ≡ or_text t d
unfolding or_text
or_text-twice [] [] = refl
or_text-twice [] (c ∷ d) = refl
or_text-twice (c ∷ t) d = refl

or_value-twice {ℓ} : {A : Type ℓ} (o : Option A) (d : A) → or_value (or_value o d) d ≡ or_value o d
unfolding or_value
or_value-twice none d = refl
or_value-twice (some a) d = refl

health_check_defaults-twice :
    (h : HealthCheckConfig)
    → health_check_defaults (health_check_defaults h) ≡ health_check_defaults h
unfolding health_check_defaults
health_check_defaults-twice h = λ i. record {
  total_timeout_seconds = or_positive-twice h.total_timeout_seconds 8 refl i;
  tls_handshake_threshold_seconds = or_positive-twice h.tls_handshake_threshold_seconds 5 refl i;
  target_address = or_text-twice h.target_address (bytes "www.google.com:443") i;
  target_server_name = or_text-twice h.target_server_name (bytes "www.google.com") i;
}

ports_defaults-twice : (p : PortsConfig) → ports_defaults (ports_defaults p) ≡ ports_defaults p
unfolding ports_defaults
ports_defaults-twice p = λ i. record p {
  socks5_relaxed = or_text-twice p.socks5_relaxed (bytes ":17283") i;
  http_relaxed = or_text-twice p.http_relaxed (bytes ":17285") i;
}

admin_defaults-twice : (a : AdminConfig) → admin_defaults (admin_defaults a) ≡ admin_defaults a
unfolding admin_defaults
admin_defaults-twice a = λ i. record a {
  addr = or_text-twice a.addr (bytes "127.0.0.1:17287") i;
  ui_enabled = or_value-twice a.ui_enabled true i;
  log_buffer_lines = or_value-twice a.log_buffer_lines 2000 i;
  sse_max_clients = or_positive-twice a.sse_max_clients 10 refl i;
  sse_heartbeat_seconds = or_value-twice a.sse_heartbeat_seconds 10 i;
  auth = record (a.auth) {
    mode = or_text-twice a.auth.mode (bytes "disabled") i;
    allow_unauthenticated_healthz = or_value-twice a.auth.allow_unauthenticated_healthz true i;
  };
}

auth_defaults-twice : (a : AuthConfig) → auth_defaults (auth_defaults a) ≡ auth_defaults a
unfolding auth_defaults
auth_defaults-twice a = λ i. record a {
  mode = or_text-twice a.mode (if is_blank a.username then bytes "disabled" else bytes "basic") i;
}

retries-twice :
    (v : ℕ)
    → (if negative (if negative v then 0 else v) then 0 else if negative v then 0 else v)
      ≡ (if negative v then 0 else v)
retries-twice v = ground arith

selection_defaults-twice :
    (s : SelectionConfig) → selection_defaults (selection_defaults s) ≡ selection_defaults s
unfolding selection_defaults
selection_defaults-twice s = λ i. record s {
  strategy = or_text-twice s.strategy (bytes "round_robin") i;
  retries = retries-twice s.retries i;
  failure_backoff_seconds = or_positive-twice s.failure_backoff_seconds 30 refl i;
  max_backoff_seconds = or_positive-twice s.max_backoff_seconds 600 refl i;
  sticky = record (s.sticky) {
    header_override = or_value-twice s.sticky.header_override true i;
    failover = or_text-twice s.sticky.failover (bytes "soft") i;
  };
}

xray_defaults-twice : (x : XrayConfig) → xray_defaults (xray_defaults x) ≡ xray_defaults x
unfolding xray_defaults
xray_defaults-twice x = λ i. record x {
  work_dir = or_text-twice x.work_dir (bytes ".easyproxypool/xray") i;
  socks_listen_relaxed = or_text-twice x.socks_listen_relaxed (bytes "127.0.0.1:17383") i;
  metrics_listen_relaxed = or_text-twice x.metrics_listen_relaxed (bytes "127.0.0.1:17387") i;
  user_password = or_text-twice x.user_password (bytes "easyproxypool") i;
  observatory = record (x.observatory) {
    mode = or_text-twice x.observatory.mode (bytes "burst") i;
    destination =
        or_text-twice x.observatory.destination (bytes "https://www.gstatic.com/generate_204") i;
    interval_seconds = or_positive-twice x.observatory.interval_seconds 30 refl i;
    sampling = or_positive-twice x.observatory.sampling 5 refl i;
    timeout_seconds = or_positive-twice x.observatory.timeout_seconds 5 refl i;
  };
  max_nodes = or_positive-twice x.max_nodes 2000 refl i;
  start_timeout_seconds = or_positive-twice x.start_timeout_seconds 10 refl i;
  fallback_to_legacy_on_error = or_value-twice x.fallback_to_legacy_on_error true i;
}

-- Filling in the defaults a second time changes nothing.
pub apply_defaults-twice : (c : Config) → apply_defaults (apply_defaults c) ≡ apply_defaults c
unfolding apply_defaults
apply_defaults-twice c = λ i. record c {
  health_check_concurrency = or_positive-twice c.health_check_concurrency 200 refl i;
  update_interval_minutes = or_positive-twice c.update_interval_minutes 5 refl i;
  health_check = health_check_defaults-twice c.health_check i;
  ports = ports_defaults-twice c.ports i;
  log_level = or_text-twice c.log_level (bytes "info") i;
  admin = admin_defaults-twice c.admin i;
  auth = auth_defaults-twice c.auth i;
  selection = selection_defaults-twice c.selection i;
  xray = xray_defaults-twice c.xray i;
}

-- Whether an optional setting is set.
pub has_value {ℓ} : {A : Type ℓ} → Option A → Bool
has_value none = false
has_value (some a) = true

-- What every configuration has once the defaults are filled in.
pub record IsComplete (c : Config) : Type 0 where
  pub concurrency : positive c.health_check_concurrency ≡ true
  pub interval : positive c.update_interval_minutes ≡ true
  pub total_timeout : positive c.health_check.total_timeout_seconds ≡ true
  pub threshold : positive c.health_check.tls_handshake_threshold_seconds ≡ true
  pub sse_clients : positive c.admin.sse_max_clients ≡ true
  pub retries : negative c.selection.retries ≡ false
  pub failure_backoff : positive c.selection.failure_backoff_seconds ≡ true
  pub max_backoff : positive c.selection.max_backoff_seconds ≡ true
  pub max_nodes : positive c.xray.max_nodes ≡ true
  pub start_timeout : positive c.xray.start_timeout_seconds ≡ true
  pub socks_listen : text_eq c.xray.socks_listen_relaxed [] ≡ false
  pub metrics_listen : text_eq c.xray.metrics_listen_relaxed [] ≡ false
  pub user_password : text_eq c.xray.user_password [] ≡ false
  pub destination : text_eq c.xray.observatory.destination [] ≡ false
  pub observatory_interval : positive c.xray.observatory.interval_seconds ≡ true
  pub observatory_sampling : positive c.xray.observatory.sampling ≡ true
  pub observatory_timeout : positive c.xray.observatory.timeout_seconds ≡ true
  pub observatory_mode : text_eq c.xray.observatory.mode [] ≡ false
  pub work_dir : text_eq c.xray.work_dir [] ≡ false
  pub fallback : has_value c.xray.fallback_to_legacy_on_error ≡ true
  pub target_address : text_eq c.health_check.target_address [] ≡ false
  pub target_server_name : text_eq c.health_check.target_server_name [] ≡ false
  pub socks5_relaxed : text_eq c.ports.socks5_relaxed [] ≡ false
  pub http_relaxed : text_eq c.ports.http_relaxed [] ≡ false
  pub log_level : text_eq c.log_level [] ≡ false
  pub admin_addr : text_eq c.admin.addr [] ≡ false
  pub ui_enabled : has_value c.admin.ui_enabled ≡ true
  pub log_buffer_lines : has_value c.admin.log_buffer_lines ≡ true
  pub sse_heartbeat : has_value c.admin.sse_heartbeat_seconds ≡ true
  pub admin_mode : text_eq c.admin.auth.mode [] ≡ false
  pub healthz : has_value c.admin.auth.allow_unauthenticated_healthz ≡ true
  pub auth_mode : text_eq c.auth.mode [] ≡ false
  pub strategy : text_eq c.selection.strategy [] ≡ false
  pub header_override : has_value c.selection.sticky.header_override ≡ true
  pub failover : text_eq c.selection.sticky.failover [] ≡ false

or_value-set {ℓ} : {A : Type ℓ} (o : Option A) (d : A) → has_value (or_value o d) ≡ true
unfolding or_value has_value
or_value-set none d = refl
or_value-set (some a) d = refl

or_text-set : (t d : Text) → text_eq d [] ≡ false → text_eq (or_text t d) [] ≡ false
unfolding or_text text_eq
or_text-set [] d h = h
or_text-set (c ∷ t) d h = refl

-- Once the defaults are filled in, every number that has a default is positive or, for the retries, not
-- negative, every text that has one is not empty, and every optional setting is set.
pub apply_defaults-IsComplete : (c : Config) → IsComplete (apply_defaults c)
unfolding apply_defaults text_eq
apply_defaults-IsComplete c = record {
  concurrency = positive-or c.health_check_concurrency 200 refl;
  interval = positive-or c.update_interval_minutes 5 refl;
  total_timeout = positive-or c.health_check.total_timeout_seconds 8 refl;
  threshold = positive-or c.health_check.tls_handshake_threshold_seconds 5 refl;
  sse_clients = positive-or c.admin.sse_max_clients 10 refl;
  retries = ground arith;
  failure_backoff = positive-or c.selection.failure_backoff_seconds 30 refl;
  max_backoff = positive-or c.selection.max_backoff_seconds 600 refl;
  max_nodes = positive-or c.xray.max_nodes 2000 refl;
  start_timeout = positive-or c.xray.start_timeout_seconds 10 refl;
  socks_listen = or_text-set c.xray.socks_listen_relaxed (bytes "127.0.0.1:17383") refl;
  metrics_listen = or_text-set c.xray.metrics_listen_relaxed (bytes "127.0.0.1:17387") refl;
  user_password = or_text-set c.xray.user_password (bytes "easyproxypool") refl;
  destination =
      or_text-set c.xray.observatory.destination (bytes "https://www.gstatic.com/generate_204")
        refl;
  observatory_interval = positive-or c.xray.observatory.interval_seconds 30 refl;
  observatory_sampling = positive-or c.xray.observatory.sampling 5 refl;
  observatory_timeout = positive-or c.xray.observatory.timeout_seconds 5 refl;
  observatory_mode = or_text-set c.xray.observatory.mode (bytes "burst") refl;
  work_dir = or_text-set c.xray.work_dir (bytes ".easyproxypool/xray") refl;
  fallback = or_value-set c.xray.fallback_to_legacy_on_error true;
  target_address = or_text-set c.health_check.target_address (bytes "www.google.com:443") refl;
  target_server_name = or_text-set c.health_check.target_server_name (bytes "www.google.com") refl;
  socks5_relaxed = or_text-set c.ports.socks5_relaxed (bytes ":17283") refl;
  http_relaxed = or_text-set c.ports.http_relaxed (bytes ":17285") refl;
  log_level = or_text-set c.log_level (bytes "info") refl;
  admin_addr = or_text-set c.admin.addr (bytes "127.0.0.1:17287") refl;
  ui_enabled = or_value-set c.admin.ui_enabled true;
  log_buffer_lines = or_value-set c.admin.log_buffer_lines 2000;
  sse_heartbeat = or_value-set c.admin.sse_heartbeat_seconds 10;
  admin_mode = or_text-set c.admin.auth.mode (bytes "disabled") refl;
  healthz = or_value-set c.admin.auth.allow_unauthenticated_healthz true;
  auth_mode =
      or_text-set c.auth.mode (if is_blank c.auth.username then bytes "disabled" else bytes "basic")
        (mode-set (is_blank c.auth.username));
  strategy = or_text-set c.selection.strategy (bytes "round_robin") refl;
  header_override = or_value-set c.selection.sticky.header_override true;
  failover = or_text-set c.selection.sticky.failover (bytes "soft") refl;
}
  where
    mode-set : (b : Bool) → text_eq (if b then bytes "disabled" else bytes "basic") [] ≡ false
    mode-set true = refl
    mode-set false = refl
