-- ===== src/Config/Validation.antt =====
-- `validate` and `Load` of config.go: which configurations the program starts with.
use easy_proxy_pool.Prelude.{
  ◌≡◌, inl, inr, Bool, true, false, ◌&&◌, not, Option, none, some, [], ◌∷◌, arith, length, ◌==◌,
  Option-cases, subst,
}
use easy_proxy_pool.Prelude.Text.{Text, bytes, is_blank, text_eq, contains, trim_space, to_lower}
use easy_proxy_pool.Prelude.Word.{positive}
use easy_proxy_pool.Config.{
  AuthConfig, AdminConfig, XrayConfig, Config, ConfigError, unless, negative_value, validate_auth,
  validate_admin, validate_xray, validate, apply_defaults, ok, err, load, no_binary,
  no_socks_listen, no_metrics_listen, no_user_password, bad_observatory, no_destination,
  bad_max_nodes,
}
use easy_proxy_pool.Config.Defaults.{IsComplete, apply_defaults-IsComplete}

-- A ladder of checks passes exactly if each check does.
unless-none :
    (b : Bool) (e : ConfigError) (rest : Option ConfigError)
    → unless b e rest ≡ none
    → (b ≡ false) × (rest ≡ none)
unfolding unless
unless-none b e rest h = ground arith

not-false : (b : Bool) → not b ≡ false → b ≡ true
not-false b h = ground arith

and_false : (a b : Bool) → (a && b) ≡ false → a ≡ true → b ≡ false
and_false a b h p = ground arith

-- What the check of the proxy authentication lets through.
pub record IsAuth (a : AuthConfig) : Type 0 where
  pub mode :
      contains (bytes "disabled" ∷ bytes "basic" ∷ bytes "shared_password" ∷ []) a.mode ≡ true
  pub username : text_eq a.mode (bytes "basic") ≡ true → is_blank a.username ≡ false
  pub password : text_eq a.mode (bytes "shared_password") ≡ true → is_blank a.password ≡ false

validate_auth-none :
    (a : AuthConfig) (rest : Option ConfigError)
    → validate_auth a rest ≡ none
    → IsAuth a × (rest ≡ none)
unfolding validate_auth
validate_auth-none a rest h =
    let (m, h₁) = unless-none _ _ _ h in
    let (u, h₂) = unless-none _ _ _ h₁ in
    let (p, h₃) = unless-none _ _ _ h₂ in
    (record { mode = not-false _ m; username = and_false _ _ u; password = and_false _ _ p }, h₃)

abbrev pub admin_mode : AdminConfig → Text
admin_mode a = to_lower (trim_space a.auth.mode)

-- What the check of the admin server's configuration lets through.
pub record IsAdmin (a : AdminConfig) : Type 0 where
  pub mode :
      contains ([] ∷ bytes "disabled" ∷ bytes "basic" ∷ bytes "shared_token" ∷ []) (admin_mode a)
      ≡ true
  pub username : text_eq (admin_mode a) (bytes "basic") ≡ true → is_blank a.auth.username ≡ false
  pub password : text_eq (admin_mode a) (bytes "basic") ≡ true → is_blank a.auth.password ≡ false
  pub token : text_eq (admin_mode a) (bytes "shared_token") ≡ true → is_blank a.auth.token ≡ false
  pub log_lines : negative_value a.log_buffer_lines ≡ false
  pub heartbeat : negative_value a.sse_heartbeat_seconds ≡ false

validate_admin-none :
    (a : AdminConfig) (rest : Option ConfigError)
    → validate_admin a rest ≡ none
    → IsAdmin a × (rest ≡ none)
unfolding validate_admin
validate_admin-none a rest h =
    let (m, h₁) = unless-none _ _ _ h in
    let (u, h₂) = unless-none _ _ _ h₁ in
    let (p, h₃) = unless-none _ _ _ h₂ in
    let (t, h₄) = unless-none _ _ _ h₃ in
    let (l, h₅) = unless-none _ _ _ h₄ in
    let (_, h₆) = unless-none _ _ _ h₅ in
    let (b, h₇) = unless-none _ _ _ h₆ in
    (
      record {
        mode = not-false _ m;
        username = and_false _ _ u;
        password = and_false _ _ p;
        token = and_false _ _ t;
        log_lines = l;
        heartbeat = b;
      },
      h₇,
    )

-- What the check of the xray adapter's configuration lets through.
pub record IsXray (x : XrayConfig) : Type 0 where
  pub binary : x.enabled ≡ true → text_eq x.binary_path [] ≡ false
  pub observatory :
      x.enabled ≡ true
      → contains (bytes "burst" ∷ bytes "observatory" ∷ []) x.observatory.mode ≡ true

validate_xray-none : (x : XrayConfig) → validate_xray x ≡ none → IsXray x
unfolding validate_xray
validate_xray-none x h = record {
  binary = λ e. (checks (rw (e, validate_xray) at h)).0;
  observatory = λ e. (checks (rw (e, validate_xray) at h)).1;
}
  where
    checks :
        unless (text_eq x.binary_path []) no_binary (
            unless (text_eq x.socks_listen_relaxed []) no_socks_listen (
              unless (text_eq x.metrics_listen_relaxed []) no_metrics_listen (
                unless (text_eq x.user_password []) no_user_password (
                  unless
                    (not (contains (bytes "burst" ∷ bytes "observatory" ∷ []) x.observatory.mode))
                    bad_observatory
                    (unless
                      (text_eq x.observatory.destination [])
                      no_destination
                      (unless (not (positive x.max_nodes)) bad_max_nodes none))))))
          ≡ none
        → (text_eq x.binary_path [] ≡ false)
          × (contains (bytes "burst" ∷ bytes "observatory" ∷ []) x.observatory.mode ≡ true)
    checks g =
        let (b, g₁) = unless-none _ _ _ g in
        let (_, g₂) = unless-none _ _ _ g₁ in
        let (_, g₃) = unless-none _ _ _ g₂ in
        let (_, g₄) = unless-none _ _ _ g₃ in
        let (o, _) = unless-none _ _ _ g₄ in (b, not-false _ o)

-- What the program can rely on when it has loaded its configuration.
pub record IsLoaded (c : Config) : Type 0 where
  pub complete : IsComplete c
  pub sourced : (length c.proxy_list_urls == 0 && length c.sources == 0) ≡ false
  pub auth : IsAuth c.auth
  pub admin : IsAdmin c.admin
  pub strategy : contains (bytes "round_robin" ∷ bytes "random" ∷ []) c.selection.strategy ≡ true
  pub failover : contains (bytes "soft" ∷ bytes "hard" ∷ []) c.selection.sticky.failover ≡ true
  pub xray : IsXray c.xray

validate-IsLoaded : (c : Config) → IsComplete c → validate c ≡ none → IsLoaded c
unfolding validate
validate-IsLoaded c complete h =
    let (s, h₁) = unless-none _ _ _ h in
    let (_, h₂) = unless-none _ _ _ h₁ in
    let (_, h₃) = unless-none _ _ _ h₂ in
    let (a, h₄) = validate_auth-none _ _ h₃ in
    let (d, h₅) = validate_admin-none _ _ h₄ in
    let (t, h₆) = unless-none _ _ _ h₅ in
    let (f, h₇) = unless-none _ _ _ h₆ in
    record {
      complete = complete;
      sourced = s;
      auth = a;
      admin = d;
      strategy = not-false _ t;
      failover = not-false _ f;
      xray = validate_xray-none _ h₇;
    }

-- A configuration that `Load` returns names a source, has every number in range, and for each mode
-- that it uses the credentials, lists and addresses that the mode needs.
pub load-IsLoaded :
    (unmarshal : Text → Option Config) (file : Option Text) (c : Config)
    → load unmarshal file ≡ ok c
    → IsLoaded c
unfolding load
load-IsLoaded unmarshal none c h = absurd (cc)
load-IsLoaded unmarshal (some text) c h = elim (Option-cases (unmarshal text)) [
  | inl e ↦ absurd (bad (rw (e, load) at h))
  | inr (c', e) ↦ elim (Option-cases (validate (apply_defaults c'))) [
    | inl v ↦
        subst IsLoaded (unwrap (rw (e, v, load) at h))
          (validate-IsLoaded (apply_defaults c') (apply_defaults-IsComplete c') v)
    | inr (x, v) ↦ absurd (bad' (rw (e, v, load) at h))
  ]
]
  where
    bad : err ConfigError.parse_failed ≡ ok c → ⊥
    bad q = cc

    bad' : {x : ConfigError} → err x ≡ ok c → ⊥
    bad' q = cc

    unwrap : {d : Config} → ok d ≡ ok c → d ≡ c
    unwrap q = cc
