-- ===== src/Tests/Updates.antt =====
-- The theorems on internal/orchestrator/updater.go at a concrete round.
use mathlib.Core.List.Permᴰ
use easy_proxy_pool.Prelude.{
  ℕ, ◌≡◌, refl, true, false, ◌&&◌, ◌==◌, if◌then◌else◌, Option, none, some, [], ◌∷◌, map,
}
use easy_proxy_pool.Prelude.Text.{Text, bytes, contains, trim_space, has_prefix}
use easy_proxy_pool.Prelude.HostPort.{has_byte}
use easy_proxy_pool.Prelude.Value.{Value}
use easy_proxy_pool.Prelude.Outcome.{done, Returns, failed}
use easy_proxy_pool.Config.{Config}
use easy_proxy_pool.Fetcher.Merge.{Distinct}
use easy_proxy_pool.Status.{new_status}
use easy_proxy_pool.Upstream.{empty_spec, type_socks5, normalize}
use easy_proxy_pool.Sources.{server_addr}
use easy_proxy_pool.Sources.Known.{IsUsual}
use easy_proxy_pool.Clash.{parse_yaml}
use easy_proxy_pool.Xray.Generate.Nodes.{is_some}
use easy_proxy_pool.Xray.Process.{new_instance}
use easy_proxy_pool.Updater.{
  Inputs, Round, Running, details_of, load_upstream_specs, load_socks5_upstreams,
  socks5_spec_from_addr, run_legacy,
}
use easy_proxy_pool.Updater.Run.{run_once}
use easy_proxy_pool.Updater.Rounds.{IsOnce, run_once-IsOnce}
use easy_proxy_pool.Updater.Legacy.{addr_of_entry, run_legacy-contains}
use easy_proxy_pool.Updater.Specs.{AllSupported, load_upstream_specs-AllSupported}
use easy_proxy_pool.Updater.Addr.{socks5_spec_from_addr-server_addr, socks5_spec_from_addr-ipv6}
use easy_proxy_pool.Tests.Configs.{bare}
use easy_proxy_pool.Tests.Nodes.{sum256, node, world, decoding, listed}

abbrev marshal : Value → Option Text
marshal v = some []

abbrev inputs : Inputs
inputs = record { world = world; lists = some (bytes "a:1" ∷ bytes "b:2" ∷ []) ∷ [] }

-- The first address passes the health check.
abbrev check : Text → Option ℕ
check [] = none
check (c ∷ addr) = if c == b'a' then some 5 else none

abbrev round : Round
round = record {
  first = inputs;
  second = inputs;
  attempt = record {
    old_kill_fails = true;
    makes_dir = true;
    writes_file = true;
    starts = false;
    probes = [];
    new_kill_fails = false;
  };
  metrics = failed (bytes "refused");
  check = check;
  arrive = λ results. results;
  started_at = 1;
  checked_at = 2;
  ended_at = 3;
  generate_error = λ g. bytes "generate";
  ensure_error = λ e. bytes "ensure";
}

abbrev running : Running
running = record {
  pool = record { entries = []; index = []; rr = 0; updating = 0 };
  status = new_status;
  store = record {
    counts = record { next = 0; cells = λ r. [] };
    health = record { next = 0; cells = λ r. [] };
  };
  xray = new_instance;
}

-- Xray does not start, and the lists are used.
abbrev with_xray : Config
with_xray = record bare { xray = record bare.xray { enabled = true } }

run_once-IsOnce_example :
    IsOnce with_xray round sum256 marshal
      (λ results. Permᴰ.refl results)
      0
      running
      (run_once sum256 marshal with_xray round running)
run_once-IsOnce_example =
    run_once-IsOnce with_xray round sum256 marshal (λ results. Permᴰ.refl results) running

run_legacy-contains_example :
    (t : Running) × (run_legacy sum256 bare round running (details_of (bytes "legacy")) ≡ some t)
    × ((a : Text)
        → contains (map addr_of_entry t.pool.entries) a
          ≡ (contains (bytes "a:1" ∷ bytes "b:2" ∷ []) a && is_some (check a)))
    × Distinct (map addr_of_entry t.pool.entries)
unfolding load_socks5_upstreams
run_legacy-contains_example =
    run_legacy-contains sum256 bare round running (details_of (bytes "legacy"))
      (bytes "a:1" ∷ bytes "b:2" ∷ []) (bytes "a:1") 5 (λ results. Permᴰ.refl results) refl refl
      refl

socks5_spec_from_addr-server_addr_example :
    socks5_spec_from_addr sum256 (server_addr (node (bytes "a")))
    ≡ normalize sum256 (record empty_spec { kind = type_socks5; server = bytes "a"; port = 1080 })
unfolding has_byte has_prefix server_addr trim_space
socks5_spec_from_addr-server_addr_example =
    socks5_spec_from_addr-server_addr sum256 (node (bytes "a"))
      (record { no_colon = refl; no_open = refl; no_close = refl }) refl refl refl

socks5_spec_from_addr-ipv6_example :
    socks5_spec_from_addr sum256 (server_addr (node (bytes "1::2"))) ≡ none
unfolding has_byte has_prefix server_addr trim_space
socks5_spec_from_addr-ipv6_example =
    socks5_spec_from_addr-ipv6 sum256 (node (bytes "1::2")) b'1' (bytes "::2") refl refl refl refl
      refl refl

-- The typed sources, with a document that the parser reads.
abbrev parsed : Inputs
parsed = record inputs {
  world = record world { fetch_bytes = λ url. done []; parse_yaml = parse_yaml decoding sum256 };
}

abbrev with_sources : Config
with_sources = record bare { sources = listed }

abbrev usual : IsUsual sum256 decoding parsed.world
usual = record {
  parser = λ text. refl;
  decodes = λ text. tt;
  fetches = λ url. tt;
  reads = λ path. tt;
  scans = λ path. tt;
}

load_upstream_specs-AllSupported_example :
    Returns AllSupported (load_upstream_specs sum256 with_sources parsed)
load_upstream_specs-AllSupported_example =
    load_upstream_specs-AllSupported sum256 decoding with_sources parsed usual
