-- ===== src/Updater.antt =====
-- internal/orchestrator/updater.go: one round of updates, `runOnce`. What the network and the child
-- process do in the round is an argument.
pub mod Run
pub mod Checked
pub mod Rounds
pub mod Legacy
pub mod Specs
pub mod Addr
use easy_proxy_pool.Prelude.{
  ℕ, ◌++◌, ◌&&◌, not, Bool, true, false, Option, none, some, List, [], ◌∷◌, if◌then◌else◌, length,
  drop,
}
use easy_proxy_pool.Prelude.Text.{Text, bytes, trim_space, has_prefix, contains}
use easy_proxy_pool.Prelude.Map.{Map, lookup}
use easy_proxy_pool.Prelude.Word.{positive}
use easy_proxy_pool.Prelude.Decimal.{atoi}
use easy_proxy_pool.Prelude.HostPort.{split_host_port}
use easy_proxy_pool.Prelude.Value.{Value}
use easy_proxy_pool.Prelude.Outcome.{Outcome, done, failed, panicked, and_then}
use easy_proxy_pool.Config.{Config}
use easy_proxy_pool.Pool.{Entry, Pool, updating_cas, updating_clear, update}
use easy_proxy_pool.Status.{
  NodeHealth, UpdateDetails, Status, Store, make_map, set_start, set_end, set_relaxed_node_health,
}
use easy_proxy_pool.Fetcher.{Found, add_entry, fetch}
use easy_proxy_pool.Upstream.{Spec, empty_spec, type_socks5, normalize, deduplicate}
use easy_proxy_pool.Sources.{World, LoadResult, load, add_counts, or_fetch_error, is_empty}
use easy_proxy_pool.Xray.Outbound.{mode_relaxed}
use easy_proxy_pool.Xray.Generate.{
  GenerateOptions, Generated, Generation, generated, missing_socks_listen, missing_metrics_listen,
  missing_user_password, too_many_nodes, marshal_failed, panics, generate,
}
use easy_proxy_pool.Xray.Process.{
  Attempt, Instance, Ensured, ready, make_dir_failed, write_failed, start_failed, not_ready, ensure,
}

-- What the sources and the lists of URLs give when they are loaded.
pub record Inputs : Type 0 where
  pub world : World
  pub lists : List (Option (List Text))

-- What a round meets: the inputs when the specs are loaded and when the addresses are loaded, the start
-- of xray, its metrics, the health check of an address, the order in which checks end, the times, and
-- the texts of errors.
pub record Round : Type 0 where
  pub first : Inputs
  pub second : Inputs
  pub attempt : Attempt
  pub metrics : Outcome (Map NodeHealth)
  pub check : Text → Option ℕ
  pub arrive : List (Text × ℕ) → List (Text × ℕ)
  pub started_at : ℕ
  pub checked_at : ℕ
  pub ended_at : ℕ
  pub generate_error : Generation → Text
  pub ensure_error : Ensured → Text

-- What the updater shares with the servers, and the instance of xray.
pub record Running : Type 0 where
  pub pool : Pool
  pub status : Status
  pub store : Store
  pub xray : Instance

-- A spec of an address; `none` is not ok. `Normalize` of it does not panic.
unfoldable pub spec_of : (Text → Text) → Text → ℕ × Bool → Option Spec
unfolding normalize
spec_of sum256 host (port, ok) =
    let named =
      normalize sum256 (record empty_spec { kind = type_socks5; server = host; port = port }) in
    if ok && positive port then named else none

unfoldable pub trim_scheme : Text → Text
unfolding has_prefix
trim_scheme addr = if has_prefix addr (bytes "socks5://") then drop 9 addr else addr

unfoldable pub socks5_spec_from_addr : (Text → Text) → Text → Option Spec
unfolding trim_space trim_scheme split_host_port atoi spec_of
socks5_spec_from_addr sum256 addr = elim (split_host_port (trim_space (trim_scheme addr))) [
  | none ↦ none
  | some (host, port) ↦ spec_of sum256 host (atoi port)
]

unfoldable pub specs_from_addrs : (Text → Text) → List Text → List Spec
unfolding socks5_spec_from_addr
specs_from_addrs sum256 [] = []
specs_from_addrs sum256 (a ∷ addrs) = elim (socks5_spec_from_addr sum256 a) [
  | none ↦ specs_from_addrs sum256 addrs
  | some s ↦ s ∷ specs_from_addrs sum256 addrs
]

-- The typed sources, if there are any; `none` is Result{}.
unfoldable pub load_typed : (Text → Text) → Config → Inputs → Outcome (Option LoadResult)
unfolding load
load_typed sum256 cfg inputs =
    if is_empty cfg.sources
    then done none
    else and_then (load sum256 inputs.world cfg.sources) (λ r. done (some r))

-- The lists of URLs, if there are any.
unfoldable pub load_lists : Config → Inputs → Outcome (List Text)
unfolding fetch
load_lists cfg inputs =
    if is_empty cfg.proxy_list_urls then done [] else or_fetch_error (fetch inputs.lists)

unfoldable pub typed_specs : (Text → Text) → Option LoadResult → List Spec
unfolding specs_from_addrs
typed_specs sum256 none = []
typed_specs sum256 (some r) = r.specs ++ specs_from_addrs sum256 r.socks5_addrs

abbrev pub or_panic {ℓ} : {A : Type ℓ} → Option A → Outcome A
or_panic none = panicked
or_panic (some a) = done a

unfoldable pub load_upstream_specs :
    (Text → Text) → Config → Inputs → Outcome (List Spec × Option LoadResult)
unfolding load_typed load_lists typed_specs specs_from_addrs deduplicate
load_upstream_specs sum256 cfg inputs = and_then (load_typed sum256 cfg inputs) (λ res.
    and_then (load_lists cfg inputs) (λ addrs.
      and_then
        (or_panic (deduplicate sum256 (typed_specs sum256 res ++ specs_from_addrs sum256 addrs)))
        (λ specs. done (specs, res))))

abbrev pub typed_addrs : Option LoadResult → List Text
typed_addrs none = []
typed_addrs (some r) = r.socks5_addrs

-- The function `add` of `loadSOCKS5Upstreams`, for each address.
unfoldable pub add_all : Found → List Text → Found
unfolding add_entry
add_all f [] = f
add_all f (a ∷ addrs) = add_all (add_entry f (some a)) addrs

unfoldable pub some_proxies : List Text → Outcome (List Text)
some_proxies [] = failed (bytes "no proxies fetched from any source")
some_proxies (a ∷ addrs) = done (a ∷ addrs)

unfoldable pub load_socks5_upstreams : (Text → Text) → Config → Inputs → Outcome (List Text)
unfolding load_typed load_lists add_all some_proxies
load_socks5_upstreams sum256 cfg inputs = and_then (load_lists cfg inputs) (λ addrs.
    and_then (load_typed sum256 cfg inputs) (λ res.
      some_proxies (add_all (add_all (record { set = []; out = [] }) addrs) (typed_addrs res)).out))

-- Every round of updates ends with this.
unfoldable pub end_run : Round → Running → ℕ → ℕ → Option Text → UpdateDetails → Running
unfolding set_end
end_run rd s fetched pool_size err details = record s {
  status = (set_end s.store s.status rd.ended_at fetched pool_size err details).0;
  store = (set_end s.store s.status rd.ended_at fetched pool_size err details).1;
}

-- The pool is kept where there is no entry.
unfoldable pub update_pool : Running → List Entry → Running
unfolding update
update_pool s [] = s
update_pool s (e ∷ entries) = record s { pool = update s.pool (e ∷ entries) }

-- The addresses that pass the health check, with their latencies.
unfoldable pub passing : (Text → Option ℕ) → List Text → List (Text × ℕ)
passing check [] = []
passing check (a ∷ addrs) = elim (check a) [
  | none ↦ passing check addrs
  | some latency ↦ (a, latency) ∷ passing check addrs
]

abbrev pub legacy_entry : ℕ → Text → ℕ → Entry
legacy_entry now addr latency = record {
  id = [];
  addr = addr;
  username = [];
  password = [];
  latency = latency;
  last_checked_at = now;
  failures = 0;
  disabled_until = 0;
}

-- The loop over the results, with the keys of `seen`.
unfoldable pub legacy_entries : ℕ → List Text → List (Text × ℕ) → List Entry
unfolding contains
legacy_entries now seen [] = []
legacy_entries now seen ((addr, latency) ∷ results) = elim (contains seen addr) [
  | true ↦ legacy_entries now seen results
  | false ↦ legacy_entry now addr latency ∷ legacy_entries now (addr ∷ seen) results
]

unfoldable pub finish_legacy : Round → Running → UpdateDetails → List Text → Running
unfolding passing legacy_entries update_pool end_run
finish_legacy rd s details proxies =
    let entries = legacy_entries rd.checked_at [] (rd.arrive (passing rd.check proxies)) in
    end_run rd (update_pool s entries) (length proxies) (length entries) none details

-- `runOnceLegacy`; `none` is a panic.
unfoldable pub run_legacy :
    (Text → Text) → Config → Round → Running → UpdateDetails → Option Running
unfolding load_socks5_upstreams finish_legacy end_run
run_legacy sum256 cfg rd s details = elim (load_socks5_upstreams sum256 cfg rd.second) [
  | panicked ↦ none
  | failed e ↦ some (end_run rd s 0 0 (some e) details)
  | done proxies ↦ some (finish_legacy rd s details proxies)
]

-- UpdateDetails{Adapter: name}
abbrev pub details_of : Text → UpdateDetails
details_of name = record {
  adapter = name;
  nodes_total = 0;
  nodes_included = 0;
  problems_count = 0;
  skipped_by_type = none;
  xray_relaxed_hash = [];
  fallback_used = false;
  fallback_err = [];
}

abbrev pub fallback_details : Text → UpdateDetails
fallback_details e = record (details_of (bytes "xray_fallback")) {
  fallback_used = true;
  fallback_err = e;
}

abbrev pub fallback_enabled : Option Bool → Bool
fallback_enabled none = true
fallback_enabled (some b) = b
