-- ===== src/Updater/Specs.antt =====
-- `loadUpstreamSpecs` of updater.go with the loader, the parser and the configuration of xray together.
use easy_proxy_pool.Prelude.{
  ℕ, ◌≡◌, refl, Bool, true, false, ◌&&◌, ◌++◌, Option, none, some, List, [], ◌∷◌, if◌then◌else◌,
  All, All-append,
}
use easy_proxy_pool.Prelude.Text.{Text, trim_space}
use easy_proxy_pool.Prelude.Word.{positive}
use easy_proxy_pool.Prelude.Decimal.{atoi}
use easy_proxy_pool.Prelude.HostPort.{split_host_port}
use easy_proxy_pool.Prelude.Outcome.{done, and_then, Returns, Returns-and_then}
use easy_proxy_pool.Config.{Config}
use easy_proxy_pool.Fetcher.{fetch}
use easy_proxy_pool.Upstream.{Spec, empty_spec, type_socks5, normalize, deduplicate}
use easy_proxy_pool.Upstream.Known.{
  IsKnown, socks5_known, IsKnown-changed, IsKnown-supported, normalize_kept, deduplicate_kept,
}
use easy_proxy_pool.Sources.{LoadResult, load, or_fetch_error, is_empty}
use easy_proxy_pool.Sources.Known.{IsUsual, IsQuiet, load-Returns}
use easy_proxy_pool.Clash.Values.{Decoding}
use easy_proxy_pool.Xray.Generate.Nodes.{supported}
use easy_proxy_pool.Updater.{
  Inputs, spec_of, trim_scheme, socks5_spec_from_addr, specs_from_addrs, load_typed, load_lists,
  typed_specs, or_panic, load_upstream_specs,
}

abbrev KnownOr : Option Spec → Type 0
KnownOr none = Unit
KnownOr (some s) = IsKnown s

normalize-IsKnown : (sum256 : Text → Text) (s : Spec) → IsKnown s → KnownOr (normalize sum256 s)
normalize-IsKnown sum256 s known =
    let (t, e, k) = normalize_kept sum256 IsKnown (λ s k. k) IsKnown-changed s known in rw e k

spec_of-IsKnown :
    (sum256 : Text → Text) (host : Text) (v : ℕ × Bool) → KnownOr (spec_of sum256 host v)
unfolding spec_of
spec_of-IsKnown sum256 host (port, ok) = by_test (ok && positive port)
  where
    s : Spec
    s = record empty_spec { kind = type_socks5; server = host; port = port }

    by_test : (b : Bool) → KnownOr (if b then normalize sum256 s else none)
    by_test true = normalize-IsKnown sum256 s (socks5_known refl)
    by_test false = tt

socks5_spec_from_addr-IsKnown :
    (sum256 : Text → Text) (addr : Text) → KnownOr (socks5_spec_from_addr sum256 addr)
unfolding socks5_spec_from_addr
socks5_spec_from_addr-IsKnown sum256 addr =
    by_parts (split_host_port (trim_space (trim_scheme addr)))
  where
    by_parts :
        (o : Option (Text × Text))
        → KnownOr (elim o [ none ↦ none | some (host, port) ↦ spec_of sum256 host (atoi port) ])
    by_parts none = tt
    by_parts (some (host, port)) = spec_of-IsKnown sum256 host (atoi port)

specs_from_addrs-IsKnown :
    (sum256 : Text → Text) (addrs : List Text) → All IsKnown (specs_from_addrs sum256 addrs)
unfolding specs_from_addrs
specs_from_addrs-IsKnown sum256 [] = tt
specs_from_addrs-IsKnown sum256 (a ∷ addrs) =
    by_spec (socks5_spec_from_addr sum256 a) (socks5_spec_from_addr-IsKnown sum256 a)
      (specs_from_addrs-IsKnown sum256 addrs)
  where
    by_spec :
        (o : Option Spec)
        → KnownOr o
        → All IsKnown (specs_from_addrs sum256 addrs)
        → All IsKnown (elim o [
          | none ↦ specs_from_addrs sum256 addrs
          | some s ↦ s ∷ specs_from_addrs sum256 addrs
        ])
    by_spec none k rest = rest
    by_spec (some s) k rest = (k, rest)

-- Supported by the configuration of xray, whatever its mode.
abbrev pub IsSupported : Spec → Type 0
IsSupported s = (mode : Text) → supported mode s ≡ true

All-IsSupported : (specs : List Spec) → All IsKnown specs → All IsSupported specs
All-IsSupported [] h = tt
All-IsSupported (s ∷ specs) (k, h) = ((λ mode. IsKnown-supported mode s k), All-IsSupported specs h)

abbrev pub AllSupported : List Spec × Option LoadResult → Type 0
AllSupported (specs, res) = All IsSupported specs

module _ (sum256 : Text → Text) (dec : Decoding) (cfg : Config) (inputs : Inputs)
    (usual : IsUsual sum256 dec inputs.world) where
  abbrev Typed : Option LoadResult → Type 0
  Typed none = Unit
  Typed (some r) = All IsKnown r.specs

  load_typed-Returns : Returns Typed (load_typed sum256 cfg inputs)
  unfolding load_typed
  load_typed-Returns = by_test (is_empty cfg.sources)
    where
      by_test :
          (b : Bool)
          → Returns Typed (
              if b
              then done none
              else and_then (load sum256 inputs.world cfg.sources) (λ r. done (some r)))
      by_test true = tt
      by_test false =
          Returns-and_then (λ r. All IsKnown r.specs) Typed (load sum256 inputs.world cfg.sources)
            (λ r. done (some r)) (load-Returns sum256 dec inputs.world usual cfg.sources) (λ r k. k)

  load_lists-IsQuiet : IsQuiet (load_lists cfg inputs)
  unfolding load_lists
  load_lists-IsQuiet = by_test (is_empty cfg.proxy_list_urls) (fetch inputs.lists)
    where
      by_test :
          (b : Bool) (o : Option (List Text)) → IsQuiet (if b then done [] else or_fetch_error o)
      by_test true o = tt
      by_test false none = tt
      by_test false (some addrs) = tt

  typed_specs-IsKnown : (res : Option LoadResult) → Typed res → All IsKnown (typed_specs sum256 res)
  unfolding typed_specs
  typed_specs-IsKnown none h = tt
  typed_specs-IsKnown (some r) h =
      All-append IsKnown r.specs (specs_from_addrs sum256 r.socks5_addrs) h
        (specs_from_addrs-IsKnown sum256 r.socks5_addrs)

  deduplicate-IsSupported :
      (specs : List Spec)
      → All IsKnown specs
      → Returns (λ out. All IsSupported out) (or_panic (deduplicate sum256 specs))
  deduplicate-IsSupported specs h =
      let (out, e, k, u) = deduplicate_kept sum256 IsKnown (λ s k. k) IsKnown-changed specs h in
      rw e (All-IsSupported out k)

  -- With the parser of parser.go, where no call of a library panics, loading the specs does not panic,
  -- and the configuration of xray supports each spec that is loaded, in every mode.
  pub load_upstream_specs-AllSupported :
      Returns AllSupported (load_upstream_specs sum256 cfg inputs)
  unfolding load_upstream_specs
  load_upstream_specs-AllSupported =
      Returns-and_then Typed AllSupported (load_typed sum256 cfg inputs) _ load_typed-Returns
        (λ res h.
          Returns-and_then (λ a. Unit {0}) AllSupported (load_lists cfg inputs) _ load_lists-IsQuiet
            (λ addrs q.
              Returns-and_then (λ out. All IsSupported out) AllSupported
                (or_panic
                  (deduplicate sum256 (typed_specs sum256 res ++ specs_from_addrs sum256 addrs)))
                (λ specs. done (specs, res))
                (deduplicate-IsSupported (typed_specs sum256 res ++ specs_from_addrs sum256 addrs) (
                  All-append IsKnown (typed_specs sum256 res) (specs_from_addrs sum256 addrs)
                    (typed_specs-IsKnown res h) (specs_from_addrs-IsKnown sum256 addrs)))
                (λ specs k. k)))
