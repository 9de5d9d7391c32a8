-- ===== src/Sources/Known.antt =====
-- `Load` of loader.go with the parser of parser.go.
use easy_proxy_pool.Prelude.{
  ◌≡◌, refl, sym, ◌∙◌, Bool, true, false, ◌&&◌, ◌||◌, not, ◌++◌, Option, none, some, List, [], ◌∷◌,
  if◌then◌else◌, All, All-append, subst,
}
use easy_proxy_pool.Prelude.Text.{Text, bytes, text_eq, is_blank, to_lower, trim_space}
use easy_proxy_pool.Prelude.Value.{Fields}
use easy_proxy_pool.Prelude.Outcome.{
  Outcome, done, failed, panicked, and_then, Returns, Returns-and_then, wrap,
}
use easy_proxy_pool.Config.{SourceConfig}
use easy_proxy_pool.Fetcher.{fetch}
use easy_proxy_pool.Upstream.{Spec, Socks5Config, type_socks5, deduplicate}
use easy_proxy_pool.Upstream.Known.{IsKnown, IsKnown-changed, deduplicate_kept}
use easy_proxy_pool.Clash.{parse_yaml}
use easy_proxy_pool.Clash.Values.{Decoding}
use easy_proxy_pool.Clash.Parsed.{IsUsable, usable-IsKnown, IsPromised, parse_yaml-IsPromised}
use easy_proxy_pool.Sources.{
  World, ParseReport, LoadResult, Loading, add_addr, add_addrs, server_addr, auth_problem, add_node,
  add_nodes, add_raw_list, add_report, or_fetch_error, raw_lines, scan_problem, load_raw_list,
  load_clash_yaml, type_problem, load_source, load_sources, nothing_loaded, is_empty, finish_load,
  load,
}

-- A call whose value does not matter does not panic.
abbrev pub IsQuiet {ℓ} : {A : Type ℓ} → Outcome A → Type 0
IsQuiet x = Returns (λ a. Unit {0}) x

-- The loader's parser is that of parser.go, and no call of a library panics.
pub record IsUsual (sum256 : Text → Text) (dec : Decoding) (w : World) : Type 0 where
  pub parser : (text : Text) → w.parse_yaml text ≡ parse_yaml dec sum256 text
  pub decodes : (text : Text) → IsQuiet (dec.unmarshal text)
  pub fetches : (url : Text) → IsQuiet (w.fetch_bytes url)
  pub reads : (path : Text) → IsQuiet (w.read_file path)
  pub scans : (path : Text) → IsQuiet (w.scan_file path)

wrap-IsQuiet {ℓ} : {A : Type ℓ} (text : Text) (x : Outcome A) → IsQuiet x → IsQuiet (wrap text x)
wrap-IsQuiet text (done a) h = tt
wrap-IsQuiet text (failed e) h = tt
wrap-IsQuiet text panicked h = h

add_addrs-specs : (l : Loading) (addrs : List Text) → (add_addrs l addrs).specs ≡ l.specs
unfolding add_addrs add_addr
add_addrs-specs l [] = refl
add_addrs-specs l (a ∷ addrs) = add_addrs-specs (add_addr l a) addrs

add_node-specs :
    (quote : Text → Text) (l : Loading) (s : Spec) (c : Option Socks5Config)
    → (add_node quote l s c).specs ≡ l.specs
unfolding add_node add_addr
add_node-specs quote l s none = refl
add_node-specs quote l s (some c) =
    by_tests (not (text_eq s.kind type_socks5))
      (not (is_blank c.username) || not (is_blank c.password))
  where
    by_tests :
        (a b : Bool)
        → (if a
            then l
            else if b
            then record l { problems = l.problems ++ (auth_problem quote s ∷ []) }
            else add_addr l (server_addr s)).specs
          ≡ l.specs
    by_tests true b = refl
    by_tests false true = refl
    by_tests false false = refl

add_nodes-specs :
    (quote : Text → Text) (l : Loading) (specs : List Spec)
    → (add_nodes quote l specs).specs ≡ l.specs
unfolding add_nodes
add_nodes-specs quote l [] = refl
add_nodes-specs quote l (s ∷ specs) =
    add_nodes-specs quote (add_node quote l s s.socks5) specs ∙ add_node-specs quote l s s.socks5

module _ (sum256 : Text → Text) (dec : Decoding) (w : World) (usual : IsUsual sum256 dec w) where
  abbrev pub Holds : Loading → Type 0
  Holds l = All IsKnown l.specs

  abbrev Reported : ParseReport → Type 0
  Reported rep = All IsKnown rep.specs

  All-IsKnown :
      (raws : List Fields) (specs : List Spec) → All (IsUsable dec raws) specs → All IsKnown specs
  All-IsKnown raws [] h = tt
  All-IsKnown raws (s ∷ specs) (u, h) = (usable-IsKnown dec raws s u, All-IsKnown raws specs h)

  IsPromised-Reported :
      (x : Outcome (List Fields)) (o : Outcome ParseReport)
      → IsQuiet x
      → IsPromised sum256 dec x o
      → Returns Reported o
  unfolding IsPromised
  IsPromised-Reported (done raws) (done r) q (h, u) = All-IsKnown raws r.specs h
  IsPromised-Reported (done raws) (failed e) q h = tt
  IsPromised-Reported (done raws) panicked q h = h
  IsPromised-Reported (failed e) o q h = subst (Returns Reported) (sym h) tt
  IsPromised-Reported panicked o q h = absurd q

  parse_yaml-Reported : (text : Text) → Returns Reported (w.parse_yaml text)
  parse_yaml-Reported text = subst (Returns Reported) (sym (usual.parser text)) (
      IsPromised-Reported (dec.unmarshal text) (parse_yaml dec sum256 text) (usual.decodes text)
        (parse_yaml-IsPromised sum256 dec text))

  load_clash_yaml-Returns : (src : SourceConfig) → Returns Reported (load_clash_yaml w src)
  unfolding load_clash_yaml
  load_clash_yaml-Returns src = by_tests (not (text_eq src.url [])) (not (text_eq src.path []))
    where
      by_tests :
          (a b : Bool)
          → Returns Reported (
              if a && b
              then failed (bytes "clash_yaml: set only one of url or path")
              else if a
              then and_then
                  (wrap (bytes "clash_yaml fetch url: ") (w.fetch_bytes src.url))
                  w.parse_yaml
              else if b
              then and_then
                  (wrap (bytes "clash_yaml read file: ") (w.read_file src.path))
                  w.parse_yaml
              else failed (bytes "clash_yaml: missing url/path"))
      by_tests true true = tt
      by_tests true false =
          Returns-and_then (λ a. Unit {0}) Reported
            (wrap (bytes "clash_yaml fetch url: ") (w.fetch_bytes src.url)) w.parse_yaml
            (wrap-IsQuiet (bytes "clash_yaml fetch url: ") (w.fetch_bytes src.url)
              (usual.fetches src.url))
            (λ text q. parse_yaml-Reported text)
      by_tests false true =
          Returns-and_then (λ a. Unit {0}) Reported
            (wrap (bytes "clash_yaml read file: ") (w.read_file src.path)) w.parse_yaml
            (wrap-IsQuiet (bytes "clash_yaml read file: ") (w.read_file src.path)
              (usual.reads src.path))
            (λ text q. parse_yaml-Reported text)
      by_tests false false = tt

  load_raw_list-IsQuiet : (src : SourceConfig) → IsQuiet (load_raw_list w src)
  unfolding load_raw_list
  load_raw_list-IsQuiet src = by_tests (not (text_eq src.url [])) (not (text_eq src.path []))
    where
      by_fetch :
          (o : Option (List Text))
          → IsQuiet {A = List Text × List Text} (
              and_then
                (wrap (bytes "raw_list fetch url: ") (or_fetch_error o))
                (λ addrs. done (addrs, [])))
      by_fetch none = tt
      by_fetch (some addrs) = tt

      by_tests :
          (a b : Bool)
          → IsQuiet {A = List Text × List Text} (
              if a && b
              then failed (bytes "raw_list: set only one of url or path")
              else if a
              then and_then
                  (wrap
                    (bytes "raw_list fetch url: ")
                    (or_fetch_error (fetch (w.scan_url src.url ∷ []))))
                  (λ addrs. done (addrs, []))
              else if b
              then and_then
                  (wrap (bytes "raw_list open file: ") (w.scan_file src.path))
                  (λ (texts, e). done (raw_lines texts, scan_problem e))
              else failed (bytes "raw_list: missing url/path"))
      by_tests true true = tt
      by_tests true false = by_fetch (fetch (w.scan_url src.url ∷ []))
      by_tests false true =
          Returns-and_then {B = List Text × List Text} (λ a. Unit {0}) (λ a. Unit {0})
            (wrap (bytes "raw_list open file: ") (w.scan_file src.path))
            (λ (texts, e). done (raw_lines texts, scan_problem e))
            (wrap-IsQuiet (bytes "raw_list open file: ") (w.scan_file src.path)
              (usual.scans src.path))
            (λ found q. tt)
      by_tests false false = tt

  raw_list_kept :
      (l : Loading) (x : Outcome (List Text × List Text))
      → Holds l
      → IsQuiet x
      → Returns Holds (and_then x (λ found. done (add_raw_list l found)))
  unfolding add_raw_list
  raw_list_kept l (done (addrs, problems)) h q =
      subst (All IsKnown)
        (sym (add_addrs-specs (record l { problems = l.problems ++ problems }) addrs)) h
  raw_list_kept l (failed e) h q = tt
  raw_list_kept l panicked h q = q

  report_kept :
      (l : Loading) (x : Outcome ParseReport)
      → Holds l
      → Returns Reported x
      → Returns Holds (and_then x (λ rep. done (add_report w.quote l rep)))
  unfolding add_report
  report_kept l (done rep) h k =
      subst (All IsKnown) (sym (add_nodes-specs w.quote _ rep.specs))
        (All-append IsKnown l.specs rep.specs h k)
  report_kept l (failed e) h k = tt
  report_kept l panicked h k = k

  load_source-Returns :
      (l : Loading) (src : SourceConfig) → Holds l → Returns Holds (load_source w l src)
  unfolding load_source
  load_source-Returns l src h =
      by_type (text_eq (to_lower (trim_space src.kind)) (bytes "raw_list"))
        (text_eq (to_lower (trim_space src.kind)) (bytes "clash_yaml"))
    where
      by_type :
          (a b : Bool)
          → Returns Holds (
              if a
              then and_then (load_raw_list w src) (λ found. done (add_raw_list l found))
              else if b
              then and_then (load_clash_yaml w src) (λ rep. done (add_report w.quote l rep))
              else done (record l { problems = l.problems ++ (type_problem w.quote src ∷ []) }))
      by_type true b = raw_list_kept l (load_raw_list w src) h (load_raw_list-IsQuiet src)
      by_type false true = report_kept l (load_clash_yaml w src) h (load_clash_yaml-Returns src)
      by_type false false = h

  load_sources-Returns :
      (l : Loading) (sources : List SourceConfig)
      → Holds l
      → Returns Holds (load_sources w l sources)
  unfolding load_sources
  load_sources-Returns l [] h = h
  load_sources-Returns l (src ∷ sources) h =
      Returns-and_then Holds Holds (load_source w l src) (λ m. load_sources w m sources)
        (load_source-Returns l src h) (λ m k. load_sources-Returns m sources k)

  -- `Load` does not panic, and each spec that it returns has a known type and the configuration of it.
  pub load-Returns :
      (sources : List SourceConfig) → Returns (λ r. All IsKnown r.specs) (load sum256 w sources)
  unfolding load
  load-Returns sources =
      Returns-and_then Holds (λ r. All IsKnown r.specs) (load_sources w nothing_loaded sources)
        (λ l. finish_load l (deduplicate sum256 l.specs))
        (load_sources-Returns nothing_loaded sources tt) (λ l h. finished l h)
    where
      by_test :
          (l : Loading) (specs : List Spec) (b : Bool)
          → All IsKnown specs
          → Returns {A = LoadResult}
              (λ r. All IsKnown r.specs)
              (if b
                then failed (bytes "no usable entries from sources")
                else done (record {
                  specs = specs;
                  socks5_addrs = l.addrs.out;
                  problems = l.problems;
                  skipped = l.skipped;
                }))
      by_test l specs true k = tt
      by_test l specs false k = k

      finished :
          (l : Loading)
          → All IsKnown l.specs
          → Returns (λ r. All IsKnown r.specs) (finish_load l (deduplicate sum256 l.specs))
      finished l h =
          let (out, e, k, u) =
            deduplicate_kept sum256 IsKnown (λ s k. k) IsKnown-changed l.specs h in
          rw (e, finish_load) (by_test l out (is_empty l.addrs.out && is_empty out) k)
