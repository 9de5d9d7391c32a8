-- ===== src/Sources.antt =====
-- internal/sources/loader.go: the sources of the configuration, made into specs and SOCKS5 addresses.
-- The network, the files, the parser of Clash documents and strconv.Quote are arguments.
pub mod Loaded
pub mod Known
use easy_proxy_pool.Prelude.{
  ℕ, ◌++◌, ◌||◌, ◌&&◌, not, Bool, true, false, Option, none, some, List, [], ◌∷◌, if◌then◌else◌,
  drop,
}
use easy_proxy_pool.Prelude.Text.{Text, bytes, trim_space, to_lower, has_prefix, is_blank, text_eq}
use easy_proxy_pool.Prelude.Map.{Map, lookup, insert}
use easy_proxy_pool.Prelude.Word.{add64}
use easy_proxy_pool.Prelude.Decimal.{itoa}
use easy_proxy_pool.Prelude.Outcome.{Outcome, done, failed, panicked, and_then, wrap}
use easy_proxy_pool.Config.{SourceConfig}
use easy_proxy_pool.Fetcher.{Found, add_entry, fetch}
use easy_proxy_pool.Upstream.{Spec, type_socks5, Socks5Config, deduplicate}
use easy_proxy_pool.Xray.Generate.{count_of}

-- clash.ParseReport
pub record ParseReport : Type 0 where
  pub specs : List Spec
  pub problems : List Text
  pub skipped_by_type : Map ℕ

-- What the loader meets: what `Fetch` of fetcher.go finds at a URL, what `FetchBytes` gives, the bytes
-- of a file, the lines of a file with the text of the scanner's error, and two functions.
pub record World : Type 0 where
  pub scan_url : Text → Option (List Text)
  pub fetch_bytes : Text → Outcome Text
  pub read_file : Text → Outcome Text
  pub scan_file : Text → Outcome (List Text × Option Text)
  pub parse_yaml : Text → Outcome ParseReport
  pub quote : Text → Text

-- Result
pub record LoadResult : Type 0 where
  pub specs : List Spec
  pub socks5_addrs : List Text
  pub problems : List Text
  pub skipped : Map ℕ

-- The result so far; `addrs` has the keys of `set` too.
pub record Loading : Type 0 where
  pub specs : List Spec
  pub addrs : Found
  pub problems : List Text
  pub skipped : Map ℕ

-- What `addAddr` adds, if anything.
unfoldable pub addr_of : Text → Option Text
unfolding trim_space text_eq has_prefix
addr_of text =
    let addr = trim_space text in
    if text_eq addr []
    then none
    else if has_prefix addr (bytes "socks5://")
    then some (drop 9 addr)
    else some addr

unfoldable pub add_addr : Loading → Text → Loading
unfolding add_entry addr_of
add_addr l text = record l { addrs = add_entry l.addrs (addr_of text) }

unfoldable pub add_addrs : Loading → List Text → Loading
unfolding add_addr
add_addrs l [] = l
add_addrs l (a ∷ addrs) = add_addrs (add_addr l a) addrs

-- for k, v := range m { out[k] += v }
unfoldable pub add_counts : Map ℕ → Map ℕ → Map ℕ
unfolding lookup insert
add_counts out [] = out
add_counts out ((k, v) ∷ m) = add_counts (insert out k (add64 (count_of (lookup out k)) v)) m

-- fmt.Sprintf("%s:%d", s.Server, s.Port)
unfoldable pub server_addr : Spec → Text
unfolding itoa
server_addr s = s.server ++ (b':' ∷ itoa s.port)

unfoldable pub auth_problem : (Text → Text) → Spec → Text
auth_problem quote s =
    bytes "proxy(name="
    ++ (quote s.name ++ bytes ",type=socks5): auth not supported in legacy mode; skipped")

-- A node of a Clash document, with its configuration for SOCKS5.
unfoldable pub add_node : (Text → Text) → Loading → Spec → Option Socks5Config → Loading
unfolding text_eq is_blank auth_problem add_addr server_addr
add_node quote l s none = l
add_node quote l s (some c) =
    if not (text_eq s.kind type_socks5)
    then l
    else if not (is_blank c.username) || not (is_blank c.password)
    then record l { problems = l.problems ++ (auth_problem quote s ∷ []) }
    else add_addr l (server_addr s)

unfoldable pub add_nodes : (Text → Text) → Loading → List Spec → Loading
unfolding add_node
add_nodes quote l [] = l
add_nodes quote l (s ∷ specs) = add_nodes quote (add_node quote l s s.socks5) specs

-- The lines of a file that are no comments.
unfoldable pub raw_lines : List Text → List Text
unfolding trim_space text_eq has_prefix
raw_lines [] = []
raw_lines (text ∷ texts) =
    let line = trim_space text in
    if text_eq line [] || has_prefix line (bytes "#")
    then raw_lines texts
    else line ∷ raw_lines texts

abbrev pub scan_problem : Option Text → List Text
scan_problem none = []
scan_problem (some e) = (bytes "raw_list scan file: " ++ e) ∷ []

abbrev pub or_fetch_error : Option (List Text) → Outcome (List Text)
or_fetch_error none = failed (bytes "no proxies fetched from any source")
or_fetch_error (some addrs) = done addrs

-- The addresses and the problems.
unfoldable pub load_raw_list : World → SourceConfig → Outcome (List Text × List Text)
unfolding text_eq fetch raw_lines
load_raw_list w src =
    if not (text_eq src.url []) && not (text_eq src.path [])
    then failed (bytes "raw_list: set only one of url or path")
    else if not (text_eq src.url [])
    then and_then
        (wrap (bytes "raw_list fetch url: ") (or_fetch_error (fetch (w.scan_url src.url ∷ []))))
        (λ addrs. done (addrs, []))
    else if not (text_eq src.path [])
    then and_then (wrap (bytes "raw_list open file: ") (w.scan_file src.path))
        (λ (texts, e). done (raw_lines texts, scan_problem e))
    else failed (bytes "raw_list: missing url/path")

unfoldable pub load_clash_yaml : World → SourceConfig → Outcome ParseReport
unfolding text_eq
load_clash_yaml w src =
    if not (text_eq src.url []) && not (text_eq src.path [])
    then failed (bytes "clash_yaml: set only one of url or path")
    else if not (text_eq src.url [])
    then and_then (wrap (bytes "clash_yaml fetch url: ") (w.fetch_bytes src.url)) w.parse_yaml
    else if not (text_eq src.path [])
    then and_then (wrap (bytes "clash_yaml read file: ") (w.read_file src.path)) w.parse_yaml
    else failed (bytes "clash_yaml: missing url/path")

unfoldable pub add_raw_list : Loading → List Text × List Text → Loading
unfolding add_addrs
add_raw_list l (addrs, problems) = add_addrs (record l { problems = l.problems ++ problems }) addrs

unfoldable pub add_report : (Text → Text) → Loading → ParseReport → Loading
unfolding add_nodes add_counts
add_report quote l rep =
    add_nodes quote
      (record l {
        specs = l.specs ++ rep.specs;
        problems = l.problems ++ rep.problems;
        skipped = add_counts l.skipped rep.skipped_by_type;
      })
      rep.specs

unfoldable pub type_problem : (Text → Text) → SourceConfig → Text
type_problem quote src =
    bytes "source(type=" ++ (quote src.kind ++ bytes "): unsupported (use raw_list or clash_yaml)")

-- One round of the loop over the sources.
unfoldable pub load_source : World → Loading → SourceConfig → Outcome Loading
unfolding to_lower trim_space text_eq load_raw_list load_clash_yaml add_raw_list add_report
    type_problem
load_source w l src =
    let typ = to_lower (trim_space src.kind) in
    if text_eq typ (bytes "raw_list")
    then and_then (load_raw_list w src) (λ found. done (add_raw_list l found))
    else if text_eq typ (bytes "clash_yaml")
    then and_then (load_clash_yaml w src) (λ rep. done (add_report w.quote l rep))
    else done (record l { problems = l.problems ++ (type_problem w.quote src ∷ []) })

unfoldable pub load_sources : World → Loading → List SourceConfig → Outcome Loading
unfolding load_source
load_sources w l [] = done l
load_sources w l (src ∷ sources) = and_then (load_source w l src) (λ m. load_sources w m sources)

abbrev pub nothing_loaded : Loading
nothing_loaded = record {
  specs = [];
  addrs = record { set = []; out = [] };
  problems = [];
  skipped = [];
}

abbrev pub is_empty {ℓ} : {A : Type ℓ} → List A → Bool
is_empty [] = true
is_empty (x ∷ xs) = false

-- `Load` after the loop, with the specs that are left; `none` is a panic of `Deduplicate`.
unfoldable pub finish_load : Loading → Option (List Spec) → Outcome LoadResult
finish_load l none = panicked
finish_load l (some specs) =
    if is_empty l.addrs.out && is_empty specs
    then failed (bytes "no usable entries from sources")
    else done (record {
      specs = specs;
      socks5_addrs = l.addrs.out;
      problems = l.problems;
      skipped = l.skipped;
    })

-- `Load`, with sha256.Sum256 as `sum256`.
unfoldable pub load : (Text → Text) → World → List SourceConfig → Outcome LoadResult
unfolding load_sources deduplicate finish_load
load sum256 w sources =
    and_then (load_sources w nothing_loaded sources)
      (λ l. finish_load l (deduplicate sum256 l.specs))
