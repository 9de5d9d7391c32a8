-- ===== src/Fetcher.antt =====
-- `Fetch` of internal/fetcher/fetcher.go: the lists of proxies of several URLs, made into one.
pub mod Merge
use easy_proxy_pool.Prelude.{
  ℕ, ◌++◌, ◌||◌, Bool, true, false, Option, none, some, List, [], ◌∷◌, if◌then◌else◌, length, ◌==◌,
  drop,
}
use easy_proxy_pool.Prelude.Text.{Text, bytes, trim_space, has_prefix, text_eq, contains}

-- What is made of a line; `none` is a line that is passed over.
unfoldable pub entry_of_line : Text → Option Text
unfolding trim_space text_eq has_prefix
entry_of_line text =
    let line = trim_space text in
    if text_eq line [] || has_prefix line (bytes "#")
    then none
    else if has_prefix line (bytes "socks5://")
    then some (drop 9 line)
    else some line

-- The keys of `set`, and `out`.
pub record Found : Type 0 where
  pub set : List Text
  pub out : List Text

unfoldable pub add_entry : Found → Option Text → Found
unfolding contains
add_entry f none = f
add_entry f (some line) =
    if contains f.set line then f else record { set = line ∷ f.set; out = f.out ++ (line ∷ []) }

unfoldable pub add_lines : Found → List Text → Found
unfolding add_entry entry_of_line
add_lines f [] = f
add_lines f (text ∷ texts) = add_lines (add_entry f (entry_of_line text)) texts

-- What a URL gives: `none` where no request can be built, the request fails or its status is not 200,
-- and otherwise the lines that are scanned, up to an error if there is one.
unfoldable pub add_sources : Found → List (Option (List Text)) → Found
unfolding add_lines
add_sources f [] = f
add_sources f (none ∷ sources) = add_sources f sources
add_sources f (some texts ∷ sources) = add_sources (add_lines f texts) sources

unfoldable pub or_no_proxies : List Text → Option (List Text)
or_no_proxies [] = none
or_no_proxies (line ∷ lines) = some (line ∷ lines)

-- `none` is the error "no proxies fetched from any source".
unfoldable pub fetch : List (Option (List Text)) → Option (List Text)
unfolding add_sources or_no_proxies
fetch sources = or_no_proxies (add_sources (record { set = []; out = [] }) sources).out
