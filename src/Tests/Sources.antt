-- ===== src/Tests/Sources.antt =====
-- The theorem on internal/fetcher/fetcher.go at concrete sources.
use easy_proxy_pool.Prelude.{◌≡◌, false, Option, none, some, List, [], ◌∷◌}
use easy_proxy_pool.Prelude.Text.{Text, bytes, contains}
use easy_proxy_pool.Fetcher.{fetch}
use easy_proxy_pool.Fetcher.Merge.{Distinct, offers, fetch-Distinct}

abbrev lists : List (Option (List Text))
lists =
    some (bytes "# proxies" ∷ bytes " socks5://a:1" ∷ bytes "b:1 " ∷ [])
    ∷ none
    ∷ some (bytes "a:1" ∷ [])
    ∷ []

fetch-Distinct_example :
    ((out : List Text)
      → fetch lists ≡ some out
      → Distinct out × ((t : Text) → contains out t ≡ offers lists t))
    × (fetch lists ≡ none → (t : Text) → offers lists t ≡ false)
fetch-Distinct_example = fetch-Distinct lists
