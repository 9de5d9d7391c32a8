-- ===== src/Tests/Xrays.antt =====
-- The theorems on internal/xray/config.go and internal/xray/manager.go at concrete nodes and calls.
use mathlib.Core.List.{Permᴰ}
use easy_proxy_pool.Prelude.{
  ◌≡◌, refl, true, false, Option, some, List, [], ◌∷◌, map, if◌then◌else◌,
}
use easy_proxy_pool.Prelude.Text.{Text, bytes, is_blank, text_eq, text_eq_apart, contains}
use easy_proxy_pool.Prelude.Value.{Value}
use easy_proxy_pool.Upstream.{Spec, empty_spec, type_socks5}
use easy_proxy_pool.Xray.Outbound.{mode_relaxed, build_outbound}
use easy_proxy_pool.Xray.Generate.{GenerateOptions, generate, rules, outbounds, node_id}
use easy_proxy_pool.Xray.Generate.Nodes.{supported, IsExpected, generate-IsExpected}
use easy_proxy_pool.Xray.Generate.Order.{without_skipped, generate_permuted}
use easy_proxy_pool.Xray.Generate.Routes.{route, has_tag, route-has_tag}
use easy_proxy_pool.Xray.Process.{Attempt}
use easy_proxy_pool.Xray.Process.Calls.{Call, ensures, stops}

abbrev named : Text → Spec
named id = record empty_spec { id = id; kind = type_socks5; server = bytes "a"; port = 1080 }

abbrev ssr : Spec
ssr = record (named (bytes "n-s")) { kind = bytes "ssr" }

abbrev nodes : List Spec
nodes = named (bytes "n-b") ∷ named (bytes "n-a") ∷ []

abbrev options : GenerateOptions
options = record {
  mode = mode_relaxed;
  socks_listen = bytes "127.0.0.1:17383";
  metrics_listen = bytes "127.0.0.1:17387";
  user_password = bytes "p";
  max_nodes = 10;
  observatory = record {
    mode = bytes "burst";
    destination = bytes "d";
    connectivity = [];
    interval_seconds = 30;
    sampling = 5;
    timeout_seconds = 5;
  };
}

-- Stands for json.MarshalIndent and sha256.Sum256.
abbrev marshal : Value → Option Text
marshal v = some (bytes "{}")

abbrev sum256 : Text → Text
sum256 t = t

generate-IsExpected_example :
    IsExpected sum256 marshal (ssr ∷ nodes) options (generate sum256 marshal (ssr ∷ nodes) options)
unfolding is_blank
generate-IsExpected_example =
    generate-IsExpected sum256 marshal (ssr ∷ nodes) options (refl, (refl, (refl, tt)))

generate_permuted_example :
    without_skipped (generate sum256 marshal nodes options)
    ≡ without_skipped
        (generate sum256 marshal (named (bytes "n-a") ∷ named (bytes "n-b") ∷ []) options)
unfolding is_blank text_eq
generate_permuted_example =
    generate_permuted sum256 marshal options nodes (named (bytes "n-a") ∷ named (bytes "n-b") ∷ [])
      (Permᴰ.swap refl refl) (refl, (refl, tt)) ((text_eq_apart _ _ refl, tt), (tt, tt))

route-has_tag_example :
    (tag : Text) × (route (rules nodes) (bytes "n-a") ≡ some tag)
    × (tag ≡ (if contains (map node_id nodes) (bytes "n-a") then bytes "n-a" else bytes "direct"))
    × (has_tag (outbounds mode_relaxed nodes) tag ≡ true)
unfolding supported build_outbound
route-has_tag_example = route-has_tag mode_relaxed nodes (bytes "n-a") (refl, (refl, tt))

-- The program is ready at once, and the kill of the one before it gives an error.
abbrev attempt : Attempt
attempt = record {
  old_kill_fails = true;
  makes_dir = true;
  writes_file = true;
  starts = true;
  probes = record { socks_open = true; metrics_status = some 200 } ∷ [];
  new_kill_fails = false;
}

abbrev calls : List Call
calls = ensures attempt (bytes "h") ∷ ensures attempt (bytes "i") ∷ stops false ∷ []
