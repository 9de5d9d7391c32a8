-- ===== src/Xray/Generate/Nodes.antt =====
-- The nodes that `Generate` of config.go includes and those that it skips.
use mathlib.Core.List.{Permᴰ}
use easy_proxy_pool.Prelude.{
  ℕ, suc, ◌+◌, ◌%◌, ◌≤◌, ◌<◌, ◌≡◌, refl, sym, ap, ◌∙◌, subst, inl, inr, Bool, true, false, ◌&&◌,
  not, Option, none, some, List, [], ◌∷◌, if◌then◌else◌, arith, All, length, take, map, filter,
  Bool-cases, Option-cases, ltb, ltb→lt,
}
use easy_proxy_pool.Prelude.Text.{Text, is_blank, text_eq, text_eq_iff}
use easy_proxy_pool.Prelude.Map.{Map, lookup, lookup-insert}
use easy_proxy_pool.Prelude.Word.{word_mod, add64}
use easy_proxy_pool.Prelude.Sort.{sort_by, sort_by-perm, sort_by-IsSorted, IsSorted}
use easy_proxy_pool.Prelude.Value.{Value}
use easy_proxy_pool.Upstream.{Spec, with_id, encode_to_string}
use easy_proxy_pool.Xray.Outbound.{build_outbound}
use easy_proxy_pool.Xray.Generate.{
  GenerateOptions, Generated, Generation, generated, missing_socks_listen, missing_metrics_listen,
  missing_user_password, too_many_nodes, marshal_failed, panics, count_of, bump, Filtered,
  filter_nodes, root, node_limit, node_id, encode, generate_from, generate,
}

-- Every spec has an ID, as those that `Deduplicate` returns.
abbrev pub HasIds : List Spec → Type 0
HasIds specs = All (λ s. is_blank s.id ≡ false) specs

abbrev pub is_some {ℓ} : {A : Type ℓ} → Option A → Bool
is_some none = false
is_some (some a) = true

unfoldable pub supported : Text → Spec → Bool
supported mode s = is_some (build_outbound s mode)

-- How many specs of a type are not supported.
pub count_skipped : Text → Text → List Spec → ℕ
count_skipped mode k [] = 0
count_skipped mode k (s ∷ specs) =
    let rest = count_skipped mode k specs in
    if not (supported mode s) && text_eq s.kind k then rest + 1 else rest

lookup-bump :
    (m : Map ℕ) (k j : Text)
    → count_of (lookup (bump m k) j)
      ≡ (if text_eq k j then add64 (count_of (lookup m j)) 1 else count_of (lookup m j))
unfolding bump
lookup-bump m k j = elim (Bool-cases (text_eq k j)) [
  | inl same ↦
      rw (lookup-insert m k (add64 (count_of (lookup m k)) 1) j, same)
        (ap (λ t. add64 (count_of (lookup m t)) 1) ((text_eq_iff k j).0 same))
  | inr other ↦ rw (lookup-insert m k (add64 (count_of (lookup m k)) 1) j, other) refl
]

unsupported : (s : Spec) (mode : Text) → build_outbound s mode ≡ none → supported mode s ≡ false
unfolding supported
unsupported s mode e = ap is_some e

known_supported :
    (s : Spec) (mode : Text) (out : Value)
    → build_outbound s mode ≡ some out
    → supported mode s ≡ true
unfolding supported
known_supported s mode out e = ap is_some e

-- What the first loop makes of specs that have IDs.
pub record IsFiltered (mode : Text) (skipped : Map ℕ) (specs : List Spec) (f : Filtered)
    : Type 0 where
  pub nodes : f.nodes ≡ filter (supported mode) specs
  pub counts :
      (k : Text)
      → count_of (lookup skipped k) < word_mod
      → count_of (lookup f.skipped k)
        ≡ (count_of (lookup skipped k) + count_skipped mode k specs) % word_mod

pub filter_nodes-IsFiltered :
    (sum256 : Text → Text) (mode : Text) (skipped : Map ℕ) (specs : List Spec)
    → HasIds specs
    → (f : Filtered) × (filter_nodes sum256 mode skipped specs ≡ some f)
      × IsFiltered mode skipped specs f
unfolding filter_nodes with_id count_skipped
filter_nodes-IsFiltered sum256 mode skipped [] h = (
  record { nodes = []; skipped = skipped },
  refl,
  record { nodes = refl; counts = λ k l. ground arith },
)
filter_nodes-IsFiltered sum256 mode skipped (s ∷ specs) (id, h) =
    elim (Option-cases (build_outbound s mode)) [
      | inl unknown ↦
          let (f, done, v) = filter_nodes-IsFiltered sum256 mode (bump skipped s.kind) specs h in
          (
            f,
            rw (id, unknown, filter_nodes) done,
            record {
              nodes =
                  v.nodes
                  ∙ sym (
                      ap
                        (λ b.
                          if b
                          then s ∷ filter (supported mode) specs
                          else filter (supported mode) specs)
                        (unsupported s mode unknown));
              counts = λ k l.
                  ground
                    (arith, v.counts k, lookup-bump skipped s.kind k, unsupported s mode unknown);
            },
          )
      | inr (out, known) ↦
          let (f, done, v) = filter_nodes-IsFiltered sum256 mode skipped specs h in
          (
            record f { nodes = s ∷ f.nodes },
            rw (id, known, done, filter_nodes) refl,
            record {
              nodes =
                  ap (λ ns. s ∷ ns) v.nodes
                  ∙ sym (
                      ap
                        (λ b.
                          if b
                          then s ∷ filter (supported mode) specs
                          else filter (supported mode) specs)
                        (known_supported s mode out known));
              counts = λ k l. ground (arith, v.counts k, known_supported s mode out known);
            },
          )
    ]

-- What `Generate` promises of a configuration that it returns.
pub record IsGenerated (sum256 : Text → Text) (marshal : Value → Option Text) (specs : List Spec)
    (opt : GenerateOptions) (g : Generated) : Type 0 where
  pub nodes : List Spec
  pub permuted : Permᴰ nodes (filter (supported opt.mode) specs)
  pub sorted : IsSorted node_id nodes
  pub included : g.included ≡ map node_id nodes
  pub bounded : length nodes ≤ node_limit opt.max_nodes
  pub config_json : marshal (root opt nodes) ≡ some g.config_json
  pub hash : g.hash ≡ take 12 (encode_to_string (sum256 g.config_json))
  pub skipped :
      (k : Text) → count_of (lookup g.skipped k) ≡ count_skipped opt.mode k specs % word_mod

-- What `Generate` promises of each result: the error tells what is wrong, and specs with IDs do not
-- panic.
pub IsExpected :
    (Text → Text) → (Value → Option Text) → List Spec → GenerateOptions → Generation → Type 0
IsExpected sum256 marshal specs opt (generated g) = IsGenerated sum256 marshal specs opt g
IsExpected sum256 marshal specs opt missing_socks_listen = is_blank opt.socks_listen ≡ true
IsExpected sum256 marshal specs opt missing_metrics_listen = is_blank opt.metrics_listen ≡ true
IsExpected sum256 marshal specs opt missing_user_password = is_blank opt.user_password ≡ true
IsExpected sum256 marshal specs opt too_many_nodes =
    node_limit opt.max_nodes < length (filter (supported opt.mode) specs)
IsExpected sum256 marshal specs opt marshal_failed =
    (nodes : List Spec) × Permᴰ nodes (filter (supported opt.mode) specs)
    × IsSorted node_id nodes
    × (marshal (root opt nodes) ≡ none)
IsExpected sum256 marshal specs opt panics = ⊥

pub generate_guards :
    (sum256 : Text → Text) (marshal : Value → Option Text) (specs : List Spec)
    (opt : GenerateOptions) (f : Filtered)
    → filter_nodes sum256 opt.mode [] specs ≡ some f
    → generate sum256 marshal specs opt ≡ (
        if is_blank opt.socks_listen
        then missing_socks_listen
        else if is_blank opt.metrics_listen
        then missing_metrics_listen
        else if is_blank opt.user_password
        then missing_user_password
        else generate_from sum256 marshal opt (some f))
unfolding generate is_blank
generate_guards sum256 marshal specs opt f e = rw (e, generate) refl

pub length-Permᴰ {ℓ} : {A : Type ℓ} {xs ys : List A} → Permᴰ xs ys → length xs ≡ length ys
length-Permᴰ Permᴰ.nil = refl
length-Permᴰ (Permᴰ.cons e d) = ap (λ n. suc n) (length-Permᴰ d)
length-Permᴰ (Permᴰ.swap e f) = refl
length-Permᴰ (Permᴰ.trans d e) = length-Permᴰ d ∙ length-Permᴰ e

encode-IsExpected :
    (sum256 : Text → Text) (marshal : Value → Option Text) (specs : List Spec)
    (opt : GenerateOptions) (nodes : List Spec) (f : Filtered)
    → Permᴰ nodes (filter (supported opt.mode) specs)
    → IsSorted node_id nodes
    → length nodes ≤ node_limit opt.max_nodes
    → ((k : Text) → count_of (lookup f.skipped k) ≡ count_skipped opt.mode k specs % word_mod)
    → IsExpected sum256 marshal specs opt (encode sum256 marshal opt nodes f.skipped)
unfolding encode IsExpected
encode-IsExpected sum256 marshal specs opt nodes f d s l k =
    elim (Option-cases (marshal (root opt nodes))) [
      | inl failed ↦ rw (failed, encode, IsExpected) (nodes, d, s, failed)
      | inr (raw, done) ↦
          rw (done, encode, IsExpected)
            (record {
              nodes = nodes;
              permuted = d;
              sorted = s;
              included = refl;
              bounded = l;
              config_json = done;
              hash = refl;
              skipped = k;
            })
    ]

counts_from_none :
    (mode : Text) (specs : List Spec) (f : Filtered)
    → IsFiltered mode [] specs f
    → (k : Text) → count_of (lookup f.skipped k) ≡ count_skipped mode k specs % word_mod
unfolding lookup
counts_from_none mode specs f v k = v.counts k (omega arith) ∙ ap (λ n. n % word_mod) (omega arith)

generate_from-IsExpected :
    (sum256 : Text → Text) (marshal : Value → Option Text) (specs : List Spec)
    (opt : GenerateOptions) (f : Filtered)
    → IsFiltered opt.mode [] specs f
    → IsExpected sum256 marshal specs opt (generate_from sum256 marshal opt (some f))
unfolding generate_from
generate_from-IsExpected sum256 marshal specs opt f v =
    by_limit (ltb (node_limit opt.max_nodes) (length f.nodes)) refl
  where
    d : Permᴰ (sort_by node_id f.nodes) (filter (supported opt.mode) specs)
    d = subst (Permᴰ (sort_by node_id f.nodes)) v.nodes (sort_by-perm node_id f.nodes)

    by_limit :
        (b : Bool)
        → ltb (node_limit opt.max_nodes) (length f.nodes) ≡ b
        → IsExpected sum256 marshal specs opt (
            if b
            then too_many_nodes
            else encode sum256 marshal opt (sort_by node_id f.nodes) f.skipped)
    by_limit true e =
        unfold IsExpected in
        subst (λ nodes. node_limit opt.max_nodes < length nodes) v.nodes (ltb→lt _ _ e)
    by_limit false e =
        encode-IsExpected sum256 marshal specs opt (sort_by node_id f.nodes) f d
          (sort_by-IsSorted node_id f.nodes)
          (ground (arith, length-Permᴰ (sort_by-perm node_id f.nodes), e))
          (counts_from_none opt.mode specs f v)

-- With specs that have IDs `generate` returns a configuration of the supported ones, sorted by their IDs and
-- no more than the limit, with the hash of its text and with the others counted by type, or an error whose
-- condition holds.
pub generate-IsExpected :
    (sum256 : Text → Text) (marshal : Value → Option Text) (specs : List Spec)
    (opt : GenerateOptions)
    → HasIds specs
    → IsExpected sum256 marshal specs opt (generate sum256 marshal specs opt)
generate-IsExpected sum256 marshal specs opt ids =
    let (f, done, v) = filter_nodes-IsFiltered sum256 opt.mode [] specs ids in
    rw (generate_guards sum256 marshal specs opt f done) (
      by_guards (is_blank opt.socks_listen) (is_blank opt.metrics_listen)
        (is_blank opt.user_password) (generate_from sum256 marshal opt (some f)) refl refl refl
        (generate_from-IsExpected sum256 marshal specs opt f v))
  where
    by_guards :
        (a b c : Bool) (r : Generation)
        → is_blank opt.socks_listen ≡ a
        → is_blank opt.metrics_listen ≡ b
        → is_blank opt.user_password ≡ c
        → IsExpected sum256 marshal specs opt r
        → IsExpected sum256 marshal specs opt (
            if a
            then missing_socks_listen
            else if b
            then missing_metrics_listen
            else if c
            then missing_user_password
            else r)
    by_guards true b c r h i j done = unfold IsExpected in h
    by_guards false true c r h i j done = unfold IsExpected in i
    by_guards false false true r h i j done = unfold IsExpected in j
    by_guards false false false r h i j done = done
