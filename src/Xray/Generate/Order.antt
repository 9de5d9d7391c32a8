-- ===== src/Xray/Generate/Order.antt =====
-- `Generate` of config.go: what the order of the nodes decides.
use mathlib.Core.List.{Permᴰ}
use mathlib.Core.List.Permᴰ
use easy_proxy_pool.Prelude.{
  ◌≡◌, refl, ap, sym, inl, inr, Bool, true, false, Option, some, List, [], ◌∷◌, ℕ, if◌then◌else◌,
  length, filter, All, subst, ◌≢◌, ltb, Option-cases,
}
use easy_proxy_pool.Prelude.Text.{Text, is_blank}
use easy_proxy_pool.Prelude.Map.{Map}
use easy_proxy_pool.Prelude.Sort.{sort_by, sort_by-Permᴰ, Unique, Permᴰ-All}
use easy_proxy_pool.Prelude.Value.{Value}
use easy_proxy_pool.Upstream.{Spec}
use easy_proxy_pool.Xray.Generate.Nodes.{
  HasIds, supported, generate_guards, length-Permᴰ, filter_nodes-IsFiltered,
}
use easy_proxy_pool.Xray.Generate.{
  GenerateOptions, root, Generation, generated, missing_socks_listen, missing_metrics_listen,
  missing_user_password, too_many_nodes, marshal_failed, panics, Filtered, node_limit, node_id,
  encode, generate_from, generate,
}

module _ {ℓ} {A : Type ℓ} where
  keep-Permᴰ :
      (b : Bool) {x y : A} {xs ys : List A}
      → x ≡ y
      → Permᴰ xs ys
      → Permᴰ (if b then x ∷ xs else xs) (if b then y ∷ ys else ys)
  keep-Permᴰ true e d = Permᴰ.cons e d
  keep-Permᴰ false e d = d

  swap-Permᴰ :
      (b c : Bool) (x y : A) (xs : List A)
      → Permᴰ
          (if b then x ∷ (if c then y ∷ xs else xs) else (if c then y ∷ xs else xs))
          (if c then y ∷ (if b then x ∷ xs else xs) else (if b then x ∷ xs else xs))
  swap-Permᴰ true true x y xs = Permᴰ.swap refl refl
  swap-Permᴰ true false x y xs = Permᴰ.refl _
  swap-Permᴰ false true x y xs = Permᴰ.refl _
  swap-Permᴰ false false x y xs = Permᴰ.refl _

  filter-Permᴰ : (p : A → Bool) {xs ys : List A} → Permᴰ xs ys → Permᴰ (filter p xs) (filter p ys)
  filter-Permᴰ p Permᴰ.nil = Permᴰ.nil
  filter-Permᴰ p (Permᴰ.cons {a} {b} {l₁ = xs} {l₂ = ys} e d) =
      subst
        (λ c.
          Permᴰ (if p a then a ∷ filter p xs else filter p xs)
            (if c then b ∷ filter p ys else filter p ys))
        (ap p e) (keep-Permᴰ (p a) e (filter-Permᴰ p d))
  filter-Permᴰ p (Permᴰ.swap {a} {b} {a'} {b'} {l = xs} e f) =
      subst (λ c. Permᴰ (filter p (a ∷ b ∷ xs)) (filter p (c ∷ b' ∷ xs))) f
        (subst (λ c. Permᴰ (filter p (a ∷ b ∷ xs)) (filter p (b ∷ c ∷ xs))) e
          (swap-Permᴰ (p a) (p b) a b (filter p xs)))
  filter-Permᴰ p (Permᴰ.trans d e) = Permᴰ.trans (filter-Permᴰ p d) (filter-Permᴰ p e)

  All-filter {κ} : (P : A → Type κ) (p : A → Bool) (xs : List A) → All P xs → All P (filter p xs)
  All-filter P p [] h = tt
  All-filter P p (x ∷ xs) (h, hs) = by_test (p x) (All-filter P p xs hs)
    where
      by_test :
          (b : Bool) → All P (filter p xs) → All P (if b then x ∷ filter p xs else filter p xs)
      by_test true rest = (h, rest)
      by_test false rest = rest

  Unique-filter :
      (key : A → Text) (p : A → Bool) (xs : List A) → Unique key xs → Unique key (filter p xs)
  Unique-filter key p [] u = tt
  Unique-filter key p (x ∷ xs) (new, u) = by_test (p x) (Unique-filter key p xs u)
    where
      by_test :
          (b : Bool)
          → Unique key (filter p xs)
          → Unique key (if b then x ∷ filter p xs else filter p xs)
      by_test true rest = (All-filter (λ y. key x ≢ key y) p xs new, rest)
      by_test false rest = rest

-- A result without the counts of what was skipped.
abbrev pub without_skipped : Generation → Generation
without_skipped (generated g) = generated (record g { skipped = [] })
without_skipped missing_socks_listen = missing_socks_listen
without_skipped missing_metrics_listen = missing_metrics_listen
without_skipped missing_user_password = missing_user_password
without_skipped too_many_nodes = too_many_nodes
without_skipped marshal_failed = marshal_failed
without_skipped panics = panics

without_skipped-encode :
    (sum256 : Text → Text) (marshal : Value → Option Text) (opt : GenerateOptions)
    (nodes : List Spec) (a b : Map ℕ)
    → without_skipped (encode sum256 marshal opt nodes a)
      ≡ without_skipped (encode sum256 marshal opt nodes b)
unfolding encode
without_skipped-encode sum256 marshal opt nodes a b =
    elim (Option-cases (marshal (root opt nodes))) [
      | inl failed ↦ rw (failed, encode) refl
      | inr (raw, done) ↦ rw (done, encode) refl
    ]

generate_from-Permᴰ :
    (sum256 : Text → Text) (marshal : Value → Option Text) (opt : GenerateOptions) (f g : Filtered)
    → Permᴰ f.nodes g.nodes
    → Unique node_id f.nodes
    → without_skipped (generate_from sum256 marshal opt (some f))
      ≡ without_skipped (generate_from sum256 marshal opt (some g))
unfolding generate_from
generate_from-Permᴰ sum256 marshal opt f g d u =
    rw (length-Permᴰ d, sort_by-Permᴰ node_id d u)
      (by_test (ltb (node_limit opt.max_nodes) (length g.nodes)))
  where
    nodes : List Spec
    nodes = sort_by node_id g.nodes

    by_test :
        (b : Bool)
        → without_skipped (if b then too_many_nodes else encode sum256 marshal opt nodes f.skipped)
          ≡ without_skipped
              (if b then too_many_nodes else encode sum256 marshal opt nodes g.skipped)
    by_test true = refl
    by_test false = without_skipped-encode sum256 marshal opt nodes f.skipped g.skipped

-- For specs with IDs that all differ, the order of the list changes no result but the counts of what was
-- skipped: the configuration, its hash, the nodes included and the errors are the same.
pub generate_permuted :
    (sum256 : Text → Text) (marshal : Value → Option Text) (opt : GenerateOptions)
    (specs others : List Spec)
    → Permᴰ specs others
    → HasIds specs
    → Unique node_id specs
    → without_skipped (generate sum256 marshal specs opt)
      ≡ without_skipped (generate sum256 marshal others opt)
generate_permuted sum256 marshal opt specs others d ids u =
    let (f, done_f, is_f) = filter_nodes-IsFiltered sum256 opt.mode [] specs ids in
    let (g, done_g, is_g) =
      filter_nodes-IsFiltered sum256 opt.mode [] others
        (Permᴰ-All (λ s. is_blank s.id ≡ false) d ids) in
    rw
      (
        generate_guards sum256 marshal specs opt f done_f,
        generate_guards sum256 marshal others opt g done_g,
      )
      (by_guards (is_blank opt.socks_listen) (is_blank opt.metrics_listen)
        (is_blank opt.user_password) _ _
        (generate_from-Permᴰ sum256 marshal opt f g
          (subst (λ xs. Permᴰ xs g.nodes) (sym is_f.nodes)
            (subst (Permᴰ (filter (supported opt.mode) specs)) (sym is_g.nodes)
              (filter-Permᴰ (supported opt.mode) d)))
          (subst (Unique node_id) (sym is_f.nodes)
            (Unique-filter node_id (supported opt.mode) specs u))))
  where
    by_guards :
        (a b c : Bool) (x y : Generation)
        → without_skipped x ≡ without_skipped y
        → without_skipped (
            if a
            then missing_socks_listen
            else if b
            then missing_metrics_listen
            else if c
            then missing_user_password
            else x)
          ≡ without_skipped (
              if a
              then missing_socks_listen
              else if b
              then missing_metrics_listen
              else if c
              then missing_user_password
              else y)
    by_guards true b c x y e = refl
    by_guards false true c x y e = refl
    by_guards false false true x y e = refl
    by_guards false false false x y e = e
