-- ===== src/Upstream/Headers.antt =====
-- The headers in the canonical text of spec.go: a header is looked up under its name in small letters.
use mathlib.Core.List.Permᴰ
use easy_proxy_pool.Prelude.{
  ◌≡◌, ◌≢◌, refl, ap, ap₂, ◌∙◌, ◌++◌, take, Option, none, some, List, [], ◌∷◌, arith, All, map,
}
use easy_proxy_pool.Prelude.Text.{Text, bytes, text_eq_iff, to_lower, lower_byte}
use easy_proxy_pool.Prelude.Map.{Map, lookup}
use easy_proxy_pool.Prelude.Sort.{sort_by, sort_by-perm, Permᴰ-All}
use easy_proxy_pool.Upstream.{
  Spec, VMessConfig, keys, header_part, join, encode_to_string, canonical_headers, canonical_vmess,
  kind_parts, common_parts, canonical_string, stable_node_id,
}

to_lower_idem : (t : Text) → to_lower (to_lower t) ≡ to_lower t
unfolding to_lower
to_lower_idem [] = refl
to_lower_idem (c ∷ t) = cc (byte c, to_lower_idem t)
  where
    byte : (c : _) → lower_byte (lower_byte c) ≡ lower_byte c
    byte c = unfold lower_byte in ground arith

-- Every name has a capital letter.
abbrev pub HasCapitals : Map Text → Type 0
HasCapitals h = All (λ k. to_lower k ≢ k) (keys h)

lookup-capital : (h : Map Text) (t : Text) → HasCapitals h → to_lower t ≡ t → lookup h t ≡ none
unfolding lookup
lookup-capital [] t c e = refl
lookup-capital ((j, v) ∷ h) t (up, c) e = ground (arith, text_eq_iff j t, lookup-capital h t c e)

lowered : (ks : List Text) → All (λ t. to_lower t ≡ t) (map to_lower ks)
lowered [] = tt
lowered (k ∷ ks) = (to_lower_idem k, lowered ks)

part-capital :
    (h k : Map Text) (ts : List Text)
    → HasCapitals h
    → HasCapitals k
    → All (λ t. to_lower t ≡ t) ts
    → map (header_part h) ts ≡ map (header_part k) ts
unfolding header_part
part-capital h k [] ch ck l = refl
part-capital h k (t ∷ ts) ch ck (e, l) =
    cc (lookup-capital h t ch e, lookup-capital k t ck e, part-capital h k ts ch ck l)

-- The values of headers whose names all have a capital letter do not enter the canonical text.
pub canonical_headers_capitals :
    (h k : Map Text)
    → keys h ≡ keys k
    → HasCapitals h
    → HasCapitals k
    → canonical_headers h ≡ canonical_headers k
unfolding canonical_headers
canonical_headers_capitals h k e ch ck = ap (join (bytes "&")) (
    part-capital h k (names h) ch ck small
    ∙ ap (λ ks. map (header_part k) (sort_by (λ t. t) (map to_lower ks))) e)
  where
    names : Map Text → List Text
    names m = sort_by (λ t. t) (map to_lower (keys m))

    small : All (λ t. to_lower t ≡ t) (names h)
    small =
        Permᴰ-All (λ t. to_lower t ≡ t) (Permᴰ.symm (sort_by-perm (λ t. t) (map to_lower (keys h))))
          (lowered (keys h))

canonical_vmess_headers :
    (cfg : VMessConfig) (h k : Map Text)
    → canonical_headers h ≡ canonical_headers k
    → canonical_vmess (some (record cfg { headers = h }))
      ≡ canonical_vmess (some (record cfg { headers = k }))
unfolding canonical_vmess
canonical_vmess_headers cfg h k e = rw e refl

-- The ID is made of the canonical parts.
canonical_string-parts :
    (s t : Spec)
    → common_parts s ≡ common_parts t
    → kind_parts s ≡ kind_parts t
    → canonical_string s ≡ canonical_string t
unfolding canonical_string
canonical_string-parts s t common kind = ap₂ made common kind
  where
    made : List Text → Option (List Text) → Option Text
    made cs none = none
    made cs (some ps) = some (join (bytes "|") (cs ++ ps))

stable_node_id-canonical :
    (sum256 : Text → Text) (s t : Spec)
    → canonical_string s ≡ canonical_string t
    → stable_node_id sum256 s ≡ stable_node_id sum256 t
unfolding stable_node_id
stable_node_id-canonical sum256 s t e = ap made e
  where
    made : Option Text → Option Text
    made none = none
    made (some text) = some (bytes "n-" ++ take 12 (encode_to_string (sum256 text)))

kind_parts-vmess :
    (s : Spec) (c d : VMessConfig)
    → canonical_vmess (some c) ≡ canonical_vmess (some d)
    → kind_parts (record s { vmess = some c }) ≡ kind_parts (record s { vmess = some d })
unfolding kind_parts
kind_parts-vmess s c d e = cc e

-- Two VMess nodes that differ only in the values of headers, all of whose names have a capital letter,
-- get the same ID.
pub stable_node_id_headers :
    (sum256 : Text → Text) (s : Spec) (cfg : VMessConfig) (h k : Map Text)
    → keys h ≡ keys k
    → HasCapitals h
    → HasCapitals k
    → stable_node_id sum256 (record s { vmess = some (record cfg { headers = h }) })
      ≡ stable_node_id sum256 (record s { vmess = some (record cfg { headers = k }) })
unfolding common_parts
stable_node_id_headers sum256 s cfg h k e ch ck = stable_node_id-canonical sum256 with_h with_k (
    canonical_string-parts with_h with_k refl (
      kind_parts-vmess s (record cfg { headers = h }) (record cfg { headers = k })
        (canonical_vmess_headers cfg h k (canonical_headers_capitals h k e ch ck))))
  where
    with_h : Spec
    with_h = record s { vmess = some (record cfg { headers = h }) }

    with_k : Spec
    with_k = record s { vmess = some (record cfg { headers = k }) }
