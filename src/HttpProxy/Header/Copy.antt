-- ===== src/HttpProxy/Header/Copy.antt =====
-- What `copyHeader` of proxy.go copies into an empty header.
use easy_proxy_pool.Prelude.{
  ◌≡◌, refl, sym, ap, ◌∙◌, inl, inr, Bool, true, false, ◌||◌, Option, none, subst, List, [], ◌∷◌,
  ◌++◌, if◌then◌else◌, arith, map, Bool-cases, append-nil, append_assoc,
}
use easy_proxy_pool.Prelude.Text.{Text, text_eq, text_eq_iff, contains}
use easy_proxy_pool.Prelude.Map.{lookup, delete, lookup-insert, lookup-delete}
use easy_proxy_pool.HttpProxy.Header.{
  Header, canonical_key, values, header_add, header_del, header_del_all, hop_by_hop,
  connection_tokens, strip_hop_by_hop_headers, add_values, copy_header,
}
use easy_proxy_pool.HttpProxy.Header.Strip.{lookup-strip}

-- The header of a message that net/http has read: the keys are canonical, and no key stands in it twice.
abbrev pub IsHeader : Header → Type 0
IsHeader [] = Unit
IsHeader ((k, vs) ∷ h) = (canonical_key k ≡ k) × (lookup h k ≡ none) × IsHeader h

-- h.Values(k) at a canonical key.
unfoldable pub values_at : Header → Text → List Text
unfolding lookup
values_at h j = values (lookup h j)

values_at-header_add :
    (dst : Header) (k v j : Text)
    → values_at (header_add dst k v) j
      ≡ (if text_eq (canonical_key k) j then values_at dst j ++ (v ∷ []) else values_at dst j)
unfolding values_at header_add
values_at-header_add dst k v j = ground (
  arith,
  lookup-insert dst (canonical_key k) (values (lookup dst (canonical_key k)) ++ (v ∷ [])) j,
  text_eq_iff (canonical_key k) j,
)

if-same {ℓ} : {A : Type ℓ} (b : Bool) {x y : A} → x ≡ y → x ≡ (if b then y else x)
if-same true e = e
if-same false e = refl

values_at-add_values :
    (dst : Header) (k : Text) (vs : List Text) (j : Text)
    → values_at (add_values dst k vs) j
      ≡ (if text_eq (canonical_key k) j then values_at dst j ++ vs else values_at dst j)
unfolding add_values
values_at-add_values dst k [] j = if-same (text_eq (canonical_key k) j) (sym (append-nil _))
values_at-add_values dst k (v ∷ vs) j =
    values_at-add_values (header_add dst k v) k vs j
    ∙ by_key (text_eq (canonical_key k) j) _ _ (values_at-header_add dst k v j)
  where
    by_key :
        (b : Bool) (x y : List Text)
        → x ≡ (if b then y ++ (v ∷ []) else y)
        → (if b then x ++ vs else x) ≡ (if b then y ++ (v ∷ vs) else y)
    by_key true x y e = ap (λ z. z ++ vs) e ∙ append_assoc y (v ∷ []) vs
    by_key false x y e = e

-- The values of the keys of which `j` is the canonical form.
gathered : Header → Text → List Text
gathered [] j = []
gathered ((k, vs) ∷ h) j =
    let rest = gathered h j in if text_eq (canonical_key k) j then vs ++ rest else rest

values_at-copy_header :
    (dst src : Header) (j : Text)
    → values_at (copy_header dst src) j ≡ values_at dst j ++ gathered src j
unfolding copy_header gathered
values_at-copy_header dst [] j = sym (append-nil _)
values_at-copy_header dst ((k, vs) ∷ src) j =
    values_at-copy_header (add_values dst k vs) src j
    ∙ by_key (text_eq (canonical_key k) j) _ _ _ (values_at-add_values dst k vs j)
  where
    by_key :
        (b : Bool) (x y z : List Text)
        → x ≡ (if b then y ++ vs else y)
        → x ++ z ≡ y ++ (if b then vs ++ z else z)
    by_key true x y z e = ap (λ w. w ++ z) e ∙ append_assoc y vs z
    by_key false x y z e = ap (λ w. w ++ z) e

gathered-none : (h : Header) (j : Text) → IsHeader h → lookup h j ≡ none → gathered h j ≡ []
unfolding gathered lookup
gathered-none [] j v e = refl
gathered-none ((k, vs) ∷ h) j (c, u, v) e =
    ground (arith, c, e, gathered-none h j v, text_eq_iff (canonical_key k) j, text_eq_iff k j)

gathered-values_at : (h : Header) (j : Text) → IsHeader h → gathered h j ≡ values_at h j
unfolding gathered values_at lookup
gathered-values_at [] j v = refl
gathered-values_at ((k, vs) ∷ h) j (c, u, v) = elim (Bool-cases (text_eq k j)) [
  | inl same ↦
      rw (c, same)
        (ap (λ w. vs ++ w)
            (gathered-none h j v (subst (λ t. lookup h t ≡ none) ((text_eq_iff k j).0 same) u))
          ∙ append-nil vs)
  | inr other ↦ rw (c, other) (gathered-values_at h j v)
]

delete-IsHeader : (h : Header) (k : Text) → IsHeader h → IsHeader (delete h k)
unfolding delete
delete-IsHeader [] k v = tt
delete-IsHeader ((i, vs) ∷ h) k (c, u, v) = elim (Bool-cases (text_eq i k)) [
  | inl same ↦ rw (same, delete) (delete-IsHeader h k v)
  | inr other ↦
      rw (other, delete) (c, ground (arith, lookup-delete h k i, u), delete-IsHeader h k v)
]

header_del_all-IsHeader :
    (h : Header) (ks : List Text) → IsHeader h → IsHeader (header_del_all h ks)
unfolding header_del_all header_del
header_del_all-IsHeader h [] v = v
header_del_all-IsHeader h (k ∷ ks) v =
    header_del_all-IsHeader (delete h (canonical_key k)) ks (delete-IsHeader h (canonical_key k) v)

strip-IsHeader : (h : Header) → IsHeader h → IsHeader (strip_hop_by_hop_headers h)
unfolding strip_hop_by_hop_headers
strip-IsHeader h v =
    header_del_all-IsHeader (header_del_all h hop_by_hop) (connection_tokens h)
      (header_del_all-IsHeader h hop_by_hop v)

-- What is stripped and copied has under each key what there was, but nothing under a key on the fixed
-- list or named in the first line of the "Connection" header.
pub values_at-copy_stripped :
    (h : Header) (j : Text)
    → IsHeader h
    → values_at (copy_header [] (strip_hop_by_hop_headers h)) j ≡ (
        if contains (map canonical_key hop_by_hop) j
          || contains (map canonical_key (connection_tokens h)) j
        then []
        else values_at h j)
unfolding values_at
values_at-copy_stripped h j v =
    values_at-copy_header [] (strip_hop_by_hop_headers h) j
    ∙ gathered-values_at (strip_hop_by_hop_headers h) j (strip-IsHeader h v)
    ∙ ap values (lookup-strip h j)
    ∙ if-values
        (contains (map canonical_key hop_by_hop) j
          || contains (map canonical_key (connection_tokens h)) j)
        (lookup h j)
  where
    if-values :
        (b : Bool) (o : Option (List Text))
        → values (if b then none else o) ≡ (if b then [] else values o)
    if-values true o = refl
    if-values false o = refl
