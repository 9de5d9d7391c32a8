-- ===== src/Xray/Generate/Routes.antt =====
-- The rules that `Generate` of config.go makes, read as xray reads them: the first rule that names the
-- user, or no user, gives the tag of the outbound.
use easy_proxy_pool.Prelude.{
  ◌≡◌, refl, ap, ◌∙◌, inl, inr, Bool, true, false, ◌||◌, Option, none, some, List, [], ◌∷◌, ◌++◌,
  if◌then◌else◌, arith, All, map, subst, Option-cases,
}
use easy_proxy_pool.Prelude.Text.{Text, bytes, text_eq, text_eq_iff, text_eq_refl, contains}
use easy_proxy_pool.Prelude.Value.{
  Value, string, array, object, Items, no_items, item, Fields, get_field, fields_of,
}
use easy_proxy_pool.Upstream.{
  Spec, type_socks5, type_http, type_shadowsocks, type_vmess, type_vless, type_trojan,
}
use easy_proxy_pool.Xray.Generate.Nodes.{supported, is_some}
use easy_proxy_pool.Xray.Outbound.{
  build_outbound, outbound, server_outbound, user_outbound, socks5_outbound, http_outbound,
  shadowsocks_outbound, trojan_outbound, vmess_outbound, vless_outbound,
}
use easy_proxy_pool.Xray.Generate.{
  rule, direct_rule, direct_outbound, outbound_of, rules, outbounds, node_id,
}

names_user : Items → Text → Bool
names_user no_items u = false
names_user (item (string t) vs) u = let rest = names_user vs u in text_eq t u || rest
names_user (item _ vs) u = names_user vs u

-- Whether a rule is for a user: by its "user" field, if it has one.
for_user : Option Value → Text → Bool
unfolding names_user
for_user (some (array vs)) u = names_user vs u
for_user (some _) u = false
for_user none u = true

text_of : Option Value → Option Text
text_of (some (string t)) = some t
text_of _ = none

fields : Value → Fields
fields (object m) = m
fields _ = Fields.no_fields

-- The tag that the rules give a user.
pub route : List Value → Text → Option Text
unfolding for_user text_of fields
route [] u = none
route (r ∷ rs) u =
    let rest = route rs u in
    if for_user (get_field (fields r) (bytes "user")) u
    then text_of (get_field (fields r) (bytes "outboundTag"))
    else rest

-- The tags of the outbounds.
pub tag_of : Value → Option Text
unfolding text_of fields
tag_of v = text_of (get_field (fields v) (bytes "tag"))

pub has_tag : List Value → Text → Bool
has_tag [] t = false
has_tag (v ∷ vs) t =
    let rest = has_tag vs t in elim (tag_of v) [ none ↦ rest | some u ↦ text_eq u t || rest ]

or_false_right : (b : Bool) → (b || false) ≡ b
or_false_right true = refl
or_false_right false = refl

or_true_right : (b : Bool) → (b || true) ≡ true
or_true_right true = refl
or_true_right false = refl

rule-user :
    (n : Spec) (u : Text) → for_user (get_field (fields (rule n)) (bytes "user")) u ≡ text_eq n.id u
unfolding rule get_field for_user fields names_user
rule-user n u = or_false_right (text_eq n.id u)

rule-tag : (n : Spec) → text_of (get_field (fields (rule n)) (bytes "outboundTag")) ≡ some n.id
unfolding rule get_field fields text_of
rule-tag n = refl

direct_rule-user : (u : Text) → for_user (get_field (fields direct_rule) (bytes "user")) u ≡ true
unfolding direct_rule get_field for_user fields
direct_rule-user u = refl

direct_rule-tag :
    text_of (get_field (fields direct_rule) (bytes "outboundTag")) ≡ some (bytes "direct")
unfolding direct_rule get_field fields text_of
direct_rule-tag = refl

route-cons :
    (r : Value) (rs : List Value) (u : Text)
    → route (r ∷ rs) u ≡ (
        if for_user (get_field (fields r) (bytes "user")) u
        then text_of (get_field (fields r) (bytes "outboundTag"))
        else route rs u)
unfolding route
route-cons r rs u = refl

route_nodes :
    (nodes : List Spec) (u : Text)
    → route (map rule nodes ++ (direct_rule ∷ [])) u
      ≡ some (if contains (map node_id nodes) u then u else bytes "direct")
unfolding contains
route_nodes [] u = rw (route-cons direct_rule [] u, direct_rule-user u) direct_rule-tag
route_nodes (n ∷ nodes) u =
    rw (route-cons (rule n) (map rule nodes ++ (direct_rule ∷ [])) u, rule-user n u, rule-tag n)
      (by_user (text_eq n.id u) refl (route_nodes nodes u))
  where
    by_user :
        (b : Bool)
        → text_eq n.id u ≡ b
        → route (map rule nodes ++ (direct_rule ∷ [])) u
          ≡ some (if contains (map node_id nodes) u then u else bytes "direct")
        → (if b then some n.id else route (map rule nodes ++ (direct_rule ∷ [])) u)
          ≡ some (if b || contains (map node_id nodes) u then u else bytes "direct")
    by_user true e rest = ap some ((text_eq_iff n.id u).0 e)
    by_user false e rest = rest

-- An outbound, if there is one, has the node's ID as its tag.
IsTagged : Spec → Option Value → Type 0
IsTagged s none = Unit
IsTagged s (some v) = tag_of v ≡ some s.id

if-IsTagged :
    (s : Spec) (b : Bool) (x y : Option Value)
    → IsTagged s x
    → IsTagged s y
    → IsTagged s (if b then x else y)
if-IsTagged s true x y h k = h
if-IsTagged s false x y h k = k

socks5-IsTagged : (s : Spec) (c : Option _) → IsTagged s (some (socks5_outbound s c))
unfolding socks5_outbound server_outbound IsTagged outbound fields_of tag_of fields get_field
    text_of
socks5-IsTagged s none = refl
socks5-IsTagged s (some c) = refl

http-IsTagged : (s : Spec) (c : Option _) → IsTagged s (some (http_outbound s c))
unfolding http_outbound server_outbound IsTagged outbound fields_of tag_of fields get_field text_of
http-IsTagged s none = refl
http-IsTagged s (some c) = refl

shadowsocks-IsTagged : (s : Spec) (c : Option _) → IsTagged s (shadowsocks_outbound s c)
unfolding shadowsocks_outbound server_outbound IsTagged outbound fields_of tag_of fields get_field
    text_of
shadowsocks-IsTagged s none = tt
shadowsocks-IsTagged s (some c) = refl

trojan-IsTagged : (s : Spec) (c : Option _) (mode : Text) → IsTagged s (trojan_outbound s c mode)
unfolding trojan_outbound server_outbound IsTagged outbound fields_of tag_of fields get_field
    text_of
trojan-IsTagged s none mode = tt
trojan-IsTagged s (some c) mode = refl

vmess-IsTagged : (s : Spec) (c : Option _) (mode : Text) → IsTagged s (vmess_outbound s c mode)
unfolding vmess_outbound user_outbound IsTagged outbound fields_of tag_of fields get_field text_of
vmess-IsTagged s none mode = tt
vmess-IsTagged s (some c) mode = refl

vless-IsTagged : (s : Spec) (c : Option _) (mode : Text) → IsTagged s (vless_outbound s c mode)
unfolding vless_outbound user_outbound IsTagged outbound fields_of tag_of fields get_field text_of
vless-IsTagged s none mode = tt
vless-IsTagged s (some c) mode = refl

build_outbound-IsTagged : (s : Spec) (mode : Text) → IsTagged s (build_outbound s mode)
unfolding build_outbound
build_outbound-IsTagged s mode =
    if-IsTagged s (text_eq s.kind type_socks5) (some (socks5_outbound s s.socks5)) _
      (socks5-IsTagged s s.socks5)
      (if-IsTagged s (text_eq s.kind type_http) (some (http_outbound s s.http)) _
        (http-IsTagged s s.http)
        (if-IsTagged s (text_eq s.kind type_shadowsocks) (shadowsocks_outbound s s.shadowsocks) _
          (shadowsocks-IsTagged s s.shadowsocks)
          (if-IsTagged s (text_eq s.kind type_trojan) (trojan_outbound s s.trojan mode) _
            (trojan-IsTagged s s.trojan mode)
            (if-IsTagged s (text_eq s.kind type_vmess) (vmess_outbound s s.vmess mode) _
              (vmess-IsTagged s s.vmess mode)
              (if-IsTagged s (text_eq s.kind type_vless) (vless_outbound s s.vless mode) none
                (vless-IsTagged s s.vless mode) (unfold IsTagged in tt))))))

outbound_of-tag :
    (s : Spec) (mode : Text) → supported mode s ≡ true → tag_of (outbound_of mode s) ≡ some s.id
unfolding outbound_of supported
outbound_of-tag s mode h = elim (Option-cases (build_outbound s mode)) [
  | inl e ↦ absurd (ground (arith, h, ap is_some e))
  | inr (v, e) ↦
      rw (e, outbound_of)
        (unfold IsTagged in (subst (IsTagged s) e (build_outbound-IsTagged s mode)))
]

has_tag-cons :
    (v : Value) (vs : List Value) (t u : Text)
    → tag_of v ≡ some t
    → has_tag (v ∷ vs) u ≡ (text_eq t u || has_tag vs u)
unfolding has_tag
has_tag-cons v vs t u e = rw (e, has_tag) refl

direct_outbound-tag : tag_of direct_outbound ≡ some (bytes "direct")
unfolding direct_outbound fields_of tag_of fields get_field text_of
direct_outbound-tag = refl

has_tag-outbounds :
    (mode : Text) (nodes : List Spec) (u : Text)
    → All (λ n. supported mode n ≡ true) nodes
    → has_tag (map (outbound_of mode) nodes ++ (direct_outbound ∷ [])) u
      ≡ (contains (map node_id nodes) u || text_eq (bytes "direct") u)
unfolding contains has_tag
has_tag-outbounds mode [] u h =
    has_tag-cons direct_outbound [] (bytes "direct") u direct_outbound-tag
    ∙ or_false_right (text_eq (bytes "direct") u)
has_tag-outbounds mode (n ∷ nodes) u (known, h) =
    has_tag-cons (outbound_of mode n) (map (outbound_of mode) nodes ++ (direct_outbound ∷ [])) n.id
      u (outbound_of-tag n mode known)
    ∙ (ap (λ b. text_eq n.id u || b) (has_tag-outbounds mode nodes u h)
        ∙ or_assoc (text_eq n.id u) _ _)
  where
    or_assoc : (a b c : Bool) → (a || (b || c)) ≡ ((a || b) || c)
    or_assoc true b c = refl
    or_assoc false b c = refl

-- For nodes that are all supported, the first rule that names a user, or no user, sends the user to the
-- outbound with the same tag if it is the ID of a node, and to "direct" otherwise. There is an outbound
-- with that tag.
pub route-has_tag :
    (mode : Text) (nodes : List Spec) (u : Text)
    → All (λ n. supported mode n ≡ true) nodes
    → (tag : Text) × (route (rules nodes) u ≡ some tag)
      × (tag ≡ (if contains (map node_id nodes) u then u else bytes "direct"))
      × (has_tag (outbounds mode nodes) tag ≡ true)
unfolding rules outbounds
route-has_tag mode nodes u h = (
  if contains (map node_id nodes) u then u else bytes "direct",
  route_nodes nodes u,
  refl,
  by_user (contains (map node_id nodes) u) refl,
)
  where
    by_user :
        (b : Bool)
        → contains (map node_id nodes) u ≡ b
        → has_tag
            (map (outbound_of mode) nodes ++ (direct_outbound ∷ []))
            (if b then u else bytes "direct")
          ≡ true
    by_user true e = has_tag-outbounds mode nodes u h ∙ ap (λ b. b || text_eq (bytes "direct") u) e
    by_user false e =
        has_tag-outbounds mode nodes (bytes "direct") h
        ∙ (ap (λ b. contains (map node_id nodes) (bytes "direct") || b)
              (text_eq_refl (bytes "direct"))
            ∙ or_true_right (contains (map node_id nodes) (bytes "direct")))
