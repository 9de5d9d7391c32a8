-- ===== src/Upstream/Known.antt =====
-- The specs whose IDs can be computed, and which xray's configuration supports.
use mathlib.Core.List.{Sublistᴰ}
use easy_proxy_pool.Prelude.{
  ◌≡◌, refl, sym, inl, inr, true, some, List, [], ◌∷◌, ◌++◌, take, All, Bool-cases, subst,
}
use easy_proxy_pool.Prelude.Text.{Text, bytes, is_blank}
use easy_proxy_pool.Prelude.Sort.{Unique}
use easy_proxy_pool.Upstream.{
  Spec, ShadowsocksConfig, VMessConfig, VlessConfig, TrojanConfig, type_socks5, type_http,
  type_shadowsocks, type_vmess, type_vless, type_trojan, join, common_parts, encode_to_string,
  kind_parts, canonical_vmess, canonical_vless, canonical_trojan, canonical_string, stable_node_id,
  normalize, with_id, deduplicate,
}
use easy_proxy_pool.Upstream.Dedup.{id_of, with_ids, deduplicate_lem}
use easy_proxy_pool.Xray.Outbound.{
  build_outbound, shadowsocks_outbound, trojan_outbound, vmess_outbound, vless_outbound,
}
use easy_proxy_pool.Xray.Generate.Nodes.{supported}

-- A spec of a type that is known, with the configuration that xray's outbound of the type needs: those of
-- socks5 and http are optional, and a spec that is made of an address has none.
pub data IsKnown (s : Spec) : Type 0 where
  socks5_known : s.kind ≡ type_socks5 → IsKnown s
  http_known : s.kind ≡ type_http → IsKnown s
  shadowsocks_known :
      (c : ShadowsocksConfig) → s.kind ≡ type_shadowsocks → s.shadowsocks ≡ some c → IsKnown s
  vmess_known : (c : VMessConfig) → s.kind ≡ type_vmess → s.vmess ≡ some c → IsKnown s
  vless_known : (c : VlessConfig) → s.kind ≡ type_vless → s.vless ≡ some c → IsKnown s
  trojan_known : (c : TrojanConfig) → s.kind ≡ type_trojan → s.trojan ≡ some c → IsKnown s

pub IsKnown-supported : (mode : Text) (s : Spec) → IsKnown s → supported mode s ≡ true
unfolding supported build_outbound shadowsocks_outbound trojan_outbound vmess_outbound
    vless_outbound
IsKnown-supported mode s (socks5_known e) = rw e refl
IsKnown-supported mode s (http_known e) = rw e refl
IsKnown-supported mode s (shadowsocks_known c e f) = rw (e, f) refl
IsKnown-supported mode s (vmess_known c e f) = rw (e, f) refl
IsKnown-supported mode s (vless_known c e f) = rw (e, f) refl
IsKnown-supported mode s (trojan_known c e f) = rw (e, f) refl

-- Its ID can be computed.
IsKnown-kind_parts : (s : Spec) → IsKnown s → (parts : List Text) × (kind_parts s ≡ some parts)
unfolding kind_parts canonical_vmess canonical_vless canonical_trojan
IsKnown-kind_parts s (socks5_known e) = rw e (_, refl)
IsKnown-kind_parts s (http_known e) = rw e (_, refl)
IsKnown-kind_parts s (shadowsocks_known c e f) = rw e (_, refl)
IsKnown-kind_parts s (vmess_known c e f) = rw (e, f) (_, refl)
IsKnown-kind_parts s (vless_known c e f) = rw (e, f) (_, refl)
IsKnown-kind_parts s (trojan_known c e f) = rw (e, f) (_, refl)

pub IsKnown-changed : (s : Spec) (id : Text) → IsKnown s → IsKnown (record s { id = id })
IsKnown-changed s id (socks5_known e) = socks5_known e
IsKnown-changed s id (http_known e) = http_known e
IsKnown-changed s id (shadowsocks_known c e f) = shadowsocks_known c e f
IsKnown-changed s id (vmess_known c e f) = vmess_known c e f
IsKnown-changed s id (vless_known c e f) = vless_known c e f
IsKnown-changed s id (trojan_known c e f) = trojan_known c e f

-- A property of specs that have their configurations, and which the ID does not touch, is kept where the
-- IDs are filled in and repeated ones are left out.
module _ (sum256 : Text → Text) (P : Spec → Type 0) (known : (s : Spec) → P s → IsKnown s)
    (changed : (s : Spec) (id : Text) → P s → P (record s { id = id })) where
  -- A result that is there, and of which `P` holds.
  pub normalize_kept : (s : Spec) → P s → (t : Spec) × (normalize sum256 s ≡ some t) × P t
  unfolding normalize stable_node_id canonical_string
  normalize_kept s u =
      let (parts, e) = IsKnown-kind_parts s (known s u) in
      let id : Text =
        bytes "n-"
        ++ take 12 (encode_to_string (sum256 (join (bytes "|") (common_parts s ++ parts)))) in
      (
        record s { id = id },
        rw (e, normalize, stable_node_id, canonical_string) refl,
        changed s id u,
      )

  with_id_kept : (s : Spec) → P s → (t : Spec) × (with_id sum256 s ≡ some t) × P t
  unfolding with_id
  with_id_kept s u = elim (Bool-cases (is_blank s.id)) [
    | inl blank ↦ rw (blank, with_id) (normalize_kept s u)
    | inr named ↦ (s, rw (named, with_id) refl, u)
  ]

  with_ids_kept :
      (specs : List Spec)
      → All P specs
      → (named : List Spec) × (with_ids sum256 specs ≡ some named) × All P named
  unfolding with_ids
  with_ids_kept [] h = ([], refl, tt)
  with_ids_kept (s ∷ specs) (u, h) =
      let (t, e, v) = with_id_kept s u in
      let (named, f, all) = with_ids_kept specs h in (t ∷ named, rw (e, f, with_ids) refl, (v, all))

  Sublistᴰ-All : {xs ys : List Spec} → Sublistᴰ xs ys → All P ys → All P xs
  Sublistᴰ-All Sublistᴰ.slnil h = tt
  Sublistᴰ-All (Sublistᴰ.cons d) (u, h) = Sublistᴰ-All d h
  Sublistᴰ-All (Sublistᴰ.cons-cons e d) (u, h) = (subst P (sym e) u, Sublistᴰ-All d h)

  pub deduplicate_kept :
      (specs : List Spec)
      → All P specs
      → (out : List Spec) × (deduplicate sum256 specs ≡ some out) × All P out × Unique id_of out
  deduplicate_kept specs h =
      let (named, f, all) = with_ids_kept specs h in
      let (out, e, u, firsts, ordered) = deduplicate_lem sum256 specs named f in
      (out, e, Sublistᴰ-All ordered all, u)
