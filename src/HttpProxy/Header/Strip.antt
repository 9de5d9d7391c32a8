-- ===== src/HttpProxy/Header/Strip.antt =====
-- Which headers `stripHopByHopHeaders` of proxy.go takes away.
use easy_proxy_pool.Prelude.{◌≡◌, refl, ◌||◌, none, List, [], ◌∷◌, if◌then◌else◌, arith, map}
use easy_proxy_pool.Prelude.Text.{Text, contains}
use easy_proxy_pool.Prelude.Map.{lookup, delete, lookup-delete}
use easy_proxy_pool.HttpProxy.Header.{
  Header, canonical_key, header_del, header_del_all, hop_by_hop, connection_tokens,
  strip_hop_by_hop_headers,
}

lookup-header_del_all :
    (ks : List Text) (h : Header) (j : Text)
    → lookup (header_del_all h ks) j
      ≡ (if contains (map canonical_key ks) j then none else lookup h j)
unfolding header_del_all header_del contains
lookup-header_del_all [] h j = refl
lookup-header_del_all (k ∷ ks) h j = ground (
  arith,
  lookup-header_del_all ks (delete h (canonical_key k)) j,
  lookup-delete h (canonical_key k) j,
)

-- The headers that `stripHopByHopHeaders` leaves are exactly those that are neither on the fixed list
-- nor named in the first line of the "Connection" header; their values are unchanged.
pub lookup-strip :
    (h : Header) (j : Text)
    → lookup (strip_hop_by_hop_headers h) j ≡ (
        if contains (map canonical_key hop_by_hop) j
          || contains (map canonical_key (connection_tokens h)) j
        then none
        else lookup h j)
unfolding strip_hop_by_hop_headers
lookup-strip h j = ground (
  arith,
  lookup-header_del_all (connection_tokens h) (header_del_all h hop_by_hop) j,
  lookup-header_del_all hop_by_hop h j,
)
