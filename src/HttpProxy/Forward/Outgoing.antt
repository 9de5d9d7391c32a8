-- ===== src/HttpProxy/Forward/Outgoing.antt =====
-- The header of a request that is forwarded.
use easy_proxy_pool.Prelude.{
  ◌≡◌, ◌∙◌, Bool, ◌||◌, Option, none, List, [], ◌∷◌, if◌then◌else◌, arith, map,
}
use easy_proxy_pool.Prelude.Text.{Text, contains}
use easy_proxy_pool.Prelude.Map.{lookup, delete, lookup-delete}
use easy_proxy_pool.HttpProxy.Header.{
  Header, canonical_key, header_del, hop_by_hop, connection_tokens, strip_hop_by_hop_headers,
}
use easy_proxy_pool.HttpProxy.Header.Strip.{lookup-strip}
use easy_proxy_pool.HttpProxy.Policy.{
  header_sticky, header_failover, header_upstream, header_session,
}
use easy_proxy_pool.HttpProxy.Forward.{outgoing_header}

-- The headers that steer this proxy.
abbrev pub control_headers : List Text
control_headers = header_sticky ∷ header_failover ∷ header_upstream ∷ header_session ∷ []

-- The outgoing header has the headers of the client's request, unchanged, but for the hop-by-hop
-- headers ("Proxy-Authorization" is one), those that the first line of "Connection" names, and the four
-- that steer this proxy.
pub lookup-outgoing_header :
    (h : Header) (j : Text)
    → lookup (outgoing_header h) j ≡ (
        if contains (map canonical_key hop_by_hop) j
          || contains (map canonical_key (connection_tokens h)) j
          || contains (map canonical_key control_headers) j
        then none
        else lookup h j)
unfolding outgoing_header header_del
lookup-outgoing_header h j =
    deleted (strip_hop_by_hop_headers h) (canonical_key header_sticky)
      (canonical_key header_failover) (canonical_key header_upstream) (canonical_key header_session)
    ∙ combine (contains (map canonical_key hop_by_hop) j)
        (contains (map canonical_key (connection_tokens h)) j)
        (contains (map canonical_key control_headers) j) (lookup (strip_hop_by_hop_headers h) j)
        (lookup-strip h j)
  where
    deleted :
        (s : Header) (a b c d : Text)
        → lookup (delete (delete (delete (delete s a) b) c) d) j
          ≡ (if contains (a ∷ b ∷ c ∷ d ∷ []) j then none else lookup s j)
    deleted s a b c d =
        unfold contains in
        ground (
          arith,
          lookup-delete s a j,
          lookup-delete (delete s a) b j,
          lookup-delete (delete (delete s a) b) c j,
          lookup-delete (delete (delete (delete s a) b) c) d j,
        )

    combine :
        (x y z : Bool) (o : Option (List Text))
        → o ≡ (if x || y then none else lookup h j)
        → (if z then none else o) ≡ (if x || y || z then none else lookup h j)
    combine x y z o e = ground arith
