-- ===== src/Sources/Loaded.antt =====
-- The addresses and the specs that `Load` of loader.go returns, against what the sources offer.
use easy_proxy_pool.Prelude.{
  ◌≡◌, refl, sym, ◌∙◌, ◌⊎◌, inl, inr, Bool, true, false, ◌||◌, ◌&&◌, ◌++◌, Option, none, some, List,
  [], ◌∷◌, if◌then◌else◌, arith,
}
use easy_proxy_pool.Prelude.Text.{Text, bytes, text_eq, is_blank, contains, to_lower, trim_space}
use easy_proxy_pool.Prelude.Sort.{Unique}
use easy_proxy_pool.Prelude.Outcome.{
  Outcome, done, failed, panicked, and_then, Ensures, Ensures-and_then, Ensures-map,
}
use easy_proxy_pool.Config.{SourceConfig}
use easy_proxy_pool.Fetcher.{add_entry}
use easy_proxy_pool.Fetcher.Merge.{is_entry, IsFound, Adds, Adds-then, add_entry-Adds, Distinct}
use easy_proxy_pool.Upstream.{Spec, Socks5Config, type_socks5, deduplicate}
use easy_proxy_pool.Upstream.Dedup.{id_of, deduplicate-Unique}
use easy_proxy_pool.Sources.{
  World, ParseReport, LoadResult, Loading, addr_of, add_addr, add_addrs, server_addr, add_node,
  add_nodes, add_raw_list, add_report, load_raw_list, load_clash_yaml, load_source, type_problem,
  load_sources, nothing_loaded, is_empty, finish_load, load,
}

-- Whether a node is of type SOCKS5 without a login.
usable : Spec → Option Socks5Config → Bool
usable s none = false
usable s (some c) = text_eq s.kind type_socks5 && (is_blank c.username && is_blank c.password)

-- The address that a node gives.
node_addr : Spec → Option Text
unfolding usable
node_addr s = if usable s s.socks5 then addr_of (server_addr s) else none

addrs_offer : List Text → Text → Bool
addrs_offer [] t = false
addrs_offer (a ∷ addrs) t = is_entry (addr_of a) t || addrs_offer addrs t

nodes_offer : List Spec → Text → Bool
nodes_offer [] t = false
nodes_offer (s ∷ specs) t = is_entry (node_addr s) t || nodes_offer specs t

add_addrs-Adds :
    (l : Loading) (addrs : List Text)
    → IsFound l.addrs
    → Adds (addrs_offer addrs) l.addrs (add_addrs l addrs).addrs
unfolding add_addrs addrs_offer add_addr
add_addrs-Adds l [] v = record { found = v; members = λ t. ground arith }
add_addrs-Adds l (a ∷ addrs) v =
    Adds-then (is_entry (addr_of a)) (addrs_offer addrs) l.addrs (add_entry l.addrs (addr_of a))
      (add_addrs (add_addr l a) addrs).addrs first (add_addrs-Adds (add_addr l a) addrs first.found)
  where
    first : Adds (is_entry (addr_of a)) l.addrs (add_entry l.addrs (addr_of a))
    first = add_entry-Adds l.addrs (addr_of a) v

add_config-addrs :
    (quote : Text → Text) (l : Loading) (s : Spec) (c : Option Socks5Config)
    → (add_node quote l s c).addrs
      ≡ add_entry l.addrs (if usable s c then addr_of (server_addr s) else none)
unfolding add_node usable add_entry add_addr
add_config-addrs quote l s none = refl
add_config-addrs quote l s (some c) =
    by_tests (text_eq s.kind type_socks5) (is_blank c.username) (is_blank c.password) refl refl refl
  where
    by_tests :
        (a b d : Bool)
        → text_eq s.kind type_socks5 ≡ a
        → is_blank c.username ≡ b
        → is_blank c.password ≡ d
        → (add_node quote l s (some c)).addrs
          ≡ add_entry l.addrs (if usable s (some c) then addr_of (server_addr s) else none)
    by_tests true true true g h k = rw (g, h, k, add_node, usable) refl
    by_tests true true false g h k = rw (g, h, k, add_node, usable) refl
    by_tests true false d g h k = rw (g, h, add_node, usable) refl
    by_tests false b d g h k = rw (g, add_node, usable) refl

add_node-addrs :
    (quote : Text → Text) (l : Loading) (s : Spec)
    → (add_node quote l s s.socks5).addrs ≡ add_entry l.addrs (node_addr s)
unfolding node_addr
add_node-addrs quote l s = add_config-addrs quote l s s.socks5

add_nodes-Adds :
    (quote : Text → Text) (l : Loading) (specs : List Spec)
    → IsFound l.addrs
    → Adds (nodes_offer specs) l.addrs (add_nodes quote l specs).addrs
unfolding add_nodes nodes_offer
add_nodes-Adds quote l [] v = record { found = v; members = λ t. ground arith }
add_nodes-Adds quote l (s ∷ specs) v =
    Adds-then (is_entry (node_addr s)) (nodes_offer specs) l.addrs
      (add_node quote l s s.socks5).addrs
      (add_nodes quote (add_node quote l s s.socks5) specs).addrs first
      (add_nodes-Adds quote (add_node quote l s s.socks5) specs first.found)
  where
    first : Adds (is_entry (node_addr s)) l.addrs (add_node quote l s s.socks5).addrs
    first = rw (add_node-addrs quote l s) (add_entry-Adds l.addrs (node_addr s) v)

-- What a source offers: the addresses of a list, or of the nodes of a document.
list_offers : Outcome (List Text × List Text) → Text → Bool
list_offers (done (addrs, problems)) t = addrs_offer addrs t
list_offers (failed e) t = false
list_offers panicked t = false

document_offers : Outcome ParseReport → Text → Bool
document_offers (done rep) t = nodes_offer rep.specs t
document_offers (failed e) t = false
document_offers panicked t = false

pub source_offers : World → SourceConfig → Text → Bool
unfolding list_offers document_offers
source_offers w src t =
    let typ = to_lower (trim_space src.kind) in
    if text_eq typ (bytes "raw_list")
    then list_offers (load_raw_list w src) t
    else if text_eq typ (bytes "clash_yaml")
    then document_offers (load_clash_yaml w src) t
    else false

pub sources_offer : World → List SourceConfig → Text → Bool
sources_offer w [] t = false
sources_offer w (src ∷ sources) t = source_offers w src t || sources_offer w sources t

list-Adds :
    (l : Loading) (x : Outcome (List Text × List Text))
    → IsFound l.addrs
    → Ensures
        (λ m. Adds (list_offers x) l.addrs m.addrs)
        (and_then x (λ found. done (add_raw_list l found)))
unfolding list_offers add_raw_list
list-Adds l (done (addrs, problems)) v =
    add_addrs-Adds (record l { problems = l.problems ++ problems }) addrs v
list-Adds l (failed e) v = tt
list-Adds l panicked v = tt

document-Adds :
    (quote : Text → Text) (l : Loading) (x : Outcome ParseReport)
    → IsFound l.addrs
    → Ensures
        (λ m. Adds (document_offers x) l.addrs m.addrs)
        (and_then x (λ rep. done (add_report quote l rep)))
unfolding document_offers add_report
document-Adds quote l (done rep) v = add_nodes-Adds quote _ rep.specs v
document-Adds quote l (failed e) v = tt
document-Adds quote l panicked v = tt

load_source-Adds :
    (w : World) (l : Loading) (src : SourceConfig)
    → IsFound l.addrs
    → Ensures (λ m. Adds (source_offers w src) l.addrs m.addrs) (load_source w l src)
unfolding source_offers load_source
load_source-Adds w l src v =
    by_type (text_eq (to_lower (trim_space src.kind)) (bytes "raw_list"))
      (text_eq (to_lower (trim_space src.kind)) (bytes "clash_yaml"))
  where
    by_type :
        (a b : Bool)
        → Ensures
            (λ m.
              Adds
                (λ t.
                  if a
                  then list_offers (load_raw_list w src) t
                  else if b
                  then document_offers (load_clash_yaml w src) t
                  else false)
                l.addrs
                m.addrs)
            (if a
              then and_then (load_raw_list w src) (λ found. done (add_raw_list l found))
              else if b
              then and_then (load_clash_yaml w src) (λ rep. done (add_report w.quote l rep))
              else done (record l { problems = l.problems ++ (type_problem w.quote src ∷ []) }))
    by_type true b = list-Adds l (load_raw_list w src) v
    by_type false true = document-Adds w.quote l (load_clash_yaml w src) v
    by_type false false = record { found = v; members = λ t. ground arith }

load_sources-Adds :
    (w : World) (l : Loading) (sources : List SourceConfig)
    → IsFound l.addrs
    → Ensures (λ m. Adds (sources_offer w sources) l.addrs m.addrs) (load_sources w l sources)
unfolding load_sources sources_offer
load_sources-Adds w l [] v = record { found = v; members = λ t. ground arith }
load_sources-Adds w l (src ∷ sources) v =
    Ensures-and_then (λ m. Adds (source_offers w src) l.addrs m.addrs)
      (λ n. Adds (sources_offer w (src ∷ sources)) l.addrs n.addrs) (load_source w l src)
      (λ m. load_sources w m sources) (load_source-Adds w l src v)
      (λ m first.
        Ensures-map (λ n. Adds (sources_offer w sources) m.addrs n.addrs)
          (λ n. Adds (sources_offer w (src ∷ sources)) l.addrs n.addrs) (load_sources w m sources)
          (λ n.
            Adds-then (source_offers w src) (sources_offer w sources) l.addrs m.addrs n.addrs first)
          (load_sources-Adds w m sources first.found))

-- What `Load` promises: of a result, of its own error, and of an error of a source, which ends the loop.
pub IsGathered : World → List SourceConfig → Outcome LoadResult → Type 0
IsGathered w sources (done r) =
    ((t : Text) → contains r.socks5_addrs t ≡ sources_offer w sources t)
    × Distinct r.socks5_addrs
    × Unique id_of r.specs
    × (is_empty r.socks5_addrs && is_empty r.specs ≡ false)
IsGathered w sources (failed e) =
    (load_sources w nothing_loaded sources ≡ failed e)
    ⊎ ((e ≡ bytes "no usable entries from sources")
        × ((t : Text) → sources_offer w sources t ≡ false))
IsGathered w sources panicked = Unit

contains-is_empty : (ts : List Text) (t : Text) → is_empty ts ≡ true → contains ts t ≡ false
unfolding contains
contains-is_empty [] t e = refl
contains-is_empty (x ∷ ts) t e = cc

finish_load-IsGathered :
    (sum256 : Text → Text) (w : World) (sources : List SourceConfig) (l : Loading)
    → Adds (sources_offer w sources) nothing_loaded.addrs l.addrs
    → IsGathered w sources (finish_load l (deduplicate sum256 l.specs))
unfolding IsGathered finish_load
finish_load-IsGathered sum256 w sources l v = by_specs (deduplicate sum256 l.specs) refl
  where
    offered : (t : Text) → contains l.addrs.out t ≡ sources_offer w sources t
    offered t = unfold contains in v.members t

    none_offered : is_empty l.addrs.out ≡ true → (t : Text) → sources_offer w sources t ≡ false
    none_offered e t = sym (offered t) ∙ contains-is_empty l.addrs.out t e

    by_test :
        (specs : List Spec) (b : Bool)
        → is_empty l.addrs.out && is_empty specs ≡ b
        → Unique id_of specs
        → IsGathered w sources (
            if b
            then failed (bytes "no usable entries from sources")
            else done (record {
              specs = specs;
              socks5_addrs = l.addrs.out;
              problems = l.problems;
              skipped = l.skipped;
            }))
    by_test specs true e u = inr (refl, none_offered (ground (arith, e)))
    by_test specs false e u = (offered, v.found.distinct, u, e)

    by_specs :
        (o : Option (List Spec))
        → deduplicate sum256 l.specs ≡ o
        → IsGathered w sources (finish_load l o)
    by_specs none e = tt
    by_specs (some specs) e =
        by_test specs (is_empty l.addrs.out && is_empty specs) refl
          (deduplicate-Unique sum256 l.specs specs e)

-- The addresses that `Load` returns are those that the sources offer, none twice, and no two specs have
-- the same ID. One of the two is not empty. An error is that of a source, or there is no address on offer.
pub load-IsGathered :
    (sum256 : Text → Text) (w : World) (sources : List SourceConfig)
    → IsGathered w sources (load sum256 w sources)
unfolding load IsGathered
load-IsGathered sum256 w sources =
    by_loop (load_sources w nothing_loaded sources) refl
      (load_sources-Adds w nothing_loaded sources (record { same = λ t. refl; distinct = tt }))
  where
    by_loop :
        (x : Outcome Loading)
        → load_sources w nothing_loaded sources ≡ x
        → Ensures (λ m. Adds (sources_offer w sources) nothing_loaded.addrs m.addrs) x
        → IsGathered w sources (and_then x (λ l. finish_load l (deduplicate sum256 l.specs)))
    by_loop (done l) e v = finish_load-IsGathered sum256 w sources l v
    by_loop (failed text) e v = inl e
    by_loop panicked e v = tt
