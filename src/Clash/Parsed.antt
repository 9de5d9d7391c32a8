-- ===== src/Clash/Parsed.antt =====
-- The specs that `ParseYAML` of parser.go returns, against the proxies of the document.
use easy_proxy_pool.Prelude.{
  ℕ, zero, suc, ◌≡◌, refl, Bool, true, false, Option, none, some, List, [], ◌∷◌, ◌++◌,
  if◌then◌else◌, All, All-append, get_elem?,
}
use easy_proxy_pool.Prelude.Text.{Text, bytes, is_blank, to_lower}
use easy_proxy_pool.Prelude.Value.{Fields}
use easy_proxy_pool.Prelude.Outcome.{Outcome, done, failed, panicked}
use easy_proxy_pool.Prelude.Sort.{Unique}
use easy_proxy_pool.Upstream.{Spec}
use easy_proxy_pool.Upstream.Dedup.{id_of}
use easy_proxy_pool.Sources.{ParseReport}
use easy_proxy_pool.Clash.{
  Proxy, spec, missing, unknown, parse_proxy, empty_report, add_normalized, add_proxy, add_raw,
  add_raws, finish_report, parse_document, parse_yaml,
}
use easy_proxy_pool.Clash.Made.{IsMade, IsMade-changed, configured-IsKnown}
use easy_proxy_pool.Clash.Cases.{IsParsed, parse_proxy-IsParsed}
use easy_proxy_pool.Upstream.Known.{IsKnown, normalize_kept, deduplicate_kept}
use easy_proxy_pool.Clash.Values.{Decoding, get_one}

-- What `ParseYAML` promises of a spec: it is made from one of the proxies.
pub record IsUsable (dec : Decoding) (raws : List Fields) (s : Spec) : Type 0 where
  pub raw : Fields
  pub place : ℕ
  pub offered : get_elem? raws place ≡ some raw
  pub made :
      IsMade dec raw (get_one dec raw (bytes "name")) (to_lower (get_one dec raw (bytes "type"))) s

pub usable-IsKnown :
    (dec : Decoding) (raws : List Fields) (s : Spec) → IsUsable dec raws s → IsKnown s
usable-IsKnown dec raws s u = configured-IsKnown dec u.raw _ s u.made.configured

IsUsable-changed :
    (dec : Decoding) (raws : List Fields) (s : Spec) (id : Text)
    → IsUsable dec raws s
    → IsUsable dec raws (record s { id = id })
IsUsable-changed dec raws s id u = record {
  raw = u.raw;
  place = u.place;
  offered = u.offered;
  made = IsMade-changed dec u.raw _ _ s id u.made;
}

-- A proxy of the document.
IsOffered : List Fields → Fields → Type 0
IsOffered raws raw = (i : ℕ) × (get_elem? raws i ≡ some raw)

All-at :
    (P : Fields → Type 0) (raws : List Fields)
    → ((i : ℕ) (raw : Fields) → get_elem? raws i ≡ some raw → P raw)
    → All P raws
All-at P [] h = tt
All-at P (raw ∷ raws) h = (h zero raw refl, All-at P raws (λ i r e. h (suc i) r e))

module _ (sum256 : Text → Text) where
  module _ (dec : Decoding) where
    -- The result of a round of the loop: there is one, and its specs are usable.
    IsReported : List Fields → Option ParseReport → Type 0
    IsReported raws none = ⊥
    IsReported raws (some r) = All (IsUsable dec raws) r.specs

    add_proxy-IsReported :
        (all : List Fields) (r : ParseReport) (raw : Fields) (typ : Text) (p : Proxy dec)
        → All (IsUsable dec all) r.specs
        → IsOffered all raw
        → IsParsed dec raw
            (get_one dec raw (bytes "name"))
            (to_lower (get_one dec raw (bytes "type")))
            p
        → IsReported all (add_proxy dec sum256 r typ p)
    unfolding add_proxy IsParsed IsReported add_normalized IsOffered
    add_proxy-IsReported all r raw typ (spec s) h (i, e) u =
        let usable : IsUsable dec all s = record { raw = raw; place = i; offered = e; made = u } in
        let (t, f, v) =
          normalize_kept sum256 (IsUsable dec all) (usable-IsKnown dec all)
            (IsUsable-changed dec all) s usable in
        rw (f, add_proxy, add_normalized, IsReported)
          (All-append (IsUsable dec all) r.specs (t ∷ []) h (v, tt))
    add_proxy-IsReported all r raw typ (missing problem) h o u = h
    add_proxy-IsReported all r raw typ unknown h o u = h

    add_raw-IsReported :
        (all : List Fields) (r : ParseReport) (raw : Fields)
        → All (IsUsable dec all) r.specs
        → IsOffered all raw
        → IsReported all (add_raw dec sum256 r raw)
    unfolding add_raw
    add_raw-IsReported all r raw h o =
        by_type (is_blank (to_lower (get_one dec raw (bytes "type")))) _ _ h (
          add_proxy-IsReported all r raw typ (parse_proxy dec raw name typ) h o
            (parse_proxy-IsParsed dec raw name typ))
      where
        name : Text
        name = get_one dec raw (bytes "name")

        typ : Text
        typ = to_lower (get_one dec raw (bytes "type"))

        by_type :
            (b : Bool) (q : ParseReport) (x : Option ParseReport)
            → All (IsUsable dec all) q.specs
            → IsReported all x
            → IsReported all (if b then some q else x)
        by_type true q x h k = unfold IsReported in h
        by_type false q x h k = k

    add_raws-IsReported :
        (all : List Fields) (r : ParseReport) (raws : List Fields)
        → All (IsUsable dec all) r.specs
        → All (IsOffered all) raws
        → IsReported all (add_raws dec sum256 r raws)
    unfolding add_raws IsReported
    add_raws-IsReported all r [] h o = h
    add_raws-IsReported all r (raw ∷ raws) h (o, os) =
        by_first (add_raw dec sum256 r raw) (add_raw-IsReported all r raw h o)
          (λ q k. add_raws-IsReported all q raws k os)
      where
        by_first :
            (o : Option ParseReport)
            → IsReported all o
            → ((q : ParseReport)
                → All (IsUsable dec all) q.specs
                → IsReported all (add_raws dec sum256 q raws))
            → IsReported all (elim o [ none ↦ none | some q ↦ add_raws dec sum256 q raws ])
        by_first none k rest = k
        by_first (some q) k rest = rest q k

    -- What `ParseYAML` promises: a document that is decoded gives a report, whose specs are usable and have
    -- IDs that all differ; an error is that of the decoder.
    unfoldable pub IsPromised : Outcome (List Fields) → Outcome ParseReport → Type 0
    IsPromised (done raws) (done r) = All (IsUsable dec raws) r.specs × Unique id_of r.specs
    IsPromised (done raws) (failed e) = ⊥
    IsPromised (done raws) panicked = ⊥
    IsPromised (failed e) o = o ≡ failed (bytes "parse clash yaml: " ++ e)
    IsPromised panicked o = o ≡ panicked

    -- `ParseYAML` does not panic on a document that is decoded. No two specs that it returns have the same ID.
    -- Each is made from one of the proxies of the document: it has the name of that one, its server, not
    -- empty, its positive port, the type that its own stands for, and the configuration of that type with
    -- the credentials of the proxy, which are not empty for the types that need them.
    pub parse_yaml-IsPromised :
        (text : Text) → IsPromised (dec.unmarshal text) (parse_yaml dec sum256 text)
    unfolding parse_yaml parse_document finish_report IsPromised IsOffered
    parse_yaml-IsPromised text = by_document (dec.unmarshal text)
      where
        by_report :
            (raws : List Fields) (o : Option ParseReport)
            → IsReported raws o
            → IsPromised (done raws) (finish_report dec sum256 o)
        by_report raws none h = absurd (unfold IsReported in h)
        by_report raws (some r) h =
            let (out, e, u, unique) =
              deduplicate_kept sum256 (IsUsable dec raws) (usable-IsKnown dec raws)
                (IsUsable-changed dec raws) r.specs (unfold IsReported in h) in
            rw (e, finish_report) (unfold IsPromised in (u, unique))

        by_document : (x : Outcome (List Fields)) → IsPromised x (parse_document dec sum256 x)
        by_document panicked = unfold IsPromised in refl
        by_document (failed e) = unfold IsPromised in refl
        by_document (done raws) = by_report raws _ (
            add_raws-IsReported raws (empty_report dec) raws tt
              (All-at (IsOffered raws) raws (λ i raw e. (i, e))))
