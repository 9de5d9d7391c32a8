-- ===== src/Status/Isolation.antt =====
-- The maps of status.go: which of them the status and its callers share.
use easy_proxy_pool.Prelude.{
  ℕ, ◌<◌, ◌≤◌, ◌≡◌, ◌≢◌, refl, ap, ◌∙◌, Option, none, some, List, [], ◌∷◌, arith, All,
}
use easy_proxy_pool.Prelude.Text.{Text}
use easy_proxy_pool.Prelude.Map.{Map}
use easy_proxy_pool.Status.{
  Heap, make_map, write_map, clone_map, clone_details, NodeHealth, UpdateDetails, Status, Store,
  snapshot, set_end,
}

-- A reference to a map that was made.
abbrev pub Made : ℕ → Option ℕ → Type 0
Made next none = Unit {0}
Made next (some r) = r < next

module _ {ℓ} {V : Type ℓ} where
  -- The contents of a map that may be nil.
  abbrev pub read_map : Heap V → Option ℕ → Option (Map V)
  read_map h none = none
  read_map h (some r) = some (h.cells r)

  -- One map is another's copy: it has the contents that the other had, it is not shared with any
  -- reference made before, and all maps made before have the contents that they had.
  pub record IsCopy (h : Heap V) (r : Option ℕ) (c : Option ℕ) (g : Heap V) : Type ℓ where
    pub contents : read_map g c ≡ read_map h r
    pub unshared : (q : ℕ) → c ≡ some q → h.next ≤ q
    pub made : Made g.next c
    pub kept : (q : ℕ) → q < h.next → g.cells q ≡ h.cells q

  pub clone-IsCopy : (h : Heap V) (r : Option ℕ) → IsCopy h r (clone_map h r).0 (clone_map h r).1
  unfolding clone_map make_map
  clone-IsCopy h none = record {
    contents = refl;
    unshared = λ q e. absurd (cc);
    made = tt;
    kept = λ q l. refl;
  }
  clone-IsCopy h (some r) = record {
    contents = ground arith;
    unshared = λ q e. ground arith;
    made = omega arith;
    kept = λ q l. ground arith;
  }

  -- A write to one map is not seen in another.
  pub write-read :
      (h : Heap V) (r : ℕ) (k : Text) (v : V) (q : Option ℕ)
      → q ≢ some r
      → read_map (write_map h r k v) q ≡ read_map h q
  unfolding write_map
  write-read h r k v none ne = refl
  write-read h r k v (some q) ne = ground (arith, λ (e : q ≡ r). ne (ap some e))

  -- Writes one after another: the map, the key and the value of each.
  unfoldable pub write_all : Heap V → List (ℕ × Text × V) → Heap V
  write_all h [] = h
  write_all h ((r, k, v) ∷ ws) = write_all (write_map h r k v) ws

  pub write_all-read :
      (h : Heap V) (ws : List (ℕ × Text × V)) (q : Option ℕ)
      → All (λ w. q ≢ some w.0) ws
      → read_map (write_all h ws) q ≡ read_map h q
  unfolding write_all
  write_all-read h [] q all = refl
  write_all-read h ((r, k, v) ∷ ws) q (ne, all) =
      write_all-read (write_map h r k v) ws q all ∙ write-read h r k v q ne

  -- A copy is not changed by writes to maps that were made before it.
  pub IsCopy-write_all :
      (h : Heap V) (r c : Option ℕ) (g : Heap V) (ws : List (ℕ × Text × V))
      → IsCopy h r c g
      → All (λ w. w.0 < h.next) ws
      → read_map (write_all g ws) c ≡ read_map h r
  IsCopy-write_all h r c g ws copy old = write_all-read g ws c (others ws old) ∙ copy.contents
    where
      others : (ws : List (ℕ × Text × V)) → All (λ w. w.0 < h.next) ws → All (λ w. c ≢ some w.0) ws
      others [] a = tt
      others (w ∷ ws) (a, rest) =
          (λ e. absurd (omega (arith, a, copy.unshared w.0 e)), others ws rest)

  -- What was there before a copy is not changed by a write to the copy.
  pub IsCopy-original :
      (h : Heap V) (r c q : Option ℕ) (g : Heap V) (i : ℕ) (k : Text) (v : V)
      → IsCopy h r c g
      → Made h.next q
      → c ≡ some i
      → read_map (write_map g i k v) q ≡ read_map h q
  IsCopy-original h r c none g i k v copy made e = write-read g i k v none (λ f. absurd (cc))
  IsCopy-original h r c (some q) g i k v copy made e =
      write-read g i k v (some q) apart ∙ ap some (copy.kept q made)
    where
      unwrap : some q ≡ some i → q ≡ i
      unwrap f = cc

      apart : some q ≢ some i
      apart f = absurd (omega (arith, copy.unshared i e, unwrap f, made))

-- What `SetEnd` records of the map of skipped types is what its caller gave, and stays so whatever is
-- then written into maps that were there before the call.
pub set_end-isolated :
    (st : Store) (s : Status) (t fetched pool_size : ℕ) (err : Option Text) (d : UpdateDetails)
    (ws : List (ℕ × Text × ℕ))
    → All (λ w. w.0 < st.counts.next) ws
    → let (s', st') = set_end st s t fetched pool_size err d in
      read_map (write_all st'.counts ws) s'.last_details.skipped_by_type
      ≡ read_map st.counts d.skipped_by_type
unfolding set_end clone_details
set_end-isolated st s t fetched pool_size err d ws old =
    IsCopy-write_all st.counts d.skipped_by_type (clone_map st.counts d.skipped_by_type).0
      (clone_map st.counts d.skipped_by_type).1 ws (clone-IsCopy st.counts d.skipped_by_type) old

-- A snapshot's maps have the contents of the status's maps. A write into a map of the snapshot changes
-- no map of the status.
pub snapshot-isolated :
    (st : Store) (s : Status)
    → Made st.counts.next s.last_details.skipped_by_type
    → Made st.health.next s.last_node_health_relaxed
    → let (snap, st') = snapshot st s in
      (read_map st'.counts snap.last_details.skipped_by_type
        ≡ read_map st.counts s.last_details.skipped_by_type)
      × (read_map st'.health snap.last_node_health_relaxed
          ≡ read_map st.health s.last_node_health_relaxed)
      × ((r : ℕ) (k : Text) (v : ℕ)
          → snap.last_details.skipped_by_type ≡ some r
          → read_map (write_map st'.counts r k v) s.last_details.skipped_by_type
            ≡ read_map st.counts s.last_details.skipped_by_type)
      × ((r : ℕ) (k : Text) (v : NodeHealth)
          → snap.last_node_health_relaxed ≡ some r
          → read_map (write_map st'.health r k v) s.last_node_health_relaxed
            ≡ read_map st.health s.last_node_health_relaxed)
unfolding snapshot clone_details
snapshot-isolated st s counted healthy = (
  counts.contents,
  health.contents,
  λ r k v e.
      IsCopy-original st.counts s.last_details.skipped_by_type
        (clone_map st.counts s.last_details.skipped_by_type).0 s.last_details.skipped_by_type
        (clone_map st.counts s.last_details.skipped_by_type).1 r k v counts counted e,
  λ r k v e.
      IsCopy-original st.health s.last_node_health_relaxed
        (clone_map st.health s.last_node_health_relaxed).0 s.last_node_health_relaxed
        (clone_map st.health s.last_node_health_relaxed).1 r k v health healthy e,
)
  where
    counts :
        IsCopy st.counts s.last_details.skipped_by_type
          (clone_map st.counts s.last_details.skipped_by_type).0
          (clone_map st.counts s.last_details.skipped_by_type).1
    counts = clone-IsCopy st.counts s.last_details.skipped_by_type

    health :
        IsCopy st.health s.last_node_health_relaxed
          (clone_map st.health s.last_node_health_relaxed).0
          (clone_map st.health s.last_node_health_relaxed).1
    health = clone-IsCopy st.health s.last_node_health_relaxed
