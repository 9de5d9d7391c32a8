-- ===== src/Updater/Legacy.antt =====
-- `runOnceLegacy` of updater.go: which addresses are in the pool after it.
use mathlib.Core.List.{Permᴰ}
use easy_proxy_pool.Prelude.{
  ℕ, ◌≡◌, refl, sym, ap, ◌∙◌, inl, inr, true, ◌&&◌, not, Option, some, List, [], ◌∷◌, arith, map,
  Bool-cases, Option-cases, subst,
}
use easy_proxy_pool.Prelude.Text.{Text, text_eq, text_eq_iff, text_eq_refl, contains}
use easy_proxy_pool.Prelude.Outcome.{done}
use easy_proxy_pool.Config.{Config}
use easy_proxy_pool.Fetcher.Merge.{Distinct}
use easy_proxy_pool.Pool.{Entry, update}
use easy_proxy_pool.Status.{UpdateDetails}
use easy_proxy_pool.Xray.Generate.Nodes.{is_some}
use easy_proxy_pool.Updater.{
  Round, Running, end_run, update_pool, passing, legacy_entries, finish_legacy, run_legacy,
  load_socks5_upstreams,
}

abbrev pub addr_of_entry : Entry → Text
addr_of_entry e = e.addr

abbrev result_addr : Text × ℕ → Text
result_addr (addr, latency) = addr

contains-Permᴰ :
    {xs ys : List (Text × ℕ)}
    → Permᴰ xs ys
    → (t : Text) → contains (map result_addr xs) t ≡ contains (map result_addr ys) t
unfolding contains
contains-Permᴰ Permᴰ.nil t = refl
contains-Permᴰ (Permᴰ.cons e d) t =
    ground (arith, ap (λ r. text_eq (result_addr r) t) e, contains-Permᴰ d t)
contains-Permᴰ (Permᴰ.swap e f) t =
    ground (arith, ap (λ r. text_eq (result_addr r) t) e, ap (λ r. text_eq (result_addr r) t) f)
contains-Permᴰ (Permᴰ.trans d e) t = contains-Permᴰ d t ∙ contains-Permᴰ e t

known :
    (check : Text → Option ℕ) (a t : Text)
    → text_eq a t ≡ true
    → is_some (check t) ≡ is_some (check a)
known check a t e = ap (λ b. is_some (check b)) (sym ((text_eq_iff a t).0 e))

passing-contains :
    (check : Text → Option ℕ) (addrs : List Text) (t : Text)
    → contains (map result_addr (passing check addrs)) t ≡ (contains addrs t && is_some (check t))
unfolding passing contains
passing-contains check [] t = refl
passing-contains check (a ∷ addrs) t = elim (Option-cases (check a)) [
  | inl bad ↦
      rw (bad, passing)
        (ground (arith, passing-contains check addrs t, ap is_some bad, known check a t))
  | inr (latency, good) ↦
      rw (good, passing)
        (ground (arith, passing-contains check addrs t, ap is_some good, known check a t))
]

legacy_entries-contains :
    (now : ℕ) (seen : List Text) (results : List (Text × ℕ)) (t : Text)
    → contains (map addr_of_entry (legacy_entries now seen results)) t
      ≡ (contains (map result_addr results) t && not (contains seen t))
unfolding legacy_entries contains
legacy_entries-contains now seen [] t = refl
legacy_entries-contains now seen ((addr, latency) ∷ results) t =
    elim (Bool-cases (contains seen addr)) [
      | inl old ↦
          rw (old, legacy_entries)
            (ground (arith, old, legacy_entries-contains now seen results t, text_eq_iff addr t))
      | inr new ↦
          rw (new, legacy_entries)
            (ground
              (arith, new, legacy_entries-contains now (addr ∷ seen) results t, text_eq_iff addr t))
    ]

legacy_entries-Distinct :
    (now : ℕ) (seen : List Text) (results : List (Text × ℕ))
    → Distinct (map addr_of_entry (legacy_entries now seen results))
unfolding legacy_entries
legacy_entries-Distinct now seen [] = tt
legacy_entries-Distinct now seen ((addr, latency) ∷ results) =
    elim (Bool-cases (contains seen addr)) [
      | inl old ↦ rw (old, legacy_entries) (legacy_entries-Distinct now seen results)
      | inr new ↦
          rw (new, legacy_entries)
            (
              legacy_entries-contains now (addr ∷ seen) results addr
                  ∙ unfold contains in ground (arith, text_eq_refl addr),
              legacy_entries-Distinct now (addr ∷ seen) results,
            )
    ]

-- The addresses that are in the entries of a round.
entries_of : Round → List Text → List Entry
entries_of rd proxies = legacy_entries rd.checked_at [] (rd.arrive (passing rd.check proxies))

entries_of-contains :
    (rd : Round) (proxies : List Text) (t : Text)
    → ((results : List (Text × ℕ)) → Permᴰ results (rd.arrive results))
    → contains (map addr_of_entry (entries_of rd proxies)) t
      ≡ (contains proxies t && is_some (rd.check t))
unfolding entries_of contains
entries_of-contains rd proxies t arrives =
    legacy_entries-contains rd.checked_at [] (rd.arrive (passing rd.check proxies)) t
    ∙ ground (
      arith,
      contains-Permᴰ (arrives (passing rd.check proxies)) t,
      passing-contains rd.check proxies t,
    )

finish_legacy-entries :
    (rd : Round) (s : Running) (d : UpdateDetails) (proxies : List Text) (t : Text)
    → contains (map addr_of_entry (entries_of rd proxies)) t ≡ true
    → (finish_legacy rd s d proxies).pool.entries ≡ entries_of rd proxies
unfolding finish_legacy end_run entries_of
finish_legacy-entries rd s d proxies t h = by_entries (entries_of rd proxies) h
  where
    by_entries :
        (es : List Entry)
        → contains (map addr_of_entry es) t ≡ true
        → (update_pool s es).pool.entries ≡ es
    by_entries [] h = absurd (unfold contains in cc)
    by_entries (e ∷ es) h = unfold update_pool in unfold update in refl

-- After a round that has loaded some addresses, of which one passes the health check, the pool has those
-- of them that pass, each once. The checks can end in any order.
pub run_legacy-contains :
    (sum256 : Text → Text) (cfg : Config) (rd : Round) (s : Running) (d : UpdateDetails)
    (proxies : List Text) (one : Text) (latency : ℕ)
    → ((results : List (Text × ℕ)) → Permᴰ results (rd.arrive results))
    → load_socks5_upstreams sum256 cfg rd.second ≡ done proxies
    → contains proxies one ≡ true
    → rd.check one ≡ some latency
    → (t : Running) × (run_legacy sum256 cfg rd s d ≡ some t)
      × ((a : Text)
          → contains (map addr_of_entry t.pool.entries) a
            ≡ (contains proxies a && is_some (rd.check a)))
      × Distinct (map addr_of_entry t.pool.entries)
unfolding run_legacy
run_legacy-contains sum256 cfg rd s d proxies one latency arrives loaded member passes = (
  finish_legacy rd s d proxies,
  rw (loaded, run_legacy) refl,
  (λ a.
      ap (λ es. contains (map addr_of_entry es) a) same ∙ entries_of-contains rd proxies a arrives),
  subst (λ es. Distinct (map addr_of_entry es)) (sym same)
      (unfold entries_of in
        legacy_entries-Distinct rd.checked_at [] (rd.arrive (passing rd.check proxies))),
)
  where
    same : (finish_legacy rd s d proxies).pool.entries ≡ entries_of rd proxies
    same =
        finish_legacy-entries rd s d proxies one
          (entries_of-contains rd proxies one arrives ∙ ground (arith, member, ap is_some passes))
