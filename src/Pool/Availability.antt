-- ===== src/Pool/Availability.antt =====
-- What `Get`, `Active`, `Stats` and `Next` of pool.go say of the same pool at the same time.
use easy_proxy_pool.Prelude.{
  ℕ, suc, ◌+◌, ◌≤◌, ◌<◌, ◌≡◌, ◌≢◌, ◌↔◌, ◌⊎◌, refl, ap, ◌∙◌, inl, inr, Bool, true, false, not, none,
  some, List, [], ◌∷◌, ltb, arith, length, get_elem?, filter, All, All-get, Option-cases,
  Bool-cases,
}
use easy_proxy_pool.Prelude.Text.{Text}
use easy_proxy_pool.Pool.{
  Entry, Pool, Tally, tally_entry, is_ready, is_disabled, next, active, tally, stats,
}
use easy_proxy_pool.Pool.Next.{Ready, next-Ready}

abbrev is_active : ℕ → Entry → Bool
is_active now e = not (is_disabled now e)

record Counted (now : ℕ) (t r : Tally) (es : List Entry) : Type 0 where
  active : r.active ≡ t.active + length (filter (is_active now) es)
  all : r.disabled + length (filter (is_active now) es) ≡ t.disabled + length es

tally-Counted : (now : ℕ) (t : Tally) (es : List Entry) → Counted now t (tally now t es) es
unfolding tally
tally-Counted now t [] = omega arith
tally-Counted now t (e ∷ es) = elim (Bool-cases (is_disabled now e)) [
  | inl d ↦ counted (tally-Counted now (tally_entry now t e) es)
  | inr d ↦ counted (tally-Counted now (tally_entry now t e) es)
]
  where
    counted : {r : Tally} → Counted now (tally_entry now t e) r es → Counted now t r (e ∷ es)
    counted c = unfold tally_entry in ground arith

record Latest (now : ℕ) (t r : Tally) (es : List Entry) : Type 0 where
  above : All (λ e. e.last_checked_at ≤ r.last) es
  from : t.last ≤ r.last
  met :
      (r.last ≡ t.last)
      ⊎ ((i : ℕ) × (e : Entry) × (get_elem? es i ≡ some e) × (e.last_checked_at ≡ r.last))

tally-Latest : (now : ℕ) (t : Tally) (es : List Entry) → Latest now t (tally now t es) es
unfolding tally
tally-Latest now t [] = record { above = tt; from = omega arith; met = inl refl }
tally-Latest now t (e ∷ es) =
    let r = tally-Latest now (tally_entry now t e) es in
    record {
      above = (first t e r.from, r.above);
      from = later t e r.from;
      met = elim r.met [
        | inl same ↦ start t e same
        | inr (i, x, held, same) ↦ inr (suc i, x, held, same)
      ];
    }
  where
    first : (t : Tally) (e : Entry) {n : ℕ} → (tally_entry now t e).last ≤ n → e.last_checked_at ≤ n
    first t e h = unfold tally_entry in ground arith

    later : (t : Tally) (e : Entry) {n : ℕ} → (tally_entry now t e).last ≤ n → t.last ≤ n
    later t e h = unfold tally_entry in ground arith

    start :
        (t : Tally) (e : Entry) {n : ℕ}
        → n ≡ (tally_entry now t e).last
        → (n ≡ t.last)
          ⊎ ((i : ℕ) × (x : Entry) × (get_elem? (e ∷ es) i ≡ some x) × (x.last_checked_at ≡ n))
    start t e h = elim (Bool-cases (ltb t.last e.last_checked_at)) [
      | inl newer ↦ inr (0, e, refl, unfold tally_entry in ground arith)
      | inr older ↦ inl (unfold tally_entry in ground arith)
    ]

-- `Stats` adds up with `Active`: the disabled entries and the active ones make up the total, and there
-- is an active one exactly if `Active` is not empty. The time of the last check is the latest of the
-- entries', or the zero time.
pub stats_lem :
    (p : Pool) (now : ℕ)
    → let s = stats p now in
      (s.total ≡ length p.entries)
      × (s.disabled + length (active p now) ≡ s.total)
      × (s.has_any_active ≡ ltb 0 (length (active p now)))
      × All (λ e. e.last_checked_at ≤ s.last_checked) p.entries
      × ((s.last_checked ≡ 0)
          ⊎ ((i : ℕ) × (e : Entry) × (get_elem? p.entries i ≡ some e)
              × (e.last_checked_at ≡ s.last_checked)))
unfolding stats active
stats_lem p now = (
  refl,
  omega (arith, counts.all),
  ap (ltb 0) (counts.active ∙ omega arith),
  latest.above,
  latest.met,
)
  where
    zeros : Tally
    zeros = record { disabled = 0; active = 0; last = 0 }

    counts : Counted now zeros (tally now zeros p.entries) p.entries
    counts = tally-Counted now zeros p.entries

    latest : Latest now zeros (tally now zeros p.entries) p.entries
    latest = tally-Latest now zeros p.entries

-- An entry that `Next` would take is one that `Get` and `Active` would take. The other way round they
-- differ at one instant only: `Next` passes over an entry whose backoff ends just then.
pub is_ready-is_disabled :
    (now : ℕ) (e : Entry)
    → (is_ready now e ≡ true → is_disabled now e ≡ false)
      × ((is_disabled now e ≡ false × is_ready now e ≡ false)
          ↔ (e.disabled_until ≡ now × e.disabled_until ≢ 0))
unfolding is_ready is_disabled
is_ready-is_disabled now e = (ground arith, (ground arith, ground arith))

-- At the instant at which the backoff of every entry ends, `Active` lists them all and `Next` returns
-- nothing.
pub next-active_disagree :
    (p : Pool) (strategy : Text) (now : ℕ) (draws : ℕ → ℕ)
    → 0 < now
    → All (λ e. e.disabled_until ≡ now) p.entries
    → (active p now ≡ p.entries) × ((next p strategy now draws).0 ≡ none)
unfolding active
next-active_disagree p strategy now draws pos h = (
  all_active p.entries h,
  elim (Option-cases (next p strategy now draws).0) [
    | inl e ↦ e
    | inr (e, found) ↦ absurd (not_ready e (next-Ready p strategy now draws e found))
  ],
)
  where
    not_ready : (e : Entry) → Ready p.entries now e → ⊥
    not_ready e r =
        unfold is_ready in ground (arith, r.ready, All-get _ p.entries r.position e h r.member)

    all_active :
        (es : List Entry) → All (λ e. e.disabled_until ≡ now) es → filter (is_active now) es ≡ es
    all_active [] h = refl
    all_active (e ∷ es) h = unfold is_disabled in ground (arith, all_active es h.1)
