-- ===== src/HttpProxy/Rendezvous/Best.antt =====
-- Which candidate `pickRendezvous` of sticky.go returns.
use easy_proxy_pool.Prelude.{
  ℕ, zero, suc, ◌≤◌, ◌<◌, ◌≡◌, refl, sym, ap, ◌∙◌, ◌⊎◌, inl, inr, true, false, not, Option, none,
  some, List, [], ◌∷◌, ltb, arith, get_elem?, filter, Bool-cases, subst,
}
use easy_proxy_pool.Prelude.Text.{Text, contains}
use easy_proxy_pool.Pool.{Entry, key}
use easy_proxy_pool.HttpProxy.Rendezvous.{
  Best, better, excluded, hrw_score, pick_loop, picked, pick_rendezvous,
}

-- The candidate at position `i` is not excluded, no other has a higher score, and those before it have
-- lower ones.
pub record IsBest (session : Text) (exclude : Option (List Text)) (es : List Entry) (e : Entry)
    : Type 0 where
  pub position : ℕ
  pub member : get_elem? es position ≡ some e
  pub allowed : excluded exclude (key e) ≡ false
  pub highest :
      (j : ℕ) (x : Entry)
      → get_elem? es j ≡ some x
      → excluded exclude (key x) ≡ false
      → hrw_score session (key x) ≤ hrw_score session (key e)
  pub first :
      (j : ℕ) (x : Entry)
      → get_elem? es j ≡ some x
      → excluded exclude (key x) ≡ false
      → j < position
      → hrw_score session (key x) < hrw_score session (key e)

module _ (session : Text) (exclude : Option (List Text)) where
  abbrev score : Entry → ℕ
  score e = hrw_score session (key e)

  -- The best so far is as good as every candidate.
  abbrev Covers : List Entry → Best → Type 0
  Covers es best =
      (j : ℕ) (x : Entry)
      → get_elem? es j ≡ some x
      → excluded exclude (key x) ≡ false
      → (b : Entry × ℕ) × (best ≡ some b) × (score x ≤ b.1)

  abbrev Beats : Best → Entry → Type 0
  Beats best e = (b : Entry × ℕ) → best ≡ some b → b.1 < score e

  -- The loop keeps what it had, or ends with the best candidate.
  abbrev Outcome : List Entry → Best → Best → Type 0
  Outcome es best r =
      ((r ≡ best) × Covers es best)
      ⊎ ((e : Entry) × (r ≡ some (e, score e)) × IsBest session exclude es e × Beats best e)

  better-cases :
      (best : Best) (e : Entry)
      → ((better best e (score e) ≡ some (e, score e)) × Beats best e)
        ⊎ ((b : Entry × ℕ) × (best ≡ some b) × (score e ≤ b.1) × (better best e (score e) ≡ best))
  unfolding better
  better-cases none e = inl (refl, λ b q. cc)
  better-cases (some (b, s)) e = elim (Bool-cases (ltb s (score e))) [
    | inl over ↦ inl (rw over, λ c q. ground arith)
    | inr under ↦ inr ((b, s), refl, ground arith, rw under)
  ]

  -- A further candidate in front that does not win.
  shift-Best :
      (x e : Entry) (es : List Entry)
      → IsBest session exclude es e
      → (excluded exclude (key x) ≡ false → score x < score e)
      → IsBest session exclude (x ∷ es) e
  shift-Best x e es v low = record {
    position = suc v.position;
    member = v.member;
    allowed = v.allowed;
    highest = high;
    first = early;
  }
    where
      at_front :
          {y : Entry} → some x ≡ some y → excluded exclude (key y) ≡ false → score y < score e
      at_front {y} q a =
          subst (λ z. excluded exclude (key z) ≡ false → score z < score e) (unwrap q) low a
        where
          unwrap : some x ≡ some y → x ≡ y
          unwrap p = cc

      high :
          (j : ℕ) (y : Entry)
          → get_elem? (x ∷ es) j ≡ some y
          → excluded exclude (key y) ≡ false
          → score y ≤ score e
      high zero y q a = omega (arith, at_front q a)
      high (suc j) y q a = v.highest j y q a

      early :
          (j : ℕ) (y : Entry)
          → get_elem? (x ∷ es) j ≡ some y
          → excluded exclude (key y) ≡ false
          → j < suc v.position
          → score y < score e
      early zero y q a l = at_front q a
      early (suc j) y q a l = v.first j y q a (omega arith)

  -- The front candidate wins over the rest.
  front-Best :
      (x : Entry) (es : List Entry)
      → excluded exclude (key x) ≡ false
      → Covers es (some (x, score x))
      → IsBest session exclude (x ∷ es) x
  front-Best x es a c = record {
    position = 0;
    member = refl;
    allowed = a;
    highest = high;
    first = λ j y q b l. elim l [ ];
  }
    where
      high :
          (j : ℕ) (y : Entry)
          → get_elem? (x ∷ es) j ≡ some y
          → excluded exclude (key y) ≡ false
          → score y ≤ score x
      high zero y q b = let e : y ≡ x = cc in rw e (omega arith)
      high (suc j) y q b =
          let (best, same, low) = c j y q b in let e : best.1 ≡ score x = cc in omega arith

  skip-Outcome :
      (x : Entry) (es : List Entry) (best r : Best)
      → excluded exclude (key x) ≡ true
      → Outcome es best r
      → Outcome (x ∷ es) best r
  skip-Outcome x es best r out (inl (same, covers)) = inl (same, covers')
    where
      covers' : Covers (x ∷ es) best
      covers' zero y q a =
          let e : y ≡ x = cc in absurd (cc (ap (λ z. excluded exclude (key z)) e, out, a))
      covers' (suc j) y q a = covers j y q a
  skip-Outcome x es best r out (inr (e, same, v, beats)) =
      inr (e, same, shift-Best x e es v (λ a. cc (out, a)), beats)

  take-Outcome :
      (x : Entry) (es : List Entry) (best r : Best)
      → excluded exclude (key x) ≡ false
      → Beats best x
      → Outcome es (some (x, score x)) r
      → Outcome (x ∷ es) best r
  take-Outcome x es best r a beats (inl (same, covers)) =
      inr (x, same, front-Best x es a covers, beats)
  take-Outcome x es best r a beats (inr (e, same, v, over)) =
      let above : score x < score e = over (x, score x) refl in
      inr (e, same, shift-Best x e es v (λ _. above), λ b q. omega (arith, beats b q))

  keep-Outcome :
      (x : Entry) (es : List Entry) (best r : Best) (b : Entry × ℕ)
      → best ≡ some b
      → score x ≤ b.1
      → Outcome es best r
      → Outcome (x ∷ es) best r
  keep-Outcome x es best r b had low (inl (same, covers)) = inl (same, covers')
    where
      covers' : Covers (x ∷ es) best
      covers' zero y q a = let e : y ≡ x = cc in (b, had, rw e low)
      covers' (suc j) y q a = covers j y q a
  keep-Outcome x es best r b had low (inr (e, same, v, beats)) =
      let above : b.1 < score e = beats b had in
      inr (e, same, shift-Best x e es v (λ _. omega arith), beats)

  loop-Outcome :
      (es : List Entry) (best : Best) → Outcome es best (pick_loop session exclude best es)
  unfolding pick_loop
  loop-Outcome [] best = inl (refl, λ j x q a. cc)
  loop-Outcome (x ∷ es) best = elim (Bool-cases (excluded exclude (key x))) [
    | inl out ↦ rw out (skip-Outcome x es best _ out (loop-Outcome es best))
    | inr a ↦ elim (better-cases best x) [
      | inl (won, beats) ↦
          rw (a, won) (take-Outcome x es best _ a beats (loop-Outcome es (some (x, score x))))
      | inr (b, had, low, same) ↦
          rw (a, same) (keep-Outcome x es best _ b had low (loop-Outcome es best))
    ]
  ]

-- `pickRendezvous` returns the candidate with the highest score for the session, the first of those,
-- among the candidates whose keys are not excluded.
pub pick-IsBest :
    (es : List Entry) (session : Text) (exclude : Option (List Text)) (e : Entry)
    → pick_rendezvous es session exclude ≡ some e
    → IsBest session exclude es e
unfolding pick_rendezvous
pick-IsBest es session exclude e h = elim (loop-Outcome session exclude es none) [
  | inl (same, _) ↦ absurd (nothing (ap picked (sym same) ∙ h))
  | inr (w, same, v, _) ↦
      subst (IsBest session exclude es)
        (unwrap w (hrw_score session (key w)) (ap picked (sym same) ∙ h)) v
]
  where
    nothing : picked none ≡ some e → ⊥
    nothing q = unfold picked in cc

    unwrap : (w : Entry) (s : ℕ) → picked (some (w, s)) ≡ some e → w ≡ e
    unwrap w s q = unfold picked in cc

-- `pickRendezvous` returns no entry only if every candidate is excluded.
pub pick-none :
    (es : List Entry) (session : Text) (exclude : Option (List Text)) (j : ℕ) (x : Entry)
    → pick_rendezvous es session exclude ≡ none
    → get_elem? es j ≡ some x
    → excluded exclude (key x) ≡ true
unfolding pick_rendezvous
pick-none es session exclude j x h q = elim (Bool-cases (excluded exclude (key x))) [
  | inl out ↦ out
  | inr a ↦ absurd (elim (loop-Outcome session exclude es none) [
    | inl (_, covers) ↦ let (b, had, _) = covers j x q a in cc
    | inr (w, same, _, _) ↦ found w (hrw_score session (key w)) (ap picked (sym same) ∙ h)
  ])
]
  where
    found : (w : Entry) (s : ℕ) → picked (some (w, s)) ≡ none → ⊥
    found w s q = unfold picked in cc

-- Excluding keys is the same as leaving the entries with those keys out of the candidates.
pub pick-filter :
    (es : List Entry) (session : Text) (ks : List Text)
    → pick_rendezvous es session (some ks)
      ≡ pick_rendezvous (filter (λ e. not (contains ks (key e))) es) session none
unfolding pick_rendezvous
pick-filter es session ks = ap picked (go none es)
  where
    go :
        (best : Best) (es : List Entry)
        → pick_loop session (some ks) best es
          ≡ pick_loop session none best (filter (λ e. not (contains ks (key e))) es)
    go best [] = unfold pick_loop in refl
    go best (e ∷ es) = elim (Bool-cases (contains ks (key e))) [
      | inl out ↦ rw (out, pick_loop, excluded) (go best es)
      | inr kept ↦
          rw (kept, pick_loop, excluded) (go (better best e (hrw_score session (key e))) es)
    ]
