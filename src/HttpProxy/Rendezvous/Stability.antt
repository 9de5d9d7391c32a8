-- ===== src/HttpProxy/Rendezvous/Stability.antt =====
-- `pickRendezvous` of sticky.go when the candidates change.
use easy_proxy_pool.Prelude.{
  ℕ, ◌≤◌, ◌≡◌, refl, ap, inl, inr, Bool, true, false, Option, none, some, List, [], ◌∷◌,
  if◌then◌else◌, ltb, arith, filter, Bool-cases,
}
use easy_proxy_pool.Prelude.Text.{Text}
use easy_proxy_pool.Pool.{Entry, key}
use easy_proxy_pool.HttpProxy.Rendezvous.{
  Best, better, excluded, hrw_score, pick_loop, picked, pick_rendezvous,
}

-- How the best so far over all candidates relates to the best over those that stay: they are the same,
-- or the former is one that goes, with a score at least as high.
data Tracks (keep : Entry → Bool) : Best → Best → Type 0 where
  same : (best : Best) → Tracks keep best best
  gone :
      (e : Entry) (s : ℕ) (other : Best)
      → keep e ≡ false
      → ((b : Entry × ℕ) → other ≡ some b → b.1 ≤ s)
      → Tracks keep (some (e, s)) other

module _ (keep : Entry → Bool) where
  Tracks-kept :
      (best other : Best) (e : Entry) (s : ℕ)
      → Tracks keep best other
      → Tracks keep (better best e s) (better other e s)
  unfolding better
  Tracks-kept best other e s (same _) = same _
  Tracks-kept best other e s (gone d t none out low) = elim (Bool-cases (ltb t s)) [
    | inl over ↦ rw over (same (some (e, s)))
    | inr under ↦ rw under (gone d t (some (e, s)) out (λ b q. ground arith))
  ]
  Tracks-kept best other e s (gone d t (some (o, u)) out low) = elim (Bool-cases (ltb t s)) [
    | inl over ↦
        let beaten : ltb u s ≡ true = ground (arith, low (o, u) refl) in
        rw (over, beaten) (same (some (e, s)))
    | inr under ↦ rw under (
        gone d t (if ltb u s then some (e, s) else some (o, u)) out
          (λ b q. ground (arith, low (o, u) refl)))
  ]

  Tracks-dropped :
      (best other : Best) (e : Entry) (s : ℕ)
      → keep e ≡ false
      → Tracks keep best other
      → Tracks keep (better best e s) other
  unfolding better
  Tracks-dropped best other e s out (same none) = gone e s none out (λ b q. cc)
  Tracks-dropped best other e s out (same (some (b, u))) = elim (Bool-cases (ltb u s)) [
    | inl over ↦ rw over (gone e s (some (b, u)) out (λ c q. ground arith))
    | inr under ↦ rw under (same (some (b, u)))
  ]
  Tracks-dropped best other e s out (gone d t o gone_out low) = elim (Bool-cases (ltb t s)) [
    | inl over ↦ rw over (gone e s o out (λ b q. ground (arith, low b q)))
    | inr under ↦ rw under (gone d t o gone_out low)
  ]

  Tracks-loop :
      (session : Text) (exclude : Option (List Text)) (es : List Entry) (best other : Best)
      → Tracks keep best other
      → Tracks keep
          (pick_loop session exclude best es)
          (pick_loop session exclude other (filter keep es))
  unfolding pick_loop
  Tracks-loop session exclude [] best other t = t
  Tracks-loop session exclude (e ∷ es) best other t = elim (Bool-cases (keep e)) [
    | inl kept ↦
        rw (kept, pick_loop)
          (Tracks-loop session exclude es _ _ (kept_step (excluded exclude (key e))))
    | inr dropped ↦
        rw dropped
          (Tracks-loop session exclude es _ _ (dropped_step (excluded exclude (key e)) dropped))
  ]
    where
      score : ℕ
      score = hrw_score session (key e)

      kept_step :
          (x : Bool)
          → Tracks keep
              (if x then best else better best e score)
              (if x then other else better other e score)
      kept_step true = t
      kept_step false = Tracks-kept best other e score t

      dropped_step :
          (x : Bool) → keep e ≡ false → Tracks keep (if x then best else better best e score) other
      dropped_step true d = t
      dropped_step false d = Tracks-dropped best other e score d t

  Tracks-picked :
      (best other : Best) (w : Entry)
      → Tracks keep best other
      → picked best ≡ some w
      → keep w ≡ true
      → picked other ≡ some w
  unfolding picked
  Tracks-picked best other w (same b) h k = h
  Tracks-picked best other w (gone e s o out low) h k =
      let q : e ≡ w = cc in absurd (cc (ap keep q, out, k))

-- When other upstreams go, a session whose own upstream stays keeps it: if the entry that
-- `pickRendezvous` picks is among those that stay, it picks the same one from them.
pub pick-stable :
    (keep : Entry → Bool) (es : List Entry) (session : Text) (exclude : Option (List Text))
    (e : Entry)
    → pick_rendezvous es session exclude ≡ some e
    → keep e ≡ true
    → pick_rendezvous (filter keep es) session exclude ≡ some e
unfolding pick_rendezvous
pick-stable keep es session exclude e h k =
    Tracks-picked keep _ _ e (Tracks-loop keep session exclude es none none (same none)) h k
