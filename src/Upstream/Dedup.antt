-- ===== src/Upstream/Dedup.antt =====
-- `Deduplicate` of spec.go.
use mathlib.Core.List.{Sublistᴰ}
use easy_proxy_pool.Prelude.{
  ◌≡◌, ◌≢◌, refl, sym, ◌∙◌, subst, inl, inr, true, false, Option, none, some, List, [], ◌∷◌,
  if◌then◌else◌, arith, All, Bool-cases, Option-cases,
}
use easy_proxy_pool.Prelude.Text.{Text, text_eq, text_eq_iff, contains}
use easy_proxy_pool.Prelude.Sort.{Unique}
use easy_proxy_pool.Upstream.{Spec, with_id, and_spec, dedup_loop, deduplicate}

-- The first spec with an ID.
pub find_id : Text → List Spec → Option Spec
find_id k [] = none
find_id k (s ∷ specs) = let rest = find_id k specs in if text_eq s.id k then some s else rest

abbrev pub id_of : Spec → Text
id_of s = s.id

-- What the loop returns for the specs `named`, with the IDs `seen`.
record Kept (seen : List Text) (named out : List Spec) : Type 0 where
  unique : Unique id_of out
  unseen : All (λ s. contains seen s.id ≡ false) out
  firsts : (k : Text) → contains seen k ≡ false → find_id k out ≡ find_id k named
  ordered : Sublistᴰ out named

Kept-skip :
    (seen : List Text) (s : Spec) (named out : List Spec)
    → contains seen s.id ≡ true
    → Kept seen named out
    → Kept seen (s ∷ named) out
unfolding find_id
Kept-skip seen s named out old v = record {
  unique = v.unique;
  unseen = v.unseen;
  firsts = λ k new. ground (arith, v.firsts k, text_eq_iff s.id k);
  ordered = Sublistᴰ.cons v.ordered;
}

Kept-add :
    (seen : List Text) (s : Spec) (named out : List Spec)
    → contains seen s.id ≡ false
    → Kept (s.id ∷ seen) named out
    → Kept seen (s ∷ named) (s ∷ out)
unfolding find_id
Kept-add seen s named out new v = record {
  unique = (others out v.unseen, v.unique);
  unseen = (new, older out v.unseen);
  firsts = λ k unseen. unfold contains in ground (arith, v.firsts k, text_eq_iff s.id k);
  ordered = Sublistᴰ.cons-cons refl v.ordered;
}
  where
    others :
        (out : List Spec)
        → All (λ t. contains (s.id ∷ seen) t.id ≡ false) out
        → All (λ t. s.id ≢ t.id) out
    others [] a = tt
    others (t ∷ out) (a, rest) =
        (λ e. unfold contains in ground (arith, text_eq_iff s.id t.id), others out rest)

    older :
        (out : List Spec)
        → All (λ t. contains (s.id ∷ seen) t.id ≡ false) out
        → All (λ t. contains seen t.id ≡ false) out
    older [] a = tt
    older (t ∷ out) (a, rest) = (unfold contains in ground arith, older out rest)

nothing : (x : List Spec) → none ≡ some x → ⊥
nothing x g = cc

unwrap : (x y : List Spec) → some x ≡ some y → x ≡ y
unwrap x y g = cc

module _ (sum256 : Text → Text) where
  -- Every spec with its ID; `none` is a panic.
  unfoldable pub with_ids : List Spec → Option (List Spec)
  with_ids [] = some []
  with_ids (s ∷ rest) = elim (with_id sum256 s) [
    | none ↦ none
    | some named ↦ and_spec named (with_ids rest)
  ]

  loop-Kept :
      (seen : List Text) (specs named : List Spec)
      → with_ids specs ≡ some named
      → (out : List Spec) × (dedup_loop sum256 seen specs ≡ some out) × Kept seen named out
  unfolding dedup_loop with_ids
  loop-Kept seen [] named h = (
    [],
    refl,
    subst (λ ns. Kept seen ns []) (unwrap [] named h)
        (record { unique = tt; unseen = tt; firsts = λ k new. refl; ordered = Sublistᴰ.slnil }),
  )
  loop-Kept seen (s ∷ specs) named h = elim (Option-cases (with_id sum256 s)) [
    | inl bad ↦ absurd (nothing named (rw (bad, with_ids) at h))
    | inr (n, good) ↦ elim (Option-cases (with_ids specs)) [
      | inl bad ↦ absurd (nothing named (rw (good, bad, with_ids) at h))
      | inr (ns, all) ↦
          subst
            (λ m.
              (out : List Spec) × (dedup_loop sum256 seen (s ∷ specs) ≡ some out) × Kept seen m out)
            (unwrap (n ∷ ns) named (rw (good, all, with_ids) at h))
            (elim (Bool-cases (contains seen n.id)) [
              | inl old ↦
                  let (out, done, v) = loop-Kept seen specs ns all in
                  (out, rw (good, old, dedup_loop) done, Kept-skip seen n ns out old v)
              | inr new ↦
                  let (out, done, v) = loop-Kept (n.id ∷ seen) specs ns all in
                  (n ∷ out, rw (good, new, done, dedup_loop) refl, Kept-add seen n ns out new v)
            ])
    ]
  ]

  -- `Deduplicate` of specs whose IDs can be computed returns a sublist of them, each with its ID. It
  -- has no ID twice, and for every ID it has the first spec with that ID.
  pub deduplicate_lem :
      (specs named : List Spec)
      → with_ids specs ≡ some named
      → (out : List Spec) × (deduplicate sum256 specs ≡ some out)
        × Unique id_of out
        × ((k : Text) → find_id k out ≡ find_id k named)
        × Sublistᴰ out named
  unfolding deduplicate contains
  deduplicate_lem specs named h =
      let (out, done, v) = loop-Kept [] specs named h in
      (out, done, v.unique, (λ k. v.firsts k refl), v.ordered)

  loop-panics :
      (seen : List Text) (specs : List Spec)
      → with_ids specs ≡ none
      → dedup_loop sum256 seen specs ≡ none
  unfolding dedup_loop with_ids
  loop-panics seen [] h = absurd (nothing [] (sym h))
  loop-panics seen (s ∷ specs) h = elim (Option-cases (with_id sum256 s)) [
    | inl bad ↦ rw (bad, dedup_loop) refl
    | inr (n, good) ↦ elim (Option-cases (with_ids specs)) [
      | inr (ns, all) ↦ absurd (nothing (n ∷ ns) (sym (rw (good, all, with_ids) at h)))
      | inl bad ↦ elim (Bool-cases (contains seen n.id)) [
        | inl old ↦ rw (good, old, dedup_loop) (loop-panics seen specs bad)
        | inr new ↦ rw (good, new, dedup_loop) (rw (loop-panics (n.id ∷ seen) specs bad) refl)
      ]
    ]
  ]

  pub deduplicate-Unique :
      (specs out : List Spec) → deduplicate sum256 specs ≡ some out → Unique id_of out
  unfolding deduplicate
  deduplicate-Unique specs out h = elim (Option-cases (with_ids specs)) [
    | inl bad ↦ absurd (nothing out (sym (loop-panics [] specs bad) ∙ h))
    | inr (named, all) ↦
        let (kept, done, u, firsts, ordered) = deduplicate_lem specs named all in
        subst (Unique id_of) (unwrap kept out (sym done ∙ h)) u
  ]
