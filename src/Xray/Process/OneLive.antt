-- ===== src/Xray/Process/OneLive.antt =====
-- The processes of manager.go over any history of calls.
use easy_proxy_pool.Prelude.{
  ℕ, ◌+◌, ◌<◌, ◌≡◌, ◌≢◌, refl, sym, ap, ◌∙◌, inl, inr, Bool, true, false, ◌||◌, none, some, List,
  [], ◌∷◌, if◌then◌else◌, ◌==◌, arith, length, length-append, Bool-cases, Option-cases,
}
use easy_proxy_pool.Prelude.Text.{Text}
use easy_proxy_pool.Xray.Process.{Instance, new_instance, kill, start}

-- Whether a number is in a list.
pub one_of : List ℕ → ℕ → Bool
one_of [] p = false
one_of (q ∷ qs) p = let rest = one_of qs p in if q == p then true else rest

-- No kill of the one in `proc` was tried; of every other process that was started one was, once: it is
-- among the killed, or among those whose kill gave an error, and not in both.
pub record IsOneLive (i : Instance) : Type 0 where
  pub owned :
      (p : ℕ)
      → i.proc ≡ some p
      → (p < i.started) × (one_of i.killed p ≡ false) × (one_of i.unkilled p ≡ false)
  pub others :
      (q : ℕ) → q < i.started → i.proc ≢ some q → (one_of i.killed q || one_of i.unkilled q) ≡ true
  pub known : (q : ℕ) → (one_of i.killed q || one_of i.unkilled q) ≡ true → q < i.started
  pub apart : (q : ℕ) → one_of i.killed q ≡ true → one_of i.unkilled q ≡ false
  pub counted : length i.configs ≡ i.started

pub new-IsOneLive : IsOneLive new_instance
unfolding one_of
new-IsOneLive = record {
  owned = λ p e. absurd (cc);
  others = λ q l ne. absurd (omega arith);
  known = λ q k. absurd (cc);
  apart = λ q k. refl;
  counted = refl;
}

some_injective : (p q : ℕ) → some p ≡ some q → p ≡ q
some_injective p q e = cc

true_right : (b : Bool) → (b || true) ≡ true
true_right true = refl
true_right false = refl

neither : (a b : Bool) → (a || b) ≡ false → (a ≡ false) × (b ≡ false)
neither false false e = (refl, refl)
neither true b e = absurd (cc)
neither false true e = absurd (cc)

pub kill-IsOneLive :
    (fails : Bool) (i : Instance)
    → IsOneLive i
    → IsOneLive (kill fails i) × ((kill fails i).proc ≡ none)
unfolding kill one_of
kill-IsOneLive fails i v = elim (Option-cases i.proc) [
  | inl gone ↦ rw (gone, kill) (v, gone)
  | inr (p, held) ↦ forgotten fails p held
]
  where
    forgotten :
        (b : Bool) (p : ℕ) → i.proc ≡ some p → IsOneLive (kill b i) × ((kill b i).proc ≡ none)
    forgotten true p held =
        rw (held, kill)
          (
            record {
              owned = λ q e. absurd (cc);
              others = λ q l ne. elim (Bool-cases (p == q)) [
                | inl same ↦ rw same (true_right (one_of i.killed q))
                | inr other ↦
                    rw other
                      (v.others q l λ e. absurd (ground (arith, some_injective p q (sym held ∙ e))))
              ];
              known = λ q k. ground (arith, v.known q, v.owned p held);
              apart = λ q k. ground (arith, v.apart q k, v.owned p held);
              counted = v.counted;
            },
            refl,
          )
    forgotten false p held =
        rw (held, kill)
          (
            record {
              owned = λ q e. absurd (cc);
              others = λ q l ne. elim (Bool-cases (p == q)) [
                | inl same ↦ rw same refl
                | inr other ↦
                    rw other
                      (v.others q l λ e. absurd (ground (arith, some_injective p q (sym held ∙ e))))
              ];
              known = λ q k. ground (arith, v.known q, v.owned p held);
              apart = λ q k. ground (arith, v.apart q, v.owned p held);
              counted = v.counted;
            },
            refl,
          )

pub start-IsOneLive :
    (i : Instance) (config : Text) → IsOneLive i → i.proc ≡ none → IsOneLive (start i config)
unfolding start
start-IsOneLive i config v gone = record {
  owned = λ p e. (
    omega (arith, some_injective i.started p e),
    (never p (some_injective i.started p e)).0,
    (never p (some_injective i.started p e)).1,
  );
  others = λ q l ne. v.others q (older q l ne) (λ f. absurd (none_some q (sym gone ∙ f)));
  known = λ q k. omega (arith, v.known q k);
  apart = v.apart;
  counted = omega (arith, length-append i.configs (config ∷ []), v.counted);
}
  where
    none_some : (q : ℕ) → none ≡ some q → ⊥
    none_some q g = cc

    never : (p : ℕ) → i.started ≡ p → (one_of i.killed p ≡ false) × (one_of i.unkilled p ≡ false)
    never p e = elim (Bool-cases (one_of i.killed p || one_of i.unkilled p)) [
      | inl k ↦ absurd (omega (arith, v.known p k, e))
      | inr k ↦ neither (one_of i.killed p) (one_of i.unkilled p) k
    ]

    older : (q : ℕ) → q < i.started + 1 → some i.started ≢ some q → q < i.started
    older q l ne = elim (Bool-cases (i.started == q)) [
      | inl same ↦ absurd (ne (ap some (ground arith)))
      | inr other ↦ ground arith
    ]
