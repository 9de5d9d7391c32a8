-- ===== src/LogBuffer/Numbering.antt =====
-- The numbers of the events of logbuffer.go, and the last events of a list.
use easy_proxy_pool.Prelude.{
  ℕ, zero, suc, ◌+◌, ◌-◌, ◌≤◌, ◌++◌, ◌≡◌, refl, sym, ap, ◌∙◌, List, [], ◌∷◌, arith, length, drop,
  length-append, length-drop,
}
use easy_proxy_pool.LogBuffer.{LogEvent}
use easy_proxy_pool.LogBuffer.Ring.{last}

-- The events with the numbers from `i` on.
abbrev pub numbered_from : ℕ → List LogEvent → List LogEvent
numbered_from i [] = []
numbered_from i (e ∷ es) = record e { id = i } ∷ numbered_from (i + 1) es

pub numbered_from-append :
    (i : ℕ) (es : List LogEvent) (e : LogEvent)
    → numbered_from i (es ++ (e ∷ []))
      ≡ numbered_from i es ++ (record e { id = i + length es } ∷ [])
numbered_from-append i [] e = ap (λ n. record e { id = n } ∷ []) (omega arith)
numbered_from-append i (x ∷ es) e =
    let sum : i + 1 + length es ≡ i + suc (length es) = omega arith in
    ap (◌∷◌ (record x { id = i })) (
      numbered_from-append (i + 1) es e
      ∙ ap (λ n. numbered_from (i + 1) es ++ (record e { id = n } ∷ [])) sum)

pub drop-nil : (n : ℕ) → drop {A = LogEvent} n [] ≡ []
drop-nil zero = refl
drop-nil (suc n) = refl

drop-drop : (a b : ℕ) (xs : List LogEvent) → drop a (drop b xs) ≡ drop (b + a) xs
drop-drop a zero xs = ap (λ n. drop n xs) (omega arith)
drop-drop a (suc b) [] = drop-nil a ∙ sym (drop-nil (suc b + a))
drop-drop a (suc b) (x ∷ xs) =
    let e : suc b + a ≡ suc (b + a) = omega arith in rw e (drop-drop a b xs)

drop-append_le :
    (k : ℕ) (xs ys : List LogEvent) → k ≤ length xs → drop k (xs ++ ys) ≡ drop k xs ++ ys
drop-append_le zero xs ys h = refl
drop-append_le (suc k) [] ys h = absurd (omega arith)
drop-append_le (suc k) (x ∷ xs) ys h = drop-append_le k xs ys (omega arith)

-- Keeping the last `n` before and after a push is keeping the last `n` after it.
pub last-push :
    (n : ℕ) (xs : List LogEvent) (e : LogEvent)
    → last n (last n xs ++ (e ∷ [])) ≡ last n (xs ++ (e ∷ []))
last-push n xs e =
    ap (λ zs. drop (length zs - n) zs)
      (sym (drop-append_le (length xs - n) xs (e ∷ []) (omega arith)))
    ∙ (drop-drop (length (drop (length xs - n) (xs ++ (e ∷ []))) - n) (length xs - n)
          (xs ++ (e ∷ []))
        ∙ ap (λ k. drop k (xs ++ (e ∷ []))) count)
  where
    count :
        length xs - n + (length (drop (length xs - n) (xs ++ (e ∷ []))) - n)
        ≡ length (xs ++ (e ∷ [])) - n
    count = omega (arith, length-drop (length xs - n) (xs ++ (e ∷ [])), length-append xs (e ∷ []))
