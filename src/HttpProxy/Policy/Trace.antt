-- ===== src/HttpProxy/Policy/Trace.antt =====
-- What `parseTraceIDFromTraceparent` of sticky.go lets through.
use easy_proxy_pool.Prelude.{
  ℕ, zero, suc, ◌≡◌, ◌≢◌, refl, ap, ◌∙◌, inl, inr, Bool, true, false, ◌&&◌, ◌||◌, none, some, List,
  [], ◌∷◌, if◌then◌else◌, leb, ◌==◌, arith, length, All, map, Bool-cases, Option-cases, replicate,
}
use easy_proxy_pool.Prelude.Text.{Text, trim_space, to_lower, lower_byte, text_eq}
use easy_proxy_pool.HttpProxy.Policy.{
  is_hex, all_zero_hex, trace_id_of_parts, parse_trace_id_from_traceparent, has_comma, before_comma,
}
use easy_proxy_pool.HttpProxy.Header.{split}

abbrev pub is_lower_hex : ℕ → Bool
is_lower_hex c = (leb b'0' c && leb c b'9') || (leb b'a' c && leb c b'f')

-- A trace id: 32 small hexadecimal digits, not all zero.
pub record IsTraceId (t : Text) : Type 0 where
  pub size : length t ≡ 32
  pub digits : All (λ c. is_lower_hex c ≡ true) t
  pub nonzero : t ≢ replicate 32 b'0'

lower_digits :
    (z : Bool) (s : Text) (r : Bool)
    → all_zero_hex z s ≡ some r
    → All (λ c. is_lower_hex c ≡ true) (to_lower s)
unfolding all_zero_hex to_lower
lower_digits z [] r h = tt
lower_digits z (c ∷ s) r h = elim (Bool-cases (is_hex c)) [
  | inl x ↦ (ground arith, lower_digits (if c == b'0' then z else false) s r (ground arith))
  | inr x ↦ absurd (ground arith)
]

length-to_lower : (s : Text) → length (to_lower s) ≡ length s
unfolding to_lower
length-to_lower [] = refl
length-to_lower (c ∷ s) = ap suc (length-to_lower s)

-- Small letters of a text that are all '0' come from a text that is all '0'.
all_zero-replicate :
    (n : ℕ) (s : Text) (r : Bool)
    → to_lower s ≡ replicate n b'0'
    → all_zero_hex true s ≡ some r
    → r ≡ true
unfolding all_zero_hex to_lower
all_zero-replicate n [] r e h = cc
all_zero-replicate zero (c ∷ s) r e h = absurd (cc)
all_zero-replicate (suc n) (c ∷ s) r e h =
    all_zero-replicate n s r tails (zero_digit (heads (lower_byte c) e) h)
  where
    heads : (x : ℕ) → x ∷ map lower_byte s ≡ b'0' ∷ replicate n b'0' → x ≡ b'0'
    heads x q = cc

    tails : map lower_byte s ≡ replicate n b'0'
    tails = cc

    zero_digit :
        lower_byte c ≡ b'0' → all_zero_hex true (c ∷ s) ≡ some r → all_zero_hex true s ≡ some r
    zero_digit q g = let e : c ≡ b'0' = ground arith in ground arith

trace_id_of_parts-IsTraceId :
    (ps : List Text) (t : Text) → trace_id_of_parts ps ≡ some t → IsTraceId t
unfolding trace_id_of_parts
trace_id_of_parts-IsTraceId [] t h = absurd (cc)
trace_id_of_parts-IsTraceId (p ∷ []) t h = absurd (cc)
trace_id_of_parts-IsTraceId (p ∷ q ∷ []) t h = absurd (cc)
trace_id_of_parts-IsTraceId (p ∷ q ∷ r ∷ []) t h = absurd (cc)
trace_id_of_parts-IsTraceId (p ∷ q ∷ r ∷ u ∷ x ∷ rest) t h = absurd (cc)
trace_id_of_parts-IsTraceId (p ∷ q ∷ r ∷ u ∷ []) t h = elim (Bool-cases (length id == 32)) [
  | inr no_size ↦ absurd (nothing (rw (no_size, trace_id_of_parts) at h))
  | inl size ↦ elim (Option-cases (all_zero_hex true id)) [
    | inl bad ↦ absurd (nothing (rw (size, bad, trace_id_of_parts) at h))
    | inr (true, zeros) ↦ absurd (nothing (rw (size, zeros, trace_id_of_parts) at h))
    | inr (false, zeros) ↦
        let e : to_lower id ≡ t = unwrap (rw (size, zeros, trace_id_of_parts) at h) in
        rw (← e) (record {
          size = length-to_lower id ∙ ground arith;
          digits = lower_digits true id false zeros;
          nonzero = λ q. false_true (all_zero-replicate 32 id false q zeros);
        })
  ]
]
  where
    id : Text
    id = trim_space q

    nothing : none ≡ some t → ⊥
    nothing g = cc

    false_true : ◌≡◌ {A = Bool} false true → ⊥
    false_true g = cc

    unwrap : some (to_lower id) ≡ some t → to_lower id ≡ t
    unwrap g = cc

-- What `parseTraceIDFromTraceparent` accepts is a trace id of 32 small hexadecimal digits that are not
-- all zero.
pub traceparent-IsTraceId : (v t : Text) → parse_trace_id_from_traceparent v ≡ some t → IsTraceId t
unfolding parse_trace_id_from_traceparent
traceparent-IsTraceId v t h = elim (Bool-cases (text_eq (trim_space v) [])) [
  | inl blank ↦ absurd (nothing (rw (blank, parse_trace_id_from_traceparent) at h))
  | inr given ↦
      trace_id_of_parts-IsTraceId
        (split b'-' (
          if has_comma (trim_space v)
          then trim_space (before_comma (trim_space v))
          else trim_space v))
        t (rw (given, parse_trace_id_from_traceparent) at h)
]
  where
    nothing : none ≡ some t → ⊥
    nothing g = cc
