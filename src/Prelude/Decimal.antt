-- ===== src/Prelude/Decimal.antt =====
-- `Itoa` and `Atoi` of package strconv, for an int of 64 bits.
use Prim.Native.Nat.{ℕ, zero, suc, ◌+◌, ◌-◌, ◌*◌, ◌/◌, ◌%◌, ◌<◌}
use mathlib.Core.Path.{◌≡◌, refl}
use mathlib.Core.Logic.{inl, inr}
use mathlib.Core.Bool.{Bool, true, false, ◌&&◌}
use mathlib.Core.List.{[], ◌∷◌}
use native.Mathlib.Omega.{arith}
use easy_proxy_pool.Prelude.Tests.{ltb, leb, ◌==◌, if◌then◌else◌, Bool-cases}
use easy_proxy_pool.Prelude.Text.{Text}
use easy_proxy_pool.Prelude.Word.{word_mod, sign_bit, negative}

-- The digits of `n` in front of `out`; `rounds` is at least the number of digits.
unfoldable pub emit : ℕ → ℕ → Text → Text
emit zero n out = out
emit (suc rounds) n out = elim (ltb 0 n) [
  | true ↦ emit rounds (n / 10) ((b'0' + n % 10) ∷ out)
  | false ↦ out
]

-- Twenty digits hold every 64-bit word.
unfoldable pub format : ℕ → Text
unfolding emit
format n = if n == 0 then b'0' ∷ [] else emit 20 n []

unfoldable pub itoa : ℕ → Text
unfolding format
itoa v = if negative v then b'-' ∷ format (word_mod - v) else format v

pub data Parsed : Type 0 where
  parsed : ℕ → Parsed
  out_of_range bad_syntax : Parsed

abbrev pub is_digit : ℕ → Bool
is_digit c = leb b'0' c && leb c b'9'

-- The loop of ParseUint, with the number read so far.
unfoldable pub scan : Text → ℕ → Parsed
scan [] n = parsed n
scan (c ∷ s) n =
    let rest = scan s (n * 10 + (c - b'0')) in
    if is_digit c
    then (if leb word_mod (n * 10 + (c - b'0')) then out_of_range else rest)
    else bad_syntax

unfoldable pub parse_uint : Text → Parsed
unfolding scan
parse_uint [] = bad_syntax
parse_uint (c ∷ s) = scan (c ∷ s) 0

-- The number with its sign, and whether there is no error. Out of range it is the nearest int.
unfoldable pub signed : Bool → Parsed → ℕ × Bool
signed minus bad_syntax = (0, false)
signed true out_of_range = (sign_bit, false)
signed false out_of_range = (sign_bit - 1, false)
signed true (parsed n) =
    if ltb sign_bit n then (sign_bit, false) else ((word_mod - n) % word_mod, true)
signed false (parsed n) = if leb sign_bit n then (sign_bit - 1, false) else (n, true)

unfoldable pub atoi : Text → ℕ × Bool
unfolding parse_uint signed
atoi [] = (0, false)
atoi (c ∷ s) =
    if c == b'-'
    then signed true (parse_uint s)
    else if c == b'+'
    then signed false (parse_uint s)
    else signed false (parse_uint (c ∷ s))

abbrev power10 : ℕ → ℕ
power10 zero = 1
power10 (suc k) = 10 * power10 k

-- Reading the last digit of `n` after the others gives `n`.
scan-last : (n : ℕ) (out : Text) → n < word_mod → scan ((b'0' + n % 10) ∷ out) (n / 10) ≡ scan out n
unfolding scan
scan-last n out h = ground arith

scan-emit :
    (k n : ℕ) (out : Text) → n < power10 k → n < word_mod → scan (emit k n out) 0 ≡ scan out n
unfolding emit
scan-emit zero n out small h = ground arith
scan-emit (suc k) n out small h =
    grind (arith, scan-emit k (n / 10) ((b'0' + n % 10) ∷ out), scan-last n out h)

-- The text starts with a digit.
StartsDigit : Text → Type 0
StartsDigit [] = ⊥
StartsDigit (c ∷ s) = is_digit c ≡ true

emit-StartsDigit : (k n : ℕ) (out : Text) → StartsDigit out → StartsDigit (emit k n out)
unfolding emit StartsDigit
emit-StartsDigit zero n out h = h
emit-StartsDigit (suc k) n out h = elim (Bool-cases (ltb 0 n)) [
  | inl more ↦ rw (more, emit) (emit-StartsDigit k (n / 10) ((b'0' + n % 10) ∷ out) (ground arith))
  | inr done ↦ rw (done, emit) h
]

format-StartsDigit : (n : ℕ) → StartsDigit (format n)
unfolding format emit StartsDigit
format-StartsDigit n = elim (Bool-cases (n == 0)) [
  | inl e ↦ rw (e, format) refl
  | inr e ↦
      let more : ltb 0 n ≡ true = ground arith in
      rw (e, format)
        (rw (more, emit) (emit-StartsDigit 19 (n / 10) ((b'0' + n % 10) ∷ []) (ground arith)))
]

parse_uint-scan : (s : Text) → StartsDigit s → parse_uint s ≡ scan s 0
unfolding parse_uint StartsDigit
parse_uint-scan [] h = absurd h
parse_uint-scan (c ∷ s) h = refl

pub parse_uint-format : (n : ℕ) → n < word_mod → parse_uint (format n) ≡ parsed n
unfolding format scan
parse_uint-format n h =
    rw (parse_uint-scan (format n) (format-StartsDigit n))
      (ground (arith, scan-emit 20 n [] (omega arith) h))

atoi_unsigned : (s : Text) → StartsDigit s → atoi s ≡ signed false (parse_uint s)
unfolding atoi StartsDigit
atoi_unsigned [] h = absurd h
atoi_unsigned (c ∷ s) h = ground arith

-- `Atoi` reads back what `Itoa` prints, for every int.
pub atoi-itoa : (v : ℕ) → v < word_mod → atoi (itoa v) ≡ (v, true)
unfolding itoa atoi
atoi-itoa v h = elim (Bool-cases (negative v)) [
  | inl minus ↦
      rw (minus, itoa) (rw (parse_uint-format (word_mod - v) (ground arith)) (ground arith))
  | inr plus ↦
      rw (plus, itoa)
        (rw (atoi_unsigned (format v) (format-StartsDigit v))
          (rw (parse_uint-format v h) (ground arith)))
]
