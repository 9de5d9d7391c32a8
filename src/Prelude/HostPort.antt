-- ===== src/Prelude/HostPort.antt =====
-- net.SplitHostPort.
use Prim.Native.Nat.{ℕ, zero, suc, ◌+◌, ◌/◌, ◌%◌}
use mathlib.Core.Path.{◌≡◌, refl}
use mathlib.Core.Logic.{inl, inr}
use mathlib.Core.Bool.{Bool, true, false, ◌&&◌, ◌||◌, not}
use mathlib.Core.Option.{Option, none, some}
use mathlib.Core.List.{[], ◌∷◌, ◌++◌}
use native.Mathlib.Omega.{arith}
use easy_proxy_pool.Prelude.Tests.{◌==◌, ltb, if◌then◌else◌, Bool-cases}
use easy_proxy_pool.Prelude.Text.{Text}
use easy_proxy_pool.Prelude.Word.{negative}
use easy_proxy_pool.Prelude.Decimal.{is_digit, emit, format, itoa}

unfoldable pub has_byte : ℕ → Text → Bool
has_byte c [] = false
has_byte c (x ∷ s) = (x == c) || has_byte c s

abbrev pub after_byte : ℕ → Option (Text × Text) → Option (Text × Text)
after_byte x none = none
after_byte x (some (before, after)) = some (x ∷ before, after)

-- The parts before and after the first byte `c`.
unfoldable pub cut_first : ℕ → Text → Option (Text × Text)
cut_first c [] = none
cut_first c (x ∷ s) =
    let rest = after_byte x (cut_first c s) in if x == c then some ([], s) else rest

-- The parts before and after the last byte `c`.
unfoldable pub cut_last : ℕ → Text → Option (Text × Text)
cut_last c [] = none
cut_last c (x ∷ s) = elim (cut_last c s) [
  | none ↦ if x == c then some ([], s) else none
  | some cut ↦ after_byte x (some cut)
]

-- What follows the bracket: a colon, and the port without another one.
unfoldable pub port_after : Text → Option Text
unfolding has_byte
port_after [] = none
port_after (x ∷ port) = if (x == b':') && not (has_byte b':' port) then some port else none

unfoldable pub bracketed : Text → Option (Text × Text)
unfolding cut_first port_after has_byte
bracketed s = elim (cut_first b']' s) [
  | none ↦ none
  | some (host, rest) ↦ elim (port_after rest) [
    | none ↦ none
    | some port ↦ if has_byte b'[' s || has_byte b']' rest then none else some (host, port)
  ]
]

unfoldable pub unbracketed : Text → Option (Text × Text)
unfolding cut_last has_byte
unbracketed s = elim (cut_last b':' s) [
  | none ↦ none
  | some (host, port) ↦
      if has_byte b':' host || (has_byte b'[' s || has_byte b']' s) then none else some (host, port)
]

-- `none` is an error.
unfoldable pub split_host_port : Text → Option (Text × Text)
unfolding bracketed unbracketed
split_host_port [] = none
split_host_port (x ∷ s) = if x == b'[' then bracketed s else unbracketed (x ∷ s)

cut_last-without : (c : ℕ) (s : Text) → has_byte c s ≡ false → cut_last c s ≡ none
unfolding has_byte cut_last
cut_last-without c [] h = refl
cut_last-without c (x ∷ s) h =
    rw (cut_last-without c s (ground (arith, h)), cut_last) (ground (arith, h))

cut_last-append :
    (c : ℕ) (before after : Text)
    → has_byte c after ≡ false
    → cut_last c (before ++ (c ∷ after)) ≡ some (before, after)
unfolding cut_last
cut_last-append c [] after h = rw (cut_last-without c after h, cut_last) (ground arith)
cut_last-append c (x ∷ before) after h = rw (cut_last-append c before after h, cut_last) refl

pub has_byte-append : (c : ℕ) (s t : Text) → has_byte c (s ++ t) ≡ (has_byte c s || has_byte c t)
unfolding has_byte
has_byte-append c [] t = refl
has_byte-append c (x ∷ s) t = ground (arith, has_byte-append c s t)

-- A text without brackets and colons.
pub record IsPlain (s : Text) : Type 0 where
  pub no_colon : has_byte b':' s ≡ false
  pub no_open : has_byte b'[' s ≡ false
  pub no_close : has_byte b']' s ≡ false

unbracketed-join :
    (host port : Text)
    → IsPlain host
    → IsPlain port
    → unbracketed (host ++ (b':' ∷ port)) ≡ some (host, port)
unfolding has_byte unbracketed
unbracketed-join host port h p =
    rw (cut_last-append b':' host port p.no_colon, unbracketed)
      (rw
        (
          has_byte-append b'[' host (b':' ∷ port),
          has_byte-append b']' host (b':' ∷ port),
          h.no_colon,
          h.no_open,
          h.no_close,
        )
        (ground (arith, p.no_open, p.no_close)))

-- A host with a colon and no bracket in front is refused.
pub split_host_port-colon :
    (x : ℕ) (host port : Text)
    → (x == b'[') ≡ false
    → has_byte b':' (x ∷ host) ≡ true
    → has_byte b':' port ≡ false
    → split_host_port (x ∷ host ++ (b':' ∷ port)) ≡ none
unfolding split_host_port unbracketed
split_host_port-colon x host port other colon last =
    rw (other, split_host_port)
      (rw (cut_last-append b':' (x ∷ host) port last, unbracketed) (rw colon refl))

-- A host and a port that are plain come back from the text that joins them by a colon.
pub split_host_port-join :
    (host port : Text)
    → IsPlain host
    → IsPlain port
    → split_host_port (host ++ (b':' ∷ port)) ≡ some (host, port)
unfolding split_host_port has_byte
split_host_port-join [] port h p = unbracketed-join [] port h p
split_host_port-join (x ∷ host) port h p =
    let other : (x == b'[') ≡ false = ground (arith, h.no_open) in
    rw (other, split_host_port) (unbracketed-join (x ∷ host) port h p)

emit-has_byte :
    (c k n : ℕ) (out : Text)
    → is_digit c ≡ false
    → has_byte c out ≡ false
    → has_byte c (emit k n out) ≡ false
unfolding emit has_byte
emit-has_byte c zero n out d h = h
emit-has_byte c (suc k) n out d h = elim (Bool-cases (ltb 0 n)) [
  | inl more ↦
      rw (more, emit) (emit-has_byte c k (n / 10) ((b'0' + n % 10) ∷ out) d (ground (arith, d, h)))
  | inr done ↦ rw (done, emit) h
]

format-has_byte : (c n : ℕ) → is_digit c ≡ false → has_byte c (format n) ≡ false
unfolding format has_byte
format-has_byte c n d = elim (Bool-cases (n == 0)) [
  | inl e ↦ rw (e, format) (ground (arith, d))
  | inr e ↦ rw (e, format) (emit-has_byte c 20 n [] d refl)
]

pub itoa-IsPlain : (v : ℕ) → negative v ≡ false → IsPlain (itoa v)
unfolding itoa
itoa-IsPlain v h = record {
  no_colon = rw (h, itoa) (format-has_byte b':' v refl);
  no_open = rw (h, itoa) (format-has_byte b'[' v refl);
  no_close = rw (h, itoa) (format-has_byte b']' v refl);
}
