-- ===== src/Pool/Backoff.antt =====
-- `MarkFailure` and `MarkSuccess` of pool.go: how long a failing upstream stays out.
use native.Mathlib.Decide.{dec_le}
use native.Mathlib.Nat.{pow-suc}
use easy_proxy_pool.Prelude.{
  ℕ, zero, suc, ◌+◌, ◌*◌, ◌^◌, ◌≤◌, ◌<◌, min, ◌≡◌, ◌≢◌, refl, ap, ◌∙◌, true, false, none, some,
  if◌then◌else◌, ltb, leb, ◌==◌, arith, get_elem?, modify, get_elem?-modify_self,
  get_elem?-modify_ne, le→leb,
}
use easy_proxy_pool.Prelude.Text.{Text}
use easy_proxy_pool.Prelude.Map.{lookup}
use easy_proxy_pool.Prelude.Word.{sign_bit, add64, mul64, leb64}
use easy_proxy_pool.Pool.{
  Entry, Pool, is_disabled, get, enabled, fail, grow_backoff, backoff_rounds, mark_success,
  mark_failure,
}

one-le-pow : (r : ℕ) → 1 ≤ 2 ^ r
one-le-pow zero = omega arith
one-le-pow (suc r) = rw pow-suc (omega (arith, one-le-pow r))

le-mul-pow : (b r : ℕ) → b ≤ b * 2 ^ r
le-mul-pow b zero = omega arith
le-mul-pow b (suc r) = rw pow-suc (omega (arith, le-mul-pow b r))

-- On numbers below 2^63 the int64 operations are the plain ones.
mul64_plain : (b : ℕ) → b < sign_bit → mul64 b 2 ≡ b * 2
mul64_plain b h = omega arith

leb64_plain : (a b : ℕ) → a < sign_bit → b < sign_bit → leb64 a b ≡ leb a b
leb64_plain a b h k = ground (arith, no_wrap a h, no_wrap b k)
  where
    no_wrap : (a : ℕ) → a < sign_bit → add64 a sign_bit ≡ a + sign_bit
    no_wrap a h = omega arith

-- While the cap is below 2^62 the doubling does not overflow, and the loop has this closed form.
pub grow_backoff_closed : (r b m : ℕ) → b ≤ m → m < 2 ^ 62 → grow_backoff r b m ≡ min m (b * 2 ^ r)
unfolding grow_backoff
grow_backoff_closed zero b m h k = omega arith
grow_backoff_closed (suc r) b m h k = elim (dec_le m (b * 2)) [
  | yes over ↦
      rw (test, le→leb m (b * 2) over, grow_backoff) (rw pow-suc (omega (arith, le-mul-pow b r)))
  | no under ↦
      rw (test, not_le m (b * 2) under, grow_backoff)
        (rw (mul64_plain b (omega arith))
          (grow_backoff_closed r (b * 2) m (omega arith) k ∙ rw pow-suc (omega arith)))
]
  where
    test : leb64 m (mul64 b 2) ≡ leb m (b * 2)
    test = rw (mul64_plain b (omega arith)) (leb64_plain m (b * 2) (omega arith) (omega arith))

    not_le : (a b : ℕ) → ¬ (a ≤ b) → leb a b ≡ false
    not_le a b h = ground arith

-- The entry that a key leads to, and its position.
pub record Held (p : Pool) (k : Text) (e : Entry) : Type 0 where
  pub position : ℕ
  pub indexed : lookup p.index k ≡ some position
  pub member : get_elem? p.entries position ≡ some e

-- The entry after one more failure.
abbrev pub failed : ℕ → ℕ → ℕ → Entry → Entry
failed now b m e = record e {
  failures = e.failures + 1;
  disabled_until = now + min m (b * 2 ^ e.failures);
}

fail_closed :
    (now b m : ℕ) (e : Entry)
    → b ≤ m
    → m < 2 ^ 62
    → e.failures + 1 < sign_bit
    → fail now b m e ≡ failed now b m e
unfolding fail
fail_closed now b m e h k l = ground (arith, count, rounds, grow_backoff_closed e.failures b m h k)
  where
    count : add64 e.failures 1 ≡ e.failures + 1
    count = omega arith

    rounds : backoff_rounds (add64 e.failures 1) ≡ e.failures
    rounds = ground (arith, count)

-- For a key of the pool, `MarkFailure` counts one more failure of the entry with that key and
-- disables it for the base backoff doubled once for each earlier failure, but at most the maximum
-- (a base of at most the maximum, which is below 2^62 ns). The other entries, the index and the
-- round-robin counter stay.
pub mark_failure_lem :
    (p : Pool) (k : Text) (now b m : ℕ) (e : Entry) (held : Held p k e)
    → b ≤ m
    → m < 2 ^ 62
    → e.failures + 1 < sign_bit
    → let q = mark_failure p k now b m in
      (get_elem? q.entries held.position ≡ some (failed now b m e))
      × ((j : ℕ) → held.position ≢ j → get_elem? q.entries j ≡ get_elem? p.entries j)
      × (q.index ≡ p.index)
      × (q.rr ≡ p.rr)
unfolding mark_failure
mark_failure_lem p k now b m e held h u l =
    rw (held.indexed, mark_failure)
      (
        get_elem?-modify_self p.entries held.position (fail now b m) e held.member
            ∙ ap some (fail_closed now b m e h u l),
        (λ j ne. get_elem?-modify_ne p.entries held.position j (fail now b m) ne),
        refl,
        refl,
      )

get-Held :
    (p : Pool) (k : Text) (t : ℕ) (e : Entry) (i : ℕ)
    → lookup p.index k ≡ some i
    → get_elem? p.entries i ≡ some e
    → get p k t ≡ (if is_disabled t e then none else some e)
unfolding get
get-Held p k t e i indexed member = ground (arith, indexed, member)

-- After a failure at `now`, `Get` refuses the entry at every time before the backoff has passed, and
-- returns it again from then on (a backoff that is not 0, under the bounds of `mark_failure_lem`).
pub get-mark_failure :
    (p : Pool) (k : Text) (now b m t : ℕ) (e : Entry)
    → Held p k e
    → 0 < b
    → b ≤ m
    → m < 2 ^ 62
    → e.failures + 1 < sign_bit
    → get (mark_failure p k now b m) k t
      ≡ (if ltb t (now + min m (b * 2 ^ e.failures)) then none else some (failed now b m e))
get-mark_failure p k now b m t e held pos h u l =
    get-Held _ k t (failed now b m e) held.position (rw facts.2 held.indexed) facts.0
    ∙ ap (λ c. if c then none else some (failed now b m e)) disabled
  where
    facts :
        (get_elem? (mark_failure p k now b m).entries held.position ≡ some (failed now b m e))
        × ((j : ℕ)
            → held.position ≢ j
            → get_elem? (mark_failure p k now b m).entries j ≡ get_elem? p.entries j)
        × ((mark_failure p k now b m).index ≡ p.index)
        × ((mark_failure p k now b m).rr ≡ p.rr)
    facts = mark_failure_lem p k now b m e held h u l

    disabled : is_disabled t (failed now b m e) ≡ ltb t (now + min m (b * 2 ^ e.failures))
    disabled = unfold is_disabled in ground (arith, le-mul-pow b e.failures)

-- A success of a key of the pool brings its entry back at once: `Get` returns it at every time, with
-- no failures counted.
pub get-mark_success :
    (p : Pool) (k : Text) (t : ℕ) (e : Entry)
    → Held p k e
    → get (mark_success p k) k t ≡ some (record e { failures = 0; disabled_until = 0 })
unfolding mark_success enabled is_disabled
get-mark_success p k t e held =
    rw (held.indexed, mark_success)
      (get-Held (record p { entries = modify p.entries held.position enabled }) k t (enabled e)
        held.position held.indexed
        (get_elem?-modify_self p.entries held.position enabled e held.member))

-- A maximum below the base: the loop stops in its first round.
grow_backoff_above :
    (r b m : ℕ) → m < b → b < 2 ^ 62 → grow_backoff r b m ≡ (if r == 0 then b else m)
unfolding grow_backoff
grow_backoff_above zero b m h k = refl
grow_backoff_above (suc r) b m h k = rw (test, grow_backoff) (ground arith)
  where
    test : leb64 m (mul64 b 2) ≡ true
    test =
        rw (mul64_plain b (omega arith))
          (leb64_plain m (b * 2) (omega arith) (omega arith) ∙ le→leb m (b * 2) (omega arith))

-- With a base backoff above the maximum, `Get` refuses an entry after its first failure until the base
-- has passed, which is longer than the maximum, but after each later failure in a row only until the
-- maximum has passed; from then on it returns the entry again (a maximum that is not 0, a base below
-- 2^62 ns, and a count of failures that does not overflow).
pub get-mark_failure_above :
    (p : Pool) (k : Text) (now b m t : ℕ) (e : Entry)
    → Held p k e
    → 0 < m
    → m < b
    → b < 2 ^ 62
    → e.failures + 1 < sign_bit
    → let until : ℕ = now + (if e.failures == 0 then b else m) in
      get (mark_failure p k now b m) k t ≡ (
        if ltb t until
        then none
        else some (record e { failures = e.failures + 1; disabled_until = until }))
unfolding mark_failure
get-mark_failure_above p k now b m t e held pos h u l =
    rw (held.indexed, mark_failure)
      (get-Held (record p { entries = modify p.entries held.position (fail now b m) }) k t marked
          held.position held.indexed
          (get_elem?-modify_self p.entries held.position (fail now b m) e held.member
            ∙ ap some closed)
        ∙ ap (λ c. if c then none else some marked) disabled)
  where
    until : ℕ
    until = now + (if e.failures == 0 then b else m)

    marked : Entry
    marked = record e { failures = e.failures + 1; disabled_until = until }

    count : add64 e.failures 1 ≡ e.failures + 1
    count = omega arith

    rounds : backoff_rounds (add64 e.failures 1) ≡ e.failures
    rounds = ground (arith, count)

    closed : fail now b m e ≡ marked
    closed = unfold fail in ground (arith, count, rounds, grow_backoff_above e.failures b m h u)

    disabled : is_disabled t marked ≡ ltb t until
    disabled = unfold is_disabled in ground arith
