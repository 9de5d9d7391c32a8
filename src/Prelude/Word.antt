-- ===== src/Prelude/Word.antt =====
-- 64-bit words. An int64 (a time.Duration, an int) is the word of its two's complement: a word of
-- 2^63 or more stands for a negative number. A time.Time is the number of nanoseconds since the
-- zero time.
use Prim.Native.Nat.{ℕ, ◌+◌, ◌-◌, ◌*◌, ◌%◌, ◌^◌}
use mathlib.Core.Bool.{Bool, ◌&&◌}
use easy_proxy_pool.Prelude.Tests.{ltb, leb, if◌then◌else◌}

abbrev pub word_mod : ℕ
word_mod = 2 ^ 64

abbrev pub sign_bit : ℕ
sign_bit = 2 ^ 63

-- a + b and a * b at 64 bits, for either sign
abbrev pub add64 : ℕ → ℕ → ℕ
add64 a b = (a + b) % word_mod

abbrev pub mul64 : ℕ → ℕ → ℕ
mul64 a b = (a * b) % word_mod

-- a <= b and a < b as int64
abbrev pub leb64 : ℕ → ℕ → Bool
leb64 a b = leb (add64 a sign_bit) (add64 b sign_bit)

abbrev pub ltb64 : ℕ → ℕ → Bool
ltb64 a b = ltb (add64 a sign_bit) (add64 b sign_bit)

-- t.Add(d)
abbrev pub add_duration : ℕ → ℕ → ℕ
add_duration t d = if ltb d sign_bit then t + d else t - (word_mod - d)

-- v > 0 and v < 0 as int64
abbrev pub positive : ℕ → Bool
positive v = ltb 0 v && ltb v sign_bit

abbrev pub negative : ℕ → Bool
negative v = leb sign_bit v
