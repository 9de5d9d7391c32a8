-- ===== src/HttpProxy/Rendezvous.antt =====
-- internal/server/httpproxy/sticky.go, the rendezvous hash.
pub mod Best
pub mod Stability
use Prim.Native.Nat.{bit_xor}
use easy_proxy_pool.Prelude.{
  ℕ, ◌++◌, ◌≡◌, refl, Bool, true, false, not, Option, none, some, List, [], ◌∷◌, if◌then◌else◌, ltb,
}
use easy_proxy_pool.Prelude.Text.{Text, contains}
use easy_proxy_pool.Prelude.Word.{mul64}
use easy_proxy_pool.Pool.{Entry, key}

abbrev pub offset64 : ℕ
offset64 = 14695981039346656037

abbrev pub prime64 : ℕ
prime64 = 1099511628211

-- h ^= c; h *= prime64
unfoldable pub fnv_byte : ℕ → ℕ → ℕ
fnv_byte h c = mul64 (bit_xor h c) prime64

unfoldable pub fnv : ℕ → Text → ℕ
unfolding fnv_byte
fnv h [] = h
fnv h (c ∷ s) = fnv (fnv_byte h c) s

unfoldable pub hrw_score : Text → Text → ℕ
unfolding fnv
hrw_score session_key node_key = fnv (fnv_byte (fnv offset64 session_key) 0) node_key

-- A nil map excludes nothing.
unfoldable pub excluded : Option (List Text) → Text → Bool
unfolding contains
excluded none k = false
excluded (some ks) k = contains ks k

-- `best` and `bestScore` once `found`.
abbrev pub Best : Type 0
Best = Option (Entry × ℕ)

unfoldable pub better : Best → Entry → ℕ → Best
better none e score = some (e, score)
better (some (best, best_score)) e score =
    if ltb best_score score then some (e, score) else some (best, best_score)

unfoldable pub pick_loop : Text → Option (List Text) → Best → List Entry → Best
unfolding better excluded hrw_score
pick_loop session exclude best [] = best
pick_loop session exclude best (e ∷ es) =
    pick_loop session exclude
      (if excluded exclude (key e) then best else better best e (hrw_score session (key e))) es

-- The entry found.
unfoldable pub picked : Best → Option Entry
picked none = none
picked (some (e, score)) = some e

unfoldable pub pick_rendezvous : List Entry → Text → Option (List Text) → Option Entry
unfolding picked pick_loop
pick_rendezvous candidates session exclude = picked (pick_loop session exclude none candidates)

-- The score is the FNV-1a hash of the session key, a zero byte and the node key.
pub hrw_score-fnv :
    (session node : Text) → hrw_score session node ≡ fnv offset64 (session ++ (0 ∷ node))
unfolding hrw_score
hrw_score-fnv session node = go offset64 session
  where
    go : (h : ℕ) (s : Text) → fnv (fnv_byte (fnv h s) 0) node ≡ fnv h (s ++ (0 ∷ node))
    go h [] = unfold fnv in refl
    go h (c ∷ s) = unfold fnv in go (fnv_byte h c) s
