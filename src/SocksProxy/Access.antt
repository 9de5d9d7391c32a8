-- ===== src/SocksProxy/Access.antt =====
-- Which clients the SOCKS5 server and the HTTP server let in.
use easy_proxy_pool.Prelude.{
  ◌≡◌, refl, sym, ◌⊎◌, inl, inr, Bool, true, false, ◌&&◌, some, [], ◌∷◌, arith, Bool-cases,
}
use easy_proxy_pool.Prelude.Text.{
  Text, bytes, trim_space, to_lower, is_blank, text_eq, text_eq_iff, text_eq_refl, contains,
}
use easy_proxy_pool.Config.{AuthConfig}
use easy_proxy_pool.Config.Validation.{IsAuth}
use easy_proxy_pool.HttpProxy.Header.{Header, header_get}
use easy_proxy_pool.HttpProxy.Credentials.{authorize_http, parse_basic_auth}
use easy_proxy_pool.SocksProxy.{credential_store_from_auth, admits}

-- The three modes that the validation lets through.
data Mode (a : AuthConfig) : Type 0 where
  disabled : a.mode ≡ bytes "disabled" → Mode a
  basic : a.mode ≡ bytes "basic" → is_blank a.username ≡ false → Mode a
  shared : a.mode ≡ bytes "shared_password" → is_blank a.password ≡ false → Mode a

one_of_three : (x y z t : Text) → contains (x ∷ y ∷ z ∷ []) t ≡ true → (t ≡ x) ⊎ ((t ≡ y) ⊎ (t ≡ z))
unfolding contains
one_of_three x y z t h = elim (Bool-cases (text_eq x t)) [
  | inl e ↦ inl (sym ((text_eq_iff x t).0 e))
  | inr n ↦ elim (Bool-cases (text_eq y t)) [
    | inl e ↦ inr (inl (sym ((text_eq_iff y t).0 e)))
    | inr m ↦ inr (inr (sym ((text_eq_iff z t).0 (ground arith))))
  ]
]

modes : (a : AuthConfig) → IsAuth a → Mode a
modes a v = elim (one_of_three _ _ _ a.mode v.mode) [
  | inl d ↦ disabled d
  | inr (inl b) ↦ basic b (v.username (rw b (text_eq_refl (bytes "basic"))))
  | inr (inr s) ↦ shared s (v.password (rw s (text_eq_refl (bytes "shared_password"))))
]

-- `Valid` of go-socks5's map of one user: the user and the password given are the stored ones.
abbrev pub StaticValid : (Text → Text → Text → Text → Bool) → Type 0
StaticValid f =
    (stored_user stored_password user password : Text)
    → f stored_user stored_password user password
      ≡ (text_eq user stored_user && text_eq password stored_password)

-- With an authentication that the validation accepts, the SOCKS5 server admits a user and a password
-- exactly if the HTTP server accepts a request whose "Proxy-Authorization" presents them.
pub authorize-admits :
    (a : AuthConfig) (h : Header) (static_valid : Text → Text → Text → Text → Bool)
    (user password : Text)
    → IsAuth a
    → StaticValid static_valid
    → parse_basic_auth (header_get h (bytes "Proxy-Authorization")) ≡ some (user, password)
    → authorize_http a h ≡ admits static_valid (credential_store_from_auth a) user password
unfolding authorize_http credential_store_from_auth admits trim_space to_lower
authorize-admits a h static_valid user password v s given = elim (modes a v) [
  | disabled m ↦ rw m refl
  | basic m u ↦ rw (m, u, given, s) refl
  | shared m p ↦ rw (m, p, given) refl
]
