-- ===== src/SocksProxy.antt =====
-- internal/server/socks5proxy/server.go: the SOCKS5 proxy server. Its protocol is that of the package
-- go-socks5, which calls `dial` for each connection and asks the credential store, if there is one.
pub mod Access
pub mod Dial
use easy_proxy_pool.Prelude.{
  ℕ, zero, suc, ◌+◌, Bool, true, false, Option, none, some, List, [], ◌∷◌, if◌then◌else◌, ltb,
}
use easy_proxy_pool.Prelude.Text.{Text, bytes, trim_space, to_lower, is_blank, text_eq, contains}
use easy_proxy_pool.Config.{AuthConfig}

-- socks5.CredentialStore: the static map of one user, or the type of this package.
pub data CredentialStore : Type 0 where
  static : Text → Text → CredentialStore
  shared_password : Text → CredentialStore

-- sharedPasswordCredentials.Valid
unfoldable pub shared_password_valid : Text → Text → Text → Bool
unfolding text_eq
shared_password_valid stored user password = text_eq password stored

unfoldable pub credential_store_from_auth : AuthConfig → Option CredentialStore
unfolding contains text_eq
credential_store_from_auth a =
    let mode = to_lower (trim_space a.mode) in
    if contains ([] ∷ bytes "disabled" ∷ []) mode
    then none
    else if text_eq mode (bytes "basic")
    then (if is_blank a.username then none else some (static a.username a.password))
    else if text_eq mode (bytes "shared_password")
    then (if is_blank a.password then none else some (shared_password a.password))
    else none

-- Whether the server lets a client in that gives a user and a password. Without a store it lets in
-- everybody. `static_valid` is `Valid` of go-socks5's map of users: the stored user and password, and
-- those given.
unfoldable pub admits :
    (Text → Text → Text → Text → Bool) → Option CredentialStore → Text → Text → Bool
unfolding shared_password_valid
admits static_valid none user password = true
admits static_valid (some (static u p)) user password = static_valid u p user password
admits static_valid (some (shared_password p)) user password = shared_password_valid p user password
