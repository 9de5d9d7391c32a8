-- ===== src/Updater/Addr.antt =====
-- `socks5SpecFromAddr` of updater.go on the addresses that loader.go makes of nodes.
use easy_proxy_pool.Prelude.{ℕ, ◌≡◌, refl, ◌∙◌, true, false, none, some, ◌∷◌, arith, ◌==◌}
use easy_proxy_pool.Prelude.Text.{Text, bytes, trim_space, has_prefix}
use easy_proxy_pool.Prelude.Word.{positive, negative}
use easy_proxy_pool.Prelude.Decimal.{itoa, atoi, atoi-itoa}
use easy_proxy_pool.Prelude.HostPort.{
  has_byte, IsPlain, itoa-IsPlain, split_host_port, split_host_port-join, split_host_port-colon,
}
use easy_proxy_pool.Upstream.{Spec, empty_spec, type_socks5, normalize}
use easy_proxy_pool.Sources.{server_addr}
use easy_proxy_pool.Updater.{spec_of, trim_scheme, socks5_spec_from_addr}

socks5_spec_from_addr_split :
    (sum256 : Text → Text) (addr : Text)
    → has_prefix addr (bytes "socks5://") ≡ false
    → trim_space addr ≡ addr
    → socks5_spec_from_addr sum256 addr ≡ elim (split_host_port addr) [
      | none ↦ none
      | some (host, port) ↦ spec_of sum256 host (atoi port)
    ]
unfolding socks5_spec_from_addr trim_scheme
socks5_spec_from_addr_split sum256 addr e f = rw (e, socks5_spec_from_addr, trim_scheme) (rw f refl)

-- The address of a node whose server has no colon and no bracket is read back as its server and port,
-- where no spaces and no scheme are trimmed off the address and the port is positive.
pub socks5_spec_from_addr-server_addr :
    (sum256 : Text → Text) (s : Spec)
    → IsPlain s.server
    → positive s.port ≡ true
    → has_prefix (server_addr s) (bytes "socks5://") ≡ false
    → trim_space (server_addr s) ≡ server_addr s
    → socks5_spec_from_addr sum256 (server_addr s)
      ≡ normalize sum256
          (record empty_spec { kind = type_socks5; server = s.server; port = s.port })
unfolding server_addr spec_of
socks5_spec_from_addr-server_addr sum256 s plain pos e f =
    socks5_spec_from_addr_split sum256 (server_addr s) e f
    ∙ rw
        (split_host_port-join s.server (itoa s.port) plain
          (itoa-IsPlain s.port (ground (arith, pos))))
        (rw (atoi-itoa s.port (ground (arith, pos)), spec_of) (rw pos refl))

-- The address of a node whose server has a colon and does not start with a bracket, as an IPv6 address,
-- gives no spec.
pub socks5_spec_from_addr-ipv6 :
    (sum256 : Text → Text) (s : Spec) (x : ℕ) (host : Text)
    → s.server ≡ x ∷ host
    → (x == b'[') ≡ false
    → has_byte b':' (x ∷ host) ≡ true
    → negative s.port ≡ false
    → has_prefix (server_addr s) (bytes "socks5://") ≡ false
    → trim_space (server_addr s) ≡ server_addr s
    → socks5_spec_from_addr sum256 (server_addr s) ≡ none
unfolding server_addr
socks5_spec_from_addr-ipv6 sum256 s x host server other colon plus e f =
    socks5_spec_from_addr_split sum256 (server_addr s) e f
    ∙ rw
        (
          server,
          split_host_port-colon x host (itoa s.port) other colon
              (itoa-IsPlain s.port plus).no_colon,
        )
        refl
