-- ===== src/HttpProxy/Header.antt =====
-- The http.Header of net/http, and `stripHopByHopHeaders` and `copyHeader` of
-- internal/server/httpproxy/proxy.go.
pub mod Strip
pub mod Copy
use easy_proxy_pool.Prelude.{
  ℕ, ◌+◌, ◌-◌, ◌++◌, Bool, true, false, ◌&&◌, ◌||◌, not, Option, none, some, List, [], ◌∷◌,
  if◌then◌else◌, leb, ◌==◌,
}
use easy_proxy_pool.Prelude.Text.{Text, bytes, trim_space, text_eq}
use easy_proxy_pool.Prelude.Map.{Map, lookup, insert, delete}

-- A byte that may stand in a header's name.
unfoldable pub is_token : ℕ → Bool
is_token c =
    (leb b'a' c && leb c b'z')
    || ((leb b'A' c && leb c b'Z')
        || ((leb b'0' c && leb c b'9')
            || (c == b'!'
                || ((leb b'#' c && leb c 39)
                    || (c == b'*'
                        || (c == b'+'
                            || (c == b'-'
                                || (c == b'.'
                                    || (c == b'^'
                                        || (c == b'_'
                                            || (c == 96 || (c == b'|' || c == b'~'))))))))))))

unfoldable pub all_tokens : Text → Bool
unfolding is_token
all_tokens [] = true
all_tokens (c ∷ s) = is_token c && all_tokens s

-- The first letter and each one after a dash large, the others small.
unfoldable pub capitalise : Bool → Text → Text
capitalise upper [] = []
capitalise upper (c ∷ s) =
    (if upper && (leb b'a' c && leb c b'z')
      then c - 32
      else if not upper && (leb b'A' c && leb c b'Z')
      then c + 32
      else c)
    ∷ capitalise (c == b'-') s

-- textproto.CanonicalMIMEHeaderKey: what is no header's name stays as it is.
unfoldable pub canonical_key : Text → Text
unfolding all_tokens capitalise
canonical_key k = if all_tokens k then capitalise true k else k

-- http.Header
abbrev pub Header : Type 0
Header = Map (List Text)

abbrev pub first_value : Option (List Text) → Text
first_value none = []
first_value (some []) = []
first_value (some (v ∷ vs)) = v

-- h.Get(k): the first value.
unfoldable pub header_get : Header → Text → Text
unfolding lookup canonical_key
header_get h k = first_value (lookup h (canonical_key k))

-- h.Del(k)
unfoldable pub header_del : Header → Text → Header
unfolding delete canonical_key
header_del h k = delete h (canonical_key k)

abbrev pub values : Option (List Text) → List Text
values none = []
values (some vs) = vs

-- h.Add(k, v)
unfoldable pub header_add : Header → Text → Text → Header
unfolding lookup insert canonical_key
header_add h k v = insert h (canonical_key k) (values (lookup h (canonical_key k)) ++ (v ∷ []))

-- strings.Split at one byte; the accumulator is the part read so far.
unfoldable pub split_at : ℕ → Text → Text → List Text
split_at c part [] = part ∷ []
split_at c part (x ∷ s) = elim (x == c) [
  | true ↦ part ∷ split_at c [] s
  | false ↦ split_at c (part ++ (x ∷ [])) s
]

unfoldable pub split : ℕ → Text → List Text
unfolding split_at
split c s = split_at c [] s

-- The names listed in a "Connection" header.
unfoldable pub connection_names : List Text → List Text
unfolding trim_space canonical_key text_eq
connection_names [] = []
connection_names (f ∷ fs) =
    if text_eq (trim_space f) []
    then connection_names fs
    else canonical_key (trim_space f) ∷ connection_names fs

abbrev pub hop_by_hop : List Text
hop_by_hop =
    bytes "Connection"
    ∷ bytes "Proxy-Connection"
    ∷ bytes "Keep-Alive"
    ∷ bytes "Proxy-Authenticate"
    ∷ bytes "Proxy-Authorization"
    ∷ bytes "TE"
    ∷ bytes "Trailers"
    ∷ bytes "Transfer-Encoding"
    ∷ bytes "Upgrade"
    ∷ []

unfoldable pub header_del_all : Header → List Text → Header
unfolding header_del
header_del_all h [] = h
header_del_all h (k ∷ ks) = header_del_all (header_del h k) ks

unfoldable pub connection_tokens : Header → List Text
unfolding header_get connection_names split text_eq
connection_tokens h =
    let c = header_get h (bytes "Connection") in
    if text_eq c [] then [] else connection_names (split b',' c)

unfoldable pub strip_hop_by_hop_headers : Header → Header
unfolding header_del_all connection_tokens
strip_hop_by_hop_headers h = header_del_all (header_del_all h hop_by_hop) (connection_tokens h)

unfoldable pub add_values : Header → Text → List Text → Header
unfolding header_add
add_values dst k [] = dst
add_values dst k (v ∷ vs) = add_values (header_add dst k v) k vs

-- The loops of `copyHeader`, in some order of the keys.
unfoldable pub copy_header : Header → Header → Header
unfolding add_values
copy_header dst [] = dst
copy_header dst ((k, vs) ∷ src) = copy_header (add_values dst k vs) src
