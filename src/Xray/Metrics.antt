-- ===== src/Xray/Metrics.antt =====
-- `ParseDebugVars` of internal/xray/metrics.go: the health of the nodes, by the tags of their outbounds.

use easy_proxy_pool.Prelude.{
  ℕ, ◌+◌, ◌*◌, ◌≡◌, refl, Bool, true, false, Option, none, some, [], ◌∷◌, if◌then◌else◌,
}
use easy_proxy_pool.Prelude.Text.{Text, bytes, text_eq, text_eq_iff}
use easy_proxy_pool.Prelude.Map.{Map, lookup}
use easy_proxy_pool.Prelude.Word.{mul64, positive}
use easy_proxy_pool.Prelude.Value.{
  Value, null, boolean, int, int64, float64, string, array, object, Fields, no_fields, field,
  get_field,
}
use easy_proxy_pool.Prelude.Outcome.{Outcome, done, and_then, wrap}
use easy_proxy_pool.Status.{NodeHealth}

-- json.Unmarshal into a map, which may be nil for the document `null`, and int64 of a float64.
pub record Decoder : Type 0 where
  pub unmarshal : Text → Outcome Fields
  pub truncate : ℕ → ℕ

unfoldable pub get_bool_any : Option Value → Bool
get_bool_any (some (boolean x)) = x
get_bool_any _ = false

unfoldable pub get_int64_any : (ℕ → ℕ) → Option Value → ℕ
get_int64_any truncate (some (int x)) = x
get_int64_any truncate (some (int64 x)) = x
get_int64_any truncate (some (float64 x)) = truncate x
get_int64_any truncate _ = 0

-- The zero time for a number that is not positive. The Unix epoch is 62135596800 seconds after it.
unfoldable pub from_unix_seconds : ℕ → ℕ
from_unix_seconds v = if positive v then (62135596800 + v) * 1000000000 else 0

unfoldable pub health_of : (ℕ → ℕ) → Text → Fields → NodeHealth
unfolding get_bool_any get_int64_any from_unix_seconds get_field
health_of truncate tag m = record {
  alive = get_bool_any (get_field m (bytes "alive"));
  delay = mul64 (get_int64_any truncate (get_field m (bytes "delay"))) 1000000;
  last_seen = from_unix_seconds (get_int64_any truncate (get_field m (bytes "last_seen_time")));
  last_try = from_unix_seconds (get_int64_any truncate (get_field m (bytes "last_try_time")));
  outbound_tag = tag;
}

-- The loop over the observatory's entries; those that are no objects are passed over.
unfoldable pub nodes_of : (ℕ → ℕ) → Fields → Map NodeHealth
unfolding health_of
nodes_of truncate no_fields = []
nodes_of truncate (field tag (object m) rest) =
    (tag, health_of truncate tag m) ∷ nodes_of truncate rest
nodes_of truncate (field tag _ rest) = nodes_of truncate rest

unfoldable pub observatory_of : (ℕ → ℕ) → Option Value → Map NodeHealth
unfolding nodes_of
observatory_of truncate (some (object obs)) = nodes_of truncate obs
observatory_of truncate _ = []

unfoldable pub parse_debug_vars : Decoder → Text → Outcome (Map NodeHealth)
unfolding observatory_of get_field
parse_debug_vars dec text =
    and_then (wrap (bytes "parse /debug/vars: ") (dec.unmarshal text))
      (λ root. done (observatory_of dec.truncate (get_field root (bytes "observatory"))))

-- The health under a tag is under its own tag.
abbrev pub HasTag : Text → Option NodeHealth → Type 0
HasTag tag none = Unit
HasTag tag (some h) = h.outbound_tag ≡ tag

HasTag-if :
    (b : Bool) (tag : Text) (h : NodeHealth) (o : Option NodeHealth)
    → (b ≡ true → h.outbound_tag ≡ tag)
    → HasTag tag o
    → HasTag tag (if b then some h else o)
HasTag-if true tag h o e k = e refl
HasTag-if false tag h o e k = k

pub nodes_of-HasTag :
    (truncate : ℕ → ℕ) (obs : Fields) (tag : Text) → HasTag tag (lookup (nodes_of truncate obs) tag)
unfolding nodes_of lookup health_of
nodes_of-HasTag truncate no_fields tag = tt
nodes_of-HasTag truncate (field k (object m) rest) tag =
    HasTag-if (text_eq k tag) tag (health_of truncate k m) (lookup (nodes_of truncate rest) tag)
      (text_eq_iff k tag).0 (nodes_of-HasTag truncate rest tag)
nodes_of-HasTag truncate (field k null rest) tag = nodes_of-HasTag truncate rest tag
nodes_of-HasTag truncate (field k (boolean x) rest) tag = nodes_of-HasTag truncate rest tag
nodes_of-HasTag truncate (field k (int x) rest) tag = nodes_of-HasTag truncate rest tag
nodes_of-HasTag truncate (field k (int64 x) rest) tag = nodes_of-HasTag truncate rest tag
nodes_of-HasTag truncate (field k (float64 x) rest) tag = nodes_of-HasTag truncate rest tag
nodes_of-HasTag truncate (field k (string x) rest) tag = nodes_of-HasTag truncate rest tag
nodes_of-HasTag truncate (field k (array x) rest) tag = nodes_of-HasTag truncate rest tag
