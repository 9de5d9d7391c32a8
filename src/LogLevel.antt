-- ===== src/LogLevel.antt =====
-- `NewWithBuffer` and `parseLevel` of internal/logging/logging.go.
use easy_proxy_pool.Prelude.{ℕ, ◌-◌, Option, none, some, [], ◌∷◌, if◌then◌else◌}
use easy_proxy_pool.Prelude.Text.{Text, bytes, trim_space, to_lower, is_blank, text_eq, contains}
use easy_proxy_pool.Prelude.Word.{word_mod, positive}
use easy_proxy_pool.LogBuffer.{LogBuffer, new_log_buffer}

-- slog's levels; the level of debugging is -4.
abbrev pub level_debug : ℕ
level_debug = word_mod - 4

abbrev pub level_info : ℕ
level_info = 0

abbrev pub level_warn : ℕ
level_warn = 4

abbrev pub level_error : ℕ
level_error = 8

unfoldable pub parse_level : Text → ℕ
unfolding to_lower trim_space text_eq contains
parse_level s =
    let word = to_lower (trim_space s) in
    if text_eq word (bytes "debug")
    then level_debug
    else if contains (bytes "info" ∷ [] ∷ []) word
    then level_info
    else if contains (bytes "warn" ∷ bytes "warning" ∷ []) word
    then level_warn
    else if text_eq word (bytes "error")
    then level_error
    else level_info

-- The level of the logger, and its buffer if it has one.
unfoldable pub new_with_buffer : Text → Text → ℕ → ℕ × Option LogBuffer
unfolding parse_level is_blank
new_with_buffer config_level env_override buffer_lines = (
  if is_blank env_override then parse_level config_level else parse_level env_override,
  if positive buffer_lines then some (new_log_buffer buffer_lines) else none,
)
