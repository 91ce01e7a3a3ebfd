-- ===== src/Tests/Texts.antt =====
-- src/logs/helpers.rs and src/logs/flush_watcher.rs: a coloured line, a query, a service name.
use vpsiner.Prelude.{
  ℕ, inl, ◌+◌, ◌≡◌, ◌≢◌, refl, Bool, true, false, List, [], ◌∷◌, none, some, All, arith, ◌==◌,
}
use text.Mathlib.Text.{◌==◌ as str_eq}
use vpsiner.Logs.Helpers.{
  strip_ansi_escape_codes, sanitize_fts_query, safe_service_path, is_continuation,
}
use vpsiner.Logs.Helpers.Ansi.{
  is_plain, strip_ansi_escape_codes-plain, strip_ansi_escape_codes-panics,
}
use vpsiner.Logs.Helpers.Query.{IsWord, concat, kept, query_of, sanitize_fts_query-phrases}
use vpsiner.Logs.Helpers.Path.{IsPlainName, IsInside, part, joined, safe_service_path-IsInside}
use vpsiner.Logs.FlushWatcher.{
  LogFlushWatcher_new, WatcherCall, subscribes, notifies, calls, notifications, subscribe_service,
  subscribe_any, calls-revisions,
}

-- `ESC [ 3 2 m o k`
abbrev green : List ℕ
green = 0x1b ∷ b'[' ∷ b'3' ∷ b'2' ∷ b'm' ∷ b'o' ∷ b'k' ∷ []

green-plain : is_plain false false green ≡ true
unfolding is_plain is_continuation
green-plain = refl

strip_ansi_escape_codes-plain_example :
    (output : List ℕ) × ((strip_ansi_escape_codes green ≡ some output)
      × All (λ b. b ≢ 0x1b) output
      × (strip_ansi_escape_codes output ≡ some output))
strip_ansi_escape_codes-plain_example = strip_ansi_escape_codes-plain green green-plain

second_byte : is_continuation 0xa9 ≡ true
unfolding is_continuation
second_byte = refl

-- `ESC é`
strip_ansi_escape_codes-panics_example : strip_ansi_escape_codes (0x1b ∷ 0xc3 ∷ 0xa9 ∷ []) ≡ none
strip_ansi_escape_codes-panics_example =
    strip_ansi_escape_codes-panics 0xc3 0xa9 [] (omega arith) second_byte

abbrev is_space : ℕ → Bool
is_space c = c == b' '

-- `a "b c"`
abbrev typed : List ℕ
typed = b'a' ∷ b' ' ∷ b'"' ∷ b'b' ∷ b' ' ∷ b'c' ∷ b'"' ∷ []

sanitize_fts_query-phrases_example :
    (words : List (List ℕ)) × All IsWord words
    × (concat words ≡ kept is_space false typed)
    × (sanitize_fts_query is_space typed ≡ query_of words)
sanitize_fts_query-phrases_example = sanitize_fts_query-phrases is_space typed

-- `../x`
abbrev outside : List ℕ
outside = b'.' ∷ b'.' ∷ b'/' ∷ b'x' ∷ []

web_plain : IsPlainName (b'w' ∷ b'e' ∷ b'b' ∷ [])
web_plain = (
  ((λ e. omega (arith, e)), (λ e. omega (arith, e))),
  (
    ((λ e. omega (arith, e)), (λ e. omega (arith, e))),
    (((λ e. omega (arith, e)), (λ e. omega (arith, e))), tt),
  ),
)

safe_service_path-IsInside_example :
    IsPlainName (safe_service_path outside)
    × IsInside (safe_service_path outside)
    × (safe_service_path (b'w' ∷ b'e' ∷ b'b' ∷ []) ≡ part (b'w' ∷ b'e' ∷ b'b' ∷ []))
    × (safe_service_path (b'w' ∷ b'e' ∷ b'b' ∷ b'/' ∷ outside)
        ≡ joined (part (b'w' ∷ b'e' ∷ b'b' ∷ [])) (safe_service_path outside))
safe_service_path-IsInside_example =
    safe_service_path-IsInside outside (b'w' ∷ b'e' ∷ b'b' ∷ []) outside b'/' web_plain (inl refl)

abbrev some_calls : List WatcherCall
some_calls = notifies "web" ∷ subscribes "db" ∷ notifies "db" ∷ notifies "web" ∷ []

calls-revisions_example :
    ((subscribe_service (calls LogFlushWatcher_new some_calls) "web").0
      ≡ (subscribe_service LogFlushWatcher_new "web").0
        + notifications (λ s. str_eq s "web") some_calls)
    × (subscribe_any (calls LogFlushWatcher_new some_calls)
        ≡ subscribe_any LogFlushWatcher_new + notifications (λ s. true) some_calls)
calls-revisions_example = calls-revisions LogFlushWatcher_new some_calls "web"
