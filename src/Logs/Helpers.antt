-- ===== src/Logs/Helpers.antt =====
-- src/logs/helpers.rs: the text functions on log lines, queries and service names. A line is the list
-- of its bytes and a query the list of its code points.
pub mod Ansi
pub mod Query
pub mod Path
use vpsiner.Prelude.{
  ℕ, ◌≤◌, ◌*◌, ◌+◌, ◌-◌, Bool, true, false, not, ◌&&◌, ◌||◌, List, [], ◌∷◌, ◌++◌, map, Option, none,
  some, ◌>>=◌, ltb, leb, ◌==◌, if◌then◌else◌, keep,
}
use vpsiner.Model.Logs.{LogLevel, debug, info, warn, error}

unfoldable pub pino_level_from_number : ℕ → Option LogLevel
pino_level_from_number number =
    if leb 50 number
    then some error
    else if leb 40 number
    then some warn
    else if leb 30 number
    then some info
    else if leb 10 number
    then some debug
    else none

-- Where `strip_ansi_escape_codes` stands: before a character, within one, after the escape byte,
-- within a `[` sequence, within a `]` sequence, and there after an escape byte.
pub data Scan : Type 0 where
  text within escape csi osc osc_escape : Scan

-- A byte at which a string may not be cut.
unfoldable pub is_continuation : ℕ → Bool
is_continuation b = leb 128 b && ltb b 192

-- The next state, and whether the byte is copied; `none` is the panic of `value[index..]` at an
-- index that is no character boundary. In valid text a character is a byte and the continuation
-- bytes that follow it.
unfoldable pub scan : Scan → ℕ → Option (Scan × Bool)
unfolding is_continuation
scan text b =
    if b == 0x1b
    then some (escape, false)
    else if is_continuation b
    then none
    else some (within, true)
scan within b = if b == 0x1b then some (escape, false) else some (within, true)
scan escape b =
    if b == b'['
    then some (csi, false)
    else if b == b']'
    then some (osc, false)
    else some (text, false)
scan csi b = if leb 0x40 b && leb b 0x7e then some (text, false) else some (csi, false)
scan osc b =
    if b == 0x07
    then some (text, false)
    else if b == 0x1b
    then some (osc_escape, false)
    else some (osc, false)
scan osc_escape b =
    if b == b'\\'
    then some (text, false)
    else if b == 0x07
    then some (text, false)
    else if b == 0x1b
    then some (osc_escape, false)
    else some (osc, false)

unfoldable pub strip : Scan → List ℕ → Option (List ℕ)
unfolding scan
strip s [] = some []
strip s (b ∷ rest) = do
  (next, copied) ← scan s b
  output ← strip next rest
  some (if copied then b ∷ output else output)

unfoldable pub strip_ansi_escape_codes : List ℕ → Option (List ℕ)
unfolding strip
strip_ansi_escape_codes value = strip text value

-- `if !current.is_empty() { tokens.push(take(&mut current)) }`
unfoldable pub flush_token : List (List ℕ) → List ℕ → List (List ℕ)
flush_token tokens [] = tokens
flush_token tokens (c ∷ current) = tokens ++ (c ∷ current) ∷ []

unfoldable pub replace_quotes : List ℕ → List ℕ
replace_quotes [] = []
replace_quotes (c ∷ rest) =
    let more = replace_quotes rest in if c == b'"' then b'"' ∷ b'"' ∷ more else c ∷ more

unfoldable pub quote : List ℕ → List ℕ
unfolding replace_quotes
quote token = b'"' ∷ (replace_quotes token ++ b'"' ∷ [])

-- `join`
unfoldable pub join : List ℕ → List (List ℕ) → List ℕ
join separator [] = []
join separator (part ∷ []) = part
join separator (part ∷ next ∷ rest) = part ++ (separator ++ join separator (next ∷ rest))

-- ` OR `
abbrev pub or_separator : List ℕ
or_separator = b' ' ∷ b'O' ∷ b'R' ∷ b' ' ∷ []

module _ (is_whitespace : ℕ → Bool) where
  -- The loop over the characters, with `tokens`, `current` and `in_quotes`.
  unfoldable pub tokenize : List (List ℕ) → List ℕ → Bool → List ℕ → List (List ℕ)
  unfolding flush_token
  tokenize tokens current in_quotes [] = flush_token tokens current
  tokenize tokens current in_quotes (c ∷ rest) =
      let splits = c == b'"' || (is_whitespace c && not in_quotes) in
      let quoted = if c == b'"' then not in_quotes else in_quotes in
      tokenize (if splits then flush_token tokens current else tokens)
        (if splits then [] else current ++ c ∷ []) quoted rest

  unfoldable pub sanitize_fts_query : List ℕ → Option (List ℕ)
  unfolding tokenize quote join
  sanitize_fts_query raw = elim (tokenize [] [] false raw) [
    | [] ↦ none
    | token ∷ rest ↦ some (join or_separator (map quote (token ∷ rest)))
  ]

-- `split(['/', '\\'])`: the part before the first separator, and the parts after it.
unfoldable pub split_path : List ℕ → List ℕ × List (List ℕ)
split_path [] = ([], [])
split_path (c ∷ rest) =
    let (first, parts) = split_path rest in
    if c == b'/' || c == b'\\' then ([], first ∷ parts) else (c ∷ first, parts)

-- `!part.is_empty() && *part != "." && *part != ".."`
unfoldable pub is_kept_part : List ℕ → Bool
is_kept_part [] = false
is_kept_part (a ∷ []) = not (a == b'.')
is_kept_part (a ∷ b ∷ []) = not (a == b'.' && b == b'.')
is_kept_part (a ∷ b ∷ c ∷ rest) = true

unfoldable pub safe_service_path : List ℕ → List ℕ
unfolding split_path is_kept_part join
safe_service_path service =
    let (first, parts) = split_path service in join (b'_' ∷ []) (keep is_kept_part (first ∷ parts))
