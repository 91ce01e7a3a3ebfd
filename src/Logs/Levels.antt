-- ===== src/Logs/Levels.antt =====
-- src/logs/helpers.rs: the level that is read off the text of a line. A line is the list of its code
-- points; which of them are white space is an argument.
use vpsiner.Prelude.{
  ℕ, zero, suc, ◌-◌, Bool, ◌||◌, [], ◌∷◌, ◌++◌, Option, none, some, Text, codes, eq_text,
  strip_prefix, is_infix, to_ascii_lowercase, is_digit, parse_uint, ◌==◌, if◌then◌else◌, length,
}
use vpsiner.Model.Logs.{LogLevel, debug, info, warn, error}
use vpsiner.Logs.Helpers.{pino_level_from_number}

-- `value[start..digits_end]`
unfoldable pub leading_digits : Text → Text
leading_digits [] = []
leading_digits (c ∷ s) = let rest = c ∷ leading_digits s in if is_digit c then rest else []

-- `Tolerate an optional wrapping quote`
unfoldable pub skip_quote : Text → Text
skip_quote [] = []
skip_quote (c ∷ s) = if c == b'"' then s else c ∷ s

-- The level of the number behind a needle. No digits parse to no number.
unfoldable pub level_behind : Text → Option LogLevel
unfolding leading_digits skip_quote parse_uint pino_level_from_number
level_behind rest = elim (parse_uint 32 (leading_digits (skip_quote rest))) [
  | none ↦ none
  | some number ↦ pino_level_from_number number
]

-- The search for one needle; `skip` characters belong to the needle that was found last.
unfoldable pub detect_behind : Text → ℕ → Text → Option LogLevel
unfolding strip_prefix level_behind
detect_behind needle skip [] = none
detect_behind needle (suc skip) (c ∷ s) = detect_behind needle skip s
detect_behind needle zero (c ∷ s) = elim (strip_prefix needle (c ∷ s)) [
  | none ↦ detect_behind needle zero s
  | some rest ↦ elim (level_behind rest) [
    | none ↦ detect_behind needle (length needle - 1) s
    | some level ↦ some level
  ]
]

abbrev pub json_level : Text
json_level = codes "\"level\":"

abbrev pub plain_level : Text
plain_level = codes "level="

unfoldable pub detect_pino_numeric_level : Text → Option LogLevel
unfolding detect_behind
detect_pino_numeric_level value = elim (detect_behind json_level zero value) [
  | none ↦ detect_behind plain_level zero value
  | some level ↦ some level
]

module _ (is_whitespace : ℕ → Bool) where
  -- The next word of `split_whitespace`, and what follows it.
  unfoldable pub next_word : Text → Text × Text
  next_word [] = ([], [])
  next_word (c ∷ s) =
      let (word, rest) = next_word s in if is_whitespace c then ([], c ∷ s) else (c ∷ word, rest)

  unfoldable pub trim_start : Text → Text
  trim_start [] = []
  trim_start (c ∷ s) = let rest = trim_start s in if is_whitespace c then rest else c ∷ s

  -- `is_bare_word`: one of the first two words; a missing word is empty.
  unfoldable pub is_bare_word : Text → Text → Bool
  unfolding next_word trim_start
  is_bare_word value target =
      let (word1, rest) = next_word (trim_start value) in
      let (word2, _) = next_word (trim_start rest) in eq_text word1 target || eq_text word2 target

  -- `"level":"x"`, `level=x`, `[x]`, `x:` in a text.
  abbrev pub is_tagged : Text → Text → Bool
  is_tagged value name =
      is_infix (codes "\"level\":\"" ++ (name ++ codes "\"")) value
      || is_infix (codes "level=" ++ name) value
      || is_infix (codes "[" ++ (name ++ codes "]")) value

  abbrev pub is_named : Text → Text → Bool
  is_named value name =
      is_tagged value name || is_infix (name ++ codes ":") value || is_bare_word value name

  -- `detect_level` on text in lower case.
  unfoldable pub detect_lowercase : Text → Option LogLevel
  unfolding detect_pino_numeric_level is_infix strip_prefix is_bare_word
  detect_lowercase value = elim (detect_pino_numeric_level value) [
    | some level ↦ some level
    | none ↦
        if is_named value (codes "error") || is_named value (codes "fatal")
        then some error
        else if is_named value (codes "warn") || is_named value (codes "warning")
        then some warn
        else if is_named value (codes "info")
        then some info
        else if is_named value (codes "debug")
            || is_named value (codes "verbose")
            || is_tagged value (codes "trace")
        then some debug
        else none
  ]

  unfoldable pub detect_level : Text → Option LogLevel
  unfolding detect_lowercase to_ascii_lowercase
  detect_level raw = detect_lowercase (to_ascii_lowercase raw)
