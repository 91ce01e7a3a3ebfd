-- ===== src/Logs/Rows/Readable.antt =====
-- src/logs/store.rs: the rows as the store writes them, and the entries that they are read as.
use vpsiner.Prelude.{
  ◌≡◌, refl, Bool, true, false, ◌||◌, String, List, [], ◌∷◌, map, Option, none, some, ℤ, pos, ◌+ℤ◌,
  ◌≤ℤ◌, ◌<ℤ◌, wrap_i64, wrap_i64-id, one_part, length, Text, int_laws, ◌>>=◌, eq_ℤ,
}
use vpsiner.Model.ContainerId.{from_bytes}
use vpsiner.Model.Logs.{
  LogStream, LogLevel, stdout, stderr, debug, info, warn, error, stream_storage_code,
  level_storage_code, stream_from_storage_code, level_from_storage_code,
}
use vpsiner.Metrics.Bucket.Window.{IsTime}
use vpsiner.Logs.Weeks.{week_ms}
use vpsiner.Logs.Rows.{LogRow, StoredLog, decode_row, level_code, in_codes, in_levels, in_streams}

-- The codes of the row are those of a stream and a level, its container id has six bytes, and its time
-- lies in its week.
pub record IsRow (r : LogRow) : Type 0 where
  pub within : (pos 0 ≤ℤ r.ts_rel) × (r.ts_rel <ℤ pos week_ms)
  pub stream : LogStream
  pub stream_code : r.stream ≡ stream_storage_code stream
  pub level : Option LogLevel
  pub level_code_eq : r.level ≡ level_code level
  pub six : length r.cid ≡ 6

-- The entry that a row stands for.
abbrev pub entry_of : String → Text → ℤ → (r : LogRow) → IsRow r → StoredLog
entry_of service week week_start r h = record {
  ts = r.ts_rel +ℤ week_start;
  week = week;
  id = r.id;
  line = record {
    ts = r.ts_rel +ℤ week_start;
    service = service;
    cid = record { bytes = r.cid };
    stream = h.stream;
    level = h.level;
    line = r.line;
  };
}

stream_code_back : (s : LogStream) → stream_from_storage_code (stream_storage_code s) ≡ some s
unfolding stream_from_storage_code stream_storage_code
stream_code_back stdout = refl
stream_code_back stderr = refl

level_code_back : (l : Option LogLevel) → (level_code l >>= level_from_storage_code) ≡ l
unfolding level_from_storage_code level_storage_code
level_code_back none = refl
level_code_back (some debug) = refl
level_code_back (some info) = refl
level_code_back (some warn) = refl
level_code_back (some error) = refl

module _ (week_start : ℤ) (near : IsTime week_start) (r : LogRow) (h : IsRow r) where
  pub rel-wrap : wrap_i64 (r.ts_rel +ℤ week_start) ≡ r.ts_rel +ℤ week_start
  rel-wrap =
      wrap_i64-id (r.ts_rel +ℤ week_start) (omega (int_laws, one_part (r.ts_rel +ℤ week_start)))

  pub decode_row-entry_of :
      (service : String) (week : Text)
      → decode_row service week week_start r ≡ some (entry_of service week week_start r h)
  unfolding decode_row from_bytes
  decode_row-entry_of service week =
      rw (h.stream_code, stream_code_back, h.six, h.level_code_eq, level_code_back, rel-wrap) refl

abbrev pub eq_level : LogLevel → LogLevel → Bool
eq_level debug debug = true
eq_level info info = true
eq_level warn warn = true
eq_level error error = true
eq_level _ _ = false

abbrev pub eq_stream : LogStream → LogStream → Bool
eq_stream stdout stdout = true
eq_stream stderr stderr = true
eq_stream _ _ = false

abbrev pub any_of {ℓ} : {A : Type ℓ} → (A → Bool) → List A → Bool
any_of test [] = false
any_of test (x ∷ xs) = test x || any_of test xs

-- Of no levels every line is wanted, of some the lines with one of them.
abbrev pub wants_level : List LogLevel → Option LogLevel → Bool
wants_level [] level = true
wants_level (l ∷ levels) none = false
wants_level (l ∷ levels) (some level) = any_of (λ m. eq_level m level) (l ∷ levels)

abbrev pub wants_stream : List LogStream → LogStream → Bool
wants_stream [] stream = true
wants_stream (s ∷ streams) stream = any_of (λ t. eq_stream t stream) (s ∷ streams)

eq_level-code : (a b : LogLevel) → eq_ℤ (level_storage_code a) (level_storage_code b) ≡ eq_level a b
unfolding level_storage_code
eq_level-code debug debug = refl
eq_level-code debug info = refl
eq_level-code debug warn = refl
eq_level-code debug error = refl
eq_level-code info debug = refl
eq_level-code info info = refl
eq_level-code info warn = refl
eq_level-code info error = refl
eq_level-code warn debug = refl
eq_level-code warn info = refl
eq_level-code warn warn = refl
eq_level-code warn error = refl
eq_level-code error debug = refl
eq_level-code error info = refl
eq_level-code error warn = refl
eq_level-code error error = refl

eq_stream-code :
    (a b : LogStream) → eq_ℤ (stream_storage_code a) (stream_storage_code b) ≡ eq_stream a b
unfolding stream_storage_code
eq_stream-code stdout stdout = refl
eq_stream-code stdout stderr = refl
eq_stream-code stderr stdout = refl
eq_stream-code stderr stderr = refl

in_codes-level :
    (levels : List LogLevel) (level : LogLevel)
    → in_codes (map level_storage_code levels) (some (level_storage_code level))
      ≡ any_of (λ m. eq_level m level) levels
unfolding in_codes
in_codes-level [] level = refl
in_codes-level (l ∷ levels) level = rw (eq_level-code, in_codes-level levels level) refl

in_codes-stream :
    (streams : List LogStream) (stream : LogStream)
    → in_codes (map stream_storage_code streams) (some (stream_storage_code stream))
      ≡ any_of (λ t. eq_stream t stream) streams
unfolding in_codes
in_codes-stream [] stream = refl
in_codes-stream (s ∷ streams) stream = rw (eq_stream-code, in_codes-stream streams stream) refl

pub in_levels-wants :
    (levels : List LogLevel) (level : Option LogLevel)
    → in_levels levels (level_code level) ≡ wants_level levels level
unfolding in_codes
in_levels-wants [] level = refl
in_levels-wants (l ∷ levels) none = refl
in_levels-wants (l ∷ levels) (some level) = in_codes-level (l ∷ levels) level

pub in_streams-wants :
    (streams : List LogStream) (stream : LogStream)
    → in_streams streams (stream_storage_code stream) ≡ wants_stream streams stream
in_streams-wants [] stream = refl
in_streams-wants (s ∷ streams) stream = in_codes-stream (s ∷ streams) stream
