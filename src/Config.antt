-- ===== src/Config.antt =====
-- src/config.rs: the settings read from the environment. A text is the list of its bytes, a usize has
-- 64 bits, a duration is its milliseconds; `none` is the panic of a setting that is refused. The
-- listing of the settings for the settings page is not modelled.
pub mod Parsed
pub mod Bounds
use vpsiner.Prelude.{
  Text, eq_text, to_ascii_lowercase, parse_digits, parse_uint, ℕ, ◌+◌, ◌-◌, ◌*◌, ◌^◌, Bool, true,
  false, ◌&&◌, String, List, [], ◌∷◌, map, Option, none, some, ◌>>=◌, ltb, leb, ◌==◌, if◌then◌else◌,
}

pub data DockerControlsMode : Type 0 where
  auto enabled disabled : DockerControlsMode

-- `env::var` and `env::var_os` at a key; the first also gives `none` for what is not Unicode.
pub record Environment : Type 0 where
  pub var : String → Option Text
  pub var_os : String → Option Text

pub record Config : Type 0 where
  pub docker_host : Text
  pub docker_timeout_secs : ℕ
  pub docker_request_timeout_secs : ℕ
  pub data_path : Text
  pub config_path : Text
  pub static_dir : Option Text
  pub port : ℕ
  pub retention_weeks : ℕ
  pub collect_interval : ℕ
  pub log_flush_debounce : ℕ
  pub log_flush_keep_alive : ℕ
  pub log_max_buffered_lines : ℕ
  pub docker_controls_mode : DockerControlsMode
  pub docker_probe_interval : ℕ
  pub docker_retry_delay : ℕ
  pub docker_request_concurrency : ℕ
  pub docker_debounce : ℕ
  pub log_channel_capacity : ℕ
  pub samples_channel_capacity : ℕ
  pub docker_events_channel_capacity : ℕ
  pub sqlite_cache_size_kb : ℕ
  pub sqlite_busy_timeout : ℕ
  pub sqlite_keep_alive : ℕ
  pub downsample_max_gap_pct : ℕ

abbrev pub auto_text : Text
auto_text = b'a' ∷ b'u' ∷ b't' ∷ b'o' ∷ []

abbrev pub enabled_text : Text
enabled_text = b'e' ∷ b'n' ∷ b'a' ∷ b'b' ∷ b'l' ∷ b'e' ∷ b'd' ∷ []

abbrev pub true_text : Text
true_text = b't' ∷ b'r' ∷ b'u' ∷ b'e' ∷ []

abbrev pub on_text : Text
on_text = b'o' ∷ b'n' ∷ []

abbrev pub disabled_text : Text
disabled_text = b'd' ∷ b'i' ∷ b's' ∷ b'a' ∷ b'b' ∷ b'l' ∷ b'e' ∷ b'd' ∷ []

abbrev pub false_text : Text
false_text = b'f' ∷ b'a' ∷ b'l' ∷ b's' ∷ b'e' ∷ []

abbrev pub off_text : Text
off_text = b'o' ∷ b'f' ∷ b'f' ∷ []

-- The word behind `DockerControlsMode::from_str`, once lower-cased.
unfoldable pub mode_of_word : Text → Option DockerControlsMode
mode_of_word word =
    if eq_text word auto_text
    then some auto
    else if eq_text word enabled_text
    then some enabled
    else if eq_text word true_text
    then some enabled
    else if eq_text word on_text
    then some enabled
    else if eq_text word disabled_text
    then some disabled
    else if eq_text word false_text
    then some disabled
    else if eq_text word off_text
    then some disabled
    else none

unfoldable pub DockerControlsMode_from_str : Text → Option DockerControlsMode
unfolding mode_of_word to_ascii_lowercase
DockerControlsMode_from_str value = mode_of_word (to_ascii_lowercase value)

unfoldable pub DockerControlsMode_to_string : DockerControlsMode → Text
DockerControlsMode_to_string auto = auto_text
DockerControlsMode_to_string enabled = enabled_text
DockerControlsMode_to_string disabled = disabled_text

abbrev pub env_or : Environment → String → Text → Text
env_or env key default = elim (env.var key) [ none ↦ default | some value ↦ value ]

unfoldable pub parse_or {ℓ} : {T : Type ℓ} → (Text → Option T) → Environment → String → T → Option T
parse_or from_str env key default = elim (env.var key) [
  | none ↦ some default
  | some value ↦ from_str value
]

-- `assert!`
abbrev pub asserted : Bool → ℕ → Option ℕ
asserted holds parsed = if holds then some parsed else none

-- At 64 bits `parse_positive_u64_or` and `parse_positive_usize_or`, at 16 `parse_positive_u16_or`.
unfoldable pub parse_positive_or : ℕ → Environment → String → ℕ → Option ℕ
unfolding parse_or parse_uint parse_digits
parse_positive_or w env key default =
    parse_or (parse_uint w) env key default >>= (λ parsed. asserted (ltb 0 parsed) parsed)

unfoldable pub parse_bounded_u64_or : Environment → String → ℕ → ℕ → Option ℕ
unfolding parse_positive_or
parse_bounded_u64_or env key default bound =
    parse_positive_or 64 env key default >>= (λ parsed. asserted (leb parsed bound) parsed)

unfoldable pub parse_percent_or : Environment → String → ℕ → Option ℕ
unfolding parse_or parse_uint parse_digits
parse_percent_or env key default =
    parse_or (parse_uint 8) env key default >>= (λ parsed. asserted (leb parsed 100) parsed)

abbrev pub max_collect_interval_secs : ℕ
max_collect_interval_secs = 10

abbrev pub default_docker_host : Text
default_docker_host =
    b'u' ∷ b'n' ∷ b'i' ∷ b'x' ∷ b':' ∷ b'/' ∷ b'/' ∷ b'/' ∷ b'v' ∷ b'a' ∷ b'r' ∷ b'/' ∷ b'r' ∷ b'u'
    ∷ b'n' ∷ b'/' ∷ b'd' ∷ b'o' ∷ b'c' ∷ b'k' ∷ b'e' ∷ b'r' ∷ b'.' ∷ b's' ∷ b'o' ∷ b'c' ∷ b'k' ∷ []

abbrev pub default_data_path : Text
default_data_path = b'd' ∷ b'a' ∷ b't' ∷ b'a' ∷ []

abbrev pub default_config_path : Text
default_config_path = b'c' ∷ b'o' ∷ b'n' ∷ b'f' ∷ b'i' ∷ b'g' ∷ []

abbrev pub from_secs : ℕ → ℕ
from_secs secs = secs * 1000

unfoldable pub from_env : Environment → Option Config
unfolding parse_or parse_positive_or parse_bounded_u64_or parse_percent_or
from_env env = do
  docker_timeout_secs ← parse_positive_or 64 env "VPSINER_DOCKER_TIMEOUT_SECS" 60
  docker_request_timeout_secs ← parse_positive_or 64 env "VPSINER_DOCKER_REQUEST_TIMEOUT_SECS" 5
  port ← parse_positive_or 16 env "VPSINER_PORT" 3000
  retention_weeks ← parse_or (parse_uint 32) env "VPSINER_RETENTION_WEEKS" 4
  collect_interval ←
      parse_bounded_u64_or env "VPSINER_COLLECT_INTERVAL_SECS" 5 max_collect_interval_secs
  log_flush_debounce ← parse_or (parse_uint 64) env "VPSINER_LOG_FLUSH_DEBOUNCE_MS" 500
  log_flush_keep_alive ← parse_positive_or 64 env "VPSINER_LOG_FLUSH_KEEP_ALIVE_SECS" 60
  log_max_buffered_lines ← parse_positive_or 64 env "VPSINER_LOG_MAX_BUFFERED_LINES" 100
  docker_controls_mode ← parse_or DockerControlsMode_from_str env "VPSINER_DOCKER_CONTROLS" auto
  docker_probe_interval ← parse_positive_or 64 env "VPSINER_DOCKER_PROBE_INTERVAL_SECS" 15
  docker_retry_delay ← parse_positive_or 64 env "VPSINER_DOCKER_RETRY_SECS" 5
  docker_request_concurrency ← parse_positive_or 64 env "VPSINER_DOCKER_REQUEST_CONCURRENCY" 8
  docker_debounce ← parse_or (parse_uint 64) env "VPSINER_DOCKER_DEBOUNCE_MS" 1000
  log_channel_capacity ← parse_positive_or 64 env "VPSINER_LOG_CHANNEL_CAPACITY" 1000
  samples_channel_capacity ← parse_positive_or 64 env "VPSINER_SAMPLES_CHANNEL_CAPACITY" 32
  docker_events_channel_capacity ←
      parse_positive_or 64 env "VPSINER_DOCKER_EVENTS_CHANNEL_CAPACITY" 256
  sqlite_cache_size_kb ← parse_positive_or 64 env "VPSINER_SQLITE_CACHE_SIZE_KB" 1024
  sqlite_busy_timeout ← parse_positive_or 64 env "VPSINER_SQLITE_BUSY_TIMEOUT_MS" 5000
  sqlite_keep_alive ← parse_positive_or 64 env "VPSINER_SQLITE_KEEP_ALIVE_SECS" 300
  downsample_max_gap_pct ← parse_percent_or env "VPSINER_DOWNSAMPLE_MAX_GAP_PCT" 40
  some (record {
    docker_host = env_or env "VPSINER_DOCKER_HOST" default_docker_host;
    docker_timeout_secs = docker_timeout_secs;
    docker_request_timeout_secs = docker_request_timeout_secs;
    data_path = env_or env "VPSINER_DATA_PATH" default_data_path;
    config_path = env_or env "VPSINER_CONFIG_PATH" default_config_path;
    static_dir = env.var_os "VPSINER_STATIC_DIR";
    port = port;
    retention_weeks = retention_weeks;
    collect_interval = from_secs collect_interval;
    log_flush_debounce = log_flush_debounce;
    log_flush_keep_alive = from_secs log_flush_keep_alive;
    log_max_buffered_lines = log_max_buffered_lines;
    docker_controls_mode = docker_controls_mode;
    docker_probe_interval = from_secs docker_probe_interval;
    docker_retry_delay = from_secs docker_retry_delay;
    docker_request_concurrency = docker_request_concurrency;
    docker_debounce = docker_debounce;
    log_channel_capacity = log_channel_capacity;
    samples_channel_capacity = samples_channel_capacity;
    docker_events_channel_capacity = docker_events_channel_capacity;
    sqlite_cache_size_kb = sqlite_cache_size_kb;
    sqlite_busy_timeout = sqlite_busy_timeout;
    sqlite_keep_alive = from_secs sqlite_keep_alive;
    downsample_max_gap_pct = downsample_max_gap_pct;
  })
