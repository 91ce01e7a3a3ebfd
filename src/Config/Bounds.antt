-- ===== src/Config/Bounds.antt =====
-- src/config.rs: what the parsed settings are bounded by.
use vpsiner.Prelude.{
  parse_uint, ℕ, ◌^◌, ◌≤◌, ◌<◌, ◌≡◌, refl, true, ◌&&◌, String, Option, ◌>>=◌, ltb, leb, &&_both,
  ltb→lt, leb→le, arith,
}
use vpsiner.Config.{
  DockerControlsMode, DockerControlsMode_from_str, auto, Environment, Config, parse_or,
  parse_positive_or, parse_bounded_u64_or, parse_percent_or, from_secs, from_env,
}
use vpsiner.Config.Parsed.{
  Outcome, Outcome-bind, AllOf-Unit, parse_or-Outcome, parse_any-Outcome, parse_positive_or-Outcome,
  parse_percent_or-Outcome, parse_bounded_u64_or-Outcome,
}

-- What the rest of the program takes for granted: no zero among the capacities, intervals, limits and
-- timeouts, and each number in its word.
pub record IsBounded (c : Config) : Type 0 where
  pub port : (0 < c.port) × (c.port < 2 ^ 16)
  pub retention_weeks : c.retention_weeks < 2 ^ 32
  pub collect_interval : (0 < c.collect_interval) × (c.collect_interval ≤ 10000)
  pub max_gap_pct : c.downsample_max_gap_pct ≤ 100
  pub timeouts : (0 < c.docker_timeout_secs) × (0 < c.docker_request_timeout_secs)
  pub lines : (0 < c.log_max_buffered_lines) × (c.log_max_buffered_lines < 2 ^ 64)
  pub channels :
      (0 < c.log_channel_capacity)
      × (0 < c.samples_channel_capacity)
      × (0 < c.docker_events_channel_capacity)
  pub requests : 0 < c.docker_request_concurrency
  pub intervals :
      (0 < c.log_flush_keep_alive) × (0 < c.docker_probe_interval) × (0 < c.docker_retry_delay)
  pub sqlite :
      (0 < c.sqlite_cache_size_kb) × (0 < c.sqlite_busy_timeout) × (0 < c.sqlite_keep_alive)

module _ (env : Environment) where
  -- The next setting, with what the settings after it may rely on.
  positive :
      (w : ℕ) (key : String) (default : ℕ) (f : ℕ → Option Config)
      → (ltb 0 default && ltb default (2 ^ w)) ≡ true
      → ((n : ℕ) → (0 < n) × (n < 2 ^ w) → Outcome env IsBounded (f n))
      → Outcome env IsBounded (parse_positive_or w env key default >>= f)
  positive w key default f e k =
      let both = &&_both (ltb 0 default) (ltb default (2 ^ w)) e in
      let fits = ltb→lt default (2 ^ w) both.1 in
      Outcome-bind env (λ n. (n < 2 ^ w) × (ltb 0 n ≡ true)) IsBounded
        (parse_positive_or w env key default) f
        (parse_positive_or-Outcome env key w default (omega (arith, fits)) fits both.0)
        (λ n h. k n (ltb→lt 0 n h.1, h.0))

  any :
      (w : ℕ) (key : String) (default : ℕ) (f : ℕ → Option Config)
      → ltb default (2 ^ w) ≡ true
      → ((n : ℕ) → n < 2 ^ w → Outcome env IsBounded (f n))
      → Outcome env IsBounded (parse_or (parse_uint w) env key default >>= f)
  any w key default f e k =
      let fits = ltb→lt default (2 ^ w) e in
      Outcome-bind env (λ n. n < 2 ^ w) IsBounded (parse_or (parse_uint w) env key default) f
        (parse_any-Outcome env key w default (omega (arith, fits)) fits) k

  bounded :
      (key : String) (f : ℕ → Option Config)
      → ((n : ℕ) → (0 < n) × (n ≤ 10) → Outcome env IsBounded (f n))
      → Outcome env IsBounded (parse_bounded_u64_or env key 5 10 >>= f)
  bounded key f k =
      Outcome-bind env (λ n. ((n < 2 ^ 64) × (ltb 0 n ≡ true)) × (leb n 10 ≡ true)) IsBounded
        (parse_bounded_u64_or env key 5 10) f (parse_bounded_u64_or-Outcome env key)
        (λ n h. k n (ltb→lt 0 n h.0.1, leb→le n 10 h.1))

  percent :
      (key : String) (f : ℕ → Option Config)
      → ((n : ℕ) → n ≤ 100 → Outcome env IsBounded (f n))
      → Outcome env IsBounded (parse_percent_or env key 40 >>= f)
  percent key f k =
      Outcome-bind env (λ n. (n < 2 ^ 8) × (leb n 100 ≡ true)) IsBounded
        (parse_percent_or env key 40) f (parse_percent_or-Outcome env key)
        (λ n h. k n (leb→le n 100 h.1))

  chosen :
      (key : String) (f : DockerControlsMode → Option Config)
      → ((m : DockerControlsMode) → Outcome env IsBounded (f m))
      → Outcome env IsBounded (parse_or DockerControlsMode_from_str env key auto >>= f)
  chosen key f k =
      Outcome-bind env (λ m. Unit) IsBounded (parse_or DockerControlsMode_from_str env key auto) f
        (parse_or-Outcome env key (λ m. Unit) DockerControlsMode_from_str auto
          (λ s e. AllOf-Unit (DockerControlsMode_from_str s)) tt)
        (λ m u. k m)

from_secs-positive : (n : ℕ) → 0 < n → 0 < from_secs n
from_secs-positive n h = omega (arith, h)

from_secs-le : (n : ℕ) → n ≤ 10 → from_secs n ≤ 10000
from_secs-le n h = omega (arith, h)

-- Reading the settings either panics in an environment that sets some variable, or gives settings
-- in their bounds: the port, the capacities, the limits, the timeouts and the intervals are
-- positive (but for the two debounce delays and the weeks kept, which may be 0), the numbers that
-- are named in `IsBounded` with a width fit it, the collection interval is at most ten seconds and
-- the gap at most 100 percent. So the defaults are never refused.
pub from_env-IsBounded : (env : Environment) → Outcome env IsBounded (from_env env)
unfolding from_env
from_env-IsBounded env =
    positive env 64 "VPSINER_DOCKER_TIMEOUT_SECS" 60 _ refl
      (λ docker_timeout_secs docker_timeout_secs'.
        positive env 64 "VPSINER_DOCKER_REQUEST_TIMEOUT_SECS" 5 _ refl
          (λ docker_request_timeout_secs docker_request_timeout_secs'.
            positive env 16 "VPSINER_PORT" 3000 _ refl (λ port port'.
              any env 32 "VPSINER_RETENTION_WEEKS" 4 _ refl (λ retention_weeks retention_weeks'.
                bounded env "VPSINER_COLLECT_INTERVAL_SECS" _ (λ collect_interval collect_interval'.
                  any env 64 "VPSINER_LOG_FLUSH_DEBOUNCE_MS" 500 _ refl
                    (λ log_flush_debounce log_flush_debounce'.
                      positive env 64 "VPSINER_LOG_FLUSH_KEEP_ALIVE_SECS" 60 _ refl
                        (λ log_flush_keep_alive log_flush_keep_alive'.
                          positive env 64 "VPSINER_LOG_MAX_BUFFERED_LINES" 100 _ refl
                            (λ log_max_buffered_lines log_max_buffered_lines'.
                              chosen env "VPSINER_DOCKER_CONTROLS" _ (λ mode.
                                positive env 64 "VPSINER_DOCKER_PROBE_INTERVAL_SECS" 15 _ refl
                                  (λ docker_probe_interval docker_probe_interval'.
                                    positive env 64 "VPSINER_DOCKER_RETRY_SECS" 5 _ refl
                                      (λ docker_retry_delay docker_retry_delay'.
                                        positive env 64 "VPSINER_DOCKER_REQUEST_CONCURRENCY" 8 _
                                          refl
                                          (λ docker_request_concurrency docker_request_concurrency'.
                                            any env 64 "VPSINER_DOCKER_DEBOUNCE_MS" 1000 _ refl
                                              (λ docker_debounce docker_debounce'.
                                                positive env 64 "VPSINER_LOG_CHANNEL_CAPACITY" 1000
                                                  _ refl
                                                  (λ log_channel_capacity log_channel_capacity'.
                                                    positive env 64
                                                      "VPSINER_SAMPLES_CHANNEL_CAPACITY" 32 _ refl
                                                      (λ samples_channel_capacity
                                                          samples_channel_capacity'.
                                                        positive env 64
                                                          "VPSINER_DOCKER_EVENTS_CHANNEL_CAPACITY"
                                                          256 _ refl
                                                          (λ docker_events_channel_capacity
                                                            docker_events_channel_capacity'.
                                                            positive env 64
                                                            "VPSINER_SQLITE_CACHE_SIZE_KB" 1024 _
                                                            refl
                                                            (λ sqlite_cache_size_kb
                                                            sqlite_cache_size_kb'.
                                                            positive env 64
                                                            "VPSINER_SQLITE_BUSY_TIMEOUT_MS" 5000 _
                                                            refl
                                                            (λ sqlite_busy_timeout
                                                            sqlite_busy_timeout'.
                                                            positive env 64
                                                            "VPSINER_SQLITE_KEEP_ALIVE_SECS" 300 _
                                                            refl
                                                            (λ sqlite_keep_alive sqlite_keep_alive'.
                                                            percent env
                                                            "VPSINER_DOWNSAMPLE_MAX_GAP_PCT" _
                                                            (λ downsample_max_gap_pct
                                                            downsample_max_gap_pct'.
                                                            record {
                                                            port = port';
                                                            retention_weeks = retention_weeks';
                                                            collect_interval = (
                                                            from_secs-positive collect_interval
                                                            collect_interval'.0,
                                                            from_secs-le collect_interval
                                                            collect_interval'.1,
                                                            );
                                                            max_gap_pct = downsample_max_gap_pct';
                                                            timeouts = (
                                                            docker_timeout_secs'.0,
                                                            docker_request_timeout_secs'.0,
                                                            );
                                                            lines = log_max_buffered_lines';
                                                            channels = (
                                                            log_channel_capacity'.0,
                                                            samples_channel_capacity'.0,
                                                            docker_events_channel_capacity'.0,
                                                            );
                                                            requests =
                                                            docker_request_concurrency'.0;
                                                            intervals = (
                                                            from_secs-positive log_flush_keep_alive
                                                            log_flush_keep_alive'.0,
                                                            from_secs-positive docker_probe_interval
                                                            docker_probe_interval'.0,
                                                            from_secs-positive docker_retry_delay
                                                            docker_retry_delay'.0,
                                                            );
                                                            sqlite = (
                                                            sqlite_cache_size_kb'.0,
                                                            sqlite_busy_timeout'.0,
                                                            from_secs-positive sqlite_keep_alive
                                                            sqlite_keep_alive'.0,
                                                            );
                                                            }))))))))))))))))))))
