-- ===== src/Tests/Config.antt =====
-- src/config.rs: the settings of an environment that sets one variable.
use vpsiner.Prelude.{[], ◌∷◌, none, some, if◌then◌else◌}
use text.Mathlib.Text.{◌==◌ as str_eq}
use vpsiner.Config.{Environment, from_env}
use vpsiner.Config.Parsed.{Outcome}
use vpsiner.Config.Bounds.{IsBounded, from_env-IsBounded}

-- The collection interval is set to seven seconds.
abbrev every_seven : Environment
every_seven = record {
  var = λ key. if str_eq key "VPSINER_COLLECT_INTERVAL_SECS" then some (b'7' ∷ []) else none;
  var_os = λ key. none;
}

from_env-IsBounded_example : Outcome every_seven IsBounded (from_env every_seven)
from_env-IsBounded_example = from_env-IsBounded every_seven
