-- ===== src/Learning/Settings.antt =====
-- src/learning/worker-settings.ts and validateSettings of worker.ts, on a record whose fields are
-- numbers: `version` and the two settings. A number that is no safe integer is too large.
use agent_experience_agentic.Common.{
  ℕ, Bool, ◌&&◌, Result, ok, ◌>>◌, guard, leb, nat_eq, ◌≡◌, ◌↔◌, arith,
}

pub record AnalysisWorkerSettings : Type 0 where
  pub version : ℕ
  pub max_processes : ℕ
  pub idle_timeout_ms : ℕ

pub data SettingsError : Type 0 where
  invalid_settings max_processes_range idle_timeout_range : SettingsError

abbrev pub default_max_processes : ℕ
default_max_processes = 3

abbrev pub default_idle_timeout_ms : ℕ
default_idle_timeout_ms = 300000

abbrev pub min_max_processes : ℕ
min_max_processes = 1

abbrev pub max_max_processes : ℕ
max_max_processes = 16

abbrev pub min_idle_timeout_ms : ℕ
min_idle_timeout_ms = 1000

abbrev pub max_idle_timeout_ms : ℕ
max_idle_timeout_ms = 3600000

-- Number.MAX_SAFE_INTEGER.
abbrev pub is_safe_integer : ℕ → Bool
is_safe_integer n = leb n 9007199254740991

unfoldable pub validate : AnalysisWorkerSettings → Result SettingsError AnalysisWorkerSettings
validate value = do
  guard (nat_eq value.version 1) invalid_settings
  guard (is_safe_integer value.max_processes) invalid_settings
  guard (leb min_max_processes value.max_processes && leb value.max_processes max_max_processes)
      max_processes_range
  guard (is_safe_integer value.idle_timeout_ms) invalid_settings
  guard
      (leb min_idle_timeout_ms value.idle_timeout_ms
        && leb value.idle_timeout_ms max_idle_timeout_ms)
      idle_timeout_range
  ok value

abbrev pub defaults : AnalysisWorkerSettings
defaults = record {
  version = 1;
  max_processes = default_max_processes;
  idle_timeout_ms = default_idle_timeout_ms;
}

-- `validateSettings` of worker.ts.
unfoldable pub validate_settings : AnalysisWorkerSettings → Result SettingsError (Unit {0})
validate_settings settings =
    guard
      (nat_eq settings.version 1
        && (is_safe_integer settings.max_processes
            && (leb 1 settings.max_processes
                && (leb settings.max_processes 16
                    && (is_safe_integer settings.idle_timeout_ms
                        && (leb 1000 settings.idle_timeout_ms
                            && leb settings.idle_timeout_ms 3600000))))))
      invalid_settings

-- The file's loader and the coordinator accept the same settings.
pub validate-validate_settings :
    (s : AnalysisWorkerSettings) → (validate s ≡ ok s) ↔ (validate_settings s ≡ ok tt)
unfolding validate validate_settings
validate-validate_settings s = ((λ h. ground (arith, h)), (λ h. ground (arith, h)))
