-- ===== src/Agent/Config/Android.antt =====
-- packages/agent/src/config.ts: the search for adb and the configuration of the Android devices. The
-- timings are the numbers under the names of their fields, as `parseIntFields` builds them.
use Prim.Native.Char.{Char, code}
use nebula_clone.Prelude.{
  ℕ, List, [], ◌∷◌, ◌++◌, map, Option, none, some, String, not, filter, find, ◌==◌, if◌then◌else◌,
}
use nebula_clone.Prelude.Results.{Result, ok, err, ◌>>=◌}
use nebula_clone.Js.Env.{Env, is_empty}
use nebula_clone.Agent.Config.{
  ConfigError, Machine, no_access, min_interval_ms, or_default, trimmed, parse_positive_int,
  parse_base_port, resolve_artifact,
}

abbrev onto_first : Char → List String → List String
onto_first c [] = String.◌∷◌ c String.[] ∷ []
onto_first c (s ∷ ss) = String.◌∷◌ c s ∷ ss

-- `text.split(':')`.
abbrev pub split_at_colons : String → List String
split_at_colons String.[] = "" ∷ []
split_at_colons (String.◌∷◌ c s) =
    let rest = split_at_colons s in if code c == b':' then "" ∷ rest else onto_first c rest

abbrev pub adb_candidates : Machine → Env → List String
adb_candidates m env =
    map (λ dir. m.join (dir ∷ "adb" ∷ []))
      (filter (λ dir. not (is_empty dir)) (split_at_colons (or_default (env "PATH") "")))
    ++ "/opt/homebrew/bin/adb"
      ∷ "/usr/local/bin/adb"
      ∷ m.join (m.homedir ∷ "Library/Android/sdk/platform-tools/adb" ∷ [])
      ∷ []

adb_from : Machine → Env → Option String → Result ConfigError (Option String)
adb_from m env none = ok (find m.can_execute (adb_candidates m env))
adb_from m env (some explicit) =
    if is_empty explicit
    then ok (find m.can_execute (adb_candidates m env))
    else if m.can_execute explicit
    then ok (some explicit)
    else err (no_access "NEBULA_ADB_PATH")

unfoldable pub resolve_adb_path : Machine → Env → Result ConfigError (Option String)
unfolding adb_from
resolve_adb_path m env = adb_from m env (trimmed m (env "NEBULA_ADB_PATH"))

-- A field, the variable that sets it, its default and its minimum.
pub record IntField : Type 0 where
  pub key : String
  pub variable : String
  pub fallback : ℕ
  pub minimum : ℕ

abbrev int_field : String → String → ℕ → ℕ → IntField
int_field key variable fallback minimum = record {
  key = key;
  variable = variable;
  fallback = fallback;
  minimum = minimum;
}

unfoldable pub parse_int_fields :
    Machine → Env → List IntField → Result ConfigError (List (String × ℕ))
parse_int_fields m env [] = ok []
parse_int_fields m env (field ∷ fields) = do
  n ← parse_positive_int m.texts field.variable (env field.variable) field.fallback field.minimum
  rest ← parse_int_fields m env fields
  ok ((field.key, n) ∷ rest)

abbrev pub android_supervisor_fields : List IntField
android_supervisor_fields =
    int_field "healthIntervalMs" "NEBULA_ANDROID_HEALTH_INTERVAL_MS" 10_000 min_interval_ms
    ∷ int_field "healthFailThreshold" "NEBULA_ANDROID_HEALTH_FAIL_THRESHOLD" 3 1
    ∷ int_field "restartBaseMs" "NEBULA_ANDROID_RESTART_BASE_MS" 2_000 1
    ∷ int_field "restartMaxMs" "NEBULA_ANDROID_RESTART_MAX_MS" 60_000 1
    ∷ int_field "killEscalationMs" "NEBULA_ANDROID_KILL_ESCALATION_MS" 3_000 1
    ∷ int_field "portCooldownMs" "NEBULA_ANDROID_PORT_COOLDOWN_MS" 5_000 1
    ∷ int_field "readyDeadlineMs" "NEBULA_ANDROID_READY_DEADLINE_MS" 60_000 1
    ∷ int_field "reinstallAfterFailures" "NEBULA_ANDROID_REINSTALL_AFTER_FAILURES" 3 1
    ∷ []

abbrev pub android_runner_fields : List IntField
android_runner_fields =
    int_field "actionTimeoutMs" "NEBULA_ANDROID_ACTION_TIMEOUT_MS" 9_000 1
    ∷ int_field "swipeStepMs" "NEBULA_ANDROID_SWIPE_STEP_MS" 8 1
    ∷ int_field "maxSwipeDurationMs" "NEBULA_ANDROID_MAX_SWIPE_DURATION_MS" 8_000 1
    ∷ []

abbrev pub android_mirror_fields : List IntField
android_mirror_fields =
    int_field "restartBaseMs" "NEBULA_ANDROID_MIRROR_RESTART_BASE_MS" 2_000 1
    ∷ int_field "restartMaxMs" "NEBULA_ANDROID_MIRROR_RESTART_MAX_MS" 60_000 1
    ∷ int_field "errorThreshold" "NEBULA_ANDROID_MIRROR_ERROR_THRESHOLD" 5 1
    ∷ int_field "killEscalationMs" "NEBULA_ANDROID_MIRROR_KILL_ESCALATION_MS" 2_000 1
    ∷ int_field "preambleDeadlineMs" "NEBULA_ANDROID_MIRROR_PREAMBLE_DEADLINE_MS" 10_000 1
    ∷ int_field "connectRetryMs" "NEBULA_ANDROID_MIRROR_CONNECT_RETRY_MS" 500 1
    ∷ int_field "bitRate" "NEBULA_ANDROID_MIRROR_BITRATE" 8_000_000 1
    ∷ int_field "fps" "NEBULA_ANDROID_MIRROR_FPS" 60 1
    ∷ int_field "iframeIntervalSec" "NEBULA_ANDROID_MIRROR_IFRAME_SEC" 1 1
    ∷ int_field "repeatFrameMs" "NEBULA_ANDROID_MIRROR_REPEAT_FRAME_MS" 100 1
    ∷ int_field "swapPollMs" "NEBULA_ANDROID_MIRROR_SWAP_POLL_MS" 500 1
    ∷ int_field "acceptDeadlineMs" "NEBULA_ANDROID_MIRROR_ACCEPT_DEADLINE_MS" 30_000 1
    ∷ []

pub record AndroidEnvConfig : Type 0 where
  pub adb_path : String
  pub runner_apk_path : String
  pub base_port : ℕ
  pub log_dir : String
  pub mirror_dex_path : String
  pub mirror_base_port : ℕ
  pub supervisor_tuning : List (String × ℕ)
  pub runner_tuning : List (String × ℕ)
  pub mirror_tuning : List (String × ℕ)

-- With an adb: its paths, ports and timings.
unfoldable pub android_with : Machine → Env → String → Result ConfigError AndroidEnvConfig
android_with m env adb_path = do
  base_port ← parse_base_port m env "NEBULA_ANDROID_BASE_PORT" 8_300
  mirror_base_port ← parse_base_port m env "NEBULA_ANDROID_MIRROR_BASE_PORT" 8_400
  runner_apk_path ←
      resolve_artifact m "NEBULA_ANDROID_RUNNER_APK" (env "NEBULA_ANDROID_RUNNER_APK") (
        m.join
          (m.repo_root ∷ "android-controller/runner/build/outputs/apk/debug/runner-debug.apk" ∷ []))
  mirror_dex_path ←
      resolve_artifact m "NEBULA_ANDROID_MIRROR_DEX" (env "NEBULA_ANDROID_MIRROR_DEX") (
        m.join
          (m.repo_root ∷ "android-controller/mirror/build/outputs/apk/debug/mirror-debug.apk" ∷ []))
  supervisor_tuning ← parse_int_fields m env android_supervisor_fields
  runner_tuning ← parse_int_fields m env android_runner_fields
  mirror_tuning ← parse_int_fields m env android_mirror_fields
  ok (record {
    adb_path = adb_path;
    runner_apk_path = runner_apk_path;
    base_port = base_port;
    log_dir =
        or_default (env "NEBULA_CONTROLLER_LOG_DIR") (m.join (m.homedir ∷ ".nebula" ∷ "logs" ∷ []));
    mirror_dex_path = mirror_dex_path;
    mirror_base_port = mirror_base_port;
    supervisor_tuning = supervisor_tuning;
    runner_tuning = runner_tuning;
    mirror_tuning = mirror_tuning;
  })

unfoldable pub android_for :
    Machine → Env → Option String → Result ConfigError (Option AndroidEnvConfig)
android_for m env none = ok none
android_for m env (some adb_path) =
    if is_empty adb_path then ok none else (android_with m env adb_path >>= λ c. ok (some c))

unfoldable pub parse_android_config : Machine → Env → Result ConfigError (Option AndroidEnvConfig)
unfolding android_for
parse_android_config m env = do adb_path ← resolve_adb_path m env; android_for m env adb_path
