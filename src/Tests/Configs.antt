-- ===== src/Tests/Configs.antt =====
-- Concrete environments.
use nebula_clone.Prelude.{true, [], ◌∷◌, none, some, ◌===◌, if◌then◌else◌, ◌≡◌, refl, str_discrete}
use nebula_clone.Prelude.Results.{ok}
use nebula_clone.Js.Number.{nat}
use nebula_clone.Js.Pattern.{matches}
use nebula_clone.Js.Env.{Env, Texts}
use nebula_clone.Agent.Config.{
  Machine, parse_server_url, parse_agent_id, parse_base_port, resolve_artifact, sanitize_agent_id,
  is_agent_id, parse_supervisor_config, parse_agent_token, parse_mirror_helper_path,
  parse_controller_token, parse_positive_int,
}
use nebula_clone.Agent.Config.StaticDevices.{parse_static_devices}
use nebula_clone.Agent.Config.Android.{
  parse_android_config, resolve_adb_path, android_for, android_with, parse_int_fields,
}
use nebula_clone.Agent.Config.Load.{AgentConfig, load_config}
use nebula_clone.Agent.Config.Loaded.{IsAccepted, load_config-IsAccepted}
use nebula_clone.Server.Config.{validate_env, token_problem, optional_int_problem}
use nebula_clone.Server.Config.Validated.{IsValid, validate_env-IsValid}

abbrev texts : Texts
texts = record { trim = λ s. s; to_number = λ s. if s === "90000" then nat 90_000 else nat 5_000 }

abbrev machine : Machine
machine = record {
  texts = texts;
  parse_json = λ s. none;
  can_execute = λ path. path === "/path";
  can_read = λ path. true;
  join = λ parts. "/path";
  homedir = "/Users/farm";
  hostname = "Mac mini.local";
  repo_root = "/repo";
}

abbrev agent_env : Env
agent_env name =
    if name === "NEBULA_SERVER_URL"
    then some "wss://farm/agent"
    else if name === "NEBULA_AGENT_TOKEN"
    then some "0123456789abcdef0123456789abcdef"
    else if name === "NEBULA_DISCOVERY_INTERVAL_MS"
    then some "5000"
    else none

abbrev loaded : AgentConfig
loaded = record {
  server_url = "wss://farm/agent";
  agent_token = "0123456789abcdef0123456789abcdef";
  agent_id = "Mac-mini-local";
  discovery_interval_ms = 5_000;
  heartbeat_interval_ms = 25_000;
  static_devices = [];
  supervisor = none;
  mirror_helper_path = "/path";
  controller_token = none;
  android = some (record {
    adb_path = "/path";
    runner_apk_path = "/path";
    base_port = 8_300;
    log_dir = "/path";
    mirror_dex_path = "/path";
    mirror_base_port = 8_400;
    supervisor_tuning =
        ("healthIntervalMs", 10_000)
        ∷ ("healthFailThreshold", 3)
        ∷ ("restartBaseMs", 2_000)
        ∷ ("restartMaxMs", 60_000)
        ∷ ("killEscalationMs", 3_000)
        ∷ ("portCooldownMs", 5_000)
        ∷ ("readyDeadlineMs", 60_000)
        ∷ ("reinstallAfterFailures", 3)
        ∷ [];
    runner_tuning =
        ("actionTimeoutMs", 9_000) ∷ ("swipeStepMs", 8) ∷ ("maxSwipeDurationMs", 8_000) ∷ [];
    mirror_tuning =
        ("restartBaseMs", 2_000)
        ∷ ("restartMaxMs", 60_000)
        ∷ ("errorThreshold", 5)
        ∷ ("killEscalationMs", 2_000)
        ∷ ("preambleDeadlineMs", 10_000)
        ∷ ("connectRetryMs", 500)
        ∷ ("bitRate", 8_000_000)
        ∷ ("fps", 60)
        ∷ ("iframeIntervalSec", 1)
        ∷ ("repeatFrameMs", 100)
        ∷ ("swapPollMs", 500)
        ∷ ("acceptDeadlineMs", 30_000)
        ∷ [];
  });
}

agent_env-loaded : load_config machine agent_env ≡ ok loaded
unfolding load_config parse_server_url parse_agent_token parse_agent_id parse_positive_int
    parse_static_devices parse_supervisor_config parse_mirror_helper_path parse_controller_token
    parse_android_config resolve_adb_path android_for android_with parse_base_port parse_int_fields
    resolve_artifact sanitize_agent_id is_agent_id matches str_discrete
agent_env-loaded = refl

load_config-IsAccepted_example : IsAccepted loaded
load_config-IsAccepted_example = load_config-IsAccepted machine agent_env loaded agent_env-loaded

abbrev server_env : Env
server_env name =
    if name === "NEBULA_CLIENT_TOKEN"
    then some "fedcba9876543210fedcba9876543210"
    else if name === "NEBULA_AGENT_TOKEN"
    then some "0123456789abcdef0123456789abcdef"
    else if name === "NEBULA_HEARTBEAT_TIMEOUT_MS"
    then some "90000"
    else none

server_env-validated : validate_env texts server_env ≡ ok server_env
unfolding validate_env token_problem str_discrete optional_int_problem
server_env-validated = refl

validate_env-IsValid_example : IsValid texts server_env
validate_env-IsValid_example = validate_env-IsValid texts server_env server_env server_env-validated
