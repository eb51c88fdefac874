-- ===== src/Agent/Config/Load.antt =====
-- packages/agent/src/config.ts: `loadConfig`.
use nebula_clone.Prelude.{ℕ, List, Option, String}
use nebula_clone.Prelude.Results.{Result, ok, ◌>>=◌}
use nebula_clone.Js.Env.{Env, given}
use nebula_clone.Shared.Types.{RegisterDeviceInput}
use nebula_clone.Agent.Config.{
  ConfigError, Machine, SupervisorEnvConfig, parse_server_url, parse_agent_token, parse_agent_id,
  parse_positive_int, parse_supervisor_config, parse_mirror_helper_path, parse_controller_token,
  min_interval_ms,
}
use nebula_clone.Agent.Config.StaticDevices.{parse_static_devices}
use nebula_clone.Agent.Config.Android.{AndroidEnvConfig, parse_android_config}

pub record AgentConfig : Type 0 where
  pub server_url : String
  pub agent_token : String
  pub agent_id : String
  pub discovery_interval_ms : ℕ
  pub heartbeat_interval_ms : ℕ
  pub static_devices : List RegisterDeviceInput
  pub supervisor : Option SupervisorEnvConfig
  pub mirror_helper_path : String
  pub controller_token : Option String
  pub android : Option AndroidEnvConfig

unfoldable pub load_config : Machine → Env → Result ConfigError AgentConfig
load_config m env = do
  server_url ← parse_server_url (given (env "NEBULA_SERVER_URL"))
  agent_token ← parse_agent_token (given (env "NEBULA_AGENT_TOKEN"))
  agent_id ← parse_agent_id m (env "NEBULA_AGENT_ID")
  discovery_interval_ms ←
      parse_positive_int m.texts "NEBULA_DISCOVERY_INTERVAL_MS" (env "NEBULA_DISCOVERY_INTERVAL_MS")
        20_000 min_interval_ms
  heartbeat_interval_ms ←
      parse_positive_int m.texts "NEBULA_HEARTBEAT_INTERVAL_MS" (env "NEBULA_HEARTBEAT_INTERVAL_MS")
        25_000 min_interval_ms
  static_devices ← parse_static_devices m (env "NEBULA_STATIC_DEVICES")
  supervisor ← parse_supervisor_config m env
  mirror_helper_path ← parse_mirror_helper_path m (env "NEBULA_MIRROR_HELPER")
  controller_token ← parse_controller_token m (env "NEBULA_CONTROLLER_TOKEN")
  android ← parse_android_config m env
  ok (record {
    server_url = server_url;
    agent_token = agent_token;
    agent_id = agent_id;
    discovery_interval_ms = discovery_interval_ms;
    heartbeat_interval_ms = heartbeat_interval_ms;
    static_devices = static_devices;
    supervisor = supervisor;
    mirror_helper_path = mirror_helper_path;
    controller_token = controller_token;
    android = android;
  })
