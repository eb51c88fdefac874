-- ===== src/Agent/Config.antt =====
-- packages/agent/src/config.ts: from the environment to the configuration of the agent. An error that
-- is thrown is a value. `Machine` is what the module asks of node: the file system, the paths, the host
-- name and JSON.parse.
pub mod StaticDevices
pub mod Android
pub mod Load
pub mod AgentId
pub mod Accepted
pub mod Loaded
use Prim.Native.Char.{code}
use nebula_clone.Prelude.{
  ℕ, zero, suc, ◌≤◌, Bool, true, false, not, ◌&&◌, ◌||◌, List, [], ◌∷◌, ◌++◌, Option, none, some,
  String, ltb, leb, ◌==◌, ◌===◌, is_text, if◌then◌else◌, is_none, find,
}
use nebula_clone.Prelude.Results.{Result, ok, err, check, ◌>>=◌, ◌>>◌}
use nebula_clone.Js.Number.{ℤ, pos, negsuc, Number, int}
use nebula_clone.Js.Json.{Json, prop, as_record, as_string, as_array}
use nebula_clone.Js.Env.{Env, Texts, text_length, starts_with, is_empty, given}
use nebula_clone.Js.Pattern.{is_alnum, matches}
use nebula_clone.Shared.Types.{RegisterDeviceInput, DevicePlatform, ios, android}
use nebula_clone.Shared.Messages.{parse_platform, parse_string, each}

pub data ConfigError : Type 0 where
  server_url_missing token_too_short token_placeholder agent_id_malformed : ConfigError
  not_json not_an_array entry_incomplete platform_unknown tags_malformed : ConfigError
  project_missing controller_token_too_short : ConfigError
  not_positive base_port_too_high no_access : String → ConfigError
  below_minimum : String → ℕ → ConfigError

pub record Machine : Type 0 where
  pub texts : Texts
  pub parse_json : String → Option Json
  pub can_execute : String → Bool
  pub can_read : String → Bool
  pub join : List String → String
  pub homedir : String
  pub hostname : String
  pub repo_root : String

abbrev pub min_interval_ms : ℕ
min_interval_ms = 1_000

abbrev pub min_token_length : ℕ
min_token_length = 24

abbrev pub max_base_port : ℕ
max_base_port = 65_000

-- [A-Za-z0-9_-]
abbrev pub agent_id_class : ℕ → Bool
agent_id_class c = is_alnum c || c == b'_' || c == b'-'

-- `raw.replace(/[^A-Za-z0-9_-]/g, '-')`: a pair of surrogates is replaced by two dashes.
abbrev pub dashed : String → String
dashed String.[] = String.[]
dashed (String.◌∷◌ c s) =
    let rest = dashed s in
    if agent_id_class (code c)
    then String.◌∷◌ c rest
    else if ltb (code c) 65_536
    then String.◌∷◌ "-" rest
    else String.◌∷◌ "-" (String.◌∷◌ "-" rest)

-- `slice(0, n)`, of a text of the basic plane.
abbrev pub slice : ℕ → String → String
slice zero s = String.[]
slice (suc n) String.[] = String.[]
slice (suc n) (String.◌∷◌ c s) = String.◌∷◌ c (slice n s)

unfoldable pub sanitize_agent_id : String → String
sanitize_agent_id raw =
    let sanitized = slice 64 (dashed raw) in if is_empty sanitized then "agent" else sanitized

unfoldable pub is_agent_id : String → Bool
unfolding matches
is_agent_id value = matches agent_id_class 64 value

abbrev pub or_default : Option String → String → String
or_default none d = d
or_default (some s) d = s

-- `!raw` or the URL has no scheme of a WebSocket.
unfoldable pub parse_server_url : Option String → Result ConfigError String
parse_server_url none = err server_url_missing
parse_server_url (some url) =
    if starts_with url "ws://" || starts_with url "wss://" then ok url else err server_url_missing

unfoldable pub parse_agent_token : Option String → Result ConfigError String
parse_agent_token none = err token_too_short
parse_agent_token (some token) =
    if ltb (text_length token) min_token_length
    then err token_too_short
    else if starts_with token "change-me"
    then err token_placeholder
    else ok token

unfoldable pub parse_agent_id : Machine → Option String → Result ConfigError String
unfolding sanitize_agent_id is_agent_id
parse_agent_id m raw =
    let id = sanitize_agent_id (or_default raw m.hostname) in
    if is_agent_id id then ok id else err agent_id_malformed

positive_of : Number → String → ℕ → Result ConfigError ℕ
positive_of (int (pos n)) name minimum =
    if n == 0
    then err (not_positive name)
    else if ltb n minimum
    then err (below_minimum name minimum)
    else ok n
positive_of _ name minimum = err (not_positive name)

unfoldable pub parse_positive_int : Texts → String → Option String → ℕ → ℕ → Result ConfigError ℕ
unfolding positive_of
parse_positive_int texts name none fallback minimum = ok fallback
parse_positive_int texts name (some raw) fallback minimum =
    positive_of (texts.to_number raw) name minimum

pub record SupervisorEnvConfig : Type 0 where
  pub project_path : String
  pub scheme : String
  pub base_port : ℕ
  pub derived_data_dir : String
  pub log_dir : String
  pub health_interval_ms : ℕ

abbrev check_project : Machine → Option String → Result ConfigError String
check_project m none = err project_missing
check_project m (some path) = if is_empty (m.texts.trim path) then err project_missing else ok path

-- A port from which the devices count on.
unfoldable pub parse_base_port : Machine → Env → String → ℕ → Result ConfigError ℕ
parse_base_port m env name fallback = do
  base_port ← parse_positive_int m.texts name (env name) fallback 1
  check (leb base_port max_base_port) (base_port_too_high name)
  ok base_port

unfoldable pub parse_supervisor_config :
    Machine → Env → Result ConfigError (Option SupervisorEnvConfig)
parse_supervisor_config m env =
    if not (is_text (env "NEBULA_XCODEBUILD_ENABLED") "true") then ok none else do
      project_path ← check_project m (given (env "NEBULA_CONTROLLER_PROJECT"))
      base_port ← parse_base_port m env "NEBULA_CONTROLLER_BASE_PORT" 8_200
      let nebula_home = m.join (m.homedir ∷ ".nebula" ∷ [])
      health_interval_ms ←
          parse_positive_int m.texts "NEBULA_CONTROLLER_HEALTH_INTERVAL_MS"
            (env "NEBULA_CONTROLLER_HEALTH_INTERVAL_MS") 10_000 min_interval_ms
      ok (
          some (record {
            project_path = project_path;
            scheme = or_default (env "NEBULA_CONTROLLER_SCHEME") "NebulaController";
            base_port = base_port;
            derived_data_dir =
                or_default (env "NEBULA_DERIVED_DATA_DIR")
                  (m.join (nebula_home ∷ "derived-data" ∷ []));
            log_dir =
                or_default (env "NEBULA_CONTROLLER_LOG_DIR") (m.join (nebula_home ∷ "logs" ∷ []));
            health_interval_ms = health_interval_ms;
          }))

-- An explicit path has to be accessible; a default is not looked at.
abbrev pub accessible :
    (String → Bool) → String → Option String → String → Result ConfigError String
accessible can_access name none fallback = ok fallback
accessible can_access name (some path) fallback =
    if is_empty path then ok fallback else if can_access path then ok path else err (no_access name)

abbrev pub trimmed : Machine → Option String → Option String
trimmed m none = none
trimmed m (some raw) = some (m.texts.trim raw)

unfoldable pub parse_mirror_helper_path : Machine → Option String → Result ConfigError String
parse_mirror_helper_path m raw =
    accessible m.can_execute "NEBULA_MIRROR_HELPER" (trimmed m raw)
      (m.join (m.repo_root ∷ "mirror-helper/.build/debug/mirror-helper" ∷ []))

unfoldable pub resolve_artifact :
    Machine → String → Option String → String → Result ConfigError String
resolve_artifact m name raw fallback = accessible m.can_read name (trimmed m raw) fallback

unfoldable pub parse_controller_token : Machine → Option String → Result ConfigError (Option String)
parse_controller_token m raw =
    let token = or_default (trimmed m raw) "" in
    if is_empty token
    then ok none
    else if ltb (text_length token) min_token_length
    then err controller_token_too_short
    else ok (some token)
