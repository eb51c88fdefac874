-- ===== src/Agent/Config/Loaded.antt =====
-- What a configuration that `loadConfig` returns satisfies.
use nebula_clone.Prelude.{
  ◌≤◌, true, ◌||◌, Option, String, ltb, ◌≡◌, refl, sym, ◌∙◌, subst, arith, inl, inr, Bool-cases,
}
use nebula_clone.Prelude.Results.{ok, >>=-eq-ok, ok_inj}
use nebula_clone.Js.Pattern.{matches}
use nebula_clone.Js.Env.{Env, text_length, starts_with, is_empty, given}
use nebula_clone.Server.Agents as Server
use nebula_clone.Agent.Config.{
  Machine, parse_server_url, parse_agent_token, parse_agent_id, parse_positive_int,
  parse_supervisor_config, parse_mirror_helper_path, parse_controller_token, min_interval_ms,
  min_token_length, sanitize_agent_id, is_agent_id, or_default, trimmed,
}
use nebula_clone.Agent.Config.AgentId.{sanitize_lem}
use nebula_clone.Agent.Config.Accepted.{
  IfAny, IsAndroid, IsSupervisor, IsToken, int-eq-ok, android_for-IsAndroid,
  parse_supervisor_config_lem, server_url-eq-ok, parse_agent_token_lem,
}
use nebula_clone.Agent.Config.StaticDevices.{parse_static_devices}
use nebula_clone.Agent.Config.Android.{parse_android_config, resolve_adb_path}
use nebula_clone.Agent.Config.Load.{AgentConfig, load_config}

-- The agent's test of an id and the server's are the same.
same_test : (id : String) → is_agent_id id ≡ true → Server.is_agent_id id ≡ true
unfolding is_agent_id Server.is_agent_id matches
same_test id e = e

-- The test in `loadConfig` never refuses an id, as the text was sanitised.
pub agent_id-eq-ok :
    (m : Machine) (raw : Option String)
    → parse_agent_id m raw ≡ ok (sanitize_agent_id (or_default raw m.hostname))
unfolding parse_agent_id
agent_id-eq-ok m raw = rw (sanitize_lem (or_default raw m.hostname)) refl

controller_token-eq-ok :
    (m : Machine) (raw token : Option String)
    → parse_controller_token m raw ≡ ok token
    → IfAny (λ t. min_token_length ≤ text_length t) token
unfolding parse_controller_token
controller_token-eq-ok m raw token e =
    let t = or_default (trimmed m raw) "" in
    elim (Bool-cases (is_empty t)) [
      | inl empty ↦
          subst (IfAny (λ t. min_token_length ≤ text_length t)) (ok_inj (rw empty at e)) tt
      | inr full ↦ elim (Bool-cases (ltb (text_length t) min_token_length)) [
        | inl short ↦ absurd (ground (arith, e, full, short))
        | inr long ↦
            subst (IfAny (λ t. min_token_length ≤ text_length t))
              (ok_inj (rw long at (rw full at e))) (ground (arith, long))
      ]
    ]

pub record IsAccepted (c : AgentConfig) : Type 0 where
  pub server_url : (starts_with c.server_url "ws://" || starts_with c.server_url "wss://") ≡ true
  pub agent_token : IsToken c.agent_token
  pub agent_id : Server.is_agent_id c.agent_id ≡ true
  pub discovery : min_interval_ms ≤ c.discovery_interval_ms
  pub heartbeat : min_interval_ms ≤ c.heartbeat_interval_ms
  pub supervisor : IfAny IsSupervisor c.supervisor
  pub controller_token : IfAny (λ t. min_token_length ≤ text_length t) c.controller_token
  pub android : IfAny IsAndroid c.android

-- What `loadConfig` does not refuse is usable: the URL has the scheme of a WebSocket, the token has the
-- length that the server asks for and is no placeholder, the id passes the server's own test, no interval
-- is below a second, the ports lie between 1 and 65 000, a controller token has the length of a token,
-- and each timing for Android stands under its name and is not below its minimum.
pub load_config-IsAccepted :
    (m : Machine) (env : Env) (c : AgentConfig) → load_config m env ≡ ok c → IsAccepted c
unfolding load_config parse_android_config
load_config-IsAccepted m env c e =
    let (url, url_read, e1) = >>=-eq-ok (parse_server_url (given (env "NEBULA_SERVER_URL"))) _ e in
    let (token, token_read, e2) =
      >>=-eq-ok (parse_agent_token (given (env "NEBULA_AGENT_TOKEN"))) _ e1 in
    let (id, id_read, e3) = >>=-eq-ok (parse_agent_id m (env "NEBULA_AGENT_ID")) _ e2 in
    let (d, d_read, e4) =
      >>=-eq-ok
        (parse_positive_int m.texts "NEBULA_DISCOVERY_INTERVAL_MS"
          (env "NEBULA_DISCOVERY_INTERVAL_MS") 20_000 min_interval_ms)
        _ e3 in
    let (h, h_read, e5) =
      >>=-eq-ok
        (parse_positive_int m.texts "NEBULA_HEARTBEAT_INTERVAL_MS"
          (env "NEBULA_HEARTBEAT_INTERVAL_MS") 25_000 min_interval_ms)
        _ e4 in
    let (devices, _, e6) = >>=-eq-ok (parse_static_devices m (env "NEBULA_STATIC_DEVICES")) _ e5 in
    let (s, s_read, e7) = >>=-eq-ok (parse_supervisor_config m env) _ e6 in
    let (helper, _, e8) =
      >>=-eq-ok (parse_mirror_helper_path m (env "NEBULA_MIRROR_HELPER")) _ e7 in
    let (t, t_read, e9) =
      >>=-eq-ok (parse_controller_token m (env "NEBULA_CONTROLLER_TOKEN")) _ e8 in
    let (a, a_read, e10) = >>=-eq-ok (parse_android_config m env) _ e9 in
    let (adb, _, a_rest) = >>=-eq-ok (resolve_adb_path m env) _ a_read in
    subst IsAccepted (ok_inj e10) (record {
      server_url = server_url-eq-ok (given (env "NEBULA_SERVER_URL")) url url_read;
      agent_token = parse_agent_token_lem (given (env "NEBULA_AGENT_TOKEN")) token token_read;
      agent_id =
          subst (λ x. Server.is_agent_id x ≡ true)
            (ok_inj (sym (agent_id-eq-ok m (env "NEBULA_AGENT_ID")) ∙ id_read))
            (same_test _ (sanitize_lem (or_default (env "NEBULA_AGENT_ID") m.hostname)));
      discovery = int-eq-ok m.texts _ _ 20_000 min_interval_ms d d_read (omega arith);
      heartbeat = int-eq-ok m.texts _ _ 25_000 min_interval_ms h h_read (omega arith);
      supervisor = parse_supervisor_config_lem m env s s_read;
      controller_token = controller_token-eq-ok m (env "NEBULA_CONTROLLER_TOKEN") t t_read;
      android = android_for-IsAndroid m env adb a a_rest;
    })
