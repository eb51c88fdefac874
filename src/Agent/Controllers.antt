-- ===== src/Agent/Controllers.antt =====
-- packages/agent/src/controller-supervisor.ts: the life of a Controller session and the events that
-- reach the supervisor. `restart_timer` holds the delay of the pending timer, `health_timer` the
-- generation that it polls for; the answer of a health check and the clock are part of an event.
-- `path.join` and `String` of a number are the two functions of `Host`.
pub mod Sessions
pub mod Launches
pub mod Owned
pub mod Spawns
pub mod Exits
pub mod Lives
pub mod Runs
pub mod Kept
use Prim.Native.String.{◌++◌ as text_append}
use nebula_clone.Prelude.{
  ℕ, zero, suc, ◌+◌, ◌-◌, ◌*◌, ◌^◌, Bool, true, false, not, ◌||◌, ◌==◌, ltb, min, List, [], ◌∷◌,
  Option, none, some, String, is_none, if◌then◌else◌,
}
use nebula_clone.Js.Table.{get, String_key, ℕ_key}
use nebula_clone.Agent.Executor.{Resolver}
use nebula_clone.Agent.Processes.{
  Process, Children, Signal, sigkill, signal_process_tree, track, terminate, exit, no_children,
}
use nebula_clone.Agent.Fleet.{
  Supervisor, SessionKind, within, cool, sync_devices, stop_all, new_supervisor,
}

abbrev pub health_fail_threshold : ℕ
health_fail_threshold = 3

abbrev pub restart_base_ms : ℕ
restart_base_ms = 2_000

abbrev pub restart_max_ms : ℕ
restart_max_ms = 60_000

abbrev pub ready_deadline_ms : ℕ
ready_deadline_ms = 600_000

pub record SupervisorConfig : Type 0 where
  pub project_path : String
  pub scheme : String
  pub base_port : ℕ
  pub derived_data_dir : String
  pub log_dir : String

pub record Host : Type 0 where
  pub join : String → String → String
  pub show : ℕ → String

pub record Session : Type 0 where
  pub device_id : String
  pub port : ℕ
  pub runner : Option ℕ
  pub proxy : Option ℕ
  pub is_ready : Bool
  pub health_fail_count : ℕ
  pub restart_attempt : ℕ
  pub health_timer : Option ℕ
  pub restart_timer : Option ℕ
  pub is_stopping : Bool
  pub generation : ℕ
  pub launched_at_ms : ℕ

abbrev pub new_session : String → ℕ → ℕ → Session
new_session device port now = record {
  device_id = device;
  port = port;
  runner = none;
  proxy = none;
  is_ready = false;
  health_fail_count = 0;
  restart_attempt = 0;
  health_timer = none;
  restart_timer = none;
  is_stopping = false;
  generation = 0;
  launched_at_ms = now;
}

unfoldable pub teardown_processes : Session → Children → Session × Children
teardown_processes s c = (
  record s { health_timer = none; is_ready = false; runner = none; proxy = none },
  terminate s.proxy (terminate s.runner c),
)

abbrev pub restart_delay_ms : ℕ → ℕ
restart_delay_ms attempt = min (restart_base_ms * 2 ^ attempt) restart_max_ms

unfoldable pub schedule_restart : Session → Children → Session × Children
schedule_restart s c =
    if s.is_stopping || not (is_none s.restart_timer)
    then (s, c)
    else let (s', c') = teardown_processes s c in
      (
        record s' {
          restart_attempt = s'.restart_attempt + 1;
          restart_timer = some (restart_delay_ms s'.restart_attempt);
        },
        c',
      )

unfoldable pub handle_child_failure : ℕ → Session → Children → Session × Children
handle_child_failure generation s c =
    if s.is_stopping || not (s.generation == generation) then (s, c) else schedule_restart s c

unfoldable pub poll_health : ℕ → Bool → ℕ → Session → Children → Session × Children
poll_health generation is_healthy now s c =
    if (s.is_stopping || not (s.generation == generation)) || is_none s.runner
    then (s, c)
    else if is_healthy
    then (record s { is_ready = true; health_fail_count = 0; restart_attempt = 0 }, c)
    else let failed = record s { health_fail_count = s.health_fail_count + 1 } in
      if not s.is_ready
      then if ltb (now - s.launched_at_ms) ready_deadline_ms
        then (failed, c)
        else schedule_restart failed c
      else if ltb failed.health_fail_count health_fail_threshold
      then (failed, c)
      else schedule_restart failed c

-- `stopSession`, for the session object. A timer that `clearTimeout` stops is `none` from then on.
unfoldable pub halt : Session → Children → Session × Children
halt s c = teardown_processes (record s { is_stopping = true; restart_timer = none }) c

pub data Event : Type 0 where
  syncs : ℕ → List String → Event
  stops_all : Event
  cools : ℕ → Event
  exits : ℕ → Event
  polls : ℕ → ℕ → Bool → ℕ → Event
  restarts : ℕ → ℕ → Event
  escalates : ℕ → Event

module _ (config : SupervisorConfig) (host : Host) (spawns : ℕ → Bool) where
  abbrev log_path : Session → String
  log_path s = host.join config.log_dir (text_append "controller-" (text_append s.device_id ".log"))

  abbrev runner_process : ℕ → Session → Process
  runner_process number s = record {
    command = "xcodebuild";
    args =
        "test"
        ∷ "-project"
        ∷ config.project_path
        ∷ "-scheme"
        ∷ config.scheme
        ∷ "-destination"
        ∷ text_append "id=" s.device_id
        ∷ "-derivedDataPath"
        ∷ host.join config.derived_data_dir s.device_id
        ∷ "-allowProvisioningUpdates"
        ∷ [];
    log_path = log_path s;
    session = number;
    generation = s.generation;
    has_exited = false;
  }

  abbrev proxy_process : ℕ → Session → Process
  proxy_process number s = record {
    command = "iproxy";
    args = host.show s.port ∷ "8100" ∷ "-u" ∷ s.device_id ∷ [];
    log_path = log_path s;
    session = number;
    generation = s.generation;
    has_exited = false;
  }

  with_proxy : Option ℕ × Children → Session → Session × Children
  with_proxy (none, c) s = schedule_restart s c
  with_proxy (some n, c) s = (record s { proxy = some n; health_timer = some s.generation }, c)

  with_runner : Option ℕ × Children → ℕ → Session → Session × Children
  unfolding with_proxy
  with_runner (none, c) number s = schedule_restart s c
  with_runner (some n, c) number s =
      with_proxy (track spawns (proxy_process number s) c) (record s { runner = some n })

  unfoldable pub launch_processes : ℕ → ℕ → Session → Children → Session × Children
  unfolding with_runner
  launch_processes number now s c =
      let s' = record s {
        is_ready = false;
        health_fail_count = 0;
        generation = s.generation + 1;
        launched_at_ms = now;
      } in
      with_runner (track spawns (runner_process number s') c) number s'

  -- The callback of the restart timer, if the timer is pending.
  unfoldable pub fire_restart : ℕ → ℕ → Session → Children → Session × Children
  fire_restart number now s c =
      if is_none s.restart_timer
      then (s, c)
      else if s.is_stopping
      then (record s { restart_timer = none }, c)
      else launch_processes number now (record s { restart_timer = none }) c

  abbrev pub controller_kind : SessionKind Session Children
  controller_kind = record {
    base_port = config.base_port;
    port_of = λ s. s.port;
    is_stopping = λ s. s.is_stopping;
    device_of = λ s. s.device_id;
    make = new_session;
    launch = launch_processes;
    halt = halt;
  }

  fail_child : Option Process → Supervisor Session Children → Supervisor Session Children
  fail_child none st = st
  fail_child (some p) st = within p.session (handle_child_failure p.generation) st

  unfoldable pub step : Event → Supervisor Session Children → Supervisor Session Children
  unfolding fail_child
  step (syncs now devices) st = sync_devices controller_kind now devices st
  step stops_all st = stop_all controller_kind st
  step (cools port) st = cool port st
  step (exits n) st =
      fail_child (get n st.children.processes) (record st { children = exit n st.children })
  step (polls number generation is_healthy now) st =
      within number (poll_health generation is_healthy now) st
  step (restarts number now) st = within number (fire_restart number now) st
  step (escalates n) st = record st { children = signal_process_tree sigkill n st.children }

  unfoldable pub run : List Event → Supervisor Session Children → Supervisor Session Children
  run [] st = st
  run (e ∷ es) st = run es (step e st)

  abbrev pub started : List Event → Supervisor Session Children
  started es = run es (new_supervisor no_children)

session_at : Option ℕ → Supervisor Session Children → Option Session
session_at none st = none
session_at (some number) st = get number st.objects

-- The session of a device, as `this.sessions.get` gives it.
unfoldable pub session_of : String → Supervisor Session Children → Option Session
unfolding session_at
session_of device st = session_at (get device st.sessions) st

abbrev url_of : Host → Option Session → Option String
url_of host none = none
url_of host (some s) = some (text_append "http://127.0.0.1:" (host.show s.port))

abbrev ready_of : Option Session → Bool
ready_of none = false
ready_of (some s) = s.is_ready

-- `resolve` and `isReady`: what the command executor asks of the supervisor.
unfoldable pub resolver_of : Host → Supervisor Session Children → Resolver
resolver_of host st = record {
  resolve = λ device. url_of host (session_of device st);
  is_ready = λ device. ready_of (session_of device st);
}
