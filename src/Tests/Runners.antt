-- ===== src/Tests/Runners.antt =====
-- A concrete run of the Android supervisor.
use nebula_clone.Prelude.{
  ℕ, Bool, true, false, List, [], ◌∷◌, none, some, ◌≡◌, ◌⊎◌, refl, str_discrete, ℕ_discrete,
}
use nebula_clone.Js.Table.{get, set, delete, keys, String_key, ℕ_key}
use nebula_clone.Agent.Processes.{track, terminate, signal_process_tree, has_exited, exit}
use nebula_clone.Agent.Controllers.{Host}
use nebula_clone.Agent.Fleet.{
  within, allocate_port, start_session, start_all, stop_others, sync_devices,
}
use nebula_clone.Agent.Fleet.Ports.{uses}
use nebula_clone.Agent.Runners.{
  Session, AndroidSupervisorConfig, default_supervisor_tuning, runner_kind, launch, end_adb,
  start_forward, start_instrument, child_ended, schedule_restart, teardown_processes,
}
use nebula_clone.Agent.Runners.Events.{
  Event, syncs, ends_adb, exits, step, run, started, fail_child,
}
use nebula_clone.Agent.Runners.Alive.{IsLaunching, IsRunning, IsWaiting}
use nebula_clone.Agent.Runners.Runs.{runner_sessions}

abbrev config : AndroidSupervisorConfig
config = record {
  adb_path = "adb";
  runner_apk_path = "/repo/runner.apk";
  base_port = 8_300;
  log_dir = "/logs";
  controller_token = none;
  tuning = default_supervisor_tuning;
  runner_tuning = none;
}

abbrev host : Host
host = record { join = λ a b. a; show = λ n. "8300" }

abbrev spawns : ℕ → Bool
spawns n = true

-- The runner is installed and started, and exits.
abbrev events : List Event
events =
    syncs 5 ("emulator" ∷ [])
    ∷ ends_adb 0 true
    ∷ ends_adb 0 true
    ∷ ends_adb 0 true
    ∷ ends_adb 0 true
    ∷ exits 0
    ∷ []

abbrev waiting : Session
waiting = record {
  serial = "emulator";
  http_port = 8_300;
  instrument = none;
  is_ready = false;
  is_installed = true;
  health_fail_count = 0;
  restart_attempt = 1;
  health_timer = none;
  restart_timer = some 2_000;
  is_stopping = false;
  generation = 1;
  launched_at_ms = 5;
  launching = none;
}

emulator_named : get "emulator" (started config host spawns events).sessions ≡ some 0
unfolding get run step sync_devices keys set ℕ_discrete str_discrete launch track delete end_adb
    start_forward start_instrument child_ended schedule_restart teardown_processes terminate
    allocate_port start_all start_session stop_others within exit has_exited signal_process_tree
    fail_child
emulator_named = refl

emulator_waits : get 0 (started config host spawns events).objects ≡ some waiting
unfolding get run step sync_devices keys set ℕ_discrete str_discrete launch track delete end_adb
    start_forward start_instrument child_ended schedule_restart teardown_processes terminate
    allocate_port start_all start_session stop_others within exit has_exited signal_process_tree
    fail_child
emulator_waits = refl

runner_sessions_example :
    (IsLaunching waiting ⊎ (IsRunning waiting ⊎ IsWaiting waiting))
    × (uses (runner_kind config host spawns) 8_300 (started config host spawns events) ≡ 1)
runner_sessions_example =
    runner_sessions config host spawns events "emulator" 0 waiting emulator_named emulator_waits
