-- ===== src/Agent/Runners/Events.antt =====
-- packages/agent/src/android-supervisor.ts: the events that reach the supervisor, in any order.
use nebula_clone.Prelude.{ℕ, Bool, List, [], ◌∷◌, Option, none, some, String}
use nebula_clone.Js.Table.{get, String_key, ℕ_key}
use nebula_clone.Agent.Processes.{Process, sigkill, signal_process_tree, exit, no_children}
use nebula_clone.Agent.Controllers.{Host}
use nebula_clone.Agent.Fleet.{Supervisor, within, cool, sync_devices, stop_all, new_supervisor}
use nebula_clone.Agent.Runners.{
  Session, Adb, AndroidSupervisorConfig, runner_kind, child_ended, poll_health, fire_restart,
  end_adb,
}

-- `ends_adb` is the end of the adb call that the launch of a session waits for.
pub data Event : Type 0 where
  syncs : ℕ → List String → Event
  stops_all : Event
  cools : ℕ → Event
  ends_adb : ℕ → Bool → Event
  exits : ℕ → Event
  polls : ℕ → ℕ → Bool → ℕ → Event
  restarts : ℕ → ℕ → Event
  escalates : ℕ → Event

abbrev pub no_adb : Adb
no_adb = record { children = no_children; commands = [] }

module _ (config : AndroidSupervisorConfig) (host : Host) (spawns : ℕ → Bool) where
  unfoldable pub fail_child : Option Process → Supervisor Session Adb → Supervisor Session Adb
  fail_child none st = st
  fail_child (some p) st = within p.session (child_ended config host spawns p.generation) st

  abbrev pub with_exit : ℕ → Supervisor Session Adb → Supervisor Session Adb
  with_exit n st = record st {
    children = record (st.children) { children = exit n st.children.children };
  }

  unfoldable pub step : Event → Supervisor Session Adb → Supervisor Session Adb
  unfolding fail_child
  step (syncs now serials) st = sync_devices (runner_kind config host spawns) now serials st
  step stops_all st = stop_all (runner_kind config host spawns) st
  step (cools port) st = cool port st
  step (ends_adb number done) st = within number (end_adb config host spawns number done) st
  step (exits n) st = fail_child (get n st.children.children.processes) (with_exit n st)
  step (polls number generation is_healthy now) st =
      within number (poll_health config host spawns generation is_healthy now) st
  step (restarts number now) st = within number (fire_restart config host spawns number now) st
  step (escalates n) st = record st {
    children = record (st.children) {
      children = signal_process_tree sigkill n st.children.children;
    };
  }

  unfoldable pub run : List Event → Supervisor Session Adb → Supervisor Session Adb
  run [] st = st
  run (e ∷ es) st = run es (step e st)

  abbrev pub started : List Event → Supervisor Session Adb
  started es = run es (new_supervisor no_adb)
