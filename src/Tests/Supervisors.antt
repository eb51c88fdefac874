-- ===== src/Tests/Supervisors.antt =====
-- Concrete runs of the supervisor of the Controllers.
use Prim.Native.String.{◌++◌ as text_append}
use nebula_clone.Prelude.{
  ℕ, ◌+◌, Bool, true, false, not, ◌&&◌, List, [], ◌∷◌, none, some, String, is_none, ltb, ◌*◌, ◌==◌,
  ◌≡◌, ◌≢◌, ap, ◌===◌, ◌⊎◌, refl, arith, if◌then◌else◌, All, str_discrete, ℕ_discrete,
}
use nebula_clone.Js.Table.{get, set, delete, keys, ℕ_key, String_key}
use nebula_clone.Agent.Processes.{track, terminate, signal_process_tree, has_exited, exit}
use nebula_clone.Agent.Processes.Awaited.{Ended, IsDone, await_termination, await_termination_ends}
use nebula_clone.Agent.Fleet.{
  within, allocate_port, start_session, start_all, stop_session, stop_others, sync_devices,
}
use nebula_clone.Agent.Fleet.Ports.{uses, is_issued}
use nebula_clone.Agent.Controllers.{
  Session, SupervisorConfig, Host, Event, syncs, exits, polls, restarts, controller_kind, step, run,
  started, session_of, launch_processes, schedule_restart, teardown_processes, poll_health, halt,
  handle_child_failure, fire_restart,
}
use nebula_clone.Agent.Controllers.Sessions.{IsWaiting, IsStopped}
use nebula_clone.Agent.Controllers.Owned.{IsUp}
use nebula_clone.Agent.Controllers.Runs.{ports_conserved, ports_distinct, never_wedged}
use nebula_clone.Agent.Controllers.Kept.{halted_for_good, sync_exact}

abbrev config : SupervisorConfig
config = record {
  project_path = "/repo/NebulaController.xcodeproj";
  scheme = "NebulaController";
  base_port = 8_200;
  derived_data_dir = "/data";
  log_dir = "/logs";
}

abbrev host : Host
host = record { join = λ a b. text_append a (text_append "/" b); show = λ n. "8200" }

-- Every spawn succeeds but the fifth.
abbrev spawns : ℕ → Bool
spawns n = not (ltb 3 n && ltb n 5)

-- Two devices; the first one's runner exits, its restart fails to spawn, and the second device leaves.
abbrev events : List Event
events =
    syncs 0 ("phone" ∷ "pad" ∷ [])
    ∷ exits 0
    ∷ restarts 0 2_000
    ∷ polls 1 1 true 10_000
    ∷ syncs 20_000 ("phone" ∷ [])
    ∷ []

abbrev waiting : Session
waiting = record {
  device_id = "phone";
  port = 8_200;
  runner = none;
  proxy = none;
  is_ready = false;
  health_fail_count = 0;
  restart_attempt = 2;
  health_timer = none;
  restart_timer = some 4_000;
  is_stopping = false;
  generation = 2;
  launched_at_ms = 2_000;
}

abbrev stopped : Session
stopped = record {
  device_id = "pad";
  port = 8_201;
  runner = none;
  proxy = none;
  is_ready = false;
  health_fail_count = 0;
  restart_attempt = 0;
  health_timer = none;
  restart_timer = none;
  is_stopping = true;
  generation = 1;
  launched_at_ms = 0;
}

phone_waits : session_of "phone" (started config host spawns events) ≡ some waiting
unfolding session_of get run step sync_devices keys set ℕ_discrete str_discrete launch_processes
    track delete fire_restart handle_child_failure schedule_restart teardown_processes terminate
    halt poll_health allocate_port start_all start_session stop_others stop_session within exit
    has_exited signal_process_tree
phone_waits = refl

pad_stopped : get 1 (started config host spawns events).objects ≡ some stopped
unfolding session_of get run step sync_devices keys set ℕ_discrete str_discrete launch_processes
    track delete fire_restart handle_child_failure schedule_restart teardown_processes terminate
    halt poll_health allocate_port start_all start_session stop_others stop_session within exit
    has_exited signal_process_tree
pad_stopped = refl

ports_conserved_example :
    uses (controller_kind config host spawns) 8_201 (started config host spawns events) ≡ (
      if is_issued (controller_kind config host spawns) 8_201 (started config host spawns events)
      then 1
      else 0)
ports_conserved_example = ports_conserved config host spawns events 8_201

abbrev running : String → ℕ → ℕ → Session
running device port first = record {
  device_id = device;
  port = port;
  runner = some first;
  proxy = some (first + 1);
  is_ready = false;
  health_fail_count = 0;
  restart_attempt = 0;
  health_timer = some 1;
  restart_timer = none;
  is_stopping = false;
  generation = 1;
  launched_at_ms = 0;
}

abbrev both : List Event
both = syncs 0 ("phone" ∷ "pad" ∷ []) ∷ []

phone_runs : session_of "phone" (started config host spawns both) ≡ some (running "phone" 8_200 0)
unfolding session_of get run step sync_devices keys set ℕ_discrete str_discrete launch_processes
    track delete fire_restart handle_child_failure schedule_restart teardown_processes terminate
    halt poll_health allocate_port start_all start_session stop_others stop_session within exit
    has_exited signal_process_tree
phone_runs = refl

pad_runs : session_of "pad" (started config host spawns both) ≡ some (running "pad" 8_201 2)
unfolding session_of get run step sync_devices keys set ℕ_discrete str_discrete launch_processes
    track delete fire_restart handle_child_failure schedule_restart teardown_processes terminate
    halt poll_health allocate_port start_all start_session stop_others stop_session within exit
    has_exited signal_process_tree
pad_runs = refl

ports_distinct_example : (running "phone" 8_200 0).port ≢ (running "pad" 8_201 2).port
unfolding str_discrete
ports_distinct_example =
    ports_distinct config host spawns both "phone" "pad" (running "phone" 8_200 0)
      (running "pad" 8_201 2) phone_runs pad_runs
      (λ e. absurd (ground (arith, ap (λ x. x === "pad") e)))

never_wedged_example :
    (number : ℕ) × (get "phone" (started config host spawns events).sessions ≡ some number)
    × (IsUp number (started config host spawns events).children waiting
        ⊎ (IsWaiting waiting
            × ((t : Session) × (session_of "phone" (
                    step config host spawns
                      (restarts number 6_000)
                      (started config host spawns events))
                  ≡ some t)
                × (t.generation ≡ 3))))
never_wedged_example = never_wedged config host spawns events 6_000 "phone" waiting phone_waits

halted_for_good_example :
    IsStopped stopped
    × (get 1
          (run config host spawns
            (restarts 1 30_000 ∷ exits 2 ∷ [])
            (started config host spawns events)).objects
        ≡ some stopped)
halted_for_good_example =
    halted_for_good config host spawns events (restarts 1 30_000 ∷ exits 2 ∷ []) 1 stopped
      pad_stopped refl

sync_exact_example :
    is_none (
      session_of "pad"
        (step config host spawns (syncs 40_000 ("pad" ∷ [])) (started config host spawns events)))
    ≡ false
unfolding str_discrete
sync_exact_example = sync_exact config host spawns events 40_000 ("pad" ∷ []) "pad"

-- The first process exits in the third round, the second never.
abbrev clock : ℕ → ℕ
clock k = 100 * k + 7

abbrev exits_at : ℕ → ℕ → Bool
exits_at k n = n == 0 && ltb 1 k

await_termination_ends_example :
    (ended : Ended) × (await_termination clock exits_at 52 5_000 (0 ∷ 1 ∷ []) ≡ some ended)
    × All (IsDone clock exits_at ended.killed) (0 ∷ 1 ∷ [])
await_termination_ends_example =
    await_termination_ends clock exits_at 5_000 51 (0 ∷ 1 ∷ []) (λ i. omega arith) (omega arith)
