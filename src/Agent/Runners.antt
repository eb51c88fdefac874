-- ===== src/Agent/Runners.antt =====
-- packages/agent/src/android-supervisor.ts: the life of an Android session and the events that reach
-- the supervisor. `launch` is cut at its awaits: `launching` is the launch in flight, with the adb call
-- that it waits for, and an event says how that call ends. The sessions and ports are those of Fleet.
pub mod Events
pub mod Sessions
pub mod Alive
pub mod Runs
use Prim.Native.String.{◌++◌ as text_append}
use nebula_clone.Prelude.{
  ℕ, zero, suc, ◌+◌, ◌-◌, ◌*◌, ◌^◌, Bool, true, false, not, ◌&&◌, ◌||◌, ◌==◌, ltb, leb, min, List,
  [], ◌∷◌, ◌++◌, Option, none, some, String, is_none, is_truthy, if◌then◌else◌,
}
use nebula_clone.Js.Table.{get, String_key, ℕ_key}
use nebula_clone.Agent.Processes.{
  Process, Children, Signal, sigkill, has_exited, signal_process_tree, track, terminate, exit,
  no_children,
}
use nebula_clone.Agent.Controllers.{Host}
use nebula_clone.Agent.Fleet.{
  Supervisor, SessionKind, within, cool, sync_devices, stop_all, new_supervisor,
}

pub record AndroidSupervisorTuning : Type 0 where
  pub health_interval_ms : ℕ
  pub health_fail_threshold : ℕ
  pub restart_base_ms : ℕ
  pub restart_max_ms : ℕ
  pub kill_escalation_ms : ℕ
  pub port_cooldown_ms : ℕ
  pub ready_deadline_ms : ℕ
  pub reinstall_after_failures : ℕ

abbrev pub default_supervisor_tuning : AndroidSupervisorTuning
default_supervisor_tuning = record {
  health_interval_ms = 10_000;
  health_fail_threshold = 3;
  restart_base_ms = 2_000;
  restart_max_ms = 60_000;
  kill_escalation_ms = 3_000;
  port_cooldown_ms = 5_000;
  ready_deadline_ms = 60_000;
  reinstall_after_failures = 3;
}

pub record AndroidRunnerTuning : Type 0 where
  pub action_timeout_ms : ℕ
  pub swipe_step_ms : ℕ
  pub max_swipe_duration_ms : ℕ

pub record AndroidSupervisorConfig : Type 0 where
  pub adb_path : String
  pub runner_apk_path : String
  pub base_port : ℕ
  pub log_dir : String
  pub controller_token : Option String
  pub tuning : AndroidSupervisorTuning
  pub runner_tuning : Option AndroidRunnerTuning

-- The adb call that a launch waits for.
pub data Stage : Type 0 where
  staying_on installing forwarding clearing : Stage

pub record Launch : Type 0 where
  pub generation : ℕ
  pub stage : Stage

pub record Session : Type 0 where
  pub serial : String
  pub http_port : ℕ
  pub instrument : Option ℕ
  pub is_ready : Bool
  pub is_installed : Bool
  pub health_fail_count : ℕ
  pub restart_attempt : ℕ
  pub health_timer : Option ℕ
  pub restart_timer : Option ℕ
  pub is_stopping : Bool
  pub generation : ℕ
  pub launched_at_ms : ℕ
  pub launching : Option Launch

-- The processes, and the adb commands that were called, in order.
pub record Adb : Type 0 where
  pub children : Children
  pub commands : List (List String)

abbrev pub new_session : String → ℕ → ℕ → Session
new_session serial port now = record {
  serial = serial;
  http_port = port;
  instrument = none;
  is_ready = false;
  is_installed = false;
  health_fail_count = 0;
  restart_attempt = 0;
  health_timer = none;
  restart_timer = none;
  is_stopping = false;
  generation = 0;
  launched_at_ms = 0;
  launching = none;
}

abbrev pub is_stale : Session → ℕ → Bool
is_stale s generation = s.is_stopping || not (s.generation == generation)

terminate_running : Option ℕ → Children → Children
terminate_running none c = c
terminate_running (some n) c = if has_exited n c then c else terminate (some n) c

unfoldable pub teardown_processes : Session → Adb → Session × Adb
unfolding terminate_running
teardown_processes s a = (
  record s { health_timer = none; instrument = none },
  record a { children = terminate_running s.instrument a.children },
)

module _ (config : AndroidSupervisorConfig) (host : Host) (spawns : ℕ → Bool) where
  -- `runAdb` with `-s serial` in front.
  abbrev run_adb : Session → List String → Adb → Adb
  run_adb s args a = record a { commands = a.commands ++ ("-s" ∷ s.serial ∷ args) ∷ [] }

  abbrev tcp : ℕ → String
  tcp port = text_append "tcp:" (host.show port)

  abbrev stay_on : Session → Adb → Adb
  stay_on s a = run_adb s ("shell" ∷ "svc" ∷ "power" ∷ "stayon" ∷ "usb" ∷ []) a

  abbrev install : Session → Adb → Adb
  install s a = run_adb s ("install" ∷ "-r" ∷ "-t" ∷ "-g" ∷ config.runner_apk_path ∷ []) a

  abbrev add_forward : Session → Adb → Adb
  add_forward s a = run_adb s ("forward" ∷ tcp s.http_port ∷ tcp 8_300 ∷ []) a

  abbrev remove_forward : Session → Adb → Adb
  remove_forward s a = run_adb s ("forward" ∷ "--remove" ∷ tcp s.http_port ∷ []) a

  abbrev force_stop : Session → Adb → Adb
  force_stop s a = run_adb s ("shell" ∷ "am" ∷ "force-stop" ∷ "com.nebula.controller" ∷ []) a

  abbrev pub restart_delay_ms : ℕ → ℕ
  restart_delay_ms attempt =
      min (config.tuning.restart_base_ms * 2 ^ attempt) config.tuning.restart_max_ms

  unfoldable pub schedule_restart : Session → Adb → Session × Adb
  schedule_restart s a =
      if s.is_stopping || not (is_none s.restart_timer)
      then (s, a)
      else let (s', a') = teardown_processes s a in
        (
          record s' {
            generation = s'.generation + 1;
            is_ready = false;
            health_fail_count = 0;
            restart_attempt = s'.restart_attempt + 1;
            restart_timer = some (restart_delay_ms s'.restart_attempt);
          },
          a',
        )

  unfoldable pub launch : ℕ → ℕ → Session → Adb → Session × Adb
  launch number now s a = (
    record s {
      launched_at_ms = now;
      launching = some (record { generation = s.generation; stage = staying_on });
    },
    stay_on s a,
  )

  -- The launch waits for its next adb call.
  abbrev waits_for : ℕ → Stage → Session → Session
  waits_for generation stage s = record s {
    launching = some (record { generation = generation; stage = stage });
  }

  -- A launch that finds its session gone takes away the forward that it may have made.
  abbrev abandon : Session → Adb → Session × Adb
  abandon s a = (record s { launching = none }, remove_forward s a)

  -- The `catch` of `launch`.
  unfoldable pub fail_launch : ℕ → Session → Adb → Session × Adb
  fail_launch generation s a =
      if is_stale s generation
      then (record s { launching = none }, a)
      else schedule_restart (record s { launching = none }) a

  unfoldable pub start_forward : ℕ → Session → Adb → Session × Adb
  start_forward generation s a =
      if is_stale s generation
      then abandon s a
      else (waits_for generation forwarding s, add_forward s a)

  abbrev token_args : Option String → List String
  token_args none = []
  token_args (some token) = if is_truthy (some token) then "-e" ∷ "nebulaToken" ∷ token ∷ [] else []

  abbrev runner_tuning_args : Option AndroidRunnerTuning → List String
  runner_tuning_args none = []
  runner_tuning_args (some t) =
      "-e"
      ∷ "nebulaActionTimeoutMs"
      ∷ host.show t.action_timeout_ms
      ∷ "-e"
      ∷ "nebulaSwipeStepMs"
      ∷ host.show t.swipe_step_ms
      ∷ "-e"
      ∷ "nebulaMaxSwipeMs"
      ∷ host.show t.max_swipe_duration_ms
      ∷ []

  abbrev instrument_process : ℕ → ℕ → Session → Process
  instrument_process number generation s = record {
    command = config.adb_path;
    args =
        ("-s" ∷ s.serial ∷ "shell" ∷ "am" ∷ "instrument" ∷ "-w" ∷ "-r" ∷ "--no-hidden-api-checks"
          ∷ "-e" ∷ "nebulaPort" ∷ "8300" ∷ [])
        ++ token_args config.controller_token
        ++ runner_tuning_args config.runner_tuning
        ++ "com.nebula.controller/.ControllerInstrumentation" ∷ [];
    log_path =
        host.join config.log_dir (text_append "android-runner-" (text_append s.serial ".log"));
    session = number;
    generation = generation;
    has_exited = false;
  }

  with_instrument : Option ℕ × Children → ℕ → Session → Adb → Session × Adb
  with_instrument (none, c) generation s a = fail_launch generation s (record a { children = c })
  with_instrument (some n, c) generation s a = (
    record s { instrument = some n; health_timer = some generation; launching = none },
    record a { children = c },
  )

  unfoldable pub start_instrument : ℕ → ℕ → Session → Adb → Session × Adb
  unfolding with_instrument
  start_instrument number generation s a =
      if is_stale s generation
      then abandon s a
      else with_instrument (track spawns (instrument_process number generation s) a.children)
          generation s a

  abbrev needs_install : Session → Bool
  needs_install s =
      not s.is_installed || leb config.tuning.reinstall_after_failures s.restart_attempt

  -- An adb call of the launch ends, well or not; a failure of the first one is ignored.
  advance : Stage → Bool → ℕ → ℕ → Session → Adb → Session × Adb
  advance staying_on done number generation s a =
      if needs_install s
      then (waits_for generation installing s, install s a)
      else start_forward generation s a
  advance installing true number generation s a =
      start_forward generation (record s { is_installed = true }) a
  advance forwarding true number generation s a = (waits_for generation clearing s, force_stop s a)
  advance clearing true number generation s a = start_instrument number generation s a
  advance installing false number generation s a = fail_launch generation s a
  advance forwarding false number generation s a = fail_launch generation s a
  advance clearing false number generation s a = fail_launch generation s a

  resume : Option Launch → Bool → ℕ → Session → Adb → Session × Adb
  resume none done number s a = (s, a)
  resume (some l) done number s a = advance l.stage done number l.generation s a

  unfoldable pub end_adb : ℕ → Bool → Session → Adb → Session × Adb
  unfolding resume advance
  end_adb number done s a = resume s.launching done number s a

  unfoldable pub child_ended : ℕ → Session → Adb → Session × Adb
  child_ended generation s a = if is_stale s generation then (s, a) else schedule_restart s a

  unfoldable pub poll_health : ℕ → Bool → ℕ → Session → Adb → Session × Adb
  poll_health generation is_healthy now s a =
      if is_stale s generation
      then (s, a)
      else if is_healthy
      then (record s { is_ready = true; health_fail_count = 0; restart_attempt = 0 }, a)
      else if not s.is_ready && ltb config.tuning.ready_deadline_ms (now - s.launched_at_ms)
      then schedule_restart s a
      else if not s.is_ready
      then (s, a)
      else let failed = record s { health_fail_count = s.health_fail_count + 1 } in
        if ltb failed.health_fail_count config.tuning.health_fail_threshold
        then (failed, a)
        else schedule_restart failed a

  -- The callback of the restart timer, if the timer is pending.
  unfoldable pub fire_restart : ℕ → ℕ → Session → Adb → Session × Adb
  fire_restart number now s a =
      if is_none s.restart_timer
      then (s, a)
      else launch number now (record s { restart_timer = none }) a

  unfoldable pub halt : Session → Adb → Session × Adb
  halt s a =
      let (s', a') = teardown_processes (record s { is_stopping = true; restart_timer = none }) a in
      (s', remove_forward s (force_stop s a'))

  abbrev pub runner_kind : SessionKind Session Adb
  runner_kind = record {
    base_port = config.base_port;
    port_of = λ s. s.http_port;
    is_stopping = λ s. s.is_stopping;
    device_of = λ s. s.serial;
    make = new_session;
    launch = launch;
    halt = halt;
  }
