-- ===== src/Agent/Runners/Runs.antt =====
-- What holds after any events that reach the Android supervisor.
use nebula_clone.Prelude.{
  ℕ, Bool, false, List, [], ◌∷◌, Option, none, some, String, ◌≡◌, ◌⊎◌, refl, ap, arith, inl, inr,
}
use nebula_clone.Js.Table.{get, String_key, ℕ_key}
use nebula_clone.Agent.Processes.{Process}
use nebula_clone.Agent.Controllers.{Host}
use nebula_clone.Agent.Fleet.{Supervisor, SessionKind, new_supervisor}
use nebula_clone.Agent.Fleet.Ports.{
  IsSound, uses, held_one, new_supervisor-IsSound, within-IsSound, cool-IsSound,
}
use nebula_clone.Agent.Fleet.Sync.{sync-IsSound, stop_all-IsSound}
use nebula_clone.Agent.Fleet.Objects.{
  AllHold, cool-AllHold, within-Holds, sync-Holds, stop_all-Holds,
}
use nebula_clone.Agent.Runners.{
  Session, Adb, AndroidSupervisorConfig, runner_kind, halt, teardown_processes,
}
use nebula_clone.Agent.Runners.Events.{
  Event, syncs, stops_all, cools, ends_adb, exits, polls, restarts, escalates, no_adb, fail_child,
  step, run, started, with_exit,
}
use nebula_clone.Agent.Runners.Sessions.{
  runner_kind-IsKind, child-Keeps, poll-Keeps, fire-Keeps, end_adb-Keeps,
}
use nebula_clone.Agent.Runners.Alive.{
  IsAlive, IsLaunching, IsRunning, IsWaiting, launch-IsAlive, child-IsAlive, poll-IsAlive,
  fire-IsAlive, end_adb-IsAlive,
}

module _ (config : AndroidSupervisorConfig) (host : Host) (spawns : ℕ → Bool) where
  abbrev kind : SessionKind Session Adb
  kind = runner_kind config host spawns

  record IsGood (st : Supervisor Session Adb) : Type 0 where
    sound : IsSound kind st
    alive : AllHold IsAlive st

  with_children :
      (a : Adb) (st : Supervisor Session Adb) → IsGood st → IsGood (record st { children = a })
  with_children a st h = record {
    sound = record { agrees = h.sound.agrees; ports = h.sound.ports };
    alive = h.alive;
  }

  within-IsGood :
      (o : Option Process) (st : Supervisor Session Adb)
      → IsGood st
      → IsGood (fail_child config host spawns o st)
  unfolding fail_child
  within-IsGood none st h = h
  within-IsGood (some p) st h = record {
    sound =
        within-IsSound kind p.session _ st (child-Keeps config host spawns p.generation) h.sound;
    alive =
        within-Holds IsAlive p.session _ st (child-IsAlive config host spawns p.generation) h.alive;
  }

  halt-IsAlive : (s : Session) (a : Adb) → IsAlive (halt config host spawns s a).0
  unfolding halt teardown_processes
  halt-IsAlive s a = inl refl

  made-IsAlive :
      (number now : ℕ) (d : String) (port : ℕ) (a : Adb)
      → IsAlive (kind.launch number now (kind.make d port now) a).0
  made-IsAlive number now d port a =
      launch-IsAlive config host spawns number now (kind.make d port now) a

  step-IsGood :
      (e : Event) (st : Supervisor Session Adb) → IsGood st → IsGood (step config host spawns e st)
  unfolding step
  step-IsGood (syncs now ds) st h = record {
    sound = sync-IsSound kind (runner_kind-IsKind config host spawns) now ds st h.sound;
    alive = sync-Holds IsAlive kind made-IsAlive halt-IsAlive now ds st h.alive;
  }
  step-IsGood stops_all st h = record {
    sound = stop_all-IsSound kind (runner_kind-IsKind config host spawns) st h.sound;
    alive = stop_all-Holds IsAlive kind made-IsAlive halt-IsAlive st h.alive;
  }
  step-IsGood (cools p) st h = record {
    sound = cool-IsSound kind (runner_kind-IsKind config host spawns) p st h.sound;
    alive = cool-AllHold IsAlive p st h.alive;
  }
  step-IsGood (ends_adb number done) st h = record {
    sound = within-IsSound kind number _ st (end_adb-Keeps config host spawns number done) h.sound;
    alive =
        within-Holds IsAlive number _ st (end_adb-IsAlive config host spawns number done) h.alive;
  }
  step-IsGood (exits n) st h =
      within-IsGood (get n st.children.children.processes) (with_exit config host spawns n st)
        (with_children _ st h)
  step-IsGood (polls number g b now) st h = record {
    sound = within-IsSound kind number _ st (poll-Keeps config host spawns g b now) h.sound;
    alive = within-Holds IsAlive number _ st (poll-IsAlive config host spawns g b now) h.alive;
  }
  step-IsGood (restarts number now) st h = record {
    sound = within-IsSound kind number _ st (fire-Keeps config host spawns number now) h.sound;
    alive = within-Holds IsAlive number _ st (fire-IsAlive config host spawns number now) h.alive;
  }
  step-IsGood (escalates n) st h = with_children _ st h

  run-IsGood :
      (es : List Event) (st : Supervisor Session Adb)
      → IsGood st
      → IsGood (run config host spawns es st)
  unfolding run
  run-IsGood [] st h = h
  run-IsGood (e ∷ es) st h = run-IsGood es (step config host spawns e st) (step-IsGood e st h)

  started-IsGood : (es : List Event) → IsGood (started config host spawns es)
  unfolding get
  started-IsGood es =
      run-IsGood es (new_supervisor no_adb) (record {
        sound = new_supervisor-IsSound kind no_adb;
        alive = λ r s e. absurd (grind arith);
      })

  -- Whatever events came, an Android device that has a session has an adb call of its launch in flight,
  -- or its instrumentation started and polled, or a restart due; and the port of the session is in no
  -- other place: no other session has it, and it is neither free nor cooling down.
  pub runner_sessions :
      (es : List Event) (d : String) (number : ℕ) (s : Session)
      → get d (started config host spawns es).sessions ≡ some number
      → get number (started config host spawns es).objects ≡ some s
      → (IsLaunching s ⊎ (IsRunning s ⊎ IsWaiting s))
        × (uses kind s.http_port (started config host spawns es) ≡ 1)
  runner_sessions es d number s named found =
      let st = started config host spawns es in
      let good = started-IsGood es in
      let (t, found', runs, device) = good.sound.agrees.linked d number named in
      let runs' : s.is_stopping ≡ false =
        ground (arith, found, found', runs, ap kind.is_stopping {x = t} {y = s}) in
      (
        elim (good.alive number s found) [
          | inl stops ↦ absurd (ground (arith, stops, runs'))
          | inr h ↦ h
        ],
        ground (
          arith,
          good.sound.ports s.http_port,
          held_one kind s.http_port number s st.objects found,
          runs',
        ),
      )
