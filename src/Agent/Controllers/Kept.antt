-- ===== src/Agent/Controllers/Kept.antt =====
-- What the supervisor of the Controllers leaves alone: sessions that were stopped, and sessions of devices
-- that are still there.
use nebula_clone.Prelude.{
  ℕ, Bool, true, not, List, [], ◌∷◌, Option, none, some, String, is_none, ◌≡◌, ap, arith, inl, inr,
  Option-cases,
}
use nebula_clone.Js.Table.{get, String_key, ℕ_key}
use nebula_clone.Agent.Processes.{Children, Process, exit}
use nebula_clone.Agent.Fleet.{Supervisor, SessionKind, has, sync_devices}
use nebula_clone.Agent.Fleet.Ports.{IsSound}
use nebula_clone.Agent.Fleet.Sync.{sync_names, sync_keeps}
use nebula_clone.Agent.Fleet.Kept.{
  within-Stays, cool-Stays, sync_stopped, stop_all_stopped, sync_kept,
}
use nebula_clone.Agent.Controllers.{
  Session, SupervisorConfig, Host, Event, syncs, stops_all, cools, exits, polls, restarts,
  escalates, handle_child_failure, poll_health, fire_restart, controller_kind, step, run, started,
  session_of, session_at, fail_child,
}
use nebula_clone.Agent.Controllers.Sessions.{IsStopped, failure_stopped, poll_stopped}
use nebula_clone.Agent.Controllers.Launches.{controller_kind-IsKind, fire_idle}
use nebula_clone.Agent.Controllers.Runs.{IsGood, step-IsGood, started-IsGood, numbered}

module _ (config : SupervisorConfig) (host : Host) (spawns : ℕ → Bool) where
  abbrev kind : SessionKind Session Children
  kind = controller_kind config host spawns

  module _ (number : ℕ) (s : Session) (stopped : IsStopped s) where
    fail_child_stopped :
        (o : Option Process) (st : Supervisor Session Children)
        → get number st.objects ≡ some s
        → get number (fail_child config host spawns o st).objects ≡ some s
    unfolding fail_child
    fail_child_stopped none st h = h
    fail_child_stopped (some p) st h =
        within-Stays kind (controller_kind-IsKind config host spawns) number s p.session
          (handle_child_failure p.generation) st
          (λ c. ap (λ x. x.0) (failure_stopped p.generation s c stopped.0)) h

    step_stopped :
        (e : Event) (st : Supervisor Session Children)
        → IsSound kind st
        → get number st.objects ≡ some s
        → get number (step config host spawns e st).objects ≡ some s
    unfolding step
    step_stopped (syncs now ds) st sound h =
        sync_stopped kind (controller_kind-IsKind config host spawns) number s stopped.0 now ds st
          sound h
    step_stopped stops_all st sound h =
        stop_all_stopped kind (controller_kind-IsKind config host spawns) number s stopped.0 st
          sound h
    step_stopped (cools p) st sound h =
        cool-Stays kind (controller_kind-IsKind config host spawns) number s p st h
    step_stopped (exits n) st sound h =
        fail_child_stopped (get n st.children.processes)
          (record st { children = exit n st.children }) h
    step_stopped (polls r g b now) st sound h =
        within-Stays kind (controller_kind-IsKind config host spawns) number s r
          (poll_health g b now) st (λ c. ap (λ x. x.0) (poll_stopped g b now s c stopped.0)) h
    step_stopped (restarts r now) st sound h =
        within-Stays kind (controller_kind-IsKind config host spawns) number s r
          (fire_restart config host spawns r now) st
          (λ c. ap (λ x. x.0) (fire_idle config host spawns r now s c stopped.3)) h
    step_stopped (escalates n) st sound h = h

    run_stopped :
        (es : List Event) (st : Supervisor Session Children)
        → IsGood config host spawns st
        → get number st.objects ≡ some s
        → get number (run config host spawns es st).objects ≡ some s
    unfolding run
    run_stopped [] st good h = h
    run_stopped (e ∷ es) st good h =
        run_stopped es (step config host spawns e st) (step-IsGood config host spawns e st good)
          (step_stopped e st good.sound h)

  -- A session object that is stopping has no process and no pending restart, and no later event changes
  -- it: late exits, health answers and timers of a device that has gone do nothing to it.
  pub halted_for_good :
      (es later : List Event) (number : ℕ) (s : Session)
      → get number (started config host spawns es).objects ≡ some s
      → s.is_stopping ≡ true
      → IsStopped s
        × (get number (run config host spawns later (started config host spawns es)).objects
            ≡ some s)
  halted_for_good es later number s found stops =
      elim ((started-IsGood config host spawns es).alive number s found) [
        | inl stopped ↦ (
          stopped,
          run_stopped number s stopped later (started config host spawns es)
              (started-IsGood config host spawns es) found,
        )
        | inr (runs, h) ↦ absurd (ground (arith, runs, stops))
      ]

  -- After a synchronisation the devices that were named have a session and no other device has.
  pub sync_exact :
      (es : List Event) (now : ℕ) (devices : List String) (d : String)
      → is_none (
          session_of d
            (step config host spawns (syncs now devices) (started config host spawns es)))
        ≡ not (has d devices)
  unfolding step session_of session_at
  sync_exact es now devices d =
      let st = started config host spawns es in
      let laws = controller_kind-IsKind config host spawns in
      let good = started-IsGood config host spawns es in
      let after = step-IsGood config host spawns (syncs now devices) st good in
      let named = sync_names kind laws now devices st d good.sound in
      elim (Option-cases (get d (sync_devices kind now devices st).sessions)) [
        | inl e ↦ rw (e) (ground (arith, e, named))
        | inr (r, e) ↦
            let (t, found, runs, device) = after.sound.agrees.linked d r e in
            rw (e) (rw (found) (ground (arith, e, named)))
      ]

  -- A synchronisation that names a device leaves the session that it has as it is.
  pub sync_untouched :
      (es : List Event) (now : ℕ) (devices : List String) (d : String) (s : Session)
      → session_of d (started config host spawns es) ≡ some s
      → has d devices ≡ true
      → session_of d (step config host spawns (syncs now devices) (started config host spawns es))
        ≡ some s
  unfolding step session_of session_at
  sync_untouched es now devices d s e asked =
      let st = started config host spawns es in
      let laws = controller_kind-IsKind config host spawns in
      let sound = (started-IsGood config host spawns es).sound in
      let (r, named, found) = numbered config host spawns d s st e in
      rw (sync_keeps kind laws now devices st d r sound named asked)
        (sync_kept kind laws r s d devices asked now st sound named found)
