-- ===== src/Agent/Controllers/Runs.antt =====
-- What holds after any events that reach the supervisor of the Controllers.
use nebula_clone.Prelude.{
  ℕ, ◌+◌, Bool, List, [], ◌∷◌, Option, none, some, String, if◌then◌else◌, ◌≡◌, ◌≢◌, ◌⊎◌, refl, ap,
  ◌∙◌, arith, inl, inr, Option-cases,
}
use nebula_clone.Js.Table.{get, get-set_same, String_key, ℕ_key}
use nebula_clone.Agent.Processes.{Children, Process, exit, no_children}
use nebula_clone.Agent.Fleet.{Supervisor, SessionKind, within, new_supervisor}
use nebula_clone.Agent.Fleet.Ports.{
  IsSound, uses, is_issued, new_supervisor-IsSound, within-IsSound, cool-IsSound, port_own,
}
use nebula_clone.Agent.Fleet.Sync.{sync-IsSound, stop_all-IsSound}
use nebula_clone.Agent.Fleet.Objects.{
  AllHold, cool-AllHold, within-Holds, sync-Holds, stop_all-Holds,
}
use nebula_clone.Agent.Controllers.{
  Session, SupervisorConfig, Host, Event, syncs, stops_all, cools, exits, polls, restarts,
  escalates, handle_child_failure, poll_health, fire_restart, halt, teardown_processes,
  controller_kind, step, run, started, session_of, session_at, fail_child,
}
use nebula_clone.Agent.Controllers.Sessions.{IsAlive, IsWaiting, failure-IsAlive, poll-IsAlive}
use nebula_clone.Agent.Controllers.Owned.{IsUp, up}
use nebula_clone.Agent.Controllers.Lives.{started_owns}
use nebula_clone.Agent.Controllers.Launches.{
  controller_kind-IsKind, failure-Keeps, poll-Keeps, fire-Keeps, fire-IsAlive, launch-IsAlive,
  launch_generation, fire_pending,
}

module _ (config : SupervisorConfig) (host : Host) (spawns : ℕ → Bool) where
  abbrev kind : SessionKind Session Children
  kind = controller_kind config host spawns

  pub record IsGood (st : Supervisor Session Children) : Type 0 where
    pub sound : IsSound kind st
    pub alive : AllHold IsAlive st

  with_children :
      (c : Children) (st : Supervisor Session Children)
      → IsGood st
      → IsGood (record st { children = c })
  with_children c st h = record {
    sound = record { agrees = h.sound.agrees; ports = h.sound.ports };
    alive = h.alive;
  }

  fail_child-IsGood :
      (o : Option Process) (st : Supervisor Session Children)
      → IsGood st
      → IsGood (fail_child config host spawns o st)
  unfolding fail_child
  fail_child-IsGood none st h = h
  fail_child-IsGood (some p) st h = record {
    sound =
        within-IsSound kind p.session (handle_child_failure p.generation) st
          (failure-Keeps config host spawns p.generation) h.sound;
    alive =
        within-Holds IsAlive p.session (handle_child_failure p.generation) st
          (failure-IsAlive p.generation) h.alive;
  }

  halt-IsAlive : (s : Session) (c : Children) → IsAlive (halt s c).0
  unfolding halt teardown_processes
  halt-IsAlive s c = inl (refl, refl, refl, refl)

  made-IsAlive :
      (number now : ℕ) (d : String) (port : ℕ) (c : Children)
      → IsAlive (kind.launch number now (kind.make d port now) c).0
  made-IsAlive number now d port c =
      launch-IsAlive config host spawns number now (kind.make d port now) c refl refl

  pub step-IsGood :
      (e : Event) (st : Supervisor Session Children)
      → IsGood st
      → IsGood (step config host spawns e st)
  unfolding step
  step-IsGood (syncs now ds) st h = record {
    sound = sync-IsSound kind (controller_kind-IsKind config host spawns) now ds st h.sound;
    alive = sync-Holds IsAlive kind made-IsAlive halt-IsAlive now ds st h.alive;
  }
  step-IsGood stops_all st h = record {
    sound = stop_all-IsSound kind (controller_kind-IsKind config host spawns) st h.sound;
    alive = stop_all-Holds IsAlive kind made-IsAlive halt-IsAlive st h.alive;
  }
  step-IsGood (cools p) st h = record {
    sound = cool-IsSound kind (controller_kind-IsKind config host spawns) p st h.sound;
    alive = cool-AllHold IsAlive p st h.alive;
  }
  step-IsGood (exits n) st h =
      fail_child-IsGood (get n st.children.processes) (record st { children = exit n st.children })
        (with_children (exit n st.children) st h)
  step-IsGood (polls number g b now) st h = record {
    sound =
        within-IsSound kind number (poll_health g b now) st (poll-Keeps config host spawns g b now)
          h.sound;
    alive = within-Holds IsAlive number (poll_health g b now) st (poll-IsAlive g b now) h.alive;
  }
  step-IsGood (restarts number now) st h = record {
    sound =
        within-IsSound kind number (fire_restart config host spawns number now) st
          (fire-Keeps config host spawns number now) h.sound;
    alive =
        within-Holds IsAlive number (fire_restart config host spawns number now) st
          (fire-IsAlive config host spawns number now) h.alive;
  }
  step-IsGood (escalates n) st h = with_children _ st h

  run-IsGood :
      (es : List Event) (st : Supervisor Session Children)
      → IsGood st
      → IsGood (run config host spawns es st)
  unfolding run
  run-IsGood [] st h = h
  run-IsGood (e ∷ es) st h = run-IsGood es (step config host spawns e st) (step-IsGood e st h)

  pub started-IsGood : (es : List Event) → IsGood (started config host spawns es)
  unfolding get
  started-IsGood es = run-IsGood es (new_supervisor no_children) (record {
    sound = new_supervisor-IsSound kind no_children;
    alive = λ r s e. absurd (grind arith);
  })

  -- The number and the object of a device's session.
  pub numbered :
      (d : String) (s : Session) (st : Supervisor Session Children)
      → session_of d st ≡ some s
      → (r : ℕ) × (get d st.sessions ≡ some r) × (get r st.objects ≡ some s)
  unfolding session_of session_at
  numbered d s st e = elim (Option-cases (get d st.sessions)) [
    | inl missing ↦ absurd (ground (arith, e, missing))
    | inr (r, named) ↦ (r, named, ground (arith, e, named))
  ]

  -- Whatever events came, each port that was given out is in exactly one place: with one session that is
  -- not stopping, free, or cooling down; and no other port is in any of them.
  pub ports_conserved :
      (es : List Event) (p : ℕ)
      → uses kind p (started config host spawns es)
        ≡ (if is_issued kind p (started config host spawns es) then 1 else 0)
  ports_conserved es p = (started-IsGood es).sound.ports p

  -- Whatever events came, the sessions of two devices are not on one port.
  pub ports_distinct :
      (es : List Event) (d e : String) (s t : Session)
      → session_of d (started config host spawns es) ≡ some s
      → session_of e (started config host spawns es) ≡ some t
      → d ≢ e
      → s.port ≢ t.port
  ports_distinct es d e s t i j other same =
      let st = started config host spawns es in
      let (r, named, found) = numbered d s st i in
      let (q, named', found') = numbered e t st j in
      other (port_own kind d e r q s t st (started-IsGood es).sound named named' found found' same)

  pub session-within :
      (d : String) (r : ℕ) (s : Session) (f : Session → Children → Session × Children)
      (st : Supervisor Session Children)
      → get d st.sessions ≡ some r
      → get r st.objects ≡ some s
      → session_of d (within r f st) ≡ some (f s st.children).0
  unfolding within session_of session_at
  session-within d r s f st named found =
      rw (found) (rw (named) (get-set_same (f s st.children).0 st.objects refl))

  -- Whatever events came, each device that has a session has both its processes running, or a restart that
  -- is due within a minute and that launches the next generation when its timer fires. Running means
  -- that the runner (xcodebuild) and the proxy (iproxy) that the session names were started for this
  -- session and its generation, that neither has exited, and that they are under a health poll.
  pub never_wedged :
      (es : List Event) (now : ℕ) (d : String) (s : Session)
      → session_of d (started config host spawns es) ≡ some s
      → (number : ℕ) × (get d (started config host spawns es).sessions ≡ some number)
        × (IsUp number (started config host spawns es).children s
            ⊎ (IsWaiting s
                × ((t : Session) × (session_of d (
                        step config host spawns
                          (restarts number now)
                          (started config host spawns es))
                      ≡ some t)
                    × (t.generation ≡ s.generation + 1))))
  unfolding step
  never_wedged es now d s e =
      let st = started config host spawns es in
      let (r, named, found) = numbered d s st e in
      let (alive, both) = (started_owns config host spawns es).each r s found in
      (
        r,
        named,
        elim alive [
          | inl stops ↦
              let (t, f, runs, device) = (started-IsGood es).sound.agrees.linked d r named in
              absurd (ground (arith, f, found, runs, stops.0, ap kind.is_stopping {x = t} {y = s}))
          | inr (runs, inl running) ↦ inl (up r st.children s running both)
          | inr (runs, inr waits) ↦
              let launched = kind.launch r now (record s { restart_timer = none }) st.children in
              inr (
                waits,
                (
                  launched.0,
                  session-within d r s (fire_restart config host spawns r now) st named found
                      ∙ ap (λ x. some x.0)
                          (fire_pending config host spawns r now s st.children waits.3.0 waits.3.1
                            runs),
                  launch_generation config host spawns r now (record s { restart_timer = none })
                      st.children,
                ),
              )
        ],
      )
