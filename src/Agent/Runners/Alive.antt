-- ===== src/Agent/Runners/Alive.antt =====
-- What an Android session looks like between events.
use nebula_clone.Prelude.{
  ℕ, ◌+◌, Bool, true, false, Option, none, some, is_none, ◌≡◌, ◌⊎◌, refl, ap, arith, inl, inr,
  Bool-cases, Option-cases,
}
use nebula_clone.Agent.Processes.{Children, track}
use nebula_clone.Agent.Controllers.{Host}
use nebula_clone.Agent.Runners.{
  Session, Adb, AndroidSupervisorConfig, Launch, Stage, staying_on, installing, forwarding,
  clearing, teardown_processes, schedule_restart, launch, fail_launch, start_forward,
  start_instrument, with_instrument, advance, resume, end_adb, child_ended, poll_health,
  fire_restart, is_stale, needs_install,
}

-- An adb call is in flight, for the launch of the session's generation.
abbrev pub IsLaunching : Session → Type 0
IsLaunching s = (l : Launch) × (s.launching ≡ some l) × (l.generation ≡ s.generation)

-- The instrumentation was started and is polled, for the generation of the session.
abbrev pub IsRunning : Session → Type 0
IsRunning s = (is_none s.instrument ≡ false) × (s.health_timer ≡ some s.generation)

-- A restart is due.
abbrev pub IsWaiting : Session → Type 0
IsWaiting s = is_none s.restart_timer ≡ false

-- What a session looks like between events.
abbrev pub IsAlive : Session → Type 0
IsAlive s = (s.is_stopping ≡ true) ⊎ (IsLaunching s ⊎ (IsRunning s ⊎ IsWaiting s))

module _ (config : AndroidSupervisorConfig) (host : Host) (spawns : ℕ → Bool) where
  -- Whatever the session is doing, a restart is due when one was asked for.
  schedule-IsAlive : (s : Session) (a : Adb) → IsAlive (schedule_restart config host spawns s a).0
  unfolding schedule_restart teardown_processes
  schedule-IsAlive s a = elim (Bool-cases s.is_stopping) [
    | inl stops ↦ inl (ground (arith, stops))
    | inr runs ↦ elim (Option-cases s.restart_timer) [
      | inl idle ↦ inr (inr (inr (ground (arith, runs, idle))))
      | inr (d, due) ↦ inr (inr (inr (ground (arith, runs, due))))
    ]
  ]

  -- The launch in flight is one for the generation.
  abbrev Flies : ℕ → Session → Type 0
  Flies g s = (l : Launch) × (s.launching ≡ some l) × (l.generation ≡ g)

  -- What a launch of another generation does leaves the session alive.
  without_launch :
      (s : Session) (g : ℕ) (o : Option Launch)
      → is_stale s g ≡ true
      → Flies g s
      → IsAlive s
      → IsAlive (record s { launching = o })
  without_launch s g o stale (l, flies, of_g) (inl stops) = inl stops
  without_launch s g o stale (l, flies, of_g) (inr (inl (k, flies', current))) =
      inl (ground (arith, stale, flies, of_g, flies', current))
  without_launch s g o stale (l, flies, of_g) (inr (inr h)) = inr (inr h)

  fail-IsAlive :
      (g : ℕ) (s : Session) (a : Adb)
      → Flies g s
      → IsAlive s
      → IsAlive (fail_launch config host spawns g s a).0
  unfolding fail_launch
  fail-IsAlive g s a flies h = elim (Bool-cases (is_stale s g)) [
    | inl stale ↦ rw (stale) (without_launch s g none stale flies h)
    | inr current ↦ rw (current) (schedule-IsAlive (record s { launching = none }) a)
  ]

  -- The next adb call of a launch is in flight.
  wait-IsAlive :
      (g : ℕ) (stage : Stage) (s : Session)
      → Flies g s
      → IsAlive s
      → IsAlive (record s { launching = some (record { generation = g; stage = stage }) })
  wait-IsAlive g stage s flies h = elim (Bool-cases (is_stale s g)) [
    | inl stale ↦ without_launch s g (some (record { generation = g; stage = stage })) stale flies h
    | inr current ↦
        inr (inl (record { generation = g; stage = stage }, refl, ground (arith, current)))
  ]

  forward-IsAlive :
      (g : ℕ) (s : Session) (a : Adb)
      → Flies g s
      → IsAlive s
      → IsAlive (start_forward config host spawns g s a).0
  unfolding start_forward
  forward-IsAlive g s a flies h = elim (Bool-cases (is_stale s g)) [
    | inl stale ↦ rw (stale) (without_launch s g none stale flies h)
    | inr current ↦ rw (current) (wait-IsAlive g forwarding s flies h)
  ]

  with_instrument-IsAlive :
      (tracked : Option ℕ × Children) (g : ℕ) (s : Session) (a : Adb)
      → is_stale s g ≡ false
      → Flies g s
      → IsAlive s
      → IsAlive (with_instrument config host spawns tracked g s a).0
  unfolding with_instrument
  with_instrument-IsAlive (none, c) g s a current flies h =
      fail-IsAlive g s (record a { children = c }) flies h
  with_instrument-IsAlive (some n, c) g s a current flies h =
      let same : g ≡ s.generation = ground (arith, current) in inr (inr (inl (refl, ap some same)))

  start_instrument-IsAlive :
      (number g : ℕ) (s : Session) (a : Adb)
      → Flies g s
      → IsAlive s
      → IsAlive (start_instrument config host spawns number g s a).0
  unfolding start_instrument
  start_instrument-IsAlive number g s a flies h = elim (Bool-cases (is_stale s g)) [
    | inl stale ↦ rw (stale) (without_launch s g none stale flies h)
    | inr current ↦
        rw (current) (with_instrument-IsAlive (track spawns _ a.children) g s a current flies h)
  ]

  advance-IsAlive :
      (stage : Stage) (done : Bool) (number g : ℕ) (s : Session) (a : Adb)
      → Flies g s
      → IsAlive s
      → IsAlive (advance config host spawns stage done number g s a).0
  unfolding advance
  advance-IsAlive staying_on done number g s a flies h =
      elim (Bool-cases (needs_install config host spawns s)) [
        | inl needed ↦ rw (needed) (wait-IsAlive g installing s flies h)
        | inr there ↦ rw (there) (forward-IsAlive g s a flies h)
      ]
  advance-IsAlive installing true number g s a flies h =
      forward-IsAlive g (record s { is_installed = true }) a flies h
  advance-IsAlive forwarding true number g s a flies h = wait-IsAlive g clearing s flies h
  advance-IsAlive clearing true number g s a flies h = start_instrument-IsAlive number g s a flies h
  advance-IsAlive installing false number g s a flies h = fail-IsAlive g s a flies h
  advance-IsAlive forwarding false number g s a flies h = fail-IsAlive g s a flies h
  advance-IsAlive clearing false number g s a flies h = fail-IsAlive g s a flies h

  resume-IsAlive :
      (o : Option Launch) (done : Bool) (number : ℕ) (s : Session) (a : Adb)
      → s.launching ≡ o
      → IsAlive s
      → IsAlive (resume config host spawns o done number s a).0
  unfolding resume
  resume-IsAlive none done number s a e h = h
  resume-IsAlive (some l) done number s a e h =
      advance-IsAlive l.stage done number l.generation s a (l, e, refl) h

  pub end_adb-IsAlive :
      (number : ℕ) (done : Bool) (s : Session) (a : Adb)
      → IsAlive s
      → IsAlive (end_adb config host spawns number done s a).0
  unfolding end_adb
  end_adb-IsAlive number done s a h = resume-IsAlive s.launching done number s a refl h

  pub child-IsAlive :
      (g : ℕ) (s : Session) (a : Adb) → IsAlive s → IsAlive (child_ended config host spawns g s a).0
  unfolding child_ended
  child-IsAlive g s a h = elim (Bool-cases (is_stale s g)) [
    | inl stale ↦ rw (stale) h
    | inr current ↦ rw (current) (schedule-IsAlive s a)
  ]

  pub poll-IsAlive :
      (g : ℕ) (b : Bool) (now : ℕ) (s : Session) (a : Adb)
      → IsAlive s
      → IsAlive (poll_health config host spawns g b now s a).0
  unfolding poll_health
  poll-IsAlive g b now s a h = ground (
    arith,
    h,
    schedule-IsAlive s a,
    schedule-IsAlive (record s { health_fail_count = s.health_fail_count + 1 }) a,
  )

  pub launch-IsAlive :
      (number now : ℕ) (s : Session) (a : Adb)
      → IsAlive (launch config host spawns number now s a).0
  unfolding launch
  launch-IsAlive number now s a =
      inr (inl (record { generation = s.generation; stage = staying_on }, refl, refl))

  pub fire-IsAlive :
      (number now : ℕ) (s : Session) (a : Adb)
      → IsAlive s
      → IsAlive (fire_restart config host spawns number now s a).0
  unfolding fire_restart
  fire-IsAlive number now s a h = elim (Bool-cases (is_none s.restart_timer)) [
    | inl idle ↦ rw (idle) h
    | inr due ↦ rw (due) (launch-IsAlive number now (record s { restart_timer = none }) a)
  ]
