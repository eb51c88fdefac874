-- ===== src/Agent/Runners/Sessions.antt =====
-- What the callbacks of an Android session keep.
use nebula_clone.Prelude.{
  ℕ, ◌+◌, Bool, true, false, Option, none, some, ◌≡◌, refl, arith, inl, inr, Bool-cases,
}
use nebula_clone.Agent.Processes.{Children, track}
use nebula_clone.Agent.Controllers.{Host}
use nebula_clone.Agent.Fleet.{SessionKind}
use nebula_clone.Agent.Fleet.Ports.{Keeps, IsKind}
use nebula_clone.Agent.Runners.{
  Session, Adb, AndroidSupervisorConfig, Launch, Stage, staying_on, installing, forwarding,
  clearing, teardown_processes, schedule_restart, launch, fail_launch, start_forward,
  start_instrument, with_instrument, advance, resume, end_adb, child_ended, poll_health,
  fire_restart, halt, runner_kind, is_stale, needs_install,
}

-- Two states of one session.
abbrev pub SameSession : Session → Session → Type 0
SameSession s t =
    (t.http_port ≡ s.http_port) × (t.serial ≡ s.serial) × (t.is_stopping ≡ s.is_stopping)

module _ (config : AndroidSupervisorConfig) (host : Host) (spawns : ℕ → Bool) where
  schedule_same :
      (s : Session) (a : Adb) → SameSession s (schedule_restart config host spawns s a).0
  unfolding schedule_restart teardown_processes
  schedule_same s a = ground arith

  fail_same :
      (g : ℕ) (s : Session) (a : Adb) → SameSession s (fail_launch config host spawns g s a).0
  unfolding fail_launch
  fail_same g s a = ground (arith, schedule_same (record s { launching = none }) a)

  child_same :
      (g : ℕ) (s : Session) (a : Adb) → SameSession s (child_ended config host spawns g s a).0
  unfolding child_ended
  child_same g s a = ground (arith, schedule_same s a)

  poll_same :
      (g : ℕ) (b : Bool) (now : ℕ) (s : Session) (a : Adb)
      → SameSession s (poll_health config host spawns g b now s a).0
  unfolding poll_health
  poll_same g b now s a = ground (
    arith,
    schedule_same s a,
    schedule_same (record s { health_fail_count = s.health_fail_count + 1 }) a,
  )

  forward_same :
      (g : ℕ) (s : Session) (a : Adb) → SameSession s (start_forward config host spawns g s a).0
  unfolding start_forward
  forward_same g s a = ground arith

  with_instrument_same :
      (tracked : Option ℕ × Children) (g : ℕ) (s : Session) (a : Adb)
      → SameSession s (with_instrument config host spawns tracked g s a).0
  unfolding with_instrument
  with_instrument_same (none, c) g s a = fail_same g s (record a { children = c })
  with_instrument_same (some n, c) g s a = (refl, refl, refl)

  start_instrument_same :
      (number g : ℕ) (s : Session) (a : Adb)
      → SameSession s (start_instrument config host spawns number g s a).0
  unfolding start_instrument
  start_instrument_same number g s a = elim (Bool-cases (is_stale s g)) [
    | inl stale ↦ rw (stale) (refl, refl, refl)
    | inr fresh ↦ rw (fresh) (with_instrument_same (track spawns _ a.children) g s a)
  ]

  advance_same :
      (stage : Stage) (done : Bool) (number g : ℕ) (s : Session) (a : Adb)
      → SameSession s (advance config host spawns stage done number g s a).0
  unfolding advance
  advance_same staying_on done number g s a =
      elim (Bool-cases (needs_install config host spawns s)) [
        | inl needed ↦ rw (needed) (refl, refl, refl)
        | inr there ↦ rw (there) (forward_same g s a)
      ]
  advance_same installing true number g s a = forward_same g (record s { is_installed = true }) a
  advance_same forwarding true number g s a = (refl, refl, refl)
  advance_same clearing true number g s a = start_instrument_same number g s a
  advance_same installing false number g s a = fail_same g s a
  advance_same forwarding false number g s a = fail_same g s a
  advance_same clearing false number g s a = fail_same g s a

  resume_same :
      (o : Option Launch) (done : Bool) (number : ℕ) (s : Session) (a : Adb)
      → SameSession s (resume config host spawns o done number s a).0
  unfolding resume
  resume_same none done number s a = (refl, refl, refl)
  resume_same (some l) done number s a = advance_same l.stage done number l.generation s a

  fire_same :
      (number now : ℕ) (s : Session) (a : Adb)
      → SameSession s (fire_restart config host spawns number now s a).0
  unfolding fire_restart launch
  fire_same number now s a = ground arith

  abbrev kind : SessionKind Session Adb
  kind = runner_kind config host spawns

  pub end_adb-Keeps :
      (number : ℕ) (done : Bool) → Keeps kind (end_adb config host spawns number done)
  unfolding end_adb
  end_adb-Keeps number done = record {
    port = λ s a. (resume_same s.launching done number s a).0;
    device = λ s a. (resume_same s.launching done number s a).1;
    stopping = λ s a. (resume_same s.launching done number s a).2;
  }

  pub child-Keeps : (g : ℕ) → Keeps kind (child_ended config host spawns g)
  child-Keeps g = record {
    port = λ s a. (child_same g s a).0;
    device = λ s a. (child_same g s a).1;
    stopping = λ s a. (child_same g s a).2;
  }

  pub poll-Keeps :
      (g : ℕ) (b : Bool) (now : ℕ) → Keeps kind (poll_health config host spawns g b now)
  poll-Keeps g b now = record {
    port = λ s a. (poll_same g b now s a).0;
    device = λ s a. (poll_same g b now s a).1;
    stopping = λ s a. (poll_same g b now s a).2;
  }

  pub fire-Keeps : (number now : ℕ) → Keeps kind (fire_restart config host spawns number now)
  fire-Keeps number now = record {
    port = λ s a. (fire_same number now s a).0;
    device = λ s a. (fire_same number now s a).1;
    stopping = λ s a. (fire_same number now s a).2;
  }

  pub runner_kind-IsKind : IsKind kind
  unfolding halt teardown_processes launch
  runner_kind-IsKind = record {
    make_port = λ d p now. refl;
    make_device = λ d p now. refl;
    make_runs = λ d p now. refl;
    launches =
        λ number now. record { port = λ s a. refl; device = λ s a. refl; stopping = λ s a. refl };
    halts = λ s a. refl;
  }
