-- ===== src/Agent/Controllers/Sessions.antt =====
-- What the callbacks of a Controller session keep, and what a session looks like between events.
use nebula_clone.Prelude.{
  ℕ, ◌+◌, ◌≤◌, Bool, true, false, not, ◌||◌, ◌==◌, none, some, is_none, ◌≡◌, ◌⊎◌, refl, ◌∙◌, arith,
  inl, inr, Bool-cases, Option-cases,
}
use nebula_clone.Agent.Processes.{Children}
use nebula_clone.Agent.Controllers.{
  Session, teardown_processes, schedule_restart, handle_child_failure, poll_health, restart_max_ms,
  restart_delay_ms,
}

-- Two states of one session.
abbrev pub SameSession : Session → Session → Type 0
SameSession s t = (t.port ≡ s.port) × (t.device_id ≡ s.device_id) × (t.is_stopping ≡ s.is_stopping)

-- The session names both its processes and is polled for its generation.
abbrev pub IsRunning : Session → Type 0
IsRunning s =
    (is_none s.runner ≡ false)
    × (is_none s.proxy ≡ false)
    × (s.health_timer ≡ some s.generation)
    × (s.restart_timer ≡ none)

-- The session names no process, and a restart is due within a minute.
abbrev pub IsWaiting : Session → Type 0
IsWaiting s =
    (s.runner ≡ none)
    × (s.proxy ≡ none)
    × (s.health_timer ≡ none)
    × ((delay : ℕ) × (s.restart_timer ≡ some delay) × (delay ≤ restart_max_ms))

pub schedule_same : (s : Session) (c : Children) → SameSession s (schedule_restart s c).0
unfolding schedule_restart teardown_processes
schedule_same s c = ground arith

pub schedule_generation :
    (s : Session) (c : Children) → (schedule_restart s c).0.generation ≡ s.generation
unfolding schedule_restart teardown_processes
schedule_generation s c = ground arith

pub failure_same :
    (g : ℕ) (s : Session) (c : Children) → SameSession s (handle_child_failure g s c).0
unfolding handle_child_failure
failure_same g s c = ground (arith, schedule_same s c)

pub poll_same :
    (g : ℕ) (b : Bool) (now : ℕ) (s : Session) (c : Children)
    → SameSession s (poll_health g b now s c).0
unfolding poll_health
poll_same g b now s c =
    ground (arith, schedule_same (record s { health_fail_count = s.health_fail_count + 1 }) c)

-- The session was stopped: it names no process and nothing is due.
abbrev pub IsStopped : Session → Type 0
IsStopped s =
    (s.is_stopping ≡ true) × (s.runner ≡ none) × (s.proxy ≡ none) × (s.restart_timer ≡ none)

-- What a session looks like between events.
abbrev pub IsAlive : Session → Type 0
IsAlive s = IsStopped s ⊎ ((s.is_stopping ≡ false) × (IsRunning s ⊎ IsWaiting s))

pub schedule_waits :
    (s : Session) (c : Children)
    → s.is_stopping ≡ false
    → s.restart_timer ≡ none
    → IsWaiting (schedule_restart s c).0
unfolding schedule_restart teardown_processes
schedule_waits s c runs idle =
    rw (runs)
      (rw (idle) (refl, refl, refl, (restart_delay_ms s.restart_attempt, refl, omega arith)))

schedule_pending :
    (s : Session) (c : Children) (d : ℕ) → s.restart_timer ≡ some d → (schedule_restart s c).0 ≡ s
unfolding schedule_restart
schedule_pending s c d pending = rw (pending) (ground arith)

-- Callbacks leave a stopped session as it is.
schedule_stopped :
    (s : Session) (c : Children) → s.is_stopping ≡ true → schedule_restart s c ≡ (s, c)
unfolding schedule_restart
schedule_stopped s c stops = ground (arith, stops)

pub failure_stopped :
    (g : ℕ) (s : Session) (c : Children)
    → s.is_stopping ≡ true
    → handle_child_failure g s c ≡ (s, c)
unfolding handle_child_failure
failure_stopped g s c stops = ground (arith, stops)

pub poll_stopped :
    (g : ℕ) (b : Bool) (now : ℕ) (s : Session) (c : Children)
    → s.is_stopping ≡ true
    → poll_health g b now s c ≡ (s, c)
unfolding poll_health
poll_stopped g b now s c stops = ground (arith, stops)

schedule-IsAlive : (s : Session) (c : Children) → IsAlive s → IsAlive (schedule_restart s c).0
schedule-IsAlive s c h = elim (Bool-cases s.is_stopping) [
  | inl stops ↦ rw (schedule_stopped s c stops) h
  | inr runs ↦ elim (Option-cases s.restart_timer) [
    | inl idle ↦ inr ((schedule_same s c).2 ∙ runs, inr (schedule_waits s c runs idle))
    | inr (d, pending) ↦ rw (schedule_pending s c d pending) h
  ]
]

pub failure-IsAlive :
    (g : ℕ) (s : Session) (c : Children) → IsAlive s → IsAlive (handle_child_failure g s c).0
unfolding handle_child_failure
failure-IsAlive g s c h = elim (Bool-cases (s.is_stopping || not (s.generation == g))) [
  | inl stale ↦ rw (stale) h
  | inr current ↦ rw (current) (schedule-IsAlive s c h)
]

pub poll-IsAlive :
    (g : ℕ) (b : Bool) (now : ℕ) (s : Session) (c : Children)
    → IsAlive s
    → IsAlive (poll_health g b now s c).0
unfolding poll_health
poll-IsAlive g b now s c h =
    ground
      (arith, h, schedule-IsAlive (record s { health_fail_count = s.health_fail_count + 1 }) c h)
