-- ===== src/Agent/Controllers/Launches.antt =====
-- What a launch and a due restart of a Controller session do, and that the callbacks of the sessions
-- are operations a supervisor can run.
use nebula_clone.Prelude.{
  ℕ, ◌+◌, Bool, false, Option, none, some, is_none, ◌≡◌, refl, ◌∙◌, arith, inl, inr, Option-cases,
}
use nebula_clone.Agent.Processes.{Children, track}
use nebula_clone.Agent.Fleet.{SessionKind}
use nebula_clone.Agent.Fleet.Ports.{Keeps, IsKind}
use nebula_clone.Agent.Controllers.{
  Session, SupervisorConfig, Host, teardown_processes, handle_child_failure, poll_health, halt,
  launch_processes, fire_restart, controller_kind, with_runner, with_proxy,
}
use nebula_clone.Agent.Controllers.Sessions.{
  SameSession, IsAlive, schedule_same, schedule_generation, failure_same, poll_same, schedule_waits,
}

module _ (config : SupervisorConfig) (host : Host) (spawns : ℕ → Bool) where
  with_proxy_same :
      (tracked : Option ℕ × Children) (s : Session)
      → SameSession s (with_proxy config host spawns tracked s).0
  unfolding with_proxy
  with_proxy_same (none, c) s = schedule_same s c
  with_proxy_same (some n, c) s = (refl, refl, refl)

  with_proxy-IsAlive :
      (tracked : Option ℕ × Children) (s : Session)
      → s.is_stopping ≡ false
      → s.restart_timer ≡ none
      → is_none s.runner ≡ false
      → IsAlive (with_proxy config host spawns tracked s).0
  unfolding with_proxy
  with_proxy-IsAlive (none, c) s runs idle there =
      inr ((schedule_same s c).2 ∙ runs, inr (schedule_waits s c runs idle))
  with_proxy-IsAlive (some n, c) s runs idle there = inr (runs, inl (there, refl, refl, idle))

  with_runner_same :
      (tracked : Option ℕ × Children) (number : ℕ) (s : Session)
      → SameSession s (with_runner config host spawns tracked number s).0
  unfolding with_runner
  with_runner_same (none, c) number s = schedule_same s c
  with_runner_same (some n, c) number s =
      with_proxy_same (track spawns _ c) (record s { runner = some n })

  with_runner-IsAlive :
      (tracked : Option ℕ × Children) (number : ℕ) (s : Session)
      → s.is_stopping ≡ false
      → s.restart_timer ≡ none
      → IsAlive (with_runner config host spawns tracked number s).0
  unfolding with_runner
  with_runner-IsAlive (none, c) number s runs idle =
      inr ((schedule_same s c).2 ∙ runs, inr (schedule_waits s c runs idle))
  with_runner-IsAlive (some n, c) number s runs idle =
      with_proxy-IsAlive (track spawns _ c) (record s { runner = some n }) runs idle refl

  pub launch_same :
      (number now : ℕ) (s : Session) (c : Children)
      → SameSession s (launch_processes config host spawns number now s c).0
  unfolding launch_processes
  launch_same number now s c = with_runner_same (track spawns _ c) number (record s {
    is_ready = false;
    health_fail_count = 0;
    generation = s.generation + 1;
    launched_at_ms = now;
  })

  pub launch-IsAlive :
      (number now : ℕ) (s : Session) (c : Children)
      → s.is_stopping ≡ false
      → s.restart_timer ≡ none
      → IsAlive (launch_processes config host spawns number now s c).0
  unfolding launch_processes
  launch-IsAlive number now s c runs idle =
      with_runner-IsAlive (track spawns _ c) number
        (record s {
          is_ready = false;
          health_fail_count = 0;
          generation = s.generation + 1;
          launched_at_ms = now;
        })
        runs idle

  with_proxy_generation :
      (tracked : Option ℕ × Children) (s : Session)
      → (with_proxy config host spawns tracked s).0.generation ≡ s.generation
  unfolding with_proxy
  with_proxy_generation (none, c) s = schedule_generation s c
  with_proxy_generation (some n, c) s = refl

  with_runner_generation :
      (tracked : Option ℕ × Children) (number : ℕ) (s : Session)
      → (with_runner config host spawns tracked number s).0.generation ≡ s.generation
  unfolding with_runner
  with_runner_generation (none, c) number s = schedule_generation s c
  with_runner_generation (some n, c) number s =
      with_proxy_generation (track spawns _ c) (record s { runner = some n })

  pub launch_generation :
      (number now : ℕ) (s : Session) (c : Children)
      → (launch_processes config host spawns number now s c).0.generation ≡ s.generation + 1
  unfolding launch_processes
  launch_generation number now s c = with_runner_generation (track spawns _ c) number (record s {
    is_ready = false;
    health_fail_count = 0;
    generation = s.generation + 1;
    launched_at_ms = now;
  })

  fire_same :
      (number now : ℕ) (s : Session) (c : Children)
      → SameSession s (fire_restart config host spawns number now s c).0
  unfolding fire_restart
  fire_same number now s c =
      ground (arith, launch_same number now (record s { restart_timer = none }) c)

  pub fire_idle :
      (number now : ℕ) (s : Session) (c : Children)
      → s.restart_timer ≡ none
      → fire_restart config host spawns number now s c ≡ (s, c)
  unfolding fire_restart
  fire_idle number now s c idle = ground (arith, idle)

  pub fire_pending :
      (number now : ℕ) (s : Session) (c : Children) (d : ℕ)
      → s.restart_timer ≡ some d
      → s.is_stopping ≡ false
      → fire_restart config host spawns number now s c
        ≡ launch_processes config host spawns number now (record s { restart_timer = none }) c
  unfolding fire_restart
  fire_pending number now s c d pending runs = ground (arith, pending, runs)

  pub fire-IsAlive :
      (number now : ℕ) (s : Session) (c : Children)
      → IsAlive s
      → IsAlive (fire_restart config host spawns number now s c).0
  fire-IsAlive number now s c (inl h) = rw (fire_idle number now s c h.3) (inl h)
  fire-IsAlive number now s c (inr (runs, h)) = elim (Option-cases s.restart_timer) [
    | inl idle ↦ rw (fire_idle number now s c idle) (inr (runs, h))
    | inr (d, pending) ↦
        rw (fire_pending number now s c d pending runs)
          (launch-IsAlive number now (record s { restart_timer = none }) c runs refl)
  ]

  abbrev kind : SessionKind Session Children
  kind = controller_kind config host spawns

  pub failure-Keeps : (g : ℕ) → Keeps kind (handle_child_failure g)
  failure-Keeps g = record {
    port = λ s c. (failure_same g s c).0;
    device = λ s c. (failure_same g s c).1;
    stopping = λ s c. (failure_same g s c).2;
  }

  pub poll-Keeps : (g : ℕ) (b : Bool) (now : ℕ) → Keeps kind (poll_health g b now)
  poll-Keeps g b now = record {
    port = λ s c. (poll_same g b now s c).0;
    device = λ s c. (poll_same g b now s c).1;
    stopping = λ s c. (poll_same g b now s c).2;
  }

  pub fire-Keeps : (number now : ℕ) → Keeps kind (fire_restart config host spawns number now)
  fire-Keeps number now = record {
    port = λ s c. (fire_same number now s c).0;
    device = λ s c. (fire_same number now s c).1;
    stopping = λ s c. (fire_same number now s c).2;
  }

  pub controller_kind-IsKind : IsKind kind
  unfolding halt teardown_processes
  controller_kind-IsKind = record {
    make_port = λ d p now. refl;
    make_device = λ d p now. refl;
    make_runs = λ d p now. refl;
    launches = λ number now. record {
      port = λ s c. (launch_same number now s c).0;
      device = λ s c. (launch_same number now s c).1;
      stopping = λ s c. (launch_same number now s c).2;
    };
    halts = λ s c. refl;
  }
