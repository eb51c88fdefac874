-- ===== src/Agent/Controllers/Spawns.antt =====
-- After any events, the processes that the sessions of the Controllers name run and are their own.
use nebula_clone.Prelude.{ℕ, ◌+◌, Bool, true, false, Option, none, some, ◌≡◌, refl, arith, inl}
use nebula_clone.Js.Table.{ℕ_key}
use nebula_clone.Agent.Processes.{Process, Children, track}
use nebula_clone.Agent.Fleet.Owned.{Acts}
use nebula_clone.Agent.Controllers.{
  Session, SupervisorConfig, Host, handle_child_failure, poll_health, halt, teardown_processes,
  launch_processes, with_runner, with_proxy,
}
use nebula_clone.Agent.Controllers.Sessions.{IsAlive, failure-IsAlive, poll-IsAlive}
use nebula_clone.Agent.Controllers.Owned.{
  IsNumbered, Holds, HoldsBoth, IsSame, teardown-IsSame, schedule_children, failure_children,
  poll_children, IsNumbered-same, both_same, track-IsNumbered, track-Holds, track_own,
  schedule_both, failure_both,
}

-- A session between events, and its processes.
abbrev pub IsOwner : ℕ → Children → Session → Type 0
IsOwner r c s = IsAlive s × HoldsBoth r c s

pub idle_both :
    (r : ℕ) (c : Children) (s : Session) → s.runner ≡ none → s.proxy ≡ none → HoldsBoth r c s
idle_both r c s a b = rw (a) (rw (b) (tt, tt))

poll_both :
    (r g : ℕ) (b : Bool) (now : ℕ) (s : Session) (c : Children)
    → HoldsBoth r c s
    → HoldsBoth r (poll_health g b now s c).1 (poll_health g b now s c).0
unfolding poll_health
poll_both r g b now s c h =
    ground
      (arith, h, schedule_both r (record s { health_fail_count = s.health_fail_count + 1 }) c h)

-- A callback that leaves the processes as they are.
same-Acts :
    (r : ℕ) (f : Session → Children → Session × Children)
    → ((s : Session) (c : Children) → IsSame c (f s c).1)
    → ((s : Session) (c : Children) → IsOwner r c s → IsOwner r (f s c).1 (f s c).0)
    → Acts IsNumbered IsOwner r f
same-Acts r f same own = record {
  keeps = λ s c w. IsNumbered-same c (f s c).1 (same s c) w;
  own = λ s c w h. own s c h;
  others = λ s c q t w ne h. (h.0, both_same q c (f s c).1 t (same s c) h.1);
}

pub failure-Acts : (r g : ℕ) → Acts IsNumbered IsOwner r (handle_child_failure g)
failure-Acts r g =
    same-Acts r (handle_child_failure g) (failure_children g)
      (λ s c h. (failure-IsAlive g s c h.0, failure_both r g s c h.1))

pub poll-Acts : (r g : ℕ) (b : Bool) (now : ℕ) → Acts IsNumbered IsOwner r (poll_health g b now)
poll-Acts r g b now =
    same-Acts r (poll_health g b now) (poll_children g b now)
      (λ s c h. (poll-IsAlive g b now s c h.0, poll_both r g b now s c h.1))

pub halt-Acts : (r : ℕ) → Acts IsNumbered IsOwner r halt
unfolding halt teardown_processes
halt-Acts r =
    same-Acts r halt
      (λ s c. teardown-IsSame (record s { is_stopping = true; restart_timer = none }) c)
      (λ s c h. (inl (refl, refl, refl, refl), (tt, tt)))

module _ (config : SupervisorConfig) (host : Host) (spawns : ℕ → Bool) where
  with_proxy_children :
      (tracked : Option ℕ × Children) (s : Session)
      → IsSame tracked.1 (with_proxy config host spawns tracked s).1
  unfolding with_proxy
  with_proxy_children (none, c) s = schedule_children s c
  with_proxy_children (some n, c) s = (refl, refl)

  with_runner_keeps :
      (tracked : Option ℕ × Children) (number : ℕ) (s : Session)
      → IsNumbered tracked.1
      → IsNumbered (with_runner config host spawns tracked number s).1
  unfolding with_runner
  with_runner_keeps (none, c) number s w = IsNumbered-same c _ (schedule_children s c) w
  with_runner_keeps (some n, c) number s w =
      IsNumbered-same _ _ (with_proxy_children (track spawns _ c) (record s { runner = some n }))
        (track-IsNumbered spawns _ c w)

  track_both :
      (p : Process) (c : Children) (q : ℕ) (t : Session)
      → IsNumbered c
      → HoldsBoth q c t
      → HoldsBoth q (track spawns p c).1 t
  track_both p c q t w h = (
    track-Holds spawns p c _ q t.generation t.runner w h.0,
    track-Holds spawns p c _ q t.generation t.proxy w h.1,
  )

  with_runner_others :
      (tracked : Option ℕ × Children) (number : ℕ) (s : Session) (q : ℕ) (t : Session)
      → IsNumbered tracked.1
      → HoldsBoth q tracked.1 t
      → HoldsBoth q (with_runner config host spawns tracked number s).1 t
  unfolding with_runner
  with_runner_others (none, c) number s q t w h = both_same q c _ t (schedule_children s c) h
  with_runner_others (some n, c) number s q t w h =
      both_same q _ _ t (with_proxy_children (track spawns _ c) (record s { runner = some n }))
        (track_both _ c q t w h)

  with_proxy_both :
      (tracked : Option ℕ × Children) (r : ℕ) (s : Session)
      → Holds "xcodebuild" r s.generation tracked.1 s.runner
      → Holds "iproxy" r s.generation tracked.1 tracked.0
      → s.proxy ≡ none
      → HoldsBoth r
          (with_proxy config host spawns tracked s).1
          (with_proxy config host spawns tracked s).0
  unfolding with_proxy
  with_proxy_both (none, c) r s runner proxy idle = schedule_both r s c (runner, rw (idle) tt)
  with_proxy_both (some n, c) r s runner proxy idle = (runner, proxy)

  with_runner_both :
      (tracked : Option ℕ × Children) (number : ℕ) (s : Session)
      → Holds "xcodebuild" number s.generation tracked.1 tracked.0
      → s.runner ≡ none
      → s.proxy ≡ none
      → IsNumbered tracked.1
      → HoldsBoth number
          (with_runner config host spawns tracked number s).1
          (with_runner config host spawns tracked number s).0
  unfolding with_runner
  with_runner_both (none, c) number s h a b w = schedule_both number s c (idle_both number c s a b)
  with_runner_both (some n, c) number s h a b w =
      with_proxy_both (track spawns _ c) number (record s { runner = some n })
        (track-Holds spawns _ c "xcodebuild" number s.generation (some n) w h)
        (track_own spawns _ c "iproxy" number s.generation refl refl refl refl) b

  pub launch_both :
      (number now : ℕ) (s : Session) (c : Children)
      → s.runner ≡ none
      → s.proxy ≡ none
      → IsNumbered c
      → HoldsBoth number
          (launch_processes config host spawns number now s c).1
          (launch_processes config host spawns number now s c).0
  unfolding launch_processes
  launch_both number now s c a b w =
      with_runner_both (track spawns _ c) number
        (record s {
          is_ready = false;
          health_fail_count = 0;
          generation = s.generation + 1;
          launched_at_ms = now;
        })
        (track_own spawns _ c "xcodebuild" number (s.generation + 1) refl refl refl refl) a b
        (track-IsNumbered spawns _ c w)

  pub launch_keeps :
      (number now : ℕ) (s : Session) (c : Children)
      → IsNumbered c
      → IsNumbered (launch_processes config host spawns number now s c).1
  unfolding launch_processes
  launch_keeps number now s c w =
      with_runner_keeps (track spawns _ c) number _ (track-IsNumbered spawns _ c w)

  pub launch_others :
      (number now : ℕ) (s : Session) (c : Children) (q : ℕ) (t : Session)
      → IsNumbered c
      → HoldsBoth q c t
      → HoldsBoth q (launch_processes config host spawns number now s c).1 t
  unfolding launch_processes
  launch_others number now s c q t w h =
      with_runner_others (track spawns _ c) number _ q t (track-IsNumbered spawns _ c w)
        (track_both _ c q t w h)
