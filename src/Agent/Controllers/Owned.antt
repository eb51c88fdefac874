-- ===== src/Agent/Controllers/Owned.antt =====
-- The processes of a Controller session: the callbacks keep the processes that it names alive and its own.
use nebula_clone.Prelude.{
  ℕ, ◌+◌, ◌≤◌, Bool, false, not, ◌||◌, ◌==◌, Option, none, some, String, is_none, ◌≡◌, ◌≢◌, refl,
  ap, ◌∙◌, subst, arith, inl, inr, Bool-cases, Option-cases,
}
use nebula_clone.Js.Table.{get, get-set_same, get-set_other, ℕ_key}
use nebula_clone.Agent.Processes.{
  Process, Children, Signal, sigterm, signal_process_tree, track, terminate,
}
use nebula_clone.Agent.Controllers.Sessions.{IsRunning}
use nebula_clone.Agent.Controllers.{
  Session, teardown_processes, schedule_restart, handle_child_failure, poll_health,
}

-- The number of a process is not in use before its spawn.
pub record IsNumbered (c : Children) : Type 0 where
  pub fresh : (m : ℕ) → c.calls ≤ m → get m c.processes ≡ none

-- A process that a session started, of its generation, that has not exited.
pub record IsChild (command : String) (number generation : ℕ) (c : Children) (n : ℕ) : Type 0 where
  pub process : Process
  pub there : get n c.processes ≡ some process
  pub is_command : process.command ≡ command
  pub of_session : process.session ≡ number
  pub of_generation : process.generation ≡ generation
  pub is_alive : process.has_exited ≡ false

-- The same for the process that a session names, if it names one.
abbrev pub Holds : String → ℕ → ℕ → Children → Option ℕ → Type 0
Holds command number generation c none = Unit {0}
Holds command number generation c (some n) = IsChild command number generation c n

abbrev pub HoldsBoth : ℕ → Children → Session → Type 0
HoldsBoth number c s =
    Holds "xcodebuild" number s.generation c s.runner × Holds "iproxy" number s.generation c s.proxy

-- The runner and the proxy of the session run, and are polled for the generation of the session.
pub record IsUp (number : ℕ) (c : Children) (s : Session) : Type 0 where
  pub runner : ℕ
  pub proxy : ℕ
  pub names_runner : s.runner ≡ some runner
  pub names_proxy : s.proxy ≡ some proxy
  pub runner_runs : IsChild "xcodebuild" number s.generation c runner
  pub proxy_runs : IsChild "iproxy" number s.generation c proxy
  pub is_polled : s.health_timer ≡ some s.generation
  pub no_restart : s.restart_timer ≡ none

held-IsChild :
    (command : String) (r g : ℕ) (c : Children) (o : Option ℕ) (n : ℕ)
    → o ≡ some n
    → Holds command r g c o
    → IsChild command r g c n
held-IsChild command r g c o n e h = subst (Holds command r g c) e h

pub up : (r : ℕ) (c : Children) (s : Session) → IsRunning s → HoldsBoth r c s → IsUp r c s
up r c s (a, b, polled, idle) (runner, proxy) = elim (Option-cases s.runner) [
  | inl e ↦ absurd (ground (arith, a, e))
  | inr (n, e) ↦ elim (Option-cases s.proxy) [
    | inl e' ↦ absurd (ground (arith, b, e'))
    | inr (m, e') ↦ record {
      runner = n;
      proxy = m;
      names_runner = e;
      names_proxy = e';
      runner_runs = held-IsChild _ r s.generation c s.runner n e runner;
      proxy_runs = held-IsChild _ r s.generation c s.proxy m e' proxy;
      is_polled = polled;
      no_restart = idle;
    }
  ]
]

abbrev pub IsSame : Children → Children → Type 0
IsSame c d = (d.processes ≡ c.processes) × (d.calls ≡ c.calls)

pub signal-IsSame : (s : Signal) (n : ℕ) (c : Children) → IsSame c (signal_process_tree s n c)
unfolding signal_process_tree
signal-IsSame s n c = ground arith

terminate-IsSame : (o : Option ℕ) (c : Children) → IsSame c (terminate o c)
unfolding terminate
terminate-IsSame none c = (refl, refl)
terminate-IsSame (some n) c = signal-IsSame sigterm n (record c { terminating = _ })

pub teardown-IsSame : (s : Session) (c : Children) → IsSame c (teardown_processes s c).1
unfolding teardown_processes
teardown-IsSame s c =
    let (p, n) = terminate-IsSame s.runner c in
    let (q, m) = terminate-IsSame s.proxy (terminate s.runner c) in (q ∙ p, m ∙ n)

pub schedule_children : (s : Session) (c : Children) → IsSame c (schedule_restart s c).1
unfolding schedule_restart
schedule_children s c = elim (Bool-cases (s.is_stopping || not (is_none s.restart_timer))) [
  | inl e ↦ rw (e) (refl, refl)
  | inr e ↦ rw (e) (teardown-IsSame s c)
]

pub failure_children :
    (g : ℕ) (s : Session) (c : Children) → IsSame c (handle_child_failure g s c).1
unfolding handle_child_failure
failure_children g s c = ground (arith, schedule_children s c)

pub poll_children :
    (g : ℕ) (b : Bool) (now : ℕ) (s : Session) (c : Children) → IsSame c (poll_health g b now s c).1
unfolding poll_health
poll_children g b now s c =
    ground (arith, schedule_children (record s { health_fail_count = s.health_fail_count + 1 }) c)

pub IsNumbered-same : (c d : Children) → IsSame c d → IsNumbered c → IsNumbered d
IsNumbered-same c d (p, n) h = record {
  fresh = λ m l. ap (get m) p ∙ h.fresh m (subst (λ k. k ≤ m) n l);
}

Holds-same :
    (command : String) (r g : ℕ) (c d : Children) (o : Option ℕ)
    → IsSame c d
    → Holds command r g c o
    → Holds command r g d o
Holds-same command r g c d none e h = tt
Holds-same command r g c d (some n) e h = record {
  process = h.process;
  there = ap (get n) e.0 ∙ h.there;
  is_command = h.is_command;
  of_session = h.of_session;
  of_generation = h.of_generation;
  is_alive = h.is_alive;
}

pub both_same :
    (r : ℕ) (c d : Children) (s : Session) → IsSame c d → HoldsBoth r c s → HoldsBoth r d s
both_same r c d s e (runner, proxy) = (
  Holds-same _ r s.generation c d s.runner e runner,
  Holds-same _ r s.generation c d s.proxy e proxy,
)

-- A spawn has a number of its own.
pub track-IsNumbered :
    (spawns : ℕ → Bool) (p : Process) (c : Children)
    → IsNumbered c
    → IsNumbered (track spawns p c).1
unfolding track
track-IsNumbered spawns p c h = elim (Bool-cases (spawns c.calls)) [
  | inl e ↦ rw (e) (record {
    fresh = λ m l.
        get-set_other c.calls m p c.processes (λ i. absurd (omega (arith, i, l)))
        ∙ h.fresh m (omega (arith, l));
  })
  | inr e ↦ rw (e) (record { fresh = λ m l. h.fresh m (omega (arith, l)) })
]

pub track-Holds :
    (spawns : ℕ → Bool) (p : Process) (c : Children) (command : String) (r g : ℕ) (o : Option ℕ)
    → IsNumbered c
    → Holds command r g c o
    → Holds command r g (track spawns p c).1 o
track-Holds spawns p c command r g none w h = tt
track-Holds spawns p c command r g (some n) w h = record {
  process = h.process;
  there =
      let other : c.calls ≢ n =
        λ i. absurd (ground (arith, h.there, w.fresh n (omega (arith, i)))) in
      unfold track in
      elim (Bool-cases (spawns c.calls)) [
        | inl e ↦ rw (e) (get-set_other c.calls n p c.processes other ∙ h.there)
        | inr e ↦ rw (e) h.there
      ];
  is_command = h.is_command;
  of_session = h.of_session;
  of_generation = h.of_generation;
  is_alive = h.is_alive;
}

pub track_own :
    (spawns : ℕ → Bool) (p : Process) (c : Children) (command : String) (r g : ℕ)
    → p.command ≡ command
    → p.session ≡ r
    → p.generation ≡ g
    → p.has_exited ≡ false
    → Holds command r g (track spawns p c).1 (track spawns p c).0
unfolding track
track_own spawns p c command r g k s t x = elim (Bool-cases (spawns c.calls)) [
  | inl e ↦ rw (e) (record {
    process = p;
    there = get-set_same p c.processes refl;
    is_command = k;
    of_session = s;
    of_generation = t;
    is_alive = x;
  })
  | inr e ↦ rw (e) tt
]

-- A restart names no process, or leaves the session as it is.
pub schedule_both :
    (r : ℕ) (s : Session) (c : Children)
    → HoldsBoth r c s
    → HoldsBoth r (schedule_restart s c).1 (schedule_restart s c).0
unfolding schedule_restart teardown_processes
schedule_both r s c h = elim (Bool-cases (s.is_stopping || not (is_none s.restart_timer))) [
  | inl e ↦ rw (e) h
  | inr e ↦ rw (e) (tt, tt)
]

pub failure_both :
    (r g : ℕ) (s : Session) (c : Children)
    → HoldsBoth r c s
    → HoldsBoth r (handle_child_failure g s c).1 (handle_child_failure g s c).0
unfolding handle_child_failure
failure_both r g s c h = elim (Bool-cases (s.is_stopping || not (s.generation == g))) [
  | inl e ↦ rw (e) h
  | inr e ↦ rw (e) (schedule_both r s c h)
]
