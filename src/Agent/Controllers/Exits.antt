-- ===== src/Agent/Controllers/Exits.antt =====
-- controller-supervisor.ts: the end of a process, for the session that it belongs to and for the others.
use nebula_clone.Prelude.{
  ℕ, true, false, ◌==◌, Option, none, some, String, ◌≡◌, ◌≢◌, sym, ap, ◌∙◌, arith, inl, inr,
  Bool-cases,
}
use nebula_clone.Js.Table.{get, get-set_other, ℕ_key}
use nebula_clone.Agent.Processes.{Process, Children, exit}
use nebula_clone.Agent.Controllers.{Session, handle_child_failure, schedule_restart}
use nebula_clone.Agent.Controllers.Sessions.{IsWaiting, schedule_waits}
use nebula_clone.Agent.Controllers.Owned.{IsNumbered, Holds, HoldsBoth, failure_both}
use nebula_clone.Agent.Controllers.Spawns.{IsOwner, idle_both}

-- The end of a process changes nothing for another session or another generation.
module _ (n : ℕ) (c : Children) (p : Process) (there : get n c.processes ≡ some p) where
  get-exit : (m : ℕ) → m ≢ n → get m (exit n c).processes ≡ get m c.processes
  unfolding exit
  get-exit m ne = rw (exit, there) (get-set_other n m _ c.processes (λ i. ne (sym i)))

  pub exit-IsNumbered : IsNumbered c → IsNumbered (exit n c)
  unfolding exit
  exit-IsNumbered w =
      rw (exit, there)
        (record {
          fresh = λ m l.
              get-set_other n m _ c.processes
                (λ i. absurd (ground (arith, there, w.fresh m l, ap (λ k. get k c.processes) i)))
              ∙ w.fresh m l;
        })

  exit-Holds :
      (command : String) (r g : ℕ) (o : Option ℕ)
      → ((p.session ≡ r) → p.generation ≢ g)
      → Holds command r g c o
      → Holds command r g (exit n c) o
  exit-Holds command r g none other h = tt
  exit-Holds command r g (some m) other h = record {
    process = h.process;
    there =
        get-exit m (λ i.
          let same : h.process ≡ p =
            ground (arith, there, h.there, ap (λ k. get k c.processes) i) in
          other (ap (λ x. x.session) (sym same) ∙ h.of_session)
            (ap (λ x. x.generation) (sym same) ∙ h.of_generation))
        ∙ h.there;
    is_command = h.is_command;
    of_session = h.of_session;
    of_generation = h.of_generation;
    is_alive = h.is_alive;
  }

  exit_both :
      (r : ℕ) (s : Session)
      → ((p.session ≡ r) → p.generation ≢ s.generation)
      → HoldsBoth r c s
      → HoldsBoth r (exit n c) s
  exit_both r s other (runner, proxy) = (
    exit-Holds _ r s.generation s.runner other runner,
    exit-Holds _ r s.generation s.proxy other proxy,
  )

  pub exited_other : (r : ℕ) (s : Session) → p.session ≢ r → IsOwner r c s → IsOwner r (exit n c) s
  exited_other r s ne (lives, both) = (lives, exit_both r s (λ i. absurd (ne i)) both)

  failure_scheduled :
      (s : Session)
      → s.is_stopping ≡ false
      → (s.generation == p.generation) ≡ true
      → handle_child_failure p.generation s (exit n c) ≡ schedule_restart s (exit n c)
  unfolding handle_child_failure
  failure_scheduled s runs current = ground (arith, runs, current)

  -- The session that the process belongs to, after the handler.
  pub exited_own :
      (s : Session)
      → IsOwner p.session c s
      → HoldsBoth p.session
          (handle_child_failure p.generation s (exit n c)).1
          (handle_child_failure p.generation s (exit n c)).0
  exited_own s (inl (stops, a, b, t), h) =
      failure_both p.session p.generation s (exit n c) (idle_both p.session (exit n c) s a b)
  exited_own s (inr (runs, inr (a, b, t, d)), h) =
      failure_both p.session p.generation s (exit n c) (idle_both p.session (exit n c) s a b)
  exited_own s (inr (runs, inl (a, b, t, idle)), h) =
      elim (Bool-cases (s.generation == p.generation)) [
        | inr old ↦
            failure_both p.session p.generation s (exit n c)
              (exit_both p.session s (λ i j. absurd (ground (arith, old, j))) h)
        | inl current ↦
            let waits : IsWaiting (schedule_restart s (exit n c)).0 =
              schedule_waits s (exit n c) runs idle in
            rw (failure_scheduled s runs current) (
              idle_both p.session (schedule_restart s (exit n c)).1
                (schedule_restart s (exit n c)).0 waits.0 waits.1)
      ]
