-- ===== src/Agent/Controllers/Lives.antt =====
-- After any events, each session object of the Controllers is alive with its own processes.
use nebula_clone.Prelude.{
  ℕ, Bool, List, [], ◌∷◌, Option, none, some, String, ◌≡◌, refl, sym, ap, arith, inl, inr,
  Option-cases,
}
use nebula_clone.Js.Table.{get, ℕ_key}
use nebula_clone.Agent.Processes.{
  Process, Children, sigkill, signal_process_tree, exit, no_children,
}
use nebula_clone.Agent.Fleet.{Supervisor, SessionKind, within, new_supervisor}
use nebula_clone.Agent.Fleet.Runs.{IsKept, synced, all_stopped}
use nebula_clone.Agent.Fleet.Owned.{
  AllOwn, Acts, set-Owns, within-AllOwn, cool-AllOwn, owned-IsKept,
}
use nebula_clone.Agent.Controllers.{
  Session, SupervisorConfig, Host, Event, syncs, stops_all, cools, exits, polls, restarts,
  escalates, handle_child_failure, fire_restart, poll_health, controller_kind, fail_child, step,
  run, started,
}
use nebula_clone.Agent.Controllers.Sessions.{failure-IsAlive}
use nebula_clone.Agent.Controllers.Launches.{fire-IsAlive, launch-IsAlive, fire_idle, fire_pending}
use nebula_clone.Agent.Controllers.Owned.{
  IsNumbered, HoldsBoth, signal-IsSame, failure_children, IsNumbered-same, both_same,
}
use nebula_clone.Agent.Controllers.Spawns.{
  IsOwner, poll-Acts, halt-Acts, launch_both, launch_keeps, launch_others,
}
use nebula_clone.Agent.Controllers.Exits.{exit-IsNumbered, exited_own, exited_other}

module _ (config : SupervisorConfig) (host : Host) (spawns : ℕ → Bool) where
  abbrev kind : SessionKind Session Children
  kind = controller_kind config host spawns

  abbrev Sound : Supervisor Session Children → Type 0
  Sound st = AllOwn IsNumbered IsOwner st

  launched-IsOwner :
      (number now : ℕ) (d : String) (port : ℕ) (c : Children)
      → IsNumbered c
      → IsOwner number
          (kind.launch number now (kind.make d port now) c).1
          (kind.launch number now (kind.make d port now) c).0
  launched-IsOwner number now d port c w = (
    launch-IsAlive config host spawns number now (kind.make d port now) c refl refl,
    launch_both config host spawns number now (kind.make d port now) c refl refl w,
  )

  launched-Acts :
      (number now : ℕ) (d : String) (port : ℕ)
      → Acts IsNumbered IsOwner number (λ s c. kind.launch number now (kind.make d port now) c)
  launched-Acts number now d port = record {
    keeps = λ s c w. launch_keeps config host spawns number now (kind.make d port now) c w;
    own = λ s c w h. launched-IsOwner number now d port c w;
    others = λ s c q t w ne h.
        (h.0, launch_others config host spawns number now (kind.make d port now) c q t w h.1);
  }

  fire_both :
      (number now : ℕ) (s : Session) (c : Children)
      → IsNumbered c
      → IsOwner number c s
      → HoldsBoth number
          (fire_restart config host spawns number now s c).1
          (fire_restart config host spawns number now s c).0
  fire_both number now s c w (inl (stops, a, b, idle), h) =
      rw (fire_idle config host spawns number now s c idle) h
  fire_both number now s c w (inr (runs, inl (a, b, t, idle)), h) =
      rw (fire_idle config host spawns number now s c idle) h
  fire_both number now s c w (inr (runs, inr (a, b, t, (d, pending, short))), h) =
      rw (fire_pending config host spawns number now s c d pending runs)
        (launch_both config host spawns number now (record s { restart_timer = none }) c a b w)

  fire-Acts :
      (number now : ℕ) → Acts IsNumbered IsOwner number (fire_restart config host spawns number now)
  fire-Acts number now = record {
    keeps = λ s c w.
        unfold fire_restart in
        ground (
          arith,
          w,
          launch_keeps config host spawns number now (record s { restart_timer = none }) c,
        );
    own = λ s c w h.
        (fire-IsAlive config host spawns number now s c h.0, fire_both number now s c w h);
    others = λ s c q t w ne h. (
      h.0,
      unfold fire_restart in
          ground (
            arith,
            h,
            launch_others config host spawns number now (record s { restart_timer = none }) c q t w
                h.1,
          ),
    );
  }

  kind-IsKept : IsKept kind Sound
  kind-IsKept = owned-IsKept IsNumbered IsOwner kind launched-IsOwner launched-Acts halt-Acts

  fail_child-Sound :
      (n : ℕ) (p : Process) (st : Supervisor Session Children)
      → get n st.children.processes ≡ some p
      → Sound st
      → Sound (
          within p.session
            (handle_child_failure p.generation)
            (record st { children = exit n st.children }))
  unfolding within
  fail_child-Sound n p st there h = elim (Option-cases (get p.session st.objects)) [
    | inl e ↦ rw (e) (record {
      sound = exit-IsNumbered n st.children p there h.sound;
      each = λ r s e'.
          exited_other n st.children p there r s
            (λ i. absurd (ground (arith, e, e', ap (λ k. get k st.objects) i))) (h.each r s e');
    })
    | inr (s, e) ↦ rw (e) (
        let mine = h.each p.session s e in
        let same = failure_children p.generation s (exit n st.children) in
        let after = (handle_child_failure p.generation s (exit n st.children)).1 in
        set-Owns IsNumbered IsOwner p.session
          (handle_child_failure p.generation s (exit n st.children)).0 st.objects after
          (IsNumbered-same (exit n st.children) after same
            (exit-IsNumbered n st.children p there h.sound))
          (
            failure-IsAlive p.generation s (exit n st.children) mine.0,
            exited_own n st.children p there s mine,
          )
          (λ q t ne e'.
            let other = exited_other n st.children p there q t (λ i. ne (sym i)) (h.each q t e') in
            (other.0, both_same q (exit n st.children) after t same other.1)))
  ]

  exits-Sound :
      (n : ℕ) (o : Option Process) (st : Supervisor Session Children)
      → get n st.children.processes ≡ o
      → Sound st
      → Sound (fail_child config host spawns o (record st { children = exit n st.children }))
  unfolding fail_child exit
  exits-Sound n none st e h = rw (exit, e) h
  exits-Sound n (some p) st e h = fail_child-Sound n p st e h

  step-Sound :
      (e : Event) (st : Supervisor Session Children)
      → Sound st
      → Sound (step config host spawns e st)
  unfolding step
  step-Sound (syncs now ds) st h = synced kind Sound kind-IsKept now ds st h
  step-Sound stops_all st h = all_stopped kind Sound kind-IsKept st h
  step-Sound (cools p) st h = cool-AllOwn IsNumbered IsOwner p st h
  step-Sound (exits n) st h = exits-Sound n (get n st.children.processes) st refl h
  step-Sound (polls number g b now) st h =
      within-AllOwn IsNumbered IsOwner number (poll_health g b now) st (poll-Acts number g b now) h
  step-Sound (restarts number now) st h =
      within-AllOwn IsNumbered IsOwner number (fire_restart config host spawns number now) st
        (fire-Acts number now) h
  step-Sound (escalates n) st h =
      let same = signal-IsSame sigkill n st.children in
      let after = signal_process_tree sigkill n st.children in
      record {
        sound = IsNumbered-same st.children after same h.sound;
        each = λ r s e. ((h.each r s e).0, both_same r st.children after s same (h.each r s e).1);
      }

  run-Sound :
      (es : List Event) (st : Supervisor Session Children)
      → Sound st
      → Sound (run config host spawns es st)
  unfolding run
  run-Sound [] st h = h
  run-Sound (e ∷ es) st h = run-Sound es (step config host spawns e st) (step-Sound e st h)

  pub started_owns : (es : List Event) → AllOwn IsNumbered IsOwner (started config host spawns es)
  unfolding get
  started_owns es =
      run-Sound es (new_supervisor no_children)
        (record { sound = record { fresh = λ m l. refl }; each = λ r s e. absurd (grind arith) })
