-- ===== src/Agent/Executor/Ghosts.antt =====
-- command-executor.ts: which commands reach a controller after their occupation has ended.
use nebula_clone.Prelude.{
  ℕ, Bool, true, false, not, ◌&&◌, ◌||◌, List, [], ◌∷◌, ◌++◌, Option, none, some, String, is_text,
  ◌===◌, ◌≡◌, refl, ap, ◌∙◌, arith, All,
}
use nebula_clone.Js.Table.{get, String_key, get-set, get-delete}
use nebula_clone.Agent.Executor.Queues.{IsOrderly, step-IsOrderly}
use nebula_clone.Shared.Types.{CommandOutcome}
use nebula_clone.Agent.Executor.{
  Command, Queued, CommandExecutor, Effect, answers, sends, or_empty, or_zero, resolved, execute,
  execute_at, turn, turn_of, finish, finish_of, revoke_occupation, revoke_all_occupations, Call,
  executes, turns, finishes, revokes, revokes_all, step, run,
}

-- Whether a command of an occupant is sent to the controller of a device.
abbrev pub is_sent : String → String → List Effect → Bool
is_sent device occupant [] = false
is_sent device occupant (answers r o ∷ acts) = is_sent device occupant acts
is_sent device occupant (sends url c ∷ acts) =
    c.device_id === device && c.occupant_id === occupant || is_sent device occupant acts

-- A call that is not a new command of that occupant for that device.
abbrev pub is_other : String → String → Call → Bool
is_other device occupant (executes resolver c now) =
    not (c.device_id === device && c.occupant_id === occupant)
is_other device occupant _ = true

occupation-execute_at :
    (url : Option String) (ready : Bool) (c : Command) (now depth : ℕ) (s : CommandExecutor)
    (device occupant : String)
    → (c.device_id === device && c.occupant_id === occupant) ≡ false
    → is_text (get device s.occupations) occupant ≡ false
    → is_text (get device (execute_at url ready c now depth s).0.occupations) occupant ≡ false
occupation-execute_at none ready c now depth s device occupant h e = e
occupation-execute_at (some url) ready c now depth s device occupant h e =
    ground (arith, h, e, get-set c.device_id device c.occupant_id s.occupations)

occupation-turn_of :
    (d : String) (now : ℕ) (q : List Queued) (s : CommandExecutor)
    → (turn_of d now q s).0.occupations ≡ s.occupations
occupation-turn_of d now [] s = refl
occupation-turn_of d now (q ∷ rest) s = ground arith

occupation-finish_of :
    (d : String) (outcome : CommandOutcome) (q : List Queued) (s : CommandExecutor)
    → (finish_of d outcome q s).0.occupations ≡ s.occupations
occupation-finish_of d outcome [] s = refl
occupation-finish_of d outcome (q ∷ rest) s = ground arith

-- An occupation that is not the current one of a device stays so until a command of it arrives.
pub occupation-step :
    (device occupant : String) (c : Call) (s : CommandExecutor)
    → is_other device occupant c ≡ true
    → is_text (get device s.occupations) occupant ≡ false
    → is_text (get device (step c s).0.occupations) occupant ≡ false
unfolding step execute turn finish revoke_occupation revoke_all_occupations get
occupation-step device occupant (executes resolver c now) s h e =
    occupation-execute_at (resolved (resolver.resolve c.device_id)) (resolver.is_ready c.device_id)
      c now (or_zero (get c.device_id s.queue_depths)) s device occupant (ground (arith, h)) e
occupation-step device occupant (turns d now) s h e =
    ap (λ m. is_text (get device m) occupant)
      (occupation-turn_of d now (or_empty (get d s.device_queues)) s)
    ∙ e
occupation-step device occupant (finishes d outcome) s h e =
    ap (λ m. is_text (get device m) occupant)
      (occupation-finish_of d outcome (or_empty (get d s.device_queues)) s)
    ∙ e
occupation-step device occupant (revokes d o) s h e =
    ground (arith, e, get-delete d device s.occupations)
occupation-step device occupant revokes_all s h e = refl

sent-turn_of :
    (d : String) (now : ℕ) (q : List Queued) (s : CommandExecutor) (device occupant : String)
    → All (λ (q : Queued). q.command.device_id ≡ d) q
    → is_text (get device s.occupations) occupant ≡ false
    → is_sent device occupant (turn_of d now q s).1 ≡ false
sent-turn_of d now [] s device occupant a e = refl
sent-turn_of d now (q ∷ rest) s device occupant a e =
    ground (arith, a, e, ap (λ k. get k s.occupations) {x = d} {y = device})

sent-finish_of :
    (d : String) (outcome : CommandOutcome) (q : List Queued) (s : CommandExecutor)
    (device occupant : String)
    → is_sent device occupant (finish_of d outcome q s).1 ≡ false
sent-finish_of d outcome [] s device occupant = refl
sent-finish_of d outcome (q ∷ rest) s device occupant = ground arith

sent-execute_at :
    (url : Option String) (ready : Bool) (c : Command) (now depth : ℕ) (s : CommandExecutor)
    (device occupant : String)
    → is_sent device occupant (execute_at url ready c now depth s).1 ≡ false
sent-execute_at none ready c now depth s device occupant = refl
sent-execute_at (some url) ready c now depth s device occupant = ground arith

-- A command is sent to the controller only if its occupation is the current one of the device.
pub sent-step :
    (device occupant : String) (c : Call) (s : CommandExecutor)
    → IsOrderly s
    → is_text (get device s.occupations) occupant ≡ false
    → is_sent device occupant (step c s).1 ≡ false
unfolding step execute turn finish
sent-step device occupant (executes resolver c now) s orderly e =
    sent-execute_at (resolved (resolver.resolve c.device_id)) (resolver.is_ready c.device_id) c now
      (or_zero (get c.device_id s.queue_depths)) s device occupant
sent-step device occupant (turns d now) s orderly e =
    sent-turn_of d now (or_empty (get d s.device_queues)) s device occupant (orderly d).filed e
sent-step device occupant (finishes d outcome) s orderly e =
    sent-finish_of d outcome (or_empty (get d s.device_queues)) s device occupant
sent-step device occupant (revokes d o) s orderly e = refl
sent-step device occupant revokes_all s orderly e = refl

sent-append :
    (device occupant : String) (xs ys : List Effect)
    → is_sent device occupant (xs ++ ys)
      ≡ (is_sent device occupant xs || is_sent device occupant ys)
sent-append device occupant [] ys = refl
sent-append device occupant (answers r o ∷ xs) ys = sent-append device occupant xs ys
sent-append device occupant (sends url c ∷ xs) ys =
    ground (arith, sent-append device occupant xs ys)

-- No ghost input: once an occupation is not the current one of a device (it was revoked, or a command
-- of another occupant came), none of its commands is sent to the controller, however many of them wait,
-- until a command of it arrives anew.
pub run_no_ghost :
    (device occupant : String) (cs : List Call) (s : CommandExecutor)
    → IsOrderly s
    → All (λ c. is_other device occupant c ≡ true) cs
    → is_text (get device s.occupations) occupant ≡ false
    → is_sent device occupant (run cs s).1 ≡ false
unfolding run
run_no_ghost device occupant [] s orderly others e = refl
run_no_ghost device occupant (c ∷ cs) s orderly others e = ground (
  arith,
  sent-append device occupant (step c s).1 (run cs (step c s).0).1,
  sent-step device occupant c s orderly e,
  run_no_ghost device occupant cs (step c s).0 (step-IsOrderly c s orderly) others.1
      (occupation-step device occupant c s others.0 e),
)
