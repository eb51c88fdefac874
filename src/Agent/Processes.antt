-- ===== src/Agent/Processes.antt =====
-- packages/agent/src/process-tree.ts and the processes of controller-supervisor.ts: each call of
-- `spawnProcess` has a number, and whether it returns or throws is an argument of what starts
-- processes. `hasExited` is set by the `exit` and `error` events.
pub mod Awaited
use nebula_clone.Prelude.{
  ℕ, zero, suc, ◌+◌, Bool, true, false, not, ◌||◌, List, [], ◌∷◌, ◌++◌, Option, none, some, String,
  filter, leb, if◌then◌else◌,
}
use nebula_clone.Js.Table.{get, set, ℕ_key}

pub data Signal : Type 0 where
  sigterm sigkill : Signal

pub record Process : Type 0 where
  pub command : String
  pub args : List String
  pub log_path : String
  pub session : ℕ
  pub generation : ℕ
  pub has_exited : Bool

pub record Children : Type 0 where
  pub calls : ℕ
  pub processes : List (ℕ × Process)
  pub terminating : List ℕ
  pub signals : List (ℕ × Signal)

abbrev pub no_children : Children
no_children = record { calls = 0; processes = []; terminating = []; signals = [] }

abbrev exited_as : Option Process → Bool
exited_as none = true
exited_as (some p) = p.has_exited

unfoldable pub has_exited : ℕ → Children → Bool
has_exited n c = exited_as (get n c.processes)

unfoldable pub signal_process_tree : Signal → ℕ → Children → Children
signal_process_tree signal n c =
    if has_exited n c then c else record c { signals = c.signals ++ (n, signal) ∷ [] }

-- A call of `spawnProcess`: `none` where it throws.
unfoldable pub track : (ℕ → Bool) → Process → Children → Option ℕ × Children
track spawns p c =
    if spawns c.calls
    then (some c.calls, record c { calls = c.calls + 1; processes = set c.calls p c.processes })
    else (none, record c { calls = c.calls + 1 })

-- The round of `teardownProcesses` for one process, if there is one.
unfoldable pub terminate : Option ℕ → Children → Children
terminate none c = c
terminate (some n) c =
    signal_process_tree sigterm n (record c { terminating = c.terminating ++ n ∷ [] })

set_exited : Option Process → ℕ → Children → Children
set_exited none n c = c
set_exited (some p) n c = record c {
  processes = set n (record p { has_exited = true }) c.processes;
}

-- The `exit` or `error` event of a process.
unfoldable pub exit : ℕ → Children → Children
unfolding set_exited
exit n c = set_exited (get n c.processes) n c
