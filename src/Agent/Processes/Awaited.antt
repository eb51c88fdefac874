-- ===== src/Agent/Processes/Awaited.antt =====
-- packages/agent/src/controller-supervisor.ts: `awaitTermination`, which waits for the processes that
-- were told to end. The clock at each test of the loop, and whether a process has exited at each round,
-- are arguments.
use nebula_clone.Prelude.{
  ℕ, zero, suc, ◌+◌, ◌*◌, ◌≤◌, ◌<◌, Bool, true, false, not, List, [], ◌∷◌, Option, none, some, any,
  filter, ltb, ◌==◌, if◌then◌else◌, ◌≡◌, ◌⊎◌, subst, arith, inl, inr, Bool-cases, All, dec_lt,
}

abbrev pub is_empty : List ℕ → Bool
is_empty [] = true
is_empty (n ∷ ns) = false

-- How the wait ends: the processes that are left, and those that get SIGKILL.
pub record Ended : Type 0 where
  pub left : List ℕ
  pub killed : List ℕ

module _ (clock : ℕ → ℕ) (has_exited : ℕ → ℕ → Bool) where
  abbrev running : ℕ → List ℕ → List ℕ
  running k ns = filter (λ n. not (has_exited k n)) ns

  unfoldable pub wait : ℕ → ℕ → ℕ → List ℕ → Option Ended
  wait zero deadline k terminating = none
  wait (suc fuel) deadline k terminating =
      let left = running k terminating in
      let rest = wait fuel deadline (k + 1) left in
      if ltb (clock k) deadline
      then if is_empty left then some (record { left = []; killed = [] }) else rest
      else some (record { left = terminating; killed = left })

  unfoldable pub await_termination : ℕ → ℕ → List ℕ → Option Ended
  await_termination fuel max_wait_ms terminating = wait fuel (clock 0 + max_wait_ms) 0 terminating

  -- A process has exited by some round, or is killed.
  abbrev pub IsDone : List ℕ → ℕ → Type 0
  IsDone killed n = ((k : ℕ) × (has_exited k n ≡ true)) ⊎ (any (λ m. m == n) killed ≡ true)

  none_left : (k : ℕ) (ns killed : List ℕ) → is_empty (running k ns) ≡ true → All (IsDone killed) ns
  none_left k [] killed e = tt
  none_left k (n ∷ ns) killed e = elim (Bool-cases (has_exited k n)) [
    | inl gone ↦ (inl (k, gone), none_left k ns killed (ground (arith, e, gone)))
    | inr runs ↦ absurd (ground (arith, e, runs))
  ]

  -- Those that are done after those of the round that ran are done.
  still_running :
      (k : ℕ) (ns killed : List ℕ) → All (IsDone killed) (running k ns) → All (IsDone killed) ns
  still_running k [] killed h = tt
  still_running k (n ∷ ns) killed h = elim (Bool-cases (has_exited k n)) [
    | inl gone ↦ (inl (k, gone), still_running k ns killed (subst kept gone h))
    | inr runs ↦ let h' = subst kept runs h in (h'.0, still_running k ns killed h'.1)
  ]
    where
      kept : Bool → Type 0
      kept b = All (IsDone killed) (if not b then n ∷ running k ns else running k ns)

  killed_now :
      (ns killed : List ℕ)
      → ((n : ℕ) → any (λ m. m == n) ns ≡ true → any (λ m. m == n) killed ≡ true)
      → All (IsDone killed) ns
  killed_now [] killed h = tt
  killed_now (n ∷ ns) killed h =
      (inr (h n (ground arith)), killed_now ns killed (λ m e. h m (ground (arith, e))))

  -- A wait ends with all that were waited for done.
  abbrev Ends : ℕ → ℕ → ℕ → List ℕ → Type 0
  Ends fuel deadline k ns =
      (ended : Ended) × (wait (suc fuel) deadline k ns ≡ some ended) × All (IsDone ended.killed) ns

  wait_late : (fuel deadline k : ℕ) (ns : List ℕ) → deadline ≤ clock k → Ends fuel deadline k ns
  unfolding wait
  wait_late fuel deadline k ns late =
      let left = running k ns in
      (
        record { left = ns; killed = left },
        ground (arith, late),
        still_running k ns left (killed_now left left (λ n e. e)),
      )

  wait-Ends :
      (fuel deadline k : ℕ) (ns : List ℕ)
      → ((i : ℕ) → clock i + 100 ≤ clock (i + 1))
      → deadline < clock k + 100 * fuel
      → Ends fuel deadline k ns
  unfolding wait
  wait-Ends zero deadline k ns sleeps enough = wait_late zero deadline k ns (omega (arith, enough))
  wait-Ends (suc fuel) deadline k ns sleeps enough = elim (dec_lt (clock k) deadline) [
    | no late ↦ wait_late (suc fuel) deadline k ns (omega (arith, late))
    | yes early ↦ elim (Bool-cases (is_empty (running k ns))) [
      | inl gone ↦
          (record { left = []; killed = [] }, ground (arith, early, gone), none_left k ns [] gone)
      | inr left ↦
          let (ended, e, done) =
            wait-Ends fuel deadline (k + 1) (running k ns) sleeps
              (omega (arith, enough, sleeps k)) in
          (ended, ground (arith, early, left, e), still_running k ns ended.killed done)
    ]
  ]

  -- If a sleep takes a tenth of a second at least, the wait of `max_wait_ms` ends after at most one round
  -- more than there are tenths in it, and then each process that was waited for has exited by some round,
  -- or gets SIGKILL.
  pub await_termination_ends :
      (max_wait_ms fuel : ℕ) (terminating : List ℕ)
      → ((i : ℕ) → clock i + 100 ≤ clock (i + 1))
      → max_wait_ms < 100 * fuel
      → (ended : Ended) × (await_termination (suc fuel) max_wait_ms terminating ≡ some ended)
        × All (IsDone ended.killed) terminating
  unfolding await_termination
  await_termination_ends max_wait_ms fuel terminating sleeps enough =
      wait-Ends fuel (clock 0 + max_wait_ms) 0 terminating sleeps (omega (arith, enough))
