-- ===== src/Agent/Executor/Queues.antt =====
-- command-executor.ts: the queues of the devices, their depths and what runs.
use nebula_clone.Prelude.{
  ℕ, ◌+◌, ◌-◌, ◌≤◌, Bool, true, false, List, [], ◌∷◌, ◌++◌, Option, none, some, String, length, ltb,
  leb, is_text, ◌≡◌, refl, subst, arith, str_discrete, Option-cases, Bool-cases, inl, inr, All,
  All-append, ite, length-append,
}
use nebula_clone.Js.Table.{get, set, String_key, get-set}
use nebula_clone.Shared.Types.{CommandOutcome}
use nebula_clone.Agent.Executor.{
  Command, Queued, CommandExecutor, or_empty, or_zero, or_one, resolved, execute, execute_at, leave,
  turn, turn_of, finish, finish_of, revoke_occupation, revoke_all_occupations, Call, executes,
  turns, finishes, revokes, revokes_all, step, run, max_queue_depth, queue_stale_ms, new_executor,
}

-- Behind the oldest command all are waiting.
abbrev pub IsSerial : List Queued → Type 0
IsSerial [] = Unit {0}
IsSerial (q ∷ rest) = All (λ (r : Queued). r.is_running ≡ false) rest

abbrev pub IsFiled : String → List Queued → Type 0
IsFiled device q = All (λ (r : Queued). r.command.device_id ≡ device) q

pub record IsQueue (device : String) (depth : ℕ) (q : List Queued) : Type 0 where
  pub counted : depth ≡ length q
  pub bounded : length q ≤ max_queue_depth
  pub serial : IsSerial q
  pub filed : IsFiled device q

abbrev pub IsOrderly : CommandExecutor → Type 0
IsOrderly s =
    (device : String)
    → IsQueue device (or_zero (get device s.queue_depths)) (or_empty (get device s.device_queues))

pick :
    (device j : String) (n : ℕ) (q : List Queued) (depths : Option ℕ)
    (queues : Option (List Queued)) (d : Dec (device ≡ j))
    → IsQueue device n q
    → IsQueue j (or_zero depths) (or_empty queues)
    → IsQueue j (or_zero (ite d (some n) depths)) (or_empty (ite d (some q) queues))
pick device j n q depths queues (yes e) here there = subst (λ k. IsQueue k n q) e here
pick device j n q depths queues (no _) here there = there

-- A device gets a new queue with its depth.
set-IsQueue :
    (device j : String) (n : ℕ) (q : List Queued) (depths : List (String × ℕ))
    (queues : List (String × List Queued))
    → IsQueue device n q
    → IsQueue j (or_zero (get j depths)) (or_empty (get j queues))
    → IsQueue j (or_zero (get j (set device n depths))) (or_empty (get j (set device q queues)))
set-IsQueue device j n q depths queues here there =
    rw (get-set device j n depths, get-set device j q queues)
      (pick device j n q (get j depths) (get j queues) (str_discrete device j) here there)

IsSerial-append :
    (q : List Queued) (r : Queued) → IsSerial q → r.is_running ≡ false → IsSerial (q ++ r ∷ [])
IsSerial-append [] r s e = tt
IsSerial-append (h ∷ q) r s e =
    All-append (λ (r : Queued). r.is_running ≡ false) q (r ∷ []) s (e, tt)

rest-IsSerial : (q : Queued) (rest : List Queued) → IsSerial (q ∷ rest) → IsSerial rest
rest-IsSerial q [] s = tt
rest-IsSerial q (r ∷ rest) s = s.1

leave-IsOrderly :
    (device : String) (q : Queued) (rest : List Queued) (s : CommandExecutor)
    → IsQueue device (or_zero (get device s.queue_depths)) (q ∷ rest)
    → IsOrderly s
    → IsOrderly (leave device rest s)
leave-IsOrderly device q rest s h orderly j =
    set-IsQueue device j (or_one (get device s.queue_depths) - 1) rest s.queue_depths
      s.device_queues
      (record {
        counted = elim (Option-cases (get device s.queue_depths)) [
          | inl e ↦ absurd (ground (arith, e, h.counted))
          | inr (n, e) ↦ ground (arith, e, h.counted)
        ];
        bounded = omega (arith, h.bounded);
        serial = rest-IsSerial q rest h.serial;
        filed = h.filed.1;
      })
      (orderly j)

execute_at-IsOrderly :
    (url : Option String) (ready : Bool) (c : Command) (now : ℕ) (s : CommandExecutor)
    → IsOrderly s
    → IsOrderly (execute_at url ready c now (or_zero (get c.device_id s.queue_depths)) s).0
execute_at-IsOrderly none ready c now s orderly = orderly
execute_at-IsOrderly (some url) false c now s orderly = orderly
execute_at-IsOrderly (some url) true c now s orderly =
    elim (Bool-cases (leb max_queue_depth (or_zero (get c.device_id s.queue_depths)))) [
      | inl full ↦ rw full orderly
      | inr room ↦ rw room (λ j.
          let h = orderly c.device_id in
          let q = or_empty (get c.device_id s.device_queues) in
          let new : Queued = record {
            command = c;
            base_url = url;
            enqueued_at_ms = now;
            is_running = false;
          } in
          set-IsQueue c.device_id j (or_zero (get c.device_id s.queue_depths) + 1) (q ++ new ∷ [])
            s.queue_depths s.device_queues
            (record {
              counted = omega (arith, h.counted, length-append q (new ∷ []));
              bounded = ground (arith, room, h.counted, length-append q (new ∷ []));
              serial = IsSerial-append q new h.serial refl;
              filed =
                  All-append (λ (r : Queued). r.command.device_id ≡ c.device_id) q (new ∷ [])
                    h.filed (refl, tt);
            })
            (orderly j))
    ]

pick-IsQueue :
    (device j : String) (depth : String → ℕ) (q : List Queued) (queues : Option (List Queued))
    (d : Dec (device ≡ j))
    → IsQueue device (depth device) q
    → IsQueue j (depth j) (or_empty queues)
    → IsQueue j (depth j) (or_empty (ite d (some q) queues))
pick-IsQueue device j depth q queues (yes e) here there = subst (λ k. IsQueue k (depth k) q) e here
pick-IsQueue device j depth q queues (no _) here there = there

-- The oldest command of a queue starts to run.
start-IsOrderly :
    (device : String) (q : Queued) (rest : List Queued) (s : CommandExecutor)
    → IsQueue device (or_zero (get device s.queue_depths)) (q ∷ rest)
    → IsOrderly s
    → IsOrderly (record s {
      device_queues = set device (record q { is_running = true } ∷ rest) s.device_queues;
    })
start-IsOrderly device q rest s h orderly j =
    rw (get-set device j (record q { is_running = true } ∷ rest) s.device_queues) (
      pick-IsQueue device j (λ k. or_zero (get k s.queue_depths))
        (record q { is_running = true } ∷ rest) (get j s.device_queues) (str_discrete device j)
        (record { counted = h.counted; bounded = h.bounded; serial = h.serial; filed = h.filed })
        (orderly j))

turn_of-IsOrderly :
    (device : String) (now : ℕ) (q : List Queued) (s : CommandExecutor)
    → IsQueue device (or_zero (get device s.queue_depths)) q
    → IsOrderly s
    → IsOrderly (turn_of device now q s).0
turn_of-IsOrderly device now [] s h orderly = orderly
turn_of-IsOrderly device now (q ∷ rest) s h orderly =
    let left = leave-IsOrderly device q rest s h orderly in
    let started = start-IsOrderly device q rest s h orderly in
    elim (Bool-cases q.is_running) [
      | inl running ↦ rw running orderly
      | inr waiting ↦ elim (Bool-cases (ltb (q.enqueued_at_ms + queue_stale_ms) now)) [
        | inl stale ↦ rw (waiting, stale) left
        | inr fresh ↦ elim (Bool-cases (is_text (get device s.occupations) q.command.occupant_id)) [
          | inl held ↦ rw (waiting, fresh, held) started
          | inr ended ↦ rw (waiting, fresh, ended) left
        ]
      ]
    ]

finish_of-IsOrderly :
    (device : String) (outcome : CommandOutcome) (q : List Queued) (s : CommandExecutor)
    → IsQueue device (or_zero (get device s.queue_depths)) q
    → IsOrderly s
    → IsOrderly (finish_of device outcome q s).0
finish_of-IsOrderly device outcome [] s h orderly = orderly
finish_of-IsOrderly device outcome (q ∷ rest) s h orderly = elim (Bool-cases q.is_running) [
  | inl running ↦ rw running (leave-IsOrderly device q rest s h orderly)
  | inr waiting ↦ rw waiting orderly
]

revoke_occupation-IsOrderly :
    (device occupant : String) (s : CommandExecutor)
    → IsOrderly s
    → IsOrderly (revoke_occupation device occupant s)
unfolding revoke_occupation
revoke_occupation-IsOrderly device occupant s orderly =
    elim (Bool-cases (is_text (get device s.occupations) occupant)) [
      | inl held ↦ rw held orderly
      | inr other ↦ rw other orderly
    ]

-- Every call keeps the queues orderly: the recorded depth is the length of the queue and at most five,
-- only the oldest command may run, and a queue holds commands of its own device.
pub step-IsOrderly : (c : Call) (s : CommandExecutor) → IsOrderly s → IsOrderly (step c s).0
unfolding step execute turn finish revoke_all_occupations
step-IsOrderly (executes resolver c now) s orderly =
    execute_at-IsOrderly (resolved (resolver.resolve c.device_id)) (resolver.is_ready c.device_id) c
      now s orderly
step-IsOrderly (turns device now) s orderly =
    turn_of-IsOrderly device now (or_empty (get device s.device_queues)) s (orderly device) orderly
step-IsOrderly (finishes device outcome) s orderly =
    finish_of-IsOrderly device outcome (or_empty (get device s.device_queues)) s (orderly device)
      orderly
step-IsOrderly (revokes device occupant) s orderly =
    revoke_occupation-IsOrderly device occupant s orderly
step-IsOrderly revokes_all s orderly = orderly

run_from : (cs : List Call) (s : CommandExecutor) → IsOrderly s → IsOrderly (run cs s).0
unfolding run
run_from [] s orderly = orderly
run_from (c ∷ cs) s orderly = run_from cs (step c s).0 (step-IsOrderly c s orderly)

-- Whatever calls a new executor gets: the recorded depth of a device is the length of its queue and at
-- most five, only the oldest command may run, and a queue holds commands of its own device.
pub run-IsOrderly : (cs : List Call) → IsOrderly (run cs new_executor).0
unfolding get
run-IsOrderly cs =
    run_from cs new_executor
      (λ j. record { counted = refl; bounded = omega arith; serial = tt; filed = tt })
