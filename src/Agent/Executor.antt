-- ===== src/Agent/Executor.antt =====
-- packages/agent/src/command-executor.ts. The promises of a device are its queue, the oldest command
-- first; its turn (the callback of `previous.then`) and its end (the answer of the controller, with the
-- `finally` that lowers the depth) are calls of their own, since other calls come in between. The
-- resolver and the controllers are arguments.
pub mod Ghosts
pub mod Queues
use Prim.Native.String
use nebula_clone.Prelude.{
  ℕ, ◌+◌, ◌-◌, Bool, true, false, not, ◌||◌, List, [], ◌∷◌, ◌++◌, Option, none, some, String, ltb,
  leb, if◌then◌else◌, is_truthy, is_text,
}
use nebula_clone.Js.Table.{get, set, delete, Key, String_key}
use nebula_clone.Shared.Types.{DeviceAction, CommandOutcome, error, command_error_occupation_ended}

abbrev pub max_queue_depth : ℕ
max_queue_depth = 5

abbrev pub queue_stale_ms : ℕ
queue_stale_ms = 15_000

-- A `CommandMessage`.
pub record Command : Type 0 where
  pub request_id : String
  pub device_id : String
  pub occupant_id : String
  pub action : DeviceAction

pub record Resolver : Type 0 where
  pub resolve : String → Option String
  pub is_ready : String → Bool

pub record Queued : Type 0 where
  pub command : Command
  pub base_url : String
  pub enqueued_at_ms : ℕ
  pub is_running : Bool

pub record CommandExecutor : Type 0 where
  pub device_queues : List (String × List Queued)
  pub queue_depths : List (String × ℕ)
  pub occupations : List (String × String)

pub data Effect : Type 0 where
  -- The promise of `execute` is settled.
  answers : String → CommandOutcome → Effect
  -- `client.execute`, at a controller.
  sends : String → Command → Effect

abbrev pub or_zero : Option ℕ → ℕ
or_zero none = 0
or_zero (some n) = n

abbrev pub or_one : Option ℕ → ℕ
or_one none = 1
or_one (some n) = n

abbrev pub or_empty : Option (List Queued) → List Queued
or_empty none = []
or_empty (some q) = q

abbrev not_registered : String → String
not_registered device = String.◌++◌ "기기의 controller가 등록되지 않음: " device

-- After the checks: the command joins the queue of its device, and its occupation is the current one.
abbrev pub enqueue : Command → String → ℕ → ℕ → CommandExecutor → CommandExecutor
enqueue c base_url now depth s = record {
  device_queues =
      set c.device_id
        (or_empty (get c.device_id s.device_queues)
          ++ (record { command = c; base_url = base_url; enqueued_at_ms = now; is_running = false })
            ∷ [])
        s.device_queues;
  queue_depths = set c.device_id (depth + 1) s.queue_depths;
  occupations = set c.device_id c.occupant_id s.occupations;
}

abbrev pub resolved : Option String → Option String
resolved none = none
resolved (some url) = if is_truthy (some url) then some url else none

abbrev pub execute_at :
    Option String → Bool → Command → ℕ → ℕ → CommandExecutor → CommandExecutor × List Effect
execute_at none is_ready c now depth s =
    (s, answers c.request_id (error (not_registered c.device_id)) ∷ [])
execute_at (some base_url) is_ready c now depth s =
    if not is_ready
    then (s, answers c.request_id (error "controller 준비 중 (러너 기동 대기)") ∷ [])
    else if leb max_queue_depth depth
    then (s, answers c.request_id (error "명령 대기열 초과 — Controller 응답 지연, 잠시 후 재시도") ∷ [])
    else (enqueue c base_url now depth s, [])

unfoldable pub execute : Resolver → Command → ℕ → CommandExecutor → CommandExecutor × List Effect
execute resolver c now s =
    execute_at (resolved (resolver.resolve c.device_id)) (resolver.is_ready c.device_id) c now
      (or_zero (get c.device_id s.queue_depths)) s

-- The oldest command of a queue leaves it.
abbrev pub leave : String → List Queued → CommandExecutor → CommandExecutor
leave device rest s = record s {
  device_queues = set device rest s.device_queues;
  queue_depths = set device (or_one (get device s.queue_depths) - 1) s.queue_depths;
}

abbrev pub turn_of : String → ℕ → List Queued → CommandExecutor → CommandExecutor × List Effect
turn_of device now [] s = (s, [])
turn_of device now (q ∷ rest) s =
    if q.is_running
    then (s, [])
    else if ltb (q.enqueued_at_ms + queue_stale_ms) now
    then (
      leave device rest s,
      answers q.command.request_id (error "큐 대기 초과 — 명령 폐기 (서버 타임아웃 경과)") ∷ [],
    )
    else if not (is_text (get device s.occupations) q.command.occupant_id)
    then (
      leave device rest s,
      answers q.command.request_id (error command_error_occupation_ended) ∷ [],
    )
    else (
      record s {
        device_queues = set device (record q { is_running = true } ∷ rest) s.device_queues;
      },
      sends q.base_url q.command ∷ [],
    )

-- The turn of the oldest command of a device.
unfoldable pub turn : String → ℕ → CommandExecutor → CommandExecutor × List Effect
turn device now s = turn_of device now (or_empty (get device s.device_queues)) s

abbrev pub finish_of :
    String → CommandOutcome → List Queued → CommandExecutor → CommandExecutor × List Effect
finish_of device outcome [] s = (s, [])
finish_of device outcome (q ∷ rest) s =
    if q.is_running
    then (leave device rest s, answers q.command.request_id outcome ∷ [])
    else (s, [])

-- The controller answers the command that runs on a device.
unfoldable pub finish : String → CommandOutcome → CommandExecutor → CommandExecutor × List Effect
finish device outcome s = finish_of device outcome (or_empty (get device s.device_queues)) s

unfoldable pub revoke_occupation : String → String → CommandExecutor → CommandExecutor
revoke_occupation device occupant s =
    if not (is_text (get device s.occupations) occupant)
    then s
    else record s { occupations = delete device s.occupations }

unfoldable pub revoke_all_occupations : CommandExecutor → CommandExecutor
revoke_all_occupations s = record s { occupations = [] }

pub data Call : Type 0 where
  executes : Resolver → Command → ℕ → Call
  turns : String → ℕ → Call
  finishes : String → CommandOutcome → Call
  revokes : String → String → Call
  revokes_all : Call

unfoldable pub step : Call → CommandExecutor → CommandExecutor × List Effect
step (executes resolver c now) s = execute resolver c now s
step (turns device now) s = turn device now s
step (finishes device outcome) s = finish device outcome s
step (revokes device occupant) s = (revoke_occupation device occupant s, [])
step revokes_all s = (revoke_all_occupations s, [])

unfoldable pub run : List Call → CommandExecutor → CommandExecutor × List Effect
run [] s = (s, [])
run (c ∷ cs) s = let (s', acts) = step c s in let (s'', later) = run cs s' in (s'', acts ++ later)

abbrev pub new_executor : CommandExecutor
new_executor = record { device_queues = []; queue_depths = []; occupations = [] }
