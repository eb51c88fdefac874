-- ===== src/Server/Commands.antt =====
-- packages/server/src/commands: commands.service.ts and command-result.guards.ts. `execute` runs up to the
-- wait for the agent's answer, and `reply` is what it makes of that answer.
use nebula_clone.Prelude.{
  ℕ, Bool, true, not, List, [], Option, none, some, String, ◌===◌, if◌then◌else◌, is_truthy,
  is_text, ◌≡◌, refl, ap, ◌∙◌, Bool-cases, Option-cases, inl, inr, ◌⊎◌,
}
use nebula_clone.Js.Json.{Json, prop, as_record, as_bool, as_string, as_number}
use nebula_clone.Js.Number.{Number}
use nebula_clone.Shared.Types.{
  DeviceAction, CommandOutcome, succeeded, error, command_error_unsupported, command_error_timeout,
}
use nebula_clone.Server.Devices.{Device, find_by_id, is_online}
use nebula_clone.Server.Devices.Service.{
  Exception, not_found, conflict, forbidden, Reply, returns, throws, renew_occupation,
}
use nebula_clone.Server.Agents.{
  Gateway, Action, SendResult, agent_not_connected, answered, waiting, send_command,
}

-- 404, 409 and 403 as the devices service throws them; 502, 400 and 504.
pub data Failure : Type 0 where
  service : Exception → Failure
  bad_gateway bad_request gateway_timeout : Failure

pub data Answer : Type 0 where
  fails : Failure → Answer
  results : Option Json → Answer
  awaits : String → Answer

pub reply : CommandOutcome → Answer
reply (succeeded result) = results result
reply (error e) =
    if e === command_error_unsupported
    then fails bad_request
    else if e === command_error_timeout
    then fails gateway_timeout
    else fails bad_gateway

abbrev answer_of : SendResult → Answer
answer_of agent_not_connected = fails bad_gateway
answer_of (answered outcome) = reply outcome
answer_of (waiting request_id) = awaits request_id

pub record State : Type 0 where
  pub rows : List Device
  pub agents : Gateway

module _ (is_open : ℕ → Bool) (uuid : String) (device occupant : String) (action : DeviceAction)
    (now : ℕ) where
  -- After the renewal, which may still throw.
  abbrev sent : String → List Device × Reply Device → Gateway → State × Answer × List Action
  sent agent (rows, throws e) g = (record { rows = rows; agents = g }, fails (service e), [])
  sent agent (rows, returns d) g =
      let (g', result, acts) = send_command is_open uuid agent device occupant action g in
      (record { rows = rows; agents = g' }, answer_of result, acts)

  abbrev execute_for : Option String → State → State × Answer × List Action
  execute_for none s = (s, fails (service conflict), [])
  execute_for (some agent) s =
      if is_truthy (some agent)
      then sent agent (renew_occupation device occupant now s.rows) s.agents
      else (s, fails (service conflict), [])

  abbrev execute_on : Option Device → State → State × Answer × List Action
  execute_on none s = (s, fails (service not_found), [])
  execute_on (some d) s =
      if not (is_text d.occupant_id occupant)
      then (s, fails (service forbidden), [])
      else if not (is_online d.status)
      then (s, fails (service conflict), [])
      else execute_for d.agent_id s

  unfoldable pub execute : State → State × Answer × List Action
  execute s = execute_on (find_by_id device s.rows) s

  -- A command reaches an agent only if the caller holds the device under the id that it gives, and the
  -- device is online with an agent; otherwise the call fails and the table and the gateway are unchanged.
  pub execute_guarded :
      (s : State)
      → ((d : Device) × (find_by_id device s.rows ≡ some d)
          × (is_text d.occupant_id occupant ≡ true)
          × (is_online d.status ≡ true)
          × (is_truthy d.agent_id ≡ true))
        ⊎ (((execute s).0 ≡ s)
            × ((execute s).2 ≡ [])
            × ((e : Exception) × ((execute s).1 ≡ fails (service e))))
  unfolding execute
  execute_guarded s = elim (Option-cases (find_by_id device s.rows)) [
    | inl missing ↦ inr (rw missing (refl, refl, (not_found, refl)))
    | inr (d, here) ↦ elim (Bool-cases (is_text d.occupant_id occupant)) [
      | inr other ↦ inr (rw (here, other) (refl, refl, (forbidden, refl)))
      | inl held ↦ elim (Bool-cases (is_online d.status)) [
        | inr off ↦ inr (rw (here, held, off) (refl, refl, (conflict, refl)))
        | inl on ↦ elim (Option-cases d.agent_id) [
          | inl gone ↦ inr (rw (here, held, on, gone) (refl, refl, (conflict, refl)))
          | inr (a, named) ↦ elim (Bool-cases (is_truthy (some a))) [
            | inr empty ↦ inr (rw (here, held, on, named, empty) (refl, refl, (conflict, refl)))
            | inl full ↦ inl (d, here, held, on, ap is_truthy named ∙ full)
          ]
        ]
      ]
    ]
  ]

-- `toUiDumpResult`: the pair of `ok` and `tree`, or 502.
unfoldable pub to_ui_dump_result : Json → Option (Bool × String)
to_ui_dump_result result = elim (as_record result) [
  | none ↦ none
  | some fields ↦ elim (as_bool (prop "ok" fields)) [
    | none ↦ none
    | some okay ↦ elim (as_string (prop "tree" fields)) [
      | none ↦ none
      | some tree ↦ some (okay, tree)
    ]
  ]
]

pub record ScreenshotResult : Type 0 where
  pub okay : Bool
  pub jpeg_base64 : String
  pub coord_width : Number
  pub coord_height : Number

-- `toScreenshotResult`, or 502.
unfoldable pub to_screenshot_result : Json → Option ScreenshotResult
to_screenshot_result result = elim (as_record result) [
  | none ↦ none
  | some fields ↦ elim (as_bool (prop "ok" fields)) [
    | none ↦ none
    | some okay ↦ elim (as_string (prop "jpegBase64" fields)) [
      | none ↦ none
      | some jpeg ↦ elim (as_number (prop "coordWidth" fields)) [
        | none ↦ none
        | some width ↦ elim (as_number (prop "coordHeight" fields)) [
          | none ↦ none
          | some height ↦ some (record {
            okay = okay;
            jpeg_base64 = jpeg;
            coord_width = width;
            coord_height = height;
          })
        ]
      ]
    ]
  ]
]
