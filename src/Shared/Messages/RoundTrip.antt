-- ===== src/Shared/Messages/RoundTrip.antt =====
-- messages.ts and parsers.ts: what one end builds and the other end parses.
use nebula_clone.Prelude.{
  true, List, [], ◌∷◌, map, Option, none, some, String, ◌≡◌, refl, All, str_discrete, ap,
}
use nebula_clone.Js.Number.{is_finite}
use nebula_clone.Js.Json.{Json, str, items, to_items, prop}
use nebula_clone.Shared.Ids.{is_device_id, is_request_id, is_occupant_id}
use nebula_clone.Shared.Types.{
  DevicePlatform, ios, android, RegisterDeviceInput, home, back, DeviceAction, tap, swipe,
  type_text, ui_dump, screenshot, press_button, CommandOutcome, succeeded, error, AgentMessage,
  register, heartbeat, command_result, ServerMessage, command, occupancy_ended, stream_demand,
}
use nebula_clone.Shared.Messages.{
  each, parse_string, parse_device_id, parse_register_device, parse_outcome, parse_action,
  parse_agent_message, parse_server_message, parse_platform, ◌>>=◌,
}
use nebula_clone.Shared.Messages.Wire.{
  platform_text, device_json, action_json, outcome_json, agent_message_json, server_message_json,
}

items-to_items : (js : List Json) → items (to_items js) ≡ js
items-to_items [] = refl
items-to_items (j ∷ js) = ap (◌∷◌ j) (items-to_items js)

each_text : (ss : List String) → each parse_string (items (to_items (map str ss))) ≡ some ss
unfolding each
each_text [] = refl
each_text (s ∷ ss) = rw (each_text ss)

-- The numbers of an action survive JSON, which has no infinities and no `NaN`.
abbrev pub IsWireAction : DeviceAction → Type 0
IsWireAction (tap x y) = (is_finite x ≡ true) × (is_finite y ≡ true)
IsWireAction (swipe a b c d e) =
    (is_finite a ≡ true)
    × (is_finite b ≡ true)
    × (is_finite c ≡ true)
    × (is_finite d ≡ true)
    × (is_finite e ≡ true)
IsWireAction _ = Unit {0}

action_round_trip : (a : DeviceAction) → IsWireAction a → parse_action (action_json a) ≡ some a
unfolding parse_action prop str_discrete
action_round_trip (tap x y) h = rw (h.0, h.1)
action_round_trip (swipe a b c d e) h = rw (h.0, h.1, h.2, h.3, h.4)
action_round_trip (type_text text) h = refl
action_round_trip ui_dump h = refl
action_round_trip screenshot h = refl
action_round_trip (press_button home) h = refl
action_round_trip (press_button back) h = refl

abbrev pub IsWireServerMessage : ServerMessage → Type 0
IsWireServerMessage (command request_id device_id occupant_id action) =
    (is_request_id request_id ≡ true)
    × (is_device_id device_id ≡ true)
    × (is_occupant_id occupant_id ≡ true)
    × IsWireAction action
IsWireServerMessage (occupancy_ended device_id occupant_id) =
    (is_device_id device_id ≡ true) × (is_occupant_id occupant_id ≡ true)
IsWireServerMessage (stream_demand ids) = All (λ id. is_device_id id ≡ true) ids

each_device_id :
    (ids : List String)
    → All (λ id. is_device_id id ≡ true) ids
    → each parse_device_id (items (to_items (map str ids))) ≡ some ids
unfolding each
each_device_id [] h = refl
each_device_id (id ∷ ids) h = rw (h.0, each_device_id ids h.1)

-- Every message that the server builds, with well-formed ids and finite coordinates, is parsed by the
-- agent to that message.
pub parse_server_message_round_trip :
    (m : ServerMessage)
    → IsWireServerMessage m
    → parse_server_message (server_message_json m) ≡ some m
unfolding parse_server_message str_discrete
parse_server_message_round_trip (command r d o a) h =
    rw (h.0, h.1, h.2)
      (ap (λ (x : Option DeviceAction). x >>= λ b. some (command r d o b))
        (action_round_trip a h.3))
parse_server_message_round_trip (occupancy_ended d o) h = rw (h.0, h.1)
parse_server_message_round_trip (stream_demand ids) h = rw (each_device_id ids h)

platform_round_trip : (p : DevicePlatform) → parse_platform (some (str (platform_text p))) ≡ some p
unfolding parse_platform str_discrete
platform_round_trip ios = refl
platform_round_trip android = refl

device_round_trip :
    (d : RegisterDeviceInput)
    → is_device_id d.id ≡ true
    → parse_register_device (device_json d) ≡ some d
unfolding parse_register_device prop str_discrete
device_round_trip d h = rw (h, platform_round_trip d.platform, each_text d.tags)

each_device :
    (ds : List RegisterDeviceInput)
    → All (λ d. is_device_id d.id ≡ true) ds
    → each parse_register_device (items (to_items (map device_json ds))) ≡ some ds
unfolding each
each_device [] h = refl
each_device (d ∷ ds) h = rw (device_round_trip d h.0, each_device ds h.1)

outcome_round_trip : (o : CommandOutcome) → parse_outcome (outcome_json o) ≡ some o
unfolding parse_outcome prop str_discrete
outcome_round_trip (succeeded none) = refl
outcome_round_trip (succeeded (some j)) = refl
outcome_round_trip (error e) = refl

abbrev pub IsWireAgentMessage : AgentMessage → Type 0
IsWireAgentMessage (register devices capabilities) = All (λ d. is_device_id d.id ≡ true) devices
IsWireAgentMessage (heartbeat ids) = Unit {0}
IsWireAgentMessage (command_result request_id outcome) = is_request_id request_id ≡ true

-- Every message that the agent builds, with well-formed device and request ids, is parsed by the server
-- to that message; an agent that names no capabilities is told from one that names none.
pub parse_agent_message_round_trip :
    (m : AgentMessage) → IsWireAgentMessage m → parse_agent_message (agent_message_json m) ≡ some m
unfolding parse_agent_message str_discrete
parse_agent_message_round_trip (register ds none) h = rw (each_device ds h)
parse_agent_message_round_trip (register ds (some ks)) h = rw (each_device ds h, each_text ks)
parse_agent_message_round_trip (heartbeat ids) h = rw (each_text ids)
parse_agent_message_round_trip (command_result r o) h = rw (h, outcome_round_trip o)
