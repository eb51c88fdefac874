-- ===== src/Shared/Types.antt =====
-- packages/shared/src: device.ts, actions.ts and the messages of messages.ts.
use nebula_clone.Prelude.{String, List, [], ◌∷◌, Option}
use nebula_clone.Js.Number.{Number}
use nebula_clone.Js.Json.{Json}

pub data DevicePlatform : Type 0 where
  ios android : DevicePlatform

pub record RegisterDeviceInput : Type 0 where
  pub id : String
  pub name : String
  pub platform : DevicePlatform
  pub os_version : String
  pub tags : List String

pub data HardwareButton : Type 0 where
  home back : HardwareButton

pub data DeviceAction : Type 0 where
  tap : (x y : Number) → DeviceAction
  swipe : (from_x from_y to_x to_y duration_ms : Number) → DeviceAction
  type_text : String → DeviceAction
  ui_dump screenshot : DeviceAction
  press_button : HardwareButton → DeviceAction

abbrev pub kind : DeviceAction → String
kind (tap x y) = "tap"
kind (swipe a b c d e) = "swipe"
kind (type_text text) = "typeText"
kind ui_dump = "uiDump"
kind screenshot = "screenshot"
kind (press_button b) = "pressButton"

abbrev pub device_action_kinds : List String
device_action_kinds = "tap" ∷ "swipe" ∷ "typeText" ∷ "uiDump" ∷ "screenshot" ∷ "pressButton" ∷ []

-- The result is `undefined` where the controller sent none.
pub data CommandOutcome : Type 0 where
  succeeded : Option Json → CommandOutcome
  error : String → CommandOutcome

abbrev pub command_error_timeout : String
command_error_timeout = "timeout"

abbrev pub command_error_agent_disconnected : String
command_error_agent_disconnected = "agent_disconnected"

abbrev pub command_error_unsupported : String
command_error_unsupported = "unsupported_action"

abbrev pub command_error_occupation_ended : String
command_error_occupation_ended = "occupation_ended"

pub data AgentMessage : Type 0 where
  register : List RegisterDeviceInput → Option (List String) → AgentMessage
  heartbeat : List String → AgentMessage
  command_result : String → CommandOutcome → AgentMessage

pub data ServerMessage : Type 0 where
  command : (request_id device_id occupant_id : String) → DeviceAction → ServerMessage
  occupancy_ended : (device_id occupant_id : String) → ServerMessage
  stream_demand : List String → ServerMessage
