-- ===== src/Shared/Messages.antt =====
-- packages/shared/src/parsers.ts: the parsers of the tunnel's messages, over the values that
-- `JSON.parse` returns. A text that is no JSON has no such value and is refused before.
pub mod Wire
pub mod RoundTrip
use nebula_clone.Prelude.{
  Bool, true, false, not, ◌&&◌, ◌||◌, List, [], ◌∷◌, Option, none, some, String, ◌===◌,
  if◌then◌else◌,
}
use nebula_clone.Js.Number.{Number, is_finite}
use nebula_clone.Js.Json.{Json, Fields, prop, as_record, as_string, as_array, as_number, as_bool}
use nebula_clone.Shared.Types.{
  DevicePlatform, ios, android, RegisterDeviceInput, HardwareButton, home, back, DeviceAction, tap,
  swipe, type_text, ui_dump, screenshot, press_button, CommandOutcome, succeeded, error,
  AgentMessage, register, heartbeat, command_result, ServerMessage, command, occupancy_ended,
  stream_demand,
}
use nebula_clone.Shared.Ids.{is_device_id, is_request_id, is_occupant_id}

infixl 5 ◌>>=◌
abbrev pub ◌>>=◌ {ℓ κ} : {A : Type ℓ} {B : Type κ} → Option A → (A → Option B) → Option B
none >>= k = none
some a >>= k = k a

abbrev pub only_if {ℓ} : {A : Type ℓ} → Bool → A → Option A
only_if true a = some a
only_if false a = none

-- `array.every(guard)`, with what the guard allows to read of each entry.
pub each {ℓ κ} : {A : Type ℓ} {B : Type κ} → (A → Option B) → List A → Option (List B)
each f [] = some []
each f (a ∷ rest) = do b ← f a; bs ← each f rest; some (b ∷ bs)

abbrev pub parse_string : Json → Option String
parse_string j = as_string (some j)

abbrev pub parse_device_id : Json → Option String
parse_device_id j = do s ← as_string (some j); only_if (is_device_id s) s

-- `isDevicePlatform` and `isHardwareButton`.
pub parse_platform : Option Json → Option DevicePlatform
parse_platform j = do
  s ← as_string j
  if s === "ios" then some ios else if s === "android" then some android else none

pub parse_button : Option Json → Option HardwareButton
parse_button j = do
  s ← as_string j
  if s === "home" then some home else if s === "back" then some back else none

-- `isRegisterDevice`.
pub parse_register_device : Json → Option RegisterDeviceInput
parse_register_device value = do
  fields ← as_record value
  id ← prop "id" fields >>= parse_device_id
  name ← as_string (prop "name" fields)
  platform ← parse_platform (prop "platform" fields)
  os_version ← as_string (prop "osVersion" fields)
  entries ← as_array (prop "tags" fields)
  tags ← each parse_string entries
  some (record { id = id; name = name; platform = platform; os_version = os_version; tags = tags })

-- `isCommandOutcome`.
pub parse_outcome : Json → Option CommandOutcome
parse_outcome value = do
  fields ← as_record value
  ok ← as_bool (prop "ok" fields)
  if ok
      then some (succeeded (prop "result" fields))
      else (as_string (prop "error" fields) >>= λ e. some (error e))

abbrev finite : Option Json → Option Number
finite j = do n ← as_number j; only_if (is_finite n) n

parse_tap : Fields → Option DeviceAction
parse_tap fields = do x ← finite (prop "x" fields); y ← finite (prop "y" fields); some (tap x y)

parse_swipe : Fields → Option DeviceAction
parse_swipe fields = do
  from_x ← finite (prop "fromX" fields)
  from_y ← finite (prop "fromY" fields)
  to_x ← finite (prop "toX" fields)
  to_y ← finite (prop "toY" fields)
  duration ← finite (prop "durationMs" fields)
  some (swipe from_x from_y to_x to_y duration)

parse_type_text : Fields → Option DeviceAction
parse_type_text fields = do text ← as_string (prop "text" fields); some (type_text text)

parse_press_button : Fields → Option DeviceAction
unfolding parse_button
parse_press_button fields = do
  button ← parse_button (prop "button" fields)
  some (press_button button)

parse_action_of : String → Fields → Option DeviceAction
unfolding parse_tap parse_swipe parse_type_text parse_press_button
parse_action_of kind fields =
    if kind === "tap"
    then parse_tap fields
    else if kind === "swipe"
    then parse_swipe fields
    else if kind === "typeText"
    then parse_type_text fields
    else if kind === "screenshot"
    then some screenshot
    else if kind === "pressButton"
    then parse_press_button fields
    else if kind === "uiDump"
    then some ui_dump
    else none

-- `isDeviceAction`.
pub parse_action : Json → Option DeviceAction
unfolding parse_action_of
parse_action value = do
  fields ← as_record value
  kind ← as_string (prop "kind" fields)
  parse_action_of kind fields

-- `message.capabilities`, which an older agent leaves out.
parse_capabilities : Option Json → Option (Option (List String))
unfolding each
parse_capabilities none = some none
parse_capabilities (some j) = do
  entries ← as_array (some j)
  kinds ← each parse_string entries
  some (some kinds)

parse_register : Fields → Option AgentMessage
unfolding each parse_register_device parse_capabilities
parse_register fields = do
  entries ← as_array (prop "devices" fields)
  devices ← each parse_register_device entries
  capabilities ← parse_capabilities (prop "capabilities" fields)
  some (register devices capabilities)

parse_heartbeat : Fields → Option AgentMessage
unfolding each
parse_heartbeat fields = do
  entries ← as_array (prop "deviceIds" fields)
  ids ← each parse_string entries
  some (heartbeat ids)

abbrev parse_text_if : (String → Bool) → Option Json → Option String
parse_text_if test j = do s ← as_string j; only_if (test s) s

parse_command_result : Fields → Option AgentMessage
unfolding parse_outcome
parse_command_result fields = do
  request_id ← parse_text_if is_request_id (prop "requestId" fields)
  outcome ← prop "outcome" fields >>= parse_outcome
  some (command_result request_id outcome)

unfoldable pub parse_agent_message : Json → Option AgentMessage
unfolding parse_register parse_heartbeat parse_command_result prop
parse_agent_message message = do
  fields ← as_record message
  type ← as_string (prop "type" fields)
  if type === "register"
      then parse_register fields
      else if type === "heartbeat"
      then parse_heartbeat fields
      else if type === "commandResult"
      then parse_command_result fields
      else none

parse_command : Fields → Option ServerMessage
unfolding parse_action
parse_command fields = do
  request_id ← parse_text_if is_request_id (prop "requestId" fields)
  device_id ← parse_text_if is_device_id (prop "deviceId" fields)
  occupant_id ← parse_text_if is_occupant_id (prop "occupantId" fields)
  action ← prop "action" fields >>= parse_action
  some (command request_id device_id occupant_id action)

parse_stream_demand : Fields → Option ServerMessage
unfolding each
parse_stream_demand fields = do
  entries ← as_array (prop "deviceIds" fields)
  ids ← each parse_device_id entries
  some (stream_demand ids)

parse_occupancy_ended : Fields → Option ServerMessage
parse_occupancy_ended fields = do
  device_id ← parse_text_if is_device_id (prop "deviceId" fields)
  occupant_id ← parse_text_if is_occupant_id (prop "occupantId" fields)
  some (occupancy_ended device_id occupant_id)

unfoldable pub parse_server_message : Json → Option ServerMessage
unfolding parse_command parse_stream_demand parse_occupancy_ended prop
parse_server_message message = do
  fields ← as_record message
  type ← as_string (prop "type" fields)
  if type === "command"
      then parse_command fields
      else if type === "streamDemand"
      then parse_stream_demand fields
      else if type === "occupancyEnded"
      then parse_occupancy_ended fields
      else none
