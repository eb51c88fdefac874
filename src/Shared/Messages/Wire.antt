-- ===== src/Shared/Messages/Wire.antt =====
-- packages/shared/src/messages.ts: the messages as the values that `JSON.stringify` writes. A field that
-- is `undefined` is left out.
use nebula_clone.Prelude.{true, false, List, map, Option, none, some, String}
use nebula_clone.Js.Json.{Json, num, str, bool, arr, obj, Fields, end, field, to_items}
use nebula_clone.Shared.Types.{
  DevicePlatform, ios, android, RegisterDeviceInput, HardwareButton, home, back, DeviceAction, tap,
  swipe, type_text, ui_dump, screenshot, press_button, CommandOutcome, succeeded, error,
  AgentMessage, register, heartbeat, command_result, ServerMessage, command, occupancy_ended,
  stream_demand,
}

abbrev pub texts : List String → Json
texts ss = arr (to_items (map str ss))

abbrev pub platform_text : DevicePlatform → String
platform_text ios = "ios"
platform_text android = "android"

abbrev button_text : HardwareButton → String
button_text home = "home"
button_text back = "back"

abbrev pub device_json : RegisterDeviceInput → Json
device_json d = obj (
    field "id" (str d.id) (
      field "name" (str d.name) (
        field "platform" (str (platform_text d.platform))
          (field "osVersion" (str d.os_version) (field "tags" (texts d.tags) end)))))

abbrev pub action_json : DeviceAction → Json
action_json (tap x y) = obj (field "kind" (str "tap") (field "x" (num x) (field "y" (num y) end)))
action_json (swipe a b c d e) = obj (
    field "kind" (str "swipe") (
      field "fromX" (num a) (
        field "fromY" (num b)
          (field "toX" (num c) (field "toY" (num d) (field "durationMs" (num e) end))))))
action_json (type_text text) = obj (field "kind" (str "typeText") (field "text" (str text) end))
action_json ui_dump = obj (field "kind" (str "uiDump") end)
action_json screenshot = obj (field "kind" (str "screenshot") end)
action_json (press_button b) =
    obj (field "kind" (str "pressButton") (field "button" (str (button_text b)) end))

abbrev pub outcome_json : CommandOutcome → Json
outcome_json (succeeded none) = obj (field "ok" (bool true) end)
outcome_json (succeeded (some result)) = obj (field "ok" (bool true) (field "result" result end))
outcome_json (error e) = obj (field "ok" (bool false) (field "error" (str e) end))

abbrev capabilities_field : Option (List String) → Fields
capabilities_field none = end
capabilities_field (some kinds) = field "capabilities" (texts kinds) end

abbrev pub agent_message_json : AgentMessage → Json
agent_message_json (register devices capabilities) = obj (
    field "type" (str "register") (
      field "devices" (arr (to_items (map device_json devices))) (capabilities_field capabilities)))
agent_message_json (heartbeat ids) =
    obj (field "type" (str "heartbeat") (field "deviceIds" (texts ids) end))
agent_message_json (command_result request_id outcome) = obj (
    field "type" (str "commandResult")
      (field "requestId" (str request_id) (field "outcome" (outcome_json outcome) end)))

abbrev pub server_message_json : ServerMessage → Json
server_message_json (command request_id device_id occupant_id action) = obj (
    field "type" (str "command") (
      field "requestId" (str request_id) (
        field "deviceId" (str device_id)
          (field "occupantId" (str occupant_id) (field "action" (action_json action) end)))))
server_message_json (occupancy_ended device_id occupant_id) = obj (
    field "type" (str "occupancyEnded")
      (field "deviceId" (str device_id) (field "occupantId" (str occupant_id) end)))
server_message_json (stream_demand ids) =
    obj (field "type" (str "streamDemand") (field "deviceIds" (texts ids) end))
