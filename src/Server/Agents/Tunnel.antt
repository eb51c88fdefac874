-- ===== src/Server/Agents/Tunnel.antt =====
-- agents.gateway.ts: what arrives on an agent's socket (`client.on('message')`, `handleMessage`,
-- `handleFrame`) and the notice of demand. `JSON.parse` and the decoding of UTF-8 are parameters: a text
-- message is the value that its text parses to, or `none`.
use nebula_clone.Prelude.{
  ℕ, Bool, false, not, List, [], Option, none, some, String, ◌==◌, if◌then◌else◌,
}
use nebula_clone.Js.Json.{Json}
use nebula_clone.Js.Table.{get, set, String_key}
use nebula_clone.Shared.Types.{AgentMessage, register, heartbeat, command_result}
use nebula_clone.Shared.Messages.{parse_agent_message}
use nebula_clone.Shared.Frames.{TextCodec, decode_agent_frame}
use nebula_clone.Server.Devices.{Device}
use nebula_clone.Server.Devices.Service.{register_from_agent, record_heartbeat}
use nebula_clone.Server.Streams as Streams
use nebula_clone.Server.Streams.{Viewers, SocketView, broadcast}
use nebula_clone.Server.Agents.{
  Gateway, Action, legacy_action_kinds, agent_id_of_device, owns_device, send_stream_demand_for,
  resolve_command,
}

pub data Incoming : Type 0 where
  text : Option Json → Incoming
  binary : List ℕ → Incoming

pub record Outcome : Type 0 where
  pub rows : List Device
  pub gateway : Gateway
  pub agent_actions : List Action
  pub viewer_actions : List Streams.Action

abbrev capabilities_or_legacy : Option (List String) → List String
capabilities_or_legacy none = legacy_action_kinds
capabilities_or_legacy (some kinds) = kinds

module _ (codec : TextCodec) (is_open : ℕ → Bool) (view : SocketView) (now : ℕ)
    (viewers : Viewers) where
  -- The three kinds of messages.
  unfoldable pub handle_parsed : String → AgentMessage → List Device → Gateway → Outcome
  handle_parsed agent (register devices capabilities) rows g =
      let rows' = register_from_agent devices agent now rows in
      let g' : Gateway = record g {
        agent_capabilities = set agent (capabilities_or_legacy capabilities) g.agent_capabilities;
      } in
      record {
        rows = rows';
        gateway = g';
        agent_actions = send_stream_demand_for is_open (some agent) rows' viewers g';
        viewer_actions = [];
      }
  handle_parsed agent (heartbeat device_ids) rows g = record {
    rows = record_heartbeat device_ids agent now rows;
    gateway = g;
    agent_actions = [];
    viewer_actions = [];
  }
  handle_parsed agent (command_result request_id outcome) rows g =
      let (g', acts) = resolve_command agent request_id outcome g in
      record { rows = rows; gateway = g'; agent_actions = acts; viewer_actions = [] }

  abbrev ignored : List Device → Gateway → Outcome
  ignored rows g = record { rows = rows; gateway = g; agent_actions = []; viewer_actions = [] }

  -- A text that does not parse, and a value that is no message, are ignored.
  unfoldable pub handle_message : String → Option Json → List Device → Gateway → Outcome
  handle_message agent none rows g = ignored rows g
  handle_message agent (some raw) rows g = elim (parse_agent_message raw) [
    | none ↦ ignored rows g
    | some message ↦ handle_parsed agent message rows g
  ]

  -- An exception of the encoder in `broadcast` leaves `handleFrame`, with nothing sent.
  abbrev sent_or_none : Option (List Streams.Action) → List Streams.Action
  sent_or_none none = []
  sent_or_none (some acts) = acts

  unfoldable pub handle_frame : String → List ℕ → List Device → Gateway → Outcome
  handle_frame agent bytes rows g = elim (decode_agent_frame codec bytes) [
    | none ↦ ignored rows g
    | some frame ↦ if not (owns_device agent frame.device_id rows) then ignored rows g else record {
      rows = rows;
      gateway = g;
      agent_actions = [];
      viewer_actions = sent_or_none (broadcast view frame viewers);
    }
  ]

  abbrev is_socket_of : ℕ → Option ℕ → Bool
  is_socket_of client none = false
  is_socket_of client (some socket) = socket == client

  -- The handler of a socket that connected as `agent`.
  unfoldable pub on_message : ℕ → String → Incoming → List Device → Gateway → Outcome
  on_message client agent incoming rows g =
      if not (is_socket_of client (get agent g.agent_sockets))
      then ignored rows g
      else elim incoming [
        | text raw ↦ handle_message agent raw rows g
        | binary bytes ↦ handle_frame agent bytes rows g
      ]

-- The listener that `onApplicationBootstrap` adds to the relay.
unfoldable pub on_demand_changed :
    (ℕ → Bool) → String → List Device → Viewers → Gateway → List Action
on_demand_changed is_open device rows viewers g =
    send_stream_demand_for is_open (agent_id_of_device device rows) rows viewers g
