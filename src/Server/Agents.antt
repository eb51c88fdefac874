-- ===== src/Server/Agents.antt =====
-- packages/server/src/agents/agents.gateway.ts. A socket is a number, its identity. Each handler
-- returns the gateway after it and what it did, in order; the table of devices and the viewers belong
-- to the other services and are passed in. A timer is pending exactly as long as its command is.
pub mod Pending
pub mod Tunnel
pub mod Sockets
pub mod Superseded
use Prim.Native.String
use nebula_clone.Prelude.{
  ℕ, Bool, true, false, not, ◌&&◌, ◌||◌, List, [], ◌∷◌, ◌++◌, map, Option, none, some, String, any,
  filter, ◌==◌, ◌===◌, if◌then◌else◌, is_truthy, is_text,
}
use nebula_clone.Js.Table.{get, set, delete, keys, Key, String_key, ℕ_key}
use nebula_clone.Js.Pattern.{is_alnum, matches}
use nebula_clone.Shared.Types.{
  DeviceAction, kind, device_action_kinds, CommandOutcome, error, command_error_timeout,
  command_error_agent_disconnected, command_error_unsupported, command_error_occupation_ended,
  ServerMessage, command, occupancy_ended, stream_demand,
}
use nebula_clone.Server.Auth.{Failures, is_blocked, record_failure, extract_bearer_token}
use nebula_clone.Server.Devices.{Device, find_all, find_by_id}
use nebula_clone.Server.Streams.{Viewers, viewed_device_ids}

pub record PendingCommand : Type 0 where
  pub agent_id : String
  pub device_id : String
  pub occupant_id : String

abbrev pub PendingCommands : Type 0
PendingCommands = List (String × PendingCommand)

pub record Gateway : Type 0 where
  pub agent_sockets : List (String × ℕ)
  pub pending_commands : PendingCommands
  pub agent_capabilities : List (String × List String)
  pub rate_limiter : Failures
  -- `client.agentId`, which a connection attaches to its socket.
  pub attached : List (ℕ × String)

pub data Action : Type 0 where
  close : ℕ → ℕ → String → Action
  send : ℕ → ServerMessage → Action
  resolve : String → CommandOutcome → Action

-- What is read of a connection request.
pub record Request : Type 0 where
  pub remote_ip : Option String
  pub authorization : Option String
  pub query_token : Option String
  pub query_agent_id : Option String

-- [A-Za-z0-9_-]
abbrev agent_id_class : ℕ → Bool
agent_id_class c = is_alnum c || c == b'_' || c == b'-'

unfoldable pub is_agent_id : String → Bool
unfolding matches
is_agent_id value = matches agent_id_class 64 value

abbrev pub legacy_action_kinds : List String
legacy_action_kinds = filter (λ kind. not (kind === "pressButton")) device_action_kinds

abbrev or_else : Option String → Option String → Option String
or_else none b = b
or_else (some a) b = some a

abbrev token_matches : Option String → Option String → Bool
token_matches none token = false
token_matches (some expected) none = false
token_matches (some expected) (some token) = is_truthy (some expected) && token === expected

unfoldable pub is_authorized : Option String → Request → Bool
is_authorized expected request =
    token_matches expected
      (or_else (extract_bearer_token request.authorization) request.query_token)

unfoldable pub resolve_agent_id : String → Request → Option String
unfolding is_agent_id
resolve_agent_id uuid request = elim request.query_agent_id [
  | none ↦ some (String.◌++◌ "agent-" uuid)
  | some id ↦ if is_agent_id id then some id else none
]

-- A device's row, or `null` where `getById` throws.
abbrev agent_of : Option Device → Option String
agent_of none = none
agent_of (some d) = d.agent_id

pub agent_id_of_device : String → List Device → Option String
agent_id_of_device device rows = agent_of (find_by_id device rows)

unfoldable pub owns_device : String → String → List Device → Bool
unfolding agent_id_of_device
owns_device agent device rows = is_text (agent_id_of_device device rows) agent

pub demanded_ids : String → List Device → Viewers → List String
demanded_ids agent rows viewers =
    map (λ (d : Device). d.id)
      (filter (λ d. is_text d.agent_id agent && any (λ v. v === d.id) (viewed_device_ids viewers))
        (find_all rows))

-- A message to the agent, if its current socket is open.
pub send_to_agent : (ℕ → Bool) → String → ServerMessage → Gateway → List Action
send_to_agent is_open agent message g = elim (get agent g.agent_sockets) [
  | none ↦ []
  | some socket ↦ if is_open socket then send socket message ∷ [] else []
]

unfoldable pub send_stream_demand_for :
    (ℕ → Bool) → Option String → List Device → Viewers → Gateway → List Action
unfolding send_to_agent
send_stream_demand_for is_open none rows viewers g = []
send_stream_demand_for is_open (some agent) rows viewers g =
    if is_truthy (some agent)
    then send_to_agent is_open agent (stream_demand (demanded_ids agent rows viewers)) g
    else []

-- A client that replaces the socket of its agent closes the old one.
abbrev superseded : Option ℕ → ℕ → List Action
superseded none client = []
superseded (some existing) client =
    if existing == client then [] else close existing 4409 "superseded" ∷ []

pub connect : ℕ → String → Gateway → Gateway × List Action
connect client agent g = (
  record g {
    agent_sockets = set agent client g.agent_sockets;
    attached = set client agent g.attached;
  },
  superseded (get agent g.agent_sockets) client,
)

unfoldable pub handle_connection :
    Option String → String → ℕ → ℕ → Request → Gateway → Gateway × List Action
unfolding connect
handle_connection expected uuid now client request g =
    if is_blocked request.remote_ip now g.rate_limiter
    then (g, close client 4429 "rate limited" ∷ [])
    else if not (is_authorized expected request)
    then (
      record g { rate_limiter = record_failure request.remote_ip now g.rate_limiter },
      close client 4401 "unauthorized" ∷ [],
    )
    else elim (resolve_agent_id uuid request) [
      | none ↦ (g, close client 4400 "invalid agentId" ∷ [])
      | some agent ↦ connect client agent g
    ]

-- The loops that fail the pending commands which a test selects.
pub surviving : (PendingCommand → Bool) → PendingCommands → PendingCommands
surviving test [] = []
surviving test ((id, p) ∷ rest) =
    let kept = surviving test rest in if test p then kept else (id, p) ∷ kept

pub failures : (PendingCommand → Bool) → String → PendingCommands → List Action
failures test reason [] = []
failures test reason ((id, p) ∷ rest) =
    let later = failures test reason rest in
    if test p then resolve id (error reason) ∷ later else later

pub fail_where : (PendingCommand → Bool) → String → Gateway → Gateway × List Action
fail_where test reason g = (
  record g { pending_commands = surviving test g.pending_commands },
  failures test reason g.pending_commands,
)

unfoldable pub fail_pending_commands : String → Gateway → Gateway × List Action
unfolding fail_where
fail_pending_commands agent g =
    fail_where (λ p. p.agent_id === agent) command_error_agent_disconnected g

unfoldable pub fail_pending_by_occupation : String → String → Gateway → Gateway × List Action
unfolding fail_where
fail_pending_by_occupation device occupant g =
    fail_where (λ p. p.device_id === device && p.occupant_id === occupant)
      command_error_occupation_ended g

abbrev is_socket : Option ℕ → ℕ → Bool
is_socket none client = false
is_socket (some socket) client = socket == client

-- Whether a socket is the current one of the agent that it is attached to.
unfoldable pub current_agent : ℕ → Gateway → Option String
current_agent client g = elim (get client g.attached) [
  | none ↦ none
  | some agent ↦
      if is_truthy (some agent) && is_socket (get agent g.agent_sockets) client
      then some agent
      else none
]

-- `handleDisconnect`; `some agent` tells the device service that the agent is gone.
unfoldable pub handle_disconnect : ℕ → Gateway → Gateway × Option String × List Action
handle_disconnect client g = elim (current_agent client g) [
  | none ↦ (g, none, [])
  | some agent ↦
      let (g', acts) = fail_pending_commands agent (record g {
        agent_sockets = delete agent g.agent_sockets;
        agent_capabilities = delete agent g.agent_capabilities;
      }) in
      (g', some agent, acts)
]

unfoldable pub revoke_occupancy :
    (ℕ → Bool) → String → String → Option String → Gateway → Gateway × List Action
unfolding send_to_agent
revoke_occupancy is_open device occupant agent g =
    let (g', acts) = fail_pending_by_occupation device occupant g in
    elim agent [
      | none ↦ (g', acts)
      | some a ↦
          if is_truthy (some a)
          then (g', acts ++ send_to_agent is_open a (occupancy_ended device occupant) g')
          else (g', acts)
    ]

-- `waiting` is the promise that a later `resolve` of the request settles.
pub data SendResult : Type 0 where
  agent_not_connected : SendResult
  answered : CommandOutcome → SendResult
  waiting : String → SendResult

abbrev capabilities_of : Option (List String) → List String
capabilities_of none = legacy_action_kinds
capabilities_of (some kinds) = kinds

pub send_command :
    (ℕ → Bool)
    → String
    → String
    → String
    → String
    → DeviceAction
    → Gateway
    → Gateway × SendResult × List Action
send_command is_open uuid agent device occupant action g = elim (get agent g.agent_sockets) [
  | none ↦ (g, agent_not_connected, [])
  | some socket ↦
      if not (is_open socket)
      then (g, agent_not_connected, [])
      else if not (any (λ k. k === kind action) (capabilities_of (get agent g.agent_capabilities)))
      then (g, answered (error command_error_unsupported), [])
      else (
        record g {
          pending_commands =
              set uuid (record { agent_id = agent; device_id = device; occupant_id = occupant })
                g.pending_commands;
        },
        waiting uuid,
        send socket (command uuid device occupant action) ∷ [],
      )
]

-- The timer of a command, which is cleared when the command is settled in another way.
unfoldable pub time_out : String → Gateway → Gateway × List Action
time_out request_id g = elim (get request_id g.pending_commands) [
  | none ↦ (g, [])
  | some p ↦ (
    record g { pending_commands = delete request_id g.pending_commands },
    resolve request_id (error command_error_timeout) ∷ [],
  )
]

unfoldable pub resolve_command : String → String → CommandOutcome → Gateway → Gateway × List Action
resolve_command agent request_id outcome g = elim (get request_id g.pending_commands) [
  | none ↦ (g, [])
  | some p ↦ if not (p.agent_id === agent) then (g, []) else (
    record g { pending_commands = delete request_id g.pending_commands },
    resolve request_id outcome ∷ [],
  )
]
