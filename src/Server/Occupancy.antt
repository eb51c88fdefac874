-- ===== src/Server/Occupancy.antt =====
-- packages/server/src/occupancy (the two listeners, the sweeps) and devices/occupancy-events.service.ts,
-- with the services they join: one state of the server, and one step for each operation that changes
-- the table or the viewers. The bus is synchronous, so that an operation and its listeners are one step.
pub mod Access
pub mod Safety
use nebula_clone.Prelude.{
  ℕ, Bool, true, false, List, [], ◌∷◌, ◌++◌, map, Option, none, some, String,
}
use nebula_clone.Shared.Types.{RegisterDeviceInput}
use nebula_clone.Server.Devices.{Device, OccupyFilter, find_by_id}
use nebula_clone.Server.Devices.Service as Service
use nebula_clone.Server.Devices.Service.{
  OccupationEndReason, released, idle_expired, agent_stale, OccupationEndedEvent,
}
use nebula_clone.Server.Streams as Streams
use nebula_clone.Server.Streams.{Viewers, SocketView, close_viewers}
use nebula_clone.Server.Streams.Gateway as Watching
use nebula_clone.Server.Streams.Gateway.{StreamsGateway}
use nebula_clone.Server.Agents as Agents
use nebula_clone.Server.Agents.{Gateway, revoke_occupancy, agent_id_of_device}

pub record System : Type 0 where
  pub rows : List Device
  pub streams : StreamsGateway
  pub agents : Gateway

pub data Effect : Type 0 where
  on_viewers : Streams.Action → Effect
  on_agents : Agents.Action → Effect

-- What the calls read of the sockets.
pub record Sockets : Type 0 where
  pub view : SocketView
  pub is_open : ℕ → Bool

abbrev pub viewer_close_occupation_ended : ℕ
viewer_close_occupation_ended = 4408

abbrev pub close_reason : OccupationEndReason → String
close_reason released = "occupation released"
close_reason idle_expired = "occupation expired"
close_reason agent_stale = "device offline"

-- `StreamRevocationListener.revoke`.
unfoldable pub revoke_streams : Sockets → OccupationEndedEvent → System → System × List Effect
revoke_streams sockets event s =
    let (viewers', acts) =
      close_viewers sockets.view event.device_id event.occupant_id viewer_close_occupation_ended
        (close_reason event.reason) s.streams.viewers in
    (record s { streams = record s.streams { viewers = viewers' } }, map on_viewers acts)

-- `CommandRevocationListener.revoke`.
unfoldable pub revoke_commands : Sockets → OccupationEndedEvent → System → System × List Effect
revoke_commands sockets event s =
    let (agents', acts) =
      revoke_occupancy sockets.is_open event.device_id event.occupant_id
        (agent_id_of_device event.device_id s.rows) s.agents in
    (record s { agents = agents' }, map on_agents acts)

-- `publishEnded`, with the listeners of OccupancyModule in the order of its providers.
unfoldable pub publish_ended : Sockets → OccupationEndedEvent → System → System × List Effect
publish_ended sockets event s =
    let (s', acts) = revoke_streams sockets event s in
    let (s'', acts') = revoke_commands sockets event s' in (s'', acts ++ acts')

unfoldable pub publish_all : Sockets → List OccupationEndedEvent → System → System × List Effect
publish_all sockets [] s = (s, [])
publish_all sockets (event ∷ events) s =
    let (s', acts) = publish_ended sockets event s in
    let (s'', acts') = publish_all sockets events s' in (s'', acts ++ acts')

pub data Call : Type 0 where
  occupies : OccupyFilter → String → ℕ → Call
  releases : String → String → Call
  renews : String → String → ℕ → Call
  registers : List RegisterDeviceInput → String → ℕ → Call
  beats : List String → String → ℕ → Call
  loses_agent : ℕ → Call
  sweeps_idle : ℕ → ℕ → Call
  sweeps_stale : ℕ → ℕ → Call
  watches : Option String → ℕ → ℕ → Watching.Request → Call
  leaves : ℕ → Call

abbrev pub without_agent : Option String → List Device → List Device
without_agent none rows = rows
without_agent (some agent) rows = Service.handle_agent_disconnect agent rows

unfoldable pub step : Sockets → Call → System → System × List Effect
step sockets (occupies filter occupant now) s =
    let (rows', reply) = Service.occupy filter occupant now s.rows in
    (record s { rows = rows' }, [])
step sockets (releases device occupant) s =
    let (rows', reply, events) = Service.release device occupant s.rows in
    publish_all sockets events (record s { rows = rows' })
step sockets (renews device occupant now) s =
    let (rows', reply) = Service.renew_occupation device occupant now s.rows in
    (record s { rows = rows' }, [])
step sockets (registers devices agent now) s =
    (record s { rows = Service.register_from_agent devices agent now s.rows }, [])
step sockets (beats ids agent now) s =
    (record s { rows = Service.record_heartbeat ids agent now s.rows }, [])
step sockets (loses_agent client) s =
    let (agents', gone, acts) = Agents.handle_disconnect client s.agents in
    (record s { rows = without_agent gone s.rows; agents = agents' }, map on_agents acts)
step sockets (sweeps_idle ttl now) s =
    let (rows', events) = Service.expire_idle_occupations ttl now s.rows in
    publish_all sockets events (record s { rows = rows' })
step sockets (sweeps_stale timeout now) s =
    let (rows', events) = Service.expire_stale_devices timeout now s.rows in
    publish_all sockets events (record s { rows = rows' })
step sockets (watches expected now client request) s =
    let (streams', acts) =
      Watching.handle_connection expected now client request s.rows s.streams in
    (record s { streams = streams' }, map on_viewers acts)
step sockets (leaves client) s =
    let (streams', acts) = Watching.handle_disconnect client s.streams in
    (record s { streams = streams' }, map on_viewers acts)

unfoldable pub run : Sockets → List Call → System → System
run sockets [] s = s
run sockets (c ∷ cs) s = run sockets cs (step sockets c s).0
