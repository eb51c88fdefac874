-- ===== src/Server/Agents/Sockets.antt =====
-- agents.gateway.ts: the calls that leave the sockets of the agents as they are.
use nebula_clone.Prelude.{
  ℕ, Bool, List, Option, none, some, String, ◌≡◌, refl, arith, Option-cases, Bool-cases, inl, inr,
}
use nebula_clone.Js.Table.{get, String_key, ℕ_key}
use nebula_clone.Js.Json.{Json}
use nebula_clone.Shared.Types.{
  CommandOutcome, DeviceAction, AgentMessage, register, heartbeat, command_result,
}
use nebula_clone.Shared.Messages.{parse_agent_message}
use nebula_clone.Shared.Frames.{TextCodec, decode_agent_frame}
use nebula_clone.Server.Devices.{Device}
use nebula_clone.Server.Streams.{Viewers, SocketView}
use nebula_clone.Server.Agents.{
  Gateway, fail_pending_by_occupation, revoke_occupancy, send_command, time_out, resolve_command,
  owns_device,
}
use nebula_clone.Server.Agents.Tunnel.{
  Incoming, text, binary, on_message, handle_message, handle_parsed, handle_frame,
}

-- What a message is received with.
pub record Reception : Type 0 where
  pub codec : TextCodec
  pub is_open : ℕ → Bool
  pub view : SocketView
  pub now : ℕ
  pub viewers : Viewers
  pub rows : List Device

-- The sockets of the agents and the agents of the sockets.
abbrev pub IsSame : Gateway → Gateway → Type 0
IsSame g h = (h.agent_sockets ≡ g.agent_sockets) × (h.attached ≡ g.attached)

pub resolve-IsSame :
    (agent request : String) (outcome : CommandOutcome) (g : Gateway)
    → IsSame g (resolve_command agent request outcome g).0
unfolding resolve_command
resolve-IsSame agent request outcome g = elim (Option-cases (get request g.pending_commands)) [
  | inl e ↦ rw (resolve_command, e) (refl, refl)
  | inr (p, e) ↦ rw (resolve_command, e) (ground arith)
]

parsed-IsSame :
    (r : Reception) (agent : String) (m : AgentMessage) (g : Gateway)
    → IsSame g (handle_parsed r.codec r.is_open r.view r.now r.viewers agent m r.rows g).gateway
unfolding handle_parsed
parsed-IsSame r agent (register devices capabilities) g = (refl, refl)
parsed-IsSame r agent (heartbeat ids) g = (refl, refl)
parsed-IsSame r agent (command_result request outcome) g = resolve-IsSame agent request outcome g

text-IsSame :
    (r : Reception) (agent : String) (raw : Option Json) (g : Gateway)
    → IsSame g (handle_message r.codec r.is_open r.view r.now r.viewers agent raw r.rows g).gateway
unfolding handle_message
text-IsSame r agent none g = (refl, refl)
text-IsSame r agent (some raw) g = elim (Option-cases (parse_agent_message raw)) [
  | inl e ↦ rw (handle_message, e) (refl, refl)
  | inr (m, e) ↦ rw (handle_message, e) (parsed-IsSame r agent m g)
]

frame-IsSame :
    (r : Reception) (agent : String) (bytes : List ℕ) (g : Gateway)
    → IsSame g (handle_frame r.codec r.is_open r.view r.now r.viewers agent bytes r.rows g).gateway
unfolding handle_frame
frame-IsSame r agent bytes g = elim (Option-cases (decode_agent_frame r.codec bytes)) [
  | inl e ↦ rw (handle_frame, e) (refl, refl)
  | inr (frame, e) ↦
      rw (handle_frame, e)
        (elim (Bool-cases (owns_device agent frame.device_id r.rows)) [
          | inl owns ↦ rw (owns) (refl, refl)
          | inr foreign ↦ rw (foreign) (refl, refl)
        ])
]

pub message-IsSame :
    (r : Reception) (client : ℕ) (agent : String) (incoming : Incoming) (g : Gateway)
    → IsSame g
        (on_message r.codec r.is_open r.view r.now r.viewers client agent incoming r.rows g).gateway
unfolding on_message
message-IsSame r client agent (text raw) g = ground (arith, text-IsSame r agent raw g)
message-IsSame r client agent (binary bytes) g = ground (arith, frame-IsSame r agent bytes g)

pub time_out-IsSame : (request : String) (g : Gateway) → IsSame g (time_out request g).0
unfolding time_out
time_out-IsSame request g = elim (Option-cases (get request g.pending_commands)) [
  | inl e ↦ rw (time_out, e) (refl, refl)
  | inr (p, e) ↦ rw (time_out, e) (refl, refl)
]

pub revoke-IsSame :
    (is_open : ℕ → Bool) (device occupant : String) (agent : Option String) (g : Gateway)
    → IsSame g (revoke_occupancy is_open device occupant agent g).0
unfolding revoke_occupancy fail_pending_by_occupation
revoke-IsSame is_open device occupant none g = (refl, refl)
revoke-IsSame is_open device occupant (some agent) g = ground arith

pub send-IsSame :
    (is_open : ℕ → Bool) (uuid agent device occupant : String) (action : DeviceAction) (g : Gateway)
    → IsSame g (send_command is_open uuid agent device occupant action g).0
send-IsSame is_open uuid agent device occupant action g = unfold send_command in ground arith
