-- ===== src/Server/Streams/Gateway.antt =====
-- packages/server/src/streams/streams.gateway.ts: who may watch. `attached` is the `deviceId` that a
-- connection attaches to its socket.
use nebula_clone.Prelude.{
  ℕ, Bool, false, not, ◌&&◌, List, [], ◌∷◌, Option, none, some, String, if◌then◌else◌, is_truthy,
  is_text,
}
use nebula_clone.Js.Table.{get, set, ℕ_key}
use nebula_clone.Server.Auth.{Failures, is_blocked, record_failure, accepts}
use nebula_clone.Server.Devices.{Device, find_by_id}
use nebula_clone.Server.Streams.{Viewers, Action, close, add_viewer, remove_viewer}

pub record StreamsGateway : Type 0 where
  pub viewers : Viewers
  pub rate_limiter : Failures
  pub attached : List (ℕ × String)

-- What is read of a connection request.
pub record Request : Type 0 where
  pub remote_ip : Option String
  pub token : Option String
  pub device_id : Option String
  pub occupant_id : Option String

abbrev holds : Option Device → String → Bool
holds none occupant = false
holds (some d) occupant = is_text d.occupant_id occupant

unfoldable pub is_occupant : String → String → List Device → Bool
is_occupant device occupant rows = holds (find_by_id device rows) occupant

-- `deviceId` and `occupantId`, if neither is missing or empty.
abbrev pub subscription : Option String → Option String → Option (String × String)
subscription none occupant = none
subscription (some device) none = none
subscription (some device) (some occupant) =
    if is_truthy (some device) && is_truthy (some occupant) then some (device, occupant) else none

abbrev blamed : Request → ℕ → StreamsGateway → StreamsGateway
blamed request now g = record g {
  rate_limiter = record_failure request.remote_ip now g.rate_limiter;
}

unfoldable pub handle_connection :
    Option String → ℕ → ℕ → Request → List Device → StreamsGateway → StreamsGateway × List Action
handle_connection expected now client request rows g =
    if is_blocked request.remote_ip now g.rate_limiter
    then (g, close client 4429 "rate limited" ∷ [])
    else if not (accepts request.token expected)
    then (blamed request now g, close client 4401 "unauthorized" ∷ [])
    else elim (subscription request.device_id request.occupant_id) [
      | none ↦ (g, close client 4400 "deviceId and occupantId required" ∷ [])
      | some (device, occupant) ↦
          if not (is_occupant device occupant rows)
          then (blamed request now g, close client 4403 "not occupant" ∷ [])
          else let (viewers', acts) = add_viewer device occupant client g.viewers in
            (record g { viewers = viewers'; attached = set client device g.attached }, acts)
    ]

unfoldable pub handle_disconnect : ℕ → StreamsGateway → StreamsGateway × List Action
handle_disconnect client g = elim (get client g.attached) [
  | none ↦ (g, [])
  | some device ↦
      if not (is_truthy (some device))
      then (g, [])
      else let (viewers', acts) = remove_viewer device client g.viewers in
        (record g { viewers = viewers' }, acts)
]
