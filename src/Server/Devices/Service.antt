-- ===== src/Server/Devices/Service.antt =====
-- packages/server/src/devices/devices.service.ts. An operation returns the rows after it, its reply and
-- the ends of occupations that it publishes, in order; who listens is Server/Occupancy. The time and
-- the fresh occupant id are arguments.
use nebula_clone.Prelude.{
  ℕ, ◌+◌, ◌-◌, List, [], ◌∷◌, map, Option, none, some, String, if◌then◌else◌, is_truthy,
}
use nebula_clone.Shared.Types.{RegisterDeviceInput}
use nebula_clone.Server.Devices as Repository
use nebula_clone.Server.Devices.{
  Device, OccupyFilter, OccupationFailure, not_occupied, OccupationResult, done, failed,
  EndedOccupation, StaleDevice,
}

pub data OccupationEndReason : Type 0 where
  released idle_expired agent_stale : OccupationEndReason

pub record OccupationEndedEvent : Type 0 where
  pub device_id : String
  pub occupant_id : String
  pub reason : OccupationEndReason

-- The HTTP exceptions that a service throws: 404, 409, 403.
pub data Exception : Type 0 where
  not_found conflict forbidden : Exception

pub data Reply {ℓ} (A : Type ℓ) : Type ℓ where
  returns : A → Reply A
  throws : Exception → Reply A

abbrev pub occupation_error : OccupationFailure → Exception
occupation_error Repository.not_found = not_found
occupation_error not_occupied = conflict
occupation_error Repository.forbidden = forbidden

abbrev found : Option Device → Reply Device
found none = throws not_found
found (some d) = returns d

unfoldable pub get_by_id : String → List Device → Reply Device
get_by_id id rows = found (Repository.find_by_id id rows)

abbrev occupied : String → Option Device → Reply (String × Device)
occupied occupant_id none = throws conflict
occupied occupant_id (some d) = returns (occupant_id, d)

unfoldable pub occupy :
    OccupyFilter → String → ℕ → List Device → List Device × Reply (String × Device)
occupy filter occupant_id now rows =
    let (rows', device) = Repository.try_occupy filter occupant_id now rows in
    (rows', occupied occupant_id device)

unfoldable pub release :
    String → String → List Device → List Device × Reply Device × List OccupationEndedEvent
release device_id occupant_id rows =
    let (rows', result) = Repository.release device_id occupant_id rows in
    elim result [
      | failed e ↦ (rows', throws (occupation_error e), [])
      | done ↦ (
        rows',
        get_by_id device_id rows',
        record { device_id = device_id; occupant_id = occupant_id; reason = released } ∷ [],
      )
    ]

unfoldable pub renew_occupation : String → String → ℕ → List Device → List Device × Reply Device
renew_occupation device_id occupant_id now rows =
    let (rows', result) = Repository.renew_occupation device_id occupant_id now rows in
    elim result [
      | failed e ↦ (rows', throws (occupation_error e))
      | done ↦ (rows', get_by_id device_id rows')
    ]

abbrev pub idle_event : EndedOccupation → OccupationEndedEvent
idle_event e = record {
  device_id = e.device_id;
  occupant_id = e.occupant_id;
  reason = idle_expired;
}

-- No time stamp is before 1970, so that a cutoff before it selects what a cutoff of 0 selects.
unfoldable pub expire_idle_occupations :
    ℕ → ℕ → List Device → List Device × List OccupationEndedEvent
expire_idle_occupations occupation_ttl_ms now rows =
    let (rows', ended) = Repository.expire_idle_occupations (now - occupation_ttl_ms) rows in
    (rows', map idle_event ended)

abbrev expires_at : ℕ → Option ℕ → Option ℕ
expires_at ttl none = none
expires_at ttl (some t) = some (t + ttl)

pub occupation_expires_at : ℕ → Device → Option ℕ
occupation_expires_at occupation_ttl_ms device =
    expires_at occupation_ttl_ms device.last_activity_at

unfoldable pub register_from_agent :
    List RegisterDeviceInput → String → ℕ → List Device → List Device
register_from_agent devices agent_id now rows = Repository.upsert_many devices agent_id now rows

unfoldable pub record_heartbeat : List String → String → ℕ → List Device → List Device
record_heartbeat device_ids agent_id now rows = Repository.heartbeat device_ids agent_id now rows

unfoldable pub handle_agent_disconnect : String → List Device → List Device
handle_agent_disconnect agent_id rows = Repository.mark_agent_offline agent_id rows

-- The loop of `expireStaleDevices`, which skips a device that nobody held.
unfoldable pub stale_events : List StaleDevice → List OccupationEndedEvent
stale_events [] = []
stale_events (s ∷ stale) =
    let rest = stale_events stale in
    elim s.occupant_id [
      | none ↦ rest
      | some o ↦
          if is_truthy (some o)
          then record { device_id = s.device_id; occupant_id = o; reason = agent_stale } ∷ rest
          else rest
    ]

unfoldable pub expire_stale_devices : ℕ → ℕ → List Device → List Device × List OccupationEndedEvent
expire_stale_devices heartbeat_timeout_ms now rows =
    let (rows', stale) = Repository.mark_stale_offline (now - heartbeat_timeout_ms) rows in
    (rows', stale_events stale)
