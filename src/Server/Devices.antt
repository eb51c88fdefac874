-- ===== src/Server/Devices.antt =====
-- packages/server/src/devices: device.types.ts and sqlite-devices.repository.ts. The table is the list
-- of its rows in the order of insertion, which is the order in which SQLite scans it; a timestamp is
-- the number of milliseconds that its ISO text, which is of fixed width, stands for. Each method
-- returns the rows after it. A transaction is one function, since better-sqlite3 is synchronous.
pub mod Rows
pub mod Sweeps
pub mod Occupancy
pub mod Calls
pub mod Locks
pub mod Service
pub mod Ended
use Prim.Native.Nat.{Ordering}
use Prim.Native.String.{compare}
use nebula_clone.Prelude.{
  ℕ, suc, Bool, true, false, not, ◌&&◌, ◌||◌, List, [], ◌∷◌, ◌++◌, map, Option, none, some, String,
  all, any, filter, find, length, ltb, ◌==◌, ◌===◌, if◌then◌else◌, is_truthy, is_none, is_text,
}
use nebula_clone.Shared.Types.{DevicePlatform, ios, android, RegisterDeviceInput}

pub data DeviceStatus : Type 0 where
  online offline : DeviceStatus

pub record Device : Type 0 where
  pub id : String
  pub name : String
  pub platform : DevicePlatform
  pub os_version : String
  pub tags : List String
  pub status : DeviceStatus
  pub agent_id : Option String
  pub occupant_id : Option String
  pub occupied_at : Option ℕ
  pub last_heartbeat_at : Option ℕ
  pub last_activity_at : Option ℕ

pub record OccupyFilter : Type 0 where
  pub platform : Option DevicePlatform
  pub tags : Option (List String)
  pub device_id : Option String

pub data OccupationFailure : Type 0 where
  not_found not_occupied forbidden : OccupationFailure

-- `done` is 'released' or 'renewed'.
pub data OccupationResult : Type 0 where
  done : OccupationResult
  failed : OccupationFailure → OccupationResult

pub record EndedOccupation : Type 0 where
  pub device_id : String
  pub occupant_id : String

pub record StaleDevice : Type 0 where
  pub device_id : String
  pub occupant_id : Option String

abbrev pub is_online : DeviceStatus → Bool
is_online online = true
is_online offline = false

abbrev pub same_platform : DevicePlatform → DevicePlatform → Bool
same_platform ios ios = true
same_platform android android = true
same_platform _ _ = false

-- `column IS NULL OR column < cutoff`.
abbrev pub is_before : ℕ → Option ℕ → Bool
is_before cutoff none = true
is_before cutoff (some t) = ltb t cutoff

-- `UPDATE devices SET … WHERE …`.
pub update_where : (Device → Bool) → (Device → Device) → List Device → List Device
update_where p f [] = []
update_where p f (d ∷ rows) = (if p d then f d else d) ∷ update_where p f rows

abbrev pub has_id : String → Device → Bool
has_id id d = d.id === id

unfoldable pub find_by_id : String → List Device → Option Device
find_by_id id [] = none
find_by_id id (d ∷ rows) = if d.id === id then some d else find_by_id id rows

-- `ORDER BY name`: texts are compared by their code points, as SQLite compares UTF-8 bytes.
insert_by_name : Device → List Device → List Device
insert_by_name d [] = d ∷ []
insert_by_name d (e ∷ rows) = elim (compare d.name e.name) [
  | Ordering.gt ↦ e ∷ insert_by_name d rows
  | _ ↦ d ∷ e ∷ rows
]

unfoldable pub find_all : List Device → List Device
unfolding insert_by_name
find_all [] = []
find_all (d ∷ rows) = insert_by_name d (find_all rows)

abbrev registered : RegisterDeviceInput → String → ℕ → Device → Device
registered item agent_id now d = record d {
  name = item.name;
  platform = item.platform;
  os_version = item.os_version;
  tags = item.tags;
  status = online;
  agent_id = some agent_id;
  last_heartbeat_at = some now;
}

abbrev inserted : RegisterDeviceInput → String → ℕ → Device
inserted item agent_id now = record {
  id = item.id;
  name = item.name;
  platform = item.platform;
  os_version = item.os_version;
  tags = item.tags;
  status = online;
  agent_id = some agent_id;
  occupant_id = none;
  occupied_at = none;
  last_heartbeat_at = some now;
  last_activity_at = none;
}

-- The upsert statement for one device.
pub upsert : RegisterDeviceInput → String → ℕ → List Device → List Device
upsert item agent_id now rows = elim (find_by_id item.id rows) [
  | none ↦ rows ++ inserted item agent_id now ∷ []
  | some _ ↦ update_where (has_id item.id) (registered item agent_id now) rows
]

pub upsert_many : List RegisterDeviceInput → String → ℕ → List Device → List Device
upsert_many [] agent_id now rows = rows
upsert_many (item ∷ items) agent_id now rows =
    upsert_many items agent_id now (upsert item agent_id now rows)

abbrev includes : List String → String → Bool
includes tags tag = any (λ t. t === tag) tags

abbrev pub has_all_tags : List String → List String → Bool
has_all_tags device_tags required_tags = all (includes device_tags) required_tags

abbrev platform_matches : Option DevicePlatform → DevicePlatform → Bool
platform_matches none p = true
platform_matches (some q) p = same_platform p q

abbrev tags_or_none : Option (List String) → List String
tags_or_none none = []
tags_or_none (some tags) = tags

abbrev pub matches_filter : OccupyFilter → Device → Bool
matches_filter filter d =
    (not (is_truthy filter.device_id) || is_text filter.device_id d.id)
    && platform_matches filter.platform d.platform
    && has_all_tags d.tags (tags_or_none filter.tags)

abbrev pub is_available : Device → Bool
is_available d = is_online d.status && is_none d.occupant_id

abbrev occupied : String → ℕ → Device → Device
occupied occupant_id now d = record d {
  occupant_id = some occupant_id;
  occupied_at = some now;
  last_activity_at = some now;
}

pub try_occupy : OccupyFilter → String → ℕ → List Device → List Device × Option Device
try_occupy filter_by occupant_id now rows =
    elim (find (matches_filter filter_by) (filter is_available rows)) [
      | none ↦ (rows, none)
      | some candidate ↦
          let guard : Device → Bool = λ d. has_id candidate.id d && is_available d in
          let rows' = update_where guard (occupied occupant_id now) rows in
          if length (filter guard rows) == 1
          then (rows', find_by_id candidate.id rows')
          else (rows', none)
    ]

-- The three columns of an occupation set to NULL.
abbrev pub vacated : Device → Device
vacated d = record d { occupant_id = none; occupied_at = none; last_activity_at = none }

-- The checks that `release` and `renewOccupation` begin with.
abbrev pub check_occupant : String → Option Device → OccupationResult
check_occupant occupant_id none = failed not_found
check_occupant occupant_id (some d) =
    if not (is_truthy d.occupant_id)
    then failed not_occupied
    else if not (is_text d.occupant_id occupant_id)
    then failed forbidden
    else done

pub release : String → String → List Device → List Device × OccupationResult
release device_id occupant_id rows = elim (check_occupant occupant_id (find_by_id device_id rows)) [
  | failed e ↦ (rows, failed e)
  | done ↦ (update_where (has_id device_id) vacated rows, done)
]

abbrev active : ℕ → Device → Device
active now d = record d { last_activity_at = some now }

pub renew_occupation : String → String → ℕ → List Device → List Device × OccupationResult
renew_occupation device_id occupant_id now rows =
    elim (check_occupant occupant_id (find_by_id device_id rows)) [
      | failed e ↦ (rows, failed e)
      | done ↦ (
        update_where (λ d. has_id device_id d && is_text d.occupant_id occupant_id) (active now)
            rows,
        done,
      )
    ]

-- The rows that the query of the sweep selects, with the occupations they hold.
pub ended_rows : ℕ → List Device → List EndedOccupation
ended_rows cutoff [] = []
ended_rows cutoff (d ∷ rows) =
    let rest = ended_rows cutoff rows in
    elim d.occupant_id [
      | none ↦ rest
      | some o ↦
          if is_before cutoff d.last_activity_at
          then record { device_id = d.id; occupant_id = o } ∷ rest
          else rest
    ]

-- The loop of a prepared statement over the devices that a query returned.
pub update_each : (Device → Device) → List String → List Device → List Device
update_each f [] rows = rows
update_each f (id ∷ ids) rows = update_each f ids (update_where (has_id id) f rows)

pub expire_idle_occupations : ℕ → List Device → List Device × List EndedOccupation
expire_idle_occupations cutoff rows =
    let ended = ended_rows cutoff rows in
    (update_each vacated (map (λ (e : EndedOccupation). e.device_id) ended) rows, ended)

abbrev pub beaten : ℕ → Device → Device
beaten now d = record d { last_heartbeat_at = some now; status = online }

pub heartbeat : List String → String → ℕ → List Device → List Device
heartbeat [] agent_id now rows = rows
heartbeat (id ∷ ids) agent_id now rows =
    heartbeat ids agent_id now
      (update_where (λ d. has_id id d && is_text d.agent_id agent_id) (beaten now) rows)

abbrev pub cut_off : Device → Device
cut_off d = record d { status = offline; agent_id = none }

pub mark_agent_offline : String → List Device → List Device
mark_agent_offline agent_id rows = update_where (λ d. is_text d.agent_id agent_id) cut_off rows

pub is_stale : ℕ → Device → Bool
is_stale cutoff d =
    (is_online d.status || not (is_none d.occupant_id)) && is_before cutoff d.last_heartbeat_at

abbrev pub lost : Device → Device
lost d = record d {
  status = offline;
  occupant_id = none;
  occupied_at = none;
  last_activity_at = none;
}

abbrev pub stale_device : Device → StaleDevice
stale_device d = record { device_id = d.id; occupant_id = d.occupant_id }

pub mark_stale_offline : ℕ → List Device → List Device × List StaleDevice
unfolding is_stale
mark_stale_offline cutoff rows =
    let stale = map stale_device (filter (is_stale cutoff) rows) in
    (update_each lost (map (λ (s : StaleDevice). s.device_id) stale) rows, stale)
