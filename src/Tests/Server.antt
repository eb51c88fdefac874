-- ===== src/Tests/Server.antt =====
-- Concrete runs of the server's parts.
use nebula_clone.Prelude.{if◌then◌else◌, List, [], ◌∷◌, none, some, ◌≡◌, refl, str_discrete}
use nebula_clone.Js.Table.{String_key, ℕ_key}
use nebula_clone.Shared.Types.{ios, android}
use nebula_clone.Server.Devices.{
  Device, OccupyFilter, online, find_by_id, try_occupy, expire_idle_occupations, mark_stale_offline,
  offline,
}
use nebula_clone.Server.Devices.Rows.{IsUnique, revise}
use nebula_clone.Server.Devices.Sweeps.{
  is_unused, is_silent, emptied, reported, lost_device, unused_occupant, silent_row,
  expire_idle_occupations_lem, mark_stale_offline_lem,
}
use nebula_clone.Server.Devices.Occupancy.{Occupies, try_occupy-Occupies}
use nebula_clone.Server.Devices.Calls as Table
use nebula_clone.Server.Devices.Calls.{IsSound, run-IsSound}
use nebula_clone.Server.Devices.Locks.{Effect, occupants, step-Effect}
use nebula_clone.Server.Devices.Service as Service
use nebula_clone.Server.Devices.Service.{released}
use nebula_clone.Server.Devices.Ended.{
  PublishesEnds, is_answer, release-PublishesEnds, expire_idle_occupations-PublishesEnds,
}

-- A phone that alice holds, and one that is free.
abbrev held_phone : Device
held_phone = record {
  id = "phone";
  name = "Phone";
  platform = ios;
  os_version = "17.5";
  tags = "lab" ∷ [];
  status = online;
  agent_id = some "agent-1";
  occupant_id = some "alice";
  occupied_at = some 100;
  last_heartbeat_at = some 100;
  last_activity_at = some 100;
}

abbrev free_tablet : Device
free_tablet = record {
  id = "tablet";
  name = "Tablet";
  platform = android;
  os_version = "14";
  tags = "lab" ∷ [];
  status = online;
  agent_id = some "agent-1";
  occupant_id = none;
  occupied_at = none;
  last_heartbeat_at = some 900;
  last_activity_at = none;
}

abbrev pub table : List Device
table = held_phone ∷ free_tablet ∷ []

pub table-IsUnique : IsUnique table
unfolding find_by_id str_discrete
table-IsUnique = (refl, (refl, tt))

pub table-IsSound : IsSound table
table-IsSound = record { unique = table-IsUnique; consistent = ((refl, refl), ((refl, refl), tt)) }

abbrev any_android : OccupyFilter
any_android = record { platform = some android; tags = some ("lab" ∷ []); device_id = none }

try_occupy-Occupies_example :
    Occupies any_android "bob" 950 table (try_occupy any_android "bob" 950 table)
try_occupy-Occupies_example = try_occupy-Occupies any_android "bob" 950 table table-IsUnique

step-Effect_example :
    Effect
      (Table.releases "phone" "alice")
      (occupants table)
      (occupants (Table.step (Table.releases "phone" "alice") table))
step-Effect_example = step-Effect (Table.releases "phone" "alice") table table-IsUnique

run-IsSound_example : IsSound (
    Table.run
      (Table.upserts
          ((record { id = "phone"; name = "Phone"; platform = ios; os_version = "17.5"; tags = [] })
            ∷ [])
          "agent-1"
          10
        ∷ Table.occupies any_android "bob" 20
        ∷ Table.sweeps_stale 30
        ∷ [])
      [])
run-IsSound_example = run-IsSound (
    Table.upserts
      ((record { id = "phone"; name = "Phone"; platform = ios; os_version = "17.5"; tags = [] })
        ∷ [])
      "agent-1" 10
    ∷ Table.occupies any_android "bob" 20
    ∷ Table.sweeps_stale 30
    ∷ [])

expire_idle_occupations_lem_example :
    (find_by_id "phone" (expire_idle_occupations 500 table).0
      ≡ revise (is_unused 500) emptied (find_by_id "phone" table))
    × (reported "phone" (expire_idle_occupations 500 table).1
        ≡ unused_occupant 500 (find_by_id "phone" table))
expire_idle_occupations_lem_example = expire_idle_occupations_lem 500 table "phone" table-IsUnique

mark_stale_offline_lem_example :
    (find_by_id "phone" (mark_stale_offline 500 table).0
      ≡ revise
          (is_silent 500)
          (λ d. record (emptied d) { status = offline })
          (find_by_id "phone" table))
    × (lost_device "phone" (mark_stale_offline 500 table).1
        ≡ silent_row 500 (find_by_id "phone" table))
mark_stale_offline_lem_example = mark_stale_offline_lem 500 table "phone" table-IsUnique

expire_idle_occupations-PublishesEnds_example :
    PublishesEnds table
      (Service.expire_idle_occupations 400 900 table).0
      (Service.expire_idle_occupations 400 900 table).1
expire_idle_occupations-PublishesEnds_example =
    expire_idle_occupations-PublishesEnds 400 900 table table-IsUnique

release-PublishesEnds_example :
    PublishesEnds table
      (Service.release "phone" "alice" table).0
      (Service.release "phone" "alice" table).2
    × ((Service.release "phone" "alice" table).2 ≡ (
        if is_answer (Service.release "phone" "alice" table).1
        then record { device_id = "phone"; occupant_id = "alice"; reason = released } ∷ []
        else []))
release-PublishesEnds_example = release-PublishesEnds "phone" "alice" table
