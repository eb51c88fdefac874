-- ===== src/Server/Devices/Sweeps.antt =====
-- sqlite-devices.repository.ts: what the two sweeps do to each row and what they report.
use nebula_clone.Prelude.{
  ℕ, Bool, false, not, ◌&&◌, ◌||◌, leb, List, [], ◌∷◌, map, Option, none, some, String, filter,
  ◌===◌, if◌then◌else◌, is_none, ◌≡◌, refl, ◌∙◌, arith, inl, inr, Option-cases,
}
use nebula_clone.Server.Devices.{
  Device, offline, is_online, EndedOccupation, StaleDevice, find_by_id, ended_rows, is_before,
  is_stale, vacated, lost, expire_idle_occupations, mark_stale_offline,
}
use nebula_clone.Server.Devices.Rows.{revise, IsUnique, is_one_of, find-update_each, find-id}

abbrev pub is_idle : ℕ → Device → Bool
is_idle cutoff d = not (is_none d.occupant_id) && is_before cutoff d.last_activity_at

-- The occupation of a device that a sweep reports to have ended.
abbrev pub reported : String → List EndedOccupation → Option String
reported j [] = none
reported j (e ∷ es) = if e.device_id === j then some e.occupant_id else reported j es

abbrev pub idle_occupant : ℕ → Option Device → Option String
idle_occupant cutoff none = none
idle_occupant cutoff (some d) = if is_before cutoff d.last_activity_at then d.occupant_id else none

abbrev is_reported : Option String → Bool
is_reported o = not (is_none o)

reported_of_missing :
    (cutoff : ℕ) (j : String) (rows : List Device)
    → find_by_id j rows ≡ none
    → reported j (ended_rows cutoff rows) ≡ none
unfolding find_by_id ended_rows
reported_of_missing cutoff j [] e = refl
reported_of_missing cutoff j (d ∷ rows) e = ground (arith, reported_of_missing cutoff j rows)

reported_lem :
    (cutoff : ℕ) (j : String) (rows : List Device)
    → IsUnique rows
    → reported j (ended_rows cutoff rows) ≡ idle_occupant cutoff (find_by_id j rows)
unfolding find_by_id ended_rows
reported_lem cutoff j [] u = refl
reported_lem cutoff j (d ∷ rows) u =
    ground (arith, reported_lem cutoff j rows u.1, reported_of_missing cutoff j rows)

is_one_of-reported :
    (d : Device) (es : List EndedOccupation)
    → is_one_of (map (λ (e : EndedOccupation). e.device_id) es) d ≡ is_reported (reported d.id es)
is_one_of-reported d [] = refl
is_one_of-reported d (e ∷ es) = ground (arith, is_one_of-reported d es)

-- The three columns of an occupation.
abbrev pub emptied : Device → Device
emptied d = record d { occupant_id = none; occupied_at = none; last_activity_at = none }

pub idle_rows :
    (cutoff : ℕ) (rows : List Device) (j : String)
    → IsUnique rows
    → (find_by_id j (expire_idle_occupations cutoff rows).0
        ≡ revise (is_idle cutoff) vacated (find_by_id j rows))
      × (reported j (expire_idle_occupations cutoff rows).1
          ≡ idle_occupant cutoff (find_by_id j rows))
unfolding expire_idle_occupations
idle_rows cutoff rows j u = (
  find-update_each vacated (λ d. refl) (λ d. refl) j
        (map (λ (e : EndedOccupation). e.device_id) (ended_rows cutoff rows)) rows
      ∙ elim (Option-cases (find_by_id j rows)) [
        | inl e ↦ rw e refl
        | inr (d, e) ↦
            let same : d.id ≡ j = find-id j rows d e in
            rw e (
              ground (
                arith,
                is_one_of-reported d (ended_rows cutoff rows),
                reported_lem cutoff d.id rows u,
                same,
              ))
      ],
  reported_lem cutoff j rows u,
)

abbrev is_since : ℕ → Option ℕ → Bool
is_since cutoff none = false
is_since cutoff (some t) = leb cutoff t

since_lem : (cutoff : ℕ) (o : Option ℕ) → is_before cutoff o ≡ not (is_since cutoff o)
since_lem cutoff none = refl
since_lem cutoff (some t) = ground arith

-- An occupied device that has seen no activity since the cutoff, and its occupant.
abbrev pub is_unused : ℕ → Device → Bool
is_unused cutoff d = not (is_none d.occupant_id) && not (is_since cutoff d.last_activity_at)

abbrev pub unused_occupant : ℕ → Option Device → Option String
unused_occupant cutoff none = none
unused_occupant cutoff (some d) = if is_since cutoff d.last_activity_at then none else d.occupant_id

unused_lem :
    (cutoff : ℕ) (o : Option Device)
    → (revise (is_idle cutoff) vacated o ≡ revise (is_unused cutoff) emptied o)
      × (idle_occupant cutoff o ≡ unused_occupant cutoff o)
unused_lem cutoff none = (refl, refl)
unused_lem cutoff (some d) = rw (since_lem cutoff d.last_activity_at) (refl, ground arith)

-- The idle sweep empties the occupation columns of exactly the rows whose occupation has seen no
-- activity since the cutoff, leaves every other column and row alone, and reports those occupations.
pub expire_idle_occupations_lem :
    (cutoff : ℕ) (rows : List Device) (j : String)
    → IsUnique rows
    → (find_by_id j (expire_idle_occupations cutoff rows).0
        ≡ revise (is_unused cutoff) emptied (find_by_id j rows))
      × (reported j (expire_idle_occupations cutoff rows).1
          ≡ unused_occupant cutoff (find_by_id j rows))
expire_idle_occupations_lem cutoff rows j u =
    let (after, report) = idle_rows cutoff rows j u in
    let (same, same_report) = unused_lem cutoff (find_by_id j rows) in
    (after ∙ same, report ∙ same_report)

-- The same for the heartbeat sweep.
abbrev pub lost_device : String → List StaleDevice → Option StaleDevice
lost_device j [] = none
lost_device j (s ∷ ss) = if s.device_id === j then some s else lost_device j ss

abbrev pub stale_row : ℕ → Option Device → Option StaleDevice
stale_row cutoff none = none
stale_row cutoff (some d) =
    if is_stale cutoff d
    then some (record { device_id = d.id; occupant_id = d.occupant_id })
    else none

abbrev stale_list : ℕ → List Device → List StaleDevice
stale_list cutoff rows =
    map (λ (d : Device). record { device_id = d.id; occupant_id = d.occupant_id })
      (filter (is_stale cutoff) rows)

lost_of_missing :
    (cutoff : ℕ) (j : String) (rows : List Device)
    → find_by_id j rows ≡ none
    → lost_device j (stale_list cutoff rows) ≡ none
unfolding find_by_id
lost_of_missing cutoff j [] e = refl
lost_of_missing cutoff j (d ∷ rows) e = ground (arith, lost_of_missing cutoff j rows)

lost_lem :
    (cutoff : ℕ) (j : String) (rows : List Device)
    → IsUnique rows
    → lost_device j (stale_list cutoff rows) ≡ stale_row cutoff (find_by_id j rows)
unfolding find_by_id
lost_lem cutoff j [] u = refl
lost_lem cutoff j (d ∷ rows) u =
    ground (arith, lost_lem cutoff j rows u.1, lost_of_missing cutoff j rows)

is_one_of_lost :
    (d : Device) (ss : List StaleDevice)
    → is_one_of (map (λ (s : StaleDevice). s.device_id) ss) d ≡ not (is_none (lost_device d.id ss))
is_one_of_lost d [] = refl
is_one_of_lost d (s ∷ ss) = ground (arith, is_one_of_lost d ss)

pub stale_rows :
    (cutoff : ℕ) (rows : List Device) (j : String)
    → IsUnique rows
    → (find_by_id j (mark_stale_offline cutoff rows).0
        ≡ revise (is_stale cutoff) lost (find_by_id j rows))
      × (lost_device j (mark_stale_offline cutoff rows).1 ≡ stale_row cutoff (find_by_id j rows))
unfolding mark_stale_offline
stale_rows cutoff rows j u = (
  find-update_each lost (λ d. refl) (λ d. refl) j
        (map (λ (s : StaleDevice). s.device_id) (stale_list cutoff rows)) rows
      ∙ elim (Option-cases (find_by_id j rows)) [
        | inl e ↦ rw e refl
        | inr (d, e) ↦
            let same : d.id ≡ j = find-id j rows d e in
            rw e (
              ground (
                arith,
                is_one_of_lost d (stale_list cutoff rows),
                lost_lem cutoff d.id rows u,
                same,
              ))
      ],
  lost_lem cutoff j rows u,
)

-- A device that should send heartbeats and has sent none since the cutoff.
abbrev pub is_silent : ℕ → Device → Bool
is_silent cutoff d =
    (is_online d.status || not (is_none d.occupant_id)) && not (is_since cutoff d.last_heartbeat_at)

abbrev pub silent_row : ℕ → Option Device → Option StaleDevice
silent_row cutoff none = none
silent_row cutoff (some d) =
    if is_silent cutoff d
    then some (record { device_id = d.id; occupant_id = d.occupant_id })
    else none

silent_row_lem : (cutoff : ℕ) (o : Option Device) → stale_row cutoff o ≡ silent_row cutoff o
unfolding is_stale
silent_row_lem cutoff none = refl
silent_row_lem cutoff (some d) = rw (since_lem cutoff d.last_heartbeat_at) refl

silent_lem :
    (cutoff : ℕ) (o : Option Device) (f : Device → Device)
    → revise (is_stale cutoff) f o ≡ revise (is_silent cutoff) f o
unfolding is_stale
silent_lem cutoff none f = refl
silent_lem cutoff (some d) f = elim (Option-cases d.last_heartbeat_at) [
  | inl e ↦ rw (e) refl
  | inr (t, e) ↦ rw (e) (ground arith)
]

-- The heartbeat sweep takes offline, and frees, exactly the rows that are online or occupied and have
-- sent no heartbeat since the cutoff; it leaves the others alone, leaves the agent of each row as it
-- is, and reports those rows with the occupations that they held.
pub mark_stale_offline_lem :
    (cutoff : ℕ) (rows : List Device) (j : String)
    → IsUnique rows
    → (find_by_id j (mark_stale_offline cutoff rows).0
        ≡ revise
            (is_silent cutoff)
            (λ d. record (emptied d) { status = offline })
            (find_by_id j rows))
      × (lost_device j (mark_stale_offline cutoff rows).1 ≡ silent_row cutoff (find_by_id j rows))
mark_stale_offline_lem cutoff rows j u =
    let (after, report) = stale_rows cutoff rows j u in
    (
      after ∙ silent_lem cutoff (find_by_id j rows) lost,
      report ∙ silent_row_lem cutoff (find_by_id j rows),
    )
