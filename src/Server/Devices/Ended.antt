-- ===== src/Server/Devices/Ended.antt =====
-- devices.service.ts: which ends of occupations are published.
use nebula_clone.Prelude.{
  ℕ, ◌-◌, Bool, true, false, not, ◌&&◌, ◌||◌, List, [], ◌∷◌, map, Option, none, some, String, ◌===◌,
  if◌then◌else◌, is_truthy, is_text, ◌≡◌, refl, ap, ◌∙◌, arith, inl, inr, Option-cases, filter,
}
use nebula_clone.Server.Devices as Repository
use nebula_clone.Server.Devices.{
  Device, EndedOccupation, StaleDevice, find_by_id, ended_rows, is_before, is_stale, vacated, lost,
  mark_stale_offline, stale_device, update_where, has_id, check_occupant, done, failed,
}
use nebula_clone.Server.Devices.Rows.{IsUnique, find-id, find-update_where}
use nebula_clone.Server.Devices.Sweeps.{idle_occupant, idle_rows, stale_rows}
use nebula_clone.Server.Devices.Locks.{occupants}
use nebula_clone.Server.Devices.Service.{
  OccupationEndedEvent, Reply, returns, throws, released, get_by_id, release,
  expire_idle_occupations, expire_stale_devices, idle_event, stale_events,
}

-- Whether the end of an occupation of a device is among the events.
abbrev pub is_ended : String → String → List OccupationEndedEvent → Bool
is_ended device occupant [] = false
is_ended device occupant (e ∷ es) =
    e.device_id === device && e.occupant_id === occupant || is_ended device occupant es

idle_missing :
    (cutoff : ℕ) (j o : String) (rows : List Device)
    → find_by_id j rows ≡ none
    → is_ended j o (map idle_event (ended_rows cutoff rows)) ≡ false
unfolding find_by_id ended_rows
idle_missing cutoff j o [] e = refl
idle_missing cutoff j o (d ∷ rows) e = ground (arith, idle_missing cutoff j o rows)

idle_ended :
    (cutoff : ℕ) (j o : String) (rows : List Device)
    → IsUnique rows
    → is_ended j o (map idle_event (ended_rows cutoff rows))
      ≡ is_text (idle_occupant cutoff (find_by_id j rows)) o
unfolding find_by_id ended_rows
idle_ended cutoff j o [] u = refl
idle_ended cutoff j o (d ∷ rows) u =
    ground (arith, idle_ended cutoff j o rows u.1, idle_missing cutoff j o rows)

abbrev stale_occupant : ℕ → Option Device → Option String
stale_occupant cutoff none = none
stale_occupant cutoff (some d) = if is_stale cutoff d then d.occupant_id else none

stale_missing :
    (cutoff : ℕ) (j o : String) (rows : List Device)
    → find_by_id j rows ≡ none
    → is_ended j o (stale_events (map stale_device (filter (is_stale cutoff) rows))) ≡ false
unfolding find_by_id stale_events
stale_missing cutoff j o [] e = refl
stale_missing cutoff j o (d ∷ rows) e = ground (arith, stale_missing cutoff j o rows)

stale_ended :
    (cutoff : ℕ) (j o : String) (rows : List Device)
    → IsUnique rows
    → is_truthy (some o) ≡ true
    → is_ended j o (stale_events (map stale_device (filter (is_stale cutoff) rows)))
      ≡ is_text (stale_occupant cutoff (find_by_id j rows)) o
unfolding find_by_id stale_events
stale_ended cutoff j o [] u t = refl
stale_ended cutoff j o (d ∷ rows) u t =
    ground (arith, stale_ended cutoff j o rows u.1, stale_missing cutoff j o rows)

-- An occupation is published to have ended exactly if it was held before and is not held after.
abbrev pub PublishesEnds : List Device → List Device → List OccupationEndedEvent → Type 0
PublishesEnds rows rows' events =
    (j o : String)
    → is_truthy (some o) ≡ true
    → is_ended j o events ≡ (is_text (occupants rows j) o && not (is_text (occupants rows' j) o))

-- The sweep of idle occupations publishes exactly the occupations that it ends.
pub expire_idle_occupations-PublishesEnds :
    (ttl now : ℕ) (rows : List Device)
    → IsUnique rows
    → PublishesEnds rows
        (expire_idle_occupations ttl now rows).0
        (expire_idle_occupations ttl now rows).1
unfolding expire_idle_occupations occupants
expire_idle_occupations-PublishesEnds ttl now rows u j o t =
    let after = (idle_rows (now - ttl) rows j u).0 in
    let ended : is_ended j o
          (map idle_event (Repository.expire_idle_occupations (now - ttl) rows).1)
        ≡ is_text (idle_occupant (now - ttl) (find_by_id j rows)) o =
      unfold Repository.expire_idle_occupations in idle_ended (now - ttl) j o rows u in
    ended
    ∙ rw after (elim (Option-cases (find_by_id j rows)) [
      | inl e ↦ rw e refl
      | inr (d, e) ↦ rw e (ground arith)
    ])

-- The heartbeat sweep publishes exactly the occupations that it ends.
pub expire_stale_devices-PublishesEnds :
    (timeout now : ℕ) (rows : List Device)
    → IsUnique rows
    → PublishesEnds rows
        (expire_stale_devices timeout now rows).0
        (expire_stale_devices timeout now rows).1
unfolding expire_stale_devices occupants
expire_stale_devices-PublishesEnds timeout now rows u j o t =
    let after = (stale_rows (now - timeout) rows j u).0 in
    let ended : is_ended j o (stale_events (Repository.mark_stale_offline (now - timeout) rows).1)
        ≡ is_text (stale_occupant (now - timeout) (find_by_id j rows)) o =
      unfold Repository.mark_stale_offline in stale_ended (now - timeout) j o rows u t in
    ended
    ∙ rw after (elim (Option-cases (find_by_id j rows)) [
      | inl e ↦ rw e refl
      | inr (d, e) ↦ rw e (ground arith)
    ])

-- Whether a reply is an answer and no exception.
abbrev pub is_answer : {A : Type 0} → Reply A → Bool
is_answer (returns a) = true
is_answer (throws e) = false

release_answers :
    (device occupant : String) (rows : List Device)
    → (release device occupant rows).2 ≡ (
        if is_answer (release device occupant rows).1
        then record { device_id = device; occupant_id = occupant; reason = released } ∷ []
        else [])
unfolding release get_by_id
release_answers device occupant rows =
    let after = find-update_where (has_id device) vacated (λ d. refl) device rows in
    unfold Repository.release in
    elim (Option-cases (find_by_id device rows)) [
      | inl e ↦ ground (arith, e)
      | inr (d, e) ↦ ground (arith, e, after, find-id device rows d e)
    ]

release_ends :
    (device occupant : String) (rows : List Device)
    → PublishesEnds rows (release device occupant rows).0 (release device occupant rows).2
unfolding release occupants
release_ends device occupant rows j o t =
    let after = find-update_where (has_id device) vacated (λ d. refl) j rows in
    let same = ap (λ k. find_by_id k rows) {x = device} {y = j} in
    unfold Repository.release in
    elim (Option-cases (find_by_id j rows)) [
      | inl e ↦ elim (Option-cases (find_by_id device rows)) [
        | inl e' ↦ ground (arith, after, same)
        | inr (d', e') ↦ ground (arith, after, same, find-id device rows d' e')
      ]
      | inr (d, e) ↦ elim (Option-cases (find_by_id device rows)) [
        | inl e' ↦ ground (arith, after, same, find-id j rows d e)
        | inr (d', e') ↦ ground (arith, after, same, find-id j rows d e, find-id device rows d' e')
      ]
    ]

-- A release publishes exactly the occupation that it ends: one event, of the device and the occupant
-- that it was called with and with the reason `released`, if it answers with the device, and nothing if
-- it throws.
pub release-PublishesEnds :
    (device occupant : String) (rows : List Device)
    → PublishesEnds rows (release device occupant rows).0 (release device occupant rows).2
      × ((release device occupant rows).2 ≡ (
          if is_answer (release device occupant rows).1
          then record { device_id = device; occupant_id = occupant; reason = released } ∷ []
          else []))
release-PublishesEnds device occupant rows =
    (release_ends device occupant rows, release_answers device occupant rows)
