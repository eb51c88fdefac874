-- ===== src/Server/Devices/Locks.antt =====
-- sqlite-devices.repository.ts seen as a lock table: which device is held by which occupant, and what
-- each method may do to that view.
use nebula_clone.Prelude.{
  ℕ, Bool, ◌&&◌, List, [], ◌∷◌, Option, none, some, String, ◌===◌, if◌then◌else◌, is_truthy,
  is_text, ◌≡◌, refl, ap, ◌∙◌, arith, ◌⊎◌, inl, inr, Option-cases,
}
use nebula_clone.Shared.Types.{RegisterDeviceInput}
use nebula_clone.Server.Devices.{
  Device, OccupyFilter, update_where, has_id, find_by_id, is_stale, vacated, lost, active, beaten,
  cut_off, registered, inserted, upsert, upsert_many, try_occupy, release, renew_occupation,
  heartbeat, mark_agent_offline,
}
use nebula_clone.Server.Devices.Rows.{
  revise, KeepsId, IsUnique, find-update_where, find-append, find-id,
}
use nebula_clone.Server.Devices.Sweeps.{is_idle, idle_rows, stale_rows}
use nebula_clone.Server.Devices.Occupancy.{try_occupy-Occupies}
use nebula_clone.Server.Devices.Calls.{
  Call, upserts, occupies, releases, renews, beats, disconnects, sweeps_idle, sweeps_stale, step,
}

-- The abstract state: the occupant of each device.
abbrev pub LockTable : Type 0
LockTable = String → Option String

abbrev pub row_occupant : Option Device → Option String
row_occupant none = none
row_occupant (some d) = d.occupant_id

unfoldable pub occupants : List Device → LockTable
occupants rows j = row_occupant (find_by_id j rows)

-- What each call may do to the lock table.
abbrev pub Effect : Call → LockTable → LockTable → Type 0
Effect (occupies by occupant now) v w =
    ((j : String) → w j ≡ v j)
    ⊎ ((c : String) × (v c ≡ none)
        × ((j : String) → w j ≡ (if c === j then some occupant else v j)))
Effect (releases id occupant) v w =
    (j : String)
    → w j ≡ (if id === j && is_truthy (v j) && is_text (v j) occupant then none else v j)
Effect (sweeps_idle cutoff) v w = (j : String) → (w j ≡ v j) ⊎ (w j ≡ none)
Effect (sweeps_stale cutoff) v w = (j : String) → (w j ≡ v j) ⊎ (w j ≡ none)
Effect _ v w = (j : String) → w j ≡ v j

-- A statement that leaves the occupant column alone.
kept_occupant :
    (p : Device → Bool) (f : Device → Device)
    → KeepsId f
    → ((d : Device) → (f d).occupant_id ≡ d.occupant_id)
    → (rows : List Device) (j : String) → occupants (update_where p f rows) j ≡ occupants rows j
unfolding occupants
kept_occupant p f k h rows j =
    rw (find-update_where p f k j rows) (elim (Option-cases (find_by_id j rows)) [
      | inl e ↦ rw e refl
      | inr (d, e) ↦ rw e (ground (arith, h d))
    ])

occupants-upsert :
    (item : RegisterDeviceInput) (agent : String) (now : ℕ) (rows : List Device) (j : String)
    → occupants (upsert item agent now rows) j ≡ occupants rows j
unfolding upsert
occupants-upsert item agent now rows j = elim (Option-cases (find_by_id item.id rows)) [
  | inl e ↦
      rw (e, upsert)
        (unfold occupants in ground (arith, find-append j rows (inserted item agent now)))
  | inr (d, e) ↦
      rw (e, upsert)
        (kept_occupant (has_id item.id) (registered item agent now) (λ d. refl) (λ d. refl) rows j)
]

occupants-upsert_many :
    (items : List RegisterDeviceInput) (agent : String) (now : ℕ) (rows : List Device) (j : String)
    → occupants (upsert_many items agent now rows) j ≡ occupants rows j
unfolding upsert_many
occupants-upsert_many [] agent now rows j = refl
occupants-upsert_many (item ∷ items) agent now rows j =
    occupants-upsert_many items agent now _ j ∙ occupants-upsert item agent now rows j

occupants-heartbeat :
    (ids : List String) (agent : String) (now : ℕ) (rows : List Device) (j : String)
    → occupants (heartbeat ids agent now rows) j ≡ occupants rows j
unfolding heartbeat
occupants-heartbeat [] agent now rows j = refl
occupants-heartbeat (id ∷ ids) agent now rows j =
    occupants-heartbeat ids agent now _ j
    ∙ kept_occupant (λ d. has_id id d && is_text d.agent_id agent) (beaten now) (λ d. refl)
        (λ d. refl) rows j

occupants-renew_occupation :
    (id occupant : String) (now : ℕ) (rows : List Device) (j : String)
    → occupants (renew_occupation id occupant now rows).0 j ≡ occupants rows j
unfolding renew_occupation
occupants-renew_occupation id occupant now rows j =
    let kept =
      kept_occupant (λ d. has_id id d && is_text d.occupant_id occupant) (active now) (λ d. refl)
        (λ d. refl) rows j in
    ground (arith, kept)

find_same : (i j : String) (rows : List Device) → i ≡ j → find_by_id i rows ≡ find_by_id j rows
find_same i j rows e = ap (λ k. find_by_id k rows) e

occupants-release :
    (id occupant : String) (rows : List Device) (j : String)
    → occupants (release id occupant rows).0 j ≡ (
        if id === j && is_truthy (occupants rows j) && is_text (occupants rows j) occupant
        then none
        else occupants rows j)
unfolding occupants release
occupants-release id occupant rows j =
    let after = find-update_where (has_id id) vacated (λ d. refl) j rows in
    elim (Option-cases (find_by_id j rows)) [
      | inl e ↦ ground (arith, after, find_same id j rows)
      | inr (d, e) ↦ ground (arith, after, find_same id j rows, find-id j rows d e)
    ]

occupy-Effect :
    (by : OccupyFilter) (occupant : String) (now : ℕ) (rows : List Device)
    → IsUnique rows
    → Effect
        (occupies by occupant now)
        (occupants rows)
        (occupants (try_occupy by occupant now rows).0)
unfolding occupants
occupy-Effect by occupant now rows u = elim (try_occupy-Occupies by occupant now rows u) [
  | inl (same, _) ↦
      inl (λ j. ap (λ (r : List Device × Option Device). row_occupant (find_by_id j r.0)) same)
  | inr (c, here, free, _, _, after) ↦ inr (
    c.id,
    ground (arith),
    λ j. ap row_occupant (after j) ∙ elim (Option-cases (find_by_id j rows)) [
      | inl e ↦ ground (arith)
      | inr (d, e) ↦ ground (arith, find-id j rows d e)
    ],
  )
]

revised_occupant :
    (p : Device → Bool) (f : Device → Device)
    → ((d : Device) → (f d).occupant_id ≡ none)
    → (o : Option Device)
    → (row_occupant (revise p f o) ≡ row_occupant o) ⊎ (row_occupant (revise p f o) ≡ none)
revised_occupant p f h none = inl refl
revised_occupant p f h (some d) = ground (arith, h d)

sweep-Effect :
    (p : Device → Bool) (f : Device → Device) (rows rows' : List Device) (j : String)
    → ((d : Device) → (f d).occupant_id ≡ none)
    → find_by_id j rows' ≡ revise p f (find_by_id j rows)
    → (occupants rows' j ≡ occupants rows j) ⊎ (occupants rows' j ≡ none)
unfolding occupants
sweep-Effect p f rows rows' j h e = rw e (revised_occupant p f h (find_by_id j rows))

-- Seen as a lock table, registration, renewal, heartbeats and the end of a tunnel change no lock;
-- `tryOccupy` changes none or locks one free device for its caller; `release` frees the device exactly
-- if the caller holds it under a non-empty id; a sweep only frees devices.
pub step-Effect :
    (c : Call) (rows : List Device)
    → IsUnique rows
    → Effect c (occupants rows) (occupants (step c rows))
unfolding step mark_agent_offline
step-Effect (upserts items agent now) rows u = occupants-upsert_many items agent now rows
step-Effect (occupies by occupant now) rows u = occupy-Effect by occupant now rows u
step-Effect (releases id occupant) rows u = occupants-release id occupant rows
step-Effect (renews id occupant now) rows u = occupants-renew_occupation id occupant now rows
step-Effect (beats ids agent now) rows u = occupants-heartbeat ids agent now rows
step-Effect (disconnects agent) rows u =
    kept_occupant (λ d. is_text d.agent_id agent) cut_off (λ d. refl) (λ d. refl) rows
step-Effect (sweeps_idle cutoff) rows u =
    λ j. sweep-Effect (is_idle cutoff) vacated rows _ j (λ d. refl) (idle_rows cutoff rows j u).0
step-Effect (sweeps_stale cutoff) rows u =
    λ j. sweep-Effect (is_stale cutoff) lost rows _ j (λ d. refl) (stale_rows cutoff rows j u).0

-- No call hands a device that is occupied to another occupant: it has to be freed first.
pub step_no_takeover :
    (c : Call) (rows : List Device) (j a b : String)
    → IsUnique rows
    → occupants rows j ≡ some a
    → occupants (step c rows) j ≡ some b
    → a ≡ b
step_no_takeover (upserts items agent now) rows j a b u before after =
    ground (arith, step-Effect (upserts items agent now) rows u j)
step_no_takeover (occupies by occupant now) rows j a b u before after =
    elim (step-Effect (occupies by occupant now) rows u) [
      | inl same ↦ ground (arith, same j)
      | inr (c, free, claimed) ↦ ground (arith, claimed j, ap (occupants rows) {x = c} {y = j})
    ]
step_no_takeover (releases id occupant) rows j a b u before after =
    ground (arith, step-Effect (releases id occupant) rows u j)
step_no_takeover (renews id occupant now) rows j a b u before after =
    ground (arith, step-Effect (renews id occupant now) rows u j)
step_no_takeover (beats ids agent now) rows j a b u before after =
    ground (arith, step-Effect (beats ids agent now) rows u j)
step_no_takeover (disconnects agent) rows j a b u before after =
    ground (arith, step-Effect (disconnects agent) rows u j)
step_no_takeover (sweeps_idle cutoff) rows j a b u before after =
    ground (arith, step-Effect (sweeps_idle cutoff) rows u j)
step_no_takeover (sweeps_stale cutoff) rows j a b u before after =
    ground (arith, step-Effect (sweeps_stale cutoff) rows u j)
