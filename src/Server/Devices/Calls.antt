-- ===== src/Server/Devices/Calls.antt =====
-- sqlite-devices.repository.ts: the methods that change the table as one step function, and the invariant
-- of the table.
use nebula_clone.Prelude.{
  ℕ, Bool, true, ◌&&◌, List, [], ◌∷◌, String, All, All-append, filter, find, is_none, is_text, ◌≡◌,
  refl, arith, inl, inr, Option-cases,
}
use nebula_clone.Shared.Types.{RegisterDeviceInput}
use nebula_clone.Server.Devices.{
  Device, OccupyFilter, update_where, update_each, has_id, find_by_id, vacated, lost, occupied,
  active, beaten, cut_off, registered, inserted, is_available, matches_filter, upsert, upsert_many,
  try_occupy, release, renew_occupation, expire_idle_occupations, heartbeat, mark_agent_offline,
  mark_stale_offline,
}
use nebula_clone.Server.Devices.Rows.{KeepsId, IsUnique, update_where-IsUnique, append-IsUnique}

pub data Call : Type 0 where
  upserts : List RegisterDeviceInput → String → ℕ → Call
  occupies : OccupyFilter → String → ℕ → Call
  releases : String → String → Call
  renews : String → String → ℕ → Call
  beats : List String → String → ℕ → Call
  disconnects : String → Call
  sweeps_idle sweeps_stale : ℕ → Call

unfoldable pub step : Call → List Device → List Device
step (upserts items agent now) rows = upsert_many items agent now rows
step (occupies by occupant now) rows = (try_occupy by occupant now rows).0
step (releases id occupant) rows = (release id occupant rows).0
step (renews id occupant now) rows = (renew_occupation id occupant now rows).0
step (beats ids agent now) rows = heartbeat ids agent now rows
step (disconnects agent) rows = mark_agent_offline agent rows
step (sweeps_idle cutoff) rows = (expire_idle_occupations cutoff rows).0
step (sweeps_stale cutoff) rows = (mark_stale_offline cutoff rows).0

unfoldable pub run : List Call → List Device → List Device
run [] rows = rows
run (c ∷ cs) rows = run cs (step c rows)

-- The occupation columns of a row are set together, and cleared together.
abbrev pub IsConsistent : Device → Type 0
IsConsistent d =
    (is_none d.occupied_at ≡ is_none d.occupant_id)
    × (is_none d.last_activity_at ≡ is_none d.occupant_id)

pub record IsSound (rows : List Device) : Type 0 where
  pub unique : IsUnique rows
  pub consistent : All IsConsistent rows

module _ (p : Device → Bool) (f : Device → Device) where
  update_where-IsConsistent :
      ((d : Device) → p d ≡ true → IsConsistent d → IsConsistent (f d))
      → (rows : List Device) → All IsConsistent rows
      → All IsConsistent (update_where p f rows)
  unfolding update_where
  update_where-IsConsistent h [] a = tt
  update_where-IsConsistent h (d ∷ rows) a =
      (ground (arith, h d), update_where-IsConsistent h rows a.1)

  update_where-IsSound :
      KeepsId f
      → ((d : Device) → p d ≡ true → IsConsistent d → IsConsistent (f d))
      → {rows : List Device} → IsSound rows
      → IsSound (update_where p f rows)
  update_where-IsSound k h {rows} s = record {
    unique = update_where-IsUnique p f k rows s.unique;
    consistent = update_where-IsConsistent h rows s.consistent;
  }

upsert-IsSound :
    (item : RegisterDeviceInput) (agent : String) (now : ℕ) (rows : List Device)
    → IsSound rows
    → IsSound (upsert item agent now rows)
unfolding upsert
upsert-IsSound item agent now rows s = elim (Option-cases (find_by_id item.id rows)) [
  | inl e ↦
      rw (e, upsert)
        (record {
          unique = append-IsUnique rows (inserted item agent now) e s.unique;
          consistent =
              All-append IsConsistent rows (inserted item agent now ∷ []) s.consistent
                ((refl, refl), tt);
        })
  | inr (d, e) ↦
      rw (e, upsert)
        (update_where-IsSound (has_id item.id) (registered item agent now) (λ d. refl) (λ d _ c. c)
          s)
]

upsert_many-IsSound :
    (items : List RegisterDeviceInput) (agent : String) (now : ℕ) (rows : List Device)
    → IsSound rows
    → IsSound (upsert_many items agent now rows)
unfolding upsert_many
upsert_many-IsSound [] agent now rows s = s
upsert_many-IsSound (item ∷ items) agent now rows s =
    upsert_many-IsSound items agent now _ (upsert-IsSound item agent now rows s)

heartbeat-IsSound :
    (ids : List String) (agent : String) (now : ℕ) (rows : List Device)
    → IsSound rows
    → IsSound (heartbeat ids agent now rows)
unfolding heartbeat
heartbeat-IsSound [] agent now rows s = s
heartbeat-IsSound (id ∷ ids) agent now rows s = heartbeat-IsSound ids agent now _ (
    update_where-IsSound (λ d. has_id id d && is_text d.agent_id agent) (beaten now) (λ d. refl)
      (λ d _ c. c) s)

update_each-IsSound :
    (f : Device → Device)
    → KeepsId f
    → ((d : Device) → IsConsistent (f d))
    → (ids : List String) (rows : List Device) → IsSound rows
    → IsSound (update_each f ids rows)
unfolding update_each
update_each-IsSound f k h [] rows s = s
update_each-IsSound f k h (id ∷ ids) rows s =
    update_each-IsSound f k h ids _ (update_where-IsSound (has_id id) f k (λ d _ _. h d) s)

try_occupy-IsSound :
    (by : OccupyFilter) (occupant : String) (now : ℕ) (rows : List Device)
    → IsSound rows
    → IsSound (try_occupy by occupant now rows).0
unfolding try_occupy
try_occupy-IsSound by occupant now rows s =
    elim (Option-cases (find (matches_filter by) (filter is_available rows))) [
      | inl e ↦ rw (e, try_occupy) s
      | inr (c, e) ↦
          let after =
            update_where-IsSound (λ d. has_id c.id d && is_available d) (occupied occupant now)
              (λ d. refl) (λ d _ _. (refl, refl)) s in
          rw (e, try_occupy) (ground (arith, after))
    ]

release-IsSound :
    (id occupant : String) (rows : List Device)
    → IsSound rows
    → IsSound (release id occupant rows).0
unfolding release
release-IsSound id occupant rows s =
    let after = update_where-IsSound (has_id id) vacated (λ d. refl) (λ d _ _. (refl, refl)) s in
    ground (arith, after)

renew_occupation-IsSound :
    (id occupant : String) (now : ℕ) (rows : List Device)
    → IsSound rows
    → IsSound (renew_occupation id occupant now rows).0
unfolding renew_occupation
renew_occupation-IsSound id occupant now rows s =
    let after =
      update_where-IsSound (λ d. has_id id d && is_text d.occupant_id occupant) (active now)
        (λ d. refl) (λ d e c. ground arith) s in
    ground (arith, after)

-- Every call keeps the ids of the table unique, and the three columns of an occupation set or NULL
-- together.
pub step-IsSound : (c : Call) (rows : List Device) → IsSound rows → IsSound (step c rows)
unfolding step expire_idle_occupations mark_stale_offline mark_agent_offline
step-IsSound (upserts items agent now) rows s = upsert_many-IsSound items agent now rows s
step-IsSound (occupies by occupant now) rows s = try_occupy-IsSound by occupant now rows s
step-IsSound (releases id occupant) rows s = release-IsSound id occupant rows s
step-IsSound (renews id occupant now) rows s = renew_occupation-IsSound id occupant now rows s
step-IsSound (beats ids agent now) rows s = heartbeat-IsSound ids agent now rows s
step-IsSound (disconnects agent) rows s =
    update_where-IsSound (λ d. is_text d.agent_id agent) cut_off (λ d. refl) (λ d _ c. c) s
step-IsSound (sweeps_idle cutoff) rows s =
    update_each-IsSound vacated (λ d. refl) (λ d. (refl, refl)) _ rows s
step-IsSound (sweeps_stale cutoff) rows s =
    update_each-IsSound lost (λ d. refl) (λ d. (refl, refl)) _ rows s

run_from : (cs : List Call) (rows : List Device) → IsSound rows → IsSound (run cs rows)
unfolding run
run_from [] rows s = s
run_from (c ∷ cs) rows s = run_from cs (step c rows) (step-IsSound c rows s)

-- Whatever the history from the empty table, its ids are unique and its occupations are consistent.
pub run-IsSound : (cs : List Call) → IsSound (run cs [])
run-IsSound cs = run_from cs [] (record { unique = tt; consistent = tt })
