-- ===== src/Server/Devices/Occupancy.antt =====
-- sqlite-devices.repository.ts: `tryOccupy`, on every branch.
use nebula_clone.Prelude.{
  ℕ, Bool, true, false, ◌&&◌, List, [], ◌∷◌, Option, none, some, String, filter, find, length, ◌≡◌,
  refl, ◌∙◌, arith, ◌⊎◌, inl, inr, Option-cases,
}
use nebula_clone.Server.Devices.{
  Device, OccupyFilter, has_id, find_by_id, occupied, is_available, matches_filter, try_occupy,
}
use nebula_clone.Server.Devices.Rows.{revise, IsUnique, find-update_where, find-id}

module _ (p q : Device → Bool) where
  none_matches :
      (rows : List Device) (j : String) (d : Device)
      → find p (filter q rows) ≡ none
      → find_by_id j rows ≡ some d
      → (q d && p d) ≡ false
  unfolding find_by_id
  none_matches [] j d e h = cc
  none_matches (r ∷ rows) j d e h = ground (arith, none_matches rows j d)

  found_matches :
      (rows : List Device) (c : Device)
      → IsUnique rows
      → find p (filter q rows) ≡ some c
      → (find_by_id c.id rows ≡ some c) × (q c ≡ true) × (p c ≡ true)
  unfolding find_by_id
  found_matches [] c u e = cc
  found_matches (r ∷ rows) c u e = ground (arith, found_matches rows c u.1)

module _ (q : Device → Bool) (id : String) where
  abbrev guard : Device → Bool
  guard d = has_id id d && q d

  count_missing : (rows : List Device) → find_by_id id rows ≡ none → length (filter guard rows) ≡ 0
  unfolding find_by_id
  count_missing [] e = refl
  count_missing (r ∷ rows) e = ground (arith, count_missing rows)

  count_one :
      (rows : List Device) (c : Device)
      → IsUnique rows
      → find_by_id id rows ≡ some c
      → q c ≡ true
      → length (filter guard rows) ≡ 1
  unfolding find_by_id
  count_one [] c u e h = cc
  count_one (r ∷ rows) c u e h = ground (arith, count_one rows c u.1, count_missing rows)

-- What `tryOccupy` may answer: no available device matches and nothing changes, or one that does is
-- returned with its occupation, and no other row is touched.
abbrev pub Occupies : OccupyFilter → String → ℕ → List Device → List Device × Option Device → Type 0
Occupies by occupant now rows r =
    ((r ≡ (rows, none))
      × ((j : String) (d : Device)
          → find_by_id j rows ≡ some d
          → (is_available d && matches_filter by d) ≡ false))
    ⊎ ((c : Device) × (find_by_id c.id rows ≡ some c)
        × (is_available c ≡ true)
        × (matches_filter by c ≡ true)
        × (r.1 ≡ some (occupied occupant now c))
        × ((j : String)
            → find_by_id j r.0 ≡ revise (has_id c.id) (occupied occupant now) (find_by_id j rows)))

revise-guard :
    (f : Device → Device) (c : Device) (rows : List Device) (j : String)
    → find_by_id c.id rows ≡ some c
    → is_available c ≡ true
    → revise (guard is_available c.id) f (find_by_id j rows)
      ≡ revise (has_id c.id) f (find_by_id j rows)
revise-guard f c rows j e h = elim (Option-cases (find_by_id j rows)) [
  | inl missing ↦ rw missing refl
  | inr (d, found) ↦ ground (arith, find-id j rows d found)
]

-- `tryOccupy` occupies an online, unoccupied device that matches the filter if there is one, returns
-- it with its new occupation and changes no other row; otherwise it returns null and changes nothing.
pub try_occupy-Occupies :
    (by : OccupyFilter) (occupant : String) (now : ℕ) (rows : List Device)
    → IsUnique rows
    → Occupies by occupant now rows (try_occupy by occupant now rows)
unfolding try_occupy
try_occupy-Occupies by occupant now rows u =
    elim (Option-cases (find (matches_filter by) (filter is_available rows))) [
      | inl e ↦ inl (rw (e, try_occupy) refl, λ j d. none_matches _ _ rows j d e)
      | inr (c, e) ↦
          let (here, free, fits) = found_matches _ _ rows c u e in
          let one = count_one is_available c.id rows c u here free in
          let after = λ (j : String).
            find-update_where (guard is_available c.id) (occupied occupant now) (λ d. refl) j rows
            ∙ revise-guard (occupied occupant now) c rows j here free in
          inr (
            c,
            here,
            free,
            fits,
            rw (e, try_occupy) (ground (arith, one, after c.id)),
            λ j. rw (e, try_occupy) (ground (arith, one, after j)),
          )
    ]
