-- ===== src/Server/Devices/Rows.antt =====
-- The rows of the table under the statements of sqlite-devices.repository.ts: what a statement does to
-- the row that `findById` finds, and the ids of the table.
use nebula_clone.Prelude.{
  Bool, List, [], ◌∷◌, ◌++◌, Option, none, some, String, any, ◌===◌, if◌then◌else◌, ◌≡◌, refl, ◌∙◌,
  arith, inl, inr, Option-cases,
}
use nebula_clone.Server.Devices.{Device, update_where, has_id, find_by_id, update_each}

-- The row of a statement `UPDATE … SET f WHERE p`.
abbrev pub revise : (Device → Bool) → (Device → Device) → Option Device → Option Device
revise p f none = none
revise p f (some d) = some (if p d then f d else d)

abbrev pub KeepsId : (Device → Device) → Type 0
KeepsId f = (d : Device) → (f d).id ≡ d.id

pub find-update_where :
    (p : Device → Bool) (f : Device → Device)
    → KeepsId f
    → (j : String) (rows : List Device)
    → find_by_id j (update_where p f rows) ≡ revise p f (find_by_id j rows)
unfolding find_by_id update_where
find-update_where p f k j [] = refl
find-update_where p f k j (d ∷ rows) = ground (arith, k d, find-update_where p f k j rows)

pub find-append :
    (j : String) (rows : List Device) (d : Device)
    → find_by_id j (rows ++ d ∷ [])
      ≡ elim (find_by_id j rows) [ none ↦ if d.id === j then some d else none | some e ↦ some e ]
unfolding find_by_id
find-append j [] d = refl
find-append j (e ∷ rows) d = ground (arith, find-append j rows d)

pub find-id : (j : String) (rows : List Device) (d : Device) → find_by_id j rows ≡ some d → d.id ≡ j
unfolding find_by_id
find-id j [] d e = cc
find-id j (r ∷ rows) d e = ground (arith, find-id j rows d)

-- The primary key.
abbrev pub IsUnique : List Device → Type 0
IsUnique [] = Unit {0}
IsUnique (d ∷ rows) = (find_by_id d.id rows ≡ none) × IsUnique rows

pub update_where-IsUnique :
    (p : Device → Bool) (f : Device → Device)
    → KeepsId f
    → (rows : List Device) → IsUnique rows
    → IsUnique (update_where p f rows)
unfolding update_where
update_where-IsUnique p f k [] u = tt
update_where-IsUnique p f k (d ∷ rows) u = (
  ground (arith, k d, find-update_where p f k d.id rows, find-update_where p f k (f d).id rows),
  update_where-IsUnique p f k rows u.1,
)

pub append-IsUnique :
    (rows : List Device) (d : Device)
    → find_by_id d.id rows ≡ none
    → IsUnique rows
    → IsUnique (rows ++ d ∷ [])
unfolding find_by_id
append-IsUnique [] d e u = (refl, tt)
append-IsUnique (r ∷ rows) d e u =
    (ground (arith, find-append r.id rows d), append-IsUnique rows d (ground arith) u.1)

abbrev pub is_one_of : List String → Device → Bool
is_one_of ids d = any (λ i. d.id === i) ids

pub find-update_each :
    (f : Device → Device)
    → KeepsId f
    → ((d : Device) → f (f d) ≡ f d)
    → (j : String) (ids : List String) (rows : List Device)
    → find_by_id j (update_each f ids rows) ≡ revise (is_one_of ids) f (find_by_id j rows)
unfolding update_each
find-update_each f k i j [] rows = ground arith
find-update_each f k i j (id ∷ ids) rows =
    find-update_each f k i j ids (update_where (has_id id) f rows)
    ∙ elim (Option-cases (find_by_id j rows)) [
      | inl e ↦ ground (arith, find-update_where (has_id id) f k j rows)
      | inr (d, e) ↦ ground (arith, find-update_where (has_id id) f k j rows, k d, i d)
    ]

pub update_each-IsUnique :
    (f : Device → Device)
    → KeepsId f
    → (ids : List String) (rows : List Device) → IsUnique rows
    → IsUnique (update_each f ids rows)
unfolding update_each
update_each-IsUnique f k [] rows u = u
update_each-IsUnique f k (id ∷ ids) rows u =
    update_each-IsUnique f k ids _ (update_where-IsUnique (has_id id) f k rows u)
