-- ===== src/Server/Occupancy/Access.antt =====
-- Who may watch: the invariant of the whole server that joins the table of devices, the viewers of the
-- relay and the bus between them.
use nebula_clone.Prelude.{
  ℕ, true, false, List, [], ◌∷◌, Option, none, some, String, if◌then◌else◌, is_truthy, ◌≡◌, refl,
  sym, ap, ◌∙◌, subst, arith, inl, inr, Option-cases, ◌⊎◌,
}
use nebula_clone.Js.Table.{ℕ_key}
use nebula_clone.Server.Devices.{Device, find_by_id}
use nebula_clone.Server.Devices.Locks.{occupants}
use nebula_clone.Server.Devices.Calls as Table
use nebula_clone.Server.Devices as Repository
use nebula_clone.Server.Devices.Service as Service
use nebula_clone.Server.Devices.Service.{OccupationEndedEvent}
use nebula_clone.Server.Devices.Ended.{is_ended, PublishesEnds}
use nebula_clone.Server.Streams.{Viewers}
use nebula_clone.Server.Streams.Viewers.{generation, IsTidy, generation-close_viewers}
use nebula_clone.Server.Streams.Demand as Demand
use nebula_clone.Server.Streams.Demand.{step-IsTidy}
use nebula_clone.Server.Streams.Gateway.{StreamsGateway}
use nebula_clone.Server.Occupancy.{
  System, Sockets, publish_ended, publish_all, revoke_streams, revoke_commands,
  viewer_close_occupation_ended, close_reason,
}

-- What is left of an occupation's sockets after the events.
abbrev pub unless_ended : String → List OccupationEndedEvent → Option String → Option String
unless_ended j es none = none
unless_ended j es (some o) = if is_ended j o es then none else some o

publish_ended-IsTidy :
    (sockets : Sockets) (e : OccupationEndedEvent) (s : System)
    → IsTidy s.streams.viewers
    → IsTidy (publish_ended sockets e s).0.streams.viewers
unfolding publish_ended revoke_streams revoke_commands
publish_ended-IsTidy sockets e s t =
    unfold Demand.step in
    step-IsTidy
      (Demand.closes sockets.view e.device_id e.occupant_id viewer_close_occupation_ended
        (close_reason e.reason))
      s.streams.viewers t

generation-publish_ended :
    (sockets : Sockets) (e : OccupationEndedEvent) (s : System) (j : String) (k : ℕ)
    → IsTidy s.streams.viewers
    → generation (publish_ended sockets e s).0.streams.viewers j k
      ≡ unless_ended j (e ∷ []) (generation s.streams.viewers j k)
unfolding publish_ended revoke_streams revoke_commands
generation-publish_ended sockets e s j k t =
    generation-close_viewers sockets.view e.device_id e.occupant_id viewer_close_occupation_ended
      (close_reason e.reason) s.streams.viewers j k t
    ∙ elim (Option-cases (generation s.streams.viewers j k)) [
      | inl missing ↦ ground (arith, missing)
      | inr (o, here) ↦ ground (arith, here)
    ]

publish_all-IsTidy :
    (sockets : Sockets) (es : List OccupationEndedEvent) (s : System)
    → IsTidy s.streams.viewers
    → IsTidy (publish_all sockets es s).0.streams.viewers
unfolding publish_all
publish_all-IsTidy sockets [] s t = t
publish_all-IsTidy sockets (e ∷ es) s t =
    publish_all-IsTidy sockets es (publish_ended sockets e s).0 (publish_ended-IsTidy sockets e s t)

unless_ended-append :
    (j : String) (e : OccupationEndedEvent) (es : List OccupationEndedEvent) (g : Option String)
    → unless_ended j es (unless_ended j (e ∷ []) g) ≡ unless_ended j (e ∷ es) g
unless_ended-append j e es none = refl
unless_ended-append j e es (some o) = ground arith

-- Publishing a list of ended occupations takes away exactly the sockets that were opened under them.
pub generation-publish_all :
    (sockets : Sockets) (es : List OccupationEndedEvent) (s : System) (j : String) (k : ℕ)
    → IsTidy s.streams.viewers
    → generation (publish_all sockets es s).0.streams.viewers j k
      ≡ unless_ended j es (generation s.streams.viewers j k)
unfolding publish_all
generation-publish_all sockets [] s j k t = elim (Option-cases (generation s.streams.viewers j k)) [
  | inl missing ↦ ground (arith, missing)
  | inr (o, here) ↦ ground (arith, here)
]
generation-publish_all sockets (e ∷ es) s j k t =
    generation-publish_all sockets es (publish_ended sockets e s).0 j k
      (publish_ended-IsTidy sockets e s t)
    ∙ ap (unless_ended j es) (generation-publish_ended sockets e s j k t)
    ∙ unless_ended-append j e es (generation s.streams.viewers j k)

rows-publish_all :
    (sockets : Sockets) (es : List OccupationEndedEvent) (s : System)
    → (publish_all sockets es s).0.rows ≡ s.rows
unfolding publish_all publish_ended revoke_streams revoke_commands
rows-publish_all sockets [] s = refl
rows-publish_all sockets (e ∷ es) s = rows-publish_all sockets es (publish_ended sockets e s).0

-- Every socket that watches a device was opened under the occupation that holds the device now.
abbrev pub AllWatchAsOccupant : List Device → Viewers → Type 0
AllWatchAsOccupant rows viewers =
    (j : String) (k : ℕ) (o : String)
    → generation viewers j k ≡ some o
    → (occupants rows j ≡ some o) × (is_truthy (some o) ≡ true)

pub record IsSafe (s : System) : Type 0 where
  pub sound : Table.IsSound s.rows
  pub tidy : IsTidy s.streams.viewers
  pub authorized : AllWatchAsOccupant s.rows s.streams.viewers

-- An operation that ends no occupation.
pub kept-IsSafe :
    (rows' : List Device) (s : System)
    → Table.IsSound rows'
    → ((j o : String) → occupants s.rows j ≡ some o → occupants rows' j ≡ some o)
    → IsSafe s
    → IsSafe (record s { rows = rows' })
kept-IsSafe rows' s sound kept safe = record {
  sound = sound;
  tidy = safe.tidy;
  authorized = λ j k o e. let (held, truthy) = safe.authorized j k o e in (kept j o held, truthy);
}

-- An operation that publishes the occupations that it ends.
pub ends-IsSafe :
    (sockets : Sockets) (es : List OccupationEndedEvent) (rows' : List Device) (s : System)
    → Table.IsSound rows'
    → PublishesEnds s.rows rows' es
    → IsSafe s
    → IsSafe (publish_all sockets es (record s { rows = rows' })).0
ends-IsSafe sockets es rows' s sound publishes safe =
    let s' : System = record s { rows = rows' } in
    let same = rows-publish_all sockets es s' in
    record {
      sound = subst Table.IsSound (sym same) sound;
      tidy = publish_all-IsTidy sockets es s' safe.tidy;
      authorized = λ j k o e.
          let after = sym (generation-publish_all sockets es s' j k safe.tidy) ∙ e in
          elim (Option-cases (generation s.streams.viewers j k)) [
            | inl missing ↦ ground (arith, missing, after)
            | inr (o', here) ↦
                let (held, truthy) = safe.authorized j k o' here in
                let ended = publishes j o' truthy in
                let still : (is_ended j o' es ≡ false) × (o' ≡ o) = ground (arith, here, after) in
                let now : occupants rows' j ≡ some o' = elim (Option-cases (occupants rows' j)) [
                  | inl gone ↦ ground (arith, ended, held, still, gone)
                  | inr (o'', there) ↦ ground (arith, ended, held, still, there)
                ] in
                rw same (
                  subst (λ o. (occupants rows' j ≡ some o) × (is_truthy (some o) ≡ true)) still.1
                    (now, truthy))
          ];
    }

pub release-rows :
    (device occupant : String) (rows : List Device)
    → (Service.release device occupant rows).0 ≡ (Repository.release device occupant rows).0
unfolding Service.release
release-rows device occupant rows = ground arith

-- A change of who watches.
pub viewers-IsSafe :
    (streams' : StreamsGateway) (s : System)
    → IsTidy streams'.viewers
    → ((j : String) (k : ℕ) (o : String)
        → generation streams'.viewers j k ≡ some o
        → (generation s.streams.viewers j k ≡ some o)
          ⊎ ((occupants s.rows j ≡ some o) × (is_truthy (some o) ≡ true)))
    → IsSafe s
    → IsSafe (record s { streams = streams' })
viewers-IsSafe streams' s tidy new safe = record {
  sound = safe.sound;
  tidy = tidy;
  authorized =
      λ j k o e. elim (new j k o e) [ inl old ↦ safe.authorized j k o old | inr held ↦ held ];
}
