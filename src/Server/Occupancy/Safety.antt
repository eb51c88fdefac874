-- ===== src/Server/Occupancy/Safety.antt =====
-- The invariant of the server (Access) under each of its operations.
use nebula_clone.Prelude.{
  ℕ, ◌-◌, true, List, [], ◌∷◌, Option, none, some, String, is_truthy, ◌≡◌, refl, sym, ap, ◌∙◌,
  subst, arith, inl, inr, Option-cases, Bool-cases, ◌⊎◌,
}
use nebula_clone.Js.Table.{get, ℕ_key}
use nebula_clone.Server.Auth.{is_blocked, accepts}
use nebula_clone.Server.Devices.{Device, find_by_id}
use nebula_clone.Server.Devices as Repository
use nebula_clone.Server.Devices.Locks.{occupants, step-Effect}
use nebula_clone.Server.Devices.Calls as Table
use nebula_clone.Server.Devices.Service as Service
use nebula_clone.Server.Devices.Ended.{
  release-PublishesEnds, expire_idle_occupations-PublishesEnds, expire_stale_devices-PublishesEnds,
}
use nebula_clone.Server.Streams.{add_viewer}
use nebula_clone.Server.Streams.Viewers.{
  generation, IsTidy, generation-add_viewer, generation-remove_viewer,
}
use nebula_clone.Server.Streams.Demand as Demand
use nebula_clone.Server.Streams.Demand.{step-IsTidy}
use nebula_clone.Server.Streams.Gateway.{
  StreamsGateway, Request, subscription, is_occupant, handle_connection, handle_disconnect,
}
use nebula_clone.Server.Agents as Agents
use nebula_clone.Server.Agents.{current_agent}
use nebula_clone.Server.Occupancy.{
  System, Sockets, without_agent, Call, occupies, releases, renews, registers, beats, loses_agent,
  sweeps_idle, sweeps_stale, watches, leaves, step, run,
}
use nebula_clone.Server.Occupancy.Access.{
  IsSafe, kept-IsSafe, ends-IsSafe, release-rows, viewers-IsSafe,
}

is_occupant_lem :
    (device occupant : String) (rows : List Device)
    → is_occupant device occupant rows ≡ true
    → occupants rows device ≡ some occupant
unfolding is_occupant occupants
is_occupant_lem device occupant rows e = elim (Option-cases (find_by_id device rows)) [
  | inl missing ↦ ground (arith, missing, e)
  | inr (d, here) ↦ ground (arith, here, e)
]

subscription_lem :
    (d o : Option String) (device occupant : String)
    → subscription d o ≡ some (device, occupant)
    → is_truthy (some occupant) ≡ true
subscription_lem none o device occupant e = cc
subscription_lem (some d) none device occupant e = cc
subscription_lem (some d) (some o) device occupant e = ground (arith, e)

module _ (expected : Option String) (now client : ℕ) (request : Request) (rows : List Device)
    (g : StreamsGateway) where
  abbrev connected : StreamsGateway
  connected = (handle_connection expected now client request rows g).0

  -- What a connection does to the viewers: nothing, or one socket more.
  connection-cases :
      (connected.viewers ≡ g.viewers)
      ⊎ ((device : String) × (occupant : String) × (connected.viewers
            ≡ (add_viewer device occupant client g.viewers).0)
          × (is_occupant device occupant rows ≡ true)
          × (is_truthy (some occupant) ≡ true))
  unfolding handle_connection
  connection-cases = elim (Bool-cases (is_blocked request.remote_ip now g.rate_limiter)) [
    | inl blocked ↦ rw (connected, blocked) (inl refl)
    | inr unblocked ↦ elim (Bool-cases (accepts request.token expected)) [
      | inr refused ↦ rw (connected, unblocked, refused) (inl refl)
      | inl accepted ↦ elim (Option-cases (subscription request.device_id request.occupant_id)) [
        | inl e ↦ rw (connected, unblocked, accepted, e) (inl refl)
        | inr ((device, occupant), e) ↦ elim (Bool-cases (is_occupant device occupant rows)) [
          | inr not_so ↦ rw (connected, unblocked, accepted, e, not_so) (inl refl)
          | inl is_so ↦
              rw (connected, unblocked, accepted, e, is_so)
                (inr (
                  device,
                  occupant,
                  refl,
                  is_so,
                  subscription_lem request.device_id request.occupant_id device occupant e,
                ))
        ]
      ]
    ]
  ]

watches-IsSafe :
    (expected : Option String) (now client : ℕ) (request : Request) (s : System)
    → IsSafe s
    → IsSafe
        (record s { streams = (handle_connection expected now client request s.rows s.streams).0 })
watches-IsSafe expected now client request s safe =
    elim (connection-cases expected now client request s.rows s.streams) [
      | inl same ↦
          viewers-IsSafe _ s (subst IsTidy (sym same) safe.tidy)
            (λ j k o e. inl (ap (λ v. generation v j k) (sym same) ∙ e)) safe
      | inr (device, occupant, more, held, truthy) ↦
          viewers-IsSafe _ s
            (subst IsTidy (sym more) (
              unfold Demand.step in
              step-IsTidy (Demand.adds device occupant client) s.streams.viewers safe.tidy))
            (λ j k o e.
              let here = is_occupant_lem device occupant s.rows held in
              let added =
                sym (generation-add_viewer device occupant client s.streams.viewers j k)
                ∙ ap (λ v. generation v j k) (sym more)
                ∙ e in
              ground (arith, added, here, truthy, ap (occupants s.rows) {x = device} {y = j}))
            safe
    ]

leaves-IsSafe :
    (client : ℕ) (s : System)
    → IsSafe s
    → IsSafe (record s { streams = (handle_disconnect client s.streams).0 })
unfolding handle_disconnect
leaves-IsSafe client s safe = elim (Option-cases (get client s.streams.attached)) [
  | inl e ↦ rw (e, handle_disconnect) safe
  | inr (device, e) ↦ elim (Bool-cases (is_truthy (some device))) [
    | inr not_so ↦ rw (e, handle_disconnect, not_so) safe
    | inl is_so ↦
        rw (e, handle_disconnect, is_so)
          (viewers-IsSafe _ s
            (unfold Demand.step in
              step-IsTidy (Demand.removes device client) s.streams.viewers safe.tidy)
            (λ j k o e'.
              ground (arith, generation-remove_viewer device client s.streams.viewers j k, e'))
            safe)
  ]
]

-- A call of the repository after which every device that was held is held by the same occupant.
table-IsSafe :
    (c : Table.Call) (s : System)
    → ((j o : String) → occupants s.rows j ≡ some o → occupants (Table.step c s.rows) j ≡ some o)
    → IsSafe s
    → IsSafe (record s { rows = Table.step c s.rows })
table-IsSafe c s kept safe =
    kept-IsSafe (Table.step c s.rows) s (Table.step-IsSound c s.rows safe.sound) kept safe

same-IsSafe :
    (c : Table.Call) (s : System)
    → ((j : String) → occupants (Table.step c s.rows) j ≡ occupants s.rows j)
    → IsSafe s
    → IsSafe (record s { rows = Table.step c s.rows })
same-IsSafe c s same safe = table-IsSafe c s (λ j o e. same j ∙ e) safe

renew-rows :
    (device occupant : String) (now : ℕ) (rows : List Device)
    → (Service.renew_occupation device occupant now rows).0
      ≡ (Repository.renew_occupation device occupant now rows).0
unfolding Service.renew_occupation
renew-rows device occupant now rows = ground arith

gone-IsSafe :
    (gone : Option String) (agents' : Agents.Gateway) (s : System)
    → IsSafe s
    → IsSafe (record s { rows = without_agent gone s.rows; agents = agents' })
unfolding Service.handle_agent_disconnect Table.step
gone-IsSafe none agents' s safe = record {
  sound = safe.sound;
  tidy = safe.tidy;
  authorized = safe.authorized;
}
gone-IsSafe (some agent) agents' s safe =
    let after =
      same-IsSafe (Table.disconnects agent) s
        (step-Effect (Table.disconnects agent) s.rows safe.sound.unique) safe in
    record { sound = after.sound; tidy = after.tidy; authorized = after.authorized }

-- Every operation of the server keeps it safe: whoever watches a device holds it now.
pub step-IsSafe :
    (sockets : Sockets) (c : Call) (s : System) → IsSafe s → IsSafe (step sockets c s).0
unfolding step Table.step Service.occupy Service.renew_occupation Service.register_from_agent
    Service.record_heartbeat Service.handle_agent_disconnect
step-IsSafe sockets (occupies by occupant now) s safe =
    table-IsSafe (Table.occupies by occupant now) s
      (λ j o e. elim (step-Effect (Table.occupies by occupant now) s.rows safe.sound.unique) [
        | inl same ↦ same j ∙ e
        | inr (c, free, claimed) ↦
            ground (arith, claimed j, free, e, ap (occupants s.rows) {x = c} {y = j})
      ])
      safe
step-IsSafe sockets (releases device occupant) s safe =
    unfold Service.release in
    ends-IsSafe sockets (Service.release device occupant s.rows).2
      (Service.release device occupant s.rows).0 s
      (subst Table.IsSound (sym (release-rows device occupant s.rows))
        (Table.step-IsSound (Table.releases device occupant) s.rows safe.sound))
      (release-PublishesEnds device occupant s.rows).0 safe
step-IsSafe sockets (renews device occupant now) s safe =
    subst (λ rows. IsSafe (record s { rows = rows })) (sym (renew-rows device occupant now s.rows))
      (same-IsSafe (Table.renews device occupant now) s
        (step-Effect (Table.renews device occupant now) s.rows safe.sound.unique) safe)
step-IsSafe sockets (registers devices agent now) s safe =
    same-IsSafe (Table.upserts devices agent now) s
      (step-Effect (Table.upserts devices agent now) s.rows safe.sound.unique) safe
step-IsSafe sockets (beats ids agent now) s safe =
    same-IsSafe (Table.beats ids agent now) s
      (step-Effect (Table.beats ids agent now) s.rows safe.sound.unique) safe
step-IsSafe sockets (loses_agent client) s safe =
    gone-IsSafe (Agents.handle_disconnect client s.agents).1
      (Agents.handle_disconnect client s.agents).0 s safe
step-IsSafe sockets (sweeps_idle ttl now) s safe =
    unfold Service.expire_idle_occupations in
    ends-IsSafe sockets (Service.expire_idle_occupations ttl now s.rows).1
      (Service.expire_idle_occupations ttl now s.rows).0 s
      (Table.step-IsSound (Table.sweeps_idle (now - ttl)) s.rows safe.sound)
      (expire_idle_occupations-PublishesEnds ttl now s.rows safe.sound.unique) safe
step-IsSafe sockets (sweeps_stale timeout now) s safe =
    unfold Service.expire_stale_devices in
    ends-IsSafe sockets (Service.expire_stale_devices timeout now s.rows).1
      (Service.expire_stale_devices timeout now s.rows).0 s
      (Table.step-IsSound (Table.sweeps_stale (now - timeout)) s.rows safe.sound)
      (expire_stale_devices-PublishesEnds timeout now s.rows safe.sound.unique) safe
step-IsSafe sockets (watches expected now client request) s safe =
    watches-IsSafe expected now client request s safe
step-IsSafe sockets (leaves client) s safe = leaves-IsSafe client s safe

run_from : (sockets : Sockets) (cs : List Call) (s : System) → IsSafe s → IsSafe (run sockets cs s)
unfolding run
run_from sockets [] s safe = safe
run_from sockets (c ∷ cs) s safe =
    run_from sockets cs (step sockets c s).0 (step-IsSafe sockets c s safe)

-- The server after it starts: nobody watches yet. The table is what the database held.
abbrev pub started : List Device → Agents.Gateway → System
started rows agents = record {
  rows = rows;
  streams = record { viewers = []; rate_limiter = []; attached = [] };
  agents = agents;
}

-- Whatever operations the server has run since its start over a sound table, a socket that watches a
-- device was opened by the occupant who holds the device now, and not under an empty id.
pub run_watched_by_occupant :
    (sockets : Sockets) (rows : List Device) (agents : Agents.Gateway) (cs : List Call) (j : String)
    (k : ℕ) (o : String)
    → Table.IsSound rows
    → generation (run sockets cs (started rows agents)).streams.viewers j k ≡ some o
    → (occupants (run sockets cs (started rows agents)).rows j ≡ some o)
      × (is_truthy (some o) ≡ true)
unfolding generation get
run_watched_by_occupant sockets rows agents cs j k o sound e =
    (run_from sockets cs (started rows agents) (record {
      sound = sound;
      tidy = λ j. tt;
      authorized = λ j k o e. ground (arith, e);
    })).authorized
      j k o e
