-- ===== src/Agent/Fleet/Runs.antt =====
-- What the synchronisation with the devices keeps: whatever opening and stopping one session keep.
use nebula_clone.Prelude.{ℕ, ◌+◌, List, [], ◌∷◌, String, Option-cases, Bool-cases, inl, inr}
use nebula_clone.Js.Table.{get, keys, String_key}
use nebula_clone.Agent.Fleet.{
  Supervisor, SessionKind, has, allocate_port, open_session, reuse, start_session, start_all,
  stop_session, stop_others, stop_all, sync_devices,
}

-- A property of supervisors that does not read the ports, and that opening and stopping a session keep.
pub record IsKept {S C : Type 0} (kind : SessionKind S C) (Q : Supervisor S C → Type 0)
    : Type 0 where
  pub offset : (st : Supervisor S C) (n : ℕ) → Q st → Q (record st { next_port_offset = n })
  pub free : (st : Supervisor S C) (ps : List ℕ) → Q st → Q (record st { free_ports = ps })
  pub opens :
      (d : String) (now port : ℕ) (st : Supervisor S C)
      → Q st
      → Q (open_session kind now d (port, st))
  pub stops : (d : String) (st : Supervisor S C) → Q st → Q (stop_session kind d st)

module _ {S C : Type 0} (kind : SessionKind S C) (Q : Supervisor S C → Type 0)
    (laws : IsKept kind Q) where
  reused :
      (d : String) (now : ℕ) (ports : List ℕ) (st : Supervisor S C)
      → Q st
      → Q (open_session kind now d (reuse ports kind.base_port st))
  unfolding reuse
  reused d now [] st h =
      laws.opens d now (kind.base_port + st.next_port_offset)
        (record st { next_port_offset = st.next_port_offset + 1 })
        (laws.offset st (st.next_port_offset + 1) h)
  reused d now (port ∷ rest) st h =
      laws.opens d now port (record st { free_ports = rest }) (laws.free st rest h)

  started : (d : String) (now : ℕ) (st : Supervisor S C) → Q st → Q (start_session kind now d st)
  unfolding start_session allocate_port
  started d now st h = reused d now st.free_ports st h

  all_started :
      (now : ℕ) (ds : List String) (st : Supervisor S C) → Q st → Q (start_all kind now ds st)
  unfolding start_all
  all_started now [] st h = h
  all_started now (d ∷ ds) st h = elim (Option-cases (get d st.sessions)) [
    | inl e ↦
        rw (start_all, e) (all_started now ds (start_session kind now d st) (started d now st h))
    | inr (r, e) ↦ rw (start_all, e) (all_started now ds st h)
  ]

  others_stopped :
      (wanted ds : List String) (st : Supervisor S C) → Q st → Q (stop_others kind wanted ds st)
  unfolding stop_others
  others_stopped wanted [] st h = h
  others_stopped wanted (d ∷ ds) st h = elim (Bool-cases (has d wanted)) [
    | inl e ↦ rw (stop_others, e) (others_stopped wanted ds st h)
    | inr e ↦
        rw (stop_others, e) (others_stopped wanted ds (stop_session kind d st) (laws.stops d st h))
  ]

  pub all_stopped : (st : Supervisor S C) → Q st → Q (stop_all kind st)
  unfolding stop_all
  all_stopped st h = others_stopped [] (keys st.sessions) st h

  pub synced :
      (now : ℕ) (ds : List String) (st : Supervisor S C) → Q st → Q (sync_devices kind now ds st)
  unfolding sync_devices
  synced now ds st h =
      let after = start_all kind now ds st in
      others_stopped ds (keys after.sessions) after (all_started now ds st h)
