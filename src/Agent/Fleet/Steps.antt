-- ===== src/Agent/Fleet/Steps.antt =====
-- Starting and stopping one session of a supervisor: its sessions and ports stay in order, and what the
-- map names afterwards.
use nebula_clone.Prelude.{
  ℕ, ◌+◌, List, [], ◌∷◌, none, some, String, ◌==◌, ◌===◌, str_discrete, if◌then◌else◌, ◌≡◌, refl,
  ap, arith, inl, inr, Option-cases,
}
use nebula_clone.Js.Table.{get, set, get-set, get-delete, String_key, ℕ_key}
use nebula_clone.Agent.Fleet.{
  Supervisor, SessionKind, within, allocate_port, open_session, reuse, start_session, stop_session,
}
use nebula_clone.Agent.Fleet.Ports.{
  IsKind, IsSound, Agrees, uses, is_issued, occurs, occurs-append, held-set, open-Agrees,
  close-Agrees, within-IsSound,
}

module _ {S C : Type 0} (kind : SessionKind S C) (laws : IsKind kind) where
  -- A new session takes a port that was in no place, or leaves one place for it.
  open-IsSound :
      (d : String) (port now : ℕ) (st : Supervisor S C)
      → Agrees kind st.objects st.next_session st.sessions
      → ((p : ℕ)
          → uses kind p st + (if port == p then 1 else 0) ≡ (if is_issued kind p st then 1 else 0))
      → get d st.sessions ≡ none
      → IsSound kind (record st {
        objects = set st.next_session (kind.make d port now) st.objects;
        next_session = st.next_session + 1;
        sessions = set d st.next_session st.sessions;
      })
  open-IsSound d port now st h ports missing =
      let t = kind.make d port now in
      record {
        agrees =
            open-Agrees kind d t st.objects st.next_session st.sessions missing
              (laws.make_device d port now) (laws.make_runs d port now) h;
        ports = λ p. ground (
          arith,
          ports p,
          held-set kind p st.next_session t st.objects,
          h.fresh st.next_session (omega arith),
          laws.make_runs d port now,
          laws.make_port d port now,
        );
      }

  open_reused :
      (d : String) (now : ℕ) (st : Supervisor S C) (free : List ℕ)
      → st.free_ports ≡ free
      → get d st.sessions ≡ none
      → IsSound kind st
      → IsSound kind (open_session kind now d (reuse free kind.base_port st))
  unfolding open_session reuse
  open_reused d now st [] e missing h =
      within-IsSound kind st.next_session (kind.launch st.next_session now) _
        (laws.launches st.next_session now)
        (open-IsSound d (kind.base_port + st.next_port_offset) now
          (record st { next_port_offset = st.next_port_offset + 1 }) h.agrees
          (λ p. ground (arith, h.ports p)) missing)
  open_reused d now st (port ∷ free) e missing h =
      within-IsSound kind st.next_session (kind.launch st.next_session now) _
        (laws.launches st.next_session now)
        (open-IsSound d port now (record st { free_ports = free }) h.agrees
          (λ p. ground (arith, h.ports p, ap (occurs p) e)) missing)

  pub start-IsSound :
      (d : String) (now : ℕ) (st : Supervisor S C)
      → get d st.sessions ≡ none
      → IsSound kind st
      → IsSound kind (start_session kind now d st)
  unfolding start_session allocate_port
  start-IsSound d now st missing h = open_reused d now st st.free_ports refl missing h

  pub stop-IsSound :
      (d : String) (st : Supervisor S C) → IsSound kind st → IsSound kind (stop_session kind d st)
  unfolding stop_session within
  stop-IsSound d st h = elim (Option-cases (get d st.sessions)) [
    | inl e ↦ rw (e) h
    | inr (r, e) ↦
        let (s, found, runs, device) = h.agrees.linked d r e in
        let t = (kind.halt s st.children).0 in
        rw (e) (
          rw (found) (record {
            agrees =
                close-Agrees kind d r s t st.objects st.next_session st.sessions e found device
                  (laws.halts s st.children) h.agrees;
            ports = λ p. ground (
              arith,
              h.ports p,
              held-set kind p r t st.objects,
              laws.halts s st.children,
              occurs-append p (kind.port_of s) st.cooling,
            );
          }))
  ]

  sessions-within :
      (r : ℕ) (f : S → C → S × C) (st : Supervisor S C) → (within r f st).sessions ≡ st.sessions
  unfolding within
  sessions-within r f st = elim (Option-cases (get r st.objects)) [
    | inl e ↦ rw (e) refl
    | inr (s, e) ↦ rw (e) refl
  ]

  sessions-open_session :
      (d : String) (now port : ℕ) (st : Supervisor S C)
      → (open_session kind now d (port, st)).sessions ≡ set d st.next_session st.sessions
  unfolding open_session
  sessions-open_session d now port st =
      sessions-within st.next_session (kind.launch st.next_session now) _

  sessions-reuse :
      (free : List ℕ) (st : Supervisor S C)
      → ((reuse free kind.base_port st).1.sessions ≡ st.sessions)
        × ((reuse free kind.base_port st).1.next_session ≡ st.next_session)
  unfolding reuse
  sessions-reuse [] st = (refl, refl)
  sessions-reuse (p ∷ free) st = (refl, refl)

  -- What `start_all` and `stop_others` do to the map.
  pub get-start_session :
      (d e : String) (now : ℕ) (st : Supervisor S C)
      → get e (start_session kind now d st).sessions
        ≡ (if d === e then some st.next_session else get e st.sessions)
  unfolding start_session allocate_port
  get-start_session d e now st =
      let (port, st') = reuse st.free_ports kind.base_port st in
      ground (
        arith,
        sessions-open_session d now port st',
        sessions-reuse st.free_ports st,
        get-set d e st.next_session st.sessions,
      )

  pub get-stop_session :
      (d e : String) (st : Supervisor S C)
      → IsSound kind st
      → get e (stop_session kind d st).sessions ≡ (if d === e then none else get e st.sessions)
  unfolding stop_session
  get-stop_session d e st h = elim (Option-cases (get d st.sessions)) [
    | inl missing ↦ rw (missing) (ground (arith, missing, str_discrete d e))
    | inr (r, named) ↦
        let (s, found, runs, device) = h.agrees.linked d r named in
        rw (named) (rw (found) (ground (arith, get-delete d e st.sessions)))
  ]
