-- ===== src/Agent/Fleet/Objects.antt =====
-- What becomes of the session objects of a supervisor: a property that each callback keeps holds of all
-- of them, and a stopped one is left as it is.
use nebula_clone.Prelude.{
  ℕ, ◌+◌, List, [], ◌∷◌, some, String, ◌≡◌, refl, subst, arith, inl, inr, Option-cases, Bool-cases,
  ℕ_discrete, ◌==◌, any,
}
use nebula_clone.Js.Table.{get, set, keys, get-set_same, get-set_other, String_key, ℕ_key}
use nebula_clone.Agent.Fleet.{
  Supervisor, SessionKind, cool, has, within, allocate_port, open_session, reuse, start_session,
  start_all, stop_session, stop_others, stop_all, sync_devices,
}

module _ {S : Type 0} (P : S → Type 0) where
  -- Every session object has a property.
  abbrev pub Holds : List (ℕ × S) → Type 0
  Holds objects = (r : ℕ) (s : S) → get r objects ≡ some s → P s

  set-Holds :
      (r : ℕ) (t : S) (objects : List (ℕ × S)) → P t → Holds objects → Holds (set r t objects)
  set-Holds r t objects p h q s e = elim (ℕ_discrete r q) [
    | yes i ↦ let same : t ≡ s = ground (arith, e, get-set_same t objects i) in subst P same p
    | no n ↦ h q s (ground (arith, e, get-set_other r q t objects n))
  ]

module _ {S C : Type 0} (P : S → Type 0) where
  abbrev pub AllHold : Supervisor S C → Type 0
  AllHold st = Holds P st.objects

  pub within-Holds :
      (r : ℕ) (f : S → C → S × C) (st : Supervisor S C)
      → ((s : S) (c : C) → P s → P (f s c).0)
      → AllHold st
      → AllHold (within r f st)
  unfolding within
  within-Holds r f st keep h = elim (Option-cases (get r st.objects)) [
    | inl e ↦ rw (e) h
    | inr (s, e) ↦
        rw (e) (set-Holds P r (f s st.children).0 st.objects (keep s st.children (h r s e)) h)
  ]

  pub cool-AllHold : (p : ℕ) (st : Supervisor S C) → AllHold st → AllHold (cool p st)
  unfolding cool
  cool-AllHold p st h = elim (Bool-cases (any (λ q. q == p) st.cooling)) [
    | inl there ↦ rw (there) h
    | inr missing ↦ rw (missing) h
  ]

  module _ (kind : SessionKind S C)
      (launches : (number now : ℕ) (d : String) (port : ℕ) (c : C)
        → P (kind.launch number now (kind.make d port now) c).0)
      (halts : (s : S) (c : C) → P (kind.halt s c).0) where
    -- The object that is made is launched at once.
    open-Holds :
        (d : String) (now port : ℕ) (st : Supervisor S C)
        → AllHold st
        → AllHold (open_session kind now d (port, st))
    unfolding open_session within
    open-Holds d now port st h =
        let made = kind.make d port now in
        rw (get-set_same {a = st.next_session} made st.objects refl) λ q s e.
          elim (ℕ_discrete st.next_session q) [
            | yes i ↦
                let same : (kind.launch st.next_session now made st.children).0 ≡ s = ground (
                  arith,
                  e,
                  get-set_same (kind.launch st.next_session now made st.children).0
                      (set st.next_session made st.objects) i,
                ) in
                subst P same (launches st.next_session now d port st.children)
            | no n ↦ h q s (
                ground (
                  arith,
                  e,
                  get-set_other st.next_session q
                      (kind.launch st.next_session now made st.children).0
                      (set st.next_session made st.objects) n,
                  get-set_other st.next_session q made st.objects n,
                ))
          ]

    open_reused-Holds :
        (d : String) (now : ℕ) (st : Supervisor S C) (free : List ℕ)
        → AllHold st
        → AllHold (open_session kind now d (reuse free kind.base_port st))
    unfolding reuse
    open_reused-Holds d now st [] h =
        open-Holds d now (kind.base_port + st.next_port_offset)
          (record st { next_port_offset = st.next_port_offset + 1 }) h
    open_reused-Holds d now st (port ∷ free) h =
        open-Holds d now port (record st { free_ports = free }) h

    start-Holds :
        (d : String) (now : ℕ) (st : Supervisor S C)
        → AllHold st
        → AllHold (start_session kind now d st)
    unfolding start_session allocate_port
    start-Holds d now st h = open_reused-Holds d now st st.free_ports h

    start_all-Holds :
        (now : ℕ) (ds : List String) (st : Supervisor S C)
        → AllHold st
        → AllHold (start_all kind now ds st)
    unfolding start_all
    start_all-Holds now [] st h = h
    start_all-Holds now (d ∷ ds) st h = elim (Option-cases (get d st.sessions)) [
      | inl e ↦
          rw (start_all, e)
            (start_all-Holds now ds (start_session kind now d st) (start-Holds d now st h))
      | inr (r, e) ↦ rw (start_all, e) (start_all-Holds now ds st h)
    ]

    stop-Holds : (d : String) (st : Supervisor S C) → AllHold st → AllHold (stop_session kind d st)
    unfolding stop_session
    stop-Holds d st h = elim (Option-cases (get d st.sessions)) [
      | inl e ↦ rw (e) h
      | inr (r, e) ↦ rw (e) (elim (Option-cases (get r st.objects)) [
        | inl e' ↦ rw (e') h
        | inr (s, e') ↦
            rw (e') (set-Holds P r (kind.halt s st.children).0 st.objects (halts s st.children) h)
      ])
    ]

    pub stop_others-Holds :
        (wanted ds : List String) (st : Supervisor S C)
        → AllHold st
        → AllHold (stop_others kind wanted ds st)
    unfolding stop_others
    stop_others-Holds wanted [] st h = h
    stop_others-Holds wanted (d ∷ ds) st h = elim (Bool-cases (has d wanted)) [
      | inl e ↦ rw (stop_others, e) (stop_others-Holds wanted ds st h)
      | inr e ↦
          rw (stop_others, e)
            (stop_others-Holds wanted ds (stop_session kind d st) (stop-Holds d st h))
    ]

    pub stop_all-Holds : (st : Supervisor S C) → AllHold st → AllHold (stop_all kind st)
    unfolding stop_all
    stop_all-Holds st h = stop_others-Holds [] (keys st.sessions) st h

    pub sync-Holds :
        (now : ℕ) (ds : List String) (st : Supervisor S C)
        → AllHold st
        → AllHold (sync_devices kind now ds st)
    unfolding sync_devices
    sync-Holds now ds st h =
        let started = start_all kind now ds st in
        stop_others-Holds ds (keys started.sessions) started (start_all-Holds now ds st h)
