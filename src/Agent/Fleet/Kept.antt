-- ===== src/Agent/Fleet/Kept.antt =====
-- The session objects that an operation of a supervisor leaves as they are.
use nebula_clone.Prelude.{
  ℕ, ◌+◌, ◌≢◌, true, List, [], ◌∷◌, some, String, ◌≡◌, refl, ap, ◌∙◌, arith, inl, inr, Option-cases,
  Bool-cases, ℕ_discrete, ◌==◌, any,
}
use nebula_clone.Js.Table.{get, set, keys, get-set_same, get-set_other, String_key, ℕ_key}
use nebula_clone.Agent.Fleet.{
  Supervisor, SessionKind, cool, has, within, allocate_port, open_session, reuse, start_session,
  start_all, stop_session, stop_others, stop_all, sync_devices,
}
use nebula_clone.Agent.Fleet.Ports.{IsKind, IsSound}
use nebula_clone.Agent.Fleet.Steps.{start-IsSound, stop-IsSound, get-stop_session}
use nebula_clone.Agent.Fleet.Sync.{start_all-IsSound, start_all_keeps}

module _ {S C : Type 0} (kind : SessionKind S C) (laws : IsKind kind) (q : ℕ) (s : S) where
  -- The object under the number.
  abbrev pub Stays : Supervisor S C → Type 0
  Stays st = get q st.objects ≡ some s

  pub within-Stays :
      (r : ℕ) (f : S → C → S × C) (st : Supervisor S C)
      → ((c : C) → (f s c).0 ≡ s)
      → Stays st
      → Stays (within r f st)
  unfolding within
  within-Stays r f st inert h = elim (Option-cases (get r st.objects)) [
    | inl e ↦ rw (e) h
    | inr (t, e) ↦ rw (e) (elim (ℕ_discrete r q) [
      | yes i ↦
          let same : t ≡ s = ground (arith, h, e, i) in
          get-set_same (f t st.children).0 st.objects i
          ∙ ap some (ap (λ u. (f u st.children).0) same ∙ inert st.children)
      | no n ↦ get-set_other r q (f t st.children).0 st.objects n ∙ h
    ])
  ]

  pub cool-Stays : (p : ℕ) (st : Supervisor S C) → Stays st → Stays (cool p st)
  unfolding cool
  cool-Stays p st h = elim (Bool-cases (any (λ x. x == p) st.cooling)) [
    | inl there ↦ rw (there) h
    | inr missing ↦ rw (missing) h
  ]

  open-Stays :
      (d : String) (now port : ℕ) (st : Supervisor S C)
      → st.next_session ≢ q
      → Stays st
      → Stays (open_session kind now d (port, st))
  unfolding open_session within
  open-Stays d now port st n h =
      let made = kind.make d port now in
      rw (get-set_same {a = st.next_session} made st.objects refl) (
        get-set_other st.next_session q (kind.launch st.next_session now made st.children).0
          (set st.next_session made st.objects) n
        ∙ get-set_other st.next_session q made st.objects n
        ∙ h)

  open_reused-Stays :
      (d : String) (now : ℕ) (st : Supervisor S C) (free : List ℕ)
      → st.next_session ≢ q
      → Stays st
      → Stays (open_session kind now d (reuse free kind.base_port st))
  unfolding reuse
  open_reused-Stays d now st [] n h =
      open-Stays d now (kind.base_port + st.next_port_offset)
        (record st { next_port_offset = st.next_port_offset + 1 }) n h
  open_reused-Stays d now st (port ∷ free) n h =
      open-Stays d now port (record st { free_ports = free }) n h

  -- The number of an object is no fresh one.
  start-Stays :
      (d : String) (now : ℕ) (st : Supervisor S C)
      → IsSound kind st
      → Stays st
      → Stays (start_session kind now d st)
  unfolding start_session allocate_port
  start-Stays d now st sound h =
      open_reused-Stays d now st st.free_ports
        (λ i. absurd (ground (arith, h, i, sound.agrees.fresh q (omega arith)))) h

  start_all-Stays :
      (now : ℕ) (ds : List String) (st : Supervisor S C)
      → IsSound kind st
      → Stays st
      → Stays (start_all kind now ds st)
  unfolding start_all
  start_all-Stays now [] st sound h = h
  start_all-Stays now (d ∷ ds) st sound h = elim (Option-cases (get d st.sessions)) [
    | inl e ↦
        rw (start_all, e)
          (start_all-Stays now ds (start_session kind now d st)
            (start-IsSound kind laws d now st e sound) (start-Stays d now st sound h))
    | inr (r, e) ↦ rw (start_all, e) (start_all-Stays now ds st sound h)
  ]

  stop-Stays :
      (d : String) (st : Supervisor S C)
      → get d st.sessions ≢ some q
      → Stays st
      → Stays (stop_session kind d st)
  unfolding stop_session
  stop-Stays d st n h = elim (Option-cases (get d st.sessions)) [
    | inl e ↦ rw (e) h
    | inr (r, e) ↦ rw (e) (elim (Option-cases (get r st.objects)) [
      | inl e' ↦ rw (e') h
      | inr (t, e') ↦
          rw (e')
            (get-set_other r q (kind.halt t st.children).0 st.objects (λ i. n (e ∙ ap some i)) ∙ h)
    ])
  ]

  module _ (stopped : kind.is_stopping s ≡ true) where
    -- The map names no session that is stopping.
    unnamed :
        (d : String) (st : Supervisor S C) → IsSound kind st → Stays st → get d st.sessions ≢ some q
    unnamed d st sound h named =
        let (t, found, runs, device) = sound.agrees.linked d q named in
        absurd (ground (arith, h, found, runs, stopped, ap kind.is_stopping {x = t} {y = s}))

    stop_others_stopped :
        (wanted ds : List String) (st : Supervisor S C)
        → IsSound kind st
        → Stays st
        → Stays (stop_others kind wanted ds st)
    unfolding stop_others
    stop_others_stopped wanted [] st sound h = h
    stop_others_stopped wanted (d ∷ ds) st sound h = elim (Bool-cases (has d wanted)) [
      | inl e ↦ rw (stop_others, e) (stop_others_stopped wanted ds st sound h)
      | inr e ↦
          rw (stop_others, e)
            (stop_others_stopped wanted ds (stop_session kind d st)
              (stop-IsSound kind laws d st sound) (stop-Stays d st (unnamed d st sound h) h))
    ]

    pub stop_all_stopped :
        (st : Supervisor S C) → IsSound kind st → Stays st → Stays (stop_all kind st)
    unfolding stop_all
    stop_all_stopped st sound h = stop_others_stopped [] (keys st.sessions) st sound h

    pub sync_stopped :
        (now : ℕ) (ds : List String) (st : Supervisor S C)
        → IsSound kind st
        → Stays st
        → Stays (sync_devices kind now ds st)
    unfolding sync_devices
    sync_stopped now ds st sound h =
        let started = start_all kind now ds st in
        stop_others_stopped ds (keys started.sessions) started
          (start_all-IsSound kind laws now ds st sound) (start_all-Stays now ds st sound h)

  module _ (e : String) (wanted : List String) (asked : has e wanted ≡ true) where
    stop_others_kept :
        (ds : List String) (st : Supervisor S C)
        → IsSound kind st
        → get e st.sessions ≡ some q
        → Stays st
        → Stays (stop_others kind wanted ds st)
    unfolding stop_others
    stop_others_kept [] st sound named h = h
    stop_others_kept (d ∷ ds) st sound named h = elim (Bool-cases (has d wanted)) [
      | inl there ↦ rw (stop_others, there) (stop_others_kept ds st sound named h)
      | inr absent ↦
          let other : d ≢ e =
            λ i. absurd (ground (arith, absent, asked, ap (λ k. has k wanted) i)) in
          let unlike : get d st.sessions ≢ some q =
            λ i. other (ground (arith, sound.agrees.linked d q i, sound.agrees.linked e q named)) in
          rw (stop_others, absent)
            (stop_others_kept ds (stop_session kind d st) (stop-IsSound kind laws d st sound)
              (ground (arith, get-stop_session kind laws d e st sound, other, named))
              (stop-Stays d st unlike h))
    ]

    -- The session of a device that is still wanted is not touched.
    pub sync_kept :
        (now : ℕ) (st : Supervisor S C)
        → IsSound kind st
        → get e st.sessions ≡ some q
        → Stays st
        → Stays (sync_devices kind now wanted st)
    unfolding sync_devices
    sync_kept now st sound named h =
        let started = start_all kind now wanted st in
        stop_others_kept (keys started.sessions) started
          (start_all-IsSound kind laws now wanted st sound)
          (start_all_keeps kind laws now wanted st e q named)
          (start_all-Stays now wanted st sound h)
