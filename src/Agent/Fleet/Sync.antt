-- ===== src/Agent/Fleet/Sync.antt =====
-- The operations of a supervisor keep its sessions and ports in order, and `sync_devices` leaves a
-- session for each device named and for no other.
use nebula_clone.Prelude.{
  ℕ, true, not, ◌&&◌, List, [], ◌∷◌, none, some, String, is_none, str_discrete, if◌then◌else◌, ◌≡◌,
  refl, ap, arith, inl, inr, Option-cases, Bool-cases,
}
use nebula_clone.Js.Table.{get, keys, String_key, ℕ_key}
use nebula_clone.Agent.Fleet.{
  Supervisor, SessionKind, has, start_session, start_all, stop_session, stop_others, stop_all,
  sync_devices,
}
use nebula_clone.Agent.Fleet.Ports.{IsKind, IsSound}
use nebula_clone.Agent.Fleet.Steps.{
  start-IsSound, stop-IsSound, get-start_session, get-stop_session,
}

module _ {S C : Type 0} (kind : SessionKind S C) (laws : IsKind kind) where
  pub start_all-IsSound :
      (now : ℕ) (ds : List String) (st : Supervisor S C)
      → IsSound kind st
      → IsSound kind (start_all kind now ds st)
  unfolding start_all
  start_all-IsSound now [] st h = h
  start_all-IsSound now (d ∷ ds) st h = elim (Option-cases (get d st.sessions)) [
    | inl e ↦ rw (e) (
        start_all-IsSound now ds (start_session kind now d st)
          (start-IsSound kind laws d now st e h))
    | inr (r, e) ↦ rw (e) (start_all-IsSound now ds st h)
  ]

  pub start_all_keeps :
      (now : ℕ) (ds : List String) (st : Supervisor S C) (e : String) (r : ℕ)
      → get e st.sessions ≡ some r
      → get e (start_all kind now ds st).sessions ≡ some r
  unfolding start_all
  start_all_keeps now [] st e r h = h
  start_all_keeps now (d ∷ ds) st e r h = elim (Option-cases (get d st.sessions)) [
    | inl missing ↦
        rw (start_all, missing)
          (start_all_keeps now ds (start_session kind now d st) e r (
            ground (
              arith,
              get-start_session kind laws d e now st,
              ap (λ k. get k st.sessions) {x = d} {y = e},
            )))
    | inr (q, there) ↦ rw (start_all, there) (start_all_keeps now ds st e r h)
  ]

  start_all_names :
      (now : ℕ) (ds : List String) (st : Supervisor S C) (e : String)
      → is_none (get e (start_all kind now ds st).sessions)
        ≡ (is_none (get e st.sessions) && not (has e ds))
  unfolding start_all
  start_all_names now [] st e = ground arith
  start_all_names now (d ∷ ds) st e = elim (Option-cases (get d st.sessions)) [
    | inl missing ↦
        rw (start_all, missing)
          (ground (
            arith,
            start_all_names now ds (start_session kind now d st) e,
            get-start_session kind laws d e now st,
            str_discrete d e,
          ))
    | inr (q, there) ↦
        rw (start_all, there)
          (ground (
            arith,
            start_all_names now ds st e,
            there,
            ap (λ k. get k st.sessions) {x = d} {y = e},
          ))
  ]

  pub stop_others-IsSound :
      (wanted ds : List String) (st : Supervisor S C)
      → IsSound kind st
      → IsSound kind (stop_others kind wanted ds st)
  unfolding stop_others
  stop_others-IsSound wanted [] st h = h
  stop_others-IsSound wanted (d ∷ ds) st h = elim (Bool-cases (has d wanted)) [
    | inl e ↦ rw (e) (stop_others-IsSound wanted ds st h)
    | inr e ↦
        rw (e)
          (stop_others-IsSound wanted ds (stop_session kind d st) (stop-IsSound kind laws d st h))
  ]

  get-stop_others :
      (wanted ds : List String) (st : Supervisor S C) (e : String)
      → IsSound kind st
      → get e (stop_others kind wanted ds st).sessions
        ≡ (if has e ds && not (has e wanted) then none else get e st.sessions)
  unfolding stop_others
  get-stop_others wanted [] st e h = refl
  get-stop_others wanted (d ∷ ds) st e h = elim (Bool-cases (has d wanted)) [
    | inl there ↦
        rw (stop_others, there)
          (ground (
            arith,
            get-stop_others wanted ds st e h,
            there,
            ap (λ k. has k wanted) {x = d} {y = e},
          ))
    | inr absent ↦
        rw (stop_others, absent)
          (ground (
            arith,
            get-stop_others wanted ds (stop_session kind d st) e (stop-IsSound kind laws d st h),
            get-stop_session kind laws d e st h,
            absent,
            ap (λ k. has k wanted) {x = d} {y = e},
          ))
  ]

  has-keys :
      {V : Type 0} (e : String) (m : List (String × V)) → has e (keys m) ≡ not (is_none (get e m))
  unfolding keys get
  has-keys e [] = refl
  has-keys e ((d, v) ∷ m) = ground (arith, has-keys e m)

  pub sync-IsSound :
      (now : ℕ) (ds : List String) (st : Supervisor S C)
      → IsSound kind st
      → IsSound kind (sync_devices kind now ds st)
  unfolding sync_devices
  sync-IsSound now ds st h =
      stop_others-IsSound ds (keys (start_all kind now ds st).sessions) (start_all kind now ds st)
        (start_all-IsSound now ds st h)

  pub stop_all-IsSound : (st : Supervisor S C) → IsSound kind st → IsSound kind (stop_all kind st)
  unfolding stop_all
  stop_all-IsSound st h = stop_others-IsSound [] (keys st.sessions) st h

  -- The devices named have a session, the others have none.
  pub sync_names :
      (now : ℕ) (ds : List String) (st : Supervisor S C) (e : String)
      → IsSound kind st
      → is_none (get e (sync_devices kind now ds st).sessions) ≡ not (has e ds)
  unfolding sync_devices
  sync_names now ds st e h =
      let started = start_all kind now ds st in
      ground (
        arith,
        get-stop_others ds (keys started.sessions) started e (start_all-IsSound now ds st h),
        start_all_names now ds st e,
        has-keys e started.sessions,
      )

  -- A session that runs for a device named is left alone.
  pub sync_keeps :
      (now : ℕ) (ds : List String) (st : Supervisor S C) (e : String) (r : ℕ)
      → IsSound kind st
      → get e st.sessions ≡ some r
      → has e ds ≡ true
      → get e (sync_devices kind now ds st).sessions ≡ some r
  unfolding sync_devices
  sync_keeps now ds st e r h there wanted =
      let started = start_all kind now ds st in
      ground (
        arith,
        get-stop_others ds (keys started.sessions) started e (start_all-IsSound now ds st h),
        start_all_keeps now ds st e r there,
        wanted,
      )
