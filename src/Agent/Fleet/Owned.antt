-- ===== src/Agent/Fleet/Owned.antt =====
-- What the session objects of a supervisor hold of its processes: a property of each object, its number
-- and the processes, under the callbacks and the synchronisation.
use nebula_clone.Prelude.{
  ℕ, List, some, String, ◌≡◌, ◌≢◌, refl, sym, subst, arith, inl, inr, Option-cases, Bool-cases,
  ℕ_discrete, ◌==◌, any,
}
use nebula_clone.Js.Table.{get, set, get-set_same, get-set_other, String_key, ℕ_key}
use nebula_clone.Agent.Fleet.{Supervisor, SessionKind, cool, within, open_session, stop_session}
use nebula_clone.Agent.Fleet.Runs.{IsKept}

module _ {S C : Type 0} (W : C → Type 0) (P : ℕ → C → S → Type 0) where
  -- The processes are sound, and each object holds what it should of them.
  pub record Owns (objects : List (ℕ × S)) (c : C) : Type 0 where
    pub sound : W c
    pub each : (r : ℕ) (s : S) → get r objects ≡ some s → P r c s

  abbrev pub AllOwn : Supervisor S C → Type 0
  AllOwn st = Owns st.objects st.children

  -- A callback of one session leaves the processes of the others.
  pub record Acts (r : ℕ) (f : S → C → S × C) : Type 0 where
    pub keeps : (s : S) (c : C) → W c → W (f s c).1
    pub own : (s : S) (c : C) → W c → P r c s → P r (f s c).1 (f s c).0
    pub others : (s : S) (c : C) (q : ℕ) (t : S) → W c → q ≢ r → P q c t → P q (f s c).1 t

  pub set-Owns :
      (r : ℕ) (t : S) (objects : List (ℕ × S)) (c : C)
      → W c
      → P r c t
      → ((q : ℕ) (s : S) → q ≢ r → get q objects ≡ some s → P q c s)
      → Owns (set r t objects) c
  set-Owns r t objects c w p rest = record {
    sound = w;
    each = λ q s e. elim (ℕ_discrete r q) [
      | yes i ↦
          let same : t ≡ s = ground (arith, e, get-set_same t objects i) in
          subst (λ n. P n c s) i (subst (P r c) same p)
      | no n ↦ rest q s (λ i. n (sym i)) (ground (arith, e, get-set_other r q t objects n))
    ];
  }

  pub within-AllOwn :
      (r : ℕ) (f : S → C → S × C) (st : Supervisor S C)
      → Acts r f
      → AllOwn st
      → AllOwn (within r f st)
  unfolding within
  within-AllOwn r f st a h = elim (Option-cases (get r st.objects)) [
    | inl e ↦ rw (e) h
    | inr (s, e) ↦ rw (e) (
        set-Owns r (f s st.children).0 st.objects (f s st.children).1
          (a.keeps s st.children h.sound) (a.own s st.children h.sound (h.each r s e))
          (λ q t ne e'. a.others s st.children q t h.sound ne (h.each q t e')))
  ]

  pub cool-AllOwn : (p : ℕ) (st : Supervisor S C) → AllOwn st → AllOwn (cool p st)
  unfolding cool
  cool-AllOwn p st h = elim (Bool-cases (any (λ q. q == p) st.cooling)) [
    | inl there ↦ rw (there) h
    | inr missing ↦ rw (missing) h
  ]

  -- A session that is made is launched at once.
  pub owned-IsKept :
      (kind : SessionKind S C)
      → ((r now : ℕ) (d : String) (port : ℕ) (c : C)
          → W c
          → P r
              (kind.launch r now (kind.make d port now) c).1
              (kind.launch r now (kind.make d port now) c).0)
      → ((r now : ℕ) (d : String) (port : ℕ)
          → Acts r (λ s c. kind.launch r now (kind.make d port now) c))
      → ((r : ℕ) → Acts r kind.halt)
      → IsKept kind AllOwn
  unfolding open_session stop_session within
  owned-IsKept kind makes launches halts = record {
    offset = λ st n h. h;
    free = λ st ps h. h;
    opens = λ d now port st h.
        let r = st.next_session in
        let made = kind.make d port now in
        let a = launches r now d port in
        rw (get-set_same {a = st.next_session} made st.objects refl) (
          set-Owns r (kind.launch r now made st.children).0 (set r made st.objects)
            (kind.launch r now made st.children).1 (a.keeps made st.children h.sound)
            (makes r now d port st.children h.sound)
            (λ q t ne e. a.others made st.children q t h.sound ne (
              h.each q t
                (ground (arith, e, get-set_other r q made st.objects (λ i. ne (sym i)))))));
    stops = λ d st h. elim (Option-cases (get d st.sessions)) [
      | inl e ↦ rw (e) h
      | inr (r, e) ↦ rw (e) (elim (Option-cases (get r st.objects)) [
        | inl e' ↦ rw (e') h
        | inr (s, e') ↦ rw (e') (
            set-Owns r (kind.halt s st.children).0 st.objects (kind.halt s st.children).1
              ((halts r).keeps s st.children h.sound)
              ((halts r).own s st.children h.sound (h.each r s e'))
              (λ q t ne e''. (halts r).others s st.children q t h.sound ne (h.each q t e'')))
      ])
    ];
  }
