-- ===== src/Agent/Fleet/Ports.antt =====
-- What a supervisor's sessions and ports keep: each port is in one place, and the map and the session
-- objects agree.
use nebula_clone.Prelude.{
  ℕ, ◌+◌, ◌≤◌, Bool, true, false, ◌&&◌, List, [], ◌∷◌, ◌++◌, Option, none, some, String, any,
  ℕ_discrete, str_discrete, ◌==◌, ltb, leb, if◌then◌else◌, ◌≡◌, ◌≢◌, refl, ap, ◌∙◌, arith, inl, inr,
  Option-cases, Bool-cases,
}
use nebula_clone.Js.Table.{
  get, set, delete, get-set, get-set_same, get-set_other, get-delete, get-delete_same,
  get-delete_other, String_key, ℕ_key,
}
use nebula_clone.Agent.Fleet.{Supervisor, SessionKind, new_supervisor, remove, within, cool}

abbrev pub occurs : ℕ → List ℕ → ℕ
occurs p [] = 0
occurs p (q ∷ qs) = (if q == p then 1 else 0) + occurs p qs

pub occurs-append :
    (p q : ℕ) (qs : List ℕ) → occurs p (qs ++ q ∷ []) ≡ occurs p qs + occurs p (q ∷ [])
occurs-append p q [] = omega arith
occurs-append p q (x ∷ qs) = omega (arith, occurs-append p q qs)

occurs-remove :
    (p q : ℕ) (qs : List ℕ)
    → any (λ x. x == q) qs ≡ true
    → occurs p (remove q qs) + occurs p (q ∷ []) ≡ occurs p qs
occurs-remove p q [] e = absurd (ground arith)
occurs-remove p q (x ∷ qs) e = ground (arith, e, occurs-remove p q qs)

module _ {S C : Type 0} (kind : SessionKind S C) where
  -- What a callback does to a session: it stays the same device's, on the same port.
  pub record Keeps (f : S → C → S × C) : Type 0 where
    pub port : (s : S) (c : C) → kind.port_of (f s c).0 ≡ kind.port_of s
    pub device : (s : S) (c : C) → kind.device_of (f s c).0 ≡ kind.device_of s
    pub stopping : (s : S) (c : C) → kind.is_stopping (f s c).0 ≡ kind.is_stopping s

  pub record IsKind : Type 0 where
    pub make_port : (d : String) (p now : ℕ) → kind.port_of (kind.make d p now) ≡ p
    pub make_device : (d : String) (p now : ℕ) → kind.device_of (kind.make d p now) ≡ d
    pub make_runs : (d : String) (p now : ℕ) → kind.is_stopping (kind.make d p now) ≡ false
    pub launches : (r now : ℕ) → Keeps (kind.launch r now)
    pub halts : (s : S) (c : C) → kind.is_stopping (kind.halt s c).0 ≡ true

  -- 1 for a session that is not stopping and has the port.
  abbrev pub weight : ℕ → S → ℕ
  weight p s = if kind.is_stopping s then 0 else if kind.port_of s == p then 1 else 0

  abbrev pub weight_at : ℕ → Option S → ℕ
  weight_at p none = 0
  weight_at p (some s) = weight p s

  -- How many sessions have a port.
  abbrev pub held : ℕ → List (ℕ × S) → ℕ
  held p [] = 0
  held p ((r, s) ∷ m) = weight p s + held p m

  pub held-set :
      (p r : ℕ) (s : S) (m : List (ℕ × S))
      → held p (set r s m) + weight_at p (get r m) ≡ held p m + weight p s
  unfolding get set
  held-set p r s [] = omega arith
  held-set p r s ((q, t) ∷ m) = ground (arith, held-set p r s m)

  pub held_one : (p r : ℕ) (s : S) (m : List (ℕ × S)) → get r m ≡ some s → weight p s ≤ held p m
  unfolding get
  held_one p r s [] e = absurd (ground (arith, e))
  held_one p r s ((b, w) ∷ m) e = ground (arith, e, held_one p r s m, ap (weight p) {x = w} {y = s})

  held_two :
      (p r q : ℕ) (s t : S) (m : List (ℕ × S))
      → r ≢ q
      → get r m ≡ some s
      → get q m ≡ some t
      → weight p s + weight p t ≤ held p m
  unfolding get
  held_two p r q s t [] n e e' = absurd (ground (arith, e))
  held_two p r q s t ((b, w) ∷ m) n e e' = ground (
    arith,
    n,
    e,
    e',
    held_one p r s m,
    held_one p q t m,
    held_two p r q s t m n,
    ap (weight p) {x = w} {y = s},
    ap (weight p) {x = w} {y = t},
  )

  abbrev pub uses : ℕ → Supervisor S C → ℕ
  uses p st = held p st.objects + (occurs p st.free_ports + occurs p st.cooling)

  abbrev pub is_issued : ℕ → Supervisor S C → Bool
  is_issued p st = leb kind.base_port p && ltb p (kind.base_port + st.next_port_offset)

  -- The map names the session objects that are not stopping, each under its device.
  pub record Agrees (objects : List (ℕ × S)) (next : ℕ) (sessions : List (String × ℕ))
      : Type 0 where
    pub fresh : (r : ℕ) → next ≤ r → get r objects ≡ none
    pub linked :
        (d : String) (r : ℕ)
        → get d sessions ≡ some r
        → (s : S) × (get r objects ≡ some s) × (kind.is_stopping s ≡ false) × (kind.device_of s ≡ d)
    pub listed :
        (r : ℕ) (s : S)
        → get r objects ≡ some s
        → kind.is_stopping s ≡ false
        → get (kind.device_of s) sessions ≡ some r

  -- A port that was given out is in one place, and any other port is in none.
  pub record IsSound (st : Supervisor S C) : Type 0 where
    pub agrees : Agrees st.objects st.next_session st.sessions
    pub ports : (p : ℕ) → uses p st ≡ (if is_issued p st then 1 else 0)

  -- Two devices never have sessions on one port.
  pub port_own :
      (d e : String) (r q : ℕ) (s t : S) (st : Supervisor S C)
      → IsSound st
      → get d st.sessions ≡ some r
      → get e st.sessions ≡ some q
      → get r st.objects ≡ some s
      → get q st.objects ≡ some t
      → kind.port_of s ≡ kind.port_of t
      → d ≡ e
  port_own d e r q s t st h named named' found found' same =
      let (s', fs, runs, device) = h.agrees.linked d r named in
      let (t', ft, runs', device') = h.agrees.linked e q named' in
      elim (ℕ_discrete r q) [
        | yes i ↦ ground (arith, found, found', fs, ft, i, device, device')
        | no n ↦ absurd (
            ground (
              arith,
              same,
              held_two (kind.port_of s') r q s' t' st.objects n fs ft,
              h.ports (kind.port_of s'),
            ))
      ]

  pub new_supervisor-IsSound : (c : C) → IsSound (new_supervisor c)
  unfolding get
  new_supervisor-IsSound c = record {
    agrees = record {
      fresh = λ r l. refl;
      linked = λ d r e. absurd (grind arith);
      listed = λ r s e. absurd (grind arith);
    };
    ports = λ p. ground arith;
  }

  replace-Agrees :
      (r : ℕ) (s t : S) (objects : List (ℕ × S)) (next : ℕ) (sessions : List (String × ℕ))
      → get r objects ≡ some s
      → kind.device_of t ≡ kind.device_of s
      → kind.is_stopping t ≡ kind.is_stopping s
      → Agrees objects next sessions
      → Agrees (set r t objects) next sessions
  replace-Agrees r s t objects next sessions e device stopping h = record {
    fresh = λ q l. ground (arith, h.fresh q l, h.fresh r, get-set r q t objects);
    linked = λ d q e'.
        let (u, found, runs, same) = h.linked d q e' in
        elim (ℕ_discrete r q) [
          | yes i ↦ (t, get-set_same t objects i, ground arith, ground arith)
          | no n ↦ (u, ground (arith, get-set_other r q t objects n), runs, same)
        ];
    listed = λ q u e' runs. elim (ℕ_discrete r q) [
      | yes i ↦ ground (arith, get-set_same t objects i, h.listed r s)
      | no n ↦ h.listed q u (ground (arith, get-set_other r q t objects n)) runs
    ];
  }

  pub within-IsSound :
      (r : ℕ) (f : S → C → S × C) (st : Supervisor S C)
      → Keeps f
      → IsSound st
      → IsSound (within r f st)
  unfolding within
  within-IsSound r f st k h = elim (Option-cases (get r st.objects)) [
    | inl e ↦ rw (e) h
    | inr (s, e) ↦
        let t = (f s st.children).0 in
        rw (e) (record {
          agrees =
              replace-Agrees r s t st.objects st.next_session st.sessions e (k.device s st.children)
                (k.stopping s st.children) h.agrees;
          ports = λ p. ground (
            arith,
            h.ports p,
            held-set p r t st.objects,
            k.port s st.children,
            k.stopping s st.children,
          );
        })
  ]

  pub open-Agrees :
      (d : String) (t : S) (objects : List (ℕ × S)) (next : ℕ) (sessions : List (String × ℕ))
      → get d sessions ≡ none
      → kind.device_of t ≡ d
      → kind.is_stopping t ≡ false
      → Agrees objects next sessions
      → Agrees (set next t objects) (next + 1) (set d next sessions)
  open-Agrees d t objects next sessions missing device runs h = record {
    fresh = λ q l. ground (arith, h.fresh q (omega arith), get-set next q t objects);
    linked = λ e q e'. elim (str_discrete d e) [
      | yes i ↦
          let same : next ≡ q = ground (arith, get-set_same next sessions i) in
          (t, get-set_same t objects same, runs, device ∙ i)
      | no n ↦
          let (u, found, runs', same) =
            h.linked e q (ground (arith, get-set_other d e next sessions n)) in
          (u, ground (arith, get-set next q t objects, h.fresh next (omega arith)), runs', same)
    ];
    listed = λ q u e' n. elim (ℕ_discrete next q) [
      | yes i ↦ ground (arith, get-set_same t objects i, get-set_same next sessions device)
      | no m ↦
          let known = h.listed q u (ground (arith, get-set_other next q t objects m)) n in
          ground (arith, known, get-set d (kind.device_of u) next sessions)
    ];
  }

  pub close-Agrees :
      (d : String) (r : ℕ) (s t : S) (objects : List (ℕ × S)) (next : ℕ)
      (sessions : List (String × ℕ))
      → get d sessions ≡ some r
      → get r objects ≡ some s
      → kind.device_of s ≡ d
      → kind.is_stopping t ≡ true
      → Agrees objects next sessions
      → Agrees (set r t objects) next (delete d sessions)
  close-Agrees d r s t objects next sessions named found device stops h = record {
    fresh = λ q l. ground (arith, h.fresh q l, h.fresh r, get-set r q t objects);
    linked = λ e q e'. elim (str_discrete d e) [
      | yes i ↦ absurd (ground (arith, get-delete_same sessions i))
      | no n ↦
          let (u, found', runs', same) =
            h.linked e q (ground (arith, get-delete_other d e sessions n)) in
          elim (ℕ_discrete r q) [
            | yes i ↦ absurd (n (ground (arith, found', found, device, same)))
            | no m ↦ (u, ground (arith, get-set_other r q t objects m), runs', same)
          ]
    ];
    listed = λ q u e' n. elim (ℕ_discrete r q) [
      | yes i ↦ absurd (ground (arith, get-set_same t objects i))
      | no m ↦
          let known = h.listed q u (ground (arith, get-set_other r q t objects m)) n in
          ground (arith, known, get-delete d (kind.device_of u) sessions)
    ];
  }

  module _ (laws : IsKind) where
    pub cool-IsSound : (p : ℕ) (st : Supervisor S C) → IsSound st → IsSound (cool p st)
    unfolding cool
    cool-IsSound p st h = elim (Bool-cases (any (λ q. q == p) st.cooling)) [
      | inl there ↦ rw (there) (record {
        agrees = h.agrees;
        ports = λ q.
            ground (
              arith,
              h.ports q,
              occurs-append q p st.free_ports,
              occurs-remove q p st.cooling there,
            );
      })
      | inr missing ↦ rw (missing) h
    ]
