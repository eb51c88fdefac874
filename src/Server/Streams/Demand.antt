-- ===== src/Server/Streams/Demand.antt =====
-- streams-relay.service.ts: the calls that change who watches as one step function, its invariant, and
-- the notices of demand, which the agents turn their uplink on and off by.
use nebula_clone.Prelude.{
  ℕ, ◌+◌, Bool, true, false, List, [], ◌∷◌, ◌++◌, some, String, ◌===◌, if◌then◌else◌, ◌≡◌, refl,
  ◌≢◌, ap, arith, Option-cases, inl, inr,
}
use nebula_clone.Js.Table.{
  get, set, delete, String_key, ℕ_key, get-set, get-delete, IsMap, set-IsMap, delete-IsMap,
}
use nebula_clone.Server.Streams.{
  Sockets, Viewers, SocketView, Action, demand_changed, settle, add_viewer, remove_viewer, others,
  closings, close_viewers,
}
use nebula_clone.Server.Streams.Viewers.{IsTidy, IsTidyEntry, is_viewed, others-IsMap}

pub data Call : Type 0 where
  adds : String → String → ℕ → Call
  removes : String → ℕ → Call
  closes : SocketView → String → String → ℕ → String → Call

unfoldable pub step : Call → Viewers → Viewers × List Action
step (adds device occupant socket) viewers = add_viewer device occupant socket viewers
step (removes device socket) viewers = remove_viewer device socket viewers
step (closes view device occupant code reason) viewers =
    close_viewers view device occupant code reason viewers

set-ne-nil : (a : ℕ) (v : String) (ss : Sockets) → set a v ss ≢ []
unfolding set
set-ne-nil a v [] = cc
set-ne-nil a v (s ∷ ss) = ground arith

settle-IsTidy :
    (device : String) (ss : Sockets) (viewers : Viewers)
    → IsMap ss
    → IsTidy viewers
    → IsTidy (settle device ss viewers).0
unfolding settle
settle-IsTidy device [] viewers m t j = ground (arith, get-delete device j viewers, t j)
settle-IsTidy device (s ∷ ss) viewers m t j = ground (arith, get-set device j (s ∷ ss) viewers, t j)

-- Every call keeps the map of viewers tidy: no device has an empty list of sockets, and none holds a
-- socket twice.
pub step-IsTidy : (c : Call) (viewers : Viewers) → IsTidy viewers → IsTidy (step c viewers).0
unfolding step add_viewer remove_viewer close_viewers get
step-IsTidy (adds device occupant socket) viewers t j = elim (Option-cases (get device viewers)) [
  | inl e ↦ ground (arith, get-set device j ((socket, occupant) ∷ []) viewers, t j)
  | inr (ss, e) ↦ ground (
    arith,
    get-set device j (set socket occupant ss) viewers,
    t j,
    t device,
    set-ne-nil socket occupant ss,
    set-IsMap socket occupant ss,
  )
]
step-IsTidy (removes device socket) viewers t j = elim (Option-cases (get device viewers)) [
  | inl e ↦ ground (arith, t j)
  | inr (ss, e) ↦
      let tidy : IsTidyEntry (some ss) = ground (arith, t device) in
      ground
        (arith, settle-IsTidy device (delete socket ss) viewers (delete-IsMap socket ss tidy.1) t j)
]
step-IsTidy (closes view device occupant code reason) viewers t j =
    elim (Option-cases (get device viewers)) [
      | inl e ↦ ground (arith, t j)
      | inr (ss, e) ↦
          let tidy : IsTidyEntry (some ss) = ground (arith, t device) in
          ground (
            arith,
            settle-IsTidy device (others occupant ss) viewers (others-IsMap occupant ss tidy.1) t j,
          )
    ]

-- How often the listeners are told of a device.
abbrev pub notices : String → List Action → ℕ
notices j [] = 0
notices j (demand_changed d ∷ acts) = (if d === j then 1 else 0) + notices j acts
notices j (a ∷ acts) = notices j acts

abbrev pub changes : Bool → Bool → ℕ
changes true false = 1
changes false true = 1
changes _ _ = 0

notices-closings :
    (view : SocketView) (occupant : String) (code : ℕ) (reason : String) (ss : Sockets) (j : String)
    (acts : List Action)
    → notices j (closings view occupant code reason ss ++ acts) ≡ notices j acts
unfolding closings
notices-closings view occupant code reason [] j acts = refl
notices-closings view occupant code reason ((s, g) ∷ ss) j acts =
    ground (arith, notices-closings view occupant code reason ss j acts)

notices-settle :
    (device : String) (ss ss' : Sockets) (viewers : Viewers) (j : String)
    → get device viewers ≡ some ss'
    → ss' ≢ []
    → notices j (settle device ss viewers).1
      ≡ changes (is_viewed viewers j) (is_viewed (settle device ss viewers).0 j)
unfolding settle
notices-settle device [] ss' viewers j e ne =
    ground (arith, get-delete device j viewers, ap (λ k. get k viewers) {x = device} {y = j})
notices-settle device (s ∷ ss) ss' viewers j e ne =
    ground (arith, get-set device j (s ∷ ss) viewers, ap (λ k. get k viewers) {x = device} {y = j})

-- The listeners are told of a device exactly once when it gets its first viewer or loses its last one,
-- and otherwise not at all.
pub notices-step :
    (c : Call) (viewers : Viewers) (j : String)
    → IsTidy viewers
    → notices j (step c viewers).1 ≡ changes (is_viewed viewers j) (is_viewed (step c viewers).0 j)
unfolding step add_viewer remove_viewer close_viewers
notices-step (adds device occupant socket) viewers j t = elim (Option-cases (get device viewers)) [
  | inl e ↦ ground (
    arith,
    get-set device j ((socket, occupant) ∷ []) viewers,
    ap (λ k. get k viewers) {x = device} {y = j},
  )
  | inr (ss, e) ↦ ground (
    arith,
    get-set device j (set socket occupant ss) viewers,
    t device,
    set-ne-nil socket occupant ss,
    ap (λ k. get k viewers) {x = device} {y = j},
  )
]
notices-step (removes device socket) viewers j t = elim (Option-cases (get device viewers)) [
  | inl e ↦ ground arith
  | inr (ss, e) ↦
      let tidy : IsTidyEntry (some ss) = ground (arith, t device) in
      ground (arith, notices-settle device (delete socket ss) ss viewers j e tidy.0)
]
notices-step (closes view device occupant code reason) viewers j t =
    elim (Option-cases (get device viewers)) [
      | inl e ↦ ground arith
      | inr (ss, e) ↦
          let tidy : IsTidyEntry (some ss) = ground (arith, t device) in
          ground (
            arith,
            notices-settle device (others occupant ss) ss viewers j e tidy.0,
            notices-closings view occupant code reason ss j
                (settle device (others occupant ss) viewers).1,
          )
    ]
