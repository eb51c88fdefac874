-- ===== src/Server/Streams/Viewers.antt =====
-- streams-relay.service.ts: who watches what, and when the agents hear of it.
use nebula_clone.Prelude.{
  ℕ, Bool, true, false, ◌&&◌, [], ◌∷◌, Option, none, some, String, ◌==◌, ◌===◌, if◌then◌else◌, ◌≡◌,
  refl, ◌≢◌, ap, arith, Option-cases, inl, inr,
}
use nebula_clone.Js.Table.{get, set, delete, String_key, ℕ_key, get-set, get-delete, IsMap}
use nebula_clone.Server.Streams.{
  Sockets, Viewers, SocketView, settle, add_viewer, remove_viewer, others, close_viewers,
}

abbrev pub watched_by : Option Sockets → ℕ → Option String
watched_by none socket = none
watched_by (some sockets) socket = get socket sockets

-- The occupation under which a socket watches a device.
unfoldable pub generation : Viewers → String → ℕ → Option String
generation viewers device socket = watched_by (get device viewers) socket

abbrev pub occupied_list : Option Sockets → Bool
occupied_list none = false
occupied_list (some []) = false
occupied_list (some (s ∷ ss)) = true

abbrev pub is_viewed : Viewers → String → Bool
is_viewed viewers device = occupied_list (get device viewers)

-- No device is kept with an empty list of sockets, and no list holds a socket twice.
abbrev pub IsTidyEntry : Option Sockets → Type 0
IsTidyEntry none = Unit {0}
IsTidyEntry (some sockets) = (sockets ≢ []) × IsMap sockets

abbrev pub IsTidy : Viewers → Type 0
IsTidy viewers = (device : String) → IsTidyEntry (get device viewers)

others_missing :
    (occupant : String) (socket : ℕ) (ss : Sockets)
    → get socket ss ≡ none
    → get socket (others occupant ss) ≡ none
unfolding get others
others_missing occupant socket [] e = refl
others_missing occupant socket ((s, g) ∷ ss) e = ground (arith, others_missing occupant socket ss)

abbrev pub unless_of : String → Option String → Option String
unless_of occupant none = none
unless_of occupant (some g) = if g === occupant then none else some g

get-others :
    (occupant : String) (socket : ℕ) (ss : Sockets)
    → IsMap ss
    → get socket (others occupant ss) ≡ unless_of occupant (get socket ss)
unfolding get others
get-others occupant socket [] u = refl
get-others occupant socket ((s, g) ∷ ss) u =
    ground (arith, get-others occupant socket ss u.1, others_missing occupant socket ss)

pub others-IsMap : (occupant : String) (ss : Sockets) → IsMap ss → IsMap (others occupant ss)
unfolding others
others-IsMap occupant [] u = tt
others-IsMap occupant ((s, g) ∷ ss) u =
    ground (arith, others-IsMap occupant ss u.1, others_missing occupant s ss)

generation-settle :
    (device j : String) (socket : ℕ) (ss : Sockets) (viewers : Viewers)
    → generation (settle device ss viewers).0 j socket
      ≡ (if device === j then get socket ss else generation viewers j socket)
unfolding generation settle get
generation-settle device j socket [] viewers = ground (arith, get-delete device j viewers)
generation-settle device j socket (s ∷ ss) viewers =
    ground (arith, get-set device j (s ∷ ss) viewers)

pub generation-add_viewer :
    (device occupant : String) (socket : ℕ) (viewers : Viewers) (j : String) (s : ℕ)
    → generation (add_viewer device occupant socket viewers).0 j s
      ≡ (if device === j && socket == s then some occupant else generation viewers j s)
unfolding generation add_viewer get
generation-add_viewer device occupant socket viewers j s =
    elim (Option-cases (get device viewers)) [
      | inl e ↦ ground (
        arith,
        get-set device j ((socket, occupant) ∷ []) viewers,
        ap (λ k. get k viewers) {x = device} {y = j},
      )
      | inr (ss, e) ↦ ground (
        arith,
        get-set device j (set socket occupant ss) viewers,
        get-set socket s occupant ss,
        ap (λ k. get k viewers) {x = device} {y = j},
      )
    ]

pub generation-remove_viewer :
    (device : String) (socket : ℕ) (viewers : Viewers) (j : String) (s : ℕ)
    → generation (remove_viewer device socket viewers).0 j s
      ≡ (if device === j && socket == s then none else generation viewers j s)
unfolding generation remove_viewer
generation-remove_viewer device socket viewers j s = elim (Option-cases (get device viewers)) [
  | inl e ↦ ground (arith, ap (λ k. get k viewers) {x = device} {y = j})
  | inr (ss, e) ↦ ground (
    arith,
    generation-settle device j s (delete socket ss) viewers,
    get-delete socket s ss,
    ap (λ k. get k viewers) {x = device} {y = j},
  )
]

-- Ending an occupation takes away exactly the sockets of that device that it opened.
pub generation-close_viewers :
    (view : SocketView) (device occupant : String) (code : ℕ) (reason : String) (viewers : Viewers)
    (j : String) (s : ℕ)
    → IsTidy viewers
    → generation (close_viewers view device occupant code reason viewers).0 j s ≡ (
        if device === j
        then unless_of occupant (generation viewers j s)
        else generation viewers j s)
unfolding generation close_viewers
generation-close_viewers view device occupant code reason viewers j s tidy =
    elim (Option-cases (get device viewers)) [
      | inl e ↦ ground (arith, ap (λ k. get k viewers) {x = device} {y = j})
      | inr (ss, e) ↦ ground (
        arith,
        generation-settle device j s (others occupant ss) viewers,
        get-others occupant s ss,
        tidy device,
        ap (λ k. get k viewers) {x = device} {y = j},
      )
    ]
