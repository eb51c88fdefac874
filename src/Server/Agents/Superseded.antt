-- ===== src/Server/Agents/Superseded.antt =====
-- agents.gateway.ts: the old socket of an agent that has connected anew, whatever the gateway does
-- afterwards.
use nebula_clone.Prelude.{
  ℕ, false, List, [], ◌∷◌, Option, none, some, String, ◌==◌, ◌≡◌, ◌≢◌, refl, sym, ◌===◌, ◌∙◌, ap,
  arith, All, Option-cases, Bool-cases, inl, inr,
}
use nebula_clone.Js.Table.{get, String_key, ℕ_key, get-set, get-delete}
use nebula_clone.Server.Auth.{is_blocked}
use nebula_clone.Server.Agents.{
  Gateway, Request, close, connect, handle_connection, handle_disconnect, current_agent,
  is_authorized, resolve_agent_id, fail_pending_commands,
}
use nebula_clone.Server.Agents.Pending.{
  Call, step, sends, receives, times_out, disconnects, revokes,
}
use nebula_clone.Server.Agents.Tunnel.{Incoming, on_message}
use nebula_clone.Server.Agents.Sockets.{
  Reception, IsSame, resolve-IsSame, message-IsSame, time_out-IsSame, revoke-IsSame, send-IsSame,
}

-- A connection request on a socket, a message on a socket, or a call that touches the commands.
pub data Event : Type 0 where
  connects : Option String → String → ℕ → ℕ → Request → Event
  messages : Reception → ℕ → String → Incoming → Event
  calls : Call → Event

unfoldable pub after : Event → Gateway → Gateway
after (connects expected uuid now client request) g =
    (handle_connection expected uuid now client request g).0
after (messages r client agent incoming) g =
    (on_message r.codec r.is_open r.view r.now r.viewers client agent incoming r.rows g).gateway
after (calls c) g = (step c g).0

unfoldable pub after_all : List Event → Gateway → Gateway
after_all [] g = g
after_all (e ∷ es) g = after_all es (after e g)

-- A socket connects once: no later connection is on this one.
abbrev pub IsOther : ℕ → Event → Type 0
IsOther old (connects expected uuid now client request) = client ≢ old
IsOther old _ = Unit {0}

module _ (old : ℕ) (agent : String) where
  -- The socket was attached to the agent and is not its current one.
  abbrev IsReplaced : Gateway → Type 0
  IsReplaced g = (get old g.attached ≡ some agent) × (get agent g.agent_sockets ≢ some old)

  IsReplaced-same : (g h : Gateway) → IsSame g h → IsReplaced g → IsReplaced h
  IsReplaced-same g h (sockets, agents) (named, other) =
      (ap (get old) agents ∙ named, λ e. other (ap (get agent) (sym sockets) ∙ e))

  connect-IsReplaced :
      (client : ℕ) (a : String) (g : Gateway)
      → client ≢ old
      → IsReplaced g
      → IsReplaced (connect client a g).0
  unfolding connect
  connect-IsReplaced client a g ne (named, other) = (
    get-set client old a g.attached ∙ ground (arith, ne, named),
    λ e. elim (Bool-cases (a === agent)) [
      | inl same ↦ ne (ground (arith, e, get-set a agent client g.agent_sockets, same))
      | inr differ ↦ other (ground (arith, e, get-set a agent client g.agent_sockets, differ))
    ],
  )

  connection-IsReplaced :
      (expected : Option String) (uuid : String) (now client : ℕ) (request : Request) (g : Gateway)
      → client ≢ old
      → IsReplaced g
      → IsReplaced (handle_connection expected uuid now client request g).0
  unfolding handle_connection
  connection-IsReplaced expected uuid now client request g ne h =
      elim (Bool-cases (is_blocked request.remote_ip now g.rate_limiter)) [
        | inl blocked ↦ rw (blocked) h
        | inr free ↦ rw (free) (elim (Bool-cases (is_authorized expected request)) [
          | inr unknown ↦ rw (unknown) h
          | inl known ↦ rw (known) (elim (Option-cases (resolve_agent_id uuid request)) [
            | inl e ↦ rw (e) h
            | inr (a, e) ↦ rw (e) (connect-IsReplaced client a g ne h)
          ])
        ])
      ]

  disconnect-IsReplaced :
      (client : ℕ) (g : Gateway) → IsReplaced g → IsReplaced (handle_disconnect client g).0
  unfolding handle_disconnect fail_pending_commands
  disconnect-IsReplaced client g (named, other) = elim (Option-cases (current_agent client g)) [
    | inl e ↦ rw (handle_disconnect, e) (named, other)
    | inr (a, e) ↦
        rw (handle_disconnect, e)
          (named, λ there. other (ground (arith, there, get-delete a agent g.agent_sockets)))
  ]

  after-IsReplaced :
      (e : Event) (g : Gateway) → IsOther old e → IsReplaced g → IsReplaced (after e g)
  unfolding after step
  after-IsReplaced (connects expected uuid now client request) g ne h =
      connection-IsReplaced expected uuid now client request g ne h
  after-IsReplaced (messages r client a incoming) g ne h =
      IsReplaced-same g (after (messages r client a incoming) g)
        (message-IsSame r client a incoming g) h
  after-IsReplaced (calls (sends is_open uuid a device occupant action)) g ne h =
      IsReplaced-same g (after (calls (sends is_open uuid a device occupant action)) g)
        (send-IsSame is_open uuid a device occupant action g) h
  after-IsReplaced (calls (receives a request outcome)) g ne h =
      IsReplaced-same g (after (calls (receives a request outcome)) g)
        (resolve-IsSame a request outcome g) h
  after-IsReplaced (calls (times_out request)) g ne h =
      IsReplaced-same g (after (calls (times_out request)) g) (time_out-IsSame request g) h
  after-IsReplaced (calls (disconnects client)) g ne h = disconnect-IsReplaced client g h
  after-IsReplaced (calls (revokes is_open device occupant a)) g ne h =
      IsReplaced-same g (after (calls (revokes is_open device occupant a)) g)
        (revoke-IsSame is_open device occupant a g) h

  after_all-IsReplaced :
      (es : List Event) (g : Gateway)
      → All (IsOther old) es
      → IsReplaced g
      → IsReplaced (after_all es g)
  unfolding after_all
  after_all-IsReplaced [] g o h = h
  after_all-IsReplaced (e ∷ es) g o h =
      after_all-IsReplaced es (after e g) o.1 (after-IsReplaced e g o.0 h)

  message_ignored :
      (r : Reception) (incoming : Incoming) (g : Gateway)
      → IsReplaced g
      → on_message r.codec r.is_open r.view r.now r.viewers old agent incoming r.rows g
        ≡ record { rows = r.rows; gateway = g; agent_actions = []; viewer_actions = [] }
  unfolding on_message
  message_ignored r incoming g h = elim (Option-cases (get agent g.agent_sockets)) [
    | inl e ↦ rw (e) refl
    | inr (socket, e) ↦
        let other : (socket == old) ≡ false = ground (arith, e, h.1) in rw (e, other) refl
  ]

  disconnect_ignored : (g : Gateway) → IsReplaced g → handle_disconnect old g ≡ (g, none, [])
  unfolding handle_disconnect current_agent
  disconnect_ignored g h =
      let not_current : current_agent old g ≡ none =
        elim (Option-cases (get agent g.agent_sockets)) [
          | inl e ↦ ground (arith, h.0, e)
          | inr (socket, e) ↦ ground (arith, h.0, e, h.1)
        ] in
      rw (handle_disconnect, not_current) refl

  connected-IsReplaced :
      (new : ℕ) (g : Gateway)
      → old ≢ new
      → get old g.attached ≡ some agent
      → IsReplaced (connect new agent g).0
  unfolding connect
  connected-IsReplaced new g ne named = (
    get-set new old agent g.attached ∙ ground (arith, ne, named),
    λ e. ne (ground (arith, e, get-set agent agent new g.agent_sockets)),
  )

  -- When an agent connects again on a new socket, its old socket is closed with 4409. From then on,
  -- whatever sockets connect and leave, whatever they send and whatever becomes of the commands, as long
  -- as the old socket does not connect anew, no message on it changes anything, and its end neither takes
  -- the agent offline nor fails a command.
  pub superseded_inert :
      (new : ℕ) (g : Gateway) (es : List Event) (r : Reception) (incoming : Incoming)
      → old ≢ new
      → get agent g.agent_sockets ≡ some old
      → get old g.attached ≡ some agent
      → All (IsOther old) es
      → ((connect new agent g).1 ≡ close old 4409 "superseded" ∷ [])
        × (on_message r.codec r.is_open r.view r.now r.viewers old agent incoming r.rows
              (after_all es (connect new agent g).0)
            ≡ record {
              rows = r.rows;
              gateway = after_all es (connect new agent g).0;
              agent_actions = [];
              viewer_actions = [];
            })
        × (handle_disconnect old (after_all es (connect new agent g).0)
            ≡ (after_all es (connect new agent g).0, none, []))
  superseded_inert new g es r incoming ne was named others =
      let h =
        after_all-IsReplaced es (connect new agent g).0 others
          (connected-IsReplaced new g ne named) in
      (
        unfold connect in rw was (ground (arith, ne)),
        message_ignored r incoming (after_all es (connect new agent g).0) h,
        disconnect_ignored (after_all es (connect new agent g).0) h,
      )
