-- ===== src/Server/Agents/Pending.antt =====
-- agents.gateway.ts: the life of a pending command. Every call that touches the pending commands is one
-- step.
use nebula_clone.Prelude.{
  ℕ, ◌+◌, Bool, false, ◌&&◌, List, [], ◌∷◌, ◌++◌, Option, none, some, String, ◌===◌, if◌then◌else◌,
  ◌≡◌, refl, ◌∙◌, ap, arith, Option-cases, inl, inr, is_text,
}
use nebula_clone.Js.Table.{get, String_key, get-set, get-delete, IsMap}
use nebula_clone.Shared.Types.{
  DeviceAction, CommandOutcome, ServerMessage, occupancy_ended, command_error_agent_disconnected,
  command_error_occupation_ended,
}
use nebula_clone.Server.Agents.{
  PendingCommand, PendingCommands, Gateway, Action, close, send, resolve, surviving, failures,
  fail_pending_commands, fail_pending_by_occupation, handle_disconnect, current_agent,
  revoke_occupancy, send_to_agent, send_command, time_out, resolve_command,
}

-- How often a request is settled.
abbrev pub settlements : String → List Action → ℕ
settlements r [] = 0
settlements r (resolve id outcome ∷ acts) = (if id === r then 1 else 0) + settlements r acts
settlements r (a ∷ acts) = settlements r acts

settlements-append :
    (r : String) (xs ys : List Action)
    → settlements r (xs ++ ys) ≡ settlements r xs + settlements r ys
settlements-append r [] ys = omega arith
settlements-append r (close s c t ∷ xs) ys = settlements-append r xs ys
settlements-append r (send s m ∷ xs) ys = settlements-append r xs ys
settlements-append r (resolve id o ∷ xs) ys = ground (arith, settlements-append r xs ys)

settlements-send_to_agent :
    (is_open : ℕ → Bool) (agent : String) (m : ServerMessage) (g : Gateway) (r : String)
    → settlements r (send_to_agent is_open agent m g) ≡ 0
unfolding send_to_agent
settlements-send_to_agent is_open agent m g r = ground arith

-- The pending command of a request after the loop that fails the selected ones.
abbrev pub unless : (PendingCommand → Bool) → Option PendingCommand → Option PendingCommand
unless test none = none
unless test (some p) = if test p then none else some p

abbrev pub selected : (PendingCommand → Bool) → Option PendingCommand → ℕ
selected test none = 0
selected test (some p) = if test p then 1 else 0

module _ (test : PendingCommand → Bool) (reason : String) (r : String) where
  surviving_missing :
      (ps : PendingCommands)
      → get r ps ≡ none
      → (get r (surviving test ps) ≡ none) × (settlements r (failures test reason ps) ≡ 0)
  unfolding get surviving failures
  surviving_missing [] e = (refl, refl)
  surviving_missing ((id, p) ∷ ps) e =
      let ih = surviving_missing ps in (ground (arith, ih), ground (arith, ih))

  surviving_lem :
      (ps : PendingCommands)
      → IsMap ps
      → (get r (surviving test ps) ≡ unless test (get r ps))
        × (settlements r (failures test reason ps) ≡ selected test (get r ps))
  unfolding get surviving failures
  surviving_lem [] m = (refl, refl)
  surviving_lem ((id, p) ∷ ps) m =
      let ih = surviving_lem ps m.1 in
      let miss = surviving_missing ps in (ground (arith, ih, miss), ground (arith, ih, miss))

surviving-IsMap :
    (test : PendingCommand → Bool) (ps : PendingCommands) → IsMap ps → IsMap (surviving test ps)
unfolding surviving
surviving-IsMap test [] m = tt
surviving-IsMap test ((id, p) ∷ ps) m =
    ground (arith, surviving-IsMap test ps m.1, surviving_missing test "" id ps)

pub data Call : Type 0 where
  sends : (ℕ → Bool) → String → String → String → String → DeviceAction → Call
  receives : String → String → CommandOutcome → Call
  times_out : String → Call
  disconnects : ℕ → Call
  revokes : (ℕ → Bool) → String → String → Option String → Call

unfoldable pub step : Call → Gateway → Gateway × List Action
step (sends is_open uuid agent device occupant action) g =
    let (g', result, acts) = send_command is_open uuid agent device occupant action g in (g', acts)
step (receives agent request outcome) g = resolve_command agent request outcome g
step (times_out request) g = time_out request g
step (disconnects client) g = let (g', agent, acts) = handle_disconnect client g in (g', acts)
step (revokes is_open device occupant agent) g = revoke_occupancy is_open device occupant agent g

abbrev pub find_pending : String → Gateway → Option PendingCommand
find_pending r g = get r g.pending_commands

-- Whether a call may settle a pending command.
abbrev pub settles : Call → Gateway → String → PendingCommand → Bool
settles (sends _ _ _ _ _ _) g r p = false
settles (receives agent request outcome) g r p = request === r && p.agent_id === agent
settles (times_out request) g r p = request === r
settles (disconnects client) g r p = is_text (current_agent client g) p.agent_id
settles (revokes is_open device occupant agent) g r p =
    p.device_id === device && p.occupant_id === occupant

-- `randomUUID` issues ids that are not in use.
abbrev pub IsFresh : Call → Gateway → Type 0
IsFresh (sends _ uuid _ _ _ _) g = find_pending uuid g ≡ none
IsFresh _ g = Unit {0}

text_comm : (a b : String) → (a === b) ≡ (b === a)
text_comm a b = ground arith

selected-ext :
    (p q : PendingCommand → Bool) (o : Option PendingCommand)
    → ((c : PendingCommand) → p c ≡ q c)
    → (selected p o ≡ selected q o) × (unless p o ≡ unless q o)
selected-ext p q none h = (refl, refl)
selected-ext p q (some c) h = (ground (arith, h c), ground (arith, h c))

abbrev of_agent : String → PendingCommand → Bool
of_agent agent p = p.agent_id === agent

abbrev of_occupation : String → String → PendingCommand → Bool
of_occupation device occupant p = p.device_id === device && p.occupant_id === occupant

-- The loop of a disconnect compares the same two texts the other way round.
selected_disconnect :
    (client : ℕ) (agent : String) (g : Gateway) (r : String)
    → current_agent client g ≡ some agent
    → (selected (of_agent agent) (find_pending r g)
        ≡ selected (settles (disconnects client) g r) (find_pending r g))
      × (unless (of_agent agent) (find_pending r g)
          ≡ unless (settles (disconnects client) g r) (find_pending r g))
selected_disconnect client agent g r e =
    selected-ext (of_agent agent) (settles (disconnects client) g r) (find_pending r g)
      (λ p. rw e (text_comm p.agent_id agent))

same_key : (i r : String) (ps : PendingCommands) → i ≡ r → get i ps ≡ get r ps
same_key i r ps e = ap (λ k. get k ps) e

-- A call settles a request exactly once if the request is pending and the call is one that may settle
-- it (the answer of the agent it was sent to, its timer, the end of that agent's tunnel, the end of its
-- occupation), and not at all otherwise.
pub settlements-step :
    (c : Call) (g : Gateway) (r : String)
    → IsMap g.pending_commands
    → settlements r (step c g).1 ≡ selected (settles c g r) (find_pending r g)
unfolding step send_command time_out resolve_command handle_disconnect fail_pending_commands
    revoke_occupancy fail_pending_by_occupation
settlements-step (sends is_open uuid agent device occupant action) g r m = ground arith
settlements-step (receives agent request outcome) g r m =
    elim (Option-cases (get request g.pending_commands)) [
      | inl e ↦ ground (arith, same_key request r g.pending_commands)
      | inr (p, e) ↦ ground (arith, same_key request r g.pending_commands)
    ]
settlements-step (times_out request) g r m = elim (Option-cases (get request g.pending_commands)) [
  | inl e ↦ ground (arith, same_key request r g.pending_commands)
  | inr (p, e) ↦ ground (arith, same_key request r g.pending_commands)
]
settlements-step (disconnects client) g r m = elim (Option-cases (current_agent client g)) [
  | inl e ↦ rw (e, handle_disconnect) (ground (arith, e))
  | inr (agent, e) ↦
      rw (e, handle_disconnect)
        ((surviving_lem (of_agent agent) command_error_agent_disconnected r g.pending_commands m).1
          ∙ (selected_disconnect client agent g r e).0)
]
settlements-step (revokes is_open device occupant none) g r m =
    (surviving_lem (of_occupation device occupant) command_error_occupation_ended r
      g.pending_commands m).1
settlements-step (revokes is_open device occupant (some agent)) g r m = ground (
  arith,
  (surviving_lem (of_occupation device occupant) command_error_occupation_ended r g.pending_commands
      m).1,
  settlements-append r
      (failures (of_occupation device occupant) command_error_occupation_ended g.pending_commands)
      (send_to_agent is_open agent (occupancy_ended device occupant)
        (fail_pending_by_occupation device occupant g).0),
  settlements-send_to_agent is_open agent (occupancy_ended device occupant)
      (fail_pending_by_occupation device occupant g).0 r,
)

-- A pending command stays pending, unchanged, unless the call is one that may settle it.
pub find_pending-step :
    (c : Call) (g : Gateway) (r : String) (p : PendingCommand)
    → IsMap g.pending_commands
    → IsFresh c g
    → find_pending r g ≡ some p
    → find_pending r (step c g).0 ≡ (if settles c g r p then none else some p)
unfolding step send_command time_out resolve_command handle_disconnect fail_pending_commands
    revoke_occupancy fail_pending_by_occupation
find_pending-step (sends is_open uuid agent device occupant action) g r p m f e = ground (
  arith,
  get-set uuid r (record { agent_id = agent; device_id = device; occupant_id = occupant })
      g.pending_commands,
  same_key uuid r g.pending_commands,
)
find_pending-step (receives agent request outcome) g r p m f e =
    elim (Option-cases (get request g.pending_commands)) [
      | inl e' ↦ ground (arith, same_key request r g.pending_commands)
      | inr (q, e') ↦
          ground
            (arith, same_key request r g.pending_commands, get-delete request r g.pending_commands)
    ]
find_pending-step (times_out request) g r p m f e =
    elim (Option-cases (get request g.pending_commands)) [
      | inl e' ↦ ground (arith, same_key request r g.pending_commands)
      | inr (q, e') ↦
          ground
            (arith, same_key request r g.pending_commands, get-delete request r g.pending_commands)
    ]
find_pending-step (disconnects client) g r p m f e = elim (Option-cases (current_agent client g)) [
  | inl none_current ↦ rw (none_current, handle_disconnect) (ground (arith, none_current))
  | inr (agent, current) ↦
      rw (current, handle_disconnect)
        ((surviving_lem (of_agent agent) command_error_agent_disconnected r g.pending_commands m).0
          ∙ ap (unless (of_agent agent)) e
          ∙ ground (arith, text_comm p.agent_id agent))
]
find_pending-step (revokes is_open device occupant none) g r p m f e =
    (surviving_lem (of_occupation device occupant) command_error_occupation_ended r
      g.pending_commands m).0
    ∙ ap (unless (of_occupation device occupant)) e
find_pending-step (revokes is_open device occupant (some agent)) g r p m f e = ground (
  arith,
  (surviving_lem (of_occupation device occupant) command_error_occupation_ended r g.pending_commands
      m).0,
)
