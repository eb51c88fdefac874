-- ===== src/Tests/Gateways.antt =====
-- Concrete runs of the gateways and of the whole server.
use nebula_clone.Prelude.{
  ℕ, true, false, List, [], ◌∷◌, none, some, String, is_truthy, ◌≡◌, refl, arith, str_discrete,
  if◌then◌else◌, ltb, leb, ◌===◌, ◌+◌, ite, ℕ_discrete, ◌&&◌, ◌≢◌, is_none, not,
}
use nebula_clone.Js.Table.{get, set, String_key, ℕ_key, IsMap}
use nebula_clone.Js.Number.{nat}
use nebula_clone.Shared.Frames.{AgentFrame, encode_viewer_frame}
use nebula_clone.Server.Auth.{Failures, window_ms, max_failures_per_window, is_blocked}
use nebula_clone.Server.Auth.RateLimit.{record_all, is_blocked-record_all}
use nebula_clone.Server.Devices.{find_by_id}
use nebula_clone.Server.Devices.Locks.{occupants}
use nebula_clone.Server.Streams.{Viewers, SocketView, close_viewers, broadcast, viewer_frame, send}
use nebula_clone.Server.Streams as Streams
use nebula_clone.Server.Streams.Viewers.{
  generation, IsTidy, IsTidyEntry, is_viewed, unless_of, generation-close_viewers,
}
use nebula_clone.Server.Streams.Demand as Demand
use nebula_clone.Server.Streams.Demand.{notices, changes, notices-step, step-IsTidy}
use nebula_clone.Server.Streams.Relayed.{
  broadcast_lem, sent_to, terminations, expected, may_send, is_over,
}
use nebula_clone.Server.Streams.Gateway as Watching
use nebula_clone.Server.Agents.{Gateway}
use nebula_clone.Server.Agents.Pending as Pending
use nebula_clone.Server.Agents.Pending.{
  settlements, selected, settles, find_pending, settlements-step, find_pending-step,
}
use nebula_clone.Server.Occupancy as Occupancy
use nebula_clone.Server.Occupancy.{System, Sockets, step, run}
use nebula_clone.Server.Occupancy.Safety.{started, run_watched_by_occupant}
use nebula_clone.Server.Agents as Agents
use nebula_clone.Server.Agents.{connect, handle_disconnect}
use nebula_clone.Server.Agents.Tunnel.{text, on_message}
use nebula_clone.Server.Agents.Sockets.{Reception}
use nebula_clone.Server.Agents.Superseded as Superseded
use nebula_clone.Server.Agents.Superseded.{superseded_inert, after_all}
use nebula_clone.Tests.Shared.{ascii_codec}
use nebula_clone.Tests.Server.{table, table-IsSound}

abbrev open_sockets : SocketView
open_sockets = record { is_open = λ s. true; buffered_amount = λ s. 3_000_000 }

abbrev watched : Viewers
watched = ("phone", (1, "alice") ∷ (2, "alice") ∷ []) ∷ []

watched_entry :
    (device : String) (d : Dec (Path String "phone" device))
    → IsTidyEntry (ite d (some ((1, "alice") ∷ (2, "alice") ∷ [])) none)
unfolding get ℕ_discrete
watched_entry device (yes e) = (λ e. cc, (refl, (refl, tt)))
watched_entry device (no ne) = tt

watched-IsTidy : IsTidy watched
unfolding get
watched-IsTidy device = watched_entry device (str_discrete "phone" device)

abbrev key_frame : AgentFrame
key_frame = record {
  device_id = "phone";
  format = 2;
  is_key = true;
  width = nat 720;
  height = nat 1_280;
  stamp_ms = nat 7;
  payload = 1 ∷ 2 ∷ [];
}

abbrev key_payload : List ℕ
key_payload = 2 ∷ 1 ∷ 2 ∷ 208 ∷ 5 ∷ 0 ∷ 0 ∷ 0 ∷ 0 ∷ 7 ∷ 1 ∷ 2 ∷ []

broadcast_lem_example :
    (sent_to 1 (send 1 key_payload ∷ send 2 key_payload ∷ [])
      ≡ expected
          (not (is_none (generation watched "phone" 1)) && may_send open_sockets true 1)
          key_payload)
    × (terminations 1 (send 1 key_payload ∷ send 2 key_payload ∷ []) ≡ (
        if not (is_none (generation watched "phone" 1))
          && open_sockets.is_open 1
          && is_over open_sockets 1
        then 1
        else 0))
unfolding broadcast get str_discrete encode_viewer_frame
broadcast_lem_example =
    broadcast_lem open_sockets key_frame watched key_payload
      (send 1 key_payload ∷ send 2 key_payload ∷ []) 1 watched-IsTidy refl refl

abbrev ends_alice : Demand.Call
ends_alice = Demand.closes open_sockets "phone" "alice" 4408 "occupation released"

notices-step_example :
    notices "phone" (Demand.step ends_alice watched).1
    ≡ changes (is_viewed watched "phone") (is_viewed (Demand.step ends_alice watched).0 "phone")
notices-step_example = notices-step ends_alice watched "phone" watched-IsTidy

generation-close_viewers_example :
    generation
      (close_viewers open_sockets "phone" "alice" 4408 "device offline" watched).0
      "phone"
      1
    ≡ (if "phone" === "phone"
        then unless_of "alice" (generation watched "phone" 1)
        else generation watched "phone" 1)
generation-close_viewers_example =
    generation-close_viewers open_sockets "phone" "alice" 4408 "device offline" watched "phone" 1
      watched-IsTidy

-- A gateway with one agent, whose commands wait for an answer.
abbrev pub one_agent : Gateway
one_agent = record {
  agent_sockets = ("agent-1", 7) ∷ [];
  pending_commands =
      ("r1", record { agent_id = "agent-1"; device_id = "phone"; occupant_id = "alice" })
      ∷ ("r2", record { agent_id = "agent-2"; device_id = "tablet"; occupant_id = "bob" })
      ∷ [];
  agent_capabilities = [];
  rate_limiter = [];
  attached = (7, "agent-1") ∷ [];
}

pending-IsMap : IsMap one_agent.pending_commands
unfolding get str_discrete
pending-IsMap = (refl, (refl, tt))

settlements-step_example :
    settlements "r1" (Pending.step (Pending.disconnects 7) one_agent).1
    ≡ selected (settles (Pending.disconnects 7) one_agent "r1") (find_pending "r1" one_agent)
settlements-step_example = settlements-step (Pending.disconnects 7) one_agent "r1" pending-IsMap

find_pending-step_example : find_pending "r2" (Pending.step (Pending.disconnects 7) one_agent).0 ≡ (
    if settles
      (Pending.disconnects 7)
      one_agent
      "r2"
      (record { agent_id = "agent-2"; device_id = "tablet"; occupant_id = "bob" })
    then none
    else some (record { agent_id = "agent-2"; device_id = "tablet"; occupant_id = "bob" }))
unfolding get str_discrete
find_pending-step_example =
    find_pending-step (Pending.disconnects 7) one_agent "r2"
      (record { agent_id = "agent-2"; device_id = "tablet"; occupant_id = "bob" }) pending-IsMap tt
      refl

abbrev failed_once : Failures
failed_once = ("10.0.0.1", record { count = 1; window_start_ms = 5 }) ∷ []

is_blocked-record_all_example :
    is_blocked (some "10.0.0.2") 100 (
      record_all
        ((some "10.0.0.2", 10) ∷ (some "10.0.0.1", 15) ∷ (some "10.0.0.2", 20) ∷ [])
        failed_once)
    ≡ (leb max_failures_per_window 2 && ltb 100 (10 + window_ms))
unfolding get str_discrete
is_blocked-record_all_example =
    is_blocked-record_all (some "10.0.0.2") 10 ((some "10.0.0.1", 15) ∷ (some "10.0.0.2", 20) ∷ [])
      100 failed_once (refl, tt) refl (omega arith, (omega arith, tt))

differ : (a b : String) → (a === b) ≡ false → a ≢ b
differ a b e h = ground arith

abbrev all_open : Sockets
all_open = record { view = open_sockets; is_open = λ s. true }

-- Alice opens a stream of the phone that she holds.
abbrev alice_watches : Occupancy.Call
alice_watches = Occupancy.watches (some "secret") 1_000 5 (record {
  remote_ip = some "10.0.0.9";
  token = some "secret";
  device_id = some "phone";
  occupant_id = some "alice";
})

run_watched_by_occupant_example :
    (occupants (run all_open (alice_watches ∷ []) (started table one_agent)).rows "phone"
      ≡ some "alice")
    × (is_truthy (some "alice") ≡ true)
unfolding run step get set str_discrete generation Watching.handle_connection Watching.is_occupant
    is_blocked Streams.add_viewer find_by_id ℕ_discrete
run_watched_by_occupant_example =
    run_watched_by_occupant all_open table one_agent (alice_watches ∷ []) "phone" 5 "alice"
      table-IsSound refl

abbrev reception : Reception
reception = record {
  codec = ascii_codec;
  is_open = λ s. true;
  view = open_sockets;
  now = 950;
  viewers = watched;
  rows = table;
}

-- Agent 1 connects again while its first socket is still there, and the new socket leaves.
abbrev new_leaves : List Superseded.Event
new_leaves = Superseded.calls (Pending.disconnects 8) ∷ []

superseded_inert_example :
    ((connect 8 "agent-1" one_agent).1 ≡ Agents.close 7 4409 "superseded" ∷ [])
    × (on_message ascii_codec
          (λ s. true)
          open_sockets
          950
          watched
          7
          "agent-1"
          (text none)
          table
          (after_all new_leaves (connect 8 "agent-1" one_agent).0)
        ≡ record {
          rows = table;
          gateway = after_all new_leaves (connect 8 "agent-1" one_agent).0;
          agent_actions = [];
          viewer_actions = [];
        })
    × (handle_disconnect 7 (after_all new_leaves (connect 8 "agent-1" one_agent).0)
        ≡ (after_all new_leaves (connect 8 "agent-1" one_agent).0, none, []))
unfolding get str_discrete ℕ_discrete
superseded_inert_example =
    superseded_inert 7 "agent-1" 8 one_agent new_leaves reception (text none) (omega arith) refl
      refl (tt, tt)
