-- ===== src/Tests/Agent.antt =====
-- Concrete runs of the agent's parts.
use nebula_clone.Prelude.{
  ℕ, true, false, List, [], ◌∷◌, ◌++◌, some, String, ◌≡◌, refl, arith, str_discrete,
}
use nebula_clone.Js.Table.{get, set, delete, String_key}
use nebula_clone.Shared.Types.{ui_dump, error}
use nebula_clone.Agent.Packets.{drain_all, drain}
use nebula_clone.Agent.Packets.Helper.{
  HelperPacket, fresh_parser, push, both, stream_bytes, push-append, push-stream_bytes,
}
use nebula_clone.Agent.Packets.Mirror as Mirror
use nebula_clone.Agent.Packets.Mirror.{new_parser}
use nebula_clone.Agent.Packets.MirrorLaws as MirrorLaws
use nebula_clone.Agent.Packets.MirrorLaws.{mirror_push-append}
use nebula_clone.Agent.Executor.{
  Command, Resolver, Call, executes, turns, finishes, revokes, run, step, execute,
  revoke_occupation, new_executor,
}
use nebula_clone.Agent.Executor.Queues.{IsOrderly, run-IsOrderly}
use nebula_clone.Agent.Executor.Ghosts.{is_sent, run_no_ghost}

abbrev key_packet : HelperPacket
key_packet = record { is_key = true; payload = 9 ∷ 8 ∷ 7 ∷ [] }

abbrev delta_packet : HelperPacket
delta_packet = record { is_key = false; payload = 1 ∷ [] }

-- Two packets, cut within the second.
push-append_example :
    push ((0 ∷ 0 ∷ 0 ∷ 2 ∷ 1 ∷ 5 ∷ 6 ∷ 0 ∷ 0 ∷ []) ++ (0 ∷ 1 ∷ 0 ∷ 7 ∷ [])) fresh_parser ≡ (
      (push (0 ∷ 1 ∷ 0 ∷ 7 ∷ []) (push (0 ∷ 0 ∷ 0 ∷ 2 ∷ 1 ∷ 5 ∷ 6 ∷ 0 ∷ 0 ∷ []) fresh_parser).0).0,
      both
          (push (0 ∷ 0 ∷ 0 ∷ 2 ∷ 1 ∷ 5 ∷ 6 ∷ 0 ∷ 0 ∷ []) fresh_parser).1
          (push
            (0 ∷ 1 ∷ 0 ∷ 7 ∷ [])
            (push (0 ∷ 0 ∷ 0 ∷ 2 ∷ 1 ∷ 5 ∷ 6 ∷ 0 ∷ 0 ∷ []) fresh_parser).0).1,
    )
push-append_example =
    push-append (0 ∷ 0 ∷ 0 ∷ 2 ∷ 1 ∷ 5 ∷ 6 ∷ 0 ∷ 0 ∷ []) (0 ∷ 1 ∷ 0 ∷ 7 ∷ []) fresh_parser

push-stream_bytes_example :
    push (stream_bytes (key_packet ∷ delta_packet ∷ [])) fresh_parser
    ≡ (fresh_parser, some (key_packet ∷ delta_packet ∷ []))
push-stream_bytes_example =
    push-stream_bytes (key_packet ∷ delta_packet ∷ [])
      ((omega arith, omega arith), ((omega arith, omega arith), tt))

abbrev preamble : List ℕ
preamble = 78 ∷ 66 ∷ 76 ∷ 65 ∷ 0 ∷ 1 ∷ 1 ∷ 0 ∷ 2 ∷ 208 ∷ 5 ∷ 0 ∷ 0 ∷ 0 ∷ 0 ∷ 0 ∷ []

abbrev mirror_packet : List ℕ
mirror_packet = 1 ∷ 0 ∷ 2 ∷ 208 ∷ 5 ∷ 0 ∷ 0 ∷ 0 ∷ 0 ∷ 9 ∷ 0 ∷ 0 ∷ 0 ∷ 2 ∷ 5 ∷ 6 ∷ []

-- The preamble, and then a key frame of two bytes.
preamble_is_read : Mirror.push (preamble ++ mirror_packet) new_parser ≡ (
  record {
    buffer = [];
    is_poisoned = false;
    parsed_preamble = some (record { width = 720; height = 1_280 });
  },
  some (
      (record { is_key = true; width = 720; height = 1_280; pts_ms = 9; payload = 5 ∷ 6 ∷ [] })
      ∷ []),
)
unfolding Mirror.push Mirror.consume_preamble Mirror.next_packet drain_all drain
preamble_is_read = refl

mirror_push-append_example : Mirror.push (preamble ++ mirror_packet) new_parser ≡ (
  (Mirror.push mirror_packet (Mirror.push preamble new_parser).0).0,
  MirrorLaws.both
      (Mirror.push preamble new_parser).1
      (Mirror.push mirror_packet (Mirror.push preamble new_parser).0).1,
)
mirror_push-append_example = mirror_push-append preamble mirror_packet new_parser

abbrev resolver : Resolver
resolver = record { resolve = λ device. some "http://127.0.0.1:8100"; is_ready = λ device. true }

abbrev command_of : String → String → Command
command_of request occupant = record {
  request_id = request;
  device_id = "phone";
  occupant_id = occupant;
  action = ui_dump;
}

-- Two commands of the occupant wait; then the occupation ends.
abbrev handed_over : List Call
handed_over =
    executes resolver (command_of "r1" "alice") 0
    ∷ executes resolver (command_of "r2" "alice") 10
    ∷ revokes "phone" "alice"
    ∷ []

abbrev later_calls : List Call
later_calls =
    turns "phone" 20
    ∷ executes resolver (command_of "r3" "bob") 30
    ∷ turns "phone" 40
    ∷ turns "phone" 50
    ∷ finishes "phone" (error "late")
    ∷ []

run-IsOrderly_example : IsOrderly (run handed_over new_executor).0
run-IsOrderly_example = run-IsOrderly handed_over

run_no_ghost_example :
    is_sent "phone" "alice" (run later_calls (run handed_over new_executor).0).1 ≡ false
unfolding run step execute get set delete revoke_occupation str_discrete
run_no_ghost_example =
    run_no_ghost "phone" "alice" later_calls (run handed_over new_executor).0
      (run-IsOrderly handed_over) (refl, (refl, (refl, (refl, (refl, tt))))) refl
