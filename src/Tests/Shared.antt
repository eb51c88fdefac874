-- ===== src/Tests/Shared.antt =====
-- Concrete runs of the wire format.
use Prim.Native.Char.{Char, code, char, IsScalar}
use text.Mathlib.TextEquality.{Char-path}
use nebula_clone.Prelude.{
  ℕ, ◌<◌, Bool, true, false, List, [], ◌∷◌, some, String, ltb, ap, ◌∙◌, ◌≡◌, refl, arith, All,
}
use nebula_clone.Js.Number.{nat}
use nebula_clone.Js.Pattern.{codes, is_ascii, matches}
use nebula_clone.Shared.Ids.{is_device_id, is_request_id, is_occupant_id}
use nebula_clone.Shared.Types.{ServerMessage, command, tap, AgentMessage, command_result, error}
use nebula_clone.Shared.Messages.{parse_server_message, parse_agent_message}
use nebula_clone.Shared.Messages.Wire.{server_message_json, agent_message_json}
use nebula_clone.Shared.Messages.RoundTrip.{
  parse_server_message_round_trip, parse_agent_message_round_trip,
}
use nebula_clone.Shared.Frames.{
  TextCodec, AgentFrame, ok, encode_agent_frame, decode_agent_frame, encode_viewer_frame,
  decode_viewer_frame,
}
use nebula_clone.Shared.Frames.RoundTrip.{received_agent, decode-encode_agent}
use nebula_clone.Shared.Frames.Decoded.{IsDecoded, decode_agent_frame-IsDecoded}
use nebula_clone.Server.Streams.{viewer_frame}
use nebula_clone.Server.Streams.Relayed.{relayed_whole}

abbrev tapped : ServerMessage
tapped = command "r-1" "phone" "alice" (tap (nat 10) (nat 20))

parse_server_message_round_trip_example :
    parse_server_message (server_message_json tapped) ≡ some tapped
unfolding is_device_id is_request_id is_occupant_id matches
parse_server_message_round_trip_example =
    parse_server_message_round_trip tapped (refl, refl, refl, (refl, refl))

abbrev failed_command : AgentMessage
failed_command = command_result "r-1" (error "timeout")

parse_agent_message_round_trip_example :
    parse_agent_message (agent_message_json failed_command) ≡ some failed_command
unfolding is_request_id matches
parse_agent_message_round_trip_example = parse_agent_message_round_trip failed_command refl

scalar : (n : ℕ) → ltb n 128 ≡ true → IsScalar n
scalar n e = ground (arith, e)

-- A codec that reads each byte as the character of that number, and drops what is not ASCII.
decode_char : (n : ℕ) (b : Bool) → ltb n 128 ≡ b → String → String
decode_char n true e rest = String.◌∷◌ (char n (scalar n e)) rest
decode_char n false e rest = rest

pub decode_bytes : List ℕ → String
unfolding decode_char
decode_bytes [] = ""
decode_bytes (n ∷ ns) = decode_char n (ltb n 128) refl (decode_bytes ns)

decode_known :
    (c : Char) (rest : String) (b : Bool) (e : ltb (code c) 128 ≡ b)
    → b ≡ true
    → decode_char (code c) b e rest ≡ String.◌∷◌ c rest
unfolding decode_char
decode_known c rest true e t =
    ap (λ d. String.◌∷◌ d rest) (Char-path (char (code c) (scalar (code c) e)) c refl)
decode_known c rest false e t = absurd (ground (arith, t))

pub decode_bytes-codes : (s : String) → is_ascii s ≡ true → decode_bytes (codes s) ≡ s
unfolding decode_bytes
decode_bytes-codes String.[] e = refl
decode_bytes-codes (String.◌∷◌ c s) e =
    ap (λ t. decode_char (code c) (ltb (code c) 128) refl t)
      (decode_bytes-codes s (ground (arith, e)))
    ∙ decode_known c s (ltb (code c) 128) refl (ground (arith, e))

abbrev pub ascii_codec : TextCodec
ascii_codec = record {
  encode = codes;
  decode = decode_bytes;
  encode_ascii = λ s e. refl;
  decode_ascii = decode_bytes-codes;
}

abbrev agent_bytes : List ℕ
agent_bytes = 2 ∷ 112 ∷ 49 ∷ 2 ∷ 1 ∷ 2 ∷ 208 ∷ 5 ∷ 0 ∷ 0 ∷ 0 ∷ 0 ∷ 7 ∷ 5 ∷ 6 ∷ []

-- A key frame of device p1.
abbrev pub agent_frame : AgentFrame
agent_frame = record {
  device_id = "p1";
  format = 2;
  is_key = true;
  width = nat 720;
  height = nat 1_280;
  stamp_ms = nat 7;
  payload = 5 ∷ 6 ∷ [];
}

decode-encode_agent_example :
    decode_agent_frame ascii_codec agent_bytes ≡ received_agent agent_frame (5 ∷ 6 ∷ [])
unfolding is_device_id matches encode_agent_frame
decode-encode_agent_example = decode-encode_agent ascii_codec agent_frame agent_bytes refl refl refl

agent_bytes-are_bytes : All (λ b. b < 256) agent_bytes
agent_bytes-are_bytes = omega arith

agent_bytes-decoded : decode_agent_frame ascii_codec agent_bytes ≡ some agent_frame
unfolding decode_agent_frame decode_bytes decode_char is_device_id matches
agent_bytes-decoded = refl

decode_agent_frame-IsDecoded_example : IsDecoded agent_frame
decode_agent_frame-IsDecoded_example =
    decode_agent_frame-IsDecoded ascii_codec agent_bytes agent_frame agent_bytes-are_bytes
      agent_bytes-decoded

relayed_whole_example :
    (out : List ℕ) × (encode_viewer_frame (viewer_frame agent_frame) ≡ ok out)
    × (decode_viewer_frame out ≡ some (viewer_frame agent_frame))
relayed_whole_example =
    relayed_whole ascii_codec agent_bytes agent_frame agent_bytes-are_bytes agent_bytes-decoded
