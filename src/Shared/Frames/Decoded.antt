-- ===== src/Shared/Frames/Decoded.antt =====
-- frame-codec.ts: what is known of a frame that the agent-side decoder accepts.
use nebula_clone.Prelude.{
  ℕ, suc, ◌+◌, ◌<◌, ◌≡◌, ◌≢◌, ap, zero, true, List, [], ◌∷◌, some, length, drop, arith, All,
  length-drop,
}
use nebula_clone.Js.Number.{nat, to_uint}
use nebula_clone.Shared.Frames.{
  u32_at, byte_at, is_valid_dimension, AgentFrame, TextCodec, decode_agent_frame, frame_format_h264,
}
use nebula_clone.Shared.Ids.{is_device_id}

byte_at-lt : (bytes : List ℕ) (i : ℕ) → All (λ b. b < 256) bytes → byte_at bytes i < 256
byte_at-lt [] i a = omega arith
byte_at-lt (b ∷ bs) zero a = a.0
byte_at-lt (b ∷ bs) (suc i) a = byte_at-lt bs i a.1

u32_at-lt : (bytes : List ℕ) (i : ℕ) → All (λ b. b < 256) bytes → u32_at bytes i < 4_294_967_296
u32_at-lt bytes i a = omega (
  arith,
  byte_at-lt bytes i a,
  byte_at-lt bytes (i + 1) a,
  byte_at-lt bytes (i + 2) a,
  byte_at-lt bytes (i + 3) a,
)

drop-ne-nil : (n : ℕ) (bytes : List ℕ) → n < length bytes → drop n bytes ≢ []
drop-ne-nil n bytes h e = omega (arith, ap length e, length-drop n bytes)

pub record IsDecoded (f : AgentFrame) : Type 0 where
  pub device_id : is_device_id f.device_id ≡ true
  pub format : f.format ≡ frame_format_h264
  pub width : is_valid_dimension f.width ≡ true
  pub height : is_valid_dimension f.height ≡ true
  pub stamp : nat (to_uint 4_294_967_296 f.stamp_ms) ≡ f.stamp_ms
  pub payload : f.payload ≢ []

-- Every frame that is decoded from bytes has a well-formed device id, the H.264 format, dimensions
-- from 1 to 65535, a stamp of 32 bits and some payload.
pub decode_agent_frame-IsDecoded :
    (t : TextCodec) (bytes : List ℕ) (f : AgentFrame)
    → All (λ b. b < 256) bytes
    → decode_agent_frame t bytes ≡ some f
    → IsDecoded f
unfolding decode_agent_frame
decode_agent_frame-IsDecoded t bytes f a e = record {
  device_id = ground arith;
  format = ground arith;
  width = ground arith;
  height = ground arith;
  stamp = ground (arith, u32_at-lt bytes (7 + byte_at bytes 0) a);
  payload = ground (arith, drop-ne-nil (11 + byte_at bytes 0) bytes);
}
