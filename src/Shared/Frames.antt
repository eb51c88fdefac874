-- ===== src/Shared/Frames.antt =====
-- packages/shared/src/frame-codec.ts: the binary mirroring frames. A byte is a number below 256, and
-- an offset outside the data reads 0; the length checks of the decoders rule such reads out.
pub mod RoundTrip
pub mod Decoded
use nebula_clone.Prelude.{
  ℕ, suc, ◌+◌, ◌*◌, ◌/◌, ◌%◌, ◌<◌, ◌≡◌, Bool, true, false, not, ◌&&◌, ◌||◌, List, [], ◌∷◌, ◌++◌,
  Option, none, some, String, length, take, drop, get_or, leb, ltb, ◌==◌, if◌then◌else◌,
}
use nebula_clone.Js.Number.{Number, int, fraction, not_finite, pos, negsuc, nat, is_finite, to_uint}
use nebula_clone.Js.Pattern.{codes, is_ascii}
use nebula_clone.Shared.Ids.{is_device_id}

-- The `TextEncoder` and `TextDecoder` of the platform: on ASCII, UTF-8 is one byte to a character.
pub record TextCodec : Type 0 where
  pub encode : String → List ℕ
  pub decode : List ℕ → String
  pub encode_ascii : (s : String) → is_ascii s ≡ true → encode s ≡ codes s
  pub decode_ascii : (s : String) → is_ascii s ≡ true → decode (codes s) ≡ s

abbrev pub frame_format_h264 : ℕ
frame_format_h264 = 2

abbrev pub max_device_id_bytes : ℕ
max_device_id_bytes = 255

abbrev pub max_dimension : ℕ
max_dimension = 65_535

pub record ViewerFrame : Type 0 where
  pub format : ℕ
  pub is_key : Bool
  pub width : Number
  pub height : Number
  pub stamp_ms : Number
  pub payload : List ℕ

pub record AgentFrame : Type 0 where
  pub device_id : String
  pub format : ℕ
  pub is_key : Bool
  pub width : Number
  pub height : Number
  pub stamp_ms : Number
  pub payload : List ℕ

pub data EncodeError : Type 0 where
  bad_device_id_length bad_dimension bad_stamp : EncodeError

pub data Encoded : Type 0 where
  ok : List ℕ → Encoded
  throws : EncodeError → Encoded

abbrev pub is_frame_format : ℕ → Bool
is_frame_format value = value == frame_format_h264

abbrev pub is_valid_dimension : Number → Bool
is_valid_dimension (int (pos n)) = ltb 0 n && leb n max_dimension
is_valid_dimension _ = false

-- `DataView.setUint16` and `setUint32`, big-endian.
abbrev pub u16_bytes : ℕ → List ℕ
u16_bytes n = (n / 256) ∷ (n % 256) ∷ []

abbrev pub u32_bytes : ℕ → List ℕ
u32_bytes n = (n / 16_777_216) ∷ (n / 65_536 % 256) ∷ (n / 256 % 256) ∷ (n % 256) ∷ []

abbrev pub byte_at : List ℕ → ℕ → ℕ
byte_at bytes i = get_or bytes i 0

-- `getUint16` and `getUint32`.
abbrev pub u16_at : List ℕ → ℕ → ℕ
u16_at bytes i = byte_at bytes i * 256 + byte_at bytes (i + 1)

abbrev pub u32_at : List ℕ → ℕ → ℕ
u32_at bytes i =
    byte_at bytes i * 16_777_216
    + byte_at bytes (i + 1) * 65_536
    + byte_at bytes (i + 2) * 256
    + byte_at bytes (i + 3)

abbrev pub key_byte : Bool → ℕ
key_byte true = 1
key_byte false = 0

-- The ten bytes that both encoders write from the format on.
abbrev pub frame_header : ℕ → Bool → Number → Number → Number → List ℕ
frame_header format is_key width height stamp_ms =
    (format % 256)
    ∷ key_byte is_key
    ∷ (u16_bytes (to_uint 65_536 width)
        ++ (u16_bytes (to_uint 65_536 height) ++ u32_bytes (to_uint 4_294_967_296 stamp_ms)))

unfoldable pub encode_agent_frame : TextCodec → AgentFrame → Encoded
encode_agent_frame text frame =
    let id_bytes = text.encode frame.device_id in
    if length id_bytes == 0 || ltb max_device_id_bytes (length id_bytes)
    then throws bad_device_id_length
    else if not (is_valid_dimension frame.width) || not (is_valid_dimension frame.height)
    then throws bad_dimension
    else if not (is_finite frame.stamp_ms)
    then throws bad_stamp
    else ok (
        length id_bytes
        ∷ (id_bytes
            ++ (frame_header frame.format frame.is_key frame.width frame.height frame.stamp_ms
                ++ frame.payload)))

unfoldable pub decode_agent_frame : TextCodec → List ℕ → Option AgentFrame
decode_agent_frame text bytes =
    let id_length = byte_at bytes 0 in
    let device_id = text.decode (take id_length (drop 1 bytes)) in
    let format = byte_at bytes (1 + id_length) in
    let width = nat (u16_at bytes (3 + id_length)) in
    let height = nat (u16_at bytes (5 + id_length)) in
    if ltb (length bytes) 12
    then none
    else if id_length == 0 || ltb (length bytes) (1 + id_length + 10 + 1)
    then none
    else if not (is_device_id device_id)
    then none
    else if not (is_frame_format format)
    then none
    else if not (is_valid_dimension width) || not (is_valid_dimension height)
    then none
    else some (record {
      device_id = device_id;
      format = format;
      is_key = byte_at bytes (2 + id_length) == 1;
      width = width;
      height = height;
      stamp_ms = nat (u32_at bytes (7 + id_length));
      payload = drop (11 + id_length) bytes;
    })

unfoldable pub encode_viewer_frame : ViewerFrame → Encoded
encode_viewer_frame frame =
    if not (is_valid_dimension frame.width) || not (is_valid_dimension frame.height)
    then throws bad_dimension
    else ok (
        frame_header frame.format frame.is_key frame.width frame.height frame.stamp_ms
        ++ frame.payload)

unfoldable pub decode_viewer_frame : List ℕ → Option ViewerFrame
decode_viewer_frame bytes =
    let width = nat (u16_at bytes 2) in
    let height = nat (u16_at bytes 4) in
    if ltb (length bytes) 11
    then none
    else if not (is_frame_format (byte_at bytes 0))
    then none
    else if not (is_valid_dimension width) || not (is_valid_dimension height)
    then none
    else some (record {
      format = byte_at bytes 0;
      is_key = byte_at bytes 1 == 1;
      width = width;
      height = height;
      stamp_ms = nat (u32_at bytes 6);
      payload = drop 10 bytes;
    })
