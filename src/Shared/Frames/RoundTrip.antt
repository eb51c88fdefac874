-- ===== src/Shared/Frames/RoundTrip.antt =====
-- frame-codec.ts: each encoder with its decoder.
use nebula_clone.Prelude.{
  ℕ, suc, ◌+◌, ◌*◌, ◌/◌, ◌%◌, ◌<◌, ◌≡◌, refl, ap, sym, subst, zero, Bool, true, false, List, [],
  ◌∷◌, ◌++◌, Option, none, some, String, length, drop, take-append, length-append, ◌==◌, arith,
}
use nebula_clone.Js.Number.{Number, int, fraction, not_finite, pos, negsuc, nat, to_uint}
use nebula_clone.Shared.Frames.{
  ViewerFrame, frame_header, byte_at, key_byte, is_valid_dimension, encode_viewer_frame,
  decode_viewer_frame, ok, AgentFrame, TextCodec, encode_agent_frame, decode_agent_frame,
  frame_format_h264,
}
use nebula_clone.Shared.Ids.{is_device_id, is_device_id-is_ascii, is_device_id-length}
use nebula_clone.Js.Pattern.{codes}

u16_read : (w : ℕ) → w < 65_536 → (w % 65_536) / 256 * 256 + (w % 65_536) % 256 ≡ w
u16_read w h = omega arith

u32_read :
    (s : ℕ)
    → s / 16_777_216 * 16_777_216 + s / 65_536 % 256 * 65_536 + s / 256 % 256 * 256 + s % 256 ≡ s
u32_read s = omega arith

valid_dimension :
    (n : Number) → is_valid_dimension n ≡ true → (w : ℕ) × (n ≡ nat w) × (0 < w) × (w < 65_536)
valid_dimension (int (pos n)) h = (n, refl, ground arith, ground arith)
valid_dimension (int (negsuc n)) h = cc
valid_dimension (fraction z) h = cc
valid_dimension not_finite h = cc

key_byte_read : (k : Bool) → (key_byte k == 1) ≡ k
key_byte_read true = refl
key_byte_read false = refl

viewer_lem :
    (k : Bool) (w h x : ℕ) (sn : Number) (xs : List ℕ)
    → 0 < w
    → w < 65_536
    → 0 < h
    → h < 65_536
    → decode_viewer_frame (frame_header 2 k (nat w) (nat h) sn ++ x ∷ xs)
      ≡ some (record {
        format = 2;
        is_key = k;
        width = nat w;
        height = nat h;
        stamp_ms = nat (to_uint 4_294_967_296 sn);
        payload = x ∷ xs;
      })
unfolding decode_viewer_frame
viewer_lem k w h x sn xs w0 w1 h0 h1 =
    rw (u16_read w w1, u16_read h h1, u32_read (to_uint 4_294_967_296 sn), key_byte_read k)
      (ground arith)

byte_after :
    (ids rest : List ℕ) (i k : ℕ) → i ≡ k + length ids → byte_at (ids ++ rest) i ≡ byte_at rest k
byte_after [] rest i k e = ap (byte_at rest) (omega arith)
byte_after (y ∷ ys) rest zero k e = absurd (omega arith)
byte_after (y ∷ ys) rest (suc i) k e = byte_after ys rest i k (omega arith)

drop_after : (ids rest : List ℕ) (i k : ℕ) → i ≡ k + length ids → drop i (ids ++ rest) ≡ drop k rest
drop_after [] rest i k e = ap (λ j. drop j rest) (omega arith)
drop_after (y ∷ ys) rest zero k e = absurd (omega arith)
drop_after (y ∷ ys) rest (suc i) k e = drop_after ys rest i k (omega arith)

agent_lem :
    (t : TextCodec) (id : String) (k : Bool) (w h x : ℕ) (sn : Number) (xs : List ℕ)
    → is_device_id id ≡ true
    → 0 < w
    → w < 65_536
    → 0 < h
    → h < 65_536
    → decode_agent_frame t
        (length (codes id) ∷ (codes id ++ (frame_header 2 k (nat w) (nat h) sn ++ x ∷ xs)))
      ≡ some (record {
        device_id = id;
        format = 2;
        is_key = k;
        width = nat w;
        height = nat h;
        stamp_ms = nat (to_uint 4_294_967_296 sn);
        payload = x ∷ xs;
      })
unfolding decode_agent_frame
agent_lem t id k w h x sn xs hid w0 w1 h0 h1 =
    let n = length (codes id) in
    let rest : List ℕ = frame_header 2 k (nat w) (nat h) sn ++ x ∷ xs in
    let past = byte_after (n ∷ codes id) rest in
    rw
      (
        past (1 + n) 0 (omega arith),
        past (2 + n) 1 (omega arith),
        past (3 + n) 2 (omega arith),
        past (3 + n + 1) 3 (omega arith),
        past (5 + n) 4 (omega arith),
        past (5 + n + 1) 5 (omega arith),
        past (7 + n) 6 (omega arith),
        past (7 + n + 1) 7 (omega arith),
        past (7 + n + 2) 8 (omega arith),
        past (7 + n + 3) 9 (omega arith),
        u16_read w w1,
        u16_read h h1,
        u32_read (to_uint 4_294_967_296 sn),
        key_byte_read k,
        drop_after (n ∷ codes id) rest (11 + n) 10 (omega arith),
        take-append (codes id) rest,
        t.decode_ascii id (is_device_id-is_ascii id hid),
      )
      (ground (arith, length-append (codes id) rest, is_device_id-length id hid))

-- What arrives of a frame: its stamp is cut to 32 bits, and one with no payload is refused.
abbrev pub received_viewer : ViewerFrame → List ℕ → Option ViewerFrame
received_viewer f [] = none
received_viewer f (x ∷ xs) =
    some (record f { stamp_ms = nat (to_uint 4_294_967_296 f.stamp_ms); payload = x ∷ xs })

abbrev pub received_agent : AgentFrame → List ℕ → Option AgentFrame
received_agent f [] = none
received_agent f (x ∷ xs) =
    some (record f { stamp_ms = nat (to_uint 4_294_967_296 f.stamp_ms); payload = x ∷ xs })

viewer_full :
    (k : Bool) (wn hn sn : Number) (payload : List ℕ)
    → is_valid_dimension wn ≡ true
    → is_valid_dimension hn ≡ true
    → decode_viewer_frame (frame_header 2 k wn hn sn ++ payload)
      ≡ received_viewer
          (record {
            format = 2;
            is_key = k;
            width = wn;
            height = hn;
            stamp_ms = sn;
            payload = payload;
          })
          payload
viewer_full k wn hn sn [] vw vh = unfold decode_viewer_frame in ground arith
viewer_full k wn hn sn (x ∷ xs) vw vh =
    let (w, ew, w0, w1) = valid_dimension wn vw in
    let (h, eh, h0, h1) = valid_dimension hn vh in
    rw (ew, eh) (viewer_lem k w h x sn xs w0 w1 h0 h1)

agent_empty :
    (t : TextCodec) (id : String) (k : Bool) (wn hn sn : Number)
    → decode_agent_frame t (length (codes id) ∷ (codes id ++ (frame_header 2 k wn hn sn ++ [])))
      ≡ none
unfolding decode_agent_frame
agent_empty t id k wn hn sn =
    ground (arith, length-append (codes id) (frame_header 2 k wn hn sn ++ []))

agent_full :
    (t : TextCodec) (id : String) (k : Bool) (wn hn sn : Number) (payload : List ℕ)
    → is_device_id id ≡ true
    → is_valid_dimension wn ≡ true
    → is_valid_dimension hn ≡ true
    → decode_agent_frame t
        (length (codes id) ∷ (codes id ++ (frame_header 2 k wn hn sn ++ payload)))
      ≡ received_agent
          (record {
            device_id = id;
            format = 2;
            is_key = k;
            width = wn;
            height = hn;
            stamp_ms = sn;
            payload = payload;
          })
          payload
agent_full t id k wn hn sn [] hid vw vh = agent_empty t id k wn hn sn
agent_full t id k wn hn sn (x ∷ xs) hid vw vh =
    let (w, ew, w0, w1) = valid_dimension wn vw in
    let (h, eh, h0, h1) = valid_dimension hn vh in
    rw (ew, eh) (agent_lem t id k w h x sn xs hid w0 w1 h0 h1)

agent_written :
    (t : TextCodec) (f : AgentFrame) (bytes : List ℕ)
    → encode_agent_frame t f ≡ ok bytes
    → (is_valid_dimension f.width ≡ true)
      × (is_valid_dimension f.height ≡ true)
      × (bytes
          ≡ length (t.encode f.device_id)
            ∷ (t.encode f.device_id
                ++ (frame_header f.format f.is_key f.width f.height f.stamp_ms ++ f.payload)))
unfolding encode_agent_frame
agent_written t f bytes e = (ground arith, ground arith, ground arith)

viewer_written :
    (f : ViewerFrame) (bytes : List ℕ)
    → encode_viewer_frame f ≡ ok bytes
    → (is_valid_dimension f.width ≡ true)
      × (is_valid_dimension f.height ≡ true)
      × (bytes ≡ frame_header f.format f.is_key f.width f.height f.stamp_ms ++ f.payload)
unfolding encode_viewer_frame
viewer_written f bytes e = (ground arith, ground arith, ground arith)

-- An agent frame with a well-formed device id and the H.264 format that the encoder accepts is read
-- back with its stamp cut to 32 bits, except that the decoder refuses a frame with no payload.
pub decode-encode_agent :
    (t : TextCodec) (f : AgentFrame) (bytes : List ℕ)
    → is_device_id f.device_id ≡ true
    → f.format ≡ frame_format_h264
    → encode_agent_frame t f ≡ ok bytes
    → decode_agent_frame t bytes ≡ received_agent f f.payload
decode-encode_agent t f bytes hid fmt e =
    let (vw, vh, eb) = agent_written t f bytes e in
    let ascii = t.encode_ascii f.device_id (is_device_id-is_ascii f.device_id hid) in
    let full = agent_full t f.device_id f.is_key f.width f.height f.stamp_ms f.payload hid vw vh in
    rw (eb, ascii)
      (subst
        (λ n.
          decode_agent_frame t (
            length (codes f.device_id)
            ∷ (codes f.device_id
                ++ (frame_header n f.is_key f.width f.height f.stamp_ms ++ f.payload)))
          ≡ received_agent (record f { format = n }) f.payload)
        (sym fmt) full)

-- A viewer frame of the H.264 format that the encoder accepts is read back with its stamp cut to 32
-- bits, except that the decoder refuses a frame with no payload.
pub decode-encode_viewer :
    (f : ViewerFrame) (bytes : List ℕ)
    → f.format ≡ frame_format_h264
    → encode_viewer_frame f ≡ ok bytes
    → decode_viewer_frame bytes ≡ received_viewer f f.payload
decode-encode_viewer f bytes fmt e =
    let (vw, vh, eb) = viewer_written f bytes e in
    let full = viewer_full f.is_key f.width f.height f.stamp_ms f.payload vw vh in
    rw eb (
      subst
        (λ n.
          decode_viewer_frame (frame_header n f.is_key f.width f.height f.stamp_ms ++ f.payload)
          ≡ received_viewer (record f { format = n }) f.payload)
        (sym fmt) full)
