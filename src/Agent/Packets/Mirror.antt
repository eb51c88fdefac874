-- ===== src/Agent/Packets/Mirror.antt =====
-- packages/agent/src/mirror-packet-parser.ts, the parser of what the mirror process on Android writes: a
-- preamble and then packets, each with the size of its picture.
use nebula_clone.Prelude.{
  ℕ, ◌+◌, ◌%◌, Bool, true, false, ◌||◌, not, List, [], ◌++◌, Option, none, some, length, take, drop,
  ltb, ◌==◌, if◌then◌else◌,
}
use nebula_clone.Shared.Frames.{byte_at, u16_at, u32_at}
use nebula_clone.Agent.Packets.{
  Next, need_more, corrupt, packet, Drained, corrupted, drained, drain_all,
}

-- 'NBLA'.
abbrev magic : ℕ
magic = 1_312_967_745

abbrev pub max_packet_bytes : ℕ
max_packet_bytes = 8_388_608

pub record MirrorPacket : Type 0 where
  pub is_key : Bool
  pub width : ℕ
  pub height : ℕ
  pub pts_ms : ℕ
  pub payload : List ℕ

pub record MirrorPreamble : Type 0 where
  pub width : ℕ
  pub height : ℕ

pub record MirrorPacketParser : Type 0 where
  pub buffer : List ℕ
  pub is_poisoned : Bool
  pub parsed_preamble : Option MirrorPreamble

-- The fields of a preamble, after they are read.
abbrev pub preamble_of : ℕ → ℕ → ℕ → ℕ → ℕ → List ℕ → Next MirrorPreamble
preamble_of m version codec width height rest =
    if not (m == magic)
    then corrupt
    else if not (version == 1)
    then corrupt
    else if not (codec == 1)
    then corrupt
    else if width == 0 || height == 0
    then corrupt
    else packet (record { width = width; height = height }) rest

unfoldable pub consume_preamble : List ℕ → Next MirrorPreamble
consume_preamble buffer =
    if ltb (length buffer) 16
    then need_more
    else preamble_of (u32_at buffer 0) (u16_at buffer 4) (byte_at buffer 6) (u16_at buffer 8)
        (u16_at buffer 10) (drop 16 buffer)

-- The body of the loop of `consumePackets`, after the header is read.
abbrev pub packet_of : ℕ → ℕ → ℕ → ℕ → ℕ → List ℕ → Next MirrorPacket
packet_of flags width height pts_ms n buffer =
    if width == 0 || height == 0 || n == 0 || ltb max_packet_bytes n
    then corrupt
    else if ltb (length buffer) (14 + n)
    then need_more
    else packet
        (record {
          is_key = not (flags % 2 == 0);
          width = width;
          height = height;
          pts_ms = pts_ms;
          payload = take n (drop 14 buffer);
        })
        (drop (14 + n) buffer)

unfoldable pub next_packet : List ℕ → Next MirrorPacket
next_packet buffer =
    if ltb (length buffer) 14
    then need_more
    else packet_of (byte_at buffer 0) (u16_at buffer 2) (u16_at buffer 4) (u32_at buffer 6)
        (u32_at buffer 10) buffer

abbrev pub new_parser : MirrorPacketParser
new_parser = record { buffer = []; is_poisoned = false; parsed_preamble = none }

abbrev pub Pushed : Type 0
Pushed = MirrorPacketParser × Option (List MirrorPacket)

-- `poison`, or the packets and what is left, under the preamble of the parser.
abbrev pub received : Option MirrorPreamble → Drained MirrorPacket → Pushed
received preamble corrupted =
    (record { buffer = []; is_poisoned = true; parsed_preamble = preamble }, none)
received preamble (drained packets rest) =
    (record { buffer = rest; is_poisoned = false; parsed_preamble = preamble }, some packets)

abbrev pub started : List ℕ → Next MirrorPreamble → Pushed
started buffer need_more =
    (record { buffer = buffer; is_poisoned = false; parsed_preamble = none }, some [])
started buffer corrupt = received none corrupted
started buffer (packet preamble rest) = received (some preamble) (drain_all next_packet rest)

abbrev pub continued : Option MirrorPreamble → List ℕ → Pushed
continued none buffer = started buffer (consume_preamble buffer)
continued (some preamble) buffer = received (some preamble) (drain_all next_packet buffer)

-- `none` is the `null` of a corrupt stream.
unfoldable pub push : List ℕ → MirrorPacketParser → Pushed
push chunk parser =
    if parser.is_poisoned
    then (parser, none)
    else continued parser.parsed_preamble (parser.buffer ++ chunk)
