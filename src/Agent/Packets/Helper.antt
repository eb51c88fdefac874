-- ===== src/Agent/Packets/Helper.antt =====
-- packages/agent/src/h264-stream.ts: HelperPacketParser, the parser of what mirror-helper writes.
use nebula_clone.Prelude.{
  ℕ, ◌+◌, ◌≤◌, ◌<◌, Bool, true, false, ◌||◌, List, [], ◌∷◌, ◌++◌, Option, none, some, length, take,
  drop, ltb, ◌==◌, if◌then◌else◌, ◌≡◌, refl, sym, ap, ◌∙◌, arith, length-append, length-drop,
  take-within, drop-within, get_or-within, append_assoc, inl, inr, All, take-append, drop-append,
  Bool-cases, ◌⊎◌,
}
use nebula_clone.Shared.Frames.{byte_at, u32_at, u32_bytes, key_byte}
use nebula_clone.Agent.Packets.{
  Next, need_more, corrupt, packet, Drained, corrupted, drained, before, drain_all, IsFraming,
  drain_all-append, drain_all-packet, drain_all-nil, Drained-cases,
}

abbrev pub max_packet_bytes : ℕ
max_packet_bytes = 8_388_608

pub record HelperPacket : Type 0 where
  pub is_key : Bool
  pub payload : List ℕ

-- The body of the loop of `push`, after the length and the flag are read.
abbrev next_sized : ℕ → Bool → List ℕ → Next HelperPacket
next_sized n is_key buffer =
    if n == 0 || ltb max_packet_bytes n
    then corrupt
    else if ltb (length buffer) (5 + n)
    then need_more
    else packet (record { is_key = is_key; payload = take n (drop 5 buffer) }) (drop (5 + n) buffer)

unfoldable pub next_packet : List ℕ → Next HelperPacket
next_packet buffer =
    if ltb (length buffer) 5
    then need_more
    else next_sized (u32_at buffer 0) (byte_at buffer 4 == 1) buffer

pub record HelperPacketParser : Type 0 where
  pub buffer : List ℕ
  pub is_poisoned : Bool

abbrev pub fresh_parser : HelperPacketParser
fresh_parser = record { buffer = []; is_poisoned = false }

abbrev received : Drained HelperPacket → HelperPacketParser × Option (List HelperPacket)
received corrupted = (record { buffer = []; is_poisoned = true }, none)
received (drained packets rest) = (record { buffer = rest; is_poisoned = false }, some packets)

-- `none` is the `null` of a corrupt stream.
pub push : List ℕ → HelperPacketParser → HelperPacketParser × Option (List HelperPacket)
push chunk parser =
    if parser.is_poisoned
    then (parser, none)
    else received (drain_all next_packet (parser.buffer ++ chunk))

u32_at-append :
    (a b : List ℕ)
    → 5 ≤ length a
    → (u32_at (a ++ b) 0 ≡ u32_at a 0) × (byte_at (a ++ b) 4 ≡ byte_at a 4)
u32_at-append a b h = ground (
  arith,
  get_or-within 0 a b 0,
  get_or-within 1 a b 0,
  get_or-within 2 a b 0,
  get_or-within 3 a b 0,
  get_or-within 4 a b 0,
)

sized-append :
    (n : ℕ) (k : Bool) (a b : List ℕ)
    → ((next_sized n k a ≡ corrupt) → next_sized n k (a ++ b) ≡ corrupt)
      × ((p : HelperPacket) (rest : List ℕ)
          → next_sized n k a ≡ packet p rest
          → (next_sized n k (a ++ b) ≡ packet p (rest ++ b)) × (length rest < length a))
sized-append n k a b = (
  λ e. ground (arith, e),
  λ p rest e.
      let shorter = length-drop 5 a in
      ground (
        arith,
        e,
        length-append a b,
        drop-within 5 a b,
        drop-within (5 + n) a b,
        take-within n (drop 5 a) b,
        shorter,
        length-drop (5 + n) a,
      ),
)

-- On five bytes and more, what is appended does not change the length and the flag that are read.
next_packet-sized :
    (a b : List ℕ)
    → 5 ≤ length a
    → next_packet (a ++ b) ≡ next_sized (u32_at a 0) (byte_at a 4 == 1) (a ++ b)
unfolding next_packet
next_packet-sized a b h =
    let (same, same_key) = u32_at-append a b h in
    let enough : ltb (length (a ++ b)) 5 ≡ false = ground (arith, length-append a b) in
    rw (enough, same, same_key) refl

next_packet-cases :
    (a : List ℕ)
    → (next_packet a ≡ need_more)
      ⊎ ((5 ≤ length a) × (next_packet a ≡ next_sized (u32_at a 0) (byte_at a 4 == 1) a))
unfolding next_packet
next_packet-cases a = elim (Bool-cases (ltb (length a) 5)) [
  | inl short ↦ inl (rw short refl)
  | inr long ↦ inr (ground (arith, long), rw long refl)
]

next_packet-IsFraming : IsFraming next_packet
next_packet-IsFraming = record {
  empty = unfold next_packet in refl;
  corrupt_append = λ a b e. elim (next_packet-cases a) [
    | inl short ↦ ground (arith, short, e)
    | inr (long, read) ↦
        next_packet-sized a b long
        ∙ (sized-append (u32_at a 0) (byte_at a 4 == 1) a b).0 (sym read ∙ e)
  ];
  packet_append = λ a b p rest e. elim (next_packet-cases a) [
    | inl short ↦ ground (arith, short, e)
    | inr (long, read) ↦
        next_packet-sized a b long
        ∙ ((sized-append (u32_at a 0) (byte_at a 4 == 1) a b).1 p rest (sym read ∙ e)).0
  ];
  packet_shrinks = λ a p rest e. elim (next_packet-cases a) [
    | inl short ↦ ground (arith, short, e)
    | inr (long, read) ↦
        ((sized-append (u32_at a 0) (byte_at a 4 == 1) a []).1 p rest (sym read ∙ e)).1
  ];
}

-- What two pushes give one after the other, if neither is refused.
abbrev pub both :
    Option (List HelperPacket) → Option (List HelperPacket) → Option (List HelperPacket)
both none second = none
both (some packets) none = none
both (some packets) (some more) = some (packets ++ more)

abbrev joined :
    List HelperPacket
    → HelperPacketParser × Option (List HelperPacket)
    → HelperPacketParser × Option (List HelperPacket)
joined packets (parser, none) = (parser, none)
joined packets (parser, some more) = (parser, some (packets ++ more))

abbrev followed_by :
    HelperPacketParser × Option (List HelperPacket)
    → List ℕ
    → HelperPacketParser × Option (List HelperPacket)
followed_by (parser, none) chunk = (parser, none)
followed_by (parser, some packets) chunk = joined packets (push chunk parser)

joined-both :
    (packets : List HelperPacket) (r : HelperPacketParser × Option (List HelperPacket))
    → joined packets r ≡ (r.0, both (some packets) r.1)
joined-both packets (parser, none) = refl
joined-both packets (parser, some more) = refl

received-poisons :
    (d : Drained HelperPacket) → ((received d).1 ≡ none) → (received d).0.is_poisoned ≡ true
received-poisons corrupted e = refl
received-poisons (drained packets rest) e = absurd (ground (arith, e))

received-before :
    (ps : List HelperPacket) (d : Drained HelperPacket)
    → received (before ps d) ≡ joined ps (received d)
received-before ps corrupted = refl
received-before ps (drained qs rest) = refl

followed_by-both :
    (r : HelperPacketParser × Option (List HelperPacket)) (b : List ℕ)
    → ((r.1 ≡ none) → r.0.is_poisoned ≡ true)
    → followed_by r b ≡ ((push b r.0).0, both r.1 (push b r.0).1)
unfolding push
followed_by-both (parser, none) b poisoned = rw (poisoned refl) refl
followed_by-both (parser, some packets) b poisoned = joined-both packets (push b parser)

push-poisons :
    (a : List ℕ) (parser : HelperPacketParser)
    → ((push a parser).1 ≡ none)
    → (push a parser).0.is_poisoned ≡ true
unfolding push
push-poisons a parser = elim (Bool-cases parser.is_poisoned) [
  | inl poisoned ↦ rw poisoned λ e. refl
  | inr sound ↦ rw sound (received-poisons (drain_all next_packet (parser.buffer ++ a)))
]

followed_by-append :
    (a b : List ℕ) (parser : HelperPacketParser)
    → push (a ++ b) parser ≡ followed_by (push a parser) b
unfolding push
followed_by-append a b parser = elim (Bool-cases parser.is_poisoned) [
  | inl poisoned ↦ rw poisoned refl
  | inr sound ↦
      rw
        (
          sound,
          sym (append_assoc parser.buffer a b),
          drain_all-append next_packet next_packet-IsFraming (parser.buffer ++ a) b,
        )
        (elim (Drained-cases (drain_all next_packet (parser.buffer ++ a))) [
          | inl e ↦ rw e refl
          | inr (ps, rest, e) ↦ rw e (received-before ps (drain_all next_packet (rest ++ b)))
        ])
]

-- How the bytes of the helper are cut into chunks makes no difference to the parser: pushing two chunks
-- leaves it as pushing their concatenation does. The concatenation is refused exactly if one of the two
-- pushes is, also where the first one gave packets and the second one is refused; if neither is, it
-- gives the packets of the first push followed by those of the second.
pub push-append :
    (a b : List ℕ) (parser : HelperPacketParser)
    → push (a ++ b) parser
      ≡ ((push b (push a parser).0).0, both (push a parser).1 (push b (push a parser).0).1)
push-append a b parser =
    followed_by-append a b parser ∙ followed_by-both (push a parser) b (push-poisons a parser)

-- The bytes that mirror-helper writes for a packet.
abbrev pub packet_bytes : HelperPacket → List ℕ
packet_bytes p = u32_bytes (length p.payload) ++ key_byte p.is_key ∷ p.payload

abbrev pub stream_bytes : List HelperPacket → List ℕ
stream_bytes [] = []
stream_bytes (p ∷ ps) = packet_bytes p ++ stream_bytes ps

abbrev pub IsHelperPacket : HelperPacket → Type 0
IsHelperPacket p = (1 ≤ length p.payload) × (length p.payload ≤ max_packet_bytes)

u32_at_bytes : (n : ℕ) (b : List ℕ) → n ≤ max_packet_bytes → u32_at (u32_bytes n ++ b) 0 ≡ n
u32_at_bytes n b h = omega (arith, h)

next_packet-bytes :
    (p : HelperPacket) (b : List ℕ)
    → IsHelperPacket p
    → next_packet (packet_bytes p ++ b) ≡ packet p b
unfolding next_packet
next_packet-bytes p b h =
    let value =
      u32_at_bytes (length p.payload) (key_byte p.is_key ∷ (p.payload ++ b)) (omega (arith, h)) in
    rw (value) (
      ground
        (arith, h, length-append p.payload b, take-append p.payload b, drop-append p.payload b))

drain_all-stream :
    (ps : List HelperPacket)
    → All IsHelperPacket ps
    → drain_all next_packet (stream_bytes ps) ≡ drained ps []
drain_all-stream [] h = drain_all-nil next_packet next_packet-IsFraming
drain_all-stream (p ∷ ps) h =
    drain_all-packet next_packet next_packet-IsFraming (stream_bytes (p ∷ ps)) p (stream_bytes ps)
      (next_packet-bytes p (stream_bytes ps) h.0)
    ∙ ap (before (p ∷ [])) (drain_all-stream ps h.1)

-- What mirror-helper writes for a list of packets, none of them empty or above the limit, a new parser
-- reads back as those packets, and keeps no byte of it.
pub push-stream_bytes :
    (ps : List HelperPacket)
    → All IsHelperPacket ps
    → push (stream_bytes ps) fresh_parser ≡ (fresh_parser, some ps)
unfolding push
push-stream_bytes ps h = rw (drain_all-stream ps h) refl
