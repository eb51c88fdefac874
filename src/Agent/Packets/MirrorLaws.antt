-- ===== src/Agent/Packets/MirrorLaws.antt =====
-- mirror-packet-parser.ts: the parser under the chunks that the stream comes in.
use nebula_clone.Prelude.{
  ℕ, ◌+◌, ◌≤◌, ◌<◌, true, false, List, [], ◌++◌, Option, none, some, length, drop, ltb, ◌≡◌, ◌≢◌,
  refl, sym, ap, ◌∙◌, arith, length-append, length-drop, take-within, drop-within, get_or-within,
  append_assoc, inl, inr, Bool-cases, ◌⊎◌,
}
use nebula_clone.Shared.Frames.{byte_at, u16_at, u32_at}
use nebula_clone.Agent.Packets.{
  need_more, corrupt, packet, Drained, corrupted, drained, before, drain_all, IsFraming, resume,
  drain_all-append, Next-cases,
}
use nebula_clone.Agent.Packets.Mirror.{
  MirrorPacket, MirrorPreamble, MirrorPacketParser, preamble_of, consume_preamble, packet_of,
  next_packet, Pushed, received, started, continued, push,
}

header_of_append :
    (a b : List ℕ)
    → 14 ≤ length a
    → (byte_at (a ++ b) 0 ≡ byte_at a 0)
      × (u16_at (a ++ b) 2 ≡ u16_at a 2)
      × (u16_at (a ++ b) 4 ≡ u16_at a 4)
      × (u32_at (a ++ b) 6 ≡ u32_at a 6)
      × (u32_at (a ++ b) 10 ≡ u32_at a 10)
header_of_append a b h =
    let at = λ (i : ℕ) (l : i < 14). get_or-within i a b 0 (omega (arith, h, l)) in
    (
      at 0 (omega arith),
      rw (at 2 (omega arith), at 3 (omega arith)) refl,
      rw (at 4 (omega arith), at 5 (omega arith)) refl,
      rw (at 6 (omega arith), at 7 (omega arith), at 8 (omega arith), at 9 (omega arith)) refl,
      rw (at 10 (omega arith), at 11 (omega arith), at 12 (omega arith), at 13 (omega arith)) refl,
    )

packet_of-append :
    (f w h t n : ℕ) (a b : List ℕ)
    → ((packet_of f w h t n a ≡ corrupt) → packet_of f w h t n (a ++ b) ≡ corrupt)
      × ((p : MirrorPacket) (rest : List ℕ)
          → packet_of f w h t n a ≡ packet p rest
          → (packet_of f w h t n (a ++ b) ≡ packet p (rest ++ b)) × (length rest < length a))
packet_of-append f w h t n a b = (
  λ e. ground (arith, e),
  λ p rest e.
      let shorter = length-drop 14 a in
      ground (
        arith,
        e,
        length-append a b,
        drop-within 14 a b,
        drop-within (14 + n) a b,
        take-within n (drop 14 a) b,
        shorter,
        length-drop (14 + n) a,
      ),
)

next_packet-cases :
    (a : List ℕ)
    → (next_packet a ≡ need_more)
      ⊎ ((14 ≤ length a)
          × (next_packet a
              ≡ packet_of (byte_at a 0) (u16_at a 2) (u16_at a 4) (u32_at a 6) (u32_at a 10) a))
unfolding next_packet
next_packet-cases a = elim (Bool-cases (ltb (length a) 14)) [
  | inl short ↦ inl (rw short refl)
  | inr long ↦ inr (ground (arith, long), rw long refl)
]

next_packet-read :
    (a b : List ℕ)
    → 14 ≤ length a
    → next_packet (a ++ b)
      ≡ packet_of (byte_at a 0) (u16_at a 2) (u16_at a 4) (u32_at a 6) (u32_at a 10) (a ++ b)
unfolding next_packet
next_packet-read a b h =
    let (f, w, k, t, n) = header_of_append a b h in
    let enough : ltb (length (a ++ b)) 14 ≡ false = ground (arith, length-append a b) in
    rw (enough, f, w, k, t, n) refl

header_laws :
    (a b : List ℕ)
    → ((packet_of (byte_at a 0) (u16_at a 2) (u16_at a 4) (u32_at a 6) (u32_at a 10) a ≡ corrupt)
        → packet_of (byte_at a 0) (u16_at a 2) (u16_at a 4) (u32_at a 6) (u32_at a 10) (a ++ b)
          ≡ corrupt)
      × ((p : MirrorPacket) (rest : List ℕ)
          → packet_of (byte_at a 0) (u16_at a 2) (u16_at a 4) (u32_at a 6) (u32_at a 10) a
            ≡ packet p rest
          → (packet_of (byte_at a 0) (u16_at a 2) (u16_at a 4) (u32_at a 6) (u32_at a 10) (a ++ b)
              ≡ packet p (rest ++ b))
            × (length rest < length a))
header_laws a b =
    packet_of-append (byte_at a 0) (u16_at a 2) (u16_at a 4) (u32_at a 6) (u32_at a 10) a b

next_packet-IsFraming : IsFraming next_packet
next_packet-IsFraming = record {
  empty = unfold next_packet in refl;
  corrupt_append = λ a b e. elim (next_packet-cases a) [
    | inl short ↦ ground (arith, short, e)
    | inr (long, read) ↦ next_packet-read a b long ∙ (header_laws a b).0 (sym read ∙ e)
  ];
  packet_append = λ a b p rest e. elim (next_packet-cases a) [
    | inl short ↦ ground (arith, short, e)
    | inr (long, read) ↦ next_packet-read a b long ∙ ((header_laws a b).1 p rest (sym read ∙ e)).0
  ];
  packet_shrinks = λ a p rest e. elim (next_packet-cases a) [
    | inl short ↦ ground (arith, short, e)
    | inr (long, read) ↦ ((header_laws a []).1 p rest (sym read ∙ e)).1
  ];
}

preamble_of-append :
    (m v c w h : ℕ) (rest b : List ℕ)
    → ((preamble_of m v c w h rest ≡ corrupt) → preamble_of m v c w h (rest ++ b) ≡ corrupt)
      × ((p : MirrorPreamble) (rest' : List ℕ)
          → preamble_of m v c w h rest ≡ packet p rest'
          → preamble_of m v c w h (rest ++ b) ≡ packet p (rest' ++ b))
      × (preamble_of m v c w h rest ≢ need_more)
preamble_of-append m v c w h rest b =
    (λ e. ground (arith, e), λ p rest' e. ground (arith, e), λ e. ground (arith, e))

-- A preamble that is read, or refused, does not change by what follows it.
consume_preamble-append :
    (a b : List ℕ)
    → ((consume_preamble a ≡ corrupt) → consume_preamble (a ++ b) ≡ corrupt)
      × ((p : MirrorPreamble) (rest : List ℕ)
          → consume_preamble a ≡ packet p rest
          → consume_preamble (a ++ b) ≡ packet p (rest ++ b))
unfolding consume_preamble
consume_preamble-append a b = elim (Bool-cases (ltb (length a) 16)) [
  | inl short ↦ (λ e. ground (arith, short, e), λ p rest e. ground (arith, short, e))
  | inr long ↦
      let h : 16 ≤ length a = ground (arith, long) in
      let at = λ (i : ℕ) (l : i < 16). get_or-within i a b 0 (omega (arith, h, l)) in
      let enough : ltb (length (a ++ b)) 16 ≡ false = ground (arith, length-append a b, h) in
      let laws =
        preamble_of-append (u32_at a 0) (u16_at a 4) (byte_at a 6) (u16_at a 8) (u16_at a 10)
          (drop 16 a) b in
      rw
        (
          enough,
          long,
          drop-within 16 a b h,
          at 0 (omega arith),
          at 1 (omega arith),
          at 2 (omega arith),
          at 3 (omega arith),
          at 4 (omega arith),
          at 5 (omega arith),
          at 6 (omega arith),
          at 8 (omega arith),
          at 9 (omega arith),
          at 10 (omega arith),
          at 11 (omega arith),
        )
        (laws.0, laws.1)
]

-- What two pushes give one after the other, if neither is refused.
abbrev pub both :
    Option (List MirrorPacket) → Option (List MirrorPacket) → Option (List MirrorPacket)
both none second = none
both (some packets) none = none
both (some packets) (some more) = some (packets ++ more)

abbrev joined : List MirrorPacket → Pushed → Pushed
joined packets (parser, none) = (parser, none)
joined packets (parser, some more) = (parser, some (packets ++ more))

abbrev followed_by : Pushed → List ℕ → Pushed
followed_by (parser, none) chunk = (parser, none)
followed_by (parser, some packets) chunk = joined packets (push chunk parser)

received-before :
    (preamble : Option MirrorPreamble) (ps : List MirrorPacket) (d : Drained MirrorPacket)
    → received preamble (before ps d) ≡ joined ps (received preamble d)
received-before preamble ps corrupted = refl
received-before preamble ps (drained qs rest) = refl

received-then :
    (preamble : MirrorPreamble) (d : Drained MirrorPacket) (b : List ℕ)
    → received (some preamble) (resume next_packet next_packet-IsFraming d b)
      ≡ followed_by (received (some preamble) d) b
unfolding push
received-then preamble corrupted b = refl
received-then preamble (drained ps rest) b =
    received-before (some preamble) ps (drain_all next_packet (rest ++ b))

received-append :
    (preamble : MirrorPreamble) (a b : List ℕ)
    → received (some preamble) (drain_all next_packet (a ++ b))
      ≡ followed_by (received (some preamble) (drain_all next_packet a)) b
received-append preamble a b =
    ap (received (some preamble)) (drain_all-append next_packet next_packet-IsFraming a b)
    ∙ received-then preamble (drain_all next_packet a) b

joined-nil : (r : Pushed) → joined [] r ≡ r
joined-nil (parser, none) = refl
joined-nil (parser, some ps) = refl

continued-append :
    (preamble : Option MirrorPreamble) (a b : List ℕ)
    → continued preamble (a ++ b) ≡ followed_by (continued preamble a) b
unfolding push
continued-append (some preamble) a b = received-append preamble a b
continued-append none a b = elim (Next-cases (consume_preamble a)) [
  | inl e ↦ rw e (sym (joined-nil (started (a ++ b) (consume_preamble (a ++ b)))))
  | inr (inl e) ↦ rw (e, (consume_preamble-append a b).0 e) refl
  | inr (inr (p, rest, e)) ↦
      rw (e, (consume_preamble-append a b).1 p rest e) (received-append p rest b)
]

joined-both :
    (packets : List MirrorPacket) (r : Pushed) → joined packets r ≡ (r.0, both (some packets) r.1)
joined-both packets (parser, none) = refl
joined-both packets (parser, some more) = refl

received-poisons :
    (preamble : Option MirrorPreamble) (d : Drained MirrorPacket)
    → ((received preamble d).1 ≡ none)
    → (received preamble d).0.is_poisoned ≡ true
received-poisons preamble corrupted e = refl
received-poisons preamble (drained packets rest) e = absurd (ground (arith, e))

continued-poisons :
    (preamble : Option MirrorPreamble) (a : List ℕ)
    → ((continued preamble a).1 ≡ none)
    → (continued preamble a).0.is_poisoned ≡ true
continued-poisons (some preamble) a = received-poisons (some preamble) (drain_all next_packet a)
continued-poisons none a = elim (Next-cases (consume_preamble a)) [
  | inl e ↦ rw e λ missing. absurd (ground (arith, missing))
  | inr (inl e) ↦ rw e λ missing. refl
  | inr (inr (p, rest, e)) ↦ rw e (received-poisons (some p) (drain_all next_packet rest))
]

push-poisons :
    (a : List ℕ) (parser : MirrorPacketParser)
    → ((push a parser).1 ≡ none)
    → (push a parser).0.is_poisoned ≡ true
unfolding push
push-poisons a parser = elim (Bool-cases parser.is_poisoned) [
  | inl poisoned ↦ rw poisoned λ e. refl
  | inr sound ↦ rw sound (continued-poisons parser.parsed_preamble (parser.buffer ++ a))
]

followed_by-both :
    (r : Pushed) (b : List ℕ)
    → ((r.1 ≡ none) → r.0.is_poisoned ≡ true)
    → followed_by r b ≡ ((push b r.0).0, both r.1 (push b r.0).1)
unfolding push
followed_by-both (parser, none) b poisoned = rw (poisoned refl) refl
followed_by-both (parser, some packets) b poisoned = joined-both packets (push b parser)

followed_by-append :
    (a b : List ℕ) (parser : MirrorPacketParser)
    → push (a ++ b) parser ≡ followed_by (push a parser) b
unfolding push
followed_by-append a b parser = elim (Bool-cases parser.is_poisoned) [
  | inl poisoned ↦ rw poisoned refl
  | inr sound ↦
      rw (sound, sym (append_assoc parser.buffer a b))
        (continued-append parser.parsed_preamble (parser.buffer ++ a) b)
]

-- How the bytes of the mirror process are cut into chunks, also within the preamble, makes no difference
-- to the parser: pushing two chunks leaves it as pushing their concatenation does. The concatenation is
-- refused exactly if one of the two pushes is, also where the first one gave packets and the second one
-- is refused; if neither is, it gives the packets of the first push followed by those of the second.
pub mirror_push-append :
    (a b : List ℕ) (parser : MirrorPacketParser)
    → push (a ++ b) parser
      ≡ ((push b (push a parser).0).0, both (push a parser).1 (push b (push a parser).0).1)
mirror_push-append a b parser =
    followed_by-append a b parser ∙ followed_by-both (push a parser) b (push-poisons a parser)
