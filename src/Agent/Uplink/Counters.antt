-- ===== src/Agent/Uplink/Counters.antt =====
-- server-tunnel.ts: what the counters of `metrics` say of a run of `sendFrame`.
use nebula_clone.Prelude.{
  ℕ, suc, ◌+◌, ◌≤◌, max, Bool, true, false, not, ◌&&◌, ◌||◌, leb, List, [], ◌∷◌, Option, none, some,
  length, if◌then◌else◌, ◌≡◌, refl, sym, ap, ◌∙◌, arith, Bool-cases, inl, inr,
}
use nebula_clone.Shared.Frames.{TextCodec, AgentFrame, Encoded, ok, throws, encode_agent_frame}
use nebula_clone.Agent.Uplink.{
  Socket, ServerTunnel, FrameSendDecision, send, drop_backpressure, drop_queue_full,
  decide_frame_send, FrameSent, returned_false, sent, decided, send_frame,
}

-- A run of `sendFrame`, with the payloads that are sent.
abbrev cons_sent : FrameSent → List (List ℕ) → List (List ℕ)
cons_sent (sent payload) rest = payload ∷ rest
cons_sent _ rest = rest

unfoldable pub send_frames :
    TextCodec → List (Option Socket × AgentFrame) → ServerTunnel → ServerTunnel × List (List ℕ)
send_frames codec [] t = (t, [])
send_frames codec ((socket, frame) ∷ rest) t =
    let (t', result) = send_frame codec socket frame t in
    let (t'', payloads) = send_frames codec rest t' in (t'', cons_sent result payloads)

abbrev pub Tries : Type 0
Tries = List (Option Socket × AgentFrame)

abbrev pub Payloads : Type 0
Payloads = List (List ℕ)

abbrev pub total : List (List ℕ) → ℕ
total [] = 0
total (p ∷ ps) = length p + total ps

-- Whether a frame is not sent for the bytes that wait in an open socket: a frame that is no key frame
-- above half a MiB, any frame above two MiB.
abbrev pub is_dropped : Option Socket × AgentFrame → Bool
is_dropped (none, frame) = false
is_dropped (some socket, frame) =
    socket.is_open
    && (not frame.is_key && not (leb socket.buffered_amount 524_288)
        || not (leb socket.buffered_amount 2_097_152))

-- Whether more than two MiB wait.
abbrev pub is_over_full : Option Socket × AgentFrame → Bool
is_over_full (none, frame) = false
is_over_full (some socket, frame) = socket.is_open && not (leb socket.buffered_amount 2_097_152)

abbrev pub count_of : (Option Socket × AgentFrame → Bool) → List (Option Socket × AgentFrame) → ℕ
count_of test [] = 0
count_of test (t ∷ ts) = let rest = count_of test ts in if test t then suc rest else rest

abbrev pub peak : List (Option Socket × AgentFrame) → ℕ
peak [] = 0
peak ((none, frame) ∷ rest) = peak rest
peak ((some socket, frame) ∷ rest) =
    if socket.is_open then max socket.buffered_amount (peak rest) else peak rest

-- What a run has counted.
pub record Counts (before after : ServerTunnel) (tries : Tries) (payloads : Payloads) : Type 0 where
  pub frames : after.sent_frame_count ≡ before.sent_frame_count + length payloads
  pub bytes : after.sent_frame_bytes ≡ before.sent_frame_bytes + total payloads
  pub tried : length payloads + count_of is_dropped tries ≤ length tries
  pub dropped : after.dropped_frame_count ≡ before.dropped_frame_count + count_of is_dropped tries
  pub keys :
      after.dropped_key_frame_count ≡ before.dropped_key_frame_count + count_of is_over_full tries
  pub peaked : after.peak_buffered_bytes ≡ max before.peak_buffered_bytes (peak tries)

abbrev seen : Socket → ServerTunnel → ServerTunnel
seen socket t = record t { peak_buffered_bytes = max t.peak_buffered_bytes socket.buffered_amount }

module _ (codec : TextCodec) (socket : Socket) (frame : AgentFrame) (rest : Tries)
    (t : ServerTunnel) where
  abbrev after : FrameSendDecision → Encoded → ServerTunnel × Payloads
  after d e =
      let (t', result) = decided d e (seen socket t) in
      let (t'', payloads) = send_frames codec rest t' in (t'', cons_sent result payloads)

  abbrev first : Option Socket × AgentFrame
  first = (some socket, frame)

  full_counted :
      socket.is_open ≡ true
      → decide_frame_send frame.is_key socket.buffered_amount ≡ drop_queue_full
      → (count_of is_dropped (first ∷ rest) ≡ suc (count_of is_dropped rest))
        × (count_of is_over_full (first ∷ rest) ≡ suc (count_of is_over_full rest))
  full_counted is_on d = (ground (arith, is_on, d), ground (arith, is_on, d))

  late_counted :
      socket.is_open ≡ true
      → decide_frame_send frame.is_key socket.buffered_amount ≡ drop_backpressure
      → (count_of is_dropped (first ∷ rest) ≡ suc (count_of is_dropped rest))
        × (count_of is_over_full (first ∷ rest) ≡ count_of is_over_full rest)
  late_counted is_on d = (ground (arith, is_on, d), ground (arith, is_on, d))

  free_counted :
      socket.is_open ≡ true
      → decide_frame_send frame.is_key socket.buffered_amount ≡ send
      → (count_of is_dropped (first ∷ rest) ≡ count_of is_dropped rest)
        × (count_of is_over_full (first ∷ rest) ≡ count_of is_over_full rest)
  free_counted is_on d = (ground (arith, is_on, d), ground (arith, is_on, d))

  -- One frame more, on an open socket.
  decided-Counts :
      socket.is_open ≡ true
      → ((u : ServerTunnel)
          → Counts u (send_frames codec rest u).0 rest (send_frames codec rest u).1)
      → (d : FrameSendDecision) (e : Encoded)
      → decide_frame_send frame.is_key socket.buffered_amount ≡ d
      → Counts t (after d e).0 ((some socket, frame) ∷ rest) (after d e).1
  decided-Counts is_on ih drop_queue_full e full =
      let h = ih (decided drop_queue_full e (seen socket t)).0 in
      let (counted, over) = full_counted is_on full in
      record {
        frames = h.frames;
        bytes = h.bytes;
        tried = omega (arith, h.tried, counted);
        dropped = omega (arith, h.dropped, counted);
        keys = omega (arith, h.keys, over);
        peaked = rw is_on (omega (arith, h.peaked));
      }
  decided-Counts is_on ih drop_backpressure e late =
      let h = ih (decided drop_backpressure e (seen socket t)).0 in
      let (counted, over) = late_counted is_on late in
      record {
        frames = h.frames;
        bytes = h.bytes;
        tried = omega (arith, h.tried, counted);
        dropped = omega (arith, h.dropped, counted);
        keys = omega (arith, h.keys, over);
        peaked = rw is_on (omega (arith, h.peaked));
      }
  decided-Counts is_on ih send (ok payload) free =
      let h = ih (decided send (ok payload) (seen socket t)).0 in
      let (counted, over) = free_counted is_on free in
      record {
        frames = omega (arith, h.frames);
        bytes = omega (arith, h.bytes);
        tried = omega (arith, h.tried, counted);
        dropped = h.dropped ∙ ap (λ n. t.dropped_frame_count + n) (sym counted);
        keys = h.keys ∙ ap (λ n. t.dropped_key_frame_count + n) (sym over);
        peaked = rw is_on (omega (arith, h.peaked));
      }
  decided-Counts is_on ih send (throws e) free =
      let h = ih (seen socket t) in
      let (counted, over) = free_counted is_on free in
      record {
        frames = h.frames;
        bytes = h.bytes;
        tried = omega (arith, h.tried, counted);
        dropped = h.dropped ∙ ap (λ n. t.dropped_frame_count + n) (sym counted);
        keys = h.keys ∙ ap (λ n. t.dropped_key_frame_count + n) (sym over);
        peaked = rw is_on (omega (arith, h.peaked));
      }

sent_none :
    (codec : TextCodec) (frame : AgentFrame) (t : ServerTunnel)
    → send_frame codec none frame t ≡ (t, returned_false)
unfolding send_frame
sent_none codec frame t = refl

sent_closed :
    (codec : TextCodec) (socket : Socket) (frame : AgentFrame) (t : ServerTunnel)
    → socket.is_open ≡ false
    → send_frame codec (some socket) frame t ≡ (t, returned_false)
unfolding send_frame
sent_closed codec socket frame t e = simp e refl

sent_open :
    (codec : TextCodec) (socket : Socket) (frame : AgentFrame) (t : ServerTunnel)
    → socket.is_open ≡ true
    → send_frame codec (some socket) frame t
      ≡ decided
          (decide_frame_send frame.is_key socket.buffered_amount)
          (encode_agent_frame codec frame)
          (seen socket t)
unfolding send_frame
sent_open codec socket frame t e = simp e refl

-- The counters of the uplink tell the truth: frames and bytes sent are those of the payloads that went
-- out; the dropped frames are those that met an open socket with more than half a MiB waiting and were
-- no key frames, or with more than two MiB; sent and dropped frames together are no more than the calls;
-- droppedKeyFrameCount counts the frames of any kind that met more than two MiB; and the peak is the
-- longest queue that an open socket showed.
pub send_frames-Counts :
    (codec : TextCodec) (tries : List (Option Socket × AgentFrame)) (t : ServerTunnel)
    → Counts t (send_frames codec tries t).0 tries (send_frames codec tries t).1
unfolding send_frames
send_frames-Counts codec [] t = record {
  frames = omega arith;
  bytes = omega arith;
  tried = omega arith;
  dropped = omega arith;
  keys = omega arith;
  peaked = omega arith;
}
send_frames-Counts codec ((none, frame) ∷ rest) t =
    let ih = send_frames-Counts codec rest t in
    rw (sent_none codec frame t) record {
      frames = ih.frames;
      bytes = ih.bytes;
      tried = omega (arith, ih.tried);
      dropped = ih.dropped;
      keys = ih.keys;
      peaked = ih.peaked;
    }
send_frames-Counts codec ((some socket, frame) ∷ rest) t = elim (Bool-cases socket.is_open) [
  | inl is_on ↦ rw (sent_open codec socket frame t is_on) (
      decided-Counts codec socket frame rest t is_on (send_frames-Counts codec rest)
        (decide_frame_send frame.is_key socket.buffered_amount) (encode_agent_frame codec frame)
        refl)
  | inr is_off ↦
      let ih = send_frames-Counts codec rest t in
      rw (sent_closed codec socket frame t is_off) (record {
        frames = ih.frames;
        bytes = ih.bytes;
        tried = rw is_off (omega (arith, ih.tried));
        dropped = rw is_off ih.dropped;
        keys = rw is_off ih.keys;
        peaked = rw is_off ih.peaked;
      })
]
