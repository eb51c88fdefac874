-- ===== src/Server/Streams/Relayed.antt =====
-- streams-relay.service.ts: what `broadcast` sends, to whom, and what the viewers read of it.
use nebula_clone.Prelude.{
  ℕ, ◌+◌, ◌<◌, Bool, true, false, not, ◌&&◌, ◌||◌, List, [], ◌∷◌, ◌++◌, none, some, leb, ltb, ◌==◌,
  if◌then◌else◌, ◌≡◌, refl, ◌∙◌, arith, All, Option-cases, inl, inr, is_none,
}
use nebula_clone.Js.Table.{get, String_key, ℕ_key, IsMap}
use nebula_clone.Shared.Frames.{
  AgentFrame, ViewerFrame, TextCodec, ok, encode_viewer_frame, decode_viewer_frame,
  decode_agent_frame, is_valid_dimension, frame_header,
}
use nebula_clone.Shared.Frames.RoundTrip.{received_viewer, decode-encode_viewer}
use nebula_clone.Shared.Frames.Decoded.{IsDecoded, decode_agent_frame-IsDecoded}
use nebula_clone.Server.Streams.{
  Sockets, Viewers, SocketView, Action, demand_changed, close, terminate, send, deliver,
  deliver_all, viewer_frame, broadcast, viewer_terminate_bytes, viewer_backpressure_bytes,
}
use nebula_clone.Server.Streams.Viewers.{IsTidy, generation}

encodes :
    (f : ViewerFrame)
    → is_valid_dimension f.width ≡ true
    → is_valid_dimension f.height ≡ true
    → (out : List ℕ) × (encode_viewer_frame f ≡ ok out)
unfolding encode_viewer_frame
encodes f w h =
    (frame_header f.format f.is_key f.width f.height f.stamp_ms ++ f.payload, ground arith)

received_whole :
    (f : AgentFrame)
    → IsDecoded f
    → received_viewer (viewer_frame f) f.payload ≡ some (viewer_frame f)
received_whole f d = ground (arith, d.stamp, d.payload)

-- A frame that the server accepts from an agent can always be encoded for the viewers, and they decode
-- the very frame that the agent sent.
pub relayed_whole :
    (t : TextCodec) (bytes : List ℕ) (f : AgentFrame)
    → All (λ b. b < 256) bytes
    → decode_agent_frame t bytes ≡ some f
    → (out : List ℕ) × (encode_viewer_frame (viewer_frame f) ≡ ok out)
      × (decode_viewer_frame out ≡ some (viewer_frame f))
relayed_whole t bytes f a e =
    let d = decode_agent_frame-IsDecoded t bytes f a e in
    let (out, written) = encodes (viewer_frame f) d.width d.height in
    (out, written, decode-encode_viewer (viewer_frame f) out d.format written ∙ received_whole f d)

-- The payloads that a socket is sent, and how often it is terminated.
abbrev pub sent_to : ℕ → List Action → List (List ℕ)
sent_to s [] = []
sent_to s (send u payload ∷ acts) =
    let rest = sent_to s acts in if u == s then payload ∷ rest else rest
sent_to s (a ∷ acts) = sent_to s acts

abbrev pub terminations : ℕ → List Action → ℕ
terminations s [] = 0
terminations s (terminate u ∷ acts) = (if u == s then 1 else 0) + terminations s acts
terminations s (a ∷ acts) = terminations s acts

abbrev pub is_over : SocketView → ℕ → Bool
is_over view s = ltb viewer_terminate_bytes (view.buffered_amount s)

-- Whether a socket that watches may be sent a frame.
abbrev pub may_send : SocketView → Bool → ℕ → Bool
may_send view is_key s =
    view.is_open s
    && not (is_over view s)
    && (is_key || leb (view.buffered_amount s) viewer_backpressure_bytes)

sent_to-append : (s : ℕ) (xs ys : List Action) → sent_to s (xs ++ ys) ≡ sent_to s xs ++ sent_to s ys
sent_to-append s [] ys = refl
sent_to-append s (demand_changed d ∷ xs) ys = sent_to-append s xs ys
sent_to-append s (close u c r ∷ xs) ys = sent_to-append s xs ys
sent_to-append s (terminate u ∷ xs) ys = sent_to-append s xs ys
sent_to-append s (send u p ∷ xs) ys = ground (arith, sent_to-append s xs ys)

terminations-append :
    (s : ℕ) (xs ys : List Action)
    → terminations s (xs ++ ys) ≡ terminations s xs + terminations s ys
terminations-append s [] ys = omega arith
terminations-append s (demand_changed d ∷ xs) ys = terminations-append s xs ys
terminations-append s (close u c r ∷ xs) ys = terminations-append s xs ys
terminations-append s (terminate u ∷ xs) ys = ground (arith, terminations-append s xs ys)
terminations-append s (send u p ∷ xs) ys = terminations-append s xs ys

abbrev pub expected : Bool → List ℕ → List (List ℕ)
expected true payload = payload ∷ []
expected false payload = []

sent_to-deliver :
    (view : SocketView) (is_key : Bool) (payload : List ℕ) (s u : ℕ)
    → sent_to s (deliver view is_key payload u)
      ≡ expected (u == s && may_send view is_key u) payload
unfolding deliver
sent_to-deliver view is_key payload s u = ground arith

terminations-deliver :
    (view : SocketView) (is_key : Bool) (payload : List ℕ) (s u : ℕ)
    → terminations s (deliver view is_key payload u)
      ≡ (if u == s && view.is_open u && is_over view u then 1 else 0)
unfolding deliver
terminations-deliver view is_key payload s u = ground arith

module _ (view : SocketView) (is_key : Bool) (payload : List ℕ) (s : ℕ) where
  deliver_all-missing :
      (ss : Sockets)
      → get s ss ≡ none
      → (sent_to s (deliver_all view is_key payload ss) ≡ [])
        × (terminations s (deliver_all view is_key payload ss) ≡ 0)
  unfolding get deliver_all
  deliver_all-missing [] e = (refl, refl)
  deliver_all-missing ((u, g) ∷ ss) e =
      let (no_send, no_end) = deliver_all-missing ss (ground arith) in
      (
        sent_to-append s (deliver view is_key payload u) (deliver_all view is_key payload ss)
            ∙ ground (arith, no_send, sent_to-deliver view is_key payload s u),
        terminations-append s (deliver view is_key payload u) (deliver_all view is_key payload ss)
            ∙ ground (arith, no_end, terminations-deliver view is_key payload s u),
      )

  deliver_all_lem :
      (ss : Sockets)
      → IsMap ss
      → (sent_to s (deliver_all view is_key payload ss)
          ≡ expected (not (is_none (get s ss)) && may_send view is_key s) payload)
        × (terminations s (deliver_all view is_key payload ss)
            ≡ (if not (is_none (get s ss)) && view.is_open s && is_over view s then 1 else 0))
  unfolding get deliver_all
  deliver_all_lem [] m = (refl, refl)
  deliver_all_lem ((u, g) ∷ ss) m =
      let (ih, ih') = deliver_all_lem ss m.1 in
      let miss = deliver_all-missing ss in
      (
        sent_to-append s (deliver view is_key payload u) (deliver_all view is_key payload ss)
            ∙ ground (arith, ih, miss, sent_to-deliver view is_key payload s u),
        terminations-append s (deliver view is_key payload u) (deliver_all view is_key payload ss)
            ∙ ground (arith, ih', miss, terminations-deliver view is_key payload s u),
      )

-- A frame that can be encoded goes, once, to exactly the open sockets that watch its device and whose
-- queue is short enough: up to 16 MiB for a key frame and 2 MiB for another; exactly the open watching
-- sockets with a queue over 16 MiB are terminated.
pub broadcast_lem :
    (view : SocketView) (f : AgentFrame) (viewers : Viewers) (payload : List ℕ) (acts : List Action)
    (s : ℕ)
    → IsTidy viewers
    → encode_viewer_frame (viewer_frame f) ≡ ok payload
    → broadcast view f viewers ≡ some acts
    → (sent_to s acts
        ≡ expected
            (not (is_none (generation viewers f.device_id s)) && may_send view f.is_key s)
            payload)
      × (terminations s acts ≡ (
          if not (is_none (generation viewers f.device_id s)) && view.is_open s && is_over view s
          then 1
          else 0))
unfolding broadcast generation
broadcast_lem view f viewers payload acts s t written e =
    elim (Option-cases (get f.device_id viewers)) [
      | inl missing ↦ (ground arith, ground arith)
      | inr (ss, found) ↦
          let m : IsMap ss = ground (arith, t f.device_id) in
          let (sent, ended) = deliver_all_lem view f.is_key payload s ss m in
          let same : acts ≡ deliver_all view f.is_key payload ss = ground arith in
          (rw same (ground (arith, sent)), rw same (ground (arith, ended)))
    ]
