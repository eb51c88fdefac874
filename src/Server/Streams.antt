-- ===== src/Server/Streams.antt =====
-- packages/server/src/streams/streams-relay.service.ts. A socket is a number, its identity; what the
-- relay reads of it, whether it is open and how much it has buffered, is an argument of each call. What
-- the relay does to sockets and listeners is the list of its actions, in order.
pub mod Viewers
pub mod Relayed
pub mod Demand
pub mod Gateway
use nebula_clone.Prelude.{
  ℕ, suc, ◌+◌, ◌*◌, Bool, true, false, not, ◌&&◌, ◌||◌, List, [], ◌∷◌, ◌++◌, Option, none, some,
  String, length, leb, ltb, ◌==◌, ◌===◌, if◌then◌else◌,
}
use nebula_clone.Js.Table.{get, set, delete, keys, Key, String_key, ℕ_key}
use nebula_clone.Shared.Frames.{AgentFrame, ViewerFrame, Encoded, ok, throws, encode_viewer_frame}

abbrev pub viewer_backpressure_bytes : ℕ
viewer_backpressure_bytes = 2_097_152

abbrev pub viewer_terminate_bytes : ℕ
viewer_terminate_bytes = 16_777_216

-- The sockets that watch a device, each with the occupation it was opened under.
abbrev pub Sockets : Type 0
Sockets = List (ℕ × String)

abbrev pub Viewers : Type 0
Viewers = List (String × Sockets)

pub record SocketView : Type 0 where
  pub is_open : ℕ → Bool
  pub buffered_amount : ℕ → ℕ

pub data Action : Type 0 where
  demand_changed : String → Action
  close : ℕ → ℕ → String → Action
  terminate : ℕ → Action
  send : ℕ → List ℕ → Action

unfoldable pub viewed_device_ids : Viewers → List String
unfolding keys
viewed_device_ids viewers = keys viewers

unfoldable pub add_viewer : String → String → ℕ → Viewers → Viewers × List Action
add_viewer device occupant socket viewers = elim (get device viewers) [
  | some existing ↦ (set device (set socket occupant existing) viewers, [])
  | none ↦ (set device ((socket, occupant) ∷ []) viewers, demand_changed device ∷ [])
]

-- The end of `removeViewer` and `closeViewers`: a device that nobody watches any more is dropped.
settle : String → Sockets → Viewers → Viewers × List Action
settle device [] viewers = (delete device viewers, demand_changed device ∷ [])
settle device (s ∷ ss) viewers = (set device (s ∷ ss) viewers, [])

unfoldable pub remove_viewer : String → ℕ → Viewers → Viewers × List Action
unfolding settle
remove_viewer device socket viewers = elim (get device viewers) [
  | none ↦ (viewers, [])
  | some sockets ↦ settle device (delete socket sockets) viewers
]

-- The loop of `closeViewers`: the sockets that stay, and the closings.
pub others : String → Sockets → Sockets
others occupant [] = []
others occupant ((socket, generation) ∷ rest) =
    let kept = others occupant rest in
    if generation === occupant then kept else (socket, generation) ∷ kept

pub closings : SocketView → String → ℕ → String → Sockets → List Action
closings view occupant code reason [] = []
closings view occupant code reason ((socket, generation) ∷ rest) =
    let later = closings view occupant code reason rest in
    if generation === occupant && view.is_open socket
    then close socket code reason ∷ later
    else later

unfoldable pub close_viewers :
    SocketView → String → String → ℕ → String → Viewers → Viewers × List Action
unfolding settle others closings
close_viewers view device occupant code reason viewers = elim (get device viewers) [
  | none ↦ (viewers, [])
  | some sockets ↦
      let (viewers', notices) = settle device (others occupant sockets) viewers in
      (viewers', closings view occupant code reason sockets ++ notices)
]

-- What `broadcast` does to one socket.
pub deliver : SocketView → Bool → List ℕ → ℕ → List Action
deliver view is_key payload socket =
    if not (view.is_open socket)
    then []
    else if ltb viewer_terminate_bytes (view.buffered_amount socket)
    then terminate socket ∷ []
    else if not is_key && ltb viewer_backpressure_bytes (view.buffered_amount socket)
    then []
    else send socket payload ∷ []

pub deliver_all : SocketView → Bool → List ℕ → Sockets → List Action
deliver_all view is_key payload [] = []
deliver_all view is_key payload ((socket, _) ∷ rest) =
    deliver view is_key payload socket ++ deliver_all view is_key payload rest

-- The frame as the viewers get it.
abbrev pub viewer_frame : AgentFrame → ViewerFrame
viewer_frame frame = record {
  format = frame.format;
  is_key = frame.is_key;
  width = frame.width;
  height = frame.height;
  stamp_ms = frame.stamp_ms;
  payload = frame.payload;
}

-- `none` is the exception of the encoder.
abbrev sent_payload : SocketView → Bool → Sockets → Encoded → Option (List Action)
sent_payload view is_key sockets (ok payload) = some (deliver_all view is_key payload sockets)
sent_payload view is_key sockets (throws e) = none

unfoldable pub broadcast : SocketView → AgentFrame → Viewers → Option (List Action)
unfolding deliver_all deliver
broadcast view frame viewers = elim (get frame.device_id viewers) [
  | none ↦ some []
  | some sockets ↦ sent_payload view frame.is_key sockets (encode_viewer_frame (viewer_frame frame))
]
