-- ===== src/Agent/Uplink.antt =====
-- packages/agent/src: frame-backpressure.ts, stream-demand-gate.ts, and of server-tunnel.ts the frames it
-- sends and the delays of its reconnects. What is read of the socket is an argument.
pub mod Counters
use nebula_clone.Prelude.{
  ℕ, suc, ◌+◌, ◌*◌, ◌^◌, ◌-◌, ◌≤◌, max, min, Bool, true, false, not, ◌&&◌, ◌||◌, List, [], ◌∷◌,
  Option, none, some, String, length, any, ltb, ◌==◌, ◌===◌, if◌then◌else◌, ◌≡◌, refl, arith,
  Bool-cases, inl, inr,
}
use native.Mathlib.Nat.{two-pow-succ}
use nebula_clone.Shared.Frames.{
  TextCodec, AgentFrame, Encoded, ok, throws, EncodeError, encode_agent_frame,
}

abbrev pub frame_backpressure_bytes : ℕ
frame_backpressure_bytes = 524_288

abbrev pub frame_queue_max_bytes : ℕ
frame_queue_max_bytes = 2_097_152

pub data FrameSendDecision : Type 0 where
  send drop_backpressure drop_queue_full : FrameSendDecision

abbrev pub decide_frame_send : Bool → ℕ → FrameSendDecision
decide_frame_send is_key buffered_bytes =
    if ltb frame_queue_max_bytes buffered_bytes
    then drop_queue_full
    else if not is_key && ltb frame_backpressure_bytes buffered_bytes
    then drop_backpressure
    else send

pub record Socket : Type 0 where
  pub is_open : Bool
  pub buffered_amount : ℕ

pub record ServerTunnel : Type 0 where
  pub dropped_frame_count : ℕ
  pub dropped_key_frame_count : ℕ
  pub sent_frame_count : ℕ
  pub sent_frame_bytes : ℕ
  pub peak_buffered_bytes : ℕ
  pub reconnect_attempt : ℕ
  pub is_closed : Bool
  -- The delay of the pending reconnect.
  pub reconnect_timer : Option ℕ

pub data FrameSent : Type 0 where
  returned_false : FrameSent
  sent : List ℕ → FrameSent
  threw : EncodeError → FrameSent

abbrev pub transmit : Encoded → ServerTunnel → ServerTunnel × FrameSent
transmit (throws e) t = (t, threw e)
transmit (ok payload) t = (
  record t {
    sent_frame_count = t.sent_frame_count + 1;
    sent_frame_bytes = t.sent_frame_bytes + length payload;
  },
  sent payload,
)

abbrev pub decided : FrameSendDecision → Encoded → ServerTunnel → ServerTunnel × FrameSent
decided drop_queue_full encoded t = (
  record t {
    dropped_key_frame_count = t.dropped_key_frame_count + 1;
    dropped_frame_count = t.dropped_frame_count + 1;
  },
  returned_false,
)
decided drop_backpressure encoded t =
    (record t { dropped_frame_count = t.dropped_frame_count + 1 }, returned_false)
decided send encoded t = transmit encoded t

-- `sendFrame`; `none` is a missing socket.
pub send_frame : TextCodec → Option Socket → AgentFrame → ServerTunnel → ServerTunnel × FrameSent
send_frame codec none frame t = (t, returned_false)
send_frame codec (some socket) frame t =
    if not socket.is_open
    then (t, returned_false)
    else decided (decide_frame_send frame.is_key socket.buffered_amount)
        (encode_agent_frame codec frame)
        (record t { peak_buffered_bytes = max t.peak_buffered_bytes socket.buffered_amount })

-- server-tunnel.ts, the reconnects.
abbrev pub backoff_max_ms : ℕ
backoff_max_ms = 30_000

pub backoff_delay_ms : ℕ → ℕ
backoff_delay_ms attempt = min (1_000 * 2 ^ attempt) backoff_max_ms

abbrev pub is_terminal : ℕ → Bool
is_terminal code = code == 4_400 || code == 4_401 || code == 4_409

unfoldable pub schedule_reconnect : ℕ → ServerTunnel → ServerTunnel
schedule_reconnect close_code t =
    if t.is_closed
    then t
    else if is_terminal close_code
    then record t { reconnect_timer = some backoff_max_ms }
    else record t {
      reconnect_timer = some (backoff_delay_ms t.reconnect_attempt);
      reconnect_attempt = t.reconnect_attempt + 1;
    }

-- The delays of the back-off start at a second, double, and stop at thirty seconds.
pub backoff_delay_ms-doubles :
    (n : ℕ)
    → (backoff_delay_ms 0 ≡ 1_000)
      × (backoff_delay_ms (suc n) ≡ min (2 * backoff_delay_ms n) backoff_max_ms)
unfolding backoff_delay_ms
backoff_delay_ms-doubles n = (refl, omega (arith, two-pow-succ n))

-- stream-demand-gate.ts: `none` before the first snapshot.
pub record StreamDemandGate : Type 0 where
  pub demanded : List String
  pub has_snapshot : Bool

unfoldable pub apply : List String → StreamDemandGate → StreamDemandGate
apply device_ids gate = record { demanded = device_ids; has_snapshot = true }

unfoldable pub reset : StreamDemandGate → StreamDemandGate
reset gate = record { demanded = []; has_snapshot = false }

unfoldable pub should_send : String → StreamDemandGate → Bool
should_send device_id gate =
    if not gate.has_snapshot then true else any (λ id. id === device_id) gate.demanded
