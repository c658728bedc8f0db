-- ===== src/Messages.antt =====
-- What nodes send each other: mistlib-core/src/signaling/message.rs and src/overlay/message.rs; what the
-- core asks of the transport: src/action.rs; and src/error.rs. Byte strings are lists of bytes.
use mistlib.Base.{
  ℕ, List, Bool, true, false, String, ◌==◌, ◌||◌, Option, none, some, ◌⊎◌, inl, inr, ◌≡◌, refl,
}
use mistlib.Types.{NodeId, DeliveryMethod, SendLane, general, control, bulk}
use mistlib.Storage.Frames.{StorageFrame, have_chunk, classify_storage_frame}

pub data MistError : Type 0 where
  internal config network signaling serialization other : String → MistError
  node_not_found route_not_found : NodeId → MistError
  message_too_large : ℕ → ℕ → MistError

pub data Result (T : Type 0) : Type 0 where
  ok : T → Result T
  err : MistError → Result T

pub Result-cases :
    {T : Type 0} (r : Result T) → ((e : MistError) × (r ≡ err e)) ⊎ ((t : T) × (r ≡ ok t))
Result-cases (err e) = inl (e, refl)
Result-cases (ok t) = inr (t, refl)

pub data SignalingType : Type 0 where
  offer answer candidate candidates request rejoin candidate_ack negotiation_ack : SignalingType

pub record SignalingData : Type 0 where
  pub sender_id : NodeId
  pub receiver_id : NodeId
  pub room_id : String
  pub data_text : String
  pub signaling_type : SignalingType

pub record OverlayMessage : Type 0 where
  pub message_type : ℕ
  pub payload : List ℕ

pub data MessageContent : Type 0 where
  data_content : SignalingData → MessageContent
  overlay_content : OverlayMessage → MessageContent
  raw : List ℕ → MessageContent

abbrev pub overlay_msg_heartbeat : ℕ
overlay_msg_heartbeat = 0

abbrev pub overlay_msg_request_node_list : ℕ
overlay_msg_request_node_list = 1

abbrev pub overlay_msg_node_list : ℕ
overlay_msg_node_list = 2

abbrev pub overlay_msg_ping : ℕ
overlay_msg_ping = 3

abbrev pub overlay_msg_pong : ℕ
overlay_msg_pong = 4

abbrev pub overlay_msg_position : ℕ
overlay_msg_position = 5

unfoldable pub is_internal_control : OverlayMessage → Bool
is_internal_control m =
    m.message_type == overlay_msg_heartbeat
    || (m.message_type == overlay_msg_request_node_list
        || (m.message_type == overlay_msg_node_list
            || (m.message_type == overlay_msg_ping
                || (m.message_type == overlay_msg_pong || m.message_type == overlay_msg_position))))

pub record OverlayEnvelope : Type 0 where
  pub from : NodeId
  pub to : NodeId
  pub msg_id : ℕ
  pub seq : ℕ
  pub hop_count : ℕ
  pub content : MessageContent

-- The random id, which is never 0, is an argument.
unfoldable pub new_envelope : ℕ → NodeId → NodeId → ℕ → MessageContent → OverlayEnvelope
new_envelope msg_id from to hop_count content = record {
  from = from;
  to = to;
  msg_id = msg_id;
  seq = 0;
  hop_count = hop_count;
  content = content;
}

unfoldable pub with_seq : ℕ → OverlayEnvelope → OverlayEnvelope
with_seq seq envelope = record envelope { seq = seq }

pub data OverlayAction : Type 0 where
  send_message : NodeId → List ℕ → DeliveryMethod → SendLane → OverlayAction
  connect disconnect suspect_disconnected clear_suspect : NodeId → OverlayAction
  send_signaling : NodeId → OverlayEnvelope → OverlayAction

-- The lane of a frame of storage.
unfoldable pub frame_lane : Option StorageFrame → Bool → SendLane
frame_lane (some (have_chunk cid index total payload)) false = bulk
frame_lane (some (have_chunk cid index total payload)) true = general
frame_lane none broadcast = general
frame_lane (some _) broadcast = control

unfoldable pub classify : MessageContent → Bool → SendLane
classify (raw bytes) broadcast = frame_lane (classify_storage_frame bytes) broadcast
classify (overlay_content m) broadcast = control
classify (data_content d) broadcast = control
