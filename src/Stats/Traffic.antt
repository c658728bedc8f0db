-- ===== src/Stats/Traffic.antt =====
-- mistlib-core/src/stats.rs: the traffic counters, which atomically add modulo 2 ^ 64, and the report
-- that takes them. Round-trip times, which are floats, are left out. The decoder of an envelope is
-- a parameter.
pub mod Conserved
use mistlib.Base.{
  ℕ, ◌+◌, ◌*◌, ◌%◌, List, [], ◌∷◌, Option, none, some, Bool, true, false, ◌==◌, ◌&&◌, ◌||◌,
  if◌then◌else◌, length,
}
use mistlib.Base.Words.{add64, u64_mod}
use mistlib.Messages.{
  OverlayEnvelope, OverlayMessage, MessageContent, data_content, overlay_content, raw,
  overlay_msg_heartbeat, overlay_msg_request_node_list, overlay_msg_node_list, overlay_msg_position,
}

pub record MistStats : Type 0 where
  pub total_send_bytes : ℕ
  pub total_receive_bytes : ℕ
  pub total_message_count : ℕ
  pub total_world_send_bytes : ℕ
  pub total_world_receive_bytes : ℕ
  pub total_world_message_count : ℕ
  pub total_relay_send_bytes : ℕ
  pub total_relay_receive_bytes : ℕ
  pub total_relay_message_count : ℕ
  pub dropped_receive_events : ℕ
  pub dropped_ffi_events : ℕ

-- The last two fields are `dropped_receive_events` and `dropped_ffi_events` of the source.
pub record StatsSnapshot : Type 0 where
  pub message_count : ℕ
  pub send_bits : ℕ
  pub receive_bits : ℕ
  pub world_send_bits : ℕ
  pub world_receive_bits : ℕ
  pub world_message_count : ℕ
  pub relay_send_bits : ℕ
  pub relay_receive_bits : ℕ
  pub relay_message_count : ℕ
  pub dropped_receive_count : ℕ
  pub dropped_ffi_count : ℕ

unfoldable pub new_stats : MistStats
new_stats = record {
  total_send_bytes = 0;
  total_receive_bytes = 0;
  total_message_count = 0;
  total_world_send_bytes = 0;
  total_world_receive_bytes = 0;
  total_world_message_count = 0;
  total_relay_send_bytes = 0;
  total_relay_receive_bytes = 0;
  total_relay_message_count = 0;
  dropped_receive_events = 0;
  dropped_ffi_events = 0;
}

unfoldable pub add_send : ℕ → MistStats → MistStats
add_send bytes s = record s {
  total_send_bytes = add64 s.total_send_bytes bytes;
  total_message_count = add64 s.total_message_count 1;
}

unfoldable pub add_receive : ℕ → MistStats → MistStats
add_receive bytes s = record s { total_receive_bytes = add64 s.total_receive_bytes bytes }

unfoldable pub add_world_send : ℕ → MistStats → MistStats
add_world_send bytes s = record s {
  total_world_send_bytes = add64 s.total_world_send_bytes bytes;
  total_world_message_count = add64 s.total_world_message_count 1;
}

unfoldable pub add_world_receive : ℕ → MistStats → MistStats
add_world_receive bytes s = record s {
  total_world_receive_bytes = add64 s.total_world_receive_bytes bytes;
}

unfoldable pub add_relay_send : ℕ → MistStats → MistStats
add_relay_send bytes s = record s {
  total_relay_send_bytes = add64 s.total_relay_send_bytes bytes;
  total_relay_message_count = add64 s.total_relay_message_count 1;
}

unfoldable pub add_relay_receive : ℕ → MistStats → MistStats
add_relay_receive bytes s = record s {
  total_relay_receive_bytes = add64 s.total_relay_receive_bytes bytes;
}

unfoldable pub add_dropped_receive_event : MistStats → MistStats
add_dropped_receive_event s = record s { dropped_receive_events = add64 s.dropped_receive_events 1 }

unfoldable pub add_dropped_ffi_event : MistStats → MistStats
add_dropped_ffi_event s = record s { dropped_ffi_events = add64 s.dropped_ffi_events 1 }

pub data OverlayFrameClass : Type 0 where
  world relay : ℕ → OverlayFrameClass
  excluded : OverlayFrameClass

-- The bytes of `"type":"network_partition_probe"`.
abbrev pub probe_marker : List ℕ
probe_marker =
    34 ∷ 116 ∷ 121 ∷ 112 ∷ 101 ∷ 34 ∷ 58 ∷ 34 ∷ 110 ∷ 101 ∷ 116 ∷ 119 ∷ 111 ∷ 114 ∷ 107 ∷ 95 ∷ 112
    ∷ 97 ∷ 114 ∷ 116 ∷ 105 ∷ 116 ∷ 105 ∷ 111 ∷ 110 ∷ 95 ∷ 112 ∷ 114 ∷ 111 ∷ 98 ∷ 101 ∷ 34 ∷ []

unfoldable pub starts_with : List ℕ → List ℕ → Bool
starts_with [] bytes = true
starts_with (x ∷ xs) [] = false
starts_with (x ∷ xs) (b ∷ bytes) = x == b && starts_with xs bytes

-- Whether some window of the bytes is the marker.
unfoldable pub is_network_partition_probe_payload : List ℕ → Bool
is_network_partition_probe_payload [] = false
is_network_partition_probe_payload (b ∷ bytes) =
    starts_with probe_marker (b ∷ bytes) || is_network_partition_probe_payload bytes

unfoldable pub is_world_message : OverlayMessage → Bool
is_world_message m =
    m.message_type == overlay_msg_heartbeat
    || (m.message_type == overlay_msg_request_node_list
        || (m.message_type == overlay_msg_node_list || m.message_type == overlay_msg_position))

unfoldable pub class_of : ℕ → MessageContent → Option OverlayFrameClass
class_of bytes (overlay_content m) = if is_world_message m then some (world bytes) else none
class_of bytes (raw payload) =
    if is_network_partition_probe_payload payload then some excluded else some (relay bytes)
class_of bytes (data_content d) = some (relay bytes)

abbrev pub Deserialize : Type 0
Deserialize = List ℕ → Option OverlayEnvelope

unfoldable pub classify_overlay_frame : Deserialize → List ℕ → Option OverlayFrameClass
classify_overlay_frame deserialize data_bytes = elim (deserialize data_bytes) [
  | none ↦ none
  | some envelope ↦ class_of (length data_bytes) envelope.content
]

unfoldable pub add_world_send_class : Option OverlayFrameClass → MistStats → MistStats
add_world_send_class (some (world bytes)) s = add_world_send bytes s
add_world_send_class (some (relay bytes)) s = add_relay_send bytes s
add_world_send_class (some excluded) s = s
add_world_send_class none s = s

unfoldable pub add_world_receive_class : Option OverlayFrameClass → MistStats → MistStats
add_world_receive_class (some (world bytes)) s = add_world_receive bytes s
add_world_receive_class (some (relay bytes)) s = add_relay_receive bytes s
add_world_receive_class (some excluded) s = s
add_world_receive_class none s = s

unfoldable pub add_send_class : ℕ → Option OverlayFrameClass → MistStats → MistStats
add_send_class bytes (some excluded) s = s
add_send_class bytes (some (world b)) s = add_world_send b (add_send bytes s)
add_send_class bytes (some (relay b)) s = add_relay_send b (add_send bytes s)
add_send_class bytes none s = add_send bytes s

unfoldable pub add_receive_class : ℕ → Option OverlayFrameClass → MistStats → MistStats
add_receive_class bytes (some excluded) s = s
add_receive_class bytes (some (world b)) s = add_world_receive b (add_receive bytes s)
add_receive_class bytes (some (relay b)) s = add_relay_receive b (add_receive bytes s)
add_receive_class bytes none s = add_receive bytes s

unfoldable pub add_world_send_frame : Deserialize → List ℕ → MistStats → MistStats
add_world_send_frame deserialize frame s =
    add_world_send_class (classify_overlay_frame deserialize frame) s

unfoldable pub add_world_receive_frame : Deserialize → List ℕ → MistStats → MistStats
add_world_receive_frame deserialize frame s =
    add_world_receive_class (classify_overlay_frame deserialize frame) s

unfoldable pub add_send_frame : Deserialize → List ℕ → MistStats → MistStats
add_send_frame deserialize frame s =
    add_send_class (length frame) (classify_overlay_frame deserialize frame) s

unfoldable pub add_receive_frame : Deserialize → List ℕ → MistStats → MistStats
add_receive_frame deserialize frame s =
    add_receive_class (length frame) (classify_overlay_frame deserialize frame) s

-- Bits modulo 2 ^ 64, as in a build without overflow checks.
unfoldable pub bits : ℕ → ℕ
bits bytes = bytes * 8 % u64_mod

unfoldable pub snapshot_and_reset : MistStats → StatsSnapshot × MistStats
snapshot_and_reset s = (
  record {
    message_count = s.total_message_count;
    send_bits = bits s.total_send_bytes;
    receive_bits = bits s.total_receive_bytes;
    world_send_bits = bits s.total_world_send_bytes;
    world_receive_bits = bits s.total_world_receive_bytes;
    world_message_count = s.total_world_message_count;
    relay_send_bits = bits s.total_relay_send_bytes;
    relay_receive_bits = bits s.total_relay_receive_bytes;
    relay_message_count = s.total_relay_message_count;
    dropped_receive_count = s.dropped_receive_events;
    dropped_ffi_count = s.dropped_ffi_events;
  },
  new_stats,
)
