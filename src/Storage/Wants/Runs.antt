-- ===== src/Storage/Wants/Runs.antt =====
-- Any sequence of operations on the registry of storage/protocol.rs.
use mistlib.Base.{ℕ, List, [], ◌∷◌, Option, none, some, Bool, String}
use mistlib.Types.{NodeId}
use mistlib.Storage.Wants.State.{PathKey, empty_state}
use mistlib.Storage.Wants.Registry.{
  WantRegistry, StorageCounters, Outcome, fulfill_data_in, fulfill_chunk_data_in, prepend,
}
use mistlib.Storage.Wants.Requests.{
  register_attempt_for_peers, register_bounded_attempt, track_path, untrack_path,
  outstanding_senders, progress_of, query_path_resets, reset_path,
}
use mistlib.Storage.Wants.Peers.{
  cancel_closed, cancel, register_peer_notifier, register_peer_notifier_in, register_peer_in,
}

-- The time of an operation, and which receivers are gone by then.
pub record Env : Type 0 where
  pub now : ℕ
  pub closed : ℕ → Bool
  pub watched : PathKey → Bool
  pub gone : ℕ → Bool

pub data Op : Type 0 where
  register : String → List NodeId → Bool → Op
  register_bounded : String → NodeId → ℕ → Op
  track untrack : ℕ → String → Op
  -- the room, the CID and the sender of a block or a chunk
  block : String → String → NodeId → List ℕ → Op
  chunk : String → String → NodeId → ℕ → ℕ → List ℕ → Op
  senders : Op
  follow : NodeId → Op
  follow_path : String → NodeId → Op
  reset : Option NodeId → String → Op
  drop_all : String → Op
  drop_closed : Op
  await_peer : ℕ → String → Op
  await_peer_in : ℕ → String → String → Op
  announce : String → String → NodeId → Op

abbrev pub quiet : WantRegistry → Outcome
quiet r = some ([], r)

-- The length of a text in bytes is a parameter.
abbrev pub step : (String → ℕ) → Env → Op → WantRegistry → Outcome
step len e (register cid peers local) r =
    quiet (register_attempt_for_peers e.closed e.watched len cid peers local r).1
step len e (register_bounded cid sender max_bytes) r =
    quiet (register_bounded_attempt e.closed e.watched len cid sender max_bytes r).1
step len e (track attempt room) r = quiet (track_path e.closed e.watched attempt room r).1
step len e (untrack attempt room) r = quiet (untrack_path e.closed e.watched attempt room r)
step len e (block room cid sender bytes) r =
    some (fulfill_data_in e.closed e.watched e.now room cid sender bytes r)
step len e (chunk room cid sender index total bytes) r =
    fulfill_chunk_data_in e.closed e.watched e.now room cid sender index total bytes r
step len e senders r = quiet (outstanding_senders e.closed e.watched r).1
step len e (follow sender) r = quiet (progress_of e.closed e.watched sender r).1
step len e (follow_path room peer) r = quiet (query_path_resets e.closed e.watched room peer r).1
step len e (reset sender room) r = quiet (reset_path e.closed e.watched sender room r)
step len e (drop_all cid) r = quiet (cancel e.closed e.watched e.gone cid r)
step len e drop_closed r = quiet (cancel_closed e.closed e.watched e.gone r)
step len e (await_peer tx cid) r = quiet (register_peer_notifier e.closed e.watched e.gone tx cid r)
step len e (await_peer_in tx room cid) r =
    quiet (register_peer_notifier_in e.closed e.watched e.gone tx room cid r)
step len e (announce room cid peer) r = quiet (register_peer_in room cid peer r).2

-- What is sent before and after; a panic ends the run.
abbrev pub followed_by : Outcome → (WantRegistry → Outcome) → Outcome
followed_by none rest = none
followed_by (some (notices, left)) rest = prepend notices (rest left)

-- What is sent on the channels of the attempts.
abbrev pub run : (String → ℕ) → List (Env × Op) → WantRegistry → Outcome
run len [] r = some ([], r)
run len ((e, op) ∷ ops) r = followed_by (step len e op r) (run len ops)

abbrev pub no_counts : StorageCounters
no_counts = record {
  accepted_chunks = 0;
  accepted_bytes = 0;
  duplicate_chunks = 0;
  duplicate_bytes = 0;
  rejected_chunks = 0;
  blocks_completed = 0;
  want_sent = 0;
  query_sent = 0;
  have_status_received = 0;
  responder_chunks_submitted = 0;
  responder_bytes_submitted = 0;
  responder_write_errors = 0;
  responder_route_retries = 0;
  responder_route_recoveries = 0;
}

abbrev pub new_registry : WantRegistry
new_registry = record {
  state = empty_state;
  counters = no_counts;
  peer_cache = [];
  peer_notifiers = [];
  room_peer_notifiers = [];
}
