-- ===== src/Stats.antt =====
-- mistlib-core/src/stats.rs and src/stats/ping.rs: the liveness of the peers, and the counter of
-- received bytes. Round-trip times, which are floats, are left out.
pub mod Latch
pub mod Episodes
pub mod Traffic
use mistlib.Base.{
  ℕ, List, [], ◌∷◌, ◌++◌, Option, none, some, Bool, true, false, ltb, leb, ◌==◌, ◌&&◌,
  if◌then◌else◌, ite, String, String_discrete, length,
}
use mistlib.Base.Maps.{get, insert, remove}
use mistlib.Base.Words.{sat_add32}
use mistlib.Types.{NodeId, node_dec}
use mistlib.Messages.{OverlayAction, suspect_disconnected, clear_suspect}

pub record PingHealth : Type 0 where
  pub awaiting : Bool
  pub consecutive_misses : ℕ
  pub suspect : Bool

abbrev pub Health : Type 0
Health = List (NodeId × PingHealth)

abbrev pub default_health : PingHealth
default_health = record { awaiting = false; consecutive_misses = 0; suspect = false }

-- `entry(node_id).or_default()`.
unfoldable pub or_default : Option PingHealth → PingHealth
or_default none = default_health
or_default (some entry) = entry

-- What a ping does to the entry of its peer.
unfoldable pub ping_entry : ℕ → PingHealth → PingHealth
ping_entry timeout_count entry =
    let misses = if entry.awaiting then sat_add32 entry.consecutive_misses 1 else 0 in
    record {
      awaiting = true;
      consecutive_misses = misses;
      suspect = if ltb 0 timeout_count && misses == timeout_count then true else entry.suspect;
    }

unfoldable pub note_ping_sent : NodeId → ℕ → Health → ℕ × Health
note_ping_sent node_id timeout_count health =
    let entry = ping_entry timeout_count (or_default (get node_dec node_id health)) in
    (entry.consecutive_misses, insert node_dec node_id entry health)

-- Whether the peer was suspect.
unfoldable pub note_inbound_activity : NodeId → Health → Bool × Health
note_inbound_activity node_id health = elim (get node_dec node_id health) [
  | none ↦ (false, health)
  | some entry ↦ (entry.suspect, insert node_dec node_id default_health health)
]

unfoldable pub remove_node : NodeId → Health → Health
remove_node node_id health = remove node_dec node_id health

-- The loop of `tick_actions`.
unfoldable pub tick_suspects : ℕ → List NodeId → Health → List OverlayAction × Health
tick_suspects timeout_count [] health = ([], health)
tick_suspects timeout_count (target ∷ targets) health =
    let (misses, noted) = note_ping_sent target timeout_count health in
    let (actions, left) = tick_suspects timeout_count targets noted in
    (
      if ltb 0 timeout_count && misses == timeout_count
          then suspect_disconnected target ∷ actions
          else actions,
      left,
    )

-- `handle_pong`, but for the round-trip time.
unfoldable pub handle_pong : NodeId → List ℕ → Health → List OverlayAction × Health
handle_pong from payload health =
    if ltb (length payload) 8
    then ([], health)
    else (let (was_suspect, left) = note_inbound_activity from health in
        (if was_suspect then clear_suspect from ∷ [] else [], left))

-- `TransportReceiveCounter`: the report and its number of bytes.
abbrev pub ReceiveCounter : Type 0
ReceiveCounter = Option (String × ℕ)

unfoldable pub observe : String → ℕ → ReceiveCounter → Bool × ReceiveCounter
observe report_id bytes_received none = (false, some (report_id, bytes_received))
observe report_id bytes_received (some (id, previous)) = (
  ite (String_discrete id report_id) (ltb previous bytes_received) false,
  some (report_id, bytes_received),
)
