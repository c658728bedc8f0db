-- ===== src/Tests/Router.antt =====
-- Runs of the router: mistlib-core/src/overlay and src/util.rs.
use mistlib.Base.{
  ℕ, ◌+◌, ◌≡◌, refl, List, [], ◌∷◌, none, true, false, All, length, map, arith, String_discrete,
  ℕ_discrete,
}
use mistlib.Base.Maps.{min_by_key}
use mistlib.Base.Sequences.{Consecutive}
use mistlib.Base.Sets.{contains}
use mistlib.Types.{NodeId, node_dec, is_broadcast, reliable_ordered}
use mistlib.Messages.{Result, ok, err, network, OverlayEnvelope, OverlayAction, raw}
use mistlib.Util.{new_cache, admit, sweep, evict_oldest_until_below_limit, evict_entries}
use mistlib.Util.Ledger.{answers, ledger_answers, new_cache-ledger}
use mistlib.Overlay.RoutingTable.{RoutingTable, is_connected, sync_connected_nodes}
use mistlib.Overlay.RoutingTable.Sync.{
  NoRoute, sync_connected_nodes-connected, sync_connected_nodes-routes,
}
use mistlib.Overlay.Router.Dedupe.{check_and_insert, overlay_seen_ttl, overlay_seen_max_entries}
use mistlib.Overlay.Router.Sequence.{frames_to, frames_to-Consecutive}
use mistlib.Overlay.Router.Forward.{
  Router, Serialize, handle_envelope, mark_seen, forward_actions, forward_targets,
}
use mistlib.Overlay.Router.Forward.Handled.{
  Event, handed, remembered, run, notices, handle_envelope-again,
}
use mistlib.Overlay.Router.Forward.Flood.{IsCopy, broadcast-IsCopy}
use mistlib.Overlay.Router.Forward.Dispatch.{IsDispatched, dispatch_data_via-IsDispatched}
use mistlib.Stats.{note_inbound_activity}

abbrev two_checks : List (ℕ × ℕ)
two_checks = (1, 0) ∷ (1, 5) ∷ (2, 7) ∷ (1, 12) ∷ []

new_cache-ledger_example :
    answers ℕ_discrete (new_cache 10 4) two_checks
    ≡ ledger_answers ℕ_discrete 10 (λ _. none) two_checks
new_cache-ledger_example =
    new_cache-ledger ℕ_discrete 10 4 two_checks
      (omega arith, (omega arith, (omega arith, (omega arith, tt)))) (omega arith)

-- A repetition within 10 is refused, and one after it passes.
ledger_run : ledger_answers ℕ_discrete 10 (λ _. none) two_checks ≡ true ∷ false ∷ true ∷ true ∷ []
unfolding ℕ_discrete
ledger_run = refl

abbrev table : RoutingTable
table = record { connected_nodes = "a" ∷ "b" ∷ []; routes = ("c", "a") ∷ [] }

sync_connected_nodes-connected_example :
    is_connected "a" (sync_connected_nodes ("b" ∷ "d" ∷ []) table)
    ≡ contains node_dec "a" ("b" ∷ "d" ∷ [])
sync_connected_nodes-connected_example = sync_connected_nodes-connected "a" ("b" ∷ "d" ∷ []) table

sync_connected_nodes-routes_example : NoRoute "a" (sync_connected_nodes ("b" ∷ "d" ∷ []) table)
unfolding String_discrete
sync_connected_nodes-routes_example =
    sync_connected_nodes-routes "a" ("b" ∷ "d" ∷ []) table refl refl

-- The second call for "a" fails.
abbrev calls : List (NodeId × ℕ × (ℕ → Result ℕ))
calls =
    ("a", 0, λ seq. ok seq)
    ∷ ("b", 1, λ seq. ok seq)
    ∷ ("a", 2, λ seq. err (network "full"))
    ∷ ("a", 3, λ seq. ok seq)
    ∷ []

abbrev same : ℕ → ℕ
same n = n

frames_to-Consecutive_example :
    Consecutive 1
      (map same (frames_to same "a" calls []))
      (1 + length (frames_to same "a" calls []))
frames_to-Consecutive_example =
    frames_to-Consecutive same "a" calls
      ((λ seq t h. cc), ((λ seq t h. cc), ((λ seq t h. cc), ((λ seq t h. cc), tt)))) (omega arith)

-- An encoding that tells the hop count and the sequence.
abbrev serialize : Serialize
serialize envelope = ok (envelope.hop_count ∷ envelope.seq ∷ [])

abbrev node : Router
node = record {
  local_node_id = "me";
  hop_count = 3;
  unsequenced_bulk = false;
  bulk_channel = false;
  routing_table = table;
  seen_envelopes = record {
    ttl = overlay_seen_ttl;
    max_entries = overlay_seen_max_entries;
    entries = [];
  };
  seq_counters = [];
  health = [];
}

abbrev broadcast_envelope : OverlayEnvelope
broadcast_envelope = record {
  from = "z";
  to = "";
  msg_id = 5;
  seq = 0;
  hop_count = 2;
  content = raw (1 ∷ []);
}

-- Between the two hand-overs the node takes another envelope, and sends one.
abbrev between : List Event
between =
    handed (record broadcast_envelope { msg_id = 6 }) "b" 20
    ∷ remembered (record broadcast_envelope { from = "me" }) 30
    ∷ []

handle_envelope-again_example :
    (handle_envelope serialize [] broadcast_envelope "b" 100
      (run serialize [] (handed broadcast_envelope "a" 10 ∷ between) node)).0
    ≡ record {
      actions =
          notices "b" (run serialize [] (handed broadcast_envelope "a" 10 ∷ between) node).health;
      should_deliver = false;
    }
unfolding handle_envelope mark_seen check_and_insert admit sweep evict_oldest_until_below_limit
    evict_entries min_by_key String_discrete note_inbound_activity
handle_envelope-again_example =
    handle_envelope-again serialize [] broadcast_envelope "a" "b" 10 100 between node tt refl refl
      (omega arith) (omega arith) (omega arith)

broadcast-IsCopy_example : All (IsCopy serialize broadcast_envelope "a" node) (
    forward_actions serialize broadcast_envelope (forward_targets broadcast_envelope "a" node) node)
unfolding is_broadcast String_discrete
broadcast-IsCopy_example =
    broadcast-IsCopy serialize broadcast_envelope "a" node refl (omega arith) (omega arith)

abbrev accept_all : ℕ → Result Unit
accept_all n = ok tt

abbrev hand_over : OverlayAction → Result OverlayAction
hand_over action = ok action

dispatch_data_via-IsDispatched_example :
    IsDispatched serialize accept_all hand_over 9 "c" none (1 ∷ 2 ∷ []) reliable_ordered 20 node
dispatch_data_via-IsDispatched_example =
    dispatch_data_via-IsDispatched serialize accept_all hand_over 9 "c" none (1 ∷ 2 ∷ [])
      reliable_ordered 20 node
