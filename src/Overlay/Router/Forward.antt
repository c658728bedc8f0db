-- ===== src/Overlay/Router/Forward.antt =====
-- mistlib-core/src/overlay/router/envelope.rs, send.rs and strategies.rs: what a node does with an
-- envelope that a neighbour hands over, and how it sends its own. The encoding of an envelope (bincode),
-- the strategies, and the transport's admission are parameters.
pub mod Handled
pub mod Flood
pub mod Dispatch
use mistlib.Base.{
  ℕ, ◌+◌, ◌%◌, List, [], ◌∷◌, ◌++◌, Option, none, some, Bool, true, false, not, ◌&&◌, ◌||◌, length,
  retain, map, ltb, ◌==◌, if◌then◌else◌,
}
use mistlib.Types.{
  NodeId, is_broadcast, DeliveryMethod, reliable_ordered, reliable_unordered, SendLane, bulk,
}
use mistlib.Messages.{
  Result, ok, err, MessageContent, overlay_content, raw, OverlayEnvelope, new_envelope, with_seq,
  OverlayAction, send_message, clear_suspect, classify,
}
use mistlib.Overlay.RoutingTable.{RoutingTable, is_same, is_connected, add_route, get_next_hop}
use mistlib.Overlay.Router.Dedupe.{OverlaySeenCache, check_and_insert}
use mistlib.Overlay.Router.Sequence.{SeqCounters, next_seq, with_next_seq}
use mistlib.Stats.{Health, note_inbound_activity}

-- The fields of `OverlayRouter` that these operations use, and the health of the peers (`STATS`).
pub record Router : Type 0 where
  pub local_node_id : NodeId
  pub hop_count : ℕ
  pub unsequenced_bulk : Bool
  pub bulk_channel : Bool
  pub routing_table : RoutingTable
  pub seen_envelopes : OverlaySeenCache
  pub seq_counters : SeqCounters
  pub health : Health

abbrev pub is_reliable_ordered : DeliveryMethod → Bool
is_reliable_ordered reliable_ordered = true
is_reliable_ordered _ = false

abbrev pub is_bulk : SendLane → Bool
is_bulk bulk = true
is_bulk _ = false

-- `storage_delivery` of transport/send.rs.
unfoldable pub storage_delivery : DeliveryMethod → SendLane → ℕ → Bool → DeliveryMethod
storage_delivery method lane seq bulk_channel =
    if bulk_channel && (is_reliable_ordered method && (is_bulk lane && seq == 0))
    then reliable_unordered
    else method

unfoldable pub mark_seen : OverlayEnvelope → ℕ → Router → Bool × Router
mark_seen envelope now router =
    if is_same envelope.from router.local_node_id
    then (false, router)
    else (let (is_new, cache) =
          check_and_insert envelope.from envelope.msg_id now router.seen_envelopes in
        (is_new, record router { seen_envelopes = cache }))

unfoldable pub remember_outgoing : OverlayEnvelope → ℕ → Router → Router
remember_outgoing envelope now router = record router {
  seen_envelopes = (check_and_insert envelope.from envelope.msg_id now router.seen_envelopes).1;
}

unfoldable pub learn_route : NodeId → NodeId → Router → Router
learn_route source from router =
    if not (is_same source router.local_node_id) && not (is_same source from)
    then record router { routing_table = add_route source from router.routing_table }
    else router

pub data ForwardTargets : Type 0 where
  to_neighbors : List NodeId → ForwardTargets
  unicast : NodeId → ForwardTargets
  no_target : ForwardTargets

-- `rt.get_next_hop(node).unwrap_or_else(|| node.clone())`.
unfoldable pub hop_for : NodeId → Router → NodeId
hop_for node router = elim (get_next_hop node router.routing_table) [ none ↦ node | some hop ↦ hop ]

unfoldable pub forward_targets : OverlayEnvelope → NodeId → Router → ForwardTargets
forward_targets envelope from router =
    if is_broadcast envelope.to
    then to_neighbors (
        retain (λ id. not (is_same id from) && not (is_same id router.local_node_id))
          router.routing_table.connected_nodes)
    else if is_same envelope.to router.local_node_id
    then no_target
    else unicast (hop_for envelope.to router)

-- A strategy's `handle_message`.
abbrev pub Strategy : Type 0
Strategy = NodeId → ℕ → List ℕ → List OverlayAction

unfoldable pub handle_overlay_message : List Strategy → NodeId → ℕ → List ℕ → List OverlayAction
handle_overlay_message [] from message_type payload = []
handle_overlay_message (strategy ∷ strategies) from message_type payload =
    strategy from message_type payload
    ++ handle_overlay_message strategies from message_type payload

unfoldable pub deliver_to_strategies : List Strategy → OverlayEnvelope → Router → List OverlayAction
deliver_to_strategies strategies envelope router =
    if is_broadcast envelope.to || is_same envelope.to router.local_node_id
    then elim envelope.content [
      | overlay_content m ↦ handle_overlay_message strategies envelope.from m.message_type m.payload
      | _ ↦ []
    ]
    else []

-- `bincode` of an envelope, with its error as the `Internal` that the senders make of it.
abbrev pub Serialize : Type 0
Serialize = OverlayEnvelope → Result (List ℕ)

unfoldable pub send_all : List NodeId → List ℕ → DeliveryMethod → SendLane → List OverlayAction
send_all targets bytes method lane = map (λ to. send_message to bytes method lane) targets

unfoldable pub forward_to : ForwardTargets → List ℕ → DeliveryMethod → SendLane → List OverlayAction
forward_to (to_neighbors neighbors) bytes method lane = send_all neighbors bytes method lane
forward_to (unicast hop) bytes method lane = send_message hop bytes method lane ∷ []
forward_to no_target bytes method lane = []

-- `hop_count -= 1` on a `u32`, behind a test that it is not 0.
unfoldable pub relayed : OverlayEnvelope → OverlayEnvelope
relayed envelope = record envelope { hop_count = (envelope.hop_count + 4294967295) % 4294967296 }

unfoldable pub forward_actions :
    Serialize → OverlayEnvelope → ForwardTargets → Router → List OverlayAction
forward_actions serialize envelope no_target router = []
forward_actions serialize envelope targets router =
    let lane = classify envelope.content (is_broadcast envelope.to) in
    let method = storage_delivery reliable_ordered lane envelope.seq router.bulk_channel in
    elim (serialize (relayed envelope)) [
      | err _ ↦ []
      | ok bytes ↦ forward_to targets bytes method lane
    ]

pub record HandleEnvelopeResult : Type 0 where
  pub actions : List OverlayAction
  pub should_deliver : Bool

unfoldable pub handle_fresh :
    Serialize → List Strategy → OverlayEnvelope → NodeId → Router → List OverlayAction
handle_fresh serialize strategies envelope from router =
    deliver_to_strategies strategies envelope router
    ++ (if ltb 0 envelope.hop_count
        then forward_actions serialize envelope (forward_targets envelope from router) router
        else [])

unfoldable pub handle_envelope :
    Serialize
    → List Strategy
    → OverlayEnvelope
    → NodeId
    → ℕ
    → Router
    → HandleEnvelopeResult × Router
handle_envelope serialize strategies envelope from now router =
    let (was_suspect, health) = note_inbound_activity from router.health in
    let cleared = if was_suspect then clear_suspect from ∷ [] else [] in
    let (is_new, marked) = mark_seen envelope now (record router { health = health }) in
    if is_new
    then (
      record {
        actions = cleared ++ handle_fresh serialize strategies envelope from marked;
        should_deliver = true;
      },
      marked,
    )
    else (record { actions = cleared; should_deliver = false }, marked)

-- The closure of `dispatch_data_via`, for a number: what it hands to `commit`, and what it returns, with
-- the cache afterwards.
unfoldable pub build_frame :
    {T : Type 0}
    → Serialize
    → (ℕ → Result Unit)
    → (OverlayAction → Result T)
    → ℕ
    → NodeId
    → Option NodeId
    → List ℕ
    → DeliveryMethod
    → ℕ
    → Router
    → ℕ
    → List OverlayAction × Result (T × Router)
build_frame serialize validate commit msg_id to next_hop bytes method now router seq =
    let lane = classify (raw bytes) (is_broadcast to) in
    let chosen = storage_delivery method lane seq router.bulk_channel in
    let envelope =
      with_seq seq (new_envelope msg_id router.local_node_id to router.hop_count (raw bytes)) in
    elim (serialize envelope) [
      | err e ↦ ([], err e)
      | ok encoded ↦ elim (validate (length encoded)) [
        | err e ↦ ([], err e)
        | ok _ ↦
            let action =
              send_message (elim next_hop [ none ↦ hop_for to router | some hop ↦ hop ]) encoded
                chosen lane in
            (
              action ∷ [],
              elim (commit action) [
                | err e ↦ err e
                | ok t ↦ ok (t, remember_outgoing envelope now router)
              ],
            )
      ]
    ]

-- Whether a frame takes the next number of its destination.
unfoldable pub is_sequenced : NodeId → List ℕ → DeliveryMethod → Router → Bool
is_sequenced to bytes method router =
    is_reliable_ordered method
    && (not (is_broadcast to)
        && not (router.unsequenced_bulk && is_bulk (classify (raw bytes) (is_broadcast to))))

-- The closure's effect on the router is in its result; without one the router is as it was.
unfoldable pub keep : {T : Type 0} → Result (T × Router) → SeqCounters → Router → Result T × Router
keep (err e) counters router = (err e, router)
keep (ok (t, after)) counters router = (ok t, record after { seq_counters = counters })

-- What is handed to the transport, what is returned, and the router. `with_next_seq` runs the closure
-- once, with the next number of the destination.
unfoldable pub dispatch_data_via :
    {T : Type 0}
    → Serialize
    → (ℕ → Result Unit)
    → (OverlayAction → Result T)
    → ℕ
    → NodeId
    → Option NodeId
    → List ℕ
    → DeliveryMethod
    → ℕ
    → Router
    → List OverlayAction × (Result T × Router)
dispatch_data_via serialize validate commit msg_id to next_hop bytes method now router =
    let build = build_frame serialize validate commit msg_id to next_hop bytes method now router in
    if is_sequenced to bytes method router
    then (let (result, counters) =
          with_next_seq to now (λ seq. (build seq).1) router.seq_counters in
        ((build (next_seq to router.seq_counters)).0, keep result counters router))
    else ((build 0).0, keep (build 0).1 router.seq_counters router)
