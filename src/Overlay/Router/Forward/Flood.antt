-- ===== src/Overlay/Router/Forward/Flood.antt =====
-- envelope.rs: where a broadcast goes from here, and how far.
use mistlib.Base.{
  ℕ, ◌+◌, ◌<◌, ◌≡◌, refl, List, [], ◌∷◌, true, false, not, ◌&&◌, retain, arith, All, Bool-cases,
  inl, inr,
}
use mistlib.Base.Sets.{All-contains}
use mistlib.Types.{NodeId, node_dec, is_broadcast, DeliveryMethod, SendLane}
use mistlib.Messages.{ok, OverlayEnvelope, OverlayAction, send_message, Result-cases}
use mistlib.Overlay.RoutingTable.{is_same, is_connected}
use mistlib.Overlay.Router.Forward.{
  Router, Serialize, forward_targets, forward_actions, relayed, forward_to, send_all, to_neighbors,
}

-- An envelope with one hop less, and all else the same.
abbrev pub OneHopLess : OverlayEnvelope → OverlayEnvelope → Type 0
OneHopLess envelope copy =
    (copy.hop_count + 1 ≡ envelope.hop_count)
    × (record copy { hop_count = envelope.hop_count } ≡ envelope)

-- A copy with one hop less, to a connected neighbour that is neither the one it came from nor this node.
abbrev pub IsCopy : Serialize → OverlayEnvelope → NodeId → Router → OverlayAction → Type 0
IsCopy serialize envelope from router (send_message to bytes method lane) =
    ((copy : OverlayEnvelope) × OneHopLess envelope copy × (serialize copy ≡ ok bytes))
    × (is_connected to router.routing_table ≡ true)
    × (is_same to from ≡ false)
    × (is_same to router.local_node_id ≡ false)
IsCopy serialize envelope from router _ = true ≡ false

relayed-OneHopLess :
    (envelope : OverlayEnvelope)
    → 0 < envelope.hop_count
    → envelope.hop_count < 4294967296
    → OneHopLess envelope (relayed envelope)
unfolding relayed
relayed-OneHopLess envelope some_left word = (omega arith, refl)

abbrev IsTarget : NodeId → Router → NodeId → Type 0
IsTarget from router to =
    (is_connected to router.routing_table ≡ true)
    × (is_same to from ≡ false)
    × (is_same to router.local_node_id ≡ false)

kept-IsTarget :
    (from : NodeId) (router : Router) (ids : List NodeId)
    → All (λ id. is_connected id router.routing_table ≡ true) ids
    → All
        (IsTarget from router)
        (retain (λ id. not (is_same id from) && not (is_same id router.local_node_id)) ids)
kept-IsTarget from router [] h = tt
kept-IsTarget from router (id ∷ ids) h =
    elim (Bool-cases (not (is_same id from) && not (is_same id router.local_node_id))) [
      | inl e ↦
          let target : IsTarget from router id = ground (arith, e, h.0) in
          rw e (target, kept-IsTarget from router ids h.1)
      | inr e ↦ rw e (kept-IsTarget from router ids h.1)
    ]

send_all-IsCopy :
    (serialize : Serialize) (envelope : OverlayEnvelope) (from : NodeId) (router : Router)
    (bytes : List ℕ) (method : DeliveryMethod) (lane : SendLane) (ids : List NodeId)
    → OneHopLess envelope (relayed envelope)
    → serialize (relayed envelope) ≡ ok bytes
    → All (IsTarget from router) ids
    → All (IsCopy serialize envelope from router) (send_all ids bytes method lane)
unfolding send_all
send_all-IsCopy serialize envelope from router bytes method lane [] less e h = tt
send_all-IsCopy serialize envelope from router bytes method lane (id ∷ ids) less e h =
    let ((link, other, away), rest) = h in
    (
      ((relayed envelope, less, e), link, other, away),
      send_all-IsCopy serialize envelope from router bytes method lane ids less e rest,
    )

forward_actions-IsCopy :
    (serialize : Serialize) (envelope : OverlayEnvelope) (from : NodeId) (router : Router)
    (ids : List NodeId)
    → OneHopLess envelope (relayed envelope)
    → All (IsTarget from router) ids
    → All
        (IsCopy serialize envelope from router)
        (forward_actions serialize envelope (to_neighbors ids) router)
unfolding forward_actions forward_to
forward_actions-IsCopy serialize envelope from router ids less h =
    elim (Result-cases (serialize (relayed envelope))) [
      | inl (failure, e) ↦ rw (e, forward_actions) tt
      | inr (bytes, e) ↦
          rw (e, forward_actions)
            (send_all-IsCopy serialize envelope from router bytes _ _ ids less e h)
    ]

-- A broadcast with hops left is forwarded as copies that have one hop less and are else the same, each to
-- a connected neighbour: none goes back to the neighbour that handed it over, and none to the node
-- itself. The hops are a word of 32 bits.
pub broadcast-IsCopy :
    (serialize : Serialize) (envelope : OverlayEnvelope) (from : NodeId) (router : Router)
    → is_broadcast envelope.to ≡ true
    → 0 < envelope.hop_count
    → envelope.hop_count < 4294967296
    → All
        (IsCopy serialize envelope from router)
        (forward_actions serialize envelope (forward_targets envelope from router) router)
unfolding forward_targets
broadcast-IsCopy serialize envelope from router e some_left word =
    rw (e, forward_targets)
      (forward_actions-IsCopy serialize envelope from router _
        (relayed-OneHopLess envelope some_left word)
        (kept-IsTarget from router router.routing_table.connected_nodes
          (All-contains node_dec router.routing_table.connected_nodes)))
