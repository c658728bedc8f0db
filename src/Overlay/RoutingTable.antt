-- ===== src/Overlay/RoutingTable.antt =====
-- mistlib-core/src/overlay/routing_table.rs, with the synchronisation of router.rs.
pub mod Sync
use mistlib.Base.{
  List, [], ◌∷◌, Option, none, some, Bool, not, ◌||◌, ◌&&◌, retain, if◌then◌else◌, ite, true, false,
}
use mistlib.Base.Maps
use mistlib.Base.Sets.{contains, insert, remove}
use mistlib.Types.{NodeId, node_dec, ConnectionState, connected}

pub record RoutingTable : Type 0 where
  pub connected_nodes : List NodeId
  pub routes : List (NodeId × NodeId)

unfoldable pub new_table : RoutingTable
new_table = record { connected_nodes = []; routes = [] }

abbrev pub is_same : NodeId → NodeId → Bool
is_same a b = ite (node_dec a b) true false

abbrev pub is_connected : NodeId → RoutingTable → Bool
is_connected id table = contains node_dec id table.connected_nodes

unfoldable pub on_connected : NodeId → RoutingTable → RoutingTable
on_connected id table = record table { connected_nodes = insert node_dec id table.connected_nodes }

unfoldable pub on_disconnected : NodeId → RoutingTable → RoutingTable
on_disconnected id table = record table {
  connected_nodes = remove node_dec id table.connected_nodes;
  routes = retain (λ e. not (is_same e.0 id) && not (is_same e.1 id)) table.routes;
}

unfoldable pub add_route : NodeId → NodeId → RoutingTable → RoutingTable
add_route target next_hop table =
    if is_same target next_hop || is_connected target table
    then table
    else record table { routes = Maps.insert node_dec target next_hop table.routes }

unfoldable pub remove_route : NodeId → RoutingTable → RoutingTable
remove_route target table = record table { routes = Maps.remove node_dec target table.routes }

unfoldable pub get_next_hop : NodeId → RoutingTable → Option NodeId
get_next_hop node table =
    if is_connected node table then some node else elim (Maps.get node_dec node table.routes) [
      | none ↦ none
      | some next_hop ↦ if is_connected next_hop table then some next_hop else none
    ]

-- `for id in connected`.
unfoldable pub connect_all : List NodeId → RoutingTable → RoutingTable
connect_all [] table = table
connect_all (id ∷ ids) table = connect_all ids (on_connected id table)

-- `for id in previous`.
unfoldable pub disconnect_missing : List NodeId → List NodeId → RoutingTable → RoutingTable
disconnect_missing snapshot [] table = table
disconnect_missing snapshot (id ∷ previous) table =
    disconnect_missing snapshot previous
      (if contains node_dec id snapshot then table else on_disconnected id table)

unfoldable pub sync_connected_nodes : List NodeId → RoutingTable → RoutingTable
sync_connected_nodes snapshot table =
    disconnect_missing snapshot table.connected_nodes (connect_all snapshot table)

-- `.filter(…).map(…).collect()` into a set.
unfoldable pub connected_ids : List (NodeId × ConnectionState) → List NodeId
connected_ids [] = []
connected_ids ((id, connected) ∷ states) = insert node_dec id (connected_ids states)
connected_ids ((id, _) ∷ states) = connected_ids states

unfoldable pub sync_connection_states :
    List (NodeId × ConnectionState) → RoutingTable → List NodeId × RoutingTable
sync_connection_states states table =
    let snapshot = connected_ids states in (snapshot, sync_connected_nodes snapshot table)
