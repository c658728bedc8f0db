-- ===== src/Overlay/RoutingTable/Sync.antt =====
-- routing_table.rs and `sync_connected_nodes`: what is connected afterwards, and which routes are left.
use mistlib.Base.{
  ◌≡◌, refl, List, [], ◌∷◌, some, not, ◌||◌, ◌&&◌, retain, if◌then◌else◌, true, false, arith,
  Bool-cases, inl, inr, All, All-retain,
}
use mistlib.Base.Sets.{contains, contains-insert, contains-remove}
use mistlib.Types.{NodeId, node_dec}
use mistlib.Overlay.RoutingTable.{
  RoutingTable, is_same, is_connected, on_connected, on_disconnected, get_next_hop, connect_all,
  disconnect_missing, sync_connected_nodes,
}

-- Whatever the table, the next hop for a node is a connected one.
pub get_next_hop-connected :
    (node hop : NodeId) (table : RoutingTable)
    → get_next_hop node table ≡ some hop
    → is_connected hop table ≡ true
unfolding get_next_hop
get_next_hop-connected node hop table h = ground arith

connect_all-connected :
    (id : NodeId) (ids : List NodeId) (table : RoutingTable)
    → is_connected id (connect_all ids table) ≡ contains node_dec id ids || is_connected id table
unfolding connect_all on_connected
connect_all-connected id [] table = refl
connect_all-connected id (x ∷ ids) table = ground (
  arith,
  connect_all-connected id ids (on_connected x table),
  contains-insert node_dec x id table.connected_nodes,
)

connect_all-routes :
    (ids : List NodeId) (table : RoutingTable) → (connect_all ids table).routes ≡ table.routes
unfolding connect_all on_connected
connect_all-routes [] table = refl
connect_all-routes (x ∷ ids) table = connect_all-routes ids (on_connected x table)

disconnect_missing-connected :
    (id : NodeId) (snapshot previous : List NodeId) (table : RoutingTable)
    → is_connected id (disconnect_missing snapshot previous table) ≡ (
        if contains node_dec id previous && not (contains node_dec id snapshot)
        then false
        else is_connected id table)
unfolding disconnect_missing on_disconnected
disconnect_missing-connected id snapshot [] table = refl
disconnect_missing-connected id snapshot (x ∷ previous) table =
    elim (Bool-cases (contains node_dec x snapshot)) [
      | inl e ↦
          rw (e, disconnect_missing)
            (ground (arith, disconnect_missing-connected id snapshot previous table))
      | inr e ↦
          rw (e, disconnect_missing)
            (ground (
              arith,
              disconnect_missing-connected id snapshot previous (on_disconnected x table),
              contains-remove node_dec x id table.connected_nodes,
            ))
    ]

-- Just the nodes of the snapshot are connected after a synchronisation.
pub sync_connected_nodes-connected :
    (id : NodeId) (snapshot : List NodeId) (table : RoutingTable)
    → is_connected id (sync_connected_nodes snapshot table) ≡ contains node_dec id snapshot
unfolding sync_connected_nodes
sync_connected_nodes-connected id snapshot table = ground (
  arith,
  disconnect_missing-connected id snapshot table.connected_nodes (connect_all snapshot table),
  connect_all-connected id snapshot table,
)

-- No route leads to the node, or by way of it.
abbrev pub NoRoute : NodeId → RoutingTable → Type 0
NoRoute id table = All (λ e. (is_same e.0 id ≡ false) × (is_same e.1 id ≡ false)) table.routes

retain-NoRoute :
    (id : NodeId) (routes : List (NodeId × NodeId))
    → All
        (λ e. (is_same e.0 id ≡ false) × (is_same e.1 id ≡ false))
        (retain (λ e. not (is_same e.0 id) && not (is_same e.1 id)) routes)
retain-NoRoute id [] = tt
retain-NoRoute id ((target, hop) ∷ routes) = ground (arith, retain-NoRoute id routes)

disconnect_missing-keeps :
    (id : NodeId) (snapshot previous : List NodeId) (table : RoutingTable)
    → NoRoute id table
    → NoRoute id (disconnect_missing snapshot previous table)
unfolding disconnect_missing on_disconnected
disconnect_missing-keeps id snapshot [] table h = h
disconnect_missing-keeps id snapshot (x ∷ previous) table h =
    disconnect_missing-keeps id snapshot previous _
      (elim (Bool-cases (contains node_dec x snapshot)) [
        | inl e ↦ rw e h
        | inr e ↦ rw e (All-retain _ _ table.routes h)
      ])

disconnect_missing-NoRoute :
    (id : NodeId) (snapshot previous : List NodeId) (table : RoutingTable)
    → contains node_dec id previous ≡ true
    → contains node_dec id snapshot ≡ false
    → NoRoute id (disconnect_missing snapshot previous table)
unfolding disconnect_missing on_disconnected
disconnect_missing-NoRoute id snapshot [] table was gone = cc
disconnect_missing-NoRoute id snapshot (x ∷ previous) table was gone = elim (node_dec x id) [
  | yes p ↦
      let e : contains node_dec x snapshot ≡ false = rw p gone in
      rw (e, disconnect_missing)
        (disconnect_missing-keeps id snapshot previous (on_disconnected x table)
          (rw p (retain-NoRoute id table.routes)))
  | no n ↦ disconnect_missing-NoRoute id snapshot previous _ (ground arith) gone
]

-- A node that was connected and is missing from the snapshot loses its routes: none leads to it, and
-- none goes by way of it.
pub sync_connected_nodes-routes :
    (id : NodeId) (snapshot : List NodeId) (table : RoutingTable)
    → is_connected id table ≡ true
    → contains node_dec id snapshot ≡ false
    → NoRoute id (sync_connected_nodes snapshot table)
unfolding sync_connected_nodes
sync_connected_nodes-routes id snapshot table was gone =
    disconnect_missing-NoRoute id snapshot table.connected_nodes (connect_all snapshot table) was
      gone
