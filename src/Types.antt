-- ===== src/Types.antt =====
-- mistlib-core/src/types.rs and the enums of mistlib-core/src/action.rs.
use mistlib.Base.{ℕ, Bool, true, false, String, String_discrete, ite, if◌then◌else◌, ◌==◌}

-- `NodeId(String)`; the empty name is the broadcast address.
abbrev pub NodeId : Type 0
NodeId = String

abbrev pub node_dec : Discrete NodeId
unfolding String_discrete
node_dec = String_discrete

abbrev pub broadcast : NodeId
broadcast = ""

unfoldable pub is_broadcast : NodeId → Bool
unfolding String_discrete
is_broadcast id = ite (String_discrete id broadcast) true false

pub data DeliveryMethod : Type 0 where
  reliable_ordered unreliable_ordered unreliable reliable_unordered : DeliveryMethod

-- The codes of the foreign interface; an unknown one is `Unreliable`.
unfoldable pub from_u32 : ℕ → DeliveryMethod
from_u32 v =
    if v == 0
    then reliable_ordered
    else if v == 1
    then unreliable_ordered
    else if v == 3
    then reliable_unordered
    else unreliable

pub data SendLane : Type 0 where
  general control bulk : SendLane

pub data ConnectionState : Type 0 where
  disconnected connecting connected reconnecting failed : ConnectionState
