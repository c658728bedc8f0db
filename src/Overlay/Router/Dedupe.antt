-- ===== src/Overlay/Router/Dedupe.antt =====
-- mistlib-core/src/overlay/router/dedupe.rs: the envelopes that a node has handled.
use Prim.Derive.{×_discrete}
use mistlib.Base.{ℕ, Bool, true, ◌==◌, if◌then◌else◌, ℕ_discrete}
use mistlib.Types.{NodeId, node_dec}
use mistlib.Util.{TtlCache, admit}

-- 30 s, in milliseconds.
abbrev pub overlay_seen_ttl : ℕ
overlay_seen_ttl = 30000

abbrev pub overlay_seen_max_entries : ℕ
overlay_seen_max_entries = 4096

abbrev pub OverlaySeenCache : Type 0
OverlaySeenCache = TtlCache (NodeId × ℕ)

abbrev pub seen_dec : Discrete (NodeId × ℕ)
seen_dec = ×_discrete node_dec ℕ_discrete

unfoldable pub check_and_insert : NodeId → ℕ → ℕ → OverlaySeenCache → Bool × OverlaySeenCache
check_and_insert from msg_id now cache =
    if msg_id == 0 then (true, cache) else admit seen_dec (from, msg_id) now cache
