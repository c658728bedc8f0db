-- ===== src/Signaling/Nostr/Dedupe.antt =====
-- mistlib-core/src/signaling/nostr/dedupe.rs: the relay events that a client has seen.
use mistlib.Base.{ℕ, Bool, String, String_discrete}
use mistlib.Util.{TtlCache, new_cache, admit}

abbrev pub default_max_entries : ℕ
default_max_entries = 4096

abbrev pub DedupeCache : Type 0
DedupeCache = TtlCache String

unfoldable pub new_dedupe : ℕ → DedupeCache
new_dedupe ttl = new_cache ttl default_max_entries

unfoldable pub check_and_insert : String → ℕ → DedupeCache → Bool × DedupeCache
check_and_insert event_id now cache = admit String_discrete event_id now cache
