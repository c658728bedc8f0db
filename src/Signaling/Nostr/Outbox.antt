-- ===== src/Signaling/Nostr/Outbox.antt =====
-- mistlib-core/src/signaling/nostr/outbox.rs: the bounded queue of discovery work. Instants and delays
-- are numbers of one unit.
pub mod Priority
use mistlib.Base.{
  ℕ, ◌+◌, ◌-◌, List, [], ◌∷◌, ◌++◌, Option, none, some, Bool, true, false, String, String_discrete,
  ite, length, ltb, leb, ◌==◌, max, if◌then◌else◌, not, retain, map,
}

abbrev pub capacity : ℕ
capacity = 32

-- 100 ms.
abbrev pub discovery_interval : ℕ
discovery_interval = 100

pub data DiscoveryPriority : Type 0 where
  reply probe ordinary : DiscoveryPriority

-- The derived order: the place in the declaration.
abbrev pub rank : DiscoveryPriority → ℕ
rank reply = 0
rank probe = 1
rank ordinary = 2

pub record DiscoveryRequest : Type 0 where
  pub pubkey : String
  pub priority : DiscoveryPriority
  pub delay : ℕ
  pub queued_at : ℕ

pub record DiscoveryOutbox : Type 0 where
  pub queue : List DiscoveryRequest
  pub last_send : Option ℕ

abbrev pub rank_of : DiscoveryRequest → ℕ
rank_of item = rank item.priority

-- The first with the key is promoted in its place.
unfoldable pub promote : String → List DiscoveryRequest → Option (List DiscoveryRequest)
promote pubkey [] = none
promote pubkey (item ∷ queue) = elim (String_discrete item.pubkey pubkey) [
  | yes _ ↦ some (record item { priority = reply; delay = 0 } ∷ queue)
  | no _ ↦ elim (promote pubkey queue) [ none ↦ none | some rest ↦ some (item ∷ rest) ]
]

unfoldable pub promote_reply : String → DiscoveryOutbox → Bool × DiscoveryOutbox
promote_reply pubkey box = elim (promote pubkey box.queue) [
  | none ↦ (false, box)
  | some queue ↦ (true, record box { queue = queue })
]

-- `iter().map(|item| item.priority).max()`; 0 of none.
abbrev pub lowest_of : List DiscoveryRequest → ℕ
lowest_of [] = 0
lowest_of (item ∷ queue) = max (rank_of item) (lowest_of queue)

-- `position` of a rank, then `remove`.
abbrev pub remove_ranked :
    ℕ → List DiscoveryRequest → Option (DiscoveryRequest × List DiscoveryRequest)
remove_ranked r [] = none
remove_ranked r (item ∷ queue) =
    let rest = remove_ranked r queue in
    if rank_of item == r
    then some (item, queue)
    else elim rest [ none ↦ none | some (found, others) ↦ some (found, item ∷ others) ]

abbrev pub enqueue : DiscoveryRequest → List DiscoveryRequest → DiscoveryOutbox → DiscoveryOutbox
enqueue item queue box = record box { queue = queue ++ (item ∷ []) }

-- The key that is dropped, if one is.
unfoldable pub push : DiscoveryRequest → DiscoveryOutbox → Option String × DiscoveryOutbox
push item box =
    if length box.queue == capacity
    then if ltb (lowest_of box.queue) (rank_of item)
      then (some item.pubkey, box)
      else elim (remove_ranked (lowest_of box.queue) box.queue) [
        | none ↦ (none, box)
        | some (dropped, others) ↦ (some dropped.pubkey, enqueue item others box)
      ]
    else (none, enqueue item box.queue box)

-- The least rank, by the first that has it.
unfoldable pub next_item : List DiscoveryRequest → Option DiscoveryRequest
next_item [] = none
next_item (item ∷ queue) = elim (next_item queue) [
  | none ↦ some item
  | some other ↦ if leb (rank_of item) (rank_of other) then some item else some other
]

abbrev pub is_ordinary : DiscoveryPriority → Bool
is_ordinary ordinary = true
is_ordinary _ = false

abbrev pub or_at : Option ℕ → ℕ → ℕ
or_at none t = t
or_at (some last) t = last

abbrev pub paced : Option ℕ → ℕ → ℕ
paced none now = now
paced (some last) now = last + discovery_interval

unfoldable pub deadline : DiscoveryRequest → Option ℕ → ℕ → ℕ
deadline item last_send now =
    if is_ordinary item.priority
    then or_at last_send item.queued_at + max item.delay discovery_interval
    else paced last_send now

unfoldable pub delay_until : ℕ → DiscoveryOutbox → Option ℕ
delay_until now box = elim (next_item box.queue) [
  | none ↦ none
  | some item ↦ some (deadline item box.last_send now - now)
]

unfoldable pub pop : ℕ → DiscoveryOutbox → Option DiscoveryRequest × DiscoveryOutbox
pop now box = elim (next_item box.queue) [
  | none ↦ (none, box)
  | some item ↦
      if deadline item box.last_send now - now == 0
      then elim (remove_ranked (rank_of item) box.queue) [
        | none ↦ (none, box)
        | some (found, others) ↦ (some found, record { queue = others; last_send = some now })
      ]
      else (none, box)
]

unfoldable pub sent : ℕ → DiscoveryOutbox → DiscoveryOutbox
sent now box = record box { last_send = some now }

unfoldable pub is_probe : DiscoveryRequest → Bool
is_probe item = rank_of item == 1

unfoldable pub stop_probes : DiscoveryOutbox → List String × DiscoveryOutbox
stop_probes box = (
  map (λ item. item.pubkey) (retain is_probe box.queue),
  record box { queue = retain (λ item. not (is_probe item)) box.queue },
)
