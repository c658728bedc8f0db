-- ===== src/Storage/Wants/State.antt =====
-- `WantState` of storage/protocol.rs. The receiver of a channel is outside of the registry: whether the
-- one of an attempt is `closed`, and whether the resets of a queried path are still `watched`, are
-- arguments, which an operation sees unchanged. What is sent on a one-shot channel is a notice.
use mistlib.Base.{
  ℕ, List, [], ◌∷◌, ◌++◌, Option, none, some, Bool, false, not, ◌&&◌, ltb, String, String_discrete,
  if◌then◌else◌, any, retain, map,
}
use mistlib.Base.Words.{add64}
use mistlib.Base.Maps.{get, insert, remove}
use mistlib.Base.Sets.{contains}
use mistlib.Types.{NodeId, node_dec}
use mistlib.Storage.Wants.Order.{pair_dec}

pub record ChunkProgress : Type 0 where
  pub received : ℕ
  pub accepted : ℕ
  pub last_accepted : Option ℕ

-- `tx` and the sender of an error are known by `id`.
pub record PendingWant : Type 0 where
  pub id : ℕ
  pub paths : List String
  pub resets : ℕ
  pub progress : ChunkProgress
  pub peers : List NodeId
  pub byte_limit : Option ℕ

pub record ChunkAssembly : Type 0 where
  pub total_chunks : ℕ
  pub received_chunks : ℕ
  pub bytes : ℕ
  pub chunks : List (Option (List ℕ))

-- The CID, the sender and the room.
abbrev pub AssemblyKey : Type 0
AssemblyKey = String × (NodeId × String)

unfoldable pub key_dec : Discrete AssemblyKey
unfolding pair_dec String_discrete
key_dec = pair_dec String_discrete (pair_dec String_discrete String_discrete)

abbrev pub PathKey : Type 0
PathKey = String × NodeId

unfoldable pub path_dec : Discrete PathKey
unfolding pair_dec String_discrete
path_dec = pair_dec String_discrete String_discrete

abbrev pub Pending : Type 0
Pending = List (String × List PendingWant)

abbrev pub Assemblies : Type 0
Assemblies = List (AssemblyKey × ChunkAssembly)

pub record WantState : Type 0 where
  pub pending : Pending
  pub assemblies : Assemblies
  pub next_attempt : ℕ
  pub progress : List (NodeId × ℕ)
  pub sender_activity : List (NodeId × ℕ)
  pub any_progress : ℕ
  pub query_paths : List (PathKey × ℕ)

pub data Notice : Type 0 where
  -- the block for an attempt
  completed : ℕ → List ℕ → Notice
  -- the size that was more than an attempt allows
  oversized : ℕ → ℕ → Notice

abbrev pub empty_state : WantState
empty_state = record {
  pending = [];
  assemblies = [];
  next_attempt = 0;
  progress = [];
  sender_activity = [];
  any_progress = 0;
  query_paths = [];
}

-- `want.peers.contains(sender) && want.paths.contains(room)`.
unfoldable pub is_asked : NodeId → String → PendingWant → Bool
is_asked sender room want =
    contains String_discrete sender want.peers && contains String_discrete room want.paths

-- `pending.get(cid)`, with no wants for a missing key.
unfoldable pub wants_of : String → Pending → List PendingWant
wants_of cid pending = elim (get String_discrete cid pending) [ none ↦ [] | some wants ↦ wants ]

-- All wants, in the order of the iteration: `values().flatten()`.
unfoldable pub flatten : Pending → List PendingWant
flatten [] = []
flatten ((cid, wants) ∷ m) = wants ++ flatten m

-- The peers of all wants.
unfoldable pub is_candidate : NodeId → List PendingWant → Bool
is_candidate sender wants = any (λ want. contains String_discrete sender want.peers) wants

unfoldable pub prune_wants : (ℕ → Bool) → Pending → Pending
prune_wants closed [] = []
prune_wants closed ((cid, wants) ∷ m) =
    let rest = prune_wants closed m in
    elim (retain (λ want. not (closed want.id)) wants) [
      | [] ↦ rest
      | want ∷ others ↦ (cid, want ∷ others) ∷ rest
    ]

unfoldable pub is_wanted : Pending → AssemblyKey × ChunkAssembly → Bool
is_wanted pending ((cid, (sender, room)), entry) = any (is_asked sender room) (wants_of cid pending)

-- The entries of the peers that some want names.
abbrev pub from_candidates : Pending → List (NodeId × ℕ) → List (NodeId × ℕ)
from_candidates pending entries = retain (λ e. is_candidate e.0 (flatten pending)) entries

-- A want that asks this sender on this path and allows fewer bytes.
unfoldable pub exceeds : NodeId → String → ℕ → PendingWant → Bool
exceeds sender room bytes want =
    is_asked sender room want
    && elim want.byte_limit [ none ↦ false | some limit ↦ ltb limit bytes ]

-- The wants without those of a CID, which then get back what remains of them.
unfoldable pub left_over : String → List PendingWant → Pending → Pending
left_over cid [] m = remove String_discrete cid m
left_over cid (want ∷ others) m =
    insert String_discrete cid (want ∷ others) (remove String_discrete cid m)

module _ (closed : ℕ → Bool) (watched : PathKey → Bool) where
  unfoldable pub accepts : String → NodeId → String → WantState → Bool
  accepts cid sender room s =
      any (λ want. not (closed want.id) && is_asked sender room want) (wants_of cid s.pending)

  unfoldable pub prune : WantState → WantState
  prune s =
      let pending = prune_wants closed s.pending in
      record s {
        query_paths = retain (λ e. watched e.0) s.query_paths;
        pending = pending;
        assemblies = retain (is_wanted pending) s.assemblies;
        progress = from_candidates pending s.progress;
        sender_activity = elim s.progress [
          | [] ↦ s.sender_activity
          | _ ∷ _ ↦ from_candidates pending s.sender_activity
        ];
      }

  -- The wants that allow fewer bytes are told so, and leave.
  unfoldable pub enforce_byte_limits :
      String → NodeId → String → ℕ → WantState → List Notice × WantState
  enforce_byte_limits cid sender room bytes s = elim (get String_discrete cid s.pending) [
    | none ↦ ([], prune s)
    | some wants ↦
        let kept = retain (λ want. not (exceeds sender room bytes want)) wants in
        (
          map (λ want. oversized want.id bytes) (retain (exceeds sender room bytes) wants),
          prune (record s { pending = insert String_discrete cid kept s.pending }),
        )
  ]

  -- Waiters that did not ask this sender on this path stay.
  unfoldable pub fulfill : String → NodeId → String → List ℕ → WantState → List Notice × WantState
  fulfill cid sender room block s = elim (get String_discrete cid s.pending) [
    | none ↦ ([], s)
    | some wants ↦
        let remaining = retain (λ want. not (is_asked sender room want)) wants in
        (
          map (λ want. completed want.id block) (retain (is_asked sender room) wants),
          prune (record s { pending = left_over cid remaining s.pending }),
        )
  ]

unfoldable pub count_chunk : ℕ → Bool → ChunkProgress → ChunkProgress
count_chunk now accepted progress =
    if accepted
    then record progress { accepted = add64 progress.accepted 1; last_accepted = some now }
    else record progress { received = add64 progress.received 1 }

unfoldable pub observe : ℕ → String → NodeId → String → Bool → WantState → WantState
observe now cid sender room accepted s = elim (get String_discrete cid s.pending) [
  | none ↦ s
  | some wants ↦ record s {
    pending =
        insert String_discrete cid
          (map
            (λ want.
              if is_asked sender room want
              then record want { progress = count_chunk now accepted want.progress }
              else want)
            wants)
          s.pending;
  }
]

abbrev pub counter_of : NodeId → List (NodeId × ℕ) → ℕ
counter_of sender counters = elim (get node_dec sender counters) [ none ↦ 0 | some n ↦ n ]

unfoldable pub advance_progress : ℕ → NodeId → WantState → WantState
advance_progress now sender s = record s {
  sender_activity = insert node_dec sender now s.sender_activity;
  any_progress = add64 s.any_progress 1;
  progress = insert node_dec sender (add64 (counter_of sender s.progress) 1) s.progress;
}
