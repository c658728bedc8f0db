-- ===== src/Storage/Wants/Registry.antt =====
-- The operations of `WantRegistry` in storage/protocol.rs on wants and chunks. One lock makes each of
-- them one step. `none` is a panic: an index out of range, or `unwrap` of a chunk that is missing.
use mistlib.Base.{
  get_elem?, ℕ, zero, suc, ◌+◌, ◌%◌, List, [], ◌∷◌, ◌++◌, Option, none, some, Bool, true, false,
  not, ◌&&◌, ◌||◌, ltb, leb, ◌==◌, String, if◌then◌else◌, is_some, length,
}
use mistlib.Base.Words.{add64, sat_add64}
use mistlib.Base.Maps.{get, insert, remove}
use mistlib.Types.{NodeId}
use mistlib.Storage.Wants.State.{
  ChunkAssembly, AssemblyKey, PathKey, key_dec, Assemblies, WantState, Notice, accepts, prune,
  enforce_byte_limits, fulfill, observe, advance_progress,
}

abbrev pub max_want_block_bytes : ℕ
max_want_block_bytes = 8388608

abbrev pub max_want_assembly_bytes : ℕ
max_want_assembly_bytes = 67108864

abbrev pub max_want_chunks : ℕ
max_want_chunks = 8192

abbrev pub max_want_assemblies : ℕ
max_want_assemblies = 256

abbrev pub max_pending_wants : ℕ
max_pending_wants = 1024

abbrev pub max_want_peers : ℕ
max_want_peers = 1024

-- `StorageCounters`, which wrap around.
pub record StorageCounters : Type 0 where
  pub accepted_chunks : ℕ
  pub accepted_bytes : ℕ
  pub duplicate_chunks : ℕ
  pub duplicate_bytes : ℕ
  pub rejected_chunks : ℕ
  pub blocks_completed : ℕ
  pub want_sent : ℕ
  pub query_sent : ℕ
  pub have_status_received : ℕ
  pub responder_chunks_submitted : ℕ
  pub responder_bytes_submitted : ℕ
  pub responder_write_errors : ℕ
  pub responder_route_retries : ℕ
  pub responder_route_recoveries : ℕ

unfoldable pub accepted : ℕ → StorageCounters → StorageCounters
accepted bytes c = record c {
  accepted_chunks = add64 c.accepted_chunks 1;
  accepted_bytes = add64 c.accepted_bytes bytes;
}

unfoldable pub duplicate : ℕ → StorageCounters → StorageCounters
duplicate bytes c = record c {
  duplicate_chunks = add64 c.duplicate_chunks 1;
  duplicate_bytes = add64 c.duplicate_bytes bytes;
}

unfoldable pub rejected : StorageCounters → StorageCounters
rejected c = record c { rejected_chunks = add64 c.rejected_chunks 1 }

unfoldable pub completed_block : StorageCounters → StorageCounters
completed_block c = record c { blocks_completed = add64 c.blocks_completed 1 }

-- A notifier is known by the number of its channel.
pub record WantRegistry : Type 0 where
  pub state : WantState
  pub counters : StorageCounters
  pub peer_cache : List (String × List NodeId)
  pub peer_notifiers : List (String × List ℕ)
  pub room_peer_notifiers : List (PathKey × List ℕ)

unfoldable pub reject : WantRegistry → WantRegistry
unfolding rejected
reject r = record r { counters = rejected r.counters }

abbrev pub bytes_of : Assemblies → ℕ
bytes_of [] = 0
bytes_of ((key, entry) ∷ m) = add64 entry.bytes (bytes_of m)

module _ {A : Type 0} where
  abbrev pub set : List A → ℕ → A → List A
  set [] i v = []
  set (x ∷ xs) zero v = v ∷ xs
  set (x ∷ xs) (suc i) v = x ∷ set xs i v

  abbrev pub replicate : ℕ → A → List A
  replicate zero v = []
  replicate (suc n) v = v ∷ replicate n v

-- `(0..chunk_total).map(|_| None).collect()`.
unfoldable pub new_assembly : ℕ → ChunkAssembly
new_assembly chunk_total = record {
  total_chunks = chunk_total;
  received_chunks = 0;
  bytes = 0;
  chunks = replicate chunk_total none;
}

-- A chunk at an index in range.
unfoldable pub store_chunk : ℕ → List ℕ → ChunkAssembly → ChunkAssembly
store_chunk index block entry = record entry {
  bytes = add64 entry.bytes (length block);
  chunks = set entry.chunks index (some block);
  received_chunks = (entry.received_chunks + 1) % 65536;
}

-- The loop that appends the chunks, each of which is unwrapped.
unfoldable pub assembled : List (Option (List ℕ)) → Option (List ℕ)
assembled [] = some []
assembled (none ∷ chunks) = none
assembled (some part ∷ chunks) = elim (assembled chunks) [
  | none ↦ none
  | some rest ↦ some (part ++ rest)
]

-- The chunk that is there at an index: `none` if the index is out of range.
abbrev pub chunk_at : ℕ → ChunkAssembly → Option (Option (List ℕ))
chunk_at index entry = get_elem? entry.chunks index

abbrev pub Outcome : Type 0
Outcome = Option (List Notice × WantRegistry)

-- What was sent before.
unfoldable pub prepend : List Notice → Outcome → Outcome
prepend errors none = none
prepend errors (some (notices, r)) = some (errors ++ notices, r)

module _ (closed : ℕ → Bool) (watched : PathKey → Bool) where
  -- `fulfill_in` and `fulfill_slice_in`.
  unfoldable pub fulfill_data_in :
      ℕ → String → String → NodeId → List ℕ → WantRegistry → List Notice × WantRegistry
  fulfill_data_in now room cid sender block r =
      let seen = observe now cid sender room false (prune closed watched r.state) in
      let (errors, s) = enforce_byte_limits closed watched cid sender room (length block) seen in
      if leb (length block) max_want_block_bytes && accepts closed watched cid sender room s
      then (let counted = advance_progress now sender (observe now cid sender room true s) in
          let (notices, after) = fulfill closed watched cid sender room block counted in
          (
            errors ++ notices,
            record r {
              state = after;
              counters = completed_block (accepted (length block) r.counters);
            },
          ))
      else (errors, reject (record r { state = s }))

  -- The last part of `fulfill_chunk_data_in`: the chunk is stored, and may complete the block.
  unfoldable pub admit_chunk : ℕ → AssemblyKey → ℕ → List ℕ → ChunkAssembly → WantRegistry → Outcome
  admit_chunk now (cid, (sender, room)) index block entry r =
      let entry' = store_chunk index block entry in
      let counters = accepted (length block) r.counters in
      let stored = record r.state {
        assemblies = insert key_dec (cid, (sender, room)) entry' r.state.assemblies;
      } in
      let counted = advance_progress now sender (observe now cid sender room true stored) in
      elim (chunk_at index entry) [
        | none ↦ none
        | some _ ↦ elim (entry'.received_chunks == entry'.total_chunks) [
          | false ↦ some ([], record r { state = counted; counters = counters })
          | true ↦ elim (assembled entry'.chunks) [
            | none ↦ none
            | some full ↦
                let (notices, after) = fulfill closed watched cid sender room full (record counted {
                  assemblies = remove key_dec (cid, (sender, room)) counted.assemblies;
                }) in
                some (notices, record r { state = after; counters = completed_block counters })
          ]
        ]
      ]

  -- The three tests that reject a chunk: of the want and the block, of the number of assemblies, and
  -- of their bytes.
  unfoldable pub is_over_limits :
      String → NodeId → String → ℕ → List ℕ → Option ChunkAssembly → WantState → Bool
  is_over_limits cid sender room bytes block found s =
      not (accepts closed watched cid sender room s)
      || (ltb max_want_block_bytes bytes
          || (not (is_some found) && leb max_want_assemblies (length s.assemblies)
              || ltb max_want_assembly_bytes (add64 (bytes_of s.assemblies) (length block))))

  -- The middle part: what limits the bytes and the number of assemblies.
  unfoldable pub limit_chunk :
      ℕ → AssemblyKey → ℕ → ℕ → List ℕ → Option ChunkAssembly → WantRegistry → Outcome
  limit_chunk now (cid, (sender, room)) index total block entry r =
      let held : ℕ = elim entry [ none ↦ 0 | some e ↦ e.bytes ] in
      let bytes = sat_add64 held (length block) in
      let (errors, s) = enforce_byte_limits closed watched cid sender room bytes r.state in
      let limited = record r { state = s } in
      let found = get key_dec (cid, (sender, room)) s.assemblies in
      let here : ChunkAssembly = elim found [ none ↦ new_assembly total | some e ↦ e ] in
      if is_over_limits cid sender room bytes block found s
      then some (errors, reject limited)
      else prepend errors (admit_chunk now (cid, (sender, room)) index block here limited)

  -- `fulfill_chunk_in` and `fulfill_chunk_slice_in`.
  unfoldable pub fulfill_chunk_data_in :
      ℕ → String → String → NodeId → ℕ → ℕ → List ℕ → WantRegistry → Outcome
  fulfill_chunk_data_in now room cid sender index total block r =
      let s = observe now cid sender room false (prune closed watched r.state) in
      let seen = record r { state = s } in
      let found = get key_dec (cid, (sender, room)) s.assemblies in
      let next = limit_chunk now (cid, (sender, room)) index total block found seen in
      if total == 0 || (ltb max_want_chunks total || leb total index)
      then some ([], reject seen)
      else if not (accepts closed watched cid sender room s)
      then some ([], reject seen)
      else elim found [
        | none ↦ next
        | some entry ↦
            if not (entry.total_chunks == total)
            then some ([], reject seen)
            else elim (chunk_at index entry) [
              | none ↦ none
              | some (some _) ↦
                  some ([], record seen { counters = duplicate (length block) r.counters })
              | some none ↦ next
            ]
      ]
