-- ===== src/Storage/Wants/Api.antt =====
-- The public entries of `WantRegistry` in storage/protocol.rs for blocks and chunks that come in, and for paths
-- that are torn down. Owned and borrowed payloads are the same list of bytes.
use mistlib.Base.{ℕ, List, none, some, Bool, String}
use mistlib.Types.{NodeId}
use mistlib.Storage.Wants.State.{PathKey, Notice}
use mistlib.Storage.Wants.Registry.{WantRegistry, Outcome, fulfill_data_in, fulfill_chunk_data_in}
use mistlib.Storage.Wants.Requests.{register_from, reset_path}

-- A request of the process itself names the empty sender, in the empty room.
module _ (closed : ℕ → Bool) (watched : PathKey → Bool) where
  unfoldable pub register : (String → ℕ) → String → WantRegistry → ℕ × WantRegistry
  register len cid r = register_from closed watched len cid "" r

  unfoldable pub fulfill_in :
      ℕ → String → String → NodeId → List ℕ → WantRegistry → List Notice × WantRegistry
  fulfill_in now room cid sender block r =
      fulfill_data_in closed watched now room cid sender block r

  unfoldable pub fulfill_slice_in :
      ℕ → String → String → NodeId → List ℕ → WantRegistry → List Notice × WantRegistry
  fulfill_slice_in now room cid sender block r =
      fulfill_data_in closed watched now room cid sender block r

  unfoldable pub fulfill_from :
      ℕ → String → NodeId → List ℕ → WantRegistry → List Notice × WantRegistry
  fulfill_from now cid sender block r = fulfill_in now "" cid sender block r

  unfoldable pub fulfill_local : ℕ → String → List ℕ → WantRegistry → List Notice × WantRegistry
  fulfill_local now cid block r = fulfill_from now cid "" block r

  unfoldable pub fulfill_chunk_in :
      ℕ → String → String → NodeId → ℕ → ℕ → List ℕ → WantRegistry → Outcome
  fulfill_chunk_in now room cid sender index total block r =
      fulfill_chunk_data_in closed watched now room cid sender index total block r

  unfoldable pub fulfill_chunk_slice_in :
      ℕ → String → String → NodeId → ℕ → ℕ → List ℕ → WantRegistry → Outcome
  fulfill_chunk_slice_in now room cid sender index total block r =
      fulfill_chunk_data_in closed watched now room cid sender index total block r

  unfoldable pub fulfill_chunk_from : ℕ → String → NodeId → ℕ → ℕ → List ℕ → WantRegistry → Outcome
  fulfill_chunk_from now cid sender index total block r =
      fulfill_chunk_in now "" cid sender index total block r

  unfoldable pub fulfill_chunk : ℕ → String → ℕ → ℕ → List ℕ → WantRegistry → Outcome
  fulfill_chunk now cid index total block r = fulfill_chunk_from now cid "" index total block r

  unfoldable pub sender_reset : NodeId → String → WantRegistry → WantRegistry
  sender_reset sender room r = reset_path closed watched (some sender) room r

  unfoldable pub room_reset : String → WantRegistry → WantRegistry
  room_reset room r = reset_path closed watched none room r

-- The counter that a subscriber starts from.
unfoldable pub any_progress_of : WantRegistry → ℕ
any_progress_of r = r.state.any_progress
