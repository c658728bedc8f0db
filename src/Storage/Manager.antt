-- ===== src/Storage/Manager.antt =====
-- `StorageManager` of mistlib-core/src/storage/types.rs: which blocks are there, and which make room.
-- The position of a block is of a type that is not looked into here.
pub mod Usage
pub mod Eviction
use mistlib.Base.{
  ℕ, ◌+◌, ◌-◌, List, [], ◌∷◌, Option, none, some, Bool, true, false, String, String_discrete, leb,
  ◌==◌, if◌then◌else◌, is_some,
}
use mistlib.Base.Words.{add64}
use mistlib.Base.Maps
use mistlib.Base.Btree
use mistlib.Base.Sets.{contains}

pub record BlockMeta (V : Type 0) : Type 0 where
  pub last_accessed : ℕ
  pub size : ℕ
  pub position : Option V

pub record StorageManager (V : Type 0) : Type 0 where
  pub max_capacity_bytes : ℕ
  pub current_usage : ℕ
  pub blocks_meta : List (String × BlockMeta V)
  pub lru_index : List (ℕ × String)
  pub clock : ℕ
  pub pinned : List String

module _ {V : Type 0} where
  unfoldable pub new_manager : ℕ → StorageManager V
  new_manager max_capacity_bytes = record {
    max_capacity_bytes = max_capacity_bytes;
    current_usage = 0;
    blocks_meta = [];
    lru_index = [];
    clock = 0;
    pinned = [];
  }

  unfoldable pub set_pinned : List String → StorageManager V → StorageManager V
  set_pinned pinned s = record s { pinned = pinned }

  abbrev pub meta_of : String → StorageManager V → Option (BlockMeta V)
  meta_of cid s = Maps.get String_discrete cid s.blocks_meta

  -- The block was accessed at `clock`; a position that is given replaces the one it has.
  abbrev pub accessed : String → BlockMeta V → ℕ → Option V → StorageManager V → StorageManager V
  accessed cid meta clock position s = record s {
    clock = clock;
    lru_index = Btree.insert clock cid (Btree.remove meta.last_accessed s.lru_index);
    blocks_meta =
        Maps.insert String_discrete cid
          (record meta {
            last_accessed = clock;
            position = if is_some position then position else meta.position;
          })
          s.blocks_meta;
  }

  unfoldable pub track_block : String → ℕ → Option V → StorageManager V → Bool × StorageManager V
  track_block cid size position s =
      let clock = add64 s.clock 1 in
      elim (meta_of cid s) [
        | some meta ↦ (false, accessed cid meta clock position s)
        | none ↦ (
          true,
          record s {
            clock = clock;
            blocks_meta =
                Maps.insert String_discrete cid
                  (record { last_accessed = clock; size = size; position = position })
                  s.blocks_meta;
            lru_index = Btree.insert clock cid s.lru_index;
            current_usage = add64 s.current_usage size;
          },
        )
      ]

  unfoldable pub touch : String → StorageManager V → StorageManager V
  touch cid s = elim (meta_of cid s) [
    | none ↦ s
    | some meta ↦ accessed cid meta (add64 s.clock 1) none s
  ]

  unfoldable pub untrack_block : String → StorageManager V → Option ℕ × StorageManager V
  untrack_block cid s = elim (meta_of cid s) [
    | none ↦ (none, s)
    | some meta ↦ (
      some meta.size,
      record s {
        blocks_meta = Maps.remove String_discrete cid s.blocks_meta;
        lru_index = Btree.remove meta.last_accessed s.lru_index;
        current_usage = s.current_usage - meta.size;
      },
    )
  ]

  -- The loop over the index, from the least recently used on.
  unfoldable pub victims_from : ℕ → List (ℕ × String) → StorageManager V → List String
  victims_from remaining [] s = []
  victims_from remaining ((at, cid) ∷ index) s = elim (contains String_discrete cid s.pinned) [
    | true ↦ victims_from remaining index s
    | false ↦ elim (meta_of cid s) [
      | none ↦ victims_from remaining index s
      | some meta ↦ elim (remaining - meta.size == 0) [
        | true ↦ cid ∷ []
        | false ↦ cid ∷ victims_from (remaining - meta.size) index s
      ]
    ]
  ]

  unfoldable pub eviction_candidates : StorageManager V → List String
  eviction_candidates s =
      if leb s.current_usage s.max_capacity_bytes
      then []
      else victims_from (s.current_usage - s.max_capacity_bytes) s.lru_index s
