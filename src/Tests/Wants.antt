-- ===== src/Tests/Wants.antt =====
-- Runs of the registry of mistlib-core/src/storage/protocol.rs, and of the pins and the keys of its store.
use mistlib.Base.{ℕ, ◌≡◌, ◌≢◌, List, [], ◌∷◌, true, false, String, none, All, arith}
use mistlib.Storage.Wants.Runs.{
  Env, Op, register, track, chunk, block, drop_closed, run, new_registry,
}
use mistlib.Storage.Wants.Admitted.{Returns}
use mistlib.Storage.Wants.Kept.{run-Returns}
use mistlib.Storage.Wants.Honest.{RunHonest, run-IsHonest}
use mistlib.Storage.Manager.{StorageManager, set_pinned, eviction_candidates}
use mistlib.Storage.Pins.{PinRegistry, pin, new_pins, pinned_cids, is_listed, set_pinned-protects}
use mistlib.Storage.MetaKeys.{encode_meta_key, is_safe, encode_meta_key-injective}

abbrev at_once : ℕ → Env
at_once now = record {
  now = now;
  closed = λ attempt. false;
  watched = λ path. true;
  gone = λ receiver. false;
}

-- A block comes in two chunks, and then again as a whole.
abbrev frames : List (Env × Op)
frames =
    (at_once 1, register "cid" ("peer" ∷ []) false)
    ∷ (at_once 1, track 0 "room")
    ∷ (at_once 2, chunk "room" "cid" "peer" 1 2 (7 ∷ []))
    ∷ (at_once 3, chunk "room" "cid" "peer" 0 2 (6 ∷ []))
    ∷ (at_once 4, block "room" "cid" "peer" (6 ∷ 7 ∷ []))
    ∷ (at_once 5, drop_closed)
    ∷ []

abbrev bytes_of_text : String → ℕ
bytes_of_text s = 3

run-Returns_example : Returns (run bytes_of_text frames new_registry)
run-Returns_example = run-Returns bytes_of_text frames

run-IsHonest_example : RunHonest bytes_of_text [] frames new_registry
run-IsHonest_example = run-IsHonest bytes_of_text frames

abbrev pins : PinRegistry
pins = pin "root" ("x" ∷ "root" ∷ []) new_pins

abbrev full : StorageManager Unit
full = record {
  max_capacity_bytes = 10;
  current_usage = 14;
  blocks_meta =
      ("x", record { last_accessed = 1; size = 6; position = none })
      ∷ ("y", record { last_accessed = 2; size = 8; position = none })
      ∷ [];
  lru_index = (1, "x") ∷ (2, "y") ∷ [];
  clock = 2;
  pinned = [];
}

set_pinned-protects_example :
    All
      (λ cid. is_listed cid pins.roots ≡ false)
      (eviction_candidates (set_pinned (pinned_cids pins) full))
set_pinned-protects_example = set_pinned-protects pins full

encode_meta_key-injective_example :
    (encode_meta_key (97 ∷ 47 ∷ []) ≢ encode_meta_key (97 ∷ 255 ∷ []))
    × All (λ c. is_safe c ≡ true) (encode_meta_key (97 ∷ 47 ∷ []))
encode_meta_key-injective_example =
    encode_meta_key-injective (97 ∷ 47 ∷ []) (97 ∷ 255 ∷ []) (omega arith) (omega arith) (λ h. cc)
