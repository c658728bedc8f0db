-- ===== src/Tests/Storage.antt =====
-- Runs of the storage of mistlib-core/src/storage.
use mistlib.Base.{ℕ, ◌≡◌, refl, List, [], ◌∷◌, none, some, true, arith}
use mistlib.Storage.Cid.{is_base32, is_valid_cid, compute_cid}
use mistlib.Storage.Cid.Shape.{compute_cid-valid}
use mistlib.Storage.Frames.{have, have_chunk, classify_storage_frame, classify_have, parse_cid}
use mistlib.Storage.Frames.RoundTrip.{encode, IsFrame, classify-encode, encode-classify}
use mistlib.Storage.Frames.Chunks.{IsCut, block-IsCut}
use mistlib.Storage.Manager.{StorageManager, eviction_candidates, new_manager}
use mistlib.Storage.Manager.Eviction.{FitsCapacity, eviction_candidates-Evicts}
use mistlib.Storage.Manager.Usage.{
  Op, track, access, untrack, pin, apply_all, IsAccounted, apply_all-IsAccounted,
}

-- "ba", a short but well-formed identifier.
abbrev short_cid : List ℕ
short_cid = 98 ∷ 97 ∷ []

abbrev digest : List ℕ → List ℕ
digest bytes =
    0 ∷ 1 ∷ 2 ∷ 3 ∷ 4 ∷ 5 ∷ 6 ∷ 7 ∷ 8 ∷ 9 ∷ 10 ∷ 11 ∷ 12 ∷ 13 ∷ 14 ∷ 15 ∷ 0 ∷ 1 ∷ 2 ∷ 3 ∷ 4 ∷ 5 ∷ 6
    ∷ 7 ∷ 8 ∷ 9 ∷ 10 ∷ 11 ∷ 12 ∷ 13 ∷ 14 ∷ 15 ∷ []

abbrev varint : ℕ → List ℕ
varint n = 1 ∷ []

compute_cid-valid_example : is_valid_cid (compute_cid digest varint (1 ∷ 2 ∷ []) 85) ≡ true
compute_cid-valid_example =
    compute_cid-valid digest varint (1 ∷ 2 ∷ []) 85 (λ b. refl) (λ n. omega arith)

classify-encode_example :
    classify_storage_frame (encode (have_chunk short_cid 1 2 (9 ∷ [])))
    ≡ some (have_chunk short_cid 1 2 (9 ∷ []))
unfolding is_valid_cid is_base32
classify-encode_example =
    classify-encode (have_chunk short_cid 1 2 (9 ∷ [])) (refl, omega arith, omega arith)

encode-classify_example :
    (encode (have short_cid (9 ∷ [])) ≡ 2 ∷ 2 ∷ 98 ∷ 97 ∷ 9 ∷ [])
    × IsFrame (have short_cid (9 ∷ []))
unfolding classify_storage_frame classify_have parse_cid is_valid_cid is_base32
encode-classify_example =
    encode-classify (2 ∷ 2 ∷ 98 ∷ 97 ∷ 9 ∷ []) (have short_cid (9 ∷ []))
      (omega arith, (omega arith, (omega arith, (omega arith, (omega arith, tt))))) refl

block-IsCut_example : IsCut short_cid (1 ∷ 2 ∷ 3 ∷ []) (some 2000)
unfolding is_valid_cid is_base32
block-IsCut_example = block-IsCut short_cid (1 ∷ 2 ∷ 3 ∷ []) (some 2000) refl (omega arith)

abbrev manager : StorageManager Unit
manager = record {
  max_capacity_bytes = 10;
  current_usage = 14;
  blocks_meta =
      ("x", record { last_accessed = 1; size = 6; position = none })
      ∷ ("y", record { last_accessed = 2; size = 8; position = none })
      ∷ [];
  lru_index = (1, "x") ∷ (2, "y") ∷ [];
  clock = 2;
  pinned = "x" ∷ [];
}

eviction_candidates-Evicts_example : FitsCapacity manager (eviction_candidates manager)
eviction_candidates-Evicts_example = eviction_candidates-Evicts manager

abbrev operations : List (Op Unit)
operations =
    track "x" 6 none
    ∷ track "x" 6 none
    ∷ track "y" 8 none
    ∷ access "x"
    ∷ untrack "y"
    ∷ pin ("x" ∷ [])
    ∷ []

apply_all-IsAccounted_example : IsAccounted (apply_all operations (new_manager 10))
apply_all-IsAccounted_example = apply_all-IsAccounted 10 operations (omega arith)
