-- ===== src/Storage/Frames.antt =====
-- The frames of mistlib-core/src/storage/protocol.rs. A frame is the list of its bytes, and so is a
-- CID: a CID that passes `is_valid_cid` is ASCII, so `from_utf8` refuses none that it accepts.
pub mod RoundTrip
pub mod Chunks
use mistlib.Base.{
  ℕ, suc, ◌+◌, ◌-◌, ◌*◌, ◌/◌, ◌%◌, ◌≤◌, List, [], ◌∷◌, ◌++◌, Option, none, some, Bool, length, ltb,
  leb, ◌==◌, ◌||◌, if◌then◌else◌, take, drop, min,
}
use mistlib.Storage.Cid.{is_valid_cid}

abbrev pub msg_want : ℕ
msg_want = 0x01

abbrev pub msg_have : ℕ
msg_have = 0x02

abbrev pub msg_query : ℕ
msg_query = 0x03

abbrev pub msg_have_status : ℕ
msg_have_status = 0x04

abbrev pub msg_have_chunk : ℕ
msg_have_chunk = 0x05

-- 16 KiB.
abbrev pub have_chunk_size : ℕ
have_chunk_size = 16384

abbrev pub max_want_chunks : ℕ
max_want_chunks = 8192

pub data StorageFrame : Type 0 where
  want : List ℕ → StorageFrame
  have : List ℕ → List ℕ → StorageFrame
  query : List ℕ → StorageFrame
  have_status : List ℕ → StorageFrame
  -- the CID, the chunk's index, the number of chunks, and the payload
  have_chunk : List ℕ → ℕ → ℕ → List ℕ → StorageFrame

infixl 5 ◌>>=◌
abbrev pub ◌>>=◌ {ℓ κ} : {A : Type ℓ} {B : Type κ} → Option A → (A → Option B) → Option B
none >>= f = none
some a >>= f = f a

-- `slice.get(..n)`, with the rest of the slice.
abbrev pub split_at : ℕ → List ℕ → Option (List ℕ × List ℕ)
split_at n xs = if leb n (length xs) then some (take n xs, drop n xs) else none

unfoldable pub parse_cid : List ℕ → Option (List ℕ)
parse_cid bytes =
    if ltb 255 (length bytes) then none else if is_valid_cid bytes then some bytes else none

-- The body of a HAVE: the length of the CID, the CID, the payload.
unfoldable pub classify_have : List ℕ → Option StorageFrame
classify_have [] = none
classify_have (cid_len ∷ body) = do
  (head, payload) ← split_at cid_len body
  cid ← parse_cid head
  some (have cid payload)

-- `u16::from_be_bytes`.
abbrev pub from_be : ℕ → ℕ → ℕ
from_be hi lo = hi * 256 + lo

unfoldable pub classify_chunk_body : ℕ → ℕ → ℕ → List ℕ → Option StorageFrame
classify_chunk_body cid_len chunk_index chunk_total body =
    if chunk_total == 0 || (ltb max_want_chunks chunk_total || leb chunk_total chunk_index)
    then none
    else (do
      (head, payload) ← split_at cid_len body
      cid ← parse_cid head
      some (have_chunk cid chunk_index chunk_total payload))

-- The six bytes of the header, the tag among them, and what follows.
unfoldable pub classify_have_chunk : List ℕ → Option StorageFrame
classify_have_chunk (cid_len ∷ i₁ ∷ i₀ ∷ t₁ ∷ t₀ ∷ body) =
    classify_chunk_body cid_len (from_be i₁ i₀) (from_be t₁ t₀) body
classify_have_chunk _ = none

unfoldable pub classify_storage_frame : List ℕ → Option StorageFrame
classify_storage_frame [] = none
classify_storage_frame (tag ∷ rest) =
    if tag == msg_want
    then (do cid ← parse_cid rest; some (want cid))
    else if tag == msg_query
    then (do cid ← parse_cid rest; some (query cid))
    else if tag == msg_have_status
    then (do cid ← parse_cid rest; some (have_status cid))
    else if tag == msg_have
    then classify_have rest
    else if tag == msg_have_chunk
    then classify_have_chunk rest
    else none

unfoldable pub build_have_message : List ℕ → List ℕ → List ℕ
build_have_message cid payload = msg_have ∷ (length cid % 256) ∷ (cid ++ payload)

unfoldable pub build_have_chunk_message : List ℕ → ℕ → ℕ → List ℕ → List ℕ
build_have_chunk_message cid chunk_index chunk_total payload =
    msg_have_chunk
    ∷ (length cid % 256)
    ∷ (chunk_index / 256 % 256)
    ∷ (chunk_index % 256)
    ∷ (chunk_total / 256 % 256)
    ∷ (chunk_total % 256)
    ∷ (cid ++ payload)

unfoldable pub build_want_message : List ℕ → List ℕ
build_want_message cid = msg_want ∷ cid

unfoldable pub build_query_message : List ℕ → List ℕ
build_query_message cid = msg_query ∷ cid

unfoldable pub build_have_status_message : List ℕ → List ℕ
build_have_status_message cid = msg_have_status ∷ cid

unfoldable pub parse_have_message : List ℕ → Option (List ℕ × List ℕ)
parse_have_message raw = elim (classify_storage_frame raw) [
  | some (have cid payload) ↦ some (cid, payload)
  | _ ↦ none
]

unfoldable pub parse_have_chunk_message : List ℕ → Option (List ℕ × ℕ × ℕ × List ℕ)
parse_have_chunk_message raw = elim (classify_storage_frame raw) [
  | some (have_chunk cid chunk_index chunk_total payload) ↦
      some (cid, chunk_index, chunk_total, payload)
  | _ ↦ none
]

unfoldable pub parse_want_message : List ℕ → Option (List ℕ)
parse_want_message raw = elim (classify_storage_frame raw) [ some (want cid) ↦ some cid | _ ↦ none ]

unfoldable pub parse_query_message : List ℕ → Option (List ℕ)
parse_query_message raw = elim (classify_storage_frame raw) [
  | some (query cid) ↦ some cid
  | _ ↦ none
]

unfoldable pub parse_have_status_message : List ℕ → Option (List ℕ)
parse_have_status_message raw = elim (classify_storage_frame raw) [
  | some (have_status cid) ↦ some cid
  | _ ↦ none
]

-- The header, the CID and a margin for the envelope share the limit with the payload.
unfoldable pub chunk_size_for_limit : List ℕ → Option ℕ → ℕ
chunk_size_for_limit cid none = have_chunk_size
chunk_size_for_limit cid (some limit) =
    let overhead = 6 + length cid + 512 in
    if leb overhead limit
    then if leb 1024 (limit - overhead)
      then min (limit - overhead) have_chunk_size
      else have_chunk_size
    else have_chunk_size

-- `div_ceil`, refused past `u16::MAX`.
unfoldable pub have_chunk_count : ℕ → ℕ → Option ℕ
have_chunk_count data_len chunk_size =
    let chunk_count = (data_len + (chunk_size - 1)) / chunk_size in
    if ltb 65535 chunk_count then none else some chunk_count

-- `&data[start..end]` of a slice that `start` and `end` lie in.
abbrev pub slice : ℕ → ℕ → List ℕ → List ℕ
slice start end xs = take (end - start) (drop start xs)

unfoldable pub build_have_payload : List ℕ → List ℕ → ℕ → ℕ → ℕ → List ℕ
build_have_payload cid bytes chunk_index total_chunks chunk_size =
    if leb total_chunks 1
    then build_have_message cid bytes
    else build_have_chunk_message cid chunk_index total_chunks (
        slice (chunk_index * chunk_size) (min ((chunk_index + 1) * chunk_size) (length bytes))
          bytes)
