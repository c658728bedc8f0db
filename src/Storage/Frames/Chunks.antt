-- ===== src/Storage/Frames/Chunks.antt =====
-- protocol.rs: a block is cut into chunks, and the chunks make up the block.
use native.Mathlib.Nat.{div-add-mod, mod-lt, mul_comm, mul-le-mul_left}
use mistlib.Base.{
  ℕ, zero, suc, ◌+◌, ◌-◌, ◌*◌, ◌/◌, ◌%◌, ◌≤◌, ◌<◌, ◌≡◌, refl, ap, sym, ◌∙◌, List, [], ◌∷◌, ◌++◌,
  Option, none, some, true, false, length, take, min, arith, leb, Bool-cases, leb→le, inl, inr,
}
use mistlib.Storage.Cid.{is_valid_cid}
use mistlib.Storage.Frames.{
  have_chunk, classify_storage_frame, build_have_payload, have_chunk_count, chunk_size_for_limit,
  slice, max_want_chunks, have_chunk_size,
}
use mistlib.Storage.Frames.RoundTrip.{encode, classify-encode}

-- The greatest block, 8 MiB.
abbrev pub max_want_block_bytes : ℕ
max_want_block_bytes = 8388608

-- The payload of a chunk, as `build_have_payload` cuts it.
abbrev pub chunk_payload : List ℕ → ℕ → ℕ → List ℕ
chunk_payload bytes chunk_size i =
    slice (i * chunk_size) (min ((i + 1) * chunk_size) (length bytes)) bytes

-- The payloads of the first `k` chunks, one behind the other.
abbrev pub joined : List ℕ → ℕ → ℕ → List ℕ
joined bytes chunk_size zero = []
joined bytes chunk_size (suc k) = joined bytes chunk_size k ++ chunk_payload bytes chunk_size k

take-nil : (n : ℕ) → take {A = ℕ} n [] ≡ []
take-nil zero = refl
take-nil (suc n) = refl

take-slice : (a b : ℕ) (xs : List ℕ) → a ≤ b → take a xs ++ slice a b xs ≡ take b xs
take-slice zero b xs h = let e : b - 0 ≡ b = omega arith in rw e refl
take-slice (suc a) zero xs h = absurd (omega arith)
take-slice (suc a) (suc b) [] h = take-nil (suc b - suc a)
take-slice (suc a) (suc b) (x ∷ xs) h =
    ap (◌∷◌ x)
      (let e : suc b - suc a ≡ b - a = omega arith in rw e (take-slice a b xs (omega arith)))

take-all : (n : ℕ) (xs : List ℕ) → length xs ≤ n → take n xs ≡ xs
take-all zero [] h = refl
take-all zero (x ∷ xs) h = absurd (omega arith)
take-all (suc n) [] h = refl
take-all (suc n) (x ∷ xs) h = ap (◌∷◌ x) (take-all n xs (omega arith))

-- The first `k` chunks that start inside the block make up its first `k * chunk_size` bytes.
joined-take :
    (bytes : List ℕ) (chunk_size k : ℕ)
    → k * chunk_size < length bytes + chunk_size
    → joined bytes chunk_size k ≡ take (min (k * chunk_size) (length bytes)) bytes
joined-take bytes chunk_size zero h =
    let e : min (0 * chunk_size) (length bytes) ≡ 0 = omega arith in rw e refl
joined-take bytes chunk_size (suc k) h =
    let next : suc k * chunk_size ≡ k * chunk_size + chunk_size = omega arith in
    let now : min (k * chunk_size) (length bytes) ≡ k * chunk_size = omega arith in
    let ih = joined-take bytes chunk_size k (omega arith) in
    let e : (k + 1) * chunk_size ≡ suc k * chunk_size = omega arith in
    rw (ih, now, e)
      (take-slice (k * chunk_size) (min (suc k * chunk_size) (length bytes)) bytes (omega arith))

count-covers :
    (len chunk_size total : ℕ)
    → 1 ≤ chunk_size
    → have_chunk_count len chunk_size ≡ some total
    → (len ≤ total * chunk_size) × (total * chunk_size < len + chunk_size)
unfolding have_chunk_count
count-covers len chunk_size total pos h =
    let d = div-add-mod (len + (chunk_size - 1)) chunk_size in
    let m = mod-lt (len + (chunk_size - 1)) pos in
    let e : (len + (chunk_size - 1)) / chunk_size ≡ total = ground arith in
    let d' : chunk_size * total + (len + (chunk_size - 1)) % chunk_size ≡ len + (chunk_size - 1) =
      rw (sym e) d in
    let c : chunk_size * total ≡ total * chunk_size = mul_comm chunk_size total in
    (omega arith, omega arith)

size-bounds :
    (cid : List ℕ) (limit : Option ℕ)
    → (1024 ≤ chunk_size_for_limit cid limit) × (chunk_size_for_limit cid limit ≤ have_chunk_size)
unfolding chunk_size_for_limit
size-bounds cid none = (omega arith, omega arith)
size-bounds cid (some limit) = ground arith

few-chunks :
    (len chunk_size total : ℕ)
    → 1024 ≤ chunk_size
    → len ≤ max_want_block_bytes
    → chunk_size * total ≤ len + (chunk_size - 1)
    → total ≤ max_want_chunks
few-chunks len chunk_size total low h fits = elim (Bool-cases (leb total max_want_chunks)) [
  | inl e ↦ leb→le _ _ e
  | inr e ↦
      let many : 8193 ≤ total = ground (arith, e) in
      let scale = mul-le-mul_left chunk_size many in absurd (omega arith)
]

count-total :
    (len chunk_size : ℕ)
    → 1024 ≤ chunk_size
    → len ≤ max_want_block_bytes
    → (total : ℕ) × (have_chunk_count len chunk_size ≡ some total) × (total ≤ max_want_chunks)
unfolding have_chunk_count
count-total len chunk_size low h =
    let total = (len + (chunk_size - 1)) / chunk_size in
    let d = div-add-mod (len + (chunk_size - 1)) chunk_size in
    let bound = few-chunks len chunk_size total low h (omega (arith, d)) in
    (total, ground (arith, bound), bound)

-- The `i`th payload of a block of several chunks is read back as the `i`th chunk.
abbrev pub IsSentWhole : List ℕ → List ℕ → ℕ → ℕ → Type 0
IsSentWhole cid bytes chunk_size total =
    (i : ℕ)
    → 2 ≤ total
    → i < total
    → classify_storage_frame (build_have_payload cid bytes i total chunk_size)
      ≡ some (have_chunk cid i total (chunk_payload bytes chunk_size i))

sent_whole :
    (cid bytes : List ℕ) (chunk_size total : ℕ)
    → is_valid_cid cid ≡ true
    → total ≤ max_want_chunks
    → IsSentWhole cid bytes chunk_size total
unfolding build_have_payload encode
sent_whole cid bytes chunk_size total valid few i many inside =
    let e : leb total 1 ≡ false = ground arith in
    rw e (
      classify-encode (have_chunk cid i total (chunk_payload bytes chunk_size i))
        (valid, few, inside))

-- The number of chunks is small, joined they are the block, and they are sent one by one.
abbrev pub IsCut : List ℕ → List ℕ → Option ℕ → Type 0
IsCut cid bytes limit =
    (total : ℕ) × (have_chunk_count (length bytes) (chunk_size_for_limit cid limit) ≡ some total)
    × (total ≤ max_want_chunks)
    × (joined bytes (chunk_size_for_limit cid limit) total ≡ bytes)
    × IsSentWhole cid bytes (chunk_size_for_limit cid limit) total

-- A block of at most 8 MiB with a valid CID, cut for any frame limit, needs at most
-- `MAX_WANT_CHUNKS` chunks; joined in the order of their indices they are the block; and where there
-- are two or more, each message is read back as the chunk that it carries.
pub block-IsCut :
    (cid bytes : List ℕ) (limit : Option ℕ)
    → is_valid_cid cid ≡ true
    → length bytes ≤ max_want_block_bytes
    → IsCut cid bytes limit
block-IsCut cid bytes limit valid h =
    let (low, high) = size-bounds cid limit in
    let (total, count, few) = count-total (length bytes) (chunk_size_for_limit cid limit) low h in
    let (enough, short) =
      count-covers (length bytes) (chunk_size_for_limit cid limit) total (omega arith) count in
    let e : min (total * chunk_size_for_limit cid limit) (length bytes) ≡ length bytes =
      omega arith in
    (
      total,
      count,
      few,
      joined-take bytes _ total short ∙ rw e (take-all (length bytes) bytes (omega arith)),
      sent_whole cid bytes _ total valid few,
    )
