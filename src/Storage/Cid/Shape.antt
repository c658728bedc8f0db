-- ===== src/Storage/Cid/Shape.antt =====
-- cid.rs: every identifier that is computed has the shape that `is_valid_cid` asks for.
use mistlib.Base.{
  ℕ, zero, suc, ◌+◌, ◌-◌, ◌*◌, ◌/◌, ◌%◌, ◌^◌, ◌≤◌, ◌<◌, ◌≡◌, refl, List, [], ◌∷◌, ◌++◌, true,
  length, length-append, all, all-append, arith,
}
use mistlib.Base.Words.{u64_mod}
use mistlib.Storage.Cid.{
  alphabet, symbol, emit, encode_from, base32lower_encode, is_base32, is_valid_cid, compute_cid,
  cid_version, multihash_sha2_256, multihash_sha2_256_len,
}

alphabet-is_base32 : (idx : ℕ) → idx < 32 → is_base32 (alphabet idx) ≡ true
unfolding alphabet is_base32
alphabet-is_base32 idx h = ground arith

symbol-is_base32 : (buffer shift : ℕ) → is_base32 (symbol buffer shift) ≡ true
unfolding symbol
symbol-is_base32 buffer shift = alphabet-is_base32 _ (omega arith)

emit-is_base32 : (fuel buffer bits : ℕ) → all is_base32 (emit fuel buffer bits).0 ≡ true
unfolding emit
emit-is_base32 zero buffer bits = refl
emit-is_base32 (suc fuel) buffer bits =
    ground (arith, symbol-is_base32 buffer (bits - 5), emit-is_base32 fuel buffer (bits - 5))

-- The loop emits one symbol for each five bits, and leaves the rest.
emit-length :
    (fuel buffer bits : ℕ)
    → bits ≤ fuel
    → let r = emit fuel buffer bits in (r.1 < 5) × (length r.0 * 5 + r.1 ≡ bits)
unfolding emit
emit-length zero buffer bits h = omega arith
emit-length (suc fuel) buffer bits h = ground (arith, emit-length fuel buffer (bits - 5))

encode_from-is_base32 :
    (bytes : List ℕ) (buffer bits : ℕ) → all is_base32 (encode_from bytes buffer bits) ≡ true
unfolding encode_from
encode_from-is_base32 [] buffer bits =
    ground (arith, alphabet-is_base32 (buffer * 2 ^ (5 - bits) % u64_mod % 32))
encode_from-is_base32 (byte ∷ rest) buffer bits =
    let buffer' = (buffer * 256 + byte) % u64_mod in
    all-append is_base32 _ _ (emit-is_base32 (bits + 8) buffer' (bits + 8))
      (encode_from-is_base32 rest buffer' _)

encode_from-length :
    (bytes : List ℕ) (buffer bits : ℕ)
    → bits < 5
    → length (encode_from bytes buffer bits) ≡ (length bytes * 8 + bits + 4) / 5
unfolding encode_from
encode_from-length [] buffer bits h = ground arith
encode_from-length (byte ∷ rest) buffer bits h =
    let buffer' = (buffer * 256 + byte) % u64_mod in
    let r = emit (bits + 8) buffer' (bits + 8) in
    let (small, count) = emit-length (bits + 8) buffer' (bits + 8) (omega arith) in
    omega (
      arith,
      small,
      count,
      length-append r.0 (encode_from rest buffer' r.1),
      encode_from-length rest buffer' r.1 small,
    )

-- `n` bytes are written with as many symbols as hold their bits, all of the alphabet.
pub base32lower_encode-shape :
    (bytes : List ℕ)
    → (length (base32lower_encode bytes) ≡ (length bytes * 8 + 4) / 5)
      × (all is_base32 (base32lower_encode bytes) ≡ true)
unfolding base32lower_encode
base32lower_encode-shape bytes =
    (omega (arith, encode_from-length bytes 0 0 (omega arith)), encode_from-is_base32 bytes 0 0)

-- What `compute_cid` makes of any block and codec passes `is_valid_cid`, so no identifier that this
-- library makes is refused by it; of the foreign code it is asked that a digest has 32 bytes and that
-- an integer is written with at most 10.
pub compute_cid-valid :
    (sha256 : List ℕ → List ℕ) (encode_varint : ℕ → List ℕ) (bytes : List ℕ) (codec : ℕ)
    → ((b : List ℕ) → length (sha256 b) ≡ 32)
    → ((n : ℕ) → length (encode_varint n) ≤ 10)
    → is_valid_cid (compute_cid sha256 encode_varint bytes codec) ≡ true
unfolding compute_cid is_valid_cid
compute_cid-valid sha256 encode_varint bytes codec digest varint =
    let e = encode_varint in
    let tail = e multihash_sha2_256 ++ (multihash_sha2_256_len ∷ sha256 bytes) in
    let envelope = e cid_version ++ (e codec ++ tail) in
    let (long, letters) = base32lower_encode-shape envelope in
    let size : length envelope ≤ 63 = omega (
      arith,
      length-append (e cid_version) (e codec ++ tail),
      length-append (e codec) tail,
      length-append (e multihash_sha2_256) (multihash_sha2_256_len ∷ sha256 bytes),
      digest bytes,
      varint cid_version,
      varint codec,
      varint multihash_sha2_256,
    ) in
    let some_bytes : 33 ≤ length envelope = omega (
      arith,
      length-append (e cid_version) (e codec ++ tail),
      length-append (e codec) tail,
      length-append (e multihash_sha2_256) (multihash_sha2_256_len ∷ sha256 bytes),
      digest bytes,
    ) in
    ground (arith, long, letters, size, some_bytes)
