-- ===== src/Storage/Cid.antt =====
-- mistlib-core/src/storage/cid.rs. A text is the list of its bytes. SHA-256 and the variable-length
-- integers are foreign code, and parameters.
pub mod Shape
use mistlib.Base.{
  ℕ, zero, suc, ◌+◌, ◌-◌, ◌*◌, ◌/◌, ◌%◌, ◌^◌, ◌≤◌, ◌<◌, ◌≡◌, refl, List, [], ◌∷◌, ◌++◌, Bool, true,
  false, All, length, leb, ltb, ◌==◌, ◌&&◌, ◌||◌, not, if◌then◌else◌, all, arith, ite,
}
use mistlib.Base.Words.{u64_mod}

abbrev pub cid_version : ℕ
cid_version = 0x01

abbrev pub multihash_sha2_256 : ℕ
multihash_sha2_256 = 0x12

abbrev pub multihash_sha2_256_len : ℕ
multihash_sha2_256_len = 32

abbrev pub max_cid_len : ℕ
max_cid_len = 128

-- `ALPHABET[idx]`: `a` to `z`, then `2` to `7`.
unfoldable pub alphabet : ℕ → ℕ
alphabet idx = if ltb idx 26 then 97 + idx else 50 + (idx - 26)

-- The symbol `((buffer >> shift) & 0x1F)`.
unfoldable pub symbol : ℕ → ℕ → ℕ
symbol buffer shift = alphabet (buffer / 2 ^ shift % 32)

-- The inner `while bits_left >= 5`, whose rounds are fewer than the bits; it leaves the bits.
unfoldable pub emit : ℕ → ℕ → ℕ → List ℕ × ℕ
emit zero buffer bits_left = ([], bits_left)
emit (suc fuel) buffer bits_left =
    let (out, rest) = emit fuel buffer (bits_left - 5) in
    if leb 5 bits_left then (symbol buffer (bits_left - 5) ∷ out, rest) else ([], bits_left)

-- The loop over the bytes, and the last symbol; `buffer << 8` drops what leaves the `u64`.
unfoldable pub encode_from : List ℕ → ℕ → ℕ → List ℕ
encode_from [] buffer bits_left =
    if ltb 0 bits_left then alphabet (buffer * 2 ^ (5 - bits_left) % u64_mod % 32) ∷ [] else []
encode_from (byte ∷ rest) buffer bits_left =
    let buffer' = (buffer * 256 + byte) % u64_mod in
    let (out, bits) = emit (bits_left + 8) buffer' (bits_left + 8) in
    out ++ encode_from rest buffer' bits

unfoldable pub base32lower_encode : List ℕ → List ℕ
base32lower_encode bytes = encode_from bytes 0 0

-- `b.is_ascii_lowercase() || (b'2'..=b'7').contains(&b)`.
unfoldable pub is_base32 : ℕ → Bool
is_base32 b = (leb b'a' b && leb b b'z') || (leb b'2' b && leb b b'7')

abbrev pub starts_with_b : List ℕ → Bool
starts_with_b [] = false
starts_with_b (c ∷ cs) = c == b'b' && all is_base32 cs

unfoldable pub is_valid_cid : List ℕ → Bool
is_valid_cid cid = not (ltb (length cid) 2 || ltb max_cid_len (length cid)) && starts_with_b cid

-- `verify_cid` and `compute_cid`, over the two foreign functions.
module _ (sha256 : List ℕ → List ℕ) (encode_varint : ℕ → List ℕ) where
  unfoldable pub compute_cid : List ℕ → ℕ → List ℕ
  compute_cid bytes codec =
      b'b'
      ∷ base32lower_encode (
          encode_varint cid_version
          ++ (encode_varint codec
              ++ (encode_varint multihash_sha2_256 ++ (multihash_sha2_256_len ∷ sha256 bytes))))

  unfoldable pub verify_cid : Discrete (List ℕ) → List ℕ → List ℕ → ℕ → Bool
  verify_cid dec cid bytes expected_codec =
      ite (dec (compute_cid bytes expected_codec) cid) true false
