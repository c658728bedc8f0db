-- ===== src/Signaling/Nostr/Crypto/Armor.antt =====
-- signaling/nostr/crypto/armor.rs: base64url without padding. A text is the list of its bytes.
use mistlib.Base.{
  ℕ, zero, suc, ◌+◌, ◌-◌, ◌*◌, ◌/◌, ◌%◌, ◌^◌, ◌<◌, ◌≡◌, ◌≢◌, refl, ap, ◌∙◌, List, [], ◌∷◌, ◌++◌,
  true, false, ltb, leb, ◌==◌, ◌&&◌, if◌then◌else◌, length, All, arith, Bool-cases, inl, inr,
}
use mistlib.Messages.{MistError, Result, ok, err, signaling}

abbrev pub invalid_armor : MistError
invalid_armor = signaling "invalid armored Nostr payload"

-- `BASE64URL[index]`: `A` to `Z`, `a` to `z`, `0` to `9`, `-`, `_`.
unfoldable pub symbol : ℕ → ℕ
symbol i =
    if ltb i 26
    then 65 + i
    else if ltb i 52
    then 97 + (i - 26)
    else if ltb i 62
    then 48 + (i - 52)
    else if i == 62
    then 45
    else 95

unfoldable pub base64url_value : ℕ → Result ℕ
base64url_value byte =
    if leb 65 byte && leb byte 90
    then ok (byte - 65)
    else if leb 97 byte && leb byte 122
    then ok (byte - 97 + 26)
    else if leb 48 byte && leb byte 57
    then ok (byte - 48 + 52)
    else if byte == 45
    then ok 62
    else if byte == 95
    then ok 63
    else err invalid_armor

-- The fields that are joined by `|` have no bit in common, so they are added.
unfoldable pub encode_base64url_no_pad : List ℕ → List ℕ
encode_base64url_no_pad [] = []
encode_base64url_no_pad (b0 ∷ []) = symbol (b0 / 4) ∷ symbol (b0 % 4 * 16) ∷ []
encode_base64url_no_pad (b0 ∷ b1 ∷ []) =
    symbol (b0 / 4) ∷ symbol (b0 % 4 * 16 + b1 / 16) ∷ symbol (b1 % 16 * 4) ∷ []
encode_base64url_no_pad (b0 ∷ b1 ∷ b2 ∷ rest) =
    symbol (b0 / 4)
    ∷ symbol (b0 % 4 * 16 + b1 / 16)
    ∷ symbol (b1 % 16 * 4 + b2 / 64)
    ∷ symbol (b2 % 64)
    ∷ encode_base64url_no_pad rest

-- `while bits >= 8`, whose rounds are fewer than the bits: the bytes, the buffer and the bits.
unfoldable pub drain : ℕ → ℕ → ℕ → List ℕ × ℕ × ℕ
drain zero buffer bits = ([], buffer, bits)
drain (suc fuel) buffer bits = elim (leb 8 bits) [
  | false ↦ ([], buffer, bits)
  | true ↦
      let (out, buffer', bits') = drain fuel (buffer % 2 ^ (bits - 8)) (bits - 8) in
      ((buffer / 2 ^ (bits - 8) % 256) ∷ out, buffer', bits')
]

abbrev pub put_before : List ℕ → Result (List ℕ) → Result (List ℕ)
put_before out (ok rest) = ok (out ++ rest)
put_before out (err e) = err e

-- The loop over the bytes of the text; a `u32` keeps what `buffer << 6` leaves of it.
unfoldable pub decode_from : List ℕ → ℕ → ℕ → Result (List ℕ)
unfolding drain base64url_value
decode_from [] buffer bits = if ltb 0 bits && ltb 0 buffer then err invalid_armor else ok []
decode_from (byte ∷ bytes) buffer bits = elim (base64url_value byte) [
  | err e ↦ err e
  | ok value ↦
      let (out, buffer', bits') =
        drain (bits + 6) ((buffer * 64 + value) % 4294967296) (bits + 6) in
      put_before out (decode_from bytes buffer' bits')
]

unfoldable pub decode_base64url_no_pad : List ℕ → Result (List ℕ)
unfolding decode_from
decode_base64url_no_pad value =
    if length value % 4 == 1 then err invalid_armor else decode_from value 0 0

value-symbol : (i : ℕ) → i < 64 → base64url_value (symbol i) ≡ ok i
unfolding base64url_value symbol
value-symbol i h = ground arith

-- One symbol is read, with what the buffer holds.
read :
    (v : ℕ) (rest : List ℕ) (buffer bits : ℕ) (out : List ℕ) (buffer' bits' : ℕ)
    → v < 64
    → drain (bits + 6) ((buffer * 64 + v) % 4294967296) (bits + 6) ≡ (out, buffer', bits')
    → decode_from (symbol v ∷ rest) buffer bits ≡ put_before out (decode_from rest buffer' bits')
unfolding decode_from
read v rest buffer bits out buffer' bits' h e = rw (value-symbol v h, decode_from) (rw e refl)

put_nothing : (r : Result (List ℕ)) → put_before [] r ≡ r
put_nothing (ok rest) = refl
put_nothing (err e) = refl

put_three :
    (a b c : ℕ) (r : Result (List ℕ))
    → put_before (a ∷ []) (put_before (b ∷ []) (put_before (c ∷ []) r))
      ≡ put_before (a ∷ b ∷ c ∷ []) r
put_three a b c (ok rest) = refl
put_three a b c (err e) = refl

module _ (rest : List ℕ) where
  read_first :
      (b0 : ℕ) → b0 < 256 → decode_from (symbol (b0 / 4) ∷ rest) 0 0 ≡ decode_from rest (b0 / 4) 6
  unfolding drain
  read_first b0 h =
      read (b0 / 4) rest 0 0 [] (b0 / 4) 6 (omega arith) (ground arith) ∙ put_nothing _

  -- The low two bits of a byte come with four bits of the next, or with none.
  read_second :
      (b0 high : ℕ)
      → b0 < 256
      → high < 16
      → decode_from (symbol (b0 % 4 * 16 + high) ∷ rest) (b0 / 4) 6
        ≡ put_before (b0 ∷ []) (decode_from rest high 4)
  unfolding drain
  read_second b0 high h k =
      read (b0 % 4 * 16 + high) rest (b0 / 4) 6 (b0 ∷ []) high 4 (omega arith) (ground arith)

  read_third :
      (b1 high : ℕ)
      → b1 < 256
      → high < 4
      → decode_from (symbol (b1 % 16 * 4 + high) ∷ rest) (b1 / 16) 4
        ≡ put_before (b1 ∷ []) (decode_from rest high 2)
  unfolding drain
  read_third b1 high h k =
      read (b1 % 16 * 4 + high) rest (b1 / 16) 4 (b1 ∷ []) high 2 (omega arith) (ground arith)

  read_fourth :
      (b2 : ℕ)
      → b2 < 256
      → decode_from (symbol (b2 % 64) ∷ rest) (b2 / 64) 2
        ≡ put_before (b2 ∷ []) (decode_from rest 0 0)
  unfolding drain
  read_fourth b2 h = read (b2 % 64) rest (b2 / 64) 2 (b2 ∷ []) 0 0 (omega arith) (ground arith)

decode_from-encode :
    (bytes : List ℕ)
    → All (λ b. b < 256) bytes
    → decode_from (encode_base64url_no_pad bytes) 0 0 ≡ ok bytes
unfolding encode_base64url_no_pad decode_from
decode_from-encode [] all = refl
decode_from-encode (b0 ∷ []) (h0, _) =
    let zero_high : b0 % 4 * 16 ≡ b0 % 4 * 16 + 0 = omega arith in
    read_first (symbol (b0 % 4 * 16) ∷ []) b0 h0
    ∙ rw zero_high (read_second [] b0 0 h0 (omega arith))
decode_from-encode (b0 ∷ b1 ∷ []) (h0, (h1, _)) =
    let zero_high : b1 % 16 * 4 ≡ b1 % 16 * 4 + 0 = omega arith in
    let last = symbol (b1 % 16 * 4) ∷ [] in
    let end : decode_from last (b1 / 16) 4 ≡ ok (b1 ∷ []) =
      rw zero_high (read_third [] b1 0 h1 (omega arith)) in
    read_first (symbol (b0 % 4 * 16 + b1 / 16) ∷ last) b0 h0
    ∙ read_second last b0 (b1 / 16) h0 (omega arith)
    ∙ ap (put_before (b0 ∷ [])) end
decode_from-encode (b0 ∷ b1 ∷ b2 ∷ rest) (h0, (h1, (h2, all))) =
    let ih = decode_from-encode rest all in
    let after = encode_base64url_no_pad rest in
    let four = symbol (b2 % 64) ∷ after in
    let three = symbol (b1 % 16 * 4 + b2 / 64) ∷ four in
    let two = symbol (b0 % 4 * 16 + b1 / 16) ∷ three in
    let last_two : decode_from three (b1 / 16) 4
        ≡ put_before (b1 ∷ []) (put_before (b2 ∷ []) (decode_from after 0 0)) =
      read_third four b1 (b2 / 64) h1 (omega arith)
      ∙ ap (put_before (b1 ∷ [])) (read_fourth after b2 h2) in
    read_first two b0 h0
    ∙ read_second three b0 (b1 / 16) h0 (omega arith)
    ∙ ap (put_before (b0 ∷ [])) last_two
    ∙ put_three b0 b1 b2 (decode_from after 0 0)
    ∙ ap (put_before (b0 ∷ b1 ∷ b2 ∷ [])) ih

length-encode : (bytes : List ℕ) → length (encode_base64url_no_pad bytes) % 4 ≢ 1
unfolding encode_base64url_no_pad
length-encode [] h = absurd (omega arith)
length-encode (b0 ∷ []) h = absurd (omega arith)
length-encode (b0 ∷ b1 ∷ []) h = absurd (omega arith)
length-encode (b0 ∷ b1 ∷ b2 ∷ rest) h = length-encode rest (omega arith)

-- Decoding gives back any bytes that were encoded.
pub decode-encode :
    (bytes : List ℕ)
    → All (λ b. b < 256) bytes
    → decode_base64url_no_pad (encode_base64url_no_pad bytes) ≡ ok bytes
unfolding decode_base64url_no_pad
decode-encode bytes all =
    let long = length-encode bytes in
    let decoded = decode_from-encode bytes all in
    elim (Bool-cases (length (encode_base64url_no_pad bytes) % 4 == 1)) [
      | inl one ↦ absurd (long (ground (arith, one)))
      | inr other ↦ rw other decoded
    ]
