-- ===== src/Signaling/Nostr/Crypto/Opened.antt =====
-- signaling/nostr/crypto.rs: what one end sealed, the other end opens.
use mistlib.Base.{
  ℕ, ◌+◌, ◌*◌, ◌≤◌, ◌<◌, ◌≡◌, refl, ◌∙◌, sym, subst, List, [], ◌∷◌, ◌++◌, Option, none, some, true,
  false, ltb, length, length-append, take, drop, take-length, drop-length, All, All-append, arith,
  Bool-cases, inl, inr, ◌^◌,
}
use mistlib.Messages.{MistError, Result, ok, err}
use mistlib.Signaling.Nostr.Crypto.Padding.{
  pad_plaintext, unpad_plaintext, IsPadded, pad_plaintext-IsPadded,
}
use mistlib.Signaling.Nostr.Crypto.Armor.{
  encode_base64url_no_pad, decode_base64url_no_pad, decode-encode,
}
use mistlib.Signaling.Nostr.Crypto.Cipher.{
  ◌>>=◌, or_err, Primitives, Identity, lex_le, pair_context, message_aad, not_sealed,
  legacy_payload, public_key_from_xonly, pair_key, encrypt, decrypt_legacy_hex, unseal_payload,
  decrypt,
}

lex_le-eq : (a b : List ℕ) → lex_le a b ≡ true → lex_le b a ≡ true → a ≡ b
unfolding lex_le
lex_le-eq [] [] p q = refl
lex_le-eq [] (y ∷ ys) p q = cc
lex_le-eq (x ∷ xs) [] p q = cc
lex_le-eq (x ∷ xs) (y ∷ ys) p q = ground (arith, lex_le-eq xs ys, p, q)

lex_le-total : (a b : List ℕ) → lex_le a b ≡ false → lex_le b a ≡ true
unfolding lex_le
lex_le-total [] b p = cc
lex_le-total (x ∷ xs) [] p = refl
lex_le-total (x ∷ xs) (y ∷ ys) p = ground (arith, lex_le-total xs ys, p)

-- Both ends of a pair have one context.
pair_context_comm : (a b : List ℕ) → pair_context a b ≡ pair_context b a
unfolding pair_context
pair_context_comm a b = elim (Bool-cases (lex_le a b)) [
  | inr p ↦ rw (p, lex_le-total a b p)
  | inl p ↦ elim (Bool-cases (lex_le b a)) [
    | inr q ↦ rw (p, q)
    | inl q ↦ let same = lex_le-eq a b p q in rw same refl
  ]
]

-- The armor of at most 74000 bytes is within the limit of a content.
length-encode-le :
    (bytes : List ℕ) → 3 * length (encode_base64url_no_pad bytes) ≤ 4 * length bytes + 2
unfolding encode_base64url_no_pad
length-encode-le [] = omega arith
length-encode-le (b0 ∷ []) = omega arith
length-encode-le (b0 ∷ b1 ∷ []) = omega arith
length-encode-le (b0 ∷ b1 ∷ b2 ∷ rest) = omega (arith, length-encode-le rest)

small_text :
    (bytes : List ℕ)
    → length bytes ≤ 74000
    → ltb 143360 (length (encode_base64url_no_pad bytes)) ≡ false
small_text bytes h = ground (arith, length-encode-le bytes)

-- What comes before, in a chain that succeeds.
succeeded :
    {S T : Type 0} (next : S → Result T) {t : T} (r : Result S)
    → (r >>= next) ≡ ok t
    → (s : S) × (next s ≡ ok t) × (r ≡ ok s)
succeeded next (err e) done = cc
succeeded next (ok s) done = (s, done, refl)

or_err-ok : {A : Type 0} (e : MistError) (o : Option A) {a : A} → or_err e o ≡ ok a → o ≡ some a
or_err-ok e none h = cc
or_err-ok e (some b) h = cc

ok_inj : {A : Type 0} (a b : A) → ok a ≡ ok b → a ≡ b
ok_inj a b h = cc

-- What the cipher is relied on for.
pub record IsCipher (p : Primitives) : Type 0 where
  pub derives :
      (salt secret context : List ℕ)
      → (key : List ℕ) × (p.hkdf salt secret context ≡ some key) × (length key ≡ 32)
  pub seals :
      (key nonce aad message : List ℕ)
      → length key ≡ 32
      → length nonce ≡ 12
      → length message < 2 ^ 36
      → All (λ b. b < 256) message
      → (sealed : List ℕ) × (p.seal key nonce aad message ≡ some sealed)
  pub unseals :
      (key nonce aad message sealed : List ℕ)
      → p.seal key nonce aad message ≡ some sealed
      → p.unseal key nonce aad sealed ≡ some message
  pub tagged :
      (key nonce aad message sealed : List ℕ)
      → p.seal key nonce aad message ≡ some sealed
      → length sealed ≡ length message + 16
  pub gives_bytes :
      (key nonce aad message sealed : List ℕ)
      → p.seal key nonce aad message ≡ some sealed
      → All (λ b. b < 256) sealed

module _ (p : Primitives) (psk : List ℕ) where
  -- The two ends derive one key.
  pair_key_comm :
      (a b : Identity) (sk sk' : p.SigningKey) (pk pk' : p.PublicKey)
      → p.from_bytes a.secret_key ≡ some sk
      → p.from_bytes b.secret_key ≡ some sk'
      → public_key_from_xonly p psk a.public_key ≡ ok pk
      → public_key_from_xonly p psk b.public_key ≡ ok pk'
      → p.diffie_hellman sk pk' ≡ p.diffie_hellman sk' pk
      → pair_key p psk a b.public_key ≡ pair_key p psk b a.public_key
  unfolding pair_key
  pair_key_comm a b sk sk' pk pk' ha hb xa xb agree =
      rw (ha, hb, xa, xb, agree, pair_context_comm a.public_key b.public_key)

  not_legacy :
      (receiver : Identity) (sender_pubkey text : List ℕ)
      → legacy_payload text ≡ none
      → decrypt_legacy_hex p psk receiver sender_pubkey text ≡ ok none
  unfolding decrypt_legacy_hex
  not_legacy receiver sender_pubkey text h = rw (h, decrypt_legacy_hex) refl

  -- A payload that is sealed for a receiver with the same key.
  unseals :
      (receiver : Identity) (sender_pubkey key nonce padded ciphertext plaintext : List ℕ)
      (cover : ℕ)
      → IsCipher p
      → length nonce ≡ 12
      → pair_key p psk receiver sender_pubkey ≡ ok key
      → p.seal key nonce (message_aad sender_pubkey receiver.public_key) padded ≡ some ciphertext
      → unpad_plaintext padded ≡ ok plaintext
      → unseal_payload p psk receiver sender_pubkey (cover ∷ (nonce ++ ciphertext)) ≡ ok plaintext
  unfolding unseal_payload
  unseals receiver sender_pubkey key nonce padded ciphertext plaintext cover cipher twelve keyed
        sealed unpadded =
      let aad = message_aad sender_pubkey receiver.public_key in
      let tag = cipher.tagged key nonce aad padded ciphertext sealed in
      let long : ltb (1 + length (nonce ++ ciphertext)) 29 ≡ false =
        ground (arith, tag, twelve, length-append nonce ciphertext) in
      let front : take 12 (nonce ++ ciphertext) ≡ nonce =
        subst (λ n. take n (nonce ++ ciphertext) ≡ nonce) twelve (take-length nonce ciphertext) in
      let back : drop 12 (nonce ++ ciphertext) ≡ ciphertext =
        subst (λ n. drop n (nonce ++ ciphertext) ≡ ciphertext) twelve
          (drop-length nonce ciphertext) in
      rw (long, keyed, front, back, cipher.unseals key nonce aad padded ciphertext sealed) unpadded

  -- What `encrypt` returned, `decrypt` of the other end turns back.
  pub decrypt-encrypted :
      (sender receiver : Identity) (sk sk' : p.SigningKey) (pk pk' : p.PublicKey) (random : ℕ)
      (noise : ℕ → List ℕ) (nonce : List ℕ) (cover : ℕ) (plaintext text : List ℕ)
      → IsCipher p
      → p.from_bytes sender.secret_key ≡ some sk
      → p.from_bytes receiver.secret_key ≡ some sk'
      → public_key_from_xonly p psk sender.public_key ≡ ok pk
      → public_key_from_xonly p psk receiver.public_key ≡ ok pk'
      → p.diffie_hellman sk pk' ≡ p.diffie_hellman sk' pk
      → ((n : ℕ) → length (noise n) ≡ n)
      → length nonce ≡ 12
      → All (λ b. b < 256) nonce
      → cover < 256
      → encrypt p psk random noise nonce cover sender receiver.public_key plaintext ≡ ok text
      → legacy_payload text ≡ none
      → decrypt p psk receiver sender.public_key text ≡ ok plaintext
  unfolding encrypt decrypt
  decrypt-encrypted sender receiver sk sk' pk pk' random noise nonce cover plaintext text cipher hs
        hr xs xr agree full twelve nonce_bytes cover_byte done fresh =
      let (key, done1, keyed) = succeeded _ (pair_key p psk sender receiver.public_key) done in
      let (padded, done2, was_padded) = succeeded _ (pad_plaintext random noise plaintext) done1 in
      let aad = message_aad sender.public_key receiver.public_key in
      let (ciphertext, done3, was_sealed) =
        succeeded _ (or_err not_sealed (p.seal key nonce aad padded)) done2 in
      let sealed = or_err-ok not_sealed (p.seal key nonce aad padded) was_sealed in
      let payload = cover ∷ (nonce ++ ciphertext) in
      let same : encode_base64url_no_pad payload ≡ text = ok_inj _ text done3 in
      let keyed' : pair_key p psk receiver sender.public_key ≡ ok key =
        sym (pair_key_comm sender receiver sk sk' pk pk' hs hr xs xr agree) ∙ keyed in
      let is_padded : IsPadded plaintext (ok padded) =
        subst (IsPadded plaintext) was_padded
          (pad_plaintext-IsPadded random noise plaintext full) in
      let bytes : All (λ b. b < 256) payload = (
        cover_byte,
        All-append (λ b. b < 256) nonce ciphertext nonce_bytes
            (cipher.gives_bytes key nonce aad padded ciphertext sealed),
      ) in
      let small : ltb 143360 (length text) ≡ false =
        subst (λ t. ltb 143360 (length t) ≡ false) same
          (small_text payload (
            omega (
              arith,
              cipher.tagged key nonce aad padded ciphertext sealed,
              twelve,
              length-append nonce ciphertext,
              is_padded,
            ))) in
      let decoded : decode_base64url_no_pad text ≡ ok payload =
        subst (λ t. decode_base64url_no_pad t ≡ ok payload) same (decode-encode payload bytes) in
      rw (small, not_legacy receiver sender.public_key text fresh, decoded)
        (unseals receiver sender.public_key key nonce padded ciphertext plaintext cover cipher
          twelve keyed' sealed is_padded.1)
