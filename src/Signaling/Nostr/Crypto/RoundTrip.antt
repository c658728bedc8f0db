-- ===== src/Signaling/Nostr/Crypto/RoundTrip.antt =====
-- signaling/nostr/crypto.rs: the receiver reads what the sender wrote.
use mistlib.Base.{
  ℕ, ◌≤◌, ◌<◌, ◌≡◌, refl, subst, List, ◌∷◌, ◌++◌, some, true, length, All, arith, Option-cases, inl,
  inr, ◌⊎◌, is_some,
}
use mistlib.Messages.{ok, Result-cases}
use mistlib.Signaling.Nostr.Crypto.Padding.{
  pad_plaintext, IsPadded, pad_plaintext-IsPadded, pad_plaintext-bytes,
}
use mistlib.Signaling.Nostr.Crypto.Armor.{encode_base64url_no_pad}
use mistlib.Signaling.Nostr.Crypto.Cipher.{
  Primitives, Identity, pair_context, message_aad, legacy_payload, public_key_from_xonly, pair_key,
  encrypt, decrypt,
}
use mistlib.Signaling.Nostr.Crypto.Opened.{IsCipher, decrypt-encrypted}

module _ (p : Primitives) (psk : List ℕ) where
  -- Two ends that agree on a secret derive a key.
  derived :
      (sender : Identity) (receiver_pubkey : List ℕ) (sk : p.SigningKey) (pk' : p.PublicKey)
      → IsCipher p
      → p.from_bytes sender.secret_key ≡ some sk
      → public_key_from_xonly p psk receiver_pubkey ≡ ok pk'
      → (key : List ℕ) × (pair_key p psk sender receiver_pubkey ≡ ok key) × (length key ≡ 32)
  unfolding pair_key
  derived sender receiver_pubkey sk pk' cipher hs xr =
      let context = pair_context sender.public_key receiver_pubkey in
      let (key, made, long) = cipher.derives psk (p.diffie_hellman sk pk') context in
      (key, rw (hs, xr, made) refl, long)

  -- A payload of at most 64 KiB is padded.
  padded :
      (random : ℕ) (noise : ℕ → List ℕ) (plaintext : List ℕ)
      → ((n : ℕ) → length (noise n) ≡ n)
      → ((n : ℕ) → All (λ b. b < 256) (noise n))
      → All (λ b. b < 256) plaintext
      → length plaintext ≤ 65536
      → (bytes : List ℕ) × (pad_plaintext random noise plaintext ≡ ok bytes)
        × IsPadded plaintext (ok bytes)
        × All (λ b. b < 256) bytes
  padded random noise plaintext full noisy all small =
      let fits = pad_plaintext-IsPadded random noise plaintext full in
      elim (Result-cases (pad_plaintext random noise plaintext)) [
        | inr (bytes, e) ↦
            let is_padded = subst (IsPadded plaintext) e fits in
            (bytes, e, is_padded, pad_plaintext-bytes random noise plaintext bytes noisy all e)
        | inl (e, failed) ↦
            let large : 65536 < length plaintext = subst (IsPadded plaintext) failed fits in
            absurd (omega (arith, large, small))
      ]

  encrypted :
      (sender : Identity) (receiver_pubkey : List ℕ) (sk : p.SigningKey) (pk' : p.PublicKey)
      (random : ℕ) (noise : ℕ → List ℕ) (nonce : List ℕ) (cover : ℕ) (plaintext : List ℕ)
      → IsCipher p
      → p.from_bytes sender.secret_key ≡ some sk
      → public_key_from_xonly p psk receiver_pubkey ≡ ok pk'
      → ((n : ℕ) → length (noise n) ≡ n)
      → ((n : ℕ) → All (λ b. b < 256) (noise n))
      → length nonce ≡ 12
      → All (λ b. b < 256) plaintext
      → length plaintext ≤ 65536
      → (text : List ℕ) × (encrypt p psk random noise nonce cover sender receiver_pubkey plaintext
          ≡ ok text)
  unfolding encrypt
  encrypted sender receiver_pubkey sk pk' random noise nonce cover plaintext cipher hs xr full noisy
        twelve all small =
      let (key, keyed, long) = derived sender receiver_pubkey sk pk' cipher hs xr in
      let (bytes, is_padded, fits, are_bytes) =
        padded random noise plaintext full noisy all small in
      let aad = message_aad sender.public_key receiver_pubkey in
      let (ciphertext, sealed) =
        cipher.seals key nonce aad bytes long twelve (omega (arith, small, fits)) are_bytes in
      (encode_base64url_no_pad (cover ∷ (nonce ++ ciphertext)), rw (keyed, is_padded, sealed) refl)

  -- Between two identities whose keys are well-formed and agree on a secret, with a cipher that opens what
  -- it seals: `encrypt` returns a text for a payload of at most 64 KiB, with whatever random padding and
  -- cover and with any nonce of 12 bytes, and `decrypt` of the other end turns it back into the payload,
  -- or the text can be read as a payload of an old version.
  pub decrypt-encrypt :
      (sender receiver : Identity) (sk sk' : p.SigningKey) (pk pk' : p.PublicKey) (random : ℕ)
      (noise : ℕ → List ℕ) (nonce : List ℕ) (cover : ℕ) (plaintext : List ℕ)
      → IsCipher p
      → p.from_bytes sender.secret_key ≡ some sk
      → p.from_bytes receiver.secret_key ≡ some sk'
      → public_key_from_xonly p psk sender.public_key ≡ ok pk
      → public_key_from_xonly p psk receiver.public_key ≡ ok pk'
      → p.diffie_hellman sk pk' ≡ p.diffie_hellman sk' pk
      → ((n : ℕ) → length (noise n) ≡ n)
      → ((n : ℕ) → All (λ b. b < 256) (noise n))
      → length nonce ≡ 12
      → All (λ b. b < 256) nonce
      → cover < 256
      → All (λ b. b < 256) plaintext
      → length plaintext ≤ 65536
      → (text : List ℕ) × (encrypt p psk random noise nonce cover sender receiver.public_key
            plaintext
          ≡ ok text)
        × ((is_some (legacy_payload text) ≡ true)
            ⊎ (decrypt p psk receiver sender.public_key text ≡ ok plaintext))
  decrypt-encrypt sender receiver sk sk' pk pk' random noise nonce cover plaintext cipher hs hr xs
        xr agree full noisy twelve nonce_bytes cover_byte all small =
      let (text, done) =
        encrypted sender receiver.public_key sk pk' random noise nonce cover plaintext cipher hs xr
          full noisy twelve all small in
      elim (Option-cases (legacy_payload text)) [
        | inr (old, is_old) ↦ (text, done, inl (rw (is_old, is_some) refl))
        | inl fresh ↦ (
          text,
          done,
          inr (
              decrypt-encrypted p psk sender receiver sk sk' pk pk' random noise nonce cover
                plaintext text cipher hs hr xs xr agree full twelve nonce_bytes cover_byte done
                fresh),
        )
      ]
