-- ===== src/Signaling/Nostr/Crypto/Cipher.antt =====
-- `InvitePskCrypto` of mistlib-core/src/signaling/nostr/crypto.rs: a payload is padded, sealed with the key of a
-- pair, and armored. The curve, the key derivation and the cipher are foreign code, and parameters.
-- Texts are the lists of their bytes, and so are keys.
use mistlib.Base.{
  ℕ, ◌+◌, ◌-◌, ◌*◌, List, [], ◌∷◌, ◌++◌, Option, none, some, Bool, true, false, ltb, leb, ◌==◌,
  ◌&&◌, ◌||◌, not, if◌then◌else◌, length, take, drop,
}
use mistlib.Messages.{MistError, Result, ok, err, signaling}
use mistlib.Signaling.Nostr.Crypto.Padding.{pad_plaintext, unpad_plaintext}
use mistlib.Signaling.Nostr.Crypto.Armor.{encode_base64url_no_pad, decode_base64url_no_pad}

-- `?`: an error ends the chain.
abbrev pub ◌>>=◌ : {S T : Type 0} → Result S → (S → Result T) → Result T
r >>= next = elim r [ ok s ↦ next s | err e ↦ err e ]

infixl 5 ◌>>=◌
abbrev pub or_err : {A : Type 0} → MistError → Option A → Result A
or_err e none = err e
or_err e (some a) = ok a

pub record Primitives : Type 1 where
  pub SigningKey : Type 0
  pub PublicKey : Type 0
  pub from_bytes : List ℕ → Option SigningKey
  pub from_sec1_bytes : List ℕ → Option PublicKey
  pub diffie_hellman : SigningKey → PublicKey → List ℕ
  -- the salt, the secret and the context
  pub hkdf : List ℕ → List ℕ → List ℕ → Option (List ℕ)
  -- the key, the nonce, the associated data and the message
  pub seal : List ℕ → List ℕ → List ℕ → List ℕ → Option (List ℕ)
  pub unseal : List ℕ → List ℕ → List ℕ → List ℕ → Option (List ℕ)

pub record Identity : Type 0 where
  pub public_key : List ℕ
  pub secret_key : List ℕ

unfoldable pub hex_nibble : ℕ → Option ℕ
hex_nibble byte =
    if leb 48 byte && leb byte 57
    then some (byte - 48)
    else if leb 97 byte && leb byte 102
    then some (byte - 97 + 10)
    else if leb 65 byte && leb byte 70
    then some (byte - 65 + 10)
    else none

-- `none` stands for both errors, which no caller tells apart.
unfoldable pub hex_decode : List ℕ → Option (List ℕ)
hex_decode [] = some []
hex_decode (a ∷ []) = none
hex_decode (a ∷ b ∷ rest) =
    let tail = hex_decode rest in
    elim (hex_nibble a) [
      | none ↦ none
      | some high ↦ elim (hex_nibble b) [
        | none ↦ none
        | some low ↦ elim tail [ none ↦ none | some out ↦ some ((high * 16 + low) ∷ out) ]
      ]
    ]

-- `a <= b` on texts, byte by byte.
unfoldable pub lex_le : List ℕ → List ℕ → Bool
lex_le [] b = true
lex_le (x ∷ xs) [] = false
lex_le (x ∷ xs) (y ∷ ys) =
    let rest = lex_le xs ys in if ltb x y then true else if ltb y x then false else rest

abbrev pub nostr_signaling : List ℕ
nostr_signaling =
    110 ∷ 111 ∷ 115 ∷ 116 ∷ 114 ∷ 45 ∷ 115 ∷ 105 ∷ 103 ∷ 110 ∷ 97 ∷ 108 ∷ 105 ∷ 110 ∷ 103 ∷ 45 ∷ []

-- `nostr-signaling-ecdh-aesgcm:v2` and a zero.
abbrev pub pair_prefix : List ℕ
pair_prefix =
    nostr_signaling
    ++ (101 ∷ 99 ∷ 100 ∷ 104 ∷ 45 ∷ 97 ∷ 101 ∷ 115 ∷ 103 ∷ 99 ∷ 109 ∷ 58 ∷ 118 ∷ 50 ∷ 0 ∷ [])

-- `nostr-signaling-message:v2` and a zero.
abbrev pub aad_prefix : List ℕ
aad_prefix = nostr_signaling ++ (109 ∷ 101 ∷ 115 ∷ 115 ∷ 97 ∷ 103 ∷ 101 ∷ 58 ∷ 118 ∷ 50 ∷ 0 ∷ [])

unfoldable pub pair_context : List ℕ → List ℕ → List ℕ
pair_context a b = pair_prefix ++ (if lex_le a b then a ++ (0 ∷ b) else b ++ (0 ∷ a))

unfoldable pub message_aad : List ℕ → List ℕ → List ℕ
message_aad sender_pubkey receiver_pubkey = aad_prefix ++ (sender_pubkey ++ (0 ∷ receiver_pubkey))

abbrev pub invalid_secret : MistError
invalid_secret = signaling "invalid Nostr secret key"

abbrev pub invalid_pubkey : MistError
invalid_pubkey = signaling "invalid Nostr pubkey"

abbrev pub no_key : MistError
no_key = signaling "failed to derive Nostr message key"

abbrev pub not_sealed : MistError
not_sealed = signaling "failed to encrypt Nostr payload"

abbrev pub not_unsealed : MistError
not_unsealed = signaling "invalid encrypted Nostr payload"

abbrev pub unsupported : MistError
unsupported = signaling "unsupported encrypted Nostr payload"

abbrev pub content_too_large : MistError
content_too_large = signaling "Nostr event content is too large"

-- The prefix of a compressed point with an even second coordinate.
unfoldable pub compress : List ℕ → Option (List ℕ)
compress x = if length x == 32 then some (2 ∷ x) else none

-- The version and the rest, if a text is a payload of one of the old versions.
unfoldable pub legacy_payload : List ℕ → Option (ℕ × List ℕ)
legacy_payload ciphertext = elim (hex_decode ciphertext) [
  | none ↦ none
  | some [] ↦ none
  | some (version ∷ rest) ↦
      if ltb (1 + length rest) 29 || not (version == 3 || version == 2)
      then none
      else some (version, rest)
]

module _ (p : Primitives) (psk : List ℕ) where
  unfoldable pub public_key_from_xonly : List ℕ → Result p.PublicKey
  public_key_from_xonly pubkey = do
    x ← or_err invalid_pubkey (hex_decode pubkey)
    compressed ← or_err invalid_pubkey (compress x)
    or_err invalid_pubkey (p.from_sec1_bytes compressed)

  unfoldable pub pair_key : Identity → List ℕ → Result (List ℕ)
  pair_key local remote_pubkey = do
    secret ← or_err invalid_secret (p.from_bytes local.secret_key)
    remote ← public_key_from_xonly remote_pubkey
    or_err no_key
        (p.hkdf psk (p.diffie_hellman secret remote) (pair_context local.public_key remote_pubkey))

  -- The random number and bytes of the padding, the nonce of 12 bytes and the cover of one are random.
  unfoldable pub encrypt :
      ℕ → (ℕ → List ℕ) → List ℕ → ℕ → Identity → List ℕ → List ℕ → Result (List ℕ)
  encrypt random noise nonce cover sender receiver_pubkey plaintext = do
    key ← pair_key sender receiver_pubkey
    padded ← pad_plaintext random noise plaintext
    ciphertext ←
        or_err not_sealed (p.seal key nonce (message_aad sender.public_key receiver_pubkey) padded)
    ok (encode_base64url_no_pad (cover ∷ (nonce ++ ciphertext)))

  -- A payload of the old versions, if it is one.
  unfoldable pub decrypt_legacy_hex : Identity → List ℕ → List ℕ → Result (Option (List ℕ))
  decrypt_legacy_hex receiver sender_pubkey ciphertext = elim (legacy_payload ciphertext) [
    | none ↦ ok none
    | some (version, rest) ↦ do
      key ← pair_key receiver sender_pubkey
      decrypted ← or_err not_unsealed (
          p.unseal key (take 12 rest) (message_aad sender_pubkey receiver.public_key)
            (drop 12 rest))
      plaintext ← (if version == 3 then unpad_plaintext decrypted else ok decrypted)
      ok (some plaintext)
  ]

  unfoldable pub unseal_payload : Identity → List ℕ → List ℕ → Result (List ℕ)
  unseal_payload receiver sender_pubkey [] = err unsupported
  unseal_payload receiver sender_pubkey (cover ∷ rest) =
      if ltb (1 + length rest) 29 then err unsupported else (do
        key ← pair_key receiver sender_pubkey
        decrypted ← or_err not_unsealed (
            p.unseal key (take 12 rest) (message_aad sender_pubkey receiver.public_key)
              (drop 12 rest))
        unpad_plaintext decrypted)

  unfoldable pub decrypt : Identity → List ℕ → List ℕ → Result (List ℕ)
  decrypt receiver sender_pubkey ciphertext =
      if ltb 143360 (length ciphertext) then err content_too_large else (do
        legacy ← decrypt_legacy_hex receiver sender_pubkey ciphertext
        elim legacy [
          | some plaintext ↦ ok plaintext
          | none ↦ do
            payload ← decode_base64url_no_pad ciphertext
            unseal_payload receiver sender_pubkey payload
        ])
