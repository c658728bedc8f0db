-- ===== src/Tests/Nostr.antt =====
-- Runs of mistlib-core/src/signaling/nostr: the table of the discovery, and the sealing of a payload.
use mistlib.Base.{
  ℕ, ◌+◌, ◌-◌, ◌≡◌, ◌⊎◌, refl, List, [], ◌∷◌, ◌++◌, none, some, true, String_discrete, take, length,
  length-append, take-length, is_some, All, All-append, arith, suc, zero, ltb, ◌<◌, if◌then◌else◌,
  all, subst, ap, Bool-cases, inl, inr,
}
use mistlib.Messages.{ok}
use mistlib.Signaling.Nostr.Discovery.{
  DiscoveryTable, NodeBinding, sweep_expired, touch_node, renew, bind_node_with_epoch,
  enter_binding, judge_binding, epoch_is_newer, insert_pubkey_with_rank, forget_previous,
  later_expiry,
}
use mistlib.Signaling.Nostr.Discovery.Binding.{Op, bind, touch, sweep, Succeeds}
use mistlib.Signaling.Nostr.Discovery.Succession.{run-Succeeds}
use mistlib.Signaling.Nostr.Discovery.Responders.{
  ranked_pubkeys, responder_pubkeys_for, dedup_pubkeys, sort_ranked, push_missing, ranked_le,
}
use mistlib.Storage.Wants.Order.{str_le}
use mistlib.Signaling.Nostr.Discovery.Backwards.{IsTold, responder_pubkeys_for-IsBackwards}
use mistlib.Signaling.Nostr.Crypto.Padding.{pad_plaintext, IsPadded, pad_plaintext-IsPadded}
use mistlib.Signaling.Nostr.Crypto.Armor.{
  encode_base64url_no_pad, decode_base64url_no_pad, decode-encode,
}
use mistlib.Signaling.Nostr.Crypto.Cipher.{
  Primitives, Identity, encrypt, decrypt, legacy_payload, hex_decode, hex_nibble, compress,
  public_key_from_xonly,
}
use mistlib.Signaling.Nostr.Crypto.Opened.{IsCipher}
use mistlib.Signaling.Nostr.Crypto.RoundTrip.{decrypt-encrypt}

abbrev old : NodeBinding
old = record { pubkey = "k"; epoch = some 3 }

abbrev new : NodeBinding
new = record { pubkey = "l"; epoch = some 4 }

abbrev table : DiscoveryTable
table = record {
  by_pubkey = ("k", record { signaling_pubkey = "k"; expires_at = 100; topology_rank = "r" }) ∷ [];
  node_to_pubkey = ("a", old) ∷ [];
}

-- The node is heard of, and then reloads with a new key.
abbrev events : List Op
events = touch 10 "a" 120 ∷ bind 20 20 "a" "l" 300 "r" (some 4) ∷ sweep 150 ∷ []

run-Succeeds_example : Succeeds old new
unfolding String_discrete sweep_expired touch_node renew bind_node_with_epoch enter_binding
    judge_binding epoch_is_newer insert_pubkey_with_rank forget_previous later_expiry
run-Succeeds_example =
    run-Succeeds "a" events old new table (refl, tt) refl (tt, refl, (refl, refl, (tt, refl, tt)))
      refl

-- The subject is the second of three ranks: it is told of the first, and then of the third.
responder_pubkeys_for-IsBackwards_example :
    IsTold 10 "m" "s" "n" "t" 2 table (responder_pubkeys_for 10 "m" "s" "n" "t" 2 table).0
responder_pubkeys_for-IsBackwards_example =
    responder_pubkeys_for-IsBackwards 10 "m" "s" "n" "t" 2 table (refl, tt)

responders_run : (responder_pubkeys_for 10 "m" "s" "n" "t" 2 table).0 ≡ "k" ∷ "n" ∷ []
unfolding responder_pubkeys_for ranked_pubkeys dedup_pubkeys sort_ranked push_missing sweep_expired
    String_discrete ranked_le str_le
responders_run = refl

abbrev zeros : ℕ → List ℕ
zeros zero = []
zeros (suc n) = 0 ∷ zeros n

length-zeros : (n : ℕ) → length (zeros n) ≡ n
length-zeros zero = refl
length-zeros (suc n) = omega (arith, length-zeros n)

pad_plaintext-IsPadded_example : IsPadded (1 ∷ 2 ∷ []) (pad_plaintext 5 zeros (1 ∷ 2 ∷ []))
pad_plaintext-IsPadded_example = pad_plaintext-IsPadded 5 zeros (1 ∷ 2 ∷ []) length-zeros

decode-encode_example :
    decode_base64url_no_pad (encode_base64url_no_pad (255 ∷ 0 ∷ 17 ∷ 4 ∷ []))
    ≡ ok (255 ∷ 0 ∷ 17 ∷ 4 ∷ [])
decode-encode_example = decode-encode (255 ∷ 0 ∷ 17 ∷ 4 ∷ []) (omega arith)

zeros-bytes : (n : ℕ) → All (λ b. b < 256) (zeros n)
zeros-bytes zero = tt
zeros-bytes (suc n) = (omega arith, zeros-bytes n)

abbrev sum : List ℕ → ℕ
sum [] = 0
sum (b ∷ bytes) = b + sum bytes

-- A cipher that only appends a tag.
abbrev plain : Primitives
plain = record {
  SigningKey = List ℕ;
  PublicKey = List ℕ;
  from_bytes = some;
  from_sec1_bytes = some;
  diffie_hellman = λ secret public. (sum secret + sum public) ∷ [];
  hkdf = λ salt secret context. some (zeros 32);
  seal = λ key nonce aad message.
      if all (λ b. ltb b 256) message then some (message ++ zeros 16) else none;
  unseal = λ key nonce aad sealed. some (take (length sealed - 16) sealed);
}

all-All : (bytes : List ℕ) → all (λ b. ltb b 256) bytes ≡ true → All (λ b. b < 256) bytes
all-All [] h = tt
all-All (b ∷ bytes) h = ground (arith, h, all-All bytes)

All-all : (bytes : List ℕ) → All (λ b. b < 256) bytes → all (λ b. ltb b 256) bytes ≡ true
All-all [] h = refl
All-all (b ∷ bytes) h = ground (arith, h.0, All-all bytes h.1)

-- A sealed message is the message and the tag.
sealed_so :
    (message sealed : List ℕ)
    → (if all (λ b. ltb b 256) message then some (message ++ zeros 16) else none) ≡ some sealed
    → (message ++ zeros 16 ≡ sealed) × All (λ b. b < 256) message
sealed_so message sealed h = elim (Bool-cases (all (λ b. ltb b 256) message)) [
  | inl bytes ↦ let made = rw bytes at h in ((cc), all-All message bytes)
  | inr other ↦ let made = rw other at h in cc
]

plain-IsCipher : IsCipher plain
plain-IsCipher = record {
  derives = λ salt secret context. (zeros 32, refl, refl);
  seals = λ key nonce aad message long twelve small bytes.
      (message ++ zeros 16, rw (All-all message bytes) refl);
  unseals = λ key nonce aad message sealed h.
      let (same, bytes) = sealed_so message sealed h in
      subst (λ c. plain.unseal key nonce aad c ≡ some message) same
        (let long : length (message ++ zeros 16) - 16 ≡ length message =
            omega (arith, length-append message (zeros 16)) in
          ap some (rw long (take-length message (zeros 16))));
  tagged = λ key nonce aad message sealed h.
      let (same, bytes) = sealed_so message sealed h in
      subst (λ c. length c ≡ length message + 16) same (length-append message (zeros 16));
  gives_bytes = λ key nonce aad message sealed h.
      let (same, bytes) = sealed_so message sealed h in
      subst (All (λ b. b < 256)) same
        (All-append (λ b. b < 256) message (zeros 16) bytes (zeros-bytes 16));
}

abbrev repeat : ℕ → ℕ → List ℕ
repeat zero b = []
repeat (suc n) b = b ∷ repeat n b

-- An identity is the hexadecimal digits of its secret.
abbrev alice : Identity
alice = record { public_key = repeat 64 48; secret_key = repeat 32 0 }

abbrev bob : Identity
bob = record { public_key = repeat 64 49; secret_key = repeat 32 17 }

decrypt-encrypt_example :
    (text : List ℕ) × (encrypt plain
        (1 ∷ [])
        5
        zeros
        (repeat 12 9)
        200
        alice
        bob.public_key
        (104 ∷ 105 ∷ [])
      ≡ ok text)
    × ((is_some (legacy_payload text) ≡ true)
        ⊎ (decrypt plain (1 ∷ []) bob alice.public_key text ≡ ok (104 ∷ 105 ∷ [])))
unfolding public_key_from_xonly hex_decode hex_nibble compress
decrypt-encrypt_example =
    decrypt-encrypt plain (1 ∷ []) alice bob (repeat 32 0) (repeat 32 17) (2 ∷ repeat 32 0)
      (2 ∷ repeat 32 17) 5 zeros (repeat 12 9) 200 (104 ∷ 105 ∷ []) plain-IsCipher refl refl refl
      refl refl length-zeros zeros-bytes refl (omega arith) (omega arith) (omega arith)
      (omega arith)
