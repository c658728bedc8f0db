-- ===== src/Signaling/Nostr/Crypto/Padding.antt =====
-- signaling/nostr/crypto/padding.rs. The random number, of 32 bits, and the random bytes are arguments.
use mistlib.Base.{
  ℕ, zero, suc, ◌+◌, ◌-◌, ◌*◌, ◌/◌, ◌%◌, ◌≤◌, ◌<◌, ◌≡◌, inl, inr, refl, subst, List, [], ◌∷◌, ◌++◌,
  ltb, leb, if◌then◌else◌, length, length-append, All-append, take, take-length, All, arith,
  Bool-cases,
}
use mistlib.Messages.{MistError, Result, ok, err, signaling}

abbrev pub max_nostr_signaling_plaintext_bytes : ℕ
max_nostr_signaling_plaintext_bytes = 65536

abbrev pub too_large : MistError
too_large = signaling "Nostr signaling payload is too large"

abbrev pub invalid_padding : MistError
invalid_padding = signaling "invalid padded Nostr payload"

abbrev pub overflow_padding_block_bytes : ℕ
overflow_padding_block_bytes = 1024

-- The targets that a body fits, in their order.
unfoldable pub candidates : ℕ → List ℕ → List ℕ
candidates body_len [] = []
candidates body_len (target ∷ targets) =
    let rest = candidates body_len targets in if leb body_len target then target ∷ rest else rest

abbrev pub random_padding_target_bytes : List ℕ
random_padding_target_bytes = 1024 ∷ 2048 ∷ 4096 ∷ 8192 ∷ []

-- The candidate at an index, which is in range.
unfoldable pub pick : List ℕ → ℕ → ℕ → ℕ
pick [] index default = default
pick (c ∷ cs) zero default = c
pick (c ∷ cs) (suc index) default = pick cs index default

-- `next_multiple_of`.
unfoldable pub next_multiple_of : ℕ → ℕ → ℕ
next_multiple_of block n = (n + (block - 1)) / block * block

unfoldable pub choose : ℕ → ℕ → List ℕ → ℕ
choose random body_len [] = next_multiple_of overflow_padding_block_bytes body_len
choose random body_len (c ∷ cs) = pick (c ∷ cs) (random % length (c ∷ cs)) c

unfoldable pub random_padded_len : ℕ → ℕ → ℕ
unfolding candidates pick next_multiple_of choose
random_padded_len random body_len =
    choose random body_len (candidates body_len random_padding_target_bytes)

-- `u32::to_be_bytes`.
unfoldable pub to_be_bytes : ℕ → List ℕ
to_be_bytes n = (n / 16777216 % 256) ∷ (n / 65536 % 256) ∷ (n / 256 % 256) ∷ (n % 256) ∷ []

-- `noise` gives as many random bytes as are asked for.
unfoldable pub pad_plaintext : ℕ → (ℕ → List ℕ) → List ℕ → Result (List ℕ)
unfolding to_be_bytes
pad_plaintext random noise plaintext =
    if ltb max_nostr_signaling_plaintext_bytes (length plaintext)
    then err too_large
    else (let body_len = 4 + length plaintext in
        let padded_len = random_padded_len random body_len in
        ok (to_be_bytes (length plaintext) ++ (plaintext ++ noise (padded_len - body_len))))

-- `u32::from_be_bytes`, and the bytes after it.
unfoldable pub unpad_body : ℕ → List ℕ → Result (List ℕ)
unpad_body plaintext_len rest =
    if ltb max_nostr_signaling_plaintext_bytes plaintext_len
    then err too_large
    else if ltb (4 + length rest) (4 + plaintext_len)
    then err invalid_padding
    else ok (take plaintext_len rest)

unfoldable pub unpad_plaintext : List ℕ → Result (List ℕ)
unfolding unpad_body
unpad_plaintext (a ∷ b ∷ c ∷ d ∷ rest) = unpad_body (a * 16777216 + b * 65536 + c * 256 + d) rest
unpad_plaintext _ = err invalid_padding

-- The length that is read is the one that was written.
be_bytes :
    (n : ℕ)
    → n ≤ 65536
    → n / 16777216 % 256 * 16777216 + n / 65536 % 256 * 65536 + n / 256 % 256 * 256 + n % 256 ≡ n
be_bytes n h = omega arith

length-to_be_bytes : (n : ℕ) → length (to_be_bytes n) ≡ 4
unfolding to_be_bytes
length-to_be_bytes n = refl

-- A length that a body of some length may be padded to.
abbrev Fits : ℕ → ℕ → Type 0
Fits body_len n = (body_len ≤ n) × (n % 1024 ≡ 0) × (n ≤ body_len + 8192)

candidates-Fits :
    (body_len : ℕ) (targets : List ℕ)
    → All (λ n. (n % 1024 ≡ 0) × (n ≤ 8192)) targets
    → All (Fits body_len) (candidates body_len targets)
unfolding candidates
candidates-Fits body_len [] h = tt
candidates-Fits body_len (t ∷ targets) h =
    ground (arith, candidates-Fits body_len targets, h.0, h.1)

pick-Fits :
    (body_len : ℕ) (cs : List ℕ) (index default : ℕ)
    → All (Fits body_len) cs
    → Fits body_len default
    → Fits body_len (pick cs index default)
unfolding pick
pick-Fits body_len [] index default all h = h
pick-Fits body_len (c ∷ cs) zero default all h = all.0
pick-Fits body_len (c ∷ cs) (suc index) default all h = pick-Fits body_len cs index default all.1 h

choose-Fits :
    (random body_len : ℕ) (cs : List ℕ)
    → All (Fits body_len) cs
    → Fits body_len (choose random body_len cs)
unfolding choose next_multiple_of
choose-Fits random body_len [] all = (omega arith, omega arith, omega arith)
choose-Fits random body_len (c ∷ cs) all =
    pick-Fits body_len (c ∷ cs) (random % length (c ∷ cs)) c all all.0

padded_len-Fits : (random body_len : ℕ) → Fits body_len (random_padded_len random body_len)
unfolding random_padded_len
padded_len-Fits random body_len =
    choose-Fits random body_len (candidates body_len random_padding_target_bytes)
      (candidates-Fits body_len random_padding_target_bytes (omega arith))

-- What padding a payload gives.
abbrev pub IsPadded : List ℕ → Result (List ℕ) → Type 0
IsPadded plaintext (err e) = 65536 < length plaintext
IsPadded plaintext (ok padded) =
    (length plaintext ≤ 65536)
    × (unpad_plaintext padded ≡ ok plaintext)
    × (length padded % 1024 ≡ 0)
    × (4 + length plaintext ≤ length padded)
    × (length padded ≤ length plaintext + 8196)

unpads :
    (plaintext rest : List ℕ)
    → length plaintext ≤ 65536
    → unpad_plaintext (to_be_bytes (length plaintext) ++ (plaintext ++ rest)) ≡ ok plaintext
unfolding unpad_plaintext to_be_bytes
unpads plaintext rest small =
    rw (be_bytes (length plaintext) small)
      (ground (arith, take-length plaintext rest, length-append plaintext rest))

-- A payload of at most 64 KiB is padded, whatever is random, and unpadding gives it back: to a
-- multiple of 1 KiB that holds it and the four bytes of its length, and is at most 8 KiB larger than
-- that. A larger payload is refused.
pub pad_plaintext-IsPadded :
    (random : ℕ) (noise : ℕ → List ℕ) (plaintext : List ℕ)
    → ((n : ℕ) → length (noise n) ≡ n)
    → IsPadded plaintext (pad_plaintext random noise plaintext)
unfolding pad_plaintext
pad_plaintext-IsPadded random noise plaintext full =
    let body_len = 4 + length plaintext in
    let filler = noise (random_padded_len random body_len - body_len) in
    let fits = padded_len-Fits random body_len in
    let count = full (random_padded_len random body_len - body_len) in
    elim (Bool-cases (ltb max_nostr_signaling_plaintext_bytes (length plaintext))) [
      | inl large ↦ rw large (ground (arith, large))
      | inr small ↦
          let le : length plaintext ≤ 65536 = ground (arith, small) in
          let all : length (to_be_bytes (length plaintext) ++ (plaintext ++ filler))
              ≡ random_padded_len random body_len =
            omega (
              arith,
              length-append (to_be_bytes (length plaintext)) (plaintext ++ filler),
              length-append plaintext filler,
              length-to_be_bytes (length plaintext),
              count,
              fits,
            ) in
          rw small (
            le,
            unpads plaintext filler le,
            omega (arith, all, fits),
            omega (arith, all, fits),
            omega (arith, all, fits),
          )
    ]

-- What is padded is bytes.
pub pad_plaintext-bytes :
    (random : ℕ) (noise : ℕ → List ℕ) (plaintext bytes : List ℕ)
    → ((n : ℕ) → All (λ b. b < 256) (noise n))
    → All (λ b. b < 256) plaintext
    → pad_plaintext random noise plaintext ≡ ok bytes
    → All (λ b. b < 256) bytes
unfolding pad_plaintext to_be_bytes
pad_plaintext-bytes random noise plaintext bytes noisy all done =
    let filler = noise (random_padded_len random (4 + length plaintext) - (4 + length plaintext)) in
    elim (Bool-cases (ltb max_nostr_signaling_plaintext_bytes (length plaintext))) [
      | inl large ↦ let clash = rw large at done in cc
      | inr small ↦
          let same : to_be_bytes (length plaintext) ++ (plaintext ++ filler) ≡ bytes =
            (let fits = rw small at done in cc) in
          subst (All (λ b. b < 256)) same (
            omega arith,
            (
              omega arith,
              (
                omega arith,
                (
                  omega arith,
                  All-append (λ b. b < 256) plaintext filler all
                      (noisy
                        (random_padded_len random (4 + length plaintext) - (4 + length plaintext))),
                ),
              ),
            ),
          )
    ]
