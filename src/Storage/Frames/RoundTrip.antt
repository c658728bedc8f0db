-- ===== src/Storage/Frames/RoundTrip.antt =====
-- protocol.rs: the builders and the classifier of frames are inverse to each other.
use mistlib.Base.{
  ℕ, ◌+◌, ◌*◌, ◌/◌, ◌%◌, ◌≤◌, ◌<◌, ◌≡◌, refl, List, [], ◌∷◌, ◌++◌, Option, none, some, true, length,
  length-append, take-length, drop-length, take-append-drop, length-take, All, arith, Bool-cases,
  inl, inr, ltb, leb, ◌==◌, ==_iff, ◌||◌, if◌then◌else◌,
}
use mistlib.Storage.Cid.{is_valid_cid}
use mistlib.Storage.Frames.{
  StorageFrame, want, have, query, have_status, have_chunk, parse_cid, classify_have,
  classify_have_chunk, classify_chunk_body, classify_storage_frame, build_have_message,
  build_have_chunk_message, build_want_message, build_query_message, build_have_status_message,
  max_want_chunks, split_at, ◌>>=◌, msg_want, msg_query, msg_have_status, msg_have, msg_have_chunk,
  from_be,
}

-- The bytes of a frame.
unfoldable pub encode : StorageFrame → List ℕ
unfolding build_have_message build_have_chunk_message build_want_message build_query_message
    build_have_status_message
encode (want cid) = build_want_message cid
encode (have cid payload) = build_have_message cid payload
encode (query cid) = build_query_message cid
encode (have_status cid) = build_have_status_message cid
encode (have_chunk cid chunk_index chunk_total payload) =
    build_have_chunk_message cid chunk_index chunk_total payload

-- A valid CID, and a chunk that is one of at most `MAX_WANT_CHUNKS`.
abbrev pub IsFrame : StorageFrame → Type 0
IsFrame (want cid) = is_valid_cid cid ≡ true
IsFrame (have cid payload) = is_valid_cid cid ≡ true
IsFrame (query cid) = is_valid_cid cid ≡ true
IsFrame (have_status cid) = is_valid_cid cid ≡ true
IsFrame (have_chunk cid chunk_index chunk_total payload) =
    (is_valid_cid cid ≡ true) × (chunk_total ≤ max_want_chunks) × (chunk_index < chunk_total)

valid-length : (cid : List ℕ) → is_valid_cid cid ≡ true → length cid ≤ 128
unfolding is_valid_cid
valid-length cid h = ground arith

parse_cid-valid : (cid : List ℕ) → is_valid_cid cid ≡ true → parse_cid cid ≡ some cid
unfolding parse_cid
parse_cid-valid cid h = ground (arith, valid-length cid h)

split_at-append : (xs ys : List ℕ) → split_at (length xs) (xs ++ ys) ≡ some (xs, ys)
split_at-append xs ys = ground (arith, length-append xs ys, take-length xs ys, drop-length xs ys)

classify_have-build :
    (cid payload : List ℕ)
    → is_valid_cid cid ≡ true
    → classify_have ((length cid % 256) ∷ (cid ++ payload)) ≡ some (have cid payload)
unfolding classify_have
classify_have-build cid payload h =
    let len : length cid % 256 ≡ length cid = omega (arith, valid-length cid h) in
    rw (len, split_at-append cid payload, parse_cid-valid cid h)

classify_chunk_body-build :
    (cid payload : List ℕ) (chunk_index chunk_total : ℕ)
    → is_valid_cid cid ≡ true
    → chunk_total ≤ max_want_chunks
    → chunk_index < chunk_total
    → classify_chunk_body (length cid % 256) chunk_index chunk_total (cid ++ payload)
      ≡ some (have_chunk cid chunk_index chunk_total payload)
unfolding classify_chunk_body
classify_chunk_body-build cid payload chunk_index chunk_total h few inside =
    let len : length cid % 256 ≡ length cid = omega (arith, valid-length cid h) in
    rw (len, split_at-append cid payload, parse_cid-valid cid h) (ground arith)

-- A frame with a valid CID is read back as it was built; one with a chunk, if the chunks are at most
-- 8192 and its index is below their number.
pub classify-encode : (f : StorageFrame) → IsFrame f → classify_storage_frame (encode f) ≡ some f
unfolding encode classify_storage_frame classify_have_chunk
classify-encode (want cid) h = rw (parse_cid-valid cid h)
classify-encode (have cid payload) h = classify_have-build cid payload h
classify-encode (query cid) h = rw (parse_cid-valid cid h)
classify-encode (have_status cid) h = rw (parse_cid-valid cid h)
classify-encode (have_chunk cid chunk_index chunk_total payload) (h, few, inside) =
    let index : (chunk_index / 256 % 256) * 256 + chunk_index % 256 ≡ chunk_index = omega arith in
    let total : (chunk_total / 256 % 256) * 256 + chunk_total % 256 ≡ chunk_total = omega arith in
    rw (index, total) (classify_chunk_body-build cid payload chunk_index chunk_total h few inside)

parse_cid-some :
    (bytes cid : List ℕ) → parse_cid bytes ≡ some cid → (bytes ≡ cid) × (is_valid_cid cid ≡ true)
unfolding parse_cid
parse_cid-some bytes cid h = ground arith

split_at-some :
    (n : ℕ) (xs head rest : List ℕ)
    → split_at n xs ≡ some (head, rest)
    → (head ++ rest ≡ xs) × (length head ≡ n)
split_at-some n xs head rest h = ground (arith, take-append-drop n xs, length-take n xs)

bind-some :
    {A B : Type 0} (m : Option A) (f : A → Option B) {b : B}
    → (m >>= f) ≡ some b
    → (a : A) × (m ≡ some a) × (f a ≡ some b)
bind-some none f h = cc
bind-some (some a) f h = (a, refl, h)

-- The CID and the payload that a body splits into.
body-some :
    {cid_len : ℕ} {body : List ℕ} (make : List ℕ → List ℕ → StorageFrame) (f : StorageFrame)
    → (do (head, payload) ← split_at cid_len body; cid ← parse_cid head; some (make cid payload))
      ≡ some f
    → (cid : List ℕ) × (payload : List ℕ) × (f ≡ make cid payload)
      × (cid ++ payload ≡ body)
      × (length cid ≡ cid_len)
      × (is_valid_cid cid ≡ true)
body-some {cid_len} {body} make f h =
    let (parts, split, after) = bind-some (split_at cid_len body) _ h in
    let (cid, parsed, made) = bind-some (parse_cid parts.0) _ after in
    let (same, valid) = parse_cid-some parts.0 cid parsed in
    let (whole, size) = split_at-some cid_len body parts.0 parts.1 split in
    (cid, parts.1, cc, rw (← same) whole, rw (← same) size, valid)

classify_have-some :
    (rest : List ℕ) (f : StorageFrame)
    → All (λ b. b < 256) rest
    → classify_have rest ≡ some f
    → (encode f ≡ msg_have ∷ rest) × IsFrame f
unfolding classify_have encode
classify_have-some [] f bytes h = cc
classify_have-some (cid_len ∷ body) f bytes h =
    let (cid, payload, made, whole, size, valid) = body-some have f h in
    let len : length cid % 256 ≡ cid_len = omega arith in rw (made, len, whole) (refl, valid)

-- The frames that are a tag and a CID.
plain-some :
    (make : List ℕ → StorageFrame) (rest : List ℕ) (f : StorageFrame)
    → (do cid ← parse_cid rest; some (make cid)) ≡ some f
    → (f ≡ make rest) × (is_valid_cid rest ≡ true)
plain-some make rest f h =
    let (cid, parsed, made) = bind-some (parse_cid rest) _ h in
    let (same, valid) = parse_cid-some rest cid parsed in (rw same (cc), rw same valid)

chunk_header :
    (chunk_index chunk_total : ℕ) (rest : Option StorageFrame) {f : StorageFrame}
    → (if chunk_total == 0 || (ltb max_want_chunks chunk_total || leb chunk_total chunk_index)
        then none
        else rest)
      ≡ some f
    → (chunk_total ≤ max_want_chunks) × (chunk_index < chunk_total) × (rest ≡ some f)
chunk_header chunk_index chunk_total rest h = ground arith

classify_have_chunk-some :
    (rest : List ℕ) (f : StorageFrame)
    → All (λ b. b < 256) rest
    → classify_have_chunk rest ≡ some f
    → (encode f ≡ msg_have_chunk ∷ rest) × IsFrame f
unfolding classify_have_chunk classify_chunk_body encode
classify_have_chunk-some (cid_len ∷ i₁ ∷ i₀ ∷ t₁ ∷ t₀ ∷ body) f bytes h =
    let inside = chunk_header (from_be i₁ i₀) (from_be t₁ t₀) _ h in
    let (cid, payload, made, whole, size, valid) =
      body-some (λ c p. have_chunk c (from_be i₁ i₀) (from_be t₁ t₀) p) f inside.2 in
    let len : length cid % 256 ≡ cid_len = omega arith in
    let b₁ : from_be i₁ i₀ / 256 % 256 ≡ i₁ = omega arith in
    let b₀ : from_be i₁ i₀ % 256 ≡ i₀ = omega arith in
    let c₁ : from_be t₁ t₀ / 256 % 256 ≡ t₁ = omega arith in
    let c₀ : from_be t₁ t₀ % 256 ≡ t₀ = omega arith in
    rw (made, len, b₁, b₀, c₁, c₀, whole) (refl, (valid, inside.0, inside.1))
classify_have_chunk-some _ f bytes h = cc

-- Bytes that are read as a frame are the bytes that this frame is built with: the classifier accepts
-- nothing else.
pub encode-classify :
    (raw : List ℕ) (f : StorageFrame)
    → All (λ b. b < 256) raw
    → classify_storage_frame raw ≡ some f
    → (encode f ≡ raw) × IsFrame f
unfolding classify_storage_frame encode
encode-classify [] f bytes h = cc
encode-classify (tag ∷ rest) f bytes h = elim (Bool-cases (tag == msg_want)) [
  | inl is ↦
      let (made, valid) = plain-some want rest f (rw is at h) in
      rw (made, (==_iff tag msg_want).0 is) (refl, valid)
  | inr w ↦ elim (Bool-cases (tag == msg_query)) [
    | inl is ↦
        let (made, valid) = plain-some query rest f (rw (w, is) at h) in
        rw (made, (==_iff tag msg_query).0 is) (refl, valid)
    | inr q ↦ elim (Bool-cases (tag == msg_have_status)) [
      | inl is ↦
          let (made, valid) = plain-some have_status rest f (rw (w, q, is) at h) in
          rw (made, (==_iff tag msg_have_status).0 is) (refl, valid)
      | inr s ↦ elim (Bool-cases (tag == msg_have)) [
        | inl is ↦
            rw ((==_iff tag msg_have).0 is)
              (classify_have-some rest f bytes.1 (rw (w, q, s, is) at h))
        | inr v ↦ elim (Bool-cases (tag == msg_have_chunk)) [
          | inl is ↦
              rw ((==_iff tag msg_have_chunk).0 is)
                (classify_have_chunk-some rest f bytes.1 (rw (w, q, s, v, is) at h))
          | inr c ↦ let no_frame : none ≡ some f = rw (w, q, s, v, c) at h in cc
        ]
      ]
    ]
  ]
]
