-- ===== src/Storage/MetaKeys.antt =====
-- mistlib-core/src/storage/meta.rs: the keys of the metadata. A text is the list of its bytes.
use mistlib.Base.{
  ℕ, ◌+◌, ◌/◌, ◌%◌, ◌≡◌, ◌≢◌, ◌<◌, refl, List, [], ◌∷◌, Bool, true, false, ltb, leb, ◌==◌,
  if◌then◌else◌, length, All, String, arith,
}
use mistlib.Messages.{Result, ok, err, internal}

abbrev pub max_meta_key_bytes : ℕ
max_meta_key_bytes = 512

abbrev pub max_meta_value_bytes : ℕ
max_meta_value_bytes = 1048576

-- The texts of the errors name the length, and are parameters.
unfoldable pub validate_meta_key : (ℕ → String) → List ℕ → Result (Unit {0})
validate_meta_key exceeds [] = err (internal "meta key must not be empty")
validate_meta_key exceeds (b ∷ key) =
    if ltb max_meta_key_bytes (length (b ∷ key))
    then err (internal (exceeds (length (b ∷ key))))
    else ok tt

unfoldable pub validate_meta_value : (ℕ → String) → ℕ → Result (Unit {0})
validate_meta_value exceeds len =
    if ltb max_meta_value_bytes len then err (internal (exceeds len)) else ok tt

-- A digit of `{:02x}`.
unfoldable pub hex_digit : ℕ → ℕ
hex_digit d = if ltb d 10 then 48 + d else 87 + d

unfoldable pub hex_bytes : List ℕ → List ℕ
unfolding hex_digit
hex_bytes [] = []
hex_bytes (b ∷ key) = hex_digit (b / 16) ∷ hex_digit (b % 16) ∷ hex_bytes key

-- `m_` and the bytes in hexadecimal.
unfoldable pub encode_meta_key : List ℕ → List ℕ
unfolding hex_bytes
encode_meta_key key = 109 ∷ 95 ∷ hex_bytes key

-- A byte of a file name: a lower-case letter, a digit or the underscore.
abbrev pub is_safe : ℕ → Bool
is_safe c =
    if leb 97 c then leb c 122 else if leb 48 c then (if leb c 57 then true else c == 95) else false

hex_bytes-injective :
    (a b : List ℕ) → All (λ c. c < 256) a → All (λ c. c < 256) b → hex_bytes a ≡ hex_bytes b → a ≡ b
unfolding hex_bytes
hex_bytes-injective [] [] ha hb h = refl
hex_bytes-injective [] (y ∷ b) ha hb h = cc
hex_bytes-injective (x ∷ a) [] ha hb h = cc
hex_bytes-injective (x ∷ a) (y ∷ b) ha hb h =
    ground (arith, hex_bytes-injective a b ha.1 hb.1, ha.0, hb.0)

hex_bytes-safe :
    (key : List ℕ) → All (λ c. c < 256) key → All (λ c. is_safe c ≡ true) (hex_bytes key)
unfolding hex_bytes
hex_bytes-safe [] h = tt
hex_bytes-safe (b ∷ key) h = (ground (arith, h.0), (ground (arith, h.0), hex_bytes-safe key h.1))

-- Different keys, as lists of bytes, have different file names, with no byte but lower-case letters,
-- digits and the underscore.
pub encode_meta_key-injective :
    (a b : List ℕ)
    → All (λ c. c < 256) a
    → All (λ c. c < 256) b
    → a ≢ b
    → (encode_meta_key a ≢ encode_meta_key b) × All (λ c. is_safe c ≡ true) (encode_meta_key a)
unfolding encode_meta_key
encode_meta_key-injective a b ha hb differ = (
  λ h. differ (hex_bytes-injective a b ha hb (ground (arith, h))),
  (refl, (refl, hex_bytes-safe a ha)),
)
