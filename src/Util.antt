-- ===== src/Util.antt =====
-- `TtlCache` of mistlib-core/src/util.rs, over keys with a decidable equality. Instants are numbers
-- of one unit; `duration_since` stops at 0, as the subtraction of ℕ does.
pub mod Admission
pub mod Held
pub mod Ledger
use mistlib.Base.{
  ℕ, zero, suc, ◌-◌, List, [], Option, none, some, Bool, true, false, length, retain, ltb, leb,
  if◌then◌else◌,
}
use mistlib.Base.Maps.{contains_key, insert, remove, min_by_key}

pub record TtlCache (K : Type 0) : Type 0 where
  pub ttl : ℕ
  pub max_entries : ℕ
  pub entries : List (K × ℕ)

-- `now.duration_since(inserted_at) < ttl`.
abbrev pub is_fresh : ℕ → ℕ → ℕ → Bool
is_fresh ttl now inserted_at = ltb (now - inserted_at) ttl

module _ {K : Type 0} where
  unfoldable pub new_cache : ℕ → ℕ → TtlCache K
  new_cache ttl max_entries = record { ttl = ttl; max_entries = max_entries; entries = [] }

  unfoldable pub sweep : ℕ → TtlCache K → TtlCache K
  sweep now c = record c { entries = retain (λ e. is_fresh c.ttl now e.1) c.entries }

module _ {K : Type 0} (dec : Discrete K) where
  -- One turn of the loop for each unit of fuel.
  unfoldable pub evict_entries : ℕ → ℕ → List (K × ℕ) → List (K × ℕ)
  evict_entries zero limit m = m
  evict_entries (suc fuel) limit m = elim (leb limit (length m)) [
    | false ↦ m
    | true ↦ elim (min_by_key (λ t. t) m) [
      | none ↦ m
      | some e ↦ evict_entries fuel limit (remove dec e.0 m)
    ]
  ]

  -- Every turn removes an entry, so as many turns as there are entries are enough.
  unfoldable pub evict_oldest_until_below_limit : TtlCache K → TtlCache K
  evict_oldest_until_below_limit c = record c {
    entries = evict_entries (length c.entries) c.max_entries c.entries;
  }

  -- What the two caches of message ids have in common: a key is admitted unless it is there after
  -- the sweep.
  unfoldable pub admit : K → ℕ → TtlCache K → Bool × TtlCache K
  admit key now cache =
      let c = sweep now cache in
      let d = evict_oldest_until_below_limit c in
      if contains_key dec key c.entries
      then (false, c)
      else (true, record d { entries = insert dec key now d.entries })
