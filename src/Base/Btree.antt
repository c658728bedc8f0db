-- ===== src/Base/Btree.antt =====
-- `BTreeMap` with numeric keys, as a list of entries in the order of their keys.
use mistlib.Base.Tests.{ltb, ◌==◌, if◌then◌else◌}
use mistlib.Base.Lists.{length}
use Prim.Native.Nat.{ℕ, ◌+◌, ◌≤◌, ◌<◌}
use mathlib.Core.Path.{◌≡◌, refl}
use mathlib.Core.List.{List, [], ◌∷◌, map}
use mathlib.Core.Option.{Option, none, some}
use native.Mathlib.Omega.{arith}

module _ {ℓ} {V : Type ℓ} where
  abbrev pub values : List (ℕ × V) → List V
  values = map (λ e. e.1)

  -- An entry with the key is overwritten.
  abbrev pub insert : ℕ → V → List (ℕ × V) → List (ℕ × V)
  insert k v [] = (k, v) ∷ []
  insert k v ((j, w) ∷ m) =
      let rest = insert k v m in
      if ltb k j then (k, v) ∷ (j, w) ∷ m else if k == j then (k, v) ∷ m else (j, w) ∷ rest

  abbrev pub get : ℕ → List (ℕ × V) → Option V
  get k [] = none
  get k ((j, w) ∷ m) = if k == j then some w else get k m

  abbrev pub remove : ℕ → List (ℕ × V) → List (ℕ × V)
  remove k [] = []
  remove k ((j, w) ∷ m) = let rest = remove k m in if k == j then m else (j, w) ∷ rest

  -- `keys().next()` and `iter().next_back()`.
  abbrev pub first_key : List (ℕ × V) → Option ℕ
  first_key [] = none
  first_key ((k, v) ∷ m) = some k

  abbrev pub last_key_from : ℕ → List (ℕ × V) → ℕ
  last_key_from j [] = j
  last_key_from j ((k, v) ∷ m) = last_key_from k m

  abbrev pub last_key : List (ℕ × V) → Option ℕ
  last_key [] = none
  last_key ((k, v) ∷ m) = some (last_key_from k m)

  -- The keys ascend from above `lo`, strictly.
  abbrev pub Above : ℕ → List (ℕ × V) → Type 0
  Above lo [] = Unit
  Above lo ((k, v) ∷ m) = (lo < k) × Above k m

  -- No key reaches `hi`.
  abbrev pub Below : ℕ → List (ℕ × V) → Type 0
  Below hi [] = Unit
  Below hi ((k, v) ∷ m) = (k < hi) × Below hi m

  pub Above-mono : (lo lo' : ℕ) (m : List (ℕ × V)) → lo ≤ lo' → Above lo' m → Above lo m
  Above-mono lo lo' [] h a = tt
  Above-mono lo lo' ((k, v) ∷ m) h a = (omega arith, a.1)

  pub insert-Above :
      (lo k : ℕ) (v : V) (m : List (ℕ × V)) → lo < k → Above lo m → Above lo (insert k v m)
  insert-Above lo k v [] h a = (h, tt)
  insert-Above lo k v ((j, w) ∷ m) h a = ground (arith, insert-Above j k v m, Above-mono k j m)

  pub insert-Below :
      (hi k : ℕ) (v : V) (m : List (ℕ × V)) → k < hi → Below hi m → Below hi (insert k v m)
  insert-Below hi k v [] h a = (h, tt)
  insert-Below hi k v ((j, w) ∷ m) h a = ground (arith, insert-Below hi k v m)

  pub get-Above : (k lo : ℕ) (m : List (ℕ × V)) → Above lo m → k ≤ lo → get k m ≡ none
  get-Above k lo [] a h = refl
  get-Above k lo ((j, w) ∷ m) a h = ground (arith, get-Above k j m)

  pub length-insert : (k : ℕ) (v : V) (m : List (ℕ × V)) → length (insert k v m) ≤ length m + 1
  length-insert k v [] = omega arith
  length-insert k v ((j, w) ∷ m) = ground (arith, length-insert k v m)

  pub last_key_from-le : (lo : ℕ) (m : List (ℕ × V)) → Above lo m → lo ≤ last_key_from lo m
  last_key_from-le lo [] a = omega arith
  last_key_from-le lo ((k, v) ∷ m) a = omega (arith, last_key_from-le k m a.1)

  pub last_key_from-lt :
      (lo hi : ℕ) (m : List (ℕ × V)) → lo < hi → Below hi m → last_key_from lo m < hi
  last_key_from-lt lo hi [] h b = h
  last_key_from-lt lo hi ((k, v) ∷ m) h b = last_key_from-lt k hi m b.0 b.1
