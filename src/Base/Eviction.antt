-- ===== src/Base/Eviction.antt =====
-- Bounded maps: the entry of the least rank makes room for a new key.
use mathlib.Core.Path.{◌≡◌, refl, ap, ◌∙◌}
use mathlib.Core.Logic.{◌⊎◌, inl, inr, if_pos, if_neg}
use mathlib.Core.Bool.{true, false}
use mathlib.Core.List.{List, [], ◌∷◌}
use mathlib.Core.Option.{none, some}
use native.Mathlib.Omega.{arith}
use Prim.Native.Nat.{ℕ, ◌≤◌, ◌<◌}
use mistlib.Base.Tests.{ltb, if◌then◌else◌, Bool-cases, Option-cases}
use mistlib.Base.Lists.{length}
use mistlib.Base.Maps.{
  get, contains_key, insert, remove, Uniq, min_by_key, min_by_key-contains, length-remove-lt,
  length-insert, get-remove, remove-Uniq,
}

module _ {K V : Type 0} (dec : Discrete K) (rank : V → ℕ) where
  -- Removes the entry of the least rank.
  unfoldable pub evict_oldest : List (K × V) → List (K × V)
  unfolding min_by_key
  evict_oldest m = elim (min_by_key rank m) [ none ↦ m | some (oldest, _) ↦ remove dec oldest m ]

  -- Removes one, if the map is full and the key is new.
  unfoldable pub make_room : ℕ → K → List (K × V) → List (K × V)
  unfolding evict_oldest
  make_room limit k m =
      if ltb (length m) limit then m else if contains_key dec k m then m else evict_oldest m

  evict_oldest-cases :
      (m : List (K × V))
      → ((m ≡ []) × (evict_oldest m ≡ []))
        ⊎ ((k : K) × (contains_key dec k m ≡ true) × (evict_oldest m ≡ remove dec k m))
  unfolding evict_oldest
  evict_oldest-cases [] = inl (refl, refl)
  evict_oldest-cases (x ∷ m) = inr (_, min_by_key-contains dec rank (x ∷ m) _ refl, refl)

  pub length-evict_oldest : (m : List (K × V)) → 1 ≤ length m → length (evict_oldest m) < length m
  length-evict_oldest m h = elim (evict_oldest-cases m) [
    | inl (e, _) ↦ absurd (ground arith)
    | inr (k, found, e) ↦ rw e (length-remove-lt dec k m found)
  ]

  pub get-evict_oldest :
      (j : K) (m : List (K × V))
      → (get dec j (evict_oldest m) ≡ get dec j m) ⊎ (get dec j (evict_oldest m) ≡ none)
  get-evict_oldest j m = elim (evict_oldest-cases m) [
    | inl (e, e') ↦ inl (rw (e', e))
    | inr (k, found, e) ↦ rw e (ground (arith, get-remove dec k j m))
  ]

  -- Only the entry of the least rank goes.
  pub evict_oldest-only :
      (j : K) (m : List (K × V))
      → (get dec j (evict_oldest m) ≡ get dec j m)
        ⊎ ((get dec j (evict_oldest m) ≡ none) × (v : V) × (min_by_key rank m ≡ some (j, v)))
  unfolding evict_oldest
  evict_oldest-only j m = elim (Option-cases (min_by_key rank m)) [
    | inl none_left ↦ inl (rw (none_left, evict_oldest) refl)
    | inr ((k, v), found) ↦ elim (dec k j) [
      | yes same ↦ inr (
        rw (found, evict_oldest) (get-remove dec k j m ∙ if_pos (dec k j) same _ _),
        v,
        found ∙ ap (λ i. some (i, v)) same,
      )
      | no differ ↦
          inl (rw (found, evict_oldest) (get-remove dec k j m ∙ if_neg (dec k j) differ _ _))
    ]
  ]

  pub evict_oldest-Uniq : (m : List (K × V)) → Uniq dec m → Uniq dec (evict_oldest m)
  evict_oldest-Uniq m u = elim (evict_oldest-cases m) [
    | inl (e, e') ↦ rw e' tt
    | inr (k, found, e) ↦ rw e (remove-Uniq dec k m u)
  ]

  -- The bound is kept by an insertion behind `make_room`.
  pub length-insert-make_room :
      (limit : ℕ) (k : K) (v : V) (m : List (K × V))
      → 1 ≤ limit
      → length m ≤ limit
      → length (insert dec k v (make_room limit k m)) ≤ limit
  unfolding make_room
  length-insert-make_room limit k v m pos h = ground (
    arith,
    length-insert dec k v m,
    length-insert dec k v (evict_oldest m),
    length-evict_oldest m,
  )

  -- A key that is there stays, and below the limit every key does.
  pub get-make_room_self :
      (limit : ℕ) (k : K) (m : List (K × V)) → get dec k (make_room limit k m) ≡ get dec k m
  unfolding make_room
  get-make_room_self limit k m = ground (arith, get-evict_oldest k m)

  -- The entry of the least rank goes, if the map is full and the key is new; every other stays.
  pub make_room-only :
      (limit : ℕ) (k j : K) (m : List (K × V))
      → (get dec j (make_room limit k m) ≡ get dec j m)
        ⊎ ((get dec j (make_room limit k m) ≡ none)
            × (limit ≤ length m)
            × (contains_key dec k m ≡ false)
            × (v : V) × (min_by_key rank m ≡ some (j, v)))
  unfolding make_room
  make_room-only limit k j m = elim (Bool-cases (ltb (length m) limit)) [
    | inl below ↦ inl (rw (below, make_room) refl)
    | inr full ↦ elim (Bool-cases (contains_key dec k m)) [
      | inl there ↦ inl (rw (full, make_room, there) refl)
      | inr new ↦ elim (evict_oldest-only j m) [
        | inl same ↦ inl (rw (full, make_room, new) same)
        | inr (gone, v, least) ↦
            inr (rw (full, make_room, new) gone, ground (arith, full), new, v, least)
      ]
    ]
  ]
