-- ===== src/Base/Maps.antt =====
-- `HashMap` as an association list, whose order stands for the iteration order.
use Prim.Native.Nat.{ℕ, suc, ◌≤◌, ◌<◌}
use mathlib.Core.Path.{◌≡◌, refl, subst}
use mathlib.Core.Logic.{ite, ◌⊎◌, inl, inr}
use mathlib.Core.Bool.{Bool, true}
use mathlib.Core.List.{List, [], ◌∷◌}
use mathlib.Core.Option.{Option, none, some}
use native.Mathlib.Omega.{arith}
use mistlib.Base.Tests.{leb, if◌then◌else◌, is_some, leb→le, not_leb→le, Bool-cases}
use mistlib.Base.Lists.{length, retain, All}

module _ {ℓ} {K V : Type ℓ} (dec : Discrete K) where
  abbrev pub get : K → List (K × V) → Option V
  get k [] = none
  get k ((j, v) ∷ m) = ite (dec j k) (some v) (get k m)

  abbrev pub contains_key : K → List (K × V) → Bool
  contains_key k m = is_some (get k m)

  -- A new key goes to the end.
  abbrev pub insert : K → V → List (K × V) → List (K × V)
  insert k v [] = (k, v) ∷ []
  insert k v ((j, w) ∷ m) = ite (dec j k) ((k, v) ∷ m) ((j, w) ∷ insert k v m)

  abbrev pub remove : K → List (K × V) → List (K × V)
  remove k [] = []
  remove k ((j, v) ∷ m) = let rest = remove k m in ite (dec j k) rest ((j, v) ∷ rest)

  -- No key twice.
  abbrev pub Uniq : List (K × V) → Type ℓ
  Uniq [] = Unit
  Uniq ((k, v) ∷ m) = (get k m ≡ none) × Uniq m

  pub get-insert :
      (k j : K) (v : V) (m : List (K × V)) → get j (insert k v m) ≡ ite (dec k j) (some v) (get j m)
  get-insert k j v [] = refl
  get-insert k j v ((i, w) ∷ m) = ground (arith, get-insert k j v m)

  pub get-remove : (k j : K) (m : List (K × V)) → get j (remove k m) ≡ ite (dec k j) none (get j m)
  get-remove k j [] = ground arith
  get-remove k j ((i, w) ∷ m) = ground (arith, get-remove k j m)

  pub insert-Uniq : (k : K) (v : V) (m : List (K × V)) → Uniq m → Uniq (insert k v m)
  insert-Uniq k v [] u = (refl, tt)
  insert-Uniq k v ((i, w) ∷ m) u = ground (arith, insert-Uniq k v m u.1, get-insert k i v m)

  pub remove-Uniq : (k : K) (m : List (K × V)) → Uniq m → Uniq (remove k m)
  remove-Uniq k [] u = tt
  remove-Uniq k ((i, w) ∷ m) u = ground (arith, remove-Uniq k m u.1, get-remove k i m)

  -- What is under a key goes, however it came there.
  pub remove-insert : (k : K) (v : V) (m : List (K × V)) → remove k (insert k v m) ≡ remove k m
  remove-insert k v [] = ground arith
  remove-insert k v ((i, w) ∷ m) = ground (arith, remove-insert k v m)

  pub length-insert :
      (k : K) (v : V) (m : List (K × V))
      → length (insert k v m) ≡ (if contains_key k m then length m else suc (length m))
  length-insert k v [] = refl
  length-insert k v ((i, w) ∷ m) = ground (arith, length-insert k v m)

  pub length-remove-le : (k : K) (m : List (K × V)) → length (remove k m) ≤ length m
  length-remove-le k [] = omega arith
  length-remove-le k ((i, w) ∷ m) = ground (arith, length-remove-le k m)

  pub length-remove-lt :
      (k : K) (m : List (K × V)) → contains_key k m ≡ true → length (remove k m) < length m
  length-remove-lt k [] h = cc
  length-remove-lt k ((i, w) ∷ m) h = ground (arith, length-remove-lt k m, length-remove-le k m)

  get-retain-none :
      (p : K × V → Bool) (k : K) (m : List (K × V)) → get k m ≡ none → get k (retain p m) ≡ none
  get-retain-none p k [] h = refl
  get-retain-none p k ((i, w) ∷ m) h = ground (arith, get-retain-none p k m)

  -- What `HashMap::retain` keeps under a key, where no key stands twice.
  pub get-retain :
      (p : K × V → Bool) (k : K) (m : List (K × V))
      → Uniq m
      → get k (retain p m)
        ≡ elim (get k m) [ none ↦ none | some v ↦ if p (k, v) then some v else none ]
  get-retain p k [] u = refl
  get-retain p k ((i, w) ∷ m) u = ground (arith, get-retain p k m u.1, get-retain-none p k m)

  pub retain-Uniq : (p : K × V → Bool) (m : List (K × V)) → Uniq m → Uniq (retain p m)
  retain-Uniq p [] u = tt
  retain-Uniq p ((i, w) ∷ m) u = ground (arith, retain-Uniq p m u.1, get-retain-none p i m)

module _ {ℓ κ} {K V : Type ℓ} (dec : Discrete K) (P : K × V → Type κ) where
  pub All-insert :
      (k : K) (v : V) (m : List (K × V)) → P (k, v) → All P m → All P (insert dec k v m)
  All-insert k v [] h all = (h, tt)
  All-insert k v ((j, w) ∷ m) h all =
      elim (dec j k) as (λ d. All P (ite d ((k, v) ∷ m) ((j, w) ∷ insert dec k v m))) [
        | yes p ↦ (h, all.1)
        | no p ↦ (all.0, All-insert k v m h all.1)
      ]

  pub All-remove : (k : K) (m : List (K × V)) → All P m → All P (remove dec k m)
  All-remove k [] all = tt
  All-remove k ((j, w) ∷ m) all =
      elim (dec j k) as (λ d. All P (ite d (remove dec k m) ((j, w) ∷ remove dec k m))) [
        | yes p ↦ All-remove k m all.1
        | no p ↦ (all.0, All-remove k m all.1)
      ]

  -- What holds of all entries holds of the one that is found.
  pub All-get : (k : K) (v : V) (m : List (K × V)) → get dec k m ≡ some v → All P m → P (k, v)
  All-get k v [] h all = cc
  All-get k v ((j, w) ∷ m) h all =
      elim (dec j k) as (λ d. ite d (some w) (get dec k m) ≡ some v → P (k, v)) [
        | yes p ↦ λ q. subst (λ i. P (i, v)) p (subst (λ u. P (j, u)) (some_inj w v q) all.0)
        | no p ↦ λ q. All-get k v m q all.1
      ]
        h
    where
      some_inj : (a b : V) → some a ≡ some b → a ≡ b
      some_inj a b e = cc

module _ {ℓ} {K V : Type ℓ} (rank : V → ℕ) where
  pick : K × V → K × V → K × V
  pick b e = if leb (rank b.1) (rank e.1) then b else e

  pick-cases :
      (b e : K × V)
      → ((pick b e ≡ b) × (rank b.1 ≤ rank e.1)) ⊎ ((pick b e ≡ e) × (rank e.1 ≤ rank b.1))
  unfolding pick
  pick-cases b e = elim (Bool-cases (leb (rank b.1) (rank e.1))) [
    | inl q ↦ inl (rw q, leb→le _ _ q)
    | inr q ↦ inr (rw q, not_leb→le _ _ q)
  ]

  -- `iter().min_by_key(|(_, v)| rank(v))`: the first entry of the least rank.
  min_from : K × V → List (K × V) → K × V
  unfolding pick
  min_from b [] = b
  min_from b (e ∷ m) = min_from (pick b e) m

  unfoldable pub min_by_key : List (K × V) → Option (K × V)
  unfolding min_from
  min_by_key [] = none
  min_by_key (e ∷ m) = some (min_from e m)

  min_from-least :
      (b : K × V) (m : List (K × V))
      → (rank (min_from b m).1 ≤ rank b.1) × All (λ e. rank (min_from b m).1 ≤ rank e.1) m
  unfolding min_from
  min_from-least b [] = (omega arith, tt)
  min_from-least b (e ∷ m) =
      let (low, all) = min_from-least (pick b e) m in
      (ground (arith, low, pick-cases b e), (ground (arith, low, pick-cases b e), all))

  -- No entry ranks below it.
  pub min_by_key-least :
      (m : List (K × V)) (e : K × V) → min_by_key m ≡ some e → All (λ x. rank e.1 ≤ rank x.1) m
  unfolding min_by_key
  min_by_key-least [] e h = tt
  min_by_key-least (x ∷ m) e h =
      let e' : min_from x m ≡ e = cc in
      subst (λ b. (rank b.1 ≤ rank x.1) × All (λ y. rank b.1 ≤ rank y.1) m) e' (min_from-least x m)

module _ {ℓ} {K V : Type ℓ} (dec : Discrete K) (rank : V → ℕ) where
  contains_key-pick :
      (k : K) (c b e : K × V) (m : List (K × V))
      → (c ≡ b) ⊎ (c ≡ e)
      → contains_key dec k (c ∷ m) ≡ true
      → contains_key dec k (b ∷ e ∷ m) ≡ true
  contains_key-pick k c b e m (inl p) h = ground arith
  contains_key-pick k c b e m (inr p) h = ground arith

  min_from-contains :
      (b : K × V) (m : List (K × V)) → contains_key dec (min_from rank b m).0 (b ∷ m) ≡ true
  unfolding min_from
  min_from-contains b [] = ground arith
  min_from-contains b (e ∷ m) =
      contains_key-pick _ (pick rank b e) b e m (ground (arith, pick-cases rank b e))
        (min_from-contains (pick rank b e) m)

  -- The entry of the least rank is an entry.
  pub min_by_key-contains :
      (m : List (K × V)) (e : K × V) → min_by_key rank m ≡ some e → contains_key dec e.0 m ≡ true
  unfolding min_by_key
  min_by_key-contains [] e h = cc
  min_by_key-contains (x ∷ m) e h =
      let e' : min_from rank x m ≡ e = cc in
      subst (λ b. contains_key dec b.0 (x ∷ m) ≡ true) e' (min_from-contains x m)
