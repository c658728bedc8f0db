-- ===== src/Base/Sets.antt =====
-- `HashSet` as a list, whose order stands for the iteration order.
use mathlib.Core.Path.{◌≡◌, refl}
use mathlib.Core.Logic.{ite}
use mathlib.Core.Bool.{Bool, true, false}
use mathlib.Core.List.{List, [], ◌∷◌}
use native.Mathlib.Omega.{arith}
use mistlib.Base.Lists.{All, All-map}

module _ {A : Type 0} (dec : Discrete A) where
  abbrev pub contains : A → List A → Bool
  contains a [] = false
  contains a (x ∷ xs) = ite (dec x a) true (contains a xs)

  abbrev pub insert : A → List A → List A
  insert a [] = a ∷ []
  insert a (x ∷ xs) = ite (dec x a) (x ∷ xs) (x ∷ insert a xs)

  abbrev pub remove : A → List A → List A
  remove a [] = []
  remove a (x ∷ xs) = let rest = remove a xs in ite (dec x a) rest (x ∷ rest)

  pub contains-insert :
      (a b : A) (xs : List A) → contains b (insert a xs) ≡ ite (dec a b) true (contains b xs)
  contains-insert a b [] = refl
  contains-insert a b (x ∷ xs) = ground (arith, contains-insert a b xs)

  pub contains-remove :
      (a b : A) (xs : List A) → contains b (remove a xs) ≡ ite (dec a b) false (contains b xs)
  contains-remove a b [] = ground arith
  contains-remove a b (x ∷ xs) = ground (arith, contains-remove a b xs)

  -- Every element is contained.
  pub All-contains : (xs : List A) → All (λ a. contains a xs ≡ true) xs
  All-contains [] = tt
  All-contains (x ∷ xs) = (
    ground arith,
    All-map (λ a. contains a xs ≡ true) (λ a. contains a (x ∷ xs) ≡ true) (λ a h. ground (arith, h))
        xs (All-contains xs),
  )
