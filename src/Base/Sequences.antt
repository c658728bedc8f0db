-- ===== src/Base/Sequences.antt =====
-- Lists of numbers that ascend between two bounds, with and without holes.
use Prim.Native.Nat.{ℕ, ◌+◌, ◌≤◌}
use mathlib.Core.Path.{◌≡◌}
use mathlib.Core.List.{List, [], ◌∷◌, ◌++◌, map}
use native.Mathlib.Omega.{arith}
use mistlib.Base.Btree.{Above, values, last_key_from}

-- Strictly ascending, from `lo` on and below `hi`.
abbrev pub Ascends : ℕ → List ℕ → ℕ → Type 0
Ascends lo [] hi = lo ≤ hi
Ascends lo (t ∷ ts) hi = (lo ≤ t) × Ascends (t + 1) ts hi

-- `lo`, `lo + 1`, …, `hi - 1`.
abbrev pub Consecutive : ℕ → List ℕ → ℕ → Type 0
Consecutive lo [] hi = lo ≡ hi
Consecutive lo (t ∷ ts) hi = (t ≡ lo) × Consecutive (lo + 1) ts hi

pub Ascends-append :
    (lo mid hi : ℕ) (xs ys : List ℕ)
    → Ascends lo xs mid
    → Ascends mid ys hi
    → Ascends lo (xs ++ ys) hi
Ascends-append lo mid hi [] [] p q = omega arith
Ascends-append lo mid hi [] (y ∷ ys) p q = (omega arith, q.1)
Ascends-append lo mid hi (x ∷ xs) ys p q = (p.0, Ascends-append (x + 1) mid hi xs ys p.1 q)

pub Consecutive-Ascends : (lo hi : ℕ) (xs : List ℕ) → Consecutive lo xs hi → Ascends lo xs hi
Consecutive-Ascends lo hi [] c = omega arith
Consecutive-Ascends lo hi (x ∷ xs) (e, c) =
    (omega arith, rw e (Consecutive-Ascends (lo + 1) hi xs c))

pub Ascends-le : (lo hi : ℕ) (xs : List ℕ) → Ascends lo xs hi → lo ≤ hi
Ascends-le lo hi [] a = a
Ascends-le lo hi (x ∷ xs) a = omega (arith, Ascends-le (x + 1) hi xs a.1, a.0)

pub Ascends-mono : (lo lo' hi : ℕ) (xs : List ℕ) → lo ≤ lo' → Ascends lo' xs hi → Ascends lo xs hi
Ascends-mono lo lo' hi [] h a = omega arith
Ascends-mono lo lo' hi (x ∷ xs) h a = (omega arith, a.1)

module _ {C : Type 0} (tag : C → ℕ) where
  -- Each value carries the number that it is filed under.
  abbrev pub Tagged : List (ℕ × C) → Type 0
  Tagged [] = Unit
  Tagged ((k, c) ∷ m) = (tag c ≡ k) × Tagged m

  -- So the values of a map ascend as its keys do.
  pub values-Ascends :
      (lo : ℕ) (m : List (ℕ × C))
      → Above lo m
      → Tagged m
      → Ascends (lo + 1) (map tag (values m)) (last_key_from lo m + 1)
  values-Ascends lo [] a t = omega arith
  values-Ascends lo ((k, c) ∷ m) a t = (omega arith, rw t.0 (values-Ascends k m a.1 t.1))
