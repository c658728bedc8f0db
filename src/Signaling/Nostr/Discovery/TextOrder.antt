-- ===== src/Signaling/Nostr/Discovery/TextOrder.antt =====
-- The order of the texts by which signaling/nostr/identity.rs sorts: of two texts one is not after the other.
use Prim.Native.Nat.compare as compare_ℕ
use Prim.Native.Nat.{Ordering, compare as compare_ℕ}
use Prim.Native.Char.{code}
use Prim.Native.String.compare
use Prim.Native.String.{[], ◌∷◌, then, compare}
use text.Mathlib.TextEquality.{path_by_compare}
use mistlib.Base.{ℕ, zero, suc, ◌≡◌, ◌⊎◌, refl, ap, ◌∙◌, sym, true, false, String, inl, inr}
use mistlib.Storage.Wants.Order.{str_le}

-- The answer with the texts swapped.
abbrev swapped : Ordering → Ordering
swapped Ordering.lt = Ordering.gt
swapped Ordering.eq = Ordering.eq
swapped Ordering.gt = Ordering.lt

swapped-then : (a b : Ordering) → then (swapped a) (swapped b) ≡ swapped (then a b)
swapped-then Ordering.lt b = refl
swapped-then Ordering.eq b = refl
swapped-then Ordering.gt b = refl

compare_ℕ-swapped : (m n : ℕ) → compare_ℕ n m ≡ swapped (compare_ℕ m n)
compare_ℕ-swapped zero zero = compare_ℕ.zero-zero ∙ sym (ap swapped compare_ℕ.zero-zero)
compare_ℕ-swapped zero (suc n) = compare_ℕ.suc-zero n ∙ sym (ap swapped (compare_ℕ.zero-suc n))
compare_ℕ-swapped (suc m) zero = compare_ℕ.zero-suc m ∙ sym (ap swapped (compare_ℕ.suc-zero m))
compare_ℕ-swapped (suc m) (suc n) =
    compare_ℕ.suc-suc n m ∙ compare_ℕ-swapped m n ∙ sym (ap swapped (compare_ℕ.suc-suc m n))

compare-swapped : (s t : String) → compare t s ≡ swapped (compare s t)
compare-swapped [] [] = compare.nil-nil ∙ sym (ap swapped compare.nil-nil)
compare-swapped [] (d ∷ t) = compare.cons-nil d t ∙ sym (ap swapped (compare.nil-cons d t))
compare-swapped (c ∷ s) [] = compare.nil-cons c s ∙ sym (ap swapped (compare.cons-nil c s))
compare-swapped (c ∷ s) (d ∷ t) =
    compare.cons-cons d c t s
    ∙ ap (λ o. then o (compare t s)) (compare_ℕ-swapped (code c) (code d))
    ∙ ap (then (swapped (compare_ℕ (code c) (code d)))) (compare-swapped s t)
    ∙ swapped-then (compare_ℕ (code c) (code d)) (compare s t)
    ∙ sym (ap swapped (compare.cons-cons c d s t))

-- The text comes no later than the other.
abbrev pub NoLater : String → String → Type 0
NoLater s t = (compare s t ≡ Ordering.lt) ⊎ (s ≡ t)

pub str_le-NoLater : (s t : String) → str_le s t ≡ true → NoLater s t
unfolding str_le
str_le-NoLater s t h = answer (compare s t) refl h
  where
    answer :
        (o : Ordering)
        → compare s t ≡ o
        → elim o [ Ordering.gt ↦ false | _ ↦ true ] ≡ true
        → NoLater s t
    answer Ordering.lt less h = inl less
    answer Ordering.eq same h = inr (path_by_compare s t same)
    answer Ordering.gt more h = cc

pub str_le-total : (s t : String) → str_le s t ≡ false → NoLater t s
unfolding str_le
str_le-total s t h = answer (compare s t) refl h
  where
    answer :
        (o : Ordering)
        → compare s t ≡ o
        → elim o [ Ordering.gt ↦ false | _ ↦ true ] ≡ false
        → NoLater t s
    answer Ordering.lt less h = cc
    answer Ordering.eq same h = cc
    answer Ordering.gt more h = inl (compare-swapped s t ∙ ap swapped more)
