-- ===== src/Storage/Wants/Order.antt =====
-- The order of texts, by which storage/protocol.rs sorts the peers of a request, and pairs as keys.
use Prim.Native.Nat.{Ordering}
use Prim.Native.String.{compare}
use mistlib.Base.{
  ◌≡◌, ap, List, [], ◌∷◌, Bool, true, false, String, if◌then◌else◌, ite, String_discrete,
}

dec_pair {ℓ} :
    {A B : Type ℓ} {a c : A} {b d : B}
    → Dec (a ≡ c)
    → Dec (b ≡ d)
    → Dec (◌≡◌ {A = A × B} (a, b) (c, d))
dec_pair (yes p) (yes q) = yes (λ i. (p i, q i))
dec_pair (no p) e = no (λ h. p (ap (λ x. x.0) h))
dec_pair (yes p) (no q) = no (λ h. q (ap (λ x. x.1) h))

unfoldable pub pair_dec {ℓ} : {A B : Type ℓ} → Discrete A → Discrete B → Discrete (A × B)
unfolding dec_pair
pair_dec f g (a, b) (c, d) = dec_pair (f a c) (g b d)

unfoldable pub str_le : String → String → Bool
str_le a b = elim (compare a b) [ Ordering.gt ↦ false | _ ↦ true ]

unfoldable pub insert_sorted : String → List String → List String
insert_sorted a [] = a ∷ []
insert_sorted a (x ∷ xs) = if str_le a x then a ∷ x ∷ xs else x ∷ insert_sorted a xs

-- `sort`: equal texts are the same text, so any sorting does the same.
unfoldable pub sort : List String → List String
unfolding insert_sorted str_le
sort [] = []
sort (x ∷ xs) = insert_sorted x (sort xs)

dedup_from : String → List String → List String
dedup_from a [] = a ∷ []
dedup_from a (x ∷ xs) = ite (String_discrete a x) (dedup_from a xs) (a ∷ dedup_from x xs)

-- `Vec::dedup`: of neighbours that are equal, the first.
unfoldable pub dedup : List String → List String
unfolding dedup_from
dedup [] = []
dedup (x ∷ xs) = dedup_from x xs
