-- ===== src/Signaling/Nostr/Discovery/Sorted.antt =====
-- signaling/nostr/identity.rs: the ranked keys are in the order of their ranks, each once.
use Prim.Native.Nat.{Ordering}
use Prim.Native.String.{compare}
use mistlib.Base.{
  ◌≡◌, ◌≢◌, ◌⊎◌, ◌∙◌, sym, List, [], ◌∷◌, true, false, String_discrete, Bool-cases, inl, inr,
  if_pos, if_neg,
}
use mistlib.Storage.Wants.Order.{str_le}
use mistlib.Signaling.Nostr.Discovery.TextOrder.{NoLater, str_le-NoLater, str_le-total}
use mistlib.Signaling.Nostr.Discovery.Responders.{Ranked, ranked_le, insert_ranked, sort_ranked}

-- The one is before the other: a smaller rank, or the same rank and no greater key.
abbrev pub Precedes : Ranked → Ranked → Type 0
Precedes a b = (compare a.0 b.0 ≡ Ordering.lt) ⊎ ((a.0 ≡ b.0) × NoLater a.1 b.1)

abbrev pub Leads : Ranked → List Ranked → Type 0
Leads a [] = Unit
Leads a (b ∷ es) = Precedes a b

-- Each is before the next one.
abbrev pub Ordered : List Ranked → Type 0
Ordered [] = Unit
Ordered (a ∷ es) = Leads a es × Ordered es

unlike : (a b : Ranked) → a.0 ≢ b.0 → NoLater a.0 b.0 → Precedes a b
unlike a b differ (inl less) = inl less
unlike a b differ (inr same) = absurd (differ same)

ranked_le-Precedes : (a b : Ranked) → ranked_le a b ≡ true → Precedes a b
unfolding ranked_le
ranked_le-Precedes a b h = elim (String_discrete a.0 b.0) [
  | yes same ↦ inr (
    same,
    str_le-NoLater a.1 b.1
        (sym (if_pos (String_discrete a.0 b.0) same (str_le a.1 b.1) (str_le a.0 b.0)) ∙ h),
  )
  | no differ ↦ unlike a b differ (
      str_le-NoLater a.0 b.0
        (sym (if_neg (String_discrete a.0 b.0) differ (str_le a.1 b.1) (str_le a.0 b.0)) ∙ h))
]

ranked_le-total : (a b : Ranked) → ranked_le a b ≡ false → Precedes b a
unfolding ranked_le
ranked_le-total a b h = elim (String_discrete a.0 b.0) [
  | yes same ↦ inr (
    sym same,
    str_le-total a.1 b.1
        (sym (if_pos (String_discrete a.0 b.0) same (str_le a.1 b.1) (str_le a.0 b.0)) ∙ h),
  )
  | no differ ↦
      unlike b a (λ same. differ (sym same))
        (str_le-total a.0 b.0
          (sym (if_neg (String_discrete a.0 b.0) differ (str_le a.1 b.1) (str_le a.0 b.0)) ∙ h))
]

insert-Leads :
    (b a : Ranked) (es : List Ranked) → Precedes b a → Leads b es → Leads b (insert_ranked a es)
unfolding insert_ranked
insert-Leads b a [] p lead = p
insert-Leads b a (e ∷ es) p lead = elim (Bool-cases (ranked_le a e)) [
  | inl before ↦ rw before p
  | inr after ↦ rw after lead
]

insert-Ordered : (a : Ranked) (es : List Ranked) → Ordered es → Ordered (insert_ranked a es)
unfolding insert_ranked
insert-Ordered a [] o = (tt, tt)
insert-Ordered a (e ∷ es) o = elim (Bool-cases (ranked_le a e)) [
  | inl before ↦ rw before (ranked_le-Precedes a e before, o)
  | inr after ↦
      rw after (insert-Leads e a es (ranked_le-total a e after) o.0, insert-Ordered a es o.1)
]

pub sort-Ordered : (es : List Ranked) → Ordered (sort_ranked es)
unfolding sort_ranked
sort-Ordered [] = tt
sort-Ordered (e ∷ es) = insert-Ordered e (sort_ranked es) (sort-Ordered es)
