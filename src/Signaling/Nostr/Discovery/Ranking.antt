-- ===== src/Signaling/Nostr/Discovery/Ranking.antt =====
-- signaling/nostr/identity.rs: a key stays where the peers are ranked, and is found at its position.
use mistlib.Base.{
  ◌≡◌, refl, ap, ◌∙◌, sym, List, [], ◌∷◌, ◌++◌, some, Bool, true, false, ◌||◌, any, length, String,
  String_discrete, arith, Bool-cases, inl, inr, if_neg, if_pos,
}
use mistlib.Signaling.Nostr.Discovery.Responders.{
  Ranked, has_pubkey, push_missing, insert_ranked, sort_ranked, dedup_from_pubkey, dedup_pubkeys,
  position,
}

-- A key that is there is at a position.
abbrev pub SplitsAt : String → List Ranked → Type 0
SplitsAt pubkey ranked =
    (before : List Ranked) × (rank : String) × (after : List Ranked) × (ranked
      ≡ before ++ ((rank, pubkey) ∷ after))
    × (position pubkey ranked ≡ some (length before))

named : (pubkey : String) (e : Ranked) → has_pubkey pubkey e ≡ true → e ≡ (e.0, pubkey)
unfolding has_pubkey
named pubkey e h = elim (String_discrete e.1 pubkey) [
  | yes same ↦ ap (λ key. (e.0, key)) same
  | no differ ↦ absurd (
      let clash : true ≡ false = sym h ∙ if_neg (String_discrete e.1 pubkey) differ true false in
      cc)
]

pub position-SplitsAt :
    (pubkey : String) (ranked : List Ranked)
    → any (has_pubkey pubkey) ranked ≡ true
    → SplitsAt pubkey ranked
unfolding position
position-SplitsAt pubkey [] h = cc
position-SplitsAt pubkey (e ∷ es) h = elim (Bool-cases (has_pubkey pubkey e)) [
  | inl own ↦ ([], e.0, es, ap (λ x. x ∷ es) (named pubkey e own), rw (own, position) refl)
  | inr other ↦
      let later : any (has_pubkey pubkey) es ≡ true = rw other at h in
      let (before, rank, after, whole, found) = position-SplitsAt pubkey es later in
      (e ∷ before, rank, after, ap (λ xs. e ∷ xs) whole, rw (other, position) (rw found refl))
]

pub insert-any :
    (p : Ranked → Bool) (a : Ranked) (es : List Ranked)
    → any p (insert_ranked a es) ≡ (p a || any p es)
unfolding insert_ranked
insert-any p a [] = refl
insert-any p a (e ∷ es) = ground (arith, insert-any p a es)

pub sort-any : (p : Ranked → Bool) (es : List Ranked) → any p (sort_ranked es) ≡ any p es
unfolding sort_ranked
sort-any p [] = refl
sort-any p (e ∷ es) = insert-any p e (sort_ranked es) ∙ ap (λ b. p e || b) (sort-any p es)

-- Of a key that is there, one stays.
dedup_from-any :
    (pubkey : String) (kept : Ranked) (es : List Ranked)
    → any (has_pubkey pubkey) (kept ∷ es) ≡ true
    → any (has_pubkey pubkey) (dedup_from_pubkey kept es) ≡ true
unfolding dedup_from_pubkey
dedup_from-any pubkey kept [] h = h
dedup_from-any pubkey kept (e ∷ es) h = elim (Bool-cases (has_pubkey kept.1 e)) [
  | inl same ↦
      let equal : has_pubkey pubkey e ≡ has_pubkey pubkey kept =
        ap (has_pubkey pubkey) (named kept.1 e same) in
      rw (same, dedup_from_pubkey) (dedup_from-any pubkey kept es (ground (arith, h, equal)))
  | inr other ↦
      let ih = dedup_from-any pubkey e es in rw (other, dedup_from_pubkey) (ground (arith, h, ih))
]

pub dedup-any :
    (pubkey : String) (es : List Ranked)
    → any (has_pubkey pubkey) es ≡ true
    → any (has_pubkey pubkey) (dedup_pubkeys es) ≡ true
unfolding dedup_pubkeys
dedup-any pubkey [] h = h
dedup-any pubkey (e ∷ es) h = dedup_from-any pubkey e es h

own_pubkey : (rank pubkey : String) → has_pubkey pubkey (rank, pubkey) ≡ true
unfolding has_pubkey
own_pubkey rank pubkey = if_pos (String_discrete pubkey pubkey) refl true false

any-last :
    (p : Ranked → Bool) (e : Ranked) (es : List Ranked) → p e ≡ true → any p (es ++ (e ∷ [])) ≡ true
any-last p e [] h = rw h refl
any-last p e (x ∷ es) h = ground (arith, any-last p e es h)

pub push_missing-any :
    (rank pubkey : String) (es : List Ranked)
    → any (has_pubkey pubkey) (push_missing rank pubkey es) ≡ true
unfolding push_missing
push_missing-any rank pubkey es = elim (Bool-cases (any (has_pubkey pubkey) es)) [
  | inl there ↦ rw there there
  | inr missing ↦
      rw missing (any-last (has_pubkey pubkey) (rank, pubkey) es (own_pubkey rank pubkey))
]
