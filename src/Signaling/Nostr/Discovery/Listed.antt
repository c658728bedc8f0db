-- ===== src/Signaling/Nostr/Discovery/Listed.antt =====
-- signaling/nostr/identity.rs: which keys are ranked, where the keys of the table are different ones.
use mistlib.Base.{
  ℕ, ◌≡◌, refl, ap, ◌∙◌, sym, List, [], ◌∷◌, ◌++◌, Bool, true, false, not, ◌||◌, ◌&&◌, any, map,
  retain, String, String_discrete, arith, Bool-cases, inl, inr, if_pos, if_neg, if◌then◌else◌, ltb,
  ite,
}
use mistlib.Signaling.Nostr.Discovery.{DiscoveryTable, DiscoveryEntry, sweep_expired}
use mistlib.Signaling.Nostr.Discovery.Ranking.{insert-any, sort-any}
use mistlib.Signaling.Nostr.Discovery.Sorted.{Ordered, sort-Ordered}
use mistlib.Signaling.Nostr.Discovery.Responders.{
  Ranked, has_pubkey, ranked_le, push_missing, insert_ranked, sort_ranked, dedup_from_pubkey,
  dedup_pubkeys, ranked_pubkeys,
}

-- No key stands twice.
abbrev pub Distinct : List Ranked → Type 0
Distinct [] = Unit
Distinct (e ∷ es) = (any (has_pubkey e.1) es ≡ false) × Distinct es

-- The ranks and the keys of the entries that are not expired.
abbrev pub live : ℕ → List (String × DiscoveryEntry) → List Ranked
live now [] = []
live now (e ∷ es) =
    let rest = live now es in
    if ltb now e.1.expires_at then (e.1.topology_rank, e.1.signaling_pubkey) ∷ rest else rest

-- The entries are those that are there, the local one unless its key is there, and the subject unless
-- its key is there or the local one.
abbrev pub Lists : String → String → String → String → List Ranked → List Ranked → Type 0
Lists subject_pubkey subject_rank local_pubkey local_rank known ranked =
    (p : Ranked → Bool)
    → any p ranked ≡ (
        any p known
        || ((not (any (has_pubkey local_pubkey) known) && p (local_rank, local_pubkey))
            || (not (any (has_pubkey subject_pubkey) known)
                && (ite (String_discrete local_pubkey subject_pubkey) false true
                    && p (subject_rank, subject_pubkey)))))

has_pubkey-sym : (a b : Ranked) → has_pubkey a.1 b ≡ false → has_pubkey b.1 a ≡ false
unfolding has_pubkey
has_pubkey-sym a b h = elim (String_discrete a.1 b.1) [
  | yes same ↦
      let clash : true ≡ false = sym (if_pos (String_discrete b.1 a.1) (sym same) true false) ∙ h in
      cc
  | no differ ↦ if_neg (String_discrete a.1 b.1) differ true false
]

insert-Distinct :
    (a : Ranked) (es : List Ranked)
    → any (has_pubkey a.1) es ≡ false
    → Distinct es
    → Distinct (insert_ranked a es)
unfolding insert_ranked
insert-Distinct a [] fresh d = (refl, tt)
insert-Distinct a (e ∷ es) fresh d = elim (Bool-cases (ranked_le a e)) [
  | inl before ↦ rw before (fresh, d)
  | inr after ↦
      let other : has_pubkey a.1 e ≡ false = ground (arith, fresh) in
      let later : any (has_pubkey a.1) es ≡ false = ground (arith, fresh) in
      let back : has_pubkey e.1 a ≡ false = has_pubkey-sym a e other in
      let here : any (has_pubkey e.1) (insert_ranked a es) ≡ false =
        insert-any (has_pubkey e.1) a es ∙ rw (back, d.0) refl in
      rw after (here, insert-Distinct a es later d.1)
]

sort-Distinct : (es : List Ranked) → Distinct es → Distinct (sort_ranked es)
unfolding sort_ranked
sort-Distinct [] d = tt
sort-Distinct (e ∷ es) d =
    insert-Distinct e (sort_ranked es) (sort-any (has_pubkey e.1) es ∙ d.0) (sort-Distinct es d.1)

-- Where no key stands twice, nothing is left out.
dedup_from-all :
    (kept : Ranked) (es : List Ranked)
    → Distinct (kept ∷ es)
    → dedup_from_pubkey kept es ≡ kept ∷ es
unfolding dedup_from_pubkey
dedup_from-all kept [] d = refl
dedup_from-all kept (e ∷ es) d =
    let other : has_pubkey kept.1 e ≡ false = ground (arith, d.0) in
    rw (other, dedup_from_pubkey) (ap (λ rest. kept ∷ rest) (dedup_from-all e es d.1))

dedup-all : (es : List Ranked) → Distinct es → dedup_pubkeys es ≡ es
unfolding dedup_pubkeys
dedup-all [] d = refl
dedup-all (e ∷ es) d = dedup_from-all e es d

any-append :
    (p : Ranked → Bool) (es : List Ranked) (x : Ranked) → any p (es ++ (x ∷ [])) ≡ (any p es || p x)
any-append p [] x = ground arith
any-append p (e ∷ es) x = ground (arith, any-append p es x)

append-Distinct :
    (es : List Ranked) (x : Ranked)
    → any (has_pubkey x.1) es ≡ false
    → Distinct es
    → Distinct (es ++ (x ∷ []))
append-Distinct [] x fresh d = (refl, tt)
append-Distinct (e ∷ es) x fresh d =
    let other : has_pubkey x.1 e ≡ false = ground (arith, fresh) in
    let later : any (has_pubkey x.1) es ≡ false = ground (arith, fresh) in
    let back : has_pubkey e.1 x ≡ false = has_pubkey-sym x e other in
    (any-append (has_pubkey e.1) es x ∙ rw (back, d.0) refl, append-Distinct es x later d.1)

push_missing-Distinct :
    (rank pubkey : String) (es : List Ranked) → Distinct es → Distinct (push_missing rank pubkey es)
unfolding push_missing
push_missing-Distinct rank pubkey es d = elim (Bool-cases (any (has_pubkey pubkey) es)) [
  | inl there ↦ rw there d
  | inr missing ↦ rw missing (append-Distinct es (rank, pubkey) missing d)
]

push_missing-all :
    (p : Ranked → Bool) (rank pubkey : String) (es : List Ranked)
    → any p (push_missing rank pubkey es)
      ≡ (any p es || (not (any (has_pubkey pubkey) es) && p (rank, pubkey)))
unfolding push_missing
push_missing-all p rank pubkey es = elim (Bool-cases (any (has_pubkey pubkey) es)) [
  | inl there ↦ rw there (ground arith)
  | inr missing ↦ rw missing (any-append p es (rank, pubkey))
]

live-any :
    (p : Ranked → Bool) (now : ℕ) (es : List (String × DiscoveryEntry))
    → any p (map (λ e. (e.1.topology_rank, e.1.signaling_pubkey)) es) ≡ false
    → any p (live now es) ≡ false
live-any p now [] h = refl
live-any p now (e ∷ es) h = ground (arith, h, live-any p now es)

live-Distinct :
    (now : ℕ) (es : List (String × DiscoveryEntry))
    → Distinct (map (λ e. (e.1.topology_rank, e.1.signaling_pubkey)) es)
    → Distinct (live now es)
live-Distinct now [] d = tt
live-Distinct now (e ∷ es) d = elim (Bool-cases (ltb now e.1.expires_at)) [
  | inl stays ↦
      rw stays (live-any (has_pubkey e.1.signaling_pubkey) now es d.0, live-Distinct now es d.1)
  | inr goes ↦ rw goes (live-Distinct now es d.1)
]

map-retain :
    (now : ℕ) (es : List (String × DiscoveryEntry))
    → map (λ e. (e.1.topology_rank, e.1.signaling_pubkey)) (retain (λ e. ltb now e.1.expires_at) es)
      ≡ live now es
map-retain now [] = refl
map-retain now (e ∷ es) = elim (Bool-cases (ltb now e.1.expires_at)) [
  | inl stays ↦
      rw stays (ap (λ rest. (e.1.topology_rank, e.1.signaling_pubkey) ∷ rest) (map-retain now es))
  | inr goes ↦ rw goes (map-retain now es)
]

-- What is ranked: in the order of the ranks, no key twice, and the keys that are to be there.
abbrev pub IsRanking : String → String → String → String → List Ranked → List Ranked → Type 0
IsRanking subject_pubkey subject_rank local_pubkey local_rank known ranked =
    Ordered ranked
    × Distinct ranked
    × Lists subject_pubkey subject_rank local_pubkey local_rank known ranked

module _ (subject_pubkey subject_rank local_pubkey local_rank : String) where
  pushed-Lists :
      (known : List Ranked)
      → Lists subject_pubkey subject_rank local_pubkey local_rank known
          (push_missing subject_rank subject_pubkey (push_missing local_rank local_pubkey known))
  unfolding has_pubkey
  pushed-Lists known p =
      let local = push_missing-all p local_rank local_pubkey known in
      let subject =
        push_missing-all p subject_rank subject_pubkey
          (push_missing local_rank local_pubkey known) in
      let there = push_missing-all (has_pubkey subject_pubkey) local_rank local_pubkey known in
      elim (String_discrete local_pubkey subject_pubkey) [
        | yes same ↦
            let keys : any (has_pubkey local_pubkey) known ≡ any (has_pubkey subject_pubkey) known =
              ap (λ key. any (has_pubkey key) known) same in
            let own : has_pubkey subject_pubkey (local_rank, local_pubkey) ≡ true =
              if_pos (String_discrete local_pubkey subject_pubkey) same true false in
            let left_out : ite (String_discrete local_pubkey subject_pubkey) false true ≡ false =
              if_pos (String_discrete local_pubkey subject_pubkey) same false true in
            subject ∙ rw (there, local, own, left_out, keys) (ground arith)
        | no differ ↦
            let other : has_pubkey subject_pubkey (local_rank, local_pubkey) ≡ false =
              if_neg (String_discrete local_pubkey subject_pubkey) differ true false in
            let kept : ite (String_discrete local_pubkey subject_pubkey) false true ≡ true =
              if_neg (String_discrete local_pubkey subject_pubkey) differ false true in
            subject ∙ rw (there, local, other, kept) (ground arith)
      ]

  pub ranked_pubkeys-IsRanking :
      (now : ℕ) (t : DiscoveryTable)
      → Distinct (map (λ e. (e.1.topology_rank, e.1.signaling_pubkey)) t.by_pubkey)
      → IsRanking subject_pubkey subject_rank local_pubkey local_rank
          (live now t.by_pubkey)
          (ranked_pubkeys subject_pubkey subject_rank local_pubkey local_rank (sweep_expired now t))
  unfolding ranked_pubkeys sweep_expired
  ranked_pubkeys-IsRanking now t d =
      let known = live now t.by_pubkey in
      let all =
        push_missing subject_rank subject_pubkey (push_missing local_rank local_pubkey known) in
      let all-Distinct =
        push_missing-Distinct subject_rank subject_pubkey
          (push_missing local_rank local_pubkey known)
          (push_missing-Distinct local_rank local_pubkey known (live-Distinct now t.by_pubkey d)) in
      let sorted-Distinct = sort-Distinct all all-Distinct in
      rw (map-retain now t.by_pubkey) (
        rw (dedup-all (sort_ranked all) sorted-Distinct)
          (sort-Ordered all, sorted-Distinct, λ p. sort-any p all ∙ pushed-Lists known p))
