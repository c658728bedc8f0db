-- ===== src/Signaling/Nostr/Discovery/Backwards.antt =====
-- signaling/nostr/identity.rs: the responders are the peers before the subject in the order of the ranks,
-- backwards, and then those after it, backwards from the last.
use native.Mathlib.Nat.{mod-eq_of_lt, add-mod_left}
use mistlib.Base.{
  ℕ, zero, suc, ◌+◌, ◌-◌, ◌%◌, ◌≤◌, ◌<◌, ◌≡◌, ◌==◌, leb, refl, ap, ◌∙◌, subst, List, [], ◌∷◌, ◌++◌,
  none, some, true, false, if◌then◌else◌, any, map, take, length, length-append, String, get_elem?,
  arith, Bool-cases, inl, inr, leb→le,
}
use mistlib.Signaling.Nostr.Discovery.{DiscoveryTable, sweep_expired}
use mistlib.Signaling.Nostr.Discovery.Responders.{
  Ranked, has_pubkey, push_missing, sort_ranked, position, ranked_pubkeys, walk, responders_of,
  responder_pubkeys_for,
}
use mistlib.Signaling.Nostr.Discovery.Ranking.{
  position-SplitsAt, sort-any, dedup-any, push_missing-any,
}
use mistlib.Signaling.Nostr.Discovery.Listed.{Distinct, live, IsRanking, ranked_pubkeys-IsRanking}

-- The list, from its last element to its first, before another list.
abbrev pub backwards : List Ranked → List Ranked → List Ranked
backwards [] acc = acc
backwards (e ∷ es) acc = backwards es (e ∷ acc)

-- The keys of other peers than the subject.
abbrev pub others : String → List Ranked → List String
others subject [] = []
others subject (e ∷ es) =
    if has_pubkey subject e then others subject es else e.1 ∷ others subject es

-- The elements below an index, from the last to the first, before another list.
abbrev down : ℕ → List Ranked → List Ranked → List Ranked
down zero xs acc = acc
down (suc n) xs acc = elim (get_elem? xs n) [ none ↦ [] | some e ↦ e ∷ down n xs acc ]

down-cons :
    (n : ℕ) (x : Ranked) (xs acc : List Ranked) → down (suc n) (x ∷ xs) acc ≡ down n xs (x ∷ acc)
down-cons zero x xs acc = refl
down-cons (suc n) x xs acc =
    ap (λ rest. elim (get_elem? xs n) [ none ↦ [] | some e ↦ e ∷ rest ]) (down-cons n x xs acc)

down-backwards : (xs acc : List Ranked) → down (length xs) xs acc ≡ backwards xs acc
down-backwards [] acc = refl
down-backwards (x ∷ xs) acc = down-cons (length xs) x xs acc ∙ down-backwards xs (x ∷ acc)

get_elem-append :
    (xs ys : List Ranked) (k i : ℕ) → k ≡ length xs + i → get_elem? (xs ++ ys) k ≡ get_elem? ys i
get_elem-append [] ys k i h = ap (get_elem? ys) (omega arith)
get_elem-append (x ∷ xs) ys zero i h = absurd (omega arith)
get_elem-append (x ∷ xs) ys (suc k) i h = get_elem-append xs ys k i (omega arith)

get_elem-before :
    (xs ys : List Ranked) (i : ℕ) → i < length xs → get_elem? (xs ++ ys) i ≡ get_elem? xs i
get_elem-before [] ys i h = absurd (omega arith)
get_elem-before (x ∷ xs) ys zero h = refl
get_elem-before (x ∷ xs) ys (suc i) h = get_elem-before xs ys i (omega arith)

module _ (ranked : List Ranked) (subject : String) (start : ℕ) where
  -- What the rounds that are left add, whatever may still be pushed.
  abbrev Adds : ℕ → List Ranked → Type 0
  Adds n rest = (l : ℕ) → walk ranked subject start n (suc l) ≡ take (suc l) (others subject rest)

  pushed :
      (key : String) (n l : ℕ) (rest : List Ranked)
      → Adds n rest
      → key ∷ elim (suc l == 1) [ true ↦ [] | false ↦ walk ranked subject start n (suc l - 1) ]
        ≡ key ∷ take l (others subject rest)
  pushed key n zero rest ih = refl
  pushed key n (suc l) rest ih =
      let more : (suc (suc l) == 1) ≡ false = ground arith in
      let one_less : suc (suc l) - 1 ≡ suc l = omega arith in
      rw (more, one_less) (ap (λ keys. key ∷ keys) (ih l))

  -- One round of the loop, at an index that is known.
  round :
      (n index : ℕ) (e : Ranked) (rest : List Ranked)
      → (start + length ranked - (length ranked - suc n)) % length ranked ≡ index
      → get_elem? ranked index ≡ some e
      → Adds n rest
      → Adds (suc n) (e ∷ rest)
  unfolding walk
  round n index e rest here found ih l = elim (Bool-cases (has_pubkey subject e)) [
    | inl own ↦ rw (here, found, walk) (rw own (ih l))
    | inr other ↦ rw (here, found, walk) (rw other (pushed e.1 n l rest ih))
  ]

element : (xs : List Ranked) (i : ℕ) → i < length xs → (e : Ranked) × (get_elem? xs i ≡ some e)
element [] i h = absurd (omega arith)
element (x ∷ xs) zero h = (x, refl)
element (x ∷ xs) (suc i) h = element xs i (omega arith)

module _ (before after : List Ranked) (x : Ranked) (subject : String) where
  abbrev whole : List Ranked
  whole = before ++ (x ∷ after)

  length-whole : length whole ≡ length before + suc (length after)
  length-whole = length-append before (x ∷ after)

  -- The last rounds visit the elements after the subject.
  walk-after : (n : ℕ) → n ≤ length after → Adds whole subject (length before) n (down n after [])
  unfolding walk
  walk-after zero h l = refl
  walk-after (suc n) h l =
      let (e, found) = element after n (omega (arith, h)) in
      let there : get_elem? whole (length before + suc n) ≡ some e =
        get_elem-append before (x ∷ after) (length before + suc n) (suc n) refl ∙ found in
      let plain : length before + length whole - (length whole - suc n) ≡ length before + suc n =
        omega (arith, length-whole, h) in
      let small : length before + suc n < length whole = omega (arith, length-whole, h) in
      let here : (length before + length whole - (length whole - suc n)) % length whole
          ≡ length before + suc n =
        ap (λ i. i % length whole) plain ∙ mod-eq_of_lt small in
      rw (found, down)
        (round whole subject (length before) n (length before + suc n) e (down n after []) here
          there (walk-after n (omega (arith, h))) l)

  -- The rounds before them visit those before it.
  walk-before :
      (m : ℕ)
      → m ≤ length before
      → Adds whole subject
          (length before)
          (m + length after)
          (down m before (down (length after) after []))
  walk-before zero h l =
      let no_more : 0 + length after ≡ length after = omega arith in
      rw no_more (walk-after (length after) (omega arith) l)
  walk-before (suc m) h l =
      let rest = down m before (down (length after) after []) in
      let (e, found) = element before m (omega (arith, h)) in
      let there : get_elem? whole m ≡ some e =
        get_elem-before before (x ∷ after) m (omega (arith, h)) ∙ found in
      let plain : length before + length whole - (length whole - suc (m + length after))
          ≡ length whole + m =
        omega (arith, length-whole, h) in
      let small : m < length whole = omega (arith, length-whole, h) in
      let here : (length before + length whole - (length whole - suc (m + length after)))
            % length whole
          ≡ m =
        ap (λ i. i % length whole) plain ∙ add-mod_left (length whole) m ∙ mod-eq_of_lt small in
      let one : suc m + length after ≡ suc (m + length after) = omega arith in
      rw (found, down, one)
        (round whole subject (length before) (m + length after) m e rest here there
          (walk-before m (omega (arith, h))) l)

  walk-backwards :
      (l : ℕ)
      → walk whole subject (length before) (length whole - 1) (suc l)
        ≡ take (suc l) (others subject (backwards before (backwards after [])))
  walk-backwards l =
      let rounds : length before + length after ≡ length whole - 1 = omega (arith, length-whole) in
      let visited : down (length before) before (down (length after) after [])
          ≡ backwards before (backwards after []) =
        ap (down (length before) before) (down-backwards after [])
        ∙ down-backwards before (backwards after []) in
      subst
        (λ n.
          walk whole subject (length before) n (suc l)
          ≡ take (suc l) (others subject (backwards before (backwards after []))))
        rounds
        (subst
          (λ es.
            walk whole subject (length before) (length before + length after) (suc l)
            ≡ take (suc l) (others subject es))
          visited (walk-before (length before) (omega arith) l))

module _ (subject_pubkey subject_rank local_pubkey local_rank : String) (t : DiscoveryTable) where
  -- The subject stands among the ranked keys.
  subject-any :
      any
        (has_pubkey subject_pubkey)
        (ranked_pubkeys subject_pubkey subject_rank local_pubkey local_rank t)
      ≡ true
  unfolding ranked_pubkeys
  subject-any =
      let known = map (λ e. (e.1.topology_rank, e.1.signaling_pubkey)) t.by_pubkey in
      let pushed = push_missing local_rank local_pubkey known in
      dedup-any subject_pubkey (sort_ranked (push_missing subject_rank subject_pubkey pushed)) (
        sort-any (has_pubkey subject_pubkey) (push_missing subject_rank subject_pubkey pushed)
        ∙ push_missing-any subject_rank subject_pubkey pushed)

-- The responders are the first of the peers before the subject, from the last of them, and then of
-- those after it, from the last of them; the subject is left out.
abbrev IsBackwards : String → List Ranked → ℕ → List String → Type 0
IsBackwards subject ranked limit responders =
    (before : List Ranked) × (rank : String) × (after : List Ranked) × (ranked
      ≡ before ++ ((rank, subject) ∷ after))
    × (responders ≡ take limit (others subject (backwards before (backwards after []))))

responders_of-walks :
    (subject : String) (before after : List Ranked) (x : Ranked) (l : ℕ)
    → position subject (before ++ (x ∷ after)) ≡ some (length before)
    → responders_of subject (before ++ (x ∷ after)) (suc l)
      ≡ take (suc l) (others subject (backwards before (backwards after [])))
unfolding responders_of walk
responders_of-walks subject before after x l found =
    let walked = walk-backwards before after x subject l in
    elim (Bool-cases (leb (length (before ++ (x ∷ after))) 1)) [
      | inl alone ↦
          let no_rounds : length (before ++ (x ∷ after)) - 1 ≡ 0 =
            omega (arith, leb→le _ _ alone) in
          rw alone (
            subst
              (λ n.
                walk (before ++ (x ∷ after)) subject (length before) n (suc l)
                ≡ take (suc l) (others subject (backwards before (backwards after []))))
              no_rounds walked)
      | inr more ↦ rw (more, found) walked
    ]

responders_of-IsBackwards :
    (subject : String) (ranked : List Ranked) (limit : ℕ)
    → any (has_pubkey subject) ranked ≡ true
    → IsBackwards subject ranked limit
        (if limit == 0 then [] else responders_of subject ranked limit)
responders_of-IsBackwards subject ranked limit there =
    let (before, rank, after, whole, found) = position-SplitsAt subject ranked there in
    (before, rank, after, whole, first limit before after rank whole found)
  where
    first :
        (limit : ℕ) (before after : List Ranked) (rank : String)
        → ranked ≡ before ++ ((rank, subject) ∷ after)
        → position subject ranked ≡ some (length before)
        → (if limit == 0 then [] else responders_of subject ranked limit)
          ≡ take limit (others subject (backwards before (backwards after [])))
    first zero before after rank whole found = refl
    first (suc l) before after rank whole found =
        let some_left : (suc l == 0) ≡ false = ground arith in
        rw some_left (
          ap (λ es. responders_of subject es (suc l)) whole
          ∙ responders_of-walks subject before after (rank, subject) l
              (subst (λ es. position subject es ≡ some (length before)) whole found))

-- The responders are taken backwards from a ranking of the keys that are live, of the local one and of
-- the subject.
abbrev pub IsTold :
    ℕ → String → String → String → String → ℕ → DiscoveryTable → List String → Type 0
IsTold now subject_pubkey subject_rank local_pubkey local_rank limit t responders =
    (ranked : List Ranked) × IsRanking subject_pubkey subject_rank local_pubkey local_rank
      (live now t.by_pubkey) ranked
    × IsBackwards subject_pubkey ranked limit responders

-- For any table whose entries have different signaling keys, there is a list of ranks and keys, each before
-- the next one by the rank and, where the ranks are the same, by the key; no key stands twice in it;
-- it has the entries that are not expired, the local one unless its key is among these, the subject
-- unless its key is among these or is the local one, and nothing else. The peers that the subject is
-- told of are the first, as many as the limit allows, of those before the subject in this list, from the
-- last of them, and then of those after it, from the last of them. The subject itself is left out.
pub responder_pubkeys_for-IsBackwards :
    (now : ℕ) (subject_pubkey subject_rank local_pubkey local_rank : String) (limit : ℕ)
    (t : DiscoveryTable)
    → Distinct (map (λ e. (e.1.topology_rank, e.1.signaling_pubkey)) t.by_pubkey)
    → IsTold now subject_pubkey subject_rank local_pubkey local_rank limit t
        (responder_pubkeys_for now subject_pubkey subject_rank local_pubkey local_rank limit t).0
unfolding responder_pubkeys_for
responder_pubkeys_for-IsBackwards now subject_pubkey subject_rank local_pubkey local_rank limit t
      d =
    let s = sweep_expired now t in
    let ranked = ranked_pubkeys subject_pubkey subject_rank local_pubkey local_rank s in
    (
      ranked,
      ranked_pubkeys-IsRanking subject_pubkey subject_rank local_pubkey local_rank now t d,
      responders_of-IsBackwards subject_pubkey ranked limit
          (subject-any subject_pubkey subject_rank local_pubkey local_rank s),
    )
