-- ===== src/Signaling/Nostr/Discovery/Responders.antt =====
-- `responder_pubkeys_for` of signaling/nostr/identity.rs: which peers a node that is discovered is told of.
use mistlib.Base.{
  ℕ, zero, suc, ◌+◌, ◌-◌, ◌%◌, ◌==◌, leb, List, [], ◌∷◌, ◌++◌, Option, none, some, Bool, true,
  false, ite, if◌then◌else◌, any, map, length, String, String_discrete, get_elem?,
}
use mistlib.Storage.Wants.Order.{str_le}
use mistlib.Signaling.Nostr.Discovery.{DiscoveryTable, sweep_expired}

-- The rank and the key.
abbrev pub Ranked : Type 0
Ranked = String × String

unfoldable pub has_pubkey : String → Ranked → Bool
has_pubkey pubkey e = ite (String_discrete e.1 pubkey) true false

-- A key that is not there yet is put at the end.
unfoldable pub push_missing : String → String → List Ranked → List Ranked
push_missing rank pubkey ranked =
    if any (has_pubkey pubkey) ranked then ranked else ranked ++ ((rank, pubkey) ∷ [])

-- The order of pairs of texts.
unfoldable pub ranked_le : Ranked → Ranked → Bool
ranked_le a b = ite (String_discrete a.0 b.0) (str_le a.1 b.1) (str_le a.0 b.0)

unfoldable pub insert_ranked : Ranked → List Ranked → List Ranked
insert_ranked a [] = a ∷ []
insert_ranked a (e ∷ es) = if ranked_le a e then a ∷ e ∷ es else e ∷ insert_ranked a es

unfoldable pub sort_ranked : List Ranked → List Ranked
unfolding insert_ranked
sort_ranked [] = []
sort_ranked (e ∷ es) = insert_ranked e (sort_ranked es)

-- `dedup_by`: what has the key of the last one that was kept is left out.
unfoldable pub dedup_from_pubkey : Ranked → List Ranked → List Ranked
unfolding has_pubkey
dedup_from_pubkey kept [] = kept ∷ []
dedup_from_pubkey kept (e ∷ es) = elim (has_pubkey kept.1 e) [
  | true ↦ dedup_from_pubkey kept es
  | false ↦ kept ∷ dedup_from_pubkey e es
]

unfoldable pub dedup_pubkeys : List Ranked → List Ranked
unfolding dedup_from_pubkey
dedup_pubkeys [] = []
dedup_pubkeys (e ∷ es) = dedup_from_pubkey e es

unfoldable pub position : String → List Ranked → Option ℕ
unfolding has_pubkey
position pubkey [] = none
position pubkey (e ∷ es) = elim (has_pubkey pubkey e) [
  | true ↦ some 0
  | false ↦ elim (position pubkey es) [ none ↦ none | some i ↦ some (suc i) ]
]

-- The keys that are ranked: those of the table, the local one and the subject.
unfoldable pub ranked_pubkeys : String → String → String → String → DiscoveryTable → List Ranked
ranked_pubkeys subject_pubkey subject_rank local_pubkey local_rank t =
    let known = map (λ e. (e.1.topology_rank, e.1.signaling_pubkey)) t.by_pubkey in
    dedup_pubkeys (
      sort_ranked
        (push_missing subject_rank subject_pubkey (push_missing local_rank local_pubkey known)))

-- The rounds of the loop that are left, which count the offsets up to the length of the list, and how
-- many responders may still be pushed. An index out of range would be a panic; none is.
unfoldable pub walk : List Ranked → String → ℕ → ℕ → ℕ → List String
unfolding has_pubkey
walk ranked subject_pubkey subject_index zero left = []
walk ranked subject_pubkey subject_index (suc rounds) left =
    let offset = length ranked - suc rounds in
    elim (get_elem? ranked ((subject_index + length ranked - offset) % length ranked)) [
      | none ↦ []
      | some e ↦ elim (has_pubkey subject_pubkey e) [
        | true ↦ walk ranked subject_pubkey subject_index rounds left
        | false ↦ e.1 ∷ elim (left == 1) [
          | true ↦ []
          | false ↦ walk ranked subject_pubkey subject_index rounds (left - 1)
        ]
      ]
    ]

unfoldable pub responders_of : String → List Ranked → ℕ → List String
unfolding position walk
responders_of subject_pubkey ranked limit =
    if leb (length ranked) 1 then [] else elim (position subject_pubkey ranked) [
      | none ↦ []
      | some subject_index ↦ walk ranked subject_pubkey subject_index (length ranked - 1) limit
    ]

unfoldable pub responder_pubkeys_for :
    ℕ → String → String → String → String → ℕ → DiscoveryTable → List String × DiscoveryTable
unfolding responders_of
responder_pubkeys_for now subject_pubkey subject_rank local_pubkey local_rank limit t =
    let s = sweep_expired now t in
    let ranked = ranked_pubkeys subject_pubkey subject_rank local_pubkey local_rank s in
    (if limit == 0 then [] else responders_of subject_pubkey ranked limit, s)
