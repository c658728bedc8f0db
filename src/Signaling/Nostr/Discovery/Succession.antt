-- ===== src/Signaling/Nostr/Discovery/Succession.antt =====
-- signaling/nostr/identity.rs: through any operations a node that stays known keeps its key, or comes with
-- a later epoch.
use mistlib.Base.{
  ℕ, ◌≡◌, ◌⊎◌, inl, inr, refl, ap, ◌∙◌, sym, subst, List, [], ◌∷◌, Option, some, true, false,
  String, arith, Option-cases, is_some, ◌≢◌, if_pos, if_neg,
}
use mistlib.Base.Maps.{get, remove, Uniq, get-insert, get-remove, insert-Uniq, remove-Uniq}
use mistlib.Types.{NodeId, node_dec}
use mistlib.Messages.{Result, ok, err}
use mistlib.Signaling.Nostr.Discovery.{
  NodeBinding, DiscoveryTable, BindOutcome, known, new, rebound, sweep_expired,
  insert_pubkey_with_rank, judge_binding, forget_previous, bind_node_with_epoch, enter_binding,
  touch_node, unbind_node,
}
use mistlib.Signaling.Nostr.Discovery.Binding.{
  Op, bind, learn, touch, sweep, unbind, step, bound, Succeeds, Succeeds-refl, Succeeds-trans,
  IsTable, sweep-IsTable, sweep-bound, judge-Succeeds,
}

forget-bound :
    (outcome : BindOutcome) (t : DiscoveryTable)
    → (forget_previous outcome t).node_to_pubkey ≡ t.node_to_pubkey
unfolding forget_previous
forget-bound known t = refl
forget-bound new t = refl
forget-bound (rebound previous) t = refl

module _ (now then_now : ℕ) (node_id : NodeId) (pubkey : String) (expires_at : ℕ) (rank : String)
    (epoch : Option ℕ) (t : DiscoveryTable) (u : IsTable t) where
  abbrev after : DiscoveryTable
  after = step (bind now then_now node_id pubkey expires_at rank epoch) t

  abbrev judged : Result (BindOutcome × Option ℕ)
  judged = judge_binding (bound node_id (sweep_expired now t)) pubkey epoch false

  -- The table before the binding is entered.
  abbrev swept : BindOutcome → DiscoveryTable
  swept outcome = sweep_expired then_now (forget_previous outcome (sweep_expired now t))

  swept-bound :
      (outcome : BindOutcome) (id : NodeId) (b : NodeBinding)
      → bound id (swept outcome) ≡ some b
      → bound id t ≡ some b
  swept-bound outcome id b h =
      let s = sweep_expired now t in
      let forgotten = forget-bound outcome s in
      let u' : IsTable (forget_previous outcome s) =
        subst (Uniq node_dec) (sym forgotten) (sweep-IsTable now t u) in
      let first = sweep-bound then_now id b (forget_previous outcome s) u' h in
      sweep-bound now id b t u (subst (λ m. get node_dec id m ≡ some b) forgotten first)

  swept-IsTable : (outcome : BindOutcome) → IsTable (swept outcome)
  swept-IsTable outcome =
      let s = sweep_expired now t in
      sweep-IsTable then_now (forget_previous outcome s)
        (subst (Uniq node_dec) (sym (forget-bound outcome s)) (sweep-IsTable now t u))

  abbrev entered : Result (BindOutcome × Option ℕ) → DiscoveryTable
  entered r = (enter_binding then_now node_id pubkey expires_at rank (sweep_expired now t) r).1

  entered-IsTable : (r : Result (BindOutcome × Option ℕ)) → IsTable (entered r)
  unfolding enter_binding insert_pubkey_with_rank
  entered-IsTable (err e) = sweep-IsTable now t u
  entered-IsTable (ok (outcome, kept)) =
      insert-Uniq node_dec node_id _ (swept outcome).node_to_pubkey (swept-IsTable outcome)

  bind-IsTable : IsTable after
  unfolding bind_node_with_epoch
  bind-IsTable = entered-IsTable judged

  -- The binding of another node is what it was.
  entered-other :
      (id : NodeId) (b : NodeBinding) (r : Result (BindOutcome × Option ℕ))
      → node_id ≢ id
      → bound id (entered r) ≡ some b
      → bound id t ≡ some b
  unfolding enter_binding insert_pubkey_with_rank
  entered-other id b (err e) differ h = sweep-bound now id b t u h
  entered-other id b (ok (outcome, kept)) differ h = swept-bound outcome id b (
      sym (
        get-insert node_dec node_id id (record { pubkey = pubkey; epoch = kept })
          (swept outcome).node_to_pubkey
        ∙ if_neg (node_dec node_id id) differ _ _)
      ∙ h)

  bind-other :
      (id : NodeId) (b : NodeBinding) → node_id ≢ id → bound id after ≡ some b → bound id t ≡ some b
  unfolding bind_node_with_epoch
  bind-other id b differ h = entered-other id b judged differ h

  -- The binding of the node itself succeeds the one it had.
  entered-own :
      (b b' : NodeBinding) (r : Result (BindOutcome × Option ℕ))
      → bound node_id (sweep_expired now t) ≡ some b
      → judged ≡ r
      → bound node_id (entered r) ≡ some b'
      → Succeeds b b'
  unfolding enter_binding insert_pubkey_with_rank
  entered-own b b' (err e) had p h =
      let same : b ≡ b' = cc in subst (Succeeds b) same (Succeeds-refl b)
  entered-own b b' (ok (outcome, kept)) had p h =
      let fresh : NodeBinding = record { pubkey = pubkey; epoch = kept } in
      let same : some fresh ≡ some b' =
        sym (
          get-insert node_dec node_id node_id fresh (swept outcome).node_to_pubkey
          ∙ if_pos (node_dec node_id node_id) refl _ _)
        ∙ h in
      let equal : fresh ≡ b' = cc in
      let judged_so : judge_binding (some b) pubkey epoch false ≡ ok (outcome, kept) =
        subst (λ o. judge_binding o pubkey epoch false ≡ ok (outcome, kept)) had p in
      subst (Succeeds b) equal (judge-Succeeds b pubkey epoch kept outcome judged_so)

  bind-own :
      (b b' : NodeBinding)
      → bound node_id (sweep_expired now t) ≡ some b
      → bound node_id after ≡ some b'
      → Succeeds b b'
  unfolding bind_node_with_epoch
  bind-own b b' had h = entered-own b b' judged had refl h

-- A node that an operation can rebind is known to it: its key has not expired when it is judged.
abbrev pub IsKnown : NodeId → Op → DiscoveryTable → Type 0
IsKnown id (bind now then_now node_id pubkey expires_at rank epoch) t =
    is_some (bound id (sweep_expired now t)) ≡ true
IsKnown id op t = Unit

touch-same :
    (now : ℕ) (node_id : NodeId) (ttl_seconds : ℕ) (t : DiscoveryTable)
    → (touch_node now node_id ttl_seconds t).node_to_pubkey ≡ (sweep_expired now t).node_to_pubkey
unfolding touch_node
touch-same now node_id ttl_seconds t = elim (Option-cases (bound node_id (sweep_expired now t))) [
  | inl missing ↦ rw (missing, touch_node) refl
  | inr (b, found) ↦ rw (found, touch_node) refl
]

-- What unbinding a node leaves.
unbind-same :
    (node_id : NodeId) (t : DiscoveryTable)
    → ((step (unbind node_id) t).node_to_pubkey ≡ t.node_to_pubkey)
      ⊎ ((step (unbind node_id) t).node_to_pubkey ≡ remove node_dec node_id t.node_to_pubkey)
unfolding unbind_node
unbind-same node_id t = elim (Option-cases (bound node_id t)) [
  | inl missing ↦ inl (rw (missing, step, unbind_node) refl)
  | inr (b, found) ↦ inr (rw (found, step, unbind_node) refl)
]

step-IsTable : (op : Op) (t : DiscoveryTable) → IsTable t → IsTable (step op t)
unfolding insert_pubkey_with_rank
step-IsTable (bind now then_now node_id pubkey expires_at rank epoch) t u =
    bind-IsTable now then_now node_id pubkey expires_at rank epoch t u
step-IsTable (learn now pubkey expires_at rank) t u = sweep-IsTable now t u
step-IsTable (touch now node_id ttl_seconds) t u =
    subst (Uniq node_dec) (sym (touch-same now node_id ttl_seconds t)) (sweep-IsTable now t u)
step-IsTable (sweep now) t u = sweep-IsTable now t u
step-IsTable (unbind node_id) t u = elim (unbind-same node_id t) [
  | inl e ↦ subst (Uniq node_dec) (sym e) u
  | inr e ↦ subst (Uniq node_dec) (sym e) (remove-Uniq node_dec node_id t.node_to_pubkey u)
]

-- What does not bind a node leaves its binding, if it leaves one.
unbound-same :
    (b b' : NodeBinding) (o : Option NodeBinding) → o ≡ some b → o ≡ some b' → Succeeds b b'
unbound-same b b' o had h = let same : b ≡ b' = cc in subst (Succeeds b) same (Succeeds-refl b)

-- An operation on a node that it knows.
step-Succeeds :
    (op : Op) (id : NodeId) (b b' : NodeBinding) (t : DiscoveryTable)
    → IsTable t
    → bound id t ≡ some b
    → IsKnown id op t
    → bound id (step op t) ≡ some b'
    → Succeeds b b'
unfolding insert_pubkey_with_rank
step-Succeeds (bind now then_now node_id pubkey expires_at rank epoch) id b b' t u had seen h =
    elim (node_dec node_id id) [
      | no differ ↦
          unbound-same b b' (bound id t) had
            (bind-other now then_now node_id pubkey expires_at rank epoch t u id b' differ h)
      | yes same ↦ elim (Option-cases (bound id (sweep_expired now t))) [
        | inl missing ↦ absurd (let clash : true ≡ false = ground (arith, seen, missing) in cc)
        | inr (b'', live) ↦
            let was = sweep-bound now id b'' t u live in
            let equal : b'' ≡ b = cc in
            let live' : bound node_id (sweep_expired now t) ≡ some b =
              subst (λ i. bound i (sweep_expired now t) ≡ some b) (sym same)
                (live ∙ ap some equal) in
            bind-own now then_now node_id pubkey expires_at rank epoch t u b b' live' (
              subst
                (λ i.
                  bound i (step (bind now then_now node_id pubkey expires_at rank epoch) t)
                  ≡ some b')
                (sym same) h)
      ]
    ]
step-Succeeds (learn now pubkey expires_at rank) id b b' t u had seen h =
    unbound-same b b' (bound id t) had (sweep-bound now id b' t u h)
step-Succeeds (touch now node_id ttl_seconds) id b b' t u had seen h =
    unbound-same b b' (bound id t) had (
      sweep-bound now id b' t u
        (subst (λ m. get node_dec id m ≡ some b') (touch-same now node_id ttl_seconds t) h))
step-Succeeds (sweep now) id b b' t u had seen h =
    unbound-same b b' (bound id t) had (sweep-bound now id b' t u h)
step-Succeeds (unbind node_id) id b b' t u had seen h = elim (unbind-same node_id t) [
  | inl e ↦ unbound-same b b' (bound id t) had (subst (λ m. get node_dec id m ≡ some b') e h)
  | inr e ↦
      let there = subst (λ m. get node_dec id m ≡ some b') e h in
      let removed = get-remove node_dec node_id id t.node_to_pubkey in
      unbound-same b b' (bound id t) had (ground (arith, there, removed))
]

abbrev pub run : List Op → DiscoveryTable → DiscoveryTable
run [] t = t
run (op ∷ ops) t = run ops (step op t)

-- A node that is in the table after each operation, and known to each that binds it.
abbrev pub StaysKnown : NodeId → List Op → DiscoveryTable → Type 0
StaysKnown id [] t = Unit
StaysKnown id (op ∷ ops) t =
    IsKnown id op t × (is_some (bound id (step op t)) ≡ true) × StaysKnown id ops (step op t)

-- Through any operations, none of which is told to allow a new key: if a node of a table with one
-- binding for each node is bound after every operation, and not expired before every operation that
-- binds it, then its binding in the end is to the key that it had, with an epoch that is not earlier, or
-- it has a later epoch.
pub run-Succeeds :
    (id : NodeId) (ops : List Op) (b b' : NodeBinding) (t : DiscoveryTable)
    → IsTable t
    → bound id t ≡ some b
    → StaysKnown id ops t
    → bound id (run ops t) ≡ some b'
    → Succeeds b b'
run-Succeeds id [] b b' t u had stays h = unbound-same b b' (bound id t) had h
run-Succeeds id (op ∷ ops) b b' t u had (seen, there, stays) h =
    elim (Option-cases (bound id (step op t))) [
      | inl missing ↦ absurd (let clash : true ≡ false = ground (arith, there, missing) in cc)
      | inr (b'', found) ↦
          Succeeds-trans b b'' b' (step-Succeeds op id b b'' t u had seen found)
            (run-Succeeds id ops b'' b' (step op t) (step-IsTable op t u) found stays h)
    ]
