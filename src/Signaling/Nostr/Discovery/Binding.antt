-- ===== src/Signaling/Nostr/Discovery/Binding.antt =====
-- signaling/nostr/identity.rs: when a node that stays known may change its key.
use mistlib.Base.{
  ℕ, ◌≡◌, ◌⊎◌, ◌≤◌, ◌<◌, inl, inr, refl, ◌∙◌, sym, subst, Option, none, some, true, false, String,
  String_discrete, if◌then◌else◌, ite, ltb, retain, arith, Bool-cases, ◌||◌,
}
use mistlib.Base.Maps.{get, contains_key, Uniq, get-retain, retain-Uniq}
use mistlib.Types.{NodeId, node_dec}
use mistlib.Messages.{Result, ok, err}
use mistlib.Signaling.Nostr.Discovery.{
  NodeBinding, DiscoveryTable, BindOutcome, known, rebound, newer_epoch, epoch_is_newer,
  sweep_expired, insert_pubkey_with_rank, judge_binding, bind_node_with_epoch, touch_node,
  unbind_node, changed_pubkey,
}

-- An operation of the table, none of which is told to allow a new key.
pub data Op : Type 0 where
  -- the two readings of the clock, the node, its key, the expiry, the rank and the epoch
  bind : ℕ → ℕ → NodeId → String → ℕ → String → Option ℕ → Op
  learn : ℕ → String → ℕ → String → Op
  touch : ℕ → NodeId → ℕ → Op
  sweep : ℕ → Op
  unbind : NodeId → Op

abbrev pub step : Op → DiscoveryTable → DiscoveryTable
step (bind now then_now node_id pubkey expires_at rank epoch) t =
    (bind_node_with_epoch now then_now node_id pubkey expires_at rank epoch false t).1
step (learn now pubkey expires_at rank) t = insert_pubkey_with_rank now pubkey expires_at rank t
step (touch now node_id ttl_seconds) t = touch_node now node_id ttl_seconds t
step (sweep now) t = sweep_expired now t
step (unbind node_id) t = (unbind_node node_id t).1

-- The binding of a node.
abbrev pub bound : NodeId → DiscoveryTable → Option NodeBinding
bound id t = get node_dec id t.node_to_pubkey

-- One epoch is not later than another; no epoch is before all.
abbrev pub NotLater : Option ℕ → Option ℕ → Type 0
NotLater none b = Unit
NotLater (some a) none = ⊥
NotLater (some a) (some b) = a ≤ b

abbrev pub Earlier : Option ℕ → Option ℕ → Type 0
Earlier a none = ⊥
Earlier none (some b) = Unit
Earlier (some a) (some b) = a < b

-- A later binding of a node: of the same key with an epoch that is not earlier, or of a later epoch.
abbrev pub Succeeds : NodeBinding → NodeBinding → Type 0
Succeeds b b' = ((b'.pubkey ≡ b.pubkey) × NotLater b.epoch b'.epoch) ⊎ Earlier b.epoch b'.epoch

NotLater-refl : (a : Option ℕ) → NotLater a a
NotLater-refl none = tt
NotLater-refl (some a) = omega arith

NotLater-trans : (a b c : Option ℕ) → NotLater a b → NotLater b c → NotLater a c
NotLater-trans none b c p q = tt
NotLater-trans (some a) none c p q = absurd p
NotLater-trans (some a) (some b) none p q = q
NotLater-trans (some a) (some b) (some c) p q = omega arith

Earlier-later : (a b c : Option ℕ) → Earlier a b → NotLater b c → Earlier a c
Earlier-later a none c p q = absurd p
Earlier-later a (some b) none p q = absurd q
Earlier-later none (some b) (some c) p q = tt
Earlier-later (some a) (some b) (some c) p q = omega arith

later-Earlier : (a b c : Option ℕ) → NotLater a b → Earlier b c → Earlier a c
later-Earlier a b none p q = q
later-Earlier none b (some c) p q = tt
later-Earlier (some a) none (some c) p q = absurd p
later-Earlier (some a) (some b) (some c) p q = omega arith

Earlier-NotLater : (a b : Option ℕ) → Earlier a b → NotLater a b
Earlier-NotLater a none p = absurd p
Earlier-NotLater none (some b) p = tt
Earlier-NotLater (some a) (some b) p = omega arith

pub Succeeds-refl : (b : NodeBinding) → Succeeds b b
Succeeds-refl b = inl (refl, NotLater-refl b.epoch)

pub Succeeds-trans : (a b c : NodeBinding) → Succeeds a b → Succeeds b c → Succeeds a c
Succeeds-trans a b c (inl (p, l)) (inl (q, m)) =
    inl (q ∙ p, NotLater-trans a.epoch b.epoch c.epoch l m)
Succeeds-trans a b c (inl (p, l)) (inr m) = inr (later-Earlier a.epoch b.epoch c.epoch l m)
Succeeds-trans a b c (inr l) (inl (q, m)) = inr (Earlier-later a.epoch b.epoch c.epoch l m)
Succeeds-trans a b c (inr l) (inr m) =
    inr (Earlier-later a.epoch b.epoch c.epoch l (Earlier-NotLater b.epoch c.epoch m))

-- No node stands twice in the table.
abbrev pub IsTable : DiscoveryTable → Type 0
IsTable t = Uniq node_dec t.node_to_pubkey

pub sweep-IsTable : (now : ℕ) (t : DiscoveryTable) → IsTable t → IsTable (sweep_expired now t)
unfolding sweep_expired
sweep-IsTable now t u = retain-Uniq node_dec _ t.node_to_pubkey u

-- A sweep does not change the bindings that it leaves.
pub sweep-bound :
    (now : ℕ) (id : NodeId) (b : NodeBinding) (t : DiscoveryTable)
    → IsTable t
    → bound id (sweep_expired now t) ≡ some b
    → bound id t ≡ some b
unfolding sweep_expired
sweep-bound now id b t u h = ground (
  arith,
  get-retain node_dec
      (λ e.
        contains_key String_discrete e.1.pubkey (retain (λ x. ltb now x.1.expires_at) t.by_pubkey))
      id t.node_to_pubkey u,
  h,
)

newer_epoch-NotLater : (a b : Option ℕ) → NotLater a (newer_epoch a b)
unfolding newer_epoch
newer_epoch-NotLater none b = tt
newer_epoch-NotLater (some a) none = omega arith
newer_epoch-NotLater (some a) (some b) = omega arith

newer-Earlier : (a b : Option ℕ) → epoch_is_newer a b ≡ true → Earlier a b
unfolding epoch_is_newer
newer-Earlier a none h = cc
newer-Earlier none (some b) h = tt
newer-Earlier (some a) (some b) h = ground (arith, h)

ok_second :
    (a c : BindOutcome) (b d : Option ℕ)
    → ◌≡◌ {A = Result (BindOutcome × Option ℕ)} (ok (a, b)) (ok (c, d))
    → b ≡ d
ok_second a c b d h = cc

pub judge-Succeeds :
    (b : NodeBinding) (pubkey : String) (epoch kept : Option ℕ) (outcome : BindOutcome)
    → judge_binding (some b) pubkey epoch false ≡ ok (outcome, kept)
    → Succeeds b (record { pubkey = pubkey; epoch = kept })
unfolding judge_binding
judge-Succeeds b pubkey epoch kept outcome =
    elim (String_discrete b.pubkey pubkey)
      as (λ d.
        ite {C = Result (BindOutcome × Option ℕ)} d (ok (known, newer_epoch b.epoch epoch)) (
            if epoch_is_newer b.epoch epoch || false
            then ok (rebound b.pubkey, epoch)
            else err changed_pubkey)
          ≡ ok (outcome, kept)
        → Succeeds b (record { pubkey = pubkey; epoch = kept })) [
          | yes p ↦ λ h.
              let same = ok_second known outcome (newer_epoch b.epoch epoch) kept h in
              inl (sym p, subst (NotLater b.epoch) same (newer_epoch-NotLater b.epoch epoch))
          | no p ↦ λ h. elim (Bool-cases (epoch_is_newer b.epoch epoch)) [
            | inl e ↦
                let taken : epoch ≡ kept = ground (arith, e, h) in
                inr (subst (Earlier b.epoch) taken (newer-Earlier b.epoch epoch e))
            | inr e ↦ absurd (let clash : true ≡ false = ground (arith, e, h) in cc)
          ]
        ]
