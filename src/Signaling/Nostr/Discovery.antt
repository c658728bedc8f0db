-- ===== src/Signaling/Nostr/Discovery.antt =====
-- `DiscoveryTable` of mistlib-core/src/signaling/nostr/identity.rs: which public keys are known, and which
-- key a node signals with. Times are seconds, read from a clock before each sweep.
pub mod Binding
pub mod Succession
pub mod Responders
pub mod Ranking
pub mod TextOrder
pub mod Sorted
pub mod Listed
pub mod Backwards
use mistlib.Base.{
  ℕ, ◌+◌, ◌-◌, ◌%◌, List, [], ◌∷◌, ◌++◌, Option, none, some, Bool, true, false, not, ◌&&◌, ◌||◌,
  ltb, leb, ◌==◌, String, String_discrete, if◌then◌else◌, ite, any, retain, map, length, max,
  is_some,
}
use mistlib.Base.Words.{sat_add64}
use mistlib.Base.Maps.{get, insert, remove, contains_key}
use mistlib.Types.{NodeId, node_dec}
use mistlib.Messages.{MistError, Result, ok, err, signaling}

pub record DiscoveryEntry : Type 0 where
  pub signaling_pubkey : String
  pub expires_at : ℕ
  pub topology_rank : String

pub record NodeBinding : Type 0 where
  pub pubkey : String
  pub epoch : Option ℕ

pub data BindOutcome : Type 0 where
  known new : BindOutcome
  rebound : String → BindOutcome

unfoldable pub is_known : BindOutcome → Bool
is_known known = true
is_known _ = false

unfoldable pub rebound_from : BindOutcome → Option String
rebound_from (rebound previous_pubkey) = some previous_pubkey
rebound_from _ = none

unfoldable pub newer_epoch : Option ℕ → Option ℕ → Option ℕ
newer_epoch (some stored) (some incoming) = some (max stored incoming)
newer_epoch (some stored) none = some stored
newer_epoch none incoming = incoming

-- Whether an epoch that comes in wins over the stored one.
unfoldable pub epoch_is_newer : Option ℕ → Option ℕ → Bool
epoch_is_newer stored none = false
epoch_is_newer none (some candidate) = true
epoch_is_newer (some stored) (some candidate) = ltb stored candidate

pub record DiscoveryTable : Type 0 where
  pub by_pubkey : List (String × DiscoveryEntry)
  pub node_to_pubkey : List (NodeId × NodeBinding)

abbrev pub empty_table : DiscoveryTable
empty_table = record { by_pubkey = []; node_to_pubkey = [] }

unfoldable pub sweep_expired : ℕ → DiscoveryTable → DiscoveryTable
sweep_expired now t =
    let live = retain (λ e. ltb now e.1.expires_at) t.by_pubkey in
    record {
      by_pubkey = live;
      node_to_pubkey = retain (λ e. contains_key String_discrete e.1.pubkey live) t.node_to_pubkey;
    }

unfoldable pub expires_at_for_pubkey : String → DiscoveryTable → Option ℕ
expires_at_for_pubkey pubkey t = elim (get String_discrete pubkey t.by_pubkey) [
  | none ↦ none
  | some entry ↦ some entry.expires_at
]

-- The later of the expiry that is there and the one that comes in.
unfoldable pub later_expiry : Option DiscoveryEntry → ℕ → ℕ
later_expiry none expires_at = expires_at
later_expiry (some entry) expires_at = max entry.expires_at expires_at

unfoldable pub insert_pubkey_with_rank : ℕ → String → ℕ → String → DiscoveryTable → DiscoveryTable
insert_pubkey_with_rank now pubkey expires_at rank t =
    let s = sweep_expired now t in
    record s {
      by_pubkey =
          insert String_discrete pubkey
            (record {
              signaling_pubkey = pubkey;
              expires_at = later_expiry (get String_discrete pubkey s.by_pubkey) expires_at;
              topology_rank = rank;
            })
            s.by_pubkey;
    }

unfoldable pub insert_pubkey : ℕ → String → ℕ → DiscoveryTable → DiscoveryTable
insert_pubkey now pubkey expires_at t = insert_pubkey_with_rank now pubkey expires_at pubkey t

abbrev pub changed_pubkey : MistError
changed_pubkey = signaling "Nostr sender node id changed pubkey"

-- What a node that stands in the table, or not, becomes bound by: the outcome and the epoch.
unfoldable pub judge_binding :
    Option NodeBinding → String → Option ℕ → Bool → Result (BindOutcome × Option ℕ)
judge_binding none pubkey epoch allow = ok (new, epoch)
judge_binding (some existing) pubkey epoch allow =
    ite (String_discrete existing.pubkey pubkey) (ok (known, newer_epoch existing.epoch epoch)) (
      if epoch_is_newer existing.epoch epoch || allow
      then ok (rebound existing.pubkey, epoch)
      else err changed_pubkey)

-- A rebound key is forgotten.
unfoldable pub forget_previous : BindOutcome → DiscoveryTable → DiscoveryTable
forget_previous (rebound previous) t = record t {
  by_pubkey = remove String_discrete previous t.by_pubkey;
}
forget_previous _ t = t

-- What the judgement makes of the table.
unfoldable pub enter_binding :
    ℕ
    → NodeId
    → String
    → ℕ
    → String
    → DiscoveryTable
    → Result (BindOutcome × Option ℕ)
    → Result BindOutcome × DiscoveryTable
enter_binding then_now node_id pubkey expires_at rank s (err e) = (err e, s)
enter_binding then_now node_id pubkey expires_at rank s (ok (outcome, kept)) =
    let left =
      insert_pubkey_with_rank then_now pubkey expires_at rank (forget_previous outcome s) in
    (
      ok outcome,
      record left {
        node_to_pubkey =
            insert node_dec node_id (record { pubkey = pubkey; epoch = kept }) left.node_to_pubkey;
      },
    )

-- The clock is read twice.
unfoldable pub bind_node_with_epoch :
    ℕ
    → ℕ
    → NodeId
    → String
    → ℕ
    → String
    → Option ℕ
    → Bool
    → DiscoveryTable
    → Result BindOutcome × DiscoveryTable
bind_node_with_epoch now then_now node_id pubkey expires_at rank epoch allow t =
    let s = sweep_expired now t in
    enter_binding then_now node_id pubkey expires_at rank s
      (judge_binding (get node_dec node_id s.node_to_pubkey) pubkey epoch allow)

-- Whether the binding was known.
unfoldable pub known_result : Result BindOutcome → Result Bool
known_result (ok outcome) = ok (is_known outcome)
known_result (err e) = err e

unfoldable pub bind_node_checked_with_rank_and_rebind :
    ℕ → ℕ → NodeId → String → ℕ → String → Bool → DiscoveryTable → Result Bool × DiscoveryTable
bind_node_checked_with_rank_and_rebind now then_now node_id pubkey expires_at rank allow t =
    let (outcome, left) =
      bind_node_with_epoch now then_now node_id pubkey expires_at rank none allow t in
    (known_result outcome, left)

unfoldable pub bind_node_checked_with_rank :
    ℕ → ℕ → NodeId → String → ℕ → String → DiscoveryTable → Result Bool × DiscoveryTable
bind_node_checked_with_rank now then_now node_id pubkey expires_at rank t =
    bind_node_checked_with_rank_and_rebind now then_now node_id pubkey expires_at rank false t

-- The key stands for its rank.
unfoldable pub bind_node_checked :
    ℕ → ℕ → NodeId → String → ℕ → DiscoveryTable → Result Bool × DiscoveryTable
bind_node_checked now then_now node_id pubkey expires_at t =
    bind_node_checked_with_rank now then_now node_id pubkey expires_at pubkey t

unfoldable pub bind_node : ℕ → ℕ → NodeId → String → ℕ → DiscoveryTable → DiscoveryTable
bind_node now then_now node_id pubkey expires_at t =
    (bind_node_checked now then_now node_id pubkey expires_at t).1

unfoldable pub pubkey_for_node : ℕ → NodeId → DiscoveryTable → Option String × DiscoveryTable
pubkey_for_node now node_id t =
    let s = sweep_expired now t in
    (
      elim (get node_dec node_id s.node_to_pubkey) [
        | none ↦ none
        | some binding ↦ some binding.pubkey
      ],
      s,
    )

unfoldable pub epoch_for_node : NodeId → DiscoveryTable → Option ℕ
epoch_for_node node_id t = elim (get node_dec node_id t.node_to_pubkey) [
  | none ↦ none
  | some binding ↦ binding.epoch
]

unfoldable pub unbind_node : NodeId → DiscoveryTable → Option String × DiscoveryTable
unbind_node node_id t = elim (get node_dec node_id t.node_to_pubkey) [
  | none ↦ (none, t)
  | some binding ↦ (
    some binding.pubkey,
    record {
      by_pubkey = remove String_discrete binding.pubkey t.by_pubkey;
      node_to_pubkey = remove node_dec node_id t.node_to_pubkey;
    },
  )
]

-- The entry of a key, if it is there, lives at least until `until`.
unfoldable pub renew : String → ℕ → List (String × DiscoveryEntry) → List (String × DiscoveryEntry)
renew pubkey until m = elim (get String_discrete pubkey m) [
  | none ↦ m
  | some entry ↦
      insert String_discrete pubkey (record entry { expires_at = max entry.expires_at until }) m
]

unfoldable pub touch_node : ℕ → NodeId → ℕ → DiscoveryTable → DiscoveryTable
touch_node now node_id ttl_seconds t =
    let s = sweep_expired now t in
    elim (get node_dec node_id s.node_to_pubkey) [
      | none ↦ s
      | some binding ↦ record s {
        by_pubkey = renew binding.pubkey (sat_add64 now ttl_seconds) s.by_pubkey;
      }
    ]

unfoldable pub active_pubkeys : ℕ → DiscoveryTable → List String × DiscoveryTable
active_pubkeys now t = let s = sweep_expired now t in (map (λ e. e.0) s.by_pubkey, s)

unfoldable pub clear : DiscoveryTable → DiscoveryTable
clear t = record { by_pubkey = []; node_to_pubkey = [] }
