-- ===== src/Storage/Wants/Honest.antt =====
-- Every block that the registry of storage/protocol.rs hands out came from a peer who was asked.
use mistlib.Base.{
  ℕ, inl, inr, refl, subst, List, [], ◌∷◌, none, some, Bool, true, false, ◌&&◌, leb, String, length,
  All, All-map, All-retain, All-append, Bool-cases, Option-cases, arith,
}
use mistlib.Types.{NodeId}
use mistlib.Storage.Wants.State.{
  Pending, Notice, completed, oversized, flatten, is_candidate, prune, accepts, enforce_byte_limits,
  observe, advance_progress,
}
use mistlib.Storage.Wants.Registry.{
  WantRegistry, Outcome, reject, max_want_block_bytes, fulfill_data_in,
}
use mistlib.Storage.Wants.Requests.{
  is_refused, survives, register_attempt_for_peers, register_attempt, register_bounded_attempt,
  track_path, untrack_path, outstanding_senders, progress_of, query_path_resets, reset_path,
}
use mistlib.Storage.Wants.Peers.{
  cancel_closed, cancel, register_peer_notifier, register_peer_notifier_in, register_peer,
  register_peer_in,
}
use mistlib.Storage.Wants.Limits.{IsGood}
use mistlib.Storage.Wants.Admitted.{Returns}
use mistlib.Storage.Wants.Runs.{
  Env, Op, register, register_bounded, track, untrack, block, chunk, senders, follow, follow_path,
  reset, drop_all, drop_closed, await_peer, await_peer_in, announce, step, new_registry,
}
use mistlib.Storage.Wants.Kept.{step-Returns}
use mistlib.Storage.Wants.Asked.{
  Asked, IsMeant, prune-Asked, observe-Asked, enforce-Asked, fulfill-IsMeant,
}
use mistlib.Storage.Wants.Parts.{EntryFrom, AllFrom, AllFrom-later}
use mistlib.Storage.Wants.Backed.{chunk-Backed}
use mistlib.Storage.Wants.Stored.{
  IsBacked, Backed, prune-AllFrom, observe-AllFrom, enforce-AllFrom, fulfill-AllFrom,
  enforce-errors,
}

-- What may be sent at an operation: blocks only where a block or a chunk comes in.
abbrev pub IsHonest : List Op → Op → Pending → Notice → Type 0
IsHonest log (block room cid sender bytes) pending n = IsMeant sender room cid bytes pending n
IsHonest log (chunk room cid sender index total part) pending n =
    IsBacked log (cid, (sender, room)) total pending n
IsHonest log op pending n = ⊥

-- All that is sent at an operation is honest, and all that is stored came.
abbrev StepHonest : List Op → Op → Pending → Outcome → Type 0
StepHonest log op pending none = Unit
StepHonest log op pending (some (notices, left)) =
    All (IsHonest log op pending) notices × AllFrom log left.state.assemblies

earlier :
    (sender : NodeId) (room cid : String) (bytes : List ℕ) (later before : Pending)
    → ((id : ℕ) → Asked sender room cid id later → Asked sender room cid id before)
    → (n : Notice) → IsMeant sender room cid bytes later n
    → IsMeant sender room cid bytes before n
earlier sender room cid bytes later before back (completed id full) (same, asked) =
    (same, back id asked)
earlier sender room cid bytes later before back (oversized id n) h = tt

block-Honest :
    (e : Env) (log : List Op) (room cid : String) (sender : NodeId) (bytes : List ℕ)
    (r : WantRegistry)
    → AllFrom log r.state.assemblies
    → StepHonest log
        (block room cid sender bytes)
        r.state.pending
        (some (fulfill_data_in e.closed e.watched e.now room cid sender bytes r))
unfolding fulfill_data_in reject advance_progress
block-Honest e log room cid sender bytes r all =
    let pruned = prune e.closed e.watched r.state in
    let seen = observe e.now cid sender room false pruned in
    let enforced = enforce_byte_limits e.closed e.watched cid sender room (length bytes) seen in
    let s = enforced.1 in
    let P = IsMeant sender room cid bytes r.state.pending in
    let errors =
      enforce-errors e.closed e.watched log P cid sender room (length bytes) seen (λ id n. tt) in
    let kept : AllFrom log s.assemblies =
      enforce-AllFrom e.closed e.watched log cid sender room (length bytes) seen (
        observe-AllFrom e.now cid sender room false log pruned
          (prune-AllFrom e.closed e.watched log r.state all)) in
    let counted = advance_progress e.now sender (observe e.now cid sender room true s) in
    let kept' : AllFrom log counted.assemblies =
      observe-AllFrom e.now cid sender room true log s kept in
    let back = λ (id : ℕ) (h : Asked sender room cid id counted.pending).
      prune-Asked sender room e.closed e.watched cid id r.state (
        observe-Asked sender room e.now cid sender room false cid id pruned (
          enforce-Asked sender room e.closed e.watched cid sender room (length bytes) cid id seen
            (observe-Asked sender room e.now cid sender room true cid id s h))) in
    elim (Bool-cases
      (leb (length bytes) max_want_block_bytes && accepts e.closed e.watched cid sender room s)) [
        | inl fits ↦ rw fits (
          All-append P enforced.0 _ errors (
              All-map (IsMeant sender room cid bytes counted.pending) P
                (earlier sender room cid bytes counted.pending r.state.pending back) _
                (fulfill-IsMeant sender room e.closed e.watched cid bytes counted)),
          fulfill-AllFrom e.closed e.watched log cid sender room bytes counted kept',
        )
        | inr not_taken ↦ rw not_taken (errors, kept)
      ]

register-AllFrom :
    (e : Env) (log : List Op) (len : String → ℕ) (cid : String) (peers : List NodeId) (local : Bool)
    (r : WantRegistry)
    → AllFrom log r.state.assemblies
    → AllFrom log
        (register_attempt_for_peers e.closed e.watched len cid peers local r).1.state.assemblies
unfolding register_attempt_for_peers
register-AllFrom e log len cid peers local r all =
    let s = prune e.closed e.watched r.state in
    let kept = prune-AllFrom e.closed e.watched log r.state all in
    elim (Bool-cases (is_refused len cid peers s.pending)) [ inl h ↦ rw h kept | inr h ↦ rw h kept ]

of_Backed :
    (log : List Op) (room cid : String) (sender : NodeId) (index total : ℕ) (part : List ℕ)
    (pending : Pending) (o : Outcome)
    → Backed log (cid, (sender, room)) total pending o
    → StepHonest log (chunk room cid sender index total part) pending o
of_Backed log room cid sender index total part pending none h = h
of_Backed log room cid sender index total part pending (some (notices, left)) h = h

step-Honest :
    (len : String → ℕ) (e : Env) (log : List Op) (op : Op) (r : WantRegistry)
    → IsGood r.state
    → AllFrom (op ∷ log) r.state.assemblies
    → StepHonest (op ∷ log) op r.state.pending (step len e op r)
unfolding register_bounded_attempt register_attempt track_path untrack_path outstanding_senders
    progress_of query_path_resets reset_path cancel cancel_closed register_peer_notifier
    register_peer_notifier_in register_peer register_peer_in
step-Honest len e log (register cid peers local) r good all =
    (tt, register-AllFrom e (register cid peers local ∷ log) len cid peers local r all)
step-Honest len e log (register_bounded cid sender max_bytes) r good all = (
  tt,
  register-AllFrom e (register_bounded cid sender max_bytes ∷ log) len cid (sender ∷ []) false r
      all,
)
step-Honest len e log (track attempt room) r good all = (tt, all)
step-Honest len e log (untrack attempt room) r good all = (
  tt,
  prune-AllFrom e.closed e.watched (untrack attempt room ∷ log) (record r.state { pending = _ })
      all,
)
step-Honest len e log (block room cid sender bytes) r good all =
    block-Honest e (block room cid sender bytes ∷ log) room cid sender bytes r all
step-Honest len e log (chunk room cid sender index total part) r good all =
    let op = chunk room cid sender index total part in
    of_Backed (op ∷ log) room cid sender index total part r.state.pending (step len e op r) (
      chunk-Backed e.closed e.watched (op ∷ log) e.now room cid sender index total part r good
        (inl refl) all)
step-Honest len e log senders r good all =
    (tt, prune-AllFrom e.closed e.watched (senders ∷ log) r.state all)
step-Honest len e log (follow sender) r good all =
    let s = prune e.closed e.watched r.state in
    let kept = prune-AllFrom e.closed e.watched (follow sender ∷ log) r.state all in
    elim (Bool-cases (is_candidate sender (flatten s.pending))) [
      | inl h ↦ rw h (tt, kept)
      | inr h ↦ rw h (tt, kept)
    ]
step-Honest len e log (follow_path room peer) r good all =
    (tt, prune-AllFrom e.closed e.watched (follow_path room peer ∷ log) r.state all)
step-Honest len e log (reset sender room) r good all =
    let log' = reset sender room ∷ log in
    let s = prune e.closed e.watched r.state in
    (
      tt,
      All-retain (EntryFrom log') (survives sender room) s.assemblies
          (prune-AllFrom e.closed e.watched log' r.state all),
    )
step-Honest len e log (drop_all cid) r good all =
    let log' = drop_all cid ∷ log in
    (
      tt,
      prune-AllFrom e.closed e.watched log' (record r.state { pending = _; assemblies = _ })
          (All-retain (EntryFrom log') _ r.state.assemblies all),
    )
step-Honest len e log drop_closed r good all =
    (tt, prune-AllFrom e.closed e.watched (drop_closed ∷ log) r.state all)
step-Honest len e log (await_peer tx cid) r good all =
    (tt, prune-AllFrom e.closed e.watched (await_peer tx cid ∷ log) r.state all)
step-Honest len e log (await_peer_in tx room cid) r good all =
    (tt, prune-AllFrom e.closed e.watched (await_peer_in tx room cid ∷ log) r.state all)
step-Honest len e log (announce room cid peer) r good all = (tt, all)

-- Every operation returns, and what it sends is honest by the log of the operations up to it.
abbrev pub RunHonest : (String → ℕ) → List Op → List (Env × Op) → WantRegistry → Type 0
RunHonest len log [] r = Unit
RunHonest len log ((e, op) ∷ ops) r = elim (step len e op r) [
  | none ↦ ⊥
  | some (notices, left) ↦
      All (IsHonest (op ∷ log) op r.state.pending) notices × RunHonest len (op ∷ log) ops left
]

run-IsHonest_from :
    (len : String → ℕ) (log : List Op) (ops : List (Env × Op)) (r : WantRegistry)
    → IsGood r.state
    → AllFrom log r.state.assemblies
    → RunHonest len log ops r
run-IsHonest_from len log [] r good all = tt
run-IsHonest_from len log ((e, op) ∷ ops) r good all = elim (Option-cases (step len e op r)) [
  | inl panic ↦ absurd (subst Returns panic (step-Returns len e op r good))
  | inr ((notices, left), done) ↦
      let good' : IsGood left.state = subst Returns done (step-Returns len e op r good) in
      let (sent, stored) =
        subst (StepHonest (op ∷ log) op r.state.pending) done
          (step-Honest len e log op r good (AllFrom-later op log r.state.assemblies all)) in
      rw (done, RunHonest) (sent, run-IsHonest_from len (op ∷ log) ops left good' stored)
]

-- Through any operations on a new registry, every operation returns, and a block is sent to an
-- attempt only where a frame with a block or with a chunk comes in, while the attempt has a want
-- pending for that CID that has the sender of the frame among its peers and the room among its paths. The block is
-- that of the frame; or it is put together, in the order of their indices, of chunks that came in
-- frames from that sender, in that room and for that CID, one for each index, all with the same
-- number of chunks.
pub run-IsHonest : (len : String → ℕ) (ops : List (Env × Op)) → RunHonest len [] ops new_registry
run-IsHonest len ops = run-IsHonest_from len [] ops new_registry (omega arith) tt
