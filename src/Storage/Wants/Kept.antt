-- ===== src/Storage/Wants/Kept.antt =====
-- No sequence of operations on the registry of storage/protocol.rs panics or exceeds the limits.
use mistlib.Base.{
  ℕ, ◌≤◌, ◌<◌, ◌≡◌, inl, inr, refl, sym, subst, List, [], ◌∷◌, none, some, Bool, true, false, leb,
  String, length, arith, Bool-cases, ◌&&◌,
}
use mistlib.Types.{NodeId}
use mistlib.Storage.Wants.State.{
  PendingWant, PathKey, Pending, WantState, Notice, flatten, is_candidate, accepts, prune,
  enforce_byte_limits, observe,
}
use mistlib.Storage.Wants.Registry.{
  WantRegistry, Outcome, reject, max_want_block_bytes, fulfill_data_in, prepend,
}
use mistlib.Storage.Wants.Requests.{
  is_refused, new_want, modify_want, is_reset, survives, register_attempt_for_peers,
  register_attempt, register_bounded_attempt, track_path, untrack_path, outstanding_senders,
  progress_of, query_path_resets, reset_path,
}
use mistlib.Storage.Wants.Peers.{
  cancel_closed, cancel, register_peer_notifier, register_peer_notifier_in, register_peer,
  register_peer_in,
}
use mistlib.Storage.Wants.Counts.{
  wants, length-flatten, wants-remove, wants-push_want, wants-modify_want, wants-bump_wants,
}
use mistlib.Storage.Wants.Limits.{
  IsGood, IsGood-fewer, Drops, Drops-refl, retain-Drops, prune-IsGood, enforce-IsGood,
  observe-IsGood, advance-IsGood, fulfill-IsGood,
}
use mistlib.Storage.Wants.Admitted.{Returns}
use mistlib.Storage.Wants.Chunks.{chunk-Returns}
use mistlib.Storage.Wants.Runs.{
  Env, Op, register, register_bounded, track, untrack, block, chunk, senders, follow, follow_path,
  reset, drop_all, drop_closed, await_peer, await_peer_in, announce, step, followed_by, run,
  new_registry,
}

-- A state that differs in what the limits do not concern.
same-IsGood :
    (s s' : WantState)
    → wants s'.pending ≤ wants s.pending
    → s'.assemblies ≡ s.assemblies
    → IsGood s
    → IsGood s'
same-IsGood s s' fewer same good =
    IsGood-fewer s s' fewer (subst (Drops s.assemblies) (sym same) (Drops-refl s.assemblies)) good

not_refused :
    (len : String → ℕ) (cid : String) (peers : List NodeId) (m : Pending)
    → is_refused len cid peers m ≡ false
    → length (flatten m) < 1024
unfolding is_refused
not_refused len cid [] m h = cc
not_refused len cid (p ∷ peers) m h = ground (arith, h)

register-IsGood :
    (closed : ℕ → Bool) (watched : PathKey → Bool) (len : String → ℕ) (cid : String)
    (peers : List NodeId) (local : Bool) (r : WantRegistry)
    → IsGood r.state
    → IsGood (register_attempt_for_peers closed watched len cid peers local r).1.state
unfolding register_attempt_for_peers
register-IsGood closed watched len cid peers local r good =
    let s = prune closed watched r.state in
    let pruned : IsGood s = prune-IsGood closed watched r.state good in
    elim (Bool-cases (is_refused len cid peers s.pending)) [
      | inl refused ↦ rw refused (same-IsGood s _ (omega arith) refl pruned)
      | inr admitted ↦
          let room = not_refused len cid peers s.pending admitted in
          rw admitted (record {
            few_wants = omega (
              arith,
              room,
              length-flatten s.pending,
              wants-push_want cid (new_want _ peers local) s.pending,
            );
            few_assemblies = pruned.few_assemblies;
            few_bytes = pruned.few_bytes;
            partials = pruned.partials;
            keys = pruned.keys;
          })
    ]

block-IsGood :
    (closed : ℕ → Bool) (watched : PathKey → Bool) (now : ℕ) (room cid : String) (sender : NodeId)
    (bytes : List ℕ) (r : WantRegistry)
    → IsGood r.state
    → IsGood (fulfill_data_in closed watched now room cid sender bytes r).1.state
unfolding fulfill_data_in reject
block-IsGood closed watched now room cid sender bytes r good =
    let seen = observe now cid sender room false (prune closed watched r.state) in
    let s = (enforce_byte_limits closed watched cid sender room (length bytes) seen).1 in
    let good' : IsGood s =
      enforce-IsGood closed watched cid sender room (length bytes) seen
        (observe-IsGood now cid sender room false _ (prune-IsGood closed watched r.state good)) in
    let fits =
      leb (length bytes) max_want_block_bytes && accepts closed watched cid sender room s in
    elim (Bool-cases fits) [
      | inl e ↦ rw e (
          fulfill-IsGood closed watched cid sender room bytes _
            (advance-IsGood now sender _ (observe-IsGood now cid sender room true s good')))
      | inr e ↦ rw e good'
    ]

modified-IsGood :
    (s : WantState) (id : ℕ) (f : PendingWant → PendingWant)
    → IsGood s
    → IsGood (record s { pending = modify_want id f s.pending })
modified-IsGood s id f good =
    same-IsGood s (record s { pending = modify_want id f s.pending })
      (omega (arith, wants-modify_want id f s.pending)) refl good

-- One operation does not panic, and keeps the limits.
pub step-Returns :
    (len : String → ℕ) (e : Env) (op : Op) (r : WantRegistry)
    → IsGood r.state
    → Returns (step len e op r)
unfolding register_bounded_attempt register_attempt track_path untrack_path outstanding_senders
    progress_of query_path_resets reset_path cancel cancel_closed register_peer_notifier
    register_peer_notifier_in register_peer register_peer_in
step-Returns len e (register cid peers local) r good =
    register-IsGood e.closed e.watched len cid peers local r good
step-Returns len e (register_bounded cid sender max_bytes) r good =
    modified-IsGood _ _ _ (register-IsGood e.closed e.watched len cid (sender ∷ []) false r good)
step-Returns len e (track attempt room) r good = modified-IsGood r.state attempt _ good
step-Returns len e (untrack attempt room) r good =
    prune-IsGood e.closed e.watched _ (modified-IsGood r.state attempt _ good)
step-Returns len e (block room cid sender bytes) r good =
    block-IsGood e.closed e.watched e.now room cid sender bytes r good
step-Returns len e (chunk room cid sender index total bytes) r good =
    chunk-Returns e.closed e.watched e.now room cid sender index total bytes r good
step-Returns len e senders r good = prune-IsGood e.closed e.watched r.state good
step-Returns len e (follow sender) r good =
    let s = prune e.closed e.watched r.state in
    let pruned : IsGood s = prune-IsGood e.closed e.watched r.state good in
    elim (Bool-cases (is_candidate sender (flatten s.pending))) [
      | inl h ↦ rw h (same-IsGood s _ (omega arith) refl pruned)
      | inr h ↦ rw h pruned
    ]
step-Returns len e (follow_path room peer) r good =
    same-IsGood (prune e.closed e.watched r.state) _ (omega arith) refl
      (prune-IsGood e.closed e.watched r.state good)
step-Returns len e (reset sender room) r good =
    let s = prune e.closed e.watched r.state in
    IsGood-fewer s _ (omega (arith, wants-bump_wants (is_reset sender room) s.pending))
      (retain-Drops (survives sender room) s.assemblies)
      (prune-IsGood e.closed e.watched r.state good)
step-Returns len e (drop_all cid) r good = prune-IsGood e.closed e.watched _ (
    IsGood-fewer r.state _ (omega (arith, wants-remove cid r.state.pending))
      (retain-Drops _ r.state.assemblies) good)
step-Returns len e drop_closed r good = prune-IsGood e.closed e.watched r.state good
step-Returns len e (await_peer tx cid) r good = prune-IsGood e.closed e.watched r.state good
step-Returns len e (await_peer_in tx room cid) r good = prune-IsGood e.closed e.watched r.state good
step-Returns len e (announce room cid peer) r good = good

prepend-Returns : (notices : List Notice) (o : Outcome) → Returns o → Returns (prepend notices o)
unfolding prepend
prepend-Returns notices none h = h
prepend-Returns notices (some (others, r)) h = h

followed_by-Returns :
    (o : Outcome) (rest : WantRegistry → Outcome)
    → Returns o
    → ((r : WantRegistry) → IsGood r.state → Returns (rest r))
    → Returns (followed_by o rest)
followed_by-Returns none rest h all = h
followed_by-Returns (some (notices, left)) rest h all =
    prepend-Returns notices (rest left) (all left h)

run-Returns_from :
    (len : String → ℕ) (ops : List (Env × Op)) (r : WantRegistry)
    → IsGood r.state
    → Returns (run len ops r)
run-Returns_from len [] r good = good
run-Returns_from len ((e, op) ∷ ops) r good =
    followed_by-Returns (step len e op r) (run len ops) (step-Returns len e op r good)
      (λ left h. run-Returns_from len ops left h)

-- Whatever the operations on a new registry, at whatever times and with whatever receivers gone, no
-- index is out of range and no chunk that is put together is missing, so the code returns; and in
-- the end at most 1024 wants are pending, and at most 256 blocks are being put together, whose
-- chunks hold at most 64 MiB together and 8 MiB each, of at most 8192 chunks each, at least one of
-- which has not come; the counts of chunks and of bytes are those of the chunks that are there.
pub run-Returns : (len : String → ℕ) (ops : List (Env × Op)) → Returns (run len ops new_registry)
run-Returns len ops = run-Returns_from len ops new_registry (omega arith)
