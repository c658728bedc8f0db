-- ===== src/Overlay/Router/Reorder/Defs.antt =====
-- mistlib-core/src/overlay/router/reorder.rs: the reorder buffer of the receiver. Instants and
-- durations are numbers of one unit; `duration_since` stops at 0, as the subtraction of ℕ does.
-- Sequence numbers are `u64`; their `+ 1` wraps.
use mistlib.Base.{
  ℕ, zero, suc, ◌-◌, List, [], ◌∷◌, ◌++◌, Option, none, some, Bool, true, false, length, ltb, leb,
  ◌==◌, if◌then◌else◌, ◌&&◌,
}
use mistlib.Base.Words.{add64}
use mistlib.Base.Btree
use mistlib.Base.Btree.{values}
use mistlib.Base.Maps
use mistlib.Base.Eviction.{make_room}
use mistlib.Types.{NodeId, node_dec}

abbrev pub reorder_max_per_source : ℕ
reorder_max_per_source = 256

abbrev pub reorder_max_sources : ℕ
reorder_max_sources = 1024

-- 8 s, in milliseconds.
abbrev pub reorder_gap_timeout : ℕ
reorder_gap_timeout = 8000

pub record SourceState (C : Type 0) : Type 0 where
  pub next_expected : ℕ
  pub buffered : List (ℕ × C)
  pub gap_since : Option ℕ
  pub last_activity : ℕ

pub record ReorderBuffer (C : Type 0) : Type 0 where
  pub sources : List (NodeId × SourceState C)
  pub max_per_source : ℕ
  pub max_sources : ℕ
  pub gap_timeout : ℕ

module _ {C : Type 0} where
  unfoldable pub new_source : ℕ → SourceState C
  new_source now = record {
    next_expected = 1;
    buffered = [];
    gap_since = none;
    last_activity = now;
  }

  unfoldable pub new_buffer : ℕ → ℕ → ℕ → ReorderBuffer C
  new_buffer per sources timeout = record {
    sources = [];
    max_per_source = per;
    max_sources = sources;
    gap_timeout = timeout;
  }

  unfoldable pub default_buffer : ReorderBuffer C
  default_buffer = new_buffer reorder_max_per_source reorder_max_sources reorder_gap_timeout

  -- The range that a flush skips, which its callers log.
  unfoldable pub skipped : SourceState C → Option (ℕ × ℕ)
  skipped s = elim (Btree.first_key s.buffered) [
    | none ↦ none
    | some first ↦ if ltb s.next_expected first then some (s.next_expected, first) else none
  ]

  -- All that is buffered, in order; the next number follows the last of them.
  unfoldable pub flush : SourceState C → SourceState C × List C
  flush s = (
    record s {
      next_expected = elim (Btree.last_key s.buffered) [
        | none ↦ s.next_expected
        | some max_seq ↦ add64 max_seq 1
      ];
      buffered = [];
      gap_since = none;
    },
    values s.buffered,
  )

  -- `gap_since` is set and `now.duration_since(since) >= gap_timeout`.
  unfoldable pub gap_expired : ℕ → ℕ → SourceState C → Bool
  gap_expired gap_timeout now s = elim s.gap_since [
    | none ↦ false
    | some since ↦ leb gap_timeout (now - since)
  ]

  unfoldable pub flush_stale : ℕ → ℕ → SourceState C → SourceState C × List C
  flush_stale gap_timeout now s = if gap_expired gap_timeout now s then flush s else (s, [])

  -- The `while let` that follows an expected message; a round takes one entry, so the number of
  -- entries bounds the rounds.
  unfoldable pub drain : ℕ → ℕ → List (ℕ × C) → List C × ℕ × List (ℕ × C)
  drain zero next m = ([], next, m)
  drain (suc fuel) next m =
      let (out, next', m') = drain fuel (add64 next 1) (Btree.remove next m) in
      elim (Btree.get next m) [ none ↦ ([], next, m) | some c ↦ (c ∷ out, next', m') ]

  abbrev pub is_empty : List (ℕ × C) → Bool
  is_empty [] = true
  is_empty (e ∷ m) = false

  -- `seq == next_expected`.
  unfoldable pub deliver_next : C → ℕ → SourceState C → SourceState C × List C
  deliver_next content now s =
      let (out, next, m) = drain (length s.buffered) (add64 s.next_expected 1) s.buffered in
      (
        record s {
          next_expected = next;
          buffered = m;
          gap_since = if is_empty m then none else some now;
        },
        content ∷ out,
      )

  -- `seq > next_expected`.
  unfoldable pub hold : ℕ → ℕ → C → ℕ → SourceState C → SourceState C × List C
  hold max_per_source seq content now s =
      let held = record s {
        buffered = Btree.insert seq content s.buffered;
        gap_since = elim s.gap_since [ none ↦ some now | some since ↦ some since ];
      } in
      if ltb max_per_source (length held.buffered) then flush held else (held, [])

  -- The sender has restarted its counter: the old stream is flushed, and the new one begins.
  unfoldable pub restart : C → SourceState C → SourceState C × List C
  restart content s =
      let (s', out) = flush s in (record s' { next_expected = 2 }, out ++ content ∷ [])

  -- The part of `accept_at` behind the lazy flush.
  unfoldable pub place : ℕ → ℕ → C → ℕ → SourceState C → SourceState C × List C
  place max_per_source seq content now s =
      if seq == 1 && ltb 1 s.next_expected
      then restart content s
      else if ltb seq s.next_expected
      then (s, [])
      else if seq == s.next_expected
      then deliver_next content now s
      else hold max_per_source seq content now s

  -- `accept_at` for a sequenced message, on the state of its source.
  unfoldable pub accept_source : ℕ → ℕ → ℕ → C → ℕ → SourceState C → SourceState C × List C
  accept_source max_per_source gap_timeout seq content now s =
      let (s', stale) = flush_stale gap_timeout now (record s { last_activity = now }) in
      let (s'', out) = place max_per_source seq content now s' in (s'', stale ++ out)

  -- `min_by_key(|(_, s)| s.last_activity)`.
  unfoldable pub evict_sources_if_needed : NodeId → ReorderBuffer C → ReorderBuffer C
  evict_sources_if_needed incoming b = record b {
    sources = make_room node_dec (λ s. s.last_activity) b.max_sources incoming b.sources;
  }

  -- The state of a source, a new one if there is none: `entry(from).or_insert_with(..)`.
  unfoldable pub source_or_new : NodeId → ℕ → ReorderBuffer C → SourceState C
  source_or_new from now b = elim (Maps.get node_dec from b.sources) [
    | none ↦ new_source now
    | some s ↦ s
  ]

  -- `seq == 0`: delivered at once; of a known source a stale gap is flushed first.
  unfoldable pub accept_unsequenced : NodeId → C → ℕ → ReorderBuffer C → ReorderBuffer C × List C
  accept_unsequenced from content now b = elim (Maps.get node_dec from b.sources) [
    | none ↦ (b, content ∷ [])
    | some s ↦
        let (s', stale) = flush_stale b.gap_timeout now (record s { last_activity = now }) in
        (record b { sources = Maps.insert node_dec from s' b.sources }, stale ++ content ∷ [])
  ]

  unfoldable pub accept_sequenced : NodeId → ℕ → C → ℕ → ReorderBuffer C → ReorderBuffer C × List C
  accept_sequenced from seq content now b =
      let b' = evict_sources_if_needed from b in
      let (s, out) =
        accept_source b'.max_per_source b'.gap_timeout seq content now
          (source_or_new from now b') in
      (record b' { sources = Maps.insert node_dec from s b'.sources }, out)

  unfoldable pub accept_at : NodeId → ℕ → C → ℕ → ReorderBuffer C → ReorderBuffer C × List C
  accept_at from seq content now b =
      if seq == 0
      then accept_unsequenced from content now b
      else accept_sequenced from seq content now b

  -- The loop of `flush_expired` over the sources.
  unfoldable pub flush_sources :
      ℕ → ℕ → List (NodeId × SourceState C) → List (NodeId × SourceState C) × List (NodeId × List C)
  flush_sources gap_timeout now [] = ([], [])
  flush_sources gap_timeout now ((id, s) ∷ m) =
      let (rest, flushed) = flush_sources gap_timeout now m in
      let (s', out) = flush_stale gap_timeout now s in
      ((id, s') ∷ rest, elim out [ [] ↦ flushed | c ∷ cs ↦ (id, c ∷ cs) ∷ flushed ])

  unfoldable pub flush_expired : ℕ → ReorderBuffer C → ReorderBuffer C × List (NodeId × List C)
  flush_expired now b =
      let (sources, flushed) = flush_sources b.gap_timeout now b.sources in
      (record b { sources = sources }, flushed)
