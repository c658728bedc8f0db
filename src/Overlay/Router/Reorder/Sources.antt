-- ===== src/Overlay/Router/Reorder/Sources.antt =====
-- reorder.rs: the buffer as a whole. Sources do not disturb one another, their number is bounded, and
-- no gap outlives its time-out.
use mistlib.Base.{
  ℕ, ◌≤◌, ◌<◌, ◌≡◌, ◌≢◌, ◌⊎◌, refl, sym, ap, List, [], ◌∷◌, ◌++◌, Option, none, some, false, All,
  length, arith, ◌==◌, Bool-cases, Option-cases, inl, inr, if_pos, if_neg,
}
use mistlib.Base.Btree.{values}
use mistlib.Base.Maps
use mistlib.Base.Eviction.{length-insert-make_room, get-make_room_self, make_room-only}
use mistlib.Types.{NodeId, node_dec}
use mistlib.Overlay.Router.Reorder.Defs.{
  SourceState, ReorderBuffer, new_source, flush, flush_stale, gap_expired, place, restart,
  accept_source, evict_sources_if_needed, source_or_new, accept_unsequenced, accept_sequenced,
  accept_at, flush_sources, flush_expired,
}
use mistlib.Overlay.Router.Reorder.Invariant.{IsValid}
use mistlib.Overlay.Router.Reorder.Order.{flush_stale-Outcome}
use mistlib.Overlay.Router.Reorder.Lossless.{flush_stale-whole}
use mistlib.Base.Sequences.{Ascends-le}
use mathlib.Core.List.{append_assoc}

module _ {C : Type 0} where
  flush_stale-fresh :
      (gap_timeout now : ℕ) (s : SourceState C)
      → gap_expired gap_timeout now (flush_stale gap_timeout now s).0 ≡ false
  unfolding flush_stale
  flush_stale-fresh gap_timeout now s = elim (Bool-cases (gap_expired gap_timeout now s)) [
    | inl old ↦ rw old (unfold flush gap_expired in refl)
    | inr fresh ↦ rw fresh fresh
  ]

  flush_sources-fresh :
      (gap_timeout now : ℕ) (m : List (NodeId × SourceState C))
      → All (λ e. gap_expired gap_timeout now e.1 ≡ false) (flush_sources gap_timeout now m).0
  unfolding flush_sources
  flush_sources-fresh gap_timeout now [] = tt
  flush_sources-fresh gap_timeout now ((id, s) ∷ m) =
      (flush_stale-fresh gap_timeout now s, flush_sources-fresh gap_timeout now m)

  -- After `flush_expired` no source has a gap that has reached the time-out.
  pub flush_expired-fresh :
      (now : ℕ) (b : ReorderBuffer C)
      → All (λ e. gap_expired b.gap_timeout now e.1 ≡ false) (flush_expired now b).0.sources
  unfolding flush_expired
  flush_expired-fresh now b = flush_sources-fresh b.gap_timeout now b.sources

  unsequenced-bounded :
      (from : NodeId) (content : C) (now : ℕ) (b : ReorderBuffer C)
      → length b.sources ≤ b.max_sources
      → let r = accept_unsequenced from content now b in
        (length r.0.sources ≤ r.0.max_sources) × (r.0.max_sources ≡ b.max_sources)
  unfolding accept_unsequenced
  unsequenced-bounded from content now b h =
      elim (Option-cases (Maps.get node_dec from b.sources)) [
        | inl e ↦ rw (e, accept_unsequenced) (h, refl)
        | inr (s, e) ↦
            rw (e, accept_unsequenced)
              (
                ground (
                  arith,
                  e,
                  Maps.length-insert node_dec from
                      (flush_stale b.gap_timeout now (record s { last_activity = now })).0
                      b.sources,
                ),
                refl,
              )
      ]

  sequenced-bounded :
      (from : NodeId) (seq : ℕ) (content : C) (now : ℕ) (b : ReorderBuffer C)
      → 1 ≤ b.max_sources
      → length b.sources ≤ b.max_sources
      → let r = accept_sequenced from seq content now b in
        (length r.0.sources ≤ r.0.max_sources) × (r.0.max_sources ≡ b.max_sources)
  unfolding accept_sequenced evict_sources_if_needed
  sequenced-bounded from seq content now b pos h = (
    length-insert-make_room node_dec (λ s. s.last_activity) b.max_sources from _ b.sources pos h,
    refl,
  )

  -- However many sources there are in the world, no more than `max_sources` are tracked.
  pub accept_at-bounded :
      (from : NodeId) (seq : ℕ) (content : C) (now : ℕ) (b : ReorderBuffer C)
      → 1 ≤ b.max_sources
      → length b.sources ≤ b.max_sources
      → let r = accept_at from seq content now b in
        (length r.0.sources ≤ r.0.max_sources) × (r.0.max_sources ≡ b.max_sources)
  unfolding accept_at
  accept_at-bounded from seq content now b pos h = elim (Bool-cases (seq == 0)) [
    | inl zero_seq ↦ rw zero_seq (unsequenced-bounded from content now b h)
    | inr numbered ↦ rw numbered (sequenced-bounded from seq content now b pos h)
  ]

  unsequenced-others :
      (from j : NodeId) (content : C) (now : ℕ) (b : ReorderBuffer C)
      → j ≢ from
      → Maps.get node_dec j (accept_unsequenced from content now b).0.sources
        ≡ Maps.get node_dec j b.sources
  unfolding accept_unsequenced
  unsequenced-others from j content now b ne =
      elim (Option-cases (Maps.get node_dec from b.sources)) [
        | inl e ↦ rw (e, accept_unsequenced)
        | inr (s, e) ↦
            rw (e, accept_unsequenced)
              (rw Maps.get-insert (if_neg (node_dec from j) (λ p. ne (sym p)) _ _))
      ]

  -- A source is removed that was the least recently active of all, where there are as many as the limit
  -- allows and the one that the message comes from is not among them.
  abbrev pub IsEvicted : NodeId → NodeId → ReorderBuffer C → ReorderBuffer C → Type 0
  IsEvicted from j b left =
      (Maps.get node_dec j left.sources ≡ none)
      × (b.max_sources ≤ length b.sources)
      × (Maps.contains_key node_dec from b.sources ≡ false)
      × (s : SourceState C) × (Maps.min_by_key (λ t. t.last_activity) b.sources ≡ some (j, s))
      × All (λ e. s.last_activity ≤ e.1.last_activity) b.sources

  sequenced-others :
      (from j : NodeId) (seq : ℕ) (content : C) (now : ℕ) (b : ReorderBuffer C)
      → j ≢ from
      → let left = (accept_sequenced from seq content now b).0 in
        (Maps.get node_dec j left.sources ≡ Maps.get node_dec j b.sources) ⊎ IsEvicted from j b left
  unfolding accept_sequenced evict_sources_if_needed
  sequenced-others from j seq content now b ne =
      elim (make_room-only node_dec (λ s. s.last_activity) b.max_sources from j b.sources) [
        | inl same ↦ inl (rw (Maps.get-insert, if_neg (node_dec from j) (λ p. ne (sym p)) _ _) same)
        | inr (gone, full, new, s, least) ↦ inr (
          rw (Maps.get-insert, if_neg (node_dec from j) (λ p. ne (sym p)) _ _) gone,
          full,
          new,
          s,
          least,
          Maps.min_by_key-least (λ t. t.last_activity) b.sources (j, s) least,
        )
      ]

  -- A message of one source leaves the state of every other as it is, but for one that is removed to
  -- make room: only the one that was the least recently active, the first of them in the order of the
  -- iteration, and only where there are as many sources as the limit allows and the source of the
  -- message is a new one.
  pub accept_at-isolated :
      (from j : NodeId) (seq : ℕ) (content : C) (now : ℕ) (b : ReorderBuffer C)
      → j ≢ from
      → let left = (accept_at from seq content now b).0 in
        (Maps.get node_dec j left.sources ≡ Maps.get node_dec j b.sources) ⊎ IsEvicted from j b left
  unfolding accept_at
  accept_at-isolated from j seq content now b ne = elim (Bool-cases (seq == 0)) [
    | inl zero_seq ↦ rw zero_seq (inl (unsequenced-others from j content now b ne))
    | inr numbered ↦ rw numbered (sequenced-others from j seq content now b ne)
  ]

  evict_fields :
      (from : NodeId) (b : ReorderBuffer C)
      → ((evict_sources_if_needed from b).max_per_source ≡ b.max_per_source)
        × ((evict_sources_if_needed from b).gap_timeout ≡ b.gap_timeout)
  unfolding evict_sources_if_needed
  evict_fields from b = (refl, refl)

  evict-own :
      (from : NodeId) (now : ℕ) (b : ReorderBuffer C)
      → source_or_new from now (evict_sources_if_needed from b) ≡ source_or_new from now b
  unfolding source_or_new evict_sources_if_needed
  evict-own from now b = rw (
    get-make_room_self node_dec (λ (s : SourceState C). s.last_activity) b.max_sources from
        b.sources,
    source_or_new,
  )

  sequenced-own :
      (from : NodeId) (seq : ℕ) (content : C) (now : ℕ) (b : ReorderBuffer C)
      → let r = accept_sequenced from seq content now b in
        let own =
          accept_source b.max_per_source b.gap_timeout seq content now (source_or_new from now b) in
        (Maps.get node_dec from r.0.sources ≡ some own.0) × (r.1 ≡ own.1)
  unfolding accept_sequenced
  sequenced-own from seq content now b =
      rw (evict-own from now b, (evict_fields from b).0, (evict_fields from b).1)
        (rw Maps.get-insert (if_pos (node_dec from from) refl _ _), refl)

  -- The state that a message meets: the one that is stored, or if there is none one that expects 1.
  abbrev pub state_before : Option (SourceState C) → ℕ → SourceState C
  state_before (some s) now = s
  state_before none now = record {
    next_expected = 1;
    buffered = [];
    gap_since = none;
    last_activity = now;
  }

  source_or_new-before :
      (from : NodeId) (now : ℕ) (b : ReorderBuffer C)
      → source_or_new from now b ≡ state_before (Maps.get node_dec from b.sources) now
  unfolding source_or_new new_source
  source_or_new-before from now b = elim (Option-cases (Maps.get node_dec from b.sources)) [
    | inl e ↦ rw (e, source_or_new) refl
    | inr (s, e) ↦ rw (e, source_or_new) refl
  ]

  -- A numbered message meets the state that is stored for its source or, if none is, one that expects 1
  -- with nothing buffered; also if other sources are evicted first. The state and the deliveries that
  -- `accept_source` makes of that are what is stored for the source and what is delivered.
  pub accept_at-own :
      (from : NodeId) (seq : ℕ) (content : C) (now : ℕ) (b : ReorderBuffer C)
      → 1 ≤ seq
      → let r = accept_at from seq content now b in
        let own =
          accept_source b.max_per_source b.gap_timeout seq content now
            (state_before (Maps.get node_dec from b.sources) now) in
        (Maps.get node_dec from r.0.sources ≡ some own.0) × (r.1 ≡ own.1)
  unfolding accept_at
  accept_at-own from seq content now b h =
      let numbered : (seq == 0) ≡ false = ground arith in
      rw (numbered, ← source_or_new-before from now b) (sequenced-own from seq content now b)

  place-restart :
      (max_per_source : ℕ) (content : C) (now : ℕ) (s : SourceState C)
      → 1 < s.next_expected
      → place max_per_source 1 content now s ≡ restart content s
  unfolding place
  place-restart max_per_source content now s h = ground arith

  flush_stale-rest :
      (tag : C → ℕ) (gap_timeout now : ℕ) (s : SourceState C)
      → IsValid tag s
      → 1 < s.next_expected
      → let r = flush_stale gap_timeout now (record s { last_activity = now }) in
        (r.1 ++ values r.0.buffered ≡ values s.buffered) × (1 < r.0.next_expected)
  flush_stale-rest tag gap_timeout now s v h =
      let t : SourceState C = record s { last_activity = now } in
      let valid : IsValid tag t = ground (arith, v) in
      let o = flush_stale-Outcome tag gap_timeout now t valid in
      (flush_stale-whole gap_timeout now t, omega (arith, Ascends-le _ _ _ o.ascends))

  restart_rest :
      (content : C) (s : SourceState C) (first : List C) {all : List C}
      → first ++ values s.buffered ≡ all
      → let r = restart content s in
        (first ++ r.1 ≡ all ++ content ∷ [])
        × (r.0.next_expected ≡ 2)
        × (r.0.buffered ≡ [])
        × (r.0.gap_since ≡ none)
  unfolding restart flush
  restart_rest content s first e =
      (rw (← append_assoc) (ap (λ l. l ++ content ∷ []) e), refl, refl, refl)

  -- A first message of a new stream, where an old one has gone on: all that waits is delivered, then
  -- the message, and the new stream is expected to go on at 2. It makes no difference whether the gap
  -- has reached its time-out.
  pub accept_source-restart :
      (tag : C → ℕ) (max_per_source gap_timeout : ℕ) (content : C) (now : ℕ) (s : SourceState C)
      → IsValid tag s
      → 1 < s.next_expected
      → let r = accept_source max_per_source gap_timeout 1 content now s in
        (r.1 ≡ values s.buffered ++ content ∷ [])
        × (r.0.next_expected ≡ 2)
        × (r.0.buffered ≡ [])
        × (r.0.gap_since ≡ none)
  unfolding accept_source
  accept_source-restart tag max_per_source gap_timeout content now s v h =
      let t : SourceState C = record s { last_activity = now } in
      let (rest, later) = flush_stale-rest tag gap_timeout now s v h in
      rw (place-restart max_per_source content now (flush_stale gap_timeout now t).0 later) (
        restart_rest content (flush_stale gap_timeout now t).0 (flush_stale gap_timeout now t).1
          rest)
