-- ===== src/Overlay/Router/Reorder/Invariant.antt =====
-- The invariant of a source's state in reorder.rs, and what the loop of the contiguous delivery does.
use mistlib.Base.{
  ℕ, zero, suc, ◌+◌, ◌≤◌, ◌<◌, ◌≡◌, refl, List, [], ◌∷◌, ◌++◌, map, not, length, arith, is_some,
  ℕ_discrete,
}
use mistlib.Base.Words.{add64}
use mistlib.Base.Btree
use mistlib.Base.Btree.{Above, Below, values}
use mistlib.Base.Sequences.{Consecutive, Tagged}
use mistlib.Overlay.Router.Reorder.Defs.{SourceState, drain, is_empty}

-- The greatest `u64`, which no sequence number may be.
abbrev pub seq_limit : ℕ
seq_limit = 18446744073709551615

module _ {C : Type 0} (tag : C → ℕ) where
  -- What is buffered lies behind a gap, in order and each under its own number; a gap is dated
  -- exactly while something waits behind it.
  pub record IsValid (s : SourceState C) : Type 0 where
    pub positive : 1 ≤ s.next_expected
    pub bounded : s.next_expected ≤ seq_limit
    pub above : Above s.next_expected s.buffered
    pub below : Below seq_limit s.buffered
    pub tagged : Tagged tag s.buffered
    pub dated : is_some s.gap_since ≡ not (is_empty s.buffered)

  -- What a drained run leaves.
  pub record Drained (next : ℕ) (m : List (ℕ × C)) (r : List C × ℕ × List (ℕ × C)) : Type 0 where
    pub run : Consecutive next (map tag r.0) r.1
    pub bounded : r.1 ≤ seq_limit
    pub above : Above r.1 r.2
    pub below : Below seq_limit r.2
    pub tagged : Tagged tag r.2
    pub whole : r.0 ++ values r.2 ≡ values m

  drain_hit :
      (fuel next k : ℕ) (c : C) (m : List (ℕ × C))
      → next ≡ k
      → k < seq_limit
      → drain (suc fuel) next ((k, c) ∷ m) ≡ (let r = drain fuel (k + 1) m in (c ∷ r.0, r.1, r.2))
  unfolding drain
  drain_hit fuel next k c m e h =
      let step : add64 k 1 ≡ k + 1 = omega arith in rw e (ground (arith, step))

  drain_miss :
      (fuel next k : ℕ) (c : C) (m : List (ℕ × C))
      → next < k
      → Above k m
      → drain (suc fuel) next ((k, c) ∷ m) ≡ ([], next, (k, c) ∷ m)
  unfolding drain
  drain_miss fuel next k c m h a = ground (arith, Btree.get-Above next k m a)

  -- The loop takes the run that begins at `next`, all of it, and no other entry.
  pub drain-Drained :
      (fuel lo next : ℕ) (m : List (ℕ × C))
      → next ≡ lo + 1
      → length m ≤ fuel
      → next ≤ seq_limit
      → Above lo m
      → Below seq_limit m
      → Tagged tag m
      → Drained next m (drain fuel next m)
  drain-Drained zero lo next [] e h l a b t = unfold drain in ground arith
  drain-Drained zero lo next (x ∷ m) e h l a b t = absurd (omega arith)
  drain-Drained (suc fuel) lo next [] e h l a b t = unfold drain in ground arith
  drain-Drained (suc fuel) lo next ((k, c) ∷ m) e h l a b t = elim (ℕ_discrete next k) [
    | yes p ↦
        let ih = drain-Drained fuel k (k + 1) m refl (omega arith) (omega arith) a.1 b.1 t.1 in
        rw (drain_hit fuel next k c m p b.0) (ground (arith, ih.run, ih.whole))
    | no p ↦ rw (drain_miss fuel next k c m (omega arith) a.1) (ground arith)
  ]
