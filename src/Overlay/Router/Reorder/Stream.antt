-- ===== src/Overlay/Router/Reorder/Stream.antt =====
-- reorder.rs: the life of one source, as a sequence of arrivals and of time-outs at any times.
use mathlib.Core.List.{map-append}
use mistlib.Base.{ℕ, ◌<◌, ◌≡◌, ◌≢◌, ◌⊎◌, inl, inr, List, [], ◌∷◌, ◌++◌, false, arith}
use mistlib.Base.Sequences.{Ascends-append}
use mistlib.Overlay.Router.Reorder.Defs.{SourceState, gap_expired, flush_stale, accept_source}
use mistlib.Overlay.Router.Reorder.Invariant.{IsValid, seq_limit}
use mistlib.Overlay.Router.Reorder.Order.{Outcome, flush_stale-Outcome, place-Outcome}

-- What happens to a source: a sequenced arrival, or a poll of the time-out.
pub data Event (C : Type 0) : Type 0 where
  arrival : ℕ → C → ℕ → Event C
  poll : ℕ → Event C

module _ {C : Type 0} (max_per_source gap_timeout : ℕ) where
  unfoldable pub step : Event C → SourceState C → SourceState C × List C
  unfolding accept_source flush_stale
  step (arrival seq content now) s = accept_source max_per_source gap_timeout seq content now s
  step (poll now) s = flush_stale gap_timeout now s

  unfoldable pub run : List (Event C) → SourceState C → SourceState C × List C
  unfolding step
  run [] s = (s, [])
  run (e ∷ es) s = let (s', out) = step e s in let (s'', rest) = run es s' in (s'', out ++ rest)

module _ {C : Type 0} (tag : C → ℕ) where
  -- What does not start the stream again: an arrival numbered as it was sent, below u64::MAX, whose
  -- number is not 1, or is 1 while the source expects 1 and has no gap that has timed out.
  abbrev pub GoesOn : ℕ → Event C → SourceState C → Type 0
  GoesOn gap_timeout (arrival seq content now) s =
      (tag content ≡ seq)
      × (seq < seq_limit)
      × ((seq ≢ 1) ⊎ ((s.next_expected ≡ 1) × (gap_expired gap_timeout now s ≡ false)))
  GoesOn gap_timeout (poll now) s = Unit

  -- Each event goes on from the state that the ones before it left.
  abbrev pub AllGoOn : ℕ → ℕ → List (Event C) → SourceState C → Type 0
  AllGoOn max_per_source gap_timeout [] s = Unit
  AllGoOn max_per_source gap_timeout (e ∷ es) s =
      GoesOn gap_timeout e s
      × AllGoOn max_per_source gap_timeout es (step max_per_source gap_timeout e s).0

  -- A first message finds 1 expected when it is placed.
  expects_first :
      (gap_timeout seq now : ℕ) (s : SourceState C)
      → (seq ≢ 1) ⊎ ((s.next_expected ≡ 1) × (gap_expired gap_timeout now s ≡ false))
      → seq ≡ 1
      → (flush_stale gap_timeout now (record s { last_activity = now })).0.next_expected ≡ 1
  unfolding flush_stale gap_expired
  expects_first gap_timeout seq now s (inl other) one = absurd (other one)
  expects_first gap_timeout seq now s (inr (first, fresh)) one = rw fresh first

  Outcome-append :
      (s : SourceState C) (r q : SourceState C × List C)
      → Outcome tag s r
      → Outcome tag r.0 q
      → Outcome tag s (q.0, r.1 ++ q.1)
  Outcome-append s r q a b = record {
    valid = b.valid;
    ascends = rw (map-append tag r.1 q.1) (Ascends-append _ _ _ _ _ a.ascends b.ascends);
  }

  accept_source-Outcome :
      (max_per_source gap_timeout seq : ℕ) (content : C) (now : ℕ) (s : SourceState C)
      → IsValid tag s
      → tag content ≡ seq
      → seq < seq_limit
      → (seq ≢ 1) ⊎ ((s.next_expected ≡ 1) × (gap_expired gap_timeout now s ≡ false))
      → Outcome tag s (accept_source max_per_source gap_timeout seq content now s)
  unfolding accept_source
  accept_source-Outcome max_per_source gap_timeout seq content now s v t h goes =
      let touched : SourceState C = record s { last_activity = now } in
      let valid : IsValid tag touched = record {
        positive = v.positive;
        bounded = v.bounded;
        above = v.above;
        below = v.below;
        tagged = v.tagged;
        dated = v.dated;
      } in
      let stale = flush_stale-Outcome tag gap_timeout now touched valid in
      let placed =
        place-Outcome tag max_per_source seq content now (flush_stale gap_timeout now touched).0
          stale.valid t h (expects_first gap_timeout seq now s goes) in
      let both = Outcome-append touched _ _ stale placed in
      record { valid = both.valid; ascends = both.ascends }

  step-Outcome :
      (max_per_source gap_timeout : ℕ) (e : Event C) (s : SourceState C)
      → GoesOn gap_timeout e s
      → IsValid tag s
      → Outcome tag s (step max_per_source gap_timeout e s)
  unfolding step
  step-Outcome max_per_source gap_timeout (arrival seq content now) s (t, h, goes) v =
      accept_source-Outcome max_per_source gap_timeout seq content now s v t h goes
  step-Outcome max_per_source gap_timeout (poll now) s g v =
      flush_stale-Outcome tag gap_timeout now s v

  -- Whatever arrives, in whatever order, twice or not at all, and whenever the time-outs strike: the
  -- numbers of all that a source delivers ascend strictly, from the number that was expected at first up
  -- to below the one that is expected at last; and the state stays valid. The conditions are that the
  -- state is valid at first, that all numbers are below u64::MAX, and that no arrival starts the stream
  -- again: a message with the number 1 comes only while the source expects 1 and no gap has timed out.
  pub run-Outcome :
      (max_per_source gap_timeout : ℕ) (es : List (Event C)) (s : SourceState C)
      → AllGoOn max_per_source gap_timeout es s
      → IsValid tag s
      → Outcome tag s (run max_per_source gap_timeout es s)
  unfolding run
  run-Outcome max_per_source gap_timeout [] s g v = record { valid = v; ascends = omega arith }
  run-Outcome max_per_source gap_timeout (e ∷ es) s g v =
      let first = step-Outcome max_per_source gap_timeout e s g.0 v in
      Outcome-append s _ _ first (
        run-Outcome max_per_source gap_timeout es (step max_per_source gap_timeout e s).0 g.1
          first.valid)
