-- ===== src/Tests/Reorder.antt =====
-- Runs of the reorder buffer of mistlib-core/src/overlay/router/reorder.rs.
use mathlib.Core.List.{Perm}
use mistlib.Base.{
  ℕ, ◌≡◌, ◌≤◌, ◌⊎◌, inl, refl, List, [], ◌∷◌, ◌++◌, some, false, All, length, map, arith,
  String_differ, String_discrete, if◌then◌else◌,
}
use mistlib.Base.Btree.{values}
use mistlib.Base.Maps
use mistlib.Base.Sequences.{Consecutive}
use mistlib.Types.{node_dec}
use mistlib.Overlay.Router.Reorder.Defs.{
  SourceState, ReorderBuffer, accept_source, accept_at, flush_expired, gap_expired, flush_stale,
  flush, place, drain, deliver_next, hold,
}
use mistlib.Overlay.Router.Reorder.Invariant.{IsValid, seq_limit}
use mistlib.Overlay.Router.Reorder.Order.{Outcome}
use mistlib.Overlay.Router.Reorder.Stream.{Event, arrival, poll, step, run, run-Outcome}
use mistlib.Overlay.Router.Reorder.Lossless.{
  accept_source-perm, accept_source-Consecutive, is_late, touched,
}
use mistlib.Overlay.Router.Reorder.Sources.{
  flush_expired-fresh, accept_at-bounded, accept_at-isolated, accept_at-own, state_before,
  IsEvicted,
}
use mistlib.Overlay.Router.Reorder.Wrap.{flush-wraps}

-- A message is its number.
abbrev number : ℕ → ℕ
number n = n

-- 5 is expected, 7 waits since 0.
abbrev waiting : SourceState ℕ
waiting = record {
  next_expected = 5;
  buffered = (7, 7) ∷ [];
  gap_since = some 0;
  last_activity = 0;
}

abbrev waiting-IsValid : IsValid number waiting
waiting-IsValid = record {
  positive = omega arith;
  bounded = omega arith;
  above = (omega arith, tt);
  below = (omega arith, tt);
  tagged = (refl, tt);
  dated = refl;
}

abbrev events : List (Event ℕ)
events = arrival 6 6 10 ∷ poll 20 ∷ arrival 5 5 30 ∷ []

run-Outcome_example : Outcome number waiting (run 256 8000 events waiting)
run-Outcome_example =
    run-Outcome number 256 8000 events waiting
      ((refl, omega arith, inl (omega arith)), (tt, ((refl, omega arith, inl (omega arith)), tt)))
      waiting-IsValid

accept_source-perm_example :
    Perm
      ((accept_source 256 8000 6 6 10 waiting).1
        ++ values (accept_source 256 8000 6 6 10 waiting).0.buffered)
      ((if is_late 6 (flush_stale 8000 10 (touched 10 waiting)).0 then [] else 6 ∷ [])
        ++ values waiting.buffered)
accept_source-perm_example =
    accept_source-perm number 256 8000 6 6 10 waiting waiting-IsValid (omega arith) (omega arith)
      refl

accept_source-Consecutive_example :
    Consecutive 5
      (map number (accept_source 256 8000 5 5 10 waiting).1)
      (accept_source 256 8000 5 5 10 waiting).0.next_expected
unfolding gap_expired
accept_source-Consecutive_example =
    accept_source-Consecutive number 256 8000 5 5 10 waiting waiting-IsValid refl (omega arith)
      (λ e. absurd (omega arith)) (omega arith) refl

abbrev buffer : ReorderBuffer ℕ
buffer = record {
  sources = ("a", waiting) ∷ [];
  max_per_source = 256;
  max_sources = 1024;
  gap_timeout = 8000;
}

flush_expired-fresh_example :
    All (λ e. gap_expired 8000 9000 e.1 ≡ false) (flush_expired 9000 buffer).0.sources
flush_expired-fresh_example = flush_expired-fresh 9000 buffer

accept_at-bounded_example :
    (length (accept_at "b" 4 4 10 buffer).0.sources ≤ (accept_at "b" 4 4 10 buffer).0.max_sources)
    × ((accept_at "b" 4 4 10 buffer).0.max_sources ≡ 1024)
accept_at-bounded_example = accept_at-bounded "b" 4 4 10 buffer (omega arith) (omega arith)

accept_at-isolated_example :
    (Maps.get node_dec "a" (accept_at "b" 4 4 10 buffer).0.sources
      ≡ Maps.get node_dec "a" buffer.sources)
    ⊎ IsEvicted "b" "a" buffer (accept_at "b" 4 4 10 buffer).0
unfolding String_discrete
accept_at-isolated_example = accept_at-isolated "b" "a" 4 4 10 buffer (String_differ "a" "b" refl)

accept_at-own_example :
    (Maps.get node_dec "b" (accept_at "b" 4 4 10 buffer).0.sources
      ≡ some
          (accept_source 256 8000 4 4 10
            (state_before (Maps.get node_dec "b" buffer.sources) 10)).0)
    × ((accept_at "b" 4 4 10 buffer).1
        ≡ (accept_source 256 8000 4 4 10
            (state_before (Maps.get node_dec "b" buffer.sources) 10)).1)
accept_at-own_example = accept_at-own "b" 4 4 10 buffer (omega arith)

-- The greatest number of a frame waits.
abbrev last_number : SourceState ℕ
last_number = record {
  next_expected = 5;
  buffered = (seq_limit, 0) ∷ [];
  gap_since = some 0;
  last_activity = 0;
}

flush-wraps_example :
    ((flush last_number).0.next_expected ≡ 0) × ((place 256 6 6 9000 (flush last_number).0).1 ≡ [])
flush-wraps_example = flush-wraps last_number 256 6 6 9000 refl (omega arith) (omega arith)

-- 6 fills the hole but for 5, which releases all three.
run_events : (run 256 8000 events waiting).1 ≡ 5 ∷ 6 ∷ 7 ∷ []
unfolding run step accept_source flush_stale gap_expired place deliver_next drain hold
run_events = refl
