-- ===== src/Overlay/Router/Reorder/Lossless.antt =====
-- reorder.rs: no message is lost but one that comes too late, and none is skipped but by a flush.
use mathlib.Core.List.{Perm, perm_middle, append_assoc, append-nil}
use mathlib.Core.List.Perm
use mistlib.Base.{
  ℕ, ◌≤◌, ◌<◌, ◌≡◌, refl, ◌∙◌, List, [], ◌∷◌, ◌++◌, map, none, Bool, true, false, length, arith,
  ltb, ◌==◌, ◌&&◌, not, Bool-cases, inl, inr, if◌then◌else◌,
}
use mistlib.Base.Btree
use mistlib.Base.Btree.{values}
use mistlib.Base.Sequences.{Consecutive}
use mistlib.Overlay.Router.Reorder.Defs.{
  SourceState, flush, flush_stale, gap_expired, deliver_next, hold, restart, place, accept_source,
}
use mistlib.Overlay.Router.Reorder.Invariant.{IsValid, seq_limit}
use mistlib.Overlay.Router.Reorder.Order.{place_cases, deliver_next-Drained, flush_stale-Outcome}

module _ {C : Type 0} where
  insert-perm :
      (k : ℕ) (c : C) (m : List (ℕ × C))
      → Btree.get k m ≡ none
      → Perm (values (Btree.insert k c m)) (c ∷ values m)
  insert-perm k c [] h = Perm.refl _
  insert-perm k c ((j, w) ∷ m) h = elim (Bool-cases (ltb k j)) [
    | inl before ↦ rw before (Perm.refl _)
    | inr rest ↦ elim (Bool-cases (k == j)) [
      | inl same ↦ absurd (ground arith)
      | inr after ↦
          rw (rest, after)
            (Perm.trans (Perm.cons w (insert-perm k c m (ground arith))) (Perm.swap c w (values m)))
    ]
  ]

  flush-whole : (s : SourceState C) → (flush s).1 ++ values (flush s).0.buffered ≡ values s.buffered
  unfolding flush
  flush-whole s = append-nil _

  restart-perm :
      (content : C) (s : SourceState C)
      → let r = restart content s in Perm (r.1 ++ values r.0.buffered) (content ∷ values s.buffered)
  unfolding restart flush
  restart-perm content s =
      rw append-nil (Perm.trans (perm_middle (values s.buffered) []) (rw append-nil (Perm.refl _)))

  hold-perm :
      (max_per_source seq : ℕ) (content : C) (now : ℕ) (s : SourceState C)
      → Btree.get seq s.buffered ≡ none
      → let r = hold max_per_source seq content now s in
        Perm (r.1 ++ values r.0.buffered) (content ∷ values s.buffered)
  unfolding hold
  hold-perm max_per_source seq content now s new =
      let filed = insert-perm seq content s.buffered new in
      elim (Bool-cases (ltb max_per_source (length (Btree.insert seq content s.buffered)))) [
        | inl full ↦ rw full (unfold flush in rw append-nil filed)
        | inr room ↦ rw room filed
      ]

  deliver_next-perm :
      (tag : C → ℕ) (content : C) {seq : ℕ} (now : ℕ) (s : SourceState C)
      → IsValid tag s
      → seq ≡ s.next_expected
      → seq < seq_limit
      → let r = deliver_next content now s in
        Perm (r.1 ++ values r.0.buffered) (content ∷ values s.buffered)
  deliver_next-perm tag content now s v e h =
      let (d, out, since, drained) = deliver_next-Drained tag content now s (omega arith) v in
      rw (out, drained.whole) (Perm.refl _)

  -- A message is late if its number has passed and it does not begin a new stream.
  pub is_late : ℕ → SourceState C → Bool
  is_late seq s = ltb seq s.next_expected && not (seq == 1)

  place-perm :
      (tag : C → ℕ) (max_per_source seq : ℕ) (content : C) (now : ℕ) (s : SourceState C)
      → IsValid tag s
      → 1 ≤ seq
      → seq < seq_limit
      → Btree.get seq s.buffered ≡ none
      → let r = place max_per_source seq content now s in
        Perm
          (r.1 ++ values r.0.buffered)
          ((if is_late seq s then [] else content ∷ []) ++ values s.buffered)
  unfolding is_late
  place-perm tag max_per_source seq content now s v one h new =
      place_cases
        (λ r.
          Perm (r.1 ++ values r.0.buffered)
            ((if is_late seq s then [] else content ∷ []) ++ values s.buffered))
        max_per_source seq content now s
        (λ e more.
          let not_late : is_late seq s ≡ false = ground arith in
          rw not_late (restart-perm content s))
        (λ l other. let late : is_late seq s ≡ true = ground arith in rw late (Perm.refl _))
        (λ e.
          let not_late : is_late seq s ≡ false = ground arith in
          rw not_late (deliver_next-perm tag content now s v e h))
        (λ l.
          let not_late : is_late seq s ≡ false = ground arith in
          rw not_late (hold-perm max_per_source seq content now s new))

  pub flush_stale-whole :
      (gap_timeout now : ℕ) (s : SourceState C)
      → let r = flush_stale gap_timeout now s in r.1 ++ values r.0.buffered ≡ values s.buffered
  unfolding flush_stale
  flush_stale-whole gap_timeout now s = elim (Bool-cases (gap_expired gap_timeout now s)) [
    | inl old ↦ rw old (flush-whole s)
    | inr fresh ↦ rw fresh
  ]

  flush_stale-get :
      (gap_timeout now seq : ℕ) (s : SourceState C)
      → Btree.get seq s.buffered ≡ none
      → Btree.get seq (flush_stale gap_timeout now s).0.buffered ≡ none
  unfolding flush_stale flush
  flush_stale-get gap_timeout now seq s h = elim (Bool-cases (gap_expired gap_timeout now s)) [
    | inl old ↦ rw old
    | inr fresh ↦ rw fresh h
  ]

  pub touched : ℕ → SourceState C → SourceState C
  touched now s = record s { last_activity = now }

  touched-IsValid :
      (tag : C → ℕ) (now : ℕ) (s : SourceState C) → IsValid tag s → IsValid tag (touched now s)
  unfolding touched
  touched-IsValid tag now s v = record {
    positive = v.positive;
    bounded = v.bounded;
    above = v.above;
    below = v.below;
    tagged = v.tagged;
    dated = v.dated;
  }

  front-perm :
      (late : Bool) (c : C) (xs ys : List C)
      → Perm
          (xs ++ ((if late then [] else c ∷ []) ++ ys))
          ((if late then [] else c ∷ []) ++ (xs ++ ys))
  front-perm true c xs ys = Perm.refl _
  front-perm false c xs ys = perm_middle xs ys

  -- What a source receives is delivered now or kept for later, once, and so is all that it kept
  -- before; only a late message is dropped. The condition is that no message of the same number is
  -- waiting.
  pub accept_source-perm :
      (tag : C → ℕ) (max_per_source gap_timeout seq : ℕ) (content : C) (now : ℕ) (s : SourceState C)
      → IsValid tag s
      → 1 ≤ seq
      → seq < seq_limit
      → Btree.get seq s.buffered ≡ none
      → let r = accept_source max_per_source gap_timeout seq content now s in
        let late = is_late seq (flush_stale gap_timeout now (touched now s)).0 in
        Perm (r.1 ++ values r.0.buffered) ((if late then [] else content ∷ []) ++ values s.buffered)
  unfolding accept_source touched
  accept_source-perm tag max_per_source gap_timeout seq content now s v one h new =
      let t = touched now s in
      let stale = flush_stale-Outcome tag gap_timeout now t (touched-IsValid tag now s v) in
      let s' = (flush_stale gap_timeout now t).0 in
      let first = (flush_stale gap_timeout now t).1 in
      let placed =
        place-perm tag max_per_source seq content now s' stale.valid one h
          (flush_stale-get gap_timeout now seq t new) in
      rw append_assoc (
        Perm.trans (Perm.append_left first placed) (
          Perm.trans (front-perm (is_late seq s') content first (values s'.buffered))
            (rw (flush_stale-whole gap_timeout now t) (Perm.refl _))))

  place-Consecutive :
      (tag : C → ℕ) (max_per_source seq : ℕ) (content : C) (now : ℕ) (s : SourceState C)
      → IsValid tag s
      → tag content ≡ seq
      → seq < seq_limit
      → (seq ≡ 1 → s.next_expected ≡ 1)
      → length s.buffered < max_per_source
      → let r = place max_per_source seq content now s in
        Consecutive s.next_expected (map tag r.1) r.0.next_expected
  place-Consecutive tag max_per_source seq content now s v t h fresh room =
      place_cases (λ r. Consecutive s.next_expected (map tag r.1) r.0.next_expected) max_per_source
        seq content now s (λ e more. absurd (omega (arith, fresh e))) (λ late other. refl)
        (λ e.
          let (d, out, since, drained) = deliver_next-Drained tag content now s (omega arith) v in
          rw out (t ∙ e, drained.run))
        (λ early.
          unfold hold in
          let fits : ltb max_per_source (length (Btree.insert seq content s.buffered)) ≡ false =
            ground (arith, Btree.length-insert seq content s.buffered) in
          rw fits)

  flush_stale_fresh :
      (gap_timeout now : ℕ) (s : SourceState C)
      → gap_expired gap_timeout now s ≡ false
      → flush_stale gap_timeout now (touched now s) ≡ (touched now s, [])
  unfolding flush_stale gap_expired touched
  flush_stale_fresh gap_timeout now s h = rw h

  -- While the gap is fresh and the buffer has room, a message that does not start the stream again skips
  -- no number: what its source delivers is numbered from the number that was expected, with no hole, up
  -- to the one expected afterwards. So it is in any valid state, for a message below u64::MAX whose
  -- number is not 1, or is 1 while 1 is expected.
  pub accept_source-Consecutive :
      (tag : C → ℕ) (max_per_source gap_timeout seq : ℕ) (content : C) (now : ℕ) (s : SourceState C)
      → IsValid tag s
      → tag content ≡ seq
      → seq < seq_limit
      → (seq ≡ 1 → s.next_expected ≡ 1)
      → length s.buffered < max_per_source
      → gap_expired gap_timeout now s ≡ false
      → let r = accept_source max_per_source gap_timeout seq content now s in
        Consecutive s.next_expected (map tag r.1) r.0.next_expected
  unfolding accept_source touched
  accept_source-Consecutive tag max_per_source gap_timeout seq content now s v t h fresh room
        open_gap =
      rw (flush_stale_fresh gap_timeout now s open_gap) (
        place-Consecutive tag max_per_source seq content now (touched now s)
          (touched-IsValid tag now s v) t h fresh room)
