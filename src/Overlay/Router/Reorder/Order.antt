-- ===== src/Overlay/Router/Reorder/Order.antt =====
-- reorder.rs: what a source delivers is in the order of its sequence numbers. `tag` reads the number
-- that a message was sent under.
use mistlib.Base.{
  ℕ, ◌+◌, ◌≤◌, ◌<◌, ◌≡◌, ◌≢◌, refl, ◌∙◌, List, [], ◌∷◌, map, Option, none, some, Bool, true, false,
  not, length, arith, is_some, ltb, ◌==◌, ◌&&◌, Bool-cases, inl, inr, if◌then◌else◌,
}
use mistlib.Base.Words.{add64}
use mistlib.Base.Btree
use mistlib.Base.Btree.{Above, Below, values, last_key_from, last_key_from-le, last_key_from-lt}
use mistlib.Base.Sequences.{Ascends, Tagged, Ascends-le, Consecutive-Ascends, values-Ascends}
use mistlib.Overlay.Router.Reorder.Defs.{
  SourceState, flush, gap_expired, flush_stale, deliver_next, hold, restart, place, is_empty,
}
use mistlib.Overlay.Router.Reorder.Invariant.{IsValid, Drained, drain-Drained, seq_limit}

dated_when : (empty : Bool) (now : ℕ) → is_some (if empty then none else some now) ≡ not empty
dated_when true now = refl
dated_when false now = refl

insert_nonempty :
    {C : Type 0} (k : ℕ) (c : C) (m : List (ℕ × C)) → is_empty (Btree.insert k c m) ≡ false
insert_nonempty k c [] = refl
insert_nonempty k c ((j, w) ∷ m) = ground arith

module _ {C : Type 0} where
  -- The branches behind the lazy flush.
  pub place_cases {ℓ} :
      (P : SourceState C × List C → Type ℓ) (max_per_source seq : ℕ) (content : C) (now : ℕ)
      (s : SourceState C)
      → (seq ≡ 1 → 1 < s.next_expected → P (restart content s))
      → (seq < s.next_expected → seq ≢ 1 → P (s, []))
      → (seq ≡ s.next_expected → P (deliver_next content now s))
      → (s.next_expected < seq → P (hold max_per_source seq content now s))
      → P (place max_per_source seq content now s)
  unfolding place
  place_cases P max_per_source seq content now s again late due early =
      elim (Bool-cases (seq == 1 && ltb 1 s.next_expected)) [
        | inl e ↦ rw e (again (ground arith) (ground arith))
        | inr more ↦ rw more (elim (Bool-cases (ltb seq s.next_expected)) [
          | inl e ↦ rw e (late (ground arith) (ground arith))
          | inr new ↦ rw new (elim (Bool-cases (seq == s.next_expected)) [
            | inl e ↦ rw e (due (ground arith))
            | inr e ↦ rw e (early (ground arith))
          ])
        ])
      ]

module _ {C : Type 0} (tag : C → ℕ) where
  insert-Tagged :
      (k : ℕ) (c : C) (m : List (ℕ × C))
      → tag c ≡ k
      → Tagged tag m
      → Tagged tag (Btree.insert k c m)
  insert-Tagged k c [] e t = (e, tt)
  insert-Tagged k c ((j, w) ∷ m) e t = ground (arith, insert-Tagged k c m e t.1)

  -- A valid state after the operation, and deliveries that ascend from the number that was expected
  -- before up to the one that is expected now.
  pub record Outcome (s : SourceState C) (r : SourceState C × List C) : Type 0 where
    pub valid : IsValid tag r.0
    pub ascends : Ascends s.next_expected (map tag r.1) r.0.next_expected

  flush_entries :
      (next : ℕ) (m : List (ℕ × C)) (since : Option ℕ) (t : ℕ)
      → let s : SourceState C = record {
        next_expected = next;
        buffered = m;
        gap_since = since;
        last_activity = t;
      } in
        IsValid tag s → Outcome s (flush s)
  unfolding flush
  flush_entries next [] since t v = ground arith
  flush_entries next ((k, c) ∷ m) since t v =
      let last = last_key_from k m in
      let limit : last < seq_limit = last_key_from-lt k seq_limit m v.below.0 v.below.1 in
      let step : add64 last 1 ≡ last + 1 = omega arith in
      let lowest : k ≤ last = last_key_from-le k m v.above.1 in
      let rest = values-Ascends tag k m v.above.1 v.tagged.1 in
      rw step (record {
        valid = ground (arith, limit, lowest);
        ascends = (ground arith, rw v.tagged.0 rest);
      })

  pub flush-Outcome : (s : SourceState C) → IsValid tag s → Outcome s (flush s)
  flush-Outcome s v = flush_entries s.next_expected s.buffered s.gap_since s.last_activity v

  pub flush_stale-Outcome :
      (gap_timeout now : ℕ) (s : SourceState C)
      → IsValid tag s
      → Outcome s (flush_stale gap_timeout now s)
  unfolding flush_stale
  flush_stale-Outcome gap_timeout now s v = elim (Bool-cases (gap_expired gap_timeout now s)) [
    | inl old ↦ rw old (flush-Outcome s v)
    | inr fresh ↦ rw fresh (record { valid = v; ascends = omega arith })
  ]

  pub deliver_next-Drained :
      (content : C) (now : ℕ) (s : SourceState C)
      → s.next_expected < seq_limit
      → IsValid tag s
      → let r = deliver_next content now s in
        (d : List C) × (r.1 ≡ content ∷ d)
        × (r.0.gap_since ≡ (if is_empty r.0.buffered then none else some now))
        × Drained tag (s.next_expected + 1) s.buffered (d, r.0.next_expected, r.0.buffered)
  unfolding deliver_next
  deliver_next-Drained content now s h v =
      let next = s.next_expected in
      let step : add64 next 1 ≡ next + 1 = omega arith in
      rw step (
        _,
        refl,
        refl,
        drain-Drained tag (length s.buffered) next (next + 1) s.buffered refl (omega arith)
            (omega arith) v.above v.below v.tagged,
      )

  pub deliver_next-Outcome :
      (content : C) (now : ℕ) (s : SourceState C)
      → IsValid tag s
      → tag content ≡ s.next_expected
      → s.next_expected < seq_limit
      → Outcome s (deliver_next content now s)
  deliver_next-Outcome content now s v t h =
      let (d, out, since, drained) = deliver_next-Drained content now s h v in
      let run = Consecutive-Ascends _ _ _ drained.run in
      record {
        valid = record {
          positive = omega (arith, Ascends-le _ _ _ run);
          bounded = drained.bounded;
          above = drained.above;
          below = drained.below;
          tagged = drained.tagged;
          dated = rw since (dated_when (is_empty (deliver_next content now s).0.buffered) now);
        };
        ascends = rw (out, t) (omega arith, run);
      }

  -- The state in which `hold` has filed the message, before the cap is looked at.
  abbrev pub held : ℕ → C → ℕ → SourceState C → SourceState C
  held seq content now s = record s {
    buffered = Btree.insert seq content s.buffered;
    gap_since = elim s.gap_since [ none ↦ some now | some since ↦ some since ];
  }

  held-IsValid :
      (seq : ℕ) (content : C) (now : ℕ) (s : SourceState C)
      → IsValid tag s
      → tag content ≡ seq
      → s.next_expected < seq
      → seq < seq_limit
      → IsValid tag (held seq content now s)
  held-IsValid seq content now s v t l h = record {
    positive = v.positive;
    bounded = v.bounded;
    above = Btree.insert-Above s.next_expected seq content s.buffered l v.above;
    below = Btree.insert-Below seq_limit seq content s.buffered h v.below;
    tagged = insert-Tagged seq content s.buffered t v.tagged;
    dated = rw (insert_nonempty seq content s.buffered) (ground arith);
  }

  pub hold-Outcome :
      (max_per_source seq : ℕ) (content : C) (now : ℕ) (s : SourceState C)
      → IsValid tag s
      → tag content ≡ seq
      → s.next_expected < seq
      → seq < seq_limit
      → Outcome s (hold max_per_source seq content now s)
  unfolding hold
  hold-Outcome max_per_source seq content now s v t l h =
      let w = held-IsValid seq content now s v t l h in
      elim (Bool-cases (ltb max_per_source (length (held seq content now s).buffered))) [
        | inl full ↦
            rw full (let o = flush-Outcome _ w in record { valid = o.valid; ascends = o.ascends })
        | inr room ↦ rw room (record { valid = w; ascends = omega arith })
      ]

  -- Unless the sender restarts its counter, a message is placed in order.
  pub place-Outcome :
      (max_per_source seq : ℕ) (content : C) (now : ℕ) (s : SourceState C)
      → IsValid tag s
      → tag content ≡ seq
      → seq < seq_limit
      → (seq ≡ 1 → s.next_expected ≡ 1)
      → Outcome s (place max_per_source seq content now s)
  place-Outcome max_per_source seq content now s v t h fresh =
      place_cases (Outcome s) max_per_source seq content now s
        (λ e more. absurd (omega (arith, fresh e)))
        (λ late other. record { valid = v; ascends = omega arith })
        (λ due. deliver_next-Outcome content now s v (t ∙ due) (omega arith))
        (λ early. hold-Outcome max_per_source seq content now s v t early h)
