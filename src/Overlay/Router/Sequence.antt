-- ===== src/Overlay/Router/Sequence.antt =====
-- `with_next_seq` of mistlib-core/src/overlay/router.rs: the numbers of the frames for each destination.
use mistlib.Base.{
  ℕ, suc, ◌+◌, ◌≤◌, ◌<◌, ◌≡◌, refl, subst, ap, ◌∙◌, inl, inr, List, [], ◌∷◌, Option, none, some,
  true, length, map, arith, ite, if_pos, if_neg, All, ltb,
}
use mistlib.Base.Words.{add64, u64_mod}
use mistlib.Base.Maps.{get, insert, get-insert, length-insert}
use mistlib.Base.Eviction.{make_room, length-insert-make_room}
use mistlib.Base.Sequences.{Consecutive}
use mistlib.Types.{NodeId, node_dec}
use mistlib.Messages.{Result, MistError, ok, err, Result-cases}

abbrev pub seq_counter_max_destinations : ℕ
seq_counter_max_destinations = 1024

pub record SeqCounter : Type 0 where
  pub value : ℕ
  pub last_used : ℕ

abbrev pub SeqCounters : Type 0
SeqCounters = List (NodeId × SeqCounter)

-- `counters.get(to).map_or(1, |counter| counter.value + 1)`.
unfoldable pub next_of : Option SeqCounter → ℕ
next_of none = 1
next_of (some counter) = add64 counter.value 1

abbrev pub next_seq : NodeId → SeqCounters → ℕ
next_seq to counters = next_of (get node_dec to counters)

-- Files the number under the destination, where the least recently used one makes room for a new one.
unfoldable pub note_seq : NodeId → ℕ → ℕ → SeqCounters → SeqCounters
note_seq to seq now counters =
    insert node_dec to (record { value = seq; last_used = now })
      (make_room node_dec (λ c. c.last_used) seq_counter_max_destinations to counters)

-- The number is consumed just if the frame is built and committed.
unfoldable pub with_next_seq :
    {T : Type 0} → NodeId → ℕ → (ℕ → Result T) → SeqCounters → Result T × SeqCounters
with_next_seq to now build counters =
    let seq = next_seq to counters in
    elim (build seq) [ err e ↦ (err e, counters) | ok t ↦ (ok t, note_seq to seq now counters) ]

-- No more destinations than the cap.
pub note_seq-bounded :
    (to : NodeId) (seq now : ℕ) (counters : SeqCounters)
    → length counters ≤ seq_counter_max_destinations
    → length (note_seq to seq now counters) ≤ seq_counter_max_destinations
unfolding note_seq
note_seq-bounded to seq now counters h =
    length-insert-make_room node_dec (λ c. c.last_used) seq_counter_max_destinations to _ counters
      (omega arith) h

next_seq-other :
    (id to : NodeId) (seq now : ℕ) (counters : SeqCounters)
    → length counters < seq_counter_max_destinations
    → ¬ (to ≡ id)
    → next_seq id (note_seq to seq now counters) ≡ next_seq id counters
unfolding note_seq make_room
next_seq-other id to seq now counters h n =
    let small : ltb (length counters) seq_counter_max_destinations ≡ true = ground arith in
    rw small (
      ap next_of (
        get-insert node_dec to id (record { value = seq; last_used = now }) counters
        ∙ if_neg (node_dec to id) n _ _))

next_seq-same :
    (id to : NodeId) (seq now : ℕ) (counters : SeqCounters)
    → to ≡ id
    → next_seq id (note_seq to seq now counters) ≡ add64 seq 1
unfolding note_seq next_of
next_seq-same id to seq now counters p = ap next_of (
    get-insert node_dec to id (record { value = seq; last_used = now }) _
    ∙ if_pos (node_dec to id) p _ _)

length-note_seq :
    (to : NodeId) (seq now : ℕ) (counters : SeqCounters)
    → length counters < seq_counter_max_destinations
    → length (note_seq to seq now counters) ≤ suc (length counters)
unfolding note_seq make_room
length-note_seq to seq now counters h =
    let small : ltb (length counters) seq_counter_max_destinations ≡ true = ground arith in
    rw small
      (ground (arith, length-insert node_dec to (record { value = seq; last_used = now }) counters))

pub with_next_seq-err :
    {T : Type 0} (to : NodeId) (now : ℕ) (build : ℕ → Result T) (counters : SeqCounters)
    (e : MistError)
    → build (next_seq to counters) ≡ err e
    → with_next_seq to now build counters ≡ (err e, counters)
unfolding with_next_seq
with_next_seq-err to now build counters e h = rw (h, with_next_seq) refl

pub with_next_seq-ok :
    {T : Type 0} (to : NodeId) (now : ℕ) (build : ℕ → Result T) (counters : SeqCounters) (t : T)
    → build (next_seq to counters) ≡ ok t
    → with_next_seq to now build counters ≡ (ok t, note_seq to (next_seq to counters) now counters)
unfolding with_next_seq
with_next_seq-ok to now build counters t h = rw (h, with_next_seq) refl

module _ {T : Type 0} (seq_of : T → ℕ) where
  -- One call: the destination, the instant, and what builds and commits the frame.
  abbrev pub Send : Type 0
  Send = NodeId × ℕ × (ℕ → Result T)

  -- The frame carries the number that it was given.
  abbrev pub IsStamped : Send → Type 0
  IsStamped send = (seq : ℕ) (t : T) → send.2 seq ≡ ok t → seq_of t ≡ seq

  -- The frame of a call, if it is for the destination, before those of the calls that follow.
  abbrev collect : NodeId → NodeId → Result T × SeqCounters → (SeqCounters → List T) → List T
  collect id to (err e, left) rest = rest left
  collect id to (ok t, left) rest = ite (node_dec to id) (t ∷ rest left) (rest left)

  -- The frames for one destination that calls have committed, in their order.
  pub frames_to : NodeId → List Send → SeqCounters → List T
  frames_to id [] counters = []
  frames_to id ((to, now, build) ∷ sends) counters =
      collect id to (with_next_seq to now build counters) (λ left. frames_to id sends left)

  frames_to-step :
      (id to : NodeId) (now : ℕ) (build : ℕ → Result T) (sends : List Send) (counters : SeqCounters)
      (outcome : Result T × SeqCounters)
      → with_next_seq to now build counters ≡ outcome
      → frames_to id ((to, now, build) ∷ sends) counters
        ≡ collect id to outcome (frames_to id sends)
  unfolding frames_to
  frames_to-step id to now build sends counters outcome e =
      ap (λ r. collect id to r (frames_to id sends)) e

  frames_to-Consecutive_from :
      (id : NodeId) (sends : List Send) (counters : SeqCounters)
      → All IsStamped sends
      → length counters + length sends ≤ seq_counter_max_destinations
      → next_seq id counters + length sends < u64_mod
      → Consecutive
          (next_seq id counters)
          (map seq_of (frames_to id sends counters))
          (next_seq id counters + length (frames_to id sends counters))
  unfolding frames_to
  frames_to-Consecutive_from id [] counters stamped room small = omega arith
  frames_to-Consecutive_from id ((to, now, build) ∷ sends) counters (stamp, stamped) room small =
      elim (Result-cases (build (next_seq to counters))) [
        | inl (e, failed) ↦
            rw
              (frames_to-step id to now build sends counters _
                (with_next_seq-err to now build counters e failed))
              (frames_to-Consecutive_from id sends counters stamped (omega arith) (omega arith))
        | inr (t, committed) ↦
            let seq = next_seq to counters in
            let left = note_seq to seq now counters in
            let size = length-note_seq to seq now counters (omega arith) in
            rw
              (frames_to-step id to now build sends counters _
                (with_next_seq-ok to now build counters t committed))
              (elim (node_dec to id) [
                | yes p ↦
                    let same : next_seq to counters ≡ next_seq id counters =
                      ap (λ j. next_seq j counters) p in
                    let wrap : add64 seq 1 ≡ next_seq id counters + 1 = omega arith in
                    let next : next_seq id left ≡ next_seq id counters + 1 =
                      next_seq-same id to seq now counters p ∙ wrap in
                    let ih =
                      frames_to-Consecutive_from id sends left stamped (omega arith)
                        (omega arith) in
                    let frames = frames_to id sends left in
                    let shift : next_seq id counters + 1 + length frames
                        ≡ next_seq id counters + suc (length frames) =
                      omega arith in
                    rw (if_pos (node_dec to id) p (t ∷ frames) frames) (
                      (
                        stamp seq t committed ∙ same,
                        subst (Consecutive (next_seq id counters + 1) (map seq_of frames)) shift (
                            subst (λ s. Consecutive s (map seq_of frames) (s + length frames)) next
                              ih),
                      ))
                | no n ↦
                    let next = next_seq-other id to seq now counters (omega arith) n in
                    let ih =
                      frames_to-Consecutive_from id sends left stamped (omega arith)
                        (omega arith) in
                    let frames = frames_to id sends left in
                    rw (if_neg (node_dec to id) n (t ∷ frames) frames)
                      (subst (λ s. Consecutive s (map seq_of frames) (s + length frames)) next ih)
              ])
      ]

  -- From no counters: the frames committed for a destination are numbered 1, 2, … without a gap, in
  -- the order of the calls, whatever is sent to others in between and whatever calls fail, as long
  -- as no more calls are made than the cap on destinations, so that no counter is evicted.
  pub frames_to-Consecutive :
      (id : NodeId) (sends : List Send)
      → All IsStamped sends
      → length sends ≤ seq_counter_max_destinations
      → Consecutive 1 (map seq_of (frames_to id sends [])) (1 + length (frames_to id sends []))
  unfolding next_of
  frames_to-Consecutive id sends stamped few =
      frames_to-Consecutive_from id sends [] stamped (omega arith) (ground arith)
