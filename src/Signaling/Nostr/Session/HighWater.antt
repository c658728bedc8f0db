-- ===== src/Signaling/Nostr/Session/HighWater.antt =====
-- session.rs: the mark of a sender, and the verdicts along a run of messages.
use mistlib.Base.{
  ℕ, ◌+◌, ◌≡◌, refl, ap, ◌∙◌, sym, List, [], ◌∷◌, Option, none, some, Bool, true, String,
  String_discrete, ltb, max, not, is_some, ◌||◌, ◌&&◌, if◌then◌else◌, arith, ite, if_pos, if_neg,
  Bool-cases, inl, inr,
}
use mistlib.Base.Maps.{get, insert, get-insert}
use mistlib.Signaling.Nostr.Dedupe.{DedupeCache, check_and_insert}
use mistlib.Signaling.Nostr.Session.{
  Sequences, MessageOrderAcceptance, is_accepted, judge, raise, accept_sequence,
  accept_message_order, nostr_sequence_reorder_window,
}

-- The mark of a sender, 0 if there is none.
abbrev pub mark_of : Option ℕ → ℕ
mark_of none = 0
mark_of (some last) = last

-- The verdict is no acceptance just if the sequence is 64 or more behind the mark.
judge-accepts :
    (o : Option ℕ) (sequence : ℕ)
    → is_accepted (judge o sequence) ≡ ltb (mark_of o) (sequence + nostr_sequence_reorder_window)
unfolding judge is_accepted
judge-accepts none sequence = ground arith
judge-accepts (some last) sequence = ground arith

-- The verdict raises the mark just if the sequence is beyond it.
judge-raises :
    (sender : String) (sequence : ℕ) (incoming : Sequences)
    → (o : Option ℕ)
    → raise (judge o sequence) sender sequence incoming ≡ (
        if ltb (mark_of o) sequence || not (is_some o)
        then insert String_discrete sender sequence incoming
        else incoming)
unfolding judge raise
judge-raises sender sequence incoming none = ground arith
judge-raises sender sequence incoming (some last) = ground arith

is_ahead : Option ℕ → ℕ → Bool
is_ahead o sequence = ltb (mark_of o) sequence || not (is_some o)

ahead-max :
    (o : Option ℕ) (sequence : ℕ)
    → max (mark_of o) sequence ≡ (if is_ahead o sequence then sequence else mark_of o)
unfolding is_ahead
ahead-max none sequence = ground arith
ahead-max (some last) sequence = ground arith

-- The marks after a verdict on a sequence.
raise-mark :
    (j sender : String) (sequence : ℕ) (incoming : Sequences)
    → mark_of (
        get String_discrete j
          (raise (judge (get String_discrete sender incoming) sequence) sender sequence incoming))
      ≡ ite
          (String_discrete sender j)
          (max (mark_of (get String_discrete j incoming)) sequence)
          (mark_of (get String_discrete j incoming))
unfolding is_ahead
raise-mark j sender sequence incoming =
    let o = get String_discrete sender incoming in
    let read = get-insert String_discrete sender j sequence incoming in
    rw (judge-raises sender sequence incoming o) (elim (String_discrete sender j) [
      | yes p ↦
          let here : get String_discrete j incoming ≡ o =
            ap (λ k. get String_discrete k incoming) (sym p) in
          rw
            (if_pos (String_discrete sender j) p
              (max (mark_of (get String_discrete j incoming)) sequence)
              (mark_of (get String_discrete j incoming)))
            (elim (Bool-cases (is_ahead o sequence)) [
              | inl e ↦ rw e (
                  ap mark_of (read ∙ if_pos (String_discrete sender j) p _ _)
                  ∙ sym (rw (here, ahead-max o sequence, e) refl))
              | inr e ↦ rw e (sym (rw (here, ahead-max o sequence, e) refl))
            ])
      | no n ↦
          rw
            (if_neg (String_discrete sender j) n
              (max (mark_of (get String_discrete j incoming)) sequence)
              (mark_of (get String_discrete j incoming)))
            (elim (Bool-cases (is_ahead o sequence)) [
              | inl e ↦ rw e (ap mark_of (read ∙ if_neg (String_discrete sender j) n _ _))
              | inr e ↦ rw e refl
            ])
    ])

-- Whether the id of a message, if it has one, passes the cache.
abbrev pub is_new : Option String → ℕ → DedupeCache → Bool
is_new none now dedupe = true
is_new (some message_id) now dedupe = (check_and_insert message_id now dedupe).0

-- Whether a sequence, if there is one, is less than 64 behind the mark.
abbrev pub is_near : Option ℕ → Option ℕ → Bool
is_near last none = true
is_near last (some sequence) = ltb (mark_of last) (sequence + nostr_sequence_reorder_window)

accept_sequence-accepts :
    (sender : String) (sequence : Option ℕ) (incoming : Sequences)
    → is_accepted (accept_sequence sender sequence incoming).0
      ≡ is_near (get String_discrete sender incoming) sequence
unfolding accept_sequence is_accepted
accept_sequence-accepts sender none incoming = refl
accept_sequence-accepts sender (some sequence) incoming =
    judge-accepts (get String_discrete sender incoming) sequence

-- A message is accepted just if its id is new and its sequence is less than 64 behind the highest
-- sequence taken from its sender; a message without an id or a sequence passes the test that it lacks.
pub accept_message_order-accepts :
    (sender : String) (message_id : Option String) (sequence : Option ℕ) (now : ℕ)
    (dedupe : DedupeCache) (incoming : Sequences)
    → is_accepted (accept_message_order sender message_id sequence now dedupe incoming).0
      ≡ (is_new message_id now dedupe && is_near (get String_discrete sender incoming) sequence)
unfolding accept_message_order is_accepted
accept_message_order-accepts sender none sequence now dedupe incoming =
    accept_sequence-accepts sender sequence incoming
accept_message_order-accepts sender (some message_id) sequence now dedupe incoming =
    elim (Bool-cases (check_and_insert message_id now dedupe).0) [
      | inl e ↦ rw (e, accept_message_order) (accept_sequence-accepts sender sequence incoming)
      | inr e ↦ rw (e, accept_message_order) refl
    ]

pub record Message : Type 0 where
  pub sender : String
  pub message_id : Option String
  pub sequence : Option ℕ
  pub at : ℕ

abbrev outcome :
    Message → DedupeCache → Sequences → MessageOrderAcceptance × DedupeCache × Sequences
outcome m dedupe incoming =
    accept_message_order m.sender m.message_id m.sequence m.at dedupe incoming

-- The marks after some messages.
abbrev pub marks_after : List Message → DedupeCache → Sequences → Sequences
marks_after [] dedupe incoming = incoming
marks_after (m ∷ messages) dedupe incoming =
    let (verdict, cache, marks) = outcome m dedupe incoming in marks_after messages cache marks

-- The sequence of a message from a sender that is no duplicate, 0 for any other.
abbrev pub counted : String → Message → DedupeCache → ℕ
counted sender m dedupe =
    if is_new m.message_id m.at dedupe
    then ite (String_discrete m.sender sender) (mark_of m.sequence) 0
    else 0

-- The highest of them.
abbrev pub highest : String → List Message → DedupeCache → Sequences → ℕ
highest sender [] dedupe incoming = 0
highest sender (m ∷ messages) dedupe incoming =
    let (verdict, cache, marks) = outcome m dedupe incoming in
    max (counted sender m dedupe) (highest sender messages cache marks)

accept_sequence-mark :
    (j sender : String) (sequence : Option ℕ) (incoming : Sequences)
    → mark_of (get String_discrete j (accept_sequence sender sequence incoming).1)
      ≡ max
          (mark_of (get String_discrete j incoming))
          (ite (String_discrete sender j) (mark_of sequence) 0)
unfolding accept_sequence
accept_sequence-mark j sender none incoming = ground arith
accept_sequence-mark j sender (some sequence) incoming =
    raise-mark j sender sequence incoming ∙ ground arith

order-mark :
    (j sender : String) (message_id : Option String) (sequence : Option ℕ) (now : ℕ)
    (dedupe : DedupeCache) (incoming : Sequences)
    → mark_of (
        get String_discrete j
          (accept_message_order sender message_id sequence now dedupe incoming).2)
      ≡ max (mark_of (get String_discrete j incoming)) (
          if is_new message_id now dedupe
          then ite (String_discrete sender j) (mark_of sequence) 0
          else 0)
unfolding accept_message_order
order-mark j sender none sequence now dedupe incoming =
    accept_sequence-mark j sender sequence incoming
order-mark j sender (some message_id) sequence now dedupe incoming =
    elim (Bool-cases (check_and_insert message_id now dedupe).0) [
      | inl e ↦ rw (e, accept_message_order) (accept_sequence-mark j sender sequence incoming)
      | inr e ↦ rw (e, accept_message_order) (omega arith)
    ]

outcome-mark :
    (j : String) (m : Message) (dedupe : DedupeCache) (incoming : Sequences)
    → mark_of (get String_discrete j (outcome m dedupe incoming).2)
      ≡ max (mark_of (get String_discrete j incoming)) (counted j m dedupe)
outcome-mark j m dedupe incoming =
    order-mark j m.sender m.message_id m.sequence m.at dedupe incoming

-- After any run of messages, the mark of each sender is the highest sequence among its mark before and
-- its messages that were no duplicates. So it never falls, and no other sender moves it.
pub marks_after-highest :
    (j : String) (messages : List Message) (dedupe : DedupeCache) (incoming : Sequences)
    → mark_of (get String_discrete j (marks_after messages dedupe incoming))
      ≡ max (mark_of (get String_discrete j incoming)) (highest j messages dedupe incoming)
marks_after-highest j [] dedupe incoming = omega arith
marks_after-highest j (m ∷ messages) dedupe incoming =
    let ih =
      marks_after-highest j messages (outcome m dedupe incoming).1 (outcome m dedupe incoming).2 in
    let one = outcome-mark j m dedupe incoming in omega (arith, ih, one)
