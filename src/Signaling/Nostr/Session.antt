-- ===== src/Signaling/Nostr/Session.antt =====
-- mistlib-core/src/signaling/nostr/session.rs: the numbers of the signaling messages, per peer key.
pub mod HighWater
use mistlib.Base.{
  ℕ, ◌+◌, ◌-◌, List, Option, none, some, Bool, true, false, String, String_discrete, ltb, leb, max,
  if◌then◌else◌,
}
use mistlib.Base.Words.{sat_add64}
use mistlib.Base.Maps.{get, insert}
use mistlib.Signaling.Nostr.Dedupe.{DedupeCache, check_and_insert}

abbrev pub nostr_sequence_reorder_window : ℕ
nostr_sequence_reorder_window = 64

abbrev pub Sequences : Type 0
Sequences = List (String × ℕ)

pub data MessageOrderAcceptance : Type 0 where
  accepted duplicate_message_id : MessageOrderAcceptance
  -- the mark, and the sequence of the message
  reordered_within_window stale_sequence gap : ℕ → ℕ → MessageOrderAcceptance

unfoldable pub is_accepted : MessageOrderAcceptance → Bool
is_accepted accepted = true
is_accepted (gap last sequence) = true
is_accepted (reordered_within_window last sequence) = true
is_accepted _ = false

-- `saturating_add(1).max(1)` of the entry, which is 0 if there is none.
unfoldable pub outgoing_after : Option ℕ → ℕ
outgoing_after none = max (sat_add64 0 1) 1
outgoing_after (some last) = max (sat_add64 last 1) 1

unfoldable pub next_outgoing_sequence : String → Sequences → ℕ × Sequences
next_outgoing_sequence receiver outgoing =
    let sequence = outgoing_after (get String_discrete receiver outgoing) in
    (sequence, insert String_discrete receiver sequence outgoing)

-- The verdict on a sequence, by the sender's mark.
unfoldable pub judge : Option ℕ → ℕ → MessageOrderAcceptance
judge none sequence = accepted
judge (some last) sequence =
    if leb sequence last
    then if ltb (last - sequence) nostr_sequence_reorder_window
      then reordered_within_window last sequence
      else stale_sequence last sequence
    else if ltb (sat_add64 last 1) sequence
    then gap last sequence
    else accepted

-- The marks after a verdict.
unfoldable pub raise : MessageOrderAcceptance → String → ℕ → Sequences → Sequences
raise accepted sender sequence incoming = insert String_discrete sender sequence incoming
raise (gap _ _) sender sequence incoming = insert String_discrete sender sequence incoming
raise _ sender sequence incoming = incoming

unfoldable pub accept_sequence : String → Option ℕ → Sequences → MessageOrderAcceptance × Sequences
accept_sequence sender none incoming = (accepted, incoming)
accept_sequence sender (some sequence) incoming =
    let verdict = judge (get String_discrete sender incoming) sequence in
    (verdict, raise verdict sender sequence incoming)

unfoldable pub accept_message_order :
    String
    → Option String
    → Option ℕ
    → ℕ
    → DedupeCache
    → Sequences
    → MessageOrderAcceptance × DedupeCache × Sequences
accept_message_order sender none sequence now dedupe incoming =
    let (verdict, marks) = accept_sequence sender sequence incoming in (verdict, dedupe, marks)
accept_message_order sender (some message_id) sequence now dedupe incoming =
    let (is_new, cache) = check_and_insert message_id now dedupe in
    let (verdict, marks) = accept_sequence sender sequence incoming in
    if is_new then (verdict, cache, marks) else (duplicate_message_id, cache, incoming)
