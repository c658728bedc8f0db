-- ===== src/Tests/Links.antt =====
-- Runs of the liveness and the counters of mistlib-core/src/stats, of src/transport and of
-- src/signaling/nostr.
use mistlib.Base.{
  ℕ, ◌≡◌, ◌≤◌, ◌==◌, if◌then◌else◌, ◌+◌, ◌*◌, ◌%◌, refl, List, [], ◌∷◌, Option, none, some, Bool,
  true, false, ◌&&◌, max, All, length, arith, suc, String_discrete,
}
use mistlib.Base.Maps.{get}
use mistlib.Base.Words.{u64_mod}
use mistlib.Types.{bulk, control}
use mistlib.Stats.{or_default, tick_suspects, note_ping_sent, ping_entry, note_inbound_activity}
use mistlib.Stats.Latch.{entry_of, pings, pings-suspect}
use mistlib.Stats.Episodes.{Event, tick, inbound, run, alternates, run-alternates}
use mistlib.Stats.Traffic.{
  Deserialize, probe_marker, new_stats, bits, classify_overlay_frame, class_of,
  is_network_partition_probe_payload, starts_with,
}
use mistlib.Stats.Traffic.Conserved.{
  Event as TrafficEvent, outgoing, incoming, report, run as run_traffic, total, weigh_sent,
  messages_of, world_of, relay_of, reports-conserved,
}
use mistlib.Messages.{suspect_disconnected, clear_suspect, OverlayEnvelope, raw}
use mistlib.Transport.LaneQueue.{SendClass, LaneQueue, is_barrier, pop}
use mistlib.Transport.LaneQueue.Barrier.{Outcome, pop-Outcome}
use mistlib.Transport.LaneQueue.Fairness.{IsServed, pop-IsServed}
use mistlib.Transport.ByteBudget
use mistlib.Transport.ByteBudget.{
  new_budget, reserve, reserve_received, shrink, resize, IsCharged, run-IsCharged,
}
use mistlib.Transport.Capability.{
  set_local, hear, set_initial_offerer, try_open, opened, new_capability, opened-once,
}
use mistlib.Signaling.Nostr.Dedupe.{new_dedupe}
use mistlib.Signaling.Nostr.Session.{is_accepted, accept_message_order}
use mistlib.Signaling.Nostr.Session.HighWater.{
  Message, is_new, is_near, mark_of, marks_after, highest, accept_message_order-accepts,
  marks_after-highest,
}
use mistlib.Signaling.Nostr.Outbox.{
  DiscoveryRequest, DiscoveryOutbox, probe, reply, rank_of, pop as pop_request, next_item, deadline,
}
use mistlib.Signaling.Nostr.Outbox.Priority.{IsDue, pop-urgent}

abbrev silence : List Event
silence =
    tick ("a" ∷ "b" ∷ [])
    ∷ inbound "b"
    ∷ tick ("a" ∷ "b" ∷ [])
    ∷ tick ("a" ∷ [])
    ∷ tick ("a" ∷ [])
    ∷ inbound "a"
    ∷ []

run-alternates_example : alternates "a" false (run 2 silence []) ≡ true
run-alternates_example = run-alternates "a" 2 silence (omega arith) (omega arith)

-- One suspicion, and one clearing.
silence_run : run 2 silence [] ≡ suspect_disconnected "a" ∷ clear_suspect "a" ∷ []
unfolding tick_suspects note_ping_sent ping_entry or_default note_inbound_activity String_discrete
silence_run = refl

pings-suspect_example : (entry_of "a" (pings (suc 2) "a" 2 [])).suspect ≡ true
unfolding or_default
pings-suspect_example =
    pings-suspect "a" 2 [] (omega arith) (omega arith) ((λ h. refl), refl, omega arith)

-- A frame is its class.
abbrev class : SendClass → SendClass
class c = c

abbrev no_unordered : SendClass → Bool
no_unordered c = false

abbrev bulk_frame : SendClass
bulk_frame = record { lane = bulk; unsequenced_bulk = true }

abbrev control_frame : SendClass
control_frame = record { lane = control; unsequenced_bulk = false }

abbrev queue : LaneQueue SendClass
queue = record {
  frames = bulk_frame ∷ control_frame ∷ bulk_frame ∷ control_frame ∷ [];
  priority = true;
  control_burst = 0;
}

pop-Outcome_example :
    Outcome class no_unordered true true queue (pop class no_unordered true true queue)
pop-Outcome_example = pop-Outcome class no_unordered true true queue

pop-IsServed_example : IsServed class no_unordered 17 bulk_frame queue
unfolding is_barrier
pop-IsServed_example =
    pop-IsServed class no_unordered queue bulk_frame
      (control_frame ∷ bulk_frame ∷ control_frame ∷ []) refl refl

abbrev reservations : List ByteBudget.Step
reservations = reserve 60 ∷ resize 10 ∷ reserve 5 ∷ shrink 0 0 ∷ reserve_received 50 ∷ []

run-IsCharged_example :
    IsCharged
      (ByteBudget.run reservations [] (new_budget 100)).0
      (ByteBudget.run reservations [] (new_budget 100)).1
    × ((ByteBudget.run reservations [] (new_budget 100)).1.ceiling ≡ 100)
run-IsCharged_example = run-IsCharged 100 reservations

opened-once_example :
    opened
      (set_local true ∷ hear (some 1) ∷ set_initial_offerer ∷ try_open ∷ try_open ∷ [])
      new_capability
    ≤ 1
opened-once_example =
    opened-once (set_local true ∷ hear (some 1) ∷ set_initial_offerer ∷ try_open ∷ try_open ∷ [])

accept_message_order-accepts_example :
    is_accepted (accept_message_order "k" (some "m") (some 5) 0 (new_dedupe 1000) (("k", 9) ∷ [])).0
    ≡ (is_new (some "m") 0 (new_dedupe 1000)
        && is_near (get String_discrete "k" (("k", 9) ∷ [])) (some 5))
accept_message_order-accepts_example =
    accept_message_order-accepts "k" (some "m") (some 5) 0 (new_dedupe 1000) (("k", 9) ∷ [])

abbrev messages : List Message
messages =
    record { sender = "k"; message_id = some "m"; sequence = some 5; at = 0 }
    ∷ record { sender = "k"; message_id = none; sequence = some 3; at = 1 }
    ∷ []

marks_after-highest_example :
    mark_of (get String_discrete "k" (marks_after messages (new_dedupe 1000) []))
    ≡ max 0 (highest "k" messages (new_dedupe 1000) [])
marks_after-highest_example = marks_after-highest "k" messages (new_dedupe 1000) []

abbrev request : DiscoveryRequest
request = record { pubkey = "p"; priority = reply; delay = 0; queued_at = 0 }

abbrev probing : DiscoveryRequest
probing = record { pubkey = "q"; priority = probe; delay = 0; queued_at = 0 }

abbrev outbox : DiscoveryOutbox
outbox = record { queue = probing ∷ request ∷ []; last_send = none }

pop-urgent_example :
    IsDue 7 none request request.priority
    × All (λ other. rank_of request ≤ rank_of other) outbox.queue
    × (2 ≡ suc 1)
    × (◌≡◌ {A = Option ℕ} (some 7) (some 7))
unfolding pop_request next_item deadline
pop-urgent_example =
    pop-urgent 7 outbox request (record { queue = probing ∷ []; last_send = some 7 }) refl

abbrev heard_envelope : List ℕ → OverlayEnvelope
heard_envelope bytes = record {
  from = "a";
  to = "b";
  msg_id = 1;
  seq = 0;
  hop_count = 3;
  content = raw bytes;
}

-- A frame that starts with 1 is an envelope around its other bytes.
abbrev decoder : Deserialize
decoder [] = none
decoder (b ∷ bytes) = if b == 1 then some (heard_envelope bytes) else none

abbrev traffic : List TrafficEvent
traffic =
    outgoing (1 ∷ 5 ∷ [])
    ∷ outgoing (1 ∷ probe_marker)
    ∷ report
    ∷ incoming (1 ∷ 7 ∷ [])
    ∷ outgoing (2 ∷ 3 ∷ 4 ∷ [])
    ∷ []

-- The probe is not counted.
traffic_weight :
    weigh_sent decoder (λ frame class. 8 * (messages_of class * length frame)) traffic ≡ 40
unfolding classify_overlay_frame class_of is_network_partition_probe_payload starts_with
traffic_weight = refl

reports-conserved_example :
    let (snapshots, left) = run_traffic decoder traffic new_stats in
    ((total (λ r. r.send_bits) snapshots + bits left.total_send_bytes) % u64_mod
      ≡ weigh_sent decoder (λ frame class. 8 * (messages_of class * length frame)) traffic
        % u64_mod)
    × ((total (λ r. r.message_count) snapshots + left.total_message_count) % u64_mod
        ≡ weigh_sent decoder (λ frame class. messages_of class) traffic % u64_mod)
    × ((total (λ r. r.world_message_count) snapshots + left.total_world_message_count) % u64_mod
        ≡ weigh_sent decoder (λ frame class. world_of class) traffic % u64_mod)
    × ((total (λ r. r.relay_message_count) snapshots + left.total_relay_message_count) % u64_mod
        ≡ weigh_sent decoder (λ frame class. relay_of class) traffic % u64_mod)
reports-conserved_example = reports-conserved decoder traffic
