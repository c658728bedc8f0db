-- ===== src/Stats/Traffic/Conserved.antt =====
-- stats.rs: nothing that is counted gets lost between the reports.
use mistlib.Base.{ℕ, ◌+◌, ◌*◌, ◌%◌, ◌≡◌, refl, ap, List, [], ◌∷◌, Option, none, some, length, arith}
use mistlib.Base.Words.{u64_mod}
use mistlib.Stats.Traffic.{
  MistStats, StatsSnapshot, OverlayFrameClass, world, relay, excluded, Deserialize, new_stats,
  add_send, add_receive, add_world_send, add_world_receive, add_relay_send, add_relay_receive,
  add_send_class, add_receive_class, add_send_frame, add_receive_frame, classify_overlay_frame,
  snapshot_and_reset, bits,
}

-- A frame that a node sends or receives, and a report.
pub data Event : Type 0 where
  outgoing incoming : List ℕ → Event
  report : Event

-- The reports of a run, and the counters it leaves.
abbrev pub run : Deserialize → List Event → MistStats → List StatsSnapshot × MistStats
run deserialize [] s = ([], s)
run deserialize (outgoing frame ∷ events) s =
    run deserialize events (add_send_frame deserialize frame s)
run deserialize (incoming frame ∷ events) s =
    run deserialize events (add_receive_frame deserialize frame s)
run deserialize (report ∷ events) s =
    let (snapshots, left) = run deserialize events (snapshot_and_reset s).1 in
    ((snapshot_and_reset s).0 ∷ snapshots, left)

abbrev pub total : (StatsSnapshot → ℕ) → List StatsSnapshot → ℕ
total field [] = 0
total field (snapshot ∷ snapshots) = field snapshot + total field snapshots

-- What a frame counts for: probes of the network count for nothing.
abbrev pub messages_of : Option OverlayFrameClass → ℕ
messages_of (some excluded) = 0
messages_of _ = 1

abbrev pub world_of : Option OverlayFrameClass → ℕ
world_of (some (world bytes)) = 1
world_of _ = 0

abbrev pub relay_of : Option OverlayFrameClass → ℕ
relay_of (some (relay bytes)) = 1
relay_of _ = 0

abbrev pub weigh_sent : Deserialize → (List ℕ → Option OverlayFrameClass → ℕ) → List Event → ℕ
weigh_sent deserialize weight [] = 0
weigh_sent deserialize weight (outgoing frame ∷ events) =
    weight frame (classify_overlay_frame deserialize frame) + weigh_sent deserialize weight events
weigh_sent deserialize weight (incoming frame ∷ events) = weigh_sent deserialize weight events
weigh_sent deserialize weight (report ∷ events) = weigh_sent deserialize weight events

-- What a sent frame adds to a counter.
abbrev Adds : (MistStats → ℕ) → (List ℕ → Option OverlayFrameClass → ℕ) → Type 0
Adds counter weight =
    (frame : List ℕ) (class : Option OverlayFrameClass) (s : MistStats)
    → counter (add_send_class (length frame) class s) % u64_mod
      ≡ (counter s + weight frame class) % u64_mod

abbrev Ignores : (MistStats → ℕ) → Type 0
Ignores counter =
    (bytes : ℕ) (class : Option OverlayFrameClass) (s : MistStats)
    → counter (add_receive_class bytes class s) ≡ counter s

-- A counter of sent frames that a report takes as it is, and resets.
conserved :
    (counter : MistStats → ℕ) (field : StatsSnapshot → ℕ)
    (weight : List ℕ → Option OverlayFrameClass → ℕ) (deserialize : Deserialize)
    → Adds counter weight
    → Ignores counter
    → ((s : MistStats) → field (snapshot_and_reset s).0 ≡ counter s)
    → counter new_stats ≡ 0
    → (events : List Event) (s : MistStats)
    → (total field (run deserialize events s).0 + counter (run deserialize events s).1) % u64_mod
      ≡ (counter s + weigh_sent deserialize weight events) % u64_mod
unfolding add_send_frame add_receive_frame snapshot_and_reset
conserved counter field weight deserialize adds ignores takes resets [] s = omega arith
conserved counter field weight deserialize adds ignores takes resets (outgoing frame ∷ events) s =
    let class = classify_overlay_frame deserialize frame in
    let h = adds frame class s in
    let ih =
      conserved counter field weight deserialize adds ignores takes resets events
        (add_send_class (length frame) class s) in
    omega arith
conserved counter field weight deserialize adds ignores takes resets (incoming frame ∷ events) s =
    let class = classify_overlay_frame deserialize frame in
    let h = ignores (length frame) class s in
    let ih =
      conserved counter field weight deserialize adds ignores takes resets events
        (add_receive_class (length frame) class s) in
    omega arith
conserved counter field weight deserialize adds ignores takes resets (report ∷ events) s =
    let h = takes s in
    let ih =
      conserved counter field weight deserialize adds ignores takes resets events new_stats in
    omega arith

conserved-fresh :
    (counter : MistStats → ℕ) (field : StatsSnapshot → ℕ)
    (weight : List ℕ → Option OverlayFrameClass → ℕ) (deserialize : Deserialize)
    → Adds counter weight
    → Ignores counter
    → ((s : MistStats) → field (snapshot_and_reset s).0 ≡ counter s)
    → counter new_stats ≡ 0
    → (events : List Event)
    → (total field (run deserialize events new_stats).0
          + counter (run deserialize events new_stats).1)
        % u64_mod
      ≡ weigh_sent deserialize weight events % u64_mod
conserved-fresh counter field weight deserialize adds ignores takes resets events =
    let h = conserved counter field weight deserialize adds ignores takes resets events new_stats in
    omega arith

bits-Adds :
    Adds (λ s. bits s.total_send_bytes) (λ frame class. 8 * (messages_of class * length frame))
unfolding add_send_class add_send add_world_send add_relay_send bits
bits-Adds frame (some (world b)) s = omega arith
bits-Adds frame (some (relay b)) s = omega arith
bits-Adds frame (some excluded) s = omega arith
bits-Adds frame none s = omega arith

messages-Adds : Adds (λ s. s.total_message_count) (λ frame class. messages_of class)
unfolding add_send_class add_send add_world_send add_relay_send
messages-Adds frame (some (world b)) s = omega arith
messages-Adds frame (some (relay b)) s = omega arith
messages-Adds frame (some excluded) s = omega arith
messages-Adds frame none s = omega arith

world-Adds : Adds (λ s. s.total_world_message_count) (λ frame class. world_of class)
unfolding add_send_class add_send add_world_send add_relay_send
world-Adds frame (some (world b)) s = omega arith
world-Adds frame (some (relay b)) s = omega arith
world-Adds frame (some excluded) s = omega arith
world-Adds frame none s = omega arith

relay-Adds : Adds (λ s. s.total_relay_message_count) (λ frame class. relay_of class)
unfolding add_send_class add_send add_world_send add_relay_send
relay-Adds frame (some (world b)) s = omega arith
relay-Adds frame (some (relay b)) s = omega arith
relay-Adds frame (some excluded) s = omega arith
relay-Adds frame none s = omega arith

ignores-sent :
    (bytes : ℕ) (class : Option OverlayFrameClass) (s : MistStats)
    → ((add_receive_class bytes class s).total_send_bytes ≡ s.total_send_bytes)
      × ((add_receive_class bytes class s).total_message_count ≡ s.total_message_count)
      × ((add_receive_class bytes class s).total_world_message_count ≡ s.total_world_message_count)
      × ((add_receive_class bytes class s).total_relay_message_count ≡ s.total_relay_message_count)
unfolding add_receive_class add_receive add_world_receive add_relay_receive
ignores-sent bytes (some (world b)) s = (refl, refl, refl, refl)
ignores-sent bytes (some (relay b)) s = (refl, refl, refl, refl)
ignores-sent bytes (some excluded) s = (refl, refl, refl, refl)
ignores-sent bytes none s = (refl, refl, refl, refl)

-- Through any mixture of sent frames, received frames and reports from fresh counters on, what the
-- reports say together with what the counters still hold is what was sent, modulo 2 ^ 64: the bits
-- of the frames that are not probes, their number, the number of world frames and the number of
-- relayed frames.
pub reports-conserved :
    (deserialize : Deserialize) (events : List Event)
    → let (snapshots, left) = run deserialize events new_stats in
      ((total (λ r. r.send_bits) snapshots + bits left.total_send_bytes) % u64_mod
        ≡ weigh_sent deserialize (λ frame class. 8 * (messages_of class * length frame)) events
          % u64_mod)
      × ((total (λ r. r.message_count) snapshots + left.total_message_count) % u64_mod
          ≡ weigh_sent deserialize (λ frame class. messages_of class) events % u64_mod)
      × ((total (λ r. r.world_message_count) snapshots + left.total_world_message_count) % u64_mod
          ≡ weigh_sent deserialize (λ frame class. world_of class) events % u64_mod)
      × ((total (λ r. r.relay_message_count) snapshots + left.total_relay_message_count) % u64_mod
          ≡ weigh_sent deserialize (λ frame class. relay_of class) events % u64_mod)
unfolding snapshot_and_reset new_stats bits
reports-conserved deserialize events = (
  conserved-fresh (λ s. bits s.total_send_bytes) (λ r. r.send_bits)
      (λ frame class. 8 * (messages_of class * length frame)) deserialize bits-Adds
      (λ bytes class s. ap bits (ignores-sent bytes class s).0) (λ s. refl) refl events,
  conserved-fresh (λ s. s.total_message_count) (λ r. r.message_count)
      (λ frame class. messages_of class) deserialize messages-Adds
      (λ bytes class s. (ignores-sent bytes class s).1) (λ s. refl) refl events,
  conserved-fresh (λ s. s.total_world_message_count) (λ r. r.world_message_count)
      (λ frame class. world_of class) deserialize world-Adds
      (λ bytes class s. (ignores-sent bytes class s).2) (λ s. refl) refl events,
  conserved-fresh (λ s. s.total_relay_message_count) (λ r. r.relay_message_count)
      (λ frame class. relay_of class) deserialize relay-Adds
      (λ bytes class s. (ignores-sent bytes class s).3) (λ s. refl) refl events,
)
