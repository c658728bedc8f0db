-- ===== src/Stats/Episodes.antt =====
-- stats/ping.rs: the notices about a peer come in episodes, and silence ends in a suspicion.
use mistlib.Base.{
  if_pos, if_neg, ℕ, ◌≤◌, ◌<◌, ◌≡◌, subst, refl, ◌∙◌, sym, ap, List, [], ◌∷◌, ◌++◌, Bool, true,
  false, ltb, ◌==◌, ◌&&◌, not, if◌then◌else◌, ite, length, arith, inl, inr, Bool-cases,
  Option-cases,
}
use mistlib.Base.Maps.{get, insert, get-insert}
use mistlib.Types.{NodeId, node_dec}
use mistlib.Messages.{
  OverlayAction, suspect_disconnected, clear_suspect, send_message, connect, disconnect,
  send_signaling,
}
use mistlib.Stats.{
  PingHealth, Health, default_health, or_default, note_ping_sent, note_inbound_activity,
  tick_suspects, handle_pong,
}
use mistlib.Stats.Latch.{
  entry_of, IsLatched, ping_entry-IsLatched, note-same, note-other, note-announces, inbound-none,
  inbound-some,
}

-- A ping round to some peers, a pong, and any other frame that a neighbour hands over.
pub data Event : Type 0 where
  tick : List NodeId → Event
  pong : NodeId → List ℕ → Event
  inbound : NodeId → Event

-- The first lines of `handle_envelope`.
abbrev pub note_inbound : NodeId → Health → List OverlayAction × Health
note_inbound from health =
    let (was_suspect, left) = note_inbound_activity from health in
    (if was_suspect then clear_suspect from ∷ [] else [], left)

abbrev pub step : ℕ → Event → Health → List OverlayAction × Health
step timeout_count (tick targets) health = tick_suspects timeout_count targets health
step timeout_count (pong from payload) health = handle_pong from payload health
step timeout_count (inbound from) health = note_inbound from health

abbrev pub run : ℕ → List Event → Health → List OverlayAction
run timeout_count [] health = []
run timeout_count (event ∷ events) health =
    let (actions, left) = step timeout_count event health in
    actions ++ run timeout_count events left

-- Whether a peer stands under suspicion after some actions, if `b` says whether it did before.
abbrev pub suspected : NodeId → Bool → List OverlayAction → Bool
suspected id b [] = b
suspected id b (suspect_disconnected j ∷ actions) =
    suspected id (ite (node_dec j id) true b) actions
suspected id b (clear_suspect j ∷ actions) = suspected id (ite (node_dec j id) false b) actions
suspected id b (_ ∷ actions) = suspected id b actions

-- No suspicion of a suspected peer, and no clearing of one that is not.
abbrev pub alternates : NodeId → Bool → List OverlayAction → Bool
alternates id b [] = true
alternates id b (suspect_disconnected j ∷ actions) =
    ite (node_dec j id) (not b && alternates id true actions) (alternates id b actions)
alternates id b (clear_suspect j ∷ actions) =
    ite (node_dec j id) (b && alternates id false actions) (alternates id b actions)
alternates id b (_ ∷ actions) = alternates id b actions

-- The notices of one peer, and its latch, between two states.
abbrev InEpisodes : NodeId → ℕ → Health → List OverlayAction → Health → Type 0
InEpisodes id timeout_count before actions after =
    IsLatched timeout_count (entry_of id after)
    × (alternates id (entry_of id before).suspect actions ≡ true)
    × (suspected id (entry_of id before).suspect actions ≡ (entry_of id after).suspect)

suspected-append :
    (id : NodeId) (xs ys : List OverlayAction) (b : Bool)
    → suspected id b (xs ++ ys) ≡ suspected id (suspected id b xs) ys
suspected-append id [] ys b = refl
suspected-append id (suspect_disconnected j ∷ xs) ys b = suspected-append id xs ys _
suspected-append id (clear_suspect j ∷ xs) ys b = suspected-append id xs ys _
suspected-append id (send_message to bytes method lane ∷ xs) ys b = suspected-append id xs ys b
suspected-append id (connect j ∷ xs) ys b = suspected-append id xs ys b
suspected-append id (disconnect j ∷ xs) ys b = suspected-append id xs ys b
suspected-append id (send_signaling to envelope ∷ xs) ys b = suspected-append id xs ys b

alternates-append :
    (id : NodeId) (xs ys : List OverlayAction) (b : Bool)
    → alternates id b xs ≡ true
    → alternates id (suspected id b xs) ys ≡ true
    → alternates id b (xs ++ ys) ≡ true
alternates-append id [] ys b p q = q
alternates-append id (suspect_disconnected j ∷ xs) ys b p q =
    ground (arith, alternates-append id xs ys true, alternates-append id xs ys b)
alternates-append id (clear_suspect j ∷ xs) ys b p q =
    ground (arith, alternates-append id xs ys false, alternates-append id xs ys b)
alternates-append id (send_message to bytes method lane ∷ xs) ys b p q =
    alternates-append id xs ys b p q
alternates-append id (connect j ∷ xs) ys b p q = alternates-append id xs ys b p q
alternates-append id (disconnect j ∷ xs) ys b p q = alternates-append id xs ys b p q
alternates-append id (send_signaling to envelope ∷ xs) ys b p q = alternates-append id xs ys b p q

-- One ping of a round, with what the rest of the round does.
announce-episodes :
    (id target : NodeId) (b b' announce z : Bool) (actions : List OverlayAction)
    → (target ≡ id → (announce ≡ (not b && b')) × (b ≡ true → b' ≡ true))
    → (¬ (target ≡ id) → b' ≡ b)
    → alternates id b' actions ≡ true
    → suspected id b' actions ≡ z
    → (alternates id b (if announce then suspect_disconnected target ∷ actions else actions) ≡ true)
      × (suspected id b (if announce then suspect_disconnected target ∷ actions else actions) ≡ z)
announce-episodes id target b b' announce z actions same other alt end = elim (node_dec target id) [
  | yes p ↦ ground (arith, same p, alt, end)
  | no n ↦ ground (arith, other n, alt, end)
]

tick-InEpisodes :
    (id : NodeId) (timeout_count : ℕ) (targets : List NodeId) (health : Health)
    → 1 ≤ timeout_count
    → timeout_count < 4294967295
    → IsLatched timeout_count (entry_of id health)
    → InEpisodes id timeout_count health
        (tick_suspects timeout_count targets health).0
        (tick_suspects timeout_count targets health).1
unfolding tick_suspects
tick-InEpisodes id timeout_count [] health low high good = (good, refl, refl)
tick-InEpisodes id timeout_count (target ∷ targets) health low high good =
    let noted = (note_ping_sent target timeout_count health).1 in
    let good' : IsLatched timeout_count (entry_of id noted) = elim (node_dec target id) [
      | yes p ↦
          subst (IsLatched timeout_count) (sym (note-same id target timeout_count health p))
            (ping_entry-IsLatched timeout_count (entry_of id health) low high good)
      | no n ↦
          subst (IsLatched timeout_count) (sym (note-other id target timeout_count health n)) good
    ] in
    let (left, alt, end) = tick-InEpisodes id timeout_count targets noted low high good' in
    let (alternate, latch) =
      announce-episodes id target (entry_of id health).suspect (entry_of id noted).suspect
        (ltb 0 timeout_count && (note_ping_sent target timeout_count health).0 == timeout_count) _
        (tick_suspects timeout_count targets noted).0
        (note-announces id target timeout_count health low high good)
        (λ n. ap (λ e. e.suspect) (note-other id target timeout_count health n)) alt end in
    (left, alternate, latch)

-- One notice of activity.
clear-episodes :
    (id from : NodeId) (b b' was : Bool)
    → (from ≡ id → (was ≡ b) × (b' ≡ false))
    → (¬ (from ≡ id) → b' ≡ b)
    → (alternates id b (if was then clear_suspect from ∷ [] else []) ≡ true)
      × (suspected id b (if was then clear_suspect from ∷ [] else []) ≡ b')
clear-episodes id from b b' was same other = elim (node_dec from id) [
  | yes p ↦ ground (arith, same p)
  | no n ↦ ground (arith, other n)
]

note_inbound-InEpisodes :
    (id from : NodeId) (timeout_count : ℕ) (health : Health)
    → 1 ≤ timeout_count
    → IsLatched timeout_count (entry_of id health)
    → InEpisodes id timeout_count health (note_inbound from health).0 (note_inbound from health).1
unfolding or_default
note_inbound-InEpisodes id from timeout_count health low good =
    elim (Option-cases (get node_dec from health)) [
      | inl e ↦ rw (inbound-none from health e) (good, refl, refl)
      | inr (entry, e) ↦
          let read = get-insert node_dec from id default_health health in
          let after : entry_of id (insert node_dec from default_health health)
              ≡ ite (node_dec from id) default_health (entry_of id health) =
            elim (node_dec from id) [
              | yes p ↦
                  ap or_default (read ∙ if_pos (node_dec from id) p _ _)
                  ∙ sym (if_pos (node_dec from id) p _ _)
              | no n ↦
                  ap or_default (read ∙ if_neg (node_dec from id) n _ _)
                  ∙ sym (if_neg (node_dec from id) n _ _)
            ] in
          let good' : IsLatched timeout_count
              (ite (node_dec from id) default_health (entry_of id health)) =
            ground (arith, good) in
          let (alternate, latch) =
            clear-episodes id from (entry_of id health).suspect
              (ite (node_dec from id) default_health (entry_of id health)).suspect entry.suspect
              (λ p. (
                ap (λ o. (or_default o).suspect) (sym e ∙ ap (λ j. get node_dec j health) p),
                ap (λ (r : PingHealth). r.suspect) (if_pos (node_dec from id) p _ _),
              ))
              (λ n. ap (λ (r : PingHealth). r.suspect) (if_neg (node_dec from id) n _ _)) in
          rw (inbound-some from health entry e, after) (good', alternate, latch)
    ]

handle_pong-InEpisodes :
    (id from : NodeId) (payload : List ℕ) (timeout_count : ℕ) (health : Health)
    → 1 ≤ timeout_count
    → IsLatched timeout_count (entry_of id health)
    → InEpisodes id timeout_count health
        (handle_pong from payload health).0
        (handle_pong from payload health).1
unfolding handle_pong
handle_pong-InEpisodes id from payload timeout_count health low good =
    elim (Bool-cases (ltb (length payload) 8)) [
      | inl e ↦ rw (e, handle_pong) (good, refl, refl)
      | inr e ↦ rw (e, handle_pong) (note_inbound-InEpisodes id from timeout_count health low good)
    ]

step-InEpisodes :
    (id : NodeId) (timeout_count : ℕ) (event : Event) (health : Health)
    → 1 ≤ timeout_count
    → timeout_count < 4294967295
    → IsLatched timeout_count (entry_of id health)
    → InEpisodes id timeout_count health
        (step timeout_count event health).0
        (step timeout_count event health).1
step-InEpisodes id timeout_count (tick targets) health low high good =
    tick-InEpisodes id timeout_count targets health low high good
step-InEpisodes id timeout_count (pong from payload) health low high good =
    handle_pong-InEpisodes id from payload timeout_count health low good
step-InEpisodes id timeout_count (inbound from) health low high good =
    note_inbound-InEpisodes id from timeout_count health low good

run-alternates_from :
    (id : NodeId) (timeout_count : ℕ) (events : List Event) (health : Health)
    → 1 ≤ timeout_count
    → timeout_count < 4294967295
    → IsLatched timeout_count (entry_of id health)
    → alternates id (entry_of id health).suspect (run timeout_count events health) ≡ true
run-alternates_from id timeout_count [] health low high good = refl
run-alternates_from id timeout_count (event ∷ events) health low high good =
    let (good', alternate, latch) = step-InEpisodes id timeout_count event health low high good in
    let rest =
      run-alternates_from id timeout_count events (step timeout_count event health).1 low high
        good' in
    alternates-append id (step timeout_count event health).0 _ _ alternate (rw latch rest)

-- Whatever ping rounds, pongs and other frames come, to and from whichever peers, the notices about a
-- peer alternate: a suspicion first, then a clearing, and so on. The threshold is neither 0, which
-- turns the detection off, nor `u32::MAX`, where the streak is saturated.
pub run-alternates :
    (id : NodeId) (timeout_count : ℕ) (events : List Event)
    → 1 ≤ timeout_count
    → timeout_count < 4294967295
    → alternates id false (run timeout_count events []) ≡ true
unfolding or_default
run-alternates id timeout_count events low high =
    run-alternates_from id timeout_count events [] low high ((λ h. refl), ground arith, omega arith)
