-- ===== src/Overlay/Router/Forward/Handled.antt =====
-- envelope.rs: an envelope is handled once, and where it goes from here.
use mistlib.Base.{
  ℕ, ◌+◌, ◌-◌, ◌≤◌, ◌<◌, ◌≡◌, refl, subst, length, All, arith, ap, ◌∙◌, sym, List, [], ◌∷◌, ◌++◌,
  true, false, ◌==◌, if◌then◌else◌, Bool-cases, inl, inr,
}
use mistlib.Base.Maps.{Uniq}
use mistlib.Types.{NodeId}
use mistlib.Messages.{OverlayEnvelope, OverlayAction, clear_suspect}
use mistlib.Overlay.RoutingTable.{is_same}
use mistlib.Overlay.Router.Dedupe.{OverlaySeenCache, check_and_insert, seen_dec}
use mistlib.Overlay.Router.Forward.{
  Router, Serialize, Strategy, HandleEnvelopeResult, handle_envelope, handle_fresh, mark_seen,
  remember_outgoing,
}
use mistlib.Stats.{Health, note_inbound_activity}
use mistlib.Util.{admit}
use mistlib.Util.Held.{Holds, StillHolds, admit-held, admit-StillHolds, admit-Holds}

-- What is told about the neighbour, and nothing else.
abbrev pub notices : NodeId → Health → List OverlayAction
notices from health = if (note_inbound_activity from health).0 then clear_suspect from ∷ [] else []

mark_seen-cases :
    (envelope : OverlayEnvelope) (now : ℕ) (router : Router)
    → (mark_seen envelope now router).0 ≡ true
    → (is_same envelope.from router.local_node_id ≡ false)
      × ((check_and_insert envelope.from envelope.msg_id now router.seen_envelopes).0 ≡ true)
      × ((mark_seen envelope now router).1 ≡ record router {
        seen_envelopes =
            (check_and_insert envelope.from envelope.msg_id now router.seen_envelopes).1;
      })
unfolding mark_seen
mark_seen-cases envelope now router h =
    elim (Bool-cases (is_same envelope.from router.local_node_id)) [
      | inl e ↦ let f : (mark_seen envelope now router).0 ≡ false = rw (e, mark_seen) refl in cc
      | inr e ↦
          let f : (mark_seen envelope now router).0
              ≡ (check_and_insert envelope.from envelope.msg_id now router.seen_envelopes).0 =
            rw (e, mark_seen) refl in
          (e, sym f ∙ h, rw (e, mark_seen) refl)
    ]

-- The router, with the health of the neighbour noted.
abbrev noted : NodeId → Router → Router
noted from router = record router { health = (note_inbound_activity from router.health).1 }

handle_envelope-new :
    (serialize : Serialize) (strategies : List Strategy) (envelope : OverlayEnvelope)
    (from : NodeId) (now : ℕ) (router : Router)
    → (mark_seen envelope now (noted from router)).0 ≡ true
    → handle_envelope serialize strategies envelope from now router ≡ (
      record {
        actions =
            notices from router.health
            ++ handle_fresh serialize strategies envelope from
                (mark_seen envelope now (noted from router)).1;
        should_deliver = true;
      },
      (mark_seen envelope now (noted from router)).1,
    )
unfolding handle_envelope
handle_envelope-new serialize strategies envelope from now router e = rw (e, handle_envelope) refl

handle_envelope-old :
    (serialize : Serialize) (strategies : List Strategy) (envelope : OverlayEnvelope)
    (from : NodeId) (now : ℕ) (router : Router)
    → (mark_seen envelope now (noted from router)).0 ≡ false
    → handle_envelope serialize strategies envelope from now router ≡ (
      record { actions = notices from router.health; should_deliver = false },
      (mark_seen envelope now (noted from router)).1,
    )
unfolding handle_envelope
handle_envelope-old serialize strategies envelope from now router e = rw (e, handle_envelope) refl

-- What a node does with its cache of envelopes: it is handed one by a neighbour, or it remembers one of
-- its own. Each has its time.
pub data Event : Type 0 where
  handed : OverlayEnvelope → NodeId → ℕ → Event
  remembered : OverlayEnvelope → ℕ → Event

abbrev pub time_of : Event → ℕ
time_of (handed envelope from now) = now
time_of (remembered envelope now) = now

abbrev pub step : Serialize → List Strategy → Event → Router → Router
step serialize strategies (handed envelope from now) router =
    (handle_envelope serialize strategies envelope from now router).1
step serialize strategies (remembered envelope now) router = remember_outgoing envelope now router

abbrev pub run : Serialize → List Strategy → List Event → Router → Router
run serialize strategies [] router = router
run serialize strategies (e ∷ events) router =
    run serialize strategies events (step serialize strategies e router)

-- Whether an envelope is taken or not, the router is the one that has marked it.
handle_envelope-marks :
    (serialize : Serialize) (strategies : List Strategy) (envelope : OverlayEnvelope)
    (from : NodeId) (now : ℕ) (router : Router)
    → (handle_envelope serialize strategies envelope from now router).1
      ≡ (mark_seen envelope now (noted from router)).1
handle_envelope-marks serialize strategies envelope from now router =
    elim (Bool-cases (mark_seen envelope now (noted from router)).0) [
      | inl e ↦
          ap (λ (r : HandleEnvelopeResult × Router). r.1)
            (handle_envelope-new serialize strategies envelope from now router e)
      | inr e ↦
          ap (λ (r : HandleEnvelopeResult × Router). r.1)
            (handle_envelope-old serialize strategies envelope from now router e)
    ]

module _ (key : NodeId × ℕ) (since : ℕ) where
  abbrev IsHeld : Router → Type 0
  IsHeld router = Holds seen_dec key since router.seen_envelopes

  abbrev StillHeld : Router → Router → Type 0
  StillHeld router after = StillHolds seen_dec key since router.seen_envelopes after.seen_envelopes

  check-StillHolds :
      (from : NodeId) (msg_id now : ℕ) (c : OverlaySeenCache)
      → Holds seen_dec key since c
      → now - since < c.ttl
      → length c.entries < c.max_entries
      → StillHolds seen_dec key since c (check_and_insert from msg_id now c).1
  unfolding check_and_insert
  check-StillHolds from msg_id now c held soon room = elim (Bool-cases (msg_id == 0)) [
    | inl no_id ↦ rw (no_id, check_and_insert) (held, omega arith, refl, refl)
    | inr some_id ↦
        rw (some_id, check_and_insert)
          (admit-StillHolds seen_dec key (from, msg_id) since now c held soon room)
  ]

  mark_seen-StillHeld :
      (envelope : OverlayEnvelope) (now : ℕ) (router : Router)
      → IsHeld router
      → now - since < router.seen_envelopes.ttl
      → length router.seen_envelopes.entries < router.seen_envelopes.max_entries
      → StillHeld router (mark_seen envelope now router).1
  unfolding mark_seen
  mark_seen-StillHeld envelope now router held soon room =
      elim (Bool-cases (is_same envelope.from router.local_node_id)) [
        | inl own ↦ rw (own, mark_seen) (held, omega arith, refl, refl)
        | inr other ↦
            rw (other, mark_seen)
              (check-StillHolds envelope.from envelope.msg_id now router.seen_envelopes held soon
                room)
      ]

  step-StillHeld :
      (serialize : Serialize) (strategies : List Strategy) (e : Event) (router : Router)
      → IsHeld router
      → time_of e - since < router.seen_envelopes.ttl
      → length router.seen_envelopes.entries < router.seen_envelopes.max_entries
      → StillHeld router (step serialize strategies e router)
  unfolding remember_outgoing
  step-StillHeld serialize strategies (handed envelope from now) router held soon room =
      rw (handle_envelope-marks serialize strategies envelope from now router)
        (mark_seen-StillHeld envelope now (noted from router) held soon room)
  step-StillHeld serialize strategies (remembered envelope now) router held soon room =
      check-StillHolds envelope.from envelope.msg_id now router.seen_envelopes held soon room

  run-IsHeld :
      (serialize : Serialize) (strategies : List Strategy) (events : List Event) (router : Router)
      → IsHeld router
      → All (λ e. time_of e - since < router.seen_envelopes.ttl) events
      → length router.seen_envelopes.entries + length events ≤ router.seen_envelopes.max_entries
      → IsHeld (run serialize strategies events router)
        × ((run serialize strategies events router).seen_envelopes.ttl ≡ router.seen_envelopes.ttl)
  run-IsHeld serialize strategies [] router held soon room = (held, refl)
  run-IsHeld serialize strategies (e ∷ events) router held (first, soon) room =
      let after = step serialize strategies e router in
      let (held', grown, same_ttl, same_cap) =
        step-StillHeld serialize strategies e router held first (omega (arith, room)) in
      let soon' : All (λ x. time_of x - since < after.seen_envelopes.ttl) events =
        subst (λ ttl. All (λ x. time_of x - since < ttl) events) (sym same_ttl) soon in
      let (last, ttl) =
        run-IsHeld serialize strategies events after held' soon'
          (omega (arith, grown, same_cap, room)) in
      (last, ttl ∙ same_ttl)

held-refused :
    (envelope : OverlayEnvelope) (since later : ℕ) (router : Router)
    → (envelope.msg_id == 0) ≡ false
    → IsHeld (envelope.from, envelope.msg_id) since router
    → later - since < router.seen_envelopes.ttl
    → (mark_seen envelope later router).0 ≡ false
unfolding mark_seen check_and_insert
held-refused envelope since later router some_id held soon =
    elim (Bool-cases (is_same envelope.from router.local_node_id)) [
      | inl own ↦ rw (own, mark_seen) refl
      | inr other ↦
          rw (other, mark_seen, some_id, check_and_insert)
            (admit-held seen_dec (envelope.from, envelope.msg_id) since later router.seen_envelopes
              held soon)
    ]

-- An envelope that is taken is held from then on.
taken-IsHeld :
    (envelope : OverlayEnvelope) (now : ℕ) (router : Router)
    → Uniq seen_dec router.seen_envelopes.entries
    → (envelope.msg_id == 0) ≡ false
    → (mark_seen envelope now router).0 ≡ true
    → IsHeld (envelope.from, envelope.msg_id) now (mark_seen envelope now router).1
      × ((mark_seen envelope now router).1.seen_envelopes.ttl ≡ router.seen_envelopes.ttl)
unfolding check_and_insert
taken-IsHeld envelope now router u some_id taken =
    let (other, fresh, after) = mark_seen-cases envelope now router taken in
    let same : check_and_insert envelope.from envelope.msg_id now router.seen_envelopes
        ≡ admit seen_dec (envelope.from, envelope.msg_id) now router.seen_envelopes =
      rw (some_id, check_and_insert) refl in
    let passed : (admit seen_dec (envelope.from, envelope.msg_id) now router.seen_envelopes).0
        ≡ true =
      ap (λ r. r.0) (sym same) ∙ fresh in
    let (held, ttl, cap) =
      admit-Holds seen_dec (envelope.from, envelope.msg_id) now router.seen_envelopes u passed in
    rw (after, same) (held, ttl)

-- An envelope with an id that a node has taken is not taken again within the time to live, whichever
-- neighbour hands it over, and whatever envelopes it is handed and remembers in between, as long as
-- the cache has room for them, so that none is evicted: it is not delivered, no strategy sees it,
-- nothing is forwarded, and all that comes of it is the notice that the neighbour is alive.
pub handle_envelope-again :
    (serialize : Serialize) (strategies : List Strategy) (envelope : OverlayEnvelope)
    (from from' : NodeId) (now later : ℕ) (events : List Event) (router : Router)
    → Uniq seen_dec router.seen_envelopes.entries
    → (envelope.msg_id == 0) ≡ false
    → (handle_envelope serialize strategies envelope from now router).0.should_deliver ≡ true
    → All
        (λ e.
          time_of e - now
          < (step serialize strategies (handed envelope from now) router).seen_envelopes.ttl)
        events
    → length (step serialize strategies (handed envelope from now) router).seen_envelopes.entries
        + length events
      ≤ (step serialize strategies (handed envelope from now) router).seen_envelopes.max_entries
    → later - now < (step serialize strategies (handed envelope from now) router).seen_envelopes.ttl
    → let left = run serialize strategies (handed envelope from now ∷ events) router in
      (handle_envelope serialize strategies envelope from' later left).0
      ≡ record { actions = notices from' left.health; should_deliver = false }
handle_envelope-again serialize strategies envelope from from' now later events router u some_id
      delivered between room soon =
    let first = handle_envelope serialize strategies envelope from now router in
    let left = run serialize strategies events first.1 in
    elim (Bool-cases (mark_seen envelope now (noted from router)).0) [
      | inr e ↦
          let f =
            ap (λ (r : HandleEnvelopeResult × Router). r.0.should_deliver)
              (handle_envelope-old serialize strategies envelope from now router e) in
          let clash : true ≡ false = sym delivered ∙ f in cc
      | inl e ↦
          let marks = handle_envelope-marks serialize strategies envelope from now router in
          let held : IsHeld (envelope.from, envelope.msg_id) now first.1 =
            subst (IsHeld (envelope.from, envelope.msg_id) now) (sym marks)
              (taken-IsHeld envelope now (noted from router) u some_id e).0 in
          let (last, ttl) =
            run-IsHeld (envelope.from, envelope.msg_id) now serialize strategies events first.1 held
              between room in
          ap (λ (r : HandleEnvelopeResult × Router). r.0)
            (handle_envelope-old serialize strategies envelope from' later left (
              held-refused envelope now later (noted from' left) some_id last
                (omega (arith, soon, ttl))))
    ]
