-- ===== src/Overlay/Router/Forward/Dispatch.antt =====
-- send.rs: what is committed for a message of this node.
use mistlib.Base.{
  ℕ, ◌≡◌, refl, ap, ◌∙◌, sym, List, [], ◌∷◌, Option, none, some, length, if◌then◌else◌, Bool-cases,
  inl, inr, ◌⊎◌,
}
use mistlib.Types.{NodeId, is_broadcast, DeliveryMethod}
use mistlib.Messages.{
  Result, MistError, ok, err, Result-cases, OverlayEnvelope, OverlayAction, send_message, classify,
  raw, new_envelope, with_seq,
}
use mistlib.Overlay.Router.Sequence.{
  SeqCounters, next_seq, note_seq, with_next_seq-err, with_next_seq-ok,
}
use mistlib.Overlay.Router.Forward.{
  Router, Serialize, storage_delivery, hop_for, build_frame, is_sequenced, dispatch_data_via, keep,
  remember_outgoing,
}

module _ {T : Type 0} (serialize : Serialize) (validate : ℕ → Result Unit)
    (commit : OverlayAction → Result T) (msg_id : ℕ) (to : NodeId) (next_hop : Option NodeId)
    (bytes : List ℕ) (method : DeliveryMethod) (now : ℕ) (router : Router) where
  -- The number that the frame takes.
  abbrev pub number : ℕ
  number = if is_sequenced to bytes method router then next_seq to router.seq_counters else 0

  abbrev pub envelope_of : ℕ → OverlayEnvelope
  envelope_of seq =
      with_seq seq (new_envelope msg_id router.local_node_id to router.hop_count (raw bytes))

  abbrev pub hop : NodeId
  hop = elim next_hop [ none ↦ hop_for to router | some pinned ↦ pinned ]

  abbrev pub action_of : ℕ → List ℕ → OverlayAction
  action_of seq encoded =
      send_message hop encoded
        (storage_delivery method (classify (raw bytes) (is_broadcast to)) seq router.bulk_channel)
        (classify (raw bytes) (is_broadcast to))

  abbrev frame : ℕ → List OverlayAction × Result (T × Router)
  frame = build_frame serialize validate commit msg_id to next_hop bytes method now router

  -- The envelope is not encoded, or it is too large.
  abbrev pub IsRefused : ℕ → MistError → Type 0
  IsRefused seq e =
      (serialize (envelope_of seq) ≡ err e)
      ⊎ ((encoded : List ℕ) × (serialize (envelope_of seq) ≡ ok encoded)
          × (validate (length encoded) ≡ err e))

  -- It is encoded, passes the size check and is handed over, with the result.
  abbrev pub IsHandedOver : ℕ → OverlayAction → Result T → Type 0
  IsHandedOver seq action result =
      (encoded : List ℕ) × (serialize (envelope_of seq) ≡ ok encoded)
      × (validate (length encoded) ≡ ok tt)
      × (action ≡ action_of seq encoded)
      × (commit action ≡ result)

  build_frame-cases :
      (seq : ℕ)
      → ((e : MistError) × (frame seq ≡ ([], err e)) × IsRefused seq e)
        ⊎ (((e : MistError) × (action : OverlayAction) × (frame seq ≡ (action ∷ [], err e))
              × IsHandedOver seq action (err e))
            ⊎ ((t : T) × (action : OverlayAction) × (frame seq
                  ≡ (action ∷ [], ok (t, remember_outgoing (envelope_of seq) now router)))
                × IsHandedOver seq action (ok t)))
  unfolding build_frame
  build_frame-cases seq = elim (Result-cases (serialize (envelope_of seq))) [
    | inl (e, s) ↦ inl (e, rw (s, build_frame) refl, inl s)
    | inr (encoded, s) ↦ elim (Result-cases (validate (length encoded))) [
      | inl (e, v) ↦ inl (e, rw (s, build_frame, v) refl, inr (encoded, s, v))
      | inr (u, v) ↦ elim (Result-cases (commit (action_of seq encoded))) [
        | inl (e, c) ↦ inr (
            inl
              (e, action_of seq encoded, rw (s, build_frame, v, c) refl, (encoded, s, v, refl, c)))
        | inr (t, c) ↦ inr (
            inr
              (t, action_of seq encoded, rw (s, build_frame, v, c) refl, (encoded, s, v, refl, c)))
      ]
    ]
  ]

  abbrev pub sent : List OverlayAction × (Result T × Router)
  sent = dispatch_data_via serialize validate commit msg_id to next_hop bytes method now router

  abbrev pub counters_after : SeqCounters
  counters_after =
      if is_sequenced to bytes method router
      then note_seq to number now router.seq_counters
      else router.seq_counters

  abbrev result_of : ℕ → Result (T × Router)
  result_of seq = (frame seq).1

  abbrev outcome : List OverlayAction × Result (T × Router) → Result (T × Router)
  outcome r = r.1

  abbrev handed : List OverlayAction × Result (T × Router) → List OverlayAction
  handed r = r.0

  dispatch-err :
      (actions : List OverlayAction) (e : MistError)
      → frame number ≡ (actions, err e)
      → sent ≡ (actions, (err e, router))
  unfolding dispatch_data_via keep
  dispatch-err actions e h = elim (Bool-cases (is_sequenced to bytes method router)) [
    | inl s ↦
        let h' : frame (next_seq to router.seq_counters) ≡ (actions, err e) =
          ap frame (sym (rw s refl)) ∙ h in
        rw
          (
            s,
            dispatch_data_via,
            with_next_seq-err to now result_of router.seq_counters e (ap outcome h'),
          )
          (ap (λ l. (l, (err e, router))) (ap handed h'))
    | inr s ↦
        let h' : frame 0 ≡ (actions, err e) = ap frame (sym (rw s refl)) ∙ h in
        rw (s, dispatch_data_via, h') refl
  ]

  dispatch-ok :
      (actions : List OverlayAction) (t : T) (after : Router)
      → frame number ≡ (actions, ok (t, after))
      → sent ≡ (actions, (ok t, record after { seq_counters = counters_after }))
  unfolding dispatch_data_via keep
  dispatch-ok actions t after h = elim (Bool-cases (is_sequenced to bytes method router)) [
    | inl s ↦
        let n : next_seq to router.seq_counters ≡ number = rw s refl in
        let h' : frame (next_seq to router.seq_counters) ≡ (actions, ok (t, after)) =
          ap frame n ∙ h in
        rw
          (
            s,
            dispatch_data_via,
            with_next_seq-ok to now result_of router.seq_counters (t, after) (ap outcome h'),
          )
          (ap
            (λ l. (
              l,
              (
                ok t,
                record after {
                  seq_counters =
                      note_seq to (next_seq to router.seq_counters) now router.seq_counters;
                },
              ),
            ))
            (ap handed h'))
    | inr s ↦
        let h' : frame 0 ≡ (actions, ok (t, after)) = ap frame (sym (rw s refl)) ∙ h in
        rw (s, dispatch_data_via, h') refl
  ]

  -- Refused before anything is handed over, refused by the transport, or sent.
  abbrev pub IsDispatched : Type 0
  IsDispatched =
      ((e : MistError) × (sent ≡ ([], (err e, router))) × IsRefused number e)
      ⊎ (((e : MistError) × (action : OverlayAction) × (sent ≡ (action ∷ [], (err e, router)))
            × IsHandedOver number action (err e))
          ⊎ ((t : T) × (action : OverlayAction) × (sent ≡ (
            action ∷ [],
            (
              ok t,
              record (remember_outgoing (envelope_of number) now router) {
                seq_counters = counters_after;
              },
            ),
          ))
              × IsHandedOver number action (ok t)))

  -- One of three things happens. The envelope is not encoded, or fails the size check: that error is
  -- returned, and nothing is handed to the transport. Or the transport refuses the one frame that it is
  -- handed: its error is returned. In both, the router is as it was, its counters and its cache
  -- included. Or the transport takes the one frame that it is handed: its result is returned, the
  -- envelope is remembered, and the number is consumed. A frame that is handed over has passed the size
  -- check, and is the encoding of the envelope with the number of its destination, or with 0 if it is
  -- not sequenced.
  pub dispatch_data_via-IsDispatched : IsDispatched
  dispatch_data_via-IsDispatched = elim (build_frame-cases number) [
    | inl (e, h, refused) ↦ inl (e, dispatch-err [] e h, refused)
    | inr (inl (e, action, h, handed_over)) ↦
        inr (inl (e, action, dispatch-err (action ∷ []) e h, handed_over))
    | inr (inr (t, action, h, handed_over)) ↦ inr (
        inr (
          t,
          action,
          dispatch-ok (action ∷ []) t (remember_outgoing (envelope_of number) now router) h,
          handed_over,
        ))
  ]
