-- ===== src/Transport/LaneQueue/Barrier.antt =====
-- send.rs: no frame is lost, and the ordered writer gets its frames in their order.
use mistlib.Base.{
  ◌+◌, some_pair, ltb, ◌≡◌, refl, ap, ◌∙◌, sym, List, [], ◌∷◌, ◌++◌, Option, none, some, Bool, true,
  false, not, ◌&&◌, ◌||◌, if◌then◌else◌, arith, All, Bool-cases, Option-cases, inl, inr, ◌⊎◌,
}
use mistlib.Transport.LaneQueue.{
  SendClass, LaneQueue, is_bulk, extract, is_barrier, overtake, pop_bulk, pop_front, pop_frames,
  pop,
}

-- `f` stands in `before`, behind nothing that passes `p`, and `after` is `before` without it.
abbrev pub TakesFirst : {T : Type 0} → (T → Bool) → T → List T → List T → Type 0
TakesFirst {T} p f before after =
    (xs : List T) × (ys : List T) × (before ≡ xs ++ (f ∷ ys))
    × (after ≡ xs ++ ys)
    × All (λ x. p x ≡ false) xs

extract-TakesFirst :
    {T : Type 0} (p : T → Bool) (xs : List T) (f : T) (others : List T)
    → extract p xs ≡ some (f, others)
    → TakesFirst p f xs others × (p f ≡ true)
unfolding extract
extract-TakesFirst p [] f others h = cc
extract-TakesFirst p (x ∷ xs) f others h = elim (Bool-cases (p x)) [
  | inl e ↦
      let g : extract p (x ∷ xs) ≡ some (x, xs) = rw (e, extract) refl in
      let (same_f, same_others) = some_pair f x others xs (sym h ∙ g) in
      (([], xs, rw same_f refl, same_others, tt), rw same_f e)
  | inr e ↦ elim (Option-cases (extract p xs)) [
    | inl n ↦ let g : extract p (x ∷ xs) ≡ none = rw (e, extract, n) refl in cc
    | inr ((y, ys), s) ↦
        let g : extract p (x ∷ xs) ≡ some (y, x ∷ ys) = rw (e, extract, s) refl in
        let (same_f, same_others) = some_pair f y others (x ∷ ys) (sym h ∙ g) in
        let ((front, back, whole, left, clear), here) = extract-TakesFirst p xs y ys s in
        (
          (
            x ∷ front,
            back,
            rw same_f (ap (◌∷◌ x) whole),
            same_others ∙ ap (◌∷◌ x) left,
            (e, clear),
          ),
          rw same_f here,
        )
  ]
]

module _ {T : Type 0} (send_class : T → SendClass) (reliable_unordered : T → Bool) where
  -- A frame leaves the queue, from behind frames that the bulk writer may take only; the ordered writer
  -- is ready if it is the one to get it, and else the bulk writer is, and it may.
  abbrev pub Leaves : Bool → Bool → LaneQueue T → T → Bool → LaneQueue T → Type 0
  Leaves ordered_ready bulk_ready q f to_bulk left =
      TakesFirst (is_barrier send_class reliable_unordered q.priority) f q.frames left.frames
      × (left.priority ≡ q.priority)
      × (if to_bulk then bulk_ready else ordered_ready) ≡ true
      × (to_bulk ≡ true → is_barrier send_class reliable_unordered q.priority f ≡ false)

  -- What an operation that takes a frame from the queue has done.
  abbrev pub Outcome : Bool → Bool → LaneQueue T → Option (T × Bool) × LaneQueue T → Type 0
  Outcome ordered_ready bulk_ready q result =
      (result ≡ (none, q))
      ⊎ ((f : T) × (to_bulk : Bool) × (left : LaneQueue T) × (result ≡ (some (f, to_bulk), left))
          × Leaves ordered_ready bulk_ready q f to_bulk left)

  abbrev may_pass : LaneQueue T → T → T → Bool
  may_pass q a b =
      not q.priority
      || ((reliable_unordered a && not (is_bulk (send_class a).lane))
          || not (is_bulk (send_class b).lane))

  pub overtake-TakesFirst :
      (ordered_ready bulk_ready : Bool) (q : LaneQueue T) (first f : T) (left : LaneQueue T)
      → overtake send_class reliable_unordered ordered_ready bulk_ready q first ≡ some (f, left)
      → TakesFirst (is_barrier send_class reliable_unordered q.priority) f q.frames left.frames
        × (left.priority ≡ q.priority)
        × (ordered_ready ≡ true)
        × (is_barrier send_class reliable_unordered q.priority f ≡ true)
        × (left.control_burst ≡ q.control_burst + 1)
        × ((ltb q.control_burst 16 || not bulk_ready) ≡ true)
  unfolding overtake
  overtake-TakesFirst ordered_ready bulk_ready q first f left h =
      let over = overtake send_class reliable_unordered ordered_ready bulk_ready q first in
      elim (Bool-cases (ordered_ready && (ltb q.control_burst 16 || not bulk_ready))) [
        | inr e ↦ let g : over ≡ none = rw (e, overtake) refl in cc
        | inl e ↦
            elim (Option-cases
              (extract (is_barrier send_class reliable_unordered q.priority) q.frames)) [
                | inl n ↦ let g : over ≡ none = rw (e, overtake, n) refl in cc
                | inr ((x, others), s) ↦ elim (Bool-cases (may_pass q first x)) [
                  | inr stays ↦ let g : over ≡ none = rw (e, overtake, s, stays) refl in cc
                  | inl may_go ↦
                      let g : over
                          ≡ some (
                            x,
                            record q { frames = others; control_burst = q.control_burst + 1 },
                          ) =
                        rw (e, overtake, s, may_go) refl in
                      let (same_f, same_left) = some_pair f x left _ (sym h ∙ g) in
                      let (found, here) = extract-TakesFirst _ q.frames x others s in
                      rw (same_f, same_left)
                        (found, refl, ground (arith, e), here, refl, ground (arith, e))
                ]
              ]
      ]

  front-Outcome :
      (ordered_ready bulk_ready : Bool) (q left : LaneQueue T) (first : T) (rest : List T)
      (to_bulk : Bool)
      → q.frames ≡ first ∷ rest
      → left.frames ≡ rest
      → left.priority ≡ q.priority
      → (if to_bulk then bulk_ready else ordered_ready) ≡ true
      → (to_bulk ≡ true → is_barrier send_class reliable_unordered q.priority first ≡ false)
      → Outcome ordered_ready bulk_ready q (some (first, to_bulk), left)
  front-Outcome ordered_ready bulk_ready q left first rest to_bulk e same prio ready free =
      inr (first, to_bulk, left, refl, (([], rest, e, same, tt), prio, ready, free))

  pop_bulk-Outcome :
      (ordered_ready bulk_ready : Bool) (q : LaneQueue T) (first : T) (rest : List T)
      → q.frames ≡ first ∷ rest
      → is_barrier send_class reliable_unordered q.priority first ≡ false
      → Outcome ordered_ready bulk_ready q (
          pop_bulk send_class reliable_unordered bulk_ready
            (overtake send_class reliable_unordered ordered_ready bulk_ready q first)
            q
            first
            rest)
  unfolding pop_bulk
  pop_bulk-Outcome ordered_ready bulk_ready q first rest e free =
      elim (Option-cases
        (overtake send_class reliable_unordered ordered_ready bulk_ready q first)) [
          | inr ((f, left), s) ↦
              let (takes, prio, ready, _, _, _) =
                overtake-TakesFirst ordered_ready bulk_ready q first f left s in
              rw s (inr (f, false, left, refl, (takes, prio, ready, (λ h. cc))))
          | inl n ↦ elim (Bool-cases bulk_ready) [
            | inl b ↦
                rw (n, pop_bulk, b)
                  (front-Outcome ordered_ready true q _ first rest true e refl refl refl
                    (λ h. free))
            | inr b ↦ rw (n, pop_bulk, b) (inl refl)
          ]
        ]

  pop_front-Outcome :
      (ordered_ready bulk_ready : Bool) (q : LaneQueue T) (first : T) (rest : List T)
      → q.frames ≡ first ∷ rest
      → Outcome ordered_ready bulk_ready q
          (pop_front send_class reliable_unordered ordered_ready bulk_ready q first rest)
  unfolding pop_front pop_bulk is_barrier
  pop_front-Outcome ordered_ready bulk_ready q first rest e =
      elim (Bool-cases (not q.priority && not (reliable_unordered first))) [
        | inl fifo ↦ elim (Bool-cases ordered_ready) [
          | inl o ↦
              rw (fifo, pop_front, o)
                (front-Outcome true bulk_ready q _ first rest false e refl refl refl (λ h. cc))
          | inr o ↦ rw (fifo, pop_front, o) (inl refl)
        ]
        | inr lanes ↦
            elim (Bool-cases (reliable_unordered first || (send_class first).unsequenced_bulk)) [
              | inl free ↦
                  rw (lanes, pop_front, free)
                    (pop_bulk-Outcome ordered_ready bulk_ready q first rest e
                      (ground (arith, lanes, free)))
              | inr held ↦ elim (Bool-cases ordered_ready) [
                | inl o ↦
                    rw (lanes, pop_front, held, o)
                      (front-Outcome true bulk_ready q _ first rest false e refl refl refl
                        (λ h. cc))
                | inr o ↦ rw (lanes, pop_front, held, o) (inl refl)
              ]
            ]
      ]

  pop_frames-Outcome :
      (ordered_ready bulk_ready : Bool) (q : LaneQueue T) (frames : List T)
      → q.frames ≡ frames
      → Outcome ordered_ready bulk_ready q
          (pop_frames send_class reliable_unordered ordered_ready bulk_ready q frames)
  unfolding pop_frames
  pop_frames-Outcome ordered_ready bulk_ready q [] e = inl refl
  pop_frames-Outcome ordered_ready bulk_ready q (first ∷ rest) e =
      pop_front-Outcome ordered_ready bulk_ready q first rest e

  -- A pop takes at most one frame and loses none. The ordered writer gets the barriers in their order:
  -- whatever stands before the frame that leaves is free for the bulk channel; and the bulk writer only
  -- ever gets a frame that is.
  pub pop-Outcome :
      (ordered_ready bulk_ready : Bool) (q : LaneQueue T)
      → Outcome ordered_ready bulk_ready q
          (pop send_class reliable_unordered ordered_ready bulk_ready q)
  unfolding pop
  pop-Outcome ordered_ready bulk_ready q =
      pop_frames-Outcome ordered_ready bulk_ready q q.frames refl
