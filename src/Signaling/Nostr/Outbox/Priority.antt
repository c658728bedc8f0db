-- ===== src/Signaling/Nostr/Outbox/Priority.antt =====
-- outbox.rs: the queue is bounded, what is dropped is the least urgent, and what is sent the most.
use mistlib.Base.{
  ℕ, suc, ◌+◌, ◌-◌, ◌≤◌, max, if◌then◌else◌, true, false, ◌≡◌, subst, refl, ap, ◌∙◌, sym, List, [],
  ◌∷◌, Option, none, some, length, ltb, leb, ◌==◌, arith, All, All-map, Bool-cases, Option-cases,
  inl, inr, length-append, some_pair, leb→le, not_leb→le,
}
use mistlib.Signaling.Nostr.Outbox.{
  capacity, DiscoveryRequest, DiscoveryOutbox, rank_of, lowest_of, remove_ranked, push, next_item,
  deadline, pop, DiscoveryPriority, reply, probe, ordinary, is_ordinary, or_at, paced,
  discovery_interval,
}

-- The first with a rank is found if there is one, and leaves one element less.
remove_ranked-length :
    (r : ℕ) (queue : List DiscoveryRequest) (found : DiscoveryRequest)
    (others : List DiscoveryRequest)
    → remove_ranked r queue ≡ some (found, others)
    → (length queue ≡ suc (length others)) × (rank_of found ≡ r)
remove_ranked-length r [] found others h = cc
remove_ranked-length r (item ∷ queue) found others h = elim (Bool-cases (rank_of item == r)) [
  | inl e ↦
      let g : remove_ranked r (item ∷ queue) ≡ some (item, queue) = rw (e, remove_ranked) refl in
      let (same, rest) = some_pair found item others queue (sym h ∙ g) in
      (ap (λ xs. suc (length xs)) (sym rest), ap rank_of same ∙ ground (arith, e))
  | inr e ↦ elim (Option-cases (remove_ranked r queue)) [
    | inl n ↦ let g : remove_ranked r (item ∷ queue) ≡ none = rw (e, remove_ranked, n) refl in cc
    | inr ((x, xs), s) ↦
        let g : remove_ranked r (item ∷ queue) ≡ some (x, item ∷ xs) =
          rw (e, remove_ranked, s) refl in
        let (same, rest) = some_pair found x others (item ∷ xs) (sym h ∙ g) in
        let (size, ranked) = remove_ranked-length r queue x xs s in
        (ap suc (size ∙ sym (ap length rest)), ap rank_of same ∙ ranked)
  ]
]

-- The queue keeps to its capacity.
pub push-bounded :
    (item : DiscoveryRequest) (box : DiscoveryOutbox)
    → length box.queue ≤ capacity
    → length (push item box).1.queue ≤ capacity
unfolding push
push-bounded item box h = elim (Bool-cases (length box.queue == capacity)) [
  | inr room ↦ rw (room, push) (ground (arith, room, length-append box.queue (item ∷ [])))
  | inl full ↦ elim (Bool-cases (ltb (lowest_of box.queue) (rank_of item))) [
    | inl refused ↦ rw (full, push, refused) h
    | inr urgent ↦ elim (Option-cases (remove_ranked (lowest_of box.queue) box.queue)) [
      | inl n ↦ rw (full, push, urgent, n) h
      | inr ((dropped, others), s) ↦
          let (size, ranked) = remove_ranked-length _ box.queue dropped others s in
          rw (full, push, urgent, s) (omega (arith, size, h, length-append others (item ∷ [])))
    ]
  ]
]

next_item-none : (queue : List DiscoveryRequest) → next_item queue ≡ none → queue ≡ []
unfolding next_item
next_item-none [] h = refl
next_item-none (x ∷ queue) h = elim (Option-cases (next_item queue)) [
  | inl n ↦ let g : next_item (x ∷ queue) ≡ some x = rw (n, next_item) refl in cc
  | inr (other, s) ↦ elim (Bool-cases (leb (rank_of x) (rank_of other))) [
    | inl e ↦ let g : next_item (x ∷ queue) ≡ some x = rw (s, next_item, e) refl in cc
    | inr e ↦ let g : next_item (x ∷ queue) ≡ some other = rw (s, next_item, e) refl in cc
  ]
]

-- No rank in the queue is below that of the next item.
next_item-least :
    (queue : List DiscoveryRequest) (item : DiscoveryRequest)
    → next_item queue ≡ some item
    → All (λ other. rank_of item ≤ rank_of other) queue
unfolding next_item
next_item-least [] item h = tt
next_item-least (x ∷ queue) item h = elim (Option-cases (next_item queue)) [
  | inl n ↦
      let g : next_item (x ∷ queue) ≡ some x = rw (n, next_item) refl in
      let same : item ≡ x = cc in rw (same, next_item-none queue n) (omega arith, tt)
  | inr (other, s) ↦
      let ih = next_item-least queue other s in
      elim (Bool-cases (leb (rank_of x) (rank_of other))) [
        | inl e ↦
            let g : next_item (x ∷ queue) ≡ some x = rw (s, next_item, e) refl in
            let same : item ≡ x = cc in
            let below = leb→le (rank_of x) (rank_of other) e in
            subst (λ y. All (λ o. rank_of y ≤ rank_of o) (x ∷ queue)) (sym same)
              (
                omega arith,
                All-map (λ o. rank_of other ≤ rank_of o) (λ o. rank_of x ≤ rank_of o)
                    (λ o le. omega (arith, le, below)) queue ih,
              )
        | inr e ↦
            let g : next_item (x ∷ queue) ≡ some other = rw (s, next_item, e) refl in
            let same : item ≡ other = cc in
            let above : rank_of other ≤ rank_of x = not_leb→le (rank_of x) (rank_of other) e in
            subst (λ y. All (λ o. rank_of y ≤ rank_of o) (x ∷ queue)) (sym same) (above, ih)
      ]
]

-- The next item is the first that has its rank.
remove_ranked-next :
    (queue : List DiscoveryRequest) (item : DiscoveryRequest)
    → next_item queue ≡ some item
    → (others : List DiscoveryRequest) × (remove_ranked (rank_of item) queue ≡ some (item, others))
unfolding next_item
remove_ranked-next [] item h = cc
remove_ranked-next (x ∷ queue) item h = elim (Option-cases (next_item queue)) [
  | inl n ↦
      let g : next_item (x ∷ queue) ≡ some x = rw (n, next_item) refl in
      let same : item ≡ x = cc in
      (
        queue,
        subst (λ y. remove_ranked (rank_of y) (x ∷ queue) ≡ some (y, queue)) (sym same)
            (first x queue),
      )
  | inr (other, s) ↦ elim (Bool-cases (leb (rank_of x) (rank_of other))) [
    | inl e ↦
        let g : next_item (x ∷ queue) ≡ some x = rw (s, next_item, e) refl in
        let same : item ≡ x = cc in
        (
          queue,
          subst (λ y. remove_ranked (rank_of y) (x ∷ queue) ≡ some (y, queue)) (sym same)
              (first x queue),
        )
    | inr e ↦
        let g : next_item (x ∷ queue) ≡ some other = rw (s, next_item, e) refl in
        let same : item ≡ other = cc in
        let (others, found) = remove_ranked-next queue other s in
        let differ : (rank_of x == rank_of other) ≡ false = ground (arith, e) in
        (
          x ∷ others,
          subst (λ y. remove_ranked (rank_of y) (x ∷ queue) ≡ some (y, x ∷ others)) (sym same)
              (rw (differ, remove_ranked, found) refl),
        )
  ]
]
  where
    first :
        (x : DiscoveryRequest) (queue : List DiscoveryRequest)
        → remove_ranked (rank_of x) (x ∷ queue) ≡ some (x, queue)
    first x queue =
        let equal : (rank_of x == rank_of x) ≡ true = ground arith in rw (equal, remove_ranked) refl

-- When a request may be sent: an ordinary one after its delay and the interval, both counted from the
-- last send or, before any, from when it was queued; any other one interval after the last send.
abbrev pub IsDue : ℕ → Option ℕ → DiscoveryRequest → DiscoveryPriority → Type 0
IsDue now none item ordinary = (item.queued_at + item.delay ≤ now) × (item.queued_at + 100 ≤ now)
IsDue now (some last) item ordinary = (last + item.delay ≤ now) × (last + 100 ≤ now)
IsDue now none item probe = Unit
IsDue now none item reply = Unit
IsDue now (some last) item probe = last + 100 ≤ now
IsDue now (some last) item reply = last + 100 ≤ now

-- By the priority, so that the test computes.
abbrev due_at : DiscoveryPriority → DiscoveryRequest → Option ℕ → ℕ → ℕ
due_at p item last_send now =
    if is_ordinary p
    then or_at last_send item.queued_at + max item.delay discovery_interval
    else paced last_send now

due_at-IsDue :
    (p : DiscoveryPriority) (item : DiscoveryRequest) (last_send : Option ℕ) (now : ℕ)
    → (due_at p item last_send now - now == 0) ≡ true
    → IsDue now last_send item p
due_at-IsDue ordinary item none now h = ground (arith, h)
due_at-IsDue ordinary item (some last) now h = ground (arith, h)
due_at-IsDue probe item none now h = tt
due_at-IsDue probe item (some last) now h = ground (arith, h)
due_at-IsDue reply item none now h = tt
due_at-IsDue reply item (some last) now h = ground (arith, h)

deadline-IsDue :
    (item : DiscoveryRequest) (last_send : Option ℕ) (now : ℕ)
    → (deadline item last_send now - now == 0) ≡ true
    → IsDue now last_send item item.priority
unfolding deadline
deadline-IsDue item last_send now h = due_at-IsDue item.priority item last_send now h

no_request :
    (found : DiscoveryRequest) (left box : DiscoveryOutbox)
    → ◌≡◌ {A = Option DiscoveryRequest × DiscoveryOutbox} (some found, left) (none, box)
    → ⊥
no_request found left box h =
    let e : some found ≡ none = ap (λ (r : Option DiscoveryRequest × DiscoveryOutbox). r.0) h in cc

some_found :
    (found : DiscoveryRequest) (left : DiscoveryOutbox) (x : DiscoveryRequest)
    (after : DiscoveryOutbox)
    → ◌≡◌ {A = Option DiscoveryRequest × DiscoveryOutbox} (some found, left) (some x, after)
    → (found ≡ x) × (left ≡ after)
some_found found left x after h =
    let e : some found ≡ some x = ap (λ (r : Option DiscoveryRequest × DiscoveryOutbox). r.0) h in
    (cc, ap (λ (r : Option DiscoveryRequest × DiscoveryOutbox). r.1) h)

-- A request that is popped is due, by its own priority, delay and time in the queue and by the last
-- send; no request that waits is more urgent, one request fewer waits, and the send is noted.
pub pop-urgent :
    (now : ℕ) (box : DiscoveryOutbox) (found : DiscoveryRequest) (left : DiscoveryOutbox)
    → pop now box ≡ (some found, left)
    → IsDue now box.last_send found found.priority
      × All (λ other. rank_of found ≤ rank_of other) box.queue
      × (length box.queue ≡ suc (length left.queue))
      × (left.last_send ≡ some now)
unfolding pop
pop-urgent now box found left h = elim (Option-cases (next_item box.queue)) [
  | inl n ↦
      let g : pop now box ≡ (none, box) = rw (n, pop) refl in
      absurd (no_request found left box (sym h ∙ g))
  | inr (item, s) ↦ elim (Bool-cases (deadline item box.last_send now - now == 0)) [
    | inr early ↦
        let g : pop now box ≡ (none, box) = rw (s, pop, early) refl in
        absurd (no_request found left box (sym h ∙ g))
    | inl due ↦
        let (others, r) = remove_ranked-next box.queue item s in
        let g : pop now box ≡ (some item, record { queue = others; last_send = some now }) =
          rw (s, pop, due, r) refl in
        let (size, ranked) = remove_ranked-length (rank_of item) box.queue item others r in
        let (same, rest) = some_found found left item _ (sym h ∙ g) in
        subst
          (λ x.
            IsDue now box.last_send x x.priority
            × All (λ other. rank_of x ≤ rank_of other) box.queue
            × (length box.queue ≡ suc (length left.queue))
            × (left.last_send ≡ some now))
          (sym same)
          (
            deadline-IsDue item box.last_send now due,
            next_item-least box.queue item s,
            rw rest size,
            rw rest refl,
          )
  ]
]
