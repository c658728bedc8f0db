-- ===== src/Storage/Wants/Asked.antt =====
-- Who asked for what in storage/protocol.rs: the wants of the state after an operation are wants of the
-- state before it.
use mistlib.Base.{
  ℕ, ◌≡◌, ◌⊎◌, inl, inr, refl, subst, List, [], ◌∷◌, some, Bool, true, not, String, String_discrete,
  retain, map, All, All-map, arith, Option-cases, Bool-cases,
}
use mistlib.Base.Maps.{get, insert}
use mistlib.Types.{NodeId}
use mistlib.Storage.Wants.State.{
  PendingWant, PathKey, Pending, WantState, Notice, completed, oversized, is_asked, prune_wants,
  prune, enforce_byte_limits, fulfill, observe,
}

module _ (sender : NodeId) (room : String) where
  -- One of the wants has the number and asks this sender in this room.
  abbrev pub AnyAsked : ℕ → List PendingWant → Type 0
  AnyAsked id [] = ⊥
  AnyAsked id (w ∷ ws) = ((w.id ≡ id) × (is_asked sender room w ≡ true)) ⊎ AnyAsked id ws

  -- So does one of the wants of a CID.
  abbrev pub Asked : String → ℕ → Pending → Type 0
  Asked cid id [] = ⊥
  Asked cid id ((j, ws) ∷ m) = ((j ≡ cid) × AnyAsked id ws) ⊎ Asked cid id m

  AnyAsked-retain :
      (id : ℕ) (p : PendingWant → Bool) (ws : List PendingWant)
      → AnyAsked id (retain p ws)
      → AnyAsked id ws
  AnyAsked-retain id p [] h = h
  AnyAsked-retain id p (w ∷ ws) h = ground (arith, AnyAsked-retain id p ws)

  pub get-Asked :
      (cid : String) (id : ℕ) (ws : List PendingWant) (m : Pending)
      → get String_discrete cid m ≡ some ws
      → AnyAsked id ws
      → Asked cid id m
  get-Asked cid id ws [] h a = cc
  get-Asked cid id ws ((j, vs) ∷ m) h a = ground (arith, get-Asked cid id ws m, h, a)

  prune_wants-Asked :
      (closed : ℕ → Bool) (cid : String) (id : ℕ) (m : Pending)
      → Asked cid id (prune_wants closed m)
      → Asked cid id m
  unfolding prune_wants
  prune_wants-Asked closed cid id [] h = h
  prune_wants-Asked closed cid id ((j, ws) ∷ m) h = ground (
    arith,
    prune_wants-Asked closed cid id m,
    AnyAsked-retain id (λ want. not (closed want.id)) ws,
    h,
  )

  insert-Asked :
      (cid k : String) (id : ℕ) (ws : List PendingWant) (m : Pending)
      → Asked cid id (insert String_discrete k ws m)
      → ((k ≡ cid) × AnyAsked id ws) ⊎ Asked cid id m
  insert-Asked cid k id ws [] h = ground (arith, h)
  insert-Asked cid k id ws ((j, vs) ∷ m) h = ground (arith, insert-Asked cid k id ws m, h)

  put-Asked :
      (cid k : String) (id : ℕ) (ws ws' : List PendingWant) (m : Pending)
      → get String_discrete k m ≡ some ws
      → (AnyAsked id ws' → AnyAsked id ws)
      → Asked cid id (insert String_discrete k ws' m)
      → Asked cid id m
  put-Asked cid k id ws ws' m found back h = elim (insert-Asked cid k id ws' m h) [
    | inl (p, a) ↦
        get-Asked cid id ws m (subst (λ j. get String_discrete j m ≡ some ws) p found) (back a)
    | inr a ↦ a
  ]

  -- A want that is counted stays what it was.
  AnyAsked-map :
      (id : ℕ) (f : PendingWant → PendingWant) (ws : List PendingWant)
      → ((w : PendingWant)
          → ((f w).id ≡ w.id) × (is_asked sender room (f w) ≡ is_asked sender room w))
      → AnyAsked id (map f ws)
      → AnyAsked id ws
  AnyAsked-map id f [] same h = h
  AnyAsked-map id f (w ∷ ws) same h = ground (arith, same w, AnyAsked-map id f ws same, h)

  AnyAsked-all :
      (ws : List PendingWant)
      → All (λ (w : PendingWant). is_asked sender room w ≡ true → AnyAsked w.id ws) ws
  AnyAsked-all [] = tt
  AnyAsked-all (w ∷ ws) = (
    λ h. inl (refl, h),
    All-map (λ (v : PendingWant). is_asked sender room v ≡ true → AnyAsked v.id ws)
        (λ v. is_asked sender room v ≡ true → AnyAsked v.id (w ∷ ws)) (λ v f h. inr (f h)) ws
        (AnyAsked-all ws),
  )

  pub prune-Asked :
      (closed : ℕ → Bool) (watched : PathKey → Bool) (cid : String) (id : ℕ) (s : WantState)
      → Asked cid id (prune closed watched s).pending
      → Asked cid id s.pending
  unfolding prune
  prune-Asked closed watched cid id s h = prune_wants-Asked closed cid id s.pending h

  pub observe-Asked :
      (now : ℕ) (k : String) (from : NodeId) (in_room : String) (b : Bool) (cid : String) (id : ℕ)
      (s : WantState)
      → Asked cid id (observe now k from in_room b s).pending
      → Asked cid id s.pending
  unfolding observe is_asked
  observe-Asked now k from in_room b cid id s =
      elim (Option-cases (get String_discrete k s.pending)) [
        | inl missing ↦ rw (missing, observe) (λ h. h)
        | inr (ws, found) ↦
            rw (found, observe)
              (put-Asked cid k id ws _ s.pending found
                (AnyAsked-map id _ ws (λ w. (ground arith, ground arith))))
      ]

  pub enforce-Asked :
      (closed : ℕ → Bool) (watched : PathKey → Bool) (k : String) (from : NodeId) (in_room : String)
      (bytes : ℕ) (cid : String) (id : ℕ) (s : WantState)
      → Asked cid id (enforce_byte_limits closed watched k from in_room bytes s).1.pending
      → Asked cid id s.pending
  unfolding enforce_byte_limits
  enforce-Asked closed watched k from in_room bytes cid id s =
      elim (Option-cases (get String_discrete k s.pending)) [
        | inl missing ↦ rw (missing, enforce_byte_limits) (prune-Asked closed watched cid id s)
        | inr (ws, found) ↦
            rw (found, enforce_byte_limits)
              (λ h.
                put-Asked cid k id ws _ s.pending found (AnyAsked-retain id _ ws)
                  (prune-Asked closed watched cid id _ h))
      ]

  -- A block is handed out with what it is, and to those who asked for it.
  abbrev pub IsMeant : String → List ℕ → Pending → Notice → Type 0
  IsMeant cid block pending (completed id full) = (full ≡ block) × Asked cid id pending
  IsMeant cid block pending (oversized id bytes) = Unit

  map-IsMeant :
      (cid : String) (block : List ℕ) (m : Pending) (ws : List PendingWant)
      → All (λ (w : PendingWant). is_asked sender room w ≡ true → Asked cid w.id m) ws
      → All
          (IsMeant cid block m)
          (map (λ want. completed want.id block) (retain (is_asked sender room) ws))
  map-IsMeant cid block m [] h = tt
  map-IsMeant cid block m (w ∷ ws) h = elim (Bool-cases (is_asked sender room w)) [
    | inl e ↦ rw e ((refl, h.0 e), map-IsMeant cid block m ws h.1)
    | inr e ↦ rw e (map-IsMeant cid block m ws h.1)
  ]

  pub fulfill-IsMeant :
      (closed : ℕ → Bool) (watched : PathKey → Bool) (cid : String) (block : List ℕ) (s : WantState)
      → All (IsMeant cid block s.pending) (fulfill closed watched cid sender room block s).0
  unfolding fulfill
  fulfill-IsMeant closed watched cid block s =
      elim (Option-cases (get String_discrete cid s.pending)) [
        | inl missing ↦ rw (missing, fulfill) tt
        | inr (ws, found) ↦
            rw (found, fulfill)
              (map-IsMeant cid block s.pending ws (
                All-map (λ (w : PendingWant). is_asked sender room w ≡ true → AnyAsked w.id ws)
                  (λ w. is_asked sender room w ≡ true → Asked cid w.id s.pending)
                  (λ w f e. get-Asked cid w.id ws s.pending found (f e)) ws (AnyAsked-all ws)))
      ]
