-- ===== src/Transport/ByteBudget.antt =====
-- `ByteBudget` of mistlib-core/src/transport/send.rs, as a store with the permits that are out. `acquire` is one
-- attempt; the loop that waits for a change and the turn that makes it first come, first served are
-- those of the runtime.
use mistlib.Base.{
  ℕ, ◌+◌, ◌-◌, ◌≤◌, ◌≡◌, refl, ◌∙◌, List, [], ◌∷◌, Option, none, some, Bool, true, false, ◌&&◌,
  ◌||◌, ltb, leb, ◌==◌, min, if◌then◌else◌, arith, Bool-cases, inl, inr,
}
use mistlib.Messages.{MistError, network, message_too_large, Result, ok, err}

pub record ByteBudget : Type 0 where
  pub ceiling : ℕ
  pub limit : ℕ
  pub used : ℕ
  pub closed : Bool

unfoldable pub new_budget : ℕ → ByteBudget
new_budget limit = record { ceiling = limit; limit = limit; used = 0; closed = false }

unfoldable pub set_limit : ℕ → ByteBudget → ByteBudget
set_limit limit b = record b { limit = min limit b.ceiling }

abbrev pub closed_send : MistError
closed_send = network "send queue or channel closed"

unfoldable pub check : ℕ → ByteBudget → Result ℕ
check bytes b = if ltb b.ceiling bytes then err (message_too_large bytes b.ceiling) else ok bytes

-- The number of bytes of the permit, if one is given.
unfoldable pub acquire : ℕ → Bool → ByteBudget → Result (Option ℕ) × ByteBudget
acquire bytes received b =
    if b.closed
    then (err closed_send, b)
    else if leb (b.used + bytes) b.limit || (received && (b.used == 0 && ltb b.limit bytes))
    then (ok (some bytes), record b { used = b.used + bytes })
    else (ok none, b)

-- `shrink_to` of a permit, and its `drop` at 0.
unfoldable pub shrink_to : ℕ → ℕ → ByteBudget → ℕ × ByteBudget
shrink_to bytes permit b =
    let kept = min bytes permit in (kept, record b { used = b.used - (permit - kept) })

unfoldable pub close : ByteBudget → ByteBudget
close b = record b { closed = true }

-- What the bytes of a frame are charged as: a received one is cut to the ceiling.
unfoldable pub received_bytes : ℕ → ByteBudget → ℕ
received_bytes bytes b = min bytes b.ceiling

pub data Step : Type 0 where
  -- the bytes that the caller asks for
  reserve reserve_received : ℕ → Step
  -- the place of a permit, and what it is cut to
  shrink : ℕ → ℕ → Step
  resize : ℕ → Step
  shut : Step

-- The permits that are out.
abbrev pub total : List ℕ → ℕ
total [] = 0
total (p ∷ ps) = p + total ps

abbrev pub grant : Result (Option ℕ) × ByteBudget → List ℕ → List ℕ × ByteBudget
grant (ok (some p), b) permits = (p ∷ permits, b)
grant (_, b) permits = (permits, b)

abbrev pub shrink_at : ℕ → ℕ → List ℕ → ByteBudget → List ℕ × ByteBudget
shrink_at place bytes [] b = ([], b)
shrink_at place bytes (p ∷ permits) b =
    let (kept, left) = shrink_to bytes p b in
    let (others, after) = shrink_at (place - 1) bytes permits b in
    if place == 0 then (kept ∷ permits, left) else (p ∷ others, after)

unfoldable pub reserve_checked : Result ℕ → List ℕ → ByteBudget → List ℕ × ByteBudget
reserve_checked (err e) permits b = (permits, b)
reserve_checked (ok bytes) permits b = grant (acquire bytes false b) permits

unfoldable pub step : Step → List ℕ → ByteBudget → List ℕ × ByteBudget
step (reserve bytes) permits b = reserve_checked (check bytes b) permits b
step (reserve_received bytes) permits b = grant (acquire (received_bytes bytes b) true b) permits
step (shrink place bytes) permits b = shrink_at place bytes permits b
step (resize limit) permits b = (permits, set_limit limit b)
step shut permits b = (permits, close b)

-- The bytes in use are those of the permits that are out, and never more than the ceiling.
abbrev pub IsCharged : List ℕ → ByteBudget → Type 0
IsCharged permits b = (b.used ≡ total permits) × (b.used ≤ b.ceiling) × (b.limit ≤ b.ceiling)

acquire-IsCharged :
    (bytes : ℕ) (received : Bool) (permits : List ℕ) (b : ByteBudget)
    → bytes ≤ b.ceiling
    → IsCharged permits b
    → IsCharged
        (grant (acquire bytes received b) permits).0
        (grant (acquire bytes received b) permits).1
unfolding acquire
acquire-IsCharged bytes received permits b small h = ground arith

acquire-ceiling :
    (bytes : ℕ) (received : Bool) (permits : List ℕ) (b : ByteBudget)
    → (grant (acquire bytes received b) permits).1.ceiling ≡ b.ceiling
unfolding acquire
acquire-ceiling bytes received permits b = ground arith

-- A permit that shrinks gives back what it loses.
shrink_at-total :
    (place bytes : ℕ) (permits : List ℕ) (b : ByteBudget)
    → total permits ≤ b.used
    → ((shrink_at place bytes permits b).1.used + total permits
        ≡ b.used + total (shrink_at place bytes permits b).0)
      × ((shrink_at place bytes permits b).1.used ≤ b.used)
      × ((shrink_at place bytes permits b).1.ceiling ≡ b.ceiling)
      × ((shrink_at place bytes permits b).1.limit ≡ b.limit)
unfolding shrink_to
shrink_at-total place bytes [] b h = (omega arith, omega arith, refl, refl)
shrink_at-total place bytes (p ∷ permits) b h = elim (Bool-cases (place == 0)) [
  | inl e ↦ rw e (omega arith, omega arith, refl, refl)
  | inr e ↦
      let (sum, less, same, as_before) =
        shrink_at-total (place - 1) bytes permits b (omega arith) in
      rw e (omega arith, less, same, as_before)
]

step-IsCharged :
    (x : Step) (permits : List ℕ) (b : ByteBudget)
    → IsCharged permits b
    → IsCharged (step x permits b).0 (step x permits b).1
      × ((step x permits b).1.ceiling ≡ b.ceiling)
unfolding step set_limit close check reserve_checked received_bytes
step-IsCharged (reserve bytes) permits b h = elim (Bool-cases (ltb b.ceiling bytes)) [
  | inl e ↦ rw (e, check, reserve_checked) (h, refl)
  | inr e ↦
      let small : bytes ≤ b.ceiling = ground (arith, e) in
      rw (e, check, reserve_checked)
        (acquire-IsCharged bytes false permits b small h, acquire-ceiling bytes false permits b)
]
step-IsCharged (reserve_received bytes) permits b h =
    let small : received_bytes bytes b ≤ b.ceiling = omega arith in
    (
      acquire-IsCharged (received_bytes bytes b) true permits b small h,
      acquire-ceiling (received_bytes bytes b) true permits b,
    )
step-IsCharged (shrink place bytes) permits b h =
    let (sum, less, same, as_before) = shrink_at-total place bytes permits b (omega (arith, h.0)) in
    (
      (
        omega (arith, h.0, sum),
        omega (arith, h.1, less, same),
        omega (arith, h.2, same, as_before),
      ),
      same,
    )
step-IsCharged (resize limit) permits b h = ((h.0, h.1, omega arith), refl)
step-IsCharged shut permits b h = (h, refl)

abbrev pub run : List Step → List ℕ → ByteBudget → List ℕ × ByteBudget
run [] permits b = (permits, b)
run (x ∷ xs) permits b = let (left, after) = step x permits b in run xs left after

run-IsCharged_from :
    (xs : List Step) (permits : List ℕ) (b : ByteBudget)
    → IsCharged permits b
    → IsCharged (run xs permits b).0 (run xs permits b).1
      × ((run xs permits b).1.ceiling ≡ b.ceiling)
run-IsCharged_from [] permits b h = (h, refl)
run-IsCharged_from (x ∷ xs) permits b h =
    let (next, same) = step-IsCharged x permits b h in
    let (end, as_before) = run-IsCharged_from xs (step x permits b).0 (step x permits b).1 next in
    (end, as_before ∙ same)

-- Along any run of reservations, received or not, of permits that shrink or are dropped, of changes of
-- the limit and of closing, the bytes in use are those of the permits that are out, and they never
-- exceed the ceiling that the budget was made with.
pub run-IsCharged :
    (ceiling : ℕ) (xs : List Step)
    → IsCharged (run xs [] (new_budget ceiling)).0 (run xs [] (new_budget ceiling)).1
      × ((run xs [] (new_budget ceiling)).1.ceiling ≡ ceiling)
unfolding new_budget
run-IsCharged ceiling xs =
    run-IsCharged_from xs [] (new_budget ceiling) (refl, omega arith, omega arith)
