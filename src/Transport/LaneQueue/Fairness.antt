-- ===== src/Transport/LaneQueue/Fairness.antt =====
-- send.rs: a bulk frame at the front waits for sixteen controls at most.
use mistlib.Base.{
  ℕ, zero, suc, ◌+◌, ◌≤◌, ◌≡◌, refl, ap, ◌∙◌, sym, List, [], ◌∷◌, ◌++◌, some, Bool, true, false,
  not, ◌&&◌, ◌||◌, arith, Option-cases, inl, inr, ◌⊎◌,
}
use mistlib.Transport.LaneQueue.{
  SendClass, LaneQueue, is_barrier, overtake, pop_bulk, pop_front, pop_frames, pop,
}
use mistlib.Transport.LaneQueue.Barrier.{overtake-TakesFirst, TakesFirst}

-- Behind a front that does not pass, the front stays.
front-stays :
    {T : Type 0} (p : T → Bool) (f first : T) (rest before after : List T)
    → before ≡ first ∷ rest
    → p first ≡ false
    → p f ≡ true
    → TakesFirst p f before after
    → (others : List T) × (after ≡ first ∷ others)
front-stays p f first rest before after e free held ([], ys, whole, left, clear) =
    let same : f ≡ first = ground (arith, sym whole ∙ e) in
    absurd (let clash : true ≡ false = sym held ∙ ap p same ∙ free in cc)
front-stays p f first rest before after e free held (x ∷ xs, ys, whole, left, clear) =
    let same : x ≡ first = ground (arith, sym whole ∙ e) in
    (xs ++ ys, left ∙ ap (λ y. y ∷ (xs ++ ys)) same)

module _ {T : Type 0} (send_class : T → SendClass) (reliable_unordered : T → Bool) where
  -- Within `n` pops, with both writers ready, the bulk writer gets the frame at the front, and nothing
  -- else leaves with it; each pop before takes a frame for the ordered writer from behind it, which loses
  -- no other, and leaves it at the front.
  abbrev pub IsServed : ℕ → T → LaneQueue T → Type 0
  IsServed zero first q = ⊥
  IsServed (suc n) first q =
      let (taken, left) = pop send_class reliable_unordered true true q in
      ((taken ≡ some (first, true)) × (q.frames ≡ first ∷ left.frames))
      ⊎ ((f : T) × (taken ≡ some (f, false))
          × TakesFirst (is_barrier send_class reliable_unordered q.priority) f q.frames left.frames
          × ((others : List T) × (left.frames ≡ first ∷ others))
          × IsServed n first left)

  pop-free :
      (q : LaneQueue T) (first : T) (rest : List T)
      → q.frames ≡ first ∷ rest
      → is_barrier send_class reliable_unordered q.priority first ≡ false
      → pop send_class reliable_unordered true true q
        ≡ pop_bulk send_class reliable_unordered true
            (overtake send_class reliable_unordered true true q first)
            q
            first
            rest
  unfolding pop pop_frames pop_front is_barrier
  pop-free q first rest e free =
      let lanes : (not q.priority && not (reliable_unordered first)) ≡ false =
        ground (arith, free) in
      let bulky : (reliable_unordered first || (send_class first).unsequenced_bulk) ≡ true =
        ground (arith, free) in
      ap (pop_frames send_class reliable_unordered true true q) e
      ∙ rw (lanes, pop_front, bulky) refl

  IsServed-within :
      (n : ℕ) (q : LaneQueue T) (first : T) (rest : List T)
      → q.frames ≡ first ∷ rest
      → is_barrier send_class reliable_unordered q.priority first ≡ false
      → 17 ≤ n + q.control_burst
      → 1 ≤ n
      → IsServed n first q
  unfolding pop_bulk
  IsServed-within zero q first rest e free enough some_pop = absurd (omega arith)
  IsServed-within (suc n) q first rest e free enough some_pop =
      let popped = pop-free q first rest e free in
      elim (Option-cases (overtake send_class reliable_unordered true true q first)) [
        | inl n_over ↦ rw (popped, n_over) (inl (refl, e))
        | inr ((f, left), s) ↦
            let (takes, prio, _, held, burst, below) =
              overtake-TakesFirst send_class reliable_unordered true true q first f left s in
            let (others, stays) =
              front-stays _ f first rest q.frames left.frames e free held takes in
            let few : q.control_burst + 1 ≤ 16 = ground (arith, below) in
            let later : IsServed n first left =
              IsServed-within n left first others stays (rw prio free) (omega arith)
                (omega arith) in
            rw (popped, s) (inr (f, refl, takes, (others, stays), later))
      ]

  -- With both writers ready, a frame at the front that may take the bulk channel is handed to the bulk
  -- writer within seventeen pops, however many controls wait behind it: each pop before hands the
  -- ordered writer a frame from behind it, loses no other, and leaves it at the front.
  pub pop-IsServed :
      (q : LaneQueue T) (first : T) (rest : List T)
      → q.frames ≡ first ∷ rest
      → is_barrier send_class reliable_unordered q.priority first ≡ false
      → IsServed 17 first q
  pop-IsServed q first rest e free =
      IsServed-within 17 q first rest e free (omega arith) (omega arith)
