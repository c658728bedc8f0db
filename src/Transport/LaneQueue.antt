-- ===== src/Transport/LaneQueue.antt =====
-- `LaneQueue` of mistlib-core/src/transport/send.rs, over frames with the class that `ScheduledSend` gives.
-- The streak of controls is a `usize`, which no run of a process exhausts.
pub mod Barrier
pub mod Fairness
use mistlib.Base.{
  ℕ, ◌+◌, List, [], ◌∷◌, ◌++◌, Option, none, some, Bool, true, false, not, ◌&&◌, ◌||◌, ltb,
  if◌then◌else◌,
}
use mistlib.Types.{SendLane, general, control, bulk}

pub record SendClass : Type 0 where
  pub lane : SendLane
  pub unsequenced_bulk : Bool

abbrev pub is_control : SendLane → Bool
is_control control = true
is_control _ = false

abbrev pub is_bulk : SendLane → Bool
is_bulk bulk = true
is_bulk _ = false

pub record LaneQueue (T : Type 0) : Type 0 where
  pub frames : List T
  pub priority : Bool
  pub control_burst : ℕ

unfoldable pub new_queue : {T : Type 0} → Bool → LaneQueue T
new_queue priority = record { frames = []; priority = priority; control_burst = 0 }

unfoldable pub push_back : {T : Type 0} → T → LaneQueue T → LaneQueue T
push_back frame q = record q { frames = q.frames ++ (frame ∷ []) }

-- The first element that passes, and the list without it: `position`, then `remove`.
unfoldable pub extract : {T : Type 0} → (T → Bool) → List T → Option (T × List T)
extract p [] = none
extract p (x ∷ xs) = elim (p x) [
  | true ↦ some (x, xs)
  | false ↦ elim (extract p xs) [ none ↦ none | some (y, ys) ↦ some (y, x ∷ ys) ]
]

module _ {T : Type 0} (send_class : T → SendClass) (reliable_unordered : T → Bool) where
  -- A frame that the ordered writer must take in its turn.
  unfoldable pub is_barrier : Bool → T → Bool
  is_barrier priority f =
      not (reliable_unordered f || (priority && (send_class f).unsequenced_bulk))

  -- The ordered frame that goes before the bulk frame `first` at the front.
  unfoldable pub overtake : Bool → Bool → LaneQueue T → T → Option (T × LaneQueue T)
  overtake ordered_ready bulk_ready q first =
      if ordered_ready && (ltb q.control_burst 16 || not bulk_ready)
      then elim (extract (is_barrier q.priority) q.frames) [
        | none ↦ none
        | some (f, others) ↦
            if not q.priority
              || ((reliable_unordered first && not (is_bulk (send_class first).lane))
                  || not (is_bulk (send_class f).lane))
            then some (f, record q { frames = others; control_burst = q.control_burst + 1 })
            else none
      ]
      else none

  -- A bulk frame at the front.
  unfoldable pub pop_bulk :
      Bool → Option (T × LaneQueue T) → LaneQueue T → T → List T → Option (T × Bool) × LaneQueue T
  pop_bulk bulk_ready (some (f, left)) q first rest = (some (f, false), left)
  pop_bulk bulk_ready none q first rest =
      if bulk_ready
      then (some (first, true), record q { frames = rest; control_burst = 0 })
      else (none, q)

  unfoldable pub pop_front :
      Bool → Bool → LaneQueue T → T → List T → Option (T × Bool) × LaneQueue T
  pop_front ordered_ready bulk_ready q first rest =
      if not q.priority && not (reliable_unordered first)
      then (if ordered_ready then (some (first, false), record q { frames = rest }) else (none, q))
      else if reliable_unordered first || (send_class first).unsequenced_bulk
      then pop_bulk bulk_ready (overtake ordered_ready bulk_ready q first) q first rest
      else if ordered_ready
      then (
        some (first, false),
        record q {
          frames = rest;
          control_burst = if is_control (send_class first).lane then q.control_burst + 1 else 0;
        },
      )
      else (none, q)

  unfoldable pub pop_frames : Bool → Bool → LaneQueue T → List T → Option (T × Bool) × LaneQueue T
  pop_frames ordered_ready bulk_ready q [] = (none, q)
  pop_frames ordered_ready bulk_ready q (first ∷ rest) =
      pop_front ordered_ready bulk_ready q first rest

  -- The frame, and whether the writer of the bulk channel takes it.
  unfoldable pub pop : Bool → Bool → LaneQueue T → Option (T × Bool) × LaneQueue T
  pop ordered_ready bulk_ready q = pop_frames ordered_ready bulk_ready q q.frames
