-- ===== src/Transport/Capability.antt =====
-- mistlib-core/src/transport/reliable_unordered.rs: the optional channel of one peer connection. The
-- operations are atomic, so a run of threads is a sequence of them.
use mistlib.Base.{
  ℕ, ◌+◌, ◌≤◌, ◌≡◌, List, [], ◌∷◌, Option, none, some, Bool, true, false, not, ◌&&◌, ◌==◌,
  if◌then◌else◌, arith,
}

pub record Capability : Type 0 where
  pub local : Bool
  pub remote : Bool
  pub initial_offerer : Bool
  pub attempted : Bool
  pub disabled : Bool

unfoldable pub new_capability : Capability
new_capability = record {
  local = false;
  remote = false;
  initial_offerer = false;
  attempted = false;
  disabled = false;
}

abbrev is_one : Option ℕ → Bool
is_one none = false
is_one (some n) = n == 1

unfoldable pub accept_remote : Option ℕ → Capability → Capability
accept_remote advertised c = if is_one advertised then record c { remote = true } else c

unfoldable pub accepts_channel : Capability → Bool
accepts_channel c = c.local && (c.remote && not c.disabled)

-- `swap` on the last operand only.
unfoldable pub begin_open : Capability → Bool × Capability
begin_open c =
    if accepts_channel c && c.initial_offerer
    then (not c.attempted, record c { attempted = true })
    else (false, c)

pub data Call : Type 0 where
  set_local : Bool → Call
  hear : Option ℕ → Call
  set_initial_offerer try_open disable : Call

-- The state, and whether a channel is opened.
unfoldable pub call : Call → Capability → Bool × Capability
call (set_local enabled) c = (false, record c { local = enabled })
call (hear advertised) c = (false, accept_remote advertised c)
call set_initial_offerer c = (false, record c { initial_offerer = true })
call try_open c = begin_open c
call disable c = (false, record c { disabled = true })

-- How many channels some calls open.
abbrev pub opened : List Call → Capability → ℕ
opened [] c = 0
opened (x ∷ xs) c = let (is_open, left) = call x c in (if is_open then 1 else 0) + opened xs left

abbrev budget : Capability → ℕ
budget c = if c.attempted then 0 else 1

call-budget :
    (x : Call) (c : Capability) → (if (call x c).0 then 1 else 0) + budget (call x c).1 ≤ budget c
unfolding call begin_open accept_remote
call-budget (set_local enabled) c = ground arith
call-budget (hear advertised) c = ground arith
call-budget set_initial_offerer c = ground arith
call-budget try_open c = ground arith
call-budget disable c = ground arith

opened-budget : (xs : List Call) (c : Capability) → opened xs c ≤ budget c
opened-budget [] c = omega arith
opened-budget (x ∷ xs) c = omega (arith, opened-budget xs (call x c).1, call-budget x c)

-- A peer connection opens the channel at most once, whatever is called on it and in whichever order.
pub opened-once : (xs : List Call) → opened xs new_capability ≤ 1
unfolding new_capability
opened-once xs = opened-budget xs new_capability

-- Whether a call lets the channel be opened: both sides have announced it, this side made the first
-- offer, and the channel is not disabled.
pub begin_open-allowed :
    (c : Capability)
    → (begin_open c).0 ≡ true
    → (accepts_channel c ≡ true)
      × (c.initial_offerer ≡ true)
      × (c.attempted ≡ false)
      × ((begin_open (begin_open c).1).0 ≡ false)
unfolding begin_open accepts_channel
begin_open-allowed c h = ground arith
