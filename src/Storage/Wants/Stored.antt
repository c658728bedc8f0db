-- ===== src/Storage/Wants/Stored.antt =====
-- What `fulfill_chunk_data_in` of storage/protocol.rs stores and hands out, by a log of the operations.
use mistlib.Base.{
  ℕ, inl, inr, sym, subst, List, [], ◌∷◌, none, some, Bool, String, String_discrete, retain, map,
  All, All-map, All-retain, All-append, Option-cases,
}
use mistlib.Base.Maps.{get}
use mistlib.Types.{NodeId}
use mistlib.Storage.Wants.State.{
  PendingWant, AssemblyKey, PathKey, Pending, WantState, Notice, completed, oversized, prune,
  exceeds, enforce_byte_limits, fulfill, observe,
}
use mistlib.Storage.Wants.Registry.{Outcome, prepend}
use mistlib.Storage.Wants.Limits.{observe-fewer}
use mistlib.Storage.Wants.Runs.{Op}
use mistlib.Storage.Wants.Asked.{Asked}
use mistlib.Storage.Wants.Parts.{IsPutTogether, EntryFrom, AllFrom}

-- A block that is handed out was put together of chunks that came, and was asked for.
abbrev pub IsBacked : List Op → AssemblyKey → ℕ → Pending → Notice → Type 0
IsBacked log (cid, (sender, room)) total pending (completed id full) =
    IsPutTogether log (cid, (sender, room)) total full × Asked sender room cid id pending
IsBacked log key total pending (oversized id bytes) = Unit

-- All that is sent is backed, and all that is stored came.
abbrev pub Backed : List Op → AssemblyKey → ℕ → Pending → Outcome → Type 0
Backed log key total pending none = Unit
Backed log key total pending (some (notices, r)) =
    All (IsBacked log key total pending) notices × AllFrom log r.state.assemblies

pub prepend-Backed :
    (log : List Op) (key : AssemblyKey) (total : ℕ) (pending : Pending) (errors : List Notice)
    (o : Outcome)
    → All (IsBacked log key total pending) errors
    → Backed log key total pending o
    → Backed log key total pending (prepend errors o)
unfolding prepend
prepend-Backed log key total pending errors none before h = h
prepend-Backed log key total pending errors (some (notices, r)) before h =
    (All-append (IsBacked log key total pending) errors notices before h.0, h.1)

-- What an earlier state was asked for.
pub Backed-earlier :
    (log : List Op) (key : AssemblyKey) (total : ℕ) (pending earlier : Pending) (o : Outcome)
    → ((id : ℕ) → Asked key.1.0 key.1.1 key.0 id pending → Asked key.1.0 key.1.1 key.0 id earlier)
    → Backed log key total pending o
    → Backed log key total earlier o
Backed-earlier log key total pending earlier none back h = h
Backed-earlier log key total pending earlier (some (notices, r)) back h = (
  All-map (IsBacked log key total pending) (IsBacked log key total earlier) (IsBacked-earlier)
      notices h.0,
  h.1,
)
  where
    IsBacked-earlier :
        (n : Notice) → IsBacked log key total pending n → IsBacked log key total earlier n
    IsBacked-earlier (completed id full) (put, asked) = (put, back id asked)
    IsBacked-earlier (oversized id bytes) h = tt

pub prune-AllFrom :
    (closed : ℕ → Bool) (watched : PathKey → Bool) (log : List Op) (s : WantState)
    → AllFrom log s.assemblies
    → AllFrom log (prune closed watched s).assemblies
unfolding prune
prune-AllFrom closed watched log s all = All-retain (EntryFrom log) _ s.assemblies all

pub observe-AllFrom :
    (now : ℕ) (cid : String) (sender : NodeId) (room : String) (b : Bool) (log : List Op)
    (s : WantState)
    → AllFrom log s.assemblies
    → AllFrom log (observe now cid sender room b s).assemblies
observe-AllFrom now cid sender room b log s all =
    subst (AllFrom log) (sym (observe-fewer now cid sender room b s).1) all

module _ (closed : ℕ → Bool) (watched : PathKey → Bool) (log : List Op) where
  pub enforce-AllFrom :
      (cid : String) (sender : NodeId) (room : String) (bytes : ℕ) (s : WantState)
      → AllFrom log s.assemblies
      → AllFrom log (enforce_byte_limits closed watched cid sender room bytes s).1.assemblies
  unfolding enforce_byte_limits
  enforce-AllFrom cid sender room bytes s all =
      elim (Option-cases (get String_discrete cid s.pending)) [
        | inl missing ↦ rw (missing, enforce_byte_limits) (prune-AllFrom closed watched log s all)
        | inr (ws, found) ↦
            rw (found, enforce_byte_limits)
              (prune-AllFrom closed watched log (record s { pending = _ }) all)
      ]

  pub fulfill-AllFrom :
      (cid : String) (sender : NodeId) (room : String) (block : List ℕ) (s : WantState)
      → AllFrom log s.assemblies
      → AllFrom log (fulfill closed watched cid sender room block s).1.assemblies
  unfolding fulfill
  fulfill-AllFrom cid sender room block s all =
      elim (Option-cases (get String_discrete cid s.pending)) [
        | inl missing ↦ rw (missing, fulfill) all
        | inr (ws, found) ↦
            rw (found, fulfill) (prune-AllFrom closed watched log (record s { pending = _ }) all)
      ]

  -- Errors say no more than a size.
  pub enforce-errors :
      (P : Notice → Type 0) (cid : String) (sender : NodeId) (room : String) (bytes : ℕ)
      (s : WantState)
      → ((id n : ℕ) → P (oversized id n))
      → All P (enforce_byte_limits closed watched cid sender room bytes s).0
  unfolding enforce_byte_limits
  enforce-errors P cid sender room bytes s h =
      elim (Option-cases (get String_discrete cid s.pending)) [
        | inl missing ↦ rw (missing, enforce_byte_limits) tt
        | inr (ws, found) ↦
            rw (found, enforce_byte_limits) (told (retain (exceeds sender room bytes) ws))
      ]
    where
      told : (ws : List PendingWant) → All P (map (λ want. oversized want.id bytes) ws)
      told [] = tt
      told (w ∷ ws) = (h w.id bytes, told ws)
