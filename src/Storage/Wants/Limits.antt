-- ===== src/Storage/Wants/Limits.antt =====
-- The limits of storage/protocol.rs on the registry, and the operations on its state that keep them.
use mistlib.Base.{
  ℕ, ◌+◌, ◌≤◌, ◌≡◌, inl, inr, refl, ap, sym, subst, List, [], ◌∷◌, Option, none, some, Bool, not,
  String, String_discrete, if◌then◌else◌, retain, map, length, length-retain-le, All, All-retain,
  arith, Option-cases,
}
use mistlib.Base.Maps.{
  get, insert, remove, Uniq, remove-Uniq, retain-Uniq, get-retain, length-remove-le, remove-insert,
  All-remove,
}
use mistlib.Types.{NodeId}
use mistlib.Storage.Wants.State.{
  PendingWant, ChunkAssembly, AssemblyKey, PathKey, key_dec, Pending, Assemblies, WantState,
  is_asked, is_wanted, wants_of, prune_wants, prune, exceeds, left_over, enforce_byte_limits,
  fulfill, observe, advance_progress, count_chunk,
}
use mistlib.Storage.Wants.Registry.{bytes_of}
use mistlib.Storage.Wants.Counts.{wants, wants-insert, wants-remove, wants-prune_wants, length-map}
use mistlib.Storage.Wants.Assembly.{IsPartial}

abbrev pub byte_sum : Assemblies → ℕ
byte_sum [] = 0
byte_sum ((key, entry) ∷ m) = entry.bytes + byte_sum m

-- What holds of the state between any two operations.
pub record IsGood (s : WantState) : Type 0 where
  pub few_wants : wants s.pending ≤ 1024
  pub few_assemblies : length s.assemblies ≤ 256
  pub few_bytes : byte_sum s.assemblies ≤ 67108864
  pub partials : All (λ (x : AssemblyKey × ChunkAssembly). IsPartial x.1) s.assemblies
  pub keys : Uniq key_dec s.assemblies

-- The sum that the code forms does not wrap.
pub bytes_of-byte_sum : (m : Assemblies) → byte_sum m ≤ 67108864 → bytes_of m ≡ byte_sum m
bytes_of-byte_sum [] h = refl
bytes_of-byte_sum ((key, entry) ∷ m) h = omega (arith, bytes_of-byte_sum m)

byte_sum-retain :
    (p : AssemblyKey × ChunkAssembly → Bool) (m : Assemblies) → byte_sum (retain p m) ≤ byte_sum m
byte_sum-retain p [] = omega arith
byte_sum-retain p ((key, entry) ∷ m) = ground (arith, byte_sum-retain p m)

abbrev pub bytes_at : Option ChunkAssembly → ℕ
bytes_at none = 0
bytes_at (some entry) = entry.bytes

pub byte_sum-insert :
    (k : AssemblyKey) (e : ChunkAssembly) (m : Assemblies)
    → byte_sum (insert key_dec k e m) + bytes_at (get key_dec k m) ≡ byte_sum m + e.bytes
byte_sum-insert k e [] = omega arith
byte_sum-insert k e ((j, w) ∷ m) = ground (arith, byte_sum-insert k e m)

pub byte_sum-remove :
    (k : AssemblyKey) (m : Assemblies)
    → byte_sum (remove key_dec k m) + bytes_at (get key_dec k m) ≤ byte_sum m
byte_sum-remove k [] = omega arith
byte_sum-remove k ((j, w) ∷ m) = ground (arith, byte_sum-remove k m)

abbrev pub Partials : Assemblies → Type 0
Partials m = All (λ (x : AssemblyKey × ChunkAssembly). IsPartial x.1) m

-- What an operation does to the assemblies at most: it drops some.
abbrev pub Drops : Assemblies → Assemblies → Type 0
Drops m m' =
    (length m' ≤ length m)
    × (byte_sum m' ≤ byte_sum m)
    × (Partials m → Partials m')
    × (Uniq key_dec m → Uniq key_dec m')

pub retain-Drops : (p : AssemblyKey × ChunkAssembly → Bool) (m : Assemblies) → Drops m (retain p m)
retain-Drops p m = (
  length-retain-le p m,
  byte_sum-retain p m,
  All-retain (λ (x : AssemblyKey × ChunkAssembly). IsPartial x.1) p m,
  retain-Uniq key_dec p m,
)

pub Drops-refl : (m : Assemblies) → Drops m m
Drops-refl m = (omega arith, omega arith, λ h. h, λ h. h)

-- A state with no more wants and some of the assemblies.
pub IsGood-fewer :
    (s s' : WantState)
    → wants s'.pending ≤ wants s.pending
    → Drops s.assemblies s'.assemblies
    → IsGood s
    → IsGood s'
IsGood-fewer s s' fewer (l, b, p, u) good = record {
  few_wants = omega (arith, good.few_wants);
  few_assemblies = omega (arith, good.few_assemblies);
  few_bytes = omega (arith, good.few_bytes);
  partials = p good.partials;
  keys = u good.keys;
}

left_le :
    (cid : String) (ws : List PendingWant) (m : Pending)
    → length ws ≤ length (wants_of cid m)
    → wants (left_over cid ws m) ≤ wants m
unfolding left_over
left_le cid [] m h = omega (arith, wants-remove cid m)
left_le cid (want ∷ others) m h =
    omega
      (arith, wants-remove cid m, wants-insert cid (want ∷ others) (remove String_discrete cid m))

module _ (closed : ℕ → Bool) (watched : PathKey → Bool) where
  pub prune-IsGood : (s : WantState) → IsGood s → IsGood (prune closed watched s)
  unfolding prune
  prune-IsGood s good =
      IsGood-fewer s (prune closed watched s) (wants-prune_wants closed s.pending)
        (retain-Drops _ s.assemblies) good

  pub enforce-IsGood :
      (cid : String) (sender : NodeId) (room : String) (bytes : ℕ) (s : WantState)
      → IsGood s
      → IsGood (enforce_byte_limits closed watched cid sender room bytes s).1
  unfolding enforce_byte_limits wants_of
  enforce-IsGood cid sender room bytes s good =
      elim (Option-cases (get String_discrete cid s.pending)) [
        | inl missing ↦ rw (missing, enforce_byte_limits) (prune-IsGood s good)
        | inr (ws, found) ↦
            let kept = retain (λ want. not (exceeds sender room bytes want)) ws in
            let s' : WantState = record s { pending = insert String_discrete cid kept s.pending } in
            let all : wants_of cid s.pending ≡ ws = rw (found, wants_of) refl in
            let fewer : wants s'.pending ≤ wants s.pending = omega (
              arith,
              wants-insert cid kept s.pending,
              length-retain-le (λ want. not (exceeds sender room bytes want)) ws,
              ap length all,
            ) in
            rw (found, enforce_byte_limits)
              (prune-IsGood s' (IsGood-fewer s s' fewer (Drops-refl s.assemblies) good))
      ]

  -- What is found of an assembly after the limits are enforced was there before.
  pub prune-found :
      (key : AssemblyKey) (e : ChunkAssembly) (s : WantState)
      → Uniq key_dec s.assemblies
      → get key_dec key (prune closed watched s).assemblies ≡ some e
      → get key_dec key s.assemblies ≡ some e
  unfolding prune
  prune-found key e s u h =
      let kept = get-retain key_dec (is_wanted (prune_wants closed s.pending)) key s.assemblies u in
      ground (arith, kept, h)

  pub enforce-found :
      (cid : String) (sender : NodeId) (room : String) (bytes : ℕ) (key : AssemblyKey)
      (e : ChunkAssembly) (s : WantState)
      → Uniq key_dec s.assemblies
      → get key_dec key (enforce_byte_limits closed watched cid sender room bytes s).1.assemblies
        ≡ some e
      → get key_dec key s.assemblies ≡ some e
  unfolding enforce_byte_limits
  enforce-found cid sender room bytes key e s u =
      elim (Option-cases (get String_discrete cid s.pending)) [
        | inl missing ↦ rw (missing, enforce_byte_limits) (prune-found key e s u)
        | inr (ws, found) ↦ rw (found, enforce_byte_limits) (prune-found key e _ u)
      ]

  pub fulfill-IsGood :
      (cid : String) (sender : NodeId) (room : String) (block : List ℕ) (s : WantState)
      → IsGood s
      → IsGood (fulfill closed watched cid sender room block s).1
  unfolding fulfill wants_of
  fulfill-IsGood cid sender room block s good =
      elim (Option-cases (get String_discrete cid s.pending)) [
        | inl missing ↦ rw (missing, fulfill) good
        | inr (ws, found) ↦
            let all : wants_of cid s.pending ≡ ws = rw (found, wants_of) refl in
            rw (found, fulfill)
              (prune-IsGood _ (
                IsGood-fewer s _
                  (left_le cid (retain (λ want. not (is_asked sender room want)) ws) s.pending (
                    omega (
                      arith,
                      ap length all,
                      length-retain-le (λ want. not (is_asked sender room want)) ws,
                    )))
                  (Drops-refl s.assemblies) good))
      ]

-- Counting changes neither the number of wants nor the assemblies.
pub observe-fewer :
    (now : ℕ) (cid : String) (sender : NodeId) (room : String) (b : Bool) (s : WantState)
    → (wants (observe now cid sender room b s).pending ≤ wants s.pending)
      × ((observe now cid sender room b s).assemblies ≡ s.assemblies)
unfolding observe wants_of
observe-fewer now cid sender room b s = elim (Option-cases (get String_discrete cid s.pending)) [
  | inl missing ↦ rw (missing, observe) (omega arith, refl)
  | inr (ws, found) ↦
      let all : wants_of cid s.pending ≡ ws = rw (found, wants_of) refl in
      let count = λ (want : PendingWant).
        if is_asked sender room want
        then record want { progress = count_chunk now b want.progress }
        else want in
      let fewer : wants (insert String_discrete cid (map count ws) s.pending) ≤ wants s.pending =
        omega
          (arith, wants-insert cid (map count ws) s.pending, length-map count ws, ap length all) in
      rw (found, observe) (fewer, refl)
]

pub observe-IsGood :
    (now : ℕ) (cid : String) (sender : NodeId) (room : String) (b : Bool) (s : WantState)
    → IsGood s
    → IsGood (observe now cid sender room b s)
observe-IsGood now cid sender room b s good =
    let (fewer, same) = observe-fewer now cid sender room b s in
    IsGood-fewer s (observe now cid sender room b s) fewer
      (subst (Drops s.assemblies) (sym same) (Drops-refl s.assemblies)) good

pub advance-IsGood :
    (now : ℕ) (sender : NodeId) (s : WantState) → IsGood s → IsGood (advance_progress now sender s)
unfolding advance_progress
advance-IsGood now sender s good =
    IsGood-fewer s (advance_progress now sender s) (omega arith) (Drops-refl s.assemblies) good

-- What dropping an assembly that was just stored leaves.
pub remove-Drops :
    (k : AssemblyKey) (e : ChunkAssembly) (m : Assemblies)
    → Drops m (remove key_dec k (insert key_dec k e m))
remove-Drops k e m = rw (remove-insert key_dec k e m) (
  length-remove-le key_dec k m,
  omega (arith, byte_sum-remove k m),
  All-remove key_dec (λ (x : AssemblyKey × ChunkAssembly). IsPartial x.1) k m,
  remove-Uniq key_dec k m,
)
