-- ===== src/Storage/Wants/Admitted.antt =====
-- The last parts of `fulfill_chunk_data_in` of storage/protocol.rs never panic, and keep the limits.
use mistlib.Base.{
  get_elem?, ℕ, zero, suc, ◌+◌, ◌≤◌, ◌<◌, ◌≡◌, inl, inr, refl, ap, ◌∙◌, sym, subst, List, Option,
  none, some, Bool, true, false, ◌==◌, String, length, arith, Option-cases, Bool-cases,
}
use mistlib.Base.Maps.{get, insert, remove, insert-Uniq, length-insert, All-insert, All-get}
use mistlib.Base.Words.{sat_add64}
use mistlib.Types.{NodeId}
use mistlib.Storage.Wants.State.{
  ChunkAssembly, AssemblyKey, PathKey, key_dec, WantState, Notice, enforce_byte_limits, observe,
  advance_progress,
}
use mistlib.Storage.Wants.Registry.{
  WantRegistry, Outcome, new_assembly, store_chunk, chunk_at, replicate, prepend, is_over_limits,
  admit_chunk, limit_chunk, reject, bytes_of,
}
use mistlib.Storage.Wants.Assembly.{
  IsPartial, filled, new_assembly-IsPartial, store_chunk-counts, assembled-some,
}
use mistlib.Storage.Wants.Limits.{
  IsGood, byte_sum, bytes_at, byte_sum-insert, Drops, remove-Drops, IsGood-fewer, enforce-IsGood,
  enforce-found, fulfill-IsGood, observe-fewer, observe-IsGood, advance-IsGood, bytes_of-byte_sum,
}

-- The code returns, and the state it leaves is good.
abbrev pub Returns : Outcome → Type 0
Returns none = ⊥
Returns (some (notices, r)) = IsGood r.state

-- The state with a chunk stored, if the assembly still waits.
stored-IsGood :
    (key : AssemblyKey) (entry entry' : ChunkAssembly) (s : WantState)
    → IsGood s
    → bytes_at (get key_dec key s.assemblies) ≡ entry.bytes
    → length (insert key_dec key entry' s.assemblies) ≤ 256
    → IsPartial entry'
    → byte_sum s.assemblies + entry'.bytes ≤ 67108864 + entry.bytes
    → IsGood (record s { assemblies = insert key_dec key entry' s.assemblies })
stored-IsGood key entry entry' s good old few partial sum = record {
  few_wants = good.few_wants;
  few_assemblies = few;
  few_bytes = omega (arith, byte_sum-insert key entry' s.assemblies);
  partials =
      All-insert key_dec (λ (x : AssemblyKey × ChunkAssembly). IsPartial x.1) key entry'
        s.assemblies partial good.partials;
  keys = insert-Uniq key_dec key entry' s.assemblies good.keys;
}

prepend-Returns : (errors : List Notice) (o : Outcome) → Returns o → Returns (prepend errors o)
unfolding prepend
prepend-Returns errors none h = h
prepend-Returns errors (some (notices, r)) h = h

replicate-free :
    (n i : ℕ) → i < n → get_elem? {A = Option (List ℕ)} (replicate n none) i ≡ some none
replicate-free zero i h = absurd (omega arith)
replicate-free (suc n) zero h = refl
replicate-free (suc n) (suc i) h = replicate-free n i (omega arith)

module _ (closed : ℕ → Bool) (watched : PathKey → Bool) where
  admit-Returns :
      (now : ℕ) (cid : String) (sender : NodeId) (room : String) (index : ℕ) (block : List ℕ)
      (entry : ChunkAssembly) (r : WantRegistry)
      → IsGood r.state
      → IsPartial entry
      → chunk_at index entry ≡ some none
      → entry.bytes + length block ≤ 8388608
      → bytes_at (get key_dec (cid, (sender, room)) r.state.assemblies) ≡ entry.bytes
      → ((e : ChunkAssembly)
          → length (insert key_dec (cid, (sender, room)) e r.state.assemblies) ≤ 256)
      → byte_sum r.state.assemblies + length block ≤ 67108864
      → Returns (admit_chunk closed watched now (cid, (sender, room)) index block entry r)
  unfolding admit_chunk advance_progress
  admit-Returns now cid sender room index block entry r good partial free small old few sum =
      let key : AssemblyKey = (cid, (sender, room)) in
      let entry' = store_chunk index block entry in
      let (whole, counted, summed, bytes, more, same) =
        store_chunk-counts index block entry partial free small in
      let s : WantState = record r.state {
        assemblies = insert key_dec key entry' r.state.assemblies;
      } in
      let seen = observe now cid sender room true s in
      elim (Bool-cases (entry'.received_chunks == entry'.total_chunks)) [
        | inr waits ↦
            let lt : entry'.received_chunks < entry'.total_chunks =
              ground (arith, waits, more, same, partial.waits) in
            let partial' : IsPartial entry' = record {
              whole = whole ∙ sym same;
              counted = counted;
              summed = summed;
              waits = lt;
              few = omega (arith, partial.few);
              small = omega arith;
            } in
            let stored : IsGood s =
              stored-IsGood key entry entry' r.state good old (few entry') partial' (omega arith) in
            rw (free, admit_chunk, waits)
              (advance-IsGood now sender seen (observe-IsGood now cid sender room true s stored))
        | inl complete ↦
            let full_count : filled entry'.chunks ≡ length entry'.chunks =
              ground (arith, complete, counted, whole, same) in
            let (full, put_together, size) = assembled-some entry'.chunks full_count in
            let (fewer, kept) = observe-fewer now cid sender room true s in
            let dropped : Drops r.state.assemblies (remove key_dec key seen.assemblies) =
              subst (λ m. Drops r.state.assemblies (remove key_dec key m)) (sym kept)
                (remove-Drops key entry' r.state.assemblies) in
            rw (free, admit_chunk, complete, put_together)
              (fulfill-IsGood closed watched cid sender room full _
                (IsGood-fewer r.state _ fewer dropped good))
      ]

  -- What the tests say of a chunk that passes them.
  fits-limits :
      (cid : String) (sender : NodeId) (room : String) (bytes : ℕ) (block : List ℕ)
      (found : Option ChunkAssembly) (s : WantState)
      → is_over_limits closed watched cid sender room bytes block found s ≡ false
      → bytes_of s.assemblies ≡ byte_sum s.assemblies
      → byte_sum s.assemblies ≤ 67108864
      → (bytes ≤ 8388608)
        × (found ≡ none → length s.assemblies < 256)
        × (length block ≤ 8388608 → byte_sum s.assemblies + length block ≤ 67108864)
  unfolding is_over_limits
  fits-limits cid sender room bytes block found s fits sums small = ground arith

  -- With what is known when the limits are tested.
  pub limit-Returns :
      (now : ℕ) (cid : String) (sender : NodeId) (room : String) (index total : ℕ) (block : List ℕ)
      (r : WantRegistry)
      → IsGood r.state
      → total ≤ 8192
      → index < total
      → ((e : ChunkAssembly)
          → get key_dec (cid, (sender, room)) r.state.assemblies ≡ some e
          → chunk_at index e ≡ some none)
      → Returns (
          limit_chunk closed watched now
            (cid, (sender, room))
            index
            total
            block
            (get key_dec (cid, (sender, room)) r.state.assemblies)
            r)
  unfolding limit_chunk reject new_assembly
  limit-Returns now cid sender room index total block r good few within free =
      let key : AssemblyKey = (cid, (sender, room)) in
      let before = get key_dec key r.state.assemblies in
      let held = bytes_at before in
      let bytes = sat_add64 held (length block) in
      let enforced = enforce_byte_limits closed watched cid sender room bytes r.state in
      let s = enforced.1 in
      let after : IsGood s = enforce-IsGood closed watched cid sender room bytes r.state good in
      let sums : bytes_of s.assemblies ≡ byte_sum s.assemblies =
        bytes_of-byte_sum s.assemblies after.few_bytes in
      elim (Bool-cases (
        is_over_limits closed watched cid sender room bytes block (get key_dec key s.assemblies)
          s)) [
            | inl over ↦ rw (over, limit_chunk) after
            | inr fits ↦
                let (small, few_here, room_here) =
                  fits-limits cid sender room bytes block (get key_dec key s.assemblies) s fits sums
                    after.few_bytes in
                rw (fits, limit_chunk)
                  (prepend-Returns _ _ (elim (Option-cases (get key_dec key s.assemblies)) [
                    | inl missing ↦
                        let least : length block ≤ 8388608 = omega (arith, small) in
                        rw missing (
                          admit-Returns now cid sender room index block (new_assembly total)
                            (record r { state = s }) after
                            (new_assembly-IsPartial total (omega arith) few)
                            (replicate-free total index within) (omega (arith, least))
                            (ap bytes_at missing)
                            (λ e. ground (
                              arith,
                              length-insert key_dec key e s.assemblies,
                              few_here missing,
                              missing,
                            ))
                            (room_here least))
                    | inr (e, found) ↦
                        let was =
                          enforce-found closed watched cid sender room bytes key e r.state good.keys
                            found in
                        let of_before : held ≡ e.bytes = ap bytes_at was in
                        let total_bytes : e.bytes + length block ≤ 8388608 =
                          omega (arith, small, of_before) in
                        rw found (
                          admit-Returns now cid sender room index block e (record r { state = s })
                            after
                            (All-get key_dec (λ (x : AssemblyKey × ChunkAssembly). IsPartial x.1)
                              key e s.assemblies found after.partials)
                            (free e was) total_bytes (ap bytes_at found)
                            (λ e'. ground (
                              arith,
                              length-insert key_dec key e' s.assemblies,
                              after.few_assemblies,
                              found,
                            ))
                            (room_here (omega arith)))
                  ]))
          ]
