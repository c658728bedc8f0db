-- ===== src/Storage/Wants/Backed.antt =====
-- `fulfill_chunk_data_in` of storage/protocol.rs hands out only blocks of chunks that came and were asked
-- for.
use mistlib.Base.{
  ℕ, zero, suc, ◌+◌, ◌≡◌, inl, inr, refl, ap, ◌∙◌, sym, subst, List, Option, none, some, Bool, true,
  false, not, ◌||◌, ◌==◌, ltb, leb, String, length, All-map, arith, Option-cases, Bool-cases,
}
use mistlib.Base.Words.{sat_add64}
use mistlib.Base.Maps.{get, insert, remove, All-insert, All-remove, All-get}
use mistlib.Types.{NodeId}
use mistlib.Storage.Wants.State.{
  ChunkAssembly, AssemblyKey, PathKey, key_dec, Pending, WantState, Notice, completed, oversized,
  prune, accepts, enforce_byte_limits, observe, advance_progress,
}
use mistlib.Storage.Wants.Registry.{
  WantRegistry, replicate, new_assembly, store_chunk, assembled, chunk_at, is_over_limits,
  admit_chunk, limit_chunk, fulfill_chunk_data_in, max_want_chunks, reject,
}
use mistlib.Storage.Wants.Assembly.{IsPartial}
use mistlib.Storage.Wants.Limits.{
  IsGood, bytes_at, prune-IsGood, enforce-IsGood, enforce-found, observe-IsGood,
}
use mistlib.Storage.Wants.Runs.{Op, chunk}
use mistlib.Storage.Wants.Asked.{
  Asked, IsMeant, prune-Asked, observe-Asked, enforce-Asked, fulfill-IsMeant,
}
use mistlib.Storage.Wants.Parts.{
  SomeChunks, SomeChunks-set, length-set, SomeChunks-replicate, IsPutTogether, assembled-FromChunks,
  EntryFrom, AllFrom, Came,
}
use mistlib.Storage.Wants.Stored.{
  IsBacked, Backed, prepend-Backed, Backed-earlier, prune-AllFrom, observe-AllFrom, enforce-AllFrom,
  fulfill-AllFrom, enforce-errors,
}

length-replicate : (n : ℕ) → length {A = Option (List ℕ)} (replicate n none) ≡ n
length-replicate zero = refl
length-replicate (suc n) = ap suc (length-replicate n)

module _ (closed : ℕ → Bool) (watched : PathKey → Bool) (log : List Op) where
  backed :
      (key : AssemblyKey) (total : ℕ) (full : List ℕ) (later earlier : Pending)
      → IsPutTogether log key total full
      → ((id : ℕ) → Asked key.1.0 key.1.1 key.0 id later → Asked key.1.0 key.1.1 key.0 id earlier)
      → (n : Notice) → IsMeant key.1.0 key.1.1 key.0 full later n
      → IsBacked log key total earlier n
  backed key total full later earlier together back (completed id block) (same, asked) =
      (subst (IsPutTogether log key total) (sym same) together, back id asked)
  backed key total full later earlier together back (oversized id bytes) h = tt

  admit-Backed :
      (now : ℕ) (cid : String) (sender : NodeId) (room : String) (index total : ℕ) (block : List ℕ)
      (entry : ChunkAssembly) (r : WantRegistry)
      → Came log (chunk room cid sender index total block)
      → entry.total_chunks ≡ total
      → length entry.chunks ≡ total
      → SomeChunks log (cid, (sender, room)) total 0 entry.chunks
      → AllFrom log r.state.assemblies
      → Backed log
          (cid, (sender, room))
          total
          r.state.pending
          (admit_chunk closed watched now (cid, (sender, room)) index block entry r)
  unfolding admit_chunk advance_progress store_chunk
  admit-Backed now cid sender room index total block entry r came whole count from all =
      let key : AssemblyKey = (cid, (sender, room)) in
      let entry' = store_chunk index block entry in
      let came' : Came log (chunk room cid sender (0 + index) total block) =
        subst (λ j. Came log (chunk room cid sender j total block)) (omega arith) came in
      let from' : SomeChunks log key total 0 entry'.chunks =
        SomeChunks-set log key total 0 index block entry.chunks came' from in
      let own : SomeChunks log key entry'.total_chunks 0 entry'.chunks =
        subst (λ n. SomeChunks log key n 0 entry'.chunks) (sym whole) from' in
      let s : WantState = record r.state {
        assemblies = insert key_dec key entry' r.state.assemblies;
      } in
      let seen = observe now cid sender room true s in
      let stored : AllFrom log seen.assemblies =
        observe-AllFrom now cid sender room true log s
          (All-insert key_dec (EntryFrom log) key entry' r.state.assemblies own all) in
      elim (Option-cases (chunk_at index entry)) [
        | inl out ↦ rw (out, admit_chunk) tt
        | inr (o, there) ↦ elim (Bool-cases (entry'.received_chunks == entry'.total_chunks)) [
          | inr waits ↦ rw (there, admit_chunk, waits) (tt, stored)
          | inl complete ↦ elim (Option-cases (assembled entry'.chunks)) [
            | inl missing ↦ rw (there, admit_chunk, complete, missing) tt
            | inr (full, put) ↦
                let (parts, same, many, chunks) =
                  assembled-FromChunks log key total 0 entry'.chunks full put from' in
                let together : IsPutTogether log key total full = (
                  parts,
                  same,
                  many ∙ length-set entry.chunks index (some block) ∙ count,
                  chunks,
                ) in
                let gone = All-remove key_dec (EntryFrom log) key seen.assemblies stored in
                rw (there, admit_chunk, complete, put)
                  (
                    All-map (IsMeant sender room cid full seen.pending)
                        (IsBacked log key total r.state.pending)
                        (backed key total full seen.pending r.state.pending together
                          (λ id. observe-Asked sender room now cid sender room true cid id s))
                        _
                        (fulfill-IsMeant sender room closed watched cid full
                          (record (advance_progress now sender seen) {
                            assemblies = remove key_dec key seen.assemblies;
                          })),
                    fulfill-AllFrom closed watched log cid sender room full
                        (record (advance_progress now sender seen) {
                          assemblies = remove key_dec key seen.assemblies;
                        })
                        gone,
                  )
          ]
        ]
      ]

  limit-Backed :
      (now : ℕ) (cid : String) (sender : NodeId) (room : String) (index total : ℕ) (block : List ℕ)
      (r : WantRegistry)
      → IsGood r.state
      → Came log (chunk room cid sender index total block)
      → ((e : ChunkAssembly)
          → get key_dec (cid, (sender, room)) r.state.assemblies ≡ some e
          → e.total_chunks ≡ total)
      → AllFrom log r.state.assemblies
      → Backed log
          (cid, (sender, room))
          total
          r.state.pending
          (limit_chunk closed watched now
            (cid, (sender, room))
            index
            total
            block
            (get key_dec (cid, (sender, room)) r.state.assemblies)
            r)
  unfolding limit_chunk reject new_assembly
  limit-Backed now cid sender room index total block r good came whole all =
      let key : AssemblyKey = (cid, (sender, room)) in
      let bytes = sat_add64 (bytes_at (get key_dec key r.state.assemblies)) (length block) in
      let enforced = enforce_byte_limits closed watched cid sender room bytes r.state in
      let s = enforced.1 in
      let after : IsGood s = enforce-IsGood closed watched cid sender room bytes r.state good in
      let errors =
        enforce-errors closed watched log (IsBacked log key total r.state.pending) cid sender room
          bytes r.state (λ id n. tt) in
      let kept : AllFrom log s.assemblies =
        enforce-AllFrom closed watched log cid sender room bytes r.state all in
      let back =
        λ (id : ℕ). enforce-Asked sender room closed watched cid sender room bytes cid id r.state in
      elim (Bool-cases (
        is_over_limits closed watched cid sender room bytes block (get key_dec key s.assemblies)
          s)) [
            | inl over ↦ rw (over, limit_chunk) (errors, kept)
            | inr fits ↦
                rw (fits, limit_chunk)
                  (prepend-Backed log key total r.state.pending enforced.0 _ errors (
                    Backed-earlier log key total s.pending r.state.pending _ back
                      (elim (Option-cases (get key_dec key s.assemblies)) [
                        | inl missing ↦ rw missing (
                            admit-Backed now cid sender room index total block (new_assembly total)
                              (record r { state = s }) came refl (length-replicate total)
                              (SomeChunks-replicate log key total 0 total) kept)
                        | inr (e, found) ↦
                            let same : e.total_chunks ≡ total = whole e (
                              enforce-found closed watched cid sender room bytes key e r.state
                                good.keys found) in
                            let partial =
                              All-get key_dec (λ (x : AssemblyKey × ChunkAssembly). IsPartial x.1)
                                key e s.assemblies found after.partials in
                            let from =
                              All-get key_dec (EntryFrom log) key e s.assemblies found kept in
                            rw found (
                              admit-Backed now cid sender room index total block e
                                (record r { state = s }) came same (partial.whole ∙ same)
                                (subst (λ n. SomeChunks log key n 0 e.chunks) same from) kept)
                      ])))
          ]

  -- A chunk makes a block go out only if the block is put together of chunks that came, this one
  -- among them, and was asked for; and what is stored came.
  pub chunk-Backed :
      (now : ℕ) (room cid : String) (sender : NodeId) (index total : ℕ) (block : List ℕ)
      (r : WantRegistry)
      → IsGood r.state
      → Came log (chunk room cid sender index total block)
      → AllFrom log r.state.assemblies
      → Backed log
          (cid, (sender, room))
          total
          r.state.pending
          (fulfill_chunk_data_in closed watched now room cid sender index total block r)
  unfolding fulfill_chunk_data_in reject
  chunk-Backed now room cid sender index total block r good came all =
      let key : AssemblyKey = (cid, (sender, room)) in
      let pruned = prune closed watched r.state in
      let s = observe now cid sender room false pruned in
      let seen : IsGood s =
        observe-IsGood now cid sender room false pruned
          (prune-IsGood closed watched r.state good) in
      let kept : AllFrom log s.assemblies =
        observe-AllFrom now cid sender room false log pruned
          (prune-AllFrom closed watched log r.state all) in
      let back = λ (id : ℕ) (h : Asked sender room cid id s.pending).
        prune-Asked sender room closed watched cid id r.state
          (observe-Asked sender room now cid sender room false cid id pruned h) in
      let next =
        λ (whole : (e : ChunkAssembly)
            → get key_dec key s.assemblies ≡ some e
            → e.total_chunks ≡ total).
          Backed-earlier log key total s.pending r.state.pending _ back (
            limit-Backed now cid sender room index total block (record r { state = s }) seen came
              whole kept) in
      elim (Bool-cases (total == 0 || (ltb max_want_chunks total || leb total index))) [
        | inl bad ↦ rw (bad, fulfill_chunk_data_in) (tt, kept)
        | inr fine ↦ elim (Bool-cases (not (accepts closed watched cid sender room s))) [
          | inl refused ↦ rw (fine, fulfill_chunk_data_in, refused) (tt, kept)
          | inr wanted ↦ elim (Option-cases (get key_dec key s.assemblies)) [
            | inl missing ↦
                let step = next (λ e h. cc) in
                rw (fine, fulfill_chunk_data_in, wanted, missing) step
            | inr (entry, found) ↦ elim (Bool-cases (not (entry.total_chunks == total))) [
              | inl other ↦ rw (fine, fulfill_chunk_data_in, wanted, found, other) (tt, kept)
              | inr same ↦ elim (Option-cases (chunk_at index entry)) [
                | inl out ↦ rw (fine, fulfill_chunk_data_in, wanted, found, same, out) tt
                | inr (o, there) ↦ elim (Option-cases o) [
                  | inr (part, e) ↦
                      let twice : chunk_at index entry ≡ some (some part) = cc in
                      rw (fine, fulfill_chunk_data_in, wanted, found, same, twice) (tt, kept)
                  | inl e ↦
                      let free : chunk_at index entry ≡ some none = cc in
                      let step = next (λ e' h. ground (arith, same, h, found)) in
                      rw (fine, fulfill_chunk_data_in, wanted, found, same, free) step
                ]
              ]
            ]
          ]
        ]
      ]
