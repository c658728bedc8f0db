-- ===== src/Storage/Wants/Assembly.antt =====
-- The chunks of one block in storage/protocol.rs: what an assembly that waits for chunks looks like.
use mistlib.Base.{
  get_elem?, ℕ, zero, suc, ◌+◌, ◌≤◌, ◌<◌, ◌≡◌, refl, List, [], ◌∷◌, ◌++◌, Option, none, some,
  length, length-append, arith,
}
use mistlib.Storage.Wants.State.{ChunkAssembly}
use mistlib.Storage.Wants.Registry.{set, replicate, new_assembly, store_chunk, assembled, chunk_at}

-- The chunks that are there, and their bytes.
abbrev pub filled : List (Option (List ℕ)) → ℕ
filled [] = 0
filled (none ∷ chunks) = filled chunks
filled (some part ∷ chunks) = suc (filled chunks)

abbrev pub held : List (Option (List ℕ)) → ℕ
held [] = 0
held (none ∷ chunks) = held chunks
held (some part ∷ chunks) = length part + held chunks

pub record IsPartial (e : ChunkAssembly) : Type 0 where
  pub whole : length e.chunks ≡ e.total_chunks
  pub counted : e.received_chunks ≡ filled e.chunks
  pub summed : e.bytes ≡ held e.chunks
  pub waits : e.received_chunks < e.total_chunks
  pub few : e.total_chunks ≤ 8192
  pub small : e.bytes ≤ 8388608

filled-replicate :
    (n : ℕ)
    → (length {A = Option (List ℕ)} (replicate n none) ≡ n)
      × (filled (replicate n none) ≡ 0)
      × (held (replicate n none) ≡ 0)
filled-replicate zero = (refl, refl, refl)
filled-replicate (suc n) =
    let (a, b, c) = filled-replicate n in (omega arith, omega arith, omega arith)

pub new_assembly-IsPartial : (n : ℕ) → 1 ≤ n → n ≤ 8192 → IsPartial (new_assembly n)
unfolding new_assembly
new_assembly-IsPartial n low high = omega (arith, filled-replicate n)

filled-le : (cs : List (Option (List ℕ))) → filled cs ≤ length cs
filled-le [] = omega arith
filled-le (none ∷ cs) = omega (arith, filled-le cs)
filled-le (some p ∷ cs) = omega (arith, filled-le cs)

filled-set :
    (cs : List (Option (List ℕ))) (i : ℕ) (part : List ℕ)
    → get_elem? cs i ≡ some none
    → (length (set cs i (some part)) ≡ length cs)
      × (filled (set cs i (some part)) ≡ suc (filled cs))
      × (held (set cs i (some part)) ≡ held cs + length part)
      × (filled cs < length cs)
filled-set [] i part h = cc
filled-set (none ∷ cs) zero part h = (refl, refl, omega arith, omega (arith, filled-le cs))
filled-set (some p ∷ cs) zero part h = cc
filled-set (none ∷ cs) (suc i) part h =
    let (a, b, c, d) = filled-set cs i part h in
    (omega arith, omega arith, omega arith, omega arith)
filled-set (some p ∷ cs) (suc i) part h =
    let (a, b, c, d) = filled-set cs i part h in
    (omega arith, omega arith, omega arith, omega arith)

-- What storing a chunk at a free index does.
pub store_chunk-counts :
    (i : ℕ) (part : List ℕ) (e : ChunkAssembly)
    → IsPartial e
    → chunk_at i e ≡ some none
    → e.bytes + length part ≤ 8388608
    → (length (store_chunk i part e).chunks ≡ e.total_chunks)
      × ((store_chunk i part e).received_chunks ≡ filled (store_chunk i part e).chunks)
      × ((store_chunk i part e).bytes ≡ held (store_chunk i part e).chunks)
      × ((store_chunk i part e).bytes ≡ e.bytes + length part)
      × ((store_chunk i part e).received_chunks ≡ e.received_chunks + 1)
      × ((store_chunk i part e).total_chunks ≡ e.total_chunks)
unfolding store_chunk
store_chunk-counts i part e good free small =
    let (a, b, c, d) = filled-set e.chunks i part free in
    (omega arith, omega arith, omega arith, omega arith, omega arith, refl)

-- Chunks that are all there are put together.
pub assembled-some :
    (cs : List (Option (List ℕ)))
    → filled cs ≡ length cs
    → (full : List ℕ) × (assembled cs ≡ some full) × (length full ≡ held cs)
unfolding assembled
assembled-some [] h = ([], refl, refl)
assembled-some (none ∷ cs) h = absurd (omega (arith, filled-le cs))
assembled-some (some part ∷ cs) h =
    let (rest, e, l) = assembled-some cs (omega arith) in
    (part ++ rest, ground (arith, e), omega (arith, length-append part rest))
