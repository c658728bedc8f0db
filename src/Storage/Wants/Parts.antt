-- ===== src/Storage/Wants/Parts.antt =====
-- Where the chunks of an assembly in storage/protocol.rs come from: a log of the operations so far.
use mistlib.Base.{
  ℕ, zero, suc, ◌+◌, ◌≡◌, ◌⊎◌, inl, inr, refl, ap, subst, List, [], ◌∷◌, ◌++◌, Option, none, some,
  length, All, arith, Option-cases,
}
use mistlib.Storage.Wants.State.{ChunkAssembly, AssemblyKey, Assemblies}
use mistlib.Storage.Wants.Registry.{set, replicate, assembled}
use mistlib.Storage.Wants.Runs.{Op, chunk}

-- The operation is in the log.
abbrev pub Came : List Op → Op → Type 0
Came [] op = ⊥
Came (o ∷ log) op = (o ≡ op) ⊎ Came log op

-- The parts from index `i` on came as chunks from the sender, in the room, for the CID, each under its
-- index and with the same total.
abbrev pub FromChunks : List Op → AssemblyKey → ℕ → ℕ → List (List ℕ) → Type 0
FromChunks log key total i [] = Unit
FromChunks log (cid, (sender, room)) total i (part ∷ parts) =
    Came log (chunk room cid sender i total part)
    × FromChunks log (cid, (sender, room)) total (suc i) parts

-- The same for those parts that are there.
abbrev pub SomeChunks : List Op → AssemblyKey → ℕ → ℕ → List (Option (List ℕ)) → Type 0
SomeChunks log key total i [] = Unit
SomeChunks log (cid, (sender, room)) total i (none ∷ chunks) =
    SomeChunks log (cid, (sender, room)) total (suc i) chunks
SomeChunks log (cid, (sender, room)) total i (some part ∷ chunks) =
    Came log (chunk room cid sender i total part)
    × SomeChunks log (cid, (sender, room)) total (suc i) chunks

abbrev pub concat : List (List ℕ) → List ℕ
concat [] = []
concat (part ∷ parts) = part ++ concat parts

-- A block that is put together of as many parts as the total says.
abbrev pub IsPutTogether : List Op → AssemblyKey → ℕ → List ℕ → Type 0
IsPutTogether log key total full =
    (parts : List (List ℕ)) × (full ≡ concat parts)
    × (length parts ≡ total)
    × FromChunks log key total 0 parts

pub SomeChunks-set :
    (log : List Op) (key : AssemblyKey) (total i k : ℕ) (part : List ℕ)
    (cs : List (Option (List ℕ)))
    → Came log (chunk key.1.1 key.0 key.1.0 (i + k) total part)
    → SomeChunks log key total i cs
    → SomeChunks log key total i (set cs k (some part))
SomeChunks-set log key total i k part [] came h = h
SomeChunks-set log (cid, (sender, room)) total i zero part (none ∷ cs) came h =
    let at : i + 0 ≡ i = omega arith in
    (subst (λ j. Came log (chunk room cid sender j total part)) at came, h)
SomeChunks-set log (cid, (sender, room)) total i zero part (some old ∷ cs) came h =
    let at : i + 0 ≡ i = omega arith in
    (subst (λ j. Came log (chunk room cid sender j total part)) at came, h.1)
SomeChunks-set log (cid, (sender, room)) total i (suc k) part (none ∷ cs) came h =
    let at : i + suc k ≡ suc i + k = omega arith in
    SomeChunks-set log (cid, (sender, room)) total (suc i) k part cs
      (subst (λ j. Came log (chunk room cid sender j total part)) at came) h
SomeChunks-set log (cid, (sender, room)) total i (suc k) part (some old ∷ cs) came h =
    let at : i + suc k ≡ suc i + k = omega arith in
    (
      h.0,
      SomeChunks-set log (cid, (sender, room)) total (suc i) k part cs
          (subst (λ j. Came log (chunk room cid sender j total part)) at came) h.1,
    )

pub length-set :
    (cs : List (Option (List ℕ))) (k : ℕ) (c : Option (List ℕ)) → length (set cs k c) ≡ length cs
length-set [] k c = refl
length-set (x ∷ cs) zero c = refl
length-set (x ∷ cs) (suc k) c = ap suc (length-set cs k c)

pub SomeChunks-replicate :
    (log : List Op) (key : AssemblyKey) (total i n : ℕ)
    → SomeChunks log key total i (replicate n none)
SomeChunks-replicate log key total i zero = tt
SomeChunks-replicate log key total i (suc n) = SomeChunks-replicate log key total (suc i) n

-- A longer log says the same of the past.
SomeChunks-later :
    (op : Op) (log : List Op) (key : AssemblyKey) (total i : ℕ) (cs : List (Option (List ℕ)))
    → SomeChunks log key total i cs
    → SomeChunks (op ∷ log) key total i cs
SomeChunks-later op log key total i [] h = tt
SomeChunks-later op log key total i (none ∷ cs) h = SomeChunks-later op log key total (suc i) cs h
SomeChunks-later op log key total i (some part ∷ cs) h =
    (inr h.0, SomeChunks-later op log key total (suc i) cs h.1)

pub assembled-FromChunks :
    (log : List Op) (key : AssemblyKey) (total i : ℕ) (cs : List (Option (List ℕ))) (full : List ℕ)
    → assembled cs ≡ some full
    → SomeChunks log key total i cs
    → (parts : List (List ℕ)) × (full ≡ concat parts)
      × (length parts ≡ length cs)
      × FromChunks log key total i parts
unfolding assembled
assembled-FromChunks log key total i [] full e h = ([], ground (arith, e), refl, tt)
assembled-FromChunks log key total i (none ∷ cs) full e h = cc
assembled-FromChunks log key total i (some part ∷ cs) full e h =
    elim (Option-cases (assembled cs)) [
      | inl missing ↦ cc
      | inr (rest, put) ↦
          let (parts, same, count, from) =
            assembled-FromChunks log key total (suc i) cs rest put h.1 in
          (part ∷ parts, ground (arith, put, e, same), omega (arith, count), (h.0, from))
    ]

abbrev pub EntryFrom : List Op → AssemblyKey × ChunkAssembly → Type 0
EntryFrom log (key, e) = SomeChunks log key e.total_chunks 0 e.chunks

-- All that the assemblies hold came.
abbrev pub AllFrom : List Op → Assemblies → Type 0
AllFrom log m = All (EntryFrom log) m

pub AllFrom-later :
    (op : Op) (log : List Op) (m : Assemblies) → AllFrom log m → AllFrom (op ∷ log) m
AllFrom-later op log [] all = tt
AllFrom-later op log ((key, e) ∷ m) all =
    (SomeChunks-later op log key e.total_chunks 0 e.chunks all.0, AllFrom-later op log m all.1)
