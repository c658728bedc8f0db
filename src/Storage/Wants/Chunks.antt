-- ===== src/Storage/Wants/Chunks.antt =====
-- `fulfill_chunk_data_in` of storage/protocol.rs: it never panics, and keeps the limits.
use mistlib.Base.{
  get_elem?, ℕ, zero, suc, ◌≤◌, ◌<◌, ◌≡◌, inl, inr, refl, List, [], ◌∷◌, Option, none, some, Bool,
  false, not, ◌||◌, ◌==◌, ltb, leb, String, length, arith, Option-cases, Bool-cases,
}
use mistlib.Base.Maps.{get, All-get}
use mistlib.Types.{NodeId}
use mistlib.Storage.Wants.State.{
  ChunkAssembly, AssemblyKey, PathKey, key_dec, accepts, prune, observe,
}
use mistlib.Storage.Wants.Registry.{
  WantRegistry, chunk_at, fulfill_chunk_data_in, max_want_chunks, reject,
}
use mistlib.Storage.Wants.Assembly.{IsPartial}
use mistlib.Storage.Wants.Limits.{IsGood, prune-IsGood, observe-IsGood}
use mistlib.Storage.Wants.Admitted.{Returns, limit-Returns}

in_range :
    (cs : List (Option (List ℕ))) (i : ℕ)
    → i < length cs
    → (o : Option (List ℕ)) × (get_elem? cs i ≡ some o)
in_range [] i h = absurd (omega arith)
in_range (c ∷ cs) zero h = (c, refl)
in_range (c ∷ cs) (suc i) h = in_range cs i (omega arith)

module _ (closed : ℕ → Bool) (watched : PathKey → Bool) where
  -- Whatever frame comes in, its chunk is handled without a panic, and the limits are kept.
  pub chunk-Returns :
      (now : ℕ) (room cid : String) (sender : NodeId) (index total : ℕ) (block : List ℕ)
      (r : WantRegistry)
      → IsGood r.state
      → Returns (fulfill_chunk_data_in closed watched now room cid sender index total block r)
  unfolding fulfill_chunk_data_in reject
  chunk-Returns now room cid sender index total block r good =
      let key : AssemblyKey = (cid, (sender, room)) in
      let s = observe now cid sender room false (prune closed watched r.state) in
      let seen : IsGood s =
        observe-IsGood now cid sender room false (prune closed watched r.state)
          (prune-IsGood closed watched r.state good) in
      elim (Bool-cases (total == 0 || (ltb max_want_chunks total || leb total index))) [
        | inl bad ↦ rw (bad, fulfill_chunk_data_in) seen
        | inr fine ↦ elim (Bool-cases (not (accepts closed watched cid sender room s))) [
          | inl refused ↦ rw (fine, fulfill_chunk_data_in, refused) seen
          | inr wanted ↦
              let few : total ≤ 8192 = ground (arith, fine) in
              let within : index < total = ground (arith, fine) in
              let next =
                limit-Returns closed watched now cid sender room index total block
                  (record r { state = s }) seen few within in
              elim (Option-cases (get key_dec key s.assemblies)) [
                | inl missing ↦
                    let step = next (λ e h. cc) in
                    rw (fine, fulfill_chunk_data_in, wanted, missing) step
                | inr (entry, found) ↦
                    let partial =
                      All-get key_dec (λ (x : AssemblyKey × ChunkAssembly). IsPartial x.1) key entry
                        s.assemblies found seen.partials in
                    elim (Bool-cases (not (entry.total_chunks == total))) [
                      | inl other ↦ rw (fine, fulfill_chunk_data_in, wanted, found, other) seen
                      | inr same ↦
                          let (o, there) =
                            in_range entry.chunks index
                              (ground (arith, same, partial.whole, within)) in
                          elim (Option-cases o) [
                            | inr (part, e) ↦
                                let twice : chunk_at index entry ≡ some (some part) = cc in
                                rw (fine, fulfill_chunk_data_in, wanted, found, same, twice) seen
                            | inl e ↦
                                let free : chunk_at index entry ≡ some none = cc in
                                let step = next (λ e' h. ground (arith, free, h, found)) in
                                rw (fine, fulfill_chunk_data_in, wanted, found, same, free) step
                          ]
                    ]
              ]
        ]
      ]
