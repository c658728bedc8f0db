-- ===== src/Storage/Manager/Eviction.antt =====
-- storage/types.rs: which blocks the capacity evicts.
use mistlib.Base.{
  ℕ, ◌+◌, ◌-◌, ◌≤◌, ◌<◌, ◌≡◌, leb→le, refl, ap, List, [], ◌∷◌, ◌++◌, Option, none, some, not, ◌&&◌,
  String, String_discrete, leb, ◌==◌, if◌then◌else◌, is_some, arith, Bool-cases, Option-cases, inl,
  inr, ◌⊎◌,
}
use mistlib.Base.Sets.{contains}
use mistlib.Storage.Manager.{StorageManager, BlockMeta, meta_of, victims_from, eviction_candidates}

module _ {V : Type 0} where
  -- The size of a block, 0 if it is not tracked.
  abbrev pub size_of : Option (BlockMeta V) → ℕ
  size_of none = 0
  size_of (some meta) = meta.size

  abbrev pub total_size : List String → StorageManager V → ℕ
  total_size [] s = 0
  total_size (cid ∷ cids) s = size_of (meta_of cid s) + total_size cids s

  -- The blocks of the index that may be evicted: tracked and not pinned, in the order of their use.
  unfoldable pub evictable : List (ℕ × String) → StorageManager V → List String
  evictable [] s = []
  evictable ((at, cid) ∷ index) s =
      let rest = evictable index s in
      if not (contains String_discrete cid s.pinned) && is_some (meta_of cid s)
      then cid ∷ rest
      else rest

  -- The victims are the first of those, and either they are all of them or they make up `needed` bytes.
  abbrev pub Evicts : ℕ → List (ℕ × String) → StorageManager V → List String → Type 0
  Evicts needed index s victims =
      (rest : List String) × (evictable index s ≡ victims ++ rest)
      × ((rest ≡ []) ⊎ (needed ≤ total_size victims s))

  victims_from-Evicts :
      (needed : ℕ) (index : List (ℕ × String)) (s : StorageManager V)
      → Evicts needed index s (victims_from needed index s)
  unfolding victims_from evictable
  victims_from-Evicts needed [] s = ([], refl, inl refl)
  victims_from-Evicts needed ((at, cid) ∷ index) s =
      elim (Bool-cases (contains String_discrete cid s.pinned)) [
        | inl e ↦ rw (e, victims_from, evictable) (victims_from-Evicts needed index s)
        | inr e ↦ elim (Option-cases (meta_of cid s)) [
          | inl m ↦ rw (e, victims_from, evictable, m) (victims_from-Evicts needed index s)
          | inr (meta, m) ↦
              let size : size_of (meta_of cid s) ≡ meta.size = ap size_of m in
              elim (Bool-cases (needed - meta.size == 0)) [
                | inl done ↦
                    rw (e, victims_from, evictable, m, done)
                      (evictable index s, refl, inr (ground (arith, done, size)))
                | inr more ↦
                    let (rest, whole, enough) = victims_from-Evicts (needed - meta.size) index s in
                    rw (e, victims_from, evictable, m, more)
                      (rest, ap (◌∷◌ cid) whole, ground (arith, enough, size))
              ]
        ]
      ]

  -- Without the last victim the rest would not make up `needed` bytes.
  abbrev pub IsLeast : ℕ → StorageManager V → List String → Type 0
  IsLeast needed s victims =
      (victims ≡ [])
      ⊎ ((front : List String) × (last : String) × (victims ≡ front ++ (last ∷ []))
          × (total_size front s < needed))

  IsLeast-cons :
      (needed : ℕ) (s : StorageManager V) (cid : String) (victims : List String)
      → size_of (meta_of cid s) < needed
      → IsLeast (needed - size_of (meta_of cid s)) s victims
      → IsLeast needed s (cid ∷ victims)
  IsLeast-cons needed s cid victims more (inl e) =
      inr ([], cid, ap (◌∷◌ cid) e, omega (arith, more))
  IsLeast-cons needed s cid victims more (inr (front, last, e, few)) =
      inr (cid ∷ front, last, ap (◌∷◌ cid) e, omega (arith, few, more))

  victims_from-IsLeast :
      (needed : ℕ) (index : List (ℕ × String)) (s : StorageManager V)
      → 1 ≤ needed
      → IsLeast needed s (victims_from needed index s)
  unfolding victims_from
  victims_from-IsLeast needed [] s h = inl refl
  victims_from-IsLeast needed ((at, cid) ∷ index) s h =
      elim (Bool-cases (contains String_discrete cid s.pinned)) [
        | inl e ↦ rw (e, victims_from) (victims_from-IsLeast needed index s h)
        | inr e ↦ elim (Option-cases (meta_of cid s)) [
          | inl m ↦ rw (e, victims_from, m) (victims_from-IsLeast needed index s h)
          | inr (meta, m) ↦
              let size : size_of (meta_of cid s) ≡ meta.size = ap size_of m in
              elim (Bool-cases (needed - meta.size == 0)) [
                | inl done ↦ rw (e, victims_from, m, done) (inr ([], cid, refl, h))
                | inr more ↦
                    let left : 1 ≤ needed - meta.size = ground (arith, more) in
                    let ih = victims_from-IsLeast (needed - meta.size) index s left in
                    let large : size_of (meta_of cid s) < needed = omega (arith, left, size) in
                    let same : IsLeast (needed - size_of (meta_of cid s)) s
                        (victims_from (needed - meta.size) index s) =
                      rw size ih in
                    rw (e, victims_from, m, more)
                      (IsLeast-cons needed s cid (victims_from (needed - meta.size) index s) large
                        same)
              ]
        ]
      ]

  pub eviction_candidates-first :
      (s : StorageManager V)
      → Evicts (s.current_usage - s.max_capacity_bytes) s.lru_index s (eviction_candidates s)
  unfolding eviction_candidates
  eviction_candidates-first s = elim (Bool-cases (leb s.current_usage s.max_capacity_bytes)) [
    | inl e ↦ rw (e, eviction_candidates) (evictable s.lru_index s, refl, inr (ground (arith, e)))
    | inr e ↦
        rw (e, eviction_candidates)
          (victims_from-Evicts (s.current_usage - s.max_capacity_bytes) s.lru_index s)
  ]

  -- What an eviction by capacity takes.
  abbrev pub FitsCapacity : StorageManager V → List String → Type 0
  FitsCapacity s victims =
      ((s.current_usage ≤ s.max_capacity_bytes) × (victims ≡ []))
      ⊎ ((s.max_capacity_bytes < s.current_usage)
          × Evicts (s.current_usage - s.max_capacity_bytes) s.lru_index s victims
          × IsLeast (s.current_usage - s.max_capacity_bytes) s victims)

  -- While the usage is within the capacity there are no candidates. Else they are the first of the
  -- blocks that are tracked and not pinned, in the order of the index; they make up what exceeds the
  -- capacity, or they are all of those blocks; and without the last of them they would not make it up.
  pub eviction_candidates-Evicts : (s : StorageManager V) → FitsCapacity s (eviction_candidates s)
  unfolding eviction_candidates
  eviction_candidates-Evicts s = elim (Bool-cases (leb s.current_usage s.max_capacity_bytes)) [
    | inl e ↦ rw (e, eviction_candidates) (inl (leb→le _ _ e, refl))
    | inr e ↦
        let over : s.max_capacity_bytes < s.current_usage = ground (arith, e) in
        let needed = s.current_usage - s.max_capacity_bytes in
        rw (e, eviction_candidates)
          (inr (
            over,
            victims_from-Evicts needed s.lru_index s,
            victims_from-IsLeast needed s.lru_index s (omega (arith, over)),
          ))
  ]
