-- ===== src/Storage/Manager/Usage.antt =====
-- storage/types.rs: the usage is the size of the blocks that are there.
use mistlib.Base.{
  ℕ, ◌+◌, ◌≤◌, ◌<◌, ◌≡◌, refl, ap, ◌∙◌, sym, List, [], ◌∷◌, Option, none, some, String,
  String_discrete, arith, Option-cases, inl, inr,
}
use mistlib.Base.Words.{add64, u64_mod}
use mistlib.Base.Maps.{get, insert, remove, Uniq, insert-Uniq, remove-Uniq}
use mistlib.Storage.Manager.{
  StorageManager, BlockMeta, new_manager, set_pinned, meta_of, accessed, track_block, touch,
  untrack_block,
}
use mistlib.Storage.Manager.Eviction.{size_of}

-- One operation, as the engine calls it.
pub data Op (V : Type 0) : Type 0 where
  track : String → ℕ → Option V → Op V
  access untrack : String → Op V
  pin : List String → Op V

module _ {V : Type 0} where
  abbrev pub bytes : List (String × BlockMeta V) → ℕ
  bytes [] = 0
  bytes ((cid, meta) ∷ m) = meta.size + bytes m

  bytes-insert_new :
      (cid : String) (meta : BlockMeta V) (m : List (String × BlockMeta V))
      → get String_discrete cid m ≡ none
      → bytes (insert String_discrete cid meta m) ≡ bytes m + meta.size
  bytes-insert_new cid meta [] h = omega arith
  bytes-insert_new cid meta ((j, w) ∷ m) h = ground (arith, bytes-insert_new cid meta m)

  bytes-insert_old :
      (cid : String) (meta old : BlockMeta V) (m : List (String × BlockMeta V))
      → get String_discrete cid m ≡ some old
      → meta.size ≡ old.size
      → bytes (insert String_discrete cid meta m) ≡ bytes m
  bytes-insert_old cid meta old [] h e = cc
  bytes-insert_old cid meta old ((j, w) ∷ m) h e =
      let sizes = ap size_of h in ground (arith, sizes, bytes-insert_old cid meta old m)

  bytes-remove-none :
      (cid : String) (m : List (String × BlockMeta V))
      → get String_discrete cid m ≡ none
      → bytes (remove String_discrete cid m) ≡ bytes m
  bytes-remove-none cid [] h = refl
  bytes-remove-none cid ((j, w) ∷ m) h = ground (arith, bytes-remove-none cid m)

  bytes-remove-some :
      (cid : String) (meta : BlockMeta V) (m : List (String × BlockMeta V))
      → Uniq String_discrete m
      → get String_discrete cid m ≡ some meta
      → bytes (remove String_discrete cid m) + meta.size ≡ bytes m
  bytes-remove-some cid meta [] u h = cc
  bytes-remove-some cid meta ((j, w) ∷ m) u h =
      let sizes = ap size_of h in
      ground (arith, sizes, u.0, bytes-remove-some cid meta m u.1, bytes-remove-none cid m)

  abbrev pub apply : Op V → StorageManager V → StorageManager V
  apply (track cid size position) s = (track_block cid size position s).1
  apply (access cid) s = touch cid s
  apply (untrack cid) s = (untrack_block cid s).1
  apply (pin cids) s = set_pinned cids s

  abbrev pub apply_all : List (Op V) → StorageManager V → StorageManager V
  apply_all [] s = s
  apply_all (op ∷ ops) s = apply_all ops (apply op s)

  -- The bytes that operations add at most.
  abbrev pub incoming : List (Op V) → ℕ
  incoming [] = 0
  incoming (track cid size position ∷ ops) = size + incoming ops
  incoming (_ ∷ ops) = incoming ops

  abbrev pub IsAccounted : StorageManager V → Type 0
  IsAccounted s = Uniq String_discrete s.blocks_meta × (s.current_usage ≡ bytes s.blocks_meta)

  accessed-IsAccounted :
      (cid : String) (meta : BlockMeta V) (clock : ℕ) (position : Option V) (s : StorageManager V)
      → meta_of cid s ≡ some meta
      → IsAccounted s
      → IsAccounted (accessed cid meta clock position s)
  accessed-IsAccounted cid meta clock position s found (u, usage) = (
    insert-Uniq String_discrete cid _ s.blocks_meta u,
    usage ∙ sym (bytes-insert_old cid _ meta s.blocks_meta found refl),
  )

  -- One operation.
  Accounts : ℕ → StorageManager V → StorageManager V → Type 0
  Accounts added s after = IsAccounted after × (after.current_usage ≤ s.current_usage + added)

  track_block-Accounts :
      (cid : String) (size : ℕ) (position : Option V) (s : StorageManager V)
      → s.current_usage + size < u64_mod
      → IsAccounted s
      → Accounts size s (track_block cid size position s).1
  unfolding track_block Accounts
  track_block-Accounts cid size position s small (u, usage) = elim (Option-cases (meta_of cid s)) [
    | inr (meta, found) ↦
        rw (found, track_block)
          (accessed-IsAccounted cid meta _ position s found (u, usage), omega arith)
    | inl missing ↦
        let total : add64 s.current_usage size ≡ s.current_usage + size = omega arith in
        let meta : BlockMeta V = record {
          last_accessed = add64 s.clock 1;
          size = size;
          position = position;
        } in
        let new = bytes-insert_new cid meta s.blocks_meta missing in
        rw (missing, track_block)
          ((insert-Uniq String_discrete cid _ s.blocks_meta u, ground (arith, new)), omega arith)
  ]

  touch-Accounts :
      (cid : String) (s : StorageManager V) → IsAccounted s → Accounts 0 s (touch cid s)
  unfolding touch Accounts
  touch-Accounts cid s good = elim (Option-cases (meta_of cid s)) [
    | inl missing ↦ rw (missing, touch) (good, omega arith)
    | inr (meta, found) ↦
        rw (found, touch) (accessed-IsAccounted cid meta _ none s found good, omega arith)
  ]

  untrack_block-Accounts :
      (cid : String) (s : StorageManager V) → IsAccounted s → Accounts 0 s (untrack_block cid s).1
  unfolding untrack_block Accounts
  untrack_block-Accounts cid s (u, usage) = elim (Option-cases (meta_of cid s)) [
    | inl missing ↦ rw (missing, untrack_block) ((u, usage), omega arith)
    | inr (meta, found) ↦
        let less = bytes-remove-some cid meta s.blocks_meta u found in
        rw (found, untrack_block)
          ((remove-Uniq String_discrete cid s.blocks_meta u, omega arith), omega arith)
  ]

  apply_all-IsAccounted_from :
      (ops : List (Op V)) (s : StorageManager V)
      → s.current_usage + incoming ops < u64_mod
      → IsAccounted s
      → IsAccounted (apply_all ops s)
  unfolding Accounts set_pinned
  apply_all-IsAccounted_from [] s small good = good
  apply_all-IsAccounted_from (track cid size position ∷ ops) s small good =
      let (next, le) = track_block-Accounts cid size position s (omega arith) good in
      apply_all-IsAccounted_from ops (track_block cid size position s).1 (omega (arith, le, small))
        next
  apply_all-IsAccounted_from (access cid ∷ ops) s small good =
      let (next, le) = touch-Accounts cid s good in
      apply_all-IsAccounted_from ops (touch cid s) (omega (arith, le, small)) next
  apply_all-IsAccounted_from (untrack cid ∷ ops) s small good =
      let (next, le) = untrack_block-Accounts cid s good in
      apply_all-IsAccounted_from ops (untrack_block cid s).1 (omega (arith, le, small)) next
  apply_all-IsAccounted_from (pin cids ∷ ops) s small good =
      apply_all-IsAccounted_from ops (set_pinned cids s) small good

  -- After any operations from the empty state that bring less than 2^64 bytes in all, no block is
  -- tracked twice and the usage is the sum of the sizes of the blocks that are tracked.
  pub apply_all-IsAccounted :
      (max_capacity_bytes : ℕ) (ops : List (Op V))
      → incoming ops < u64_mod
      → IsAccounted (apply_all ops (new_manager max_capacity_bytes))
  unfolding new_manager
  apply_all-IsAccounted max_capacity_bytes ops small =
      apply_all-IsAccounted_from ops (new_manager max_capacity_bytes) (omega (arith, small))
        (tt, refl)
