-- ===== src/Storage/Pins.antt =====
-- mistlib-core/src/storage/pin.rs: the roots that are never evicted, and the blocks that they protect; with
-- the candidates for eviction of storage/types.rs. The parser of JSON is a parameter.
use mistlib.Base.{
  ℕ, ◌≡◌, refl, ◌∙◌, sym, List, [], ◌∷◌, Bool, false, ◌||◌, ◌==◌, String, String_discrete,
  if◌then◌else◌, All, All-left, arith, subst,
}
use mistlib.Base.Maps.{insert, remove, contains_key}
use mistlib.Base.Sets
use mistlib.Base.Sets.{contains, contains-insert}
use mistlib.Messages.{Result, ok, err, serialization}
use mistlib.Storage.Manager.{StorageManager, set_pinned, eviction_candidates}
use mistlib.Storage.Manager.Eviction.{evictable, eviction_candidates-first}

abbrev pub registry_version : ℕ
registry_version = 1

pub record PinRegistry : Type 0 where
  pub v : ℕ
  pub roots : List (String × List String)

unfoldable pub new_pins : PinRegistry
new_pins = record { v = registry_version; roots = [] }

-- What a version of another number says is a parameter.
unfoldable pub from_json :
    (List ℕ → Result PinRegistry) → (ℕ → String) → List ℕ → Result PinRegistry
from_json from_slice unsupported bytes = elim (from_slice bytes) [
  | err e ↦ err e
  | ok registry ↦
      if registry.v == registry_version
      then ok registry
      else err (serialization (unsupported registry.v))
]

unfoldable pub is_pinned : String → PinRegistry → Bool
is_pinned root_cid r = contains_key String_discrete root_cid r.roots

unfoldable pub pin : String → List String → PinRegistry → PinRegistry
pin root_cid cids r = record r { roots = insert String_discrete root_cid cids r.roots }

unfoldable pub unpin : String → PinRegistry → PinRegistry
unpin root_cid r = record r { roots = remove String_discrete root_cid r.roots }

unfoldable pub add_all : List String → List String → List String
add_all [] set = set
add_all (cid ∷ cids) set = Sets.insert String_discrete cid (add_all cids set)

unfoldable pub union : List (String × List String) → List String
unfolding add_all
union [] = []
union ((root, cids) ∷ m) = add_all cids (union m)

unfoldable pub pinned_cids : PinRegistry → List String
unfolding union
pinned_cids r = union r.roots

-- Some root that is pinned lists the block.
abbrev pub is_listed : String → List (String × List String) → Bool
is_listed cid [] = false
is_listed cid ((root, cids) ∷ m) = contains String_discrete cid cids || is_listed cid m

add_all-contains :
    (cid : String) (cids set : List String)
    → contains String_discrete cid (add_all cids set)
      ≡ (contains String_discrete cid cids || contains String_discrete cid set)
unfolding add_all
add_all-contains cid [] set = refl
add_all-contains cid (c ∷ cids) set =
    ground (
      arith,
      contains-insert String_discrete c cid (add_all cids set),
      add_all-contains cid cids set,
    )

pinned_cids-listed :
    (cid : String) (m : List (String × List String))
    → contains String_discrete cid (union m) ≡ is_listed cid m
unfolding union
pinned_cids-listed cid [] = refl
pinned_cids-listed cid ((root, cids) ∷ m) =
    ground (arith, add_all-contains cid cids (union m), pinned_cids-listed cid m)

module _ {V : Type 0} where
  evictable-unpinned :
      (index : List (ℕ × String)) (s : StorageManager V)
      → All (λ cid. contains String_discrete cid s.pinned ≡ false) (evictable index s)
  unfolding evictable
  evictable-unpinned [] s = tt
  evictable-unpinned ((at, cid) ∷ index) s = ground (arith, evictable-unpinned index s)

  -- Once the pinned blocks of a registry are set, no candidate for eviction is a block that some
  -- pinned root lists.
  pub set_pinned-protects :
      (r : PinRegistry) (s : StorageManager V)
      → All
          (λ cid. is_listed cid r.roots ≡ false)
          (eviction_candidates (set_pinned (pinned_cids r) s))
  unfolding set_pinned pinned_cids
  set_pinned-protects r s =
      let s' = set_pinned (pinned_cids r) s in
      let (rest, whole, enough) = eviction_candidates-first s' in
      let free = evictable-unpinned s'.lru_index s' in
      let first =
        All-left (λ cid. contains String_discrete cid s'.pinned ≡ false) (eviction_candidates s')
          rest (subst (All (λ cid. contains String_discrete cid s'.pinned ≡ false)) whole free) in
      unlisted (eviction_candidates s') first
    where
      unlisted :
          (cids : List String)
          → All (λ cid. contains String_discrete cid (union r.roots) ≡ false) cids
          → All (λ cid. is_listed cid r.roots ≡ false) cids
      unlisted [] h = tt
      unlisted (cid ∷ cids) h = (sym (pinned_cids-listed cid r.roots) ∙ h.0, unlisted cids h.1)
