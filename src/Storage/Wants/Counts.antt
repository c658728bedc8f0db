-- ===== src/Storage/Wants/Counts.antt =====
-- How many wants are pending after the operations of storage/protocol.rs on the map of wants.
use mistlib.Base.{
  ℕ, suc, ◌+◌, ◌≤◌, ◌≡◌, refl, List, [], ◌∷◌, ◌++◌, Bool, not, String, String_discrete,
  if◌then◌else◌, map, length, length-append, length-retain-le, arith,
}
use mistlib.Base.Maps.{insert, remove}
use mistlib.Storage.Wants.State.{PendingWant, Pending, wants_of, flatten, prune_wants}
use mistlib.Storage.Wants.Requests.{modify_first, modify_want, bump_wants, bump, push_want}

abbrev pub wants : Pending → ℕ
wants [] = 0
wants ((cid, ws) ∷ m) = length ws + wants m

pub length-flatten : (m : Pending) → length (flatten m) ≡ wants m
unfolding flatten
length-flatten [] = refl
length-flatten ((cid, ws) ∷ m) = omega (arith, length-append ws (flatten m), length-flatten m)

pub wants-insert :
    (cid : String) (ws : List PendingWant) (m : Pending)
    → wants (insert String_discrete cid ws m) + length (wants_of cid m) ≡ wants m + length ws
unfolding wants_of
wants-insert cid ws [] = omega arith
wants-insert cid ws ((j, vs) ∷ m) = ground (arith, wants-insert cid ws m)

pub wants-remove :
    (cid : String) (m : Pending)
    → wants (remove String_discrete cid m) + length (wants_of cid m) ≤ wants m
unfolding wants_of
wants-remove cid [] = omega arith
wants-remove cid ((j, vs) ∷ m) = ground (arith, wants-remove cid m, remove_le m)
  where
    remove_le : (n : Pending) → wants (remove String_discrete cid n) ≤ wants n
    remove_le [] = omega arith
    remove_le ((i, us) ∷ n) = ground (arith, remove_le n)

pub wants-prune_wants : (closed : ℕ → Bool) (m : Pending) → wants (prune_wants closed m) ≤ wants m
unfolding prune_wants
wants-prune_wants closed [] = omega arith
wants-prune_wants closed ((cid, ws) ∷ m) =
    ground (arith, wants-prune_wants closed m, length-retain-le (λ want. not (closed want.id)) ws)

pub length-map {ℓ κ} :
    {A : Type ℓ} {B : Type κ} (f : A → B) (xs : List A) → length (map f xs) ≡ length xs
length-map f [] = refl
length-map f (x ∷ xs) = omega (arith, length-map f xs)

length-modify_first :
    (id : ℕ) (f : PendingWant → PendingWant) (ws : List PendingWant)
    → length (modify_first id f ws) ≡ length ws
unfolding modify_first
length-modify_first id f [] = refl
length-modify_first id f (w ∷ ws) = ground (arith, length-modify_first id f ws)

pub wants-modify_want :
    (id : ℕ) (f : PendingWant → PendingWant) (m : Pending) → wants (modify_want id f m) ≡ wants m
unfolding modify_want
wants-modify_want id f [] = refl
wants-modify_want id f ((cid, ws) ∷ m) =
    ground (arith, length-modify_first id f ws, wants-modify_want id f m)

pub wants-bump_wants : (p : PendingWant → Bool) (m : Pending) → wants (bump_wants p m) ≡ wants m
unfolding bump_wants
wants-bump_wants p [] = refl
wants-bump_wants p ((cid, ws) ∷ m) =
    omega (arith, length-map (λ want. if p want then bump want else want) ws, wants-bump_wants p m)

pub wants-push_want :
    (cid : String) (want : PendingWant) (m : Pending) → wants (push_want cid want m) ≡ suc (wants m)
unfolding push_want
wants-push_want cid want m = omega (
  arith,
  wants-insert cid (wants_of cid m ++ (want ∷ [])) m,
  length-append (wants_of cid m) (want ∷ []),
)
