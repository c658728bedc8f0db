-- ===== src/Util/Admission.antt =====
-- util.rs with the dedupe caches: what is admitted, and how many entries there are.
use mistlib.Base.{
  ℕ, zero, suc, ◌≤◌, ◌<◌, ◌≡◌, refl, ◌⊎◌, inl, inr, List, [], ◌∷◌, none, true, false, length, leb,
  arith, Bool-cases, Option-cases, length-retain-le, retain,
}
use mistlib.Base.Maps.{
  contains_key, insert, remove, Uniq, min_by_key, min_by_key-contains, length-remove-lt,
  length-insert, retain-Uniq, insert-Uniq, remove-Uniq,
}
use mistlib.Util.{TtlCache, is_fresh, sweep, evict_entries, evict_oldest_until_below_limit, admit}

module _ {K : Type 0} (dec : Discrete K) where
  min-none : (m : List (K × ℕ)) → min_by_key (λ t. t) m ≡ none → m ≡ []
  unfolding min_by_key
  min-none [] h = refl
  min-none (x ∷ m) h = cc

  -- The loop leaves room, or nothing; and it only stops early when there is nothing left to remove.
  evict_entries-room :
      (fuel limit : ℕ) (m : List (K × ℕ))
      → length m ≤ fuel
      → (length (evict_entries dec fuel limit m) < limit) ⊎ (evict_entries dec fuel limit m ≡ [])
  unfolding evict_entries
  evict_entries-room zero limit [] h = inr refl
  evict_entries-room zero limit (x ∷ m) h = absurd (omega arith)
  evict_entries-room (suc fuel) limit m h = elim (Bool-cases (leb limit (length m))) [
    | inr e ↦ rw (e, evict_entries) (inl (ground (arith, e)))
    | inl e ↦
        rw (e, evict_entries)
          (elim (Option-cases (min_by_key (λ t. t) m)) [
            | inl none_left ↦ rw none_left (inr (min-none m none_left))
            | inr (oldest, found) ↦ rw found (
                evict_entries-room fuel limit (remove dec oldest.0 m) (
                  omega (
                    arith,
                    length-remove-lt dec oldest.0 m
                        (min_by_key-contains dec (λ t. t) m oldest found),
                  )))
          ])
  ]

  pub evict_entries-below :
      (fuel limit : ℕ) (m : List (K × ℕ)) → length m < limit → evict_entries dec fuel limit m ≡ m
  unfolding evict_entries
  evict_entries-below zero limit m h = refl
  evict_entries-below (suc fuel) limit m h =
      let e : leb limit (length m) ≡ false = ground arith in rw (e, evict_entries) refl

  pub evict_entries-Uniq :
      (fuel limit : ℕ) (m : List (K × ℕ)) → Uniq dec m → Uniq dec (evict_entries dec fuel limit m)
  unfolding evict_entries
  evict_entries-Uniq zero limit m u = u
  evict_entries-Uniq (suc fuel) limit m u = elim (Bool-cases (leb limit (length m))) [
    | inr e ↦ rw (e, evict_entries) u
    | inl e ↦
        rw (e, evict_entries)
          (elim (Option-cases (min_by_key (λ t. t) m)) [
            | inl none_left ↦ rw none_left u
            | inr (oldest, found) ↦ rw found (
                evict_entries-Uniq fuel limit (remove dec oldest.0 m)
                  (remove-Uniq dec oldest.0 m u))
          ])
  ]

  -- The entries stay within the cap, a cap of 0 aside, and no key stands twice.
  abbrev pub IsBounded : TtlCache K → Type 0
  IsBounded c = (length c.entries ≤ c.max_entries) × Uniq dec c.entries

  -- Every check, whether it admits the key or not, keeps the number of entries within a cap of at
  -- least one, keeps the keys distinct, and leaves the two settings alone.
  pub admit-IsBounded :
      (key : K) (now : ℕ) (c : TtlCache K)
      → 1 ≤ c.max_entries
      → IsBounded c
      → IsBounded (admit dec key now c).1
        × ((admit dec key now c).1.max_entries ≡ c.max_entries)
        × ((admit dec key now c).1.ttl ≡ c.ttl)
  unfolding admit sweep evict_oldest_until_below_limit
  admit-IsBounded key now c pos (small, uniq) =
      let kept = retain (λ e. is_fresh c.ttl now e.1) c.entries in
      let few : length kept ≤ length c.entries = length-retain-le _ c.entries in
      let kept-Uniq : Uniq dec kept = retain-Uniq dec _ c.entries uniq in
      let room = evict_entries-room (length kept) c.max_entries kept (omega arith) in
      let left-Uniq = evict_entries-Uniq (length kept) c.max_entries kept kept-Uniq in
      let left = evict_entries dec (length kept) c.max_entries kept in
      let size : length (insert dec key now left) ≤ c.max_entries = elim room [
        | inl less ↦ ground (arith, length-insert dec key now left)
        | inr empty ↦ rw empty (omega arith)
      ] in
      elim (Bool-cases (contains_key dec key kept)) [
        | inl e ↦ rw e ((omega arith, kept-Uniq), refl, refl)
        | inr e ↦ rw e ((size, insert-Uniq dec key now left left-Uniq), refl, refl)
      ]

  pub admit-rejects :
      (key : K) (now : ℕ) (c : TtlCache K)
      → contains_key dec key (sweep now c).entries ≡ true
      → admit dec key now c ≡ (false, sweep now c)
  unfolding admit
  admit-rejects key now c e = rw (e, admit) refl

  -- The entries that a key leaves when it passes.
  abbrev pub filed : K → ℕ → TtlCache K → TtlCache K
  filed key now c =
      let d = evict_oldest_until_below_limit dec (sweep now c) in
      record d { entries = insert dec key now d.entries }

  pub admit-passes :
      (key : K) (now : ℕ) (c : TtlCache K)
      → contains_key dec key (sweep now c).entries ≡ false
      → admit dec key now c ≡ (true, filed key now c)
  unfolding admit
  admit-passes key now c e = rw (e, admit) refl
