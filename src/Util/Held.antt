-- ===== src/Util/Held.antt =====
-- util.rs with the dedupe caches: a key stays, and is refused, while it is recent and the cache has room.
use mistlib.Base.{
  ℕ, ◌+◌, ◌-◌, ◌≤◌, ◌<◌, ◌≡◌, refl, ap, ◌∙◌, sym, if_pos, if_neg, some, true, false, length, arith,
  is_some, Bool-cases, inl, inr, length-retain-le, retain,
}
use mistlib.Base.Maps.{
  get, contains_key, Uniq, length-insert, get-insert, get-retain, retain-Uniq, insert-Uniq,
}
use mistlib.Util.{TtlCache, is_fresh, sweep, evict_entries, evict_oldest_until_below_limit, admit}
use mistlib.Util.Admission.{
  evict_entries-below, evict_entries-Uniq, admit-rejects, admit-passes, filed,
}

module _ {K : Type 0} (dec : Discrete K) where
  -- A key stands in the cache since a time, and no key stands twice.
  abbrev pub Holds : K → ℕ → TtlCache K → Type 0
  Holds key since c = Uniq dec c.entries × (get dec key c.entries ≡ some since)

  -- What a check leaves: the key, at most one entry more, and the settings.
  abbrev pub StillHolds : K → ℕ → TtlCache K → TtlCache K → Type 0
  StillHolds key since c d =
      Holds key since d
      × (length d.entries ≤ length c.entries + 1)
      × (d.ttl ≡ c.ttl)
      × (d.max_entries ≡ c.max_entries)

  sweep-Holds :
      (key : K) (since now : ℕ) (c : TtlCache K)
      → Holds key since c
      → now - since < c.ttl
      → Holds key since (sweep now c)
  unfolding sweep
  sweep-Holds key since now c (u, there) soon =
      let fresh : is_fresh c.ttl now since ≡ true = ground (arith, soon) in
      (
        retain-Uniq dec _ c.entries u,
        get-retain dec (λ e. is_fresh c.ttl now e.1) key c.entries u ∙ rw (there, fresh) refl,
      )

  -- While it is recent a key is refused.
  pub admit-held :
      (key : K) (since now : ℕ) (c : TtlCache K)
      → Holds key since c
      → now - since < c.ttl
      → (admit dec key now c).0 ≡ false
  admit-held key since now c held soon =
      let there : contains_key dec key (sweep now c).entries ≡ true =
        ap is_some (sweep-Holds key since now c held soon).1 in
      ap (λ r. r.0) (admit-rejects dec key now c there)

  filed-Holds :
      (key other : K) (since now : ℕ) (c : TtlCache K)
      → Holds key since c
      → now - since < c.ttl
      → length c.entries < c.max_entries
      → contains_key dec other (sweep now c).entries ≡ false
      → StillHolds key since c (filed dec other now c)
  unfolding sweep evict_oldest_until_below_limit
  filed-Holds key other since now c held soon room new =
      let kept = retain (λ e. is_fresh c.ttl now e.1) c.entries in
      let few : length kept ≤ length c.entries = length-retain-le _ c.entries in
      let (u, there) = sweep-Holds key since now c held soon in
      let all : evict_entries dec (length kept) c.max_entries kept ≡ kept =
        evict_entries-below dec (length kept) c.max_entries kept (omega (arith, few, room)) in
      rw all (elim (dec other key) [
        | yes same ↦
            let found : contains_key dec other kept ≡ true =
              ap (λ k. contains_key dec k kept) same ∙ ap is_some there in
            let clash : true ≡ false = sym found ∙ new in absurd (cc)
        | no differ ↦ (
          (
            insert-Uniq dec other now kept u,
            get-insert dec other key now kept ∙ if_neg (dec other key) differ _ _ ∙ there,
          ),
          ground (arith, length-insert dec other now kept, few),
          refl,
          refl,
        )
      ])

  -- A check of any key keeps a key that is recent, as long as the cache is not full.
  pub admit-StillHolds :
      (key other : K) (since now : ℕ) (c : TtlCache K)
      → Holds key since c
      → now - since < c.ttl
      → length c.entries < c.max_entries
      → StillHolds key since c (admit dec other now c).1
  admit-StillHolds key other since now c held soon room =
      elim (Bool-cases (contains_key dec other (sweep now c).entries)) [
        | inl there ↦ rw (admit-rejects dec other now c there) (
          sweep-Holds key since now c held soon,
          unfold sweep in omega (arith, length-retain-le (λ e. is_fresh c.ttl now e.1) c.entries),
          unfold sweep in refl,
          unfold sweep in refl,
        )
        | inr new ↦
            rw (admit-passes dec other now c new)
              (filed-Holds key other since now c held soon room new)
      ]

  -- A key that passes stands in the cache from then on.
  pub admit-Holds :
      (key : K) (now : ℕ) (c : TtlCache K)
      → Uniq dec c.entries
      → (admit dec key now c).0 ≡ true
      → Holds key now (admit dec key now c).1
        × ((admit dec key now c).1.ttl ≡ c.ttl)
        × ((admit dec key now c).1.max_entries ≡ c.max_entries)
  unfolding sweep evict_oldest_until_below_limit
  admit-Holds key now c u passed =
      let kept = retain (λ e. is_fresh c.ttl now e.1) c.entries in
      let left = evict_entries dec (length kept) c.max_entries kept in
      elim (Bool-cases (contains_key dec key (sweep now c).entries)) [
        | inl e ↦ let f = ap (λ r. r.0) (admit-rejects dec key now c e) in cc
        | inr e ↦ rw (admit-passes dec key now c e) (
          (
            insert-Uniq dec key now left (
                evict_entries-Uniq dec (length kept) c.max_entries kept
                  (retain-Uniq dec _ c.entries u)),
            get-insert dec key key now left ∙ if_pos (dec key key) refl _ _,
          ),
          refl,
          refl,
        )
      ]
