-- ===== src/Util/Ledger.antt =====
-- util.rs with the dedupe caches, against a ledger that never forgets: below the cap, the cache
-- decides as the ledger does.
use mistlib.Base.{
  ℕ, ◌+◌, ◌≤◌, ◌≡◌, refl, ◌∙◌, ap, inl, inr, List, [], ◌∷◌, Option, none, some, Bool, true, false,
  length, arith, if◌then◌else◌, is_some, Bool-cases, ite, length-retain-le, retain,
}
use mistlib.Base.Maps.{
  get, contains_key, insert, Uniq, length-insert, get-insert, get-retain, retain-Uniq, insert-Uniq,
}
use mistlib.Util.{TtlCache, is_fresh, sweep, evict_oldest_until_below_limit, admit, new_cache}
use mistlib.Util.Admission.{evict_entries-below}

-- The last time a key was admitted.
abbrev pub Ledger : Type 0 → Type 0
Ledger K = K → Option ℕ

-- Whether less than `ttl` has passed since.
abbrev pub is_recent : ℕ → ℕ → Option ℕ → Bool
is_recent ttl now none = false
is_recent ttl now (some t) = is_fresh ttl now t

-- The checks do not go back in time.
abbrev pub InOrder : {K : Type 0} → ℕ → List (K × ℕ) → Type 0
InOrder start [] = Unit
InOrder start ((key, now) ∷ checks) = (start ≤ now) × InOrder now checks

is_recent_mono :
    (ttl now t : ℕ) (o : Option ℕ)
    → now ≤ t
    → is_recent ttl t
        (elim o [ none ↦ none | some v ↦ if is_fresh ttl now v then some v else none ])
      ≡ is_recent ttl t o
is_recent_mono ttl now t none h = refl
is_recent_mono ttl now t (some v) h = ground arith

is_some-recent :
    (ttl now : ℕ) (o : Option ℕ)
    → is_some (elim o [ none ↦ none | some v ↦ if is_fresh ttl now v then some v else none ])
      ≡ is_recent ttl now o
is_some-recent ttl now none = refl
is_some-recent ttl now (some v) = ground arith

module _ {K : Type 0} (dec : Discrete K) where
  abbrev pub record_at : K → ℕ → Ledger K → Ledger K
  record_at key now ledger j = ite (dec key j) (some now) (ledger j)

  -- The answers of the ledger.
  abbrev pub ledger_answers : ℕ → Ledger K → List (K × ℕ) → List Bool
  ledger_answers ttl ledger [] = []
  ledger_answers ttl ledger ((key, now) ∷ checks) =
      if is_recent ttl now (ledger key)
      then false ∷ ledger_answers ttl ledger checks
      else true ∷ ledger_answers ttl (record_at key now ledger) checks

  -- The answers of the cache.
  abbrev pub answers : TtlCache K → List (K × ℕ) → List Bool
  answers c [] = []
  answers c ((key, now) ∷ checks) =
      let (answer, d) = admit dec key now c in answer ∷ answers d checks

  -- From `start` on, the same keys are recent.
  abbrev Agrees : ℕ → TtlCache K → Ledger K → Type 0
  Agrees start c ledger =
      (j : K) (t : ℕ)
      → start ≤ t
      → is_recent c.ttl t (get dec j c.entries) ≡ is_recent c.ttl t (ledger j)

  abbrev kept : ℕ → TtlCache K → List (K × ℕ)
  kept now c = retain (λ e. is_fresh c.ttl now e.1) c.entries

  kept-recent :
      (j : K) (now t : ℕ) (c : TtlCache K)
      → Uniq dec c.entries
      → now ≤ t
      → is_recent c.ttl t (get dec j (kept now c)) ≡ is_recent c.ttl t (get dec j c.entries)
  kept-recent j now t c u h =
      ap (is_recent c.ttl t) (get-retain dec (λ e. is_fresh c.ttl now e.1) j c.entries u)
      ∙ is_recent_mono c.ttl now t (get dec j c.entries) h

  kept-contains :
      (key : K) (now : ℕ) (c : TtlCache K)
      → Uniq dec c.entries
      → contains_key dec key (kept now c) ≡ is_recent c.ttl now (get dec key c.entries)
  kept-contains key now c u =
      ap is_some (get-retain dec (λ e. is_fresh c.ttl now e.1) key c.entries u)
      ∙ is_some-recent c.ttl now (get dec key c.entries)

  record_at-Agrees :
      (key j : K) (now t : ℕ) (c : TtlCache K) (ledger : Ledger K)
      → Uniq dec c.entries
      → now ≤ t
      → is_recent c.ttl t (get dec j c.entries) ≡ is_recent c.ttl t (ledger j)
      → is_recent c.ttl t (get dec j (insert dec key now (kept now c)))
        ≡ is_recent c.ttl t (record_at key now ledger j)
  record_at-Agrees key j now t c ledger u h e =
      rw (get-insert dec key j now (kept now c)) (ground (arith, kept-recent j now t c u h))

  answers-ledger :
      (start : ℕ) (c : TtlCache K) (ledger : Ledger K) (checks : List (K × ℕ))
      → Uniq dec c.entries
      → Agrees start c ledger
      → InOrder start checks
      → length c.entries + length checks ≤ c.max_entries
      → answers c checks ≡ ledger_answers c.ttl ledger checks
  unfolding admit sweep evict_oldest_until_below_limit
  answers-ledger start c ledger [] u agree ordered fits = refl
  answers-ledger start c ledger ((key, now) ∷ checks) u agree (later, ordered) fits =
      let same = kept-contains key now c u ∙ agree key now later in
      let few : length (kept now c) ≤ length c.entries = length-retain-le _ c.entries in
      let left =
        evict_entries-below dec (length (kept now c)) c.max_entries (kept now c) (omega arith) in
      elim (Bool-cases (is_recent c.ttl now (ledger key))) [
        | inl e ↦
            let e' = same ∙ e in
            let ih =
              answers-ledger now (sweep now c) ledger checks (retain-Uniq dec _ c.entries u)
                (λ j t h. kept-recent j now t c u h ∙ agree j t (omega (arith, h, later))) ordered
                (omega arith) in
            rw (e, e') (ap (◌∷◌ false) ih)
        | inr e ↦
            let e' = same ∙ e in
            let grown : length (insert dec key now (kept now c)) + length checks ≤ c.max_entries =
              ground (arith, length-insert dec key now (kept now c), few, fits) in
            let ih =
              answers-ledger now (record c { entries = insert dec key now (kept now c) })
                (record_at key now ledger) checks
                (insert-Uniq dec key now (kept now c) (retain-Uniq dec _ c.entries u))
                (λ j t h.
                  record_at-Agrees key j now t c ledger u h (agree j t (omega (arith, h, later))))
                ordered grown in
            rw (e, e', left) (ap (◌∷◌ true) ih)
      ]

  -- From an empty cache, checks that do not go back in time and are no more than the cap get the
  -- answers of the ledger: a key passes just if it did not pass less than `ttl` before.
  pub new_cache-ledger :
      (ttl max_entries : ℕ) (checks : List (K × ℕ))
      → InOrder 0 checks
      → length checks ≤ max_entries
      → answers (new_cache ttl max_entries) checks ≡ ledger_answers ttl (λ _. none) checks
  unfolding new_cache
  new_cache-ledger ttl max_entries checks ordered fits =
      answers-ledger 0 (new_cache ttl max_entries) (λ _. none) checks tt (λ j t h. refl) ordered
        (omega arith)
