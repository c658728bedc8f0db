-- ===== src/Stats/Latch.antt =====
-- The latch of stats.rs: what a ping and an inbound frame do to the entry of a peer.
use mistlib.Base.{
  if_pos, if_neg, ℕ, zero, suc, ◌+◌, ◌≤◌, ◌<◌, ◌≡◌, ◌⊎◌, inl, refl, ◌∙◌, ap, none, some, true,
  false, ltb, leb, ◌==◌, ◌&&◌, not, arith, Bool-cases,
}
use mistlib.Base.Maps.{get, insert, get-insert}
use mistlib.Types.{NodeId, node_dec}
use mistlib.Stats.{
  PingHealth, Health, default_health, or_default, ping_entry, note_ping_sent, note_inbound_activity,
}

abbrev pub entry_of : NodeId → Health → PingHealth
entry_of id health = or_default (get node_dec id health)

-- The latch is set just when the streak has reached the threshold.
abbrev pub IsLatched : ℕ → PingHealth → Type 0
IsLatched timeout_count e =
    (e.awaiting ≡ false → e.consecutive_misses ≡ 0)
    × (e.suspect ≡ leb timeout_count e.consecutive_misses)
    × (e.consecutive_misses ≤ 4294967295)

pub ping_entry-IsLatched :
    (timeout_count : ℕ) (e : PingHealth)
    → 1 ≤ timeout_count
    → timeout_count < 4294967295
    → IsLatched timeout_count e
    → IsLatched timeout_count (ping_entry timeout_count e)
unfolding ping_entry
ping_entry-IsLatched timeout_count e low high h = ground (arith, Bool-cases e.awaiting)

-- A ping announces a suspicion just when it sets the latch.
ping_entry-announces :
    (timeout_count : ℕ) (e : PingHealth)
    → 1 ≤ timeout_count
    → timeout_count < 4294967295
    → IsLatched timeout_count e
    → ((ltb 0 timeout_count && (ping_entry timeout_count e).consecutive_misses == timeout_count)
        ≡ (not e.suspect && (ping_entry timeout_count e).suspect))
      × (e.suspect ≡ true → (ping_entry timeout_count e).suspect ≡ true)
unfolding ping_entry
ping_entry-announces timeout_count e low high h = ground (arith, Bool-cases e.awaiting)

pub note-same :
    (id target : NodeId) (timeout_count : ℕ) (health : Health)
    → target ≡ id
    → entry_of id (note_ping_sent target timeout_count health).1
      ≡ ping_entry timeout_count (entry_of id health)
unfolding note_ping_sent or_default ping_entry
note-same id target timeout_count health p =
    ap or_default (
      get-insert node_dec target id (ping_entry timeout_count (entry_of target health)) health
      ∙ if_pos (node_dec target id) p _ _)
    ∙ ap (λ j. ping_entry timeout_count (entry_of j health)) p

pub note-other :
    (id target : NodeId) (timeout_count : ℕ) (health : Health)
    → ¬ (target ≡ id)
    → entry_of id (note_ping_sent target timeout_count health).1 ≡ entry_of id health
unfolding note_ping_sent
note-other id target timeout_count health n = ap or_default (
    get-insert node_dec target id (ping_entry timeout_count (entry_of target health)) health
    ∙ if_neg (node_dec target id) n _ _)

note-misses :
    (id target : NodeId) (timeout_count : ℕ) (health : Health)
    → target ≡ id
    → (note_ping_sent target timeout_count health).0
      ≡ (ping_entry timeout_count (entry_of id health)).consecutive_misses
unfolding note_ping_sent
note-misses id target timeout_count health p =
    ap (λ j. (ping_entry timeout_count (entry_of j health)).consecutive_misses) p

pub note-announces :
    (id target : NodeId) (timeout_count : ℕ) (health : Health)
    → 1 ≤ timeout_count
    → timeout_count < 4294967295
    → IsLatched timeout_count (entry_of id health)
    → target ≡ id
    → ((ltb 0 timeout_count && (note_ping_sent target timeout_count health).0 == timeout_count) ≡ (
        not (entry_of id health).suspect
        && (entry_of id (note_ping_sent target timeout_count health).1).suspect))
      × ((entry_of id health).suspect ≡ true
          → (entry_of id (note_ping_sent target timeout_count health).1).suspect ≡ true)
note-announces id target timeout_count health low high good p =
    let misses : (note_ping_sent target timeout_count health).0
        ≡ (ping_entry timeout_count (entry_of id health)).consecutive_misses =
      note-misses id target timeout_count health p in
    rw (note-same id target timeout_count health p, misses)
      (ping_entry-announces timeout_count (entry_of id health) low high good)

pub inbound-none :
    (from : NodeId) (health : Health)
    → get node_dec from health ≡ none
    → note_inbound_activity from health ≡ (false, health)
unfolding note_inbound_activity
inbound-none from health e = rw (e, note_inbound_activity) refl

pub inbound-some :
    (from : NodeId) (health : Health) (entry : PingHealth)
    → get node_dec from health ≡ some entry
    → note_inbound_activity from health
      ≡ (entry.suspect, insert node_dec from default_health health)
unfolding note_inbound_activity
inbound-some from health entry e = rw (e, note_inbound_activity) refl

-- `n` pings of a peer, with nothing heard from it.
abbrev pub pings : ℕ → NodeId → ℕ → Health → Health
pings zero id timeout_count health = health
pings (suc n) id timeout_count health =
    pings n id timeout_count (note_ping_sent id timeout_count health).1

ping_entry-awaiting :
    (timeout_count : ℕ) (e : PingHealth) → (ping_entry timeout_count e).awaiting ≡ true
unfolding ping_entry
ping_entry-awaiting timeout_count e = refl

ping_entry-misses :
    (timeout_count m : ℕ) (e : PingHealth)
    → e.awaiting ≡ true
    → (m ≤ e.consecutive_misses) ⊎ (4294967295 ≤ e.consecutive_misses)
    → (m + 1 ≤ (ping_entry timeout_count e).consecutive_misses)
      ⊎ (4294967295 ≤ (ping_entry timeout_count e).consecutive_misses)
unfolding ping_entry
ping_entry-misses timeout_count m e waits h = ground (arith, waits)

pings-latch :
    (n m : ℕ) (id : NodeId) (timeout_count : ℕ) (health : Health)
    → 1 ≤ timeout_count
    → timeout_count < 4294967295
    → IsLatched timeout_count (entry_of id health)
    → (entry_of id health).awaiting ≡ true
    → (m ≤ (entry_of id health).consecutive_misses)
      ⊎ (4294967295 ≤ (entry_of id health).consecutive_misses)
    → timeout_count ≤ m + n
    → (entry_of id (pings n id timeout_count health)).suspect ≡ true
pings-latch zero m id timeout_count health low high good waits far enough = ground (arith, good)
pings-latch (suc n) m id timeout_count health low high good waits far enough =
    let e = note-same id id timeout_count health refl in
    pings-latch n (m + 1) id timeout_count (note_ping_sent id timeout_count health).1 low high
      (rw e (ping_entry-IsLatched timeout_count (entry_of id health) low high good))
      (rw e (ping_entry-awaiting timeout_count (entry_of id health)))
      (rw e (ping_entry-misses timeout_count m (entry_of id health) waits far)) (omega arith)

-- A peer whose latch agrees with its streak is under suspicion after one ping more than the threshold,
-- if nothing is heard from it.
pub pings-suspect :
    (id : NodeId) (timeout_count : ℕ) (health : Health)
    → 1 ≤ timeout_count
    → timeout_count < 4294967295
    → IsLatched timeout_count (entry_of id health)
    → (entry_of id (pings (suc timeout_count) id timeout_count health)).suspect ≡ true
pings-suspect id timeout_count health low high good =
    let e = note-same id id timeout_count health refl in
    pings-latch timeout_count 0 id timeout_count (note_ping_sent id timeout_count health).1 low high
      (rw e (ping_entry-IsLatched timeout_count (entry_of id health) low high good))
      (rw e (ping_entry-awaiting timeout_count (entry_of id health))) (inl (omega arith))
      (omega arith)
