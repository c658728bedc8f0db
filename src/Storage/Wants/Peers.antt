-- ===== src/Storage/Wants/Peers.antt =====
-- Peers that announce a block, and those who wait for one: storage/protocol.rs. A waiter is the number
-- of its channel; `gone` says whether its receiver is closed.
use mistlib.Base.{
  ℕ, ◌+◌, List, [], ◌∷◌, ◌++◌, none, some, Bool, not, ltb, String, String_discrete, if◌then◌else◌,
  retain, length,
}
use mistlib.Base.Words.{add64}
use mistlib.Base.Maps.{get, insert, remove}
use mistlib.Base.Sets.{contains}
use mistlib.Types.{NodeId}
use mistlib.Storage.Wants.State.{PathKey, path_dec, prune}
use mistlib.Storage.Wants.Registry.{WantRegistry, max_pending_wants}
use mistlib.Storage.Wants.Requests.{same_text}

module _ {K : Type 0} where
  -- The waiters of a map that are not gone, and the keys that still have some.
  unfoldable pub prune_notifiers : (ℕ → Bool) → List (K × List ℕ) → List (K × List ℕ)
  prune_notifiers gone [] = []
  prune_notifiers gone ((k, senders) ∷ m) =
      let rest = prune_notifiers gone m in
      elim (retain (λ tx. not (gone tx)) senders) [
        | [] ↦ rest
        | tx ∷ others ↦ (k, tx ∷ others) ∷ rest
      ]

  unfoldable pub count_all : List (K × List ℕ) → ℕ
  count_all [] = 0
  count_all ((k, senders) ∷ m) = length senders + count_all m

  unfoldable pub under : Discrete K → K → List (K × List ℕ) → List ℕ
  under dec k m = elim (get dec k m) [ none ↦ [] | some senders ↦ senders ]

  unfoldable pub push_notifier : Discrete K → K → ℕ → List (K × List ℕ) → List (K × List ℕ)
  unfolding under
  push_notifier dec k tx m = insert dec k (under dec k m ++ (tx ∷ [])) m

module _ (closed : ℕ → Bool) (watched : PathKey → Bool) (gone : ℕ → Bool) where
  unfoldable pub cancel_closed : WantRegistry → WantRegistry
  cancel_closed r = record r {
    state = prune closed watched r.state;
    peer_notifiers = prune_notifiers gone r.peer_notifiers;
    room_peer_notifiers = prune_notifiers gone r.room_peer_notifiers;
  }

  unfoldable pub cancel : String → WantRegistry → WantRegistry
  cancel cid r = record r {
    state = prune closed watched (record r.state {
      pending = remove String_discrete cid r.state.pending;
      assemblies = retain (λ e. not (same_text e.0.0 cid)) r.state.assemblies;
    });
    peer_notifiers = remove String_discrete cid r.peer_notifiers;
    room_peer_notifiers = retain (λ e. not (same_text e.0.1 cid)) r.room_peer_notifiers;
  }

  -- `tx` is a new channel.
  unfoldable pub register_peer_notifier : ℕ → String → WantRegistry → WantRegistry
  register_peer_notifier tx cid r =
      let s = cancel_closed r in
      record s { peer_notifiers = push_notifier String_discrete cid tx s.peer_notifiers }

  unfoldable pub register_peer_notifier_in : ℕ → String → String → WantRegistry → WantRegistry
  register_peer_notifier_in tx room cid r =
      let s = cancel_closed r in
      record s {
        room_peer_notifiers =
            if ltb (count_all s.room_peer_notifiers) max_pending_wants
            then push_notifier path_dec (room, cid) tx s.room_peer_notifiers
            else s.room_peer_notifiers;
      }

-- The waiters that are told, and the registry.
unfoldable pub register_peer : String → NodeId → WantRegistry → List ℕ × WantRegistry
register_peer cid peer_id r =
    let peers : List NodeId = elim (get String_discrete cid r.peer_cache) [
      | none ↦ []
      | some known ↦ known
    ] in
    (
      under String_discrete cid r.peer_notifiers,
      record r {
        counters = record r.counters {
          have_status_received = add64 r.counters.have_status_received 1;
        };
        peer_cache =
            insert String_discrete cid
              (if contains String_discrete peer_id peers then peers else peers ++ (peer_id ∷ []))
              r.peer_cache;
        peer_notifiers = remove String_discrete cid r.peer_notifiers;
      },
    )

-- The waiters of the room, who are told the peer, and those of any room.
unfoldable pub register_peer_in :
    String → String → NodeId → WantRegistry → List ℕ × List ℕ × WantRegistry
register_peer_in room cid peer r =
    let told = under path_dec (room, cid) r.room_peer_notifiers in
    let (others, after) =
      register_peer cid peer
        (record r { room_peer_notifiers = remove path_dec (room, cid) r.room_peer_notifiers }) in
    (told, others, after)

unfoldable pub get_peers : String → WantRegistry → List NodeId
get_peers cid r = elim (get String_discrete cid r.peer_cache) [ none ↦ [] | some peers ↦ peers ]
