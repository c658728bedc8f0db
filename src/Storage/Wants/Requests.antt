-- ===== src/Storage/Wants/Requests.antt =====
-- The operations of `WantRegistry` in storage/protocol.rs that register, follow, reset and cancel
-- requests. An attempt is known by its number, which stands for its receivers.
use mistlib.Base.{
  ℕ, List, [], ◌∷◌, ◌++◌, Option, none, some, Bool, true, false, not, ◌&&◌, ◌||◌, ltb, leb, ◌==◌,
  String, String_discrete, if◌then◌else◌, ite, any, retain, map, length, min,
}
use mistlib.Base.Words.{add64}
use mistlib.Base.Maps.{get, insert}
use mistlib.Base.Sets
use mistlib.Types.{NodeId, node_dec}
use mistlib.Storage.Wants.Order.{sort, dedup}
use mistlib.Storage.Wants.State.{
  ChunkProgress, PendingWant, ChunkAssembly, AssemblyKey, PathKey, path_dec, Pending, wants_of,
  flatten, is_candidate, prune, counter_of,
}
use mistlib.Storage.Wants.Registry.{
  WantRegistry, max_want_block_bytes, max_pending_wants, max_want_peers,
}

abbrev pub no_progress : ChunkProgress
no_progress = record { received = 0; accepted = 0; last_accepted = none }

-- What refuses a registration. The length of a text in bytes is a parameter.
unfoldable pub is_refused : (String → ℕ) → String → List NodeId → Pending → Bool
is_refused len cid [] pending = true
is_refused len cid (peer ∷ peers) pending =
    ltb 255 (len cid)
    || (ltb max_want_peers (length (peer ∷ peers))
        || (any (λ p. ltb 256 (len p)) (peer ∷ peers)
            || leb max_pending_wants (length (flatten pending))))

unfoldable pub new_want : ℕ → List NodeId → Bool → PendingWant
new_want id peers local = record {
  id = id;
  paths = if local then "" ∷ [] else [];
  resets = 0;
  progress = no_progress;
  peers = dedup (sort peers);
  byte_limit = none;
}

-- `entry(cid).or_default().push(want)`.
unfoldable pub push_want : String → PendingWant → Pending → Pending
push_want cid want pending =
    insert String_discrete cid (wants_of cid pending ++ (want ∷ [])) pending

-- The first want of a number, in the order of the iteration.
unfoldable pub find_want : ℕ → List PendingWant → Option PendingWant
find_want id [] = none
find_want id (want ∷ wants) = if want.id == id then some want else find_want id wants

unfoldable pub modify_first : ℕ → (PendingWant → PendingWant) → List PendingWant → List PendingWant
modify_first id f [] = []
modify_first id f (want ∷ wants) =
    let rest = modify_first id f wants in if want.id == id then f want ∷ wants else want ∷ rest

unfoldable pub modify_want : ℕ → (PendingWant → PendingWant) → Pending → Pending
modify_want id f [] = []
modify_want id f ((cid, wants) ∷ m) =
    let rest = modify_want id f m in
    if any (λ want. want.id == id) wants
    then (cid, modify_first id f wants) ∷ m
    else (cid, wants) ∷ rest

unfoldable pub bump : PendingWant → PendingWant
bump want = record want { resets = add64 want.resets 1 }

-- Whether a reset of a room, or of one sender in it, concerns a want.
unfoldable pub is_reset : Option NodeId → String → PendingWant → Bool
is_reset sender room want =
    elim sender [ none ↦ true | some id ↦ Sets.contains String_discrete id want.peers ]
    && Sets.contains String_discrete room want.paths

unfoldable pub same_text : String → String → Bool
same_text a b = ite (String_discrete a b) true false

unfoldable pub bump_wants : (PendingWant → Bool) → Pending → Pending
bump_wants p [] = []
bump_wants p ((cid, wants) ∷ m) =
    (cid, map (λ want. if p want then bump want else want) wants) ∷ bump_wants p m

unfoldable pub bump_paths : Option NodeId → String → List (PathKey × ℕ) → List (PathKey × ℕ)
bump_paths sender room [] = []
bump_paths sender room (((path, peer), resets) ∷ m) =
    (
      (path, peer),
      if same_text path room && elim sender [ none ↦ true | some id ↦ same_text id peer ]
          then add64 resets 1
          else resets,
    )
    ∷ bump_paths sender room m

-- What a reset leaves: the assemblies of other rooms and, if it names a sender, of other senders.
unfoldable pub survives : Option NodeId → String → AssemblyKey × ChunkAssembly → Bool
survives sender room ((cid, (source, path)), entry) =
    not (same_text path room) || elim sender [ none ↦ false | some id ↦ not (same_text source id) ]

unfoldable pub add_senders : List NodeId → List NodeId → List NodeId
add_senders [] acc = acc
add_senders (p ∷ peers) acc = Sets.insert String_discrete p (add_senders peers acc)

-- `HashSet` of all the peers of all the wants.
unfoldable pub senders_of : List PendingWant → List NodeId
unfolding add_senders
senders_of [] = []
senders_of (want ∷ wants) = add_senders want.peers (senders_of wants)

module _ (closed : ℕ → Bool) (watched : PathKey → Bool) where
  unfoldable pub register_attempt_for_peers :
      (String → ℕ) → String → List NodeId → Bool → WantRegistry → ℕ × WantRegistry
  register_attempt_for_peers len cid peers local r =
      let pruned = prune closed watched r.state in
      let id = add64 pruned.next_attempt 1 in
      let s = record pruned { next_attempt = id } in
      (
        id,
        record r {
          state =
              if is_refused len cid peers s.pending
              then s
              else record s { pending = push_want cid (new_want id peers local) s.pending };
        },
      )

  unfoldable pub register_from : (String → ℕ) → String → NodeId → WantRegistry → ℕ × WantRegistry
  register_from len cid sender r = register_attempt_for_peers len cid (sender ∷ []) true r

  unfoldable pub register_for_peers :
      (String → ℕ) → String → List NodeId → WantRegistry → ℕ × WantRegistry
  register_for_peers len cid peers r = register_attempt_for_peers len cid peers true r

  unfoldable pub register_attempt : (String → ℕ) → String → NodeId → WantRegistry → ℕ × WantRegistry
  register_attempt len cid sender r = register_attempt_for_peers len cid (sender ∷ []) false r

  -- The limit is attached under a second lock; no other step falls between.
  unfoldable pub register_bounded_attempt :
      (String → ℕ) → String → NodeId → ℕ → WantRegistry → ℕ × WantRegistry
  register_bounded_attempt len cid sender max_bytes r =
      let (id, left) = register_attempt len cid sender r in
      let limit = min max_bytes max_want_block_bytes in
      (
        id,
        record left {
          state = record left.state {
            pending =
                modify_want id (λ want. record want { byte_limit = some limit }) left.state.pending;
          };
        },
      )

  unfoldable pub track_path : ℕ → String → WantRegistry → Bool × WantRegistry
  track_path attempt room r = (
    elim (find_want attempt (flatten r.state.pending)) [
      | none ↦ false
      | some want ↦ not (Sets.contains String_discrete room want.paths)
    ],
    record r {
      state = record r.state {
        pending =
            modify_want attempt
              (λ want. record want { paths = Sets.insert String_discrete room want.paths })
              r.state.pending;
      };
    },
  )

  unfoldable pub untrack_path : ℕ → String → WantRegistry → WantRegistry
  untrack_path attempt room r = record r {
    state = prune closed watched (record r.state {
      pending =
          modify_want attempt
            (λ want. record want { paths = Sets.remove String_discrete room want.paths })
            r.state.pending;
    });
  }

  unfoldable pub attempt_paths : ℕ → WantRegistry → List String
  attempt_paths attempt r = elim (find_want attempt (flatten r.state.pending)) [
    | none ↦ []
    | some want ↦ sort want.paths
  ]

  unfoldable pub sender_last_accepted : NodeId → WantRegistry → Option ℕ
  sender_last_accepted sender r = get node_dec sender r.state.sender_activity

  unfoldable pub outstanding_senders : WantRegistry → List NodeId × WantRegistry
  outstanding_senders r =
      let s = prune closed watched r.state in
      (senders_of (flatten s.pending), record r { state = s })

  -- The counter that is subscribed to; `none` is a watch that is closed.
  unfoldable pub progress_of : NodeId → WantRegistry → Option ℕ × WantRegistry
  progress_of sender r =
      let s = prune closed watched r.state in
      if is_candidate sender (flatten s.pending)
      then (let count = counter_of sender s.progress in
          (
            some count,
            record r { state = record s { progress = insert node_dec sender count s.progress } },
          ))
      else (none, record r { state = s })

  unfoldable pub query_path_resets : String → NodeId → WantRegistry → ℕ × WantRegistry
  query_path_resets room peer r =
      let s = prune closed watched r.state in
      let count : ℕ = elim (get path_dec (room, peer) s.query_paths) [ none ↦ 0 | some n ↦ n ] in
      (
        count,
        record r {
          state = record s { query_paths = insert path_dec (room, peer) count s.query_paths };
        },
      )

  unfoldable pub reset_path : Option NodeId → String → WantRegistry → WantRegistry
  reset_path sender room r =
      let s = prune closed watched r.state in
      record r {
        state = record s {
          query_paths = bump_paths sender room s.query_paths;
          assemblies = retain (survives sender room) s.assemblies;
          pending = bump_wants (is_reset sender room) s.pending;
        };
      }
