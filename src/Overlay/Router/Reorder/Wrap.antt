-- ===== src/Overlay/Router/Reorder/Wrap.antt =====
-- reorder.rs: the greatest sequence number. `max_seq + 1` is not checked, and the number comes off the
-- wire: it wraps in a release build, which is what is modelled, and panics in a debug build.
use mistlib.Base.{ℕ, ◌≤◌, ◌≡◌, refl, [], some, arith}
use mistlib.Base.Btree
use mistlib.Overlay.Router.Reorder.Defs.{SourceState, flush, place, hold}
use mistlib.Overlay.Router.Reorder.Invariant.{seq_limit}

module _ {C : Type 0} where
  -- If the greatest `u64` is the last number that waits, a flush leaves number 0 expected; then the
  -- next numbered message of the source, whatever its number, is not delivered on arrival.
  pub flush-wraps :
      (s : SourceState C) (max_per_source seq : ℕ) (content : C) (now : ℕ)
      → Btree.last_key s.buffered ≡ some seq_limit
      → 1 ≤ max_per_source
      → 1 ≤ seq
      → ((flush s).0.next_expected ≡ 0)
        × ((place max_per_source seq content now (flush s).0).1 ≡ [])
  flush-wraps s max_per_source seq content now h room pos =
      let zero_next : (flush s).0.next_expected ≡ 0 = unfold flush in rw (h, flush) in
      let nothing : (flush s).0.buffered ≡ [] = unfold flush in refl in
      (zero_next, unfold place hold in ground (arith, zero_next, nothing))
