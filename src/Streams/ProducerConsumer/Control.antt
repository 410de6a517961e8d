-- ===== src/Streams/ProducerConsumer/Control.antt =====
-- `commit`, `sync`, `close_write` and `release` of `producer_consumer_buffer` against the flat
-- sequence of unread bytes.
use snode.Prelude.{
  ℕ, ◌+◌, ◌-◌, ◌≤◌, ◌<◌, ◌≡◌, refl, sym, ap, ◌∙◌, Bool, true, false, List, [], ◌∷◌, ◌++◌, Option,
  none, some, length, take, drop, All, All-append, arith, min, append_assoc, length-take,
  take-append-drop, length-append, append-nil, add_size, size_mod,
}
use mathlib.Core.Path.{subst}
use snode.Streams.Block
use snode.Streams.Block.{Block, unread}
use snode.Streams.Block.Laws
use snode.Streams.ProducerConsumer.{
  Buffer, update_read_head, update_write_head, Completion, in_avail,
}
use snode.Streams.ProducerConsumer.Api.{sync, close_write, commit, release}
use snode.Streams.ProducerConsumer.Inv.{
  IsValid, IsFresh, contents, update_read_head-IsValid, contents-purge,
}
use snode.Streams.ProducerConsumer.Requests.{
  fulfill_outstanding-Served, fulfill_drains, fulfill-answers, answers, all_taken, IsSettled,
  Waits-lowers, Conserves,
}
use snode.Streams.ProducerConsumer.Writing.{contents-append, update_write_head-Served}

-- The flags and the allocated block can change under the invariant.
pub flags-IsValid :
    {b : Buffer}
    → IsValid b
    → (readable writable : Bool)
    → IsValid (record b { stream_can_read_ = readable; stream_can_write_ = writable })
flags-IsValid v readable writable = record {
  blocks = v.blocks;
  total = v.total;
  small = v.small;
  synced = v.synced;
  alloc_small = v.alloc_small;
  counted = v.counted;
  fresh = v.fresh;
  once = v.once;
}

pub allocblock-IsValid :
    {b : Buffer}
    → IsValid b
    → (o : Option Block) → IsFresh o
    → IsValid (record b { allocblock_ = o })
allocblock-IsValid v o f = record {
  blocks = v.blocks;
  total = v.total;
  small = v.small;
  synced = v.synced;
  alloc_small = v.alloc_small;
  counted = v.counted;
  fresh = f;
  once = v.once;
}

module _ {k : Block} (f : IsFresh (some k)) (count : ℕ) (h : count ≤ k.size_) where
  unread-commit : unread (Block.advance_write_head k count) ≡ take count k.data_
  unfolding Block.advance_write_head
  unread-commit =
      let n : add_size k.pos_ count - k.read_ ≡ count = omega (arith, f.0.small) in
      let z : k.read_ ≡ 0 = f.1 in
      ap (λ i. take i (drop k.read_ k.data_)) n ∙ ap (λ i. take count (drop i k.data_)) z

  commit-IsValid : Block.IsValid (Block.advance_write_head k count)
  unfolding Block.advance_write_head
  commit-IsValid = record {
    heads = omega (arith, f.0.small);
    inside = omega (arith, f.0.small);
    array = f.0.array;
    small = f.0.small;
  }

  length-stored : length (take count k.data_) ≡ count
  length-stored = omega (arith, length-take count k.data_, f.0.array)

module _ {b : Buffer} (v : IsValid b) where
  -- `commit` appends what the caller stored in the allocated block.
  pub commit_lem :
      (count : ℕ) (k : Block)
      → b.allocblock_ ≡ some k
      → count ≤ k.size_
      → b.total_ + count < size_mod
      → (b' : Buffer) × (cs : List Completion) × (commit count b ≡ some (b', cs))
        × IsValid b'
        × IsSettled b'
        × Conserves b (take count k.data_) (all_taken cs) b'
  unfolding commit
  commit_lem count k e h g =
      let f : IsFresh (some k) = subst IsFresh e v.fresh in
      let k' = Block.advance_write_head k count in
      let n = length-stored f count h in
      let u =
        update_write_head-Served (allocblock-IsValid v none tt) (b.blocks_ ++ k' ∷ [])
          (take count k.data_)
          (All-append Block.IsValid b.blocks_ (k' ∷ []) v.blocks (commit-IsValid f count h, tt))
          (contents-append b.blocks_ (k' ∷ [])
            ∙ ap (◌++◌ (contents b.blocks_)) (append-nil (unread k') ∙ unread-commit f count h))
          (omega (arith, n)) in
      let w = rw n at u in
      let r =
        update_write_head (record b { allocblock_ = none; blocks_ = b.blocks_ ++ k' ∷ [] }) count in
      (r.0, r.1, rw (e, commit), w.0, w.1, w.2)

  -- `sync` makes all that is there available to the waiting requests.
  pub sync_lem :
      let (b', cs) = sync b in IsValid b' × IsSettled b' × Conserves b [] (all_taken cs) b'
  unfolding sync
  sync_lem =
      let all : IsValid (record b { synced_ = in_avail b }) = record {
        blocks = v.blocks;
        total = v.total;
        small = v.small;
        synced = omega arith;
        alloc_small = v.alloc_small;
        counted = v.counted;
        fresh = v.fresh;
        once = v.once;
      } in
      let s = fulfill_outstanding-Served all in
      (s.valid, s.settled, append-nil (contents b.blocks_) ∙ s.conserves)

  -- On a well-formed buffer close_write leaves no request waiting and keeps the buffer well
  -- formed; it answers the requests that waited, in order, each with the oldest of the bytes that
  -- those before it left, as many as it asked for or all there are, and one for a single character
  -- with that character or eof; the bytes that it hands out and those it leaves are the bytes that
  -- were there.
  pub close_write_drains :
      let (b', cs) = close_write b in
      IsValid b'
      × (b'.requests_ ≡ [])
      × (cs ≡ answers b.requests_ (contents b.blocks_))
      × Conserves b [] (all_taken cs) b'
  unfolding close_write
  close_write_drains =
      let s = fulfill_outstanding-Served (flags-IsValid v b.stream_can_read_ false) in
      let d = fulfill_drains b.requests_ (record b { stream_can_write_ = false }) refl in
      let a = fulfill-answers b.requests_ v.once (flags-IsValid v b.stream_can_read_ false) refl in
      (s.valid, d.0, a, append-nil (contents b.blocks_) ∙ s.conserves)

  -- `release` takes bytes off the front.
  pub release_lem :
      (count : ℕ) (k : Block) (ks : List Block)
      → IsSettled b
      → b.blocks_ ≡ k ∷ ks
      → count ≤ length (unread k)
      → (b' : Buffer) × (release count b ≡ some b')
        × IsValid b'
        × IsSettled b'
        × Conserves b [] (take count (unread k)) b'
  unfolding release
  release_lem count k ks s e h =
      let vs : All Block.IsValid (k ∷ ks) = subst (All Block.IsValid) e v.blocks in
      let k' : Block = record k { read_ = add_size k.read_ count } in
      let n : min count (Block.rd_chars_left k) ≡ count =
        omega (arith, Laws.rd_chars_left-unread vs.0) in
      let same : (Block.read k count true).1 ≡ k' =
        unfold Block.read in ap (λ i. record k { read_ = add_size k.read_ i }) n in
      let vk : Block.IsValid k' = subst Block.IsValid same (Laws.read-IsValid vs.0 count true) in
      let rest : unread k' ≡ drop count (unread k) =
        ap unread (sym same) ∙ Laws.read_rest vs.0 count in
      let split : contents b.blocks_ ≡ take count (unread k) ++ contents (k' ∷ ks) =
        ap contents e
        ∙ ap (λ u. u ++ contents ks) (sym (take-append-drop count (unread k)))
        ∙ append_assoc (take count (unread k)) (drop count (unread k)) (contents ks)
        ∙ ap (λ u. take count (unread k) ++ (u ++ contents ks)) (sym rest) in
      let b' = update_read_head (record b { blocks_ = k' ∷ ks }) count in
      let len : count + length (contents (k' ∷ ks)) ≡ b.total_ = omega (
        arith,
        v.total,
        ap length split,
        length-append (take count (unread k)) (contents (k' ∷ ks)),
        length-take count (unread k),
      ) in
      (
        b',
        rw (e, release) (ground (arith, Laws.rd_chars_left-unread vs.0)),
        update_read_head-IsValid v count (k' ∷ ks) (omega arith) (vk, vs.1) (sym len),
        Waits-lowers b b' b.requests_ (omega (arith, v.small)) (ground (arith, v.small, v.synced))
            refl refl s,
        append-nil (contents b.blocks_)
            ∙ split
            ∙ ap (◌++◌ (take count (unread k))) (sym (contents-purge (k' ∷ ks) (vk, vs.1))),
      )
