-- ===== src/Streams/ProducerConsumer/Writing.antt =====
-- `write` of `producer_consumer_buffer` against the flat sequence of unread bytes.
use snode.Prelude.{
  ℕ, ◌+◌, ◌-◌, ◌≤◌, ◌<◌, ◌≡◌, refl, sym, ap, ◌∙◌, true, false, ◌&&◌, List, [], ◌∷◌, ◌++◌, Bytes,
  length, All, All-append, arith, max, ◌==◌, Bool-cases, inl, inr, append_assoc, nil_of_length,
  length-append, append-nil, if◌then◌else◌, add_size, size_mod,
}
use snode.Streams.Block
use snode.Streams.Block.{Block, unread}
use snode.Streams.Block.Laws
use snode.Streams.ProducerConsumer.{Buffer, update_write_head, Completion}
use snode.Streams.ProducerConsumer.Api.{write, make_room, write_back, needs_block}
use snode.Streams.ProducerConsumer.Inv.{IsValid, contents}
use snode.Streams.ProducerConsumer.Requests.{
  fulfill_outstanding-Served, all_taken, IsSettled, Conserves,
}

pub contents-append : (ks ls : List Block) → contents (ks ++ ls) ≡ contents ks ++ contents ls
contents-append [] ls = refl
contents-append (k ∷ ks) ls =
    ap (◌++◌ (unread k)) (contents-append ks ls)
    ∙ sym (append_assoc (unread k) (contents ks) (contents ls))

-- The block at the back takes the whole source when it has room for it.
pub write_back_lem :
    (ks : List Block) (src : Bytes)
    → All Block.IsValid ks
    → needs_block ks (length src) ≡ false
    → let (n, ks') = write_back ks src in
      (n ≡ length src) × All Block.IsValid ks' × (contents ks' ≡ contents ks ++ src)
unfolding write_back needs_block
write_back_lem [] src v h = cc
write_back_lem (k ∷ []) src v h =
    let room : length src ≤ k.size_ - k.pos_ = ground (arith, Laws.wr_chars_left_lem v.0) in
    (
      Laws.write_count v.0 src room,
      (Laws.write-IsValid v.0 src, tt),
      append-nil _
          ∙ Laws.write_fits v.0 src room
          ∙ ap (λ u. u ++ src) (sym (append-nil (unread k))),
    )
write_back_lem (k ∷ l ∷ ks) src v h =
    let rest = write_back_lem (l ∷ ks) src v.1 h in
    (
      rest.0,
      (v.0, rest.1),
      ap (◌++◌ (unread k)) rest.2 ∙ sym (append_assoc (unread k) (contents (l ∷ ks)) src),
    )

needs_block-append :
    (ks : List Block) (n a : ℕ)
    → max n a < size_mod
    → needs_block (ks ++ Block.new_block (max n a) ∷ []) n ≡ false
unfolding needs_block Block.new_block Block.wr_chars_left
needs_block-append [] n a h = ground arith
needs_block-append (k ∷ []) n a h = ground arith
needs_block-append (k ∷ l ∷ ks) n a h = needs_block-append (l ∷ ks) n a h

-- `write` finds or makes a block with room, and changes no byte.
pub make_room_lem :
    {b : Buffer} (n : ℕ)
    → IsValid b
    → n < size_mod
    → (needs_block (make_room b n) n ≡ false)
      × All Block.IsValid (make_room b n)
      × (contents (make_room b n) ≡ contents b.blocks_)
unfolding make_room
make_room_lem {b} n v h = elim (Bool-cases (needs_block b.blocks_ n)) [
  | inl needed ↦
      let small : max n b.alloc_size_ < size_mod = omega (arith, v.alloc_small) in
      rw needed (
        needs_block-append b.blocks_ n b.alloc_size_ small,
        All-append Block.IsValid b.blocks_ (Block.new_block (max n b.alloc_size_) ∷ []) v.blocks
            (Laws.new_block-IsValid (max n b.alloc_size_) small, tt),
        contents-append b.blocks_ (Block.new_block (max n b.alloc_size_) ∷ [])
            ∙ ap (λ u. contents b.blocks_ ++ (u ++ []))
                (Laws.unread-new_block (max n b.alloc_size_))
            ∙ append-nil (contents b.blocks_),
      )
  | inr room ↦ rw room (room, v.blocks, refl)
]

module _ {b : Buffer} (v : IsValid b) where
  -- Blocks with `count` more bytes, and the counters moved by as much.
  pub update_write_head-Served :
      (ks : List Block) (added : Bytes)
      → All Block.IsValid ks
      → contents ks ≡ contents b.blocks_ ++ added
      → b.total_ + length added < size_mod
      → let (b', cs) = update_write_head (record b { blocks_ = ks }) (length added) in
        IsValid b' × IsSettled b' × Conserves b added (all_taken cs) b'
  unfolding update_write_head
  update_write_head-Served ks added vs e h =
      let grown : IsValid (record b {
        blocks_ = ks;
        total_ = add_size b.total_ (length added);
        total_written_ = add_size b.total_written_ (length added);
      }) =
        record {
          blocks = vs;
          total = omega (arith, v.total, ap length e, length-append (contents b.blocks_) added);
          small = omega arith;
          synced = omega (arith, v.synced);
          alloc_small = v.alloc_small;
          counted = omega (arith, v.counted);
          fresh = v.fresh;
          once = v.once;
        } in
      let s = fulfill_outstanding-Served grown in (s.valid, s.settled, sym e ∙ s.conserves)

abbrev pub accepted : Buffer → Bytes → Bytes
accepted b src = if b.stream_can_write_ && b.stream_can_read_ then src else []

write_closed : (b : Buffer) (src : Bytes) → b.stream_can_write_ ≡ false → write b src ≡ (0, b, [])
unfolding write
write_closed b src w = ground arith

write_unread :
    (b : Buffer) (src : Bytes)
    → b.stream_can_write_ ≡ true
    → b.stream_can_read_ ≡ false
    → write b src ≡ (length src, b, [])
unfolding write
write_unread b src w r = ground arith

write_nothing : (b : Buffer) (src : Bytes) → length src ≡ 0 → write b src ≡ (0, b, [])
unfolding write
write_nothing b src e = ground arith

write_open :
    (b : Buffer) (src : Bytes)
    → b.stream_can_write_ ≡ true
    → b.stream_can_read_ ≡ true
    → 0 < length src
    → let (n, ks) = write_back (make_room b (length src)) src in
      let (b', cs) = update_write_head (record b { blocks_ = ks }) n in write b src ≡ (n, b', cs)
unfolding write
write_open b src w r h = ground arith

-- What the properties of `write` say of its result.
abbrev pub Wrote : Buffer → Bytes → ℕ × Buffer × List Completion → Type 0
Wrote b src (n, b', cs) =
    (n ≡ (if b.stream_can_write_ then length src else 0))
    × IsValid b'
    × IsSettled b'
    × Conserves b (accepted b src) (all_taken cs) b'

module _ {b : Buffer} (src : Bytes) (v : IsValid b) (s : IsSettled b) where
  Wrote-same :
      (n : ℕ)
      → n ≡ (if b.stream_can_write_ then length src else 0)
      → accepted b src ≡ []
      → Wrote b src (n, b, [])
  Wrote-same n e a = (e, v, s, ap (◌++◌ (contents b.blocks_)) a ∙ append-nil (contents b.blocks_))

  Wrote-open :
      b.stream_can_write_ ≡ true
      → b.stream_can_read_ ≡ true
      → b.total_ + length src < size_mod
      → let (n, ks) = write_back (make_room b (length src)) src in
        let (b', cs) = update_write_head (record b { blocks_ = ks }) n in Wrote b src (n, b', cs)
  Wrote-open w r h =
      let room = make_room_lem (length src) v (omega arith) in
      let wb = write_back_lem (make_room b (length src)) src room.1 room.0 in
      let ks = (write_back (make_room b (length src)) src).1 in
      let u = update_write_head-Served v ks src wb.1 (wb.2 ∙ ap (λ c. c ++ src) room.2) h in
      let all : accepted b src ≡ src = ground arith in
      rw wb.0 (ground arith, u.0, u.1, ap (◌++◌ (contents b.blocks_)) all ∙ u.2)

-- On a well-formed settled buffer with room to count the source, write returns the length of its
-- source unless the write side is closed, when it returns 0, and appends the source to the unread
-- bytes if both sides are open.
pub write_appends :
    {b : Buffer} (src : Bytes)
    → IsValid b
    → IsSettled b
    → b.total_ + length src < size_mod
    → Wrote b src (write b src)
write_appends {b} src v s h = elim (Bool-cases b.stream_can_write_) [
  | inr w ↦ rw (write_closed b src w) (Wrote-same src v s 0 (ground arith) (ground arith))
  | inl w ↦ elim (Bool-cases b.stream_can_read_) [
    | inr r ↦
        rw (write_unread b src w r) (Wrote-same src v s (length src) (ground arith) (ground arith))
    | inl r ↦ elim (Bool-cases (length src == 0)) [
      | inl e ↦
          rw (write_nothing b src (ground arith))
            (Wrote-same src v s 0 (ground arith) (ground (arith, nil_of_length src)))
      | inr e ↦ rw (write_open b src w r (ground arith)) (Wrote-open src v s w r h)
    ]
  ]
]
