-- ===== src/Streams/ProducerConsumer/Reading.antt =====
-- `read`, `read_byte` and the synchronous reads of `producer_consumer_buffer` against the flat
-- sequence of unread bytes.
use snode.Prelude.{
  false, ℕ, ◌≤◌, ◌≡◌, ap, ◌∙◌, Bool, true, false, length, take, drop, arith, min, length-take,
  length-drop,
}
use snode.Streams.ProducerConsumer.{Buffer, read, read_blocks}
use snode.Streams.ProducerConsumer.Inv.{
  IsValid, contents, read_blocks_bytes, read_blocks_rest, read_blocks_stay, read_blocks-All,
  contents-purge, update_read_head-IsValid,
}

module _ {b : Buffer} (v : IsValid b) (count : ℕ) where
  -- The bytes that `read` copies.
  pub read_bytes : (advance : Bool) → (read b count advance).0 ≡ take count (contents b.blocks_)
  unfolding read
  read_bytes advance =
      read_blocks_bytes count b.blocks_ 0 advance (omega arith) v.blocks
      ∙ ap (λ i. take i (contents b.blocks_)) (omega arith)

  pub length-read :
      (advance : Bool) → length (read b count advance).0 ≡ min count (length (contents b.blocks_))
  length-read advance = ap length (read_bytes advance) ∙ length-take count (contents b.blocks_)

  rest : contents (read_blocks b.blocks_ count 0 true).1 ≡ drop count (contents b.blocks_)
  rest =
      read_blocks_rest count b.blocks_ 0 (omega arith) v.blocks
      ∙ ap (λ i. drop i (contents b.blocks_)) (omega arith)

  pub read_rest : contents (read b count true).1.blocks_ ≡ drop count (contents b.blocks_)
  unfolding read
  read_rest =
      contents-purge (read_blocks b.blocks_ count 0 true).1
        (read_blocks-All count b.blocks_ 0 true v.blocks)
      ∙ rest

  -- Without `advance` the buffer is as before.
  pub read_peek : (read b count false).1 ≡ b
  unfolding read
  read_peek = ap (λ ks. record b { blocks_ = ks }) (read_blocks_stay count b.blocks_ 0)

  pub read-IsValid : IsValid (read b count true).1
  unfolding read
  read-IsValid =
      update_read_head-IsValid v (length (read b count true).0)
        (read_blocks b.blocks_ count 0 true).1 (omega (arith, length-read true, v.total))
        (read_blocks-All count b.blocks_ 0 true v.blocks)
        (omega (
          arith,
          length-read true,
          v.total,
          ap length rest,
          length-drop count (contents b.blocks_),
        ))

  -- Reading lowers the counts that requests are tested against.
  pub read-lowers :
      let b' = (read b count true).1 in
      (b'.total_ ≤ b.total_) × (b'.synced_ ≤ b.synced_) × (b'.requests_ ≡ b.requests_)
  unfolding read
  read-lowers = ground (arith, length-read true, v.total, v.small, v.synced)
