-- ===== src/Streams/ProducerConsumer/Inv.antt =====
-- The representation invariant of `producer_consumer_buffer`: every block is in order, and the
-- counters agree with the bytes in the blocks.
use snode.Prelude.{
  ℕ, ◌+◌, ◌-◌, ◌≤◌, ◌<◌, ◌≡◌, refl, sym, ap, ap₂, ◌∙◌, Bool, true, false, List, [], ◌∷◌, ◌++◌,
  Option, none, some, Bytes, length, take, drop, All, arith, add_size, size_mod, ltb, ◌==◌,
  Bool-cases, inl, inr, length-take, take-append, drop-append, append-nil, take-nil, drop-nil, min,
  nil_of_length, ==_iff,
}
use snode.Streams.Block
use snode.Streams.Block.{Block, unread}
use snode.Streams.Block.Laws
use snode.Streams.ProducerConsumer.{
  EvRequest, advance_once, Buffer, purge, read_blocks, update_read_head, new_buffer,
}

-- The bytes that are still to be read, over all blocks.
abbrev pub contents : List Block → Bytes
contents [] = []
contents (k ∷ ks) = unread k ++ contents ks

-- A block handed out by `alloc` and not yet committed is empty.
abbrev pub IsFresh : Option Block → Type 0
IsFresh none = Unit
IsFresh (some k) = Block.IsValid k × (k.read_ ≡ 0) × (k.pos_ ≡ 0)

-- `getn` and `bumpc`, the only operations that queue a request, ask for one advance and, as the stream
-- buffer passes no count of 0 on, for one character or more.
abbrev pub IsOnce : EvRequest → Type 0
IsOnce r = (r.advance_act_ ≡ advance_once) × (0 < r.count_)

pub record IsValid (b : Buffer) : Type 0 where
  pub blocks : All Block.IsValid b.blocks_
  pub total : b.total_ ≡ length (contents b.blocks_)
  pub small : b.total_ < size_mod
  pub synced : b.synced_ ≤ b.total_
  pub alloc_small : b.alloc_size_ < size_mod
  pub counted : b.total_written_ ≡ add_size b.total_read_ b.total_
  pub fresh : IsFresh b.allocblock_
  pub once : All IsOnce b.requests_

pub purge-All : (ks : List Block) → All Block.IsValid ks → All Block.IsValid (purge ks)
unfolding purge
purge-All [] v = v
purge-All (k ∷ ks) v = ground (arith, purge-All ks v.1)

pub contents-purge : (ks : List Block) → All Block.IsValid ks → contents (purge ks) ≡ contents ks
unfolding purge
contents-purge [] v = refl
contents-purge (k ∷ ks) v = elim (Bool-cases (ltb 0 (Block.rd_chars_left k))) [
  | inl more ↦ rw more
  | inr empty ↦
      let e : unread k ≡ [] =
        nil_of_length (unread k) (ground (arith, Laws.rd_chars_left-unread v.0)) in
      rw empty (contents-purge ks v.1 ∙ sym (ap (λ u. u ++ contents ks) e))
]

module _ (count : ℕ) where
  pub read_blocks-All :
      (ks : List Block) (totalr : ℕ) (advance : Bool)
      → All Block.IsValid ks
      → All Block.IsValid (read_blocks ks count totalr advance).1
  unfolding read_blocks
  read_blocks-All [] totalr advance v = v
  read_blocks-All (k ∷ ks) totalr advance v = ground (
    arith,
    Laws.read-IsValid v.0 (count - totalr) advance,
    read_blocks-All ks (totalr + length (Block.read k (count - totalr) advance).0) advance v.1,
  )

  module _ (k : Block) (valid : Block.IsValid k) (totalr : ℕ) (advance : Bool)
      (h : totalr ≤ count) where
    abbrev out : Bytes
    out = (Block.read k (count - totalr) advance).0

    length-out : length out ≡ min (count - totalr) (length (unread k))
    length-out =
        ap length (Laws.read_bytes valid (count - totalr) advance)
        ∙ length-take (count - totalr) (unread k)

    left_over : count - (totalr + length out) ≡ count - totalr - length (unread k)
    left_over = omega (arith, length-out)

    no_more : (totalr + length out == count) ≡ true → count - totalr - length (unread k) ≡ 0
    no_more e = omega (arith, length-out, (==_iff (totalr + length out) count).0 e)

    -- The bytes of one round and of the rounds after it, and the blocks that they leave.
    out-take :
        (rest : Bytes)
        → out ++ take (count - totalr - length (unread k)) rest
          ≡ take (count - totalr) (unread k ++ rest)
    out-take rest =
        ap (λ o. o ++ take (count - totalr - length (unread k)) rest)
          (Laws.read_bytes valid (count - totalr) advance)
        ∙ sym (take-append (count - totalr) (unread k) rest)

  -- The loop delivers the first bytes over all blocks.
  pub read_blocks_bytes :
      (ks : List Block) (totalr : ℕ) (advance : Bool)
      → totalr ≤ count
      → All Block.IsValid ks
      → (read_blocks ks count totalr advance).0 ≡ take (count - totalr) (contents ks)
  unfolding read_blocks
  read_blocks_bytes [] totalr advance h v = sym (take-nil (count - totalr))
  read_blocks_bytes (k ∷ ks) totalr advance h v =
      elim (Bool-cases (totalr + length (out k v.0 totalr advance h) == count)) [
        | inl done ↦ rw done (
            sym (append-nil _)
            ∙ ap (λ i. out k v.0 totalr advance h ++ take i (contents ks))
                (sym (no_more k v.0 totalr advance h done))
            ∙ out-take k v.0 totalr advance h (contents ks))
        | inr more ↦ rw more (
            ap (◌++◌ (out k v.0 totalr advance h)) (
              read_blocks_bytes ks (totalr + length (out k v.0 totalr advance h)) advance
                (omega (arith, length-out k v.0 totalr advance h)) v.1
              ∙ ap (λ i. take i (contents ks)) (left_over k v.0 totalr advance h))
            ∙ out-take k v.0 totalr advance h (contents ks))
      ]

  -- It leaves the others when it advances.
  pub read_blocks_rest :
      (ks : List Block) (totalr : ℕ)
      → totalr ≤ count
      → All Block.IsValid ks
      → contents (read_blocks ks count totalr true).1 ≡ drop (count - totalr) (contents ks)
  unfolding read_blocks
  read_blocks_rest [] totalr h v = sym (drop-nil (count - totalr))
  read_blocks_rest (k ∷ ks) totalr h v =
      elim (Bool-cases (totalr + length (out k v.0 totalr true h) == count)) [
        | inl done ↦ rw done (
            ap (λ u. u ++ contents ks) (Laws.read_rest v.0 (count - totalr))
            ∙ ap (λ i. drop (count - totalr) (unread k) ++ drop i (contents ks))
                (sym (no_more k v.0 totalr true h done))
            ∙ sym (drop-append (count - totalr) (unread k) (contents ks)))
        | inr more ↦ rw more (
            ap₂ ◌++◌ (Laws.read_rest v.0 (count - totalr)) (
              read_blocks_rest ks (totalr + length (out k v.0 totalr true h))
                (omega (arith, length-out k v.0 totalr true h)) v.1
              ∙ ap (λ i. drop i (contents ks)) (left_over k v.0 totalr true h))
            ∙ sym (drop-append (count - totalr) (unread k) (contents ks)))
      ]

  -- Without it the blocks stay as they are.
  pub read_blocks_stay : (ks : List Block) (totalr : ℕ) → (read_blocks ks count totalr false).1 ≡ ks
  unfolding read_blocks Block.read
  read_blocks_stay [] totalr = refl
  read_blocks_stay (k ∷ ks) totalr =
      ground (arith, read_blocks_stay ks (totalr + length (Block.read k (count - totalr) false).0))

module _ {b : Buffer} (v : IsValid b) where
  pub update_read_head-IsValid :
      (count : ℕ) (ks : List Block)
      → count ≤ b.total_
      → All Block.IsValid ks
      → b.total_ ≡ count + length (contents ks)
      → IsValid (update_read_head (record b { blocks_ = ks }) count)
  unfolding update_read_head
  update_read_head-IsValid count ks h vs e = record {
    blocks = purge-All ks vs;
    total = omega (arith, v.small, ap length (contents-purge ks vs));
    small = omega arith;
    synced = ground (arith, v.synced, v.small);
    alloc_small = v.alloc_small;
    counted = omega (arith, v.counted, v.small);
    fresh = v.fresh;
    once = v.once;
  }

pub new_buffer-IsValid : (alloc_size : ℕ) → alloc_size < size_mod → IsValid (new_buffer alloc_size)
unfolding new_buffer
new_buffer-IsValid alloc_size h = record {
  blocks = tt;
  total = refl;
  small = omega arith;
  synced = omega arith;
  alloc_small = h;
  counted = refl;
  fresh = tt;
  once = tt;
}
