-- ===== src/Streams/Block.antt =====
-- `producer_consumer_buffer::mem_block` of src/producer_consumer_buf.h: one allocation with a read
-- head and a write head. Characters are bytes. The fresh array of the constructor is indeterminate in
-- the source; here it is zeros, and no operation reads past the write head.
pub mod Laws
use snode.Prelude.{
  ℕ, ◌+◌, ◌-◌, ◌≤◌, ◌<◌, ◌≡◌, Bool, true, false, Bytes, length, take, drop, replicate, copy_at, min,
  add_size, sub_size, size_mod, if◌then◌else◌,
}

pub record Block : Type 0 where
  pub read_ : ℕ
  pub pos_ : ℕ
  pub size_ : ℕ
  pub data_ : Bytes

unfoldable pub new_block : ℕ → Block
new_block size = record { read_ = 0; pos_ = 0; size_ = size; data_ = replicate size 0 }

unfoldable pub rd_chars_left : Block → ℕ
rd_chars_left b = sub_size b.pos_ b.read_

unfoldable pub wr_chars_left : Block → ℕ
wr_chars_left b = sub_size b.size_ b.pos_

unfoldable pub advance_write_head : Block → ℕ → Block
advance_write_head b count = record b { pos_ = add_size b.pos_ count }

-- What goes to `dest`; its length is the returned count.
unfoldable pub read : Block → ℕ → Bool → Bytes × Block
unfolding rd_chars_left
read b count advance =
    let readcount = min count (rd_chars_left b) in
    (
      take readcount (drop b.read_ b.data_),
      if advance then record b { read_ = add_size b.read_ readcount } else b,
    )

-- The source is the whole list `src`, whose length is `count`.
unfoldable pub write : Block → Bytes → ℕ × Block
unfolding wr_chars_left advance_write_head
write b src =
    let wrcount = min (length src) (wr_chars_left b) in
    (
      wrcount,
      advance_write_head (record b { data_ = copy_at b.data_ b.pos_ (take wrcount src) }) wrcount,
    )

-- The heads are in order and inside the array.
pub record IsValid (b : Block) : Type 0 where
  pub heads : b.read_ ≤ b.pos_
  pub inside : b.pos_ ≤ b.size_
  pub array : length b.data_ ≡ b.size_
  pub small : b.size_ < size_mod

-- The written bytes that are still to be read.
abbrev pub unread : Block → Bytes
unread b = take (b.pos_ - b.read_) (drop b.read_ b.data_)
