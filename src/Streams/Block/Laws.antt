-- ===== src/Streams/Block/Laws.antt =====
-- One memory block as a byte queue: what `mem_block::read` and `mem_block::write` do to the unread
-- bytes.
use snode.Prelude.{
  ℕ, ◌+◌, ◌-◌, ◌≤◌, ◌<◌, ◌≡◌, refl, sym, ap, ap₂, [], copy_at, ◌∙◌, Bool, true, false, Bytes,
  length, take, drop, min, ◌++◌, arith, length-take, length-drop, length-copy_at, take-take_le,
  drop-take, drop-drop, take_all, drop-append, take-copy_at, length-replicate, size_mod, add_size,
  take-min, drop-min,
}
use snode.Streams.Block.{
  Block, IsValid, unread, read, write, rd_chars_left, wr_chars_left, new_block, advance_write_head,
}

module _ {b : Block} (v : IsValid b) where
  pub rd_chars_left_lem : rd_chars_left b ≡ b.pos_ - b.read_
  unfolding rd_chars_left
  rd_chars_left_lem = omega (arith, v.heads, v.inside, v.small)

  pub wr_chars_left_lem : wr_chars_left b ≡ b.size_ - b.pos_
  unfolding wr_chars_left
  wr_chars_left_lem = omega (arith, v.heads, v.inside, v.small)

  pub length-unread : length (unread b) ≡ b.pos_ - b.read_
  length-unread = omega (
    arith,
    length-take (b.pos_ - b.read_) (drop b.read_ b.data_),
    length-drop b.read_ b.data_,
    v.heads,
    v.inside,
    v.array,
  )

  -- `rd_chars_left` counts the unread bytes.
  pub rd_chars_left-unread : rd_chars_left b ≡ length (unread b)
  rd_chars_left-unread = omega (arith, rd_chars_left_lem, length-unread)

  -- `mem_block::read` delivers the first `count` unread bytes, or all of them.
  pub read_bytes : (count : ℕ) (advance : Bool) → (read b count advance).0 ≡ take count (unread b)
  unfolding read
  read_bytes count advance =
      let n = min count (rd_chars_left b) in
      let e : n ≡ min count (length (unread b)) = omega (arith, rd_chars_left-unread) in
      sym (
        take-take_le n (b.pos_ - b.read_) (drop b.read_ b.data_) (omega (arith, rd_chars_left_lem)))
      ∙ ap (λ k. take k (unread b)) e
      ∙ take-min count (unread b)

  -- It leaves the others.
  pub read_rest : (count : ℕ) → unread (read b count true).1 ≡ drop count (unread b)
  unfolding read
  read_rest count =
      let n = min count (rd_chars_left b) in
      let k = b.pos_ - add_size b.read_ n in
      let e : n ≡ min count (length (unread b)) = omega (arith, rd_chars_left-unread) in
      let s : add_size b.read_ n ≡ b.read_ + n =
        omega (arith, rd_chars_left_lem, v.heads, v.inside, v.small) in
      ap (take k) (sym (drop-drop n b.read_ (add_size b.read_ n) b.data_ s))
      ∙ sym (
          drop-take n (b.pos_ - b.read_) k (drop b.read_ b.data_)
            (omega (arith, rd_chars_left_lem, v.heads)))
      ∙ ap (λ i. drop i (unread b)) e
      ∙ drop-min count (unread b)

  pub read-IsValid : (count : ℕ) (advance : Bool) → IsValid (read b count advance).1
  unfolding read
  read-IsValid count true = record {
    heads = omega (arith, rd_chars_left_lem, v.heads, v.inside, v.small);
    inside = v.inside;
    array = v.array;
    small = v.small;
  }
  read-IsValid count false = v

  -- A source that fits is appended whole.
  pub write_fits :
      (src : Bytes) → length src ≤ b.size_ - b.pos_ → unread (write b src).1 ≡ unread b ++ src
  unfolding write advance_write_head
  write_fits src h =
      let w = min (length src) (wr_chars_left b) in
      let cut : take w src ≡ src = take_all w src (omega (arith, wr_chars_left_lem)) in
      let p = add_size b.pos_ w in
      let new : Bytes = copy_at b.data_ b.pos_ (take w src) in
      let n : length (take w src) ≡ w = omega (arith, length-take w src) in
      let e : p ≡ b.pos_ + w = omega (arith, wr_chars_left_lem, v.inside, v.small) in
      let z : b.read_ - length (take b.pos_ b.data_) ≡ 0 =
        omega (arith, length-take b.pos_ b.data_, v.heads, v.inside, v.array) in
      sym (drop-take b.read_ p (p - b.read_) new (omega (arith, v.heads)))
      ∙ ap (drop b.read_) (
          take-copy_at b.data_ b.pos_ p (take w src) (omega (arith, n))
            (omega (arith, wr_chars_left_lem, v.inside, v.array)))
      ∙ drop-append b.read_ (take b.pos_ b.data_) (take w src)
      ∙ ap₂ ◌++◌ (drop-take b.read_ b.pos_ (b.pos_ - b.read_) b.data_ (omega (arith, v.heads)))
          (ap (λ k. drop k (take w src)) z ∙ cut)

  -- A source that fits is written whole.
  pub write_count : (src : Bytes) → length src ≤ b.size_ - b.pos_ → (write b src).0 ≡ length src
  unfolding write
  write_count src h = omega (arith, wr_chars_left_lem)

  pub write-IsValid : (src : Bytes) → IsValid (write b src).1
  unfolding write advance_write_head
  write-IsValid src = record {
    heads = omega (arith, wr_chars_left_lem, v.heads, v.inside, v.small);
    inside = omega (arith, wr_chars_left_lem, v.heads, v.inside, v.small);
    array = length-copy_at b.data_ b.pos_ (take (min (length src) (wr_chars_left b)) src) ∙ v.array;
    small = v.small;
  }

pub new_block-IsValid : (size : ℕ) → size < size_mod → IsValid (new_block size)
unfolding new_block
new_block-IsValid size h = record {
  heads = omega arith;
  inside = omega arith;
  array = length-replicate size 0;
  small = h;
}

pub unread-new_block : (size : ℕ) → unread (new_block size) ≡ []
unfolding new_block
unread-new_block size = refl
