-- ===== src/Streams/Container.antt =====
-- `container_buffer<TCollection>` of src/container_buffer.h over a collection of bytes: one array with
-- one head for reading and writing. Operations return the value that goes to the handler or caller
-- and the new buffer. Positions are signed, and `eof()` as a position is -1. Size arithmetic wraps.
pub mod Laws
pub mod Seeking
mod Tests
use snode.Prelude.{
  ℕ, ◌+◌, ◌-◌, ◌≤◌, ◌<◌, ◌≡◌, Bool, true, false, not, ◌&&◌, ◌||◌, List, [], ◌∷◌, ◌++◌, Option, none,
  some, Bytes, length, take, drop, replicate, copy_at, min, add_size, sub_size, size_mod, ltb, leb,
  ◌==◌, if◌then◌else◌,
}
use snode.Prelude.Int.{ℤ, pos, negsuc, ◌+ℤ◌}
use snode.Streams.ProducerConsumer.{IntType, ch, eof, requires_async, first_ch}

-- `std::ios_base::openmode`, by the two bits that the code tests.
pub record OpenMode : Type 0 where
  pub mode_in : Bool
  pub mode_out : Bool

-- `std::ios_base::seekdir`
pub data SeekDir : Type 0 where
  beg cur end : SeekDir

pub record Buffer : Type 0 where
  pub stream_can_read_ : Bool
  pub stream_can_write_ : Bool
  pub data_ : Bytes
  pub current_position_ : ℕ

-- `false` where the source throws `std::invalid_argument`.
unfoldable pub validate_mode : OpenMode → Bool
validate_mode mode = not (mode.mode_in && mode.mode_out)

-- The constructor from a mode alone; `none` where it throws.
unfoldable pub new_empty : OpenMode → Option Buffer
unfolding validate_mode
new_empty mode =
    if validate_mode mode
    then some (record {
      stream_can_read_ = mode.mode_in;
      stream_can_write_ = mode.mode_out;
      data_ = [];
      current_position_ = 0;
    })
    else none

-- The constructor from a collection opens both sides, whatever the mode.
unfoldable pub new_from : Bytes → OpenMode → Option Buffer
unfolding validate_mode
new_from bytes mode =
    if validate_mode mode
    then some (record {
      stream_can_read_ = true;
      stream_can_write_ = true;
      data_ = bytes;
      current_position_ = 0;
    })
    else none

unfoldable pub in_avail : Buffer → ℕ
in_avail b = sub_size (length b.data_) b.current_position_

unfoldable pub can_satisfy : Buffer → Bool
unfolding in_avail
can_satisfy b = ltb 0 (in_avail b)

abbrev pub update_current_position : Buffer → ℕ → Buffer
update_current_position b new_pos = record b { current_position_ = new_pos }

-- `std::vector::resize` upwards appends zeros.
unfoldable pub resize_for_write : Buffer → ℕ → Buffer
resize_for_write b new_pos =
    if ltb (length b.data_) new_pos
    then record b { data_ = b.data_ ++ replicate (new_pos - length b.data_) 0 }
    else b

unfoldable pub read : Buffer → ℕ → Bool → Bytes × Buffer
unfolding can_satisfy
read b count advance =
    if not (can_satisfy b)
    then ([], b)
    else let read_size = min count (in_avail b) in
      (
        take read_size (drop b.current_position_ b.data_),
        if advance then update_current_position b (add_size b.current_position_ read_size) else b,
      )

unfoldable pub read_byte : Buffer → Bool → IntType × Buffer
unfolding read first_ch
read_byte b advance = let (out, b') = read b 1 advance in (first_ch out, b')

-- The source is a list, whose length is `count`.
unfoldable pub write : Buffer → Bytes → ℕ × Buffer
unfolding resize_for_write
write b src =
    if not b.stream_can_write_ || length src == 0
    then (0, b)
    else let new_size = add_size b.current_position_ (length src) in
      let b' = resize_for_write b new_size in
      (
        length src,
        update_current_position (record b' { data_ = copy_at b'.data_ b.current_position_ src })
            new_size,
      )

unfoldable pub putc : ℕ → Buffer → IntType × Buffer
unfolding write
putc c b = let (n, b') = write b (c ∷ []) in ((if n == 1 then ch c else eof), b')

unfoldable pub putn : Bytes → Buffer → ℕ × Buffer
unfolding write
putn src b = write b src

-- `true` where the returned pointer, to the current position, is not null.
unfoldable pub alloc : ℕ → Buffer → Bool × Buffer
unfolding resize_for_write
alloc count b =
    if not b.stream_can_write_
    then (false, b)
    else (true, resize_for_write b (add_size b.current_position_ count))

unfoldable pub commit : ℕ → Buffer → Buffer
commit count b = update_current_position b (add_size b.current_position_ count)

-- The returned flag, the bytes at the pointer (`none` for null) and the count.
unfoldable pub acquire : Buffer → Bool × Option Bytes × ℕ
unfolding in_avail
acquire b =
    if not b.stream_can_read_
    then (false, none, 0)
    else if ltb 0 (in_avail b)
    then (true, some (drop b.current_position_ b.data_), in_avail b)
    else (true, none, in_avail b)

-- `release` with a pointer that is not null.
unfoldable pub release : ℕ → Buffer → Buffer
release count b = update_current_position b (add_size b.current_position_ count)

-- The task of `getn`; the handler gets the length of what is read.
unfoldable pub getn : ℕ → Buffer → Bytes × Buffer
unfolding read
getn count b = read b count true

unfoldable pub sgetn : ℕ → Buffer → Bytes × Buffer
unfolding read
sgetn count b = read b count true

unfoldable pub scopy : ℕ → Buffer → Bytes × Buffer
unfolding read
scopy count b = read b count false

unfoldable pub sbumpc : Buffer → IntType × Buffer
unfolding read_byte
sbumpc b = read_byte b true

unfoldable pub sgetc : Buffer → IntType × Buffer
unfolding read_byte
sgetc b = read_byte b false

-- The asynchronous character reads keep the result in a `char_type` before they complete; `to_char`
-- is that conversion, which belongs to the C++ library's `char_traits`.
module _ (to_char : IntType → ℕ) where
  unfoldable pub bumpc : Buffer → IntType × Buffer
  unfolding read_byte
  bumpc b = let (res, b') = read_byte b true in (ch (to_char res), b')

  unfoldable pub getc : Buffer → IntType × Buffer
  unfolding read_byte
  getc b = let (res, b') = read_byte b false in (ch (to_char res), b')

  unfoldable pub nextc : Buffer → IntType × Buffer
  unfolding read_byte
  nextc b =
      let b' = (read_byte b true).1 in
      let (res, b'') = read_byte b' false in (ch (to_char res), b'')

abbrev pub eof_pos : ℤ
eof_pos = negsuc 0

unfoldable pub getpos : OpenMode → Buffer → ℤ
getpos mode b =
    if (mode.mode_in && not b.stream_can_read_) || (mode.mode_out && not b.stream_can_write_)
    then eof_pos
    else pos b.current_position_

-- The write head of `seekpos`, at a position that is not negative.
unfoldable pub seek_write : ℕ → OpenMode → Buffer → ℤ × Buffer
unfolding resize_for_write
seek_write p mode b =
    if mode.mode_out && b.stream_can_write_
    then (pos p, update_current_position (resize_for_write b p) p)
    else (eof_pos, b)

unfoldable pub seekpos : ℤ → OpenMode → Buffer → ℤ × Buffer
unfolding seek_write
seekpos (negsuc n) mode b = (eof_pos, b)
seekpos (pos p) mode b =
    if mode.mode_in && b.stream_can_read_ && leb p (length b.data_)
    then (pos p, update_current_position b p)
    else seek_write p mode b

unfoldable pub seekoff : ℤ → SeekDir → OpenMode → Buffer → ℤ × Buffer
unfolding seekpos ◌+ℤ◌
seekoff offset beg mode b = seekpos (pos 0 +ℤ offset) mode b
seekoff offset cur mode b = seekpos (pos b.current_position_ +ℤ offset) mode b
seekoff offset end mode b = seekpos (pos (length b.data_) +ℤ offset) mode b

-- A failed seek completes with `eof()`, else the character is read as by `getc`.
unfoldable pub ungetc : (IntType → ℕ) → Buffer → IntType × Buffer
unfolding seekoff getc
ungetc to_char b =
    let (p, b') = seekoff (negsuc 0) cur (record { mode_in = true; mode_out = false }) b in
    elim p [ negsuc n ↦ (eof, b') | pos q ↦ getc to_char b' ]

unfoldable pub close_read : Buffer → Buffer
close_read b = record b { stream_can_read_ = false }

unfoldable pub close_write : Buffer → Buffer
close_write b = record b { stream_can_write_ = false }
