-- ===== src/Streams/Source.antt =====
-- `sourcebuf` of src/sourcebuf.h: a stream buffer for reading from a source, such as the
-- `media_source` of src/media/media_source.h. The source is a parameter: its operations and what their
-- comments say of them. `getpos` is left out: it calls a function that changes the buffer from one
-- that cannot.
pub mod Rounds
pub mod Reading
pub mod Positions
mod Tests
use snode.Prelude.{
  ℕ, zero, suc, ◌+◌, ◌-◌, ◌≡◌, ◌≤◌, ◌<◌, Bool, true, false, not, ◌||◌, List, [], ◌∷◌, ◌++◌, Option,
  none, some, Bytes, length, take, drop, replicate, copy_at, add_size, sub_size, size_mod, ltb, leb,
  ◌==◌, if◌then◌else◌,
}
use snode.Prelude.Int.{ℤ, pos, negsuc, ◌+ℤ◌}
use snode.Streams.ProducerConsumer.{IntType, ch, eof}

-- The source's interface. `read` gets the count asked for and the offset, with `none` for the default
-- −1, and returns the characters that it puts at the pointer.
pub record Source (S : Type 0) : Type 0 where
  pub read : S → ℕ → Option ℕ → Bytes × S
  pub size : S → ℕ
  pub close : S → S

-- What the comment on `read` says of it, for a source with `rest` still to be read: up to `count`
-- characters are copied, and none only at the end.
pub record IsSequential {S : Type 0} (source : Source S) (rest : S → Bytes) : Type 0 where
  pub in_order :
      (s : S) (count : ℕ)
      → let (out, s') = Source.read source s count none in rest s ≡ out ++ rest s'
  pub at_most : (s : S) (count : ℕ) → length (Source.read source s count none).0 ≤ count
  pub at_end :
      (s : S) (count : ℕ) → 0 < count → length (Source.read source s count none).0 ≡ 0 → rest s ≡ []

-- `buffer_info`
pub record Info : Type 0 where
  pub rdpos_ : ℕ
  pub bufoff_ : ℕ
  pub buffill_ : ℕ
  pub atend_ : Bool
  pub buffer_ : Bytes

pub record Sourcebuf (S : Type 0) : Type 0 where
  pub stream_can_read_ : Bool
  pub source_ : S
  pub info_ : Info

-- The constructor, with 512 for the size of the buffer.
unfoldable pub new_sourcebuf : {S : Type 0} → S → Sourcebuf S
new_sourcebuf s = record {
  stream_can_read_ = true;
  source_ = s;
  info_ = record {
    rdpos_ = 0;
    bufoff_ = 0;
    buffill_ = 0;
    atend_ = false;
    buffer_ = replicate 512 0;
  };
}

-- `offset` as a `size_t`.
abbrev pub as_size : Option ℕ → ℕ
as_size none = size_mod - 1
as_size (some p) = p

-- `if (offset) info_.rdpos_ = offset;`
abbrev pub moved : Option ℕ → ℕ → ℕ
moved offset rdpos = if as_size offset == 0 then rdpos else as_size offset

unfoldable pub in_avail : {S : Type 0} → Sourcebuf S → ℕ
in_avail b =
    let i = b.info_ in
    if not b.stream_can_read_
      || i.buffill_ == 0
      || ltb i.rdpos_ i.bufoff_
      || ltb (add_size i.bufoff_ i.buffill_) i.rdpos_
    then 0
    else sub_size i.buffill_ (sub_size i.rdpos_ i.bufoff_)

unfoldable pub buffer_size : {S : Type 0} → Bool → Sourcebuf S → ℕ
buffer_size is_in b = if is_in then length b.info_.buffer_ else 0

-- What a read has copied, and the buffer. `none` means that the fuel ran out.
abbrev pub Copied : Type 0 → Type 0
Copied S = Option (Bytes × Sourcebuf S)

abbrev pub behind : {S : Type 0} → Bytes → Copied S → Copied S
behind out none = none
behind out (some (out', b)) = some (out ++ out', b)

abbrev pub advanced : {S : Type 0} → Bool → ℕ → Sourcebuf S → Sourcebuf S
advanced advance n b =
    if advance
    then record b { info_ = record b.info_ { rdpos_ = add_size b.info_.rdpos_ n } }
    else b

module _ {S : Type 0} (source : Source S) where
  unfoldable pub fill_buffer : ℕ → Option ℕ → Sourcebuf S → ℕ × Sourcebuf S
  fill_buffer count offset b =
      let i = b.info_ in
      let countr = if ltb (length i.buffer_) count then length i.buffer_ else count in
      let (out, s) = Source.read source b.source_ countr offset in
      let totalr = length out in
      let rdpos = moved offset i.rdpos_ in
      let filled : Info = if totalr == 0 then i else record i {
        rdpos_ = rdpos;
        bufoff_ = rdpos;
        buffill_ = totalr;
        buffer_ = copy_at i.buffer_ 0 out;
      } in
      (totalr, record b { source_ = s; info_ = record filled { atend_ = ltb totalr countr } })

  -- The loop of `read`, with fuel: `fillcount` characters are wanted and `totalr` have been copied.
  unfoldable pub read_loop : ℕ → ℕ → ℕ → Bool → Sourcebuf S → Copied S
  unfolding fill_buffer
  read_loop zero fillcount totalr advance b = none
  read_loop (suc fuel) fillcount totalr advance b =
      let (avail, b') = fill_buffer fillcount none b in
      let count = if leb fillcount avail then fillcount else avail in
      let left = if ltb avail fillcount then fillcount - avail else 0 in
      let out = take count b'.info_.buffer_ in
      let b'' = advanced advance (add_size totalr count) b' in
      let rest = read_loop fuel left (add_size totalr count) advance b'' in
      if avail == 0 then some ([], b') else if left == 0 then some (out, b'') else behind out rest

  unfoldable pub read : ℕ → ℕ → Bool → Sourcebuf S → Copied S
  unfolding read_loop in_avail
  read fuel count advance b =
      let bufoff = sub_size b.info_.rdpos_ b.info_.bufoff_ in
      let avail = in_avail b in
      if leb count avail
      then some (take count (drop bufoff b.info_.buffer_), advanced advance count b)
      else let b' = if avail == 0 then b else advanced advance avail b in
        behind (take avail (drop bufoff b.info_.buffer_))
          (read_loop fuel (count - avail) avail advance b')

  -- `read_size == 1 ? value : eof`
  abbrev pub byte_of : Copied S → Option (IntType × Sourcebuf S)
  byte_of none = none
  byte_of (some ([], b)) = some (eof, b)
  byte_of (some (c ∷ cs, b)) = some (ch c, b)

  -- `read_byte`, which does not pass `advance` on.
  unfoldable pub read_byte : ℕ → Bool → Sourcebuf S → Option (IntType × Sourcebuf S)
  unfolding read
  read_byte fuel advance b = byte_of (read fuel 1 true b)

  -- The tasks of `getn` and `bumpc`, and the synchronous reads.
  abbrev pub getn_task : ℕ → ℕ → Sourcebuf S → Copied S
  getn_task fuel count b = read fuel count true b

  abbrev pub scopy : ℕ → ℕ → Sourcebuf S → Copied S
  scopy fuel count b = read fuel count true b

  abbrev pub sbumpc : ℕ → Sourcebuf S → Option (IntType × Sourcebuf S)
  sbumpc fuel b = read_byte fuel true b

  abbrev pub sgetc : ℕ → Sourcebuf S → Option (IntType × Sourcebuf S)
  sgetc fuel b = read_byte fuel false b

  -- `seekpos` for the mode `in`; `none` is `traits::eof()`.
  unfoldable pub seekpos : ℤ → Sourcebuf S → Option ℕ × Sourcebuf S
  unfolding fill_buffer
  seekpos (negsuc n) b = (none, b)
  seekpos (pos p) b =
      let i = b.info_ in
      let moved_to : Sourcebuf S = record b { info_ = record i { rdpos_ = p } } in
      let filled = (fill_buffer (length i.buffer_) (some p) b).1 in
      let b' =
        if ltb (add_size i.bufoff_ i.buffill_) p || ltb p i.bufoff_ then moved_to else filled in
      if not b.stream_can_read_ || ltb (Source.size source b.source_) p
      then (none, b)
      else (some b'.info_.rdpos_, b')

  -- `seekoff` from the current position.
  unfoldable pub seekoff_cur : ℤ → Sourcebuf S → Option ℕ × Sourcebuf S
  unfolding seekpos
  seekoff_cur offset b = seekpos (pos b.info_.rdpos_ +ℤ offset) b

  unfoldable pub seekoff_end : ℤ → Sourcebuf S → Option ℕ × Sourcebuf S
  unfolding seekpos
  seekoff_end offset b = seekpos (pos (Source.size source b.source_) +ℤ offset) b

  abbrev pub seekoff_beg : ℤ → Sourcebuf S → Option ℕ × Sourcebuf S
  seekoff_beg offset b = seekpos offset b

  unfoldable pub close_read : Sourcebuf S → Sourcebuf S
  close_read b = record b { stream_can_read_ = false; source_ = Source.close source b.source_ }
