-- ===== src/Streams/Istream.antt =====
-- `async_istream::delim_read_impl` and `line_read_impl` of src/async_streams.h: reading up to a
-- delimiter and reading a line. The callbacks that they bind are functions of the reader's state. The
-- target buffer is a template parameter, so the calls on it are listed as events in their order,
-- with those of the user's handler. `outbuf` is the list of the first `write_pos` characters of the
-- array, which holds `buf_size` of them.
pub mod ToEnd
pub mod Stores
pub mod Delimiter
pub mod Line
pub mod Bounds
mod Tests
use snode.Prelude.{
  not, ◌||◌, ℕ, zero, suc, ◌+◌, ◌*◌, ◌≡◌, ◌≤◌, refl, Bool, true, false, List, [], ◌∷◌, ◌++◌, Bytes,
  length, ltb, ◌==◌, if◌then◌else◌, add_size,
}
use snode.Streams.ProducerConsumer.{Completion, IntType, ch, eof, requires_async}
use snode.Streams.Streambuf
use snode.Streams.Streambuf.{Streambuf}

abbrev pub buf_size : ℕ
buf_size = 16384

abbrev pub cr : ℕ
cr = b'\r'

abbrev pub lf : ℕ
lf = b'\n'

pub record ReadHelper : Type 0 where
  pub total : ℕ
  pub outbuf : Bytes
  pub write_pos : ℕ

abbrev pub new_helper : ReadHelper
new_helper = record { total = 0; outbuf = []; write_pos = 0 }

unfoldable pub is_full : ReadHelper → Bool
is_full h = h.write_pos == buf_size

-- What a callback does besides changing the state: `putn` of the given bytes and `sync` on the
-- target, `bumpc` or `getn` on the source with what the source completes at once, and a call of the
-- user's handler.
pub data Event : Type 0 where
  target_putn : Bytes → Event
  target_sync : Event
  source_bumpc source_getn : List Completion → Event
  handler_call : ℕ → Event

-- `op` names the reader's requests to the source. `at_end` is `eof_or_delim_` or `eof_or_crlf_`.
pub record Reader : Type 0 where
  pub op : ℕ
  pub sourcebuf_ : Streambuf
  pub at_end : Bool
  pub helper_ : ReadHelper

abbrev pub new_reader : ℕ → Streambuf → Reader
new_reader op s = record { op = op; sourcebuf_ = s; at_end = false; helper_ = new_helper }

-- `overrun` is a store past the end of `outbuf`.
pub data Outcome : Type 0 where
  returns : List Event → Reader → Outcome
  overrun out_of_fuel : Outcome

-- Whether a character ends the callback, by `break` or at its end, or the loop goes on.
pub data Turn : Type 0 where
  leave : List Event → Reader → Turn
  go_on : List Event → Reader → Turn
  stray : Turn

abbrev pub after : List Event → Outcome → Outcome
after es (returns es' r) = returns (es ++ es') r
after es overrun = overrun
after es out_of_fuel = out_of_fuel

pub after-nil : (o : Outcome) → after [] o ≡ o
after-nil (returns es r) = refl
after-nil overrun = refl
after-nil out_of_fuel = refl

abbrev pub resume : (Reader → Outcome) → Turn → Outcome
resume loop (leave es r) = returns es r
resume loop (go_on es r) = after es (loop r)
resume loop stray = overrun

unfoldable pub await : Reader → Turn
unfolding Streambuf.bumpc
await r =
    let (s, cs) = Streambuf.bumpc r.op r.sourcebuf_ in
    leave (source_bumpc cs ∷ []) (record r { sourcebuf_ = s })

abbrev pub flush : Reader → Event
flush r = target_putn r.helper_.outbuf

unfoldable pub finish : Reader → Turn
finish r = leave (flush r ∷ []) (record r { at_end = true })

-- `outbuf[write_pos] = ch; write_pos += 1;` and the flush of a full array.
unfoldable pub store : ℕ → Reader → Turn
unfolding is_full
store c r =
    let h : ReadHelper = record r.helper_ {
      outbuf = r.helper_.outbuf ++ c ∷ [];
      write_pos = r.helper_.write_pos + 1;
    } in
    let r' : Reader = record r { helper_ = h } in
    if ltb r.helper_.write_pos buf_size
    then (if is_full h then leave (flush r' ∷ []) r' else go_on [] r')
    else stray

-- One turn of the loop of `read_to_delim`, for what `sbumpc` returned.
unfoldable pub delim_turn : ℕ → IntType → Reader → Turn
unfolding await finish store
delim_turn delim requires_async r = await r
delim_turn delim eof r = finish r
delim_turn delim (ch c) r = if c == delim then finish r else store c r

abbrev pub bumped : IntType × Streambuf → (IntType → Reader → Turn) → Reader → Turn
bumped (value, s) turn r = turn value (record r { sourcebuf_ = s })

-- The loop, with fuel.
unfoldable pub delim_loop : ℕ → ℕ → Reader → Outcome
unfolding Streambuf.in_avail Streambuf.sbumpc delim_turn
delim_loop zero delim r = out_of_fuel
delim_loop (suc fuel) delim r =
    if ltb 0 (Streambuf.in_avail r.sourcebuf_)
    then resume (delim_loop fuel delim)
        (bumped (Streambuf.sbumpc r.sourcebuf_) (delim_turn delim) r)
    else returns [] r

-- `delim_read_impl::read_to_delim`
unfoldable pub read_to_delim : ℕ → ℕ → Reader → Outcome
unfolding delim_loop await
read_to_delim fuel delim r =
    if Streambuf.in_avail r.sourcebuf_ == 0
    then resume (λ r'. returns [] r') (await r)
    else delim_loop fuel delim r

-- A character for `on_read`; the value for `requires_async`, −2, is stored as 254.
unfoldable pub delim_read_turn : ℕ → IntType → Reader → Turn
unfolding finish store
delim_read_turn delim requires_async r = store 254 r
delim_read_turn delim eof r = finish r
delim_read_turn delim (ch c) r = if c == delim then finish r else store c r

-- `delim_read_impl::on_read`
unfoldable pub delim_on_read : ℕ → ℕ → IntType → Reader → Outcome
unfolding delim_read_turn read_to_delim
delim_on_read fuel delim value r = resume (read_to_delim fuel delim) (delim_read_turn delim value r)

abbrev pub written : ℕ → Reader → Reader
written count r = record r {
  helper_ = record { total = add_size r.helper_.total count; outbuf = []; write_pos = 0 };
}

-- `on_write` of both readers, with the call that goes on reading.
unfoldable pub on_write : (Reader → Outcome) → ℕ → Reader → Outcome
on_write again count r =
    if count == 0
    then returns (handler_call r.helper_.total ∷ []) r
    else after (target_sync ∷ []) (
        if r.at_end
        then returns (handler_call count ∷ []) (written count r)
        else again (written count r))

unfoldable pub delim_on_write : ℕ → ℕ → ℕ → Reader → Outcome
unfolding on_write read_to_delim
delim_on_write fuel delim count r = on_write (read_to_delim fuel delim) count r

abbrev after_peek : IntType × Streambuf → Streambuf
after_peek (ch c, s) = if c == lf then (Streambuf.sbumpc s).1 else s
after_peek (eof, s) = s
after_peek (requires_async, s) = s

-- `line_read_impl::update_after_cr`
unfoldable pub update_after_cr : Reader → List Event × Reader
unfolding Streambuf.sgetc Streambuf.sbumpc
update_after_cr r =
    let r' : Reader = record r {
      sourcebuf_ = after_peek (Streambuf.sgetc r.sourcebuf_);
      at_end = true;
    } in
    (flush r' ∷ [], r')

abbrev pub goes_on : List Event × Reader → Turn
goes_on (es, r) = go_on es r

-- One turn of the loop of `read_line`, which goes on behind a line's end.
unfoldable pub line_turn : IntType → Reader → Turn
unfolding await finish store update_after_cr
line_turn requires_async r = await r
line_turn eof r = finish r
line_turn (ch c) r = if c == cr then goes_on (update_after_cr r) else store c r

unfoldable pub line_loop : ℕ → Reader → Outcome
unfolding Streambuf.in_avail Streambuf.sbumpc line_turn
line_loop zero r = out_of_fuel
line_loop (suc fuel) r =
    if ltb 0 (Streambuf.in_avail r.sourcebuf_)
    then resume (line_loop fuel) (bumped (Streambuf.sbumpc r.sourcebuf_) line_turn r)
    else returns [] r

-- `line_read_impl::read_line`
unfoldable pub read_line : ℕ → Reader → Outcome
unfolding line_loop await
read_line fuel r =
    if Streambuf.in_avail r.sourcebuf_ == 0
    then resume (λ r'. returns [] r') (await r)
    else line_loop fuel r

abbrev leaves : List Event × Reader → Turn
leaves (es, r) = leave es r

-- What `line_read_impl::on_read` makes of a character, which does not go on behind a line's end.
unfoldable pub line_read_turn : IntType → Reader → Turn
unfolding finish store update_after_cr
line_read_turn requires_async r = store 254 r
line_read_turn eof r = finish r
line_read_turn (ch c) r = if c == cr then leaves (update_after_cr r) else store c r

unfoldable pub line_on_read : ℕ → IntType → Reader → Outcome
unfolding line_read_turn read_line
line_on_read fuel value r = resume (read_line fuel) (line_read_turn value r)

unfoldable pub line_on_write : ℕ → ℕ → Reader → Outcome
unfolding on_write read_line
line_on_write fuel count r = on_write (read_line fuel) count r

-- `async_istream::read_to_delim` and `read_line`: both ends are tested before the reader is made. The
-- Boolean tells whether the target is open for writing.
unfoldable pub start_read_to_delim : ℕ → ℕ → ℕ → Streambuf → Bool → Streambuf.Outcome Outcome
unfolding read_to_delim
start_read_to_delim fuel op delim s writable =
    if not (Streambuf.can_read s) || not writable
    then Streambuf.throws
    else Streambuf.ok (read_to_delim fuel delim (new_reader op s))

unfoldable pub start_read_line : ℕ → ℕ → Streambuf → Bool → Streambuf.Outcome Outcome
unfolding read_line
start_read_line fuel op s writable =
    if not (Streambuf.can_read s) || not writable
    then Streambuf.throws
    else Streambuf.ok (read_line fuel (new_reader op s))
