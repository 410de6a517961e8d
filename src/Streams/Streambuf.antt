-- ===== src/Streams/Streambuf.antt =====
-- `async_streambuf<uint8_t, producer_consumer_buffer<uint8_t>>` of src/async_streams.h: the public
-- calls of a stream buffer, which test the I/O mode and hand the work to the implementation. The
-- flags `stream_can_read_` and `stream_can_write_` of the base class are those of `impl_`. `throws`
-- stands for an exception and `asserts` for a failed `assert` of the implementation. Left out are
-- `getc` and `nextc`, whose implementation does not compile where it is used, `putn_nocopy`, which
-- calls its implementation without the handler, and `seekoff`, which calls a `seekof`.
pub mod Laws
pub mod Reads
pub mod Samples
pub mod Calls
pub mod Allocblock
pub mod Protocol
mod Tests
use snode.Prelude.{
  ℕ, ◌≡◌, Bool, true, false, not, ◌&&◌, ◌||◌, List, [], ◌∷◌, ◌++◌, Option, none, some, Bytes, ◌==◌,
  if◌then◌else◌,
}
use snode.Streams.ProducerConsumer.{
  Buffer, Completion, write_done, put_done, ch_done, read_done, IntType, ch, eof, requires_async,
  SyncRead, copied, would_block, new_buffer,
}
use snode.Streams.Container.{OpenMode}
use snode.Streams.ProducerConsumer
use snode.Streams.ProducerConsumer.Api
use snode.Streams.ProducerConsumer.Api.{Acquired}

pub data Outcome (A : Type 0) : Type 0 where
  ok : A → Outcome A
  throws asserts : Outcome A

pub record Streambuf : Type 0 where
  pub impl_ : Buffer
  pub stream_read_eof_ : Bool
  pub alloced_ : Bool

-- What a write hands to `async_task::connect`: a handler that is called with a value, or a task of
-- the implementation.
pub data Work : Type 0 where
  handler : Completion → Work
  put_n : ℕ → Bytes → Work
  put_c : ℕ → ℕ → Work

-- `create_shared_instance`, which opens the buffer for reading and writing.
unfoldable pub create_shared_instance : ℕ → Streambuf
unfolding new_buffer
create_shared_instance alloc_size = record {
  impl_ = new_buffer alloc_size;
  stream_read_eof_ = false;
  alloced_ = false;
}

abbrev pub can_read : Streambuf → Bool
can_read s = s.impl_.stream_can_read_

abbrev pub can_write : Streambuf → Bool
can_write s = s.impl_.stream_can_write_

unfoldable pub is_open : Streambuf → Bool
is_open s = can_read s || can_write s

unfoldable pub is_eof : Streambuf → Bool
is_eof s = s.stream_read_eof_

-- The stream heads, which hold the buffer itself.
unfoldable pub create_istream : Streambuf → Outcome Streambuf
create_istream s = if not (can_read s) then throws else ok s

unfoldable pub create_ostream : Streambuf → Outcome Streambuf
create_ostream s = if not (can_write s) then throws else ok s

unfoldable pub in_avail : Streambuf → ℕ
in_avail s = ProducerConsumer.in_avail s.impl_

-- `can_seek` and `has_size` are those of the implementation. `none` is `traits::eof()`.
unfoldable pub getpos : OpenMode → Streambuf → Option ℕ
unfolding Api.can_seek Api.getpos
getpos mode s = if Api.can_seek s.impl_ then Api.getpos mode.mode_in mode.mode_out s.impl_ else none

unfoldable pub check_sync_read_eof : IntType × Streambuf → IntType × Streambuf
check_sync_read_eof (eof, s) = (eof, record s { stream_read_eof_ = true })
check_sync_read_eof (value, s) = (value, record s { stream_read_eof_ = false })

abbrev pub with_impl : Streambuf → Buffer → Streambuf
with_impl s b = record s { impl_ = b }

abbrev pub inside : {A : Type 0} → Streambuf → A × Buffer → A × Streambuf
inside s (a, b) = (a, with_impl s b)

abbrev pub served : Streambuf → Buffer × List Completion → Streambuf × List Completion
served s (b, cs) = (with_impl s b, cs)

-- `close` for the directions of `mode`.
unfoldable pub close : OpenMode → Streambuf → Streambuf × List Completion
unfolding Api.close_read Api.close_write
close mode s =
    let s' = if mode.mode_in && can_read s then with_impl s (Api.close_read s.impl_) else s in
    if mode.mode_out && can_write s' then served s' (Api.close_write s'.impl_) else (s', [])

unfoldable pub putc : ℕ → ℕ → Streambuf → List Work
putc op c s = if not (can_write s) then handler (put_done op eof) ∷ [] else put_c op c ∷ []

unfoldable pub putn : ℕ → Bytes → Streambuf → List Work
putn op [] s = []
putn op (c ∷ src) s =
    if not (can_write s) then handler (write_done op 0) ∷ [] else put_n op (c ∷ src) ∷ []

-- The worker thread takes one piece of work.
unfoldable pub execute : Work → Streambuf → Streambuf × List Completion
unfolding Api.putn_task Api.putc_task
execute (handler c) s = (s, c ∷ [])
execute (put_n op src) s = served s (Api.putn_task op src s.impl_)
execute (put_c op c) s = served s (Api.putc_task op c s.impl_)

unfoldable pub bumpc : ℕ → Streambuf → Streambuf × List Completion
unfolding Api.bumpc
bumpc op s = if not (can_read s) then (s, ch_done op eof ∷ []) else served s (Api.bumpc op s.impl_)

unfoldable pub sbumpc : Streambuf → IntType × Streambuf
unfolding Api.sbumpc check_sync_read_eof
sbumpc s =
    if not (can_read s) then (eof, s) else check_sync_read_eof (inside s (Api.sbumpc s.impl_))

unfoldable pub sgetc : Streambuf → IntType × Streambuf
unfolding Api.sgetc check_sync_read_eof
sgetc s = if not (can_read s) then (eof, s) else check_sync_read_eof (inside s (Api.sgetc s.impl_))

unfoldable pub ungetc : ℕ → Streambuf → Outcome (Streambuf × List Completion)
unfolding Api.ungetc
ungetc op s = if not (can_read s) then throws else ok (served s (Api.ungetc op s.impl_))

unfoldable pub getn : ℕ → ℕ → ℕ → Streambuf → Streambuf × List Completion
unfolding Api.getn
getn op ptr count s =
    if count == 0
    then (s, [])
    else if not (can_read s)
    then (s, read_done op ptr [] ∷ [])
    else served s (Api.getn op ptr count s.impl_)

unfoldable pub sgetn : ℕ → Streambuf → SyncRead × Streambuf
unfolding Api.sgetn
sgetn count s =
    if count == 0 || not (can_read s) then (copied [], s) else inside s (Api.sgetn count s.impl_)

unfoldable pub scopy : ℕ → Streambuf → SyncRead × Streambuf
unfolding Api.scopy
scopy count s = if not (can_read s) then (copied [], s) else inside s (Api.scopy count s.impl_)

unfoldable pub sync : Streambuf → Outcome (Streambuf × List Completion)
unfolding Api.sync
sync s = if not (can_write s) then throws else ok (served s (Api.sync s.impl_))

-- The Boolean tells whether the returned pointer is not null.
unfoldable pub alloc : ℕ → Streambuf → Outcome (Bool × Streambuf)
unfolding Api.alloc
alloc count s =
    if not (can_write s)
    then ok (false, s)
    else if s.alloced_
    then throws
    else elim (Api.alloc count s.impl_) [
      | none ↦ asserts
      | some (ptr, b) ↦
          ok (ptr, record s { impl_ = b; alloced_ = if ptr then true else s.alloced_ })
    ]

-- The caller stores through the pointer that `alloc` returned.
abbrev pub store : Bytes → Streambuf → Streambuf
store src s = with_impl s (Api.store src s.impl_)

abbrev pub committed :
    Streambuf → Option (Buffer × List Completion) → Outcome (Streambuf × List Completion)
committed s none = asserts
committed s (some (b, cs)) = ok (record s { impl_ = b; alloced_ = false }, cs)

unfoldable pub commit : ℕ → Streambuf → Outcome (Streambuf × List Completion)
unfolding Api.commit
commit count s =
    if not (can_write s)
    then ok (s, [])
    else if not s.alloced_
    then throws
    else committed s (Api.commit count s.impl_)

-- Both test the mode for writing.
unfoldable pub acquire : Streambuf → Acquired
unfolding Api.acquire
acquire s =
    if can_write s then Api.acquire s.impl_ else record { result = false; ptr = none; count = 0 }

unfoldable pub release : ℕ → Streambuf → Outcome Streambuf
unfolding Api.release
release count s =
    if can_write s
    then elim (Api.release count s.impl_) [ none ↦ asserts | some b ↦ ok (with_impl s b) ]
    else ok s
