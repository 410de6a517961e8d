-- ===== src/Streams/Heads.antt =====
-- The stream heads `async_ostream` and `async_istream` of src/async_streams.h. A head is a shared
-- pointer to a stream buffer, so the buffers stand in a store by their address, and copies of a head
-- have its address. The calls that a null head makes through its pointer are undefined. Left out are
-- `peek` and `seek`, whose call of the buffer does not compile with this implementation, the `read`
-- of one character, which returns the result of a `void` function, and `extract`, which is empty; the
-- calls that read up to a delimiter, a line or the end are in Istream, and those that copy a number of
-- characters do not compile with these buffers.
pub mod Closing
mod Tests
use snode.Prelude.{
  ℕ, Bool, true, false, not, ◌&&◌, List, [], ◌∷◌, ◌++◌, Option, none, some, Bytes, ◌==◌,
  if◌then◌else◌,
}
use snode.Streams.ProducerConsumer.{Completion}
use snode.Streams.Container.{OpenMode}
use snode.Streams.Streambuf
use snode.Streams.Streambuf.{Streambuf, Outcome, Work}

abbrev pub Store : Type 0
Store = ℕ → Streambuf

-- `buffer_`; `none` is `nullptr`.
abbrev pub Head : Type 0
Head = Option ℕ

pub data Called (A : Type 0) : Type 0 where
  done : A → Called A
  thrown asserted undefined : Called A

abbrev pub lift : {A : Type 0} → Outcome A → Called A
lift (Outcome.ok a) = done a
lift Outcome.throws = thrown
lift Outcome.asserts = asserted

-- The store after a call on one buffer.
abbrev pub put : ℕ → Streambuf → Store → Store
put p s st k = if p == k then s else st k

abbrev pub stored : ℕ → Store → Streambuf × List Completion → Store × List Completion
stored p st (s, cs) = (put p s st, cs)

abbrev pub stored_outcome :
    ℕ → Store → Outcome (Streambuf × List Completion) → Called (Store × List Completion)
stored_outcome p st (Outcome.ok (s, cs)) = done (put p s st, cs)
stored_outcome p st Outcome.throws = thrown
stored_outcome p st Outcome.asserts = asserted

-- `verify_and_throw` of each head, in front of the rest of a call.
unfoldable pub verify_out : {A : Type 0} → Head → Store → (ℕ → Called A) → Called A
verify_out none st rest = undefined
verify_out (some p) st rest = if not (Streambuf.can_write (st p)) then thrown else rest p

unfoldable pub verify_in : {A : Type 0} → Head → Store → (ℕ → Called A) → Called A
verify_in none st rest = undefined
verify_in (some p) st rest = if not (Streambuf.can_read (st p)) then thrown else rest p

unfoldable pub new_ostream : Head → Store → Called Head
unfolding verify_out
new_ostream h st = verify_out h st (λ p. done (some p))

unfoldable pub new_istream : Head → Store → Called Head
unfolding verify_in
new_istream h st = verify_in h st (λ p. done (some p))

abbrev pub mode_of : Bool → OpenMode
mode_of out = record { mode_in = not out; mode_out = out }

unfoldable pub close_ostream : Head → Store → Store × List Completion
unfolding Streambuf.close
close_ostream none st = (st, [])
close_ostream (some p) st = stored p st (Streambuf.close (mode_of true) (st p))

unfoldable pub close_istream : Head → Store → Store × List Completion
unfolding Streambuf.close
close_istream none st = (st, [])
close_istream (some p) st = stored p st (Streambuf.close (mode_of false) (st p))

-- The calls of the output head. A write hands work to the worker thread.
unfoldable pub write_ch : ℕ → ℕ → Head → Store → Called (List Work)
unfolding verify_out Streambuf.putc
write_ch op c h st = verify_out h st (λ p. done (Streambuf.putc op c (st p)))

unfoldable pub print : ℕ → Bytes → Head → Store → Called (List Work)
unfolding verify_out Streambuf.putn
print op str h st = verify_out h st (λ p. done (Streambuf.putn op str (st p)))

-- `value_string_formatter<uint8_t>::format`, given the text that `ss << val` makes of the value: the
-- result is built from a pointer, and so ends in front of the first 0.
abbrev pub format : Bytes → Bytes
format [] = []
format (c ∷ text) = let rest = format text in if c == 0 then [] else c ∷ rest

unfoldable pub print_value : ℕ → Bytes → Head → Store → Called (List Work)
unfolding verify_out print
print_value op text h st = verify_out h st (λ p. print op (format text) h st)

unfoldable pub print_line : ℕ → Bytes → Head → Store → Called (List Work)
unfolding verify_out print
print_line op text h st = verify_out h st (λ p. print op (format text ++ 10 ∷ []) h st)

unfoldable pub flush : Head → Store → Called (Store × List Completion)
unfolding verify_out Streambuf.sync
flush h st = verify_out h st (λ p. stored_outcome p st (Streambuf.sync (st p)))

-- `none` in the result is `traits::eof()`.
unfoldable pub tell_out : Head → Store → Called (Option ℕ)
unfolding verify_out Streambuf.getpos
tell_out h st = verify_out h st (λ p. done (Streambuf.getpos (mode_of true) (st p)))

unfoldable pub is_open_out : Head → Store → Bool
is_open_out none st = false
is_open_out (some p) st = Streambuf.can_write (st p)

-- The calls of the input head.
unfoldable pub is_eof : Head → Store → Bool
unfolding Streambuf.is_eof
is_eof none st = false
is_eof (some p) st = Streambuf.is_eof (st p)

unfoldable pub tell_in : Head → Store → Called (Option ℕ)
unfolding verify_in Streambuf.getpos
tell_in h st = verify_in h st (λ p. done (Streambuf.getpos (mode_of false) (st p)))

unfoldable pub is_open_in : Head → Store → Bool
is_open_in none st = false
is_open_in (some p) st = Streambuf.can_read (st p)
