-- ===== src/Streams/Istream/Tests.antt =====
-- Reading from a stream buffer on small inputs, and the properties at them.
use snode.Prelude.{List, suc, ◌≡◌, refl, true, false, [], ◌∷◌, arith, Bytes}
use snode.Streams.Block.{Block, unread}
use snode.Streams.ProducerConsumer.{ch}
use snode.Streams.Streambuf
use snode.Streams.Streambuf.{Streambuf}
use snode.Streams.Streambuf.Samples.{holding, holding-Holds}
use snode.Streams.Block
use snode.Streams.Istream.{
  Outcome, Event, overrun, out_of_fuel, Reader, new_reader, read_to_delim, delim_on_read, read_line,
  line_on_read, target_putn, returns, cr, lf,
}
use snode.Streams.Istream.Delimiter.{Found, read_to_delim_finds, Stalled, read_to_delim_stalls}
use snode.Streams.Istream.Line.{Overread, read_line_overreads}
use snode.Streams.Istream.Bounds.{IsSafe, reading_bounds}
use snode.Streams.Istream.ToEnd.{
  EndReader, read_to_end, respond, given, calls, read_to_end_completes,
}

abbrev reader : Bytes → Reader
reader u = new_reader 1 (holding true u)

-- What the callback does.
abbrev events : Outcome → List Event
events (returns es r) = es
events overrun = []
events out_of_fuel = []

-- A delimiter in front leaves nothing to write, and `putn` of nothing calls no handler.
found-first : events (read_to_delim 5 44 (reader (44 ∷ 97 ∷ []))) ≡ target_putn [] ∷ []
unfolding read_to_delim Block.read
found-first = refl

-- The two lines are given to the target as one write each, the second with the first before it.
two_lines :
    events (read_line 9 (reader (97 ∷ cr ∷ lf ∷ 98 ∷ cr ∷ lf ∷ [])))
    ≡ target_putn (97 ∷ []) ∷ target_putn (97 ∷ 98 ∷ []) ∷ []
unfolding read_line Block.read
two_lines = refl

read_to_delim_finds_example : Found (reader (97 ∷ 98 ∷ 44 ∷ 99 ∷ [])) (97 ∷ 98 ∷ []) (99 ∷ []) (
    read_to_delim
      (suc (Streambuf.in_avail (holding true (97 ∷ 98 ∷ 44 ∷ 99 ∷ []))))
      44
      (reader (97 ∷ 98 ∷ 44 ∷ 99 ∷ [])))
read_to_delim_finds_example =
    read_to_delim_finds (reader (97 ∷ 98 ∷ 44 ∷ 99 ∷ [])) 44 (97 ∷ 98 ∷ []) (99 ∷ [])
      (holding-Holds true (97 ∷ 98 ∷ 44 ∷ 99 ∷ []) (omega arith)) (omega arith, (omega arith, tt))
      (omega arith)

stalled : Stalled (reader (97 ∷ 98 ∷ [])) (
    read_to_delim
      (suc (Streambuf.in_avail (holding true (97 ∷ 98 ∷ []))))
      44
      (reader (97 ∷ 98 ∷ [])))
stalled =
    read_to_delim_stalls (reader (97 ∷ 98 ∷ [])) 44 97 (98 ∷ [])
      (holding-Holds true (97 ∷ 98 ∷ []) (omega arith)) (omega arith, (omega arith, tt))
      (omega arith)

overread : Overread (reader (97 ∷ cr ∷ lf ∷ 98 ∷ [])) (97 ∷ []) (
    read_line
      (suc (Streambuf.in_avail (holding true (97 ∷ cr ∷ lf ∷ 98 ∷ []))))
      (reader (97 ∷ cr ∷ lf ∷ 98 ∷ [])))
overread =
    read_line_overreads (reader (97 ∷ cr ∷ lf ∷ 98 ∷ [])) (97 ∷ []) (98 ∷ [])
      (holding-Holds true (97 ∷ cr ∷ lf ∷ 98 ∷ []) (omega arith)) (omega arith, tt)
      (omega arith, tt) (omega arith)

reading_bounds_example :
    let r = reader (97 ∷ 44 ∷ []) in
    let fuel = suc (Streambuf.in_avail (holding true (97 ∷ 44 ∷ []))) in
    IsSafe (read_to_delim fuel 44 r)
    × IsSafe (delim_on_read fuel 44 (ch 98) r)
    × IsSafe (read_line fuel r)
    × IsSafe (line_on_read fuel (ch 98) r)
reading_bounds_example =
    reading_bounds (reader (97 ∷ 44 ∷ [])) (97 ∷ 44 ∷ []) 44 (ch 98)
      (record { counted = refl; room = omega arith })
      (holding-Holds true (97 ∷ 44 ∷ []) (omega arith))

abbrev end_reader : EndReader
end_reader = record { op = 1; ptr = 100; sourcebuf_ = holding false (97 ∷ 98 ∷ []); total = 0 }

read_to_end_completes_example :
    let (cs, r') = read_to_end end_reader in
    let es = respond 3 cs r' in (given es ≡ 97 ∷ 98 ∷ []) × (calls es ≡ 2 ∷ [])
read_to_end_completes_example =
    read_to_end_completes end_reader (97 ∷ 98 ∷ [])
      (holding-Holds false (97 ∷ 98 ∷ []) (omega arith)) refl refl
