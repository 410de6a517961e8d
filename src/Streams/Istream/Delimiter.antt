-- ===== src/Streams/Istream/Delimiter.antt =====
-- Reading up to a delimiter: what the loop of `read_to_delim` makes of the source's unread bytes.
use snode.Prelude.{
  ℕ, zero, suc, ◌+◌, ◌≡◌, ◌≢◌, ◌<◌, refl, sym, ap, ◌∙◌, true, false, [], ◌∷◌, ◌++◌, Bytes, length,
  length-append, ◌==◌, arith, All, append_assoc, append-nil,
}
use snode.Streams.Streambuf
use snode.Streams.Streambuf.{Streambuf}
use snode.Streams.Streambuf.Reads.{Holds, in_avail-Holds, sbumpc-Holds}
use snode.Streams.Istream.{
  buf_size, Reader, resume, Outcome, returns, delim_loop, read_to_delim, target_putn, after-nil,
}
use snode.Streams.Istream.Stores.{
  moved, kept, store_room, delim_turn_other, delim_turn_end, delim_step, delim_idle,
}

-- A turn for a character before the delimiter.
delim_keeps :
    (fuel : ℕ) (r : Reader) (delim c : ℕ) (cs : Bytes)
    → Holds r.sourcebuf_ (c ∷ cs)
    → c ≢ delim
    → r.helper_.write_pos + 1 < buf_size
    → delim_loop (suc fuel) delim r ≡ delim_loop fuel delim (kept c (moved r))
delim_keeps fuel r delim c cs h n room =
    delim_step fuel r delim c cs h
    ∙ ap (resume (delim_loop fuel delim))
        (delim_turn_other delim c (moved r) n ∙ store_room c (moved r) room)
    ∙ after-nil (delim_loop fuel delim (kept c (moved r)))

-- What the loop leaves when it has come to the delimiter.
pub record Found (r : Reader) (pre rest : Bytes) (o : Outcome) : Type 0 where
  pub reader : Reader
  pub flushes : o ≡ returns (target_putn (r.helper_.outbuf ++ pre) ∷ []) reader
  pub left : Holds reader.sourcebuf_ rest
  pub ended : reader.at_end ≡ true
  pub totals : reader.helper_.total ≡ r.helper_.total

delim_loop_finds :
    (fuel : ℕ) (r : Reader) (delim : ℕ) (pre rest : Bytes)
    → Holds r.sourcebuf_ (pre ++ delim ∷ rest)
    → All (λ c. c ≢ delim) pre
    → r.helper_.write_pos + length pre < buf_size
    → length pre < fuel
    → Found r pre rest (delim_loop fuel delim r)
delim_loop_finds zero r delim pre rest h n room f = absurd (omega arith)
delim_loop_finds (suc fuel) r delim [] rest h n room f = record {
  reader = record (moved r) { at_end = true };
  flushes =
      delim_step fuel r delim delim rest h
      ∙ ap (resume (delim_loop fuel delim)) (delim_turn_end delim (moved r))
      ∙ ap (λ u. returns (target_putn u ∷ []) (record (moved r) { at_end = true }))
          (sym (append-nil r.helper_.outbuf));
  left = (sbumpc-Holds h).1;
  ended = refl;
  totals = refl;
}
delim_loop_finds (suc fuel) r delim (c ∷ pre) rest h n room f =
    let ih =
      delim_loop_finds fuel (kept c (moved r)) delim pre rest (sbumpc-Holds h).1 n.1 (omega arith)
        (omega arith) in
    record {
      reader = ih.reader;
      flushes =
          delim_keeps fuel r delim c (pre ++ delim ∷ rest) h n.0 (omega arith)
          ∙ ih.flushes
          ∙ ap (λ u. returns (target_putn u ∷ []) ih.reader)
              (append_assoc r.helper_.outbuf (c ∷ []) pre);
      left = ih.left;
      ended = ih.ended;
      totals = ih.totals;
    }

-- What it leaves when there is no delimiter.
pub record Stalled (r : Reader) (o : Outcome) : Type 0 where
  pub reader : Reader
  pub silent : o ≡ returns [] reader
  pub emptied : Holds reader.sourcebuf_ []
  pub not_waiting : reader.sourcebuf_.impl_.requests_ ≡ r.sourcebuf_.impl_.requests_

delim_loop_stalls :
    (fuel : ℕ) (r : Reader) (delim : ℕ) (u : Bytes)
    → Holds r.sourcebuf_ u
    → All (λ c. c ≢ delim) u
    → r.helper_.write_pos + length u < buf_size
    → length u < fuel
    → Stalled r (delim_loop fuel delim r)
delim_loop_stalls zero r delim u h n room f = absurd (omega arith)
delim_loop_stalls (suc fuel) r delim [] h n room f = record {
  reader = r;
  silent = delim_idle fuel r delim h;
  emptied = h;
  not_waiting = refl;
}
delim_loop_stalls (suc fuel) r delim (c ∷ u) h n room f =
    let ih =
      delim_loop_stalls fuel (kept c (moved r)) delim u (sbumpc-Holds h).1 n.1 (omega arith)
        (omega arith) in
    record {
      reader = ih.reader;
      silent = delim_keeps fuel r delim c u h n.0 (omega arith) ∙ ih.silent;
      emptied = ih.emptied;
      not_waiting = ih.not_waiting ∙ (sbumpc-Holds h).2.requests;
    }

-- Where the unread bytes of a source that is well-formed and open for reading are some that are
-- not the delimiter and fit into the array of the reader with room to spare, the delimiter, and
-- others, read_to_delim gives the target all before the delimiter, behind what was stored already,
-- leaves the source with those behind it, and marks its end.
pub read_to_delim_finds :
    (r : Reader) (delim : ℕ) (pre rest : Bytes)
    → Holds r.sourcebuf_ (pre ++ delim ∷ rest)
    → All (λ c. c ≢ delim) pre
    → r.helper_.write_pos + length pre < buf_size
    → Found r pre rest (read_to_delim (suc (Streambuf.in_avail r.sourcebuf_)) delim r)
unfolding read_to_delim
read_to_delim_finds r delim pre rest h n room =
    let many : Streambuf.in_avail r.sourcebuf_ ≡ length pre + suc (length rest) =
      in_avail-Holds h ∙ length-append pre (delim ∷ rest) in
    let some : (Streambuf.in_avail r.sourcebuf_ == 0) ≡ false = ground arith in
    rw some (
      delim_loop_finds (suc (Streambuf.in_avail r.sourcebuf_)) r delim pre rest h n room
        (omega arith))

-- Where a well-formed source open for reading has unread bytes, none of them the delimiter, that
-- fit into the array of the reader with room to spare, read_to_delim takes them all and returns
-- without a call of the handler, of the target or of bumpc, and so with no request more at the
-- source.
pub read_to_delim_stalls :
    (r : Reader) (delim c : ℕ) (cs : Bytes)
    → Holds r.sourcebuf_ (c ∷ cs)
    → All (λ x. x ≢ delim) (c ∷ cs)
    → r.helper_.write_pos + length (c ∷ cs) < buf_size
    → Stalled r (read_to_delim (suc (Streambuf.in_avail r.sourcebuf_)) delim r)
unfolding read_to_delim
read_to_delim_stalls r delim c cs h n room =
    let some : (Streambuf.in_avail r.sourcebuf_ == 0) ≡ false = ground (arith, in_avail-Holds h) in
    rw some (
      delim_loop_stalls (suc (Streambuf.in_avail r.sourcebuf_)) r delim (c ∷ cs) h n room
        (omega (arith, in_avail-Holds h)))
