-- ===== src/Streams/Istream/Line.antt =====
-- Reading a line: the loop of `read_line` goes on behind the end of the line.
use mathlib.Core.Path.{subst}
use snode.Prelude.{
  ℕ, zero, suc, ◌+◌, ◌≡◌, ◌≢◌, ◌<◌, refl, sym, ap, ◌∙◌, true, false, [], ◌∷◌, ◌++◌, Bytes, length,
  length-append, ◌==◌, arith, All, append_assoc, append-nil,
}
use snode.Streams.Streambuf
use snode.Streams.Streambuf.{Streambuf}
use snode.Streams.Streambuf.Reads.{Holds, in_avail-Holds, sbumpc-Holds, sgetc-Holds}
use snode.Streams.Istream.{
  ReadHelper, buf_size, Reader, resume, after, flush, Outcome, returns, line_loop, read_line,
  target_putn, after-nil, cr, lf, update_after_cr, after_peek,
}
use snode.Streams.Istream.Stores.{
  moved, kept, store_room, line_turn_other, line_turn_end, line_step, line_idle,
}

-- A turn for a character of a line.
line_keeps :
    (fuel : ℕ) (r : Reader) (c : ℕ) (cs : Bytes)
    → Holds r.sourcebuf_ (c ∷ cs)
    → c ≢ cr
    → r.helper_.write_pos + 1 < buf_size
    → line_loop (suc fuel) r ≡ line_loop fuel (kept c (moved r))
line_keeps fuel r c cs h n room =
    line_step fuel r c cs h
    ∙ ap (resume (line_loop fuel)) (line_turn_other c (moved r) n ∙ store_room c (moved r) room)
    ∙ after-nil (line_loop fuel (kept c (moved r)))

-- The loop takes all characters where none of them ends a line.
record Drained (r : Reader) (o : Outcome) : Type 0 where
  reader : Reader
  silent : o ≡ returns [] reader
  emptied : Holds reader.sourcebuf_ []
  same : reader.at_end ≡ r.at_end

line_loop_drains :
    (fuel : ℕ) (r : Reader) (u : Bytes)
    → Holds r.sourcebuf_ u
    → All (λ c. c ≢ cr) u
    → r.helper_.write_pos + length u < buf_size
    → length u < fuel
    → Drained r (line_loop fuel r)
line_loop_drains zero r u h n room f = absurd (omega arith)
line_loop_drains (suc fuel) r [] h n room f = record {
  reader = r;
  silent = line_idle fuel r h;
  emptied = h;
  same = refl;
}
line_loop_drains (suc fuel) r (c ∷ u) h n room f =
    let ih =
      line_loop_drains fuel (kept c (moved r)) u (sbumpc-Holds h).1 n.1 (omega arith)
        (omega arith) in
    record {
      reader = ih.reader;
      silent = line_keeps fuel r c u h n.0 (omega arith) ∙ ih.silent;
      emptied = ih.emptied;
      same = ih.same;
    }

-- The line is given to the target and what follows it is taken off the source.
pub record Overread (r : Reader) (line : Bytes) (o : Outcome) : Type 0 where
  pub reader : Reader
  pub flushes : o ≡ returns (target_putn (r.helper_.outbuf ++ line) ∷ []) reader
  pub emptied : Holds reader.sourcebuf_ []
  pub ended : reader.at_end ≡ true

module _ (r : Reader) (rest : Bytes) (h : Holds r.sourcebuf_ (lf ∷ rest)) where
  past_lf : Holds (update_after_cr r).1.sourcebuf_ rest
  unfolding update_after_cr
  past_lf =
      let p = sgetc-Holds h in
      subst (λ v. Holds (after_peek (v, (Streambuf.sgetc r.sourcebuf_).1)) rest) (sym p.0)
        (sbumpc-Holds p.1).1

  update_after_cr_keeps :
      let (es, r') = update_after_cr r in
      (es ≡ flush r ∷ []) × (r'.helper_ ≡ r.helper_) × (r'.at_end ≡ true)
  unfolding update_after_cr
  update_after_cr_keeps = (refl, refl, refl)

line_loop_overreads :
    (fuel : ℕ) (r : Reader) (line rest : Bytes)
    → Holds r.sourcebuf_ (line ++ cr ∷ lf ∷ rest)
    → All (λ c. c ≢ cr) line
    → All (λ c. c ≢ cr) rest
    → r.helper_.write_pos + length line + length rest < buf_size
    → length line + length rest + 1 < fuel
    → Overread r line (line_loop fuel r)
line_loop_overreads zero r line rest h n m room f = absurd (omega arith)
line_loop_overreads (suc fuel) r [] rest h n m room f =
    let past = past_lf (moved r) rest (sbumpc-Holds h).1 in
    let up = update_after_cr_keeps (moved r) rest (sbumpc-Holds h).1 in
    let d =
      line_loop_drains fuel (update_after_cr (moved r)).1 rest past m
        (omega (arith, ap (λ (k : ReadHelper). k.write_pos) up.1)) (omega arith) in
    record {
      reader = d.reader;
      flushes =
          line_step fuel r cr (lf ∷ rest) h
          ∙ ap (resume (line_loop fuel)) (line_turn_end (moved r))
          ∙ ap (after (update_after_cr (moved r)).0) d.silent
          ∙ ap (λ es. returns (es ++ []) d.reader) up.0
          ∙ ap (λ u. returns (target_putn u ∷ []) d.reader) (sym (append-nil r.helper_.outbuf));
      emptied = d.emptied;
      ended = d.same ∙ up.2;
    }
line_loop_overreads (suc fuel) r (c ∷ line) rest h n m room f =
    let ih =
      line_loop_overreads fuel (kept c (moved r)) line rest (sbumpc-Holds h).1 n.1 m (omega arith)
        (omega arith) in
    record {
      reader = ih.reader;
      flushes =
          line_keeps fuel r c (line ++ cr ∷ lf ∷ rest) h n.0 (omega arith)
          ∙ ih.flushes
          ∙ ap (λ u. returns (target_putn u ∷ []) ih.reader)
              (append_assoc r.helper_.outbuf (c ∷ []) line);
      emptied = ih.emptied;
      ended = ih.ended;
    }

-- Where the unread bytes of a well-formed source open for reading are a line, CR and LF, and
-- others, with no CR in either and all fitting into the array of the reader with room to spare,
-- read_line gives the target the line but leaves the source empty: what follows the line is lost
-- to a later read.
pub read_line_overreads :
    (r : Reader) (line rest : Bytes)
    → Holds r.sourcebuf_ (line ++ cr ∷ lf ∷ rest)
    → All (λ c. c ≢ cr) line
    → All (λ c. c ≢ cr) rest
    → r.helper_.write_pos + length line + length rest < buf_size
    → Overread r line (read_line (suc (Streambuf.in_avail r.sourcebuf_)) r)
unfolding read_line
read_line_overreads r line rest h n m room =
    let many : Streambuf.in_avail r.sourcebuf_ ≡ length line + suc (suc (length rest)) =
      in_avail-Holds h ∙ length-append line (cr ∷ lf ∷ rest) in
    let some : (Streambuf.in_avail r.sourcebuf_ == 0) ≡ false = ground arith in
    rw some (
      line_loop_overreads (suc (Streambuf.in_avail r.sourcebuf_)) r line rest h n m room
        (omega arith))
