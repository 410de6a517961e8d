-- ===== src/Streams/Istream/Stores.antt =====
-- One turn of the reading loops over a source that holds a character, and the bounds of `outbuf`.
use snode.Prelude.{ℕ, suc, ◌+◌, ◌≡◌, ◌≢◌, ◌<◌, ap, true, [], ◌∷◌, ◌++◌, Bytes, ltb, arith}
use snode.Streams.ProducerConsumer.{ch}
use snode.Streams.Streambuf
use snode.Streams.Streambuf.{Streambuf}
use snode.Streams.Streambuf.Reads.{Holds, in_avail-Holds, sbumpc-Holds}
use snode.Streams.Istream.{
  buf_size, Reader, leave, go_on, resume, store, finish, flush, cr, returns, delim_turn, line_turn,
  delim_loop, line_loop, update_after_cr, goes_on,
}

-- The reader behind its source's `sbumpc`, and with a character more in `outbuf`.
abbrev pub moved : Reader → Reader
moved r = record r { sourcebuf_ = (Streambuf.sbumpc r.sourcebuf_).1 }

abbrev pub kept : ℕ → Reader → Reader
kept c r = record r {
  helper_ = record r.helper_ {
    outbuf = r.helper_.outbuf ++ c ∷ [];
    write_pos = r.helper_.write_pos + 1;
  };
}

pub store_room :
    (c : ℕ) (r : Reader) → r.helper_.write_pos + 1 < buf_size → store c r ≡ go_on [] (kept c r)
unfolding store
store_room c r h = ground arith

pub store_last :
    (c : ℕ) (r : Reader)
    → r.helper_.write_pos + 1 ≡ buf_size
    → store c r ≡ leave (flush (kept c r) ∷ []) (kept c r)
unfolding store
store_last c r h = ground arith

pub delim_turn_other :
    (delim c : ℕ) (r : Reader) → c ≢ delim → delim_turn delim (ch c) r ≡ store c r
unfolding delim_turn
delim_turn_other delim c r h = ground arith

pub delim_turn_end :
    (delim : ℕ) (r : Reader)
    → delim_turn delim (ch delim) r ≡ leave (flush r ∷ []) (record r { at_end = true })
unfolding delim_turn finish
delim_turn_end delim r = ground arith

pub line_turn_other : (c : ℕ) (r : Reader) → c ≢ cr → line_turn (ch c) r ≡ store c r
unfolding line_turn
line_turn_other c r h = ground arith

pub line_turn_end : (r : Reader) → line_turn (ch cr) r ≡ goes_on (update_after_cr r)
unfolding line_turn
line_turn_end r = ground arith

-- The loops take the oldest byte, and stop where there is none.
module _ (fuel : ℕ) (r : Reader) where
  pub delim_step :
      (delim c : ℕ) (cs : Bytes)
      → Holds r.sourcebuf_ (c ∷ cs)
      → delim_loop (suc fuel) delim r
        ≡ resume (delim_loop fuel delim) (delim_turn delim (ch c) (moved r))
  unfolding delim_loop
  delim_step delim c cs h =
      let some : ltb 0 (Streambuf.in_avail r.sourcebuf_) ≡ true =
        ground (arith, in_avail-Holds h) in
      rw some
        (ap (λ v. resume (delim_loop fuel delim) (delim_turn delim v (moved r))) (sbumpc-Holds h).0)

  pub delim_idle :
      (delim : ℕ) → Holds r.sourcebuf_ [] → delim_loop (suc fuel) delim r ≡ returns [] r
  unfolding delim_loop
  delim_idle delim h = ground (arith, in_avail-Holds h)

  pub line_step :
      (c : ℕ) (cs : Bytes)
      → Holds r.sourcebuf_ (c ∷ cs)
      → line_loop (suc fuel) r ≡ resume (line_loop fuel) (line_turn (ch c) (moved r))
  unfolding line_loop
  line_step c cs h =
      let some : ltb 0 (Streambuf.in_avail r.sourcebuf_) ≡ true =
        ground (arith, in_avail-Holds h) in
      rw some (ap (λ v. resume (line_loop fuel) (line_turn v (moved r))) (sbumpc-Holds h).0)

  pub line_idle : Holds r.sourcebuf_ [] → line_loop (suc fuel) r ≡ returns [] r
  unfolding line_loop
  line_idle h = ground (arith, in_avail-Holds h)
