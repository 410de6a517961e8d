-- ===== src/Streams/Heads/Closing.antt =====
-- What closing one head does to the other heads: the direction that it closes stays closed for every
-- head on that buffer, and nothing else changes.
use snode.Prelude.{
  ℕ, ◌≡◌, refl, ap, ◌∙◌, Bool, true, false, not, ◌&&◌, [], some, Bytes, ◌==◌, arith, ==_iff,
  Bool-cases, inl, inr, List, ◌∷◌,
}
use snode.Streams.ProducerConsumer.{
  Buffer, EvRequest, complete, fulfill, fulfill_outstanding, read, read_byte,
}
use snode.Streams.ProducerConsumer.Api
use snode.Streams.Streambuf
use snode.Streams.Streambuf.{Streambuf, can_read, can_write}
use snode.Streams.Heads.{
  Store, thrown, verify_out, verify_in, put, mode_of, new_ostream, new_istream, close_ostream,
  close_istream, write_ch, print, flush, tell_in, is_open_out, is_open_in,
}

-- Two buffers with the same flags.
abbrev SameFlags : Buffer → Buffer → Type 0
SameFlags b b' =
    (b'.stream_can_read_ ≡ b.stream_can_read_) × (b'.stream_can_write_ ≡ b.stream_can_write_)

read-SameFlags : (b : Buffer) (count : ℕ) (advance : Bool) → SameFlags b (read b count advance).1
unfolding read
read-SameFlags b count advance = (ground arith, ground arith)

complete-SameFlags : (r : EvRequest) (b : Buffer) → SameFlags b (complete r b).1
unfolding complete read_byte
complete-SameFlags r b = grind (arith, read-SameFlags)

fulfill-SameFlags : (rs : List EvRequest) (b : Buffer) → SameFlags b (fulfill rs b).0
unfolding fulfill
fulfill-SameFlags [] b = (refl, refl)
fulfill-SameFlags (r ∷ rs) b =
    ground (arith, complete-SameFlags r b, fulfill-SameFlags rs (complete r b).1)

close_out-flags :
    (s : Streambuf)
    → let s' = (Streambuf.close (mode_of true) s).0 in
      (can_read s' ≡ can_read s) × (can_write s' ≡ false)
unfolding Streambuf.close Api.close_write fulfill_outstanding
close_out-flags s =
    ground
      (arith, fulfill-SameFlags s.impl_.requests_ (record s.impl_ { stream_can_write_ = false }))

close_in-flags :
    (s : Streambuf)
    → let s' = (Streambuf.close (mode_of false) s).0 in
      (can_read s' ≡ false) × (can_write s' ≡ can_write s)
unfolding Streambuf.close Api.close_read
close_in-flags s = ground arith

-- A buffer of the store after a call on another, or on itself.
put_out :
    (p k : ℕ) (s : Streambuf) (st : Store)
    → (can_read s ≡ can_read (st p)) × (can_write s ≡ false)
    → (can_write (put p s st k) ≡ (not (p == k) && can_write (st k)))
      × (can_read (put p s st k) ≡ can_read (st k))
put_out p k s st h = elim (Bool-cases (p == k)) [
  | inl same ↦ let e = (==_iff p k).0 same in ground (arith, h, e)
  | inr other ↦ ground arith
]

put_in :
    (p k : ℕ) (s : Streambuf) (st : Store)
    → (can_read s ≡ false) × (can_write s ≡ can_write (st p))
    → (can_read (put p s st k) ≡ (not (p == k) && can_read (st k)))
      × (can_write (put p s st k) ≡ can_write (st k))
put_in p k s st h = elim (Bool-cases (p == k)) [
  | inl same ↦ let e = (==_iff p k).0 same in ground (arith, h, e)
  | inr other ↦ ground arith
]

-- An output head whose buffer is closed for writing.
module _ (p : ℕ) (st : Store) (closed : can_write (st p) ≡ false) where
  refuses_out :
      (op c : ℕ) (str : Bytes)
      → (new_ostream (some p) st ≡ thrown)
        × (write_ch op c (some p) st ≡ thrown)
        × (print op str (some p) st ≡ thrown)
        × (flush (some p) st ≡ thrown)
  unfolding new_ostream write_ch print flush verify_out
  refuses_out op c str = (rw closed, rw closed, rw closed, rw closed)

-- An input head whose buffer is closed for reading.
module _ (p : ℕ) (st : Store) (closed : can_read (st p) ≡ false) where
  refuses_in : (new_istream (some p) st ≡ thrown) × (tell_in (some p) st ≡ thrown)
  unfolding new_istream tell_in verify_in
  refuses_in = (rw closed, rw closed)

ostream_flags :
    (p k : ℕ) (st : Store)
    → let out = (close_ostream (some p) st).0 in
      (can_write (out k) ≡ (not (p == k) && can_write (st k)))
      × (can_read (out k) ≡ can_read (st k))
unfolding close_ostream
ostream_flags p k st =
    put_out p k (Streambuf.close (mode_of true) (st p)).0 st (close_out-flags (st p))

istream_flags :
    (p k : ℕ) (st : Store)
    → let out = (close_istream (some p) st).0 in
      (can_read (out k) ≡ (not (p == k) && can_read (st k)))
      × (can_write (out k) ≡ can_write (st k))
unfolding close_istream
istream_flags p k st =
    put_in p k (Streambuf.close (mode_of false) (st p)).0 st (close_in-flags (st p))

not_itself : (p : ℕ) (b : Bool) → (not (p == p) && b) ≡ false
not_itself p b = ground arith

-- When an output head and then an input head on the same buffer are closed, the first closes the
-- output of every head on that buffer and of no other and leaves all inputs as they were, and the
-- second likewise; then making a head on the buffer, write of a character, print of a text, flush
-- and tell of the input all throw.
pub close-refuses :
    (p k op c : ℕ) (str : Bytes) (st : Store)
    → let out = (close_ostream (some p) st).0 in
      let both = (close_istream (some p) out).0 in
      (is_open_out (some k) out ≡ (not (p == k) && is_open_out (some k) st))
      × (is_open_in (some k) out ≡ is_open_in (some k) st)
      × (is_open_in (some k) both ≡ (not (p == k) && is_open_in (some k) st))
      × (is_open_out (some k) both ≡ is_open_out (some k) out)
      × (new_ostream (some p) both ≡ thrown)
      × (write_ch op c (some p) both ≡ thrown)
      × (print op str (some p) both ≡ thrown)
      × (flush (some p) both ≡ thrown)
      × (new_istream (some p) both ≡ thrown)
      × (tell_in (some p) both ≡ thrown)
unfolding is_open_out is_open_in
close-refuses p k op c str st =
    let out = (close_ostream (some p) st).0 in
    let both = (close_istream (some p) out).0 in
    let o = ostream_flags p k st in
    let i = istream_flags p k out in
    let closed_out =
      (istream_flags p p out).1 ∙ (ostream_flags p p st).0 ∙ not_itself p (can_write (st p)) in
    let closed_in = (istream_flags p p out).0 ∙ not_itself p (can_read (out p)) in
    let refuses = refuses_out p both closed_out op c str in
    (
      o.0,
      o.1,
      i.0 ∙ ap (λ b. not (p == k) && b) o.1,
      i.1,
      refuses.0,
      refuses.1,
      refuses.2,
      refuses.3,
      (refuses_in p both closed_in).0,
      (refuses_in p both closed_in).1,
    )
