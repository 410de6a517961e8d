-- ===== src/Streams/Istream/Bounds.antt =====
-- The stores of both readers into the array `outbuf`, and the end of their loops.
use mathlib.Core.Path.{subst}
use snode.Prelude.{
  ℕ, zero, suc, ◌+◌, ◌≡◌, ◌≤◌, ◌<◌, refl, sym, ap, ◌∙◌, Bool, true, false, List, [], ◌∷◌, ◌++◌,
  if◌then◌else◌, Bytes, length, ltb, ◌==◌, arith, Bool-cases, inl, inr, length-append,
}
use snode.Streams.ProducerConsumer.{IntType, ch, eof, requires_async}
use snode.Streams.Streambuf
use snode.Streams.Streambuf.{Streambuf}
use snode.Streams.Streambuf.Laws.{oldest}
use snode.Streams.Streambuf.Reads.{Holds, in_avail-Holds, sbumpc-Holds, sgetc-Holds}
use snode.Streams.Istream.{
  buf_size, ReadHelper, Reader, Event, Turn, leave, go_on, stray, resume, after, store, finish,
  await, Outcome, returns, overrun, out_of_fuel, delim_turn, line_turn, delim_loop, line_loop,
  update_after_cr, goes_on, leaves, read_to_delim, read_line, delim_on_read, line_on_read,
  delim_read_turn, line_read_turn, cr, lf, after_peek,
}
use snode.Streams.Istream.Stores.{moved, delim_step, delim_idle, line_step, line_idle}

-- `write_pos` counts the characters stored, which fit into the array; and there is room for one more.
pub record Fits (h : ReadHelper) : Type 0 where
  pub counted : length h.outbuf ≡ h.write_pos
  pub inside : h.write_pos ≤ buf_size

pub record HasRoom (h : ReadHelper) : Type 0 where
  pub counted : length h.outbuf ≡ h.write_pos
  pub room : h.write_pos < buf_size

-- The callback comes to its end and has stored nothing past the end of the array.
abbrev pub IsSafe : Outcome → Type 0
IsSafe (returns es r) = Fits r.helper_
IsSafe overrun = ⊥
IsSafe out_of_fuel = ⊥

-- A source with at most `n` unread bytes.
abbrev AtMost : ℕ → Streambuf → Type 0
AtMost n s = (u : Bytes) × Holds s u × (length u ≤ n)

abbrev Goes : ℕ → Turn → Type 0
Goes n (leave es r) = Fits r.helper_
Goes n (go_on es r) = HasRoom r.helper_ × AtMost n r.sourcebuf_
Goes n stray = ⊥

after-IsSafe : (es : List Event) (o : Outcome) → IsSafe o → IsSafe (after es o)
after-IsSafe es (returns es' r) h = h
after-IsSafe es overrun h = elim h [ ]
after-IsSafe es out_of_fuel h = elim h [ ]

resume-IsSafe :
    (n : ℕ) (loop : Reader → Outcome) (t : Turn)
    → ((r : Reader) → HasRoom r.helper_ → AtMost n r.sourcebuf_ → IsSafe (loop r))
    → Goes n t
    → IsSafe (resume loop t)
resume-IsSafe n loop (leave es r) keep g = g
resume-IsSafe n loop (go_on es r) keep g = after-IsSafe es (loop r) (keep r g.0 g.1)
resume-IsSafe n loop stray keep g = elim g [ ]

HasRoom-Fits : {h : ReadHelper} → HasRoom h → Fits h
HasRoom-Fits r = record { counted = r.counted; inside = omega arith }

Goes-if :
    (n : ℕ) (b : Bool) (t u : Turn)
    → (b ≡ true → Goes n t)
    → (b ≡ false → Goes n u)
    → Goes n (if b then t else u)
Goes-if n true t u p q = p refl
Goes-if n false t u p q = q refl

-- What `update_after_cr` leaves of the source.
peeked_lf :
    (n : ℕ) (s : Streambuf) (v : IntType) (u : Bytes)
    → v ≡ oldest u (Streambuf.can_write s)
    → Holds s u
    → length u ≤ n
    → AtMost n (after_peek (v, s))
peeked_lf n s eof u e h l = (u, h, l)
peeked_lf n s requires_async u e h l = (u, h, l)
peeked_lf n s (ch c) (d ∷ u) e h l = elim (Bool-cases (c == lf)) [
  | inl newline ↦ rw newline (u, (sbumpc-Holds h).1, omega arith)
  | inr other ↦ rw other (d ∷ u, h, l)
]
peeked_lf n s (ch c) [] e h l = absurd (no_byte (Streambuf.can_write s) e)
  where
    no_byte : (w : Bool) → ch c ≡ oldest [] w → ⊥
    no_byte true e = cc
    no_byte false e = cc

after_peek-AtMost : (n : ℕ) (s : Streambuf) → AtMost n s → AtMost n (after_peek (Streambuf.sgetc s))
after_peek-AtMost n s (u, h, l) =
    let p = sgetc-Holds h in
    peeked_lf n (Streambuf.sgetc s).1 (Streambuf.sgetc s).0 u
      (p.0 ∙ ap (oldest u) (sym p.2.writable)) p.1 l

module _ (n : ℕ) (r : Reader) (room : HasRoom r.helper_) where
  store-Goes : (c : ℕ) → AtMost n r.sourcebuf_ → Goes n (store c r)
  unfolding store
  store-Goes c a =
      let inside : ltb r.helper_.write_pos buf_size ≡ true = ground (arith, room.room) in
      let longer : length (r.helper_.outbuf ++ c ∷ []) ≡ r.helper_.write_pos + 1 =
        omega (arith, length-append r.helper_.outbuf (c ∷ []), room.counted) in
      rw inside (
        Goes-if n (r.helper_.write_pos + 1 == buf_size) _ _
          (λ full. record { counted = longer; inside = omega (arith, room.room) })
          (λ more. (record { counted = longer; room = ground (arith, room.room) }, a)))

  finish-Goes : Goes n (finish r)
  unfolding finish
  finish-Goes = HasRoom-Fits room

  await-Goes : Goes n (await r)
  unfolding await
  await-Goes = HasRoom-Fits room

  delim_turn-Goes :
      (delim : ℕ) (value : IntType) → AtMost n r.sourcebuf_ → Goes n (delim_turn delim value r)
  unfolding delim_turn
  delim_turn-Goes delim eof a = finish-Goes
  delim_turn-Goes delim requires_async a = await-Goes
  delim_turn-Goes delim (ch c) a =
      Goes-if n (c == delim) (finish r) (store c r) (λ e. finish-Goes) (λ e. store-Goes c a)

  delim_read_turn-Goes :
      (delim : ℕ) (value : IntType) → AtMost n r.sourcebuf_ → Goes n (delim_read_turn delim value r)
  unfolding delim_read_turn
  delim_read_turn-Goes delim eof a = finish-Goes
  delim_read_turn-Goes delim requires_async a = store-Goes 254 a
  delim_read_turn-Goes delim (ch c) a =
      Goes-if n (c == delim) (finish r) (store c r) (λ e. finish-Goes) (λ e. store-Goes c a)

  line_turn-Goes : (value : IntType) → AtMost n r.sourcebuf_ → Goes n (line_turn value r)
  unfolding line_turn update_after_cr
  line_turn-Goes eof a = finish-Goes
  line_turn-Goes requires_async a = await-Goes
  line_turn-Goes (ch c) a =
      Goes-if n (c == cr) (goes_on (update_after_cr r)) (store c r)
        (λ e.
          (record { counted = room.counted; room = room.room }, after_peek-AtMost n r.sourcebuf_ a))
        (λ e. store-Goes c a)

  line_read_turn-Goes : (value : IntType) → AtMost n r.sourcebuf_ → Goes n (line_read_turn value r)
  unfolding line_read_turn update_after_cr
  line_read_turn-Goes eof a = finish-Goes
  line_read_turn-Goes requires_async a = store-Goes 254 a
  line_read_turn-Goes (ch c) a =
      Goes-if n (c == cr) (leaves (update_after_cr r)) (store c r) (λ e. HasRoom-Fits room)
        (λ e. store-Goes c a)

delim_loop-IsSafe :
    (fuel : ℕ) (delim : ℕ) (u : Bytes) (r : Reader)
    → HasRoom r.helper_
    → Holds r.sourcebuf_ u
    → length u < fuel
    → IsSafe (delim_loop fuel delim r)
delim_loop-IsSafe zero delim u r room h f = absurd (omega arith)
delim_loop-IsSafe (suc fuel) delim [] r room h f =
    subst IsSafe (sym (delim_idle fuel r delim h)) (HasRoom-Fits room)
delim_loop-IsSafe (suc fuel) delim (c ∷ cs) r room h f =
    subst IsSafe (sym (delim_step fuel r delim c cs h)) (
      resume-IsSafe (length cs) (delim_loop fuel delim) (delim_turn delim (ch c) (moved r))
        (λ r' room' a. delim_loop-IsSafe fuel delim a.0 r' room' a.1 (omega (arith, a.2)))
        (delim_turn-Goes (length cs) (moved r) room delim (ch c)
          (cs, (sbumpc-Holds h).1, omega arith)))

line_loop-IsSafe :
    (fuel : ℕ) (u : Bytes) (r : Reader)
    → HasRoom r.helper_
    → Holds r.sourcebuf_ u
    → length u < fuel
    → IsSafe (line_loop fuel r)
line_loop-IsSafe zero u r room h f = absurd (omega arith)
line_loop-IsSafe (suc fuel) [] r room h f =
    subst IsSafe (sym (line_idle fuel r h)) (HasRoom-Fits room)
line_loop-IsSafe (suc fuel) (c ∷ cs) r room h f = subst IsSafe (sym (line_step fuel r c cs h)) (
    resume-IsSafe (length cs) (line_loop fuel) (line_turn (ch c) (moved r))
      (λ r' room' a. line_loop-IsSafe fuel a.0 r' room' a.1 (omega (arith, a.2)))
      (line_turn-Goes (length cs) (moved r) room (ch c) (cs, (sbumpc-Holds h).1, omega arith)))

module _ (fuel : ℕ) (r : Reader) (room : HasRoom r.helper_) (a : AtMost fuel r.sourcebuf_) where
  read_to_delim-IsSafe : (delim : ℕ) → IsSafe (read_to_delim (suc fuel) delim r)
  unfolding read_to_delim await
  read_to_delim-IsSafe delim = elim (Bool-cases (Streambuf.in_avail r.sourcebuf_ == 0)) [
    | inl none ↦ rw none (HasRoom-Fits room)
    | inr some ↦ rw some (delim_loop-IsSafe (suc fuel) delim a.0 r room a.1 (omega (arith, a.2)))
  ]

  read_line-IsSafe : IsSafe (read_line (suc fuel) r)
  unfolding read_line await
  read_line-IsSafe = elim (Bool-cases (Streambuf.in_avail r.sourcebuf_ == 0)) [
    | inl none ↦ rw none (HasRoom-Fits room)
    | inr some ↦ rw some (line_loop-IsSafe (suc fuel) a.0 r room a.1 (omega (arith, a.2)))
  ]

-- While the array of a reader has room and its source is well-formed and open for reading,
-- read_to_delim, read_line and on_read of both, for any character and any unread bytes, store
-- nothing past the end of the array and come to an end with one turn of the loop more than there
-- are unread bytes, and at most buf_size_ characters are stored then.
pub reading_bounds :
    (r : Reader) (u : Bytes) (delim : ℕ) (value : IntType)
    → HasRoom r.helper_
    → Holds r.sourcebuf_ u
    → let fuel = suc (Streambuf.in_avail r.sourcebuf_) in
      IsSafe (read_to_delim fuel delim r)
      × IsSafe (delim_on_read fuel delim value r)
      × IsSafe (read_line fuel r)
      × IsSafe (line_on_read fuel value r)
unfolding delim_on_read line_on_read
reading_bounds r u delim value room h =
    let n = Streambuf.in_avail r.sourcebuf_ in
    let a : AtMost n r.sourcebuf_ = (u, h, omega (arith, in_avail-Holds h)) in
    (
      read_to_delim-IsSafe n r room a delim,
      resume-IsSafe n (read_to_delim (suc n) delim) (delim_read_turn delim value r)
          (λ r' room' a'. read_to_delim-IsSafe n r' room' a' delim)
          (delim_read_turn-Goes n r room delim value a),
      read_line-IsSafe n r room a,
      resume-IsSafe n (read_line (suc n)) (line_read_turn value r)
          (λ r' room' a'. read_line-IsSafe n r' room' a') (line_read_turn-Goes n r room value a),
    )
