-- ===== src/Streams/Streambuf/Laws.antt =====
-- The synchronous reads of a stream buffer against its unread bytes, and what `acquire` and `release`
-- do once the write side is closed.
use mathlib.Core.Path.{subst}
use snode.Prelude.{
  sym, not, if◌then◌else◌, ℕ, ◌≡◌, refl, ap, ◌∙◌, Bool, true, false, [], ◌∷◌, Bytes, length, take,
  drop, arith, Bool-cases, inl, inr, suc,
}
use snode.Streams.ProducerConsumer.{
  Buffer, IntType, ch, eof, requires_async, copied, can_satisfy, read, read_byte, first_ch,
}
use snode.Streams.ProducerConsumer.Api
use snode.Streams.ProducerConsumer.Inv.{IsValid, contents}
use snode.Streams.ProducerConsumer.Reading.{read_bytes, read_rest, read-IsValid, read_peek}
use snode.Streams.Streambuf.{
  Streambuf, ok, check_sync_read_eof, inside, can_read, can_write, is_eof, sbumpc, sgetc, sgetn,
  acquire, release,
}

abbrev pub unread_of : Streambuf → Bytes
unread_of s = contents s.impl_.blocks_

-- What a synchronous read of one character answers: the oldest unread byte, and without one that a
-- later read can succeed or, once the write side is closed, that none will.
abbrev pub oldest : Bytes → Bool → IntType
oldest (c ∷ cs) writable = ch c
oldest [] true = requires_async
oldest [] false = eof

abbrev pub is_end : IntType → Bool
is_end eof = true
is_end _ = false

module _ {b : Buffer} (v : IsValid b) where
  first_ch-read :
      (advance : Bool) → (read_byte b advance).0 ≡ first_ch (take 1 (contents b.blocks_))
  unfolding read_byte
  first_ch-read advance = ap first_ch (read_bytes v 1 advance)

  -- A buffer with an unread byte can answer, and one without can once it is closed for writing.
  pub can_satisfy_lem :
      can_satisfy b 1 ≡ true
      → first_ch (take 1 (contents b.blocks_)) ≡ oldest (contents b.blocks_) b.stream_can_write_
  unfolding can_satisfy first_ch
  can_satisfy_lem h = split (contents b.blocks_) v.total b.stream_can_write_ h
    where
      split :
          (u : Bytes)
          → b.total_ ≡ length u
          → (w : Bool) → can_satisfy (record b { stream_can_write_ = w }) 1 ≡ true
          → first_ch (take 1 u) ≡ oldest u w
      split (c ∷ cs) e w h = refl
      split [] e false h = refl
      split [] e true h = ground (arith, v.synced)

  pub can_satisfy_no :
      can_satisfy b 1 ≡ false
      → (contents b.blocks_ ≡ [])
        × (oldest (contents b.blocks_) b.stream_can_write_ ≡ requires_async)
  unfolding can_satisfy
  can_satisfy_no h = split (contents b.blocks_) v.total b.stream_can_write_ h
    where
      split :
          (u : Bytes)
          → b.total_ ≡ length u
          → (w : Bool) → can_satisfy (record b { stream_can_write_ = w }) 1 ≡ false
          → (u ≡ []) × (oldest u w ≡ requires_async)
      split (c ∷ cs) e w h = absurd (ground arith)
      split [] e false h = absurd (ground arith)
      split [] e true h = (refl, refl)

  -- The implementation's `sbumpc` and `sgetc`.
  pub bump_lem :
      let (value, b') = Api.sbumpc b in
      (value ≡ oldest (contents b.blocks_) b.stream_can_write_)
      × (contents b'.blocks_ ≡ drop 1 (contents b.blocks_))
      × IsValid b'
  unfolding Api.sbumpc read_byte
  bump_lem = elim (Bool-cases (can_satisfy b 1)) [
    | inl now ↦ rw now (first_ch-read true ∙ can_satisfy_lem now, read_rest v 1, read-IsValid v 1)
    | inr later ↦ let n = can_satisfy_no later in rw later (cc (n.1), n.0 ∙ cc (ap (drop 1) n.0), v)
  ]

  peek_stays : (Api.sgetc b).1 ≡ b
  unfolding Api.sgetc
  peek_stays = ground (arith, read_peek v 1)

  pub peek_lem : (Api.sgetc b).0 ≡ (Api.sbumpc b).0
  unfolding Api.sgetc Api.sbumpc
  peek_lem = elim (Bool-cases (can_satisfy b 1)) [
    | inl now ↦ rw now (first_ch-read false ∙ cc (first_ch-read true))
    | inr later ↦ rw later
  ]

if_not : {A : Type 0} {b : Bool} (x y : A) → b ≡ true → (if not b then x else y) ≡ y
if_not x y h = rw h

sgetn_closed :
    (b : Buffer) (count : ℕ)
    → b.stream_can_write_ ≡ false
    → Api.sgetn count b ≡ (copied (read b count true).0, (read b count true).1)
unfolding Api.sgetn can_satisfy
sgetn_closed b count w = ground arith

pub check_lem :
    (value : IntType) (t : Streambuf)
    → let (value', t') = check_sync_read_eof (value, t) in
      (value' ≡ value) × (t'.impl_ ≡ t.impl_) × (is_eof t' ≡ is_end value)
unfolding check_sync_read_eof is_eof
check_lem (ch c) t = (refl, refl, refl)
check_lem eof t = (refl, refl, refl)
check_lem requires_async t = (refl, refl, refl)

module _ (s : Streambuf) (open_ : can_read s ≡ true) where
  pub sbumpc_open : sbumpc s ≡ check_sync_read_eof (inside s (Api.sbumpc s.impl_))
  unfolding sbumpc
  sbumpc_open = if_not _ _ open_

  pub sgetc_open : sgetc s ≡ check_sync_read_eof (inside s (Api.sgetc s.impl_))
  unfolding sgetc
  sgetc_open = if_not _ _ open_

  sgetn_open : (count : ℕ) → sgetn (suc count) s ≡ inside s (Api.sgetn (suc count) s.impl_)
  unfolding sgetn
  sgetn_open count = ground arith

-- On a stream buffer with a well-formed implementation, open for reading, sbumpc and sgetc answer
-- the oldest unread byte, or without one requires_async() while the write side is open and eof()
-- once it is closed; sbumpc takes the byte off and keeps the invariant, sgetc leaves the
-- implementation as it is, and after either is_eof tells whether the answer was eof().
pub sync_reads :
    (s : Streambuf)
    → IsValid s.impl_
    → can_read s ≡ true
    → let (value, s') = sbumpc s in
      let (peeked, s'') = sgetc s in
      (value ≡ oldest (unread_of s) (can_write s))
      × (unread_of s' ≡ drop 1 (unread_of s))
      × IsValid s'.impl_
      × (is_eof s' ≡ is_end value)
      × (peeked ≡ value)
      × (s''.impl_ ≡ s.impl_)
      × (is_eof s'' ≡ is_end value)
sync_reads s v h =
    let bump = bump_lem v in
    let (value, t, flag) =
      check_lem (Api.sbumpc s.impl_).0 (record s { impl_ = (Api.sbumpc s.impl_).1 }) in
    let (value', t', flag') =
      check_lem (Api.sgetc s.impl_).0 (record s { impl_ = (Api.sgetc s.impl_).1 }) in
    rw (sbumpc_open s h, sgetc_open s h)
      (
        value ∙ bump.0,
        ap (λ (b : Buffer). contents b.blocks_) t ∙ bump.1,
        subst IsValid (sym t) bump.2,
        flag ∙ ap is_end (sym value),
        value' ∙ peek_lem v ∙ sym value,
        t' ∙ peek_stays v,
        flag' ∙ ap is_end (peek_lem v ∙ sym value),
      )

-- Once
pub closed_acquire :
    (s : Streambuf) (count : ℕ)
    → IsValid s.impl_
    → can_read s ≡ true
    → can_write s ≡ false
    → ((acquire s).result ≡ false)
      × (release count s ≡ ok s)
      × ((sgetn (suc count) s).0 ≡ copied (take (suc count) (unread_of s)))
      × (unread_of (sgetn (suc count) s).1 ≡ drop (suc count) (unread_of s))
closed_acquire s count v r w = (
  unfold acquire in ground arith,
  unfold release in ground arith,
  rw (sgetn_open s r count)
      (rw (sgetn_closed s.impl_ (suc count) w) (ap copied (read_bytes v (suc count) true))),
  rw (sgetn_open s r count) (rw (sgetn_closed s.impl_ (suc count) w) (read_rest v (suc count))),
)
