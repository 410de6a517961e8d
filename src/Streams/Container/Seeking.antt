-- ===== src/Streams/Container/Seeking.antt =====
-- Seeking in a container buffer, and the single-character reads at the end of the data.
use snode.Prelude.{
  ℕ, ◌+◌, ◌-◌, ◌<◌, ◌≡◌, refl, sym, ap, ◌∙◌, true, false, ◌&&◌, [], ◌++◌, Bytes, length, replicate,
  size_mod, leb, arith, ◌⊎◌, if◌then◌else◌, Bool-cases, inl, inr, append-nil,
}
use snode.Prelude.Int.{ℤ, pos}
use snode.Streams.ProducerConsumer.{IntType, ch, eof, first_ch}
use snode.Streams.Container.{
  Buffer, OpenMode, read, write, seekpos, seek_write, eof_pos, bumpc, sbumpc,
}
use snode.Streams.Container.Laws.{
  IsValid, ahead, read_at_end, length-resize, resize_data, write_at_head, read-write,
}

abbrev pub reading : OpenMode
reading = record { mode_in = true; mode_out = false }

-- Of a seek to `p` that returns `q` and leaves `b'`: it fails and changes nothing, or it returns `p`
-- and puts the head there, over data lengthened with zeros if it has to be.
abbrev pub Sought : Buffer → ℕ → ℤ × Buffer → Type 0
Sought b p (q, b') =
    IsValid b'
    × (((q ≡ eof_pos) × (b' ≡ b))
        ⊎ ((q ≡ pos p)
            × (b'.current_position_ ≡ p)
            × (b'.data_ ≡ b.data_ ++ replicate (p - length b.data_) 0)))

module _ {b : Buffer} (v : IsValid b) (p : ℕ) (mode : OpenMode) (h : p < size_mod) where
  seek_write_lem : Sought b p (seek_write p mode b)
  unfolding seek_write
  seek_write_lem = elim (Bool-cases (mode.mode_out && b.stream_can_write_)) [
    | inl can ↦ rw can (
      record {
        inside = omega (arith, length-resize b p);
        small = omega (arith, length-resize b p, v.small);
      },
      inr (refl, refl, resize_data b p),
    )
    | inr cannot ↦ rw cannot (v, inl (refl, refl))
  ]

  -- A seek to a position that can be counted fails and changes nothing, or returns the position
  -- asked for and puts the head there; the head stays inside the data, which is at most lengthened
  -- with zeros.
  pub seekpos_lem : Sought b p (seekpos (pos p) mode b)
  unfolding seekpos
  seekpos_lem = elim (Bool-cases (mode.mode_in && b.stream_can_read_ && leb p (length b.data_))) [
    | inl can ↦
        let z : p - length b.data_ ≡ 0 = ground arith in
        rw can (
          record { inside = ground arith; small = v.small },
          inr (refl, refl, sym (append-nil b.data_) ∙ ap (λ i. b.data_ ++ replicate i 0) (sym z)),
        )
    | inr cannot ↦ rw cannot seek_write_lem
  ]

-- A seek for reading alone succeeds exactly up to the end of the data.
pub seekpos-reading :
    (b : Buffer) (p : ℕ)
    → b.stream_can_read_ ≡ true
    → seekpos (pos p) reading b ≡ (
        if leb p (length b.data_)
        then (pos p, record b { current_position_ = p })
        else (eof_pos, b))
unfolding seekpos seek_write
seekpos-reading b p r = ground arith

-- On a well-formed container buffer open on both sides, what a non-empty write puts at the head is
-- what a read finds there after seeking back.
pub read-seekpos-write :
    {b : Buffer} (src : Bytes)
    → IsValid b
    → b.stream_can_write_ ≡ true
    → b.stream_can_read_ ≡ true
    → 0 < length src
    → b.current_position_ + length src < size_mod
    → let b' = (write b src).1 in
      let (q, b'') = seekpos (pos b.current_position_) reading b' in
      (q ≡ pos b.current_position_) × ((read b'' (length src) true).0 ≡ src)
read-seekpos-write {b} src v w r h g =
    let o = write_at_head v src w h g in
    let b' = (write b src).1 in
    let p = b.current_position_ in
    let fits : leb p (length b'.data_) ≡ true = ground (arith, o.5.inside) in
    let s : seekpos (pos p) reading b' ≡ (pos p, record b' { current_position_ = p }) =
      seekpos-reading b' p (o.4 ∙ r)
      ∙ ap (λ c. if c then (pos p, record b' { current_position_ = p }) else (eof_pos, b')) fits in
    rw s (refl, read-write v src w h g)

-- At the end of the data of a container buffer sbumpc returns eof() while bumpc completes with the
-- end-of-file value converted to a character.
pub bumpc_at_end :
    {b : Buffer} (to_char : IntType → ℕ)
    → IsValid b
    → ahead b ≡ []
    → (sbumpc b ≡ (eof, b)) × (bumpc to_char b ≡ (ch (to_char eof), b))
unfolding sbumpc bumpc
bumpc_at_end {b} to_char v e =
    let r = read_at_end v 1 true e in
    (
      ap (λ (o : Bytes × Buffer). (first_ch o.0, o.1)) r,
      ap (λ (o : Bytes × Buffer). (ch (to_char (first_ch o.0)), o.1)) r,
    )
