-- ===== src/Streams/Container/Laws.antt =====
-- Reading and writing of a container buffer against its array and its head.
use snode.Prelude.{
  ℕ, ◌+◌, ◌-◌, ◌≤◌, ◌<◌, ◌≡◌, refl, sym, ap, ◌∙◌, Bool, true, false, [], ◌++◌, Bytes, length, take,
  drop, replicate, copy_at, min, max, add_size, size_mod, ltb, arith, length-append, length-take,
  length-drop, length-replicate, length-copy_at, take-min, drop_all, take-copy_at, drop-take,
  Bool-cases, inl, inr, nil_of_length, take-nil, append-nil, take-append_left, drop-append_left,
  drop-copy_at,
}
use mathlib.Core.Path.{subst}
use native.Mathlib.Decide.{dec_le}
use snode.Streams.Container.{Buffer, in_avail, read, write, resize_for_write, can_satisfy}

-- The head is inside the array, and the array can be counted.
pub record IsValid (b : Buffer) : Type 0 where
  pub inside : b.current_position_ ≤ length b.data_
  pub small : length b.data_ < size_mod

abbrev pub ahead : Buffer → Bytes
ahead b = drop b.current_position_ b.data_

module _ {b : Buffer} (v : IsValid b) where
  pub in_avail_lem : in_avail b ≡ length (ahead b)
  unfolding in_avail
  in_avail_lem = omega (arith, v.inside, v.small, length-drop b.current_position_ b.data_)

  -- On a well-formed container buffer read returns the first count bytes from the head on, or all
  -- there are.
  pub read-ahead : (count : ℕ) (advance : Bool) → (read b count advance).0 ≡ take count (ahead b)
  unfolding read
  read-ahead count advance = elim (Bool-cases (can_satisfy b)) [
    | inl more ↦
        rw more (ap (λ n. take (min count n) (ahead b)) in_avail_lem ∙ take-min count (ahead b))
    | inr done ↦ rw done (sym (take-nil count) ∙ ap (take count) (sym (nothing done)))
  ]
    where
      nothing : can_satisfy b ≡ false → ahead b ≡ []
      nothing done = nil_of_length (ahead b) (unfold can_satisfy in ground (arith, in_avail_lem))

  -- It moves the head behind them, and keeps the array.
  pub read_head :
      (count : ℕ)
      → let (out, b') = read b count true in
        (b'.current_position_ ≡ b.current_position_ + length out)
        × (b'.data_ ≡ b.data_)
        × IsValid b'
  unfolding read
  read_head count = elim (Bool-cases (can_satisfy b)) [
    | inl more ↦
        let n : length (take (min count (in_avail b)) (ahead b)) ≡ min count (in_avail b) =
          omega (arith, in_avail_lem, length-take (min count (in_avail b)) (ahead b)) in
        let e : add_size b.current_position_ (min count (in_avail b))
            ≡ b.current_position_ + min count (in_avail b) =
          omega (arith, in_avail_lem, v.inside, v.small, length-drop b.current_position_ b.data_) in
        rw more (
          e ∙ ap (λ i. b.current_position_ + i) (sym n),
          refl,
          record {
            inside =
                omega (arith, e, in_avail_lem, v.inside, length-drop b.current_position_ b.data_);
            small = v.small;
          },
        )
    | inr done ↦ rw done (omega arith, refl, v)
  ]

  -- Without `advance` the buffer is as before.
  pub read_peek : (count : ℕ) → (read b count false).1 ≡ b
  unfolding read
  read_peek count = ground arith

  -- At the end of the data nothing is read.
  pub read_at_end : (count : ℕ) (advance : Bool) → ahead b ≡ [] → read b count advance ≡ ([], b)
  unfolding read
  read_at_end count advance e =
      let n : in_avail b ≡ 0 = in_avail_lem ∙ ap length e in
      let f : can_satisfy b ≡ false = unfold can_satisfy in rw n in rw f

-- Growing appends zeros, and shrinks nothing.
pub resize_data :
    (b : Buffer) (n : ℕ)
    → (resize_for_write b n).data_ ≡ b.data_ ++ replicate (n - length b.data_) 0
unfolding resize_for_write
resize_data b n = elim (Bool-cases (ltb (length b.data_) n)) [
  | inl more ↦ rw more
  | inr fits ↦
      let z : n - length b.data_ ≡ 0 = ground arith in
      rw fits (sym (append-nil b.data_) ∙ ap (λ i. b.data_ ++ replicate i 0) (sym z))
]

pub length-resize :
    (b : Buffer) (n : ℕ) → length (resize_for_write b n).data_ ≡ max (length b.data_) n
length-resize b n = omega (
  arith,
  ap length (resize_data b n),
  length-append b.data_ (replicate (n - length b.data_) 0),
  length-replicate {A = ℕ} (n - length b.data_) 0,
)

pub resize_same :
    (b : Buffer) (n : ℕ)
    → let b' = resize_for_write b n in
      (b'.current_position_ ≡ b.current_position_)
      × (b'.stream_can_read_ ≡ b.stream_can_read_)
      × (b'.stream_can_write_ ≡ b.stream_can_write_)
unfolding resize_for_write
resize_same b n = ground arith

pub write_shut : (b : Buffer) (src : Bytes) → b.stream_can_write_ ≡ false → write b src ≡ (0, b)
unfolding write
write_shut b src w = ground arith

pub write_nothing : (b : Buffer) (src : Bytes) → length src ≡ 0 → write b src ≡ (0, b)
unfolding write
write_nothing b src e = ground arith

write_open :
    (b : Buffer) (src : Bytes)
    → b.stream_can_write_ ≡ true
    → 0 < length src
    → let p = add_size b.current_position_ (length src) in
      let b' = resize_for_write b p in
      write b src ≡ (
        length src,
        record b' { data_ = copy_at b'.data_ b.current_position_ src; current_position_ = p },
      )
unfolding write
write_open b src w h = ground arith

-- Growing up to a place adds nothing behind it.
drop-resize : (b : Buffer) (n : ℕ) → drop n (resize_for_write b n).data_ ≡ drop n b.data_
drop-resize b n = elim (dec_le n (length b.data_)) [
  | yes fits ↦
      let z : n - length b.data_ ≡ 0 = omega arith in
      ap (drop n) (resize_data b n ∙ ap (λ i. b.data_ ++ replicate i 0) z ∙ append-nil b.data_)
  | no more ↦
      drop_all n (resize_for_write b n).data_ (omega (arith, length-resize b n))
      ∙ sym (drop_all n b.data_ (omega arith))
]

module _ {b : Buffer} (v : IsValid b) (src : Bytes) where
  -- On a well-formed container buffer open for writing, a non-empty write whose end can be counted
  -- overwrites or extends the data from the head on, moves the head behind what it wrote and keeps
  -- the rest.
  pub write_at_head :
      b.stream_can_write_ ≡ true
      → 0 < length src
      → b.current_position_ + length src < size_mod
      → let (n, b') = write b src in
        let p = b.current_position_ + length src in
        (n ≡ length src)
        × (b'.current_position_ ≡ p)
        × (take p b'.data_ ≡ take b.current_position_ b.data_ ++ src)
        × (drop p b'.data_ ≡ drop p b.data_)
        × (b'.stream_can_read_ ≡ b.stream_can_read_)
        × IsValid b'
  write_at_head w h g =
      let q = b.current_position_ + length src in
      let p = add_size b.current_position_ (length src) in
      let e : p ≡ q = omega arith in
      let new : Bytes = (resize_for_write b p).data_ in
      let len : length new ≡ max (length b.data_) p = length-resize b p in
      let c = length-copy_at new b.current_position_ src in
      rw (write_open b src w h) (
        refl,
        e,
        take-copy_at new b.current_position_ q src refl (omega arith)
            ∙ ap (λ u. u ++ src)
                (ap (take b.current_position_) (resize_data b p)
                  ∙ take-append_left b.current_position_ b.data_ (replicate (p - length b.data_) 0)
                      v.inside),
        drop-copy_at new b.current_position_ q src refl
            ∙ subst (λ i. drop i new ≡ drop i b.data_) e (drop-resize b p),
        (resize_same b p).1,
        record { inside = omega arith; small = omega (arith, v.small) },
      )

  pub read-write :
      b.stream_can_write_ ≡ true
      → 0 < length src
      → b.current_position_ + length src < size_mod
      → let b' = (write b src).1 in
        (read (record b' { current_position_ = b.current_position_ }) (length src) true).0 ≡ src
  read-write w h g =
      let o = write_at_head w h g in
      let b' = (write b src).1 in
      let p = b.current_position_ in
      let n : length (take p b.data_) ≡ p = omega (arith, length-take p b.data_, v.inside) in
      let v' : IsValid (record b' { current_position_ = p }) = record {
        inside = omega (arith, o.5.inside, o.1);
        small = o.5.small;
      } in
      read-ahead v' (length src) true
      ∙ sym (drop-take p (p + length src) (length src) b'.data_ refl)
      ∙ ap (drop p) o.2
      ∙ drop-append_left p (take p b.data_) src (sym n)
