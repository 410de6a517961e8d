-- ===== src/Streams/Source/Reading.antt =====
-- `read` of the source buffer over a source that delivers its characters in order: what it copies, and
-- where its read position is afterwards.
use mathlib.Core.Path.{subst}
use snode.Prelude.{
  ℕ, suc, ◌≡◌, ◌≤◌, ◌<◌, refl, sym, ap, ◌∙◌, true, [], none, some, Bytes, length, length-take,
  size_mod, ltb, ◌==◌, arith, Bool-cases, inl, inr, ==_iff,
}
use snode.Streams.Source.{
  Source, IsSequential, Sourcebuf, Copied, behind, read_loop, read, in_avail,
}
use snode.Streams.Source.Rounds.{Delivered, read_loop_delivers}

module _ {S : Type 0} (source : Source S) (rest : S → Bytes) (law : IsSequential source rest) where
  -- Nothing is buffered, in an array of some size.
  pub record IsDry (b : Sourcebuf S) : Type 0 where
    pub array : 0 < length b.info_.buffer_
    pub dry : in_avail b ≡ 0

  read_dry :
      (fuel count : ℕ) (b : Sourcebuf S)
      → in_avail b ≡ 0
      → 0 < count
      → read source fuel count true b ≡ behind [] (read_loop source fuel count 0 true b)
  unfolding read
  read_dry fuel count b h n = ground (arith, h)

  behind-nil : (o : Copied S) → behind [] o ≡ o
  behind-nil none = refl
  behind-nil (some (out, b)) = refl

  still_dry :
      (count : ℕ) (b : Sourcebuf S) (o : Copied S)
      → count < size_mod
      → in_avail b ≡ 0
      → (d : Delivered source rest law count 0 b o) → in_avail d.after ≡ 0
  unfolding in_avail
  still_dry count b o small h d =
      let few : length d.out ≤ count =
        omega (arith, ap length d.bytes, length-take count (rest b.source_)) in
      elim (Bool-cases (length d.out == 0)) [
        | inl z ↦ let s = d.still ((==_iff (length d.out) 0).0 z) in ground (arith, s, d.same, h)
        | inr z ↦
            let s = d.wrapped (ground arith) in
            let low : ltb d.after.info_.rdpos_ d.after.info_.bufoff_ ≡ true =
              ground (arith, s, few) in
            ground (arith, low)
      ]

  -- Over a source that returns its characters in order, at most as many as asked for and none only
  -- at its end, a read of a positive count that can be counted, by a source buffer with an array
  -- of some size and nothing buffered, ends with fuel for one round more than the count, copies
  -- the next count characters or all there are, leaves the source behind them, and leaves nothing
  -- buffered.
  pub read_delivers :
      (count : ℕ) (b : Sourcebuf S)
      → IsDry b
      → 0 < count
      → count < size_mod
      → (d : Delivered source rest law count 0 b (read source (suc count) count true b)) × IsDry
          d.after
  read_delivers count b dry n small =
      let d = read_loop_delivers source rest law (suc count) count 0 b dry.array n (omega arith) in
      let e : read source (suc count) count true b ≡ read_loop source (suc count) count 0 true b =
        read_dry (suc count) count b dry.dry n
        ∙ behind-nil (read_loop source (suc count) count 0 true b) in
      let still : IsDry d.after = record {
        array = omega (arith, d.room, dry.array);
        dry = still_dry count b (read_loop source (suc count) count 0 true b) small dry.dry d;
      } in
      subst (λ (o : Copied S). (d : Delivered source rest law count 0 b o) × IsDry d.after) (sym e)
        (d, still)
