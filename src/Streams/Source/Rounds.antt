-- ===== src/Streams/Source/Rounds.antt =====
-- The rounds of the loop of `read`, over a source that delivers its characters in order: what each
-- copies, and what the loop copies and leaves.
use snode.Prelude.{
  ℕ, zero, suc, ◌+◌, ◌-◌, ◌≡◌, ◌≤◌, ◌<◌, refl, sym, ap, ◌∙◌, true, [], ◌++◌, none, some, Bytes,
  length, take, drop, length-append, length-copy_at, take-copy_at, take-append_left,
  drop-append_left, take-nil, drop-nil, take_all, drop_all, nil_of_length, add_size, size_mod, ltb,
  ◌==◌, if◌then◌else◌, arith, Bool-cases, inl, inr, ==_iff, take-append, drop-append,
}
use snode.Streams.Source.{Source, IsSequential, Sourcebuf, Copied, behind, fill_buffer, read_loop}

module _ {S : Type 0} (source : Source S) (rest : S → Bytes) (law : IsSequential source rest) where
  -- What `fill_buffer` fetches for `count` characters.
  abbrev asked : ℕ → Sourcebuf S → ℕ
  asked count b = if ltb (length b.info_.buffer_) count then length b.info_.buffer_ else count

  abbrev fetched : ℕ → Sourcebuf S → Bytes
  fetched count b = (Source.read source b.source_ (asked count b) none).0

  asked_bounds :
      (count : ℕ) (b : Sourcebuf S)
      → 0 < length b.info_.buffer_
      → 0 < count
      → (0 < asked count b) × (asked count b ≤ count) × (asked count b ≤ length b.info_.buffer_)
  asked_bounds count b h n = (ground arith, ground arith, ground arith)

  -- `fill_buffer` at the source's own position.
  record Filled (count : ℕ) (b : Sourcebuf S) (n : ℕ) (b' : Sourcebuf S) : Type 0 where
    counts : n ≡ length (fetched count b)
    few : n ≤ count
    order : rest b.source_ ≡ fetched count b ++ rest b'.source_
    final : n ≡ 0 → rest b.source_ ≡ []
    room : length b'.info_.buffer_ ≡ length b.info_.buffer_
    same : b'.stream_can_read_ ≡ b.stream_can_read_
    kept :
        n ≡ 0
        → (b'.info_.rdpos_ ≡ b.info_.rdpos_)
          × (b'.info_.bufoff_ ≡ b.info_.bufoff_)
          × (b'.info_.buffill_ ≡ b.info_.buffill_)
    wrapped :
        0 < n
        → (b'.info_.rdpos_ ≡ size_mod - 1)
          × (b'.info_.bufoff_ ≡ size_mod - 1)
          × (take n b'.info_.buffer_ ≡ fetched count b)

  fill_buffer_lem :
      (count : ℕ) (b : Sourcebuf S)
      → 0 < length b.info_.buffer_
      → 0 < count
      → let (n, b') = fill_buffer source count none b in Filled count b n b'
  unfolding fill_buffer
  fill_buffer_lem count b h n =
      let a = asked_bounds count b h n in
      let most = law.at_most b.source_ (asked count b) in
      record {
        counts = refl;
        few = omega (arith, a.1, most);
        order = law.in_order b.source_ (asked count b);
        final = λ e. law.at_end b.source_ (asked count b) a.0 e;
        room = ground (arith, length-copy_at b.info_.buffer_ 0 (fetched count b));
        same = refl;
        kept = λ e. (ground arith, ground arith, ground arith);
        wrapped = λ p. (
          ground arith,
          ground arith,
          ground (
            arith,
            take-copy_at b.info_.buffer_ 0 (length (fetched count b)) (fetched count b)
                (omega arith) (omega (arith, a.2, most)),
          ),
        );
      }

  -- The rounds of the loop.
  module _ (fuel wanted totalr : ℕ) (b : Sourcebuf S) where
    abbrev filled : Sourcebuf S
    filled = (fill_buffer source wanted none b).1

    abbrev avail : ℕ
    avail = (fill_buffer source wanted none b).0

    abbrev after_round : Sourcebuf S
    after_round = record filled {
      info_ = record filled.info_ { rdpos_ = add_size filled.info_.rdpos_ (add_size totalr avail) };
    }

    abbrev later : Copied S
    later = read_loop source fuel (wanted - avail) (add_size totalr avail) true after_round

    round_none : avail ≡ 0 → read_loop source (suc fuel) wanted totalr true b ≡ some ([], filled)
    unfolding read_loop
    round_none e = ground arith

    round_last :
        0 < avail
        → avail ≡ wanted
        → read_loop source (suc fuel) wanted totalr true b
          ≡ some (take avail filled.info_.buffer_, after_round)
    unfolding read_loop
    round_last p e = ground arith

    round_more :
        0 < avail
        → avail < wanted
        → read_loop source (suc fuel) wanted totalr true b
          ≡ behind (take avail filled.info_.buffer_) later
    unfolding read_loop
    round_more p e = ground arith

  -- What a read of `wanted` characters, `totalr` having been copied before, hands out and leaves.
  pub record Delivered (wanted totalr : ℕ) (b : Sourcebuf S) (o : Copied S) : Type 0 where
    pub out : Bytes
    pub after : Sourcebuf S
    pub gives : o ≡ some (out, after)
    pub bytes : out ≡ take wanted (rest b.source_)
    pub left : rest after.source_ ≡ drop wanted (rest b.source_)
    pub room : length after.info_.buffer_ ≡ length b.info_.buffer_
    pub same : after.stream_can_read_ ≡ b.stream_can_read_
    pub still :
        length out ≡ 0
        → (after.info_.rdpos_ ≡ b.info_.rdpos_)
          × (after.info_.bufoff_ ≡ b.info_.bufoff_)
          × (after.info_.buffill_ ≡ b.info_.buffill_)
    pub wrapped :
        0 < length out
        → (after.info_.rdpos_ ≡ add_size (size_mod - 1) (add_size totalr (length out)))
          × (after.info_.bufoff_ ≡ size_mod - 1)

  deliver_none :
      (fuel wanted totalr : ℕ) (b : Sourcebuf S)
      → Filled wanted b (avail fuel wanted totalr b) (filled fuel wanted totalr b)
      → avail fuel wanted totalr b ≡ 0
      → Delivered wanted totalr b (read_loop source (suc fuel) wanted totalr true b)
  deliver_none fuel wanted totalr b f e =
      let empty : fetched wanted b ≡ [] =
        nil_of_length (fetched wanted b) (omega (arith, f.counts)) in
      let over : rest b.source_ ≡ [] = f.final e in
      record {
        out = [];
        after = filled fuel wanted totalr b;
        gives = round_none fuel wanted totalr b e;
        bytes = sym (ap (take wanted) over ∙ take-nil wanted);
        left =
            sym (ap (λ v. v ++ rest (filled fuel wanted totalr b).source_) empty)
            ∙ sym f.order
            ∙ over
            ∙ sym (ap (drop wanted) over ∙ drop-nil wanted);
        room = f.room;
        same = f.same;
        still = λ z. f.kept e;
        wrapped = λ p. absurd (omega arith);
      }

  deliver_last :
      (fuel wanted totalr : ℕ) (b : Sourcebuf S)
      → Filled wanted b (avail fuel wanted totalr b) (filled fuel wanted totalr b)
      → 0 < avail fuel wanted totalr b
      → avail fuel wanted totalr b ≡ wanted
      → Delivered wanted totalr b (read_loop source (suc fuel) wanted totalr true b)
  deliver_last fuel wanted totalr b f p e =
      let w = f.wrapped p in
      let r = rest (filled fuel wanted totalr b).source_ in
      let n : wanted ≡ length (fetched wanted b) = sym e ∙ f.counts in
      record {
        out = fetched wanted b;
        after = after_round fuel wanted totalr b;
        gives =
            round_last fuel wanted totalr b p e
            ∙ ap (λ o. some (o, after_round fuel wanted totalr b)) w.2;
        bytes = sym (
            ap (take wanted) f.order
            ∙ take-append_left wanted (fetched wanted b) r (omega arith)
            ∙ take_all wanted (fetched wanted b) (omega arith));
        left = sym (ap (drop wanted) f.order ∙ drop-append_left wanted (fetched wanted b) r n);
        room = f.room;
        same = f.same;
        still = λ z. absurd (omega (arith, f.counts));
        wrapped = λ q. (omega (arith, w.0, f.counts), w.1);
      }

  deliver_more :
      (fuel wanted totalr : ℕ) (b : Sourcebuf S)
      → Filled wanted b (avail fuel wanted totalr b) (filled fuel wanted totalr b)
      → 0 < avail fuel wanted totalr b
      → avail fuel wanted totalr b < wanted
      → Delivered
          (wanted - avail fuel wanted totalr b)
          (add_size totalr (avail fuel wanted totalr b))
          (after_round fuel wanted totalr b)
          (later fuel wanted totalr b)
      → Delivered wanted totalr b (read_loop source (suc fuel) wanted totalr true b)
  deliver_more fuel wanted totalr b f p e d =
      let w = f.wrapped p in
      let r = rest (filled fuel wanted totalr b).source_ in
      let n : avail fuel wanted totalr b ≡ length (fetched wanted b) = f.counts in
      let size : length (fetched wanted b ++ d.out) ≡ avail fuel wanted totalr b + length d.out =
        length-append (fetched wanted b) d.out ∙ omega arith in
      record {
        out = fetched wanted b ++ d.out;
        after = d.after;
        gives =
            round_more fuel wanted totalr b p e
            ∙ ap (λ o. behind o (later fuel wanted totalr b)) w.2
            ∙ ap (behind (fetched wanted b)) d.gives;
        bytes =
            ap (◌++◌ (fetched wanted b)) (d.bytes ∙ ap (λ i. take (wanted - i) r) n)
            ∙ ap (λ v. v ++ take (wanted - length (fetched wanted b)) r)
                (sym (take_all wanted (fetched wanted b) (omega arith)))
            ∙ sym (take-append wanted (fetched wanted b) r)
            ∙ ap (take wanted) (sym f.order);
        left =
            d.left
            ∙ ap (λ i. drop (wanted - i) r) n
            ∙ ap (λ v. v ++ drop (wanted - length (fetched wanted b)) r)
                (sym (drop_all wanted (fetched wanted b) (omega arith)))
            ∙ sym (drop-append wanted (fetched wanted b) r)
            ∙ ap (drop wanted) (sym f.order);
        room = d.room ∙ f.room;
        same = d.same ∙ f.same;
        still = λ z. absurd (omega (arith, size));
        wrapped = λ q. elim (Bool-cases (length d.out == 0)) [
          | inl z ↦
              let s = d.still ((==_iff (length d.out) 0).0 z) in
              (s.0 ∙ omega (arith, w.0, size, (==_iff (length d.out) 0).0 z), s.1 ∙ w.1)
          | inr z ↦ let s = d.wrapped (ground arith) in (s.0 ∙ omega (arith, size), s.1)
        ];
      }

  pub read_loop_delivers :
      (fuel wanted totalr : ℕ) (b : Sourcebuf S)
      → 0 < length b.info_.buffer_
      → 0 < wanted
      → wanted < fuel
      → Delivered wanted totalr b (read_loop source fuel wanted totalr true b)
  read_loop_delivers zero wanted totalr b h n l = absurd (omega arith)
  read_loop_delivers (suc fuel) wanted totalr b h n l =
      let f = fill_buffer_lem wanted b h n in
      elim (Bool-cases (avail fuel wanted totalr b == 0)) [
        | inl z ↦ deliver_none fuel wanted totalr b f ((==_iff _ 0).0 z)
        | inr z ↦ elim (Bool-cases (ltb (avail fuel wanted totalr b) wanted)) [
          | inl less ↦ deliver_more fuel wanted totalr b f (ground arith) (ground arith) (
              read_loop_delivers fuel (wanted - avail fuel wanted totalr b)
                (add_size totalr (avail fuel wanted totalr b)) (after_round fuel wanted totalr b)
                (omega (arith, f.room)) (ground arith) (ground arith))
          | inr all ↦ deliver_last fuel wanted totalr b f (ground arith) (ground (arith, f.few))
        ]
      ]
