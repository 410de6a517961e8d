-- ===== src/Http/Body/Laws.antt =====
-- What the reading of a body delivers.
use snode.Prelude.{
  ℕ, ◌+◌, ◌-◌, ◌≤◌, ◌<◌, ◌≡◌, refl, sym, ap, ◌∙◌, Bool, true, false, [], ◌++◌, none, some, Bytes,
  length, take, drop, min, size_mod, add_size, sub_size, ltb, leb, ◌==◌, if◌then◌else◌, arith,
  append_assoc, append-nil, length-append, some_inj, take_all, length-take, take-append-drop,
  take-append_left,
}
use snode.Http.Body.{
  Connection, Pending, async_read, putn, idle, async_read_until_buffersize, complete, start_body,
  handle_body, handle_body_buff_write, Reading, begun, arrived, failed, taken, refused, chunk_size,
}

-- Of a connection that has `stream` from the end of the headers on, `size` of it the body: the stream is
-- what the body's reader took and what is in the buffer, and no more than the body was taken.
abbrev Carries : Bytes → ℕ → Connection → Type 0
Carries stream size c =
    (c.read_size_ ≡ size)
    × (c.read_ ≡ length c.accepted)
    × (c.read_ ≤ size)
    × (c.accepted ++ c.request_buf_ ≡ stream)

-- What holds besides, by what the connection waits for.
abbrev Awaits : Connection → Pending → Type 0
Awaits c (async_read least) =
    (c.completed ≡ none) × (c.read_ < c.read_size_ → 0 < length c.request_buf_ + least)
Awaits c (putn bytes) =
    (c.completed ≡ none)
    × (0 < length bytes)
    × (c.read_ + length bytes ≤ c.read_size_)
    × (bytes ≡ take (length bytes) c.request_buf_)
Awaits c idle = (n : ℕ) × (c.completed ≡ some n) × (0 < n → (n ≡ c.read_size_) × (c.read_ ≡ n))

abbrev pub Holds : Bytes → ℕ → Connection × Pending → Type 0
Holds stream size (c, p) = Carries stream size c × Awaits c p

Holds-if :
    (stream : Bytes) (size : ℕ) (x y : Connection × Pending) (b : Bool)
    → (b ≡ true → Holds stream size x)
    → (b ≡ false → Holds stream size y)
    → Holds stream size (if b then x else y)
Holds-if stream size x y true f g = f refl
Holds-if stream size x y false f g = g refl

module _ (stream : Bytes) (size : ℕ) (small : size < size_mod) where
  Holds-read :
      (c : Connection) (most : ℕ)
      → Carries stream size c
      → c.completed ≡ none
      → (c.read_ < c.read_size_ → 0 < most)
      → Holds stream size (c, async_read_until_buffersize most c)
  unfolding async_read_until_buffersize
  Holds-read c most k u w = (k, by_test (leb most (length c.request_buf_)) refl)
    where
      by_test :
          (b : Bool)
          → leb most (length c.request_buf_) ≡ b
          → Awaits c (if b then async_read 0 else async_read (most - length c.request_buf_))
      by_test true e = (u, λ h. let m = w h in ground (arith, m, e))
      by_test false e = (u, λ h. let m = w h in ground (arith, m, e))

  Holds-zero : (c : Connection) → Carries stream size c → Holds stream size (complete 0 c, idle)
  unfolding complete
  Holds-zero c k = (k, (0, refl, λ h. absurd (omega arith)))

  Holds-body :
      (c : Connection)
      → Carries stream size c
      → c.completed ≡ none
      → (c.read_ < c.read_size_ → 0 < length c.request_buf_)
      → Holds stream size (handle_body false c)
  unfolding handle_body complete
  Holds-body c k u w =
      Holds-if stream size _ _ (ltb c.read_ c.read_size_) (λ more. (k, given more))
        λ done. (k, (c.read_, refl, λ h. (ground (arith, k, done), refl)))
    where
      n : ℕ
      n = min (length c.request_buf_) (sub_size c.read_size_ c.read_)

      fits : length (take n c.request_buf_) ≡ n
      fits = omega (arith, length-take n c.request_buf_)

      given : ltb c.read_ c.read_size_ ≡ true → Awaits c (putn (take n c.request_buf_))
      given more =
          let less : c.read_ < c.read_size_ = ground (arith, more) in
          let there = w less in
          (
            u,
            omega (arith, fits, less, there, k.0, small),
            omega (arith, fits, less, k.0, small),
            ap (λ i. take i c.request_buf_) (sym fits),
          )

  Holds-taken :
      (c : Connection) (bytes : Bytes)
      → Carries stream size c
      → Awaits c (putn bytes)
      → Holds stream size
          (handle_body_buff_write (length bytes) (record c { accepted = c.accepted ++ bytes }))
  unfolding handle_body_buff_write
  Holds-taken c bytes k w =
      Holds-if stream size _ _ (length bytes == 0) (λ z. absurd (ground (arith, w.1)))
        λ more.
          Holds-read c' (min chunk_size (sub_size c'.read_size_ c'.read_))
            (
              k.0,
              omega (arith, at, k.1, length-append c.accepted bytes),
              omega (arith, at, k.0, w.2),
              append_assoc c.accepted bytes (drop (length bytes) c.request_buf_)
                  ∙ ap (◌++◌ c.accepted) (
                      ap (λ b. b ++ drop (length bytes) c.request_buf_) w.3
                      ∙ take-append-drop (length bytes) c.request_buf_)
                  ∙ k.3,
            )
            w.0 λ less. omega (arith, less, k.0, small)
    where
      c' : Connection
      c' = record c {
        accepted = c.accepted ++ bytes;
        read_ = add_size c.read_ (length bytes);
        request_buf_ = drop (length bytes) c.request_buf_;
      }

      at : add_size c.read_ (length bytes) ≡ c.read_ + length bytes
      at = omega (arith, k.0, w.2, small)

  Holds-failed : (c : Connection) → Carries stream size c → Holds stream size (handle_body true c)
  unfolding handle_body
  Holds-failed c k = Holds-zero c k

  Holds-refused :
      (c : Connection) → Carries stream size c → Holds stream size (handle_body_buff_write 0 c)
  unfolding handle_body_buff_write
  Holds-refused c k = Holds-zero c k

-- A connection behind the headers of a request: nothing of the body is read, and its length can be
-- counted.
pub record IsReady (start : Connection) : Type 0 where
  pub nothing_read : start.read_ ≡ 0
  pub nothing_out : start.accepted ≡ []
  pub not_completed : start.completed ≡ none
  pub small : start.read_size_ < size_mod

module _ {start : Connection} (r : IsReady start) where
  Holds-start : Holds (start.request_buf_ ++ []) start.read_size_ (start_body start)
  unfolding start_body
  Holds-start =
      Holds-if (start.request_buf_ ++ []) start.read_size_ _ _ (start.read_size_ == 0)
        (λ z. Holds-zero (start.request_buf_ ++ []) start.read_size_ r.small start carries)
        λ more.
          Holds-read (start.request_buf_ ++ []) start.read_size_ r.small
            (record start { read_ = 0 }) (min chunk_size start.read_size_)
            (refl, ap length (sym r.nothing_out), omega arith, carries.3) r.not_completed
            λ less. omega (arith, less)
    where
      carries : Carries (start.request_buf_ ++ []) start.read_size_ start
      carries = (
        refl,
        r.nothing_read ∙ ap length (sym r.nothing_out),
        omega (arith, r.nothing_read),
        ap (λ o. o ++ start.request_buf_) r.nothing_out ∙ sym (append-nil start.request_buf_),
      )

  Holds-reading :
      {received : Bytes} {s : Connection × Pending}
      → Reading start received s
      → Holds (start.request_buf_ ++ received) start.read_size_ s
  Holds-reading begun = Holds-start
  Holds-reading (arrived {received} {c} {least} run bytes enough) =
      let h = Holds-reading run in
      Holds-body (start.request_buf_ ++ (received ++ bytes)) start.read_size_ r.small
        (record c { request_buf_ = c.request_buf_ ++ bytes })
        (
          h.0.0,
          h.0.1,
          h.0.2,
          sym (append_assoc c.accepted c.request_buf_ bytes)
              ∙ ap (λ t. t ++ bytes) h.0.3
              ∙ append_assoc start.request_buf_ received bytes,
        )
        h.1.0 λ less. let m = h.1.1 less in omega (arith, m, length-append c.request_buf_ bytes)
  Holds-reading (failed {received} {c} run) =
      Holds-failed (start.request_buf_ ++ received) start.read_size_ r.small c (Holds-reading run).0
  Holds-reading (taken {received} {c} {bytes} run) =
      let h = Holds-reading run in
      Holds-taken (start.request_buf_ ++ received) start.read_size_ r.small c bytes h.0 h.1
  Holds-reading (refused {received} {c} run) =
      Holds-refused (start.request_buf_ ++ received) start.read_size_ r.small c
        (Holds-reading run).0

  -- At each point of the reading of a body from a connection behind its headers, of a length that
  -- can be counted, the bytes given to the calls of putn that were answered with their count and
  -- those in the buffer are the bytes that came in, in order; the former are no more than the
  -- length of the body, and read_ counts them.
  pub Reading-conserves :
      {received : Bytes} {c : Connection} {p : Pending}
      → Reading start received (c, p)
      → (c.accepted ++ c.request_buf_ ≡ start.request_buf_ ++ received)
        × (length c.accepted ≤ start.read_size_)
        × (c.read_ ≡ length c.accepted)
  Reading-conserves run = let h = Holds-reading run in (h.0.3, omega (arith, h.0.1, h.0.2), h.0.1)

  -- Where the reading of a body from a connection behind its headers, of a length that can be
  -- counted, completes with a size other than 0, that is the length of the body, and the calls of
  -- putn on the copied stream buffer that were answered with their count were given exactly so
  -- many of the bytes that came in, in order.
  pub Reading-delivers :
      {received : Bytes} {c : Connection} {p : Pending} {n : ℕ}
      → Reading start received (c, p)
      → c.completed ≡ some n
      → 0 < n
      → (n ≡ start.read_size_)
        × (c.accepted ≡ take start.read_size_ (start.request_buf_ ++ received))
  Reading-delivers {received} {c} {p} {n} run done more =
      let h = Holds-reading run in
      let all = finished p h.1 in
      let full : start.read_size_ ≡ length c.accepted = omega (arith, all, h.0.0, h.0.1) in
      (
        omega (arith, all.0, h.0.0),
        sym (take_all start.read_size_ c.accepted (omega (arith, full)))
            ∙ sym
                (take-append_left start.read_size_ c.accepted c.request_buf_ (omega (arith, full)))
            ∙ ap (take start.read_size_) h.0.3,
      )
    where
      finished : (p : Pending) → Awaits c p → (n ≡ c.read_size_) × (c.read_ ≡ n)
      finished (async_read least) w = let e : none ≡ some n = sym w.0 ∙ done in absurd cc
      finished (putn bytes) w = let e : none ≡ some n = sym w.0 ∙ done in absurd cc
      finished idle (m, e, sized) =
          let same : m ≡ n = some_inj (sym e ∙ done) in
          let s = sized (omega (arith, same, more)) in (omega (arith, same, s.0), s.1 ∙ same)
