-- ===== src/Http/ResponseHead/Framing.antt =====
-- How a response is framed, and whether its headers say so.
use snode.Prelude.{
  ℕ, ◌≡◌, refl, ap, ◌∙◌, Bool, true, false, ◌&&◌, ◌||◌, [], ◌∷◌, Option, none, some, Bytes, codes,
  same, arith, Bool-cases, inl, inr,
}
use snode.Http.Compare.{icmp, icmp_refl}
use snode.Http.Headers.{HeadersMap, find, put, add, match_text, set_content_type_if_not_present}
use snode.Http.Headers.Laws.{find-put, chosen, combined, IsSorted, find-add, add-put}
use snode.Http.HeaderSize.{match_size}
use snode.Http.Message.{Message, Response, print_size, set_body}
use snode.Http.ResponseWriter.{Connection}
use snode.Http.ResponseHead.{has_body, says_chunked, needs_chunks, framed, async_process_response}

abbrev transfer_encoding : Bytes
transfer_encoding = codes "Transfer-Encoding"

abbrev content_length : Bytes
content_length = codes "Content-Length"

same_eq : (s t : Bytes) → same s t ≡ true → s ≡ t
same_eq [] [] h = refl
same_eq [] (d ∷ t) h = cc
same_eq (c ∷ s) [] h = cc
same_eq (c ∷ s) (d ∷ t) h = ground (arith, same_eq s t)

says_chunked-find :
    (m : HeadersMap) → says_chunked m ≡ true → find transfer_encoding m ≡ some (codes "chunked")
unfolding says_chunked match_text
says_chunked-find m h = by_case (find transfer_encoding m) h
  where
    by_case :
        (o : Option Bytes)
        → (let p : Bytes × Bool = elim o [ none ↦ ([], false) | some v ↦ (v, true) ] in
            p.1 && same p.0 (codes "chunked"))
          ≡ true
        → o ≡ some (codes "chunked")
    by_case none g = cc
    by_case (some v) g = ap (λ t. some t) (same_eq v (codes "chunked") g)

-- Chunks are announced where the body is sent in chunks, and else its length.
abbrev pub Says : Bool → Response → ℕ → Type 0
Says true r size = find transfer_encoding r.message.headers_ ≡ some (codes "chunked")
Says false r size = match_size content_length 0 r.message.headers_ ≡ (size, true)

abbrev pub Announces : Response → Connection → Type 0
Announces r c = Says c.chunked_ r c.write_size_

-- With a body; without one the length is 0, or 0 is appended to it.
abbrev pub Frames : Bool → Response → Response → Connection → Type 0
Frames true r r' c = Announces r' c
Frames false r r' c =
    find content_length r'.message.headers_
    ≡ some (combined (find content_length r.message.headers_) (codes "0"))

Says-of :
    (b : Bool) (r : Response) (size : ℕ)
    → (b ≡ true → Says true r size)
    → (b ≡ false → Says false r size)
    → Says b r size
Says-of true r size f g = f refl
Says-of false r size f g = g refl

Frames-of :
    (b : Bool) (r r' : Response) (c : Connection)
    → (b ≡ true → Frames true r r' c)
    → (b ≡ false → Frames false r r' c)
    → Frames b r r' c
Frames-of true r r' c f g = f refl
Frames-of false r r' c f g = g refl

pub framed_length :
    (r : Response) → has_body r ≡ true → needs_chunks r ≡ false → framed r ≡ r.message.headers_
unfolding framed
framed_length r h k = ground arith

pub framed_chunks :
    (r : Response)
    → has_body r ≡ true
    → needs_chunks r ≡ true
    → framed r ≡ put transfer_encoding (codes "chunked") r.message.headers_
unfolding framed
framed_chunks r h k = ground arith

framed_empty :
    (r : Response)
    → has_body r ≡ false
    → framed r ≡ add content_length (codes "0") r.message.headers_
unfolding framed needs_chunks
framed_empty r h = rw h (ground arith)

-- There is no need for chunks where the length is found.
length_found :
    (r : Response)
    → has_body r ≡ true
    → needs_chunks r ≡ false
    → match_size content_length 0 r.message.headers_
      ≡ ((match_size content_length 0 r.message.headers_).0, true)
unfolding needs_chunks
length_found r h k = ground arith

or_false : (a b : Bool) → (a || b) ≡ false → a ≡ false
or_false false b h = refl
or_false true b h = cc

module _ (iequals : Bytes → Bytes → Bool) where
  abbrev processed : Response → Connection → Response × Connection × Bytes
  processed = async_process_response iequals

  -- For a response with headers in order: with a body, its headers say chunked where the body is
  -- sent in chunks, and else have a length that matches as the number of bytes to be written;
  -- without a body, 0 is put as the length or appended to the length that is there.
  pub async_process_response-Announces :
      (r : Response) (c : Connection)
      → IsSorted r.message.headers_
      → Frames (has_body r) r (processed r c).0 (processed r c).1
  unfolding async_process_response
  async_process_response-Announces r c s =
      Frames-of (has_body r) r (processed r c).0 (processed r c).1 with_body without
    where
      m : HeadersMap
      m = r.message.headers_

      in_chunks :
          has_body r ≡ true
          → (needs_chunks r || says_chunked m) ≡ true
          → Says true (processed r c).0 (processed r c).1.write_size_
      in_chunks h e = elim (Bool-cases (needs_chunks r)) [
        | inl k ↦
            ap (find transfer_encoding) (framed_chunks r h k)
            ∙ find-put transfer_encoding transfer_encoding (codes "chunked") m
            ∙ ap (λ o. chosen o (some (codes "chunked")) (find transfer_encoding m))
                (icmp_refl transfer_encoding)
        | inr k ↦
            ap (find transfer_encoding) (framed_length r h k)
            ∙ says_chunked-find m (ground (arith, k, e))
      ]

      at_length :
          has_body r ≡ true
          → (needs_chunks r || says_chunked m) ≡ false
          → Says false (processed r c).0 (processed r c).1.write_size_
      at_length h e =
          let k = or_false (needs_chunks r) (says_chunked m) e in
          ap (match_size content_length 0) (framed_length r h k) ∙ length_found r h k

      with_body : has_body r ≡ true → Announces (processed r c).0 (processed r c).1
      with_body h =
          Says-of (processed r c).1.chunked_ (processed r c).0 (processed r c).1.write_size_
            (λ e. in_chunks h e) (λ e. at_length h e)

      without :
          has_body r ≡ false
          → find content_length (processed r c).0.message.headers_
            ≡ some (combined (find content_length m) (codes "0"))
      without h =
          ap (find content_length) (framed_empty r h)
          ∙ (find-add content_length content_length (codes "0") m s).1
          ∙ ap
              (λ o.
                chosen o (some (combined (find content_length m) (codes "0")))
                  (find content_length m))
              (icmp_refl content_length)

abbrev content_type : Bytes
content_type = codes "Content-Type"

find-set_content_type :
    (q type : Bytes) (m : HeadersMap)
    → ((new old : Option Bytes) → chosen (icmp q content_type) new old ≡ old)
    → find q (set_content_type_if_not_present type m) ≡ find q m
unfolding set_content_type_if_not_present match_text
find-set_content_type q type m other = by_case (find content_type m)
  where
    by_case :
        (o : Option Bytes)
        → find q
            (elim (elim o as (λ _. Bytes × Bool) [ none ↦ ([], false) | some v ↦ (v, true) ]).1
              as (λ _. HeadersMap) [ false ↦ add content_type type m | true ↦ m ])
          ≡ find q m
    by_case none =
        ap (find q) (add-put content_type type m)
        ∙ find-put q content_type (combined (find content_type m) type) m
        ∙ other (some (combined (find content_type m) type)) (find q m)
    by_case (some v) = refl

set_body-headers :
    (stream size : ℕ) (type : Bytes) (m : Message)
    → (set_body stream size type m).0.headers_
      ≡ set_content_type_if_not_present type (put content_length (print_size size) m.headers_)
unfolding set_body
set_body-headers stream size type m = refl

pub set_body-length :
    (stream size : ℕ) (type : Bytes) (m : Message)
    → find content_length (set_body stream size type m).0.headers_ ≡ some (print_size size)
unfolding icmp
set_body-length stream size type m =
    let m' = put content_length (print_size size) m.headers_ in
    ap (find content_length) (set_body-headers stream size type m)
    ∙ find-set_content_type content_length type m' (λ new old. refl)
    ∙ find-put content_length content_length (print_size size) m.headers_

pub set_body-coding :
    (stream size : ℕ) (type : Bytes) (m : Message)
    → find transfer_encoding (set_body stream size type m).0.headers_
      ≡ find transfer_encoding m.headers_
unfolding icmp
set_body-coding stream size type m =
    let m' = put content_length (print_size size) m.headers_ in
    ap (find transfer_encoding) (set_body-headers stream size type m)
    ∙ find-set_content_type transfer_encoding type m' (λ new old. refl)
    ∙ find-put transfer_encoding content_length (print_size size) m.headers_
