-- ===== src/Http/ResponseHead/Fields.antt =====
-- The headers that are sent, read again by the loop that reads a request's headers.
use snode.Prelude.{
  ℕ, ◌≡◌, ◌<◌, refl, sym, ap, ◌∙◌, Bool, true, [], ◌∷◌, ◌++◌, none, Bytes, codes, length, arith,
  All, All-append, append_assoc, append-nil, Bool-cases, inl, inr,
}
use Prim.Native.Nat.{Ordering}
use snode.Http.Compare.{icmp, icmp_refl, icmp-flip}
use snode.Http.Headers.{HeadersMap, find, put, get_or_insert}
use snode.Http.Headers.Laws.{IsSorted, Behind, put-IsSorted}
use snode.Http.Message.{Response}
use snode.Http.RequestHead.{header_loop, complete, store}
use snode.Http.RequestHead.Fields.{IsField, print_fields, store_all, header_loop-print}
use snode.Http.ResponseHead.{
  status_line, headers_text, framed, has_body, needs_chunks, async_process_response,
}
use snode.Http.ResponseHead.Framing.{framed_length, framed_chunks}
use snode.Http.ResponseWriter.{Connection}

headers_text-print : (m : HeadersMap) → headers_text m ≡ print_fields m []
unfolding headers_text
headers_text-print [] = refl
headers_text-print ((name, value) ∷ m) = simp (append_assoc, headers_text-print m)

-- Every name of `m` comes before `k`.
abbrev Before : HeadersMap → Bytes → Type 0
Before m k = All (λ e. icmp k e.0 ≡ Ordering.gt) m

find-Before : (k : Bytes) (m : HeadersMap) → Before m k → find k m ≡ none
unfolding find
find-Before k [] b = refl
find-Before k ((j, v) ∷ m) b = ground (arith, b, find-Before k m b.1)

put-Before : (k v : Bytes) (m : HeadersMap) → Before m k → put k v m ≡ m ++ (k, v) ∷ []
unfolding put
put-Before k v [] b = refl
put-Before k v ((j, w) ∷ m) b = ground (arith, b, put-Before k v m b.1)

put_last :
    (k u v : Bytes) (m : HeadersMap) → Before m k → put k v (m ++ (k, u) ∷ []) ≡ m ++ (k, v) ∷ []
unfolding put
put_last k u v [] b = ground (arith, icmp_refl k)
put_last k u v ((j, w) ∷ m) b = ground (arith, b, put_last k u v m b.1)

-- A field for the name, or for another spelling that is there.
put-IsField :
    (name value : Bytes) (m : HeadersMap)
    → IsField (name, value)
    → All IsField m
    → All IsField (put name value m)
unfolding put
put-IsField name value [] f a = (f, tt)
put-IsField name value ((k, v) ∷ m) f a =
    ground (arith, a, f, respelt, put-IsField name value m f a.1)
  where
    respelt : IsField (k, value)
    respelt = record {
      named = a.0.named;
      no_colon = a.0.no_colon;
      name_in_line = a.0.name_in_line;
      value_in_line = f.value_in_line;
      name_starts = a.0.name_starts;
      name_ends = a.0.name_ends;
      value_starts = f.value_starts;
      value_ends = f.value_ends;
    }

chunked-IsField : IsField (codes "Transfer-Encoding", codes "chunked")
chunked-IsField = record {
  named = omega arith;
  no_colon = ground arith;
  name_in_line = omega arith;
  value_in_line = omega arith;
  name_starts = refl;
  name_ends = refl;
  value_starts = refl;
  value_ends = refl;
}

framed-fields :
    (r : Response)
    → has_body r ≡ true
    → IsSorted r.message.headers_
    → All IsField r.message.headers_
    → IsSorted (framed r) × All IsField (framed r)
framed-fields r h s f = elim (Bool-cases (needs_chunks r)) [
  | inl k ↦ rw (framed_chunks r h k) (
    put-IsSorted (codes "Transfer-Encoding") (codes "chunked") r.message.headers_ s,
    put-IsField (codes "Transfer-Encoding") (codes "chunked") r.message.headers_ chunked-IsField f,
  )
  | inr k ↦ rw (framed_length r h k) (s, f)
]

module _ (iequals : Bytes → Bytes → Bool) where
  store-Before :
      (k v : Bytes) (m : HeadersMap) → Before m k → store iequals k v m ≡ m ++ (k, v) ∷ []
  unfolding store get_or_insert
  store-Before k v m b = ground (arith, find-Before k m b, put-Before k [] m b, put_last k [] v m b)

  -- Headers in order that come behind those there are stored as they are.
  store_all-sorted :
      (fs m : HeadersMap)
      → IsSorted fs
      → All (λ e. Before m e.0) fs
      → store_all iequals fs m ≡ m ++ fs
  store_all-sorted [] m s b = sym (append-nil m)
  store_all-sorted ((k, v) ∷ fs) m s b =
      ap (store_all iequals fs) (store-Before k v m b.0)
      ∙ store_all-sorted fs (m ++ (k, v) ∷ []) s.1 (further fs s.0 b.1)
      ∙ append_assoc m ((k, v) ∷ []) fs
    where
      further :
          (es : HeadersMap)
          → Behind k es
          → All (λ e. Before m e.0) es
          → All (λ e. Before (m ++ (k, v) ∷ []) e.0) es
      further [] h a = tt
      further ((j, w) ∷ es) h a = (
        All-append (λ e. icmp j e.0 ≡ Ordering.gt) m ((k, v) ∷ []) a.0
            (ground (arith, h, icmp-flip k j)),
        further es h.1 a.1,
      )

  headers_text-read :
      (m : HeadersMap) (fuel : ℕ)
      → IsSorted m
      → All IsField m
      → length m < fuel
      → header_loop iequals fuel (headers_text m) [] ≡ complete m []
  headers_text-read m fuel s f h =
      ap (λ text. header_loop iequals fuel text []) (headers_text-print m)
      ∙ header_loop-print iequals fuel m [] [] f h
      ∙ ap (λ r. complete r []) (store_all-sorted m [] s (nothing m))
    where
      nothing : (es : HeadersMap) → All (λ e. Before [] e.0) es
      nothing [] = tt
      nothing (e ∷ es) = (tt, nothing es)

  -- The text for a response with a body and headers in order, whose names have a character, no
  -- colon, no line feed and, like their values, which have no line feed either, no white space
  -- around them, is the status line and lines in which the loop over the headers of a request,
  -- with fuel for one round more than there are headers, finds the headers that the response has
  -- then, and nothing behind.
  pub async_process_response-read :
      (r : Response) (c : Connection) (fuel : ℕ)
      → has_body r ≡ true
      → IsSorted r.message.headers_
      → All IsField r.message.headers_
      → length (framed r) < fuel
      → (lines : Bytes) × ((async_process_response iequals r c).2 ≡ status_line r ++ lines)
        × (header_loop iequals fuel lines []
            ≡ complete (async_process_response iequals r c).0.message.headers_ [])
  unfolding async_process_response
  async_process_response-read r c fuel h s f l =
      let (s', f') = framed-fields r h s f in
      (headers_text (framed r), refl, headers_text-read (framed r) fuel s' f' l)
