-- ===== src/Http/RequestHead/Fields.antt =====
-- The headers of a request, printed and read, and the whole head.
use snode.Prelude.{
  ℕ, zero, suc, ◌+◌, ◌≡◌, ◌≢◌, ◌<◌, refl, sym, ap, ◌∙◌, Bool, true, false, List, [], ◌∷◌, ◌++◌,
  some, Bytes, length, take, drop, ◌==◌, if◌then◌else◌, arith, All, All-append, take-append_left,
  take_all, drop-append_left, drop-drop,
}
use snode.Http.Headers.{HeadersMap}
use snode.Http.Helpers.{is_nil, trim_whitespace, find_first_of, validate_method}
use snode.Http.Helpers.Parsing.{find_first_of-append}
use snode.Http.Helpers.Trimming.{starts_with_space, ends_with_space, trim_same, trim-between}
use snode.Http.RequestHead.{
  take_line, bytes_equal, header_line, at_colon, header_loop, go_on, at_line, store, Parsed,
  complete, head, headers_behind, read_head, spelt, methods,
}
use snode.Http.RequestHead.Line.{
  IsText, IsInLine, take_line-text, print_line, handle_http_line-print,
}

-- A name and a value that a header line can carry.
pub record IsField (f : Bytes × Bytes) : Type 0 where
  pub named : 0 < length f.0
  pub no_colon : All (λ c. (c == 58) ≡ false) f.0
  pub name_in_line : All IsInLine f.0
  pub value_in_line : All IsInLine f.1
  pub name_starts : starts_with_space f.0 ≡ false
  pub name_ends : ends_with_space f.0 ≡ false
  pub value_starts : starts_with_space f.1 ≡ false
  pub value_ends : ends_with_space f.1 ≡ false

abbrev pub field_line : Bytes × Bytes → Bytes
field_line (name, value) = name ++ 58 ∷ 32 ∷ (value ++ 13 ∷ [])

-- The header lines, the empty line, and what comes behind.
abbrev pub print_fields : List (Bytes × Bytes) → Bytes → Bytes
print_fields [] rest = 13 ∷ 10 ∷ rest
print_fields (f ∷ fs) rest = field_line f ++ 10 ∷ print_fields fs rest

if_false : {b : Bool} (x y : Parsed) → b ≡ false → (if b then x else y) ≡ y
if_false x y h = rw h

module _ (iequals : Bytes → Bytes → Bool) where
  abbrev pub store_all : List (Bytes × Bytes) → HeadersMap → HeadersMap
  store_all [] m = m
  store_all (f ∷ fs) m = store_all fs (store iequals f.0 f.1 m)

  field-IsInLine : (f : Bytes × Bytes) → IsField f → All IsInLine (field_line f)
  field-IsInLine (name, value) v =
      All-append IsInLine name (58 ∷ 32 ∷ (value ++ 13 ∷ [])) v.name_in_line (
        omega arith,
        (omega arith, All-append IsInLine value (13 ∷ []) v.value_in_line (omega arith, tt)),
      )

  header_line-field :
      (f : Bytes × Bytes) (m : HeadersMap)
      → IsField f
      → header_line iequals (field_line f) m ≡ some (store iequals f.0 f.1 m)
  unfolding header_line
  header_line-field (c ∷ name, value) m v =
      let l = field_line (c ∷ name, value) in
      let found : find_first_of 58 l ≡ some (length (c ∷ name)) =
        find_first_of-append 58 (c ∷ name) (32 ∷ (value ++ 13 ∷ [])) v.no_colon in
      let front : take (length (c ∷ name)) l ≡ c ∷ name =
        take-append_left (length (c ∷ name)) (c ∷ name) (58 ∷ 32 ∷ (value ++ 13 ∷ [])) (omega arith)
        ∙ take_all (length (c ∷ name)) (c ∷ name) (omega arith) in
      let back : drop (length (c ∷ name) + 1) l ≡ 32 ∷ (value ++ 13 ∷ []) =
        sym (drop-drop 1 (length (c ∷ name)) (length (c ∷ name) + 1) l refl)
        ∙ ap (drop 1)
            (drop-append_left (length (c ∷ name)) (c ∷ name) (58 ∷ 32 ∷ (value ++ 13 ∷ [])) refl) in
      ap (λ o. at_colon iequals o l m) found
      ∙ ap
          (λ n. some (
            store iequals (trim_whitespace n) (trim_whitespace (drop (length (c ∷ name) + 1) l)) m))
          front
      ∙ ap (λ n. some (store iequals n (trim_whitespace (drop (length (c ∷ name) + 1) l)) m))
          (trim_same (c ∷ name) v.name_starts v.name_ends)
      ∙ ap (λ b. some (store iequals (c ∷ name) (trim_whitespace b) m)) back
      ∙ ap (λ u. some (store iequals (c ∷ name) u m))
          (trim-between value 32 13 refl refl v.value_starts v.value_ends)
  header_line-field ([], value) m v = absurd (omega (arith, v.named))

  not_end :
      (f : Bytes × Bytes) (rest : Bytes)
      → IsField f
      → (is_nil (field_line f ++ rest) ≡ false) × (bytes_equal (field_line f) (13 ∷ []) ≡ false)
  not_end ([], value) rest v = absurd (omega (arith, v.named))
  not_end (c ∷ [], value) rest v = (refl, ground arith)
  not_end (c ∷ d ∷ name, value) rest v = (refl, ground arith)

  pub header_loop-print :
      (fuel : ℕ) (fs : List (Bytes × Bytes)) (m : HeadersMap) (rest : Bytes)
      → All IsField fs
      → length fs < fuel
      → header_loop iequals fuel (print_fields fs rest) m ≡ complete (store_all fs m) rest
  unfolding header_loop
  header_loop-print zero fs m rest v h = absurd (omega arith)
  header_loop-print (suc fuel) [] m rest v h = refl
  header_loop-print (suc fuel) (f ∷ fs) m rest v h =
      let (some_left, not_empty) = not_end f (10 ∷ print_fields fs rest) v.0 in
      if_false (complete m [])
        (at_line iequals (header_loop iequals fuel) m (take_line (print_fields (f ∷ fs) rest)))
        some_left
      ∙ ap (at_line iequals (header_loop iequals fuel) m)
          (take_line-text (field_line f) (print_fields fs rest) (field-IsInLine f v.0))
      ∙ if_false (complete m (print_fields fs rest))
          (go_on iequals (header_loop iequals fuel (print_fields fs rest)) m
            (header_line iequals (field_line f) m))
          not_empty
      ∙ ap (go_on iequals (header_loop iequals fuel (print_fields fs rest)) m)
          (header_line-field f m v.0)
      ∙ header_loop-print fuel fs (store iequals f.0 f.1 m) rest v.1 (omega arith)

-- Of a request line with a method without white space that is valid as the table spells it, a URL
-- of at least one character without line feed and version 1 with any character but a line feed
-- behind the dot, and header lines whose names have a character, no colon, no line feed and, like
-- their values, which have no line feed either, no white space around them, with the empty line
-- behind them, the connection reads the method as the table spells it, the URL, whether the
-- version is 1.0 and the headers stored one by one, and leaves what comes behind, with fuel for
-- one round more than there are headers.
pub read_head-print :
    (iequals : Bytes → Bytes → Bool) (method url rest : Bytes) (d : ℕ) (fs : List (Bytes × Bytes))
    → 0 < length method
    → All IsText method
    → validate_method (spelt iequals (methods iequals) method) ≡ true
    → 0 < length url
    → All IsInLine url
    → d ≢ 10
    → All IsField fs
    → read_head iequals (length fs + 1) (print_line method url d ++ 10 ∷ print_fields fs rest)
      ≡ head
          (spelt iequals (methods iequals) method)
          url
          (d == 48)
          (complete (store_all iequals fs []) rest)
read_head-print iequals method url rest d fs nonempty text valid long inline digit fields =
    let verb = spelt iequals (methods iequals) method in
    ap (headers_behind iequals (length fs + 1)) (
      handle_http_line-print iequals method url (print_fields fs rest) d nonempty text valid long
        inline digit)
    ∙ ap (head verb url (d == 48))
        (header_loop-print iequals (length fs + 1) fs [] rest fields (omega arith))
