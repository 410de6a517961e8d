-- ===== src/Http/RequestHead.antt =====
-- How `http_connection` of src/http_service.cpp reads the head of a request from its buffer:
-- `handle_http_line` for the request line, and the loop of `handle_headers` for the headers.
-- `iequals` is `boost::iequals`, by which strings are compared up to case. White space is that of the
-- classic locale.
pub mod Line
pub mod Fields
mod Tests
use snode.Prelude.{
  ℕ, zero, suc, ◌+◌, ◌-◌, ◌≡◌, Bool, true, false, not, ◌||◌, List, [], ◌∷◌, ◌++◌, Option, none,
  some, Bytes, codes, length, take, drop, ltb, leb, ◌==◌, if◌then◌else◌,
}
use snode.Http.Headers.{HeadersMap, get_or_insert, put}
use snode.Http.Helpers.{is_space, is_nil, trim_whitespace, find_first_of, validate_method}

-- `>>` for a string: white space is skipped, and what comes up to the next white space is taken.
unfoldable pub skip_space : Bytes → Bytes
skip_space [] = []
skip_space (c ∷ s) = let rest = skip_space s in if is_space c then rest else c ∷ s

unfoldable pub take_word : Bytes → Bytes × Bytes
take_word [] = ([], [])
take_word (c ∷ s) =
    let (word, rest) = take_word s in if is_space c then ([], c ∷ s) else (c ∷ word, rest)

-- `std::getline`: what comes up to a line feed, which is taken too.
unfoldable pub take_line : Bytes → Bytes × Bytes
take_line [] = ([], [])
take_line (c ∷ s) = let (line, rest) = take_line s in if c == 10 then ([], s) else (c ∷ line, rest)

-- " HTTP/1.1\r" has so many characters.
abbrev pub version_portion_size : ℕ
version_portion_size = 10

-- The method, the URL, whether the version is 1.0, and what is left in the buffer.
pub data HttpLine : Type 0 where
  accepted : Bytes → Bytes → Bool → Bytes → HttpLine
  bad_request : HttpLine

abbrev pub bytes_equal : Bytes → Bytes → Bool
bytes_equal [] [] = true
bytes_equal [] (d ∷ t) = false
bytes_equal (c ∷ s) [] = false
bytes_equal (c ∷ s) (d ∷ t) = if c == d then bytes_equal s t else false

-- From the line behind the method on.
unfoldable pub url_and_version : Bytes → Bytes × Bytes → HttpLine
url_and_version verb (line, rest) =
    if ltb (length line) (version_portion_size + 2)
    then bad_request
    else accepted verb (take (length line - version_portion_size - 1) (drop 1 line))
        (bytes_equal
          (take (version_portion_size - 2) (drop (length line - version_portion_size + 1) line))
          (codes "HTTP/1.0"))
        rest

-- What the loop over the headers leaves: the map and the buffer, or the map at a line that is refused.
pub data Parsed : Type 0 where
  complete : HeadersMap → Bytes → Parsed
  refused : HeadersMap → Parsed
  out_of_fuel : Parsed

-- The method, the URL, whether the version is 1.0, and what the loop over the headers leaves.
pub data Head : Type 0 where
  head : Bytes → Bytes → Bool → Parsed → Head
  bad_line : Head

module _ (iequals : Bytes → Bytes → Bool) where
  -- A method in any case, as it is spelt in the table of methods.
  unfoldable pub spelt : List Bytes → Bytes → Bytes
  spelt [] verb = verb
  spelt (m ∷ ms) verb = if iequals verb m then m else spelt ms verb

  abbrev pub methods : List Bytes
  methods =
      codes "GET"
      ∷ codes "POST"
      ∷ codes "PUT"
      ∷ codes "DELETE"
      ∷ codes "HEAD"
      ∷ codes "TRACE"
      ∷ codes "CONNECT"
      ∷ codes "OPTIONS"
      ∷ []

  -- From the method, as it was read, on.
  abbrev pub verb_read : Bytes × Bytes → HttpLine
  verb_read (word, rest) =
      if not (validate_method (spelt methods word))
      then bad_request
      else url_and_version (spelt methods word) (take_line rest)

  -- `handle_http_line` behind the test of its error.
  unfoldable pub handle_http_line : Bytes → HttpLine
  unfolding skip_space take_word take_line spelt url_and_version
  handle_http_line buf = verb_read (take_word (skip_space buf))

  -- `headers()[name]`, which is set or extended.
  unfoldable pub store : Bytes → Bytes → HeadersMap → HeadersMap
  unfolding get_or_insert put
  store name value m =
      let (current, m') = get_or_insert name m in
      if is_nil current || iequals name (codes "Content-Length")
      then put name value m'
      else put name (current ++ codes ", " ++ value) m'

  abbrev pub at_colon : Option ℕ → Bytes → HeadersMap → Option HeadersMap
  at_colon none line m = none
  at_colon (some zero) line m = none
  at_colon (some (suc i)) line m =
      some (store (trim_whitespace (take (suc i) line)) (trim_whitespace (drop (suc i + 1) line)) m)

  -- One header line; `none` where it is refused.
  unfoldable pub header_line : Bytes → HeadersMap → Option HeadersMap
  unfolding find_first_of trim_whitespace store
  header_line line m = at_colon (find_first_of 58 line) line m

  abbrev pub go_on : (HeadersMap → Parsed) → HeadersMap → Option HeadersMap → Parsed
  go_on loop m none = refused m
  go_on loop m (some m') = loop m'

  abbrev pub at_line : (Bytes → HeadersMap → Parsed) → HeadersMap → Bytes × Bytes → Parsed
  at_line loop m (line, rest) =
      if bytes_equal line (13 ∷ [])
      then complete m rest
      else go_on (loop rest) m (header_line line m)

  -- The loop of `handle_headers`, which ends at a line "\r" or where `getline` fails.
  unfoldable pub header_loop : ℕ → Bytes → HeadersMap → Parsed
  unfolding take_line header_line
  header_loop zero buf m = out_of_fuel
  header_loop (suc fuel) buf m =
      if is_nil buf then complete m [] else at_line (header_loop fuel) m (take_line buf)

  -- `handle_headers` on the request's empty map, behind `handle_http_line`.
  abbrev pub headers_behind : ℕ → HttpLine → Head
  headers_behind fuel (accepted method url old rest) =
      head method url old (header_loop fuel rest [])
  headers_behind fuel bad_request = bad_line

  abbrev pub read_head : ℕ → Bytes → Head
  read_head fuel buf = headers_behind fuel (handle_http_line buf)
