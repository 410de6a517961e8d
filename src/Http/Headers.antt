-- ===== src/Http/Headers.antt =====
-- `http_headers` of src/http_headers.h and src/http_msg.cpp: a `std::map` under the case-insensitive
-- order, as the list of its entries in that order. Values are strings; a value that is written with
-- `operator<<` is given as its text.
pub mod Laws
mod Tests
use snode.Prelude.{ℕ, Bool, true, false, List, [], ◌∷◌, ◌++◌, Option, none, some, Bytes, codes}
use Prim.Native.Nat.{Ordering}
use snode.Http.Compare.{icmp}

abbrev pub HeadersMap : Type 0
HeadersMap = List (Bytes × Bytes)

-- `find`, and the value of the entry found.
unfoldable pub find : Bytes → HeadersMap → Option Bytes
find name [] = none
find name ((k, v) ∷ m) = elim (icmp name k) [
  | Ordering.lt ↦ none
  | Ordering.eq ↦ some v
  | Ordering.gt ↦ find name m
]

-- `headers_[name] = value`; an entry that is there keeps its name as it was spelt.
unfoldable pub put : Bytes → Bytes → HeadersMap → HeadersMap
put name value [] = (name, value) ∷ []
put name value ((k, v) ∷ m) = elim (icmp name k) [
  | Ordering.lt ↦ (name, value) ∷ (k, v) ∷ m
  | Ordering.eq ↦ (k, value) ∷ m
  | Ordering.gt ↦ (k, v) ∷ put name value m
]

unfoldable pub remove : Bytes → HeadersMap → HeadersMap
remove name [] = []
remove name ((k, v) ∷ m) = elim (icmp name k) [
  | Ordering.lt ↦ (k, v) ∷ m
  | Ordering.eq ↦ m
  | Ordering.gt ↦ (k, v) ∷ remove name m
]

unfoldable pub has : Bytes → HeadersMap → Bool
unfolding find
has name m = elim (find name m) [ none ↦ false | some v ↦ true ]

-- A value that is there is combined with the new one, with a comma between them.
unfoldable pub add : Bytes → Bytes → HeadersMap → HeadersMap
unfolding find put
add name value m = elim (find name m) [
  | none ↦ put name value m
  | some v ↦ put name (v ++ codes ", " ++ value) m
]

-- `operator[]`: the value, and the map with an empty one inserted if there was none.
unfoldable pub get_or_insert : Bytes → HeadersMap → Bytes × HeadersMap
unfolding find put
get_or_insert name m = elim (find name m) [ none ↦ ([], put name [] m) | some v ↦ (v, m) ]

-- `match` for a string: the value found, or that which the target had, and the result.
unfoldable pub match_text : Bytes → Bytes → HeadersMap → Bytes × Bool
unfolding find
match_text name target m = elim (find name m) [ none ↦ (target, false) | some v ↦ (v, true) ]

unfoldable pub content_type : HeadersMap → Bytes
unfolding match_text
content_type m = (match_text (codes "Content-Type") [] m).0

unfoldable pub set_content_type : Bytes → HeadersMap → HeadersMap
unfolding put
set_content_type type m = put (codes "Content-Type") type m

unfoldable pub cache_control : HeadersMap → Bytes
unfolding match_text
cache_control m = (match_text (codes "Cache-Control") [] m).0

unfoldable pub set_cache_control : Bytes → HeadersMap → HeadersMap
unfolding add
set_cache_control control m = add (codes "Cache-Control") control m

unfoldable pub set_content_type_if_not_present : Bytes → HeadersMap → HeadersMap
unfolding match_text add
set_content_type_if_not_present type m = elim (match_text (codes "Content-Type") [] m).1 [
  | false ↦ add (codes "Content-Type") type m
  | true ↦ m
]
