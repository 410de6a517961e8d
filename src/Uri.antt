-- ===== src/Uri.antt =====
-- `uri::split_path` of src/uri_utils.cpp: the segments of the path of a URI with a scheme. Behind the
-- end of a text, `operator[]` is the character 0.
pub mod Segments
mod Tests
use snode.Prelude.{
  ℕ, ◌+◌, Bool, true, false, ◌&&◌, List, [], ◌∷◌, Option, none, some, Bytes, get_elem?, drop, ◌==◌,
  if◌then◌else◌,
}
use snode.Http.Helpers.{find_first_of, is_nil}

abbrev pub is_at : Bytes → ℕ → ℕ → Bool
is_at s i c = elim (get_elem? s i) [ none ↦ false | some d ↦ d == c ]

-- What `std::getline` with '/' reads, one after the other. An empty last one is left out by it, and
-- here by `keep`.
abbrev pub onto : ℕ → List Bytes → List Bytes
onto c [] = (c ∷ []) ∷ []
onto c (p ∷ ps) = (c ∷ p) ∷ ps

abbrev pub pieces : Bytes → List Bytes
pieces [] = [] ∷ []
pieces (c ∷ s) = let rest = pieces s in if c == 47 then [] ∷ rest else onto c rest

-- `if (!str.empty()) results.push_back(str)`
abbrev pub keep : List Bytes → List Bytes
keep [] = []
keep (p ∷ ps) = let rest = keep ps in if is_nil p then rest else p ∷ rest

-- What follows the first slash behind the end of the scheme.
unfoldable pub after_host : Bytes → Bytes
unfolding find_first_of
after_host rest = elim (find_first_of 47 rest) [ none ↦ [] | some i ↦ drop (i + 1) rest ]

-- The path, without the slash before it, or the empty text.
unfoldable pub path_of : Bytes → Bytes
unfolding after_host
path_of uri = elim (find_first_of 58 uri) [
  | none ↦ []
  | some colon_found ↦
      if is_at uri (colon_found + 1) 47 && is_at uri (colon_found + 2) 47
      then after_host (drop (colon_found + 3) uri)
      else []
]

unfoldable pub split_path : Bytes → List Bytes
unfolding path_of
split_path uri = keep (pieces (path_of uri))
