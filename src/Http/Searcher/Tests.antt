-- ===== src/Http/Searcher/Tests.antt =====
-- Runs of the searcher, and its resumption at one.
use snode.Prelude.{◌≡◌, refl, true, false, [], ◌∷◌, ◌++◌, Bytes, drop}
use snode.Http.Searcher.{search}
use snode.Http.Searcher.Spec.{found, first_end, search-first_end}
use snode.Http.Searcher.Laws.{shift, search-resume}

-- The text `ab\r\n` and what follows it.
abbrev start : Bytes
start = 97 ∷ 98 ∷ 13 ∷ 10 ∷ []

abbrev follow : Bytes
follow = 13 ∷ 10 ∷ 99 ∷ []

search-start : search start ≡ (2, false)
unfolding search
search-start = refl

search-whole : search (start ++ follow) ≡ (6, true)
unfolding search
search-whole = refl

search_tls : search (22 ∷ 3 ∷ []) ≡ (1, true)
unfolding search
search_tls = refl

search-resume_example : search (start ++ follow) ≡ shift 2 (search (drop 2 start ++ follow))
search-resume_example = search-resume start follow 2 search-start

search-first_end_example : found (search start) ≡ first_end [] start 0
search-first_end_example = search-first_end start
