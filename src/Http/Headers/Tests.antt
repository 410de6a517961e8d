-- ===== src/Http/Headers/Tests.antt =====
-- Runs of the header map, and its law at one.
use snode.Prelude.{◌≡◌, refl, [], ◌∷◌, none, some, codes}
use snode.Http.Headers.{HeadersMap, find, put, remove, add, content_type, set_content_type}
use snode.Http.Headers.Laws.{IsSorted, find-add, chosen, combined}
use snode.Http.Compare.{icmp}

abbrev two_headers : HeadersMap
two_headers = (codes "Accept", codes "a") ∷ (codes "Host", codes "b") ∷ []

two_headers-IsSorted : IsSorted two_headers
unfolding icmp
two_headers-IsSorted = ((refl, tt), (tt, tt))

-- A name is found in any case, and keeps its first spelling.
put_spelling :
    put (codes "HOST") (codes "c") two_headers
    ≡ (codes "Accept", codes "a") ∷ (codes "Host", codes "c") ∷ []
unfolding put icmp
put_spelling = refl

content_type-set_content_type : content_type (set_content_type (codes "x") two_headers) ≡ codes "x"
unfolding content_type set_content_type icmp
content_type-set_content_type = refl

find-add_example :
    IsSorted (add (codes "host") (codes "c") two_headers)
    × (find (codes "HOST") (add (codes "host") (codes "c") two_headers)
        ≡ chosen
            (icmp (codes "HOST") (codes "host"))
            (some (combined (find (codes "host") two_headers) (codes "c")))
            (find (codes "HOST") two_headers))
    × (find (codes "HOST") (remove (codes "host") (add (codes "host") (codes "c") two_headers))
        ≡ chosen (icmp (codes "HOST") (codes "host")) none (find (codes "HOST") two_headers))
find-add_example =
    find-add (codes "HOST") (codes "host") (codes "c") two_headers two_headers-IsSorted
