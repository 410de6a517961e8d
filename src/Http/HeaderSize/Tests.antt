-- ===== src/Http/HeaderSize/Tests.antt =====
-- Sizes read from header values.
use snode.Prelude.{◌≡◌, refl, true, false, [], ◌∷◌, codes}
use snode.Http.HeaderSize.{match_size}
use snode.Http.Compare.{icmp}
use snode.Http.Headers.{HeadersMap}

abbrev of_length : HeadersMap
of_length = (codes "Content-Length", codes " 120") ∷ []

length_120 : match_size (codes "content-length") 7 of_length ≡ (120, true)
unfolding match_size icmp
length_120 = refl

-- A number with other text behind it is stored although it does not match.
length_12 :
    match_size (codes "Content-Length") 7 ((codes "Content-Length", codes "12, 0") ∷ [])
    ≡ (12, false)
unfolding match_size icmp
length_12 = refl

length_negative :
    match_size (codes "Content-Length") 7 ((codes "Content-Length", codes "-1") ∷ [])
    ≡ (18446744073709551615, true)
unfolding match_size icmp
length_negative = refl
