-- ===== src/Uri/Tests.antt =====
-- Paths taken apart.
use snode.Prelude.{◌≡◌, refl, [], ◌∷◌, Bytes, codes}
use snode.Uri.{split_path}
use snode.Uri.Segments.{address_of, joined, split_path-joined}

abbrev address : Bytes
address = codes "http://h:80/ab//c/"

split_address : split_path address ≡ codes "ab" ∷ codes "c" ∷ []
unfolding split_path
split_address = refl

-- A request line has only the path, which has no scheme, and no segment is found.
split_bare : split_path (codes "/ab/c") ≡ []
unfolding split_path
split_bare = refl

split_path-joined_example :
    split_path (address_of (codes "a") (codes "h") (joined (codes "b" ∷ codes "c" ∷ [])))
    ≡ codes "b" ∷ codes "c" ∷ []
split_path-joined_example =
    split_path-joined (codes "a") (codes "h") (codes "b" ∷ codes "c" ∷ []) (refl, tt) (refl, tt)
      ((refl, (refl, tt)), ((refl, (refl, tt)), tt))
