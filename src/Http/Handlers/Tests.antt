-- ===== src/Http/Handlers/Tests.antt =====
-- Two classes of handlers, on two threads.
use snode.Prelude.{◌≡◌, refl, List, [], ◌∷◌, some, Bytes, codes, same, if◌then◌else◌}
use snode.Http.Handlers.{new_service, do_accept, drop_connection}
use snode.Http.Handlers.Paths.{class_at}
use snode.Http.Handlers.First.{first_class, has, new_service-first}

abbrev url_path : Bytes → List Bytes
url_path name =
    if same name (codes "files") then codes "/" ∷ codes "/files/" ∷ [] else codes "/" ∷ []

abbrev names : List Bytes
names = codes "files" ∷ codes "home" ∷ []

new_service-first_example :
    class_at 4 (codes "/") (new_service url_path names (3 ∷ 4 ∷ [])).handlers_
    ≡ first_class url_path (has 4 (3 ∷ 4 ∷ [])) (codes "/") names
new_service-first_example = new_service-first url_path 4 (codes "/") names (3 ∷ 4 ∷ [])

by_files : first_class url_path (has 4 (3 ∷ 4 ∷ [])) (codes "/") names ≡ some (codes "files")
unfolding first_class
by_files = refl

dropped : drop_connection 5 (do_accept 5 (6 ∷ [])) ≡ 6 ∷ []
unfolding drop_connection do_accept
dropped = refl
