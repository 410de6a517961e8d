-- ===== src/Http/Handlers.antt =====
-- `http_service` and `http_listener` of src/http_service.cpp: which object handles the requests for a
-- path on each thread, and the connections of a listener. An object is the name of its class and the
-- number of its creation; the paths of a class are a parameter, as its `url_path` gives them.
pub mod First
pub mod Paths
mod Tests
use snode.Prelude.{
  ℕ, ◌+◌, Bool, true, false, List, [], ◌∷◌, ◌++◌, Option, none, some, Bytes, ◌==◌, if◌then◌else◌,
}
use snode.Prelude.Maps.{lookup, assign, insert_new, text_eq, nat_eq}

abbrev pub Handler : Type 0
Handler = Bytes × ℕ

-- Path to handler, for one thread.
abbrev pub HandlersMap : Type 0
HandlersMap = List (Bytes × Handler)

-- The loop over the paths of a handler: those that are there keep their handler.
unfoldable pub add_paths : Handler → List Bytes → HandlersMap → HandlersMap
unfolding insert_new
add_paths handler [] m = m
add_paths handler (url_path ∷ paths) m = add_paths handler paths (insert_new url_path handler m)

-- The same for a thread that has no map yet.
unfoldable pub new_paths : Handler → List Bytes → HandlersMap → HandlersMap
unfolding assign
new_paths handler [] m = m
new_paths handler (url_path ∷ paths) m = new_paths handler paths (assign url_path handler m)

abbrev pub with_paths : Handler → List Bytes → Option HandlersMap → HandlersMap
with_paths handler paths none = new_paths handler paths []
with_paths handler paths (some m) = add_paths handler paths m

-- `handlers_` by thread, and how many objects were created.
pub record Service : Type 0 where
  pub handlers_ : List (ℕ × HandlersMap)
  pub created : ℕ

-- The loop over the threads, with an object for each, the first of which is there already.
unfoldable pub over_threads : Bytes → List Bytes → List ℕ → Option Handler → Service → Service
unfolding add_paths new_paths
over_threads name paths [] req_handler s = s
over_threads name paths (thread ∷ threads) (some h) s =
    over_threads name paths threads none (record s {
      handlers_ = assign thread (with_paths h paths (lookup thread s.handlers_)) s.handlers_;
    })
over_threads name paths (thread ∷ threads) none s = over_threads name paths threads none (record {
  handlers_ =
      assign thread (with_paths (name, s.created) paths (lookup thread s.handlers_)) s.handlers_;
  created = s.created + 1;
})

module _ (url_path : Bytes → List Bytes) where
  abbrev pub with_class : Bytes → List Bytes → List ℕ → Service → Service
  with_class name [] threads s = s
  with_class name (p ∷ paths) threads s =
      over_threads name (p ∷ paths) threads (some (name, s.created))
        (record s { created = s.created + 1 })

  -- The loop over the names of the registered classes. A class without paths is left out.
  unfoldable pub over_classes : List Bytes → List ℕ → Service → Service
  unfolding over_threads
  over_classes [] threads s = s
  over_classes (name ∷ handlers_list) threads s =
      over_classes handlers_list threads (with_class name (url_path name) threads s)

  -- `http_service::http_service`
  abbrev pub new_service : List Bytes → List ℕ → Service
  new_service handlers_list threads =
      over_classes handlers_list threads (record { handlers_ = []; created = 0 })

-- The set of connections of an `http_listener`.
unfoldable pub do_accept : ℕ → List ℕ → List ℕ
do_accept conn connections = conn ∷ connections

unfoldable pub drop_connection : ℕ → List ℕ → List ℕ
drop_connection conn [] = []
drop_connection conn (c ∷ cs) =
    let rest = drop_connection conn cs in if c == conn then rest else c ∷ rest
