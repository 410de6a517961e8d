-- ===== src/Services/Core/Tests.antt =====
-- A start with one stream and one service, over a tree whose nodes are numbers.
use snode.Prelude.{
  ℕ, ◌≡◌, refl, Bool, true, false, List, [], ◌∷◌, none, some, Bytes, codes, same, ◌==◌,
  if◌then◌else◌,
}
use snode.Prelude.Int.{pos}
use snode.Services.Registry.{Registry, create_instance}
use snode.Services.Config.{Result, ok, threw, PropertyTree, Config, new_config}
use snode.Services.Config
use snode.Services.Core.{Core, new_core, init, by_service, accepted, handle_accept}
use snode.Services.Core.Dispatch.{last_service, ports, init-served, AllListen}

-- Node 1 holds the streams, 2 the services, 3 is a stream and 4 a service.
abbrev below : ℕ → List (Bytes × ℕ)
below t =
    if t == 1 then (codes "stream", 3) ∷ [] else if t == 2 then (codes "service", 4) ∷ [] else []

abbrev said : Bytes → Bytes
said key =
    if same key (codes "name")
    then codes "http"
    else if same key (codes "listen")
    then codes "8080"
    else codes "file"

abbrev tree : PropertyTree
tree = record {
  Tree = ℕ;
  children = below;
  text = λ t. [];
  get_child = λ key t. if same key (codes "streams") then ok 1 else ok 2;
  get_text = λ key t. ok (said key);
  get_int = λ key t. ok (pos 2);
  get_unsigned = λ key t. ok 8080;
  to_unsigned = λ s. threw [];
  empty = 0;
  read_xml = λ filepath. ok 0;
}

abbrev registry : Registry
registry = (codes "http", 6) ∷ []

-- A port that is bound is refused.
abbrev free_ports : List ℕ → ℕ → Bool
free_ports [] port = true
free_ports (p ∷ ps) port = let rest = free_ports ps port in if p == port then false else rest

init-served_example :
    let c = Config.init tree (codes "snode.xml") (new_config tree) in
    (core : Core) × (init some registry
        (λ host. false)
        free_ports
        tree
        (codes "snode.xml")
        new_core
        (new_config tree)
      ≡ ((core, false), c))
    × (core.acceptors_ ≡ ports some registry c.services_)
    × (handle_accept false 8080 core ≡ accepted (last_service some registry 8080 c.services_ none))
unfolding Config.init AllListen create_instance
init-served_example =
    init-served some registry (λ host. false) free_ports tree (codes "snode.xml") 8080 refl refl
      (refl, tt)

by_http :
    accepted (
      last_service some registry 8080
        (Config.init tree (codes "snode.xml") (new_config tree)).services_
        none)
    ≡ by_service 6
unfolding Config.init last_service create_instance
by_http = refl
