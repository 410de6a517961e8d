-- ===== src/Services/Config/Tests.antt =====
-- A configuration with two services, the second without a name.
use snode.Prelude.{◌≡◌, refl, List, [], ◌∷◌, Option, Bytes, codes, same, if◌then◌else◌}
use snode.Prelude.Int.{pos, negsuc}
use snode.Http.HeaderSize.{value}
use snode.Services.Config.{
  Result, ok, threw, ◌>>=◌, PropertyTree, new_config, init, read_stream, read_service, threads,
}
use snode.Services.Config.Prefix.{Reads, error_of, init-Reads}

mutual
  data Node : Type 0 where
    node : Bytes → Nodes → Node

  data Nodes : Type 0 where
    nil : Nodes
    child : Bytes → Node → Nodes → Nodes

abbrev listed : Nodes → List (Bytes × Node)
listed nil = []
listed (child k t ts) = (k, t) ∷ listed ts

abbrev kids : Node → List (Bytes × Node)
kids (node s ts) = listed ts

abbrev said : Node → Bytes
said (node s ts) = s

abbrev first : Bytes → List (Bytes × Node) → Result Node
first key [] = threw (codes "No such node")
first key ((k, t) ∷ ts) = if same k key then ok t else first key ts

abbrev leaf : Bytes → Node
leaf s = node s nil

abbrev served : Node
served = node [] (
    child (codes "name") (leaf (codes "http")) (child (codes "listen") (leaf (codes "a:8080")) nil))

abbrev unnamed : Node
unnamed = node [] (child (codes "listen") (leaf (codes "8081")) nil)

abbrev live : Node
live = node [] (
    child (codes "location") (leaf (codes "/a")) (child (codes "source") (leaf (codes "file")) nil))

abbrev streams : Node
streams = node [] (child (codes "stream") live nil)

abbrev services : Node
services = node [] (child (codes "service") served (child (codes "service") unnamed nil))

abbrev root : Node
root = node [] (child (codes "streams") streams (child (codes "services") services nil))

abbrev tree : PropertyTree
tree = record {
  Tree = Node;
  children = kids;
  text = said;
  get_child = λ key t. first key (kids t);
  get_text = λ key t. first key (kids t) >>= λ u. ok (said u);
  get_int = λ key t. first key (kids t) >>= λ u. ok (pos (value 0 (said u)));
  get_unsigned = λ key t. first key (kids t) >>= λ u. ok (value 0 (said u));
  to_unsigned = λ s. ok (value 0 s);
  empty = leaf [];
  read_xml = λ filepath. ok root;
}

init-Reads_example :
    let c = init tree (codes "snode.xml") (new_config tree) in
    (what what' : Option Bytes) × Reads (read_stream tree) (kids streams) c.streams_ what
    × Reads (read_service tree) (kids services) c.services_ what'
    × (c.err_ ≡ error_of what' what c.streams_)
init-Reads_example = init-Reads tree (codes "snode.xml") root streams services refl refl refl

first_service :
    (init tree (codes "snode.xml") (new_config tree)).services_
    ≡ (record { name = codes "http"; host = codes "a"; listen_port = 8080; options = [] }) ∷ []
unfolding init
first_service = refl

defaults : threads tree (new_config tree) ≡ 1
unfolding threads
defaults = refl

-- A negative number of threads is a large one.
abbrev negative : PropertyTree
negative = record tree { get_int = λ key t. ok (negsuc 0) }

many : threads negative (new_config negative) ≡ 4294967295
unfolding threads
many = refl
