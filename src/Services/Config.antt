-- ===== src/Services/Config.antt =====
-- `snode_config` of src/config_reader.cpp: what the program reads from its XML file. The property tree
-- of boost is a parameter; an exception is a text. The maps of options compare keys for equality.
pub mod Prefix
mod Tests
use snode.Prelude.{
  ℕ, ◌+◌, ◌-◌, ◌%◌, ◌≡◌, Bool, true, false, not, List, [], ◌∷◌, ◌++◌, Option, none, some, Bytes,
  codes, same, take, drop, length, ◌==◌, if◌then◌else◌,
}
use snode.Prelude.Int.{ℤ, pos, negsuc}
use snode.Prelude.Maps.{assign, insert_new, text_eq}
use snode.Http.Helpers.{find_first_of, is_nil}

pub data Result (A : Type 0) : Type 0 where
  ok : A → Result A
  threw : Bytes → Result A

infixl 5 ◌>>=◌
abbrev pub ◌>>=◌ : {A B : Type 0} → Result A → (A → Result B) → Result B
ok a >>= f = f a
threw what >>= f = threw what

-- `get` with a default value.
abbrev pub value_or : {A : Type 0} → Result A → A → A
value_or (ok a) d = a
value_or (threw what) d = d

-- `boost::property_tree::ptree`, `read_xml` and `lexical_cast`.
pub record PropertyTree : Type 1 where
  pub Tree : Type 0
  pub children : Tree → List (Bytes × Tree)
  pub text : Tree → Bytes
  pub get_child : Bytes → Tree → Result Tree
  pub get_text : Bytes → Tree → Result Bytes
  pub get_int : Bytes → Tree → Result ℤ
  pub get_unsigned : Bytes → Tree → Result ℕ
  pub to_unsigned : Bytes → Result ℕ
  pub empty : Tree
  pub read_xml : Bytes → Result Tree

abbrev pub Options : Type 0
Options = List (Bytes × Bytes)

pub record NetServiceConfig : Type 0 where
  pub name : Bytes
  pub host : Bytes
  pub listen_port : ℕ
  pub options : Options

pub record MediaConfig : Type 0 where
  pub name : Bytes
  pub location : Bytes
  pub options : Options

-- An `int` that an `unsigned` is made of.
abbrev pub unsigned_of : ℤ → ℕ
unsigned_of (pos n) = n % 4294967296
unsigned_of (negsuc n) = 4294967295 - n % 4294967296

abbrev pub when_set : Bool → Bytes → Bytes → Options → Options
when_set b key value options = if b then assign key value options else options

-- What a loop with `push_back` reads up to an element that throws, and what that throws.
unfoldable pub read_each : {A B : Type 0} → (A → Result B) → List A → List B × Option Bytes
read_each f [] = ([], none)
read_each f (x ∷ xs) =
    let rest = read_each f xs in
    elim (f x) [ ok b ↦ (b ∷ rest.0, rest.1) | threw what ↦ ([], some what) ]

module _ (pt : PropertyTree) where
  open pt use {
    Tree, children, text, get_child, get_text, get_int, get_unsigned, to_unsigned, empty, read_xml,
  }

  pub record Config : Type 0 where
    pub err_ : Option Bytes
    pub ptree_ : Tree
    pub streams_ : List MediaConfig
    pub services_ : List NetServiceConfig

  abbrev pub new_config : Config
  new_config = record { err_ = none; ptree_ = empty; streams_ = []; services_ = [] }

  -- `err_.set`, where something was thrown.
  abbrev pub set_error : Option Bytes → Config → Config
  set_error none c = c
  set_error (some what) c = record c { err_ = some what }

  unfoldable pub threads : Config → ℕ
  threads c = unsigned_of (value_or (get_int (codes "threads") c.ptree_) (pos 1))

  unfoldable pub daemonize : Config → Bool
  daemonize c = not (unsigned_of (value_or (get_int (codes "daemon") c.ptree_) (pos 0)) == 0)

  abbrev pub logfile : Config → Bytes
  logfile c = value_or (get_text (codes "logfile") c.ptree_) []

  abbrev pub username : Config → Bytes
  username c = value_or (get_text (codes "admin.username") c.ptree_) []

  abbrev pub password : Config → Bytes
  password c = value_or (get_text (codes "admin.password") c.ptree_) []

  -- `find` and `get_child` of the section, and the loop over what is in it.
  unfoldable pub section : Bytes → List (Bytes × Tree) → List (Bytes × Tree)
  section key [] = []
  section key ((k, t) ∷ ts) = if same k key then children t else section key ts

  unfoldable pub insert_all : List (Bytes × Tree) → Options → Options
  unfolding insert_new
  insert_all [] options = options
  insert_all ((k, t) ∷ ts) options = insert_all ts (insert_new k (text t) options)

  unfoldable pub get_options : Tree → Options → Options
  unfolding section insert_all
  get_options t out_options = insert_all (section (codes "options") (children t)) out_options

  -- One round of the loop of `read_streams`, from the location on.
  unfoldable pub stream_of : Tree → Bool → Bytes → Bytes → Bytes → Result MediaConfig
  unfolding get_options assign
  stream_of t live location source_class filter_class =
      if is_nil source_class
      then threw (codes "missing source")
      else ok (record {
        name = [];
        location = location;
        options = get_options t (
            when_set (not (is_nil filter_class)) (codes "filter") filter_class
              (assign (codes "source") source_class (when_set live (codes "live") (codes "1") [])));
      })

  unfoldable pub read_stream : Bytes × Tree → Result MediaConfig
  unfolding stream_of
  read_stream (k, t) = get_text (codes "location") t >>= λ location.
      stream_of t (not (unsigned_of (value_or (get_int (codes "live") t) (pos 0)) == 0)) location
        (value_or (get_text (codes "source") t) []) (value_or (get_text (codes "filter") t) [])

  -- `try` and `catch` around the first call that may throw.
  abbrev pub or_error : Result Tree → (Tree → Config) → Config → Config
  or_error (ok t) go_on c = go_on t
  or_error (threw what) go_on c = set_error (some what) c

  -- Behind the loop of `read_streams`.
  abbrev pub streams_read : Config → List MediaConfig × Option Bytes → Config
  streams_read c (streams, some what) =
      set_error (some what) (record c { streams_ = c.streams_ ++ streams })
  streams_read c (streams, none) =
      set_error
        (if length (c.streams_ ++ streams) == 0 then some (codes "No streams defined") else none)
        (record c { streams_ = c.streams_ ++ streams })

  unfoldable pub read_streams : Config → Config
  unfolding read_each read_stream
  read_streams c =
      or_error (get_child (codes "streams") c.ptree_)
        (λ section. streams_read c (read_each read_stream (children section))) c

  -- The host and the port.
  unfoldable pub host_and_port : Bytes → Tree → Result (Bytes × ℕ)
  unfolding find_first_of
  host_and_port service_hostport t = elim (find_first_of 58 service_hostport) [
    | some i ↦ do
      port ← to_unsigned (drop (i + 1) service_hostport)
      ok (take i service_hostport, port)
    | none ↦ do port ← get_unsigned (codes "listen") t; ok ([], port)
  ]

  -- One round of the loop of `read_services`.
  unfoldable pub read_service : Bytes × Tree → Result NetServiceConfig
  unfolding host_and_port get_options
  read_service (k, t) = do
    name ← get_text (codes "name") t
    service_hostport ← get_text (codes "listen") t
    address ← host_and_port service_hostport t
    ok (record {
      name = name;
      host = address.0;
      listen_port = address.1;
      options = get_options t [];
    })

  abbrev pub services_read : Config → List NetServiceConfig × Option Bytes → Config
  services_read c (services, what) =
      set_error what (record c { services_ = c.services_ ++ services })

  unfoldable pub read_services : Config → Config
  unfolding read_each read_service
  read_services c =
      or_error (get_child (codes "services") c.ptree_)
        (λ section. services_read c (read_each read_service (children section))) c

  unfoldable pub init : Bytes → Config → Config
  unfolding read_streams read_services
  init filepath c =
      or_error (read_xml filepath) (λ t. read_services (read_streams (record c { ptree_ = t }))) c
