-- ===== src/Services/Core.antt =====
-- `snode_core` of src/snode_core.cpp: the start of the services and the dispatch of what they accept.
-- An object of a service is a number; sockets belong to boost, which may refuse a port, for the
-- ports that are bound already (`can_bind`), or the text of an address (`is_address`).
pub mod Dispatch
mod Tests
use snode.Prelude.{
  ℕ, ◌%◌, Bool, true, false, not, ◌&&◌, ◌||◌, List, [], ◌∷◌, ◌++◌, Option, none, some, Bytes,
  if◌then◌else◌,
}
use snode.Prelude.Maps.{lookup, assign, nat_eq}
use snode.Http.Helpers.{is_nil}
use snode.Services.Registry.{Registry, create_instance}
use snode.Services.Config.{PropertyTree, Config, NetServiceConfig, threads}
use snode.Services.Config

-- `threadpool_` is the number of its threads; an acceptor is the port that it listens on, on all
-- addresses; `services_` has a null pointer where a port was only looked up.
pub record Core : Type 0 where
  pub threadpool_ : Option ℕ
  pub acceptors_ : List ℕ
  pub services_ : List (ℕ × Option ℕ)

abbrev pub new_core : Core
new_core = record { threadpool_ = none; acceptors_ = []; services_ = [] }

-- `unsigned short`
abbrev pub port_of : ℕ → ℕ
port_of n = n % 65536

-- The state, and whether a call threw.
abbrev pub Outcome : Type 0
Outcome = Core × Bool

module _ (make : ℕ → Option ℕ) (registry : Registry) (is_address : Bytes → Bool)
    (can_bind : List ℕ → ℕ → Bool) where
  -- An acceptor for a service.
  unfoldable pub listen : ℕ → NetServiceConfig → Core → Outcome
  unfolding assign
  listen service cfg core =
      if (is_nil cfg.host || is_address cfg.host)
        && can_bind core.acceptors_ (port_of cfg.listen_port)
      then (
        record core {
          acceptors_ = core.acceptors_ ++ port_of cfg.listen_port ∷ [];
          services_ = assign (port_of cfg.listen_port) (some service) core.services_;
        },
        false,
      )
      else (core, true)

  -- One round of the loop of `init`.
  abbrev pub start_service : Option ℕ → NetServiceConfig → Core → Outcome
  start_service none cfg core = (core, false)
  start_service (some service) cfg core = listen service cfg core

  -- An exception ends the loop.
  abbrev pub go_on : Outcome → (Core → Outcome) → Outcome
  go_on (core, false) rest = rest core
  go_on (core, true) rest = (core, true)

  unfoldable pub start_all : List NetServiceConfig → Core → Outcome
  unfolding create_instance listen
  start_all [] core = (core, false)
  start_all (cfg ∷ cfgs) core =
      go_on (start_service (create_instance make cfg.name registry) cfg core) (start_all cfgs)

  -- Behind the configuration, for its error.
  unfoldable pub start : (pt : PropertyTree) → Option Bytes → Config pt → Core → Outcome
  unfolding start_all threads
  start pt (some what) c core = (core, false)
  start pt none c core = start_all c.services_ (record core { threadpool_ = some (threads pt c) })

  -- Without a file name it throws; an error of the configuration ends it with nothing started.
  unfoldable pub init : (pt : PropertyTree) → Bytes → Core → Config pt → Outcome × Config pt
  unfolding start Config.init
  init pt filepath core config =
      if is_nil filepath
      then ((core, true), config)
      else (let c = Config.init pt filepath config in (start pt c.err_ c core, c))

-- What `handle_accept` does: it hands the socket to a service and accepts the next, it dereferences
-- a null pointer, or it does nothing after an error. The entry that `operator[]` makes is left out of
-- the result.
pub data Accepted : Type 0 where
  by_service : ℕ → Accepted
  null_pointer nothing : Accepted

abbrev pub accepted : Option (Option ℕ) → Accepted
accepted (some (some service)) = by_service service
accepted (some none) = null_pointer
accepted none = null_pointer

unfoldable pub handle_accept : Bool → ℕ → Core → Accepted
unfolding lookup
handle_accept err port core = if err then nothing else accepted (lookup port core.services_)

-- `run`, which throws before `init`; the result is whether the event loop runs.
unfoldable pub run : Bool → Core → Option Bool
run on_main_thread core = elim core.threadpool_ [ none ↦ none | some n ↦ some on_main_thread ]

-- `stop` on the main thread, where the thread pool must be there; elsewhere it is posted to that.
unfoldable pub stop : Bool → Core → Option Core
stop on_main_thread core =
    if on_main_thread
    then elim core.threadpool_ [ none ↦ none | some n ↦ some (record core { acceptors_ = [] }) ]
    else some core
