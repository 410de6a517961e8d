-- ===== src/Services/Core/Dispatch.antt =====
-- Which service gets the sockets that are accepted on a port.
use mathlib.Core.Path.{subst}
use snode.Prelude.{
  ℕ, ◌≡◌, refl, sym, ap, ◌∙◌, Bool, true, false, ◌&&◌, ◌||◌, List, [], ◌∷◌, ◌++◌, Option, none,
  some, Bytes, ◌==◌, if◌then◌else◌, arith, append_assoc, append-nil,
}
use snode.Prelude.Maps.{lookup, assign, lookup-assign, nat_eq}
use snode.Http.Helpers.{is_nil}
use snode.Services.Registry.{Registry, create_instance}
use snode.Services.Config.{PropertyTree, Config, NetServiceConfig}
use snode.Services.Config
use snode.Services.Core.{
  Core, new_core, port_of, Outcome, listen, start_service, go_on, start_all, start, init, accepted,
  handle_accept,
}

module _ (make : ℕ → Option ℕ) (registry : Registry) where
  -- The service that the configuration has last for a port, or `o`.
  abbrev onto : ℕ → ℕ → Option ℕ → Option (Option ℕ) → Option (Option ℕ)
  onto p port none o = o
  onto p port (some service) o = if port == p then some (some service) else o

  unfoldable pub last_service : ℕ → List NetServiceConfig → Option (Option ℕ) → Option (Option ℕ)
  last_service p [] o = o
  last_service p (cfg ∷ cfgs) o =
      last_service p cfgs
        (onto p (port_of cfg.listen_port) (create_instance make cfg.name registry) o)

  abbrev pub port_for : Option ℕ → ℕ → List ℕ
  port_for none port = []
  port_for (some service) port = port ∷ []

  -- The ports of the services whose class is registered.
  unfoldable pub ports : List NetServiceConfig → List ℕ
  ports [] = []
  ports (cfg ∷ cfgs) =
      port_for (create_instance make cfg.name registry) (port_of cfg.listen_port) ++ ports cfgs

  module _ (is_address : Bytes → Bool) (can_bind : List ℕ → ℕ → Bool) where
    abbrev started : Option ℕ → NetServiceConfig → Core → Outcome
    started = start_service make registry is_address can_bind

    -- What one start adds.
    abbrev Adds : Option ℕ → ℕ → Core → Core → Type 0
    Adds o port core core' =
        (core'.acceptors_ ≡ core.acceptors_ ++ port_for o port)
        × ((p : ℕ) → lookup p core'.services_ ≡ onto p port o (lookup p core.services_))

    listen-Adds :
        (service : ℕ) (cfg : NetServiceConfig) (core core' : Core)
        → listen make registry is_address can_bind service cfg core ≡ (core', false)
        → Adds (some service) (port_of cfg.listen_port) core core'
    unfolding listen
    listen-Adds service cfg core core' h =
        by_test ((is_nil cfg.host || is_address cfg.host) && can_bind core.acceptors_ port) h
      where
        port : ℕ
        port = port_of cfg.listen_port

        with_service : Core
        with_service = record core {
          acceptors_ = core.acceptors_ ++ port ∷ [];
          services_ = assign port (some service) core.services_;
        }

        by_test :
            (b : Bool)
            → (let o : Outcome = if b then (with_service, false) else (core, true) in o)
              ≡ (core', false)
            → Adds (some service) port core core'
        by_test true e =
            subst (Adds (some service) port core) (ap (λ (o : Outcome). o.0) e)
              (refl, λ p. lookup-assign p port (some service) core.services_)
        by_test false e = absurd (ground (arith, e))

    start_service-Adds :
        (o : Option ℕ) (cfg : NetServiceConfig) (core core' : Core)
        → started o cfg core ≡ (core', false)
        → Adds o (port_of cfg.listen_port) core core'
    start_service-Adds none cfg core core' h =
        subst (Adds none (port_of cfg.listen_port) core) (ap (λ (o : Outcome). o.0) h)
          (sym (append-nil core.acceptors_), λ p. refl)
    start_service-Adds (some service) cfg core core' h = listen-Adds service cfg core core' h

    go_on_lem :
        (o : Outcome) (rest : Core → Outcome) (core' : Core)
        → go_on make registry is_address can_bind o rest ≡ (core', false)
        → (mid : Core) × (o ≡ (mid, false)) × (rest mid ≡ (core', false))
    go_on_lem (mid, false) rest core' h = (mid, refl, h)
    go_on_lem (mid, true) rest core' h = absurd (ground (arith, h))

    start_all_lem :
        (cfgs : List NetServiceConfig) (core core' : Core)
        → start_all make registry is_address can_bind cfgs core ≡ (core', false)
        → (core'.acceptors_ ≡ core.acceptors_ ++ ports cfgs)
          × ((p : ℕ) → lookup p core'.services_ ≡ last_service p cfgs (lookup p core.services_))
    unfolding start_all last_service ports
    start_all_lem [] core core' h =
        subst
          (λ (c : Core).
            (c.acceptors_ ≡ core.acceptors_ ++ [])
            × ((p : ℕ) → lookup p c.services_ ≡ lookup p core.services_))
          (ap (λ (o : Outcome). o.0) h) (sym (append-nil core.acceptors_), λ p. refl)
    start_all_lem (cfg ∷ cfgs) core core' h =
        let o = create_instance make cfg.name registry in
        let port = port_of cfg.listen_port in
        let (mid, first, rest) =
          go_on_lem (started o cfg core) (start_all make registry is_address can_bind cfgs) core'
            h in
        let (bound, found) = start_service-Adds o cfg core mid first in
        let (bound', found') = start_all_lem cfgs mid core' rest in
        (
          bound'
              ∙ ap (λ ps. ps ++ ports cfgs) bound
              ∙ append_assoc core.acceptors_ (port_for o port) (ports cfgs),
          λ p. found' p ∙ ap (last_service p cfgs) (found p),
        )

    -- Boost takes the address and the port.
    abbrev pub CanListen : List ℕ → NetServiceConfig → Type 0
    CanListen bound cfg =
        ((is_nil cfg.host || is_address cfg.host) && can_bind bound (port_of cfg.listen_port))
        ≡ true

    abbrev pub ListenFor : Option ℕ → List ℕ → NetServiceConfig → Type 0
    ListenFor none bound cfg = Unit
    ListenFor (some service) bound cfg = CanListen bound cfg

    -- It takes those of each service whose class is registered, behind the ports bound before.
    unfoldable pub AllListen : List ℕ → List NetServiceConfig → Type 0
    AllListen bound [] = Unit
    AllListen bound (cfg ∷ cfgs) =
        let o = create_instance make cfg.name registry in
        ListenFor o bound cfg × AllListen (bound ++ port_for o (port_of cfg.listen_port)) cfgs

    start_service-returns :
        (o : Option ℕ) (cfg : NetServiceConfig) (core : Core)
        → ListenFor o core.acceptors_ cfg
        → (mid : Core) × (started o cfg core ≡ (mid, false))
    unfolding listen
    start_service-returns none cfg core a = (core, refl)
    start_service-returns (some service) cfg core a = (
      record core {
        acceptors_ = core.acceptors_ ++ port_of cfg.listen_port ∷ [];
        services_ = assign (port_of cfg.listen_port) (some service) core.services_;
      },
      ground (arith, a),
    )

    start_all-returns :
        (cfgs : List NetServiceConfig) (core : Core)
        → AllListen core.acceptors_ cfgs
        → (core' : Core) × (start_all make registry is_address can_bind cfgs core ≡ (core', false))
    unfolding start_all AllListen
    start_all-returns [] core a = (core, refl)
    start_all-returns (cfg ∷ cfgs) core a =
        let o = create_instance make cfg.name registry in
        let (mid, first) = start_service-returns o cfg core a.0 in
        let bound = (start_service-Adds o cfg core mid first).0 in
        let (core', rest) =
          start_all-returns cfgs mid (subst (λ ps. AllListen ps cfgs) (sym bound) a.1) in
        (
          core',
          ap
                (λ r.
                  go_on make registry is_address can_bind r
                    (start_all make registry is_address can_bind cfgs))
                first
              ∙ rest,
        )

    -- With the name of a file whose configuration has no error, and where boost takes the address
    -- and the port of each service whose class is registered, given the ports that were bound
    -- before it, init returns; there is an acceptor for each of these services, in order, and a
    -- socket accepted on a port goes to the object of the last of them with that port modulo 2^16.
    pub init-served :
        (pt : PropertyTree) (filepath : Bytes) (p : ℕ)
        → is_nil filepath ≡ false
        → (Config.init pt filepath (Config.new_config pt)).err_ ≡ none
        → AllListen [] (Config.init pt filepath (Config.new_config pt)).services_
        → (let c = Config.init pt filepath (Config.new_config pt) in
            (core : Core) × (init make registry is_address can_bind pt filepath new_core
                (Config.new_config pt)
              ≡ ((core, false), c))
            × (core.acceptors_ ≡ ports c.services_)
            × (handle_accept false p core ≡ accepted (last_service p c.services_ none)))
    unfolding init handle_accept start
    init-served pt filepath p n e a =
        let c = Config.init pt filepath (Config.new_config pt) in
        let opened = record new_core { threadpool_ = some (Config.threads pt c) } in
        let (core, done) = start_all-returns c.services_ opened a in
        let (bound, found) = start_all_lem c.services_ opened core done in
        (
          core,
          rw n (
              ap (λ o. (start make registry is_address can_bind pt o c new_core, c)) e
              ∙ ap (λ (o : Outcome). (o, c)) done),
          bound,
          ap accepted (found p),
        )
