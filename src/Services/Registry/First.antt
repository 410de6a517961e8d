-- ===== src/Services/Registry/First.antt =====
-- Which class a name stands for.
use snode.Prelude.{
  ℕ, ◌≡◌, refl, ap, ◌∙◌, Bool, true, false, List, [], ◌∷◌, Option, none, some, Bytes, same,
  if◌then◌else◌,
}
use snode.Prelude.Maps.{lookup, insert_new, lookup-insert_new, text_eq, or_else}
use snode.Services.Registry.{Registry, registrate, call, create_instance}

-- The registrations that the program's static objects make, one after the other.
abbrev pub registrate_all : List (Bytes × ℕ) → Registry → Registry
registrate_all [] registry = registry
registrate_all ((name, func) ∷ rest) registry = registrate_all rest (registrate name func registry)

-- The first function in a list for a name.
abbrev pub first_of : Bytes → List (Bytes × ℕ) → Option ℕ
first_of name [] = none
first_of name ((n, func) ∷ rest) = if same n name then some func else first_of name rest

abbrev pub first_some : Option ℕ → Option ℕ → Option ℕ
first_some none o = o
first_some (some f) o = some f

lookup-registrate_all :
    (name : Bytes) (es : List (Bytes × ℕ)) (registry : Registry)
    → lookup name (registrate_all es registry)
      ≡ first_some (lookup name registry) (first_of name es)
unfolding registrate
lookup-registrate_all name [] registry = by_case (lookup name registry)
  where
    by_case : (o : Option ℕ) → o ≡ first_some o none
    by_case none = refl
    by_case (some f) = refl
lookup-registrate_all name ((n, func) ∷ es) registry =
    lookup-registrate_all name es (insert_new n func registry)
    ∙ ap (λ o. first_some o (first_of name es)) (lookup-insert_new name n func registry)
    ∙ by_case (same n name) (lookup name registry)
  where
    by_case :
        (b : Bool) (o : Option ℕ)
        → first_some (if b then some (or_else o func) else o) (first_of name es)
          ≡ first_some o (if b then some func else first_of name es)
    by_case true none = refl
    by_case true (some f) = refl
    by_case false o = refl

-- Over
pub create_instance-first :
    (make : ℕ → Option ℕ) (name : Bytes) (es : List (Bytes × ℕ))
    → create_instance make name (registrate_all es []) ≡ call make (first_of name es)
unfolding create_instance lookup
create_instance-first make name es = ap (call make) (lookup-registrate_all name es [])
