-- ===== src/Services/Registry.antt =====
-- `reg_factory` of src/reg_factory.h: the classes that are registered by name at run time. A
-- `create_func` is a number, and an object is what it makes. `sequence_id_generator` of
-- src/seq_generator.h numbers the timers.
mod Tests
pub mod First
use snode.Prelude.{ℕ, ◌+◌, ◌%◌, List, Option, none, some, Bytes, map}
use snode.Prelude.Maps.{lookup, insert_new, text_eq}

abbrev pub Registry : Type 0
Registry = List (Bytes × ℕ)

-- The first function for a name stays.
unfoldable pub registrate : Bytes → ℕ → Registry → Registry
unfolding insert_new
registrate name func registry = insert_new name func registry

-- The object that a function makes, which may be a null pointer.
abbrev pub call : (ℕ → Option ℕ) → Option ℕ → Option ℕ
call make none = none
call make (some func) = make func

unfoldable pub create_instance : (ℕ → Option ℕ) → Bytes → Registry → Option ℕ
unfolding lookup
create_instance make name registry = call make (lookup name registry)

-- The names, as a set: their order is that of the map.
unfoldable pub get_reg_list : Registry → List Bytes
get_reg_list registry = map (λ e. e.0) registry

-- `next` of the generator: the result is an `unsigned`, of 32 bits, the counter has 64.
unfoldable pub next : ℕ → ℕ × ℕ
next sequence_id = let id = (sequence_id + 1) % 18446744073709551616 in (id % 4294967296, id)
