-- ===== src/Services/Registry/Tests.antt =====
-- Two classes of one name.
use snode.Prelude.{ℕ, ◌≡◌, refl, List, [], ◌∷◌, some, Bytes, codes}
use snode.Services.Registry.{call, create_instance, get_reg_list, next}
use snode.Services.Registry.First.{registrate_all, first_of, create_instance-first}

abbrev made : List (Bytes × ℕ)
made = (codes "http", 1) ∷ (codes "rtmp", 2) ∷ (codes "http", 3) ∷ []

first_http :
    create_instance some (codes "http") (registrate_all made [])
    ≡ call some (first_of (codes "http") made)
first_http = create_instance-first some (codes "http") made

names : get_reg_list made ≡ codes "http" ∷ codes "rtmp" ∷ codes "http" ∷ []
unfolding get_reg_list
names = refl

second : next 1 ≡ (2, 2)
unfolding next
second = refl
