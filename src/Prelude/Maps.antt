-- ===== src/Prelude/Maps.antt =====
-- `std::map` with keys that are only compared for equality, as an association list.
use Prim.Native.Nat.{ℕ}
use mathlib.Core.Path.{◌≡◌, refl}
use mathlib.Core.Logic.{◌↔◌}
use mathlib.Core.Bool.{Bool, true}
use mathlib.Core.Option.{Option, none, some}
use mathlib.Core.List.{List, [], ◌∷◌}
use native.Mathlib.Omega.{arith}
use snode.Prelude.Tests.{◌==◌, ==_iff, if◌then◌else◌}
use snode.Prelude.Text.{Bytes, same, same_iff}

-- A test of equality.
pub record Eq {ℓ} (K : Type ℓ) : Type ℓ where
  pub beq : K → K → Bool
  pub beq_iff : (a b : K) → (beq a b ≡ true) ↔ (a ≡ b)

instance abbrev pub nat_eq : Eq ℕ
nat_eq = record { beq = ◌==◌; beq_iff = ==_iff }

instance abbrev pub text_eq : Eq Bytes
text_eq = record { beq = same; beq_iff = same_iff }

abbrev pub or_else {κ} : {V : Type κ} → Option V → V → V
or_else none v = v
or_else (some w) v = w

module _ {ℓ κ} {K : Type ℓ} ⦃e : Eq K⦄ {V : Type κ} where
  -- `find`, and the value of the entry found.
  unfoldable pub lookup : K → List (K × V) → Option V
  lookup k [] = none
  lookup k ((j, v) ∷ m) = if e.beq j k then some v else lookup k m

  -- `operator[]` with an assignment.
  unfoldable pub assign : K → V → List (K × V) → List (K × V)
  assign k v [] = (k, v) ∷ []
  assign k v ((j, w) ∷ m) = if e.beq j k then (j, v) ∷ m else (j, w) ∷ assign k v m

  -- `insert`: an entry that is there is kept.
  unfoldable pub insert_new : K → V → List (K × V) → List (K × V)
  insert_new k v [] = (k, v) ∷ []
  insert_new k v ((j, w) ∷ m) = if e.beq j k then (j, w) ∷ m else (j, w) ∷ insert_new k v m

  pub lookup-assign :
      (q k : K) (v : V) (m : List (K × V))
      → lookup q (assign k v m) ≡ (if e.beq k q then some v else lookup q m)
  unfolding lookup assign
  lookup-assign q k v [] = refl
  lookup-assign q k v ((j, w) ∷ m) =
      ground (arith, lookup-assign q k v m, e.beq_iff j k, e.beq_iff j q, e.beq_iff k q)

  pub lookup-insert_new :
      (q k : K) (v : V) (m : List (K × V))
      → lookup q (insert_new k v m)
        ≡ (if e.beq k q then some (or_else (lookup q m) v) else lookup q m)
  unfolding lookup insert_new
  lookup-insert_new q k v [] = refl
  lookup-insert_new q k v ((j, w) ∷ m) =
      ground (arith, lookup-insert_new q k v m, e.beq_iff j k, e.beq_iff j q, e.beq_iff k q)
