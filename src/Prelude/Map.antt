-- ===== src/Prelude/Map.antt =====
-- The JavaScript `Map`: entries in insertion order, where a write to a key that is present keeps
-- its place.
use mathlib.Core.Path.{◌≡◌, refl}
use mathlib.Core.Option.{Option, none, some}
use mathlib.Core.List.{List, [], ◌∷◌}
use native.Mathlib.Omega.{arith}
use lametrader.Prelude.Tests.{if◌then◌else◌}
use lametrader.Prelude.Keys.{Keyed, ◌==◌}

abbrev pub Map {ℓ κ} : Type ℓ → Type κ → Type (ℓ ⊔ κ)
Map K V = List (K × V)

module _ {ℓ κ} {K : Type ℓ} {V : Type κ} where
  abbrev pub values : Map K V → List V
  values [] = []
  values ((k, v) ∷ m) = v ∷ values m

module _ {ℓ κ} {K : Type ℓ} {V : Type κ} ⦃e : Keyed K⦄ where
  unfoldable pub get : K → Map K V → Option V
  get k [] = none
  get k ((j, v) ∷ m) = if j == k then some v else get k m

  unfoldable pub set : K → V → Map K V → Map K V
  set k v [] = (k, v) ∷ []
  set k v ((j, w) ∷ m) = if j == k then (j, v) ∷ m else (j, w) ∷ set k v m

  unfoldable pub delete : K → Map K V → Map K V
  delete k [] = []
  delete k ((j, w) ∷ m) = let rest = delete k m in if j == k then rest else (j, w) ∷ rest

  pub get-set :
      (k j : K) (v : V) (m : Map K V) → get j (set k v m) ≡ (if k == j then some v else get j m)
  unfolding get set
  get-set k j v [] = refl
  get-set k j v ((i, w) ∷ m) =
      ground (arith, e.is_same_iff k j, e.is_same_iff i k, e.is_same_iff i j, get-set k j v m)

  pub get-delete : (k j : K) (m : Map K V) → get j (delete k m) ≡ (if k == j then none else get j m)
  unfolding get delete
  get-delete k j [] = ground arith
  get-delete k j ((i, w) ∷ m) =
      ground (arith, e.is_same_iff k j, e.is_same_iff i k, e.is_same_iff i j, get-delete k j m)

  -- The last of two writes to a key stands.
  pub set_over : (k : K) (v w : V) (m : Map K V) → set k v (set k w m) ≡ set k v m
  unfolding set
  set_over k v w [] = ground (arith, e.is_same_iff k k)
  set_over k v w ((i, u) ∷ m) = ground (arith, e.is_same_iff i k, set_over k v w m)

  pub set-set : (k : K) (v : V) (m : Map K V) → set k v (set k v m) ≡ set k v m
  unfolding set
  set-set k v [] = ground (arith, e.is_same_iff k k)
  set-set k v ((i, w) ∷ m) = ground (arith, e.is_same_iff i k, set-set k v m)
