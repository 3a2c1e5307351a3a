-- ===== src/Prelude/Map.antt =====
-- std::map as an association list in the order of its keys. Lookup goes by equality alone, so the
-- laws need no invariant; the order is what the program's loops over a map see.
use det_log.Prelude.Tests.{if◌then◌else◌}
use det_log.Prelude.Key.{Key}
use mathlib.Core.Path.{◌≡◌, refl}
use mathlib.Core.List.{List, [], ◌∷◌}
use mathlib.Core.Option.{Option, none, some}
use native.Mathlib.Omega.{arith}

abbrev pub Map {ℓ κ} : Type ℓ → Type κ → Type (ℓ ⊔ κ)
Map K V = List (K × V)

module _ {ℓ κ} {K : Type ℓ} {V : Type κ} ⦃key : Key K⦄ where
  unfoldable pub find : K → Map K V → Option V
  find k [] = none
  find k ((j, v) ∷ m) = if key.eq.equal j k then some v else find k m

  -- m[k] = v
  unfoldable pub put : K → V → Map K V → Map K V
  put k v [] = (k, v) ∷ []
  put k v ((j, w) ∷ m) =
      let rest = put k v m in
      if key.eq.equal j k
      then (k, v) ∷ m
      else if key.blt k j
      then (k, v) ∷ (j, w) ∷ m
      else (j, w) ∷ rest

  unfoldable pub erase : K → Map K V → Map K V
  erase k [] = []
  erase k ((j, v) ∷ m) = if key.eq.equal j k then erase k m else (j, v) ∷ erase k m

  pub find-put :
      (k j : K) (v : V) (m : Map K V)
      → find j (put k v m) ≡ (if key.eq.equal k j then some v else find j m)
  unfolding find put
  find-put k j v [] = refl
  find-put k j v ((i, w) ∷ m) =
      ground
        (arith, key.eq.equal_iff i k, key.eq.equal_iff i j, key.eq.equal_iff k j, find-put k j v m)

  pub find-erase :
      (k j : K) (m : Map K V) → find j (erase k m) ≡ (if key.eq.equal k j then none else find j m)
  unfolding find erase
  find-erase k j [] = ground arith
  find-erase k j ((i, w) ∷ m) =
      ground
        (arith, key.eq.equal_iff i k, key.eq.equal_iff i j, key.eq.equal_iff k j, find-erase k j m)

pub ruleset map_laws = (find-put, find-erase)
