-- ===== src/Prelude/Key.antt =====
-- Keys of an ordered map: equality, with its law, and the order that `std::map` iterates in.
use det_log.Prelude.Tests.{ltb, eqb, eqb_iff, if◌then◌else◌}
use Prim.Native.Nat.{ℕ}
use mathlib.Core.Path.{◌≡◌, refl}
use mathlib.Core.Logic.{◌↔◌}
use mathlib.Core.Bool.{Bool, true, false, ◌&&◌}
use mathlib.Core.List.{List, [], ◌∷◌}
use mathlib.Core.Option.{Option, none, some}
use native.Mathlib.Omega.{arith}

pub record Equality {ℓ} (A : Type ℓ) : Type ℓ where
  pub equal : A → A → Bool
  pub equal_iff : (a b : A) → (equal a b ≡ true) ↔ (a ≡ b)

infix 50 ◌==◌
abbrev pub ◌==◌ {ℓ} : {A : Type ℓ} ⦃e : Equality A⦄ → A → A → Bool
◌==◌ ⦃e⦄ = e.equal

instance abbrev pub nat_equality : Equality ℕ
nat_equality = record { equal = eqb; equal_iff = eqb_iff }

module _ {ℓ} {A : Type ℓ} ⦃e : Equality A⦄ where
  unfoldable pub list_beq : List A → List A → Bool
  list_beq [] [] = true
  list_beq [] (y ∷ ys) = false
  list_beq (x ∷ xs) [] = false
  list_beq (x ∷ xs) (y ∷ ys) = x == y && list_beq xs ys

  pub list_beq_iff : (xs ys : List A) → (list_beq xs ys ≡ true) ↔ (xs ≡ ys)
  unfolding list_beq
  list_beq_iff [] [] = ((λ h. refl), (λ h. refl))
  list_beq_iff [] (y ∷ ys) = ((λ h. cc), (λ h. cc))
  list_beq_iff (x ∷ xs) [] = ((λ h. cc), (λ h. cc))
  list_beq_iff (x ∷ xs) (y ∷ ys) = ground (arith, e.equal_iff x y, list_beq_iff xs ys)

  unfoldable pub option_beq : Option A → Option A → Bool
  option_beq none none = true
  option_beq none (some y) = false
  option_beq (some x) none = false
  option_beq (some x) (some y) = x == y

  pub option_beq_iff : (x y : Option A) → (option_beq x y ≡ true) ↔ (x ≡ y)
  unfolding option_beq
  option_beq_iff none none = ((λ h. refl), (λ h. refl))
  option_beq_iff none (some y) = ((λ h. cc), (λ h. cc))
  option_beq_iff (some x) none = ((λ h. cc), (λ h. cc))
  option_beq_iff (some x) (some y) = ground (arith, e.equal_iff x y)

instance abbrev pub list_eq {ℓ} : {A : Type ℓ} ⦃e : Equality A⦄ → Equality (List A)
list_eq = record { equal = list_beq; equal_iff = list_beq_iff }

instance abbrev pub option_eq {ℓ} : {A : Type ℓ} ⦃e : Equality A⦄ → Equality (Option A)
option_eq = record { equal = option_beq; equal_iff = option_beq_iff }

pub record Key {ℓ} (K : Type ℓ) : Type ℓ where
  pub eq : Equality K
  pub blt : K → K → Bool

instance abbrev pub nat_key : Key ℕ
nat_key = record { eq = nat_equality; blt = ltb }

-- std::string compares as its bytes do, lexicographically.
unfoldable pub bytes_blt : List ℕ → List ℕ → Bool
bytes_blt [] [] = false
bytes_blt [] (y ∷ ys) = true
bytes_blt (x ∷ xs) [] = false
bytes_blt (x ∷ xs) (y ∷ ys) =
    let rest = bytes_blt xs ys in if ltb x y then true else if eqb x y then rest else false

instance abbrev pub bytes_key : Key (List ℕ)
bytes_key = record { eq = list_eq; blt = bytes_blt }
