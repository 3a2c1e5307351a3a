-- ===== src/Prelude/Lists.antt =====
-- Lists measured and indexed by native numbers, under the library's names.
use Prim.Native.Nat.{ℕ, zero, suc, ◌+◌, ◌-◌, ◌≤◌, ◌<◌, min}
use mathlib.Core.Path.{◌≡◌, refl, ap, ◌∙◌, sym}
use mathlib.Core.List.{List, [], ◌∷◌, ◌++◌}
use mathlib.Core.Option.{Option, none, some}
use native.Mathlib.Omega.{arith}

module _ {ℓ} {A : Type ℓ} where
  abbrev pub length : List A → ℕ
  length [] = 0
  length (x ∷ xs) = suc (length xs)

  abbrev pub get_elem? : List A → ℕ → Option A
  get_elem? [] i = none
  get_elem? (x ∷ xs) zero = some x
  get_elem? (x ∷ xs) (suc i) = get_elem? xs i

  abbrev pub take : ℕ → List A → List A
  take zero xs = []
  take (suc n) [] = []
  take (suc n) (x ∷ xs) = x ∷ take n xs

  abbrev pub drop : ℕ → List A → List A
  drop zero xs = xs
  drop (suc n) [] = []
  drop (suc n) (x ∷ xs) = drop n xs

  abbrev pub All {κ} : (A → Type κ) → List A → Type κ
  All P [] = Unit {κ}
  All P (x ∷ xs) = P x × All P xs

  pub length-append : (xs ys : List A) → length (xs ++ ys) ≡ length xs + length ys
  length-append [] ys = omega arith
  length-append (x ∷ xs) ys = omega (arith, length-append xs ys)

module _ {ℓ} {A : Type ℓ} where
  pub length-take : (n : ℕ) (xs : List A) → length (take n xs) ≡ min n (length xs)
  length-take zero xs = omega arith
  length-take (suc n) [] = omega arith
  length-take (suc n) (x ∷ xs) = omega (arith, length-take n xs)

  pub take-append : (n : ℕ) (xs ys : List A) → n ≤ length xs → take n (xs ++ ys) ≡ take n xs
  take-append zero xs ys h = refl
  take-append (suc n) [] ys h = elim h [ ]
  take-append (suc n) (x ∷ xs) ys h = ap (◌∷◌ x) (take-append n xs ys (omega arith))

  pub take-take : (m n : ℕ) (xs : List A) → m ≤ n → take m (take n xs) ≡ take m xs
  take-take zero n xs h = refl
  take-take (suc m) zero xs h = elim h [ ]
  take-take (suc m) (suc n) [] h = refl
  take-take (suc m) (suc n) (x ∷ xs) h = ap (◌∷◌ x) (take-take m n xs (omega arith))

  pub All-append {κ} : (P : A → Type κ) (xs ys : List A) → All P xs → All P ys → All P (xs ++ ys)
  All-append P [] ys h k = k
  All-append P (x ∷ xs) ys h k = (h.0, All-append P xs ys h.1 k)

  -- What stands below the cut of a list whose tail is replaced.
  pub take-replace :
      (n k : ℕ) (xs ys : List A) → n ≤ k → n ≤ length xs → take n (take k xs ++ ys) ≡ take n xs
  take-replace n k xs ys h l =
      take-append n (take k xs) ys (omega (arith, length-take k xs)) ∙ take-take n k xs h

  pub take-suc :
      (n : ℕ) (xs : List A) {x : A}
      → get_elem? xs n ≡ some x
      → take (suc n) xs ≡ take n xs ++ x ∷ []
  take-suc n [] e = cc
  take-suc zero (y ∷ xs) e = cc
  take-suc (suc n) (y ∷ xs) e = ap (◌∷◌ y) (take-suc n xs e)

  pub get_elem?-lt : (n : ℕ) (xs : List A) {x : A} → get_elem? xs n ≡ some x → n < length xs
  get_elem?-lt n [] e = cc
  get_elem?-lt zero (y ∷ xs) e = omega arith
  get_elem?-lt (suc n) (y ∷ xs) e = omega (arith, get_elem?-lt n xs e)

  pub get_elem?-some : (n : ℕ) (xs : List A) → n < length xs → (x : A) × (get_elem? xs n ≡ some x)
  get_elem?-some n [] h = elim h [ ]
  get_elem?-some zero (x ∷ xs) h = (x, refl)
  get_elem?-some (suc n) (x ∷ xs) h = get_elem?-some n xs (omega arith)

  pub get_elem?-take : (n k : ℕ) (xs : List A) → n < k → get_elem? (take k xs) n ≡ get_elem? xs n
  get_elem?-take n zero xs h = elim h [ ]
  get_elem?-take n (suc k) [] h = refl
  get_elem?-take zero (suc k) (x ∷ xs) h = refl
  get_elem?-take (suc n) (suc k) (x ∷ xs) h = get_elem?-take n k xs (omega arith)

  -- The element right behind a prefix.
  pub get_elem?-behind : (xs ys : List A) (y : A) → get_elem? (xs ++ y ∷ ys) (length xs) ≡ some y
  get_elem?-behind [] ys y = refl
  get_elem?-behind (x ∷ xs) ys y = get_elem?-behind xs ys y

  pub take-all : (n : ℕ) (xs : List A) → length xs ≤ n → take n xs ≡ xs
  take-all zero [] h = refl
  take-all zero (x ∷ xs) h = elim h [ ]
  take-all (suc n) [] h = refl
  take-all (suc n) (x ∷ xs) h = ap (◌∷◌ x) (take-all n xs (omega arith))

  pub append_assoc : (xs ys zs : List A) → (xs ++ ys) ++ zs ≡ xs ++ (ys ++ zs)
  append_assoc [] ys zs = refl
  append_assoc (x ∷ xs) ys zs = ap (◌∷◌ x) (append_assoc xs ys zs)

  pub append_nil : (xs : List A) → xs ++ [] ≡ xs
  append_nil [] = refl
  append_nil (x ∷ xs) = ap (◌∷◌ x) (append_nil xs)

  pub take-front : (xs ys : List A) → take (length xs) (xs ++ ys) ≡ xs
  take-front [] ys = refl
  take-front (x ∷ xs) ys = ap (◌∷◌ x) (take-front xs ys)

  pub drop-front : (xs ys : List A) → drop (length xs) (xs ++ ys) ≡ ys
  drop-front [] ys = refl
  drop-front (x ∷ xs) ys = drop-front xs ys

  pub drop-get_elem? :
      (n : ℕ) (xs : List A) {x : A} → get_elem? xs n ≡ some x → drop n xs ≡ x ∷ drop (suc n) xs
  drop-get_elem? n [] e = cc
  drop-get_elem? zero (y ∷ xs) e = cc
  drop-get_elem? (suc n) (y ∷ xs) e = drop-get_elem? n xs e

module _ {ℓ} {A : Type ℓ} where
  take-nil : (n : ℕ) → ◌≡◌ {A = List A} (take n []) []
  take-nil zero = refl
  take-nil (suc n) = refl

  pub length-drop : (n : ℕ) (xs : List A) → length (drop n xs) ≡ length xs - n
  length-drop zero xs = omega arith
  length-drop (suc n) [] = omega arith
  length-drop (suc n) (x ∷ xs) = omega (arith, length-drop n xs)

  drop-nil : (n : ℕ) → ◌≡◌ {A = List A} (drop n []) []
  drop-nil zero = refl
  drop-nil (suc n) = refl

  pub drop-drop : (m n : ℕ) (xs : List A) → drop m (drop n xs) ≡ drop (n + m) xs
  drop-drop m zero xs = ap (λ k. drop k xs) (omega arith)
  drop-drop m (suc n) [] = drop-nil m ∙ sym (drop-nil (suc n + m))
  drop-drop m (suc n) (x ∷ xs) =
      let next : suc (n + m) ≡ suc n + m = omega arith in
      drop-drop m n xs ∙ ap (λ k. drop k (x ∷ xs)) next

  pub drop-all : (n : ℕ) (xs : List A) → length xs ≤ n → drop n xs ≡ []
  drop-all zero [] h = refl
  drop-all zero (x ∷ xs) h = elim h [ ]
  drop-all (suc n) [] h = refl
  drop-all (suc n) (x ∷ xs) h = drop-all n xs (omega arith)

  pub take-split :
      (k n : ℕ) (xs : List A) → k ≤ n → take k xs ++ take (n - k) (drop k xs) ≡ take n xs
  take-split zero n xs h = ap (λ m. take m xs) (omega arith)
  take-split (suc k) zero xs h = elim h [ ]
  take-split (suc k) (suc n) [] h = take-nil (suc n - suc k)
  take-split (suc k) (suc n) (x ∷ xs) h =
      ap (λ m. x ∷ (take k xs ++ take m (drop k xs))) (omega arith)
      ∙ ap (◌∷◌ x) (take-split k n xs (omega arith))

  pub All-map {κ μ} :
      (P : A → Type κ) (Q : A → Type μ) (xs : List A) → ((x : A) → P x → Q x) → All P xs → All Q xs
  All-map P Q [] f h = tt
  All-map P Q (x ∷ xs) f h = (f x h.0, All-map P Q xs f h.1)
