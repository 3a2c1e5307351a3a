-- ===== src/Reference/Counting.antt =====
-- How many members a test holds for, and the sets that the loops of src/reference_model.cpp collect.
use det_log.Prelude.{
  ◌≡◌, ◌⊎◌, inl, inr, ℕ, suc, ◌+◌, ◌≤◌, ◌<◌, Bool, true, false, List, [], ◌∷◌, arith, Bool-cases,
  eqb, if◌then◌else◌, length, is_some, subst,
}
use det_log.Prelude.Key.{nat_key}
use det_log.Prelude.Map
use det_log.Prelude.Map.{Map}

pub count_if : (ℕ → Bool) → List ℕ → ℕ
count_if test [] = 0
count_if test (x ∷ xs) = let rest = count_if test xs in if test x then suc rest else rest

abbrev pub Among : ℕ → List ℕ → Type 0
Among x [] = ⊥
Among x (y ∷ ys) = (x ≡ y) ⊎ Among x ys

pub count_if-le :
    (p q : ℕ → Bool) (xs : List ℕ)
    → ((x : ℕ) → p x ≡ true → q x ≡ true)
    → count_if p xs ≤ count_if q xs
unfolding count_if
count_if-le p q [] h = omega arith
count_if-le p q (x ∷ xs) h = ground (arith, h x, count_if-le p q xs h)

-- A test that also holds for one more member counts more.
pub count_if-lt :
    (p q : ℕ → Bool) (x : ℕ) (xs : List ℕ)
    → ((y : ℕ) → p y ≡ true → q y ≡ true)
    → p x ≡ false
    → q x ≡ true
    → Among x xs
    → suc (count_if p xs) ≤ count_if q xs
unfolding count_if
count_if-lt p q x [] h a b m = elim m [ ]
count_if-lt p q x (y ∷ ys) h a b (inl e) =
    let a' : p y ≡ false = subst (λ z. p z ≡ false) e a in
    let b' : q y ≡ true = subst (λ z. q z ≡ true) e b in
    ground (arith, count_if-le p q ys h, a', b')
count_if-lt p q x (y ∷ ys) h a b (inr m) = ground (arith, h y, count_if-lt p q x ys h a b m)

-- Two tests that together hold more often than there are members hold for one member both.
pub quorums_meet :
    (p q : ℕ → Bool) (xs : List ℕ)
    → length xs < count_if p xs + count_if q xs
    → (x : ℕ) × (p x ≡ true) × (q x ≡ true)
unfolding count_if
quorums_meet p q [] h = absurd (omega arith)
quorums_meet p q (x ∷ xs) h = elim (Bool-cases (p x)) [
  | inl a ↦ elim (Bool-cases (q x)) [
    | inl b ↦ (x, a, b)
    | inr b ↦ quorums_meet p q xs (ground (arith, a, b, h))
  ]
  | inr a ↦ quorums_meet p q xs (ground (arith, a, h))
]

abbrev pub has : Map ℕ (Unit {0}) → ℕ → Bool
has set x = is_some (Map.find x set)

pub has-put :
    (k x : ℕ) (set : Map ℕ (Unit {0}))
    → has (Map.put k tt set) x ≡ (if eqb k x then true else has set x)
has-put k x set = ground (arith, Map.find-put k x tt set)

length-put : (k : ℕ) (set : Map ℕ (Unit {0})) → length (Map.put k tt set) ≤ suc (length set)
unfolding Map.put
length-put k [] = omega arith
length-put k ((j, u) ∷ set) = ground (arith, length-put k set)

-- Each element of the set is a member, so the set is no larger than what it counts.
pub size-put :
    (k : ℕ) (set : Map ℕ (Unit {0})) (members : List ℕ)
    → has set k ≡ false
    → Among k members
    → length set ≤ count_if (has set) members
    → length (Map.put k tt set) ≤ count_if (has (Map.put k tt set)) members
size-put k set members fresh m h =
    let more =
      count_if-lt (has set) (has (Map.put k tt set)) k members
        (λ y e. ground (arith, has-put k y set, e)) fresh (ground (arith, has-put k k set)) m in
    omega (arith, length-put k set, more)
