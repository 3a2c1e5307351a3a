-- ===== src/Reference/Sound/Divergence.antt =====
-- Where the logs of a leader and a follower diverge in `replicate` of src/reference_model.cpp.
use det_log.Prelude.{
  ap₂, subst, ◌≡◌, ◌≢◌, refl, ap, inl, inr, ℕ, zero, suc, ◌+◌, ◌-◌, ◌≤◌, ◌<◌, min, false, List, [],
  ◌∷◌, arith, Bool-cases, ltb, eqb, length, take, length-take, take-split,
}
use det_log.Model.{LogEntry, entry_beq, entry_beq_iff}
use det_log.Reference.Logs.{divergence_from, divergence, splice}

-- Either the first `n` entries agree, or the first `k` of them do and the next does not.
pub data Diverges (n i d : ℕ) (xs ys : List LogEntry) : Type 0 where
  agree : d ≡ 0 → take n xs ≡ take n ys → Diverges n i d xs ys
  differ :
      (k : ℕ)
      → d ≡ i + k
      → k < n
      → take k xs ≡ take k ys
      → take (suc k) xs ≢ take (suc k) ys
      → Diverges n i d xs ys

pub first_differs :
    (x y : LogEntry) (xs ys : List LogEntry)
    → entry_beq x y ≡ false
    → take 1 (x ∷ xs) ≢ take 1 (y ∷ ys)
first_differs x y xs ys other e =
    let same : x ≡ y = cc in let equal = (entry_beq_iff x y).1 same in cc

pub divergence_from-Diverges :
    (n i : ℕ) (xs ys : List LogEntry)
    → n ≤ length xs
    → n ≤ length ys
    → Diverges n i (divergence_from n i xs ys) xs ys
unfolding divergence_from
divergence_from-Diverges zero i xs ys h k = agree refl refl
divergence_from-Diverges (suc n) i [] ys h k = elim h [ ]
divergence_from-Diverges (suc n) i (x ∷ xs) [] h k = elim k [ ]
divergence_from-Diverges (suc n) i (x ∷ xs) (y ∷ ys) h k = elim (Bool-cases (entry_beq x y)) [
  | inr other ↦
      rw other (differ zero (omega arith) (omega arith) refl (first_differs x y xs ys other))
  | inl same ↦
      rw same (elim (divergence_from-Diverges n (suc i) xs ys (omega arith) (omega arith)) [
        | agree none_found rest ↦ agree none_found (ap₂ ◌∷◌ ((entry_beq_iff x y).0 same) rest)
        | differ j at below rest next ↦
            differ (suc j) (omega (arith, at)) (omega arith)
              (ap₂ ◌∷◌ ((entry_beq_iff x y).0 same) rest) (λ e. next (cc))
      ])
]

-- The follower holds the leader's prefix, or its log is replaced behind `k` entries that agree.
pub data Copies (through : ℕ) (follower source : List LogEntry) (d : ℕ) : Type 0 where
  held : d ≡ 0 → take through follower ≡ take through source → Copies through follower source d
  replaced :
      (k : ℕ)
      → d ≡ suc k
      → k ≤ through
      → take k follower ≡ take k source
      → take (suc k) follower ≢ take (suc k) source
      → Copies through follower source d

pub shorter_differs :
    (xs ys : List LogEntry)
    → length xs < length ys
    → take (suc (length xs)) xs ≢ take (suc (length xs)) ys
shorter_differs xs ys h e = absurd (
    omega (
      arith,
      ap length e,
      length-take {0} (suc (length xs)) xs,
      length-take {0} (suc (length xs)) ys,
    ))

pub divergence-Copies :
    (through : ℕ) (follower source : List LogEntry)
    → through ≤ length source
    → Copies through follower source (divergence through follower source)
unfolding divergence
divergence-Copies through follower source h =
    let n = min through (length follower) in
    elim (divergence_from-Diverges n 1 follower source (omega arith) (omega arith)) [
      | differ k at below same next ↦
          let found : eqb (divergence_from n 1 follower source) 0 ≡ false = ground (arith, at) in
          rw found (replaced k (omega (arith, at)) (omega (arith, below)) same next)
      | agree at same ↦ elim (Bool-cases (ltb (length follower) through)) [
        | inl short ↦
            let count : n ≡ length follower = ground (arith, short) in
            rw (at, short)
              (replaced (length follower) (omega arith) (ground (arith, short))
                (subst (λ m. take m follower ≡ take m source) count same)
                (shorter_differs follower source (ground (arith, short, h))))
        | inr long ↦
            let count : n ≡ through = ground (arith, long) in
            rw (at, long) (held refl (subst (λ m. take m follower ≡ take m source) count same))
      ]
    ]

pub splice-eq :
    (k through : ℕ) (follower source : List LogEntry)
    → k ≤ through
    → take k follower ≡ take k source
    → splice (suc k) through follower source ≡ take through source
unfolding splice
splice-eq k through follower source h same =
    let back : suc k - 1 ≡ k = omega arith in rw (back, same) (take-split k through source h)
