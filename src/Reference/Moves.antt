-- ===== src/Reference/Moves.antt =====
-- Clusters of src/reference_model.cpp: what an action does to every replica, and the two ways to build
-- an action's effect, a write and a composition.
pub mod Handlers
use det_log.Prelude.{
  ◌≡◌, refl, sym, ◌∙◌, ap, inl, inr, ℕ, Bool, true, false, Option, none, some, arith, Bool-cases,
  Option-cases, eqb, eqb_iff, if◌then◌else◌, subst,
}
use det_log.Prelude.Key.{nat_key}
use det_log.Prelude.Map
use det_log.Reference.Interpret.{ReplicaState}
use det_log.Reference.Actions.{Cluster, find, write}
use det_log.Reference.Sound.{Sound, Kept, Kept-refl, Kept-trans}

-- Every replica of the cluster is sound and stands under its own identifier.
pub record AllSound (m : Cluster) : Type 0 where
  pub sound : (node : ℕ) (r : ReplicaState) → find node m ≡ some r → Sound r
  pub named : (node : ℕ) (r : ReplicaState) → find node m ≡ some r → r.id ≡ node

-- What stands under one identifier before and after.
pub data Carried : Option ReplicaState → Option ReplicaState → Type 0 where
  absent : Carried none none
  kept : {r s : ReplicaState} → Kept r s → Carried (some r) (some s)

pub record Moves (m n : Cluster) : Type 0 where
  pub members : n.members ≡ m.members
  pub carried : (node : ℕ) → Carried (find node m) (find node n)

pub Moves-refl : (m : Cluster) → AllSound m → Moves m m
Moves-refl m h = record {
  members = refl;
  carried = λ node. elim (Option-cases (find node m)) [
    | inl e ↦ rw e absent
    | inr (r, e) ↦ rw e (kept (Kept-refl r (h.sound node r e)))
  ];
}

Carried-trans : {a b c : Option ReplicaState} → Carried a b → Carried b c → Carried a c
Carried-trans absent absent = absent
Carried-trans (kept {r} {s} h) (kept {s = t} k) = kept (Kept-trans r s t h k)

pub Moves-trans : (a b c : Cluster) → Moves a b → Moves b c → Moves a c
Moves-trans a b c h k = record {
  members = k.members ∙ h.members;
  carried = λ node. Carried-trans (h.carried node) (k.carried node);
}

-- What is found after a move was there before.
Carried-before :
    {a b : Option ReplicaState}
    → Carried a b
    → (s : ReplicaState) → b ≡ some s
    → (r : ReplicaState) × (a ≡ some r) × Kept r s
Carried-before absent s e = absurd (cc)
Carried-before (kept {r} {s = t} k) s e = let same : t ≡ s = cc in (r, refl, subst (Kept r) same k)

pub Moves-before :
    (m n : Cluster) (node : ℕ) (s : ReplicaState)
    → Moves m n
    → find node n ≡ some s
    → (r : ReplicaState) × (find node m ≡ some r) × Kept r s
Moves-before m n node s h e = Carried-before (h.carried node) s e

Carried-after :
    {a b : Option ReplicaState}
    → Carried a b
    → (r : ReplicaState) → a ≡ some r
    → (s : ReplicaState) × (b ≡ some s) × Kept r s
Carried-after absent r e = absurd (cc)
Carried-after (kept {r = t} {s} k) r e =
    let same : t ≡ r = cc in (s, refl, subst (λ x. Kept x s) same k)

pub Moves-after :
    (m n : Cluster) (node : ℕ) (r : ReplicaState)
    → Moves m n
    → find node m ≡ some r
    → (s : ReplicaState) × (find node n ≡ some s) × Kept r s
Moves-after m n node r h e = Carried-after (h.carried node) r e

pub Moves-AllSound : (m n : Cluster) → Moves m n → AllSound m → AllSound n
Moves-AllSound m n h a = record {
  sound = λ node s e. let (r, at, k) = Moves-before m n node s h e in k.sound;
  named = λ node s e. let (r, at, k) = Moves-before m n node s h e in k.id ∙ a.named node r at;
}

pub find-write :
    (node : ℕ) (r : ReplicaState) (m : Cluster) (other : ℕ)
    → find other (write node r m) ≡ (if eqb node other then some r else find other m)
unfolding find write
find-write node r m other = Map.find-put node other r m.replicas

pub write-members :
    (node : ℕ) (r : ReplicaState) (m : Cluster) → (write node r m).members ≡ m.members
unfolding write
write-members node r m = refl

pub write-leaders :
    (node : ℕ) (r : ReplicaState) (m : Cluster) → (write node r m).leaders ≡ m.leaders
unfolding write
write-leaders node r m = refl

pub write-Moves :
    (node : ℕ) (r s : ReplicaState) (m : Cluster)
    → AllSound m
    → find node m ≡ some r
    → Kept r s
    → Moves m (write node s m)
write-Moves node r s m h at k = record {
  members = write-members node s m;
  carried = λ other. rw (find-write node s m other) (elim (Bool-cases (eqb node other)) [
    | inl e ↦
        let same : node ≡ other = (eqb_iff node other).0 e in
        let at' : find other m ≡ some r = subst (λ n. find n m ≡ some r) same at in
        rw (e, at') (kept k)
    | inr e ↦ rw e ((Moves-refl m h).carried other)
  ]);
}

-- The table of leaders is no part of a move.
pub set_leaders-Moves :
    (m n : Cluster) (leaders : Map.Map ℕ ℕ) → Moves m n → Moves m (record n { leaders = leaders })
unfolding find
set_leaders-Moves m n leaders h = record { members = h.members; carried = h.carried }
