-- ===== src/Reference/Observed.antt =====
-- `replicas` of src/reference_model.cpp dereferences what `replica` returns for each member.
use det_log.Prelude.{
  ◌≡◌, refl, sym, ◌∙◌, ap, subst, inl, inr, ℕ, true, ◌||◌, some, List, [], ◌∷◌, All, All-map, arith,
  Bool-cases, eqb, is_some, map,
}
use det_log.Prelude.Key.{nat_key}
use det_log.Prelude.Map
use det_log.Prelude.Map.{Map}
use det_log.Reference.Interpret.{ReplicaState}
use det_log.Reference.Actions.{ReplicaView, Cluster, find, write}
use det_log.Reference.Run.{
  new_replica, built, invalid_argument, add_members, build, view, replica, members, views, replicas,
}
use det_log.Reference.Moves.{Moves, Moves-after, find-write}
use det_log.Reference.History.{
  Reachable, constructed, acted, apply_action-Valid, Reachable-Valid, build-Empty,
}

-- The cluster has a replica for the node.
abbrev HasReplica : Cluster → ℕ → Type 0
HasReplica m node = (r : ReplicaState) × (find node m ≡ some r)

write-HasReplica :
    (node other : ℕ) (s : ReplicaState) (m : Cluster)
    → HasReplica m other
    → HasReplica (write node s m) other
write-HasReplica node other s m (r, at) = elim (Bool-cases (eqb node other)) [
  | inl same ↦ (s, rw (find-write node s m other, same) refl)
  | inr new ↦ (r, rw (find-write node s m other, new) at)
]

write-own : (node : ℕ) (s : ReplicaState) (m : Cluster) → HasReplica (write node s m) node
write-own node s m =
    let same : eqb node node ≡ true = ground arith in (s, rw (find-write node s m node, same) refl)

-- The constructor keeps the replicas that are there, and adds one for each member.
add_members-HasReplica :
    (rest old : List ℕ) (unique : Map ℕ (Unit {0})) (m n : Cluster)
    → All (HasReplica m) old
    → add_members rest unique m ≡ built n
    → All (HasReplica n) old × All (HasReplica n) rest
unfolding add_members
add_members-HasReplica [] old unique m n h e =
    let same : m ≡ n = cc in (subst (λ k. All (HasReplica k) old) same h, tt)
add_members-HasReplica (member ∷ rest) old unique m n h e =
    elim (Bool-cases (eqb member 0 || is_some (Map.find member unique))) [
      | inl bad ↦ let e' : invalid_argument _ ≡ built n = rw (bad, add_members) at e in absurd (cc)
      | inr good ↦
          let e' = rw (good, add_members) at e in
          let s = new_replica member in
          let (own, more) =
            add_members-HasReplica rest (member ∷ old) (Map.put member tt unique) (write member s m)
              n
              (
                write-own member s m,
                All-map (HasReplica m) (HasReplica (write member s m)) old
                    (λ x h. write-HasReplica member x s m h) h,
              )
              e' in
          (own.1, (own.0, more))
    ]

Moves-HasReplica :
    (m n : Cluster) → Moves m n → All (HasReplica m) m.members → All (HasReplica n) n.members
Moves-HasReplica m n h all = subst (All (HasReplica n)) (sym h.members) (
    All-map (HasReplica m) (HasReplica n) m.members
      (λ node (r, at). let (s, after, _) = Moves-after m n node r h at in (s, after)) all)

Reachable-HasReplica : {m : Cluster} → Reachable m → All (HasReplica m) m.members
unfolding build
Reachable-HasReplica (constructed {m} [] e) = absurd (cc)
Reachable-HasReplica (constructed {m} (member ∷ rest) e) =
    let all = member ∷ rest in
    subst (All (HasReplica m)) (sym (build-Empty all m e).members)
      (add_members-HasReplica all [] [] _ m tt e).1
Reachable-HasReplica (acted {m} action r) =
    Moves-HasReplica m _ (apply_action-Valid action m (Reachable-Valid r)).0
      (Reachable-HasReplica r)

replica-view :
    (node : ℕ) (r : ReplicaState) (m : Cluster)
    → find node m ≡ some r
    → replica node m ≡ some (view m r)
unfolding replica
replica-view node r m at = rw (at, replica) refl

view-id : (r : ReplicaState) (m : Cluster) → (view m r).id ≡ r.id
unfolding view
view-id r m = refl

views-members :
    (rest : List ℕ) (m : Cluster)
    → ((node : ℕ) (r : ReplicaState) → find node m ≡ some r → r.id ≡ node)
    → All (HasReplica m) rest
    → (found : List ReplicaView) × (views rest m ≡ some found)
      × (map (λ (v : ReplicaView). v.id) found ≡ rest)
unfolding views
views-members [] m named h = ([], refl, refl)
views-members (member ∷ rest) m named ((r, at), h) =
    let (found, ran, ids) = views-members rest m named h in
    let seen = replica-view member r m at in
    (
      view m r ∷ found,
      rw (seen, ran, views) refl,
      ap (λ id. id ∷ map (λ (v : ReplicaView). v.id) found) (view-id r m ∙ named member r at)
          ∙ ap (λ ids. member ∷ ids) ids,
    )

-- In a reachable cluster `replicas` never dereferences an empty std::optional: it returns one view for
-- each member, under its identifier and in the order of the members.
pub replicas-members :
    (m : Cluster)
    → Reachable m
    → (found : List ReplicaView) × (replicas m ≡ some found)
      × (map (λ (v : ReplicaView). v.id) found ≡ members m)
unfolding replicas
replicas-members m h =
    views-members m.members m (Reachable-Valid h).all.named (Reachable-HasReplica h)
