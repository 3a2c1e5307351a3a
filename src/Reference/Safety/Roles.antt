-- ===== src/Reference/Safety/Roles.antt =====
-- The actions of src/reference_model.cpp that write roles keep a cluster secure.
use det_log.Prelude.{
  ◌≡◌, refl, sym, ◌∙◌, ap, subst, inl, inr, ℕ, Bool, true, false, some, not, arith, Bool-cases,
  Option-cases, length, take,
}
use det_log.Prelude.Key.{nat_key}
use det_log.Prelude.Map.{Map}
use det_log.Model.{session_key}
use det_log.Reference.Interpret.{ReplicaState}
use det_log.Reference.Actions.{Cluster, find, write}
use det_log.Reference.Elections.{leader}
use det_log.Reference.Run.{crash, restart}
use det_log.Reference.Sound.{Kept}
use det_log.Reference.Moves.{write-Moves, write-leaders}
use det_log.Reference.Moves.Handlers.{Quiet, flags-Kept}
use det_log.Reference.Valid.{Quiet-Valid}
use det_log.Reference.Safety.{History, Within, Covered, Secure, Grows}
use det_log.Reference.Safety.Prefixes.{Extends-self}
use det_log.Reference.Safety.Write.{Change, write-Secure}

abbrev pub Secured : Cluster → Type 0
Secured n = (after : History) × Secure n after

pub Secured-write :
    (m : Cluster) (history after : History) (x : ℕ) (r s : ReplicaState)
    → Secure m history
    → Change m history after x r s
    → Secured (write x s m)
Secured-write m history after x r s h c =
    let q : Quiet m (write x s m) = record {
      moves = write-Moves x r s m h.valid.all c.at c.kept;
      leaders = write-leaders x s m;
    } in
    (after, write-Secure m history after x r s h (Quiet-Valid m (write x s m) q h.valid) c)

pub Grows-refl : (leaders : Map ℕ ℕ) (history : History) → Grows leaders leaders history history
Grows-refl leaders history = record {
  leaders = λ t c e. e;
  logs = λ t c e. Extends-self (history t);
}

pub Covered-Kept :
    (m : Cluster) (history : History) (r s : ReplicaState)
    → Kept r s
    → s.commit_index ≡ r.commit_index
    → Covered m history r
    → Covered m history s
Covered-Kept m history r s k e (inl none_yet) = inl (e ∙ none_yet)
Covered-Kept m history r s k e (inr (prefix, term, safe, le, same)) = inr (
  prefix,
  term,
  safe,
  omega (arith, le, e),
  subst (λ c. take c s.log ≡ take c prefix) (sym e) (k.prefix ∙ same),
)

-- A change that leaves the log alone and makes nobody lead.
pub still-Change :
    (m : Cluster) (history : History) (x : ℕ) (r s : ReplicaState)
    → Secure m history
    → find x m ≡ some r
    → Kept r s
    → s.log ≡ r.log
    → (leader m s ≡ true → (leader m r ≡ true) × (s.current_term ≡ r.current_term))
    → Covered m history s
    → Change m history history x r s
still-Change m history x r s h at k log leads c = record {
  at = at;
  kept = k;
  grows = Grows-refl m.leaders history;
  within = subst (Within history m.leaders) (sym log) (h.within x r at);
  active = λ l. let (was, term) = leads l in ap history term ∙ h.active x r at was ∙ sym log;
  others = λ y q a b l. refl;
  keeps = λ prefix term safe e. ap (take (length prefix)) log ∙ e;
  covered = c;
}

pub flags-Secured :
    (m : Cluster) (history : History) (x : ℕ) (r : ReplicaState) (alive : Bool)
    → Secure m history
    → find x m ≡ some r
    → Secured (write x (record r { alive = alive; active_leader = false }) m)
unfolding leader
flags-Secured m history x r alive h at =
    let s = record r { alive = alive; active_leader = false } in
    let k = flags-Kept r alive false (h.valid.all.sound x r at) in
    Secured-write m history history x r s h (
      still-Change m history x r s h at k refl (λ l. absurd (cc))
        (Covered-Kept m history r s k refl (h.covered x r at)))

pub crash-Secured :
    (node : ℕ) (m : Cluster) (history : History) → Secure m history → Secured (crash node m).1
unfolding crash
crash-Secured node m history h = elim (Option-cases (find node m)) [
  | inl e ↦ rw (e, crash) (history, h)
  | inr (r, e) ↦ elim (Bool-cases (not r.alive)) [
    | inl t ↦ rw (e, t, crash) (history, h)
    | inr t ↦ rw (e, t, crash) (flags-Secured m history node r false h e)
  ]
]

pub restart-Secured :
    (node : ℕ) (m : Cluster) (history : History) → Secure m history → Secured (restart node m).1
unfolding restart
restart-Secured node m history h = elim (Option-cases (find node m)) [
  | inl e ↦ rw (e, restart) (history, h)
  | inr (r, e) ↦ elim (Bool-cases r.alive) [
    | inl t ↦ rw (e, t, restart) (history, h)
    | inr t ↦ rw (e, t, restart) (flags-Secured m history node r true h e)
  ]
]
