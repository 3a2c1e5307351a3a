-- ===== src/Reference/Safety/Logs.antt =====
-- The actions of src/reference_model.cpp that write logs or roles keep a cluster secure.
use det_log.Prelude.{
  ◌≡◌, refl, sym, ◌∙◌, ap, subst, ◌⊎◌, inl, inr, ℕ, zero, suc, true, Option, none, some, List, [],
  ◌∷◌, ◌++◌, ◌||◌, not, arith, Bool-cases, Option-cases, eqb, eqb_iff, if◌then◌else◌, length, take,
  take-append, get_elem?, get_elem?-lt,
}
use det_log.Prelude.Key.{nat_key}
use det_log.Prelude.Map
use det_log.Prelude.Map.{Map}
use det_log.Model.{LogEntry, ClientCommand, session_key}
use det_log.Reference.Interpret.{ReplicaState, well_structured}
use det_log.Reference.Actions.{Propose, Cluster, find, write}
use det_log.Reference.Elections.{names, leader}
use det_log.Reference.Logs.{push, append_noop, proposal_check, take_proposal, propose}
use det_log.Reference.Sound.{Kept-refl, push-Kept}
use det_log.Reference.Safety.{History, Extends, Within, Secure, Grows}
use det_log.Reference.Safety.Prefixes.{Extends-self, Extends-append, Within-grow}
use det_log.Reference.Safety.Write.{Change}
use det_log.Reference.Safety.Roles.{Secured, Secured-write, Covered-Kept, still-Change}

-- The leader's log in its term grows with a push.
abbrev pub extended : ℕ → List LogEntry → History → History
extended term log history u = if eqb term u then log else history u

pub leader-named :
    (m : Cluster) (r : ReplicaState)
    → leader m r ≡ true
    → Map.find r.current_term m.leaders ≡ some r.id
unfolding leader names
leader-named m r l = elim (Option-cases (Map.find r.current_term m.leaders)) [
  | inl e ↦ absurd (ground (arith, e, l))
  | inr (c, e) ↦ e ∙ ap some (ground (arith, e, l))
]

get_elem?-push :
    (xs : List LogEntry) (y z : LogEntry) (i : ℕ)
    → get_elem? (xs ++ y ∷ []) i ≡ some z
    → (get_elem? xs i ≡ some z) ⊎ ((i ≡ length xs) × (y ≡ z))
get_elem?-push [] y z zero e = inr (refl, cc)
get_elem?-push [] y z (suc i) e = absurd (cc)
get_elem?-push (x ∷ xs) y z zero e = inl e
get_elem?-push (x ∷ xs) y z (suc i) e = elim (get_elem?-push xs y z i e) [
  | inl before ↦ inl before
  | inr (at, same) ↦ inr (omega (arith, at), same)
]

-- Who leads in one term is one.
pub one_leader :
    (m : Cluster) (history : History) (x y : ℕ) (r q : ReplicaState)
    → Secure m history
    → find x m ≡ some r
    → find y m ≡ some q
    → leader m r ≡ true
    → leader m q ≡ true
    → r.current_term ≡ q.current_term
    → y ≡ x
one_leader m history x y r q h at found l leads same =
    let a = leader-named m r l in
    let b = leader-named m q leads in
    let c = ap (λ t. Map.find t m.leaders) same in
    let d : r.id ≡ q.id = cc in sym (h.valid.all.named y q found) ∙ sym d ∙ h.valid.all.named x r at

-- Writing back what was there.
same-Secured :
    (m : Cluster) (history : History) (x : ℕ) (r : ReplicaState)
    → Secure m history
    → find x m ≡ some r
    → Secured (write x r m)
same-Secured m history x r h at = Secured-write m history history x r r h (
    still-Change m history x r r h at (Kept-refl r (h.valid.all.sound x r at)) refl (λ l. (l, refl))
      (h.covered x r at))

push-Within :
    (m : Cluster) (history : History) (r : ReplicaState) (command : Option ClientCommand)
    → Grows m.leaders m.leaders history (extended r.current_term (push r command).log history)
    → leader m r ≡ true
    → Within history m.leaders r.log
    → Within (extended r.current_term (push r command).log history) m.leaders (push r command).log
unfolding push
push-Within m history r command g l w i e at =
    let after = extended r.current_term (push r command).log history in
    elim (get_elem?-push r.log _ e i at) [
      | inl before ↦
          let (led, same) = Within-grow m.leaders m.leaders history after r.log g w i e before in
          (led, take-append (suc i) r.log _ (ground (arith, get_elem?-lt i r.log before)) ∙ same)
      | inr (end, last) ↦
          let term : r.current_term ≡ e.term = ap (λ z. z.term) last in
          let self : eqb r.current_term r.current_term ≡ true = ground arith in
          let now : after r.current_term ≡ (push r command).log = rw self refl in
          (
            (r.id, subst (λ t. Map.find t m.leaders ≡ some r.id) term (leader-named m r l)),
            subst (λ t. take (suc i) (push r command).log ≡ take (suc i) (after t)) term
                (ap (take (suc i)) (sym now)),
          )
    ]

push-Change :
    (m : Cluster) (history : History) (x : ℕ) (r : ReplicaState) (command : Option ClientCommand)
    → Secure m history
    → find x m ≡ some r
    → leader m r ≡ true
    → Change m history (extended r.current_term (push r command).log history) x r (push r command)
unfolding push leader
push-Change m history x r command h at l =
    let log = (push r command).log in
    let after = extended r.current_term log history in
    let k = push-Kept r command (h.valid.all.sound x r at) in
    let was = h.active x r at l in
    let g : Grows m.leaders m.leaders history after = record {
      leaders = λ t c e. e;
      logs = λ t c e. elim (Bool-cases (eqb r.current_term t)) [
        | inr other ↦ rw other (Extends-self (history t))
        | inl same ↦ rw same (
            subst (λ q. Extends q log) (sym was ∙ ap history ((eqb_iff r.current_term t).0 same))
              (Extends-append r.log r.log _ (Extends-self r.log)))
      ];
    } in
    record {
      at = at;
      kept = k;
      grows = g;
      within = push-Within m history r command g l (h.within x r at);
      active =
          λ _. let self : eqb r.current_term r.current_term ≡ true = ground arith in rw self refl;
      others = λ y q found other leads. elim (Bool-cases (eqb r.current_term q.current_term)) [
        | inr apart ↦ rw apart refl
        | inl same ↦ absurd (
            other (
              one_leader m history x y r q h at found l leads
                ((eqb_iff r.current_term q.current_term).0 same)))
      ];
      keeps = λ prefix term safe e. Extends-append prefix r.log _ e;
      covered = Covered-Kept m history r (push r command) k refl (h.covered x r at);
    }

push-Secured :
    (m : Cluster) (history : History) (x : ℕ) (r : ReplicaState) (command : Option ClientCommand)
    → Secure m history
    → find x m ≡ some r
    → leader m r ≡ true
    → Secured (write x (push r command) m)
push-Secured m history x r command h at l =
    Secured-write m history _ x r (push r command) h (push-Change m history x r command h at l)

pub append_noop-Secured :
    (node : ℕ) (m : Cluster) (history : History) → Secure m history → Secured (append_noop node m).1
unfolding append_noop
append_noop-Secured node m history h = elim (Option-cases (find node m)) [
  | inl e ↦ rw (e, append_noop) (history, h)
  | inr (r, e) ↦ elim (Bool-cases (not r.alive || not (leader m r))) [
    | inl t ↦ rw (e, t, append_noop) (history, h)
    | inr t ↦ rw (e, t, append_noop) (push-Secured m history node r none h e (ground (arith, t)))
  ]
]

pub propose-Secured :
    (action : Propose) (m : Cluster) (history : History)
    → Secure m history
    → Secured (propose action m).1
unfolding propose take_proposal
propose-Secured action m history h = elim (Option-cases (find action.leader m)) [
  | inl e ↦ rw (e, propose) (history, h)
  | inr (r, e) ↦ elim (Bool-cases (not r.alive || not (leader m r))) [
    | inl t ↦ rw (e, t, propose) (history, h)
    | inr t ↦ elim (Bool-cases (not (eqb r.ready_term r.current_term))) [
      | inl u ↦ rw (e, t, u, propose) (history, h)
      | inr u ↦
          let same = same-Secured m history action.leader r h e in
          elim (Bool-cases (not (well_structured action.command))) [
            | inl v ↦ rw (e, t, u, v, propose, take_proposal) same
            | inr v ↦
                elim (Option-cases
                  (proposal_check action.command (Map.find action.command.session r.sessions))) [
                    | inr (early, w) ↦ rw (e, t, u, v, w, propose, take_proposal) same
                    | inl w ↦
                        rw (e, t, u, v, w, propose, take_proposal)
                          (push-Secured m history action.leader r (some action.command) h e
                            (ground (arith, t)))
                  ]
          ]
    ]
  ]
]
