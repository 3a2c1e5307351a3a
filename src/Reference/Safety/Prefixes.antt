-- ===== src/Reference/Safety/Prefixes.antt =====
-- Prefixes of the logs of src/reference_model.cpp.
use det_log.Prelude.{
  ◌≡◌, ◌↔◌, sym, ◌∙◌, ap, subst, ℕ, zero, suc, ◌≤◌, ◌<◌, true, some, List, [], ◌∷◌, ◌++◌, All,
  arith, length, take, get_elem?, length-take, take-take, take-append, get_elem?-lt, get_elem?-take,
  take-all,
}
use det_log.Prelude.Key.{list_beq_iff, nat_key}
use det_log.Prelude.Map.{Map}
use det_log.Model.{LogEntry, entry_eq}
use det_log.Reference.Interpret.{ReplicaState}
use det_log.Reference.Sound.{Lined, Lined-le}
use det_log.Reference.Safety.{History, Extends, Within, holds, Grows}

pub Extends-le : (p l : List LogEntry) → Extends p l → length p ≤ length l
Extends-le p l h = omega (arith, ap length h, length-take {0} (length p) l)

pub Extends-trans : (p q l : List LogEntry) → Extends p q → Extends q l → Extends p l
Extends-trans p q l h k =
    sym (take-take (length p) (length q) l (Extends-le p q h)) ∙ ap (take (length p)) k ∙ h

pub Extends-append : (p l rest : List LogEntry) → Extends p l → Extends p (l ++ rest)
Extends-append p l rest h = take-append (length p) l rest (Extends-le p l h) ∙ h

pub Extends-take : (n : ℕ) (p l : List LogEntry) → length p ≤ n → Extends p l → Extends p (take n l)
Extends-take n p l le h = take-take (length p) n l le ∙ h

pub Extends-self : (l : List LogEntry) → Extends l l
Extends-self l = take-all (length l) l (omega arith)

pub take-Extends : (n : ℕ) (l : List LogEntry) → n ≤ length l → Extends (take n l) l
take-Extends n l h = ap (λ k. take k l) (omega (arith, length-take {0} n l))

-- Two prefixes of one log agree as far as both go.
pub Extends-agree :
    (k : ℕ) (p q l : List LogEntry)
    → Extends p l
    → Extends q l
    → k ≤ length p
    → k ≤ length q
    → take k p ≡ take k q
Extends-agree k p q l h e a b =
    ap (take k) (sym h)
    ∙ take-take k (length p) l a
    ∙ sym (take-take k (length q) l b)
    ∙ ap (take k) e

-- A prefix is left for another log that agrees with this one beyond it.
pub Extends-across :
    (k : ℕ) (p l other : List LogEntry)
    → length p ≤ k
    → take k l ≡ take k other
    → Extends p l
    → Extends p other
Extends-across k p l other le same h =
    sym (take-take (length p) k other le)
    ∙ ap (take (length p)) (sym same)
    ∙ take-take (length p) k l le
    ∙ h

pub holds_iff : (p : List LogEntry) (r : ReplicaState) → (holds p (some r) ≡ true) ↔ Extends p r.log
unfolding holds
holds_iff p r = list_beq_iff (take (length p) r.log) p

pub Within-take :
    (history : History) (leaders : Map ℕ ℕ) (n : ℕ) (log : List LogEntry)
    → Within history leaders log
    → Within history leaders (take n log)
Within-take history leaders n log h i e at =
    let below : i < n = omega (arith, get_elem?-lt {0} i (take n log) at, length-take {0} n log) in
    let (led, same) = h i e (sym (get_elem?-take i n log below) ∙ at) in
    (led, take-take (suc i) n log (omega arith) ∙ same)

pub take-length_eq :
    (i : ℕ) (l other : List LogEntry) → i ≤ length l → take i l ≡ take i other → i ≤ length other
take-length_eq i l other h same =
    omega (arith, ap length same, length-take {0} i l, length-take {0} i other)

pub Within-grow :
    (before after : Map ℕ ℕ) (history later : History) (log : List LogEntry)
    → Grows before after history later
    → Within history before log
    → Within later after log
Within-grow before after history later log g h i e at =
    let ((c, led), same) = h i e at in
    let long =
      take-length_eq (suc i) log (history e.term) (omega (arith, get_elem?-lt {0} i log at)) same in
    (
      (c, g.leaders e.term c led),
      same
          ∙ ap (take (suc i)) (sym (g.logs e.term c led))
          ∙ take-take (suc i) (length (history e.term)) (later e.term) long,
    )

-- In a log of ascending terms no entry is above the top.
pub Lined-bounded :
    (i lo hi : ℕ) (log : List LogEntry)
    → Lined i lo hi log
    → All (λ (e : LogEntry). e.term ≤ hi) log
Lined-bounded i lo hi [] h = tt
Lined-bounded i lo hi (e ∷ rest) h =
    (Lined-le (suc i) e.term hi rest h.2, Lined-bounded (suc i) e.term hi rest h.2)

pub All-get {ℓ κ} :
    {A : Type ℓ} (P : A → Type κ) (i : ℕ) (xs : List A) (x : A)
    → All P xs
    → get_elem? xs i ≡ some x
    → P x
All-get P i [] x h at = absurd (cc)
All-get P zero (y ∷ ys) x h at = let same : y ≡ x = cc in subst P same h.0
All-get P (suc i) (y ∷ ys) x h at = All-get P i ys x h.1 at

pub All-take {ℓ κ} :
    {A : Type ℓ} (P : A → Type κ) (n : ℕ) (xs : List A) → All P xs → All P (take n xs)
All-take P zero xs h = tt
All-take P (suc n) [] h = tt
All-take P (suc n) (x ∷ xs) h = (h.0, All-take P n xs h.1)

pub get_elem?-Extends :
    (p l : List LogEntry) (i : ℕ) (e : LogEntry)
    → Extends p l
    → get_elem? p i ≡ some e
    → get_elem? l i ≡ some e
get_elem?-Extends p l i e h at =
    sym (get_elem?-take i (length p) l (get_elem?-lt i p at)) ∙ ap (λ q. get_elem? q i) h ∙ at
