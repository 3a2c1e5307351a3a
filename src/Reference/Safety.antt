-- ===== src/Reference/Safety.antt =====
-- Safety of the clusters of src/reference_model.cpp: what makes a committed prefix stay chosen. `history`
-- gives for each term that had a leader the longest log that the leader had in it.
pub mod Prefixes
pub mod Write
pub mod Roles
pub mod Logs
pub mod Copies
pub mod Acknowledged
pub mod Commits
pub mod Learns
pub mod Candidates
pub mod Sworn
pub mod Ballots
pub mod Agreement
use det_log.Prelude.{
  ◌≡◌, refl, sym, ◌∙◌, ap, subst, ◌⊎◌, inl, inr, ℕ, suc, ◌+◌, ◌≤◌, ◌<◌, Bool, true, false, Option,
  none, some, List, [], ◌∷◌, ◌++◌, All, arith, eqb, if◌then◌else◌, length, take, get_elem?,
}
use det_log.Prelude.Key.{nat_key, list_beq}
use det_log.Prelude.Map
use det_log.Prelude.Map.{Map}
use det_log.Model.{LogEntry, entry_eq}
use det_log.Reference.Interpret.{ReplicaState}
use det_log.Reference.Actions.{Cluster, find}
use det_log.Reference.Elections.{leader, quorum_size}
use det_log.Reference.Counting.{count_if}
use det_log.Reference.Valid.{Valid}

abbrev pub History : Type 0
History = ℕ → List LogEntry

abbrev pub Extends : List LogEntry → List LogEntry → Type 0
Extends prefix log = take (length prefix) log ≡ prefix

-- Each entry stands where the leader of its term had it, and so do those before it.
abbrev pub Within : History → Map ℕ ℕ → List LogEntry → Type 0
Within history leaders log =
    (i : ℕ) (e : LogEntry)
    → get_elem? log i ≡ some e
    → ((c : ℕ) × (Map.find e.term leaders ≡ some c))
      × (take (suc i) log ≡ take (suc i) (history e.term))

unfoldable pub holds : List LogEntry → Option ReplicaState → Bool
holds prefix none = false
holds prefix (some r) = list_beq (take (length prefix) r.log) prefix

-- A quorum holds the prefix, whose last term is `term`, and so does every later leader.
pub record Safe (m : Cluster) (history : History) (prefix : List LogEntry) (term : ℕ) : Type 0 where
  pub chosen : quorum_size m ≤ count_if (λ x. holds prefix (find x m)) m.members
  pub led : (c : ℕ) × (Map.find term m.leaders ≡ some c)
  pub own : Extends prefix (history term)
  pub later : (u c : ℕ) → term < u → Map.find u m.leaders ≡ some c → Extends prefix (history u)
  pub bounded : All (λ (e : LogEntry). e.term ≤ term) prefix
  pub reached : (i : ℕ) × (e : LogEntry) × (get_elem? prefix i ≡ some e) × (e.term ≡ term)

-- What the replica has committed is a part of a safe prefix.
abbrev pub Covered : Cluster → History → ReplicaState → Type 0
Covered m history r =
    (r.commit_index ≡ 0)
    ⊎ ((prefix : List LogEntry) × (term : ℕ) × Safe m history prefix term
        × (r.commit_index ≤ length prefix)
        × (take r.commit_index r.log ≡ take r.commit_index prefix))

pub record Secure (m : Cluster) (history : History) : Type 0 where
  pub valid : Valid m
  pub within : (x : ℕ) (r : ReplicaState) → find x m ≡ some r → Within history m.leaders r.log
  pub active :
      (x : ℕ) (r : ReplicaState)
      → find x m ≡ some r
      → leader m r ≡ true
      → history r.current_term ≡ r.log
  pub reached :
      (term c : ℕ)
      → Map.find term m.leaders ≡ some c
      → (r : ReplicaState) × (find c m ≡ some r) × (term ≤ r.current_term)
  pub covered : (x : ℕ) (r : ReplicaState) → find x m ≡ some r → Covered m history r

-- The history of an action: leaders stay, and what a leader had in its term is not lost.
pub record Grows (before after : Map ℕ ℕ) (history later : History) : Type 0 where
  pub leaders : (t c : ℕ) → Map.find t before ≡ some c → Map.find t after ≡ some c
  pub logs : (t c : ℕ) → Map.find t before ≡ some c → Extends (history t) (later t)
