-- ===== src/Reference/Actions.antt =====
-- include/detlog/reference_model.hpp: the actions of a history and their results; and the members of
-- Model::Impl in src/reference_model.cpp.
use det_log.Prelude.{ℕ, Bool, true, false, String, Option, none, some, List}
use det_log.Prelude.Key.{nat_key}
use det_log.Prelude.Map
use det_log.Prelude.Map.{Map}
use det_log.Model.{Bytes, ClientCommand, ClientStatus, LogEntry}
use det_log.Reference.Interpret.{ReplicaState}

pub record Elect : Type 0 where
  pub candidate : ℕ
  pub term : ℕ
  pub voters : List ℕ

pub record Propose : Type 0 where
  pub leader : ℕ
  pub command : ClientCommand

pub record ReplicatePrefix : Type 0 where
  pub leader : ℕ
  pub follower : ℕ
  pub through : ℕ

pub record CommitPrefix : Type 0 where
  pub leader : ℕ
  pub through : ℕ
  pub acknowledgers : List ℕ

pub record LearnCommit : Type 0 where
  pub leader : ℕ
  pub follower : ℕ
  pub through : ℕ

-- A record of one field is that field: the leader, or the node.
pub data Action : Type 0 where
  elect : Elect → Action
  append_no_op : ℕ → Action
  propose : Propose → Action
  replicate_prefix : ReplicatePrefix → Action
  commit_prefix : CommitPrefix → Action
  learn_commit : LearnCommit → Action
  crash : ℕ → Action
  restart : ℕ → Action

pub record ProposalOutcome : Type 0 where
  pub status : ClientStatus
  pub value : Bytes
  pub index : ℕ
  pub appended : Bool
  pub duplicate : Bool

pub record ActionResult : Type 0 where
  pub success : Bool
  pub error : String
  pub appended_index : Option ℕ
  pub proposal : Option ProposalOutcome

pub record HistoryResult : Type 0 where
  pub success : Bool
  pub applied_actions : ℕ
  pub error : String

pub record ReplicaView : Type 0 where
  pub id : ℕ
  pub alive : Bool
  pub current_term : ℕ
  pub voted_for : Option ℕ
  pub commit_index : ℕ
  pub last_applied : ℕ
  pub leader_ready : Bool
  pub log : List LogEntry

-- Model::Impl
pub record Cluster : Type 0 where
  pub members : List ℕ
  pub replicas : Map ℕ ReplicaState
  pub leaders : Map ℕ ℕ

abbrev pub succeeded : ActionResult
succeeded = record { success = true; error = ""; appended_index = none; proposal = none }

abbrev pub reject : String → ActionResult
reject error = record { success = false; error = error; appended_index = none; proposal = none }

unfoldable pub proposal_result : ProposalOutcome → ActionResult
proposal_result outcome = record {
  success = true;
  error = "";
  appended_index = elim outcome.appended [ true ↦ some outcome.index | false ↦ none ];
  proposal = some outcome;
}

unfoldable pub find : ℕ → Cluster → Option ReplicaState
find node m = Map.find node m.replicas

-- A write through the pointer that `find` returned.
unfoldable pub write : ℕ → ReplicaState → Cluster → Cluster
write node replica m = record m { replicas = Map.put node replica m.replicas }
