-- ===== src/Lib.antt =====
-- DetLog, a replicated command log: the Raft engine of one node (src/raft.cpp with
-- include/detlog/raft.hpp), the replicated key-value state machine that it applies
-- (src/state_machine.cpp), the serial reference model that both are checked against
-- (src/reference_model.cpp), the wire format (src/codec.cpp) and the types that they share
-- (include/detlog/model.hpp).
--
-- The engine is a transition function. `step` takes an event (a timer, a message, a storage
-- completion, a client request) and a node, and returns the node with the effects of this call in
-- its field `effects` (std::vector<RaftEffect>). Every method of RaftNode is a function of the same
-- name from node to node, composed in the order of the C++ statements; a method's stages are functions
-- of their own where that keeps proofs short, and the map of definitions to lines names them.
--
-- Files:
--   Prelude         shared names, Boolean tests, lists over native numbers, 64-bit words, `Equality` and
--                   `Key` instances, std::map as an association list in key order
--   Model           include/detlog/model.hpp
--   StateMachine    src/state_machine.cpp; its children prove what `apply` does: Cases (its two
--                   outcomes), Retry, Sequences (session order), Values (the map)
--   Raft/State      the types of raft.hpp and the members of RaftNode; the protocol members are the
--                   record Core
--   Raft/Log        the const helpers on the log, and the admission bounds
--   Raft/Emit, Raft/Persist, Raft/Replicate, Raft/Election, Raft/Append, Raft/Response, Raft/Client,
--   Raft/Step, Raft/Recover
--                   the methods of src/raft.cpp, in the order in which they call one another
--   Raft/Quiet, Raft/Entries, Raft/Safety, Raft/Reachable
--                   the proofs: what leaves the protocol state alone, the entries of a request
--                   against a log, the safety relation kept by every handler, and its consequences
--                   for every reachable node
--   Raft/Matching   how an AppendEntries merges into a follower's log
--   Raft/Elected    how votes make a leader, and a whole election (Asking, Campaign)
--   Raft/Quorum     which index a leader commits
--   Raft/Batch      which entries one AppendEntries carries
--   Raft/Queue      the deferred events: no handler adds one, so the loop of `step` ends
--   Raft/Durable    the durability gate: when the disk is up to date, what each handler may send, and
--                   what follows for every reachable node (Gate)
--   Codec           src/codec.cpp with include/detlog/codec.hpp: Writer and Reader (the two classes),
--                   Payload (commands and entries), Frame (frames, their encoders and decoders), Message
--                   and Decode (messages); the children Written, Framed, Command, Entry, Votes,
--                   Appends and Messages prove the round trips, by two predicates: what an operation
--                   writes, and that another reads it back; Canonical (Headers, Frames, Fields,
--                   Commands, Appends, Messages) proves that what a decoder accepts is what the encoder writes
--   Reference       src/reference_model.cpp with include/detlog/reference_model.hpp: Interpret (commands),
--                   Actions (the types), Elections, Logs and Commits (the handlers of the actions), Run
--                   (dispatch, the constructor, the observers)
--   Reference/Agrees
--                   the state machine against the interpreter
--   Reference/Sound, Reference/Moves, Reference/Counting, Reference/Elected, Reference/Valid,
--   Reference/History
--                   the proofs about histories: what each action does to one replica, to all of them, the
--                   sets of voters counted, elections, the invariant, and every reachable cluster
--   Reference/Safety
--                   why committed prefixes agree: prefixes, changes of one replica (Write), the actions
--                   (Roles, Logs, Copies, Acknowledged, Commits, Learns, Sworn, Ballots), the winner of an
--                   election (Candidates), and the result (Agreement)
--   Reference/Observed
--                   the observer `replicas`
--   Reference/Proposals
--                   the early answers to a proposal against the interpreter
--   Wal             src/wal.cpp with include/detlog/wal.hpp: Types (options, errors, the logical state), Bytes
--                   (ByteWriter, ByteReader, crc32c), Stage (ValidationView), Payload (batches), Frame (the
--                   file header and the frames), Scan (encode_wal_frame, scan_source), Storage (the
--                   file), Log (Wal::Impl)
--   Wal/Bytes/Laws, Wal/Payload, Wal/Frame, Wal/Stage/Accepted
--                   what each writer leaves and that its reader takes it back
--   Wal/Stage/Ordered, Wal/Stage/Guards, Wal/Stage/Logged
--                   the invariant of the logical log that accepted batches keep
--   Wal/Scan        Encoded and Frames (one frame), Sequence (frames one after another), Torn (the front
--                   of them), Recovery (the file), Rounds (the loop ends), Source (scan_source over
--                   a source that is read piece by piece, and its child Agrees: the same scan)
--   Wal/Storage     the file as the log sees it, and two examples (Memory; Alarms with Slow); Posix (the
--                   calls of the operating system), Native (NativeFile; Transfers and Reads prove its
--                   loops, Lawful that it is such a file, and that its flush makes it durable)
--   Wal/Log         Staged (the loop of append_group), Kept (the file and the state: Written, Appended,
--                   Opened, Scanned, Repaired, Reopened, Created, Logged, Available, Reported: what is durable),
--                   Refused (the fail-stop, and flush)
--   StateMachine/Tests, Raft/Tests, Codec/Tests, Reference/Tests, Wal/Tests
--                   runs on concrete inputs, and each theorem at such an input
--
-- Conventions. Identifiers, terms and indexes are native numbers; a counter that the C++ code
-- increments without a guard wraps (`inc64`, `% 2 ^ 64`), and an unsigned subtraction without a guard
-- is `sub64`. Container sizes are plain numbers, since a std::vector is shorter than 2 ^ 63. std::string
-- is its list of bytes, except for trace details and errors, which are text. std::map is a list of pairs
-- in the order of its keys; std::set<NodeId> is such a map to Unit. std::binary_search over the sorted
-- members is membership. The lambdas given to begin_persist are the constructors of Continuation, which
-- run_continuation interprets. An exception of the constructor is a value of Constructed; the
-- std::logic_error of begin_persist sets the mark `thrown`: where it is thrown storage is pending, so
-- what the C++ code skips is skipped by the tests of pending_storage.
--
-- The write-ahead log is modelled over any file, a record of operations over an unknown state with the
-- laws that its proofs use (Wal/Storage). NativeFile, in its POSIX branches, is one such file, over the
-- calls of the operating system, which are a parameter with their documented behaviour (Posix): a transfer
-- may move fewer bytes than it was given, be interrupted by a signal, or be refused. A file in memory of
-- bounded size and a device of bounded size, which moves two bytes per call, are two examples. A throw of
-- WalError is the value `error`. The constructor of Wal::Impl reads its file piece by piece through
-- scan_source, whatever the source; Wal/Scan states the scan once more on the bytes as a list, which the
-- proofs about frames use.
--
-- Loops recur on the list or on a count of the rounds left (apply_rounds, collect_entries, bytes_from,
-- replay_rounds). A loop over transfers has a round for each byte that is left and each signal that is
-- still to come, and the scan one for each byte: enough, since a round moves a byte or takes a signal, or
-- takes a frame. The loop of `step` over deferred events has their number as its fuel: each round
-- takes one event, and no handler adds one.
--
-- Not modelled: the cluster and its simulator, the TCP transport,
-- the node host, the applications and the benchmarks; of the write-ahead log the branches of Windows, the
-- mutex, and the closing of the file and of its directory.
pub mod Prelude
pub mod Model
pub mod StateMachine
pub mod Raft
pub mod Codec
pub mod Reference
pub mod Wal
