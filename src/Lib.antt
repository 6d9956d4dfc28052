-- ===== src/Lib.antt =====
-- Orthrus, a framework for multi-leader consensus: a log of entries is filled by many ordering
-- instances in parallel, epoch after epoch.
--
-- The manager divides the sequence numbers of an epoch into segments, one for each leader, and the
-- request buckets among the leaders; an ordering instance fills each segment; a decided entry goes
-- to the log, which passes the entries on in order; at the end of an epoch a checkpoint is made
-- stable, and the next epoch begins with the leaders that the leader policy chooses.
--
-- Which file models which part:
--   Prelude       lists, maps and Go's `int32` as a bit pattern below 2 ^ 32 with its wrap-around;
--                 Go's 64-bit `int` (counts, configuration values) is unbounded
--   Protobufs     protobufs/request.proto: the messages that the rest reads
--   Log           log/log.go, log/entry.go: `commit_entry` is CommitEntry, `publish_entries` is
--                 publishEntries (its fuel is two more than the number of entries, and each round
--                 uses up one of them), `wait_for_entry` is WaitForEntry up to its block;
--                 Log/System has the goroutines as a step relation, Log/Checkpoints the stable
--                 checkpoint
--   Membership    membership/membership.go: nodes, faults, quorums, simulated crashes
--   Manager       manager/: Segments (both kinds of segment), Epoch (createSegments), Epoch/Buckets
--                 (assignBuckets), Policies (leaderpolicies.go; the fuel of the loop that relaxes
--                 bans is 2 ^ 31, the number of values that a positive ban can take)
--   Checkpoint    checkpoint/simplecheckpointer.go: `handle` is sequentialMessageHandler, and a run is
--                 a list of messages; Checkpoint/Stable has the votes behind a stable checkpoint,
--                 Checkpoint/Progress that a quorum of messages makes one
--   Orderer       orderer/common.go: Backlog, with the channels that it shares with the ordering
--                 instances as a heap and its goroutine as a run over events; from
--                 orderer/pbftinstance.go, Votes: isPrepared, CheckCommits and the votes of
--                 handleCommit; Instance: the state of an instance, Instance/Announce: announce
--                 (Loops, Finishing, Waiting and Settled follow its parts), Instance/Handlers:
--                 handlePrepare, handleCommit, handleHtnmsg and what they send, with the calls to
--                 other parts as a list; Instance/View: startView (Carrying and Starting
--                 follow it); Agreement: handlePBFTCheckpoint, catchUp (Instance/Deciding). A loop
--                 over sequence numbers has 2 ^ 32 steps, the number of int32 values; the recursion
--                 of announce needs more fuel than batches of the view are uncommitted, since each
--                 call that goes on commits one
--   Orderer/HotStuff   orderer/hotstuffinstance.go, orderer/hotstuffbacklog.go: the instance, with its
--                 nodes as objects on a heap; Tree: newNode, addNode, updateHighQC, announce, startView,
--                 sendNewView; Handlers: handleProposal, sendVote; Leading: proposeSN, handleVote; Loop:
--                 handleNewView, handleMissingEntry, processSerializedMessages, init, start. A run is a
--                 list of messages, so no fuel is needed. Quiet, Growth, Certificates and Proposals say
--                 what the operations keep, Steps, Votes, Checks, Leads and Views follow the handlers,
--                 and Safety and Missing have the results
--   Request       request/buffer.go: Buffer, `advance_watermarks` is AdvanceWatermarks (the fuel is one
--                 more than the number of marked requests, and each round deletes one);
--                 request/bucket.go: Bucket, a doubly linked list of objects on a heap (Bucket/Queue
--                 relates it to a list of addresses, Bucket/Cutting has RemoveFirst, whose fuel is
--                 the number of requests, Bucket/Index addNoLock); request/bucketgroup.go:
--                 BucketGroup, `cut_batch` is CutBatch after its waits; request/batch.go: Digest has
--                 BatchDigest, Requests what an ordering instance uses of batches, as an interface, and
--                 Batches its implementation over all buckets, with request/request.go
--   StateTransfer statetransfer/statetransfer.go: `process_missing_entries` is processMissingEntries
--                 over what it takes from its channels, `handle_request` handleRequest
--   Account       account/balance.go: `commit_requests` is CommitEntry, over a parameter for the amounts
--                 and one for the decoding of a payload
--   Util          util/channelbuffer.go: `process_input` is processInput
--
-- Code of HotStuff that may panic or block is a `Result` (Prelude/Runs): a nil pointer or an index out
-- of range is `panicked`, a receive from an empty channel `blocked`. The state of the requests, the
-- signatures and the encoding of votes are parameters; a certificate is a value there, so that a node
-- that `sendNewView` writes into a certificate is seen in the instance's own certificate only.
--
-- A channel is the list of what was pushed to it, so no push blocks. A Go map is an association
-- list; where the code ranges over a map, the order is that of the list. The theorems assume
-- sequence numbers below the largest `int32`, where they need it, and say so.
--
-- Not modelled: the network (messenger, discovery), cryptography, configuration files, tracing,
-- profiling and the commands, which are input and output; the waits of a bucket group and the backlog
-- of a buffer, which depend on time, and the handlers of client calls; of the manager the loop over log
-- entries; of PBFT proposing, PRE-PREPARE and the messages of the view change; of HotStuff the orderer
-- that starts its instances; Raft; and the signing checkpointer.
pub mod Prelude
pub mod Protobufs
pub mod Log
pub mod StateTransfer
pub mod Membership
pub mod Manager
pub mod Checkpoint
pub mod Orderer
pub mod Request
pub mod Util
pub mod Account
