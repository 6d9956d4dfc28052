-- ===== src/Orderer/HotStuff.antt =====
-- orderer/hotstuffinstance.go, orderer/hotstuffbacklog.go: chained HotStuff for one segment. The node
-- objects are on a heap; an address stands for a pointer, `none` for nil. Messages come with all their
-- fields, but for the node of a certificate. The requests, the signatures and the encoding of a vote
-- are parameters. What other parts do (the messenger, the announcer, the timers, the cutting of a
-- batch) is appended to `calls`.
pub mod Tree
pub mod Handlers
pub mod Leading
pub mod Loop
pub mod Quiet
pub mod Growth
pub mod Certificates
pub mod Steps
pub mod Proposals
pub mod Votes
pub mod Checks
pub mod Leads
pub mod Views
pub mod Safety
pub mod Missing
mod Tests
use orthrus.Protobufs.{Batch}
use orthrus.Log.{Entry}
use orthrus.Manager.Segments.{Segment}
use orthrus.Prelude.{
  ℕ, ◌-◌, ◌%◌, ◌==◌, Bool, true, false, if◌then◌else◌, Option, none, some, List, [], ◌∷◌, ◌++◌,
  lookup, insert, get_elem?, length, half, modulus, ltb, lt32,
}

-- The messages: a node holds a certificate, and a certificate may hold a node.
mutual
  pub data NodeMsg : Type 0 where
    node_msg :
        (height view : ℕ) (parent : List ℕ) (batch : Batch) (certificate : Qc) (aborted : Bool)
        → NodeMsg

  pub data Qc : Type 0 where
    qc : (height : ℕ) (node : NodeRef) (signature : List ℕ) → Qc

  pub data NodeRef : Type 0 where
    no_node : NodeRef
    node_ref : NodeMsg → NodeRef

abbrev pub height_of : NodeMsg → ℕ
height_of (node_msg height view parent batch certificate aborted) = height

abbrev pub view_of : NodeMsg → ℕ
view_of (node_msg height view parent batch certificate aborted) = view

abbrev pub parent_of : NodeMsg → List ℕ
parent_of (node_msg height view parent batch certificate aborted) = parent

abbrev pub batch_of : NodeMsg → Batch
batch_of (node_msg height view parent batch certificate aborted) = batch

abbrev pub certificate_of : NodeMsg → Qc
certificate_of (node_msg height view parent batch certificate aborted) = certificate

abbrev pub aborted_of : NodeMsg → Bool
aborted_of (node_msg height view parent batch certificate aborted) = aborted

abbrev pub qc_height : Qc → ℕ
qc_height (qc height node signature) = height

abbrev pub qc_node : Qc → Option NodeMsg
qc_node (qc height no_node signature) = none
qc_node (qc height (node_ref node) signature) = some node

abbrev pub qc_signature : Qc → List ℕ
qc_signature (qc height node signature) = signature

pub record HotStuffVote : Type 0 where
  pub height : ℕ
  pub digest : List ℕ

pub record SignedMsg : Type 0 where
  pub data_bytes : List ℕ
  pub signature : List ℕ

pub data Body : Type 0 where
  proposal : (leader : ℕ) → NodeMsg → Body
  vote : SignedMsg → Body
  new_view : (view : ℕ) → Qc → Body
  timeout : (sn view : ℕ) → Body
  missing_entry : (sn : ℕ) → Batch → (digest : List ℕ) → (aborted : Bool) → Body

pub record ProtocolMessage : Type 0 where
  pub sender_id : ℕ
  pub sn : ℕ
  pub msg : Body

-- `hotStuffNode`. The fields `node`, `batch` and `votes` may be nil, as in the placeholders of
-- `addNode`; `batch` is the list of its request objects.
pub record HotStuffNode : Type 0 where
  pub height : ℕ
  pub sn : ℕ
  pub leader : ℕ
  pub node : Option NodeMsg
  pub batch : Option (List ℕ)
  pub parent : Option ℕ
  pub votes : Option (List (ℕ × SignedMsg))
  pub digest : List ℕ
  pub quorum : Bool
  pub announced : Bool
  pub dummy : Bool
  pub view_change_timer : Bool

pub data Call : Type 0 where
  enqueue_msg : ProtocolMessage → ℕ → Call
  enqueue_priority_msg : ProtocolMessage → ℕ → Call
  announcer_announce : Entry → Call
  serialize : ProtocolMessage → Call
  start_timer : (sn view : ℕ) → Call
  stop_timer : (sn : ℕ) → Call
  schedule_batch : Call

-- What the code takes from elsewhere: the id of the node, the number of faults, SHA-256, the threshold
-- signatures and the encoding of a vote.
pub record Externals : Type 0 where
  pub own_id : ℕ
  pub faults : ℕ
  pub hash : List ℕ → List ℕ
  pub sign : List ℕ → Option (List ℕ)
  pub check_sig : List ℕ → ℕ → List ℕ → Bool
  pub check_cert : List ℕ → List ℕ → Bool
  pub assemble_cert : List ℕ → List (List ℕ) → Option (List ℕ)
  pub marshal : HotStuffVote → Option (List ℕ)
  pub unmarshal : List ℕ → Option HotStuffVote

-- `new_batch` is what the channel gives from now on, each the request objects of a batch that is cut; `closed`
-- is whether it has been closed. `heap` and `fresh` are the node objects, `requests` those of the requests.
pub record HotStuffInstance (R : Type 0) : Type 0 where
  pub segment : Segment
  pub leader : ℕ
  pub view : ℕ
  pub next : ℕ
  pub height2sn : List (ℕ × ℕ)
  pub sn2height : List (ℕ × ℕ)
  pub nodes : List ℕ
  pub vheight : ℕ
  pub leaf : ℕ
  pub locked : ℕ
  pub high_qc : Qc
  pub backlog_msgs : List (ℕ × List ProtocolMessage)
  pub new_view_votes : List (ℕ × List (ℕ × (ℕ × Qc)))
  pub new_batch : List (List ℕ)
  pub closed : Bool
  pub segment_proposed : Bool
  pub heap : ℕ → HotStuffNode
  pub fresh : ℕ
  pub requests : R
  pub calls : List Call

module _ {R : Type 0} where
  unfoldable pub call : Call → HotStuffInstance R → HotStuffInstance R
  call c hi = record hi { calls = hi.calls ++ c ∷ [] }

  unfoldable pub write : ℕ → HotStuffNode → HotStuffInstance R → HotStuffInstance R
  write at node hi = record hi { heap = λ a. if a == at then node else hi.heap a }

  -- `hi.nodes[height]`, for a height that may be negative.
  unfoldable pub node_at : HotStuffInstance R → ℕ → Option ℕ
  node_at hi height = get_elem? hi.nodes height

  unfoldable pub sn_of : HotStuffInstance R → ℕ → ℕ
  sn_of hi height = elim (lookup height hi.height2sn) [ none ↦ 0 | some sn ↦ sn ]

  unfoldable pub is_known_sn : HotStuffInstance R → ℕ → Bool
  is_known_sn hi sn = elim (lookup sn hi.sn2height) [ none ↦ false | some height ↦ true ]

-- `seg.Leaders()[view%int32(len(seg.Leaders()))]`; none where it panics, as for a remainder below 0.
unfoldable pub segment_leader : Segment → ℕ → Option ℕ
segment_leader seg view =
    let n = length seg.leaders in
    if n == 0
    then none
    else if ltb view half
    then get_elem? seg.leaders (view % n)
    else if (modulus - view) % n == 0
    then get_elem? seg.leaders 0
    else none

unfoldable pub kept_at : ℕ → List (ℕ × List ProtocolMessage) → List ProtocolMessage
kept_at height msgs = elim (lookup height msgs) [ none ↦ [] | some kept ↦ kept ]

-- `hotStuffBacklog.add`. For a height without an entry, it is the entry of the message's sequence number
-- that is made anew.
unfoldable pub backlog_add :
    ℕ → ProtocolMessage → List (ℕ × List ProtocolMessage) → List (ℕ × List ProtocolMessage)
unfolding kept_at
backlog_add height msg msgs = elim (lookup height msgs) [
  | some kept ↦ insert height (kept ++ msg ∷ []) msgs
  | none ↦ let made = insert msg.sn [] msgs in insert height (kept_at height made ++ msg ∷ []) made
]
