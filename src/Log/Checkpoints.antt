-- ===== src/Log/Checkpoints.antt =====
-- log/log.go: the stable checkpoint and its subscribers, both under `checkpointLock`.
use orthrus.Prelude.{
  ℕ, ◌≡◌, Bool, true, false, if◌then◌else◌, Option, none, some, List, [], ◌∷◌, ◌++◌, arith, lt32,
  All, refl,
}

pub record StableCheckpoint : Type 0 where
  pub sn : ℕ
  pub proof : List (ℕ × List ℕ)

pub record Checkpoints : Type 0 where
  pub checkpoint : Option StableCheckpoint
  pub subscribers : List (List StableCheckpoint)

push_all : StableCheckpoint → List (List StableCheckpoint) → List (List StableCheckpoint)
push_all c [] = []
push_all c (ch ∷ chs) = (ch ++ c ∷ []) ∷ push_all c chs

-- `checkpoint == nil || c.Sn > checkpoint.Sn`
unfoldable pub is_newer : Option StableCheckpoint → StableCheckpoint → Bool
is_newer none c = true
is_newer (some old) c = lt32 old.sn c.sn

unfoldable pub commit_checkpoint : Checkpoints → StableCheckpoint → Checkpoints
unfolding is_newer push_all
commit_checkpoint s c = record {
  checkpoint = if is_newer s.checkpoint c then some c else s.checkpoint;
  subscribers = push_all c s.subscribers;
}

unfoldable pub get_checkpoint : Checkpoints → Option StableCheckpoint
get_checkpoint s = s.checkpoint

pub checkpoints : Checkpoints → Checkpoints
checkpoints s = record s { subscribers = s.subscribers ++ [] ∷ [] }

unfoldable pub commit_all : Checkpoints → List StableCheckpoint → Checkpoints
unfolding commit_checkpoint
commit_all s [] = s
commit_all s (c ∷ cs) = commit_all (commit_checkpoint s c) cs

-- The order of optional checkpoints: none is the lowest.
abbrev pub AtMost : Option StableCheckpoint → Option StableCheckpoint → Type 0
AtMost none d = Unit {0}
AtMost (some c) none = ⊥
AtMost (some c) (some d) = lt32 d.sn c.sn ≡ false

AtMost-trans : (a b c : Option StableCheckpoint) → AtMost a b → AtMost b c → AtMost a c
unfolding lt32
AtMost-trans none b c p q = tt
AtMost-trans (some a) none c p q = elim p [ ]
AtMost-trans (some a) (some b) none p q = elim q [ ]
AtMost-trans (some a) (some b) (some c) p q = ground arith

AtMost-refl : (a : Option StableCheckpoint) → AtMost a a
unfolding lt32
AtMost-refl none = tt
AtMost-refl (some a) = ground arith

newer-AtMost :
    (o : Option StableCheckpoint) (c : StableCheckpoint)
    → AtMost o (if is_newer o c then some c else o)
      × AtMost (some c) (if is_newer o c then some c else o)
unfolding is_newer
newer-AtMost none c = (tt, AtMost-refl (some c))
newer-AtMost (some old) c = newer (lt32 old.sn c.sn) refl
  where
    newer :
        (b : Bool)
        → lt32 old.sn c.sn ≡ b
        → AtMost (some old) (if b then some c else some old)
          × AtMost (some c) (if b then some c else some old)
    newer true e = unfold lt32 in (ground arith, ground arith)
    newer false e = unfold lt32 in (ground arith, ground arith)

commit_checkpoint-AtMost :
    (s : Checkpoints) (c : StableCheckpoint)
    → AtMost s.checkpoint (commit_checkpoint s c).checkpoint
      × AtMost (some c) (commit_checkpoint s c).checkpoint
unfolding commit_checkpoint
commit_checkpoint-AtMost s c = newer-AtMost s.checkpoint c

-- Whatever the order in which checkpoints are committed, the stable checkpoint that is kept is at
-- least as high as the one before and as every one committed.
pub commit_all-AtMost :
    (s : Checkpoints) (cs : List StableCheckpoint)
    → AtMost s.checkpoint (get_checkpoint (commit_all s cs))
      × All (λ c. AtMost (some c) (get_checkpoint (commit_all s cs))) cs
unfolding commit_all get_checkpoint
commit_all-AtMost s [] = (AtMost-refl s.checkpoint, tt)
commit_all-AtMost s (c ∷ cs) =
    let (up, all) = commit_all-AtMost (commit_checkpoint s c) cs in
    let (before, here) = commit_checkpoint-AtMost s c in
    let last = get_checkpoint (commit_all (commit_checkpoint s c) cs) in
    let middle = (commit_checkpoint s c).checkpoint in
    (
      AtMost-trans s.checkpoint middle last before up,
      (AtMost-trans (some c) middle last here up, all),
    )
