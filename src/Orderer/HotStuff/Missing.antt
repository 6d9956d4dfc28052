-- ===== src/Orderer/HotStuff/Missing.antt =====
-- The entries that state transfer fetches, in `handleMissingEntry`.
use orthrus.Protobufs.{Batch}
use orthrus.Log.{Entry}
use orthrus.Request.Requests.{Requests}
use orthrus.Orderer.HotStuff.{Call, Externals, HotStuffInstance, call, write}
use orthrus.Orderer.HotStuff.Tree.{announce, stop_timer, new_batch_of}
use orthrus.Orderer.HotStuff.Loop.{handle_missing_entry, mark_missing, resurrected}
use orthrus.Prelude.{
  ℕ, ◌<◌, ◌≡◌, the_same, nothing_there, ◌∙◌, refl, ap, inl, inr, Bool, true, false, some, List, [],
  ◌∷◌, ◌++◌, Bool-cases, ==_iff, ok, Holds, ok-Holds, bind-Holds, deref-Holds, when-Holds,
  in_case-Holds, weaken-Holds, holds_of,
}
use mathlib.Core.List.{append-nil}

abbrev pub call_entries : Call → List Entry
call_entries (Call.announcer_announce entry) = entry ∷ []
call_entries c = []

-- The entries that have been given to the announcer.
abbrev pub entries : List Call → List Entry
entries [] = []
entries (c ∷ cs) = call_entries c ++ entries cs

entries-snoc :
    (c : Call) (cs : List Call) → call_entries c ≡ [] → entries (cs ++ c ∷ []) ≡ entries cs
entries-snoc c [] e = append-nil (call_entries c) ∙ e
entries-snoc c (d ∷ cs) e = ap (λ xs. call_entries d ++ xs) (entries-snoc c cs e)

not_both : {b : Bool} → b ≡ true → b ≡ false → 0 < 0
not_both e d = cc

module _ {R : Type 0} (requests : Requests R) (ext : Externals) where
  stop_timer-entries :
      (at : ℕ) (hi : HotStuffInstance R)
      → entries (stop_timer requests ext at hi).calls ≡ entries hi.calls
  unfolding stop_timer call
  stop_timer-entries at hi = elim (Bool-cases (hi.heap at).view_change_timer) [
    | inl t ↦ rw (t, stop_timer) (entries-snoc (Call.stop_timer (hi.heap at).sn) hi.calls refl)
    | inr t ↦ rw (t, stop_timer) refl
  ]

  -- A node that is marked is not announced.
  marked-announce :
      (at sn : ℕ) (batch : Batch) (digest : List ℕ) (aborted : Bool) (hi : HotStuffInstance R)
      → (hi.heap at).announced ≡ true
      → Holds
          (λ h. entries h.calls ≡ entries hi.calls)
          (announce requests ext (some at) sn batch digest aborted hi)
  unfolding announce
  marked-announce at sn batch digest aborted hi e = deref-Holds (λ a d.
      when-Holds (λ t. ok-Holds _ (stop_timer-entries a hi))
        (λ t. elim (not_both (ap (λ k. (hi.heap k).announced) (the_same d) ∙ e) t) [ ]))

  mark_missing-announced :
      (at : ℕ) (batch digest : List ℕ) (hi : HotStuffInstance R)
      → ((mark_missing requests ext at batch digest hi).heap at).announced ≡ true
  unfolding mark_missing write
  mark_missing-announced at batch digest hi = rw ((==_iff at at).1 refl) refl

  resurrected-calls :
      (at : ℕ) (hi : HotStuffInstance R)
      → Holds (λ h. h.calls ≡ hi.calls) (resurrected requests ext at hi)
  unfolding resurrected
  resurrected-calls at hi =
      in_case-Holds (λ t. ok-Holds _ refl) (λ batch t. deref-Holds (λ back e. ok-Holds _ refl))

  new_batch_of-calls :
      (batch : Batch) (hi : HotStuffInstance R)
      → Holds (λ made. made.0.calls ≡ hi.calls) (new_batch_of requests ext batch hi)
  unfolding new_batch_of
  new_batch_of-calls batch hi = deref-Holds (λ made e. ok-Holds _ refl)

  handle_missing_entry-Holds :
      (sn : ℕ) (batch : Batch) (digest : List ℕ) (aborted : Bool) (hi : HotStuffInstance R)
      → Holds
          (λ h. entries h.calls ≡ entries hi.calls)
          (handle_missing_entry requests ext sn batch digest aborted hi)
  unfolding handle_missing_entry announce mark_missing write
  handle_missing_entry-Holds sn batch digest aborted hi =
      in_case-Holds (λ t. deref-Holds (λ at e. elim (nothing_there e) [ ]))
        (λ height t. deref-Holds (λ at e.
          when-Holds (λ m. ok-Holds _ refl)
            (λ m. bind-Holds (resurrected-calls at hi) (λ back q.
              bind-Holds (new_batch_of-calls batch back) (λ made p. deref-Holds (λ objects d.
                weaken-Holds (λ h r. r ∙ ap entries (p ∙ q))
                  (marked-announce at sn batch digest aborted
                    (mark_missing requests ext at objects digest made.0)
                    (mark_missing-announced at objects digest made.0))))))))

  -- Where `handleMissingEntry` returns, it has given nothing to the announcer: an entry that the node has a
  -- height for is marked as announced before the mark is tested, and one that it has none for ends in a panic.
  pub handle_missing_entry-silent :
      (sn : ℕ) (batch : Batch) (digest : List ℕ) (aborted : Bool) (hi h : HotStuffInstance R)
      → handle_missing_entry requests ext sn batch digest aborted hi ≡ ok h
      → entries h.calls ≡ entries hi.calls
  handle_missing_entry-silent sn batch digest aborted hi h e =
      holds_of (handle_missing_entry-Holds sn batch digest aborted hi) e
