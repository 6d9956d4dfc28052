-- ===== src/Request/Batches/Messages.antt =====
-- `NewBatch` and `Message`: a batch stands for the requests of its message.
use orthrus.Protobufs.{ClientRequest, Batch}
use orthrus.Request.Bucket.{Heap}
use orthrus.Request.Digest.{request_digest}
use orthrus.Request.Batches.{
  RequestConfig, RequestStore, get_bucket, verify, add, new_request, make, add_req_msg, add_all,
  check_signatures, new_batch, messages, message,
}
use orthrus.Request.Batches.Kept.{Gives, given, Gives-weaken}
use orthrus.Prelude.{
  ℕ, ◌+◌, ◌<◌, ◌==◌, ◌≡◌, ◌∙◌, refl, sym, ap, subst, inl, inr, Bool, true, false, Option, none,
  some, List, [], ◌∷◌, arith, map, Bool-cases, Option-cases, the_same, nothing_there, ==_iff,
  if◌then◌else◌,
}
use orthrus.Request.Batches.Adding.{
  digest_of, IsSound, Grows, Grows-refl, Grows-trans, Stored, later-Stored, add-Stored,
  verify-digest, verify-msg,
}

apart : (a b : ℕ) → a < b → (a == b) ≡ false
apart a b l = ground arith

older : (a b : ℕ) → a < b + 1 → (a == b) ≡ false → a < b
older a b l e = ground arith

module _ (config : RequestConfig) where
  make-Grows :
      (req : ClientRequest) (nr : ℕ) (st : RequestStore) → Grows config st (make config req nr st)
  unfolding make
  make-Grows req nr st = record {
    fresh = omega arith;
    same_msg = λ a l.
        ap (λ t. (if t then new_request config req nr else st.heap a).msg) (apart a st.fresh l);
    same_digest = λ a l.
        ap (λ t. (if t then new_request config req nr else st.heap a).digest) (apart a st.fresh l);
  }

  made_in :
      (req : ClientRequest) (nr : ℕ) (st : RequestStore) → st.fresh < (make config req nr st).fresh
  unfolding make
  made_in req nr st = omega arith

  make-digest :
      (req : ClientRequest) (nr : ℕ) (st : RequestStore)
      → ((make config req nr st).heap st.fresh).digest ≡ (digest_of config) req
  unfolding make new_request
  make-digest req nr st =
      ap (λ t. (if t then new_request config req nr else st.heap st.fresh).digest)
        ((==_iff st.fresh st.fresh).1 refl)

  make-IsSound :
      (req : ClientRequest) (nr : ℕ) (st : RequestStore)
      → IsSound config st
      → IsSound config (make config req nr st)
  unfolding make new_request
  make-IsSound req nr st i = record {
    indexed = λ k b e. record { below = λ j s p. omega (arith, (i.indexed k b e).below j s p) };
    digested = λ a l. elim (Bool-cases (a == st.fresh)) [
      | inl e ↦ rw e refl
      | inr e ↦ rw e (i.digested a (older a st.fresh l e))
    ];
  }

  add_req_msg-Stored :
      (req : ClientRequest) (st : RequestStore)
      → IsSound config st
      → Gives (Stored config ((digest_of config) req) st) (add_req_msg config req st)
  unfolding add_req_msg
  add_req_msg-Stored req st i = elim (Option-cases (get_bucket config.num_buckets req)) [
    | inl n ↦ rw (n, add_req_msg) tt
    | inr nr ↦
        let made = make config req nr.0 st in
        rw (nr.1, add_req_msg)
          (Gives-weaken (Stored config (made.heap st.fresh).digest made)
            (Stored config ((digest_of config) req) st) (add config st.fresh made)
            (λ out o. later-Stored config _ _ (make-digest req nr.0 st) (make-Grows req nr.0 st) o)
            (add-Stored config st.fresh made (made_in req nr.0 st) (make-IsSound req nr.0 st i)))
  ]

  -- The requests of a batch have been made, and have the digests of these messages.
  abbrev Named : RequestStore → List ℕ → List ClientRequest → Type 0
  Named st [] [] = Unit
  Named st [] (req ∷ reqs) = 0 < 0
  Named st (r ∷ batch) [] = 0 < 0
  Named st (r ∷ batch) (req ∷ reqs) =
      (r < st.fresh) × ((st.heap r).digest ≡ (digest_of config) req) × Named st batch reqs

  Named-Grows :
      (st st1 : RequestStore) (batch : List ℕ) (reqs : List ClientRequest)
      → Grows config st st1
      → Named st batch reqs
      → Named st1 batch reqs
  Named-Grows st st1 [] [] g n = tt
  Named-Grows st st1 [] (req ∷ reqs) g n = n
  Named-Grows st st1 (r ∷ batch) [] g n = n
  Named-Grows st st1 (r ∷ batch) (req ∷ reqs) g n =
      (omega (arith, n.0, g.fresh), g.same_digest r n.0 ∙ n.1, Named-Grows st st1 batch reqs g n.2)

  messages-Named :
      (st : RequestStore) (batch : List ℕ) (reqs : List ClientRequest)
      → IsSound config st
      → Named st batch reqs
      → map (digest_of config) (messages st.heap batch) ≡ map (digest_of config) reqs
  unfolding messages
  messages-Named st [] [] i n = refl
  messages-Named st [] (req ∷ reqs) i n = elim n [ ]
  messages-Named st (r ∷ batch) [] i n = elim n [ ]
  messages-Named st (r ∷ batch) (req ∷ reqs) i n =
      ap (λ d. d ∷ map (digest_of config) (messages st.heap batch)) (sym (i.digested r n.0) ∙ n.1)
      ∙ ap (λ ds. (digest_of config) req ∷ ds) (messages-Named st batch reqs i n.2)

  pub record Batched (st : RequestStore) (reqs : List ClientRequest)
      (out : RequestStore × Option (List ℕ)) : Type 0 where
    pub sound : IsSound config out.0
    pub grows : Grows config st out.0
    pub named : (batch : List ℕ) → out.1 ≡ some batch → Named out.0 batch reqs

  failed :
      (st : RequestStore) (reqs : List ClientRequest) (st1 : RequestStore)
      → IsSound config st1
      → Grows config st st1
      → Batched st reqs (st1, none)
  failed st reqs st1 i g = record {
    sound = i;
    grows = g;
    named = λ b e. elim (nothing_there e) [ ];
  }

  add_all-Batched :
      (reqs : List ClientRequest) (st : RequestStore)
      → IsSound config st
      → Gives (Batched st reqs) (add_all config reqs st)
  unfolding add_all
  add_all-Batched [] st i = record {
    sound = i;
    grows = Grows-refl config st;
    named = λ b e. subst (λ x. Named st x []) (sym (the_same e)) tt;
  }
  add_all-Batched (req ∷ reqs) st i = elim (Option-cases (add_req_msg config req st)) [
    | inl n ↦ rw (n, add_all) tt
    | inr ((st1, none), e) ↦
        let o = given (Stored config ((digest_of config) req) st) (add_req_msg-Stored req st i) e in
        rw (e, add_all) (failed st (req ∷ reqs) st1 o.sound o.grows)
    | inr ((st1, some r), e) ↦
        let o = given (Stored config ((digest_of config) req) st) (add_req_msg-Stored req st i) e in
        elim (Option-cases (add_all config reqs st1)) [
          | inl n ↦ rw (e, add_all, n) tt
          | inr ((st2, none), d) ↦
              let p = given (Batched st1 reqs) (add_all-Batched reqs st1 o.sound) d in
              rw (e, add_all, d)
                (failed st (req ∷ reqs) st2 p.sound (Grows-trans config o.grows p.grows))
          | inr ((st2, some batch), d) ↦
              let p = given (Batched st1 reqs) (add_all-Batched reqs st1 o.sound) d in
              rw (e, add_all, d)
                (record {
                  sound = p.sound;
                  grows = Grows-trans config o.grows p.grows;
                  named = λ b q.
                      subst (λ x. Named st2 x (req ∷ reqs)) (sym (the_same q))
                        (
                          omega (arith, (o.stored r refl).0, p.grows.fresh),
                          p.grows.same_digest r (o.stored r refl).0 ∙ (o.stored r refl).1,
                          p.named batch refl,
                        );
                })
        ]
  ]

  -- A heap on which the requests have the messages and digests of another.
  pub record Same (h h1 : Heap) : Type 0 where
    pub same_msg : (q : ℕ) → (h1 q).msg ≡ (h q).msg
    pub same_digest : (q : ℕ) → (h1 q).digest ≡ (h q).digest

  check_signatures-Same :
      (batch : List ℕ) (h : Heap) → Gives (Same h) (check_signatures config batch h)
  unfolding check_signatures
  check_signatures-Same [] h = record { same_msg = λ q. refl; same_digest = λ q. refl }
  check_signatures-Same (r ∷ batch) h = elim (Bool-cases (h r).verified) [
    | inl t ↦ rw (t, check_signatures) (check_signatures-Same batch h)
    | inr t ↦
        elim (Bool-cases
          (config.check_sig (h r).digest (h r).msg.request_id.client_id (h r).msg.signature)) [
            | inr n ↦ rw (t, check_signatures, n) tt
            | inl v ↦
                rw (t, check_signatures, v)
                  (Gives-weaken (Same (verify config r h)) (Same h)
                    (check_signatures config batch (verify config r h))
                    (λ h1 s. record {
                      same_msg = λ q. s.same_msg q ∙ verify-msg config r q h;
                      same_digest = λ q. s.same_digest q ∙ verify-digest config r q h;
                    })
                    (check_signatures-Same batch (verify config r h)))
          ]
  ]

  checked :
      (st st1 : RequestStore) (reqs : List ClientRequest) (batch : List ℕ) (h : Heap)
      → Same st1.heap h
      → Batched st reqs (st1, some batch)
      → Batched st reqs (record st1 { heap = h }, some batch)
  checked st st1 reqs batch h s b =
      let grown : Grows config st1 (record st1 { heap = h }) = record {
        fresh = omega arith;
        same_msg = λ a l. s.same_msg a;
        same_digest = λ a l. s.same_digest a;
      } in
      record {
        sound = record {
          indexed = b.sound.indexed;
          digested = λ a l.
              s.same_digest a ∙ b.sound.digested a l ∙ ap (digest_of config) (sym (s.same_msg a));
        };
        grows = Grows-trans config b.grows grown;
        named = λ x e. Named-Grows st1 _ x reqs grown (b.named x e);
      }

  -- The check of the signatures, if there is one.
  signed :
      (sign : Bool) (st st1 : RequestStore) (reqs : List ClientRequest) (batch : List ℕ)
      → Batched st reqs (st1, some batch)
      → Gives (Batched st reqs) (
          if sign
          then elim (check_signatures config batch st1.heap) [
            | none ↦ none
            | some h ↦ some (record st1 { heap = h }, some batch)
          ]
          else some (st1, some batch))
  signed false st st1 reqs batch p = p
  signed true st st1 reqs batch p = elim (Option-cases (check_signatures config batch st1.heap)) [
    | inl n ↦ rw n tt
    | inr h ↦ rw h.1 (
        checked st st1 reqs batch h.0
          (given (Same st1.heap) (check_signatures-Same batch st1.heap) h.1) p)
  ]

  new_batch-Batched :
      (msg : Batch) (st : RequestStore)
      → IsSound config st
      → Gives (Batched st msg.requests) (new_batch config st msg)
  unfolding new_batch
  new_batch-Batched msg st i = elim (Option-cases (add_all config msg.requests st)) [
    | inl n ↦ rw (n, new_batch) tt
    | inr ((st1, none), e) ↦
        rw (e, new_batch) (given (Batched st msg.requests) (add_all-Batched msg.requests st i) e)
    | inr ((st1, some batch), e) ↦
        let p = given (Batched st msg.requests) (add_all-Batched msg.requests st i) e in
        rw (e, new_batch) (signed config.sign st st1 msg.requests batch p)
  ]

  -- In a store whose requests have the digests of their messages, and whose indexes point to them: the message
  -- of the batch that NewBatch makes of a message has requests with the same digests in the same order, even
  -- where it takes objects that were there before; and the store stays so.
  pub message-new_batch :
      (msg : Batch) (st st1 : RequestStore) (batch : List ℕ)
      → IsSound config st
      → new_batch config st msg ≡ some (st1, some batch)
      → (map (request_digest config.hash) (message st1 batch).requests
          ≡ map (request_digest config.hash) msg.requests)
        × IsSound config st1
  unfolding message
  message-new_batch msg st st1 batch i e =
      let b = given (Batched st msg.requests) (new_batch-Batched msg st i) e in
      (messages-Named st1 batch msg.requests b.sound (b.named batch refl), b.sound)
