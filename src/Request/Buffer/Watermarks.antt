-- ===== src/Request/Buffer/Watermarks.antt =====
-- The watermark stops at the first client sequence number that is not committed, and forgets none.
use orthrus.Prelude.{
  ℕ, zero, suc, ◌+◌, ◌≡◌, ◌≤◌, ◌<◌, refl, inl, inr, Bool, true, false, if◌then◌else◌, ◌==◌, ◌&&◌,
  ◌||◌, List, [], ◌∷◌, arith, insert, delete, lookup-insert, lookup-delete, length, add32,
  add32_small, ◌∙◌, half, ltb, Bool-cases,
}
use orthrus.Protobufs.{ClientRequest, Batch}
use orthrus.Request.Buffer.{
  Buffer, mark_requests, mark_committed, is_marked, advance_loop, advance_watermarks,
}

-- A client sequence number counts as committed below the watermark, or when it is marked.
abbrev pub is_committed : Buffer → ℕ → Bool
is_committed b sn = ltb sn b.low_watermark || is_marked sn b.requests_committed

-- Whether a request of a client stands in a list, or in the batches.
abbrev pub requested : ℕ → ℕ → List ClientRequest → Bool
requested client_id sn [] = false
requested client_id sn (req ∷ rest) =
    (req.request_id.client_id == client_id && req.request_id.client_sn == sn)
    || requested client_id sn rest

abbrev pub delivered : ℕ → ℕ → List Batch → Bool
delivered client_id sn [] = false
delivered client_id sn (batch ∷ rest) =
    requested client_id sn batch.requests || delivered client_id sn rest

is_marked-insert :
    (k sn : ℕ) (m : List (ℕ × Bool))
    → is_marked sn (insert k true m) ≡ (if k == sn then true else is_marked sn m)
unfolding is_marked
is_marked-insert k sn m = ground (arith, lookup-insert k sn true m)

is_marked-delete :
    (k sn : ℕ) (m : List (ℕ × Bool))
    → is_marked sn (delete k m) ≡ (if k == sn then false else is_marked sn m)
unfolding is_marked
is_marked-delete k sn m = ground (arith, lookup-delete k sn m)

is_marked-mark_requests :
    (client_id sn : ℕ) (reqs : List ClientRequest) (m : List (ℕ × Bool))
    → is_marked sn (mark_requests client_id reqs m)
      ≡ (requested client_id sn reqs || is_marked sn m)
unfolding mark_requests
is_marked-mark_requests client_id sn [] m = refl
is_marked-mark_requests client_id sn (req ∷ rest) m =
    elim (Bool-cases (req.request_id.client_id == client_id)) [
      | inl q ↦
          rw (q, mark_requests)
            (ground (
              arith,
              is_marked-mark_requests client_id sn rest (insert req.request_id.client_sn true m),
              is_marked-insert req.request_id.client_sn sn m,
            ))
      | inr q ↦ rw (q, mark_requests) (ground (arith, is_marked-mark_requests client_id sn rest m))
    ]

is_marked-mark_committed :
    (client_id sn : ℕ) (batches : List Batch) (m : List (ℕ × Bool))
    → is_marked sn (mark_committed client_id batches m)
      ≡ (delivered client_id sn batches || is_marked sn m)
unfolding mark_committed
is_marked-mark_committed client_id sn [] m = refl
is_marked-mark_committed client_id sn (batch ∷ rest) m = ground (
  arith,
  is_marked-mark_committed client_id sn rest (mark_requests client_id batch.requests m),
  is_marked-mark_requests client_id sn batch.requests m,
)

length-delete : (k : ℕ) (m : List (ℕ × Bool)) → length (delete k m) ≤ length m
length-delete k [] = omega arith
length-delete k ((j, v) ∷ m) = ground (arith, length-delete k m)

length-delete_marked :
    (k : ℕ) (m : List (ℕ × Bool)) → is_marked k m ≡ true → length (delete k m) < length m
unfolding is_marked
length-delete_marked k [] h = absurd (cc)
length-delete_marked k ((j, v) ∷ m) h = ground (arith, length-delete k m, length-delete_marked k m)

-- One round of the loop.
abbrev next : Buffer → Buffer
next b = record b {
  requests_committed = delete b.low_watermark b.requests_committed;
  low_watermark = add32 b.low_watermark 1;
}

next_low : (b : Buffer) → b.low_watermark < half → (next b).low_watermark ≡ b.low_watermark + 1
next_low b h = omega (arith, add32_small b.low_watermark 1 (omega arith))

is_committed-next :
    (b : Buffer) (sn : ℕ)
    → b.low_watermark < half
    → is_marked b.low_watermark b.requests_committed ≡ true
    → is_committed (next b) sn ≡ is_committed b sn
is_committed-next b sn small h =
    ground (arith, next_low b small, is_marked-delete b.low_watermark sn b.requests_committed)

advance_loop-stops :
    (fuel : ℕ) (b : Buffer)
    → length b.requests_committed < fuel
    → b.low_watermark + length b.requests_committed < half
    → (is_marked (advance_loop fuel b).low_watermark (advance_loop fuel b).requests_committed
        ≡ false)
      × (b.low_watermark ≤ (advance_loop fuel b).low_watermark)
      × ((sn : ℕ) → is_committed (advance_loop fuel b) sn ≡ is_committed b sn)
unfolding advance_loop
advance_loop-stops zero b f s = absurd (omega arith)
advance_loop-stops (suc fuel) b f s =
    elim (Bool-cases (is_marked b.low_watermark b.requests_committed)) [
      | inr e ↦ rw (e, advance_loop) (e, omega arith, λ sn. refl)
      | inl e ↦
          let shorter = length-delete_marked b.low_watermark b.requests_committed e in
          let low = next_low b (omega arith) in
          let (stop, up, same) =
            advance_loop-stops fuel (next b) (omega (arith, shorter))
              (omega (arith, shorter, low)) in
          rw (e, advance_loop)
            (stop, omega (arith, up, low), λ sn. same sn ∙ is_committed-next b sn (omega arith) e)
    ]

-- AdvanceWatermarks, while the numbers stay within int32: the client sequence numbers that count as
-- committed afterwards are those from before and those of this client's requests in the batches; the
-- watermark does not go down and stands at one that is not committed; the old watermark is returned.
pub advance_watermarks_lem :
    (b : Buffer) (entries : List Batch)
    → b.low_watermark + length (mark_committed b.client_id entries b.requests_committed) < half
    → ((sn : ℕ)
        → is_committed (advance_watermarks b entries).0 sn
          ≡ (is_committed b sn || delivered b.client_id sn entries))
      × (is_committed
            (advance_watermarks b entries).0
            (advance_watermarks b entries).0.low_watermark
          ≡ false)
      × (b.low_watermark ≤ (advance_watermarks b entries).0.low_watermark)
      × ((advance_watermarks b entries).1 ≡ b.low_watermark)
unfolding advance_watermarks
advance_watermarks_lem b entries s =
    let m = mark_committed b.client_id entries b.requests_committed in
    let (stop, up, same) =
      advance_loop-stops (suc (length m)) (record b { requests_committed = m }) (omega arith) s in
    (
      λ sn.
          ground
            (arith, same sn, is_marked-mark_committed b.client_id sn entries b.requests_committed),
      ground (arith, stop),
      up,
      refl,
    )
