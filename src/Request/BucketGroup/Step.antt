-- ===== src/Request/BucketGroup/Step.antt =====
-- One `RemoveFirst` for a batch, counted.
use mathlib.Core.Path.{fun_ext}
use orthrus.Prelude.{
  ◌∙◌, ap, ℕ, zero, suc, ◌+◌, ◌≡◌, ◌≤◌, ◌<◌, refl, Bool, some, List, [], ◌∷◌, ◌++◌, arith, count,
  count-append, length-append, length, count_if, count_if-append,
}
use orthrus.Protobufs.{ClientRequest}
use orthrus.Request.Bucket.{Request, Heap, Bucket}
use orthrus.Request.Bucket.Queue.{IsQueue, SameBut}
use orthrus.Request.Bucket.Cutting.{remove_first}
use orthrus.Request.Bucket.Cutting.Chain.{Holds}
use orthrus.Request.Bucket.Cutting.Front.{taken, passed, left, count-taken, remove_first_lem}

length-taken-le : (v : ℕ → Bool) (n : ℕ) (xs : List ℕ) → length (taken v n xs) ≤ n
length-taken-le v zero xs = omega arith
length-taken-le v (suc n) [] = omega arith
length-taken-le v (suc n) (x ∷ xs) =
    ground (arith, length-taken-le v n xs, length-taken-le v (suc n) xs)

length-taken :
    (v : ℕ → Bool) (n : ℕ) (xs : List ℕ)
    → length (taken v n xs) + (count_if v (passed v n xs) + count_if v (left v n xs))
      ≡ count_if v xs
length-taken v zero xs = omega arith
length-taken v (suc n) [] = omega arith
length-taken v (suc n) (x ∷ xs) = ground (arith, length-taken v n xs, length-taken v (suc n) xs)

taken_short :
    (v : ℕ → Bool) (n : ℕ) (xs : List ℕ)
    → length (taken v n xs) < n
    → count_if v (passed v n xs) + count_if v (left v n xs) ≡ 0
taken_short v zero xs h = absurd (omega arith)
taken_short v (suc n) [] h = refl
taken_short v (suc n) (x ∷ xs) h = ground (arith, taken_short v n xs, taken_short v (suc n) xs)

-- A step of a loop over buckets.
pub record Stepped (valid : ClientRequest → Bool) (v : ℕ → Bool) (n : ℕ) (dest : List ℕ) (h : Heap)
    (b : Bucket) (xs : List ℕ) : Type 0 where
  pub heap : Heap
  pub bucket : Bucket
  pub requests : List ℕ
  pub queue : List ℕ
  pub runs : remove_first valid n dest h b ≡ some ((heap, bucket), requests)
  pub holds : IsQueue heap bucket queue
  pub same : SameBut b.id h heap
  pub id : bucket.id ≡ b.id
  pub valid_now : (r : ℕ) → valid (heap r).msg ≡ v r
  pub counts : (a : ℕ) → count a queue + count a requests ≡ count a xs + count a dest
  pub sums : count_if v queue + length requests ≡ count_if v xs + length dest
  pub grows : length dest ≤ length requests
  pub bound : length requests ≤ length dest + n
  pub short : length requests < length dest + n → count_if v queue ≡ 0

remove_first_as :
    (valid : ClientRequest → Bool) (v : ℕ → Bool) (n : ℕ) (dest : List ℕ) (h : Heap) (b : Bucket)
    (xs : List ℕ)
    → ((r : ℕ) → valid (h r).msg ≡ v r)
    → IsQueue h b xs
    → (p : Heap × Bucket) × (remove_first valid n dest h b ≡ some (p, dest ++ taken v n xs))
      × Holds h b p (passed v n xs ++ left v n xs)
remove_first_as valid v n dest h b xs e q =
    rw (fun_ext e) at (remove_first_lem valid n dest h b xs q)

pub remove_first-Stepped :
    (valid : ClientRequest → Bool) (v : ℕ → Bool) (n : ℕ) (dest : List ℕ) (h : Heap) (b : Bucket)
    (xs : List ℕ)
    → ((r : ℕ) → valid (h r).msg ≡ v r)
    → IsQueue h b xs
    → Stepped valid v n dest h b xs
remove_first-Stepped valid v n dest h b xs e q =
    let (p, runs, holds) = remove_first_as valid v n dest h b xs e q in
    record {
      heap = p.0;
      bucket = p.1;
      requests = dest ++ taken v n xs;
      queue = passed v n xs ++ left v n xs;
      runs = runs;
      holds = holds.queue;
      same = holds.same;
      id = holds.id;
      valid_now = λ r. ap (λ (q : Request). valid q.msg) (holds.same.core r) ∙ e r;
      counts = λ a. omega (
        arith,
        count-append a dest (taken v n xs),
        count-append a (passed v n xs) (left v n xs),
        count-taken v n xs a,
      );
      sums = omega (
        arith,
        count_if-append v (passed v n xs) (left v n xs),
        length-append dest (taken v n xs),
        length-taken v n xs,
      );
      grows = omega (arith, length-append dest (taken v n xs));
      bound = omega (arith, length-append dest (taken v n xs), length-taken-le v n xs);
      short = λ k.
          let few : length (taken v n xs) < n = omega (arith, length-append dest (taken v n xs)) in
          omega (arith, count_if-append v (passed v n xs) (left v n xs), taken_short v n xs few);
    }
