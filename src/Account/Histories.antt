-- ===== src/Account/Histories.antt =====
-- account/balance.go, one account at a time: what CommitEntry does to it, whatever the amounts are.
use orthrus.Protobufs.{ClientRequest}
use orthrus.Prelude.{
  ℕ, ◌==◌, ◌≡◌, ◌∙◌, refl, sym, ap, subst, inl, inr, Bool, true, false, if◌then◌else◌, Option, none,
  some, List, [], ◌∷◌, lookup, lookup-insert, ==_iff, Bool-cases, Option-cases,
}
use orthrus.Account.{
  Amounts, Transaction, update_balance, withdraw, deposit, transfer, freeze_gas, commit_request,
  commit_requests,
}

-- A change of the balance of an account that is known.
abbrev pub change : {A : Type 0} → (A → A) → Option A → Option A
change f none = none
change f (some a) = some (f a)

change-change :
    {A : Type 0} (f g : A → A) (o : Option A) → change g (change f o) ≡ change (λ a. g (f a)) o
change-change f g none = refl
change-change f g (some a) = refl

change_same : {A : Type 0} (o : Option A) → change (λ a. a) o ≡ o
change_same none = refl
change_same (some a) = refl

change_if :
    {A : Type 0} (test : Bool) (f : A → A) (b : A) (o : Option A)
    → (test ≡ true → o ≡ some b)
    → (if test then some (f b) else o) ≡ change (λ a. if test then f a else a) o
change_if true f b o h = rw (h refl) refl
change_if false f b o h = sym (change_same o)

change_unknown :
    {A : Type 0} (test : Bool) (f : A → A) (o : Option A)
    → (test ≡ true → o ≡ none)
    → o ≡ change (λ a. if test then f a else a) o
change_unknown true f o h = rw (h refl) refl
change_unknown false f o h = sym (change_same o)

module _ {A : Type 0} (amounts : Amounts A) (account : ℕ) where
  abbrev pub less : ℕ → A → A → A
  less sender amount b = if sender == account then amounts.sub b amount else b

  abbrev pub more : ℕ → A → A → A
  more receiver amount b = if receiver == account then amounts.add b amount else b

  -- The balance of the account after a request: less the gas fee of a contract and then less the cost, where it
  -- is the sender, and then more by the cost, where it is the receiver.
  abbrev pub after_request : A → (List ℕ → Transaction A) → ClientRequest → A → A
  after_request gas_fee decode request b =
      let tx = decode request.payload in
      let cost = amounts.add tx.amount tx.fee in
      more tx.receiver_hash cost (
        less tx.sender_hash cost
          (if request.is_contract == 1 then less tx.sender_hash gas_fee b else b))

  abbrev pub after_requests : A → (List ℕ → Transaction A) → List ClientRequest → A → A
  after_requests gas_fee decode [] b = b
  after_requests gas_fee decode (request ∷ rest) b =
      after_requests gas_fee decode rest (after_request gas_fee decode request b)

  known_here :
      {o : Option A} (k : ℕ) (m : List (ℕ × A))
      → lookup k m ≡ o
      → (k == account) ≡ true
      → lookup account m ≡ o
  known_here {o} k m h e = subst (λ j. lookup j m ≡ o) ((==_iff k account).0 e) h

  lookup-withdraw :
      (k : ℕ) (x : A) (m : List (ℕ × A))
      → lookup account (withdraw amounts k x m) ≡ change (less k x) (lookup account m)
  unfolding withdraw update_balance
  lookup-withdraw k x m = elim (Option-cases (lookup k m)) [
    | inl e ↦
        rw (e, withdraw)
          (change_unknown (k == account) (λ b. amounts.sub b x) (lookup account m)
            (known_here k m e))
    | inr (b, e) ↦
        rw (e, withdraw)
          (lookup-insert k account (amounts.sub b x) m
            ∙ change_if (k == account) (λ c. amounts.sub c x) b (lookup account m)
                (known_here k m e))
  ]

  lookup-deposit :
      (k : ℕ) (x : A) (m : List (ℕ × A))
      → lookup account (deposit amounts k x m) ≡ change (more k x) (lookup account m)
  unfolding deposit update_balance
  lookup-deposit k x m = elim (Option-cases (lookup k m)) [
    | inl e ↦
        rw (e, deposit)
          (change_unknown (k == account) (λ b. amounts.add b x) (lookup account m)
            (known_here k m e))
    | inr (b, e) ↦
        rw (e, deposit)
          (lookup-insert k account (amounts.add b x) m
            ∙ change_if (k == account) (λ c. amounts.add c x) b (lookup account m)
                (known_here k m e))
  ]

  lookup-freeze_gas :
      (gas_fee : A) (is_contract k : ℕ) (m : List (ℕ × A))
      → lookup account (freeze_gas amounts gas_fee is_contract k m)
        ≡ change (λ b. if is_contract == 1 then less k gas_fee b else b) (lookup account m)
  unfolding freeze_gas
  lookup-freeze_gas gas_fee is_contract k m = elim (Bool-cases (is_contract == 1)) [
    | inl e ↦ rw (e, freeze_gas) (lookup-withdraw k gas_fee m)
    | inr e ↦ rw (e, freeze_gas) (sym (change_same (lookup account m)))
  ]

  lookup-commit_request :
      (gas_fee : A) (decode : List ℕ → Transaction A) (request : ClientRequest) (m : List (ℕ × A))
      → lookup account (commit_request amounts gas_fee decode request m)
        ≡ change (after_request gas_fee decode request) (lookup account m)
  unfolding commit_request transfer
  lookup-commit_request gas_fee decode request m =
      let tx = decode request.payload in
      let x = amounts.add tx.amount tx.fee in
      let frozen = freeze_gas amounts gas_fee request.is_contract tx.sender_hash m in
      lookup-deposit tx.receiver_hash x (withdraw amounts tx.sender_hash x frozen)
      ∙ ap (change (more tx.receiver_hash x)) (
          lookup-withdraw tx.sender_hash x frozen
          ∙ ap (change (less tx.sender_hash x))
              (lookup-freeze_gas gas_fee request.is_contract tx.sender_hash m))
      ∙ ap (change (more tx.receiver_hash x))
          (change-change _ (less tx.sender_hash x) (lookup account m))
      ∙ change-change _ (more tx.receiver_hash x) (lookup account m)

  -- Whatever the amounts and their operations are: after CommitEntry, an account that was not known is not
  -- known; and one that was has the balance that the requests give it one after another, each by the gas
  -- fee of a contract and the cost that are taken from the sender in this order, and the cost that is then
  -- given to the receiver, also where both are this account. No other account matters to it.
  pub lookup-commit_requests :
      (gas_fee : A) (decode : List ℕ → Transaction A) (requests : List ClientRequest)
      (balance : List (ℕ × A))
      → lookup account (commit_requests amounts gas_fee decode requests balance)
        ≡ change (after_requests gas_fee decode requests) (lookup account balance)
  unfolding commit_requests
  lookup-commit_requests gas_fee decode [] balance = sym (change_same (lookup account balance))
  lookup-commit_requests gas_fee decode (request ∷ rest) balance =
      lookup-commit_requests gas_fee decode rest
        (commit_request amounts gas_fee decode request balance)
      ∙ ap (change (after_requests gas_fee decode rest))
          (lookup-commit_request gas_fee decode request balance)
      ∙ change-change (after_request gas_fee decode request) (after_requests gas_fee decode rest)
          (lookup account balance)
