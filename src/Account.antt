-- ===== src/Account.antt =====
-- account/balance.go: the balances. The code computes with float64; here the amounts and their
-- operations are a parameter. A hash of an account is a number that names the string, and `decode` is
-- proto.Unmarshal on a payload.
pub mod Histories
mod Tests
use orthrus.Protobufs.{ClientRequest}
use orthrus.Prelude.{
  ℕ, ◌==◌, Bool, true, false, if◌then◌else◌, Option, none, some, List, [], ◌∷◌, lookup, insert,
}

pub record Amounts (A : Type 0) : Type 0 where
  pub zero : A
  pub minus_one : A
  pub add : A → A → A
  pub sub : A → A → A

pub record Transaction (A : Type 0) : Type 0 where
  pub sender_hash : ℕ
  pub receiver_hash : ℕ
  pub amount : A
  pub fee : A

module _ {A : Type 0} (amounts : Amounts A) where
  unfoldable pub update_balance : ℕ → A → List (ℕ × A) → List (ℕ × A)
  update_balance account_hash amount balance = insert account_hash amount balance

  -- -1 for an account that is not known.
  unfoldable pub get_balance : ℕ → List (ℕ × A) → A
  get_balance account_hash balance = elim (lookup account_hash balance) [
    | none ↦ amounts.minus_one
    | some b ↦ b
  ]

  -- The two halves of `transfer`, each of which does nothing where the account is not known.
  unfoldable pub withdraw : ℕ → A → List (ℕ × A) → List (ℕ × A)
  unfolding update_balance
  withdraw sender amount balance = elim (lookup sender balance) [
    | none ↦ balance
    | some b ↦ update_balance sender (amounts.sub b amount) balance
  ]

  unfoldable pub deposit : ℕ → A → List (ℕ × A) → List (ℕ × A)
  unfolding update_balance
  deposit receiver amount balance = elim (lookup receiver balance) [
    | none ↦ balance
    | some b ↦ update_balance receiver (amounts.add b amount) balance
  ]

  unfoldable pub transfer : ℕ → ℕ → A → List (ℕ × A) → List (ℕ × A)
  unfolding withdraw deposit
  transfer sender receiver amount balance = deposit receiver amount (withdraw sender amount balance)

  -- The gas fee of a contract, which is withdrawn first.
  unfoldable pub freeze_gas : A → ℕ → ℕ → List (ℕ × A) → List (ℕ × A)
  unfolding withdraw
  freeze_gas gas_fee is_contract sender balance =
      if is_contract == 1 then withdraw sender gas_fee balance else balance

  unfoldable pub commit_request :
      A → (List ℕ → Transaction A) → ClientRequest → List (ℕ × A) → List (ℕ × A)
  unfolding freeze_gas transfer
  commit_request gas_fee decode request balance =
      let tx = decode request.payload in
      transfer tx.sender_hash tx.receiver_hash (amounts.add tx.amount tx.fee)
        (freeze_gas gas_fee request.is_contract tx.sender_hash balance)

  -- `CommitEntry`.
  unfoldable pub commit_requests :
      A → (List ℕ → Transaction A) → List ClientRequest → List (ℕ × A) → List (ℕ × A)
  unfolding commit_request
  commit_requests gas_fee decode [] balance = balance
  commit_requests gas_fee decode (request ∷ rest) balance =
      commit_requests gas_fee decode rest (commit_request gas_fee decode request balance)
