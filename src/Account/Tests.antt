-- ===== src/Account/Tests.antt =====
-- Integers for amounts; a contract of a known account that pays an unknown one.
use mathlib.Core.Int.{ℤ, pos, negsuc, ◌+ℤ◌, ◌-ℤ◌}
use orthrus.Protobufs.{ClientRequest}
use orthrus.Prelude.{ℕ, ◌≡◌, some, lookup, List, [], ◌∷◌}
use orthrus.Account.{Amounts, Transaction, commit_requests}
use orthrus.Account.Histories.{lookup-commit_requests}

abbrev integers : Amounts ℤ
integers = record { zero = pos 0; minus_one = negsuc 0; add = λ a b. a +ℤ b; sub = λ a b. a -ℤ b }

abbrev decode : List ℕ → Transaction ℤ
decode payload = record { sender_hash = 1; receiver_hash = 2; amount = pos 3; fee = pos 1 }

abbrev contract : ClientRequest
contract = record {
  request_id = record { client_id = 0; client_sn = 0; sender_id = 1 };
  payload = [];
  payload_random = [];
  pubkey = [];
  signature = [];
  is_contract = 1;
}

lookup-commit_requests_example :
    lookup 1
      (commit_requests integers (pos 2) decode (contract ∷ []) ((1, pos 9) ∷ (3, pos 5) ∷ []))
    ≡ some (pos 3)
lookup-commit_requests_example =
    lookup-commit_requests integers 1 (pos 2) decode (contract ∷ []) ((1, pos 9) ∷ (3, pos 5) ∷ [])
