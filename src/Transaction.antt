-- ===== src/Transaction.antt =====
-- The transaction manager: include/VertexDB/transaction/transaction_manager.hpp and
-- src/transaction/transaction_manager.cpp. Identifiers are uint64 and wrap.
pub mod States
use the_city_crdb.Common.{
  ℕ, ◌+◌, ◌%◌, ◌^◌, Bool, true, false, Option, none, some, List, ◌∷◌, Result, ok, err, ltb,
  if◌then◌else◌, cannot_commit_inactive, cannot_roll_back_inactive, [],
}
use the_city_crdb.Common.OrdMap.{find, upsert}

abbrev pub TransactionId : Type 0
TransactionId = ℕ

pub data TransactionState : Type 0 where
  active committed rolled_back : TransactionState

pub record Transaction : Type 0 where
  pub id : TransactionId
  pub state : TransactionState

pub record TransactionManager : Type 0 where
  pub next_id : TransactionId
  pub transactions : List (TransactionId × Transaction)

abbrev pub new_manager : TransactionManager
new_manager = record { next_id = 1; transactions = [] }

-- `emplace` keeps the value of a key that is there.
emplace : Transaction → Option Transaction → Transaction
emplace t none = t
emplace t (some old) = old

unfoldable pub begin : TransactionManager → TransactionManager × Transaction
unfolding emplace
begin m =
    let transaction : Transaction = record { id = m.next_id; state = active } in
    (
      record {
        next_id = (m.next_id + 1) % 2 ^ 64;
        transactions = upsert ltb transaction.id (emplace transaction) m.transactions;
      },
      transaction,
    )

abbrev is_state_active : TransactionState → Bool
is_state_active active = true
is_state_active _ = false

abbrev is_active : Option Transaction → Bool
is_active none = false
is_active (some t) = is_state_active t.state

-- `it->second.state = s`
set_state : TransactionState → TransactionId → TransactionManager → TransactionManager
set_state s id m = elim (find ltb id m.transactions) [
  | none ↦ m
  | some t ↦ record m { transactions = upsert ltb id (λ _. record t { state = s }) m.transactions }
]

unfoldable pub commit : TransactionId → TransactionManager → Result TransactionManager
unfolding set_state
commit id m =
    if is_active (find ltb id m.transactions)
    then ok (set_state committed id m)
    else err cannot_commit_inactive

unfoldable pub rollback : TransactionId → TransactionManager → Result TransactionManager
unfolding set_state
rollback id m =
    if is_active (find ltb id m.transactions)
    then ok (set_state rolled_back id m)
    else err cannot_roll_back_inactive

unfoldable pub find_transaction : TransactionId → TransactionManager → Option Transaction
find_transaction id m = find ltb id m.transactions
