-- ===== src/Tests/Values.antt =====
-- The theorems on values, versions and transactions at small examples.
use the_city_crdb.Common.{◌≡◌, refl, none, some, [], ◌∷◌, arith}
use the_city_crdb.Common.OrdMap
use the_city_crdb.Mvcc.{RowVersion, Versions, erase, read, write}
use the_city_crdb.Mvcc.Reads.{read-erase_updated}
use the_city_crdb.Tests.{row_a, row_b}
use the_city_crdb.Transaction.{
  Transaction, TransactionManager, active, begin, committed, find_transaction, new_manager,
}
use the_city_crdb.Transaction.States.{IsValid, Reach-over, Step-IsValid, begins, here, next}

abbrev version : RowVersion
version = record { created_by = 1; deleted_by = none; row = row_a }

abbrev versions : Versions
versions = (4, version ∷ []) ∷ []

read-erase_updated_example :
    read 0 9 (erase 0 3 (write 0 row_b 2 (write 0 row_a 1 []))) ≡ some row_a
read-erase_updated_example =
    read-erase_updated 0 1 2 3 9 row_a row_b [] (unfold OrdMap.find in refl) (omega arith)
      (omega arith)

-- A manager after one transaction began and was committed.
abbrev started : TransactionManager
started = record { next_id = 2; transactions = (1, record { id = 1; state = active }) ∷ [] }

abbrev finished : Transaction
finished = record { id = 1; state = committed }

abbrev over : TransactionManager
over = record { next_id = 2; transactions = (1, finished) ∷ [] }

Reach-over_example : find_transaction 1 (begin over).0 ≡ some finished
Reach-over_example =
    Reach-over 1 finished (next here begins) (unfold find_transaction OrdMap.find in refl) (λ e. cc)

new_manager-IsValid : IsValid new_manager
unfolding find_transaction OrdMap.find
new_manager-IsValid = record { held = λ k t e. absurd (ground arith) }

Step-IsValid_example : IsValid (begin new_manager).0
Step-IsValid_example = Step-IsValid begins (omega arith) new_manager-IsValid
