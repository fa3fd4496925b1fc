-- ===== src/Transaction/States.antt =====
-- The life of a transaction: a fresh identifier, one commit or rollback, and then no change.
use the_city_crdb.Common.{
  ℕ, ◌+◌, ◌^◌, ◌<◌, ◌≡◌, ◌≢◌, Option-cases, none, inl, inr, some, ok, arith, ltb, ◌==◌,
  if◌then◌else◌,
}
use mathlib.Core.Option
use mathlib.Core.Path.{subst, sym, refl}
use mathlib.Core.Bool.{true}
use the_city_crdb.Common.OrdMap.{find, find-upsert_ℕ}
use the_city_crdb.Transaction.{
  Transaction, TransactionState, TransactionManager, emplace, active, committed, rolled_back, begin,
  commit, rollback, find_transaction, set_state, is_active,
}

-- Every transaction that is held has the key that it is held under, and was given out before.
pub record IsValid (m : TransactionManager) : Type 0 where
  pub held :
      (k : ℕ) (t : Transaction) → find_transaction k m ≡ some t → (t.id ≡ k) × (k < m.next_id)

-- One operation, as the executor calls them.
pub data Step (m : TransactionManager) : TransactionManager → Type 0 where
  begins : Step m (begin m).0
  commits : {m' : TransactionManager} (id : ℕ) → commit id m ≡ ok m' → Step m m'
  rolls_back : {m' : TransactionManager} (id : ℕ) → rollback id m ≡ ok m' → Step m m'

pub data Reach (m : TransactionManager) : TransactionManager → Type 0 where
  here : Reach m m
  next : {m' m'' : TransactionManager} → Reach m m' → Step m' m'' → Reach m m''

abbrev IsDone : TransactionState → TransactionManager → TransactionManager → ℕ → Type 0
IsDone s m m' id =
    (t : Transaction) × (find_transaction id m ≡ some t)
    × (t.state ≡ active)
    × (m'.next_id ≡ m.next_id)
    × ((q : ℕ)
        → find_transaction q m'
          ≡ (if id == q then some (record t { state = s }) else find_transaction q m))

module _ (m : TransactionManager) where
  -- An identifier that is about to be given out is held by no transaction.
  find-next_id : IsValid m → find_transaction m.next_id m ≡ none
  find-next_id v = elim (Option-cases (find_transaction m.next_id m)) [
    | inl e ↦ e
    | inr (t, e) ↦ absurd (omega (arith, v.held m.next_id t e))
  ]

  -- What a lookup finds after each operation.
  find-begin :
      (q : ℕ)
      → find_transaction q (begin m).0 ≡ (
          if m.next_id == q
          then some (
              Option.get_or
                (find_transaction m.next_id m)
                (record { id = m.next_id; state = active }))
          else find_transaction q m)
  unfolding find_transaction begin
  find-begin q = ground (
    arith,
    find-upsert_ℕ m.next_id q (emplace (record { id = m.next_id; state = active })) m.transactions,
  )

  find-set_state :
      (s : TransactionState) (id : ℕ)
      → is_active (find_transaction id m) ≡ true
      → IsDone s m (set_state s id m) id
  unfolding find_transaction set_state
  find-set_state s id e = elim (Option-cases (find ltb id m.transactions)) [
    | inl p ↦ absurd (ground arith)
    | inr (t, p) ↦ (
      t,
      p,
      ground arith,
      ground arith,
      λ q. ground (arith, find-upsert_ℕ id q (λ _. record t { state = s }) m.transactions),
    )
  ]

  commit-inv :
      {m' : TransactionManager} (id : ℕ)
      → commit id m ≡ ok m'
      → (is_active (find_transaction id m) ≡ true) × (set_state committed id m ≡ m')
  unfolding commit find_transaction
  commit-inv id e = ground arith

  rollback-inv :
      {m' : TransactionManager} (id : ℕ)
      → rollback id m ≡ ok m'
      → (is_active (find_transaction id m) ≡ true) × (set_state rolled_back id m ≡ m')
  unfolding rollback find_transaction
  rollback-inv id e = ground arith

-- Either a new transaction was begun, or one that was active is over.
data Effect (m m' : TransactionManager) : Type 0 where
  begun : m' ≡ (begin m).0 → Effect m m'
  over : (s : TransactionState) (id : ℕ) → IsDone s m m' id → s ≢ active → Effect m m'

effect : {m m' : TransactionManager} → Step m m' → Effect m m'
effect begins = begun refl
effect {m} (commits id e) =
    let (a, p) = commit-inv m id e in
    over committed id (subst (λ x. IsDone committed m x id) p (find-set_state m committed id a))
      (λ q. cc)
effect {m} (rolls_back id e) =
    let (a, p) = rollback-inv m id e in
    over rolled_back id
      (subst (λ x. IsDone rolled_back m x id) p (find-set_state m rolled_back id a)) (λ q. cc)

Effect-over :
    {m m' : TransactionManager} (k : ℕ) (t : Transaction)
    → Effect m m'
    → find_transaction k m ≡ some t
    → t.state ≢ active
    → find_transaction k m' ≡ some t
Effect-over {m} k t (begun e) f n = ground (arith, find-begin m k)
Effect-over {m} k t (over s id (u, g, a, x, h) ns) f n = ground (arith, h k)

-- A transaction that is committed or rolled back stays as it is, whatever the manager begins, commits
-- and rolls back later.
pub Reach-over :
    {m m' : TransactionManager} (k : ℕ) (t : Transaction)
    → Reach m m'
    → find_transaction k m ≡ some t
    → t.state ≢ active
    → find_transaction k m' ≡ some t
Reach-over k t here f n = f
Reach-over k t (next r st) f n = Effect-over k t (effect st) (Reach-over k t r f n) n

next_id-begin :
    (m : TransactionManager) → m.next_id + 1 < 2 ^ 64 → (begin m).0.next_id ≡ m.next_id + 1
unfolding begin
next_id-begin m h = omega arith

begin-IsValid : (m : TransactionManager) → m.next_id + 1 < 2 ^ 64 → IsValid m → IsValid (begin m).0
begin-IsValid m h v = record {
  held = λ k t f. ground (arith, find-begin m k, v.held k t, next_id-begin m h, find-next_id m v);
}

over-IsValid :
    {m m' : TransactionManager} (s : TransactionState) (id : ℕ)
    → IsDone s m m' id
    → IsValid m
    → IsValid m'
over-IsValid s id (u, g, a, x, h) v = record {
  held = λ k t f. ground (arith, h k, v.held k t, v.held id u);
}

Effect-IsValid :
    {m m' : TransactionManager} → Effect m m' → m.next_id + 1 < 2 ^ 64 → IsValid m → IsValid m'
Effect-IsValid {m} (begun e) h v = subst IsValid (sym e) (begin-IsValid m h v)
Effect-IsValid (over s id d n) h v = over-IsValid s id d v

-- Each operation keeps the manager valid while the counter of identifiers does not wrap.
pub Step-IsValid :
    {m m' : TransactionManager} → Step m m' → m.next_id + 1 < 2 ^ 64 → IsValid m → IsValid m'
Step-IsValid st h v = Effect-IsValid (effect st) h v

-- A transaction just begun can be rolled back.
pub begin-rollback :
    (m : TransactionManager)
    → IsValid m
    → (m' : TransactionManager) × (rollback (begin m).1.id (begin m).0 ≡ ok m')
unfolding rollback find_transaction
begin-rollback m v =
    let begun = (begin m).0 in
    let same : (begin m).1.id ≡ m.next_id = unfold begin in refl in
    let held : is_active (find_transaction m.next_id begun) ≡ true =
      ground (arith, find-begin m m.next_id, find-next_id m v) in
    (set_state rolled_back m.next_id begun, ground (arith, held, same))
