-- ===== src/HashIndex/Lookup.antt =====
-- What the hash index finds after an insertion and a removal.
use the_city_crdb.Common.{
  ℕ, ◌≡◌, refl, true, false, List, [], ◌∷◌, ◌++◌, arith, if◌then◌else◌, Bool-cases, inl, inr, ◌≢◌,
}
use the_city_crdb.Common.OrdMap.{All, keys}
use the_city_crdb.Value.{Value, value_eq}
use the_city_crdb.Value.Order.{value_eq_symm, value_eq_trans}
use the_city_crdb.HashIndex.{HashIndex, insert, remove, find, erase_id, keep_entry}

-- No two entries have equal keys, and none is without rows.
abbrev pub IsValid : HashIndex → Type 0
IsValid [] = Unit {0}
IsValid ((k, ids) ∷ entries) =
    All (λ j. value_eq k j ≡ false) (keys entries) × (ids ≢ []) × IsValid entries

-- A lookup in the hash index after an insertion: the new row behind those found before, under an
-- equal key; what it was, under any other.
pub find-insert_hash :
    (k q : Value) (id : ℕ) (m : HashIndex)
    → find q (insert k id m) ≡ (if value_eq k q then find q m ++ id ∷ [] else find q m)
unfolding find insert
find-insert_hash k q id [] = ground arith
find-insert_hash k q id ((j, ids) ∷ m) = ground (
  arith,
  find-insert_hash k q id m,
  value_eq_symm j k,
  value_eq_trans j k q,
  value_eq_trans k j q,
  value_eq_symm k q,
  value_eq_trans j q k,
)

All-insert :
    (j k : Value) (id : ℕ) (m : HashIndex)
    → value_eq j k ≡ false
    → All (λ i. value_eq j i ≡ false) (keys m)
    → All (λ i. value_eq j i ≡ false) (keys (insert k id m))
unfolding insert
All-insert j k id [] h a = (h, tt)
All-insert j k id ((i, ids) ∷ m) h a = ground (arith, All-insert j k id m h a.1)

All-remove :
    (j k : Value) (id : ℕ) (m : HashIndex)
    → All (λ i. value_eq j i ≡ false) (keys m)
    → All (λ i. value_eq j i ≡ false) (keys (remove k id m))
unfolding remove
All-remove j k id [] a = tt
All-remove j k id ((i, ids) ∷ m) a = ground (arith, All-remove j k id m a.1)

append-ne-nil : (ids : List ℕ) (id : ℕ) → ids ++ id ∷ [] ≢ []
append-ne-nil [] id = λ e. cc
append-ne-nil (i ∷ ids) id = λ e. cc

pub insert-IsValid : (k : Value) (id : ℕ) (m : HashIndex) → IsValid m → IsValid (insert k id m)
unfolding insert
insert-IsValid k id [] v = (tt, (λ e. cc), tt)
insert-IsValid k id ((j, ids) ∷ m) v = elim (Bool-cases (value_eq j k)) [
  | inl e ↦ rw e (v.0, append-ne-nil ids id, v.2)
  | inr e ↦ rw e (All-insert j k id m e v.0, v.1, insert-IsValid k id m v.2)
]

keep_entry-IsValid :
    (k : Value) (ids : List ℕ) (m : HashIndex)
    → All (λ j. value_eq k j ≡ false) (keys m)
    → IsValid m
    → IsValid (keep_entry k ids m)
unfolding keep_entry
keep_entry-IsValid k [] m a v = v
keep_entry-IsValid k (i ∷ ids) m a v = (a, (λ e. cc), v)

pub remove-IsValid : (k : Value) (id : ℕ) (m : HashIndex) → IsValid m → IsValid (remove k id m)
unfolding remove
remove-IsValid k id [] v = tt
remove-IsValid k id ((j, ids) ∷ m) v = elim (Bool-cases (value_eq j k)) [
  | inl e ↦ rw e (keep_entry-IsValid j (erase_id id ids) m v.0 v.2)
  | inr e ↦ rw e (All-remove j k id m v.0, v.1, remove-IsValid k id m v.2)
]

-- Nothing is found under a key that no entry has.
find_absent :
    (j q : Value) (m : HashIndex)
    → value_eq j q ≡ true
    → All (λ i. value_eq j i ≡ false) (keys m)
    → find q m ≡ []
unfolding find
find_absent j q [] e a = refl
find_absent j q ((i, ids) ∷ m) e a =
    ground (arith, find_absent j q m e a.1, value_eq_symm i q, value_eq_trans j q i)

find-keep_entry :
    (j q : Value) (ids : List ℕ) (m : HashIndex)
    → All (λ i. value_eq j i ≡ false) (keys m)
    → find q (keep_entry j ids m) ≡ (if value_eq j q then ids else find q m)
unfolding find keep_entry
find-keep_entry j q [] m a = ground (arith, find_absent j q m)
find-keep_entry j q (i ∷ ids) m a = refl

-- A lookup in a valid hash index after a removal: without the removed row, under an equal key; what
-- it was, under any other.
pub find-remove_hash :
    (k q : Value) (id : ℕ) (m : HashIndex)
    → IsValid m
    → find q (remove k id m) ≡ (if value_eq k q then erase_id id (find q m) else find q m)
unfolding find remove erase_id
find-remove_hash k q id [] v = ground arith
find-remove_hash k q id ((j, ids) ∷ m) v = ground (
  arith,
  find-remove_hash k q id m v.2,
  find_absent j q m,
  value_eq_symm j k,
  value_eq_trans j k q,
  value_eq_trans k j q,
  value_eq_symm k q,
  value_eq_trans j q k,
  find-keep_entry j q (erase_id id ids) m v.0,
)
