-- ===== src/Executor/Joined.antt =====
-- The hash join pairs each row of the left table with the rows of the right table that a nested loop
-- would pair it with.
use the_city_crdb.Common.{
  ℕ, ◌≡◌, ◌∙◌, refl, sym, ap, Bool, true, false, Option, none, some, List, [], ◌∷◌, ◌++◌,
  append-nil, append_assoc, if◌then◌else◌,
}
use the_city_crdb.Common.OrdMap
use the_city_crdb.Common.OrdMap.{All, All-upsert, find-upsert, find_congr, is_same, keys}
use the_city_crdb.Executor.Join.{RowsByKey, listed, push_row, rows_at, rows_by_key}
use the_city_crdb.Table.{cell}
use the_city_crdb.Value.{Row, Value, value_lt}
use the_city_crdb.Value.Order.{IsComparable, value_lt-StrictWeak}

-- The rows whose value in a column is neither less nor greater than the key, in their order.
unfoldable pub rows_with : Value → ℕ → List Row → List Row
rows_with key column [] = []
rows_with key column (row ∷ rows) =
    let later = rows_with key column rows in
    if is_same value_lt (cell row column) key then row ∷ later else later

listed-push_row :
    (row : Row) (found : Option (List Row)) → push_row row found ≡ listed found ++ row ∷ []
listed-push_row row none = refl
listed-push_row row (some rows) = refl

kept-append :
    (b : Bool) (row : Row) (later : List Row)
    → (if b then row ∷ [] else []) ++ later ≡ (if b then row ∷ later else later)
kept-append false row later = refl
kept-append true row later = refl

listed-pushed :
    (b : Bool) (row : Row) (after at_k at_key : Option (List Row))
    → after ≡ (if b then some (push_row row at_k) else at_key)
    → (b ≡ true → at_k ≡ at_key)
    → listed after ≡ listed at_key ++ (if b then row ∷ [] else [])
listed-pushed false row after at_k at_key e h = ap listed e ∙ sym (append-nil (listed at_key))
listed-pushed true row after at_k at_key e h =
    ap listed (e ∙ ap (λ o. some (push_row row o)) (h refl)) ∙ listed-push_row row at_key

rows_at-push :
    (key : Value) (column : ℕ) (row : Row) (m : RowsByKey)
    → IsComparable key
    → IsComparable (cell row column)
    → All IsComparable (keys m)
    → rows_at key (OrdMap.upsert value_lt (cell row column) (push_row row) m)
      ≡ rows_at key m ++ (if is_same value_lt (cell row column) key then row ∷ [] else [])
rows_at-push key column row m g gr gm =
    let k = cell row column in
    listed-pushed (is_same value_lt k key) row
      (OrdMap.find value_lt key (OrdMap.upsert value_lt k (push_row row) m))
      (OrdMap.find value_lt k m) (OrdMap.find value_lt key m)
      (find-upsert value_lt value_lt-StrictWeak k key (push_row row) m gr g gm)
      (find_congr value_lt value_lt-StrictWeak k key m gr g)

rows_by_key-rows_with :
    (key : Value) (column : ℕ) (rows : List Row) (m : RowsByKey)
    → IsComparable key
    → All (λ row. IsComparable (cell row column)) rows
    → All IsComparable (keys m)
    → rows_at key (rows_by_key column rows m) ≡ rows_at key m ++ rows_with key column rows
unfolding rows_by_key rows_with
rows_by_key-rows_with key column [] m g gr gm = sym (append-nil (rows_at key m))
rows_by_key-rows_with key column (row ∷ rows) m g gr gm =
    let k = cell row column in
    let m' = OrdMap.upsert value_lt k (push_row row) m in
    let good = All-upsert value_lt value_lt-StrictWeak IsComparable k (push_row row) m gr.0 gm in
    rw
      (
        rows_by_key-rows_with key column rows m' g gr.1 good,
        rows_at-push key column row m g gr.0 gm,
      )
      (append_assoc (rows_at key m) (if is_same value_lt k key then row ∷ [] else [])
          (rows_with key column rows)
        ∙ ap (λ later. rows_at key m ++ later)
            (kept-append (is_same value_lt k key) row (rows_with key column rows)))

-- Where no value of the right table's column and not the key is a NaN, the rows of the right table
-- that the hash join finds under a key are those that a scan of the table selects, in its order.
pub rows_at-rows_by_key :
    (key : Value) (column : ℕ) (rows : List Row)
    → IsComparable key
    → All (λ row. IsComparable (cell row column)) rows
    → rows_at key (rows_by_key column rows []) ≡ rows_with key column rows
unfolding OrdMap.find
rows_at-rows_by_key key column rows g gr = rows_by_key-rows_with key column rows [] g gr tt
