-- ===== src/Executor/Join.antt =====
-- SELECT with a join: resolveResultColumn, resolveTableColumn and executeJoinSelect of
-- src/execution/query_executor.cpp.
use the_city_crdb.Common.{
  ℕ, suc, Bool, true, false, Option, none, some, List, [], ◌∷◌, ◌++◌, map, Text, text_eq,
  if◌then◌else◌, get_elem?, Result, ok, err, ◌>>=◌, ambiguous_column, unknown_join_column,
  unknown_selected_column, unknown_predicate_column, unknown_order_by_column,
}
use the_city_crdb.Common.OrdMap
use the_city_crdb.Query.{
  JoinClause, OrderBy, Predicate, Select, both, comparison, either, is_star, order, project_rows,
  rows_snapshot_for_read,
}
use the_city_crdb.Table.{Table, cell, column_index}
use the_city_crdb.Transaction.{TransactionId}
use the_city_crdb.Value.{Column, Row, Value, compare_values, value_lt}

-- The first column with this name, from a position on.
unfoldable pub exact_column : List Text → Text → ℕ → Option ℕ
exact_column [] requested i = none
exact_column (column ∷ columns) requested i =
    let later = exact_column columns requested (suc i) in
    if text_eq column requested then some i else later

-- `text.size() >= suffix.size()`, and the end of the text is the suffix.
unfoldable pub ends_with : Text → Text → Bool
ends_with suffix [] = text_eq suffix []
ends_with suffix (ch ∷ text) =
    let later = ends_with suffix text in if text_eq suffix (ch ∷ text) then true else later

-- The loop over the columns that end so; a second one is ambiguous.
unfoldable pub suffix_column : List Text → Text → ℕ → Option ℕ → Result (Option ℕ)
suffix_column [] suffix i found = ok found
suffix_column (column ∷ columns) suffix i found =
    let passed_over = suffix_column columns suffix (suc i) found in
    let taken = suffix_column columns suffix (suc i) (some i) in
    if ends_with suffix column
    then elim found [ some _ ↦ err ambiguous_column | none ↦ taken ]
    else passed_over

unfoldable pub resolve_result_column : List Text → Text → Result (Option ℕ)
unfolding exact_column suffix_column ends_with
resolve_result_column columns requested = elim (exact_column columns requested 0) [
  | some i ↦ ok (some i)
  | none ↦ suffix_column columns (b'.' ∷ requested) 0 none
]

-- `starts_with`, and what follows.
unfoldable pub without_prefix : Text → Text → Option Text
without_prefix [] text = some text
without_prefix (p ∷ prefix) [] = none
without_prefix (p ∷ prefix) (ch ∷ text) =
    let rest = without_prefix prefix text in if text_eq (p ∷ []) (ch ∷ []) then rest else none

unfoldable pub resolve_table_column : Table → Text → Text → Option ℕ
unfolding without_prefix
resolve_table_column t table_name requested =
    elim (without_prefix (table_name ++ b'.' ∷ []) requested) [
      | none ↦ column_index requested t
      | some column ↦ column_index column t
    ]

abbrev pub joined_columns : Text → Table → List Text
joined_columns table t = map (λ (c : Column). table ++ b'.' ∷ c.name) t.schema

abbrev pub positions : ℕ → List Text → List ℕ
positions i [] = []
positions i (column ∷ columns) = i ∷ positions (suc i) columns

-- The columns of the result, where they are no `*`.
unfoldable pub resolve_joined : List Text → List Text → Result (List ℕ × List Text)
resolve_joined columns [] = ok ([], [])
resolve_joined columns (requested ∷ more) =
    let later = resolve_joined columns more in
    resolve_result_column columns requested >>= λ found. elim found [
      | none ↦ err unknown_selected_column
      | some i ↦ later >>= λ r.
          ok (i ∷ r.0, (elim (get_elem? columns i) [ none ↦ [] | some name ↦ name ]) ∷ r.1)
    ]

-- `rightRowsByKey[row[column]].push_back(row)` for each row.
abbrev pub RowsByKey : Type 0
RowsByKey = List (Value × List Row)

abbrev pub push_row : Row → Option (List Row) → List Row
push_row row none = row ∷ []
push_row row (some rows) = rows ++ row ∷ []

unfoldable pub rows_by_key : ℕ → List Row → RowsByKey → RowsByKey
rows_by_key column [] m = m
rows_by_key column (row ∷ rows) m =
    rows_by_key column rows (OrdMap.upsert value_lt (cell row column) (push_row row) m)

-- The rows of the right table under a key.
abbrev pub listed : Option (List Row) → List Row
listed none = []
listed (some rows) = rows

abbrev pub rows_at : Value → RowsByKey → List Row
rows_at key m = listed (OrdMap.find value_lt key m)

-- `&&` and `||` do not look at the right side when the left one settles the test.
unfoldable pub matches_joined : List Text → Row → Predicate → Result Bool
matches_joined columns row (comparison column op value) =
    resolve_result_column columns column >>= λ found. elim found [
      | none ↦ err unknown_predicate_column
      | some i ↦ ok (compare_values (cell row i) op value)
    ]
matches_joined columns row (both left right) =
    let later = matches_joined columns row right in
    matches_joined columns row left >>= λ b. if b then later else ok false
matches_joined columns row (either left right) =
    let later = matches_joined columns row right in
    matches_joined columns row left >>= λ b. if b then ok true else later

abbrev pub joined_selected : List Text → Row → Option Predicate → Result Bool
joined_selected columns row none = ok true
joined_selected columns row (some p) = matches_joined columns row p

-- The joined rows of one row of the left table.
unfoldable pub join_row : List Text → Option Predicate → Row → List Row → Result (List Row)
join_row columns p left [] = ok []
join_row columns p left (right ∷ rights) =
    let later = join_row columns p left rights in
    joined_selected columns (left ++ right) p >>= λ b.
    later >>= λ rows. ok (if b then (left ++ right) ∷ rows else rows)

unfoldable pub join_rows :
    List Text → Option Predicate → ℕ → RowsByKey → List Row → Result (List Row)
join_rows columns p column m [] = ok []
join_rows columns p column m (left ∷ lefts) =
    let later = join_rows columns p column m lefts in
    join_row columns p left (rows_at (cell left column) m) >>= λ rows.
    later >>= λ more. ok (rows ++ more)

abbrev pub sort_joined :
    ((Row → Row → Bool) → List Row → List Row)
    → Option OrderBy
    → List Text
    → List Row
    → Result (List Row)
sort_joined sort none columns rows = ok rows
sort_joined sort (some by) columns rows = resolve_result_column columns by.column >>= λ found.
    elim found [ none ↦ err unknown_order_by_column | some i ↦ ok (sort (order by i) rows) ]

abbrev pub join_columns : Select → JoinClause → Table → Table → Result (ℕ × ℕ)
join_columns command join left right =
    elim (resolve_table_column left command.table join.left_column) [
      | none ↦ err unknown_join_column
      | some i ↦ elim (resolve_table_column right join.table join.right_column) [
        | none ↦ err unknown_join_column
        | some j ↦ ok (i, j)
      ]
    ]

-- The names of the columns and the rows.
unfoldable pub execute_join_select :
    ((Row → Row → Bool) → List Row → List Row)
    → Option TransactionId
    → Select
    → JoinClause
    → Table
    → Table
    → Result (List Text × List Row)
execute_join_select sort active command join left right =
    join_columns command join left right >>= λ at_columns.
    let columns = joined_columns command.table left ++ joined_columns join.table right in
    (if is_star command.columns
      then ok (positions 0 columns, columns)
      else resolve_joined columns command.columns)
    >>= λ p.
        let by_key = rows_by_key at_columns.1 (rows_snapshot_for_read active right) [] in
        join_rows columns command.where_clause at_columns.0 by_key
          (rows_snapshot_for_read active left)
        >>= λ joined. sort_joined sort command.order_by columns joined >>= λ sorted.
            ok (p.1, project_rows p.0 command.limit 0 sorted)
