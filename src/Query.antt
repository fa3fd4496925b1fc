-- ===== src/Query.antt =====
-- Queries on one table: include/VertexDB/parser/ast.hpp, include/VertexDB/planner/query_planner.hpp,
-- src/planner/query_planner.cpp, and from src/execution/query_executor.cpp the evaluation of a
-- predicate, the access paths of SELECT, and the loops of UPDATE and DELETE. `std::ranges::sort` is
-- the parameter `sort`: it takes the strict order and the rows.
pub mod Selection
pub mod Scan
pub mod Conditions
pub mod Changes
pub mod Projection
use the_city_crdb.Common.{
  ℕ, zero, suc, ◌+◌, ◌-◌, ◌/◌, ◌^◌, min, max, Bool, true, false, not, ◌&&◌, ◌||◌, Option, none,
  some, List, [], ◌∷◌, Text, codes, text_eq, leb, ltb, ◌==◌, if◌then◌else◌, length, get_elem?,
  Result, ok, err, ◌>>=◌, Error, unknown_predicate_column, unknown_selected_column,
  unknown_order_by_column, unknown_update_column,
}
use the_city_crdb.Table
use the_city_crdb.Table.{
  Table, cell, column_index, has_index, has_ordered_index, indexed_lookup, ordered_lookup,
  row_count, rows_by_id, rows_by_id_at, rows_snapshot, rows_snapshot_at,
}
use the_city_crdb.Table.Mutation
use the_city_crdb.Transaction.{TransactionId}
use the_city_crdb.Value.{
  Column, ComparisonOperator, Row, RowId, Value, compare_values, equal, greater, less, value_lt,
}

pub data Predicate : Type 0 where
  comparison : (column : Text) (op : ComparisonOperator) (value : Value) → Predicate
  both either : (left right : Predicate) → Predicate

pub record OrderBy : Type 0 where
  pub column : Text
  pub ascending : Bool

pub record JoinClause : Type 0 where
  pub table : Text
  pub left_column : Text
  pub right_column : Text

pub record Select : Type 0 where
  pub table : Text
  pub join : Option JoinClause
  pub columns : List Text
  pub where_clause : Option Predicate
  pub order_by : Option OrderBy
  pub limit : Option ℕ

pub record Update : Type 0 where
  pub table : Text
  pub column : Text
  pub value : Value
  pub where_clause : Option Predicate

pub record Delete : Type 0 where
  pub table : Text
  pub where_clause : Option Predicate

pub data AccessPath : Type 0 where
  full_scan hash_index_lookup ordered_index_range : AccessPath

-- The cost is the number that the code converts to a `double`.
pub record QueryPlan : Type 0 where
  pub access_path : AccessPath
  pub predicate : Option Predicate
  pub estimated_rows : ℕ
  pub estimated_cost : ℕ
  pub explanation : Text

-- The name, the operator and the value of a plain comparison.
abbrev pub simple_comparison : Option Predicate → Option (Text × ComparisonOperator × Value)
simple_comparison (some (comparison column op value)) = some (column, op, value)
simple_comparison _ = none

abbrev is_equal : ComparisonOperator → Bool
is_equal equal = true
is_equal _ = false

abbrev is_range : ComparisonOperator → Bool
is_range greater = true
is_range less = true
is_range equal = false

unfoldable pub plan_select : Select → Table → QueryPlan
unfolding row_count has_index has_ordered_index
plan_select query t =
    let rows = row_count t in
    let plan : QueryPlan = record {
      access_path = full_scan;
      predicate = query.where_clause;
      estimated_rows = rows;
      estimated_cost = max rows 1;
      explanation = codes "full table scan";
    } in
    elim (simple_comparison query.where_clause) [
      | none ↦ plan
      | some (column, op, value) ↦
          if is_equal op && has_index column t
          then record plan {
            access_path = hash_index_lookup;
            estimated_rows = min rows 1;
            estimated_cost = 1;
            explanation = codes "hash index equality lookup";
          }
          else if is_range op && has_ordered_index column t
          then record plan {
            access_path = ordered_index_range;
            estimated_rows = max (rows / 3) 1;
            estimated_cost = max (rows / 3) 1;
            explanation = codes "ordered index range lookup";
          }
          else plan
    ]

-- `&&` and `||` do not look at the right side when the left one settles the test.
unfoldable pub matches : Row → Table → Predicate → Result Bool
matches row t (comparison column op value) = elim (column_index column t) [
  | none ↦ err unknown_predicate_column
  | some i ↦ ok (compare_values (cell row i) op value)
]
matches row t (both left right) =
    let later = matches row t right in matches row t left >>= λ b. if b then later else ok false
matches row t (either left right) =
    let later = matches row t right in matches row t left >>= λ b. if b then ok true else later

-- `!where || matches(row, table, *where)`
unfoldable pub selected : Row → Table → Option Predicate → Result Bool
unfolding matches
selected row t none = ok true
selected row t (some p) = matches row t p

unfoldable pub read_version : Option TransactionId → Option TransactionId
read_version none = none
read_version (some id) = some (2 ^ 64 - 1)

unfoldable pub rows_snapshot_for_read : Option TransactionId → Table → List Row
unfolding read_version rows_snapshot rows_snapshot_at
rows_snapshot_for_read active t = elim (read_version active) [
  | none ↦ rows_snapshot t
  | some version ↦ rows_snapshot_at version t
]

unfoldable pub rows_by_id_for_read : Option TransactionId → List RowId → Table → List Row
unfolding read_version rows_by_id rows_by_id_at
rows_by_id_for_read active row_ids t = elim (read_version active) [
  | none ↦ rows_by_id row_ids t
  | some version ↦ rows_by_id_at row_ids version t
]

-- The loop of a full scan.
unfoldable pub scan : Option Predicate → Table → List Row → Result (List Row)
unfolding selected
scan p t [] = ok []
scan p t (row ∷ rows) =
    let later = scan p t rows in
    selected row t p >>= λ b. later >>= λ found. ok (if b then row ∷ found else found)

-- The rows behind an index, or those of a full scan where the lookup has none.
abbrev through_index :
    Option TransactionId
    → Table
    → Result (Option (List RowId))
    → Result (List Row)
    → Result (List Row)
through_index active t lookup scanned = lookup >>= λ result. elim result [
  | none ↦ scanned
  | some row_ids ↦ ok (rows_by_id_for_read active row_ids t)
]

unfoldable pub collect_rows : Option TransactionId → Select → Table → Result (List Row)
unfolding plan_select rows_snapshot_for_read rows_by_id_for_read scan indexed_lookup ordered_lookup
collect_rows active query t =
    let plan = plan_select query t in
    let scanned = scan query.where_clause t (rows_snapshot_for_read active t) in
    elim (simple_comparison query.where_clause) [
      | none ↦ scanned
      | some (column, op, value) ↦ elim plan.access_path [
        | full_scan ↦ scanned
        | hash_index_lookup ↦ through_index active t (indexed_lookup column value t) scanned
        | ordered_index_range ↦ through_index active t (ordered_lookup column op value t) scanned
      ]
    ]

-- The loop of UPDATE over the rows of the snapshot, from a row on. What it did to the table stays
-- where it throws.
unfoldable pub update_rows :
    Option Predicate → ℕ → Value → RowId → List Row → ℕ → Table → Table × Result ℕ
unfolding selected Mutation.update
update_rows p target value row_id [] count t = (t, ok count)
update_rows p target value row_id (row ∷ rows) count t =
    let passed_over = update_rows p target value (suc row_id) rows count t in
    elim (selected row t p) [
      | err e ↦ (t, err e)
      | ok false ↦ passed_over
      | ok true ↦ elim (Mutation.update row_id target value t) [
        | err e ↦ (t, err e)
        | ok (t', done) ↦
            update_rows p target value (suc row_id) rows (if done then count + 1 else count) t'
      ]
    ]

unfoldable pub execute_update : Update → Table → Table × Result ℕ
unfolding update_rows
execute_update command t = elim (column_index command.column t) [
  | none ↦ (t, err unknown_update_column)
  | some target ↦ update_rows command.where_clause target command.value 0 (rows_snapshot t) 0 t
]

-- The loop of DELETE, from the last row of the snapshot to the first.
unfoldable pub delete_rows : Option Predicate → ℕ → List Row → ℕ → Table → Table × Result ℕ
unfolding selected Mutation.erase
delete_rows p zero snapshot count t = (t, ok count)
delete_rows p (suc actual) snapshot count t =
    let row : Row = elim (get_elem? snapshot actual) [ none ↦ [] | some found ↦ found ] in
    let passed_over = delete_rows p actual snapshot count t in
    elim (selected row t p) [
      | err e ↦ (t, err e)
      | ok false ↦ passed_over
      | ok true ↦ elim (Mutation.erase actual t) [
        | err e ↦ (t, err e)
        | ok (t', done) ↦ delete_rows p actual snapshot (if done then count + 1 else count) t'
      ]
    ]

unfoldable pub execute_delete : Delete → Table → Table × Result ℕ
unfolding delete_rows
execute_delete command t =
    let rows = rows_snapshot t in delete_rows command.where_clause (length rows) rows 0 t

-- `resolveProjection`: the positions of the columns and their names.
abbrev all_columns : List Column → ℕ → List ℕ × List Text
all_columns [] i = ([], [])
all_columns (c ∷ schema) i =
    let (is, names) = all_columns schema (suc i) in (i ∷ is, c.name ∷ names)

unfoldable pub resolve_columns : List Text → Table → Result (List ℕ × List Text)
unfolding column_index
resolve_columns [] t = ok ([], [])
resolve_columns (column ∷ columns) t =
    let later = resolve_columns columns t in
    elim (column_index column t) [
      | none ↦ err unknown_selected_column
      | some i ↦ later >>= λ r. ok (i ∷ r.0, column ∷ r.1)
    ]

abbrev pub is_star : List Text → Bool
is_star (column ∷ []) = text_eq column (codes "*")
is_star _ = false

unfoldable pub resolve_projection : List Text → Table → Result (List ℕ × List Text)
unfolding resolve_columns
resolve_projection columns t =
    if is_star columns then ok (all_columns t.schema 0) else resolve_columns columns t

abbrev pub project : List ℕ → Row → Row
project [] row = []
project (i ∷ is) row = cell row i ∷ project is row

-- The loop over the result: it stops when `limit` rows are in it, and tests after it adds one.
unfoldable pub project_rows : List ℕ → Option ℕ → ℕ → List Row → List Row
project_rows projection limit count [] = []
project_rows projection limit count (row ∷ rows) =
    let later = project_rows projection limit (suc count) rows in
    project projection row
    ∷ elim limit [ none ↦ later | some n ↦ if leb n (suc count) then [] else later ]

abbrev pub order : OrderBy → ℕ → Row → Row → Bool
order by i left right =
    if by.ascending
    then value_lt (cell left i) (cell right i)
    else value_lt (cell right i) (cell left i)

abbrev pub sort_rows :
    ((Row → Row → Bool) → List Row → List Row)
    → Option OrderBy
    → Table
    → List Row
    → Result (List Row)
sort_rows sort none t rows = ok rows
sort_rows sort (some by) t rows = elim (column_index by.column t) [
  | none ↦ err unknown_order_by_column
  | some i ↦ ok (sort (order by i) rows)
]

-- `executeSelect` without a join: the names of the columns and the rows.
unfoldable pub execute_select :
    ((Row → Row → Bool) → List Row → List Row)
    → Option TransactionId
    → Select
    → Table
    → Result (List Text × List Row)
unfolding resolve_projection collect_rows project_rows
execute_select sort active command t = resolve_projection command.columns t >>= λ p.
    collect_rows active command t >>= λ rows. sort_rows sort command.order_by t rows >>= λ sorted.
    ok (p.1, project_rows p.0 command.limit 0 sorted)
