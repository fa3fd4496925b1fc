-- ===== src/Table/Lookups.antt =====
-- What a lookup through an index returns: the rows that a scan of the table selects.
use mathlib.Core.Path.{subst}
use the_city_crdb.Common.{
  ℕ, ◌≡◌, ap, Bool, none, some, List, [], ◌∷◌, arith, Text, text_eq, text_lt, text_eq_iff, ok,
  Bool-cases, Option-cases, inl, inr, ◌⊎◌, count,
}
use the_city_crdb.BTreeIndex.{BTreeIndex}
use the_city_crdb.Common.OrdMap
use the_city_crdb.Common.OrdMap.{All}
use the_city_crdb.HashIndex.{HashIndex}
use the_city_crdb.Table.{
  Table, at_name, cell, column_index, column_index_from, index_on, indexed_lookup, is_column,
  lookup_by, ordered_lookup, rows_snapshot,
}
use the_city_crdb.Table.Correct.{IsFirst, IsValid, Found-sorted}
use the_city_crdb.Table.Indexed.{Found, IndexesOk}
use the_city_crdb.Table.Contents.{HashOk, OrderedOk, matching_ids}
use the_city_crdb.Value.{
  Column, ComparisonOperator, Row, Value, equal, greater, less, value_eq, value_lt,
}
use the_city_crdb.Value.Order.{IsComparable}

-- The test that a comparison with a constant makes on a row.
abbrev pub compares : ComparisonOperator → ℕ → Value → Row → Bool
compares equal k v row = value_eq (cell row k) v
compares less k v row = value_lt (cell row k) v
compares greater k v row = value_lt v (cell row k)

-- The index chosen for a column is on that column.
index_on_lem :
    (schema : List Column) (column : Text) (cs : List (Text × ℕ)) (whole : List (Text × ℕ))
    (name : Text)
    → All (λ (e : Text × ℕ). IsFirst schema e.1) cs
    → Found whole cs
    → index_on schema column cs ≡ some name
    → (k : ℕ) × (at_name name whole ≡ ok k) × (column_index_from 0 column schema ≡ some k)
unfolding index_on is_column
index_on_lem schema column [] whole name a f e = absurd (ground arith)
index_on_lem schema column ((n, i) ∷ cs) whole name a f e =
    let (c, g, first) = a.0 in
    elim (Bool-cases (text_eq c.name column)) [
      | inl same ↦
          let q : n ≡ name = ground (arith, g, same) in
          (
            i,
            subst (λ x. at_name x whole ≡ ok i) q f.0,
            subst (λ x. column_index_from 0 x schema ≡ some i) ((text_eq_iff c.name column).0 same)
                first,
          )
      | inr other ↦ index_on_lem schema column cs whole name a.1 f.1 (ground (arith, g, other))
    ]

abbrev Held : List Row → ℕ → Text → List (Text × HashIndex) → List (Text × BTreeIndex) → Type 0
Held rows k name hs os =
    (hash : HashIndex) × (ordered : BTreeIndex) × (at_name name hs ≡ ok hash)
    × (at_name name os ≡ ok ordered)
    × HashOk rows k hash
    × OrderedOk rows k ordered

-- The three maps find a name together.
held_lem :
    (rows : List Row) (cs : List (Text × ℕ)) (hs : List (Text × HashIndex))
    (os : List (Text × BTreeIndex)) (name : Text) (k : ℕ)
    → IndexesOk rows cs hs os
    → at_name name cs ≡ ok k
    → Held rows k name hs os
unfolding at_name OrdMap.find
held_lem rows [] [] [] name k v e = absurd (ground arith)
held_lem rows ((a, c) ∷ cs) ((b, h) ∷ hs) ((d, o) ∷ os) name k v e =
    elim (Bool-cases (text_lt a name)) [
      | inl before ↦
          let (hash, ordered, p, q, w, x) =
            held_lem rows cs hs os name k v.4 (ground (arith, before)) in
          (hash, ordered, ground (arith, before, v.0, p), ground (arith, before, v.1, q), w, x)
      | inr not_before ↦ elim (Bool-cases (text_lt name a)) [
        | inl after ↦ absurd (ground (arith, not_before, after))
        | inr same ↦
            let q : c ≡ k = ground (arith, not_before, same) in
            (
              h,
              o,
              ground (arith, not_before, same, v.0),
              ground (arith, not_before, same, v.1),
              subst (λ x. HashOk rows x h) q v.2,
              subst (λ x. OrderedOk rows x o) q v.3,
            )
      ]
    ]
held_lem rows _ _ _ name k v e = elim v [ ]

-- The column of a lookup, and what its two indexes hold.
abbrev Chosen : Text → Text → Table → Type 0
Chosen column name t =
    (k : ℕ) × (column_index column t ≡ some k)
    × Held (rows_snapshot t) k name t.indexes t.ordered_indexes

chosen_lem :
    (column name : Text) (t : Table)
    → IsValid t
    → index_on t.schema column t.index_columns ≡ some name
    → Chosen column name t
unfolding column_index
chosen_lem column name t v e =
    let (k, at, c) =
      index_on_lem t.schema column t.index_columns t.index_columns name v.in_schema
        (Found-sorted t.index_columns v.sorted) e in
    (
      k,
      c,
      held_lem (rows_snapshot t) t.index_columns t.indexes t.ordered_indexes name k v.indexed at,
    )

abbrev pub Looks : Text → Value → Table → Type 0
Looks column value t =
    (indexed_lookup column value t ≡ ok none)
    ⊎ ((k : ℕ) × (column_index column t ≡ some k)
        × (indexed_lookup column value t
            ≡ ok (some (matching_ids (compares equal k value) 0 (rows_snapshot t)))))

-- On a valid table, a hash lookup says that no index is on the column, or returns exactly the ids of
-- the rows whose cell equals the value, ascending.
pub indexed_lookup-Looks :
    (column : Text) (value : Value) (t : Table) → IsValid t → Looks column value t
unfolding indexed_lookup
indexed_lookup-Looks column value t v =
    elim (Option-cases (index_on t.schema column t.index_columns)) [
      | inl n ↦ inl (ground (arith, n))
      | inr (name, e) ↦
          let (k, c, (hash, ordered, p, q, h, o)) = chosen_lem column name t v e in
          inr (k, c, ground (arith, e, p, h value))
    ]

abbrev pub LooksOrdered : Text → ComparisonOperator → Value → Table → Type 0
LooksOrdered column op value t =
    (ordered_lookup column op value t ≡ ok none)
    ⊎ ((k : ℕ) × (column_index column t ≡ some k)
        × (ids : List ℕ) × (ordered_lookup column op value t ≡ ok (some ids))
        × ((i : ℕ)
            → count i ids ≡ count i (matching_ids (compares op k value) 0 (rows_snapshot t))))

lookup_by_lem :
    (rows : List Row) (k : ℕ) (op : ComparisonOperator) (v : Value) (index : BTreeIndex)
    → OrderedOk rows k index
    → IsComparable v
    → (i : ℕ) → count i (lookup_by op v index) ≡ count i (matching_ids (compares op k v) 0 rows)
lookup_by_lem rows k equal v index o g i = ap (count i) (o.found v g)
lookup_by_lem rows k greater v index o g i = o.above v g i
lookup_by_lem rows k less v index o g i = o.below v g i

-- On a valid table and by a value that is no NaN, an ordered lookup says that no index is on the
-- column, or returns the ids of the rows that satisfy the comparison, each as often as it should.
pub ordered_lookup-LooksOrdered :
    (column : Text) (op : ComparisonOperator) (value : Value) (t : Table)
    → IsValid t
    → IsComparable value
    → LooksOrdered column op value t
unfolding ordered_lookup
ordered_lookup-LooksOrdered column op value t v g =
    elim (Option-cases (index_on t.schema column t.index_columns)) [
      | inl n ↦ inl (ground (arith, n))
      | inr (name, e) ↦
          let (k, c, (hash, ordered, p, q, h, o)) = chosen_lem column name t v e in
          inr (
            k,
            c,
            lookup_by op value ordered,
            ground (arith, e, q),
            lookup_by_lem (rows_snapshot t) k op value ordered o g,
          )
    ]
