-- ===== src/Table/Created.antt =====
-- Creating an index.
use mathlib.Core.Path.{subst, subst₂}
use the_city_crdb.Common.{
  ℕ, suc, append_assoc, append-nil, ◌+◌, ◌≡◌, ◌∙◌, refl, sym, ap, Bool, true, false, none, some,
  List, [], ◌∷◌, ◌++◌, arith, Text, text_eq, text_lt, text_eq_iff, length, get_elem?, ok,
  Bool-cases, Option-cases, inl, inr, length-append, ◌⊎◌, ◌≢◌,
}
use the_city_crdb.BTreeIndex
use the_city_crdb.BTreeIndex.Updates
use the_city_crdb.Common.OrdMap
use the_city_crdb.Common.OrdMap.{All, IsSorted}
use the_city_crdb.HashIndex
use the_city_crdb.HashIndex.{HashIndex}
use the_city_crdb.BTreeIndex.{BTreeIndex}
use the_city_crdb.RowStore
use the_city_crdb.RowStore.Refinement
use the_city_crdb.RowStore.Vector
use the_city_crdb.RowStore.{PageRowStore}
use the_city_crdb.Table.{cell, column_index, column_index_from, Table, rows_snapshot, at_name}
use the_city_crdb.Table.Indexing.{validate_row}
use the_city_crdb.Table.Indexed.{IndexesOk, get_behind}
use the_city_crdb.Table.Contents.{
  HashOk, OrderedOk, matching_ids, empty-OrderedOk, insert-HashOk, insert-OrderedOk,
}
use the_city_crdb.Table.Mutation.{create_index, index_rows, keep_or, empty_btree}
use the_city_crdb.Value.{Row, Column}
use the_city_crdb.Value.Order.{IsComparable}
use the_city_crdb.Table.Correct.{IsFirst, IsValid}

-- The loop of `createIndex` over the rows behind the first ones.
abbrev Both : List Row → ℕ → HashIndex × BTreeIndex → Type 0
Both rows column ix = HashOk rows column ix.0 × OrderedOk rows column ix.1

index_rows_step :
    (rounds column row_id : ℕ) (store : PageRowStore) (hash : HashIndex) (ordered : BTreeIndex)
    (row : Row)
    → RowStore.get row_id store ≡ some row
    → index_rows (suc rounds) column row_id store (hash, ordered)
      ≡ index_rows rounds column (suc row_id) store (
        HashIndex.insert (cell row column) row_id hash,
        BTreeIndex.insert (cell row column) row_id ordered,
      )
unfolding index_rows
index_rows_step rounds column row_id store hash ordered row g = ground (arith, g)

index_rows_lem :
    (done rest : List Row) (column : ℕ) (store : PageRowStore) (ix : HashIndex × BTreeIndex)
    → Refinement.IsValid store
    → RowStore.snapshot store ≡ done ++ rest
    → All (All IsComparable) rest
    → Both done column ix
    → Both (done ++ rest) column (index_rows (length rest) column (length done) store ix)
unfolding index_rows
index_rows_lem done [] column store (hash, ordered) s e a b = rw (append-nil done) b
index_rows_lem done (row ∷ rest) column store (hash, ordered) s e a b =
    let split : (done ++ row ∷ []) ++ rest ≡ done ++ row ∷ rest =
      append_assoc done (row ∷ []) rest in
    let g : RowStore.get (length done) store ≡ some row =
      Refinement.get-snapshot (length done) store s
      ∙ ap (Vector.get (length done)) e
      ∙ get_behind done rest row in
    let n : length (done ++ row ∷ []) ≡ suc (length done) =
      omega (arith, length-append done (row ∷ [])) in
    let next : HashIndex × BTreeIndex = (
      HashIndex.insert (cell row column) (length done) hash,
      BTreeIndex.insert (cell row column) (length done) ordered,
    ) in
    let w =
      index_rows_lem (done ++ row ∷ []) rest column store next s (e ∙ sym split) a.1
        (insert-HashOk done row column hash b.0, insert-OrderedOk done row column a.0 b.1) in
    subst (Both (done ++ row ∷ rest) column)
      (sym (index_rows_step (length rest) column (length done) store hash ordered row g))
      (subst (λ k. Both (done ++ row ∷ rest) column (index_rows (length rest) column k store next))
        n
        (subst
          (λ r.
            Both r column (index_rows (length rest) column (length (done ++ row ∷ [])) store next))
          split w))

upsert-IndexesOk :
    (rows : List Row) (name : Text) (column : ℕ) (hash : HashIndex) (ordered : BTreeIndex)
    (cs : List (Text × ℕ)) (hs : List (Text × HashIndex)) (os : List (Text × BTreeIndex))
    → HashOk rows column hash
    → OrderedOk rows column ordered
    → OrdMap.find text_lt name hs ≡ none
    → IndexesOk rows cs hs os
    → IndexesOk rows
        (OrdMap.upsert text_lt name (keep_or column) cs)
        (OrdMap.upsert text_lt name (λ _. hash) hs)
        (OrdMap.upsert text_lt name (λ _. ordered) os)
unfolding OrdMap.upsert OrdMap.find
upsert-IndexesOk rows name column hash ordered [] [] [] h o e v = (refl, refl, h, o, tt)
upsert-IndexesOk rows name column hash ordered ((a, c) ∷ cs) ((b, h') ∷ hs) ((d, o') ∷ os) h o e v =
    subst₂
      (λ x y.
        IndexesOk rows (OrdMap.upsert text_lt name (keep_or column) ((a, c) ∷ cs))
          (OrdMap.upsert text_lt name (λ _. hash) ((x, h') ∷ hs))
          (OrdMap.upsert text_lt name (λ _. ordered) ((y, o') ∷ os)))
      v.0 v.1
      (elim (Bool-cases (text_lt a name)) [
        | inl before ↦ rw before (
          refl,
          refl,
          v.2,
          v.3,
          upsert-IndexesOk rows name column hash ordered cs hs os h o (ground (arith, before, v.0))
              v.4,
        )
        | inr not_before ↦ elim (Bool-cases (text_lt name a)) [
          | inl after ↦ rw (not_before, after) (refl, refl, h, o, (refl, refl, v.2, v.3, v.4))
          | inr same ↦ absurd (ground (arith, not_before, same, v.0))
        ]
      ])
upsert-IndexesOk rows name column hash ordered _ _ _ h o e v = elim v [ ]

-- A column found by name is the first of its name.
column_index-IsFirst :
    (i : ℕ) (k : ℕ) (column : Text) (schema : List Column)
    → column_index_from i column schema ≡ some k
    → (c : Column) × (j : ℕ) × (k ≡ i + j) × (get_elem? schema j ≡ some c) × (c.name ≡ column)
unfolding column_index_from
column_index-IsFirst i k column [] e = absurd (ground arith)
column_index-IsFirst i k column (c ∷ schema) e = elim (Bool-cases (text_eq c.name column)) [
  | inl same ↦ (c, 0, ground arith, refl, (text_eq_iff c.name column).0 same)
  | inr other ↦
      let (d, j, p, q, r) = column_index-IsFirst (suc i) k column schema (ground (arith, other)) in
      (d, suc j, omega arith, q, r)
]

found_IsFirst :
    (k : ℕ) (column : Text) (schema : List Column)
    → column_index_from 0 column schema ≡ some k
    → IsFirst schema k
found_IsFirst k column schema e =
    let (c, j, p, q, r) = column_index-IsFirst 0 k column schema e in
    (
      c,
      subst (λ x. get_elem? schema x ≡ some c) (let z : j ≡ k = omega arith in z) q,
      subst (λ x. column_index_from 0 x schema ≡ some k) (sym r) e,
    )

-- What the creation of an index that is not there does.
abbrev pub Creates : Text → ℕ → Table → Table × Bool → Type 0
Creates name column t r =
    (r.1 ≡ true)
    × IsValid r.0
    × (rows_snapshot r.0 ≡ rows_snapshot t)
    × (r.0.schema ≡ t.schema)
    × (at_name name r.0.index_columns ≡ ok column)

All-upsert_new :
    (P : Text × ℕ → Type 0) (name : Text) (column : ℕ) (cs : List (Text × ℕ))
    → All P cs
    → P (name, column)
    → OrdMap.find text_lt name cs ≡ none
    → All P (OrdMap.upsert text_lt name (keep_or column) cs)
unfolding OrdMap.upsert OrdMap.find
All-upsert_new P name column [] a p e = (p, tt)
All-upsert_new P name column ((n, c) ∷ cs) a p e = elim (Bool-cases (text_lt n name)) [
  | inl before ↦ rw before (a.0, All-upsert_new P name column cs a.1 p (ground (arith, before)))
  | inr not_before ↦ elim (Bool-cases (text_lt name n)) [
    | inl after ↦ rw (not_before, after) (p, a)
    | inr same ↦ absurd (ground (arith, not_before, same))
  ]
]

-- No column is kept under a name that no index has.
same_names :
    (rows : List Row) (name : Text) (cs : List (Text × ℕ)) (hs : List (Text × HashIndex))
    (os : List (Text × BTreeIndex))
    → IndexesOk rows cs hs os
    → OrdMap.find text_lt name hs ≡ none
    → OrdMap.find text_lt name cs ≡ none
unfolding OrdMap.find
same_names rows name [] [] [] v e = refl
same_names rows name ((a, c) ∷ cs) ((b, h) ∷ hs) ((d, o) ∷ os) v e =
    ground (arith, v.0, same_names rows name cs hs os v.4)
same_names rows name _ _ _ v e = elim v [ ]

columns-upsert :
    (name : Text) (column : ℕ) (cs : List (Text × ℕ))
    → OrdMap.find text_lt name cs ≡ none
    → at_name name (OrdMap.upsert text_lt name (keep_or column) cs) ≡ ok column
unfolding at_name OrdMap.upsert OrdMap.find
columns-upsert name column [] e = ground (arith, OrdMap.text_lt-StrictWeak.irrefl name)
columns-upsert name column ((n, c) ∷ cs) e =
    ground (arith, columns-upsert name column cs, OrdMap.text_lt-StrictWeak.irrefl name)

empty_ordered : (column : ℕ) → OrderedOk [] column empty_btree
unfolding BTreeIndex.rebuild_layout
empty_ordered column =
    let (v, e) =
      Updates.new_index-IsValid 64 {t = empty_btree} (unfold BTreeIndex.new_index in refl) in
    empty-OrderedOk column v e

-- Creating an index of a new name on a column of the schema of a valid table returns true, puts the
-- name on that column, keeps the rows and the schema, and leaves a valid table, whose new index
-- holds all rows.
pub create_index-Creates :
    (name column : Text) (k : ℕ) (t : Table)
    → IsValid t
    → column_index column t ≡ some k
    → OrdMap.find text_lt name t.indexes ≡ none
    → Creates name k t (create_index name column t)
unfolding create_index rows_snapshot column_index validate_row
create_index-Creates name column k t v c e =
    let rows = RowStore.snapshot t.row_store in
    let (h, o) =
      index_rows_lem [] rows k t.row_store ([], empty_btree) v.store refl v.comparable
        ((unfold HashIndex.find matching_ids in λ q. refl), empty_ordered k) in
    let e' = same_names rows name t.index_columns t.indexes t.ordered_indexes v.indexed e in
    let (hash, ordered) = index_rows (length rows) k 0 t.row_store ([], empty_btree) in
    let t' : Table = record t {
      index_columns = OrdMap.upsert text_lt name (keep_or k) t.index_columns;
      indexes = OrdMap.upsert text_lt name (λ _. hash) t.indexes;
      ordered_indexes = OrdMap.upsert text_lt name (λ _. ordered) t.ordered_indexes;
    } in
    let r : create_index name column t ≡ (t', true) =
      ground (arith, c, e, Refinement.size-snapshot t.row_store v.store) in
    let w : IsValid t' = record {
      store = v.store;
      fits = v.fits;
      comparable = v.comparable;
      sorted =
          OrdMap.upsert-IsSorted text_lt OrdMap.text_lt-StrictWeak name (keep_or k) t.index_columns
            v.sorted;
      in_schema =
          All-upsert_new (λ (x : Text × ℕ). IsFirst t.schema x.1) name k t.index_columns v.in_schema
            (found_IsFirst k column t.schema c) e';
      indexed =
          upsert-IndexesOk rows name k hash ordered t.index_columns t.indexes t.ordered_indexes h o
            e v.indexed;
    } in
    subst (Creates name k t) (sym r) (refl, w, refl, refl, columns-upsert name k t.index_columns e')

-- Creating an index on an unknown column, or of a name that is taken, changes nothing and returns
-- false.
pub create_index-refused :
    (name column : Text) (t : Table)
    → (column_index column t ≡ none) ⊎ (OrdMap.find text_lt name t.indexes ≢ none)
    → create_index name column t ≡ (t, false)
unfolding create_index
create_index-refused name column t (inl n) = ground (arith, n)
create_index-refused name column t (inr n) = elim (Option-cases (column_index column t)) [
  | inl none_there ↦ ground (arith, none_there)
  | inr (k, e) ↦ elim (Option-cases (OrdMap.find text_lt name t.indexes)) [
    | inl m ↦ absurd (n m)
    | inr (h, m) ↦ ground (arith, e, m)
  ]
]
