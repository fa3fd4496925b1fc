-- ===== src/Table/Indexed.antt =====
-- What the indexes of a table hold: the rows of each value, as the rows stand in the store.
use the_city_crdb.Common.{
  ℕ, suc, ◌≡◌, ◌∙◌, refl, sym, ap, some, List, [], ◌∷◌, ◌++◌, arith, Text, length, get_elem?,
  Result, ok, append_assoc, append-nil, length-append,
}
use mathlib.Core.Path.{subst}
use the_city_crdb.BTreeIndex
use the_city_crdb.BTreeIndex.{BTreeIndex}
use the_city_crdb.BTreeIndex.Updates
use the_city_crdb.Common.OrdMap.{All}
use the_city_crdb.HashIndex
use the_city_crdb.HashIndex.{HashIndex}
use the_city_crdb.RowStore
use the_city_crdb.RowStore.Refinement
use the_city_crdb.RowStore.Vector
use the_city_crdb.Table.{Table, cell, at_name}
use the_city_crdb.Table.Indexing.{
  hash_insert_all, ordered_insert_all, add_row_to_indexes, clear_hash, clear_ordered, add_rows,
  rebuild_indexes,
}
use the_city_crdb.Value.{Row, RowId}
use the_city_crdb.Value.Order.{IsComparable}
use the_city_crdb.Table.Contents.{
  matching_ids, HashOk, OrderedOk, insert-HashOk, insert-OrderedOk, empty-OrderedOk,
}

-- The three maps have the same names, and each index holds the rows by its column.
abbrev pub IndexesOk :
    List Row → List (Text × ℕ) → List (Text × HashIndex) → List (Text × BTreeIndex) → Type 0
IndexesOk rows [] [] [] = Unit {0}
IndexesOk rows ((a, column) ∷ cs) ((b, hash) ∷ hs) ((c, ordered) ∷ os) =
    (a ≡ b)
    × (a ≡ c)
    × HashOk rows column hash
    × OrderedOk rows column ordered
    × IndexesOk rows cs hs os
IndexesOk rows _ _ _ = ⊥

-- Each entry is what a lookup of its name finds.
abbrev pub Found : List (Text × ℕ) → List (Text × ℕ) → Type 0
Found whole [] = Unit {0}
Found whole ((a, column) ∷ cs) = (at_name a whole ≡ ok column) × Found whole cs

abbrev Inserted :
    List (Text × ℕ)
    → List (Text × ℕ)
    → Row
    → RowId
    → List Row
    → List (Text × HashIndex)
    → List (Text × BTreeIndex)
    → Type 0
Inserted whole cs row row_id rows hs os =
    (hs' : List (Text × HashIndex)) × (os' : List (Text × BTreeIndex)) × (hash_insert_all whole row
        row_id hs
      ≡ ok hs')
    × (ordered_insert_all whole row row_id os ≡ ok os')
    × IndexesOk rows cs hs' os'

insert_all_lem :
    (whole cs : List (Text × ℕ)) (hs : List (Text × HashIndex)) (os : List (Text × BTreeIndex))
    (rows : List Row) (row : Row)
    → All IsComparable row
    → Found whole cs
    → IndexesOk rows cs hs os
    → Inserted whole cs row (length rows) (rows ++ row ∷ []) hs os
unfolding hash_insert_all ordered_insert_all
insert_all_lem whole [] [] [] rows row a f v = ([], [], refl, refl, tt)
insert_all_lem whole ((n, c) ∷ cs) ((n', h) ∷ hs) ((n'', o) ∷ os) rows row a f v =
    let (hs', os', p, q, w) = insert_all_lem whole cs hs os rows row a f.1 v.4 in
    (
      (n', HashIndex.insert (cell row c) (length rows) h) ∷ hs',
      (n'', BTreeIndex.insert (cell row c) (length rows) o) ∷ os',
      ground (arith, p, f.0, v.0),
      ground (arith, q, f.0, v.1),
      (v.0, v.1, insert-HashOk rows row c h v.2, insert-OrderedOk rows row c a v.3, w),
    )
insert_all_lem whole _ _ _ rows row a f v = elim v [ ]

-- A table whose indexes are as given, and all else as it was.
abbrev pub with_indexes : Table → List (Text × HashIndex) → List (Text × BTreeIndex) → Table
with_indexes t hs os = record t { indexes = hs; ordered_indexes = os }

abbrev pub Indexed : List Row → Result Table → Table → Type 0
Indexed rows r t =
    (hs : List (Text × HashIndex)) × (os : List (Text × BTreeIndex)) × (r
      ≡ ok (with_indexes t hs os))
    × IndexesOk rows t.index_columns hs os

pub add_row_lem :
    (rows : List Row) (row : Row) (t : Table)
    → RowStore.get (length rows) t.row_store ≡ some row
    → All IsComparable row
    → Found t.index_columns t.index_columns
    → IndexesOk rows t.index_columns t.indexes t.ordered_indexes
    → Indexed (rows ++ row ∷ []) (add_row_to_indexes (length rows) t) t
unfolding add_row_to_indexes
add_row_lem rows row t g a f v =
    let (hs, os, p, q, w) =
      insert_all_lem t.index_columns t.index_columns t.indexes t.ordered_indexes rows row a f v in
    (hs, os, ground (arith, g, p, q), w)

get_elem?_behind :
    (done rest : List Row) (row : Row) → get_elem? (done ++ row ∷ rest) (length done) ≡ some row
get_elem?_behind [] rest row = refl
get_elem?_behind (r ∷ done) rest row = get_elem?_behind done rest row

pub get_behind :
    (done rest : List Row) (row : Row) → Vector.get (length done) (done ++ row ∷ rest) ≡ some row
unfolding Vector.get
get_behind done rest row =
    ground (arith, get_elem?_behind done rest row, length-append done (row ∷ rest))

-- The rows behind the first ones are added one by one.
add_rows_lem :
    (done rest : List Row) (t : Table)
    → Refinement.IsValid t.row_store
    → RowStore.snapshot t.row_store ≡ done ++ rest
    → All (All IsComparable) rest
    → Found t.index_columns t.index_columns
    → IndexesOk done t.index_columns t.indexes t.ordered_indexes
    → Indexed (done ++ rest) (add_rows (length rest) (length done) t) t
unfolding add_rows
add_rows_lem done [] t s e a f v = (t.indexes, t.ordered_indexes, refl, rw (append-nil done) v)
add_rows_lem done (row ∷ rest) t s e a f v =
    let split : (done ++ row ∷ []) ++ rest ≡ done ++ row ∷ rest =
      append_assoc done (row ∷ []) rest in
    let g : RowStore.get (length done) t.row_store ≡ some row =
      Refinement.get-snapshot (length done) t.row_store s
      ∙ ap (Vector.get (length done)) e
      ∙ get_behind done rest row in
    let (hs, os, p, w) = add_row_lem done row t g a.0 f v in
    let (hs', os', p', w') =
      add_rows_lem (done ++ row ∷ []) rest (with_indexes t hs os) s (e ∙ sym split) a.1 f w in
    let n : length (done ++ row ∷ []) ≡ suc (length done) =
      omega (arith, length-append done (row ∷ [])) in
    (
      hs',
      os',
      rw p (
          subst (λ k. add_rows (length rest) k (with_indexes t hs os) ≡ ok (with_indexes t hs' os'))
            n p'),
      subst (λ r. IndexesOk r t.index_columns hs' os') split w',
    )

cleared_lem :
    (rows : List Row) (cs : List (Text × ℕ)) (hs : List (Text × HashIndex))
    (os : List (Text × BTreeIndex))
    → IndexesOk rows cs hs os
    → IndexesOk [] cs (clear_hash hs) (clear_ordered os)
unfolding clear_hash clear_ordered HashIndex.find matching_ids
cleared_lem rows [] [] [] v = tt
cleared_lem rows ((n, c) ∷ cs) ((n', h) ∷ hs) ((n'', o) ∷ os) v =
    let (w, e) = Updates.clear-IsValid v.3.valid in
    (v.0, v.1, (λ q. refl), empty-OrderedOk c w e, cleared_lem rows cs hs os v.4)
cleared_lem rows _ _ _ v = elim v [ ]

-- A rebuild indexes the rows of the store, whatever rows the indexes had.
pub rebuild_lem :
    (before : List Row) (t : Table)
    → Refinement.IsValid t.row_store
    → All (All IsComparable) (RowStore.snapshot t.row_store)
    → Found t.index_columns t.index_columns
    → IndexesOk before t.index_columns t.indexes t.ordered_indexes
    → Indexed (RowStore.snapshot t.row_store) (rebuild_indexes t) t
unfolding rebuild_indexes
rebuild_lem before t s a f v =
    let (hs, os, p, w) =
      add_rows_lem [] (RowStore.snapshot t.row_store)
        (with_indexes t (clear_hash t.indexes) (clear_ordered t.ordered_indexes)) s refl a f
        (cleared_lem before t.index_columns t.indexes t.ordered_indexes v) in
    (hs, os, rw (Refinement.size-snapshot t.row_store s) p, w)
