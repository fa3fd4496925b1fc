-- ===== src/Table/Correct.antt =====
-- A valid table, its constructor, and insertion.
use mathlib.Core.Path.{subst}
use the_city_crdb.Common.{
  ℕ, zero, suc, ◌+◌, ◌%◌, ◌^◌, ◌≡◌, ◌∙◌, refl, ap, true, some, List, [], ◌∷◌, ◌++◌, arith, Text,
  text_lt, length, get_elem?, set, erase_idx, ok,
}
use the_city_crdb.Common.OrdMap
use the_city_crdb.Common.OrdMap.{All, IsSorted}
use the_city_crdb.Mvcc
use the_city_crdb.RowStore
use the_city_crdb.RowStore.Refinement
use the_city_crdb.RowStore.Vector
use the_city_crdb.BufferPool
use the_city_crdb.RowStore.{PageRowStore}
use the_city_crdb.Table.{
  column_index_from, Table, new_table, new_table_state, rows_snapshot, at_name,
}
use the_city_crdb.Table.Indexing.{validate_row}
use the_city_crdb.Table.Indexed.{IndexesOk, Found, with_indexes, get_behind, add_row_lem}
use the_city_crdb.Table.Mutation.{insert, write_version}
use the_city_crdb.Value.{Row, RowId, Column}
use the_city_crdb.Value.Order.{IsComparable}

-- The column is the first of its name.
abbrev pub IsFirst : List Column → ℕ → Type 0
IsFirst schema i =
    (c : Column) × (get_elem? schema i ≡ some c) × (column_index_from 0 c.name schema ≡ some i)

-- The store is valid, every row fits the schema and has no NaN, the indexes are on columns of the
-- schema, the first of their names, and hold the rows.
pub record IsValid (t : Table) : Type 0 where
  pub store : Refinement.IsValid t.row_store
  pub fits : All (λ row. validate_row row t ≡ ok tt) (rows_snapshot t)
  pub comparable : All (All IsComparable) (rows_snapshot t)
  pub sorted : IsSorted text_lt t.index_columns
  pub in_schema : All (λ (e : Text × ℕ). IsFirst t.schema e.1) t.index_columns
  pub indexed : IndexesOk (rows_snapshot t) t.index_columns t.indexes t.ordered_indexes

-- A sorted map finds each of its entries.
Found-below :
    (n : Text) (c : ℕ) (whole cs : List (Text × ℕ))
    → All (λ j. text_lt n j ≡ true) (OrdMap.keys cs)
    → Found whole cs
    → Found ((n, c) ∷ whole) cs
unfolding at_name OrdMap.find
Found-below n c whole [] a f = tt
Found-below n c whole ((m, d) ∷ cs) a f =
    (ground (arith, a.0, f.0), Found-below n c whole cs a.1 f.1)

pub Found-sorted : (cs : List (Text × ℕ)) → IsSorted text_lt cs → Found cs cs
unfolding at_name OrdMap.find
Found-sorted [] s = tt
Found-sorted ((n, c) ∷ cs) s = (
  ground (arith, OrdMap.text_lt-StrictWeak.irrefl n),
  Found-below n c cs cs s.0 (Found-sorted cs s.1),
)

pub All-snoc {ℓ} :
    {A : Type ℓ} (P : A → Type 0) (xs : List A) (x : A) → All P xs → P x → All P (xs ++ x ∷ [])
All-snoc P [] x a p = (p, tt)
All-snoc P (y ∷ xs) x a p = (a.0, All-snoc P xs x a.1 p)

pub All-erase_idx {ℓ} :
    {A : Type ℓ} (P : A → Type 0) (xs : List A) (i : ℕ) → All P xs → All P (erase_idx xs i)
All-erase_idx P [] i a = tt
All-erase_idx P (x ∷ xs) zero a = a.1
All-erase_idx P (x ∷ xs) (suc i) a = (a.0, All-erase_idx P xs i a.1)

pub All-set {ℓ} :
    {A : Type ℓ} (P : A → Type 0) (xs : List A) (i : ℕ) (x : A)
    → All P xs
    → P x
    → All P (set xs i x)
All-set P [] i x a p = tt
All-set P (y ∷ xs) zero x a p = (p, a.1)
All-set P (y ∷ xs) (suc i) x a p = (a.0, All-set P xs i x a.1 p)

pub All-at {ℓ} :
    {A : Type ℓ} (P : A → Type 0) (xs : List A) (i : ℕ) (x : A)
    → All P xs
    → get_elem? xs i ≡ some x
    → P x
All-at P [] i x a e = absurd (ground arith)
All-at P (y ∷ xs) zero x a e = let q : y ≡ x = cc in subst P q a.0
All-at P (y ∷ xs) (suc i) x a e = All-at P xs i x a.1 e

new_state-IsValid : (name : Text) (schema : List Column) → IsValid (new_table_state name schema)
unfolding rows_snapshot RowStore.snapshot BufferPool.contains OrdMap.find
new_state-IsValid name schema = record {
  store = record {
    in_pages = tt;
    distinct = tt;
    pool = record {
      linked = record {
        distinct = tt;
        sorted = tt;
        same_ids = λ k. refl;
        same_size = refl;
        keyed = λ k p e. absurd (ground arith);
      };
      positive = omega arith;
      bounded = omega arith;
    };
  };
  fits = tt;
  comparable = tt;
  sorted = tt;
  in_schema = tt;
  indexed = tt;
}

-- A table that the constructor returns is valid, has no rows, and has the name and the schema given.
pub new_table-IsValid :
    (name : Text) (schema : List Column) {t : Table}
    → new_table name schema ≡ ok t
    → IsValid t × (rows_snapshot t ≡ []) × (t.schema ≡ schema) × (t.name ≡ name)
unfolding new_table rows_snapshot RowStore.snapshot
new_table-IsValid [] schema e = absurd (ground arith)
new_table-IsValid (b ∷ name) [] e = absurd (ground arith)
new_table-IsValid (b ∷ name) (c ∷ schema) {t} e =
    let built : new_table_state (b ∷ name) (c ∷ schema) ≡ t = ground arith in
    subst
      (λ (x : Table).
        IsValid x × (rows_snapshot x ≡ []) × (x.schema ≡ c ∷ schema) × (x.name ≡ b ∷ name))
      built (new_state-IsValid (b ∷ name) (c ∷ schema), refl, refl, refl)

-- The table with a new store and a new version of a row.
abbrev pub versioned : RowId → Row → PageRowStore → Table → Table
versioned row_id row store t = record t {
  row_store = store;
  versions = Mvcc.write row_id row t.next_version_id t.versions;
  next_version_id = (t.next_version_id + 1) % 2 ^ 64;
}

pub write_version_lem :
    (row_id : RowId) (row : Row) (store : PageRowStore) (t : Table)
    → RowStore.get row_id store ≡ some row
    → write_version row_id (record t { row_store = store }) ≡ versioned row_id row store t
unfolding write_version
write_version_lem row_id row store t g = ground (arith, g)

-- What an insertion does.
abbrev pub Inserts : Row → Table → Type 0
Inserts row t =
    (t' : Table) × (insert row t ≡ ok (t', length (rows_snapshot t)))
    × IsValid t'
    × (rows_snapshot t' ≡ rows_snapshot t ++ row ∷ [])
    × (t'.schema ≡ t.schema)
    × (t'.versions ≡ Mvcc.write (length (rows_snapshot t)) row t.next_version_id t.versions)

-- Inserting a row that the schema admits, without NaN, into a valid table succeeds with the number of
-- rows as its id, adds the row behind the others and one version of it, keeps the schema, and leaves
-- a valid table, whose indexes hold the row.
pub insert-Inserts :
    (row : Row) (t : Table)
    → IsValid t
    → validate_row row t ≡ ok tt
    → All IsComparable row
    → Inserts row t
unfolding insert rows_snapshot validate_row
insert-Inserts row t v e a =
    let rows = RowStore.snapshot t.row_store in
    let store = (RowStore.append row t.row_store).0 in
    let (s, r, i) = Refinement.append_lem row t.row_store v.store in
    let g : RowStore.get (length rows) store ≡ some row =
      Refinement.get-snapshot (length rows) store s
      ∙ ap (Vector.get (length rows)) r
      ∙ get_behind rows [] row in
    let t1 = versioned (length rows) row store t in
    let (hs, os, p, w) =
      add_row_lem rows row t1 g a (Found-sorted t.index_columns v.sorted) v.indexed in
    (
      with_indexes t1 hs os,
      ground (arith, e, i, p, write_version_lem (length rows) row store t g),
      record {
        store = s;
        fits = rw r (All-snoc (λ x. validate_row x t ≡ ok tt) rows row v.fits e);
        comparable = rw r (All-snoc (All IsComparable) rows row v.comparable a);
        sorted = v.sorted;
        in_schema = v.in_schema;
        indexed = rw r w;
      },
      r,
      refl,
      refl,
    )
