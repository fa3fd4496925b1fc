-- ===== src/Query/Changes.antt =====
-- What UPDATE and DELETE do to the rows of a table (src/execution/query_executor.cpp).
use mathlib.Core.Path.{subst}
use the_city_crdb.Common.{
  ℕ, zero, suc, ◌+◌, ◌≡◌, ◌∙◌, refl, sym, ap, Bool, not, Option, some, List, [], ◌∷◌, ◌++◌, arith,
  if◌then◌else◌, length, get_elem?, set, erase_idx, Result, ok, Bool-cases, inl, inr, append_assoc,
  append-nil, length-append, map, ◌<◌, updated_type_mismatch,
}
use the_city_crdb.Query.{
  Delete, Predicate, Update, delete_rows, execute_delete, execute_update, update_rows,
}
use the_city_crdb.Query.Selection.{filtered}
use the_city_crdb.Table.{Table, column_index, rows_snapshot}
use the_city_crdb.Table.Changes
use the_city_crdb.Table.Correct.{IsValid}
use the_city_crdb.Table.Indexing.{check_value}
use the_city_crdb.Value.{Column, Row, Value}
use the_city_crdb.Value.Order.{IsComparable}
use the_city_crdb.Query.Conditions.{
  AllKnown, chosen, selected_lem, set_behind, erase_behind, at_behind,
}

-- How many rows pass a test.
unfoldable pub tally : (Row → Bool) → List Row → ℕ
tally p [] = 0
tally p (row ∷ rows) = (if p row then 1 else 0) + tally p rows

-- What a statement leaves: a valid table of the same schema with these rows, and a count.
abbrev pub Leaves : List Row → ℕ → Table → Table × Result ℕ → Type 0
Leaves rows count t r =
    (r.1 ≡ ok count) × IsValid r.0 × (rows_snapshot r.0 ≡ rows) × (r.0.schema ≡ t.schema)

-- The rows after an UPDATE.
abbrev pub changed : (Row → Bool) → ℕ → Value → Row → Row
changed test k v row = if test row then set row k v else row

Leaves-along :
    (t : Table) {rows rows' : List Row} {count count' : ℕ} {r r' : Table × Result ℕ}
    → rows ≡ rows'
    → count ≡ count'
    → r ≡ r'
    → Leaves rows count t r
    → Leaves rows' count' t r'
Leaves-along t {rows} {rows'} {count} {count'} {r} {r'} a b c l =
    subst (Leaves rows' count' t) c
      (subst (λ n. Leaves rows' n t r) b (subst (λ x. Leaves x count t r) a l))

length-snoc : (done : List Row) (new : Row) → length (done ++ new ∷ []) ≡ suc (length done)
length-snoc done new = omega (arith, length-append done (new ∷ []))

module _ (p : Option Predicate) (k : ℕ) (v : Value) (column : Column)
    (c : check_value updated_type_mismatch v column ≡ ok tt) (g : IsComparable v) (t : Table)
    (known : AllKnown t p) (at : get_elem? t.schema k ≡ some column) where
  update_rows_lem :
      (done rest : List Row) (count : ℕ) (s : Table)
      → IsValid s
      → s.schema ≡ t.schema
      → rows_snapshot s ≡ done ++ rest
      → Leaves
          (done ++ map (changed (chosen t p) k v) rest)
          (count + tally (chosen t p) rest)
          t
          (update_rows p k v (length done) rest count s)
  unfolding update_rows tally
  update_rows_lem done [] count s w e r = (ground arith, w, r, e)
  update_rows_lem done (row ∷ rest) count s w e r =
      let m = map (changed (chosen t p) k v) rest in
      elim (Bool-cases (chosen t p row)) [
        | inl passes ↦
            let new = set row k v in
            let h : length done < length (rows_snapshot s) =
              ground (arith, r, length-append done (row ∷ rest)) in
            let (s', row', x, u, w', r', e', _) =
              Changes.update-Updates (length done) k v column s w h
                (ap (λ (l : List Column). get_elem? l k) e ∙ at) c g in
            let same : row' ≡ row =
              ground (arith, x, ap (λ l. get_elem? l (length done)) r, at_behind done rest row) in
            let r2 : rows_snapshot s' ≡ (done ++ new ∷ []) ++ rest =
              r'
              ∙ ap (λ y. set (rows_snapshot s) (length done) (set y k v)) same
              ∙ ap (λ l. set l (length done) new) r
              ∙ set_behind done rest row new
              ∙ sym (append_assoc done (new ∷ []) rest) in
            Leaves-along t
              (append_assoc done (new ∷ []) m ∙ ap (λ y. done ++ y ∷ m) (ground (arith, passes)))
              (ground (arith, passes))
              (ap (λ n. update_rows p k v n rest (count + 1) s') (length-snoc done new)
                ∙ ground (arith, selected_lem t s p row known e, passes, u))
              (update_rows_lem (done ++ new ∷ []) rest (count + 1) s' w' (e' ∙ e) r2)
        | inr fails ↦
            Leaves-along t
              (append_assoc done (row ∷ []) m ∙ ap (λ y. done ++ y ∷ m) (ground (arith, fails)))
              (ground (arith, fails))
              (ap (λ n. update_rows p k v n rest count s) (length-snoc done row)
                ∙ ground (arith, selected_lem t s p row known e, fails))
              (update_rows_lem (done ++ row ∷ []) rest count s w e
                (r ∙ sym (append_assoc done (row ∷ []) rest)))
      ]

filtered-snoc :
    (test : Row → Bool) (rows : List Row) (row : Row)
    → filtered test (rows ++ row ∷ []) ≡ filtered test rows ++ (if test row then row ∷ [] else [])
unfolding filtered
filtered-snoc test [] row = ground arith
filtered-snoc test (r ∷ rows) row = ground (arith, filtered-snoc test rows row)

tally-snoc :
    (test : Row → Bool) (rows : List Row) (row : Row)
    → tally test (rows ++ row ∷ []) ≡ tally test rows + (if test row then 1 else 0)
unfolding tally
tally-snoc test [] row = ground arith
tally-snoc test (r ∷ rows) row = ground (arith, tally-snoc test rows row)

-- A list that is not empty has a last element.
snoc_view :
    (n : ℕ) (rows : List Row)
    → length rows ≡ suc n
    → (front : List Row) × (row : Row) × (rows ≡ front ++ row ∷ []) × (length front ≡ n)
snoc_view n [] h = absurd (ground arith)
snoc_view zero (r ∷ []) h = ([], r, refl, refl)
snoc_view zero (r ∷ r' ∷ rows) h = absurd (omega arith)
snoc_view (suc n) (r ∷ rows) h =
    let (front, row, e, l) = snoc_view n rows (omega arith) in
    (r ∷ front, row, ap (λ x. r ∷ x) e, omega arith)

module _ (p : Option Predicate) (t : Table) (known : AllKnown t p) where
  delete_rows_lem :
      (n : ℕ) (front kept later : List Row) (count : ℕ) (s : Table)
      → length front ≡ n
      → IsValid s
      → s.schema ≡ t.schema
      → rows_snapshot s ≡ front ++ kept
      → Leaves
          (filtered (λ row. not (chosen t p row)) front ++ kept)
          (count + tally (chosen t p) front)
          t
          (delete_rows p n (front ++ later) count s)
  unfolding delete_rows tally filtered
  delete_rows_lem zero [] kept later count s h w e r = (ground arith, w, r, e)
  delete_rows_lem zero (x ∷ front) kept later count s h w e r = absurd (omega arith)
  delete_rows_lem (suc n) whole kept later count s h w e r =
      let (front, row, split, l) = snoc_view n whole h in
      let test : Row → Bool = λ x. not (chosen t p x) in
      let shift : (z : List Row) → whole ++ z ≡ front ++ row ∷ z =
        λ z. ap (λ y. y ++ z) split ∙ append_assoc front (row ∷ []) z in
      let found : get_elem? (whole ++ later) n ≡ some row =
        ap (λ y. get_elem? y n) (shift later)
        ∙ ap (get_elem? (front ++ row ∷ later)) (sym l)
        ∙ at_behind front later row in
      let rows : filtered test whole ≡ filtered test front ++ (if test row then row ∷ [] else []) =
        ap (filtered test) split ∙ filtered-snoc test front row in
      let count_is : tally (chosen t p) whole
          ≡ tally (chosen t p) front + (if chosen t p row then 1 else 0) =
        ap (tally (chosen t p)) split ∙ tally-snoc (chosen t p) front row in
      elim (Bool-cases (chosen t p row)) [
        | inl passes ↦
            let h' : n < length (rows_snapshot s) =
              ground (arith, r, shift kept, length-append front (row ∷ kept)) in
            let (s', u, w', r', e', _) = Changes.erase-Erases n s w h' in
            let r2 : rows_snapshot s' ≡ front ++ kept =
              r'
              ∙ ap (λ y. erase_idx y n) (r ∙ shift kept)
              ∙ ap (erase_idx (front ++ row ∷ kept)) (sym l)
              ∙ erase_behind front kept row in
            Leaves-along t
              (ap (λ y. y ++ kept)
                (let z : filtered test front ≡ filtered test whole =
                    ground (arith, rows, passes, append-nil (filtered test front)) in
                  z))
              (ground (arith, count_is, passes))
              (ap (λ y. delete_rows p n y (count + 1) s') (sym (shift later))
                ∙ ground (arith, found, selected_lem t s p row known e, passes, u))
              (delete_rows_lem n front kept (row ∷ later) (count + 1) s' l w' (e' ∙ e) r2)
        | inr fails ↦
            Leaves-along t
              (sym (
                ap (λ y. y ++ kept) rows
                ∙ ap
                    (λ (b : Bool).
                      (filtered test front ++ (if not b then row ∷ [] else [])) ++ kept)
                    fails
                ∙ append_assoc (filtered test front) (row ∷ []) kept))
              (ground (arith, count_is, fails))
              (ap (λ y. delete_rows p n y count s) (sym (shift later))
                ∙ ground (arith, found, selected_lem t s p row known e, fails))
              (delete_rows_lem n front (row ∷ kept) (row ∷ later) count s l w e (r ∙ shift kept))
      ]

-- An UPDATE whose condition is on columns of the table, by a value that the target column takes and
-- that is no NaN, writes that value in each row that the condition selects, leaves the other rows,
-- their order and the table valid, and counts the rows it wrote.
pub execute_update-Leaves :
    (command : Update) (k : ℕ) (column : Column) (t : Table)
    → IsValid t
    → column_index command.column t ≡ some k
    → get_elem? t.schema k ≡ some column
    → check_value updated_type_mismatch command.value column ≡ ok tt
    → IsComparable command.value
    → AllKnown t command.where_clause
    → Leaves
        (map (changed (chosen t command.where_clause) k command.value) (rows_snapshot t))
        (tally (chosen t command.where_clause) (rows_snapshot t))
        t
        (execute_update command t)
unfolding execute_update
execute_update-Leaves command k column t w i at c g known =
    Leaves-along t refl (omega arith) (ground (arith, i)) (
      update_rows_lem command.where_clause k command.value column c g t known at []
        (rows_snapshot t) 0 t w refl refl)

-- A DELETE whose condition is on columns of the table takes out the rows that it selects, keeps the
-- others in their order and the table valid, and counts the rows it took out.
pub execute_delete-Leaves :
    (command : Delete) (t : Table)
    → IsValid t
    → AllKnown t command.where_clause
    → Leaves
        (filtered (λ row. not (chosen t command.where_clause row)) (rows_snapshot t))
        (tally (chosen t command.where_clause) (rows_snapshot t))
        t
        (execute_delete command t)
unfolding execute_delete
execute_delete-Leaves command t w known =
    let rows = rows_snapshot t in
    Leaves-along t (append-nil (filtered (λ row. not (chosen t command.where_clause row)) rows))
      (omega arith)
      (ap (λ y. delete_rows command.where_clause (length rows) y 0 t) (append-nil rows))
      (delete_rows_lem command.where_clause t known (length rows) rows [] [] 0 t refl w refl
        (sym (append-nil rows)))
