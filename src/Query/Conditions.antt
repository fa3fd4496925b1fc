-- ===== src/Query/Conditions.antt =====
-- Conditions on columns that the table has: the test without its errors (`matches` of
-- src/execution/query_executor.cpp).
use the_city_crdb.Common.{
  ℕ, ◌≡◌, ◌∙◌, refl, ap, Bool, true, false, ◌&&◌, ◌||◌, Option, none, some, List, [], ◌∷◌, ◌++◌,
  arith, length, get_elem?, set, erase_idx, ok,
}
use the_city_crdb.Query.{Predicate, both, comparison, either, matches, selected}
use the_city_crdb.Query.Scan.{compares_lem}
use the_city_crdb.Table.{Table, column_index}
use the_city_crdb.Table.Lookups.{compares}
use the_city_crdb.Value.{Row}

-- The columns of a condition are columns of the table.
abbrev pub IsKnown : Table → Predicate → Type 0
IsKnown t (comparison column op value) = (k : ℕ) × (column_index column t ≡ some k)
IsKnown t (both left right) = IsKnown t left × IsKnown t right
IsKnown t (either left right) = IsKnown t left × IsKnown t right

abbrev pub AllKnown : Table → Option Predicate → Type 0
AllKnown t none = Unit {0}
AllKnown t (some p) = IsKnown t p

-- A condition without its errors.
abbrev pub holds : Table → Predicate → Row → Bool
holds t (comparison column op value) row = elim (column_index column t) [
  | none ↦ false
  | some k ↦ compares op k value row
]
holds t (both left right) row = holds t left row && holds t right row
holds t (either left right) row = holds t left row || holds t right row

abbrev pub chosen : Table → Option Predicate → Row → Bool
chosen t none row = true
chosen t (some p) row = holds t p row

matches-holds :
    (t : Table) (p : Predicate) (row : Row) → IsKnown t p → matches row t p ≡ ok (holds t p row)
unfolding matches
matches-holds t (comparison column op value) row (k, c) =
    ground (arith, c, compares_lem op k value row)
matches-holds t (both left right) row (a, b) =
    ground (arith, matches-holds t left row a, matches-holds t right row b)
matches-holds t (either left right) row (a, b) =
    ground (arith, matches-holds t left row a, matches-holds t right row b)

-- A condition looks at the schema alone.
matches-schema :
    (t t' : Table) (p : Predicate) (row : Row)
    → t'.schema ≡ t.schema
    → matches row t' p ≡ matches row t p
unfolding matches column_index
matches-schema t t' (comparison column op value) row e = rw e refl
matches-schema t t' (both left right) row e =
    ground (arith, matches-schema t t' left row e, matches-schema t t' right row e)
matches-schema t t' (either left right) row e =
    ground (arith, matches-schema t t' left row e, matches-schema t t' right row e)

pub selected_lem :
    (t t' : Table) (p : Option Predicate) (row : Row)
    → AllKnown t p
    → t'.schema ≡ t.schema
    → selected row t' p ≡ ok (chosen t p row)
unfolding selected
selected_lem t t' none row a e = refl
selected_lem t t' (some p) row a e = matches-schema t t' p row e ∙ matches-holds t p row a

pub set_behind :
    (done rest : List Row) (row new : Row)
    → set (done ++ row ∷ rest) (length done) new ≡ done ++ new ∷ rest
set_behind [] rest row new = refl
set_behind (r ∷ done) rest row new = ap (λ l. r ∷ l) (set_behind done rest row new)

pub erase_behind :
    (done rest : List Row) (row : Row) → erase_idx (done ++ row ∷ rest) (length done) ≡ done ++ rest
erase_behind [] rest row = refl
erase_behind (r ∷ done) rest row = ap (λ l. r ∷ l) (erase_behind done rest row)

pub at_behind :
    (done rest : List Row) (row : Row) → get_elem? (done ++ row ∷ rest) (length done) ≡ some row
at_behind [] rest row = refl
at_behind (r ∷ done) rest row = at_behind done rest row
