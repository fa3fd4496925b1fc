-- ===== src/Query/Projection.antt =====
-- The rows that a SELECT returns of those it collected (src/execution/query_executor.cpp).
use the_city_crdb.Common.{
  ℕ, suc, ◌-◌, ◌≡◌, ◌∙◌, refl, sym, ap, max, Bool-cases, Option, none, some, List, [], ◌∷◌, arith,
  inl, inr, leb, map, take,
}
use the_city_crdb.Query.{project, project_rows}
use the_city_crdb.Value.{Row}

-- The first rows, up to a limit, and one at least.
abbrev pub cut : Option ℕ → List Row → List Row
cut none rows = rows
cut (some n) rows = take (max n 1) rows

project_all :
    (p : List ℕ) (count : ℕ) (rows : List Row)
    → project_rows p none count rows ≡ map (project p) rows
unfolding project_rows
project_all p count [] = refl
project_all p count (row ∷ rows) = ap (λ l. project p row ∷ l) (project_all p (suc count) rows)

take-max :
    (n : ℕ) (row : Row) (rows : List Row) → take (max n 1) (row ∷ rows) ≡ row ∷ take (n - 1) rows
take-max n row rows = let e : max n 1 ≡ suc (n - 1) = omega arith in rw e refl

project-some :
    (p : List ℕ) (n count : ℕ) (rows : List Row)
    → project_rows p (some n) count rows ≡ map (project p) (take (max (n - count) 1) rows)
unfolding project_rows
project-some p n count [] =
    let e : max (n - count) 1 ≡ suc (n - count - 1) = omega arith in rw e refl
project-some p n count (row ∷ rows) =
    ap (λ l. project p row ∷ l)
      (elim (Bool-cases (leb n (suc count))) [
        | inl full ↦
            let none_left : n - count - 1 ≡ 0 = ground (arith, full) in rw (full, none_left) refl
        | inr more ↦
            let later : max (n - suc count) 1 ≡ n - count - 1 = ground (arith, more) in
            rw more
              (project-some p n (suc count) rows ∙ ap (λ k. map (project p) (take k rows)) later)
      ])
    ∙ ap (map (project p)) (sym (take-max (n - count) row rows))

-- The loop over the rows of a SELECT projects each of them, in order, and stops at the limit; a limit
-- of 0 lets one row through.
pub project_rows-cut :
    (p : List ℕ) (limit : Option ℕ) (rows : List Row)
    → project_rows p limit 0 rows ≡ map (project p) (cut limit rows)
project_rows-cut p none rows = project_all p 0 rows
project_rows-cut p (some n) rows =
    project-some p n 0 rows ∙ ap (λ k. map (project p) (take (max k 1) rows)) (omega arith)
