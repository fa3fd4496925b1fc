-- ===== src/Database/Clone.antt =====
-- A copy of a database, which BEGIN keeps for ROLLBACK: `clone` (src/storage/database.cpp).
use the_city_crdb.Common.{
  ℕ, ◌≡◌, ◌∙◌, ◌≢◌, refl, sym, true, false, Bool-cases, Option, none, some, List, [], ◌∷◌, arith,
  Text, text_lt, if◌then◌else◌, ok, inl, inr, ◌⊎◌, text_lt_irrefl, text_lt_trans, text_lt_cotrans,
}
use the_city_crdb.Common.OrdMap
use the_city_crdb.Common.OrdMap.{All, All-imp, IsSorted, is_same, keys}
use the_city_crdb.Common.OrdMap.Texts.{find-upsert_text}
use the_city_crdb.Database.{
  Database, clone, clone_tables, create_table, find_table, new_database, place,
}
use the_city_crdb.Database.Catalogue.{IsValid, Kept}
use the_city_crdb.Database.Tables.{Holds, copy_table-Fills, fresh_lem}
use the_city_crdb.Table.{Table, rows_snapshot}

-- A lookup in the copy answers as one in the original: no table, or a valid one with the same rows
-- and schema.
abbrev pub Copied : Option Table → Option Table → Type 0
Copied none none = Unit {0}
Copied (some t) (some t') = Holds (rows_snapshot t) t.schema t'
Copied _ _ = ⊥

-- What the loop leaves under a name: a copy of what the rest has, or what was there.
abbrev Left : Text → List (Text × Table) → Database → Database → Type 0
Left q rest copy copy' =
    (OrdMap.find text_lt q rest ≡ none) × (find_table q copy' ≡ find_table q copy)
    ⊎ (t : Table) × (t' : Table) × (OrdMap.find text_lt q rest ≡ some t)
      × (find_table q copy' ≡ some t')
      × Holds (rows_snapshot t) t.schema t'

abbrev Loops : List (Text × Table) → Database → Type 0
Loops rest copy =
    (copy' : Database) × (clone_tables rest copy ≡ ok copy')
    × (copy'.name ≡ copy.name)
    × ((q : Text) → Left q rest copy copy')

-- One step of the loop: the table is created, found and filled.
step_lem :
    (n : Text) (source : Table) (copy : Database)
    → Kept (n, source)
    → find_table n copy ≡ none
    → (filled : Table) × (copy2 : Database) × ((rest : List (Text × Table))
        → clone_tables ((n, source) ∷ rest) copy ≡ clone_tables rest copy2)
      × Holds (rows_snapshot source) source.schema filled
      × (copy2.name ≡ copy.name)
      × ((q : Text)
          → find_table q copy2 ≡ (if is_same text_lt n q then some filled else find_table q copy))
unfolding clone_tables create_table find_table
step_lem n source copy (v, e, a, s) free =
    let (t0, made, h0) = fresh_lem n source.schema a s in
    let (filled, f, h) = copy_table-Fills source t0 v h0 in
    let copy1 = place n t0 copy in
    (
      filled,
      place n filled copy1,
      (λ rest.
          ground (
            arith,
            e,
            free,
            made,
            f,
            find-upsert_text n n (λ _. t0) copy.tables,
            text_lt_irrefl n,
          )),
      h,
      refl,
      (λ q. ground (
        arith,
        find-upsert_text n q (λ _. filled) copy1.tables,
        find-upsert_text n q (λ _. t0) copy.tables,
      )),
    )

free_after :
    (n : Text) (filled : Table) (copy copy2 : Database) (ks : List Text)
    → ((q : Text)
        → find_table q copy2 ≡ (if is_same text_lt n q then some filled else find_table q copy))
    → All (λ j. text_lt n j ≡ true) ks
    → All (λ j. find_table j copy ≡ none) ks
    → All (λ j. find_table j copy2 ≡ none) ks
free_after n filled copy copy2 [] look above free = tt
free_after n filled copy copy2 (k ∷ ks) look above free =
    (ground (arith, look k, above.0, free.0), free_after n filled copy copy2 ks look above.1 free.1)

-- A name at or below the first name is not in the rest.
absent_below :
    (n q : Text) (rest : List (Text × Table))
    → All (λ j. text_lt n j ≡ true) (keys rest)
    → text_lt n q ≡ false
    → OrdMap.find text_lt q rest ≡ none
unfolding OrdMap.find
absent_below n q [] a h = refl
absent_below n q ((k, t) ∷ rest) a h =
    ground (arith, a.0, absent_below n q rest a.1, text_lt_trans n k q, text_lt_cotrans n q k)

left_lem :
    (n q : Text) (source filled : Table) (rest : List (Text × Table)) (copy copy2 copy' : Database)
    → Holds (rows_snapshot source) source.schema filled
    → (find_table q copy2 ≡ (if is_same text_lt n q then some filled else find_table q copy))
    → All (λ j. text_lt n j ≡ true) (keys rest)
    → Left q rest copy2 copy'
    → Left q ((n, source) ∷ rest) copy copy'
unfolding OrdMap.find
left_lem n q source filled rest copy copy2 copy' h look above left =
    elim (Bool-cases (text_lt n q)) [
      | inl before ↦ elim left [
        | inl (a, e) ↦ inl (ground (arith, before, a), ground (arith, before, e, look))
        | inr (t, t', a, e, k) ↦ inr (t, t', ground (arith, before, a), e, k)
      ]
      | inr not_before ↦
          let absent = absent_below n q rest above not_before in
          elim left [
            | inr (t, t', a, e, k) ↦ absurd (ground (arith, absent, a))
            | inl (a, e) ↦ elim (Bool-cases (text_lt q n)) [
              | inl after ↦ inl (ground (arith, not_before, after), ground (arith, after, e, look))
              | inr same ↦ inr (
                source,
                filled,
                ground (arith, not_before, same),
                ground (arith, not_before, same, e, look),
                h,
              )
            ]
          ]
    ]

loop_lem :
    (rest : List (Text × Table)) (copy : Database)
    → IsSorted text_lt rest
    → All Kept rest
    → All (λ j. find_table j copy ≡ none) (keys rest)
    → Loops rest copy
unfolding OrdMap.find clone_tables
loop_lem [] copy s k free = (copy, refl, refl, λ q. inl (refl, refl))
loop_lem ((n, source) ∷ rest) copy s k free =
    let (filled, copy2, step, h, same, look) = step_lem n source copy k.0 free.0 in
    let (copy', e, same', left) =
      loop_lem rest copy2 s.1 k.1 (free_after n filled copy copy2 (keys rest) look s.0 free.1) in
    (
      copy',
      step rest ∙ e,
      same' ∙ same,
      λ q. left_lem n q source filled rest copy copy2 copy' h (look q) s.0 (left q),
    )

copied_lem :
    (q : Text) (db copy copy' : Database)
    → find_table q copy ≡ none
    → Left q db.tables copy copy'
    → Copied (find_table q db) (find_table q copy')
unfolding find_table
copied_lem q db copy copy' n (inl (a, e)) = rw (a, e, n) tt
copied_lem q db copy copy' n (inr (t, t', a, e, h)) = rw (a, e) h

name_cases : (name : Text) → (name ≡ []) ⊎ ((b : ℕ) × (rest : Text) × (name ≡ b ∷ rest))
name_cases [] = inl refl
name_cases (b ∷ rest) = inr (b, rest, refl)

nothing_yet :
    (b : ℕ) (name : Text) (ks : List Text)
    → All (λ j. find_table j (record { name = b ∷ name; tables = [] }) ≡ none) ks
unfolding find_table OrdMap.find
nothing_yet b name [] = tt
nothing_yet b name (k ∷ ks) = (refl, nothing_yet b name ks)

-- Cloning a valid database with a name succeeds. The copy has the same name, and under each name it
-- has a table exactly where the original has one: a valid table with the same rows and schema.
pub clone-Copied :
    (db : Database)
    → IsValid db
    → db.name ≢ []
    → (copy : Database) × (clone db ≡ ok copy)
      × (copy.name ≡ db.name)
      × ((q : Text) → Copied (find_table q db) (find_table q copy))
clone-Copied db v n = elim (name_cases db.name) [
  | inl e ↦ absurd (n e)
  | inr (b, name, e) ↦
      let start : Database = record { name = b ∷ name; tables = [] } in
      let (copy, c, same, left) =
        loop_lem db.tables start v.sorted v.kept (nothing_yet b name (keys db.tables)) in
      (
        copy,
        (unfold clone new_database in ground (arith, e, c)),
        same ∙ sym e,
        λ q. copied_lem q db start copy (unfold find_table OrdMap.find in refl) (left q),
      )
]
