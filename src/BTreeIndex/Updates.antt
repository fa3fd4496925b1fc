-- ===== src/BTreeIndex/Updates.antt =====
-- What the searches return after an insertion, a removal and a clearing, and that these keep the
-- index valid.
use the_city_crdb.Common.{
  ℕ, ◌+◌, ◌≡◌, ◌∙◌, refl, Bool, true, List, [], ◌∷◌, ◌++◌, arith, Option-cases, inl, inr,
  if◌then◌else◌, ok, count, count-append,
}
use the_city_crdb.Common.OrdMap
use the_city_crdb.Common.OrdMap.{
  All, keys, IsSorted, is_same, upsert-IsSorted, All-upsert, remove-IsSorted, All-remove,
  find-upsert, find-remove,
}
use the_city_crdb.HashIndex.{erase_id}
use the_city_crdb.Value.{Value, RowId, value_eq, value_lt}
use the_city_crdb.Value.Order.{IsComparable, value_lt-StrictWeak, value_eq-not_lt}
use the_city_crdb.BTreeIndex.{
  BTreeIndex, Entries, new_index, find, less_than, greater_than, insert, remove, clear, push_back,
  drop_id,
}
use the_city_crdb.BTreeIndex.Search.{
  IsValid, rows_where, ids_or_empty, find-entries, find_agree, less_than-rows_where,
  greater_than-rows_where,
}

find-sorted :
    {t : BTreeIndex} (q : Value)
    → IsValid t
    → IsComparable q
    → find q t ≡ ids_or_empty (OrdMap.find value_lt q t.entries)
find-sorted {t} q v g = find-entries v q ∙ find_agree q t.entries g v.comparable v.sorted

pub new_index-IsValid :
    (max : ℕ) {t : BTreeIndex} → new_index max ≡ ok t → IsValid t × (t.entries ≡ [])
unfolding new_index
new_index-IsValid max e = ground arith

pub insert-IsValid :
    (k : Value) (id : ℕ) {t : BTreeIndex} → IsComparable k → IsValid t → IsValid (insert k id t)
unfolding insert
insert-IsValid k id {t} g v = record {
  positive = v.positive;
  laid_out = refl;
  sorted = upsert-IsSorted value_lt value_lt-StrictWeak k (push_back id) t.entries v.sorted;
  comparable =
      All-upsert value_lt value_lt-StrictWeak IsComparable k (push_back id) t.entries g
        v.comparable;
}

pub clear-IsValid : {t : BTreeIndex} → IsValid t → IsValid (clear t) × ((clear t).entries ≡ [])
unfolding clear
clear-IsValid v =
    (record { positive = v.positive; laid_out = refl; sorted = tt; comparable = tt }, refl)

drop_id-IsSorted :
    (k : Value) (ids : List RowId) (es : Entries)
    → IsSorted value_lt es
    → IsSorted value_lt (drop_id k ids es)
unfolding drop_id
drop_id-IsSorted k [] es s = remove-IsSorted value_lt value_lt-StrictWeak k es s
drop_id-IsSorted k (i ∷ ids) es s =
    upsert-IsSorted value_lt value_lt-StrictWeak k (λ _. i ∷ ids) es s

drop_id-IsComparable :
    (k : Value) (ids : List RowId) (es : Entries)
    → IsComparable k
    → All IsComparable (keys es)
    → All IsComparable (keys (drop_id k ids es))
unfolding drop_id
drop_id-IsComparable k [] es g a = All-remove value_lt value_lt-StrictWeak IsComparable k es a
drop_id-IsComparable k (i ∷ ids) es g a =
    All-upsert value_lt value_lt-StrictWeak IsComparable k (λ _. i ∷ ids) es g a

pub remove-IsValid :
    (k : Value) (id : ℕ) {t : BTreeIndex} → IsComparable k → IsValid t → IsValid (remove k id t)
unfolding remove
remove-IsValid k id {t} g v = elim (Option-cases (OrdMap.find value_lt k t.entries)) [
  | inl e ↦ rw (e, remove) v
  | inr (ids, e) ↦
      rw (e, remove)
        (record {
          positive = v.positive;
          laid_out = refl;
          sorted = drop_id-IsSorted k (erase_id id ids) t.entries v.sorted;
          comparable = drop_id-IsComparable k (erase_id id ids) t.entries g v.comparable;
        })
]

module _ {t : BTreeIndex} (k q : Value) (id : ℕ) (v : IsValid t) (gk : IsComparable k)
    (gq : IsComparable q) where
  -- A lookup in a valid B+ tree after an insertion, by keys that are no NaN: the new row behind those
  -- found before, under an equal key; what it was, under any other.
  pub find-insert :
      find q (insert k id t) ≡ (if value_eq k q then find q t ++ id ∷ [] else find q t)
  find-insert =
      rw (find-sorted q (insert-IsValid k id gk v) gq, find-sorted q v gq)
        (unfold insert in
          ground (
            arith,
            find-upsert value_lt value_lt-StrictWeak k q (push_back id) t.entries gk gq
                v.comparable,
            OrdMap.find_congr value_lt value_lt-StrictWeak k q t.entries gk gq,
            value_eq-not_lt k q gk gq,
          ))

  find-drop_id :
      (ids : List RowId)
      → ids_or_empty (OrdMap.find value_lt q (drop_id k ids t.entries))
        ≡ (if value_eq k q then ids else ids_or_empty (OrdMap.find value_lt q t.entries))
  unfolding drop_id
  find-drop_id [] = ground (
    arith,
    find-remove value_lt value_lt-StrictWeak k q t.entries v.sorted gk gq v.comparable,
    value_eq-not_lt k q gk gq,
  )
  find-drop_id (i ∷ ids) = ground (
    arith,
    find-upsert value_lt value_lt-StrictWeak k q (λ _. i ∷ ids) t.entries gk gq v.comparable,
    value_eq-not_lt k q gk gq,
  )

  -- A lookup in a valid B+ tree after a removal, by keys that are no NaN: without the removed row,
  -- under an equal key; what it was, under any other.
  pub find-remove_lem :
      find q (remove k id t) ≡ (if value_eq k q then erase_id id (find q t) else find q t)
  unfolding erase_id
  find-remove_lem =
      rw (find-sorted q (remove-IsValid k id gk v) gq, find-sorted q v gq)
        (elim (Option-cases (OrdMap.find value_lt k t.entries)) [
          | inl e ↦
              unfold remove in
              ground (
                arith,
                e,
                OrdMap.find_congr value_lt value_lt-StrictWeak k q t.entries gk gq,
                value_eq-not_lt k q gk gq,
              )
          | inr (ids, e) ↦
              unfold remove in
              ground (
                arith,
                find-drop_id (erase_id id ids),
                e,
                OrdMap.find_congr value_lt value_lt-StrictWeak k q t.entries gk gq,
                value_eq-not_lt k q gk gq,
              )
        ])

-- A test that does not tell one key from another sees an inserted row exactly once.
pub count-rows_where :
    (p : Value → Bool) (k : Value) (id i : ℕ) (es : Entries)
    → ((j : Value) → IsComparable j → is_same value_lt k j ≡ true → p k ≡ p j)
    → All IsComparable (keys es)
    → count i (rows_where p (OrdMap.upsert value_lt k (push_back id) es))
      ≡ count i (rows_where p es) + (if p k then count i (id ∷ []) else 0)
unfolding OrdMap.upsert rows_where
count-rows_where p k id i [] r gs = ground arith
count-rows_where p k id i ((j, ids) ∷ es) r gs = ground (
  arith,
  count-rows_where p k id i es r gs.1,
  r j gs.0,
  count-append i ids (rows_where p es),
  count-append i ids (id ∷ []),
  count-append i (ids ++ id ∷ []) (rows_where p es),
  count-append i ids (rows_where p (OrdMap.upsert value_lt k (push_back id) es)),
)

module _ {t : BTreeIndex} (k q : Value) (id i : ℕ) (v : IsValid t) (gk : IsComparable k)
    (gq : IsComparable q) where
  below_respects :
      (j : Value) → IsComparable j → is_same value_lt k j ≡ true → value_lt k q ≡ value_lt j q
  below_respects j gj s =
      ground (arith, value_lt-StrictWeak.cotrans k j q gj, value_lt-StrictWeak.cotrans j k q gk)

  above_respects :
      (j : Value) → IsComparable j → is_same value_lt k j ≡ true → value_lt q k ≡ value_lt q j
  above_respects j gj s =
      ground (arith, value_lt-StrictWeak.cotrans q j k gj, value_lt-StrictWeak.cotrans q k j gk)

  pub count-less_than-insert :
      count i (less_than q (insert k id t))
      ≡ count i (less_than q t) + (if value_lt k q then count i (id ∷ []) else 0)
  count-less_than-insert =
      rw (less_than-rows_where (insert-IsValid k id gk v) q, less_than-rows_where v q)
        (unfold insert in
          count-rows_where (λ j. value_lt j q) k id i t.entries below_respects v.comparable)

  pub count-greater_than-insert :
      count i (greater_than q (insert k id t))
      ≡ count i (greater_than q t) + (if value_lt q k then count i (id ∷ []) else 0)
  count-greater_than-insert =
      rw (greater_than-rows_where (insert-IsValid k id gk v) q, greater_than-rows_where v q)
        (unfold insert in
          count-rows_where (λ j. value_lt q j) k id i t.entries above_respects v.comparable)
