-- ===== src/Tests/Storage.antt =====
-- The theorems on the row store, the buffer pool and the indexes at small examples.
use mathlib.Core.Path.{subst}
use the_city_crdb.BTreeIndex
use the_city_crdb.BTreeIndex.{BTreeIndex, Entries, layout, new_index}
use the_city_crdb.BTreeIndex.Layout.{leaf_entries, leaf_entries-layout}
use the_city_crdb.BTreeIndex.Search
use the_city_crdb.BTreeIndex.Search.{greater_than-rows_where, less_than-rows_where, rows_where}
use the_city_crdb.BufferPool
use the_city_crdb.BufferPool.{BufferPool, Page}
use the_city_crdb.BufferPool.Recency
use the_city_crdb.BufferPool.Refinement.{Gets, Puts, get-Gets, new_pool-IsValid, put-Puts}
use the_city_crdb.Common.{ℕ, ◌<◌, ◌≡◌, refl, sym, ◌++◌, false, [], ◌∷◌, arith, length, pos}
use the_city_crdb.HashIndex.Lookup
use the_city_crdb.RowStore
use the_city_crdb.RowStore.{PageRowStore}
use the_city_crdb.RowStore.Refinement
use the_city_crdb.RowStore.Vector
use the_city_crdb.Table.{rows_snapshot}
use the_city_crdb.Tests.{people, people-IsValid, people_rows, row_c}
use the_city_crdb.Value.{Value, int, value_eq, value_lt}

abbrev one : Value
one = int (pos 1)

abbrev two : Value
two = int (pos 2)

-- The pool with room for one page, and with a page in it.
abbrev empty_pool : BufferPool
empty_pool = record { capacity = 1; pages = []; lru = [] }

abbrev page_of : ℕ → Page
page_of i = record { id = i; bytes = 7 ∷ []; dirty = false }

abbrev full_pool : BufferPool
full_pool = BufferPool.put (page_of 3) empty_pool

empty_pool-IsValid : Recency.IsValid empty_pool
empty_pool-IsValid = (new_pool-IsValid 1 {pool = empty_pool} (unfold BufferPool.new_pool in refl)).0

full_pool-IsValid : Recency.IsValid full_pool
full_pool-IsValid = (put-Puts (page_of 3) empty_pool empty_pool-IsValid).0

put-Puts_example : Puts (page_of 4) full_pool (BufferPool.put (page_of 4) full_pool)
put-Puts_example = put-Puts (page_of 4) full_pool full_pool-IsValid

get-Gets_example : Gets 3 full_pool (BufferPool.get 3 full_pool)
get-Gets_example = get-Gets 3 full_pool full_pool-IsValid

abbrev store : PageRowStore
store = people.row_store

append_lem_example :
    Refinement.IsValid (RowStore.append row_c store).0
    × (RowStore.snapshot (RowStore.append row_c store).0 ≡ RowStore.snapshot store ++ row_c ∷ [])
    × ((RowStore.append row_c store).1 ≡ length (RowStore.snapshot store))
append_lem_example = Refinement.append_lem row_c store people-IsValid.store

erase_lem_example :
    Refinement.IsValid (RowStore.erase 0 store).0
    × (((RowStore.snapshot (RowStore.erase 0 store).0, (RowStore.erase 0 store).1))
        ≡ Vector.erase 0 (RowStore.snapshot store))
erase_lem_example = Refinement.erase_lem 0 store people-IsValid.store

update_lem_example : Refinement.Updates 1 row_c store
update_lem_example =
    Refinement.update_lem 1 row_c store people-IsValid.store
      (unfold rows_snapshot in subst (λ rows. 1 < length rows) (sym people_rows) (omega arith))

abbrev entries : Entries
entries = (one, 4 ∷ []) ∷ (two, 5 ∷ 6 ∷ []) ∷ []

leaf_entries-layout_example : leaf_entries (layout 1 entries) ≡ entries
leaf_entries-layout_example = leaf_entries-layout 1 entries (omega arith)

-- A tree with leaves of one key: two leaves and a root.
abbrev tree : BTreeIndex
tree = record { entries = entries; max_keys_per_leaf = 1; nodes = layout 1 entries }

tree-IsValid : Search.IsValid tree
unfolding value_lt
tree-IsValid = record {
  positive = omega arith;
  laid_out = refl;
  sorted = ((refl, tt), (tt, tt));
  comparable = (tt, (tt, tt));
}

less_than-rows_where_example :
    BTreeIndex.less_than two tree ≡ rows_where (λ j. value_lt j two) entries
less_than-rows_where_example = less_than-rows_where tree-IsValid two

hash-IsValid : Lookup.IsValid entries
unfolding value_eq
hash-IsValid = ((refl, tt), (λ e. cc), (tt, (λ e. cc), tt))
