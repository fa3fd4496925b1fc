-- ===== src/BTreeIndex.antt =====
-- The ordered index: include/VertexDB/indexing/btree_index.hpp and src/indexing/btree_index.cpp.
-- Its nodes are built anew from the sorted entries after each change.
pub mod Layout
pub mod Search
pub mod Updates
use the_city_crdb.Common.{
  ℕ, zero, suc, ◌+◌, Bool, true, false, not, ◌&&◌, Option, none, some, List, [], ◌∷◌, ◌++◌, ◌==◌,
  leb, if◌then◌else◌, length, Result, ok, err, zero_leaf_capacity,
}
use the_city_crdb.Common.OrdMap
use the_city_crdb.HashIndex.{erase_id}
use the_city_crdb.Value.{Value, RowId, value_eq, value_lt}

abbrev pub PageId : Type 0
PageId = ℕ

pub record BTreeNode : Type 0 where
  pub page_id : PageId
  pub leaf : Bool
  pub keys : List Value
  pub row_ids : List (List RowId)
  pub children : List PageId
  pub next_leaf : Option PageId

-- `std::map<Value, std::vector<RowId>>`
abbrev pub Entries : Type 0
Entries = List (Value × List RowId)

pub record BTreeIndex : Type 0 where
  pub entries : Entries
  pub max_keys_per_leaf : ℕ
  pub nodes : List BTreeNode

-- The inner loop that fills a leaf: the keys, their rows, and the entries that are left.
unfoldable pub fill_leaf : ℕ → Entries → List Value × List (List RowId) × Entries
fill_leaf zero entries = ([], [], entries)
fill_leaf (suc count) [] = ([], [], [])
fill_leaf (suc count) ((key, ids) ∷ entries) =
    let (ks, rs, rest) = fill_leaf count entries in (key ∷ ks, ids ∷ rs, rest)

abbrev leaf_node : PageId → List Value → List (List RowId) → BTreeNode
leaf_node page ks rs = record {
  page_id = page;
  leaf = true;
  keys = ks;
  row_ids = rs;
  children = [];
  next_leaf = none;
}

-- `while (it != entries_.end())`, with fuel: the leaves, without their links.
unfoldable pub build_leaves : ℕ → ℕ → PageId → Entries → List BTreeNode
unfolding fill_leaf
build_leaves zero max_keys page entries = []
build_leaves (suc fuel) max_keys page [] = []
build_leaves (suc fuel) max_keys page (e ∷ entries) =
    let (ks, rs, rest) = fill_leaf max_keys (e ∷ entries) in
    leaf_node page ks rs ∷ build_leaves fuel max_keys (page + 1) rest

-- `nodes_[i].nextLeaf = nodes_[i + 1].pageId`
unfoldable pub link_leaves : List BTreeNode → List BTreeNode
link_leaves [] = []
link_leaves (n ∷ []) = n ∷ []
link_leaves (n ∷ n' ∷ nodes) = record n { next_leaf = some n'.page_id } ∷ link_leaves (n' ∷ nodes)

abbrev page_ids : List BTreeNode → List PageId
page_ids [] = []
page_ids (n ∷ nodes) = n.page_id ∷ page_ids nodes

-- `keys.front()` of each node; a leaf is never without keys.
front_keys : List BTreeNode → List Value
front_keys [] = []
front_keys (n ∷ nodes) = elim n.keys [ [] ↦ front_keys nodes | k ∷ _ ↦ k ∷ front_keys nodes ]

abbrev root_over : List BTreeNode → List BTreeNode → BTreeNode
root_over all_leaves later_leaves = record {
  page_id = length all_leaves + 1;
  leaf = false;
  keys = front_keys later_leaves;
  row_ids = [];
  children = page_ids all_leaves;
  next_leaf = none;
}

-- A root stands above two leaves or more.
unfoldable pub add_root : List BTreeNode → List BTreeNode
unfolding front_keys
add_root [] = []
add_root (n ∷ []) = n ∷ []
add_root (n ∷ n' ∷ nodes) = (n ∷ n' ∷ nodes) ++ root_over (n ∷ n' ∷ nodes) (n' ∷ nodes) ∷ []

unfoldable pub layout : ℕ → Entries → List BTreeNode
unfolding build_leaves link_leaves add_root
layout max_keys [] = leaf_node 1 [] [] ∷ []
layout max_keys (e ∷ entries) =
    add_root (link_leaves (build_leaves (length (e ∷ entries)) max_keys 1 (e ∷ entries)))

unfoldable pub rebuild_layout : BTreeIndex → BTreeIndex
unfolding layout
rebuild_layout t = record t { nodes = layout t.max_keys_per_leaf t.entries }

unfoldable pub new_index : ℕ → Result BTreeIndex
unfolding rebuild_layout
new_index max_keys =
    if max_keys == 0
    then err zero_leaf_capacity
    else ok (rebuild_layout (record { entries = []; max_keys_per_leaf = max_keys; nodes = [] }))

abbrev pub push_back : RowId → Option (List RowId) → List RowId
push_back row_id none = row_id ∷ []
push_back row_id (some ids) = ids ++ row_id ∷ []

unfoldable pub insert : Value → RowId → BTreeIndex → BTreeIndex
unfolding rebuild_layout
insert key row_id t =
    rebuild_layout (record t { entries = OrdMap.upsert value_lt key (push_back row_id) t.entries })

-- The entry of `key`, whose rows were `ids`, is written back or taken out.
drop_id : Value → List RowId → Entries → Entries
drop_id key [] entries = OrdMap.remove value_lt key entries
drop_id key (i ∷ ids) entries = OrdMap.upsert value_lt key (λ _. i ∷ ids) entries

unfoldable pub remove : Value → RowId → BTreeIndex → BTreeIndex
unfolding rebuild_layout drop_id
remove key row_id t = elim (OrdMap.find value_lt key t.entries) [
  | none ↦ t
  | some ids ↦ rebuild_layout (record t { entries = drop_id key (erase_id row_id ids) t.entries })
]

unfoldable pub clear : BTreeIndex → BTreeIndex
unfolding rebuild_layout
clear t = rebuild_layout (record t { entries = [] })

-- The loop over one node's keys: `nodes.keys[i]` with `nodes.rowIds[i]`.
find_in_leaf : Value → List Value → List (List RowId) → Option (List RowId)
find_in_leaf key [] rs = none
find_in_leaf key (k ∷ ks) [] = none
find_in_leaf key (k ∷ ks) (ids ∷ rs) =
    let rest = find_in_leaf key ks rs in if value_eq k key then some ids else rest

find_in_nodes : Value → List BTreeNode → List RowId
find_in_nodes key [] = []
find_in_nodes key (n ∷ nodes) =
    let rest = find_in_nodes key nodes in
    if not n.leaf
    then rest
    else elim (find_in_leaf key n.keys n.row_ids) [ some ids ↦ ids | none ↦ rest ]

unfoldable pub find : Value → BTreeIndex → List RowId
unfolding find_in_nodes find_in_leaf
find key t = find_in_nodes key t.nodes

-- The loop of `lessThan` over one node's keys, and whether it returned.
less_in_leaf : Value → List Value → List (List RowId) → List RowId → Bool × List RowId
less_in_leaf key [] rs result = (false, result)
less_in_leaf key (k ∷ ks) [] result = (false, result)
less_in_leaf key (k ∷ ks) (ids ∷ rs) result =
    let rest = less_in_leaf key ks rs (result ++ ids) in
    if not (value_lt k key) then (true, result) else rest

less_in_nodes : Value → List BTreeNode → List RowId → List RowId
less_in_nodes key [] result = result
less_in_nodes key (n ∷ nodes) result =
    let (returned, found) = less_in_leaf key n.keys n.row_ids result in
    let skipped = less_in_nodes key nodes result in
    let continued = less_in_nodes key nodes found in
    if not n.leaf then skipped else if returned then found else continued

unfoldable pub less_than : Value → BTreeIndex → List RowId
unfolding less_in_nodes less_in_leaf
less_than key t = less_in_nodes key t.nodes []

-- The loop of `greaterThan` over one node's keys; `collecting` starts at the first greater key.
greater_in_leaf : Value → List Value → List (List RowId) → Bool → List RowId → Bool × List RowId
greater_in_leaf key [] rs collecting result = (collecting, result)
greater_in_leaf key (k ∷ ks) [] collecting result = (collecting, result)
greater_in_leaf key (k ∷ ks) (ids ∷ rs) collecting result =
    let now = if not collecting && value_lt key k then true else collecting in
    greater_in_leaf key ks rs now (if now then result ++ ids else result)

greater_in_nodes : Value → List BTreeNode → Bool → List RowId → List RowId
greater_in_nodes key [] collecting result = result
greater_in_nodes key (n ∷ nodes) collecting result =
    let (now, found) = greater_in_leaf key n.keys n.row_ids collecting result in
    if not n.leaf
    then greater_in_nodes key nodes collecting result
    else greater_in_nodes key nodes now found

unfoldable pub greater_than : Value → BTreeIndex → List RowId
unfolding greater_in_nodes greater_in_leaf
greater_than key t = greater_in_nodes key t.nodes false []

unfoldable pub size : BTreeIndex → ℕ
size t = length t.entries

unfoldable pub height : BTreeIndex → ℕ
height t = if leb (length t.nodes) 1 then 1 else 2

count_leaves : List BTreeNode → ℕ
count_leaves [] = 0
count_leaves (n ∷ nodes) = if n.leaf then suc (count_leaves nodes) else count_leaves nodes

unfoldable pub leaf_page_count : BTreeIndex → ℕ
unfolding count_leaves
leaf_page_count t = count_leaves t.nodes
