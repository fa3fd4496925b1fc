-- ===== src/BTreeIndex/Search.antt =====
-- The searches over the nodes, against the entries.
use the_city_crdb.Common.{
  ◌<◌, ◌≡◌, ◌∙◌, sym, refl, ap, Bool, true, false, not, List, [], ◌∷◌, ◌++◌, append_assoc,
  append-nil, arith, if◌then◌else◌, Option, none, some, ◌&&◌, Bool-cases, inl, inr,
}
use the_city_crdb.Common.OrdMap
use the_city_crdb.Common.OrdMap.{All, All-imp, keys, IsSorted, StrictWeak}
use the_city_crdb.HashIndex
use the_city_crdb.Value.{Value, RowId, value_lt}
use the_city_crdb.Value.Order.{IsComparable, value_lt_trans, value_lt_irrefl, value_eq-not_lt}
use the_city_crdb.BTreeIndex.{
  BTreeNode, BTreeIndex, Entries, find_in_leaf, find_in_nodes, less_in_leaf, less_in_nodes,
  greater_in_leaf, greater_in_nodes, find, less_than, greater_than, layout,
}
use the_city_crdb.BTreeIndex.Layout.{zip_entries, leaf_entries, leaf_entries-layout}

-- The rows of the entries whose key passes the test, in key order.
unfoldable pub rows_where : (Value → Bool) → Entries → List RowId
rows_where p [] = []
rows_where p ((k, ids) ∷ es) = if p k then ids ++ rows_where p es else rows_where p es

-- The walk of `lessThan`, which ends at the first key that is not less.
rows_below : Value → Entries → List RowId
rows_below key [] = []
rows_below key ((k, ids) ∷ es) = if value_lt k key then ids ++ rows_below key es else []

-- The walk of `greaterThan`, which takes all from the first greater key.
rows_from : Value → Bool → Entries → List RowId
rows_from key c [] = []
rows_from key c ((k, ids) ∷ es) =
    let now = if not c && value_lt key k then true else c in
    if now then ids ++ rows_from key now es else rows_from key now es

find_in_leaf_lem :
    (key : Value) (ks : List Value) (rs : List (List RowId)) (es : Entries)
    → HashIndex.find key (zip_entries ks rs ++ es)
      ≡ (elim (find_in_leaf key ks rs) [ some ids ↦ ids | none ↦ HashIndex.find key es ])
unfolding HashIndex.find find_in_leaf
find_in_leaf_lem key [] rs es = refl
find_in_leaf_lem key (k ∷ ks) [] es = refl
find_in_leaf_lem key (k ∷ ks) (ids ∷ rs) es = ground (arith, find_in_leaf_lem key ks rs es)

find_in_nodes_lem :
    (key : Value) (ns : List BTreeNode)
    → find_in_nodes key ns ≡ HashIndex.find key (leaf_entries ns)
unfolding HashIndex.find find_in_nodes
find_in_nodes_lem key [] = refl
find_in_nodes_lem key (n ∷ ns) =
    ground
      (arith, find_in_nodes_lem key ns, find_in_leaf_lem key n.keys n.row_ids (leaf_entries ns))

abbrev less_rest : Value → Bool × List RowId → Entries → List RowId
less_rest key r es = if r.0 then r.1 else r.1 ++ rows_below key es

less_in_leaf_lem :
    (key : Value) (ks : List Value) (rs : List (List RowId)) (acc : List RowId) (es : Entries)
    → less_rest key (less_in_leaf key ks rs acc) es
      ≡ acc ++ rows_below key (zip_entries ks rs ++ es)
unfolding rows_below less_in_leaf
less_in_leaf_lem key [] rs acc es = refl
less_in_leaf_lem key (k ∷ ks) [] acc es = refl
less_in_leaf_lem key (k ∷ ks) (ids ∷ rs) acc es = ground (
  arith,
  less_in_leaf_lem key ks rs (acc ++ ids) es,
  append_assoc acc ids (rows_below key (zip_entries ks rs ++ es)),
  append-nil acc,
)

less_in_nodes_lem :
    (key : Value) (ns : List BTreeNode) (acc : List RowId)
    → less_in_nodes key ns acc ≡ acc ++ rows_below key (leaf_entries ns)
unfolding rows_below less_in_nodes
less_in_nodes_lem key [] acc = sym (append-nil acc)
less_in_nodes_lem key (n ∷ ns) acc = ground (
  arith,
  less_in_nodes_lem key ns acc,
  less_in_nodes_lem key ns (less_in_leaf key n.keys n.row_ids acc).1,
  less_in_leaf_lem key n.keys n.row_ids acc (leaf_entries ns),
)

greater_in_leaf_lem :
    (key : Value) (ks : List Value) (rs : List (List RowId)) (c : Bool) (acc : List RowId)
    (es : Entries)
    → (greater_in_leaf key ks rs c acc).1 ++ rows_from key (greater_in_leaf key ks rs c acc).0 es
      ≡ acc ++ rows_from key c (zip_entries ks rs ++ es)
unfolding rows_from greater_in_leaf
greater_in_leaf_lem key [] rs c acc es = refl
greater_in_leaf_lem key (k ∷ ks) [] c acc es = refl
greater_in_leaf_lem key (k ∷ ks) (ids ∷ rs) c acc es =
    let tail = zip_entries ks rs ++ es in
    elim (if not c && value_lt key k then true else c)
      as (λ b.
        (greater_in_leaf key ks rs b (if b then acc ++ ids else acc)).1
          ++ rows_from key (greater_in_leaf key ks rs b (if b then acc ++ ids else acc)).0 es
        ≡ acc ++ (if b then ids ++ rows_from key b tail else rows_from key b tail)) [
          | true ↦
              greater_in_leaf_lem key ks rs true (acc ++ ids) es
              ∙ append_assoc acc ids (rows_from key true tail)
          | false ↦ greater_in_leaf_lem key ks rs false acc es
        ]

greater_in_nodes_lem :
    (key : Value) (ns : List BTreeNode) (c : Bool) (acc : List RowId)
    → greater_in_nodes key ns c acc ≡ acc ++ rows_from key c (leaf_entries ns)
unfolding rows_from greater_in_nodes
greater_in_nodes_lem key [] c acc = sym (append-nil acc)
greater_in_nodes_lem key (n ∷ ns) c acc = elim (Bool-cases n.leaf) [
  | inl e ↦ rw e (
      greater_in_nodes_lem key ns (greater_in_leaf key n.keys n.row_ids c acc).0
        (greater_in_leaf key n.keys n.row_ids c acc).1
      ∙ greater_in_leaf_lem key n.keys n.row_ids c acc (leaf_entries ns))
  | inr e ↦ rw e (greater_in_nodes_lem key ns c acc)
]

-- On sorted entries the walks select by their tests.
none_below :
    (key : Value) (es : Entries)
    → All (λ j. value_lt j key ≡ false) (keys es)
    → rows_where (λ j. value_lt j key) es ≡ []
unfolding rows_where
none_below key [] a = refl
none_below key ((k, ids) ∷ es) a = ground (arith, none_below key es a.1)

rows_below-sorted :
    (key : Value) (es : Entries)
    → IsSorted value_lt es
    → rows_below key es ≡ rows_where (λ j. value_lt j key) es
unfolding rows_where rows_below
rows_below-sorted key [] s = refl
rows_below-sorted key ((k, ids) ∷ es) s = elim (Bool-cases (value_lt k key)) [
  | inl e ↦ rw e (ap (λ l. ids ++ l) (rows_below-sorted key es s.1))
  | inr e ↦ rw e (
      sym
        (none_below key es (All-imp (λ j h. ground (arith, value_lt_trans k j key)) (keys es) s.0)))
]

All-above :
    (key : Value) (es : Entries)
    → All (λ j. value_lt key j ≡ true) (keys es)
    → rows_from key true es ≡ rows_where (λ j. value_lt key j) es
unfolding rows_where rows_from
All-above key [] a = refl
All-above key ((k, ids) ∷ es) a = ground (arith, All-above key es a.1)

rows_from-sorted :
    (key : Value) (es : Entries)
    → IsSorted value_lt es
    → rows_from key false es ≡ rows_where (λ j. value_lt key j) es
unfolding rows_where rows_from
rows_from-sorted key [] s = refl
rows_from-sorted key ((k, ids) ∷ es) s = elim (Bool-cases (value_lt key k)) [
  | inl e ↦ rw e (
      ap (λ l. ids ++ l)
        (All-above key es (All-imp (λ j h. value_lt_trans key k j e h) (keys es) s.0)))
  | inr e ↦ rw e (rows_from-sorted key es s.1)
]

-- An index whose nodes are the layout of its entries, which are sorted by keys that are no NaN.
pub record IsValid (t : BTreeIndex) : Type 0 where
  pub positive : 0 < t.max_keys_per_leaf
  pub laid_out : t.nodes ≡ layout t.max_keys_per_leaf t.entries
  pub sorted : IsSorted value_lt t.entries
  pub comparable : All IsComparable (keys t.entries)

module _ {t : BTreeIndex} (v : IsValid t) where
  leaf_entries-nodes : leaf_entries t.nodes ≡ t.entries
  leaf_entries-nodes =
      ap leaf_entries v.laid_out ∙ leaf_entries-layout t.max_keys_per_leaf t.entries v.positive

  pub find-entries : (key : Value) → find key t ≡ HashIndex.find key t.entries
  unfolding find
  find-entries key = find_in_nodes_lem key t.nodes ∙ ap (HashIndex.find key) leaf_entries-nodes

  -- On a valid B+ tree, the walk of `lessThan` over the nodes returns the rows of all entries whose
  -- key is less, in key order.
  pub less_than-rows_where :
      (key : Value) → less_than key t ≡ rows_where (λ j. value_lt j key) t.entries
  unfolding less_than
  less_than-rows_where key =
      less_in_nodes_lem key t.nodes []
      ∙ ap (rows_below key) leaf_entries-nodes
      ∙ rows_below-sorted key t.entries v.sorted

  -- On a valid B+ tree, the walk of `greaterThan` over the nodes returns the rows of all entries whose
  -- key is greater, in key order.
  pub greater_than-rows_where :
      (key : Value) → greater_than key t ≡ rows_where (λ j. value_lt key j) t.entries
  unfolding greater_than
  greater_than-rows_where key =
      greater_in_nodes_lem key t.nodes false []
      ∙ ap (rows_from key false) leaf_entries-nodes
      ∙ rows_from-sorted key t.entries v.sorted

abbrev pub ids_or_empty : Option (List RowId) → List RowId
ids_or_empty none = []
ids_or_empty (some ids) = ids

All-below :
    (q k : Value) (ks : List Value)
    → All (λ j. value_lt k j ≡ true) ks
    → value_lt q k ≡ true
    → All (λ j. value_lt q j ≡ true) ks
All-below q k ks a h = All-imp (λ j r. value_lt_trans q k j h r) ks a

hash_find_below :
    (q : Value) (es : Entries)
    → IsComparable q
    → All IsComparable (keys es)
    → All (λ j. value_lt q j ≡ true) (keys es)
    → HashIndex.find q es ≡ []
unfolding HashIndex.find
hash_find_below q [] g gs a = refl
hash_find_below q ((k, ids) ∷ es) g gs a =
    ground (arith, hash_find_below q es g gs.1 a.1, value_eq-not_lt k q gs.0 g, a.0)

-- The scan for an equal key finds what the tree's own order finds.
pub find_agree :
    (q : Value) (es : Entries)
    → IsComparable q
    → All IsComparable (keys es)
    → IsSorted value_lt es
    → HashIndex.find q es ≡ ids_or_empty (OrdMap.find value_lt q es)
unfolding HashIndex.find OrdMap.find
find_agree q [] g gs s = refl
find_agree q ((k, ids) ∷ es) g gs s = ground (
  arith,
  find_agree q es g gs.1 s.1,
  value_eq-not_lt k q gs.0 g,
  hash_find_below q es g gs.1,
  All-below q k (keys es) s.0,
  value_lt_trans k q k,
  value_lt_irrefl k,
)
