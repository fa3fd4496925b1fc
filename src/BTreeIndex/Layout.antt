-- ===== src/BTreeIndex/Layout.antt =====
-- The nodes hold the entries: what the leaves of a layout contain, and their shape.
use the_city_crdb.Common.{
  ℕ, zero, suc, ◌+◌, ◌≤◌, ◌<◌, ◌≡◌, ◌∙◌, refl, ap, List, [], ◌∷◌, ◌++◌, append_assoc, append-nil,
  arith, length, if◌then◌else◌,
}
use the_city_crdb.Value.{Value, RowId}
use the_city_crdb.BTreeIndex.{
  BTreeNode, Entries, fill_leaf, build_leaves, link_leaves, add_root, layout, root_over,
}

-- `keys[i]` with `rowIds[i]`, for each place i that both have.
abbrev pub zip_entries : List Value → List (List RowId) → Entries
zip_entries [] rs = []
zip_entries (k ∷ ks) [] = []
zip_entries (k ∷ ks) (ids ∷ rs) = (k, ids) ∷ zip_entries ks rs

-- What a walk over the leaves sees, in its order.
abbrev pub leaf_entries : List BTreeNode → Entries
leaf_entries [] = []
leaf_entries (n ∷ nodes) =
    if n.leaf then zip_entries n.keys n.row_ids ++ leaf_entries nodes else leaf_entries nodes

fill_leaf_entries :
    (count : ℕ) (es : Entries)
    → zip_entries (fill_leaf count es).0 (fill_leaf count es).1 ++ (fill_leaf count es).2 ≡ es
unfolding fill_leaf
fill_leaf_entries zero es = refl
fill_leaf_entries (suc count) [] = refl
fill_leaf_entries (suc count) (e ∷ es) = ap (◌∷◌ e) (fill_leaf_entries count es)

length-fill_leaf : (count : ℕ) (es : Entries) → length (fill_leaf count es).2 ≤ length es
unfolding fill_leaf
length-fill_leaf zero es = omega arith
length-fill_leaf (suc count) [] = omega arith
length-fill_leaf (suc count) (e ∷ es) = omega (arith, length-fill_leaf count es)

leaf_entries-build :
    (fuel max page : ℕ) (es : Entries)
    → length es ≤ fuel
    → 0 < max
    → leaf_entries (build_leaves fuel max page es) ≡ es
unfolding build_leaves
leaf_entries-build zero max page [] h p = refl
leaf_entries-build zero max page (e ∷ es) h p = absurd (omega arith)
leaf_entries-build (suc fuel) max page [] h p = refl
leaf_entries-build (suc fuel) zero page (e ∷ es) h p = absurd (omega arith)
leaf_entries-build (suc fuel) (suc max) page (e ∷ es) h p =
    ap (λ l. e ∷ (zip_entries (fill_leaf max es).0 (fill_leaf max es).1 ++ l))
      (leaf_entries-build fuel (suc max) (page + 1) (fill_leaf max es).2
        (omega (arith, length-fill_leaf max es)) (omega arith))
    ∙ ap (◌∷◌ e) (fill_leaf_entries max es)

leaf_entries-link : (ns : List BTreeNode) → leaf_entries (link_leaves ns) ≡ leaf_entries ns
unfolding link_leaves
leaf_entries-link [] = refl
leaf_entries-link (n ∷ []) = refl
leaf_entries-link (n ∷ n' ∷ ns) =
    ap (λ l. if n.leaf then zip_entries n.keys n.row_ids ++ l else l) (leaf_entries-link (n' ∷ ns))

leaf_entries-append :
    (ns ms : List BTreeNode) → leaf_entries (ns ++ ms) ≡ leaf_entries ns ++ leaf_entries ms
leaf_entries-append [] ms = refl
leaf_entries-append (n ∷ ns) ms = ground (
  arith,
  leaf_entries-append ns ms,
  append_assoc (zip_entries n.keys n.row_ids) (leaf_entries ns) (leaf_entries ms),
)

leaf_entries-add_root : (ns : List BTreeNode) → leaf_entries (add_root ns) ≡ leaf_entries ns
unfolding add_root
leaf_entries-add_root [] = refl
leaf_entries-add_root (n ∷ []) = refl
leaf_entries-add_root (n ∷ n' ∷ ns) =
    leaf_entries-append (n ∷ n' ∷ ns) (root_over (n ∷ n' ∷ ns) (n' ∷ ns) ∷ []) ∙ append-nil _

-- The nodes built from the entries, with a positive leaf capacity, have leaves that hold exactly the
-- entries, in order.
pub leaf_entries-layout : (max : ℕ) (es : Entries) → 0 < max → leaf_entries (layout max es) ≡ es
unfolding layout
leaf_entries-layout max [] p = refl
leaf_entries-layout max (e ∷ es) p =
    let leaves = build_leaves (length (e ∷ es)) max 1 (e ∷ es) in
    leaf_entries-add_root (link_leaves leaves)
    ∙ leaf_entries-link leaves
    ∙ leaf_entries-build (length (e ∷ es)) max 1 (e ∷ es) (omega arith) p
