-- ===== src/Tree/Folds.antt =====
-- The folds of tree.c over the entries in order.
use bflib.Base.{◌≡◌, refl, List, [], ◌∷◌, ◌++◌, ap}
use bflib.Tree.{
  TreeNode, null, node, Tree, tree_node_foldl, tree_node_foldr, tree_foldl, tree_foldr, tree_fold,
}
use bflib.Tree.Balance.{entries}

module _ {K V S : Type 0} (fun : K → V → S → S) where
  -- a fold from the first entry
  pub fold_first : List (K × V) → S → S
  fold_first [] acc = acc
  fold_first ((k, v) ∷ es) acc = fold_first es (fun k v acc)

  -- a fold from the last entry
  pub fold_last : List (K × V) → S → S
  fold_last [] acc = acc
  fold_last ((k, v) ∷ es) acc = fun k v (fold_last es acc)

  fold_first-append :
      (xs ys : List (K × V)) (acc : S)
      → fold_first (xs ++ ys) acc ≡ fold_first ys (fold_first xs acc)
  unfolding fold_first
  fold_first-append [] ys acc = refl
  fold_first-append ((k, v) ∷ xs) ys acc = fold_first-append xs ys (fun k v acc)

  fold_last-append :
      (xs ys : List (K × V)) (acc : S) → fold_last (xs ++ ys) acc ≡ fold_last xs (fold_last ys acc)
  unfolding fold_last
  fold_last-append [] ys acc = refl
  fold_last-append ((k, v) ∷ xs) ys acc = ap (fun k v) (fold_last-append xs ys acc)

  tree_node_foldl-entries :
      (t : TreeNode K V) (acc : S) → tree_node_foldl fun t acc ≡ fold_first (entries t) acc
  unfolding tree_node_foldl fold_first
  tree_node_foldl-entries null acc = refl
  tree_node_foldl-entries (node c l k v r) acc =
      rw (fold_first-append (entries l) ((k, v) ∷ entries r) acc, tree_node_foldl-entries l acc)
        (tree_node_foldl-entries r (fun k v (fold_first (entries l) acc)))

  tree_node_foldr-entries :
      (t : TreeNode K V) (acc : S) → tree_node_foldr fun t acc ≡ fold_last (entries t) acc
  unfolding tree_node_foldr fold_last
  tree_node_foldr-entries null acc = refl
  tree_node_foldr-entries (node c l k v r) acc =
      rw (fold_last-append (entries l) ((k, v) ∷ entries r) acc, tree_node_foldr-entries r acc)
        (tree_node_foldr-entries l (fun k v (fold_last (entries r) acc)))

  -- tree_foldl and tree_fold apply the function to the entries from the first to the last, and
  -- tree_foldr from the last to the first.
  pub tree_fold-entries :
      (tree : Tree K V) (acc : S)
      → (tree_fold fun tree acc ≡ fold_first (entries tree.root) acc)
        × (tree_foldl fun tree acc ≡ fold_first (entries tree.root) acc)
        × (tree_foldr fun tree acc ≡ fold_last (entries tree.root) acc)
  unfolding tree_fold tree_foldl tree_foldr
  tree_fold-entries tree acc = (
    tree_node_foldl-entries tree.root acc,
    tree_node_foldl-entries tree.root acc,
    tree_node_foldr-entries tree.root acc,
  )
