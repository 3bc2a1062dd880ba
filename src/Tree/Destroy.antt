-- ===== src/Tree/Destroy.antt =====
-- tree_destroy (tree.c): the values handed to the destructor, in their order.
use mathlib.Core.List.{Perm, perm_append_singleton}
use mathlib.Core.List.Perm
use bflib.Base.{◌≡◌, refl, ap, Bool, true, false, List, [], ◌∷◌, ◌++◌, if◌then◌else◌}
use bflib.Tree.{TreeNode, null, node, Tree}
use bflib.Tree.Balance.{entries}

module _ {K V : Type 0} where
  -- `destructor` tells if the caller has given one
  tree_destroy_subtree : (destructor : Bool) → TreeNode K V → List V
  tree_destroy_subtree destructor null = []
  tree_destroy_subtree destructor (node c l k v r) =
      tree_destroy_subtree destructor l
      ++ (tree_destroy_subtree destructor r ++ (if destructor then v ∷ [] else []))

  pub tree_destroy : Tree K V → Bool → List V
  unfolding tree_destroy_subtree
  tree_destroy tree destructor = tree_destroy_subtree destructor tree.root

  abbrev pub values : List (K × V) → List V
  values [] = []
  values ((k, v) ∷ es) = v ∷ values es

  values-append : (xs ys : List (K × V)) → values (xs ++ ys) ≡ values xs ++ values ys
  values-append [] ys = refl
  values-append ((k, v) ∷ xs) ys = ap (◌∷◌ v) (values-append xs ys)

  tree_destroy_subtree-perm :
      (t : TreeNode K V) → Perm (tree_destroy_subtree true t) (values (entries t))
  unfolding tree_destroy_subtree
  tree_destroy_subtree-perm null = Perm.refl []
  tree_destroy_subtree-perm (node c l k v r) = rw (values-append (entries l) ((k, v) ∷ entries r)) (
      Perm.append (tree_destroy_subtree-perm l) (
        Perm.trans (perm_append_singleton v (tree_destroy_subtree true r))
          (Perm.cons v (tree_destroy_subtree-perm r))))

  no_destructor : (t : TreeNode K V) → tree_destroy_subtree false t ≡ []
  unfolding tree_destroy_subtree
  no_destructor null = refl
  no_destructor (node c l k v r) = rw (no_destructor l, no_destructor r) refl

  -- tree_destroy with a destructor hands the value of every entry to it once, and no other; with
  -- none it hands over nothing.
  pub tree_destroy_lem :
      (tree : Tree K V)
      → Perm (tree_destroy tree true) (values (entries tree.root)) × (tree_destroy tree false ≡ [])
  unfolding tree_destroy
  tree_destroy_lem tree = (tree_destroy_subtree-perm tree.root, no_destructor tree.root)
