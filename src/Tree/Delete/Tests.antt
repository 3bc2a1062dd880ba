-- ===== src/Tree/Delete/Tests.antt =====
-- Runs of tree_delete and tree_destroy (tree.c) on small trees.
use mathlib.Core.List.{Perm}
use bflib.Tree.Balance.{IsTree, entries}
use bflib.Tree.Sorted.{IsSorted, lookup}
use bflib.Tree.Sorted.Removal.{delete_entry}
use bflib.Tree.Destroy.{tree_destroy, values, tree_destroy_lem}
use bflib.Tree.Delete.Map.{tree_delete-IsTree, tree_delete-entries}
use bflib.Tree.Tests.{compare-IsOrder}
use Prim.Native.Nat.{compare}
use bflib.Base.{true, false, List, [], ◌∷◌, ℕ, ◌≡◌, refl, Option, none, some}
use bflib.Run.{Returns, Run, ok}
use bflib.Tree.{
  Frame, left_of, red, black, null, node, Tree, is_black_frame, zip, tree_rotate_left,
  tree_rotate_right,
}
use bflib.Tree.Delete.{
  tree_delete, delete_at, find_place, unlink, heir_place, replaced, tree_node_max, correct,
  tree_delete1, tree_delete2, tree_delete3, tree_delete4, tree_delete5, tree_delete6, turn_inner,
  inner_left, copy_color, paint_outer, lift_sibling, with_heir, inner_right,
}

-- black nodes 1, 2 and 4, and two red ones
abbrev sample : Tree ℕ ℕ
sample = record {
  root =
      node black (node black null 1 10 null) 2 20
        (node black (node red null 3 30 null) 4 40 (node red null 5 50 null));
  size = 5;
}

abbrev deleted : Run (Option ℕ × Tree ℕ ℕ)
deleted = tree_delete compare sample 1

-- the deletion of a black leaf rotates at the root
deleted_result :
    deleted
    ≡ ok (
      some 10,
      record {
        root =
            node black
              (node black null 2 20 (node red null 3 30 null))
              4
              40
              (node black null 5 50 null);
        size = 4;
      },
    )
unfolding tree_delete delete_at find_place unlink heir_place replaced tree_node_max correct
    tree_delete1 tree_delete2 tree_delete3 tree_delete4 tree_delete5 tree_delete6 turn_inner
    inner_left copy_color paint_outer lift_sibling with_heir inner_right is_black_frame zip
    tree_rotate_left tree_rotate_right
deleted_result = refl

-- the deletion of the root takes the key and value of its heir
heir_result :
    tree_delete compare sample 2
    ≡ ok (
      some 20,
      record {
        root =
            node black
              (node black null 1 10 (node red null 3 30 null))
              4
              40
              (node black null 5 50 null);
        size = 4;
      },
    )
unfolding tree_delete delete_at find_place unlink heir_place replaced tree_node_max correct
    tree_delete1 tree_delete2 tree_delete3 tree_delete4 tree_delete5 tree_delete6 turn_inner
    inner_left copy_color paint_outer lift_sibling with_heir inner_right is_black_frame zip
    tree_rotate_left tree_rotate_right
heir_result = refl

absent_result : tree_delete compare sample 7 ≡ ok (none, sample)
unfolding tree_delete delete_at find_place
absent_result = refl

-- the parent of the least node of the sample
abbrev parent : List (Frame ℕ ℕ)
parent =
    left_of black 2 20 (node black (node red null 3 30 null) 4 40 (node red null 5 50 null)) ∷ []

sample-IsTree : IsTree sample
sample-IsTree = (
  (
    (
      (tt, tt, refl, tt),
      ((tt, tt, refl, (refl, refl)), (tt, tt, refl, (refl, refl)), refl, tt),
      refl,
      tt,
    ),
    refl,
  ),
  refl,
)

sample-IsSorted : IsSorted compare (entries sample.root)
sample-IsSorted = (
  (refl, (refl, (refl, (refl, tt)))),
  ((refl, (refl, (refl, tt))), ((refl, (refl, tt)), ((refl, tt), (tt, tt)))),
)

tree_delete-IsTree_example : Returns (λ r. IsTree r.1) (tree_delete compare sample 1)
tree_delete-IsTree_example = tree_delete-IsTree compare sample 1 sample-IsTree

tree_delete-entries_example :
    Returns
      (λ r.
        (r.0 ≡ lookup compare 2 (entries sample.root))
        × (entries r.1.root ≡ delete_entry compare 2 (entries sample.root))
        × IsSorted compare (entries r.1.root))
      (tree_delete compare sample 2)
tree_delete-entries_example =
    tree_delete-entries compare compare-IsOrder sample 2 sample-IsTree sample-IsSorted

tree_destroy_lem_example :
    Perm (tree_destroy sample true) (values (entries sample.root))
    × (tree_destroy sample false ≡ [])
tree_destroy_lem_example = tree_destroy_lem sample
