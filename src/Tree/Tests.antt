-- ===== src/Tree/Tests.antt =====
-- Runs of the tree of tree.c on small trees.
use Prim.Native.Nat.{Ordering, compare}
use bflib.Base.{true, length, ◌≤◌, ◌↔◌, ℕ, ◌≡◌, ◌≢◌, refl, some, List, [], ◌∷◌, ◌+◌, ◌*◌, arith}
use bflib.Run.{Run, ok, Returns, ◌>>=◌}
use bflib.Tree.{
  tree_insert2, tree_insert3, tree_insert4, tree_insert5, tree_rotate_left, is_black_frame, zip,
  red, black, null, node, Tree, Frame, left_of, tree_create, tree_insert, tree_find, tree_fold,
  tree_foldl, tree_foldr, tree_insert1,
}
use bflib.Tree.Info.{tree_info, tree_check_integrity}
use bflib.Tree.Info.Counts.{reds, blacks, colors, depths, IsGreatest, IsLeast, tree_info_lem}
use bflib.Tree.Info.Integrity.{tree_check_integrity-IsRooted}
use bflib.Tree.Balance.{IsRooted, black_height, entries, IsTree}
use bflib.Tree.Sorted.{IsOrder, IsSorted, insert_entry, lookup, value_or}
use bflib.Tree.Sorted.Map.{
  tree_insert-IsTree, tree_insert-entries, tree_find-lookup, tree_find-tree_insert,
}
use bflib.Tree.Folds.{fold_first, fold_last, tree_fold-entries}

pub compare-IsOrder : IsOrder compare
compare-IsOrder = record {
  flip = λ a b. ground arith;
  trans = λ a b c p q. ground arith;
  same = λ a b c p. ground arith;
}

-- a root with two red children
abbrev sample : Tree ℕ ℕ
sample = record {
  root = node black (node red null 2 20 null) 4 40 (node red null 6 60 null);
  size = 3;
}

sample-IsTree : IsTree sample
sample-IsTree =
    ((((tt, tt, refl, (refl, refl)), (tt, tt, refl, (refl, refl)), refl, tt), refl), refl)

sample-IsSorted : IsSorted compare (entries sample.root)
sample-IsSorted = ((refl, (refl, tt)), ((refl, tt), (tt, tt)))

-- Insertions that rotate and recolour, and one of a key that is there.
abbrev built : Run (ℕ × Tree ℕ ℕ)
built = do
  (_, t) ← tree_insert compare tree_create 1 10
  (_, t) ← tree_insert compare t 2 20
  (_, t) ← tree_insert compare t 3 30
  (_, t) ← tree_insert compare t 4 40
  (_, t) ← tree_insert compare t 5 50
  tree_insert compare t 2 21

built_result :
    built
    ≡ ok (
      20,
      record {
        root =
            node black
              (node black null 1 10 null)
              2
              20
              (node black (node red null 3 30 null) 4 40 (node red null 5 50 null));
        size = 5;
      },
    )
unfolding tree_insert tree_insert1 tree_create tree_insert2 is_black_frame zip tree_insert3
    tree_insert4 tree_insert5 tree_rotate_left
built_result = refl

tree_insert-IsTree_example : Returns (λ r. IsTree r.1) (tree_insert compare sample 5 50)
tree_insert-IsTree_example = tree_insert-IsTree compare sample 5 50 sample-IsTree

tree_insert-entries_example :
    Returns
      (λ r.
        (entries r.1.root ≡ insert_entry compare 5 50 (entries sample.root))
        × IsSorted compare (entries r.1.root)
        × (some r.0 ≡ lookup compare 5 (entries r.1.root)))
      (tree_insert compare sample 5 50)
tree_insert-entries_example =
    tree_insert-entries compare compare-IsOrder sample 5 50 sample-IsTree sample-IsSorted

tree_find-lookup_example : tree_find compare sample 6 ≡ lookup compare 6 (entries sample.root)
tree_find-lookup_example = tree_find-lookup compare compare-IsOrder sample 6 sample-IsSorted

tree_find-tree_insert_example :
    Returns
      (λ r.
        (tree_find compare r.1 5 ≡ some r.0)
        × (r.0 ≡ value_or 50 (tree_find compare sample 5))
        × ((other : ℕ)
            → compare other 5 ≢ Ordering.eq
            → tree_find compare r.1 other ≡ tree_find compare sample other))
      (tree_insert compare sample 5 50)
tree_find-tree_insert_example =
    tree_find-tree_insert compare compare-IsOrder sample 5 50 sample-IsTree sample-IsSorted

abbrev digits : ℕ → ℕ → ℕ → ℕ
digits k v acc = acc * 10 + k

tree_fold-entries_example :
    (tree_fold digits sample 0 ≡ fold_first digits (entries sample.root) 0)
    × (tree_foldl digits sample 0 ≡ fold_first digits (entries sample.root) 0)
    × (tree_foldr digits sample 0 ≡ fold_last digits (entries sample.root) 0)
tree_fold-entries_example = tree_fold-entries digits sample 0

abbrev frames : List (Frame ℕ ℕ)
frames = left_of red 2 20 null ∷ left_of black 4 40 (node red null 6 60 null) ∷ []

sample-IsRooted : IsRooted sample.root
sample-IsRooted = sample-IsTree.0

tree_check_integrity-IsRooted_example : (tree_check_integrity sample ≡ true) ↔ IsRooted sample.root
tree_check_integrity-IsRooted_example = tree_check_integrity-IsRooted sample

tree_info_lem_example :
    ((tree_info sample).size ≡ length (entries sample.root))
    × ((tree_info sample).red_number ≡ reds (colors sample.root))
    × ((tree_info sample).black_number ≡ blacks (colors sample.root))
    × IsGreatest (tree_info sample).height (depths sample.root)
    × IsLeast (tree_info sample).min_height (depths sample.root)
    × ((tree_info sample).black_height ≡ black_height sample.root)
    × ((tree_info sample).height ≤ 2 * black_height sample.root)
    × (black_height sample.root ≤ (tree_info sample).min_height)
tree_info_lem_example = tree_info_lem sample sample-IsRooted
