-- ===== src/Tree/Info.antt =====
-- tree_info and tree_check_integrity (tree.c). The parent pointers agree with the children in a
-- tree that is a value, so the two tests of them have no counterpart; the colour of the parent is
-- an argument. A `long` is a natural number.
pub mod Counts
pub mod Integrity
use bflib.Base.{ℕ, ◌+◌, ◌*◌, Bool, true, false, ◌&&◌, not, if◌then◌else◌, ltb, leb, ◌==◌}
use bflib.Tree.{TreeNode, null, node, Tree, is_red, is_black}

pub record TreeInfo : Type 0 where
  pub size : ℕ
  pub height : ℕ
  pub min_height : ℕ
  pub black_height : ℕ
  pub red_number : ℕ
  pub black_number : ℕ

abbrev pub taller : ℕ → ℕ → ℕ
taller left right = if ltb right left then left + 1 else right + 1

abbrev pub shorter : ℕ → ℕ → ℕ
shorter left right = if leb left right then left + 1 else right + 1

abbrev pub count : Bool → ℕ
count test = if test then 1 else 0

module _ {K V : Type 0} where
  pub tree_node_info : TreeNode K V → TreeInfo
  tree_node_info null = record {
    size = 0;
    height = 0;
    min_height = 0;
    black_height = 0;
    red_number = 0;
    black_number = 0;
  }
  tree_node_info (node c l k v r) =
      let left = tree_node_info l in
      let right = tree_node_info r in
      let here = node c l k v r in
      record {
        size = left.size + right.size + 1;
        height = taller left.height right.height;
        min_height = shorter left.min_height right.min_height;
        black_height =
            (if ltb right.black_height left.black_height
              then left.black_height
              else right.black_height)
            + count (is_black here);
        red_number = count (is_red here) + left.red_number + right.red_number;
        black_number = count (is_black here) + left.black_number + right.black_number;
      }

  pub tree_info : Tree K V → TreeInfo
  tree_info tree = tree_node_info tree.root

  -- `above` is IS_BLACK of the node's parent
  pub tree_node_check_integrity : (above : Bool) → TreeNode K V → Bool
  tree_node_check_integrity above null = true
  tree_node_check_integrity above (node c l k v r) =
      let here = node c l k v r in
      let left = tree_node_info l in
      let right = tree_node_info r in
      let check_left = tree_node_check_integrity (is_black here) l in
      let check_right = tree_node_check_integrity (is_black here) r in
      if is_red here && not (above && is_black l && is_black r)
      then false
      else if not (left.black_height == right.black_height)
      then false
      else if not
          (leb (taller left.height right.height) (shorter left.min_height right.min_height * 2))
      then false
      else check_left && check_right

  pub tree_check_integrity : Tree K V → Bool
  tree_check_integrity tree =
      if not (is_black tree.root) then false else tree_node_check_integrity true tree.root
