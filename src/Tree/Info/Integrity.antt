-- ===== src/Tree/Info/Integrity.antt =====
-- What tree_check_integrity finds, and the heights that tree_info gives a red-black tree (tree.c).
use bflib.Base.{◌+◌, ◌*◌, ◌≤◌, ◌≡◌, refl, Bool, true, false, ◌||◌, arith, ◌↔◌}
use bflib.Tree.{red, black, TreeNode, null, node, Tree, is_red, is_black}
use bflib.Tree.Balance.{IsRedBlack, black_height, IsRooted}
use bflib.Tree.Info.{count, tree_node_info, tree_node_check_integrity, tree_check_integrity}

module _ {K V : Type 0} where
  pub info-black_height :
      (t : TreeNode K V) → IsRedBlack t → (tree_node_info t).black_height ≡ black_height t
  unfolding tree_node_info
  info-black_height null h = refl
  info-black_height (node red l k v r) (hl, hr, n, rule) =
      let left = info-black_height l hl in let right = info-black_height r hr in ground arith
  info-black_height (node black l k v r) (hl, hr, n, rule) =
      let left = info-black_height l hl in let right = info-black_height r hr in ground arith

  pub is_black-count : (t : TreeNode K V) → is_black t ≡ true → count (is_red t) ≡ 0
  is_black-count null b = refl
  is_black-count (node black l k v r) b = refl
  is_black-count (node red l k v r) b = cc

  -- a way down has at most as many red nodes as black ones, and one more below a red root
  pub info-heights :
      (t : TreeNode K V)
      → IsRedBlack t
      → ((tree_node_info t).height ≤ 2 * black_height t + count (is_red t))
        × (black_height t + count (is_red t) ≤ (tree_node_info t).min_height)
  unfolding tree_node_info
  info-heights null h = (ground arith, ground arith)
  info-heights (node red l k v r) (hl, hr, n, (bl, br)) =
      let (l1, l2) = info-heights l hl in
      let (r1, r2) = info-heights r hr in
      let el = is_black-count l bl in let er = is_black-count r br in (ground arith, ground arith)
  info-heights (node black l k v r) (hl, hr, n, rule) =
      let (l1, l2) = info-heights l hl in
      let (r1, r2) = info-heights r hr in (ground arith, ground arith)

  check-IsRedBlack :
      (above : Bool) (t : TreeNode K V) → tree_node_check_integrity above t ≡ true → IsRedBlack t
  unfolding tree_node_check_integrity
  check-IsRedBlack above null e = tt
  check-IsRedBlack above (node red l k v r) e =
      let hl = check-IsRedBlack false l (ground arith) in
      let hr = check-IsRedBlack false r (ground arith) in
      let left = info-black_height l hl in
      let right = info-black_height r hr in (hl, hr, ground arith, (ground arith, ground arith))
  check-IsRedBlack above (node black l k v r) e =
      let hl = check-IsRedBlack true l (ground arith) in
      let hr = check-IsRedBlack true r (ground arith) in
      let left = info-black_height l hl in
      let right = info-black_height r hr in (hl, hr, ground arith, tt)

  IsRedBlack-check :
      (above : Bool) (t : TreeNode K V)
      → IsRedBlack t
      → above || is_black t ≡ true
      → tree_node_check_integrity above t ≡ true
  unfolding tree_node_check_integrity
  IsRedBlack-check above null h e = refl
  IsRedBlack-check above (node red l k v r) (hl, hr, n, (bl, br)) e =
      let check_left = IsRedBlack-check false l hl bl in
      let check_right = IsRedBlack-check false r hr br in
      let left = info-black_height l hl in
      let right = info-black_height r hr in
      let (l1, l2) = info-heights l hl in
      let (r1, r2) = info-heights r hr in
      let el = is_black-count l bl in let er = is_black-count r br in ground arith
  IsRedBlack-check above (node black l k v r) (hl, hr, n, rule) e =
      let check_left = IsRedBlack-check true l hl refl in
      let check_right = IsRedBlack-check true r hr refl in
      let left = info-black_height l hl in
      let right = info-black_height r hr in
      let (l1, l2) = info-heights l hl in let (r1, r2) = info-heights r hr in ground arith

  -- tree_check_integrity returns 1 exactly when the tree is red-black and its root is black: the
  -- test of the heights never fails where those of the colours and black heights succeed.
  pub tree_check_integrity-IsRooted :
      (tree : Tree K V) → (tree_check_integrity tree ≡ true) ↔ IsRooted tree.root
  unfolding tree_check_integrity
  tree_check_integrity-IsRooted tree = (
    λ e. (check-IsRedBlack true tree.root (ground arith), ground arith),
    λ (h, b). let e = IsRedBlack-check true tree.root h refl in ground arith,
  )
