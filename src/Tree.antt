-- ===== src/Tree.antt =====
-- tree.c: red-black trees. A `struct TreeNode *` with its parent pointers is a place in the tree: the
-- subtree at the node, and the chain of frames from its parent up to the root, each with the part of
-- the tree on the other side. Pointer updates (children, parents, `tree->root`) become the same
-- change of subtree or frames, and the root is the subtree with no frame left. A read through NULL
-- is a fault. `cmp` gives the sign of the C result, and NULL results are `none`.
pub mod Balance
pub mod Insert
pub mod Sorted
pub mod Folds
pub mod Destroy
pub mod Delete
pub mod Info
pub mod Tests
use Prim.Native.Nat.{Ordering}
use bflib.Base.{
  ℕ, zero, suc, ◌+◌, Bool, true, false, ◌&&◌, ◌||◌, not, Option, none, some, List, [], ◌∷◌,
  if◌then◌else◌,
}
use bflib.Run.{Run, ok, fault, out_of_fuel, ◌>>=◌}

pub data Color : Type 0 where
  red black : Color

module _ (K V : Type 0) where
  -- a node with its left and right subtrees
  pub data TreeNode : Type 0 where
    null : TreeNode
    node : Color → TreeNode → K → V → TreeNode → TreeNode

  -- a parent whose left child, or right child, is the place in hand
  pub data Frame : Type 0 where
    left_of : Color → K → V → (right : TreeNode) → Frame
    right_of : (left : TreeNode) → Color → K → V → Frame

  pub record Tree : Type 0 where
    pub root : TreeNode
    pub size : ℕ

module _ {K V : Type 0} where
  abbrev pub is_red : TreeNode K V → Bool
  is_red null = false
  is_red (node red l k v r) = true
  is_red (node black l k v r) = false

  abbrev pub is_black : TreeNode K V → Bool
  is_black null = true
  is_black (node red l k v r) = false
  is_black (node black l k v r) = true

  -- `node->color = c`
  abbrev pub set_color : Color → TreeNode K V → TreeNode K V
  set_color c null = null
  set_color c (node _ l k v r) = node c l k v r

  -- the parent's subtree, with `t` at the place in hand
  abbrev pub fill : Frame K V → TreeNode K V → TreeNode K V
  fill (left_of c k v right) t = node c t k v right
  fill (right_of left c k v) t = node c left k v t

  abbrev pub frame_color : Frame K V → Color
  frame_color (left_of c k v right) = c
  frame_color (right_of left c k v) = c

  abbrev pub paint_frame : Color → Frame K V → Frame K V
  paint_frame c (left_of _ k v right) = left_of c k v right
  paint_frame c (right_of left _ k v) = right_of left c k v

  -- the parent's other child
  abbrev pub tree_node_sibling : Frame K V → TreeNode K V
  tree_node_sibling (left_of c k v right) = right
  tree_node_sibling (right_of left c k v) = left

  abbrev pub paint_sibling : Color → Frame K V → Frame K V
  paint_sibling c (left_of d k v right) = left_of d k v (set_color c right)
  paint_sibling c (right_of left d k v) = right_of (set_color c left) d k v

  abbrev pub is_left : Frame K V → Bool
  is_left (left_of c k v right) = true
  is_left (right_of left c k v) = false

  -- the whole tree around a place
  pub zip : List (Frame K V) → TreeNode K V → TreeNode K V
  zip [] t = t
  zip (p ∷ path) t = zip path (fill p t)

  pub tree_rotate_left : TreeNode K V → Run (TreeNode K V)
  tree_rotate_left (node c l k v (node c' l' k' v' r')) = ok (node c' (node c l k v l') k' v' r')
  tree_rotate_left _ = fault

  pub tree_rotate_right : TreeNode K V → Run (TreeNode K V)
  tree_rotate_right (node c (node c' l' k' v' r') k v r) = ok (node c' l' k' v' (node c r' k v r))
  tree_rotate_right _ = fault

  -- `node = node->left` and `node = node->right`, from the subtree of the new parent
  go_left : TreeNode K V → Run (Frame K V × TreeNode K V)
  go_left null = fault
  go_left (node c l k v r) = ok (left_of c k v r, l)

  go_right : TreeNode K V → Run (Frame K V × TreeNode K V)
  go_right null = fault
  go_right (node c l k v r) = ok (right_of l c k v, r)

  -- `p` and `g` are the frames of the parent and of its parent, `path` the frames above
  pub tree_insert5 : Frame K V → Frame K V → List (Frame K V) → TreeNode K V → Run (TreeNode K V)
  tree_insert5 p g path t =
      let top = fill (paint_frame red g) (fill (paint_frame black p) t) in
      let done = λ (s : TreeNode K V). ok (zip path s) in
      if is_left p && is_left g
      then tree_rotate_right top >>= done
      else if not (is_left p) && not (is_left g)
      then tree_rotate_left top >>= done
      else done top

  pub tree_insert4 : Frame K V → Frame K V → List (Frame K V) → TreeNode K V → Run (TreeNode K V)
  tree_insert4 p g path t =
      if not (is_left p) && is_left g
      then (do s ← tree_rotate_left (fill p t); (p, t) ← go_left s; tree_insert5 p g path t)
      else if is_left p && not (is_left g)
      then (do s ← tree_rotate_right (fill p t); (p, t) ← go_right s; tree_insert5 p g path t)
      else tree_insert5 p g path t

  -- with no grandparent there is no uncle, and tree_insert4 reads through NULL. `up` is
  -- tree_insert1 at the grandparent.
  pub tree_insert3 :
      Frame K V
      → List (Frame K V)
      → (TreeNode K V → Run (TreeNode K V))
      → TreeNode K V
      → Run (TreeNode K V)
  tree_insert3 p [] up t = fault
  tree_insert3 p (g ∷ path) up t =
      if is_red (tree_node_sibling g)
      then up (fill (paint_frame red (paint_sibling black g)) (fill (paint_frame black p) t))
      else tree_insert4 p g path t

  is_black_frame : Frame K V → Bool
  is_black_frame p = is_black (fill p null)

  pub tree_insert2 :
      Frame K V
      → List (Frame K V)
      → (TreeNode K V → Run (TreeNode K V))
      → TreeNode K V
      → Run (TreeNode K V)
  tree_insert2 p above up t =
      if is_black_frame p then ok (zip (p ∷ above) t) else tree_insert3 p above up t

  -- the whole tree after the colours are mended from a place upwards
  pub tree_insert1 : List (Frame K V) → TreeNode K V → Run (TreeNode K V)
  tree_insert1 [] t = ok (set_color black t)
  tree_insert1 (p ∷ []) t = tree_insert2 p [] (λ _. fault) t
  tree_insert1 (p ∷ g ∷ path) t = tree_insert2 p (g ∷ path) (tree_insert1 path) t

  pub tree_create : Tree K V
  tree_create = record { root = null; size = 0 }

  pub tree_size : Tree K V → ℕ
  tree_size tree = tree.size

module _ {K V : Type 0} (cmp : K → K → Ordering) where
  -- the walk down from a node: the value under the key, if it is there
  pub find_loop : K → TreeNode K V → Option V
  find_loop key null = none
  find_loop key (node c l k v r) = elim (cmp key k) [
    | Ordering.eq ↦ some v
    | Ordering.lt ↦ find_loop key l
    | Ordering.gt ↦ find_loop key r
  ]

  pub tree_find : Tree K V → K → Option V
  unfolding find_loop
  tree_find tree key = find_loop key tree.root

  -- the walk down of tree_insert, below the frames `path`: the value that is there, or the frames
  -- of the empty place
  pub insert_place : K → TreeNode K V → List (Frame K V) → Option V × List (Frame K V)
  insert_place key null path = (none, path)
  insert_place key (node c l k v r) path = elim (cmp key k) [
    | Ordering.lt ↦ insert_place key l (left_of c k v r ∷ path)
    | Ordering.gt ↦ insert_place key r (right_of l c k v ∷ path)
    | Ordering.eq ↦ (some v, path)
  ]

  insert_at : Tree K V → K → V → Option V × List (Frame K V) → Run (V × Tree K V)
  insert_at tree key value (some old, path) = ok (old, tree)
  insert_at tree key value (none, path) = do
    root ← tree_insert1 path (node red null key value null)
    ok (value, record { root = root; size = tree.size + 1 })

  pub tree_insert : Tree K V → K → V → Run (V × Tree K V)
  unfolding insert_at insert_place
  tree_insert tree key value = insert_at tree key value (insert_place key tree.root [])

-- the two folds, from the least key and from the greatest
module _ {K V S : Type 0} (fun : K → V → S → S) where
  pub tree_node_foldl : TreeNode K V → S → S
  tree_node_foldl null acc = acc
  tree_node_foldl (node c l k v r) acc = tree_node_foldl r (fun k v (tree_node_foldl l acc))

  pub tree_node_foldr : TreeNode K V → S → S
  tree_node_foldr null acc = acc
  tree_node_foldr (node c l k v r) acc = tree_node_foldr l (fun k v (tree_node_foldr r acc))

  pub tree_foldl : Tree K V → S → S
  tree_foldl tree acc = tree_node_foldl tree.root acc

  pub tree_foldr : Tree K V → S → S
  tree_foldr tree acc = tree_node_foldr tree.root acc

  pub tree_fold : Tree K V → S → S
  unfolding tree_foldl
  tree_fold tree acc = tree_foldl tree acc
