-- ===== src/Tree/Delete.antt =====
-- tree_delete and its cases (tree.c). The cases of tree_delete1 to tree_delete6 never change the
-- node they are called on, so each takes the frames around it and returns the new ones.
mod Tests
pub mod Mend
pub mod Sibling
pub mod Unlink
pub mod Map
pub mod Heir
use Prim.Native.Nat.{Ordering}
use bflib.Base.{
  ℕ, suc, zero, ◌+◌, ◌-◌, Bool, true, false, ◌&&◌, Option, none, some, List, [], ◌∷◌, ◌++◌, length,
  if◌then◌else◌,
}
use bflib.Run.{Run, ok, fault, out_of_fuel, ◌>>=◌}
use bflib.Tree.{
  Color, red, black, TreeNode, null, node, Frame, left_of, right_of, Tree, is_red, is_black,
  set_color, fill, frame_color, paint_frame, paint_sibling, tree_node_sibling, is_left, zip,
  tree_rotate_left, tree_rotate_right, is_black_frame,
}

module _ {K V : Type 0} where
  -- the rotation at the parent that lifts the sibling: the frames of the parent, in its new place,
  -- and of the sibling
  pub lift_sibling : Frame K V → Run (Frame K V × Frame K V)
  lift_sibling (left_of c k v (node c' l' k' v' r')) = ok (left_of c k v l', left_of c' k' v' r')
  lift_sibling (right_of (node c' l' k' v' r') c k v) = ok (right_of r' c k v, right_of l' c' k' v')
  lift_sibling _ = fault

  -- `s && IS_BLACK(s) && IS_BLACK(s->left) && IS_BLACK(s->right)`
  abbrev pub all_black : TreeNode K V → Bool
  all_black null = false
  all_black (node c l k v r) = is_black (node c l k v r) && is_black l && is_black r

  -- the colour of the sibling's outer child becomes black
  paint_outer : Frame K V → Run (Frame K V)
  paint_outer (left_of c k v (node c' l' k' v' (node _ l k'' v'' r))) =
      ok (left_of c k v (node c' l' k' v' (node black l k'' v'' r)))
  paint_outer (right_of (node c' (node _ l k'' v'' r) k' v' r') c k v) =
      ok (right_of (node c' (node black l k'' v'' r) k' v' r') c k v)
  paint_outer _ = fault

  -- `s->color = node->parent->color`, a fault without a sibling
  copy_color : Frame K V → Run (Frame K V)
  copy_color (left_of c k v (node _ l' k' v' r')) = ok (left_of c k v (node c l' k' v' r'))
  copy_color (right_of (node _ l' k' v' r') c k v) = ok (right_of (node c l' k' v' r') c k v)
  copy_color _ = fault

  pub tree_delete6 : Frame K V → List (Frame K V) → Run (List (Frame K V))
  tree_delete6 p above = do
    p ← copy_color p
    p ← paint_outer (paint_frame black p)
    (p, s) ← lift_sibling p
    ok (p ∷ s ∷ above)

  -- the sibling of a left node, of a right node, with a red inner child turned outwards
  inner_left : TreeNode K V → Run (TreeNode K V)
  inner_left (node c l k v r) =
      if is_black r && is_red l
      then tree_rotate_right (node red (set_color black l) k v r)
      else ok (node c l k v r)
  inner_left null = ok null

  inner_right : TreeNode K V → Run (TreeNode K V)
  inner_right (node c l k v r) =
      if is_black l && is_red r
      then tree_rotate_left (node red l k v (set_color black r))
      else ok (node c l k v r)
  inner_right null = fault

  turn_inner : Frame K V → Run (Frame K V)
  turn_inner (left_of c k v s) =
      if is_black s then (do s ← inner_left s; ok (left_of c k v s)) else ok (left_of c k v s)
  turn_inner (right_of s c k v) =
      if is_black s then (do s ← inner_right s; ok (right_of s c k v)) else ok (right_of s c k v)

  pub tree_delete5 : Frame K V → List (Frame K V) → Run (List (Frame K V))
  tree_delete5 p above = turn_inner p >>= λ p. tree_delete6 p above

  pub tree_delete4 : Frame K V → List (Frame K V) → Run (List (Frame K V))
  tree_delete4 p above =
      if is_red (fill p null) && all_black (tree_node_sibling p)
      then ok (paint_frame black (paint_sibling red p) ∷ above)
      else tree_delete5 p above

  -- `up` is tree_delete1 at the parent
  pub tree_delete3 :
      (List (Frame K V) → Run (List (Frame K V)))
      → Frame K V
      → List (Frame K V)
      → Run (List (Frame K V))
  tree_delete3 up p above =
      if is_black_frame p && all_black (tree_node_sibling p)
      then (do above ← up above; ok (paint_sibling red p ∷ above))
      else tree_delete4 p above

  pub tree_delete2 :
      (List (Frame K V) → Run (List (Frame K V)))
      → Frame K V
      → List (Frame K V)
      → Run (List (Frame K V))
  tree_delete2 up p above =
      if is_red (tree_node_sibling p)
      then (do
        (p, s) ← lift_sibling (paint_frame red (paint_sibling black p))
        tree_delete3 up p (s ∷ above))
      else tree_delete3 up p above

  -- each call, at a node or at its parent, uses one of the fuel
  pub tree_delete1 : ℕ → List (Frame K V) → Run (List (Frame K V))
  tree_delete1 zero path = out_of_fuel
  tree_delete1 (suc fuel) [] = ok []
  tree_delete1 (suc fuel) (p ∷ above) = tree_delete2 (tree_delete1 fuel) p above

  -- the walks to the last and the first node of a subtree, with the frames inside it
  pub tree_node_max : TreeNode K V → List (Frame K V) → TreeNode K V × List (Frame K V)
  tree_node_max (node c l k v (node c' l' k' v' r')) path =
      tree_node_max (node c' l' k' v' r') (right_of l c k v ∷ path)
  tree_node_max t path = (t, path)

  pub tree_node_min : TreeNode K V → List (Frame K V) → TreeNode K V × List (Frame K V)
  tree_node_min (node c (node c' l' k' v' r') k v r) path =
      tree_node_min (node c' l' k' v' r') (left_of c k v r ∷ path)
  tree_node_min t path = (t, path)

  -- the heir, below a frame that has its key and value
  replaced :
      (K → V → Frame K V)
      → List (Frame K V)
      → TreeNode K V × List (Frame K V)
      → TreeNode K V × List (Frame K V)
  replaced frame path (node c l k v r, inside) = (node c l k v r, inside ++ (frame k v ∷ path))
  replaced frame path (null, inside) = (null, path)

  -- the node to unlink: the heir, whose key and value go to the node, or the node itself
  pub heir_place : TreeNode K V → List (Frame K V) → TreeNode K V × List (Frame K V)
  heir_place (node c (node c' l' k' v' r') k v r) path =
      replaced (λ hk hv. left_of c hk hv r) path (tree_node_max (node c' l' k' v' r') [])
  heir_place (node c null k v (node c' l' k' v' r')) path =
      replaced (λ hk hv. right_of null c hk hv) path (tree_node_min (node c' l' k' v' r') [])
  heir_place t path = (t, path)

  -- tree_delete1 at the node, with enough fuel
  correct : List (Frame K V) → Run (List (Frame K V))
  correct path = tree_delete1 (suc (length path)) path

  -- the colour and the frames of a node whose one child is `heir`, before the child is unlinked
  with_heir : Color → TreeNode K V → List (Frame K V) → Run (Color × List (Frame K V))
  with_heir c heir path =
      if is_black heir
      then elim c [ red ↦ ok (black, path) | black ↦ correct path >>= λ path. ok (black, path) ]
      else ok (c, path)

  -- the whole tree with the node unlinked
  pub unlink : TreeNode K V → List (Frame K V) → Run (TreeNode K V)
  unlink null path = fault
  unlink (node c (node c' l' k' v' r') k v r) path =
      with_heir c (node c' l' k' v' r') path >>= λ (c, path). ok (zip path (node c null k' v' r))
  unlink (node c null k v (node c' l' k' v' r')) path =
      with_heir c (node c' l' k' v' r') path >>= λ (c, path). ok (zip path (node c null k' v' null))
  unlink (node red null k v null) path = ok (zip path null)
  unlink (node black null k v null) path = correct path >>= λ path. ok (zip path null)

module _ {K V : Type 0} (cmp : K → K → Ordering) where
  -- the walk of tree_find_node, with the frames above the node
  pub find_place : K → TreeNode K V → List (Frame K V) → TreeNode K V × List (Frame K V)
  find_place key null path = (null, path)
  find_place key (node c l k v r) path = elim (cmp key k) [
    | Ordering.eq ↦ (node c l k v r, path)
    | Ordering.lt ↦ find_place key l (left_of c k v r ∷ path)
    | Ordering.gt ↦ find_place key r (right_of l c k v ∷ path)
  ]

  delete_at : Tree K V → TreeNode K V × List (Frame K V) → Run (Option V × Tree K V)
  delete_at tree (null, path) = ok (none, tree)
  delete_at tree (node c l k v r, path) = do
    let (t, path) = heir_place (node c l k v r) path
    root ← unlink t path
    ok (some v, record { root = root; size = tree.size - 1 })

  pub tree_delete : Tree K V → K → Run (Option V × Tree K V)
  tree_delete tree key = delete_at tree (find_place key tree.root [])
