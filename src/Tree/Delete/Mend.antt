-- ===== src/Tree/Delete/Mend.antt =====
-- tree_delete1 to tree_delete4 (tree.c) make up for a black node that goes.
use mathlib.Core.List.{append_assoc}
use bflib.Base.{ℕ, zero, suc, ◌<◌, ◌≡◌, refl, ◌∙◌, true, false, List, [], ◌∷◌, arith, length, ◌&&◌}
use bflib.Run.{Run, Returns, returns, Returns-if, Returns-map, Returns-bind}
use bflib.Tree.{
  Color, red, black, TreeNode, null, node, Frame, left_of, right_of, is_black, fill, zip,
  frame_color, paint_frame, paint_sibling, tree_node_sibling, is_black_frame, set_color,
}
use bflib.Tree.Balance.{IsRedBlack, black_height, FitsAround, entries, entries-zip}
use bflib.Tree.Delete.{
  tree_delete1, tree_delete2, tree_delete3, tree_delete4, lift_sibling, all_black,
}
use bflib.Tree.Delete.Sibling.{Lowered, tree_delete5-Lowered}

module _ {K V : Type 0} where
  -- a black node in place of a red one
  pub blacken-FitsAround :
      (path : List (Frame K V)) (n : ℕ) → FitsAround path false n → FitsAround path true n
  blacken-FitsAround [] n f = cc
  blacken-FitsAround (left_of black k v s ∷ path) n f = f
  blacken-FitsAround (right_of s black k v ∷ path) n f = f
  blacken-FitsAround (left_of red k v s ∷ path) n f = let (_, _, (e, _), _) = f in cc
  blacken-FitsAround (right_of s red k v ∷ path) n f = let (_, _, (e, _), _) = f in cc

  paint-fill :
      (c d : Color) (p : Frame K V) (t : TreeNode K V)
      → entries (fill (paint_frame c (paint_sibling d p)) t) ≡ entries (fill p t)
  paint-fill c d (left_of e k v null) t = refl
  paint-fill c d (right_of null e k v) t = refl
  paint-fill c d (left_of e k v (node e' l' k' v' r')) t = refl
  paint-fill c d (right_of (node e' l' k' v' r') e k v) t = refl

  -- a black sibling with black children becomes red
  redden_sibling :
      (s : TreeNode K V) (n : ℕ)
      → all_black s ≡ true
      → IsRedBlack s
      → black_height s ≡ suc n
      → IsRedBlack (set_color red s) × (black_height (set_color red s) ≡ n)
  redden_sibling null n e h m = cc
  redden_sibling (node red l k v r) n e h m = cc
  redden_sibling (node black l k v r) n e (hl, hr, d, _) m =
      ((hl, hr, d, (ground arith, ground arith)), omega arith)

  tree_delete4-Lowered :
      (n : ℕ) (p : Frame K V) (path : List (Frame K V))
      → FitsAround (p ∷ path) true (suc n)
      → is_black (tree_node_sibling p) ≡ true
      → is_black_frame p && all_black (tree_node_sibling p) ≡ false
      → Returns (Lowered n (p ∷ path)) (tree_delete4 p path)
  unfolding tree_delete4 is_black_frame zip
  tree_delete4-Lowered n (left_of red k v s) path f e e' =
      let (hs, m, _, above) = f in
      Returns-if (all_black s)
        (λ a.
          let (h, m') = redden_sibling s n a hs m in
          returns (
            (h, m', tt, blacken-FitsAround path (suc n) above),
            λ t. entries-zip path _ _ (paint-fill black red (left_of red k v s) t),
          ))
        (λ a. tree_delete5-Lowered n (left_of red k v s) path f e a)
  tree_delete4-Lowered n (right_of s red k v) path f e e' =
      let (hs, m, _, above) = f in
      Returns-if (all_black s)
        (λ a.
          let (h, m') = redden_sibling s n a hs m in
          returns (
            (h, m', tt, blacken-FitsAround path (suc n) above),
            λ t. entries-zip path _ _ (paint-fill black red (right_of s red k v) t),
          ))
        (λ a. tree_delete5-Lowered n (right_of s red k v) path f e a)
  tree_delete4-Lowered n (left_of black k v s) path f e e' =
      tree_delete5-Lowered n (left_of black k v s) path f e e'
  tree_delete4-Lowered n (right_of s black k v) path f e e' =
      tree_delete5-Lowered n (right_of s black k v) path f e e'

  -- `up` is tree_delete1 at the parent
  tree_delete3-Lowered :
      (n : ℕ) (up : List (Frame K V) → Run (List (Frame K V))) (p : Frame K V)
      (path : List (Frame K V))
      → FitsAround (p ∷ path) true (suc n)
      → is_black (tree_node_sibling p) ≡ true
      → (frame_color p ≡ black
          → FitsAround path true (suc (suc n))
          → Returns (Lowered (suc n) path) (up path))
      → Returns (Lowered n (p ∷ path)) (tree_delete3 up p path)
  unfolding tree_delete3 is_black_frame zip
  tree_delete3-Lowered n up (left_of red k v s) path f e ih =
      tree_delete4-Lowered n (left_of red k v s) path f e refl
  tree_delete3-Lowered n up (left_of black k v s) path f e ih =
      let (hs, m, _, above) = f in
      Returns-if (all_black s)
        (λ a.
          let (h, m') = redden_sibling s n a hs m in
          Returns-bind (ih refl above) (λ path' (low, same). returns (
            (h, m', tt, low),
            λ t. same _ ∙ entries-zip path _ _ (paint-fill black red (left_of black k v s) t),
          )))
        (λ a. tree_delete4-Lowered n (left_of black k v s) path f e a)
  tree_delete3-Lowered n up (right_of s red k v) path f e ih =
      tree_delete4-Lowered n (right_of s red k v) path f e refl
  tree_delete3-Lowered n up (right_of s black k v) path f e ih =
      let (hs, m, _, above) = f in
      Returns-if (all_black s)
        (λ a.
          let (h, m') = redden_sibling s n a hs m in
          Returns-bind (ih refl above) (λ path' (low, same). returns (
            (h, m', tt, low),
            λ t. same _ ∙ entries-zip path _ _ (paint-fill black red (right_of s black k v) t),
          )))
        (λ a. tree_delete4-Lowered n (right_of s black k v) path f e a)

  tree_delete2-Lowered :
      (n : ℕ) (up : List (Frame K V) → Run (List (Frame K V))) (p : Frame K V)
      (path : List (Frame K V))
      → FitsAround (p ∷ path) true (suc n)
      → (frame_color p ≡ black
          → FitsAround path true (suc (suc n))
          → Returns (Lowered (suc n) path) (up path))
      → Returns (Lowered n (p ∷ path)) (tree_delete2 up p path)
  unfolding tree_delete2 lift_sibling zip
  tree_delete2-Lowered n up (left_of black k v (node red l' k' v' r')) path f ih =
      let ((hl, hr, d, (bl, br)), m, _, above) = f in
      Returns-map
        (tree_delete3-Lowered n up (left_of red k v l') (left_of black k' v' r' ∷ path)
          (hl, omega arith, (refl, bl), (hr, omega arith, tt, above)) bl (λ e. cc))
        (λ path' (low, same). (low, λ t. same t ∙ entries-zip path _ _ (simp append_assoc)))
  tree_delete2-Lowered n up (left_of red k v (node red l' k' v' r')) path f ih =
      let (_, _, (_, e), _) = f in cc
  tree_delete2-Lowered n up (left_of c k v null) path f ih =
      tree_delete3-Lowered n up (left_of c k v null) path f refl ih
  tree_delete2-Lowered n up (left_of c k v (node black l' k' v' r')) path f ih =
      tree_delete3-Lowered n up (left_of c k v (node black l' k' v' r')) path f refl ih
  tree_delete2-Lowered n up (right_of (node red l' k' v' r') black k v) path f ih =
      let ((hl, hr, d, (bl, br)), m, _, above) = f in
      Returns-map
        (tree_delete3-Lowered n up (right_of r' red k v) (right_of l' black k' v' ∷ path)
          (hr, omega arith, (refl, br), (hl, omega arith, tt, above)) br (λ e. cc))
        (λ path' (low, same). (low, λ t. same t ∙ entries-zip path _ _ (simp append_assoc)))
  tree_delete2-Lowered n up (right_of (node red l' k' v' r') red k v) path f ih =
      let (_, _, (_, e), _) = f in cc
  tree_delete2-Lowered n up (right_of null c k v) path f ih =
      tree_delete3-Lowered n up (right_of null c k v) path f refl ih
  tree_delete2-Lowered n up (right_of (node black l' k' v' r') c k v) path f ih =
      tree_delete3-Lowered n up (right_of (node black l' k' v' r') c k v) path f refl ih

  -- tree_delete1, with fuel of more than the number of ancestors, from frames that fit a black
  -- subtree, returns frames that fit a black subtree whose black height is lower by one, and that
  -- have the same entries around any subtree.
  pub tree_delete1-Lowered :
      (fuel : ℕ) (path : List (Frame K V)) (n : ℕ)
      → length path < fuel
      → FitsAround path true (suc n)
      → Returns (Lowered n path) (tree_delete1 fuel path)
  unfolding tree_delete1
  tree_delete1-Lowered zero path n l f = ground arith
  tree_delete1-Lowered (suc fuel) [] n l f = returns (f, λ t. refl)
  tree_delete1-Lowered (suc fuel) (p ∷ path) n l f =
      tree_delete2-Lowered n (tree_delete1 fuel) p path f
        (λ e above. tree_delete1-Lowered fuel path (suc n) (omega arith) above)
