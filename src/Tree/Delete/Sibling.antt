-- ===== src/Tree/Delete/Sibling.antt =====
-- tree_delete5 and tree_delete6 (tree.c): a black sibling with a red child.
use mathlib.Core.List.{append_assoc}
use bflib.Base.{ℕ, suc, ◌≡◌, refl, ◌∙◌, true, false, List, ◌∷◌, arith}
use bflib.Run.{Returns, returns, Returns-map}
use bflib.Tree.{
  Color, red, black, TreeNode, null, node, Frame, left_of, right_of, is_black, zip,
  tree_node_sibling, tree_rotate_left, tree_rotate_right,
}
use bflib.Tree.Balance.{FrameRule, FitsAround, entries, entries-zip}
use bflib.Tree.Delete.{
  tree_delete5, tree_delete6, turn_inner, inner_left, inner_right, copy_color, paint_outer,
  lift_sibling, all_black,
}

module _ {K V : Type 0} where
  -- the new frames fit a black subtree that is lower by one, and have the same entries
  abbrev pub Lowered : ℕ → List (Frame K V) → List (Frame K V) → Type 0
  Lowered n path path' =
      FitsAround path' true n × ((t : TreeNode K V) → entries (zip path' t) ≡ entries (zip path t))

  FrameRule-black :
      (c : Color) (s l : TreeNode K V) (k : K) (v : V) (r : TreeNode K V)
      → FrameRule c true s
      → FrameRule c true (node black l k v r)
  FrameRule-black red s l k v r q = (refl, refl)
  FrameRule-black black s l k v r q = tt

  -- a black sibling with a red outer child
  tree_delete6-left :
      (n : ℕ) (c : Color) (k : K) (v : V) (o : TreeNode K V) (k' : K) (v' : V) (a : TreeNode K V)
      (k'' : K) (v'' : V) (b : TreeNode K V) (path : List (Frame K V))
      → FitsAround (left_of c k v (node black o k' v' (node red a k'' v'' b)) ∷ path) true (suc n)
      → Returns
          (Lowered n (left_of c k v (node black o k' v' (node red a k'' v'' b)) ∷ path))
          (tree_delete6 (left_of c k v (node black o k' v' (node red a k'' v'' b))) path)
  unfolding tree_delete6 copy_color paint_outer lift_sibling zip
  tree_delete6-left n red k v o k' v' a k'' v'' b path f =
      let ((hl, (ha, hb, m, _), e, _), h, _, above) = f in
      returns (
        (hl, omega arith, tt, ((ha, hb, m, tt), omega arith, (refl, refl), above)),
        λ t. entries-zip path _ _ (simp append_assoc),
      )
  tree_delete6-left n black k v o k' v' a k'' v'' b path f =
      let ((hl, (ha, hb, m, _), e, _), h, _, above) = f in
      returns (
        (hl, omega arith, tt, ((ha, hb, m, tt), omega arith, tt, above)),
        λ t. entries-zip path _ _ (simp append_assoc),
      )

  tree_delete6-right :
      (n : ℕ) (c : Color) (k : K) (v : V) (o : TreeNode K V) (k' : K) (v' : V) (a : TreeNode K V)
      (k'' : K) (v'' : V) (b : TreeNode K V) (path : List (Frame K V))
      → FitsAround (right_of (node black (node red a k'' v'' b) k' v' o) c k v ∷ path) true (suc n)
      → Returns
          (Lowered n (right_of (node black (node red a k'' v'' b) k' v' o) c k v ∷ path))
          (tree_delete6 (right_of (node black (node red a k'' v'' b) k' v' o) c k v) path)
  unfolding tree_delete6 copy_color paint_outer lift_sibling zip
  tree_delete6-right n red k v o k' v' a k'' v'' b path f =
      let (((ha, hb, m, _), hl, e, _), h, _, above) = f in
      returns (
        (hl, omega arith, tt, ((ha, hb, m, tt), omega arith, (refl, refl), above)),
        λ t. entries-zip path _ _ (simp append_assoc),
      )
  tree_delete6-right n black k v o k' v' a k'' v'' b path f =
      let (((ha, hb, m, _), hl, e, _), h, _, above) = f in
      returns (
        (hl, omega arith, tt, ((ha, hb, m, tt), omega arith, tt, above)),
        λ t. entries-zip path _ _ (simp append_assoc),
      )

  tree_delete5-left :
      (n : ℕ) (c : Color) (k : K) (v : V) (s : TreeNode K V) (path : List (Frame K V))
      → FitsAround (left_of c k v s ∷ path) true (suc n)
      → is_black s ≡ true
      → all_black s ≡ false
      → Returns (Lowered n (left_of c k v s ∷ path)) (tree_delete5 (left_of c k v s) path)
  unfolding tree_delete5 turn_inner inner_left inner_right tree_rotate_left tree_rotate_right zip
  tree_delete5-left n c k v (node black o k' v' (node red a k'' v'' b)) path f e e' =
      tree_delete6-left n c k v o k' v' a k'' v'' b path f
  tree_delete5-left n c k v (node black (node red a k'' v'' b) k' v' null) path f e e' =
      let (((ha, hb, m, (ba, bb)), ho, d, _), h, q, above) = f in
      Returns-map
        (tree_delete6-left n c k v a k'' v'' b k' v' null path (
          (ha, (hb, ho, omega arith, (bb, refl)), omega arith, tt),
          omega arith,
          FrameRule-black c _ _ _ _ _ q,
          above,
        ))
        (λ path' (low, same). (low, λ t. same t ∙ entries-zip path _ _ (simp append_assoc)))
  tree_delete5-left n c k v (node black (node red a k'' v'' b) k' v' (node black wl wk wv wr)) path
        f e e' =
      let (((ha, hb, m, (ba, bb)), ho, d, _), h, q, above) = f in
      Returns-map
        (tree_delete6-left n c k v a k'' v'' b k' v' (node black wl wk wv wr) path (
          (ha, (hb, ho, omega arith, (bb, refl)), omega arith, tt),
          omega arith,
          FrameRule-black c _ _ _ _ _ q,
          above,
        ))
        (λ path' (low, same). (low, λ t. same t ∙ entries-zip path _ _ (simp append_assoc)))
  tree_delete5-left n c k v null path f e e' = let (_, h, _, _) = f in cc
  tree_delete5-left n c k v s path f e e' = cc

  tree_delete5-right :
      (n : ℕ) (c : Color) (k : K) (v : V) (s : TreeNode K V) (path : List (Frame K V))
      → FitsAround (right_of s c k v ∷ path) true (suc n)
      → is_black s ≡ true
      → all_black s ≡ false
      → Returns (Lowered n (right_of s c k v ∷ path)) (tree_delete5 (right_of s c k v) path)
  unfolding tree_delete5 turn_inner inner_left inner_right tree_rotate_left tree_rotate_right zip
  tree_delete5-right n c k v (node black null k' v' (node red a k'' v'' b)) path f e e' =
      let ((ho, (ha, hb, m, (ba, bb)), d, _), h, q, above) = f in
      Returns-map
        (tree_delete6-right n c k v b k'' v'' null k' v' a path (
          ((ho, ha, omega arith, (refl, ba)), hb, omega arith, tt),
          omega arith,
          FrameRule-black c _ _ _ _ _ q,
          above,
        ))
        (λ path' (low, same). (low, λ t. same t ∙ entries-zip path _ _ (simp append_assoc)))
  tree_delete5-right n c k v (node black (node black wl wk wv wr) k' v' (node red a k'' v'' b)) path
        f e e' =
      let ((ho, (ha, hb, m, (ba, bb)), d, _), h, q, above) = f in
      Returns-map
        (tree_delete6-right n c k v b k'' v'' (node black wl wk wv wr) k' v' a path (
          ((ho, ha, omega arith, (refl, ba)), hb, omega arith, tt),
          omega arith,
          FrameRule-black c _ _ _ _ _ q,
          above,
        ))
        (λ path' (low, same). (low, λ t. same t ∙ entries-zip path _ _ (simp append_assoc)))
  tree_delete5-right n c k v (node black (node red a k'' v'' b) k' v' null) path f e e' =
      tree_delete6-right n c k v null k' v' a k'' v'' b path f
  tree_delete5-right n c k v (node black (node red a k'' v'' b) k' v' (node red wl wk wv wr)) path f
        e e' =
      tree_delete6-right n c k v (node red wl wk wv wr) k' v' a k'' v'' b path f
  tree_delete5-right n c k v (node black (node red a k'' v'' b) k' v' (node black wl wk wv wr)) path
        f e e' =
      tree_delete6-right n c k v (node black wl wk wv wr) k' v' a k'' v'' b path f
  tree_delete5-right n c k v null path f e e' = let (_, h, _, _) = f in cc
  tree_delete5-right n c k v s path f e e' = cc

  -- the case of a black sibling with a red child
  pub tree_delete5-Lowered :
      (n : ℕ) (p : Frame K V) (path : List (Frame K V))
      → FitsAround (p ∷ path) true (suc n)
      → is_black (tree_node_sibling p) ≡ true
      → all_black (tree_node_sibling p) ≡ false
      → Returns (Lowered n (p ∷ path)) (tree_delete5 p path)
  tree_delete5-Lowered n (left_of c k v s) path f e e' = tree_delete5-left n c k v s path f e e'
  tree_delete5-Lowered n (right_of s c k v) path f e e' = tree_delete5-right n c k v s path f e e'
