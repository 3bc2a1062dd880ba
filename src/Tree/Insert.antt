-- ===== src/Tree/Insert.antt =====
-- tree_insert1 to tree_insert5 (tree.c) give a red-black tree with the same entries.
use mathlib.Core.List.{append_assoc}
use bflib.Base.{ℕ, suc, ◌≡◌, refl, sym, ap, ◌∙◌, true, false, List, [], ◌∷◌, arith}
use bflib.Run.{Run, ok, Returns, returns, Returns-if, Returns-map}
use bflib.Tree.{
  red, black, TreeNode, null, node, Frame, left_of, right_of, is_red, is_black, fill, frame_color,
  paint_frame, paint_sibling, tree_node_sibling, set_color, zip, tree_rotate_left,
  tree_rotate_right, go_left, go_right, tree_insert1, tree_insert2, tree_insert3, tree_insert4,
  tree_insert5, is_black_frame,
}
use bflib.Tree.Balance.{
  IsRedBlack, black_height, FitsAround, is_black_color, entries, IsRooted, zip-IsRooted,
  entries-zip,
}

module _ {K V : Type 0} where
  -- a red-black tree with the entries of the tree around `t`
  abbrev pub Mended : List (Frame K V) → TreeNode K V → TreeNode K V → Type 0
  Mended path t root = IsRooted root × (entries root ≡ entries (zip path t))

  -- a subtree put in place of another with the same entries and a black root
  mend :
      (path : List (Frame K V)) (s t : TreeNode K V)
      → IsRedBlack s
      → FitsAround path (is_black s) (black_height s)
      → entries s ≡ entries t
      → Returns (Mended path t) (ok (zip path s))
  mend path s t h f e = returns (zip-IsRooted path s h f, entries-zip path s t e)

  tree_insert4-Mended :
      (p g : Frame K V) (path : List (Frame K V)) (l : TreeNode K V) (k : K) (v : V)
      (r : TreeNode K V)
      → IsRedBlack (node red l k v r)
      → frame_color p ≡ red
      → frame_color g ≡ black
      → is_black (tree_node_sibling g) ≡ true
      → FitsAround (p ∷ g ∷ path) true (black_height l)
      → Returns
          (Mended path (fill g (fill p (node red l k v r))))
          (tree_insert4 p g path (node red l k v r))
  unfolding tree_insert4 tree_insert5 tree_rotate_left tree_rotate_right go_left go_right
  tree_insert4-Mended (left_of red pk pv s) (left_of black gk gv u) path l k v r h e e' b f =
      let (hs, ns, (_, bs), (hu, nu, _, above)) = f in
      mend path _ _ (h, (hs, hu, omega arith, (bs, b)), omega arith, tt) above (simp append_assoc)
  tree_insert4-Mended (right_of s red pk pv) (left_of black gk gv u) path l k v r h e e' b f =
      let (hs, ns, (_, bs), (hu, nu, _, above)) = f in
      let (hl, hr, n, (bl, br)) = h in
      mend path _ _ ((hs, hl, ns, (bs, bl)), (hr, hu, omega arith, (br, b)), omega arith, tt)
        (rw ns above) (simp append_assoc)
  tree_insert4-Mended (left_of red pk pv s) (right_of u black gk gv) path l k v r h e e' b f =
      let (hs, ns, (_, bs), (hu, nu, _, above)) = f in
      let (hl, hr, n, (bl, br)) = h in
      mend path _ _ ((hu, hl, nu, (b, bl)), (hr, hs, omega arith, (br, bs)), omega arith, tt)
        (rw nu above) (simp append_assoc)
  tree_insert4-Mended (right_of s red pk pv) (right_of u black gk gv) path l k v r h e e' b f =
      let (hs, ns, (_, bs), (hu, nu, _, above)) = f in
      mend path _ _ ((hu, hs, omega arith, (b, bs)), h, omega arith, tt) (rw nu above)
        (simp append_assoc)
  tree_insert4-Mended p g path l k v r h e e' b f = cc

  is_black_frame-color : (p : Frame K V) → is_black_frame p ≡ is_black_color (frame_color p)
  unfolding is_black_frame
  is_black_frame-color (left_of red k v r) = refl
  is_black_frame-color (left_of black k v r) = refl
  is_black_frame-color (right_of l red k v) = refl
  is_black_frame-color (right_of l black k v) = refl

  is_red-is_black : (t : TreeNode K V) → is_red t ≡ false → is_black t ≡ true
  is_red-is_black null e = refl
  is_red-is_black (node black l k v r) e = refl
  is_red-is_black (node red l k v r) e = sym e

  -- a red root painted black
  set_color-IsRedBlack :
      (t : TreeNode K V)
      → is_red t ≡ true
      → IsRedBlack t
      → IsRedBlack (set_color black t)
        × (black_height (set_color black t) ≡ suc (black_height t))
        × (entries (set_color black t) ≡ entries t)
        × (is_black (set_color black t) ≡ true)
  set_color-IsRedBlack (node red l k v r) e h = ((h.0, h.1, h.2, tt), refl, refl, refl)
  set_color-IsRedBlack t e h = cc

  -- a red parent and a red uncle become black, the grandparent red, and `up` mends the rest
  tree_insert3-up :
      (p g : Frame K V) (path : List (Frame K V)) (up : TreeNode K V → Run (TreeNode K V))
      → ((l : TreeNode K V) (k : K) (v : V) (r : TreeNode K V)
          → IsRedBlack (node red l k v r)
          → FitsAround path true (black_height l)
          → Returns (Mended path (node red l k v r)) (up (node red l k v r)))
      → (t : TreeNode K V) → IsRedBlack t
      → frame_color p ≡ red
      → frame_color g ≡ black
      → is_red (tree_node_sibling g) ≡ true
      → FitsAround (p ∷ g ∷ path) true (black_height t)
      → Returns
          (Mended path (fill g (fill p t)))
          (up (fill (paint_frame red (paint_sibling black g)) (fill (paint_frame black p) t)))
  tree_insert3-up (left_of red pk pv s) (left_of black gk gv u) path up ih t h e e' b f =
      let (hs, ns, (_, bs), (hu, nu, _, above)) = f in
      let (hu', nu', eu, bu) = set_color-IsRedBlack u b hu in
      Returns-map (ih _ gk gv _ ((h, hs, sym ns, tt), hu', omega arith, (refl, bu)) above)
        (λ root (m, n). (m, n ∙ entries-zip path _ _ (rw eu refl)))
  tree_insert3-up (left_of red pk pv s) (right_of u black gk gv) path up ih t h e e' b f =
      let (hs, ns, (_, bs), (hu, nu, _, above)) = f in
      let (hu', nu', eu, bu) = set_color-IsRedBlack u b hu in
      Returns-map
        (ih _ gk gv _ (hu', (h, hs, sym ns, tt), omega arith, (bu, refl))
          (rw (nu' ∙ ap suc nu) above))
        (λ root (m, n). (m, n ∙ entries-zip path _ _ (rw eu refl)))
  tree_insert3-up (right_of s red pk pv) (left_of black gk gv u) path up ih t h e e' b f =
      let (hs, ns, (_, bs), (hu, nu, _, above)) = f in
      let (hu', nu', eu, bu) = set_color-IsRedBlack u b hu in
      Returns-map (ih _ gk gv _ ((hs, h, ns, tt), hu', omega arith, (refl, bu)) (rw ns above))
        (λ root (m, n). (m, n ∙ entries-zip path _ _ (rw eu refl)))
  tree_insert3-up (right_of s red pk pv) (right_of u black gk gv) path up ih t h e e' b f =
      let (hs, ns, (_, bs), (hu, nu, _, above)) = f in
      let (hu', nu', eu, bu) = set_color-IsRedBlack u b hu in
      Returns-map
        (ih _ gk gv _ (hu', (hs, h, ns, tt), omega arith, (bu, refl)) (rw (nu' ∙ ap suc nu) above))
        (λ root (m, n). (m, n ∙ entries-zip path _ _ (rw eu refl)))
  tree_insert3-up p g path up ih t h e e' b f = cc

  frame_color-black : (p : Frame K V) → is_black_frame p ≡ true → frame_color p ≡ black
  unfolding is_black_frame
  frame_color-black (left_of black k v r) e = refl
  frame_color-black (right_of l black k v) e = refl
  frame_color-black (left_of red k v r) e = cc
  frame_color-black (right_of l red k v) e = cc

  frame_color-red : (p : Frame K V) → is_black_frame p ≡ false → frame_color p ≡ red
  unfolding is_black_frame
  frame_color-red (left_of red k v r) e = refl
  frame_color-red (right_of l red k v) e = refl
  frame_color-red (left_of black k v r) e = cc
  frame_color-red (right_of l black k v) e = cc

  -- a red node fits under a black parent as a black one does
  black-FitsAround :
      (p : Frame K V) (path : List (Frame K V)) (n : ℕ)
      → frame_color p ≡ black
      → FitsAround (p ∷ path) true n
      → FitsAround (p ∷ path) false n
  black-FitsAround (left_of black k v r) path n e f = f
  black-FitsAround (right_of l black k v) path n e f = f
  black-FitsAround p path n e f = cc

  -- a root is black, and so is the parent of a red node
  FitsAround-black :
      (path : List (Frame K V)) (g : Frame K V) (n : ℕ)
      → FitsAround (g ∷ path) false n
      → frame_color g ≡ black
  FitsAround-black path (left_of black k v r) n f = refl
  FitsAround-black path (right_of l black k v) n f = refl
  FitsAround-black path (left_of red k v r) n (a, b, (c, d), f) = cc
  FitsAround-black path (right_of l red k v) n (a, b, (c, d), f) = cc

  above-FitsAround :
      (p : Frame K V) (path : List (Frame K V)) (n : ℕ)
      → frame_color p ≡ red
      → FitsAround (p ∷ path) true n
      → FitsAround path false n
  above-FitsAround (left_of red k v r) path n e f = f.3
  above-FitsAround (right_of l red k v) path n e f = f.3
  above-FitsAround p path n e f = cc

  -- tree_insert1, from a red node in frames that fit a black one, gives a red-black tree with a
  -- black root and the same entries
  pub tree_insert1-Mended :
      (path : List (Frame K V)) (l : TreeNode K V) (k : K) (v : V) (r : TreeNode K V)
      → IsRedBlack (node red l k v r)
      → FitsAround path true (black_height l)
      → Returns (Mended path (node red l k v r)) (tree_insert1 path (node red l k v r))
  unfolding tree_insert1 tree_insert2 tree_insert3 zip
  tree_insert1-Mended [] l k v r h f = returns (((h.0, h.1, h.2, tt), refl), refl)
  tree_insert1-Mended (p ∷ []) l k v r h f =
      Returns-if (is_black_frame p)
        (λ e. returns (
          zip-IsRooted (p ∷ []) (node red l k v r) h
              (black-FitsAround p [] (black_height l) (frame_color-black p e) f),
          refl,
        ))
        (λ e. let root_black = above-FitsAround p [] (black_height l) (frame_color-red p e) f in cc)
  tree_insert1-Mended (p ∷ g ∷ path) l k v r h f =
      Returns-if (is_black_frame p)
        (λ e. returns (
          zip-IsRooted (p ∷ g ∷ path) (node red l k v r) h
              (black-FitsAround p (g ∷ path) (black_height l) (frame_color-black p e) f),
          refl,
        ))
        (λ e.
          let p_red = frame_color-red p e in
          let g_black =
            FitsAround-black path g (black_height l)
              (above-FitsAround p (g ∷ path) (black_height l) p_red f) in
          Returns-if (is_red (tree_node_sibling g))
            (λ e'.
              tree_insert3-up p g path (tree_insert1 path) (tree_insert1-Mended path)
                (node red l k v r) h p_red g_black e' f)
            (λ e'.
              tree_insert4-Mended p g path l k v r h p_red g_black
                (is_red-is_black (tree_node_sibling g) e') f))
