-- ===== src/Tree/Balance.antt =====
-- The red-black invariant of tree.c and the entries of a tree in order, of a subtree and of the
-- frames around it.
use bflib.Base.{length, ℕ, suc, ◌≡◌, sym, ap, Bool, true, false, List, [], ◌∷◌, ◌++◌}
use bflib.Tree.{
  Tree, Color, red, black, TreeNode, null, node, Frame, left_of, right_of, is_black, fill,
  frame_color, tree_node_sibling, zip,
}

abbrev pub is_black_color : Color → Bool
is_black_color red = false
is_black_color black = true

abbrev pub raise : Color → ℕ → ℕ
raise red n = n
raise black n = suc n

module _ {K V : Type 0} where
  -- the black nodes on the leftmost way down
  abbrev pub black_height : TreeNode K V → ℕ
  black_height null = 0
  black_height (node red l k v r) = black_height l
  black_height (node black l k v r) = suc (black_height l)

  abbrev pub RedRule : Color → TreeNode K V → TreeNode K V → Type 0
  RedRule red l r = (is_black l ≡ true) × (is_black r ≡ true)
  RedRule black l r = Unit

  -- both sides of every node have the same black height, and a red node has no red child
  abbrev pub IsRedBlack : TreeNode K V → Type 0
  IsRedBlack null = Unit
  IsRedBlack (node c l k v r) =
      IsRedBlack l × IsRedBlack r × (black_height l ≡ black_height r) × RedRule c l r

  abbrev pub FrameRule : Color → Bool → TreeNode K V → Type 0
  FrameRule red b s = (b ≡ true) × (is_black s ≡ true)
  FrameRule black b s = Unit

  -- the frames fit a subtree of black height `n`, whose root is black if `b` is true, so that the
  -- whole tree is red-black and has a black root
  abbrev pub FitsAround : List (Frame K V) → Bool → ℕ → Type 0
  FitsAround [] b n = b ≡ true
  FitsAround (p ∷ path) b n =
      IsRedBlack (tree_node_sibling p)
      × (black_height (tree_node_sibling p) ≡ n)
      × FrameRule (frame_color p) b (tree_node_sibling p)
      × FitsAround path (is_black_color (frame_color p)) (raise (frame_color p) n)

  abbrev pub entries : TreeNode K V → List (K × V)
  entries null = []
  entries (node c l k v r) = entries l ++ ((k, v) ∷ entries r)

  -- a red-black tree with a black root
  abbrev pub IsRooted : TreeNode K V → Type 0
  IsRooted t = IsRedBlack t × (is_black t ≡ true)

  -- a red-black tree with a black root, and the number of its entries
  abbrev pub IsTree : Tree K V → Type 0
  IsTree tree = IsRooted tree.root × (tree.size ≡ length (entries tree.root))

  fill-FitsAround :
      (p : Frame K V) (path : List (Frame K V)) (t : TreeNode K V)
      → IsRedBlack t
      → FitsAround (p ∷ path) (is_black t) (black_height t)
      → IsRedBlack (fill p t) × FitsAround path (is_black (fill p t)) (black_height (fill p t))
  fill-FitsAround (left_of red k v s) path t h (a, b, c, d) = ((h, a, sym b, c), d)
  fill-FitsAround (left_of black k v s) path t h (a, b, c, d) = ((h, a, sym b, c), d)
  fill-FitsAround (right_of s red k v) path t h (a, b, c, d) = ((a, h, b, (c.1, c.0)), rw b d)
  fill-FitsAround (right_of s black k v) path t h (a, b, c, d) = ((a, h, b, c), rw b d)

  -- a red-black subtree in frames that fit it makes a red-black tree
  pub zip-IsRooted :
      (path : List (Frame K V)) (t : TreeNode K V)
      → IsRedBlack t
      → FitsAround path (is_black t) (black_height t)
      → IsRooted (zip path t)
  unfolding zip
  zip-IsRooted [] t h f = (h, f)
  zip-IsRooted (p ∷ path) t h f =
      let (h', f') = fill-FitsAround p path t h f in zip-IsRooted path (fill p t) h' f'

  -- the frames of the children of a subtree fit them
  pub left-FitsAround :
      (c : Color) (l : TreeNode K V) (k : K) (v : V) (r : TreeNode K V) (path : List (Frame K V))
      → IsRedBlack (node c l k v r)
      → FitsAround path (is_black (node c l k v r)) (black_height (node c l k v r))
      → FitsAround (left_of c k v r ∷ path) (is_black l) (black_height l)
  left-FitsAround red l k v r path (hl, hr, n, rule) f = (hr, sym n, rule, f)
  left-FitsAround black l k v r path (hl, hr, n, rule) f = (hr, sym n, rule, f)

  pub right-FitsAround :
      (c : Color) (l : TreeNode K V) (k : K) (v : V) (r : TreeNode K V) (path : List (Frame K V))
      → IsRedBlack (node c l k v r)
      → FitsAround path (is_black (node c l k v r)) (black_height (node c l k v r))
      → FitsAround (right_of l c k v ∷ path) (is_black r) (black_height r)
  right-FitsAround red l k v r path (hl, hr, n, rule) f = (hl, n, (rule.1, rule.0), rw (sym n) f)
  right-FitsAround black l k v r path (hl, hr, n, rule) f = (hl, n, rule, rw (sym n) f)

  entries-fill :
      (p : Frame K V) (s t : TreeNode K V)
      → entries s ≡ entries t
      → entries (fill p s) ≡ entries (fill p t)
  entries-fill (left_of c k v r) s t e = ap (λ xs. xs ++ ((k, v) ∷ entries r)) e
  entries-fill (right_of l c k v) s t e = ap (λ xs. entries l ++ ((k, v) ∷ xs)) e

  -- the entries of the whole tree depend on those of a subtree alone
  pub entries-zip :
      (path : List (Frame K V)) (s t : TreeNode K V)
      → entries s ≡ entries t
      → entries (zip path s) ≡ entries (zip path t)
  unfolding zip
  entries-zip [] s t e = e
  entries-zip (p ∷ path) s t e = entries-zip path (fill p s) (fill p t) (entries-fill p s t e)
