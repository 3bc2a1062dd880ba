-- ===== src/Tree/Delete/Unlink.antt =====
-- The unlinking of a node with one child at most, the last part of tree_delete (tree.c).
use bflib.Base.{suc, ◌≡◌, refl, sym, ◌∙◌, true, List, arith, length}
use bflib.Run.{Returns, returns, Returns-bind}
use bflib.Tree.{red, black, TreeNode, null, node, Frame, is_black, zip}
use bflib.Tree.Balance.{
  IsRedBlack, black_height, FitsAround, entries, entries-zip, IsRooted, zip-IsRooted,
}
use bflib.Tree.Delete.{unlink, with_heir, correct}
use bflib.Tree.Delete.Mend.{blacken-FitsAround, tree_delete1-Lowered}

module _ {K V : Type 0} where
  -- a node that misses a child
  abbrev pub HasOneChild : TreeNode K V → Type 0
  HasOneChild null = ⊥
  HasOneChild (node c null k v r) = Unit
  HasOneChild (node c (node c' l' k' v' r') k v null) = Unit
  HasOneChild (node c (node c' l' k' v' r') k v (node c'' l'' k'' v'' r'')) = ⊥

  -- the child that it has, if any
  abbrev pub only_child : TreeNode K V → TreeNode K V
  only_child null = null
  only_child (node c null k v r) = r
  only_child (node c (node c' l' k' v' r') k v r) = node c' l' k' v' r'

  lowest-null : (t : TreeNode K V) → is_black t ≡ true → 0 ≡ black_height t → t ≡ null
  lowest-null null b e = refl
  lowest-null (node red l k v r) b e = cc
  lowest-null (node black l k v r) b e = absurd (omega arith)

  -- the only child is red, without children, and its parent is black
  pub unlink-Returns :
      (t : TreeNode K V) (path : List (Frame K V))
      → HasOneChild t
      → IsRedBlack t
      → FitsAround path (is_black t) (black_height t)
      → Returns
          (λ root. IsRooted root × (entries root ≡ entries (zip path (only_child t))))
          (unlink t path)
  unfolding unlink with_heir correct
  unlink-Returns (node red null k v null) path o h f =
      returns (zip-IsRooted path null tt (blacken-FitsAround path 0 f), refl)
  unlink-Returns (node black null k v null) path o h f =
      Returns-bind (tree_delete1-Lowered (suc (length path)) path 0 (omega arith) f)
        (λ path' (fits, same). returns (zip-IsRooted path' null tt fits, same null))
  unlink-Returns (node c null k v (node black l' k' v' r')) path o (_, h, e, _) f =
      absurd (omega arith)
  unlink-Returns (node red null k v (node red l' k' v' r')) path o (_, h, e, rule) f = cc
  unlink-Returns (node black null k v (node red l' k' v' r')) path o
        (_, (hl, hr, n, (bl, br)), e, rule) f =
      let no_left = lowest-null l' bl e in
      let no_right = lowest-null r' br (e ∙ n) in
      returns (
        zip-IsRooted path (node black null k' v' null) (tt, tt, refl, tt) f,
        entries-zip path (node black null k' v' null) (node red l' k' v' r')
            (rw (no_left, no_right) refl),
      )
  unlink-Returns (node c (node black l' k' v' r') k v null) path o (h, _, e, _) f =
      absurd (omega arith)
  unlink-Returns (node red (node red l' k' v' r') k v null) path o (h, _, e, rule) f = cc
  unlink-Returns (node black (node red l' k' v' r') k v null) path o
        ((hl, hr, n, (bl, br)), _, e, rule) f =
      let no_left = lowest-null l' bl (sym e) in
      let no_right = lowest-null r' br (sym e ∙ n) in
      returns (
        zip-IsRooted path (node black null k' v' null) (tt, tt, refl, tt) (rw e at f),
        entries-zip path (node black null k' v' null) (node red l' k' v' r')
            (rw (no_left, no_right) refl),
      )
  unlink-Returns null path o h f = absurd o
  unlink-Returns (node c (node c' l' k' v' r') k v (node c'' l'' k'' v'' r'')) path o h f = absurd o
