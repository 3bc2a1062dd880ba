-- ===== src/Tree/Delete/Heir.antt =====
-- The heir of a node that is deleted (tree.c): its place, and the entries without the node's.
use mathlib.Core.List.{append_assoc, append-nil}
use bflib.Base.{ℕ, ◌≡◌, refl, sym, ap, ◌∙◌, Bool, List, [], ◌∷◌, ◌++◌}
use bflib.Tree.{Color, TreeNode, null, node, Frame, left_of, right_of, is_black, zip, fill}
use bflib.Tree.Balance.{
  left-FitsAround, right-FitsAround, IsRedBlack, black_height, FitsAround, entries,
}
use bflib.Tree.Delete.{tree_node_max, tree_node_min, replaced, heir_place}
use bflib.Tree.Delete.Unlink.{HasOneChild, only_child}

module _ {K V : Type 0} where
  -- the entries before and after a place
  abbrev pub before : List (Frame K V) → List (K × V)
  before [] = []
  before (left_of c k v r ∷ path) = before path
  before (right_of l c k v ∷ path) = before path ++ (entries l ++ ((k, v) ∷ []))

  abbrev pub after : List (Frame K V) → List (K × V)
  after [] = []
  after (left_of c k v r ∷ path) = (k, v) ∷ (entries r ++ after path)
  after (right_of l c k v ∷ path) = after path

  pub entries-around :
      (path : List (Frame K V)) (t : TreeNode K V)
      → entries (zip path t) ≡ before path ++ (entries t ++ after path)
  unfolding zip
  entries-around [] t = sym (append-nil _)
  entries-around (left_of c k v r ∷ path) t =
      entries-around path (node c t k v r) ∙ simp append_assoc
  entries-around (right_of l c k v ∷ path) t =
      entries-around path (node c l k v t) ∙ simp append_assoc

  zip-append :
      (path above : List (Frame K V)) (t : TreeNode K V)
      → zip (path ++ above) t ≡ zip above (zip path t)
  unfolding zip
  zip-append [] above t = refl
  zip-append (p ∷ path) above t = zip-append path above (fill p t)

  -- the fit of frames does not depend on the keys and values
  FitsAround-entry :
      (inside above above' : List (Frame K V)) (b : Bool) (n : ℕ)
      → ((b : Bool) (n : ℕ) → FitsAround above b n → FitsAround above' b n)
      → FitsAround (inside ++ above) b n
      → FitsAround (inside ++ above') b n
  FitsAround-entry [] above above' b n same f = same b n f
  FitsAround-entry (p ∷ inside) above above' b n same (s, m, rule, f) =
      (s, m, rule, FitsAround-entry inside above above' _ _ same f)

  abbrev RightOnly : List (Frame K V) → Type 0
  RightOnly [] = Unit
  RightOnly (left_of c k v r ∷ path) = ⊥
  RightOnly (right_of l c k v ∷ path) = RightOnly path

  abbrev LeftOnly : List (Frame K V) → Type 0
  LeftOnly [] = Unit
  LeftOnly (left_of c k v r ∷ path) = LeftOnly path
  LeftOnly (right_of l c k v ∷ path) = ⊥

  abbrev MissesRight : TreeNode K V → Type 0
  MissesRight null = ⊥
  MissesRight (node c l k v null) = Unit
  MissesRight (node c l k v (node c' l' k' v' r')) = ⊥

  abbrev MissesLeft : TreeNode K V → Type 0
  MissesLeft null = ⊥
  MissesLeft (node c null k v r) = Unit
  MissesLeft (node c (node c' l' k' v' r') k v r) = ⊥

  tree_node_max_lem :
      (c : Color) (l : TreeNode K V) (k : K) (v : V) (r : TreeNode K V)
      (inside above : List (Frame K V))
      → IsRedBlack (node c l k v r)
      → FitsAround (inside ++ above) (is_black (node c l k v r)) (black_height (node c l k v r))
      → RightOnly inside
      → let (h, inside') = tree_node_max (node c l k v r) inside in
        IsRedBlack h
        × FitsAround (inside' ++ above) (is_black h) (black_height h)
        × RightOnly inside'
        × MissesRight h
        × (zip inside' h ≡ zip inside (node c l k v r))
  unfolding tree_node_max zip
  tree_node_max_lem c l k v null inside above h f only = (h, f, only, tt, refl)
  tree_node_max_lem c l k v (node c' l' k' v' r') inside above h f only =
      tree_node_max_lem c' l' k' v' r' (right_of l c k v ∷ inside) above h.1
        (right-FitsAround c l k v (node c' l' k' v' r') (inside ++ above) h f) only

  tree_node_min_lem :
      (c : Color) (l : TreeNode K V) (k : K) (v : V) (r : TreeNode K V)
      (inside above : List (Frame K V))
      → IsRedBlack (node c l k v r)
      → FitsAround (inside ++ above) (is_black (node c l k v r)) (black_height (node c l k v r))
      → LeftOnly inside
      → let (h, inside') = tree_node_min (node c l k v r) inside in
        IsRedBlack h
        × FitsAround (inside' ++ above) (is_black h) (black_height h)
        × LeftOnly inside'
        × MissesLeft h
        × (zip inside' h ≡ zip inside (node c l k v r))
  unfolding tree_node_min zip
  tree_node_min_lem c null k v r inside above h f only = (h, f, only, tt, refl)
  tree_node_min_lem c (node c' l' k' v' r') k v r inside above h f only =
      tree_node_min_lem c' l' k' v' r' (left_of c k v r ∷ inside) above h.0
        (left-FitsAround c (node c' l' k' v' r') k v r (inside ++ above) h f) only

  RightOnly-zip :
      (inside : List (Frame K V)) (s t : TreeNode K V) (e : K × V)
      → RightOnly inside
      → entries s ++ (e ∷ []) ≡ entries t
      → entries (zip inside s) ++ (e ∷ []) ≡ entries (zip inside t)
  unfolding zip
  RightOnly-zip [] s t e only same = same
  RightOnly-zip (left_of c k v r ∷ inside) s t e only same = absurd only
  RightOnly-zip (right_of l c k v ∷ inside) s t e only same =
      RightOnly-zip inside (node c l k v s) (node c l k v t) e only
        (simp append_assoc (rw same refl))

  LeftOnly-zip :
      (inside : List (Frame K V)) (s t : TreeNode K V) (e : K × V)
      → LeftOnly inside
      → e ∷ entries s ≡ entries t
      → e ∷ entries (zip inside s) ≡ entries (zip inside t)
  unfolding zip
  LeftOnly-zip [] s t e only same = same
  LeftOnly-zip (left_of c k v r ∷ inside) s t e only same =
      LeftOnly-zip inside (node c s k v r) (node c t k v r) e only
        (ap (λ es. es ++ ((k, v) ∷ entries r)) same)
  LeftOnly-zip (right_of l c k v ∷ inside) s t e only same = absurd only

  -- a place to unlink, after which the entries of the tree are `es`
  abbrev pub Unlinkable : List (K × V) → TreeNode K V × List (Frame K V) → Type 0
  Unlinkable es (t, path) =
      HasOneChild t
      × IsRedBlack t
      × FitsAround path (is_black t) (black_height t)
      × (entries (zip path (only_child t)) ≡ es)

  -- the last of the entries in `l` takes the place of the node's
  left-entries :
      (c : Color) (l r h s : TreeNode K V) (k : K) (v : V) (inside path : List (Frame K V))
      → RightOnly inside
      → entries s ++ ((k, v) ∷ []) ≡ entries h
      → zip inside h ≡ l
      → entries (zip (inside ++ (left_of c k v r ∷ path)) s)
        ≡ before path ++ ((entries l ++ entries r) ++ after path)
  unfolding zip
  left-entries c l r h s k v inside path only same e =
      let m = RightOnly-zip inside s h (k, v) only same ∙ ap entries e in
      ap entries (zip-append inside (left_of c k v r ∷ path) s)
      ∙ entries-around path (node c (zip inside s) k v r)
      ∙ rw (sym m) (simp append_assoc)

  right-entries :
      (c : Color) (r h s : TreeNode K V) (k : K) (v : V) (inside path : List (Frame K V))
      → LeftOnly inside
      → (k, v) ∷ entries s ≡ entries h
      → zip inside h ≡ r
      → entries (zip (inside ++ (right_of null c k v ∷ path)) s)
        ≡ before path ++ (entries r ++ after path)
  unfolding zip
  right-entries c r h s k v inside path only same e =
      let m = LeftOnly-zip inside s h (k, v) only same ∙ ap entries e in
      ap entries (zip-append inside (right_of null c k v ∷ path) s)
      ∙ entries-around path (node c null k v (zip inside s))
      ∙ ap (λ es. before path ++ (es ++ after path)) m

  replaced-left :
      (c : Color) (l r : TreeNode K V) (k : K) (v : V) (path : List (Frame K V)) (h : TreeNode K V)
      (inside : List (Frame K V))
      → IsRedBlack h
      → FitsAround (inside ++ (left_of c k v r ∷ path)) (is_black h) (black_height h)
      → RightOnly inside
      → MissesRight h
      → zip inside h ≡ l
      → Unlinkable
          (before path ++ ((entries l ++ entries r) ++ after path))
          (replaced (λ hk hv. left_of c hk hv r) path (h, inside))
  unfolding replaced zip
  replaced-left c l r k v path null inside b f only miss e = absurd miss
  replaced-left c l r k v path (node hc hl hk hv (node c' l' k' v' r')) inside b f only miss e =
      absurd miss
  replaced-left c l r k v path (node hc null hk hv null) inside b f only miss e = (
    tt,
    b,
    FitsAround-entry inside _ _ _ _ (λ b n f. f) f,
    left-entries c l r (node hc null hk hv null) null hk hv inside path only refl e,
  )
  replaced-left c l r k v path (node hc (node c' l' k' v' r') hk hv null) inside b f only miss e = (
    tt,
    b,
    FitsAround-entry inside _ _ _ _ (λ b n f. f) f,
    left-entries c l r (node hc (node c' l' k' v' r') hk hv null) (node c' l' k' v' r') hk hv inside
        path only refl e,
  )

  replaced-right :
      (c : Color) (r : TreeNode K V) (k : K) (v : V) (path : List (Frame K V)) (h : TreeNode K V)
      (inside : List (Frame K V))
      → IsRedBlack h
      → FitsAround (inside ++ (right_of null c k v ∷ path)) (is_black h) (black_height h)
      → LeftOnly inside
      → MissesLeft h
      → zip inside h ≡ r
      → Unlinkable
          (before path ++ (entries r ++ after path))
          (replaced (λ hk hv. right_of null c hk hv) path (h, inside))
  unfolding replaced
  replaced-right c r k v path null inside b f only miss e = absurd miss
  replaced-right c r k v path (node hc null hk hv hr) inside b f only miss e = (
    tt,
    b,
    FitsAround-entry inside _ _ _ _ (λ b n f. f) f,
    right-entries c r (node hc null hk hv hr) hr hk hv inside path only refl e,
  )
  replaced-right c r k v path (node hc (node c' l' k' v' r') hk hv hr) inside b f only miss e =
      absurd miss

  -- the heir of a node can be unlinked, and the entries are then those without the node's
  pub heir_place-Unlinkable :
      (c : Color) (l : TreeNode K V) (k : K) (v : V) (r : TreeNode K V) (path : List (Frame K V))
      → IsRedBlack (node c l k v r)
      → FitsAround path (is_black (node c l k v r)) (black_height (node c l k v r))
      → Unlinkable
          (before path ++ ((entries l ++ entries r) ++ after path))
          (heir_place (node c l k v r) path)
  unfolding heir_place zip
  heir_place-Unlinkable c null k v null path h f = (tt, h, f, entries-around path null)
  heir_place-Unlinkable c null k v (node c' l' k' v' r') path h f =
      let (b, f', only, miss, e) =
        tree_node_min_lem c' l' k' v' r' [] (right_of null c k v ∷ path) h.1
          (right-FitsAround c null k v (node c' l' k' v' r') path h f) tt in
      replaced-right c (node c' l' k' v' r') k v path _ _ b f' only miss e
  heir_place-Unlinkable c (node c' l' k' v' r') k v r path h f =
      let (b, f', only, miss, e) =
        tree_node_max_lem c' l' k' v' r' [] (left_of c k v r ∷ path) h.0
          (left-FitsAround c (node c' l' k' v' r') k v r path h f) tt in
      replaced-left c (node c' l' k' v' r') r k v path _ _ b f' only miss e
