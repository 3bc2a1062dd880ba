-- ===== src/Tree/Sorted/Walk.antt =====
-- The walks of tree_find and tree_insert (tree.c) on a tree whose entries are sorted, and the
-- insertion below a node, before the colours are mended.
use Prim.Native.Nat.{Ordering}
use bflib.Base.{
  length, length-append, ◌+◌, ◌≡◌, refl, sym, ap, ◌∙◌, none, some, List, [], ◌∷◌, true, arith,
}
use bflib.Tree.{
  red, TreeNode, null, node, Frame, left_of, right_of, is_black, zip, find_loop, insert_place,
}
use bflib.Tree.Balance.{
  left-FitsAround, right-FitsAround, IsRedBlack, black_height, FitsAround, entries,
}
use bflib.Tree.Sorted.{
  IsOrder, lookup, insert_entry, IsSorted, IsSorted-split, lookup-lt, lookup-Below, insert_entry-lt,
  insert_entry-Below, Below, swap,
}

module _ {K V : Type 0} (cmp : K → K → Ordering) where
  Below-trans :
      IsOrder cmp
      → (k key : K) (es : List (K × V)) → cmp k key ≡ Ordering.lt
      → Below cmp es k
      → Below cmp es key
  Below-trans order k key [] e h = tt
  Below-trans order k key ((k', v) ∷ es) e h =
      (order.trans k' k key h.0 e, Below-trans order k key es e h.1)

  pub Below-eq :
      IsOrder cmp
      → (key k : K) (es : List (K × V)) → cmp key k ≡ Ordering.eq
      → Below cmp es k
      → Below cmp es key
  Below-eq order key k [] e h = tt
  Below-eq order key k ((k', v) ∷ es) e h =
      let a = order.flip key k' in
      let b = order.flip k k' in
      let c = order.same key k k' e in (a ∙ ap swap c ∙ sym b ∙ h.0, Below-eq order key k es e h.1)

  -- the walk down gives the value that the sorted entries have under the key
  pub find_loop-lookup :
      IsOrder cmp
      → (key : K) (t : TreeNode K V) → IsSorted cmp (entries t)
      → find_loop cmp key t ≡ lookup cmp key (entries t)
  unfolding find_loop lookup
  find_loop-lookup order key null s = refl
  find_loop-lookup order key (node c l k v r) s =
      let (sl, below, above, sr) = IsSorted-split cmp (entries l) k v (entries r) s in
      let less = λ (e : cmp key k ≡ Ordering.lt).
        lookup-lt cmp order key k v (entries l) (entries r) e above in
      let skip = lookup-Below cmp order key (entries l) ((k, v) ∷ entries r) in
      let same = λ (e : cmp key k ≡ Ordering.eq). skip (Below-eq order key k (entries l) e below) in
      let more =
        λ (e : cmp k key ≡ Ordering.lt). skip (Below-trans order k key (entries l) e below) in
      let turned = order.flip key k in
      let left = find_loop-lookup order key l sl in
      let right = find_loop-lookup order key r sr in ground arith

  -- an insertion below a node that changes no other node
  pub insert_leaf : K → V → TreeNode K V → TreeNode K V
  insert_leaf key value null = node red null key value null
  insert_leaf key value (node c l k v r) = elim (cmp key k) [
    | Ordering.lt ↦ node c (insert_leaf key value l) k v r
    | Ordering.gt ↦ node c l k v (insert_leaf key value r)
    | Ordering.eq ↦ node c l k v r
  ]

  pub insert_leaf-entries :
      IsOrder cmp
      → (key : K) (value : V) (t : TreeNode K V) → IsSorted cmp (entries t)
      → entries (insert_leaf key value t) ≡ insert_entry cmp key value (entries t)
  unfolding insert_leaf insert_entry
  insert_leaf-entries order key value null s = refl
  insert_leaf-entries order key value (node c l k v r) s =
      let (sl, below, above, sr) = IsSorted-split cmp (entries l) k v (entries r) s in
      let less = insert_entry-lt cmp key value k v (entries l) (entries r) in
      let skip = insert_entry-Below cmp order key value (entries l) ((k, v) ∷ entries r) in
      let same = λ (e : cmp key k ≡ Ordering.eq). skip (Below-eq order key k (entries l) e below) in
      let more =
        λ (e : cmp k key ≡ Ordering.lt). skip (Below-trans order k key (entries l) e below) in
      let turned = order.flip key k in
      let left = insert_leaf-entries order key value l sl in
      let right = insert_leaf-entries order key value r sr in ground arith

  -- the walk of tree_insert finds a value where the walk of tree_find does
  pub insert_place-found :
      (key : K) (t : TreeNode K V) (path : List (Frame K V))
      → (insert_place cmp key t path).0 ≡ find_loop cmp key t
  unfolding insert_place find_loop
  insert_place-found key null path = refl
  insert_place-found key (node c l k v r) path =
      let left = insert_place-found key l (left_of c k v r ∷ path) in
      let right = insert_place-found key r (right_of l c k v ∷ path) in ground arith

  -- the empty place that the walk finds, filled with a new node
  pub insert_place-zip :
      (key : K) (value : V) (t : TreeNode K V) (path : List (Frame K V))
      → find_loop cmp key t ≡ none
      → zip (insert_place cmp key t path).1 (node red null key value null)
        ≡ zip path (insert_leaf key value t)
  unfolding insert_place find_loop insert_leaf zip
  insert_place-zip key value null path e = refl
  insert_place-zip key value (node c l k v r) path absent =
      let left = insert_place-zip key value l (left_of c k v r ∷ path) in
      let right = insert_place-zip key value r (right_of l c k v ∷ path) in ground arith

  -- and its frames fit an empty subtree
  pub insert_place-FitsAround :
      (key : K) (t : TreeNode K V) (path : List (Frame K V))
      → IsRedBlack t
      → FitsAround path (is_black t) (black_height t)
      → find_loop cmp key t ≡ none
      → FitsAround (insert_place cmp key t path).1 true 0
  unfolding insert_place find_loop
  insert_place-FitsAround key null path h f absent = f
  insert_place-FitsAround key (node c l k v r) path h f absent =
      let left =
        insert_place-FitsAround key l (left_of c k v r ∷ path) h.0
          (left-FitsAround c l k v r path h f) in
      let right =
        insert_place-FitsAround key r (right_of l c k v ∷ path) h.1
          (right-FitsAround c l k v r path h f) in
      ground arith

  pub length-insert_leaf :
      (key : K) (value : V) (t : TreeNode K V)
      → find_loop cmp key t ≡ none
      → length (entries (insert_leaf key value t)) ≡ length (entries t) + 1
  unfolding find_loop insert_leaf
  length-insert_leaf key value null absent = refl
  length-insert_leaf key value (node c l k v r) absent =
      let left = length-insert_leaf key value l in
      let right = length-insert_leaf key value r in
      let n = length-append (entries l) ((k, v) ∷ entries r) in
      let n_left = length-append (entries (insert_leaf key value l)) ((k, v) ∷ entries r) in
      let n_right = length-append (entries l) ((k, v) ∷ entries (insert_leaf key value r)) in
      ground arith

  pub insert_leaf-found :
      (key : K) (value old : V) (t : TreeNode K V)
      → find_loop cmp key t ≡ some old
      → insert_leaf key value t ≡ t
  unfolding find_loop insert_leaf
  insert_leaf-found key value old null found = cc
  insert_leaf-found key value old (node c l k v r) found =
      let left = insert_leaf-found key value old l in
      let right = insert_leaf-found key value old r in ground arith
