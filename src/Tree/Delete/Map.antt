-- ===== src/Tree/Delete/Map.antt =====
-- tree_delete (tree.c) as the removal of an entry from a sorted list.
use Prim.Native.Nat.{Ordering}
use mathlib.Core.List.{append_assoc}
use bflib.Base.{
  Ordering-cases, ℕ, ◌-◌, ◌≡◌, ◌⊎◌, inl, inr, refl, sym, ap, ◌∙◌, Option, none, some, List, [], ◌∷◌,
  ◌++◌, arith, length, length-append,
}
use bflib.Run.{Returns, returns, Returns-map, Returns-bind}
use bflib.Tree.{
  Color, TreeNode, null, node, Frame, left_of, right_of, Tree, is_black, zip, find_loop,
}
use bflib.Tree.Balance.{
  IsRedBlack, black_height, FitsAround, entries, IsTree, left-FitsAround, right-FitsAround,
}
use bflib.Tree.Sorted.{IsOrder, lookup, IsSorted, IsSorted-split}
use bflib.Tree.Sorted.Removal.{
  delete_entry, delete_entry-absent, delete_entry-split, delete_entry-IsSorted,
}
use bflib.Tree.Sorted.Walk.{find_loop-lookup, Below-eq}
use bflib.Tree.Delete.{find_place, delete_at, tree_delete}
use bflib.Tree.Delete.Heir.{before, after, entries-around, heir_place-Unlinkable}
use bflib.Tree.Delete.Unlink.{unlink-Returns}

length-removed :
    {E : Type 0} (n : ℕ) (x : E) (xs ys es es' : List E)
    → es ≡ xs ++ (x ∷ ys)
    → es' ≡ xs ++ ys
    → n ≡ length es
    → n - 1 ≡ length es'
length-removed n x xs ys es es' p q e =
    let a = length-append xs (x ∷ ys) in
    let b = length-append xs ys in let c = ap length p in let d = ap length q in omega arith

module _ {K V : Type 0} (cmp : K → K → Ordering) where
  find_place-lt :
      (key : K) (c : Color) (l : TreeNode K V) (k : K) (v : V) (r : TreeNode K V)
      (path : List (Frame K V))
      → cmp key k ≡ Ordering.lt
      → find_place cmp key (node c l k v r) path ≡ find_place cmp key l (left_of c k v r ∷ path)
  unfolding find_place
  find_place-lt key c l k v r path e = rw (e, find_place) refl

  find_place-gt :
      (key : K) (c : Color) (l : TreeNode K V) (k : K) (v : V) (r : TreeNode K V)
      (path : List (Frame K V))
      → cmp key k ≡ Ordering.gt
      → find_place cmp key (node c l k v r) path ≡ find_place cmp key r (right_of l c k v ∷ path)
  unfolding find_place
  find_place-gt key c l k v r path e = rw (e, find_place) refl

  find_place-eq :
      (key : K) (c : Color) (l : TreeNode K V) (k : K) (v : V) (r : TreeNode K V)
      (path : List (Frame K V))
      → cmp key k ≡ Ordering.eq
      → find_place cmp key (node c l k v r) path ≡ (node c l k v r, path)
  unfolding find_place
  find_place-eq key c l k v r path e = rw (e, find_place) refl

  find_loop-lt :
      (key : K) (c : Color) (l : TreeNode K V) (k : K) (v : V) (r : TreeNode K V)
      → cmp key k ≡ Ordering.lt
      → find_loop cmp key (node c l k v r) ≡ find_loop cmp key l
  unfolding find_loop
  find_loop-lt key c l k v r e = rw (e, find_loop) refl

  find_loop-gt :
      (key : K) (c : Color) (l : TreeNode K V) (k : K) (v : V) (r : TreeNode K V)
      → cmp key k ≡ Ordering.gt
      → find_loop cmp key (node c l k v r) ≡ find_loop cmp key r
  unfolding find_loop
  find_loop-gt key c l k v r e = rw (e, find_loop) refl

  find_loop-eq :
      (key : K) (c : Color) (l : TreeNode K V) (k : K) (v : V) (r : TreeNode K V)
      → cmp key k ≡ Ordering.eq
      → find_loop cmp key (node c l k v r) ≡ some v
  unfolding find_loop
  find_loop-eq key c l k v r e = rw (e, find_loop) refl

  -- the place that the walk of tree_find_node reaches, where tree_find gives `found`
  abbrev Reached : K → Option V → TreeNode K V × List (Frame K V) → Type 0
  Reached key found (null, path) = found ≡ none
  Reached key found (node c l k v r, path) = (cmp key k ≡ Ordering.eq) × (found ≡ some v)

  find_place-Reached :
      (key : K) (t : TreeNode K V) (path : List (Frame K V))
      → IsRedBlack t
      → FitsAround path (is_black t) (black_height t)
      → let (t', path') = find_place cmp key t path in
        IsRedBlack t'
        × FitsAround path' (is_black t') (black_height t')
        × (zip path' t' ≡ zip path t)
        × Reached key (find_loop cmp key t) (find_place cmp key t path)
  unfolding zip
  find_place-Reached key null path h f = unfold find_place find_loop in (h, f, refl, refl)
  find_place-Reached key (node c l k v r) path h f =
      let left =
        find_place-Reached key l (left_of c k v r ∷ path) h.0
          (left-FitsAround c l k v r path h f) in
      let right =
        find_place-Reached key r (right_of l c k v ∷ path) h.1
          (right-FitsAround c l k v r path h f) in
      elim (Ordering-cases (cmp key k)) [
        | inl e ↦ rw (find_place-lt key c l k v r path e, find_loop-lt key c l k v r e) left
        | inr (inl e) ↦
            rw (find_place-eq key c l k v r path e, find_loop-eq key c l k v r e)
              (h, f, refl, (e, refl))
        | inr (inr e) ↦ rw (find_place-gt key c l k v r path e, find_loop-gt key c l k v r e) right
      ]

  -- what a deletion does: nothing without the key, or one entry goes and its value is returned
  abbrev Deleted : K → Tree K V → Option V × Tree K V → Type 0
  Deleted key tree (result, tree') =
      (result ≡ find_loop cmp key tree.root)
      × (((result ≡ none) × (tree' ≡ tree))
          ⊎ ((xs ys : List (K × V)) × (k : K) × (v : V) × (cmp key k ≡ Ordering.eq)
              × (entries tree.root ≡ xs ++ ((k, v) ∷ ys))
              × (entries tree'.root ≡ xs ++ ys)))

  delete_at-Returns :
      (tree : Tree K V) (key : K) (t : TreeNode K V) (path : List (Frame K V))
      → IsTree tree
      → IsRedBlack t
      → FitsAround path (is_black t) (black_height t)
      → zip path t ≡ tree.root
      → Reached key (find_loop cmp key tree.root) (t, path)
      → Returns (λ r. IsTree r.1 × Deleted key tree r) (delete_at cmp tree (t, path))
  unfolding delete_at
  delete_at-Returns tree key null path valid h f e reached =
      returns (valid, (sym reached, inl (refl, refl)))
  delete_at-Returns tree key (node c l k v r) path valid h f e (equal, found) =
      let (one, rb, fits, es) = heir_place-Unlinkable c l k v r path h f in
      let whole = ap entries (sym e) ∙ entries-around path (node c l k v r) in
      let xs = before path ++ entries l in
      let ys = entries r ++ after path in
      let old : entries tree.root ≡ xs ++ ((k, v) ∷ ys) = whole ∙ simp append_assoc in
      let new : before path ++ ((entries l ++ entries r) ++ after path) ≡ xs ++ ys =
        simp append_assoc in
      Returns-bind (unlink-Returns _ _ one rb fits) (λ root (rooted, same). returns (
        (rooted, length-removed tree.size (k, v) xs ys _ _ old (same ∙ es ∙ new) valid.1),
        (sym found, inr (xs, ys, k, v, equal, old, same ∙ es ∙ new)),
      ))

  tree_delete-Deleted :
      (tree : Tree K V) (key : K)
      → IsTree tree
      → Returns (λ r. IsTree r.1 × Deleted key tree r) (tree_delete cmp tree key)
  unfolding tree_delete zip
  tree_delete-Deleted tree key valid =
      let (h, f, e, reached) = find_place-Reached key tree.root [] valid.0.0 valid.0.1 in
      delete_at-Returns tree key _ _ valid h f e reached

  Deleted-entries :
      IsOrder cmp
      → (key : K) (tree : Tree K V) (r : Option V × Tree K V) → IsSorted cmp (entries tree.root)
      → r.0 ≡ lookup cmp key (entries tree.root)
      → ((r.0 ≡ none) × (r.1 ≡ tree))
        ⊎ ((xs ys : List (K × V)) × (k : K) × (v : V) × (cmp key k ≡ Ordering.eq)
            × (entries tree.root ≡ xs ++ ((k, v) ∷ ys))
            × (entries r.1.root ≡ xs ++ ys))
      → entries r.1.root ≡ delete_entry cmp key (entries tree.root)
  Deleted-entries order key tree r sorted found (inl (absent, same)) =
      rw same (sym (delete_entry-absent cmp key (entries tree.root) (sym found ∙ absent)))
  Deleted-entries order key tree r sorted found (inr (xs, ys, k, v, e, old, new)) =
      let (_, below, _, _) = IsSorted-split cmp xs k v ys (rw old at sorted) in
      new
      ∙ sym (delete_entry-split cmp order key k v xs ys e (Below-eq cmp order key k xs e below))
      ∙ ap (delete_entry cmp key) (sym old)

  -- Whatever the comparison function does, tree_delete on a red-black tree with a black root
  -- returns, without a fault and within its fuel, another such tree, whose size is the number of
  -- its entries.
  pub tree_delete-IsTree :
      (tree : Tree K V) (key : K)
      → IsTree tree
      → Returns (λ r. IsTree r.1) (tree_delete cmp tree key)
  tree_delete-IsTree tree key valid = Returns-map (tree_delete-Deleted tree key valid) (λ r q. q.0)

  -- On a red-black tree whose entries are sorted by a total order on keys, tree_delete returns the
  -- value under the key, or NULL; it does to the entries what the removal from a sorted list does,
  -- and they stay sorted.
  pub tree_delete-entries :
      IsOrder cmp
      → (tree : Tree K V) (key : K) → IsTree tree
      → IsSorted cmp (entries tree.root)
      → Returns
          (λ r.
            (r.0 ≡ lookup cmp key (entries tree.root))
            × (entries r.1.root ≡ delete_entry cmp key (entries tree.root))
            × IsSorted cmp (entries r.1.root))
          (tree_delete cmp tree key)
  tree_delete-entries order tree key valid sorted =
      Returns-map (tree_delete-Deleted tree key valid) (λ r (_, (result, deleted)).
        let found = result ∙ find_loop-lookup cmp order key tree.root sorted in
        let removed = Deleted-entries order key tree r sorted found deleted in
        (found, removed, rw removed (delete_entry-IsSorted cmp key (entries tree.root) sorted)))
